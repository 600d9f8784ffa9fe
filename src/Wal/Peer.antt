-- ===== src/Wal/Peer.antt =====
-- The methods of WAL that follow the receiver (reference/coredrp_ref/wal.py): acknowledge, bind and
-- hello.
use core_drp.Prelude.{
  ℕ, Bool, true, false, not, ◌&&◌, Option, none, some, [], ◌∷◌, leb, ◌==◌, if◌then◌else◌, length,
  Bytes, bytes_eq,
}
use core_drp.Result.{
  Result, ok, raise, require, ◌>>◌, wal_reopen_required, invalid_handshake, receiver_id_changed,
  receiver_incarnation_changed, contract_binding_changed, semantic_contract_mismatch,
  sender_rollback, receiver_rollback, split_log,
}
use core_drp.Wire.{binding}
use core_drp.Wire.Handshake.{ClientHello, ServerHello}
use core_drp.Wal.{Wal, Op, AnchorOutcome}
use core_drp.Wal.Recover.{hash_at}
use core_drp.Wal.Admit.{save}

-- The guards of acknowledge.
unfoldable pub check_ack : Wal → ℕ → Bytes → Result (Unit {0})
check_ack w seq digest = do
  require w.healthy wal_reopen_required
  require (leb w.state.ack seq && leb seq w.state.tail) sender_rollback
  require (hash_at w.hashes seq digest) split_log

unfoldable pub acknowledge : ℕ → Bytes → AnchorOutcome → Op (Unit {0})
acknowledge seq digest outcome s = elim (check_ack s.wal seq digest) [
  | raise x ↦ (raise x, s)
  | ok _ ↦
      if seq == s.wal.state.ack
      then (ok tt, s)
      else save (record s.wal.state { ack = seq; ack_hash = digest }) outcome s
]

-- A remembered identity, if there is one, must be the one that the receiver gives.
abbrev pub same_as : Option Bytes → Bytes → Bool
same_as none b = true
same_as (some a) b = bytes_eq a b

abbrev pub same_incarnation : Option Bytes → Option Bytes → Bytes → Bool
same_incarnation none incarnation b = true
same_incarnation (some a) none b = false
same_incarnation (some a) (some i) b = bytes_eq i b

-- The guards of bind.
unfoldable pub check_hello : Wal → ServerHello → Result (Unit {0})
check_hello w h = do
  require w.healthy wal_reopen_required
  require ((length h.receiver_id == 16) && (length h.receiver_database_epoch == 16))
      invalid_handshake
  require (same_as w.state.receiver h.receiver_id) receiver_id_changed
  require (same_incarnation w.state.receiver w.state.incarnation h.receiver_database_epoch)
      receiver_incarnation_changed
  require
      ((h.protocol_major == h.protocol_minor)
        && (h.protocol_minor == 1)
        && bytes_eq h.contract_binding_digest binding)
      contract_binding_changed
  require
      (not h.has_profiles && not h.has_scope_contracts && bytes_eq h.accepted_event_types (1 ∷ []))
      semantic_contract_mismatch
  require (leb h.committed_sequence w.state.tail) sender_rollback
  require (leb w.state.ack h.committed_sequence) receiver_rollback
  require (hash_at w.hashes h.committed_sequence h.committed_chain_hash) split_log

-- The two saves of bind may end in two ways.
unfoldable pub bind : ServerHello → AnchorOutcome → AnchorOutcome → Op (Unit {0})
bind h first second s = elim (check_hello s.wal h) [
  | raise x ↦ (raise x, s)
  | ok _ ↦
      let bound_anchor = record s.wal.state {
        receiver = some h.receiver_id;
        incarnation = some h.receiver_database_epoch;
        bound = true;
      } in
      let (r, s') = save bound_anchor first s in
      elim r [
        | raise x ↦ (raise x, s')
        | ok _ ↦ acknowledge h.committed_sequence h.committed_chain_hash second s'
      ]
]

unfoldable pub hello : Wal → Result ClientHello
unfolding binding
hello w = do
  require w.healthy wal_reopen_required
  ok (record {
    protocol_major = 1;
    protocol_minor = 1;
    sender_id = w.state.sender;
    lane_id = 0;
    log_epoch = w.state.epoch;
    earliest_retained_sequence = 1;
    durable_tail_sequence = w.state.tail;
    remembered_ack_sequence = some w.state.ack;
    remembered_ack_chain_hash = some w.state.ack_hash;
    supported_event_types = 1 ∷ [];
    remembered_contract_binding_digest = if w.state.bound then some binding else none;
    has_profiles = false;
    has_scope_contracts = false;
  })
