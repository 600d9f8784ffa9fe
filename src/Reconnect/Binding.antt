-- ===== src/Reconnect/Binding.antt =====
-- WAL.bind of reference/coredrp_ref/wal.py implements the reconnect decision of
-- tools/verify_state_vectors.py.
use core_drp.Prelude.{◌≡◌, true, false, [], ◌∷◌, arith, length, bytes_eq, bytes_eq_iff}
use core_drp.Result.{Result, ok, raise, failure, Code}
use core_drp.Wire.{binding}
use core_drp.Wire.Handshake.{ServerHello}
use core_drp.Wal.{Wal}
use core_drp.Wal.Recover.{hash_at}
use core_drp.Wal.Peer.{check_hello, same_as, same_incarnation}
use core_drp.Reconnect.{ReconnectCase, ReconnectVerdict, adopt_ack, resume, reconnect}
use core_drp.Reconnect

-- The case that a log and the hello of a receiver are. The log retains every event and knows the hash
-- at each, and an epoch that is not approved has got no hello.
abbrev pub case_of : Wal → ServerHello → ReconnectCase
case_of w h =
    let match = hash_at w.hashes h.committed_sequence h.committed_chain_hash in
    record {
      committed = h.committed_sequence;
      remembered = w.state.ack;
      tail = w.state.tail;
      earliest = 1;
      same_receiver_id = same_as w.state.receiver h.receiver_id;
      same_incarnation =
          same_incarnation w.state.receiver w.state.incarnation h.receiver_database_epoch;
      approved_epoch = true;
      genesis_hash_match = match;
      hash_match = match;
      receiver_hash_verifiable = true;
    }

-- What bind does on each decision.
abbrev pub outcome : ReconnectVerdict → Result (Unit {0})
outcome Reconnect.receiver_id_changed = raise (failure Code.receiver_id_changed)
outcome Reconnect.receiver_incarnation_changed = raise (failure Code.receiver_incarnation_changed)
outcome Reconnect.epoch_not_approved = raise (failure Code.epoch_not_approved)
outcome Reconnect.sender_rollback = raise (failure Code.sender_rollback)
outcome Reconnect.receiver_rollback = raise (failure Code.receiver_rollback)
outcome Reconnect.split_log = raise (failure Code.split_log)
outcome Reconnect.recovery_gap = raise (failure Code.recovery_gap)
outcome adopt_ack = ok tt
outcome resume = ok tt

-- For a healthy log and a hello with identifiers of sixteen bytes and the contract of this version,
-- the checks of bind answer what the reconnect decision says.
pub check_hello-reconnect :
    (w : Wal) (h : ServerHello)
    → w.healthy ≡ true
    → length h.receiver_id ≡ 16
    → length h.receiver_database_epoch ≡ 16
    → (h.protocol_major ≡ 1) × (h.protocol_minor ≡ 1)
    → h.contract_binding_digest ≡ binding
    → (h.has_profiles ≡ false) × (h.has_scope_contracts ≡ false)
    → h.accepted_event_types ≡ 1 ∷ []
    → check_hello w h ≡ outcome (reconnect (case_of w h))
unfolding check_hello reconnect
check_hello-reconnect w h healthy receiver database version digest profiles types =
    let same_digest : bytes_eq h.contract_binding_digest binding ≡ true =
      (bytes_eq_iff _ _).1 digest in
    let same_types : bytes_eq h.accepted_event_types (1 ∷ []) ≡ true = (bytes_eq_iff _ _).1 types in
    let match = hash_at w.hashes h.committed_sequence h.committed_chain_hash in
    ground (arith, healthy, receiver, database, version, profiles, same_digest, same_types)
