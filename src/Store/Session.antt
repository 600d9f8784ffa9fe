-- ===== src/Store/Session.antt =====
-- connect, bootstrap and Session.__init__ of reference/coredrp_ref/storage.py.
use core_drp.Prelude.{
  ℕ, ◌+◌, Bool, true, false, not, ◌&&◌, Option, none, some, [], ◌∷◌, leb, ◌==◌, if◌then◌else◌,
  length, Bytes, bytes_eq, codes, join,
}
use core_drp.Prelude.Int.{pos, negsuc}
use core_drp.Result.{
  Result, ok, raise, failure, type_error, require, ◌>>=◌, ◌>>◌, isolated_database_required,
  receiver_durability_unavailable, idempotency_key_conflict, admin_action_conflict,
  protocol_version_mismatch, lane_id_out_of_range, semantic_contract_mismatch, invalid_handshake,
  contract_binding_changed, stream_already_active, epoch_not_approved, sender_rollback,
  receiver_rollback, split_log,
}
use core_drp.Sha256.{sha256}
use core_drp.Wire.{binding, uid, genesis, max_payload, max_charge, max_batch, max_sequence}
use core_drp.Wire.Handshake.{ClientHello, ServerHello}
use core_drp.Store.{StreamRow, Db, find_stream, update_stream, find_event, find_admin, transaction}

-- What a connection finds: the name of the database, and two settings of the server.
pub record Server : Type 0 where
  pub isolated_name : Bool
  pub fsync_on : Bool
  pub full_page_writes_on : Bool

unfoldable pub connect : Server → Result (Unit {0})
connect v = do
  require v.isolated_name isolated_database_required
  require (v.fsync_on && v.full_page_writes_on) receiver_durability_unavailable

-- tuple(map(bytes,ident))==(receiver,incarnation), where a row is there.
abbrev agrees : Bytes → Bytes → Option (Bytes × Bytes) → Bool
agrees receiver incarnation none = true
agrees receiver incarnation (some (r, i)) = bytes_eq r receiver && bytes_eq i incarnation

abbrev no_row {ℓ} : {A : Type ℓ} → Option A → Bool
no_row none = true
no_row (some a) = false

-- The first approval of a stream, in its transaction.
unfoldable pub approve : Bytes → Bytes → Bytes → Bytes → Bytes → Bytes → Db → Result (Unit {0} × Db)
approve receiver incarnation sender epoch admin_id request d = do
  require (agrees receiver incarnation d.identity) admin_action_conflict
  require (no_row (find_stream sender d.streams)) admin_action_conflict
  root ← genesis sender epoch
  ok (
    tt,
    record d {
      identity = some (receiver, incarnation);
      streams =
          (
            sender,
            record {
              epoch = epoch;
              head = 0;
              chain = root;
              owner = 0;
              checkpoint = negsuc 0;
              last_time = pos 0;
              binding = binding;
            },
          )
          ∷ d.streams;
      admin =
          record { id = admin_id; request = request; action = codes "INITIAL_EPOCH_APPROVAL" }
          ∷ d.admin;
    },
  )

-- bootstrap
unfoldable pub bootstrap :
    Server → Bytes → Bytes → Bytes → Bytes → Bytes → Db → Result (Unit {0}) × Db
bootstrap v receiver incarnation sender epoch admin_id d =
    let request = sha256 (join (receiver ∷ incarnation ∷ sender ∷ epoch ∷ binding ∷ [])) in
    transaction d (do
      uid receiver
      uid incarnation
      uid sender
      uid epoch
      connect v
      elim (find_admin admin_id d.admin) [
        | some row ↦ (do
          require (bytes_eq row.request request) idempotency_key_conflict
          ok (tt, d))
        | none ↦ approve receiver incarnation sender epoch admin_id request d
      ])

-- class Session, without its connection.
pub record Session : Type 0 where
  pub sender : Bytes
  pub epoch : Bytes
  pub owner : ℕ
  pub hello : ServerHello

-- The remembered acknowledgement: neither or both of its fields are there.
abbrev paired : Option ℕ → Option Bytes → Bool
paired none none = true
paired (some n) (some b) = true
paired _ _ = false

abbrev remembered_fits : Option ℕ → Option Bytes → ℕ → Bool
remembered_fits (some n) (some b) tail = leb n tail && (length b == 32)
remembered_fits (some n) none tail = false
remembered_fits none b tail = true

abbrev binding_fits : Option Bytes → Bool
binding_fits none = true
binding_fits (some b) = bytes_eq b binding

-- The checks of a hello before the database is asked.
unfoldable pub check_client : ClientHello → Result (Unit {0})
check_client h = do
  require ((h.protocol_major == h.protocol_minor) && (h.protocol_minor == 1))
      protocol_version_mismatch
  uid h.sender_id
  uid h.log_epoch
  require (h.lane_id == 0) lane_id_out_of_range
  require
      (not h.has_profiles && not h.has_scope_contracts && bytes_eq h.supported_event_types (1 ∷ []))
      semantic_contract_mismatch
  require ((h.earliest_retained_sequence == 1) && leb h.durable_tail_sequence max_sequence)
      invalid_handshake
  require (paired h.remembered_ack_sequence h.remembered_ack_chain_hash) invalid_handshake
  require
      (remembered_fits h.remembered_ack_sequence h.remembered_ack_chain_hash
        h.durable_tail_sequence)
      invalid_handshake
  require (binding_fits h.remembered_contract_binding_digest) contract_binding_changed

-- The receiver's hash at a remembered sequence. A missing row is indexed, which is a TypeError.
unfoldable pub stored_hash : Bytes → Bytes → ℕ → Db → Result Bytes
stored_hash sender epoch n d =
    if n == 0 then genesis sender epoch else elim (find_event sender epoch n d.events) [
      | none ↦ raise type_error
      | some row ↦ ok row.chain
    ]

unfoldable pub check_remembered :
    Bytes → Bytes → Option ℕ → Option Bytes → StreamRow → Db → Result (Unit {0})
check_remembered sender epoch (some n) (some b) row d = do
  require (leb n row.head) receiver_rollback
  remembered ← stored_hash sender epoch n d
  require (bytes_eq remembered b) split_log
check_remembered sender epoch _ _ row d = ok tt

abbrev pub server_hello : Bytes × Bytes → StreamRow → ServerHello
server_hello (receiver, incarnation) row = record {
  protocol_major = 1;
  protocol_minor = 1;
  receiver_id = receiver;
  receiver_database_epoch = incarnation;
  committed_sequence = row.head;
  committed_chain_hash = row.chain;
  has_profiles = false;
  accepted_event_types = 1 ∷ [];
  max_event_payload_bytes = max_payload;
  max_batch_payload_bytes = max_charge;
  window_events = max_batch;
  window_bytes = max_charge;
  contract_binding_digest = binding;
  max_batch_events = max_batch;
  has_scope_contracts = false;
}

-- The next owner of the stream. A missing identity is indexed, which is a TypeError.
abbrev pub grant : ClientHello → StreamRow → Db → Option (Bytes × Bytes) → Result (Session × Db)
grant h row d none = raise type_error
grant h row d (some ident) = ok (
  record {
    sender = h.sender_id;
    epoch = h.log_epoch;
    owner = row.owner + 1;
    hello = server_hello ident row;
  },
  record d {
    streams = update_stream h.sender_id (λ r. record r { owner = row.owner + 1 }) d.streams;
  },
)

-- The transaction of Session.__init__ on a row that is there.
unfoldable pub begin_session : ClientHello → StreamRow → Db → Result (Session × Db)
begin_session h row d = do
  require (bytes_eq row.epoch h.log_epoch) epoch_not_approved
  require (bytes_eq row.binding binding) contract_binding_changed
  require (leb row.head h.durable_tail_sequence) sender_rollback
  check_remembered h.sender_id h.log_epoch h.remembered_ack_sequence h.remembered_ack_chain_hash row
      d
  grant h row d d.identity

-- A stream without a row is not approved.
abbrev pub begin_stream : ClientHello → Db → Option StreamRow → Result (Session × Db)
begin_stream h d none = raise (failure epoch_not_approved)
begin_stream h d (some row) = begin_session h row d

-- Session(dsn,h). The advisory lock of the stream is free or held by another connection.
unfoldable pub open_session : Server → Bool → ClientHello → Db → Result Session × Db
open_session v lock_free h d = transaction d (do
  check_client h
  connect v
  require lock_free stream_already_active
  begin_stream h d (find_stream h.sender_id d.streams))
