-- ===== src/Store/Ingest.antt =====
-- Session.ingest of reference/coredrp_ref/storage.py.
use core_drp.Prelude.{
  Option, Bool, ℕ, ◌+◌, ◌-◌, not, ◌&&◌, none, some, List, [], ◌∷◌, min, ltb, leb, ◌==◌,
  if◌then◌else◌, length, Bytes, bytes_eq,
}
use core_drp.Prelude.Int.{ℤ, leb_ℤ, ltb_ℤ}
use core_drp.Result.{
  Result, ok, raise, failure, type_error, database_error, require, ◌>>=◌, ◌>>◌,
  resource_limit_exceeded, sequence_gap, stream_already_active, recovery_gap, chain_mismatch,
  event_identity_mismatch, checkpoint_backdated_event,
}
use core_drp.Wire.{validate, genesis, chain, charge, max_batch, max_charge}
use core_drp.Wire.Messages.{Event, Codec}
use core_drp.Store.{
  EventRow, EffectRow, StreamRow, Db, find_stream, update_stream, find_event, find_effect,
  has_relay, transaction,
}
use core_drp.Store.Session.{Session}

-- message EventBatch
pub record Batch : Type 0 where
  pub first_sequence : ℕ
  pub events : List Event
  pub terminal_chain_hash : Bytes

-- message Ack, without its time
pub record Ack : Type 0 where
  pub committed_through_sequence : ℕ
  pub committed_chain_hash : Bytes

-- sum(map(charge,es))
abbrev pub total_charge : List Event → ℕ
total_charge [] = 0
total_charge (e ∷ es) = charge e + total_charge es

-- The variables of the second loop, with the tables it writes.
pub record Cursor : Type 0 where
  pub db : Db
  pub head : ℕ
  pub hash : Bytes
  pub last : ℤ
  pub floor : ℤ

module _ ⦃c : Codec⦄ where
  -- for e in es:validate(e)
  unfoldable pub validate_all : List Event → Result (Unit {0})
  validate_all [] = ok tt
  validate_all (e ∷ es) = do validate e; validate_all es

  module _ (sender epoch : Bytes) where
    -- The hash before the batch.
    unfoldable pub ancestor : ℕ → Db → Result Bytes
    ancestor first d =
        if first == 1
        then genesis sender epoch
        else elim (find_event sender epoch (first - 1) d.events) [
          | none ↦ raise (failure recovery_gap)
          | some row ↦ ok row.chain
        ]

    -- The first loop: the sequences follow one another, and each event gets its link.
    unfoldable pub link_all : ℕ → Bytes → List Event → Result (List (Event × Bytes) × Bytes)
    link_all n prev [] = ok ([], prev)
    link_all n prev (e ∷ es) = do
      require (e.sequence == n) sequence_gap
      link ← chain prev sender epoch e
      (prepared, terminal) ← link_all (n + 1) link es
      ok ((e, link) ∷ prepared, terminal)

    -- An event that is stored already must be the stored one.
    abbrev pub confirm_row : Event → Bytes → Cursor → Option EventRow → Result Cursor
    confirm_row e link u none = raise (failure event_identity_mismatch)
    confirm_row e link u (some row) = do
      require (bytes_eq row.event (c.event_bytes e) && bytes_eq row.chain link)
          event_identity_mismatch
      ok u

    unfoldable pub confirm : Event → Bytes → Cursor → Result Cursor
    confirm e link u = confirm_row e link u (find_event sender epoch e.sequence u.db.events)

    abbrev pub new_row : Event → Bytes → EventRow
    new_row e link = record {
      sender = sender;
      epoch = epoch;
      sequence = e.sequence;
      relay = e.relay_event_id;
      event = c.event_bytes e;
      payload = e.payload;
      chain = link;
    }

    -- The event, its effect, and the cursor behind it.
    abbrev pub inserted : Event → Bytes → ℤ → Cursor → Cursor
    inserted e link boundary u = record {
      db = record u.db {
        events = new_row e link ∷ u.db.events;
        effects =
            record {
              sender = sender;
              epoch = epoch;
              sequence = e.sequence;
              complete_through = boundary;
            }
            ∷ u.db.effects;
      };
      head = e.sequence;
      hash = link;
      last = e.event_time_unix_ms;
      floor = boundary;
    }

    -- The two inserts; the primary keys are the database's.
    abbrev pub insert :
        Event → Bytes → ℤ → Cursor → Option EventRow → Option EffectRow → Result Cursor
    insert e link boundary u none none = ok (inserted e link boundary u)
    insert e link boundary u none (some effect) = raise database_error
    insert e link boundary u (some row) effect = raise database_error

    -- The order of a new event after the ones before it.
    abbrev pub in_time : Event → ℤ → Cursor → Bool
    in_time e boundary u =
        leb_ℤ u.last e.event_time_unix_ms
        && ltb_ℤ u.floor e.event_time_unix_ms
        && leb_ℤ u.floor boundary

    unfoldable pub append : Event → Bytes → Cursor → Result Cursor
    append e link u = do
      boundary ← validate e
      require (e.sequence == u.head + 1) sequence_gap
      require (in_time e boundary u) checkpoint_backdated_event
      require (not (has_relay e.relay_event_id u.db.events)) event_identity_mismatch
      insert e link boundary u (find_event sender epoch e.sequence u.db.events)
          (find_effect sender epoch e.sequence u.db.effects)

    unfoldable pub store_event : Event → Bytes → Cursor → Result Cursor
    store_event e link u = if leb e.sequence u.head then confirm e link u else append e link u

    -- The second loop.
    unfoldable pub store_all : List (Event × Bytes) → Cursor → Result Cursor
    store_all [] u = ok u
    store_all ((e, link) ∷ ps) u = do u' ← store_event e link u; store_all ps u'

-- es[0].sequence, of a batch that is not empty
abbrev pub first_of : List Event → ℕ
first_of [] = 0
first_of (e ∷ es) = e.sequence

abbrev pub cursor_at : Db → StreamRow → Cursor
cursor_at d row = record {
  db = d;
  head = row.head;
  hash = row.chain;
  last = row.last_time;
  floor = row.checkpoint;
}

-- UPDATE streams SET ... WHERE sender=... AND owner=...
abbrev pub set_cursor : Session → Cursor → StreamRow → StreamRow
set_cursor s u r =
    if r.owner == s.owner
    then record r { head = u.head; chain = u.hash; last_time = u.last; checkpoint = u.floor }
    else r

abbrev pub commit_cursor : Session → Cursor → Db
commit_cursor s u = record u.db { streams = update_stream s.sender (set_cursor s u) u.db.streams }

module _ ⦃c : Codec⦄ where
  -- The checks of a batch before the transaction.
  unfoldable pub check_batch : Batch → ℕ → ℕ → Result (Unit {0})
  check_batch b window_events window_bytes = do
    require
        (ltb 0 (length b.events)
          && leb (length b.events) max_batch
          && leb (length b.events) window_events)
        resource_limit_exceeded
    require (leb (total_charge b.events) (min max_charge window_bytes)) resource_limit_exceeded
    require (b.first_sequence == first_of b.events) sequence_gap
    validate_all b.events

  -- The transaction on the row of the stream.
  unfoldable pub store_batch : Session → Batch → StreamRow → Db → Result (Ack × Db)
  store_batch s b row d = do
    require (bytes_eq row.epoch s.epoch && (row.owner == s.owner)) stream_already_active
    let first = first_of b.events
    require (leb first (row.head + 1)) sequence_gap
    prev ← ancestor s.sender s.epoch first d
    (prepared, terminal) ← link_all s.sender s.epoch first prev b.events
    require (bytes_eq terminal b.terminal_chain_hash) chain_mismatch
    u ← store_all s.sender s.epoch prepared (cursor_at d row)
    ok (
      record { committed_through_sequence = u.head; committed_chain_hash = u.hash },
      commit_cursor s u,
    )

  -- The row of the stream; a missing one is indexed, which is a TypeError.
  abbrev pub in_stream : Session → Batch → Db → Option StreamRow → Result (Ack × Db)
  in_stream s b d none = raise type_error
  in_stream s b d (some row) = store_batch s b row d

  unfoldable pub ingest : Session → Batch → ℕ → ℕ → Db → Result Ack × Db
  ingest s b window_events window_bytes d = transaction d (do
    check_batch b window_events window_bytes
    in_stream s b d (find_stream s.sender d.streams))
