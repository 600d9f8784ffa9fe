-- ===== src/Wal/Admit.antt =====
-- The methods of WAL that write (reference/coredrp_ref/wal.py): check, save, increase_cap and
-- admit_checkpoint.
use core_drp.Prelude.{
  ℕ, ◌+◌, Bool, false, not, ◌&&◌, ◌||◌, Option, none, some, [], ◌∷◌, ◌++◌, ltb, leb, if◌then◌else◌,
  length, take, Bytes, bytes_eq, hex,
}
use core_drp.Prelude.Int.{ℤ, pos, leb_ℤ, ltb_ℤ}
use core_drp.Result.{
  Result, ok, raise, failure, require, ◌>>=◌, ◌>>◌, wal_io_failure, wal_reopen_required,
  invalid_cap_increase, invalid_handshake, idempotency_key_conflict, epoch_not_approved,
  checkpoint_backdated_event, resource_limit_exceeded,
}
use core_drp.Sha256.{sha256}
use core_drp.Wire.{validate, chain, checkpoint}
use core_drp.Wire.Messages.{Event, Codec, LogRecord}
use core_drp.Wal.{Anchor, Disk, find_key, Wal, Lab, Io, Op, AnchorOutcome, anchor_after, last_hash}
use core_drp.Wal.Frame.{frame}

abbrev pub closed : Lab → Lab
closed s = record s { wal = record s.wal { healthy = false } }

-- self.state=a;self.save(): with a failing anchor the object is closed.
unfoldable pub save : Anchor → AnchorOutcome → Op (Unit {0})
save a outcome s =
    let (file, returned) = anchor_after outcome a s.disk.anchor_file in
    let s' : Lab = record {
      wal = record s.wal { state = a };
      disk = record s.disk { anchor_file = file };
    } in
    if returned then (ok tt, s') else (raise (failure wal_io_failure), closed s')

unfoldable pub increase_cap : ℤ → Io → Op (Unit {0})
increase_cap cap io s =
    let checks = do
      require s.wal.healthy wal_reopen_required
      require (ltb_ℤ s.wal.state.cap cap) invalid_cap_increase
    in elim checks [
      | raise x ↦ (raise x, s)
      | ok _ ↦ save (record s.wal.state { cap = cap }) io.anchor s
    ]

-- An event that passed every check, with its link and its record.
pub record Prepared : Type 0 where
  pub event : Event
  pub chain_hash : Bytes
  pub request : Bytes
  pub bytes : Bytes

-- The content of events.wal.
abbrev pub file_bytes : Option Bytes → Bytes
file_bytes none = []
file_bytes (some b) = b

-- The order of the new event after the events of the log.
abbrev pub in_order : Wal → ℤ → ℤ → Bool
in_order w event_time boundary =
    leb_ℤ w.state.last_time event_time
    && ltb_ℤ w.state.checkpoint event_time
    && leb_ℤ w.state.checkpoint boundary

-- The file with the record stays within the cap.
abbrev pub within_cap : Wal → Bytes → Bytes → Bool
within_cap w log bytes = leb_ℤ (pos (length log + length bytes)) w.state.cap

module _ ⦃c : Codec⦄ where
  -- The record of an event in the file.
  abbrev pub log_record : Bytes → Bytes → Event → Bytes → LogRecord
  log_record key request e ch = record {
    key = key;
    request = request;
    event = hex (c.event_bytes e);
    chain = hex ch;
  }

  abbrev pub entry_bytes : Bytes → Bytes → Event → Bytes → Bytes
  entry_bytes key request e ch = frame (c.record_bytes (log_record key request e ch))

  -- H(canonical([event_time,boundary])).hex()
  unfoldable pub request_digest : ℤ → ℤ → Bytes
  request_digest event_time boundary = hex (sha256 (c.pair_bytes event_time boundary))

  -- admit_checkpoint for a new key, up to the check of the cap.
  unfoldable pub prepare : Wal → Bytes → Bytes → ℤ → ℤ → Bytes → Bytes → Result Prepared
  prepare w log key event_time boundary relay request = do
    require w.state.bound epoch_not_approved
    e ← checkpoint (w.state.tail + 1) event_time boundary relay
    validate e
    require (in_order w event_time boundary) checkpoint_backdated_event
    ch ← chain (last_hash w.hashes) w.state.sender w.state.epoch e
    require (within_cap w log (entry_bytes key request e ch)) resource_limit_exceeded
    ok (record {
      event = e;
      chain_hash = ch;
      request = request;
      bytes = entry_bytes key request e ch;
    })

-- The event as the log object holds it.
abbrev pub appended : Wal → Bytes → Prepared → Wal
appended w key p = record w {
  events = w.events ++ p.event ∷ [];
  hashes = w.hashes ++ p.chain_hash ∷ [];
  keys = w.keys ++ (key, p.request, p.event.sequence) ∷ [];
}

abbrev pub next_anchor : Anchor → ℤ → ℤ → Prepared → Anchor
next_anchor a event_time boundary p = record a {
  tail = p.event.sequence;
  tail_hash = p.chain_hash;
  last_time = event_time;
  checkpoint = boundary;
}

-- events.wal with the first n bytes of a record behind it.
abbrev pub write_bytes : Disk → ℕ → Bytes → Disk
write_bytes d n bytes = record d { events_file = some (file_bytes d.events_file ++ take n bytes) }

-- The write, the fsync and the anchor. Every failure closes the object.
unfoldable pub commit : Bytes → ℤ → ℤ → Prepared → Io → Op ℕ
unfolding save
commit key event_time boundary p io s = elim io.write [
  | none ↦ (raise (failure wal_io_failure), closed s)
  | some n ↦
      let s1 = record s { disk = write_bytes s.disk n p.bytes } in
      if ltb n (length p.bytes) || not io.fsync
      then (raise (failure wal_io_failure), closed s1)
      else let s2 = record s1 {
        disk = record s1.disk { synced = length (file_bytes s1.disk.events_file) };
      } in
        let (saved_ok, s3) = save (next_anchor s.wal.state event_time boundary p) io.anchor s2 in
        elim saved_ok [
          | raise x ↦ (raise x, closed s3)
          | ok _ ↦ (ok p.event.sequence, record s3 { wal = appended s3.wal key p })
        ]
]

-- The answer to a key that the log holds.
abbrev replayed : Bytes → Bytes × ℕ → Result ℕ
replayed request (old, seq) = do require (bytes_eq old request) idempotency_key_conflict; ok seq

module _ ⦃c : Codec⦄ where
  unfoldable pub admit_new : Bytes → ℤ → ℤ → Bytes → Io → Op ℕ
  admit_new key event_time boundary relay io s =
      let log = file_bytes s.disk.events_file in
      elim (prepare s.wal log key event_time boundary relay (request_digest event_time boundary)) [
        | raise x ↦ (raise x, s)
        | ok p ↦ commit key event_time boundary p io s
      ]

  unfoldable pub admit_checkpoint : Bytes → ℤ → ℤ → Bytes → Io → Op ℕ
  admit_checkpoint key event_time boundary relay io s =
      let checks = do
        require s.wal.healthy wal_reopen_required
        require (ltb 0 (length key) && leb (length key) 128) invalid_handshake
      in elim checks [
        | raise x ↦ (raise x, s)
        | ok _ ↦ elim (find_key key s.wal.keys) [
          | some found ↦ (replayed (request_digest event_time boundary) found, s)
          | none ↦ admit_new key event_time boundary relay io s
        ]
      ]
