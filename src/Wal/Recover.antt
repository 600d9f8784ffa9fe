-- ===== src/Wal/Recover.antt =====
-- WAL.recover and WAL.__init__ of reference/coredrp_ref/wal.py: what opening a log reads and checks.
use core_drp.Prelude.{
  ℕ, zero, suc, ◌+◌, Bool, true, false, not, ◌&&◌, Option, none, some, List, [], ◌∷◌, ◌++◌, leb,
  ◌==◌, if◌then◌else◌, length, get_elem?, Bytes, bytes_eq, hex, from_hex,
}
use core_drp.Prelude.Int.{ℤ, pos, negsuc, leb_ℤ, ltb_ℤ}
use core_drp.Result.{
  Exception, Result, ok, raise, failure, value_error, key_error, type_error, decode_error, os_error,
  out_of_fuel, require, ◌>>=◌, ◌>>◌, wal_corruption, wal_io_failure,
}
use core_drp.Wire.{genesis, validate, chain}
use core_drp.Wire.Messages.{Event, Codec, LogRecord, ParsedRecord, parsed, no_record, other_json}
use core_drp.Wal.{Anchor, Disk, Keys, find_key, Wal, Io, anchor_after, last_hash}
use core_drp.Wal.Frame.{read_frame}

-- The variables of the loop of `recover`.
pub record Scan : Type 0 where
  pub events : List Event
  pub hashes : List Bytes
  pub keys : Keys
  pub last_time : ℤ
  pub floor : ℤ

abbrev pub is_none {ℓ} : {A : Type ℓ} → Option A → Bool
is_none none = true
is_none (some a) = false

-- The Python exceptions of a fallible parse.
abbrev pub or_raise {ℓ} : {A : Type ℓ} → Option A → Exception → Result A
or_raise none x = raise x
or_raise (some a) x = ok a

-- except (ValueError,KeyError,IndexError)
abbrev pub as_corruption {ℓ} : {A : Type ℓ} → Result A → Result A
as_corruption (ok a) = ok a
as_corruption (raise value_error) = raise (failure wal_corruption)
as_corruption (raise key_error) = raise (failure wal_corruption)
as_corruption (raise x) = raise x

-- json.loads of a record, with its lookups.
abbrev pub record_or_raise : ParsedRecord → Result LogRecord
record_or_raise (parsed x) = ok x
record_or_raise no_record = raise value_error
record_or_raise other_json = raise type_error

module _ ⦃c : Codec⦄ (sender epoch : Bytes) where
  -- The checks of one event against the log so far, and the log with it.
  unfoldable pub extend : LogRecord → Event → Scan → Result Scan
  extend x e s = do
    require ((e.sequence == length s.events + 1) && is_none (find_key x.key s.keys)) wal_corruption
    boundary ← validate e
    require
        (leb_ℤ s.last_time e.event_time_unix_ms
          && ltb_ℤ s.floor e.event_time_unix_ms
          && leb_ℤ s.floor boundary)
        wal_corruption
    ch ← chain (last_hash s.hashes) sender epoch e
    require (bytes_eq (hex ch) x.chain) wal_corruption
    ok (record {
      events = s.events ++ e ∷ [];
      hashes = s.hashes ++ ch ∷ [];
      keys = s.keys ++ (x.key, x.request, e.sequence) ∷ [];
      last_time = e.event_time_unix_ms;
      floor = boundary;
    })

  unfoldable pub read_entry : Bytes → Scan → Result Scan
  read_entry raw s = do
    x ← record_or_raise (c.parse_record raw)
    bytes ← or_raise (from_hex x.event) value_error
    e ← or_raise (c.parse_event bytes) decode_error
    extend x e s

  -- while header:=self.file.read(8)
  unfoldable pub scan_from : ℕ → Bytes → Scan → Result Scan
  scan_from zero b s = raise out_of_fuel
  scan_from (suc fuel) [] s = ok s
  scan_from (suc fuel) (x ∷ b) s = do
    (raw, rest) ← read_frame (x ∷ b)
    s' ← read_entry raw s
    scan_from fuel rest s'

  unfoldable pub scan : Bytes → Result Scan
  scan b = do
    root ← genesis sender epoch
    scan_from (suc (length b)) b
        (record { events = []; hashes = root ∷ []; keys = []; last_time = pos 0; floor = negsuc 0 })

-- hashes[i]==h
abbrev pub hash_at : List Bytes → ℕ → Bytes → Bool
hash_at hashes i h = elim (get_elem? hashes i) [ none ↦ false | some g ↦ bytes_eq g h ]

-- The checks of the anchor against the events.
unfoldable pub check_anchor : Anchor → Scan → Result (Unit {0})
check_anchor a s = do
  require (leb a.tail (length s.events) && hash_at s.hashes a.tail a.tail_hash) wal_corruption
  require (leb a.ack a.tail && hash_at s.hashes a.ack a.ack_hash) wal_corruption

-- The anchor after a scan: a complete suffix beyond a lagging anchor is retained.
abbrev pub advanced : Anchor → Scan → Anchor
advanced a s = record a {
  tail = length s.events;
  tail_hash = last_hash s.hashes;
  last_time = s.last_time;
  checkpoint = s.floor;
}

abbrev pub opened : Anchor → Scan → Wal
opened a s = record {
  healthy = true;
  state = a;
  events = s.events;
  hashes = s.hashes;
  keys = s.keys;
}

-- recover: scan, check, force the file to the disk, and only then save the anchor. A method that
-- cannot do so raises, and the caller of the constructor gets no log.
module _ ⦃c : Codec⦄ where
  unfoldable pub read_log : Anchor → Bytes → Result Scan
  read_log a log = as_corruption (do s ← scan a.sender a.epoch log; check_anchor a s; ok s)

  unfoldable pub recover : Anchor → Bytes → Io → Disk → Result Wal × Disk
  recover a log io d = elim (read_log a log) [
    | raise x ↦ (raise x, d)
    | ok s ↦
        if not io.fsync
        then (raise os_error, d)
        else let (file, returned) = anchor_after io.anchor (advanced a s) d.anchor_file in
          let d' = record d { anchor_file = file; synced = length log } in
          if returned
          then (ok (opened (advanced a s) s), d')
          else (raise (failure wal_io_failure), d')
  ]
