-- ===== src/Wal/Invariant.antt =====
-- The invariant of an open log, and what one more record means for a scan.
use core_drp.Prelude.{
  ℕ, zero, suc, ◌≤◌, ◌≡◌, refl, true, some, List, [], ◌∷◌, ◌++◌, arith, length, get_elem?, Bytes,
}
use core_drp.Result.{ok}
use core_drp.Wire.Messages.{Codec}
use core_drp.Wal.{saved, Wal, Lab, last_hash}
use core_drp.Wal.Recover.{Scan, scan}

-- The log object as the variables of a scan.
abbrev pub as_scan : Wal → Scan
as_scan w = record {
  events = w.events;
  hashes = w.hashes;
  keys = w.keys;
  last_time = w.state.last_time;
  floor = w.state.checkpoint;
}

-- An open log: the directory holds `log`, forced to the disk; a scan of it gives the object; and the
-- saved anchor is the object's, with its tail at the end of the log and its ack on a hash of it.
pub record IsOpen ⦃c : Codec⦄ (s : Lab) (log : Bytes) : Type 0 where
  pub healthy : s.wal.healthy ≡ true
  pub file : s.disk.events_file ≡ some log
  pub synced : s.disk.synced ≡ length log
  pub anchored : s.disk.anchor_file ≡ saved s.wal.state
  pub scanned : scan s.wal.state.sender s.wal.state.epoch log ≡ ok (as_scan s.wal)
  pub tail_end : s.wal.state.tail ≡ length s.wal.events
  pub hash_count : length s.wal.hashes ≡ suc (length s.wal.events)
  pub tail_hash : s.wal.state.tail_hash ≡ last_hash s.wal.hashes
  pub ack_bound : s.wal.state.ack ≤ s.wal.state.tail
  pub ack_hash : get_elem? s.wal.hashes s.wal.state.ack ≡ some s.wal.state.ack_hash

-- The last hash stands at the number of events.
pub get_elem?-last_hash :
    (hashes : List Bytes) (n : ℕ)
    → length hashes ≡ suc n
    → get_elem? hashes n ≡ some (last_hash hashes)
get_elem?-last_hash [] n h = absurd (omega arith)
get_elem?-last_hash (x ∷ []) zero h = refl
get_elem?-last_hash (x ∷ []) (suc n) h = absurd (omega arith)
get_elem?-last_hash (x ∷ y ∷ hs) zero h = absurd (omega arith)
get_elem?-last_hash (x ∷ y ∷ hs) (suc n) h = get_elem?-last_hash (y ∷ hs) n (omega arith)

pub last_hash-append : (hashes : List Bytes) (h : Bytes) → last_hash (hashes ++ h ∷ []) ≡ h
last_hash-append [] h = refl
last_hash-append (x ∷ []) h = refl
last_hash-append (x ∷ y ∷ hs) h = last_hash-append (y ∷ hs) h
