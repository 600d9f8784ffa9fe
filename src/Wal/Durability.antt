-- ===== src/Wal/Durability.antt =====
-- Durability of admit_checkpoint (reference/coredrp_ref/wal.py): what the directory holds after a
-- call, whatever the operating system did to it, and what reopening then finds.
use mathlib.Core.List.{append-nil}
use core_drp.Prelude.{
  ℕ, ◌≤◌, ◌<◌, ◌≡◌, ◌⊎◌, inl, inr, Option-cases, none, some, ◌++◌, arith, length, take, take_all,
  Bytes, IsBytes,
}
use core_drp.Prelude.Int.{ℤ}
use core_drp.Result.{Result, ok}
use core_drp.Wire.Messages.{Codec}
use core_drp.Wal.{saved, Disk, Wal, Lab, Io, find_key}
use core_drp.Wal.Open.{Opening, open_wal}
use core_drp.Wal.Admit.{Prepared, next_anchor, prepare, commit, request_digest}
use core_drp.Wal.Extended.{after}

-- The bytes of the record that reach the file.
abbrev pub written : Io → ℕ
written io = elim io.write [ none ↦ 0 | some n ↦ n ]

module _ (s : Lab) (log key : Bytes) (event_time boundary : ℤ) (p : Prepared) (io : Io)
    (file : s.disk.events_file ≡ some log) (anchored : s.disk.anchor_file ≡ saved s.wal.state) where
  abbrev disk_after : Disk
  disk_after = (commit key event_time boundary p io s).1.disk

  pub commit-file : disk_after.events_file ≡ some (log ++ take (written io) p.bytes)
  unfolding commit
  commit-file = elim (Option-cases io.write) [
    | inl e ↦ rw (e, append-nil) file
    | inr (n, e) ↦ ground (arith, file)
  ]

  pub commit-anchor :
      (disk_after.anchor_file ≡ saved s.wal.state)
      ⊎ ((length p.bytes ≤ written io)
          × (disk_after.anchor_file ≡ saved (next_anchor s.wal.state event_time boundary p)))
  unfolding commit
  commit-anchor = ground (arith, anchored)

  pub commit-ok :
      (seq : ℕ) (s' : Lab)
      → commit key event_time boundary p io s ≡ (ok seq, s')
      → (seq ≡ p.event.sequence) × (s' ≡ after s log key event_time boundary p)
  unfolding commit
  commit-ok seq s' h = elim (Option-cases io.write) [
    | inl e ↦ ground arith
    | inr (n, e) ↦ ground (arith, file, take_all p.bytes n)
  ]

-- Reopening with nothing in the way, from whatever handle of the same directory.
abbrev pub reopen : ⦃c : Codec⦄ → ℤ → Opening → Io → Disk → Result Wal × Disk
reopen cap o io d = open_wal none none cap o io d

-- The call of admit_checkpoint for a key that the log does not hold, with its guards passed.
pub record IsNew ⦃c : Codec⦄ (s : Lab) (log key : Bytes) (event_time boundary : ℤ) (relay : Bytes)
    (p : Prepared) : Type 0 where
  pub key_nonempty : 0 < length key
  pub key_short : length key ≤ 128
  pub relay_is_bytes : IsBytes relay
  pub fresh : find_key key s.wal.keys ≡ none
  pub prepared :
      prepare s.wal log key event_time boundary relay (request_digest event_time boundary) ≡ ok p
