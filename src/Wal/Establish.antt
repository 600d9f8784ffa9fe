-- ===== src/Wal/Establish.antt =====
-- WAL.__init__ of reference/coredrp_ref/wal.py establishes the invariant: whatever the directory
-- holds and however the operating system behaves, a log that opens is an open log.
use core_drp.Prelude.{
  ℕ, ◌≤◌, ◌≡◌, refl, ap, inl, inr, true, Option, Option-cases, some, List, [], arith, length,
  get_elem?, Bytes, bytes_eq→eq,
}
use core_drp.Prelude.Int.{ℤ}
use core_drp.Result.{Exception, Result, ok, raise, >>=-eq-ok, ok-inj, Result-cases}
use core_drp.Wire.Messages.{Codec}
use core_drp.Wal.{Anchor, AnchorFile, absent, corrupt, saved, Disk, Wal, Io}
use core_drp.Wal.Recover.{
  Scan, scan, hash_at, check_anchor, advanced, opened, as_corruption, read_log, recover,
}
use core_drp.Wal.Open.{Opening, open_anchor, create_anchor, open_file, open_wal}
use core_drp.Wal.Invariant.{IsOpen}
use core_drp.Wal.Opened.{scan-IsLog}

as_corruption-eq-ok {ℓ} : {A : Type ℓ} (r : Result A) {a : A} → as_corruption r ≡ ok a → r ≡ ok a
as_corruption-eq-ok (ok b) h = h
as_corruption-eq-ok (raise x) h = ground arith

pub hash_at-true :
    (hashes : List Bytes) (n : ℕ) (h : Bytes)
    → hash_at hashes n h ≡ true
    → get_elem? hashes n ≡ some h
hash_at-true hashes n h e = elim (Option-cases (get_elem? hashes n)) [
  | inl none_there ↦ cc (rw (none_there, hash_at) at e)
  | inr (g, there) ↦
      let same : g ≡ h = bytes_eq→eq g h (rw (there, hash_at) at e) in rw there (ap some same)
]

record FitsLog (a : Anchor) (s : Scan) : Type 0 where
  tail_bound : a.tail ≤ length s.events
  ack_bound : a.ack ≤ a.tail
  ack_hash : get_elem? s.hashes a.ack ≡ some a.ack_hash

check_anchor-FitsLog : (a : Anchor) (s : Scan) → check_anchor a s ≡ ok tt → FitsLog a s
unfolding check_anchor
check_anchor-FitsLog a s h =
    let tail_test = hash_at s.hashes a.tail a.tail_hash in
    let ack_test = hash_at s.hashes a.ack a.ack_hash in
    record {
      tail_bound = ground arith;
      ack_bound = ground arith;
      ack_hash = hash_at-true s.hashes a.ack a.ack_hash (ground arith);
    }

module _ ⦃c : Codec⦄ (a : Anchor) (log : Bytes) (io : Io) (d : Disk) (w : Wal) (d' : Disk) where
  read_log-eq-ok :
      (s : Scan) → read_log a log ≡ ok s → (scan a.sender a.epoch log ≡ ok s) × FitsLog a s
  unfolding read_log
  read_log-eq-ok s h =
      let (t, scanned, h1) = >>=-eq-ok (scan a.sender a.epoch log) _ (as_corruption-eq-ok _ h) in
      let (_, fits, h2) = >>=-eq-ok (check_anchor a t) _ h1 in
      let same : t ≡ s = ok-inj h2 in
      (rw same at scanned, rw same at (check_anchor-FitsLog a t fits))

  recover-eq-ok :
      (s : Scan)
      → read_log a log ≡ ok s
      → recover a log io d ≡ (ok w, d')
      → (w ≡ opened (advanced a s) s)
        × (d' ≡ record d { anchor_file = saved (advanced a s); synced = length log })
  unfolding recover
  recover-eq-ok s read h = ground arith

  recover-raised : {x : Exception} → read_log a log ≡ raise x → recover a log io d ≡ (ok w, d') → ⊥
  unfolding recover
  recover-raised read h = ground arith

  opened-IsOpen :
      d.events_file ≡ some log
      → (s : Scan) → read_log a log ≡ ok s
      → (w ≡ opened (advanced a s) s)
        × (d' ≡ record d { anchor_file = saved (advanced a s); synced = length log })
      → IsOpen (record { wal = w; disk = d' }) log
  opened-IsOpen file s read (w_is, d_is) =
      let (scanned, fits) = read_log-eq-ok s read in
      let (root, _, is_log) = scan-IsLog a.sender a.epoch log s scanned in
      rw (w_is, d_is)
        (record {
          healthy = refl;
          file = file;
          synced = refl;
          anchored = refl;
          scanned = scanned;
          tail_end = refl;
          hash_count = is_log.hash_count;
          tail_hash = refl;
          ack_bound = omega (arith, fits.tail_bound, fits.ack_bound);
          ack_hash = fits.ack_hash;
        })

  pub recover-IsOpen :
      d.events_file ≡ some log
      → recover a log io d ≡ (ok w, d')
      → IsOpen (record { wal = w; disk = d' }) log
  recover-IsOpen file h = elim (Result-cases (read_log a log)) [
    | inr (x, read) ↦ absurd (recover-raised read h)
    | inl (s, read) ↦ opened-IsOpen file s read (recover-eq-ok s read h)
  ]

module _ ⦃c : Codec⦄ (sender epoch : Option Bytes) (o : Opening) (io : Io) (w : Wal)
    (d' : Disk) where
  open_anchor-IsOpen :
      (a : Anchor) (d : Disk)
      → open_anchor sender epoch o io a d ≡ (ok w, d')
      → (log : Bytes) × IsOpen (record { wal = w; disk = d' }) log
  unfolding open_anchor
  open_anchor-IsOpen a d h = elim (Option-cases d.events_file) [
    | inl none_there ↦
        let d0 : Disk = record d { events_file = some []; synced = 0 } in
        ([], recover-IsOpen a [] io d0 w d' refl (ground arith))
    | inr (log, there) ↦ (log, recover-IsOpen a log io d w d' there (ground arith))
  ]

  open_file-IsOpen :
      (cap : ℤ) (file : AnchorFile) (d : Disk)
      → open_file sender epoch cap o io file d ≡ (ok w, d')
      → (log : Bytes) × IsOpen (record { wal = w; disk = d' }) log
  unfolding open_file
  open_file-IsOpen cap (saved a) d h = open_anchor-IsOpen a d h
  open_file-IsOpen cap corrupt d h = cc
  open_file-IsOpen cap absent d h = elim (Result-cases (create_anchor sender epoch cap d)) [
    | inr (x, e) ↦ ground arith
    | inl (a, e) ↦ open_anchor-IsOpen a (record d { anchor_file = saved a }) (ground arith)
  ]

  -- A log that opens is an open log of what events.wal then holds, for any arguments, directory,
  -- locks and behaviour of the operating system.
  pub open_wal-IsOpen :
      (cap : ℤ) (d : Disk)
      → open_wal sender epoch cap o io d ≡ (ok w, d')
      → (log : Bytes) × IsOpen (record { wal = w; disk = d' }) log
  unfolding open_wal
  open_wal-IsOpen cap d h = open_file-IsOpen cap d.anchor_file d (ground arith)
