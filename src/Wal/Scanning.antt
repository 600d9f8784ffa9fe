-- ===== src/Wal/Scanning.antt =====
-- Scans of a log with a record behind it: written whole, or cut short by a crash.
use mathlib.Core.List.{append-nil}
use core_drp.Prelude.{
  ℕ, zero, suc, ◌+◌, ◌≤◌, ◌<◌, ◌≡◌, ap, ◌∙◌, [], ◌∷◌, ◌++◌, arith, length, take, length-append,
  length-take, Bytes,
}
use core_drp.Result.{ok, raise, failure, wal_corruption, >>=-eq-ok}
use core_drp.Wire.{genesis}
use core_drp.Wire.Messages.{Codec}
use core_drp.Wal.Frame.{
  header, frame, read_frame, read_frame-frame, read_frame-partial, read_frame-extend,
  read_frame-shorter,
}
use core_drp.Wal.Recover.{Scan, read_entry, scan_from, scan}

module _ ⦃c : Codec⦄ (sender epoch : Bytes) where
  -- A scan goes on where more follows, with fuel that covers the rest.
  scan_from-append :
      (f : ℕ) (b more : Bytes) (s t : Scan) (g : ℕ)
      → scan_from sender epoch f b s ≡ ok t
      → length b + length more < g
      → (h : ℕ) × (length more < h)
        × (scan_from sender epoch g (b ++ more) s ≡ scan_from sender epoch h more t)
  unfolding scan_from
  scan_from-append zero b more s t g e lt = cc
  scan_from-append (suc f) [] more s t g e lt =
      (g, omega arith, ap (λ r. scan_from sender epoch g more r) (cc e))
  scan_from-append (suc f) (x ∷ b) more s t zero e lt = absurd (omega arith)
  scan_from-append (suc f) (x ∷ b) more s t (suc g) e lt =
      let ((raw, rest), read, e1) = >>=-eq-ok (read_frame (x ∷ b)) _ e in
      let (s', entry, e2) = >>=-eq-ok (read_entry sender epoch raw s) _ e1 in
      let (h, enough, same) =
        scan_from-append f rest more s' t g e2
          (omega (arith, read_frame-shorter (x ∷ b) raw rest read)) in
      (h, enough, rw (read_frame-extend (x ∷ b) more raw rest read, entry) same)

  scan_from-record :
      (h : ℕ) (raw : Bytes) (s t : Scan)
      → length (frame raw) < h
      → 0 < length raw
      → length raw ≤ 16384
      → read_entry sender epoch raw s ≡ ok t
      → scan_from sender epoch h (frame raw) s ≡ ok t
  unfolding scan_from frame header
  scan_from-record zero raw s t more lo hi entry = absurd (omega arith)
  scan_from-record (suc zero) raw s t more lo hi entry = absurd (omega arith)
  scan_from-record (suc (suc h)) raw s t more lo hi entry =
      let read : read_frame (frame raw) ≡ ok (raw, []) =
        rw append-nil at (read_frame-frame raw [] lo hi) in
      rw (read, entry)

  scan_from-partial :
      (h : ℕ) (raw : Bytes) (n : ℕ) (s : Scan)
      → n < h
      → 0 < n
      → n < length (frame raw)
      → length raw ≤ 16384
      → scan_from sender epoch h (take n (frame raw)) s ≡ raise (failure wal_corruption)
  unfolding scan_from frame header
  scan_from-partial zero raw n s more lo short hi = absurd (omega arith)
  scan_from-partial (suc h) raw zero s more lo short hi = absurd (omega arith)
  scan_from-partial (suc h) raw (suc n) s more lo short hi =
      rw (read_frame-partial raw hi (suc n) short)

  -- A record that a scan accepts, behind a log that it accepts.
  pub scan-record :
      (log raw : Bytes) (s t : Scan)
      → scan sender epoch log ≡ ok s
      → 0 < length raw
      → length raw ≤ 16384
      → read_entry sender epoch raw s ≡ ok t
      → scan sender epoch (log ++ frame raw) ≡ ok t
  unfolding scan
  scan-record log raw s t e lo hi entry =
      let (root, start, e1) = >>=-eq-ok (genesis sender epoch) _ e in
      let (h, enough, same) =
        scan_from-append (suc (length log)) log (frame raw) _ s (suc (length (log ++ frame raw))) e1
          (omega (arith, length-append log (frame raw))) in
      rw start (same ∙ scan_from-record h raw s t enough lo hi entry)

  -- A record of which only a part was written makes the log corrupt.
  pub scan-partial :
      (log raw : Bytes) (n : ℕ) (s : Scan)
      → scan sender epoch log ≡ ok s
      → 0 < n
      → n < length (frame raw)
      → length raw ≤ 16384
      → scan sender epoch (log ++ take n (frame raw)) ≡ raise (failure wal_corruption)
  unfolding scan
  scan-partial log raw n s e lo short hi =
      let cut = take n (frame raw) in
      let (root, start, e1) = >>=-eq-ok (genesis sender epoch) _ e in
      let (h, enough, same) =
        scan_from-append (suc (length log)) log cut _ s (suc (length (log ++ cut))) e1
          (omega (arith, length-append log cut)) in
      rw start
        (same ∙ scan_from-partial h raw n s (omega (arith, length-take n (frame raw))) lo short hi)
