-- ===== src/Wal/Crash.antt =====
-- Calls of admit_checkpoint (reference/coredrp_ref/wal.py) from an open log: a success is durable, a
-- failure leaves a directory that opens to the log before the call, to the log after it, or not at
-- all, and a repeated call is answered from the log.
use core_drp.Prelude.{
  ℕ, ◌≤◌, ◌≡◌, sym, ◌∙◌, ◌⊎◌, some, ◌++◌, arith, length, take, Bytes, length-hex,
}
use core_drp.Prelude.Int.{ℤ}
use core_drp.Result.{ok}
use core_drp.Sha256.{sha256, length-sha256}
use core_drp.Wire.Messages.{Codec, IsCodec}
use core_drp.Wal.{saved, Disk, Wal, Lab, Io}
use core_drp.Wal.Open.{Opening}
use core_drp.Wal.Admit.{
  Prepared, prepare, commit, admit_new, admit_checkpoint, request_digest, file_bytes,
}
use core_drp.Wal.Invariant.{IsOpen}
use core_drp.Wal.Prepared.{IsPrepared, prepare-IsPrepared}
use core_drp.Wal.Reopen.{Undisturbed}
use core_drp.Wal.Extended.{with_event, after, after-IsOpen, found_after, open_after}
use core_drp.Wal.Durability.{written, commit-file, commit-anchor, commit-ok, reopen, IsNew}

module _ ⦃c : Codec⦄ (s : Lab) (log key : Bytes) (event_time boundary : ℤ) (relay : Bytes)
    (p : Prepared) (is_open : IsOpen s log)
    (new : IsNew s log key event_time boundary relay p) where
  admit_new-eq-commit :
      (io : Io)
      → admit_new key event_time boundary relay io s ≡ commit key event_time boundary p io s
  unfolding admit_new
  admit_new-eq-commit io =
      let digest = request_digest event_time boundary in
      let accepted : prepare s.wal (file_bytes s.disk.events_file) key event_time boundary relay
            digest
          ≡ ok p =
        rw is_open.file new.prepared in
      rw (accepted, admit_new)

  pub admit-eq-commit :
      (io : Io)
      → admit_checkpoint key event_time boundary relay io s ≡ commit key event_time boundary p io s
  unfolding admit_checkpoint
  admit-eq-commit io =
      ground
        (arith, is_open.healthy, new.fresh, new.key_nonempty, new.key_short, admit_new-eq-commit io)

  length-request : length (request_digest event_time boundary) ≤ 64
  unfolding request_digest
  length-request = omega (
    arith,
    length-hex (sha256 (c.pair_bytes event_time boundary)),
    length-sha256 (c.pair_bytes event_time boundary),
  )

  pub ready :
      IsPrepared s.wal log key event_time boundary relay (request_digest event_time boundary) p
  ready =
      prepare-IsPrepared s.wal log key event_time boundary relay
        (request_digest event_time boundary) p new.relay_is_bytes new.prepared

module _ ⦃c : Codec⦄ (laws : IsCodec c) (s : Lab) (log key : Bytes) (event_time boundary : ℤ)
    (relay : Bytes) (p : Prepared) (is_open : IsOpen s log)
    (new : IsNew s log key event_time boundary relay p) where
  abbrev next : Wal
  next = with_event s.wal key event_time boundary p

  next-IsOpen : IsOpen (after s log key event_time boundary p) (log ++ p.bytes)
  next-IsOpen =
      after-IsOpen laws s log key event_time boundary relay (request_digest event_time boundary) p
        is_open (ready s log key event_time boundary relay p is_open new) new.fresh new.key_short
        (length-request s log key event_time boundary relay p is_open new)

  -- A call of admit_checkpoint for a new key, on an open log and with its guards passed, that
  -- returns has returned the next sequence, and leaves an open log with exactly this record more,
  -- forced to the disk.
  pub admit_new-ok :
      (io : Io) (seq : ℕ) (s' : Lab)
      → admit_checkpoint key event_time boundary relay io s ≡ (ok seq, s')
      → (seq ≡ p.event.sequence)
        × (s' ≡ after s log key event_time boundary p)
        × IsOpen s' (log ++ p.bytes)
  admit_new-ok io seq s' h =
      let committed = admit-eq-commit s log key event_time boundary relay p is_open new io in
      let (seq_is, s_is) =
        commit-ok s log key event_time boundary p io is_open.file is_open.anchored seq s'
          (sym committed ∙ h) in
      (seq_is, s_is, rw s_is next-IsOpen)

  -- The section of Extended at this call.
  abbrev digest : Bytes
  digest = request_digest event_time boundary

  module _ (io : Io) where
    abbrev disk_after : Disk
    disk_after = (commit key event_time boundary p io s).1.disk

    file_after : disk_after.events_file ≡ some (log ++ take (written io) p.bytes)
    file_after = commit-file s log key event_time boundary p io is_open.file is_open.anchored

    anchor_after_commit :
        (disk_after.anchor_file ≡ saved s.wal.state)
        ⊎ ((length p.bytes ≤ written io) × (disk_after.anchor_file ≡ saved next.state))
    anchor_after_commit =
        commit-anchor s log key event_time boundary p io is_open.file is_open.anchored

  -- After a call of admit_checkpoint for a new key, on an open log and with its guards passed,
  -- whatever the operating system did to the call, an undisturbed reopening finds by the bytes of
  -- the record that reached the file: the log before the call if none did, WAL_CORRUPTION if a
  -- part did, and the log with the event, whole and once, if all did.
  pub reopen_after_crash :
      (o : Opening) (io io' : Io) (cap : ℤ)
      → Undisturbed o io'
      → (reopen cap o io' (admit_checkpoint key event_time boundary relay io s).1.disk).0
        ≡ found_after s key event_time boundary p (written io)
  reopen_after_crash o io io' cap u =
      rw (admit-eq-commit s log key event_time boundary relay p is_open new io) (
        open_after laws s log key event_time boundary relay digest p is_open
          (ready s log key event_time boundary relay p is_open new) new.fresh new.key_short
          (length-request s log key event_time boundary relay p is_open new) o io' u cap
          (disk_after io) (written io) (file_after io) (anchor_after_commit io))
