-- ===== src/Wal/Reopen.antt =====
-- Opening the directory of a log (recover and WAL.__init__) when the scan of its file is known.
use core_drp.Prelude.{
  ℕ, ◌≤◌, ◌≡◌, ◌∙◌, true, none, some, List, arith, length, get_elem?, Bytes, bytes_eq_refl,
}
use core_drp.Prelude.Int.{ℤ}
use core_drp.Result.{ok, raise, failure, wal_corruption}
use core_drp.Wire.Messages.{Codec}
use core_drp.Wal.{Anchor, saved, Disk, Lab, Io, replaced}
use core_drp.Wal.Recover.{Scan, scan, hash_at, check_anchor, advanced, opened, read_log, recover}
use core_drp.Wal.Open.{Opening, open_anchor, open_wal}
use core_drp.Wal.Invariant.{IsOpen, as_scan, get_elem?-last_hash}

-- Both locks are free, and the operating system does what is asked.
pub record Undisturbed (o : Opening) (io : Io) : Type 0 where
  pub writer : o.writer_free ≡ true
  pub identity : o.identity_free ≡ true
  pub fsync : io.fsync ≡ true
  pub anchor : io.anchor ≡ replaced

hash_at-some :
    (hashes : List Bytes) (n : ℕ) (h : Bytes)
    → get_elem? hashes n ≡ some h
    → hash_at hashes n h ≡ true
hash_at-some hashes n h e = rw (e, hash_at) (bytes_eq_refl h)

module _ (a : Anchor) (s : Scan) where
  -- An anchor that may lag behind the events, and whose two hashes are hashes of the log.
  pub record Anchors : Type 0 where
    pub tail_bound : a.tail ≤ length s.events
    pub tail_hash : get_elem? s.hashes a.tail ≡ some a.tail_hash
    pub ack_bound : a.ack ≤ a.tail
    pub ack_hash : get_elem? s.hashes a.ack ≡ some a.ack_hash

  check_anchor-Anchors : Anchors → check_anchor a s ≡ ok tt
  unfolding check_anchor
  check_anchor-Anchors h =
      rw
        (
          hash_at-some s.hashes a.tail a.tail_hash h.tail_hash,
          hash_at-some s.hashes a.ack a.ack_hash h.ack_hash,
        )
        (ground (arith, h.tail_bound, h.ack_bound))

module _ ⦃c : Codec⦄ (a : Anchor) (log : Bytes) (io : Io) (d : Disk) where
  recover-ok :
      (s : Scan)
      → scan a.sender a.epoch log ≡ ok s
      → Anchors a s
      → io.fsync ≡ true
      → io.anchor ≡ replaced
      → recover a log io d ≡ (
        ok (opened (advanced a s) s),
        record d { anchor_file = saved (advanced a s); synced = length log },
      )
  unfolding recover
  recover-ok s e h fs an =
      let read : read_log a log ≡ ok s = unfold read_log in rw (e, check_anchor-Anchors a s h) in
      rw (read, recover) (rw (fs, an))

  recover-raise :
      scan a.sender a.epoch log ≡ raise (failure wal_corruption)
      → recover a log io d ≡ (raise (failure wal_corruption), d)
  unfolding recover
  recover-raise e =
      let read : read_log a log ≡ raise (failure wal_corruption) = unfold read_log in rw e in
      rw (read, recover)

module _ ⦃c : Codec⦄ (o : Opening) (io : Io) (u : Undisturbed o io) (cap : ℤ) (a : Anchor)
    (log : Bytes) (d : Disk) (has_anchor : d.anchor_file ≡ saved a)
    (has_file : d.events_file ≡ some log) where
  open_wal-eq-recover : open_wal none none cap o io d ≡ recover a log io d
  unfolding open_wal open_anchor
  open_wal-eq-recover = ground (arith, u.writer, u.identity)

  -- The log opens with the events of the scan, its anchor moved to the end of the file.
  pub open_wal-ok :
      (s : Scan)
      → scan a.sender a.epoch log ≡ ok s
      → Anchors a s
      → open_wal none none cap o io d ≡ (
        ok (opened (advanced a s) s),
        record d { anchor_file = saved (advanced a s); synced = length log },
      )
  open_wal-ok s e h = open_wal-eq-recover ∙ recover-ok a log io d s e h u.fsync u.anchor

  -- A file that a scan refuses does not open, and the directory is left as it is.
  pub open_wal-raise :
      scan a.sender a.epoch log ≡ raise (failure wal_corruption)
      → open_wal none none cap o io d ≡ (raise (failure wal_corruption), d)
  open_wal-raise e = open_wal-eq-recover ∙ recover-raise a log io d e

-- An open log and its own directory.
module _ ⦃c : Codec⦄ (s : Lab) (log : Bytes) (is_open : IsOpen s log) where
  pub same-Anchors : Anchors s.wal.state (as_scan s.wal)
  same-Anchors = record {
    tail_bound = omega (arith, is_open.tail_end);
    tail_hash =
        rw (is_open.tail_end, is_open.tail_hash)
          (get_elem?-last_hash s.wal.hashes (length s.wal.events) is_open.hash_count);
    ack_bound = is_open.ack_bound;
    ack_hash = is_open.ack_hash;
  }

  same_anchor : advanced s.wal.state (as_scan s.wal) ≡ s.wal.state
  same_anchor = cc (is_open.tail_end, is_open.tail_hash)

  pub same_opened : opened (advanced s.wal.state (as_scan s.wal)) (as_scan s.wal) ≡ s.wal
  same_opened = cc (same_anchor, is_open.healthy)

  -- Reopening the directory of an open log gives the log back and changes nothing.
  pub reopen_same :
      (o : Opening) (io : Io) (cap : ℤ)
      → Undisturbed o io
      → open_wal none none cap o io s.disk ≡ (ok s.wal, s.disk)
  reopen_same o io cap u =
      open_wal-ok o io u cap s.wal.state log s.disk is_open.anchored is_open.file (as_scan s.wal)
        is_open.scanned same-Anchors
      ∙ cc (same_anchor, is_open.synced, is_open.anchored, is_open.healthy)
