-- ===== src/Wal/Extended.antt =====
-- The log with one more event (admit_checkpoint of reference/coredrp_ref/wal.py): it scans, it can be
-- opened under the anchor from before or after the call, and it is an open log again.
use mathlib.Core.List.{append-nil}
use core_drp.Prelude.{
  ℕ, zero, suc, ◌≤◌, ◌<◌, ◌≡◌, refl, sym, ap, ◌∙◌, ◌⊎◌, inl, inr, false, none, some, [], ◌∷◌, ◌++◌,
  arith, length, take, dec_lt, lt→ltb, if◌then◌else◌, take_all, get_elem?, get_elem?-append_left,
  get_elem?-append_last, length-append, ltb, Bytes,
}
use core_drp.Prelude.Int.{ℤ}
use core_drp.Result.{Result, ok, raise, failure, wal_corruption}
use core_drp.Wire.Messages.{Codec, IsCodec}
use core_drp.Wal.{saved, Disk, Wal, Lab, Io, find_key}
use core_drp.Wal.Frame.{frame-pos}
use core_drp.Wal.Recover.{scan, advanced, opened}
use core_drp.Wal.Open.{Opening, open_wal}
use core_drp.Wal.Admit.{Prepared, log_record, appended, next_anchor}
use core_drp.Wal.Invariant.{IsOpen, as_scan, get_elem?-last_hash, last_hash-append}
use core_drp.Wal.Prepared.{IsPrepared, read_entry-record, entry_size, sequence_is}
use core_drp.Wal.Scanning.{scan-record, scan-partial}
use core_drp.Wal.Reopen.{
  Undisturbed, Anchors, same-Anchors, same_opened, open_wal-ok, open_wal-raise,
}

-- The log object with one more event.
abbrev pub with_event : Wal → Bytes → ℤ → ℤ → Prepared → Wal
with_event w key event_time boundary p = record (appended w key p) {
  state = next_anchor w.state event_time boundary p;
}

-- The directory and the object after a call that returned.
abbrev pub after : Lab → Bytes → Bytes → ℤ → ℤ → Prepared → Lab
after s log key event_time boundary p = record {
  wal = with_event s.wal key event_time boundary p;
  disk = record {
    anchor_file = saved (next_anchor s.wal.state event_time boundary p);
    events_file = some (log ++ p.bytes);
    synced = length (log ++ p.bytes);
  };
}

-- What reopening finds, by how many bytes of the record reached the file: none, a part, or all.
abbrev pub found_after : Lab → Bytes → ℤ → ℤ → Prepared → ℕ → Result Wal
found_after s key event_time boundary p zero = ok s.wal
found_after s key event_time boundary p (suc n) =
    if ltb (suc n) (length p.bytes)
    then raise (failure wal_corruption)
    else ok (with_event s.wal key event_time boundary p)

module _ ⦃c : Codec⦄ (laws : IsCodec c) (s : Lab) (log key : Bytes) (event_time boundary : ℤ)
    (relay request : Bytes) (p : Prepared) (is_open : IsOpen s log)
    (ready : IsPrepared s.wal log key event_time boundary relay request p)
    (fresh : find_key key s.wal.keys ≡ none) (short_key : length key ≤ 128)
    (short_request : length request ≤ 64) where
  abbrev raw : Bytes
  raw = c.record_bytes (log_record key request p.event p.chain_hash)

  abbrev next : Wal
  next = with_event s.wal key event_time boundary p

  raw_size : (0 < length raw) × (length raw ≤ 16384)
  raw_size =
      entry_size laws s.wal log key event_time boundary relay request p ready short_key
        short_request

  -- The log with the whole record is a log of the next object.
  pub scan-next : scan s.wal.state.sender s.wal.state.epoch (log ++ p.bytes) ≡ ok (as_scan next)
  scan-next =
      rw (ready.bytes_are, ready.request_is)
        (scan-record s.wal.state.sender s.wal.state.epoch log raw (as_scan s.wal)
          (record {
            events = s.wal.events ++ p.event ∷ [];
            hashes = s.wal.hashes ++ p.chain_hash ∷ [];
            keys = s.wal.keys ++ (key, request, p.event.sequence) ∷ [];
            last_time = event_time;
            floor = boundary;
          })
          is_open.scanned raw_size.0 raw_size.1
          (read_entry-record laws s.wal log key event_time boundary relay request p ready
            is_open.tail_end fresh))

  pub scan-cut :
      (n : ℕ)
      → 0 < n
      → n < length p.bytes
      → scan s.wal.state.sender s.wal.state.epoch (log ++ take n p.bytes)
        ≡ raise (failure wal_corruption)
  scan-cut n lo short = rw ready.bytes_are (
      scan-partial s.wal.state.sender s.wal.state.epoch log raw n (as_scan s.wal) is_open.scanned lo
        (rw ready.bytes_are at short) raw_size.1)

  grown : length (s.wal.events ++ p.event ∷ []) ≡ suc (length s.wal.events)
  grown = omega (arith, length-append s.wal.events (p.event ∷ []))

  next_sequence : p.event.sequence ≡ suc (length s.wal.events)
  next_sequence = omega (
    arith,
    sequence_is laws s.wal log key event_time boundary relay request p ready,
    is_open.tail_end,
  )

  -- The hashes of the log stay where they are.
  old_hash :
      (n : ℕ) {h : Bytes}
      → n ≤ length s.wal.events
      → get_elem? s.wal.hashes n ≡ some h
      → get_elem? (s.wal.hashes ++ p.chain_hash ∷ []) n ≡ some h
  old_hash n bound e =
      rw
        (get_elem?-append_left s.wal.hashes (p.chain_hash ∷ []) n
          (omega (arith, is_open.hash_count)))
        e

  ack_within : s.wal.state.ack ≤ length s.wal.events
  ack_within = omega (arith, is_open.ack_bound, is_open.tail_end)

  -- Both the anchor from before the call and the one after it fit the longer log.
  pub old-Anchors : Anchors s.wal.state (as_scan next)
  old-Anchors = record {
    tail_bound = omega (arith, grown, is_open.tail_end);
    tail_hash = old_hash s.wal.state.tail (omega (arith, is_open.tail_end)) (
        rw (is_open.tail_end, is_open.tail_hash)
          (get_elem?-last_hash s.wal.hashes (length s.wal.events) is_open.hash_count));
    ack_bound = is_open.ack_bound;
    ack_hash = old_hash s.wal.state.ack ack_within is_open.ack_hash;
  }

  pub new-Anchors : Anchors next.state (as_scan next)
  new-Anchors = record {
    tail_bound = omega (arith, grown, next_sequence);
    tail_hash =
        get_elem?-append_last s.wal.hashes p.chain_hash p.event.sequence
          (omega (arith, next_sequence, is_open.hash_count));
    ack_bound = omega (arith, ack_within, next_sequence);
    ack_hash = old_hash s.wal.state.ack ack_within is_open.ack_hash;
  }

  pub after-IsOpen : IsOpen (after s log key event_time boundary p) (log ++ p.bytes)
  after-IsOpen = record {
    healthy = is_open.healthy;
    file = refl;
    synced = refl;
    anchored = refl;
    scanned = scan-next;
    tail_end = omega (arith, grown, next_sequence);
    hash_count =
        omega (arith, grown, is_open.hash_count, length-append s.wal.hashes (p.chain_hash ∷ []));
    tail_hash = sym (last_hash-append s.wal.hashes p.chain_hash);
    ack_bound = omega (arith, ack_within, next_sequence);
    ack_hash = old_hash s.wal.state.ack ack_within is_open.ack_hash;
  }

  -- An anchor that lags behind is moved to the end of the log.
  pub next-opened : opened (advanced s.wal.state (as_scan next)) (as_scan next) ≡ next
  next-opened =
      cc (is_open.healthy, last_hash-append s.wal.hashes p.chain_hash, grown, next_sequence)

  module _ (o : Opening) (io : Io) (u : Undisturbed o io) (cap : ℤ) (d : Disk) where
    open_next :
        d.events_file ≡ some (log ++ p.bytes)
        → (d.anchor_file ≡ saved s.wal.state) ⊎ (d.anchor_file ≡ saved next.state)
        → (open_wal none none cap o io d).0 ≡ ok next
    open_next file (inl anchor) =
        ap (λ r. r.0)
          (open_wal-ok o io u cap s.wal.state (log ++ p.bytes) d anchor file (as_scan next)
            scan-next old-Anchors)
        ∙ ap ok next-opened
    open_next file (inr anchor) =
        ap (λ r. r.0)
          (open_wal-ok o io u cap next.state (log ++ p.bytes) d anchor file (as_scan next) scan-next
            new-Anchors)
        ∙ ap ok next-opened

    open_same :
        d.events_file ≡ some log
        → d.anchor_file ≡ saved s.wal.state
        → (open_wal none none cap o io d).0 ≡ ok s.wal
    open_same file anchor =
        ap (λ r. r.0)
          (open_wal-ok o io u cap s.wal.state log d anchor file (as_scan s.wal) is_open.scanned
            (same-Anchors s log is_open))
        ∙ ap ok (same_opened s log is_open)

    -- Every directory that a call may leave, by the bytes that reached the file.
    pub open_after :
        (n : ℕ)
        → d.events_file ≡ some (log ++ take n p.bytes)
        → (d.anchor_file ≡ saved s.wal.state)
          ⊎ ((length p.bytes ≤ n) × (d.anchor_file ≡ saved next.state))
        → (open_wal none none cap o io d).0 ≡ found_after s key event_time boundary p n
    open_after zero file (inl anchor) = open_same (rw append-nil at file) anchor
    open_after (suc n) file (inl anchor) = elim (dec_lt (suc n) (length p.bytes)) [
      | yes short ↦ rw (lt→ltb (suc n) (length p.bytes) short) (
          ap (λ r. r.0)
            (open_wal-raise o io u cap s.wal.state (log ++ take (suc n) p.bytes) d anchor file
              (scan-cut (suc n) (omega arith) short)))
      | no whole ↦
          let test : ltb (suc n) (length p.bytes) ≡ false = ground arith in
          rw test (open_next (rw (take_all p.bytes (suc n) (omega arith)) at file) (inl anchor))
    ]
    open_after zero file (inr (whole, anchor)) =
        let some_bytes : 0 < length p.bytes = rw ready.bytes_are (frame-pos raw) in
        absurd (omega arith)
    open_after (suc n) file (inr (whole, anchor)) =
        let test : ltb (suc n) (length p.bytes) ≡ false = ground arith in
        rw test (open_next (rw (take_all p.bytes (suc n) whole) at file) (inr anchor))
