-- ===== src/Wal/Opened.antt =====
-- What a scan has established of the events it accepts (WAL.recover of
-- reference/coredrp_ref/wal.py), and that a log which opens satisfies the invariant.
use core_drp.Prelude.{
  ℕ, zero, suc, ◌+◌, ◌≡◌, refl, ◌∙◌, ◌&&◌, some, List, [], ◌∷◌, ◌++◌, arith, length, take, take_all,
  take-append_left, get_elem?, get_elem?-lt, get_elem?-append_left, get_elem?-append_last,
  length-append, ◌==◌, Bytes, bytes_eq, hex, from_hex, dec_lt,
}
use core_drp.Prelude.Int.{pos, negsuc, leb_ℤ, ltb_ℤ}
use core_drp.Result.{ok, value_error, decode_error, >>=-eq-ok, require-eq-ok, ok-inj}
use core_drp.Wire.{genesis, validate, chain}
use core_drp.Wire.Chain.{chain_log, chain_log-append}
use core_drp.Wire.Messages.{Event, Codec, LogRecord}
use core_drp.Wal.{find_key, last_hash}
use core_drp.Wal.Frame.{read_frame}
use core_drp.Wal.Recover.{
  record_or_raise, Scan, is_none, or_raise, extend, read_entry, scan_from, scan,
}
use core_drp.Wal.Invariant.{get_elem?-last_hash}

-- The events are numbered from n on.
abbrev pub IsNumbered : ℕ → List Event → Type 0
IsNumbered n [] = Unit
IsNumbered n (e ∷ es) = (e.sequence ≡ n) × IsNumbered (suc n) es

IsNumbered-append :
    (n : ℕ) (es : List Event) (e : Event)
    → IsNumbered n es
    → e.sequence ≡ n + length es
    → IsNumbered n (es ++ e ∷ [])
IsNumbered-append n [] e h at_end = (omega arith, tt)
IsNumbered-append n (x ∷ es) e h at_end = (h.0, IsNumbered-append (suc n) es e h.1 (omega arith))

module _ ⦃c : Codec⦄ (sender epoch root : Bytes) where
  -- A log in the memory of the sender: its events are numbered from 1, and hash i is the hash of the
  -- chain over the first i events.
  pub record IsLog (s : Scan) : Type 0 where
    pub hash_count : length s.hashes ≡ suc (length s.events)
    pub numbered : IsNumbered 1 s.events
    pub prefix_hash :
        (i : ℕ) (h : Bytes)
        → get_elem? s.hashes i ≡ some h
        → chain_log root sender epoch (take i s.events) ≡ ok h

  -- What extend has checked and built.
  record IsExtended (e : Event) (s t : Scan) : Type 0 where
    sequence : e.sequence ≡ length s.events + 1
    link : Bytes
    linked : chain (last_hash s.hashes) sender epoch e ≡ ok link
    events : t.events ≡ s.events ++ e ∷ []
    hashes : t.hashes ≡ s.hashes ++ link ∷ []

  extend-IsExtended :
      (x : LogRecord) (e : Event) (s t : Scan) → extend sender epoch x e s ≡ ok t → IsExtended e s t
  unfolding extend
  extend-IsExtended x e s t h =
      let number = e.sequence == length s.events + 1 in
      let (first, h1) = require-eq-ok (number && is_none (find_key x.key s.keys)) _ _ h in
      let (boundary, valid, h2) = >>=-eq-ok (validate e) _ h1 in
      let (order, h3) =
        require-eq-ok
          (leb_ℤ s.last_time e.event_time_unix_ms
            && ltb_ℤ s.floor e.event_time_unix_ms
            && leb_ℤ s.floor boundary)
          _ _ h2 in
      let (ch, linked, h4) = >>=-eq-ok (chain (last_hash s.hashes) sender epoch e) _ h3 in
      let (same, h5) = require-eq-ok (bytes_eq (hex ch) x.chain) _ _ h4 in
      record { sequence = ground arith; link = ch; linked = linked; events = cc h5; hashes = cc h5 }

  module _ (e : Event) (s t : Scan) (x : IsExtended e s t) (log : IsLog s) where
    prefix_hash-append :
        (i : ℕ) (h : Bytes)
        → get_elem? (s.hashes ++ x.link ∷ []) i ≡ some h
        → chain_log root sender epoch (take i (s.events ++ e ∷ [])) ≡ ok h
    prefix_hash-append i h at = elim (dec_lt i (length s.hashes)) [
      | yes old ↦
          rw (take-append_left i s.events (e ∷ []) (omega (arith, log.hash_count)))
            (log.prefix_hash i h (rw (get_elem?-append_left s.hashes (x.link ∷ []) i old) at at))
      | no new ↦
          let bound = get_elem?-lt (s.hashes ++ x.link ∷ []) i at in
          let last : i ≡ length s.hashes =
            omega (arith, bound, length-append s.hashes (x.link ∷ [])) in
          let link_is : h ≡ x.link = cc (at, get_elem?-append_last s.hashes x.link i last) in
          let before : chain_log root sender epoch s.events ≡ ok (last_hash s.hashes) =
            rw (take_all s.events (length s.events) (omega arith)) at (
              log.prefix_hash (length s.events) (last_hash s.hashes)
                (get_elem?-last_hash s.hashes (length s.events) log.hash_count)) in
          rw
            (
              take_all (s.events ++ e ∷ []) i
                  (omega (arith, last, log.hash_count, length-append s.events (e ∷ []))),
              link_is,
            )
            (chain_log-append root sender epoch s.events e before ∙ x.linked)
    ]

    extended-IsLog : IsLog t
    extended-IsLog = record {
      hash_count =
          rw (x.hashes, x.events)
            (omega (
              arith,
              log.hash_count,
              length-append s.hashes (x.link ∷ []),
              length-append s.events (e ∷ []),
            ));
      numbered =
          rw x.events (IsNumbered-append 1 s.events e log.numbered (omega (arith, x.sequence)));
      prefix_hash = rw (x.hashes, x.events) prefix_hash-append;
    }

  abbrev start : Scan
  start = record { events = []; hashes = root ∷ []; keys = []; last_time = pos 0; floor = negsuc 0 }

  start_hash :
      (i : ℕ) (h : Bytes)
      → get_elem? start.hashes i ≡ some h
      → chain_log root sender epoch (take i start.events) ≡ ok h
  unfolding chain_log
  start_hash zero h e = cc e
  start_hash (suc i) h e = cc e

  start-IsLog : IsLog start
  start-IsLog = record { hash_count = refl; numbered = tt; prefix_hash = start_hash }

  read_entry-IsLog :
      (raw : Bytes) (s t : Scan) → read_entry sender epoch raw s ≡ ok t → IsLog s → IsLog t
  unfolding read_entry
  read_entry-IsLog raw s t h log =
      let (x, _, h1) = >>=-eq-ok (record_or_raise (c.parse_record raw)) _ h in
      let (bytes, _, h2) = >>=-eq-ok (or_raise (from_hex x.event) value_error) _ h1 in
      let (e, _, h3) = >>=-eq-ok (or_raise (c.parse_event bytes) decode_error) _ h2 in
      extended-IsLog e s t (extend-IsExtended x e s t h3) log

  scan_from-IsLog :
      (f : ℕ) (b : Bytes) (s t : Scan) → scan_from sender epoch f b s ≡ ok t → IsLog s → IsLog t
  unfolding scan_from
  scan_from-IsLog zero b s t h log = cc
  scan_from-IsLog (suc f) [] s t h log = rw (← ok-inj h) log
  scan_from-IsLog (suc f) (x ∷ b) s t h log =
      let ((raw, rest), _, h1) = >>=-eq-ok (read_frame (x ∷ b)) _ h in
      let (s', entry, h2) = >>=-eq-ok (read_entry sender epoch raw s) _ h1 in
      scan_from-IsLog f rest s' t h2 (read_entry-IsLog raw s s' entry log)

-- The events of every log that a scan accepts are numbered from 1, and each hash is the hash of
-- the chain from the genesis hash over the events before it.
pub scan-IsLog :
    ⦃c : Codec⦄ (sender epoch log : Bytes) (t : Scan)
    → scan sender epoch log ≡ ok t
    → (root : Bytes) × (genesis sender epoch ≡ ok root) × IsLog sender epoch root t
unfolding scan
scan-IsLog sender epoch log t h =
    let (root, start, h1) = >>=-eq-ok (genesis sender epoch) _ h in
    (
      root,
      start,
      scan_from-IsLog sender epoch root (suc (length log)) log _ t h1
          (start-IsLog sender epoch root),
    )
