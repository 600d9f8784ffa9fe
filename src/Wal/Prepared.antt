-- ===== src/Wal/Prepared.antt =====
-- What admit_checkpoint has established before it writes, and that the record it writes is one that
-- a scan reads back as exactly this event.
use core_drp.Prelude.{
  ℕ, ◌+◌, ◌^◌, ◌≤◌, ◌<◌, ◌≡◌, refl, true, none, some, IsBytes, [], ◌∷◌, ◌++◌, arith, ltb, ==_iff,
  length, Bytes, bytes_eq_refl, hex, from_hex-hex, length-hex,
}
use core_drp.Prelude.Int.{ℤ}
use core_drp.Result.{ok, >>=-eq-ok, require-eq-ok, ok-inj}
use core_drp.Wire.{validate, chain, checkpoint, fits_int64}
use core_drp.Wire.Link.{validate-Checked}
use core_drp.Wire.Chain.{length-chain}
use core_drp.Wire.Messages.{Event, Codec, IsCodec, FitsFields}
use core_drp.Wal.{Wal, find_key, last_hash}
use core_drp.Wal.Recover.{extend, read_entry}
use core_drp.Wal.Admit.{Prepared, in_order, within_cap, entry_bytes, log_record, prepare}
use core_drp.Wal.Invariant.{as_scan}

module _ ⦃c : Codec⦄ where
  abbrev pub new_event : ℕ → ℤ → ℤ → Bytes → Event
  new_event sequence event_time boundary relay = record {
    sequence = sequence;
    event_type = 1;
    scope = [];
    event_time_unix_ms = event_time;
    payload = c.checkpoint_bytes boundary;
    relay_event_id = relay;
  }

  pub record IsPrepared (w : Wal) (log key : Bytes) (event_time boundary : ℤ)
      (relay request : Bytes) (p : Prepared) : Type 0 where
    pub event_is : p.event ≡ new_event (w.state.tail + 1) event_time boundary relay
    pub fits_sequence : ltb (w.state.tail + 1) (2 ^ 64) ≡ true
    pub fits_time : fits_int64 event_time ≡ true
    pub fits_boundary : fits_int64 boundary ≡ true
    pub through : ℤ
    pub validated : validate p.event ≡ ok through
    pub ordered : in_order w event_time boundary ≡ true
    pub chained : chain (last_hash w.hashes) w.state.sender w.state.epoch p.event ≡ ok p.chain_hash
    pub request_is : p.request ≡ request
    pub bytes_are : p.bytes ≡ entry_bytes key request p.event p.chain_hash
    pub fits_cap : within_cap w log p.bytes ≡ true
    pub relay_is_bytes : IsBytes relay

  checkpoint_lem :
      (sequence : ℕ) (event_time boundary : ℤ) (relay : Bytes) (e : Event)
      → checkpoint sequence event_time boundary relay ≡ ok e
      → (e ≡ new_event sequence event_time boundary relay)
        × (ltb sequence (2 ^ 64) ≡ true)
        × (fits_int64 event_time ≡ true)
        × (fits_int64 boundary ≡ true)
  unfolding checkpoint
  checkpoint_lem sequence event_time boundary relay e h =
      (ground arith, ground arith, ground arith, ground arith)

  pub prepare-IsPrepared :
      (w : Wal) (log key : Bytes) (event_time boundary : ℤ) (relay request : Bytes) (p : Prepared)
      → IsBytes relay
      → prepare w log key event_time boundary relay request ≡ ok p
      → IsPrepared w log key event_time boundary relay request p
  unfolding prepare
  prepare-IsPrepared w log key event_time boundary relay request p relay_is h =
      let (_, h1) = require-eq-ok w.state.bound _ _ h in
      let (e, made, h2) =
        >>=-eq-ok (checkpoint (w.state.tail + 1) event_time boundary relay) _ h1 in
      let (through, valid, h3) = >>=-eq-ok (validate e) _ h2 in
      let (order, h4) = require-eq-ok (in_order w event_time boundary) _ _ h3 in
      let (ch, link, h5) =
        >>=-eq-ok (chain (last_hash w.hashes) w.state.sender w.state.epoch e) _ h4 in
      let (cap, h6) = require-eq-ok (within_cap w log (entry_bytes key request e ch)) _ _ h5 in
      let (is, fs, ft, fb) = checkpoint_lem (w.state.tail + 1) event_time boundary relay e made in
      rw (← ok-inj h6) (record {
        event_is = is;
        fits_sequence = fs;
        fits_time = ft;
        fits_boundary = fb;
        through = through;
        validated = valid;
        ordered = order;
        chained = link;
        request_is = refl;
        bytes_are = refl;
        fits_cap = cap;
        relay_is_bytes = relay_is;
      })

  validate-parse :
      (e : Event) {through : ℤ}
      → validate e ≡ ok through
      → c.parse_checkpoint e.payload ≡ some through
  unfolding validate
  validate-parse e h = ground arith

module _ ⦃c : Codec⦄ (laws : IsCodec c) (w : Wal) (log key : Bytes) (event_time boundary : ℤ)
    (relay request : Bytes) (p : Prepared)
    (ready : IsPrepared w log key event_time boundary relay request p) where
  -- The payload says what the caller said.
  through-boundary : ready.through ≡ boundary
  through-boundary =
      let parsed = validate-parse p.event ready.validated in
      let decoded =
        laws.checkpoint_decodes boundary (ground (arith, ready.fits_boundary))
          (ground (arith, ready.fits_boundary)) in
      cc (parsed, decoded, ready.event_is)

  event-FitsFields : FitsFields p.event
  event-FitsFields = rw ready.event_is (record {
    sequence_fits = ground (arith, ready.fits_sequence);
    event_type_fits = omega arith;
    time_from = ground (arith, ready.fits_time);
    time_to = ground (arith, ready.fits_time);
    scope_is_bytes = tt;
    payload_is_bytes = laws.checkpoint_is_bytes boundary;
    relay_is_bytes = ready.relay_is_bytes;
  })

  pub validated_boundary : validate p.event ≡ ok boundary
  validated_boundary = cc (ready.validated, through-boundary)

  time_is : p.event.event_time_unix_ms ≡ event_time
  time_is = cc ready.event_is

  pub sequence_is : p.event.sequence ≡ w.state.tail + 1
  sequence_is = cc ready.event_is

  -- A scan that has come to the end of the log takes the record as the event with this key.
  pub read_entry-record :
      w.state.tail ≡ length w.events
      → find_key key w.keys ≡ none
      → read_entry w.state.sender w.state.epoch
          (c.record_bytes (log_record key request p.event p.chain_hash))
          (as_scan w)
        ≡ ok (record {
          events = w.events ++ p.event ∷ [];
          hashes = w.hashes ++ p.chain_hash ∷ [];
          keys = w.keys ++ (key, request, p.event.sequence) ∷ [];
          last_time = event_time;
          floor = boundary;
        })
  unfolding read_entry extend
  read_entry-record at_end fresh =
      let e = p.event in
      rw
        (
          laws.record_decodes,
          from_hex-hex (c.event_bytes e) (laws.event_is_bytes e event-FitsFields),
          laws.event_decodes e event-FitsFields,
        )
        (rw (fresh, validated_boundary, ready.chained, bytes_eq_refl (hex p.chain_hash))
          (rw (
            time_is,
            ready.ordered,
            (==_iff p.event.sequence (length w.events + 1)).1 (omega (arith, sequence_is)),
          )))

  event_text_size : length (c.event_bytes p.event) ≤ 4096
  event_text_size =
      laws.event_size p.event event-FitsFields (cc ready.event_is)
        (rw ready.event_is (laws.checkpoint_size boundary))
        (validate-Checked p.event ready.validated).relay_length

  -- The text of the record is one that a scan reads.
  pub entry_size :
      length key ≤ 128
      → length request ≤ 64
      → let raw = c.record_bytes (log_record key request p.event p.chain_hash) in
        (0 < length raw) × (length raw ≤ 16384)
  entry_size short_key short_request =
      laws.record_size (log_record key request p.event p.chain_hash) short_key short_request
        (omega (arith, length-hex (c.event_bytes p.event), event_text_size))
        (omega (
          arith,
          length-hex p.chain_hash,
          length-chain (last_hash w.hashes) w.state.sender w.state.epoch p.event ready.chained,
        ))
