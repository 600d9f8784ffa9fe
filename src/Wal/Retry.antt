-- ===== src/Wal/Retry.antt =====
-- Repeated calls of admit_checkpoint with a key that the log holds (reference/coredrp_ref/wal.py),
-- whatever the object has done in between.
use core_drp.Prelude.{
  List, ℕ, ◌+◌, ◌≡◌, ◌≢◌, refl, sym, ap, inl, inr, Option-cases, true, ◌&&◌, none, [], ◌∷◌, arith,
  length, ltb, leb, Bytes, bytes_eq, bytes_eq_iff,
}
use core_drp.Prelude.Int.{ℤ}
use core_drp.Result.{
  Result, Result-cases, ok, raise, ok-inj, raise≢ok, failure, require, ◌>>◌, require-eq-ok,
  >>=-eq-ok, wal_reopen_required, invalid_handshake, idempotency_key_conflict,
}
use core_drp.Wire.Messages.{Codec}
use core_drp.Wire.{validate, chain, checkpoint}
use core_drp.Wire.Handshake.{ServerHello}
use core_drp.Wal.{AnchorOutcome, Lab, Wal, Io, find_key, last_hash}
use core_drp.Wal.Admit.{
  Prepared, increase_cap, prepare, commit, admit_new, admit_checkpoint, request_digest, file_bytes,
  in_order, within_cap, entry_bytes,
}
use core_drp.Wal.Peer.{acknowledge, bind}
use core_drp.Wal.Keys.{
  Holds, increase_cap-Holds, acknowledge-Holds, bind-Holds, commit-Committed, Committed-Holds,
  Committed-own,
}

-- A call of a method of the object, with what the operating system does.
pub data Call : Type 0 where
  cap_call : (limit : ℤ) (io : Io) → Call
  admit_call : (key : Bytes) (event_time boundary : ℤ) (relay : Bytes) (io : Io) → Call
  ack_call : (seq : ℕ) (digest : Bytes) (outcome : AnchorOutcome) → Call
  bind_call : (hello : ServerHello) (first second : AnchorOutcome) → Call

module _ ⦃c : Codec⦄ where
  admit_new-Holds :
      (key : Bytes) (held : Bytes × ℕ) (key' : Bytes) (event_time boundary : ℤ) (relay : Bytes)
      (io : Io) (s : Lab)
      → Holds key held s
      → Holds key held (admit_new key' event_time boundary relay io s).1
  unfolding admit_new
  admit_new-Holds key held key' event_time boundary relay io s h =
      elim (Result-cases (
        prepare s.wal (file_bytes s.disk.events_file) key' event_time boundary relay
          (request_digest event_time boundary))) [
            | inr (x, e) ↦ rw (e, admit_new) h
            | inl (p, e) ↦
                rw (e, admit_new)
                  (Committed-Holds key key' held p s (commit key' event_time boundary p io s)
                    (commit-Committed key' event_time boundary p io s) h)
          ]

  -- The two guards in front of the key.
  abbrev guards : Lab → Bytes → Result (Unit {0})
  guards s key = do
    require s.wal.healthy wal_reopen_required
    require (ltb 0 (length key) && leb (length key) 128) invalid_handshake

  admit_checkpoint-Holds :
      (key : Bytes) (held : Bytes × ℕ) (key' : Bytes) (event_time boundary : ℤ) (relay : Bytes)
      (io : Io) (s : Lab)
      → Holds key held s
      → Holds key held (admit_checkpoint key' event_time boundary relay io s).1
  unfolding admit_checkpoint
  admit_checkpoint-Holds key held key' event_time boundary relay io s h =
      elim (Result-cases (guards s key')) [
        | inr (x, e) ↦ rw (e, admit_checkpoint) h
        | inl (u, e) ↦ elim (Option-cases (find_key key' s.wal.keys)) [
          | inr (found, f) ↦ rw (e, f, admit_checkpoint) h
          | inl f ↦
              rw (e, f, admit_checkpoint)
                (admit_new-Holds key held key' event_time boundary relay io s h)
        ]
      ]

  prepare-request :
      (w : Wal) (log key : Bytes) (event_time boundary : ℤ) (relay request : Bytes) (p : Prepared)
      → prepare w log key event_time boundary relay request ≡ ok p
      → p.request ≡ request
  unfolding prepare
  prepare-request w log key event_time boundary relay request p h =
      let (_, h1) = require-eq-ok w.state.bound _ _ h in
      let (e, _, h2) = >>=-eq-ok (checkpoint (w.state.tail + 1) event_time boundary relay) _ h1 in
      let (_, _, h3) = >>=-eq-ok (validate e) _ h2 in
      let (_, h4) = require-eq-ok (in_order w event_time boundary) _ _ h3 in
      let (ch, _, h5) =
        >>=-eq-ok (chain (last_hash w.hashes) w.state.sender w.state.epoch e) _ h4 in
      let (_, h6) = require-eq-ok (within_cap w log (entry_bytes key request e ch)) _ _ h5 in
      sym (ap (λ x. x.request) (ok-inj h6))

  admit_new-own :
      (key : Bytes) (event_time boundary : ℤ) (relay : Bytes) (io : Io) (s s' : Lab) (seq : ℕ)
      → find_key key s.wal.keys ≡ none
      → admit_new key event_time boundary relay io s ≡ (ok seq, s')
      → Holds key (request_digest event_time boundary, seq) s'
  unfolding admit_new
  admit_new-own key event_time boundary relay io s s' seq fresh h =
      elim (Result-cases (
        prepare s.wal (file_bytes s.disk.events_file) key event_time boundary relay
          (request_digest event_time boundary))) [
            | inr (x, e) ↦ absurd (raise≢ok (ap (λ o. o.0) (rw (e, admit_new) at h)))
            | inl (p, e) ↦ rw (← prepare-request s.wal _ key event_time boundary relay _ p e) (
                Committed-own key p s s' seq (commit key event_time boundary p io s)
                  (commit-Committed key event_time boundary p io s) (rw (e, admit_new) at h) fresh)
          ]

  -- A call that returned: the key is one that is taken, and the object holds it.
  admit_checkpoint-own :
      (key : Bytes) (event_time boundary : ℤ) (relay : Bytes) (io : Io) (s s' : Lab) (seq : ℕ)
      → admit_checkpoint key event_time boundary relay io s ≡ (ok seq, s')
      → ((ltb 0 (length key) && leb (length key) 128) ≡ true)
        × Holds key (request_digest event_time boundary, seq) s'
  unfolding admit_checkpoint
  admit_checkpoint-own key event_time boundary relay io s s' seq h =
      elim (Result-cases (guards s key)) [
        | inr (x, e) ↦ absurd (raise≢ok (ap (λ o. o.0) (rw (e, admit_checkpoint) at h)))
        | inl (u, e) ↦
            let (_, e1) = require-eq-ok s.wal.healthy _ _ e in
            let named : (ltb 0 (length key) && leb (length key) 128) ≡ true = ground arith in
            elim (Option-cases (find_key key s.wal.keys)) [
              | inl f ↦ (
                named,
                admit_new-own key event_time boundary relay io s s' seq f
                    (rw (e, f, admit_checkpoint) at h),
              )
              | inr ((old, n), f) ↦
                  let answer = rw (e, f, admit_checkpoint) at h in
                  let same : s ≡ s' = ap (λ o. o.1) answer in
                  let (bytes, h1) =
                    require-eq-ok (bytes_eq old (request_digest event_time boundary)) _ _
                      (ap (λ o. o.0) answer) in
                  let olds = (bytes_eq_iff old (request_digest event_time boundary)).0 bytes in
                  (named, rw (← same, ← olds, ← ok-inj h1) f)
            ]
      ]

  module _ (s : Lab) (key : Bytes) (healthy : s.wal.healthy ≡ true)
      (named : (ltb 0 (length key) && leb (length key) 128) ≡ true) (request : Bytes) (seq : ℕ)
      (held : Holds key (request, seq) s) (event_time boundary : ℤ) (relay : Bytes) (io : Io) where
    admit_held :
        request ≡ request_digest event_time boundary
        → admit_checkpoint key event_time boundary relay io s ≡ (ok seq, s)
    unfolding admit_checkpoint
    admit_held same = ground (arith, bytes_eq_iff request (request_digest event_time boundary))

    admit_conflict :
        request ≢ request_digest event_time boundary
        → admit_checkpoint key event_time boundary relay io s
          ≡ (raise (failure idempotency_key_conflict), s)
    unfolding admit_checkpoint
    admit_conflict other = ground (arith, bytes_eq_iff request (request_digest event_time boundary))

  -- The object and the directory behind calls, each of which returns or raises.
  unfoldable pub after_calls : List Call → Lab → Lab
  after_calls [] s = s
  after_calls (cap_call limit io ∷ calls) s = after_calls calls (increase_cap limit io s).1
  after_calls (admit_call key event_time boundary relay io ∷ calls) s =
      after_calls calls (admit_checkpoint key event_time boundary relay io s).1
  after_calls (ack_call seq digest outcome ∷ calls) s =
      after_calls calls (acknowledge seq digest outcome s).1
  after_calls (bind_call hello first second ∷ calls) s =
      after_calls calls (bind hello first second s).1

  after_calls-Holds :
      (key : Bytes) (held : Bytes × ℕ) (calls : List Call) (s : Lab)
      → Holds key held s
      → Holds key held (after_calls calls s)
  unfolding after_calls
  after_calls-Holds key held [] s h = h
  after_calls-Holds key held (cap_call limit io ∷ calls) s h =
      after_calls-Holds key held calls _ (increase_cap-Holds key held limit io s h)
  after_calls-Holds key held (admit_call key' event_time boundary relay io ∷ calls) s h =
      after_calls-Holds key held calls _
        (admit_checkpoint-Holds key held key' event_time boundary relay io s h)
  after_calls-Holds key held (ack_call seq digest outcome ∷ calls) s h =
      after_calls-Holds key held calls _ (acknowledge-Holds key held seq digest outcome s h)
  after_calls-Holds key held (bind_call hello first second ∷ calls) s h =
      after_calls-Holds key held calls _ (bind-Holds key held hello first second s h)

  module _ (key : Bytes) (event_time boundary : ℤ) (relay : Bytes) (io : Io) (s s' : Lab) (seq : ℕ)
      (returned : admit_checkpoint key event_time boundary relay io s ≡ (ok seq, s'))
      (calls : List Call) (relay' : Bytes) (io' : Io)
      (healthy : (after_calls calls s').wal.healthy ≡ true) where
    own_key :
        ((ltb 0 (length key) && leb (length key) 128) ≡ true)
        × Holds key (request_digest event_time boundary, seq) s'
    own_key = admit_checkpoint-own key event_time boundary relay io s s' seq returned

    kept_key : Holds key (request_digest event_time boundary, seq) (after_calls calls s')
    kept_key = after_calls-Holds key _ calls s' own_key.1

    -- Once admit_checkpoint has returned a sequence, and after any further calls of the methods
    -- (admissions of other and of the same keys, cap increases, acknowledgements and binds, with
    -- whatever outcome) that leave the object open, a call with the same key, time and boundary
    -- returns that same sequence and changes neither the object nor the directory.
    pub retry_once :
        admit_checkpoint key event_time boundary relay' io' (after_calls calls s')
        ≡ (ok seq, after_calls calls s')
    retry_once =
        admit_held (after_calls calls s') key healthy own_key.0 _ seq kept_key event_time boundary
          relay' io' refl

    -- Once admit_checkpoint has returned, and after any further calls of the methods that leave the
    -- object open, a call with the same key and a time and boundary of another request digest raises
    -- IDEMPOTENCY_KEY_CONFLICT and changes nothing.
    pub retry_conflict :
        (event_time' boundary' : ℤ)
        → request_digest event_time boundary ≢ request_digest event_time' boundary'
        → admit_checkpoint key event_time' boundary' relay' io' (after_calls calls s')
          ≡ (raise (failure idempotency_key_conflict), after_calls calls s')
    retry_conflict event_time' boundary' other =
        admit_conflict (after_calls calls s') key healthy own_key.0 _ seq kept_key event_time'
          boundary' relay' io' other
