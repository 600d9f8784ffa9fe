-- ===== src/Transport/Batches.antt =====
-- The batches that drain builds keep the limits of both sides, so that the receiver's Session.ingest
-- never refuses one for its size (reference/coredrp_ref/transport.py and storage.py).
use core_drp.Prelude.{
  ℕ, ◌+◌, ◌≤◌, ◌≡◌, refl, ap, sym, ◌⊎◌, min, arith, Bool, true, false, ◌&&◌, ◌||◌, inl, inr, List,
  [], ◌∷◌, ◌++◌, ltb, leb, length,
}
use core_drp.Result.{Result, ok, ok-inj, >>=-eq-ok, require-eq-ok, event_too_large}
use core_drp.Wire.{charge, max_batch, max_charge}
use core_drp.Wire.Messages.{Event, Codec}
use core_drp.Store.Ingest.{total_charge, check_batch, validate_all}
use core_drp.Transport.Drain.{Limits, limits_of, is_full, taken, pick, batch_of}
use core_drp.Wal.{Wal}
use core_drp.Wire.Handshake.{ServerHello}

below :
    (events bytes count size : ℕ)
    → (leb events count || ltb bytes size) ≡ false
    → (count + 1 ≤ events) × (size ≤ bytes)
below events bytes count size h = (ground arith, ground arith)

pub taken-eq-ok :
    (full : Bool) (e : Event) (rest : Result (List Event)) {batch : List Event}
    → taken full e rest ≡ ok batch
    → ((full ≡ true) × (batch ≡ []))
      ⊎ ((full ≡ false) × (more : List Event) × (rest ≡ ok more) × (batch ≡ e ∷ more))
taken-eq-ok true e rest h = inl (refl, sym (ok-inj h))
taken-eq-ok false e rest h =
    let (more, found, h1) = >>=-eq-ok rest _ h in inr (refl, more, found, sym (ok-inj h1))

-- A batch that was picked with `count` events and `size` bytes before it.
record IsPicked (l : Limits) (window_events window_bytes count size : ℕ) (es batch : List Event)
    : Type 0 where
  rest : List Event
  prefix : es ≡ batch ++ rest
  bytes :
      size ≤ min window_bytes l.batch_bytes
      → size + total_charge batch ≤ min window_bytes l.batch_bytes
  number :
      count ≤ min window_events l.batch_events
      → count + length batch ≤ min window_events l.batch_events

pick-IsPicked :
    (l : Limits) (window_events window_bytes count size : ℕ) (es batch : List Event)
    → pick l window_events window_bytes count size es ≡ ok batch
    → IsPicked l window_events window_bytes count size es batch
unfolding pick
pick-IsPicked l we wb count size [] batch h =
    rw (← ok-inj h)
      (record { rest = []; prefix = refl; bytes = λ k. omega arith; number = λ k. omega arith })
pick-IsPicked l we wb count size (e ∷ es) batch h =
    let (_, h1) = require-eq-ok (leb (length e.payload) l.payload_limit) event_too_large _ h in
    let (_, h2) = require-eq-ok (leb (charge e) l.batch_bytes) event_too_large _ h1 in
    let full = is_full l we wb count (size + charge e) in
    elim (taken-eq-ok full e (pick l we wb (count + 1) (size + charge e) es) h2) [
      | inl (at_end, empty) ↦ rw empty (record {
        rest = e ∷ es;
        prefix = refl;
        bytes = λ k. omega arith;
        number = λ k. omega arith;
      })
      | inr (room, more, picked, extended) ↦
          let p = pick-IsPicked l we wb (count + 1) (size + charge e) es more picked in
          let (few, small) =
            below (min we l.batch_events) (min wb l.batch_bytes) count (size + charge e) room in
          rw extended (record {
            rest = p.rest;
            prefix = ap (λ t. e ∷ t) p.prefix;
            bytes = λ k. omega (arith, p.bytes small);
            number = λ k. omega (arith, p.number few);
          })
    ]

-- The batch is a beginning of the events that are not acknowledged, and has at most as many events
-- and bytes as the window, and as the receiver's own limits, allow.
pub pick-limits :
    (l : Limits) (window_events window_bytes : ℕ) (es batch : List Event)
    → pick l window_events window_bytes 0 0 es ≡ ok batch
    → ((rest : List Event) × (es ≡ batch ++ rest))
      × (length batch ≤ min window_events l.batch_events)
      × (total_charge batch ≤ min window_bytes l.batch_bytes)
pick-limits l we wb es batch h =
    let p = pick-IsPicked l we wb 0 0 es batch h in
    (
      (p.rest, p.prefix),
      omega (arith, p.number (omega arith)),
      omega (arith, p.bytes (omega arith)),
    )

module _ ⦃c : Codec⦄ where
  -- A batch that drain builds under the limits of a hello and the windows of the receiver passes the
  -- receiver's checks of number and size with those windows: what is left is the check of each event.
  pub check_batch-pick :
      (w : Wal) (h : ServerHello) (window_events window_bytes : ℕ) (unacked : List Event)
      (e : Event) (es : List Event)
      → pick (limits_of h) window_events window_bytes 0 0 unacked ≡ ok (e ∷ es)
      → check_batch (batch_of w (e ∷ es)) window_events window_bytes ≡ validate_all (e ∷ es)
  unfolding check_batch limits_of
  check_batch-pick w h we wb unacked e es picked =
      let limits = pick-limits (limits_of h) we wb unacked (e ∷ es) picked in
      let number : leb (length (e ∷ es)) max_batch && leb (length (e ∷ es)) we ≡ true =
        ground (arith, limits.1) in
      let bytes : leb (total_charge (e ∷ es)) (min max_charge wb) ≡ true =
        ground (arith, limits.2) in
      ground (arith, number, bytes)
