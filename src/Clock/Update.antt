-- ===== src/Clock/Update.antt =====
-- What an accepted ClockStateUpdate guarantees (verify_clock_update of
-- tools/verify_policy_clock_vectors.py).
use core_drp.Prelude.{◌≡◌, arith, true, false, some}
use core_drp.Prelude.Int.{ℤ, pos, ◌≤ℤ◌, ◌<ℤ◌, ◌+ℤ◌, ◌-ℤ◌, min_ℤ, -ℤ_parts, +ℤ_parts}
use core_drp.Clock.Interval.{Inside, Within, good-Within}
use core_drp.Clock.{
  ClockState, good, bad, ClockUpdate, Reason, sender_processing_limit, receiver_wall_step,
  evidence_expired, probe_evidence, other_reason, class_between, interval_class, ignore, refused,
  accepted, fresh_result, judge, last_of, verify_clock_update,
}

-- The guards that stand before the rules of the reasons.
record IsCurrent (x : ClockUpdate) : Type 0 where
  newer : last_of x <ℤ x.generation
  positive : pos 1 ≤ℤ x.valid_for_ms
  within_expiry : x.valid_for_ms ≤ℤ x.effective_expiry_ms

least_bounds :
    (valid expiry age : ℤ)
    → pos 1 ≤ℤ valid
    → age <ℤ expiry
    → (pos 1 ≤ℤ min_ℤ valid (expiry -ℤ age))
      × (min_ℤ valid (expiry -ℤ age) ≤ℤ valid)
      × ((age +ℤ min_ℤ valid (expiry -ℤ age)) ≤ℤ expiry)
least_bounds valid expiry age lo young =
    let difference = -ℤ_parts expiry age in
    let least = min_ℤ valid (expiry -ℤ age) in
    let sum = +ℤ_parts age least in ground (arith, difference, sum)

module _ (x : ClockUpdate) (s : ClockState) (remaining : ℤ) where
  update-IsCurrent :
      verify_clock_update x ≡ accepted s remaining
      → IsCurrent x × (judge x.reason x ≡ accepted s remaining)
  unfolding verify_clock_update
  update-IsCurrent h = (
    record { newer = ground arith; positive = ground arith; within_expiry = ground arith },
    ground arith,
  )

  fresh-state : (t : ClockState) → fresh_result x t ≡ accepted s remaining → t ≡ s
  unfolding fresh_result
  fresh-state t h = ground arith

  -- The evidence is no older than it may be when the state runs out.
  fresh_bounds :
      pos 1 ≤ℤ x.valid_for_ms
      → fresh_result x s ≡ accepted s remaining
      → (pos 1 ≤ℤ remaining)
        × (remaining ≤ℤ x.valid_for_ms)
        × ((x.probe_age_ms +ℤ remaining) ≤ℤ x.effective_expiry_ms)
  unfolding fresh_result
  fresh_bounds lo h =
      let is_min : min_ℤ x.valid_for_ms (x.effective_expiry_ms -ℤ x.probe_age_ms) ≡ remaining =
        ground arith in
      let young : x.probe_age_ms <ℤ x.effective_expiry_ms = ground arith in
      rw (← is_min) (least_bounds _ _ _ lo young)

module _ (x : ClockUpdate) (remaining : ℤ) where
  -- The rules give GOOD only to the evidence of a probe with bounds of the class GOOD.
  judge-good :
      (reason : Reason)
      → judge reason x ≡ accepted good remaining
      → (reason ≡ probe_evidence)
        × (x.probe_present ≡ true)
        × (interval_class x ≡ some good)
        × (fresh_result x good ≡ accepted good remaining)
  unfolding judge
  judge-good probe_evidence h = ground (arith, fresh-state x good remaining x.state)
  judge-good sender_processing_limit h = ground (arith, fresh-state x good remaining bad)
  judge-good receiver_wall_step h = ground arith
  judge-good evidence_expired h = ground arith
  judge-good other_reason h = ground arith

module _ (x : ClockUpdate) (s : ClockState) (remaining : ℤ) where
  judge-bounds :
      (reason : Reason)
      → pos 1 ≤ℤ x.valid_for_ms
      → judge reason x ≡ accepted s remaining
      → (pos 1 ≤ℤ remaining) × (remaining ≤ℤ x.valid_for_ms)
  unfolding judge
  judge-bounds probe_evidence lo h =
      ground (arith, fresh-state x s remaining x.state, fresh_bounds x s remaining lo)
  judge-bounds sender_processing_limit lo h =
      ground (arith, fresh-state x s remaining bad, fresh_bounds x s remaining lo)
  judge-bounds receiver_wall_step lo h = ground arith
  judge-bounds evidence_expired lo h = ground arith
  judge-bounds other_reason lo h = ground arith

  -- An update that is accepted is newer than the last one, and its state holds for at least one
  -- millisecond, at most for the time that the update says, which is at most the expiry.
  pub accepted-bounds :
      verify_clock_update x ≡ accepted s remaining
      → (last_of x <ℤ x.generation)
        × (pos 1 ≤ℤ remaining)
        × (remaining ≤ℤ x.valid_for_ms)
        × (x.valid_for_ms ≤ℤ x.effective_expiry_ms)
  accepted-bounds h =
      let (current, judged) = update-IsCurrent x s remaining h in
      let bounds = judge-bounds x.reason current.positive judged in
      (current.newer, bounds.0, bounds.1, current.within_expiry)

  -- An update that was accepted is ignored when it comes again on a stream that holds its generation.
  pub accepted_once :
      verify_clock_update x ≡ accepted s remaining
      → verify_clock_update (record x { new_stream = false; last_generation = x.generation })
        ≡ refused ignore
  unfolding verify_clock_update
  accepted_once h = ground arith

module _ (x : ClockUpdate) (remaining : ℤ) where
  -- GOOD is accepted only from a valid probe, and runs out no later than the probe's evidence.
  pub good_evidence :
      verify_clock_update x ≡ accepted good remaining
      → (x.reason ≡ probe_evidence)
        × (x.probe_present ≡ true)
        × (x.probe_valid ≡ true)
        × ((x.probe_age_ms +ℤ remaining) ≤ℤ x.effective_expiry_ms)
  unfolding verify_clock_update
  good_evidence h =
      let (current, judged) = update-IsCurrent x good remaining h in
      let (reason, present, class, fresh) = judge-good x remaining x.reason judged in
      let valid : x.probe_valid ≡ true = ground (arith, present) in
      (reason, present, valid, (fresh_bounds x good remaining current.positive fresh).2)

  -- If GOOD is accepted from bounds lo and hi, every offset between them is within the skew.
  pub good_offsets :
      (lo hi t : ℤ)
      → x.lower ≡ some lo
      → x.upper ≡ some hi
      → verify_clock_update x ≡ accepted good remaining
      → Inside lo hi t
      → Within x.bound_skew_ms t
  good_offsets lo hi t at_lo at_hi h inside =
      let (_, judged) = update-IsCurrent x good remaining h in
      let (_, _, class, _) = judge-good x remaining x.reason judged in
      let is_good : class_between x.bound_skew_ms lo hi ≡ good =
        ground (arith, at_lo, at_hi, class) in
      good-Within x.bound_skew_ms lo hi is_good t inside
