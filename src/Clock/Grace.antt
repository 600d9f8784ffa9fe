-- ===== src/Clock/Grace.antt =====
-- The time that an unknown clock may stay unknown, and the way back from a bad one
-- (verify_unknown_grace and verify_bad_recovery of tools/verify_policy_clock_vectors.py).
use core_drp.Prelude.{◌≡◌, ◌⊎◌, refl, arith, Bool, ◌&&◌, Option, none, some, if◌then◌else◌}
use core_drp.Prelude.Int.{ℤ, pos, ◌≤ℤ◌, ◌+ℤ◌, ◌-ℤ◌, leb_ℤ, max_ℤ, -ℤ_parts, +ℤ_parts, eq_of_parts}
use core_drp.Clock.{ClockState, good, bad, unknown, unlisted, same_state}

-- since
abbrev pub unknown_since : ClockState → Option ℤ → ℤ → ℤ
unknown_since unknown (some since) now = since
unknown_since unknown none now = now
unknown_since good since now = now
unknown_since bad since now = now
unknown_since unlisted since now = now

abbrev pub remaining_grace : ℤ → ℤ → ℤ → ℤ
remaining_grace grace since now = max_ℤ (pos 0) (grace -ℤ (now -ℤ since))

-- verify_unknown_grace: the start of the unknown time, and what is left of the grace.
unfoldable pub verify_unknown_grace : ClockState → Option ℤ → ℤ → ℤ → ℤ × ℤ
verify_unknown_grace state since now grace =
    let start = unknown_since state since now in (start, remaining_grace grace start now)

remaining_grace-later :
    (grace start now later : ℤ)
    → now ≤ℤ later
    → remaining_grace grace start later ≤ℤ remaining_grace grace start now
remaining_grace-later grace start now later order =
    let spent = now -ℤ start in
    let spent' = later -ℤ start in
    ground
      (arith, -ℤ_parts now start, -ℤ_parts later start, -ℤ_parts grace spent, -ℤ_parts grace spent')

remaining_grace-used :
    (grace start later : ℤ)
    → (remaining_grace grace start later ≡ pos 0)
      ⊎ ((remaining_grace grace start later +ℤ (later -ℤ start)) ≡ grace)
remaining_grace-used grace start later =
    let spent = later -ℤ start in
    let left = grace -ℤ spent in
    let back : left +ℤ spent ≡ grace =
      eq_of_parts (left +ℤ spent) grace
        (omega (arith, +ℤ_parts left spent, -ℤ_parts grace spent)) in
    ground (arith, back)

-- A clock that stays unknown keeps the start of its grace, however often it is asked: a later answer
-- has the same start and no more time left, and the time left with the time since the start is the
-- whole grace, unless nothing is left.
pub grace_not_renewed :
    (state : ClockState) (since : Option ℤ) (now later grace : ℤ)
    → now ≤ℤ later
    → let (start, left) = verify_unknown_grace state since now grace in
      let (start', left') = verify_unknown_grace unknown (some start) later grace in
      (start' ≡ start) × (left' ≤ℤ left) × ((left' ≡ pos 0) ⊎ ((left' +ℤ (later -ℤ start)) ≡ grace))
unfolding verify_unknown_grace
grace_not_renewed state since now later grace order =
    let start = unknown_since state since now in
    (
      refl,
      remaining_grace-later grace start now later order,
      remaining_grace-used grace start later,
    )

pub data Recovery : Type 0 where
  recovered recovering : Recovery

-- verify_bad_recovery: the previous state, whether its evidence expired, the count of fresh GOOD
-- results, whether they span a probe interval, and whether UTC is not behind.
unfoldable pub verify_bad_recovery : ClockState → Bool → ℤ → Bool → Bool → Recovery
verify_bad_recovery previous evidence_expired fresh_good spans utc_not_behind =
    if same_state previous bad && evidence_expired
    then recovering
    else if leb_ℤ (pos 3) fresh_good && spans && utc_not_behind
    then recovered
    else recovering
