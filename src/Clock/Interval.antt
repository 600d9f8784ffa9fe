-- ===== src/Clock/Interval.antt =====
-- What interval_class of tools/verify_policy_clock_vectors.py says of the offsets in the interval.
use core_drp.Prelude.{◌≡◌, ◌⊎◌, inl, inr, ◌↔◌, arith, dec_lt, ◌+◌}
use core_drp.Prelude.Int.{ℤ, pos, pos_part, neg_part, ◌≤ℤ◌, ◌<ℤ◌, -ℤ_parts}
use core_drp.Clock.{good, bad, class_between, neg_ℤ}

-- An offset is within the skew s.
abbrev pub Within : ℤ → ℤ → Type 0
Within s t = (neg_ℤ s ≤ℤ t) × (t ≤ℤ s)

abbrev pub Inside : ℤ → ℤ → ℤ → Type 0
Inside lo hi t = (lo ≤ℤ t) × (t ≤ℤ hi)

-- An interval is classed by its two ends.
module _ (s lo hi : ℤ) where
  class_good : (class_between s lo hi ≡ good) ↔ ((neg_ℤ s ≤ℤ lo) × (lo ≤ℤ hi) × (hi ≤ℤ s))
  unfolding class_between
  class_good = ground arith

  class_bad : lo ≤ℤ hi → pos 0 ≤ℤ s → (class_between s lo hi ≡ bad) ↔ ((hi <ℤ neg_ℤ s) ⊎ (s <ℤ lo))
  unfolding class_between
  class_bad interval skew = ground (arith, -ℤ_parts (pos 0) s)

  pub good-Within : class_between s lo hi ≡ good → (t : ℤ) → Inside lo hi t → Within s t
  good-Within h t inside =
      let ends = class_good.0 h in (omega (arith, ends, inside), omega (arith, ends, inside))

module _ (s lo hi : ℤ) (skew : pos 0 ≤ℤ s) (interval : lo ≤ℤ hi) where
  Within-good : ((t : ℤ) → Inside lo hi t → Within s t) → class_between s lo hi ≡ good
  Within-good all =
      let at_lo = all lo (omega arith, interval) in
      let at_hi = all hi (interval, omega arith) in
      (class_good s lo hi).1 (at_lo.0, interval, at_hi.1)

  bad_outside : class_between s lo hi ≡ bad → (t : ℤ) → Inside lo hi t → ¬ Within s t
  bad_outside h t inside within = elim ((class_bad s lo hi interval skew).0 h) [
    | inl below ↦ omega (arith, below, inside, within)
    | inr above ↦ omega (arith, above, inside, within)
  ]

  outside_bad : ((t : ℤ) → Inside lo hi t → ¬ Within s t) → class_between s lo hi ≡ bad
  outside_bad outside = elim (dec_lt (pos_part s + neg_part lo) (pos_part lo + neg_part s)) [
    | yes above ↦ (class_bad s lo hi interval skew).1 (inr above)
    | no low ↦ elim (dec_lt (pos_part hi + neg_part (neg_ℤ s)) (pos_part (neg_ℤ s) + neg_part hi)) [
      | yes below ↦ (class_bad s lo hi interval skew).1 (inl below)
      | no high ↦
          elim (dec_lt (pos_part lo + neg_part (neg_ℤ s)) (pos_part (neg_ℤ s) + neg_part lo)) [
            | yes left ↦ absurd (
                outside (neg_ℤ s) (omega arith, omega arith)
                  (omega arith, omega (arith, -ℤ_parts (pos 0) s)))
            | no right ↦ absurd (outside lo (omega arith, interval) (omega arith, omega arith))
          ]
    ]
  ]

  -- For a skew that is not negative and an interval that is not empty, the class is GOOD exactly if
  -- every offset in the interval is within the skew, and BAD exactly if none is.
  pub class_between_lem :
      ((class_between s lo hi ≡ good) ↔ ((t : ℤ) → Inside lo hi t → Within s t))
      × ((class_between s lo hi ≡ bad) ↔ ((t : ℤ) → Inside lo hi t → ¬ Within s t))
  class_between_lem = ((good-Within s lo hi, Within-good), (bad_outside, outside_bad))
