-- ===== src/Reconnect/Completion.antt =====
-- The rules of tools/verify_freeze_completion_vectors.py: completeness across senders, freshness,
-- semantic allocations, staging, reconciliation and settlement holes.
use core_drp.Prelude.{
  ℕ, ◌^◌, ◌-◌, ◌≡◌, ◌⊎◌, ◌↔◌, arith, Bool, true, not, ◌&&◌, ◌||◌, List, all, leb, ◌==◌,
  if◌then◌else◌,
}
use core_drp.Prelude.Int.{ℤ, pos, ◌≤ℤ◌, ◌+ℤ◌, ◌-ℤ◌, leb_ℤ, ltb_ℤ, min_ℤ, max_ℤ, +ℤ_parts, -ℤ_parts}
use core_drp.Wire.{max_time}
use core_drp.Reconnect.Rules.{boundary_accepted, time_accepted}

-- completeness_boundary_cases, with the bound of production
unfoldable pub complete_boundary : ℤ → ℤ → ℤ → ℤ → Bool
complete_boundary boundary skew production_max complete_through =
    let req = boundary +ℤ (skew +ℤ skew) in
    leb_ℤ (pos 0) req && leb_ℤ req production_max && leb_ℤ req complete_through

pub data Freshness : Type 0 where
  expired_evidence good_shortened full_good : Freshness

-- clock_freshness_cases, a delayed GOOD: what is accepted, and its name
abbrev pub accepted_for : ℤ → ℤ → ℤ → ℤ
accepted_for expiry age advertised =
    let rem = max_ℤ (pos 0) (expiry -ℤ age) in
    if ltb_ℤ (pos 0) rem then min_ℤ advertised rem else pos 0

unfoldable pub delayed_good : ℤ → ℤ → ℤ → ℤ × Freshness
delayed_good expiry age advertised =
    let accepted = accepted_for expiry age advertised in
    (
      accepted,
      if leb_ℤ accepted (pos 0)
          then expired_evidence
          else if ltb_ℤ accepted advertised
          then good_shortened
          else full_good,
    )

-- clock_freshness_cases, an UNKNOWN clock: since when, and what is left of the grace
unfoldable pub unknown_grace : Bool → ℤ → ℤ → ℤ → ℤ × ℤ
unknown_grace already_unknown unknown_since now effective_grace =
    let since = if already_unknown then unknown_since else now in
    (since, max_ℤ (pos 0) (effective_grace -ℤ (now -ℤ since)))

-- semantic_allocation_cases
unfoldable pub semantic_allocation : ℕ → ℕ → ℕ → ℕ → ℕ → Bool
semantic_allocation payout_scheme completeness retention ordering admission =
    leb 1 payout_scheme
    && leb payout_scheme 6
    && (completeness == 4)
    && (retention == 1)
    && (ordering == 1)
    && (admission == 3)

-- policy_staging_cases, by whether each required sender has staged the digest
unfoldable pub staging_accepted : List Bool → Bool → Bool → Bool
staging_accepted staged generation_next effective_safe =
    all (λ s. s) staged && generation_next && effective_safe

-- reconciliation_cases
abbrev pub one_of : ℕ → ℕ → ℕ → ℕ → Bool
one_of k a b c = (k == a) || (k == b) || (k == c)

unfoldable pub reconciliation : ℕ → Bool → Bool → Bool → Bool
reconciliation k has_sender prior_present new_present =
    (leb 1 k && leb k 6)
    && (not (one_of k 1 2 3 || (k == 5)) || has_sender)
    && (not ((k == 4) || (k == 6)) || not has_sender)
    && (not (k == 1) || (not prior_present && new_present))
    && (not (one_of k 2 3 4) || (prior_present && new_present))
    && (not ((k == 5) || (k == 6)) || (prior_present && not new_present))

-- intersects
unfoldable pub intersects : ℤ → ℤ → ℤ → ℤ → Bool
intersects a b c d = not (ltb_ℤ b c || ltb_ℤ d a)

-- settlement_hole_cases: the scalar, and one settlement
unfoldable pub capped_scalar : Bool → ℤ → ℤ → ℤ → ℤ
capped_scalar waived current_contiguous_safe candidate hole_from =
    if waived && leb_ℤ hole_from candidate then current_contiguous_safe else candidate

unfoldable pub settlement_safe : Bool → Bool → ℤ → ℤ → ℤ → ℤ → Bool
settlement_safe other_gates waived evidence_from evidence_through hole_from hole_until =
    other_gates && not (intersects evidence_from evidence_through hole_from hole_until && waived)

-- expected_operational_settlement
unfoldable pub operational_settlement : Bool → Bool → Bool
operational_settlement safe override = safe || override

-- Two intervals that are not empty intersect exactly if a time is in both, namely the
-- later of the two starts.
pub intersects_lem :
    (a b c d : ℤ)
    → a ≤ℤ b
    → c ≤ℤ d
    → (intersects a b c d ≡ true)
      ↔ ((a ≤ℤ max_ℤ a c) × (max_ℤ a c ≤ℤ b) × (c ≤ℤ max_ℤ a c) × (max_ℤ a c ≤ℤ d))
unfolding intersects
intersects_lem a b c d ab cd = ground arith

-- The check of a boundary against overflow, which subtracts, accepts exactly the boundaries and skews
-- in their ranges for which the sum of the boundary and twice the skew is an accepted time.
pub boundary_accepted_lem :
    (b s : ℤ)
    → pos 0 ≤ℤ b
    → b ≤ℤ pos max_time
    → pos 0 ≤ℤ s
    → s ≤ℤ pos (2 ^ 32 - 1)
    → boundary_accepted b s ≡ time_accepted (b +ℤ (s +ℤ s))
unfolding boundary_accepted time_accepted
boundary_accepted_lem b s b0 b1 s0 s1 =
    ground (arith, +ℤ_parts s s, +ℤ_parts b (s +ℤ s), -ℤ_parts (pos max_time) (s +ℤ s))

-- A delayed GOOD never outlives its evidence: what is accepted is at most what was advertised, and
-- with the age of the evidence at most the expiry, unless nothing is accepted.
pub delayed_good-bounds :
    (expiry age advertised : ℤ)
    → pos 0 ≤ℤ advertised
    → ((delayed_good expiry age advertised).0 ≤ℤ advertised)
      × (((delayed_good expiry age advertised).0 ≡ pos 0)
          ⊎ ((age +ℤ (delayed_good expiry age advertised).0) ≤ℤ expiry))
unfolding delayed_good
delayed_good-bounds expiry age advertised positive =
    ground (arith, -ℤ_parts expiry age, +ℤ_parts age (accepted_for expiry age advertised))
