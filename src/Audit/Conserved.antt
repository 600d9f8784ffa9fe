-- ===== src/Audit/Conserved.antt =====
-- What an audit that passes shows of the reward (audit of tools/audit_evidence.py).
use mathlib.Core.Path.{subst}
use core_drp.Prelude.{
  ℕ, ◌+◌, ◌≡◌, sym, ap, ◌∙◌, ◌&&◌, arith, not, ◌==◌, none, some, List, [], ◌∷◌, length, map, all,
  Bytes, bytes_eq,
}
use core_drp.Result.{Result, ok, raise, ok-inj, >>=-eq-ok, key_error}
use core_drp.Policy.{demand-eq-ok, lookup}
use core_drp.Finance.{frac, add, eq_frac, decimal}
use core_drp.Finance.Sorting.{distinct_by}
use core_drp.Finance.Allocation.{sum, decimals_of, allocate}
use core_drp.Finance.Allocation.Conservation.{
  IsUnits, TotalUnits, add-IsAtoms, equal_units, decimals-units, allocate-conserves,
}
use core_drp.Finance.Amounts.Truncation.{IsAtoms, decimal-IsAtoms}
use core_drp.Profile.{Accounting}
use core_drp.Audit.{Inputs, Bundle, bundle_digest}
use core_drp.Audit.Rows.{Terms, each_event, selection}
use core_drp.Audit.Checks.{
  destinations, is_linked, percentage_of, check_inputs, Allocated, with_miners, same_dict, audit,
}

-- The identities with their amounts.
abbrev pub amounts_in : Allocated → List (Bytes × Bytes)
amounts_in = map (λ r. (r.0, r.1.1))

with_miners-amounts_in :
    (miners amounts : List (Bytes × Bytes)) (result : Allocated)
    → with_miners miners amounts ≡ ok result
    → amounts_in result ≡ amounts
unfolding with_miners
with_miners-amounts_in miners [] result h = ap amounts_in (sym (ok-inj h))
with_miners-amounts_in miners ((k, v) ∷ amounts) result h =
    let (miner, _, h1) =
      >>=-eq-ok (elim (lookup k miners) [ none ↦ raise key_error | some m ↦ ok m ]) _ h in
    let (rest, others, h2) =
      >>=-eq-ok (with_miners miners amounts) (λ rest. ok ((k, (miner, v)) ∷ rest)) h1 in
    ap amounts_in (sym (ok-inj h2))
    ∙ ap (λ t. (k, v) ∷ t) (with_miners-amounts_in miners amounts rest others)

-- The checks of the inputs: what is distributed and what is deducted are together the gross reward.
check_inputs-IsUnits :
    (terms : Terms) (x : Inputs) (r : ℕ)
    → check_inputs terms x ≡ ok tt
    → IsUnits x.distributable_reward r
    → (k : ℕ) × TotalUnits x.deductions k × IsUnits x.gross_reward (r + k)
unfolding check_inputs IsUnits
check_inputs-IsUnits terms x r h (v, read_v, exact_v) =
    let (gross, hg, h1) = >>=-eq-ok (decimal x.gross_reward) _ h in
    let (reward, hr, h2) = >>=-eq-ok (decimal x.distributable_reward) _ h1 in
    let (ids, _, h3) = >>=-eq-ok (destinations x.deductions) _ h2 in
    let (_, h4) =
      demand-eq-ok (all (λ b. not (length b == 0)) ids && distinct_by bytes_eq ids) _ h3 in
    let (amounts, read, h5) = >>=-eq-ok (decimals_of x.deductions) _ h4 in
    let (even, _) = demand-eq-ok (eq_frac gross (add reward (sum amounts))) _ h5 in
    let (k, total, summed) =
      decimals-units x.deductions amounts (frac 0 1) 0 read (omega arith, omega arith) in
    let plain : 0 + k ≡ k = omega arith in
    let same : v ≡ reward = ok-inj (sym read_v ∙ hr) in
    let both =
      add-IsAtoms reward (sum amounts) r k (subst (λ t. IsAtoms t r) same exact_v)
        (subst (IsAtoms (sum amounts)) plain summed) in
    let (g, exact) = decimal-IsAtoms x.gross_reward gross hg in
    let whole = equal_units gross (add reward (sum amounts)) g (r + k) exact both even in
    (k, total, (gross, hg, subst (IsAtoms gross) whole exact))

-- Where an audit passes, the amounts it confirms, the dust and the deductions are together the gross
-- reward of the bundle, to the last unit of 10**-24.
pub audit-conserves :
    (parse : Bytes → Result Accounting) (bundle : Bundle) (terms : Terms)
    (expected result : Allocated) (dust digest : Bytes)
    → audit parse bundle terms expected ≡ ok (result, dust, digest)
    → (n : ℕ) × (d : ℕ) × (k : ℕ) × TotalUnits (amounts_in result) n
      × IsUnits dust d
      × TotalUnits bundle.inputs.deductions k
      × IsUnits bundle.inputs.gross_reward (n + d + k)
unfolding audit
audit-conserves parse bundle terms expected result dust digest h =
    let inputs = bundle.inputs in
    let (_, checked, h1) = >>=-eq-ok (check_inputs terms inputs) _ h in
    let (g, _, h2) =
      >>=-eq-ok
        (each_event parse terms inputs bundle.events
          (record { rows = []; miners = []; finder_matches = []; seen = [] }))
        _ h1 in
    let (selected, _, h3) = >>=-eq-ok (selection terms g) _ h2 in
    let (_, h4) =
      demand-eq-ok (is_linked terms.scheme inputs.finder_accounting_id g.finder_matches) _ h3 in
    let (paid, allocated, h5) =
      >>=-eq-ok
        (allocate selected inputs.distributable_reward inputs.finder_accounting_id
          (percentage_of terms))
        _ h4 in
    let (named, with_names, h6) = >>=-eq-ok (with_miners g.miners paid.0) _ h5 in
    let (_, h7) = demand-eq-ok (same_dict named expected) _ h6 in
    let (at, _, h8) = >>=-eq-ok (bundle_digest bundle) _ h7 in
    let results : named ≡ result = ap (λ t. t.0) (ok-inj h8) in
    let dusts : paid.1 ≡ dust = ap (λ t. t.1) (ok-inj h8) in
    let (n, d, amounts, left, reward) =
      allocate-conserves selected inputs.distributable_reward inputs.finder_accounting_id
        (percentage_of terms) paid.0 paid.1 allocated in
    let (k, deducted, gross) = check_inputs-IsUnits terms inputs (n + d) checked reward in
    let listed : paid.0 ≡ amounts_in result =
      sym (with_miners-amounts_in g.miners paid.0 named with_names) ∙ ap amounts_in results in
    (
      n,
      d,
      k,
      subst (λ t. TotalUnits t n) listed amounts,
      subst (λ t. IsUnits t d) dusts left,
      deducted,
      gross,
    )
