-- ===== src/Shadow/Matches.antt =====
-- What a comparison without differences shows of the totals (compare of
-- reference/coredrp_ref/miningcore_shadow.py).
use mathlib.Core.Path.{subst}
use core_drp.Prelude.{
  ◌≡◌, refl, sym, ap, ◌∙◌, Bool, true, false, ◌&&◌, Option, none, some, List, [], ◌∷◌, ◌++◌, map,
  Bytes, bytes_eq_iff, and_right,
}
use core_drp.Result.{
  require, shadow_export_digest_mismatch, shadow_unsupported_export, Result, ok, raise, ok-inj,
  >>=-eq-ok,
}
use core_drp.Policy.{lookup}
use core_drp.Finance.{Fraction, eq_frac, decimal}
use core_drp.Finance.Sorting.{sort_by}
use core_drp.Finance.Amounts.Truncation.{IsAtoms, decimal-IsAtoms}
use core_drp.Finance.Allocation.Conservation.{equal_units}
use core_drp.Finance.Effects.{pps_liability}
use core_drp.Shadow.{
  ShareRow, CreditRow, LedgerRow, Reason, index, sources_match, read_amounts, amount_findings,
  key_findings, pps_inputs, finding, validate_policy,
}
use core_drp.Shadow.Ledger.{Found, Ledger, all_changes}
use core_drp.Shadow.Totals.{
  SameAmount, SameTotals, no_totals, plus-SameTotals, sort_by-SameTotals, amounts_of-SameTotals,
}
use core_drp.Shadow.Compare.{
  Export, Tally, plus, tally_amounts, tally_key, of_key, all_keys, by_key, amounts_of, Report,
  all_carries, is_empty, report_of, is_supported, held, identities, no_tally, compare_rows, compare,
}

nothing_in : {A : Type 0} (xs ys : List A) → xs ++ ys ≡ [] → (xs ≡ []) × (ys ≡ [])
nothing_in [] ys h = (refl, h)
nothing_in (x ∷ xs) ys h = cc

map-none : {A B : Type 0} (f : A → B) (xs : List A) → map f xs ≡ [] → xs ≡ []
map-none f [] h = refl
map-none f (x ∷ xs) h = cc

finding-none :
    (test : Bool) (reason : Reason) (xs : List Reason)
    → finding test reason ++ xs ≡ []
    → (test ≡ true) × (xs ≡ [])
finding-none true reason xs h = (refl, h)
finding-none false reason xs h = cc

-- The amounts that are read are decimals.
read_amounts-SameAmount :
    (share : ShareRow) (credit : CreditRow) (retained : Bytes) (expected actual paid : Fraction)
    → read_amounts share credit retained ≡ ok (expected, actual, paid)
    → eq_frac actual expected ≡ true
    → SameAmount expected actual
unfolding read_amounts SameAmount
read_amounts-SameAmount share credit retained expected actual paid h e =
    let (text, _, h1) = >>=-eq-ok (pps_liability (pps_inputs share retained)) _ h in
    let (a, read_a, h2) = >>=-eq-ok (decimal credit.calculatedamount) _ h1 in
    let (p, _, h3) = >>=-eq-ok (decimal credit.creditedamount) _ h2 in
    let (x, read_x, h4) = >>=-eq-ok (decimal text) _ h3 in
    let is_x : x ≡ expected = ap (λ r. r.0) (ok-inj h4) in
    let is_a : a ≡ actual = ap (λ r. r.1) (ok-inj h4) in
    let (m, am) = decimal-IsAtoms credit.calculatedamount actual (read_a ∙ ap ok is_a) in
    let (n, xn) = decimal-IsAtoms text expected (read_x ∙ ap ok is_x) in
    let same = equal_units actual expected m n am xn e in (n, xn, subst (IsAtoms actual) same am)

-- A pair of rows without a finding adds equal amounts under one key.
tally_amounts-SameTotals :
    (key : Bytes) (share : ShareRow) (credit : CreditRow) (rows : List LedgerRow) (retained : Bytes)
    (o : Result (Fraction × Fraction × Fraction)) (t u : Tally)
    → read_amounts share credit retained ≡ o
    → tally_amounts key share credit o t ≡ ok u
    → sources_match share credit ≡ true
    → amount_findings credit rows o ≡ []
    → SameTotals t.totals t.baseline
    → SameTotals u.totals u.baseline
unfolding tally_amounts
tally_amounts-SameTotals key share credit rows retained (raise x) t u read h m f s = cc
tally_amounts-SameTotals key share credit rows retained (ok (expected, actual, paid)) t u read h m f
      s =
    let (at, _, h1) = >>=-eq-ok credit.instant _ h in
    let (equal, _) = finding-none (eq_frac actual expected) _ _ f in
    let recipients : share.miner ≡ credit.address =
      (bytes_eq_iff share.miner credit.address).0 (and_right _ _ m) in
    let amounts = read_amounts-SameAmount share credit retained expected actual paid read equal in
    let whole = plus-SameTotals share.miner expected actual t.totals t.baseline amounts s in
    subst (λ w. SameTotals w.totals w.baseline) (ok-inj h1)
      (subst (λ k. SameTotals (plus share.miner expected t.totals) (plus k actual t.baseline))
        recipients whole)

tally_key-SameTotals :
    (key : Bytes) (share : Option ShareRow) (credit : Option CreditRow) (rows : List LedgerRow)
    (retained : Bytes) (t u : Tally)
    → tally_key key share credit retained t ≡ ok u
    → key_findings share credit rows retained ≡ []
    → SameTotals t.totals t.baseline
    → SameTotals u.totals u.baseline
unfolding tally_key key_findings
tally_key-SameTotals key none credit rows retained t u h f s = cc
tally_key-SameTotals key (some share) none rows retained t u h f s = cc
tally_key-SameTotals key (some share) (some credit) rows retained t u h f s =
    let (m, g) = finding-none (sources_match share credit) _ _ f in
    tally_amounts-SameTotals key share credit rows retained (read_amounts share credit retained) t u
      refl h m g s

tally_amounts-differences :
    (key : Bytes) (share : ShareRow) (credit : CreditRow)
    (o : Result (Fraction × Fraction × Fraction)) (t u : Tally)
    → tally_amounts key share credit o t ≡ ok u
    → u.differences ≡ t.differences
unfolding tally_amounts
tally_amounts-differences key share credit (raise x) t u h =
    ap (λ w. w.differences) (sym (ok-inj h))
tally_amounts-differences key share credit (ok p) t u h =
    let (at, _, h1) = >>=-eq-ok credit.instant _ h in ap (λ w. w.differences) (sym (ok-inj h1))

tally_key-differences :
    (key : Bytes) (share : Option ShareRow) (credit : Option CreditRow) (retained : Bytes)
    (t u : Tally)
    → tally_key key share credit retained t ≡ ok u
    → u.differences ≡ t.differences
unfolding tally_key
tally_key-differences key none credit retained t u h = ap (λ w. w.differences) (sym (ok-inj h))
tally_key-differences key (some share) none retained t u h =
    ap (λ w. w.differences) (sym (ok-inj h))
tally_key-differences key (some share) (some credit) retained t u h =
    tally_amounts-differences key share credit (read_amounts share credit retained) t u h

module _ (shares : List (Bytes × ShareRow)) (credits : List (Bytes × CreditRow)) (changes : Ledger)
    (retained : Bytes) where
  -- A turn that leaves no difference keeps the totals equal.
  of_key-SameTotals :
      (key : Bytes) (t u : Tally)
      → of_key shares credits changes retained key t ≡ ok u
      → u.differences ≡ []
      → (t.differences ≡ []) × (SameTotals t.totals t.baseline → SameTotals u.totals u.baseline)
  unfolding of_key
  of_key-SameTotals key t u h e =
      let (v, tallied, h1) =
        >>=-eq-ok (tally_key key (lookup key shares) (lookup key credits) retained t) _ h in
      let all : v.differences ++ map (λ r. (some key, r)) _ ≡ [] =
        ap (λ w. w.differences) (ok-inj h1) ∙ e in
      let (before, found) = nothing_in v.differences _ all in
      (
        sym (
              tally_key-differences key (lookup key shares) (lookup key credits) retained t v
                tallied)
            ∙ before,
        λ s.
            subst (λ w. SameTotals w.totals w.baseline) (ok-inj h1)
              (tally_key-SameTotals key (lookup key shares) (lookup key credits) _ retained t v
                tallied (map-none _ _ found) s),
      )

  all_keys-SameTotals :
      (keys : List Bytes) (t u : Tally)
      → all_keys (of_key shares credits changes retained) keys t ≡ ok u
      → u.differences ≡ []
      → (t.differences ≡ []) × (SameTotals t.totals t.baseline → SameTotals u.totals u.baseline)
  unfolding all_keys
  all_keys-SameTotals [] t u h e = (
    ap (λ w. w.differences) (ok-inj h) ∙ e,
    λ s. subst (λ w. SameTotals w.totals w.baseline) (ok-inj h) s,
  )
  all_keys-SameTotals (key ∷ keys) t u h e =
      let (v, h1, h2) = >>=-eq-ok (of_key shares credits changes retained key t) _ h in
      let (clean, later) = all_keys-SameTotals keys v u h2 e in
      let (before, now) = of_key-SameTotals key t v h1 clean in (before, λ s. later (now s))

is_empty-none : {A : Type 0} (xs : List A) → is_empty xs ≡ true → xs ≡ []
is_empty-none [] h = refl
is_empty-none (x ∷ xs) h = cc

-- A report without differences is one of a tally without differences.
report_of-matching :
    (populated : Bool) (found : List Found) (t : Tally) (r : Report)
    → report_of populated found t ≡ ok r
    → r.accounting_matches ≡ true
    → (t.differences ≡ [])
      × (amounts_of (sort_by by_key t.totals) ≡ ok r.reference_totals)
      × (amounts_of (sort_by by_key t.baseline) ≡ ok r.baseline_totals)
unfolding report_of
report_of-matching populated found t r h m =
    let (reference, h1, h2) = >>=-eq-ok (amounts_of (sort_by by_key t.totals)) _ h in
    let (baseline, h3, h4) = >>=-eq-ok (amounts_of (sort_by by_key t.baseline)) _ h2 in
    let carries = all_carries (sort_by by_key t.recipient_credits) in
    let clean : populated && is_empty (found ++ (t.differences ++ carries)) ≡ true =
      ap (λ w. w.accounting_matches) (ok-inj h4) ∙ m in
    let none_at_all = is_empty-none _ (and_right _ _ clean) in
    let (_, behind) = nothing_in found (t.differences ++ carries) none_at_all in
    let (tallied, _) = nothing_in t.differences carries behind in
    (
      tallied,
      h1 ∙ ap ok (ap (λ w. w.reference_totals) (ok-inj h4)),
      h3 ∙ ap ok (ap (λ w. w.baseline_totals) (ok-inj h4)),
    )

compare_rows-matches :
    (export : Export) (lost : List Reason) (shares : List (Bytes × ShareRow))
    (credits : List (Bytes × CreditRow)) (r : Report)
    → compare_rows export lost shares credits ≡ ok r
    → r.accounting_matches ≡ true
    → r.reference_totals ≡ r.baseline_totals
unfolding compare_rows
compare_rows-matches export lost shares credits r h m =
    let ledger = all_changes (held shares credits) export.balance_changes [] in
    let retained = export.policy.retained_percent in
    let (t, tallied, h1) =
      >>=-eq-ok
        (all_keys (of_key shares credits ledger.1 retained) (identities shares credits) no_tally) _
        h in
    let (clean, reference, baseline) = report_of-matching _ _ t r h1 m in
    let (_, kept) =
      all_keys-SameTotals shares credits ledger.1 retained (identities shares credits) no_tally t
        tallied clean in
    let same = sort_by-SameTotals t.totals t.baseline (kept no_totals) in
    ok-inj (
      sym reference
      ∙ amounts_of-SameTotals (sort_by by_key t.totals) (sort_by by_key t.baseline) same
      ∙ baseline)

-- Where a comparison reports that the accounting matches, the totals that it calculates from the
-- shares and the totals of the credits are the same: the same recipients, with the same amounts.
pub compare-matches :
    (intact : Bool) (export : Export) (r : Report)
    → compare intact export ≡ ok r
    → r.accounting_matches ≡ true
    → r.reference_totals ≡ r.baseline_totals
unfolding compare
compare-matches intact export r h m =
    let (_, _, h1) = >>=-eq-ok (require intact shadow_export_digest_mismatch) _ h in
    let (_, _, h2) = >>=-eq-ok (require (is_supported export) shadow_unsupported_export) _ h1 in
    let (_, _, h3) =
      >>=-eq-ok (validate_policy export.policy export.scope export.from_time export.until_time) _
        h2 in
    let (shares, _, h4) = >>=-eq-ok (index export.shares []) _ h3 in
    let (credits, _, h5) = >>=-eq-ok (index export.credits []) _ h4 in
    compare_rows-matches export (shares.0 ++ credits.0) shares.1 credits.1 r h5 m
