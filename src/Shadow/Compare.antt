-- ===== src/Shadow/Compare.antt =====
-- compare of reference/coredrp_ref/miningcore_shadow.py, from the rows of an export to the report.
use core_drp.Prelude.{
  ◌*◌, ◌/◌, ◌^◌, Bool, true, false, not, ◌&&◌, ◌||◌, if◌then◌else◌, Option, none, some, List, [],
  ◌∷◌, ◌++◌, map, Bytes, bytes_eq, codes,
}
use core_drp.Prelude.Int.{ℤ, pos, ltb_ℤ, eq_ℤ}
use core_drp.Result.{
  Result, ok, raise, require, ◌>>=◌, ◌>>◌, shadow_export_digest_mismatch, shadow_unsupported_export,
}
use core_drp.Policy.{lookup, lookup_or, put, member}
use core_drp.Finance.{Fraction, frac, add, eq_frac, amount}
use core_drp.Finance.Sorting.{bytes_lt, sort_by}
use core_drp.Shadow.Ledger.{ChangeRow, Found, Ledger, without_dashes, all_changes}
use core_drp.Shadow.{
  ShadowPolicy, validate_policy, ShareRow, CreditRow, LedgerRow, Reason, index, rounds_to,
  read_amounts, key_findings, CarryRow, carry_finding, inconsistent_recipient_carry_history,
}

pub record Export : Type 0 where
  pub version : ℤ
  pub scope : Bytes
  pub scheme : Bytes
  pub policy : ShadowPolicy
  pub from_time : ℤ
  pub until_time : ℤ
  pub shares : List (Option Bytes × ShareRow)
  pub credits : List (Option Bytes × CreditRow)
  pub balance_changes : List ChangeRow

-- A row of recipient_credits: the time, the identity, the calculated and the credited amount.
abbrev pub CreditAt : Type 0
CreditAt = ℤ × Bytes × Fraction × Fraction

-- differences, rounding, totals, baseline and recipient_credits
pub record Tally : Type 0 where
  pub differences : List Found
  pub rounding : List Bytes
  pub totals : List (Bytes × Fraction)
  pub baseline : List (Bytes × Fraction)
  pub recipient_credits : List (Bytes × List CreditAt)

abbrev pub plus : Bytes → Fraction → List (Bytes × Fraction) → List (Bytes × Fraction)
plus k v d = put k (add (lookup_or (frac 0 1) k d) v) d

unfoldable pub tally_amounts :
    Bytes → ShareRow → CreditRow → Result (Fraction × Fraction × Fraction) → Tally → Result Tally
tally_amounts key share credit (raise x) t = ok t
tally_amounts key share credit (ok (expected, actual, paid)) t = do
  at ← credit.instant
  ok (record t {
    rounding =
        t.rounding ++ (if rounds_to actual paid && not (eq_frac paid actual) then key ∷ [] else []);
    totals = plus share.miner expected t.totals;
    baseline = plus credit.address actual t.baseline;
    recipient_credits =
        put credit.address
          (lookup_or [] credit.address t.recipient_credits ++ (at, key, actual, paid) ∷ [])
          t.recipient_credits;
  })

unfoldable pub tally_key : Bytes → Option ShareRow → Option CreditRow → Bytes → Tally → Result Tally
unfolding tally_amounts read_amounts
tally_key key (some share) (some credit) retained t =
    tally_amounts key share credit (read_amounts share credit retained) t
tally_key key share credit retained t = ok t

-- One turn of the loop over the identities.
unfoldable pub of_key :
    List (Bytes × ShareRow)
    → List (Bytes × CreditRow)
    → Ledger
    → Bytes
    → Bytes
    → Tally
    → Result Tally
unfolding tally_key key_findings
of_key shares credits changes retained key t = do
  u ← tally_key key (lookup key shares) (lookup key credits) retained t
  let rows : List LedgerRow = lookup_or [] (codes "pps-share:" ++ without_dashes key) changes
  ok (record u {
    differences =
        u.differences
        ++ map (λ r. (some key, r))
            (key_findings (lookup key shares) (lookup key credits) rows retained);
  })

unfoldable pub all_keys : (Bytes → Tally → Result Tally) → List Bytes → Tally → Result Tally
all_keys step [] t = ok t
all_keys step (key ∷ keys) t = step key t >>= all_keys step keys

-- set(shares)|set(credits), of two lists without repetition
abbrev pub union : List Bytes → List Bytes → List Bytes
union xs [] = xs
union xs (k ∷ ks) = let rest = union xs ks in if member k xs then rest else k ∷ rest

-- sorted(d.items()) and sorted(rows), where no key and no identity occurs twice
abbrev pub by_key {ℓ} : {A : Type ℓ} → Bytes × A → Bytes × A → Bool
by_key p q = bytes_lt p.0 q.0

abbrev pub by_time : CreditAt → CreditAt → Bool
by_time p q = ltb_ℤ p.0 q.0 || (eq_ℤ p.0 q.0 && bytes_lt p.1 q.1)

-- The units of 10**-24 in an amount.
abbrev pub units_of : Fraction → ℤ
units_of x = pos (x.num * 10 ^ 24 / x.den)

abbrev pub carry_row : CreditAt → CarryRow
carry_row r = (r.1, units_of r.2, units_of r.3)

unfoldable pub carry_found : List CreditAt → List Found
unfolding carry_finding
carry_found rows = elim (carry_finding (map carry_row (sort_by by_time rows))) [
  | none ↦ []
  | some p ↦ (some p.0, inconsistent_recipient_carry_history) ∷ []
]

unfoldable pub all_carries : List (Bytes × List CreditAt) → List Found
unfolding carry_found
all_carries [] = []
all_carries ((recipient, rows) ∷ rest) = carry_found rows ++ all_carries rest

-- {k:amount(v) for k,v in d}
unfoldable pub amounts_of : List (Bytes × Fraction) → Result (List (Bytes × Bytes))
unfolding amount
amounts_of [] = ok []
amounts_of ((k, v) ∷ d) = do text ← amount v; rest ← amounts_of d; ok ((k, text) ∷ rest)

pub data Blocker : Type 0 where
  history_unavailable evidence_unavailable remainder_unavailable : Blocker
  no_complete_population differences_require_reconciliation : Blocker

pub record Report : Type 0 where
  pub eligible : Bool
  pub accounting_matches : Bool
  pub blocked_reasons : List Blocker
  pub differences : List Found
  pub precision_differences : List Bytes
  pub reference_totals : List (Bytes × Bytes)
  pub baseline_totals : List (Bytes × Bytes)

abbrev pub is_empty {ℓ} : {A : Type ℓ} → List A → Bool
is_empty [] = true
is_empty (x ∷ xs) = false

abbrev pub blockers : Bool → Bool → List Blocker
blockers populated matching =
    history_unavailable
      ∷ evidence_unavailable
      ∷ remainder_unavailable
      ∷ (if populated then [] else no_complete_population ∷ [])
    ++ (if matching then [] else differences_require_reconciliation ∷ [])

-- The report, of the findings on the rows and the tally of the identities.
unfoldable pub report_of : Bool → List Found → Tally → Result Report
unfolding all_carries amounts_of
report_of populated found t = do
  let differences : List Found =
      found ++ (t.differences ++ all_carries (sort_by by_key t.recipient_credits))
  reference ← amounts_of (sort_by by_key t.totals)
  baseline ← amounts_of (sort_by by_key t.baseline)
  ok (record {
    eligible = false;
    accounting_matches = populated && is_empty differences;
    blocked_reasons = blockers populated (is_empty differences);
    differences = differences;
    precision_differences = t.rounding;
    reference_totals = reference;
    baseline_totals = baseline;
  })

abbrev pub is_supported : Export → Bool
is_supported export = eq_ℤ export.version (pos 1) && bytes_eq export.scheme (codes "PPS")

abbrev pub held : List (Bytes × ShareRow) → List (Bytes × CreditRow) → Bytes → Bool
held shares credits k = member k (map (λ p. p.0) shares) || member k (map (λ p. p.0) credits)

-- sorted(set(shares)|set(credits))
abbrev pub identities : List (Bytes × ShareRow) → List (Bytes × CreditRow) → List Bytes
identities shares credits =
    sort_by bytes_lt (union (map (λ p. p.0) shares) (map (λ p. p.0) credits))

abbrev pub no_tally : Tally
no_tally = record {
  differences = [];
  rounding = [];
  totals = [];
  baseline = [];
  recipient_credits = [];
}

-- The comparison of the rows with an identity, after the findings on those with none.
unfoldable pub compare_rows :
    Export → List Reason → List (Bytes × ShareRow) → List (Bytes × CreditRow) → Result Report
unfolding all_changes of_key all_keys report_of
compare_rows export lost shares credits = do
  let ledger : List Found × Ledger = all_changes (held shares credits) export.balance_changes []
  t ←
      all_keys (of_key shares credits ledger.1 export.policy.retained_percent)
        (identities shares credits) no_tally
  report_of (not (is_empty shares) && not (is_empty credits))
      (map (λ r. (none, r)) lost ++ ledger.0) t

-- compare, by whether the digest of the export is that of its data
unfoldable pub compare : Bool → Export → Result Report
unfolding validate_policy index compare_rows
compare intact export = do
  require intact shadow_export_digest_mismatch
  require (is_supported export) shadow_unsupported_export
  validate_policy export.policy export.scope export.from_time export.until_time
  (lost_shares, shares) ← index export.shares []
  (lost_credits, credits) ← index export.credits []
  compare_rows export (lost_shares ++ lost_credits) shares credits
