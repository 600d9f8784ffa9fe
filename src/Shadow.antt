-- ===== src/Shadow.antt =====
-- reference/coredrp_ref/miningcore_shadow.py: the comparison of exported PPS shares with their
-- credits and with the ledger. A timestamp is a number, and a text is its bytes.
pub mod Carry
pub mod Ledger
pub mod Compare
pub mod Totals
pub mod Matches
use core_drp.Prelude.{
  ℕ, ◌+◌, ◌-◌, ◌*◌, ◌/◌, ◌^◌, ◌≤◌, ◌<◌, Bool, true, false, not, ◌&&◌, ◌||◌, if◌then◌else◌, ltb, leb,
  ◌==◌, Option, none, some, List, [], ◌∷◌, ◌++◌, length, map, all, Bytes, bytes_eq, codes,
}
use core_drp.Prelude.Int.{ℤ, pos, ◌+ℤ◌, ◌-ℤ◌, leb_ℤ, ltb_ℤ, eq_ℤ, min_ℤ, max_ℤ}
use core_drp.Result.{
  Result, ok, raise, require, ◌>>=◌, ◌>>◌, shadow_invalid_scope, shadow_unsupported_policy,
  shadow_policy_coverage, shadow_duplicate_accounting_id,
}
use core_drp.Policy.{lookup, put}
use core_drp.Finance.{Fraction, frac, add, ltb_frac, leb_frac, eq_frac, decimal}
use core_drp.Finance.Binary64.{Bits}
use core_drp.Finance.Effects.{is_scope, PpsInputs, pps_liability}

pub record ShadowPolicy : Type 0 where
  pub scope : Bytes
  pub scheme : Bytes
  pub coin : Bytes
  pub retained_percent : Bytes
  pub from : ℤ
  pub until : ℤ

-- validate_policy
unfoldable pub validate_policy : ShadowPolicy → Bytes → ℤ → ℤ → Result (Unit {0})
unfolding decimal
validate_policy policy scope start end = do
  require (is_scope scope) shadow_invalid_scope
  require
      (bytes_eq policy.scope scope
        && bytes_eq policy.scheme (codes "PPS")
        && bytes_eq policy.coin (codes "bitcoin"))
      shadow_unsupported_policy
  retained ← decimal policy.retained_percent
  require (ltb 0 retained.num && leb_frac retained (frac 100 1)) shadow_unsupported_policy
  require (leb_ℤ policy.from start && ltb_ℤ start end && leb_ℤ end policy.until)
      shadow_policy_coverage

pub record ShareRow : Type 0 where
  pub miner : Bytes
  pub difficulty_bits : Bits
  pub networkdifficulty_bits : Bits
  pub rewardbasissatoshis : ℤ
  pub created : Bytes

-- The instant is what timestamp returns for created.
pub record CreditRow : Type 0 where
  pub address : Bytes
  pub calculatedamount : Bytes
  pub creditedamount : Bytes
  pub difficulty_bits : Bits
  pub networkdifficulty_bits : Bits
  pub rewardbasissatoshis : ℤ
  pub created : Bytes
  pub instant : Result ℤ

-- A row of the ledger with its amount, where decimal reads it.
pub record LedgerRow : Type 0 where
  pub address : Bytes
  pub usage : Bytes
  pub created : Bytes
  pub ledger_amount : Option Fraction

-- The reasons of the findings.
pub data Reason : Type 0 where
  share_has_no_durable_accounting_identity credit_without_retained_share : Reason
  share_without_pps_credit credit_source_mismatch invalid_liability_input : Reason
  calculated_liability_mismatch credited_amount_outside_precision_carry_bounds : Reason
  balance_credit_count_mismatch balance_credit_mismatch : Reason
  ambiguous_balance_credit_tags invalid_balance_credit_tag : Reason
  balance_credit_without_source_rows inconsistent_recipient_carry_history : Reason

-- index: the findings on rows with no identity, and the rows by their identity
unfoldable pub index {ℓ} :
    {A : Type ℓ}
    → List (Option Bytes × A)
    → List (Bytes × A)
    → Result (List Reason × List (Bytes × A))
index [] result = ok ([], result)
index ((none, row) ∷ rows) result =
    index rows result >>= λ p. ok (share_has_no_durable_accounting_identity ∷ p.0, p.1)
index ((some key, row) ∷ rows) result = elim (lookup key result) [
  | some held ↦ require false shadow_duplicate_accounting_id >> ok ([], result)
  | none ↦ index rows (put key row result)
]

abbrev pub same_bits : Bits → Bits → Bool
same_bits a b = a.width == b.width && a.value == b.value

-- No field of the credit differs from the share.
abbrev pub sources_match : ShareRow → CreditRow → Bool
sources_match share credit =
    same_bits share.difficulty_bits credit.difficulty_bits
    && same_bits share.networkdifficulty_bits credit.networkdifficulty_bits
    && eq_ℤ share.rewardbasissatoshis credit.rewardbasissatoshis
    && bytes_eq share.created credit.created
    && bytes_eq share.miner credit.address

-- A finding, where the test fails.
abbrev pub finding : Bool → Reason → List Reason
finding test reason = if test then [] else reason ∷ []

-- The amount cut to 12 places, and the next one where that is less.
abbrev pub floor12 : Fraction → Fraction
floor12 x = frac (x.num * 10 ^ 12 / x.den) (10 ^ 12)

abbrev pub ceiling12 : Fraction → Fraction
ceiling12 x = if eq_frac (floor12 x) x then floor12 x else add (floor12 x) (frac 1 (10 ^ 12))

abbrev pub rounds_to : Fraction → Fraction → Bool
rounds_to actual paid = eq_frac paid (floor12 actual) || eq_frac paid (ceiling12 actual)

abbrev pub amount_matches : Option Fraction → Fraction → Bool
amount_matches none paid = true
amount_matches (some a) paid = eq_frac a paid

abbrev pub ledger_matches : CreditRow → Fraction → LedgerRow → Bool
ledger_matches credit paid row =
    bytes_eq row.address credit.address
    && bytes_eq row.usage (codes "PPS share credit")
    && bytes_eq row.created credit.created
    && amount_matches row.ledger_amount paid

abbrev pub ledger_findings : CreditRow → Fraction → List LedgerRow → List Reason
ledger_findings credit paid [] = []
ledger_findings credit paid (row ∷ rows) =
    finding (ledger_matches credit paid row) balance_credit_mismatch
    ++ ledger_findings credit paid rows

abbrev pub expected_rows : Fraction → ℕ
expected_rows paid = if ltb 0 paid.num then 1 else 0

-- The arguments of pps_liability.
abbrev pub pps_inputs : ShareRow → Bytes → PpsInputs
pps_inputs share retained = record {
  reward = share.rewardbasissatoshis;
  assigned = share.difficulty_bits;
  network = share.networkdifficulty_bits;
  retained = retained;
  coin = codes "bitcoin";
  eligible_network = true;
}

-- The expected, the calculated and the credited amount; an exception is a finding.
unfoldable pub read_amounts : ShareRow → CreditRow → Bytes → Result (Fraction × Fraction × Fraction)
unfolding pps_liability decimal
read_amounts share credit retained = do
  text ← pps_liability (pps_inputs share retained)
  actual ← decimal credit.calculatedamount
  paid ← decimal credit.creditedamount
  expected ← decimal text
  ok (expected, actual, paid)

abbrev pub amount_findings :
    CreditRow → List LedgerRow → Result (Fraction × Fraction × Fraction) → List Reason
amount_findings credit rows (raise x) = invalid_liability_input ∷ []
amount_findings credit rows (ok (expected, actual, paid)) =
    finding (eq_frac actual expected) calculated_liability_mismatch
    ++ (finding (rounds_to actual paid) credited_amount_outside_precision_carry_bounds
        ++ (finding (length rows == expected_rows paid) balance_credit_count_mismatch
            ++ ledger_findings credit paid rows))

-- The findings on one identity, with the rows of the ledger that bear its tag.
unfoldable pub key_findings :
    Option ShareRow → Option CreditRow → List LedgerRow → Bytes → List Reason
unfolding read_amounts
key_findings none credit rows retained = credit_without_retained_share ∷ []
key_findings (some share) none rows retained = share_without_pps_credit ∷ []
key_findings (some share) (some credit) rows retained =
    finding (sources_match share credit) credit_source_mismatch
    ++ amount_findings credit rows (read_amounts share credit retained)

-- The identity of a row with its calculated and its credited amount, in units of 10**-24, of which
-- every decimal is a whole number.
abbrev pub CarryRow : Type 0
CarryRow = Bytes × ℤ × ℤ

-- Fraction(1,10**12), in those units
abbrev pub unit : ℤ
unit = pos (10 ^ 12)

-- The rows of a recipient in their order: the first row whose prefix no opening remainder explains,
-- with the prefix and the bounds on the opening remainder.
unfoldable pub carry_loop : ℤ → ℤ → ℤ → List CarryRow → Option (Bytes × ℤ × ℤ × ℤ)
unfolding ◌+ℤ◌ ◌-ℤ◌
carry_loop prefix lower upper [] = none
carry_loop prefix lower upper ((key, actual, paid) ∷ rows) =
    let p = prefix +ℤ (actual -ℤ paid) in
    let l = max_ℤ lower (pos 0 -ℤ p) in
    let u = min_ℤ upper (unit -ℤ p) in
    let rest = carry_loop p l u rows in if leb_ℤ u l then some (key, p, l, u) else rest

unfoldable pub carry_finding : List CarryRow → Option (Bytes × ℤ × ℤ × ℤ)
unfolding carry_loop
carry_finding = carry_loop (pos 0) (pos 0) unit
