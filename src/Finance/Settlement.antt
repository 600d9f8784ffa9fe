-- ===== src/Finance/Settlement.antt =====
-- tools/financial_semantics.py: the bytes of a settlement policy (settlement_policy_source), and the
-- mode that activate_required gives a scope.
use core_drp.Prelude.{
  ℕ, Bool, true, not, ◌&&◌, ◌||◌, if◌then◌else◌, ltb, ◌==◌, Option, none, some, List, [], ◌∷◌, ◌++◌,
  length, map, all, Bytes, codes, be, join,
}
use core_drp.Prelude.Int.{ℤ, ◌+ℤ◌, leb_ℤ}
use core_drp.Result.{Result, ok, raise, value_error, ◌>>=◌, ◌>>◌}
use core_drp.Policy.{Mode, relay_required, demand, member, lookup}
use core_drp.Finance.{Fraction, frac, ltb_frac, leb_frac, decimal}
use core_drp.Finance.Effects.{lp}
use core_drp.Finance.Sorting.{bytes_lt, sort_by}

abbrev pub factor_key : Bytes
factor_key = codes "factor"

abbrev pub finder_key : Bytes
finder_key = codes "block_finder_percentage"

abbrev pub retained_key : Bytes
retained_key = codes "retained_reward_percentage"

-- expected.get(scheme)
abbrev pub expected_keys : ℕ → Option (List Bytes)
expected_keys scheme =
    if scheme == 1
    then some (factor_key ∷ [])
    else if scheme == 2
    then some (factor_key ∷ finder_key ∷ [])
    else if scheme == 4
    then some (retained_key ∷ [])
    else if scheme == 3 || scheme == 5 || scheme == 6
    then some []
    else none

-- Equality of two sets that are lists.
abbrev pub same_set : List Bytes → List Bytes → Bool
same_set xs ys = all (λ x. member x ys) xs && all (λ y. member y xs) ys

-- {k:decimal(v) for k,v in params.items()}
unfoldable pub read_values : List (Bytes × Bytes) → Result (List (Bytes × Fraction))
unfolding decimal
read_values [] = ok []
read_values ((k, v) ∷ params) = do
  value ← decimal v
  rest ← read_values params
  ok ((k, value) ∷ rest)

-- A condition on a value, where it is there.
abbrev pub where_present : Bytes → (Fraction → Bool) → List (Bytes × Fraction) → Bool
where_present k p values = elim (lookup k values) [ none ↦ true | some v ↦ p v ]

abbrev pub hundred : Fraction
hundred = frac 100 1

abbrev pub key_lt : Bytes × Bytes → Bytes × Bytes → Bool
key_lt p q = bytes_lt p.0 q.0

-- settlement_policy_source; a dictionary has each key once, and is sorted by its keys.
unfoldable pub settlement_policy_source : ℕ → Bytes → List (Bytes × Bytes) → Result Bytes
unfolding read_values
settlement_policy_source scheme adjustment_digest params = elim (expected_keys scheme) [
  | none ↦ raise value_error
  | some expected ↦ (do
    demand (same_set (map (λ p. p.0) params) expected)
    values ← read_values params
    demand (where_present factor_key (λ v. ltb 0 v.num) values)
    demand (where_present finder_key (λ v. ltb_frac v hundred) values)
    demand (where_present retained_key (λ v. ltb 0 v.num && leb_frac v hundred) values)
    demand (length adjustment_digest == 32)
    ok (
        be 2 3
        ++ (be 1 scheme
            ++ (adjustment_digest
                ++ (be 2 (length params)
                    ++ join (map (λ p. lp p.0 ++ lp p.1) (sort_by key_lt params)))))))
]

pub record Activation : Type 0 where
  pub mode : Mode
  pub members : List Bytes
  pub effective : ℤ

-- activate_required
unfoldable pub activate_required :
    List Bytes → ℤ → ℤ → ℤ → List Bytes → List Bytes → Result Activation
unfolding ◌+ℤ◌
activate_required members effective frontier uncertainty staged holders =
    if length members == 0
      || not (same_set (members ++ holders) staged)
      || leb_ℤ effective (frontier +ℤ uncertainty)
    then raise value_error
    else ok (record {
      mode = relay_required;
      members = sort_by bytes_lt members;
      effective = effective;
    })
