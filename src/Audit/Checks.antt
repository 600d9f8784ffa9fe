-- ===== src/Audit/Checks.antt =====
-- audit and audit_retained of tools/audit_evidence.py: the checks of the inputs, the finder and the
-- allocation.
use core_drp.Prelude.{
  ℕ, ◌==◌, Bool, true, false, not, ◌&&◌, if◌then◌else◌, Option, none, some, List, [], ◌∷◌, length,
  all, Bytes, bytes_eq, codes,
}
use core_drp.Result.{Result, ok, raise, key_error, ◌>>=◌, ◌>>◌}
use core_drp.Policy.{demand, lookup}
use core_drp.Finance.{add, eq_frac, decimal}
use core_drp.Finance.Sorting.{distinct_by}
use core_drp.Finance.Allocation.{sum, decimals_of, allocate}
use core_drp.Finance.Effects.{hex_value}
use core_drp.Profile.{Accounting}
use core_drp.Audit.{Inputs, Bundle, bundle_digest}
use core_drp.Audit.Rows.{Terms, each_event, selection}

-- bytes.fromhex(x['destination']) for x in deductions
unfoldable pub destinations : List (Bytes × Bytes) → Result (List Bytes)
destinations [] = ok []
destinations ((destination, amount) ∷ deductions) = do
  b ← hex_value destination
  rest ← destinations deductions
  ok (b ∷ rest)

abbrev pub is_linked : ℕ → Option Bytes → List Bytes → Bool
is_linked scheme none matches = not (scheme == 2)
is_linked scheme (some f) (m ∷ []) = scheme == 2 && bytes_eq m f
is_linked scheme (some f) matches = false

abbrev pub percentage_of : Terms → Bytes
percentage_of terms = if terms.scheme == 2 then terms.finder_percentage else codes "0"

-- The checks of the inputs.
unfoldable pub check_inputs : Terms → Inputs → Result (Unit {0})
unfolding decimal destinations decimals_of
check_inputs terms inputs = do
  gross ← decimal inputs.gross_reward
  reward ← decimal inputs.distributable_reward
  identities ← destinations inputs.deductions
  demand (all (λ b. not (length b == 0)) identities && distinct_by bytes_eq identities)
  amounts ← decimals_of inputs.deductions
  demand (eq_frac gross (add reward (sum amounts)))
  demand (bytes_eq inputs.finder_percentage (percentage_of terms))

-- An identity with the miner of its share and its amount.
abbrev pub Allocated : Type 0
Allocated = List (Bytes × (Bytes × Bytes))

-- {k:(miners[k],v) for k,v in amounts.items()}
unfoldable pub with_miners : List (Bytes × Bytes) → List (Bytes × Bytes) → Result Allocated
with_miners miners [] = ok []
with_miners miners ((k, v) ∷ amounts) = do
  miner ← elim (lookup k miners) [ none ↦ raise key_error | some m ↦ ok m ]
  rest ← with_miners miners amounts
  ok ((k, (miner, v)) ∷ rest)

-- Equality of two dictionaries.
abbrev pub holds_all : Allocated → Allocated → Bool
holds_all [] expected = true
holds_all ((k, (m, v)) ∷ result) expected =
    (elim (lookup k expected) [ none ↦ false | some q ↦ bytes_eq m q.0 && bytes_eq v q.1 ])
    && holds_all result expected

abbrev pub same_dict : Allocated → Allocated → Bool
same_dict result expected = length result == length expected && holds_all result expected

unfoldable pub audit :
    (Bytes → Result Accounting) → Bundle → Terms → Allocated → Result (Allocated × Bytes × Bytes)
unfolding check_inputs each_event selection allocate with_miners bundle_digest
audit parse bundle terms expected = do
  check_inputs terms bundle.inputs
  g ←
      each_event parse terms bundle.inputs bundle.events
        (record { rows = []; miners = []; finder_matches = []; seen = [] })
  selected ← selection terms g
  let finder = bundle.inputs.finder_accounting_id
  demand (is_linked terms.scheme finder g.finder_matches)
  (amounts, dust) ←
      allocate selected bundle.inputs.distributable_reward finder (percentage_of terms)
  result ← with_miners g.miners amounts
  demand (same_dict result expected)
  digest ← bundle_digest bundle
  ok (result, dust, digest)

-- audit_retained
unfoldable pub audit_retained :
    (Bytes → Result Accounting)
    → Bundle
    → (trusted_bundle_digest trusted_summary_digest : Bytes) → Terms
    → Allocated
    → Result (Allocated × Bytes × Bytes)
unfolding bundle_digest audit
audit_retained parse bundle trusted_bundle_digest trusted_summary_digest terms expected = do
  digest ← bundle_digest bundle
  demand
      (bytes_eq digest trusted_bundle_digest && bytes_eq bundle.summary_hash trusted_summary_digest)
  audit parse bundle terms expected
