-- ===== src/Finance/Allocation.antt =====
-- tools/financial_semantics.py, allocate: what each identity of a window is paid, and the dust.
pub mod Conservation
use core_drp.Prelude.{
  ℕ, ◌+◌, ◌-◌, ◌*◌, Bool, true, false, not, ◌&&◌, ◌||◌, if◌then◌else◌, ltb, leb, ◌==◌, Option, none,
  some, List, [], ◌∷◌, map, Bytes, bytes_eq,
}
use core_drp.Result.{Result, ok, raise, value_error, ◌>>=◌, ◌>>◌}
use core_drp.Policy.{demand, lookup_or, put}
use core_drp.Finance.{Fraction, frac, add, minus, mul, over, ltb_frac, leb_frac, decimal, amount}
use core_drp.Finance.Sorting.{distinct_by}
use core_drp.Finance.Window.{Share}

-- sum(xs,Fraction(0))
abbrev pub sum_from : Fraction → List Fraction → Fraction
sum_from total [] = total
sum_from total (x ∷ xs) = sum_from (add total x) xs

abbrev pub sum : List Fraction → Fraction
sum = sum_from (frac 0 1)

-- {k:amount(v) for k,v in amounts.items()}
unfoldable pub amounts_of : List (Bytes × Fraction) → Result (List (Bytes × Bytes))
unfolding amount
amounts_of [] = ok []
amounts_of ((k, v) ∷ amounts) = do s ← amount v; rest ← amounts_of amounts; ok ((k, s) ∷ rest)

-- (decimal(v) for v in result.values())
unfoldable pub decimals_of : List (Bytes × Bytes) → Result (List Fraction)
unfolding decimal
decimals_of [] = ok []
decimals_of ((k, s) ∷ result) = do v ← decimal s; rest ← decimals_of result; ok (v ∷ rest)

-- amount(r-paid): a negative difference is refused.
abbrev pub dust_of : Fraction → Fraction → Result Bytes
dust_of r paid = if leb_frac paid r then amount (minus r paid) else raise value_error

-- r*(100-p)/100*c/total
abbrev pub portion : Fraction → Fraction → Fraction → Fraction → Fraction
portion r p total c = over (mul (over (mul r (minus (frac 100 1) p)) (frac 100 1)) c) total

-- The identities of a window with their portions.
abbrev pub portions : Fraction → Fraction → Fraction → List Share → List (Bytes × Fraction)
portions r p total [] = []
portions r p total ((identity, c, _) ∷ selected) =
    (identity, portion r p total c) ∷ portions r p total selected

-- amounts[finder]=amounts.get(finder,Fraction(0))+r*p/100
abbrev pub with_finder :
    Option Bytes → Fraction → Fraction → List (Bytes × Fraction) → List (Bytes × Fraction)
with_finder none r p amounts = amounts
with_finder (some finder) r p amounts =
    put finder (add (lookup_or (frac 0 1) finder amounts) (over (mul r p) (frac 100 1))) amounts

abbrev pub has_finder : Option Bytes → Bool
has_finder none = false
has_finder (some finder) = true

-- The last lines of allocate: the texts of the amounts, and the dust.
unfoldable pub settle : Fraction → List (Bytes × Fraction) → Result (List (Bytes × Bytes) × Bytes)
unfolding amounts_of decimals_of
settle r amounts = do
  result ← amounts_of amounts
  paid ← decimals_of result
  dust ← dust_of r (sum paid)
  ok (result, dust)

-- The source's allocate.
unfoldable pub allocate :
    List Share → Bytes → Option Bytes → Bytes → Result (List (Bytes × Bytes) × Bytes)
unfolding settle
allocate selected reward finder finder_percentage = do
  demand (distinct_by bytes_eq (map (λ s. s.0) selected))
  r ← decimal reward
  p ← decimal finder_percentage
  demand (ltb_frac p (frac 100 1) && (p.num == 0 || has_finder finder))
  let total = sum (map (λ s. s.1) selected)
  demand (ltb 0 total.num)
  settle r (with_finder finder r p (portions r p total selected))
