-- ===== src/Finance/Allocation/Conservation.antt =====
-- allocate of tools/financial_semantics.py pays out the reward, no more and no less.
use mathlib.Core.Path.{subst}
use native.Mathlib.Nat.{mul-pos, mul-div_cancel, le_of_mul-le-mul_right, mul-le-mul_right}
use core_drp.Prelude.{
  ℕ, ◌+◌, ◌-◌, ◌*◌, ◌/◌, ◌^◌, ◌≤◌, ◌<◌, ◌≡◌, sym, ap, ◌∙◌, ◌&&◌, ◌||◌, ◌==◌, Bool-cases, inl, inr,
  arith, true, ltb, Option, List, [], ◌∷◌, map, Bytes, bytes_eq,
}
use core_drp.Result.{ok, >>=-eq-ok, ok-inj, raise≢ok}
use core_drp.Policy.{demand}
use core_drp.Finance.{
  Fraction, frac, add, minus, ltb_frac, leb_frac, eq_frac, decimal, atoms, amount,
}
use core_drp.Finance.Amounts.Truncation.{IsAtoms, decimal-IsAtoms, amount-IsAtoms}
use core_drp.Finance.Sorting.{distinct_by}
use core_drp.Finance.Window.{Share}
use core_drp.Finance.Allocation.{
  sum_from, sum, amounts_of, decimals_of, dust_of, settle, portions, with_finder, has_finder,
  allocate,
}

-- The number of units of 10**-24 that a text stands for.
unfoldable pub IsUnits : Bytes → ℕ → Type 0
IsUnits s n = (v : Fraction) × (decimal s ≡ ok v) × IsAtoms v n

-- The units of all the amounts of a result together.
pub data TotalUnits : List (Bytes × Bytes) → ℕ → Type 0 where
  none_paid : TotalUnits [] 0
  paid :
      (k s : Bytes) (rest : List (Bytes × Bytes)) (m n : ℕ)
      → IsUnits s m
      → TotalUnits rest n
      → TotalUnits ((k, s) ∷ rest) (m + n)

sum_units :
    (xn xd yn yd m n t : ℕ)
    → xn * t ≡ m * xd
    → yn * t ≡ n * yd
    → (xn * yd + yn * xd) * t ≡ (m + n) * (xd * yd)
sum_units xn xd yn yd m n t ex ey =
    grind (arith, ap (λ (a : ℕ). a * yd) ex, ap (λ (a : ℕ). a * xd) ey)

pub add-IsAtoms : (x y : Fraction) (m n : ℕ) → IsAtoms x m → IsAtoms y n → IsAtoms (add x y) (m + n)
add-IsAtoms x y m n (px, ex) (py, ey) =
    (mul-pos px py, sum_units x.num x.den y.num y.den m n (10 ^ 24) ex ey)

order_units :
    (xn xd yn yd m n t : ℕ)
    → 0 < xd * yd
    → xn * t ≡ m * xd
    → yn * t ≡ n * yd
    → yn * xd ≤ xn * yd
    → n ≤ m
order_units xn xd yn yd m n t p ex ey h =
    le_of_mul-le-mul_right {k = xd * yd}
      (grind (arith, ap (λ (a : ℕ). a * yd) ex, ap (λ (a : ℕ). a * xd) ey, mul-le-mul_right t h)) p

-- Equal fractions are as many units.
pub equal_units :
    (x y : Fraction) (m n : ℕ) → IsAtoms x m → IsAtoms y n → eq_frac x y ≡ true → m ≡ n
equal_units x y m n (px, ex) (py, ey) h =
    let cross : x.num * y.den ≡ y.num * x.den = ground arith in
    let up =
      order_units x.num x.den y.num y.den m n (10 ^ 24) (mul-pos px py) ex ey
        (omega (arith, cross)) in
    let down =
      order_units y.num y.den x.num x.den n m (10 ^ 24) (mul-pos py px) ey ex
        (omega (arith, cross)) in
    omega (arith, up, down)

difference_units :
    (xn xd yn yd n t g k : ℕ)
    → g + yn * xd ≡ xn * yd
    → xn * t ≡ (k + n) * xd
    → yn * t ≡ n * yd
    → g * t ≡ k * (xd * yd)
difference_units xn xd yn yd n t g k e ex ey =
    grind (arith, ap (λ (a : ℕ). a * yd) ex, ap (λ (a : ℕ). a * xd) ey, ap (λ (a : ℕ). a * t) e)

minus-IsAtoms :
    (x y : Fraction) (m n : ℕ)
    → IsAtoms x m
    → IsAtoms y n
    → y.num * x.den ≤ x.num * y.den
    → (n ≤ m) × IsAtoms (minus x y) (m - n)
minus-IsAtoms x y m n (px, ex) (py, ey) h =
    let dens = mul-pos px py in
    let le = order_units x.num x.den y.num y.den m n (10 ^ 24) dens ex ey h in
    let whole : m ≡ m - n + n = omega (arith, le) in
    let rest = x.num * y.den - y.num * x.den in
    (
      le,
      (
        dens,
        difference_units x.num x.den y.num y.den n (10 ^ 24) rest (m - n) (omega (arith, h))
            (ex ∙ ap (λ (a : ℕ). a * x.den) whole) ey,
      ),
    )

-- What amount writes of a number of units.
amount-IsUnits : (x : Fraction) (n : ℕ) (s : Bytes) → IsAtoms x n → amount x ≡ ok s → IsUnits s n
unfolding IsUnits
amount-IsUnits x n s (p, e) h =
    let (v, read, exact) = amount-IsAtoms x s h in
    let same : atoms x ≡ n = ap (λ (t : ℕ). t / x.den) e ∙ mul-div_cancel n p in
    (v, read, subst (IsAtoms v) same exact)

-- The decimals of a result, and their sum, on top of what stands before them.
pub decimals-units :
    (result : List (Bytes × Bytes)) (values : List Fraction) (before : Fraction) (b : ℕ)
    → decimals_of result ≡ ok values
    → IsAtoms before b
    → (n : ℕ) × TotalUnits result n × IsAtoms (sum_from before values) (b + n)
unfolding decimals_of IsUnits
decimals-units [] values before b h e =
    let none_left : values ≡ [] = sym (ok-inj h) in
    let whole : b ≡ b + 0 = omega arith in
    (0, none_paid, rw none_left (subst (IsAtoms before) whole e))
decimals-units ((k, s) ∷ result) values before b h e =
    let (v, read, h1) = >>=-eq-ok (decimal s) _ h in
    let (rest, others, h2) = >>=-eq-ok (decimals_of result) (λ rest. ok (v ∷ rest)) h1 in
    let (m, exact) = decimal-IsAtoms s v read in
    let (n, total, summed) =
      decimals-units result rest (add before v) (b + m) others (add-IsAtoms before v b m e exact) in
    let regrouped : b + m + n ≡ b + (m + n) = omega arith in
    (
      m + n,
      paid k s result m n (v, read, exact) total,
      subst (λ xs. IsAtoms (sum_from before xs) (b + (m + n))) (ok-inj h2)
          (subst (IsAtoms (sum_from (add before v) rest)) regrouped summed),
    )

dust-IsUnits :
    (r total : Fraction) (m n : ℕ) (dust : Bytes)
    → IsAtoms r m
    → IsAtoms total n
    → dust_of r total ≡ ok dust
    → (n ≤ m) × IsUnits dust (m - n)
dust-IsUnits r total m n dust er et h = elim (Bool-cases (leb_frac total r)) [
  | inr e ↦ absurd (raise≢ok (rw e at h))
  | inl e ↦
      let (le, exact) = minus-IsAtoms r total m n er et (ground arith) in
      (le, amount-IsUnits (minus r total) (m - n) dust exact (rw e at h))
]

settle-conserves :
    (r : Fraction) (amounts : List (Bytes × Fraction)) (m : ℕ) (result : List (Bytes × Bytes))
    (dust : Bytes)
    → IsAtoms r m
    → settle r amounts ≡ ok (result, dust)
    → (n : ℕ) × (d : ℕ) × TotalUnits result n × IsUnits dust d × (m ≡ n + d)
unfolding settle
settle-conserves r amounts m result dust er h =
    let (texts, _, h1) = >>=-eq-ok (amounts_of amounts) _ h in
    let (values, read, h2) = >>=-eq-ok (decimals_of texts) _ h1 in
    let (left, given, h3) = >>=-eq-ok (dust_of r (sum values)) (λ d. ok (texts, d)) h2 in
    let texts_are : texts ≡ result = ap (λ t. t.0) (ok-inj h3) in
    let dust_is : left ≡ dust = ap (λ t. t.1) (ok-inj h3) in
    let (n, total, summed) =
      decimals-units texts values (frac 0 1) 0 read (omega arith, omega arith) in
    let plain : 0 + n ≡ n = omega arith in
    let (le, rest) =
      dust-IsUnits r (sum values) m n left er (subst (IsAtoms (sum values)) plain summed) given in
    (
      n,
      m - n,
      subst (λ t. TotalUnits t n) texts_are total,
      subst (λ t. IsUnits t (m - n)) dust_is rest,
      omega (arith, le),
    )

-- Where allocate answers, the amounts and the dust are together the reward, to the last unit of
-- 10**-24.
pub allocate-conserves :
    (selected : List Share) (reward : Bytes) (finder : Option Bytes) (percentage : Bytes)
    (result : List (Bytes × Bytes)) (dust : Bytes)
    → allocate selected reward finder percentage ≡ ok (result, dust)
    → (n : ℕ) × (d : ℕ) × TotalUnits result n × IsUnits dust d × IsUnits reward (n + d)
unfolding allocate IsUnits
allocate-conserves selected reward finder percentage result dust h =
    let (_, _, h1) = >>=-eq-ok (demand (distinct_by bytes_eq (map (λ s. s.0) selected))) _ h in
    let (r, read, h2) = >>=-eq-ok (decimal reward) _ h1 in
    let (p, _, h3) = >>=-eq-ok (decimal percentage) _ h2 in
    let (_, _, h4) =
      >>=-eq-ok (demand (ltb_frac p (frac 100 1) && (p.num == 0 || has_finder finder))) _ h3 in
    let total = sum (map (λ s. s.1) selected) in
    let (_, _, h5) = >>=-eq-ok (demand (ltb 0 total.num)) _ h4 in
    let (m, exact) = decimal-IsAtoms reward r read in
    let (n, d, amounts, rest, e) =
      settle-conserves r (with_finder finder r p (portions r p total selected)) m result dust exact
        h5 in
    (n, d, amounts, rest, (r, read, subst (IsAtoms r) e exact))
