-- ===== src/Finance/Amounts/Truncation.antt =====
-- amount cuts a fraction to 24 places (tools/financial_semantics.py).
use mathlib.Core.Path.{subst}
use native.Mathlib.Nat.{
  add-mul, mul_comm, mul_right_comm, one-le-pow, div-mul-le_self, lt-div-mul-add, div-lt_iff_lt-mul,
  le_of_mul-le-mul_right, mul-le-mul_right, mul-lt-mul_of_pos_right, eq_of_mul-eq-mul_right,
}
use core_drp.Prelude.{
  ℕ, ◌+◌, ◌-◌, ◌*◌, ◌/◌, ◌%◌, ◌^◌, ◌≤◌, ◌<◌, ◌≡◌, ◌⊎◌, refl, sym, ap, ◌∙◌, true, Bool-cases, inl,
  inr, arith, leb, ◌==◌, ◌&&◌, some, none, [], ◌∷◌, ◌++◌, length, length-append, replicate, Bytes,
}
use core_drp.Result.{ok, >>=-eq-ok, ok-inj, raise≢ok}
use core_drp.Finance.{
  Fraction, frac, from_digits, is_whole, is_part, ends_nonzero, read_parts, decimal, str, zfill,
  rstrip, atoms_text, atoms, amount,
}
use core_drp.Finance.Digits.{IsDigits, IsDigits-append, str_one}
use core_drp.Finance.Digits.Text.{
  from_digits-str, str-IsDigits, length-str, from_digits-zeros, zeros-IsDigits, length-replicate,
  from_digits-append_zeros, rstrip-IsStripped, str-Leads,
}
use core_drp.Finance.Amounts.{
  decimal-CanonicalText, split_point_whole, split_point_parts, decimal_whole, decimal_parts,
}
use core_drp.Finance.Amounts.RoundTrip.{pow_split, scaled, atoms_text_whole, atoms_text_parts}

-- v is n units of 10**-24, and is a proper fraction.
abbrev pub IsAtoms : Fraction → ℕ → Type 0
IsAtoms v n = (0 < v.den) × (v.num * 10 ^ 24 ≡ n * v.den)

pub IsAtoms-unique : (v : Fraction) (m n : ℕ) → IsAtoms v m → IsAtoms v n → m ≡ n
IsAtoms-unique v m n (p, h) (_, k) = eq_of_mul-eq-mul_right v.den p m n (sym h ∙ k)

IsAtoms-parts :
    (w p j k : ℕ) → j + k ≡ 24 → IsAtoms (frac (w * 10 ^ k + p) (10 ^ k)) (w * 10 ^ 24 + p * 10 ^ j)
IsAtoms-parts w p j k h =
    let unit : 10 ^ 24 ≡ 10 ^ j * 10 ^ k = ap (λ (t : ℕ). 10 ^ t) (sym h) ∙ pow_split j k in
    (
      one-le-pow k 10 (omega arith),
      ap (λ (t : ℕ). (w * 10 ^ k + p) * t) unit
          ∙ scaled w p (10 ^ j) (10 ^ k)
          ∙ ap (λ (t : ℕ). (w * t + p * 10 ^ j) * 10 ^ k) (sym unit),
    )

-- Every decimal is a number of units.
pub decimal-IsAtoms : (s : Bytes) (v : Fraction) → decimal s ≡ ok v → (n : ℕ) × IsAtoms v n
decimal-IsAtoms s v h = elim (decimal-CanonicalText s v h) [
  | inl (_, e) ↦ rw e (from_digits s * 10 ^ 24, (omega arith, omega arith))
  | inr (w, p, _, _, part, e) ↦ rw e (
    from_digits w * 10 ^ 24 + from_digits p * 10 ^ (24 - length p),
    IsAtoms-parts (from_digits w) (from_digits p) (24 - length p) (length p) (ground arith),
  )
]

read_whole : (w : Bytes) (v : Fraction) → read_parts w none ≡ ok v → v ≡ frac (from_digits w) 1
read_whole w v h = elim (Bool-cases (is_whole w && leb (length w) 38)) [
  | inl e ↦ sym (ok-inj (rw e at h))
  | inr e ↦ absurd (raise≢ok (rw e at h))
]

read_both :
    (w p : Bytes) (v : Fraction)
    → read_parts w (some p) ≡ ok v
    → v ≡ frac (from_digits w * 10 ^ length p + from_digits p) (10 ^ length p)
read_both w p v h = elim (Bool-cases (is_whole w && is_part p && leb (length w + length p) 38)) [
  | inl e ↦ sym (ok-inj (rw e at h))
  | inr e ↦ absurd (raise≢ok (rw e at h))
]

text_whole : (q : ℕ) (v : Fraction) → decimal (str q) ≡ ok v → IsAtoms v (q * 10 ^ 24)
unfolding decimal
text_whole q v h =
    let read : read_parts (str q) none ≡ ok v =
      ap (λ t. read_parts t.0 t.1) (sym (split_point_whole (str q) (str-IsDigits q))) ∙ h in
    rw (read_whole (str q) v read, from_digits-str q) (omega arith, omega arith)

-- The digits behind the point of m units of 10**-24.
abbrev part_text : ℕ → Bytes
part_text m = rstrip (zfill 24 (str m))

abbrev IsPartOf : ℕ → Bytes → Type 0
IsPartOf m r =
    (k : ℕ) × (from_digits r * 10 ^ k ≡ m)
    × (k + length r ≡ 24)
    × ((r ≡ []) ⊎ (ends_nonzero r ≡ true))

part_text-IsPartOf : (m : ℕ) → m < 10 ^ 24 → IsPartOf m (part_text m)
part_text-IsPartOf m small =
    let fill = 24 - length (str m) in
    let padded = zfill 24 (str m) in
    let r = part_text m in
    let all_digits : IsDigits padded =
      IsDigits-append (replicate fill 48) (str m) (zeros-IsDigits fill) (str-IsDigits m) in
    let (k, e, last) = rstrip-IsStripped padded all_digits in
    (
      k,
      sym (from_digits-append_zeros r k)
          ∙ ap from_digits (sym e)
          ∙ from_digits-zeros fill (str m)
          ∙ from_digits-str m,
      omega (
        arith,
        ap length e,
        length-append r (replicate k 48),
        length-replicate k 48,
        length-append (replicate fill 48) (str m),
        length-replicate fill 48,
        length-str 23 m small,
      ),
      last,
    )

text_parts :
    (q m : ℕ) (v : Fraction)
    → m < 10 ^ 24
    → decimal (str q ++ 46 ∷ part_text m) ≡ ok v
    → IsAtoms v (q * 10 ^ 24 + m)
unfolding decimal
text_parts q m v small h =
    let r = part_text m in
    let (k, value, places, _) = part_text-IsPartOf m small in
    let read : read_parts (str q) (some r) ≡ ok v =
      ap (λ t. read_parts t.0 t.1) (sym (split_point_parts (str q) r (str-IsDigits q))) ∙ h in
    let exact = IsAtoms-parts q (from_digits r) k (length r) places in
    rw (read_both (str q) r v read, from_digits-str q)
      (exact.0, exact.1 ∙ ap (λ (t : ℕ). (q * 10 ^ 24 + t) * 10 ^ length r) value)

-- The text of n units of 10**-24 is read as n units, where it is read at all.
pub decimal-atoms_text : (n : ℕ) (v : Fraction) → decimal (atoms_text n) ≡ ok v → IsAtoms v n
decimal-atoms_text n v h =
    let q = n / 10 ^ 24 in
    let m = n % 10 ^ 24 in
    let whole : n ≡ q * 10 ^ 24 + m = omega arith in
    elim (Bool-cases (m == 0)) [
      | inl e ↦
          let even : n ≡ q * 10 ^ 24 = ground arith in
          let text : atoms_text n ≡ str q = ap atoms_text even ∙ atoms_text_whole q in
          rw even (text_whole q v (ap decimal (sym text) ∙ h))
      | inr e ↦
          let text : atoms_text n ≡ str q ++ 46 ∷ rstrip (zfill 24 (str m)) =
            ap atoms_text whole ∙ atoms_text_parts q m (ground arith) (omega arith) in
          subst (IsAtoms v) (sym whole) (text_parts q m v (omega arith) (ap decimal (sym text) ∙ h))
    ]

-- What amount writes is read back by decimal as the number of whole units in the fraction.
pub amount-IsAtoms :
    (x : Fraction) (s : Bytes)
    → amount x ≡ ok s
    → (v : Fraction) × (decimal s ≡ ok v) × IsAtoms v (atoms x)
unfolding amount
amount-IsAtoms x s h =
    let (v, read, e) =
      >>=-eq-ok (decimal (atoms_text (atoms x))) (λ _. ok (atoms_text (atoms x))) h in
    (v, ap decimal (sym (ok-inj e)) ∙ read, decimal-atoms_text (atoms x) v read)

cut_below : (vn vd xn xd n t : ℕ) → 0 < t → vn * t ≡ n * vd → n * xd ≤ xn * t → vn * xd ≤ xn * vd
cut_below vn vd xn xd n t p e h =
    let left : vn * xd * t ≡ n * xd * vd =
      mul_right_comm vn xd t ∙ ap (λ (a : ℕ). a * xd) e ∙ mul_right_comm n vd xd in
    let right : xn * vd * t ≡ xn * t * vd = mul_right_comm xn vd t in
    le_of_mul-le-mul_right (omega (arith, left, right, mul-le-mul_right vd h)) p

cut_above :
    (vn vd xn xd n t : ℕ)
    → 0 < vd
    → vn * t ≡ n * vd
    → xn * t < n * xd + xd
    → xn * vd * t < (vn * t + vd) * xd
cut_above vn vd xn xd n t p e h = omega (
  arith,
  mul_right_comm xn vd t,
  mul-lt-mul_of_pos_right h p,
  add-mul (n * xd) xd vd,
  add-mul (vn * t) vd xd,
  mul_right_comm n xd vd,
  mul_comm xd vd,
  ap (λ (a : ℕ). a * xd) e,
)

is_whole-str : (q : ℕ) → q < 10 ^ 14 → is_whole (str q) ≡ true
is_whole-str q h = elim (Bool-cases (q == 0)) [
  | inl e ↦
      let zero_text : str q ≡ 48 ∷ [] =
        str_one q (ground arith) ∙ ap (λ t. t ∷ []) (ground arith) in
      ap is_whole zero_text
  | inr e ↦
      let (c, cs, text, low, high, tail) = str-Leads q (ground arith) in
      let short : length cs ≤ 13 = omega (arith, ap length text, length-str 13 q h) in
      ap is_whole text ∙ ground arith
]

is_part-text : (m : ℕ) → 0 < m → m < 10 ^ 24 → is_part (part_text m) ≡ true
is_part-text m p h =
    let (k, value, places, last) = part_text-IsPartOf m h in
    elim last [
      | inl e ↦
          let nothing : from_digits (part_text m) ≡ 0 = ap from_digits e in
          absurd (omega (arith, value, ap (λ (t : ℕ). t * 10 ^ k) nothing))
      | inr e ↦
          let short : leb (length (part_text m)) 24 ≡ true = ground arith in rw (short, e) refl
    ]

decimal-atoms_text_ok : (n : ℕ) → n < 10 ^ 38 → (v : Fraction) × (decimal (atoms_text n) ≡ ok v)
decimal-atoms_text_ok n h =
    let q = n / 10 ^ 24 in
    let m = n % 10 ^ 24 in
    let whole : n ≡ q * 10 ^ 24 + m = omega arith in
    let head = is_whole-str q (omega arith) in
    elim (Bool-cases (m == 0)) [
      | inl e ↦
          let even : n ≡ q * 10 ^ 24 = ground arith in
          (
            frac (from_digits (str q)) 1,
            ap decimal (ap atoms_text even ∙ atoms_text_whole q) ∙ decimal_whole (str q) head,
          )
      | inr e ↦
          let pos : 0 < m = ground arith in
          let r = part_text m in
          (
            frac (from_digits (str q) * 10 ^ length r + from_digits r) (10 ^ length r),
            ap decimal (ap atoms_text whole ∙ atoms_text_parts q m pos (omega arith))
                ∙ decimal_parts (str q) r head (is_part-text m pos (omega arith)),
          )
    ]

-- amount gives a text for every fraction below 10**14.
pub amount_below :
    (x : Fraction) → 0 < x.den → x.num < 10 ^ 14 * x.den → amount x ≡ ok (atoms_text (atoms x))
unfolding amount
amount_below x p h =
    let small : atoms x < 10 ^ 38 = (div-lt_iff_lt-mul p).1 (
      omega (
        arith,
        mul-lt-mul_of_pos_right h (let t : 0 < 10 ^ 24 = omega arith in t),
        mul_right_comm (10 ^ 14) x.den (10 ^ 24),
      )) in
    let (v, read) = decimal-atoms_text_ok (atoms x) small in rw read

-- For every fraction below 10**14 amount gives a text, and decimal reads the text as a value that
-- is at most the fraction and less than 10**-24 below it.
pub amount_truncates :
    (x : Fraction)
    → 0 < x.den
    → x.num < 10 ^ 14 * x.den
    → (s : Bytes) × (v : Fraction) × (amount x ≡ ok s)
      × (decimal s ≡ ok v)
      × (v.num * x.den ≤ x.num * v.den)
      × (x.num * v.den * 10 ^ 24 < (v.num * 10 ^ 24 + v.den) * x.den)
amount_truncates x p h =
    let s = atoms_text (atoms x) in
    let given = amount_below x p h in
    let (v, read, (pos, e)) = amount-IsAtoms x s given in
    let n = atoms x in
    (
      s,
      v,
      given,
      read,
      cut_below v.num v.den x.num x.den n (10 ^ 24) (omega arith) e
          (div-mul-le_self (x.num * 10 ^ 24) x.den),
      cut_above v.num v.den x.num x.den n (10 ^ 24) pos e (lt-div-mul-add p),
    )
