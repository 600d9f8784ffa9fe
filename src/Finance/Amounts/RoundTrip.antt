-- ===== src/Finance/Amounts/RoundTrip.antt =====
-- amount writes back what decimal read (tools/financial_semantics.py).
use mathlib.Core.List.{append-nil}
use native.Mathlib.Nat.{
  pow-suc, add_comm, add-mul, mul_assoc, mul_right_comm, mul-div_cancel, mul-lt-mul_of_pos_right,
  mul-pos, div-one, one-le-pow,
}
use core_drp.Prelude.{
  ℕ, zero, suc, ◌+◌, ◌-◌, ◌*◌, ◌/◌, ◌%◌, ◌^◌, ◌<◌, ◌≡◌, refl, sym, ap, ◌∙◌, true, false, inl, inr,
  arith, ◌==◌, [], ◌∷◌, ◌++◌, length, length-append, replicate, Bytes,
}
use core_drp.Result.{ok}
use core_drp.Finance.{
  Fraction, frac, from_digits_after, from_digits, is_whole, is_part, ends_nonzero, decimal, str,
  zfill, rstrip, atoms_text, atoms, amount,
}
use core_drp.Finance.Digits.{
  IsDigits, IsDigits-append, digits-inj, from_digits-lt, str_one, from_digits-cons,
}
use core_drp.Finance.Digits.Text.{
  from_digits-str, str-IsDigits, length-str, str-from_digits_after, from_digits-zeros,
  zeros-IsDigits, length-replicate, from_digits-append_zeros, rstrip-append_zeros,
}
use core_drp.Finance.Amounts.{decimal-CanonicalText}

-- Writing the number of a whole part gives the part again.
pub str-from_digits : (w : Bytes) → is_whole w ≡ true → str (from_digits w) ≡ w
str-from_digits [] h = cc
str-from_digits (c ∷ []) h =
    let first : 0 * 10 + (c - 48) ≡ c - 48 = omega arith in
    let again : c - 48 + 48 ≡ c = ground arith in
    ap str first ∙ str_one (c - 48) (ground arith) ∙ ap (λ t. t ∷ []) again
str-from_digits (c ∷ d ∷ ds) h =
    let first : 0 * 10 + (c - 48) ≡ c - 48 = omega arith in
    let again : c - 48 + 48 ≡ c = ground arith in
    ap (λ (t : ℕ). str (from_digits_after t (d ∷ ds))) first
    ∙ str-from_digits_after (c - 48) (d ∷ ds) (ground arith) (ground arith)
    ∙ ap (λ t. t ++ d ∷ ds) (str_one (c - 48) (ground arith))
    ∙ ap (λ (t : ℕ). t ∷ d ∷ ds) again

pub pow_split : (j k : ℕ) → 10 ^ (j + k) ≡ 10 ^ j * 10 ^ k
pow_split zero k = ap (λ (t : ℕ). 10 ^ t) (let e : 0 + k ≡ k = omega arith in e) ∙ omega arith
pow_split (suc j) k =
    let moved : suc j + k ≡ suc (j + k) = omega arith in
    ap (λ (t : ℕ). 10 ^ t) moved
    ∙ pow-suc 10 (j + k)
    ∙ ap (λ (t : ℕ). t * 10) (pow_split j k)
    ∙ mul_right_comm (10 ^ j) (10 ^ k) 10
    ∙ ap (λ (t : ℕ). t * 10 ^ k) (sym (pow-suc 10 j))

ends_nonzero-pos : (p : Bytes) → ends_nonzero p ≡ true → 0 < from_digits p
ends_nonzero-pos [] h = cc
ends_nonzero-pos (c ∷ []) h = ground arith
ends_nonzero-pos (c ∷ d ∷ ds) h =
    omega (arith, from_digits-cons c (d ∷ ds), ends_nonzero-pos (d ∷ ds) (ground arith))

ends_nonzero-IsDigits : (p : Bytes) → ends_nonzero p ≡ true → IsDigits p
ends_nonzero-IsDigits [] h = refl
ends_nonzero-IsDigits (c ∷ []) h = ground arith
ends_nonzero-IsDigits (c ∷ d ∷ ds) h = ground (arith, ends_nonzero-IsDigits (d ∷ ds))

zfill-digits :
    (p : Bytes) (j m : ℕ)
    → IsDigits p
    → length p + j ≡ 24
    → from_digits p * 10 ^ j ≡ m
    → m < 10 ^ 24
    → zfill 24 (str m) ≡ p ++ replicate j 48
zfill-digits p j m h l e small =
    digits-inj (zfill 24 (str m)) (p ++ replicate j 48)
      (IsDigits-append (replicate (24 - length (str m)) 48) (str m)
        (zeros-IsDigits (24 - length (str m))) (str-IsDigits m))
      (IsDigits-append p (replicate j 48) h (zeros-IsDigits j))
      (omega (
        arith,
        length-append (replicate (24 - length (str m)) 48) (str m),
        length-replicate (24 - length (str m)) 48,
        length-append p (replicate j 48),
        length-replicate j 48,
        length-str 23 m small,
      ))
      (from_digits-zeros (24 - length (str m)) (str m)
        ∙ from_digits-str m
        ∙ sym e
        ∙ sym (from_digits-append_zeros p j))

-- The text of W whole units and a part.
pub atoms_text_whole : (w : ℕ) → atoms_text (w * 10 ^ 24) ≡ str w
unfolding atoms_text
atoms_text_whole w =
    let q : w * 10 ^ 24 / 10 ^ 24 ≡ w = omega arith in
    let r : w * 10 ^ 24 % 10 ^ 24 == 0 ≡ true = ground arith in
    rw (r) (ap (λ (t : ℕ). str t ++ []) q ∙ append-nil (str w))

pub atoms_text_parts :
    (w m : ℕ)
    → 0 < m
    → m < 10 ^ 24
    → atoms_text (w * 10 ^ 24 + m) ≡ str w ++ 46 ∷ rstrip (zfill 24 (str m))
unfolding atoms_text
atoms_text_parts w m p h =
    let q : (w * 10 ^ 24 + m) / 10 ^ 24 ≡ w = omega arith in
    let r : (w * 10 ^ 24 + m) % 10 ^ 24 ≡ m = omega arith in
    let n : m == 0 ≡ false = ground arith in rw (q, r) (rw n)

pub scaled : (w p a b : ℕ) → (w * b + p) * (a * b) ≡ (w * (a * b) + p * a) * b
scaled w p a b = omega (
  arith,
  add-mul (w * b) p (a * b),
  add-mul (w * (a * b)) (p * a) b,
  mul_right_comm w b (a * b),
  mul_assoc p a b,
)

-- The units of 10**-24 in a decimal with k places.
atoms_parts :
    (w p j k : ℕ) → j + k ≡ 24 → (w * 10 ^ k + p) * 10 ^ 24 / 10 ^ k ≡ w * 10 ^ 24 + p * 10 ^ j
atoms_parts w p j k h =
    let unit : 10 ^ 24 ≡ 10 ^ j * 10 ^ k = ap (λ (t : ℕ). 10 ^ t) (sym h) ∙ pow_split j k in
    ap (λ (t : ℕ). (w * 10 ^ k + p) * t / 10 ^ k) unit
    ∙ ap (λ (t : ℕ). t / 10 ^ k) (scaled w p (10 ^ j) (10 ^ k))
    ∙ mul-div_cancel (w * (10 ^ j * 10 ^ k) + p * 10 ^ j) (one-le-pow k 10 (omega arith))
    ∙ ap (λ (t : ℕ). w * t + p * 10 ^ j) (sym unit)

part_bounds :
    (p j k : ℕ) → j + k ≡ 24 → 0 < p → p < 10 ^ k → (0 < p * 10 ^ j) × (p * 10 ^ j < 10 ^ 24)
part_bounds p j k h pos small =
    let room : 0 < 10 ^ j = one-le-pow j 10 (omega arith) in
    let unit : 10 ^ k * 10 ^ j ≡ 10 ^ 24 =
      sym (pow_split k j) ∙ ap (λ (t : ℕ). 10 ^ t) (add_comm k j ∙ h) in
    (mul-pos pos room, omega (arith, mul-lt-mul_of_pos_right small room, unit))

atoms_text_canonical :
    (w p : Bytes)
    → is_whole w ≡ true
    → is_part p ≡ true
    → atoms_text (atoms (frac (from_digits w * 10 ^ length p + from_digits p) (10 ^ length p)))
      ≡ w ++ 46 ∷ p
atoms_text_canonical w p h k =
    let j = 24 - length p in
    let places : j + length p ≡ 24 = ground arith in
    let last : ends_nonzero p ≡ true = ground arith in
    let cs = ends_nonzero-IsDigits p last in
    let (pos, small) =
      part_bounds (from_digits p) j (length p) places (ends_nonzero-pos p last)
        (from_digits-lt p cs) in
    ap atoms_text (atoms_parts (from_digits w) (from_digits p) j (length p) places)
    ∙ atoms_text_parts (from_digits w) (from_digits p * 10 ^ j) pos small
    ∙ ap (λ t. t ++ 46 ∷ rstrip (zfill 24 (str (from_digits p * 10 ^ j)))) (str-from_digits w h)
    ∙ ap (λ t. w ++ 46 ∷ rstrip t)
        (zfill-digits p j (from_digits p * 10 ^ j) cs (omega arith) refl small)
    ∙ ap (λ t. w ++ 46 ∷ t) (rstrip-append_zeros p j last)

-- amount writes every canonical decimal back as it stood.
pub amount-decimal : (s : Bytes) (v : Fraction) → decimal s ≡ ok v → amount v ≡ ok s
unfolding amount
amount-decimal s v h = elim (decimal-CanonicalText s v h) [
  | inl (whole, e) ↦
      let text : atoms_text (atoms (frac (from_digits s) 1)) ≡ s =
        ap atoms_text (div-one (from_digits s * 10 ^ 24))
        ∙ atoms_text_whole (from_digits s)
        ∙ str-from_digits s whole in
      rw (e, text, h) refl
  | inr (w, p, t, whole, part, e) ↦ rw (e, atoms_text_canonical w p whole part, ← t, h) refl
]
