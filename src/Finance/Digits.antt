-- ===== src/Finance/Digits.antt =====
-- Texts of digits and their numbers, for decimal and amount of tools/financial_semantics.py.
pub mod Text
use mathlib.Core.List.{append-nil, append_assoc}
use native.Mathlib.Nat.{pow-suc, add-mul, suc-mul, mul_assoc, mul_comm, mul-le-mul_right}
use core_drp.Prelude.{
  ℕ, zero, suc, ◌+◌, ◌-◌, ◌*◌, ◌/◌, ◌%◌, ◌^◌, ◌≤◌, ◌<◌, ◌≡◌, refl, sym, ap, ◌∙◌, Bool, true, false,
  Bool-cases, inl, inr, arith, if◌then◌else◌, ltb, leb, ◌==◌, List, [], ◌∷◌, ◌++◌, length,
  length-append, all, replicate, Bytes,
}
use core_drp.Finance.{
  is_digit, from_digits_after, from_digits, ends_nonzero, digits, str, zfill, strip_onto, rstrip,
}

abbrev pub IsDigits : Bytes → Type 0
IsDigits cs = all is_digit cs ≡ true

pub from_digits_after-append :
    (acc : ℕ) (a b : Bytes)
    → from_digits_after acc (a ++ b) ≡ from_digits_after (from_digits_after acc a) b
from_digits_after-append acc [] b = refl
from_digits_after-append acc (c ∷ a) b = from_digits_after-append (acc * 10 + (c - 48)) a b

shifted : (a d p f : ℕ) → (a * 10 + d) * p + f ≡ a * (p * 10) + ((0 * 10 + d) * p + f)
shifted a d p f = omega (arith, add-mul (a * 10) d p, mul_assoc a 10 p, mul_comm 10 p)

-- What stands before the text counts for a power of ten.
pub from_digits_after_split :
    (acc : ℕ) (s : Bytes) → from_digits_after acc s ≡ acc * 10 ^ length s + from_digits s
from_digits_after_split acc [] = omega arith
from_digits_after_split acc (c ∷ s) =
    let d = c - 48 in
    from_digits_after_split (acc * 10 + d) s
    ∙ shifted acc d (10 ^ length s) (from_digits s)
    ∙ ap (λ (t : ℕ). acc * t + ((0 * 10 + d) * 10 ^ length s + from_digits s))
        (sym (pow-suc 10 (length s)))
    ∙ ap (λ (t : ℕ). acc * 10 ^ suc (length s) + t) (sym (from_digits_after_split (0 * 10 + d) s))

pub from_digits-cons :
    (c : ℕ) (s : Bytes) → from_digits (c ∷ s) ≡ (c - 48) * 10 ^ length s + from_digits s
from_digits-cons c s =
    from_digits_after_split (0 * 10 + (c - 48)) s
    ∙ ap (λ (t : ℕ). t * 10 ^ length s + from_digits s) (omega arith)

pub IsDigits-append : (a b : Bytes) → IsDigits a → IsDigits b → IsDigits (a ++ b)
IsDigits-append [] b ha hb = hb
IsDigits-append (c ∷ a) b ha hb = ground (arith, IsDigits-append a b)

pub from_digits-lt : (s : Bytes) → IsDigits s → from_digits s < 10 ^ length s
from_digits-lt [] h = omega arith
from_digits-lt (c ∷ s) h =
    let first : c - 48 ≤ 9 = ground arith in
    let rest : IsDigits s = ground arith in
    omega (
      arith,
      from_digits-cons c s,
      from_digits-lt s rest,
      mul-le-mul_right (10 ^ length s) first,
      pow-suc 10 (length s),
    )

-- Quotient and remainder are unique.
pub quotients : (c d x y p : ℕ) → x < p → y < p → c * p + x ≡ d * p + y → (c ≡ d) × (x ≡ y)
quotients zero zero x y p hx hy e = omega arith
quotients zero (suc d) x y p hx hy e = absurd (omega (arith, suc-mul d p))
quotients (suc c) zero x y p hx hy e = absurd (omega (arith, suc-mul c p))
quotients (suc c) (suc d) x y p hx hy e =
    let (q, r) = quotients c d x y p hx hy (omega (arith, suc-mul c p, suc-mul d p)) in
    (ap suc q, r)

-- Two texts of digits of one length and one number are one text.
pub digits-inj :
    (a b : Bytes)
    → IsDigits a
    → IsDigits b
    → length a ≡ length b
    → from_digits a ≡ from_digits b
    → a ≡ b
digits-inj [] [] ha hb h e = refl
digits-inj [] (d ∷ b) ha hb h e = absurd (omega arith)
digits-inj (c ∷ a) [] ha hb h e = absurd (omega arith)
digits-inj (c ∷ a) (d ∷ b) ha hb h e =
    let lengths : length a ≡ length b = omega arith in
    let values : (c - 48) * 10 ^ length a + from_digits a
        ≡ (d - 48) * 10 ^ length a + from_digits b =
      sym (from_digits-cons c a)
      ∙ e
      ∙ from_digits-cons d b
      ∙ ap (λ (t : ℕ). (d - 48) * 10 ^ t + from_digits b) (sym lengths) in
    let below_b : from_digits b < 10 ^ length a =
      omega (arith, from_digits-lt b (ground arith), ap (λ (t : ℕ). 10 ^ t) lengths) in
    let firsts =
      quotients (c - 48) (d - 48) (from_digits a) (from_digits b) (10 ^ length a)
        (from_digits-lt a (ground arith)) below_b values in
    let heads : c ≡ d = ground (arith, firsts.0) in
    cc (heads, digits-inj a b (ground arith) (ground arith) lengths firsts.1)

pub digits_fuel : (f g n : ℕ) → n < f → n < g → digits f n ≡ digits g n
unfolding digits
digits_fuel zero g n h k = absurd (omega arith)
digits_fuel (suc f) zero n h k = absurd (omega arith)
digits_fuel (suc f) (suc g) n h k = elim (Bool-cases (ltb n 10)) [
  | inl small ↦ rw small
  | inr large ↦
      ap (λ t. if ltb n 10 then (n + 48) ∷ [] else t ++ (n % 10 + 48) ∷ [])
        (digits_fuel f g (n / 10) (ground arith) (ground arith))
]

pub str_one : (n : ℕ) → n < 10 → str n ≡ (n + 48) ∷ []
unfolding str digits
str_one n h = ground arith

pub str_more : (n : ℕ) → 10 ≤ n → str n ≡ str (n / 10) ++ (n % 10 + 48) ∷ []
unfolding str digits
str_more n h =
    let large : ltb n 10 ≡ false = ground arith in
    rw large (
      ap (λ t. t ++ (n % 10 + 48) ∷ [])
        (digits_fuel n (suc (n / 10)) (n / 10) (omega arith) (omega arith)))
