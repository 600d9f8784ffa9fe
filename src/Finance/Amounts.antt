-- ===== src/Finance/Amounts.antt =====
-- Decimals and amounts of tools/financial_semantics.py: what is read and what is written agree.
pub mod RoundTrip
pub mod Truncation
use mathlib.Core.Path.{subst}
use native.Mathlib.Nat.{pow-suc, mul_assoc, mul_comm, div-add-mod, mod-lt}
use core_drp.Prelude.{
  ℕ, zero, suc, ◌+◌, ◌-◌, ◌*◌, ◌/◌, ◌%◌, ◌^◌, ◌≤◌, ◌<◌, ◌≡◌, ◌≢◌, ◌⊎◌, refl, sym, ap, ◌∙◌, Bool,
  true, false, Bool-cases, inl, inr, arith, if◌then◌else◌, ltb, leb, ◌==◌, ◌&&◌, Option, none, some,
  List, [], ◌∷◌, ◌++◌, length, length-append, all, replicate, Bytes,
}
use core_drp.Result.{Result, ok, raise, value_error, ◌>>=◌, ◌>>◌, ok-inj, raise≢ok}
use core_drp.Finance.{
  Fraction, frac, is_digit, from_digits_after, from_digits, is_whole, is_part, ends_nonzero,
  split_point, read_parts, decimal, str, zfill, rstrip, atoms_text, atoms, amount,
}
use core_drp.Finance.Digits.{IsDigits, digits-inj, from_digits-lt, str_one}
use core_drp.Finance.Digits.Text.{
  from_digits-str, str-IsDigits, length-str, Leads, str-Leads, str-from_digits_after,
  from_digits-zeros, zeros-IsDigits, length-replicate, from_digits-append_zeros,
  rstrip-append_zeros, IsStripped, rstrip-IsStripped,
}

pub split_point_whole : (w : Bytes) → IsDigits w → split_point w ≡ (w, none)
split_point_whole [] h = refl
split_point_whole (c ∷ w) h =
    let e : split_point w ≡ (w, none) = split_point_whole w (ground arith) in
    let not_point : c == 46 ≡ false = ground arith in rw (not_point) (ap (λ t. (c ∷ t.0, t.1)) e)

pub split_point_parts : (w p : Bytes) → IsDigits w → split_point (w ++ 46 ∷ p) ≡ (w, some p)
split_point_parts [] p h = refl
split_point_parts (c ∷ w) p h =
    let e : split_point (w ++ 46 ∷ p) ≡ (w, some p) = split_point_parts w p (ground arith) in
    let not_point : c == 46 ≡ false = ground arith in rw (not_point) (ap (λ t. (c ∷ t.0, t.1)) e)

-- A canonical decimal, as the grammar has it: the digits before the point, and the digits behind it
-- where there is one.
abbrev pub CanonicalText : Bytes → Fraction → Type 0
CanonicalText s v =
    ((is_whole s ≡ true) × (v ≡ frac (from_digits s) 1))
    ⊎ ((w : Bytes) × (p : Bytes) × (s ≡ w ++ 46 ∷ p)
        × (is_whole w ≡ true)
        × (is_part p ≡ true)
        × (v ≡ frac (from_digits w * 10 ^ length p + from_digits p) (10 ^ length p)))

-- The text that two parts are read from.
joined : Bytes → Option Bytes → Bytes
joined w none = w
joined w (some p) = w ++ 46 ∷ p

joined-cons : (c : ℕ) (w : Bytes) (p : Option Bytes) → joined (c ∷ w) p ≡ c ∷ joined w p
unfolding joined
joined-cons c w none = refl
joined-cons c w (some p) = refl

split_point-joined : (s : Bytes) → joined (split_point s).0 (split_point s).1 ≡ s
split_point-joined [] = unfold joined in refl
split_point-joined (c ∷ s) = elim (Bool-cases (c == 46)) [
  | inl e ↦ rw e (unfold joined in ground arith)
  | inr e ↦
      rw e
        (joined-cons c (split_point s).0 (split_point s).1 ∙ ap (λ t. c ∷ t) (split_point-joined s))
]

pub is_whole-IsDigits : (w : Bytes) → is_whole w ≡ true → IsDigits w
is_whole-IsDigits [] h = refl
is_whole-IsDigits (c ∷ []) h = ground arith
is_whole-IsDigits (c ∷ d ∷ ds) h = ground arith

read_parts-CanonicalText :
    (w : Bytes) (p : Option Bytes) (v : Fraction)
    → read_parts w p ≡ ok v
    → CanonicalText (joined w p) v
unfolding joined
read_parts-CanonicalText w none v h = elim (Bool-cases (is_whole w && leb (length w) 38)) [
  | inl e ↦ inl (ground arith, sym (ok-inj (rw e at h)))
  | inr e ↦ absurd (raise≢ok (rw e at h))
]
read_parts-CanonicalText w (some p) v h =
    elim (Bool-cases (is_whole w && is_part p && leb (length w + length p) 38)) [
      | inl e ↦ inr (w, p, refl, ground arith, ground arith, sym (ok-inj (rw e at h)))
      | inr e ↦ absurd (raise≢ok (rw e at h))
    ]

-- What decimal accepts is canonical.
pub decimal-CanonicalText : (s : Bytes) (v : Fraction) → decimal s ≡ ok v → CanonicalText s v
unfolding decimal
decimal-CanonicalText s v h =
    subst (λ t. CanonicalText t v) (split_point-joined s)
      (read_parts-CanonicalText (split_point s).0 (split_point s).1 v h)

pub length_whole : (w : Bytes) → is_whole w ≡ true → length w ≤ 14
length_whole [] h = omega arith
length_whole (c ∷ cs) h = ground arith

-- decimal accepts every canonical text.
pub decimal_whole : (w : Bytes) → is_whole w ≡ true → decimal w ≡ ok (frac (from_digits w) 1)
unfolding decimal
decimal_whole w h =
    let short : leb (length w) 38 ≡ true = ground (arith, length_whole w) in
    rw (split_point_whole w (is_whole-IsDigits w h)) (rw (h, short))

pub decimal_parts :
    (w p : Bytes)
    → is_whole w ≡ true
    → is_part p ≡ true
    → decimal (w ++ 46 ∷ p)
      ≡ ok (frac (from_digits w * 10 ^ length p + from_digits p) (10 ^ length p))
unfolding decimal
decimal_parts w p h k =
    let short : leb (length w + length p) 38 ≡ true = ground (arith, length_whole w) in
    rw (split_point_parts w p (is_whole-IsDigits w h)) (rw (h, k, short))
