-- ===== src/Finance/Digits/Text.antt =====
-- What str, zfill and rstrip do to the number that a text of digits stands for, for amount of
-- tools/financial_semantics.py.
use mathlib.Core.List.{append-nil, append_assoc}
use native.Mathlib.Nat.{pow-suc, add-mul, mul_assoc, mul_comm}
use core_drp.Prelude.{
  ℕ, zero, suc, ◌+◌, ◌-◌, ◌*◌, ◌/◌, ◌%◌, ◌^◌, ◌≤◌, ◌<◌, ◌≡◌, ◌⊎◌, refl, sym, ap, ◌∙◌, true,
  Bool-cases, inl, inr, arith, ltb, ◌==◌, [], ◌∷◌, ◌++◌, length, length-append, replicate, Bytes,
}
use core_drp.Finance.{
  is_digit, from_digits_after, from_digits, ends_nonzero, str, strip_onto, rstrip,
}
use core_drp.Finance.Digits.{IsDigits, from_digits_after-append, IsDigits-append, str_one, str_more}

-- What holds of every number below ten, and of a number where it holds of its tenth, holds of all.
by_tenths {ℓ} :
    (P : ℕ → Type ℓ)
    → ((n : ℕ) → n < 10 → P n)
    → ((n : ℕ) → 10 ≤ n → P (n / 10) → P n)
    → (f n : ℕ) → n < f
    → P n
by_tenths P one more zero n h = absurd (omega arith)
by_tenths P one more (suc f) n h = elim (Bool-cases (ltb n 10)) [
  | inl small ↦ one n (ground arith)
  | inr large ↦ more n (ground arith) (by_tenths P one more f (n / 10) (ground arith))
]

pub from_digits-str : (n : ℕ) → from_digits (str n) ≡ n
from_digits-str n =
    by_tenths (λ k. from_digits (str k) ≡ k) (λ k h. rw (str_one k h) (omega arith))
      (λ k h ih. rw (str_more k h) (
        from_digits_after-append 0 (str (k / 10)) ((k % 10 + 48) ∷ [])
        ∙ ap (λ (t : ℕ). t * 10 + (k % 10 + 48 - 48)) ih
        ∙ omega arith))
      (suc n) n (omega arith)

pub str-IsDigits : (n : ℕ) → IsDigits (str n)
str-IsDigits n =
    by_tenths (λ k. IsDigits (str k)) (λ k h. rw (str_one k h) (ground arith))
      (λ k h ih.
        rw (str_more k h) (IsDigits-append (str (k / 10)) ((k % 10 + 48) ∷ []) ih (ground arith)))
      (suc n) n (omega arith)

pub length-str : (w n : ℕ) → n < 10 ^ suc w → length (str n) ≤ suc w
length-str zero n h = rw (str_one n (omega arith)) (omega arith)
length-str (suc w) n h = elim (Bool-cases (ltb n 10)) [
  | inl small ↦ rw (str_one n (ground arith)) (omega arith)
  | inr large ↦ rw (str_more n (ground arith)) (
      omega (
        arith,
        length-append (str (n / 10)) ((n % 10 + 48) ∷ []),
        length-str w (n / 10) (omega (arith, pow-suc 10 (suc w))),
      ))
]

-- A number that is not zero is written without a leading zero.
abbrev pub Leads : Bytes → Type 0
Leads s = (c : ℕ) × (cs : Bytes) × (s ≡ c ∷ cs) × (49 ≤ c) × (c ≤ 57) × IsDigits cs

Leads-append : (s t : Bytes) → Leads s → IsDigits t → Leads (s ++ t)
Leads-append s t (c, cs, e, low, high, tail) h =
    (c, cs ++ t, ap (λ r. r ++ t) e, low, high, IsDigits-append cs t tail h)

pub str-Leads : (n : ℕ) → 0 < n → Leads (str n)
str-Leads n =
    by_tenths (λ k. 0 < k → Leads (str k))
      (λ k h p. (k + 48, [], str_one k h, omega arith, omega arith, refl))
      (λ k h ih p.
        rw (str_more k h)
          (Leads-append (str (k / 10)) ((k % 10 + 48) ∷ []) (ih (omega arith)) (ground arith)))
      (suc n) n (omega arith)

-- Writing a number again gives the digits that were read.
pub str-from_digits_after :
    (acc : ℕ) (ds : Bytes) → 0 < acc → IsDigits ds → str (from_digits_after acc ds) ≡ str acc ++ ds
str-from_digits_after acc [] p h = sym (append-nil (str acc))
str-from_digits_after acc (d ∷ ds) p h =
    let next = acc * 10 + (d - 48) in
    let one : str next ≡ str acc ++ d ∷ [] =
      str_more next (omega arith)
      ∙ ap (λ (t : ℕ). str t ++ (next % 10 + 48) ∷ []) (ground arith)
      ∙ ap (λ (t : ℕ). str acc ++ t ∷ []) (ground arith) in
    str-from_digits_after next ds (omega arith) (ground arith)
    ∙ ap (λ t. t ++ ds) one
    ∙ append_assoc (str acc) (d ∷ []) ds

pub from_digits-zeros : (k : ℕ) (s : Bytes) → from_digits (replicate k 48 ++ s) ≡ from_digits s
from_digits-zeros zero s = refl
from_digits-zeros (suc k) s = from_digits-zeros k s

pub zeros-IsDigits : (k : ℕ) → IsDigits (replicate k 48)
zeros-IsDigits zero = refl
zeros-IsDigits (suc k) = ground (arith, zeros-IsDigits k)

pub length-replicate : (k : ℕ) (c : ℕ) → length (replicate k c) ≡ k
length-replicate zero c = refl
length-replicate (suc k) c = omega (arith, length-replicate k c)

from_digits_after-zeros : (acc k : ℕ) → from_digits_after acc (replicate k 48) ≡ acc * 10 ^ k
from_digits_after-zeros acc zero = omega arith
from_digits_after-zeros acc (suc k) =
    from_digits_after-zeros (acc * 10 + 0) k
    ∙ omega (
      arith,
      add-mul (acc * 10) 0 (10 ^ k),
      mul_assoc acc 10 (10 ^ k),
      mul_comm 10 (10 ^ k),
      ap (λ (t : ℕ). acc * t) (pow-suc 10 k),
    )

pub from_digits-append_zeros :
    (s : Bytes) (k : ℕ) → from_digits (s ++ replicate k 48) ≡ from_digits s * 10 ^ k
from_digits-append_zeros s k =
    from_digits_after-append 0 s (replicate k 48) ∙ from_digits_after-zeros (from_digits s) k

rstrip-zeros : (k : ℕ) → rstrip (replicate k 48) ≡ []
rstrip-zeros zero = refl
rstrip-zeros (suc k) = ap (strip_onto 48) (rstrip-zeros k)

-- Zeros behind a digit that is none are stripped, and nothing else.
pub rstrip-append_zeros :
    (s : Bytes) (k : ℕ) → ends_nonzero s ≡ true → rstrip (s ++ replicate k 48) ≡ s
rstrip-append_zeros [] k h = cc
rstrip-append_zeros (c ∷ []) k h = ap (strip_onto c) (rstrip-zeros k) ∙ ground arith
rstrip-append_zeros (c ∷ d ∷ ds) k h =
    ap (strip_onto c) (rstrip-append_zeros (d ∷ ds) k (ground arith))

-- rstrip leaves a text that ends in no zero, or nothing.
abbrev pub IsStripped : Bytes → Bytes → Type 0
IsStripped s r = (k : ℕ) × (s ≡ r ++ replicate k 48) × ((r ≡ []) ⊎ (ends_nonzero r ≡ true))

strip_onto-IsStripped :
    (c : ℕ) (cs r : Bytes)
    → is_digit c ≡ true
    → IsStripped cs r
    → IsStripped (c ∷ cs) (strip_onto c r)
strip_onto-IsStripped c cs [] h (k, e, _) = elim (Bool-cases (c == 48)) [
  | inl z ↦ rw z (suc k, ground arith, inl refl)
  | inr n ↦ rw n (k, ap (λ t. c ∷ t) e, inr (ground arith))
]
strip_onto-IsStripped c cs (d ∷ ds) h (k, e, inl none) = cc
strip_onto-IsStripped c cs (d ∷ ds) h (k, e, inr last) = (k, ap (λ t. c ∷ t) e, inr (ground arith))

pub rstrip-IsStripped : (s : Bytes) → IsDigits s → IsStripped s (rstrip s)
rstrip-IsStripped [] h = (0, refl, inl refl)
rstrip-IsStripped (c ∷ cs) h =
    strip_onto-IsStripped c cs (rstrip cs) (ground arith) (rstrip-IsStripped cs (ground arith))
