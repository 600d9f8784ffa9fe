-- ===== src/Requests/Scalars.antt =====
-- The scalar fields of a request (value of tools/request_encodings.py): each can be told from what
-- follows it.
use mathlib.Core.Path.{subst}
use mathlib.Core.List.{append_assoc}
use core_drp.Prelude.{
  ℕ, ◌-◌, ◌^◌, ◌&&◌, ◌<◌, ◌≡◌, refl, sym, ap, ◌∙◌, inl, inr, Bool-cases, arith, Bool, true, false,
  ltb, ◌==◌, ◌++◌, length, append-inj, all, Option-cases, from_hex, nonzero, if◌then◌else◌, Bytes,
  be, be-inj, length-be,
}
use core_drp.Prelude.Int.{ℤ, pos, negsuc}
use core_drp.Result.{Result, ok, raise, value_error, raise≢ok, ok-inj, ◌>>=◌, >>=-eq-ok}
use core_drp.Wire.{be_signed, fits_int64}
use core_drp.Finance.Effects.Injective.{be_field-inj}
use core_drp.Profile.{is_finite, is_positive}
use core_drp.Finance.Effects.{hex_value}
use core_drp.Requests.{uuid16}
use core_drp.Requests.Schema.{
  Scalar, u8, u16, u32, u64, i64, bool, f64, hash32, bytes, utf8, ascii, Value, int, truth, double,
  text,
}
use core_drp.Requests.Encoding.{
  integer, signed, lp, text_of, flag, difficulty, hash_of, ascii_of, scalar_value,
}

-- Where the encoder accepts two values whose bytes begin two equal byte strings, they are the same in
-- the sense of R, and what follows them is equal.
abbrev pub Told : (Value → Result Bytes) → (Value → Value → Type 0) → Type 0
Told f R =
    (x y : Value) (b c r s : Bytes) → f x ≡ ok b → f y ≡ ok c → b ++ r ≡ c ++ s → R x y × (r ≡ s)

abbrev pub Same : Value → Value → Type 0
Same x y = x ≡ y

pub integer-eq-ok :
    (w : ℕ) (x : Value) (b : Bytes)
    → integer w x ≡ ok b
    → (n : ℕ) × (x ≡ int (pos n)) × (n < 256 ^ w) × (b ≡ be w n)
unfolding integer
integer-eq-ok w (int (pos n)) b h = elim (Bool-cases (ltb n (256 ^ w))) [
  | inl e ↦ (n, refl, ground (arith, e), sym (ok-inj (rw e at h)))
  | inr e ↦ absurd (raise≢ok (rw e at h))
]
integer-eq-ok w (int (negsuc n)) b h = absurd (raise≢ok h)
integer-eq-ok w _ b h = absurd (raise≢ok h)

integer-Told : (w : ℕ) → Told (integer w) Same
integer-Told w x y b c r s h k e =
    let (m, is_m, small_m, at_m) = integer-eq-ok w x b h in
    let (n, is_n, small_n, at_n) = integer-eq-ok w y c k in
    let e' : be w m ++ r ≡ be w n ++ s = ap (λ t. t ++ r) (sym at_m) ∙ e ∙ ap (λ t. t ++ s) at_n in
    let (same, rest) = be_field-inj w m n r s small_m small_n e' in
    (is_m ∙ ap (λ t. int (pos t)) same ∙ sym is_n, rest)

pub signed-eq-ok :
    (x : Value) (b : Bytes)
    → signed x ≡ ok b
    → (n : ℤ) × (x ≡ int n) × (fits_int64 n ≡ true) × (b ≡ be_signed n)
unfolding signed
signed-eq-ok (int n) b h = elim (Bool-cases (fits_int64 n)) [
  | inl e ↦ (n, refl, e, sym (ok-inj (rw e at h)))
  | inr e ↦ absurd (raise≢ok (rw e at h))
]
signed-eq-ok _ b h = absurd (raise≢ok h)

pub length-be_signed : (n : ℤ) → length (be_signed n) ≡ 8
unfolding be_signed
length-be_signed (pos n) = length-be 8 n
length-be_signed (negsuc n) = length-be 8 (2 ^ 64 - 1 - n)

-- The numbers of 64 bits with a sign.
be_signed-inj :
    (a b : ℤ) → fits_int64 a ≡ true → fits_int64 b ≡ true → be_signed a ≡ be_signed b → a ≡ b
unfolding be_signed
be_signed-inj (pos a) (pos b) p q e = ap pos (be-inj 8 a b (ground arith) (ground arith) e)
be_signed-inj (pos a) (negsuc b) p q e =
    let bound : a < 2 ^ 63 = ground arith in
    let same = be-inj 8 a (2 ^ 64 - 1 - b) (omega (arith, bound)) (omega arith) e in
    let bound' : b < 2 ^ 63 = ground arith in absurd (omega (arith, bound, bound', same))
be_signed-inj (negsuc a) (pos b) p q e =
    let bound : b < 2 ^ 63 = ground arith in
    let same = be-inj 8 (2 ^ 64 - 1 - a) b (omega arith) (omega (arith, bound)) e in
    let bound' : a < 2 ^ 63 = ground arith in absurd (omega (arith, bound, bound', same))
be_signed-inj (negsuc a) (negsuc b) p q e =
    let same = be-inj 8 (2 ^ 64 - 1 - a) (2 ^ 64 - 1 - b) (omega arith) (omega arith) e in
    let bound : a < 2 ^ 63 = ground arith in
    let bound' : b < 2 ^ 63 = ground arith in
    let equal : a ≡ b = omega (arith, bound, bound', same) in ap negsuc equal

signed-Told : Told signed Same
signed-Told x y b c r s h k e =
    let (m, is_m, fits_m, at_m) = signed-eq-ok x b h in
    let (n, is_n, fits_n, at_n) = signed-eq-ok y c k in
    let e' : be_signed m ++ r ≡ be_signed n ++ s =
      ap (λ t. t ++ r) (sym at_m) ∙ e ∙ ap (λ t. t ++ s) at_n in
    let (front, rest) =
      append-inj (be_signed m) (be_signed n) r s (length-be_signed m ∙ sym (length-be_signed n))
        e' in
    (is_m ∙ ap int (be_signed-inj m n fits_m fits_n front) ∙ sym is_n, rest)

flag-Told : Told flag Same
unfolding flag
flag-Told (truth true) (truth true) b c r s h k e = ground arith
flag-Told (truth true) (truth false) b c r s h k e = ground arith
flag-Told (truth false) (truth true) b c r s h k e = ground arith
flag-Told (truth false) (truth false) b c r s h k e = ground arith
flag-Told (truth t) _ b c r s h k e = absurd (raise≢ok k)
flag-Told _ y b c r s h k e = absurd (raise≢ok h)

difficulty-eq-ok :
    (x : Value) (b : Bytes)
    → difficulty x ≡ ok b
    → (n : ℕ) × (x ≡ double n) × (n < 256 ^ 8) × (b ≡ be 8 n)
unfolding difficulty
difficulty-eq-ok (double n) b h =
    elim (Bool-cases (ltb n (2 ^ 64) && is_finite n && is_positive n)) [
      | inl e ↦ (n, refl, ground (arith, e), sym (ok-inj (rw e at h)))
      | inr e ↦ absurd (raise≢ok (rw e at h))
    ]
difficulty-eq-ok _ b h = absurd (raise≢ok h)

difficulty-Told : Told difficulty Same
difficulty-Told x y b c r s h k e =
    let (m, is_m, small_m, at_m) = difficulty-eq-ok x b h in
    let (n, is_n, small_n, at_n) = difficulty-eq-ok y c k in
    let e' : be 8 m ++ r ≡ be 8 n ++ s = ap (λ t. t ++ r) (sym at_m) ∙ e ∙ ap (λ t. t ++ s) at_n in
    let (same, rest) = be_field-inj 8 m n r s small_m small_n e' in
    (is_m ∙ ap double same ∙ sym is_n, rest)

-- Byte strings of one size.
sized-Told :
    (n : ℕ) (b c r s : Bytes) → length b ≡ n → length c ≡ n → b ++ r ≡ c ++ s → (b ≡ c) × (r ≡ s)
sized-Told n b c r s h k e = append-inj b c r s (h ∙ sym k) e

pub lp-eq-ok : (a b : Bytes) → lp a ≡ ok b → (length a < 2 ^ 32) × (b ≡ be 4 (length a) ++ a)
unfolding lp
lp-eq-ok a b h = elim (Bool-cases (ltb (length a) (2 ^ 32))) [
  | inl e ↦ (ground (arith, e), sym (ok-inj (rw e at h)))
  | inr e ↦ absurd (raise≢ok (rw e at h))
]

pub lp-told :
    (a a' b c r s : Bytes) → lp a ≡ ok b → lp a' ≡ ok c → b ++ r ≡ c ++ s → (a ≡ a') × (r ≡ s)
lp-told a a' b c r s h k e =
    let (small, at) = lp-eq-ok a b h in
    let (small', at') = lp-eq-ok a' c k in
    let e' : be 4 (length a) ++ (a ++ r) ≡ be 4 (length a') ++ (a' ++ s) =
      sym (append_assoc (be 4 (length a)) a r)
      ∙ ap (λ t. t ++ r) (sym at)
      ∙ e
      ∙ ap (λ t. t ++ s) at'
      ∙ append_assoc (be 4 (length a')) a' s in
    let (size, rest) =
      be_field-inj 4 (length a) (length a') (a ++ r) (a' ++ s) (omega (arith, small))
        (omega (arith, small')) e' in
    append-inj a a' r s size rest

pub text_of-eq-ok : (x : Value) (t : Bytes) → text_of x ≡ ok t → x ≡ text t
unfolding text_of
text_of-eq-ok (text u) t h = ap text (ok-inj h)
text_of-eq-ok _ t h = absurd (raise≢ok h)

-- Two texts with the same bytes in hexadecimal.
abbrev pub SameHex : Value → Value → Type 0
SameHex x y =
    (t : Bytes) × (u : Bytes) × (b : Bytes) × (x ≡ text t)
    × (y ≡ text u)
    × (hex_value t ≡ ok b)
    × (hex_value u ≡ ok b)

kept :
    (n : ℕ) (test : Bytes → Bool) (m : Result Bytes) (b : Bytes)
    → ((c : Bytes) → test c ≡ true → length c ≡ n)
    → (m >>= λ c. if test c then ok c else raise value_error) ≡ ok b
    → (m ≡ ok b) × (length b ≡ n)
kept n test (raise x) b size h = absurd (raise≢ok h)
kept n test (ok c) b size h = elim (Bool-cases (test c)) [
  | inl e ↦ let same = ok-inj (rw e at h) in (ap ok same, subst (λ d. length d ≡ n) same (size c e))
  | inr e ↦ absurd (raise≢ok (rw e at h))
]

pub hash_of-eq-ok : (t b : Bytes) → hash_of t ≡ ok b → (hex_value t ≡ ok b) × (length b ≡ 32)
unfolding hash_of
hash_of-eq-ok t b h = kept 32 (λ c. length c == 32) (hex_value t) b (λ c e. ground (arith, e)) h

pub uuid16-eq-ok :
    (t b : Bytes) → uuid16 t ≡ ok b → (hex_value t ≡ ok b) × (length b ≡ 16) × (nonzero b ≡ true)
unfolding uuid16
uuid16-eq-ok t b h = elim (Option-cases (from_hex t)) [
  | inl e ↦ absurd (raise≢ok (rw (e, uuid16) at h))
  | inr (c, e) ↦ elim (Bool-cases (length c == 16 && nonzero c)) [
    | inl k ↦
        let same = ok-inj (rw k at (rw (e, uuid16) at h)) in
        let size : (length c ≡ 16) × (nonzero c ≡ true) = ground (arith, k) in
        (
          rw (e, hex_value) (ap ok same),
          subst (λ d. length d ≡ 16) same size.0,
          subst (λ d. nonzero d ≡ true) same size.1,
        )
    | inr k ↦ absurd (raise≢ok (rw k at (rw (e, uuid16) at h)))
  ]
]

-- A field of n bytes that a text gives in hexadecimal.
hex-Told :
    (n : ℕ) (f : Bytes → Result Bytes)
    → ((t b : Bytes) → f t ≡ ok b → (hex_value t ≡ ok b) × (length b ≡ n))
    → Told (λ x. text_of x >>= f) SameHex
hex-Told n f is x y b c r s h k e =
    let (t, ht, hb) = >>=-eq-ok (text_of x) f h in
    let (u, hu, hc) = >>=-eq-ok (text_of y) f k in
    let (at, size) = is t b hb in
    let (at', size') = is u c hc in
    let (front, rest) = sized-Told n b c r s size size' e in
    ((t, u, b, text_of-eq-ok x t ht, text_of-eq-ok y u hu, at, at' ∙ ap ok (sym front)), rest)

-- A field with its length before it.
text-Told :
    (g : Bytes → Result Bytes)
    → Told
        (λ x. text_of x >>= λ t. g t >>= lp)
        (λ x y.
          (t : Bytes) × (u : Bytes) × (b : Bytes) × (x ≡ text t)
          × (y ≡ text u)
          × (g t ≡ ok b)
          × (g u ≡ ok b))
text-Told g x y b c r s h k e =
    let (t, ht, h1) = >>=-eq-ok (text_of x) (λ t. g t >>= lp) h in
    let (u, hu, k1) = >>=-eq-ok (text_of y) (λ t. g t >>= lp) k in
    let (a, ha, h2) = >>=-eq-ok (g t) lp h1 in
    let (a', ha', k2) = >>=-eq-ok (g u) lp k1 in
    let (same, rest) = lp-told a a' b c r s h2 k2 e in
    ((t, u, a, text_of-eq-ok x t ht, text_of-eq-ok y u hu, ha, ha' ∙ ap ok (sym same)), rest)

pub ascii_of-eq-ok : (t b : Bytes) → ascii_of t ≡ ok b → t ≡ b
unfolding ascii_of
ascii_of-eq-ok t b h = elim (Bool-cases (all (λ c. ltb c 128) t)) [
  | inl e ↦ ok-inj (rw e at h)
  | inr e ↦ absurd (raise≢ok (rw e at h))
]

-- What equal bytes say of two scalars: they are equal, or spell the same bytes in hexadecimal.
abbrev pub SameScalar : Scalar → Value → Value → Type 0
SameScalar Scalar.uuid16 x y = SameHex x y
SameScalar hash32 x y = SameHex x y
SameScalar bytes x y = SameHex x y
SameScalar _ x y = Same x y

pub scalar_value-Told : (s : Scalar) → Told (scalar_value s) (SameScalar s)
unfolding scalar_value
scalar_value-Told u8 = integer-Told 1
scalar_value-Told u16 = integer-Told 2
scalar_value-Told u32 = integer-Told 4
scalar_value-Told u64 = integer-Told 8
scalar_value-Told i64 = signed-Told
scalar_value-Told bool = flag-Told
scalar_value-Told f64 = difficulty-Told
scalar_value-Told Scalar.uuid16 =
    hex-Told 16 uuid16 λ t b h. let (at, size, _) = uuid16-eq-ok t b h in (at, size)
scalar_value-Told hash32 = hex-Told 32 hash_of hash_of-eq-ok
scalar_value-Told bytes = text-Told hex_value
scalar_value-Told utf8 = λ x y b c r s h k e.
    let ((t, u, a, ht, hu, at, at'), rest) = text-Told ok x y b c r s h k e in
    (ht ∙ ap text (ok-inj at ∙ sym (ok-inj at')) ∙ sym hu, rest)
scalar_value-Told ascii = λ x y b c r s h k e.
    let ((t, u, a, ht, hu, at, at'), rest) = text-Told ascii_of x y b c r s h k e in
    (ht ∙ ap text (ascii_of-eq-ok t a at ∙ sym (ascii_of-eq-ok u a at')) ∙ sym hu, rest)
