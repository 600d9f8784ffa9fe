-- ===== src/Profile/Bitcoin/Prefixes.antt =====
-- The readers of tools/verify_profile_vectors.py read a prefix of the buffer, and do not look past it.
use mathlib.Core.Path.{subst}
use mathlib.Core.List.{append_assoc}
use core_drp.Prelude.{
  take-drop, ℕ, zero, suc, ◌+◌, ◌-◌, ◌*◌, ◌%◌, ◌^◌, ◌≤◌, ◌≡◌, refl, sym, ap, ◌∙◌, Bool-cases, inl,
  inr, false, arith, ltb, List, [], ◌∷◌, ◌++◌, length, length-append, length-take, take, drop,
  take-append, drop-append, Bytes, join,
}
use core_drp.Result.{ok, ok-inj, raise≢ok, ◌>>=◌, >>=-eq-ok}
use core_drp.Profile.Bitcoin.{
  Reader, rv_loop, rv, read, then_read, return, spanned, repeat, seconds,
}

-- What a reader accepts is a prefix of its buffer, and it gives the same value whatever follows.
abbrev pub IsPrefix {ℓ} : {A : Type ℓ} → Reader A → Type ℓ
IsPrefix {A} reader =
    (b : Bytes) (a : A) (rest : Bytes)
    → reader b ≡ ok (a, rest)
    → (used : Bytes) × (b ≡ used ++ rest) × ((more : Bytes) → reader (used ++ more) ≡ ok (a, more))

-- A reader takes n bytes at least.
abbrev pub Takes {ℓ} : {A : Type ℓ} → ℕ → Reader A → Type ℓ
Takes {A} n reader =
    (b : Bytes) (a : A) (rest : Bytes) → reader b ≡ ok (a, rest) → length rest + n ≤ length b

pub read-append :
    (n : ℕ) (used more : Bytes) → length used ≡ n → read n (used ++ more) ≡ ok (used, more)
unfolding read
read-append n used more h =
    let room : ltb (length (used ++ more)) n ≡ false = ground (arith, length-append used more) in
    rw room (
      ap (λ t. ok (t, drop n (used ++ more))) (take-append used more n (sym h))
      ∙ ap (λ t. ok (used, t)) (drop-append used more n (sym h)))

pub read-parts :
    (n : ℕ) (b a rest : Bytes) → read n b ≡ ok (a, rest) → (b ≡ a ++ rest) × (length a ≡ n)
unfolding read
read-parts n b a rest h = elim (Bool-cases (ltb (length b) n)) [
  | inl e ↦ absurd (raise≢ok (rw e at h))
  | inr e ↦
      let same : (take n b, drop n b) ≡ (a, rest) = ok-inj (rw e at h) in
      let first : take n b ≡ a = ap (λ p. p.0) same in
      let second : drop n b ≡ rest = ap (λ p. p.1) same in
      let size : length (take n b) ≡ n = ground (arith, length-take n b) in
      (
        sym (take-drop n b) ∙ ap (λ t. t ++ drop n b) first ∙ ap (λ t. a ++ t) second,
        ap length (sym first) ∙ size,
      )
]

pub read-length : (n : ℕ) (b a rest : Bytes) → read n b ≡ ok (a, rest) → length a ≡ n
read-length n b a rest h = (read-parts n b a rest h).1

pub read-IsPrefix : (n : ℕ) → IsPrefix (read n)
read-IsPrefix n b a rest h =
    let (split, size) = read-parts n b a rest h in (a, split, λ more. read-append n a more size)

pub read-Takes : (n : ℕ) → Takes n (read n)
read-Takes n b a rest h =
    let (split, size) = read-parts n b a rest h in
    omega (arith, ap length split, length-append a rest, size)

rv_loop-IsPrefix : (shift n : ℕ) → IsPrefix (rv_loop shift n)
unfolding rv_loop
rv_loop-IsPrefix shift n [] a rest h = absurd (raise≢ok h)
rv_loop-IsPrefix shift n (x ∷ b) a rest h = elim (Bool-cases (ltb 63 shift)) [
  | inl e ↦ absurd (raise≢ok (rw e at h))
  | inr e ↦ elim (Bool-cases (ltb x 128)) [
    | inl last ↦
        let same : (n + x % 128 * 2 ^ shift, b) ≡ (a, rest) = ok-inj (rw last at (rw e at h)) in
        (
          x ∷ [],
          ap (λ p. x ∷ p.1) same,
          λ more. rw (e, rv_loop) (rw last (ap (λ p. ok (p.0, more)) same)),
        )
    | inr inner ↦
        let (used, split, again) =
          rv_loop-IsPrefix (shift + 7) (n + x % 128 * 2 ^ shift) b a rest
            (rw inner at (rw e at h)) in
        (x ∷ used, ap (λ t. x ∷ t) split, λ more. rw (e, rv_loop) (rw inner (again more)))
  ]
]

pub rv-IsPrefix : IsPrefix rv
unfolding rv
rv-IsPrefix = rv_loop-IsPrefix 0 0

pub return-IsPrefix {ℓ} : {A : Type ℓ} (a : A) → IsPrefix (return a)
return-IsPrefix a b a' rest h =
    let same : (a, b) ≡ (a', rest) = ok-inj h in
    ([], ap (λ p. p.1) same, λ more. ap (λ p. ok (p.0, more)) same)

pub then_read-IsPrefix {ℓ κ} :
    {A : Type ℓ} {B : Type κ} (first : Reader A) (next : A → Reader B)
    → IsPrefix first
    → ((a : A) → IsPrefix (next a))
    → IsPrefix (then_read first next)
then_read-IsPrefix first next hf hn b v rest h =
    let (p, e, k) = >>=-eq-ok (first b) (λ p. next p.0 p.1) h in
    let (u, split, again) = hf b p.0 p.1 e in
    let (w, split', again') = hn p.0 p.1 v rest k in
    (
      u ++ w,
      split ∙ ap (λ t. u ++ t) split' ∙ sym (append_assoc u w rest),
      λ more.
          ap (λ t. then_read first next t) (append_assoc u w more)
          ∙ ap (λ m. m >>= λ q. next q.0 q.1) (again (w ++ more))
          ∙ again' more,
    )

front : (used more : Bytes) → take (length (used ++ more) - length more) (used ++ more) ≡ used
front used more =
    take-append used more (length (used ++ more) - length more)
      (omega (arith, length-append used more))

-- What a reader took is what its span gives.
pub spanned-append {ℓ} :
    {A : Type ℓ} (reader : Reader A) (used more : Bytes) (a : A)
    → reader (used ++ more) ≡ ok (a, more)
    → spanned reader (used ++ more) ≡ ok ((a, used), more)
spanned-append reader used more a h =
    ap (λ m. m >>= λ p. ok ((p.0, take (length (used ++ more) - length p.1) (used ++ more)), p.1)) h
    ∙ ap (λ t. ok ((a, t), more)) (front used more)

pub spanned-parts {ℓ} :
    {A : Type ℓ} (reader : Reader A) (b : Bytes) (a : A) (span rest : Bytes)
    → IsPrefix reader
    → spanned reader b ≡ ok ((a, span), rest)
    → (b ≡ span ++ rest) × ((more : Bytes) → spanned reader (span ++ more) ≡ ok ((a, span), more))
spanned-parts reader b a span rest hr h =
    let (p, e, k) = >>=-eq-ok (reader b) (λ p. ok ((p.0, take (length b - length p.1) b), p.1)) h in
    let (used, split, again) = hr b p.0 p.1 e in
    let same = ok-inj k in
    let value : p.0 ≡ a = ap (λ q. q.0.0) same in
    let left : p.1 ≡ rest = ap (λ q. q.1) same in
    let taken : take (length b - length p.1) b ≡ span = ap (λ q. q.0.1) same in
    let whole : used ≡ span =
      sym (front used p.1) ∙ ap (λ t. take (length t - length p.1) t) (sym split) ∙ taken in
    (
      split ∙ ap (λ t. t ++ p.1) whole ∙ ap (λ t. span ++ t) left,
      λ more.
          spanned-append reader span more a
            (ap (λ t. reader (t ++ more)) (sym whole) ∙ again more ∙ ap (λ t. ok (t, more)) value),
    )

pub spanned-IsPrefix {ℓ} :
    {A : Type ℓ} (reader : Reader A) → IsPrefix reader → IsPrefix (spanned reader)
spanned-IsPrefix reader hr b v rest h =
    let (split, again) = spanned-parts reader b v.0 v.1 rest hr h in (v.1, split, again)

pub repeat-IsPrefix {ℓ} :
    {A : Type ℓ} (n : ℕ) (reader : Reader A) → IsPrefix reader → IsPrefix (repeat n reader)
unfolding repeat
repeat-IsPrefix zero reader hr = return-IsPrefix []
repeat-IsPrefix (suc n) reader hr =
    then_read-IsPrefix reader (λ a. then_read (repeat n reader) (λ rest. return (a ∷ rest))) hr
      λ a.
        then_read-IsPrefix (repeat n reader) (λ rest. return (a ∷ rest))
          (repeat-IsPrefix n reader hr) λ rest. return-IsPrefix (a ∷ rest)

-- The spans of the values of a repetition, read again, give the same values.
pub repeat-again {ℓ} :
    {A : Type ℓ} (n : ℕ) (reader : Reader A) (b : Bytes) (vs : List (A × Bytes)) (rest : Bytes)
    → IsPrefix reader
    → repeat n (spanned reader) b ≡ ok (vs, rest)
    → (length vs ≡ n)
      × ((more : Bytes) → repeat n (spanned reader) (join (seconds vs) ++ more) ≡ ok (vs, more))
unfolding repeat
repeat-again zero reader b vs rest hr h =
    let none_read : [] ≡ vs = ap (λ p. p.0) (ok-inj h) in
    subst
      (λ t.
        (length t ≡ 0)
        × ((more : Bytes) → repeat 0 (spanned reader) (join (seconds t) ++ more) ≡ ok (t, more)))
      none_read (refl, λ more. refl)
repeat-again (suc n) reader b vs rest hr h =
    let (p, e, k) =
      >>=-eq-ok (spanned reader b)
        (λ p. then_read (repeat n (spanned reader)) (λ vs. return (p.0 ∷ vs)) p.1) h in
    let (q, e', k') = >>=-eq-ok (repeat n (spanned reader) p.1) (λ q. ok (p.0 ∷ q.0, q.1)) k in
    let whole : p.0 ∷ q.0 ≡ vs = ap (λ t. t.0) (ok-inj k') in
    let (_, again) = spanned-parts reader b p.0.0 p.0.1 p.1 hr e in
    let (size, others) = repeat-again n reader p.1 q.0 q.1 hr e' in
    subst
      (λ t.
        (length t ≡ suc n)
        × ((more : Bytes)
            → repeat (suc n) (spanned reader) (join (seconds t) ++ more) ≡ ok (t, more)))
      whole
      (
        ap suc size,
        λ more.
            ap (λ t. repeat (suc n) (spanned reader) t)
              (append_assoc p.0.1 (join (seconds q.0)) more)
            ∙ ap
                (λ m.
                  m >>= λ t. then_read (repeat n (spanned reader)) (λ vs. return (t.0 ∷ vs)) t.1)
                (again (join (seconds q.0) ++ more))
            ∙ ap (λ m. m >>= λ t. ok (p.0 ∷ t.0, t.1)) (others more),
      )

-- Readers that take some bytes.
rv_loop-Takes : (shift n : ℕ) → Takes 1 (rv_loop shift n)
unfolding rv_loop
rv_loop-Takes shift n [] a rest h = absurd (raise≢ok h)
rv_loop-Takes shift n (x ∷ b) a rest h = elim (Bool-cases (ltb 63 shift)) [
  | inl e ↦ absurd (raise≢ok (rw e at h))
  | inr e ↦ elim (Bool-cases (ltb x 128)) [
    | inl last ↦ omega (arith, ap (λ p. length p.1) (ok-inj (rw last at (rw e at h))))
    | inr inner ↦ omega (
      arith,
      rv_loop-Takes (shift + 7) (n + x % 128 * 2 ^ shift) b a rest (rw inner at (rw e at h)),
    )
  ]
]

pub rv-Takes : Takes 1 rv
unfolding rv
rv-Takes = rv_loop-Takes 0 0

pub then_read-Takes {ℓ κ} :
    {A : Type ℓ} {B : Type κ} (m n : ℕ) (first : Reader A) (next : A → Reader B)
    → Takes m first
    → ((a : A) → Takes n (next a))
    → Takes (m + n) (then_read first next)
then_read-Takes m n first next hf hn b v rest h =
    let (p, e, k) = >>=-eq-ok (first b) (λ p. next p.0 p.1) h in
    omega (arith, hf b p.0 p.1 e, hn p.0 p.1 v rest k)

-- Every prefix reader takes no byte or more.
pub IsPrefix-Takes {ℓ} : {A : Type ℓ} (reader : Reader A) → IsPrefix reader → Takes 0 reader
IsPrefix-Takes reader hr b a rest h =
    let (used, split, _) = hr b a rest h in omega (arith, ap length split, length-append used rest)
