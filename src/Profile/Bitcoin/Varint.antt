-- ===== src/Profile/Bitcoin/Varint.antt =====
-- rv reads back what ev writes (tools/verify_profile_vectors.py).
use native.Mathlib.Nat.{div-add-mod, pow-suc, mul-le-mul_right, pow-le-pow_right}
use native.Mathlib.Numerals.{towards_suc}
use core_drp.Prelude.{
  ℕ, zero, suc, ◌+◌, ◌*◌, ◌/◌, ◌%◌, ◌^◌, ◌≤◌, ◌<◌, ◌≡◌, ap, ◌∙◌, Bool-cases, inl, inr, arith, ltb,
  ◌==◌, [], ◌∷◌, ◌++◌, Bytes,
}
use core_drp.Result.{ok, ok-inj, raise≢ok}
use core_drp.Profile.Bitcoin.{rv_loop, rv, ev_loop, ev}

shift_seven : (s : ℕ) → 2 ^ (s + 7) ≡ 128 * 2 ^ s
shift_seven s = simp towards_suc (omega arith)

-- The lowest group of a number and the rest, shifted.
split_group : (n s : ℕ) → n % 128 * 2 ^ s + n / 128 * 2 ^ (s + 7) ≡ n * 2 ^ s
split_group n s = omega (
  arith,
  ap (λ (t : ℕ). t * 2 ^ s) (div-add-mod n 128),
  ap (λ (t : ℕ). n / 128 * t) (shift_seven s),
)

last_group :
    (shift acc x : ℕ) (rest : Bytes)
    → shift ≤ 63
    → x < 128
    → rv_loop shift acc (x ∷ rest) ≡ ok (acc + x % 128 * 2 ^ shift, rest)
unfolding rv_loop
last_group shift acc x rest h small = ground arith

inner_group :
    (shift acc x : ℕ) (rest : Bytes)
    → shift ≤ 63
    → 128 ≤ x
    → rv_loop shift acc (x ∷ rest) ≡ rv_loop (shift + 7) (acc + x % 128 * 2 ^ shift) rest
unfolding rv_loop
inner_group shift acc x rest h large = ground arith

-- A group with more behind it, where what is behind is read.
more_groups :
    (k f n shift acc : ℕ) (rest : Bytes)
    → n < 128 ^ suc k
    → shift + 7 * k ≤ 63
    → 1 ≤ n / 128
    → ((j : ℕ)
        → n / 128 < 128 ^ suc j
        → shift + 7 + 7 * j ≤ 63
        → rv_loop (shift + 7) (acc + n % 128 * 2 ^ shift) (ev_loop f (n / 128) ++ rest)
          ≡ ok (acc + n % 128 * 2 ^ shift + n / 128 * 2 ^ (shift + 7), rest))
    → rv_loop shift acc ((n % 128 + 128) ∷ (ev_loop f (n / 128) ++ rest))
      ≡ ok (acc + n * 2 ^ shift, rest)
more_groups zero f n shift acc rest hn hs more ih = absurd (omega arith)
more_groups (suc j) f n shift acc rest hn hs more ih =
    let low : (n % 128 + 128) % 128 ≡ n % 128 = omega arith in
    inner_group shift acc (n % 128 + 128) (ev_loop f (n / 128) ++ rest) (omega arith) (omega arith)
    ∙ ap (λ (t : ℕ). rv_loop (shift + 7) (acc + t * 2 ^ shift) (ev_loop f (n / 128) ++ rest)) low
    ∙ ih j (omega (arith, pow-suc 128 (suc j))) (omega arith)
    ∙ ap (λ (t : ℕ). ok (t, rest)) (omega (arith, split_group n shift))

-- What is left to be read counts from the shift on, and has k groups after the first.
rv_loop-ev_loop :
    (k f n shift acc : ℕ) (rest : Bytes)
    → n < f
    → n < 128 ^ suc k
    → shift + 7 * k ≤ 63
    → rv_loop shift acc (ev_loop f n ++ rest) ≡ ok (acc + n * 2 ^ shift, rest)
unfolding ev_loop
rv_loop-ev_loop k zero n shift acc rest hf hn hs = absurd (omega arith)
rv_loop-ev_loop k (suc f) n shift acc rest hf hn hs = elim (Bool-cases (n / 128 == 0)) [
  | inl e ↦
      let small : n % 128 % 128 ≡ n = ground arith in
      rw e (
        last_group shift acc (n % 128) rest (omega arith) (omega arith)
        ∙ ap (λ (t : ℕ). ok (acc + t * 2 ^ shift, rest)) small)
  | inr e ↦ rw e (
      more_groups k f n shift acc rest hn hs (ground arith) (λ j h room.
        rv_loop-ev_loop j f (n / 128) (shift + 7) (acc + n % 128 * 2 ^ shift) rest (ground arith) h
          room))
]

-- rv reads back a number below 2**70 that ev wrote, and leaves what stands behind it.
pub rv-ev : (n : ℕ) (rest : Bytes) → n < 2 ^ 70 → rv (ev n ++ rest) ≡ ok (n, rest)
unfolding rv ev
rv-ev n rest h =
    rv_loop-ev_loop 9 (suc n) n 0 0 rest (omega arith) (omega arith) (omega arith)
    ∙ ap (λ (t : ℕ). ok (t, rest)) (omega arith)

rv_loop-lt :
    (shift n : ℕ) (b : Bytes) (v : ℕ) (rest : Bytes)
    → n < 2 ^ shift
    → rv_loop shift n b ≡ ok (v, rest)
    → v < 2 ^ 70
unfolding rv_loop
rv_loop-lt shift n [] v rest hn h = absurd (raise≢ok h)
rv_loop-lt shift n (x ∷ b) v rest hn h =
    let n' = n + x % 128 * 2 ^ shift in
    let next : n' < 2 ^ (shift + 7) =
      let digit : x % 128 ≤ 127 = omega arith in
      omega (arith, shift_seven shift, mul-le-mul_right (2 ^ shift) digit) in
    elim (Bool-cases (ltb 63 shift)) [
      | inl e ↦ absurd (raise≢ok (rw e at h))
      | inr e ↦ elim (Bool-cases (ltb x 128)) [
        | inl last ↦
            let value : n' ≡ v = ap (λ p. p.0) (ok-inj (rw last at (rw e at h))) in
            let room : shift + 7 ≤ 70 = ground arith in
            let two : 0 < 2 = omega arith in omega (arith, next, value, pow-le-pow_right two room)
        | inr inner ↦ rv_loop-lt (shift + 7) n' b v rest next (rw inner at (rw e at h))
      ]
    ]

-- rv gives numbers below 2**70.
pub rv-lt : (b : Bytes) (v : ℕ) (rest : Bytes) → rv b ≡ ok (v, rest) → v < 2 ^ 70
unfolding rv
rv-lt b v rest h = rv_loop-lt 0 0 b v rest (omega arith) h
