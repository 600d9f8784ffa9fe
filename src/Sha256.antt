-- ===== src/Sha256.antt =====
-- SHA-256 (FIPS 180-4) over byte strings, as Python's hashlib computes it.
use Prim.Native.Nat.{bit_and, bit_xor}
use core_drp.Prelude.{
  ℕ, zero, suc, ◌+◌, ◌-◌, ◌*◌, ◌/◌, ◌%◌, ◌^◌, ◌≡◌, refl, List, [], ◌∷◌, ◌++◌, arith, Bytes, be,
  length, length-append, length-be, take, drop, replicate, codes, IsBytes, be-IsBytes, join-IsBytes,
}

abbrev Words : Type 0
Words = List ℕ

abbrev w32 : ℕ
w32 = 2 ^ 32

-- The working variables a to h, and the chaining value.
record State : Type 0 where
  a : ℕ
  b : ℕ
  c : ℕ
  d : ℕ
  e : ℕ
  f : ℕ
  g : ℕ
  h : ℕ

rotr : ℕ → ℕ → ℕ
rotr x n = x / 2 ^ n + x * 2 ^ (32 - n) % w32

big0 : ℕ → ℕ
unfolding rotr
big0 x = bit_xor (rotr x 2) (bit_xor (rotr x 13) (rotr x 22))

big1 : ℕ → ℕ
unfolding rotr
big1 x = bit_xor (rotr x 6) (bit_xor (rotr x 11) (rotr x 25))

small0 : ℕ → ℕ
unfolding rotr
small0 x = bit_xor (rotr x 7) (bit_xor (rotr x 18) (x / 2 ^ 3))

small1 : ℕ → ℕ
unfolding rotr
small1 x = bit_xor (rotr x 17) (bit_xor (rotr x 19) (x / 2 ^ 10))

ch : ℕ → ℕ → ℕ → ℕ
ch x y z = bit_xor (bit_and x y) (bit_and (w32 - 1 - x) z)

maj : ℕ → ℕ → ℕ → ℕ
maj x y z = bit_xor (bit_and x y) (bit_xor (bit_and x z) (bit_and y z))

round : ℕ → ℕ → State → State
unfolding big0 big1 ch maj
round k w s =
    let t1 = s.h + big1 s.e + ch s.e s.f s.g + k + w in
    let t2 = big0 s.a + maj s.a s.b s.c in
    record {
      a = (t1 + t2) % w32;
      b = s.a;
      c = s.b;
      d = s.c;
      e = (s.d + t1) % w32;
      f = s.e;
      g = s.f;
      h = s.g;
    }

-- The message schedule keeps the last sixteen words.
next_words : Words → Words
unfolding small0 small1
next_words
      (w0 ∷ w1 ∷ w2 ∷ w3 ∷ w4 ∷ w5 ∷ w6 ∷ w7 ∷ w8 ∷ w9 ∷ w10 ∷ w11 ∷ w12 ∷ w13 ∷ w14 ∷ w15 ∷ []) =
    w1
    ∷ w2
    ∷ w3
    ∷ w4
    ∷ w5
    ∷ w6
    ∷ w7
    ∷ w8
    ∷ w9
    ∷ w10
    ∷ w11
    ∷ w12
    ∷ w13
    ∷ w14
    ∷ w15
    ∷ ((small1 w14 + w9 + small0 w1 + w0) % w32)
    ∷ []
next_words ws = ws

-- The round constants: the fractional parts of the cube roots of the first 64 primes.
abbrev constants : Words
constants =
    0x428a2f98 ∷ 0x71374491 ∷ 0xb5c0fbcf ∷ 0xe9b5dba5 ∷ 0x3956c25b ∷ 0x59f111f1 ∷ 0x923f82a4
    ∷ 0xab1c5ed5 ∷ 0xd807aa98 ∷ 0x12835b01 ∷ 0x243185be ∷ 0x550c7dc3 ∷ 0x72be5d74 ∷ 0x80deb1fe
    ∷ 0x9bdc06a7 ∷ 0xc19bf174 ∷ 0xe49b69c1 ∷ 0xefbe4786 ∷ 0x0fc19dc6 ∷ 0x240ca1cc ∷ 0x2de92c6f
    ∷ 0x4a7484aa ∷ 0x5cb0a9dc ∷ 0x76f988da ∷ 0x983e5152 ∷ 0xa831c66d ∷ 0xb00327c8 ∷ 0xbf597fc7
    ∷ 0xc6e00bf3 ∷ 0xd5a79147 ∷ 0x06ca6351 ∷ 0x14292967 ∷ 0x27b70a85 ∷ 0x2e1b2138 ∷ 0x4d2c6dfc
    ∷ 0x53380d13 ∷ 0x650a7354 ∷ 0x766a0abb ∷ 0x81c2c92e ∷ 0x92722c85 ∷ 0xa2bfe8a1 ∷ 0xa81a664b
    ∷ 0xc24b8b70 ∷ 0xc76c51a3 ∷ 0xd192e819 ∷ 0xd6990624 ∷ 0xf40e3585 ∷ 0x106aa070 ∷ 0x19a4c116
    ∷ 0x1e376c08 ∷ 0x2748774c ∷ 0x34b0bcb5 ∷ 0x391c0cb3 ∷ 0x4ed8aa4a ∷ 0x5b9cca4f ∷ 0x682e6ff3
    ∷ 0x748f82ee ∷ 0x78a5636f ∷ 0x84c87814 ∷ 0x8cc70208 ∷ 0x90befffa ∷ 0xa4506ceb ∷ 0xbef9a3f7
    ∷ 0xc67178f2 ∷ []

abbrev initial : State
initial = record {
  a = 0x6a09e667;
  b = 0xbb67ae85;
  c = 0x3c6ef372;
  d = 0xa54ff53a;
  e = 0x510e527f;
  f = 0x9b05688c;
  g = 0x1f83d9ab;
  h = 0x5be0cd19;
}

head_word : Words → ℕ
head_word [] = 0
head_word (w ∷ ws) = w

rounds : Words → Words → State → State
unfolding round next_words head_word
rounds [] ws s = s
rounds (k ∷ ks) ws s = rounds ks (next_words ws) (round k (head_word ws) s)

compress : State → Words → State
unfolding rounds
compress s ws =
    let r = rounds constants ws s in
    record {
      a = (s.a + r.a) % w32;
      b = (s.b + r.b) % w32;
      c = (s.c + r.c) % w32;
      d = (s.d + r.d) % w32;
      e = (s.e + r.e) % w32;
      f = (s.f + r.f) % w32;
      g = (s.g + r.g) % w32;
      h = (s.h + r.h) % w32;
    }

words : Bytes → Words
words (x ∷ y ∷ z ∷ t ∷ bs) = (x * 2 ^ 24 + y * 2 ^ 16 + z * 2 ^ 8 + t) ∷ words bs
words bs = []

-- One compression for each 16 words; the fuel is the number of words.
blocks : ℕ → Words → State → State
unfolding compress
blocks zero ws s = s
blocks (suc n) [] s = s
blocks (suc n) (w ∷ ws) s = blocks n (drop 15 ws) (compress s (w ∷ take 15 ws))

padded : Bytes → Bytes
unfolding be
padded m = m ++ 0x80 ∷ (replicate ((119 - length m % 64) % 64) 0 ++ be 8 (8 * length m))

output : State → Bytes
output s =
    be 4 s.a ++ be 4 s.b ++ be 4 s.c ++ be 4 s.d ++ be 4 s.e ++ be 4 s.f ++ be 4 s.g ++ be 4 s.h

-- hashlib.sha256(m).digest()
unfoldable pub sha256 : Bytes → Bytes
unfolding be output blocks words padded
sha256 m = let ws = words (padded m) in output (blocks (length ws) ws initial)

length-output : (s : State) → length (output s) ≡ 32
unfolding output
length-output s = simp (length-append, length-be) (omega arith)

pub length-sha256 : (m : Bytes) → length (sha256 m) ≡ 32
unfolding sha256
length-sha256 m = let ws = words (padded m) in length-output (blocks (length ws) ws initial)

output-IsBytes : (s : State) → IsBytes (output s)
unfolding output be
output-IsBytes s =
    join-IsBytes
      (be 4 s.a ∷ be 4 s.b ∷ be 4 s.c ∷ be 4 s.d ∷ be 4 s.e ∷ be 4 s.f ∷ be 4 s.g ∷ be 4 s.h ∷ [])
      (
        be-IsBytes 4 s.a,
        (
          be-IsBytes 4 s.b,
          (
            be-IsBytes 4 s.c,
            (
              be-IsBytes 4 s.d,
              (be-IsBytes 4 s.e, (be-IsBytes 4 s.f, (be-IsBytes 4 s.g, (be-IsBytes 4 s.h, tt)))),
            ),
          ),
        ),
      )

pub sha256-IsBytes : (m : Bytes) → IsBytes (sha256 m)
unfolding sha256
sha256-IsBytes m = let ws = words (padded m) in output-IsBytes (blocks (length ws) ws initial)

-- The published digest of the three bytes "abc".
sha256_abc :
    sha256 (codes "abc")
    ≡ be 4 0xba7816bf
      ++ be 4 0x8f01cfea
      ++ be 4 0x414140de
      ++ be 4 0x5dae2223
      ++ be 4 0xb00361a3
      ++ be 4 0x96177a9c
      ++ be 4 0xb410ff61
      ++ be 4 0xf20015ad
unfolding sha256 be
sha256_abc = refl
