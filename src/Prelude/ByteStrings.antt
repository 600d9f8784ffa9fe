-- ===== src/Prelude/ByteStrings.antt =====
-- Byte strings, and the big-endian fields of struct.pack.
use Prim.Native.Nat.{ℕ, zero, suc, ◌+◌, ◌-◌, ◌*◌, ◌/◌, ◌%◌, ◌^◌, ◌<◌}
use Prim.Native.Char.{code}
use Prim.Native.String.{String}
use mathlib.Core.Path.{◌≡◌, refl, ap, sym, ◌∙◌}
use mathlib.Core.Logic.{◌↔◌}
use mathlib.Core.Bool.{Bool, true, false, not, ◌&&◌, ◌||◌}
use mathlib.Core.List.{List, [], ◌∷◌, ◌++◌, map}
use mathlib.Core.Option.{Option, none, some}
use native.Mathlib.Omega.{arith}
use native.Mathlib.Nat.{pow-suc}
use core_drp.Prelude.Tests.{◌==◌, ltb, leb, if◌then◌else◌}
use core_drp.Prelude.Lists.{length, any, length-append, append-inj}

abbrev pub Bytes : Type 0
Bytes = List ℕ

-- The bytes of an ASCII literal.
abbrev pub codes : String → Bytes
codes String.[] = []
codes (String.◌∷◌ c s) = code c ∷ codes s

-- == on byte strings
abbrev pub bytes_eq : Bytes → Bytes → Bool
bytes_eq [] [] = true
bytes_eq [] (y ∷ ys) = false
bytes_eq (x ∷ xs) [] = false
bytes_eq (x ∷ xs) (y ∷ ys) = (x == y) && bytes_eq xs ys

pub bytes_eq→eq : (a b : Bytes) → bytes_eq a b ≡ true → a ≡ b
bytes_eq→eq [] [] h = refl
bytes_eq→eq [] (y ∷ ys) h = ground arith
bytes_eq→eq (x ∷ xs) [] h = ground arith
bytes_eq→eq (x ∷ xs) (y ∷ ys) h = ground (arith, bytes_eq→eq xs ys)

pub bytes_eq_refl : (a : Bytes) → bytes_eq a a ≡ true
bytes_eq_refl [] = refl
bytes_eq_refl (x ∷ xs) = ground (arith, bytes_eq_refl xs)

pub bytes_eq_iff : (a b : Bytes) → (bytes_eq a b ≡ true) ↔ (a ≡ b)
bytes_eq_iff a b = (bytes_eq→eq a b, λ e. ap (bytes_eq a) (sym e) ∙ bytes_eq_refl a)

-- Python's any(b) over a byte string: some byte is not zero.
abbrev pub nonzero : Bytes → Bool
nonzero = any (λ x. not (x == 0))

-- b''.join(xs)
abbrev pub join : List Bytes → Bytes
join [] = []
join (x ∷ xs) = x ++ join xs

-- Joined fields of the same lengths are equal field by field.
pub join-inj : (xs ys : List Bytes) → map length xs ≡ map length ys → join xs ≡ join ys → xs ≡ ys
join-inj [] [] h e = refl
join-inj [] (y ∷ ys) h e = cc
join-inj (x ∷ xs) [] h e = cc
join-inj (x ∷ xs) (y ∷ ys) h e =
    let heads : length x ≡ length y = ground arith in
    let tails : map length xs ≡ map length ys = ground arith in
    let parts = append-inj x y (join xs) (join ys) heads e in
    cc (parts.0, join-inj xs ys tails parts.1)

-- struct.pack of an unsigned field of w bytes, big-endian.
unfoldable pub be : ℕ → ℕ → Bytes
be zero n = []
be (suc w) n = be w (n / 256) ++ (n % 256) ∷ []

pub length-be : (w n : ℕ) → length (be w n) ≡ w
unfolding be
length-be zero n = refl
length-be (suc w) n =
    omega (arith, length-append (be w (n / 256)) ((n % 256) ∷ []), length-be w (n / 256))

-- A field that is wide enough determines its number.
pub be-inj : (w m n : ℕ) → m < 256 ^ w → n < 256 ^ w → be w m ≡ be w n → m ≡ n
unfolding be
be-inj zero m n hm hn e = omega arith
be-inj (suc w) m n hm hn e =
    let parts =
      append-inj (be w (m / 256)) (be w (n / 256)) ((m % 256) ∷ []) ((n % 256) ∷ [])
        (length-be w (m / 256) ∙ sym (length-be w (n / 256))) e in
    let high =
      be-inj w (m / 256) (n / 256) (omega (arith, pow-suc 256 w)) (omega (arith, pow-suc 256 w))
        parts.0 in
    let low : m % 256 ≡ n % 256 = ground (arith, parts.1) in omega arith

-- int.from_bytes(b,'big'), on top of what stands before b.
abbrev pub from_be_after : ℕ → Bytes → ℕ
from_be_after acc [] = acc
from_be_after acc (x ∷ xs) = from_be_after (acc * 256 + x) xs

abbrev pub from_be : Bytes → ℕ
from_be = from_be_after 0

from_be_after-append :
    (acc : ℕ) (xs : Bytes) (x : ℕ)
    → from_be_after acc (xs ++ x ∷ []) ≡ from_be_after acc xs * 256 + x
from_be_after-append acc [] x = refl
from_be_after-append acc (y ∷ ys) x = from_be_after-append (acc * 256 + y) ys x

-- A field that is wide enough is read back.
pub from_be-be : (w n : ℕ) → n < 256 ^ w → from_be (be w n) ≡ n
unfolding be
from_be-be zero n h = omega arith
from_be-be (suc w) n h =
    rw (from_be_after-append 0 (be w (n / 256)) (n % 256))
      (omega (arith, from_be-be w (n / 256) (omega (arith, pow-suc 256 w))))

-- bytes.hex
abbrev pub hex_digit : ℕ → ℕ
hex_digit d = if ltb d 10 then d + 48 else d + 87

abbrev pub hex : Bytes → Bytes
hex [] = []
hex (x ∷ xs) = hex_digit (x / 16) ∷ hex_digit (x % 16) ∷ hex xs

-- The value of a hexadecimal digit of either case.
abbrev pub digit_value : ℕ → Option ℕ
digit_value c =
    if leb 48 c && leb c 57
    then some (c - 48)
    else if leb 97 c && leb c 102
    then some (c - 87)
    else if leb 65 c && leb c 70
    then some (c - 55)
    else none

-- bytes.fromhex passes over ASCII white space between the pairs.
abbrev pub is_space : ℕ → Bool
is_space c = (leb 9 c && leb c 13) || (c == 32)

abbrev pair_value : Option ℕ → Option ℕ → Option Bytes → Option Bytes
pair_value (some a) (some b) (some rest) = some ((a * 16 + b) ∷ rest)
pair_value _ _ _ = none

-- bytes.fromhex; `none` is its ValueError.
unfoldable pub from_hex : Bytes → Option Bytes
from_hex [] = some []
from_hex (x ∷ []) = if is_space x then some [] else none
from_hex (x ∷ y ∷ r) =
    let skipped = from_hex (y ∷ r) in
    let paired = pair_value (digit_value x) (digit_value y) (from_hex r) in
    if is_space x then skipped else paired

abbrev pub IsBytes : Bytes → Type 0
IsBytes [] = Unit
IsBytes (x ∷ xs) = (x < 256) × IsBytes xs

pub from_hex-hex : (b : Bytes) → IsBytes b → from_hex (hex b) ≡ some b
unfolding from_hex
from_hex-hex [] h = refl
from_hex-hex (x ∷ xs) h = ground (arith, from_hex-hex xs h.1)

pub length-hex : (b : Bytes) → length (hex b) ≡ 2 * length b
length-hex [] = refl
length-hex (x ∷ xs) = omega (arith, length-hex xs)

pub IsBytes-append : (a b : Bytes) → IsBytes a → IsBytes b → IsBytes (a ++ b)
IsBytes-append [] b ha hb = hb
IsBytes-append (x ∷ a) b ha hb = (ha.0, IsBytes-append a b ha.1 hb)

pub be-IsBytes : (w n : ℕ) → IsBytes (be w n)
unfolding be
be-IsBytes zero n = tt
be-IsBytes (suc w) n =
    IsBytes-append (be w (n / 256)) (n % 256 ∷ []) (be-IsBytes w (n / 256)) (omega arith, tt)

abbrev pub AllBytes : List Bytes → Type 0
AllBytes [] = Unit
AllBytes (b ∷ bs) = IsBytes b × AllBytes bs

pub join-IsBytes : (bs : List Bytes) → AllBytes bs → IsBytes (join bs)
join-IsBytes [] h = tt
join-IsBytes (b ∷ bs) h = IsBytes-append b (join bs) h.0 (join-IsBytes bs h.1)
