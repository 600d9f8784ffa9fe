-- ===== src/Finance.antt =====
-- tools/financial_semantics.py, lines 9 to 25: fractions, and the canonical decimals of the
-- settlement policy. A text is the list of its bytes.
pub mod Digits
pub mod Effects
pub mod Allocation
pub mod Amounts
pub mod Settlement
pub mod Sorting
pub mod Binary64
pub mod Window
use core_drp.Prelude.{
  ℕ, zero, suc, ◌+◌, ◌-◌, ◌*◌, ◌/◌, ◌%◌, ◌^◌, ◌<◌, Bool, true, false, ◌&&◌, if◌then◌else◌, ltb, leb,
  ◌==◌, Option, none, some, List, [], ◌∷◌, ◌++◌, length, all, replicate, Bytes,
}
use core_drp.Result.{Result, ok, raise, value_error, ◌>>=◌, ◌>>◌}

-- A Fraction that is not negative. Python keeps it in lowest terms; here equal fractions may have
-- several forms, and every comparison is by cross-multiplication.
pub record Fraction : Type 0 where
  pub num : ℕ
  pub den : ℕ

abbrev pub frac : ℕ → ℕ → Fraction
frac n d = record { num = n; den = d }

abbrev pub add : Fraction → Fraction → Fraction
add x y = frac (x.num * y.den + y.num * x.den) (x.den * y.den)

-- x - y where y is at most x
abbrev pub minus : Fraction → Fraction → Fraction
minus x y = frac (x.num * y.den - y.num * x.den) (x.den * y.den)

abbrev pub mul : Fraction → Fraction → Fraction
mul x y = frac (x.num * y.num) (x.den * y.den)

-- x / y where y is not zero
abbrev pub over : Fraction → Fraction → Fraction
over x y = frac (x.num * y.den) (x.den * y.num)

abbrev pub ltb_frac : Fraction → Fraction → Bool
ltb_frac x y = ltb (x.num * y.den) (y.num * x.den)

abbrev pub leb_frac : Fraction → Fraction → Bool
leb_frac x y = leb (x.num * y.den) (y.num * x.den)

abbrev pub eq_frac : Fraction → Fraction → Bool
eq_frac x y = (x.num * y.den) == (y.num * x.den)

abbrev pub min_frac : Fraction → Fraction → Fraction
min_frac x y = if ltb_frac y x then y else x

abbrev pub is_digit : ℕ → Bool
is_digit c = leb 48 c && leb c 57

abbrev pub from_digits_after : ℕ → Bytes → ℕ
from_digits_after acc [] = acc
from_digits_after acc (c ∷ cs) = from_digits_after (acc * 10 + (c - 48)) cs

-- int(s) of a text of digits
abbrev pub from_digits : Bytes → ℕ
from_digits = from_digits_after 0

-- 0|[1-9][0-9]{0,13}
abbrev pub is_whole : Bytes → Bool
is_whole [] = false
is_whole (c ∷ cs) =
    if c == 48
    then length cs == 0
    else leb 49 c && leb c 57 && all is_digit cs && leb (length cs) 13

-- [0-9]*[1-9]
abbrev pub ends_nonzero : Bytes → Bool
ends_nonzero [] = false
ends_nonzero (c ∷ []) = leb 49 c && leb c 57
ends_nonzero (c ∷ d ∷ ds) = is_digit c && ends_nonzero (d ∷ ds)

-- [0-9]{0,23}[1-9]
abbrev pub is_part : Bytes → Bool
is_part cs = leb (length cs) 24 && ends_nonzero cs

-- The text before the first point, and the text after it where there is one.
abbrev pub split_point : Bytes → Bytes × Option Bytes
split_point [] = ([], none)
split_point (c ∷ cs) =
    let rest = split_point cs in if c == 46 then ([], some cs) else (c ∷ rest.0, rest.1)

-- DEC.fullmatch, len(s.replace('.','')) and Fraction(s), on the two parts of the text
abbrev pub read_parts : Bytes → Option Bytes → Result Fraction
read_parts w none =
    if is_whole w && leb (length w) 38 then ok (frac (from_digits w) 1) else raise value_error
read_parts w (some p) =
    if is_whole w && is_part p && leb (length w + length p) 38
    then ok (frac (from_digits w * 10 ^ length p + from_digits p) (10 ^ length p))
    else raise value_error

-- The source's decimal; the type test on its argument has no counterpart here.
unfoldable pub decimal : Bytes → Result Fraction
decimal s = let parts = split_point s in read_parts parts.0 parts.1

-- str(n) in at most `fuel` digits; n + 1 digits are always enough.
unfoldable pub digits : ℕ → ℕ → Bytes
digits zero n = []
digits (suc fuel) n =
    let more = digits fuel (n / 10) ++ (n % 10 + 48) ∷ [] in
    if ltb n 10 then (n + 48) ∷ [] else more

-- str(n)
unfoldable pub str : ℕ → Bytes
unfolding digits
str n = digits (suc n) n

-- s.zfill(w)
abbrev pub zfill : ℕ → Bytes → Bytes
zfill w s = replicate (w - length s) 48 ++ s

abbrev pub strip_onto : ℕ → Bytes → Bytes
strip_onto c [] = if c == 48 then [] else c ∷ []
strip_onto c (d ∷ ds) = c ∷ d ∷ ds

-- s.rstrip('0')
abbrev pub rstrip : Bytes → Bytes
rstrip [] = []
rstrip (c ∷ cs) = strip_onto c (rstrip cs)

-- The text of n / 10**24.
unfoldable pub atoms_text : ℕ → Bytes
unfolding str
atoms_text n =
    str (n / 10 ^ 24)
    ++ (if n % 10 ^ 24 == 0 then [] else 46 ∷ rstrip (zfill 24 (str (n % 10 ^ 24))))

-- The number of whole units of 10**-24 in a fraction.
abbrev pub atoms : Fraction → ℕ
atoms x = x.num * 10 ^ 24 / x.den

-- The source's amount, of a fraction that is not negative: it is cut to 24 places.
unfoldable pub amount : Fraction → Result Bytes
unfolding atoms_text decimal
amount x = let s = atoms_text (atoms x) in decimal s >> ok s
