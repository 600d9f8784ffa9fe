-- ===== src/Finance/Binary64.antt =====
-- tools/financial_semantics.py, binary64 and round_binary64: doubles as exact fractions. A text of
-- hexadecimal digits is its length and the number that int(bits,16) reads in it.
use core_drp.Prelude.{
  ℕ, zero, suc, ◌+◌, ◌-◌, ◌*◌, ◌/◌, ◌%◌, ◌^◌, not, ◌&&◌, ◌||◌, if◌then◌else◌, ltb, leb, ◌==◌,
}
use core_drp.Prelude.Int.{ℤ, pos, negsuc, pos_part, ◌+ℤ◌, ◌-ℤ◌, max_ℤ}
use core_drp.Result.{Result, ok, raise, value_error}
use core_drp.Finance.{Fraction, frac, mul, over, ltb_frac, leb_frac}

pub record Bits : Type 0 where
  pub width : ℕ
  pub value : ℕ

-- Fraction(2)**e
abbrev pub power : ℤ → Fraction
power (pos n) = frac (2 ^ n) 1
power (negsuc n) = frac 1 (2 ^ (n + 1))

-- The fields of a double.
abbrev pub exponent_of : ℕ → ℕ
exponent_of n = n / 2 ^ 52 % 2048

abbrev pub significand_of : ℕ → ℕ
significand_of n = n % 2 ^ 52

abbrev pub double_value : ℕ → ℕ → Fraction
double_value exponent significand =
    if exponent == 0
    then mul (frac significand 1) (power (negsuc 1073))
    else mul (frac (significand + 2 ^ 52) 1) (power (pos exponent -ℤ pos 1075))

-- The source's binary64.
unfoldable pub binary64 : Bits → Result Fraction
binary64 bits =
    let n = bits.value in
    let value = double_value (exponent_of n) (significand_of n) in
    if not (bits.width == 16) || leb (2 ^ 63) n || exponent_of n == 2047
    then raise value_error
    else if value.num == 0
    then raise value_error
    else ok value

-- n.bit_length(), for a number of at most `fuel` bits; n bits are always enough.
bits_in : ℕ → ℕ → ℕ
bits_in zero n = 0
bits_in (suc fuel) n = let more = bits_in fuel (n / 2) + 1 in if n == 0 then 0 else more

unfoldable pub bit_length : ℕ → ℕ
unfolding bits_in
bit_length n = bits_in n n

-- The exponent of the greatest power of two that is not above x.
unfoldable pub floor_log : Fraction → ℤ
unfolding bit_length ◌-ℤ◌
floor_log x =
    let e = pos (bit_length x.num) -ℤ pos (bit_length x.den) in
    if ltb_frac x (power e) then e -ℤ pos 1 else e

-- The nearest whole number, and the even one of two that are as near.
abbrev pub round_even : ℕ → ℕ → ℕ
round_even n d =
    let r = n % d in n / d + (if ltb d (2 * r) || (2 * r == d && n / d % 2 == 1) then 1 else 0)

-- The double that stands for a fraction below 2**1024.
unfoldable pub encode64 : Fraction → ℕ
unfolding floor_log ◌+ℤ◌ ◌-ℤ◌
encode64 result =
    let e = floor_log result in
    let low = mul result (power (pos 1074)) in
    let high = over result (power (e -ℤ pos 52)) in
    if ltb_frac result (power (negsuc 1021))
    then low.num / low.den
    else pos_part (e +ℤ pos 1023) * 2 ^ 52 + (high.num / high.den - 2 ^ 52)

-- The source's round_binary64, its result as a number.
unfoldable pub round_binary64 : Fraction → Result Bits
unfolding floor_log encode64 ◌-ℤ◌
round_binary64 x =
    let shift = power (max_ℤ (floor_log x -ℤ pos 52) (negsuc 1073)) in
    let scaled = over x shift in
    let result = mul (frac (round_even scaled.num scaled.den) 1) shift in
    if x.num == 0
    then raise value_error
    else if result.num == 0 || leb_frac (frac (2 ^ 1024) 1) result
    then raise value_error
    else ok (record { width = 16; value = encode64 result })
