-- ===== src/Cbor/Float.antt =====
-- The floats of crates/ledger-format/src/cbor/encode.rs, as their bits: the conversions written there
-- and the casts and comparisons of Rust that they use.
-- A cast of a NaN gives a quiet NaN of the same sign; Rust leaves the payload open, and no canonical
-- path reads it.
pub mod Bounds
use ldgr.Prelude.{
  ℕ, zero, suc, ◌+◌, ◌-◌, ◌*◌, ◌/◌, ◌%◌, ◌^◌, min, Bool, not, ◌&&◌, ◌||◌, Option, none, some, ltb,
  leb, ◌==◌, if◌then◌else◌,
}

-- `f64::is_nan`, and `value.is_sign_negative() && value == 0.0`.
unfoldable pub is_nan : ℕ → Bool
is_nan bits = ltb (2047 * 2 ^ 52) (bits % 2 ^ 63)

unfoldable pub is_negative_zero : ℕ → Bool
is_negative_zero bits = bits == 2 ^ 63

-- The same of an `f32`.
unfoldable pub is_nan_single : ℕ → Bool
is_nan_single bits = ltb (255 * 2 ^ 23) (bits % 2 ^ 31)

unfoldable pub is_negative_zero_single : ℕ → Bool
is_negative_zero_single bits = bits == 2 ^ 31

-- `==` of two `f64`.
unfoldable pub float_eq : ℕ → ℕ → Bool
unfolding is_nan
float_eq a b =
    not (is_nan a) && (not (is_nan b) && (a == b || (a % 2 ^ 63 == 0 && b % 2 ^ 63 == 0)))

-- The position of the highest bit, below 64.
highest_bit : ℕ → ℕ → ℕ
highest_bit zero m = 0
highest_bit (suc fuel) m = let rest = highest_bit fuel (m / 2) in if ltb m 2 then 0 else suc rest

-- The double `m * 2 ^ (e - 1023)` with its sign bit, for an `m` below 2 ^ 53: always exact.
scaled : ℕ → ℕ → ℕ → ℕ
unfolding highest_bit
scaled sign e m =
    let k = highest_bit 64 m in
    if m == 0 then sign * 2 ^ 63 else sign * 2 ^ 63 + (k + e) * 2 ^ 52 + (m - 2 ^ k) * 2 ^ (52 - k)

-- `x as f64` of an `f32`.
unfoldable pub widen : ℕ → ℕ
unfolding scaled
widen bits =
    let sign = bits / 2 ^ 31 in
    let exp = bits / 2 ^ 23 % 256 in
    let mant = bits % 2 ^ 23 in
    if exp == 255
    then sign * 2 ^ 63 + 2047 * 2 ^ 52 + (if mant == 0 then 0 else 2 ^ 51 + mant % 2 ^ 22 * 2 ^ 29)
    else if exp == 0
    then scaled sign 874 mant
    else sign * 2 ^ 63 + (exp + 896) * 2 ^ 52 + mant * 2 ^ 29

-- `x / 2 ^ k`, rounded to the nearest, ties to even.
round_even : ℕ → ℕ → ℕ
round_even x k =
    let q = x / 2 ^ k in
    let r = x % 2 ^ k in
    let half = 2 ^ (k - 1) in if ltb half r || (r == half && q % 2 == 1) then q + 1 else q

-- `x as f32` of an `f64`; a carry out of the mantissa goes into the exponent.
unfoldable pub narrow : ℕ → ℕ
unfolding round_even
narrow bits =
    let sign = bits / 2 ^ 63 in
    let exp = bits / 2 ^ 52 % 2048 in
    let mant = bits % 2 ^ 52 in
    if exp == 2047
    then sign * 2 ^ 31 + 255 * 2 ^ 23 + (if mant == 0 then 0 else 2 ^ 22 + mant % 2 ^ 51 / 2 ^ 29)
    else if ltb 896 exp
    then sign * 2 ^ 31 + min ((exp - 896) * 2 ^ 23 + round_even mant 29) (255 * 2 ^ 23)
    else sign * 2 ^ 31 + round_even (2 ^ 52 + mant) (926 - exp)

-- `f32_bits_to_f16` for a normal and for a subnormal half. `exp16` of the source is `exp - 112`, and may
-- be negative; `a | b` is `a + b` where the bits of the two are apart.
half_normal : ℕ → ℕ → ℕ → ℕ
half_normal sign exp mant =
    let m16 = mant / 2 ^ 13 in
    let round_bit = mant / 2 ^ 12 % 2 in
    let sticky = mant % 2 ^ 12 in
    if round_bit == 1 && (not (sticky == 0) || m16 % 2 == 1)
    then if m16 + 1 == 0x400
      then sign + (exp - 112 + 1) * 2 ^ 10
      else sign + (exp - 112) * 2 ^ 10 + (m16 + 1)
    else sign + (exp - 112) * 2 ^ 10 + m16

half_subnormal : ℕ → ℕ → ℕ → ℕ
half_subnormal sign shift mant =
    let full = 2 ^ 23 + mant in
    let m16 = full / 2 ^ shift in
    let round_bit = full / 2 ^ (shift - 1) % 2 in
    let sticky = full % 2 ^ (shift - 1) in
    if leb 25 shift
    then sign
    else if round_bit == 1 && (not (sticky == 0) || m16 % 2 == 1)
    then sign + (m16 + 1)
    else sign + m16

unfoldable pub f32_bits_to_f16 : ℕ → ℕ
unfolding half_normal half_subnormal
f32_bits_to_f16 bits =
    let sign = bits / 2 ^ 31 % 2 * 2 ^ 15 in
    let exp = bits / 2 ^ 23 % 256 in
    let mant = bits % 2 ^ 23 in
    if exp == 255
    then sign + 0x7c00 + (if mant == 0 then 0 else 1)
    else if leb 143 exp
    then sign + 0x7c00
    else if ltb 112 exp
    then half_normal sign exp mant
    else half_subnormal sign (126 - exp) mant

-- Every product and sum of the source is exact, so the value is `mant` or `(1024 + mant) * 2 ^ (exp - 1)`
-- units of 2 ^ -24.
unfoldable pub f16_bits_to_f64 : ℕ → ℕ
unfolding scaled
f16_bits_to_f64 bits =
    let sign = bits / 2 ^ 15 % 2 in
    let exp = bits / 2 ^ 10 % 32 in
    let mant = bits % 2 ^ 10 in
    if exp == 0
    then scaled sign 999 mant
    else if exp == 31
    then sign * 2 ^ 63 + 2047 * 2 ^ 52 + (if mant == 0 then 0 else 2 ^ 51)
    else scaled sign 999 ((1024 + mant) * 2 ^ (exp - 1))

unfoldable pub value_round_trips_as_f16 : ℕ → Option ℕ
value_round_trips_as_f16 value =
    let half_bits = f32_bits_to_f16 (narrow value) in
    if float_eq (widen (narrow value)) value
    then if float_eq (f16_bits_to_f64 half_bits) value then some half_bits else none
    else none
