-- ===== src/Cbor/Float/Bounds.antt =====
-- The float conversions stay within their widths, and a comparison that succeeds fixes the bits.
use ldgr.Prelude.{ℕ, ◌+◌, ◌-◌, ◌*◌, ◌/◌, ◌%◌, ◌^◌, ◌≤◌, ◌<◌, ◌≡◌, true, false, ◌⊎◌, arith, ◌==◌}
use native.Mathlib.Nat.{pow-le-pow_right}
use ldgr.Cbor.Float.{
  is_nan, is_negative_zero, is_nan_single, float_eq, narrow, widen, round_even, half_normal,
  half_subnormal, f32_bits_to_f16,
}

div_pow_lt : (x k j m : ℕ) → j ≤ k → x < m * 2 ^ j → x / 2 ^ k < m
div_pow_lt x k j m h l = let more : 2 ^ j ≤ 2 ^ k = pow-le-pow_right (omega arith) h in grind arith

round_even-lt : (x k j m : ℕ) → j ≤ k → x < m * 2 ^ j → round_even x k < m + 1
unfolding round_even
round_even-lt x k j m h l = ground (arith, div_pow_lt x k j m h l)

half_normal-lt :
    (sign exp mant : ℕ)
    → sign ≤ 2 ^ 15
    → exp < 143
    → mant < 2 ^ 23
    → half_normal sign exp mant < 256 ^ 2
unfolding half_normal
half_normal-lt sign exp mant hs he hm = ground arith

half_subnormal-lt :
    (sign shift mant : ℕ)
    → sign ≤ 2 ^ 15
    → 14 ≤ shift
    → mant < 2 ^ 23
    → half_subnormal sign shift mant < 256 ^ 2
unfolding half_subnormal
half_subnormal-lt sign shift mant hs ht hm =
    let small = div_pow_lt (2 ^ 23 + mant) shift 14 1024 ht (omega arith) in ground arith

module _ (bits : ℕ) where
  pub f32_bits_to_f16-lt : f32_bits_to_f16 bits < 256 ^ 2
  unfolding f32_bits_to_f16
  f32_bits_to_f16-lt =
      let sign = bits / 2 ^ 31 % 2 * 2 ^ 15 in
      let exp = bits / 2 ^ 23 % 256 in
      let mant = bits % 2 ^ 23 in
      unfold f32_bits_to_f16 in
      ground (arith, half_normal-lt sign exp mant, half_subnormal-lt sign (126 - exp) mant)

pub narrow-lt : (bits : ℕ) → bits < 2 ^ 64 → narrow bits < 256 ^ 4
unfolding narrow
narrow-lt bits h =
    ground (arith, round_even-lt (2 ^ 52 + bits % 2 ^ 52) (926 - bits / 2 ^ 52 % 2048) 30 (2 ^ 23))

nan_single_parts :
    (bits : ℕ)
    → is_nan_single bits ≡ true
    → ((bits / 2 ^ 23 % 256 == 255) ≡ true) × ((bits % 2 ^ 23 == 0) ≡ false)
unfolding is_nan_single
nan_single_parts bits h = (ground arith, ground arith)

nan_bits :
    (sign payload : ℕ)
    → payload < 2 ^ 22
    → is_nan (sign * 2 ^ 63 + 2047 * 2 ^ 52 + (2 ^ 51 + payload * 2 ^ 29)) ≡ true
unfolding is_nan
nan_bits sign payload h = ground arith

pub widen-IsNan : (bits : ℕ) → is_nan_single bits ≡ true → is_nan (widen bits) ≡ true
unfolding widen
widen-IsNan bits h =
    let (top, low) = nan_single_parts bits h in
    rw (top, low) (nan_bits (bits / 2 ^ 31) (bits % 2 ^ 23 % 2 ^ 22) (omega arith))

-- Two doubles that compare equal have the same bits, if the second is no zero.
pub float_eq_cases :
    (a f : ℕ) → f < 2 ^ 64 → is_negative_zero f ≡ false → float_eq a f ≡ true → (a ≡ f) ⊎ (f ≡ 0)
unfolding float_eq is_negative_zero
float_eq_cases a f h s e = ground arith
