-- ===== src/Cbor/RoundTrip/Value.antt =====
-- Single values: the decoder on what the encoder writes for a head, a string and a float.
use ldgr.Prelude.{
  ℕ, suc, ◌+◌, ◌*◌, ◌/◌, ◌^◌, ◌<◌, ◌≡◌, refl, sym, ap, ◌∙◌, true, false, inl, inr, none, some, List,
  ◌∷◌, ◌++◌, append_assoc, arith, ltb, ◌==◌, length, length-append, take-append, drop-append, ok,
  Bool-cases, Option-cases,
}
use ldgr.Prelude.Bytes.{be_bytes}
use ldgr.Cbor.{CborValue}
use ldgr.Cbor.Text.{is_utf8}
use ldgr.Cbor.Float.{
  is_nan, is_negative_zero, is_nan_single, is_negative_zero_single, float_eq, narrow, widen,
  f32_bits_to_f16, f16_bits_to_f64, value_round_trips_as_f16,
}
use ldgr.Cbor.Float.Bounds.{f32_bits_to_f16-lt, narrow-lt, widen-IsNan, float_eq_cases}
use ldgr.Cbor.Canonical.{IsU64}
use ldgr.Cbor.Encode.{major, encode_minimal_float, encode_float, bytes, text}
use ldgr.Cbor.Decode.{
  decode_header, decode_f16, decode_f32, decode_f64, decode_simple, decode_body, decode_value,
}
use ldgr.Cbor.RoundTrip.Header.{take_number-be_bytes, decode_header-major, major_head}

-- A head of the major types 0 to 6 leads to the body.
pub decode_value-major :
    (room kind n : ℕ) (rest : List ℕ)
    → kind < 7
    → IsU64 n
    → (initial : ℕ) × (decode_value (suc room) (major kind n ++ rest)
        ≡ decode_body (decode_value room) initial kind n rest)
unfolding decode_value
decode_value-major room kind n rest hk hn =
    let (a, t, ha, e) = major_head kind n in
    let head : decode_header ((kind * 32 + a) ∷ (t ++ rest)) ≡ ok ((kind, n), rest) =
      rw (ap (λ (l : List ℕ). l ++ rest) e) at (decode_header-major kind n rest hn) in
    let simple : ((kind * 32 + a) / 32 == 7) ≡ false = ground arith in
    (kind * 32 + a, rw (e, simple, head))

pub decode_value-bytes :
    (room : ℕ) (b rest : List ℕ)
    → IsU64 (length b)
    → decode_value (suc room) (bytes b ++ rest) ≡ ok (CborValue.bytes b, rest)
unfolding bytes decode_body
decode_value-bytes room b rest h =
    let (i, e) = decode_value-major room 2 (length b) (b ++ rest) (omega arith) h in
    let enough : ltb (length (b ++ rest)) (length b) ≡ false =
      ground (arith, length-append b rest) in
    rw (append_assoc, e, enough, take-append b rest, drop-append b rest)

pub decode_value-text :
    (room : ℕ) (s rest : List ℕ)
    → is_utf8 s ≡ true
    → IsU64 (length s)
    → decode_value (suc room) (text s ++ rest) ≡ ok (CborValue.text s, rest)
unfolding text decode_body
decode_value-text room s rest valid h =
    let (i, e) = decode_value-major room 3 (length s) (s ++ rest) (omega arith) h in
    let enough : ltb (length (s ++ rest)) (length s) ≡ false =
      ground (arith, length-append s rest) in
    rw (append_assoc, e, enough, take-append s rest, drop-append s rest, valid)

-- What a half that round-trips, or none, says of the value.
round_trips_some :
    (f h : ℕ)
    → value_round_trips_as_f16 f ≡ some h
    → (h < 256 ^ 2) × (float_eq (f16_bits_to_f64 h) f ≡ true)
unfolding value_round_trips_as_f16
round_trips_some f h e = ground (arith, f32_bits_to_f16-lt (narrow f))

round_trips_none :
    (f : ℕ)
    → value_round_trips_as_f16 f ≡ none
    → float_eq (widen (narrow f)) f ≡ true
    → float_eq (f16_bits_to_f64 (f32_bits_to_f16 (narrow f))) f ≡ false
unfolding value_round_trips_as_f16
round_trips_none f e s = ground arith

round_trips_zero : value_round_trips_as_f16 0 ≡ some 0
unfolding value_round_trips_as_f16 narrow widen float_eq f32_bits_to_f16 f16_bits_to_f64
round_trips_zero = refl

half_zero : f16_bits_to_f64 0 ≡ 0
unfolding f16_bits_to_f64
half_zero = refl

half_exact :
    (f h : ℕ)
    → IsU64 f
    → is_negative_zero f ≡ false
    → value_round_trips_as_f16 f ≡ some h
    → float_eq (f16_bits_to_f64 h) f ≡ true
    → f16_bits_to_f64 h ≡ f
half_exact f h wide signed e back = elim (float_eq_cases (f16_bits_to_f64 h) f wide signed back) [
  | inl same ↦ same
  | inr zero_value ↦
      let first : some 0 ≡ some h = sym round_trips_zero ∙ rw zero_value at e in
      cc (first, half_zero, zero_value)
]

single_exact :
    (f : ℕ)
    → IsU64 f
    → is_negative_zero f ≡ false
    → value_round_trips_as_f16 f ≡ none
    → float_eq (widen (narrow f)) f ≡ true
    → widen (narrow f) ≡ f
single_exact f wide signed e back = elim (float_eq_cases (widen (narrow f)) f wide signed back) [
  | inl same ↦ same
  | inr zero_value ↦ cc (round_trips_zero, rw zero_value at e)
]

negative_zero_bits : (s : ℕ) → is_negative_zero_single s ≡ true → s ≡ 2 ^ 31
unfolding is_negative_zero_single
negative_zero_bits s h = ground arith

widen_zero : is_negative_zero (widen (2 ^ 31)) ≡ true
unfolding is_negative_zero widen
widen_zero = refl

widen-negative_zero :
    (s : ℕ) → is_negative_zero (widen s) ≡ false → is_negative_zero_single s ≡ false
widen-negative_zero s h = elim (Bool-cases (is_negative_zero_single s)) [
  | inl e ↦ cc (negative_zero_bits s e, widen_zero, h)
  | inr e ↦ e
]

-- The three widths of a float.
module _ (f : ℕ) (rest : List ℕ) (wide : IsU64 f) (number : is_nan f ≡ false)
    (signed : is_negative_zero f ≡ false) where
  float_half :
      (h : ℕ)
      → value_round_trips_as_f16 f ≡ some h
      → decode_f16 (be_bytes 2 h ++ rest) ≡ ok (CborValue.float f, rest)
  unfolding decode_f16
  float_half h e =
      let (fits, back) = round_trips_some f h e in
      let same : f16_bits_to_f64 h ≡ f = half_exact f h wide signed e back in
      rw (take_number-be_bytes 2 h rest fits, same, number, signed)

  float_single :
      value_round_trips_as_f16 f ≡ none
      → float_eq (widen (narrow f)) f ≡ true
      → decode_f32 (be_bytes 4 (narrow f) ++ rest) ≡ ok (CborValue.float f, rest)
  unfolding decode_f32
  float_single e s =
      let same : widen (narrow f) ≡ f = single_exact f wide signed e s in
      let no_nan : is_nan_single (narrow f) ≡ false =
        ground (arith, widen-IsNan (narrow f), same) in
      let no_zero : is_negative_zero_single (narrow f) ≡ false =
        widen-negative_zero (narrow f) (rw same signed) in
      let no_half : float_eq (f16_bits_to_f64 (f32_bits_to_f16 (narrow f))) f ≡ false =
        round_trips_none f e s in
      rw (take_number-be_bytes 4 (narrow f) rest (narrow-lt f wide), no_nan, no_zero, same, no_half)

  float_double :
      float_eq (widen (narrow f)) f ≡ false
      → decode_f64 (be_bytes 8 f ++ rest) ≡ ok (CborValue.float f, rest)
  unfolding decode_f64
  float_double s = rw (take_number-be_bytes 8 f rest wide) (ground arith)

  pub decode_value-float :
      (room : ℕ)
      → decode_value (suc room) (encode_minimal_float f ++ rest) ≡ ok (CborValue.float f, rest)
  unfolding decode_value decode_simple encode_minimal_float
  decode_value-float room = elim (Option-cases (value_round_trips_as_f16 f)) [
    | inl e ↦ elim (Bool-cases (float_eq (widen (narrow f)) f)) [
      | inl s ↦ rw (e, encode_minimal_float, s) (float_single e s)
      | inr s ↦ rw (e, encode_minimal_float, s) (float_double s)
    ]
    | inr (h, e) ↦ rw (e, encode_minimal_float) (float_half h e)
  ]

pub encode_float-ok :
    (f : ℕ)
    → is_nan f ≡ false
    → is_negative_zero f ≡ false
    → encode_float f ≡ ok (encode_minimal_float f)
unfolding encode_float
encode_float-ok f number signed = rw (number, signed)
