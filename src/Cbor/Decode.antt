-- ===== src/Cbor/Decode.antt =====
-- crates/ledger-format/src/cbor/decode.rs: the canonical decoder.
-- The pair of `input` and `cursor` is the list of the bytes from the cursor on.
pub mod Consume
use Prim.Native.Nat.{Ordering}
use ldgr.Prelude.{
  ℕ, zero, suc, ◌+◌, ◌-◌, ◌/◌, ◌%◌, true, false, Option, none, some, List, [], ◌∷◌, ltb, leb, ◌==◌,
  if◌then◌else◌, length, take, drop, Result, ok, err, ◌>>=◌,
}
use ldgr.Prelude.Bytes.{from_be}
use ldgr.Cbor.{
  CborError, CborValue, Items, no_items, item, Entries, no_entries, entry, max_depth, tag_allowlist,
  compare_canonical_keys, unexpected_eof, indefinite_length_forbidden,
  non_canonical_integer_encoding, non_canonical_float, unsorted_map_keys, duplicate_map_key,
  invalid_utf8, unknown_tag, length_overflow, depth_limit_exceeded, unsupported_type,
  trailing_bytes,
}
use ldgr.Cbor.Text.{is_utf8}
use ldgr.Cbor.Float.{
  is_nan, is_negative_zero, is_nan_single, is_negative_zero_single, float_eq, narrow, widen,
  f32_bits_to_f16, f16_bits_to_f64,
}
use ldgr.Cbor.Encode.{contains}

abbrev pub Decoder : Type 0 → Type 0
Decoder A = List ℕ → Result CborError (A × List ℕ)

-- A big-endian number of `n` bytes.
unfoldable pub take_number : ℕ → Decoder ℕ
take_number n input =
    if ltb (length input) n then err unexpected_eof else ok (from_be (take n input), drop n input)

-- The argument of a head in `n` bytes, which a shorter form must not hold.
unfoldable pub wide_argument : ℕ → ℕ → ℕ → Decoder (ℕ × ℕ)
unfolding take_number
wide_argument n least major input = do
  (v, rest) ← take_number n input
  if ltb v least then err non_canonical_integer_encoding else ok ((major, v), rest)

unfoldable pub header_argument : ℕ → Decoder (ℕ × ℕ)
header_argument initial input =
    let major = initial / 32 in
    let additional = initial % 32 in
    if leb additional 23
    then ok ((major, additional), input)
    else if additional == 24
    then wide_argument 1 24 major input
    else if additional == 25
    then wide_argument 2 0x100 major input
    else if additional == 26
    then wide_argument 4 0x1_0000 major input
    else if additional == 27
    then wide_argument 8 0x1_0000_0000 major input
    else if additional == 31
    then err indefinite_length_forbidden
    else err (unsupported_type initial)

unfoldable pub decode_header : Decoder (ℕ × ℕ)
decode_header [] = err unexpected_eof
decode_header (initial ∷ rest) = header_argument initial rest

unfoldable pub decode_f16 : Decoder CborValue
decode_f16 input = do
  (bits, rest) ← take_number 2 input
  let value = f16_bits_to_f64 bits
  if is_nan value
      then err non_canonical_float
      else if is_negative_zero value
      then err non_canonical_float
      else ok (CborValue.float value, rest)

unfoldable pub decode_f32 : Decoder CborValue
decode_f32 input = do
  (bits, rest) ← take_number 4 input
  if is_nan_single bits
      then err non_canonical_float
      else if is_negative_zero_single bits
      then err non_canonical_float
      else if float_eq (f16_bits_to_f64 (f32_bits_to_f16 bits)) (widen bits)
      then err non_canonical_float
      else ok (CborValue.float (widen bits), rest)

unfoldable pub decode_f64 : Decoder CborValue
decode_f64 input = do
  (bits, rest) ← take_number 8 input
  if is_nan bits
      then err non_canonical_float
      else if is_negative_zero bits
      then err non_canonical_float
      else if float_eq (widen (narrow bits)) bits
      then err non_canonical_float
      else ok (CborValue.float bits, rest)

-- Major type 7: `initial` is the head byte, already read.
unfoldable pub decode_simple : ℕ → Decoder CborValue
decode_simple initial rest =
    let additional = initial % 32 in
    if additional == 20
    then ok (CborValue.bool false, rest)
    else if additional == 21
    then ok (CborValue.bool true, rest)
    else if additional == 22
    then ok (CborValue.null, rest)
    else if additional == 25
    then decode_f16 rest
    else if additional == 26
    then decode_f32 rest
    else if additional == 27
    then decode_f64 rest
    else if additional == 24
    then (do
      (v, _) ← take_number 1 rest
      if ltb v 24 then err non_canonical_integer_encoding else err (unsupported_type initial))
    else if additional == 31
    then err indefinite_length_forbidden
    else err (unsupported_type initial)

-- A raw key against the one before it.
unfoldable pub check_order : Option (List ℕ) → List ℕ → Result CborError (Unit {0})
check_order none raw_key = ok tt
check_order (some prev) raw_key = elim (compare_canonical_keys prev raw_key) [
  | Ordering.gt ↦ err unsorted_map_keys
  | Ordering.eq ↦ err duplicate_map_key
  | Ordering.lt ↦ ok tt
]

-- The loops over an array and a map, with the decoder of their parts.
unfoldable pub decode_items : Decoder CborValue → ℕ → Decoder Items
decode_items decode zero input = ok (no_items, input)
decode_items decode (suc count) input = do
  (v, rest) ← decode input
  (vs, rest') ← decode_items decode count rest
  ok (item v vs, rest')

unfoldable pub decode_entries : Decoder CborValue → ℕ → Option (List ℕ) → Decoder Entries
unfolding check_order
decode_entries decode zero previous input = ok (no_entries, input)
decode_entries decode (suc count) previous input = do
  (key, rest) ← decode input
  let raw_key = take (length input - length rest) input
  _ ← check_order previous raw_key
  (val, rest') ← decode rest
  (es, rest'') ← decode_entries decode count (some raw_key) rest'
  ok (entry key val es, rest'')

-- What follows a head of the major types 0 to 6.
unfoldable pub decode_body : Decoder CborValue → ℕ → ℕ → ℕ → Decoder CborValue
decode_body decode initial major value rest =
    if major == 0
    then ok (CborValue.unsigned value, rest)
    else if major == 1
    then ok (CborValue.negative value, rest)
    else if major == 6
    then if contains tag_allowlist value
      then (do (inner, rest') ← decode rest; ok (CborValue.tag value inner, rest'))
      else err (unknown_tag value)
    else if ltb 6 major
    then err (unsupported_type initial)
    else if ltb (length rest) value
    then err length_overflow
    else if major == 2
    then ok (CborValue.bytes (take value rest), drop value rest)
    else if major == 3
    then if is_utf8 (take value rest)
      then ok (CborValue.text (take value rest), drop value rest)
      else err invalid_utf8
    else if major == 4
    then (do (vs, rest') ← decode_items decode value rest; ok (CborValue.array vs, rest'))
    else (do (es, rest') ← decode_entries decode value none rest; ok (CborValue.map es, rest'))

-- `room` is `max_depth + 1 - depth`: how many levels of nesting are still allowed.
unfoldable pub decode_value : ℕ → Decoder CborValue
decode_value zero input = err depth_limit_exceeded
decode_value (suc room) [] = err unexpected_eof
decode_value (suc room) (initial ∷ rest) =
    if initial / 32 == 7 then decode_simple initial rest else (do
      ((major, value), rest') ← decode_header (initial ∷ rest)
      decode_body (decode_value room) initial major value rest')

unfoldable pub whole : CborValue × List ℕ → Result CborError CborValue
whole (v, []) = ok v
whole (v, b ∷ bs) = err trailing_bytes

unfoldable pub from_canonical_bytes : List ℕ → Result CborError CborValue
from_canonical_bytes input = decode_value (max_depth + 1) input >>= whole
