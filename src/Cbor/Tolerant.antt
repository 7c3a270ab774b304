-- ===== src/Cbor/Tolerant.antt =====
-- crates/ledger-format/src/cbor/decode.rs: the tolerant reader.
-- The loops over indefinite containers take fuel; `out_of_fuel` has no counterpart in the source.
pub mod Superset
pub mod Fuel
pub mod Total
use ldgr.Prelude.{
  ℕ, zero, suc, ◌+◌, ◌/◌, ◌%◌, Bool, true, false, ◌&&◌, Option, none, some, List, [], ◌∷◌, ◌++◌,
  ltb, leb, ◌==◌, if◌then◌else◌, length, take, drop, Result, ok, err, ◌>>=◌,
}
use ldgr.Prelude.Bytes.{from_be}
use ldgr.Cbor.{
  CborError, CborValue, Items, no_items, item, Entries, no_entries, entry, max_depth,
  unexpected_eof, invalid_utf8, length_overflow, depth_limit_exceeded, unsupported_type,
  trailing_bytes,
}
use ldgr.Cbor.Text.{is_utf8}
use ldgr.Cbor.Float.{widen, f16_bits_to_f64}

pub data Fault : Type 0 where
  failed : CborError → Fault
  out_of_fuel : Fault

abbrev pub Reader : Type 0 → Type 0
Reader A = List ℕ → Result Fault (A × List ℕ)

abbrev pub fail {ℓ} : {A : Type ℓ} → CborError → Result Fault A
fail e = err (failed e)

unfoldable pub take_bytes : ℕ → Reader (List ℕ)
take_bytes n input =
    if ltb (length input) n then fail unexpected_eof else ok (take n input, drop n input)

unfoldable pub take_bytes_span : ℕ → Reader (List ℕ)
take_bytes_span declared input =
    if ltb (length input) declared
    then fail length_overflow
    else ok (take declared input, drop declared input)

unfoldable pub bounded_item_count : List ℕ → ℕ → ℕ → Result Fault ℕ
bounded_item_count input declared min_bytes_per_item =
    if ltb (length input / min_bytes_per_item) declared then fail length_overflow else ok declared

-- The argument of a head in `n` bytes, of any value.
unfoldable pub wide : ℕ → ℕ → ℕ → Reader (ℕ × ℕ × ℕ)
unfolding take_bytes
wide n major additional input = do
  (field, rest) ← take_bytes n input
  ok ((major, additional, from_be field), rest)

-- `initial` is the head byte, already read.
unfoldable pub read_tolerant_header : ℕ → Reader (ℕ × ℕ × ℕ)
read_tolerant_header initial input =
    let major = initial / 32 in
    let additional = initial % 32 in
    if leb additional 23
    then ok ((major, additional, additional), input)
    else if additional == 24
    then wide 1 major additional input
    else if additional == 25
    then wide 2 major additional input
    else if additional == 26
    then wide 4 major additional input
    else if additional == 27
    then wide 8 major additional input
    else if leb additional 30
    then fail (unsupported_type initial)
    else ok ((major, additional, 0), input)

abbrev Slot : Type 0
Slot = Option CborValue

-- A float of `n` bytes, converted by `cast`; `-0.0`, `NaN` and wide forms pass.
unfoldable pub decode_float_tolerant : ℕ → (ℕ → ℕ) → Reader Slot
unfolding take_bytes
decode_float_tolerant n cast input = do
  (field, rest) ← take_bytes n input
  ok (some (CborValue.float (cast (from_be field))), rest)

unfoldable pub tolerant_simple : ℕ → Reader Slot
unfolding decode_float_tolerant
tolerant_simple initial rest =
    let additional = initial % 32 in
    if additional == 20
    then ok (some (CborValue.bool false), rest)
    else if additional == 21
    then ok (some (CborValue.bool true), rest)
    else if additional == 22
    then ok (some CborValue.null, rest)
    else if additional == 25
    then decode_float_tolerant 2 f16_bits_to_f64 rest
    else if additional == 26
    then decode_float_tolerant 4 widen rest
    else if additional == 27
    then decode_float_tolerant 8 (λ bits. bits) rest
    else fail (unsupported_type initial)

-- `let Some(item) = … else { return Err(UnsupportedType(0xff)) }`
unfoldable pub required : Slot → Result Fault CborValue
required none = fail (unsupported_type 0xff)
required (some v) = ok v

unfoldable pub tolerant_items : Reader Slot → ℕ → Reader Items
unfolding required
tolerant_items decode zero input = ok (no_items, input)
tolerant_items decode (suc count) input = do
  (slot, rest) ← decode input
  v ← required slot
  (vs, rest') ← tolerant_items decode count rest
  ok (item v vs, rest')

unfoldable pub tolerant_entries : Reader Slot → ℕ → Reader Entries
unfolding required
tolerant_entries decode zero input = ok (no_entries, input)
tolerant_entries decode (suc count) input = do
  (key_slot, rest) ← decode input
  key ← required key_slot
  (val_slot, rest') ← decode rest
  val ← required val_slot
  (es, rest'') ← tolerant_entries decode count rest'
  ok (entry key val es, rest'')

-- A chunk of an indefinite string, or its end.
unfoldable pub bytes_chunk : Slot → Result Fault (Option (List ℕ))
bytes_chunk none = ok none
bytes_chunk (some (CborValue.bytes chunk)) = ok (some chunk)
bytes_chunk (some _) = fail (unsupported_type 0x5f)

unfoldable pub text_chunk : Slot → Result Fault (Option (List ℕ))
text_chunk none = ok none
text_chunk (some (CborValue.text chunk)) = ok (some chunk)
text_chunk (some _) = fail (unsupported_type 0x7f)

-- `decode_indefinite_bytes` and `decode_indefinite_text`, which differ in their chunks.
unfoldable pub indefinite_string :
    (Slot → Result Fault (Option (List ℕ))) → Reader Slot → ℕ → List ℕ → Reader (List ℕ)
indefinite_string chunk decode zero out input = err out_of_fuel
indefinite_string chunk decode (suc fuel) out input = do
  (slot, rest) ← decode input
  part ← chunk slot
  elim part [
    | none ↦ ok (out, rest)
    | some more ↦ indefinite_string chunk decode fuel (out ++ more) rest
  ]

-- The two container loops read a part where a break is allowed, and a map's value where it is not.
unfoldable pub indefinite_array : Reader Slot → ℕ → Reader Items
indefinite_array decode zero input = err out_of_fuel
indefinite_array decode (suc fuel) input = do
  (slot, rest) ← decode input
  elim slot [
    | none ↦ ok (no_items, rest)
    | some v ↦ (do (vs, rest') ← indefinite_array decode fuel rest; ok (item v vs, rest'))
  ]

unfoldable pub indefinite_map : (Bool → Reader Slot) → ℕ → Reader Entries
unfolding required
indefinite_map decode zero input = err out_of_fuel
indefinite_map decode (suc fuel) input = do
  (slot, rest) ← decode true input
  elim slot [
    | none ↦ ok (no_entries, rest)
    | some key ↦ (do
      (val_slot, rest') ← decode false rest
      val ← required val_slot
      (es, rest'') ← indefinite_map decode fuel rest'
      ok (entry key val es, rest''))
  ]

-- An item of a container of unknown length, by its major type.
unfoldable pub indefinite_body : (Bool → Reader Slot) → ℕ → ℕ → Reader Slot
indefinite_body decode initial major rest =
    let fuel = suc (length rest) in
    if major == 2
    then (do
      (b, rest') ← indefinite_string bytes_chunk (decode true) fuel [] rest
      ok (some (CborValue.bytes b), rest'))
    else if major == 3
    then (do
      (s, rest') ← indefinite_string text_chunk (decode true) fuel [] rest
      ok (some (CborValue.text s), rest'))
    else if major == 4
    then (do
      (vs, rest') ← indefinite_array (decode true) fuel rest
      ok (some (CborValue.array vs), rest'))
    else if major == 5
    then (do (es, rest') ← indefinite_map decode fuel rest; ok (some (CborValue.map es), rest'))
    else fail (unsupported_type initial)

unfoldable pub definite_body : (Bool → Reader Slot) → ℕ → ℕ → ℕ → Reader Slot
definite_body decode initial major value rest =
    if major == 0
    then ok (some (CborValue.unsigned value), rest)
    else if major == 1
    then ok (some (CborValue.negative value), rest)
    else if major == 2
    then (do (span, rest') ← take_bytes_span value rest; ok (some (CborValue.bytes span), rest'))
    else if major == 3
    then (do
      (span, rest') ← take_bytes_span value rest
      if is_utf8 span then ok (some (CborValue.text span), rest') else fail invalid_utf8)
    else if major == 4
    then (do
      count ← bounded_item_count rest value 1
      (vs, rest') ← tolerant_items (decode false) count rest
      ok (some (CborValue.array vs), rest'))
    else if major == 5
    then (do
      count ← bounded_item_count rest value 2
      (es, rest') ← tolerant_entries (decode false) count rest
      ok (some (CborValue.map es), rest'))
    else if major == 6
    then (do
      (slot, rest') ← decode false rest
      inner ← required slot
      ok (some (CborValue.tag value inner), rest'))
    else fail (unsupported_type initial)

-- `none` is a break. `room` is `max_depth + 1 - depth`.
unfoldable pub decode_item : ℕ → Bool → Reader Slot
decode_item zero break_allowed input = fail depth_limit_exceeded
decode_item (suc room) break_allowed [] = fail unexpected_eof
decode_item (suc room) break_allowed (initial ∷ rest) =
    if initial / 32 == 7
    then if initial % 32 == 31
      then if break_allowed then ok (none, rest) else fail (unsupported_type initial)
      else tolerant_simple initial rest
    else (do
      ((major, additional, value), rest') ← read_tolerant_header initial rest
      if additional == 31
          then indefinite_body (decode_item room) initial major rest'
          else definite_body (decode_item room) initial major value rest')

unfoldable pub finish : Slot × List ℕ → Result Fault CborValue
finish (none, rest) = fail (unsupported_type 0xff)
finish (some v, []) = ok v
finish (some v, b ∷ bs) = fail trailing_bytes

-- `TolerantReader::parse` with its depth limit, and `parse_tolerant`.
unfoldable pub parse : ℕ → List ℕ → Result Fault CborValue
parse depth_limit input = decode_item (depth_limit + 1) false input >>= finish

unfoldable pub parse_tolerant : List ℕ → Result Fault CborValue
parse_tolerant input = parse max_depth input
