-- ===== src/Cbor/Tolerant/Superset.antt =====
-- The tolerant reader accepts all that the canonical decoder accepts.
use ldgr.Prelude.{
  ℕ, zero, suc, ◌+◌, ◌-◌, ◌*◌, ◌/◌, ◌%◌, ◌≡◌, Bool, false, Option, none, some, List, [], ◌∷◌, arith,
  ltb, ◌==◌, length, take, ok, >>=-eq-ok, Bool-cases, inl, inr, ◌>>=◌,
}
use ldgr.Cbor.{CborError, CborValue, Items, Entries, max_depth}
use ldgr.Cbor.Encode.{contains}
use ldgr.Cbor.Decode.{
  Decoder, take_number, wide_argument, header_argument, decode_header, decode_f16, decode_f32,
  decode_f64, decode_simple, check_order, decode_items, decode_entries, decode_body, decode_value,
  whole, from_canonical_bytes,
}
use ldgr.Cbor.Decode.Consume.{
  Takes, Takes-ok, decode_items-Takes, decode_entries-Takes, decode_value-Takes,
}
use ldgr.Cbor.Tolerant.{
  Reader, Slot, take_bytes, take_bytes_span, bounded_item_count, wide, read_tolerant_header,
  decode_float_tolerant, tolerant_simple, tolerant_items, tolerant_entries, definite_body,
  decode_item, finish, parse, parse_tolerant,
}

wide-wide_argument :
    (n least major additional m value : ℕ) (input rest : List ℕ)
    → wide_argument n least major input ≡ ok ((m, value), rest)
    → (wide n major additional input ≡ ok ((m, additional, value), rest))
unfolding wide_argument wide take_number take_bytes
wide-wide_argument n least major additional m value input rest e = ground arith

header_agrees :
    (initial m value : ℕ) (input rest : List ℕ)
    → header_argument initial input ≡ ok ((m, value), rest)
    → (read_tolerant_header initial input ≡ ok ((m, initial % 32, value), rest))
      × ((initial % 32 == 31) ≡ false)
unfolding header_argument read_tolerant_header
header_agrees initial m value input rest e =
    let major = initial / 32 in
    let additional = initial % 32 in
    (
      ground (
        arith,
        wide-wide_argument 1 24 major additional m value input rest,
        wide-wide_argument 2 0x100 major additional m value input rest,
        wide-wide_argument 4 0x1_0000 major additional m value input rest,
        wide-wide_argument 8 0x1_0000_0000 major additional m value input rest,
      ),
      ground arith,
    )

module _ (input : List ℕ) (v : CborValue) (rest : List ℕ) where
  f16_agrees :
      decode_f16 input ≡ ok (v, rest)
      → decode_float_tolerant 2 (λ bits. ldgr.Cbor.Float.f16_bits_to_f64 bits) input
        ≡ ok (some v, rest)
  unfolding decode_f16 decode_float_tolerant take_number take_bytes
  f16_agrees e = ground arith

  f32_agrees :
      decode_f32 input ≡ ok (v, rest)
      → decode_float_tolerant 4 (λ bits. ldgr.Cbor.Float.widen bits) input ≡ ok (some v, rest)
  unfolding decode_f32 decode_float_tolerant take_number take_bytes
  f32_agrees e = ground arith

  f64_agrees :
      decode_f64 input ≡ ok (v, rest)
      → decode_float_tolerant 8 (λ bits. bits) input ≡ ok (some v, rest)
  unfolding decode_f64 decode_float_tolerant take_number take_bytes
  f64_agrees e = ground arith

simple_agrees :
    (initial : ℕ) (input : List ℕ) (v : CborValue) (rest : List ℕ)
    → decode_simple initial input ≡ ok (v, rest)
    → (tolerant_simple initial input ≡ ok (some v, rest)) × ((initial % 32 == 31) ≡ false)
unfolding decode_simple tolerant_simple take_number
simple_agrees initial input v rest e = (
  ground (arith, f16_agrees input v rest, f32_agrees input v rest, f64_agrees input v rest),
  ground arith,
)

-- Each value that `decode` reads, `read` reads too.
abbrev Agrees : Decoder CborValue → Reader Slot → Type 0
Agrees decode read =
    (input : List ℕ) (v : CborValue) (rest : List ℕ)
    → decode input ≡ ok (v, rest)
    → read input ≡ ok (some v, rest)

module _ (decode : Decoder CborValue) (read : Reader Slot) (agrees : Agrees decode read) where
  items_agree :
      (count : ℕ) (input : List ℕ) (vs : Items) (rest : List ℕ)
      → decode_items decode count input ≡ ok (vs, rest)
      → tolerant_items read count input ≡ ok (vs, rest)
  unfolding decode_items tolerant_items
  items_agree zero input vs rest e = ground arith
  items_agree (suc count) input vs rest e =
      let ((v, r), e1, k1) = >>=-eq-ok (decode input) _ e in
      let ((ws, r'), e2, k2) = >>=-eq-ok (decode_items decode count r) _ k1 in
      rw (agrees input v r e1, items_agree count r ws r' e2) (ground arith)

  entries_agree :
      (count : ℕ) (prev : Option (List ℕ)) (input : List ℕ) (es : Entries) (rest : List ℕ)
      → decode_entries decode count prev input ≡ ok (es, rest)
      → tolerant_entries read count input ≡ ok (es, rest)
  unfolding decode_entries tolerant_entries
  entries_agree zero prev input es rest e = ground arith
  entries_agree (suc count) prev input es rest e =
      let ((key, r), e1, k1) = >>=-eq-ok (decode input) _ e in
      let raw_key = take (length input - length r) input in
      let (_, _, k2) = >>=-eq-ok (check_order prev raw_key) _ k1 in
      let ((val, r'), e3, k3) = >>=-eq-ok (decode r) _ k2 in
      let ((fs, r''), e4, k4) = >>=-eq-ok (decode_entries decode count (some raw_key) r') _ k3 in
      rw
        (agrees input key r e1, agrees r val r' e3, entries_agree count (some raw_key) r' fs r'' e4)
        (ground arith)

module _ (decode : Decoder CborValue) (read : Bool → Reader Slot)
    (agrees : Agrees decode (read false))
    (takes : (input : List ℕ) → Takes 1 input (decode input)) where
  array_agrees :
      (value : ℕ) (rest rest' : List ℕ) (v : CborValue)
      → ◌>>=◌ {Y = CborValue × List ℕ}
          (decode_items decode value rest)
          (λ (vs, r). ok (CborValue.array vs, r))
        ≡ ok (v, rest')
      → (bounded_item_count rest value 1 >>= λ count.
          ◌>>=◌ {Y = Slot × List ℕ}
            (tolerant_items (read false) count rest)
            λ (vs, r). ok (some (CborValue.array vs), r))
        ≡ ok (some v, rest')
  unfolding bounded_item_count
  array_agrees value rest rest' v e =
      let ((vs, r), e1, k1) = >>=-eq-ok (decode_items decode value rest) _ e in
      let used = Takes-ok value rest _ (decode_items-Takes decode takes value rest) e1 in
      let enough : ltb (length rest / 1) value ≡ false = ground arith in
      rw (enough, items_agree decode (read false) agrees value rest vs r e1) (ground arith)

  map_agrees :
      (value : ℕ) (rest rest' : List ℕ) (v : CborValue)
      → ◌>>=◌ {Y = CborValue × List ℕ}
          (decode_entries decode value none rest)
          (λ (es, r). ok (CborValue.map es, r))
        ≡ ok (v, rest')
      → (bounded_item_count rest value 2 >>= λ count.
          ◌>>=◌ {Y = Slot × List ℕ}
            (tolerant_entries (read false) count rest)
            λ (es, r). ok (some (CborValue.map es), r))
        ≡ ok (some v, rest')
  unfolding bounded_item_count
  map_agrees value rest rest' v e =
      let ((es, r), e1, k1) = >>=-eq-ok (decode_entries decode value none rest) _ e in
      let used =
        Takes-ok (2 * value) rest _ (decode_entries-Takes decode takes value none rest) e1 in
      let enough : ltb (length rest / 2) value ≡ false = ground arith in
      rw (enough, entries_agree decode (read false) agrees value none rest es r e1) (ground arith)

  body_agrees :
      (initial major value : ℕ) (rest : List ℕ) (v : CborValue) (rest' : List ℕ)
      → decode_body decode initial major value rest ≡ ok (v, rest')
      → definite_body read initial major value rest ≡ ok (some v, rest')
  unfolding decode_body definite_body take_bytes_span contains
  body_agrees initial major value rest v rest' e =
      ground (arith, array_agrees value rest rest' v, map_agrees value rest rest' v)

item_of_body :
    (room : ℕ) (break_allowed : Bool) (initial m value : ℕ) (input r : List ℕ) (v : CborValue)
    (rest : List ℕ)
    → (initial / 32 == 7) ≡ false
    → header_argument initial input ≡ ok ((m, value), r)
    → definite_body (decode_item room) initial m value r ≡ ok (some v, rest)
    → decode_item (suc room) break_allowed (initial ∷ input) ≡ ok (some v, rest)
unfolding decode_item
item_of_body room break_allowed initial m value input r v rest other e body =
    let (same, definite) = header_agrees initial m value input r e in
    rw (other, same, definite) body

decode_item-decode_value :
    (room : ℕ) (break_allowed : Bool) → Agrees (decode_value room) (decode_item room break_allowed)
unfolding decode_value decode_item decode_header
decode_item-decode_value zero break_allowed input v rest e = cc
decode_item-decode_value (suc room) break_allowed [] v rest e = cc
decode_item-decode_value (suc room) break_allowed (initial ∷ input) v rest e =
    elim (Bool-cases (initial / 32 == 7)) [
      | inl simple ↦
          let (same, no_break) = simple_agrees initial input v rest (rw simple at e) in
          rw (simple, no_break, same)
      | inr other ↦
          let ((p, r), e1, k1) = >>=-eq-ok (header_argument initial input) _ (rw other at e) in
          item_of_body room break_allowed initial p.0 p.1 input r v rest other e1 (
            body_agrees (decode_value room) (decode_item room) (decode_item-decode_value room false)
              (decode_value-Takes room) initial p.0 p.1 r v rest k1)
    ]

whole-finish :
    (w v : CborValue) (rest : List ℕ) → whole (w, rest) ≡ ok v → finish (some w, rest) ≡ ok v
unfolding whole finish
whole-finish w v [] e = ground arith
whole-finish w v (b ∷ bs) e = cc

-- Whatever the canonical decoder accepts, the tolerant reader accepts with the same value.
pub parse_tolerant-from_canonical_bytes :
    (input : List ℕ) (v : CborValue)
    → from_canonical_bytes input ≡ ok v
    → parse_tolerant input ≡ ok v
unfolding from_canonical_bytes parse_tolerant parse
parse_tolerant-from_canonical_bytes input v e =
    let ((w, rest), e1, k1) = >>=-eq-ok (decode_value (max_depth + 1) input) _ e in
    rw (decode_item-decode_value (max_depth + 1) false input w rest e1) (whole-finish w v rest k1)
