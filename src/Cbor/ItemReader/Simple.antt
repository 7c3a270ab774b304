-- ===== src/Cbor/ItemReader/Simple.antt =====
-- The two decoders on a simple value in two bytes.
use ldgr.Prelude.{ℕ, ◌≤◌, ◌<◌, ◌≡◌, false, List, ◌∷◌, arith, ltb, ok, err}
use ldgr.Prelude.Bytes.{from_be}
use ldgr.Cbor.{unsupported_type}
use ldgr.Cbor.Decode
use ldgr.Cbor.Decode.{take_number, decode_simple, decode_value}
use ldgr.Format.Value.{CanonicalValue, visit, new_budget}
use ldgr.Cbor.ItemReader.{
  new_reader, read_simple, read_item_inner, read_item, lift, value_of, read_value,
  read_canonical_value,
}

one_byte : (v : ℕ) (rest : List ℕ) → take_number 1 (v ∷ rest) ≡ ok (v, rest)
unfolding take_number from_be
one_byte v rest = ground arith

-- The reader of canonical values takes the two-byte simple value `v`, from 24 to 255, for the unsigned
-- integer `v`. The canonical decoder refuses these bytes.
pub read_canonical_value-simple :
    (v : ℕ) (rest : List ℕ)
    → 24 ≤ v
    → v < 256
    → (read_canonical_value (new_reader (0xf8 ∷ v ∷ rest))
        ≡ ok (CanonicalValue.unsigned v, record { rest = rest; depth = 0 }))
      × (Decode.from_canonical_bytes (0xf8 ∷ v ∷ rest) ≡ err (unsupported_type 0xf8))
unfolding read_canonical_value read_value read_item read_item_inner read_simple new_reader lift
    value_of visit new_budget Decode.from_canonical_bytes decode_value decode_simple
read_canonical_value-simple v rest low high =
    let high_enough : ltb v 24 ≡ false = ground arith in
    (rw (one_byte v rest, high_enough), rw (one_byte v rest, high_enough))
