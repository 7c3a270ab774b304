-- ===== src/Tests/Messages.antt =====
-- The properties of the messages and of canonical values and paths on concrete inputs.
use ldgr.Prelude.{ℕ, ◌≤◌, ◌≡◌, refl, List, [], ◌∷◌, arith, length, All, ok, err}
use ldgr.Prelude.Bytes.{le_bytes, from_le, from_be, bytes_eq}
use ldgr.Cbor.{unsupported_type}
use ldgr.Cbor.Decode
use ldgr.Cbor.Decode.{
  take_number, wide_argument, header_argument, decode_header, decode_simple, decode_items,
  decode_body, decode_value, whole,
}
use ldgr.Cbor.ItemReader.{new_reader, read_canonical_value}
use ldgr.Cbor.ItemReader.Simple.{read_canonical_value-simple}
use ldgr.Format.FilePath.{
  max_canonical_path_bytes, has_nul, split, cons_head, pop, enter, resolve, join_more, join, render,
  canonicalize,
}
use ldgr.Format.FilePath.Canonical.{IsPlain, canonicalize-canonicalize}
use ldgr.Format.Value
use ldgr.Format.Value.{
  CanonicalValue, no_values, value, bounds_exceeded, max_canonical_value_depth, new_budget, visit,
  collection, from_cbor, from_items, from_cbor_error,
}
use ldgr.Format.Value.Agree.{as_cbor, nodes, from_canonical_bytes-nodes}
use ldgr.Format.Value.Depth.{nulls, to_canonical_bytes-nulls}
use ldgr.Rt.Message.{
  Effect, Message, effect_request, encode_message, decode_message, message_body, decode_effect,
  effect_body, known_actor, bounded_bytes, u8, u32, take_slice, finish, encode_effect, encode_path,
  write_len_u32,
}
use ldgr.Rt.Message.RoundTrip.{IsMessage, decode_message-encode_message}
use ldgr.Rt.Message.Sound.{encode_message-decode_message}

-- The message `hi` to actor 3, and its bytes.
abbrev greeting : Message
greeting = effect_request (Effect.send 3 (104 ∷ 105 ∷ []))

abbrev greeting_bytes : List ℕ
greeting_bytes = 4 ∷ 4 ∷ 3 ∷ 0 ∷ 0 ∷ 0 ∷ 2 ∷ 0 ∷ 0 ∷ 0 ∷ 104 ∷ 105 ∷ []

decode_message-encode_message_example :
    (b : List ℕ) × (encode_message greeting ≡ ok b) × (decode_message b ≡ ok greeting)
decode_message-encode_message_example =
    decode_message-encode_message greeting (omega arith, omega arith)

greeting_bytes-ok : decode_message greeting_bytes ≡ ok greeting
unfolding decode_message message_body decode_effect effect_body known_actor bounded_bytes u8 u32
    take_slice finish from_le
greeting_bytes-ok = refl

encode_message-decode_message_example :
    (encode_message greeting ≡ ok greeting_bytes) × IsMessage greeting
encode_message-decode_message_example =
    encode_message-decode_message greeting_bytes greeting (ground arith) greeting_bytes-ok

greeting_encoded : encode_message greeting ≡ ok greeting_bytes
unfolding encode_message encode_effect encode_path write_len_u32 le_bytes
greeting_encoded = refl

-- `a/./b//../c`
abbrev raw_path : List ℕ
raw_path = b'a' ∷ b'/' ∷ b'.' ∷ b'/' ∷ b'b' ∷ b'/' ∷ b'/' ∷ b'.' ∷ b'.' ∷ b'/' ∷ b'c' ∷ []

abbrev plain_path : List ℕ
plain_path = b'/' ∷ b'a' ∷ b'/' ∷ b'c' ∷ []

raw_path-ok : canonicalize raw_path ≡ ok plain_path
unfolding canonicalize has_nul split cons_head resolve enter pop render join join_more bytes_eq
raw_path-ok = refl

canonicalize-canonicalize_example :
    ((cs : List (List ℕ)) × (plain_path ≡ render cs) × All IsPlain cs)
    × (length plain_path ≤ max_canonical_path_bytes)
    × (canonicalize plain_path ≡ ok plain_path)
canonicalize-canonicalize_example = canonicalize-canonicalize raw_path plain_path raw_path-ok

abbrev two_values : CanonicalValue
two_values =
    CanonicalValue.array (value (CanonicalValue.unsigned 200) (value CanonicalValue.null no_values))

abbrev two_bytes : List ℕ
two_bytes = 130 ∷ 24 ∷ 200 ∷ 246 ∷ []

two_bytes-ok : Value.from_canonical_bytes two_bytes ≡ ok two_values
unfolding Value.from_canonical_bytes from_cbor_error from_cbor from_items new_budget visit
    collection Decode.from_canonical_bytes whole decode_value decode_header header_argument
    wide_argument take_number from_be decode_body decode_items decode_simple
two_bytes-ok = refl

from_canonical_bytes-nodes_example :
    (Decode.from_canonical_bytes two_bytes ≡ ok (as_cbor two_values))
    × (nodes two_values ≤ max_canonical_value_depth)
from_canonical_bytes-nodes_example = from_canonical_bytes-nodes two_bytes two_values two_bytes-ok

to_canonical_bytes-nulls_example :
    Value.to_canonical_bytes (CanonicalValue.array (nulls 32))
    ≡ err (bounds_exceeded "nesting depth")
to_canonical_bytes-nulls_example = to_canonical_bytes-nulls 32 (omega arith) (omega arith)

read_canonical_value-simple_example :
    (read_canonical_value (new_reader (0xf8 ∷ 32 ∷ []))
      ≡ ok (CanonicalValue.unsigned 32, record { rest = []; depth = 0 }))
    × (Decode.from_canonical_bytes (0xf8 ∷ 32 ∷ []) ≡ err (unsupported_type 0xf8))
read_canonical_value-simple_example = read_canonical_value-simple 32 [] (omega arith) (omega arith)
