-- ===== src/Cbor.antt =====
-- crates/ledger-format/src/cbor/mod.rs: the data items, the errors and the order of map keys.
-- A byte string is the list of its bytes, and a text string is the list of its UTF-8 bytes. A float
-- is its 64 bits. `Items` and `Entries` are the vectors inside an array and a map.
pub mod Float
pub mod Text
pub mod Encode
pub mod Decode
pub mod Canonical
pub mod RoundTrip
pub mod Tolerant
pub mod ItemReader
use Prim.Native.Nat.{compare, Ordering}
use Prim.Native.String.{String}
use ldgr.Prelude.{ℕ, suc, Bool, List, [], ◌∷◌, ◌==◌, if◌then◌else◌, length}

pub data CborError : Type 0 where
  unexpected_eof : CborError
  indefinite_length_forbidden : CborError
  non_canonical_integer_encoding : CborError
  non_canonical_float : CborError
  unsorted_map_keys : CborError
  duplicate_map_key : CborError
  invalid_utf8 : CborError
  unknown_tag : ℕ → CborError
  length_overflow : CborError
  entry_too_large : ℕ → CborError
  depth_limit_exceeded : CborError
  unsupported_type : ℕ → CborError
  trailing_bytes : CborError
  unsupported_version : ℕ → CborError
  malformed_manifest : String → CborError

mutual
  pub data CborValue : Type 0 where
    unsigned : ℕ → CborValue
    negative : ℕ → CborValue
    bytes : List ℕ → CborValue
    text : List ℕ → CborValue
    array : Items → CborValue
    map : Entries → CborValue
    tag : ℕ → CborValue → CborValue
    bool : Bool → CborValue
    null : CborValue
    float : ℕ → CborValue

  pub data Items : Type 0 where
    no_items : Items
    item : CborValue → Items → Items

  pub data Entries : Type 0 where
    no_entries : Entries
    entry : CborValue → CborValue → Entries → Entries

-- `len` of the two vectors.
abbrev pub count_items : Items → ℕ
count_items no_items = 0
count_items (item v vs) = suc (count_items vs)

abbrev pub count_entries : Entries → ℕ
count_entries no_entries = 0
count_entries (entry k v es) = suc (count_entries es)

abbrev pub max_depth : ℕ
max_depth = 128

abbrev pub tag_allowlist : List ℕ
tag_allowlist = []

-- `Ord::cmp` of byte slices: lexicographic.
unfoldable pub compare_bytes : List ℕ → List ℕ → Ordering
compare_bytes [] [] = Ordering.eq
compare_bytes [] (y ∷ ys) = Ordering.lt
compare_bytes (x ∷ xs) [] = Ordering.gt
compare_bytes (x ∷ xs) (y ∷ ys) = elim (compare x y) [
  | Ordering.lt ↦ Ordering.lt
  | Ordering.eq ↦ compare_bytes xs ys
  | Ordering.gt ↦ Ordering.gt
]

unfoldable pub compare_canonical_keys : List ℕ → List ℕ → Ordering
unfolding compare_bytes
compare_canonical_keys a b =
    if length a == length b then compare_bytes a b else compare (length a) (length b)
