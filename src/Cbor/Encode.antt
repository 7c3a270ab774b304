-- ===== src/Cbor/Encode.antt =====
-- crates/ledger-format/src/cbor/encode.rs: the canonical encoder.
-- A function of the source that appends to `out` is here the bytes that it appends.
use Prim.Native.Nat.{Ordering}
use ldgr.Prelude.{
  ℕ, ◌+◌, ◌*◌, Bool, false, ◌||◌, none, some, List, [], ◌∷◌, ◌++◌, leb, ◌==◌, if◌then◌else◌, length,
  Result, ok, err, ◌>>=◌,
}
use ldgr.Prelude.Bytes.{be_bytes, bytes_eq}
use ldgr.Cbor.{
  CborError, CborValue, Items, no_items, item, Entries, no_entries, entry, count_items,
  tag_allowlist, compare_canonical_keys, non_canonical_float, duplicate_map_key, unknown_tag,
}
use ldgr.Cbor.Float.{is_nan, is_negative_zero, float_eq, narrow, widen, value_round_trips_as_f16}

-- A head byte and its argument; `kind << 5 | n` is `kind * 32 + n`, since `n` is below 32.
unfoldable pub major : ℕ → ℕ → List ℕ
major kind value =
    if leb value 23
    then (kind * 32 + value) ∷ []
    else if leb value 0xff
    then (kind * 32 + 24) ∷ be_bytes 1 value
    else if leb value 0xffff
    then (kind * 32 + 25) ∷ be_bytes 2 value
    else if leb value 0xffff_ffff
    then (kind * 32 + 26) ∷ be_bytes 4 value
    else (kind * 32 + 27) ∷ be_bytes 8 value

unfoldable pub unsigned : ℕ → List ℕ
unsigned value = major 0 value

unfoldable pub bytes : List ℕ → List ℕ
bytes value = major 2 (length value) ++ value

unfoldable pub text : List ℕ → List ℕ
text value = major 3 (length value) ++ value

unfoldable pub array : ℕ → List ℕ
array count = major 4 count

unfoldable pub map : ℕ → List ℕ
map count = major 5 count

unfoldable pub tag : ℕ → List ℕ
tag tag_num = major 6 tag_num

unfoldable pub boolean : Bool → List ℕ
boolean val = if val then 0xf5 ∷ [] else 0xf4 ∷ []

unfoldable pub null : List ℕ
null = 0xf6 ∷ []

unfoldable pub encode_minimal_float : ℕ → List ℕ
encode_minimal_float value = elim (value_round_trips_as_f16 value) [
  | some half_bits ↦ 0xf9 ∷ be_bytes 2 half_bits
  | none ↦
      if float_eq (widen (narrow value)) value
      then 0xfa ∷ be_bytes 4 (narrow value)
      else 0xfb ∷ be_bytes 8 value
]

-- A key and a value of a map, encoded.
abbrev pub Encoded : Type 0
Encoded = List ℕ × List ℕ

-- `sort_by`, which is stable: an entry goes before the first that is not below it.
unfoldable pub insert_entry : {V : Type 0} → List ℕ × V → List (List ℕ × V) → List (List ℕ × V)
insert_entry x [] = x ∷ []
insert_entry x (y ∷ ys) = elim (compare_canonical_keys y.0 x.0) [
  | Ordering.lt ↦ y ∷ insert_entry x ys
  | Ordering.eq ↦ x ∷ y ∷ ys
  | Ordering.gt ↦ x ∷ y ∷ ys
]

unfoldable pub sort_entries : {V : Type 0} → List (List ℕ × V) → List (List ℕ × V)
unfolding insert_entry
sort_entries [] = []
sort_entries (x ∷ xs) = insert_entry x (sort_entries xs)

-- The scan over `windows(2)`.
unfoldable pub has_duplicate : {V : Type 0} → List (List ℕ × V) → Bool
has_duplicate [] = false
has_duplicate (x ∷ []) = false
has_duplicate (x ∷ y ∷ ys) = bytes_eq x.0 y.0 || has_duplicate (y ∷ ys)

unfoldable pub join_entries : List Encoded → List ℕ
join_entries [] = []
join_entries ((key_bytes, val_bytes) ∷ rest) = key_bytes ++ (val_bytes ++ join_entries rest)

unfoldable pub write_map : List Encoded → Result CborError (List ℕ)
unfolding has_duplicate join_entries
write_map sorted =
    if has_duplicate sorted
    then err duplicate_map_key
    else ok (map (length sorted) ++ join_entries sorted)

unfoldable pub contains : List ℕ → ℕ → Bool
contains [] n = false
contains (m ∷ ms) n = m == n || contains ms n

unfoldable pub encode_float : ℕ → Result CborError (List ℕ)
encode_float value =
    if is_nan value
    then err non_canonical_float
    else if is_negative_zero value
    then err non_canonical_float
    else ok (encode_minimal_float value)

unfoldable mutual
  pub try_encode : CborValue → Result CborError (List ℕ)
  try_encode (CborValue.unsigned val) = ok (unsigned val)
  try_encode (CborValue.negative val) = ok (major 1 val)
  try_encode (CborValue.bytes b) = ok (bytes b)
  try_encode (CborValue.text s) = ok (text s)
  try_encode (CborValue.array items) = do
    body ← encode_items items
    ok (array (count_items items) ++ body)
  try_encode (CborValue.map entries) = do
    encoded ← encode_entries entries
    write_map (sort_entries encoded)
  try_encode (CborValue.tag tag_num inner) =
      let written = try_encode inner in
      if contains tag_allowlist tag_num
      then (do body ← written; ok (tag tag_num ++ body))
      else err (unknown_tag tag_num)
  try_encode (CborValue.bool b) = ok (boolean b)
  try_encode CborValue.null = ok null
  try_encode (CborValue.float value) = encode_float value

  pub encode_items : Items → Result CborError (List ℕ)
  encode_items no_items = ok []
  encode_items (item v vs) = do head ← try_encode v; rest ← encode_items vs; ok (head ++ rest)

  pub encode_entries : Entries → Result CborError (List Encoded)
  encode_entries no_entries = ok []
  encode_entries (entry key val rest) = do
    key_bytes ← try_encode key
    val_bytes ← try_encode val
    encoded ← encode_entries rest
    ok ((key_bytes, val_bytes) ∷ encoded)

unfoldable pub to_canonical_bytes : CborValue → Result CborError (List ℕ)
to_canonical_bytes v = try_encode v
