-- ===== src/Format/Value.antt =====
-- crates/ledger-format/src/value.rs: canonical values, whose size is bounded by a budget.
-- As in `Cbor`, byte and text strings are lists of bytes and a float is its 64 bits.
pub mod Agree
pub mod Depth
use Prim.Native.String.{String}
use ldgr.Prelude.{
  ℕ, suc, ◌+◌, ◌*◌, Bool, true, false, ◌||◌, List, [], ◌∷◌, ◌++◌, ltb, if◌then◌else◌, length,
  Result, ok, err, ◌>>=◌,
}
use ldgr.Cbor.{
  CborError, CborValue, Items, no_items, item, Entries, no_entries, entry, count_items,
  count_entries,
}
use ldgr.Cbor.Float.{is_nan, is_negative_zero}
use ldgr.Cbor.Encode
use ldgr.Cbor.Encode.{sort_entries, has_duplicate, boolean, major, encode_minimal_float}
use ldgr.Cbor.Decode

abbrev pub max_canonical_value_depth : ℕ
max_canonical_value_depth = 32

abbrev pub max_canonical_value_items : ℕ
max_canonical_value_items = 65536

abbrev pub max_canonical_value_string_bytes : ℕ
max_canonical_value_string_bytes = 1024 * 1024

pub data ValueError : Type 0 where
  bounds_exceeded : String → ValueError
  cbor : CborError → ValueError

mutual
  pub data CanonicalValue : Type 0 where
    unsigned : ℕ → CanonicalValue
    negative : ℕ → CanonicalValue
    bytes : List ℕ → CanonicalValue
    text : List ℕ → CanonicalValue
    array : Values → CanonicalValue
    map : Pairs → CanonicalValue
    bool : Bool → CanonicalValue
    null : CanonicalValue
    float : ℕ → CanonicalValue

  pub data Values : Type 0 where
    no_values : Values
    value : CanonicalValue → Values → Values

  pub data Pairs : Type 0 where
    no_pairs : Pairs
    pair : CanonicalValue → CanonicalValue → Pairs → Pairs

abbrev pub count_values : Values → ℕ
count_values no_values = 0
count_values (value v vs) = suc (count_values vs)

abbrev pub count_pairs : Pairs → ℕ
count_pairs no_pairs = 0
count_pairs (pair k v ps) = suc (count_pairs ps)

pub record Budget : Type 0 where
  pub depth : ℕ
  pub items : ℕ

unfoldable pub new_budget : Budget
new_budget = record { depth = 0; items = 0 }

-- The methods of `Budget`: nothing takes `depth` back.
unfoldable pub visit : Budget → Result ValueError Budget
visit budget =
    if ltb max_canonical_value_depth (budget.depth + 1)
    then err (bounds_exceeded "nesting depth")
    else if ltb max_canonical_value_items (budget.items + 1)
    then err (bounds_exceeded "collection item count")
    else ok (record { depth = budget.depth + 1; items = budget.items + 1 })

unfoldable pub collection : ℕ → Budget → Result ValueError Budget
collection len budget =
    if ltb max_canonical_value_items (budget.items + len)
    then err (bounds_exceeded "collection item count")
    else ok (record budget { items = budget.items + len })

unfoldable pub string : ℕ → Budget → Result ValueError Budget
string len budget =
    if ltb max_canonical_value_string_bytes len
    then err (bounds_exceeded "string size")
    else ok budget

-- A run that spends the budget.
abbrev pub Spends : Type 0 → Type 0
Spends A = Budget → Result ValueError (A × Budget)

-- The encoded key of an entry, and the run that encodes its value.
abbrev pub Keyed : Type 0
Keyed = List ℕ × Spends (List ℕ)

-- The values of a map are encoded in the order of the sorted keys.
unfoldable pub encode_sorted : List Keyed → Spends (List ℕ)
encode_sorted [] budget = ok ([], budget)
encode_sorted ((key_bytes, encode_value) ∷ keyed) budget = do
  (val_bytes, budget') ← encode_value budget
  (rest, budget'') ← encode_sorted keyed budget'
  ok (key_bytes ++ (val_bytes ++ rest), budget'')

unfoldable mutual
  pub encode_into : CanonicalValue → Spends (List ℕ)
  encode_into (CanonicalValue.unsigned v) start = do
    budget ← visit start
    ok (Encode.unsigned v, budget)
  encode_into (CanonicalValue.negative v) start = do budget ← visit start; ok (major 1 v, budget)
  encode_into (CanonicalValue.bytes b) start = do
    visited ← visit start
    budget ← string (length b) visited
    ok (Encode.bytes b, budget)
  encode_into (CanonicalValue.text s) start = do
    visited ← visit start
    budget ← string (length s) visited
    ok (Encode.text s, budget)
  encode_into (CanonicalValue.array vs) start = do
    visited ← visit start
    budget ← collection (count_values vs) visited
    (body, spent) ← encode_values vs budget
    ok (Encode.array (count_values vs) ++ body, spent)
  encode_into (CanonicalValue.map ps) start = do
    visited ← visit start
    budget ← collection (count_pairs ps) visited
    (encoded_keys, spent) ← encode_keys ps budget
    let sorted = sort_entries encoded_keys
    (body, spent') ←
        if has_duplicate sorted
        then err (bounds_exceeded "duplicate map key")
        else encode_sorted sorted spent
    ok (Encode.map (length sorted) ++ body, spent')
  encode_into (CanonicalValue.bool b) start = do budget ← visit start; ok (boolean b, budget)
  encode_into CanonicalValue.null start = do budget ← visit start; ok (Encode.null, budget)
  encode_into (CanonicalValue.float f) start = do
    budget ← visit start
    if is_nan f || is_negative_zero f
        then err (bounds_exceeded "floats must not be NaN or negative zero")
        else ok (encode_minimal_float f, budget)

  pub encode_values : Values → Spends (List ℕ)
  encode_values no_values budget = ok ([], budget)
  encode_values (value v vs) budget = do
    (head, budget') ← encode_into v budget
    (rest, budget'') ← encode_values vs budget'
    ok (head ++ rest, budget'')

  pub encode_keys : Pairs → Spends (List Keyed)
  encode_keys no_pairs budget = ok ([], budget)
  encode_keys (pair k v ps) budget = do
    (key_bytes, budget') ← encode_into k budget
    (rest, budget'') ← encode_keys ps budget'
    ok ((key_bytes, encode_into v) ∷ rest, budget'')

unfoldable pub to_canonical_bytes : CanonicalValue → Result ValueError (List ℕ)
to_canonical_bytes v = do (out, budget) ← encode_into v new_budget; ok out

unfoldable mutual
  pub from_cbor : CborValue → Spends CanonicalValue
  from_cbor (CborValue.unsigned v) start = do
    budget ← visit start
    ok (CanonicalValue.unsigned v, budget)
  from_cbor (CborValue.negative v) start = do
    budget ← visit start
    ok (CanonicalValue.negative v, budget)
  from_cbor (CborValue.bytes b) start = do
    visited ← visit start
    budget ← string (length b) visited
    ok (CanonicalValue.bytes b, budget)
  from_cbor (CborValue.text s) start = do
    visited ← visit start
    budget ← string (length s) visited
    ok (CanonicalValue.text s, budget)
  from_cbor (CborValue.array vs) start = do
    visited ← visit start
    budget ← collection (count_items vs) visited
    (out, spent) ← from_items vs budget
    ok (CanonicalValue.array out, spent)
  from_cbor (CborValue.map es) start = do
    visited ← visit start
    budget ← collection (count_entries es) visited
    (out, spent) ← from_entries es budget
    ok (CanonicalValue.map out, spent)
  from_cbor (CborValue.bool b) start = do budget ← visit start; ok (CanonicalValue.bool b, budget)
  from_cbor CborValue.null start = do budget ← visit start; ok (CanonicalValue.null, budget)
  from_cbor (CborValue.float f) start = do
    budget ← visit start
    if is_nan f || is_negative_zero f
        then err (bounds_exceeded "floats must not be NaN or negative zero")
        else ok (CanonicalValue.float f, budget)
  from_cbor (CborValue.tag n inner) start = do
    budget ← visit start
    err (bounds_exceeded "canonical values must not carry semantic tags")

  pub from_items : Items → Spends Values
  from_items no_items budget = ok (no_values, budget)
  from_items (item v vs) budget = do
    (head, budget') ← from_cbor v budget
    (rest, budget'') ← from_items vs budget'
    ok (value head rest, budget'')

  pub from_entries : Entries → Spends Pairs
  from_entries no_entries budget = ok (no_pairs, budget)
  from_entries (entry k v es) budget = do
    (key, budget') ← from_cbor k budget
    (val, budget'') ← from_cbor v budget'
    (rest, spent) ← from_entries es budget''
    ok (pair key val rest, spent)

-- `ValueError::from(CborError)`
unfoldable pub from_cbor_error : Result CborError CborValue → Result ValueError CborValue
from_cbor_error (ok v) = ok v
from_cbor_error (err e) = err (ValueError.cbor e)

unfoldable pub from_canonical_bytes : List ℕ → Result ValueError CanonicalValue
unfolding from_cbor_error
from_canonical_bytes input = do
  v ← from_cbor_error (Decode.from_canonical_bytes input)
  (parsed, budget) ← from_cbor v new_budget
  ok parsed
