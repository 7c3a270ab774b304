-- ===== src/Cbor/ItemReader.antt =====
-- crates/ledger-format/src/cbor/items.rs: the reader of single canonical items, from which entries and
-- canonical values are decoded. The pair of `input` and `cursor` is the list of the bytes from the
-- cursor on; the reader that is left after an error is not kept. `Item`s are borrowed from the input in
-- the source. `read_value` takes fuel for its nesting: 32 levels, at which the budget refuses as well.
pub mod Simple
use Prim.Native.Nat.{Ordering}
use ldgr.Prelude.{
  ℕ, zero, suc, ◌+◌, ◌-◌, ◌/◌, ◌%◌, Bool, true, false, ◌||◌, Option, none, some, List, [], ◌∷◌, ltb,
  ◌==◌, if◌then◌else◌, length, take, drop, Result, ok, err, ◌>>=◌,
}
use ldgr.Cbor.{
  CborError, CborValue, max_depth, unexpected_eof, indefinite_length_forbidden, length_overflow,
  non_canonical_integer_encoding, non_canonical_float, invalid_utf8, depth_limit_exceeded,
  unsupported_type,
}
use ldgr.Cbor.Text.{is_utf8}
use ldgr.Cbor.Float.{
  is_nan, is_negative_zero, is_nan_single, is_negative_zero_single, float_eq, narrow, widen,
  f32_bits_to_f16, f16_bits_to_f64,
}
use ldgr.Cbor.Decode.{take_number, decode_header, check_order}
use ldgr.Format.Value.{
  ValueError, CanonicalValue, Values, no_values, value, Pairs, no_pairs, pair, Budget, new_budget,
  visit, collection, string, bounds_exceeded, max_canonical_value_depth,
}

pub data Item : Type 0 where
  unsigned : ℕ → Item
  negative : ℕ → Item
  bytes : List ℕ → Item
  text : List ℕ → Item
  array : ℕ → Item
  map : ℕ → Item
  bool : Bool → Item
  null : Item
  float : ℕ → Item

pub record ItemReader : Type 0 where
  pub rest : List ℕ
  pub depth : ℕ

unfoldable pub new_reader : List ℕ → ItemReader
new_reader input = record { rest = input; depth = 0 }

unfoldable pub remaining : ItemReader → ℕ
remaining r = length r.rest

unfoldable pub at_end : ItemReader → Bool
at_end r = length r.rest == 0

unfoldable pub read_f16 : List ℕ → Result CborError (ℕ × List ℕ)
read_f16 input = do
  (bits, rest) ← take_number 2 input
  let widened = f16_bits_to_f64 bits
  if is_nan widened
      then err non_canonical_float
      else if is_negative_zero widened
      then err non_canonical_float
      else ok (widened, rest)

unfoldable pub read_f32 : List ℕ → Result CborError (ℕ × List ℕ)
read_f32 input = do
  (bits, rest) ← take_number 4 input
  if is_nan_single bits
      then err non_canonical_float
      else if is_negative_zero_single bits
      then err non_canonical_float
      else if float_eq (f16_bits_to_f64 (f32_bits_to_f16 bits)) (widen bits)
      then err non_canonical_float
      else ok (widen bits, rest)

unfoldable pub read_f64 : List ℕ → Result CborError (ℕ × List ℕ)
read_f64 input = do
  (bits, rest) ← take_number 8 input
  if is_nan bits
      then err non_canonical_float
      else if is_negative_zero bits
      then err non_canonical_float
      else if float_eq (widen (narrow bits)) bits
      then err non_canonical_float
      else ok (bits, rest)

-- Major type 7: `initial` is the head byte, already read.
unfoldable pub read_simple : ℕ → List ℕ → Result CborError (Item × List ℕ)
read_simple initial rest =
    let additional = initial % 32 in
    if additional == 20
    then ok (Item.bool false, rest)
    else if additional == 21
    then ok (Item.bool true, rest)
    else if additional == 22
    then ok (Item.null, rest)
    else if additional == 25
    then (do (f, rest') ← read_f16 rest; ok (Item.float f, rest'))
    else if additional == 26
    then (do (f, rest') ← read_f32 rest; ok (Item.float f, rest'))
    else if additional == 27
    then (do (f, rest') ← read_f64 rest; ok (Item.float f, rest'))
    else if additional == 24
    then (do
      (v, rest') ← take_number 1 rest
      if ltb v 24 then err non_canonical_integer_encoding else ok (Item.unsigned v, rest'))
    else if additional == 31
    then err indefinite_length_forbidden
    else err (unsupported_type initial)

-- What follows a head of the major types 0 to 6; `checked_len` is the test of the four that have a
-- length.
unfoldable pub read_body : ℕ → ℕ → ℕ → List ℕ → Result CborError (Item × List ℕ)
read_body initial major argument rest =
    if major == 0
    then ok (Item.unsigned argument, rest)
    else if major == 1
    then ok (Item.negative argument, rest)
    else if ltb 5 major
    then err (unsupported_type initial)
    else if ltb (length rest) argument
    then err length_overflow
    else if major == 2
    then ok (Item.bytes (take argument rest), drop argument rest)
    else if major == 3
    then if is_utf8 (take argument rest)
      then ok (Item.text (take argument rest), drop argument rest)
      else err invalid_utf8
    else if major == 4
    then ok (Item.array argument, rest)
    else ok (Item.map argument, rest)

unfoldable pub read_item_inner : List ℕ → Result CborError (Item × List ℕ)
read_item_inner [] = err unexpected_eof
read_item_inner (initial ∷ rest) = if initial / 32 == 7 then read_simple initial rest else (do
  ((major, argument), rest') ← decode_header (initial ∷ rest)
  read_body initial major argument rest')

unfoldable pub read_item : ItemReader → Result CborError (Item × ItemReader)
read_item r = if ltb max_depth (r.depth + 1) then err depth_limit_exceeded else (do
  (item, rest) ← read_item_inner r.rest
  ok (item, record { rest = rest; depth = r.depth + 1 - 1 }))

-- The readers of one type: what `pick` does not take is an `UnsupportedType(0)`.
unfoldable pub read_as :
    {A : Type 0} → (Item → Option A) → ItemReader → Result CborError (A × ItemReader)
read_as pick r = do
  (item, r') ← read_item r
  elim (pick item) [ some a ↦ ok (a, r') | none ↦ err (unsupported_type 0) ]

unfoldable pub as_unsigned : Item → Option ℕ
as_unsigned (Item.unsigned v) = some v
as_unsigned _ = none

unfoldable pub as_bytes : Item → Option (List ℕ)
as_bytes (Item.bytes b) = some b
as_bytes _ = none

unfoldable pub as_text : Item → Option (List ℕ)
as_text (Item.text t) = some t
as_text _ = none

unfoldable pub as_bool : Item → Option Bool
as_bool (Item.bool b) = some b
as_bool _ = none

unfoldable pub as_array : Item → Option ℕ
as_array (Item.array n) = some n
as_array _ = none

unfoldable pub as_null : Item → Option (Unit {0})
as_null Item.null = some tt
as_null _ = none

unfoldable pub item_to_owned : Item → Result CborError CborValue
item_to_owned (Item.unsigned v) = ok (CborValue.unsigned v)
item_to_owned (Item.negative v) = ok (CborValue.negative v)
item_to_owned (Item.bytes b) = ok (CborValue.bytes b)
item_to_owned (Item.text t) = ok (CborValue.text t)
item_to_owned (Item.array n) = err (unsupported_type 0)
item_to_owned (Item.map n) = err (unsupported_type 0)
item_to_owned (Item.bool b) = ok (CborValue.bool b)
item_to_owned Item.null = ok CborValue.null
item_to_owned (Item.float f) = ok (CborValue.float f)

-- `map_err` into a `ValueError`.
unfoldable pub lift : {A : Type 0} → Result CborError A → Result ValueError A
lift (ok a) = ok a
lift (err e) = err (ValueError.cbor e)

-- A run over the reader and the budget.
abbrev pub Reading : Type 0 → Type 0
Reading A = ItemReader → Budget → Result ValueError (A × ItemReader × Budget)

-- The loops over an array and a map, with the reader of their parts.
unfoldable pub read_values : Reading CanonicalValue → ℕ → Reading Values
read_values read zero r budget = ok (no_values, r, budget)
read_values read (suc n) r budget = do
  (v, r', budget') ← read r budget
  (vs, r'', budget'') ← read_values read n r' budget'
  ok (value v vs, r'', budget'')

unfoldable pub read_pairs : Reading CanonicalValue → ℕ → Option (List ℕ) → Reading Pairs
read_pairs read zero previous_key r budget = ok (no_pairs, r, budget)
read_pairs read (suc n) previous_key r budget = do
  (key, r', budget') ← read r budget
  let raw_key = take (remaining r - remaining r') r.rest
  _ ← lift (check_order previous_key raw_key)
  (val, r'', budget'') ← read r' budget'
  (ps, r''', spent) ← read_pairs read n (some raw_key) r'' budget''
  ok (pair key val ps, r''', spent)

-- What `read_value` makes of an item.
unfoldable pub value_of : Reading CanonicalValue → Item → Reading CanonicalValue
value_of read (Item.unsigned v) r budget = ok (CanonicalValue.unsigned v, r, budget)
value_of read (Item.negative v) r budget = ok (CanonicalValue.negative v, r, budget)
value_of read (Item.bytes b) r budget = do
  budget' ← string (length b) budget
  ok (CanonicalValue.bytes b, r, budget')
value_of read (Item.text t) r budget = do
  budget' ← string (length t) budget
  ok (CanonicalValue.text t, r, budget')
value_of read (Item.array n) r budget = do
  budget' ← collection n budget
  (vs, r', spent) ← read_values read n r budget'
  ok (CanonicalValue.array vs, r', spent)
value_of read (Item.map n) r budget = do
  budget' ← collection n budget
  (ps, r', spent) ← read_pairs read n none r budget'
  ok (CanonicalValue.map ps, r', spent)
value_of read (Item.bool b) r budget = ok (CanonicalValue.bool b, r, budget)
value_of read Item.null r budget = ok (CanonicalValue.null, r, budget)
value_of read (Item.float f) r budget =
    if is_nan f || is_negative_zero f
    then err (bounds_exceeded "floats must not be NaN or negative zero")
    else ok (CanonicalValue.float f, r, budget)

unfoldable pub read_value : ℕ → Reading CanonicalValue
read_value zero r budget = err (bounds_exceeded "nesting depth")
read_value (suc fuel) r budget = do
  visited ← visit budget
  (item, r') ← lift (read_item r)
  value_of (read_value fuel) item r' visited

unfoldable pub read_canonical_value : ItemReader → Result ValueError (CanonicalValue × ItemReader)
read_canonical_value r = do
  (v, r', budget) ← read_value max_canonical_value_depth r new_budget
  ok (v, r')
