-- ===== src/Tests.antt =====
-- The properties of the values, the reduction and the clocks on concrete inputs.
pub mod Causal
pub mod Frames
pub mod State
pub mod Storage
pub mod Network
pub mod Messages
pub mod Search
use Prim.Native.String.{String}
use ldgr.Prelude.{
  ℕ, ◌*◌, ◌+◌, ◌^◌, ◌≤◌, ◌≡◌, ◌≢◌, ◌↔◌, refl, max, Bool, true, false, Option, none, some, List, [],
  ◌∷◌, ◌++◌, map, arith, leb, if◌then◌else◌, length, drop, All, Result, ok, err,
}
use ldgr.Prelude.Bytes.{IsByte, be_bytes, from_be}
use ldgr.Cbor.{
  CborValue, no_items, item, no_entries, entry, max_depth, compare_bytes, compare_canonical_keys,
}
use ldgr.Cbor.Float.{is_nan, is_negative_zero}
use ldgr.Cbor.Encode.{major, unsigned, try_encode, to_canonical_bytes}
use ldgr.Cbor.Decode.{
  take_number, wide_argument, header_argument, decode_header, decode_simple, decode_items,
  decode_body, decode_value, whole, from_canonical_bytes,
}
use ldgr.Cbor.Canonical.{Canonical, nil, cons, end, more}
use ldgr.Cbor.RoundTrip.Whole.{from_canonical_bytes-to_canonical_bytes}
use ldgr.Cbor.Tolerant.{out_of_fuel, parse, parse_tolerant}
use ldgr.Cbor.Tolerant.Superset.{parse_tolerant-from_canonical_bytes}
use ldgr.Cbor.Tolerant.Total.{parse-ne-out_of_fuel}
use ldgr.Explorer.Ddmin.{ddmin}
use ldgr.Explorer.Ddmin.Total.{ddmin_total}
use ldgr.Journal.Clock.{VectorClock, IsClock, get, merge, happens_before_or_equal}
use ldgr.Journal.Clock.Merge.{get-merge, happens_before_or_equal_iff}

-- An array of a map with two keys, a float and null.
abbrev nested : CborValue
nested = CborValue.array (
    item
      (CborValue.map (
        entry (CborValue.unsigned 7) CborValue.null
          (entry (CborValue.unsigned 500) (CborValue.bool true) no_entries)))
      (item (CborValue.float (1023 * 2 ^ 52)) (item CborValue.null no_items)))

nested-Canonical : Canonical (max_depth + 1) nested
unfolding is_nan is_negative_zero compare_canonical_keys compare_bytes try_encode unsigned major
    be_bytes
nested-Canonical =
    Canonical.array
      (cons
        (Canonical.map
          (more tt (Canonical.unsigned (omega arith)) Canonical.null
            (more refl (Canonical.unsigned (omega arith)) (Canonical.bool true) end))
          (omega arith))
        (cons (Canonical.float (omega arith) refl refl) (cons Canonical.null nil)))
      (omega arith)

from_canonical_bytes-to_canonical_bytes_example :
    (b : List ℕ) × (to_canonical_bytes nested ≡ ok b) × (from_canonical_bytes b ≡ ok nested)
from_canonical_bytes-to_canonical_bytes_example =
    from_canonical_bytes-to_canonical_bytes nested nested-Canonical

abbrev pair_bytes : List ℕ
pair_bytes = 130 ∷ 24 ∷ 200 ∷ 246 ∷ []

abbrev pair : CborValue
pair = CborValue.array (item (CborValue.unsigned 200) (item CborValue.null no_items))

pair_decoded : from_canonical_bytes pair_bytes ≡ ok pair
unfolding from_canonical_bytes whole decode_value decode_header header_argument wide_argument
    take_number from_be decode_body decode_items decode_simple
pair_decoded = refl

parse_tolerant-from_canonical_bytes_example : parse_tolerant pair_bytes ≡ ok pair
parse_tolerant-from_canonical_bytes_example =
    parse_tolerant-from_canonical_bytes pair_bytes pair pair_decoded

-- An array of indefinite length, which is cut off.
parse-ne-out_of_fuel_example : parse 4 (159 ∷ 1 ∷ 95 ∷ []) ≢ err out_of_fuel
parse-ne-out_of_fuel_example = parse-ne-out_of_fuel 4 (159 ∷ 1 ∷ 95 ∷ [])

-- An input fails when two of its elements are 5 or more.
abbrev pub large : List ℕ → ℕ
large [] = 0
large (n ∷ ns) = (if leb 5 n then 1 else 0) + large ns

abbrev pub fails_twice : List ℕ → Bool
fails_twice ns = leb 2 (large ns)

abbrev pub schedule : List ℕ
schedule = 1 ∷ 6 ∷ 2 ∷ 3 ∷ 9 ∷ 8 ∷ []

ddmin_total_example :
    (r : List ℕ) × (ddmin fails_twice
        (length schedule * length schedule + length schedule + 2)
        schedule
      ≡ some r)
    × (fails_twice r ≡ true)
    × (length r ≤ length schedule)
ddmin_total_example = ddmin_total fails_twice schedule refl

abbrev left_clock : VectorClock
left_clock = (1, 4) ∷ (3, 2) ∷ []

abbrev right_clock : VectorClock
right_clock = (1, 5) ∷ (2, 1) ∷ []

get-merge_example :
    IsClock (merge left_clock right_clock)
    × ((actor : ℕ)
        → get (merge left_clock right_clock) actor
          ≡ max (get left_clock actor) (get right_clock actor))
get-merge_example =
    get-merge left_clock right_clock (omega arith, (omega arith, tt))
      (omega arith, (omega arith, tt))

happens_before_or_equal_iff_example :
    (happens_before_or_equal left_clock right_clock ≡ true)
    ↔ ((actor : ℕ) → get left_clock actor ≤ get right_clock actor)
happens_before_or_equal_iff_example =
    happens_before_or_equal_iff left_clock right_clock (omega arith, (omega arith, tt))
