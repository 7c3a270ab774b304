-- ===== src/Cbor/Tolerant/Total.antt =====
-- `parse` of the tolerant reader returns a value or an error of the program on every input.
use mathlib.Core.Path.{subst}
use ldgr.Prelude.{
  ℕ, zero, suc, ◌+◌, ◌/◌, ◌%◌, ◌≤◌, ◌≢◌, Bool, true, false, none, some, List, [], ◌∷◌, arith, ◌==◌,
  if◌then◌else◌, length, Result, ok, err, ◌>>=◌, Bool-cases, inl, inr,
}
use ldgr.Cbor.{CborValue, Items, Entries, unsupported_type, invalid_utf8}
use ldgr.Cbor.Text.{is_utf8}
use ldgr.Cbor.Tolerant.{
  Fault, failed, out_of_fuel, Reader, Slot, take_bytes_span, bounded_item_count,
  read_tolerant_header, tolerant_simple, required, tolerant_items, tolerant_entries, bytes_chunk,
  text_chunk, indefinite_string, indefinite_array, indefinite_map, indefinite_body, definite_body,
  decode_item, finish, parse,
}
use ldgr.Cbor.Tolerant.Fuel.{
  Ends, IsChecked, Ends-bind, Ends-check, Ends-weaken, take_bytes_span-Ends,
  read_tolerant_header-Ends, tolerant_simple-Ends, required-IsChecked, bytes_chunk-IsChecked,
  text_chunk-IsChecked, Steps, tolerant_items-Ends, tolerant_entries-Ends, indefinite_string-Ends,
  indefinite_array-Ends, indefinite_map-Ends,
}

bounded_item_count-IsChecked :
    (input : List ℕ) (declared least : ℕ) → IsChecked (bounded_item_count input declared least)
unfolding bounded_item_count
bounded_item_count-IsChecked input declared least = ground arith

text_if_valid-Ends :
    (input span rest : List ℕ)
    → length rest ≤ length input
    → Ends {A = Slot} 0 input
        (if is_utf8 span then ok (some (CborValue.text span), rest) else err (failed invalid_utf8))
text_if_valid-Ends input span rest h = ground arith

module _ (decode : Bool → Reader Slot) (step : (b : Bool) → Steps (decode b)) (rest : List ℕ) where
  definite_body-Ends :
      (initial major value : ℕ) → Ends 0 rest (definite_body decode initial major value rest)
  unfolding definite_body
  definite_body-Ends initial major value = ground (
    arith,
    Ends-bind 0 0 rest rest (take_bytes_span value rest)
        (λ (p : List ℕ × List ℕ). ok (some (CborValue.bytes p.0), p.1))
        (take_bytes_span-Ends value rest) (λ span rest' h. h),
    Ends-bind 0 0 rest rest (take_bytes_span value rest)
        (λ (p : List ℕ × List ℕ).
          if is_utf8 p.0 then ok (some (CborValue.text p.0), p.1) else err (failed invalid_utf8))
        (take_bytes_span-Ends value rest)
        (λ span rest' h. text_if_valid-Ends rest span rest' (omega arith)),
    Ends-check 0 rest (bounded_item_count rest value 1)
        (λ (count : ℕ).
          ◌>>=◌ {Y = Slot × List ℕ} (tolerant_items (decode false) count rest)
            (λ p. ok (some (CborValue.array p.0), p.1)))
        (bounded_item_count-IsChecked rest value 1)
        (λ count.
          Ends-bind 0 0 rest rest (tolerant_items (decode false) count rest) _
            (tolerant_items-Ends (decode false) (step false) count rest) (λ vs rest' h. h)),
    Ends-check 0 rest (bounded_item_count rest value 2)
        (λ (count : ℕ).
          ◌>>=◌ {Y = Slot × List ℕ} (tolerant_entries (decode false) count rest)
            (λ p. ok (some (CborValue.map p.0), p.1)))
        (bounded_item_count-IsChecked rest value 2)
        (λ count.
          Ends-bind 0 0 rest rest (tolerant_entries (decode false) count rest) _
            (tolerant_entries-Ends (decode false) (step false) count rest) (λ es rest' h. h)),
    Ends-bind 1 0 rest rest (decode false rest)
        (λ (p : Slot × List ℕ).
          ◌>>=◌ {Y = Slot × List ℕ} (required p.0)
            (λ inner. ok (some (CborValue.tag value inner), p.1)))
        (step false rest)
        (λ slot rest' h.
          Ends-check 0 rest (required slot) _ (required-IsChecked slot) (λ v. omega arith)),
  )

  indefinite_body-Ends :
      (initial major : ℕ) → Ends 0 rest (indefinite_body decode initial major rest)
  unfolding indefinite_body
  indefinite_body-Ends initial major =
      let fuel = suc (length rest) in
      ground (
        arith,
        Ends-bind 0 0 rest rest (indefinite_string bytes_chunk (decode true) fuel [] rest)
            (λ (p : List ℕ × List ℕ). ok (some (CborValue.bytes p.0), p.1))
            (indefinite_string-Ends (decode true) (step true) bytes_chunk bytes_chunk-IsChecked fuel
              [] rest (omega arith))
            (λ b rest' h. h),
        Ends-bind 0 0 rest rest (indefinite_string text_chunk (decode true) fuel [] rest)
            (λ (p : List ℕ × List ℕ). ok (some (CborValue.text p.0), p.1))
            (indefinite_string-Ends (decode true) (step true) text_chunk text_chunk-IsChecked fuel
              [] rest (omega arith))
            (λ b rest' h. h),
        Ends-bind 0 0 rest rest (indefinite_array (decode true) fuel rest)
            (λ (p : Items × List ℕ). ok (some (CborValue.array p.0), p.1))
            (indefinite_array-Ends (decode true) (step true) fuel rest (omega arith))
            (λ b rest' h. h),
        Ends-bind 0 0 rest rest (indefinite_map decode fuel rest)
            (λ (p : Entries × List ℕ). ok (some (CborValue.map p.0), p.1))
            (indefinite_map-Ends decode step fuel rest (omega arith)) (λ b rest' h. h),
      )

simple_or_break :
    (break_allowed : Bool) (initial : ℕ) (input : List ℕ)
    → Ends {A = Slot} 0 input (
        if initial % 32 == 31
        then if break_allowed then ok (none, input) else err (failed (unsupported_type initial))
        else tolerant_simple initial input)
simple_or_break b initial input = ground (arith, tolerant_simple-Ends initial input)

decode_item-Ends : (room : ℕ) (break_allowed : Bool) → Steps (decode_item room break_allowed)
unfolding decode_item
decode_item-Ends zero b input = tt
decode_item-Ends (suc room) b [] = tt
decode_item-Ends (suc room) b (initial ∷ input) =
    let body : Ends 0 input (
        read_tolerant_header initial input >>= λ ((major, additional, value), rest).
        if additional == 31
        then indefinite_body (decode_item room) initial major rest
        else definite_body (decode_item room) initial major value rest) =
      Ends-bind 0 0 input input (read_tolerant_header initial input) _
        (read_tolerant_header-Ends initial input)
        λ (major, additional, value) rest h. elim (Bool-cases (additional == 31)) [
          | inl e ↦ rw e (
              Ends-weaken 0 0 rest input _
                (indefinite_body-Ends (decode_item room) (decode_item-Ends room) rest initial major)
                (omega arith))
          | inr e ↦ rw e (
              Ends-weaken 0 0 rest input _
                (definite_body-Ends (decode_item room) (decode_item-Ends room) rest initial major
                  value)
                (omega arith))
        ] in
    Ends-weaken 0 1 input (initial ∷ input) _
      (elim (Bool-cases (initial / 32 == 7)) [
        | inr other ↦ rw other body
        | inl simple ↦ rw simple (simple_or_break b initial input)
      ])
      (omega arith)

whole-IsChecked : (slot : Slot) (rest : List ℕ) → IsChecked (finish (slot, rest))
unfolding finish
whole-IsChecked none rest = tt
whole-IsChecked (some v) [] = tt
whole-IsChecked (some v) (b ∷ bs) = tt

checked_after :
    (input : List ℕ) (r : Result Fault (Slot × List ℕ))
    → Ends 1 input r
    → (r >>= finish) ≢ err out_of_fuel
checked_after input (ok (slot, rest)) t e = subst IsChecked e (whole-IsChecked slot rest)
checked_after input (err (failed x)) t e = cc
checked_after input (err out_of_fuel) t e = t

-- The tolerant reader with any depth limit returns a value or an error of the program on every input:
-- its loops never run out of fuel.
pub parse-ne-out_of_fuel :
    (depth_limit : ℕ) (input : List ℕ) → parse depth_limit input ≢ err out_of_fuel
unfolding parse
parse-ne-out_of_fuel depth_limit input =
    checked_after input (decode_item (depth_limit + 1) false input)
      (decode_item-Ends (depth_limit + 1) false input)
