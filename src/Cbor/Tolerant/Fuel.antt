-- ===== src/Cbor/Tolerant/Fuel.antt =====
-- The tolerant reader ends within its fuel, since every part that it reads takes a byte.
use ldgr.Prelude.{
  ℕ, zero, suc, ◌+◌, ◌/◌, ◌%◌, ◌≤◌, ◌<◌, Bool, true, false, Option, none, some, List, ◌++◌, arith,
  length, length-drop, Result, ok, err, ◌>>=◌,
}
use ldgr.Cbor.{CborValue}
use ldgr.Cbor.Float.{widen, f16_bits_to_f64}
use ldgr.Cbor.Tolerant.{
  Fault, failed, out_of_fuel, Reader, Slot, take_bytes, take_bytes_span, wide, read_tolerant_header,
  decode_float_tolerant, tolerant_simple, required, tolerant_items, tolerant_entries, bytes_chunk,
  text_chunk, indefinite_string, indefinite_array, indefinite_map,
}

-- The run kept within its fuel, and took `n` bytes of the input if it succeeded.
abbrev pub Ends : {A : Type 0} → ℕ → List ℕ → Result Fault (A × List ℕ) → Type 0
Ends n input (ok (a, rest)) = length rest + n ≤ length input
Ends n input (err (failed e)) = Unit
Ends n input (err out_of_fuel) = ⊥

-- The same of a step that reads nothing.
abbrev pub IsChecked : {A : Type 0} → Result Fault A → Type 0
IsChecked (ok a) = Unit
IsChecked (err (failed e)) = Unit
IsChecked (err out_of_fuel) = ⊥

pub Ends-bind :
    {A B : Type 0} (n m : ℕ) (inner input : List ℕ) (r : Result Fault (A × List ℕ))
    (f : A × List ℕ → Result Fault (B × List ℕ))
    → Ends n inner r
    → ((a : A) (rest : List ℕ) → length rest + n ≤ length inner → Ends m input (f (a, rest)))
    → Ends m input (r >>= f)
Ends-bind n m inner input (ok (a, rest)) f t k = k a rest t
Ends-bind n m inner input (err (failed e)) f t k = tt
Ends-bind n m inner input (err out_of_fuel) f t k = t

pub Ends-check :
    {A B : Type 0} (m : ℕ) (input : List ℕ) (c : Result Fault A) (f : A → Result Fault (B × List ℕ))
    → IsChecked c
    → ((a : A) → Ends m input (f a))
    → Ends m input (c >>= f)
Ends-check m input (ok a) f t k = k a
Ends-check m input (err (failed e)) f t k = tt
Ends-check m input (err out_of_fuel) f t k = t

pub Ends-weaken :
    {A : Type 0} (n m : ℕ) (inner input : List ℕ) (r : Result Fault (A × List ℕ))
    → Ends n inner r
    → length inner + m ≤ length input + n
    → Ends m input r
Ends-weaken n m inner input (ok (a, rest)) t h = omega arith
Ends-weaken n m inner input (err (failed e)) t h = tt
Ends-weaken n m inner input (err out_of_fuel) t h = t

take_bytes-Ends : (n : ℕ) (input : List ℕ) → Ends 0 input (take_bytes n input)
unfolding take_bytes
take_bytes-Ends n input = ground (arith, length-drop n input)

pub take_bytes_span-Ends : (n : ℕ) (input : List ℕ) → Ends 0 input (take_bytes_span n input)
unfolding take_bytes_span
take_bytes_span-Ends n input = ground (arith, length-drop n input)

wide-Ends : (n major additional : ℕ) (input : List ℕ) → Ends 0 input (wide n major additional input)
unfolding wide
wide-Ends n major additional input =
    Ends-bind 0 0 input input (take_bytes n input) _ (take_bytes-Ends n input) λ b rest h. h

pub read_tolerant_header-Ends :
    (initial : ℕ) (input : List ℕ) → Ends 0 input (read_tolerant_header initial input)
unfolding read_tolerant_header
read_tolerant_header-Ends initial input =
    let major = initial / 32 in
    let additional = initial % 32 in
    ground (
      arith,
      wide-Ends 1 major additional input,
      wide-Ends 2 major additional input,
      wide-Ends 4 major additional input,
      wide-Ends 8 major additional input,
    )

decode_float_tolerant-Ends :
    (n : ℕ) (cast : ℕ → ℕ) (input : List ℕ) → Ends 0 input (decode_float_tolerant n cast input)
unfolding decode_float_tolerant
decode_float_tolerant-Ends n cast input =
    Ends-bind 0 0 input input (take_bytes n input) _ (take_bytes-Ends n input) λ b rest h. h

pub tolerant_simple-Ends :
    (initial : ℕ) (input : List ℕ) → Ends 0 input (tolerant_simple initial input)
unfolding tolerant_simple
tolerant_simple-Ends initial input = ground (
  arith,
  decode_float_tolerant-Ends 2 f16_bits_to_f64 input,
  decode_float_tolerant-Ends 4 widen input,
  decode_float_tolerant-Ends 8 (λ (bits : ℕ). bits) input,
)

pub required-IsChecked : (slot : Slot) → IsChecked (required slot)
unfolding required
required-IsChecked none = tt
required-IsChecked (some v) = tt

pub bytes_chunk-IsChecked : (slot : Slot) → IsChecked (bytes_chunk slot)
unfolding bytes_chunk
bytes_chunk-IsChecked none = tt
bytes_chunk-IsChecked (some (CborValue.bytes b)) = tt
bytes_chunk-IsChecked (some _) = tt

pub text_chunk-IsChecked : (slot : Slot) → IsChecked (text_chunk slot)
unfolding text_chunk
text_chunk-IsChecked none = tt
text_chunk-IsChecked (some (CborValue.text b)) = tt
text_chunk-IsChecked (some _) = tt

abbrev pub Steps : Reader Slot → Type 0
Steps decode = (input : List ℕ) → Ends 1 input (decode input)

module _ (decode : Reader Slot) (step : Steps decode) where
  pub tolerant_items-Ends :
      (count : ℕ) (input : List ℕ) → Ends 0 input (tolerant_items decode count input)
  unfolding tolerant_items
  tolerant_items-Ends zero input = omega arith
  tolerant_items-Ends (suc count) input =
      Ends-bind 1 0 input input (decode input) _ (step input) λ slot rest h.
        Ends-check 0 input (required slot) _ (required-IsChecked slot) λ v.
          Ends-bind 0 0 rest input (tolerant_items decode count rest) _
            (tolerant_items-Ends count rest) λ vs rest' h'. omega arith

  pub tolerant_entries-Ends :
      (count : ℕ) (input : List ℕ) → Ends 0 input (tolerant_entries decode count input)
  unfolding tolerant_entries
  tolerant_entries-Ends zero input = omega arith
  tolerant_entries-Ends (suc count) input =
      Ends-bind 1 0 input input (decode input) _ (step input) λ slot rest h.
        Ends-check 0 input (required slot) _ (required-IsChecked slot) λ key.
          Ends-bind 1 0 rest input (decode rest) _ (step rest) λ slot' rest' h'.
            Ends-check 0 input (required slot') _ (required-IsChecked slot') λ val.
              Ends-bind 0 0 rest' input (tolerant_entries decode count rest') _
                (tolerant_entries-Ends count rest') λ es rest'' h''. omega arith

  pub indefinite_string-Ends :
      (chunk : Slot → Result Fault (Option (List ℕ)))
      → ((slot : Slot) → IsChecked (chunk slot))
      → (fuel : ℕ) (out input : List ℕ) → length input < fuel
      → Ends 0 input (indefinite_string chunk decode fuel out input)
  unfolding indefinite_string
  indefinite_string-Ends chunk checked zero out input h = absurd (omega arith)
  indefinite_string-Ends chunk checked (suc fuel) out input h =
      Ends-bind 1 0 input input (decode input) _ (step input) λ slot rest h'.
        Ends-check 0 input (chunk slot) _ (checked slot) (elim [
          | none ↦ omega arith
          | some more ↦
              Ends-weaken 0 0 rest input (indefinite_string chunk decode fuel (out ++ more) rest)
                (indefinite_string-Ends chunk checked fuel (out ++ more) rest (omega arith))
                (omega arith)
        ])

  pub indefinite_array-Ends :
      (fuel : ℕ) (input : List ℕ)
      → length input < fuel
      → Ends 0 input (indefinite_array decode fuel input)
  unfolding indefinite_array
  indefinite_array-Ends zero input h = absurd (omega arith)
  indefinite_array-Ends (suc fuel) input h =
      Ends-bind 1 0 input input (decode input) _ (step input) (elim [
        | none ↦ λ rest h'. omega arith
        | some v ↦ λ rest h'.
            Ends-bind 0 0 rest input (indefinite_array decode fuel rest) _
              (indefinite_array-Ends fuel rest (omega arith)) λ vs rest' h''. omega arith
      ])

module _ (decode : Bool → Reader Slot) (step : (b : Bool) → Steps (decode b)) where
  pub indefinite_map-Ends :
      (fuel : ℕ) (input : List ℕ)
      → length input < fuel
      → Ends 0 input (indefinite_map decode fuel input)
  unfolding indefinite_map
  indefinite_map-Ends zero input h = absurd (omega arith)
  indefinite_map-Ends (suc fuel) input h =
      Ends-bind 1 0 input input (decode true input) _ (step true input) (elim [
        | none ↦ λ rest h'. omega arith
        | some key ↦ λ rest h'.
            Ends-bind 1 0 rest input (decode false rest) _ (step false rest) λ slot rest' h''.
              Ends-check 0 input (required slot) _ (required-IsChecked slot) λ val.
                Ends-bind 0 0 rest' input (indefinite_map decode fuel rest') _
                  (indefinite_map-Ends fuel rest' (omega arith)) λ es rest'' h3. omega arith
      ])
