-- ===== src/Cbor/Decode/Consume.antt =====
-- A value that is decoded takes at least one byte of the input.
use ldgr.Prelude.{
  ℕ, zero, suc, ◌+◌, ◌-◌, ◌*◌, ◌/◌, ◌≤◌, ◌≡◌, Option, none, some, List, [], ◌∷◌, arith, ◌==◌,
  length, take, length-drop, Result, ok, err, Bool-cases, inl, inr, ◌>>=◌,
}
use ldgr.Cbor.{CborError, CborValue}
use ldgr.Cbor.Encode.{contains}
use ldgr.Cbor.Decode.{
  Decoder, take_number, wide_argument, header_argument, decode_header, decode_f16, decode_f32,
  decode_f64, decode_simple, check_order, decode_items, decode_entries, decode_body, decode_value,
}

-- The bytes left by a successful run are at most those of the input, less `n`.
abbrev pub Takes : {A : Type 0} → ℕ → List ℕ → Result CborError (A × List ℕ) → Type 0
Takes n input (ok (a, rest)) = length rest + n ≤ length input
Takes n input (err e) = Unit

pub Takes-ok :
    {A : Type 0} (n : ℕ) (input : List ℕ) (r : Result CborError (A × List ℕ)) {a : A}
    {rest : List ℕ}
    → Takes n input r
    → r ≡ ok (a, rest)
    → length rest + n ≤ length input
Takes-ok n input (ok (a, rest)) t e = ground arith
Takes-ok n input (err x) t e = cc

pub Takes-bind :
    {A B : Type 0} (n m : ℕ) (inner input : List ℕ) (r : Result CborError (A × List ℕ))
    (f : A × List ℕ → Result CborError (B × List ℕ))
    → Takes n inner r
    → ((a : A) (rest : List ℕ) → length rest + n ≤ length inner → Takes m input (f (a, rest)))
    → Takes m input (r >>= f)
Takes-bind n m inner input (ok (a, rest)) f t k = k a rest t
Takes-bind n m inner input (err e) f t k = tt

Takes-weaken :
    {A : Type 0} (n m : ℕ) (inner input : List ℕ) (r : Result CborError (A × List ℕ))
    → Takes n inner r
    → length inner + m ≤ length input + n
    → Takes m input r
Takes-weaken n m inner input (ok (a, rest)) t h = omega arith
Takes-weaken n m inner input (err e) t h = tt

Takes-after_check :
    {A : Type 0} (m : ℕ) (input : List ℕ) (c : Result CborError (Unit {0}))
    (r : Result CborError (A × List ℕ))
    → Takes m input r
    → Takes m input (c >>= λ _. r)
Takes-after_check m input (ok u) r t = t
Takes-after_check m input (err e) r t = tt

take_number-Takes : (n : ℕ) (input : List ℕ) → Takes n input (take_number n input)
unfolding take_number
take_number-Takes n input = ground (arith, length-drop n input)

wide_argument-Takes :
    (n least major : ℕ) (input : List ℕ) → Takes 0 input (wide_argument n least major input)
unfolding wide_argument
wide_argument-Takes n least major input =
    Takes-bind n 0 input input (take_number n input) _ (take_number-Takes n input)
      λ v rest h. ground arith

decode_header-Takes : (input : List ℕ) → Takes 1 input (decode_header input)
unfolding decode_header header_argument
decode_header-Takes [] = tt
decode_header-Takes (initial ∷ rest) =
    Takes-weaken 0 1 rest (initial ∷ rest) (header_argument initial rest)
      (ground (
        arith,
        wide_argument-Takes 1 24 (initial / 32) rest,
        wide_argument-Takes 2 0x100 (initial / 32) rest,
        wide_argument-Takes 4 0x1_0000 (initial / 32) rest,
        wide_argument-Takes 8 0x1_0000_0000 (initial / 32) rest,
      ))
      (omega arith)

decode_f16-Takes : (input : List ℕ) → Takes 0 input (decode_f16 input)
unfolding decode_f16
decode_f16-Takes input =
    Takes-bind 2 0 input input (take_number 2 input) _ (take_number-Takes 2 input)
      λ v rest h. ground arith

decode_f32-Takes : (input : List ℕ) → Takes 0 input (decode_f32 input)
unfolding decode_f32
decode_f32-Takes input =
    Takes-bind 4 0 input input (take_number 4 input) _ (take_number-Takes 4 input)
      λ v rest h. ground arith

decode_f64-Takes : (input : List ℕ) → Takes 0 input (decode_f64 input)
unfolding decode_f64
decode_f64-Takes input =
    Takes-bind 8 0 input input (take_number 8 input) _ (take_number-Takes 8 input)
      λ v rest h. ground arith

decode_simple-Takes : (initial : ℕ) (rest : List ℕ) → Takes 0 rest (decode_simple initial rest)
unfolding decode_simple
decode_simple-Takes initial rest =
    ground (arith, decode_f16-Takes rest, decode_f32-Takes rest, decode_f64-Takes rest)

-- The loops, over a decoder whose values take a byte each.
module _ (decode : Decoder CborValue) (step : (input : List ℕ) → Takes 1 input (decode input)) where
  pub decode_items-Takes :
      (count : ℕ) (input : List ℕ) → Takes count input (decode_items decode count input)
  unfolding decode_items
  decode_items-Takes zero input = omega arith
  decode_items-Takes (suc count) input =
      Takes-bind 1 (suc count) input input (decode input) _ (step input) λ v rest h.
        Takes-bind count (suc count) rest input (decode_items decode count rest) _
          (decode_items-Takes count rest) λ vs rest' h'. omega arith

  pub decode_entries-Takes :
      (count : ℕ) (prev : Option (List ℕ)) (input : List ℕ)
      → Takes (2 * count) input (decode_entries decode count prev input)
  unfolding decode_entries
  decode_entries-Takes zero prev input = omega arith
  decode_entries-Takes (suc count) prev input =
      Takes-bind 1 (2 * suc count) input input (decode input) _ (step input) λ key rest h.
        let raw_key = take (length input - length rest) input in
        Takes-after_check (2 * suc count) input (check_order prev raw_key) _ (
          Takes-bind 1 (2 * suc count) rest input (decode rest) _ (step rest) λ val rest' h'.
            Takes-bind (2 * count) (2 * suc count) rest' input
              (decode_entries decode count (some raw_key) rest') _
              (decode_entries-Takes count (some raw_key) rest') λ es rest'' h''. omega arith)

  pub decode_body-Takes :
      (initial major value : ℕ) (rest : List ℕ)
      → Takes 0 rest (decode_body decode initial major value rest)
  unfolding decode_body contains
  decode_body-Takes initial major value rest =
      let items : Takes 0 rest
          (decode_items decode value rest >>= λ (vs, rest'). ok (CborValue.array vs, rest')) =
        Takes-bind value 0 rest rest (decode_items decode value rest) _
          (decode_items-Takes value rest) λ vs rest' h. omega arith in
      let entries : Takes 0 rest
          (decode_entries decode value none rest >>= λ (es, rest'). ok (CborValue.map es, rest')) =
        Takes-bind (2 * value) 0 rest rest (decode_entries decode value none rest) _
          (decode_entries-Takes value none rest) λ es rest' h. omega arith in
      ground (arith, items, entries, length-drop value rest)

pub decode_value-Takes : (room : ℕ) (input : List ℕ) → Takes 1 input (decode_value room input)
unfolding decode_value
decode_value-Takes zero input = tt
decode_value-Takes (suc room) [] = tt
decode_value-Takes (suc room) (initial ∷ rest) = elim (Bool-cases (initial / 32 == 7)) [
  | inl simple ↦ rw simple (
      Takes-weaken 0 1 rest (initial ∷ rest) (decode_simple initial rest)
        (decode_simple-Takes initial rest) (omega arith))
  | inr other ↦ rw other (
      Takes-bind 1 1 (initial ∷ rest) (initial ∷ rest) (decode_header (initial ∷ rest)) _
        (decode_header-Takes (initial ∷ rest))
        λ (major, value) rest' h.
          Takes-weaken 0 1 rest' (initial ∷ rest)
            (decode_body (decode_value room) initial major value rest')
            (decode_body-Takes (decode_value room) (decode_value-Takes room) initial major value
              rest')
            (omega arith))
]
