-- ===== src/Explorer/Ddmin.antt =====
-- crates/ledger-explorer/src/minimizer/ddmin.rs: delta debugging.
-- `fails` is a pure test. The loop takes fuel; `none` is a run that ends in its fuel.
pub mod Total
pub mod Minimal
use ldgr.Prelude.{
  ℕ, zero, suc, ◌+◌, ◌-◌, ◌*◌, ◌/◌, min, max, Bool, Option, none, some, List, ◌++◌, ltb, leb, ◌==◌,
  if◌then◌else◌, length, take, drop,
}

-- `div_ceil`
unfoldable pub div_ceil : ℕ → ℕ → ℕ
div_ceil n d = (n + (d - 1)) / d

module _ {A : Type 0} (fails : List A → Bool) where
  -- `current` without the chunk `index`.
  unfoldable pub candidate : List A → ℕ → ℕ → List A
  candidate current chunk index =
      let start = index * chunk in
      let end = min (start + chunk) (length current) in take start current ++ drop end current

  -- The inner loop, with `rounds` partitions left: the first candidate that fails.
  unfoldable pub first_failing : List A → ℕ → ℕ → ℕ → Option (List A)
  first_failing current chunk index zero = none
  first_failing current chunk index (suc rounds) =
      let rest = first_failing current chunk (index + 1) rounds in
      let cut = candidate current chunk index in
      if leb (length current) (index * chunk) then none else if fails cut then some cut else rest

  -- The outer loop.
  unfoldable pub reduce : ℕ → List A → ℕ → Option (List A)
  reduce zero current partitions = none
  reduce (suc fuel) current partitions =
      let found = first_failing current (div_ceil (length current) partitions) 0 partitions in
      let coarse = reduce fuel current (min (partitions * 2) (length current)) in
      if ltb (length current) 2 then some current else elim found [
        | some smaller ↦ reduce fuel smaller (max (partitions - 1) 2)
        | none ↦ if partitions == length current then some current else coarse
      ]

  unfoldable pub ddmin : ℕ → List A → Option (List A)
  ddmin fuel input =
      if ltb (length input) 2
      then some input
      else if fails input
      then reduce fuel input 2
      else some input
