-- ===== src/Format/Value/Depth.antt =====
-- An array whose elements are not nested is refused as too deep once it has 32 of them.
use ldgr.Prelude.{ℕ, zero, suc, ◌+◌, ◌-◌, ◌≤◌, ◌<◌, ◌≡◌, refl, false, arith, ltb, err}
use ldgr.Format.Value.{
  CanonicalValue, Values, no_values, value, count_values, new_budget, visit, collection,
  bounds_exceeded, max_canonical_value_depth, max_canonical_value_items, encode_into, encode_values,
  to_canonical_bytes,
}

abbrev pub nulls : ℕ → Values
nulls zero = no_values
nulls (suc n) = value CanonicalValue.null (nulls n)

count_values-nulls : (n : ℕ) → count_values (nulls n) ≡ n
count_values-nulls zero = refl
count_values-nulls (suc n) = omega (arith, count_values-nulls n)

encode_values-nulls :
    (n d i : ℕ)
    → d ≤ max_canonical_value_depth
    → max_canonical_value_depth < d + n
    → i + (max_canonical_value_depth - d) ≤ max_canonical_value_items
    → encode_values (nulls n) (record { depth = d; items = i })
      ≡ err (bounds_exceeded "nesting depth")
unfolding encode_values visit
encode_values-nulls zero d i h over few = absurd (omega arith)
encode_values-nulls (suc n) d i h over few = ground (arith, encode_values-nulls n (d + 1) (i + 1))

-- An array of 32 to 65504 nulls, whose nesting depth is 2, is refused for its nesting depth.
pub to_canonical_bytes-nulls :
    (n : ℕ)
    → max_canonical_value_depth ≤ n
    → n + max_canonical_value_depth ≤ max_canonical_value_items
    → to_canonical_bytes (CanonicalValue.array (nulls n)) ≡ err (bounds_exceeded "nesting depth")
unfolding to_canonical_bytes encode_into new_budget visit collection
to_canonical_bytes-nulls n many few =
    let fits : ltb max_canonical_value_items (1 + count_values (nulls n)) ≡ false =
      ground (arith, count_values-nulls n) in
    let refused =
      encode_values-nulls n 1 (1 + count_values (nulls n)) (omega arith) (omega arith)
        (omega (arith, count_values-nulls n)) in
    rw (fits, refused)
