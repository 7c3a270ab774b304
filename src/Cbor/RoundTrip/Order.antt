-- ===== src/Cbor/RoundTrip/Order.antt =====
-- The order of map keys, and what the encoder's sort and duplicate scan do to sorted keys.
use Prim.Native.Nat.{Ordering}
use ldgr.Prelude.{
  ℕ, ◌≡◌, refl, false, Option, none, some, List, [], ◌∷◌, arith, Bool-cases, inl, inr, ok,
}
use ldgr.Prelude.Bytes.{bytes_eq, bytes_eq-eq}
use ldgr.Cbor.{compare_bytes, compare_canonical_keys}
use ldgr.Cbor.Canonical.{Precedes}
use ldgr.Cbor.Encode.{Encoded, insert_entry, sort_entries, has_duplicate}
use ldgr.Cbor.Decode.{check_order}

compare_bytes-swap :
    (a b : List ℕ) → compare_bytes a b ≡ Ordering.lt → compare_bytes b a ≡ Ordering.gt
unfolding compare_bytes
compare_bytes-swap [] [] h = cc
compare_bytes-swap [] (y ∷ ys) h = refl
compare_bytes-swap (x ∷ xs) [] h = cc
compare_bytes-swap (x ∷ xs) (y ∷ ys) h = ground (arith, compare_bytes-swap xs ys)

pub compare_canonical_keys-swap :
    (a b : List ℕ)
    → compare_canonical_keys a b ≡ Ordering.lt
    → compare_canonical_keys b a ≡ Ordering.gt
unfolding compare_canonical_keys
compare_canonical_keys-swap a b h = ground (arith, compare_bytes-swap a b)

pub compare_bytes_refl : (a : List ℕ) → compare_bytes a a ≡ Ordering.eq
unfolding compare_bytes
compare_bytes_refl [] = refl
compare_bytes_refl (x ∷ xs) = ground (arith, compare_bytes_refl xs)

compare_canonical_keys_refl : (a : List ℕ) → compare_canonical_keys a a ≡ Ordering.eq
unfolding compare_canonical_keys
compare_canonical_keys_refl a = ground (arith, compare_bytes_refl a)

pub lt→not_same : (a b : List ℕ) → compare_canonical_keys a b ≡ Ordering.lt → bytes_eq a b ≡ false
lt→not_same a b h = elim (Bool-cases (bytes_eq a b)) [
  | inl same ↦
      let e : compare_canonical_keys a b ≡ Ordering.eq =
        rw (bytes_eq-eq a b same) (compare_canonical_keys_refl b) in
      cc
  | inr other ↦ other
]

-- Encoded entries whose keys ascend strictly from `prev` on.
abbrev pub Ascending : Option (List ℕ) → List Encoded → Type 0
Ascending prev [] = Unit
Ascending prev (x ∷ xs) = Precedes prev x.0 × Ascending (some x.0) xs

pub check_order-Precedes :
    (prev : Option (List ℕ)) (k : List ℕ) → Precedes prev k → check_order prev k ≡ ok tt
unfolding check_order
check_order-Precedes none k h = refl
check_order-Precedes (some p) k h = rw (h, check_order)

-- Sorting leaves sorted entries as they are.
insert_entry-first :
    (x : Encoded) (xs : List Encoded) → Ascending (some x.0) xs → insert_entry x xs ≡ x ∷ xs
unfolding insert_entry
insert_entry-first x [] h = refl
insert_entry-first x (y ∷ ys) h = rw (compare_canonical_keys-swap x.0 y.0 h.0, insert_entry)

pub sort_entries-Ascending :
    (prev : Option (List ℕ)) (xs : List Encoded) → Ascending prev xs → sort_entries xs ≡ xs
unfolding sort_entries
sort_entries-Ascending prev [] h = refl
sort_entries-Ascending prev (x ∷ xs) h =
    rw (sort_entries-Ascending (some x.0) xs h.1) (insert_entry-first x xs h.1)

pub has_duplicate-Ascending :
    (prev : Option (List ℕ)) (xs : List Encoded) → Ascending prev xs → has_duplicate xs ≡ false
unfolding has_duplicate
has_duplicate-Ascending prev [] h = refl
has_duplicate-Ascending prev (x ∷ []) h = refl
has_duplicate-Ascending prev (x ∷ y ∷ ys) h =
    rw (lt→not_same x.0 y.0 h.1.0) (has_duplicate-Ascending (some x.0) (y ∷ ys) h.1)
