-- ===== src/Format/Value/Agree.antt =====
-- What the bounded decoder accepts is a value that the plain decoder reads, with few nodes in all.
use ldgr.Prelude.{
  ℕ, ◌+◌, ◌≤◌, ◌≡◌, refl, ap, sym, ◌∙◌, ◌||◌, List, arith, ltb, length, Result, ok, err, ◌>>=◌,
  Post, Post-ok, Post-bind, Post-if,
}
use ldgr.Cbor.{
  CborError, CborValue, Items, no_items, item, Entries, no_entries, entry, count_items,
  count_entries,
}
use ldgr.Cbor.Float.{is_nan, is_negative_zero}
use ldgr.Cbor.Decode
use ldgr.Format.Value.{
  CanonicalValue, Values, no_values, value, Pairs, no_pairs, pair, Budget, new_budget, visit,
  collection, string, max_canonical_value_depth, max_canonical_value_items, from_cbor, from_items,
  from_entries, from_cbor_error, from_canonical_bytes,
}

-- The same value without bounds.
abbrev mutual
  pub as_cbor : CanonicalValue → CborValue
  as_cbor (CanonicalValue.unsigned v) = CborValue.unsigned v
  as_cbor (CanonicalValue.negative v) = CborValue.negative v
  as_cbor (CanonicalValue.bytes b) = CborValue.bytes b
  as_cbor (CanonicalValue.text s) = CborValue.text s
  as_cbor (CanonicalValue.array vs) = CborValue.array (as_items vs)
  as_cbor (CanonicalValue.map ps) = CborValue.map (as_entries ps)
  as_cbor (CanonicalValue.bool b) = CborValue.bool b
  as_cbor CanonicalValue.null = CborValue.null
  as_cbor (CanonicalValue.float f) = CborValue.float f

  pub as_items : Values → Items
  as_items no_values = no_items
  as_items (value v vs) = item (as_cbor v) (as_items vs)

  pub as_entries : Pairs → Entries
  as_entries no_pairs = no_entries
  as_entries (pair k v ps) = entry (as_cbor k) (as_cbor v) (as_entries ps)

-- How many values it holds in all, itself included.
abbrev mutual
  pub nodes : CanonicalValue → ℕ
  nodes (CanonicalValue.unsigned v) = 1
  nodes (CanonicalValue.negative v) = 1
  nodes (CanonicalValue.bytes b) = 1
  nodes (CanonicalValue.text s) = 1
  nodes (CanonicalValue.array vs) = 1 + nodes_of_values vs
  nodes (CanonicalValue.map ps) = 1 + nodes_of_pairs ps
  nodes (CanonicalValue.bool b) = 1
  nodes CanonicalValue.null = 1
  nodes (CanonicalValue.float f) = 1

  pub nodes_of_values : Values → ℕ
  nodes_of_values no_values = 0
  nodes_of_values (value v vs) = nodes v + nodes_of_values vs

  pub nodes_of_pairs : Pairs → ℕ
  nodes_of_pairs no_pairs = 0
  nodes_of_pairs (pair k v ps) = nodes k + nodes v + nodes_of_pairs ps

abbrev Visited : Budget → Budget → Type 0
Visited start budget = (budget.depth ≡ start.depth + 1) × (budget.depth ≤ max_canonical_value_depth)

abbrev SameDepth : Budget → Budget → Type 0
SameDepth start budget = budget.depth ≡ start.depth

visit-Visited : (start : Budget) → Post (visit start) (Visited start)
unfolding visit
visit-Visited start =
    Post-if _ (ltb max_canonical_value_depth (start.depth + 1)) _ _ (λ _. tt)
      λ shallow.
        Post-if _ (ltb max_canonical_value_items (start.items + 1)) _ _ (λ _. tt)
          λ few. (refl, ground arith)

collection-SameDepth : (n : ℕ) (start : Budget) → Post (collection n start) (SameDepth start)
unfolding collection
collection-SameDepth n start =
    Post-if _ (ltb max_canonical_value_items (start.items + n)) _ _ (λ _. tt) λ few. refl

string-SameDepth : (n : ℕ) (start : Budget) → Post (string n start) (SameDepth start)
unfolding string
string-SameDepth n start = ground arith

abbrev Parsed : CborValue → Budget → CanonicalValue × Budget → Type 0
Parsed c start (v, spent) =
    (as_cbor v ≡ c)
    × (spent.depth ≡ start.depth + nodes v)
    × (spent.depth ≤ max_canonical_value_depth)

abbrev ParsedItems : Items → Budget → Values × Budget → Type 0
ParsedItems c start (v, spent) =
    (as_items v ≡ c)
    × (spent.depth ≡ start.depth + nodes_of_values v)
    × (start.depth ≤ max_canonical_value_depth → spent.depth ≤ max_canonical_value_depth)

abbrev ParsedEntries : Entries → Budget → Pairs × Budget → Type 0
ParsedEntries c start (v, spent) =
    (as_entries v ≡ c)
    × (spent.depth ≡ start.depth + nodes_of_pairs v)
    × (start.depth ≤ max_canonical_value_depth → spent.depth ≤ max_canonical_value_depth)

-- A value of one node, after the visit; and one whose string is measured.
leaf-Parsed :
    (v : CanonicalValue) (start : Budget)
    → nodes v ≡ 1
    → Post (visit start >>= λ (budget : Budget). ok (v, budget)) (Parsed (as_cbor v) start)
leaf-Parsed v start one =
    Post-bind _ _ (visit start) _ (visit-Visited start)
      λ budget (d, small). (refl, omega arith, small)

string-Parsed :
    (v : CanonicalValue) (n : ℕ) (start : Budget)
    → nodes v ≡ 1
    → Post
        (visit start >>= λ (visited : Budget).
          string n visited >>= λ (budget : Budget). ok (v, budget))
        (Parsed (as_cbor v) start)
string-Parsed v n start one =
    Post-bind _ _ (visit start) _ (visit-Visited start) λ visited (d, small).
      Post-bind _ _ (string n visited) _ (string-SameDepth n visited)
        λ budget same. (refl, omega arith, omega arith)

mutual
  unfolding from_cbor

  from_cbor-Parsed : (c : CborValue) (start : Budget) → Post (from_cbor c start) (Parsed c start)
  from_cbor-Parsed (CborValue.unsigned v) start = leaf-Parsed (CanonicalValue.unsigned v) start refl
  from_cbor-Parsed (CborValue.negative v) start = leaf-Parsed (CanonicalValue.negative v) start refl
  from_cbor-Parsed (CborValue.bytes b) start =
      string-Parsed (CanonicalValue.bytes b) (length b) start refl
  from_cbor-Parsed (CborValue.text s) start =
      string-Parsed (CanonicalValue.text s) (length s) start refl
  from_cbor-Parsed (CborValue.array vs) start =
      Post-bind _ _ (visit start) _ (visit-Visited start) λ visited (d, small).
        Post-bind _ _ (collection (count_items vs) visited) _
          (collection-SameDepth (count_items vs) visited)
          λ budget same.
            Post-bind _ _ (from_items vs budget) _ (from_items-Parsed vs budget)
              λ (out, spent) (e, spend, bound).
                (ap (λ (x : Items). CborValue.array x) e, omega arith, bound (omega arith))
  from_cbor-Parsed (CborValue.map es) start =
      Post-bind _ _ (visit start) _ (visit-Visited start) λ visited (d, small).
        Post-bind _ _ (collection (count_entries es) visited) _
          (collection-SameDepth (count_entries es) visited)
          λ budget same.
            Post-bind _ _ (from_entries es budget) _ (from_entries-Parsed es budget)
              λ (out, spent) (e, spend, bound).
                (ap (λ (x : Entries). CborValue.map x) e, omega arith, bound (omega arith))
  from_cbor-Parsed (CborValue.bool b) start = leaf-Parsed (CanonicalValue.bool b) start refl
  from_cbor-Parsed CborValue.null start = leaf-Parsed CanonicalValue.null start refl
  from_cbor-Parsed (CborValue.float f) start =
      Post-bind _ _ (visit start) _ (visit-Visited start) λ budget (d, small).
        Post-if _ (is_nan f || is_negative_zero f) _ _ (λ _. tt) λ fine. (refl, omega arith, small)
  from_cbor-Parsed (CborValue.tag n inner) start =
      Post-bind _ _ (visit start) _ (visit-Visited start) λ budget (d, small). tt

  from_items-Parsed :
      (vs : Items) (start : Budget) → Post (from_items vs start) (ParsedItems vs start)
  from_items-Parsed no_items start = (refl, omega arith, λ h. h)
  from_items-Parsed (item v vs) start =
      Post-bind _ _ (from_cbor v start) _ (from_cbor-Parsed v start) λ (head, budget) (e, d, small).
        Post-bind _ _ (from_items vs budget) _ (from_items-Parsed vs budget)
          λ (rest, spent) (e', d', bound). (
            ap (λ (x : CborValue). item x (as_items rest)) e ∙ ap (item v) e',
            omega arith,
            λ h. bound small,
          )

  from_entries-Parsed :
      (es : Entries) (start : Budget) → Post (from_entries es start) (ParsedEntries es start)
  from_entries-Parsed no_entries start = (refl, omega arith, λ h. h)
  from_entries-Parsed (entry k v es) start =
      Post-bind _ _ (from_cbor k start) _ (from_cbor-Parsed k start) λ (key, budget) (e, d, small).
        Post-bind _ _ (from_cbor v budget) _ (from_cbor-Parsed v budget)
          λ (val, budget') (e', d', small').
            Post-bind _ _ (from_entries es budget') _ (from_entries-Parsed es budget')
              λ (rest, spent) (e'', d'', bound). (
                ap (λ (x : CborValue). entry x (as_cbor val) (as_entries rest)) e
                    ∙ ap (λ (x : CborValue). entry k x (as_entries rest)) e'
                    ∙ ap (entry k v) e'',
                omega arith,
                λ h. bound small',
              )

from_cbor_error-Post : (r : Result CborError CborValue) → Post (from_cbor_error r) (λ c. r ≡ ok c)
unfolding from_cbor_error
from_cbor_error-Post (ok v) = refl
from_cbor_error-Post (err e) = tt

-- A canonical value that is accepted is what the plain decoder reads, and holds at most
-- `max_canonical_value_depth` values in all, however flat it is: `depth` counts every visit.
pub from_canonical_bytes-nodes :
    (input : List ℕ) (v : CanonicalValue)
    → from_canonical_bytes input ≡ ok v
    → (Decode.from_canonical_bytes input ≡ ok (as_cbor v)) × (nodes v ≤ max_canonical_value_depth)
unfolding from_canonical_bytes new_budget
from_canonical_bytes-nodes input v e =
    let read = Decode.from_canonical_bytes input in
    Post-ok
      (λ (v : CanonicalValue). (read ≡ ok (as_cbor v)) × (nodes v ≤ max_canonical_value_depth))
      (from_canonical_bytes input)
      (Post-bind _ _ (from_cbor_error read) _ (from_cbor_error-Post read) λ c plain.
        Post-bind _ _ (from_cbor c new_budget) _ (from_cbor-Parsed c new_budget)
          λ (parsed, spent) (same, d, small).
            (plain ∙ ap (λ (x : CborValue). ok x) (sym same), omega arith))
      e
