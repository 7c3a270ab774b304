-- ===== src/Journal/Dag/Lookup.antt =====
-- What is found and what is in order after an entry is added.
use ldgr.Prelude.{
  ℕ, ◌≡◌, refl, sym, ◌∙◌, Bool, true, false, ◌||◌, none, some, List, [], ◌∷◌, ◌++◌, arith,
  append-nil, append_assoc, ◌==◌, leb, if◌then◌else◌, length,
}
use ldgr.Journal.Dag.{
  Entry, JournalState, find, holds, get_entry, order_ids, inserted, keys, overlay_threshold,
  freeze_overlay, add_entry,
}

pub find-append :
    {A : Type 0} (k : ℕ) (front back : List (ℕ × A))
    → find k (front ++ back) ≡ elim (find k front) [ some a ↦ some a | none ↦ find k back ]
unfolding find
find-append k [] back = refl
find-append k ((j, a) ∷ front) back = ground (arith, find-append k front back)

pub holds-append : (k : ℕ) (xs ys : List ℕ) → holds k (xs ++ ys) ≡ holds k xs || holds k ys
unfolding holds
holds-append k [] ys = refl
holds-append k (x ∷ xs) ys = ground (arith, holds-append k xs ys)

module _ {K P : Type 0} where
  pub get_entry-add_entry :
      (shared : Bool) (e : Entry K P) (state : JournalState K P) (k : ℕ)
      → get_entry k (add_entry shared e state) ≡ (if e.id == k then some e else get_entry k state)
  unfolding get_entry add_entry freeze_overlay find
  get_entry-add_entry shared e state k = ground (arith, find-append k state.overlay state.base)

  pub find-heads :
      (shared : Bool) (e : Entry K P) (state : JournalState K P)
      → find e.entry_data.actor (add_entry shared e state).heads ≡ some e.id
  unfolding add_entry freeze_overlay find
  find-heads shared e state = ground arith

  order_ids-freeze_overlay :
      (full shared : Bool) (state : JournalState K P)
      → order_ids (if full then freeze_overlay shared state else state) ≡ order_ids state
  unfolding freeze_overlay
  order_ids-freeze_overlay false shared state = refl
  order_ids-freeze_overlay true false state = append-nil (order_ids state)
  order_ids-freeze_overlay true true state = refl

  pub order_ids-add_entry :
      (shared : Bool) (e : Entry K P) (state : JournalState K P)
      → order_ids (add_entry shared e state) ≡ order_ids state ++ e.id ∷ []
  unfolding add_entry
  order_ids-add_entry shared e state =
      order_ids-freeze_overlay (leb overlay_threshold (length (keys (inserted e state).overlay)))
        shared (inserted e state)
      ∙ sym (append_assoc state.order state.overlay_order (e.id ∷ []))

  pub holds-order_ids :
      (shared : Bool) (e : Entry K P) (state : JournalState K P) (k : ℕ)
      → holds k (order_ids (add_entry shared e state)) ≡ holds k (order_ids state) || (e.id == k)
  unfolding holds
  holds-order_ids shared e state k =
      rw (order_ids-add_entry shared e state, holds-append k (order_ids state) (e.id ∷ []))
        (ground arith)
