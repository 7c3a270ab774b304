-- ===== src/Journal/Batch/Agree.antt =====
-- States that no reader tells apart give the same next entry.
use Prim.Native.String.{String}
use ldgr.Prelude.{
  ℕ, ◌≡◌, refl, sym, ◌∙◌, ap, Bool, true, false, Option, none, some, List, [], ◌∷◌, ◌++◌, arith,
  ◌==◌, if◌then◌else◌, Result, ok, err, ◌>>=◌, append-nil, append_assoc,
}
use ldgr.Journal.Clock.{VectorClock, merge}
use ldgr.Journal.Dag.{
  JournalError, EntryData, Entry, JournalState, find, assemble_parents, get_entry, known_entry,
  freeze_overlay, head_info, merge_parents, parents_clock, inserted, add_entry, next_behind,
  next_entry, order_ids,
}
use ldgr.Journal.Dag.Lookup.{find-append, get_entry-add_entry, order_ids-add_entry}

pub >>=-cong :
    {E A B : Type 0} (r : Result E A) (f g : A → Result E B)
    → ((a : A) → f a ≡ g a)
    → (r >>= f) ≡ (r >>= g)
>>=-cong (ok a) f g same = same a
>>=-cong (err e) f g same = refl

module _ {K P : Type 0} where
  -- Two states that no reader tells apart.
  pub record Agree (s t : JournalState K P) : Type 0 where
    pub entry : (k : ℕ) → get_entry k s ≡ get_entry k t
    pub heads : s.heads ≡ t.heads
    pub order : order_ids s ≡ order_ids t

  -- The same result, and states that no reader tells apart.
  abbrev pub Alike :
      JournalState K P × Result JournalError (List ℕ)
      → JournalState K P × Result JournalError (List ℕ)
      → Type 0
  Alike (s, r) (t, r') = (r ≡ r') × Agree s t

  known_entry-Agree :
      (s t : JournalState K P) (k : ℕ) → Agree s t → known_entry k s ≡ known_entry k t
  unfolding known_entry
  known_entry-Agree s t k a = rw (known_entry, a.entry k) refl

  head_info-Agree :
      (s t : JournalState K P) (head : Option ℕ) → Agree s t → head_info head s ≡ head_info head t
  unfolding head_info
  head_info-Agree s t none a = refl
  head_info-Agree s t (some k) a = rw (known_entry-Agree s t k a) refl

  merge_parents-Agree :
      (s t : JournalState K P) (clock : VectorClock) (parents : List ℕ)
      → Agree s t
      → merge_parents s clock parents ≡ merge_parents t clock parents
  unfolding merge_parents
  merge_parents-Agree s t clock [] a = refl
  merge_parents-Agree s t clock (p ∷ parents) a = rw (known_entry-Agree s t p a) (
      >>=-cong (known_entry p t) _ _ (λ e. merge_parents-Agree s t (merge clock e.clock) parents a))

  parents_clock-Agree :
      (s t : JournalState K P) (head : Option (Entry K P)) (parents : List ℕ)
      → Agree s t
      → parents_clock s head parents ≡ parents_clock t head parents
  unfolding parents_clock
  parents_clock-Agree s t head [] a = refl
  parents_clock-Agree s t (some e) (p ∷ []) a = refl
  parents_clock-Agree s t none (p ∷ []) a = rw (known_entry-Agree s t p a) refl
  parents_clock-Agree s t head (p ∷ r ∷ parents) a = merge_parents-Agree s t [] (p ∷ r ∷ parents) a

  get_entry-inserted :
      (e : Entry K P) (s : JournalState K P) (k : ℕ)
      → get_entry k (inserted e s) ≡ (if e.id == k then some e else get_entry k s)
  unfolding get_entry find
  get_entry-inserted e s k = ground arith

  heads-add_entry :
      (shared : Bool) (e : Entry K P) (t : JournalState K P)
      → (add_entry shared e t).heads ≡ (e.entry_data.actor, e.id) ∷ t.heads
  unfolding add_entry freeze_overlay
  heads-add_entry shared e t = ground arith

  get_entry-frozen :
      (s : JournalState K P) (k : ℕ) → get_entry k (freeze_overlay false s) ≡ get_entry k s
  unfolding get_entry freeze_overlay find
  get_entry-frozen s k = ground (arith, find-append k s.overlay s.base)

  pub Agree-inserted :
      (shared : Bool) (s t : JournalState K P) (e : Entry K P)
      → Agree s t
      → Agree (inserted e s) (add_entry shared e t)
  Agree-inserted shared s t e a = record {
    entry = λ k. rw (get_entry-inserted e s k, get_entry-add_entry shared e t k, a.entry k) refl;
    heads =
        ap (λ heads. (e.entry_data.actor, e.id) ∷ heads) a.heads ∙ sym (heads-add_entry shared e t);
    order =
        sym (append_assoc s.order s.overlay_order (e.id ∷ []))
        ∙ (ap (λ ids. ids ++ e.id ∷ []) a.order ∙ sym (order_ids-add_entry shared e t));
  }

  pub Agree-freeze :
      (full shared : Bool) (s t : JournalState K P)
      → Agree s t
      → Agree (if full then freeze_overlay shared s else s) t
  unfolding freeze_overlay
  Agree-freeze false shared s t a = a
  Agree-freeze true true s t a = a
  Agree-freeze true false s t a = record {
    entry = λ k. get_entry-frozen s k ∙ a.entry k;
    heads = a.heads;
    order = append-nil (order_ids s) ∙ a.order;
  }

  module _ (encode_data : EntryData K P → Result String (List ℕ)) (blake3 : List ℕ → ℕ) where
    next_behind-Agree :
        (head : Option ℕ) (s t : JournalState K P) (kind : K) (actor : ℕ) (observed : List ℕ)
        (chain : Option ℕ) (payload : P)
        → Agree s t
        → next_behind encode_data blake3 head kind actor observed chain payload s
          ≡ next_behind encode_data blake3 head kind actor observed chain payload t
    unfolding next_behind
    next_behind-Agree head s t kind actor observed chain payload a =
        >>=-cong (assemble_parents head observed chain) _ _ λ parents.
          rw (head_info-Agree s t head a) (
            >>=-cong (head_info head t) _ _
              λ (sequence, entry). rw (parents_clock-Agree s t entry parents a) refl)

    pub next_entry-Agree :
        (s t : JournalState K P) (kind : K) (actor : ℕ) (observed : List ℕ) (chain : Option ℕ)
        (payload : P)
        → Agree s t
        → next_entry encode_data blake3 kind actor observed chain payload s
          ≡ next_entry encode_data blake3 kind actor observed chain payload t
    unfolding next_entry
    next_entry-Agree s t kind actor observed chain payload a =
        ap
          (λ heads.
            next_behind encode_data blake3 (find actor heads) kind actor observed chain payload s)
          a.heads
        ∙ next_behind-Agree (find actor t.heads) s t kind actor observed chain payload a
