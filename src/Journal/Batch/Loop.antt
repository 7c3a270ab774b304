-- ===== src/Journal/Batch/Loop.antt =====
-- Appending a batch is appending its entries in order, but for when the overlay is frozen.
use Prim.Native.String.{String}
use ldgr.Prelude.{
  ℕ, ◌≡◌, refl, sym, ◌∙◌, Bool, Option, none, some, List, [], ◌∷◌, ◌++◌, leb, if◌then◌else◌, length,
  Result, ok, err, ap, ◌>>=◌, inl, inr, Result-cases,
}
use ldgr.Journal.Clock.{VectorClock}
use ldgr.Journal.Dag.{
  JournalError, EntryData, Entry, JournalState, find, known_entry, head_info, parents_clock,
  add_parent, add_parents, option_list, assemble_parents, overlay_threshold, keys, inserted,
  add_entry, next_behind, next_entry, append,
}
use ldgr.Journal.Batch.{
  BatchEntry, batch_sequence, batch_head_info, batch_clock, batch_entry, batch_loop, settle,
  append_batch,
}
use ldgr.Journal.Batch.Agree.{
  >>=-cong, Agree, Alike, Agree-inserted, Agree-freeze, next_entry-Agree,
}

>>=-assoc :
    {E A B C : Type 0} (r : Result E A) (f : A → Result E B) (g : B → Result E C)
    → ((r >>= f) >>= g) ≡ (r >>= λ a. f a >>= g)
>>=-assoc (ok a) f g = refl
>>=-assoc (err e) f g = refl

>>=-ok : {E A : Type 0} (r : Result E A) → (r >>= λ a. ok a) ≡ r
>>=-ok (ok a) = refl
>>=-ok (err e) = refl

add_parents-append :
    (parents xs ys : List ℕ)
    → add_parents parents (xs ++ ys) ≡ (add_parents parents xs >>= λ ps. add_parents ps ys)
unfolding add_parents
add_parents-append parents [] ys = refl
add_parents-append parents (x ∷ xs) ys =
    >>=-cong (add_parent parents x) _ _ (λ ps. add_parents-append ps xs ys)
    ∙ sym (>>=-assoc (add_parent parents x) (λ ps. add_parents ps xs) (λ ps. add_parents ps ys))

-- A chained parent is one more observed parent.
assemble_parents-chain :
    (head : Option ℕ) (observed : List ℕ) (chain : Option ℕ)
    → assemble_parents head observed chain
      ≡ assemble_parents head (observed ++ option_list chain) none
unfolding assemble_parents add_parents option_list
assemble_parents-chain head observed chain = sym (
    >>=-ok (add_parents (option_list head) (observed ++ option_list chain))
    ∙ add_parents-append (option_list head) observed (option_list chain))

-- What the batch and `append` keep of a head.
abbrev Same : {K P : Type 0} → Option ℕ → Option (ℕ × VectorClock) → Option (Entry K P) → Type 0
Same none none none = Unit
Same (some k) (some (n, c)) (some e) = (n ≡ e.entry_data.sequence) × (c ≡ e.clock)
Same _ _ _ = ⊥

module _ {K P : Type 0} (encode_data : EntryData K P → Result String (List ℕ))
    (blake3 : List ℕ → ℕ) where
  next_entry-chain :
      (t : JournalState K P) (kind : K) (actor : ℕ) (observed : List ℕ) (chain : Option ℕ)
      (payload : P)
      → next_entry encode_data blake3 kind actor observed chain payload t
        ≡ next_entry encode_data blake3 kind actor (observed ++ option_list chain) none payload t
  unfolding next_entry next_behind
  next_entry-chain t kind actor observed chain payload =
      rw (assemble_parents-chain (find actor t.heads) observed chain) refl

  clock_eq :
      (head : Option ℕ) (entry : Option (Entry K P)) (info : Option (ℕ × VectorClock))
      (parents : List ℕ) (state : JournalState K P)
      → Same head info entry
      → batch_clock head info parents state ≡ parents_clock state entry parents
  unfolding batch_clock parents_clock
  clock_eq head entry info [] state h = refl
  clock_eq none none info (p ∷ []) state h = refl
  clock_eq (some k) (some e) (some (n, c)) (p ∷ []) state h = ap ok h.1
  clock_eq (some k) none none (p ∷ []) state h = absurd h
  clock_eq (some k) none (some i) (p ∷ []) state h = absurd h
  clock_eq none (some e) none (p ∷ []) state h = absurd h
  clock_eq none (some e) (some i) (p ∷ []) state h = absurd h
  clock_eq (some k) (some e) none (p ∷ []) state h = absurd h
  clock_eq head entry info (p ∷ r ∷ parents) state h = refl

  batch_entry-next_behind :
      (head : Option ℕ) (spec : BatchEntry K P) (chain : Option ℕ) (state : JournalState K P)
      → batch_entry encode_data blake3 head spec chain state
        ≡ next_behind encode_data blake3 head spec.kind spec.actor spec.observed_parents chain
            spec.payload state
  unfolding batch_entry next_behind batch_head_info head_info batch_sequence
  batch_entry-next_behind none spec chain state =
      >>=-cong (assemble_parents none spec.observed_parents chain) _ _
        λ parents. rw (clock_eq none none none parents state tt) refl
  batch_entry-next_behind (some head) spec chain state =
      >>=-cong (assemble_parents (some head) spec.observed_parents chain) _ _ λ parents.
        elim (Result-cases (known_entry head state)) [
          | inl (e, run) ↦
              rw
                (
                  run,
                  clock_eq (some head) (some e) (some (e.entry_data.sequence, e.clock)) parents
                      state (refl, refl),
                )
                refl
          | inr (why, run) ↦ rw run refl
        ]

  -- The entries one by one, each with the chained parent after the observed ones.
  abbrev pub append_each :
      Bool
      → List (BatchEntry K P)
      → Option ℕ
      → List ℕ
      → JournalState K P
      → JournalState K P × Result JournalError (List ℕ)
  append_each shared [] last ids state = (state, ok ids)
  append_each shared (spec ∷ batch) last ids state =
      let chain = if spec.chain_previous then last else none in
      elim (append encode_data blake3 shared spec.kind spec.actor
        (spec.observed_parents ++ option_list chain) spec.payload state) [
          | err why ↦ (state, err why)
          | ok (id, state') ↦ append_each shared batch (some id) (ids ++ id ∷ []) state'
        ]

  batch_loop-append_each :
      (shared : Bool) (batch : List (BatchEntry K P)) (last : Option ℕ) (ids : List ℕ)
      (s t : JournalState K P)
      → Agree s t
      → Alike (batch_loop encode_data blake3 batch last ids s) (append_each shared batch last ids t)
  unfolding batch_loop append next_entry
  batch_loop-append_each shared [] last ids s t a = (refl, a)
  batch_loop-append_each shared (spec ∷ batch) last ids s t a =
      let chain = if spec.chain_previous then last else none in
      let same =
        batch_entry-next_behind (find spec.actor s.heads) spec chain s
        ∙ next_entry-Agree encode_data blake3 s t spec.kind spec.actor spec.observed_parents chain
            spec.payload a
        ∙ next_entry-chain t spec.kind spec.actor spec.observed_parents chain spec.payload in
      elim (Result-cases (
        next_entry encode_data blake3 spec.kind spec.actor
          (spec.observed_parents ++ option_list chain) none spec.payload t)) [
            | inl (e, run) ↦
                rw (batch_loop, same ∙ run, append_each, append, run)
                  (batch_loop-append_each shared batch (some e.id) (ids ++ e.id ∷ []) (inserted e s)
                    (add_entry shared e t) (Agree-inserted shared s t e a))
            | inr (why, run) ↦ rw (batch_loop, same ∙ run, append_each, append, run) (refl, a)
          ]

  Alike-settle :
      (shared : Bool) (p q : JournalState K P × Result JournalError (List ℕ))
      → Alike p q
      → Alike (settle shared p) q
  unfolding settle
  Alike-settle shared (s, ok ids) q (r, a) =
      (r, Agree-freeze (leb overlay_threshold (length (keys s.overlay))) shared s q.0 a)
  Alike-settle shared (s, err why) q a = a

  -- A batch gives the result of its entries appended one by one, each with the chained parent after
  -- its observed ones, and a state with the same entries, heads and order, also where an entry is
  -- refused.
  pub append_batch-append_each :
      (shared shared' : Bool) (batch : List (BatchEntry K P)) (state : JournalState K P)
      → Alike
          (append_batch encode_data blake3 shared batch state)
          (append_each shared' batch none [] state)
  unfolding append_batch
  append_batch-append_each shared shared' [] state =
      (refl, record { entry = λ k. refl; heads = refl; order = refl })
  append_batch-append_each shared shared' (spec ∷ batch) state = Alike-settle shared _ _ (
      batch_loop-append_each shared' (spec ∷ batch) none [] state state
        (record { entry = λ k. refl; heads = refl; order = refl }))
