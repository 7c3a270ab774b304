-- ===== src/Journal/Dag/Parents.antt =====
-- The parents of a new entry start with the actor's head, and its clock is above theirs.
use ldgr.Prelude.{
  ℕ, ◌≡◌, refl, ap, Option, none, some, List, [], ◌∷◌, ◌++◌, arith, leb, length, All, Option-cases,
  Post, Post-bind, Post-if, Post-weaken,
}
use ldgr.Journal.Clock.{VectorClock, merge}
use ldgr.Journal.Clock.Increment.{IsU64Clock, Below, IsU64Clock-nil, merge-IsU64Clock, Below-merge}
use ldgr.Journal.Dag.{
  Entry, JournalState, holds, add_parent, add_parents, option_list, assemble_parents, get_entry,
  known_entry, head_info, merge_parents, parents_clock,
}

abbrev pub Starts : Option ℕ → List ℕ → Type 0
Starts none parents = Unit
Starts (some head) parents = (rest : List ℕ) × (parents ≡ head ∷ rest)

add_parent-Starts :
    (head : Option ℕ) (parents : List ℕ) (parent : ℕ)
    → Starts head parents
    → Post (add_parent parents parent) (Starts head)
unfolding add_parent
add_parent-Starts none parents parent h = ground (arith, h)
add_parent-Starts (some head) parents parent (rest, e) =
    Post-if _ (holds parent parents) _ _ (λ _. (rest, e))
      λ _.
        Post-if _ (leb _ (length parents)) _ _ (λ _. tt)
          λ _. (rest ++ parent ∷ [], ap (λ ps. ps ++ parent ∷ []) e)

add_parents-Starts :
    (head : Option ℕ) (parents observed : List ℕ)
    → Starts head parents
    → Post (add_parents parents observed) (Starts head)
unfolding add_parents
add_parents-Starts head parents [] h = h
add_parents-Starts head parents (parent ∷ observed) h =
    Post-bind _ _ (add_parent parents parent) _ (add_parent-Starts head parents parent h)
      λ parents' h'. add_parents-Starts head parents' observed h'

option_list-Starts : (head : Option ℕ) → Starts head (option_list head)
unfolding option_list
option_list-Starts none = tt
option_list-Starts (some head) = ([], refl)

pub assemble_parents-Starts :
    (head : Option ℕ) (observed : List ℕ) (chain : Option ℕ)
    → Post (assemble_parents head observed chain) (Starts head)
unfolding assemble_parents
assemble_parents-Starts head observed chain =
    Post-bind _ _ (add_parents (option_list head) observed) _
      (add_parents-Starts head _ observed (option_list-Starts head))
      λ parents h. add_parents-Starts head parents (option_list chain) h

module _ {K P : Type 0} where
  -- An entry that happened before the clock.
  abbrev pub Precedes : JournalState K P → VectorClock → ℕ → Type 0
  Precedes state clock parent =
      (e : Entry K P) × (get_entry parent state ≡ some e) × Below e.clock clock

  -- Every entry has a clock of `u64` components, and its parents are entries with no later clock.
  abbrev pub IsCausal : JournalState K P → Type 0
  IsCausal state =
      (id : ℕ) (e : Entry K P)
      → get_entry id state ≡ some e
      → IsU64Clock e.clock × All (Precedes state e.clock) e.entry_data.parents

  pub All-Precedes :
      (state : JournalState K P) (c d : VectorClock) (parents : List ℕ)
      → Below c d
      → All (Precedes state c) parents
      → All (Precedes state d) parents
  All-Precedes state c d [] h all = tt
  All-Precedes state c d (p ∷ parents) h ((e, found, below), all) =
      ((e, found, λ a. omega (arith, below a, h a)), All-Precedes state c d parents h all)

  pub known_entry-Post :
      (id : ℕ) (state : JournalState K P)
      → Post (known_entry id state) (λ e. get_entry id state ≡ some e)
  unfolding known_entry
  known_entry-Post id state = ground (arith, Option-cases (get_entry id state))

  merge_parents-Post :
      (state : JournalState K P) (clock : VectorClock) (parents : List ℕ)
      → IsCausal state
      → IsU64Clock clock
      → Post
          (merge_parents state clock parents)
          (λ c. IsU64Clock c × Below clock c × All (Precedes state c) parents)
  unfolding merge_parents
  merge_parents-Post state clock [] causal hc = (hc, (λ a. omega arith), tt)
  merge_parents-Post state clock (p ∷ parents) causal hc =
      Post-bind _ _ (known_entry p state) _ (known_entry-Post p state) λ e found.
        let he = (causal p e found).0 in
        let (left, right) = Below-merge clock e.clock hc he in
        Post-weaken _ _ (merge_parents state (merge clock e.clock) parents)
          (merge_parents-Post state (merge clock e.clock) parents causal
            (merge-IsU64Clock clock e.clock hc he))
          λ c (hc', below, all). (
            hc',
            (λ a. omega (arith, left a, below a)),
            ((e, found, λ a. omega (arith, right a, below a)), all),
          )

  -- The entry behind the head, if it has one.
  abbrev pub AtHead : JournalState K P → Option ℕ → Option (Entry K P) → Type 0
  AtHead state none entry = entry ≡ none
  AtHead state (some head) entry =
      (e : Entry K P) × (entry ≡ some e) × (get_entry head state ≡ some e)

  pub head_info-Post :
      (head : Option ℕ) (state : JournalState K P)
      → Post (head_info head state) (λ r. AtHead state head r.1)
  unfolding head_info
  head_info-Post none state = refl
  head_info-Post (some head) state =
      Post-bind _ _ (known_entry head state) _ (known_entry-Post head state)
        λ e found. (e, refl, found)

  known_head :
      (state : JournalState K P) (p head : ℕ) (rest : List ℕ) (e e' : Entry K P)
      → p ∷ [] ≡ head ∷ rest
      → ◌≡◌ {A = Option (Entry K P)} (some e) (some e')
      → get_entry head state ≡ some e'
      → get_entry p state ≡ some e
  known_head state p head rest e e' starts same found = cc

  pub parents_clock-Post :
      (state : JournalState K P) (head : Option ℕ) (entry : Option (Entry K P)) (parents : List ℕ)
      → IsCausal state
      → Starts head parents
      → AtHead state head entry
      → Post
          (parents_clock state entry parents)
          (λ c. IsU64Clock c × All (Precedes state c) parents)
  unfolding parents_clock
  parents_clock-Post state head entry [] causal starts at = (IsU64Clock-nil, tt)
  parents_clock-Post state head none (p ∷ []) causal starts at =
      Post-bind _ _ (known_entry p state) _ (known_entry-Post p state)
        λ e found. ((causal p e found).0, ((e, found, λ a. omega arith), tt))
  parents_clock-Post state none (some e) (p ∷ []) causal starts at = cc
  parents_clock-Post state (some head) (some e) (p ∷ []) causal (rest, starts) (e', same, found) =
      let found' = known_head state p head rest e e' starts same found in
      ((causal p e found').0, ((e, found', λ a. omega arith), tt))
  parents_clock-Post state head entry (p ∷ r ∷ parents) causal starts at =
      Post-weaken _ _ (merge_parents state [] (p ∷ r ∷ parents))
        (merge_parents-Post state [] (p ∷ r ∷ parents) causal IsU64Clock-nil)
        λ c (hc, below, all). (hc, all)
