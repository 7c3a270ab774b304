-- ===== src/Journal/Dag/Causal.antt =====
-- Appending keeps the journal causally closed.
use mathlib.Core.Path.{subst}
use Prim.Native.String.{String}
use ldgr.Prelude.{
  ℕ, ◌≡◌, refl, sym, ◌∙◌, ap, Bool, true, Option, none, some, inl, inr, ◌≢◌, List, [], ◌∷◌, arith,
  ◌==◌, ==_iff, if◌then◌else◌, All, Bool-cases, Result-cases, Result, ok, Post, Post-ok, Post-bind,
  Post-weaken,
}
use ldgr.Journal.Clock.{VectorClock, incremented}
use ldgr.Journal.Clock.Increment.{IsU64Clock, incremented-IsU64Clock, Below-incremented}
use ldgr.Journal.Dag.{
  EntryData, Entry, JournalState, find, holds, assemble_parents, get_entry, order_ids, head_info,
  parents_clock, add_entry, new_entry, next_behind, next_entry, append,
}
use ldgr.Journal.Dag.Parents.{
  IsCausal, Precedes, All-Precedes, assemble_parents-Starts, head_info-Post, parents_clock-Post,
}
use ldgr.Journal.Dag.Lookup.{get_entry-add_entry, find-heads, holds-order_ids}

module _ {K P : Type 0} where
  pub none_some : (e : Entry K P) → ◌≢◌ {A = Option (Entry K P)} none (some e)
  none_some e h = cc

  some_eq : (e p : Entry K P) → ◌≡◌ {A = Option (Entry K P)} (some e) (some p) → e ≡ p
  some_eq e p h = cc

  unchanged :
      (shared : Bool) (e : Entry K P) (state : JournalState K P) (k : ℕ) (p : Entry K P)
      → get_entry e.id state ≡ none
      → get_entry k state ≡ some p
      → get_entry k (add_entry shared e state) ≡ some p
  unchanged shared e state k p fresh found = elim (Bool-cases (e.id == k)) [
    | inl t ↦ absurd (none_some p (sym fresh ∙ (rw ((==_iff e.id k).0 t) found)))
    | inr f ↦ rw (get_entry-add_entry shared e state k, f) found
  ]

  All-unchanged :
      (shared : Bool) (e : Entry K P) (state : JournalState K P) (c : VectorClock)
      (parents : List ℕ)
      → get_entry e.id state ≡ none
      → All (Precedes state c) parents
      → All (Precedes (add_entry shared e state) c) parents
  All-unchanged shared e state c [] fresh all = tt
  All-unchanged shared e state c (k ∷ parents) fresh ((p, found, below), all) = (
    (p, unchanged shared e state k p fresh found, below),
    All-unchanged shared e state c parents fresh all,
  )

  add_entry-IsCausal :
      (shared : Bool) (e : Entry K P) (state : JournalState K P)
      → IsCausal state
      → get_entry e.id state ≡ none
      → IsU64Clock e.clock
      → All (Precedes state e.clock) e.entry_data.parents
      → IsCausal (add_entry shared e state)
  add_entry-IsCausal shared e state causal fresh hc all k p found = elim (Bool-cases (e.id == k)) [
    | inl t ↦
        let found' = rw (get_entry-add_entry shared e state k, t) at found in
        subst
          (λ q.
            IsU64Clock q.clock
            × All (Precedes (add_entry shared e state) q.clock) q.entry_data.parents)
          (some_eq e p found')
          (hc, All-unchanged shared e state e.clock e.entry_data.parents fresh all)
    | inr f ↦
        let (hp, all') = causal k p (rw (get_entry-add_entry shared e state k, f) at found) in
        (hp, All-unchanged shared e state p.clock p.entry_data.parents fresh all')
  ]

  -- Every entry is in the journal's order.
  abbrev pub IsListed : JournalState K P → Type 0
  IsListed state =
      (k : ℕ) (e : Entry K P) → get_entry k state ≡ some e → holds k (order_ids state) ≡ true

  add_entry-IsListed :
      (shared : Bool) (e : Entry K P) (state : JournalState K P)
      → IsListed state
      → IsListed (add_entry shared e state)
  add_entry-IsListed shared e state listed k p found = elim (Bool-cases (e.id == k)) [
    | inl same ↦ ground (arith, holds-order_ids shared e state k, same)
    | inr other ↦ ground (
      arith,
      holds-order_ids shared e state k,
      listed k p (rw (get_entry-add_entry shared e state k, other) at found),
    )
  ]

  module _ (encode_data : EntryData K P → Result String (List ℕ)) (blake3 : List ℕ → ℕ) where
    new_entry-Post :
        (d : EntryData K P) (clock : VectorClock)
        → Post (new_entry encode_data blake3 d clock) (λ e. (e.entry_data ≡ d) × (e.clock ≡ clock))
    unfolding new_entry
    new_entry-Post d clock = ground (arith, Result-cases (encode_data d))

    -- Of a new entry.
    abbrev IsNext : K → ℕ → P → JournalState K P → Entry K P → Type 0
    IsNext kind actor payload state e =
        (e.entry_data.kind ≡ kind)
        × (e.entry_data.actor ≡ actor)
        × (e.entry_data.payload ≡ payload)
        × IsU64Clock e.clock
        × All (Precedes state e.clock) e.entry_data.parents

    -- What a successful append has stored.
    abbrev Stored : Bool → K → ℕ → P → JournalState K P → ℕ × JournalState K P → Type 0
    Stored shared kind actor payload state (id, state') =
        (e : Entry K P) × (id ≡ e.id)
        × (state' ≡ add_entry shared e state)
        × IsNext kind actor payload state e

    next_entry-Post :
        (kind : K) (actor : ℕ) (observed : List ℕ) (chain : Option ℕ) (payload : P)
        (state : JournalState K P)
        → IsCausal state
        → Post
            (next_entry encode_data blake3 kind actor observed chain payload state)
            (IsNext kind actor payload state)
    unfolding next_entry next_behind
    next_entry-Post kind actor observed chain payload state causal =
        let head = find actor state.heads in
        Post-bind _ _ (assemble_parents head observed chain) _
          (assemble_parents-Starts head observed chain)
          λ parents starts.
            Post-bind _ _ (head_info head state) _ (head_info-Post head state)
              λ (sequence, entry) at.
                Post-bind _ _ (parents_clock state entry parents) _
                  (parents_clock-Post state head entry parents causal starts at)
                  λ clock (hc, all).
                    Post-weaken _ _ (new_entry encode_data blake3 _ (incremented clock actor))
                      (new_entry-Post _ (incremented clock actor))
                      λ e (same, same'). (
                        ap (λ d. d.kind) same,
                        ap (λ d. d.actor) same,
                        ap (λ d. d.payload) same,
                        rw same' (incremented-IsU64Clock clock actor hc),
                        rw (same, same')
                            (All-Precedes state clock (incremented clock actor) parents
                              (Below-incremented clock actor hc) all),
                      )

    append-Post :
        (shared : Bool) (kind : K) (actor : ℕ) (observed : List ℕ) (payload : P)
        (state : JournalState K P)
        → IsCausal state
        → Post
            (append encode_data blake3 shared kind actor observed payload state)
            (Stored shared kind actor payload state)
    unfolding append
    append-Post shared kind actor observed payload state causal =
        Post-bind _ _ (next_entry encode_data blake3 kind actor observed none payload state) _
          (next_entry-Post kind actor observed none payload state causal)
          λ e next. (e, refl, refl, next)

    -- A journal whose entries are all in its order, and in which the parents of every entry are entries
    -- with no component of their clocks above its own, is such a journal after a successful append
    -- whose address is a new one.
    pub append-IsCausal :
        (shared : Bool) (kind : K) (actor : ℕ) (observed : List ℕ) (payload : P)
        (state state' : JournalState K P) (id : ℕ)
        → IsCausal state
        → IsListed state
        → append encode_data blake3 shared kind actor observed payload state ≡ ok (id, state')
        → get_entry id state ≡ none
        → IsCausal state' × IsListed state'
    append-IsCausal shared kind actor observed payload state state' id causal listed run fresh =
        let (e, same, same', (_, _, _, hc, all)) =
          Post-ok _ _ (append-Post shared kind actor observed payload state causal) run in
        (
          rw same' (add_entry-IsCausal shared e state causal (rw same at fresh) hc all),
          rw same' (add_entry-IsListed shared e state listed),
        )

    -- After a successful append to a journal in which the parents of every entry are entries with
    -- earlier clocks, the returned address is the actor's head and finds an entry of the given kind,
    -- actor and payload, all of whose parents were entries with earlier clocks; every other address
    -- finds what it found before.
    pub append-get_entry :
        (shared : Bool) (kind : K) (actor : ℕ) (observed : List ℕ) (payload : P)
        (state state' : JournalState K P) (id : ℕ)
        → IsCausal state
        → append encode_data blake3 shared kind actor observed payload state ≡ ok (id, state')
        → (e : Entry K P) × (e.entry_data.kind ≡ kind)
          × (e.entry_data.actor ≡ actor)
          × (e.entry_data.payload ≡ payload)
          × (find actor state'.heads ≡ some id)
          × All (Precedes state e.clock) e.entry_data.parents
          × ((k : ℕ) → get_entry k state' ≡ (if id == k then some e else get_entry k state))
    append-get_entry shared kind actor observed payload state state' id causal run =
        let (e, same, same', (k, a, d, hc, all)) =
          Post-ok _ _ (append-Post shared kind actor observed payload state causal) run in
        (
          e,
          k,
          a,
          d,
          rw (same, same', sym a) (find-heads shared e state),
          all,
          λ j. rw (same, same') (get_entry-add_entry shared e state j),
        )
