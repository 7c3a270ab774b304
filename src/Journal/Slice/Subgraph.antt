-- ===== src/Journal/Slice/Subgraph.antt =====
-- The subgraph of a slice is a causal journal of its own.
use ldgr.Prelude.{
  ℕ, ◌≡◌, ◌↔◌, refl, ap, true, ◌&&◌, none, some, List, [], ◌∷◌, arith, ==_iff, if◌then◌else◌, All,
  Bool-cases, Option-cases, inl, inr, ok,
}
use ldgr.Journal.Dag.{Entry, JournalState, find, holds, get_entry, order_ids}
use ldgr.Journal.Dag.Parents.{IsCausal, Precedes}
use ldgr.Journal.Dag.Causal.{IsListed, none_some}
use ldgr.Journal.Slice.{keep_held, entries, subgraph, causal_slice}
use ldgr.Journal.Slice.Closed.{causal_slice-Ancestor}
use ldgr.Journal.Slice.Walk.{Ancestor, parent, holds-keep_held}

module _ {K P : Type 0} where
  find-entries :
      (state : JournalState K P) (ids : List ℕ) (k : ℕ)
      → find k (entries state ids) ≡ (if holds k ids then get_entry k state else none)
  unfolding find entries holds
  find-entries state [] k = refl
  find-entries state (id ∷ ids) k = ground (
    arith,
    Option-cases (get_entry id state),
    find-entries state ids k,
    ==_iff id k,
    λ (e : id ≡ k). ap (λ j. get_entry j state) e,
  )

  -- The subgraph has exactly the entries whose addresses are asked for and in the journal's order.
  pub get_entry-subgraph :
      (state : JournalState K P) (hashes : List ℕ) (k : ℕ)
      → get_entry k (subgraph state hashes)
        ≡ (if holds k hashes && holds k (order_ids state) then get_entry k state else none)
  unfolding get_entry subgraph find
  get_entry-subgraph state hashes k = ground (
    arith,
    find-entries state (keep_held hashes (order_ids state)) k,
    holds-keep_held k hashes (order_ids state),
  )

  Ancestor-entry :
      (state : JournalState K P) (targets ids : List ℕ)
      → IsListed state
      → ((k : ℕ)
          → (holds k ids ≡ true) ↔ ((holds k (order_ids state) ≡ true) × Ancestor state targets k))
      → (k : ℕ) (e : Entry K P)
      → (get_entry k (subgraph state ids) ≡ some e)
        ↔ ((get_entry k state ≡ some e) × Ancestor state targets k)
  Ancestor-entry state targets ids listed iff k e = (
    (λ h. elim (Bool-cases (holds k ids && holds k (order_ids state))) [
      | inl in' ↦
          (rw (get_entry-subgraph state ids k, in') at h, ((iff k).0 (ground (arith, in'))).1)
      | inr out ↦ absurd (none_some e (rw (get_entry-subgraph state ids k, out) at h))
    ]),
    λ (found, a).
        let listed' = listed k e found in
        rw (get_entry-subgraph state ids k, (iff k).1 (listed', a), listed') found,
  )

  Precedes-subgraph :
      (state : JournalState K P) (targets ids : List ℕ) (id : ℕ) (e : Entry K P)
      → ((k : ℕ) (p : Entry K P)
          → (get_entry k (subgraph state ids) ≡ some p)
            ↔ ((get_entry k state ≡ some p) × Ancestor state targets k))
      → get_entry id state ≡ some e
      → Ancestor state targets id
      → (parents : List ℕ)
      → ((p : ℕ) → holds p parents ≡ true → holds p e.entry_data.parents ≡ true)
      → All (Precedes state e.clock) parents
      → All (Precedes (subgraph state ids) e.clock) parents
  unfolding holds
  Precedes-subgraph state targets ids id e iff found a [] within all = tt
  Precedes-subgraph state targets ids id e iff found a (p ∷ parents) within
        ((pe, found', below), all) =
      (
        (
          pe,
          (iff p pe).1 (found', parent id p e a found (within p (ground (arith, ==_iff p p)))),
          below,
        ),
        Precedes-subgraph state targets ids id e iff found a parents
            (λ q h. within q (ground (arith, h))) all,
      )

  -- In a causal journal whose entries are all in its order, the slice of known targets is computed,
  -- and its subgraph is a causal journal whose entries are those of the ancestors of the targets.
  pub causal_slice-subgraph :
      (state : JournalState K P) (targets : List ℕ)
      → IsCausal state
      → IsListed state
      → All (λ t. (e : Entry K P) × (get_entry t state ≡ some e)) targets
      → (ids : List ℕ) × (causal_slice state targets ≡ ok (some ids))
        × ((k : ℕ) (e : Entry K P)
            → (get_entry k (subgraph state ids) ≡ some e)
              ↔ ((get_entry k state ≡ some e) × Ancestor state targets k))
        × IsCausal (subgraph state ids)
  causal_slice-subgraph state targets causal listed known =
      let (ids, run, iff) = causal_slice-Ancestor state targets known in
      let entry_iff = Ancestor-entry state targets ids listed iff in
      (
        ids,
        run,
        entry_iff,
        λ id e found.
            let (found', a) = (entry_iff id e).0 found in
            let (hc, all) = causal id e found' in
            (
              hc,
              Precedes-subgraph state targets ids id e entry_iff found' a e.entry_data.parents
                  (λ p h. h) all,
            ),
      )
