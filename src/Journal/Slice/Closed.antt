-- ===== src/Journal/Slice/Closed.antt =====
-- A backward slice is the set of the ancestors of its targets.
use ldgr.Prelude.{
  ℕ, ◌≡◌, ◌↔◌, refl, true, some, List, [], ◌∷◌, ◌++◌, arith, reverse, length-reverse, All, ok, Post,
  Post-bind, Post-weaken,
}
use ldgr.Journal.Dag.{Entry, JournalState, holds, get_entry, known_entry, order_ids}
use ldgr.Journal.Dag.Parents.{known_entry-Post}
use ldgr.Journal.Slice.{keep_held, walk_fuel, check_targets, causal_slice}
use ldgr.Journal.Slice.Walk.{
  Ancestor, walk_lem, Ancestor-Walked, Walked-start, remaining-nil, holds-keep_held,
}

module _ {K P : Type 0} where
  known_entry-ok :
      (id : ℕ) (state : JournalState K P) {e : Entry K P}
      → get_entry id state ≡ some e
      → known_entry id state ≡ ok e
  unfolding known_entry
  known_entry-ok id state found = rw (known_entry, found) refl

  check_targets-known :
      (state : JournalState K P) (targets : List ℕ)
      → Post
          (check_targets state targets)
          (λ u. All (λ t. (e : Entry K P) × (get_entry t state ≡ some e)) targets)
  unfolding check_targets
  check_targets-known state [] = tt
  check_targets-known state (t ∷ targets) =
      Post-bind _ _ (known_entry t state) _ (known_entry-Post t state) λ e found.
        Post-weaken _ _ (check_targets state targets) (check_targets-known state targets)
          λ u all. ((e, found), all)

  check_targets-ok :
      (state : JournalState K P) (targets : List ℕ)
      → All (λ t. (e : Entry K P) × (get_entry t state ≡ some e)) targets
      → check_targets state targets ≡ ok tt
  unfolding check_targets
  check_targets-ok state [] all = refl
  check_targets-ok state (t ∷ targets) ((e, found), all) =
      rw (known_entry-ok t state found) (check_targets-ok state targets all)

  -- The slice of known targets is computed, and holds exactly the addresses of the journal's order
  -- that are a target or a parent of an ancestor of one.
  pub causal_slice-Ancestor :
      (state : JournalState K P) (targets : List ℕ)
      → All (λ t. (e : Entry K P) × (get_entry t state ≡ some e)) targets
      → (ids : List ℕ) × (causal_slice state targets ≡ ok (some ids))
        × ((k : ℕ)
            → (holds k ids ≡ true)
              ↔ ((holds k (order_ids state) ≡ true) × Ancestor state targets k))
  unfolding causal_slice walk_fuel
  causal_slice-Ancestor state targets known =
      let m = state.overlay ++ state.base in
      let (out, run, w) =
        walk_lem (walk_fuel state targets) state targets (reverse targets) []
          (omega (arith, remaining-nil m, length-reverse targets)) (Walked-start state targets) in
      (
        keep_held out (order_ids state),
        rw (check_targets-ok state targets known, run) refl,
        λ k. (
          (λ h. (
            ground (arith, h, holds-keep_held k out (order_ids state)),
            w.sound k (ground (arith, h, holds-keep_held k out (order_ids state))),
          )),
          (λ (h, a). ground (
            arith,
            h,
            Ancestor-Walked state targets out k w a,
            holds-keep_held k out (order_ids state),
          )),
        ),
      )
