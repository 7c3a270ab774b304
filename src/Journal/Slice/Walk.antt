-- ===== src/Journal/Slice/Walk.antt =====
-- The walk of a backward slice ends within its fuel, with what is closed under parents.
use mathlib.Core.List.{reverse-append}
use ldgr.Prelude.{
  ℕ, zero, suc, ◌+◌, ◌≤◌, ◌<◌, ◌≡◌, refl, true, false, ◌||◌, ◌&&◌, some, inl, inr, List, [], ◌∷◌,
  ◌++◌, arith, ◌==◌, ==_iff, reverse, if◌then◌else◌, length, length-append, length-reverse,
  Bool-cases, Option-cases,
}
use ldgr.Journal.Dag.{Entry, JournalState, find, holds, get_entry}
use ldgr.Journal.Dag.Lookup.{find-append, holds-append}
use ldgr.Journal.Slice.{keep_held, parents_of, visit, walk, parent_count}

holds-reverse : (k : ℕ) (xs : List ℕ) → holds k (reverse xs) ≡ holds k xs
unfolding holds
holds-reverse k [] = refl
holds-reverse k (x ∷ xs) =
    rw (reverse-append (x ∷ []) xs, holds-append k (reverse xs) (x ∷ []), holds-reverse k xs)
      (ground arith)

pushed : (k : ℕ) (xs ys : List ℕ) → holds k (reverse xs ++ ys) ≡ holds k xs || holds k ys
pushed k xs ys = rw (holds-append k (reverse xs) ys, holds-reverse k xs) refl

pub holds-keep_held :
    (k : ℕ) (seen ids : List ℕ) → holds k (keep_held seen ids) ≡ holds k ids && holds k seen
unfolding holds keep_held
holds-keep_held k seen [] = refl
holds-keep_held k seen (id ∷ ids) = ground (arith, holds-keep_held k seen ids)

module _ {K P : Type 0} where
  -- What the walk may still push on account of entries not seen.
  abbrev pub remaining : List ℕ → List (ℕ × Entry K P) → ℕ
  remaining seen [] = 0
  remaining seen ((k, e) ∷ m) =
      (if holds k seen then 0 else length e.entry_data.parents) + remaining seen m

  pub remaining-nil : (m : List (ℕ × Entry K P)) → remaining [] m ≡ parent_count m
  unfolding parent_count holds
  remaining-nil [] = refl
  remaining-nil ((k, e) ∷ m) = omega (arith, remaining-nil m)

  remaining-cons :
      (id : ℕ) (seen : List ℕ) (m : List (ℕ × Entry K P))
      → remaining (id ∷ seen) m ≤ remaining seen m
  unfolding holds
  remaining-cons id seen [] = omega arith
  remaining-cons id seen ((k, e) ∷ m) = ground (arith, remaining-cons id seen m)

  remaining-visit :
      (id : ℕ) (seen : List ℕ) (m : List (ℕ × Entry K P))
      → holds id seen ≡ false
      → length (parents_of (find id m)) + remaining (id ∷ seen) m ≤ remaining seen m
  unfolding holds find parents_of
  remaining-visit id seen [] fresh = omega arith
  remaining-visit id seen ((k, e) ∷ m) fresh =
      ground (arith, remaining-cons id seen m, remaining-visit id seen m)

  get_entry-find :
      (id : ℕ) (state : JournalState K P)
      → get_entry id state ≡ find id (state.overlay ++ state.base)
  unfolding get_entry
  get_entry-find id state = ground (arith, find-append id state.overlay state.base)

  remaining-round :
      (state : JournalState K P) (id : ℕ) (stack seen : List ℕ)
      → let m = state.overlay ++ state.base in
        let next = visit state id stack seen in
        length next.0 + remaining next.1 m ≤ length stack + remaining seen m
  unfolding visit
  remaining-round state id stack seen = elim (Bool-cases (holds id seen)) [
    | inl old ↦ rw old (omega arith)
    | inr fresh ↦
        rw (fresh, get_entry-find id state)
          (omega (
            arith,
            remaining-visit id seen (state.overlay ++ state.base) fresh,
            length-append (reverse (parents_of (find id (state.overlay ++ state.base)))) stack,
            length-reverse (parents_of (find id (state.overlay ++ state.base))),
          ))
  ]

  -- An address that a target, or a parent of an ancestor, has.
  pub data Ancestor (state : JournalState K P) (targets : List ℕ) : ℕ → Type 0 where
    target : (id : ℕ) → holds id targets ≡ true → Ancestor state targets id
    parent :
        (id p : ℕ) (e : Entry K P)
        → Ancestor state targets id
        → get_entry id state ≡ some e
        → holds p e.entry_data.parents ≡ true
        → Ancestor state targets p

  held_parent :
      (state : JournalState K P) (id k p : ℕ) (e : Entry K P)
      → id ≡ k
      → get_entry k state ≡ some e
      → holds p e.entry_data.parents ≡ true
      → holds p (parents_of (get_entry id state)) ≡ true
  unfolding parents_of
  held_parent state id k p e same found h = rw (same, found) h

  -- Of a stack and a set of seen addresses during the walk.
  pub record Walked (state : JournalState K P) (targets stack seen : List ℕ) : Type 0 where
    pub sound : (k : ℕ) → holds k stack || holds k seen ≡ true → Ancestor state targets k
    pub complete : (k : ℕ) → holds k targets ≡ true → holds k stack || holds k seen ≡ true
    pub closed :
        (k p : ℕ) (e : Entry K P)
        → holds k seen ≡ true
        → get_entry k state ≡ some e
        → holds p e.entry_data.parents ≡ true
        → holds p stack || holds p seen ≡ true

  pub Walked-start :
      (state : JournalState K P) (targets : List ℕ) → Walked state targets (reverse targets) []
  unfolding holds
  Walked-start state targets = record {
    sound = λ k h. target k (ground (arith, h, holds-reverse k targets));
    complete = λ k h. ground (arith, h, holds-reverse k targets);
    closed = λ k p e h. ground (arith, h);
  }

  Ancestor-parents :
      (state : JournalState K P) (targets : List ℕ) (id k : ℕ)
      → Ancestor state targets id
      → holds k (parents_of (get_entry id state)) ≡ true
      → Ancestor state targets k
  unfolding parents_of holds
  Ancestor-parents state targets id k a h = elim (Option-cases (get_entry id state)) [
    | inl none' ↦ absurd (ground (arith, rw none' at h))
    | inr (e, found) ↦ parent id k e a found (rw found at h)
  ]

  Walked-push :
      (state : JournalState K P) (targets : List ℕ) (id : ℕ) (stack seen : List ℕ)
      → Walked state targets (id ∷ stack) seen
      → Walked state targets (reverse (parents_of (get_entry id state)) ++ stack) (id ∷ seen)
  unfolding holds
  Walked-push state targets id stack seen w = record {
    sound = λ k h. elim (Bool-cases (holds k (parents_of (get_entry id state)))) [
      | inl held ↦
          Ancestor-parents state targets id k (w.sound id (ground (arith, ==_iff id id))) held
      | inr other ↦
          w.sound k (ground (arith, h, other, pushed k (parents_of (get_entry id state)) stack))
    ];
    complete =
        λ k h. ground (arith, pushed k (parents_of (get_entry id state)) stack, w.complete k h);
    closed = λ k p e h found g. elim (Bool-cases (id == k)) [
      | inl same ↦ ground (
        arith,
        pushed p (parents_of (get_entry id state)) stack,
        held_parent state id k p e ((==_iff id k).0 same) found g,
      )
      | inr other ↦ ground (
        arith,
        pushed p (parents_of (get_entry id state)) stack,
        w.closed k p e (ground (arith, h, other)) found g,
      )
    ];
  }

  Walked-visit :
      (state : JournalState K P) (targets : List ℕ) (id : ℕ) (stack seen : List ℕ)
      → Walked state targets (id ∷ stack) seen
      → Walked state targets (visit state id stack seen).0 (visit state id stack seen).1
  unfolding visit holds
  Walked-visit state targets id stack seen w = elim (Bool-cases (holds id seen)) [
    | inl old ↦ rw old (record {
      sound = λ k h. w.sound k (ground (arith, h));
      complete = λ k h. ground (arith, old, ==_iff id k, w.complete k h);
      closed = λ k p e h f g. ground (arith, old, ==_iff id p, w.closed k p e h f g);
    })
    | inr fresh ↦ rw fresh (Walked-push state targets id stack seen w)
  ]

  pub walk_lem :
      (fuel : ℕ) (state : JournalState K P) (targets stack seen : List ℕ)
      → length stack + remaining seen (state.overlay ++ state.base) < fuel
      → Walked state targets stack seen
      → (out : List ℕ) × (walk fuel state stack seen ≡ some out) × Walked state targets [] out
  unfolding walk
  walk_lem zero state targets stack seen lt w = absurd (omega arith)
  walk_lem (suc fuel) state targets [] seen lt w = (seen, refl, w)
  walk_lem (suc fuel) state targets (id ∷ stack) seen lt w =
      let next = visit state id stack seen in
      walk_lem fuel state targets next.0 next.1 (omega (arith, remaining-round state id stack seen))
        (Walked-visit state targets id stack seen w)

  pub Ancestor-Walked :
      (state : JournalState K P) (targets out : List ℕ) (k : ℕ)
      → Walked state targets [] out
      → Ancestor state targets k
      → holds k out ≡ true
  unfolding holds
  Ancestor-Walked state targets out _ w (target k h) = w.complete k h
  Ancestor-Walked state targets out _ w (parent id p e a found h) =
      w.closed id p e (Ancestor-Walked state targets out id w a) found h
