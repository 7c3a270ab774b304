-- ===== src/Explorer/HittingSet/Minimal.antt =====
-- The sets that are computed are minimal: none has a smaller one that hits every path.
use ldgr.Prelude.{
  ℕ, ◌≡◌, refl, Bool, true, false, List, [], ◌∷◌, ◌++◌, arith, All, All-append, ok, Bool-cases, inl,
  inr,
}
use ldgr.Explorer.HittingSet.{
  collect, is_subset, insert_sorted, sort_by, set_le, len_le, dedup, any_subset, retain, prune_loop,
  prune_supersets, next_candidates, hitting_loop, compute_minimal_hitting_sets,
}
use ldgr.Explorer.HittingSet.Sound.{HitsAll, insert_sorted-All, retain-All, sort_by-All, All-map}
use ldgr.Explorer.HittingSet.Complete.{is_subset_trans, compute_minimal_hitting_sets-any_subset}

abbrev Apart : List ℕ → List ℕ → Type 0
Apart s u = (is_subset s u ≡ false) × (is_subset u s ≡ false)

-- No set is a subset of another one.
abbrev Antichain : List (List ℕ) → Type 0
Antichain [] = Unit
Antichain (s ∷ sets) = All (Apart s) sets × Antichain sets

All-zip :
    (P Q R : List ℕ → Type 0) (sets : List (List ℕ))
    → ((s : List ℕ) → P s → Q s → R s)
    → All P sets
    → All Q sets
    → All R sets
All-zip P Q R [] f a b = tt
All-zip P Q R (s ∷ sets) f a b = (f s a.0 b.0, All-zip P Q R sets f a.1 b.1)

Antichain-append :
    (sets : List (List ℕ)) (set : List ℕ)
    → Antichain sets
    → All (λ s. Apart s set) sets
    → Antichain (sets ++ set ∷ [])
Antichain-append [] set c a = (tt, tt)
Antichain-append (s ∷ sets) set c a =
    (All-append (Apart s) sets (set ∷ []) c.0 (a.0, tt), Antichain-append sets set c.1 a.1)

Antichain-retain :
    (set : List ℕ) (sets : List (List ℕ)) → Antichain sets → Antichain (retain set sets)
unfolding retain
Antichain-retain set [] c = tt
Antichain-retain set (s ∷ sets) c = elim (Bool-cases (is_subset set s)) [
  | inl above ↦ rw above (Antichain-retain set sets c.1)
  | inr other ↦ rw other (retain-All (Apart s) set sets c.0, Antichain-retain set sets c.1)
]

retain_not_above :
    (set : List ℕ) (sets : List (List ℕ)) → All (λ s. is_subset set s ≡ false) (retain set sets)
unfolding retain
retain_not_above set [] = tt
retain_not_above set (s ∷ sets) = elim (Bool-cases (is_subset set s)) [
  | inl above ↦ rw above (retain_not_above set sets)
  | inr other ↦ rw other (other, retain_not_above set sets)
]

any_subset_none :
    (sets : List (List ℕ)) (set : List ℕ)
    → any_subset sets set ≡ false
    → All (λ s. is_subset s set ≡ false) sets
unfolding any_subset
any_subset_none [] set e = tt
any_subset_none (s ∷ sets) set e = (ground arith, any_subset_none sets set (ground arith))

Antichain-prune_loop :
    (minimal sets : List (List ℕ)) → Antichain minimal → Antichain (prune_loop minimal sets)
unfolding prune_loop
Antichain-prune_loop minimal [] c = c
Antichain-prune_loop minimal (set ∷ sets) c = elim (Bool-cases (any_subset minimal set)) [
  | inl covered ↦ rw covered (Antichain-prune_loop minimal sets c)
  | inr new ↦
      (let apart =
          All-zip _ _ (λ s. Apart s set) (retain set minimal) (λ s below above. (below, above))
            (retain-All (λ s. is_subset s set ≡ false) set minimal
              (any_subset_none minimal set new))
            (retain_not_above set minimal) in
        rw new (
          Antichain-prune_loop (retain set minimal ++ set ∷ []) sets
            (Antichain-append (retain set minimal) set (Antichain-retain set minimal c) apart)))
]

Antichain-insert_sorted :
    (le : List ℕ → List ℕ → Bool) (s : List ℕ) (sets : List (List ℕ))
    → All (Apart s) sets
    → Antichain sets
    → Antichain (insert_sorted le s sets)
unfolding insert_sorted
Antichain-insert_sorted le s [] a c = (tt, tt)
Antichain-insert_sorted le s (u ∷ us) a c = elim (Bool-cases (le s u)) [
  | inl here ↦ rw here (a, c)
  | inr later ↦ rw later (
    insert_sorted-All (Apart u) le s us (a.0.1, a.0.0) c.0,
    Antichain-insert_sorted le s us a.1 c.1,
  )
]

Antichain-sort_by :
    (le : List ℕ → List ℕ → Bool) (sets : List (List ℕ))
    → Antichain sets
    → Antichain (sort_by le sets)
unfolding sort_by
Antichain-sort_by le [] c = tt
Antichain-sort_by le (s ∷ sets) c =
    Antichain-insert_sorted le s (sort_by le sets) (sort_by-All (Apart s) le sets c.0)
      (Antichain-sort_by le sets c.1)

hitting_loop-Antichain :
    (candidates paths sets : List (List ℕ))
    → Antichain candidates
    → hitting_loop candidates paths ≡ ok sets
    → Antichain sets
unfolding hitting_loop prune_supersets
hitting_loop-Antichain candidates [] sets c e =
    let same : candidates ≡ sets = ground arith in rw (← same) c
hitting_loop-Antichain candidates (path ∷ paths) sets c e =
    let next = next_candidates (collect path) candidates in
    let by_size = sort_by len_le (dedup (sort_by set_le next)) in
    let run : hitting_loop (prune_supersets next) paths ≡ ok sets = ground arith in
    hitting_loop-Antichain (prune_supersets next) paths sets
      (Antichain-sort_by set_le (prune_loop [] by_size) (Antichain-prune_loop [] by_size tt)) run

-- A member that lies above `t` lies below it too.
abbrev Tight : List (List ℕ) → List ℕ → Type 0
Tight sets s = (t : List ℕ) → any_subset sets t ≡ true → is_subset t s ≡ true → is_subset s t ≡ true

Apart-from_below :
    (s : List ℕ) (sets : List (List ℕ)) (t : List ℕ)
    → All (Apart s) sets
    → is_subset t s ≡ true
    → any_subset sets t ≡ false
unfolding any_subset
Apart-from_below s [] t a below = refl
Apart-from_below s (u ∷ us) t a below = elim (Bool-cases (is_subset u t)) [
  | inl inside ↦ (let nested = is_subset_trans u t s inside below in let apart = a.0.1 in cc)
  | inr outside ↦ ground (arith, Apart-from_below s us t a.1 below)
]

Antichain-Tight : (sets : List (List ℕ)) → Antichain sets → All (Tight sets) sets
unfolding any_subset
Antichain-Tight [] c = tt
Antichain-Tight (s ∷ sets) c = (
  λ t a below. ground (arith, Apart-from_below s sets t c.0 below, a),
  All-zip (Apart s) (Tight sets) (Tight (s ∷ sets)) sets
      (λ u apart ih t a below. elim (Bool-cases (is_subset s t)) [
        | inl inside ↦
            (let nested = is_subset_trans s t u inside below in let other = apart.0 in cc)
        | inr outside ↦ ih t (ground arith) below
      ])
      c.0 (Antichain-Tight sets c.1),
)

-- Every computed set is minimal: a set that hits every path and is a subset of it contains it.
pub compute_minimal_hitting_sets_minimal :
    (paths sets : List (List ℕ))
    → compute_minimal_hitting_sets paths ≡ ok sets
    → All (λ s. (t : List ℕ) → HitsAll paths t → is_subset t s ≡ true → is_subset s t ≡ true) sets
unfolding compute_minimal_hitting_sets
compute_minimal_hitting_sets_minimal paths sets e =
    let run : hitting_loop ([] ∷ []) paths ≡ ok sets = ground arith in
    let chain = hitting_loop-Antichain ([] ∷ []) paths sets (tt, tt) run in
    All-map (Tight sets) _ sets
      (λ s tight t h below.
        tight t (compute_minimal_hitting_sets-any_subset paths sets t e h) below)
      (Antichain-Tight sets chain)
