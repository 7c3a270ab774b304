-- ===== src/Tests/Search.antt =====
-- The properties of the reduction and of the hitting sets on concrete inputs.
use ldgr.Prelude.{ℕ, ◌*◌, ◌+◌, ◌≤◌, ◌≡◌, refl, true, some, List, [], ◌∷◌, length, All, ok}
use ldgr.Prelude.Bytes.{bytes_eq}
use ldgr.Cbor.{compare_bytes}
use ldgr.Explorer.Ddmin.{ddmin}
use ldgr.Explorer.Ddmin.Minimal.{IsOneMinimal, ddmin-IsOneMinimal}
use ldgr.Explorer.HittingSet.{
  contains, insert_hash, collect, is_subset, hits, insert_sorted, sort_by, set_le, len_le,
  dedup_after, dedup, any_subset, retain, prune_loop, prune_supersets, expand, next_candidates,
  hitting_loop, compute_minimal_hitting_sets,
}
use ldgr.Explorer.HittingSet.Sound.{HitsAll, compute_minimal_hitting_sets-HitsAll}
use ldgr.Explorer.HittingSet.Complete.{compute_minimal_hitting_sets-any_subset}
use ldgr.Explorer.HittingSet.Minimal.{compute_minimal_hitting_sets_minimal}
use ldgr.Tests.{fails_twice, schedule}

ddmin-IsOneMinimal_example :
    (r : List ℕ) × (ddmin fails_twice
        (length schedule * length schedule + length schedule + 2)
        schedule
      ≡ some r)
    × (fails_twice r ≡ true)
    × (2 ≤ length r → IsOneMinimal fails_twice r)
ddmin-IsOneMinimal_example = ddmin-IsOneMinimal fails_twice schedule refl

-- Three paths, which one event hits, or two others.
abbrev paths : List (List ℕ)
paths = (1 ∷ 2 ∷ []) ∷ (3 ∷ 2 ∷ []) ∷ (2 ∷ 1 ∷ 4 ∷ []) ∷ []

abbrev cuts : List (List ℕ)
cuts = (1 ∷ 3 ∷ []) ∷ (2 ∷ []) ∷ []

paths-cuts : compute_minimal_hitting_sets paths ≡ ok cuts
unfolding compute_minimal_hitting_sets hitting_loop next_candidates expand hits contains insert_hash
    collect prune_supersets prune_loop any_subset retain is_subset sort_by insert_sorted set_le
    len_le dedup dedup_after bytes_eq compare_bytes
paths-cuts = refl

compute_minimal_hitting_sets-HitsAll_example : All (HitsAll paths) cuts
compute_minimal_hitting_sets-HitsAll_example =
    compute_minimal_hitting_sets-HitsAll paths cuts paths-cuts

four_hits : HitsAll paths (2 ∷ 4 ∷ [])
unfolding hits contains
four_hits = (refl, (refl, (refl, tt)))

compute_minimal_hitting_sets-any_subset_example : any_subset cuts (2 ∷ 4 ∷ []) ≡ true
compute_minimal_hitting_sets-any_subset_example =
    compute_minimal_hitting_sets-any_subset paths cuts (2 ∷ 4 ∷ []) paths-cuts four_hits

compute_minimal_hitting_sets_minimal_example :
    All (λ s. (t : List ℕ) → HitsAll paths t → is_subset t s ≡ true → is_subset s t ≡ true) cuts
compute_minimal_hitting_sets_minimal_example =
    compute_minimal_hitting_sets_minimal paths cuts paths-cuts
