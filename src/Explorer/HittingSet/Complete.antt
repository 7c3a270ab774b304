-- ===== src/Explorer/HittingSet/Complete.antt =====
-- Every set that hits every path contains one of the sets that are computed.
use ldgr.Prelude.{
  ℕ, ◌≡◌, refl, ◌∙◌, Bool, true, ◌||◌, List, [], ◌∷◌, ◌++◌, arith, ◌==◌, ==_iff, ok, Bool-cases,
  inl, inr,
}
use ldgr.Prelude.Bytes.{bytes_eq, bytes_eq-eq}
use ldgr.Explorer.HittingSet.{
  contains, insert_hash, collect, is_subset, hits, insert_sorted, sort_by, set_le, len_le,
  dedup_after, dedup, any_subset, retain, prune_loop, prune_supersets, expand, next_candidates,
  hitting_loop, compute_minimal_hitting_sets,
}
use ldgr.Explorer.HittingSet.Sound.{HitsAll, hits-collect}

pub contains-is_subset :
    (x : ℕ) (a b : List ℕ) → is_subset a b ≡ true → contains x a ≡ true → contains x b ≡ true
unfolding contains is_subset
contains-is_subset x [] b s c = cc
contains-is_subset x (y ∷ a) b s c = elim (Bool-cases (x == y)) [
  | inl here ↦ rw ((==_iff x y).0 here) (ground arith)
  | inr later ↦ contains-is_subset x a b (ground arith) (ground arith)
]

pub is_subset_trans :
    (a b c : List ℕ) → is_subset a b ≡ true → is_subset b c ≡ true → is_subset a c ≡ true
unfolding is_subset
is_subset_trans [] b c s t = refl
is_subset_trans (x ∷ a) b c s t = ground (arith, contains-is_subset x b c t, is_subset_trans a b c)

any_subset_trans :
    (sets : List (List ℕ)) (u t : List ℕ)
    → any_subset sets u ≡ true
    → is_subset u t ≡ true
    → any_subset sets t ≡ true
unfolding any_subset
any_subset_trans [] u t a s = cc
any_subset_trans (v ∷ sets) u t a s =
    ground (arith, is_subset_trans v u t, any_subset_trans sets u t)

any_subset-append :
    (us vs : List (List ℕ)) (t : List ℕ)
    → any_subset (us ++ vs) t ≡ (any_subset us t || any_subset vs t)
unfolding any_subset
any_subset-append [] vs t = refl
any_subset-append (s ∷ us) vs t = ground (arith, any_subset-append us vs t)

any_subset-retain :
    (set : List ℕ) (sets : List (List ℕ)) (t : List ℕ)
    → any_subset sets t ≡ true
    → (any_subset (retain set sets) t || is_subset set t) ≡ true
unfolding any_subset retain
any_subset-retain set [] t a = cc
any_subset-retain set (s ∷ sets) t a =
    ground (arith, is_subset_trans set s t, any_subset-retain set sets t)

any_subset-prune_loop :
    (minimal sets : List (List ℕ)) (t : List ℕ)
    → (any_subset minimal t || any_subset sets t) ≡ true
    → any_subset (prune_loop minimal sets) t ≡ true
unfolding prune_loop any_subset
any_subset-prune_loop minimal [] t a = ground arith
any_subset-prune_loop minimal (set ∷ sets) t a = elim (Bool-cases (any_subset minimal set)) [
  | inl covered ↦
      rw covered
        (any_subset-prune_loop minimal sets t (ground (arith, any_subset_trans minimal set t)))
  | inr new ↦ rw new (
      any_subset-prune_loop (retain set minimal ++ set ∷ []) sets t (
        ground (
          arith,
          any_subset-append (retain set minimal) (set ∷ []) t,
          any_subset-retain set minimal t,
        )))
]

any_subset-insert_sorted :
    (le : List ℕ → List ℕ → Bool) (s : List ℕ) (sets : List (List ℕ)) (t : List ℕ)
    → any_subset (insert_sorted le s sets) t ≡ (is_subset s t || any_subset sets t)
unfolding insert_sorted any_subset
any_subset-insert_sorted le s [] t = refl
any_subset-insert_sorted le s (u ∷ us) t = ground (arith, any_subset-insert_sorted le s us t)

any_subset-sort_by :
    (le : List ℕ → List ℕ → Bool) (sets : List (List ℕ)) (t : List ℕ)
    → any_subset (sort_by le sets) t ≡ any_subset sets t
unfolding sort_by any_subset
any_subset-sort_by le [] t = refl
any_subset-sort_by le (s ∷ sets) t =
    ground (arith, any_subset-insert_sorted le s (sort_by le sets) t, any_subset-sort_by le sets t)

any_subset-dedup_after :
    (s : List ℕ) (sets : List (List ℕ)) (t : List ℕ)
    → (is_subset s t || any_subset (dedup_after s sets) t) ≡ (is_subset s t || any_subset sets t)
unfolding dedup_after any_subset
any_subset-dedup_after s [] t = refl
any_subset-dedup_after s (u ∷ us) t = elim (Bool-cases (bytes_eq s u)) [
  | inl same ↦
      (let one : s ≡ u = bytes_eq-eq s u same in
        rw same (ground (arith, any_subset-dedup_after s us t, one)))
  | inr other ↦ rw other (ground (arith, any_subset-dedup_after u us t))
]

any_subset-dedup :
    (sets : List (List ℕ)) (t : List ℕ) → any_subset (dedup sets) t ≡ any_subset sets t
unfolding dedup any_subset
any_subset-dedup [] t = refl
any_subset-dedup (s ∷ sets) t = any_subset-dedup_after s sets t

any_subset-prune_supersets :
    (sets : List (List ℕ)) (t : List ℕ)
    → any_subset sets t ≡ true
    → any_subset (prune_supersets sets) t ≡ true
unfolding prune_supersets
any_subset-prune_supersets sets t a =
    let sorted = sort_by set_le sets in
    let unique = dedup sorted in
    let by_size = sort_by len_le unique in
    let kept : any_subset by_size t ≡ true =
      any_subset-sort_by len_le unique t
      ∙ any_subset-dedup sorted t
      ∙ any_subset-sort_by set_le sets t
      ∙ a in
    any_subset-sort_by set_le (prune_loop [] by_size) t
    ∙ any_subset-prune_loop [] by_size t (unfold any_subset in kept)

-- An element of the path that a set holds.
hit_witness :
    (t path : List ℕ)
    → hits t path ≡ true
    → (h : ℕ) × (contains h t ≡ true) × (contains h path ≡ true)
unfolding hits contains
hit_witness [] path e = cc
hit_witness (x ∷ t) path e = elim (Bool-cases (contains x path)) [
  | inl here ↦ (x, ground arith, here)
  | inr later ↦
      (let (h, inside, on_path) = hit_witness t path (ground arith) in (h, ground arith, on_path))
]

is_subset-insert_hash :
    (h : ℕ) (s t : List ℕ)
    → contains h t ≡ true
    → is_subset s t ≡ true
    → is_subset (insert_hash h s) t ≡ true
unfolding is_subset insert_hash
is_subset-insert_hash h [] t c e = ground arith
is_subset-insert_hash h (x ∷ s) t c e = ground (arith, is_subset-insert_hash h s t)

any_subset-expand :
    (current path t : List ℕ) (h : ℕ)
    → is_subset current t ≡ true
    → contains h t ≡ true
    → contains h path ≡ true
    → any_subset (expand current path) t ≡ true
unfolding expand any_subset contains
any_subset-expand current [] t h s c e = cc
any_subset-expand current (x ∷ path) t h s c e = elim (Bool-cases (h == x)) [
  | inl here ↦
      (let inside : contains x t ≡ true = rw ((==_iff h x).0 here) at c in
        rw (is_subset-insert_hash x current t inside s))
  | inr later ↦ ground (arith, any_subset-expand current path t h s c)
]

any_subset-next_candidates :
    (path : List ℕ) (candidates : List (List ℕ)) (t : List ℕ)
    → hits t path ≡ true
    → any_subset candidates t ≡ true
    → any_subset (next_candidates path candidates) t ≡ true
unfolding next_candidates any_subset
any_subset-next_candidates path [] t h a = cc
any_subset-next_candidates path (current ∷ candidates) t h a =
    let (x, inside, on_path) = hit_witness t path h in
    let rest = any_subset-next_candidates path candidates t h in
    elim (Bool-cases (hits current path)) [
      | inl hit ↦ rw hit (ground (arith, rest))
      | inr missed ↦ rw missed (
          any_subset-append (expand current path) (next_candidates path candidates) t
          ∙ ground (arith, rest, any_subset-expand current path t x, inside, on_path))
    ]

hitting_loop-any_subset :
    (candidates paths sets : List (List ℕ)) (t : List ℕ)
    → hitting_loop candidates paths ≡ ok sets
    → HitsAll paths t
    → any_subset candidates t ≡ true
    → any_subset sets t ≡ true
unfolding hitting_loop
hitting_loop-any_subset candidates [] sets t e h a =
    let same : candidates ≡ sets = ground arith in rw (← same) a
hitting_loop-any_subset candidates (path ∷ paths) sets t e h a =
    let next = next_candidates (collect path) candidates in
    let run : hitting_loop (prune_supersets next) paths ≡ ok sets = ground arith in
    let hit : hits t (collect path) ≡ true = hits-collect t path ∙ h.0 in
    hitting_loop-any_subset (prune_supersets next) paths sets t run h.1 (
      any_subset-prune_supersets next t
        (any_subset-next_candidates (collect path) candidates t hit a))

-- Every set that hits every path has one of the computed sets as a subset.
pub compute_minimal_hitting_sets-any_subset :
    (paths sets : List (List ℕ)) (t : List ℕ)
    → compute_minimal_hitting_sets paths ≡ ok sets
    → HitsAll paths t
    → any_subset sets t ≡ true
unfolding compute_minimal_hitting_sets
compute_minimal_hitting_sets-any_subset paths sets t e h =
    let run : hitting_loop ([] ∷ []) paths ≡ ok sets = ground arith in
    hitting_loop-any_subset ([] ∷ []) paths sets t run h (unfold any_subset is_subset in refl)
