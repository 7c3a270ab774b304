-- ===== src/Explorer/HittingSet/Sound.antt =====
-- Every set that is computed hits every path.
use ldgr.Prelude.{
  ℕ, ◌≡◌, refl, sym, ◌∙◌, Bool, true, ◌||◌, List, [], ◌∷◌, ◌++◌, arith, ◌==◌, All, All-append, ok,
  Bool-cases, inl, inr,
}
use ldgr.Prelude.Bytes.{bytes_eq}
use ldgr.Explorer.HittingSet.{
  contains, insert_hash, collect, is_subset, hits, insert_sorted, sort_by, set_le, len_le,
  dedup_after, dedup, any_subset, retain, prune_loop, prune_supersets, expand, next_candidates,
  hitting_loop, compute_minimal_hitting_sets,
}

-- What each list operation keeps of a predicate on its sets.
module _ (P : List ℕ → Type 0) where
  pub insert_sorted-All :
      (le : List ℕ → List ℕ → Bool) (s : List ℕ) (sets : List (List ℕ))
      → P s
      → All P sets
      → All P (insert_sorted le s sets)
  unfolding insert_sorted
  insert_sorted-All le s [] p a = (p, tt)
  insert_sorted-All le s (u ∷ us) p a = elim (Bool-cases (le s u)) [
    | inl here ↦ rw here (p, a)
    | inr later ↦ rw later (a.0, insert_sorted-All le s us p a.1)
  ]

  pub sort_by-All :
      (le : List ℕ → List ℕ → Bool) (sets : List (List ℕ)) → All P sets → All P (sort_by le sets)
  unfolding sort_by
  sort_by-All le [] a = tt
  sort_by-All le (s ∷ sets) a =
      insert_sorted-All le s (sort_by le sets) a.0 (sort_by-All le sets a.1)

  dedup_after-All : (s : List ℕ) (sets : List (List ℕ)) → All P sets → All P (dedup_after s sets)
  unfolding dedup_after
  dedup_after-All s [] a = tt
  dedup_after-All s (u ∷ us) a = elim (Bool-cases (bytes_eq s u)) [
    | inl same ↦ rw same (dedup_after-All s us a.1)
    | inr other ↦ rw other (a.0, dedup_after-All u us a.1)
  ]

  dedup-All : (sets : List (List ℕ)) → All P sets → All P (dedup sets)
  unfolding dedup
  dedup-All [] a = tt
  dedup-All (s ∷ sets) a = (a.0, dedup_after-All s sets a.1)

  pub retain-All : (set : List ℕ) (sets : List (List ℕ)) → All P sets → All P (retain set sets)
  unfolding retain
  retain-All set [] a = tt
  retain-All set (s ∷ sets) a = elim (Bool-cases (is_subset set s)) [
    | inl above ↦ rw above (retain-All set sets a.1)
    | inr other ↦ rw other (a.0, retain-All set sets a.1)
  ]

  prune_loop-All :
      (minimal sets : List (List ℕ)) → All P minimal → All P sets → All P (prune_loop minimal sets)
  unfolding prune_loop
  prune_loop-All minimal [] m a = m
  prune_loop-All minimal (set ∷ sets) m a = elim (Bool-cases (any_subset minimal set)) [
    | inl covered ↦ rw covered (prune_loop-All minimal sets m a.1)
    | inr new ↦ rw new (
        prune_loop-All (retain set minimal ++ set ∷ []) sets
          (All-append P (retain set minimal) (set ∷ []) (retain-All set minimal m) (a.0, tt)) a.1)
  ]

  pub prune_supersets-All : (sets : List (List ℕ)) → All P sets → All P (prune_supersets sets)
  unfolding prune_supersets
  prune_supersets-All sets a =
      sort_by-All set_le _
        (prune_loop-All [] _ tt (sort_by-All len_le _ (dedup-All _ (sort_by-All set_le sets a))))

-- A set hits a list of paths.
abbrev pub HitsAll : List (List ℕ) → List ℕ → Type 0
HitsAll paths set = All (λ path. hits set path ≡ true) paths

pub contains-insert_hash :
    (x hash : ℕ) (set : List ℕ) → contains x (insert_hash hash set) ≡ (x == hash || contains x set)
unfolding contains insert_hash
contains-insert_hash x hash [] = refl
contains-insert_hash x hash (y ∷ set) = ground (arith, contains-insert_hash x hash set)

pub contains-collect : (x : ℕ) (path : List ℕ) → contains x (collect path) ≡ contains x path
unfolding collect contains
contains-collect x [] = refl
contains-collect x (hash ∷ path) =
    ground (arith, contains-insert_hash x hash (collect path), contains-collect x path)

pub hits-insert_hash :
    (hash : ℕ) (set path : List ℕ)
    → hits (insert_hash hash set) path ≡ (contains hash path || hits set path)
unfolding hits insert_hash
hits-insert_hash hash [] path = refl
hits-insert_hash hash (x ∷ set) path = ground (arith, hits-insert_hash hash set path)

pub hits-collect : (set path : List ℕ) → hits set (collect path) ≡ hits set path
unfolding hits
hits-collect [] path = refl
hits-collect (x ∷ set) path = rw (contains-collect x path, hits-collect set path)

pub contains_weaken :
    (y : ℕ) (full ps : List ℕ)
    → All (λ h. contains h full ≡ true) ps
    → All (λ h. contains h (y ∷ full) ≡ true) ps
unfolding contains
contains_weaken y full [] a = tt
contains_weaken y full (p ∷ ps) a = (ground arith, contains_weaken y full ps a.1)

pub contains_self : (ps : List ℕ) → All (λ h. contains h ps ≡ true) ps
unfolding contains
contains_self [] = tt
contains_self (p ∷ ps) = (ground arith, contains_weaken p ps ps (contains_self ps))

-- The invariant of the loop: a predicate that larger sets keep.
abbrev Grows : (List ℕ → Type 0) → Type 0
Grows P = (hash : ℕ) (set : List ℕ) → P set → P (insert_hash hash set)

Grows-hits :
    (P : List ℕ → Type 0) (path : List ℕ) → Grows P → Grows (λ s. P s × (hits s path ≡ true))
Grows-hits P path grows hash set p =
    (grows hash set p.0, ground (arith, hits-insert_hash hash set path, p.1))

module _ (P : List ℕ → Type 0) (grows : Grows P) (path : List ℕ) where
  expand-All :
      (current ps : List ℕ)
      → P current
      → All (λ h. contains h path ≡ true) ps
      → All (λ s. P s × (hits s path ≡ true)) (expand current ps)
  unfolding expand
  expand-All current [] p a = tt
  expand-All current (h ∷ ps) p a = (
    (grows h current p, ground (arith, hits-insert_hash h current path, a.0)),
    expand-All current ps p a.1,
  )

  next_candidates-All :
      (candidates : List (List ℕ))
      → All P candidates
      → All (λ s. P s × (hits s path ≡ true)) (next_candidates path candidates)
  unfolding next_candidates
  next_candidates-All [] a = tt
  next_candidates-All (current ∷ candidates) a =
      let rest = next_candidates-All candidates a.1 in
      elim (Bool-cases (hits current path)) [
        | inl hit ↦ rw hit ((a.0, hit), rest)
        | inr missed ↦ rw missed (
            All-append _ (expand current path) _ (expand-All current path a.0 (contains_self path))
              rest)
      ]

pub All-map :
    (P Q : List ℕ → Type 0) (sets : List (List ℕ))
    → ((s : List ℕ) → P s → Q s)
    → All P sets
    → All Q sets
All-map P Q [] f a = tt
All-map P Q (s ∷ sets) f a = (f s a.0, All-map P Q sets f a.1)

hitting_loop-All :
    (P : List ℕ → Type 0) (candidates paths sets : List (List ℕ))
    → Grows P
    → All P candidates
    → hitting_loop candidates paths ≡ ok sets
    → All (λ s. P s × HitsAll paths s) sets
unfolding hitting_loop
hitting_loop-All P candidates [] sets grows a e =
    let same : candidates ≡ sets = ground arith in
    rw (← same) (All-map P _ candidates (λ s p. (p, tt)) a)
hitting_loop-All P candidates (path ∷ paths) sets grows a e =
    let next = next_candidates (collect path) candidates in
    let step =
      prune_supersets-All _ next (next_candidates-All P grows (collect path) candidates a) in
    let run : hitting_loop (prune_supersets next) paths ≡ ok sets = ground arith in
    All-map _ _ sets (λ s p. (p.0.0, (sym (hits-collect s path) ∙ p.0.1, p.1)))
      (hitting_loop-All (λ s. P s × (hits s (collect path) ≡ true)) (prune_supersets next) paths
        sets (Grows-hits P (collect path) grows) step run)

-- Every set that is computed hits every path.
pub compute_minimal_hitting_sets-HitsAll :
    (paths sets : List (List ℕ))
    → compute_minimal_hitting_sets paths ≡ ok sets
    → All (HitsAll paths) sets
unfolding compute_minimal_hitting_sets
compute_minimal_hitting_sets-HitsAll paths sets e =
    let run : hitting_loop ([] ∷ []) paths ≡ ok sets = ground arith in
    All-map _ _ sets (λ s p. p.1)
      (hitting_loop-All (λ s. Unit {0}) ([] ∷ []) paths sets (λ h s u. tt) (tt, tt) run)
