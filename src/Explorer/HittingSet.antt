-- ===== src/Explorer/HittingSet.antt =====
-- crates/ledger-explorer/src/solver/mod.rs: the minimal hitting sets of the derivation paths.
-- A hash is its number, whose order is that of its bytes. A `BTreeSet` of hashes is the ascending list
-- of its elements, and `Ord` of two sets is that of the lists. A path is the list of its events' hashes.
pub mod Sound
pub mod Complete
pub mod Minimal
use Prim.Native.Nat.{compare, Ordering}
use ldgr.Prelude.{
  ℕ, Bool, true, false, not, ◌&&◌, ◌||◌, List, [], ◌∷◌, ◌++◌, map, ltb, leb, ◌==◌, if◌then◌else◌,
  length, Result, ok, err, ◌>>=◌,
}
use ldgr.Prelude.Bytes.{bytes_eq}
use ldgr.Cbor.{compare_bytes}

abbrev pub max_hitting_set_paths : ℕ
max_hitting_set_paths = 65536

abbrev pub max_hitting_set_candidates : ℕ
max_hitting_set_candidates = 65536

-- `SolverError::BudgetExhausted`, for the paths and for the candidates.
pub data BudgetExhausted : Type 0 where
  paths_exceed : BudgetExhausted
  candidates_exceed : BudgetExhausted

-- The operations of `BTreeSet`.
unfoldable pub contains : ℕ → List ℕ → Bool
contains hash [] = false
contains hash (x ∷ set) = hash == x || contains hash set

unfoldable pub insert_hash : ℕ → List ℕ → List ℕ
insert_hash hash [] = hash ∷ []
insert_hash hash (x ∷ set) = elim (compare hash x) [
  | Ordering.lt ↦ hash ∷ x ∷ set
  | Ordering.eq ↦ x ∷ set
  | Ordering.gt ↦ x ∷ insert_hash hash set
]

-- `collect` into a set.
unfoldable pub collect : List ℕ → List ℕ
collect [] = []
collect (hash ∷ path) = insert_hash hash (collect path)

unfoldable pub is_subset : List ℕ → List ℕ → Bool
is_subset [] other = true
is_subset (x ∷ set) other = contains x other && is_subset set other

-- `current.iter().any(|hash| path_hashes.contains(hash))`
unfoldable pub hits : List ℕ → List ℕ → Bool
hits [] path = false
hits (x ∷ set) path = contains x path || hits set path

-- A stable sort by `before or equal`.
unfoldable pub insert_sorted : (List ℕ → List ℕ → Bool) → List ℕ → List (List ℕ) → List (List ℕ)
insert_sorted le s [] = s ∷ []
insert_sorted le s (u ∷ us) =
    let rest = insert_sorted le s us in if le s u then s ∷ u ∷ us else u ∷ rest

unfoldable pub sort_by : (List ℕ → List ℕ → Bool) → List (List ℕ) → List (List ℕ)
sort_by le [] = []
sort_by le (s ∷ sets) = insert_sorted le s (sort_by le sets)

unfoldable pub set_le : List ℕ → List ℕ → Bool
set_le a b = elim (compare_bytes a b) [ Ordering.gt ↦ false | _ ↦ true ]

unfoldable pub len_le : List ℕ → List ℕ → Bool
len_le a b = leb (length a) (length b)

-- `dedup`: of equal neighbours the first stays.
unfoldable pub dedup_after : List ℕ → List (List ℕ) → List (List ℕ)
dedup_after s [] = []
dedup_after s (u ∷ us) =
    let same = dedup_after s us in
    let other = u ∷ dedup_after u us in if bytes_eq s u then same else other

unfoldable pub dedup : List (List ℕ) → List (List ℕ)
unfolding dedup_after
dedup [] = []
dedup (s ∷ sets) = s ∷ dedup_after s sets

-- `minimal.iter().any(|existing| existing.is_subset(&set))`
unfoldable pub any_subset : List (List ℕ) → List ℕ → Bool
any_subset [] set = false
any_subset (s ∷ sets) set = is_subset s set || any_subset sets set

-- `minimal.retain(|existing| !set.is_subset(existing))`
unfoldable pub retain : List ℕ → List (List ℕ) → List (List ℕ)
retain set [] = []
retain set (s ∷ sets) = let rest = retain set sets in if is_subset set s then rest else s ∷ rest

-- The loop of `prune_supersets`.
unfoldable pub prune_loop : List (List ℕ) → List (List ℕ) → List (List ℕ)
prune_loop minimal [] = minimal
prune_loop minimal (set ∷ sets) =
    prune_loop (if any_subset minimal set then minimal else retain set minimal ++ set ∷ []) sets

unfoldable pub prune_supersets : List (List ℕ) → List (List ℕ)
prune_supersets sets = sort_by set_le (prune_loop [] (sort_by len_le (dedup (sort_by set_le sets))))

-- `expanded` for each hash of the path.
unfoldable pub expand : List ℕ → List ℕ → List (List ℕ)
expand current [] = []
expand current (hash ∷ path) = insert_hash hash current ∷ expand current path

unfoldable pub next_candidates : List ℕ → List (List ℕ) → List (List ℕ)
next_candidates path_hashes [] = []
next_candidates path_hashes (current ∷ candidates) =
    (if hits current path_hashes then current ∷ [] else expand current path_hashes)
    ++ next_candidates path_hashes candidates

unfoldable pub hitting_loop : List (List ℕ) → List (List ℕ) → Result BudgetExhausted (List (List ℕ))
hitting_loop candidates [] = ok candidates
hitting_loop candidates (path ∷ paths) =
    let next = next_candidates (collect path) candidates in
    let rest = hitting_loop (prune_supersets next) paths in
    if ltb max_hitting_set_candidates (length next) then err candidates_exceed else rest

unfoldable pub compute_minimal_hitting_sets : List (List ℕ) → Result BudgetExhausted (List (List ℕ))
compute_minimal_hitting_sets paths =
    if ltb max_hitting_set_paths (length paths)
    then err paths_exceed
    else hitting_loop ([] ∷ []) paths
