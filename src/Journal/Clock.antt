-- ===== src/Journal/Clock.antt =====
-- crates/ledger-journal/src/clock.rs: vector clocks.
-- The persistent tree of the source iterates in ascending actor order: a clock is the list of its
-- entries, and `IsClock` says that their actors ascend.
pub mod Merge
pub mod Increment
use Prim.Native.Nat.{compare, Ordering}
use ldgr.Prelude.{
  ℕ, ◌+◌, ◌-◌, ◌*◌, ◌^◌, ◌≤◌, suc, min, max, Bool, true, false, not, ◌&&◌, ◌||◌, List, [], ◌∷◌,
  ◌++◌, ltb, leb, ◌==◌, if◌then◌else◌, length,
}
use ldgr.Cbor.Encode
use ldgr.Cbor.Encode.{unsigned}

abbrev pub VectorClock : Type 0
VectorClock = List (ℕ × ℕ)

-- The actors are `low` or above, and ascend.
abbrev pub Above : ℕ → VectorClock → Type 0
Above low [] = Unit
Above low ((a, v) ∷ c) = (low ≤ a) × Above (suc a) c

abbrev pub IsClock : VectorClock → Type 0
IsClock c = Above 0 c

unfoldable pub get : VectorClock → ℕ → ℕ
get [] actor = 0
get ((a, v) ∷ c) actor = if a == actor then v else get c actor

-- `==` of two clocks.
unfoldable pub same_clock : VectorClock → VectorClock → Bool
same_clock [] [] = true
same_clock ((a, v) ∷ c) ((b, w) ∷ d) = (a == b) && ((v == w) && same_clock c d)
same_clock _ _ = false

unfoldable pub is_empty : VectorClock → Bool
is_empty [] = true
is_empty (e ∷ c) = false

-- The merged entries, and whether they are those of an argument.
pub record Merged : Type 0 where
  pub entries : VectorClock
  pub identical_to_left : Bool
  pub identical_to_right : Bool

-- The loop over the two iterators, with the rest of the longer one at its end. What a step makes of the
-- flags is put on those of the steps behind it.
unfoldable pub merge_loop : VectorClock → VectorClock → Merged
merge_loop [] [] = record { entries = []; identical_to_left = true; identical_to_right = true }
merge_loop [] (r ∷ right) = record {
  entries = r ∷ right;
  identical_to_left = false;
  identical_to_right = true;
}
merge_loop (l ∷ left) [] = record {
  entries = l ∷ left;
  identical_to_left = true;
  identical_to_right = false;
}
merge_loop ((la, lv) ∷ left) ((ra, rv) ∷ right) = elim (compare la ra) [
  | Ordering.lt ↦
      let m = merge_loop left ((ra, rv) ∷ right) in
      record m { entries = (la, lv) ∷ m.entries; identical_to_right = false }
  | Ordering.gt ↦
      let m = merge_loop ((la, lv) ∷ left) right in
      record m { entries = (ra, rv) ∷ m.entries; identical_to_left = false }
  | Ordering.eq ↦
      let m = merge_loop left right in
      record {
        entries = (la, max lv rv) ∷ m.entries;
        identical_to_left = not (ltb lv rv) && m.identical_to_left;
        identical_to_right = not (ltb rv lv) && m.identical_to_right;
      }
]

unfoldable pub merge : VectorClock → VectorClock → VectorClock
merge left right =
    let m = merge_loop left right in
    if is_empty left || same_clock left right
    then right
    else if is_empty right
    then left
    else if m.identical_to_left
    then left
    else if m.identical_to_right
    then right
    else m.entries

-- `insert` of the tree.
unfoldable pub insert : ℕ → ℕ → VectorClock → VectorClock
insert actor value [] = (actor, value) ∷ []
insert actor value ((a, v) ∷ c) = elim (compare a actor) [
  | Ordering.lt ↦ (a, v) ∷ insert actor value c
  | Ordering.eq ↦ (actor, value) ∷ c
  | Ordering.gt ↦ (actor, value) ∷ (a, v) ∷ c
]

-- `saturating_add(1)` of a `u64`.
unfoldable pub incremented : VectorClock → ℕ → VectorClock
incremented clock actor = insert actor (min (get clock actor + 1) (2 ^ 64 - 1)) clock

unfoldable pub happens_before_or_equal : VectorClock → VectorClock → Bool
happens_before_or_equal [] other = true
happens_before_or_equal ((a, v) ∷ c) other = leb v (get other a) && happens_before_or_equal c other

unfoldable pub happens_before : VectorClock → VectorClock → Bool
happens_before c d = happens_before_or_equal c d && not (same_clock c d)

unfoldable pub concurrent_with : VectorClock → VectorClock → Bool
concurrent_with c d = not (happens_before_or_equal c d) && not (happens_before_or_equal d c)

unfoldable pub encode_pairs : VectorClock → List ℕ
encode_pairs [] = []
encode_pairs ((a, v) ∷ c) = unsigned a ++ (unsigned v ++ encode_pairs c)

unfoldable pub encode : VectorClock → List ℕ
encode clock = Encode.map (length clock) ++ encode_pairs clock
