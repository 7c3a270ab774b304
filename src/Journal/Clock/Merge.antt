-- ===== src/Journal/Clock/Merge.antt =====
-- Merging is the component-wise maximum, and the least clock above both.
use ldgr.Prelude.{
  ℕ, suc, ◌≤◌, ◌<◌, ◌≡◌, ◌↔◌, refl, max, sym, Bool, true, false, if◌then◌else◌, [], ◌∷◌, arith,
}
use Prim.Native.Nat.{compare, Ordering}
use ldgr.Journal.Clock.{
  VectorClock, Above, IsClock, get, same_clock, is_empty, merge_loop, merge,
  happens_before_or_equal,
}

pub get-Above :
    (low : ℕ) (c : VectorClock) (actor : ℕ) → Above low c → actor < low → get c actor ≡ 0
unfolding get
get-Above low [] actor h lt = refl
get-Above low ((b, v) ∷ c) actor h lt = ground (arith, h.0, get-Above (suc b) c actor h.1)

-- The entries that the loop merges.
combined : VectorClock → VectorClock → VectorClock
combined [] right = right
combined (l ∷ left) [] = l ∷ left
combined ((la, lv) ∷ left) ((ra, rv) ∷ right) = elim (compare la ra) [
  | Ordering.lt ↦ (la, lv) ∷ combined left ((ra, rv) ∷ right)
  | Ordering.gt ↦ (ra, rv) ∷ combined ((la, lv) ∷ left) right
  | Ordering.eq ↦ (la, max lv rv) ∷ combined left right
]

entries-merge_loop :
    (left right : VectorClock) → (merge_loop left right).entries ≡ combined left right
unfolding merge_loop combined
entries-merge_loop [] [] = refl
entries-merge_loop [] (r ∷ right) = refl
entries-merge_loop (l ∷ left) [] = refl
entries-merge_loop ((la, lv) ∷ left) ((ra, rv) ∷ right) = ground (
  arith,
  entries-merge_loop left ((ra, rv) ∷ right),
  entries-merge_loop ((la, lv) ∷ left) right,
  entries-merge_loop left right,
)

-- A flag that is left means that the entries are those of the argument.
identical_left :
    (left right : VectorClock)
    → (merge_loop left right).identical_to_left ≡ true
    → combined left right ≡ left
unfolding merge_loop combined
identical_left [] [] h = refl
identical_left [] (r ∷ right) h = cc
identical_left (l ∷ left) [] h = refl
identical_left ((la, lv) ∷ left) ((ra, rv) ∷ right) h =
    ground (arith, h, identical_left left ((ra, rv) ∷ right), identical_left left right)

identical_right :
    (left right : VectorClock)
    → (merge_loop left right).identical_to_right ≡ true
    → combined left right ≡ right
unfolding merge_loop combined
identical_right [] [] h = refl
identical_right [] (r ∷ right) h = refl
identical_right (l ∷ left) [] h = cc
identical_right ((la, lv) ∷ left) ((ra, rv) ∷ right) h =
    ground (arith, h, identical_right ((la, lv) ∷ left) right, identical_right left right)

same_clock-combined :
    (left right : VectorClock) → same_clock left right ≡ true → combined left right ≡ right
unfolding same_clock combined
same_clock-combined [] [] h = refl
same_clock-combined [] (r ∷ right) h = refl
same_clock-combined (l ∷ left) [] h = cc
same_clock-combined ((la, lv) ∷ left) ((ra, rv) ∷ right) h =
    ground (arith, h, same_clock-combined left right)

if-eq :
    (b : Bool) (x y z : VectorClock)
    → (b ≡ true → x ≡ z)
    → (b ≡ false → y ≡ z)
    → (if b then x else y) ≡ z
if-eq true x y z h k = h refl
if-eq false x y z h k = k refl

-- The arguments that are returned as they are have the merged entries.
merge-combined : (left right : VectorClock) → merge left right ≡ combined left right
unfolding merge is_empty combined same_clock
merge-combined [] right = refl
merge-combined (l ∷ left) [] = refl
merge-combined (l ∷ left) (r ∷ right) =
    if-eq (same_clock (l ∷ left) (r ∷ right)) _ _ _
      (λ same. sym (same_clock-combined (l ∷ left) (r ∷ right) same))
      λ apart.
        if-eq (merge_loop (l ∷ left) (r ∷ right)).identical_to_left _ _ _
          (λ same. sym (identical_left (l ∷ left) (r ∷ right) same))
          λ other.
            if-eq (merge_loop (l ∷ left) (r ∷ right)).identical_to_right _ _ _
              (λ same. sym (identical_right (l ∷ left) (r ∷ right) same))
              λ neither. entries-merge_loop (l ∷ left) (r ∷ right)

combined-Above :
    (low : ℕ) (left right : VectorClock)
    → Above low left
    → Above low right
    → Above low (combined left right)
unfolding combined
combined-Above low [] right hl hr = hr
combined-Above low (l ∷ left) [] hl hr = hl
combined-Above low ((la, lv) ∷ left) ((ra, rv) ∷ right) hl hr = ground (
  arith,
  hl.0,
  hr.0,
  hl.1,
  hr.1,
  combined-Above (suc la) left ((ra, rv) ∷ right) hl.1,
  combined-Above (suc ra) ((la, lv) ∷ left) right,
  combined-Above (suc ra) left right,
)

get-combined-Above :
    (low : ℕ) (left right : VectorClock) (actor : ℕ)
    → Above low left
    → Above low right
    → get (combined left right) actor ≡ max (get left actor) (get right actor)
unfolding combined get
get-combined-Above low [] right actor hl hr = omega arith
get-combined-Above low (l ∷ left) [] actor hl hr = omega arith
get-combined-Above low ((la, lv) ∷ left) ((ra, rv) ∷ right) actor hl hr = ground (
  arith,
  hl.0,
  hr.0,
  get-combined-Above (suc la) left ((ra, rv) ∷ right) actor hl.1,
  get-combined-Above (suc ra) ((la, lv) ∷ left) right actor,
  get-combined-Above (suc ra) left right actor,
  get-Above (suc la) left actor hl.1,
  get-Above (suc ra) right actor hr.1,
  hl.1,
  hr.1,
)

-- Merging two clocks gives a clock, whose component at every actor is the greater of the two.
pub get-merge :
    (left right : VectorClock)
    → IsClock left
    → IsClock right
    → IsClock (merge left right)
      × ((actor : ℕ) → get (merge left right) actor ≡ max (get left actor) (get right actor))
get-merge left right hl hr =
    rw (merge-combined left right)
      (combined-Above 0 left right hl hr, λ actor. get-combined-Above 0 left right actor hl hr)

-- The comparison of clocks holds exactly when no component is greater.
le_sound :
    (c d : VectorClock) (actor : ℕ) → happens_before_or_equal c d ≡ true → get c actor ≤ get d actor
unfolding happens_before_or_equal get
le_sound [] d actor h = omega arith
le_sound ((a, v) ∷ c) d actor h = ground (arith, le_sound c d actor)

le_complete :
    (low : ℕ) (c d : VectorClock)
    → Above low c
    → ((actor : ℕ) → low ≤ actor → get c actor ≤ get d actor)
    → happens_before_or_equal c d ≡ true
unfolding happens_before_or_equal get
le_complete low [] d hc h = refl
le_complete low ((a, v) ∷ c) d hc h =
    let here : v ≤ get d a = ground (arith, h a hc.0) in
    let rest = le_complete (suc a) c d hc.1 (λ actor le. ground (arith, h actor, hc.0)) in
    ground arith

-- A clock, whose actors ascend, happens before or equals another exactly when no component of it is greater.
pub happens_before_or_equal_iff :
    (c d : VectorClock)
    → IsClock c
    → (happens_before_or_equal c d ≡ true) ↔ ((actor : ℕ) → get c actor ≤ get d actor)
happens_before_or_equal_iff c d hc =
    (λ h actor. le_sound c d actor h, λ h. le_complete 0 c d hc (λ actor _. h actor))
