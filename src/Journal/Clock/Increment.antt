-- ===== src/Journal/Clock/Increment.antt =====
-- Incrementing a clock raises one component and leaves the others.
use ldgr.Prelude.{ℕ, suc, ◌+◌, ◌-◌, ◌^◌, ◌≤◌, ◌<◌, ◌≡◌, min, [], ◌∷◌, arith, ◌==◌, if◌then◌else◌}
use ldgr.Journal.Clock.{VectorClock, Above, IsClock, get, merge, insert, incremented}
use ldgr.Journal.Clock.Merge.{get-merge}

insert-Above :
    (low actor value : ℕ) (c : VectorClock)
    → Above low c
    → low ≤ actor
    → Above low (insert actor value c)
unfolding insert
insert-Above low actor value [] h lo = (lo, tt)
insert-Above low actor value ((a, v) ∷ c) h lo =
    ground (arith, h.0, h.1, insert-Above (suc a) actor value c h.1)

get-insert :
    (low actor value other : ℕ) (c : VectorClock)
    → Above low c
    → get (insert actor value c) other ≡ (if actor == other then value else get c other)
unfolding insert get
get-insert low actor value other [] h = ground arith
get-insert low actor value other ((a, v) ∷ c) h =
    ground (arith, h.0, h.1, get-insert (suc a) actor value other c h.1)

-- The components are `u64`.
pub record IsU64Clock (c : VectorClock) : Type 0 where
  pub ascends : IsClock c
  pub small : (actor : ℕ) → get c actor < 2 ^ 64

-- No component is greater.
abbrev pub Below : VectorClock → VectorClock → Type 0
Below c d = (actor : ℕ) → get c actor ≤ get d actor

pub IsU64Clock-nil : IsU64Clock []
unfolding get
IsU64Clock-nil = record { ascends = tt; small = λ actor. omega arith }

pub merge-IsU64Clock : (c d : VectorClock) → IsU64Clock c → IsU64Clock d → IsU64Clock (merge c d)
merge-IsU64Clock c d hc hd =
    let (ascends, component) = get-merge c d hc.ascends hd.ascends in
    record {
      ascends = ascends;
      small = λ actor. omega (arith, component actor, hc.small actor, hd.small actor);
    }

pub Below-merge :
    (c d : VectorClock) → IsU64Clock c → IsU64Clock d → Below c (merge c d) × Below d (merge c d)
Below-merge c d hc hd =
    let (ascends, component) = get-merge c d hc.ascends hd.ascends in
    (λ actor. omega (arith, component actor), λ actor. omega (arith, component actor))

get-incremented :
    (c : VectorClock) (actor other : ℕ)
    → IsU64Clock c
    → get (incremented c actor) other
      ≡ (if actor == other then min (get c actor + 1) (2 ^ 64 - 1) else get c other)
unfolding incremented
get-incremented c actor other h =
    get-insert 0 actor (min (get c actor + 1) (2 ^ 64 - 1)) other c h.ascends

pub incremented-IsU64Clock :
    (c : VectorClock) (actor : ℕ) → IsU64Clock c → IsU64Clock (incremented c actor)
unfolding incremented
incremented-IsU64Clock c actor h = record {
  ascends = insert-Above 0 actor _ c h.ascends (omega arith);
  small = λ other. ground (arith, get-incremented c actor other h, h.small other);
}

pub Below-incremented : (c : VectorClock) (actor : ℕ) → IsU64Clock c → Below c (incremented c actor)
Below-incremented c actor h other = ground (arith, get-incremented c actor other h, h.small other)
