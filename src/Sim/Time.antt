-- ===== src/Sim/Time.antt =====
-- crates/ledger-sim/src/time.rs: virtual time and the timer queue.
-- `BinaryHeap` gives the timer with the least deadline, and among those the one set first. The heap is
-- the list of its timers in that order. `E` is the type of entry hashes.
pub mod Order
use ldgr.Prelude.{
  ℕ, ◌+◌, ◌-◌, ◌%◌, ◌^◌, min, Option, none, some, List, [], ◌∷◌, map, ltb, leb, ◌==◌, ◌&&◌, ◌||◌,
  Bool, if◌then◌else◌,
}

pub record Timer (E : Type 0) : Type 0 where
  pub deadline : ℕ
  pub sequence : ℕ
  pub task : ℕ
  pub enabler : Option E

pub record TimerFired (E : Type 0) : Type 0 where
  pub task : ℕ
  pub enabler : Option E

pub record VirtualTime (E : Type 0) : Type 0 where
  pub now : ℕ
  pub sequence : ℕ
  pub timers : List (Timer E)

module _ {E : Type 0} where
  -- `a` comes out of the heap before `b`.
  unfoldable pub before : Timer E → Timer E → Bool
  before a b = ltb a.deadline b.deadline || (a.deadline == b.deadline && ltb a.sequence b.sequence)

  unfoldable pub push : Timer E → List (Timer E) → List (Timer E)
  push t [] = t ∷ []
  push t (u ∷ us) = let rest = push t us in if before t u then t ∷ u ∷ us else u ∷ rest

  unfoldable pub fired : Timer E → TimerFired E
  fired t = record { task = t.task; enabler = t.enabler }

  unfoldable pub from_ticks : ℕ → VirtualTime E
  from_ticks now = record { now = now; sequence = 0; timers = [] }

  unfoldable pub set_with_enabler : ℕ → ℕ → Option E → VirtualTime E → VirtualTime E
  set_with_enabler delay task enabler v =
      let timer : Timer E = record {
        deadline = min (v.now + delay) (2 ^ 64 - 1);
        sequence = (v.sequence + 1) % 2 ^ 64;
        task = task;
        enabler = enabler;
      } in
      record v { sequence = (v.sequence + 1) % 2 ^ 64; timers = push timer v.timers }

  unfoldable pub set : ℕ → ℕ → VirtualTime E → VirtualTime E
  set delay task v = set_with_enabler delay task none v

  -- The loops that pop the timers of one deadline, and those up to a deadline.
  unfoldable pub pop_at : ℕ → List (Timer E) → List (TimerFired E) × List (Timer E)
  pop_at now [] = ([], [])
  pop_at now (t ∷ ts) =
      let (ready, rest) = pop_at now ts in
      if t.deadline == now then (fired t ∷ ready, rest) else ([], t ∷ ts)

  unfoldable pub pop_until : ℕ → List (Timer E) → List (TimerFired E) × List (Timer E)
  pop_until now [] = ([], [])
  pop_until now (t ∷ ts) =
      let (ready, rest) = pop_until now ts in
      if leb t.deadline now then (fired t ∷ ready, rest) else ([], t ∷ ts)

  unfoldable pub advance_with_enablers : VirtualTime E → VirtualTime E × List (TimerFired E)
  advance_with_enablers v = elim v.timers [
    | [] ↦ (v, [])
    | t ∷ ts ↦
        (let (ready, rest) = pop_at t.deadline (t ∷ ts) in
          (record v { now = t.deadline; timers = rest }, ready))
  ]

  unfoldable pub advance : VirtualTime E → VirtualTime E × List ℕ
  advance v = let (v', ready) = advance_with_enablers v in (v', map (λ f. f.task) ready)

  unfoldable pub next_deadline : VirtualTime E → Option ℕ
  next_deadline v = elim v.timers [ [] ↦ none | t ∷ ts ↦ some t.deadline ]

  -- `none` is the failed assertion that time cannot move backward.
  unfoldable pub advance_to_with_enablers :
      ℕ → VirtualTime E → Option (VirtualTime E × List (TimerFired E))
  advance_to_with_enablers target v =
      let (ready, rest) = pop_until target v.timers in
      if leb v.now target then some (record v { now = target; timers = rest }, ready) else none

  unfoldable pub advance_to : ℕ → VirtualTime E → Option (VirtualTime E)
  advance_to deadline v = if leb v.now deadline then some (record v { now = deadline }) else none
