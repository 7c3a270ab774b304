-- ===== src/Tests/State.antt =====
-- The properties of the task queue and of virtual time on concrete inputs.
use text.Mathlib.Text.{◌==◌ as str_eq}
use text.Mathlib.TextEquality.{eq_iff}
use Prim.Native.String.{String}
use ldgr.Prelude.{ℕ, ltb, ◌≤◌, ◌≡◌, refl, false, none, some, [], ◌∷◌, arith}
use ldgr.Worker.Queue
use ldgr.Worker.Queue.Budget.{IsOrderly, Step, Reachable, Reachable-IsOrderly}
use ldgr.Worker.Queue.Expiry.{keep, reclaim_expired-keep}
use ldgr.Worker.Queue.{
  new, reclaim_expired, TaskStatus, Task, InMemoryQueue, ack, report_failure, cancel, pull,
}
use ldgr.Worker.Queue.Census.{population, IsSound, population-pull, population_kept}
use ldgr.Sim.Time.{Timer, VirtualTime, set_with_enabler, advance_with_enablers}
use ldgr.Sim.Time.Order.{IsPending, IsPending-kept}

abbrev waiting : Task ℕ ℕ
waiting = record {
  id = "a";
  run_config = 1;
  workload = "w";
  run_config_hash = none;
  execution_identity = none;
  attempts = 0;
  max_attempts = 3;
  status = TaskStatus.queued;
}

abbrev running : Task ℕ ℕ
running = record waiting { id = "b"; attempts = 2; status = TaskStatus.leased }

-- One task waits, and the lease of another ends at 40.
abbrev busy : InMemoryQueue ℕ ℕ
busy = record {
  queue = waiting ∷ [];
  lease_timeout = 30;
  leased = record { key = "b"; task = running; deadline = 40 } ∷ [];
  failed = [];
  cancelled = [];
  done = [];
}

busy-IsSound : IsSound busy
busy-IsSound = record {
  keyed = (refl, tt);
  unique = λ id.
      let apart : str_eq "a" "b" ≡ false = refl in
      ground (arith, eq_iff "a" id, eq_iff "b" id, eq_iff "a" "b");
}

population-pull_example :
    ((id : String) → population id (pull 50 51 busy).0 ≡ population id busy)
    × IsSound (pull 50 51 busy).0
population-pull_example = population-pull 50 51 busy busy-IsSound

population_kept_example :
    (((id : String) → population id (report_failure "b" busy).0 ≡ population id busy)
      × IsSound (report_failure "b" busy).0)
    × (((id : String) → population id (cancel "b" busy).0 ≡ population id busy)
        × IsSound (cancel "b" busy).0)
    × (((id : String) → population id (ack "b" busy) ≡ population id busy) × IsSound (ack "b" busy))
population_kept_example = population_kept "b" busy busy-IsSound

abbrev soon : Timer ℕ
soon = record { deadline = 12; sequence = 1; task = 4; enabler = none }

abbrev later : Timer ℕ
later = record { deadline = 20; sequence = 2; task = 5; enabler = some 8 }

abbrev ticking : VirtualTime ℕ
ticking = record { now = 10; sequence = 2; timers = soon ∷ later ∷ [] }

ticking-IsPending : IsPending ticking
ticking-IsPending = ((omega arith, omega arith, (omega arith, omega arith, tt)), omega arith)

IsPending-kept_example :
    (IsPending (set_with_enabler 5 6 (some 9) ticking)
      × ((set_with_enabler 5 6 (some 9) ticking).now ≡ 10))
    × (IsPending (advance_with_enablers ticking).0 × (10 ≤ (advance_with_enablers ticking).0.now))
IsPending-kept_example = IsPending-kept 5 6 (some 9) ticking ticking-IsPending

-- One task is pushed and handed out.
Reachable-busy :
    Reachable {C = ℕ} {H = ℕ} (λ c. some c) (pull 5 6 (Queue.push (λ c. some c) waiting (new 30))).0
Reachable-busy =
    Reachable.after
      (Reachable.after (Reachable.fresh 30) (Step.pushed waiting (omega arith, omega arith)))
      (Step.pulled 5 6)

Reachable-IsOrderly_example :
    IsOrderly {C = ℕ} {H = ℕ} (pull 5 6 (Queue.push (λ c. some c) waiting (new 30))).0
Reachable-IsOrderly_example =
    Reachable-IsOrderly (λ c. some c) (pull 5 6 (Queue.push (λ c. some c) waiting (new 30))).0
      Reachable-busy

reclaim_expired-keep_example :
    (reclaim_expired 45 busy).leased ≡ keep (λ l. ltb 45 l.deadline) busy.leased
reclaim_expired-keep_example = reclaim_expired-keep 45 busy busy-IsSound
