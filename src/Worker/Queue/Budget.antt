-- ===== src/Worker/Queue/Budget.antt =====
-- Each list of the queue holds tasks of its own status, within their budget of attempts, in every
-- queue that the operations can reach.
use text.Mathlib.Text.{◌==◌ as str_eq}
use Prim.Native.String.{String}
use ldgr.Prelude.{
  ℕ, ◌+◌, ◌%◌, ◌^◌, ◌<◌, ◌≡◌, refl, Option, some, List, [], ◌∷◌, arith, leb, All, All-append,
  Option-cases, Bool-cases, inl, inr,
}
use ldgr.Worker.Queue.{
  TaskStatus, Task, Lease, InMemoryQueue, new, find_lease, drop_lease, insert_lease, set_status,
  push, ack, retire_or_requeue, record_taken_task_failure, report_failure, extend_deadline,
  extend_lease, find_queued, drop_queued, take_by_id, cancel, expired_ids, reclaim, reclaim_expired,
  lease_front, pull,
}

module _ {C H : Type 0} where
  -- A task that waits or runs has attempts left, and one that failed has used them all.
  abbrev pub HasBudget : Task C H → Type 0
  HasBudget t = (t.attempts < t.max_attempts) × (t.max_attempts < 2 ^ 32)

  abbrev pub IsQueued : Task C H → Type 0
  IsQueued t = (t.status ≡ TaskStatus.queued) × HasBudget t

  abbrev pub IsLeased : Lease C H → Type 0
  IsLeased l = (l.task.status ≡ TaskStatus.leased) × HasBudget l.task

  abbrev pub IsExhausted : Task C H → Type 0
  IsExhausted t = (t.status ≡ TaskStatus.failed) × (t.attempts ≡ t.max_attempts)

  abbrev pub IsCancelled : Task C H → Type 0
  IsCancelled t = t.status ≡ TaskStatus.cancelled

  abbrev pub IsDone : Task C H → Type 0
  IsDone t = t.status ≡ TaskStatus.done

pub record IsOrderly {C H : Type 0} (q : InMemoryQueue C H) : Type 0 where
  pub waiting : All IsQueued q.queue
  pub running : All IsLeased q.leased
  pub exhausted : All IsExhausted q.failed
  pub withdrawn : All IsCancelled q.cancelled
  pub finished : All IsDone q.done

-- The operations, each on any argument that its callers may pass.
pub data Step {C H : Type 0} (hash : C → Option H) (q : InMemoryQueue C H)
    : InMemoryQueue C H → Type 0 where
  pushed : (t : Task C H) → HasBudget t → Step hash q (push hash t q)
  acked : (id : String) → Step hash q (ack id q)
  failed : (id : String) → Step hash q (report_failure id q).0
  extended : (id : String) (extra : ℕ) → Step hash q (extend_lease id extra q).0
  cancelled : (id : String) → Step hash q (cancel id q).0
  pulled : (now now' : ℕ) → Step hash q (pull now now' q).0
  taken : (id : String) → Step hash q (take_by_id id q).0
  charged : (t : Task C H) → HasBudget t → Step hash q (record_taken_task_failure t q).0

pub data Reachable {C H : Type 0} (hash : C → Option H) : InMemoryQueue C H → Type 0 where
  fresh : (lease_timeout : ℕ) → Reachable hash (new lease_timeout)
  after : {q q' : InMemoryQueue C H} → Reachable hash q → Step hash q q' → Reachable hash q'

module _ {C H : Type 0} where
  find_lease-IsLeased :
      (k : String) (ls : List (Lease C H)) (t : Task C H)
      → All IsLeased ls
      → find_lease k ls ≡ some t
      → HasBudget t
  unfolding find_lease
  find_lease-IsLeased k [] t h e = cc
  find_lease-IsLeased k (l ∷ ls) t h e = ground (arith, h.0, find_lease-IsLeased k ls t h.1)

  drop_lease-All :
      (P : Lease C H → Type 0) (k : String) (ls : List (Lease C H))
      → All P ls
      → All P (drop_lease k ls)
  unfolding drop_lease
  drop_lease-All P k [] h = tt
  drop_lease-All P k (l ∷ ls) h = elim (Bool-cases (str_eq l.key k)) [
    | inl here ↦ rw here h.1
    | inr other ↦ rw other (h.0, drop_lease-All P k ls h.1)
  ]

  drop_queued-All :
      (P : Task C H → Type 0) (k : String) (ts : List (Task C H))
      → All P ts
      → All P (drop_queued k ts)
  unfolding drop_queued
  drop_queued-All P k [] h = tt
  drop_queued-All P k (t ∷ ts) h = elim (Bool-cases (str_eq t.id k)) [
    | inl here ↦ rw here h.1
    | inr other ↦ rw other (h.0, drop_queued-All P k ts h.1)
  ]

  extend_deadline-All :
      (k : String) (extra : ℕ) (ls : List (Lease C H))
      → All IsLeased ls
      → All IsLeased (extend_deadline k extra ls)
  unfolding extend_deadline
  extend_deadline-All k extra [] h = tt
  extend_deadline-All k extra (l ∷ ls) h = elim (Bool-cases (str_eq l.key k)) [
    | inl here ↦ rw here h
    | inr other ↦ rw other (h.0, extend_deadline-All k extra ls h.1)
  ]

  retire_or_requeue-IsOrderly :
      (t : Task C H) (q : InMemoryQueue C H)
      → HasBudget t
      → IsOrderly q
      → IsOrderly (retire_or_requeue t q).0
  unfolding retire_or_requeue
  retire_or_requeue-IsOrderly t q b o =
      let small : (t.attempts + 1) % 2 ^ 32 ≡ t.attempts + 1 = omega arith in
      elim (Bool-cases (leb t.max_attempts ((t.attempts + 1) % 2 ^ 32))) [
        | inl over ↦ rw over (record {
          waiting = o.waiting;
          running = o.running;
          exhausted = All-append IsExhausted q.failed _ o.exhausted ((refl, ground arith), tt);
          withdrawn = o.withdrawn;
          finished = o.finished;
        })
        | inr left ↦ rw left (record {
          waiting = All-append IsQueued q.queue _ o.waiting ((refl, (ground arith, b.1)), tt);
          running = o.running;
          exhausted = o.exhausted;
          withdrawn = o.withdrawn;
          finished = o.finished;
        })
      ]

  report_failure-IsOrderly :
      (k : String) (q : InMemoryQueue C H) → IsOrderly q → IsOrderly (report_failure k q).0
  unfolding report_failure
  report_failure-IsOrderly k q o = elim (Option-cases (find_lease k q.leased)) [
    | inl absent ↦ rw (absent, report_failure) o
    | inr (t, found) ↦
        rw (found, report_failure)
          (retire_or_requeue-IsOrderly t (record q { leased = drop_lease k q.leased })
            (find_lease-IsLeased k q.leased t o.running found)
            (record {
              waiting = o.waiting;
              running = drop_lease-All IsLeased k q.leased o.running;
              exhausted = o.exhausted;
              withdrawn = o.withdrawn;
              finished = o.finished;
            }))
  ]

  ack-IsOrderly : (k : String) (q : InMemoryQueue C H) → IsOrderly q → IsOrderly (ack k q)
  unfolding ack set_status
  ack-IsOrderly k q o = elim (Option-cases (find_lease k q.leased)) [
    | inl absent ↦ rw (absent, ack) o
    | inr (t, found) ↦
        rw (found, ack)
          (record {
            waiting = o.waiting;
            running = drop_lease-All IsLeased k q.leased o.running;
            exhausted = o.exhausted;
            withdrawn = o.withdrawn;
            finished = All-append IsDone q.done _ o.finished (refl, tt);
          })
  ]

  take_by_id-IsOrderly :
      (k : String) (q : InMemoryQueue C H) → IsOrderly q → IsOrderly (take_by_id k q).0
  unfolding take_by_id
  take_by_id-IsOrderly k q o = elim (Option-cases (find_queued k q.queue)) [
    | inr (t, found) ↦
        rw (found, take_by_id)
          (record {
            waiting = drop_queued-All IsQueued k q.queue o.waiting;
            running = o.running;
            exhausted = o.exhausted;
            withdrawn = o.withdrawn;
            finished = o.finished;
          })
    | inl absent ↦ elim (Option-cases (find_lease k q.leased)) [
      | inl nowhere ↦ rw (absent, nowhere, take_by_id) o
      | inr (t, found) ↦
          rw (absent, found, take_by_id)
            (record {
              waiting = o.waiting;
              running = drop_lease-All IsLeased k q.leased o.running;
              exhausted = o.exhausted;
              withdrawn = o.withdrawn;
              finished = o.finished;
            })
    ]
  ]

  cancel-IsOrderly : (k : String) (q : InMemoryQueue C H) → IsOrderly q → IsOrderly (cancel k q).0
  unfolding cancel set_status
  cancel-IsOrderly k q o =
      let o' = take_by_id-IsOrderly k q o in
      elim (Option-cases (take_by_id k q).1) [
        | inl absent ↦ rw (absent, cancel) o'
        | inr (t, found) ↦
            rw (found, cancel)
              (record {
                waiting = o'.waiting;
                running = o'.running;
                exhausted = o'.exhausted;
                withdrawn =
                    All-append IsCancelled (take_by_id k q).0.cancelled _ o'.withdrawn (refl, tt);
                finished = o'.finished;
              })
      ]

  extend_lease-IsOrderly :
      (k : String) (extra : ℕ) (q : InMemoryQueue C H)
      → IsOrderly q
      → IsOrderly (extend_lease k extra q).0
  unfolding extend_lease
  extend_lease-IsOrderly k extra q o = elim (Option-cases (find_lease k q.leased)) [
    | inl absent ↦ rw (absent, extend_lease) o
    | inr (t, found) ↦
        rw (found, extend_lease)
          (record {
            waiting = o.waiting;
            running = extend_deadline-All k extra q.leased o.running;
            exhausted = o.exhausted;
            withdrawn = o.withdrawn;
            finished = o.finished;
          })
  ]

  reclaim-IsOrderly :
      (ids : List String) (q : InMemoryQueue C H) → IsOrderly q → IsOrderly (reclaim ids q)
  unfolding reclaim
  reclaim-IsOrderly [] q o = o
  reclaim-IsOrderly (id ∷ ids) q o =
      reclaim-IsOrderly ids (report_failure id q).0 (report_failure-IsOrderly id q o)

  lease_front-IsOrderly :
      (now : ℕ) (q : InMemoryQueue C H) (ts : List (Task C H))
      → All IsQueued ts
      → IsOrderly q
      → IsOrderly (lease_front now q ts).0
  unfolding lease_front set_status insert_lease
  lease_front-IsOrderly now q [] w o = o
  lease_front-IsOrderly now q (t ∷ ts) w o = record {
    waiting = w.1;
    running = ((refl, w.0.1), drop_lease-All IsLeased t.id q.leased o.running);
    exhausted = o.exhausted;
    withdrawn = o.withdrawn;
    finished = o.finished;
  }

  Step-IsOrderly :
      (hash : C → Option H) (q q' : InMemoryQueue C H) → Step hash q q' → IsOrderly q → IsOrderly q'
  unfolding push pull reclaim_expired record_taken_task_failure
  Step-IsOrderly hash q q' (Step.pushed t b) o = record {
    waiting = All-append IsQueued q.queue _ o.waiting ((refl, b), tt);
    running = o.running;
    exhausted = o.exhausted;
    withdrawn = o.withdrawn;
    finished = o.finished;
  }
  Step-IsOrderly hash q q' (Step.acked id) o = ack-IsOrderly id q o
  Step-IsOrderly hash q q' (Step.failed id) o = report_failure-IsOrderly id q o
  Step-IsOrderly hash q q' (Step.extended id extra) o = extend_lease-IsOrderly id extra q o
  Step-IsOrderly hash q q' (Step.cancelled id) o = cancel-IsOrderly id q o
  Step-IsOrderly hash q q' (Step.taken id) o = take_by_id-IsOrderly id q o
  Step-IsOrderly hash q q' (Step.charged t b) o = retire_or_requeue-IsOrderly t q b o
  Step-IsOrderly hash q q' (Step.pulled now now') o =
      let q'' = reclaim (expired_ids now q.leased) q in
      let o' = reclaim-IsOrderly (expired_ids now q.leased) q o in
      lease_front-IsOrderly now' q'' q''.queue o'.waiting o'

  -- In every queue that the operations reach from an empty one, where tasks are pushed with attempts
  -- left, and a failure is charged against a taken task that has attempts left: a task that waits or is leased has that status and attempts left, a failed one has used
  -- exactly its maximum of attempts, and the cancelled and done lists hold tasks of that status.
  pub Reachable-IsOrderly :
      (hash : C → Option H) (q : InMemoryQueue C H) → Reachable hash q → IsOrderly q
  unfolding new
  Reachable-IsOrderly hash q (Reachable.fresh lease_timeout) = record {
    waiting = tt;
    running = tt;
    exhausted = tt;
    withdrawn = tt;
    finished = tt;
  }
  Reachable-IsOrderly hash q (Reachable.after {q = p} before step) =
      Step-IsOrderly hash p q step (Reachable-IsOrderly hash p before)
