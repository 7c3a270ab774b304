-- ===== src/Worker/Queue.antt =====
-- crates/ledger-worker/src/queue/mod.rs and memory.rs: tasks, and the in-memory queue with leases.
-- `C` is the type of run configurations and `H` that of hashes. Instants and durations are numbers.
-- A map from ids to leases is a list, whose order is the order in which the map is iterated. The
-- source reads the injected clock; here an operation takes what each reading returns.
pub mod Census
pub mod Budget
pub mod Expiry
use text.Mathlib.Text.{◌==◌ as str_eq}
use Prim.Native.String.{String}
use ldgr.Prelude.{
  ℕ, ◌+◌, ◌%◌, ◌^◌, Bool, true, false, Option, none, some, List, [], ◌∷◌, ◌++◌, ltb, leb, ◌==◌,
  if◌then◌else◌, length,
}

pub data TaskStatus : Type 0 where
  queued : TaskStatus
  leased : TaskStatus
  failed : TaskStatus
  cancelled : TaskStatus
  done : TaskStatus

unfoldable pub is_terminal : TaskStatus → Bool
is_terminal TaskStatus.queued = false
is_terminal TaskStatus.leased = false
is_terminal TaskStatus.failed = true
is_terminal TaskStatus.cancelled = true
is_terminal TaskStatus.done = true

pub record Task (C H : Type 0) : Type 0 where
  pub id : String
  pub run_config : C
  pub workload : String
  pub run_config_hash : Option H
  pub execution_identity : Option H
  pub attempts : ℕ
  pub max_attempts : ℕ
  pub status : TaskStatus

abbrev pub default_max_attempts : ℕ
default_max_attempts = 3

pub data AttemptOutcome : Type 0 where
  retried : ℕ → ℕ → AttemptOutcome
  exhausted : ℕ → AttemptOutcome

pub record Lease (C H : Type 0) : Type 0 where
  pub key : String
  pub task : Task C H
  pub deadline : ℕ

pub record InMemoryQueue (C H : Type 0) : Type 0 where
  pub queue : List (Task C H)
  pub lease_timeout : ℕ
  pub leased : List (Lease C H)
  pub failed : List (Task C H)
  pub cancelled : List (Task C H)
  pub done : List (Task C H)

module _ {C H : Type 0} where
  -- `Task::new`
  unfoldable pub new_task : String → C → String → Task C H
  new_task id run_config workload = record {
    id = id;
    run_config = run_config;
    workload = workload;
    run_config_hash = none;
    execution_identity = none;
    attempts = 0;
    max_attempts = default_max_attempts;
    status = TaskStatus.queued;
  }

  -- `InMemoryQueue::new`
  unfoldable pub new : ℕ → InMemoryQueue C H
  new lease_timeout = record {
    queue = [];
    lease_timeout = lease_timeout;
    leased = [];
    failed = [];
    cancelled = [];
    done = [];
  }

  -- The map operations on leases: `get`, `remove` and `insert`.
  unfoldable pub find_lease : String → List (Lease C H) → Option (Task C H)
  find_lease id [] = none
  find_lease id (l ∷ ls) = if str_eq l.key id then some l.task else find_lease id ls

  unfoldable pub drop_lease : String → List (Lease C H) → List (Lease C H)
  drop_lease id [] = []
  drop_lease id (l ∷ ls) = let rest = drop_lease id ls in if str_eq l.key id then ls else l ∷ rest

  unfoldable pub insert_lease : Task C H → ℕ → List (Lease C H) → List (Lease C H)
  insert_lease task deadline ls =
      record { key = task.id; task = task; deadline = deadline } ∷ drop_lease task.id ls

  unfoldable pub set_status : TaskStatus → Task C H → Task C H
  set_status s t = record t { status = s }

  -- `hash` is `run_config_hash(..).ok()` of crates/ledger-worker/src/proto.rs.
  unfoldable pub push : (C → Option H) → Task C H → InMemoryQueue C H → InMemoryQueue C H
  push hash task q =
      let task' = record task {
        run_config_hash = hash task.run_config;
        status = TaskStatus.queued;
      } in
      record q { queue = q.queue ++ task' ∷ [] }

  unfoldable pub ack : String → InMemoryQueue C H → InMemoryQueue C H
  ack task_id q = elim (find_lease task_id q.leased) [
    | none ↦ q
    | some task ↦ record q {
      leased = drop_lease task_id q.leased;
      done = q.done ++ set_status TaskStatus.done task ∷ [];
    }
  ]

  unfoldable pub retire_or_requeue :
      Task C H → InMemoryQueue C H → InMemoryQueue C H × AttemptOutcome
  retire_or_requeue task q =
      let attempts = (task.attempts + 1) % 2 ^ 32 in
      if leb task.max_attempts attempts
      then (
        record q {
          failed = q.failed ++ record task { attempts = attempts; status = TaskStatus.failed } ∷ [];
        },
        exhausted attempts,
      )
      else (
        record q {
          queue = q.queue ++ record task { attempts = attempts; status = TaskStatus.queued } ∷ [];
        },
        retried attempts task.max_attempts,
      )

  -- The source repeats the body of `retire_or_requeue` here.
  unfoldable pub record_taken_task_failure :
      Task C H → InMemoryQueue C H → InMemoryQueue C H × AttemptOutcome
  record_taken_task_failure task q = retire_or_requeue task q

  unfoldable pub report_failure :
      String → InMemoryQueue C H → InMemoryQueue C H × Option AttemptOutcome
  report_failure task_id q = elim (find_lease task_id q.leased) [
    | none ↦ (q, none)
    | some task ↦
        (let (q', outcome) =
            retire_or_requeue task (record q { leased = drop_lease task_id q.leased }) in
          (q', some outcome))
  ]

  unfoldable pub extend_deadline : String → ℕ → List (Lease C H) → List (Lease C H)
  extend_deadline id extra [] = []
  extend_deadline id extra (l ∷ ls) =
      let rest = extend_deadline id extra ls in
      if str_eq l.key id then record l { deadline = l.deadline + extra } ∷ ls else l ∷ rest

  unfoldable pub extend_lease : String → ℕ → InMemoryQueue C H → InMemoryQueue C H × Bool
  extend_lease task_id extra q = elim (find_lease task_id q.leased) [
    | none ↦ (q, false)
    | some task ↦ (record q { leased = extend_deadline task_id extra q.leased }, true)
  ]

  -- `position` and `remove` on the queue.
  unfoldable pub find_queued : String → List (Task C H) → Option (Task C H)
  find_queued id [] = none
  find_queued id (t ∷ ts) = if str_eq t.id id then some t else find_queued id ts

  unfoldable pub drop_queued : String → List (Task C H) → List (Task C H)
  drop_queued id [] = []
  drop_queued id (t ∷ ts) = let rest = drop_queued id ts in if str_eq t.id id then ts else t ∷ rest

  -- `take_by_id`, with the state that it leaves.
  unfoldable pub take_by_id : String → InMemoryQueue C H → InMemoryQueue C H × Option (Task C H)
  take_by_id task_id q = elim (find_queued task_id q.queue) [
    | some task ↦ (record q { queue = drop_queued task_id q.queue }, some task)
    | none ↦ elim (find_lease task_id q.leased) [
      | some task ↦ (record q { leased = drop_lease task_id q.leased }, some task)
      | none ↦ (q, none)
    ]
  ]

  -- The source repeats the two searches of `take_by_id` here.
  unfoldable pub cancel : String → InMemoryQueue C H → InMemoryQueue C H × Bool
  cancel task_id q =
      let (q', taken) = take_by_id task_id q in
      elim taken [
        | none ↦ (q', false)
        | some task ↦ (
          record q' { cancelled = q'.cancelled ++ set_status TaskStatus.cancelled task ∷ [] },
          true,
        )
      ]

  unfoldable pub expired_ids : ℕ → List (Lease C H) → List String
  expired_ids now [] = []
  expired_ids now (l ∷ ls) =
      let rest = expired_ids now ls in if leb l.deadline now then l.key ∷ rest else rest

  unfoldable pub reclaim : List String → InMemoryQueue C H → InMemoryQueue C H
  reclaim [] q = q
  reclaim (id ∷ ids) q = reclaim ids (report_failure id q).0

  unfoldable pub reclaim_expired : ℕ → InMemoryQueue C H → InMemoryQueue C H
  reclaim_expired now q = reclaim (expired_ids now q.leased) q

  -- `pop_front` and the new lease.
  unfoldable pub lease_front :
      ℕ → InMemoryQueue C H → List (Task C H) → InMemoryQueue C H × Option (Task C H)
  lease_front now q [] = (q, none)
  lease_front now q (t ∷ ts) =
      let task = set_status TaskStatus.leased t in
      (
        record q { queue = ts; leased = insert_lease task (now + q.lease_timeout) q.leased },
        some task,
      )

  -- The clock is read twice: `now` for the reclaim, and `now'` for the new deadline.
  unfoldable pub pull : ℕ → ℕ → InMemoryQueue C H → InMemoryQueue C H × Option (Task C H)
  pull now now' q = let q' = reclaim_expired now q in lease_front now' q' q'.queue

  unfoldable pub len : InMemoryQueue C H → ℕ
  len q = length q.queue

  unfoldable pub leased_len : InMemoryQueue C H → ℕ
  leased_len q = length q.leased
