-- ===== src/Worker/Queue/Census.antt =====
-- No operation of the queue loses or doubles a task.
use text.Mathlib.Text.{◌==◌ as str_eq}
use text.Mathlib.TextEquality.{eq_iff}
use Prim.Native.String.{String}
use ldgr.Prelude.{
  ℕ, ◌+◌, ◌%◌, ◌^◌, ◌≤◌, ◌≡◌, none, some, refl, ap, ◌∙◌, inl, inr, Option-cases, List, [], ◌∷◌,
  ◌++◌, arith, if◌then◌else◌,
}
use ldgr.Worker.Queue.{
  TaskStatus, Task, Lease, InMemoryQueue, find_lease, drop_lease, insert_lease, set_status, ack,
  retire_or_requeue, report_failure, find_queued, drop_queued, take_by_id, cancel, expired_ids,
  reclaim, reclaim_expired, lease_front, pull,
}

abbrev pub hit : String → String → ℕ
hit k id = if str_eq k id then 1 else 0

module _ {C H : Type 0} where
  -- How many tasks of an id a list holds, and how many leases stand under it.
  abbrev pub census : String → List (Task C H) → ℕ
  census id [] = 0
  census id (t ∷ ts) = (if str_eq t.id id then 1 else 0) + census id ts

  abbrev pub leases : String → List (Lease C H) → ℕ
  leases id [] = 0
  leases id (l ∷ ls) = (if str_eq l.task.id id then 1 else 0) + leases id ls

  -- How many tasks of an id wait or run, and how many there are in all.
  abbrev pub live : String → InMemoryQueue C H → ℕ
  live id q = census id q.queue + leases id q.leased

  abbrev pub population : String → InMemoryQueue C H → ℕ
  population id q = live id q + census id q.failed + census id q.cancelled + census id q.done

  -- A lease stands under the id of its task.
  abbrev pub Keyed : List (Lease C H) → Type 0
  Keyed [] = Unit
  Keyed (l ∷ ls) = (l.key ≡ l.task.id) × Keyed ls

  pub census-append :
      (id : String) (ts us : List (Task C H)) → census id (ts ++ us) ≡ census id ts + census id us
  census-append id [] us = omega arith
  census-append id (t ∷ ts) us = omega (arith, census-append id ts us)

  -- A lease that is taken out is one less of its id, and none of another.
  leases-drop_lease :
      (k id : String) (ls : List (Lease C H)) (t : Task C H)
      → Keyed ls
      → find_lease k ls ≡ some t
      → (leases id ls ≡ (if str_eq k id then 1 else 0) + leases id (drop_lease k ls))
        × (t.id ≡ k)
        × Keyed (drop_lease k ls)
  unfolding find_lease drop_lease
  leases-drop_lease k id [] t h e = cc
  leases-drop_lease k id (l ∷ ls) t h e =
      ground
        (arith, leases-drop_lease k id ls t h.1, eq_iff l.key k, eq_iff l.task.id id, eq_iff k id)

  census-drop_queued :
      (k id : String) (ts : List (Task C H)) (t : Task C H)
      → find_queued k ts ≡ some t
      → (census id ts ≡ (if str_eq k id then 1 else 0) + census id (drop_queued k ts)) × (t.id ≡ k)
  unfolding find_queued drop_queued
  census-drop_queued k id [] t e = cc
  census-drop_queued k id (u ∷ us) t e =
      ground (arith, census-drop_queued k id us t, eq_iff u.id k, eq_iff u.id id, eq_iff k id)

  -- A task that fails moves to the end of the queue or of the failed list.
  population-retire_or_requeue :
      (t : Task C H) (q : InMemoryQueue C H) (id : String)
      → (population id (retire_or_requeue t q).0
          ≡ (if str_eq t.id id then 1 else 0) + population id q)
        × ((retire_or_requeue t q).0.leased ≡ q.leased)
        × (live id (retire_or_requeue t q).0 ≤ (if str_eq t.id id then 1 else 0) + live id q)
  unfolding retire_or_requeue
  population-retire_or_requeue t q id =
      let attempts = (t.attempts + 1) % 2 ^ 32 in
      ground (
        arith,
        census-append id q.failed
            (record t { attempts = attempts; status = TaskStatus.failed } ∷ []),
        census-append id q.queue
            (record t { attempts = attempts; status = TaskStatus.queued } ∷ []),
      )

-- Leases stand under the ids of their tasks, and no id is live twice.
pub record IsSound {C H : Type 0} (q : InMemoryQueue C H) : Type 0 where
  pub keyed : Keyed q.leased
  pub unique : (id : String) → live id q ≤ 1

module _ {C H : Type 0} where
  report_failure-census :
      (k id : String) (q : InMemoryQueue C H)
      → Keyed q.leased
      → (population id (report_failure k q).0 ≡ population id q)
        × (live id (report_failure k q).0 ≤ live id q)
        × Keyed (report_failure k q).0.leased
  unfolding report_failure
  report_failure-census k id q h = elim (Option-cases (find_lease k q.leased)) [
    | inl e ↦ rw (e, report_failure) (refl, omega arith, h)
    | inr (t, e) ↦
        let (one, same, keyed) = leases-drop_lease k id q.leased t h e in
        let q' = record q { leased = drop_lease k q.leased } in
        let (moved, kept, lively) = population-retire_or_requeue t q' id in
        let at_key = ap (λ (x : String). hit x id) same in
        rw (e, report_failure) (omega arith, omega arith, rw kept keyed)
  ]

  pub report_failure-IsSound :
      (k : String) (q : InMemoryQueue C H) → IsSound q → IsSound (report_failure k q).0
  report_failure-IsSound k q s = record {
    keyed = (report_failure-census k k q s.keyed).2;
    unique = λ id. omega (arith, report_failure-census k id q s.keyed, s.unique id);
  }

  pub reclaim-census :
      (ids : List String) (q : InMemoryQueue C H)
      → IsSound q
      → ((id : String) → population id (reclaim ids q) ≡ population id q) × IsSound (reclaim ids q)
  unfolding reclaim
  reclaim-census [] q s = (λ id. refl, s)
  reclaim-census (k ∷ ks) q s =
      let (same, sound) = reclaim-census ks (report_failure k q).0 (report_failure-IsSound k q s) in
      (λ id. same id ∙ (report_failure-census k id q s.keyed).0, sound)

  drop_lease-absent :
      (k : String) (ls : List (Lease C H)) → Keyed ls → leases k ls ≡ 0 → drop_lease k ls ≡ ls
  unfolding drop_lease
  drop_lease-absent k [] h e = refl
  drop_lease-absent k (l ∷ ls) h e =
      ground (arith, drop_lease-absent k ls h.1, eq_iff l.key k, eq_iff l.task.id k)

  lease_front-census :
      (now : ℕ) (q : InMemoryQueue C H) (ts : List (Task C H)) (id : String)
      → q.queue ≡ ts
      → IsSound q
      → (population id (lease_front now q ts).0 ≡ population id q)
        × (live id (lease_front now q ts).0 ≡ live id q)
        × Keyed (lease_front now q ts).0.leased
  unfolding lease_front insert_lease set_status
  lease_front-census now q [] id e s = (refl, refl, s.keyed)
  lease_front-census now q (t ∷ ts) id e s =
      let here = ap (census t.id) e in
      let self = (eq_iff t.id t.id).1 refl in
      let absent : leases t.id q.leased ≡ 0 = ground (arith, s.unique t.id, here, self) in
      let there = ap (census id) e in
      rw (drop_lease-absent t.id q.leased s.keyed absent)
        (omega arith, omega arith, (refl, s.keyed))

  -- On a sound queue, handing out a task, with the reclaim of expired leases before it, keeps the
  -- number of tasks of each id over all the queue's lists, and keeps the queue sound.
  pub population-pull :
      (now now' : ℕ) (q : InMemoryQueue C H)
      → IsSound q
      → ((id : String) → population id (pull now now' q).0 ≡ population id q)
        × IsSound (pull now now' q).0
  unfolding pull reclaim_expired
  population-pull now now' q s =
      let ids = expired_ids now q.leased in
      let q' = reclaim ids q in
      let (same, sound) = reclaim-census ids q s in
      let front = λ (id : String). lease_front-census now' q' q'.queue id refl sound in
      (
        λ id. (front id).0 ∙ same id,
        record { keyed = (front "").2; unique = λ id. omega (arith, front id, sound.unique id) },
      )

  -- On a sound queue, reporting the failure of a task keeps the number of tasks of each id over
  -- all the queue's lists, and keeps the queue sound.
  population-report_failure :
      (k : String) (q : InMemoryQueue C H)
      → IsSound q
      → ((id : String) → population id (report_failure k q).0 ≡ population id q)
        × IsSound (report_failure k q).0
  population-report_failure k q s =
      (λ id. (report_failure-census k id q s.keyed).0, report_failure-IsSound k q s)

  -- A task that is taken out of the queue or of its lease is one less of its id, and the rest stays.
  take_by_id-census :
      (k id : String) (q : InMemoryQueue C H)
      → IsSound q
      → (live id q
          ≡ elim (take_by_id k q).1 [ none ↦ 0 | some t ↦ if str_eq t.id id then 1 else 0 ]
            + live id (take_by_id k q).0)
        × Keyed (take_by_id k q).0.leased
        × ((take_by_id k q).0.failed ≡ q.failed)
        × ((take_by_id k q).0.cancelled ≡ q.cancelled)
        × ((take_by_id k q).0.done ≡ q.done)
  unfolding take_by_id
  take_by_id-census k id q s = elim (Option-cases (find_queued k q.queue)) [
    | inr (t, e) ↦
        let (one, same) = census-drop_queued k id q.queue t e in
        let at_key = ap (λ (x : String). hit x id) same in
        rw (e, take_by_id) (omega arith, s.keyed, refl, refl, refl)
    | inl e ↦ elim (Option-cases (find_lease k q.leased)) [
      | inl f ↦ rw (e, f, take_by_id) (omega arith, s.keyed, refl, refl, refl)
      | inr (t, f) ↦
          let (one, same, keyed) = leases-drop_lease k id q.leased t s.keyed f in
          let at_key = ap (λ (x : String). hit x id) same in
          rw (e, f, take_by_id) (omega arith, keyed, refl, refl, refl)
    ]
  ]

  cancel-census :
      (k id : String) (q : InMemoryQueue C H)
      → IsSound q
      → (population id (cancel k q).0 ≡ population id q)
        × (live id (cancel k q).0 ≤ live id q)
        × Keyed (cancel k q).0.leased
  unfolding cancel set_status
  cancel-census k id q s =
      let (alive, keyed, f, c, d) = take_by_id-census k id q s in
      let cf = ap (census id) f in
      let cc' = ap (census id) c in
      let cd = ap (census id) d in
      elim (Option-cases (take_by_id k q).1) [
        | inl e ↦ let alive' = rw e at alive in rw (e, cancel) (omega arith, omega arith, keyed)
        | inr (t, e) ↦
            let alive' = rw e at alive in
            let more =
              census-append id (take_by_id k q).0.cancelled
                (set_status TaskStatus.cancelled t ∷ []) in
            rw (e, cancel) (omega arith, omega arith, keyed)
      ]

  ack-census :
      (k id : String) (q : InMemoryQueue C H)
      → IsSound q
      → (population id (ack k q) ≡ population id q)
        × (live id (ack k q) ≤ live id q)
        × Keyed (ack k q).leased
  unfolding ack set_status
  ack-census k id q s = elim (Option-cases (find_lease k q.leased)) [
    | inl e ↦ rw (e, ack) (refl, omega arith, s.keyed)
    | inr (t, e) ↦
        let (one, same, keyed) = leases-drop_lease k id q.leased t s.keyed e in
        let at_key = ap (λ (x : String). hit x id) same in
        let more = census-append id q.done (set_status TaskStatus.done t ∷ []) in
        rw (e, ack) (omega arith, omega arith, keyed)
  ]

  -- On a sound queue, cancelling a task keeps the number of tasks of each id over all the queue's
  -- lists, and keeps the queue sound.
  population-cancel :
      (k : String) (q : InMemoryQueue C H)
      → IsSound q
      → ((id : String) → population id (cancel k q).0 ≡ population id q) × IsSound (cancel k q).0
  population-cancel k q s = (
    λ id. (cancel-census k id q s).0,
    record {
      keyed = (cancel-census k k q s).2;
      unique = λ id. omega (arith, cancel-census k id q s, s.unique id);
    },
  )

  -- On a sound queue, acknowledging a task keeps the number of tasks of each id over all the
  -- queue's lists, and keeps the queue sound.
  population-ack :
      (k : String) (q : InMemoryQueue C H)
      → IsSound q
      → ((id : String) → population id (ack k q) ≡ population id q) × IsSound (ack k q)
  population-ack k q s = (
    λ id. (ack-census k id q s).0,
    record {
      keyed = (ack-census k k q s).2;
      unique = λ id. omega (arith, ack-census k id q s, s.unique id);
    },
  )

  -- On a sound queue, reporting the failure of a task, cancelling it and acknowledging it each keep the
  -- number of tasks of each id over all the queue's lists, and keep the queue sound.
  pub population_kept :
      (k : String) (q : InMemoryQueue C H)
      → IsSound q
      → (((id : String) → population id (report_failure k q).0 ≡ population id q)
          × IsSound (report_failure k q).0)
        × (((id : String) → population id (cancel k q).0 ≡ population id q)
            × IsSound (cancel k q).0)
        × (((id : String) → population id (ack k q) ≡ population id q) × IsSound (ack k q))
  population_kept k q s =
      (population-report_failure k q s, population-cancel k q s, population-ack k q s)
