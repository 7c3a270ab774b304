-- ===== src/Sim/Time/Order.antt =====
-- The timers of the queue stay in order, and none is overdue.
use ldgr.Prelude.{ℕ, ◌+◌, ◌-◌, ◌%◌, ◌≤◌, ◌<◌, ◌≡◌, ◌^◌, refl, Option, List, [], ◌∷◌, arith, min}
use ldgr.Sim.Time.{
  Timer, VirtualTime, before, push, set_with_enabler, pop_at, pop_until, advance_with_enablers,
}

module _ {E : Type 0} where
  -- The deadlines ascend from `low` on, and are 64-bit numbers.
  abbrev pub Ascends : ℕ → List (Timer E) → Type 0
  Ascends low [] = Unit
  Ascends low (t ∷ ts) = (low ≤ t.deadline) × (t.deadline < 2 ^ 64) × Ascends t.deadline ts

  -- No pending timer is overdue, and the clock is a 64-bit number.
  abbrev pub IsPending : VirtualTime E → Type 0
  IsPending v = Ascends v.now v.timers × (v.now < 2 ^ 64)

  Ascends-push :
      (low : ℕ) (t : Timer E) (ts : List (Timer E))
      → low ≤ t.deadline
      → t.deadline < 2 ^ 64
      → Ascends low ts
      → Ascends low (push t ts)
  unfolding push before
  Ascends-push low t [] h w a = (h, w, tt)
  Ascends-push low t (u ∷ us) h w a =
      ground (arith, h, w, a.0, a.1, a.2, Ascends-push u.deadline t us)

  pop_until_rest :
      (low now : ℕ) (ts : List (Timer E)) → Ascends low ts → Ascends now (pop_until now ts).1
  unfolding pop_until
  pop_until_rest low now [] a = tt
  pop_until_rest low now (t ∷ ts) a =
      ground (arith, a.0, a.1, a.2, pop_until_rest t.deadline now ts a.2)

  pop_at_rest :
      (low now : ℕ) (ts : List (Timer E))
      → now ≤ low
      → Ascends low ts
      → Ascends now (pop_at now ts).1
  unfolding pop_at
  pop_at_rest low now [] h a = tt
  pop_at_rest low now (t ∷ ts) h a =
      ground (arith, a.0, a.1, a.2, pop_at_rest t.deadline now ts (omega (arith, a.0)) a.2)

  -- Where the pending timers are in order and none is overdue, this still holds after a timer is set,
  -- which leaves the clock.
  set_with_enabler-IsPending :
      (delay task : ℕ) (enabler : Option E) (v : VirtualTime E)
      → IsPending v
      → IsPending (set_with_enabler delay task enabler v)
        × ((set_with_enabler delay task enabler v).now ≡ v.now)
  unfolding set_with_enabler
  set_with_enabler-IsPending delay task enabler v p =
      let timer : Timer E = record {
        deadline = min (v.now + delay) (2 ^ 64 - 1);
        sequence = (v.sequence + 1) % 2 ^ 64;
        task = task;
        enabler = enabler;
      } in
      ((Ascends-push v.now timer v.timers (omega arith) (omega arith) p.0, p.1), refl)

  advance_timers :
      (v : VirtualTime E) (ts : List (Timer E))
      → v.timers ≡ ts
      → IsPending v
      → IsPending (advance_with_enablers v).0 × (v.now ≤ (advance_with_enablers v).0.now)
  unfolding advance_with_enablers
  advance_timers v [] e p = rw (e, advance_with_enablers) (p, omega arith)
  advance_timers v (t ∷ ts) e p =
      let a = rw e at p.0 in
      rw (e, advance_with_enablers)
        (
          (pop_at_rest t.deadline t.deadline (t ∷ ts) (omega arith) (omega arith, a.1, a.2), a.1),
          a.0,
        )

  -- Where the pending timers are in order and none is overdue, this still holds after advancing to the
  -- next deadline, which does not move the clock backward.
  advance_with_enablers-IsPending :
      (v : VirtualTime E)
      → IsPending v
      → IsPending (advance_with_enablers v).0 × (v.now ≤ (advance_with_enablers v).0.now)
  advance_with_enablers-IsPending v p = advance_timers v v.timers refl p

  -- Where the pending timers are in order and none is overdue, this still holds after a timer is set,
  -- which leaves the clock, and after advancing to the next deadline, which does not move it backward.
  pub IsPending-kept :
      (delay task : ℕ) (enabler : Option E) (v : VirtualTime E)
      → IsPending v
      → (IsPending (set_with_enabler delay task enabler v)
          × ((set_with_enabler delay task enabler v).now ≡ v.now))
        × (IsPending (advance_with_enablers v).0 × (v.now ≤ (advance_with_enablers v).0.now))
  IsPending-kept delay task enabler v p =
      (set_with_enabler-IsPending delay task enabler v p, advance_with_enablers-IsPending v p)
