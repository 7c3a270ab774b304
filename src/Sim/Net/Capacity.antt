-- ===== src/Sim/Net/Capacity.antt =====
-- The queue of a bounded link stays within its capacity.
use mathlib.Core.Path.{subst}
use ldgr.Prelude.{
  ℕ, zero, suc, ◌+◌, ◌≤◌, ◌≡◌, refl, sym, ◌∙◌, ap, Bool, true, Option, none, some, List, [], ◌∷◌,
  ◌++◌, arith, leb, if◌then◌else◌, Bool-cases, Option-cases, inl, inr, Result, ok, err, ◌>>=◌, Post,
  Post-if,
}
use ldgr.Sim.Net.{
  Message, NetError, queue_full, SimNet, same_link, link_config, queued_in, queued_for,
  check_capacity, is_partitioned, push_message, try_send, or_false, remove_at, take_message,
  recv_at, recv_with_window, ready, at_index,
}
use ldgr.Sim.Net.Serve.{first_ready, recv_at-none, recv_at-found}

-- Within the capacity, if there is one.
abbrev pub Below : Option ℕ → ℕ → Type 0
Below none n = Unit
Below (some cap) n = n ≤ cap

abbrev pub Within : (from to : ℕ) → SimNet → Type 0
Within from to net = Below (link_config from to net).capacity (queued_for from to net)

queued_in-append :
    (from to : ℕ) (ms : List Message) (m : Message)
    → queued_in from to (ms ++ m ∷ [])
      ≡ queued_in from to ms + (if same_link (m.from, m.to) (from, to) then 1 else 0)
unfolding queued_in
queued_in-append from to [] m = ground arith
queued_in-append from to (n ∷ ms) m = ground (arith, queued_in-append from to ms m)

queued_in-remove_at :
    (from to i : ℕ) (ms : List Message) → queued_in from to (remove_at i ms) ≤ queued_in from to ms
unfolding queued_in remove_at
queued_in-remove_at from to i [] = omega arith
queued_in-remove_at from to zero (m ∷ ms) = ground arith
queued_in-remove_at from to (suc i) (m ∷ ms) = ground (arith, queued_in-remove_at from to i ms)

Below-weaken : (o : Option ℕ) (m n : ℕ) → m ≤ n → Below o n → Below o m
Below-weaken none m n le h = tt
Below-weaken (some cap) m n le h = omega (arith, le, h)

pub take_message-Within :
    (from to i : ℕ) (net : SimNet) → Within from to net → Within from to (take_message i net).1
unfolding take_message queued_for link_config
take_message-Within from to i net h =
    Below-weaken (link_config from to net).capacity _ _ (queued_in-remove_at from to i net.queue) h

-- A test on a list or an option, of which all cases have a property.
pub List-cases-P :
    {A B : Type 0} (P : B → Type 0) (xs : List A) (b : B) (c : A → List A → B)
    → P b
    → ((x : A) (ys : List A) → P (c x ys))
    → P (elim xs [ [] ↦ b | x ∷ ys ↦ c x ys ])
List-cases-P P [] b c h k = h
List-cases-P P (x ∷ xs) b c h k = k x xs

pub Option-cases-P :
    {A B : Type 0} (P : B → Type 0) (o : Option A) (b : B) (c : A → B)
    → P b
    → ((x : A) → P (c x))
    → P (elim o [ none ↦ b | some x ↦ c x ])
Option-cases-P P none b c h k = h
Option-cases-P P (some x) b c h k = k x

-- What runs only where a check has passed.
pub Post-checked {ℓ} :
    {E A : Type 0} (P : A → Type ℓ) (c : Result E (Unit {0})) (r : Result E A)
    → (c ≡ ok tt → Post r P)
    → Post (do u ← c; r) P
Post-checked P (ok tt) r k = k refl
Post-checked P (err why) r k = tt

pub recv_at-Within :
    (from to task now : ℕ) (net : SimNet)
    → Within from to net
    → Within from to (recv_at task now net).1
recv_at-Within from to task now net h = elim (first_ready task now 0 net.queue) [
  | inl (none_found, none_ready) ↦
      subst (λ (r : Option Message × SimNet). Within from to r.1)
        (sym (recv_at-none task now net none_found)) h
  | inr (j, m, rest, f, e, found) ↦
      let e' = e ∙ ap (λ (i : ℕ). i ∷ rest) {x = 0 + j} {y = j} (omega arith) in
      subst (λ (r : Option Message × SimNet). Within from to r.1)
        (sym (recv_at-found task now net m j rest f e' found)) (take_message-Within from to _ net h)
]

pub or_false-P :
    (P : SimNet → Type 0) (net : SimNet) (r : Result NetError (Bool × SimNet))
    → P net
    → Post r (λ q. P q.1)
    → P (or_false net r).1
unfolding or_false
or_false-P P net (ok q) h k = k
or_false-P P net (err why) h k = h

check-case :
    (from to cap n : ℕ)
    → ◌≡◌ {A = Result NetError (Unit {0})}
        (if leb cap n then err (queue_full from to cap n) else ok tt)
        (ok tt)
    → n + 1 ≤ cap
check-case from to cap n h = elim (Bool-cases (leb cap n)) [
  | inl full ↦ let h' = rw full at h in cc
  | inr room ↦ ground (arith, room)
]

check-Below :
    (from to : ℕ) (net : SimNet)
    → check_capacity from to net ≡ ok tt
    → Below (link_config from to net).capacity (queued_for from to net + 1)
unfolding check_capacity
check-Below from to net h = elim (Option-cases (link_config from to net).capacity) [
  | inl unbounded ↦ rw unbounded tt
  | inr (cap, bounded) ↦ rw bounded (
      check-case from to cap (queued_for from to net) (
        subst
          (λ o.
            elim o [
              | none ↦ ok tt
              | some c ↦
                  if leb c (queued_for from to net)
                  then err (queue_full from to c (queued_for from to net))
                  else ok tt
            ]
            ≡ ok tt)
          bounded h))
]

same_link-eq : (a b c d : ℕ) → same_link (a, b) (c, d) ≡ true → (a ≡ c) × (b ≡ d)
unfolding same_link
same_link-eq a b c d h = ground (arith, h)

pub push_message-Within :
    (from to : ℕ) (m : Message) (net : SimNet)
    → Within from to net
    → check_capacity m.from m.to net ≡ ok tt
    → Within from to (push_message m net)
unfolding push_message queued_for link_config
push_message-Within from to m net h room = elim (Bool-cases (same_link (m.from, m.to) (from, to))) [
  | inl hit ↦
      let (a, b) = same_link-eq m.from m.to from to hit in
      let room' : check_capacity from to net ≡ ok tt =
        subst (λ (i : ℕ). check_capacity i to net ≡ ok tt) a
          (subst (λ (j : ℕ). check_capacity m.from j net ≡ ok tt) b room) in
      subst (Below (link_config from to net).capacity)
        (sym (rw hit at (queued_in-append from to net.queue m))) (check-Below from to net room')
  | inr miss ↦
      Below-weaken (link_config from to net).capacity _ _
        (omega (arith, rw miss at (queued_in-append from to net.queue m))) h
]

pub try_send-Within :
    (from to : ℕ) (m : Message) (net : SimNet)
    → Within from to net
    → Post (try_send m net) (λ r. Within from to r.1)
unfolding try_send
try_send-Within from to m net h =
    Post-if _ (is_partitioned m.from m.to net) _ _ (λ cut. h)
      λ open'.
        Post-checked _ (check_capacity m.from m.to net) _ (push_message-Within from to m net h)

pub recv_with_window-Within :
    (from to task now window : ℕ) (net : SimNet)
    → Within from to net
    → Within from to (recv_with_window task now window net).1
unfolding recv_with_window
recv_with_window-Within from to task now window net h =
    List-cases-P (λ (r : Option Message × SimNet). Within from to r.1) (ready task now 0 net.queue)
      _ _ h
      λ first rest.
        Option-cases-P (λ (r : Option Message × SimNet). Within from to r.1)
          (at_index first net.queue) _ _ h λ m. take_message-Within from to _ net h
