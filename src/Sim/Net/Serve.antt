-- ===== src/Sim/Net/Serve.antt =====
-- A receive serves a message that is ready.
use mathlib.Core.Path.{subst}
use ldgr.Prelude.{
  ℕ, zero, suc, ◌+◌, ◌≤◌, ◌<◌, ◌≡◌, refl, ◌∙◌, ap, max, true, false, Option, none, some, List, [],
  ◌∷◌, ◌++◌, arith, leb, ◌==◌, if◌then◌else◌, length, get_or, All, Bool-cases, ◌⊎◌, inl, inr,
}
use ldgr.Sim.Net.{
  Message, SimNet, effective_reorder_window, is_ready, find_ready, has_ready_message, ready,
  at_index, remove_at, is_from, from_sender, newest, take_message, recv_with_window, recv_at,
}

-- An index at which a message is ready.
abbrev pub Ready : (task now : ℕ) → List Message → ℕ → Type 0
Ready task now queue i = (m : Message) × (at_index i queue ≡ some m) × (is_ready task now m ≡ true)

ready-All :
    (task now k : ℕ) (ms : List Message) (P : ℕ → Type 0)
    → ((j : ℕ) (m : Message) → at_index j ms ≡ some m → is_ready task now m ≡ true → P (k + j))
    → All P (ready task now k ms)
unfolding ready at_index
ready-All task now k [] P h = tt
ready-All task now k (m ∷ ms) P h =
    let rest = ready-All task now (suc k) ms P λ j n found is_ready'.
      subst P {x = k + suc j} {y = suc k + j} (omega arith) (h (suc j) n found is_ready') in
    elim (Bool-cases (is_ready task now m)) [
      | inl hit ↦ rw hit (subst P {x = k + 0} {y = k} (omega arith) (h 0 m refl hit), rest)
      | inr miss ↦ rw miss rest
    ]

-- The first ready message: the same by search and by the list of the indices.
pub first_ready :
    (task now k : ℕ) (ms : List Message)
    → ((find_ready task now ms ≡ none) × (ready task now k ms ≡ []))
      ⊎ ((j : ℕ) × (m : Message) × (rest : List ℕ) × (find_ready task now ms ≡ some m)
          × (ready task now k ms ≡ (k + j) ∷ rest)
          × (at_index j ms ≡ some m))
unfolding find_ready ready at_index
first_ready task now k [] = inl (refl, refl)
first_ready task now k (m ∷ ms) = elim (Bool-cases (is_ready task now m)) [
  | inl hit ↦ inr (
    0,
    m,
    ready task now (suc k) ms,
    rw hit refl,
    rw hit (ap (λ (i : ℕ). i ∷ ready task now (suc k) ms) (omega arith)),
    refl,
  )
  | inr miss ↦ elim (first_ready task now (suc k) ms) [
    | inl (a, b) ↦ inl (rw miss a, rw miss b)
    | inr (j, n, rest, a, b, c) ↦
        inr (suc j, n, rest, rw miss a, rw miss (b ∙ ap (λ (i : ℕ). i ∷ rest) (omega arith)), c)
  ]
]

pub from_sender-All :
    (sender : ℕ) (queue : List Message) (is : List ℕ) (P : ℕ → Type 0)
    → All P is
    → All P (from_sender sender queue is)
unfolding from_sender
from_sender-All sender queue [] P h = tt
from_sender-All sender queue (i ∷ is) P h =
    let rest = from_sender-All sender queue is P h.1 in
    elim (Bool-cases (is_from sender (at_index i queue))) [
      | inl hit ↦ rw hit (h.0, rest)
      | inr miss ↦ rw miss rest
    ]

-- The message at the head of the list is of its own sender.
pub from_sender-head :
    (queue : List Message) (m : Message) (i : ℕ) (is : List ℕ)
    → at_index i queue ≡ some m
    → from_sender m.from queue (i ∷ is) ≡ i ∷ from_sender m.from queue is
unfolding from_sender is_from
from_sender-head queue m i is found =
    let hit : (m.from == m.from) ≡ true = ground arith in rw (found, hit) refl

pub get_or-All :
    (P : ℕ → Type 0) (is : List ℕ) (i d : ℕ) → All P is → i < length is → P (get_or is i d)
get_or-All P [] i d h lt = absurd (omega arith)
get_or-All P (x ∷ is) zero d h lt = h.0
get_or-All P (x ∷ is) (suc i) d h lt = get_or-All P is i d h.1 (omega arith)

max-P : (P : ℕ → Type 0) (m n : ℕ) → P m → P n → P (max m n)
max-P P m n p q = elim (Bool-cases (leb m n)) [
  | inl hit ↦ subst P {x = n} {y = max m n} (ground arith) q
  | inr miss ↦ subst P {x = m} {y = max m n} (ground arith) p
]

newest-All :
    (P : ℕ → Type 0) (window i : ℕ) (is : List ℕ)
    → (window == 0) ≡ false
    → All P (i ∷ is)
    → P (newest window (i ∷ is))
unfolding newest
newest-All P window i is some_window h =
    let positive : 0 < window = ground (arith, some_window) in
    max-P P _ _ (get_or-All P (i ∷ is) _ 0 h (omega arith))
      (get_or-All P (i ∷ is) _ 0 h (omega arith))

-- The served index is one of the ready ones.
served-Ready :
    (task now window : ℕ) (queue : List Message) (m : Message) (first : ℕ) (rest : List ℕ)
    → at_index first queue ≡ some m
    → All (Ready task now queue) (first ∷ rest)
    → Ready task now queue
        (if window == 0 then first else newest window (from_sender m.from queue (first ∷ rest)))
served-Ready task now window queue m first rest found h = elim (Bool-cases (window == 0)) [
  | inl hit ↦ rw hit h.0
  | inr miss ↦
      rw (miss, from_sender-head queue m first rest found)
        (newest-All (Ready task now queue) window first (from_sender m.from queue rest) miss
          (h.0, from_sender-All m.from queue rest (Ready task now queue) h.1))
]

some_eq : (m n : Message) → some m ≡ some n → m ≡ n
some_eq m n e = cc

at_index-split :
    (i : ℕ) (queue : List Message) (m : Message)
    → at_index i queue ≡ some m
    → (front : List Message) × (back : List Message) × (queue ≡ front ++ m ∷ back)
      × (remove_at i queue ≡ front ++ back)
unfolding at_index remove_at
at_index-split i [] m h = cc
at_index-split zero (n ∷ ms) m h = ([], ms, ap (λ (x : Message). x ∷ ms) (some_eq n m h), refl)
at_index-split (suc i) (n ∷ ms) m h =
    let (front, back, a, b) = at_index-split i ms m h in
    (n ∷ front, back, ap (λ t. n ∷ t) a, ap (λ t. n ∷ t) b)

-- What a receive by an index does.
abbrev pub Serves : (task now : ℕ) → SimNet → Option Message × SimNet → Type 0
Serves task now net r =
    (m : Message) × (front : List Message) × (back : List Message) × (r
      ≡ (some m, record net { queue = front ++ back }))
    × (net.queue ≡ front ++ m ∷ back)
    × (is_ready task now m ≡ true)

take_message-Serves :
    (task now i : ℕ) (net : SimNet)
    → Ready task now net.queue i
    → Serves task now net (take_message i net)
unfolding take_message
take_message-Serves task now i net (m, found, is_ready') =
    let (front, back, a, b) = at_index-split i net.queue m found in
    (
      m,
      front,
      back,
      ap (λ (o : Option Message). (o, record net { queue = remove_at i net.queue })) found
          ∙ ap (λ (q : List Message). (some m, record net { queue = q })) b,
      a,
      is_ready',
    )

recv_with_window-first :
    (task now window : ℕ) (net : SimNet) (m : Message) (first : ℕ) (rest : List ℕ)
    → ready task now 0 net.queue ≡ first ∷ rest
    → at_index first net.queue ≡ some m
    → recv_with_window task now window net
      ≡ take_message
          (if window == 0
            then first
            else newest window (from_sender m.from net.queue (first ∷ rest)))
          net
unfolding recv_with_window
recv_with_window-first task now window net m first rest e found =
    rw (recv_with_window, e, found) refl

pub recv_at-none :
    (task now : ℕ) (net : SimNet)
    → find_ready task now net.queue ≡ none
    → recv_at task now net ≡ (none, net)
unfolding recv_at
recv_at-none task now net e = rw (recv_at, e) refl

pub recv_at-found :
    (task now : ℕ) (net : SimNet) (m : Message) (first : ℕ) (rest : List ℕ)
    → find_ready task now net.queue ≡ some m
    → ready task now 0 net.queue ≡ first ∷ rest
    → at_index first net.queue ≡ some m
    → recv_at task now net
      ≡ take_message
          (if effective_reorder_window m.from task net == 0
            then first
            else newest
                (effective_reorder_window m.from task net)
                (from_sender m.from net.queue (first ∷ rest)))
          net
unfolding recv_at
recv_at-found task now net m first rest f e found =
    rw (recv_at, f)
      (recv_with_window-first task now (effective_reorder_window m.from task net) net m first rest e
        found)

has_ready-none :
    (task now : ℕ) (net : SimNet)
    → find_ready task now net.queue ≡ none
    → has_ready_message task now net ≡ false
unfolding has_ready_message
has_ready-none task now net e = rw (has_ready_message, e) refl

-- What a receive that serves `r` promises: a message that is addressed to the task, whose time has come,
-- and that the queue loses alone.
abbrev pub Served : (task now : ℕ) → SimNet → Option Message × SimNet → Type 0
Served task now net r =
    (m : Message) × (front : List Message) × (back : List Message) × (r
      ≡ (some m, record net { queue = front ++ back }))
    × (net.queue ≡ front ++ m ∷ back)
    × (m.to ≡ task)
    × (m.deliver_at ≤ now)

pub take_message-Served :
    (task now i : ℕ) (net : SimNet) (r : Option Message × SimNet)
    → r ≡ take_message i net
    → Ready task now net.queue i
    → Served task now net r
take_message-Served task now i net r e h =
    let (served, front, back, a, b, hit) = take_message-Serves task now i net h in
    (served, front, back, e ∙ a, b, ground (arith, hit), ground (arith, hit))

-- Where a message is ready, the indices of the ready ones are not empty.
pub ready_cases :
    (task now : ℕ) (net : SimNet)
    → has_ready_message task now net ≡ true
    → (j : ℕ) × (m : Message) × (rest : List ℕ) × (find_ready task now net.queue ≡ some m)
      × (ready task now 0 net.queue ≡ j ∷ rest)
      × (at_index j net.queue ≡ some m)
      × All (Ready task now net.queue) (j ∷ rest)
ready_cases task now net h = elim (first_ready task now 0 net.queue) [
  | inl (none_found, _) ↦ let none_ready = has_ready-none task now net none_found in cc
  | inr (j, m, rest, f, e, found) ↦
      let e' = e ∙ ap (λ (i : ℕ). i ∷ rest) {x = 0 + j} {y = j} (omega arith) in
      let all = subst (All (Ready task now net.queue)) e' (
        ready-All task now 0 net.queue (Ready task now net.queue) λ i n at' hit.
          subst (Ready task now net.queue) {x = i} {y = 0 + i} (omega arith) (n, at', hit)) in
      (j, m, rest, f, e', found, all)
]

pub recv_at-Served :
    (task now : ℕ) (net : SimNet)
    → has_ready_message task now net ≡ true
    → Served task now net (recv_at task now net)
recv_at-Served task now net h =
    let (j, m, rest, f, e, found, all) = ready_cases task now net h in
    take_message-Served task now _ net _ (recv_at-found task now net m j rest f e found) (
      served-Ready task now (effective_reorder_window m.from task net) net.queue m j rest found all)
