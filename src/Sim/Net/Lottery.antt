-- ===== src/Sim/Net/Lottery.antt =====
-- A receive by draws serves a message that is ready, whatever is drawn.
use mathlib.Core.Path.{subst}
use native.Mathlib.Nat.{mod-lt}
use ldgr.Prelude.{
  ℕ, ◌-◌, ◌%◌, ◌<◌, ◌≡◌, refl, sym, true, false, Option, some, List, ◌∷◌, arith, ◌==◌, length, All,
  Bool-cases, inl, inr,
}
use ldgr.Sim.Net.{
  Message, SimNet, effective_reorder_window, has_ready_message, ready, at_index, from_sender,
  recv_at,
}
use ldgr.Sim.Net.Drawn.{draw_index, recv_drawn_with_window, recv_drawn_validated, recv_at_drawn}
use ldgr.Sim.Net.Serve.{
  Ready, Served, ready_cases, take_message-Served, get_or-All, from_sender-All, from_sender-head,
  recv_at-Served,
}

module _ {S : Type 0} (draw : ℕ → S → ℕ × S) where
  draw_index-All :
      (P : ℕ → Type 0) (window i : ℕ) (is : List ℕ) (s : S)
      → (window == 0) ≡ false
      → All P (i ∷ is)
      → P (draw_index draw window (i ∷ is) s).0
  unfolding draw_index
  draw_index-All P window i is s some_window h =
      let positive : 0 < window = ground (arith, some_window) in
      let start = length (i ∷ is) - window in
      let n = length (i ∷ is) - start in
      let below : (draw n s).0 % n < n = mod-lt (draw n s).0 (omega arith) in
      get_or-All P (i ∷ is) _ 0 h (omega (arith, below))

  recv_drawn-Served :
      (task now window : ℕ) (net : SimNet) (m : Message) (first : ℕ) (rest : List ℕ) (s : S)
      → at_index first net.queue ≡ some m
      → All (Ready task now net.queue) (first ∷ rest)
      → Served task now net
          (recv_drawn_with_window draw task now window first
            (from_sender m.from net.queue (first ∷ rest))
            net
            s).0
  unfolding recv_drawn_with_window
  recv_drawn-Served task now window net m first rest s found h = elim (Bool-cases (window == 0)) [
    | inl hit ↦ rw hit (take_message-Served task now first net _ refl h.0)
    | inr miss ↦
        rw (miss, from_sender-head net.queue m first rest found)
          (take_message-Served task now _ net _ refl (
            draw_index-All (Ready task now net.queue) window first
              (from_sender m.from net.queue rest) s miss
              (h.0, from_sender-All m.from net.queue rest (Ready task now net.queue) h.1)))
  ]

  recv_at_drawn-found :
      (task now : ℕ) (net : SimNet) (m : Message) (first : ℕ) (rest : List ℕ) (s : S)
      → ready task now 0 net.queue ≡ first ∷ rest
      → at_index first net.queue ≡ some m
      → recv_at_drawn draw task now net s
        ≡ recv_drawn_with_window draw task now
            (effective_reorder_window m.from task net)
            first
            (from_sender m.from net.queue (first ∷ rest))
            net
            s
  unfolding recv_at_drawn recv_drawn_validated
  recv_at_drawn-found task now net m first rest s e found = rw (recv_drawn_validated, e, found) refl

  -- Where a message to the task is ready, a receive serves one that is, without draws and with any draws:
  -- the message is addressed to the task, its time has come, and the queue loses this message and no
  -- other, in the same order.
  pub recv-Served :
      (task now : ℕ) (net : SimNet) (s : S)
      → has_ready_message task now net ≡ true
      → Served task now net (recv_at task now net)
        × Served task now net (recv_at_drawn draw task now net s).0
  recv-Served task now net s h =
      let (j, m, rest, f, e, found, all) = ready_cases task now net h in
      (
        recv_at-Served task now net h,
        subst (λ (r : (Option Message × SimNet) × S). Served task now net r.0)
            (sym (recv_at_drawn-found task now net m j rest s e found))
            (recv_drawn-Served task now (effective_reorder_window m.from task net) net m j rest s
              found all),
      )
