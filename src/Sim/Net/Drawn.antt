-- ===== src/Sim/Net/Drawn.antt =====
-- crates/ledger-sim/src/net.rs: sends over configured links and receives with seeded draws.
-- `draw` is the closure that the caller passes, with its state, and `billionth` the product of the
-- float with these bits and 1_000_000_000.0, cut to an integer. A probability is above zero if its bits are.
use ldgr.Prelude.{
  ℕ, ◌+◌, ◌-◌, ◌%◌, Bool, true, false, ◌&&◌, Option, none, some, List, [], ◌∷◌, ltb, ◌==◌,
  if◌then◌else◌, length, get_or, Result, ok, err, ◌>>=◌,
}
use ldgr.Sim.Fs.{sat_add}
use ldgr.Sim.Net.{
  Message, NetError, LinkConfig, SimNet, max_reorder_window, link_config, effective_reorder_window,
  validate_reorder_window, check_capacity, is_partitioned, push_message, ready, at_index,
  from_sender, take_message,
}

module _ {S : Type 0} (draw : ℕ → S → ℕ × S) where
  -- The draw for the jitter of a link, if it has one.
  unfoldable pub draw_jitter : LinkConfig → ℕ → S → ℕ × S
  draw_jitter cfg total s =
      if ltb 0 cfg.jitter
      then (sat_add total (draw (sat_add cfg.jitter 1) s).0, (draw (sat_add cfg.jitter 1) s).1)
      else (total, s)

  -- Is the message lost?
  unfoldable pub draw_loss : (billionth : ℕ → ℕ) → LinkConfig → S → Bool × S
  draw_loss billionth cfg s =
      if ltb 0 cfg.loss_probability
      then (ltb (draw 1000000000 s).0 (billionth cfg.loss_probability), (draw 1000000000 s).1)
      else (false, s)

  unfoldable pub try_send_via_link :
      (billionth : ℕ → ℕ)
      → Message
      → (now base_delay : ℕ) → SimNet
      → S
      → Result NetError (Bool × SimNet × S)
  try_send_via_link billionth m now base_delay net s =
      if is_partitioned m.from m.to net then ok (false, net, s) else (do
        u ← check_capacity m.from m.to net
        let cfg = link_config m.from m.to net
        let (total, s1) = draw_jitter cfg (sat_add base_delay cfg.base_delay) s
        let (lost, s2) = draw_loss billionth cfg s1
        ok (
            if lost
            then (false, net, s2)
            else (true, push_message (record m { deliver_at = sat_add now total }) net, s2)))

  -- A full queue makes no draw.
  unfoldable pub send_via_link :
      (billionth : ℕ → ℕ) → Message → (now base_delay : ℕ) → SimNet → S → Bool × SimNet × S
  send_via_link billionth m now base_delay net s =
      elim (try_send_via_link billionth m now base_delay net s) [
        | ok r ↦ r
        | err why ↦ (false, net, s)
      ]

  -- One of the last `window` candidates, by a draw.
  unfoldable pub draw_index : (window : ℕ) → List ℕ → S → ℕ × S
  draw_index window candidates s =
      let start = length candidates - window in
      let n = length candidates - start in
      (get_or candidates (start + (draw n s).0 % n) 0, (draw n s).1)

  unfoldable pub recv_drawn_with_window :
      (task now window first : ℕ) → List ℕ → SimNet → S → (Option Message × SimNet) × S
  recv_drawn_with_window task now window first candidates net s =
      if window == 0
      then (take_message first net, s)
      else (take_message (draw_index window candidates s).0 net, (draw_index window candidates s).1)

  unfoldable pub try_recv_at_drawn :
      (task now : ℕ) → SimNet → S → Result NetError ((Option Message × SimNet) × S)
  try_recv_at_drawn task now net s = elim (ready task now 0 net.queue) [
    | [] ↦ ok ((none, net), s)
    | first ∷ rest ↦ elim (at_index first net.queue) [
      | none ↦ ok ((none, net), s)
      | some m ↦ (do
        let window = effective_reorder_window m.from task net
        u ← validate_reorder_window window
        ok (
            recv_drawn_with_window task now window first
              (from_sender m.from net.queue (first ∷ rest)) net s))
    ]
  ]

  -- `try_recv_at_drawn_validated`
  unfoldable pub recv_drawn_validated :
      (task now : ℕ) → (validate : Bool) → SimNet → S → (Option Message × SimNet) × S
  recv_drawn_validated task now validate net s = elim (ready task now 0 net.queue) [
    | [] ↦ ((none, net), s)
    | first ∷ rest ↦ elim (at_index first net.queue) [
      | none ↦ ((none, net), s)
      | some m ↦
          let window = effective_reorder_window m.from task net in
          if validate && ltb max_reorder_window window
          then ((none, net), s)
          else recv_drawn_with_window task now window first
              (from_sender m.from net.queue (first ∷ rest)) net s
    ]
  ]

  unfoldable pub recv_at_drawn : (task now : ℕ) → SimNet → S → (Option Message × SimNet) × S
  recv_at_drawn task now net s = recv_drawn_validated task now false net s
