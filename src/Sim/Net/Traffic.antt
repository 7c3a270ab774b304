-- ===== src/Sim/Net/Traffic.antt =====
-- The calls that carry messages, on networks whose links are configured.
use ldgr.Prelude.{
  ℕ, ◌≡◌, refl, Bool, true, false, Option, List, Result, ok, err, Post, Post-ok, Post-bind, Post-if,
  ◌==◌, if◌then◌else◌,
}
use ldgr.Sim.Net.{
  Message, NetError, SimNet, is_partitioned, has_link, check_capacity, partition, toggle_partition,
  set_reorder_window, try_send, send, try_send_at, send_at, try_send_at_with_identity,
  send_at_with_identity, link_config, validate_reorder_window, effective_reorder_window,
  effective_window_for_task, recv_at, try_recv_at, queued_for, at_index, ready,
}
use ldgr.Sim.Net.Drawn.{
  draw_loss, try_send_via_link, send_via_link, recv_drawn_with_window, try_recv_at_drawn,
  recv_drawn_validated, recv_at_drawn,
}
use ldgr.Sim.Net.Capacity.{
  Within, or_false-P, try_send-Within, push_message-Within, take_message-Within, recv_at-Within,
  recv_with_window-Within, Post-checked, List-cases-P, Option-cases-P,
}

if-P : {A : Type 0} (P : A → Type 0) (b : Bool) (x y : A) → P x → P y → P (if b then x else y)
if-P P true x y h k = h
if-P P false x y h k = k

Post-any : {E A : Type 0} (r : Result E A) → Post r (λ x. Unit {0})
Post-any (ok x) = tt
Post-any (err why) = tt

Result-cases-P :
    {E A : Type 0} (P : A → Type 0) (r : Result E A) (other : A)
    → P other
    → Post r P
    → P (elim r [ ok x ↦ x | err why ↦ other ])
Result-cases-P P (ok x) other h k = k
Result-cases-P P (err why) other h k = h

links-Within :
    (from to : ℕ) (net net' : SimNet)
    → net'.links ≡ net.links
    → net'.queue ≡ net.queue
    → Within from to net
    → Within from to net'
unfolding link_config queued_for
links-Within from to net net' l q h = rw (l, q) h

module _ {S : Type 0} (draw : ℕ → S → ℕ × S) (billionth : ℕ → ℕ) where
  -- Every send, every receive, and the calls on partitions and on the global window. A result that is
  -- an error leaves the network. Configuring a link is not among them: it may set a capacity that the
  -- queue exceeds.
  pub data Traffic (net : SimNet) : SimNet → Type 0 where
    sent : (m : Message) → Traffic net (send m net).1
    sent_at :
        (from to payload send_id now delay : ℕ)
        → Traffic net (send_at from to payload send_id now delay net).1
    sent_with_identity :
        (m : Message) (now delay : ℕ) → Traffic net (send_at_with_identity m now delay net).1
    sent_via_link :
        (m : Message) (now base_delay : ℕ) (s : S)
        → Traffic net (send_via_link draw billionth m now base_delay net s).1
    received : (task now : ℕ) → Traffic net (recv_at task now net).1
    received_drawn : (task now : ℕ) (s : S) → Traffic net (recv_at_drawn draw task now net s).0.1
    try_received :
        (task now : ℕ) (o : Option Message) (net' : SimNet)
        → try_recv_at task now net ≡ ok (o, net')
        → Traffic net net'
    try_received_drawn :
        (task now : ℕ) (s s' : S) (o : Option Message) (net' : SimNet)
        → try_recv_at_drawn draw task now net s ≡ ok ((o, net'), s')
        → Traffic net net'
    try_sent :
        (m : Message) (queued : Bool) (net' : SimNet)
        → try_send m net ≡ ok (queued, net')
        → Traffic net net'
    try_sent_via_link :
        (m : Message) (now base_delay : ℕ) (s s' : S) (queued : Bool) (net' : SimNet)
        → try_send_via_link draw billionth m now base_delay net s ≡ ok (queued, net', s')
        → Traffic net net'
    partitioned : (from to : ℕ) → Traffic net (partition from to net)
    toggled : (from to : ℕ) → Traffic net (toggle_partition from to net)
    reordered : (window : ℕ) → Traffic net (set_reorder_window window net)

  -- Any number of those calls.
  pub data Runs (net : SimNet) : SimNet → Type 0 where
    none_yet : Runs net net
    then_call : {net' net'' : SimNet} → Runs net net' → Traffic net' net'' → Runs net net''

  try_send_via_link-Within :
      (from to : ℕ) (m : Message) (now base_delay : ℕ) (net : SimNet) (s : S)
      → Within from to net
      → Post
          (try_send_via_link draw billionth m now base_delay net s)
          (λ (queued, net', s'). Within from to net')
  unfolding try_send_via_link
  try_send_via_link-Within from to m now base_delay net s h =
      Post-if _ (is_partitioned m.from m.to net) _ _ (λ cut. h)
        λ open'. Post-checked _ (check_capacity m.from m.to net) _ λ room.
          if-P (λ (r : Bool × SimNet × S). Within from to r.1) (draw_loss draw billionth _ _).0 _ _
            h (push_message-Within from to (record m { deliver_at = _ }) net h room)

  recv_drawn_with_window-Within :
      (from to task now window first : ℕ) (is : List ℕ) (net : SimNet) (s : S)
      → Within from to net
      → Within from to (recv_drawn_with_window draw task now window first is net s).0.1
  unfolding recv_drawn_with_window
  recv_drawn_with_window-Within from to task now window first is net s h =
      if-P (λ (r : (Option Message × SimNet) × S). Within from to r.0.1) (window == 0) _ _
        (take_message-Within from to first net h) (take_message-Within from to _ net h)

  recv_at_drawn-Within :
      (from to task now : ℕ) (net : SimNet) (s : S)
      → Within from to net
      → Within from to (recv_at_drawn draw task now net s).0.1
  unfolding recv_at_drawn recv_drawn_validated
  recv_at_drawn-Within from to task now net s h =
      List-cases-P (λ (r : (Option Message × SimNet) × S). Within from to r.0.1)
        (ready task now 0 net.queue) _ _ h
        λ first rest.
          Option-cases-P (λ (r : (Option Message × SimNet) × S). Within from to r.0.1)
            (at_index first net.queue) _ _ h
            λ m. recv_drawn_with_window-Within from to task now _ first _ net s h

  try_recv_at_drawn-Within :
      (from to task now : ℕ) (net : SimNet) (s : S)
      → Within from to net
      → Post (try_recv_at_drawn draw task now net s) (λ r. Within from to r.0.1)
  unfolding try_recv_at_drawn
  try_recv_at_drawn-Within from to task now net s h =
      List-cases-P
        (λ (r : Result NetError ((Option Message × SimNet) × S)).
          Post r (λ q. Within from to q.0.1))
        (ready task now 0 net.queue) _ _ h
        λ first rest.
          Option-cases-P
            (λ (r : Result NetError ((Option Message × SimNet) × S)).
              Post r (λ q. Within from to q.0.1))
            (at_index first net.queue) _ _ h
            λ m.
              Post-checked _ (validate_reorder_window (effective_reorder_window m.from task net)) _
                λ fine. recv_drawn_with_window-Within from to task now _ first _ net s h

  try_recv_at-Within :
      (from to task now : ℕ) (net : SimNet)
      → Within from to net
      → Post (try_recv_at task now net) (λ r. Within from to r.1)
  unfolding try_recv_at
  try_recv_at-Within from to task now net h =
      Post-bind (λ w. Unit {0}) _ (effective_window_for_task task now net) _ (Post-any _)
        λ window u. recv_with_window-Within from to task now window net h

  send_via_link-Within :
      (from to : ℕ) (m : Message) (now base_delay : ℕ) (net : SimNet) (s : S)
      → Within from to net
      → Within from to (send_via_link draw billionth m now base_delay net s).1
  unfolding send_via_link
  send_via_link-Within from to m now base_delay net s h =
      Result-cases-P (λ (r : Bool × SimNet × S). Within from to r.1)
        (try_send_via_link draw billionth m now base_delay net s) (false, net, s) h
        (try_send_via_link-Within from to m now base_delay net s h)

  toggle_partition-Within :
      (from to a b : ℕ) (net : SimNet)
      → Within from to net
      → Within from to (toggle_partition a b net)
  unfolding toggle_partition
  toggle_partition-Within from to a b net h =
      if-P (Within from to) (has_link (a, b) net.partitions) _ _
        (links-Within from to net _ refl refl h) (links-Within from to net _ refl refl h)

  partition-Within :
      (from to a b : ℕ) (net : SimNet) → Within from to net → Within from to (partition a b net)
  unfolding partition
  partition-Within from to a b net h =
      if-P (Within from to) (has_link (a, b) net.partitions) _ _ h
        (links-Within from to net _ refl refl h)

  Traffic-Within :
      (from to : ℕ) (net net' : SimNet)
      → Traffic net net'
      → Within from to net
      → Within from to net'
  unfolding send send_at send_at_with_identity try_send_at try_send_at_with_identity
      set_reorder_window
  Traffic-Within from to net _ (sent m) h =
      or_false-P (Within from to) net _ h (try_send-Within from to m net h)
  Traffic-Within from to net _ (sent_at a b payload send_id now delay) h =
      or_false-P (Within from to) net _ h (try_send-Within from to _ net h)
  Traffic-Within from to net _ (sent_with_identity m now delay) h =
      or_false-P (Within from to) net _ h (try_send-Within from to _ net h)
  Traffic-Within from to net _ (sent_via_link m now base_delay s) h =
      send_via_link-Within from to m now base_delay net s h
  Traffic-Within from to net _ (received task now) h = recv_at-Within from to task now net h
  Traffic-Within from to net _ (received_drawn task now s) h =
      recv_at_drawn-Within from to task now net s h
  Traffic-Within from to net net' (try_received task now o n e) h =
      Post-ok _ _ (try_recv_at-Within from to task now net h) e
  Traffic-Within from to net net' (try_received_drawn task now s s' o n e) h =
      Post-ok _ _ (try_recv_at_drawn-Within from to task now net s h) e
  Traffic-Within from to net net' (try_sent m queued n e) h =
      Post-ok _ _ (try_send-Within from to m net h) e
  Traffic-Within from to net net' (try_sent_via_link m now base_delay s s' queued n e) h =
      Post-ok _ _ (try_send_via_link-Within from to m now base_delay net s h) e
  Traffic-Within from to net _ (partitioned a b) h = partition-Within from to a b net h
  Traffic-Within from to net _ (toggled a b) h = toggle_partition-Within from to a b net h
  Traffic-Within from to net _ (reordered window) h = links-Within from to net _ refl refl h

  -- Where the queue of a link is within the capacity it has, if any, it stays so through any number of
  -- sends and receives of every form, with draws or without, and of calls that set partitions or the
  -- global reorder window.
  pub Runs-Within :
      (from to : ℕ) (net net' : SimNet) → Within from to net → Runs net net' → Within from to net'
  Runs-Within from to net _ h none_yet = h
  Runs-Within from to net net'' h (then_call {net' = net'} before call) =
      Traffic-Within from to net' net'' call (Runs-Within from to net net' h before)
