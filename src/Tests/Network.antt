-- ===== src/Tests/Network.antt =====
-- The properties of the simulated network on concrete inputs.
use ldgr.Prelude.{ℕ, ◌+◌, ◌≡◌, refl, true, some, [], ◌∷◌, arith}
use ldgr.Sim.Net.{
  Message, SimNet, default_link, find_link, same_link, link_config, queued_in, queued_for, send,
  find_ready, has_ready_message, peek_ready_send_id, recv_at,
}
use ldgr.Sim.Net.Drawn.{recv_at_drawn, send_via_link}
use ldgr.Sim.Net.Lottery.{recv-Served}
use ldgr.Sim.Net.Serve.{Served}
use ldgr.Sim.Net.Peek.{send_id_of, peek_ready_send_id-recv_at}
use ldgr.Sim.Net.Capacity.{Within}
use ldgr.Sim.Net.Traffic.{none_yet, then_call, sent, received, sent_via_link, Runs-Within}

abbrev letter : (from send_id deliver_at : ℕ) → Message
letter from send_id deliver_at = record {
  from = from;
  to = 3;
  content = 65 ∷ [];
  send_id = send_id;
  message_id = record { sender = from; sender_sequence = 0 };
  deliver_at = deliver_at;
}

-- Two messages from 1 are under way, with one from 2 between them, and the link has a window of two.
abbrev busy_net : SimNet
busy_net = record {
  queue = letter 1 100 5 ∷ letter 2 101 6 ∷ letter 1 102 7 ∷ [];
  partitions = [];
  reorder_window = 0;
  links = ((1, 3), record default_link { reorder_window = 2; capacity = some 2 }) ∷ [];
}

busy_net-ready : has_ready_message 3 9 busy_net ≡ true
unfolding has_ready_message find_ready
busy_net-ready = refl

-- Each draw is the state, and the next one is one more.
abbrev counting : ℕ → ℕ → ℕ × ℕ
counting bound s = (s, s + 1)

recv-Served_example :
    Served 3 9 busy_net (recv_at 3 9 busy_net)
    × Served 3 9 busy_net (recv_at_drawn counting 3 9 busy_net 5).0
recv-Served_example = recv-Served counting 3 9 busy_net 5 busy_net-ready

peek_ready_send_id-recv_at_example :
    peek_ready_send_id 3 9 busy_net ≡ send_id_of (recv_at 3 9 busy_net).0
peek_ready_send_id-recv_at_example = peek_ready_send_id-recv_at 3 9 busy_net

busy_net-Within : Within 1 3 busy_net
unfolding link_config queued_for queued_in find_link same_link
busy_net-Within = omega arith

-- One message is refused by the full queue, one is received, and one is sent over the link.
abbrev after_calls : SimNet
after_calls =
    (send_via_link counting (λ bits. 0) (letter 1 104 0) 9 1
      (recv_at 3 9 (send (letter 1 103 8) busy_net).1).1 5).1

Runs-Within_example : Within 1 3 after_calls
Runs-Within_example =
    Runs-Within counting (λ bits. 0) 1 3 busy_net after_calls busy_net-Within
      (then_call (then_call (then_call none_yet (sent (letter 1 103 8))) (received 3 9))
        (sent_via_link (letter 1 104 0) 9 1 5))
