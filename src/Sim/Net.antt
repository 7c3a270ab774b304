-- ===== src/Sim/Net.antt =====
-- crates/ledger-sim/src/net.rs: the simulated network, its links, partitions and queue of messages.
-- A hash is its number. A map is an association list whose first binding of a key counts, and a set
-- the list of its members. A float is its bits. An index beyond the queue is `none`, where the source
-- panics. The table of names, the backoff and `apply_fault` are left out.
pub mod Serve
pub mod Peek
pub mod Drawn
pub mod Lottery
pub mod Capacity
pub mod Traffic
use Prim.Native.String.{String}
use ldgr.Prelude.{
  ℕ, zero, suc, ◌+◌, ◌-◌, ◌*◌, ◌%◌, ◌^◌, min, max, Bool, true, false, ◌&&◌, not, Option, none, some,
  List, [], ◌∷◌, ◌++◌, ltb, leb, ◌==◌, if◌then◌else◌, length, get_or, Result, ok, err, ◌>>=◌,
}
use ldgr.Prelude.Bytes.{le_bytes}
use ldgr.Sim.Fs.{sat_add}

pub record MessageId : Type 0 where
  pub sender : ℕ
  pub sender_sequence : ℕ

pub record Message : Type 0 where
  pub from : ℕ
  pub to : ℕ
  pub content : List ℕ
  pub send_id : ℕ
  pub message_id : MessageId
  pub deliver_at : ℕ

pub data QueueFullPolicy : Type 0 where
  drop : QueueFullPolicy
  block : QueueFullPolicy

pub data NetError : Type 0 where
  queue_full : (from to capacity queued : ℕ) → NetError
  invalid_reorder_window : (window : ℕ) → String → NetError

abbrev pub max_reorder_window : ℕ
max_reorder_window = 65536

pub record LinkConfig : Type 0 where
  pub base_delay : ℕ
  pub jitter : ℕ
  pub loss_probability : ℕ
  pub reorder_window : ℕ
  pub capacity : Option ℕ
  pub queue_policy : QueueFullPolicy

abbrev pub default_link : LinkConfig
default_link = record {
  base_delay = 0;
  jitter = 0;
  loss_probability = 0;
  reorder_window = 0;
  capacity = none;
  queue_policy = QueueFullPolicy.drop;
}

pub record SimNet : Type 0 where
  pub queue : List Message
  pub partitions : List (ℕ × ℕ)
  pub reorder_window : ℕ
  pub links : List ((ℕ × ℕ) × LinkConfig)

abbrev pub new_net : SimNet
new_net = record { queue = []; partitions = []; reorder_window = 0; links = [] }

unfoldable pub same_link : ℕ × ℕ → ℕ × ℕ → Bool
same_link (a, b) (c, d) = (a == c) && (b == d)

unfoldable pub find_link : ℕ × ℕ → List ((ℕ × ℕ) × LinkConfig) → Option LinkConfig
find_link link [] = none
find_link link ((l, cfg) ∷ links) = if same_link l link then some cfg else find_link link links

unfoldable pub set_link : (from to : ℕ) → LinkConfig → SimNet → SimNet
set_link from to cfg net = record net { links = ((from, to), cfg) ∷ net.links }

unfoldable pub link_configured : (from to : ℕ) → SimNet → Bool
link_configured from to net = elim (find_link (from, to) net.links) [
  | none ↦ false
  | some cfg ↦ true
]

unfoldable pub link_config : (from to : ℕ) → SimNet → LinkConfig
link_config from to net = elim (find_link (from, to) net.links) [
  | none ↦ default_link
  | some cfg ↦ cfg
]

unfoldable pub validate_reorder_window : ℕ → Result NetError (Unit {0})
validate_reorder_window window =
    if ltb max_reorder_window window
    then err (invalid_reorder_window window "window exceeds the representable bound")
    else ok tt

unfoldable pub effective_reorder_window : (from to : ℕ) → SimNet → ℕ
effective_reorder_window from to net =
    let per_link : ℕ = elim (find_link (from, to) net.links) [
      | none ↦ 0
      | some cfg ↦ cfg.reorder_window
    ] in
    if per_link == 0 then net.reorder_window else per_link

unfoldable pub queued_in : (from to : ℕ) → List Message → ℕ
queued_in from to [] = 0
queued_in from to (m ∷ ms) =
    let rest = queued_in from to ms in
    if same_link (m.from, m.to) (from, to) then suc rest else rest

unfoldable pub queued_for : (from to : ℕ) → SimNet → ℕ
queued_for from to net = queued_in from to net.queue

unfoldable pub check_capacity : (from to : ℕ) → SimNet → Result NetError (Unit {0})
check_capacity from to net = elim (link_config from to net).capacity [
  | none ↦ ok tt
  | some cap ↦
      if leb cap (queued_for from to net)
      then err (queue_full from to cap (queued_for from to net))
      else ok tt
]

unfoldable pub link_policy : (from to : ℕ) → SimNet → QueueFullPolicy
link_policy from to net = (link_config from to net).queue_policy

unfoldable pub has_link : ℕ × ℕ → List (ℕ × ℕ) → Bool
has_link link [] = false
has_link link (l ∷ ls) = if same_link l link then true else has_link link ls

unfoldable pub remove_link : ℕ × ℕ → List (ℕ × ℕ) → List (ℕ × ℕ)
remove_link link [] = []
remove_link link (l ∷ ls) =
    let rest = remove_link link ls in if same_link l link then rest else l ∷ rest

unfoldable pub is_partitioned : (from to : ℕ) → SimNet → Bool
is_partitioned from to net = has_link (from, to) net.partitions

unfoldable pub partition : (from to : ℕ) → SimNet → SimNet
partition from to net =
    if has_link (from, to) net.partitions
    then net
    else record net { partitions = (from, to) ∷ net.partitions }

unfoldable pub toggle_partition : (from to : ℕ) → SimNet → SimNet
toggle_partition from to net =
    if has_link (from, to) net.partitions
    then record net { partitions = remove_link (from, to) net.partitions }
    else record net { partitions = (from, to) ∷ net.partitions }

unfoldable pub set_reorder_window : ℕ → SimNet → SimNet
set_reorder_window window net = record net { reorder_window = window }

unfoldable pub try_set_reorder_window : ℕ → SimNet → Result NetError SimNet
try_set_reorder_window window net = do
  u ← validate_reorder_window window
  ok (set_reorder_window window net)

unfoldable pub try_set_link : (from to : ℕ) → LinkConfig → SimNet → Result NetError SimNet
try_set_link from to cfg net = do
  u ← validate_reorder_window cfg.reorder_window
  ok (set_link from to cfg net)

unfoldable pub push_message : Message → SimNet → SimNet
push_message m net = record net { queue = net.queue ++ m ∷ [] }

unfoldable pub try_send : Message → SimNet → Result NetError (Bool × SimNet)
try_send m net =
    if is_partitioned m.from m.to net
    then ok (false, net)
    else (do u ← check_capacity m.from m.to net; ok (true, push_message m net))

-- `unwrap_or(false)`
unfoldable pub or_false : SimNet → Result NetError (Bool × SimNet) → Bool × SimNet
or_false net (ok r) = r
or_false net (err why) = (false, net)

unfoldable pub send : Message → SimNet → Bool × SimNet
send m net = or_false net (try_send m net)

unfoldable pub try_send_at :
    (from to payload send_id now delay : ℕ) → SimNet → Result NetError (Bool × SimNet)
try_send_at from to payload send_id now delay net =
    try_send
      (record {
        from = from;
        to = to;
        content = le_bytes 8 payload;
        send_id = send_id;
        message_id = record { sender = from % 2 ^ 32; sender_sequence = 0 };
        deliver_at = sat_add now delay;
      })
      net

unfoldable pub send_at : (from to payload send_id now delay : ℕ) → SimNet → Bool × SimNet
send_at from to payload send_id now delay net =
    or_false net (try_send_at from to payload send_id now delay net)

unfoldable pub try_send_at_with_identity :
    Message → (now delay : ℕ) → SimNet → Result NetError (Bool × SimNet)
try_send_at_with_identity m now delay net =
    try_send (record m { deliver_at = sat_add now delay }) net

unfoldable pub send_at_with_identity : Message → (now delay : ℕ) → SimNet → Bool × SimNet
send_at_with_identity m now delay net = or_false net (try_send_at_with_identity m now delay net)

abbrev pub is_ready : (task now : ℕ) → Message → Bool
is_ready task now m = (m.to == task) && leb m.deliver_at now

unfoldable pub find_ready : (task now : ℕ) → List Message → Option Message
find_ready task now [] = none
find_ready task now (m ∷ ms) = if is_ready task now m then some m else find_ready task now ms

unfoldable pub has_ready_message : (task now : ℕ) → SimNet → Bool
has_ready_message task now net = elim (find_ready task now net.queue) [
  | none ↦ false
  | some m ↦ true
]

-- The indices of the ready messages, the first message having index `i`.
unfoldable pub ready : (task now i : ℕ) → List Message → List ℕ
ready task now i [] = []
ready task now i (m ∷ ms) =
    let rest = ready task now (suc i) ms in if is_ready task now m then i ∷ rest else rest

unfoldable pub at_index : ℕ → List Message → Option Message
at_index i [] = none
at_index zero (m ∷ ms) = some m
at_index (suc i) (m ∷ ms) = at_index i ms

unfoldable pub remove_at : ℕ → List Message → List Message
remove_at i [] = []
remove_at zero (m ∷ ms) = ms
remove_at (suc i) (m ∷ ms) = m ∷ remove_at i ms

unfoldable pub is_from : ℕ → Option Message → Bool
is_from sender none = false
is_from sender (some m) = m.from == sender

-- The indices of the messages of a sender.
unfoldable pub from_sender : ℕ → List Message → List ℕ → List ℕ
from_sender sender queue [] = []
from_sender sender queue (i ∷ is) =
    let rest = from_sender sender queue is in
    if is_from sender (at_index i queue) then i ∷ rest else rest

-- The newest of the last `window` candidates.
unfoldable pub newest : (window : ℕ) → List ℕ → ℕ
newest window candidates =
    max (get_or candidates (length candidates - 1) 0)
      (get_or candidates (length candidates - window) 0)

unfoldable pub peek_index : (task now : ℕ) → SimNet → Option ℕ
peek_index task now net = elim (ready task now 0 net.queue) [
  | [] ↦ none
  | first ∷ rest ↦ elim (at_index first net.queue) [
    | none ↦ none
    | some m ↦
        let window = effective_reorder_window m.from task net in
        if window == 0
        then some first
        else some (newest window (first ∷ from_sender m.from net.queue rest))
  ]
]

unfoldable pub send_id_at : List Message → Option ℕ → Option ℕ
send_id_at queue none = none
send_id_at queue (some i) = elim (at_index i queue) [ none ↦ none | some m ↦ some m.send_id ]

unfoldable pub peek_ready_send_id : (task now : ℕ) → SimNet → Option ℕ
peek_ready_send_id task now net = send_id_at net.queue (peek_index task now net)

unfoldable pub take_message : ℕ → SimNet → Option Message × SimNet
take_message i net = (at_index i net.queue, record net { queue = remove_at i net.queue })

unfoldable pub recv_with_window : (task now window : ℕ) → SimNet → Option Message × SimNet
recv_with_window task now window net = elim (ready task now 0 net.queue) [
  | [] ↦ (none, net)
  | first ∷ rest ↦ elim (at_index first net.queue) [
    | none ↦ (none, net)
    | some m ↦
        take_message
          (if window == 0
            then first
            else newest window (from_sender m.from net.queue (first ∷ rest)))
          net
  ]
]

unfoldable pub recv_at : (task now : ℕ) → SimNet → Option Message × SimNet
recv_at task now net = elim (find_ready task now net.queue) [
  | none ↦ (none, net)
  | some m ↦ recv_with_window task now (effective_reorder_window m.from task net) net
]

unfoldable pub effective_window_for_task : (task now : ℕ) → SimNet → Result NetError ℕ
effective_window_for_task task now net = elim (find_ready task now net.queue) [
  | none ↦ ok 0
  | some m ↦ (do
    u ← validate_reorder_window (effective_reorder_window m.from task net)
    ok (effective_reorder_window m.from task net))
]

unfoldable pub try_recv_at : (task now : ℕ) → SimNet → Result NetError (Option Message × SimNet)
try_recv_at task now net = do
  window ← effective_window_for_task task now net
  ok (recv_with_window task now window net)

unfoldable pub earliest_delivery_time : List Message → Option ℕ
earliest_delivery_time [] = none
earliest_delivery_time (m ∷ ms) = elim (earliest_delivery_time ms) [
  | none ↦ some m.deliver_at
  | some t ↦ some (min m.deliver_at t)
]
