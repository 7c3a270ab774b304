-- ===== src/Sim/Net/Peek.antt =====
-- What is peeked at is what a receive serves.
use ldgr.Prelude.{
  ℕ, ◌+◌, arith, ◌≡◌, refl, sym, ◌∙◌, ap, Bool, true, false, Option, none, some, List, [], ◌∷◌,
  ◌==◌, if◌then◌else◌, inl, inr,
}
use ldgr.Sim.Net.{
  Message, SimNet, effective_reorder_window, ready, at_index, from_sender, newest, peek_index,
  send_id_at, peek_ready_send_id, take_message, recv_at,
}
use ldgr.Sim.Net.Serve.{first_ready, from_sender-head, recv_at-none, recv_at-found}

-- The id of the message that is served, if one is.
abbrev pub send_id_of : Option Message → Option ℕ
send_id_of none = none
send_id_of (some m) = some m.send_id

peek_index-none :
    (task now : ℕ) (net : SimNet)
    → ready task now 0 net.queue ≡ []
    → peek_ready_send_id task now net ≡ none
unfolding peek_ready_send_id peek_index send_id_at
peek_index-none task now net e = rw (peek_ready_send_id, peek_index, e) refl

some-if : (b : Bool) (i j : ℕ) → (if b then some i else some j) ≡ some (if b then i else j)
some-if true i j = refl
some-if false i j = refl

send_id-case :
    (o : Option Message) → elim o [ none ↦ none | some m ↦ some m.send_id ] ≡ send_id_of o
send_id-case none = refl
send_id-case (some m) = refl

peek_index-found :
    (task now : ℕ) (net : SimNet) (m : Message) (first : ℕ) (rest : List ℕ)
    → ready task now 0 net.queue ≡ first ∷ rest
    → at_index first net.queue ≡ some m
    → peek_index task now net
      ≡ some (
          if effective_reorder_window m.from task net == 0
          then first
          else newest
              (effective_reorder_window m.from task net)
              (from_sender m.from net.queue (first ∷ rest)))
unfolding peek_index
peek_index-found task now net m first rest e found =
    rw (peek_index, e, found, from_sender-head net.queue m first rest found)
      (some-if (effective_reorder_window m.from task net == 0) first _)

send_id-take_message :
    (i : ℕ) (net : SimNet) → send_id_at net.queue (some i) ≡ send_id_of (take_message i net).0
unfolding send_id_at take_message
send_id-take_message i net = send_id-case (at_index i net.queue)

-- The send id that is peeked at is that of the message that a receive at the same time serves, and there
-- is none exactly when the receive serves nothing.
pub peek_ready_send_id-recv_at :
    (task now : ℕ) (net : SimNet)
    → peek_ready_send_id task now net ≡ send_id_of (recv_at task now net).0
unfolding peek_ready_send_id
peek_ready_send_id-recv_at task now net = elim (first_ready task now 0 net.queue) [
  | inl (none_found, none_ready) ↦
      peek_index-none task now net none_ready
      ∙ sym (
          ap (λ (r : Option Message × SimNet). send_id_of r.0)
            (recv_at-none task now net none_found))
  | inr (j, m, rest, f, e, found) ↦
      let e' = e ∙ ap (λ (i : ℕ). i ∷ rest) {x = 0 + j} {y = j} (omega arith) in
      ap (send_id_at net.queue) (peek_index-found task now net m j rest e' found)
      ∙ send_id-take_message _ net
      ∙ sym (
          ap (λ (r : Option Message × SimNet). send_id_of r.0)
            (recv_at-found task now net m j rest f e' found))
]
