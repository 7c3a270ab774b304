-- ===== src/Journal/Slice.antt =====
-- crates/ledger-journal/src/slice.rs: backward slices and forward cones of the journal.
-- A hash set is a list, read by `holds`. The stack of the walk has its top first. The walk takes fuel,
-- one more than the number of addresses it can push: those of the targets, and those of the parents
-- of each stored entry once.
pub mod Walk
pub mod Closed
pub mod Subgraph
use ldgr.Prelude.{
  ℕ, zero, suc, ◌+◌, Bool, true, false, Option, none, some, List, [], ◌∷◌, ◌++◌, reverse,
  if◌then◌else◌, length, Result, ok, err, ◌>>=◌,
}
use ldgr.Journal.Dag.{
  JournalError, missing_parent, Entry, JournalState, holds, get_entry, known_entry, order_ids,
}

unfoldable pub keep_held : List ℕ → List ℕ → List ℕ
keep_held seen [] = []
keep_held seen (id ∷ ids) =
    let rest = keep_held seen ids in if holds id seen then id ∷ rest else rest

unfoldable pub any_held : List ℕ → List ℕ → Bool
any_held seen [] = false
any_held seen (id ∷ ids) = if holds id seen then true else any_held seen ids

module _ {K P : Type 0} where
  -- The parents that are pushed where an address is first seen.
  unfoldable pub parents_of : Option (Entry K P) → List ℕ
  parents_of none = []
  parents_of (some entry) = entry.entry_data.parents

  -- One round: the popped address, and the stack and the set after it.
  unfoldable pub visit : JournalState K P → ℕ → (stack seen : List ℕ) → List ℕ × List ℕ
  visit state id stack seen =
      if holds id seen
      then (stack, seen)
      else (reverse (parents_of (get_entry id state)) ++ stack, id ∷ seen)

  unfoldable pub walk : ℕ → JournalState K P → (stack seen : List ℕ) → Option (List ℕ)
  walk zero state stack seen = none
  walk (suc fuel) state [] seen = some seen
  walk (suc fuel) state (id ∷ stack) seen =
      let next = visit state id stack seen in walk fuel state next.0 next.1

  unfoldable pub parent_count : List (ℕ × Entry K P) → ℕ
  parent_count [] = 0
  parent_count ((k, e) ∷ m) = length e.entry_data.parents + parent_count m

  unfoldable pub walk_fuel : JournalState K P → List ℕ → ℕ
  walk_fuel state targets = parent_count (state.overlay ++ state.base) + length targets + 1

  unfoldable pub check_targets : JournalState K P → List ℕ → Result {0} JournalError Unit
  check_targets state [] = ok tt
  check_targets state (target ∷ targets) = do
    entry ← known_entry target state
    check_targets state targets

  -- `none` where the fuel runs out.
  unfoldable pub causal_slice : JournalState K P → List ℕ → Result JournalError (Option (List ℕ))
  causal_slice state targets = do
    u ← check_targets state targets
    elim (walk (walk_fuel state targets) state (reverse targets) []) [
      | none ↦ ok none
      | some seen ↦ ok (some (keep_held seen (state.order ++ state.overlay_order)))
    ]

  -- `entries`, with their addresses.
  unfoldable pub entries : JournalState K P → List ℕ → List (ℕ × Entry K P)
  entries state [] = []
  entries state (id ∷ ids) =
      let rest = entries state ids in
      elim (get_entry id state) [ some entry ↦ (id, entry) ∷ rest | none ↦ rest ]

  unfoldable pub spread : List (ℕ × Entry K P) → List ℕ → List ℕ
  spread [] affected = affected
  spread ((k, entry) ∷ m) affected =
      spread m
        (if any_held affected entry.entry_data.parents then entry.id ∷ affected else affected)

  unfoldable pub forward_cone : JournalState K P → List ℕ → List ℕ
  forward_cone state sources =
      keep_held (spread (entries state (order_ids state)) sources) (order_ids state)

  unfoldable pub causal_slice_forward :
      JournalState K P → List ℕ → Result JournalError (Option (List ℕ))
  causal_slice_forward state targets = do
    backward ← causal_slice state targets
    elim backward [ none ↦ ok none | some ids ↦ causal_slice state (forward_cone state ids) ]

  unfoldable pub heads_of : List (ℕ × Entry K P) → List (ℕ × ℕ) → List (ℕ × ℕ)
  heads_of [] heads = heads
  heads_of ((id, entry) ∷ m) heads = heads_of m ((entry.entry_data.actor, id) ∷ heads)

  unfoldable pub addresses : List (ℕ × Entry K P) → List ℕ
  addresses [] = []
  addresses ((id, entry) ∷ m) = id ∷ addresses m

  unfoldable pub subgraph : JournalState K P → List ℕ → JournalState K P
  subgraph state hashes =
      let kept = entries state (keep_held hashes (order_ids state)) in
      record {
        base = kept;
        overlay = [];
        heads = heads_of kept [];
        order = addresses kept;
        overlay_order = [];
      }
