-- ===== src/Journal/Batch.antt =====
-- crates/ledger-journal/src/dag.rs: appending a batch.
-- The state is returned beside the result, since the applied prefix of a batch stays where an entry is
-- refused. `append_batch` asks for no frames, so the loop makes none.
pub mod Agree
pub mod Loop
use Prim.Native.String.{String}
use ldgr.Prelude.{
  ℕ, ◌+◌, ◌-◌, ◌^◌, min, ◌>>=◌, Bool, Option, none, some, List, [], ◌∷◌, ◌++◌, leb, if◌then◌else◌,
  length, Result, ok, err,
}
use ldgr.Format.Frame
use ldgr.Journal.Clock.{VectorClock, incremented}
use ldgr.Journal.Dag.{
  JournalError, EntryData, Entry, JournalState, freeze_overlay, overlay_threshold, keys, inserted,
  find, known_entry, merge_parents, assemble_parents, new_entry,
}

pub record BatchEntry (K P : Type 0) : Type 0 where
  pub kind : K
  pub actor : ℕ
  pub observed_parents : List ℕ
  pub chain_previous : Bool
  pub payload : P

module _ {K P : Type 0} where
  -- The freeze behind the loop.
  unfoldable pub settle :
      Bool
      → JournalState K P × Result JournalError (List ℕ)
      → JournalState K P × Result JournalError (List ℕ)
  settle shared (state, err why) = (state, err why)
  settle shared (state, ok ids) = (
    if leb overlay_threshold (length (keys state.overlay))
        then freeze_overlay shared state
        else state,
    ok ids,
  )

unfoldable pub batch_sequence : Option (ℕ × VectorClock) → ℕ
batch_sequence none = 0
batch_sequence (some (previous, clock)) = min (previous + 1) (2 ^ 64 - 1)

module _ {K P : Type 0} where
  -- `head_info`: the sequence and the clock of the head.
  unfoldable pub batch_head_info :
      Option ℕ → JournalState K P → Result JournalError (Option (ℕ × VectorClock))
  batch_head_info none state = ok none
  batch_head_info (some head) state = do
    entry ← known_entry head state
    ok (some (entry.entry_data.sequence, entry.clock))

  unfoldable pub batch_clock :
      Option ℕ
      → Option (ℕ × VectorClock)
      → List ℕ
      → JournalState K P
      → Result JournalError VectorClock
  batch_clock previous_head info [] state = ok []
  batch_clock (some head) none (parent ∷ []) state = ok []
  batch_clock (some head) (some (sequence, clock)) (parent ∷ []) state = ok clock
  batch_clock none info (parent ∷ []) state = do entry ← known_entry parent state; ok entry.clock
  batch_clock previous_head info (p ∷ r ∷ parents) state = merge_parents state [] (p ∷ r ∷ parents)

module _ {K P : Type 0} (encode_data : EntryData K P → Result String (List ℕ))
    (blake3 : List ℕ → ℕ) where
  -- The new entry of one round, behind the head of its actor. The loop over several parents is that of
  -- `append`.
  unfoldable pub batch_entry :
      Option ℕ
      → BatchEntry K P
      → (chain : Option ℕ) → JournalState K P
      → Result JournalError (Entry K P)
  batch_entry previous_head spec chain state = do
    parents ← assemble_parents previous_head spec.observed_parents chain
    info ← batch_head_info previous_head state
    clock ← batch_clock previous_head info parents state
    new_entry encode_data blake3
        (record {
          format_version = Frame.format_version;
          kind = spec.kind;
          actor = spec.actor;
          parents = parents;
          vector_clock = [];
          sequence = batch_sequence info;
          payload = spec.payload;
        })
        (incremented clock spec.actor)

  -- The loop, where `last` is the last of `ids`.
  unfoldable pub batch_loop :
      List (BatchEntry K P)
      → (last : Option ℕ) → (ids : List ℕ) → JournalState K P
      → JournalState K P × Result JournalError (List ℕ)
  batch_loop [] last ids state = (state, ok ids)
  batch_loop (spec ∷ batch) last ids state =
      let chain = if spec.chain_previous then last else none in
      elim (batch_entry (find spec.actor state.heads) spec chain state) [
        | err why ↦ (state, err why)
        | ok entry ↦ batch_loop batch (some entry.id) (ids ++ entry.id ∷ []) (inserted entry state)
      ]

  unfoldable pub append_batch :
      Bool
      → List (BatchEntry K P)
      → JournalState K P
      → JournalState K P × Result JournalError (List ℕ)
  append_batch shared [] state = (state, ok [])
  append_batch shared (spec ∷ batch) state = settle shared (batch_loop (spec ∷ batch) none [] state)
