-- ===== src/Journal/Dag.antt =====
-- crates/ledger-journal/src/dag.rs: the content-addressed journal and its append.
-- A hash is its number, and the type of kinds and that of payloads are parameters, as are the canonical
-- encoding of the entry data (crates/ledger-format/src/entry.rs) and BLAKE3. A hash map is an
-- association list whose first binding of a key counts. `Arc` sharing shows only in `freeze_overlay`,
-- which takes whether the base is shared.
pub mod Parents
pub mod Lookup
pub mod Causal
use Prim.Native.String.{String}
use ldgr.Prelude.{
  ℕ, zero, suc, ◌+◌, ◌-◌, ◌^◌, min, Bool, true, false, Option, none, some, List, [], ◌∷◌, ◌++◌, leb,
  ◌==◌, if◌then◌else◌, length, Result, ok, err, ◌>>=◌,
}
use ldgr.Format.Frame
use ldgr.Journal.Clock.{VectorClock, merge, incremented, encode}

abbrev pub max_parents_per_entry : ℕ
max_parents_per_entry = 4096

abbrev pub overlay_threshold : ℕ
overlay_threshold = 1024

pub data JournalError : Type 0 where
  missing_parent : ℕ → JournalError
  non_monotonic_sequence : (actor expected actual : ℕ) → JournalError
  invariant_violation : String → JournalError
  invalid_payload : String → JournalError
  segment_corrupt : String → JournalError
  snapshot_hash_mismatch : JournalError
  snapshot_store_error : String → JournalError
  archive_hash_mismatch : JournalError

pub record EntryData (K P : Type 0) : Type 0 where
  pub format_version : ℕ
  pub kind : K
  pub actor : ℕ
  pub parents : List ℕ
  pub vector_clock : List ℕ
  pub sequence : ℕ
  pub payload : P

pub record Entry (K P : Type 0) : Type 0 where
  pub id : ℕ
  pub entry_data : EntryData K P
  pub clock : VectorClock

pub record JournalState (K P : Type 0) : Type 0 where
  pub base : List (ℕ × Entry K P)
  pub overlay : List (ℕ × Entry K P)
  pub heads : List (ℕ × ℕ)
  pub order : List ℕ
  pub overlay_order : List ℕ

-- `get` of a hash map.
unfoldable pub find : {A : Type 0} → ℕ → List (ℕ × A) → Option A
find k [] = none
find k ((j, a) ∷ m) = if j == k then some a else find k m

unfoldable pub holds : ℕ → List ℕ → Bool
holds k [] = false
holds k (j ∷ js) = if j == k then true else holds k js

-- One parent, where the set `seen` of the source holds what `parents` lists.
unfoldable pub add_parent : List ℕ → ℕ → Result JournalError (List ℕ)
add_parent parents parent =
    if holds parent parents
    then ok parents
    else if leb max_parents_per_entry (length parents)
    then err (invalid_payload "parent count exceeds format limit")
    else ok (parents ++ parent ∷ [])

unfoldable pub add_parents : List ℕ → List ℕ → Result JournalError (List ℕ)
add_parents parents [] = ok parents
add_parents parents (parent ∷ observed) = do
  parents' ← add_parent parents parent
  add_parents parents' observed

unfoldable pub option_list : Option ℕ → List ℕ
option_list none = []
option_list (some a) = a ∷ []

unfoldable pub assemble_parents : Option ℕ → List ℕ → Option ℕ → Result JournalError (List ℕ)
assemble_parents head observed chain = do
  parents ← add_parents (option_list head) observed
  add_parents parents (option_list chain)

module _ {K P : Type 0} where
  unfoldable pub new_journal : JournalState K P
  new_journal = record { base = []; overlay = []; heads = []; order = []; overlay_order = [] }

  -- `self.base_order()` with the overlay's behind it.
  abbrev pub order_ids : JournalState K P → List ℕ
  order_ids state = state.order ++ state.overlay_order

  -- The overlay before the base.
  unfoldable pub get_entry : ℕ → JournalState K P → Option (Entry K P)
  get_entry id state = elim (find id state.overlay) [
    | some entry ↦ some entry
    | none ↦ find id state.base
  ]

  -- `.ok_or(JournalError::MissingParent(id))`
  unfoldable pub known_entry : ℕ → JournalState K P → Result JournalError (Entry K P)
  known_entry id state = elim (get_entry id state) [
    | some entry ↦ ok entry
    | none ↦ err (missing_parent id)
  ]

  unfoldable pub freeze_overlay : Bool → JournalState K P → JournalState K P
  freeze_overlay shared state = if shared then state else record state {
    base = state.overlay ++ state.base;
    overlay = [];
    order = state.order ++ state.overlay_order;
    overlay_order = [];
  }

  -- The sequence number behind the head, and the head's entry.
  unfoldable pub head_info :
      Option ℕ → JournalState K P → Result JournalError (ℕ × Option (Entry K P))
  head_info none state = ok (0, none)
  head_info (some head) state = do
    entry ← known_entry head state
    ok (min (entry.entry_data.sequence + 1) (2 ^ 64 - 1), some entry)

  unfoldable pub merge_parents :
      JournalState K P → VectorClock → List ℕ → Result JournalError VectorClock
  merge_parents state clock [] = ok clock
  merge_parents state clock (parent ∷ parents) = do
    entry ← known_entry parent state
    merge_parents state (merge clock entry.clock) parents

  -- The clock of the parents: the only one's, or the merge of them all.
  unfoldable pub parents_clock :
      JournalState K P → Option (Entry K P) → List ℕ → Result JournalError VectorClock
  parents_clock state head_entry [] = ok []
  parents_clock state (some entry) (parent ∷ []) = ok entry.clock
  parents_clock state none (parent ∷ []) = do entry ← known_entry parent state; ok entry.clock
  parents_clock state head_entry (p ∷ r ∷ parents) = merge_parents state [] (p ∷ r ∷ parents)

  -- `overlay.len()`: how many keys the map has.
  unfoldable pub keys : List (ℕ × Entry K P) → List ℕ
  keys [] = []
  keys ((k, e) ∷ m) = let rest = keys m in if holds k rest then rest else k ∷ rest

  abbrev pub inserted : Entry K P → JournalState K P → JournalState K P
  inserted entry state = record state {
    overlay = (entry.id, entry) ∷ state.overlay;
    overlay_order = state.overlay_order ++ entry.id ∷ [];
    heads = (entry.entry_data.actor, entry.id) ∷ state.heads;
  }

  -- The tail of `append`, with the new entry.
  unfoldable pub add_entry : Bool → Entry K P → JournalState K P → JournalState K P
  add_entry shared entry state =
      let state' = inserted entry state in
      if leb overlay_threshold (length (keys state'.overlay))
      then freeze_overlay shared state'
      else state'

  module _ (encode_data : EntryData K P → Result String (List ℕ)) (blake3 : List ℕ → ℕ) where
    -- `Entry::new_with_scratch`
    unfoldable pub new_entry : EntryData K P → VectorClock → Result JournalError (Entry K P)
    new_entry data' clock = elim (encode_data data') [
      | err message ↦ err (invalid_payload message)
      | ok encoded ↦
          ok (record { id = blake3 (encoded ++ encode clock); entry_data = data'; clock = clock })
    ]

    -- The new entry behind a head. The loop of `append_batch_impl` writes the same steps out, with the
    -- chained parent.
    unfoldable pub next_behind :
        Option ℕ
        → K
        → ℕ
        → List ℕ
        → Option ℕ
        → P
        → JournalState K P
        → Result JournalError (Entry K P)
    next_behind previous_head kind actor observed chain payload state = do
      parents ← assemble_parents previous_head observed chain
      (sequence, head_entry) ← head_info previous_head state
      clock ← parents_clock state head_entry parents
      new_entry
          (record {
            format_version = Frame.format_version;
            kind = kind;
            actor = actor;
            parents = parents;
            vector_clock = [];
            sequence = sequence;
            payload = payload;
          })
          (incremented clock actor)

    unfoldable pub next_entry :
        K → ℕ → List ℕ → Option ℕ → P → JournalState K P → Result JournalError (Entry K P)
    next_entry kind actor observed chain payload state =
        next_behind (find actor state.heads) kind actor observed chain payload state

    -- `shared` is whether another journal holds the base, should it be frozen.
    unfoldable pub append :
        Bool → K → ℕ → List ℕ → P → JournalState K P → Result JournalError (ℕ × JournalState K P)
    append shared kind actor observed payload state = do
      entry ← next_entry kind actor observed none payload state
      ok (entry.id, add_entry shared entry state)
