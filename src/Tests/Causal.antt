-- ===== src/Tests/Causal.antt =====
-- The properties of the journal on concrete inputs.
use Prim.Native.String.{String}
use ldgr.Prelude.{
  none, ℕ, ◌+◌, ◌*◌, ◌≡◌, ◌↔◌, refl, false, true, some, List, [], ◌∷◌, All, ◌==◌, if◌then◌else◌,
  Result, ok,
}
use ldgr.Cbor.Encode
use ldgr.Cbor.Encode.{unsigned, major}
use ldgr.Journal.Clock.{
  merge, merge_loop, is_empty, same_clock, get, insert, incremented, encode, encode_pairs,
}
use ldgr.Journal.Dag.{
  EntryData, Entry, JournalState, find, order_ids, holds, add_parent, add_parents, option_list,
  assemble_parents, new_journal, get_entry, known_entry, head_info, merge_parents, parents_clock,
  add_entry, new_entry, next_behind, next_entry, append, freeze_overlay, keys,
}
use ldgr.Journal.Dag.Parents.{IsCausal, Precedes}
use ldgr.Journal.Dag.Causal.{IsListed, none_some, append-IsCausal, append-get_entry}
use ldgr.Journal.Batch.{
  BatchEntry, append_batch, batch_loop, batch_entry, batch_head_info, batch_clock, batch_sequence,
  settle,
}
use ldgr.Journal.Batch.Agree.{Alike}
use ldgr.Journal.Batch.Loop.{append_each, append_batch-append_each}
use ldgr.Journal.Slice.{
  subgraph, causal_slice, check_targets, walk, walk_fuel, visit, parent_count, parents_of,
  keep_held,
}
use ldgr.Journal.Slice.Closed.{causal_slice-Ancestor}
use ldgr.Journal.Slice.Walk.{Ancestor}
use ldgr.Journal.Slice.Subgraph.{causal_slice-subgraph}

abbrev fields : EntryData ℕ ℕ → Result String (List ℕ)
fields d = ok (d.kind ∷ d.actor ∷ d.payload ∷ d.sequence ∷ d.parents)

abbrev checksum : List ℕ → ℕ
checksum [] = 7
checksum (b ∷ bs) = b + 3 * checksum bs

abbrev first_entry : Entry ℕ ℕ
first_entry = record {
  id = 30391;
  entry_data = record {
    format_version = 3;
    kind = 1;
    actor = 5;
    parents = [];
    vector_clock = [];
    sequence = 0;
    payload = 9;
  };
  clock = (5, 1) ∷ [];
}

abbrev one_entry : JournalState ℕ ℕ
one_entry = record {
  base = [];
  overlay = (30391, first_entry) ∷ [];
  heads = (5, 30391) ∷ [];
  order = [];
  overlay_order = 30391 ∷ [];
}

abbrev second_entry : Entry ℕ ℕ
second_entry = record {
  id = 2979317;
  entry_data = record {
    format_version = 3;
    kind = 2;
    actor = 6;
    parents = 30391 ∷ [];
    vector_clock = [];
    sequence = 0;
    payload = 4;
  };
  clock = (5, 1) ∷ (6, 1) ∷ [];
}

abbrev two_entries : JournalState ℕ ℕ
two_entries = record {
  base = [];
  overlay = (2979317, second_entry) ∷ (30391, first_entry) ∷ [];
  heads = (6, 2979317) ∷ (5, 30391) ∷ [];
  order = [];
  overlay_order = 30391 ∷ 2979317 ∷ [];
}

one_run : append fields checksum false 1 5 [] 9 new_journal ≡ ok (30391, one_entry)
unfolding append next_entry next_behind assemble_parents add_parents add_parent option_list holds
    find head_info known_entry get_entry parents_clock merge_parents merge merge_loop is_empty
    same_clock new_entry add_entry freeze_overlay keys incremented insert get encode encode_pairs
    Encode.map unsigned major new_journal
one_run = refl

two_run : append fields checksum false 2 6 (30391 ∷ []) 4 one_entry ≡ ok (2979317, two_entries)
unfolding append next_entry next_behind assemble_parents add_parents add_parent option_list holds
    find head_info known_entry get_entry parents_clock merge_parents merge merge_loop is_empty
    same_clock new_entry add_entry freeze_overlay keys incremented insert get encode encode_pairs
    Encode.map unsigned major new_journal
two_run = refl

one_entry-IsCausal : IsCausal one_entry × IsListed one_entry
unfolding get_entry find new_journal
one_entry-IsCausal =
    append-IsCausal fields checksum false 1 5 [] 9 new_journal one_entry 30391
      (λ id e h. absurd (none_some e h)) (λ id e h. absurd (none_some e h)) one_run refl

append-IsCausal_example : IsCausal two_entries × IsListed two_entries
unfolding get_entry find
append-IsCausal_example =
    append-IsCausal fields checksum false 2 6 (30391 ∷ []) 4 one_entry two_entries 2979317
      one_entry-IsCausal.0 one_entry-IsCausal.1 two_run refl

two_entries-IsCausal : IsCausal two_entries × IsListed two_entries
unfolding get_entry find
two_entries-IsCausal =
    append-IsCausal fields checksum false 2 6 (30391 ∷ []) 4 one_entry two_entries 2979317
      one_entry-IsCausal.0 one_entry-IsCausal.1 two_run refl

append-get_entry_example :
    (e : Entry ℕ ℕ) × (e.entry_data.kind ≡ 2)
    × (e.entry_data.actor ≡ 6)
    × (e.entry_data.payload ≡ 4)
    × (find 6 two_entries.heads ≡ some 2979317)
    × All (Precedes one_entry e.clock) e.entry_data.parents
    × ((k : ℕ) → get_entry k two_entries ≡ (if 2979317 == k then some e else get_entry k one_entry))
append-get_entry_example =
    append-get_entry fields checksum false 2 6 (30391 ∷ []) 4 one_entry two_entries 2979317
      one_entry-IsCausal.0 two_run

causal_slice-Ancestor_example :
    (ids : List ℕ) × (causal_slice two_entries (2979317 ∷ []) ≡ ok (some ids))
    × ((k : ℕ)
        → (holds k ids ≡ true)
          ↔ ((holds k (order_ids two_entries) ≡ true) × Ancestor two_entries (2979317 ∷ []) k))
unfolding get_entry find
causal_slice-Ancestor_example =
    causal_slice-Ancestor two_entries (2979317 ∷ []) ((second_entry, refl), tt)

causal_slice-subgraph_example :
    (ids : List ℕ) × (causal_slice two_entries (2979317 ∷ []) ≡ ok (some ids))
    × ((k : ℕ) (e : Entry ℕ ℕ)
        → (get_entry k (subgraph two_entries ids) ≡ some e)
          ↔ ((get_entry k two_entries ≡ some e) × Ancestor two_entries (2979317 ∷ []) k))
    × IsCausal (subgraph two_entries ids)
unfolding get_entry find
causal_slice-subgraph_example =
    causal_slice-subgraph two_entries (2979317 ∷ []) two_entries-IsCausal.0 two_entries-IsCausal.1
      ((second_entry, refl), tt)

-- The slice of the second entry holds the first, its parent.
slice_of_second : causal_slice two_entries (2979317 ∷ []) ≡ ok (some (30391 ∷ 2979317 ∷ []))
unfolding causal_slice check_targets known_entry get_entry find walk walk_fuel visit parent_count
    parents_of keep_held holds
slice_of_second = refl

-- A second entry of the first actor, and one of another that takes it as its last parent.
abbrev pair : List (BatchEntry ℕ ℕ)
pair =
    record { kind = 3; actor = 5; observed_parents = []; chain_previous = true; payload = 1 }
    ∷ record {
      kind = 2;
      actor = 6;
      observed_parents = 30391 ∷ [];
      chain_previous = true;
      payload = 4;
    }
    ∷ []

append_batch-append_each_example :
    Alike
      (append_batch fields checksum false pair one_entry)
      (append_each fields checksum true pair none [] one_entry)
append_batch-append_each_example =
    append_batch-append_each fields checksum false true pair one_entry

pair_ids : (append_batch fields checksum false pair one_entry).1 ≡ ok (2554794 ∷ 624836000 ∷ [])
unfolding append_batch batch_loop batch_entry batch_head_info batch_clock batch_sequence settle
    assemble_parents add_parents add_parent option_list holds find head_info known_entry get_entry
    parents_clock merge_parents merge merge_loop is_empty same_clock new_entry incremented insert
    get encode encode_pairs Encode.map unsigned major
pair_ids = refl
