-- ===== src/Tests/Storage.antt =====
-- The properties of the simulated storage on concrete inputs.
use Prim.Native.String.{String}
use ldgr.Prelude.{ℕ, ◌+◌, ◌*◌, ◌≡◌, refl, false, true, List, [], ◌∷◌, arith, All, Result, ok, err}
use ldgr.Prelude.Bytes.{bytes_eq, le_bytes}
use ldgr.Cbor.{compare_bytes}
use ldgr.Cbor.Encode
use ldgr.Cbor.Encode.{unsigned, major}
use ldgr.Explorer.HittingSet.{collect, insert_hash}
use ldgr.Cbor.Text.{is_utf8}
use ldgr.Format.FilePath.{
  has_nul, cons_head, split, pop, enter, resolve, join_more, join, render, canonicalize,
}
use ldgr.Journal.Clock.{merge, get, insert, incremented, encode, encode_pairs}
use ldgr.Journal.Dag.{
  EntryData, find, holds, add_parent, add_parents, option_list, assemble_parents, new_journal,
  get_entry, known_entry, head_info, merge_parents, parents_clock, add_entry, new_entry,
  next_behind, next_entry, append, freeze_overlay, keys,
}
use ldgr.Sim.Fs.{
  persist, max_end, recompute_length, drop_unsynced, insert_range, persist_range, affected, pieces,
  splits, unaffected, insert_all, replace_window, read_window, read_loop, zeros,
}
use ldgr.Sim.Fs.Store.{
  SimFsError, EntryKind, ObservedRead, missing, present, FsPayload, SimFs, Journal, new, find_file,
  insert_file, remove_file, charge_resident, is_some, file_or_new, written,
}
use ldgr.Sim.Fs.Store.Ops.{
  canonical_path, canonical_key, persist_all, len_or_zero, lift, path_ref, record_entry,
  write_bytes, allocate, rename, read_bytes, reading_parents, record_read, fsync, append_tear,
}
use ldgr.Sim.Fs.Store.Crash.{drop_all, crash, apply_crash_operation}
use ldgr.Sim.Fs.Store.Invariant.{IsStore}
use ldgr.Sim.Fs.Store.Reach.{
  Operation, put, tear, create, sync_all, move, lose_unsynced, run, run_all, start, after,
  Reachable-IsStore,
}
use ldgr.Sim.Fs.Store.Model.{views, update, no_file, synced, crashed}
use ldgr.Sim.Fs.Store.Refines.{Promised, run-refines, crash-rename}
use ldgr.Sim.Fs.Store.Durable.{is_volatile, crash-fsync}
use ldgr.Sim.Fs.Store.Contents.{read_of, read_bytes-refines, read_bytes-write_bytes}

abbrev digest : List ℕ → List ℕ
digest path = path

abbrev fields : EntryData EntryKind FsPayload → Result String (List ℕ)
fields d = ok (d.actor ∷ d.sequence ∷ d.parents)

abbrev checksum : List ℕ → ℕ
checksum [] = 7
checksum (b ∷ bs) = b + 3 * checksum bs

abbrev name : List ℕ
name = b'/' ∷ b'a' ∷ []

abbrev outcome : Result SimFsError (SimFs × Journal) → SimFs × Journal
outcome (ok r) = r
outcome (err why) = (new, new_journal)

abbrev the_put : Result SimFsError (SimFs × Journal)
the_put = run digest fields checksum false (put 1 name 2 (5 ∷ 6 ∷ [])) new new_journal

abbrev written_to : SimFs × Journal
written_to = outcome the_put

-- A write over the end of what is there.
abbrev the_second : Result SimFsError (SimFs × Journal)
the_second = run digest fields checksum false (put 1 name 3 (7 ∷ 8 ∷ [])) written_to.0 written_to.1

abbrev the_sync : Result SimFsError (SimFs × Journal)
the_sync = run digest fields checksum false (sync_all 2) written_to.0 written_to.1

abbrev other : List ℕ
other = b'/' ∷ b'b' ∷ []

abbrev later_calls : List Operation
later_calls = put 1 name 3 (7 ∷ 8 ∷ []) ∷ create 1 other ∷ tear 2 name 500 ∷ []

abbrev the_rest : Result SimFsError (SimFs × Journal)
the_rest =
    run_all digest fields checksum false later_calls (outcome the_sync).0 (outcome the_sync).1

abbrev the_crash : Result SimFsError (SimFs × Journal)
the_crash = run digest fields checksum false lose_unsynced (outcome the_rest).0 (outcome the_rest).1

-- The synced file is renamed, and the store crashes.
abbrev the_move : Result SimFsError (SimFs × Journal)
the_move =
    run digest fields checksum false (move 1 name other) (outcome the_sync).0 (outcome the_sync).1

abbrev the_loss : Result SimFsError (SimFs × Journal)
the_loss = run digest fields checksum false lose_unsynced (outcome the_move).0 (outcome the_move).1

abbrev seen : Result SimFsError (ObservedRead × Journal) → ObservedRead × Journal
seen (ok r) = r
seen (err why) = (missing, new_journal)

abbrev the_read : (offset requested_len : ℕ) → Result SimFsError (ObservedRead × Journal)
the_read offset requested_len =
    read_bytes digest fields checksum false 3 name offset requested_len written_to.0 written_to.1

abbrev the_write : Result SimFsError (ℕ × SimFs × Journal)
the_write = write_bytes digest fields checksum false 1 name 2 (5 ∷ 6 ∷ []) new new_journal

abbrev stored : Result SimFsError (ℕ × SimFs × Journal) → ℕ × SimFs × Journal
stored (ok r) = r
stored (err why) = (0, new, new_journal)

abbrev read_back : Result SimFsError (ObservedRead × Journal)
read_back =
    read_bytes digest fields checksum false 3 name 2 2 (stored the_write).1 (stored the_write).2

calls_succeed :
    (the_put ≡ ok written_to)
    × (the_second ≡ ok (outcome the_second))
    × (the_sync ≡ ok (outcome the_sync))
    × (the_rest ≡ ok (outcome the_rest))
    × (the_crash ≡ ok (outcome the_crash))
    × (the_read 1 9 ≡ ok (present (0 ∷ 5 ∷ 6 ∷ []), (seen (the_read 1 9)).1))
    × (the_write ≡ ok (stored the_write))
    × (read_back ≡ ok (seen read_back))
    × (the_move ≡ ok (outcome the_move))
    × (the_loss ≡ ok (outcome the_loss))
unfolding rename remove_file run new new_journal write_bytes append_tear allocate fsync read_bytes
    reading_parents record_read collect insert_hash crash apply_crash_operation drop_all
    drop_unsynced persist_all persist persist_range recompute_length max_end len_or_zero find_file
    insert_file charge_resident is_some file_or_new written canonical_path canonical_key lift
    path_ref record_entry append next_entry next_behind assemble_parents add_parents add_parent
    option_list holds find head_info known_entry get_entry parents_clock merge_parents merge
    new_entry add_entry freeze_overlay keys incremented insert get encode encode_pairs Encode.map
    unsigned major canonicalize has_nul cons_head split pop enter resolve join_more join render
    is_utf8 replace_window insert_all splits unaffected affected pieces insert_range bytes_eq
    compare_bytes le_bytes read_window read_loop zeros run_all
calls_succeed = (refl, refl, refl, refl, refl, refl, refl, refl, refl, refl)

new-IsStore : IsStore new
new-IsStore = Reachable-IsStore digest fields checksum false new start

Reachable-IsStore_example : IsStore written_to.0
Reachable-IsStore_example = Reachable-IsStore digest fields checksum false written_to.0 (
    after (put 1 name 2 (5 ∷ 6 ∷ [])) new new_journal written_to.0 written_to.1 start
      calls_succeed.0)

written_to-IsStore : IsStore written_to.0
written_to-IsStore = Reachable-IsStore digest fields checksum false written_to.0 (
    after (put 1 name 2 (5 ∷ 6 ∷ [])) new new_journal written_to.0 written_to.1 start
      calls_succeed.0)

run-refines_example :
    Promised
      (put 1 name 3 (7 ∷ 8 ∷ []))
      (views written_to.0.files)
      (views (outcome the_second).0.files)
run-refines_example =
    run-refines digest fields checksum false (put 1 name 3 (7 ∷ 8 ∷ [])) written_to.0 written_to.1
      written_to-IsStore calls_succeed.1

later_calls-volatile : All (λ op. is_volatile op ≡ true) later_calls
unfolding is_volatile
later_calls-volatile = (refl, (refl, (refl, tt)))

crash-fsync_example : views (outcome the_crash).0.files ≡ (λ k. synced (views written_to.0.files k))
crash-fsync_example =
    crash-fsync digest fields checksum false 2 later_calls written_to.0 written_to.1
      written_to-IsStore calls_succeed.2 later_calls-volatile calls_succeed.3 calls_succeed.4

read_bytes-refines_example :
    present (0 ∷ 5 ∷ 6 ∷ []) ≡ read_of 1 9 (views written_to.0.files (canonical_key name)).0
read_bytes-refines_example =
    read_bytes-refines digest fields checksum false 3 name 1 9 written_to.0 written_to.1
      written_to-IsStore (omega arith) calls_succeed.5

read_bytes-write_bytes_example : (seen read_back).0 ≡ present (5 ∷ 6 ∷ [])
read_bytes-write_bytes_example =
    read_bytes-write_bytes digest fields checksum false 1 3 name 2 5 (6 ∷ []) new new_journal
      (stored the_write).2 new-IsStore calls_succeed.6 calls_succeed.7

the_sync-IsStore : IsStore (outcome the_sync).0
the_sync-IsStore = Reachable-IsStore digest fields checksum false (outcome the_sync).0 (
    after (sync_all 2) written_to.0 written_to.1 (outcome the_sync).0 (outcome the_sync).1
      (after (put 1 name 2 (5 ∷ 6 ∷ [])) new new_journal written_to.0 written_to.1 start
        calls_succeed.0)
      calls_succeed.2)

names-apart : bytes_eq (canonical_key name) (canonical_key other) ≡ false
unfolding canonical_key canonical_path canonicalize has_nul cons_head split pop enter resolve
    join_more join render is_utf8 bytes_eq
names-apart = refl

crash-rename_example :
    views (outcome the_loss).0.files
    ≡ update
        (canonical_key other)
        (crashed (views (outcome the_sync).0.files (canonical_key name)))
        (update (canonical_key name) no_file (λ k. crashed (views (outcome the_sync).0.files k)))
crash-rename_example =
    crash-rename digest fields checksum false 1 name other (outcome the_sync).0 (outcome the_sync).1
      the_sync-IsStore names-apart calls_succeed.8 calls_succeed.9
