-- ===== src/Sim/Fs/Store/Reach.antt =====
-- The states that the operations lead to.
use Prim.Native.String.{String}
use ldgr.Prelude.{
  ℕ, ◌<◌, ◌≡◌, sym, Bool, Option, none, some, List, [], ◌∷◌, arith, ◌>>=◌, if◌then◌else◌, length,
  Result, ok, Post, Post-ok, Post-bind, ltb, Bool-cases, inl, inr,
}
use mathlib.Core.Path.{subst}
use ldgr.Prelude.Bytes.{bytes_eq, le_bytes}
use ldgr.Journal.Dag.{EntryData}
use ldgr.Sim.Fs.{File}
use ldgr.Sim.Fs.Sound.{IsSound, IsSound?, file_or_new-IsSound, written-IsSound, persist-IsSound}
use ldgr.Sim.Fs.Store.{
  SimFsError, EntryKind, FsPayload, CrashOperation, drop_all_unsynced, SimFs, Journal, with_budgets,
  new, find_file, insert_file, remove_file, file_or_new,
}
use ldgr.Sim.Fs.Store.Ops.{
  canonical_key, len_or_zero, write_bytes, append_tear, allocate, fsync, fsync_path, rename,
}
use ldgr.Sim.Fs.Store.Crash.{apply_crash_operation, crash}
use ldgr.Sim.Fs.Store.Files.{insert_file-Ascends, remove_file-Ascends}
use ldgr.Sim.Fs.Store.Invariant.{
  IsStore, find_file-IsSound, insert_file-AllSound, remove_file-AllSound, persist_all-Ascends,
  persist_all-AllSound, apply_crash_operation-IsStore,
}
use ldgr.Sim.Fs.Store.Effects.{
  Writes, write_bytes-Writes, allocate-effect, fsync-effect, fsync_path-effect, rename-effect,
}

-- The operations of the store, each with the actor that calls it.
pub data Operation : Type 0 where
  put : ℕ → (path : List ℕ) → (offset : ℕ) → (content : List ℕ) → Operation
  tear : ℕ → (path : List ℕ) → (value : ℕ) → Operation
  create : ℕ → (path : List ℕ) → Operation
  sync_all : ℕ → Operation
  sync_one : ℕ → (path : List ℕ) → Operation
  move : ℕ → (from to : List ℕ) → Operation
  lose_unsynced : Operation

with_budgets-IsStore :
    (max_file_extent : ℕ) (max_resident_bytes : Option ℕ)
    → IsStore (with_budgets max_file_extent max_resident_bytes)
unfolding with_budgets
with_budgets-IsStore max_file_extent max_resident_bytes = record {
  ascends = tt;
  sound = tt;
  extent = omega arith;
}

new-IsStore : IsStore new
unfolding new
new-IsStore = record { ascends = tt; sound = tt; extent = omega arith }

file_or_new-IsSound? : (id : ℕ) (o : Option File) → IsSound? o → IsSound (file_or_new id o)
unfolding file_or_new
file_or_new-IsSound? id none h = file_or_new-IsSound id
file_or_new-IsSound? id (some file) h = h

insert-IsStore :
    (key : List ℕ) (file : File) (fs : SimFs)
    → IsStore fs
    → IsSound file
    → IsStore (record fs { files = insert_file key file fs.files })
insert-IsStore key file fs s h = record {
  ascends = insert_file-Ascends key file fs.files s.ascends;
  sound = insert_file-AllSound key file fs.files s.sound h;
  extent = s.extent;
}

moved-IsStore :
    (from to : List ℕ) (file : File) (fs : SimFs)
    → IsStore fs
    → IsSound file
    → IsStore (
        if bytes_eq from to
        then fs
        else record fs { files = insert_file to file (remove_file from fs.files) })
moved-IsStore from to file fs s h = elim (Bool-cases (bytes_eq from to)) [
  | inl same ↦ rw same s
  | inr other ↦ rw other (
      insert-IsStore to file _
        (record {
          ascends = remove_file-Ascends from fs.files s.ascends;
          sound = remove_file-AllSound from fs.files s.sound;
          extent = s.extent;
        })
        h)
]

pub Writes-IsStore :
    (path : List ℕ) (offset : ℕ) (content : List ℕ) (fs : SimFs) (id : ℕ) (fs' : SimFs)
    → IsStore fs
    → Writes path offset content fs id fs'
    → IsStore fs'
Writes-IsStore path offset content fs id fs' s w = elim (Bool-cases (ltb 0 (length content))) [
  | inl some_bytes ↦
      let h : 0 < length content = ground (arith, some_bytes) in
      let old =
        file_or_new-IsSound? id (find_file (canonical_key path) fs.files)
          (find_file-IsSound (canonical_key path) fs.files s.sound) in
      subst IsStore (sym (w.some_bytes h)) (
        insert-IsStore (canonical_key path) _ fs s
          (written-IsSound id offset content _ old h (omega (arith, w.extent, s.extent))))
  | inr no_bytes ↦ subst IsStore (sym (w.no_bytes (ground (arith, no_bytes)))) s
]

module _ (path_digest : List ℕ → List ℕ)
    (encode_data : EntryData EntryKind FsPayload → Result String (List ℕ)) (blake3 : List ℕ → ℕ)
    (shared : Bool) where
  -- The store and the journal after an operation that succeeds.
  unfoldable pub run : Operation → SimFs → Journal → Result SimFsError (SimFs × Journal)
  run (put actor path offset content) fs journal = do
    (id, fs', journal') ←
        write_bytes path_digest encode_data blake3 shared actor path offset content fs journal
    ok (fs', journal')
  run (tear actor path value) fs journal = do
    (id, fs', journal') ←
        append_tear path_digest encode_data blake3 shared actor path value fs journal
    ok (fs', journal')
  run (create actor path) fs journal = do
    (id, fs', journal') ← allocate path_digest encode_data blake3 shared actor path fs journal
    ok (fs', journal')
  run (sync_all actor) fs journal = do
    (id, fs', journal') ← fsync path_digest encode_data blake3 shared actor fs journal
    ok (fs', journal')
  run (sync_one actor path) fs journal = do
    (id, fs', journal') ← fsync_path path_digest encode_data blake3 shared actor path fs journal
    ok (fs', journal')
  run (move actor from to) fs journal = do
    (id, fs', journal') ← rename path_digest encode_data blake3 shared actor from to fs journal
    ok (fs', journal')
  run lose_unsynced fs journal = ok (crash fs, journal)

  unfoldable pub run_all : List Operation → SimFs → Journal → Result SimFsError (SimFs × Journal)
  run_all [] fs journal = ok (fs, journal)
  run_all (op ∷ ops) fs journal = do (fs', journal') ← run op fs journal; run_all ops fs' journal'

  pub run-IsStore :
      (op : Operation) (fs : SimFs) (journal : Journal)
      → IsStore fs
      → Post (run op fs journal) (λ (fs', _). IsStore fs')
  unfolding run append_tear crash apply_crash_operation
  run-IsStore (put actor path offset content) fs journal s =
      Post-bind _ _
        (write_bytes path_digest encode_data blake3 shared actor path offset content fs journal) _
        (write_bytes-Writes path_digest encode_data blake3 shared actor path offset content fs
          journal)
        λ (id, fs', journal') w. Writes-IsStore path offset content fs id fs' s w
  run-IsStore (tear actor path value) fs journal s =
      Post-bind _ _ (append_tear path_digest encode_data blake3 shared actor path value fs journal)
        _
        (write_bytes-Writes path_digest encode_data blake3 shared actor path
          (len_or_zero (find_file (canonical_key path) fs.files)) (le_bytes 8 value) fs journal)
        λ (id, fs', journal') w. Writes-IsStore path _ (le_bytes 8 value) fs id fs' s w
  run-IsStore (create actor path) fs journal s =
      Post-bind _ _ (allocate path_digest encode_data blake3 shared actor path fs journal) _
        (allocate-effect path_digest encode_data blake3 shared actor path fs journal)
        λ (id, fs', journal') (_, done).
          subst IsStore (sym done)
            (insert-IsStore (canonical_key path) _ fs s (file_or_new-IsSound id))
  run-IsStore (sync_all actor) fs journal s =
      Post-bind _ _ (fsync path_digest encode_data blake3 shared actor fs journal) _
        (fsync-effect path_digest encode_data blake3 shared actor fs journal)
        λ (id, fs', journal') done. subst IsStore (sym done) (record {
          ascends = persist_all-Ascends fs.files s.ascends;
          sound = persist_all-AllSound fs.files s.sound;
          extent = s.extent;
        })
  run-IsStore (sync_one actor path) fs journal s =
      Post-bind _ _ (fsync_path path_digest encode_data blake3 shared actor path fs journal) _
        (fsync_path-effect path_digest encode_data blake3 shared actor path fs journal)
        λ (id, fs', journal') (file, found, done).
          let h : IsSound file =
            subst IsSound? found (find_file-IsSound (canonical_key path) fs.files s.sound) in
          subst IsStore (sym done)
            (insert-IsStore (canonical_key path) _ fs s (persist-IsSound file h))
  run-IsStore (move actor from to) fs journal s =
      Post-bind _ _ (rename path_digest encode_data blake3 shared actor from to fs journal) _
        (rename-effect path_digest encode_data blake3 shared actor from to fs journal)
        λ (id, fs', journal') (file, found, done).
          let h : IsSound file =
            subst IsSound? found (find_file-IsSound (canonical_key from) fs.files s.sound) in
          subst IsStore (sym done)
            (moved-IsStore (canonical_key from) (canonical_key to) file fs s h)
  run-IsStore lose_unsynced fs journal s = apply_crash_operation-IsStore drop_all_unsynced fs s

  -- The stores that operations and crashes that succeed lead to, over any journal.
  pub data Reachable : SimFs → Type 0 where
    start : Reachable new
    budgets :
        (max_file_extent : ℕ) (max_resident_bytes : Option ℕ)
        → Reachable (with_budgets max_file_extent max_resident_bytes)
    after :
        (op : Operation) (fs : SimFs) (journal : Journal) (fs' : SimFs) (journal' : Journal)
        → Reachable fs
        → run op fs journal ≡ ok (fs', journal')
        → Reachable fs'
    after_crash :
        (op : CrashOperation) (fs fs' : SimFs)
        → Reachable fs
        → apply_crash_operation op fs ≡ ok fs'
        → Reachable fs'

  -- In every store that operations and crash operations that succeed lead to, the table has ascending
  -- keys, the extent limit is at most the hard one, and for every file the ranges stand apart, the length
  -- is the end of the last cached range, and no range, cached or durable, ends beyond the hard limit.
  pub Reachable-IsStore : (fs : SimFs) → Reachable fs → IsStore fs
  Reachable-IsStore _ start = new-IsStore
  Reachable-IsStore _ (budgets max_file_extent max_resident_bytes) =
      with_budgets-IsStore max_file_extent max_resident_bytes
  Reachable-IsStore _ (after op fs journal fs' journal' r e) =
      Post-ok _ _ (run-IsStore op fs journal (Reachable-IsStore fs r)) e
  Reachable-IsStore _ (after_crash op fs fs' r e) =
      Post-ok IsStore _ (apply_crash_operation-IsStore op fs (Reachable-IsStore fs r)) e
