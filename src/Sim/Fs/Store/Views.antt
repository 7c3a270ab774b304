-- ===== src/Sim/Fs/Store/Views.antt =====
-- What the operations do to the two contents of each key.
use mathlib.Core.Path.{subst}
use Prim.Native.String.{String}
use ldgr.Prelude.{
  ℕ, ◌≡◌, refl, sym, ◌∙◌, ap, Bool, Option, none, some, List, [], ◌∷◌, arith, Result, ok, Post,
  Post-ok, Post-bind, if◌then◌else◌, Bool-cases, inl, inr,
}
use ldgr.Prelude.Bytes.{bytes_eq, le_bytes}
use ldgr.Journal.Dag.{EntryData}
use ldgr.Sim.Fs.{File}
use ldgr.Sim.Fs.Ranges.{byte_at}
use ldgr.Sim.Fs.Sound.{IsSound, IsSound?}
use ldgr.Sim.Fs.Store.{
  EntryKind, FsPayload, SimFs, Journal, find_file, insert_file, remove_file, file_or_new,
}
use ldgr.Sim.Fs.Store.Ops.{
  canonical_key, len_or_zero, write_bytes, append_tear, allocate, fsync, fsync_path, rename,
}
use ldgr.Sim.Fs.Store.Crash.{crash, apply_crash_operation}
use ldgr.Sim.Fs.Store.Invariant.{IsStore, find_file-IsSound}
use ldgr.Sim.Fs.Store.Effects.{
  Writes, write_bytes-Writes, allocate-effect, fsync-effect, fsync_path-effect, rename-effect,
}
use ldgr.Sim.Fs.Store.Reach.{
  Operation, put, tear, create, sync_all, sync_one, move, lose_unsynced, run,
}
use ldgr.Sim.Fs.Store.Model.{
  Views, view, views, update, cached, durable, size_of, no_file, with_window, synced, crashed,
  view-persist, view-written, views-insert_file, views-remove_file, views-persist_all,
  views-drop_all,
}

-- A write: the window of the key's content that is read is replaced.
abbrev pub written_view : List ℕ → (offset : ℕ) → List ℕ → Views → Views
written_view key offset [] v = v
written_view key offset (b ∷ content) v = update key (with_window offset (b ∷ content) (v key)) v

-- What each operation does to the contents of the keys.
unfoldable pub views_after : Operation → Views → Views
views_after (put actor path offset content) v = written_view (canonical_key path) offset content v
views_after (tear actor path value) v =
    written_view (canonical_key path) (size_of (v (canonical_key path)).0) (le_bytes 8 value) v
views_after (create actor path) v =
    update (canonical_key path)
      (some (record { size = 0; byte = λ x. 0 }), (v (canonical_key path)).1) v
views_after (sync_all actor) v = λ k. synced (v k)
views_after (sync_one actor path) v =
    update (canonical_key path) (synced (v (canonical_key path))) v
views_after (move actor from to) v =
    if bytes_eq (canonical_key from) (canonical_key to)
    then v
    else update (canonical_key to) (v (canonical_key from)) (update (canonical_key from) no_file v)
views_after lose_unsynced v = λ k. crashed (v k)

size_of-cached : (o : Option File) → len_or_zero o ≡ size_of (cached o)
unfolding len_or_zero
size_of-cached none = refl
size_of-cached (some file) = refl

pub views-Writes :
    (path : List ℕ) (offset : ℕ) (content : List ℕ) (fs : SimFs) (id : ℕ) (fs' : SimFs)
    → IsStore fs
    → Writes path offset content fs id fs'
    → views fs'.files ≡ written_view (canonical_key path) offset content (views fs.files)
views-Writes path offset [] fs id fs' s w = ap (λ (g : SimFs). views g.files) (w.no_bytes refl)
views-Writes path offset (b ∷ content) fs id fs' s w =
    let key = canonical_key path in
    ap (λ (g : SimFs). views g.files) (w.some_bytes (omega arith))
    ∙ views-insert_file key _ fs.files
    ∙ ap (λ w. update key w (views fs.files))
        (view-written id offset (b ∷ content) (find_file key fs.files)
          (find_file-IsSound key fs.files s.sound) (omega arith)
          (omega (arith, w.extent, s.extent)))

view-created :
    (id : ℕ) (o : Option File)
    → o ≡ none
    → view (some (file_or_new id none)) ≡ (some (record { size = 0; byte = λ x. 0 }), durable o)
unfolding file_or_new byte_at
view-created id o absent =
    ap (λ d. (some (record { size = 0; byte = λ x. 0 }), d)) (sym (ap durable absent))

views-moved :
    (from to : List ℕ) (file : File) (fs : SimFs)
    → find_file from fs.files ≡ some file
    → views
        (if bytes_eq from to
          then fs
          else record fs { files = insert_file to file (remove_file from fs.files) }).files
      ≡ (if bytes_eq from to
          then views fs.files
          else update to (views fs.files from) (update from no_file (views fs.files)))
views-moved from to file fs found = elim (Bool-cases (bytes_eq from to)) [
  | inl same ↦ rw same refl
  | inr other ↦ rw other (
      views-insert_file to file (remove_file from fs.files)
      ∙ ap (λ w. update to w (views (remove_file from fs.files))) (sym (ap view found))
      ∙ ap (update to (views fs.files from)) (views-remove_file from fs.files))
]

module _ (path_digest : List ℕ → List ℕ)
    (encode_data : EntryData EntryKind FsPayload → Result String (List ℕ)) (blake3 : List ℕ → ℕ)
    (shared : Bool) where
  run-views_after :
      (op : Operation) (fs : SimFs) (journal : Journal)
      → IsStore fs
      → Post
          (run path_digest encode_data blake3 shared op fs journal)
          (λ (fs', _). views fs'.files ≡ views_after op (views fs.files))
  unfolding run append_tear views_after crash apply_crash_operation
  run-views_after (put actor path offset content) fs journal s =
      Post-bind _ _
        (write_bytes path_digest encode_data blake3 shared actor path offset content fs journal) _
        (write_bytes-Writes path_digest encode_data blake3 shared actor path offset content fs
          journal)
        λ (id, fs', journal') w. views-Writes path offset content fs id fs' s w
  run-views_after (tear actor path value) fs journal s =
      let key = canonical_key path in
      Post-bind _ _ (append_tear path_digest encode_data blake3 shared actor path value fs journal)
        _
        (write_bytes-Writes path_digest encode_data blake3 shared actor path
          (len_or_zero (find_file (canonical_key path) fs.files)) (le_bytes 8 value) fs journal)
        λ (id, fs', journal') w.
          views-Writes path _ (le_bytes 8 value) fs id fs' s w
          ∙ ap (λ (n : ℕ). written_view key n (le_bytes 8 value) (views fs.files))
              (size_of-cached (find_file key fs.files))
  run-views_after (create actor path) fs journal s =
      let key = canonical_key path in
      Post-bind _ _ (allocate path_digest encode_data blake3 shared actor path fs journal) _
        (allocate-effect path_digest encode_data blake3 shared actor path fs journal)
        λ (id, fs', journal') (absent, done).
          ap (λ (g : SimFs). views g.files) done
          ∙ views-insert_file key _ fs.files
          ∙ ap (λ w. update key w (views fs.files))
              (view-created id (find_file key fs.files) absent)
  run-views_after (sync_all actor) fs journal s =
      Post-bind _ _ (fsync path_digest encode_data blake3 shared actor fs journal) _
        (fsync-effect path_digest encode_data blake3 shared actor fs journal)
        λ (id, fs', journal') done.
          ap (λ (g : SimFs). views g.files) done ∙ views-persist_all fs.files s.sound
  run-views_after (sync_one actor path) fs journal s =
      let key = canonical_key path in
      Post-bind _ _ (fsync_path path_digest encode_data blake3 shared actor path fs journal) _
        (fsync_path-effect path_digest encode_data blake3 shared actor path fs journal)
        λ (id, fs', journal') (file, found, done).
          let h : IsSound file = subst IsSound? found (find_file-IsSound key fs.files s.sound) in
          ap (λ (g : SimFs). views g.files) done
          ∙ views-insert_file key _ fs.files
          ∙ ap (λ w. update key w (views fs.files))
              (view-persist file h ∙ sym (ap (λ o. synced (view o)) found))
  run-views_after (move actor from to) fs journal s =
      Post-bind _ _ (rename path_digest encode_data blake3 shared actor from to fs journal) _
        (rename-effect path_digest encode_data blake3 shared actor from to fs journal)
        λ (id, fs', journal') (file, found, done).
          ap (λ (g : SimFs). views g.files) done
          ∙ views-moved (canonical_key from) (canonical_key to) file fs found
  run-views_after lose_unsynced fs journal s = views-drop_all fs.files s.ascends

  pub run_effect :
      (op : Operation) (fs : SimFs) (journal : Journal) {fs' : SimFs} {journal' : Journal}
      → IsStore fs
      → run path_digest encode_data blake3 shared op fs journal ≡ ok (fs', journal')
      → views fs'.files ≡ views_after op (views fs.files)
  run_effect op fs journal s e = Post-ok _ _ (run-views_after op fs journal s) e
