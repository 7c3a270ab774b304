-- ===== src/Sim/Fs/Store/Ops.antt =====
-- crates/ledger-sim/src/simfs.rs: the operations that append to the journal.
-- `fsync` returns the journal's own error, which is wrapped here as those of the other operations are.
-- The encoding and the hashes of the journal are parameters, as is the digest of a path. An operation
-- that fails changes nothing. The scalar forms `write` and `read` are left out.
use Prim.Native.String.{String}
use ldgr.Prelude.{
  ℕ, ◌+◌, ◌-◌, ◌^◌, Bool, true, ◌||◌, not, Option, none, some, List, [], ◌∷◌, ◌++◌, ltb, ◌==◌,
  if◌then◌else◌, length, Result, ok, err, ◌>>=◌,
}
use ldgr.Prelude.Bytes.{bytes_eq, le_bytes}
use ldgr.Cbor.Text.{is_utf8}
use ldgr.Explorer.HittingSet.{collect}
use ldgr.Format.FilePath.{canonicalize, PathRef}
use ldgr.Journal.Dag.{JournalError, EntryData, append}
use ldgr.Sim.Fs.{File, Reading, persist, read_window}
use ldgr.Sim.Fs.Store.{
  SimFsError, already_exists, not_found, write_too_large, read_too_large, file_extent_too_large,
  EntryKind, ObservedRead, FsPayload, Files, SimFs, Journal, max_write_bytes, max_read_bytes,
  find_file, insert_file, remove_file, charge_resident, is_some, file_or_new, written,
}

-- `ldgr.fs.path.v2\0`
abbrev pub path_domain : List ℕ
path_domain =
    b'l' ∷ b'd' ∷ b'g' ∷ b'r' ∷ b'.' ∷ b'f' ∷ b's' ∷ b'.' ∷ b'p' ∷ b'a' ∷ b't' ∷ b'h' ∷ b'.' ∷ b'v'
    ∷ b'2' ∷ 0 ∷ []

unfoldable pub canonical_path : List ℕ → List ℕ
canonical_path path = elim (canonicalize path) [ ok canonical ↦ canonical | err why ↦ path ]

-- The key of a path in the table.
unfoldable pub canonical_key : List ℕ → List ℕ
unfolding canonical_path
canonical_key path = if is_utf8 (canonical_path path) then canonical_path path else path

unfoldable pub persist_all : Files → Files
persist_all [] = []
persist_all ((k, f) ∷ files) = (k, persist f) ∷ persist_all files

unfoldable pub len_or_zero : Option File → ℕ
len_or_zero none = 0
len_or_zero (some file) = file.len

-- `?` on a result of the journal.
unfoldable pub lift {ℓ} : {A : Type ℓ} → Result JournalError A → Result SimFsError A
lift (ok a) = ok a
lift (err why) = err (SimFsError.journal why)

module _ (path_digest : List ℕ → List ℕ)
    (encode_data : EntryData EntryKind FsPayload → Result String (List ℕ)) (blake3 : List ℕ → ℕ)
    (shared : Bool) where
  unfoldable pub path_ref : List ℕ → PathRef
  path_ref path = record {
    path_hash = path_digest (path_domain ++ canonical_path path);
    canonical_path = canonical_path path;
  }

  unfoldable pub record_entry :
      EntryKind → ℕ → List ℕ → FsPayload → Journal → Result SimFsError (ℕ × Journal)
  record_entry kind actor parents payload journal =
      lift (append encode_data blake3 shared kind actor parents payload journal)

  unfoldable pub write_bytes :
      ℕ
      → (path : List ℕ) → (offset : ℕ) → (content : List ℕ) → SimFs
      → Journal
      → Result SimFsError (ℕ × SimFs × Journal)
  write_bytes actor path offset content fs journal =
      let len = length content in
      let end' = offset + len in
      let key = canonical_key path in
      let old = find_file key fs.files in
      let exists = is_some old in
      if ltb max_write_bytes len
      then err (write_too_large len max_write_bytes)
      else if ltb (2 ^ 64 - 1) end' || ltb fs.max_file_extent end'
      then err (file_extent_too_large fs.max_file_extent)
      else (do
        u ← charge_resident len (not exists || ltb 0 len) (not exists) fs
        (id, journal') ←
            record_entry EntryKind.fs_write actor []
              (FsPayload.write (path_ref path) offset content) journal
        let file = written id offset content (file_or_new id old)
        ok (
          id,
          if len == 0 then fs else record fs { files = insert_file key file fs.files },
          journal',
        ))

  unfoldable pub allocate : ℕ → List ℕ → SimFs → Journal → Result SimFsError (ℕ × SimFs × Journal)
  allocate actor path fs journal =
      let key = canonical_key path in
      if is_some (find_file key fs.files) then err (already_exists path) else (do
        u ← charge_resident 0 true true fs
        (id, journal') ←
            record_entry EntryKind.fs_write actor [] (FsPayload.allocate (path_ref path)) journal
        ok (id, record fs { files = insert_file key (file_or_new id none) fs.files }, journal'))

  -- The parents of a reading: the writes it saw, or the one that made the file.
  unfoldable pub reading_parents : File → Reading → List ℕ
  reading_parents file reading = elim (collect reading.parents) [
    | [] ↦ elim file.created_by [ none ↦ [] | some created ↦ created ∷ [] ]
    | id ∷ ids ↦ id ∷ ids
  ]

  -- The journaled observation at the end of a read.
  unfoldable pub record_read :
      ℕ
      → (path : List ℕ) → (offset requested_len : ℕ) → (parents : List ℕ) → ObservedRead
      → Journal
      → Result SimFsError (ObservedRead × Journal)
  record_read actor path offset requested_len parents observed journal = do
    (id, journal') ←
        record_entry EntryKind.fs_read actor parents
          (FsPayload.read (path_ref path) offset requested_len observed) journal
    ok (observed, journal')

  unfoldable pub read_bytes :
      ℕ
      → (path : List ℕ) → (offset requested_len : ℕ) → SimFs
      → Journal
      → Result SimFsError (ObservedRead × Journal)
  read_bytes actor path offset requested_len fs journal =
      if ltb max_read_bytes requested_len
      then err (read_too_large requested_len max_read_bytes)
      else elim (find_file (canonical_key path) fs.files) [
        | none ↦ record_read actor path offset requested_len [] ObservedRead.missing journal
        | some file ↦
            let reading = read_window offset requested_len file in
            record_read actor path offset requested_len (reading_parents file reading)
              (ObservedRead.present reading.out) journal
      ]

  unfoldable pub fsync : ℕ → SimFs → Journal → Result SimFsError (ℕ × SimFs × Journal)
  fsync actor fs journal = do
    (id, journal') ←
        record_entry EntryKind.fs_fsync actor [] (FsPayload.sync (path_ref (b'/' ∷ []))) journal
    ok (id, record fs { files = persist_all fs.files }, journal')

  unfoldable pub fsync_path : ℕ → List ℕ → SimFs → Journal → Result SimFsError (ℕ × SimFs × Journal)
  fsync_path actor path fs journal =
      let key = canonical_key path in
      elim (find_file key fs.files) [
        | none ↦ err (not_found path)
        | some file ↦ (do
          (id, journal') ←
              record_entry EntryKind.fs_fsync actor [] (FsPayload.sync (path_ref path)) journal
          ok (id, record fs { files = insert_file key (persist file) fs.files }, journal'))
      ]

  unfoldable pub rename :
      ℕ → (from to : List ℕ) → SimFs → Journal → Result SimFsError (ℕ × SimFs × Journal)
  rename actor from to fs journal =
      let from_key = canonical_key from in
      let to_key = canonical_key to in
      elim (find_file from_key fs.files) [
        | none ↦ err (not_found from)
        | some file ↦ (do
          (id, journal') ←
              record_entry EntryKind.fs_write actor []
                (FsPayload.rename (path_ref from) (path_ref to)) journal
          ok (
            id,
            if bytes_eq from_key to_key
                then fs
                else record fs { files = insert_file to_key file (remove_file from_key fs.files) },
            journal',
          ))
      ]

  unfoldable pub append_tear :
      ℕ → (path : List ℕ) → (value : ℕ) → SimFs → Journal → Result SimFsError (ℕ × SimFs × Journal)
  append_tear actor path value fs journal =
      write_bytes actor path (len_or_zero (find_file (canonical_key path) fs.files))
        (le_bytes 8 value) fs journal
