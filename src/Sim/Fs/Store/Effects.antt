-- ===== src/Sim/Fs/Store/Effects.antt =====
-- What an operation that succeeds has done to the store.
use Prim.Native.String.{String}
use ldgr.Prelude.{
  ℕ, ◌+◌, ◌-◌, ◌^◌, ◌≤◌, ◌<◌, ◌≡◌, refl, Bool, true, false, ◌||◌, Option, none, some, List, [],
  arith, ltb, if◌then◌else◌, length, Result, ok, err, Post, Post-bind, Post-if, sym, ap,
}
use ldgr.Prelude.Bytes.{bytes_eq}
use ldgr.Journal.Dag.{EntryData}
use ldgr.Sim.Fs.{File, persist, read_window}
use ldgr.Sim.Fs.Store.{
  EntryKind, ObservedRead, present, FsPayload, Files, SimFs, Journal, max_write_bytes, find_file,
  insert_file, remove_file, charge_resident, is_some, file_or_new, written,
}
use ldgr.Sim.Fs.Store.Ops.{
  canonical_key, persist_all, record_entry, record_read, write_bytes, allocate, read_bytes, fsync,
  fsync_path, rename,
}

pub Post-any {ℓ} : {E : Type 0} {A : Type ℓ} (r : Result E A) → Post r (λ _. Unit {0})
Post-any (ok a) = tt
Post-any (err e) = tt

Post-option {ℓ κ μ} :
    {E : Type 0} {A : Type ℓ} {B : Type κ} (Q : B → Type μ) (o : Option A) (r : Result E B)
    (s : A → Result E B)
    → (o ≡ none → Post r Q)
    → ((a : A) → o ≡ some a → Post (s a) Q)
    → Post (elim o [ none ↦ r | some a ↦ s a ]) Q
Post-option Q none r s p q = p refl
Post-option Q (some a) r s p q = q a refl

is_some-false : (o : Option File) → is_some o ≡ false → o ≡ none
unfolding is_some
is_some-false none h = refl
is_some-false (some f) h = cc

-- The table after a write of some bytes.
abbrev pub table_after : ℕ → (path : List ℕ) → (offset : ℕ) → List ℕ → Files → Files
table_after id path offset content m =
    insert_file (canonical_key path)
      (written id offset content (file_or_new id (find_file (canonical_key path) m))) m

-- The effect of a write that appended the entry `id`.
pub record Writes (path : List ℕ) (offset : ℕ) (content : List ℕ) (fs : SimFs) (id : ℕ)
    (fs' : SimFs) : Type 0 where
  pub extent : offset + length content ≤ fs.max_file_extent
  pub size : length content ≤ max_write_bytes
  pub some_bytes :
      0 < length content → fs' ≡ record fs { files = table_after id path offset content fs.files }
  pub no_bytes : length content ≡ 0 → fs' ≡ fs

-- What a read observes.
abbrev pub observation : (offset requested_len : ℕ) → Option File → ObservedRead
observation offset requested_len none = ObservedRead.missing
observation offset requested_len (some file) = present (read_window offset requested_len file).out

module _ (path_digest : List ℕ → List ℕ)
    (encode_data : EntryData EntryKind FsPayload → Result String (List ℕ)) (blake3 : List ℕ → ℕ)
    (shared : Bool) where
  pub write_bytes-Writes :
      (actor : ℕ) (path : List ℕ) (offset : ℕ) (content : List ℕ) (fs : SimFs) (journal : Journal)
      → Post
          (write_bytes path_digest encode_data blake3 shared actor path offset content fs journal)
          (λ (id, fs', _). Writes path offset content fs id fs')
  unfolding write_bytes
  write_bytes-Writes actor path offset content fs journal =
      Post-if _ (ltb max_write_bytes (length content)) _ _ (λ _. tt)
        λ fits.
          Post-if _
            (ltb (2 ^ 64 - 1) (offset + length content)
              || ltb fs.max_file_extent (offset + length content))
            _ _ (λ _. tt)
            λ inside.
              Post-bind (λ _. Unit {0}) _ (charge_resident _ _ _ fs) _ (Post-any _)
                λ u _.
                  Post-bind (λ _. Unit {0}) _
                    (record_entry path_digest encode_data blake3 shared _ actor _ _ journal) _
                    (Post-any _)
                    λ (id, journal') _. record {
                      extent = ground (arith, inside);
                      size = ground (arith, fits);
                      some_bytes = λ h. ground (arith, h);
                      no_bytes = λ h. ground (arith, h);
                    }

  pub allocate-effect :
      (actor : ℕ) (path : List ℕ) (fs : SimFs) (journal : Journal)
      → Post (allocate path_digest encode_data blake3 shared actor path fs journal) (λ (id, fs', _).
        (find_file (canonical_key path) fs.files ≡ none)
        × (fs' ≡ record fs {
          files = insert_file (canonical_key path) (file_or_new id none) fs.files;
        }))
  unfolding allocate
  allocate-effect actor path fs journal =
      Post-if _ (is_some (find_file (canonical_key path) fs.files)) _ _ (λ _. tt)
        λ absent.
          Post-bind (λ _. Unit {0}) _ (charge_resident 0 true true fs) _ (Post-any _)
            λ u _.
              Post-bind (λ _. Unit {0}) _
                (record_entry path_digest encode_data blake3 shared _ actor _ _ journal) _
                (Post-any _)
                λ (id, journal') _.
                  (is_some-false (find_file (canonical_key path) fs.files) absent, refl)

  pub fsync-effect :
      (actor : ℕ) (fs : SimFs) (journal : Journal)
      → Post
          (fsync path_digest encode_data blake3 shared actor fs journal)
          (λ (id, fs', _). fs' ≡ record fs { files = persist_all fs.files })
  unfolding fsync
  fsync-effect actor fs journal =
      Post-bind (λ _. Unit {0}) _
        (record_entry path_digest encode_data blake3 shared _ actor _ _ journal) _ (Post-any _)
        λ (id, journal') _. refl

  pub fsync_path-effect :
      (actor : ℕ) (path : List ℕ) (fs : SimFs) (journal : Journal)
      → Post
          (fsync_path path_digest encode_data blake3 shared actor path fs journal)
          (λ (id, fs', _).
            (file : File) × (find_file (canonical_key path) fs.files ≡ some file)
            × (fs'
                ≡ record fs { files = insert_file (canonical_key path) (persist file) fs.files }))
  unfolding fsync_path
  fsync_path-effect actor path fs journal =
      Post-option _ (find_file (canonical_key path) fs.files) _ _ (λ _. tt)
        λ file found.
          Post-bind (λ _. Unit {0}) _
            (record_entry path_digest encode_data blake3 shared _ actor _ _ journal) _ (Post-any _)
            λ (id, journal') _. (file, found, refl)

  pub rename-effect :
      (actor : ℕ) (from to : List ℕ) (fs : SimFs) (journal : Journal)
      → Post
          (rename path_digest encode_data blake3 shared actor from to fs journal)
          (λ (id, fs', _).
            (file : File) × (find_file (canonical_key from) fs.files ≡ some file)
            × (fs' ≡ (
                if bytes_eq (canonical_key from) (canonical_key to) then fs else record fs {
                  files =
                      insert_file
                        (canonical_key to)
                        file
                        (remove_file (canonical_key from) fs.files);
                })))
  unfolding rename
  rename-effect actor from to fs journal =
      Post-option _ (find_file (canonical_key from) fs.files) _ _ (λ _. tt)
        λ file found.
          Post-bind (λ _. Unit {0}) _
            (record_entry path_digest encode_data blake3 shared _ actor _ _ journal) _ (Post-any _)
            λ (id, journal') _. (file, found, refl)

  record_read-effect :
      (actor : ℕ) (path : List ℕ) (offset requested_len : ℕ) (parents : List ℕ)
      (observed : ObservedRead) (expected : ObservedRead) (journal : Journal)
      → observed ≡ expected
      → Post
          (record_read path_digest encode_data blake3 shared actor path offset requested_len parents
            observed journal)
          (λ (seen, _). seen ≡ expected)
  unfolding record_read
  record_read-effect actor path offset requested_len parents observed expected journal same =
      Post-bind (λ _. Unit {0}) _
        (record_entry path_digest encode_data blake3 shared _ actor _ _ journal) _ (Post-any _)
        λ (id, journal') _. same

  pub read_bytes-effect :
      (actor : ℕ) (path : List ℕ) (offset requested_len : ℕ) (fs : SimFs) (journal : Journal)
      → Post
          (read_bytes path_digest encode_data blake3 shared actor path offset requested_len fs
            journal)
          (λ (observed, _).
            observed ≡ observation offset requested_len (find_file (canonical_key path) fs.files))
  unfolding read_bytes
  read_bytes-effect actor path offset requested_len fs journal =
      Post-if _ (ltb _ requested_len) _ _ (λ _. tt)
        λ fits.
          Post-option _ (find_file (canonical_key path) fs.files) _ _
            (λ absent.
              record_read-effect actor path offset requested_len [] ObservedRead.missing _ journal
                (sym (ap (observation offset requested_len) absent)))
            (λ file found.
              record_read-effect actor path offset requested_len _ _ _ journal
                (sym (ap (observation offset requested_len) found)))
