-- ===== src/Sim/Fs/Store.antt =====
-- crates/ledger-sim/src/simfs.rs: the store of files, with its operations.
-- A path is the list of its bytes. A map from paths is the list of its bindings with ascending keys.
-- The journal is that of Journal/Dag, over the payloads of the file system. The operations that append to it
-- are in Ops, the crash operations in Crash.
pub mod Ops
pub mod Crash
pub mod Files
pub mod Keeps
pub mod Effects
pub mod Reach
pub mod Model
pub mod Views
pub mod Refines
pub mod Durable
pub mod Contents
pub mod Invariant
use Prim.Native.Nat.{Ordering, bit_xor}
use Prim.Native.String.{String}
use ldgr.Prelude.{
  ℕ, zero, suc, ◌+◌, ◌-◌, ◌*◌, ◌^◌, min, max, Bool, true, false, ◌&&◌, ◌||◌, not, Option, none,
  some, List, [], ◌∷◌, ◌++◌, map, ltb, leb, ◌==◌, if◌then◌else◌, length, take, Result, ok, err,
  ◌>>=◌,
}
use ldgr.Prelude.Bytes.{bytes_eq, le_bytes}
use ldgr.Cbor.{compare_bytes}
use ldgr.Cbor.Text.{is_utf8}
use ldgr.Explorer.HittingSet.{insert_hash}
use ldgr.Format.FilePath.{canonicalize, PathRef}
use ldgr.Journal.Dag.{JournalError, EntryData, JournalState, append}
use ldgr.Sim.Fs.{
  PageState, ByteRange, Ranges, File, default_file, sat_add, persist, recompute_length,
  drop_unsynced, replace_window, read_window,
}

abbrev pub max_write_bytes : ℕ
max_write_bytes = 16 * 1024 * 1024

abbrev pub max_read_bytes : ℕ
max_read_bytes = 16 * 1024 * 1024

abbrev pub max_file_extent_hard : ℕ
max_file_extent_hard = 1024 * 1024 * 1024 * 1024

pub data SimFsError : Type 0 where
  already_exists : List ℕ → SimFsError
  not_found : List ℕ → SimFsError
  write_too_large : (actual max : ℕ) → SimFsError
  read_too_large : (actual max : ℕ) → SimFsError
  file_extent_too_large : ℕ → SimFsError
  budget_exhausted : String → SimFsError
  unknown_write_target : SimFsError
  unaddressable_path : List ℕ → SimFsError
  empty_xor : SimFsError
  bit_out_of_range : ℕ → SimFsError
  journal : JournalError → SimFsError

-- The kinds of entries that the store appends.
pub data EntryKind : Type 0 where
  fs_write : EntryKind
  fs_fsync : EntryKind
  fs_read : EntryKind

pub data ObservedRead : Type 0 where
  missing : ObservedRead
  present : List ℕ → ObservedRead

-- The payloads of those entries.
pub data FsPayload : Type 0 where
  write : PathRef → (offset : ℕ) → (content : List ℕ) → FsPayload
  allocate : PathRef → FsPayload
  rename : (from to : PathRef) → FsPayload
  sync : PathRef → FsPayload
  read : PathRef → (offset requested_len : ℕ) → (observed : ObservedRead) → FsPayload

pub data CrashOperation : Type 0 where
  drop_all_unsynced : CrashOperation
  drop_paths : List PathRef → CrashOperation
  torn_write : (write_entry persisted_prefix : ℕ) → CrashOperation
  corrupt_range : (write_entry offset : ℕ) → (xor_bytes : List ℕ) → CrashOperation
  bit_flip : (write_entry offset bit : ℕ) → CrashOperation

abbrev pub Files : Type 0
Files = List (List ℕ × File)

pub record SimFs : Type 0 where
  pub files : Files
  pub max_file_extent : ℕ
  pub max_resident_bytes : Option ℕ

abbrev pub Journal : Type 0
Journal = JournalState EntryKind FsPayload

unfoldable pub new : SimFs
new = record { files = []; max_file_extent = max_file_extent_hard; max_resident_bytes = none }

unfoldable pub with_budgets : ℕ → Option ℕ → SimFs
with_budgets max_file_extent max_resident_bytes = record {
  files = [];
  max_file_extent = min max_file_extent max_file_extent_hard;
  max_resident_bytes = max_resident_bytes;
}

-- `get`, `insert` and `remove` of the map.
unfoldable pub find_file : List ℕ → Files → Option File
find_file key [] = none
find_file key ((k, f) ∷ files) = if bytes_eq k key then some f else find_file key files

unfoldable pub insert_file : List ℕ → File → Files → Files
insert_file key file [] = (key, file) ∷ []
insert_file key file ((k, f) ∷ files) = elim (compare_bytes k key) [
  | Ordering.lt ↦ (k, f) ∷ insert_file key file files
  | Ordering.eq ↦ (key, file) ∷ files
  | Ordering.gt ↦ (key, file) ∷ (k, f) ∷ files
]

unfoldable pub remove_file : List ℕ → Files → Files
remove_file key [] = []
remove_file key ((k, f) ∷ files) =
    let rest = remove_file key files in if bytes_eq k key then rest else (k, f) ∷ rest

unfoldable pub content_bytes : Ranges → ℕ
content_bytes [] = 0
content_bytes ((s, r) ∷ rs) = length r.content + content_bytes rs

unfoldable pub resident_bytes : Files → ℕ
resident_bytes [] = 0
resident_bytes ((k, f) ∷ files) = content_bytes f.cache + resident_bytes files

unfoldable pub range_nodes : Files → ℕ
range_nodes [] = 0
range_nodes ((k, f) ∷ files) = length f.cache + range_nodes files

abbrev pub range_overhead : ℕ
range_overhead = 64

abbrev pub path_overhead : ℕ
path_overhead = 128

abbrev pub sat_mul : ℕ → ℕ → ℕ
sat_mul a b = min (a * b) (2 ^ 64 - 1)

abbrev pub count : Bool → ℕ
count true = 1
count false = 0

unfoldable pub charge_resident :
    ℕ → (new_range new_path : Bool) → SimFs → Result SimFsError (Unit {0})
charge_resident additional_bytes new_range new_path fs = elim fs.max_resident_bytes [
  | none ↦ ok tt
  | some budget ↦
      let charged =
        sat_add
          (sat_add (sat_add (resident_bytes fs.files) additional_bytes)
            (sat_mul (sat_add (range_nodes fs.files) (count new_range)) range_overhead))
          (sat_mul (sat_add (length fs.files) (count new_path)) path_overhead) in
      if ltb budget charged then err (budget_exhausted "resident byte budget") else ok tt
]

unfoldable pub is_some : Option File → Bool
is_some none = false
is_some (some f) = true

-- The file that is written to, made if it is not there.
unfoldable pub file_or_new : ℕ → Option File → File
file_or_new id none = record default_file { created_by = some id }
file_or_new id (some file) = file

-- The file after a write of some bytes.
unfoldable pub written : (id offset : ℕ) → List ℕ → File → File
written id offset content file = record file {
  len = max file.len (offset + length content);
  cache = replace_window id offset content file.cache;
}
