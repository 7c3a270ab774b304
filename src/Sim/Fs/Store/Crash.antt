-- ===== src/Sim/Fs/Store/Crash.antt =====
-- crates/ledger-sim/src/simfs.rs: the canonical crash operations.
-- The name of an unaddressable path is its bytes.
use Prim.Native.Nat.{bit_xor}
use ldgr.Prelude.{
  ℕ, zero, suc, ◌^◌, Bool, true, false, Option, none, some, List, [], ◌∷◌, ltb, leb, ◌==◌,
  if◌then◌else◌, length, take, Result, ok, err, ◌>>=◌,
}
use ldgr.Prelude.Bytes.{bytes_eq}
use ldgr.Cbor.Text.{is_utf8}
use ldgr.Format.FilePath.{PathRef}
use ldgr.Sim.Fs.{PageState, ByteRange, Ranges, File, recompute_length, drop_unsynced}
use ldgr.Sim.Fs.Store.{
  SimFsError, already_exists, unknown_write_target, unaddressable_path, empty_xor, bit_out_of_range,
  CrashOperation, drop_all_unsynced, drop_paths, torn_write, corrupt_range, bit_flip, Files, SimFs,
  find_file, insert_file, remove_file,
}

-- `retain` with `drop_unsynced`.
unfoldable pub drop_all : Files → Files
drop_all [] = []
drop_all ((k, f) ∷ files) =
    let rest = drop_all files in elim (drop_unsynced f) [ none ↦ rest | some f' ↦ (k, f') ∷ rest ]

unfoldable pub drop_key : List ℕ → Files → Files
drop_key key files = elim (find_file key files) [
  | none ↦ files
  | some f ↦ elim (drop_unsynced f) [
    | none ↦ remove_file key files
    | some f' ↦ insert_file key f' files
  ]
]

unfoldable pub drop_keys : List (List ℕ) → Files → Files
drop_keys [] files = files
drop_keys (key ∷ keys) files = drop_keys keys (drop_key key files)

unfoldable pub mem_bytes : List ℕ → List (List ℕ) → Bool
mem_bytes key [] = false
mem_bytes key (k ∷ keys) = if bytes_eq k key then true else mem_bytes key keys

-- The keys of the paths, checked to be addressable and apart; `seen` are those before.
unfoldable pub path_keys : List PathRef → (seen : List (List ℕ)) → Result SimFsError (List (List ℕ))
path_keys [] seen = ok []
path_keys (p ∷ paths) seen =
    let key = p.canonical_path in
    let rest = path_keys paths (key ∷ seen) in
    if is_utf8 key
    then (if mem_bytes key seen
        then err (already_exists key)
        else (do keys ← rest; ok (key ∷ keys)))
    else err (unaddressable_path key)

-- A range that is passed by.
unfoldable pub keep_range :
    ℕ × ByteRange → Option (Result SimFsError Ranges) → Option (Result SimFsError Ranges)
keep_range q none = none
keep_range q (some result) = some (do rs ← result; ok (q ∷ rs))

-- The first range with the id is changed; `none` where there is none.
unfoldable pub on_range :
    ℕ → (ByteRange → Result SimFsError ByteRange) → Ranges → Option (Result SimFsError Ranges)
on_range id change [] = none
on_range id change ((s, r) ∷ rs) =
    let rest = on_range id change rs in
    if r.write_id == id then some (do r' ← change r; ok ((s, r') ∷ rs)) else keep_range (s, r) rest

unfoldable pub put_file :
    List ℕ × File
    → (File → File)
    → Files
    → Option (Result SimFsError Ranges)
    → Result SimFsError Files
    → Result SimFsError Files
put_file (k, f) finish files none rest = do files' ← rest; ok ((k, f) ∷ files')
put_file (k, f) finish files (some result) rest = do
  cache ← result
  ok ((k, finish (record f { cache = cache })) ∷ files)

-- The same over the files, with what is done to the file in the end.
unfoldable pub on_files :
    ℕ → (ByteRange → Result SimFsError ByteRange) → (File → File) → Files → Result SimFsError Files
on_files id change finish [] = err unknown_write_target
on_files id change finish ((k, f) ∷ files) =
    let rest = on_files id change finish files in
    put_file (k, f) finish files (on_range id change f.cache) rest

unfoldable pub truncate : ℕ → ByteRange → Result SimFsError ByteRange
truncate prefix r =
    if ltb (length r.content) prefix
    then err unknown_write_target
    else ok (record r { content = take prefix r.content; state = PageState.dirty })

-- `content[offset..]` with as many bytes changed as there are in `xor_bytes`.
unfoldable pub xor_at : ℕ → List ℕ → List ℕ → List ℕ
xor_at offset xor_bytes [] = []
xor_at (suc offset) xor_bytes (b ∷ content) = b ∷ xor_at offset xor_bytes content
xor_at zero [] (b ∷ content) = b ∷ content
xor_at zero (x ∷ xor_bytes) (b ∷ content) = bit_xor b x ∷ xor_at zero xor_bytes content

unfoldable pub corrupt : ℕ → List ℕ → ByteRange → Result SimFsError ByteRange
corrupt offset xor_bytes r =
    if leb (length r.content) offset
    then err unknown_write_target
    else ok (record r { content = xor_at offset xor_bytes r.content })

unfoldable pub apply_crash_operation : CrashOperation → SimFs → Result SimFsError SimFs
apply_crash_operation drop_all_unsynced fs = ok (record fs { files = drop_all fs.files })
apply_crash_operation (drop_paths paths) fs = do
  keys ← path_keys paths []
  ok (record fs { files = drop_keys keys fs.files })
apply_crash_operation (torn_write write_entry persisted_prefix) fs = do
  files ← on_files write_entry (truncate persisted_prefix) recompute_length fs.files
  ok (record fs { files = files })
apply_crash_operation (corrupt_range write_entry offset xor_bytes) fs = elim xor_bytes [
  | [] ↦ err empty_xor
  | x ∷ xs ↦ (do
    files ← on_files write_entry (corrupt offset (x ∷ xs)) (λ f. f) fs.files
    ok (record fs { files = files }))
]
apply_crash_operation (bit_flip write_entry offset bit) fs =
    if ltb 7 bit then err (bit_out_of_range bit) else (do
      files ← on_files write_entry (corrupt offset (2 ^ bit ∷ [])) (λ f. f) fs.files
      ok (record fs { files = files }))

-- `crash` drops the result.
unfoldable pub crash : SimFs → SimFs
crash fs = elim (apply_crash_operation drop_all_unsynced fs) [ ok fs' ↦ fs' | err why ↦ fs ]
