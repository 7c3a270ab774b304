-- ===== src/Sim/Fs/Store/Invariant.antt =====
-- Every operation keeps the table in order and its files sound.
use ldgr.Prelude.{
  ℕ, ◌^◌, ◌≤◌, ◌≡◌, refl, Option, none, some, List, [], ◌∷◌, arith, ltb, All, Bool-cases,
  Option-cases, inl, inr, Result, ok, err, Post, Post-bind, Post-if,
}
use ldgr.Prelude.Bytes.{bytes_eq}
use ldgr.Sim.Fs.{ByteRange, Ranges, File, recompute_length, drop_unsynced}
use ldgr.Sim.Fs.Sound.{IsSound, IsSound?, persist-IsSound, drop_unsynced-IsSound}
use ldgr.Sim.Fs.Store.{
  SimFsError, CrashOperation, drop_all_unsynced, drop_paths, torn_write, corrupt_range, bit_flip,
  Files, SimFs, find_file, insert_file, remove_file, max_file_extent_hard,
}
use ldgr.Sim.Fs.Store.Ops.{persist_all}
use ldgr.Sim.Fs.Store.Crash.{
  drop_all, drop_key, drop_keys, path_keys, on_range, put_file, on_files, truncate, corrupt,
  apply_crash_operation,
}
use ldgr.Sim.Fs.Store.Keeps.{Post?, Keeps, truncate-Keeps, corrupt-Keeps}
use ldgr.Sim.Fs.Store.Files.{Ascends, Behind, insert_file-Ascends, remove_file-Ascends}

abbrev pub AllSound : Files → Type 0
AllSound files = All (λ (q : List ℕ × File). IsSound q.1) files

pub record IsStore (fs : SimFs) : Type 0 where
  pub ascends : Ascends fs.files
  pub sound : AllSound fs.files
  pub extent : fs.max_file_extent ≤ max_file_extent_hard

pub find_file-IsSound : (k : List ℕ) (m : Files) → AllSound m → IsSound? (find_file k m)
unfolding find_file
find_file-IsSound k [] h = tt
find_file-IsSound k ((i, f) ∷ m) h = elim (Bool-cases (bytes_eq i k)) [
  | inl same ↦ rw same h.0
  | inr other ↦ rw other (find_file-IsSound k m h.1)
]

pub insert_file-AllSound :
    (k : List ℕ) (f : File) (m : Files) → AllSound m → IsSound f → AllSound (insert_file k f m)
unfolding insert_file
insert_file-AllSound k f [] h s = (s, tt)
insert_file-AllSound k f ((i, g) ∷ m) h s =
    ground (arith, h.0, h.1, insert_file-AllSound k f m h.1 s)

pub remove_file-AllSound : (k : List ℕ) (m : Files) → AllSound m → AllSound (remove_file k m)
unfolding remove_file
remove_file-AllSound k [] h = tt
remove_file-AllSound k ((i, g) ∷ m) h = ground (arith, h.0, remove_file-AllSound k m h.1)

persist_all-Behind : (j : List ℕ) (m : Files) → Behind j m → Behind j (persist_all m)
unfolding persist_all
persist_all-Behind j [] h = tt
persist_all-Behind j ((i, f) ∷ m) h = (h.0, persist_all-Behind j m h.1)

pub persist_all-Ascends : (m : Files) → Ascends m → Ascends (persist_all m)
unfolding persist_all
persist_all-Ascends [] h = tt
persist_all-Ascends ((i, f) ∷ m) h = (persist_all-Behind i m h.0, persist_all-Ascends m h.1)

pub persist_all-AllSound : (m : Files) → AllSound m → AllSound (persist_all m)
unfolding persist_all
persist_all-AllSound [] h = tt
persist_all-AllSound ((i, f) ∷ m) h = (persist-IsSound f h.0, persist_all-AllSound m h.1)

drop_all-lost :
    (i : List ℕ) (f : File) (m : Files)
    → drop_unsynced f ≡ none
    → drop_all ((i, f) ∷ m) ≡ drop_all m
unfolding drop_all
drop_all-lost i f m e = rw (drop_all, e) refl

drop_all-kept :
    (i : List ℕ) (f f' : File) (m : Files)
    → drop_unsynced f ≡ some f'
    → drop_all ((i, f) ∷ m) ≡ (i, f') ∷ drop_all m
unfolding drop_all
drop_all-kept i f f' m e = rw (drop_all, e) refl

drop_all-Behind : (j : List ℕ) (m : Files) → Behind j m → Behind j (drop_all m)
unfolding drop_all
drop_all-Behind j [] h = tt
drop_all-Behind j ((i, f) ∷ m) h = elim (Option-cases (drop_unsynced f)) [
  | inl lost ↦ rw (drop_all-lost i f m lost) (drop_all-Behind j m h.1)
  | inr (f', kept) ↦ rw (drop_all-kept i f f' m kept) (h.0, drop_all-Behind j m h.1)
]

drop_all-Ascends : (m : Files) → Ascends m → Ascends (drop_all m)
unfolding drop_all
drop_all-Ascends [] h = tt
drop_all-Ascends ((i, f) ∷ m) h = elim (Option-cases (drop_unsynced f)) [
  | inl lost ↦ rw (drop_all-lost i f m lost) (drop_all-Ascends m h.1)
  | inr (f', kept) ↦
      rw (drop_all-kept i f f' m kept) (drop_all-Behind i m h.0, drop_all-Ascends m h.1)
]

drop_all-AllSound : (m : Files) → AllSound m → AllSound (drop_all m)
unfolding drop_all
drop_all-AllSound [] h = tt
drop_all-AllSound ((i, f) ∷ m) h = elim (Option-cases (drop_unsynced f)) [
  | inl lost ↦ rw (drop_all-lost i f m lost) (drop_all-AllSound m h.1)
  | inr (f', kept) ↦
      let s : IsSound f' = rw kept at (drop_unsynced-IsSound f h.0) in
      rw (drop_all-kept i f f' m kept) (s, drop_all-AllSound m h.1)
]

put_file-AllSound :
    (k : List ℕ) (f : File) (finish : File → File) (m : Files)
    (o : Option (Result SimFsError Ranges)) (rest : Result SimFsError Files) (j : List ℕ)
    → IsSound f
    → AllSound m
    → Behind k m
    → Ascends m
    → Post? o (λ cache. IsSound (finish (record f { cache = cache })))
    → Post rest (λ m'. AllSound m' × Ascends m' × ((i : List ℕ) → Behind i m → Behind i m'))
    → Post
        (put_file (k, f) finish m o rest)
        (λ m'. AllSound m' × Ascends m' × ((i : List ℕ) → Behind i ((k, f) ∷ m) → Behind i m'))
unfolding put_file
put_file-AllSound k f finish m none rest j s a b c h r =
    Post-bind _ _ rest _ r λ m' (a', c', b'). ((s, a'), (b' k b, c'), λ i h'. (h'.0, b' i h'.1))
put_file-AllSound k f finish m (some result) rest j s a b c h r =
    Post-bind _ _ result _ h λ cache s'. ((s', a), (b, c), λ i h'. h')

on_files-AllSound :
    (id : ℕ) (change : ByteRange → Result SimFsError ByteRange) (finish : File → File) (m : Files)
    → Keeps id change finish
    → AllSound m
    → Ascends m
    → Post
        (on_files id change finish m)
        (λ m'. AllSound m' × Ascends m' × ((i : List ℕ) → Behind i m → Behind i m'))
unfolding on_files
on_files-AllSound id change finish [] keeps a c = tt
on_files-AllSound id change finish ((k, f) ∷ m) keeps a c =
    put_file-AllSound k f finish m (on_range id change f.cache) (on_files id change finish m) k a.0
      a.1 c.0 c.1 (keeps f a.0) (on_files-AllSound id change finish m keeps a.1 c.1)

Post-any {ℓ} : {E : Type 0} {A : Type ℓ} (r : Result E A) → Post r (λ _. Unit {0})
Post-any (ok a) = tt
Post-any (err e) = tt

drop_key-absent : (key : List ℕ) (m : Files) → find_file key m ≡ none → drop_key key m ≡ m
unfolding drop_key
drop_key-absent key m e = rw (drop_key, e) refl

drop_key-lost :
    (key : List ℕ) (f : File) (m : Files)
    → find_file key m ≡ some f
    → drop_unsynced f ≡ none
    → drop_key key m ≡ remove_file key m
unfolding drop_key
drop_key-lost key f m found e = rw (drop_key, found, e) refl

drop_key-kept :
    (key : List ℕ) (f f' : File) (m : Files)
    → find_file key m ≡ some f
    → drop_unsynced f ≡ some f'
    → drop_key key m ≡ insert_file key f' m
unfolding drop_key
drop_key-kept key f f' m found e = rw (drop_key, found, e) refl

drop_key-IsStore :
    (key : List ℕ) (m : Files)
    → AllSound m
    → Ascends m
    → AllSound (drop_key key m) × Ascends (drop_key key m)
unfolding drop_key
drop_key-IsStore key m a c = elim (Option-cases (find_file key m)) [
  | inl gone ↦ rw (drop_key-absent key m gone) (a, c)
  | inr (f, found) ↦
      let s : IsSound f = rw found at (find_file-IsSound key m a) in
      elim (Option-cases (drop_unsynced f)) [
        | inl lost ↦
            rw (drop_key-lost key f m found lost)
              (remove_file-AllSound key m a, remove_file-Ascends key m c)
        | inr (f', kept) ↦
            let s' : IsSound f' = rw kept at (drop_unsynced-IsSound f s) in
            rw (drop_key-kept key f f' m found kept)
              (insert_file-AllSound key f' m a s', insert_file-Ascends key f' m c)
      ]
]

drop_keys-IsStore :
    (keys : List (List ℕ)) (m : Files)
    → AllSound m
    → Ascends m
    → AllSound (drop_keys keys m) × Ascends (drop_keys keys m)
unfolding drop_keys
drop_keys-IsStore [] m a c = (a, c)
drop_keys-IsStore (key ∷ keys) m a c =
    let (a', c') = drop_key-IsStore key m a c in drop_keys-IsStore keys (drop_key key m) a' c'

-- A crash operation that does not fail.
pub apply_crash_operation-IsStore :
    (op : CrashOperation) (fs : SimFs) → IsStore fs → Post (apply_crash_operation op fs) IsStore
unfolding apply_crash_operation
apply_crash_operation-IsStore drop_all_unsynced fs s = record {
  ascends = drop_all-Ascends fs.files s.ascends;
  sound = drop_all-AllSound fs.files s.sound;
  extent = s.extent;
}
apply_crash_operation-IsStore (drop_paths paths) fs s =
    Post-bind (λ keys. Unit {0}) _ (path_keys paths []) _ (Post-any (path_keys paths []))
      λ keys _.
        let (a, c) = drop_keys-IsStore keys fs.files s.sound s.ascends in
        record { ascends = c; sound = a; extent = s.extent }
apply_crash_operation-IsStore (torn_write id prefix) fs s =
    Post-bind _ _ (on_files id (truncate prefix) recompute_length fs.files) _
      (on_files-AllSound id (truncate prefix) recompute_length fs.files (truncate-Keeps id prefix)
        s.sound s.ascends)
      λ m (a, c, _). record { ascends = c; sound = a; extent = s.extent }
apply_crash_operation-IsStore (corrupt_range id offset []) fs s = tt
apply_crash_operation-IsStore (corrupt_range id offset (x ∷ xs)) fs s =
    Post-bind _ _ (on_files id (corrupt offset (x ∷ xs)) (λ f. f) fs.files) _
      (on_files-AllSound id (corrupt offset (x ∷ xs)) (λ f. f) fs.files
        (corrupt-Keeps id offset (x ∷ xs)) s.sound s.ascends)
      λ m (a, c, _). record { ascends = c; sound = a; extent = s.extent }
apply_crash_operation-IsStore (bit_flip id offset bit) fs s =
    Post-if _ (ltb 7 bit) _ _ (λ _. tt)
      λ _.
        Post-bind _ _ (on_files id (corrupt offset (2 ^ bit ∷ [])) (λ f. f) fs.files) _
          (on_files-AllSound id (corrupt offset (2 ^ bit ∷ [])) (λ f. f) fs.files
            (corrupt-Keeps id offset (2 ^ bit ∷ [])) s.sound s.ascends)
          λ m (a, c, _). record { ascends = c; sound = a; extent = s.extent }
