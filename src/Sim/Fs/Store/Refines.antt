-- ===== src/Sim/Fs/Store/Refines.antt =====
-- The operations keep what they promise. What a rename does beyond its promise.
use mathlib.Core.Path.{fun_ext}
use Prim.Native.String.{String}
use ldgr.Prelude.{
  ℕ, ◌≡◌, refl, ◌∙◌, ap, Bool, false, true, Option, none, List, Result, ok, Post-ok, if◌then◌else◌,
  Bool-cases, inl, inr,
}
use ldgr.Prelude.Bytes.{bytes_eq}
use ldgr.Journal.Dag.{EntryData}
use ldgr.Sim.Fs.Store.{EntryKind, FsPayload, SimFs, Journal}
use ldgr.Sim.Fs.Store.Ops.{canonical_key}
use ldgr.Sim.Fs.Store.Invariant.{IsStore}
use ldgr.Sim.Fs.Store.Reach.{
  Operation, put, tear, create, sync_all, sync_one, move, lose_unsynced, run, run-IsStore,
}
use ldgr.Sim.Fs.Store.Views.{views_after, run_effect}
use ldgr.Sim.Fs.Store.Model.{Content, View, Views, views, update, no_file, crashed}

-- What is read at a key after a rename.
abbrev pub read_after_move : (from to : List ℕ) → Views → List ℕ → Option Content
read_after_move from to v k =
    if bytes_eq from to
    then (v k).0
    else (if bytes_eq to k then (v from).0 else (if bytes_eq from k then none else (v k).0))

-- What each operation promises, from the contents before to those after. A write of some bytes replaces a
-- window of what is read, a tear is such a write at the end, an allocation makes an empty file, a sync
-- makes what is read survive, and a crash puts what survives in the place of what is read. A rename
-- promises to move what is read, and nothing of what survives.
unfoldable pub Promised : Operation → Views → Views → Type 0
unfolding views_after
Promised (put actor path offset content) v v' = v' ≡ views_after (put actor path offset content) v
Promised (tear actor path value) v v' = v' ≡ views_after (tear actor path value) v
Promised (create actor path) v v' = v' ≡ views_after (create actor path) v
Promised (sync_all actor) v v' = v' ≡ views_after (sync_all actor) v
Promised (sync_one actor path) v v' = v' ≡ views_after (sync_one actor path) v
Promised (move actor from to) v v' =
    (λ k. (v' k).0) ≡ read_after_move (canonical_key from) (canonical_key to) v
Promised lose_unsynced v v' = v' ≡ views_after lose_unsynced v

if-read : (b : Bool) (w u : View) → (if b then w else u).0 ≡ (if b then w.0 else u.0)
if-read true w u = refl
if-read false w u = refl

moved-read :
    (from to : List ℕ) (v : Views)
    → (λ k. ((if bytes_eq from to then v else update to (v from) (update from no_file v)) k).0)
      ≡ read_after_move from to v
moved-read from to v = fun_ext λ k. elim (Bool-cases (bytes_eq from to)) [
  | inl same ↦ rw same refl
  | inr other ↦ rw other (
      if-read (bytes_eq to k) (v from) _
      ∙ ap (λ c. if bytes_eq to k then (v from).0 else c) (if-read (bytes_eq from k) no_file (v k)))
]

moved-apart :
    (from to : List ℕ) (v : Views)
    → bytes_eq from to ≡ false
    → (if bytes_eq from to then v else update to (v from) (update from no_file v))
      ≡ update to (v from) (update from no_file v)
moved-apart from to v apart = rw apart refl

crashed-update :
    (key : List ℕ) (w : View) (v : Views) (k : List ℕ)
    → crashed (update key w v k) ≡ (if bytes_eq key k then crashed w else crashed (v k))
crashed-update key w v k = elim (Bool-cases (bytes_eq key k)) [
  | inl same ↦ rw same refl
  | inr other ↦ rw other refl
]

module _ (path_digest : List ℕ → List ℕ)
    (encode_data : EntryData EntryKind FsPayload → Result String (List ℕ)) (blake3 : List ℕ → ℕ)
    (shared : Bool) where
  -- Where the table is well formed and an operation on the store succeeds, it does what it promises, for
  -- every key: a write of some bytes replaces a window of what is read, an append of a tear does so at the
  -- end, an allocation makes an empty file, a sync makes what is read survive a crash, and a crash puts
  -- what survives in the place of what is read. Writes, tears and
  -- allocations leave what survives. Of a rename, only that it moves what is read is stated.
  pub run-refines :
      (op : Operation) (fs : SimFs) (journal : Journal) {fs' : SimFs} {journal' : Journal}
      → IsStore fs
      → run path_digest encode_data blake3 shared op fs journal ≡ ok (fs', journal')
      → Promised op (views fs.files) (views fs'.files)
  unfolding Promised
  run-refines (put actor path offset content) fs journal s e =
      run_effect path_digest encode_data blake3 shared _ fs journal s e
  run-refines (tear actor path value) fs journal s e =
      run_effect path_digest encode_data blake3 shared _ fs journal s e
  run-refines (create actor path) fs journal s e =
      run_effect path_digest encode_data blake3 shared _ fs journal s e
  run-refines (sync_all actor) fs journal s e =
      run_effect path_digest encode_data blake3 shared _ fs journal s e
  run-refines (sync_one actor path) fs journal s e =
      run_effect path_digest encode_data blake3 shared _ fs journal s e
  run-refines (move actor from to) fs journal s e =
      ap {B = List ℕ → Option Content} (λ v k. (v k).0)
        (run_effect path_digest encode_data blake3 shared (move actor from to) fs journal s e)
      ∙ moved-read (canonical_key from) (canonical_key to) (views fs.files)
  run-refines lose_unsynced fs journal s e =
      run_effect path_digest encode_data blake3 shared _ fs journal s e

  -- Where the table is well formed, a rename between two different keys and then a crash succeed, the
  -- store holds under the new key what survived under the old one, nothing under the old key, and under
  -- every other key what survived there. So the rename has moved what survives.
  pub crash-rename :
      (actor : ℕ) (from to : List ℕ) (fs : SimFs) (journal : Journal) {fs1 fs2 : SimFs}
      {journal1 journal2 : Journal}
      → IsStore fs
      → bytes_eq (canonical_key from) (canonical_key to) ≡ false
      → run path_digest encode_data blake3 shared (move actor from to) fs journal
        ≡ ok (fs1, journal1)
      → run path_digest encode_data blake3 shared lose_unsynced fs1 journal1 ≡ ok (fs2, journal2)
      → views fs2.files
        ≡ update
            (canonical_key to)
            (crashed (views fs.files (canonical_key from)))
            (update (canonical_key from) no_file (λ k. crashed (views fs.files k)))
  unfolding views_after
  crash-rename actor from to fs journal {fs1} {fs2} {journal1} s apart moved lost =
      let s1 : IsStore fs1 =
        Post-ok (λ (r : SimFs × Journal). IsStore r.0) _
          (run-IsStore path_digest encode_data blake3 shared (move actor from to) fs journal s)
          moved in
      run_effect path_digest encode_data blake3 shared lose_unsynced fs1 journal1 s1 lost
      ∙ ap {B = Views} (λ v k. crashed (v k))
          (run_effect path_digest encode_data blake3 shared (move actor from to) fs journal s moved
            ∙ moved-apart (canonical_key from) (canonical_key to) (views fs.files) apart)
      ∙ fun_ext λ k.
        crashed-update (canonical_key to) (views fs.files (canonical_key from))
          (update (canonical_key from) no_file (views fs.files)) k
        ∙ ap
            (λ w.
              if bytes_eq (canonical_key to) k
              then crashed (views fs.files (canonical_key from))
              else w)
            (crashed-update (canonical_key from) no_file (views fs.files) k)
