-- ===== src/Sim/Fs/Store/Durable.antt =====
-- What a crash goes back to.
use mathlib.Core.Path.{fun_ext}
use Prim.Native.String.{String}
use ldgr.Prelude.{
  ℕ, ◌≡◌, refl, ◌∙◌, ap, Bool, true, false, List, [], ◌∷◌, Result, ok, >>=-eq-ok, All, Bool-cases,
  inl, inr, Post-ok,
}
use ldgr.Prelude.Bytes.{bytes_eq, bytes_eq-eq, le_bytes}
use ldgr.Journal.Dag.{EntryData}
use ldgr.Sim.Fs.Store.{EntryKind, FsPayload, SimFs, Journal}
use ldgr.Sim.Fs.Store.Ops.{canonical_key}
use ldgr.Sim.Fs.Store.Invariant.{IsStore}
use ldgr.Sim.Fs.Store.Reach.{
  Operation, put, tear, create, sync_all, sync_one, move, lose_unsynced, run, run_all, run-IsStore,
}
use ldgr.Sim.Fs.Store.Model.{View, Views, views, update, synced}
use ldgr.Sim.Fs.Store.Views.{views_after, written_view, run_effect}

-- The operations that change what is read only.
unfoldable pub is_volatile : Operation → Bool
is_volatile (put actor path offset content) = true
is_volatile (tear actor path value) = true
is_volatile (create actor path) = true
is_volatile (sync_all actor) = false
is_volatile (sync_one actor path) = false
is_volatile (move actor from to) = false
is_volatile lose_unsynced = false

update-durable :
    (key : List ℕ) (w : View) (v : Views)
    → w.1 ≡ (v key).1
    → (k : List ℕ) → (update key w v k).1 ≡ (v k).1
update-durable key w v e k = elim (Bool-cases (bytes_eq key k)) [
  | inl same ↦ rw same (e ∙ ap (λ j. (v j).1) (bytes_eq-eq key k same))
  | inr other ↦ rw other refl
]

written_view-durable :
    (key : List ℕ) (offset : ℕ) (content : List ℕ) (v : Views) (k : List ℕ)
    → (written_view key offset content v k).1 ≡ (v k).1
written_view-durable key offset [] v k = refl
written_view-durable key offset (b ∷ content) v k = update-durable key _ v refl k

views_after-durable :
    (op : Operation) (v : Views)
    → is_volatile op ≡ true
    → (k : List ℕ) → (views_after op v k).1 ≡ (v k).1
unfolding views_after is_volatile
views_after-durable (put actor path offset content) v h k =
    written_view-durable (canonical_key path) offset content v k
views_after-durable (tear actor path value) v h k =
    written_view-durable (canonical_key path) _ (le_bytes 8 value) v k
views_after-durable (create actor path) v h k = update-durable (canonical_key path) _ v refl k
views_after-durable (sync_all actor) v h k = cc
views_after-durable (sync_one actor path) v h k = cc
views_after-durable (move actor from to) v h k = cc
views_after-durable lose_unsynced v h k = cc

module _ (path_digest : List ℕ → List ℕ)
    (encode_data : EntryData EntryKind FsPayload → Result String (List ℕ)) (blake3 : List ℕ → ℕ)
    (shared : Bool) where
  run_all-durable :
      (ops : List Operation) (fs : SimFs) (journal : Journal) {fs' : SimFs} {journal' : Journal}
      → IsStore fs
      → All (λ op. is_volatile op ≡ true) ops
      → run_all path_digest encode_data blake3 shared ops fs journal ≡ ok (fs', journal')
      → IsStore fs' × ((k : List ℕ) → (views fs'.files k).1 ≡ (views fs.files k).1)
  unfolding run_all
  run_all-durable [] fs journal s h e =
      Post-ok
        (λ (r : SimFs × Journal).
          IsStore r.0 × ((k : List ℕ) → (views r.0.files k).1 ≡ (views fs.files k).1))
        (ok (fs, journal)) (s, λ k. refl) e
  run_all-durable (op ∷ ops) fs journal {fs'} s h e =
      let ((fs1, journal1), first, rest) =
        >>=-eq-ok (run path_digest encode_data blake3 shared op fs journal) _ e in
      let s1 : IsStore fs1 =
        Post-ok (λ (r : SimFs × Journal). IsStore r.0) _
          (run-IsStore path_digest encode_data blake3 shared op fs journal s) first in
      let done = run_effect path_digest encode_data blake3 shared op fs journal s first in
      let (s', ih) = run_all-durable ops fs1 journal1 s1 h.1 rest in
      (
        s',
        λ k.
            ih k ∙ ap (λ (v : Views). (v k).1) done ∙ views_after-durable op (views fs.files) h.0 k,
      )

  -- Where the table is well formed and all calls succeed: a sync of all files, then writes, tears and
  -- allocations, then a crash, leave for every key what was read there at the sync, which then
  -- survives a further crash.
  pub crash-fsync :
      (actor : ℕ) (ops : List Operation) (fs : SimFs) (journal : Journal) {fs1 fs2 fs3 : SimFs}
      {journal1 journal2 journal3 : Journal}
      → IsStore fs
      → run path_digest encode_data blake3 shared (sync_all actor) fs journal ≡ ok (fs1, journal1)
      → All (λ op. is_volatile op ≡ true) ops
      → run_all path_digest encode_data blake3 shared ops fs1 journal1 ≡ ok (fs2, journal2)
      → run path_digest encode_data blake3 shared lose_unsynced fs2 journal2 ≡ ok (fs3, journal3)
      → views fs3.files ≡ (λ k. synced (views fs.files k))
  unfolding views_after
  crash-fsync actor ops fs journal {fs1} {fs2} {fs3} {journal1} {journal2} s synced_first h later
        crashed_last =
      let s1 : IsStore fs1 =
        Post-ok (λ (r : SimFs × Journal). IsStore r.0) _
          (run-IsStore path_digest encode_data blake3 shared (sync_all actor) fs journal s)
          synced_first in
      let (s2, kept) = run_all-durable ops fs1 journal1 s1 h later in
      run_effect path_digest encode_data blake3 shared lose_unsynced fs2 journal2 s2 crashed_last
      ∙ fun_ext λ k.
        ap (λ c. (c, c))
          (kept k
            ∙ ap (λ (v : Views). (v k).1)
                (run_effect path_digest encode_data blake3 shared (sync_all actor) fs journal s
                  synced_first))
