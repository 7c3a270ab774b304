-- ===== src/Sim/Fs/Store/Contents.antt =====
-- What a read observes.
use Prim.Native.String.{String}
use ldgr.Prelude.{
  ℕ, zero, suc, ◌+◌, ◌-◌, ◌<◌, ◌^◌, ◌≡◌, refl, ◌∙◌, ap, min, Bool, true, ◌&&◌, Option, none, some,
  List, [], ◌∷◌, arith, length, get_or, Result, ok, Post-ok, ltb, leb, if◌then◌else◌,
}
use ldgr.Prelude.Bytes.{bytes_eq, bytes_eq_self}
use ldgr.Journal.Dag.{EntryData}
use ldgr.Sim.Fs.{File, Ranges}
use ldgr.Sim.Fs.Ranges.{byte_at}
use ldgr.Sim.Fs.Read.{bytes_from, out-read_window}
use ldgr.Sim.Fs.Sound.{IsSound?}
use ldgr.Sim.Fs.Store.{
  EntryKind, ObservedRead, missing, present, FsPayload, SimFs, Journal, find_file,
}
use ldgr.Sim.Fs.Store.Ops.{canonical_key, write_bytes, read_bytes}
use ldgr.Sim.Fs.Store.Invariant.{IsStore, find_file-IsSound}
use ldgr.Sim.Fs.Store.Effects.{Writes, write_bytes-Writes, observation, read_bytes-effect}
use ldgr.Sim.Fs.Store.Reach.{Writes-IsStore}
use ldgr.Sim.Fs.Store.Model.{Content, View, Views, views, cached, byte_of, with_window}
use ldgr.Sim.Fs.Store.Views.{views-Writes}

-- `n` bytes from `x` on.
unfoldable pub slice : (ℕ → ℕ) → (x n : ℕ) → List ℕ
slice f x zero = []
slice f x (suc n) = f x ∷ slice f (suc x) n

bytes_from-slice : (rs : Ranges) (x n : ℕ) → bytes_from rs x n ≡ slice (byte_at rs) x n
unfolding bytes_from slice
bytes_from-slice rs x zero = refl
bytes_from-slice rs x (suc n) = ap (λ t. byte_at rs x ∷ t) (bytes_from-slice rs (suc x) n)

-- A read promises the bytes that are there up to the end of the content.
abbrev pub read_of : (offset requested_len : ℕ) → Option Content → ObservedRead
read_of offset requested_len none = missing
read_of offset requested_len (some c) =
    present (slice c.byte offset (min (c.size - offset) requested_len))

observation-read_of :
    (offset requested_len : ℕ) (o : Option File)
    → IsSound? o
    → offset < 2 ^ 64 - 1
    → observation offset requested_len o ≡ read_of offset requested_len (cached o)
observation-read_of offset requested_len none s low = refl
observation-read_of offset requested_len (some file) s low = ap present (
    out-read_window offset requested_len file s.cache (omega (arith, s.small)) low
    ∙ bytes_from-slice file.cache offset (min (file.len - offset) requested_len))

-- A function that lists a content is read as that content.
slice_lem :
    (f : ℕ → ℕ) (x : ℕ) (content : List ℕ)
    → ((i : ℕ) → i < length content → f (x + i) ≡ get_or content i 0)
    → slice f x (length content) ≡ content
unfolding slice
slice_lem f x [] h = refl
slice_lem f x (b ∷ content) h = rw (ap f {x = x} {y = x + 0} (omega arith) ∙ h 0 (omega arith)) (
    ap (λ t. b ∷ t)
      (slice_lem f (suc x) content
        λ i lt. ap f {x = suc x + i} {y = x + suc i} (omega arith) ∙ h (suc i) (omega (arith, lt))))

abbrev with_window_byte : (offset : ℕ) → List ℕ → Option Content × Option Content → ℕ → ℕ
with_window_byte offset content w x =
    if leb offset x && ltb x (offset + length content)
    then get_or content (x - offset) 0
    else byte_of w.0 x

if_true : (b : Bool) (m n : ℕ) → b ≡ true → (if b then m else n) ≡ m
if_true b m n e = rw e refl

read_of-with_window :
    (offset : ℕ) (content : List ℕ) (w : Option Content × Option Content)
    → read_of offset (length content) (with_window offset content w).0 ≡ present content
read_of-with_window offset content w =
    let f : ℕ → ℕ = (with_window_byte offset content w) in
    ap present (
      ap (λ (n : ℕ). slice f offset n) (omega arith)
      ∙ slice_lem f offset content λ i lt.
        if_true (leb offset (offset + i) && ltb (offset + i) (offset + length content)) _ _
          (ground (arith, lt))
        ∙ ap (λ (j : ℕ). get_or content j 0) (omega arith))

if_same : (key : List ℕ) (w v : View) → (if bytes_eq key key then w else v) ≡ w
if_same key w v = rw (bytes_eq_self key) refl

module _ (path_digest : List ℕ → List ℕ)
    (encode_data : EntryData EntryKind FsPayload → Result String (List ℕ)) (blake3 : List ℕ → ℕ)
    (shared : Bool) where
  -- Where the table is well formed and a read from below the last offset of 64 bits succeeds, it
  -- observes that the file is missing, or the bytes that its writes left, with zeros in the holes, up to
  -- the end of the file or as many as are asked for.
  pub read_bytes-refines :
      (actor : ℕ) (path : List ℕ) (offset requested_len : ℕ) (fs : SimFs) (journal : Journal)
      {observed : ObservedRead} {journal' : Journal}
      → IsStore fs
      → offset < 2 ^ 64 - 1
      → read_bytes path_digest encode_data blake3 shared actor path offset requested_len fs journal
        ≡ ok (observed, journal')
      → observed ≡ read_of offset requested_len (views fs.files (canonical_key path)).0
  read_bytes-refines actor path offset requested_len fs journal s low e =
      Post-ok _ _
        (read_bytes-effect path_digest encode_data blake3 shared actor path offset requested_len fs
          journal)
        e
      ∙ observation-read_of offset requested_len (find_file (canonical_key path) fs.files)
          (find_file-IsSound (canonical_key path) fs.files s.sound) low

  -- Where the table is well formed, some bytes are written with success, and as many are then read from
  -- the same place with success, over any journal, the read observes the bytes that were written.
  pub read_bytes-write_bytes :
      (writer reader : ℕ) (path : List ℕ) (offset : ℕ) (b : ℕ) (content : List ℕ) (fs : SimFs)
      (journal later : Journal) {id : ℕ} {fs' : SimFs} {journal' later' : Journal}
      {observed : ObservedRead}
      → IsStore fs
      → write_bytes path_digest encode_data blake3 shared writer path offset
          (b ∷ content)
          fs
          journal
        ≡ ok (id, fs', journal')
      → read_bytes path_digest encode_data blake3 shared reader path offset
          (length (b ∷ content))
          fs'
          later
        ≡ ok (observed, later')
      → observed ≡ present (b ∷ content)
  read_bytes-write_bytes writer reader path offset b content fs journal later {id} {fs'} s wrote
        did_read =
      let w =
        Post-ok (λ ((i, g, _) : ℕ × SimFs × Journal). Writes path offset (b ∷ content) fs i g) _
          (write_bytes-Writes path_digest encode_data blake3 shared writer path offset (b ∷ content)
            fs journal)
          wrote in
      let key = canonical_key path in
      read_bytes-refines reader path offset (length (b ∷ content)) fs' later
        (Writes-IsStore path offset (b ∷ content) fs id fs' s w) (omega (arith, w.extent, s.extent))
        did_read
      ∙ ap (λ (v : Views). read_of offset (length (b ∷ content)) (v key).0)
          (views-Writes path offset (b ∷ content) fs id fs' s w)
      ∙ ap (λ c. read_of offset (length (b ∷ content)) c.0)
          (if_same key (with_window offset (b ∷ content) (views fs.files key)) (views fs.files key))
      ∙ read_of-with_window offset (b ∷ content) (views fs.files key)
