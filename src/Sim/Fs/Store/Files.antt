-- ===== src/Sim/Fs/Store/Files.antt =====
-- The table of files as a map: what is found after each change, and that its keys stay in order.
use mathlib.Core.Path.{subst}
use Prim.Native.Nat.{Ordering}
use ldgr.Prelude.{
  ℕ, ◌≡◌, ◌≢◌, refl, sym, ◌∙◌, true, false, Option, none, some, List, [], ◌∷◌, arith, if◌then◌else◌,
  All, Bool-cases, Option-cases, ◌⊎◌, inl, inr,
}
use ldgr.Prelude.Bytes.{bytes_eq, bytes_eq-eq, bytes_eq_self}
use ldgr.Cbor.{compare_bytes}
use ldgr.Cbor.RoundTrip.Order.{compare_bytes_refl}
use ldgr.Sim.Fs.{File, persist, drop_unsynced}
use ldgr.Sim.Fs.Store.{Files, find_file, insert_file, remove_file}
use ldgr.Sim.Fs.Store.Ops.{persist_all}
use ldgr.Sim.Fs.Store.Crash.{drop_all}

compare_bytes_trans :
    (a b c : List ℕ)
    → compare_bytes a b ≡ Ordering.lt
    → compare_bytes b c ≡ Ordering.lt
    → compare_bytes a c ≡ Ordering.lt
unfolding compare_bytes
compare_bytes_trans [] [] c h k = cc
compare_bytes_trans [] (y ∷ b) [] h k = cc
compare_bytes_trans [] (y ∷ b) (z ∷ c) h k = refl
compare_bytes_trans (x ∷ a) [] c h k = cc
compare_bytes_trans (x ∷ a) (y ∷ b) [] h k = cc
compare_bytes_trans (x ∷ a) (y ∷ b) (z ∷ c) h k = ground (arith, compare_bytes_trans a b c)

compare_bytes-gt :
    (a b : List ℕ) → compare_bytes a b ≡ Ordering.gt → compare_bytes b a ≡ Ordering.lt
unfolding compare_bytes
compare_bytes-gt [] [] h = cc
compare_bytes-gt [] (y ∷ b) h = cc
compare_bytes-gt (x ∷ a) [] h = refl
compare_bytes-gt (x ∷ a) (y ∷ b) h = ground (arith, compare_bytes-gt a b)

compare_bytes-eq : (a b : List ℕ) → compare_bytes a b ≡ Ordering.eq → a ≡ b
unfolding compare_bytes
compare_bytes-eq [] [] h = refl
compare_bytes-eq [] (y ∷ b) h = cc
compare_bytes-eq (x ∷ a) [] h = cc
compare_bytes-eq (x ∷ a) (y ∷ b) h = ground (arith, compare_bytes-eq a b)

-- A key before another is not that key.
lt-bytes_eq : (a b : List ℕ) → compare_bytes a b ≡ Ordering.lt → bytes_eq a b ≡ false
lt-bytes_eq a b h = elim (Bool-cases (bytes_eq a b)) [
  | inl same ↦
      let e : compare_bytes a b ≡ Ordering.eq = rw (bytes_eq-eq a b same) (compare_bytes_refl b) in
      cc
  | inr other ↦ other
]

Ordering-cases : (o : Ordering) → (o ≡ Ordering.lt) ⊎ (o ≡ Ordering.eq) ⊎ (o ≡ Ordering.gt)
Ordering-cases Ordering.lt = inl refl
Ordering-cases Ordering.eq = inr (inl refl)
Ordering-cases Ordering.gt = inr (inr refl)

-- All keys are behind `k`.
abbrev pub Behind : List ℕ → Files → Type 0
Behind k m = All (λ (q : List ℕ × File). compare_bytes k q.0 ≡ Ordering.lt) m

abbrev pub Ascends : Files → Type 0
Ascends [] = Unit
Ascends ((k, f) ∷ m) = Behind k m × Ascends m

Behind-trans :
    (j k : List ℕ) (m : Files) → compare_bytes j k ≡ Ordering.lt → Behind k m → Behind j m
Behind-trans j k [] lt h = tt
Behind-trans j k ((i, f) ∷ m) lt h = (compare_bytes_trans j k i lt h.0, Behind-trans j k m lt h.1)

lt-ne-eq : Ordering.lt ≢ Ordering.eq
lt-ne-eq h = cc

find_file-Behind : (k : List ℕ) (m : Files) → Behind k m → find_file k m ≡ none
unfolding find_file
find_file-Behind k [] h = refl
find_file-Behind k ((i, f) ∷ m) h = elim (Bool-cases (bytes_eq i k)) [
  | inl same ↦
      let e : compare_bytes k i ≡ Ordering.eq = rw (bytes_eq-eq i k same) (compare_bytes_refl k) in
      absurd (lt-ne-eq (sym h.0 ∙ e))
  | inr other ↦ rw other (find_file-Behind k m h.1)
]

-- The three steps of an insertion.
insert_file-lt :
    (k i : List ℕ) (f g : File) (m : Files)
    → compare_bytes i k ≡ Ordering.lt
    → insert_file k f ((i, g) ∷ m) ≡ (i, g) ∷ insert_file k f m
unfolding insert_file
insert_file-lt k i f g m h = rw (insert_file, h) refl

insert_file-eq :
    (k i : List ℕ) (f g : File) (m : Files)
    → compare_bytes i k ≡ Ordering.eq
    → insert_file k f ((i, g) ∷ m) ≡ (k, f) ∷ m
unfolding insert_file
insert_file-eq k i f g m h = rw (insert_file, h) refl

insert_file-gt :
    (k i : List ℕ) (f g : File) (m : Files)
    → compare_bytes i k ≡ Ordering.gt
    → insert_file k f ((i, g) ∷ m) ≡ (k, f) ∷ (i, g) ∷ m
unfolding insert_file
insert_file-gt k i f g m h = rw (insert_file, h) refl

insert_file-Behind :
    (j k : List ℕ) (f : File) (m : Files)
    → compare_bytes j k ≡ Ordering.lt
    → Behind j m
    → Behind j (insert_file k f m)
unfolding insert_file
insert_file-Behind j k f [] lt h = (lt, tt)
insert_file-Behind j k f ((i, g) ∷ m) lt h =
    ground (arith, h.0, h.1, insert_file-Behind j k f m lt h.1)

pub insert_file-Ascends :
    (k : List ℕ) (f : File) (m : Files) → Ascends m → Ascends (insert_file k f m)
unfolding insert_file
insert_file-Ascends k f [] h = (tt, tt)
insert_file-Ascends k f ((i, g) ∷ m) h = elim (Ordering-cases (compare_bytes i k)) [
  | inl lt ↦
      rw (insert_file-lt k i f g m lt)
        (insert_file-Behind i k f m lt h.0, insert_file-Ascends k f m h.1)
  | inr (inl eq) ↦
      rw (insert_file-eq k i f g m eq) (subst (λ j. Behind j m) (compare_bytes-eq i k eq) h.0, h.1)
  | inr (inr gt) ↦
      let lt = compare_bytes-gt i k gt in
      rw (insert_file-gt k i f g m gt) ((lt, Behind-trans k i m lt h.0), h)
]

false-ne-true : false ≢ true
false-ne-true h = cc

-- A test on the same key again is not passed.
same_key :
    (i j k : List ℕ) (u v w : Option File)
    → i ≡ k
    → (if bytes_eq k j then v else w)
      ≡ (if bytes_eq k j then v else (if bytes_eq i j then u else w))
same_key i j k u v w e = elim (Bool-cases (bytes_eq k j)) [
  | inl same ↦ rw same refl
  | inr other ↦
      let o : bytes_eq i j ≡ false = subst (λ l. bytes_eq l j ≡ false) (sym e) other in
      rw (other, o) refl
]

-- Two tests of which the first key is before the second are not both passed.
one_key :
    (i j k : List ℕ) (u v w : Option File)
    → bytes_eq i k ≡ false
    → (if bytes_eq i j then u else (if bytes_eq k j then v else w))
      ≡ (if bytes_eq k j then v else (if bytes_eq i j then u else w))
one_key i j k u v w h = elim (Bool-cases (bytes_eq i j)) [
  | inl same ↦ elim (Bool-cases (bytes_eq k j)) [
    | inl same' ↦
        absurd (
          false-ne-true
            (sym h ∙ rw (bytes_eq-eq i j same, bytes_eq-eq k j same') (bytes_eq_self j)))
    | inr other ↦ rw (same, other) refl
  ]
  | inr other ↦ rw other refl
]

pub find_file-insert_file :
    (j k : List ℕ) (f : File) (m : Files)
    → find_file j (insert_file k f m) ≡ (if bytes_eq k j then some f else find_file j m)
unfolding insert_file find_file
find_file-insert_file j k f [] = refl
find_file-insert_file j k f ((i, g) ∷ m) = elim (Ordering-cases (compare_bytes i k)) [
  | inl lt ↦
      rw (insert_file-lt k i f g m lt, find_file-insert_file j k f m)
        (one_key i j k (some g) (some f) (find_file j m) (lt-bytes_eq i k lt))
  | inr (inl eq) ↦
      rw (insert_file-eq k i f g m eq)
        (same_key i j k (some g) (some f) (find_file j m) (compare_bytes-eq i k eq))
  | inr (inr gt) ↦ rw (insert_file-gt k i f g m gt) refl
]

pub find_file-remove_file :
    (j k : List ℕ) (m : Files)
    → find_file j (remove_file k m) ≡ (if bytes_eq k j then none else find_file j m)
unfolding find_file remove_file
find_file-remove_file j k [] = ground arith
find_file-remove_file j k ((i, g) ∷ m) = elim (Bool-cases (bytes_eq i k)) [
  | inl same ↦
      rw (same, find_file-remove_file j k m)
        (same_key i j k (some g) none (find_file j m) (bytes_eq-eq i k same))
  | inr other ↦
      rw (other, find_file-remove_file j k m) (one_key i j k (some g) none (find_file j m) other)
]

remove_file-Behind : (j k : List ℕ) (m : Files) → Behind j m → Behind j (remove_file k m)
unfolding remove_file
remove_file-Behind j k [] h = tt
remove_file-Behind j k ((i, g) ∷ m) h = ground (arith, h.0, remove_file-Behind j k m h.1)

pub remove_file-Ascends : (k : List ℕ) (m : Files) → Ascends m → Ascends (remove_file k m)
unfolding remove_file
remove_file-Ascends k [] h = tt
remove_file-Ascends k ((i, g) ∷ m) h = elim (Bool-cases (bytes_eq i k)) [
  | inl same ↦ rw same (remove_file-Ascends k m h.1)
  | inr other ↦ rw other (remove_file-Behind i k m h.0, remove_file-Ascends k m h.1)
]

pub find_file-persist_all :
    (j : List ℕ) (m : Files)
    → find_file j (persist_all m) ≡ elim (find_file j m) [ none ↦ none | some f ↦ some (persist f) ]
unfolding find_file persist_all
find_file-persist_all j [] = refl
find_file-persist_all j ((i, g) ∷ m) = ground (arith, find_file-persist_all j m)

pub find_file-drop_all :
    (j : List ℕ) (m : Files)
    → Ascends m
    → find_file j (drop_all m) ≡ elim (find_file j m) [ none ↦ none | some f ↦ drop_unsynced f ]
unfolding find_file drop_all
find_file-drop_all j [] h = refl
find_file-drop_all j ((i, g) ∷ m) h = elim (Bool-cases (bytes_eq i j)) [
  | inl same ↦
      let out : find_file j m ≡ none =
        subst (λ l. find_file l m ≡ none) (bytes_eq-eq i j same) (find_file-Behind i m h.0) in
      let ih = find_file-drop_all j m h.1 in
      rw same (ground (arith, out, ih, same, Option-cases (drop_unsynced g)))
  | inr other ↦
      let ih = find_file-drop_all j m h.1 in
      rw other (ground (arith, ih, other, Option-cases (drop_unsynced g)))
]
