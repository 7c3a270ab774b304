-- ===== src/Sim/Fs/Store/Keeps.antt =====
-- What the torn and the corrupt write keep of a file.
use ldgr.Prelude.{
  ℕ, zero, suc, ◌+◌, ◌≤◌, max, ◌≡◌, refl, ap, Option, none, some, List, [], ◌∷◌, arith, ltb, leb,
  ◌==◌, length, length-take, Bool-cases, inl, inr, Result, ok, err, Post, Post-bind, Post-if,
  Post-weaken,
}
use ldgr.Sim.Fs.{ByteRange, Ranges, File, max_end, recompute_length}
use ldgr.Sim.Fs.Ranges.{Apart, Apart-weaken}
use ldgr.Sim.Fs.Sound.{IsSound}
use ldgr.Sim.Fs.Store.{SimFsError}
use ldgr.Sim.Fs.Store.Crash.{keep_range, on_range, truncate, xor_at, corrupt}

-- Of the result of a change to the ranges, if the write is among them.
abbrev pub Post? {ℓ} : Option (Result SimFsError Ranges) → (Ranges → Type ℓ) → Type ℓ
Post? none P = Unit
Post? (some r) P = Post r P

keep_range-Post {ℓ κ} :
    (P : Ranges → Type ℓ) (Q : Ranges → Type κ) (q : ℕ × ByteRange)
    (o : Option (Result SimFsError Ranges))
    → Post? o P
    → ((rs : Ranges) → P rs → Q (q ∷ rs))
    → Post? (keep_range q o) Q
unfolding keep_range
keep_range-Post P Q q none h k = tt
keep_range-Post P Q q (some result) h k = Post-bind _ _ result _ h k

on_range-Apart :
    (id : ℕ) (change : ByteRange → Result SimFsError ByteRange) (low : ℕ) (rs : Ranges)
    → ((r : ByteRange) → Post (change r) (λ r'. length r'.content ≤ length r.content))
    → Apart low rs
    → Post? (on_range id change rs) (Apart low)
unfolding on_range
on_range-Apart id change low [] shrink h = tt
on_range-Apart id change low ((s, r) ∷ rs) shrink h = elim (Bool-cases (r.write_id == id)) [
  | inl hit ↦ rw hit (
      Post-bind _ _ (change r) _ (shrink r) λ r' le. (
        h.0,
        omega (arith, h.1),
        Apart-weaken (max (s + length r.content) (s + 1)) (max (s + length r'.content) (s + 1)) rs
            (omega arith) h.2,
      ))
  | inr miss ↦
      let rest = on_range-Apart id change (max (s + length r.content) (s + 1)) rs shrink h.2 in
      rw miss (keep_range-Post _ _ (s, r) (on_range id change rs) rest λ rs' h'. (h.0, h.1, h'))
]

on_range-max_end :
    (id : ℕ) (change : ByteRange → Result SimFsError ByteRange) (rs : Ranges)
    → ((r : ByteRange) → Post (change r) (λ r'. length r'.content ≡ length r.content))
    → Post? (on_range id change rs) (λ rs'. max_end rs' ≡ max_end rs)
unfolding on_range max_end
on_range-max_end id change [] same = tt
on_range-max_end id change ((s, r) ∷ rs) same = elim (Bool-cases (r.write_id == id)) [
  | inl hit ↦ rw hit (Post-bind _ _ (change r) _ (same r) λ r' e. omega (arith, e))
  | inr miss ↦ rw miss (
      keep_range-Post _ _ (s, r) (on_range id change rs) (on_range-max_end id change rs same)
        λ rs' e. omega (arith, e))
]

on_range-shrinks :
    (id : ℕ) (change : ByteRange → Result SimFsError ByteRange) (rs : Ranges)
    → ((r : ByteRange) → Post (change r) (λ r'. length r'.content ≤ length r.content))
    → Post? (on_range id change rs) (λ rs'. max_end rs' ≤ max_end rs)
unfolding on_range max_end
on_range-shrinks id change [] same = tt
on_range-shrinks id change ((s, r) ∷ rs) same = elim (Bool-cases (r.write_id == id)) [
  | inl hit ↦ rw hit (Post-bind _ _ (change r) _ (same r) λ r' e. omega (arith, e))
  | inr miss ↦ rw miss (
      keep_range-Post _ _ (s, r) (on_range id change rs) (on_range-shrinks id change rs same)
        λ rs' e. omega (arith, e))
]

-- Two facts give a third.
Post?-both {ℓ κ ρ} :
    (P : Ranges → Type ℓ) (Q : Ranges → Type κ) (R : Ranges → Type ρ)
    (o : Option (Result SimFsError Ranges))
    → Post? o P
    → Post? o Q
    → ((rs : Ranges) → P rs → Q rs → R rs)
    → Post? o R
Post?-both P Q R none h g k = tt
Post?-both P Q R (some (ok rs)) h g k = k rs h g
Post?-both P Q R (some (err why)) h g k = tt

-- A change of the ranges of a file that leaves it sound.
abbrev pub Keeps : ℕ → (ByteRange → Result SimFsError ByteRange) → (File → File) → Type 0
Keeps id change finish =
    (f : File)
    → IsSound f
    → Post? (on_range id change f.cache) (λ cache. IsSound (finish (record f { cache = cache })))

truncate-shrinks :
    (prefix : ℕ) (r : ByteRange)
    → Post (truncate prefix r) (λ r'. length r'.content ≤ length r.content)
unfolding truncate
truncate-shrinks prefix r =
    Post-if _ (ltb (length r.content) prefix) _ _ (λ _. tt)
      (λ _. omega (arith, length-take prefix r.content))

pub truncate-Keeps : (id prefix : ℕ) → Keeps id (truncate prefix) recompute_length
unfolding recompute_length
truncate-Keeps id prefix f s =
    Post?-both (Apart 0) (λ cache. max_end cache ≤ max_end f.cache) _
      (on_range id (truncate prefix) f.cache)
      (on_range-Apart id (truncate prefix) 0 f.cache (truncate-shrinks prefix) s.cache)
      (on_range-shrinks id (truncate prefix) f.cache (truncate-shrinks prefix))
      λ cache apart ends. record {
        cache = apart;
        durable = s.durable;
        size = refl;
        small = omega (arith, ends, s.size, s.small);
        below = s.below;
      }

length-xor_at :
    (offset : ℕ) (xor_bytes content : List ℕ)
    → length (xor_at offset xor_bytes content) ≡ length content
unfolding xor_at
length-xor_at offset xor_bytes [] = refl
length-xor_at (suc offset) xor_bytes (b ∷ content) = ap suc (length-xor_at offset xor_bytes content)
length-xor_at zero [] (b ∷ content) = refl
length-xor_at zero (x ∷ xor_bytes) (b ∷ content) = ap suc (length-xor_at zero xor_bytes content)

corrupt-same :
    (offset : ℕ) (xor_bytes : List ℕ) (r : ByteRange)
    → Post (corrupt offset xor_bytes r) (λ r'. length r'.content ≡ length r.content)
unfolding corrupt
corrupt-same offset xor_bytes r =
    Post-if _ (leb (length r.content) offset) _ _ (λ _. tt)
      (λ _. length-xor_at offset xor_bytes r.content)

pub corrupt-Keeps :
    (id offset : ℕ) (xor_bytes : List ℕ) → Keeps id (corrupt offset xor_bytes) (λ f. f)
corrupt-Keeps id offset xor_bytes f s =
    Post?-both (Apart 0) (λ cache. max_end cache ≡ max_end f.cache) _
      (on_range id (corrupt offset xor_bytes) f.cache)
      (on_range-Apart id (corrupt offset xor_bytes) 0 f.cache
        (λ r.
          Post-weaken _ _ (corrupt offset xor_bytes r) (corrupt-same offset xor_bytes r)
            λ r' e. omega (arith, e))
        s.cache)
      (on_range-max_end id (corrupt offset xor_bytes) f.cache (corrupt-same offset xor_bytes))
      λ cache apart ends. record {
        cache = apart;
        durable = s.durable;
        size = omega (arith, ends, s.size);
        small = s.small;
        below = s.below;
      }
