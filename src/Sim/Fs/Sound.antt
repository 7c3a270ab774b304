-- ===== src/Sim/Fs/Sound.antt =====
-- The invariant of one file, kept by writing, persisting and crashing.
use ldgr.Prelude.{
  ℕ, ◌+◌, ◌-◌, ◌^◌, ◌≤◌, ◌<◌, max, ◌≡◌, refl, Option, none, some, List, [], ◌∷◌, ◌++◌, map, arith,
  length, length-take, length-drop, Bool-cases, inl, inr,
}
use ldgr.Sim.Fs.{
  PageState, ByteRange, Ranges, File, insert_range, persist_range, persist, max_end,
  recompute_length, drop_unsynced, replace_window,
}
use ldgr.Sim.Fs.Ranges.{
  Apart, byte_at, Clear, insert_range-before, insert_range-behind, insert_range-same,
}
use ldgr.Sim.Fs.Ranges.Trim.{trim, trim-Apart, trim-Clear, cut, cut-cases}
use ldgr.Sim.Fs.Ranges.Insert.{insert_all-trim}
use ldgr.Sim.Fs.Window.{replace_window-Apart}
use ldgr.Sim.Fs.Store.{max_file_extent_hard, file_or_new, written}

max_end-insert_range :
    (low start : ℕ) (range : ByteRange) (rs : Ranges)
    → Apart low rs
    → start + length range.content < 2 ^ 64
    → Clear (start, range) rs
    → max_end (insert_range start range rs) ≡ max (start + length range.content) (max_end rs)
unfolding insert_range max_end
max_end-insert_range low start range [] h fits c = omega arith
max_end-insert_range low start range ((s, r) ∷ rs) h fits (inl before, cs) =
    rw (insert_range-before start s range r rs (omega arith)) (
      omega (
        arith,
        max_end-insert_range (max (s + length r.content) (s + 1)) start range rs h.2 fits cs,
      ))
max_end-insert_range low start range ((s, r) ∷ rs) h fits (inr (inl behind), cs) =
    rw (insert_range-behind start s range r rs (omega arith)) (omega arith)
max_end-insert_range low start range ((s, r) ∷ rs) h fits (inr (inr same), cs) =
    rw (insert_range-same start s range r rs same.0) (omega (arith, same.0, same.1))

max_end-append : (rs qs : Ranges) → max_end (rs ++ qs) ≡ max (max_end rs) (max_end qs)
unfolding max_end
max_end-append [] qs = omega arith
max_end-append (r ∷ rs) qs = omega (arith, max_end-append rs qs)

module _ (w0 w1 : ℕ) (window : w0 < w1) where
  max_end-cut :
      (s : ℕ) (r : ByteRange)
      → s + length r.content < 2 ^ 64
      → max w1 (max_end (cut w0 w1 window (s, r))) ≡ max w1 (s + length r.content)
  unfolding max_end
  max_end-cut s r fits =
      let taken = length-take (w0 - s) r.content in
      let dropped = length-drop (w1 - s) r.content in
      cut-cases w0 w1 window (λ c. max w1 (max_end c) ≡ max w1 (s + length r.content)) s r fits
        (λ o. omega arith) (λ a b c d. omega arith) (λ a b c. omega (arith, taken))
        (λ a b c. omega (arith, dropped)) (λ a b. omega (arith, taken, dropped))

  max_end-trim :
      (low : ℕ) (rs : Ranges)
      → Apart low rs
      → max w1 (max_end (trim w0 w1 window rs)) ≡ max w1 (max_end rs)
  unfolding max_end
  max_end-trim low [] h = refl
  max_end-trim low ((s, r) ∷ rs) h = omega (
    arith,
    h.1,
    max_end-append (cut w0 w1 window (s, r)) (trim w0 w1 window rs),
    max_end-cut s r h.1,
    max_end-trim (max (s + length r.content) (s + 1)) rs h.2,
  )

max_end-replace_window :
    (id offset : ℕ) (content : List ℕ) (cache : Ranges)
    → 0 < length content
    → offset + length content < 2 ^ 64
    → Apart 0 cache
    → max_end (replace_window id offset content cache)
      ≡ max (max_end cache) (offset + length content)
unfolding replace_window
max_end-replace_window id offset content cache some_bytes fits apart =
    let w1 : ℕ = offset + length content in
    let window : offset < w1 = omega arith in
    let new : ByteRange = record { content = content; write_id = id; state = PageState.dirty } in
    rw (insert_all-trim offset w1 window 0 cache apart) (
      omega (
        arith,
        max_end-insert_range 0 offset new (trim offset w1 window cache)
            (trim-Apart offset w1 window 0 cache apart) fits
            (trim-Clear offset w1 window new 0 cache refl apart),
        max_end-trim offset w1 window 0 cache apart,
      ))

Apart-persist : (low : ℕ) (rs : Ranges) → Apart low rs → Apart low (map persist_range rs)
unfolding persist_range
Apart-persist low [] h = tt
Apart-persist low ((s, r) ∷ rs) h =
    (h.0, h.1, Apart-persist (max (s + length r.content) (s + 1)) rs h.2)

pub max_end-persist : (rs : Ranges) → max_end (map persist_range rs) ≡ max_end rs
unfolding persist_range max_end
max_end-persist [] = refl
max_end-persist ((s, r) ∷ rs) = omega (arith, max_end-persist rs)

pub byte_at-persist : (rs : Ranges) (x : ℕ) → byte_at (map persist_range rs) x ≡ byte_at rs x
unfolding persist_range byte_at
byte_at-persist [] x = refl
byte_at-persist ((s, r) ∷ rs) x = ground (arith, byte_at-persist rs x)

-- The ranges of a file stand apart, its length is the end of the last one, and no end is beyond the
-- hard limit.
pub record IsSound (file : File) : Type 0 where
  pub cache : Apart 0 file.cache
  pub durable : Apart 0 file.durable
  pub size : file.len ≡ max_end file.cache
  pub small : file.len ≤ max_file_extent_hard
  pub below : max_end file.durable ≤ max_file_extent_hard

pub file_or_new-IsSound : (id : ℕ) → IsSound (file_or_new id none)
unfolding file_or_new max_end
file_or_new-IsSound id = record {
  cache = tt;
  durable = tt;
  size = refl;
  small = omega arith;
  below = omega arith;
}

pub written-IsSound :
    (id offset : ℕ) (content : List ℕ) (file : File)
    → IsSound file
    → 0 < length content
    → offset + length content ≤ max_file_extent_hard
    → IsSound (written id offset content file)
unfolding written
written-IsSound id offset content file h some_bytes fits = record {
  cache = replace_window-Apart id offset content file.cache some_bytes (omega arith) h.cache;
  durable = h.durable;
  size = omega (
    arith,
    h.size,
    max_end-replace_window id offset content file.cache some_bytes (omega arith) h.cache,
  );
  small = omega (arith, h.small);
  below = h.below;
}

pub persist-IsSound : (file : File) → IsSound file → IsSound (persist file)
unfolding persist
persist-IsSound file h = record {
  cache = h.cache;
  durable = Apart-persist 0 file.cache h.cache;
  size = h.size;
  small = h.small;
  below = omega (arith, max_end-persist file.cache, h.size, h.small);
}

-- A file that is there is sound.
abbrev pub IsSound? : Option File → Type 0
IsSound? none = Unit
IsSound? (some file) = IsSound file

pub drop_unsynced-IsSound : (file : File) → IsSound file → IsSound? (drop_unsynced file)
unfolding drop_unsynced recompute_length
drop_unsynced-IsSound file h = elim (Bool-cases file.durable_exists) [
  | inl kept ↦ rw kept (record {
    cache = h.durable;
    durable = h.durable;
    size = refl;
    small = h.below;
    below = h.below;
  })
  | inr lost ↦ rw lost tt
]
