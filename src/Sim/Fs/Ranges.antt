-- ===== src/Sim/Fs/Ranges.antt =====
-- The bytes that a list of ranges holds, and what inserting and cutting do to them.
pub mod Trim
pub mod Insert
use Prim.Native.Nat.{compare, Ordering}
use ldgr.Prelude.{
  ℕ, zero, suc, ◌+◌, ◌-◌, ◌^◌, ◌≤◌, ◌<◌, min, max, ◌≡◌, refl, sym, ◌∙◌, ap, Bool, true, false, ◌&&◌,
  not, Option, none, some, List, [], ◌∷◌, ◌++◌, arith, ltb, leb, ◌==◌, if◌then◌else◌, length, take,
  drop, get_or, Bool-cases, ◌⊎◌, inl, inr,
}
use ldgr.Sim.Fs.{ByteRange, Ranges, range_end, insert_range}

abbrev pub stop : ℕ × ByteRange → ℕ
stop (start, range) = start + length range.content

-- The ranges stand in ascending order, at `low` or above, with no overlap and with ends below 2 ^ 64.
abbrev pub Apart : ℕ → Ranges → Type 0
Apart low [] = Unit
Apart low ((start, range) ∷ rs) =
    (low ≤ start)
    × (start + length range.content < 2 ^ 64)
    × Apart (max (start + length range.content) (start + 1)) rs

abbrev pub covers : ℕ × ByteRange → ℕ → Bool
covers (start, range) x = leb start x && ltb x (start + length range.content)

-- The byte at a position, and 0 in a hole.
unfoldable pub byte_at : Ranges → ℕ → ℕ
byte_at [] x = 0
byte_at ((start, range) ∷ rs) x =
    if covers (start, range) x then get_or range.content (x - start) 0 else byte_at rs x

pub byte_at-below : (low : ℕ) (rs : Ranges) (x : ℕ) → Apart low rs → x < low → byte_at rs x ≡ 0
unfolding byte_at
byte_at-below low [] x h lt = refl
byte_at-below low ((s, r) ∷ rs) x h lt =
    ground (arith, h.0, byte_at-below (max (s + length r.content) (s + 1)) rs x h.2)

pub Apart-weaken : (low low' : ℕ) (rs : Ranges) → low' ≤ low → Apart low rs → Apart low' rs
Apart-weaken low low' [] le h = tt
Apart-weaken low low' ((s, r) ∷ rs) le h = (omega (arith, h.0), h.1, h.2)

pub insert_range-before :
    (start s : ℕ) (range r : ByteRange) (rs : Ranges)
    → s < start
    → insert_range start range ((s, r) ∷ rs) ≡ (s, r) ∷ insert_range start range rs
unfolding insert_range
insert_range-before start s range r rs h =
    let e : compare s start ≡ Ordering.lt = ground arith in rw (insert_range, e) refl

pub insert_range-behind :
    (start s : ℕ) (range r : ByteRange) (rs : Ranges)
    → start < s
    → insert_range start range ((s, r) ∷ rs) ≡ (start, range) ∷ (s, r) ∷ rs
unfolding insert_range
insert_range-behind start s range r rs h =
    let e : compare s start ≡ Ordering.gt = ground arith in rw (insert_range, e) refl

-- No range of the list touches the new one, but for an empty one at its place.
abbrev pub Clear : ℕ × ByteRange → Ranges → Type 0
Clear new [] = Unit
Clear (start, range) ((s, r) ∷ rs) =
    ((max (s + length r.content) (s + 1) ≤ start)
      ⊎ (max (start + length range.content) (start + 1) ≤ s)
      ⊎ ((s ≡ start) × (length r.content ≡ 0)))
    × Clear (start, range) rs

pub insert_range-same :
    (start s : ℕ) (range r : ByteRange) (rs : Ranges)
    → s ≡ start
    → insert_range start range ((s, r) ∷ rs) ≡ (start, range) ∷ rs
unfolding insert_range
insert_range-same start s range r rs h =
    let e : compare s start ≡ Ordering.eq = ground arith in rw (insert_range, e) refl

Apart-after :
    (low start : ℕ) (range : ByteRange) (rs : Ranges)
    → Apart low rs
    → start < low
    → Clear (start, range) rs
    → Apart (max (start + length range.content) (start + 1)) rs
Apart-after low start range [] h lt c = tt
Apart-after low start range ((s, r) ∷ rs) h lt (inl before, cs) = absurd (omega (arith, h.0))
Apart-after low start range ((s, r) ∷ rs) h lt (inr (inl behind), cs) = (behind, h.1, h.2)
Apart-after low start range ((s, r) ∷ rs) h lt (inr (inr same), cs) =
    absurd (omega (arith, h.0, same.0))

pub insert_range-Apart :
    (low start : ℕ) (range : ByteRange) (rs : Ranges)
    → Apart low rs
    → low ≤ start
    → start + length range.content < 2 ^ 64
    → Clear (start, range) rs
    → Apart low (insert_range start range rs)
unfolding insert_range
insert_range-Apart low start range [] h le fits c = (le, fits, tt)
insert_range-Apart low start range ((s, r) ∷ rs) h le fits (inl before, cs) =
    rw (insert_range-before start s range r rs (omega arith)) (
      h.0,
      h.1,
      insert_range-Apart (max (s + length r.content) (s + 1)) start range rs h.2 before fits cs,
    )
insert_range-Apart low start range ((s, r) ∷ rs) h le fits (inr (inl behind), cs) =
    rw (insert_range-behind start s range r rs (omega arith)) (le, fits, (behind, h.1, h.2))
insert_range-Apart low start range ((s, r) ∷ rs) h le fits (inr (inr same), cs) =
    rw (insert_range-same start s range r rs same.0) (
      le,
      fits,
      Apart-after (max (s + length r.content) (s + 1)) start range rs h.2 (omega (arith, same.0))
          cs,
    )

covers-empty : (s : ℕ) (r : ByteRange) (x : ℕ) → length r.content ≡ 0 → covers (s, r) x ≡ false
covers-empty s r x h = ground arith

byte_at-empty :
    (s : ℕ) (r : ByteRange) (rs : Ranges) (x : ℕ)
    → length r.content ≡ 0
    → byte_at ((s, r) ∷ rs) x ≡ byte_at rs x
unfolding byte_at
byte_at-empty s r rs x h = rw (covers-empty s r x h) refl

pub byte_at-insert_range :
    (low start : ℕ) (range : ByteRange) (rs : Ranges) (x : ℕ)
    → Apart low rs
    → Clear (start, range) rs
    → byte_at (insert_range start range rs) x
      ≡ (if covers (start, range) x then get_or range.content (x - start) 0 else byte_at rs x)
unfolding insert_range byte_at
byte_at-insert_range low start range [] x h c = refl
byte_at-insert_range low start range ((s, r) ∷ rs) x h (inl before, cs) =
    rw (insert_range-before start s range r rs (omega arith)) (
      ground
        (arith, byte_at-insert_range (max (s + length r.content) (s + 1)) start range rs x h.2 cs))
byte_at-insert_range low start range ((s, r) ∷ rs) x h (inr (inl behind), cs) =
    rw (insert_range-behind start s range r rs (omega arith)) refl
byte_at-insert_range low start range ((s, r) ∷ rs) x h (inr (inr same), cs) =
    rw (insert_range-same start s range r rs same.0) (rw (byte_at-empty s r rs x same.1) refl)
