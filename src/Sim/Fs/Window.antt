-- ===== src/Sim/Fs/Window.antt =====
-- A write replaces the bytes of its window and no others.
use ldgr.Prelude.{
  ℕ, ◌+◌, ◌-◌, ◌^◌, ◌<◌, ◌≡◌, refl, ◌∙◌, Bool, true, false, ◌&&◌, List, arith, ltb, leb,
  if◌then◌else◌, length, get_or,
}
use ldgr.Sim.Fs.{PageState, ByteRange, Ranges, replace_window}
use ldgr.Sim.Fs.Ranges.{Apart, covers, byte_at, byte_at-insert_range, insert_range-Apart}
use ldgr.Sim.Fs.Ranges.Trim.{trim, trim-Apart, trim-Clear, byte_at-trim}
use ldgr.Sim.Fs.Ranges.Insert.{insert_all-trim}

else_eq :
    (b : Bool) (c t u : ℕ) → t ≡ (if b then 0 else u) → (if b then c else t) ≡ (if b then c else u)
else_eq true c t u e = refl
else_eq false c t u e = e

module _ (id offset : ℕ) (content : List ℕ) (cache : Ranges) (some_bytes : 0 < length content)
    (fits : offset + length content < 2 ^ 64) (apart : Apart 0 cache) where
  abbrev new : ByteRange
  new = record { content = content; write_id = id; state = PageState.dirty }

  abbrev w1 : ℕ
  w1 = offset + length content

  pub replace_window-Apart : Apart 0 (replace_window id offset content cache)
  unfolding replace_window
  replace_window-Apart = rw (insert_all-trim offset w1 (omega arith) 0 cache apart) (
      insert_range-Apart 0 offset new (trim offset w1 (omega arith) cache)
        (trim-Apart offset w1 (omega arith) 0 cache apart) (omega arith) fits
        (trim-Clear offset w1 (omega arith) new 0 cache refl apart))

  pub byte_at-replace_window :
      (x : ℕ)
      → byte_at (replace_window id offset content cache) x ≡ (
          if leb offset x && ltb x (offset + length content)
          then get_or content (x - offset) 0
          else byte_at cache x)
  unfolding replace_window
  byte_at-replace_window x = rw (insert_all-trim offset w1 (omega arith) 0 cache apart) (
      byte_at-insert_range 0 offset new (trim offset w1 (omega arith) cache) x
        (trim-Apart offset w1 (omega arith) 0 cache apart)
        (trim-Clear offset w1 (omega arith) new 0 cache refl apart)
      ∙ else_eq (covers (offset, new) x) (get_or content (x - offset) 0) _ _
          (byte_at-trim offset w1 (omega arith) 0 cache x apart))
