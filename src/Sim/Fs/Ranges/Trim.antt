-- ===== src/Sim/Fs/Ranges/Trim.antt =====
-- Cutting a window out of the ranges, in place.
use ldgr.Prelude.{
  ℕ, zero, suc, ◌+◌, ◌-◌, ◌^◌, ◌≤◌, ◌<◌, min, max, ◌≡◌, refl, ◌∙◌, ap, Bool, false, ◌&&◌, List, [],
  ◌∷◌, ◌++◌, arith, ltb, leb, if◌then◌else◌, length, length-take, length-drop, take, drop, get_or,
  Bool-cases, ◌⊎◌, inl, inr,
}
use ldgr.Sim.Fs.{PageState, ByteRange, Ranges, range_end, affected, pieces}
use ldgr.Sim.Fs.Ranges.{Apart, covers, byte_at, byte_at-below, Apart-weaken, Clear}

get_or-take : (n i d : ℕ) (xs : List ℕ) → i < n → get_or (take n xs) i d ≡ get_or xs i d
get_or-take zero i d xs h = absurd (omega arith)
get_or-take (suc n) i d [] h = refl
get_or-take (suc n) zero d (x ∷ xs) h = refl
get_or-take (suc n) (suc i) d (x ∷ xs) h = get_or-take n i d xs (omega arith)

get_or-drop : (n i d : ℕ) (xs : List ℕ) → get_or (drop n xs) i d ≡ get_or xs (n + i) d
get_or-drop zero i d xs = ap (λ (k : ℕ). get_or xs k d) (omega arith)
get_or-drop (suc n) i d [] = refl
get_or-drop (suc n) i d (x ∷ xs) =
    get_or-drop n i d xs
    ∙ ap (λ (k : ℕ). get_or (x ∷ xs) k d) {x = suc (n + i)} {y = suc n + i} (omega arith)

module _ (w0 w1 : ℕ) (window : w0 < w1) where
  -- A range of which one end or none is cut, cut or not.
  abbrev pub cut : ℕ × ByteRange → Ranges
  cut r = if affected w0 w1 r then pieces w0 w1 r else r ∷ []

  abbrev pub trim : Ranges → Ranges
  trim [] = []
  trim (r ∷ rs) = cut r ++ trim rs

  abbrev pub left : ℕ × ByteRange → Ranges
  left (start, range) =
      (start, record range { content = take (w0 - start) range.content; state = PageState.dirty })
      ∷ []

  abbrev pub right : ℕ × ByteRange → Ranges
  right (start, range) =
      (w1, record range { content = drop (w1 - start) range.content; state = PageState.dirty }) ∷ []

  pub cut-apart :
      (start : ℕ) (range : ByteRange)
      → start + length range.content < 2 ^ 64
      → (start + length range.content ≤ w0) ⊎ (w1 ≤ start)
      → affected w0 w1 (start, range) ≡ false
  unfolding affected
  cut-apart start range fits (inl before) = ground arith
  cut-apart start range fits (inr behind) = ground arith

  cut-inside :
      (start : ℕ) (range : ByteRange)
      → start + length range.content < 2 ^ 64
      → w0 < start + length range.content
      → start < w1
      → cut (start, range)
        ≡ (if ltb start w0 then left (start, range) else [])
          ++ (if ltb w1 (start + length range.content) then right (start, range) else [])
  unfolding affected pieces
  cut-inside start range fits h k =
      let inner : min (w0 - start) (length range.content) ≡ w0 - start = omega arith in
      let top : range_end (start, range) ≡ start + length range.content = omega arith in
      ground (arith, inner, top)

  -- To show something of the cut of a range, show it of each way in which the range lies to the window.
  pub cut-cases :
      (P : Ranges → Type 0) (start : ℕ) (range : ByteRange)
      → start + length range.content < 2 ^ 64
      → ((start + length range.content ≤ w0) ⊎ (w1 ≤ start) → P ((start, range) ∷ []))
      → (w0 < start + length range.content
          → start < w1
          → w0 ≤ start
          → start + length range.content ≤ w1
          → P [])
      → (start < w0
          → w0 < start + length range.content
          → start + length range.content ≤ w1
          → P (left (start, range)))
      → (w0 ≤ start → start < w1 → w1 < start + length range.content → P (right (start, range)))
      → (start < w0
          → w1 < start + length range.content
          → P (left (start, range) ++ right (start, range)))
      → P (cut (start, range))
  cut-cases P start range fits out inner l r lr =
      elim (Bool-cases (leb (start + length range.content) w0)) [
        | inl before ↦
            rw (cut-apart start range fits (inl (ground arith))) (out (inl (ground arith)))
        | inr after ↦ elim (Bool-cases (leb w1 start)) [
          | inl behind ↦
              rw (cut-apart start range fits (inr (ground arith))) (out (inr (ground arith)))
          | inr ahead ↦
              rw (cut-inside start range fits (ground arith) (ground arith))
                (elim (Bool-cases (ltb start w0)) [
                  | inl starts ↦ elim (Bool-cases (ltb w1 (start + length range.content))) [
                    | inl ends ↦ rw (starts, ends) (lr (ground arith) (ground arith))
                    | inr stops ↦
                        rw (starts, stops) (l (ground arith) (ground arith) (ground arith))
                  ]
                  | inr begins ↦ elim (Bool-cases (ltb w1 (start + length range.content))) [
                    | inl ends ↦ rw (begins, ends) (r (ground arith) (ground arith) (ground arith))
                    | inr stops ↦
                        rw (begins, stops)
                          (inner (ground arith) (ground arith) (ground arith) (ground arith))
                  ]
                ])
        ]
      ]

  cut-Apart :
      (low start : ℕ) (range : ByteRange) (rest : Ranges)
      → start + length range.content < 2 ^ 64
      → low ≤ start
      → Apart (max (start + length range.content) (start + 1)) rest
      → Apart low (cut (start, range) ++ rest)
  cut-Apart low start range rest fits le h =
      let taken = length-take (w0 - start) range.content in
      let dropped = length-drop (w1 - start) range.content in
      cut-cases (λ c. Apart low (c ++ rest)) start range fits (λ _. (le, fits, h))
        (λ _ _ _ _. Apart-weaken _ low rest (omega arith) h)
        (λ a b c. (le, omega (arith, taken), Apart-weaken _ _ rest (omega (arith, taken)) h))
        (λ a b c.
          (omega arith, omega (arith, dropped), Apart-weaken _ _ rest (omega (arith, dropped)) h))
        (λ a b. (
          le,
          omega (arith, taken),
          (
            omega (arith, taken),
            omega (arith, dropped),
            Apart-weaken _ _ rest (omega (arith, dropped)) h,
          ),
        ))

  abbrev within : ℕ → Bool
  within x = leb w0 x && ltb x w1

  byte_at-cut :
      (start : ℕ) (range : ByteRange) (rest : Ranges) (x : ℕ)
      → start + length range.content < 2 ^ 64
      → Apart (max (start + length range.content) (start + 1)) rest
      → byte_at (cut (start, range) ++ rest) x ≡ (
          if covers (start, range) x
          then (if within x then 0 else get_or range.content (x - start) 0)
          else byte_at rest x)
  unfolding byte_at
  byte_at-cut start range rest x fits h =
      let taken = length-take (w0 - start) range.content in
      let dropped = length-drop (w1 - start) range.content in
      let front = get_or-take (w0 - start) (x - start) 0 range.content in
      let back = get_or-drop (w1 - start) (x - w1) 0 range.content in
      let past = byte_at-below (max (start + length range.content) (start + 1)) rest x h in
      cut-cases
        (λ c. byte_at (c ++ rest) x ≡ (
          if covers (start, range) x
          then (if within x then 0 else get_or range.content (x - start) 0)
          else byte_at rest x))
        start range fits (λ o. elim o [ inl b ↦ ground arith | inr b ↦ ground arith ])
        (λ a b c d. ground (arith, past)) (λ a b c. ground (arith, taken, front, past))
        (λ a b c. ground (arith, dropped, back, past))
        (λ a b. ground (arith, taken, dropped, front, back, past))

  pub trim-Apart : (low : ℕ) (rs : Ranges) → Apart low rs → Apart low (trim rs)
  trim-Apart low [] h = tt
  trim-Apart low ((s, r) ∷ rs) h =
      cut-Apart low s r (trim rs) h.1 h.0 (trim-Apart (max (s + length r.content) (s + 1)) rs h.2)

  -- Nothing is left in the window, and all outside it is as before.
  pub byte_at-trim :
      (low : ℕ) (rs : Ranges) (x : ℕ)
      → Apart low rs
      → byte_at (trim rs) x ≡ (if within x then 0 else byte_at rs x)
  unfolding byte_at
  byte_at-trim low [] x h = ground arith
  byte_at-trim low ((s, r) ∷ rs) x h =
      let high = max (s + length r.content) (s + 1) in
      ground (
        arith,
        byte_at-cut s r (trim rs) x h.1 (trim-Apart (max (s + length r.content) (s + 1)) rs h.2),
        byte_at-trim (max (s + length r.content) (s + 1)) rs x h.2,
        byte_at-below (max (s + length r.content) (s + 1)) rs x h.2,
      )

  cut-before :
      (new : ByteRange) (start : ℕ) (range : ByteRange)
      → start + length range.content ≤ w0
      → (max (start + length range.content) (start + 1) ≤ w0)
        ⊎ (max (w0 + length new.content) (w0 + 1) ≤ start)
        ⊎ ((start ≡ w0) × (length range.content ≡ 0))
  cut-before new start range b = elim (Bool-cases (ltb start w0)) [
    | inl starts ↦ inl (ground arith)
    | inr here ↦ inr (inr (ground arith, ground arith))
  ]

  cut-Clear :
      (new : ByteRange) (start : ℕ) (range : ByteRange) (rest : Ranges)
      → w0 + length new.content ≡ w1
      → start + length range.content < 2 ^ 64
      → Clear (w0, new) rest
      → Clear (w0, new) (cut (start, range) ++ rest)
  cut-Clear new start range rest e fits h =
      let taken = length-take (w0 - start) range.content in
      cut-cases (λ c. Clear (w0, new) (c ++ rest)) start range fits
        (λ o. elim o [
          | inl b ↦ (cut-before new start range b, h)
          | inr b ↦ (inr (inl (omega arith)), h)
        ])
        (λ a b c d. h) (λ a b c. (inl (omega (arith, taken)), h))
        (λ a b c. (inr (inl (omega arith)), h))
        (λ a b. (inl (omega (arith, taken)), (inr (inl (omega arith)), h)))

  pub trim-Clear :
      (new : ByteRange) (low : ℕ) (rs : Ranges)
      → w0 + length new.content ≡ w1
      → Apart low rs
      → Clear (w0, new) (trim rs)
  trim-Clear new low [] e h = tt
  trim-Clear new low ((s, r) ∷ rs) e h =
      cut-Clear new s r (trim rs) e h.1
        (trim-Clear new (max (s + length r.content) (s + 1)) rs e h.2)
