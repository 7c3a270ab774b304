-- ===== src/Sim/Fs/Ranges/Insert.antt =====
-- Removing the affected ranges and inserting their pieces cuts a window out in place.
use mathlib.Core.Path.{subst}
use ldgr.Prelude.{
  ℕ, ◌+◌, ◌^◌, ◌≤◌, ◌<◌, max, ◌≡◌, refl, sym, ◌∙◌, ap, Bool, true, false, [], ◌∷◌, ◌++◌, arith, ltb,
  if◌then◌else◌, length, Bool-cases, All, append_assoc, inl, inr,
}
use ldgr.Sim.Fs.{ByteRange, Ranges, insert_range, affected, pieces, splits, unaffected, insert_all}
use ldgr.Sim.Fs.Ranges.Trim.{cut-apart, cut-cases, cut, trim, left, right}
use ldgr.Sim.Fs.Ranges.{Apart, insert_range-before, insert_range-behind}

module _ (w0 w1 : ℕ) (window : w0 < w1) where
  Starts : ℕ → Ranges → Type 0
  Starts low rs = All (λ (q : ℕ × ByteRange). low ≤ q.0) rs

  insert_range-head :
      (start low : ℕ) (range : ByteRange) (rs : Ranges)
      → start < low
      → Starts low rs
      → insert_range start range rs ≡ (start, range) ∷ rs
  unfolding insert_range Starts
  insert_range-head start low range [] lt h = refl
  insert_range-head start low range ((s, r) ∷ rs) lt h =
      insert_range-behind start s range r rs (omega (arith, h.0))

  insert_all-skip :
      (s low : ℕ) (r : ByteRange) (ps rs : Ranges)
      → s < low
      → Starts low ps
      → insert_all ps ((s, r) ∷ rs) ≡ (s, r) ∷ insert_all ps rs
  unfolding insert_all Starts
  insert_all-skip s low r [] rs lt h = refl
  insert_all-skip s low r ((start, range) ∷ ps) rs lt h =
      rw (insert_range-before start s range r rs (omega (arith, h.0)))
        (insert_all-skip s low r ps (insert_range start range rs) lt h.1)

  Starts-weaken : (low low' : ℕ) (rs : Ranges) → low' ≤ low → Starts low rs → Starts low' rs
  unfolding Starts
  Starts-weaken low low' [] le h = tt
  Starts-weaken low low' (r ∷ rs) le h = (omega (arith, h.0), Starts-weaken low low' rs le h.1)

  Starts-if :
      (low : ℕ) (b : Bool) (q : ℕ × ByteRange) (rest : Ranges)
      → low ≤ q.0
      → Starts low rest
      → Starts low ((if b then q ∷ [] else []) ++ rest)
  unfolding Starts
  Starts-if low true q rest le h = (le, h)
  Starts-if low false q rest le h = h

  Starts-pieces :
      (start : ℕ) (range : ByteRange) (rest : Ranges)
      → start < w1
      → Starts start rest
      → Starts start (pieces w0 w1 (start, range) ++ rest)
  unfolding pieces
  Starts-pieces start range rest lt h =
      subst (Starts start) (sym (append_assoc (if ltb start w0 then _ else []) _ rest)) (
        Starts-if start (ltb start w0) _ _ (omega arith) (Starts-if start _ _ rest (omega arith) h))

  Starts-splits : (low : ℕ) (rs : Ranges) → Apart low rs → Starts low (splits w0 w1 rs)
  unfolding splits Starts affected
  Starts-splits low [] h = tt
  Starts-splits low ((s, r) ∷ rs) h =
      let rest =
        Starts-weaken (max (s + length r.content) (s + 1)) s (splits w0 w1 rs) (omega arith)
          (Starts-splits (max (s + length r.content) (s + 1)) rs h.2) in
      Starts-weaken s low (splits w0 w1 ((s, r) ∷ rs)) h.0
        (elim (Bool-cases (affected w0 w1 (s, r))) [
          | inl in' ↦ rw in' (Starts-pieces s r (splits w0 w1 rs) (ground arith) rest)
          | inr out ↦ rw out rest
        ])

  Starts-unaffected : (low : ℕ) (rs : Ranges) → Apart low rs → Starts low (unaffected w0 w1 rs)
  unfolding unaffected Starts
  Starts-unaffected low [] h = tt
  Starts-unaffected low ((s, r) ∷ rs) h =
      let rest =
        Starts-weaken (max (s + length r.content) (s + 1)) low (unaffected w0 w1 rs)
          (omega (arith, h.0)) (Starts-unaffected (max (s + length r.content) (s + 1)) rs h.2) in
      elim (Bool-cases (affected w0 w1 (s, r))) [
        | inl in' ↦ rw in' rest
        | inr out ↦ rw out (h.0, rest)
      ]

  -- Behind the window nothing is removed.
  calm :
      (low : ℕ) (rs : Ranges)
      → w1 ≤ low
      → Apart low rs
      → (splits w0 w1 rs ≡ []) × (unaffected w0 w1 rs ≡ rs) × (trim w0 w1 window rs ≡ rs)
  unfolding splits unaffected
  calm low [] le h = (refl, refl, refl)
  calm low ((s, r) ∷ rs) le h =
      let (a, b, c) = calm (max (s + length r.content) (s + 1)) rs (omega (arith, h.0)) h.2 in
      let out = cut-apart w0 w1 window s r h.1 (inr (omega (arith, h.0))) in
      (rw (out, a) refl, rw (out, b) refl, rw (out, c) refl)

  insert_all-append :
      (ps qs rs : Ranges) → insert_all (ps ++ qs) rs ≡ insert_all qs (insert_all ps rs)
  unfolding insert_all
  insert_all-append [] qs rs = refl
  insert_all-append ((s, r) ∷ ps) qs rs = insert_all-append ps qs (insert_range s r rs)

  insert_all-front :
      (s : ℕ) (q r : ByteRange) (rs : Ranges)
      → Apart (max (s + length r.content) (s + 1)) rs
      → insert_all (splits w0 w1 rs) (unaffected w0 w1 rs) ≡ trim w0 w1 window rs
      → insert_all ((s, q) ∷ splits w0 w1 rs) (unaffected w0 w1 rs) ≡ (s, q) ∷ trim w0 w1 window rs
  unfolding insert_all
  insert_all-front s q r rs h e =
      let high = max (s + length r.content) (s + 1) in
      ap (insert_all (splits w0 w1 rs)) (
        insert_range-head s high q (unaffected w0 w1 rs) (omega arith)
          (Starts-unaffected high rs h))
      ∙ (insert_all-skip s high q (splits w0 w1 rs) (unaffected w0 w1 rs) (omega arith)
            (Starts-splits high rs h)
          ∙ ap (λ t. (s, q) ∷ t) e)

  insert_all-right :
      (s : ℕ) (r : ByteRange) (rs : Ranges)
      → w1 < s + length r.content
      → Apart (max (s + length r.content) (s + 1)) rs
      → insert_all (right w0 w1 window (s, r) ++ splits w0 w1 rs) (unaffected w0 w1 rs)
        ≡ right w0 w1 window (s, r) ++ trim w0 w1 window rs
  unfolding insert_all
  insert_all-right s r rs long h =
      let high = max (s + length r.content) (s + 1) in
      let (a, b, c) = calm high rs (omega arith) h in
      rw (a, b, c)
        (insert_range-head w1 high _ rs (omega arith) (rw b at (Starts-unaffected high rs h)))

  insert_all-both :
      (s : ℕ) (r : ByteRange) (rs : Ranges)
      → s < w0
      → w1 < s + length r.content
      → Apart (max (s + length r.content) (s + 1)) rs
      → insert_all
          ((left w0 w1 window (s, r) ++ right w0 w1 window (s, r)) ++ splits w0 w1 rs)
          (unaffected w0 w1 rs)
        ≡ (left w0 w1 window (s, r) ++ right w0 w1 window (s, r)) ++ trim w0 w1 window rs
  unfolding insert_all
  insert_all-both s r rs short long h =
      let high = max (s + length r.content) (s + 1) in
      let (a, b, c) = calm high rs (omega arith) h in
      let starts = rw b at (Starts-unaffected high rs h) in
      rw (a, b, c, insert_range-head s high _ rs (omega arith) starts)
        (insert_range-before w1 s _ _ rs (omega arith)
          ∙ ap (λ t. left w0 w1 window (s, r) ++ t)
              (insert_range-head w1 high _ rs (omega arith) starts))

  insert_all-cut :
      (s : ℕ) (r : ByteRange) (rs : Ranges)
      → s + length r.content < 2 ^ 64
      → Apart (max (s + length r.content) (s + 1)) rs
      → insert_all (splits w0 w1 rs) (unaffected w0 w1 rs) ≡ trim w0 w1 window rs
      → insert_all (cut w0 w1 window (s, r) ++ splits w0 w1 rs) (unaffected w0 w1 rs)
        ≡ cut w0 w1 window (s, r) ++ trim w0 w1 window rs
  insert_all-cut s r rs fits h e =
      let high = max (s + length r.content) (s + 1) in
      cut-cases w0 w1 window
        (λ c. insert_all (c ++ splits w0 w1 rs) (unaffected w0 w1 rs) ≡ c ++ trim w0 w1 window rs) s
        r fits (λ o. insert_all-front s r r rs h e) (λ a b c d. e)
        (λ a b c. insert_all-front s _ r rs h e) (λ a b c. insert_all-right s r rs c h)
        (λ a b. insert_all-both s r rs a b h)

  -- Removing the affected ranges and inserting their pieces cuts the window out in place.
  pub insert_all-trim :
      (low : ℕ) (rs : Ranges)
      → Apart low rs
      → insert_all (splits w0 w1 rs) (unaffected w0 w1 rs) ≡ trim w0 w1 window rs
  unfolding splits unaffected insert_all
  insert_all-trim low [] h = refl
  insert_all-trim low ((s, r) ∷ rs) h =
      let high = max (s + length r.content) (s + 1) in
      let e = insert_all-trim (max (s + length r.content) (s + 1)) rs h.2 in
      elim (Bool-cases (affected w0 w1 (s, r))) [
        | inl in' ↦ rw in' (rw in' at (insert_all-cut s r rs h.1 h.2 e))
        | inr out ↦ rw out (
            insert_all-skip s high r (splits w0 w1 rs) (unaffected w0 w1 rs) (omega arith)
              (Starts-splits high rs h.2)
            ∙ ap (λ t. (s, r) ∷ t) e)
      ]
