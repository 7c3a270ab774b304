-- ===== src/Explorer/Ddmin/Minimal.antt =====
-- The result of delta debugging is one-minimal: no single element can be left out.
use native.Mathlib.Nat.{le-div_iff_mul-le, div-lt_iff_lt-mul}
use ldgr.Prelude.{
  ℕ, zero, suc, ◌+◌, ◌-◌, ◌*◌, ◌/◌, ◌≤◌, ◌<◌, ◌≡◌, Bool, true, false, none, some, List, ◌++◌, arith,
  min, max, ltb, ◌==◌, length, take, drop, ==_iff, Bool-cases, Option-cases, inl, inr,
}
use ldgr.Explorer.Ddmin.{div_ceil, candidate, first_failing, reduce, ddmin}
use ldgr.Explorer.Ddmin.Total.{ddmin_total}

some_eq : {A : Type 0} (a b : A) → some a ≡ some b → a ≡ b
some_eq a b e = cc

module _ {A : Type 0} (fails : List A → Bool) where
  -- Leaving out any one element makes the failure go away.
  abbrev pub IsOneMinimal : List A → Type 0
  IsOneMinimal r = (i : ℕ) → i < length r → fails (take i r ++ drop (suc i) r) ≡ false

  -- Where no candidate fails, none of those tried does. At the end, the chunks have one element.
  first_failing-none :
      (current : List A) (index count j : ℕ)
      → first_failing fails current 1 index count ≡ none
      → index ≤ j
      → j < index + count
      → j < length current
      → fails (candidate fails current 1 j) ≡ false
  unfolding first_failing
  first_failing-none current index zero j e lo hi inside = absurd (omega arith)
  first_failing-none current index (suc count) j e lo hi inside =
      elim (Bool-cases (fails (candidate fails current 1 index))) [
        | inl found ↦ ground arith
        | inr passed ↦
            (let rest : first_failing fails current 1 (index + 1) count ≡ none = ground arith in
              elim (Bool-cases (j == index)) [
                | inl here ↦ rw ((==_iff j index).0 here) passed
                | inr later ↦
                    first_failing-none current (index + 1) count j rest (ground arith) (omega arith)
                      inside
              ])
      ]

  candidate_one :
      (current : List A) (i : ℕ)
      → i < length current
      → candidate fails current 1 i ≡ take i current ++ drop (suc i) current
  unfolding candidate
  candidate_one current i h =
      let start : i * 1 ≡ i = omega arith in
      let end : min (i * 1 + 1) (length current) ≡ suc i = omega arith in rw (end, start)

  div_ceil_self : (n : ℕ) → 2 ≤ n → div_ceil n n ≡ 1
  unfolding div_ceil
  div_ceil_self n h =
      let below : (n + (n - 1)) / n < 2 =
        (div-lt_iff_lt-mul {k = n} (omega arith)).1 (omega arith) in
      let above : 1 ≤ (n + (n - 1)) / n =
        (le-div_iff_mul-le {k = n} (omega arith)).1 (omega arith) in
      omega arith

  reduce-IsOneMinimal :
      (fuel : ℕ) (current : List A) (p : ℕ) (r : List A)
      → reduce fails fuel current p ≡ some r
      → 2 ≤ length r
      → IsOneMinimal r
  unfolding reduce
  reduce-IsOneMinimal zero current p r e two i h = cc
  reduce-IsOneMinimal (suc fuel) current p r e two i h =
      elim (Bool-cases (ltb (length current) 2)) [
        | inl short ↦ ground arith
        | inr long ↦
            elim (Option-cases (first_failing fails current (div_ceil (length current) p) 0 p)) [
              | inl none_found ↦ elim (Bool-cases (p == length current)) [
                | inl last ↦
                    (let n = length current in
                      let whole : p ≡ n = (==_iff p n).0 last in
                      let same : current ≡ r =
                        some_eq current r (rw (long, none_found, last) at e) in
                      let long' : 2 ≤ n = ground arith in
                      let tried : first_failing fails current 1 0 n ≡ none =
                        rw (whole, div_ceil_self n long') at none_found in
                      let inside : i < n = rw (← same) at h in
                      let passed =
                        first_failing-none current 0 n i tried (omega arith) (omega arith) inside in
                      rw (← same) (rw (candidate_one current i inside) at passed))
                | inr coarse ↦
                    reduce-IsOneMinimal fuel current (min (p * 2) (length current)) r
                      (rw (long, none_found, coarse) at e) two i h
              ]
              | inr (s, found) ↦
                  reduce-IsOneMinimal fuel s (max (p - 1) 2) r (rw (long, found) at e) two i h
            ]
      ]

  -- On an input that fails, the reduction returns a list from which, if it has two elements or more,
  -- no single element can be left out: without it the test does not fail.
  pub ddmin-IsOneMinimal :
      (input : List A)
      → fails input ≡ true
      → (r : List A) × (ddmin fails (length input * length input + length input + 2) input ≡ some r)
        × (fails r ≡ true)
        × (2 ≤ length r → IsOneMinimal r)
  unfolding ddmin
  ddmin-IsOneMinimal input f =
      let (r, e, fr, size) = ddmin_total fails input f in
      (
        r,
        e,
        fr,
        λ two i h.
            let n = length input in
            let long : ltb n 2 ≡ false = ground arith in
            reduce-IsOneMinimal (n * n + n + 2) input 2 r (rw (long, f) at e) two i h,
      )
