-- ===== src/Explorer/Ddmin/Total.antt =====
-- Delta debugging ends, and what it returns still fails and is no longer than the input.
use native.Mathlib.Nat.{le-div_iff_mul-le}
use ldgr.Prelude.{
  ℕ, zero, suc, ◌+◌, ◌-◌, ◌*◌, ◌≤◌, ◌<◌, ◌≡◌, min, max, Bool, true, false, some, List, arith, ltb,
  leb, ◌==◌, if◌then◌else◌, length, length-append, length-take, length-drop, take, drop, Bool-cases,
  Option-cases, inl, inr,
}
use ldgr.Explorer.Ddmin.{candidate, first_failing, div_ceil, reduce, ddmin}

div_ceil_pos : (n d : ℕ) → 0 < n → 0 < d → 0 < div_ceil n d
unfolding div_ceil
div_ceil_pos n d hn hd = (le-div_iff_mul-le {k = d} hd).1 (omega arith)

-- An upper bound of the rounds that are left: a reduction shortens the list, and a refinement brings
-- the number of partitions nearer to its length.
abbrev rounds : ℕ → ℕ → ℕ
rounds n p = n * n + (if leb p n then n - p else n + 1)

rounds-shorter : (n m p q : ℕ) → m < n → 2 ≤ n → rounds m q < rounds n p
rounds-shorter n m p q h two = grind arith

rounds-finer : (n p : ℕ) → 0 < p → 2 ≤ n → (p == n) ≡ false → rounds n (min (p * 2) n) < rounds n p
rounds-finer n p pos two ne = ground arith

module _ {A : Type 0} (fails : List A → Bool) where
  length-candidate :
      (current : List A) (chunk index : ℕ)
      → 0 < chunk
      → index * chunk < length current
      → length (candidate fails current chunk index) < length current
  unfolding candidate
  length-candidate current chunk index pos h =
      let start = index * chunk in
      let end = min (start + chunk) (length current) in
      omega (
        arith,
        length-append (take start current) (drop end current),
        length-take start current,
        length-drop end current,
      )

  first_failing-some :
      (current : List A) (chunk index count : ℕ) (s : List A)
      → 0 < chunk
      → first_failing fails current chunk index count ≡ some s
      → (fails s ≡ true) × (length s < length current)
  unfolding first_failing
  first_failing-some current chunk index zero s pos e = cc
  first_failing-some current chunk index (suc count) s pos e = ground (
    arith,
    first_failing-some current chunk (index + 1) count s,
    length-candidate current chunk index,
  )

  -- The loop ends within `fuel` rounds.
  abbrev Ends : ℕ → List A → ℕ → Type 0
  Ends fuel current p =
      (r : List A) × (reduce fails fuel current p ≡ some r)
      × (fails r ≡ true)
      × (length r ≤ length current)

  reduce-Ends :
      (fuel : ℕ) (current : List A) (p : ℕ)
      → 2 ≤ p
      → rounds (length current) p < fuel
      → fails current ≡ true
      → Ends fuel current p
  unfolding reduce
  reduce-Ends zero current p two h f = absurd (omega arith)
  reduce-Ends (suc fuel) current p two h f = elim (Bool-cases (ltb (length current) 2)) [
    | inl short ↦ (current, rw short, f, omega arith)
    | inr long ↦
        let n = length current in
        let more : 2 ≤ n = ground arith in
        let chunk = div_ceil n p in
        elim (Option-cases (first_failing fails current chunk 0 p)) [
          | inr (s, e) ↦
              let pos = div_ceil_pos n p (omega arith) (omega arith) in
              let (fs, shorter) = first_failing-some current chunk 0 p s pos e in
              let less = rounds-shorter n (length s) p (max (p - 1) 2) shorter more in
              let (r, er, fr, lr) =
                reduce-Ends fuel s (max (p - 1) 2) (omega arith) (omega arith) fs in
              (r, rw (long, e, reduce) er, fr, omega arith)
          | inl e ↦ elim (Bool-cases (p == n)) [
            | inl last ↦ (current, rw (long, e, last, reduce), f, omega arith)
            | inr next ↦
                let less = rounds-finer n p (omega arith) more next in
                let finer : 2 ≤ min (p * 2) n = omega arith in
                let (r, er, fr, lr) =
                  reduce-Ends fuel current (min (p * 2) n) finer (omega arith) f in
                (r, rw (long, e, next, reduce) er, fr, lr)
          ]
        ]
  ]

  -- On an input that fails, the reduction ends within `n * n + n + 2` rounds for `n` elements, and what it
  -- returns still fails and is no longer than the input.
  pub ddmin_total :
      (input : List A)
      → fails input ≡ true
      → (r : List A) × (ddmin fails (length input * length input + length input + 2) input ≡ some r)
        × (fails r ≡ true)
        × (length r ≤ length input)
  unfolding ddmin
  ddmin_total input f = elim (Bool-cases (ltb (length input) 2)) [
    | inl short ↦ (input, rw short, f, omega arith)
    | inr long ↦
        let n = length input in
        let (r, e, fr, lr) = reduce-Ends (n * n + n + 2) input 2 (omega arith) (ground arith) f in
        (r, rw (long, f) e, fr, lr)
  ]
