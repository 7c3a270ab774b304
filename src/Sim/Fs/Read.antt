-- ===== src/Sim/Fs/Read.antt =====
-- A read returns the bytes of its window.
use ldgr.Prelude.{
  ℕ, zero, suc, ◌+◌, ◌-◌, ◌%◌, ◌^◌, ◌≤◌, ◌<◌, min, max, ◌≡◌, refl, sym, ◌∙◌, ap, false, List, [],
  ◌∷◌, ◌++◌, append_assoc, arith, ltb, leb, ltb→lt, leb→le, length, take, drop, get_or, Bool-cases,
  inl, inr,
}
use ldgr.Sim.Fs.{
  ByteRange, Ranges, Reading, File, range_end, sat_add, zeros, read_loop, read_window,
}
use ldgr.Sim.Fs.Ranges.{Apart, byte_at, byte_at-below}

-- The bytes from `x` on, `n` of them.
unfoldable pub bytes_from : Ranges → ℕ → ℕ → List ℕ
bytes_from rs x zero = []
bytes_from rs x (suc n) = byte_at rs x ∷ bytes_from rs (suc x) n

bytes_from-append :
    (rs : Ranges) (x m n : ℕ)
    → bytes_from rs x (m + n) ≡ bytes_from rs x m ++ bytes_from rs (x + m) n
unfolding bytes_from
bytes_from-append rs x zero n =
    ap (λ (k : ℕ). bytes_from rs x k) (omega arith)
    ∙ ap (λ (k : ℕ). bytes_from rs k n) (omega arith)
bytes_from-append rs x (suc m) n =
    ap (λ (k : ℕ). bytes_from rs x k) {x = suc m + n} {y = suc (m + n)} (omega arith)
    ∙ ap (λ t. byte_at rs x ∷ t)
        (bytes_from-append rs (suc x) m n
          ∙ ap (λ (k : ℕ). bytes_from rs (suc x) m ++ bytes_from rs k n) {x = suc x + m}
              {y = x + suc m} (omega arith))

bytes_from-below :
    (low : ℕ) (rs : Ranges) (x n : ℕ)
    → Apart low rs
    → x + n ≤ max low x
    → bytes_from rs x n ≡ zeros n
unfolding bytes_from zeros
bytes_from-below low rs x zero h le = refl
bytes_from-below low rs x (suc n) h le =
    rw (byte_at-below low rs x h (omega arith))
      (ap (λ t. 0 ∷ t) (bytes_from-below low rs (suc x) n h (omega arith)))

bytes_from-behind :
    (s : ℕ) (r : ByteRange) (rs : Ranges) (x n : ℕ)
    → s + length r.content ≤ x
    → bytes_from ((s, r) ∷ rs) x n ≡ bytes_from rs x n
unfolding bytes_from byte_at
bytes_from-behind s r rs x zero le = refl
bytes_from-behind s r rs x (suc n) le =
    let e : byte_at ((s, r) ∷ rs) x ≡ byte_at rs x = ground arith in
    rw (bytes_from-behind s r rs (suc x) n (omega arith))
      (ap (λ (b : ℕ). b ∷ bytes_from rs (suc x) n) e)

take-drop :
    (n k : ℕ) (xs : List ℕ)
    → k < length xs
    → take (suc n) (drop k xs) ≡ get_or xs k 0 ∷ take n (drop (suc k) xs)
take-drop n k [] h = absurd (omega arith)
take-drop n zero (x ∷ xs) h = refl
take-drop n (suc k) (x ∷ xs) h = take-drop n k xs (omega arith)

bytes_from-slice :
    (s : ℕ) (r : ByteRange) (rs : Ranges) (x n : ℕ)
    → s ≤ x
    → x + n ≤ s + length r.content
    → bytes_from ((s, r) ∷ rs) x n ≡ take n (drop (x - s) r.content)
unfolding bytes_from byte_at
bytes_from-slice s r rs x zero le h = refl
bytes_from-slice s r rs x (suc n) le h =
    let e : byte_at ((s, r) ∷ rs) x ≡ get_or r.content (x - s) 0 = ground arith in
    let k : suc x - s ≡ suc (x - s) = omega arith in
    rw (take-drop n (x - s) r.content (omega arith), ← k)
      (rw (bytes_from-slice s r rs (suc x) n (omega arith) (omega arith))
        (ap (λ (b : ℕ). b ∷ take n (drop (suc x - s) r.content)) e))

bytes_from-nil : (x n : ℕ) → bytes_from [] x n ≡ zeros n
bytes_from-nil x n = bytes_from-below (x + n) [] x n tt (omega arith)

ltb→ge : (a b : ℕ) → ltb a b ≡ false → b ≤ a
ltb→ge a b h = ground arith

leb→gt : (a b : ℕ) → leb a b ≡ false → b < a
leb→gt a b h = ground arith

-- What a reading becomes when the rest of the window is filled with zeros.
abbrev filled : ℕ → Reading → List ℕ
filled w1 reading = reading.out ++ zeros (w1 - reading.cursor)

module _ (bound w1 offset : ℕ) (bounded : bound ≡ max w1 (offset + 1)) (small : w1 < 2 ^ 64) where
  last_part :
      (s : ℕ) (r : ByteRange) (rs : Ranges) (z : ℕ)
      → Apart s ((s, r) ∷ rs)
      → z ≡ min (s + length r.content) w1
      → bytes_from ((s, r) ∷ rs) z (w1 - z) ≡ bytes_from rs z (w1 - z)
  unfolding bytes_from
  last_part s r rs z h ez = elim (Bool-cases (leb (s + length r.content) w1)) [
    | inl ends ↦ bytes_from-behind s r rs z (w1 - z) (ground arith)
    | inr goes_on ↦ let none : w1 - z ≡ 0 = ground arith in rw none refl
  ]

  -- The bytes of one range, and of the hole before it.
  one_range :
      (s : ℕ) (r : ByteRange) (rs : Ranges) (x y z : ℕ)
      → Apart s ((s, r) ∷ rs)
      → y ≡ max x s
      → z ≡ min (s + length r.content) w1
      → x < s + length r.content
      → y ≤ w1
      → x ≤ w1
      → bytes_from ((s, r) ∷ rs) x (w1 - x)
        ≡ (zeros (s - x) ++ take (z - y) (drop (y - s) r.content)) ++ bytes_from rs z (w1 - z)
  one_range s r rs x y z h ey ez past le le' =
      let all = (s, r) ∷ rs in
      let parts : w1 - x ≡ (s - x) + ((z - y) + (w1 - z)) = omega arith in
      let hole = bytes_from-below s all x (s - x) h (omega arith) in
      let middle = bytes_from-slice s r rs y (z - y) (omega arith) (omega arith) in
      let at_y : x + (s - x) ≡ y = omega arith in
      let at_z : y + (z - y) ≡ z = omega arith in
      rw parts (
        bytes_from-append all x (s - x) ((z - y) + (w1 - z))
        ∙ rw (hole, at_y)
            (ap (λ t. zeros (s - x) ++ t)
                (bytes_from-append all y (z - y) (w1 - z)
                  ∙ rw (middle, at_z)
                      (ap (λ t. take (z - y) (drop (y - s) r.content) ++ t)
                        (last_part s r rs z h ez)))
              ∙ sym (append_assoc (zeros (s - x)) _ _)))

  read_loop_lem :
      (low : ℕ) (rs : Ranges) (reading : Reading)
      → Apart low rs
      → offset ≤ reading.cursor
      → reading.cursor ≤ w1
      → filled w1 (read_loop bound w1 rs reading)
        ≡ reading.out ++ bytes_from rs reading.cursor (w1 - reading.cursor)
  unfolding read_loop
  read_loop_lem low [] reading h ge le =
      ap (λ t. reading.out ++ t) (sym (bytes_from-nil reading.cursor (w1 - reading.cursor)))
  read_loop_lem low ((s, r) ∷ rs) reading h ge le =
      let x = reading.cursor in
      let high = max (s + length r.content) (s + 1) in
      let top : range_end (s, r) ≡ s + length r.content = omega (arith, h.1) in
      elim (Bool-cases (ltb s bound)) [
        | inr above ↦ rw above (
            ap (λ t. reading.out ++ t)
              (sym (
                bytes_from-below s ((s, r) ∷ rs) x (w1 - x) (omega arith, h.1, h.2)
                  (omega (arith, ltb→ge s bound above)))))
        | inl below ↦ elim (Bool-cases (leb (range_end (s, r)) x)) [
          | inl past ↦
              rw (below, past)
                (read_loop_lem (max (s + length r.content) (s + 1)) rs reading h.2 ge le
                  ∙ ap (λ t. reading.out ++ t)
                      (sym (
                        bytes_from-behind s r rs x (w1 - x)
                          (omega (arith, leb→le (range_end (s, r)) x past)))))
          | inr reaches ↦
              let y : ℕ = max x s in
              let n : ℕ = min (range_end (s, r)) w1 - y in
              let z : ℕ = sat_add y n in
              let under = ltb→lt s bound below in
              let over = leb→gt (range_end (s, r)) x reaches in
              let same : n ≡ z - y = omega arith in
              rw (below, reaches)
                (read_loop_lem (max (s + length r.content) (s + 1)) rs
                    (record {
                      out = reading.out ++ (zeros (s - x) ++ take n (drop (y - s) r.content));
                      parents = r.write_id ∷ reading.parents;
                      cursor = z;
                    })
                    h.2 (omega arith) (omega arith)
                  ∙ (append_assoc reading.out _ _
                      ∙ ap
                          (λ (k : ℕ).
                            reading.out
                            ++ ((zeros (s - x) ++ take k (drop (y - s) r.content))
                                ++ bytes_from rs z (w1 - z)))
                          same
                      ∙ ap (λ t. reading.out ++ t)
                          (sym (
                            one_range s r rs x y z (omega arith, h.1, h.2) refl (omega arith)
                              (omega arith) (omega arith) le))))
        ]
      ]

-- A read gives the bytes of the file from `offset` on, as many as are asked for and stand below its end.
pub out-read_window :
    (offset requested_len : ℕ) (file : File)
    → Apart 0 file.cache
    → file.len < 2 ^ 64
    → offset < 2 ^ 64 - 1
    → (read_window offset requested_len file).out
      ≡ bytes_from file.cache offset (min (file.len - offset) requested_len)
unfolding read_window
out-read_window offset requested_len file h small low =
    let taken : ℕ = min (file.len - offset) requested_len in
    let w1 : ℕ = sat_add offset taken in
    let count : w1 - offset ≡ taken = omega arith in
    let bound : max w1 ((offset + 1) % 2 ^ 64) ≡ max w1 (offset + 1) = omega arith in
    read_loop_lem (max w1 ((offset + 1) % 2 ^ 64)) w1 offset bound (omega arith) 0 file.cache
      (record { out = []; parents = []; cursor = offset }) h (omega arith) (omega arith)
    ∙ ap (λ (k : ℕ). bytes_from file.cache offset k) count
