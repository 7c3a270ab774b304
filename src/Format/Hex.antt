-- ===== src/Format/Hex.antt =====
-- crates/ledger-format/src/hex.rs: a hash is its 32 bytes, and a string the list of its bytes.
use ldgr.Prelude.{
  ℕ, ◌+◌, ◌-◌, ◌*◌, ◌/◌, ◌%◌, ◌<◌, ◌≡◌, refl, ap, true, ◌&&◌, Option, none, some, List, [], ◌∷◌,
  map, arith, ltb, leb, ◌==◌, ==_iff, if◌then◌else◌, length, length-map, get_or, All, Result, ok,
  err, ◌>>=◌, >>=-eq-ok,
}
use ldgr.Prelude.Tests.{every_below, every_below-lt}
use ldgr.Prelude.Bytes.{IsByte}

pub data HexError : Type 0 where
  invalid_length : ℕ → HexError
  invalid_char : ℕ → ℕ → HexError

-- The table `HEX`.
abbrev hex_digits : List ℕ
hex_digits =
    b'0' ∷ b'1' ∷ b'2' ∷ b'3' ∷ b'4' ∷ b'5' ∷ b'6' ∷ b'7' ∷ b'8' ∷ b'9' ∷ b'a' ∷ b'b' ∷ b'c' ∷ b'd'
    ∷ b'e' ∷ b'f' ∷ []

unfoldable pub digit : ℕ → ℕ
digit n = get_or hex_digits n 0

unfoldable pub hash_to_hex : List ℕ → List ℕ
hash_to_hex [] = []
hash_to_hex (byte ∷ bytes) = digit (byte / 16) ∷ digit (byte % 16) ∷ hash_to_hex bytes

unfoldable pub hex_val : ℕ → Option ℕ
hex_val byte =
    if leb b'0' byte && leb byte b'9'
    then some (byte - b'0')
    else if leb b'a' byte && leb byte b'f'
    then some (byte - b'a' + 10)
    else if leb b'A' byte && leb byte b'F'
    then some (byte - b'A' + 10)
    else none

-- `hex_val(c).ok_or(..)`
unfoldable pub hex_val_or : ℕ → ℕ → Result HexError ℕ
hex_val_or index c = elim (hex_val c) [ some v ↦ ok v | none ↦ err (invalid_char index c) ]

-- The loop over `chunks_exact(2)`, from chunk `i` on; `high << 4 | low` is `high * 16 + low`.
unfoldable pub decode_chunks : ℕ → List ℕ → Result HexError (List ℕ)
decode_chunks i [] = ok []
decode_chunks i (c ∷ []) = ok []
decode_chunks i (c ∷ d ∷ rest) = do
  high ← hex_val_or (i * 2) c
  low ← hex_val_or (i * 2 + 1) d
  out ← decode_chunks (i + 1) rest
  ok ((high * 16 + low) ∷ out)

unfoldable pub hash_from_hex : List ℕ → Result HexError (List ℕ)
hash_from_hex s = if length s == 64 then decode_chunks 0 s else err (invalid_length (length s))

-- The lower-case form of a letter.
abbrev pub to_lower : ℕ → ℕ
to_lower c = if leb b'A' c && leb c b'Z' then c + 32 else c

digit_table :
    every_below (λ n. elim (hex_val (digit n)) [ some v ↦ v == n | none ↦ n == 16 ]) 16 ≡ true
unfolding every_below hex_val digit
digit_table = refl

hex_val-digit : (n : ℕ) → n < 16 → hex_val (digit n) ≡ some n
hex_val-digit n h =
    let found =
      every_below-lt (λ n. elim (hex_val (digit n)) [ some v ↦ v == n | none ↦ n == 16 ]) 16 n
        digit_table h in
    ground arith

hex_val_or-digit : (i n : ℕ) → n < 16 → hex_val_or i (digit n) ≡ ok n
unfolding hex_val_or
hex_val_or-digit i n h = rw (hex_val-digit n h, hex_val_or)

value_table :
    every_below
      (λ c. elim (hex_val c) [ some v ↦ ltb v 16 && digit v == to_lower c | none ↦ true ])
      256
    ≡ true
unfolding every_below hex_val digit
value_table = refl

digit-hex_val : (c v : ℕ) → c < 256 → hex_val c ≡ some v → (v < 16) × (digit v ≡ to_lower c)
digit-hex_val c v h e =
    let found =
      every_below-lt
        (λ c. elim (hex_val c) [ some v ↦ ltb v 16 && digit v == to_lower c | none ↦ true ]) 256 c
        value_table h in
    (ground arith, ground (arith, ==_iff (digit v) (to_lower c)))

length-hash_to_hex : (h : List ℕ) → length (hash_to_hex h) ≡ 2 * length h
unfolding hash_to_hex
length-hash_to_hex [] = refl
length-hash_to_hex (b ∷ bs) = omega (arith, length-hash_to_hex bs)

decode_chunks-hash_to_hex :
    (i : ℕ) (h : List ℕ) → All IsByte h → decode_chunks i (hash_to_hex h) ≡ ok h
unfolding decode_chunks hash_to_hex
decode_chunks-hash_to_hex i [] hb = refl
decode_chunks-hash_to_hex i (b ∷ bs) hb =
    rw
      (
        hex_val_or-digit (i * 2) (b / 16) (omega arith),
        hex_val_or-digit (i * 2 + 1) (b % 16) (omega arith),
        decode_chunks-hash_to_hex (i + 1) bs hb.1,
      )
      (ap (λ (n : ℕ). ok (n ∷ bs)) (omega arith))

-- A hash of 32 bytes, written as hex, is read back.
hash_from_hex-hash_to_hex :
    (h : List ℕ) → All IsByte h → length h ≡ 32 → hash_from_hex (hash_to_hex h) ≡ ok h
unfolding hash_from_hex
hash_from_hex-hash_to_hex h hb size =
    let full : (length (hash_to_hex h) == 64) ≡ true = ground (arith, length-hash_to_hex h) in
    rw full (decode_chunks-hash_to_hex 0 h hb)

hex_val_or-ok : (i c v : ℕ) → hex_val_or i c ≡ ok v → hex_val c ≡ some v
unfolding hex_val_or
hex_val_or-ok i c v e = ground arith

decode_chunks_sound :
    (i : ℕ) (s h : List ℕ)
    → All IsByte s
    → length s % 2 ≡ 0
    → decode_chunks i s ≡ ok h
    → All IsByte h × (hash_to_hex h ≡ map to_lower s)
unfolding decode_chunks hash_to_hex
decode_chunks_sound i [] h hb even e = let none_left : h ≡ [] = cc in rw none_left (tt, refl)
decode_chunks_sound i (c ∷ []) h hb even e = absurd (omega arith)
decode_chunks_sound i (c ∷ d ∷ rest) h hb even e =
    let (high, e1, k1) = >>=-eq-ok (hex_val_or (i * 2) c) _ e in
    let (low, e2, k2) = >>=-eq-ok (hex_val_or (i * 2 + 1) d) _ k1 in
    let (out, e3, k3) = >>=-eq-ok (decode_chunks (i + 1) rest) _ k2 in
    let (h1, s1) = digit-hex_val c high hb.0 (hex_val_or-ok (i * 2) c high e1) in
    let (h2, s2) = digit-hex_val d low hb.1.0 (hex_val_or-ok (i * 2 + 1) d low e2) in
    let (bytes, same) = decode_chunks_sound (i + 1) rest out hb.1.1 (omega arith) e3 in
    let upper : (high * 16 + low) / 16 ≡ high = omega arith in
    let lower : (high * 16 + low) % 16 ≡ low = omega arith in
    let result : h ≡ (high * 16 + low) ∷ out = cc in
    rw (result, upper, lower, s1, s2, same) ((omega arith, bytes), refl)

-- Where a string of bytes is accepted, its hash has 32 bytes and is written as the string in lower case.
pub hash_to_hex-hash_from_hex :
    (s h : List ℕ)
    → All IsByte s
    → hash_from_hex s ≡ ok h
    → (length h ≡ 32) × All IsByte h × (hash_to_hex h ≡ map to_lower s)
unfolding hash_from_hex
hash_to_hex-hash_from_hex s h hb e =
    let size : length s ≡ 64 = ground arith in
    let run : decode_chunks 0 s ≡ ok h = ground arith in
    let (bytes, same) = decode_chunks_sound 0 s h hb (omega arith) run in
    (
      omega
          (arith, length-hash_to_hex h, ap (λ (l : List ℕ). length l) same, length-map s to_lower),
      bytes,
      same,
    )
