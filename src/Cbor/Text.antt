-- ===== src/Cbor/Text.antt =====
-- `core::str::from_utf8` as crates/ledger-format/src/cbor/decode.rs uses it: which byte lists are
-- UTF-8 (RFC 3629: no overlong forms, no surrogates, nothing above U+10FFFF).
use ldgr.Prelude.{ℕ, zero, suc, Bool, true, false, ◌&&◌, List, [], ◌∷◌, leb, ◌==◌, if◌then◌else◌}

-- How many continuation bytes follow a leading byte, and the range of the first of them.
record Lead : Type 0 where
  needed : ℕ
  low : ℕ
  high : ℕ

abbrev lead : ℕ → Lead
lead b =
    if leb b 0x7f
    then record { needed = 0; low = 0; high = 0 }
    else if leb b 0xdf
    then record { needed = 1; low = 0x80; high = 0xbf }
    else if leb b 0xef
    then record {
      needed = 2;
      low = if b == 0xe0 then 0xa0 else 0x80;
      high = if b == 0xed then 0x9f else 0xbf;
    }
    else record {
      needed = 3;
      low = if b == 0xf0 then 0x90 else 0x80;
      high = if b == 0xf4 then 0x8f else 0xbf;
    }

abbrev is_lead : ℕ → Bool
is_lead b = if leb b 0x7f then true else leb 0xc2 b && leb b 0xf4

-- `n` more continuation bytes are due, the next of them between `low` and `high`.
utf8_rest : ℕ → ℕ → ℕ → List ℕ → Bool
utf8_rest zero low high [] = true
utf8_rest (suc n) low high [] = false
utf8_rest zero low high (b ∷ bs) =
    is_lead b && utf8_rest (lead b).needed (lead b).low (lead b).high bs
utf8_rest (suc n) low high (b ∷ bs) = leb low b && (leb b high && utf8_rest n 0x80 0xbf bs)

unfoldable pub is_utf8 : List ℕ → Bool
unfolding utf8_rest
is_utf8 bs = utf8_rest 0 0 0 bs
