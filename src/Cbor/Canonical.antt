-- ===== src/Cbor/Canonical.antt =====
-- The values that the canonical paths of crates/ledger-format/src/cbor keep: 64-bit integers, byte and
-- text strings shorter than 2 ^ 64, no tag (the allowlist is empty), no NaN and no -0.0, maps in the
-- order of their encoded keys, and at most `room` levels of nesting.
use Prim.Native.Nat.{Ordering}
use ldgr.Prelude.{
  ℕ, suc, ◌^◌, ◌<◌, ◌≡◌, Bool, true, false, Option, none, some, List, [], ok, err, length, All,
}
use ldgr.Prelude.Bytes.{IsByte}
use ldgr.Cbor.{
  CborValue, Items, no_items, item, Entries, no_entries, entry, count_items, count_entries,
  compare_canonical_keys,
}
use ldgr.Cbor.Text.{is_utf8}
use ldgr.Cbor.Float.{is_nan, is_negative_zero}
use ldgr.Cbor.Encode.{try_encode}

abbrev pub IsU64 : ℕ → Type 0
IsU64 n = n < 2 ^ 64

-- The encoded key that the order of a map goes by.
abbrev pub key_bytes : CborValue → List ℕ
key_bytes k = elim (try_encode k) [ ok b ↦ b | err e ↦ [] ]

-- A key is strictly above the one before it.
abbrev pub Precedes : Option (List ℕ) → List ℕ → Type 0
Precedes none k = Unit
Precedes (some p) k = compare_canonical_keys p k ≡ Ordering.lt

mutual
  pub data Canonical : ℕ → CborValue → Type 0 where
    unsigned : {room n : ℕ} → IsU64 n → Canonical (suc room) (CborValue.unsigned n)
    negative : {room n : ℕ} → IsU64 n → Canonical (suc room) (CborValue.negative n)
    bytes :
        {room : ℕ} {b : List ℕ}
        → All IsByte b
        → IsU64 (length b)
        → Canonical (suc room) (CborValue.bytes b)
    text :
        {room : ℕ} {s : List ℕ}
        → is_utf8 s ≡ true
        → IsU64 (length s)
        → Canonical (suc room) (CborValue.text s)
    array :
        {room : ℕ} {vs : Items}
        → CanonicalItems room vs
        → IsU64 (count_items vs)
        → Canonical (suc room) (CborValue.array vs)
    map :
        {room : ℕ} {es : Entries}
        → CanonicalEntries room none es
        → IsU64 (count_entries es)
        → Canonical (suc room) (CborValue.map es)
    bool : {room : ℕ} (b : Bool) → Canonical (suc room) (CborValue.bool b)
    null : {room : ℕ} → Canonical (suc room) CborValue.null
    float :
        {room f : ℕ}
        → IsU64 f
        → is_nan f ≡ false
        → is_negative_zero f ≡ false
        → Canonical (suc room) (CborValue.float f)

  pub data CanonicalItems : ℕ → Items → Type 0 where
    nil : {room : ℕ} → CanonicalItems room no_items
    cons :
        {room : ℕ} {v : CborValue} {vs : Items}
        → Canonical room v
        → CanonicalItems room vs
        → CanonicalItems room (item v vs)

  pub data CanonicalEntries : ℕ → Option (List ℕ) → Entries → Type 0 where
    end : {room : ℕ} {prev : Option (List ℕ)} → CanonicalEntries room prev no_entries
    more :
        {room : ℕ} {prev : Option (List ℕ)} {k v : CborValue} {es : Entries}
        → Precedes prev (key_bytes k)
        → Canonical room k
        → Canonical room v
        → CanonicalEntries room (some (key_bytes k)) es
        → CanonicalEntries room prev (entry k v es)
