-- ===== src/Format/Hash.antt =====
-- crates/ledger-format/src/entry.rs: a content address is its 32 bytes, with its framed wire form.
use ldgr.Prelude.{
  ℕ, ◌≡◌, ◌||◌, not, List, [], ◌∷◌, arith, ◌==◌, if◌then◌else◌, length, Result, ok, err,
}
use ldgr.Cbor.{CborError, malformed_manifest}

abbrev pub multihash_blake3_code : ℕ
multihash_blake3_code = 0x1e

abbrev pub multihash_blake3_len : ℕ
multihash_blake3_len = 0x20

abbrev pub framed_hash_len : ℕ
framed_hash_len = 34

unfoldable pub to_framed_bytes : List ℕ → List ℕ
to_framed_bytes hash = multihash_blake3_code ∷ multihash_blake3_len ∷ hash

-- The digest behind a prefix that is right.
unfoldable pub framed_digest : List ℕ → Result CborError (List ℕ)
framed_digest (code ∷ len ∷ digest) =
    if not (code == multihash_blake3_code) || not (len == multihash_blake3_len)
    then err (malformed_manifest "hash multihash prefix must be [0x1e, 0x20]")
    else ok digest
framed_digest short = err (malformed_manifest "hash must be a 34-byte framed BLAKE3 multihash")

unfoldable pub from_framed_bytes : List ℕ → Result CborError (List ℕ)
unfolding framed_digest
from_framed_bytes bytes =
    if not (length bytes == framed_hash_len)
    then err (malformed_manifest "hash must be a 34-byte framed BLAKE3 multihash")
    else framed_digest bytes

pub from_framed_bytes-to_framed_bytes :
    (hash : List ℕ) → length hash ≡ 32 → from_framed_bytes (to_framed_bytes hash) ≡ ok hash
unfolding from_framed_bytes to_framed_bytes
from_framed_bytes-to_framed_bytes hash h = ground arith

framed_digest-ok :
    (bytes hash : List ℕ)
    → length bytes ≡ framed_hash_len
    → framed_digest bytes ≡ ok hash
    → (length hash ≡ 32) × (to_framed_bytes hash ≡ bytes)
unfolding framed_digest to_framed_bytes
framed_digest-ok [] hash h e = cc
framed_digest-ok (a ∷ []) hash h e = cc
framed_digest-ok (a ∷ b ∷ bs) hash h e =
    let same : hash ≡ bs = ground arith in rw same (omega arith, ground arith)

pub to_framed_bytes-from_framed_bytes :
    (bytes hash : List ℕ)
    → from_framed_bytes bytes ≡ ok hash
    → (length hash ≡ 32) × (to_framed_bytes hash ≡ bytes)
unfolding from_framed_bytes
to_framed_bytes-from_framed_bytes bytes hash e =
    let size : length bytes ≡ framed_hash_len = ground arith in
    framed_digest-ok bytes hash size (ground arith)
