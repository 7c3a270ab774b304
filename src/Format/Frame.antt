-- ===== src/Format/Frame.antt =====
-- crates/ledger-format/src/frame.rs: the 16-byte prefix of every durable container.
use ldgr.Prelude.{
  ℕ, ◌*◌, ◌+◌, ◌≤◌, ◌≡◌, List, [], ◌∷◌, ◌++◌, append_assoc, ◌∙◌, true, length-drop, drop-drop,
  take-append-drop, arith, ltb, ◌==◌, if◌then◌else◌, length, take, drop, All, Result, ok, err,
}
use ldgr.Prelude.Bytes.{
  IsByte, le_bytes, from_le, bytes_eq, bytes_eq-eq, bytes_eq_self, le_bytes-take, All-drop,
}

pub data FrameError : Type 0 where
  wrong_magic : FrameError
  unsupported_version : ℕ → FrameError
  reserved_flags : ℕ → FrameError
  header_too_large : ℕ → FrameError
  truncated_frame : FrameError

pub record FramePrefix : Type 0 where
  pub magic : List ℕ
  pub format_version : ℕ
  pub header_len : ℕ

abbrev pub format_version : ℕ
format_version = 3

abbrev pub max_header_bytes : ℕ
max_header_bytes = 1024 * 1024

abbrev pub frame_prefix_len : ℕ
frame_prefix_len = 16

abbrev pub magic_segment : List ℕ
magic_segment = b'L' ∷ b'D' ∷ b'G' ∷ b'S' ∷ []

unfoldable pub encode_prefix : List ℕ → ℕ → List ℕ
encode_prefix magic header_len =
    magic ++ (le_bytes 4 format_version ++ (le_bytes 4 header_len ++ le_bytes 4 0))

unfoldable pub parse_prefix : List ℕ → List ℕ → Result FrameError FramePrefix
parse_prefix bytes expected_magic =
    let version = from_le (take 4 (drop 4 bytes)) in
    let header_len = from_le (take 4 (drop 8 bytes)) in
    let flags = from_le (take 4 (drop 12 bytes)) in
    if ltb (length bytes) frame_prefix_len
    then err truncated_frame
    else if bytes_eq (take 4 bytes) expected_magic
    then if version == format_version
      then if ltb max_header_bytes header_len
        then err (header_too_large header_len)
        else if flags == 0
        then ok (record { magic = take 4 bytes; format_version = version; header_len = header_len })
        else err (reserved_flags flags)
      else err (unsupported_version version)
    else err wrong_magic

-- A prefix that is written for a header within the limit parses back, whatever follows it.
pub parse_prefix-encode_prefix :
    (a b c d header_len : ℕ) (rest : List ℕ)
    → header_len ≤ max_header_bytes
    → parse_prefix (encode_prefix (a ∷ b ∷ c ∷ d ∷ []) header_len ++ rest) (a ∷ b ∷ c ∷ d ∷ [])
      ≡ ok (record {
        magic = a ∷ b ∷ c ∷ d ∷ [];
        format_version = format_version;
        header_len = header_len;
      })
unfolding parse_prefix encode_prefix le_bytes from_le
parse_prefix-encode_prefix a b c d header_len rest h =
    rw (bytes_eq_self (a ∷ b ∷ c ∷ d ∷ [])) (ground arith)

-- The tests that an accepted prefix has passed.
accepted_prefix :
    (bytes magic : List ℕ) (p : FramePrefix)
    → parse_prefix bytes magic ≡ ok p
    → (16 ≤ length bytes)
      × (bytes_eq (take 4 bytes) magic ≡ true)
      × (from_le (take 4 (drop 4 bytes)) ≡ 3)
      × (from_le (take 4 (drop 8 bytes)) ≡ p.header_len)
      × (from_le (take 4 (drop 12 bytes)) ≡ 0)
      × (p.header_len ≤ max_header_bytes)
      × (p.magic ≡ take 4 bytes)
      × (p.format_version ≡ 3)
unfolding parse_prefix
accepted_prefix bytes magic p e = (
  ground arith,
  ground arith,
  ground arith,
  ground arith,
  ground arith,
  ground arith,
  ground arith,
  ground arith,
)

-- Only a prefix that `encode_prefix` writes is accepted: the bytes begin with that of the header length
-- that is returned, which is within the limit.
encode_prefix-parse_prefix :
    (bytes magic : List ℕ) (p : FramePrefix)
    → All IsByte bytes
    → parse_prefix bytes magic ≡ ok p
    → (p.magic ≡ magic)
      × (p.format_version ≡ format_version)
      × (p.header_len ≤ max_header_bytes)
      × (encode_prefix magic p.header_len ++ drop frame_prefix_len bytes ≡ bytes)
unfolding encode_prefix
encode_prefix-parse_prefix bytes magic p hb e =
    let (long, same, version, size, flags, small, m, v) = accepted_prefix bytes magic p e in
    let first : take 4 bytes ≡ magic = bytes_eq-eq (take 4 bytes) magic same in
    let field = λ (k n : ℕ) (h : k + 4 ≤ length bytes) (w : from_le (take 4 (drop k bytes)) ≡ n).
      le_bytes-take 4 n (drop k bytes) (omega (arith, length-drop k bytes))
        (All-drop IsByte k bytes hb) w in
    (
      m ∙ first,
      v,
      small,
      rw
          (
            ← first,
            append_assoc,
            append_assoc,
            append_assoc,
            ← drop-drop 4 12 bytes,
            field 12 0 (omega arith) flags,
            ← drop-drop 4 8 bytes,
            field 8 p.header_len (omega arith) size,
            ← drop-drop 4 4 bytes,
            field 4 3 (omega arith) version,
          )
          (take-append-drop 4 bytes),
    )
