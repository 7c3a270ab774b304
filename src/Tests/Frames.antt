-- ===== src/Tests/Frames.antt =====
-- The properties of the prefixes, the wire frames and the hex strings on concrete inputs.
use ldgr.Prelude.{ℕ, ◌+◌, ◌≡◌, refl, List, [], ◌∷◌, ◌++◌, map, arith, length, take, drop, All, ok}
use ldgr.Prelude.Bytes.{IsByte, from_le, bytes_eq}
use ldgr.Format.Frame
use ldgr.Format.Frame.{
  FramePrefix, max_header_bytes, frame_prefix_len, magic_segment, encode_prefix, parse_prefix,
  parse_prefix-encode_prefix,
}
use ldgr.Format.Hex.{
  hash_to_hex, hash_from_hex, decode_chunks, hex_val_or, hex_val, to_lower,
  hash_to_hex-hash_from_hex,
}
use ldgr.Rt.Codec.{
  frame_header_len, encode_frame, parse_header, decode_frame, decode_frame-encode_frame,
  encode_frame-decode_frame,
}

abbrev segment_prefix : FramePrefix
segment_prefix = record {
  magic = magic_segment;
  format_version = Frame.format_version;
  header_len = 300;
}

parse_prefix-encode_prefix_example :
    parse_prefix (encode_prefix magic_segment 300 ++ 7 ∷ []) magic_segment ≡ ok segment_prefix
parse_prefix-encode_prefix_example =
    parse_prefix-encode_prefix b'L' b'D' b'G' b'S' 300 (7 ∷ []) (omega arith)

-- Version 3, a header of 300 bytes, no flags, and one byte more.
abbrev segment_bytes : List ℕ
segment_bytes = b'L' ∷ b'D' ∷ b'G' ∷ b'S' ∷ 3 ∷ 0 ∷ 0 ∷ 0 ∷ 44 ∷ 1 ∷ 0 ∷ 0 ∷ 0 ∷ 0 ∷ 0 ∷ 0 ∷ 7 ∷ []

decode_frame-encode_frame_example :
    (frame : List ℕ) × (encode_frame 513 (1 ∷ 2 ∷ []) ≡ ok frame)
    × (length frame ≡ frame_header_len + 2)
    × (decode_frame (frame ++ 9 ∷ []) ≡ ok (513, 1 ∷ 2 ∷ []))
decode_frame-encode_frame_example =
    decode_frame-encode_frame 513 (1 ∷ 2 ∷ []) (9 ∷ []) (omega arith) (omega arith)

-- Version 2, a body of 2 bytes, the sequence number 513, and one byte more.
abbrev wire_bytes : List ℕ
wire_bytes =
    b'L' ∷ b'D' ∷ b'R' ∷ b'P' ∷ 2 ∷ 0 ∷ 0 ∷ 0 ∷ 2 ∷ 0 ∷ 0 ∷ 0 ∷ 1 ∷ 2 ∷ 0 ∷ 0 ∷ 0 ∷ 0 ∷ 0 ∷ 0 ∷ 1
    ∷ 2 ∷ 9 ∷ []

wire_bytes-All : All IsByte wire_bytes
wire_bytes-All = ground arith

wire_bytes-ok : decode_frame wire_bytes ≡ ok (513, 1 ∷ 2 ∷ [])
unfolding decode_frame parse_header from_le bytes_eq
wire_bytes-ok = refl

encode_frame-decode_frame_example :
    (frame : List ℕ) × (encode_frame 513 (1 ∷ 2 ∷ []) ≡ ok frame)
    × (frame ++ drop 2 (drop frame_header_len wire_bytes) ≡ wire_bytes)
encode_frame-decode_frame_example =
    encode_frame-decode_frame wire_bytes (1 ∷ 2 ∷ []) 513 wire_bytes-All wire_bytes-ok

abbrev hash : List ℕ
hash =
    0 ∷ 255 ∷ 171 ∷ 3 ∷ 4 ∷ 5 ∷ 6 ∷ 7 ∷ 8 ∷ 9 ∷ 10 ∷ 11 ∷ 12 ∷ 13 ∷ 14 ∷ 15 ∷ 16 ∷ 17 ∷ 18 ∷ 19 ∷ 20
    ∷ 21 ∷ 22 ∷ 23 ∷ 24 ∷ 25 ∷ 26 ∷ 27 ∷ 28 ∷ 29 ∷ 30 ∷ 31 ∷ []

-- 64 digits, of both cases.
abbrev digits : List ℕ
digits =
    b'0' ∷ b'1' ∷ b'2' ∷ b'3' ∷ b'4' ∷ b'5' ∷ b'6' ∷ b'7' ∷ b'8' ∷ b'9' ∷ b'a' ∷ b'b' ∷ b'c' ∷ b'd'
    ∷ b'e' ∷ b'f' ∷ b'A' ∷ b'B' ∷ b'C' ∷ b'D' ∷ b'E' ∷ b'F' ∷ []

abbrev hex_string : List ℕ
hex_string = digits ++ (digits ++ take 20 digits)

abbrev hex_hash : List ℕ
hex_hash =
    1 ∷ 35 ∷ 69 ∷ 103 ∷ 137 ∷ 171 ∷ 205 ∷ 239 ∷ 171 ∷ 205 ∷ 239 ∷ 1 ∷ 35 ∷ 69 ∷ 103 ∷ 137 ∷ 171
    ∷ 205 ∷ 239 ∷ 171 ∷ 205 ∷ 239 ∷ 1 ∷ 35 ∷ 69 ∷ 103 ∷ 137 ∷ 171 ∷ 205 ∷ 239 ∷ 171 ∷ 205 ∷ []

hex_string-All : All IsByte hex_string
hex_string-All = ground arith

hex_string-ok : hash_from_hex hex_string ≡ ok hex_hash
unfolding hash_from_hex decode_chunks hex_val_or hex_val
hex_string-ok = refl

hash_to_hex-hash_from_hex_example :
    (length hex_hash ≡ 32) × All IsByte hex_hash × (hash_to_hex hex_hash ≡ map to_lower hex_string)
hash_to_hex-hash_from_hex_example =
    hash_to_hex-hash_from_hex hex_string hex_hash hex_string-All hex_string-ok
