-- ===== src/Rt/Codec.antt =====
-- crates/ldgr-rt/src/proto/codec.rs: the frames of the wire protocol.
use ldgr.Prelude.{
  ℕ, ◌*◌, ◌+◌, ◌^◌, ◌%◌, ◌≤◌, ◌<◌, ◌≡◌, refl, sym, ap, ◌∙◌, true, false, List, [], ◌∷◌, ◌++◌,
  append_assoc, arith, ltb, ◌==◌, if◌then◌else◌, length, length-append, length-drop, length-take,
  take, drop, drop-drop, take-append, take-append-drop, All, Result, ok, err, ◌>>=◌, >>=-eq-ok,
}
use ldgr.Prelude.Bytes.{IsByte, le_bytes, from_le, bytes_eq, bytes_eq-eq, le_bytes-take, All-drop}

pub data DecodeError : Type 0 where
  truncated_header : DecodeError
  truncated_body : DecodeError
  bad_magic : DecodeError
  unsupported_version : ℕ → DecodeError
  reserved_non_zero : DecodeError
  body_too_large : ℕ → DecodeError
  unexpected_eof : DecodeError
  bad_tag : ℕ → DecodeError
  path_too_long : DecodeError
  payload_too_long : DecodeError
  invalid_utf8 : DecodeError
  bad_count : ℕ → DecodeError
  bad_actor : ℕ → DecodeError
  bad_hash : DecodeError

pub data CodecError : Type 0 where
  body_too_large : ℕ → CodecError

abbrev pub magic : List ℕ
magic = b'L' ∷ b'D' ∷ b'R' ∷ b'P' ∷ []

abbrev pub protocol_version : ℕ
protocol_version = 2

abbrev pub max_frame_bytes : ℕ
max_frame_bytes = 1024 * 1024

abbrev pub frame_header_len : ℕ
frame_header_len = 4 + 2 + 2 + 4 + 8

unfoldable pub encode_frame : ℕ → List ℕ → Result CodecError (List ℕ)
encode_frame seq body =
    if ltb max_frame_bytes (length body)
    then err (CodecError.body_too_large (length body))
    else ok (
        magic
        ++ (le_bytes 2 protocol_version
            ++ (le_bytes 2 0 ++ (le_bytes 4 (length body % 2 ^ 32) ++ (le_bytes 8 seq ++ body)))))

unfoldable pub parse_header : List ℕ → Result DecodeError (ℕ × ℕ)
parse_header input =
    let version = from_le (take 2 (drop 4 input)) in
    let reserved = from_le (take 2 (drop 6 input)) in
    let body_len = from_le (take 4 (drop 8 input)) in
    let seq = from_le (take 8 (drop 12 input)) in
    if ltb (length input) frame_header_len
    then err truncated_header
    else if bytes_eq (take 4 input) magic
    then if version == protocol_version
      then if reserved == 0
        then if ltb max_frame_bytes body_len
          then err (DecodeError.body_too_large body_len)
          else ok (seq, body_len)
        else err reserved_non_zero
      else err (unsupported_version version)
    else err bad_magic

-- The source repeats the body of `parse_header` here.
unfoldable pub decode_frame : List ℕ → Result DecodeError (ℕ × List ℕ)
decode_frame input = do
  (seq, body_len) ← parse_header input
  if ltb (length input) (frame_header_len + body_len)
      then err truncated_body
      else ok (seq, take body_len (drop frame_header_len input))

-- A header for a body of `n` bytes, and what follows it.
abbrev written : ℕ → ℕ → List ℕ → List ℕ
written seq n rest =
    magic
    ++ (le_bytes 2 protocol_version ++ (le_bytes 2 0 ++ (le_bytes 4 n ++ (le_bytes 8 seq ++ rest))))

length-written :
    (seq n : ℕ) (rest : List ℕ) → length (written seq n rest) ≡ frame_header_len + length rest
unfolding le_bytes
length-written seq n rest = omega arith

drop-written : (seq n : ℕ) (rest : List ℕ) → drop frame_header_len (written seq n rest) ≡ rest
unfolding le_bytes
drop-written seq n rest = refl

parse_header-written :
    (seq n : ℕ) (rest : List ℕ)
    → seq < 2 ^ 64
    → n ≤ max_frame_bytes
    → parse_header (written seq n rest) ≡ ok (seq, n)
unfolding parse_header le_bytes from_le bytes_eq
parse_header-written seq n rest hs hn = ground arith

-- A frame within the size limit is encoded, and decodes to its sequence number and body, whatever follows.
pub decode_frame-encode_frame :
    (seq : ℕ) (body rest : List ℕ)
    → seq < 2 ^ 64
    → length body ≤ max_frame_bytes
    → (frame : List ℕ) × (encode_frame seq body ≡ ok frame)
      × (length frame ≡ frame_header_len + length body)
      × (decode_frame (frame ++ rest) ≡ ok (seq, body))
unfolding encode_frame decode_frame
decode_frame-encode_frame seq body rest hs hb =
    let n = length body in
    let fits : ltb max_frame_bytes n ≡ false = ground arith in
    let same : n % 2 ^ 32 ≡ n = omega arith in
    let sized = length-written seq n body in
    let behind : written seq n body ++ rest ≡ written seq n (body ++ rest) = simp append_assoc in
    let room : ltb (length (written seq n body ++ rest)) (frame_header_len + n) ≡ false =
      ground (arith, sized, length-append (written seq n body) rest) in
    let head : parse_header (written seq n body ++ rest) ≡ ok (seq, n) =
      rw behind (parse_header-written seq n (body ++ rest) hs hb) in
    let tail : drop frame_header_len (written seq n body ++ rest) ≡ body ++ rest =
      rw behind (drop-written seq n (body ++ rest)) in
    (written seq n body, rw (fits, same), sized, rw (head, room, tail, take-append body rest))

-- The tests that an accepted header has passed.
accepted_header :
    (input : List ℕ) (seq n : ℕ)
    → parse_header input ≡ ok (seq, n)
    → (20 ≤ length input)
      × (bytes_eq (take 4 input) magic ≡ true)
      × (from_le (take 2 (drop 4 input)) ≡ 2)
      × (from_le (take 2 (drop 6 input)) ≡ 0)
      × (from_le (take 4 (drop 8 input)) ≡ n)
      × (from_le (take 8 (drop 12 input)) ≡ seq)
      × (n ≤ max_frame_bytes)
unfolding parse_header
accepted_header input seq n e = (
  ground arith,
  ground arith,
  ground arith,
  ground arith,
  ground arith,
  ground arith,
  ground arith,
)

-- An accepted frame has an accepted header, and its body is cut from the input behind it.
accepted_frame :
    (input body : List ℕ) (seq : ℕ)
    → decode_frame input ≡ ok (seq, body)
    → (n : ℕ) × (parse_header input ≡ ok (seq, n))
      × (frame_header_len + n ≤ length input)
      × (body ≡ take n (drop frame_header_len input))
unfolding decode_frame
accepted_frame input body seq e =
    let ((s, n), e1, k1) = >>=-eq-ok (parse_header input) _ e in
    let same : s ≡ seq = ground arith in (n, rw (← same) e1, ground arith, ground arith)

-- Only what `encode_frame` writes is accepted: the sequence number and body that are decoded are encoded
-- as a frame that the input begins with.
pub encode_frame-decode_frame :
    (input body : List ℕ) (seq : ℕ)
    → All IsByte input
    → decode_frame input ≡ ok (seq, body)
    → (frame : List ℕ) × (encode_frame seq body ≡ ok frame)
      × (frame ++ drop (length body) (drop frame_header_len input) ≡ input)
unfolding encode_frame
encode_frame-decode_frame input body seq hb e =
    let (n, e1, enough, cut) = accepted_frame input body seq e in
    let (long, same, version, reserved, size, order, small) = accepted_header input seq n e1 in
    let first : take 4 input ≡ magic = bytes_eq-eq (take 4 input) magic same in
    let sized : length body ≡ n = rw cut (
      omega
        (arith, length-take n (drop frame_header_len input), length-drop frame_header_len input)) in
    let fits : ltb max_frame_bytes (length body) ≡ false = ground arith in
    let whole : n % 2 ^ 32 ≡ n = omega arith in
    let field = λ (w k v : ℕ) (h : k + w ≤ length input) (f : from_le (take w (drop k input)) ≡ v).
      le_bytes-take w v (drop k input) (omega (arith, length-drop k input))
        (All-drop IsByte k input hb) f in
    (
      written seq n body,
      rw (fits, sized, whole),
      rw
          (
            sized,
            cut,
            append_assoc,
            append_assoc,
            append_assoc,
            append_assoc,
            take-append-drop n (drop frame_header_len input),
            ← drop-drop 8 12 input,
            field 8 12 seq (omega arith) order,
            ← drop-drop 4 8 input,
            field 4 8 n (omega arith) size,
            ← drop-drop 2 6 input,
            field 2 6 0 (omega arith) reserved,
            ← drop-drop 2 4 input,
            field 2 4 2 (omega arith) version,
          )
          (ap (λ (l : List ℕ). l ++ drop 4 input) (sym first) ∙ take-append-drop 4 input),
    )
