-- ===== src/Cbor/RoundTrip/Header.antt =====
-- `decode_header` reads what `major` writes.
use ldgr.Prelude.{
  ℕ, ◌+◌, ◌*◌, ◌/◌, ◌%◌, ◌^◌, ◌≤◌, ◌<◌, ◌≡◌, false, ◌⊎◌, List, [], ◌∷◌, ◌++◌, arith, leb, ltb,
  if◌then◌else◌, length, length-append, take-append, drop-append, ok,
}
use ldgr.Prelude.Bytes.{be_bytes, from_be, length-be_bytes, from_be-be_bytes}
use ldgr.Cbor.Canonical.{IsU64}
use ldgr.Cbor.Encode.{major}
use ldgr.Cbor.Decode.{take_number, wide_argument, header_argument, decode_header}

-- A number field at the front of the input is read whole.
pub take_number-append :
    (field rest : List ℕ) (n v : ℕ)
    → length field ≡ n
    → from_be field ≡ v
    → take_number n (field ++ rest) ≡ ok (v, rest)
unfolding take_number
take_number-append field rest n v hn hv =
    let enough : ltb (length (field ++ rest)) n ≡ false =
      ground (arith, length-append field rest) in
    rw (enough, ← hn, take-append field rest, drop-append field rest, hv)

pub take_number-be_bytes :
    (n v : ℕ) (rest : List ℕ) → v < 256 ^ n → take_number n (be_bytes n v ++ rest) ≡ ok (v, rest)
take_number-be_bytes n v rest h =
    take_number-append (be_bytes n v) rest n v (length-be_bytes n v) (from_be-be_bytes n v h)

wide_argument-be_bytes :
    (n least major v : ℕ) (rest : List ℕ)
    → v < 256 ^ n
    → least ≤ v
    → wide_argument n least major (be_bytes n v ++ rest) ≡ ok ((major, v), rest)
unfolding wide_argument
wide_argument-be_bytes n least major v rest h le =
    rw (take_number-be_bytes n v rest h) (ground arith)

head_kind : (kind a : ℕ) → a < 32 → (kind * 32 + a) / 32 ≡ kind
head_kind kind a h = omega arith

head_additional : (kind a : ℕ) → a < 32 → (kind * 32 + a) % 32 ≡ a
head_additional kind a h = omega arith

-- The head byte selects the width of the argument that follows it.
header_small :
    (kind value : ℕ) (rest : List ℕ)
    → value ≤ 23
    → header_argument (kind * 32 + value) rest ≡ ok ((kind, value), rest)
unfolding header_argument
header_small kind value rest h = ground (arith, head_kind kind value, head_additional kind value)

header_wide :
    (kind a n least : ℕ) (rest : List ℕ)
    → ((a ≡ 24) × (n ≡ 1) × (least ≡ 24))
      ⊎ (((a ≡ 25) × (n ≡ 2) × (least ≡ 0x100))
          ⊎ (((a ≡ 26) × (n ≡ 4) × (least ≡ 0x1_0000))
              ⊎ ((a ≡ 27) × (n ≡ 8) × (least ≡ 0x1_0000_0000))))
    → header_argument (kind * 32 + a) rest ≡ wide_argument n least kind rest
unfolding header_argument
header_wide kind a n least rest h = ground (arith, head_kind kind a, head_additional kind a)

pub decode_header-major :
    (kind value : ℕ) (rest : List ℕ)
    → IsU64 value
    → decode_header (major kind value ++ rest) ≡ ok ((kind, value), rest)
unfolding decode_header major
decode_header-major kind value rest h = ground (
  arith,
  header_small kind value rest,
  header_wide kind 24 1 24 (be_bytes 1 value ++ rest),
  header_wide kind 25 2 0x100 (be_bytes 2 value ++ rest),
  header_wide kind 26 4 0x1_0000 (be_bytes 4 value ++ rest),
  header_wide kind 27 8 0x1_0000_0000 (be_bytes 8 value ++ rest),
  wide_argument-be_bytes 1 24 kind value rest,
  wide_argument-be_bytes 2 0x100 kind value rest,
  wide_argument-be_bytes 4 0x1_0000 kind value rest,
  wide_argument-be_bytes 8 0x1_0000_0000 kind value rest,
)

-- What `major` writes begins with a head byte of its kind.
abbrev head_of : ℕ → ℕ
head_of value =
    if leb value 23
    then value
    else if leb value 0xff
    then 24
    else if leb value 0xffff
    then 25
    else if leb value 0xffff_ffff
    then 26
    else 27

abbrev argument_of : ℕ → List ℕ
argument_of value =
    if leb value 23
    then []
    else if leb value 0xff
    then be_bytes 1 value
    else if leb value 0xffff
    then be_bytes 2 value
    else if leb value 0xffff_ffff
    then be_bytes 4 value
    else be_bytes 8 value

pub major_head :
    (kind value : ℕ) → (a : ℕ) × (t : List ℕ) × (a < 32) × (major kind value ≡ (kind * 32 + a) ∷ t)
unfolding major
major_head kind value = (head_of value, argument_of value, ground arith, ground arith)
