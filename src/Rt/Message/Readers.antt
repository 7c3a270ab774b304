-- ===== src/Rt/Message/Readers.antt =====
-- The readers of a message body: what each reads off the bytes written for it, and what its success
-- says of the input.
use ldgr.Prelude.{
  ℕ, ◌^◌, ◌≤◌, ◌<◌, ◌≡◌, refl, true, false, List, [], ◌∷◌, ◌++◌, arith, ltb, inl, inr, Result-cases,
  Post, Post-bind, Post-if, Post-if-bind, Post-weaken, length, length-append, length-take,
  take-append, drop-append, take-append-drop, All, ok,
}
use ldgr.Prelude.Bytes.{
  IsByte, le_bytes, from_le, length-le_bytes, from_le-le_bytes, le_bytes-from_le, from_le_lt,
  All-take, All-drop,
}
use ldgr.Cbor.Text.{is_utf8}
use ldgr.Format.Hash.{
  framed_hash_len, to_framed_bytes, from_framed_bytes, from_framed_bytes-to_framed_bytes,
  to_framed_bytes-from_framed_bytes,
}
use ldgr.Rt.Message.{
  max_path_bytes, max_payload_bytes, max_actor, write_len_u32, encode_path, take_slice, u8, u32,
  u64, hash_or_bad, hash_framed, bounded_bytes, bounded_string, known_actor,
}

-- Forward: a field that was written is read back, whatever follows.
pub take_slice-append :
    (n : ℕ) (field rest : List ℕ)
    → length field ≡ n
    → take_slice n (field ++ rest) ≡ ok (field, rest)
unfolding take_slice
take_slice-append n field rest h =
    let enough : ltb (length (field ++ rest)) n ≡ false =
      ground (arith, length-append field rest) in
    rw (enough, ← h, take-append field rest, drop-append field rest)

pub u32-le_bytes : (v : ℕ) (rest : List ℕ) → v < 2 ^ 32 → u32 (le_bytes 4 v ++ rest) ≡ ok (v, rest)
unfolding u32
u32-le_bytes v rest h =
    rw (take_slice-append 4 (le_bytes 4 v) rest (length-le_bytes 4 v), from_le-le_bytes 4 v h)

pub u64-le_bytes : (v : ℕ) (rest : List ℕ) → v < 2 ^ 64 → u64 (le_bytes 8 v ++ rest) ≡ ok (v, rest)
unfolding u64
u64-le_bytes v rest h =
    rw (take_slice-append 8 (le_bytes 8 v) rest (length-le_bytes 8 v), from_le-le_bytes 8 v h)

pub known_actor-le_bytes :
    (v : ℕ) (rest : List ℕ) → v ≤ max_actor → known_actor (le_bytes 4 v ++ rest) ≡ ok (v, rest)
unfolding known_actor
known_actor-le_bytes v rest h = rw (u32-le_bytes v rest (omega arith)) (ground arith)

pub hash_framed-to_framed_bytes :
    (hash rest : List ℕ)
    → length hash ≡ 32
    → hash_framed (to_framed_bytes hash ++ rest) ≡ ok (hash, rest)
unfolding hash_framed hash_or_bad
hash_framed-to_framed_bytes hash rest h =
    let size : length (to_framed_bytes hash) ≡ framed_hash_len =
      unfold to_framed_bytes in omega arith in
    rw (
      take_slice-append framed_hash_len (to_framed_bytes hash) rest size,
      from_framed_bytes-to_framed_bytes hash h,
      hash_or_bad,
    )

pub encode_path-ok :
    (field : List ℕ)
    → length field < 2 ^ 32
    → encode_path field ≡ ok (le_bytes 4 (length field) ++ field)
unfolding encode_path write_len_u32
encode_path-ok field h = ground arith

pub bounded_bytes-append :
    (field rest : List ℕ)
    → length field ≤ max_payload_bytes
    → bounded_bytes (le_bytes 4 (length field) ++ (field ++ rest)) ≡ ok (field, rest)
unfolding bounded_bytes
bounded_bytes-append field rest h =
    let small : ltb max_payload_bytes (length field) ≡ false = ground arith in
    rw (u32-le_bytes (length field) (field ++ rest) (omega arith), small)
      (take_slice-append (length field) field rest refl)

pub bounded_string-append :
    (field rest : List ℕ)
    → length field ≤ max_path_bytes
    → is_utf8 field ≡ true
    → bounded_string (le_bytes 4 (length field) ++ (field ++ rest)) ≡ ok (field, rest)
unfolding bounded_string
bounded_string-append field rest h valid =
    let small : ltb max_path_bytes (length field) ≡ false = ground arith in
    rw (
      u32-le_bytes (length field) (field ++ rest) (omega arith),
      small,
      take_slice-append (length field) field rest refl,
      valid,
    )

-- Backward: what the success of each reader says of its input.
pub take_slice-Post :
    (n : ℕ) (input : List ℕ)
    → All IsByte input
    → Post (take_slice n input) (λ (field, rest).
      (field ++ rest ≡ input) × (length field ≡ n) × All IsByte field × All IsByte rest)
unfolding take_slice
take_slice-Post n input hb =
    Post-if _ (ltb (length input) n) _ _ (λ _. tt)
      (λ enough. (
        take-append-drop n input,
        ground (arith, length-take n input),
        All-take IsByte n input hb,
        All-drop IsByte n input hb,
      ))

pub u8-Post :
    (input : List ℕ)
    → All IsByte input
    → Post (u8 input) (λ (b, rest). (b ∷ rest ≡ input) × All IsByte rest)
unfolding u8
u8-Post [] hb = tt
u8-Post (b ∷ rest) hb = (refl, hb.1)

-- A number of `n` bytes, for `u32` and `u64`.
field_number :
    (n : ℕ) (field rest input : List ℕ)
    → field ++ rest ≡ input
    → length field ≡ n
    → All IsByte field
    → (le_bytes n (from_le field) ++ rest ≡ input) × (from_le field < 256 ^ n)
field_number n field rest input e size hf =
    let written : le_bytes n (from_le field) ≡ field = rw size at (le_bytes-from_le field hf) in
    (rw written e, rw size at (from_le_lt field hf))

pub u32-Post :
    (input : List ℕ)
    → All IsByte input
    → Post
        (u32 input)
        (λ (v, rest). (le_bytes 4 v ++ rest ≡ input) × (v < 2 ^ 32) × All IsByte rest)
unfolding u32
u32-Post input hb =
    Post-bind _ _ (take_slice 4 input) _ (take_slice-Post 4 input hb)
      λ (field, rest) (e, size, hf, hr).
        let (w, small) = field_number 4 field rest input e size hf in (w, omega arith, hr)

pub u64-Post :
    (input : List ℕ)
    → All IsByte input
    → Post
        (u64 input)
        (λ (v, rest). (le_bytes 8 v ++ rest ≡ input) × (v < 2 ^ 64) × All IsByte rest)
unfolding u64
u64-Post input hb =
    Post-bind _ _ (take_slice 8 input) _ (take_slice-Post 8 input hb)
      λ (field, rest) (e, size, hf, hr).
        let (w, small) = field_number 8 field rest input e size hf in (w, omega arith, hr)

pub known_actor-Post :
    (input : List ℕ)
    → All IsByte input
    → Post
        (known_actor input)
        (λ (v, rest). (le_bytes 4 v ++ rest ≡ input) × (v ≤ max_actor) × All IsByte rest)
unfolding known_actor
known_actor-Post input hb =
    Post-bind _ _ (u32 input) _ (u32-Post input hb) λ (v, rest) (e, small, hr).
      Post-if _ (ltb max_actor v) _ _ (λ _. tt) λ known. (e, ground arith, hr)

hash_or_bad-Post :
    (bytes : List ℕ)
    → Post (hash_or_bad bytes) (λ hash. (length hash ≡ 32) × (to_framed_bytes hash ≡ bytes))
unfolding hash_or_bad
hash_or_bad-Post bytes = elim (Result-cases (from_framed_bytes bytes)) [
  | inl (hash, e) ↦ rw (e, hash_or_bad) (to_framed_bytes-from_framed_bytes bytes hash e)
  | inr (x, e) ↦ rw (e, hash_or_bad) tt
]

pub hash_framed-Post :
    (input : List ℕ)
    → All IsByte input
    → Post (hash_framed input) (λ (hash, rest).
      (to_framed_bytes hash ++ rest ≡ input) × (length hash ≡ 32) × All IsByte rest)
unfolding hash_framed
hash_framed-Post input hb =
    Post-bind _ _ (take_slice framed_hash_len input) _ (take_slice-Post framed_hash_len input hb)
      λ (field, rest) (e, size, hf, hr).
        Post-bind _ _ (hash_or_bad field) _ (hash_or_bad-Post field) λ hash (h, w). (rw w e, h, hr)

-- A field behind its length, whose bytes are taken next.
sized_field :
    (len : ℕ) (field behind rest input : List ℕ)
    → le_bytes 4 len ++ behind ≡ input
    → field ++ rest ≡ behind
    → length field ≡ len
    → le_bytes 4 (length field) ++ (field ++ rest) ≡ input
sized_field len field behind rest input e e' size = rw (size, e') e

pub bounded_bytes-Post :
    (input : List ℕ)
    → All IsByte input
    → Post (bounded_bytes input) (λ (field, rest).
      (le_bytes 4 (length field) ++ (field ++ rest) ≡ input)
      × (length field ≤ max_payload_bytes)
      × All IsByte rest)
unfolding bounded_bytes
bounded_bytes-Post input hb =
    Post-bind _ _ (u32 input) _ (u32-Post input hb) λ (len, behind) (e, small, hr).
      Post-if _ (ltb max_payload_bytes len) _ _ (λ _. tt)
        λ known.
          Post-weaken _ _ (take_slice len behind) (take_slice-Post len behind hr)
            λ (field, rest) (e', size, hf, hr').
              (sized_field len field behind rest input e e' size, ground arith, hr')

pub bounded_string-Post :
    (input : List ℕ)
    → All IsByte input
    → Post (bounded_string input) (λ (field, rest).
      (le_bytes 4 (length field) ++ (field ++ rest) ≡ input)
      × (length field ≤ max_path_bytes)
      × (is_utf8 field ≡ true)
      × All IsByte rest)
unfolding bounded_string
bounded_string-Post input hb =
    Post-bind _ _ (u32 input) _ (u32-Post input hb) λ (len, behind) (e, small, hr).
      Post-if-bind _ (ltb max_path_bytes len) _ _ _ λ known.
        Post-bind _ _ (take_slice len behind) _ (take_slice-Post len behind hr)
          λ (field, rest) (e', size, hf, hr').
            Post-if _ (is_utf8 field) _ _
              (λ valid.
                (sized_field len field behind rest input e e' size, ground arith, valid, hr'))
              (λ _. tt)
