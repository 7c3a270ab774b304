-- ===== src/Rt/Message.antt =====
-- crates/ldgr-rt/src/proto/msg.rs: the messages that frames carry, their encoder and decoder.
-- A text is the list of its UTF-8 bytes, and a `Reader` is the list of the bytes from its cursor on.
-- Its `checked_add` does not overflow: the lengths that are read are 32-bit numbers.
pub mod Readers
pub mod RoundTrip
pub mod Sound
use ldgr.Prelude.{
  ℕ, ◌+◌, ◌*◌, ◌-◌, ◌^◌, true, false, Option, none, some, List, [], ◌∷◌, ◌++◌, ltb, leb, ◌==◌,
  if◌then◌else◌, length, take, drop, Result, ok, err, ◌>>=◌,
}
use ldgr.Prelude.Bytes.{le_bytes, from_le}
use ldgr.Cbor.Text.{is_utf8}
use ldgr.Format.Hash.{framed_hash_len, to_framed_bytes, from_framed_bytes}
use ldgr.Rt.Codec.{
  DecodeError, CodecError, unexpected_eof, bad_tag, path_too_long, payload_too_long, invalid_utf8,
  bad_count, bad_actor, bad_hash,
}

abbrev pub max_path_bytes : ℕ
max_path_bytes = 4096

abbrev pub max_payload_bytes : ℕ
max_payload_bytes = 1024 * 1024

abbrev pub max_random_count : ℕ
max_random_count = 4096

abbrev pub max_actor : ℕ
max_actor = 1024 * 1024

pub record Hello : Type 0 where
  pub identity : List ℕ
  pub actor : ℕ

pub record Welcome : Type 0 where
  pub actor : ℕ

pub data RejectReason : Type 0 where
  identity : RejectReason
  overload : RejectReason
  protocol : RejectReason

pub record Reject : Type 0 where
  pub reason : RejectReason
  pub detail : List ℕ

pub record Goodbye : Type 0 where
  pub root : List ℕ
  pub entries : ℕ

pub data Effect : Type 0 where
  clock : Effect
  sleep : (ticks : ℕ) → Effect
  random : (stream count : ℕ) → Effect
  send : (to : ℕ) (payload : List ℕ) → Effect
  recv : Effect
  fs_write : (path : List ℕ) (offset : ℕ) (bytes : List ℕ) → Effect
  fs_read : (path : List ℕ) (offset len : ℕ) → Effect
  fs_sync : (path : List ℕ) → Effect

pub data EffectResult : Type 0 where
  clock : (ticks : ℕ) → EffectResult
  done : EffectResult
  random : (words : List ℕ) → EffectResult
  recv : (payload : Option (List ℕ)) → EffectResult
  fs_read : (observed : List ℕ) → EffectResult

-- `EffectRequest` and `EffectResponse` hold one field each, which stands here.
pub data Message : Type 0 where
  hello : Hello → Message
  welcome : Welcome → Message
  reject : Reject → Message
  effect_request : Effect → Message
  effect_response : EffectResult → Message
  finished : Message
  goodbye : Goodbye → Message

unfoldable pub write_len_u32 : ℕ → Result CodecError (List ℕ)
write_len_u32 len =
    if ltb (2 ^ 32 - 1) len then err (CodecError.body_too_large len) else ok (le_bytes 4 len)

-- A length and the bytes themselves: `encode_path`, and the same two lines at each payload.
unfoldable pub encode_path : List ℕ → Result CodecError (List ℕ)
encode_path path = do prefix ← write_len_u32 (length path); ok (prefix ++ path)

unfoldable pub encode_effect : Effect → Result CodecError (List ℕ)
encode_effect Effect.clock = ok (1 ∷ [])
encode_effect (Effect.sleep ticks) = ok (2 ∷ le_bytes 8 ticks)
encode_effect (Effect.random stream count) = ok (3 ∷ (le_bytes 4 stream ++ le_bytes 4 count))
encode_effect (Effect.send to payload) = do
  field ← encode_path payload
  ok (4 ∷ (le_bytes 4 to ++ field))
encode_effect Effect.recv = ok (5 ∷ [])
encode_effect (Effect.fs_write path offset bytes) = do
  name ← encode_path path
  field ← encode_path bytes
  ok (6 ∷ (name ++ (le_bytes 8 offset ++ field)))
encode_effect (Effect.fs_read path offset len) = do
  name ← encode_path path
  ok (7 ∷ (name ++ (le_bytes 8 offset ++ le_bytes 8 len)))
encode_effect (Effect.fs_sync path) = do name ← encode_path path; ok (8 ∷ name)

unfoldable pub encode_result : EffectResult → Result CodecError (List ℕ)
encode_result (EffectResult.clock ticks) = ok (1 ∷ le_bytes 8 ticks)
encode_result EffectResult.done = ok (2 ∷ [])
encode_result (EffectResult.random words) = do field ← encode_path words; ok (3 ∷ field)
encode_result (EffectResult.recv none) = ok (4 ∷ 0 ∷ [])
encode_result (EffectResult.recv (some bytes)) = do field ← encode_path bytes; ok (4 ∷ 1 ∷ field)
encode_result (EffectResult.fs_read observed) = do field ← encode_path observed; ok (5 ∷ field)

-- `reason as u8`
unfoldable pub reason_byte : RejectReason → ℕ
reason_byte RejectReason.identity = 1
reason_byte RejectReason.overload = 2
reason_byte RejectReason.protocol = 3

unfoldable pub encode_message : Message → Result CodecError (List ℕ)
encode_message (hello h) = ok (1 ∷ (to_framed_bytes h.identity ++ le_bytes 4 h.actor))
encode_message (welcome w) = ok (2 ∷ le_bytes 4 w.actor)
encode_message (reject r) = do field ← encode_path r.detail; ok (3 ∷ reason_byte r.reason ∷ field)
encode_message (effect_request effect) = do body ← encode_effect effect; ok (4 ∷ body)
encode_message (effect_response result) = do body ← encode_result result; ok (5 ∷ body)
encode_message finished = ok (6 ∷ [])
encode_message (goodbye g) = ok (7 ∷ (to_framed_bytes g.root ++ le_bytes 8 g.entries))

-- The operations of `Reader`.
abbrev pub Reader : Type 0 → Type 0
Reader A = List ℕ → Result DecodeError (A × List ℕ)

unfoldable pub take_slice : ℕ → Reader (List ℕ)
take_slice n body =
    if ltb (length body) n then err unexpected_eof else ok (take n body, drop n body)

unfoldable pub u8 : Reader ℕ
u8 [] = err unexpected_eof
u8 (b ∷ body) = ok (b, body)

unfoldable pub u32 : Reader ℕ
u32 body = do (bytes, rest) ← take_slice 4 body; ok (from_le bytes, rest)

unfoldable pub u64 : Reader ℕ
u64 body = do (bytes, rest) ← take_slice 8 body; ok (from_le bytes, rest)

-- `map_err(|_| DecodeError::BadHash)`
unfoldable pub hash_or_bad : List ℕ → Result DecodeError (List ℕ)
hash_or_bad bytes = elim (from_framed_bytes bytes) [ ok hash ↦ ok hash | err e ↦ err bad_hash ]

unfoldable pub hash_framed : Reader (List ℕ)
hash_framed body = do
  (bytes, rest) ← take_slice framed_hash_len body
  hash ← hash_or_bad bytes
  ok (hash, rest)

unfoldable pub bounded_bytes : Reader (List ℕ)
bounded_bytes body = do
  (len, rest) ← u32 body
  if ltb max_payload_bytes len then err payload_too_long else take_slice len rest

unfoldable pub bounded_string : Reader (List ℕ)
bounded_string body = do
  (len, rest) ← u32 body
  (bytes, rest') ← if ltb max_path_bytes len then err path_too_long else take_slice len rest
  if is_utf8 bytes then ok (bytes, rest') else err invalid_utf8

unfoldable pub finish : List ℕ → Result DecodeError (Unit {0})
finish [] = ok tt
finish (b ∷ bs) = err unexpected_eof

unfoldable pub from_byte : ℕ → Result DecodeError RejectReason
from_byte byte =
    if byte == 1
    then ok RejectReason.identity
    else if byte == 2
    then ok RejectReason.overload
    else if byte == 3
    then ok RejectReason.protocol
    else err (bad_tag byte)

-- An actor within the limit: the test stands twice in the source.
unfoldable pub known_actor : Reader ℕ
known_actor body = do
  (actor_raw, rest) ← u32 body
  if ltb max_actor actor_raw then err (bad_actor actor_raw) else ok (actor_raw, rest)

-- What follows each effect tag.
unfoldable pub effect_body : ℕ → Reader Effect
effect_body tag body =
    if tag == 1
    then ok (Effect.clock, body)
    else if tag == 2
    then (do (ticks, r) ← u64 body; ok (Effect.sleep ticks, r))
    else if tag == 3
    then (do
      (stream, r) ← u32 body
      (count, r') ← u32 r
      if ltb max_random_count count
          then err (bad_count count)
          else ok (Effect.random stream count, r'))
    else if tag == 4
    then (do
      (to, r) ← known_actor body
      (payload, r') ← bounded_bytes r
      ok (Effect.send to payload, r'))
    else if tag == 5
    then ok (Effect.recv, body)
    else if tag == 6
    then (do
      (path, r) ← bounded_string body
      (offset, r') ← u64 r
      (bytes, r'') ← bounded_bytes r'
      ok (Effect.fs_write path offset bytes, r''))
    else if tag == 7
    then (do
      (path, r) ← bounded_string body
      (offset, r') ← u64 r
      (len, r'') ← u64 r'
      ok (Effect.fs_read path offset len, r''))
    else if tag == 8
    then (do (path, r) ← bounded_string body; ok (Effect.fs_sync path, r))
    else err (bad_tag tag)

unfoldable pub decode_effect : Reader Effect
decode_effect body = do (tag, rest) ← u8 body; effect_body tag rest

unfoldable pub optional_bytes : ℕ → Reader (Option (List ℕ))
optional_bytes present body =
    if present == 0
    then ok (none, body)
    else if present == 1
    then (do (bytes, r) ← bounded_bytes body; ok (some bytes, r))
    else err (bad_tag present)

unfoldable pub result_body : ℕ → Reader EffectResult
result_body tag body =
    if tag == 1
    then (do (ticks, r) ← u64 body; ok (EffectResult.clock ticks, r))
    else if tag == 2
    then ok (EffectResult.done, body)
    else if tag == 3
    then (do (words, r) ← bounded_bytes body; ok (EffectResult.random words, r))
    else if tag == 4
    then (do
      (present, r) ← u8 body
      (payload, r') ← optional_bytes present r
      ok (EffectResult.recv payload, r'))
    else if tag == 5
    then (do (observed, r) ← bounded_bytes body; ok (EffectResult.fs_read observed, r))
    else err (bad_tag tag)

unfoldable pub decode_result : Reader EffectResult
decode_result body = do (tag, rest) ← u8 body; result_body tag rest

-- What follows each message tag, up to the end of the body.
unfoldable pub message_body : ℕ → Reader Message
message_body tag body =
    if tag == 1
    then (do
      (hash, r) ← hash_framed body
      (actor, r') ← known_actor r
      ok (hello (record { identity = hash; actor = actor }), r'))
    else if tag == 2
    then (do (actor, r) ← u32 body; ok (welcome (record { actor = actor }), r))
    else if tag == 3
    then (do
      (byte, r) ← u8 body
      reason ← from_byte byte
      (detail, r') ← bounded_string r
      ok (reject (record { reason = reason; detail = detail }), r'))
    else if tag == 4
    then (do (effect, r) ← decode_effect body; ok (effect_request effect, r))
    else if tag == 5
    then (do (result, r) ← decode_result body; ok (effect_response result, r))
    else if tag == 6
    then ok (finished, body)
    else if tag == 7
    then (do
      (root, r) ← hash_framed body
      (entries, r') ← u64 r
      ok (goodbye (record { root = root; entries = entries }), r'))
    else err (bad_tag tag)

-- Every message ends with `finish`.
unfoldable pub decode_message : List ℕ → Result DecodeError Message
decode_message body = do
  (tag, rest) ← u8 body
  (message, r) ← message_body tag rest
  _ ← finish r
  ok message
