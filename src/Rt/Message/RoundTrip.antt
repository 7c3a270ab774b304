-- ===== src/Rt/Message/RoundTrip.antt =====
-- Messages within the limits of the protocol are encoded, and the bytes decode to them.
use ldgr.Prelude.{
  ℕ, ◌^◌, ◌≤◌, ◌<◌, ◌≡◌, refl, true, none, some, List, [], ◌∷◌, ◌++◌, append_assoc, append-nil,
  arith, length, ok,
}
use ldgr.Prelude.Bytes.{le_bytes}
use ldgr.Cbor.Text.{is_utf8}
use ldgr.Format.Hash.{to_framed_bytes}
use ldgr.Rt.Message.{
  max_path_bytes, max_payload_bytes, max_random_count, max_actor, Effect, EffectResult, Message,
  hello, welcome, reject, effect_request, effect_response, finished, goodbye, RejectReason,
  encode_effect, encode_result, encode_message, reason_byte, u8, finish, from_byte, bounded_bytes,
  bounded_string, effect_body, decode_effect, optional_bytes, result_body, decode_result,
  message_body, decode_message,
}
use ldgr.Rt.Message.Readers.{
  u32-le_bytes, u64-le_bytes, known_actor-le_bytes, hash_framed-to_framed_bytes, encode_path-ok,
  bounded_bytes-append, bounded_string-append,
}

abbrev pub IsPayload : List ℕ → Type 0
IsPayload bytes = length bytes ≤ max_payload_bytes

abbrev pub IsPathText : List ℕ → Type 0
IsPathText text = (length text ≤ max_path_bytes) × (is_utf8 text ≡ true)

-- The limits that the decoder enforces, and the widths of the numbers.
abbrev pub IsEffect : Effect → Type 0
IsEffect Effect.clock = Unit
IsEffect (Effect.sleep ticks) = ticks < 2 ^ 64
IsEffect (Effect.random stream count) = (stream < 2 ^ 32) × (count ≤ max_random_count)
IsEffect (Effect.send to payload) = (to ≤ max_actor) × IsPayload payload
IsEffect Effect.recv = Unit
IsEffect (Effect.fs_write path offset bytes) = IsPathText path × (offset < 2 ^ 64) × IsPayload bytes
IsEffect (Effect.fs_read path offset len) = IsPathText path × (offset < 2 ^ 64) × (len < 2 ^ 64)
IsEffect (Effect.fs_sync path) = IsPathText path

abbrev pub IsEffectResult : EffectResult → Type 0
IsEffectResult (EffectResult.clock ticks) = ticks < 2 ^ 64
IsEffectResult EffectResult.done = Unit
IsEffectResult (EffectResult.random words) = IsPayload words
IsEffectResult (EffectResult.recv none) = Unit
IsEffectResult (EffectResult.recv (some bytes)) = IsPayload bytes
IsEffectResult (EffectResult.fs_read observed) = IsPayload observed

abbrev pub IsMessage : Message → Type 0
IsMessage (hello h) = (length h.identity ≡ 32) × (h.actor ≤ max_actor)
IsMessage (welcome w) = w.actor < 2 ^ 32
IsMessage (reject r) = IsPathText r.detail
IsMessage (effect_request effect) = IsEffect effect
IsMessage (effect_response result) = IsEffectResult result
IsMessage finished = Unit
IsMessage (goodbye g) = (length g.root ≡ 32) × (g.entries < 2 ^ 64)

-- A field behind its length, as it is written.
abbrev sized : List ℕ → List ℕ
sized field = le_bytes 4 (length field) ++ field

bounded_bytes-sized :
    (field rest : List ℕ) → IsPayload field → bounded_bytes (sized field ++ rest) ≡ ok (field, rest)
bounded_bytes-sized field rest h = rw (append_assoc) (bounded_bytes-append field rest h)

bounded_string-sized :
    (field rest : List ℕ)
    → IsPathText field
    → bounded_string (sized field ++ rest) ≡ ok (field, rest)
bounded_string-sized field rest h = rw (append_assoc) (bounded_string-append field rest h.0 h.1)

split :
    (path field last rest : List ℕ)
    → (sized path ++ (field ++ last)) ++ rest ≡ sized path ++ (field ++ (last ++ rest))
split path field last rest = simp append_assoc

abbrev ReadsEffect : Effect → Type 0
ReadsEffect effect =
    (b : List ℕ) × (encode_effect effect ≡ ok b)
    × ((rest : List ℕ) → decode_effect (b ++ rest) ≡ ok (effect, rest))

encode_effect-ReadsEffect : (effect : Effect) → IsEffect effect → ReadsEffect effect
unfolding encode_effect decode_effect u8 effect_body
encode_effect-ReadsEffect Effect.clock h = (1 ∷ [], refl, λ rest. refl)
encode_effect-ReadsEffect (Effect.sleep ticks) h =
    (2 ∷ le_bytes 8 ticks, refl, λ rest. rw (u64-le_bytes ticks rest h))
encode_effect-ReadsEffect (Effect.random stream count) h = (
  3 ∷ (le_bytes 4 stream ++ le_bytes 4 count),
  refl,
  λ rest.
      rw
        (
          append_assoc,
          u32-le_bytes stream (le_bytes 4 count ++ rest) h.0,
          u32-le_bytes count rest (omega arith),
        )
        (ground arith),
)
encode_effect-ReadsEffect (Effect.send to payload) h = (
  4 ∷ (le_bytes 4 to ++ sized payload),
  rw (encode_path-ok payload (omega arith)),
  λ rest. rw (
    append_assoc,
    known_actor-le_bytes to (sized payload ++ rest) h.0,
    bounded_bytes-sized payload rest h.1,
  ),
)
encode_effect-ReadsEffect Effect.recv h = (5 ∷ [], refl, λ rest. refl)
encode_effect-ReadsEffect (Effect.fs_write path offset bytes) h = (
  6 ∷ (sized path ++ (le_bytes 8 offset ++ sized bytes)),
  rw (encode_path-ok path (omega arith), encode_path-ok bytes (omega arith)),
  λ rest. rw (
    split path (le_bytes 8 offset) (sized bytes) rest,
    bounded_string-sized path (le_bytes 8 offset ++ (sized bytes ++ rest)) h.0,
    u64-le_bytes offset (sized bytes ++ rest) h.1,
    bounded_bytes-sized bytes rest h.2,
  ),
)
encode_effect-ReadsEffect (Effect.fs_read path offset len) h = (
  7 ∷ (sized path ++ (le_bytes 8 offset ++ le_bytes 8 len)),
  rw (encode_path-ok path (omega arith)),
  λ rest. rw (
    split path (le_bytes 8 offset) (le_bytes 8 len) rest,
    bounded_string-sized path (le_bytes 8 offset ++ (le_bytes 8 len ++ rest)) h.0,
    u64-le_bytes offset (le_bytes 8 len ++ rest) h.1,
    u64-le_bytes len rest h.2,
  ),
)
encode_effect-ReadsEffect (Effect.fs_sync path) h = (
  8 ∷ sized path,
  rw (encode_path-ok path (omega arith)),
  λ rest. rw (bounded_string-sized path rest h),
)

abbrev ReadsResult : EffectResult → Type 0
ReadsResult result =
    (b : List ℕ) × (encode_result result ≡ ok b)
    × ((rest : List ℕ) → decode_result (b ++ rest) ≡ ok (result, rest))

encode_result-ReadsResult : (result : EffectResult) → IsEffectResult result → ReadsResult result
unfolding encode_result decode_result u8 result_body optional_bytes
encode_result-ReadsResult (EffectResult.clock ticks) h =
    (1 ∷ le_bytes 8 ticks, refl, λ rest. rw (u64-le_bytes ticks rest h))
encode_result-ReadsResult EffectResult.done h = (2 ∷ [], refl, λ rest. refl)
encode_result-ReadsResult (EffectResult.random words) h = (
  3 ∷ sized words,
  rw (encode_path-ok words (omega arith)),
  λ rest. rw (bounded_bytes-sized words rest h),
)
encode_result-ReadsResult (EffectResult.recv none) h = (4 ∷ 0 ∷ [], refl, λ rest. refl)
encode_result-ReadsResult (EffectResult.recv (some bytes)) h = (
  4 ∷ 1 ∷ sized bytes,
  rw (encode_path-ok bytes (omega arith)),
  λ rest. rw (bounded_bytes-sized bytes rest h),
)
encode_result-ReadsResult (EffectResult.fs_read observed) h = (
  5 ∷ sized observed,
  rw (encode_path-ok observed (omega arith)),
  λ rest. rw (bounded_bytes-sized observed rest h),
)

from_byte-reason_byte : (reason : RejectReason) → from_byte (reason_byte reason) ≡ ok reason
unfolding from_byte reason_byte
from_byte-reason_byte RejectReason.identity = refl
from_byte-reason_byte RejectReason.overload = refl
from_byte-reason_byte RejectReason.protocol = refl

-- A message within the limits of the protocol is encoded, and the bytes decode to it.
pub decode_message-encode_message :
    (message : Message)
    → IsMessage message
    → (b : List ℕ) × (encode_message message ≡ ok b) × (decode_message b ≡ ok message)
unfolding encode_message decode_message u8 message_body finish
decode_message-encode_message (hello m) h = (
  1 ∷ (to_framed_bytes m.identity ++ le_bytes 4 m.actor),
  refl,
  rw (
    hash_framed-to_framed_bytes m.identity (le_bytes 4 m.actor) h.0,
    ← append-nil (le_bytes 4 m.actor),
    known_actor-le_bytes m.actor [] h.1,
  ),
)
decode_message-encode_message (welcome m) h = (
  2 ∷ le_bytes 4 m.actor,
  refl,
  rw (← append-nil (le_bytes 4 m.actor), u32-le_bytes m.actor [] h),
)
decode_message-encode_message (reject m) h = (
  3 ∷ reason_byte m.reason ∷ sized m.detail,
  rw (encode_path-ok m.detail (omega arith)),
  rw (
    from_byte-reason_byte m.reason,
    ← append-nil (sized m.detail),
    bounded_string-sized m.detail [] h,
  ),
)
decode_message-encode_message (effect_request effect) h =
    let (b, e, d) = encode_effect-ReadsEffect effect h in (4 ∷ b, rw e, rw (← append-nil b, d []))
decode_message-encode_message (effect_response result) h =
    let (b, e, d) = encode_result-ReadsResult result h in (5 ∷ b, rw e, rw (← append-nil b, d []))
decode_message-encode_message finished h = (6 ∷ [], refl, refl)
decode_message-encode_message (goodbye m) h = (
  7 ∷ (to_framed_bytes m.root ++ le_bytes 8 m.entries),
  refl,
  rw (
    hash_framed-to_framed_bytes m.root (le_bytes 8 m.entries) h.0,
    ← append-nil (le_bytes 8 m.entries),
    u64-le_bytes m.entries [] h.1,
  ),
)
