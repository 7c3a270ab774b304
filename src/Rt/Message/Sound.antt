-- ===== src/Rt/Message/Sound.antt =====
-- Only what the encoder writes is accepted: a body that decodes is the encoding of the message.
use ldgr.Prelude.{
  ℕ, ◌≤◌, ◌≡◌, refl, ap, sym, ◌∙◌, true, List, [], ◌∷◌, ◌++◌, append_assoc, append-nil, arith, ltb,
  ◌==◌, ==_iff, length, All, Result, ok, ◌>>=◌, Post, Post-ok, Post-bind, Post-if, Post-weaken,
}
use ldgr.Prelude.Bytes.{IsByte, le_bytes}
use ldgr.Format.Hash.{to_framed_bytes}
use ldgr.Rt.Codec.{CodecError}
use ldgr.Rt.Message.{
  max_payload_bytes, max_random_count, Effect, EffectResult, Message, encode_path, encode_effect,
  encode_result, encode_message, reason_byte, u8, u32, u64, finish, from_byte, known_actor,
  bounded_bytes, bounded_string, hash_framed, effect_body, decode_effect, optional_bytes,
  result_body, decode_result, message_body, decode_message,
}
use ldgr.Rt.Message.Readers.{
  u8-Post, u32-Post, u64-Post, known_actor-Post, hash_framed-Post, bounded_bytes-Post,
  bounded_string-Post, encode_path-ok,
}
use ldgr.Rt.Message.RoundTrip.{IsEffect, IsEffectResult, IsMessage}

-- The body behind the tag is what the encoder writes behind it, and then the rest.
abbrev EffectRead : ℕ → List ℕ → Effect × List ℕ → Type 0
EffectRead tag body (effect, rest) =
    (b : List ℕ) × (encode_effect effect ≡ ok (tag ∷ b))
    × (b ++ rest ≡ body)
    × IsEffect effect
    × All IsByte rest

-- Two fields in a row, and a field behind its length.
join : (a b r r' body : List ℕ) → a ++ r ≡ body → b ++ r' ≡ r → (a ++ b) ++ r' ≡ body
join a b r r' body e e' = rw (append_assoc, e') e

sized-eq :
    (field rest body : List ℕ)
    → le_bytes 4 (length field) ++ (field ++ rest) ≡ body
    → (le_bytes 4 (length field) ++ field) ++ rest ≡ body
sized-eq field rest body e = rw append_assoc e

tagged :
    (tag k : ℕ) (b : List ℕ)
    → (tag == k) ≡ true
    → ◌≡◌ {A = Result CodecError (List ℕ)} (ok (k ∷ b)) (ok (tag ∷ b))
tagged tag k b t = ap (λ (n : ℕ). ok (n ∷ b)) (sym ((==_iff tag k).0 t))

effect_body-Post :
    (tag : ℕ) (body : List ℕ) → All IsByte body → Post (effect_body tag body) (EffectRead tag body)
unfolding effect_body encode_effect
effect_body-Post tag body hb =
    Post-if _ (tag == 1) _ _ (λ t. ([], tagged tag 1 [] t, refl, tt, hb))
      λ _.
        Post-if _ (tag == 2) _ _
          (λ t. Post-bind _ _ (u64 body) _ (u64-Post body hb) λ (ticks, r) (e, small, hr).
            (le_bytes 8 ticks, tagged tag 2 (le_bytes 8 ticks) t, e, small, hr))
          λ _.
            Post-if _ (tag == 3) _ _
              (λ t. Post-bind _ _ (u32 body) _ (u32-Post body hb) λ (stream, r) (e, small, hr).
                Post-bind _ _ (u32 r) _ (u32-Post r hr) λ (count, r') (e', small', hr').
                  Post-if _ (ltb max_random_count count) _ _ (λ _. tt)
                    λ few. (
                      le_bytes 4 stream ++ le_bytes 4 count,
                      tagged tag 3 (le_bytes 4 stream ++ le_bytes 4 count) t,
                      join (le_bytes 4 stream) (le_bytes 4 count) r r' body e e',
                      (small, ground arith),
                      hr',
                    ))
              λ _.
                Post-if _ (tag == 4) _ _
                  (λ t.
                    Post-bind _ _ (known_actor body) _ (known_actor-Post body hb)
                      λ (to, r) (e, small, hr).
                        Post-bind _ _ (bounded_bytes r) _ (bounded_bytes-Post r hr)
                          λ (payload, r') (e', small', hr').
                            let field = le_bytes 4 (length payload) ++ payload in
                            (
                              le_bytes 4 to ++ field,
                              rw (encode_path-ok payload (omega arith))
                                  (tagged tag 4 (le_bytes 4 to ++ field) t),
                              join (le_bytes 4 to) field r r' body e (sized-eq payload r' r e'),
                              (small, small'),
                              hr',
                            ))
                  λ _.
                    Post-if _ (tag == 5) _ _ (λ t. ([], tagged tag 5 [] t, refl, tt, hb))
                      λ _.
                        Post-if _ (tag == 6) _ _
                          (λ t.
                            Post-bind _ _ (bounded_string body) _ (bounded_string-Post body hb)
                              λ (path, r) (e, short, valid, hr).
                                Post-bind _ _ (u64 r) _ (u64-Post r hr)
                                  λ (offset, r') (e', small, hr').
                                    Post-bind _ _ (bounded_bytes r') _ (bounded_bytes-Post r' hr')
                                      λ (bytes, r'') (e'', small', hr'').
                                        let name = le_bytes 4 (length path) ++ path in
                                        let field = le_bytes 4 (length bytes) ++ bytes in
                                        (
                                          name ++ (le_bytes 8 offset ++ field),
                                          rw
                                              (
                                                encode_path-ok path (omega arith),
                                                encode_path-ok bytes (omega arith),
                                              )
                                              (tagged tag 6 (name ++ (le_bytes 8 offset ++ field))
                                                t),
                                          join name (le_bytes 8 offset ++ field) r r'' body
                                              (sized-eq path r body e)
                                              (join (le_bytes 8 offset) field r' r'' r e'
                                                (sized-eq bytes r'' r' e'')),
                                          ((short, valid), small, small'),
                                          hr'',
                                        ))
                          λ _.
                            Post-if _ (tag == 7) _ _
                              (λ t.
                                Post-bind _ _ (bounded_string body) _ (bounded_string-Post body hb)
                                  λ (path, r) (e, short, valid, hr).
                                    Post-bind _ _ (u64 r) _ (u64-Post r hr)
                                      λ (offset, r') (e', small, hr').
                                        Post-bind _ _ (u64 r') _ (u64-Post r' hr')
                                          λ (len, r'') (e'', small', hr'').
                                            let name = le_bytes 4 (length path) ++ path in
                                            (
                                              name ++ (le_bytes 8 offset ++ le_bytes 8 len),
                                              rw (encode_path-ok path (omega arith)) (
                                                  tagged tag 7
                                                    (name ++ (le_bytes 8 offset ++ le_bytes 8 len))
                                                    t),
                                              join name (le_bytes 8 offset ++ le_bytes 8 len) r r''
                                                  body (sized-eq path r body e)
                                                  (join (le_bytes 8 offset) (le_bytes 8 len) r' r''
                                                    r e' e''),
                                              ((short, valid), small, small'),
                                              hr'',
                                            ))
                              λ _.
                                Post-if _ (tag == 8) _ _
                                  (λ t.
                                    Post-bind _ _ (bounded_string body) _
                                      (bounded_string-Post body hb)
                                      λ (path, r) (e, short, valid, hr).
                                        let name = le_bytes 4 (length path) ++ path in
                                        (
                                          name,
                                          rw (encode_path-ok path (omega arith))
                                              (tagged tag 8 name t),
                                          sized-eq path r body e,
                                          (short, valid),
                                          hr,
                                        ))
                                  λ _. tt

-- A tag in front of a body that is read behind it.
abbrev EffectWhole : List ℕ → Effect × List ℕ → Type 0
EffectWhole body (effect, rest) =
    (b : List ℕ) × (encode_effect effect ≡ ok b)
    × (b ++ rest ≡ body)
    × IsEffect effect
    × All IsByte rest

decode_effect-Post :
    (body : List ℕ) → All IsByte body → Post (decode_effect body) (EffectWhole body)
unfolding decode_effect
decode_effect-Post body hb = Post-bind _ _ (u8 body) _ (u8-Post body hb) λ (tag, rest) (e, hr).
    Post-weaken _ _ (effect_body tag rest) (effect_body-Post tag rest hr)
      λ (effect, r) (b, w, e', valid, hr').
        (tag ∷ b, w, ap (λ (l : List ℕ). tag ∷ l) e' ∙ e, valid, hr')

abbrev ResultRead : ℕ → List ℕ → EffectResult × List ℕ → Type 0
ResultRead tag body (result, rest) =
    (b : List ℕ) × (encode_result result ≡ ok (tag ∷ b))
    × (b ++ rest ≡ body)
    × IsEffectResult result
    × All IsByte rest

-- A payload behind the tag of the three results that hold one.
payload-Post :
    (make : List ℕ → EffectResult) (tag k : ℕ) (body : List ℕ)
    → ((field : List ℕ) → length field ≤ max_payload_bytes → IsEffectResult (make field))
    → ((field : List ℕ)
        → encode_result (make field) ≡ (encode_path field >>= λ (b : List ℕ). ok (k ∷ b)))
    → All IsByte body
    → (tag == k) ≡ true
    → Post (bounded_bytes body >>= λ (field, r). ok (make field, r)) (ResultRead tag body)
payload-Post make tag k body valid written hb t =
    Post-bind _ _ (bounded_bytes body) _ (bounded_bytes-Post body hb) λ (field, r) (e, small, hr).
      let b = le_bytes 4 (length field) ++ field in
      (
        b,
        written field ∙ rw (encode_path-ok field (omega arith)) (tagged tag k b t),
        sized-eq field r body e,
        valid field small,
        hr,
      )

optional_bytes-Post :
    (present : ℕ) (body : List ℕ)
    → All IsByte body
    → Post
        (optional_bytes present body)
        (λ (payload, rest). ResultRead 4 (present ∷ body) (EffectResult.recv payload, rest))
unfolding optional_bytes encode_result
optional_bytes-Post present body hb =
    Post-if _ (present == 0) _ _
      (λ t. (0 ∷ [], refl, ap (λ (n : ℕ). n ∷ body) (sym ((==_iff present 0).0 t)), tt, hb))
      λ _.
        Post-if _ (present == 1) _ _
          (λ t.
            Post-bind _ _ (bounded_bytes body) _ (bounded_bytes-Post body hb)
              λ (field, r) (e, small, hr).
                let b = le_bytes 4 (length field) ++ field in
                (
                  1 ∷ b,
                  rw (encode_path-ok field (omega arith)),
                  rw ((==_iff present 1).0 t)
                      (ap (λ (l : List ℕ). 1 ∷ l) (sized-eq field r body e)),
                  small,
                  hr,
                ))
          λ _. tt

result_body-Post :
    (tag : ℕ) (body : List ℕ) → All IsByte body → Post (result_body tag body) (ResultRead tag body)
unfolding result_body encode_result
result_body-Post tag body hb =
    Post-if _ (tag == 1) _ _
      (λ t. Post-bind _ _ (u64 body) _ (u64-Post body hb) λ (ticks, r) (e, small, hr).
        (le_bytes 8 ticks, tagged tag 1 (le_bytes 8 ticks) t, e, small, hr))
      λ _.
        Post-if _ (tag == 2) _ _ (λ t. ([], tagged tag 2 [] t, refl, tt, hb))
          λ _.
            Post-if _ (tag == 3) _ _
              (payload-Post EffectResult.random tag 3 body (λ f h. h) (λ f. refl) hb)
              λ _.
                Post-if _ (tag == 4) _ _
                  (λ t. Post-bind _ _ (u8 body) _ (u8-Post body hb) λ (present, r) (e, hr).
                    Post-bind _ _ (optional_bytes present r) _ (optional_bytes-Post present r hr)
                      λ (payload, r') (b, w, e', valid, hr').
                        (b, w ∙ tagged tag 4 b t, e' ∙ e, valid, hr'))
                  λ _.
                    Post-if _ (tag == 5) _ _
                      (payload-Post EffectResult.fs_read tag 5 body (λ f h. h) (λ f. refl) hb)
                      λ _. tt

abbrev ResultWhole : List ℕ → EffectResult × List ℕ → Type 0
ResultWhole body (result, rest) =
    (b : List ℕ) × (encode_result result ≡ ok b)
    × (b ++ rest ≡ body)
    × IsEffectResult result
    × All IsByte rest

decode_result-Post :
    (body : List ℕ) → All IsByte body → Post (decode_result body) (ResultWhole body)
unfolding decode_result
decode_result-Post body hb = Post-bind _ _ (u8 body) _ (u8-Post body hb) λ (tag, rest) (e, hr).
    Post-weaken _ _ (result_body tag rest) (result_body-Post tag rest hr)
      λ (result, r) (b, w, e', valid, hr').
        (tag ∷ b, w, ap (λ (l : List ℕ). tag ∷ l) e' ∙ e, valid, hr')

from_byte-Post : (byte : ℕ) → Post (from_byte byte) (λ reason. reason_byte reason ≡ byte)
unfolding from_byte reason_byte
from_byte-Post byte =
    Post-if _ (byte == 1) _ _ (λ t. sym ((==_iff byte 1).0 t))
      λ _.
        Post-if _ (byte == 2) _ _ (λ t. sym ((==_iff byte 2).0 t))
          λ _. Post-if _ (byte == 3) _ _ (λ t. sym ((==_iff byte 3).0 t)) λ _. tt

abbrev MessageRead : ℕ → List ℕ → Message × List ℕ → Type 0
MessageRead tag body (message, rest) =
    (b : List ℕ) × (encode_message message ≡ ok (tag ∷ b)) × (b ++ rest ≡ body) × IsMessage message

message_body-Post :
    (tag : ℕ) (body : List ℕ)
    → All IsByte body
    → Post (message_body tag body) (MessageRead tag body)
unfolding message_body encode_message
message_body-Post tag body hb =
    Post-if _ (tag == 1) _ _
      (λ t. Post-bind _ _ (hash_framed body) _ (hash_framed-Post body hb) λ (hash, r) (e, size, hr).
        Post-bind _ _ (known_actor r) _ (known_actor-Post r hr) λ (actor, r') (e', small, hr').
          let b = to_framed_bytes hash ++ le_bytes 4 actor in
          (
            b,
            tagged tag 1 b t,
            join (to_framed_bytes hash) (le_bytes 4 actor) r r' body e e',
            (size, small),
          ))
      λ _.
        Post-if _ (tag == 2) _ _
          (λ t. Post-bind _ _ (u32 body) _ (u32-Post body hb) λ (actor, r) (e, small, hr).
            (le_bytes 4 actor, tagged tag 2 (le_bytes 4 actor) t, e, small))
          λ _.
            Post-if _ (tag == 3) _ _
              (λ t. Post-bind _ _ (u8 body) _ (u8-Post body hb) λ (byte, r) (e, hr).
                Post-bind _ _ (from_byte byte) _ (from_byte-Post byte) λ reason same.
                  Post-bind _ _ (bounded_string r) _ (bounded_string-Post r hr)
                    λ (detail, r') (e', short, valid, hr').
                      let field = le_bytes 4 (length detail) ++ detail in
                      (
                        byte ∷ field,
                        rw (encode_path-ok detail (omega arith), same)
                            (tagged tag 3 (byte ∷ field) t),
                        ap (λ (l : List ℕ). byte ∷ l) (sized-eq detail r' r e') ∙ e,
                        (short, valid),
                      ))
              λ _.
                Post-if _ (tag == 4) _ _
                  (λ t.
                    Post-bind _ _ (decode_effect body) _ (decode_effect-Post body hb)
                      λ (effect, r) (b, w, e, valid, hr). (b, rw w (tagged tag 4 b t), e, valid))
                  λ _.
                    Post-if _ (tag == 5) _ _
                      (λ t.
                        Post-bind _ _ (decode_result body) _ (decode_result-Post body hb)
                          λ (result, r) (b, w, e, valid, hr).
                            (b, rw w (tagged tag 5 b t), e, valid))
                      λ _.
                        Post-if _ (tag == 6) _ _ (λ t. ([], tagged tag 6 [] t, refl, tt))
                          λ _.
                            Post-if _ (tag == 7) _ _
                              (λ t.
                                Post-bind _ _ (hash_framed body) _ (hash_framed-Post body hb)
                                  λ (root, r) (e, size, hr).
                                    Post-bind _ _ (u64 r) _ (u64-Post r hr)
                                      λ (entries, r') (e', small, hr').
                                        let b = to_framed_bytes root ++ le_bytes 8 entries in
                                        (
                                          b,
                                          tagged tag 7 b t,
                                          join (to_framed_bytes root) (le_bytes 8 entries) r r' body
                                              e e',
                                          (size, small),
                                        ))
                              λ _. tt

finish-Post : (rest : List ℕ) → Post (finish rest) (λ _. rest ≡ [])
unfolding finish
finish-Post [] = refl
finish-Post (b ∷ bs) = tt

decode_message-Post :
    (body : List ℕ)
    → All IsByte body
    → Post (decode_message body) (λ message. (encode_message message ≡ ok body) × IsMessage message)
unfolding decode_message
decode_message-Post body hb = Post-bind _ _ (u8 body) _ (u8-Post body hb) λ (tag, rest) (e, hr).
    Post-bind _ _ (message_body tag rest) _ (message_body-Post tag rest hr)
      λ (message, r) (b, w, e', valid). Post-bind _ _ (finish r) _ (finish-Post r) λ _ ended.
        let whole : b ≡ rest = sym (append-nil b) ∙ rw ended at e' in
        (w ∙ ap (λ (l : List ℕ). ok l) (ap (λ (l : List ℕ). tag ∷ l) whole ∙ e), valid)

-- A body of bytes that decodes is what the encoder writes for the message, which is within the limits
-- of the protocol.
pub encode_message-decode_message :
    (body : List ℕ) (message : Message)
    → All IsByte body
    → decode_message body ≡ ok message
    → (encode_message message ≡ ok body) × IsMessage message
encode_message-decode_message body message hb e =
    Post-ok _ (decode_message body) (decode_message-Post body hb) e
