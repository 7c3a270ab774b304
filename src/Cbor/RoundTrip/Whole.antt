-- ===== src/Cbor/RoundTrip/Whole.antt =====
-- The induction over a canonical value: it is encoded, and the bytes decode to it.
use ldgr.Prelude.{
  ℕ, suc, ◌-◌, ◌≤◌, ◌<◌, ◌≡◌, refl, ◌∙◌, true, false, Option, none, some, List, [], ◌∷◌, ◌++◌,
  append_assoc, append-nil, arith, ltb, length, length-append, take, take-append, ok,
}
use mathlib.Core.Path.{subst}
use ldgr.Cbor.{CborValue, Items, item, Entries, entry, count_items, count_entries, max_depth}
use ldgr.Cbor.Canonical.{
  Canonical, CanonicalItems, nil, cons, CanonicalEntries, end, more, key_bytes, Precedes, IsU64,
}
use ldgr.Cbor.Encode.{
  Encoded, major, unsigned, bytes, text, array, map, boolean, null, encode_minimal_float, write_map,
  join_entries, try_encode, encode_items, encode_entries, to_canonical_bytes,
}
use ldgr.Cbor.Decode.{
  decode_simple, decode_items, decode_entries, decode_body, decode_value, whole,
  from_canonical_bytes,
}
use ldgr.Cbor.RoundTrip.Header.{major_head}
use ldgr.Cbor.RoundTrip.Order.{
  Ascending, check_order-Precedes, sort_entries-Ascending, has_duplicate-Ascending,
}
use ldgr.Cbor.RoundTrip.Value.{
  decode_value-major, decode_value-bytes, decode_value-text, decode_value-float, encode_float-ok,
}

-- `v` is encoded as some bytes, and the decoder reads `v` off them whatever follows.
abbrev Reads : ℕ → CborValue → Type 0
Reads room v =
    (b : List ℕ) × (try_encode v ≡ ok b)
    × (0 < length b)
    × ((rest : List ℕ) → decode_value room (b ++ rest) ≡ ok (v, rest))

abbrev ReadsItems : ℕ → Items → Type 0
ReadsItems room vs =
    (b : List ℕ) × (encode_items vs ≡ ok b)
    × (count_items vs ≤ length b)
    × ((rest : List ℕ)
        → decode_items (decode_value room) (count_items vs) (b ++ rest) ≡ ok (vs, rest))

abbrev ReadsEntries : ℕ → Option (List ℕ) → Entries → Type 0
ReadsEntries room prev es =
    (l : List Encoded) × (encode_entries es ≡ ok l)
    × (length l ≡ count_entries es)
    × (count_entries es ≤ length (join_entries l))
    × Ascending prev l
    × ((rest : List ℕ)
        → decode_entries (decode_value room) (count_entries es) prev (join_entries l ++ rest)
          ≡ ok (es, rest))

length-major : (kind n : ℕ) (rest : List ℕ) → 0 < length (major kind n ++ rest)
length-major kind n rest = let (a, t, _, e) = major_head kind n in rw e (omega arith)

length-float : (f : ℕ) → 0 < length (encode_minimal_float f)
unfolding encode_minimal_float
length-float f = ground arith

-- A head with nothing behind it but its own argument.
Reads-number :
    (room kind n : ℕ) (v : CborValue)
    → kind < 7
    → IsU64 n
    → try_encode v ≡ ok (major kind n)
    → ((initial : ℕ) (rest : List ℕ)
        → decode_body (decode_value room) initial kind n rest ≡ ok (v, rest))
    → Reads (suc room) v
Reads-number room kind n v hk hn he hd = (
  major kind n,
  he,
  rw append-nil at (length-major kind n []),
  λ rest. let (i, e) = decode_value-major room kind n rest hk hn in e ∙ hd i rest,
)

Reads-array :
    (room : ℕ) (vs : Items)
    → IsU64 (count_items vs)
    → ReadsItems room vs
    → Reads (suc room) (CborValue.array vs)
unfolding try_encode array decode_body
Reads-array room vs h (b, e, enough, back) = (
  array (count_items vs) ++ b,
  rw (e, try_encode),
  length-major 4 (count_items vs) b,
  λ rest.
      let (i, head) = decode_value-major room 4 (count_items vs) (b ++ rest) (omega arith) h in
      let room_left : ltb (length (b ++ rest)) (count_items vs) ≡ false =
        ground (arith, length-append b rest) in
      rw (append_assoc, head, room_left, back rest),
)

Reads-map :
    (room : ℕ) (es : Entries)
    → IsU64 (count_entries es)
    → ReadsEntries room none es
    → Reads (suc room) (CborValue.map es)
unfolding try_encode map decode_body write_map
Reads-map room es h (l, e, same, enough, up, back) = (
  map (count_entries es) ++ join_entries l,
  rw (e, try_encode, sort_entries-Ascending none l up, has_duplicate-Ascending none l up, same),
  length-major 5 (count_entries es) (join_entries l),
  λ rest.
      let (i, head) =
        decode_value-major room 5 (count_entries es) (join_entries l ++ rest) (omega arith) h in
      let room_left : ltb (length (join_entries l ++ rest)) (count_entries es) ≡ false =
        ground (arith, length-append (join_entries l) rest) in
      rw (append_assoc, head, room_left, back rest),
)

Reads-cons :
    (room : ℕ) (v : CborValue) (vs : Items)
    → Reads room v
    → ReadsItems room vs
    → ReadsItems room (item v vs)
unfolding encode_items decode_items
Reads-cons room v vs (b, e, pos, back) (bs, es, many, backs) = (
  b ++ bs,
  rw (e, es),
  omega (arith, length-append b bs),
  λ rest. rw (append_assoc, back (bs ++ rest), backs rest),
)

-- The raw key is cut from the input by the bytes that are left behind it.
raw_key_eq : (b t : List ℕ) → take (length (b ++ t) - length t) (b ++ t) ≡ b
raw_key_eq b t =
    let size : length (b ++ t) - length t ≡ length b = omega (arith, length-append b t) in
    rw size (take-append b t)

key_bytes-ok : (k : CborValue) (b : List ℕ) → try_encode k ≡ ok b → key_bytes k ≡ b
key_bytes-ok k b e = rw (e, key_bytes)

Reads-entry :
    (room : ℕ) (prev : Option (List ℕ)) (k v : CborValue) (es : Entries) (bk : List ℕ)
    → Precedes prev bk
    → try_encode k ≡ ok bk
    → ((rest : List ℕ) → decode_value room (bk ++ rest) ≡ ok (k, rest))
    → Reads room v
    → ReadsEntries room (some bk) es
    → ReadsEntries room prev (entry k v es)
unfolding encode_entries decode_entries join_entries
Reads-entry room prev k v es bk before ek backk (bv, ev, pv, backv) (l, e, same, many, up, back) = (
  (bk, bv) ∷ l,
  rw (ek, ev, e),
  omega (arith, same),
  omega (arith, length-append bk (bv ++ join_entries l), length-append bv (join_entries l)),
  (before, up),
  λ rest.
      let t = bv ++ (join_entries l ++ rest) in
      rw (
        append_assoc,
        append_assoc,
        backk t,
        raw_key_eq bk t,
        check_order-Precedes prev bk before,
        backv (join_entries l ++ rest),
        back rest,
      ),
)

mutual
  unfolding try_encode decode_value decode_simple unsigned bytes text boolean null encode_items
      decode_items encode_entries decode_entries join_entries decode_body

  reads : (room : ℕ) (v : CborValue) → Canonical room v → Reads room v
  reads _ _ (Canonical.unsigned {room} {n} h) =
      Reads-number room 0 n (CborValue.unsigned n) (omega arith) h (refl) (λ i rest. refl)
  reads _ _ (Canonical.negative {room} {n} h) =
      Reads-number room 1 n (CborValue.negative n) (omega arith) h refl (λ i rest. refl)
  reads _ _ (Canonical.bytes {room} {b} _ h) =
      (bytes b, refl, length-major 2 (length b) b, λ rest. decode_value-bytes room b rest h)
  reads _ _ (Canonical.text {room} {s} valid h) =
      (text s, refl, length-major 3 (length s) s, λ rest. decode_value-text room s rest valid h)
  reads _ _ (Canonical.array {room} {vs} c h) = Reads-array room vs h (reads_items room vs c)
  reads _ _ (Canonical.map {room} {es} c h) = Reads-map room es h (reads_entries room none es c)
  reads _ _ (Canonical.bool {room} true) = (0xf5 ∷ [], refl, omega arith, λ rest. refl)
  reads _ _ (Canonical.bool {room} false) = (0xf4 ∷ [], refl, omega arith, λ rest. refl)
  reads _ _ (Canonical.null {room}) = (0xf6 ∷ [], refl, omega arith, λ rest. refl)
  reads _ _ (Canonical.float {room} {f} wide number signed) = (
    encode_minimal_float f,
    encode_float-ok f number signed,
    length-float f,
    λ rest. decode_value-float f rest wide number signed room,
  )

  reads_items : (room : ℕ) (vs : Items) → CanonicalItems room vs → ReadsItems room vs
  reads_items _ _ (nil {room}) = ([], refl, omega arith, λ rest. refl)
  reads_items _ _ (cons {room} {v} {vs} c cs) =
      Reads-cons room v vs (reads room v c) (reads_items room vs cs)

  reads_entries :
      (room : ℕ) (prev : Option (List ℕ)) (es : Entries)
      → CanonicalEntries room prev es
      → ReadsEntries room prev es
  reads_entries _ _ _ (end {room} {prev}) = ([], refl, refl, omega arith, tt, λ rest. refl)
  reads_entries _ _ _ (more {room} {prev} {k} {v} {es} before ck cv ces) =
      let (bk, ek, _, backk) = reads room k ck in
      let kb = key_bytes-ok k bk ek in
      Reads-entry room prev k v es bk (subst (Precedes prev) kb before) ek backk (reads room v cv) (
        subst (λ (b : List ℕ). ReadsEntries room (some b) es) kb
          (reads_entries room (some (key_bytes k)) es ces))

-- Every canonical value, nested at most `max_depth` deep, is encoded, and its bytes decode to it.
pub from_canonical_bytes-to_canonical_bytes :
    (v : CborValue)
    → Canonical (suc max_depth) v
    → (b : List ℕ) × (to_canonical_bytes v ≡ ok b) × (from_canonical_bytes b ≡ ok v)
unfolding to_canonical_bytes from_canonical_bytes whole
from_canonical_bytes-to_canonical_bytes v c =
    let (b, e, _, back) = reads (suc max_depth) v c in (b, e, rw (rw append-nil at (back [])))

-- Two canonical values with the same bytes are the same value.
pub to_canonical_bytes-injective :
    (v w : CborValue)
    → Canonical (suc max_depth) v
    → Canonical (suc max_depth) w
    → to_canonical_bytes v ≡ to_canonical_bytes w
    → v ≡ w
to_canonical_bytes-injective v w cv cw e =
    let (b, eb, vb) = from_canonical_bytes-to_canonical_bytes v cv in
    let (d, ed, wd) = from_canonical_bytes-to_canonical_bytes w cw in cc (e, eb, ed, vb, wd)
