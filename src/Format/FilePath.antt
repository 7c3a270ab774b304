-- ===== src/Format/FilePath.antt =====
-- crates/ledger-format/src/path.rs: the canonical form of filesystem paths, which are byte strings.
pub mod Canonical
use ldgr.Prelude.{
  ℕ, ◌+◌, Bool, true, false, ◌||◌, List, [], ◌∷◌, ◌++◌, reverse, ltb, ◌==◌, if◌then◌else◌, length,
  Result, ok, err, ◌>>=◌,
}
use ldgr.Prelude.Bytes.{bytes_eq}
use ldgr.Cbor.Encode.{array, bytes}

abbrev pub max_canonical_path_bytes : ℕ
max_canonical_path_bytes = 4096

pub data PathError : Type 0 where
  root_escape : PathError
  nul_byte : PathError
  too_long : PathError
  hash_mismatch : PathError

-- `raw.contains(&0)`
unfoldable pub has_nul : List ℕ → Bool
has_nul [] = false
has_nul (b ∷ bs) = b == 0 || has_nul bs

-- `raw.split(|b| *b == b'/')`: one component more than there are slashes.
unfoldable pub cons_head : ℕ → List (List ℕ) → List (List ℕ)
cons_head b [] = (b ∷ []) ∷ []
cons_head b (c ∷ cs) = (b ∷ c) ∷ cs

unfoldable pub split : List ℕ → List (List ℕ)
split [] = [] ∷ []
split (b ∷ bs) = let rest = split bs in if b == b'/' then [] ∷ rest else cons_head b rest

-- `out.pop()`; the vector `out` is the list of its elements from the last one on.
unfoldable pub pop : List (List ℕ) → Result PathError (List (List ℕ))
pop [] = err root_escape
pop (c ∷ out) = ok out

-- What one component does to `out`.
unfoldable pub enter : List ℕ → List (List ℕ) → Result PathError (List (List ℕ))
enter component out =
    if bytes_eq component [] || bytes_eq component (b'.' ∷ [])
    then ok out
    else if bytes_eq component (b'.' ∷ b'.' ∷ [])
    then pop out
    else ok (component ∷ out)

unfoldable pub resolve : List (List ℕ) → List (List ℕ) → Result PathError (List (List ℕ))
resolve out [] = ok out
resolve out (component ∷ components) = do out' ← enter component out; resolve out' components

-- The components behind the first slash, with one slash between each two.
unfoldable pub join_more : List (List ℕ) → List ℕ
join_more [] = []
join_more (c ∷ cs) = b'/' ∷ (c ++ join_more cs)

unfoldable pub join : List (List ℕ) → List ℕ
join [] = []
join (c ∷ cs) = c ++ join_more cs

unfoldable pub render : List (List ℕ) → List ℕ
render components = b'/' ∷ join components

unfoldable pub canonicalize : List ℕ → Result PathError (List ℕ)
canonicalize raw = if has_nul raw then err nul_byte else (do
  out ← resolve [] (split raw)
  let canonical = render (reverse out)
  if ltb max_canonical_path_bytes (length canonical) then err too_long else ok canonical)

pub record PathRef : Type 0 where
  pub path_hash : List ℕ
  pub canonical_path : List ℕ

unfoldable pub encode_path_ref : PathRef → List ℕ
encode_path_ref path_ref = array 2 ++ (bytes path_ref.path_hash ++ bytes path_ref.canonical_path)
