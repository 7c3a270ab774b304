-- ===== src/Format/FilePath/Canonical.antt =====
-- A canonical path has plain components only, and is its own canonical form.
use ldgr.Prelude.{
  ℕ, ◌≤◌, ◌≡◌, refl, ap, ◌∙◌, Bool, false, ◌||◌, List, [], ◌∷◌, ◌++◌, append_assoc, append-nil,
  reverse, arith, ltb, ◌==◌, length, All, All-append, ok, >>=-eq-ok, Bool-cases, inl, inr,
}
use mathlib.Core.List.{reverse-append, reverse-reverse}
use ldgr.Prelude.Bytes.{bytes_eq}
use ldgr.Format.FilePath.{
  max_canonical_path_bytes, has_nul, cons_head, split, pop, enter, resolve, join_more, join, render,
  canonicalize,
}

-- `/` does not occur.
has_slash : List ℕ → Bool
has_slash [] = false
has_slash (b ∷ bs) = b == b'/' || has_slash bs

-- Neither empty nor `.` nor `..`, and without a slash or a NUL byte.
pub record IsPlain (c : List ℕ) : Type 0 where
  filled : bytes_eq c [] ≡ false
  not_dot : bytes_eq c (b'.' ∷ []) ≡ false
  not_dots : bytes_eq c (b'.' ∷ b'.' ∷ []) ≡ false
  no_slash : has_slash c ≡ false
  no_nul : has_nul c ≡ false

-- The components of a path have no slash, and no NUL byte where the path has none.
abbrev IsPart : List ℕ → Type 0
IsPart c = (has_slash c ≡ false) × (has_nul c ≡ false)

cons_head-IsPart :
    (b : ℕ) (cs : List (List ℕ))
    → (b == b'/') ≡ false
    → (b == 0) ≡ false
    → All IsPart cs
    → All IsPart (cons_head b cs)
unfolding cons_head has_slash has_nul
cons_head-IsPart b [] s n a = ((ground arith, ground arith), tt)
cons_head-IsPart b (c ∷ cs) s n a = ((ground (arith, a.0), ground (arith, a.0)), a.1)

split-IsPart : (raw : List ℕ) → has_nul raw ≡ false → All IsPart (split raw)
unfolding split has_nul has_slash
split-IsPart [] n = ((refl, refl), tt)
split-IsPart (b ∷ bs) n = elim (Bool-cases (b == b'/')) [
  | inl slash ↦ rw slash ((refl, refl), split-IsPart bs (ground arith))
  | inr other ↦
      rw other (cons_head-IsPart b (split bs) other (ground arith) (split-IsPart bs (ground arith)))
]

pop-IsPlain : (out out' : List (List ℕ)) → All IsPlain out → pop out ≡ ok out' → All IsPlain out'
unfolding pop
pop-IsPlain [] out' a e = cc
pop-IsPlain (c ∷ out) out' a e = let same : out ≡ out' = ground arith in rw (← same) a.1

enter-IsPlain :
    (c : List ℕ) (out out' : List (List ℕ))
    → IsPart c
    → All IsPlain out
    → enter c out ≡ ok out'
    → All IsPlain out'
unfolding enter
enter-IsPlain c out out' p a e = elim (Bool-cases (bytes_eq c [] || bytes_eq c (b'.' ∷ []))) [
  | inl skipped ↦ (let same : out ≡ out' = ground arith in rw (← same) a)
  | inr kept ↦ elim (Bool-cases (bytes_eq c (b'.' ∷ b'.' ∷ []))) [
    | inl up ↦ pop-IsPlain out out' a (rw (kept, up) at e)
    | inr plain ↦
        (let same : c ∷ out ≡ out' = ground arith in
          rw (← same) (
            record {
              filled = ground arith;
              not_dot = ground arith;
              not_dots = plain;
              no_slash = p.0;
              no_nul = p.1;
            },
            a,
          ))
  ]
]

resolve-IsPlain :
    (out components out' : List (List ℕ))
    → All IsPart components
    → All IsPlain out
    → resolve out components ≡ ok out'
    → All IsPlain out'
unfolding resolve
resolve-IsPlain out [] out' p a e = let same : out ≡ out' = ground arith in rw (← same) a
resolve-IsPlain out (c ∷ cs) out' p a e =
    let (next, e1, e2) = >>=-eq-ok (enter c out) _ e in
    resolve-IsPlain next cs out' p.1 (enter-IsPlain c out next p.0 a e1) e2

split_one : (c : List ℕ) → has_slash c ≡ false → split c ≡ c ∷ []
unfolding split has_slash cons_head
split_one [] s = refl
split_one (b ∷ c) s =
    let other : (b == b'/') ≡ false = ground arith in
    rw (other, split_one c (ground arith), cons_head)

split-append : (c rest : List ℕ) → has_slash c ≡ false → split (c ++ b'/' ∷ rest) ≡ c ∷ split rest
unfolding split has_slash cons_head
split-append [] rest s = refl
split-append (b ∷ c) rest s =
    let other : (b == b'/') ≡ false = ground arith in
    rw (other, split-append c rest (ground arith), cons_head)

split-join_more :
    (c : List ℕ) (cs : List (List ℕ))
    → has_slash c ≡ false
    → All IsPlain cs
    → split (c ++ join_more cs) ≡ c ∷ cs
unfolding join_more
split-join_more c [] s a = rw (append-nil c) (split_one c s)
split-join_more c (d ∷ ds) s a =
    split-append c (d ++ join_more ds) s
    ∙ ap (λ (l : List (List ℕ)). c ∷ l) (split-join_more d ds a.0.no_slash a.1)

resolve_plain : (out cs : List (List ℕ)) → All IsPlain cs → resolve out cs ≡ ok (reverse cs ++ out)
unfolding resolve enter
resolve_plain out [] a = refl
resolve_plain out (c ∷ cs) a =
    let kept : (bytes_eq c [] || bytes_eq c (b'.' ∷ [])) ≡ false =
      ground (arith, a.0.filled, a.0.not_dot) in
    rw
      (kept, a.0.not_dots, resolve_plain (c ∷ out) cs a.1, reverse-append (c ∷ []) cs, append_assoc)

resolve_empty : (cs : List (List ℕ)) → resolve [] ([] ∷ cs) ≡ resolve [] cs
unfolding resolve enter bytes_eq
resolve_empty cs = refl

resolve-render :
    (cs : List (List ℕ)) → All IsPlain cs → resolve [] (split (render cs)) ≡ ok (reverse cs)
unfolding render join
resolve-render [] a = unfold split resolve enter bytes_eq in refl
resolve-render (c ∷ cs) a =
    let parts : split (b'/' ∷ (c ++ join_more cs)) ≡ [] ∷ c ∷ cs =
      unfold split in ap (λ (l : List (List ℕ)). [] ∷ l) (split-join_more c cs a.0.no_slash a.1) in
    rw parts (
      resolve_empty (c ∷ cs)
      ∙ resolve_plain [] (c ∷ cs) a
      ∙ ap (λ (l : List (List ℕ)). ok l) (append-nil (reverse (c ∷ cs))))

has_nul-append : (a b : List ℕ) → has_nul a ≡ false → has_nul b ≡ false → has_nul (a ++ b) ≡ false
unfolding has_nul
has_nul-append [] b h h' = h'
has_nul-append (x ∷ a) b h h' = ground (arith, has_nul-append a b)

has_nul-join_more : (cs : List (List ℕ)) → All IsPlain cs → has_nul (join_more cs) ≡ false
unfolding has_nul join_more
has_nul-join_more [] a = refl
has_nul-join_more (c ∷ cs) a = has_nul-append c (join_more cs) a.0.no_nul (has_nul-join_more cs a.1)

has_nul-render : (cs : List (List ℕ)) → All IsPlain cs → has_nul (render cs) ≡ false
unfolding render join has_nul
has_nul-render [] a = refl
has_nul-render (c ∷ cs) a = has_nul-append c (join_more cs) a.0.no_nul (has_nul-join_more cs a.1)

All-reverse : (cs : List (List ℕ)) → All IsPlain cs → All IsPlain (reverse cs)
All-reverse [] a = tt
All-reverse (c ∷ cs) a =
    rw (reverse-append (c ∷ []) cs)
      (All-append IsPlain (reverse cs) (c ∷ []) (All-reverse cs a.1) (a.0, tt))

-- A canonical form is a slash and plain components with a slash between each two, within the limit, and
-- its canonical form is itself.
pub canonicalize-canonicalize :
    (raw p : List ℕ)
    → canonicalize raw ≡ ok p
    → ((cs : List (List ℕ)) × (p ≡ render cs) × All IsPlain cs)
      × (length p ≤ max_canonical_path_bytes)
      × (canonicalize p ≡ ok p)
unfolding canonicalize
canonicalize-canonicalize raw p e =
    let clean : has_nul raw ≡ false = ground arith in
    let (out, run, final) = >>=-eq-ok (resolve [] (split raw)) _ (rw clean at e) in
    let cs = reverse out in
    let plain =
      All-reverse out (resolve-IsPlain [] (split raw) out (split-IsPart raw clean) tt run) in
    let short : ltb max_canonical_path_bytes (length (render cs)) ≡ false = ground arith in
    let same : p ≡ render cs = ground arith in
    (
      (cs, same, plain),
      rw same (ground arith),
      rw (same, has_nul-render cs plain, resolve-render cs plain, reverse-reverse cs, short),
    )
