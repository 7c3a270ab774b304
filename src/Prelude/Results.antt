-- ===== src/Prelude/Results.antt =====
-- Rust's `Result`, with `?` as the bind of a `do` block.
use mathlib.Core.Path.{◌≡◌, refl, subst}
use mathlib.Core.Bool.{Bool, true, false}
use ldgr.Prelude.Tests.{if◌then◌else◌}
use mathlib.Core.Logic.{◌⊎◌, inl, inr}

pub data Result {ℓ} (E : Type 0) (A : Type ℓ) : Type ℓ where
  ok : A → Result E A
  err : E → Result E A

module _ {ℓ κ} {E : Type 0} {X : Type ℓ} {Y : Type κ} where
  infixl 5 ◌>>=◌
  abbrev pub ◌>>=◌ : Result E X → (X → Result E Y) → Result E Y
  err why >>= next = err why
  ok x >>= next = next x

  pub >>=-eq-ok :
      (first : Result E X) (next : X → Result E Y) {y : Y}
      → (first >>= next) ≡ ok y
      → (x : X) × (first ≡ ok x) × (next x ≡ ok y)
  >>=-eq-ok (err why) next same = cc
  >>=-eq-ok (ok x) next same = (x, refl, same)

pub Result-cases {ℓ} :
    {E : Type 0} {X : Type ℓ} (r : Result E X) → ((x : X) × (r ≡ ok x)) ⊎ ((e : E) × (r ≡ err e))
Result-cases (ok x) = inl (x, refl)
Result-cases (err e) = inr (e, refl)

ok_eq {ℓ} : {E : Type 0} {A : Type ℓ} (a b : A) → ◌≡◌ {A = Result E A} (ok a) (ok b) → a ≡ b
ok_eq a b e = cc

-- What holds of the value of a successful run.
abbrev pub Post {ℓ κ} : {E : Type 0} {A : Type ℓ} → Result E A → (A → Type κ) → Type κ
Post (ok a) P = P a
Post (err e) P = Unit

pub Post-ok {ℓ κ} :
    {E : Type 0} {A : Type ℓ} (P : A → Type κ) (r : Result E A) {a : A} → Post r P → r ≡ ok a → P a
Post-ok P (ok b) p e = subst P (ok_eq b _ e) p
Post-ok P (err x) p e = cc

pub Post-bind {ℓ κ μ ν} :
    {E : Type 0} {A : Type ℓ} {B : Type κ} (P : A → Type μ) (Q : B → Type ν) (r : Result E A)
    (f : A → Result E B)
    → Post r P
    → ((a : A) → P a → Post (f a) Q)
    → Post (r >>= f) Q
Post-bind P Q (ok a) f p k = k a p
Post-bind P Q (err e) f p k = tt

pub Post-if {ℓ κ} :
    {E : Type 0} {A : Type ℓ} (Q : A → Type κ) (b : Bool) (r s : Result E A)
    → (b ≡ true → Post r Q)
    → (b ≡ false → Post s Q)
    → Post (if b then r else s) Q
Post-if Q true r s p q = p refl
Post-if Q false r s p q = q refl

pub Post-weaken {ℓ κ μ} :
    {E : Type 0} {A : Type ℓ} (P : A → Type κ) (Q : A → Type μ) (r : Result E A)
    → Post r P
    → ((a : A) → P a → Q a)
    → Post r Q
Post-weaken P Q (ok a) p k = k a p
Post-weaken P Q (err e) p k = tt

-- A bind behind a guard.
pub Post-if-bind {ℓ κ μ} :
    {E : Type 0} {A : Type ℓ} {B : Type κ} (Q : B → Type μ) (b : Bool) (e : E) (r : Result E A)
    (f : A → Result E B)
    → (b ≡ false → Post (r >>= f) Q)
    → Post ((if b then err e else r) >>= f) Q
Post-if-bind Q true e r f p = tt
Post-if-bind Q false e r f p = p refl
