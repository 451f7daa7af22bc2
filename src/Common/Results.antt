-- ===== src/Common/Results.antt =====
-- A Go result `(value, error)`: the value, or the error that the function returned.
use mathlib.Core.Path.{◌≡◌, refl}
use mathlib.Core.Logic.{◌⊎◌, inl, inr}
use mathlib.Core.Bool.{Bool, true, false}
use mathlib.Core.Option.{Option, none, some}

pub data Result {ℓ κ} (E : Type ℓ) (A : Type κ) : Type (ℓ ⊔ κ) where
  ok : A → Result E A
  err : E → Result E A

pub Result-cases {ℓ κ} :
    {E : Type ℓ} {A : Type κ} (r : Result E A) → ((a : A) × (r ≡ ok a)) ⊎ ((e : E) × (r ≡ err e))
Result-cases (ok a) = inl (a, refl)
Result-cases (err e) = inr (e, refl)

infixl 5 ◌>>=◌ ◌>>◌
abbrev pub ◌>>=◌ {ℓ κ λ'} :
    {E : Type ℓ} {A : Type κ} {B : Type λ'} → Result E A → (A → Result E B) → Result E B
ok a >>= f = f a
err e >>= f = err e

abbrev pub ◌>>◌ {ℓ κ} : {E : Type ℓ} {B : Type κ} → Result E (Unit {0}) → Result E B → Result E B
m >> k = m >>= λ _. k

-- `if !b { return e }`
abbrev pub guard {ℓ} : {E : Type ℓ} → Bool → E → Result E (Unit {0})
guard true e = ok tt
guard false e = err e

-- `x, ok := …; if !ok { return e }`
abbrev pub or_err {ℓ κ} : {E : Type ℓ} {A : Type κ} → Option A → E → Result E A
or_err (some a) e = ok a
or_err none e = err e

-- A value with two facts about it. As a data type it is taken apart by `elim`, so a long chain of
-- inversions stays small.
pub data Found {ℓ κ λ'} (A : Type ℓ) (P : A → Type κ) (Q : A → Type λ') : Type (ℓ ⊔ κ ⊔ λ') where
  found : (a : A) → P a → Q a → Found A P Q

-- Inversions of a chain that succeeded, one for each kind of step.
module _ {ℓ κ λ'} {E : Type ℓ} {A : Type κ} {B : Type λ'} where
  pub bind-eq-ok :
      (m : Result E A) (f : A → Result E B) (b : B)
      → (m >>= f) ≡ ok b
      → Found A (λ a. m ≡ ok a) (λ a. f a ≡ ok b)
  bind-eq-ok (ok a) f b h = found a refl h
  bind-eq-ok (err e) f b h = cc

  pub or_err-eq-ok :
      (o : Option A) (x : E) (f : A → Result E B) (b : B)
      → (or_err o x >>= f) ≡ ok b
      → Found A (λ a. o ≡ some a) (λ a. f a ≡ ok b)
  or_err-eq-ok (some a) x f b h = found a refl h
  or_err-eq-ok none x f b h = cc

module _ {ℓ κ} {E : Type ℓ} {B : Type κ} where
  pub guard-eq-ok :
      (t : Bool) (x : E) (k : Result E B) (b : B)
      → (guard t x >> k) ≡ ok b
      → Found (Unit {0}) (λ _. t ≡ true) (λ _. k ≡ ok b)
  guard-eq-ok true x k b h = found tt refl h
  guard-eq-ok false x k b h = cc

pub ok-injective {ℓ κ} :
    {E : Type ℓ} {A : Type κ} {a b : A} → ◌≡◌ {A = Result E A} (ok a) (ok b) → a ≡ b
ok-injective h = cc

-- A guard at the end of a chain.
pub guard-true {ℓ} :
    {E : Type ℓ} (t : Bool) (x : E) → ◌≡◌ {A = Result E (Unit {0})} (guard t x) (ok tt) → t ≡ true
guard-true true x h = refl
guard-true false x h = cc
