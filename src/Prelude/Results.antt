-- ===== src/Prelude/Results.antt =====
-- Go's `(value, error)` pairs: a value, or the error that an early return reports.
use mathlib.Core.Path.{◌≡◌, refl}
use mathlib.Core.Bool.{Bool, true, false}
use native.Mathlib.Omega.{arith}

pub data Result {ℓ κ} (E : Type κ) (A : Type ℓ) : Type (ℓ ⊔ κ) where
  ok : A → Result E A
  err : E → Result E A

module _ {ℓ κ μ} {E : Type μ} {A : Type ℓ} {B : Type κ} where
  infixl 5 ◌>>=◌
  abbrev pub ◌>>=◌ : Result E A → (A → Result E B) → Result E B
  ok a >>= f = f a
  err e >>= f = err e

module _ {ℓ μ} {E : Type μ} {B : Type ℓ} where
  infixl 5 ◌>>◌
  abbrev pub ◌>>◌ : Result E (Unit {0}) → Result E B → Result E B
  ok _ >> k = k
  err e >> k = err e

-- `if !condition { return err }`
abbrev pub guard {μ} : {E : Type μ} → Bool → E → Result E (Unit {0})
guard true e = ok tt
guard false e = err e

-- A chain that returns has returned at each of its steps.
module _ {ℓ κ μ} {E : Type μ} {A : Type ℓ} {B : Type κ} where
  pub step-returns :
      (first : Result E A) (next : A → Result E B) {out : B}
      → (first >>= next) ≡ ok out
      → (mid : A) × (first ≡ ok mid) × (next mid ≡ ok out)
  step-returns (err problem) next h = absurd (ground arith)
  step-returns (ok mid) next h = (mid, refl, h)

module _ {ℓ μ} {E : Type μ} {B : Type ℓ} where
  pub check-returns :
      (test : Result E (Unit {0})) (next : Result E B) {out : B}
      → (test >> next) ≡ ok out
      → (test ≡ ok tt) × (next ≡ ok out)
  check-returns (err problem) next h = absurd (ground arith)
  check-returns (ok _) next h = (refl, h)

module _ {ℓ μ} {E : Type μ} {A : Type ℓ} where
  abbrev made : A → Result E A
  made a = ok a

  pub ok-injective : (a b : A) → made a ≡ ok b → a ≡ b
  ok-injective a b h = cc

module _ {μ} {E : Type μ} where
  pub guard-returns : (b : Bool) (e : E) → guard b e ≡ ok tt → b ≡ true
  guard-returns true e h = refl
  guard-returns false e h = absurd (ground arith)
