-- ===== src/Prelude/Results.antt =====
-- Fallible code. `err` carries the error value of the source, or the reason of the panic.
use mathlib.Core.Path.{◌≡◌, refl, ap}
use mathlib.Core.Logic.{◌⊎◌, inl, inr}
use mathlib.Core.Bool.{Bool, true, false}
use mathlib.Core.Option.{Option, none, some}
use native.Mathlib.Omega.{arith}

pub data Result {ℓ κ} (E : Type ℓ) (A : Type κ) : Type (ℓ ⊔ κ) where
  ok : A → Result E A
  err : E → Result E A

-- `expect`, `unwrap_or_else(panic)`, `ok_or`
abbrev pub from_option {ℓ κ} : {E : Type ℓ} {A : Type κ} → Option A → E → Result E A
from_option none reason = err reason
from_option (some found) reason = ok found

-- `assert!(holds)`
abbrev pub guard {ℓ} : {E : Type ℓ} (holds : Bool) (reason : E) → Result E (Unit {0})
guard false reason = err reason
guard true reason = ok tt

-- `?`, or a panic that ends the run
infixl 5 ◌>>=◌ ◌>>◌
abbrev pub ◌>>=◌ {ℓ κ μ} :
    {E : Type ℓ} {A : Type κ} {B : Type μ} → Result E A → (A → Result E B) → Result E B
err reason >>= next = err reason
ok value >>= next = next value

abbrev pub ◌>>◌ {ℓ κ} : {E : Type ℓ} {B : Type κ} → Result E (Unit {0}) → Result E B → Result E B
check >> rest = check >>= λ passed. rest

module _ {ℓ κ μ} {E : Type ℓ} {A : Type κ} {B : Type μ} where
  -- What a successful run went through.
  pub >>=-eq-ok :
      (first : Result E A) (next : A → Result E B) {b : B}
      → (first >>= next) ≡ ok b
      → (a : A) × (first ≡ ok a) × (next a ≡ ok b)
  >>=-eq-ok (err reason) next e = cc
  >>=-eq-ok (ok value) next e = (value, refl, e)

module _ {ℓ κ} {E : Type ℓ} {A : Type κ} where
  pub >>-eq-ok :
      (m : Result E (Unit {0})) (k : Result E A) {b : A}
      → (m >> k) ≡ ok b
      → (m ≡ ok tt) × (k ≡ ok b)
  >>-eq-ok (ok u) k h = (refl, h)
  >>-eq-ok (err e) k h = cc

  pub guard-eq-ok :
      (b : Bool) (e : E) (k : Result E A) {a : A}
      → (guard b e >> k) ≡ ok a
      → (b ≡ true) × (k ≡ ok a)
  guard-eq-ok true e k h = (refl, h)
  guard-eq-ok false e k h = cc

  pub from_option-eq-ok : (o : Option A) (e : E) {a : A} → from_option o e ≡ ok a → o ≡ some a
  from_option-eq-ok (some a) e h = ground arith
  from_option-eq-ok none e h = cc

  pub ok_inj : {a b : A} → ◌≡◌ {A = Result E A} (ok a) (ok b) → a ≡ b
  ok_inj {a} e = ap (λ r. elim r [ ok x ↦ x | err f ↦ a ]) e

  pub err_inj : {a b : E} → ◌≡◌ {A = Result E A} (err a) (err b) → a ≡ b
  err_inj {a} e = ap (λ r. elim r [ ok x ↦ a | err f ↦ f ]) e

  pub Result-cases : (r : Result E A) → ((a : A) × (r ≡ ok a)) ⊎ ((e : E) × (r ≡ err e))
  Result-cases (ok a) = inl (a, refl)
  Result-cases (err e) = inr (e, refl)
