-- ===== src/Common/Errors.antt =====
-- A call that returns a value or an error, `(T, error)` in the source, for a type of errors.
use mathlib.Core.Path.{◌≡◌, refl, ap}
use mathlib.Core.Logic.{◌⊎◌, inl, inr}
use mathlib.Core.Bool.{Bool, true, false}
use native.Mathlib.Omega.{arith}
use mathlib.Core.Option.{Option, none, some}

pub data Result {ℓ κ} (E : Type ℓ) (A : Type κ) : Type (ℓ ⊔ κ) where
  ok : A → Result E A
  err : E → Result E A

infixl 5 ◌>>=◌ ◌>>◌
abbrev pub ◌>>=◌ {ℓ κ μ} :
    {E : Type ℓ} {A : Type κ} {B : Type μ} → Result E A → (A → Result E B) → Result E B
ok a >>= f = f a
err e >>= f = err e

abbrev pub ◌>>◌ {ℓ μ} : {E : Type ℓ} {B : Type μ} → Result E (Unit {0}) → Result E B → Result E B
m >> k = m >>= λ _. k

-- `if bad { return e }`
abbrev pub reject {ℓ} : {E : Type ℓ} → Bool → E → Result E (Unit {0})
reject true e = err e
reject false e = ok tt

abbrev pub or_err {ℓ κ} : {E : Type ℓ} {A : Type κ} → Option A → E → Result E A
or_err none e = err e
or_err (some a) e = ok a

-- Rewrites an error on its way out.
abbrev pub map_err {ℓ κ μ} :
    {E : Type ℓ} {F : Type κ} {A : Type μ} → (E → F) → Result E A → Result F A
map_err f (ok a) = ok a
map_err f (err e) = err (f e)

abbrev pub is_ok {ℓ κ} : {E : Type ℓ} {A : Type κ} → Result E A → Bool
is_ok (ok a) = true
is_ok (err e) = false

pub Result-cases {ℓ κ} :
    {E : Type ℓ} {A : Type κ} (r : Result E A) → ((e : E) × (r ≡ err e)) ⊎ ((a : A) × (r ≡ ok a))
Result-cases (ok a) = inr (a, refl)
Result-cases (err e) = inl (e, refl)

-- A chain that gives a value: each call of it gave one.
module _ {ℓ κ μ} {E : Type ℓ} {A : Type κ} {B : Type μ} where
  pub bind_ok :
      (m : Result E A) (f : A → Result E B) (b : B)
      → (m >>= f) ≡ ok b
      → (a : A) × (m ≡ ok a) × (f a ≡ ok b)
  bind_ok (ok a) f b h = (a, refl, h)
  bind_ok (err e) f b h = ground (arith, h)

module _ {ℓ} {E : Type ℓ} where
  pub reject-ok : (b : Bool) (e : E) (u : Unit {0}) → reject b e ≡ ok u → b ≡ false
  reject-ok true e u h = ground (arith, h)
  reject-ok false e u h = refl

  pub or_err-ok {κ} : {A : Type κ} (o : Option A) (e : E) (a : A) → or_err o e ≡ ok a → o ≡ some a
  or_err-ok none e a h = ground (arith, h)
  or_err-ok (some b) e a h = ap some (ground (arith, h))

  pub map_err-ok {κ μ} :
      {F : Type κ} {A : Type μ} (f : E → F) (r : Result E A) (a : A) → map_err f r ≡ ok a → r ≡ ok a
  map_err-ok f (ok b) a h = ap ok (ground (arith, h))
  map_err-ok f (err e) a h = ground (arith, h)

module _ {ℓ κ μ} {E : Type ℓ} {A : Type κ} {B : Type μ} where
  -- Two results of pairs agree in both parts.
  pub ok-pair : (x y : A × B) → ◌≡◌ {A = Result E (A × B)} (ok x) (ok y) → (x.0 ≡ y.0) × (x.1 ≡ y.1)
  ok-pair x y h = (ground (arith, h), ground (arith, h))

pub ok-same {ℓ κ} : {E : Type ℓ} {A : Type κ} (x y : A) → ◌≡◌ {A = Result E A} (ok x) (ok y) → x ≡ y
ok-same x y h = ground (arith, h)
