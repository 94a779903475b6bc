-- ===== src/Common/Result.antt =====
-- A call that returns or raises, for `do` blocks.
use mathlib.Core.Path.{◌≡◌, refl}
use mathlib.Core.Bool.{Bool, true, false}
use mathlib.Core.Option.{Option, none, some}

-- What it raises, or what it returns.
pub data Result {ℓ κ} (E : Type ℓ) (A : Type κ) : Type (ℓ ⊔ κ) where
  err : E → Result E A
  ok : A → Result E A

-- An optional value whose absence raises.
abbrev pub or_raise {ℓ κ} : {E : Type ℓ} {A : Type κ} → Option A → E → Result E A
or_raise none reason = err reason
or_raise (some value) reason = ok value

infixl 5 ◌>>◌
module _ {ℓ κ μ} {E : Type ℓ} {A : Type κ} {B : Type μ} where
  infixl 5 ◌>>=◌
  abbrev pub ◌>>=◌ : Result E A → (A → Result E B) → Result E B
  err reason >>= next = err reason
  ok value >>= next = next value

  -- Inversion of a bind that returned.
  pub >>=-eq-ok :
      (m : Result E A) (next : A → Result E B) {result : B}
      → (m >>= next) ≡ ok result
      → (value : A) × (m ≡ ok value) × (next value ≡ ok result)
  >>=-eq-ok (err reason) next h = cc
  >>=-eq-ok (ok value) next h = (value, refl, h)

-- `if not b: raise reason`
abbrev pub guard {ℓ} : {E : Type ℓ} → Bool → E → Result E (Unit {0})
guard false reason = err reason
guard true reason = ok tt

abbrev pub ◌>>◌ {ℓ κ} : {E : Type ℓ} {B : Type κ} → Result E (Unit {0}) → Result E B → Result E B
first >> after = first >>= (λ done. after)

pub guard-eq-ok {ℓ κ} :
    {E : Type ℓ} {B : Type κ} (c : Bool) (reason : E) (after : Result E B) {result : B}
    → (guard c reason >> after) ≡ ok result
    → (c ≡ true) × (after ≡ ok result)
guard-eq-ok true reason after h = (refl, h)
guard-eq-ok false reason after h = cc

module _ {ℓ κ} {E : Type ℓ} {A : Type κ} where
  pub ok-injective : {a b : A} → ◌≡◌ {A = Result E A} (ok a) (ok b) → a ≡ b
  ok-injective h = cc

  pub err-injective : {a b : E} → ◌≡◌ {A = Result E A} (err a) (err b) → a ≡ b
  err-injective h = cc
