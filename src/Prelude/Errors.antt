-- ===== src/Prelude/Errors.antt =====
-- A computation that returns or raises, and its `do` notation.
use mathlib.Core.Bool.{Bool, true, false}
use mathlib.Core.Path.{◌≡◌, refl}
use native.Mathlib.Omega.{arith}
use mathlib.Core.Option.{Option, none, some}

pub data Outcome {ℓ κ} (E : Type ℓ) (A : Type κ) : Type (ℓ ⊔ κ) where
  ok : A → Outcome E A
  err : E → Outcome E A

infixl 5 ◌>>=◌ ◌>>◌
abbrev pub ◌>>=◌ {ℓ κ μ} :
    {E : Type ℓ} {A : Type κ} {B : Type μ} → Outcome E A → (A → Outcome E B) → Outcome E B
ok a >>= f = f a
err e >>= f = err e

abbrev pub ◌>>◌ {ℓ κ} : {E : Type ℓ} {B : Type κ} → Outcome E (Unit {0}) → Outcome E B → Outcome E B
m >> k = m >>= λ _. k

module _ {ℓ} {E : Type ℓ} where
  -- `if test: raise e`
  abbrev pub raise_if : Bool → E → Outcome E (Unit {0})
  raise_if true e = err e
  raise_if false e = ok tt

  abbrev pub or_raise {κ} : {A : Type κ} → Option A → E → Outcome E A
  or_raise none e = err e
  or_raise (some a) e = ok a

-- What a computation returned before the last step of one that returned.
pub bind-ok {ℓ κ μ} :
    {E : Type ℓ} {A : Type κ} {B : Type μ} (m : Outcome E A) (f : A → Outcome E B) (b : B)
    → (m >>= f) ≡ ok b
    → (a : A) × (m ≡ ok a) × (f a ≡ ok b)
bind-ok (ok a) f b h = (a, refl, h)
bind-ok (err e) f b h = absurd (ground (arith, h))

-- A computation that does not raise returns, and an option that is not none holds something.
pub returns {ℓ κ} :
    {E : Type ℓ} {A : Type κ} (o : Outcome E A) → ((e : E) → o ≡ err e → ⊥) → (a : A) × (o ≡ ok a)
returns (ok a) h = (a, refl)
returns (err e) h = absurd (h e refl)

pub holds_some {κ} : {A : Type κ} (o : Option A) → (o ≡ none → ⊥) → (a : A) × (o ≡ some a)
holds_some none h = absurd (h refl)
holds_some (some a) h = (a, refl)
