-- ===== src/Common/Results.antt =====
-- `Result` of the standard library, and the `?` operator as the bind of a do block.
use mathlib.Core.Path.{◌≡◌, refl, subst}
use mathlib.Core.Logic.{◌⊎◌, inl, inr}
use mathlib.Core.Option.{Option, none, some}
use mathlib.Core.Bool.{Bool, true, false}

pub data Result {ℓ κ} (E : Type ℓ) (A : Type κ) : Type (ℓ ⊔ κ) where
  ok : A → Result E A
  err : E → Result E A

infixl 5 ◌>>=◌ ◌>>◌
abbrev pub ◌>>=◌ {ℓ κ μ} :
    {E : Type ℓ} {A : Type κ} {B : Type μ} → Result E A → (A → Result E B) → Result E B
ok a >>= f = f a
err e >>= f = err e

abbrev pub ◌>>◌ {ℓ κ} : {E : Type ℓ} {B : Type κ} → Result E (Unit {0}) → Result E B → Result E B
m >> k = m >>= λ _. k

-- An early return with an error, when the test holds.
abbrev pub fail_if {ℓ} : {E : Type ℓ} → Bool → E → Result E (Unit {0})
fail_if true e = err e
fail_if false e = ok tt

-- `Option::ok_or`.
abbrev pub ok_or {ℓ κ} : {E : Type ℓ} {A : Type κ} → Option A → E → Result E A
ok_or (some a) e = ok a
ok_or none e = err e

-- What holds of the value, if there is one.
pub data Post {ℓ κ μ} {E : Type ℓ} {A : Type κ} (P : A → Type μ)
    : Result E A → Type (ℓ ⊔ κ ⊔ μ) where
  returns : {a : A} → P a → Post P (ok a)
  fails : {e : E} → Post P (err e)

module _ {ℓ κ} {E : Type ℓ} {A : Type κ} where
  pub Post-bind {μ ν ξ} :
      {B : Type μ} {P : A → Type ν} {Q : B → Type ξ} {m : Result E A} (f : A → Result E B)
      → Post P m
      → ((a : A) → P a → Post Q (f a))
      → Post Q (m >>= f)
  Post-bind f (returns {a = a} h) k = k a h
  Post-bind f fails k = fails

  pub Post-mono {ν ξ} :
      {P : A → Type ν} {Q : A → Type ξ} {m : Result E A}
      → Post P m
      → ((a : A) → P a → Q a)
      → Post Q m
  Post-mono (returns {a = a} h) k = returns (k a h)
  Post-mono fails k = fails

  -- A test that returns an error is false behind it.
  pub Post-fail_if {ν} :
      {Q : A → Type ν} (b : Bool) (e : E) (m : Result E A)
      → (b ≡ false → Post Q m)
      → Post Q (fail_if b e >> m)
  Post-fail_if true e m h = fails
  Post-fail_if false e m h = h refl

  pub Post_elim {ν} : {P : A → Type ν} {m : Result E A} {a : A} → Post P m → m ≡ ok a → P a
  Post_elim {P = P} (returns {a = b} h) e = subst P (cc) h
  Post_elim fails e = cc

  pub Post-any : (m : Result E A) → Post (λ _. Unit {0}) m
  Post-any (ok a) = returns tt
  Post-any (err e) = fails

  pub Result-cases : (m : Result E A) → ((a : A) × (m ≡ ok a)) ⊎ ((e : E) × (m ≡ err e))
  Result-cases (ok a) = inl (a, refl)
  Result-cases (err e) = inr (e, refl)

  -- What a computation returns is what it returns.
  pub Post-self : (m : Result E A) → Post (λ a. m ≡ ok a) m
  Post-self (ok a) = returns refl
  Post-self (err e) = fails
