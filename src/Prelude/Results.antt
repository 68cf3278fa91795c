-- ===== src/Prelude/Results.antt =====
-- Results of code that throws: a value, or the exception that ended the call.
use mathlib.Core.Path.{◌≡◌, refl, subst}
use mathlib.Core.Logic.{◌⊎◌, inl, inr}
use mathlib.Core.Bool.{Bool, true, false}
use mathlib.Core.Option.{Option, none, some}

pub data Result {ℓ} (E : Type 0) (A : Type ℓ) : Type ℓ where
  ok : A → Result E A
  err : E → Result E A

infixl 5 ◌>>=◌ ◌>>◌
abbrev pub ◌>>=◌ {ℓ κ} :
    {E : Type 0} {A : Type ℓ} {B : Type κ} → Result E A → (A → Result E B) → Result E B
ok a >>= f = f a
err e >>= f = err e

abbrev pub ◌>>◌ {ℓ} : {E : Type 0} {B : Type ℓ} → Result E (Unit {0}) → Result E B → Result E B
m >> k = m >>= λ _. k

-- `if (b) throw e;`
abbrev pub throw_if : {E : Type 0} → Bool → E → Result E (Unit {0})
throw_if true e = err e
throw_if false e = ok tt

-- A null pointer or a missing entry that the code answers by throwing.
abbrev pub or_throw {ℓ} : {E : Type 0} {A : Type ℓ} → Option A → E → Result E A
or_throw none e = err e
or_throw (some a) e = ok a

module _ {ℓ} {E : Type 0} {A : Type ℓ} where
  pub Result-cases : (r : Result E A) → ((a : A) × (r ≡ ok a)) ⊎ ((e : E) × (r ≡ err e))
  Result-cases (ok a) = inl (a, refl)
  Result-cases (err e) = inr (e, refl)

  pub ok-injective : (a b : A) → ◌≡◌ {A = Result E A} (ok a) (ok b) → a ≡ b
  ok-injective a b h = cc

  pub ok-ne-err : (a : A) (e : E) → ◌≡◌ {A = Result E A} (ok a) (err e) → ⊥
  ok-ne-err a e h = cc

-- What holds of the value of a call that returns.
abbrev pub OnSuccess {ℓ κ} : {E : Type 0} {A : Type ℓ} → (A → Type κ) → Result E A → Type κ
OnSuccess P (ok a) = P a
OnSuccess P (err e) = Unit

pub OnSuccess->>= {ℓ κ ℓ' κ'} :
    {E : Type 0} {A : Type ℓ} {B : Type κ} (P : A → Type ℓ') (Q : B → Type κ') (m : Result E A)
    (f : A → Result E B)
    → OnSuccess P m
    → ((a : A) → P a → OnSuccess Q (f a))
    → OnSuccess Q (m >>= f)
OnSuccess->>= P Q (ok a) f h k = k a h
OnSuccess->>= P Q (err e) f h k = tt

pub OnSuccess-ok {ℓ κ} :
    {E : Type 0} {A : Type ℓ} (P : A → Type κ) (r : Result E A) (a : A)
    → r ≡ ok a
    → OnSuccess P r
    → P a
OnSuccess-ok P (ok b) a e h = subst P (ok-injective b a e) h
OnSuccess-ok P (err x) a e h = cc

pub OnSuccess-mono {ℓ κ ℓ'} :
    {E : Type 0} {A : Type ℓ} (P : A → Type κ) (Q : A → Type ℓ') (r : Result E A)
    → ((a : A) → P a → Q a)
    → OnSuccess P r
    → OnSuccess Q r
OnSuccess-mono P Q (ok a) k h = k a h
OnSuccess-mono P Q (err e) k h = tt
