-- ===== src/Base/Effects.antt =====
-- What a call of the C++ code can do: return, throw, or leave the language (an access outside an
-- object), or end the program (`terminated`: an exception leaves a destructor). `no_fuel` is the
-- model's own: a loop that runs on fuel used it up.
use mathlib.Core.Bool.{Bool, true, false}
use mathlib.Core.Logic.{◌⊎◌, inl, inr}
use mathlib.Core.Option.{Option, none, some}
use mathlib.Core.Path.{◌≡◌, refl}

-- `annotated` stands for `annotated_exception`, the others for exceptions of the standard library.
pub data Fault : Type 0 where
  out_of_range invalid_argument annotated undefined no_fuel terminated : Fault

pub data Outcome {ℓ} (A : Type ℓ) : Type ℓ where
  ok : A → Outcome A
  fault : Fault → Outcome A

infixl 5 ◌>>=◌ ◌>>◌
abbrev pub ◌>>=◌ {ℓ κ} : {A : Type ℓ} {B : Type κ} → Outcome A → (A → Outcome B) → Outcome B
ok a >>= f = f a
fault e >>= f = fault e

abbrev pub ◌>>◌ {ℓ} : {B : Type ℓ} → Outcome (Unit {0}) → Outcome B → Outcome B
m >> k = m >>= λ _. k

pub ok-injective {ℓ} : {A : Type ℓ} {a b : A} → ok a ≡ ok b → a ≡ b
ok-injective e = cc

pub Outcome-cases {ℓ} :
    {A : Type ℓ} (o : Outcome A) → ((a : A) × (o ≡ ok a)) ⊎ ((x : Fault) × (o ≡ fault x))
Outcome-cases (ok a) = inl (a, refl)
Outcome-cases (fault x) = inr (x, refl)

-- What a call returns, if it returns, is in `P`.
abbrev pub Returns {ℓ} : {A : Type ℓ} → (A → Type 0) → Outcome A → Type 0
Returns P (ok a) = P a
Returns P (fault x) = Unit {0}

pub Returns-bind {ℓ} :
    {A B : Type ℓ} (P : A → Type 0) (Q : B → Type 0) (o : Outcome A) (f : A → Outcome B)
    → Returns P o
    → ((a : A) → P a → Returns Q (f a))
    → Returns Q (o >>= f)
Returns-bind P Q (ok a) f h g = g a h
Returns-bind P Q (fault x) f h g = tt

pub Returns-any {ℓ} : {A : Type ℓ} (o : Outcome A) → Returns (λ a. Unit {0}) o
Returns-any (ok a) = tt
Returns-any (fault x) = tt

pub Returns-either {ℓ} :
    {A : Type ℓ} (P : A → Type 0) (b : Bool) (o o' : Outcome A)
    → Returns P o
    → Returns P o'
    → Returns P (elim b [ true ↦ o | false ↦ o' ])
Returns-either P true o o' p q = p
Returns-either P false o o' p q = q

pub Returns-maybe {ℓ} :
    {A B : Type ℓ} (P : A → Type 0) (o : Option B) (n : Outcome A) (f : B → Outcome A)
    → Returns P n
    → ((b : B) → o ≡ some b → Returns P (f b))
    → Returns P (elim o [ none ↦ n | some b ↦ f b ])
Returns-maybe P none n f h g = h
Returns-maybe P (some b) n f h g = g b refl

pub Returns-each {ℓ} :
    {A : Type ℓ} (P : A → Type 0) (o : Outcome A) → ((a : A) → o ≡ ok a → P a) → Returns P o
Returns-each P (ok a) h = h a refl
Returns-each P (fault x) h = tt

-- A call returns, with a result in `P`.
abbrev pub Yields {ℓ} : {A : Type ℓ} → (A → Type 0) → Outcome A → Type 0
Yields P (ok a) = P a
Yields P (fault x) = ⊥
