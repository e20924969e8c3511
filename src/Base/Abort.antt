-- ===== src/Base/Abort.antt =====
-- What a piece of code that may stop the machine returns. `assert`, `abort`, `__builtin_trap` and
-- an access outside of an object all end in `abort`: nothing that follows is run.
use mathlib.Core.Path.{◌≡◌, refl}
use mathlib.Core.Logic.{◌⊎◌, inl, inr}
use mathlib.Core.Bool.{Bool, true, false}
use mathlib.Core.Option.{Option, none, some}

pub data Outcome {ℓ} (A : Type ℓ) : Type ℓ where
  ok : A → Outcome A
  abort : Outcome A

infixl 5 ◌>>=◌ ◌>>◌
abbrev pub ◌>>=◌ {ℓ κ} : {A : Type ℓ} {B : Type κ} → Outcome A → (A → Outcome B) → Outcome B
ok a >>= f = f a
abort >>= f = abort

abbrev pub ◌>>◌ {ℓ} : {B : Type ℓ} → Outcome (Unit {0}) → Outcome B → Outcome B
m >> k = m >>= λ _. k

abbrev pub assert : Bool → Outcome (Unit {0})
assert true = ok tt
assert false = abort

-- The value that a call returns satisfies `P`; in particular the call returns.
abbrev pub Returns {ℓ} : {A : Type ℓ} → (A → Type 0) → Outcome A → Type 0
Returns P (ok a) = P a
Returns P abort = ⊥

pub Outcome-cases {ℓ} : {A : Type ℓ} (o : Outcome A) → (o ≡ abort) ⊎ ((a : A) × (o ≡ ok a))
Outcome-cases (ok a) = inr (a, refl)
Outcome-cases abort = inl refl

pub Returns-mono {ℓ} :
    {A : Type ℓ} (P Q : A → Type 0) (o : Outcome A)
    → Returns P o
    → ((a : A) → P a → Q a)
    → Returns Q o
Returns-mono P Q (ok a) p weaken = weaken a p
Returns-mono P Q abort p weaken = p

-- A call that returns, followed by what uses its value.
pub Returns-bind {ℓ κ} :
    {A : Type ℓ} {B : Type κ} (P : A → Type 0) (Q : B → Type 0) (o : Outcome A) (k : A → Outcome B)
    → Returns P o
    → ((a : A) → P a → Returns Q (k a))
    → Returns Q (o >>= k)
Returns-bind P Q (ok a) k p next = next a p
Returns-bind P Q abort k p next = absurd p

abbrev pub or_abort {ℓ} : {A : Type ℓ} → Option A → Outcome A
or_abort none = abort
or_abort (some a) = ok a

abbrev pub is_some {ℓ} : {A : Type ℓ} → Option A → Bool
is_some none = false
is_some (some a) = true

-- An assertion that holds, followed by the rest.
pub Returns-assert {ℓ} :
    {B : Type ℓ} (Q : B → Type 0) (b : Bool) (m : Outcome B)
    → b ≡ true
    → Returns Q m
    → Returns Q (assert b >> m)
Returns-assert Q true m e h = h
Returns-assert Q false m e h = absurd (cc e)

-- The value that a call returns.
pub Returns-value {ℓ} :
    {A : Type ℓ} (P : A → Type 0) (o : Outcome A) → Returns P o → (a : A) × (o ≡ ok a) × P a
Returns-value P (ok a) p = (a, refl, p)
Returns-value P abort p = absurd p
