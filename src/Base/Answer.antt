-- ===== src/Base/Answer.antt =====
-- What a service answers: a value, or the error that it throws. A service checks first and then calls a
-- repository once.
use mathlib.Core.Path.{◌≡◌, refl}
use mathlib.Core.Bool.{Bool, true, false}
use mathlib.Core.Option.{Option, none, some}

pub data Answer {ℓ κ} (E : Type ℓ) (A : Type κ) : Type (ℓ ⊔ κ) where
  ok : A → Answer E A
  refused : E → Answer E A

infixl 5 ◌>>=◌ ◌>>◌
abbrev pub ◌>>=◌ {ℓ κ μ} :
    {E : Type ℓ} {A : Type κ} {B : Type μ} → Answer E A → (A → Answer E B) → Answer E B
ok a >>= f = f a
refused e >>= f = refused e

abbrev pub ◌>>◌ {ℓ κ μ} :
    {E : Type ℓ} {A : Type κ} {B : Type μ} → Answer E A → Answer E B → Answer E B
m >> k = m >>= λ _. k

abbrev pub Done : Type 0
Done = Unit

abbrev pub refuse_if {ℓ} : {E : Type ℓ} → Bool → E → Answer E Done
refuse_if true e = refused e
refuse_if false e = ok tt

abbrev pub error_of {ℓ κ} : {E : Type ℓ} {A : Type κ} → Answer E A → Option E
error_of (ok a) = none
error_of (refused e) = some e

-- The repository is called after the checks have passed.
unfoldable pub then_call {ℓ κ μ ν} :
    {E : Type ℓ} {S : Type κ} {A : Type μ} {B : Type ν}
    → Answer E A
    → (A → Answer E B × S)
    → S
    → Answer E B × S
then_call (ok a) call s = call a
then_call (refused e) call s = (refused e, s)

-- Where the call writes nothing when it fails, neither do the checks and the call together.
pub then_call-refused {ℓ κ μ ν} :
    {E : Type ℓ} {S : Type κ} {A : Type μ} {B : Type ν} {e : E} (a : Answer E A)
    (call : A → Answer E B × S) (s : S)
    → ((x : A) → error_of (call x).0 ≡ some e → (call x).1 ≡ s)
    → error_of (then_call a call s).0 ≡ some e
    → (then_call a call s).1 ≡ s
unfolding then_call
then_call-refused (ok a) call s keep h = keep a h
then_call-refused (refused c) call s keep h = refl
