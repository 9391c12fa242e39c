-- ===== src/Base/Outcome.antt =====
-- The outcomes of a Go function: a value, an error, or a panic.
use mathlib.Core.Path.{◌≡◌, refl, ap, subst, ◌∙◌}

pub data Outcome {ℓ κ} (E : Type κ) (A : Type ℓ) : Type (ℓ ⊔ κ) where
  ok : A → Outcome E A
  err : E → Outcome E A
  panics : Outcome E A

infixl 5 ◌>>=◌
abbrev pub ◌>>=◌ {ℓ κ μ} :
    {E : Type κ} {A : Type ℓ} {B : Type μ} → Outcome E A → (A → Outcome E B) → Outcome E B
ok a >>= f = f a
err e >>= f = err e
panics >>= f = panics

-- A step that gives `a` goes on with `a`.
pub then_ok {ℓ κ μ} :
    {E : Type κ} {A : Type ℓ} {B : Type μ} {o : Outcome E A} {a : A} {r : Outcome E B}
    (f : A → Outcome E B)
    → o ≡ ok a
    → f a ≡ r
    → o >>= f ≡ r
then_ok f e rest = ap (λ o. o >>= f) e ∙ rest

-- A chain that gives a value has one after its first step.
pub ok_steps {ℓ κ μ} :
    {E : Type κ} {A : Type ℓ} {B : Type μ} (o : Outcome E A) (f : A → Outcome E B) (b : B)
    → o >>= f ≡ ok b
    → (a : A) × (o ≡ ok a) × (f a ≡ ok b)
ok_steps (ok a) f b e = (a, refl, e)
ok_steps (err x) f b e = absurd (cc e)
ok_steps panics f b e = absurd (cc e)

-- What holds of a value holds of the same value.
pub from_ok {ℓ κ μ} :
    {E : Type κ} {A : Type ℓ} (P : A → Type μ) {x y : A}
    → ◌≡◌ {A = Outcome E A} (ok x) (ok y)
    → P x
    → P y
from_ok P {x} {y} e h = let same : x ≡ y = cc e in subst P same h
