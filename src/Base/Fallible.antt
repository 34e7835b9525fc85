-- ===== src/Base/Fallible.antt =====
-- The result of a function that returns a value and an error: the value, or the text of the error.
use mathlib.Core.Path.{◌≡◌, ap, refl}
use mathlib.Core.Logic.{◌⊎◌, inl, inr}
use mathlib.Core.Bool.{Bool, true, false}
use native.Mathlib.Omega.{arith}
use aquila.Base.Tests.{if◌then◌else◌}
use aquila.Base.Text.{Str}

pub data Outcome (A : Type 0) : Type 0 where
  yields : A → Outcome A
  fails : Str → Outcome A

infixl 30 ◌>>=◌
abbrev pub ◌>>=◌ : {A B : Type 0} → Outcome A → (A → Outcome B) → Outcome B
yields a >>= f = f a
fails e >>= f = fails e

pub Outcome-cases :
    {A : Type 0} (o : Outcome A) → ((a : A) × (o ≡ yields a)) ⊎ ((e : Str) × (o ≡ fails e))
Outcome-cases (yields a) = inl (a, refl)
Outcome-cases (fails e) = inr (e, refl)

value_or : {A : Type 0} → A → Outcome A → A
value_or d (yields a) = a
value_or d (fails e) = d

pub yields-injective : {A : Type 0} (a b : A) → yields a ≡ yields b → a ≡ b
unfolding value_or
yields-injective a b h = ap (value_or a) h

-- The same with errors of a type of their own.
pub data Checked (E : Type 0) (A : Type 0) : Type 0 where
  accepted : A → Checked E A
  refused : E → Checked E A

pub Checked-cases :
    {E A : Type 0} (o : Checked E A) → ((a : A) × (o ≡ accepted a)) ⊎ ((e : E) × (o ≡ refused e))
Checked-cases (accepted a) = inl (a, refl)
Checked-cases (refused e) = inr (e, refl)

accepted_or : {E A : Type 0} → A → Checked E A → A
accepted_or d (accepted a) = a
accepted_or d (refused e) = d

pub accepted-injective :
    {E A : Type 0} (a b : A) → Path (Checked E A) (accepted a) (accepted b) → a ≡ b
unfolding accepted_or
accepted-injective a b h = ap (accepted_or a) h

-- A guard that refuses was passed where the whole accepts.
pub guard-accepted :
    {E A : Type 0} (b : Bool) (e : E) (r : Checked E A) (a : A)
    → (if b then refused e else r) ≡ accepted a
    → (b ≡ false) × (r ≡ accepted a)
guard-accepted true e r a h = absurd (ground arith)
guard-accepted false e r a h = (refl, h)
