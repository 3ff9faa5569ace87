-- ===== src/Base/Checked.antt =====
-- Calls that return or panic.
use mathlib.Core.Path.{◌≡◌, refl, ap, ◌∙◌}
use mathlib.Core.Bool.{Bool, true, false}
use rtsys.Base.Calls.{Outcome, done, panic, ◌>>=◌, assert}
use rtsys.Base.Tests.{if◌then◌else◌}

-- A call returns, or an assertion fails; it never leaves its objects, nor runs out of rounds.
pub data Checked {A : Type 0} (m : Outcome A) : Type 0 where
  refuses : m ≡ panic → Checked m
  returns : (a : A) → m ≡ done a → Checked m

pub Checked-bind :
    {A B : Type 0} (m : Outcome A) (f : A → Outcome B)
    → Checked m
    → ((a : A) → m ≡ done a → Checked (f a))
    → Checked (m >>= f)
Checked-bind m f (refuses e) h = refuses (ap (λ o. o >>= f) e)
Checked-bind m f (returns a e) h = elim (h a e) [
  | refuses e' ↦ refuses (ap (λ o. o >>= f) e ∙ e')
  | returns b e' ↦ returns b (ap (λ o. o >>= f) e ∙ e')
]

pub Checked-assert : (b : Bool) → Checked (assert b)
Checked-assert true = returns tt refl
Checked-assert false = refuses refl

pub Checked-if :
    {A : Type 0} (b : Bool) (x y : Outcome A)
    → (b ≡ true → Checked x)
    → (b ≡ false → Checked y)
    → Checked (if b then x else y)
Checked-if true x y h k = h refl
Checked-if false x y h k = k refl

-- A call panics, or returns something with a property.
pub data Yields {A : Type 0} (P : A → Type 0) (m : Outcome A) : Type 0 where
  fails : m ≡ panic → Yields P m
  yields : (a : A) → m ≡ done a → P a → Yields P m

pub Yields-bind :
    {A B : Type 0} (P : A → Type 0) (Q : B → Type 0) (m : Outcome A) (f : A → Outcome B)
    → Yields P m
    → ((a : A) → P a → Yields Q (f a))
    → Yields Q (m >>= f)
Yields-bind P Q m f (fails e) h = fails (ap (λ o. o >>= f) e)
Yields-bind P Q m f (yields a e p) h = elim (h a p) [
  | fails e' ↦ fails (ap (λ o. o >>= f) e ∙ e')
  | yields b e' q ↦ yields b (ap (λ o. o >>= f) e ∙ e') q
]

pub Yields-assert : (b : Bool) → Yields (λ u. Unit {0}) (assert b)
Yields-assert true = yields tt refl tt
Yields-assert false = fails refl

pub Yields-Checked : {A : Type 0} (P : A → Type 0) {m : Outcome A} → Yields P m → Checked m
Yields-Checked P (fails e) = refuses e
Yields-Checked P (yields a e p) = returns a e
