-- ===== src/Rthsm/Setup/Decides.antt =====
-- Calls whose assertions decide a property of what they are given.
use rtsys.Base.{
  ℕ, ◌≡◌, ◌≢◌, refl, ap, ◌∙◌, inl, inr, not, Outcome, done, panic, ◌>>=◌, assert, if◌then◌else◌,
  ◌==◌, eq-cases, ==_refl, ne→==_false,
}

-- The call returns the value if the property holds, and panics if it does not.
pub data Decides {A : Type 0} (C : Type 0) (m : Outcome A) (a : A) : Type 0 where
  accepts : C → m ≡ done a → Decides C m a
  rejects : ¬ C → m ≡ panic → Decides C m a

pub Decides-map :
    {A : Type 0} {C D : Type 0} {m : Outcome A} {a : A}
    → (C → D)
    → (D → C)
    → Decides C m a
    → Decides D m a
Decides-map f g (accepts c e) = accepts (f c) e
Decides-map f g (rejects n e) = rejects (λ d. n (g d)) e

pub Decides-bind :
    {A B : Type 0} {C D : Type 0} (m : Outcome A) (f : A → Outcome B) (a : A) (b : B)
    → Decides C m a
    → (C → Decides D (f a) b)
    → Decides (C × D) (m >>= f) b
Decides-bind m f a b (rejects n e) h = rejects (λ cd. n (cd.0)) (ap (λ o. o >>= f) e)
Decides-bind m f a b (accepts c e) h = elim (h c) [
  | accepts d e' ↦ accepts (c, d) (ap (λ o. o >>= f) e ∙ e')
  | rejects n e' ↦ rejects (λ cd. n (cd.1)) (ap (λ o. o >>= f) e ∙ e')
]

-- The last call of a block, whose value is wrapped.
pub Decides-done :
    {A B : Type 0} {C : Type 0} (m : Outcome A) (f : A → B) (a : A)
    → Decides C m a
    → Decides C (m >>= λ x. done (f x)) (f a)
Decides-done m f a (rejects n e) = rejects n (ap (λ o. o >>= λ x. done (f x)) e)
Decides-done m f a (accepts c e) = accepts c (ap (λ o. o >>= λ x. done (f x)) e)

pub Decides-return : {A : Type 0} (a : A) → Decides (Unit {0}) (done a) a
Decides-return a = accepts tt refl

pub Decides-eq : (a b : ℕ) → Decides (a ≡ b) (assert (a == b)) tt
Decides-eq a b = elim (eq-cases a b) [
  | inl e ↦ accepts e (rw (e, ==_refl b))
  | inr n ↦ rejects n (rw (ne→==_false a b n))
]

pub Decides-ne : (a b : ℕ) → Decides (a ≢ b) (assert (not (a == b))) tt
Decides-ne a b = elim (eq-cases a b) [
  | inl e ↦ rejects (λ n. n e) (rw (e, ==_refl b))
  | inr n ↦ accepts n (rw (ne→==_false a b n))
]

-- A guard decides nothing where it skips the call.
pub Decides-unless :
    {C : Type 0} (a b : ℕ) (m : Outcome (Unit {0}))
    → (a ≢ b → Decides C m tt)
    → Decides (a ≢ b → C) (if a == b then done tt else m) tt
Decides-unless a b m h = elim (eq-cases a b) [
  | inl e ↦ accepts (λ n. absurd (n e)) (simp (e, ==_refl b) refl)
  | inr n ↦ elim (h n) [
    | accepts c e' ↦ accepts (λ n'. c) (simp (ne→==_false a b n) e')
    | rejects c e' ↦ rejects (λ f. c (f n)) (simp (ne→==_false a b n) e')
  ]
]
