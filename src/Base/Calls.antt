-- ===== src/Base/Calls.antt =====
-- How a call of a C function ends. `RTASSERT` calls `RTPanic()`, which does not return
-- (src/rtplf/x64-linux/include/rtplf.h).
use mathlib.Core.Path.{◌≡◌, refl}
use mathlib.Core.Bool.{Bool, true, false}
use mathlib.Core.Option.{Option, none, some}

-- `fault` is behaviour that C leaves undefined (a read through NULL, an access outside an object, a
-- signed overflow); `timeout` is a loop that used up the rounds which the model gives it.
pub data Outcome {ℓ} (A : Type ℓ) : Type ℓ where
  done : A → Outcome A
  panic : Outcome A
  fault : Outcome A
  timeout : Outcome A

infixl 5 ◌>>=◌ ◌>>◌
abbrev pub ◌>>=◌ {ℓ κ} : {A : Type ℓ} {B : Type κ} → Outcome A → (A → Outcome B) → Outcome B
done a >>= f = f a
panic >>= f = panic
fault >>= f = fault
timeout >>= f = timeout

abbrev pub ◌>>◌ {ℓ} : {B : Type ℓ} → Outcome (Unit {0}) → Outcome B → Outcome B
m >> k = m >>= λ _. k

-- `RTASSERT(_cond)`
abbrev pub assert : Bool → Outcome (Unit {0})
assert true = done tt
assert false = panic

-- `RTASSERT(p != NULL)` for a pointer argument, followed by the use of what it points to
abbrev pub non_null {ℓ} : {A : Type ℓ} → Option A → Outcome A
non_null none = panic
non_null (some a) = done a

-- Inversion of a successful bind.
pub >>=-eq-done {ℓ κ} :
    {A : Type ℓ} {B : Type κ} (m : Outcome A) (f : A → Outcome B) {b : B}
    → (m >>= f) ≡ done b
    → (a : A) × (m ≡ done a) × (f a ≡ done b)
>>=-eq-done (done a) f h = (a, refl, h)
>>=-eq-done panic f h = absurd (cc)
>>=-eq-done fault f h = absurd (cc)
>>=-eq-done timeout f h = absurd (cc)

pub assert-eq-done : (b : Bool) → assert b ≡ done tt → b ≡ true
assert-eq-done true h = refl
assert-eq-done false h = absurd (cc)

pub done-injective {ℓ} : {A : Type ℓ} {a b : A} → done a ≡ done b → a ≡ b
done-injective h = cc

pub some_cancel {ℓ} : {A : Type ℓ} {a b : A} → some a ≡ some b → a ≡ b
some_cancel h = cc
