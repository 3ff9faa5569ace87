-- ===== src/Rttest/Lost/Calls.antt =====
-- Properties of the world that hold unless `RTTestRun` has an error code to return.
use rtsys.Base.{
  ℕ, ◌<◌, ◌^◌, ◌≡◌, refl, ap, ◌∙◌, Bool, true, false, ◌&&◌, Option, none, some, List, [], ◌∷◌,
  if◌then◌else◌, ℤ, pos, negsuc, is_negative, Outcome, done, ◌>>=◌, length,
}
use rtsys.Rttest.{WriteOctet, Action, TestCase, Group, run_action}

module _ {W : Type 0} (P : W → Type 0) where
  abbrev pub CasesKeep : List (TestCase W) → Type 0
  CasesKeep [] = Unit
  CasesKeep (test ∷ tests) = ((w : W) → P w → P (test w).1) × CasesKeep tests

  abbrev pub ActionKeeps : Option (Action W) → Type 0
  ActionKeeps none = Unit
  ActionKeeps (some f) = (w : W) → P w → P (f w).1

  -- A group with a number of test cases that an `int32_t` can count, whose functions keep the property.
  pub record GroupKeeps (g : Group W) : Type 0 where
    pub some_cases : 0 < length g.test_cases
    pub countable : length g.test_cases < 2 ^ 31
    pub entry : ActionKeeps g.entry_action
    pub exit : ActionKeeps g.exit_action
    pub cases : CasesKeep g.test_cases

  abbrev pub GroupsKeep : List (Group W) → Type 0
  GroupsKeep [] = Unit
  GroupsKeep (g ∷ gs) = GroupKeeps g × GroupsKeep gs

  -- An octet that is written keeps the property; one that is not may break it.
  abbrev pub WritesKeep : WriteOctet W → Type 0
  WritesKeep write = (octet : ℕ) (w : W) → (write octet w).0 ≡ true → P w → P (write octet w).1

  -- The property holds, unless there is an error code.
  unfoldable pub Safe : ℤ × W → Type 0
  Safe r = is_negative r.0 ≡ false → P r.1

  -- A call that returns so.
  unfoldable pub Whole : Outcome (ℤ × W) → Type 0
  Whole m = (r : ℤ × W) × (m ≡ done r) × Safe r

  pub Whole-bind :
      {A : Type 0} (m : Outcome A) (f : A → Outcome (ℤ × W)) {a : A}
      → m ≡ done a
      → Whole (f a)
      → Whole (m >>= f)
  unfolding Whole
  Whole-bind m f e (r, k, s) = (r, ap (λ o. o >>= f) e ∙ k, s)

  pub Whole-then :
      (m : Outcome (ℤ × W)) (f : ℤ × W → Outcome (ℤ × W))
      → Whole m
      → ((r : ℤ × W) → Safe r → Whole (f r))
      → Whole (m >>= f)
  unfolding Whole
  Whole-then m f (r, e, s) h = let (r', e', s') = h r s in (r', ap (λ o. o >>= f) e ∙ e', s')

  pub Whole-if :
      (b : Bool) (x y : Outcome (ℤ × W))
      → (b ≡ true → Whole x)
      → (b ≡ false → Whole y)
      → Whole (if b then x else y)
  Whole-if true x y h k = h refl
  Whole-if false x y h k = k refl

  -- One more octet.
  pub Safe-write :
      (b : Bool) (ret : ℤ) (w : W)
      → (b ≡ true → is_negative ret ≡ false → P w)
      → Safe (if b then ret else negsuc 0, w)
  unfolding Safe
  Safe-write true ret w h e = h refl e
  Safe-write false ret w h e = absurd (cc)

  pub Safe-intro : (ret : ℤ) (w : W) → P w → Safe (ret, w)
  unfolding Safe
  Safe-intro ret w h e = h

  pub Safe-error : (n : ℕ) (w : W) → Safe (negsuc n, w)
  unfolding Safe
  Safe-error n w e = absurd (cc)

  pub Safe-both :
      (b c : Bool) (w : W)
      → (b ≡ true → c ≡ true → P w)
      → Safe (if b && c then pos 0 else negsuc 0, w)
  unfolding Safe
  Safe-both true true w h e = h refl refl
  Safe-both true false w h e = absurd (cc)
  Safe-both false c w h e = absurd (cc)

  pub Safe-world : (r : ℤ × W) → Safe r → is_negative r.0 ≡ false → P r.1
  unfolding Safe
  Safe-world r s e = s e

  pub Whole-done : (r : ℤ × W) → Safe r → Whole (done r)
  unfolding Whole
  Whole-done r s = (r, refl, s)

  pub run_action-Safe :
      (action : Option (Action W)) (code : ℕ) (ret : ℤ) (w : W)
      → ActionKeeps action
      → Safe (ret, w)
      → Safe (run_action action (negsuc code) ret w)
  unfolding run_action Safe
  run_action-Safe action code (negsuc n) w k s e = absurd (cc)
  run_action-Safe none code (pos n) w k s e = s refl
  run_action-Safe (some f) code (pos n) w k s e = k w (s refl)
