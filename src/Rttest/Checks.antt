-- ===== src/Rttest/Checks.antt =====
-- Test cases and groups as the macros of src/rttest/include/rttest_priv.h write them. A condition can
-- change the world.
pub mod Chain
mod Tests
use rtsys.Base.{
  ℕ, ◌≡◌, refl, ap, sym, ◌∙◌, Bool, true, false, some, List, [], ◌∷◌, ◌++◌, if◌then◌else◌, ℤ, pos,
  negsuc, Outcome, done, ◌>>=◌,
}
use mathlib.Core.List.{append-nil}
use rtsys.Rttest.{TestCase, Group, register_group}

-- Whether a condition holds, and what its evaluation leaves.
abbrev pub Condition : Type 0 → Type 0
Condition W = W → Bool × W

-- The checks of a test case.
pub data Check (W : Type 0) : Type 0 where
  expects : Condition W → Check W
  asserts : Condition W → Check W

module _ {W : Type 0} where
  -- `RTTPRIV_EXPECT` and `RTTPRIV_ASSERT`, in front of the rest of the function
  unfoldable pub expect : Condition W → TestCase W → TestCase W
  expect cond rest w =
      let (holds, w') = cond w in let later = rest w' in if holds then later else (pos 1, w')

  unfoldable pub assert_cond : Condition W → TestCase W → TestCase W
  assert_cond cond rest w =
      let (holds, w') = cond w in let later = rest w' in if holds then later else (negsuc 0, w')

  -- `RTTPRIV_TEST_END`
  unfoldable pub test_end : TestCase W
  test_end w = (pos 0, w)

  -- The body of a test case that consists of checks.
  unfoldable pub test_body : List (Check W) → TestCase W
  unfolding expect assert_cond test_end
  test_body [] = test_end
  test_body (expects cond ∷ checks) = expect cond (test_body checks)
  test_body (asserts cond ∷ checks) = assert_cond cond (test_body checks)

  abbrev pub condition : Check W → Condition W
  condition (expects cond) = cond
  condition (asserts cond) = cond

  -- The result of a test case that a check ends.
  abbrev pub refusal : Check W → ℤ
  refusal (expects cond) = pos 1
  refusal (asserts cond) = negsuc 0

  -- The checks hold, from a world to a world.
  pub data Hold : W → List (Check W) → W → Type 0 where
    none_left : {w : W} → Hold w [] w
    holds :
        {w w' w'' : W} {checks : List (Check W)} (check : Check W)
        → condition check w ≡ (true, w')
        → Hold w' checks w''
        → Hold w (check ∷ checks) w''

  test_body-Hold :
      {checks : List (Check W)} {w w' : W} (rest : List (Check W))
      → Hold w checks w'
      → test_body (checks ++ rest) w ≡ test_body rest w'
  unfolding test_body
  test_body-Hold rest none_left = refl
  test_body-Hold rest (holds (expects cond) e h) = simp e (test_body-Hold rest h)
  test_body-Hold rest (holds (asserts cond) e h) = simp e (test_body-Hold rest h)

  test_body-refused :
      (check : Check W) (rest : List (Check W)) (w w' : W)
      → condition check w ≡ (false, w')
      → test_body (check ∷ rest) w ≡ (refusal check, w')
  unfolding test_body
  test_body-refused (expects cond) rest w w' e = rw e
  test_body-refused (asserts cond) rest w w' e = rw e

  -- A test case of checks that all hold returns 0. Where a check behind them does not hold, the
  -- test case returns 1 for an EXPECT and -1 for an ASSERT, and the checks behind that one are
  -- not evaluated.
  pub test_body-first :
      {checks : List (Check W)} {w w' w'' : W} (check : Check W) (rest : List (Check W))
      → Hold w checks w'
      → condition check w' ≡ (false, w'')
      → (test_body checks w ≡ (pos 0, w'))
        × (test_body (checks ++ (check ∷ rest)) w ≡ (refusal check, w''))
  unfolding test_body
  test_body-first {checks} {w} {w'} {w''} check rest h e = (
    ap (λ cs. test_body cs w) (sym (append-nil checks)) ∙ test_body-Hold [] h,
    test_body-Hold (check ∷ rest) h ∙ test_body-refused check rest w' w'' e,
  )
