-- ===== src/Rttest/Logged.antt =====
-- Test groups on the user's own data, run with an output that stores every octet; and what such
-- groups come to.
use rtsys.Base.{
  ℕ, suc, ◌<◌, ◌^◌, ◌≡◌, length, Bool, true, not, Option, none, some, List, [], ◌∷◌, ◌++◌,
  if◌then◌else◌, is_zero, is_negative,
}
use rtsys.Rttest.{Action, TestCase, Group, WriteOctet}

pub record Logged (U : Type 0) : Type 0 where
  pub user : U
  pub octets : List ℕ

abbrev pub count_failed : List Bool → ℕ
count_failed [] = 0
count_failed (failed ∷ rest) = if failed then suc (count_failed rest) else count_failed rest

module _ {U : Type 0} where
  unfoldable pub log_octet : WriteOctet (Logged U)
  log_octet octet w = (true, record w { octets = w.octets ++ (octet ∷ []) })

  -- A function on the user's data leaves the output alone.
  abbrev pub on_user : {A : Type 0} → (U → A × U) → Logged U → A × Logged U
  on_user f w = ((f w.user).0, record w { user = (f w.user).1 })

  abbrev pub on_user_action : Option (Action U) → Option (Action (Logged U))
  on_user_action none = none
  on_user_action (some f) = some (on_user f)

  abbrev pub on_user_cases : List (TestCase U) → List (TestCase (Logged U))
  on_user_cases [] = []
  on_user_cases (test ∷ tests) = on_user test ∷ on_user_cases tests

  abbrev pub on_user_group : Group U → Group (Logged U)
  on_user_group g = record {
    id = g.id;
    entry_action = on_user_action g.entry_action;
    exit_action = on_user_action g.exit_action;
    test_cases = on_user_cases g.test_cases;
  }

  abbrev pub all_failed : List (TestCase U) → List Bool
  all_failed [] = []
  all_failed (test ∷ tests) = true ∷ all_failed tests

  -- Which test cases fail: a negative result ends the run, and the test cases behind it fail too.
  unfoldable pub failures : List (TestCase U) → U → List Bool × U
  failures [] u = ([], u)
  failures (test ∷ tests) u =
      let (result, u') = test u in
      let (later, u'') = failures tests u' in
      if is_negative result
      then (true ∷ all_failed tests, u')
      else (not (is_zero result) ∷ later, u'')

  abbrev pub on_user_groups : List (Group U) → List (Group (Logged U))
  on_user_groups [] = []
  on_user_groups (g ∷ gs) = on_user_group g ∷ on_user_groups gs

  -- An action on the user's data alone: whether it succeeds, and what it leaves.
  abbrev pub perform : Option (Action U) → U → Bool × U
  perform none u = (true, u)
  perform (some f) u = f u

  -- A group: which test cases fail, and the data that the exit action leaves.
  abbrev pub outcome : Group U → U → List Bool × U
  outcome g u =
      let (results, u') = failures g.test_cases (perform g.entry_action u).1 in
      (results, (perform g.exit_action u').1)

  -- Each group's id and results, for groups that run in turn.
  abbrev pub sections : List (Group U) → U → List (ℕ × List Bool)
  sections [] u = []
  sections (g ∷ gs) u = (g.id, (outcome g u).0) ∷ sections gs (outcome g u).1

  abbrev pub users_after : List (Group U) → U → U
  users_after [] u = u
  users_after (g ∷ gs) u = users_after gs (outcome g u).1

  -- The number of failures in the last of the groups, or `n` if there is none.
  abbrev pub last_count : ℕ → List (Group U) → U → ℕ
  last_count n [] u = n
  last_count n (g ∷ gs) u = last_count (count_failed (outcome g u).0) gs (outcome g u).1

  -- A group whose id is a 32-bit word, with a number of test cases that an `int32_t` can count, and
  -- whose actions succeed.
  pub record Runs (g : Group U) (u : U) : Type 0 where
    pub id_word : g.id < 2 ^ 32
    pub some_cases : 0 < length g.test_cases
    pub countable : length g.test_cases < 2 ^ 31
    pub enters : (perform g.entry_action u).0 ≡ true
    pub exits :
        (perform g.exit_action (failures g.test_cases (perform g.entry_action u).1).1).0 ≡ true

  abbrev pub AllRun : List (Group U) → U → Type 0
  AllRun [] u = Unit
  AllRun (g ∷ gs) u = Runs g u × AllRun gs (outcome g u).1
