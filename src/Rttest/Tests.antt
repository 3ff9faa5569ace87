-- ===== src/Rttest/Tests.antt =====
-- Groups of test cases on a counter.
use rtsys.Base.{
  ℕ, ◌+◌, ◌≡◌, refl, true, false, none, some, List, [], ◌∷◌, ◌++◌, arith, pos, negsuc, done, Bool,
  ltb, is_negative, ℤ,
}
use rtsys.Rttest.{id_octets, WriteOctet, TestCase, Group, register_group, run, run_test_cases}
use rtsys.Base.Checked.{Checked}
use rtsys.Rttest.GroupMap.{MapCase, MapGroup}
use rtsys.Rttest.Parser.{parse}
use rtsys.Rttest.Parser.Ends.{parse-Checked}
use rtsys.Rttest.Pack.{pack}
use rtsys.Rttest.Logged.{log_octet, on_user_group, on_user_groups, failures}
use rtsys.Rttest.Cases.{run_test_cases-pack}
use rtsys.Rttest.Stops.{exit_fails, run-Stops}
use rtsys.Rttest.Lost.Calls.{WritesKeep}
use rtsys.Rttest.Lost.{run-keeps}
use rtsys.Rttest.Register.{register_group-eq, uses_id}

abbrev passes : TestCase ℕ
passes u = (pos 0, u + 1)

abbrev fails : TestCase ℕ
fails u = (pos 1, u)

abbrev gives_up : TestCase ℕ
gives_up u = (negsuc 0, u)

abbrev group_of : ℕ → List (TestCase ℕ) → Group ℕ
group_of id tests = record {
  id = id;
  entry_action = some (λ u. (true, u + 10));
  exit_action = none;
  test_cases = tests;
}

-- The first group has two failures, the last one none.
abbrev pub first_group : Group ℕ
first_group = group_of 7 (passes ∷ gives_up ∷ passes ∷ [])

abbrev pub last_group : Group ℕ
last_group = group_of 8 (passes ∷ [])

abbrev pub groups : List (Group ℕ)
groups = first_group ∷ last_group ∷ []

abbrev case_at : ℕ → MapCase
case_at line = record { name = 65 ∷ []; path = 112 ∷ []; line = line }

abbrev map_group : ℕ → List MapCase → MapGroup
map_group id cases = record {
  name = 71 ∷ [];
  gid = pos id;
  path = 112 ∷ [];
  line = 1;
  cases = cases;
}

abbrev rttmap : List MapGroup
rttmap = map_group 8 (case_at 20 ∷ []) ∷ map_group 7 (case_at 2 ∷ case_at 5 ∷ case_at 9 ∷ []) ∷ []

run_test_cases-pack_example :
    run_test_cases log_octet (on_user_group first_group) (record { user = 0; octets = [] })
    ≡ done (pos 2, record { user = 1; octets = 6 ∷ [] })
unfolding failures pack
run_test_cases-pack_example =
    run_test_cases-pack (on_user_group first_group) first_group.test_cases
      (record { user = 0; octets = [] }) refl (omega arith) (omega arith)

-- A file that ends within a group.
parse-Checked_example : Checked (parse 10 true rttmap (82 ∷ 84 ∷ 84 ∷ 97 ∷ 62 ∷ 0 ∷ 0 ∷ []))
parse-Checked_example =
    parse-Checked 10 true rttmap (82 ∷ 84 ∷ 84 ∷ 97 ∷ 62 ∷ 0 ∷ 0 ∷ []) (omega arith)

-- Two groups with the id 8, one behind the other.
register_group-eq_example :
    (register_group [] (some last_group) ≡ done (last_group ∷ []))
    × (register_group ((first_group ∷ []) ++ (last_group ∷ [])) (some last_group)
        ≡ done (first_group ∷ last_group ∷ last_group ∷ []))
unfolding uses_id
register_group-eq_example = register_group-eq (first_group ∷ []) last_group last_group

-- Groups that an action stops: the entry action, then the exit action.
abbrev no_entry : Group ℕ
no_entry = record first_group { entry_action = some (λ u. (false, u + 1)) }

abbrev no_exit : Group ℕ
no_exit = record first_group { exit_action = some (λ u. (false, u + 1)) }

run-Stops_example :
    run
      (on_user_groups (last_group ∷ no_exit ∷ first_group ∷ []))
      (some log_octet)
      none
      0
      (record { user = 0; octets = [] })
    ≡ done (
      negsuc 2,
      record {
        user = 23;
        octets = 82 ∷ 84 ∷ 84 ∷ 97 ∷ 62 ∷ 0 ∷ 0 ∷ 0 ∷ 8 ∷ 0 ∷ 60 ∷ 62 ∷ 0 ∷ 0 ∷ 0 ∷ 7 ∷ 6 ∷ [];
      },
    )
unfolding failures pack id_octets
run-Stops_example =
    run-Stops (last_group ∷ []) no_exit (first_group ∷ []) 0
      (
        record {
          id_word = omega arith;
          some_cases = omega arith;
          countable = omega arith;
          enters = refl;
          exits = refl;
        },
        tt,
      )
      (exit_fails refl (omega arith) (omega arith) refl)

-- An output for 40 octets, that counts them and marks the loss of one.
abbrev count_octet : Bool → ℕ × Bool → Bool × (ℕ × Bool)
count_octet true (n, lost) = (true, (n + 1, lost))
count_octet false (n, lost) = (false, (n, true))

abbrev counted : WriteOctet (ℕ × Bool)
counted octet w = count_octet (ltb w.0 40) w

counted-keeps : WritesKeep (λ (w : ℕ × Bool). w.1 ≡ false) counted
counted-keeps octet w e h = by_room (ltb w.0 40) e
  where
    by_room : (room : Bool) → (count_octet room w).0 ≡ true → (count_octet room w).1.1 ≡ false
    by_room true k = h
    by_room false k = absurd (cc)

-- A group on that world.
abbrev quiet_group : Group (ℕ × Bool)
quiet_group = record {
  id = 7;
  entry_action = none;
  exit_action = some (λ w. (true, w));
  test_cases = (λ w. (pos 0, w)) ∷ (λ w. (pos 1, w)) ∷ [];
}

run-keeps_example :
    (r : ℤ × (ℕ × Bool)) × (run (quiet_group ∷ []) (some counted) (some (7 ∷ [])) 1 (0, false)
      ≡ done r)
    × (is_negative r.0 ≡ false → r.1.1 ≡ false)
run-keeps_example =
    run-keeps (λ w. w.1 ≡ false) counted counted-keeps (quiet_group ∷ []) (some (7 ∷ [])) (0, false)
      (omega arith)
      (
        record {
          some_cases = omega arith;
          countable = omega arith;
          entry = tt;
          exit = λ w h. h;
          cases = (λ w h. h, (λ w h. h, tt));
        },
        tt,
      )
      refl
