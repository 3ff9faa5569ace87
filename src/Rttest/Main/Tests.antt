-- ===== src/Rttest/Main/Tests.antt =====
-- The program, for some command lines.
use rtsys.Base.{ℕ, ◌≡◌, refl, Option, some, List, [], ◌∷◌, arith, done, panic}
use rtsys.Rttest.{id_octets}
use rtsys.Rttest.Pack.{pack}
use rtsys.Rttest.Logged.{on_user_groups, failures}
use rtsys.Rttest.Main.{main}
use rtsys.Rttest.Main.Select.{argument, arguments}
use rtsys.Rttest.Main.Runs.{selected, store, main-selected}
use rtsys.Rttest.Main.Zero.{main-zero}
use rtsys.Rttest.Register.{occurs}
use rtsys.Rttest.Tests.{groups}

abbrev zero_slots : ℕ → Option (List ℕ)
zero_slots n = some (0 ∷ 0 ∷ [])

-- The program with the arguments "8" and "12".
main-selected_example :
    main store zero_slots
      (on_user_groups groups)
      ([] ∷ arguments (8 ∷ 12 ∷ []) [])
      (record { user = 0; octets = [] })
    ≡ done (
      0,
      record { user = 11; octets = 82 ∷ 84 ∷ 84 ∷ 97 ∷ 62 ∷ 0 ∷ 0 ∷ 0 ∷ 8 ∷ 0 ∷ 60 ∷ 42 ∷ [] },
    )
unfolding failures pack id_octets selected occurs
main-selected_example =
    main-selected zero_slots (8 ∷ 12 ∷ []) (0 ∷ 0 ∷ []) [] [] (omega arith) (omega arith)
      (omega arith, omega arith, (omega arith, omega arith, tt)) refl refl groups 0 (omega arith)
      (
        record {
          id_word = omega arith;
          some_cases = omega arith;
          countable = omega arith;
          enters = refl;
          exits = refl;
        },
        tt,
      )

main-zero_example :
    main store zero_slots
      (on_user_groups groups)
      ([] ∷ argument 0 [] ∷ argument 8 [] ∷ [])
      (record { user = 0; octets = [] })
    ≡ panic
main-zero_example =
    main-zero store zero_slots (on_user_groups groups) [] [] (0 ∷ []) (argument 8 [] ∷ []) 0
      (record { user = 0; octets = [] }) (omega arith) refl
