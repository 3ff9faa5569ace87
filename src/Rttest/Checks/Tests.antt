-- ===== src/Rttest/Checks/Tests.antt =====
-- Checks on a counter, and a chain of two groups.
use rtsys.Base.{ℕ, ◌+◌, ◌≡◌, refl, [], ◌∷◌, pos, negsuc, done, Bool, ltb}
use rtsys.Rttest.Checks.{expects, asserts, holds, none_left, test_body, test_body-first}
use rtsys.Rttest.Checks.Chain.{register_all, register_all-append}
use rtsys.Rttest.Register.{uses_id}
use rtsys.Rttest.Tests.{first_group, last_group}

-- A condition that holds on a counter below a bound, and counts.
abbrev below : ℕ → ℕ → Bool × ℕ
below bound u = (ltb u bound, u + 1)

test_body-first_example :
    (test_body (expects (below 3) ∷ []) 0 ≡ (pos 0, 1))
    × (test_body (expects (below 3) ∷ asserts (below 1) ∷ expects (below 9) ∷ []) 0 ≡ (negsuc 0, 2))
test_body-first_example =
    test_body-first (asserts (below 1)) (expects (below 9) ∷ [])
      (holds (expects (below 3)) refl none_left) refl

register_all-append_example :
    register_all (first_group ∷ []) (last_group ∷ []) ≡ done (first_group ∷ last_group ∷ [])
unfolding uses_id
register_all-append_example = register_all-append (first_group ∷ []) (last_group ∷ []) (refl, tt)
