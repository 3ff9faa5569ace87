-- ===== src/Rttest/Checks/Chain.antt =====
-- The registration of all groups, by the constructor functions that `RTTPRIV_GROUP_END` of
-- src/rttest/include/rttest_priv.h makes.
use rtsys.Base.{
  ◌≡◌, refl, sym, ap, ◌∙◌, false, some, List, [], ◌∷◌, ◌++◌, arith, Outcome, done, ◌>>=◌,
}
use mathlib.Core.List.{append_assoc, append-nil}
use rtsys.Rttest.{Group, register_group, append_group}
use rtsys.Rttest.Register.{uses_id}

module _ {W : Type 0} where
  -- The constructors run one after the other.
  unfoldable pub register_all : List (Group W) → List (Group W) → Outcome (List (Group W))
  unfolding register_group
  register_all first [] = done first
  register_all first (group ∷ groups) =
      register_group first (some group) >>= λ chain. register_all chain groups

  -- Every group has an id that no group before it has.
  abbrev pub NewIds : List (Group W) → List (Group W) → Type 0
  NewIds first [] = Unit
  NewIds first (group ∷ groups) =
      (uses_id group.id first ≡ false) × NewIds (first ++ (group ∷ [])) groups

  append_group-new :
      (gs : List (Group W)) (g : Group W)
      → uses_id g.id gs ≡ false
      → append_group g gs ≡ done (gs ++ (g ∷ []))
  unfolding append_group uses_id
  append_group-new [] g n = refl
  append_group-new (i ∷ []) g n = refl
  append_group-new (i ∷ next ∷ gs) g n = ground (arith, append_group-new (next ∷ gs) g)

  -- Groups that register one after the other, each with an id that no group before it has, are
  -- all taken, and stand in the chain in that order.
  pub register_all-append :
      (first groups : List (Group W))
      → NewIds first groups
      → register_all first groups ≡ done (first ++ groups)
  unfolding register_all register_group
  register_all-append first [] n = ap done (sym (append-nil first))
  register_all-append first (g ∷ groups) (n, ns) = simp (append_group-new first g n) (
      register_all-append (first ++ (g ∷ [])) groups ns
      ∙ ap done (append_assoc first (g ∷ []) groups))
