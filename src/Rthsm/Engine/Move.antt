-- ===== src/Rthsm/Engine/Move.antt =====
-- `rthsmDoTransition` and `rthsmDoSelfTransition` as a whole: which actions run, in which order.
use rtsys.Base.{
  ◌≤◌, ◌≡◌, refl, ◌≢◌, Bool, true, false, List, length, Outcome, done, ne→==_false, if◌then◌else◌,
}
use native.Mathlib.Nat.{zero-add}
use rtsys.Rthsm.Types.{Ptr, null, max_nested_states, has_flag, Event, Transition, State, Hsm, deref}
use rtsys.Rthsm.Tree.{PathTo, IsTree, Points, deref-ne}
use rtsys.Rthsm.Engine.{act, enter, leave, path_rounds, do_transition, do_self_transition}
use rtsys.Rthsm.Engine.Descend.{Initials, IsLeaf, enter_all, descend-IsLeaf}
use rtsys.Rthsm.Engine.Ways.{
  until_shared, any_shared, first_shared, leave_each, enter_back, dst_parents-PathTo,
  leave_up-until,
}
use rtsys.Rthsm.Engine.Common.{find_common-shared, enter_down-back}
use rtsys.Rthsm.Engine.Shared.{first_shared-has, paths_share, until-first_shared}

module _ {W : Type 0} (hsm : Hsm W) (t : Transition W) (event : Event) (w : W) where
  -- The world once the states that are not around the destination have been left, the transition's
  -- action has run, and the states that were not around the origin have been entered.
  abbrev pub moved : List Ptr → List Ptr → W
  moved cs ds =
      enter_back hsm.states (until_shared cs ds)
        (act t event (leave_each hsm.states (until_shared ds cs) w))

  -- How a transition ends: at a leaf below its destination.
  pub record Moved (cs ds : List Ptr) : Type 0 where
    pub entered : List (State W)
    pub leaf : Ptr
    pub initials : Initials hsm.states t.to_state entered leaf
    pub result : do_transition hsm t event w ≡ done (leaf, enter_all entered (moved cs ds))
    pub is_leaf : IsLeaf hsm.states hsm.global leaf

  -- In a tree of states, a transition from a state below the global one to any state runs the
  -- exit actions of the states from the current one up to those that are also around the
  -- destination, the transition's action, the entry actions of the states around the
  -- destination that are not around the origin, down to the destination, and the entry actions
  -- of its initial sub-states; it ends at the leaf below them.
  pub do_transition-Moved :
      {cs ds : List Ptr}
      → IsTree hsm.states hsm.global
      → PathTo hsm.states hsm.global hsm.current cs
      → PathTo hsm.states hsm.global t.to_state ds
      → length cs ≤ path_rounds
      → length ds ≤ path_rounds
      → hsm.current ≢ hsm.global
      → Points hsm.states t.to_state
      → Moved cs ds
  unfolding do_transition
  do_transition-Moved {cs} {ds} tree path path' h h' n (s, at) =
      let (entered, leaf, initials, ends, is_leaf) =
        descend-IsLeaf hsm t.to_state s (moved cs ds) tree at in
      record {
        entered = entered;
        leaf = leaf;
        initials = initials;
        is_leaf = is_leaf;
        result =
            simp
              (
                ne→==_false t.to_state null (deref-ne hsm.states t.to_state at),
                dst_parents-PathTo max_nested_states path' h',
                find_common-shared hsm path h n 0 ds shared,
                leave_up-until (first_shared cs ds) path_rounds path h
                    (first_shared-has cs ds shared) w,
                until-first_shared path path',
                zero-add,
                enter_down-back cs path' shared
                    (act t event (leave_each hsm.states (until_shared ds cs) w)),
              )
              ends;
      }
    where
      shared : any_shared cs ds ≡ true
      shared = paths_share path path'

  -- A transition to the current state runs its exit and entry actions unless it is internal.
  pub do_self_transition-eq :
      (s : State W)
      → deref hsm.states hsm.current ≡ done s
      → do_self_transition hsm t event w
        ≡ done (if has_flag t.flags then act t event w else enter s (act t event (leave s w)))
  unfolding do_self_transition
  do_self_transition-eq s d =
      simp (ne→==_false hsm.current null (deref-ne hsm.states hsm.current d), d)
        (split (has_flag t.flags))
    where
      split :
          (internal : Bool)
          → ◌≡◌ {A = Outcome W}
              (done (
                if internal
                then act t event (if internal then w else leave s w)
                else enter s (act t event (if internal then w else leave s w))))
              (done (if internal then act t event w else enter s (act t event (leave s w))))
      split true = refl
      split false = refl
