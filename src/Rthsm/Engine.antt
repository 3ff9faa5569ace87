-- ===== src/Rthsm/Engine.antt =====
-- The engine of src/rthsm/src/rthsm.c: finding and performing transitions. Actions are functions on the
-- world `w`; each function returns the world that its actions leave.
pub mod Descend
pub mod Choose
pub mod Enabled
pub mod Ways
pub mod Common
pub mod Shared
pub mod Move
use rtsys.Base.{
  ℕ, zero, suc, ◌+◌, Bool, true, false, not, Option, none, some, List, [], ◌∷◌, get_elem?, ◌==◌,
  if◌then◌else◌, Outcome, done, panic, fault, timeout, ◌>>=◌, ◌>>◌, assert,
}
use rtsys.Rthsm.Types.{Ptr, null, max_nested_states, has_flag, Event, Transition, State, Hsm, deref}

-- A state has at most `RTHSM_MAX_NESTED_STATES` levels below the global one, so that the loops along
-- a branch of the hierarchy end within one round more.
abbrev pub path_rounds : ℕ
path_rounds = suc max_nested_states

module _ {W : Type 0} where
  -- `if (state->entryAction != NULL) state->entryAction(state->cookie);`
  abbrev pub enter : State W → W → W
  enter s w = elim s.entry_action [ none ↦ w | some action ↦ action s.cookie w ]

  abbrev pub leave : State W → W → W
  leave s w = elim s.exit_action [ none ↦ w | some action ↦ action s.cookie w ]

  abbrev pub act : Transition W → Event → W → W
  act t event w = elim t.action [ none ↦ w | some action ↦ action event t.cookie w ]

  -- The `do` loop of `rthsmTraverseToChildmostState`, on the rounds left.
  unfoldable pub descend : List (State W) → ℕ → Ptr → W → Outcome (Ptr × W)
  descend states zero current w = timeout
  descend states (suc rounds) current w = do
    s ← deref states current
    if s.initial == null then done (current, w) else (do
      substate ← deref states s.initial
      descend states rounds s.initial (enter substate w))

  -- `rthsmTraverseToChildmostState`: the new current state.
  unfoldable pub traverse_to_childmost : Hsm W → Ptr → W → Outcome (Ptr × W)
  unfolding descend
  traverse_to_childmost hsm state w = do
    assert (not (state == null))
    descend hsm.states path_rounds state w

  -- The inner loop of `rthsmGetBestTransition`: `result` is `*guardResult`.
  unfoldable pub scan_transitions : List (Transition W) → Event → W → ℕ → Option (Transition W) × ℕ
  scan_transitions [] event w result = (none, result)
  scan_transitions (t ∷ ts) event w result =
      if t.event_id == event.id
      then elim t.guard [
        | none ↦ (some t, result)
        | some guard ↦
            if guard event t.cookie w == 0
            then (some t, guard event t.cookie w)
            else scan_transitions ts event w (guard event t.cookie w)
      ]
      else scan_transitions ts event w result

  -- The outer loop, which climbs to the global state; `RTASSERT` bounds its rounds.
  unfoldable pub climb :
      List (State W) → Ptr → Event → W → ℕ → Ptr → ℕ → Outcome (Option (Transition W) × ℕ)
  climb states global event w zero state result =
      if state == global then done (none, result) else panic
  climb states global event w (suc rounds) state result =
      if state == global then done (none, result) else (do
        s ← deref states state
        let found = scan_transitions s.transitions event w result
        let next = climb states global event w rounds s.parent found.1
        elim found.0 [ some t ↦ done found | none ↦ next ])

  unfoldable pub get_best_transition : Hsm W → Event → W → Outcome (Option (Transition W) × ℕ)
  unfolding climb
  get_best_transition hsm event w = do
    assert (not (hsm.current == null))
    climb hsm.states hsm.global event w max_nested_states hsm.current 0

  unfoldable pub do_self_transition : Hsm W → Transition W → Event → W → Outcome W
  do_self_transition hsm t event w = do
    assert (not (hsm.current == null))
    s ← deref hsm.states hsm.current
    let left = if has_flag t.flags then w else leave s w
    let acted = act t event left
    done (if has_flag t.flags then acted else enter s acted)

  -- The `while` loop that builds `dstParents`; `room` is what is left of the array.
  unfoldable pub dst_parents : List (State W) → Ptr → ℕ → Ptr → Outcome (List Ptr)
  dst_parents states global zero state = if state == global then done (state ∷ []) else panic
  dst_parents states global (suc room) state = if state == global then done (state ∷ []) else (do
    s ← deref states state
    parents ← dst_parents states global room s.parent
    done (state ∷ parents))

  -- The loop from the current state up to the global one that looks for `target`: whether it is
  -- found, and `lastState`.
  unfoldable pub scan_origin : List (State W) → Ptr → Ptr → ℕ → Ptr → Ptr → Outcome (Bool × Ptr)
  scan_origin states global target zero state last =
      if state == global then done (false, last) else timeout
  scan_origin states global target (suc rounds) state last =
      if state == global then done (false, last) else (do
        s ← deref states state
        let next = scan_origin states global target rounds s.parent state
        if state == target then done (true, state) else next)

  -- One round of the search for the common parent: whether `target` is the one.
  unfoldable pub is_common : Hsm W → Ptr → Outcome Bool
  unfolding scan_origin
  is_common hsm target = do
    (found, last) ← scan_origin hsm.states hsm.global target path_rounds hsm.current null
    if found
        then done true
        else if last == null
        then done false
        else deref hsm.states last >>= λ s. done (s.parent == target)

  -- `commonParentIndex` and `commonParent`, from index `i` on.
  unfoldable pub find_common : Hsm W → ℕ → List Ptr → Outcome (ℕ × Ptr)
  unfolding is_common
  find_common hsm i [] = panic
  find_common hsm i (p ∷ ps) = do
    common ← is_common hsm p
    let next = find_common hsm (i + 1) ps
    if common then done (i, p) else next

  -- The exit actions from `state` up to the common parent.
  unfoldable pub leave_up : List (State W) → Ptr → ℕ → Ptr → W → Outcome W
  leave_up states common zero state w = if state == common then done w else timeout
  leave_up states common (suc rounds) state w =
      if state == common
      then done w
      else (do s ← deref states state; leave_up states common rounds s.parent (leave s w))

  -- The entry actions of `dstParents[i - 1]` down to `dstParents[0]`.
  unfoldable pub enter_down : List (State W) → List Ptr → ℕ → W → Outcome W
  enter_down states parents zero w = done w
  enter_down states parents (suc i) w = elim (get_elem? parents i) [
    | none ↦ fault
    | some p ↦ deref states p >>= λ s. enter_down states parents i (enter s w)
  ]

  unfoldable pub do_transition : Hsm W → Transition W → Event → W → Outcome (Ptr × W)
  do_transition hsm t event w = do
    assert (not (t.to_state == null))
    parents ← dst_parents hsm.states hsm.global max_nested_states t.to_state
    (index, common) ← find_common hsm 0 parents
    left ← leave_up hsm.states common path_rounds hsm.current w
    entered ← enter_down hsm.states parents index (act t event left)
    traverse_to_childmost hsm t.to_state entered
