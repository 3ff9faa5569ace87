-- ===== src/Rthsm/Setup.antt =====
-- `RTHsmInit` of src/rthsm/src/rthsm.c. No pass writes an id, so the lookups read the array as it was
-- given; each pass returns the states with the pointers that it fills in.
pub mod Decides
pub mod Hierarchy
pub mod Linking
pub mod Places
pub mod Root
pub mod Links
pub mod Returns
pub mod Checking
pub mod Criterion
pub mod Accepts
pub mod Described
pub mod Accepted
pub mod Passes
pub mod Tree
use rtsys.Base.{
  ℕ, zero, suc, ◌+◌, Bool, true, false, not, Option, none, some, List, [], ◌∷◌, ltb, ◌==◌,
  if◌then◌else◌, length, Outcome, done, ◌>>=◌, ◌>>◌, assert, non_null,
}
use rtsys.Rthsm.Types.{Ptr, null, null_state_id, max_nested_states, Transition, State, Hsm, deref}

module _ {W : Type 0} where
  -- `rthsmLookupStateFromId`, from index `i` on
  unfoldable pub lookup_from : List (State W) → ℕ → ℕ → Ptr
  lookup_from [] i id = null
  lookup_from (s ∷ states) i id = if s.id == id then suc i else lookup_from states (i + 1) id

  unfoldable pub lookup_state_from_id : List (State W) → ℕ → Ptr
  unfolding lookup_from
  lookup_state_from_id states id = lookup_from states 0 id

  -- The inner loop over `j`, which checks that no later state has this id.
  unfoldable pub check_unique : ℕ → List (State W) → Outcome (Unit {0})
  check_unique id [] = done tt
  check_unique id (s ∷ states) = assert (not (s.id == id)) >> check_unique id states

  -- Fills in `parent`, and `global` at the state without a parent id: both are returned.
  unfoldable pub link_parent : List (State W) → Ptr → Ptr → State W → Outcome (Ptr × Ptr)
  link_parent states global self s =
      if s.parent_id == null_state_id then assert (global == null) >> done (self, null) else (do
        let parent = lookup_state_from_id states s.parent_id
        assert (not (parent == null))
        done (global, parent))

  unfoldable pub link_initial : List (State W) → State W → Outcome Ptr
  link_initial states s = if s.initial_id == null_state_id then done null else (do
    let initial = lookup_state_from_id states s.initial_id
    assert (not (initial == null))
    done initial)

  -- The first loop over `i`, at the states from index `i` on.
  unfoldable pub link_states :
      List (State W) → Ptr → ℕ → List (State W) → Outcome (List (State W) × Ptr)
  link_states states global i [] = done ([], global)
  link_states states global i (s ∷ rest) = do
    check_unique s.id rest
    (global', parent) ← link_parent states global (suc i) s
    initial ← link_initial states s
    (linked, found) ← link_states states global' (i + 1) rest
    done (record s { parent = parent; initial = initial } ∷ linked, found)

  -- The loop over `j` that climbs from a state to the global one, on the rounds left.
  unfoldable pub belongs_to_global : List (State W) → Ptr → ℕ → Ptr → Outcome Bool
  belongs_to_global states global zero iter = done false
  belongs_to_global states global (suc n) iter = do
    s ← deref states iter
    if s.parent == global then done true else belongs_to_global states global n s.parent

  -- An `initial` state must have the right `parent`.
  unfoldable pub check_initial : List (State W) → Ptr → State W → Outcome (Unit {0})
  check_initial states self s =
      if s.initial == null
      then done tt
      else (deref states s.initial >>= λ t. assert (t.parent == self))

  -- A state other than the global one must belong to it.
  unfoldable pub check_nesting : List (State W) → Ptr → Ptr → Outcome (Unit {0})
  check_nesting states global self =
      if self == global
      then done tt
      else (belongs_to_global states global max_nested_states self >>= assert)

  -- One round of the loop that checks the hierarchy.
  unfoldable pub check_state : List (State W) → Ptr → Ptr → State W → Outcome (Unit {0})
  unfolding check_initial check_nesting
  check_state states global self s = check_initial states self s >> check_nesting states global self

  unfoldable pub check_hierarchy : List (State W) → Ptr → ℕ → List (State W) → Outcome (Unit {0})
  check_hierarchy states global i [] = done tt
  check_hierarchy states global i (s ∷ rest) =
      check_state states global (suc i) s >> check_hierarchy states global (i + 1) rest

  unfoldable pub link_transition : List (State W) → Ptr → Transition W → Outcome (Transition W)
  link_transition states global t = do
    assert (not (t.to_state_id == null_state_id))
    let target = lookup_state_from_id states t.to_state_id
    assert (not (target == null))
    assert (not (target == global))
    done (record t { to_state = target })

  unfoldable pub link_transitions :
      List (State W) → Ptr → List (Transition W) → Outcome (List (Transition W))
  link_transitions states global [] = done []
  link_transitions states global (t ∷ ts) = do
    t' ← link_transition states global t
    ts' ← link_transitions states global ts
    done (t' ∷ ts')

  -- The last loop, which fills in `toState` everywhere.
  unfoldable pub link_all : List (State W) → Ptr → List (State W) → Outcome (List (State W))
  link_all states global [] = done []
  link_all states global (s ∷ rest) = do
    ts ← link_transitions states global s.transitions
    rest' ← link_all states global rest
    done (record s { transitions = ts } ∷ rest')

  -- `RTHsmInit`. A queue pointer that is NULL is the `false` of `has_queue`.
  unfoldable pub init : Option (Hsm W) → Option (List (State W)) → Bool → Outcome (Hsm W)
  init hsm states has_queue = do
    raw ← non_null hsm
    given ← non_null states
    assert (ltb 0 (length given))
    assert has_queue
    (linked, global) ← link_states given null 0 given
    assert (not (global == null))
    top ← deref linked global
    assert (not (top.initial == null))
    assert (length top.transitions == 0)
    check_hierarchy linked global 0 linked
    final ← link_all linked global linked
    done (record { states = final; global = global; current = null })
