-- ===== src/Rthsm/Setup/Hierarchy.antt =====
-- Which arrays of states describe a hierarchy, told by the ids that their user fills in.
use rtsys.Base.{ℕ, suc, ◌≡◌, ◌≢◌, some, List, [], ◌∷◌, get_elem?}
use rtsys.Rthsm.Types.{null_state_id, max_nested_states, Transition, State}
use rtsys.Rthsm.Tree.{All}

module _ {W : Type 0} where
  -- No two states have the same id.
  abbrev pub Distinct : List (State W) → Type 0
  Distinct [] = Unit
  Distinct (s ∷ rest) = All (λ (t : State W). t.id ≢ s.id) rest × Distinct rest

  module _ (given : List (State W)) where
    -- A state stands at a place of the array.
    abbrev pub StandsAt : ℕ → State W → Type 0
    StandsAt k s = get_elem? given k ≡ some s

    -- The initial sub-state names this state as its parent.
    pub record HasInitial (s : State W) : Type 0 where
      pub place : ℕ
      pub state : State W
      pub at : StandsAt place state
      pub named : state.id ≡ s.initial_id
      pub back : state.parent_id ≡ s.id
      pub inner : state.parent_id ≢ null_state_id

    module _ (root : ℕ) where
      -- The global state is reached by at most so many parents.
      pub data Nested : ℕ → State W → Type 0 where
        under :
            {n : ℕ} {s : State W} (r : State W)
            → StandsAt root r
            → s.parent_id ≡ r.id
            → Nested (suc n) s
        within :
            {n : ℕ} {s : State W} (j : ℕ) (t : State W)
            → StandsAt j t
            → j ≢ root
            → s.parent_id ≡ t.id
            → Nested n t
            → Nested (suc n) s

      -- The destination of a transition is a state below the global one.
      pub record HasDestination (t : Transition W) : Type 0 where
        pub given_id : t.to_state_id ≢ null_state_id
        pub place : ℕ
        pub state : State W
        pub at : StandsAt place state
        pub named : state.id ≡ t.to_state_id
        pub below : place ≢ root

    pub record IsHierarchy : Type 0 where
      pub distinct : Distinct given
      pub root : ℕ
      pub root_state : State W
      pub root_at : StandsAt root root_state
      pub root_orphan : root_state.parent_id ≡ null_state_id
      pub root_starts : root_state.initial_id ≢ null_state_id
      pub root_quiet : root_state.transitions ≡ []
      pub only_root : (k : ℕ) (s : State W) → StandsAt k s → s.parent_id ≡ null_state_id → k ≡ root
      pub nested : (k : ℕ) (s : State W) → StandsAt k s → k ≢ root → Nested root max_nested_states s
      pub initials :
          (k : ℕ) (s : State W) → StandsAt k s → s.initial_id ≢ null_state_id → HasInitial s
      pub targets : (k : ℕ) (s : State W) → StandsAt k s → All (HasDestination root) s.transitions
