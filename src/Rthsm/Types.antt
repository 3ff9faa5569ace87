-- ===== src/Rthsm/Types.antt =====
-- The types of src/rthsm/include/rthsm.h. A pointer into the array of states is a number: 0 is NULL, and
-- `i + 1` is `&states[i]`. `W` is what the user's actions change.
use rtsys.Base.{
  ℕ, zero, suc, Bool, not, Option, none, some, List, get_elem?, ◌==◌, Outcome, done, fault,
}
use Prim.Native.Nat.{bit_and}

abbrev pub Ptr : Type 0
Ptr = ℕ

abbrev pub null : Ptr
null = 0

abbrev pub null_state_id : ℕ
null_state_id = 0

abbrev pub max_nested_states : ℕ
max_nested_states = 3

-- `flags & 0x01`, for `RTHSM_STATE_FLAG_FINAL` and `RTHSM_TRANSITION_FLAG_INTERNAL`
abbrev pub has_flag : ℕ → Bool
has_flag flags = not (bit_and flags 0x01 == 0)

-- `RTHsmResult`
pub data Result : Type 0 where
  ok empty discarded guard_failed terminated : Result

-- `RTHsmEvent`, with its two parameters
pub record Event : Type 0 where
  pub id : ℕ
  pub param0 : ℕ
  pub param1 : ℕ

-- `RTHsmTransition`; a guard reads the world, an action changes it. Both are given the cookie.
pub record Transition (W : Type 0) : Type 0 where
  pub to_state_id : ℕ
  pub event_id : ℕ
  pub flags : ℕ
  pub guard : Option (Event → ℕ → W → ℕ)
  pub action : Option (Event → ℕ → W → W)
  pub cookie : ℕ
  pub to_state : Ptr

-- `RTHsmState`; `transitionsSize` is the length of the list.
pub record State (W : Type 0) : Type 0 where
  pub id : ℕ
  pub flags : ℕ
  pub parent_id : ℕ
  pub initial_id : ℕ
  pub entry_action : Option (ℕ → W → W)
  pub exit_action : Option (ℕ → W → W)
  pub cookie : ℕ
  pub transitions : List (Transition W)
  pub parent : Ptr
  pub initial : Ptr

-- `RTHsm`; `statesSize` is the length of the list, and the event queue is a part of the world.
pub record Hsm (W : Type 0) : Type 0 where
  pub states : List (State W)
  pub global : Ptr
  pub current : Ptr

-- The state that a pointer points to; to follow NULL is a fault.
unfoldable pub deref : {W : Type 0} → List (State W) → Ptr → Outcome (State W)
deref states zero = fault
deref states (suc i) = elim (get_elem? states i) [ none ↦ fault | some s ↦ done s ]
