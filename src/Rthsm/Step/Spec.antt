-- ===== src/Rthsm/Step/Spec.antt =====
-- What one step of a state machine does, told without the engine: a relation over the hierarchy and
-- the queue of events.
use rtsys.Base.{ℕ, ◌≡◌, ◌≢◌, true, false, Option, none, some, List, [], ◌∷◌, done, if◌then◌else◌}
use rtsys.Rtfifo.{Fifo}
use rtsys.Rtfifo.Inv.{IsValid}
use rtsys.Rtfifo.Contents.{contents}
use rtsys.Rtfifo.Queue.{Item}
use rtsys.Rthsm.Types.{
  Ptr, null, has_flag, ok, empty, discarded, guard_failed, terminated, Event, Transition, State,
  Hsm, deref,
}
use rtsys.Rthsm.Tree.{PathTo, IsTree}
use rtsys.Rthsm.Engine.{enter, leave, act}
use rtsys.Rthsm.Engine.Descend.{Initials, IsLeaf, enter_all}
use rtsys.Rthsm.Engine.Choose.{candidates, first_enabled, last_verdict, any_triggered}
use rtsys.Rthsm.Engine.Move.{moved}
use rtsys.Rthsm.Step.{World, Stepped, u16_modulus, event_size, event_of_bytes, report}

module _ {U : Type 0} where
  -- A transition to the current state itself: an internal one runs its action alone.
  abbrev pub stayed : Transition (World U) → State (World U) → Event → World U → World U
  stayed t s event w = if has_flag t.flags then act t event w else enter s (act t event (leave s w))

  module _ (hsm : Hsm (World U)) (out : Option ℕ) where
    -- What an event does, given the transitions that can be taken, the innermost first.
    pub data Handles (event : Event) (w : World U) (ts : List (Transition (World U)))
        : Stepped U → Type 0 where
      discards :
          first_enabled event w ts ≡ none
          → any_triggered event w ts ≡ false
          → Handles event w ts
              (record { result = discarded; guard_result = out; machine = hsm; world = w })
      refuses :
          first_enabled event w ts ≡ none
          → any_triggered event w ts ≡ true
          → Handles event w ts (record {
            result = guard_failed;
            guard_result = report (last_verdict event w 0 ts) out;
            machine = hsm;
            world = w;
          })
      stays :
          (t : Transition (World U)) (s : State (World U))
          → first_enabled event w ts ≡ some t
          → t.to_state ≡ hsm.current
          → deref hsm.states hsm.current ≡ done s
          → Handles event w ts (record {
            result = ok;
            guard_result = out;
            machine = hsm;
            world = stayed t s event w;
          })
      moves :
          (t : Transition (World U)) {cs ds : List Ptr} {entered : List (State (World U))}
          {leaf : Ptr}
          → first_enabled event w ts ≡ some t
          → t.to_state ≢ hsm.current
          → PathTo hsm.states hsm.global hsm.current cs
          → PathTo hsm.states hsm.global t.to_state ds
          → Initials hsm.states t.to_state entered leaf
          → IsLeaf hsm.states hsm.global leaf
          → Handles event w ts (record {
            result = ok;
            guard_result = out;
            machine = record hsm { current = leaf };
            world = enter_all entered (moved hsm t event w cs ds);
          })

    -- A step, for an event queue in the given buffer.
    pub data Steps (w : World U) (buffer : List ℕ) : Stepped U → Type 0 where
      starts :
          {entered : List (State (World U))} {leaf : Ptr}
          → hsm.current ≡ null
          → Initials hsm.states hsm.global entered leaf
          → IsLeaf hsm.states hsm.global leaf
          → Steps w buffer (record {
            result = ok;
            guard_result = out;
            machine = record hsm { current = leaf };
            world = enter_all entered w;
          })
      ends :
          (s : State (World U))
          → deref hsm.states hsm.current ≡ done s
          → has_flag s.flags ≡ true
          → Steps w buffer
              (record { result = terminated; guard_result = out; machine = hsm; world = w })
      idles :
          (s : State (World U))
          → deref hsm.states hsm.current ≡ done s
          → has_flag s.flags ≡ false
          → contents w.queue buffer ≡ []
          → Steps w buffer (record { result = empty; guard_result = out; machine = hsm; world = w })
      handles :
          (s : State (World U)) (x : Item) {rest : List Item} {queue : Fifo} {ps : List Ptr}
          {r : Stepped U}
          → deref hsm.states hsm.current ≡ done s
          → has_flag s.flags ≡ false
          → contents w.queue buffer ≡ x ∷ rest
          → IsValid u16_modulus queue buffer
          → queue.item_size ≡ event_size
          → contents queue buffer ≡ rest
          → (path : PathTo hsm.states hsm.global hsm.current ps)
          → Handles (event_of_bytes x) (record w { queue = queue }) (candidates path) r
          → Steps w buffer r

  -- A machine between two steps: not started yet, or at a leaf of its hierarchy.
  pub record IsReady (hsm : Hsm (World U)) : Type 0 where
    pub tree : IsTree hsm.states hsm.global
    pub resting : hsm.current ≢ null → IsLeaf hsm.states hsm.global hsm.current

  -- An event queue that holds events.
  pub record IsQueue (w : World U) (buffer : List ℕ) : Type 0 where
    pub valid : IsValid u16_modulus w.queue buffer
    pub events : w.queue.item_size ≡ event_size
