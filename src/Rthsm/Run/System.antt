-- ===== src/Rthsm/Run/System.antt =====
-- A whole state machine: its queue of events set up by `RTFifoInit`, the machine by `RTHsmInit`, and
-- then the calls of a client.
use rtsys.Base.{ℕ, ◌≡◌, refl, true, Option, some, List, [], ◌∷◌, map, Outcome, done, ◌>>=◌, arith}
use rtsys.Rtfifo
use rtsys.Rtfifo.{Fifo}
use rtsys.Rtfifo.Contents.{contents, contents-empty}
use rtsys.Rtfifo.Start.{Fits, empty_fifo, empty_fifo-IsValid, init-eq}
use rtsys.Rthsm.Types.{Hsm, State, Transition, Event}
use rtsys.Rthsm.Tree.{All}
use rtsys.Rthsm.Engine.{act}
use rtsys.Rthsm.Setup.{init}
use rtsys.Rthsm.Setup.Hierarchy.{IsHierarchy}
use rtsys.Rthsm.Setup.Decides.{accepts, rejects}
use rtsys.Rthsm.Setup.Linking.{linked_state}
use rtsys.Rthsm.Setup.Checking.{led, finished_state}
use rtsys.Rthsm.Setup.Places.{linked_array}
use rtsys.Rthsm.Setup.Accepts.{root_pointer, built}
use rtsys.Rthsm.Setup.Accepted.{init-Decides}
use rtsys.Rthsm.Step.{World, u16_modulus, event_size}
use rtsys.Rthsm.Step.Ready.{init-IsReady}
use rtsys.Rthsm.Run.{Call, Reply, run}
use rtsys.Rthsm.Run.Keeps.{StateKeeps, Keeps-all}
use rtsys.Rthsm.Run.Refine.{HasQueue, Ran, run-Trace}

module _ {U : Type 0} where
  -- The calls behind the initialisation of the queue and of the machine.
  pub system :
      Fifo
      → ℕ
      → List ℕ
      → Hsm (World U)
      → List (State (World U))
      → U
      → Option ℕ
      → List Call
      → Outcome (List Reply × Hsm (World U) × World U)
  system fifo count buffer raw given user out calls = do
    queue ← Rtfifo.init (some fifo) count event_size (some buffer)
    hsm ← init (some raw) (some given) true
    run out calls hsm (record { queue = queue; user = user })

  -- The pointers that `RTHsmInit` fills in do not matter to the actions.
  module _ (P : World U → Type 0) (given : List (State (World U))) where
    led-Keeps :
        (ts : List (Transition (World U)))
        → All (λ t. (event : Event) (w : World U) → P w → P (act t event w)) ts
        → All
            (λ t. (event : Event) (w : World U) → P w → P (act t event w))
            (map (led (linked_array given) (root_pointer given)) ts)
    led-Keeps [] h = tt
    led-Keeps (t ∷ ts) (k, h) = ((λ event w p. k event w p), led-Keeps ts h)

    pub built-Keeps :
        (states : List (State (World U)))
        → All (StateKeeps P) states
        → All (StateKeeps P) (
            map
              (finished_state (linked_array given) (root_pointer given))
              (map (linked_state given) states))
    built-Keeps [] h = tt
    built-Keeps (s ∷ states) (k, h) = (
      record {
        entry = λ w p. k.entry w p;
        exit = λ w p. k.exit w p;
        actions = led-Keeps s.transitions k.actions;
      },
      built-Keeps states h,
    )

  abbrev pub first_world : ℕ → List ℕ → U → World U
  first_world count buffer user = record { queue = empty_fifo count event_size buffer; user = user }

  -- A state machine as a whole: a queue that `RTFifoInit` sets up for some events, fewer than 2
  -- ^ 16, in an array with room for them and of which every index is an `int`, and states whose
  -- ids describe a hierarchy, handed to `RTHsmInit`. If the actions of the states keep the
  -- queue valid, the initialisation and then any calls of a client, pushes of events and steps
  -- in any order, return; the replies are those of a trace of the relation `Trace` that starts
  -- with an empty bounded queue.
  pub system-Trace :
      (fifo : Fifo) (count : ℕ) (buffer : List ℕ) (raw : Hsm (World U))
      (given : List (State (World U))) (user : U) (out : Option ℕ) (calls : List Call)
      → Fits u16_modulus count event_size buffer
      → IsHierarchy given
      → All (StateKeeps HasQueue) given
      → (contents (first_world count buffer user).queue buffer ≡ [])
        × ((r : Ran calls out (built given) (first_world count buffer user) buffer) × (system fifo
                count buffer raw given user out calls
              ≡ done (r.replies, r.machine, r.world)))
  unfolding system
  system-Trace fifo count buffer raw given user out calls fits h keeps =
      elim (init-Decides raw given) [
        | rejects refused e ↦ absurd (refused h)
        | accepts h' e ↦
            let r =
              run-Trace out calls (built given) (first_world count buffer user)
                (init-IsReady raw given true e)
                (record { valid = empty_fifo-IsValid fits; events = refl })
                (Keeps-all {P = HasQueue} (built given).states
                  (built-Keeps HasQueue given given keeps)) in
            (
              contents-empty (empty_fifo-IsValid fits) (omega arith),
              (r, simp (init-eq u16_modulus fifo count event_size buffer fits, e) r.returns),
            )
      ]
