-- ===== src/Rthsm/Step.antt =====
-- `RTHsmPushEvent` and `RTHsmStep` of src/rthsm/src/rthsm.c, with the event queue.
pub mod Spec
pub mod Popped
pub mod Refine
pub mod Ready
pub mod Push
pub mod Deliver
use rtsys.Base.{
  ℕ, ◌+◌, ◌*◌, ◌^◌, ◌%◌, ◌/◌, Bool, true, false, not, Option, none, some, List, [], ◌∷◌, get_elem?,
  ◌==◌, if◌then◌else◌, Outcome, done, ◌>>=◌, ◌>>◌,
}
use rtsys.Rtfifo
use rtsys.Rtfifo.{Fifo}
use rtsys.Rtfifo.Run.{blank}
use rtsys.Rthsm.Types.{
  Ptr, null, has_flag, Result, ok, empty, discarded, guard_failed, terminated, Event, Transition,
  State, Hsm, deref,
}
use rtsys.Rthsm.Engine.{
  traverse_to_childmost, get_best_transition, do_self_transition, do_transition,
}

-- What actions can change: the event queue, and the user's own data.
pub record World (U : Type 0) : Type 0 where
  pub queue : Fifo
  pub user : U

-- `RTFifo` counts in `uint16_t`.
abbrev pub u16_modulus : ℕ
u16_modulus = 2 ^ 16

-- `sizeof(RTHsmEvent)`: the id, three bytes of padding, and two 32-bit words.
abbrev pub event_size : ℕ
event_size = 12

abbrev pub byte_at : List ℕ → ℕ → ℕ
byte_at bytes i = elim (get_elem? bytes i) [ none ↦ 0 | some b ↦ b ]

-- A `uint32_t` in memory, lowest byte first.
abbrev pub word_at : List ℕ → ℕ → ℕ
word_at bytes i =
    byte_at bytes i
    + 2 ^ 8 * byte_at bytes (i + 1)
    + 2 ^ 16 * byte_at bytes (i + 2)
    + 2 ^ 24 * byte_at bytes (i + 3)

abbrev pub bytes_of_word : ℕ → List ℕ → List ℕ
bytes_of_word x rest =
    x % 2 ^ 8 ∷ x / 2 ^ 8 % 2 ^ 8 ∷ x / 2 ^ 16 % 2 ^ 8 ∷ x / 2 ^ 24 % 2 ^ 8 ∷ rest

-- The event that the bytes of an `RTHsmEvent` object stand for.
unfoldable pub event_of_bytes : List ℕ → Event
event_of_bytes bytes = record {
  id = byte_at bytes 0;
  param0 = word_at bytes 4;
  param1 = word_at bytes 8;
}

-- The object of an event; C leaves the padding open.
unfoldable pub bytes_of_event : ℕ → ℕ → ℕ → Event → List ℕ
bytes_of_event pad0 pad1 pad2 event =
    event.id % 2 ^ 8
    ∷ pad0
    ∷ pad1
    ∷ pad2
    ∷ bytes_of_word event.param0 (bytes_of_word event.param1 [])

-- What a step returns and leaves: `guard_result` is what the caller's pointer points to, or `none`
-- for NULL.
pub record Stepped (U : Type 0) : Type 0 where
  pub result : Result
  pub guard_result : Option ℕ
  pub machine : Hsm (World U)
  pub world : World U

-- `if (guardResult != NULL) *guardResult = gresult;`
abbrev pub report : ℕ → Option ℕ → Option ℕ
report result none = none
report result (some old) = some result

module _ {U : Type 0} where
  pub push_event : World U → Option (List ℕ) → Outcome (Bool × World U)
  push_event w event = do
    (pushed, queue) ← Rtfifo.push u16_modulus (some w.queue) event event_size
    done (pushed, record w { queue = queue })

  -- The last branch of `RTHsmStep`, once an event has been popped.
  unfoldable pub handle : Hsm (World U) → Option ℕ → Event → World U → Outcome (Stepped U)
  handle hsm out event w = do
    (best, result) ← get_best_transition hsm event w
    elim best [
      | none ↦ done (
          if result == 0
          then record { result = discarded; guard_result = out; machine = hsm; world = w }
          else record {
            result = guard_failed;
            guard_result = report result out;
            machine = hsm;
            world = w;
          })
      | some t ↦
          if t.to_state == hsm.current
          then (do
            w' ← do_self_transition hsm t event w
            done (record { result = ok; guard_result = out; machine = hsm; world = w' }))
          else (do
            (current, w') ← do_transition hsm t event w
            done (record {
              result = ok;
              guard_result = out;
              machine = record hsm { current = current };
              world = w';
            }))
    ]

  unfoldable pub step : Option (Hsm (World U)) → Option ℕ → World U → Outcome (Stepped U)
  unfolding handle
  step none out w = Outcome.panic
  step (some hsm) out w =
      if hsm.current == null
      then (do
        (current, w') ← traverse_to_childmost hsm hsm.global w
        done (record {
          result = ok;
          guard_result = out;
          machine = record hsm { current = current };
          world = w';
        }))
      else (do
        s ← deref hsm.states hsm.current
        if has_flag s.flags
            then done (record { result = terminated; guard_result = out; machine = hsm; world = w })
            else (do
              (popped, object, queue) ←
                  Rtfifo.pop u16_modulus (some w.queue) (some (blank event_size)) event_size
              if popped
                  then handle hsm out
                      (event_of_bytes (elim object [ none ↦ [] | some bytes ↦ bytes ]))
                      (record w { queue = queue })
                  else done (record {
                    result = empty;
                    guard_result = out;
                    machine = hsm;
                    world = record w { queue = queue };
                  })))
