-- ===== src/Rthsm/Run.antt =====
-- A client of a state machine (src/rthsm/include/rthsm.h): it pushes events and makes steps, in any
-- order.
pub mod Keeps
pub mod Trace
pub mod Refine
pub mod Drain
pub mod System
mod Tests
use rtsys.Base.{
  ℕ, zero, suc, Bool, true, false, Option, none, some, List, [], ◌∷◌, if◌then◌else◌, Outcome, done,
  ◌>>=◌,
}
use rtsys.Rthsm.Types.{Event, Result, ok, empty, discarded, guard_failed, terminated, Hsm}
use rtsys.Rthsm.Step.{World, Stepped, push_event, bytes_of_event, step}

-- A call of the client: an event object with its three bytes of padding, or a step.
pub data Call : Type 0 where
  send : ℕ → ℕ → ℕ → Event → Call
  advance : Call

-- What the client sees.
pub data Reply : Type 0 where
  sent : Bool → Reply
  advanced : Result → Option ℕ → Reply

-- The results with which a machine says that it waits.
abbrev pub is_idle : Result → Bool
is_idle empty = true
is_idle terminated = true
is_idle _ = false

module _ {U : Type 0} where
  pub run :
      Option ℕ
      → List Call
      → Hsm (World U)
      → World U
      → Outcome (List Reply × Hsm (World U) × World U)
  run out [] hsm w = done ([], hsm, w)
  run out (send pad0 pad1 pad2 event ∷ calls) hsm w = do
    (pushed, w') ← push_event w (some (bytes_of_event pad0 pad1 pad2 event))
    (replies, hsm', w'') ← run out calls hsm w'
    done (sent pushed ∷ replies, hsm', w'')
  run out (advance ∷ calls) hsm w = do
    r ← step (some hsm) out w
    (replies, hsm', w') ← run out calls r.machine r.world
    done (advanced r.result r.guard_result ∷ replies, hsm', w')

  -- Steps until the machine waits, at most `n` of them and one more.
  pub drain : ℕ → Hsm (World U) → World U → Outcome (Stepped U)
  drain zero hsm w = step (some hsm) none w
  drain (suc n) hsm w = do
    r ← step (some hsm) none w
    let later = drain n r.machine r.world
    if is_idle r.result then done r else later
