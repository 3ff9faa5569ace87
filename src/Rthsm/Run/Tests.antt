-- ===== src/Rthsm/Run/Tests.antt =====
-- A client of the machine of Rthsm/Tests.
use rtsys.Base.{ℕ, List, ◌≡◌, sym, ◌∙◌, done-injective, true, none, [], ◌∷◌, arith, done}
use mathlib.Core.Path.{subst}
use rtsys.Rthsm.Types.{Hsm}
use rtsys.Rthsm.Tree.{All}
use rtsys.Rthsm.Setup.Hierarchy.{IsHierarchy}
use rtsys.Rthsm.Setup.Decides.{accepts, rejects}
use rtsys.Rthsm.Setup.Accepts.{built}
use rtsys.Rthsm.Setup.Accepted.{init-Decides}
use rtsys.Rtfifo.Contents.{contents}
use rtsys.Rthsm.Run.System.{system, first_world, built-Keeps, system-Trace}
use rtsys.Rthsm.Step.{World, Stepped}
use rtsys.Rthsm.Tests.{
  Log, given, raw, machine, machine_init, running, world, queue_bytes, machine-IsReady,
  running-IsReady, world-IsQueue, ten,
}
use rtsys.Rthsm.Run.{send, advance, drain, is_idle}
use rtsys.Rthsm.Run.Keeps.{Keeps, StateKeeps, Keeps-all}
use rtsys.Rthsm.Run.Refine.{HasQueue, Ran, run-Trace}
use rtsys.Rthsm.Run.Drain.{LeavesQueue, drain-idle}

-- Another log leaves the queue.
same_queue : (w : World Log) (log : Log) → HasQueue w → HasQueue (record w { user = log })
same_queue w log (buffer, q) = (buffer, record { valid = q.valid; events = q.events })

given-StateKeeps : All (StateKeeps HasQueue) given
given-StateKeeps = (
  record { entry = λ w h. same_queue w _ h; exit = λ w h. same_queue w _ h; actions = tt },
  (
    record {
      entry = λ w h. same_queue w _ h;
      exit = λ w h. same_queue w _ h;
      actions = (λ event w h. same_queue w _ h, tt);
    },
    (
      record {
        entry = λ w h. same_queue w _ h;
        exit = λ w h. same_queue w _ h;
        actions = (λ event w h. same_queue w _ h, (λ event w h. same_queue w _ h, tt));
      },
      (
        record { entry = λ w h. same_queue w _ h; exit = λ w h. same_queue w _ h; actions = tt },
        tt,
      ),
    ),
  ),
)

-- The states as they are given, and the machine that `RTHsmInit` makes of them.
given-IsHierarchy : IsHierarchy given × (machine ≡ built given)
given-IsHierarchy = elim (init-Decides raw given) [
  | accepts h e ↦ (h, done-injective (sym machine_init ∙ e))
  | rejects n e ↦ absurd (let e' = sym machine_init ∙ e in cc)
]

machine-Keeps : Keeps HasQueue machine.states
machine-Keeps =
    subst (λ (m : Hsm (World Log)). Keeps HasQueue m.states) (sym (given-IsHierarchy.1))
      (Keeps-all {P = HasQueue} (built given).states
        (built-Keeps HasQueue given given given-StateKeeps))

run-Trace_example : Ran (send 0 0 0 ten ∷ advance ∷ advance ∷ []) none machine world queue_bytes
run-Trace_example =
    run-Trace none (send 0 0 0 ten ∷ advance ∷ advance ∷ []) machine world machine-IsReady
      world-IsQueue machine-Keeps

machine-LeavesQueue : LeavesQueue running
machine-LeavesQueue q = Keeps-all {P = λ w. w.queue ≡ q} running.states (
  record { entry = λ w h. h; exit = λ w h. h; actions = tt },
  (
    record { entry = λ w h. h; exit = λ w h. h; actions = (λ event w h. h, tt) },
    (
      record {
        entry = λ w h. h;
        exit = λ w h. h;
        actions = (λ event w h. h, (λ event w h. h, tt));
      },
      (record { entry = λ w h. h; exit = λ w h. h; actions = tt }, tt),
    ),
  ),
)

drain-idle_example :
    (r : Stepped Log) × (drain 1 running world ≡ done r) × (is_idle r.result ≡ true)
drain-idle_example =
    drain-idle 1 running world running-IsReady (omega arith) world-IsQueue machine-LeavesQueue
      (omega arith)

-- Room for two events.
abbrev room : List ℕ
room =
    0 ∷ 0 ∷ 0 ∷ 0 ∷ 0 ∷ 0 ∷ 0 ∷ 0 ∷ 0 ∷ 0 ∷ 0 ∷ 0 ∷ 0 ∷ 0 ∷ 0 ∷ 0 ∷ 0 ∷ 0 ∷ 0 ∷ 0 ∷ 0 ∷ 0 ∷ 0 ∷ 0
    ∷ []

system-Trace_example :
    (contents (first_world {U = Log} 2 room []).queue room ≡ [])
    × ((r : Ran
          (advance ∷ send 0 0 0 ten ∷ advance ∷ [])
          none
          (built given)
          (first_world {U = Log} 2 room [])
          room)
        × (system world.queue 2 room raw given [] none (advance ∷ send 0 0 0 ten ∷ advance ∷ [])
            ≡ done (r.replies, r.machine, r.world)))
system-Trace_example =
    system-Trace world.queue 2 room raw given [] none (advance ∷ send 0 0 0 ten ∷ advance ∷ [])
      (record {
        some_items = omega arith;
        word = omega arith;
        some_bytes = omega arith;
        item_word = omega arith;
        room = omega arith;
        indexed = omega arith;
      })
      (given-IsHierarchy.0) given-StateKeeps
