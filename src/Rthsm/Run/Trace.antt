-- ===== src/Rthsm/Run/Trace.antt =====
-- What a client of a state machine sees, told without the engine: a relation over the hierarchy and the
-- events in the queue.
use rtsys.Base.{ℕ, ◌≡◌, Bool, Option, List, [], ◌∷◌}
use rtsys.Rtfifo.Contents.{contents}
use rtsys.Rtfifo.Queue
use rtsys.Rthsm.Types.{Event, Hsm}
use rtsys.Rthsm.Step.{World, Stepped, bytes_of_event}
use rtsys.Rthsm.Step.Spec.{Steps, IsQueue}
use rtsys.Rthsm.Run.{Call, send, advance, Reply, sent, advanced}

module _ {U : Type 0} (out : Option ℕ) where
  -- From a machine, a world and the buffer of its queue, calls with replies lead to a machine and a
  -- world. An event is put behind those in the bounded queue; a step is one of `Steps`.
  pub data Trace
      : Hsm (World U)
        → World U
        → List ℕ
        → List Call
        → List Reply
        → Hsm (World U)
        → World U
        → Type 0 where
    rests : {hsm : Hsm (World U)} {w : World U} {buffer : List ℕ} → Trace hsm w buffer [] [] hsm w
    pushes :
        {hsm hsm' : Hsm (World U)} {w w' w'' : World U} {buffer buffer' : List ℕ}
        {calls : List Call} {replies : List Reply} (pad0 pad1 pad2 : ℕ) (event : Event)
        (accepted : Bool)
        → (accepted, contents w'.queue buffer')
          ≡ Queue.push w.queue.capacity
              (contents w.queue buffer)
              (bytes_of_event pad0 pad1 pad2 event)
        → w'.user ≡ w.user
        → IsQueue w' buffer'
        → Trace hsm w' buffer' calls replies hsm' w''
        → Trace hsm w buffer (send pad0 pad1 pad2 event ∷ calls) (sent accepted ∷ replies) hsm' w''
    steps :
        {hsm hsm' : Hsm (World U)} {w w' : World U} {buffer buffer' : List ℕ} {calls : List Call}
        {replies : List Reply} {r : Stepped U}
        → Steps hsm out w buffer r
        → IsQueue r.world buffer'
        → Trace r.machine r.world buffer' calls replies hsm' w'
        → Trace hsm w buffer (advance ∷ calls) (advanced r.result r.guard_result ∷ replies) hsm' w'
