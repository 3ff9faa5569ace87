-- ===== src/Rthsm/Step/Push.antt =====
-- `RTHsmPushEvent`: the event travels through the queue as the bytes of its object.
use rtsys.Base.{ℕ, ◌≡◌, refl, sym, ap, ◌∙◌, Bool, some, List, arith, done, ◌>>=◌}
use rtsys.Rtfifo
use rtsys.Rtfifo.Inv.{head_always, length-slot}
use rtsys.Rtfifo.Contents.{contents}
use rtsys.Rtfifo.Refine.{push_refines}
use rtsys.Rtfifo.Run.{filled_whole}
use rtsys.Rtfifo.Queue
use rtsys.Rthsm.Types.{Event}
use rtsys.Rthsm.Step.{World, push_event, bytes_of_event, event_size}
use rtsys.Rthsm.Step.Spec.{IsQueue}

module _ {U : Type 0} where
  -- `RTHsmPushEvent` on a valid queue of events returns; the bytes of the event stand last in
  -- the queue afterwards, unless the queue was full, in which case the queue's items stay and
  -- the result is false; the user's data stays, and the queue stays valid.
  pub push_event-queued :
      (w : World U) {buffer : List ℕ} (pad0 pad1 pad2 : ℕ) (event : Event)
      → IsQueue w buffer
      → (accepted : Bool) × (w' : World U) × (buffer' : List ℕ) × (push_event w
            (some (bytes_of_event pad0 pad1 pad2 event))
          ≡ done (accepted, w'))
        × IsQueue w' buffer'
        × ((accepted, contents w'.queue buffer')
            ≡ Queue.push w.queue.capacity
                (contents w.queue buffer)
                (bytes_of_event pad0 pad1 pad2 event))
        × (w'.user ≡ w.user)
  unfolding push_event bytes_of_event
  push_event-queued w {buffer} pad0 pad1 pad2 event q =
      let item : List ℕ = bytes_of_event pad0 pad1 pad2 event in
      let (accepted, queue, buffer', eq, p) =
        push_refines item event_size q.valid (omega arith) (omega (arith, q.events))
          (omega arith) in
      (
        accepted,
        record w { queue = queue },
        buffer',
        ap (λ m. m >>= (λ (r : Bool × Rtfifo.Fifo). done (r.0, record w { queue = r.1 }))) eq,
        record { valid = p.valid; events = p.same_item_size ∙ q.events },
        p.queued
            ∙ ap (Queue.push w.queue.capacity (contents w.queue buffer)) (
                filled_whole w.queue buffer item
                  (sym (length-slot q.valid w.queue.head (head_always q.valid) ∙ q.events))),
        refl,
      )
