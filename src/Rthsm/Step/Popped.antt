-- ===== src/Rthsm/Step/Popped.antt =====
-- A pop of one event by `RTHsmStep`, from the queue of events.
use rtsys.Base.{
  ℕ, ◌≡◌, ap, ◌∙◌, Bool, true, false, Option, none, some, List, [], ◌∷◌, ◌++◌, arith, length, done,
  drop_all,
}
use mathlib.Core.List.{append-nil}
use mathlib.Core.Path.{subst}
use rtsys.Rtfifo
use rtsys.Rtfifo.{Fifo}
use rtsys.Rtfifo.Inv.{IsValid}
use rtsys.Rtfifo.Contents.{contents}
use rtsys.Rtfifo.Refine.{Popped, received, IsWhole, pop_refines}
use rtsys.Rtfifo.Queue
use rtsys.Rtfifo.Queue.{Item}
use rtsys.Rtfifo.Run.{blank}
use rtsys.Rthsm.Step.{u16_modulus, event_size}

-- How a pop of one event ends, by the events in the queue.
pub data Taken (f : Fifo) (buffer : List ℕ) : List Item → Type 0 where
  nothing :
      Rtfifo.pop u16_modulus (some f) (some (blank event_size)) event_size
        ≡ done (false, some (blank event_size), f)
      → Taken f buffer []
  oldest :
      {x : Item} {rest : List Item} (f' : Fifo)
      → Rtfifo.pop u16_modulus (some f) (some (blank event_size)) event_size
        ≡ done (true, some x, f')
      → IsValid u16_modulus f' buffer
      → f'.item_size ≡ event_size
      → contents f' buffer ≡ rest
      → Taken f buffer (x ∷ rest)

event_present :
    {f f' : Fifo} {buffer item' : List ℕ} {taken : Bool} {x : Option Item} (items : List Item)
    → f.item_size ≡ event_size
    → Rtfifo.pop u16_modulus (some f) (some (blank event_size)) event_size
      ≡ done (taken, some item', f')
    → Popped u16_modulus f buffer (blank event_size) taken x item' f'
    → (taken, x, contents f' buffer) ≡ Queue.pop items
    → Taken f buffer items
event_present {item'} {taken} {x} [] size e p q =
    let h : taken ≡ false = ap (λ r. r.0) q in
    let k : x ≡ none = ap (λ r. r.1) q in nothing (e ∙ rw (h, p.copied, k, p.refused h))
event_present {f'} {item'} {taken} {x} (y ∷ items) size e p q =
    let h : taken ≡ true = ap (λ r. r.0) q in
    let k : x ≡ some y = ap (λ r. r.1) q in
    let long : length y ≡ event_size = subst (IsWhole _) k p.whole ∙ size in
    let whole : item' ≡ y =
      p.copied
      ∙ ap (λ o. received o (blank event_size)) k
      ∙ ap (λ l. y ++ l) (drop_all (length y) (blank event_size) (omega arith))
      ∙ append-nil y in
    oldest f' (e ∙ rw (h, whole)) p.valid (p.same_item_size ∙ size) (ap (λ r. r.2) q)

pub pop_event :
    {f : Fifo} {buffer : List ℕ}
    → IsValid u16_modulus f buffer
    → f.item_size ≡ event_size
    → Taken f buffer (contents f buffer)
pop_event {f} {buffer} v size =
    let (taken, x, item', f', eq, p) =
      pop_refines (blank event_size) event_size v (omega arith) (omega arith) in
    event_present (contents f buffer) size eq p p.queued
