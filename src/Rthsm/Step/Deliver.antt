-- ===== src/Rthsm/Step/Deliver.antt =====
-- The events that `RTHsmPushEvent` pushes are those that `RTHsmStep` handles, in their order.
use rtsys.Base.{ℕ, ◌^◌, ◌<◌, ◌≡◌, true, Option, some, List, map, done}
use rtsys.Rtfifo.{Fifo}
use rtsys.Rtfifo.Contents.{contents}
use rtsys.Rtfifo.Queue
use rtsys.Rtfifo.Queue.{Item}
use rtsys.Rthsm.Types.{Ptr, Event, Hsm}
use rtsys.Rthsm.Tree.{PathTo}
use rtsys.Rthsm.Engine.Choose.{candidates}
use rtsys.Rthsm.Step.{World, Stepped, push_event, step, bytes_of_event}
use rtsys.Rthsm.Step.Spec.{Handles}

-- The fields of an event are numbers of their types.
pub record IsEvent (event : Event) : Type 0 where
  pub id_byte : event.id < 2 ^ 8
  pub param0_word : event.param0 < 2 ^ 32
  pub param1_word : event.param1 < 2 ^ 32

-- An event as it is sent: with what its padding holds.
pub record Parcel : Type 0 where
  pub pad0 : ℕ
  pub pad1 : ℕ
  pub pad2 : ℕ
  pub event : Event

abbrev pub bytes_of : Parcel → Item
bytes_of p = bytes_of_event p.pad0 p.pad1 p.pad2 p.event

module _ {U : Type 0} (hsm : Hsm (World U)) (out : Option ℕ) where
  -- A step that handles an event, and what it leaves in the queue.
  pub record Handled (w : World U) (buffer : List ℕ) (event : Event) (left : List Item)
      (r : Stepped U) : Type 0 where
    pub queue : Fifo
    pub remaining : contents queue buffer ≡ left
    pub around : List Ptr
    pub path : PathTo hsm.states hsm.global hsm.current around
    pub handling : Handles hsm out event (record w { queue = queue }) (candidates path) r

  -- A push of an event, and the step behind it.
  pub record Delivered (w : World U) (buffer : List ℕ) (p : Parcel) (first : Event)
      (rest : List Parcel) : Type 0 where
    pub pushed : World U
    pub pushed_buffer : List ℕ
    pub accepts : push_event w (some (bytes_of p)) ≡ done (true, pushed)
    pub same_user : pushed.user ≡ w.user
    pub stepped : Stepped U
    pub returns : step (some hsm) out pushed ≡ done stepped
    pub handled : Handled pushed pushed_buffer first (map bytes_of rest) stepped
