-- ===== src/Rthsm/Run/Refine.antt =====
-- Any calls of a client of a ready machine, against the relation `Trace`.
use rtsys.Base.{ℕ, ◌≡◌, refl, sym, Option, List, [], ◌∷◌, done}
use mathlib.Core.Path.{subst}
use rtsys.Rthsm.Types.{Hsm}
use rtsys.Rthsm.Step.{World, Stepped}
use rtsys.Rthsm.Step.Spec.{Steps, starts, ends, idles, handles, IsReady, IsQueue}
use rtsys.Rthsm.Step.Refine.{step_refines}
use rtsys.Rthsm.Step.Ready.{step-Kept}
use rtsys.Rthsm.Step.Push.{push_event-queued}
use rtsys.Rthsm.Run.{Call, send, advance, Reply, sent, advanced, run}
use rtsys.Rthsm.Run.Trace.{Trace, rests, pushes, steps}
use rtsys.Rthsm.Run.Keeps.{Keeps, started-Keeps, Handles-Keeps}

module _ {U : Type 0} where
  -- The queue of the world is a valid queue of events, in some buffer.
  abbrev pub HasQueue : World U → Type 0
  HasQueue w = (buffer : List ℕ) × IsQueue w buffer

  -- What a step leaves has a queue again.
  Steps-HasQueue :
      (hsm : Hsm (World U)) {out : Option ℕ} {w : World U} {buffer : List ℕ} {r : Stepped U}
      → Keeps HasQueue hsm.states
      → IsQueue w buffer
      → Steps hsm out w buffer r
      → HasQueue r.world
  Steps-HasQueue hsm {w} {buffer} k q (starts n i l) = started-Keeps hsm HasQueue k w i (buffer, q)
  Steps-HasQueue hsm {buffer} k q (ends s d f) = (buffer, q)
  Steps-HasQueue hsm {buffer} k q (idles s d f e) = (buffer, q)
  Steps-HasQueue hsm {buffer} k q (handles s x d f e v size left path h) =
      Handles-Keeps hsm HasQueue k path h (buffer, record { valid = v; events = size })

  -- What the calls leave behind.
  pub record Ran (calls : List Call) (out : Option ℕ) (hsm : Hsm (World U)) (w : World U)
      (buffer : List ℕ) : Type 0 where
    pub replies : List Reply
    pub machine : Hsm (World U)
    pub world : World U
    pub returns : run out calls hsm w ≡ done (replies, machine, world)
    pub trace : Trace out hsm w buffer calls replies machine world
    pub ready : IsReady machine
    pub queue : HasQueue world

  -- A client that pushes events and makes steps of a ready machine, in any order, with a valid
  -- queue of events and actions that keep it valid, is always answered: no call panics, reads
  -- outside its memory, or loops. The replies are those of a trace, in which a push puts the
  -- event behind those in a bounded queue or is refused, and a step is one of the relation
  -- `Steps`. Afterwards the machine is ready and the queue is valid.
  pub run-Trace :
      (out : Option ℕ) (calls : List Call) (hsm : Hsm (World U)) (w : World U) {buffer : List ℕ}
      → IsReady hsm
      → IsQueue w buffer
      → Keeps HasQueue hsm.states
      → Ran calls out hsm w buffer
  unfolding run
  run-Trace out [] hsm w {buffer} ready q k = record {
    replies = [];
    machine = hsm;
    world = w;
    returns = refl;
    trace = rests;
    ready = ready;
    queue = (buffer, q);
  }
  run-Trace out (send pad0 pad1 pad2 event ∷ calls) hsm w ready q k =
      let (accepted, w', buffer', eq, q', queued, kept) =
        push_event-queued w pad0 pad1 pad2 event q in
      let later = run-Trace out calls hsm w' ready q' k in
      record {
        replies = sent accepted ∷ later.replies;
        machine = later.machine;
        world = later.world;
        returns = simp (eq, later.returns) refl;
        trace = pushes pad0 pad1 pad2 event accepted queued kept q' later.trace;
        ready = later.ready;
        queue = later.queue;
      }
  run-Trace out (advance ∷ calls) hsm w ready q k =
      let (r, eq, s) = step_refines hsm out w ready q in
      let kept = step-Kept hsm out w ready q eq in
      let (buffer', q') = Steps-HasQueue hsm k q s in
      let later =
        run-Trace out calls r.machine r.world kept.ready q'
          (subst (Keeps HasQueue) (sym kept.same_states) k) in
      record {
        replies = advanced r.result r.guard_result ∷ later.replies;
        machine = later.machine;
        world = later.world;
        returns = simp (eq, later.returns) refl;
        trace = steps s q' later.trace;
        ready = later.ready;
        queue = later.queue;
      }
