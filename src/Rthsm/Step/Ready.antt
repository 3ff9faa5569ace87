-- ===== src/Rthsm/Step/Ready.antt =====
-- The state of a machine between the calls of `RTHsmInit` and `RTHsmStep`.
use rtsys.Base.{ℕ, ◌≡◌, refl, sym, ◌∙◌, ◌≢◌, Bool, Option, some, List, done, done-injective}
use mathlib.Core.Path.{subst}
use rtsys.Rthsm.Types.{Event, Transition, Ptr, null, Hsm, State}
use rtsys.Rthsm.Tree.{deref-ne}
use rtsys.Rthsm.Setup.{init}
use rtsys.Rthsm.Setup.Tree.{init-IsTree}
use rtsys.Rthsm.Engine.Descend.{IsLeaf}
use rtsys.Rthsm.Step.{World, Stepped, step}
use rtsys.Rthsm.Step.Spec.{
  Handles, discards, refuses, stays, moves, Steps, starts, ends, idles, handles, IsReady, IsQueue,
}
use rtsys.Rthsm.Step.Refine.{step_refines}

module _ {U : Type 0} where
  -- The machine after a step: the same hierarchy, ready, and started for good.
  pub record Kept (hsm hsm' : Hsm (World U)) : Type 0 where
    pub ready : IsReady hsm'
    pub started : hsm'.current ≢ null
    pub same_states : hsm'.states ≡ hsm.states
    pub same_global : hsm'.global ≡ hsm.global

  at_leaf :
      (hsm : Hsm (World U)) {leaf : Ptr}
      → IsReady hsm
      → IsLeaf hsm.states hsm.global leaf
      → Kept hsm (record hsm { current = leaf })
  at_leaf hsm ready l = record {
    ready = record { tree = ready.tree; resting = λ n. l };
    started = deref-ne hsm.states _ l.at;
    same_states = refl;
    same_global = refl;
  }

  unmoved : (hsm : Hsm (World U)) → IsReady hsm → hsm.current ≢ null → Kept hsm hsm
  unmoved hsm ready n = record {
    ready = ready;
    started = n;
    same_states = refl;
    same_global = refl;
  }

  Handles-Kept :
      {hsm : Hsm (World U)} {out : Option ℕ} {event : Event} {w : World U}
      {ts : List (Transition (World U))} {r : Stepped U}
      → IsReady hsm
      → hsm.current ≢ null
      → Handles hsm out event w ts r
      → Kept hsm r.machine
  Handles-Kept {hsm} ready n (discards e f) = unmoved hsm ready n
  Handles-Kept {hsm} ready n (refuses e f) = unmoved hsm ready n
  Handles-Kept {hsm} ready n (stays t s e f d) = unmoved hsm ready n
  Handles-Kept {hsm} ready n (moves t e f p q i l) = at_leaf hsm ready l

  Steps-Kept :
      {hsm : Hsm (World U)} {out : Option ℕ} {w : World U} {buffer : List ℕ} {r : Stepped U}
      → IsReady hsm
      → Steps hsm out w buffer r
      → Kept hsm r.machine
  Steps-Kept {hsm} ready (starts n i l) = at_leaf hsm ready l
  Steps-Kept {hsm} ready (ends s d f) = unmoved hsm ready (deref-ne hsm.states hsm.current d)
  Steps-Kept {hsm} ready (idles s d f e) = unmoved hsm ready (deref-ne hsm.states hsm.current d)
  Steps-Kept {hsm} ready (handles s x d f e v size left path h) =
      Handles-Kept ready (deref-ne hsm.states hsm.current d) h

  -- When `RTHsmInit` returns, the machine is ready for its first step.
  pub init-IsReady :
      (raw : Hsm (World U)) (given : List (State (World U))) (has_queue : Bool)
      {hsm : Hsm (World U)}
      → init (some raw) (some given) has_queue ≡ done hsm
      → IsReady hsm
  init-IsReady raw given has_queue e =
      let (tree, unstarted) = init-IsTree raw given has_queue e in
      record { tree = tree; resting = λ n. absurd (n unstarted) }

  -- Whatever a step of a ready machine with a valid queue of events returns, the machine is
  -- ready again, started, and has the same states and global state.
  pub step-Kept :
      (hsm : Hsm (World U)) (out : Option ℕ) (w : World U) {buffer : List ℕ} {r : Stepped U}
      → IsReady hsm
      → IsQueue w buffer
      → step (some hsm) out w ≡ done r
      → Kept hsm r.machine
  step-Kept hsm out w ready q e =
      let (r', e', s) = step_refines hsm out w ready q in
      subst (λ (x : Stepped U). Kept hsm x.machine) (done-injective (sym e' ∙ e))
        (Steps-Kept ready s)
