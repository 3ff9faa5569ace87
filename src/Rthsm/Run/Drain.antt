-- ===== src/Rthsm/Run/Drain.antt =====
-- A machine whose actions leave the queue alone comes to rest.
use rtsys.Base.{
  ℕ, zero, suc, ◌≤◌, ◌≡◌, refl, sym, ap, ◌∙◌, ◌≢◌, inl, inr, true, none, List, done, length, arith,
  Bool-cases,
}
use mathlib.Core.Path.{subst}
use rtsys.Rtfifo.{Fifo}
use rtsys.Rtfifo.Inv.{IsValid}
use rtsys.Rtfifo.Contents.{contents}
use rtsys.Rthsm.Types.{Hsm, null}
use rtsys.Rthsm.Step.{World, Stepped, u16_modulus}
use rtsys.Rthsm.Step.Spec.{Steps, starts, ends, idles, handles, IsReady, IsQueue}
use rtsys.Rthsm.Step.Refine.{step_refines}
use rtsys.Rthsm.Step.Ready.{step-Kept}
use rtsys.Rthsm.Run.{is_idle, drain}
use rtsys.Rthsm.Run.Keeps.{Keeps, Handles-Keeps}

module _ {U : Type 0} where
  -- No action of the machine touches the queue.
  abbrev pub LeavesQueue : Hsm (World U) → Type 0
  LeavesQueue hsm = (queue : Fifo) → Keeps (λ (w : World U). w.queue ≡ queue) hsm.states

  LeavesQueue-subst :
      (hsm hsm' : Hsm (World U)) → hsm'.states ≡ hsm.states → LeavesQueue hsm → LeavesQueue hsm'
  LeavesQueue-subst hsm hsm' same k queue =
      subst (Keeps (λ (w : World U). w.queue ≡ queue)) (sym same) (k queue)

  -- A step of a started machine waits, or takes an event from the queue.
  data Advances (w : World U) (buffer : List ℕ) (r : Stepped U) : Type 0 where
    waits : is_idle r.result ≡ true → Advances w buffer r
    takes :
        IsQueue r.world buffer
        → length (contents w.queue buffer) ≡ suc (length (contents r.world.queue buffer))
        → Advances w buffer r

  Steps-Advances :
      (hsm : Hsm (World U)) {w : World U} {buffer : List ℕ} {r : Stepped U}
      → LeavesQueue hsm
      → hsm.current ≢ null
      → Steps hsm none w buffer r
      → Advances w buffer r
  Steps-Advances hsm k n (starts e i l) = absurd (n e)
  Steps-Advances hsm k n (ends s d f) = waits refl
  Steps-Advances hsm k n (idles s d f e) = waits refl
  Steps-Advances hsm {w} {buffer} {r} k n (handles s x {queue} d f e v size left path h) =
      let same : r.world.queue ≡ queue =
        Handles-Keeps hsm (λ v'. v'.queue ≡ queue) (k queue) path h refl in
      takes
        (record {
          valid = subst (λ q. IsValid u16_modulus q buffer) (sym same) v;
          events = ap (λ (q : Fifo). q.item_size) same ∙ size;
        })
        (ap length e
          ∙ ap (λ ys. suc (length ys)) (sym left ∙ ap (λ q. contents q buffer) (sym same)))

  -- A ready and started machine whose actions leave a valid queue of events alone says that it
  -- is terminated or that the queue is empty after at most one step more than there are events
  -- in the queue.
  pub drain-idle :
      (n : ℕ) (hsm : Hsm (World U)) (w : World U) {buffer : List ℕ}
      → IsReady hsm
      → hsm.current ≢ null
      → IsQueue w buffer
      → LeavesQueue hsm
      → length (contents w.queue buffer) ≤ n
      → (r : Stepped U) × (drain n hsm w ≡ done r) × (is_idle r.result ≡ true)
  unfolding drain
  drain-idle zero hsm w {buffer} ready started q k short =
      let (r, eq, s) = step_refines hsm none w ready q in
      elim (Steps-Advances hsm k started s) [
        | waits i ↦ (r, eq, i)
        | takes q' shorter ↦ absurd (omega (arith, shorter, short))
      ]
  drain-idle (suc n) hsm w {buffer} ready started q k short =
      let (r, eq, s) = step_refines hsm none w ready q in
      let kept = step-Kept hsm none w ready q eq in
      let k' : LeavesQueue r.machine = LeavesQueue-subst hsm r.machine kept.same_states k in
      elim (Bool-cases (is_idle r.result)) [
        | inl i ↦ (r, simp (eq, i) refl, i)
        | inr goes ↦ elim (Steps-Advances hsm k started s) [
          | waits i ↦ absurd (cc)
          | takes q' shorter ↦
              let (r', eq', i) =
                drain-idle n r.machine r.world kept.ready kept.started q' k'
                  (omega (arith, shorter, short)) in
              (r', simp (eq, goes) eq', i)
        ]
      ]
