-- ===== src/Rthsm/Step/Refine.antt =====
-- `RTHsmStep` (src/rthsm/src/rthsm.c) against the relation `Steps`.
use rtsys.Base.{
  ℕ, suc, ◌≤◌, ◌≡◌, refl, ap, ◌∙◌, ◌≢◌, inl, inr, false, Option, none, some, List, [], ◌∷◌, arith,
  ◌==◌, length, done, ne→==_false, ==_refl, eq-cases, Bool-cases,
}
use rtsys.Rtfifo.Contents.{contents}
use rtsys.Rtfifo.Queue.{Item}
use rtsys.Rthsm.Types.{
  Ptr, null, max_nested_states, has_flag, ok, empty, discarded, guard_failed, terminated, Event,
  Transition, Hsm,
}
use rtsys.Rthsm.Tree.{PathTo, HasTarget}
use rtsys.Rthsm.Engine.{get_best_transition}
use rtsys.Rthsm.Engine.Descend.{enter_all, descend-IsLeaf}
use rtsys.Rthsm.Engine.Choose.{
  candidates, first_enabled, last_verdict, get_best_transition-first, last_verdict-eq-zero,
}
use rtsys.Rthsm.Engine.Move.{moved, do_transition-Moved, do_self_transition-eq}
use rtsys.Rthsm.Step.Popped.{Taken, nothing, oldest, pop_event}
use rtsys.Rthsm.Engine.Enabled.{candidates-All, first_enabled-All}
use rtsys.Rthsm.Step.{World, Stepped, event_of_bytes, report, handle, step}
use rtsys.Rthsm.Step.Spec.{
  stayed, Handles, discards, refuses, stays, moves, Steps, starts, ends, idles, handles, IsReady,
  IsQueue,
}

module _ {U : Type 0} where
  module _ (hsm : Hsm (World U)) (out : Option ℕ) (event : Event) (w : World U)
      (ready : IsReady hsm) (n : hsm.current ≢ null) where
    module _ {ps : List Ptr} (path : PathTo hsm.states hsm.global hsm.current ps)
        (short : length ps ≤ suc max_nested_states) where
      best : Option (Transition (World U))
      best = first_enabled event w (candidates path)

      -- The branch without a transition.
      handle-none :
          (result : ℕ)
          → get_best_transition hsm event w ≡ done (none, result)
          → best ≡ none
          → result ≡ last_verdict event w 0 (candidates path)
          → (r : Stepped U) × (handle hsm out event w ≡ done r)
            × Handles hsm out event w (candidates path) r
      unfolding handle best
      handle-none result eq e last = elim (Bool-cases (result == 0)) [
        | inl z ↦ (
          record { result = discarded; guard_result = out; machine = hsm; world = w },
          simp (eq, z) refl,
          discards e (ground (arith, last_verdict-eq-zero event w (candidates path) 0 e)),
        )
        | inr z ↦ (
          record {
            result = guard_failed;
            guard_result = report (last_verdict event w 0 (candidates path)) out;
            machine = hsm;
            world = w;
          },
          simp (eq, z)
              (ap
                (λ k. done (record {
                  result = guard_failed;
                  guard_result = report k out;
                  machine = hsm;
                  world = w;
                }))
                last),
          refuses e (ground (arith, last_verdict-eq-zero event w (candidates path) 0 e)),
        )
      ]

      handle-some :
          (t : Transition (World U)) (result : ℕ)
          → get_best_transition hsm event w ≡ done (some t, result)
          → best ≡ some t
          → (r : Stepped U) × (handle hsm out event w ≡ done r)
            × Handles hsm out event w (candidates path) r
      unfolding handle best
      handle-some t result eq e =
          let leaf = ready.resting n in
          let (away, target) =
            first_enabled-All (HasTarget hsm.states hsm.global) event w (candidates path)
              (candidates-All (HasTarget hsm.states hsm.global) ready.tree.targets path) e in
          let (s, at) = target in
          let (ds, path', short') = ready.tree.path t.to_state s at in
          let m =
            do_transition-Moved hsm t event w ready.tree path path' short short' leaf.not_global
              (s, at) in
          elim (eq-cases t.to_state hsm.current) [
            | inl same ↦ (
              record {
                result = ok;
                guard_result = out;
                machine = hsm;
                world = stayed t leaf.state event w;
              },
              simp
                  (
                    eq,
                    same,
                    ==_refl hsm.current,
                    do_self_transition-eq hsm t event w leaf.state leaf.at,
                  )
                  refl,
              stays t leaf.state e same leaf.at,
            )
            | inr other ↦ (
              record {
                result = ok;
                guard_result = out;
                machine = record hsm { current = m.leaf };
                world = enter_all m.entered (moved hsm t event w ps ds);
              },
              simp (eq, ne→==_false t.to_state hsm.current other, m.result) refl,
              moves t e other path path' m.initials m.is_leaf,
            )
          ]

      handle-Handles :
          (r : Stepped U) × (handle hsm out event w ≡ done r)
          × Handles hsm out event w (candidates path) r
      unfolding best
      handle-Handles =
          let (result, eq, last) = get_best_transition-first event w hsm path n short in
          go result eq last best refl
        where
          go :
              (result : ℕ)
              → get_best_transition hsm event w ≡ done (best, result)
              → (best ≡ none → result ≡ last_verdict event w 0 (candidates path))
              → (o : Option (Transition (World U))) → best ≡ o
              → (r : Stepped U) × (handle hsm out event w ≡ done r)
                × Handles hsm out event w (candidates path) r
          go result eq last none e =
              handle-none result (eq ∙ ap (λ o. done (o, result)) e) e (last e)
          go result eq last (some t) e = handle-some t result (eq ∙ ap (λ o. done (o, result)) e) e

module _ {U : Type 0} (hsm : Hsm (World U)) (out : Option ℕ) (w : World U) {buffer : List ℕ}
    (ready : IsReady hsm) (q : IsQueue w buffer) where
  -- The step of a machine that rests at a state which is not final.
  step_pop :
      (n : hsm.current ≢ null)
      → has_flag (ready.resting n).state.flags ≡ false
      → (items : List Item) → contents w.queue buffer ≡ items
      → Taken w.queue buffer items
      → (r : Stepped U) × (step (some hsm) out w ≡ done r) × Steps hsm out w buffer r
  unfolding step
  step_pop n f [] e (nothing pop) =
      let leaf = ready.resting n in
      (
        record { result = empty; guard_result = out; machine = hsm; world = w },
        simp (ne→==_false hsm.current null n, leaf.at, f, pop) refl,
        idles leaf.state leaf.at f e,
      )
  step_pop n f (x ∷ rest) e (oldest queue pop v size left) =
      let leaf = ready.resting n in
      let (ps, path, short) = ready.tree.path hsm.current leaf.state leaf.at in
      let (r, eq, h) =
        handle-Handles hsm out (event_of_bytes x) (record w { queue = queue }) ready n path short in
      (
        r,
        simp (ne→==_false hsm.current null n, leaf.at, f, pop) eq,
        handles leaf.state x leaf.at f e v size left path h,
      )

  -- A step of a ready machine, with a valid queue of events, returns (it neither panics, nor
  -- reads outside its memory, nor loops), and what it returns and leaves is one of the steps of
  -- the relation `Steps`: the start at the initial leaf, the end in a final state, the wait on
  -- an empty queue, or the handling of the oldest event, which is discarded, refused by the
  -- guards, or makes the innermost enabled transition.
  pub step_refines : (r : Stepped U) × (step (some hsm) out w ≡ done r) × Steps hsm out w buffer r
  unfolding step
  step_refines = elim (eq-cases hsm.current null) [
    | inl start ↦
        let (entered, leaf, initials, ends', is_leaf) =
          descend-IsLeaf hsm hsm.global ready.tree.root w ready.tree ready.tree.root_at in
        (
          record {
            result = ok;
            guard_result = out;
            machine = record hsm { current = leaf };
            world = enter_all entered w;
          },
          simp (start, ends') refl,
          starts start initials is_leaf,
        )
    | inr n ↦
        let leaf = ready.resting n in
        elim (Bool-cases (has_flag leaf.state.flags)) [
          | inl final ↦ (
            record { result = terminated; guard_result = out; machine = hsm; world = w },
            simp (ne→==_false hsm.current null n, leaf.at, final) refl,
            ends leaf.state leaf.at final,
          )
          | inr f ↦ step_pop n f (contents w.queue buffer) refl (pop_event q.valid q.events)
        ]
  ]
