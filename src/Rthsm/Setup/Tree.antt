-- ===== src/Rthsm/Setup/Tree.antt =====
-- The facts that the passes of `RTHsmInit` check, put together.
use rtsys.Base.{
  ℕ, suc, ◌+◌, ◌≡◌, refl, sym, ap, ◌∙◌, ◌≢◌, ◌⊎◌, inl, inr, Bool, not, some, List, [], ◌∷◌, arith,
  ◌==◌, length, done, get_elem?, >>=-eq-done, assert, done-injective, ltb,
}
use mathlib.Core.Path.{subst}
use rtsys.Rthsm.Types.{Ptr, null, Transition, State, Hsm, deref}
use rtsys.Rthsm.Tree.{PathTo, IsTree, All, HasTarget, top, up}
use rtsys.Rthsm.Setup.{
  check_unique, link_parent, link_initial, link_states, check_state, check_hierarchy, link_all,
  init,
}
use rtsys.Rthsm.Setup.Passes.{
  assert_ne, deref-index, index-deref, check_hierarchy-at, check_state-child, check_state-path,
  Final, link_all-at, link_all-back, link_transitions-All,
}

module _ {W : Type 0} where
  module _ (linked final : List (State W)) (global : Ptr)
      (e : link_all linked global linked ≡ done final) where
    -- The pointers lead to the same states after the last pass as before it.
    deref-link_all :
        (p : Ptr) {s : State W}
        → deref linked p ≡ done s
        → (s' : State W) × Final linked global s s' × (deref final p ≡ done s')
    deref-link_all p at =
        let (k, q, found) = deref-index linked p at in
        let (s', made, found') = link_all-at linked global linked k e found in
        (s', made, ap (deref final) q ∙ index-deref final k found')

    deref-linked :
        (p : Ptr) {s' : State W}
        → deref final p ≡ done s'
        → (s : State W) × Final linked global s s' × (deref linked p ≡ done s)
    deref-linked p at =
        let (k, q, found) = deref-index final p at in
        let (s, made, found') = link_all-back linked global linked k e found in
        (s, made, ap (deref linked) q ∙ index-deref linked k found')

    PathTo-final : {p : Ptr} {ps : List Ptr} → PathTo linked global p ps → PathTo final global p ps
    PathTo-final (top r) = top r
    PathTo-final (up {p} s n at u path) =
        let (s', made, at') = deref-link_all p at in
        up s' n at' (ap (λ x. x.parent) made.same ∙ u) (PathTo-final path)

    HasTarget-final :
        (ts : List (Transition W))
        → All (HasTarget linked global) ts
        → All (HasTarget final global) ts
    HasTarget-final [] h = tt
    HasTarget-final (t ∷ ts) ((away, (s, at)), h) =
        let (s', made, at') = deref-link_all t.to_state at in
        ((away, (s', at')), HasTarget-final ts h)

    -- The three checks make a tree, which the last pass keeps.
    checked-IsTree :
        (root : State W)
        → deref linked global ≡ done root
        → root.parent ≡ null
        → root.initial ≢ null
        → check_hierarchy linked global 0 linked ≡ done tt
        → IsTree final global
    checked-IsTree root at orphan started checked =
        let (root', made, at') = deref-link_all global at in
        record {
          root = root';
          root_at = at';
          root_parent = ap (λ x. x.parent) made.same ∙ orphan;
          root_initial = λ h. started (sym (ap (λ x. x.initial) made.same) ∙ h);
          path = λ p s' d.
              let (s, m, d') = deref-linked p d in
              let (ps, path, short) = check_state-path linked global p s (check p s d') in
              (ps, PathTo-final path, short);
          child = λ p s' d n.
              let (s, m, d') = deref-linked p d in
              let same = ap (λ x. x.initial) m.same in
              let (t, found, parent) =
                check_state-child linked global p s (check p s d') (λ h. n (same ∙ h)) in
              let (t', m', found') = deref-link_all s.initial found in
              (t', ap (deref final) same ∙ found', ap (λ x. x.parent) m'.same ∙ parent);
          targets = λ p s' d.
              let (s, m, d') = deref-linked p d in
              subst (λ x. All (HasTarget final global) x.transitions) (sym m.same)
                (HasTarget-final m.transitions
                  (link_transitions-All linked global s.transitions m.linked));
        }
      where
        check :
            (p : Ptr) (s : State W)
            → deref linked p ≡ done s
            → check_state linked global p s ≡ done tt
        check p s d =
            let (k, q, found) = deref-index linked p d in
            check_hierarchy-at linked global p 0 linked k checked found (omega arith)

  -- What the first pass does at one state.
  record Linked (states : List (State W)) (g : Ptr) (i : ℕ) (s : State W)
      (rest linked : List (State W)) (global : Ptr) : Type 0 where
    g' : Ptr
    parent : Ptr
    initial : Ptr
    others : List (State W)
    parent_linked : link_parent states g (suc i) s ≡ done (g', parent)
    others_linked : link_states states g' (i + 1) rest ≡ done (others, global)
    built : linked ≡ record s { parent = parent; initial = initial } ∷ others

  link_states-Linked :
      (states : List (State W)) (g : Ptr) (i : ℕ) (s : State W) (rest : List (State W))
      {linked : List (State W)} {global : Ptr}
      → link_states states g i (s ∷ rest) ≡ done (linked, global)
      → Linked states g i s rest linked global
  unfolding link_states
  link_states-Linked states g i s rest e =
      let (u, unique, e₁) = >>=-eq-done (check_unique s.id rest) _ e in
      let (gp, found, e₂) = >>=-eq-done (link_parent states g (suc i) s) _ e₁ in
      let (start, started, e₃) = >>=-eq-done (link_initial states s) _ e₂ in
      let (lf, later, e₄) = >>=-eq-done (link_states states gp.0 (i + 1) rest) _ e₃ in
      record {
        g' = gp.0;
        parent = gp.1;
        initial = start;
        others = lf.0;
        parent_linked = found;
        others_linked = later ∙ ap (λ x. done (lf.0, x)) (ap (λ r. r.1) (done-injective e₄));
        built = ap (λ r. r.0) (sym (done-injective e₄));
      }

  link_parent-global :
      (states : List (State W)) (g self : Ptr) (s : State W) {g' p : Ptr}
      → link_parent states g self s ≡ done (g', p)
      → (g' ≡ g) ⊎ ((g' ≡ self) × (p ≡ null))
  unfolding link_parent
  link_parent-global states g self s e = ground arith

  -- The global state that the first pass finds has no parent.
  link_states-root :
      (states : List (State W)) (g : Ptr) (i : ℕ) (rest : List (State W)) {linked : List (State W)}
      {global : Ptr}
      → link_states states g i rest ≡ done (linked, global)
      → (global ≡ g)
        ⊎ ((k : ℕ) × (s : State W) × (global ≡ suc (i + k))
            × (get_elem? linked k ≡ some s)
            × (s.parent ≡ null))
  unfolding link_states
  link_states-root states g i [] e = inl (ap (λ r. r.1) (sym (done-injective e)))
  link_states-root states g i (s ∷ rest) {linked} {global} e =
      let l = link_states-Linked states g i s rest e in
      elim (link_states-root states l.g' (i + 1) rest l.others_linked) [
        | inr (k, t, at, found, orphan) ↦
            inr (suc k, t, omega arith, ap (λ x. get_elem? x (suc k)) l.built ∙ found, orphan)
        | inl same ↦ elim (link_parent-global states g (suc i) s l.parent_linked) [
          | inl old ↦ inl (same ∙ old)
          | inr (new, orphan) ↦ inr (
            0,
            record s { parent = l.parent; initial = l.initial },
            omega arith,
            ap (λ x. get_elem? x 0) l.built,
            orphan,
          )
        ]
      ]

  -- When `RTHsmInit` returns, the states form a tree below the global state: every state
  -- reaches it by at most three parents, every initial sub-state has the right parent, every
  -- transition leads to a state other than the global one; and the machine is not started.
  pub init-IsTree :
      (raw : Hsm W) (given : List (State W)) (has_queue : Bool) {hsm : Hsm W}
      → init (some raw) (some given) has_queue ≡ done hsm
      → IsTree hsm.states hsm.global × (hsm.current ≡ null)
  unfolding init
  init-IsTree raw given has_queue {hsm} e =
      let (u, e₀, r₁) = >>=-eq-done (assert (ltb 0 (length given))) _ e in
      let (u, e₁, r₂) = >>=-eq-done (assert has_queue) _ r₁ in
      let (lg, linked, r₃) = >>=-eq-done (link_states given null 0 given) _ r₂ in
      let (u, some_global, r₄) = >>=-eq-done (assert (not (lg.1 == null))) _ r₃ in
      let (root, at, r₅) = >>=-eq-done (deref lg.0 lg.1) _ r₄ in
      let (u, started, r₆) = >>=-eq-done (assert (not (root.initial == null))) _ r₅ in
      let (u, e₆, r₇) = >>=-eq-done (assert (length root.transitions == 0)) _ r₆ in
      let (u, checked, r₈) = >>=-eq-done (check_hierarchy lg.0 lg.1 0 lg.0) _ r₇ in
      let (final, last, r₉) = >>=-eq-done (link_all lg.0 lg.1 lg.0) _ r₈ in
      subst (λ (h : Hsm W). IsTree h.states h.global × (h.current ≡ null)) (done-injective r₉)
        (
          checked-IsTree lg.0 final lg.1 last root at
              (orphan lg linked root (assert_ne lg.1 null some_global) at)
              (assert_ne root.initial null started) checked,
          refl,
        )
    where
      orphan :
          (lg : List (State W) × Ptr)
          → link_states given null 0 given ≡ done lg
          → (root : State W) → lg.1 ≢ null
          → deref lg.0 lg.1 ≡ done root
          → root.parent ≡ null
      orphan lg linked root n at =
          elim (link_states-root given null 0 given {linked = lg.0} {global = lg.1} linked) [
            | inl e' ↦ absurd (n e')
            | inr (k, s, at', found, no_parent) ↦
                ap (λ x. x.parent)
                  (done-injective (
                    sym at
                    ∙ ap (deref lg.0) (at' ∙ ap suc (omega arith))
                    ∙ index-deref lg.0 k found))
                ∙ no_parent
          ]
