-- ===== src/Rthsm/Engine/Descend.antt =====
-- `rthsmTraverseToChildmostState`, which enters the initial sub-states down to a leaf.
use rtsys.Base.{
  ℕ, zero, suc, ◌+◌, ◌<◌, ◌≡◌, refl, sym, ap, ◌∙◌, ◌≢◌, inl, inr, List, [], ◌∷◌, arith, length,
  done, done-injective, ne→==_false, eq-cases,
}
use rtsys.Rthsm.Types.{Ptr, null, max_nested_states, State, Hsm, deref}
use rtsys.Rthsm.Tree.{PathTo, up, IsTree, PathTo-unique, PathTo_length, deref-ne}
use rtsys.Rthsm.Engine.{enter, descend, traverse_to_childmost, path_rounds}

module _ {W : Type 0} where
  -- The initial sub-states from `p` down to `leaf`, which has none.
  pub data Initials (states : List (State W)) : Ptr → List (State W) → Ptr → Type 0 where
    leaf :
        {p : Ptr} (s : State W)
        → deref states p ≡ done s
        → s.initial ≡ null
        → Initials states p [] p
    deeper :
        {p q r : Ptr} {ts : List (State W)} (s t : State W)
        → deref states p ≡ done s
        → s.initial ≡ q
        → q ≢ null
        → deref states q ≡ done t
        → Initials states q ts r
        → Initials states p (t ∷ ts) r

  -- The entry actions of states, in order.
  abbrev pub enter_all : List (State W) → W → W
  enter_all [] w = w
  enter_all (s ∷ ss) w = enter_all ss (enter s w)

  pub descend-Initials :
      {states : List (State W)} (rounds : ℕ) {p q : Ptr} {ts : List (State W)}
      → Initials states p ts q
      → length ts < rounds
      → (w : W) → descend states rounds p w ≡ done (q, enter_all ts w)
  unfolding descend
  descend-Initials zero i h w = absurd (omega arith)
  descend-Initials (suc rounds) (leaf s d e) h w = rw (d, e)
  descend-Initials {states} (suc rounds) (deeper {q} s t d e n d' i) h w =
      rw (d, e, ne→==_false q null n, d') (descend-Initials rounds i (omega arith) (enter t w))

  -- A state's initial sub-state stands one level deeper.
  initial_path :
      {states : List (State W)} {global p : Ptr} {ps : List Ptr} (tree : IsTree states global)
      (s : State W)
      → deref states p ≡ done s
      → s.initial ≢ null
      → PathTo states global p ps
      → PathTo states global s.initial (s.initial ∷ ps)
  initial_path {states} {global} {p} tree s d n path =
      let (t, at, parent) = tree.child p s d n in
      up t
        (λ e. deref-ne states p d (
          sym parent
          ∙ ap (λ x. x.parent) (done-injective (sym at ∙ ap (deref states) e ∙ tree.root_at))
          ∙ tree.root_parent))
        at parent path

  -- Below any state the initial sub-states lead to a leaf within the levels that are left.
  pub Initials-exists :
      {states : List (State W)} {global : Ptr} (tree : IsTree states global) (rounds : ℕ) {p : Ptr}
      {ps : List Ptr} (s : State W)
      → deref states p ≡ done s
      → PathTo states global p ps
      → suc max_nested_states < length ps + rounds
      → (ts : List (State W)) × (q : Ptr) × Initials states p ts q × (length ts < rounds)
  Initials-exists tree zero {p} {ps} s d path h =
      let (qs, path', small) = tree.path p s d in
      absurd (omega (arith, ap length (PathTo-unique path path' refl)))
  Initials-exists tree (suc rounds) {p} {ps} s d path h = elim (eq-cases s.initial null) [
    | inl e ↦ ([], p, leaf s d e, omega arith)
    | inr n ↦
        let (t, at, parent) = tree.child p s d n in
        let (ts, q, i, small) =
          Initials-exists tree rounds {p = s.initial} t at (initial_path tree s d n path)
            (omega arith) in
        (t ∷ ts, q, deeper s t d refl n at i, omega arith)
  ]

  -- A leaf is a state without an initial sub-state, on a path to the global state.
  pub record IsLeaf (states : List (State W)) (global : Ptr) (p : Ptr) : Type 0 where
    pub state : State W
    pub at : deref states p ≡ done state
    pub childless : state.initial ≡ null
    pub not_global : p ≢ global

  pub Initials-IsLeaf :
      {states : List (State W)} {global p q : Ptr} {ts : List (State W)}
      (tree : IsTree states global) (s : State W)
      → deref states p ≡ done s
      → Initials states p ts q
      → IsLeaf states global q
  Initials-IsLeaf {states} {global} {p} tree s d (leaf t d' e) = record {
    state = t;
    at = d';
    childless = e;
    not_global = λ h. tree.root_initial (
        ap (λ x. x.initial) (done-injective (sym tree.root_at ∙ ap (deref states) (sym h) ∙ d'))
        ∙ e);
  }
  Initials-IsLeaf tree s d (deeper {q} u t d' e n at i) = Initials-IsLeaf {p = q} tree t at i

  pub descend-IsLeaf :
      (hsm : Hsm W) (p : Ptr) (s : State W) (w : W)
      → IsTree hsm.states hsm.global
      → deref hsm.states p ≡ done s
      → (ts : List (State W)) × (q : Ptr) × Initials hsm.states p ts q
        × (traverse_to_childmost hsm p w ≡ done (q, enter_all ts w))
        × IsLeaf hsm.states hsm.global q
  unfolding traverse_to_childmost
  descend-IsLeaf hsm p s w tree d =
      let (ps, path, small) = tree.path p s d in
      let (ts, q, i, few) =
        Initials-exists tree path_rounds s d path (omega (arith, PathTo_length path)) in
      (
        ts,
        q,
        i,
        rw (ne→==_false p null (deref-ne hsm.states p d)) (descend-Initials path_rounds i few w),
        Initials-IsLeaf tree s d i,
      )
