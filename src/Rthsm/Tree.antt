-- ===== src/Rthsm/Tree.antt =====
-- The hierarchy of states as a tree of bounded depth below the global state.
use rtsys.Base.{
  zero, suc, ◌≤◌, ◌<◌, ◌≡◌, sym, ap, ap₂, ◌∙◌, ◌≢◌, Bool, false, List, [], ◌∷◌, ◌||◌, arith, ◌==◌,
  length, done, done-injective,
}
use rtsys.Rthsm.Types.{Ptr, null, max_nested_states, Transition, State, deref}

module _ {W : Type 0} (states : List (State W)) (global : Ptr) where
  -- The states from `p` up to the global one, both included.
  pub data PathTo : Ptr → List Ptr → Type 0 where
    top : {p : Ptr} → p ≡ global → PathTo p (p ∷ [])
    up :
        {p q : Ptr} {ps : List Ptr} (s : State W)
        → p ≢ global
        → deref states p ≡ done s
        → s.parent ≡ q
        → PathTo q ps
        → PathTo p (p ∷ ps)

-- All entries of a list have a property.
abbrev pub All {ℓ κ} : {A : Type ℓ} → (A → Type κ) → List A → Type κ
All P [] = Unit
All P (x ∷ xs) = P x × All P xs

abbrev pub has : Ptr → List Ptr → Bool
has p [] = false
has p (q ∷ qs) = p == q || has p qs

module _ {W : Type 0} where
  -- A pointer to a state.
  abbrev pub Points : List (State W) → Ptr → Type 0
  Points states p = (s : State W) × (deref states p ≡ done s)

  -- A transition leads to a state that is not the global one.
  abbrev pub HasTarget : List (State W) → Ptr → Transition W → Type 0
  HasTarget states global t = (t.to_state ≢ global) × Points states t.to_state

  pub record IsTree (states : List (State W)) (global : Ptr) : Type 0 where
    pub root : State W
    pub root_at : deref states global ≡ done root
    pub root_parent : root.parent ≡ null
    pub root_initial : root.initial ≢ null
    pub path :
        (p : Ptr) (s : State W)
        → deref states p ≡ done s
        → (ps : List Ptr) × PathTo states global p ps × (length ps ≤ suc max_nested_states)
    pub child :
        (p : Ptr) (s : State W)
        → deref states p ≡ done s
        → s.initial ≢ null
        → (t : State W) × (deref states s.initial ≡ done t) × (t.parent ≡ p)
    pub targets :
        (p : Ptr) (s : State W)
        → deref states p ≡ done s
        → All (HasTarget states global) s.transitions

  pub deref-ne :
      (states : List (State W)) (p : Ptr) {s : State W} → deref states p ≡ done s → p ≢ null
  unfolding deref
  deref-ne states zero e = absurd (cc)
  deref-ne states (suc i) e = omega arith

  -- There is one way up from a state.
  pub PathTo-unique :
      {states : List (State W)} {global p q : Ptr} {ps qs : List Ptr}
      → PathTo states global p ps
      → PathTo states global q qs
      → p ≡ q
      → ps ≡ qs
  PathTo-unique (top e) (top f) h = ap (λ x. x ∷ []) h
  PathTo-unique (top e) (up s n d u r) h = absurd (n (sym h ∙ e))
  PathTo-unique (up s n d u r) (top e) h = absurd (n (h ∙ e))
  PathTo-unique {states} (up s n d u r) (up s' n' d' u' r') h = ap₂ ◌∷◌ h (
      PathTo-unique r r'
        (sym u ∙ ap (λ x. x.parent) (done-injective (sym d ∙ ap (deref states) h ∙ d')) ∙ u'))

  pub PathTo_length :
      {states : List (State W)} {global p : Ptr} {ps : List Ptr}
      → PathTo states global p ps
      → 0 < length ps
  PathTo_length (top e) = omega arith
  PathTo_length (up s n d u r) = omega arith
