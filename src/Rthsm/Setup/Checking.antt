-- ===== src/Rthsm/Setup/Checking.antt =====
-- The later loops of `RTHsmInit`: what they assert, and what they fill in.
use rtsys.Base.{
  ℕ, suc, ◌+◌, ◌≤◌, ◌≡◌, ◌≢◌, sym, ap, ◌∙◌, Bool, true, false, not, List, [], ◌∷◌, map, ◌==◌, arith,
  length, done, ◌>>=◌, assert, done-injective,
}
use rtsys.Rthsm.Types.{Ptr, null, null_state_id, max_nested_states, Transition, State, deref}
use rtsys.Rthsm.Tree.{All}
use rtsys.Rthsm.Setup.{
  lookup_state_from_id, belongs_to_global, check_initial, check_nesting, check_state,
  check_hierarchy, link_transition, link_transitions, link_all,
}
use rtsys.Rthsm.Setup.Decides.{
  Decides, accepts, rejects, Decides-map, Decides-bind, Decides-done, Decides-return, Decides-ne,
  Decides-eq, Decides-unless,
}
use rtsys.Rthsm.Setup.Links.{suc-ne, Linked, AllLinked}
use rtsys.Rthsm.Setup.Returns.{deref-Linked, belongs-returns}

module _ {W : Type 0} (states : List (State W)) (global : Ptr) where
  -- What is asserted of a state.
  pub record Fits (self : Ptr) (s : State W) : Type 0 where
    pub back :
        s.initial ≢ null → (t : State W) × (deref states s.initial ≡ done t) × (t.parent ≡ self)
    pub belongs : self ≢ global → belongs_to_global states global max_nested_states self ≡ done true

  abbrev pub AllFit : ℕ → List (State W) → Type 0
  AllFit i [] = Unit
  AllFit i (s ∷ rest) = Fits (suc i) s × AllFit (i + 1) rest

  module _ (linked : AllLinked (length states) global 0 states) where
    check_initial-Decides :
        (self : Ptr) (s : State W)
        → Linked (length states) global self s
        → Decides
            (s.initial ≢ null
              → (t : State W) × (deref states s.initial ≡ done t) × (t.parent ≡ self))
            (check_initial states self s)
            tt
    unfolding check_initial
    check_initial-Decides self s l =
        Decides-unless s.initial null (deref states s.initial >>= λ t. assert (t.parent == self))
          (λ n.
            let (t, e, m) = deref-Linked states global linked s.initial n l.initial_in in
            elim (Decides-eq t.parent self) [
              | accepts p e' ↦ accepts (t, e, p) (simp e e')
              | rejects q e' ↦
                  rejects
                    (λ (u, e₂, p).
                      q (ap (λ (x : State W). x.parent) (done-injective (sym e ∙ e₂)) ∙ p))
                    (simp e e')
            ])

    check_nesting-Decides :
        (self : Ptr)
        → self ≢ null
        → self ≤ length states
        → Decides
            (self ≢ global → belongs_to_global states global max_nested_states self ≡ done true)
            (check_nesting states global self)
            tt
    unfolding check_nesting
    check_nesting-Decides self n h =
        Decides-unless self global
          (belongs_to_global states global max_nested_states self >>= assert)
          (λ other.
            let (b, e) = belongs-returns states global linked max_nested_states self n other h in
            by_answer b e)
      where
        by_answer :
            (b : Bool)
            → belongs_to_global states global max_nested_states self ≡ done b
            → Decides
                (belongs_to_global states global max_nested_states self ≡ done true)
                (belongs_to_global states global max_nested_states self >>= assert)
                tt
        by_answer true e = accepts e (rw e)
        by_answer false e = rejects (λ e'. cc) (rw e)

    check_hierarchy-Decides :
        (i : ℕ) (rest : List (State W))
        → AllLinked (length states) global i rest
        → i + length rest ≤ length states
        → Decides (AllFit i rest) (check_hierarchy states global i rest) tt
    unfolding check_hierarchy check_state
    check_hierarchy-Decides i [] a h = Decides-return tt
    check_hierarchy-Decides i (s ∷ rest) (l, a) h =
        Decides-map (λ ((b, n), f). (record { back = b; belongs = n }, f))
          (λ (x, f). ((x.back, x.belongs), f))
          (Decides-bind (check_state states global (suc i) s)
            (λ u. check_hierarchy states global (i + 1) rest) tt tt
            (Decides-bind (check_initial states (suc i) s)
              (λ u. check_nesting states global (suc i)) tt tt (check_initial-Decides (suc i) s l)
              (λ b. check_nesting-Decides (suc i) (suc-ne i) (omega (arith, h))))
            (λ b. check_hierarchy-Decides (i + 1) rest a (omega (arith, h))))

    pub hierarchy-Decides : Decides (AllFit 0 states) (check_hierarchy states global 0 states) tt
    hierarchy-Decides = check_hierarchy-Decides 0 states linked (omega arith)

  -- What is asserted of a transition.
  pub record Leads (t : Transition W) : Type 0 where
    pub given_id : t.to_state_id ≢ null_state_id
    pub found : lookup_state_from_id states t.to_state_id ≢ null
    pub below : lookup_state_from_id states t.to_state_id ≢ global

  abbrev pub led : Transition W → Transition W
  led t = record t { to_state = lookup_state_from_id states t.to_state_id }

  abbrev pub finished_state : State W → State W
  finished_state s = record s { transitions = map led s.transitions }

  link_transition-Decides :
      (t : Transition W) → Decides (Leads t) (link_transition states global t) (led t)
  unfolding link_transition
  link_transition-Decides t =
      Decides-map (λ (g, (f, (b, u))). record { given_id = g; found = f; below = b })
        (λ l. (l.given_id, (l.found, (l.below, tt))))
        (Decides-bind (assert (not (t.to_state_id == null_state_id))) _ tt (led t)
          (Decides-ne t.to_state_id null_state_id)
          (λ g.
            Decides-bind (assert (not (lookup_state_from_id states t.to_state_id == null))) _ tt
              (led t) (Decides-ne (lookup_state_from_id states t.to_state_id) null)
              (λ f.
                Decides-bind (assert (not (lookup_state_from_id states t.to_state_id == global))) _
                  tt (led t) (Decides-ne (lookup_state_from_id states t.to_state_id) global)
                  (λ b. Decides-return (led t)))))

  link_transitions-Decides :
      (ts : List (Transition W))
      → Decides (All Leads ts) (link_transitions states global ts) (map led ts)
  unfolding link_transitions
  link_transitions-Decides [] = Decides-return []
  link_transitions-Decides (t ∷ ts) =
      Decides-bind (link_transition states global t) _ (led t) (map led (t ∷ ts))
        (link_transition-Decides t)
        (λ l.
          Decides-done (link_transitions states global ts) (λ ts'. led t ∷ ts') (map led ts)
            (link_transitions-Decides ts))

  pub link_all-Decides :
      (rest : List (State W))
      → Decides
          (All (λ (s : State W). All Leads s.transitions) rest)
          (link_all states global rest)
          (map finished_state rest)
  unfolding link_all
  link_all-Decides [] = Decides-return []
  link_all-Decides (s ∷ rest) =
      Decides-bind (link_transitions states global s.transitions) _ (map led s.transitions)
        (map finished_state (s ∷ rest)) (link_transitions-Decides s.transitions)
        (λ l.
          Decides-done (link_all states global rest) (λ rest'. finished_state s ∷ rest')
            (map finished_state rest) (link_all-Decides rest))
