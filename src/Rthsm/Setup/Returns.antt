-- ===== src/Rthsm/Setup/Returns.antt =====
-- `RTHsmInit` returns or panics, whatever it is given.
use rtsys.Base.{
  ℕ, zero, suc, ◌+◌, ◌≤◌, ◌<◌, ◌≡◌, refl, sym, ◌≢◌, inl, inr, Bool, true, false, not, Option, none,
  some, List, [], ◌∷◌, arith, ◌==◌, ltb, length, Outcome, done, ne→==_false, ==_refl, eq-cases,
  ◌>>=◌, ◌>>◌, get_elem?, assert,
}
use mathlib.Core.Path.{subst}
use rtsys.Rthsm.Types.{Ptr, null, max_nested_states, null_state_id, Transition, State, Hsm, deref}
use rtsys.Rthsm.Setup.{
  lookup_state_from_id, link_states, belongs_to_global, check_state, check_initial, check_nesting,
  check_hierarchy, link_transition, link_transitions, link_all, init,
}
use rtsys.Base.Checked.{Checked, refuses, returns, Checked-bind, Checked-assert}
use rtsys.Rthsm.Setup.Links.{suc-ne, Linked, AllLinked, Links, stops, links, link_states-Links}

module _ {W : Type 0} where
  module _ (states : List (State W)) (global : Ptr)
      (linked : AllLinked (length states) global 0 states) where
    -- A pointer into the array that is not NULL.
    state-at :
        (rest : List (State W)) (i k : ℕ) (p : Ptr)
        → AllLinked (length states) global i rest
        → k < length rest
        → p ≡ suc (i + k)
        → (s : State W) × (get_elem? rest k ≡ some s) × Linked (length states) global p s
    state-at [] i k p a h e = absurd (omega (arith, h))
    state-at (s ∷ rest) i zero p (l, a) h e = (
      s,
      refl,
      subst (λ q. Linked (length states) global q s) {x = suc i} {y = p} (omega (arith, e)) l,
    )
    state-at (s ∷ rest) i (suc k) p (l, a) h e =
        state-at rest (i + 1) k p a (omega (arith, h)) (omega (arith, e))

    pub deref-Linked :
        (p : Ptr)
        → p ≢ null
        → p ≤ length states
        → (s : State W) × (deref states p ≡ done s) × Linked (length states) global p s
    unfolding deref
    deref-Linked zero n h = absurd (n refl)
    deref-Linked (suc k) n h =
        let (s, e, l) = state-at states 0 k (suc k) linked (omega (arith, h)) (omega arith) in
        (s, rw (e, deref) refl, l)

    pub belongs-returns :
        (rounds : ℕ) (iter : Ptr)
        → iter ≢ null
        → iter ≢ global
        → iter ≤ length states
        → (b : Bool) × (belongs_to_global states global rounds iter ≡ done b)
    unfolding belongs_to_global
    belongs-returns zero iter n g h = (false, refl)
    belongs-returns (suc rounds) iter n g h =
        let (s, e, l) = deref-Linked iter n h in
        elim (eq-cases s.parent global) [
          | inl up ↦ (true, simp (e, up, ==_refl global) refl)
          | inr other ↦
              let (b, later) =
                belongs-returns rounds s.parent (λ z. g (l.rooted z)) other l.parent_in in
              (b, simp (e, ne→==_false s.parent global other) later)
        ]

    check_state-Checked :
        (self : Ptr) (s : State W)
        → self ≢ null
        → self ≤ length states
        → Linked (length states) global self s
        → Checked (check_state states global self s)
    unfolding check_state check_initial check_nesting
    check_state-Checked self s n h l =
        Checked-bind (check_initial states self s) (λ u. check_nesting states global self) initial
          (λ u e. nesting)
      where
        initial : Checked (check_initial states self s)
        initial = elim (eq-cases s.initial null) [
          | inl none' ↦ returns tt (simp none' refl)
          | inr some' ↦
              let (t, e, m) = deref-Linked s.initial some' l.initial_in in
              elim (Checked-assert (t.parent == self)) [
                | refuses e' ↦ refuses (simp (ne→==_false s.initial null some', e) e')
                | returns u e' ↦ returns u (simp (ne→==_false s.initial null some', e) e')
              ]
        ]

        nesting : Checked (check_nesting states global self)
        nesting = elim (eq-cases self global) [
          | inl same ↦ returns tt (simp (same, ==_refl global) refl)
          | inr other ↦
              let (b, e) = belongs-returns max_nested_states self n other h in
              elim (Checked-assert b) [
                | refuses e' ↦ refuses (simp (ne→==_false self global other, e) e')
                | returns u e' ↦ returns u (simp (ne→==_false self global other, e) e')
              ]
        ]

    check_hierarchy-Checked :
        (i : ℕ) (rest : List (State W))
        → AllLinked (length states) global i rest
        → i + length rest ≤ length states
        → Checked (check_hierarchy states global i rest)
    unfolding check_hierarchy
    check_hierarchy-Checked i [] a h = returns tt refl
    check_hierarchy-Checked i (s ∷ rest) (l, a) h =
        Checked-bind (check_state states global (suc i) s)
          (λ u. check_hierarchy states global (i + 1) rest)
          (check_state-Checked (suc i) s (suc-ne i) (omega (arith, h)) l)
          (λ u e. check_hierarchy-Checked (i + 1) rest a (omega (arith, h)))

    link_transition-Checked : (t : Transition W) → Checked (link_transition states global t)
    unfolding link_transition
    link_transition-Checked t =
        Checked-bind (assert (not (t.to_state_id == null_state_id))) _
          (Checked-assert (not (t.to_state_id == null_state_id)))
          (λ u e.
            Checked-bind (assert (not (lookup_state_from_id states t.to_state_id == null))) _
              (Checked-assert (not (lookup_state_from_id states t.to_state_id == null)))
              (λ u' e'.
                Checked-bind (assert (not (lookup_state_from_id states t.to_state_id == global))) _
                  (Checked-assert (not (lookup_state_from_id states t.to_state_id == global)))
                  (λ u'' e''.
                    returns (record t { to_state = lookup_state_from_id states t.to_state_id })
                      refl)))

    link_transitions-Checked :
        (ts : List (Transition W)) → Checked (link_transitions states global ts)
    unfolding link_transitions
    link_transitions-Checked [] = returns [] refl
    link_transitions-Checked (t ∷ ts) =
        Checked-bind (link_transition states global t) _ (link_transition-Checked t) (λ t' e.
          Checked-bind (link_transitions states global ts) _ (link_transitions-Checked ts)
            (λ ts' e'. returns (t' ∷ ts') refl))

    link_all-Checked : (rest : List (State W)) → Checked (link_all states global rest)
    unfolding link_all
    link_all-Checked [] = returns [] refl
    link_all-Checked (s ∷ rest) =
        Checked-bind (link_transitions states global s.transitions) _
          (link_transitions-Checked s.transitions)
          (λ ts e.
            Checked-bind (link_all states global rest) _ (link_all-Checked rest)
              (λ rest' e'. returns (record s { transitions = ts } ∷ rest') refl))

  -- What follows the check of the global state.
  abbrev pub last_passes : List (State W) → Ptr → Outcome (Hsm W)
  last_passes linked global = do
    check_hierarchy linked global 0 linked
    final ← link_all linked global linked
    done (record { states = final; global = global; current = null })

  -- What follows the first loop.
  abbrev pub passes : List (State W) → Ptr → Outcome (Hsm W)
  passes linked global = do
    assert (not (global == null))
    top ← deref linked global
    assert (not (top.initial == null))
    assert (length top.transitions == 0)
    last_passes linked global

  last_passes-Checked :
      (linked : List (State W)) (global : Ptr)
      → AllLinked (length linked) global 0 linked
      → Checked (last_passes linked global)
  last_passes-Checked linked global a =
      Checked-bind (check_hierarchy linked global 0 linked) _
        (check_hierarchy-Checked linked global a 0 linked a (omega arith))
        (λ u e.
          Checked-bind (link_all linked global linked) _ (link_all-Checked linked global a linked)
            (λ final e'. returns (record { states = final; global = global; current = null }) refl))

  passes-Checked :
      (linked : List (State W)) (global : Ptr)
      → AllLinked (length linked) global 0 linked
      → global ≤ length linked
      → Checked (passes linked global)
  passes-Checked linked global a h = elim (eq-cases global null) [
    | inl none' ↦ refuses (simp none' refl)
    | inr some' ↦
        let (top, e, l) = deref-Linked linked global a global some' h in
        elim (top_checks top) [
          | refuses e' ↦ refuses (simp (ne→==_false global null some', e) e')
          | returns r e' ↦ returns r (simp (ne→==_false global null some', e) e')
        ]
  ]
    where
      top_checks :
          (top : State W)
          → Checked (
              assert (not (top.initial == null))
              >> (assert (length top.transitions == 0) >> last_passes linked global))
      top_checks top =
          Checked-bind (assert (not (top.initial == null))) _
            (Checked-assert (not (top.initial == null)))
            (λ u e.
              Checked-bind (assert (length top.transitions == 0)) _
                (Checked-assert (length top.transitions == 0))
                (λ u' e'. last_passes-Checked linked global a))

  -- Whatever `RTHsmInit` is given, it returns or an assertion fails: it never follows NULL or a
  -- pointer out of the array of states, nor climbs longer than its bound.
  pub init-Checked :
      (hsm : Option (Hsm W)) (states : Option (List (State W))) (has_queue : Bool)
      → Checked (init hsm states has_queue)
  unfolding init
  init-Checked none states has_queue = refuses refl
  init-Checked (some raw) none has_queue = refuses refl
  init-Checked (some raw) (some given) has_queue =
      Checked-bind (assert (ltb 0 (length given))) _ (Checked-assert (ltb 0 (length given))) (λ u e.
        Checked-bind (assert has_queue) _ (Checked-assert has_queue)
          (λ u' e'. by_links (link_states-Links given null 0 given (omega arith) (omega arith))))
    where
      by_links :
          Links given null 0 given
          → Checked
              (link_states given null 0 given >>= λ (p : List (State W) × Ptr). passes p.0 p.1)
      by_links (stops e) = refuses (simp e refl)
      by_links (links linked found e all size inside same) =
          elim (passes-Checked linked found
            (subst (λ n. AllLinked n found 0 linked) {x = length given} {y = length linked}
              (sym size) all)
            (omega (arith, size, inside))) [
              | refuses e' ↦ refuses (simp e e')
              | returns r e' ↦ returns r (simp e e')
            ]
