-- ===== src/Rthsm/Setup/Passes.antt =====
-- The passes of `RTHsmInit`, one by one: what each establishes at every state.
use rtsys.Base.{
  ℕ, zero, suc, ◌+◌, ◌≤◌, ◌≡◌, refl, sym, ap, ◌∙◌, ◌≢◌, inl, inr, true, not, Option, none, some,
  List, [], ◌∷◌, arith, ◌==◌, length, Outcome, done, ne→==_false, ==→eq, eq-cases, Bool-cases,
  ◌>>=◌, get_elem?, >>=-eq-done, assert, assert-eq-done, done-injective, some_cancel,
}
use mathlib.Core.Path.{subst}
use rtsys.Rthsm.Types.{Ptr, null, max_nested_states, null_state_id, Transition, State, deref}
use rtsys.Rthsm.Tree.{PathTo, All, HasTarget, top, up}
use rtsys.Rthsm.Setup.{
  lookup_from, lookup_state_from_id, belongs_to_global, check_state, check_initial, check_hierarchy,
  link_transition, link_transitions, link_all,
}

pub assert_ne : (a b : ℕ) {u : Unit {0}} → assert (not (a == b)) ≡ done u → a ≢ b
assert_ne a b h = ground arith

module _ {W : Type 0} where
  -- A pointer to a state is the index of the state, and one.
  pub deref-index :
      (states : List (State W)) (p : Ptr) {s : State W}
      → deref states p ≡ done s
      → (k : ℕ) × (p ≡ suc k) × (get_elem? states k ≡ some s)
  unfolding deref
  deref-index states zero {s} e = absurd (cc)
  deref-index states (suc k) {s} e = (k, refl, go (get_elem? states k) refl e)
    where
      go :
          (o : Option (State W))
          → get_elem? states k ≡ o
          → (elim o [ none ↦ Outcome.fault | some s ↦ done s ]) ≡ done s
          → get_elem? states k ≡ some s
      go none h f = absurd (cc)
      go (some t) h f = h ∙ ap some (done-injective f)

  pub index-deref :
      (states : List (State W)) (k : ℕ) {s : State W}
      → get_elem? states k ≡ some s
      → deref states (suc k) ≡ done s
  unfolding deref
  index-deref states k e = rw (e, deref)

  -- A state that a lookup finds has the id that was looked for.
  pub lookup_from-found :
      (states : List (State W)) (i id : ℕ)
      → lookup_from states i id ≢ null
      → (k : ℕ) × (s : State W) × (lookup_from states i id ≡ suc (i + k))
        × (get_elem? states k ≡ some s)
        × (s.id ≡ id)
  unfolding lookup_from
  lookup_from-found [] i id n = absurd (n refl)
  lookup_from-found (s ∷ states) i id n = elim (Bool-cases (s.id == id)) [
    | inl e ↦ (0, s, rw e (omega arith), refl, ==→eq s.id id e)
    | inr e ↦
        let skip : lookup_from (s ∷ states) i id ≡ lookup_from states (i + 1) id = rw e in
        let (k, t, at, found, same) = lookup_from-found states (i + 1) id (λ h. n (skip ∙ h)) in
        (suc k, t, skip ∙ at ∙ omega arith, found, same)
  ]

  pub check_hierarchy-at :
      (states : List (State W)) (global p : Ptr) (i : ℕ) (rest : List (State W)) (k : ℕ)
      {s : State W}
      → check_hierarchy states global i rest ≡ done tt
      → get_elem? rest k ≡ some s
      → p ≡ suc (i + k)
      → check_state states global p s ≡ done tt
  unfolding check_hierarchy
  check_hierarchy-at states global p i [] k e f q = absurd (cc)
  check_hierarchy-at states global p i (t ∷ rest) zero {s} e f q =
      let (u, here, later) = >>=-eq-done (check_state states global (suc i) t) _ e in
      ap (check_state states global p) (some_cancel (sym f))
      ∙ ap (λ j. check_state states global j t) {x = p} {y = suc i} (omega arith)
      ∙ here
  check_hierarchy-at states global p i (t ∷ rest) (suc k) {s} e f q =
      let (u, here, later) = >>=-eq-done (check_state states global (suc i) t) _ e in
      check_hierarchy-at states global p (i + 1) rest k later f (omega arith)

  -- A state that the climb connects to the global one has a path to it, as long as the climb.
  belongs-PathTo :
      (states : List (State W)) (global : Ptr) (rounds : ℕ) (p : Ptr)
      → belongs_to_global states global rounds p ≡ done true
      → p ≢ global
      → (ps : List Ptr) × PathTo states global p ps × (length ps ≤ suc rounds)
  unfolding belongs_to_global
  belongs-PathTo states global zero p e n = absurd (cc)
  belongs-PathTo states global (suc rounds) p e n =
      let (s, at, more) = >>=-eq-done (deref states p) _ e in
      elim (eq-cases s.parent global) [
        | inl root ↦ (p ∷ s.parent ∷ [], up s n at refl (top root), omega arith)
        | inr inner ↦
            let (ps, path, short) =
              belongs-PathTo states global rounds s.parent
                (rw (ne→==_false s.parent global inner) at more) inner in
            (p ∷ ps, up s n at refl path, omega arith)
      ]

  -- What the check of one state establishes.
  pub check_state-child :
      (states : List (State W)) (global p : Ptr) (s : State W)
      → check_state states global p s ≡ done tt
      → s.initial ≢ null
      → (t : State W) × (deref states s.initial ≡ done t) × (t.parent ≡ p)
  unfolding check_state
  check_state-child states global p s e n =
      let (u, first, second) = >>=-eq-done (check_initial states p s) _ e in
      let checked : (deref states s.initial >>= λ t. assert (t.parent == p)) ≡ done u =
        rw (ne→==_false s.initial null n) at first in
      let (t, at, same) = >>=-eq-done (deref states s.initial) _ checked in
      (t, at, ==→eq t.parent p (assert-eq-done (t.parent == p) same))

  pub check_state-path :
      (states : List (State W)) (global p : Ptr) (s : State W)
      → check_state states global p s ≡ done tt
      → (ps : List Ptr) × PathTo states global p ps × (length ps ≤ suc max_nested_states)
  unfolding check_state
  check_state-path states global p s e = elim (eq-cases p global) [
    | inl root ↦ (p ∷ [], top root, omega arith)
    | inr inner ↦
        let (u, first, second) = >>=-eq-done (check_initial states p s) _ e in
        let climbed : (belongs_to_global states global max_nested_states p >>= assert) ≡ done tt =
          rw (ne→==_false p global inner) at second in
        let (b, found, yes') =
          >>=-eq-done (belongs_to_global states global max_nested_states p) _ climbed in
        belongs-PathTo states global max_nested_states p (found ∙ ap done (assert-eq-done b yes'))
          inner
  ]

  -- The state with the transitions that the last pass gives it.
  pub record Final (states : List (State W)) (global : Ptr) (s s' : State W) : Type 0 where
    pub transitions : List (Transition W)
    pub linked : link_transitions states global s.transitions ≡ done transitions
    pub same : s' ≡ record s { transitions = transitions }

  link_all-cons :
      (states : List (State W)) (global : Ptr) (t : State W) (rest : List (State W))
      {final : List (State W)}
      → link_all states global (t ∷ rest) ≡ done final
      → (t' : State W) × (rest' : List (State W)) × Final states global t t'
        × (link_all states global rest ≡ done rest')
        × (final ≡ t' ∷ rest')
  unfolding link_all
  link_all-cons states global t rest e =
      let (ts, linked, later) = >>=-eq-done (link_transitions states global t.transitions) _ e in
      let (rest', others, built) = >>=-eq-done (link_all states global rest) _ later in
      (
        record t { transitions = ts },
        rest',
        record { transitions = ts; linked = linked; same = refl },
        others,
        sym (done-injective built),
      )

  -- The last pass fills in transitions and nothing else, state by state.
  pub link_all-at :
      (states : List (State W)) (global : Ptr) (rest : List (State W)) (k : ℕ)
      {final : List (State W)} {s : State W}
      → link_all states global rest ≡ done final
      → get_elem? rest k ≡ some s
      → (s' : State W) × Final states global s s' × (get_elem? final k ≡ some s')
  link_all-at states global [] k e f = absurd (cc)
  link_all-at states global (t ∷ rest) zero e f =
      let (t', rest', made, others, built) = link_all-cons states global t rest e in
      (t', subst (λ x. Final states global x t') (some_cancel f) made, rw built)
  link_all-at states global (t ∷ rest) (suc k) e f =
      let (t', rest', made, others, built) = link_all-cons states global t rest e in
      let (s', final', at) = link_all-at states global rest k others f in (s', final', rw built at)

  pub link_all-back :
      (states : List (State W)) (global : Ptr) (rest : List (State W)) (k : ℕ)
      {final : List (State W)} {s' : State W}
      → link_all states global rest ≡ done final
      → get_elem? final k ≡ some s'
      → (s : State W) × Final states global s s' × (get_elem? rest k ≡ some s)
  unfolding link_all
  link_all-back states global [] k e f = absurd (cc (ap (λ l. get_elem? l k) (done-injective e)))
  link_all-back states global (t ∷ rest) zero e f =
      let (t', rest', made, others, built) = link_all-cons states global t rest e in
      (
        t,
        subst (Final states global t) (some_cancel (sym (ap (λ l. get_elem? l 0) built) ∙ f)) made,
        refl,
      )
  link_all-back states global (t ∷ rest) (suc k) e f =
      let (t', rest', made, others, built) = link_all-cons states global t rest e in
      link_all-back states global rest k others (sym (ap (λ l. get_elem? l (suc k)) built) ∙ f)

  -- Every transition gets a destination among the states, which is not the global one.
  link_transition-HasTarget :
      (states : List (State W)) (global : Ptr) (t : Transition W) {t' : Transition W}
      → link_transition states global t ≡ done t'
      → HasTarget states global t'
  unfolding link_transition lookup_state_from_id
  link_transition-HasTarget states global t e =
      let target : Ptr = lookup_from states 0 t.to_state_id in
      let (u, named, e₁) = >>=-eq-done (assert (not (t.to_state_id == null_state_id))) _ e in
      let (u, exists, e₂) = >>=-eq-done (assert (not (target == null))) _ e₁ in
      let (u, below, e₃) = >>=-eq-done (assert (not (target == global))) _ e₂ in
      let (k, s, at, found, same) =
        lookup_from-found states 0 t.to_state_id (assert_ne target null exists) in
      subst (HasTarget states global) (done-injective e₃) (
        assert_ne target global below,
        (s, ap (deref states) (at ∙ ap suc (omega arith)) ∙ index-deref states k found),
      )

  pub link_transitions-All :
      (states : List (State W)) (global : Ptr) (ts : List (Transition W))
      {ts' : List (Transition W)}
      → link_transitions states global ts ≡ done ts'
      → All (HasTarget states global) ts'
  unfolding link_transitions
  link_transitions-All states global [] e =
      subst (All (HasTarget states global)) (done-injective e) tt
  link_transitions-All states global (t ∷ ts) e =
      let (t', here, later) = >>=-eq-done (link_transition states global t) _ e in
      let (ts', others, built) = >>=-eq-done (link_transitions states global ts) _ later in
      subst (All (HasTarget states global)) (done-injective built) (
        link_transition-HasTarget states global t here,
        link_transitions-All states global ts others,
      )
