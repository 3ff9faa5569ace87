-- ===== src/Rthsm/Setup/Links.antt =====
-- The first loop of `RTHsmInit`: the pointers that it fills in stay in the array.
use rtsys.Base.{
  ℕ, suc, ◌+◌, ◌≤◌, ◌≡◌, refl, sym, ap, ◌∙◌, ◌≢◌, inl, inr, not, List, [], ◌∷◌, arith, ◌==◌, length,
  done, panic, ne→==_false, eq-cases, Bool-cases, assert,
}
use rtsys.Rthsm.Types.{Ptr, null, null_state_id, State}
use rtsys.Rthsm.Setup.{
  lookup_from, lookup_state_from_id, check_unique, link_parent, link_initial, link_states,
}
use rtsys.Base.Checked.{Checked, refuses, returns, Checked-bind, Checked-assert}

pub suc-ne : (i : ℕ) → suc i ≢ null
suc-ne i e = absurd (omega (arith, e))

module _ {W : Type 0} where
  lookup_from-le :
      (states : List (State W)) (i id : ℕ) → lookup_from states i id ≤ i + length states
  unfolding lookup_from
  lookup_from-le [] i id = omega arith
  lookup_from-le (s ∷ states) i id = elim (Bool-cases (s.id == id)) [
    | inl e ↦ rw e (omega arith)
    | inr e ↦ rw e (omega (arith, lookup_from-le states (i + 1) id))
  ]

  lookup-le : (states : List (State W)) (id : ℕ) → lookup_state_from_id states id ≤ length states
  unfolding lookup_state_from_id
  lookup-le states id = omega (arith, lookup_from-le states 0 id)

  check_unique-Checked : (id : ℕ) (states : List (State W)) → Checked (check_unique id states)
  unfolding check_unique
  check_unique-Checked id [] = returns tt refl
  check_unique-Checked id (s ∷ states) =
      Checked-bind (assert (not (s.id == id))) (λ u. check_unique id states)
        (Checked-assert (not (s.id == id))) (λ u e. check_unique-Checked id states)

  -- The pointers of a state are NULL or in the array; only the global state has no parent.
  pub record Linked (n : ℕ) (global self : Ptr) (s : State W) : Type 0 where
    pub initial_in : s.initial ≤ n
    pub parent_in : s.parent ≤ n
    pub rooted : s.parent ≡ null → self ≡ global

  abbrev pub AllLinked : ℕ → Ptr → ℕ → List (State W) → Type 0
  AllLinked n global i [] = Unit
  AllLinked n global i (s ∷ rest) = Linked n global (suc i) s × AllLinked n global (i + 1) rest

  -- How the parent of a state is found.
  data ParentLink (states : List (State W)) (global self : Ptr) (s : State W) : Type 0 where
    orphan : link_parent states global self s ≡ panic → ParentLink states global self s
    child :
        (global' parent : Ptr)
        → link_parent states global self s ≡ done (global', parent)
        → parent ≤ length states
        → global' ≤ length states
        → (global ≢ null → global' ≡ global)
        → (parent ≡ null → global' ≡ self)
        → ParentLink states global self s

  link_parent-ParentLink :
      (states : List (State W)) (global self : Ptr) (s : State W)
      → global ≤ length states
      → self ≤ length states
      → ParentLink states global self s
  unfolding link_parent
  link_parent-ParentLink states global self s g h =
      elim (Bool-cases (s.parent_id == null_state_id)) [
        | inl e ↦ elim (eq-cases global null) [
          | inl fresh ↦
              child self null (simp (e, fresh) refl) (omega arith) h (λ n. absurd (n fresh))
                (λ z. refl)
          | inr taken ↦ orphan (simp (e, ne→==_false global null taken) refl)
        ]
        | inr e ↦ elim (eq-cases (lookup_state_from_id states s.parent_id) null) [
          | inl missing ↦ orphan (simp (e, missing) refl)
          | inr found ↦
              child global (lookup_state_from_id states s.parent_id)
                (simp (e, ne→==_false (lookup_state_from_id states s.parent_id) null found) refl)
                (lookup-le states s.parent_id) g (λ n. refl) (λ z. absurd (found z))
        ]
      ]

  -- How the initial sub-state is found.
  data InitialLink (states : List (State W)) (s : State W) : Type 0 where
    lost : link_initial states s ≡ panic → InitialLink states s
    named :
        (initial : Ptr)
        → link_initial states s ≡ done initial
        → initial ≤ length states
        → InitialLink states s

  link_initial-InitialLink : (states : List (State W)) (s : State W) → InitialLink states s
  unfolding link_initial
  link_initial-InitialLink states s = elim (Bool-cases (s.initial_id == null_state_id)) [
    | inl e ↦ named null (simp e refl) (omega arith)
    | inr e ↦ elim (eq-cases (lookup_state_from_id states s.initial_id) null) [
      | inl missing ↦ lost (simp (e, missing) refl)
      | inr found ↦
          named (lookup_state_from_id states s.initial_id)
            (simp (e, ne→==_false (lookup_state_from_id states s.initial_id) null found) refl)
            (lookup-le states s.initial_id)
    ]
  ]

  -- The first loop.
  pub data Links (states : List (State W)) (global : Ptr) (i : ℕ) (rest : List (State W))
      : Type 0 where
    stops : link_states states global i rest ≡ panic → Links states global i rest
    links :
        (linked : List (State W)) (found : Ptr)
        → link_states states global i rest ≡ done (linked, found)
        → AllLinked (length states) found i linked
        → length linked ≡ length rest
        → found ≤ length states
        → (global ≢ null → found ≡ global)
        → Links states global i rest

  pub link_states-Links :
      (states : List (State W)) (global : Ptr) (i : ℕ) (rest : List (State W))
      → global ≤ length states
      → i + length rest ≤ length states
      → Links states global i rest
  unfolding link_states
  link_states-Links states global i [] g h = links [] global refl tt refl g (λ n. refl)
  link_states-Links states global i (s ∷ rest) g h = elim (check_unique-Checked s.id rest) [
    | refuses e ↦ stops (simp e refl)
    | returns u e ↦ elim (link_parent-ParentLink states global (suc i) s g (omega (arith, h))) [
      | orphan e' ↦ stops (simp (e, e') refl)
      | child global' parent e' p g' kept fresh ↦ elim (link_initial-InitialLink states s) [
        | lost e'' ↦ stops (simp (e, e', e'') refl)
        | named initial e'' q ↦
            elim (link_states-Links states global' (i + 1) rest g' (omega (arith, h))) [
              | stops e₄ ↦ stops (simp (e, e', e'', e₄) refl)
              | links linked found e₄ all size inside same ↦
                  links (record s { parent = parent; initial = initial } ∷ linked) found
                    (simp (e, e', e'', e₄) refl)
                    (
                      record {
                        initial_in = q;
                        parent_in = p;
                        rooted =
                            λ z. sym (fresh z) ∙ sym (same (λ n. suc-ne i (sym (fresh z) ∙ n)));
                      },
                      all,
                    )
                    (ap suc size) inside (λ n. same (λ z. n (sym (kept n) ∙ z)) ∙ kept n)
            ]
      ]
    ]
  ]
