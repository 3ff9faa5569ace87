-- ===== src/Rthsm/Setup/Linking.antt =====
-- The first loop of `RTHsmInit`: what it asserts, and what it fills in.
use rtsys.Base.{
  ℕ, suc, ◌+◌, ◌≡◌, ◌≢◌, refl, inl, inr, not, List, [], ◌∷◌, map, ◌==◌, if◌then◌else◌, assert,
  eq-cases, ne→==_false,
}
use rtsys.Rthsm.Types.{Ptr, null, null_state_id, State}
use rtsys.Rthsm.Tree.{All}
use rtsys.Rthsm.Setup.{lookup_state_from_id, check_unique, link_parent, link_initial, link_states}
use rtsys.Rthsm.Setup.Decides.{
  Decides, accepts, rejects, Decides-map, Decides-bind, Decides-done, Decides-return, Decides-ne,
}
use rtsys.Rthsm.Setup.Hierarchy.{Distinct}

module _ {W : Type 0} (given : List (State W)) where
  abbrev pub pointer : ℕ → Ptr
  pointer id = if id == null_state_id then null else lookup_state_from_id given id

  -- A state with its parent and its initial sub-state.
  abbrev pub linked_state : State W → State W
  linked_state s = record s { parent = pointer s.parent_id; initial = pointer s.initial_id }

  -- The global state that is known behind a state.
  abbrev pub next_root : Ptr → Ptr → State W → Ptr
  next_root global self s = if s.parent_id == null_state_id then self else global

  abbrev pub root_from : Ptr → ℕ → List (State W) → Ptr
  root_from global i [] = global
  root_from global i (s ∷ rest) = root_from (next_root global (suc i) s) (i + 1) rest

  -- What is asserted of one state.
  pub record LinksUp (global : Ptr) (s : State W) : Type 0 where
    pub first : s.parent_id ≡ null_state_id → global ≡ null
    pub parent : s.parent_id ≢ null_state_id → lookup_state_from_id given s.parent_id ≢ null
    pub initial : s.initial_id ≢ null_state_id → lookup_state_from_id given s.initial_id ≢ null

  abbrev pub AllLinkUp : Ptr → ℕ → List (State W) → Type 0
  AllLinkUp global i [] = Unit
  AllLinkUp global i (s ∷ rest) =
      LinksUp global s × AllLinkUp (next_root global (suc i) s) (i + 1) rest

  check_unique-Decides :
      (id : ℕ) (rest : List (State W))
      → Decides (All (λ (t : State W). t.id ≢ id) rest) (check_unique id rest) tt
  unfolding check_unique
  check_unique-Decides id [] = Decides-return tt
  check_unique-Decides id (s ∷ rest) =
      Decides-bind (assert (not (s.id == id))) (λ u. check_unique id rest) tt tt
        (Decides-ne s.id id) (λ n. check_unique-Decides id rest)

  link_parent-Decides :
      (global self : Ptr) (s : State W)
      → Decides
          ((s.parent_id ≡ null_state_id → global ≡ null)
            × (s.parent_id ≢ null_state_id → lookup_state_from_id given s.parent_id ≢ null))
          (link_parent given global self s)
          (next_root global self s, pointer s.parent_id)
  unfolding link_parent
  link_parent-Decides global self s = elim (eq-cases s.parent_id null_state_id) [
    | inl e ↦ elim (eq-cases global null) [
      | inl f ↦ accepts ((λ e'. f), (λ n. absurd (n e))) (simp (e, f) refl)
      | inr n ↦ rejects (λ c. n (c.0 e)) (simp (e, ne→==_false global null n) refl)
    ]
    | inr n ↦ elim (eq-cases (lookup_state_from_id given s.parent_id) null) [
      | inl f ↦ rejects (λ c. c.1 n f) (simp (ne→==_false s.parent_id null_state_id n, f) refl)
      | inr m ↦
          accepts ((λ e. absurd (n e)), (λ n'. m))
            (simp
              (
                ne→==_false s.parent_id null_state_id n,
                ne→==_false (lookup_state_from_id given s.parent_id) null m,
              )
              refl)
    ]
  ]

  link_initial-Decides :
      (s : State W)
      → Decides
          (s.initial_id ≢ null_state_id → lookup_state_from_id given s.initial_id ≢ null)
          (link_initial given s)
          (pointer s.initial_id)
  unfolding link_initial
  link_initial-Decides s = elim (eq-cases s.initial_id null_state_id) [
    | inl e ↦ accepts (λ n. absurd (n e)) (simp e refl)
    | inr n ↦ elim (eq-cases (lookup_state_from_id given s.initial_id) null) [
      | inl f ↦ rejects (λ c. c n f) (simp (ne→==_false s.initial_id null_state_id n, f) refl)
      | inr m ↦
          accepts (λ n'. m)
            (simp
              (
                ne→==_false s.initial_id null_state_id n,
                ne→==_false (lookup_state_from_id given s.initial_id) null m,
              )
              refl)
    ]
  ]

  pub link_states-Decides :
      (global : Ptr) (i : ℕ) (rest : List (State W))
      → Decides
          (Distinct rest × AllLinkUp global i rest)
          (link_states given global i rest)
          (map linked_state rest, root_from global i rest)
  unfolding link_states
  link_states-Decides global i [] = accepts (tt, tt) refl
  link_states-Decides global i (s ∷ rest) =
      Decides-map
        (λ (u, (p, (q, (d, a)))). ((u, d), (record { first = p.0; parent = p.1; initial = q }, a)))
        (λ ((u, d), (l, a)). (u, ((l.first, l.parent), (l.initial, (d, a)))))
        (Decides-bind (check_unique s.id rest) _ tt
          (map linked_state (s ∷ rest), root_from global i (s ∷ rest))
          (check_unique-Decides s.id rest)
          (λ u.
            Decides-bind (link_parent given global (suc i) s) _
              (next_root global (suc i) s, pointer s.parent_id) _
              (link_parent-Decides global (suc i) s)
              (λ p.
                Decides-bind (link_initial given s) _ (pointer s.initial_id) _
                  (link_initial-Decides s)
                  (λ q.
                    Decides-done (link_states given (next_root global (suc i) s) (i + 1) rest) _
                      (map linked_state rest, root_from global i (s ∷ rest))
                      (link_states-Decides (next_root global (suc i) s) (i + 1) rest)))))
