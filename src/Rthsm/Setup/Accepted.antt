-- ===== src/Rthsm/Setup/Accepted.antt =====
-- `RTHsmInit` accepts the arrays that describe a hierarchy, and no others.
use rtsys.Base.{
  ℕ, zero, suc, ◌≡◌, ◌≢◌, refl, sym, ap, ◌∙◌, inl, inr, true, some, List, [], ◌∷◌, get_elem?, arith,
  length, eq-cases, lt→ltb, some_cancel,
}
use mathlib.Core.Path.{subst}
use rtsys.Rthsm.Types.{null, null_state_id, max_nested_states, State, Hsm}
use rtsys.Rthsm.Tree.{All}
use rtsys.Rthsm.Setup.{lookup_state_from_id, init}
use rtsys.Rthsm.Setup.Decides.{Decides, accepts, rejects, Decides-map}
use rtsys.Rthsm.Setup.Hierarchy.{
  Distinct, StandsAt, Nested, under, within, HasDestination, IsHierarchy,
}
use rtsys.Rthsm.Setup.Linking.{linked_state, AllLinkUp}
use rtsys.Rthsm.Setup.Links.{suc-ne}
use rtsys.Rthsm.Setup.Places.{
  All-at, All-of, lookup-at, pointer-given, linked_array, deref-linked_array, linked_array-at,
}
use rtsys.Rthsm.Setup.Root.{root-at, AllLinkUp-of}
use rtsys.Rthsm.Setup.Checking.{Fits, Leads}
use rtsys.Rthsm.Setup.Criterion.{
  Nested-Climbs, HasInitial-back, HasInitial-found, HasDestination-Leads,
}
use rtsys.Rthsm.Setup.Accepts.{Passed, root_pointer, built, Asserted, loops-Decides}
use rtsys.Rthsm.Setup.Described.{AllFit-of, Asserted-IsHierarchy}

module _ {W : Type 0} (given : List (State W)) where
  Nested-found :
      {root : ℕ} (n : ℕ) (s : State W)
      → Distinct given
      → Nested given root n s
      → lookup_state_from_id given s.parent_id ≢ null
  Nested-found zero s d x z = elim x [ ]
  Nested-found {root} (suc n) s d (under r at same) z =
      suc-ne root (sym (lookup-at given root s.parent_id d at (sym same)) ∙ z)
  Nested-found (suc n) s d (within j t at other same inner) z =
      suc-ne j (sym (lookup-at given j s.parent_id d at (sym same)) ∙ z)

  -- What a hierarchy gives to the passes.
  module _ (h : IsHierarchy given) where
    parent-found :
        (k : ℕ) (s : State W)
        → StandsAt given k s
        → s.parent_id ≢ null_state_id
        → lookup_state_from_id given s.parent_id ≢ null
    parent-found k s e n = elim (eq-cases k h.root) [
      | inl here ↦
          let same : s ≡ h.root_state =
            some_cancel (sym e ∙ ap (get_elem? given) here ∙ h.root_at) in
          absurd (n (ap (λ (x : State W). x.parent_id) same ∙ h.root_orphan))
      | inr other ↦ Nested-found max_nested_states s h.distinct (h.nested k s e other)
    ]

    IsHierarchy-AllLinkUp : AllLinkUp given null 0 given
    IsHierarchy-AllLinkUp =
        AllLinkUp-of given null 0 given
          (λ k s e.
            (parent-found k s e, HasInitial-found given h.root h.distinct k s e (h.initials k s e)))
          (λ k s e o. refl) (λ j k s t e f o p. h.only_root j s e o ∙ sym (h.only_root k t f p))

    state-Fits :
        (k : ℕ) (s : State W)
        → StandsAt given k s
        → Fits (linked_array given) (suc h.root) (suc k) (linked_state given s)
    state-Fits k s e = record {
      back = HasInitial-back given h.root h.distinct k s e (h.initials k s e);
      belongs = λ n.
          let other : k ≢ h.root = λ z. n (ap suc z) in
          Nested-Climbs given h.root max_nested_states k s h.distinct e other h.only_root
            (h.nested k s e other);
    }

    IsHierarchy-Passed : Passed (linked_array given) (suc h.root)
    IsHierarchy-Passed = record {
      some_global = suc-ne h.root;
      top = linked_state given h.root_state;
      top_at = deref-linked_array given h.root h.root_at;
      starts = λ z.
          HasInitial-found given h.root h.distinct h.root h.root_state h.root_at
            (h.initials h.root h.root_state h.root_at) h.root_starts
            (sym (pointer-given given h.root_state.initial_id h.root_starts) ∙ z);
      quiet = ap length h.root_quiet;
      fit = AllFit-of (linked_array given) (suc h.root) 0 (linked_array given) (λ k t f.
          let (s, e, is) = linked_array-at given k f in
          subst (λ m. Fits (linked_array given) (suc h.root) (suc m) t) {x = k} (omega arith)
            (subst (Fits (linked_array given) (suc h.root) (suc k)) (sym is) (state-Fits k s e)));
      lead =
          All-of (λ (s : State W). All (Leads (linked_array given) (suc h.root)) s.transitions)
            (linked_array given)
            (λ k t f.
              let (s, e, is) = linked_array-at given k f in
              subst (λ (x : State W). All (Leads (linked_array given) (suc h.root)) x.transitions)
                (sym is)
                (All-of (Leads (linked_array given) (suc h.root)) s.transitions (λ j u g.
                  HasDestination-Leads given h.root u h.distinct
                    (All-at (HasDestination given h.root) s.transitions j (h.targets k s e) g))));
    }

    IsHierarchy-Asserted : Asserted given
    IsHierarchy-Asserted =
        let place : root_pointer given ≡ suc h.root =
          (root-at given null 0 given h.root IsHierarchy-AllLinkUp h.root_at h.root_orphan).1
          ∙ omega arith in
        (
          (h.distinct, IsHierarchy-AllLinkUp),
          subst (Passed (linked_array given)) (sym place) IsHierarchy-Passed,
        )

-- `RTHsmInit` accepts it.
module _ {W : Type 0} where
  -- `RTHsmInit`, given an array and a queue, returns the machine whose parent, initial and
  -- destination pointers are the places of the states with the ids asked for, if the array
  -- describes a hierarchy: distinct ids, one state without a parent id, which has an initial
  -- sub-state and no transitions and is reached from every other state by at most three
  -- parents, initial sub-states that name their state as the parent, and destinations that are
  -- states other than the global one. Given any other array, empty ones included, an assertion
  -- fails, and nothing else goes wrong.
  pub init-Decides :
      (raw : Hsm W) (given : List (State W))
      → Decides (IsHierarchy given) (init (some raw) (some given) true) (built given)
  unfolding init
  init-Decides raw [] = rejects (λ h. absurd (let at = h.root_at in cc)) refl
  init-Decides raw (s ∷ rest) =
      elim (Decides-map (Asserted-IsHierarchy (s ∷ rest)) (IsHierarchy-Asserted (s ∷ rest))
        (loops-Decides (s ∷ rest))) [
          | accepts h e ↦ accepts h (simp (lt→ltb 0 (length (s ∷ rest)) (omega arith)) e)
          | rejects n e ↦ rejects n (simp (lt→ltb 0 (length (s ∷ rest)) (omega arith)) e)
        ]
