-- ===== src/Rthsm/Setup/Described.antt =====
-- The assertions of `RTHsmInit` hold exactly for the arrays that describe a hierarchy.
use rtsys.Base.{
  ℕ, zero, suc, ◌+◌, ◌≡◌, ◌≢◌, refl, sym, ap, ◌∙◌, inl, inr, some, List, [], ◌∷◌, get_elem?, arith,
  length, done-injective, some_cancel,
}
use mathlib.Core.Path.{subst}
use rtsys.Rthsm.Types.{Ptr, null, null_state_id, max_nested_states, Transition, State}
use rtsys.Rthsm.Tree.{All}
use rtsys.Rthsm.Setup.{lookup_state_from_id}
use rtsys.Rthsm.Setup.Hierarchy.{Distinct, StandsAt, HasDestination, IsHierarchy}
use rtsys.Rthsm.Setup.Linking.{linked_state, next_root, LinksUp, AllLinkUp}
use rtsys.Rthsm.Setup.Places.{
  All-at, All-of, pointer-null, linked_array, deref-linked_array, get_elem?-map,
}
use rtsys.Rthsm.Setup.Root.{root-at, root-place}
use rtsys.Rthsm.Setup.Checking.{Fits, AllFit, Leads}
use rtsys.Rthsm.Setup.Criterion.{Climbs-Nested, initial-back, Leads-HasDestination}
use rtsys.Rthsm.Setup.Accepts.{Passed, Asserted}

module _ {W : Type 0} where
  AllFit-at :
      (states : List (State W)) (global : Ptr) (i : ℕ) (rest : List (State W)) (k : ℕ) {s : State W}
      → AllFit states global i rest
      → get_elem? rest k ≡ some s
      → Fits states global (suc (i + k)) s
  AllFit-at states global i [] k a e = absurd (cc)
  AllFit-at states global i (t ∷ rest) zero {s} (f, a) e =
      subst (λ m. Fits states global m s) (omega arith)
        (subst (Fits states global (suc i)) (some_cancel e) f)
  AllFit-at states global i (t ∷ rest) (suc k) {s} (f, a) e =
      subst (λ m. Fits states global (suc m) s) {x = i + 1 + k} (omega arith)
        (AllFit-at states global (i + 1) rest k a e)

  pub AllFit-of :
      (states : List (State W)) (global : Ptr) (i : ℕ) (rest : List (State W))
      → ((k : ℕ) (s : State W) → get_elem? rest k ≡ some s → Fits states global (suc (i + k)) s)
      → AllFit states global i rest
  AllFit-of states global i [] h = tt
  AllFit-of states global i (s ∷ rest) h = (
    subst (λ m. Fits states global (suc m) s) {x = i + 0} (omega arith) (h 0 s refl),
    AllFit-of states global (i + 1) rest (λ k t e.
        subst (λ m. Fits states global (suc m) t) {x = i + suc k} (omega arith) (h (suc k) t e)),
  )

  module _ (given : List (State W)) where
    AllLinkUp-at :
        (global : Ptr) (i : ℕ) (rest : List (State W)) (k : ℕ) {s : State W}
        → AllLinkUp given global i rest
        → get_elem? rest k ≡ some s
        → (s.parent_id ≢ null_state_id → lookup_state_from_id given s.parent_id ≢ null)
          × (s.initial_id ≢ null_state_id → lookup_state_from_id given s.initial_id ≢ null)
    AllLinkUp-at global i [] k a e = absurd (cc)
    AllLinkUp-at global i (t ∷ rest) zero (l, a) e =
        let found = subst (LinksUp given global) (some_cancel e) l in (found.parent, found.initial)
    AllLinkUp-at global i (t ∷ rest) (suc k) (l, a) e =
        AllLinkUp-at (next_root given global (suc i) t) (i + 1) rest k a e

    -- The array after the first loop, and the checks behind it, with the root at a known place.
    module _ (d : Distinct given) (a : AllLinkUp given null 0 given) (root : ℕ) (s : State W)
        (e : StandsAt given root s) (orphan : s.parent_id ≡ null_state_id)
        (p : Passed (linked_array given) (suc root)) where
      top-linked : p.top ≡ linked_state given s
      top-linked = done-injective (sym p.top_at ∙ deref-linked_array given root e)

      one_root : (k : ℕ) (t : State W) → StandsAt given k t → t.parent_id ≡ null_state_id → k ≡ root
      one_root k t f o =
          let here = (root-at given null 0 given k a f o).1 in
          let there = (root-at given null 0 given root a e orphan).1 in
          let both : suc (0 + k) ≡ suc (0 + root) = sym here ∙ there in omega arith

      fit-at :
          (k : ℕ) (t : State W)
          → StandsAt given k t
          → Fits (linked_array given) (suc root) (suc k) (linked_state given t)
      fit-at k t f =
          subst (λ m. Fits (linked_array given) (suc root) (suc m) (linked_state given t))
            {x = 0 + k} (omega arith)
            (AllFit-at (linked_array given) (suc root) 0 (linked_array given) k p.fit
              (get_elem?-map (linked_state given) given k f))

      Passed-IsHierarchy : IsHierarchy given
      Passed-IsHierarchy = record {
        distinct = d;
        root = root;
        root_state = s;
        root_at = e;
        root_orphan = orphan;
        root_starts = λ z.
            p.starts
              (ap (λ (x : State W). x.initial) top-linked ∙ pointer-null given s.initial_id z);
        root_quiet =
            no_elements s.transitions
              (sym (ap (λ (x : State W). length x.transitions) top-linked) ∙ p.quiet);
        only_root = one_root;
        nested = λ k t f n.
            Climbs-Nested given root max_nested_states k t f n one_root
              (λ j u g. (AllLinkUp-at null 0 given j a g).0)
              ((fit-at k t f).belongs (λ z. n (omega (arith, z))));
        initials = λ k t f.
            initial-back given root d k t f ((AllLinkUp-at null 0 given k a f).1)
              ((fit-at k t f).back);
        targets = λ k t f. All-of (HasDestination given root) t.transitions (λ j u g.
            Leads-HasDestination given root u (
              All-at (Leads (linked_array given) (suc root)) t.transitions j
                (All-at (λ (x : State W). All (Leads (linked_array given) (suc root)) x.transitions)
                  (linked_array given) k p.lead (get_elem?-map (linked_state given) given k f))
                g));
      }
        where
          no_elements : (ts : List (Transition W)) → length ts ≡ 0 → ts ≡ []
          no_elements [] z = refl
          no_elements (t ∷ ts) z = absurd (omega (arith, z))

    pub Asserted-IsHierarchy : Asserted given → IsHierarchy given
    Asserted-IsHierarchy ((d, a), p) = elim (root-place given null 0 given) [
      | inl z ↦ absurd (p.some_global z)
      | inr (root, s, e, o, found) ↦
          Passed-IsHierarchy d a root s e o
            (subst (Passed (linked_array given)) (found ∙ omega arith) p)
    ]
