-- ===== src/Rthsm/Setup/Criterion.antt =====
-- What `RTHsmInit` asserts of a state and its transitions, in terms of the ids.
use rtsys.Base.{
  ℕ, zero, suc, ◌≡◌, ◌≢◌, refl, sym, ap, ◌∙◌, inl, inr, true, List, arith, done, done-injective,
  some_cancel, eq-cases, ne→==_false, ==_refl,
}
use mathlib.Core.Path.{subst}
use rtsys.Rthsm.Types.{null, null_state_id, Transition, State, deref}
use rtsys.Rthsm.Setup.{lookup_state_from_id, belongs_to_global}
use rtsys.Rthsm.Setup.Hierarchy.{
  Distinct, StandsAt, Nested, under, within, HasInitial, HasDestination,
}
use rtsys.Rthsm.Setup.Linking.{pointer, linked_state}
use rtsys.Rthsm.Setup.Links.{suc-ne}
use rtsys.Rthsm.Setup.Places.{
  lookup-at, lookup-found, pointer-given, pointer-null, pointer-found, linked_array,
  deref-linked_array, lookup-linked_array,
}
use rtsys.Rthsm.Setup.Checking.{Leads}

module _ {W : Type 0} (given : List (State W)) (root : ℕ) where
  abbrev Climbs : ℕ → ℕ → Type 0
  Climbs n k = belongs_to_global (linked_array given) (suc root) n (suc k) ≡ done true

  -- The global state has no parent id, and is the only one.
  abbrev OnlyRoot : Type 0
  OnlyRoot = (k : ℕ) (s : State W) → StandsAt given k s → s.parent_id ≡ null_state_id → k ≡ root

  -- Every parent id is found.
  abbrev ParentsFound : Type 0
  ParentsFound =
      (k : ℕ) (s : State W)
      → StandsAt given k s
      → s.parent_id ≢ null_state_id
      → lookup_state_from_id given s.parent_id ≢ null

  -- One round of the climb.
  Climbs-up :
      (n k : ℕ) {s : State W}
      → StandsAt given k s
      → pointer given s.parent_id ≡ suc root
      → Climbs (suc n) k
  unfolding belongs_to_global
  Climbs-up n k {s} e up = simp (deref-linked_array given k e, up, ==_refl (suc root)) refl

  Climbs-on :
      (n k j : ℕ) {s : State W}
      → StandsAt given k s
      → pointer given s.parent_id ≡ suc j
      → j ≢ root
      → belongs_to_global (linked_array given) (suc root) (suc n) (suc k)
        ≡ belongs_to_global (linked_array given) (suc root) n (suc j)
  unfolding belongs_to_global
  Climbs-on n k j {s} e on other =
      simp
        (
          deref-linked_array given k e,
          on,
          ne→==_false (suc j) (suc root) (λ z. other (omega arith)),
        )
        refl

  pub Climbs-Nested :
      (n k : ℕ) (s : State W)
      → StandsAt given k s
      → k ≢ root
      → OnlyRoot
      → ParentsFound
      → Climbs n k
      → Nested given root n s
  Climbs-Nested zero k s e n o f b = absurd (unfold belongs_to_global in cc)
  Climbs-Nested (suc rounds) k s e n o f b =
      let inner : s.parent_id ≢ null_state_id = λ z. n (o k s e z) in
      let (j, t, here, at, same) = lookup-found given s.parent_id (f k s e inner) in
      let on : pointer given s.parent_id ≡ suc j = pointer-given given s.parent_id inner ∙ here in
      elim (eq-cases j root) [
        | inl up ↦ under t (subst (λ m. StandsAt given m t) up at) (sym same)
        | inr other ↦
            within j t at other (sym same)
              (Climbs-Nested rounds j t at other o f (sym (Climbs-on rounds k j e on other) ∙ b))
      ]

  pub Nested-Climbs :
      (n k : ℕ) (s : State W)
      → Distinct given
      → StandsAt given k s
      → k ≢ root
      → OnlyRoot
      → Nested given root n s
      → Climbs n k
  Nested-Climbs zero k s d e n o x = elim x [ ]
  Nested-Climbs (suc rounds) k s d e n o (under r at same) = Climbs-up rounds k e (
      pointer-given given s.parent_id (λ z. n (o k s e z))
      ∙ lookup-at given root s.parent_id d at (sym same))
  Nested-Climbs (suc rounds) k s d e n o (within j t at other same inner) =
      Climbs-on rounds k j e
        (pointer-given given s.parent_id (λ z. n (o k s e z))
          ∙ lookup-at given j s.parent_id d at (sym same))
        other
      ∙ Nested-Climbs rounds j t d at other o inner

  module _ (d : Distinct given) (k : ℕ) (s : State W) (e : StandsAt given k s) where
    pub initial-back :
        (s.initial_id ≢ null_state_id → lookup_state_from_id given s.initial_id ≢ null)
        → (pointer given s.initial_id ≢ null
            → (t : State W) × (deref (linked_array given) (pointer given s.initial_id) ≡ done t)
              × (t.parent ≡ suc k))
        → s.initial_id ≢ null_state_id
        → HasInitial given s
    initial-back found back n =
        let (j, u, here, at, same) = lookup-found given s.initial_id (found n) in
        let on : pointer given s.initial_id ≡ suc j = pointer-given given s.initial_id n ∙ here in
        let (t, there, up) = back (λ z. suc-ne j (sym on ∙ z)) in
        let is : t ≡ linked_state given u =
          done-injective
            (sym there ∙ ap (deref (linked_array given)) on ∙ deref-linked_array given j at) in
        let (v, inner, at', named) =
          pointer-found given u.parent_id k (sym (ap (λ (x : State W). x.parent) is) ∙ up) in
        record {
          place = j;
          state = u;
          at = at;
          named = same;
          back = sym named ∙ ap (λ (x : State W). x.id) (some_cancel (sym at' ∙ e));
          inner = inner;
        }

    pub HasInitial-back :
        (s.initial_id ≢ null_state_id → HasInitial given s)
        → pointer given s.initial_id ≢ null
        → (t : State W) × (deref (linked_array given) (pointer given s.initial_id) ≡ done t)
          × (t.parent ≡ suc k)
    HasInitial-back has n =
        let given_id : s.initial_id ≢ null_state_id = λ z. n (pointer-null given s.initial_id z) in
        let h = has given_id in
        let on : pointer given s.initial_id ≡ suc h.place =
          pointer-given given s.initial_id given_id
          ∙ lookup-at given h.place s.initial_id d h.at h.named in
        (
          linked_state given h.state,
          ap (deref (linked_array given)) on ∙ deref-linked_array given h.place h.at,
          pointer-given given h.state.parent_id h.inner
              ∙ lookup-at given k h.state.parent_id d e (sym h.back),
        )

    pub HasInitial-found :
        (s.initial_id ≢ null_state_id → HasInitial given s)
        → s.initial_id ≢ null_state_id
        → lookup_state_from_id given s.initial_id ≢ null
    HasInitial-found has n z =
        let h = has n in
        suc-ne h.place (sym (lookup-at given h.place s.initial_id d h.at h.named) ∙ z)

  pub Leads-HasDestination :
      (t : Transition W) → Leads (linked_array given) (suc root) t → HasDestination given root t
  Leads-HasDestination t l =
      let same_lookup = lookup-linked_array given t.to_state_id in
      let (j, u, here, at, same) =
        lookup-found given t.to_state_id (λ z. l.found (same_lookup ∙ z)) in
      record {
        given_id = l.given_id;
        place = j;
        state = u;
        at = at;
        named = same;
        below = λ z. l.below (same_lookup ∙ here ∙ ap suc z);
      }

  pub HasDestination-Leads :
      (t : Transition W)
      → Distinct given
      → HasDestination given root t
      → Leads (linked_array given) (suc root) t
  HasDestination-Leads t d h =
      let on : lookup_state_from_id (linked_array given) t.to_state_id ≡ suc h.place =
        lookup-linked_array given t.to_state_id
        ∙ lookup-at given h.place t.to_state_id d h.at h.named in
      record {
        given_id = h.given_id;
        found = λ z. suc-ne h.place (sym on ∙ z);
        below = λ z. h.below (let both : suc h.place ≡ suc root = sym on ∙ z in omega arith);
      }
