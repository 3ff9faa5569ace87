-- ===== src/Rthsm/Setup/Places.antt =====
-- Places in the array of states, before and after the first loop of `RTHsmInit`.
use rtsys.Base.{
  ℕ, zero, suc, ◌+◌, ◌≡◌, ◌≢◌, refl, sym, ap, ◌∙◌, inl, inr, some, List, [], ◌∷◌, map, ◌==◌,
  if◌then◌else◌, get_elem?, arith, done, some_cancel, eq-cases, ==_refl, ne→==_false,
}
use mathlib.Core.Path.{subst}
use rtsys.Rthsm.Types.{null, null_state_id, State, deref}
use rtsys.Rthsm.Tree.{All}
use rtsys.Rthsm.Setup.{lookup_from, lookup_state_from_id}
use rtsys.Rthsm.Setup.Passes.{index-deref, lookup_from-found}
use rtsys.Rthsm.Setup.Hierarchy.{Distinct, StandsAt}
use rtsys.Rthsm.Setup.Linking.{pointer, linked_state}

module _ {A : Type 0} (P : A → Type 0) where
  pub All-at : (xs : List A) (k : ℕ) {x : A} → All P xs → get_elem? xs k ≡ some x → P x
  All-at [] k h e = absurd (cc)
  All-at (y ∷ ys) zero h e = subst P (some_cancel e) h.0
  All-at (y ∷ ys) (suc k) h e = All-at ys k h.1 e

  pub All-of : (xs : List A) → ((k : ℕ) (x : A) → get_elem? xs k ≡ some x → P x) → All P xs
  All-of [] h = tt
  All-of (y ∷ ys) h = (h 0 y refl, All-of ys (λ k x e. h (suc k) x e))

module _ {A B : Type 0} (f : A → B) where
  pub get_elem?-map :
      (xs : List A) (k : ℕ) {x : A} → get_elem? xs k ≡ some x → get_elem? (map f xs) k ≡ some (f x)
  get_elem?-map [] k e = absurd (cc)
  get_elem?-map (x ∷ xs) zero e = ap some (ap f (some_cancel e))
  get_elem?-map (x ∷ xs) (suc k) e = get_elem?-map xs k e

  get_elem?_unmap :
      (xs : List A) (k : ℕ) {y : B}
      → get_elem? (map f xs) k ≡ some y
      → (x : A) × (get_elem? xs k ≡ some x) × (y ≡ f x)
  get_elem?_unmap [] k e = absurd (cc)
  get_elem?_unmap (x ∷ xs) zero e = (x, refl, sym (some_cancel e))
  get_elem?_unmap (x ∷ xs) (suc k) e = get_elem?_unmap xs k e

module _ {W : Type 0} where
  lookup_from-at :
      (states : List (State W)) (i k : ℕ) {s : State W}
      → Distinct states
      → get_elem? states k ≡ some s
      → lookup_from states i s.id ≡ suc (i + k)
  unfolding lookup_from
  lookup_from-at [] i k d e = absurd (cc)
  lookup_from-at (t ∷ states) i zero {s} (n, d) e =
      let same : t.id ≡ s.id = ap (λ (x : State W). x.id) (some_cancel e) in
      simp (same, ==_refl s.id) (omega arith)
  lookup_from-at (t ∷ states) i (suc k) {s} (n, d) e =
      let other : s.id ≢ t.id = All-at (λ (x : State W). x.id ≢ t.id) states k n e in
      simp (ne→==_false t.id s.id (λ z. other (sym z)))
        (lookup_from-at states (i + 1) k d e ∙ omega arith)

  module _ (given : List (State W)) where
    -- A lookup finds the place of a state, if no other state has its id.
    pub lookup-at :
        (k : ℕ) {s : State W} (id : ℕ)
        → Distinct given
        → StandsAt given k s
        → s.id ≡ id
        → lookup_state_from_id given id ≡ suc k
    unfolding lookup_state_from_id
    lookup-at k id d e same =
        ap (lookup_from given 0) (sym same) ∙ lookup_from-at given 0 k d e ∙ omega arith

    pub lookup-found :
        (id : ℕ)
        → lookup_state_from_id given id ≢ null
        → (k : ℕ) × (s : State W) × (lookup_state_from_id given id ≡ suc k)
          × StandsAt given k s
          × (s.id ≡ id)
    unfolding lookup_state_from_id
    lookup-found id n =
        let (k, s, at, found, same) = lookup_from-found given 0 id n in
        (k, s, at ∙ omega arith, found, same)

    pub pointer-given :
        (id : ℕ) → id ≢ null_state_id → pointer given id ≡ lookup_state_from_id given id
    pointer-given id n = rw (ne→==_false id null_state_id n)

    pub pointer-null : (id : ℕ) → id ≡ null_state_id → pointer given id ≡ null
    pointer-null id e = rw e

    -- A pointer that is not NULL leads to a state with the id.
    pub pointer-found :
        (id k : ℕ)
        → pointer given id ≡ suc k
        → (s : State W) × (id ≢ null_state_id) × StandsAt given k s × (s.id ≡ id)
    pointer-found id k e = elim (eq-cases id null_state_id) [
      | inl z ↦ absurd (omega (arith, e, pointer-null id z))
      | inr n ↦
          let here : lookup_state_from_id given id ≡ suc k = sym (pointer-given id n) ∙ e in
          let (j, s, at, found, same) = lookup-found id (λ z. absurd (omega (arith, here, z))) in
          (
            s,
            n,
            subst (λ m. StandsAt given m s) {x = j} {y = k} (omega (arith, at, here)) found,
            same,
          )
    ]

    abbrev pub linked_array : List (State W)
    linked_array = map (linked_state given) given

    pub deref-linked_array :
        (k : ℕ) {s : State W}
        → StandsAt given k s
        → deref linked_array (suc k) ≡ done (linked_state given s)
    deref-linked_array k e =
        index-deref linked_array k (get_elem?-map (linked_state given) given k e)

    pub linked_array-at :
        (k : ℕ) {t : State W}
        → get_elem? linked_array k ≡ some t
        → (s : State W) × StandsAt given k s × (t ≡ linked_state given s)
    linked_array-at k e = get_elem?_unmap (linked_state given) given k e

    lookup_from-linked :
        (rest : List (State W)) (i id : ℕ)
        → lookup_from (map (linked_state given) rest) i id ≡ lookup_from rest i id
    unfolding lookup_from
    lookup_from-linked [] i id = refl
    lookup_from-linked (s ∷ rest) i id =
        ap (λ p. if s.id == id then suc i else p) (lookup_from-linked rest (i + 1) id)

    pub lookup-linked_array :
        (id : ℕ) → lookup_state_from_id linked_array id ≡ lookup_state_from_id given id
    unfolding lookup_state_from_id
    lookup-linked_array id = lookup_from-linked given 0 id
