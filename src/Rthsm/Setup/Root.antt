-- ===== src/Rthsm/Setup/Root.antt =====
-- The global state that the first loop of `RTHsmInit` finds.
use rtsys.Base.{
  ℕ, zero, suc, ◌+◌, ◌≡◌, ◌≢◌, refl, sym, ap, ◌∙◌, ◌⊎◌, inl, inr, some, List, [], ◌∷◌, get_elem?,
  arith, some_cancel, eq-cases, ne→==_false,
}
use rtsys.Rthsm.Types.{Ptr, null, null_state_id, State}
use rtsys.Rthsm.Setup.{lookup_state_from_id}
use rtsys.Rthsm.Setup.Links.{suc-ne}
use rtsys.Rthsm.Setup.Linking.{next_root, root_from, AllLinkUp}

module _ {W : Type 0} (given : List (State W)) where
  next_orphan :
      (global self : Ptr) (s : State W)
      → s.parent_id ≡ null_state_id
      → next_root given global self s ≡ self
  next_orphan global self s e = rw e

  next_child :
      (global self : Ptr) (s : State W)
      → s.parent_id ≢ null_state_id
      → next_root given global self s ≡ global
  next_child global self s n = rw (ne→==_false s.parent_id null_state_id n)

  -- Once found, the global state stays.
  root_stays :
      (global : Ptr) (i : ℕ) (rest : List (State W))
      → AllLinkUp given global i rest
      → global ≢ null
      → root_from given global i rest ≡ global
  root_stays global i [] a n = refl
  root_stays global i (s ∷ rest) (l, a) n =
      let same : next_root given global (suc i) s ≡ global =
        next_child global (suc i) s (λ e. n (l.first e)) in
      root_stays (next_root given global (suc i) s) (i + 1) rest a (λ z. n (sym same ∙ z)) ∙ same

  pub root-at :
      (global : Ptr) (i : ℕ) (rest : List (State W)) (k : ℕ) {s : State W}
      → AllLinkUp given global i rest
      → get_elem? rest k ≡ some s
      → s.parent_id ≡ null_state_id
      → (global ≡ null) × (root_from given global i rest ≡ suc (i + k))
  root-at global i [] k a e o = absurd (cc)
  root-at global i (t ∷ rest) zero {s} (l, a) e o =
      let orphan : t.parent_id ≡ null_state_id =
        ap (λ (x : State W). x.parent_id) (some_cancel e) ∙ o in
      let here : next_root given global (suc i) t ≡ suc i = next_orphan global (suc i) t orphan in
      (
        l.first orphan,
        root_stays (next_root given global (suc i) t) (i + 1) rest a (λ z. suc-ne i (sym here ∙ z))
            ∙ here
            ∙ omega arith,
      )
  root-at global i (t ∷ rest) (suc k) {s} (l, a) e o =
      let (fresh, found) = root-at (next_root given global (suc i) t) (i + 1) rest k a e o in
      elim (eq-cases t.parent_id null_state_id) [
        | inl z ↦ absurd (suc-ne i (sym (next_orphan global (suc i) t z) ∙ fresh))
        | inr n ↦ (sym (next_child global (suc i) t n) ∙ fresh, found ∙ omega arith)
      ]

  pub root-place :
      (global : Ptr) (i : ℕ) (rest : List (State W))
      → (root_from given global i rest ≡ global)
        ⊎ ((k : ℕ) × (s : State W) × (get_elem? rest k ≡ some s)
            × (s.parent_id ≡ null_state_id)
            × (root_from given global i rest ≡ suc (i + k)))
  root-place global i [] = inl refl
  root-place global i (t ∷ rest) =
      elim (root-place (next_root given global (suc i) t) (i + 1) rest) [
        | inr (k, s, e, o, found) ↦ inr (suc k, s, e, o, found ∙ omega arith)
        | inl same ↦ elim (eq-cases t.parent_id null_state_id) [
          | inl o ↦ inr (0, t, refl, o, same ∙ next_orphan global (suc i) t o ∙ omega arith)
          | inr n ↦ inl (same ∙ next_child global (suc i) t n)
        ]
      ]

  -- States whose ids are found, one of them without a parent at most, pass the assertions.
  pub AllLinkUp-of :
      (global : Ptr) (i : ℕ) (rest : List (State W))
      → ((k : ℕ) (s : State W)
          → get_elem? rest k ≡ some s
          → (s.parent_id ≢ null_state_id → lookup_state_from_id given s.parent_id ≢ null)
            × (s.initial_id ≢ null_state_id → lookup_state_from_id given s.initial_id ≢ null))
      → ((k : ℕ) (s : State W)
          → get_elem? rest k ≡ some s
          → s.parent_id ≡ null_state_id
          → global ≡ null)
      → ((j k : ℕ) (s t : State W)
          → get_elem? rest j ≡ some s
          → get_elem? rest k ≡ some t
          → s.parent_id ≡ null_state_id
          → t.parent_id ≡ null_state_id
          → j ≡ k)
      → AllLinkUp given global i rest
  AllLinkUp-of global i [] local fresh one = tt
  AllLinkUp-of global i (s ∷ rest) local fresh one = (
    record { first = fresh 0 s refl; parent = (local 0 s refl).0; initial = (local 0 s refl).1 },
    AllLinkUp-of (next_root given global (suc i) s) (i + 1) rest (λ k t e. local (suc k) t e)
        (λ k t e o. elim (eq-cases s.parent_id null_state_id) [
          | inl z ↦ absurd (omega (arith, one 0 (suc k) s t refl e z o))
          | inr n ↦ next_child global (suc i) s n ∙ fresh (suc k) t e o
        ])
        (λ j k t u e f o p.
          let same : suc j ≡ suc k = one (suc j) (suc k) t u e f o p in omega arith),
  )
