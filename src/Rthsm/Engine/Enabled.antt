-- ===== src/Rthsm/Engine/Enabled.antt =====
-- Properties of all transitions that can be taken hold of the one that is taken.
use rtsys.Base.{
  ◌≡◌, sym, ◌∙◌, inl, inr, ◌&&◌, some, List, [], ◌∷◌, ◌++◌, ◌==◌, Bool-cases, some_cancel, done,
}
use mathlib.Core.Path.{subst}
use rtsys.Rthsm.Types.{Ptr, Event, Transition, State, deref}
use rtsys.Rthsm.Tree.{PathTo, All, top, up}
use rtsys.Rthsm.Engine.Choose.{is_triggered, verdict, candidates, first_enabled}

All-append {ℓ} :
    {A : Type ℓ} (P : A → Type 0) (xs ys : List A) → All P xs → All P ys → All P (xs ++ ys)
All-append P [] ys h k = k
All-append P (x ∷ xs) ys h k = (h.0, All-append P xs ys h.1 k)

module _ {W : Type 0} where
  pub candidates-All :
      (P : Transition W → Type 0) {states : List (State W)} {global p : Ptr} {ps : List Ptr}
      → ((q : Ptr) (s : State W) → deref states q ≡ done s → All P s.transitions)
      → (path : PathTo states global p ps) → All P (candidates path)
  unfolding candidates
  candidates-All P h (top e) = tt
  candidates-All P h (up {p} s n d u r) =
      All-append P s.transitions (candidates r) (h p s d) (candidates-All P h r)

  pub first_enabled-All :
      (P : Transition W → Type 0) (event : Event) (w : W) (ts : List (Transition W))
      {t : Transition W}
      → All P ts
      → first_enabled event w ts ≡ some t
      → P t
  unfolding first_enabled
  first_enabled-All P event w [] h e = absurd (cc)
  first_enabled-All P event w (u ∷ ts) h e =
      elim (Bool-cases (is_triggered event w u && (verdict event w u == 0))) [
        | inl yes' ↦
            subst P
              (some_cancel
                (sym (let hit : first_enabled event w (u ∷ ts) ≡ some u = rw yes' in hit) ∙ e))
              h.0
        | inr no' ↦ first_enabled-All P event w ts h.1 (
            sym (
              let miss : first_enabled event w (u ∷ ts) ≡ first_enabled event w ts = rw no' in miss)
            ∙ e)
      ]
