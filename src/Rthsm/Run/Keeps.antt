-- ===== src/Rthsm/Run/Keeps.antt =====
-- What the user's actions keep, transitions keep.
use rtsys.Base.{
  ℕ, zero, suc, done-injective, ◌≡◌, refl, Bool, true, false, Option, some, List, [], ◌∷◌, Outcome,
  done, panic, fault, timeout, if◌then◌else◌,
}
use mathlib.Core.Path.{subst}
use rtsys.Rthsm.Types.{Ptr, has_flag, Event, Transition, State, Hsm, deref}
use rtsys.Rthsm.Tree.{PathTo, All}
use rtsys.Rthsm.Engine.{enter, leave, act}
use rtsys.Rthsm.Engine.Descend.{Initials, leaf, deeper, enter_all}
use rtsys.Rthsm.Engine.Choose.{candidates, first_enabled}
use rtsys.Rthsm.Engine.Enabled.{candidates-All, first_enabled-All}
use rtsys.Rthsm.Engine.Ways.{leave_at, enter_at, leave_each, enter_back, until_shared}
use rtsys.Rthsm.Step.{World, Stepped}
use rtsys.Rthsm.Step.Spec.{stayed, Handles, discards, refuses, stays, moves}

module _ {W : Type 0} where
  -- All actions of a machine keep a property of the world.
  pub record Keeps (P : W → Type 0) (states : List (State W)) : Type 0 where
    pub entry : (p : Ptr) (s : State W) → deref states p ≡ done s → (w : W) → P w → P (enter s w)
    pub exit : (p : Ptr) (s : State W) → deref states p ≡ done s → (w : W) → P w → P (leave s w)
    pub action :
        (p : Ptr) (s : State W)
        → deref states p ≡ done s
        → All (λ t. (event : Event) (w : W) → P w → P (act t event w)) s.transitions

  -- The actions of one state.
  pub record StateKeeps (P : W → Type 0) (s : State W) : Type 0 where
    pub entry : (w : W) → P w → P (enter s w)
    pub exit : (w : W) → P w → P (leave s w)
    pub actions : All (λ t. (event : Event) (w : W) → P w → P (act t event w)) s.transitions

  deref-All :
      (P : State W → Type 0) (states : List (State W)) (p : Ptr) {s : State W}
      → All P states
      → deref states p ≡ done s
      → P s
  unfolding deref
  deref-All P states zero h e = absurd (cc)
  deref-All P [] (suc i) h e = absurd (cc)
  deref-All P (x ∷ states) (suc zero) h e = subst P (done-injective e) h.0
  deref-All P (x ∷ states) (suc (suc i)) h e = deref-All P states (suc i) h.1 e

  -- A machine keeps what each of its states keeps.
  pub Keeps-all :
      {P : W → Type 0} (states : List (State W)) → All (StateKeeps P) states → Keeps P states
  Keeps-all {P} states h = record {
    entry = λ p s e. (deref-All (StateKeeps P) states p h e).entry;
    exit = λ p s e. (deref-All (StateKeeps P) states p h e).exit;
    action = λ p s e. (deref-All (StateKeeps P) states p h e).actions;
  }

  module _ {P : W → Type 0} {states : List (State W)} (k : Keeps P states) where
    enter_all-Keeps :
        {p q : Ptr} {ts : List (State W)}
        → Initials states p ts q
        → (w : W) → P w
        → P (enter_all ts w)
    enter_all-Keeps (leaf s d e) w h = h
    enter_all-Keeps (deeper {q} s t d e n d' i) w h =
        enter_all-Keeps i (enter t w) (k.entry q t d' w h)

    leave_at-Keeps : (p : Ptr) (w : W) → P w → P (leave_at states p w)
    leave_at-Keeps p w h = by_outcome (deref states p) refl
      where
        by_outcome :
            (o : Outcome (State W)) → deref states p ≡ o → P (elim o [ done s ↦ leave s w | _ ↦ w ])
        by_outcome (done s) e = k.exit p s e w h
        by_outcome panic e = h
        by_outcome fault e = h
        by_outcome timeout e = h

    enter_at-Keeps : (p : Ptr) (w : W) → P w → P (enter_at states p w)
    enter_at-Keeps p w h = by_outcome (deref states p) refl
      where
        by_outcome :
            (o : Outcome (State W)) → deref states p ≡ o → P (elim o [ done s ↦ enter s w | _ ↦ w ])
        by_outcome (done s) e = k.entry p s e w h
        by_outcome panic e = h
        by_outcome fault e = h
        by_outcome timeout e = h

    leave_each-Keeps : (ps : List Ptr) (w : W) → P w → P (leave_each states ps w)
    leave_each-Keeps [] w h = h
    leave_each-Keeps (p ∷ ps) w h = leave_each-Keeps ps (leave_at states p w) (leave_at-Keeps p w h)

    enter_back-Keeps : (ps : List Ptr) (w : W) → P w → P (enter_back states ps w)
    enter_back-Keeps [] w h = h
    enter_back-Keeps (p ∷ ps) w h =
        enter_at-Keeps p (enter_back states ps w) (enter_back-Keeps ps w h)

module _ {U : Type 0} (hsm : Hsm (World U)) (P : World U → Type 0) (k : Keeps P hsm.states) where
  pub started-Keeps :
      {leaf : Ptr} {entered : List (State (World U))} (w : World U)
      → Initials hsm.states hsm.global entered leaf
      → P w
      → P (enter_all entered w)
  started-Keeps w i h = enter_all-Keeps k i w h

  -- The transition that is taken.
  taken-Keeps :
      {ps : List Ptr} (path : PathTo hsm.states hsm.global hsm.current ps) (event : Event)
      (w : World U) {t : Transition (World U)}
      → first_enabled event w (candidates path) ≡ some t
      → (w' : World U) → P w'
      → P (act t event w')
  taken-Keeps path event w e w' h =
      first_enabled-All (λ t. (ev : Event) (v : World U) → P v → P (act t ev v)) event w
        (candidates path)
        (candidates-All (λ t. (ev : Event) (v : World U) → P v → P (act t ev v)) k.action path) e
        event w' h

  stayed-Keeps :
      (t : Transition (World U)) (s : State (World U)) (event : Event) (w : World U)
      → deref hsm.states hsm.current ≡ done s
      → ((w' : World U) → P w' → P (act t event w'))
      → P w
      → P (stayed t s event w)
  stayed-Keeps t s event w d a h = by_flag (has_flag t.flags)
    where
      by_flag :
          (internal : Bool)
          → P (if internal then act t event w else enter s (act t event (leave s w)))
      by_flag true = a w h
      by_flag false = k.entry hsm.current s d _ (a _ (k.exit hsm.current s d w h))

  pub Handles-Keeps :
      {out : Option ℕ} {ps : List Ptr} (path : PathTo hsm.states hsm.global hsm.current ps)
      {event : Event} {w : World U} {r : Stepped U}
      → Handles hsm out event w (candidates path) r
      → P w
      → P r.world
  Handles-Keeps path (discards e f) h = h
  Handles-Keeps path (refuses e f) h = h
  Handles-Keeps path {event} {w} (stays t s e f d) h =
      stayed-Keeps t s event w d (taken-Keeps path event w e) h
  Handles-Keeps path {event} {w} (moves t {cs} {ds} e f p q i l) h = enter_all-Keeps k i _ (
      enter_back-Keeps k (until_shared cs ds) _
        (taken-Keeps path event w e _ (leave_each-Keeps k (until_shared ds cs) w h)))
