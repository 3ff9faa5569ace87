-- ===== src/Rthsm/Engine/Ways.antt =====
-- The ways up from two states, and the actions along them.
use rtsys.Base.{
  ℕ, zero, suc, ◌≤◌, ◌≡◌, refl, sym, ap, ◌∙◌, inl, inr, Bool, true, false, ◌||◌, List, [], ◌∷◌,
  arith, ◌==◌, length, done, ==_refl, ne→==_false, Bool-cases, if◌then◌else◌,
}
use rtsys.Rthsm.Types.{Ptr, null, State, deref}
use rtsys.Rthsm.Tree.{PathTo, top, up, PathTo_length, has}
use rtsys.Rthsm.Engine.{dst_parents, leave_up, enter, leave}

-- The first of `ps` that is also one of `qs`, with the place where it stands; the states before it.
abbrev pub until_shared : List Ptr → List Ptr → List Ptr
until_shared qs [] = []
until_shared qs (p ∷ ps) = if has p qs then [] else p ∷ until_shared qs ps

abbrev pub first_shared : List Ptr → List Ptr → Ptr
first_shared qs [] = null
first_shared qs (p ∷ ps) = if has p qs then p else first_shared qs ps

abbrev pub any_shared : List Ptr → List Ptr → Bool
any_shared qs [] = false
any_shared qs (p ∷ ps) = has p qs || any_shared qs ps

-- The states before `p`.
abbrev pub until : Ptr → List Ptr → List Ptr
until p [] = []
until p (q ∷ qs) = if q == p then [] else q ∷ until p qs

module _ {W : Type 0} where
  -- The exit action of a state, by its pointer; likewise the entry action.
  abbrev pub leave_at : List (State W) → Ptr → W → W
  leave_at states p w = elim (deref states p) [ done s ↦ leave s w | _ ↦ w ]

  abbrev pub enter_at : List (State W) → Ptr → W → W
  enter_at states p w = elim (deref states p) [ done s ↦ enter s w | _ ↦ w ]

  -- The exit actions in order, and the entry actions in the opposite order.
  abbrev pub leave_each : List (State W) → List Ptr → W → W
  leave_each states [] w = w
  leave_each states (p ∷ ps) w = leave_each states ps (leave_at states p w)

  abbrev pub enter_back : List (State W) → List Ptr → W → W
  enter_back states [] w = w
  enter_back states (p ∷ ps) w = enter_at states p (enter_back states ps w)

  pub dst_parents-PathTo :
      {states : List (State W)} {global : Ptr} (room : ℕ) {p : Ptr} {ps : List Ptr}
      → PathTo states global p ps
      → length ps ≤ suc room
      → dst_parents states global room p ≡ done ps
  unfolding dst_parents
  dst_parents-PathTo {global} zero (top e) h = rw (e, ==_refl global)
  dst_parents-PathTo zero (up s n d u r) h = absurd (omega (arith, PathTo_length r))
  dst_parents-PathTo {global} (suc room) (top e) h = rw (e, ==_refl global)
  dst_parents-PathTo {global} (suc room) {p} (up s n d u r) h =
      rw (ne→==_false p global n, d, u, dst_parents-PathTo room r (omega arith))

  pub top_only :
      {states : List (State W)} {global p : Ptr} {ps : List Ptr}
      → PathTo states global p ps
      → p ≡ global
      → ps ≡ p ∷ []
  top_only (top e) h = refl
  top_only (up s n d u r) h = absurd (n h)

  leave_at-eq :
      (states : List (State W)) (p : Ptr) (s : State W) (w : W)
      → deref states p ≡ done s
      → leave_at states p w ≡ leave s w
  leave_at-eq states p s w d = rw (d, leave_at)

  pub enter_at-eq :
      (states : List (State W)) (p : Ptr) (s : State W) (w : W)
      → deref states p ≡ done s
      → enter_at states p w ≡ enter s w
  enter_at-eq states p s w d = rw (d, enter_at)

  pub leave_up-until :
      {states : List (State W)} {global : Ptr} (common : Ptr) (rounds : ℕ) {p : Ptr} {ps : List Ptr}
      → PathTo states global p ps
      → length ps ≤ rounds
      → has common ps ≡ true
      → (w : W) → leave_up states common rounds p w ≡ done (leave_each states (until common ps) w)
  unfolding leave_up
  leave_up-until common zero path h m w = absurd (omega (arith, PathTo_length path))
  leave_up-until common (suc rounds) (top e) h m w = ground arith
  leave_up-until {states} common (suc rounds) {p} (up {ps} s n d u r) h m w =
      elim (Bool-cases (p == common)) [
        | inl e ↦ rw e
        | inr e ↦
            let later : has common ps ≡ true = ground arith in
            simp (e, d, u)
              (leave_up-until common rounds r (omega arith) later (leave s w)
                ∙ ap (λ v. done (leave_each states (until common ps) v))
                    (sym (leave_at-eq states p s w d)))
      ]
