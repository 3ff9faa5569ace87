-- ===== src/Rthsm/Engine/Common.antt =====
-- The search of `rthsmDoTransition` for the nearest common parent, and the entry actions below it.
use rtsys.Base.{
  ℕ, zero, suc, ◌+◌, ◌≤◌, ◌≡◌, refl, sym, ap, ◌∙◌, ◌≢◌, inl, inr, Bool, true, false, ◌||◌, Option,
  none, some, List, [], ◌∷◌, arith, ◌==◌, length, Outcome, done, panic, fault, timeout, ==_refl,
  ne→==_false, eq-cases, Bool-cases, ◌>>=◌, if◌then◌else◌, get_elem?,
}
use rtsys.Rthsm.Types.{Ptr, null, State, Hsm, deref}
use rtsys.Rthsm.Tree.{PathTo, top, up, PathTo_length, has, deref-ne}
use rtsys.Rthsm.Engine.{scan_origin, is_common, find_common, enter_down, enter, path_rounds}
use rtsys.Rthsm.Engine.Ways.{
  until_shared, first_shared, any_shared, enter_back, top_only, enter_at-eq,
}

module _ {W : Type 0} where
  scan_end :
      (states : List (State W)) (global target : Ptr) (rounds : ℕ) (p last : Ptr)
      → p ≡ global
      → scan_origin states global target rounds p last ≡ done (false, last)
  unfolding scan_origin
  scan_end states global target zero p last e = rw (e, ==_refl global)
  scan_end states global target (suc rounds) p last e = rw (e, ==_refl global)

  -- What the scan finds, and where it stops.
  record Scanned (states : List (State W)) (target : Ptr) (ps : List Ptr)
      (scan : Outcome (Bool × Ptr)) : Type 0 where
    found : Bool
    last : Ptr
    state : State W
    result : scan ≡ done (found, last)
    at : deref states last ≡ done state
    shared : (found || (state.parent == target)) ≡ has target ps

  scan_origin-Scanned :
      {states : List (State W)} {global : Ptr} (target : Ptr) (rounds : ℕ) {p : Ptr} {ps : List Ptr}
      (last : Ptr)
      → PathTo states global p ps
      → length ps ≤ suc rounds
      → p ≢ global
      → Scanned states target ps (scan_origin states global target rounds p last)
  unfolding scan_origin
  scan_origin-Scanned target rounds last (top e) h n = absurd (n e)
  scan_origin-Scanned target zero last (up s n d u r) h n' = absurd (omega (arith, PathTo_length r))
  scan_origin-Scanned {states} {global} target (suc rounds) {p} last (up {q} {ps} s n d u r) h n' =
      elim (Bool-cases (p == target)) [
        | inl e ↦ record {
          found = true;
          last = p;
          state = s;
          result = simp (ne→==_false p global n, d, e) refl;
          at = d;
          shared = ground arith;
        }
        | inr e ↦ elim (eq-cases q global) [
          | inl root ↦ record {
            found = false;
            last = p;
            state = s;
            result =
                simp (ne→==_false p global n, d, e, u)
                  (scan_end states global target rounds q p root);
            at = d;
            shared = ground (arith, top_only r root);
          }
          | inr inner ↦
              let next = scan_origin-Scanned target rounds p r (omega arith) inner in
              record {
                found = next.found;
                last = next.last;
                state = next.state;
                result = simp (ne→==_false p global n, d, e, u) next.result;
                at = next.at;
                shared = next.shared ∙ ground arith;
              }
        ]
      ]

  -- A target is common if it is the current state or one of the states around it.
  is_common-has :
      (hsm : Hsm W) {cs : List Ptr}
      → PathTo hsm.states hsm.global hsm.current cs
      → length cs ≤ path_rounds
      → hsm.current ≢ hsm.global
      → (target : Ptr) → is_common hsm target ≡ done (has target cs)
  unfolding is_common
  is_common-has hsm {cs} path h n target =
      let scan = scan_origin-Scanned target path_rounds null path (omega arith) n in
      simp
        (scan.result, ne→==_false scan.last null (deref-ne hsm.states scan.last scan.at), scan.at)
        (choose scan.found (scan.state.parent == target) scan.shared)
    where
      choose :
          (found : Bool) (last : Bool)
          → (found || last) ≡ has target cs
          → (if found then done true else done last) ≡ done (has target cs)
      choose true last e = ap done e
      choose false last e = ap done e

  pub find_common-shared :
      (hsm : Hsm W) {cs : List Ptr}
      → PathTo hsm.states hsm.global hsm.current cs
      → length cs ≤ path_rounds
      → hsm.current ≢ hsm.global
      → (i : ℕ) (ds : List Ptr) → any_shared cs ds ≡ true
      → find_common hsm i ds ≡ done (i + length (until_shared cs ds), first_shared cs ds)
  unfolding find_common
  find_common-shared hsm path h n i [] s = absurd (cc)
  find_common-shared hsm {cs} path h n i (d ∷ ds) s = elim (Bool-cases (has d cs)) [
    | inl e ↦ simp (is_common-has hsm path h n d, e) (ap (λ k. done (k, d)) (omega arith))
    | inr e ↦
        let later : any_shared cs ds ≡ true = ground arith in
        simp (is_common-has hsm path h n d, e)
          (find_common-shared hsm path h n (i + 1) ds later
            ∙ ap (λ k. done (k, first_shared cs ds)) (omega arith))
  ]

  enter_last :
      (states : List (State W)) (ps qs : List Ptr) (i j : ℕ) (rest : W → Outcome W) (o : Option Ptr)
      (w : W)
      → ((w : W) → enter_down states ps i w ≡ (enter_down states qs j w >>= rest))
      → (elim o [
        | none ↦ fault
        | some q ↦ deref states q >>= λ s. enter_down states ps i (enter s w)
      ])
        ≡ ((elim o [
          | none ↦ fault
          | some q ↦ deref states q >>= λ s. enter_down states qs j (enter s w)
        ])
            >>= rest)
  enter_last states ps qs i j rest none w ih = refl
  enter_last states ps qs i j rest (some q) w ih = go (deref states q)
    where
      go :
          (m : Outcome (State W))
          → (m >>= λ s. enter_down states ps i (enter s w))
            ≡ ((m >>= λ s. enter_down states qs j (enter s w)) >>= rest)
      go (done s) = ih (enter s w)
      go panic = refl
      go fault = refl
      go timeout = refl

  -- The first of the parents is entered last.
  enter_down-cons :
      (states : List (State W)) (p : Ptr) (ps : List Ptr) (i : ℕ) (w : W)
      → enter_down states (p ∷ ps) (suc i) w
        ≡ (enter_down states ps i w >>= λ w'. deref states p >>= λ s. done (enter s w'))
  unfolding enter_down
  enter_down-cons states p ps zero w = refl
  enter_down-cons states p ps (suc i) w =
      enter_last states (p ∷ ps) ps (suc i) i (λ w'. deref states p >>= λ s. done (enter s w'))
        (get_elem? ps i) w (enter_down-cons states p ps i)

  pub enter_down-back :
      {states : List (State W)} {global : Ptr} (cs : List Ptr) {p : Ptr} {ps : List Ptr}
      → PathTo states global p ps
      → any_shared cs ps ≡ true
      → (w : W)
      → enter_down states ps (length (until_shared cs ps)) w
        ≡ done (enter_back states (until_shared cs ps) w)
  unfolding enter_down
  enter_down-back {states} cs (top {p} e) h w =
      let shared : has p cs ≡ true = ground arith in rw shared
  enter_down-back {states} cs (up {p} {ps} s n d u r) h w = elim (Bool-cases (has p cs)) [
    | inl e ↦ rw e
    | inr e ↦
        let later : any_shared cs ps ≡ true = ground arith in
        rw e (
          enter_down-cons states p ps (length (until_shared cs ps)) w
          ∙ simp (enter_down-back cs r later w, d)
              (ap done (sym (enter_at-eq states p s (enter_back states (until_shared cs ps) w) d))))
  ]
