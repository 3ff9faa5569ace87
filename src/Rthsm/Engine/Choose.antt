-- ===== src/Rthsm/Engine/Choose.antt =====
-- `rthsmGetBestTransition`, as a search in the list of the transitions that can be taken.
use rtsys.Base.{
  ℕ, zero, suc, ◌≤◌, ◌≡◌, refl, ap, ◌≢◌, Bool, false, not, ◌&&◌, ◌||◌, Option, none, some, List, [],
  ◌∷◌, ◌++◌, arith, ◌==◌, length, done, ==_refl, ne→==_false, if◌then◌else◌,
}
use rtsys.Rthsm.Types.{Ptr, null, max_nested_states, Event, Transition, State, Hsm}
use rtsys.Rthsm.Tree.{PathTo, top, up, PathTo_length}
use rtsys.Rthsm.Engine.{scan_transitions, climb, get_best_transition}

module _ {W : Type 0} where
  -- The transitions that can be taken from a state: its own, and those of the states around it,
  -- the innermost first.
  unfoldable pub candidates :
      {states : List (State W)} {global p : Ptr} {ps : List Ptr}
      → PathTo states global p ps
      → List (Transition W)
  candidates (top e) = []
  candidates (up s n d u r) = s.transitions ++ candidates r

  module _ (event : Event) (w : W) where
    -- The guard's verdict; a transition without a guard is allowed.
    abbrev pub verdict : Transition W → ℕ
    verdict t = elim t.guard [ none ↦ 0 | some guard ↦ guard event t.cookie w ]

    abbrev pub is_triggered : Transition W → Bool
    is_triggered t = t.event_id == event.id

    -- The first transition that the event triggers and whose guard allows it.
    unfoldable pub first_enabled : List (Transition W) → Option (Transition W)
    first_enabled [] = none
    first_enabled (t ∷ ts) = if is_triggered t && (verdict t == 0) then some t else first_enabled ts

    -- The verdict of the last triggered transition, or `result` where there is none.
    unfoldable pub last_verdict : ℕ → List (Transition W) → ℕ
    last_verdict result [] = result
    last_verdict result (t ∷ ts) = last_verdict (if is_triggered t then verdict t else result) ts

    scan-append :
        (ts us : List (Transition W)) (result : ℕ)
        → scan_transitions (ts ++ us) event w result
          ≡ (elim (scan_transitions ts event w result).0 [
            | some t ↦ scan_transitions ts event w result
            | none ↦ scan_transitions us event w (scan_transitions ts event w result).1
          ])
    unfolding scan_transitions
    scan-append [] us result = refl
    scan-append (t ∷ ts) us result =
        ground (arith, scan-append ts us result, scan-append ts us (verdict t))

    climb-candidates :
        {states : List (State W)} {global : Ptr} (rounds : ℕ) {p : Ptr} {ps : List Ptr}
        (path : PathTo states global p ps) (result : ℕ)
        → length ps ≤ suc rounds
        → climb states global event w rounds p result
          ≡ done (scan_transitions (candidates path) event w result)
    unfolding climb candidates scan_transitions
    climb-candidates {global} zero (top e) result h = rw (e, ==_refl global)
    climb-candidates zero (up s n d u r) result h = absurd (omega (arith, PathTo_length r))
    climb-candidates {global} (suc rounds) (top e) result h = rw (e, ==_refl global)
    climb-candidates {global} (suc rounds) {p} (up s n d u r) result h =
        rw (ne→==_false p global n, d, u)
          (ground (
            arith,
            scan-append s.transitions (candidates r) result,
            climb-candidates rounds r (scan_transitions s.transitions event w result).1
                (omega arith),
          ))

    scan-first :
        (ts : List (Transition W)) (result : ℕ)
        → (scan_transitions ts event w result).0 ≡ first_enabled ts
    unfolding scan_transitions first_enabled
    scan-first [] result = refl
    scan-first (t ∷ ts) result = ground (arith, scan-first ts result, scan-first ts (verdict t))

    scan-last :
        (ts : List (Transition W)) (result : ℕ)
        → first_enabled ts ≡ none
        → (scan_transitions ts event w result).1 ≡ last_verdict result ts
    unfolding scan_transitions first_enabled last_verdict
    scan-last [] result h = refl
    scan-last (t ∷ ts) result h = ground (arith, scan-last ts result, scan-last ts (verdict t))

    -- Whether the event triggers any of the transitions.
    unfoldable pub any_triggered : List (Transition W) → Bool
    any_triggered [] = false
    any_triggered (t ∷ ts) = is_triggered t || any_triggered ts

    pub last_verdict-eq-zero :
        (ts : List (Transition W)) (result : ℕ)
        → first_enabled ts ≡ none
        → (last_verdict result ts == 0) ≡ ((result == 0) && not (any_triggered ts))
    unfolding first_enabled last_verdict any_triggered
    last_verdict-eq-zero [] result h = ground arith
    last_verdict-eq-zero (t ∷ ts) result h =
        ground (arith, last_verdict-eq-zero ts result, last_verdict-eq-zero ts (verdict t))

    -- From a state below at most three others, `rthsmGetBestTransition` returns the first
    -- transition that the event triggers and whose guard allows it, of those of the current
    -- state and of the states around it, the innermost first; where there is none, the guard
    -- result is that of the last triggered transition, or 0.
    pub get_best_transition-first :
        (hsm : Hsm W) {ps : List Ptr} (path : PathTo hsm.states hsm.global hsm.current ps)
        → hsm.current ≢ null
        → length ps ≤ suc max_nested_states
        → (result : ℕ) × (get_best_transition hsm event w
            ≡ done (first_enabled (candidates path), result))
          × (first_enabled (candidates path) ≡ none → result ≡ last_verdict 0 (candidates path))
    unfolding get_best_transition
    get_best_transition-first hsm path n h =
        let found = scan_transitions (candidates path) event w 0 in
        (
          found.1,
          rw (ne→==_false hsm.current null n, climb-candidates max_nested_states path 0 h)
              (ap (λ t. done (t, found.1)) (scan-first (candidates path) 0)),
          scan-last (candidates path) 0,
        )
