-- ===== src/Rttest/Lost.antt =====
-- What holds of the world after a run of `RTTestRun` that returns no error code.
pub mod Calls
pub mod Cases
use rtsys.Base.{
  ℕ, zero, suc, arith, lt→ltb, ◌<◌, ◌+◌, ◌%◌, ◌^◌, ◌≡◌, refl, ap, sym, ◌∙◌, inl, inr, Bool, true,
  false, not, ◌&&◌, Option, none, some, List, [], ◌∷◌, ◌++◌, if◌then◌else◌, ◌==◌, ℤ, pos, negsuc,
  is_negative, Outcome, done, fault, panic, timeout, ◌>>=◌, assert, ltb, length, Bool-cases,
}
use Prim.Native.Nat.{bit_or}
use rtsys.Rttest.Register.{occurs, is_in-occurs}
use rtsys.Rttest.Pack.{bit}
use rtsys.Rttest.Cases.{increment-bit, bit-le}
use rtsys.Rtplf.Memory.{mem_copy, copy_bytes}
use rtsys.Rttest.{
  WriteOctet, Action, TestCase, Group, four_cc, enter_group, exit_group, end_of_file, write_octets,
  write_preamble, write_rest, id_octets, run_action, run_cases, run_test_cases, run_group,
  run_groups, run, is_in, judge, increment,
}
use rtsys.Rttest.Lost.Calls.{
  Safe, Whole, Whole-bind, Whole-then, Whole-if, Whole-done, Safe-write, Safe-both, Safe-world,
  Safe-intro, Safe-error, run_action-Safe, CasesKeep, ActionKeeps, GroupKeeps, GroupsKeep,
  WritesKeep,
}
use rtsys.Rttest.Lost.Cases.{write_octets-keeps, Safe-last, run_test_cases-Whole}

-- The size of a set of groups.
abbrev pub size_of : Option (List ℕ) → ℕ
size_of none = 0
size_of (some ids) = length ids

is_in-answers :
    (id : ℕ) (groups : Option (List ℕ)) → (b : Bool) × (is_in id groups (size_of groups) ≡ done b)
is_in-answers id none = (true, (is_in-occurs id 0 []).0)
is_in-answers id (some []) = (true, (is_in-occurs id 0 []).1)
is_in-answers id (some (x ∷ ids)) =
    (occurs id (x ∷ ids), (is_in-occurs id 0 (x ∷ ids)).2 (omega arith))

module _ {W : Type 0} (P : W → Type 0) where
  module _ (write : WriteOctet W) (writes : WritesKeep P write) where
    run_group-Whole : (g : Group W) (w : W) → GroupKeeps P g → P w → Whole P (run_group write g w)
    unfolding run_group
    run_group-Whole g w k h =
        let first : Bool × W = write enter_group w in
        let sent : Bool × W = write_octets write (id_octets 4 g.id) first.1 in
        let started : ℤ × W =
          run_action g.entry_action (negsuc 1) (if first.0 && sent.0 then pos 0 else negsuc 0)
            sent.1 in
        let before : Safe P started =
          run_action-Safe P g.entry_action 1 (if first.0 && sent.0 then pos 0 else negsuc 0) sent.1
            k.entry
            (Safe-both P first.0 sent.0 sent.1 (λ e e'.
              write_octets-keeps P write writes (id_octets 4 g.id) first.1 e'
                (writes enter_group w e h))) in
        let finish : ℤ × W → Outcome (ℤ × W) = λ r.
          (let (ret, w') = run_action g.exit_action (negsuc 2) r.0 r.1 in
            let (left, w'') = write exit_group w' in
            done (if is_negative ret then (ret, w') else (if left then ret else negsuc 0, w''))) in
        Whole-then P
          (if is_negative started.0 then done started else run_test_cases write g started.1) finish
          (Whole-if P (is_negative started.0) (done started) (run_test_cases write g started.1)
            (λ e. Whole-done P started before)
            (λ e.
              run_test_cases-Whole P write writes g started.1 k (Safe-world P started before e)))
          (λ r s. Whole-done P _ (
            Safe-last P write writes exit_group (run_action g.exit_action (negsuc 2) r.0 r.1)
              (run_action-Safe P g.exit_action 2 r.0 r.1 k.exit s)))

    -- The loop goes on, for a group that is selected or not, only without an error.
    run_groups-Whole :
        (gs : List (Group W)) (groups : Option (List ℕ)) (n : ℕ) (w : W)
        → GroupsKeep P gs
        → P w
        → Whole P (run_groups write gs groups (size_of groups) (pos n) w)
    unfolding run_groups Safe Whole
    run_groups-Whole [] groups n w k h = Whole-done P (pos n, w) (λ e. h)
    run_groups-Whole (g ∷ gs) groups n w (k, ks) h =
        let later : ℤ × W → Outcome (ℤ × W) =
          λ r. run_groups write gs groups (size_of groups) r.0 r.1 in
        let rest : Bool → ℤ × W → Outcome (ℤ × W) =
          λ chosen r. if chosen && is_negative r.0 then done (r.0, r.1) else later r in
        Whole-bind P (is_in g.id groups (size_of groups))
          (λ chosen. (if chosen then run_group write g w else done (pos n, w)) >>= rest chosen)
          (is_in-answers g.id groups).1
          (by_choice (run_groups-Whole gs groups) (is_in-answers g.id groups).0)
      where
        go_on :
            ((m : ℕ) (v : W)
              → GroupsKeep P gs
              → P v
              → Whole P (run_groups write gs groups (size_of groups) (pos m) v))
            → (r : ℤ × W) → Safe P r
            → Whole P (
                if is_negative r.0
                then done (r.0, r.1)
                else run_groups write gs groups (size_of groups) r.0 r.1)
        go_on ih (negsuc m, v) s = Whole-done P (negsuc m, v) s
        go_on ih (pos m, v) s = ih m v ks (s refl)

        by_choice :
            ((m : ℕ) (v : W)
              → GroupsKeep P gs
              → P v
              → Whole P (run_groups write gs groups (size_of groups) (pos m) v))
            → (chosen : Bool)
            → Whole P (
                (if chosen then run_group write g w else done (pos n, w)) >>= λ r.
                if chosen && is_negative r.0
                then done (r.0, r.1)
                else run_groups write gs groups (size_of groups) r.0 r.1)
        by_choice ih true =
            Whole-then P (run_group write g w) _ (run_group-Whole g w k h) (go_on ih)
        by_choice ih false = ih n w ks h

    write_preamble-Whole : (w : W) → P w → Whole P (write_preamble write w)
    unfolding write_preamble mem_copy copy_bytes
    write_preamble-Whole w h = Whole-done P _ (
        Safe-write P (write_octets write four_cc w).0 (pos 0) (write_octets write four_cc w).1
          (λ e n. write_octets-keeps P write writes four_cc w e h))

    -- A run of `RTTestRun` on groups, at least one, whose numbers of test cases are positive
    -- and fit an `int32_t`, returns, for every set of ids with its size and every output
    -- function. If it returns no error code, a property of the world that test cases, actions
    -- and successful writes keep still holds: a failed write, which may break it, has not
    -- happened unnoticed.
    pub run-keeps :
        (first : List (Group W)) (groups : Option (List ℕ)) (w : W)
        → 0 < length first
        → GroupsKeep P first
        → P w
        → (r : ℤ × W) × (run first (some write) groups (size_of groups) w ≡ done r)
          × (is_negative r.0 ≡ false → P r.1)
    unfolding run Whole Safe
    run-keeps first groups w p k h =
        let finish : ℤ × W → Outcome (ℤ × W) = λ r. done (
          if is_negative r.0
          then r
          else (if (write end_of_file r.1).0 then r.0 else negsuc 0, (write end_of_file r.1).1)) in
        Whole-bind P (assert (ltb 0 (length first)))
          (λ u. write_preamble write w >>= λ r.
            if is_negative r.0
            then done r
            else (run_groups write first groups (size_of groups) r.0 r.1 >>= finish))
          (ap assert (lt→ltb 0 (length first) p))
          (Whole-then P (write_preamble write w) _ (write_preamble-Whole w h) groups_then)
      where
        groups_then :
            (r : ℤ × W)
            → Safe P r
            → Whole P (
                if is_negative r.0
                then done r
                else (run_groups write first groups (size_of groups) r.0 r.1 >>= λ r'. done (
                    if is_negative r'.0 then r' else (
                      if (write end_of_file r'.1).0 then r'.0 else negsuc 0,
                      (write end_of_file r'.1).1,
                    ))))
        groups_then (negsuc m, v) s = Whole-done P (negsuc m, v) s
        groups_then (pos m, v) s =
            Whole-then P (run_groups write first groups (size_of groups) (pos m) v) _
              (run_groups-Whole first groups m v k (s refl))
              (λ r' s'. Whole-done P _ (Safe-last P write writes end_of_file r' s'))
