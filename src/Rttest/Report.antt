-- ===== src/Rttest/Report.antt =====
-- The output of `RTTestRun` as a whole, in terms of the results of the test cases.
use rtsys.Base.{
  ℕ, ◌<◌, ◌≡◌, refl, ap, sym, ◌∙◌, Bool, true, Option, none, some, List, [], ◌∷◌, ◌++◌, length, ℤ,
  pos, negsuc, done, lt→ltb,
}
use mathlib.Core.List.{append_assoc, append-nil}
use rtsys.Rtplf.Memory.{mem_copy, copy_bytes}
use rtsys.Rttest.{
  Action, Group, four_cc, enter_group, exit_group, end_of_file, write_octets, write_preamble,
  id_octets, run_action, run_group, run_groups, run, is_in,
}
use rtsys.Rttest.Pack.{pack}
use rtsys.Rttest.Logged.{
  Logged, log_octet, on_user_action, on_user_group, on_user_groups, count_failed, perform, outcome,
  sections, users_after, last_count, Runs, AllRun,
}
use rtsys.Rttest.Cases.{run_test_cases-pack}

-- A group's part of the output.
abbrev pub section_octets : ℕ → List Bool → List ℕ
section_octets id results =
    enter_group ∷ (id_octets 4 id ++ (pack 0 0 results ++ (exit_group ∷ [])))

abbrev pub sections_octets : List (ℕ × List Bool) → List ℕ
sections_octets [] = []
sections_octets ((id, results) ∷ rest) = section_octets id results ++ sections_octets rest

module _ {U : Type 0} where
  write_octets-log :
      (octets : List ℕ) (w : Logged U)
      → write_octets log_octet octets w ≡ (true, record w { octets = w.octets ++ octets })
  unfolding write_octets log_octet
  write_octets-log [] w = ap (λ os. (true, record w { octets = os })) (sym (append-nil w.octets))
  write_octets-log (octet ∷ octets) w =
      rw (write_octets-log octets (record w { octets = w.octets ++ (octet ∷ []) }), append_assoc)

  pub run_action-on_user :
      (action : Option (Action U)) (code : ℤ) (n : ℕ) (w : Logged U)
      → (perform action w.user).0 ≡ true
      → run_action (on_user_action action) code (pos n) w
        ≡ (pos n, record w { user = (perform action w.user).1 })
  unfolding run_action
  run_action-on_user none code n w e = refl
  run_action-on_user (some f) code n w e = rw e

  pub run_group-section :
      (g : Group U) (w : Logged U)
      → Runs g w.user
      → run_group log_octet (on_user_group g) w
        ≡ done (
          pos (count_failed (outcome g w.user).0),
          record {
            user = (outcome g w.user).1;
            octets = w.octets ++ section_octets g.id (outcome g w.user).0;
          },
        )
  unfolding run_group log_octet
  run_group-section g w r =
      simp
        (
          run_action-on_user g.entry_action (negsuc 1) 0 _ r.enters,
          run_test_cases-pack (on_user_group g) g.test_cases _ refl r.some_cases r.countable,
          run_action-on_user g.exit_action (negsuc 2) _ _ r.exits,
          append_assoc,
        )
        refl

  run_groups-sections :
      (gs : List (Group U)) (n : ℕ) (w : Logged U)
      → AllRun gs w.user
      → run_groups log_octet (on_user_groups gs) none 0 (pos n) w
        ≡ done (
          pos (last_count n gs w.user),
          record {
            user = users_after gs w.user;
            octets = w.octets ++ sections_octets (sections gs w.user);
          },
        )
  unfolding run_groups is_in
  run_groups-sections [] n w a =
      ap (λ os. done (pos n, record w { octets = os })) (sym (append-nil w.octets))
  run_groups-sections (g ∷ gs) n w (r, a) = simp (run_group-section g w r) (
      run_groups-sections gs (count_failed (outcome g w.user).0)
        (record {
          user = (outcome g w.user).1;
          octets = w.octets ++ section_octets g.id (outcome g w.user).0;
        })
        a
      ∙ ap
          (λ os. done (
            pos (last_count n (g ∷ gs) w.user),
            record { user = users_after (g ∷ gs) w.user; octets = os },
          ))
          (append_assoc w.octets (section_octets g.id (outcome g w.user).0)
            (sections_octets (sections gs (outcome g w.user).1))))

  pub run-sections :
      (first : List (Group (Logged U))) (groups : Option (List ℕ)) (ngroups : ℕ)
      (gs : List (Group U)) (u : U)
      → 0 < length first
      → run_groups log_octet first groups ngroups (pos 0) (record { user = u; octets = four_cc })
        ≡ run_groups log_octet
            (on_user_groups gs)
            none
            0
            (pos 0)
            (record { user = u; octets = four_cc })
      → AllRun gs u
      → run first (some log_octet) groups ngroups (record { user = u; octets = [] })
        ≡ done (
          pos (last_count 0 gs u),
          record {
            user = users_after gs u;
            octets = four_cc ++ (sections_octets (sections gs u) ++ (end_of_file ∷ []));
          },
        )
  unfolding run write_preamble mem_copy copy_bytes log_octet
  run-sections first groups ngroups gs u p e a =
      simp
        (
          lt→ltb 0 (length first) p,
          e,
          run_groups-sections gs 0 (record { user = u; octets = four_cc }) a,
        )
        refl
