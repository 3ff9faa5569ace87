-- ===== src/Rttest/Stops.antt =====
-- A run of `RTTestRun` that an entry or exit action stops.
use rtsys.Base.{
  ℕ, suc, ◌^◌, ◌<◌, ◌≡◌, refl, ap, sym, ◌∙◌, true, false, Option, none, some, List, [], ◌∷◌, ◌++◌,
  length, arith, ℤ, pos, negsuc, is_negative, done, lt→ltb, ltb,
}
use mathlib.Core.List.{append_assoc}
use rtsys.Rtplf.Memory.{mem_copy, copy_bytes}
use rtsys.Rttest.{
  Action, Group, four_cc, enter_group, write_preamble, id_octets, run_action, run_group, run_groups,
  run, is_in,
}
use rtsys.Rttest.Pack.{pack}
use rtsys.Rttest.Logged.{
  Logged, log_octet, on_user_action, on_user_group, on_user_groups, failures, perform, outcome,
  sections, users_after, AllRun, count_failed,
}
use rtsys.Rttest.Cases.{run_test_cases-pack}
use rtsys.Rttest.Report.{sections_octets, section_octets, run_action-on_user, run_group-section}

module _ {U : Type 0} where
  -- A group that ends the run: the value that is returned, the user's data, and the octets of the group.
  pub data Stops (g : Group U) (u : U) : ℤ → U → List ℕ → Type 0 where
    entry_fails :
        (perform g.entry_action u).0 ≡ false
        → Stops g u (negsuc 1) (perform g.entry_action u).1 (enter_group ∷ id_octets 4 g.id)
    exit_fails :
        (perform g.entry_action u).0 ≡ true
        → 0 < length g.test_cases
        → length g.test_cases < 2 ^ 31
        → (perform g.exit_action (failures g.test_cases (perform g.entry_action u).1).1).0 ≡ false
        → Stops g u
            (negsuc 2)
            (outcome g u).1
            (enter_group ∷ (id_octets 4 g.id ++ pack 0 0 (outcome g u).0))

  run_action-fails :
      (action : Option (Action U)) (code : ℤ) (n : ℕ) (w : Logged U)
      → (perform action w.user).0 ≡ false
      → run_action (on_user_action action) code (pos n) w
        ≡ (code, record w { user = (perform action w.user).1 })
  unfolding run_action
  run_action-fails none code n w e = absurd (cc)
  run_action-fails (some f) code n w e = rw e

  run_group-Stops :
      (g : Group U) (w : Logged U) {code : ℤ} {user : U} {octets : List ℕ}
      → Stops g w.user code user octets
      → (run_group log_octet (on_user_group g) w
          ≡ done (code, record { user = user; octets = w.octets ++ octets }))
        × (is_negative code ≡ true)
  unfolding run_group log_octet run_action
  run_group-Stops g w (entry_fails e) =
      (simp (run_action-fails g.entry_action (negsuc 1) 0 _ e, append_assoc) refl, refl)
  run_group-Stops g w (exit_fails e p c x) = (
    simp
        (
          run_action-on_user g.entry_action (negsuc 1) 0 _ e,
          run_test_cases-pack (on_user_group g) g.test_cases _ refl p c,
          run_action-fails g.exit_action (negsuc 2) _ _ x,
          append_assoc,
        )
        refl,
    refl,
  )

  run_groups-Stops :
      (gs : List (Group U)) (g : Group U) (rest : List (Group U)) (n : ℕ) (w : Logged U) {code : ℤ}
      {user : U} {octets : List ℕ}
      → AllRun gs w.user
      → Stops g (users_after gs w.user) code user octets
      → (run_groups log_octet (on_user_groups (gs ++ (g ∷ rest))) none 0 (pos n) w
          ≡ done (
            code,
            record {
              user = user;
              octets = w.octets ++ (sections_octets (sections gs w.user) ++ octets);
            },
          ))
        × (is_negative code ≡ true)
  unfolding run_groups is_in
  run_groups-Stops [] g rest n w a s = let (e, k) = run_group-Stops g w s in (simp (e, k) refl, k)
  run_groups-Stops (h ∷ gs) g rest n w {code} {user} {octets} (r, a) s =
      let (e, k) =
        run_groups-Stops gs g rest (count_failed (outcome h w.user).0)
          (record {
            user = (outcome h w.user).1;
            octets = w.octets ++ section_octets h.id (outcome h w.user).0;
          })
          a s in
      (
        simp (run_group-section h w r) (
            e
            ∙ ap (λ os. done (code, record { user = user; octets = os }))
                (append_assoc w.octets (section_octets h.id (outcome h w.user).0)
                    (sections_octets (sections gs (outcome h w.user).1) ++ octets)
                  ∙ ap (λ os. w.octets ++ os)
                      (sym (
                        append_assoc (section_octets h.id (outcome h w.user).0)
                          (sections_octets (sections gs (outcome h w.user).1)) octets)))),
        k,
      )

  -- A run of all the groups, with an output that stores every octet, comes to a group behind
  -- groups whose ids are 32-bit words, whose numbers of test cases are positive and fit an
  -- `int32_t`, and whose actions succeed. If the entry action of that group fails, `RTTestRun`
  -- returns -2, without the group's test cases, its exit action and its results. If its entry
  -- action succeeds, its number of test cases is positive and fits an `int32_t`, and its exit
  -- action fails, `RTTestRun` returns -3 behind its results. In both cases the group's end, the
  -- groups behind it and the end of the file are not written.
  pub run-Stops :
      (gs : List (Group U)) (g : Group U) (rest : List (Group U)) (u : U) {code : ℤ} {user : U}
      {octets : List ℕ}
      → AllRun gs u
      → Stops g (users_after gs u) code user octets
      → run
          (on_user_groups (gs ++ (g ∷ rest)))
          (some log_octet)
          none
          0
          (record { user = u; octets = [] })
        ≡ done (
          code,
          record { user = user; octets = four_cc ++ (sections_octets (sections gs u) ++ octets) },
        )
  unfolding run write_preamble mem_copy copy_bytes log_octet
  run-Stops gs g rest u a s =
      let (e, k) = run_groups-Stops gs g rest 0 (record { user = u; octets = four_cc }) a s in
      simp (some_groups gs, e, k) refl
    where
      some_groups :
          (hs : List (Group U)) → ltb 0 (length (on_user_groups (hs ++ (g ∷ rest)))) ≡ true
      some_groups [] = lt→ltb 0 (suc (length (on_user_groups rest))) (omega arith)
      some_groups (h ∷ hs) =
          lt→ltb 0 (suc (length (on_user_groups (hs ++ (g ∷ rest))))) (omega arith)
