-- ===== src/Rttest/Verdict.antt =====
-- What src/rttest/scripts/rttest2text.py makes of the output of `RTTestRun`.
use rtsys.Base.{
  ℕ, suc, ◌+◌, ◌^◌, ◌<◌, ◌≡◌, refl, ap, ap₂, sym, ◌∙◌, Bool, true, false, Option, none, some, List,
  [], ◌∷◌, ◌++◌, if◌then◌else◌, length, arith, leb, pos, Outcome, done, ◌>>=◌,
}
use mathlib.Core.List.{append_assoc}
use rtsys.Rttest.{Group, TestCase, id_octets, end_of_file, four_cc, run}
use rtsys.Rttest.GroupMap.{MapGroup, find_group}
use rtsys.Rttest.Parser.{
  Printed, Progress, last_line, read_byte, read_id, parse_group, parse_groups, parse,
}
use rtsys.Rttest.Logged.{
  log_octet, on_user_groups, failures, all_failed, count_failed, perform, outcome, sections,
  users_after, last_count, AllRun,
}
use rtsys.Rttest.Report.{section_octets, sections_octets, run-sections}
use rtsys.Rttest.Tally.{
  group_lines, report, all_results, advance, advance-nil, advance-append, read_results-lines,
}

abbrev start : Progress
start = record { failed = 0; total = 0; printed = [] }

-- The end of `Parse`.
abbrev conclude : Progress → Outcome (Bool × List Printed)
conclude p = done (leb p.failed 0, p.printed ++ (last_line p.failed p.total ∷ []))

zero_add : (n : ℕ) → 0 + n ≡ n
zero_add n = omega arith

read_id-id_octets :
    (id : ℕ) (more : List ℕ) → id < 2 ^ 32 → read_id 4 0 (id_octets 4 id ++ more) ≡ done (id, more)
unfolding read_id id_octets read_byte
read_id-id_octets id more h = ap (λ gid. done (gid, more)) (omega arith)

parse_group-section :
    (verbose : Bool) (rttmap : List MapGroup) (g : MapGroup) (p : Progress) (id : ℕ)
    (results : List Bool) (more : List ℕ)
    → id < 2 ^ 32
    → find_group rttmap (pos id) ≡ some g
    → length g.cases ≡ length results
    → parse_group verbose rttmap p (section_octets id results ++ more)
      ≡ done (false, (advance p (group_lines verbose g id results) results, more))
unfolding parse_group read_byte
parse_group-section true rttmap g p id results more h e l =
    simp (append_assoc, read_id-id_octets id _ h, e, read_results-lines true g.cases results _ _ l)
      refl
parse_group-section false rttmap g p id results more h e l =
    simp (append_assoc, read_id-id_octets id _ h, e, read_results-lines false g.cases results _ _ l)
      refl

-- The sections of a file that the parser can read with its map of the groups.
abbrev AllMapped : List MapGroup → List (ℕ × List Bool) → Type 0
AllMapped rttmap [] = Unit
AllMapped rttmap ((id, results) ∷ rest) =
    (id < 2 ^ 32)
    × ((g : MapGroup) × (find_group rttmap (pos id) ≡ some g) × (length g.cases ≡ length results))
    × AllMapped rttmap rest

parse_groups-sections :
    (verbose : Bool) (rttmap : List MapGroup) (ss : List (ℕ × List Bool)) (p : Progress)
    → AllMapped rttmap ss
    → parse_groups (suc (length ss)) verbose rttmap p (sections_octets ss ++ (end_of_file ∷ []))
      ≡ done (advance p (report verbose rttmap ss) (all_results ss))
unfolding parse_groups
parse_groups-sections verbose rttmap [] p a =
    unfold parse_group read_byte in ap done (sym (advance-nil p))
parse_groups-sections verbose rttmap ((id, results) ∷ rest) p (h, (g, e, l), a) =
    let lines = group_lines verbose g id results in
    let later = parse_groups-sections verbose rttmap rest (advance p lines results) a in
    ap (parse_groups (suc (suc (length rest))) verbose rttmap p)
      (append_assoc (section_octets id results) (sections_octets rest) (end_of_file ∷ []))
    ∙ ap
        (λ (m : Outcome (Bool × (Progress × List ℕ))). m >>= λ (r : Bool × (Progress × List ℕ)).
          if r.0
          then done (r.1.0)
          else parse_groups (suc (length rest)) verbose rttmap (r.1.0) (r.1.1))
        (parse_group-section verbose rttmap g p id results
          (sections_octets rest ++ (end_of_file ∷ [])) h e l)
    ∙ later
    ∙ ap done (advance-append p lines (report verbose rttmap rest) results (all_results rest))
    ∙ ap
        (λ (o : Option MapGroup). done (
          advance p
            ((elim o [ none ↦ [] | some g' ↦ group_lines verbose g' id results ])
              ++ report verbose rttmap rest)
            (results ++ all_results rest)))
        (sym e)

module _ {U : Type 0} where
  -- The map of the script has each group, with as many test cases.
  abbrev pub Knows : List MapGroup → List (Group U) → Type 0
  Knows rttmap [] = Unit
  Knows rttmap (g ∷ gs) =
      ((m : MapGroup) × (find_group rttmap (pos g.id) ≡ some m)
        × (length m.cases ≡ length g.test_cases))
      × Knows rttmap gs

  length-all_failed : (tests : List (TestCase U)) → length (all_failed tests) ≡ length tests
  length-all_failed [] = refl
  length-all_failed (test ∷ tests) = ap suc (length-all_failed tests)

  length-failures : (tests : List (TestCase U)) (u : U) → length (failures tests u).0 ≡ length tests
  unfolding failures
  length-failures [] u = refl
  length-failures (test ∷ tests) u =
      grind (arith, length-all_failed tests, length-failures tests (test u).1)

  sections-AllMapped :
      (rttmap : List MapGroup) (gs : List (Group U)) (u : U)
      → Knows rttmap gs
      → AllRun gs u
      → AllMapped rttmap (sections gs u)
  sections-AllMapped rttmap [] u k a = tt
  sections-AllMapped rttmap (g ∷ gs) u ((m, e, l), k) (r, a) = (
    r.id_word,
    (m, e, l ∙ sym (length-failures g.test_cases (perform g.entry_action u).1)),
    sections-AllMapped rttmap gs (outcome g u).1 k a,
  )

  length-on_user_groups : (gs : List (Group U)) → length (on_user_groups gs) ≡ length gs
  length-on_user_groups [] = refl
  length-on_user_groups (g ∷ gs) = ap suc (length-on_user_groups gs)

  length-sections : (gs : List (Group U)) (u : U) → length (sections gs u) ≡ length gs
  length-sections [] u = refl
  length-sections (g ∷ gs) u = ap suc (length-sections gs (outcome g u).1)

  -- A run of all the groups, at least one, whose ids are 32-bit words, whose numbers of test
  -- cases are positive and fit an `int32_t`, and whose actions succeed, with an output that
  -- stores every octet, returns the number of failures in the last group. A script whose map
  -- has each group with as many test cases reads what it wrote to the end: it prints, for each
  -- group in turn and with its name and id if it is verbose, the test cases that failed, and
  -- those that passed if it is verbose, then how many failed of how many in all the groups
  -- together; it reports success if and only if none failed in any of them.
  pub run-parse :
      (verbose : Bool) (rttmap : List MapGroup) (gs : List (Group U)) (u : U)
      → 0 < length gs
      → AllRun gs u
      → Knows rttmap gs
      → (file : List ℕ) × (run
            (on_user_groups gs)
            (some log_octet)
            none
            0
            (record { user = u; octets = [] })
          ≡ done (pos (last_count 0 gs u), record { user = users_after gs u; octets = file }))
        × (parse (suc (length gs)) verbose rttmap file ≡ (
            let results = all_results (sections gs u) in
            done (
              leb (count_failed results) 0,
              report verbose rttmap (sections gs u)
                  ++ (last_line (count_failed results) (length results) ∷ []),
            )))
  unfolding parse
  run-parse verbose rttmap gs u some_groups a k = (
    four_cc ++ (sections_octets (sections gs u) ++ (end_of_file ∷ [])),
    run-sections (on_user_groups gs) none 0 gs u (omega (arith, length-on_user_groups gs)) refl a,
    ap (λ (m : Outcome Progress). m >>= conclude)
          (ap
              (λ n.
                parse_groups (suc n) verbose rttmap start
                  (sections_octets (sections gs u) ++ (end_of_file ∷ [])))
              (sym (length-sections gs u))
            ∙ parse_groups-sections verbose rttmap (sections gs u) start
                (sections-AllMapped rttmap gs u k a))
        ∙ ap₂
            (λ failed total. conclude (record {
              failed = failed;
              total = total;
              printed = report verbose rttmap (sections gs u);
            }))
            (zero_add (count_failed (all_results (sections gs u))))
            (zero_add (length (all_results (sections gs u)))),
  )
