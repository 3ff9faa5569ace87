-- ===== src/Rttest/Script.antt =====
-- src/rttest/scripts/rttest2text.py as a whole.
pub mod Tests
use rtsys.Base.{
  ℕ, suc, ◌<◌, ◌≡◌, refl, ap, ◌∙◌, Bool, true, false, Option, none, some, List, [], ◌∷◌, ◌++◌,
  if◌then◌else◌, leb, length, pos, Outcome, done, ◌>>=◌,
}
use rtsys.Rttest.{Group, run}
use rtsys.Rttest.GroupMap.{Text}
use rtsys.Rttest.MapBuilder.{build}
use rtsys.Rttest.MapBuilder.Sources.{Block, AllFiles, source_files, groups_of, AllNew}
use rtsys.Rttest.MapBuilder.Builds.{build-source_files}
use rtsys.Rttest.Parser.{Printed, last_line, parse}
use rtsys.Rttest.Logged.{
  Logged, log_octet, on_user_groups, count_failed, sections, users_after, last_count, AllRun,
}
use rtsys.Rttest.Tally.{report, all_results}
use rtsys.Rttest.Verdict.{Knows, run-parse}

-- The end of the script: the exit code, and what it printed. The source files are given as their
-- paths and lines, and the output of a run as its octets.
unfoldable pub script : ℕ → Bool → List (Text × List Text) → List ℕ → Outcome (ℕ × List Printed)
unfolding build parse
script rounds verbose files file = do
  rttmap ← build files
  (passed, printed) ← parse rounds verbose rttmap file
  done ((if passed then 0 else 1), printed)

module _ {U : Type 0} where
  -- A run of all the groups, at least one, whose ids are 32-bit words, whose numbers of test
  -- cases are positive and fit an `int32_t`, and whose actions succeed, with an output that
  -- stores every octet, returns the number of failures in the last group. The script, given
  -- what the run wrote and source files, in the layout of Rttest/MapBuilder/Sources, that
  -- define groups with different ids, among them those of the run with as many test cases each,
  -- reads both to the end: it prints, for each group of the run in turn and with its name and
  -- id if it is verbose, the test cases that failed, each with its place in the source files,
  -- and those that passed if it is verbose, then how many failed of how many in all the groups
  -- together. It exits with 0 if none failed in any of them, and with 1 otherwise.
  pub script-run :
      (verbose : Bool) (files : List (Text × List Block)) (gs : List (Group U)) (u : U)
      → AllFiles files
      → AllNew [] (groups_of files)
      → Knows (groups_of files) gs
      → 0 < length gs
      → AllRun gs u
      → (file : List ℕ) × (run
            (on_user_groups gs)
            (some log_octet)
            none
            0
            (record { user = u; octets = [] })
          ≡ done (pos (last_count 0 gs u), record { user = users_after gs u; octets = file }))
        × (script (suc (length gs)) verbose (source_files files) file ≡ (
            let results = all_results (sections gs u) in
            done (
              (if leb (count_failed results) 0 then 0 else 1),
              report verbose (groups_of files) (sections gs u)
                  ++ (last_line (count_failed results) (length results) ∷ []),
            )))
  unfolding script
  script-run verbose files gs u a new k some_groups r =
      let (file, ran, read) = run-parse verbose (groups_of files) gs u some_groups r k in
      (
        file,
        ran,
        ap
              (λ m. m >>= λ rttmap.
                parse (suc (length gs)) verbose rttmap file >>= λ (x : Bool × List Printed).
                done ((if x.0 then 0 else 1), x.1))
              (build-source_files files a new)
            ∙ ap (λ m. m >>= λ (x : Bool × List Printed). done ((if x.0 then 0 else 1), x.1)) read,
      )
