-- ===== src/Rttest/Parser.antt =====
-- `RttParser` of src/rttest/scripts/rttest2text.py, which reads the output of a test run. A
-- `RuntimeError` ends the script: it is `panic` here.
pub mod Ends
use rtsys.Base.{
  ℕ, zero, suc, ◌+◌, ◌*◌, ◌%◌, ◌/◌, ◌^◌, Bool, true, false, Option, none, some, List, [], ◌∷◌, ◌++◌,
  ◌==◌, if◌then◌else◌, ltb, leb, pos, Outcome, done, panic, timeout, ◌>>=◌, ◌>>◌, assert,
}
use rtsys.Rttest.{enter_group, exit_group, end_of_file}
use rtsys.Rttest.GroupMap.{Text, MapCase, MapGroup, find_group}

-- The lines that the parser prints
pub data Printed : Type 0 where
  group_line : Text → ℕ → Printed
  fail_line : MapCase → Printed
  pass_line : MapCase → Printed
  tests_fail : ℕ → ℕ → Printed
  tests_pass : ℕ → Printed

-- The counters of the parser, and what it printed
pub record Progress : Type 0 where
  pub failed : ℕ
  pub total : ℕ
  pub printed : List Printed

abbrev pub print_line : Printed → Progress → Progress
print_line line p = record p { printed = p.printed ++ (line ∷ []) }

-- `readByte`: the byte, and the rest of the file
unfoldable pub read_byte : List ℕ → Outcome (ℕ × List ℕ)
read_byte [] = panic
read_byte (byte ∷ rest) = done (byte, rest)

-- The loop over the group id: `gid = (gid << 8) | (ord(byte) & 0xff)`
unfoldable pub read_id : ℕ → ℕ → List ℕ → Outcome (ℕ × List ℕ)
unfolding read_byte
read_id zero gid file = done (gid, file)
read_id (suc n) gid file = do
  (byte, rest) ← read_byte file
  read_id n (gid * 2 ^ 8 + byte % 2 ^ 8) rest

-- A test case that failed, or did not
unfoldable pub count_case : Bool → MapCase → Bool → Progress → Progress
count_case verbose tc true p = record (print_line (fail_line tc) p) {
  failed = p.failed + 1;
  total = p.total + 1;
}
count_case verbose tc false p = record (if verbose then print_line (pass_line tc) p else p) {
  total = p.total + 1;
}

-- The loop over the test cases of a group
unfoldable pub read_results :
    Bool → List MapCase → ℕ → ℕ → Progress → List ℕ → Outcome (Progress × List ℕ)
unfolding read_byte
read_results verbose [] testno bits p file = done (p, file)
read_results verbose (tc ∷ cases) testno bits p file = do
  (bits', rest) ← (if testno % 8 == 0 then read_byte file else done (bits, file))
  let p' = count_case verbose tc (bits' % 2 == 1) p
  read_results verbose cases (testno + 1) (bits' / 2) p' rest

-- `parseGroup`, which says whether the file ended
unfoldable pub parse_group :
    Bool → List MapGroup → Progress → List ℕ → Outcome (Bool × (Progress × List ℕ))
unfolding read_byte read_id read_results
parse_group verbose rttmap p file = do
  (byte, rest) ← read_byte file
  if byte == end_of_file then done (true, (p, rest)) else (do
    assert (byte == enter_group)
    (gid, rest') ← read_id 4 0 rest
    group ← elim (find_group rttmap (pos gid)) [ none ↦ panic | some g ↦ done g ]
    let p' = if verbose then print_line (group_line group.name gid) p else p
    (p'', rest'') ← read_results verbose group.cases 0 0 p' rest'
    (last, rest''') ← read_byte rest''
    assert (last == exit_group)
    done (false, (p'', rest''')))

-- The `while` loop of `Parse`, on the rounds left
unfoldable pub parse_groups : ℕ → Bool → List MapGroup → Progress → List ℕ → Outcome Progress
unfolding parse_group
parse_groups zero verbose rttmap p file = timeout
parse_groups (suc rounds) verbose rttmap p file = do
  (eof, (p', rest)) ← parse_group verbose rttmap p file
  let later = parse_groups rounds verbose rttmap p' rest
  if eof then done p' else later

-- The line that `Parse` prints last
unfoldable pub last_line : ℕ → ℕ → Printed
last_line failed total = if ltb 0 failed then tests_fail failed total else tests_pass total

-- `Parse`: what it returns, and what it printed
unfoldable pub parse : ℕ → Bool → List MapGroup → List ℕ → Outcome (Bool × List Printed)
unfolding parse_groups last_line
parse rounds verbose rttmap (b₀ ∷ b₁ ∷ b₂ ∷ b₃ ∷ file) = do
  assert (b₀ == 82)
  assert (b₁ == 84)
  assert (b₂ == 84)
  assert (b₃ == 97)
  p ← parse_groups rounds verbose rttmap (record { failed = 0; total = 0; printed = [] }) file
  done (leb p.failed 0, p.printed ++ (last_line p.failed p.total ∷ []))
parse rounds verbose rttmap _ = panic
