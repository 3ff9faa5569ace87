-- ===== src/Rttest.antt =====
-- The unit test runner, src/rttest/src/rttest.c. `W` is what test cases, actions and the output function
-- can change.
pub mod GroupMap
pub mod Strings
pub mod MapBuilder
pub mod Parser
pub mod Pack
pub mod Logged
pub mod Cases
pub mod Report
pub mod Tally
pub mod Verdict
pub mod Script
pub mod Stops
pub mod Checks
pub mod Lost
pub mod Main
pub mod Register
mod Tests
use Prim.Native.Nat.{bit_or}
use rtsys.Base.{
  ℕ, zero, suc, ◌+◌, ◌*◌, ◌%◌, ◌/◌, ◌^◌, Bool, true, false, not, ◌&&◌, ◌||◌, Option, none, some,
  List, [], ◌∷◌, get_elem?, ltb, ◌==◌, if◌then◌else◌, length, ℤ, pos, negsuc, is_negative, is_zero,
  Outcome, done, panic, fault, ◌>>=◌, ◌>>◌, assert, non_null,
}
use rtsys.Rtplf.Memory.{mem_copy}

-- `RTTestWriteOctet`: whether the octet has been written
abbrev pub WriteOctet : Type 0 → Type 0
WriteOctet W = ℕ → W → Bool × W

-- `RTPrivTestAction`
abbrev pub Action : Type 0 → Type 0
Action W = W → Bool × W

-- `RTPrivTestCase`
abbrev pub TestCase : Type 0 → Type 0
TestCase W = W → ℤ × W

-- `struct RTTestGroup`; `testCases` is the list of the pointers before the one that is NULL. The
-- chain of the `next` pointers is a list of groups.
pub record Group (W : Type 0) : Type 0 where
  pub id : ℕ
  pub entry_action : Option (Action W)
  pub exit_action : Option (Action W)
  pub test_cases : List (TestCase W)

-- "RTTa", '>', '<' and '*' of src/rttest/include/rttest_format.h
abbrev pub four_cc : List ℕ
four_cc = 82 ∷ 84 ∷ 84 ∷ 97 ∷ []

abbrev pub enter_group : ℕ
enter_group = 62

abbrev pub exit_group : ℕ
exit_group = 60

abbrev pub end_of_file : ℕ
end_of_file = 42

-- `ret++` on an `int32_t`, whose overflow is undefined
unfoldable pub increment : ℕ → Outcome ℕ
increment ret = if ltb (ret + 1) (2 ^ 31) then done (ret + 1) else fault

-- `rttestIsIn`, from index `i` of the set on, as long as nothing is found
unfoldable pub is_in_from : ℕ → List ℕ → ℕ → ℕ → Outcome Bool
is_in_from x set zero i = done false
is_in_from x set (suc rounds) i =
    let later = is_in_from x set rounds (i + 1) in
    elim (get_elem? set i) [ none ↦ fault | some y ↦ if x == y then done true else later ]

unfoldable pub is_in : ℕ → Option (List ℕ) → ℕ → Outcome Bool
unfolding is_in_from
is_in x none size = done true
is_in x (some set) size = if ltb 0 size then is_in_from x set size 0 else done true

-- The group id in big-endian format: `tmp = id >> 24` and `id <<= 8`, four times.
unfoldable pub id_octets : ℕ → ℕ → List ℕ
id_octets zero id = []
id_octets (suc n) id = id / 2 ^ 24 % 2 ^ 8 ∷ id_octets n (id * 2 ^ 8 % 2 ^ 32)

module _ {W : Type 0} where
  -- The loop of `RTPrivTestRegisterGroup`, which stops at the last group of the chain.
  unfoldable pub append_group : Group W → List (Group W) → Outcome (List (Group W))
  append_group group [] = done (group ∷ [])
  append_group group (last ∷ []) = done (last ∷ group ∷ [])
  append_group group (i ∷ next ∷ rest) = do
    assert (not (i.id == group.id))
    chain ← append_group group (next ∷ rest)
    done (i ∷ chain)

  -- `RTPrivTestRegisterGroup`, for a group that is not registered yet
  unfoldable pub register_group : List (Group W) → Option (Group W) → Outcome (List (Group W))
  unfolding append_group
  register_group first group = do g ← non_null group; append_group g first

  -- What a test case comes to: whether it failed, and whether it or an earlier one asserted.
  unfoldable pub judge : Bool → TestCase W → W → Bool × Bool × W
  judge true test w = (true, true, w)
  judge false test w = let (result, w') = test w in (not (is_zero result), is_negative result, w')

  -- An entry or exit action, skipped once `ret` is negative; `code` is the value for a failure.
  unfoldable pub run_action : Option (Action W) → ℤ → ℤ → W → ℤ × W
  run_action action code ret w = if is_negative ret then (ret, w) else elim action [
    | none ↦ (ret, w)
    | some f ↦ let (ok, w') = f w in (if ok then ret else code, w')
  ]

  module _ (write_octet : WriteOctet W) where
    -- Some octets in order, up to the first that is not written.
    unfoldable pub write_octets : List ℕ → W → Bool × W
    write_octets [] w = (true, w)
    write_octets (octet ∷ octets) w =
        let (ok, w') = write_octet octet w in
        let rest = write_octets octets w' in if ok then rest else (false, w')

    unfoldable pub write_preamble : W → Outcome (ℤ × W)
    unfolding write_octets
    write_preamble w = mem_copy (some (0 ∷ 0 ∷ 0 ∷ 0 ∷ [])) 4 (some four_cc) 4 >>= λ copied.
        elim copied [
          | none ↦ fault
          | some fourcc ↦
              let (ok, w') = write_octets fourcc w in done (if ok then pos 0 else negsuc 0, w')
        ]

    -- After the loop over the test cases: the last octet, if there is one under way.
    unfoldable pub write_rest : ℕ → ℕ → ℤ → W → ℤ × W
    write_rest i bits ret w =
        if i % 8 == 0
        then (ret, w)
        else (let (ok, w') = write_octet bits w in (if ok then ret else negsuc 0, w'))

    -- `rttestRunTestCases` from test case `i` on. A `break` leaves `i` as it is.
    unfoldable pub run_cases : List (TestCase W) → ℕ → Bool → ℕ → ℕ → W → Outcome (ℤ × W)
    unfolding judge increment write_rest
    run_cases [] i asserted bits ret w = done (write_rest i bits (pos ret) w)
    run_cases (test ∷ tests) i asserted bits ret w = do
      let (failed, asserted', w') = judge asserted test w
      let bits' = if failed then bit_or bits (2 ^ (i % 8)) else bits
      ret' ← (if failed then increment ret else done ret)
      let written = write_octet bits' w'
      let full = run_cases tests (i + 1) asserted' 0 ret' written.1
      let filling = run_cases tests (i + 1) asserted' bits' ret' w'
      if (i + 1) % 8 == 0
          then (if written.0 then full else done (write_rest i bits' (negsuc 0) written.1))
          else filling

    unfoldable pub run_test_cases : Group W → W → Outcome (ℤ × W)
    unfolding run_cases
    run_test_cases group w = do
      assert (ltb 0 (length group.test_cases))
      run_cases group.test_cases 0 false 0 0 w

    -- `rttestRunGroup`
    unfoldable pub run_group : Group W → W → Outcome (ℤ × W)
    unfolding run_test_cases id_octets write_octets run_action
    run_group group w = do
      let (entered, w₁) = write_octet enter_group w
      let (sent, w₂) = write_octets (id_octets 4 group.id) w₁
      let (ret, w₃) =
          run_action group.entry_action (negsuc 1) (if entered && sent then pos 0 else negsuc 0) w₂
      (ret', w₄) ← (if is_negative ret then done (ret, w₃) else run_test_cases group w₃)
      let (ret'', w₅) = run_action group.exit_action (negsuc 2) ret' w₄
      let (left, w₆) = write_octet exit_group w₅
      done (if is_negative ret'' then (ret'', w₅) else (if left then ret'' else negsuc 0, w₆))

    -- The loop of `RTTestRun` over the groups; `ret` is left by the last group that ran.
    unfoldable pub run_groups : List (Group W) → Option (List ℕ) → ℕ → ℤ → W → Outcome (ℤ × W)
    unfolding is_in run_group
    run_groups [] groups ngroups ret w = done (ret, w)
    run_groups (group ∷ rest) groups ngroups ret w = do
      selected ← is_in group.id groups ngroups
      (ret', w') ← (if selected then run_group group w else done (ret, w))
      let later = run_groups rest groups ngroups ret' w'
      if selected && is_negative ret' then done (ret', w') else later

  -- `RTTestRun`
  unfoldable pub run :
      List (Group W) → Option (WriteOctet W) → Option (List ℕ) → ℕ → W → Outcome (ℤ × W)
  unfolding write_preamble run_groups
  run first write_octet groups ngroups w = do
    write ← non_null write_octet
    assert (ltb 0 (length first))
    (ret, w') ← write_preamble write w
    if is_negative ret then done (ret, w') else (do
      (ret', w'') ← run_groups write first groups ngroups ret w'
      let (ok, w₃) = write end_of_file w''
      done (if is_negative ret' then (ret', w'') else (if ok then ret' else negsuc 0, w₃)))
