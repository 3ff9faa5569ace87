-- ===== src/Rttest/Cases.antt =====
-- `rttestRunTestCases`: the octets it writes and the number it returns.
use rtsys.Base.{
  ℕ, suc, ◌+◌, ◌*◌, ◌%◌, ◌^◌, ◌<◌, ◌≤◌, ◌≡◌, ◌≢◌, refl, ap, ap₂, ◌∙◌, inl, inr, Bool, true, false,
  List, [], ◌∷◌, ◌++◌, ◌==◌, if◌then◌else◌, length, arith, ℤ, pos, Outcome, done, lt→ltb,
  ne→==_false, eq-cases, Bool-cases,
}
use Prim.Native.Nat.{bit_or}
use mathlib.Core.List.{append_assoc, append-nil}
use native.Mathlib.Nat.{pow-succ'}
use rtsys.Rttest.{TestCase, Group, run_cases, run_test_cases, judge, increment, write_rest}
use rtsys.Rttest.Logged.{
  Logged, log_octet, on_user, on_user_cases, failures, all_failed, count_failed,
}
use rtsys.Rttest.Pack.{bit, pack, bit_or-eq}

pub increment-bit :
    (failed : Bool) (ret : ℕ)
    → ret + 1 < 2 ^ 31
    → (if failed then increment ret else done ret) ≡ done (ret + bit failed)
unfolding increment
increment-bit true ret h = rw (lt→ltb (ret + 1) (2 ^ 31) h)
increment-bit false ret h = ap done (omega arith)

or-bit :
    (failed : Bool) (k bits : ℕ)
    → k < 8
    → bits < 2 ^ k
    → (if failed then bit_or bits (2 ^ k) else bits) ≡ bits + bit failed * 2 ^ k
or-bit true k bits h l = bit_or-eq k bits h l ∙ omega arith
or-bit false k bits h l = omega arith

bit-below :
    (failed : Bool) (i bits : ℕ)
    → bits < 2 ^ (i % 8)
    → i % 8 ≢ 7
    → bits + bit failed * 2 ^ (i % 8) < 2 ^ ((i + 1) % 8)
bit-below true i bits h n =
    let e : 2 ^ ((i + 1) % 8) ≡ 2 * 2 ^ (i % 8) =
      ap (λ j. 2 ^ j) (omega arith) ∙ pow-succ' 2 (i % 8) in
    omega arith
bit-below false i bits h n =
    let e : 2 ^ ((i + 1) % 8) ≡ 2 * 2 ^ (i % 8) =
      ap (λ j. 2 ^ j) (omega arith) ∙ pow-succ' 2 (i % 8) in
    omega arith

pub bit-le : (b : Bool) → bit b ≤ 1
bit-le true = omega arith
bit-le false = omega arith

count_sum :
    (failed : Bool) (ret : ℕ) (fs : List Bool)
    → ret + bit failed + count_failed fs ≡ ret + count_failed (failed ∷ fs)
count_sum true ret fs = omega arith
count_sum false ret fs = omega arith

module _ {U : Type 0} where
  -- Which test cases fail, after one that asserted or not.
  abbrev from_here : Bool → List (TestCase U) → U → List Bool × U
  from_here true tests u = (all_failed tests, u)
  from_here false tests u = failures tests u

  abbrev judged : Bool → TestCase U → U → Bool × Bool × U
  judged asserted test u = judge asserted test u

  judge-on_user :
      (asserted : Bool) (test : TestCase U) (w : Logged U)
      → judge asserted (on_user test) w ≡ (
        (judged asserted test w.user).0,
        (judged asserted test w.user).1,
        record w { user = (judged asserted test w.user).2 },
      )
  unfolding judge
  judge-on_user true test w = refl
  judge-on_user false test w = refl

  from_here-eq :
      (asserted : Bool) (test : TestCase U) (tests : List (TestCase U)) (u : U)
      → from_here asserted (test ∷ tests) u ≡ (
          let r = judged asserted test u in
          (r.0 ∷ (from_here r.1 tests r.2).0, (from_here r.1 tests r.2).1))
  unfolding judge failures
  from_here-eq true test tests u = refl
  from_here-eq false test tests u = ground arith

  -- What a run of the remaining test cases writes and returns.
  abbrev Packs : List (TestCase U) → Type 0
  Packs tests =
      (i : ℕ) (asserted : Bool) (bits ret : ℕ) (w : Logged U)
      → bits < 2 ^ (i % 8)
      → ret + length tests < 2 ^ 31
      → run_cases log_octet (on_user_cases tests) i asserted bits ret w
        ≡ done (
          pos (ret + count_failed (from_here asserted tests w.user).0),
          record {
            user = (from_here asserted tests w.user).1;
            octets = w.octets ++ pack (i % 8) bits (from_here asserted tests w.user).0;
          },
        )

  write_rest-pack :
      (i bits ret : ℕ) (w : Logged U)
      → ◌≡◌ {A = Outcome (ℤ × Logged U)} (done (write_rest log_octet i bits (pos ret) w)) (
          done (pos (ret + 0), record { user = w.user; octets = w.octets ++ pack (i % 8) bits [] }))
  unfolding write_rest pack log_octet
  write_rest-pack i bits ret w = elim (Bool-cases (i % 8 == 0)) [
    | inl e ↦ simp (e, append-nil w.octets) (ap (λ n. done (pos n, w)) (omega arith))
    | inr e ↦
        simp (e)
          (ap (λ n. done (pos n, record w { octets = w.octets ++ (bits ∷ []) })) (omega arith))
  ]

  -- The part of a round that follows the test case.
  round :
      (tests : List (TestCase U))
      → Packs tests
      → (i : ℕ) (failed asserted : Bool) (bits ret : ℕ) (w : Logged U) → bits < 2 ^ (i % 8)
      → ret + suc (length tests) < 2 ^ 31
      → (if (i + 1) % 8 == 0
          then run_cases log_octet
              (on_user_cases tests)
              (i + 1)
              asserted
              0
              (ret + bit failed)
              (record w { octets = w.octets ++ ((bits + bit failed * 2 ^ (i % 8)) ∷ []) })
          else run_cases log_octet
              (on_user_cases tests)
              (i + 1)
              asserted
              (bits + bit failed * 2 ^ (i % 8))
              (ret + bit failed)
              w)
        ≡ done (
          pos (ret + count_failed (failed ∷ (from_here asserted tests w.user).0)),
          record {
            user = (from_here asserted tests w.user).1;
            octets = w.octets ++ pack (i % 8) bits (failed ∷ (from_here asserted tests w.user).0);
          },
        )
  unfolding pack
  round tests ih i failed asserted bits ret w h r = elim (eq-cases (i % 8) 7) [
    | inl e ↦
        let next : (i + 1) % 8 ≡ 0 = omega arith in
        let x : ℕ = bits + bit failed * 2 ^ 7 in
        simp (next, e)
          (ih (i + 1) asserted 0 (ret + bit failed) (record w { octets = w.octets ++ (x ∷ []) })
              (rw next (omega arith)) (omega (arith, bit-le failed))
            ∙ finish (count_sum failed ret later.0) (
                ap (λ k. (w.octets ++ (x ∷ [])) ++ pack k 0 later.0) next
                ∙ append_assoc w.octets (x ∷ []) (pack 0 0 later.0)))
    | inr n ↦
        let next : (i + 1) % 8 ≡ i % 8 + 1 = omega arith in
        let x : ℕ = bits + bit failed * 2 ^ (i % 8) in
        simp (ne→==_false (i % 8) 7 n, ne→==_false ((i + 1) % 8) 0 (omega arith))
          (ih (i + 1) asserted x (ret + bit failed) w (bit-below failed i bits h n)
              (omega (arith, bit-le failed))
            ∙ finish (count_sum failed ret later.0) (ap (λ k. w.octets ++ pack k x later.0) next))
  ]
    where
      later : List Bool × U
      later = from_here asserted tests w.user

      finish :
          {m n : ℕ} {xs ys : List ℕ}
          → m ≡ n
          → xs ≡ ys
          → ◌≡◌ {A = Outcome (ℤ × Logged U)}
              (done (pos m, record { user = later.1; octets = xs }))
              (done (pos n, record { user = later.1; octets = ys }))
      finish p q = ap₂ (λ k os. done (pos k, record { user = later.1; octets = os })) p q

  pub length-on_user_cases :
      (tests : List (TestCase U)) → length (on_user_cases tests) ≡ length tests
  length-on_user_cases [] = refl
  length-on_user_cases (test ∷ tests) = ap suc (length-on_user_cases tests)

  run_cases-pack : (tests : List (TestCase U)) → Packs tests
  unfolding run_cases failures log_octet
  run_cases-pack [] i true bits ret w h r = write_rest-pack i bits ret w
  run_cases-pack [] i false bits ret w h r = write_rest-pack i bits ret w
  run_cases-pack (test ∷ tests) i asserted bits ret w h r =
      let (failed, asserted', u') = judged asserted test w.user in
      simp
        (
          judge-on_user asserted test w,
          from_here-eq asserted test tests w.user,
          or-bit (judged asserted test w.user).0 (i % 8) bits (omega arith) h,
          increment-bit (judged asserted test w.user).0 ret (omega arith),
        )
        (round tests (run_cases-pack tests) i failed asserted' bits ret (record w { user = u' }) h
          r)

  -- For a group of at least one test case, and fewer than 2 ^ 31, with an output that stores
  -- every octet, `rttestRunTestCases` writes the results eight to an octet, the first in the
  -- lowest bit, and returns the number of failures; the test cases behind one that asserts are
  -- not run and count as failures.
  pub run_test_cases-pack :
      (g : Group (Logged U)) (tests : List (TestCase U)) (w : Logged U)
      → g.test_cases ≡ on_user_cases tests
      → 0 < length tests
      → length tests < 2 ^ 31
      → run_test_cases log_octet g w
        ≡ done (
          pos (count_failed (failures tests w.user).0),
          record {
            user = (failures tests w.user).1;
            octets = w.octets ++ pack 0 0 (failures tests w.user).0;
          },
        )
  unfolding run_test_cases
  run_test_cases-pack g tests w e some small =
      simp (e, lt→ltb 0 (length (on_user_cases tests)) (omega (arith, length-on_user_cases tests)))
        (run_cases-pack tests 0 false 0 0 w (omega arith) (omega arith)
          ∙ ap
              (λ n. done (
                pos n,
                record {
                  user = (failures tests w.user).1;
                  octets = w.octets ++ pack 0 0 (failures tests w.user).0;
                },
              ))
              (omega arith))
