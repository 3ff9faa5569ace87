-- ===== src/Rttest/Lost/Cases.antt =====
-- The octets and the test cases of a group, in a run without an error code.
use rtsys.Base.{
  ℕ, arith, lt→ltb, ◌<◌, ◌+◌, ◌%◌, ◌^◌, ◌≡◌, refl, ap, Bool, true, false, List, [], ◌∷◌,
  if◌then◌else◌, ◌==◌, ℤ, pos, negsuc, is_negative, Outcome, done, assert, ltb, length,
}
use Prim.Native.Nat.{bit_or}
use rtsys.Rttest.Pack.{bit}
use rtsys.Rttest.Cases.{increment-bit, bit-le}
use rtsys.Rttest.{
  WriteOctet, TestCase, Group, write_octets, write_rest, run_cases, run_test_cases, judge,
  increment,
}
use rtsys.Rttest.Lost.Calls.{
  Safe, Whole, Whole-bind, Whole-if, Whole-done, Safe-write, Safe-intro, Safe-error, CasesKeep,
  GroupKeeps, WritesKeep,
}

module _ {W : Type 0} (P : W → Type 0) where
  module _ (write : WriteOctet W) (writes : WritesKeep P write) where
    pub write_octets-keeps :
        (octets : List ℕ) (w : W)
        → (write_octets write octets w).0 ≡ true
        → P w
        → P (write_octets write octets w).1
    unfolding write_octets
    write_octets-keeps [] w e h = h
    write_octets-keeps (octet ∷ octets) w e h =
        by_first (write octet w).0 refl e (write_octets-keeps octets (write octet w).1)
      where
        by_first :
            (ok : Bool)
            → (write octet w).0 ≡ ok
            → (if ok
                then write_octets write octets (write octet w).1
                else (false, (write octet w).1)).0
              ≡ true
            → ((write_octets write octets (write octet w).1).0 ≡ true
                → P (write octet w).1
                → P (write_octets write octets (write octet w).1).1)
            → P
                (if ok
                  then write_octets write octets (write octet w).1
                  else (false, (write octet w).1)).1
        by_first true k l ih = ih l (writes octet w k h)
        by_first false k l ih = absurd (cc)

    write_rest-Safe :
        (i bits : ℕ) (ret : ℤ) (w : W) → Safe P (ret, w) → Safe P (write_rest write i bits ret w)
    unfolding write_rest Safe
    write_rest-Safe i bits ret w s = by_place (i % 8 == 0)
      where
        by_place :
            (whole : Bool)
            → Safe P (
                if whole
                then (ret, w)
                else (if (write bits w).0 then ret else negsuc 0, (write bits w).1))
        by_place true = s
        by_place false =
            Safe-write P (write bits w).0 ret (write bits w).1 (λ e n. writes bits w e (s n))

    -- The octet that closes a group or the file.
    pub Safe-last :
        (octet : ℕ) (r : ℤ × W)
        → Safe P r
        → Safe P (
            if is_negative r.0
            then r
            else (if (write octet r.1).0 then r.0 else negsuc 0, (write octet r.1).1))
    unfolding Safe
    Safe-last octet (negsuc n, w) s = s
    Safe-last octet (pos n, w) s =
        Safe-write P (write octet w).0 (pos n) (write octet w).1 (λ e n'. writes octet w e (s refl))

    judge-keeps :
        (asserted : Bool) (test : TestCase W) (w : W)
        → ((v : W) → P v → P (test v).1)
        → P w
        → P (judge asserted test w).2
    unfolding judge
    judge-keeps true test w k h = h
    judge-keeps false test w k h = k w h

    run_cases-Whole :
        (tests : List (TestCase W)) (i : ℕ) (asserted : Bool) (bits ret : ℕ) (w : W)
        → CasesKeep P tests
        → ret + length tests < 2 ^ 31
        → P w
        → Whole P (run_cases write tests i asserted bits ret w)
    unfolding run_cases
    run_cases-Whole [] i asserted bits ret w k l h =
        Whole-done P (write_rest write i bits (pos ret) w)
          (write_rest-Safe i bits (pos ret) w (Safe-intro P (pos ret) w h))
    run_cases-Whole (test ∷ tests) i asserted bits ret w (k, ks) l h =
        let (failed, asserted', w') = judge asserted test w in
        let bits' : ℕ = if failed then bit_or bits (2 ^ (i % 8)) else bits in
        let written : Bool × W = write bits' w' in
        let n : ℕ = ret + bit failed in
        let short : n + length tests < 2 ^ 31 = omega (arith, l, bit-le failed) in
        let full : ℕ → Outcome (ℤ × W) =
          λ m. run_cases write tests (i + 1) asserted' 0 m written.1 in
        let filling : ℕ → Outcome (ℤ × W) =
          λ m. run_cases write tests (i + 1) asserted' bits' m w' in
        let broken : Outcome (ℤ × W) = done (write_rest write i bits' (negsuc 0) written.1) in
        let kept : P w' = judge-keeps asserted test w k h in
        Whole-bind P (if failed then increment ret else done ret)
          (λ m. if (i + 1) % 8 == 0 then (if written.0 then full m else broken) else filling m)
          (increment-bit failed ret (omega (arith, l)))
          (Whole-if P ((i + 1) % 8 == 0) (if written.0 then full n else broken) (filling n)
            (λ e.
              Whole-if P written.0 (full n) broken
                (λ ok.
                  run_cases-Whole tests (i + 1) asserted' 0 n written.1 ks short
                    (writes bits' w' ok kept))
                (λ no.
                  Whole-done P (write_rest write i bits' (negsuc 0) written.1)
                    (write_rest-Safe i bits' (negsuc 0) written.1 (Safe-error P 0 written.1))))
            (λ e. run_cases-Whole tests (i + 1) asserted' bits' n w' ks short kept))

    pub run_test_cases-Whole :
        (g : Group W) (w : W) → GroupKeeps P g → P w → Whole P (run_test_cases write g w)
    unfolding run_test_cases
    run_test_cases-Whole g w k h =
        Whole-bind P (assert (ltb 0 (length g.test_cases)))
          (λ u. run_cases write g.test_cases 0 false 0 0 w)
          (ap assert (lt→ltb 0 (length g.test_cases) k.some_cases))
          (run_cases-Whole g.test_cases 0 false 0 0 w k.cases (omega (arith, k.countable)) h)
