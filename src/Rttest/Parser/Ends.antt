-- ===== src/Rttest/Parser/Ends.antt =====
-- The parser comes to an end: each group takes bytes from the file.
use rtsys.Base.{
  ℕ, zero, suc, ◌+◌, ◌*◌, ◌%◌, ◌/◌, ◌^◌, ◌≤◌, ◌<◌, refl, Bool, true, false, Option, none, some,
  List, [], ◌∷◌, ◌++◌, ◌==◌, if◌then◌else◌, leb, length, arith, pos, Outcome, done, panic, assert,
}
use rtsys.Base.Checked.{
  Checked, refuses, returns, Yields, fails, yields, Yields-bind, Yields-Checked, Checked-bind,
  Checked-assert, Yields-assert,
}
use rtsys.Rttest.{enter_group, exit_group, end_of_file}
use rtsys.Rttest.GroupMap.{MapCase, MapGroup, find_group}
use rtsys.Rttest.Parser.{
  group_line, Progress, print_line, count_case, last_line, read_byte, read_id, read_results,
  parse_group, parse_groups, parse,
}

-- What is left of a file with at most so many bytes.
abbrev Left : {A : Type 0} → ℕ → A × List ℕ → Type 0
Left n r = length (r.1) ≤ n

read_byte-Left : (n : ℕ) (file : List ℕ) → length file ≤ suc n → Yields (Left n) (read_byte file)
unfolding read_byte
read_byte-Left n [] h = fails refl
read_byte-Left n (byte ∷ rest) h = yields (byte, rest) refl (omega (arith, h))

read_id-Left :
    (k gid n : ℕ) (file : List ℕ) → length file ≤ n → Yields (Left n) (read_id k gid file)
unfolding read_id
read_id-Left zero gid n file h = yields (gid, file) refl h
read_id-Left (suc k) gid n file h =
    Yields-bind (Left n) (Left n) (read_byte file) _ (read_byte-Left n file (omega (arith, h)))
      (λ r l. read_id-Left k (gid * 2 ^ 8 + r.0 % 2 ^ 8) n (r.1) l)

read_results-Left :
    (verbose : Bool) (cases : List MapCase) (testno bits n : ℕ) (p : Progress) (file : List ℕ)
    → length file ≤ n
    → Yields (Left n) (read_results verbose cases testno bits p file)
unfolding read_results
read_results-Left verbose [] testno bits n p file h = yields (p, file) refl h
read_results-Left verbose (tc ∷ cases) testno bits n p file h =
    Yields-bind (Left n) (Left n) (if testno % 8 == 0 then read_byte file else done (bits, file)) _
      (next_bits (testno % 8 == 0))
      (λ r l.
        read_results-Left verbose cases (testno + 1) (r.0 / 2) n
          (count_case verbose tc (r.0 % 2 == 1) p) (r.1) l)
  where
    next_bits : (b : Bool) → Yields (Left n) (if b then read_byte file else done (bits, file))
    next_bits true = read_byte-Left n file (omega (arith, h))
    next_bits false = yields (bits, file) refl h

-- What is left of the file behind a group.
abbrev Behind : ℕ → Bool × (Progress × List ℕ) → Type 0
Behind n r = length (r.1.1) ≤ n

if-Yields :
    {A : Type 0} (P : A → Type 0) (b : Bool) (x y : Outcome A)
    → Yields P x
    → Yields P y
    → Yields P (if b then x else y)
if-Yields P true x y h k = h
if-Yields P false x y h k = k

found-Yields :
    (o : Option MapGroup) → Yields (λ g. Unit {0}) (elim o [ none ↦ panic | some g ↦ done g ])
found-Yields none = fails refl
found-Yields (some g) = yields g refl tt

-- A group takes a byte at least.
parse_group-Behind :
    (verbose : Bool) (rttmap : List MapGroup) (p : Progress) (n : ℕ) (file : List ℕ)
    → length file ≤ suc n
    → Yields (Behind n) (parse_group verbose rttmap p file)
unfolding parse_group
parse_group-Behind verbose rttmap p n file h =
    Yields-bind (Left n) (Behind n) (read_byte file) _ (read_byte-Left n file h) (λ r l.
      if-Yields (Behind n) (r.0 == end_of_file) (done (true, (p, r.1))) _
        (yields (true, (p, r.1)) refl l)
        (Yields-bind (λ u. Unit {0}) (Behind n) (assert (r.0 == enter_group)) _
          (Yields-assert (r.0 == enter_group))
          (λ u t.
            Yields-bind (Left n) (Behind n) (read_id 4 0 (r.1)) _ (read_id-Left 4 0 n (r.1) l)
              (λ i l'.
                Yields-bind (λ g. Unit {0}) (Behind n)
                  (elim (find_group rttmap (pos (i.0))) [ none ↦ panic | some g ↦ done g ]) _
                  (found-Yields (find_group rttmap (pos (i.0))))
                  (λ g t'.
                    let p' = if verbose then print_line (group_line g.name (i.0)) p else p in
                    Yields-bind (Left n) (Behind n) (read_results verbose g.cases 0 0 p' (i.1)) _
                      (read_results-Left verbose g.cases 0 0 n p' (i.1) l')
                      (λ q l₂.
                        Yields-bind (Left n) (Behind n) (read_byte (q.1)) _
                          (read_byte-Left n (q.1) (omega (arith, l₂)))
                          (λ b l₃.
                            Yields-bind (λ u. Unit {0}) (Behind n) (assert (b.0 == exit_group)) _
                              (Yields-assert (b.0 == exit_group))
                              (λ u' t₂. yields (false, (q.0, b.1)) refl l₃))))))))

parse_groups-Yields :
    (rounds : ℕ) (verbose : Bool) (rttmap : List MapGroup) (p : Progress) (file : List ℕ)
    → length file < rounds
    → Yields (λ q. Unit {0}) (parse_groups rounds verbose rttmap p file)
unfolding parse_groups
parse_groups-Yields zero verbose rttmap p file h = absurd (omega (arith, h))
parse_groups-Yields (suc zero) verbose rttmap p [] h = fails (unfold parse_group read_byte in refl)
parse_groups-Yields (suc zero) verbose rttmap p (b ∷ file) h = absurd (omega (arith, h))
parse_groups-Yields (suc (suc n)) verbose rttmap p file h =
    Yields-bind (Behind n) (λ q. Unit {0}) (parse_group verbose rttmap p file) _
      (parse_group-Behind verbose rttmap p n file (omega (arith, h)))
      (λ r l.
        if-Yields (λ q. Unit {0}) (r.0) (done (r.1.0))
          (parse_groups (suc n) verbose rttmap (r.1.0) (r.1.1)) (yields (r.1.0) refl tt)
          (parse_groups-Yields (suc n) verbose rttmap (r.1.0) (r.1.1) (omega (arith, l))))

-- For every map of the groups and every file, with more rounds than the file has bytes, the
-- script's loop over the groups comes to an end: the script returns its verdict or raises a
-- RuntimeError.
pub parse-Checked :
    (rounds : ℕ) (verbose : Bool) (rttmap : List MapGroup) (file : List ℕ)
    → length file < rounds
    → Checked (parse rounds verbose rttmap file)
unfolding parse
parse-Checked rounds verbose rttmap [] h = refuses refl
parse-Checked rounds verbose rttmap (b₀ ∷ []) h = refuses refl
parse-Checked rounds verbose rttmap (b₀ ∷ b₁ ∷ []) h = refuses refl
parse-Checked rounds verbose rttmap (b₀ ∷ b₁ ∷ b₂ ∷ []) h = refuses refl
parse-Checked rounds verbose rttmap (b₀ ∷ b₁ ∷ b₂ ∷ b₃ ∷ file) h =
    Checked-bind (assert (b₀ == 82)) _ (Checked-assert (b₀ == 82)) (λ u₀ e₀.
      Checked-bind (assert (b₁ == 84)) _ (Checked-assert (b₁ == 84)) (λ u₁ e₁.
        Checked-bind (assert (b₂ == 84)) _ (Checked-assert (b₂ == 84)) (λ u₂ e₂.
          Checked-bind (assert (b₃ == 97)) _ (Checked-assert (b₃ == 97)) (λ u₃ e₃.
            Checked-bind (parse_groups rounds verbose rttmap start file) _
              (Yields-Checked (λ q. Unit {0})
                (parse_groups-Yields rounds verbose rttmap start file (omega (arith, h))))
              (λ p e.
                returns (leb p.failed 0, p.printed ++ (last_line p.failed p.total ∷ [])) refl)))))
  where
    start : Progress
    start = record { failed = 0; total = 0; printed = [] }
