-- ===== src/Rttest/Tally.antt =====
-- What `RttParser` counts and prints for test cases with their results.
use rtsys.Base.{
  ℕ, ◌+◌, ◌≡◌, refl, ap, ap₂, sym, ◌∙◌, Bool, true, false, none, some, List, [], ◌∷◌, ◌++◌,
  if◌then◌else◌, length, length-append, arith, pos, done,
}
use mathlib.Core.List.{append_assoc, append-nil}
use rtsys.Rttest.GroupMap.{MapCase, MapGroup, find_group}
use rtsys.Rttest.Parser.{
  Printed, group_line, fail_line, pass_line, Progress, count_case, read_results,
}
use rtsys.Rttest.Pack.{Judged, cases_of, results_of, tally, pack, read_results-pack}
use rtsys.Rttest.Logged.{count_failed}

-- What is printed of a test case.
abbrev case_line : Bool → MapCase → Bool → List Printed
case_line verbose c true = fail_line c ∷ []
case_line verbose c false = if verbose then pass_line c ∷ [] else []

abbrev pub case_lines : Bool → List MapCase → List Bool → List Printed
case_lines verbose (c ∷ cs) (b ∷ bs) = case_line verbose c b ++ case_lines verbose cs bs
case_lines verbose _ _ = []

-- What is printed of a group.
abbrev pub group_lines : Bool → MapGroup → ℕ → List Bool → List Printed
group_lines verbose g id results =
    (if verbose then group_line g.name id ∷ [] else []) ++ case_lines verbose g.cases results

abbrev pub report : Bool → List MapGroup → List (ℕ × List Bool) → List Printed
report verbose rttmap [] = []
report verbose rttmap ((id, results) ∷ rest) =
    (elim (find_group rttmap (pos id)) [ none ↦ [] | some g ↦ group_lines verbose g id results ])
    ++ report verbose rttmap rest

abbrev pub all_results : List (ℕ × List Bool) → List Bool
all_results [] = []
all_results ((id, results) ∷ rest) = results ++ all_results rest

-- The parser behind some results and lines.
abbrev pub advance : Progress → List Printed → List Bool → Progress
advance p lines results = record {
  failed = p.failed + count_failed results;
  total = p.total + length results;
  printed = p.printed ++ lines;
}

count_failed-append :
    (xs ys : List Bool) → count_failed (xs ++ ys) ≡ count_failed xs + count_failed ys
count_failed-append [] ys = omega arith
count_failed-append (true ∷ xs) ys = omega (arith, count_failed-append xs ys)
count_failed-append (false ∷ xs) ys = count_failed-append xs ys

pub add_zero : (n : ℕ) → n + 0 ≡ n
add_zero n = omega arith

add_assoc : (a b c : ℕ) → a + b + c ≡ a + (b + c)
add_assoc a b c = omega arith

pub advance-nil : (p : Progress) → advance p [] [] ≡ p
advance-nil p = simp (add_zero, append-nil) refl

pub advance-append :
    (p : Progress) (l₁ l₂ : List Printed) (r₁ r₂ : List Bool)
    → advance (advance p l₁ r₁) l₂ r₂ ≡ advance p (l₁ ++ l₂) (r₁ ++ r₂)
advance-append p l₁ l₂ r₁ r₂ =
    simp (append_assoc, count_failed-append r₁ r₂, length-append r₁ r₂, add_assoc) refl

count_case-advance :
    (verbose : Bool) (c : MapCase) (b : Bool) (p : Progress)
    → count_case verbose c b p ≡ advance p (case_line verbose c b) (b ∷ [])
unfolding count_case
count_case-advance verbose c true p = refl
count_case-advance true c false p = simp (add_zero) refl
count_case-advance false c false p = simp (add_zero, append-nil) refl

-- Test cases with their results.
abbrev judged : List MapCase → List Bool → Judged
judged (c ∷ cs) (b ∷ bs) = (c, b) ∷ judged cs bs
judged _ _ = []

tally-judged :
    (verbose : Bool) (cs : List MapCase) (bs : List Bool) (p : Progress)
    → length cs ≡ length bs
    → (cases_of (judged cs bs) ≡ cs)
      × (results_of (judged cs bs) ≡ bs)
      × (tally verbose (judged cs bs) p ≡ advance p (case_lines verbose cs bs) bs)
tally-judged verbose [] [] p e = (refl, refl, sym (advance-nil p))
tally-judged verbose [] (b ∷ bs) p e = absurd (omega (arith, e))
tally-judged verbose (c ∷ cs) [] p e = absurd (omega (arith, e))
tally-judged verbose (c ∷ cs) (b ∷ bs) p e =
    let same : length cs ≡ length bs = omega (arith, e) in
    let (x, y, z) = tally-judged verbose cs bs (count_case verbose c b p) same in
    (
      ap (λ xs. c ∷ xs) x,
      ap (λ xs. b ∷ xs) y,
      z
          ∙ ap (λ q. advance q (case_lines verbose cs bs) bs) (count_case-advance verbose c b p)
          ∙ advance-append p (case_line verbose c b) (case_lines verbose cs bs) (b ∷ []) bs,
    )

pub read_results-lines :
    (verbose : Bool) (cs : List MapCase) (bs : List Bool) (p : Progress) (more : List ℕ)
    → length cs ≡ length bs
    → read_results verbose cs 0 0 p (pack 0 0 bs ++ more)
      ≡ done (advance p (case_lines verbose cs bs) bs, more)
read_results-lines verbose cs bs p more e =
    let (x, y, z) = tally-judged verbose cs bs p e in
    ap₂ (λ xs ys. read_results verbose xs 0 0 p (pack 0 0 ys ++ more)) (sym x) (sym y)
    ∙ read_results-pack verbose (judged cs bs) p more
    ∙ ap (λ q. done (q, more)) z
