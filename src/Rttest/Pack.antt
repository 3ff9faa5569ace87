-- ===== src/Rttest/Pack.antt =====
-- Test results as bits of octets: the runner's way of writing them, and the parser's of reading.
use rtsys.Base.{
  ℕ, zero, suc, ◌+◌, ◌-◌, ◌*◌, ◌%◌, ◌/◌, ◌^◌, ◌<◌, ◌≤◌, ◌≡◌, ◌≢◌, refl, ap, sym, ◌∙◌, ◌⊎◌, inl, inr,
  Bool, true, false, List, [], ◌∷◌, map, ◌++◌, ◌==◌, if◌then◌else◌, length, arith, Outcome, done,
  ◌>>=◌, ltb, ==→eq, ◌&&◌, ==_refl, ne→==_false,
}
use Prim.Native.Nat.{bit_or}
use native.Mathlib.Nat.{pow-succ'}
use rtsys.Rttest.GroupMap.{MapCase}
use rtsys.Rttest.Parser.{Progress, count_case, read_byte, read_results}

abbrev pub bit : Bool → ℕ
bit true = 1
bit false = 0

-- The octets that complete an octet with `k` bits, which stand for `bits`.
unfoldable pub pack : ℕ → ℕ → List Bool → List ℕ
pack k bits [] = if k == 0 then [] else bits ∷ []
pack k bits (b ∷ bs) =
    if k == 7 then (bits + bit b * 2 ^ k) ∷ pack 0 0 bs else pack (k + 1) (bits + bit b * 2 ^ k) bs

all_below : ℕ → (ℕ → Bool) → Bool
all_below zero p = true
all_below (suc n) p = p n && all_below n p

all_below-at : (n : ℕ) (p : ℕ → Bool) → all_below n p ≡ true → (i : ℕ) → i < n → p i ≡ true
unfolding all_below
all_below-at zero p h i l = absurd (omega arith)
all_below-at (suc n) p h i l = elim (rtsys.Base.eq-cases i n) [
  | inl e ↦ rw e (both (p n) (all_below n p) h).0
  | inr ne ↦ all_below-at n p (both (p n) (all_below n p) h).1 i (omega arith)
]
  where
    both : (a b : Bool) → a && b ≡ true → (a ≡ true) × (b ≡ true)
    both true true e = (refl, refl)
    both true false e = absurd (cc)
    both false b e = absurd (cc)

bits_checked :
    all_below 8 (λ k. all_below (2 ^ k) (λ bits. bit_or bits (2 ^ k) == bits + 2 ^ k)) ≡ true
unfolding all_below
bits_checked = refl

-- To set a bit above all the bits that are set.
pub bit_or-eq : (k bits : ℕ) → k < 8 → bits < 2 ^ k → bit_or bits (2 ^ k) ≡ bits + 2 ^ k
bit_or-eq k bits h l = ==→eq _ _ (
    all_below-at (2 ^ k) (λ x. bit_or x (2 ^ k) == x + 2 ^ k)
      (all_below-at 8 (λ j. all_below (2 ^ j) (λ x. bit_or x (2 ^ j) == x + 2 ^ j)) bits_checked k
        h)
      bits l)

-- Test cases, each with whether it failed.
abbrev pub Judged : Type 0
Judged = List (MapCase × Bool)

abbrev pub cases_of : Judged → List MapCase
cases_of js = map (λ (j : MapCase × Bool). j.0) js

abbrev pub results_of : Judged → List Bool
results_of js = map (λ (j : MapCase × Bool). j.1) js

-- What the parser makes of test cases in turn.
abbrev pub tally : Bool → Judged → Progress → Progress
tally verbose [] p = p
tally verbose ((c, b) ∷ js) p = tally verbose js (count_case verbose c b p)

bit-lem : (b : Bool) (m : ℕ) → ((bit b + 2 * m) % 2 == 1 ≡ b) × ((bit b + 2 * m) / 2 ≡ m)
bit-lem true m = (ground arith, omega arith)
bit-lem false m = (ground arith, omega arith)

octet-lem :
    (k bits m : ℕ) (b : Bool)
    → bits + bit b * 2 ^ k + m * 2 ^ (k + 1) ≡ bits + (bit b + 2 * m) * 2 ^ k
octet-lem k bits m b =
    let e : 2 ^ (k + 1) ≡ 2 * 2 ^ k = ap (λ j. 2 ^ j) (omega arith) ∙ pow-succ' 2 k in
    rw e (grind arith)

module _ (verbose : Bool) where
  -- What reading some results on from bit `k` comes to, where the octet with that bit is under way.
  abbrev Reads : Judged → ℕ → Type 0
  Reads js k =
      (bits : ℕ)
      → (m : ℕ) × (rest : List ℕ) × (pack k bits (results_of js) ≡ (bits + m * 2 ^ k) ∷ rest)
        × ((testno : ℕ) (p : Progress) (more : List ℕ)
            → testno % 8 ≡ k
            → read_results verbose (cases_of js) testno m p (rest ++ more)
              ≡ done (tally verbose js p, more))

  -- One result is read from an octet under way.
  read_one :
      (c : MapCase) (b : Bool) (cs : List MapCase) (m testno : ℕ) (p q : Progress)
      (file more : List ℕ)
      → (testno % 8 == 0) ≡ false
      → read_results verbose cs (testno + 1) m (count_case verbose c b p) file ≡ done (q, more)
      → read_results verbose (c ∷ cs) testno (bit b + 2 * m) p file ≡ done (q, more)
  unfolding read_results
  read_one c b cs m testno p q file more e h = simp (e, (bit-lem b m).0, (bit-lem b m).1, h) refl

  -- The same where no octet is under way.
  abbrev ReadsFresh : Judged → Type 0
  ReadsFresh js =
      (testno bits : ℕ) (p : Progress) (more : List ℕ)
      → testno % 8 ≡ 0
      → read_results verbose (cases_of js) testno bits p (pack 0 0 (results_of js) ++ more)
        ≡ done (tally verbose js p, more)

  abbrev ReadsUnderWay : Judged → Type 0
  ReadsUnderWay js = (k : ℕ) → 0 < k → k < 8 → Reads js k

  under_way :
      (c : MapCase) (b : Bool) (js : Judged)
      → ReadsUnderWay js
      → ReadsFresh js
      → ReadsUnderWay ((c, b) ∷ js)
  unfolding pack
  under_way c b js later fresh k l₀ l₁ bits = elim (rtsys.Base.eq-cases k 7) [
    | inl e ↦ (
      bit b + 2 * 0,
      pack 0 0 (results_of js),
      simp (e) (ap (λ x. x ∷ pack 0 0 (results_of js)) (omega arith)),
      λ testno p more l.
          read_one c b (cases_of js) 0 testno p (tally verbose ((c, b) ∷ js) p)
            (pack 0 0 (results_of js) ++ more) more (ne→==_false _ 0 (omega arith))
            (fresh (testno + 1) 0 (count_case verbose c b p) more (omega arith)),
    )
    | inr ne ↦
        let (m, rest, eq, reads) =
          later (k + 1) (omega arith) (omega arith) (bits + bit b * 2 ^ k) in
        (
          bit b + 2 * m,
          rest,
          simp (ne→==_false k 7 ne) (eq ∙ ap (λ x. x ∷ rest) (octet-lem k bits m b)),
          λ testno p more l.
              read_one c b (cases_of js) m testno p (tally verbose ((c, b) ∷ js) p) (rest ++ more)
                more (ne→==_false _ 0 (omega arith))
                (reads (testno + 1) (count_case verbose c b p) more (omega arith)),
        )
  ]

  -- The first result of an octet is read with the octet.
  read_octet :
      (c : MapCase) (b : Bool) (cs : List MapCase) (m testno bits : ℕ) (p q : Progress)
      (file more : List ℕ)
      → testno % 8 ≡ 0
      → read_results verbose cs (testno + 1) m (count_case verbose c b p) file ≡ done (q, more)
      → read_results verbose (c ∷ cs) testno bits p ((bit b + 2 * m) ∷ file) ≡ done (q, more)
  unfolding read_results read_byte
  read_octet c b cs m testno bits p q file more l h =
      simp (l, (bit-lem b m).0, (bit-lem b m).1, h) refl

  read_first : (c : MapCase) (b : Bool) (js : Judged) → ReadsUnderWay js → ReadsFresh ((c, b) ∷ js)
  unfolding pack
  read_first c b js later testno bits p more l =
      let (m, rest, eq, reads) = later 1 (omega arith) (omega arith) (0 + bit b * 1) in
      let octet : 0 + bit b * 1 + m * 2 ^ 1 ≡ bit b + 2 * m = omega arith in
      ap (λ file. read_results verbose (c ∷ cases_of js) testno bits p (file ++ more))
        (eq ∙ ap (λ x. x ∷ rest) octet)
      ∙ read_octet c b (cases_of js) m testno bits p (tally verbose ((c, b) ∷ js) p) (rest ++ more)
          more l (reads (testno + 1) (count_case verbose c b p) more (omega arith))

  read_none : ReadsUnderWay [] × ReadsFresh []
  unfolding pack read_results
  read_none = (
    λ k l₀ l₁ bits. (
      0,
      [],
      simp (ne→==_false k 0 (omega arith)) (ap (λ x. x ∷ []) (omega arith)),
      λ testno p more e. refl,
    ),
    λ testno bits p more e. refl,
  )

  pack_reads : (js : Judged) → ReadsUnderWay js × ReadsFresh js
  pack_reads [] = read_none
  pack_reads ((c, b) ∷ js) =
      let (later, fresh) = pack_reads js in (under_way c b js later fresh, read_first c b js later)

  -- Packed results are read back, and nothing behind them is touched.
  pub read_results-pack :
      (js : Judged) (p : Progress) (more : List ℕ)
      → read_results verbose (cases_of js) 0 0 p (pack 0 0 (results_of js) ++ more)
        ≡ done (tally verbose js p, more)
  read_results-pack js p more = (pack_reads js).1 0 0 p more refl
