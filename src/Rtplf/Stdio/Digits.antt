-- ===== src/Rtplf/Stdio/Digits.antt =====
-- The digits that `sprintf` prints, and what `sscanf` makes of them.
use rtsys.Base.{
  ℕ, zero, suc, ◌+◌, ◌*◌, ◌/◌, ◌%◌, ◌^◌, ◌<◌, ◌≤◌, ◌≡◌, refl, ap, ◌∙◌, sym, Bool, true, false,
  Option, none, some, List, [], ◌∷◌, ◌++◌, length, arith, done, ne→==_false, eq-cases, inl, inr,
}
use native.Mathlib.Nat.{mod-lt, div-add-mod', div-lt_iff_lt-mul, pow-suc, pow-zero}
use rtsys.Rtplf.Stdio.{digit_char, put_digits, format_unsigned, digit_value, take_digits}

-- A digit of a base.
abbrev pub IsDigit : ℕ → ℕ → Type 0
IsDigit base c = (d : ℕ) × (d < base) × (c ≡ digit_char d)

abbrev pub Digits : ℕ → List ℕ → Type 0
Digits base [] = Unit
Digits base (c ∷ str) = IsDigit base c × Digits base str

put_digits-Digits :
    (base rounds n : ℕ) (digits : List ℕ)
    → 0 < base
    → Digits base digits
    → Digits base (put_digits base rounds n digits)
unfolding put_digits
put_digits-Digits base zero n digits p ds = ds
put_digits-Digits base (suc rounds) n digits p ds =
    let digit : IsDigit base (digit_char (n % base)) = (n % base, mod-lt n p, refl) in
    elim (eq-cases (n / base) 0) [
      | inl e ↦ simp (e) (digit, ds)
      | inr ne ↦
          simp (ne→==_false (n / base) 0 ne) (
            put_digits-Digits base rounds (n / base) (digit_char (n % base) ∷ digits) p (digit, ds))
    ]

div-lt-pow : (base k n : ℕ) → 0 < base → n < base ^ suc k → n / base < base ^ k
div-lt-pow base k n p h = (div-lt_iff_lt-mul p).1 (rw (sym (pow-suc base k)) h)

-- A number below `base ^ k` has at most `k` digits.
length-put_digits :
    (base rounds n k : ℕ) (digits : List ℕ)
    → 0 < base
    → n < base ^ suc k
    → length (put_digits base rounds n digits) ≤ suc k + length digits
unfolding put_digits
length-put_digits base zero n k digits p h = omega arith
length-put_digits base (suc rounds) n zero digits p h =
    let none_left : n / base ≡ 0 = omega (arith, pow-zero base, div-lt-pow base 0 n p h) in
    simp (none_left) (omega arith)
length-put_digits base (suc rounds) n (suc k) digits p h = elim (eq-cases (n / base) 0) [
  | inl e ↦ simp (e) (omega arith)
  | inr ne ↦ simp (ne→==_false (n / base) 0 ne) (
      omega (
        arith,
        length-put_digits base rounds (n / base) k (digit_char (n % base) ∷ digits) p
            (div-lt-pow base (suc k) n p h),
      ))
]

-- At least one digit is printed.
some_digit :
    (base rounds n : ℕ) (digits : List ℕ) → length digits ≤ length (put_digits base rounds n digits)
unfolding put_digits
some_digit base zero n digits = omega arith
some_digit base (suc rounds) n digits = elim (eq-cases (n / base) 0) [
  | inl e ↦ simp (e) (omega arith)
  | inr ne ↦
      simp (ne→==_false (n / base) 0 ne)
        (omega (arith, some_digit base rounds (n / base) (digit_char (n % base) ∷ digits)))
]

digit_value-digit_char :
    (base d : ℕ) → d < base → base ≤ 16 → digit_value base (digit_char d) ≡ some d
unfolding digit_value digit_char
digit_value-digit_char base d h b = ground arith

take_digit :
    (base n d : ℕ) (seen : Bool) (rest : List ℕ)
    → d < base
    → base ≤ 16
    → take_digits base n seen (digit_char d ∷ rest) ≡ take_digits base (n * base + d) true rest
unfolding take_digits
take_digit base n d seen rest h b =
    ap
      (λ (o : Option ℕ). elim o [
        | none ↦ done (n, seen)
        | some x ↦ take_digits base (n * base + x) true rest
      ])
      (digit_value-digit_char base d h b)

last_digit :
    (base n : ℕ) (seen : Bool) (rest : List ℕ)
    → 0 < base
    → base ≤ 16
    → n / base ≡ 0
    → take_digits base 0 seen (digit_char (n % base) ∷ rest) ≡ take_digits base n true rest
last_digit base n seen rest p b e =
    take_digit base 0 (n % base) seen rest (mod-lt n p) b
    ∙ ap (λ m. take_digits base m true rest)
        (ap (λ q. q * base + n % base) (sym e) ∙ div-add-mod' n base)

-- Scanning the digits in front of some others comes to their number, in front of those.
take_digits-put_digits :
    (base rounds n : ℕ) (digits rest : List ℕ) (seen : Bool)
    → 0 < base
    → base ≤ 16
    → n < base ^ suc rounds
    → take_digits base 0 seen (put_digits base (suc rounds) n digits ++ rest)
      ≡ take_digits base n true (digits ++ rest)
unfolding put_digits
take_digits-put_digits base zero n digits rest seen p b h =
    let none_left : n / base ≡ 0 = omega (arith, pow-zero base, div-lt-pow base 0 n p h) in
    simp (none_left) (last_digit base n seen (digits ++ rest) p b none_left)
take_digits-put_digits base (suc rounds) n digits rest seen p b h = elim (eq-cases (n / base) 0) [
  | inl e ↦ simp (e) (last_digit base n seen (digits ++ rest) p b e)
  | inr ne ↦ simp (ne→==_false (n / base) 0 ne) (
      take_digits-put_digits base rounds (n / base) (digit_char (n % base) ∷ digits) rest seen p b
        (div-lt-pow base (suc rounds) n p h)
      ∙ take_digit base (n / base) (n % base) true (digits ++ rest) (mod-lt n p) b
      ∙ ap (λ m. take_digits base m true (digits ++ rest)) (div-add-mod' n base))
]

-- What printing a number in a base up to 16 promises.
pub format-Digits : (base n : ℕ) → 0 < base → Digits base (format_unsigned base n)
unfolding format_unsigned
format-Digits base n p = put_digits-Digits base 64 n [] p tt

pub length-format :
    (base n k : ℕ) → 0 < base → n < base ^ suc k → length (format_unsigned base n) ≤ suc k
unfolding format_unsigned
length-format base n k p h = omega (arith, length-put_digits base 64 n k [] p h)

pub take_digits-format :
    (base n : ℕ) (rest : List ℕ)
    → 0 < base
    → base ≤ 16
    → n < base ^ 64
    → take_digits base 0 false (format_unsigned base n ++ rest) ≡ take_digits base n true rest
unfolding format_unsigned
take_digits-format base n rest p b h = take_digits-put_digits base 63 n [] rest false p b h

pub format-some : (base n : ℕ) → 0 < length (format_unsigned base n)
unfolding format_unsigned put_digits
format-some base n = elim (eq-cases (n / base) 0) [
  | inl e ↦ simp (e) (omega arith)
  | inr ne ↦
      simp (ne→==_false (n / base) 0 ne)
        (omega (arith, some_digit base 63 (n / base) (digit_char (n % base) ∷ [])))
]

-- The printed digits of a positive number begin with a positive one.
Leads : ℕ → List ℕ → Type 0
Leads base str = (d : ℕ) × (rest : List ℕ) × (0 < d) × (d < base) × (str ≡ digit_char d ∷ rest)

leading-lt : (base n : ℕ) → 0 < base → n / base ≡ 0 → 0 < n → 0 < n % base
leading-lt base n p e q =
    let whole : 0 * base + n % base ≡ n =
      ap (λ k. k * base + n % base) (sym e) ∙ div-add-mod' n base in
    omega (arith, whole)

put_digits-Leads :
    (base rounds n : ℕ) (digits : List ℕ)
    → 0 < base
    → n < base ^ suc rounds
    → 0 < n
    → Leads base (put_digits base (suc rounds) n digits)
unfolding put_digits Leads
put_digits-Leads base zero n digits p h q =
    let none_left : n / base ≡ 0 = omega (arith, pow-zero base, div-lt-pow base 0 n p h) in
    (n % base, digits, leading-lt base n p none_left q, mod-lt n p, simp (none_left) refl)
put_digits-Leads base (suc rounds) n digits p h q = elim (eq-cases (n / base) 0) [
  | inl e ↦ (n % base, digits, leading-lt base n p e q, mod-lt n p, simp (e) refl)
  | inr ne ↦
      let (d, rest, pos_d, small, e) =
        put_digits-Leads base rounds (n / base) (digit_char (n % base) ∷ digits) p
          (div-lt-pow base (suc rounds) n p h) (omega arith) in
      (d, rest, pos_d, small, simp (ne→==_false (n / base) 0 ne) e)
]

pub format_head :
    (base n : ℕ)
    → 0 < base
    → n < base ^ 64
    → 0 < n
    → (d : ℕ) × (rest : List ℕ) × (0 < d)
      × (d < base)
      × (format_unsigned base n ≡ digit_char d ∷ rest)
unfolding format_unsigned Leads
format_head base n p h q = put_digits-Leads base 63 n [] p h q
