-- ===== src/Rtplf/Stdio/Scan.antt =====
-- `sscanf` on what `sprintf` has printed.
use rtsys.Base.{
  ℕ, suc, ◌+◌, ◌-◌, ◌*◌, ◌%◌, ◌^◌, ◌<◌, ◌≤◌, ◌≡◌, ◌≢◌, refl, ap, ◌∙◌, sym, Bool, true, false,
  Option, none, some, List, [], ◌∷◌, ◌++◌, ltb, leb, ◌==◌, if◌then◌else◌, length, arith, Outcome,
  done, fault, ◌>>=◌, ◌&&◌, ◌||◌, lt→ltb, le→ltb_false, le→leb, ℤ, pos, negsuc, negate,
}
use mathlib.Core.Path.{subst}
use rtsys.Rtplf.Text.Strings.{NonZero}
use rtsys.Rtplf.Stdio.{
  digit_char, format_unsigned, format_signed, is_space, digit_value, take_digits, skip_prefix,
  scan_number, sscanf_unsigned, sscanf_signed,
}
use rtsys.Rtplf.Stdio.Digits.{IsDigit, Digits, format-Digits, format-some, take_digits-format}

-- A digit is no space, no sign, no `x` and no terminator.
record Plain (c : ℕ) : Type 0 where
  no_space : is_space c ≡ false
  no_minus : (c == b'-') ≡ false
  no_plus : (c == b'+') ≡ false
  no_x : (c == b'x' || c == b'X') ≡ false
  no_end : c ≢ 0

digit-Plain : (d : ℕ) → d < 16 → Plain (digit_char d)
unfolding digit_char is_space
digit-Plain d h = record {
  no_space = ground arith;
  no_minus = ground arith;
  no_plus = ground arith;
  no_x = ground arith;
  no_end = ground arith;
}

IsDigit-Plain : (base c : ℕ) → base ≤ 16 → IsDigit base c → Plain c
IsDigit-Plain base c b (d, h, e) = subst Plain (sym e) (digit-Plain d (omega arith))

pub Digits-NonZero : (base : ℕ) (str : List ℕ) → base ≤ 16 → Digits base str → NonZero str
Digits-NonZero base [] b ds = tt
Digits-NonZero base (c ∷ str) b (d, ds) =
    ((IsDigit-Plain base c b d).no_end, Digits-NonZero base str b ds)

skip_prefix-plain :
    (base c x : ℕ) (str : List ℕ)
    → (x == b'x' || x == b'X') ≡ false
    → skip_prefix base (c ∷ x ∷ str) ≡ c ∷ x ∷ str
unfolding skip_prefix
skip_prefix-plain base c x str e = simp (e) (unprefixed (base == 16) (c == b'0'))
  where
    unprefixed :
        (a b : Bool)
        → ◌≡◌ {A = List ℕ} (if a && (b && false) then str else c ∷ x ∷ str) (c ∷ x ∷ str)
    unprefixed true true = refl
    unprefixed true false = refl
    unprefixed false b = refl

scan-Plain :
    (base n c x : ℕ) (str : List ℕ)
    → Plain c
    → (x == b'x' || x == b'X') ≡ false
    → take_digits base 0 false (c ∷ x ∷ str) ≡ done (n, true)
    → scan_number base (c ∷ x ∷ str) ≡ done (some (false, n))
unfolding scan_number
scan-Plain base n c x str q no_x e =
    simp (q.no_space, q.no_minus, q.no_plus)
      (ap (λ s. take_digits base 0 false s >>= λ r. done (if r.1 then some (false, r.0) else none))
          (skip_prefix-plain base c x str no_x)
        ∙ ap (λ m. m >>= λ (r : ℕ × Bool). done (if r.1 then some (false, r.0) else none)) e)

-- The beginning of a number without a sign and a prefix is passed over.
scan_number-plain :
    (base n : ℕ) (str rest : List ℕ)
    → base ≤ 16
    → Digits base str
    → 0 < length str
    → take_digits base 0 false (str ++ (0 ∷ rest)) ≡ done (n, true)
    → scan_number base (str ++ (0 ∷ rest)) ≡ done (some (false, n))
scan_number-plain base n [] rest b ds p e = absurd (omega arith)
scan_number-plain base n (c ∷ []) rest b (d, ds) p e =
    scan-Plain base n c 0 rest (IsDigit-Plain base c b d) refl e
scan_number-plain base n (c ∷ x ∷ str) rest b (d, ds) p e =
    scan-Plain base n c x (str ++ (0 ∷ rest)) (IsDigit-Plain base c b d)
      (IsDigit-Plain base x b ds.0).no_x e

digit_value-end : (base : ℕ) → digit_value base 0 ≡ none
unfolding digit_value
digit_value-end base = rw (le→ltb_false base base (omega arith))

take_digits-end : (base n : ℕ) (rest : List ℕ) → take_digits base n true (0 ∷ rest) ≡ done (n, true)
unfolding take_digits
take_digits-end base n rest =
    ap
      (λ (o : Option ℕ). elim o [
        | none ↦ done (n, true)
        | some x ↦ take_digits base (n * base + x) true rest
      ])
      (digit_value-end base)

pub scan_number-format :
    (base n : ℕ) (rest : List ℕ)
    → 0 < base
    → base ≤ 16
    → n < base ^ 64
    → scan_number base (format_unsigned base n ++ (0 ∷ rest)) ≡ done (some (false, n))
scan_number-format base n rest p b h =
    scan_number-plain base n (format_unsigned base n) rest b (format-Digits base n p)
      (format-some base n)
      (take_digits-format base n (0 ∷ rest) p b h ∙ take_digits-end base n rest)

pub sscanf_unsigned-format :
    (base n : ℕ) (rest : List ℕ)
    → 0 < base
    → base ≤ 16
    → n < base ^ 64
    → n < 2 ^ 64
    → sscanf_unsigned base (format_unsigned base n ++ (0 ∷ rest)) ≡ done (some n)
unfolding sscanf_unsigned
sscanf_unsigned-format base n rest p b h k =
    ap
      (λ m. m >>= λ (found : Option (Bool × ℕ)). elim found [
        | none ↦ done none
        | some r ↦
            if ltb r.1 (2 ^ 64)
            then done (some (if r.0 then (2 ^ 64 - r.1) % 2 ^ 64 else r.1))
            else fault
      ])
      (scan_number-format base n rest p b h)
    ∙ rw (lt→ltb n (2 ^ 64) k)

-- A number of 64 bits, in two's complement.
abbrev pub IsInt64 : ℤ → Type 0
IsInt64 (pos n) = n < 2 ^ 63
IsInt64 (negsuc n) = n < 2 ^ 63

scan_negative :
    (n : ℕ) (rest : List ℕ)
    → n < 10 ^ 64
    → scan_number 10 (b'-' ∷ (format_unsigned 10 n ++ (0 ∷ rest))) ≡ done (some (true, n))
unfolding scan_number
scan_negative n rest h =
    ap (λ s. take_digits 10 0 false s >>= λ r. done (if r.1 then some (true, r.0) else none))
      (no_prefix (format_unsigned 10 n ++ (0 ∷ rest)))
    ∙ ap (λ m. m >>= λ (r : ℕ × Bool). done (if r.1 then some (true, r.0) else none))
        (take_digits-format 10 n (0 ∷ rest) (omega arith) (omega arith) h
          ∙ take_digits-end 10 n rest)
  where
    no_prefix : (str : List ℕ) → skip_prefix 10 str ≡ str
    no_prefix [] = refl
    no_prefix (c ∷ []) = refl
    no_prefix (c ∷ x ∷ str) = refl

abbrev found_signed : Option (Bool × ℕ) → Outcome (Option ℤ)
found_signed none = done none
found_signed (some (negative, n)) =
    if negative
    then (if leb n (2 ^ 63) then done (some (negate n)) else fault)
    else (if ltb n (2 ^ 63) then done (some (pos n)) else fault)

pub sscanf_signed-format :
    (x : ℤ) (rest : List ℕ)
    → IsInt64 x
    → sscanf_signed (format_signed x ++ (0 ∷ rest)) ≡ done (some x)
unfolding sscanf_signed format_signed
sscanf_signed-format (pos n) rest h =
    ap (λ m. m >>= found_signed)
      (scan_number-format 10 n rest (omega arith) (omega arith) (omega arith))
    ∙ rw (lt→ltb n (2 ^ 63) h)
sscanf_signed-format (negsuc n) rest h =
    ap (λ m. m >>= found_signed) (scan_negative (suc n) rest (omega arith))
    ∙ rw (le→leb (suc n) (2 ^ 63) (omega arith))
