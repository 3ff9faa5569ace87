-- ===== src/Rtplf/Convert/Guess.antt =====
-- `RTStringToU32` where it guesses the base from the first characters.
use rtsys.Base.{
  ℕ, ◌^◌, ◌<◌, ◌≡◌, refl, ap, ◌∙◌, true, false, none, some, List, [], ◌∷◌, ◌++◌, length, arith,
  done,
}
use native.Mathlib.Nat.{mod-eq_of_lt}
use rtsys.Rtplf.Text.{print_digits}
use rtsys.Rtplf.Text.Base2.{print_digits-NonZero, length-print_digits, scan_base2-print_digits}
use rtsys.Rtplf.Stdio.{digit_char, format_unsigned, sscanf_unsigned, scan_number}
use rtsys.Rtplf.Stdio.Digits.{Digits, format-Digits, format-some, format_head}
use rtsys.Rtplf.Convert.{
  base_auto, base_2, base_8, base_10, base_16, guess_base, effective_base, scan_in_base,
  string_to_u32,
}
use rtsys.Rtplf.Convert.Unsigned.{
  text, text-NonZero, length-text, scan_in_base-text, string_to_u32-scan,
}

guess_decimal :
    (d : ℕ) (rest : List ℕ) → 0 < d → d < 10 → guess_base (digit_char d ∷ rest) ≡ done (base_10, 0)
unfolding guess_base digit_char
guess_decimal d rest p h = ground arith

guess_zero : (rest : List ℕ) → guess_base (b'0' ∷ 0 ∷ rest) ≡ done (base_8, 1)
unfolding guess_base
guess_zero rest = refl

guess_octal_digit :
    (d : ℕ) (rest : List ℕ) → d < 8 → guess_base (b'0' ∷ digit_char d ∷ rest) ≡ done (base_8, 1)
unfolding guess_base digit_char
guess_octal_digit d rest h = ground arith

guess_octal :
    (str rest : List ℕ)
    → Digits 8 str
    → 0 < length str
    → guess_base (b'0' ∷ (str ++ rest)) ≡ done (base_8, 1)
guess_octal [] rest ds p = absurd (omega arith)
guess_octal (c ∷ str) rest ((d, h, e), ds) p =
    ap (λ x. guess_base (b'0' ∷ x ∷ (str ++ rest))) e ∙ guess_octal_digit d (str ++ rest) h

scan_end : (rest : List ℕ) → scan_in_base base_8 (0 ∷ rest) ≡ done none
unfolding scan_in_base sscanf_unsigned scan_number
scan_end [] = refl
scan_end (x ∷ rest) = refl

zero_text : text 0 base_10 ≡ b'0' ∷ []
unfolding format_unsigned
zero_text = refl

guessed_zero :
    (rest : List ℕ) (old : ℕ)
    → string_to_u32 (some (text 0 base_10 ++ (0 ∷ rest))) base_auto (some old)
      ≡ done (false, some old)
unfolding effective_base
guessed_zero rest old =
    ap (λ str. string_to_u32 (some (str ++ (0 ∷ rest))) base_auto (some old)) zero_text
    ∙ string_to_u32-scan (b'0' ∷ []) rest base_auto base_8 1 old none (omega arith, tt)
        (omega arith) (omega arith) (guess_zero rest) (scan_end rest)

module _ (x : ℕ) (rest : List ℕ) (old : ℕ) (h : x < 2 ^ 32) where
  guessed_decimal :
      0 < x
      → string_to_u32 (some (text x base_10 ++ (0 ∷ rest))) base_auto (some old)
        ≡ done (true, some x)
  unfolding effective_base
  guessed_decimal p =
      let (d, more, positive, small, e) = format_head 10 x (omega arith) (omega arith) p in
      string_to_u32-scan (text x base_10) rest base_auto base_10 0 old (some x)
        (text-NonZero x base_10) (format-some 10 x) (omega (arith, length-text x base_10 h))
        (ap (λ str. guess_base (str ++ (0 ∷ rest))) e
          ∙ guess_decimal d (more ++ (0 ∷ rest)) positive small)
        (scan_in_base-text x base_10 rest h (λ e. cc))
      ∙ ap (λ k. done (true, some k)) (mod-eq_of_lt h)

  guessed_octal :
      string_to_u32 (some (b'0' ∷ (text x base_8 ++ (0 ∷ rest)))) base_auto (some old)
      ≡ done (true, some x)
  unfolding effective_base
  guessed_octal =
      string_to_u32-scan (b'0' ∷ text x base_8) rest base_auto base_8 1 old (some x)
        (omega arith, text-NonZero x base_8) (omega arith) (omega (arith, length-text x base_8 h))
        (guess_octal (text x base_8) (0 ∷ rest) (format-Digits 8 x (omega arith)) (format-some 8 x))
        (scan_in_base-text x base_8 rest h (λ e. cc))
      ∙ ap (λ k. done (true, some k)) (mod-eq_of_lt h)

  guessed_hexadecimal :
      string_to_u32 (some (b'0' ∷ b'x' ∷ (text x base_16 ++ (0 ∷ rest)))) base_auto (some old)
      ≡ done (true, some x)
  unfolding effective_base guess_base
  guessed_hexadecimal =
      string_to_u32-scan (b'0' ∷ b'x' ∷ text x base_16) rest base_auto base_16 2 old (some x)
        (omega arith, (omega arith, text-NonZero x base_16)) (omega arith)
        (omega (arith, length-text x base_16 h)) refl (scan_in_base-text x base_16 rest h (λ e. cc))
      ∙ ap (λ k. done (true, some k)) (mod-eq_of_lt h)

  guessed_binary :
      string_to_u32 (some (b'b' ∷ (print_digits 32 x 32 ++ (0 ∷ rest)))) base_auto (some old)
      ≡ done (true, some x)
  unfolding effective_base guess_base scan_in_base
  guessed_binary =
      string_to_u32-scan (b'b' ∷ print_digits 32 x 32) rest base_auto base_2 1 old (some x)
        (omega arith, print_digits-NonZero 32 x 32 (omega arith)) (omega arith)
        (omega (arith, length-print_digits 32 x 32 (omega arith))) refl
        (scan_base2-print_digits x 32 rest h (omega arith))
      ∙ ap (λ k. done (true, some k)) (mod-eq_of_lt h)

-- With RTBASE_AUTO, `RTStringToU32` reads a 32-bit number from its decimal digits, unless it is
-- 0, from its octal digits behind a 0, from its hexadecimal digits behind 0x, and from its 32
-- binary digits behind a b. It reads nothing from the text 0 alone.
pub string_to_u32-guess :
    (x : ℕ) (rest : List ℕ) (old : ℕ)
    → x < 2 ^ 32
    → (0 < x
        → string_to_u32 (some (text x base_10 ++ (0 ∷ rest))) base_auto (some old)
          ≡ done (true, some x))
      × (string_to_u32 (some (text 0 base_10 ++ (0 ∷ rest))) base_auto (some old)
          ≡ done (false, some old))
      × (string_to_u32 (some (b'0' ∷ (text x base_8 ++ (0 ∷ rest)))) base_auto (some old)
          ≡ done (true, some x))
      × (string_to_u32 (some (b'0' ∷ b'x' ∷ (text x base_16 ++ (0 ∷ rest)))) base_auto (some old)
          ≡ done (true, some x))
      × (string_to_u32 (some (b'b' ∷ (print_digits 32 x 32 ++ (0 ∷ rest)))) base_auto (some old)
          ≡ done (true, some x))
string_to_u32-guess x rest old h = (
  guessed_decimal x rest old h,
  guessed_zero rest old,
  guessed_octal x rest old h,
  guessed_hexadecimal x rest old h,
  guessed_binary x rest old h,
)
