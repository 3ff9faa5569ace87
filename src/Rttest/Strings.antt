-- ===== src/Rttest/Strings.antt =====
-- What src/rttest/scripts/rttest2text.py uses of Python's strings.
pub mod Words
pub mod Tokens
pub mod Macros
use rtsys.Base.{
  ℕ, ◌+◌, ◌*◌, Bool, true, false, ◌&&◌, ◌||◌, Option, none, some, List, [], ◌∷◌, ◌==◌,
  if◌then◌else◌, ℤ, pos, negate,
}
use rtsys.Rtplf.Stdio.{is_space, digit_value}
use rtsys.Rttest.GroupMap.{Text}

-- `a == b`
unfoldable pub same_text : Text → Text → Bool
same_text [] [] = true
same_text (a ∷ as') (b ∷ bs) = (a == b) && same_text as' bs
same_text _ _ = false

-- `text.startswith(prefix)`, the prefix first
unfoldable pub starts_with : Text → Text → Bool
starts_with [] text = true
starts_with (p ∷ ps) (c ∷ cs) = (p == c) && starts_with ps cs
starts_with (p ∷ ps) [] = false

-- `text.lstrip()`
unfoldable pub strip_left : Text → Text
unfolding is_space
strip_left [] = []
strip_left (c ∷ cs) = let rest = strip_left cs in if is_space c then rest else c ∷ cs

-- A character in front of a text whose end is stripped
unfoldable pub keep_char : ℕ → Text → Text
unfolding is_space
keep_char c [] = if is_space c then [] else c ∷ []
keep_char c (d ∷ ds) = c ∷ d ∷ ds

-- `text.rstrip()`
unfoldable pub strip_right : Text → Text
unfolding keep_char
strip_right [] = []
strip_right (c ∷ cs) = keep_char c (strip_right cs)

-- `text.strip()`
unfoldable pub strip : Text → Text
unfolding strip_left strip_right
strip text = strip_left (strip_right text)

-- A character in front of the first piece
unfoldable pub push_char : ℕ → List Text → List Text
push_char c [] = (c ∷ []) ∷ []
push_char c (piece ∷ pieces) = (c ∷ piece) ∷ pieces

-- `text.split(sep)`, where the separator is one character
unfoldable pub split : ℕ → Text → List Text
unfolding push_char
split sep [] = [] ∷ []
split sep (c ∷ cs) =
    let pieces = split sep cs in if c == sep then [] ∷ pieces else push_char c pieces

unfoldable pub read_digits : ℕ → ℕ → Text → Option ℕ
unfolding digit_value
read_digits base n [] = some n
read_digits base n (c ∷ cs) = elim (digit_value base c) [
  | none ↦ none
  | some d ↦ read_digits base (n * base + d) cs
]

unfoldable pub digits_of : ℕ → Text → Option ℕ
unfolding read_digits
digits_of base [] = none
digits_of base (c ∷ cs) = read_digits base 0 (c ∷ cs)

-- An integer literal whose first digit is 0, behind that digit
unfoldable pub prefixed : ℕ → Text → Option ℕ
unfolding digits_of
prefixed c cs =
    if c == b'x' || c == b'X'
    then digits_of 16 cs
    else (if c == b'o' || c == b'O'
        then digits_of 8 cs
        else (if c == b'b' || c == b'B' then digits_of 2 cs else digits_of 8 (c ∷ cs)))

-- An integer literal of Python 2 without a sign
unfoldable pub literal_of : Text → Option ℕ
unfolding digits_of prefixed
literal_of [] = none
literal_of (z ∷ []) = digits_of 10 (z ∷ [])
literal_of (z ∷ c ∷ cs) = if z == b'0' then prefixed c cs else digits_of 10 (z ∷ c ∷ cs)

-- `int(text, 0)`, or `none` where it raises an exception
unfoldable pub signed_of : Text → Option ℤ
unfolding literal_of
signed_of [] = none
signed_of (c ∷ cs) =
    if c == b'-'
    then (elim (literal_of cs) [ none ↦ none | some n ↦ some (negate n) ])
    else (elim (literal_of (if c == b'+' then cs else c ∷ cs)) [
      | none ↦ none
      | some n ↦ some (pos n)
    ])

unfoldable pub int_of : Text → Option ℤ
unfolding signed_of strip
int_of text = signed_of (strip text)
