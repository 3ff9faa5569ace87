-- ===== src/Rtplf/Stdio.antt =====
-- What src/rtplf/x64-linux/src/rtplf.c uses of `sprintf` and `sscanf` of the C library: the
-- conversions of a `long` and an `unsigned long`, which have 64 bits on this platform.
pub mod Digits
pub mod Scan
use rtsys.Base.{
  ℕ, zero, suc, ◌+◌, ◌-◌, ◌*◌, ◌/◌, ◌%◌, ◌^◌, Bool, true, false, not, ◌&&◌, ◌||◌, Option, none,
  some, List, [], ◌∷◌, ◌++◌, ltb, leb, ◌==◌, if◌then◌else◌, length, ℤ, pos, negsuc, negate, Outcome,
  done, fault, ◌>>=◌,
}

-- The digit of a value below 16, as `%lx` prints it.
unfoldable pub digit_char : ℕ → ℕ
digit_char d = if ltb d 10 then b'0' + d else b'a' + (d - 10)

-- The digits of `n` in front of `digits`, on the rounds left: one for each digit.
unfoldable pub put_digits : ℕ → ℕ → ℕ → List ℕ → List ℕ
put_digits base zero n digits = digits
put_digits base (suc rounds) n digits =
    let digits' = digit_char (n % base) ∷ digits in
    let more = put_digits base rounds (n / base) digits' in if n / base == 0 then digits' else more

-- `%lo`, `%lu` and `%lx`: a number of 64 bits has at most 64 digits.
unfoldable pub format_unsigned : ℕ → ℕ → List ℕ
unfolding digit_char put_digits
format_unsigned base n = put_digits base 64 n []

-- `%ld`
unfoldable pub format_signed : ℤ → List ℕ
unfolding format_unsigned
format_signed (pos n) = format_unsigned 10 n
format_signed (negsuc n) = b'-' ∷ format_unsigned 10 (suc n)

-- `sprintf` into an array of `room` characters, which then holds the string and its terminator
unfoldable pub sprintf : ℕ → List ℕ → Outcome (List ℕ)
sprintf room str = if ltb (length str) room then done (str ++ (0 ∷ [])) else fault

unfoldable pub is_space : ℕ → Bool
is_space c = c == b' ' || (leb 9 c && leb c 13)

-- The value of a digit, if it is one in the given base.
unfoldable pub digit_value : ℕ → ℕ → Option ℕ
digit_value base c =
    let d =
      if leb b'0' c && leb c b'9'
      then c - b'0'
      else (if leb b'a' c && leb c b'f'
          then c - b'a' + 10
          else (if leb b'A' c && leb c b'F' then c - b'A' + 10 else base)) in
    if ltb d base then some d else none

unfoldable pub skip_spaces : List ℕ → Outcome (List ℕ)
unfolding is_space
skip_spaces [] = fault
skip_spaces (c ∷ str) = let rest = skip_spaces str in if is_space c then rest else done (c ∷ str)

-- The digits at the beginning: the number, and whether there was one.
unfoldable pub take_digits : ℕ → ℕ → Bool → List ℕ → Outcome (ℕ × Bool)
unfolding digit_value
take_digits base n seen [] = fault
take_digits base n seen (c ∷ str) = elim (digit_value base c) [
  | none ↦ done (n, seen)
  | some d ↦ take_digits base (n * base + d) true str
]

-- The optional sign: whether it is a minus.
unfoldable pub take_sign : List ℕ → Bool × List ℕ
take_sign [] = (false, [])
take_sign (c ∷ str) =
    if c == b'-' then (true, str) else (if c == b'+' then (false, str) else (false, c ∷ str))

-- The optional prefix of a hexadecimal number.
unfoldable pub skip_prefix : ℕ → List ℕ → List ℕ
skip_prefix base (c ∷ x ∷ str) =
    if base == 16 && (c == b'0' && (x == b'x' || x == b'X')) then str else c ∷ x ∷ str
skip_prefix base str = str

-- The sign and the magnitude of the number at the beginning of a string, if there is one.
unfoldable pub scan_number : ℕ → List ℕ → Outcome (Option (Bool × ℕ))
unfolding skip_spaces take_sign skip_prefix take_digits
scan_number base str = do
  rest ← skip_spaces str
  let (negative, unsigned) = take_sign rest
  (n, seen) ← take_digits base 0 false (skip_prefix base unsigned)
  done (if seen then some (negative, n) else none)

-- `sscanf` with `%lo`, `%lu` or `%lx`: a number that the type cannot hold is undefined behaviour;
-- a minus negates in the type.
unfoldable pub sscanf_unsigned : ℕ → List ℕ → Outcome (Option ℕ)
unfolding scan_number
sscanf_unsigned base str = scan_number base str >>= λ found. elim found [
  | none ↦ done none
  | some (negative, n) ↦
      if ltb n (2 ^ 64) then done (some (if negative then (2 ^ 64 - n) % 2 ^ 64 else n)) else fault
]

-- `sscanf` with `%ld`
unfoldable pub sscanf_signed : List ℕ → Outcome (Option ℤ)
unfolding scan_number
sscanf_signed str = scan_number 10 str >>= λ found. elim found [
  | none ↦ done none
  | some (negative, n) ↦
      if negative
      then (if leb n (2 ^ 63) then done (some (negate n)) else fault)
      else (if ltb n (2 ^ 63) then done (some (pos n)) else fault)
]
