-- ===== src/Rtplf/Convert.antt =====
-- The conversions between numbers and strings of src/rtplf/x64-linux/src/rtplf.c. What `buffer`
-- points to, and what `x` points to, is part of the result; `none` is NULL.
pub mod Unsigned
pub mod Guess
pub mod Signed
pub mod RoundTrip
use rtsys.Base.{
  ℕ, suc, ◌+◌, ◌-◌, ◌*◌, ◌%◌, ◌^◌, Bool, true, false, ◌&&◌, ◌||◌, Option, none, some, List, [], ◌∷◌,
  ◌++◌, ltb, leb, ◌==◌, if◌then◌else◌, length, drop, ℤ, pos, negsuc, Outcome, done, fault, ◌>>=◌,
  ◌>>◌, get_elem?,
}
use rtsys.Rtplf.Text.{str_len, str_ncpy, print_base2, scan_base2, read}
use rtsys.Rtplf.Stdio.{format_signed, format_unsigned, sprintf, sscanf_signed, sscanf_unsigned}

-- `RTBase`
pub data Base : Type 0 where
  base_auto base_2 base_8 base_10 base_16 base_count : Base

-- `if (nchars >= size) nchars = size - 1;` and the copy of `tmp`
unfoldable pub deliver : List ℕ → ℕ → ℕ → List ℕ → Outcome (ℕ × Option (List ℕ))
deliver buffer size nchars tmp = do
  (truncated, copied) ← str_ncpy (some buffer) size (some tmp)
  done (if leb size nchars then size - 1 else nchars, copied)

unfoldable pub s32_to_string : ℤ → Option (List ℕ) → ℕ → Outcome (ℕ × Option (List ℕ))
s32_to_string x none size = done (0, none)
s32_to_string x (some buffer) size =
    if size == 0
    then done (0, some buffer)
    else (do tmp ← sprintf 16 (format_signed x); deliver buffer size (length (format_signed x)) tmp)

-- The `switch` of `RTU32ToString`: `n`, and what is printed into `tmp`.
unfoldable pub print_in_base : ℕ → Base → ℕ → Outcome (ℕ × List ℕ)
print_in_base x base_2 size = print_base2 x size
print_in_base x base_8 size =
    sprintf 64 (format_unsigned 8 x) >>= λ tmp. done (length (format_unsigned 8 x), tmp)
print_in_base x base_16 size =
    sprintf 64 (format_unsigned 16 x) >>= λ tmp. done (length (format_unsigned 16 x), tmp)
print_in_base x base size =
    sprintf 64 (format_unsigned 10 x) >>= λ tmp. done (length (format_unsigned 10 x), tmp)

unfoldable pub u32_to_string : ℕ → Base → Option (List ℕ) → ℕ → Outcome (ℕ × Option (List ℕ))
u32_to_string x base none size = done (0, none)
u32_to_string x base (some buffer) size =
    if size == 0
    then done (0, some buffer)
    else (do (n, tmp) ← print_in_base x base size; deliver buffer size n tmp)

-- A `long` stored in an `int32_t`: the lowest 32 bits, in two's complement.
unfoldable pub to_int32 : ℤ → ℤ
to_int32 (pos n) =
    let bits = n % 2 ^ 32 in if ltb bits (2 ^ 31) then pos bits else negsuc (2 ^ 32 - 1 - bits)
to_int32 (negsuc n) =
    let bits = n % 2 ^ 32 in if ltb bits (2 ^ 31) then negsuc bits else pos (2 ^ 32 - 1 - bits)

unfoldable pub string_to_s32 : Option (List ℕ) → Option ℤ → Outcome (Bool × Option ℤ)
string_to_s32 none x = done (false, x)
string_to_s32 (some str) none = str_len (some str) >>= λ len. done (false, none)
string_to_s32 (some str) (some old) = do
  len ← str_len (some str)
  if len == 0 then done (false, some old) else (do
    found ← sscanf_signed str
    elim found [ none ↦ done (false, some old) | some tmp ↦ done (true, some (to_int32 tmp)) ])

-- The guess of `RTStringToU32` where the base is left open: the base, and the characters to skip.
unfoldable pub guess_base : List ℕ → Outcome (Base × ℕ)
guess_base str = do
  first ← read str 0
  if first == b'0'
      then (do
        second ← read str 1
        done (if second == b'x' || second == b'X' then (base_16, 2) else (base_8, 1)))
      else done (if first == b'b' || first == b'B' then (base_2, 1) else (base_10, 0))

unfoldable pub effective_base : Base → List ℕ → Outcome (Base × ℕ)
effective_base base_auto str = guess_base str
effective_base base str = done (base, 0)

-- The `switch` of `RTStringToU32`: the number, if one is parsed.
unfoldable pub scan_in_base : Base → List ℕ → Outcome (Option ℕ)
scan_in_base base_2 start = scan_base2 (some start)
scan_in_base base_8 start = sscanf_unsigned 8 start
scan_in_base base_16 start = sscanf_unsigned 16 start
scan_in_base base start = sscanf_unsigned 10 start

unfoldable pub string_to_u32 : Option (List ℕ) → Base → Option ℕ → Outcome (Bool × Option ℕ)
string_to_u32 none base x = done (false, x)
string_to_u32 (some str) base none = str_len (some str) >>= λ len. done (false, none)
string_to_u32 (some str) base (some old) = do
  len ← str_len (some str)
  if len == 0 then done (false, some old) else (do
    (base', skipped) ← effective_base base str
    found ← scan_in_base base' (drop skipped str)
    elim found [ none ↦ done (false, some old) | some tmp ↦ done (true, some (tmp % 2 ^ 32)) ])
