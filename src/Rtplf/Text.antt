-- ===== src/Rtplf/Text.antt =====
-- The string functions of src/rtplf/x64-linux/src/rtplf.c. What a `char*` points to is a list of
-- bytes up to the end of the object; a read behind it is a fault. A `char` is a signed byte, so
-- bytes are compared from -128 on.
pub mod Strings
pub mod Base2
pub mod Copy
use rtsys.Base.{
  ℕ, zero, suc, ◌+◌, ◌-◌, ◌%◌, ◌/◌, ◌*◌, ◌^◌, Bool, true, false, not, ◌&&◌, ◌||◌, Option, none,
  some, List, [], ◌∷◌, ◌++◌, ltb, leb, ◌==◌, if◌then◌else◌, length, take, drop, ℤ, pos, negsuc,
  Outcome, done, panic, fault, timeout, ◌>>=◌, ◌>>◌, assert, non_null, get_elem?,
}

-- `RTSTRMAX`
abbrev pub str_max : ℕ
str_max = 50000

abbrev pub read : List ℕ → ℕ → Outcome ℕ
read bytes i = elim (get_elem? bytes i) [ none ↦ fault | some b ↦ done b ]

-- The loop of `RTStrlen`, at the rest of the object; `RTASSERT` bounds its rounds.
unfoldable pub count_chars : List ℕ → ℕ → Outcome ℕ
count_chars [] len = fault
count_chars (char ∷ rest) len =
    let later = count_chars rest (len + 1) in
    if char == 0 then done len else (assert (ltb (len + 1) str_max) >> later)

unfoldable pub str_len : Option (List ℕ) → Outcome ℕ
unfolding count_chars
str_len none = done 0
str_len (some str) = count_chars str 0

-- `strncpy` of the C library: copies up to the terminator, and fills the rest with zeros.
unfoldable pub copy_chars : ℕ → List ℕ → List ℕ → Outcome (List ℕ)
copy_chars zero dst src = done dst
copy_chars (suc n) [] src = fault
copy_chars (suc n) (d ∷ dst) [] = fault
copy_chars (suc n) (d ∷ dst) (char ∷ src) =
    let filled = copy_chars n dst (0 ∷ []) in
    let copied = copy_chars n dst src in
    (if char == 0 then filled else copied) >>= λ rest. done (char ∷ rest)

-- `dst[i] = char`
unfoldable pub set_char : List ℕ → ℕ → ℕ → Outcome (List ℕ)
set_char [] i char = fault
set_char (d ∷ dst) zero char = done (char ∷ dst)
set_char (d ∷ dst) (suc i) char = set_char dst i char >>= λ rest. done (d ∷ rest)

-- `RTStrncpy`: what it returns, and what `dst` points to afterwards
unfoldable pub str_ncpy : Option (List ℕ) → ℕ → Option (List ℕ) → Outcome (Bool × Option (List ℕ))
unfolding str_len copy_chars set_char
str_ncpy none dst_size none = assert (leb dst_size str_max) >> done (false, none)
str_ncpy none dst_size (some src) = assert (leb dst_size str_max) >> done (true, none)
str_ncpy (some dst) dst_size none =
    assert (leb dst_size str_max)
    >> (if dst_size == 0
        then done (false, some dst)
        else (set_char dst 0 0 >>= λ dst'. done (true, some dst')))
str_ncpy (some dst) dst_size (some src) = do
  assert (leb dst_size str_max)
  if dst_size == 0 then done (true, some dst) else (do
    len ← str_len (some src)
    let truncated = leb dst_size len
    copied ← copy_chars dst_size dst src
    dst' ← (if truncated then set_char copied (dst_size - 1) 0 else done copied)
    done (truncated, some dst'))

-- The order of a `char`
abbrev pub char_key : ℕ → ℕ
char_key b = (b + 2 ^ 7) % 2 ^ 8

-- The loop that `RTStrcmp` and `RTStrncmp` share, from index `i` on
unfoldable pub compare_chars : List ℕ → List ℕ → ℕ → Outcome ℤ
compare_chars [] str2 i = assert (leb i str_max) >> fault
compare_chars (a ∷ str1) [] i = assert (leb i str_max) >> fault
compare_chars (a ∷ str1) (b ∷ str2) i =
    let later = compare_chars str1 str2 (i + 1) in
    assert (leb i str_max)
    >> (if ltb (char_key a) (char_key b)
        then done (negsuc 0)
        else (if ltb (char_key b) (char_key a) then done (pos 1) else later))

unfoldable pub str_cmp : Option (List ℕ) → Option (List ℕ) → Outcome ℤ
unfolding compare_chars
str_cmp none none = done (pos 0)
str_cmp none (some str2) = done (negsuc 0)
str_cmp (some str1) none = done (pos 1)
str_cmp (some str1) (some str2) = compare_chars str1 str2 0

unfoldable pub str_ncmp : Option (List ℕ) → Option (List ℕ) → ℕ → Outcome ℤ
unfolding str_cmp
str_ncmp str1 str2 size =
    assert (leb size str_max) >> (if ltb 0 size then str_cmp str1 str2 else done (pos 0))

-- The loop of `rtplfPrintBase2`, on the digits left: what it writes, where `room` characters fit
unfoldable pub print_digits : ℕ → ℕ → ℕ → List ℕ
print_digits zero x room = []
print_digits (suc n) x room =
    let digit = if ltb x (2 ^ 31) then 48 else 49 in
    let x' = x * 2 % 2 ^ 32 in
    if 0 == room then print_digits n x' 0 else digit ∷ print_digits n x' (room - 1)

-- `rtplfPrintBase2`: 32, and the string with its terminator
unfoldable pub print_base2 : ℕ → ℕ → Outcome (ℕ × List ℕ)
unfolding print_digits
print_base2 x size = assert (ltb 0 size) >> done (32, print_digits 32 x (size - 1) ++ (0 ∷ []))

-- The loop of `rtplfScanBase2` over the characters: the number, and whether one was parsed
unfoldable pub scan_digits : ℕ → List ℕ → ℕ → Bool → Outcome (ℕ × Bool × Bool)
scan_digits zero str tmp parsed_one = done (tmp, true, parsed_one)
scan_digits (suc n) [] tmp parsed_one = fault
scan_digits (suc n) (char ∷ str) tmp parsed_one =
    let zero_next = scan_digits n str (tmp * 2 % 2 ^ 32) true in
    let one_next = scan_digits n str (tmp * 2 % 2 ^ 32 + 1) true in
    if char == 48
    then zero_next
    else (if char == 49 then one_next else done (tmp, false, parsed_one))

-- `rtplfScanBase2`: the number if it is parsed
unfoldable pub scan_base2 : Option (List ℕ) → Outcome (Option ℕ)
unfolding scan_digits str_len
scan_base2 str = do
  len ← str_len str
  chars ← non_null str
  if len == 0 then done none else (do
    (tmp, parsing, parsed_one) ← scan_digits (if ltb 32 len then 32 else len) chars 0 false
    done (if parsing || parsed_one then some tmp else none))
