-- ===== src/Rtplf/Convert/Unsigned.antt =====
-- `RTU32ToString` and `RTStringToU32` of src/rtplf/x64-linux/src/rtplf.c.
use rtsys.Base.{
  ℕ, suc, ◌-◌, ◌%◌, ◌^◌, ◌<◌, ◌≤◌, ◌≡◌, ◌≢◌, refl, ap, ◌∙◌, Bool, true, false, Option, none, some,
  List, [], ◌∷◌, ◌++◌, leb, if◌then◌else◌, length, drop, arith, Outcome, done, panic, ◌>>=◌,
  ne→==_false, lt→ltb,
}
use mathlib.Core.List.{append_assoc}
use native.Mathlib.Nat.{mod-eq_of_lt}
use rtsys.Rtplf.Text.{str_max, str_len}
use rtsys.Rtplf.Text.Strings.{NonZero, str_len-terminated}
use rtsys.Rtplf.Text.Copy.{zeros, stored, str_ncpy-stored}
use rtsys.Rtplf.Stdio.{format_unsigned, sprintf}
use rtsys.Rtplf.Stdio.Digits.{format-Digits, length-format, format-some}
use rtsys.Rtplf.Stdio.Scan.{Digits-NonZero, sscanf_unsigned-format}
use rtsys.Rtplf.Convert.{
  Base, base_auto, base_2, base_8, base_10, base_16, base_count, deliver, print_in_base,
  u32_to_string, effective_base, scan_in_base, string_to_u32,
}

-- The number of digits that a base has, base 2 aside; the open base stands for 10.
abbrev pub radix : Base → ℕ
radix base_8 = 8
radix base_16 = 16
radix base = 10

-- A printed number, base 2 aside.
abbrev pub text : ℕ → Base → List ℕ
text x base = format_unsigned (radix base) x

-- A place for `size` characters.
pub record Fits (size : ℕ) (buffer : List ℕ) : Type 0 where
  pub some_room : 0 < size
  pub limited : size ≤ str_max
  pub room : size ≤ length buffer

pub deliver-stored :
    (buffer str : List ℕ) (size n : ℕ)
    → Fits size buffer
    → NonZero str
    → length str < str_max
    → deliver buffer size n (str ++ (0 ∷ []))
      ≡ done (if leb size n then size - 1 else n, some (stored size str ++ drop size buffer))
unfolding deliver
deliver-stored buffer str size n f k l =
    ap (λ m. m >>= λ (r : Bool × Option (List ℕ)). done (if leb size n then size - 1 else n, r.1))
      (str_ncpy-stored str [] buffer size k l f.some_room f.limited f.room)

pub sprintf-done :
    (room : ℕ) (str : List ℕ) → length str < room → sprintf room str ≡ done (str ++ (0 ∷ []))
unfolding sprintf
sprintf-done room str h = rw (lt→ltb (length str) room h)

radix_bounds : (base : Base) → (0 < radix base) × (radix base ≤ 16) × (2 ^ 32 ≤ radix base ^ 11)
radix_bounds base_auto = (omega arith, omega arith, omega arith)
radix_bounds base_2 = (omega arith, omega arith, omega arith)
radix_bounds base_8 = (omega arith, omega arith, omega arith)
radix_bounds base_10 = (omega arith, omega arith, omega arith)
radix_bounds base_16 = (omega arith, omega arith, omega arith)
radix_bounds base_count = (omega arith, omega arith, omega arith)

pub length-text : (x : ℕ) (base : Base) → x < 2 ^ 32 → length (text x base) ≤ 11
length-text x base h =
    let (positive, small, enough) = radix_bounds base in
    length-format (radix base) x 10 positive (omega arith)

print_in_base-text :
    (x : ℕ) (base : Base) (size : ℕ)
    → x < 2 ^ 32
    → base ≢ base_2
    → print_in_base x base size ≡ done (length (text x base), text x base ++ (0 ∷ []))
unfolding print_in_base
print_in_base-text x base size h n =
    by_base base n (sprintf-done 64 (text x base) (omega (arith, length-text x base h)))
  where
    by_base :
        (b : Base)
        → b ≢ base_2
        → sprintf 64 (text x b) ≡ done (text x b ++ (0 ∷ []))
        → print_in_base x b size ≡ done (length (text x b), text x b ++ (0 ∷ []))
    by_base base_2 m e = absurd (m refl)
    by_base base_8 m e = rw e
    by_base base_16 m e = rw e
    by_base base_auto m e = rw e
    by_base base_10 m e = rw e
    by_base base_count m e = rw e

pub text-NonZero : (x : ℕ) (base : Base) → NonZero (text x base)
text-NonZero x base =
    let (positive, small, enough) = radix_bounds base in
    Digits-NonZero (radix base) (text x base) small (format-Digits (radix base) x positive)

-- `RTU32ToString` of a 32-bit number, in a base other than 2, into a buffer for at least one
-- character and at most `RTSTRMAX`, leaves the number's text in the buffer as `RTStrncpy` does,
-- cut to the size with its terminator, and returns the number of characters in front of the
-- terminator; behind the size the buffer stays.
pub u32_to_string-text :
    (x : ℕ) (base : Base) (buffer : List ℕ) (size : ℕ)
    → x < 2 ^ 32
    → base ≢ base_2
    → Fits size buffer
    → u32_to_string x base (some buffer) size
      ≡ done (
        if leb size (length (text x base)) then size - 1 else length (text x base),
        some (stored size (text x base) ++ drop size buffer),
      )
unfolding u32_to_string
u32_to_string-text x base buffer size h n f = rw (ne→==_false size 0 (omega (arith, f.some_room))) (
    ap (λ m. m >>= λ (r : ℕ × List ℕ). deliver buffer size r.0 r.1)
      (print_in_base-text x base size h n)
    ∙ deliver-stored buffer (text x base) size (length (text x base)) f (text-NonZero x base)
        (omega (arith, length-text x base h)))

-- What `x` points to after a scan.
abbrev pub scanned : Option ℕ → ℕ → Bool × Option ℕ
scanned none old = (false, some old)
scanned (some x) old = (true, some x)

pub string_to_u32-scan :
    (str rest : List ℕ) (base base' : Base) (skipped old : ℕ) (found : Option ℕ)
    → NonZero str
    → 0 < length str
    → length str < str_max
    → effective_base base (str ++ (0 ∷ rest)) ≡ done (base', skipped)
    → scan_in_base base' (drop skipped (str ++ (0 ∷ rest))) ≡ done found
    → string_to_u32 (some (str ++ (0 ∷ rest))) base (some old)
      ≡ done (scanned (elim found [ none ↦ none | some x ↦ some (x % 2 ^ 32) ]) old)
unfolding string_to_u32
string_to_u32-scan str rest base base' skipped old found k p l e s =
    simp (len, ne→==_false (length str) 0 (omega arith), e, s) (finish found)
  where
    finish :
        (o : Option ℕ)
        → ◌≡◌ {A = Outcome (Bool × Option ℕ)}
            (elim o [ none ↦ done (false, some old) | some tmp ↦ done (true, some (tmp % 2 ^ 32)) ])
            (done (scanned (elim o [ none ↦ none | some x ↦ some (x % 2 ^ 32) ]) old))
    finish none = refl
    finish (some x) = refl

    len : str_len (some (str ++ (0 ∷ rest))) ≡ done (length str)
    len =
        (str_len-terminated str rest k).1
        ∙ ap (λ b. if b then done (length str) else panic) (lt→ltb (length str) str_max l)

pub scan_in_base-text :
    (x : ℕ) (base : Base) (rest : List ℕ)
    → x < 2 ^ 32
    → base ≢ base_2
    → scan_in_base base (text x base ++ (0 ∷ rest)) ≡ done (some x)
unfolding scan_in_base
scan_in_base-text x base rest h n = by_base base n
  where
    by_base : (b : Base) → b ≢ base_2 → scan_in_base b (text x b ++ (0 ∷ rest)) ≡ done (some x)
    by_base base_2 m = absurd (m refl)
    by_base base_8 m =
        sscanf_unsigned-format 8 x rest (omega arith) (omega arith) (omega arith) (omega arith)
    by_base base_16 m =
        sscanf_unsigned-format 16 x rest (omega arith) (omega arith) (omega arith) (omega arith)
    by_base base_auto m =
        sscanf_unsigned-format 10 x rest (omega arith) (omega arith) (omega arith) (omega arith)
    by_base base_10 m =
        sscanf_unsigned-format 10 x rest (omega arith) (omega arith) (omega arith) (omega arith)
    by_base base_count m =
        sscanf_unsigned-format 10 x rest (omega arith) (omega arith) (omega arith) (omega arith)

-- A string that has room in a buffer stands in front of a terminator there.
pub stored-fits :
    (size : ℕ) (str more : List ℕ)
    → length str < size
    → (rest : List ℕ) × (stored size str ++ more ≡ str ++ (0 ∷ rest))
stored-fits size str more h =
    let e : size - length str ≡ suc (size - length str - 1) = omega arith in
    (
      zeros (size - length str - 1) ++ more,
      rw (lt→ltb (length str) size h)
          (append_assoc str _ more ∙ ap (λ n. str ++ (zeros n ++ more)) e),
    )

module _ (x : ℕ) (old : ℕ) (h : x < 2 ^ 32) where
  pub string_to_u32-text :
      (base : Base) (rest : List ℕ)
      → base ≢ base_auto
      → base ≢ base_2
      → string_to_u32 (some (text x base ++ (0 ∷ rest))) base (some old) ≡ done (true, some x)
  unfolding effective_base
  string_to_u32-text base rest a n =
      string_to_u32-scan (text x base) rest base base 0 old (some x) (text-NonZero x base)
        (format-some (radix base) x) (omega (arith, length-text x base h)) (given base a)
        (scan_in_base-text x base rest h n)
      ∙ ap (λ k. done (true, some k)) (mod-eq_of_lt h)
    where
      given :
          (b : Base) → b ≢ base_auto → effective_base b (text x base ++ (0 ∷ rest)) ≡ done (b, 0)
      given base_auto m = absurd (m refl)
      given base_2 m = refl
      given base_8 m = refl
      given base_10 m = refl
      given base_16 m = refl
      given base_count m = refl
