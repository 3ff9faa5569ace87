-- ===== src/Rtplf/Convert/Signed.antt =====
-- `RT32ToString` and `RTStringTo32` of src/rtplf/x64-linux/src/rtplf.c.
use rtsys.Base.{
  ℕ, suc, ◌-◌, ◌^◌, ◌<◌, ◌≤◌, ◌≡◌, refl, ap, ◌∙◌, Bool, true, some, List, ◌∷◌, ◌++◌, leb,
  if◌then◌else◌, length, drop, arith, done, panic, ◌>>=◌, ne→==_false, lt→leb_false, lt→ltb, ℤ, pos,
  negsuc,
}
use native.Mathlib.Nat.{mod-eq_of_lt}
use rtsys.Rtplf.Text.{str_max, str_len}
use rtsys.Rtplf.Text.Strings.{NonZero, str_len-terminated}
use rtsys.Rtplf.Text.Copy.{stored}
use rtsys.Rtplf.Stdio.{format_signed, format_unsigned}
use rtsys.Rtplf.Stdio.Digits.{format-Digits, length-format, format-some}
use rtsys.Rtplf.Stdio.Scan.{IsInt64, Digits-NonZero, sscanf_signed-format}
use rtsys.Rtplf.Convert.{deliver, s32_to_string, string_to_s32, to_int32}
use rtsys.Rtplf.Convert.Unsigned.{Fits, deliver-stored, sprintf-done, stored-fits}

-- A number of 32 bits, in two's complement.
abbrev pub IsInt32 : ℤ → Type 0
IsInt32 (pos n) = n < 2 ^ 31
IsInt32 (negsuc n) = n < 2 ^ 31

format_signed-NonZero : (x : ℤ) → NonZero (format_signed x)
unfolding format_signed
format_signed-NonZero (pos n) =
    Digits-NonZero 10 (format_unsigned 10 n) (omega arith) (format-Digits 10 n (omega arith))
format_signed-NonZero (negsuc n) = (
  omega arith,
  Digits-NonZero 10 (format_unsigned 10 (suc n)) (omega arith)
      (format-Digits 10 (suc n) (omega arith)),
)

length-format_signed : (x : ℤ) → IsInt32 x → length (format_signed x) ≤ 11
unfolding format_signed
length-format_signed (pos n) h = omega (arith, length-format 10 n 9 (omega arith) (omega arith))
length-format_signed (negsuc n) h =
    omega (arith, length-format 10 (suc n) 9 (omega arith) (omega arith))

format_signed-some : (x : ℤ) → 0 < length (format_signed x)
unfolding format_signed
format_signed-some (pos n) = format-some 10 n
format_signed-some (negsuc n) = omega arith

pub s32_to_string-stored :
    (x : ℤ) (buffer : List ℕ) (size : ℕ)
    → IsInt32 x
    → Fits size buffer
    → s32_to_string x (some buffer) size
      ≡ done (
        if leb size (length (format_signed x)) then size - 1 else length (format_signed x),
        some (stored size (format_signed x) ++ drop size buffer),
      )
unfolding s32_to_string
s32_to_string-stored x buffer size h f = rw (ne→==_false size 0 (omega (arith, f.some_room))) (
    ap (λ m. m >>= λ tmp. deliver buffer size (length (format_signed x)) tmp)
      (sprintf-done 16 (format_signed x) (omega (arith, length-format_signed x h)))
    ∙ deliver-stored buffer (format_signed x) size (length (format_signed x)) f
        (format_signed-NonZero x) (omega (arith, length-format_signed x h)))

to_int32-eq : (x : ℤ) → IsInt32 x → to_int32 x ≡ x
unfolding to_int32
to_int32-eq (pos n) h = rw (mod-eq_of_lt {n = n} {m = 2 ^ 32} (omega arith), lt→ltb n (2 ^ 31) h)
to_int32-eq (negsuc n) h = rw (mod-eq_of_lt {n = n} {m = 2 ^ 32} (omega arith), lt→ltb n (2 ^ 31) h)

string_to_s32-format :
    (x old : ℤ) (rest : List ℕ)
    → IsInt32 x
    → string_to_s32 (some (format_signed x ++ (0 ∷ rest))) (some old) ≡ done (true, some x)
unfolding string_to_s32
string_to_s32-format x old rest h =
    simp
      (
        len,
        ne→==_false (length (format_signed x)) 0 (omega (arith, format_signed-some x)),
        sscanf_signed-format x rest (wide x h),
        to_int32-eq x h,
      )
      refl
  where
    len : str_len (some (format_signed x ++ (0 ∷ rest))) ≡ done (length (format_signed x))
    len =
        (str_len-terminated (format_signed x) rest (format_signed-NonZero x)).1
        ∙ ap (λ b. if b then done (length (format_signed x)) else panic)
            (lt→ltb (length (format_signed x)) str_max (omega (arith, length-format_signed x h)))

    wide : (y : ℤ) → IsInt32 y → IsInt64 y
    wide (pos n) l = omega arith
    wide (negsuc n) l = omega arith

-- `RT32ToString` of a 32-bit signed number into a buffer for at least 12 characters and at most
-- `RTSTRMAX` returns fewer characters than the size, and `RTStringTo32` reads the number back
-- from the buffer.
pub string_to_s32-s32_to_string :
    (x : ℤ) (buffer : List ℕ) (size : ℕ) (old : ℤ)
    → IsInt32 x
    → 12 ≤ size
    → Fits size buffer
    → (n : ℕ) × (buffer' : List ℕ) × (s32_to_string x (some buffer) size ≡ done (n, some buffer'))
      × (n < size)
      × (string_to_s32 (some buffer') (some old) ≡ done (true, some x))
string_to_s32-s32_to_string x buffer size old h k f =
    let short : length (format_signed x) < size = omega (arith, length-format_signed x h) in
    let (rest, e) = stored-fits size (format_signed x) (drop size buffer) short in
    (
      length (format_signed x),
      format_signed x ++ (0 ∷ rest),
      s32_to_string-stored x buffer size h f
          ∙ ap
              (λ s. done (
                if leb size (length (format_signed x)) then size - 1 else length (format_signed x),
                some s,
              ))
              e
          ∙ ap
              (λ (c : Bool). done (
                if c then size - 1 else length (format_signed x),
                some (format_signed x ++ (0 ∷ rest)),
              ))
              (lt→leb_false size (length (format_signed x)) short),
      short,
      string_to_s32-format x old rest h,
    )
