-- ===== src/Rtplf/Convert/RoundTrip.antt =====
-- `RTStringToU32` on what `RTU32ToString` has left in a buffer.
use rtsys.Base.{
  ℕ, ◌-◌, ◌^◌, ◌<◌, ◌≤◌, ◌≡◌, ◌≢◌, refl, ap, ◌∙◌, Bool, true, some, List, ◌∷◌, ◌++◌, leb,
  if◌then◌else◌, length, drop, arith, done, ne→==_false, lt→leb_false,
}
use native.Mathlib.Nat.{mod-eq_of_lt}
use rtsys.Rtplf.Text.{print_digits}
use rtsys.Rtplf.Text.Base2.{
  print_digits-NonZero, length-print_digits, scan_base2-print_digits, print_base2-eq,
}
use rtsys.Rtplf.Convert.{
  Base, base_auto, base_2, base_8, base_10, base_16, base_count, print_in_base, u32_to_string,
  effective_base, scan_in_base, string_to_u32,
}
use rtsys.Rtplf.Convert.Unsigned.{
  Fits, text, length-text, deliver-stored, u32_to_string-text, stored-fits, string_to_u32-text,
  string_to_u32-scan,
}

-- What is left in a buffer, and what is scanned in it.
Returned : ℕ → Base → List ℕ → ℕ → ℕ → Type 0
Returned x base buffer size old =
    (n : ℕ) × (buffer' : List ℕ) × (u32_to_string x base (some buffer) size
      ≡ done (n, some buffer'))
    × (n < size)
    × (string_to_u32 (some buffer') base (some old) ≡ done (true, some x))

module _ (x : ℕ) (buffer : List ℕ) (size old : ℕ) (h : x < 2 ^ 32) (k : 33 ≤ size)
    (f : Fits size buffer) where
  Returned-text : (base : Base) → base ≢ base_auto → base ≢ base_2 → Returned x base buffer size old
  unfolding Returned
  Returned-text base a b =
      let short : length (text x base) < size = omega (arith, length-text x base h) in
      let (rest, e) = stored-fits size (text x base) (drop size buffer) short in
      (
        length (text x base),
        text x base ++ (0 ∷ rest),
        u32_to_string-text x base buffer size h b f
            ∙ ap
                (λ s. done (
                  if leb size (length (text x base)) then size - 1 else length (text x base),
                  some s,
                ))
                e
            ∙ ap
                (λ (c : Bool).
                  done (
                    if c then size - 1 else length (text x base),
                    some (text x base ++ (0 ∷ rest)),
                  ))
                (lt→leb_false size (length (text x base)) short),
        short,
        string_to_u32-text x old h base rest a b,
      )

  Returned-bits : Returned x base_2 buffer size old
  unfolding Returned u32_to_string print_in_base effective_base scan_in_base
  Returned-bits =
      let room : 32 ≤ size - 1 = omega arith in
      let count = length-print_digits 32 x (size - 1) room in
      let plain = print_digits-NonZero 32 x (size - 1) room in
      let short : length (print_digits 32 x (size - 1)) < size = omega arith in
      let (rest, e) = stored-fits size (print_digits 32 x (size - 1)) (drop size buffer) short in
      (
        32,
        print_digits 32 x (size - 1) ++ (0 ∷ rest),
        rw (ne→==_false size 0 (omega arith), print_base2-eq x size (omega arith))
            (deliver-stored buffer (print_digits 32 x (size - 1)) size 32 f plain (omega arith)
              ∙ ap (λ s. done (if leb size 32 then size - 1 else 32, some s)) e
              ∙ ap
                  (λ (c : Bool).
                    done (
                      if c then size - 1 else 32,
                      some (print_digits 32 x (size - 1) ++ (0 ∷ rest)),
                    ))
                  (lt→leb_false size 32 (omega arith))),
        omega arith,
        string_to_u32-scan (print_digits 32 x (size - 1)) rest base_2 base_2 0 old (some x) plain
              (omega arith) (omega arith) refl (scan_base2-print_digits x (size - 1) rest h room)
            ∙ ap (λ n. done (true, some n)) (mod-eq_of_lt h),
      )

-- `RTU32ToString` of a 32-bit number, in any base but RTBASE_AUTO, into a buffer for at least
-- 33 characters and at most `RTSTRMAX`, returns fewer characters than the size, and
-- `RTStringToU32` in the same base reads the number back from the buffer.
pub string_to_u32-u32_to_string :
    (x : ℕ) (base : Base) (buffer : List ℕ) (size old : ℕ)
    → x < 2 ^ 32
    → base ≢ base_auto
    → 33 ≤ size
    → Fits size buffer
    → (n : ℕ) × (buffer' : List ℕ) × (u32_to_string x base (some buffer) size
        ≡ done (n, some buffer'))
      × (n < size)
      × (string_to_u32 (some buffer') base (some old) ≡ done (true, some x))
unfolding Returned
string_to_u32-u32_to_string x base buffer size old h a k f = by_base base a
  where
    by_base : (b : Base) → b ≢ base_auto → Returned x b buffer size old
    by_base base_auto m = absurd (m refl)
    by_base base_2 m = Returned-bits x buffer size old h k f
    by_base base_8 m = Returned-text x buffer size old h k f base_8 m (λ e. cc)
    by_base base_10 m = Returned-text x buffer size old h k f base_10 m (λ e. cc)
    by_base base_16 m = Returned-text x buffer size old h k f base_16 m (λ e. cc)
    by_base base_count m = Returned-text x buffer size old h k f base_count m (λ e. cc)
