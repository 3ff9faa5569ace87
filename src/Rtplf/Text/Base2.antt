-- ===== src/Rtplf/Text/Base2.antt =====
-- `rtplfPrintBase2` and `rtplfScanBase2` (src/rtplf/x64-linux/src/rtplf.c) together.
use rtsys.Base.{
  ℕ, zero, suc, ◌+◌, ◌-◌, ◌*◌, ◌%◌, ◌^◌, ◌<◌, ◌≤◌, ◌≡◌, ◌≢◌, refl, ap, ◌∙◌, sym, Bool, true, false,
  none, some, List, [], ◌∷◌, ◌++◌, ltb, ◌==◌, if◌then◌else◌, length, arith, done, panic, ◌>>=◌,
  ◌>>◌, assert, ◌||◌, lt→ltb, le→ltb_false, ne→==_false,
}
use native.Mathlib.Decide.{dec_lt}
use native.Mathlib.Nat.{pow-succ', mod-eq_of_lt}
use rtsys.Rtplf.Text.{str_max, str_len, print_digits, print_base2, scan_digits, scan_base2}
use rtsys.Rtplf.Text.Strings.{NonZero, str_len-terminated}

mul_step : (t n p : ℕ) → t < n → t * p + p ≤ n * p
mul_step t n p h = grind arith

twice : (t p : ℕ) → t * (2 * p) ≡ 2 * (t * p)
twice t p = grind arith

-- The top digit of a number whose other digits are `t`, in front of `p`.
digit_zero :
    (n p t x : ℕ)
    → n * p ≡ 2 ^ 31
    → 0 < p
    → t < n
    → x ≡ t * p
    → (x < 2 ^ 31) × (x * 2 % 2 ^ 32 ≡ t * (2 * p))
digit_zero n p t x e q h d =
    let small : x < 2 ^ 31 = omega (arith, mul_step t n p h) in (small, omega (arith, twice t p))

digit_one :
    (n p t x : ℕ)
    → n * p ≡ 2 ^ 31
    → 0 < p
    → t < n
    → x ≡ (n + t) * p
    → (2 ^ 31 ≤ x) × (x * 2 % 2 ^ 32 ≡ t * (2 * p))
digit_one n p t x e q h d =
    let sum : x ≡ n * p + t * p = d ∙ grind arith in
    (omega arith, omega (arith, twice t p, mul_step t n p h))

double_product : (n p : ℕ) → 2 * n * p ≡ 2 * (n * p)
double_product n p = grind arith

product_double : (a n : ℕ) → a * (2 * n) ≡ a * 2 * n
product_double a n = grind arith

le_product : (a n : ℕ) → 0 < n → a ≤ a * n
le_product a n h = grind arith

succ_product : (a n : ℕ) → (a + 1) * n ≡ a * n + n
succ_product a n = grind arith

-- Scanning `n` digits of a number that has them on top, behind a number that leaves room for them.
scan-print :
    (n x tmp room : ℕ) (rest : List ℕ) (one : Bool) (p top : ℕ)
    → n ≤ room
    → x ≡ top * p
    → 0 < p
    → 2 ^ n * p ≡ 2 ^ 32
    → top < 2 ^ n
    → tmp * 2 ^ n + top < 2 ^ 32
    → (one' : Bool) × (scan_digits n (print_digits n x room ++ rest) tmp one
        ≡ done (tmp * 2 ^ n + top, true, one'))
unfolding scan_digits print_digits
scan-print zero x tmp room rest one p top h e q b l t =
    (one, ap (λ k. done (k, true, one)) (omega arith))
scan-print (suc n) x tmp room rest one p top h e q b l t =
    let double : 2 ^ suc n ≡ 2 * 2 ^ n = pow-succ' 2 n in
    let half : 2 ^ n * p ≡ 2 ^ 31 =
      omega (arith, sym (double_product (2 ^ n) p) ∙ ap (λ k. k * p) (sym double) ∙ b) in
    let room_left : tmp * 2 ^ suc n ≡ tmp * 2 * 2 ^ n =
      ap (λ k. tmp * k) double ∙ product_double tmp (2 ^ n) in
    let next : 2 ^ n * (2 * p) ≡ 2 ^ 32 = omega (arith, twice (2 ^ n) p) in
    let fits : tmp * 2 < 2 ^ 32 = omega (arith, le_product (tmp * 2) (2 ^ n) (omega arith)) in
    elim (dec_lt top (2 ^ n)) [
      | yes small ↦
          let (low, shifted) = digit_zero (2 ^ n) p top x half q small e in
          let (one', later) =
            scan-print n (top * (2 * p)) (tmp * 2) (room - 1) rest true (2 * p) top (omega arith)
              refl (omega arith) next small (omega arith) in
          (
            one',
            simp
                (
                  ne→==_false 0 room (omega arith),
                  shifted,
                  lt→ltb x (2 ^ 31) low,
                  mod-eq_of_lt fits,
                  later,
                )
                (ap (λ k. done (k, true, one')) (omega arith)),
          )
      | no large ↦
          let (high, shifted) =
            digit_one (2 ^ n) p (top - 2 ^ n) x half q (omega arith)
              (e ∙ ap (λ k. k * p) (omega arith)) in
          let (one', later) =
            scan-print n ((top - 2 ^ n) * (2 * p)) (tmp * 2 + 1) (room - 1) rest true (2 * p)
              (top - 2 ^ n) (omega arith) refl (omega arith) next (omega arith)
              (omega (arith, succ_product (tmp * 2) (2 ^ n))) in
          (
            one',
            simp
                (
                  ne→==_false 0 room (omega arith),
                  shifted,
                  le→ltb_false x (2 ^ 31) high,
                  mod-eq_of_lt fits,
                  later,
                )
                (ap (λ k. done (k, true, one')) (omega (arith, succ_product (tmp * 2) (2 ^ n)))),
          )
    ]

pub print_digits-NonZero : (n x room : ℕ) → n ≤ room → NonZero (print_digits n x room)
unfolding print_digits
print_digits-NonZero zero x room h = tt
print_digits-NonZero (suc n) x room h =
    simp (ne→==_false 0 room (omega arith))
      (digit-ne (ltb x (2 ^ 31)), print_digits-NonZero n (x * 2 % 2 ^ 32) (room - 1) (omega arith))
  where
    digit-ne : (b : Bool) → ◌≢◌ {A = ℕ} (if b then 48 else 49) 0
    digit-ne true = omega arith
    digit-ne false = omega arith

pub length-print_digits : (n x room : ℕ) → n ≤ room → length (print_digits n x room) ≡ n
unfolding print_digits
length-print_digits zero x room h = refl
length-print_digits (suc n) x room h =
    simp (ne→==_false 0 room (omega arith))
      (ap suc (length-print_digits n (x * 2 % 2 ^ 32) (room - 1) (omega arith)))

scan_whole :
    (x room : ℕ) (rest : List ℕ)
    → x < 2 ^ 32
    → 32 ≤ room
    → (one : Bool) × (scan_digits 32 (print_digits 32 x room ++ (0 ∷ rest)) 0 false
        ≡ done (x, true, one))
scan_whole x room rest h k =
    let (one, scanned) =
      scan-print 32 x 0 room (0 ∷ rest) false 1 x k (omega arith) (omega arith) refl h
        (omega arith) in
    (one, scanned ∙ ap (λ n. done (n, true, one)) {x = 0 * 2 ^ 32 + x} {y = x} (omega arith))

scan_base2-32 :
    (x : ℕ) (one : Bool) (str : List ℕ)
    → str_len (some str) ≡ done 32
    → scan_digits 32 str 0 false ≡ done (x, true, one)
    → scan_base2 (some str) ≡ done (some x)
unfolding scan_base2
scan_base2-32 x one str e s =
    ap
      (λ m. m >>= λ len.
        if len == 0
        then done none
        else (scan_digits (if ltb 32 len then 32 else len) str 0 false >>= λ (r : ℕ × Bool × Bool).
            done (if r.1 || r.2 then some r.0 else none)))
      e
    ∙ ap (λ m. m >>= λ (r : ℕ × Bool × Bool). done (if r.1 || r.2 then some r.0 else none)) s

pub print_base2-eq :
    (x size : ℕ)
    → 0 < size
    → print_base2 x size ≡ done (32, print_digits 32 x (size - 1) ++ (0 ∷ []))
unfolding print_base2
print_base2-eq x size h =
    ap (λ b. assert b >> done (32, print_digits 32 x (size - 1) ++ (0 ∷ []))) (lt→ltb 0 size h)

str_len-32 :
    (digits rest : List ℕ)
    → NonZero digits
    → length digits ≡ 32
    → str_len (some (digits ++ (0 ∷ rest))) ≡ done 32
str_len-32 digits rest n e =
    (str_len-terminated digits rest n).1 ∙ ap (λ k. if ltb k str_max then done k else panic) e

pub scan_base2-print_digits :
    (x room : ℕ) (rest : List ℕ)
    → x < 2 ^ 32
    → 32 ≤ room
    → scan_base2 (some (print_digits 32 x room ++ (0 ∷ rest))) ≡ done (some x)
scan_base2-print_digits x room rest h k =
    let (one, scanned) = scan_whole x room rest h k in
    scan_base2-32 x one (print_digits 32 x room ++ (0 ∷ rest))
      (str_len-32 (print_digits 32 x room) rest (print_digits-NonZero 32 x room k)
        (length-print_digits 32 x room k))
      scanned

-- A 32-bit number printed in base 2 into a buffer of at least 33 characters is complete, and is
-- scanned back from what was printed.
pub scan_base2-print_base2 :
    (x size : ℕ)
    → x < 2 ^ 32
    → 33 ≤ size
    → (str : List ℕ) × (print_base2 x size ≡ done (32, str))
      × (scan_base2 (some str) ≡ done (some x))
scan_base2-print_base2 x size h k = (
  print_digits 32 x (size - 1) ++ (0 ∷ []),
  print_base2-eq x size (omega arith),
  scan_base2-print_digits x (size - 1) [] h (omega arith),
)
