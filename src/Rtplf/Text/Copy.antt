-- ===== src/Rtplf/Text/Copy.antt =====
-- `RTStrncpy` on strings that end in their objects.
use rtsys.Base.{
  ℕ, zero, suc, ◌-◌, ◌<◌, ◌≤◌, ◌≡◌, refl, ap, ◌∙◌, some, List, [], ◌∷◌, ◌++◌, ltb, leb,
  if◌then◌else◌, length, take, drop, arith, done, panic, lt→ltb, lt→leb_false, le→ltb_false, le→leb,
  ne→==_false,
}
use mathlib.Core.List.{append_assoc}
use native.Mathlib.Decide.{dec_lt}
use rtsys.Rtplf.Text.{str_max, str_len, copy_chars, set_char, str_ncpy}
use rtsys.Rtplf.Text.Strings.{NonZero, str_len-terminated}

abbrev pub zeros : ℕ → List ℕ
zeros zero = []
zeros (suc n) = 0 ∷ zeros n

pub length-zeros : (n : ℕ) → length (zeros n) ≡ n
length-zeros zero = refl
length-zeros (suc n) = ap suc (length-zeros n)

-- A buffer of `size` characters that holds as much of a string as fits in front of a terminator.
abbrev pub stored : ℕ → List ℕ → List ℕ
stored size str =
    if ltb (length str) size
    then str ++ zeros (size - length str)
    else take (size - 1) str ++ (0 ∷ [])

copy_chars-nil :
    (n : ℕ) (dst : List ℕ)
    → n ≤ length dst
    → copy_chars n dst (0 ∷ []) ≡ done (zeros n ++ drop n dst)
unfolding copy_chars
copy_chars-nil zero dst h = refl
copy_chars-nil (suc n) [] h = absurd (omega arith)
copy_chars-nil (suc n) (d ∷ dst) h = rw (copy_chars-nil n dst (omega arith))

-- The whole string and zeros behind it, if there is room for a terminator.
copy_chars-short :
    (str rest : List ℕ) (n : ℕ) (dst : List ℕ)
    → NonZero str
    → length str < n
    → n ≤ length dst
    → copy_chars n dst (str ++ (0 ∷ rest)) ≡ done (str ++ (zeros (n - length str) ++ drop n dst))
unfolding copy_chars
copy_chars-short str rest zero dst k l h = absurd (omega arith)
copy_chars-short str rest (suc n) [] k l h = absurd (omega arith)
copy_chars-short [] rest (suc n) (d ∷ dst) k l h =
    rw (copy_chars-nil n dst (omega arith))
      (ap (λ m. done (zeros m ++ drop n dst)) {x = suc n} {y = suc n - 0} (omega arith))
copy_chars-short (char ∷ str) rest (suc n) (d ∷ dst) (k, ks) l h =
    let later = copy_chars-short str rest n dst ks (omega arith) (omega arith) in
    let e : n - length str ≡ suc n - suc (length str) = omega arith in
    simp (ne→==_false char 0 k, later) (ap (λ m. done (char ∷ (str ++ (zeros m ++ drop n dst)))) e)

-- The first characters, if there is none for a terminator.
copy_chars-long :
    (str rest : List ℕ) (n : ℕ) (dst : List ℕ)
    → NonZero str
    → n ≤ length str
    → n ≤ length dst
    → copy_chars n dst (str ++ (0 ∷ rest)) ≡ done (take n str ++ drop n dst)
unfolding copy_chars
copy_chars-long str rest zero dst k l h = refl
copy_chars-long str rest (suc n) [] k l h = absurd (omega arith)
copy_chars-long [] rest (suc n) (d ∷ dst) k l h = absurd (omega arith)
copy_chars-long (char ∷ str) rest (suc n) (d ∷ dst) (k, ks) l h =
    simp (ne→==_false char 0 k, copy_chars-long str rest n dst ks (omega arith) (omega arith)) refl

set_char-take :
    (str more : List ℕ) (n : ℕ)
    → n < length str
    → set_char (take (suc n) str ++ more) n 0 ≡ done (take n str ++ (0 ∷ more))
unfolding set_char
set_char-take [] more n h = absurd (omega arith)
set_char-take (char ∷ str) more zero h = refl
set_char-take (char ∷ str) more (suc n) h = rw (set_char-take str more n (omega arith))

set_char-last :
    (str more : List ℕ) (size : ℕ)
    → 0 < size
    → size ≤ length str
    → set_char (take size str ++ more) (size - 1) 0 ≡ done (take (size - 1) str ++ (0 ∷ more))
set_char-last str more zero p h = absurd (omega arith)
set_char-last str more (suc n) p h =
    let e : suc n - 1 ≡ n = omega arith in rw e (set_char-take str more n (omega arith))

-- `RTStrncpy` of a string shorter than `RTSTRMAX` into a buffer for at least one character and
-- at most `RTSTRMAX` stores the string and fills the size up with zeros, or cuts the string to
-- the size with its terminator; it returns whether it has cut, and behind the size the buffer
-- stays.
pub str_ncpy-stored :
    (str rest dst : List ℕ) (size : ℕ)
    → NonZero str
    → length str < str_max
    → 0 < size
    → size ≤ str_max
    → size ≤ length dst
    → str_ncpy (some dst) size (some (str ++ (0 ∷ rest)))
      ≡ done (leb size (length str), some (stored size str ++ drop size dst))
unfolding str_ncpy
str_ncpy-stored str rest dst size k l p q h =
    let len : str_len (some (str ++ (0 ∷ rest))) ≡ done (length str) =
      (str_len-terminated str rest k).1
      ∙ ap (λ b. if b then done (length str) else panic) (lt→ltb (length str) str_max l) in
    elim (dec_lt (length str) size) [
      | yes short ↦
          simp
            (
              le→leb size str_max q,
              ne→==_false size 0 (omega arith),
              len,
              copy_chars-short str rest size dst k short h,
              lt→leb_false size (length str) short,
              lt→ltb (length str) size short,
              append_assoc,
            )
            refl
      | no long ↦
          simp
            (
              le→leb size str_max q,
              ne→==_false size 0 (omega arith),
              len,
              copy_chars-long str rest size dst k (omega arith) h,
              le→leb size (length str) (omega arith),
              le→ltb_false (length str) size (omega arith),
              set_char-last str (drop size dst) size p (omega arith),
              append_assoc,
            )
            refl
    ]
