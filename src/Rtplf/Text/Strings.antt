-- ===== src/Rtplf/Text/Strings.antt =====
-- `RTStrlen` and `RTStrcmp` on strings that end in their objects.
use rtsys.Base.{
  le→leb, ℕ, suc, ◌+◌, ◌<◌, ◌≤◌, ◌≡◌, ◌≢◌, refl, ap, ◌∙◌, none, some, List, [], ◌∷◌, ◌++◌, ltb,
  if◌then◌else◌, length, arith, ℤ, pos, negsuc, done, panic, lt→ltb, le→ltb_false, ne→==_false,
}
use native.Mathlib.Decide.{dec_lt}
use rtsys.Rtplf.Text.{str_max, count_chars, str_len, char_key, compare_chars, str_cmp, str_ncmp}

-- No character is the terminator.
abbrev pub NonZero : List ℕ → Type 0
NonZero [] = Unit
NonZero (char ∷ str) = (char ≢ 0) × NonZero str

count_chars-terminated :
    (str rest : List ℕ) (len : ℕ)
    → NonZero str
    → len < str_max
    → count_chars (str ++ (0 ∷ rest)) len
      ≡ (if ltb (len + length str) str_max then done (len + length str) else panic)
unfolding count_chars
count_chars-terminated [] rest len n h =
    rw (lt→ltb (len + 0) str_max (omega arith)) (ap done (omega arith))
count_chars-terminated (char ∷ str) rest len (n, ns) h = elim (dec_lt (len + 1) str_max) [
  | yes l ↦
      simp
        (
          ne→==_false char 0 n,
          lt→ltb (len + 1) str_max l,
          count_chars-terminated str rest (len + 1) ns l,
        )
        (ap (λ k. if ltb k str_max then done k else panic) (omega arith))
  | no l ↦
      simp
        (
          ne→==_false char 0 n,
          le→ltb_false (len + 1) str_max (omega arith),
          le→ltb_false (len + suc (length str)) str_max (omega arith),
        )
        refl
]

-- `RTStrlen` is 0 for NULL, and the number of characters before the terminator for a string
-- that has one in its object; it panics if that number is `RTSTRMAX` or more.
pub str_len-terminated :
    (str rest : List ℕ)
    → NonZero str
    → (str_len none ≡ done 0)
      × (str_len (some (str ++ (0 ∷ rest)))
          ≡ (if ltb (length str) str_max then done (length str) else panic))
unfolding str_len
str_len-terminated str rest n = (
  refl,
  count_chars-terminated str rest 0 n (omega arith)
      ∙ ap (λ k. if ltb k str_max then done k else panic) {x = 0 + length str} {y = length str}
          (omega arith),
)

compare_chars-ne_zero : (str1 str2 : List ℕ) (i : ℕ) → compare_chars str1 str2 i ≢ done (pos 0)
unfolding compare_chars
compare_chars-ne_zero [] str2 i e = ground arith
compare_chars-ne_zero (a ∷ str1) [] i e = ground arith
compare_chars-ne_zero (a ∷ str1) (b ∷ str2) i e =
    ground (arith, compare_chars-ne_zero str1 str2 (i + 1))

compare_chars-same : (str : List ℕ) (i : ℕ) (result : ℤ) → compare_chars str str i ≢ done result
unfolding compare_chars
compare_chars-same [] i result e = ground arith
compare_chars-same (a ∷ str) i result e = ground (arith, compare_chars-same str (i + 1) result)

-- `RTStrcmp` on two strings never returns 0, and on a string and itself it never returns: it
-- panics or reads behind the object.
pub str_cmp-ne_zero :
    (str1 str2 : List ℕ)
    → (str_cmp (some str1) (some str2) ≢ done (pos 0))
      × ((result : ℤ) → str_cmp (some str1) (some str1) ≢ done result)
unfolding str_cmp
str_cmp-ne_zero str1 str2 =
    (compare_chars-ne_zero str1 str2 0, λ result. compare_chars-same str1 0 result)

compare_chars-prefix :
    (common str1 str2 : List ℕ) (a b i : ℕ)
    → i + length common ≤ str_max
    → char_key a < char_key b
    → (compare_chars (common ++ (a ∷ str1)) (common ++ (b ∷ str2)) i ≡ done (negsuc 0))
      × (compare_chars (common ++ (b ∷ str2)) (common ++ (a ∷ str1)) i ≡ done (pos 1))
unfolding compare_chars
compare_chars-prefix [] str1 str2 a b i h l = (ground arith, ground arith)
compare_chars-prefix (c ∷ common) str1 str2 a b i h l =
    let later = compare_chars-prefix common str1 str2 a b (i + 1) (omega arith) l in
    (ground (arith, later.0), ground (arith, later.1))

-- `RTStrcmp` orders two strings that are equal up to a place, at most `RTSTRMAX`, by the signed
-- characters that stand there, and returns -1 or 1; `RTStrncmp` returns the same for every
-- positive size up to `RTSTRMAX`, also for a size that does not reach that place.
pub str_ncmp-prefix :
    (common str1 str2 : List ℕ) (a b size : ℕ)
    → length common ≤ str_max
    → char_key a < char_key b
    → 0 < size
    → size ≤ str_max
    → (str_cmp (some (common ++ (a ∷ str1))) (some (common ++ (b ∷ str2))) ≡ done (negsuc 0))
      × (str_cmp (some (common ++ (b ∷ str2))) (some (common ++ (a ∷ str1))) ≡ done (pos 1))
      × (str_ncmp (some (common ++ (a ∷ str1))) (some (common ++ (b ∷ str2))) size
          ≡ done (negsuc 0))
      × (str_ncmp (some (common ++ (b ∷ str2))) (some (common ++ (a ∷ str1))) size ≡ done (pos 1))
unfolding str_cmp str_ncmp
str_ncmp-prefix common str1 str2 a b size h l p q =
    let (less, greater) = compare_chars-prefix common str1 str2 a b 0 (omega arith) l in
    let in_range = le→leb size str_max q in
    let some_size = lt→ltb 0 size p in
    (less, greater, simp (in_range, some_size) less, simp (in_range, some_size) greater)
