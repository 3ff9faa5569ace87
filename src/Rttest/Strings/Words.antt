-- ===== src/Rttest/Strings/Words.antt =====
-- Calls of macros as they stand in C source: a word, and words between parentheses with commas.
use rtsys.Base.{
  ℕ, ◌+◌, ◌≡◌, ◌≢◌, refl, sym, ap, ◌∙◌, Bool, true, false, not, ◌&&◌, ◌||◌, inl, inr, List, [], ◌∷◌,
  ◌++◌, map, ◌==◌, if◌then◌else◌, Bool-cases,
}
use rtsys.Rtplf.Stdio.{is_space}
use rtsys.Rttest.GroupMap.{Text}
use rtsys.Rttest.Strings.{strip_left, keep_char, strip_right, strip, push_char, split}

-- A character that neither ends a token nor is stripped.
abbrev pub plain_char : ℕ → Bool
plain_char c = not (is_space c || (c == b'(' || (c == b')' || c == b',')))

abbrev pub is_clean : Text → Bool
is_clean [] = true
is_clean (c ∷ cs) = plain_char c && is_clean cs

abbrev pub is_word : Text → Bool
is_word [] = false
is_word (c ∷ cs) = is_clean (c ∷ cs)

-- The separator is not in the text.
abbrev pub is_free : ℕ → Text → Bool
is_free sep [] = true
is_free sep (c ∷ cs) = not (c == sep) && is_free sep cs

pub both : (a b : Bool) → a && b ≡ true → (a ≡ true) × (b ≡ true)
both true true e = (refl, refl)
both true false e = absurd (cc)
both false b e = absurd (cc)

none_of :
    (a b c d : Bool)
    → not (a || (b || (c || d))) ≡ true
    → (a ≡ false) × (b ≡ false) × (c ≡ false) × (d ≡ false)
none_of false false false false e = (refl, refl, refl, refl)
none_of false false false true e = absurd (cc)
none_of false false true d e = absurd (cc)
none_of false true c d e = absurd (cc)
none_of true b c d e = absurd (cc)

pub plain-solid : (c : ℕ) → plain_char c ≡ true → is_space c ≡ false
plain-solid c e = (none_of (is_space c) (c == b'(') (c == b')') (c == b',') e).0

-- The three separators.
pub data Separator : ℕ → Type 0 where
  opening : Separator b'('
  closing : Separator b')'
  comma : Separator b','

plain-other : (sep c : ℕ) → Separator sep → plain_char c ≡ true → (c == sep) ≡ false
plain-other _ c opening e = (none_of (is_space c) (c == b'(') (c == b')') (c == b',') e).1
plain-other _ c closing e = (none_of (is_space c) (c == b'(') (c == b')') (c == b',') e).2
plain-other _ c comma e = (none_of (is_space c) (c == b'(') (c == b')') (c == b',') e).3

pub clean-free :
    (sep : ℕ) (text : Text) → Separator sep → is_clean text ≡ true → is_free sep text ≡ true
clean-free sep [] s e = refl
clean-free sep (c ∷ cs) s e =
    let (p, q) = both (plain_char c) (is_clean cs) e in
    rw (plain-other sep c s p, clean-free sep cs s q)

module _ (sep : ℕ) where
  pub is_free-append :
      (xs ys : Text) → is_free sep xs ≡ true → is_free sep ys ≡ true → is_free sep (xs ++ ys) ≡ true
  is_free-append [] ys e f = f
  is_free-append (x ∷ xs) ys e f =
      let (p, q) = both (not (x == sep)) (is_free sep xs) e in rw (p, is_free-append xs ys q f)

  not-false : (b : Bool) → not b ≡ true → b ≡ false
  not-false true e = absurd (cc)
  not-false false e = refl

  pub split-at :
      (w rest : Text) → is_free sep w ≡ true → split sep (w ++ (sep ∷ rest)) ≡ w ∷ split sep rest
  unfolding split push_char
  split-at [] rest e = rw (rtsys.Base.==_refl sep)
  split-at (c ∷ cs) rest e =
      let (p, q) = both (not (c == sep)) (is_free sep cs) e in
      rw (not-false (c == sep) p, split-at cs rest q)

  pub split-free : (w : Text) → is_free sep w ≡ true → split sep w ≡ w ∷ []
  unfolding split push_char
  split-free [] e = refl
  split-free (c ∷ cs) e =
      let (p, q) = both (not (c == sep)) (is_free sep cs) e in
      rw (not-false (c == sep) p, split-free cs q)

  pub split-some : (text : Text) → (p : Text) × (ps : List Text) × (split sep text ≡ p ∷ ps)
  unfolding split push_char
  split-some [] = ([], [], refl)
  split-some (c ∷ cs) =
      let (p, ps, e) = split-some cs in
      elim (Bool-cases (c == sep)) [
        | inl f ↦ ([], split sep cs, rw (f))
        | inr f ↦ (c ∷ p, ps, rw (f, e))
      ]

  is_free-keep_char :
      (c : ℕ) (t : Text)
      → not (c == sep) ≡ true
      → is_free sep t ≡ true
      → is_free sep (keep_char c t) ≡ true
  unfolding keep_char
  is_free-keep_char c [] e f = elim (Bool-cases (is_space c)) [ inl s ↦ rw (s) | inr s ↦ rw (s, e) ]
  is_free-keep_char c (d ∷ ds) e f = rw (e, f)

  pub is_free-strip_right : (t : Text) → is_free sep t ≡ true → is_free sep (strip_right t) ≡ true
  unfolding strip_right
  is_free-strip_right [] e = refl
  is_free-strip_right (c ∷ cs) e =
      let (p, q) = both (not (c == sep)) (is_free sep cs) e in
      is_free-keep_char c (strip_right cs) p (is_free-strip_right cs q)

pub keep_char-solid : (c : ℕ) (t : Text) → is_space c ≡ false → keep_char c t ≡ c ∷ t
unfolding keep_char
keep_char-solid c [] e = rw e
keep_char-solid c (d ∷ ds) e = refl

keep_char-append :
    (c : ℕ) (xs : Text) (d : ℕ) (r : Text) → keep_char c (xs ++ (d ∷ r)) ≡ c ∷ (xs ++ (d ∷ r))
unfolding keep_char
keep_char-append c [] d r = refl
keep_char-append c (x ∷ xs) d r = refl

-- What stands behind a character that is not stripped is stripped alone.
pub strip_right-append :
    (xs : Text) (c : ℕ) (tail : Text)
    → is_space c ≡ false
    → strip_right (xs ++ (c ∷ tail)) ≡ xs ++ (c ∷ strip_right tail)
unfolding strip_right
strip_right-append [] c tail e = keep_char-solid c (strip_right tail) e
strip_right-append (x ∷ xs) c tail e =
    ap (keep_char x) (strip_right-append xs c tail e) ∙ keep_char-append x xs c (strip_right tail)

pub strip_left-solid : (c : ℕ) (cs : Text) → is_space c ≡ false → strip_left (c ∷ cs) ≡ c ∷ cs
unfolding strip_left
strip_left-solid c cs e = rw e

strip_left-space : (c : ℕ) (cs : Text) → is_space c ≡ true → strip_left (c ∷ cs) ≡ strip_left cs
unfolding strip_left
strip_left-space c cs e = rw e

strip_left-keep_char :
    (c : ℕ) (t : Text) → is_space c ≡ true → strip_left (keep_char c t) ≡ strip_left t
unfolding keep_char
strip_left-keep_char c [] e = rw e
strip_left-keep_char c (d ∷ ds) e = strip_left-space c (d ∷ ds) e

-- A blank in front of a text is stripped.
pub strip-blank : (c : ℕ) (t : Text) → is_space c ≡ true → strip (c ∷ t) ≡ strip t
unfolding strip strip_right
strip-blank c t e = strip_left-keep_char c (strip_right t) e

-- A text of blanks.
abbrev pub is_blank : Text → Bool
is_blank [] = true
is_blank (c ∷ cs) = is_space c && is_blank cs

pub strip_left-blanks :
    (blanks t : Text) → is_blank blanks ≡ true → strip_left (blanks ++ t) ≡ strip_left t
strip_left-blanks [] t e = refl
strip_left-blanks (c ∷ cs) t e =
    let (p, q) = both (is_space c) (is_blank cs) e in
    strip_left-space c (cs ++ t) p ∙ strip_left-blanks cs t q

pub strip_right-blanks : (blanks : Text) → is_blank blanks ≡ true → strip_right blanks ≡ []
unfolding strip_right keep_char
strip_right-blanks [] e = refl
strip_right-blanks (c ∷ cs) e =
    let (p, q) = both (is_space c) (is_blank cs) e in rw (strip_right-blanks cs q, p)

-- What stands in front of a text that is not blank stays.
pub strip_right-onto :
    (xs ys : Text) (d : ℕ) (r : Text)
    → strip_right ys ≡ d ∷ r
    → strip_right (xs ++ ys) ≡ xs ++ (d ∷ r)
unfolding strip_right
strip_right-onto [] ys d r e = e
strip_right-onto (x ∷ xs) ys d r e =
    ap (keep_char x) (strip_right-onto xs ys d r e) ∙ keep_char-append x xs d r

-- What stands in front of a character that is not stripped is stripped alone.
pub strip_left-append :
    (xs : Text) (c : ℕ) (tail : Text)
    → is_space c ≡ false
    → strip_left (xs ++ (c ∷ tail)) ≡ strip_left xs ++ (c ∷ tail)
unfolding strip_left
strip_left-append [] c tail e = strip_left-solid c tail e
strip_left-append (x ∷ xs) c tail e = elim (Bool-cases (is_space x)) [
  | inl s ↦ rw (s) (strip_left-append xs c tail e)
  | inr s ↦ rw (s)
]

pub is_free-strip_left :
    (sep : ℕ) (t : Text) → is_free sep t ≡ true → is_free sep (strip_left t) ≡ true
unfolding strip_left
is_free-strip_left sep [] e = refl
is_free-strip_left sep (c ∷ cs) e =
    let (p, q) = both (not (c == sep)) (is_free sep cs) e in
    elim (Bool-cases (is_space c)) [
      | inl s ↦ rw (s) (is_free-strip_left sep cs q)
      | inr s ↦ rw (s) e
    ]

-- Blanks are not separators.
pub blank-free :
    (sep : ℕ) (blanks : Text) → Separator sep → is_blank blanks ≡ true → is_free sep blanks ≡ true
blank-free sep [] s e = refl
blank-free sep (c ∷ cs) s e =
    let (p, q) = both (is_space c) (is_blank cs) e in rw (other s p, blank-free sep cs s q)
  where
    not_space : {sep' : ℕ} → Separator sep' → is_space sep' ≢ true
    not_space opening h = absurd (unfold is_space in cc)
    not_space closing h = absurd (unfold is_space in cc)
    not_space comma h = absurd (unfold is_space in cc)

    other : {sep' : ℕ} → Separator sep' → is_space c ≡ true → (c == sep') ≡ false
    other {sep'} s' p = elim (rtsys.Base.eq-cases c sep') [
      | inl same ↦ absurd (not_space s' (sym (ap is_space same) ∙ p))
      | inr n ↦ rtsys.Base.ne→==_false c sep' n
    ]
