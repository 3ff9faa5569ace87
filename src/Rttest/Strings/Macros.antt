-- ===== src/Rttest/Strings/Macros.antt =====
-- The tokens of a line with a macro call, in any layout.
use rtsys.Base.{ℕ, ◌≡◌, refl, ap, ap₂, ◌∙◌, true, false, List, [], ◌∷◌, ◌++◌, map, ◌==◌}
use rtsys.Rtplf.Stdio.{is_space}
use rtsys.Rttest.GroupMap.{Text}
use rtsys.Rttest.Strings.{strip_left, keep_char, strip_right, strip, split}
use rtsys.Rttest.Strings.Words.{
  plain_char, is_clean, is_word, is_blank, is_free, both, plain-solid, Separator, opening, closing,
  comma, clean-free, blank-free, is_free-append, split-at, split-free, split-some,
  is_free-strip_right, is_free-strip_left, keep_char-solid, strip_right-append, strip_right-onto,
  strip_right-blanks, strip_left-solid, strip_left-blanks, strip_left-append,
}
use rtsys.Rttest.Strings.Tokens.{tokens-strip, tokens-strip_left}
use rtsys.Rttest.MapBuilder.{split_arguments, split_pieces, split_line}

-- A word with blanks around it.
pub record Padded : Type 0 where
  pub before : Text
  pub word : Text
  pub after : Text

abbrev pub text_of : Padded → Text
text_of p = p.before ++ (p.word ++ p.after)

pub record IsPadded (p : Padded) : Type 0 where
  pub before_blank : is_blank p.before ≡ true
  pub is_a_word : is_word p.word ≡ true
  pub after_blank : is_blank p.after ≡ true

-- The blanks around the name of a macro.
pub record Padding : Type 0 where
  pub before : Text
  pub after : Text

abbrev pub padded : Padding → Text → Padded
padded pad w = record { before = pad.before; word = w; after = pad.after }

abbrev pub IsPadding : Padding → Type 0
IsPadding pad = (is_blank pad.before ≡ true) × (is_blank pad.after ≡ true)

pub padded-IsPadded :
    (pad : Padding) (w : Text) → IsPadding pad → is_word w ≡ true → IsPadded (padded pad w)
padded-IsPadded pad w (b, a) e = record { before_blank = b; is_a_word = e; after_blank = a }

abbrev pub AllPadded : List Padded → Type 0
AllPadded [] = Unit
AllPadded (p ∷ ps) = IsPadded p × AllPadded ps

abbrev pub words_of : List Padded → List Text
words_of [] = []
words_of (p ∷ ps) = p.word ∷ words_of ps

-- Arguments as they stand in a call.
abbrev pub join : List Padded → Text
join [] = []
join (p ∷ []) = text_of p
join (p ∷ q ∷ ps) = text_of p ++ (b',' ∷ join (q ∷ ps))

strip_left-word : (w t : Text) → is_word w ≡ true → strip_left (w ++ t) ≡ w ++ t
strip_left-word [] t e = absurd (cc)
strip_left-word (c ∷ cs) t e =
    strip_left-solid c (cs ++ t) (plain-solid c ((both (plain_char c) (is_clean cs) e).0))

strip_right-word :
    (w blanks : Text) → is_word w ≡ true → is_blank blanks ≡ true → strip_right (w ++ blanks) ≡ w
unfolding strip_right
strip_right-word [] blanks e b = absurd (cc)
strip_right-word (c ∷ []) blanks e b =
    ap (keep_char c) (strip_right-blanks blanks b)
    ∙ keep_char-solid c [] (plain-solid c ((both (plain_char c) true e).0))
strip_right-word (c ∷ d ∷ cs) blanks e b =
    let (p, q) = both (plain_char c) (is_clean (d ∷ cs)) e in
    ap (keep_char c) (strip_right-word (d ∷ cs) blanks q b)
    ∙ keep_char-solid c (d ∷ cs) (plain-solid c p)

-- What is stripped of a padded word are the blanks.
strip-padded :
    (before w after : Text)
    → is_blank before ≡ true
    → is_word w ≡ true
    → is_blank after ≡ true
    → strip (before ++ (w ++ after)) ≡ w
unfolding strip
strip-padded before [] after b e a = absurd (cc)
strip-padded before (c ∷ cs) after b e a =
    ap strip_left
      (strip_right-onto before ((c ∷ cs) ++ after) c cs (strip_right-word (c ∷ cs) after e a))
    ∙ strip_left-blanks before (c ∷ cs) b
    ∙ strip_left-solid c cs (plain-solid c ((both (plain_char c) (is_clean cs) e).0))

word-free : (sep : ℕ) (w : Text) → Separator sep → is_word w ≡ true → is_free sep w ≡ true
word-free sep [] s e = absurd (cc)
word-free sep (c ∷ cs) s e = clean-free sep (c ∷ cs) s e

padded-free : (sep : ℕ) (p : Padded) → Separator sep → IsPadded p → is_free sep (text_of p) ≡ true
padded-free sep p s i =
    is_free-append sep p.before (p.word ++ p.after) (blank-free sep p.before s i.before_blank) (
      is_free-append sep p.word p.after (word-free sep p.word s i.is_a_word)
        (blank-free sep p.after s i.after_blank))

-- The words are the tokens between the commas.
split-join :
    (p : Padded) (ps : List Padded)
    → AllPadded (p ∷ ps)
    → map strip (split b',' (join (p ∷ ps))) ≡ words_of (p ∷ ps)
split-join p [] (i, a) =
    ap (map strip) (split-free b',' (text_of p) (padded-free b',' p comma i))
    ∙ ap (λ x. x ∷ [])
        (strip-padded p.before p.word p.after i.before_blank i.is_a_word i.after_blank)
split-join p (q ∷ ps) (i, a) =
    ap (map strip) (split-at b',' (text_of p) (join (q ∷ ps)) (padded-free b',' p comma i))
    ∙ ap₂ (λ x xs. x ∷ xs)
        (strip-padded p.before p.word p.after i.before_blank i.is_a_word i.after_blank)
        (split-join q ps a)

-- The parentheses of a call are the only ones.
join-free :
    (sep : ℕ) (ps : List Padded)
    → Separator sep
    → (b',' == sep) ≡ false
    → AllPadded ps
    → is_free sep (join ps) ≡ true
join-free sep [] s e a = refl
join-free sep (p ∷ []) s e a = padded-free sep p s (a.0)
join-free sep (p ∷ q ∷ ps) s e a =
    is_free-append sep (text_of p) (b',' ∷ join (q ∷ ps)) (padded-free sep p s (a.0))
      (rw (e, join-free sep (q ∷ ps) s e (a.1)))

-- A line with a macro's name and an opening parenthesis, with blanks around the name.
abbrev pub open_line : Padded → Text → Text
open_line macro rest = text_of macro ++ (b'(' ∷ rest)

pub strip-open_line :
    (macro : Padded) (rest : Text)
    → IsPadded macro
    → strip (open_line macro rest) ≡ (macro.word ++ macro.after) ++ (b'(' ∷ strip_right rest)
unfolding strip
strip-open_line macro rest i =
    let solid : is_space b'(' ≡ false = unfold is_space in refl in
    ap strip_left (strip_right-append (text_of macro) b'(' rest solid)
    ∙ strip_left-append (text_of macro) b'(' (strip_right rest) solid
    ∙ ap (λ t. t ++ (b'(' ∷ strip_right rest))
        (strip_left-blanks macro.before (macro.word ++ macro.after) i.before_blank
          ∙ strip_left-word macro.word macro.after i.is_a_word)

split-open_line :
    (macro : Padded) (rest : Text)
    → IsPadded macro
    → is_free b'(' rest ≡ true
    → split_line (open_line macro rest)
      ≡ split_arguments (macro.word ++ macro.after) (strip_right rest)
unfolding split_line split_pieces
split-open_line macro rest i f =
    simp
      (
        strip-open_line macro rest i,
        split-at b'(' (macro.word ++ macro.after) (strip_right rest) (
            is_free-append b'(' macro.word macro.after
              (word-free b'(' macro.word opening i.is_a_word)
              (blank-free b'(' macro.after opening i.after_blank)),
        split-free b'(' (strip_right rest) (is_free-strip_right b'(' rest f),
      )
      refl

split_arguments-inside :
    (first rest inside : Text) (more : List Text)
    → split b')' (strip rest) ≡ inside ∷ more
    → split_arguments first rest ≡ strip first ∷ map strip (split b',' (strip inside))
unfolding split_arguments
split_arguments-inside first rest inside more e =
    ap
      (λ (pieces : List Text). elim pieces [
        | [] ↦ []
        | inside' ∷ _ ↦ strip first ∷ map strip (split b',' (strip inside'))
      ])
      e

-- The first token of such a line is the macro.
pub open_line-tokens :
    (macro : Padded) (rest : Text)
    → IsPadded macro
    → is_free b'(' rest ≡ true
    → (tokens : List Text) × (split_line (open_line macro rest) ≡ macro.word ∷ tokens)
open_line-tokens macro rest i f =
    let (p, ps, same) = split-some b')' (strip (strip_right rest)) in
    (
      map strip (split b',' (strip p)),
      split-open_line macro rest i f
          ∙ split_arguments-inside (macro.word ++ macro.after) (strip_right rest) p ps same
          ∙ ap (λ x. x ∷ map strip (split b',' (strip p)))
              (strip-padded [] macro.word macro.after refl i.is_a_word i.after_blank),
    )

strip-arguments :
    (inside tail : Text)
    → strip (strip_right (inside ++ (b')' ∷ tail)))
      ≡ strip_left inside ++ (b')' ∷ strip_right (strip_right tail))
unfolding strip
strip-arguments inside tail =
    let solid : is_space b')' ≡ false = unfold is_space in refl in
    ap (λ t. strip_left (strip_right t)) (strip_right-append inside b')' tail solid)
    ∙ ap strip_left (strip_right-append inside b')' (strip_right tail) solid)
    ∙ strip_left-append inside b')' (strip_right (strip_right tail)) solid

-- The tokens of a call are the macro and its arguments.
pub call_line-tokens :
    (macro p : Padded) (ps : List Padded) (tail : Text)
    → IsPadded macro
    → AllPadded (p ∷ ps)
    → is_free b'(' tail ≡ true
    → split_line (open_line macro (join (p ∷ ps) ++ (b')' ∷ tail))) ≡ macro.word ∷ words_of (p ∷ ps)
call_line-tokens macro p ps tail i a f =
    let inside = join (p ∷ ps) in
    let solid : is_space b',' ≡ false = unfold is_space in refl in
    let free : is_free b'(' (inside ++ (b')' ∷ tail)) ≡ true =
      is_free-append b'(' inside (b')' ∷ tail) (join-free b'(' (p ∷ ps) opening refl a) f in
    split-open_line macro (inside ++ (b')' ∷ tail)) i free
    ∙ split_arguments-inside (macro.word ++ macro.after) (strip_right (inside ++ (b')' ∷ tail)))
        (strip_left inside) (split b')' (strip_right (strip_right tail)))
        (ap (split b')') (strip-arguments inside tail)
          ∙ split-at b')' (strip_left inside) (strip_right (strip_right tail))
              (is_free-strip_left b')' inside (join-free b')' (p ∷ ps) closing refl a)))
    ∙ ap₂ (λ x xs. x ∷ xs) (strip-padded [] macro.word macro.after refl i.is_a_word i.after_blank)
        (tokens-strip b',' solid (strip_left inside)
          ∙ tokens-strip_left b',' solid inside
          ∙ split-join p ps a)
