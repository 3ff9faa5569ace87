-- ===== src/Rttest/Strings/Tokens.antt =====
-- The pieces of a text, stripped: stripping the text first changes nothing.
use rtsys.Base.{
  ℕ, ◌≡◌, refl, sym, ap, ◌∙◌, true, false, inl, inr, List, [], ◌∷◌, map, ◌==◌, Bool-cases, ==→eq,
}
use rtsys.Rtplf.Stdio.{is_space}
use rtsys.Rttest.GroupMap.{Text}
use rtsys.Rttest.Strings.{strip_left, keep_char, strip_right, strip, push_char, split}
use rtsys.Rttest.Strings.Words.{split-some, strip-blank, keep_char-solid}

map-strip : (x : List Text) → map strip x ≡ map strip_left (map strip_right x)
unfolding strip
map-strip [] = refl
map-strip (t ∷ x) = ap (λ r. strip_left (strip_right t) ∷ r) (map-strip x)

strip-pushed :
    (c : ℕ) (ps : List Text) (p : Text) (x : List Text)
    → is_space c ≡ true
    → x ≡ p ∷ ps
    → map strip (push_char c x) ≡ map strip x
unfolding push_char
strip-pushed c ps p x s e = rw (e, strip-blank c p s)

-- A character in front of pieces whose ends are stripped.
abbrev push_kept : ℕ → List Text → List Text
push_kept c [] = keep_char c [] ∷ []
push_kept c (p ∷ ps) = keep_char c p ∷ ps

map-push_char :
    (c : ℕ) (x : List Text) → map strip_right (push_char c x) ≡ push_kept c (map strip_right x)
unfolding push_char strip_right
map-push_char c [] = refl
map-push_char c (p ∷ ps) = refl

module _ (sep : ℕ) (solid : is_space sep ≡ false) where
  split-other :
      (c : ℕ) (cs : Text) → (c == sep) ≡ false → split sep (c ∷ cs) ≡ push_char c (split sep cs)
  unfolding split
  split-other c cs e = rw e

  split-sep : (c : ℕ) (cs : Text) → (c == sep) ≡ true → split sep (c ∷ cs) ≡ [] ∷ split sep cs
  unfolding split
  split-sep c cs e = rw e

  space-other : (c : ℕ) → is_space c ≡ true → (c == sep) ≡ false
  space-other c s = elim (Bool-cases (c == sep)) [
    | inr e ↦ e
    | inl e ↦ absurd (let both = sym s ∙ ap is_space (==→eq c sep e) ∙ solid in cc)
  ]

  pub tokens-strip_left :
      (t : Text) → map strip (split sep (strip_left t)) ≡ map strip (split sep t)
  unfolding strip_left
  tokens-strip_left [] = refl
  tokens-strip_left (c ∷ cs) = elim (Bool-cases (is_space c)) [
    | inr s ↦ rw (s)
    | inl s ↦
        let (p, ps, e) = split-some sep cs in
        rw (s) (
          tokens-strip_left cs
          ∙ sym (
              ap (map strip) (split-other c cs (space-other c s))
              ∙ strip-pushed c ps p (split sep cs) s e))
  ]

  kept_nil :
      (c : ℕ)
      → (c == sep) ≡ false
      → map strip_right (split sep (keep_char c [])) ≡ push_kept c (map strip_right (split sep []))
  unfolding split push_char strip_right keep_char
  kept_nil c e = elim (Bool-cases (is_space c)) [ inl s ↦ rw (s) | inr s ↦ rw (s, e, s) ]

  tokens-strip_right :
      (t : Text) → map strip_right (split sep (strip_right t)) ≡ map strip_right (split sep t)
  unfolding strip_right
  tokens-strip_right [] = refl
  tokens-strip_right (c ∷ cs) = elim (Bool-cases (c == sep)) [
    | inl e ↦
        let solid' : is_space c ≡ false = ap is_space (==→eq c sep e) ∙ solid in
        ap (λ x. map strip_right (split sep x)) (keep_char-solid c (strip_right cs) solid')
        ∙ ap (map strip_right) (split-sep c (strip_right cs) e)
        ∙ ap (λ x. [] ∷ x) (tokens-strip_right cs)
        ∙ sym (ap (map strip_right) (split-sep c cs e))
    | inr e ↦
        kept e (strip_right cs)
        ∙ ap (push_kept c) (tokens-strip_right cs)
        ∙ sym (map-push_char c (split sep cs))
        ∙ sym (ap (map strip_right) (split-other c cs e))
  ]
    where
      pushed :
          (c == sep) ≡ false
          → (r : Text)
          → map strip_right (split sep (c ∷ r)) ≡ push_kept c (map strip_right (split sep r))
      pushed e r = ap (map strip_right) (split-other c r e) ∙ map-push_char c (split sep r)

      kept :
          (c == sep) ≡ false
          → (r : Text)
          → map strip_right (split sep (keep_char c r))
            ≡ push_kept c (map strip_right (split sep r))
      kept e (d ∷ r) = pushed e (d ∷ r)
      kept e [] = kept_nil c e

  pub tokens-strip : (t : Text) → map strip (split sep (strip t)) ≡ map strip (split sep t)
  unfolding strip
  tokens-strip t =
      tokens-strip_left (strip_right t)
      ∙ map-strip (split sep (strip_right t))
      ∙ ap (map strip_left) (tokens-strip_right t)
      ∙ sym (map-strip (split sep t))
