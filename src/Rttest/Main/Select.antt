-- ===== src/Rttest/Main/Select.antt =====
-- The groups that the command line of src/rtplf/x64-linux/src/rttestmain.c selects.
use rtsys.Base.{
  ℕ, suc, ◌+◌, ◌^◌, ◌<◌, ◌≡◌, refl, ap, sym, ◌∙◌, true, some, List, [], ◌∷◌, ◌++◌, length,
  get_elem?, take, drop, arith, done, length-append,
}
use mathlib.Core.List.{append_assoc}
use rtsys.Rtplf.Convert.{base_auto, base_10, string_to_u32}
use rtsys.Rtplf.Convert.Unsigned.{text}
use rtsys.Rtplf.Convert.Guess.{string_to_u32-guess}
use rtsys.Rttest.Main.{parse_argument, parse_arguments}

-- A decimal argument: the digits, the terminator, and what lies behind it.
abbrev pub argument : ℕ → List ℕ → List ℕ
argument id behind = text id base_10 ++ (0 ∷ behind)

-- The ids are positive 32-bit words.
abbrev pub AllPositive : List ℕ → Type 0
AllPositive [] = Unit
AllPositive (id ∷ ids) = (0 < id) × (id < 2 ^ 32) × AllPositive ids

abbrev pub arguments : List ℕ → List ℕ → List (List ℕ)
arguments [] behind = []
arguments (id ∷ ids) behind = argument id behind ∷ arguments ids behind

pub length-arguments : (ids behind : List ℕ) → length (arguments ids behind) ≡ length ids
length-arguments [] behind = refl
length-arguments (id ∷ ids) behind = ap suc (length-arguments ids behind)

get_elem?-append :
    {A : Type 0} (xs : List A) (y : A) (ys : List A)
    → get_elem? (xs ++ (y ∷ ys)) (length xs) ≡ some y
get_elem?-append [] y ys = refl
get_elem?-append (x ∷ xs) y ys = get_elem?-append xs y ys

set-append :
    (xs : List ℕ) (id y : ℕ) (ys : List ℕ)
    → take (length xs) (xs ++ (y ∷ ys)) ++ (id ∷ drop (suc (length xs)) (xs ++ (y ∷ ys)))
      ≡ xs ++ (id ∷ ys)
set-append [] id y ys = refl
set-append (x ∷ xs) id y ys = ap (λ zs. x ∷ zs) (set-append xs id y ys)

-- A round, where the argument behind those that are read is an id.
parse_argument-id :
    (before ys : List ℕ) (read more : List (List ℕ)) (id y : ℕ) (behind : List ℕ)
    → length read ≡ length before + 1
    → 0 < id
    → id < 2 ^ 32
    → parse_argument (read ++ (argument id behind ∷ more)) (length before) (before ++ (y ∷ ys))
      ≡ done (before ++ (id ∷ ys))
unfolding parse_argument
parse_argument-id before ys read more id y behind e p h =
    rw
      (
        ap (get_elem? (read ++ (argument id behind ∷ more))) (sym e)
            ∙ get_elem?-append read (argument id behind) more,
        parse_argument,
        get_elem?,
        get_elem?-append before y ys,
        parsed,
      )
      (ap
          (λ n.
            done (take (length before) (before ++ (y ∷ ys)) ++ (id ∷ drop n (before ++ (y ∷ ys)))))
          plus
        ∙ ap done (set-append before id y ys))
  where
    plus : length before + 1 ≡ suc (length before)
    plus = omega arith

    parsed : string_to_u32 (some (argument id behind)) base_auto (some y) ≡ done (true, some id)
    parsed = (string_to_u32-guess id behind y h).0 p

-- All arguments, from the one behind those that are read.
pub parse_arguments-ids :
    (ids before slots behind : List ℕ) (read : List (List ℕ))
    → length read ≡ length before + 1
    → length slots ≡ length ids
    → AllPositive ids
    → parse_arguments (length ids) (length before) (read ++ arguments ids behind) (before ++ slots)
      ≡ done (before ++ ids)
unfolding parse_arguments
parse_arguments-ids [] before [] behind read e l a = refl
parse_arguments-ids [] before (y ∷ slots) behind read e l a = absurd (omega (arith, l))
parse_arguments-ids (id ∷ ids) before [] behind read e l a = absurd (omega (arith, l))
parse_arguments-ids (id ∷ ids) before (y ∷ slots) behind read e l (p, h, a) =
    let longer : length (before ++ (id ∷ [])) ≡ length before + 1 =
      length-append before (id ∷ []) in
    let longer' : length (read ++ (argument id behind ∷ [])) ≡ length (before ++ (id ∷ [])) + 1 =
      length-append read (argument id behind ∷ []) ∙ ap (λ n. n + 1) (e ∙ sym longer) in
    simp (parse_argument-id before slots read (arguments ids behind) id y behind e p h) (
      ap (λ (t : ℕ × List (List ℕ) × List ℕ). parse_arguments (length ids) t.0 t.1 t.2)
        (λ i. (
          sym longer i,
          sym (append_assoc read (argument id behind ∷ []) (arguments ids behind)) i,
          sym (append_assoc before (id ∷ []) slots) i,
        ))
      ∙ parse_arguments-ids ids (before ++ (id ∷ [])) slots behind
          (read ++ (argument id behind ∷ [])) longer' (omega (arith, l)) a
      ∙ ap done (append_assoc before (id ∷ []) ids))
