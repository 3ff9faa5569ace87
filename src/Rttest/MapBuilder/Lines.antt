-- ===== src/Rttest/MapBuilder/Lines.antt =====
-- What `MapBuilder` does at the lines of a source file.
use rtsys.Base.{
  ℕ, ◌+◌, ◌≡◌, refl, sym, ap, ap₂, ◌∙◌, Bool, true, false, Option, none, some, List, [], ◌∷◌, ◌++◌,
  length, arith, if◌then◌else◌, same_int, done, ◌>>=◌, inl, inr, Bool-cases,
}
use mathlib.Core.List.{append_assoc, append-nil}
use rtsys.Rttest.GroupMap.{Text, MapCase, MapGroup, find_group, store_group}
use rtsys.Rttest.Strings.{same_text, starts_with, strip}
use rtsys.Rttest.Strings.Words.{is_free}
use rtsys.Rttest.Strings.Macros.{
  Padded, Padding, padded, IsPadding, IsPadded, padded-IsPadded, words_of, open_line,
  strip-open_line, open_line-tokens, call_line-tokens,
}
use rtsys.Rttest.MapBuilder.{
  rtt_group_start, rtt_group_end, rtt_test_start, split_line, Building, start_group, add_case,
  end_group, read_tokens, parse_lines,
}
use rtsys.Rttest.MapBuilder.Sources.{
  Item, a_case, a_line, SourceGroup, call_line, item_lines, IsPlain, no_call, no_macro, AllItems,
  IsGroup, cases_at, group_at,
}

store_group-new :
    (g : MapGroup) (known : List MapGroup)
    → find_group known g.gid ≡ none
    → store_group g known ≡ known ++ (g ∷ [])
unfolding store_group find_group
store_group-new g [] e = refl
store_group-new g (h ∷ known) e = elim (Bool-cases (same_int h.gid g.gid)) [
  | inl same ↦ absurd (
      let e' : some h ≡ none =
        sym (ap (λ (b : Bool). if b then some h else find_group known g.gid) same) ∙ e in
      cc)
  | inr other ↦
      let e' : find_group known g.gid ≡ none =
        sym (ap (λ (b : Bool). if b then some h else find_group known g.gid) other) ∙ e in
      rw (other, store_group-new g known e')
]

-- The builder in a group, of which the test cases so far are known.
abbrev pub within : MapGroup → List MapCase → List MapGroup → Building
within g cases groups = record {
  in_group = true;
  group = some (record g { cases = cases });
  groups = groups;
}

-- The builder outside the groups.
abbrev pub outside : Option MapGroup → List MapGroup → Building
outside group groups = record { in_group = false; group = group; groups = groups }

module _ (path : Text) where
  parse_lines-step :
      (n : ℕ) (line : Text) (rest tokens : List Text) (b b' : Building)
      → split_line line ≡ tokens
      → read_tokens path (n + 1) line tokens b ≡ done b'
      → parse_lines path n (line ∷ rest) b ≡ parse_lines path (n + 1) rest b'
  unfolding parse_lines
  parse_lines-step n line rest tokens b b' e f =
      ap (λ ts. read_tokens path (n + 1) line ts b >>= parse_lines path (n + 1) rest) e
      ∙ ap (λ m. m >>= parse_lines path (n + 1) rest) f

  read_tokens-other :
      (n : ℕ) (line token : Text) (tokens : List Text) (b : Building)
      → same_text token rtt_group_start ≡ false
      → same_text token rtt_test_start ≡ false
      → read_tokens path n line (token ∷ tokens) b
        ≡ (if starts_with rtt_group_end (strip line) then end_group b else done b)
  unfolding read_tokens
  read_tokens-other n line token tokens b x y = rw (x, y)

  -- A line that the script passes over changes nothing.
  pub parse_lines-plain :
      (n : ℕ) (line : Text) (rest : List Text) (b : Building)
      → IsPlain line
      → parse_lines path n (line ∷ rest) b ≡ parse_lines path (n + 1) rest b
  parse_lines-plain n line rest b (no_call e) =
      parse_lines-step n line rest [] b b e (unfold read_tokens in refl)
  parse_lines-plain n line rest b (no_macro token tokens e x y z) =
      parse_lines-step n line rest (token ∷ tokens) b b e (
        read_tokens-other (n + 1) line token tokens b x y
        ∙ ap (λ (t : Bool). if t then end_group b else done b) z)

  parse_lines-case :
      (n : ℕ) (pad : Padding) (name : Padded) (tail : Text) (rest : List Text) (g : MapGroup)
      (cases : List MapCase) (groups : List MapGroup)
      → IsPadding pad
      → IsPadded name
      → is_free b'(' tail ≡ true
      → parse_lines path n
          (call_line (padded pad rtt_test_start) (name ∷ []) tail ∷ rest)
          (within g cases groups)
        ≡ parse_lines path (n + 1) rest (
            within g
              (cases ++ (record { name = name.word; path = path; line = n + 1 } ∷ []))
              groups)
  parse_lines-case n pad name tail rest g cases groups b w f =
      parse_lines-step n (call_line (padded pad rtt_test_start) (name ∷ []) tail) rest
        (rtt_test_start ∷ name.word ∷ []) (within g cases groups)
        (within g (cases ++ (record { name = name.word; path = path; line = n + 1 } ∷ [])) groups)
        (call_line-tokens (padded pad rtt_test_start) name [] tail
          (padded-IsPadded pad rtt_test_start b (unfold rtsys.Rtplf.Stdio.is_space in refl)) (w, tt)
          f)
        (unfold read_tokens same_text add_case in refl)

  pub parse_lines-items :
      (n : ℕ) (items : List Item) (rest : List Text) (g : MapGroup) (cases : List MapCase)
      (groups : List MapGroup)
      → AllItems items
      → parse_lines path n (item_lines items ++ rest) (within g cases groups)
        ≡ parse_lines path
            (n + length items)
            rest
            (within g (cases ++ cases_at path n items) groups)
  parse_lines-items n [] rest g cases groups a =
      ap₂ (λ m cs. parse_lines path m rest (within g cs groups)) (omega arith)
        (sym (append-nil cases))
  parse_lines-items n (a_case pad name tail ∷ items) rest g cases groups (b, (w, (f, a))) =
      let case : MapCase = record { name = name.word; path = path; line = n + 1 } in
      parse_lines-case n pad name tail (item_lines items ++ rest) g cases groups b w f
      ∙ parse_lines-items (n + 1) items rest g (cases ++ (case ∷ [])) groups a
      ∙ ap₂ (λ m cs. parse_lines path m rest (within g cs groups)) (omega arith)
          (append_assoc cases (case ∷ []) (cases_at path (n + 1) items))
  parse_lines-items n (a_line line ∷ items) rest g cases groups (p, a) =
      parse_lines-plain n line (item_lines items ++ rest) (within g cases groups) p
      ∙ parse_lines-items (n + 1) items rest g cases groups a
      ∙ ap (λ m. parse_lines path m rest (within g (cases ++ cases_at path (n + 1) items) groups))
          (omega arith)

  pub parse_lines-start :
      (n : ℕ) (g : SourceGroup) (rest : List Text) (group : Option MapGroup)
      (groups : List MapGroup)
      → IsGroup g
      → find_group groups g.gid ≡ none
      → parse_lines path n
          (call_line (padded g.starts rtt_group_start) (g.name ∷ g.id_text ∷ g.more) g.tail ∷ rest)
          (outside group groups)
        ≡ parse_lines path (n + 1) rest (within (group_at path n g) [] groups)
  parse_lines-start n g rest group groups i new =
      parse_lines-step n
        (call_line (padded g.starts rtt_group_start) (g.name ∷ g.id_text ∷ g.more) g.tail) rest
        (rtt_group_start ∷ words_of (g.name ∷ g.id_text ∷ g.more)) (outside group groups)
        (within (group_at path n g) [] groups)
        (call_line-tokens (padded g.starts rtt_group_start) g.name (g.id_text ∷ g.more) g.tail
          (padded-IsPadded g.starts rtt_group_start i.starts_blank
            (unfold rtsys.Rtplf.Stdio.is_space in refl))
          i.words i.tail_free)
        (unfold read_tokens same_text in started)
    where
      started :
          start_group path (n + 1) (words_of (g.name ∷ g.id_text ∷ g.more)) (outside group groups)
          ≡ done (within (group_at path n g) [] groups)
      started = unfold start_group in simp (i.id, new) refl

  pub parse_lines-end :
      (n : ℕ) (pad : Padding) (last : Text) (rest : List Text) (g : MapGroup) (cases : List MapCase)
      (groups : List MapGroup)
      → IsPadding pad
      → is_free b'(' last ≡ true
      → find_group groups g.gid ≡ none
      → parse_lines path n
          (open_line (padded pad rtt_group_end) last ∷ rest)
          (within g cases groups)
        ≡ parse_lines path (n + 1) rest (
            outside
              (some (record g { cases = cases }))
              (groups ++ (record g { cases = cases } ∷ [])))
  parse_lines-end n pad last rest g cases groups b f new =
      let macro = padded-IsPadded pad rtt_group_end b (unfold rtsys.Rtplf.Stdio.is_space in refl) in
      let (tokens, e) = open_line-tokens (padded pad rtt_group_end) last macro f in
      parse_lines-step n (open_line (padded pad rtt_group_end) last) rest (rtt_group_end ∷ tokens)
        (within g cases groups)
        (outside (some (record g { cases = cases })) (groups ++ (record g { cases = cases } ∷ [])))
        e
        (read_tokens-other (n + 1) (open_line (padded pad rtt_group_end) last) rtt_group_end tokens
            (within g cases groups) (unfold same_text in refl) (unfold same_text in refl)
          ∙ ap
              (λ t.
                if starts_with rtt_group_end t
                then end_group (within g cases groups)
                else done (within g cases groups))
              (strip-open_line (padded pad rtt_group_end) last macro)
          ∙ unfold starts_with in ended)
    where
      ended :
          end_group (within g cases groups)
          ≡ done (
              outside
                (some (record g { cases = cases }))
                (groups ++ (record g { cases = cases } ∷ [])))
      ended =
          unfold end_group in
          ap (λ gs. done (outside (some (record g { cases = cases })) gs))
            (store_group-new (record g { cases = cases }) groups new)
