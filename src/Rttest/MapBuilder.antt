-- ===== src/Rttest/MapBuilder.antt =====
-- `MapBuilder` of src/rttest/scripts/rttest2text.py, which finds the groups and their test cases in
-- C source files, given as their paths and lines. A `RuntimeError`, an `IndexError` and a
-- `KeyError` end the script: they are `panic` here.
pub mod Sources
pub mod Lines
pub mod Builds
use rtsys.Base.{
  ℕ, suc, ◌+◌, Bool, true, false, not, ◌||◌, Option, none, some, List, [], ◌∷◌, ◌++◌, map, ◌==◌,
  if◌then◌else◌, ℤ, Outcome, done, panic, ◌>>=◌, ◌>>◌, assert,
}
use rtsys.Rttest.GroupMap.{Text, MapCase, MapGroup, find_group, store_group}
use rtsys.Rttest.Strings.{same_text, starts_with, strip, split, int_of}

abbrev pub rtt_group_start : Text
rtt_group_start =
    b'R' ∷ b'T' ∷ b'T' ∷ b'_' ∷ b'G' ∷ b'R' ∷ b'O' ∷ b'U' ∷ b'P' ∷ b'_' ∷ b'S' ∷ b'T' ∷ b'A' ∷ b'R'
    ∷ b'T' ∷ []

abbrev pub rtt_group_end : Text
rtt_group_end =
    b'R' ∷ b'T' ∷ b'T' ∷ b'_' ∷ b'G' ∷ b'R' ∷ b'O' ∷ b'U' ∷ b'P' ∷ b'_' ∷ b'E' ∷ b'N' ∷ b'D' ∷ []

abbrev pub rtt_test_start : Text
rtt_test_start =
    b'R' ∷ b'T' ∷ b'T' ∷ b'_' ∷ b'T' ∷ b'E' ∷ b'S' ∷ b'T' ∷ b'_' ∷ b'S' ∷ b'T' ∷ b'A' ∷ b'R' ∷ b'T'
    ∷ []

-- The tokens between the parentheses, behind the first token
unfoldable pub split_arguments : Text → Text → List Text
unfolding strip split
split_arguments first rest = elim (split b')' (strip rest)) [
  | [] ↦ []
  | inside ∷ _ ↦ strip first ∷ map strip (split b',' (strip inside))
]

unfoldable pub split_pieces : List Text → List Text
unfolding split_arguments
split_pieces (first ∷ rest ∷ []) = split_arguments first rest
split_pieces _ = []

-- `splitLine`
unfoldable pub split_line : Text → List Text
unfolding strip split split_pieces
split_line line = split_pieces (split b'(' (strip line))

-- `group` is `none` for the empty dictionary.
pub record Building : Type 0 where
  pub in_group : Bool
  pub group : Option MapGroup
  pub groups : List MapGroup

-- `tmp` without a `u` at its end
unfoldable pub drop_u : Text → Text
drop_u [] = []
drop_u (c ∷ []) = if c == b'u' || c == b'U' then [] else c ∷ []
drop_u (c ∷ d ∷ cs) = c ∷ drop_u (d ∷ cs)

-- The first line of a group, with its tokens behind the macro
unfoldable pub start_group : Text → ℕ → List Text → Building → Outcome Building
unfolding drop_u int_of find_group
start_group path lineno (name ∷ id ∷ _) b = do
  assert (not b.in_group)
  gid ← elim (int_of (drop_u id)) [ none ↦ panic | some n ↦ done n ]
  elim (find_group b.groups gid) [ none ↦ done tt | some g ↦ panic ]
  let group : MapGroup = record { name = name; gid = gid; path = path; line = lineno; cases = [] }
  done (record b { in_group = true; group = some group })
start_group path lineno _ b = panic

unfoldable pub add_case : Text → ℕ → List Text → Building → Outcome Building
add_case path lineno (name ∷ _) b = do
  assert b.in_group
  group ← elim b.group [ none ↦ panic | some g ↦ done g ]
  let case : MapCase = record { name = name; path = path; line = lineno }
  done (record b { group = some (record group { cases = group.cases ++ (case ∷ []) }) })
add_case path lineno [] b = panic

unfoldable pub end_group : Building → Outcome Building
unfolding store_group
end_group b = do
  group ← elim b.group [ none ↦ panic | some g ↦ done g ]
  done (record b { in_group = false; groups = store_group group b.groups })

unfoldable pub read_tokens : Text → ℕ → Text → List Text → Building → Outcome Building
unfolding start_group add_case end_group same_text starts_with strip
read_tokens path lineno line [] b = done b
read_tokens path lineno line (token ∷ tokens) b =
    if same_text token rtt_group_start
    then start_group path lineno tokens b
    else (if same_text token rtt_test_start
        then add_case path lineno tokens b
        else (if starts_with rtt_group_end (strip line) then end_group b else done b))

-- The loop of `parse`, at the lines behind line `lineno`
unfoldable pub parse_lines : Text → ℕ → List Text → Building → Outcome Building
unfolding read_tokens split_line
parse_lines path lineno [] b = done b
parse_lines path lineno (line ∷ lines) b = do
  b' ← read_tokens path (lineno + 1) line (split_line line) b
  parse_lines path (lineno + 1) lines b'

-- `parse`: the groups that are known behind a file
unfoldable pub parse_source : Text → List Text → List MapGroup → Outcome (List MapGroup)
unfolding parse_lines
parse_source path lines groups = do
  b ← parse_lines path 0 lines (record { in_group = false; group = none; groups = groups })
  done b.groups

-- The loop of `Build`
unfoldable pub build_from : List MapGroup → List (Text × List Text) → Outcome (List MapGroup)
unfolding parse_source
build_from groups [] = done groups
build_from groups ((path, lines) ∷ files) = do
  groups' ← parse_source path lines groups
  build_from groups' files

-- `Build`
unfoldable pub build : List (Text × List Text) → Outcome (List MapGroup)
unfolding build_from
build files = build_from [] files
