-- ===== src/Rttest/Script/Tests.antt =====
-- Two source files for the groups of Rttest/Tests.
use rtsys.Base.{ℕ, ◌≡◌, refl, true, false, none, some, List, [], ◌∷◌, arith, pos, done}
use rtsys.Rttest.{run}
use rtsys.Rttest.GroupMap.{Text, MapCase, MapGroup, find_group}
use rtsys.Rttest.Strings.Words.{is_word}
use rtsys.Rttest.Strings.Macros.{Padded, Padding, IsPadded}
use rtsys.Rttest.MapBuilder.{build}
use rtsys.Rttest.MapBuilder.Sources.{
  Item, a_case, a_line, SourceGroup, Block, line_block, group_block, IsPlain, no_call, no_macro,
  AllItems, IsGroup, AllFiles, source_files, groups_of, AllNew,
}
use rtsys.Rttest.MapBuilder.Builds.{build-source_files}
use rtsys.Rttest.Parser.{fail_line, tests_fail, last_line}
use rtsys.Rttest.Logged.{log_octet, on_user_groups, failures}
use rtsys.Rttest.Strings.{
  same_text, starts_with, strip_left, keep_char, strip_right, strip, push_char, split, read_digits,
  digits_of, prefixed, literal_of, signed_of, int_of,
}
use rtsys.Rttest.MapBuilder.{split_arguments, split_pieces, split_line, drop_u}
use rtsys.Rtplf.Stdio.{is_space, digit_value}
use rtsys.Rttest.Script.{script, script-run}
use rtsys.Rttest.Tests.{groups}

abbrev plain : ℕ → Padded
plain c = record { before = []; word = c ∷ []; after = [] }

-- Blanks in front of a macro and behind it.
abbrev blanks : Padding
blanks = record { before = b' ' ∷ 9 ∷ []; after = b' ' ∷ [] }

abbrev no_blanks : Padding
no_blanks = record { before = []; after = [] }

abbrev start_case : ℕ → Item
start_case c = a_case blanks (record (plain c) { before = b' ' ∷ [] }) (10 ∷ [])

abbrev opening_line : Text
opening_line = b' ' ∷ b'{' ∷ 10 ∷ []

-- A call of another macro.
abbrev call_of_f : Text
call_of_f = b' ' ∷ b'f' ∷ b'(' ∷ b')' ∷ []

abbrev source_7 : SourceGroup
source_7 = record {
  starts = blanks;
  name = plain b'G';
  id_text = record {
    before = b' ' ∷ b' ' ∷ [];
    word = b'0' ∷ b'x' ∷ b'7' ∷ b'u' ∷ [];
    after = b' ' ∷ [];
  };
  gid = pos 7;
  more = plain b'N' ∷ plain b'N' ∷ [];
  tail = 10 ∷ [];
  items = start_case b'a' ∷ a_line opening_line ∷ start_case b'b' ∷ start_case b'c' ∷ [];
  ends = blanks;
  last = b'G' ∷ b',' ∷ 10 ∷ [];
}

abbrev source_8 : SourceGroup
source_8 = record {
  starts = no_blanks;
  name = plain b'H';
  id_text = plain b'8';
  gid = pos 8;
  more = [];
  tail = [];
  items = start_case b'd' ∷ [];
  ends = no_blanks;
  last = b')' ∷ [];
}

abbrev files : List (Text × List Block)
files =
    (b'p' ∷ [], line_block call_of_f ∷ group_block source_7 ∷ [])
    ∷ (b'q' ∷ [], group_block source_8 ∷ [])
    ∷ []

opening_line-IsPlain : IsPlain opening_line
unfolding split_line split_pieces strip strip_left strip_right keep_char is_space split push_char
opening_line-IsPlain = no_call refl

call_of_f-IsPlain : IsPlain call_of_f
unfolding split_line split_pieces split_arguments strip strip_left strip_right keep_char is_space
    split push_char same_text starts_with
call_of_f-IsPlain = no_macro (b'f' ∷ []) ([] ∷ []) refl refl refl refl

plain-IsPadded : (c : ℕ) → is_word (c ∷ []) ≡ true → IsPadded (plain c)
plain-IsPadded c e = record { before_blank = refl; is_a_word = e; after_blank = refl }

start_case-AllItems :
    (c : ℕ) (items : List Item)
    → is_word (c ∷ []) ≡ true
    → AllItems items
    → AllItems (start_case c ∷ items)
unfolding is_space
start_case-AllItems c items e a =
    ((refl, refl), (record { before_blank = refl; is_a_word = e; after_blank = refl }, (refl, a)))

source_7-IsGroup : IsGroup source_7
unfolding is_space digit_value drop_u int_of signed_of literal_of prefixed digits_of read_digits
    strip strip_left strip_right keep_char
source_7-IsGroup = record {
  starts_blank = (refl, refl);
  words = (
    plain-IsPadded b'G' refl,
    (
      record { before_blank = refl; is_a_word = refl; after_blank = refl },
      (plain-IsPadded b'N' refl, (plain-IsPadded b'N' refl, tt)),
    ),
  );
  id = refl;
  tail_free = refl;
  all_items =
      start_case-AllItems b'a' (a_line opening_line ∷ start_case b'b' ∷ start_case b'c' ∷ []) refl (
        opening_line-IsPlain,
        start_case-AllItems b'b' (start_case b'c' ∷ []) refl (start_case-AllItems b'c' [] refl tt),
      );
  ends_blank = (refl, refl);
  last_free = refl;
}

source_8-IsGroup : IsGroup source_8
unfolding is_space digit_value drop_u int_of signed_of literal_of prefixed digits_of read_digits
    strip strip_left strip_right keep_char
source_8-IsGroup = record {
  starts_blank = (refl, refl);
  words = (plain-IsPadded b'H' refl, (plain-IsPadded b'8' refl, tt));
  id = refl;
  tail_free = refl;
  all_items = start_case-AllItems b'd' [] refl tt;
  ends_blank = (refl, refl);
  last_free = refl;
}

files-AllFiles : AllFiles files
files-AllFiles = ((call_of_f-IsPlain, (source_7-IsGroup, tt)), ((source_8-IsGroup, tt), tt))

files-AllNew : AllNew [] (groups_of files)
unfolding find_group
files-AllNew = (refl, (refl, tt))

abbrev case_in : ℕ → ℕ → ℕ → MapCase
case_in name path line = record { name = name ∷ []; path = path ∷ []; line = line }

abbrev group_7 : MapGroup
group_7 = record {
  name = b'G' ∷ [];
  gid = pos 7;
  path = b'p' ∷ [];
  line = 2;
  cases = case_in b'a' b'p' 3 ∷ case_in b'b' b'p' 5 ∷ case_in b'c' b'p' 6 ∷ [];
}

abbrev group_8 : MapGroup
group_8 = record {
  name = b'H' ∷ [];
  gid = pos 8;
  path = b'q' ∷ [];
  line = 1;
  cases = case_in b'd' b'q' 2 ∷ [];
}

build-source_files_example : build (source_files files) ≡ done (group_7 ∷ group_8 ∷ [])
build-source_files_example = build-source_files files files-AllFiles files-AllNew

script-run_example :
    (file : List ℕ) × (run
        (on_user_groups groups)
        (some log_octet)
        none
        0
        (record { user = 0; octets = [] })
      ≡ done (pos 0, record { user = 22; octets = file }))
    × (script 3 false (source_files files) file
        ≡ done (
          1,
          fail_line (case_in b'b' b'p' 5) ∷ fail_line (case_in b'c' b'p' 6) ∷ tests_fail 2 4 ∷ [],
        ))
unfolding failures find_group last_line
script-run_example =
    script-run false files groups 0 files-AllFiles files-AllNew
      ((group_7, refl, refl), ((group_8, refl, refl), tt)) (omega arith)
      (
        record {
          id_word = omega arith;
          some_cases = omega arith;
          countable = omega arith;
          enters = refl;
          exits = refl;
        },
        (
          record {
            id_word = omega arith;
            some_cases = omega arith;
            countable = omega arith;
            enters = refl;
            exits = refl;
          },
          tt,
        ),
      )
