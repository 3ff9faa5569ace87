-- ===== src/Rttest/MapBuilder/Sources.antt =====
-- C source files with test groups, and the groups that they define.
use rtsys.Base.{ℕ, ◌+◌, ◌≡◌, true, false, none, some, List, [], ◌∷◌, ◌++◌, length, ℤ}
use rtsys.Rttest.GroupMap.{Text, MapCase, MapGroup, find_group}
use rtsys.Rttest.Strings.{same_text, starts_with, strip, int_of}
use rtsys.Rttest.Strings.Words.{is_free}
use rtsys.Rttest.Strings.Macros.{
  Padded, Padding, padded, IsPadding, IsPadded, AllPadded, join, open_line,
}
use rtsys.Rttest.MapBuilder.{rtt_group_start, rtt_group_end, rtt_test_start, split_line, drop_u}

-- A line within a group: the start of a test case, as the blanks around the macro, the name with
-- the blanks around it, and what follows the parenthesis; or any line that the script passes over.
pub data Item : Type 0 where
  a_case : Padding → Padded → Text → Item
  a_line : Text → Item

-- A group: the line that starts it, as the blanks around the macro, the arguments with the blanks
-- around them, and what follows the parenthesis; the lines within it; the line that ends it, as the
-- blanks around the macro and what follows the opening parenthesis.
pub record SourceGroup : Type 0 where
  pub starts : Padding
  pub name : Padded
  pub id_text : Padded
  pub gid : ℤ
  pub more : List Padded
  pub tail : Text
  pub items : List Item
  pub ends : Padding
  pub last : Text

pub data Block : Type 0 where
  line_block : Text → Block
  group_block : SourceGroup → Block

abbrev pub call_line : Padded → List Padded → Text → Text
call_line macro arguments tail = open_line macro (join arguments ++ (b')' ∷ tail))

abbrev pub item_line : Item → Text
item_line (a_case pad name tail) = call_line (padded pad rtt_test_start) (name ∷ []) tail
item_line (a_line line) = line

abbrev pub item_lines : List Item → List Text
item_lines [] = []
item_lines (item ∷ items) = item_line item ∷ item_lines items

abbrev pub block_lines : List Block → List Text
block_lines [] = []
block_lines (line_block line ∷ blocks) = line ∷ block_lines blocks
block_lines (group_block g ∷ blocks) =
    call_line (padded g.starts rtt_group_start) (g.name ∷ g.id_text ∷ g.more) g.tail
    ∷ (item_lines g.items ++ (open_line (padded g.ends rtt_group_end) g.last ∷ block_lines blocks))

-- A line that the script passes over.
pub data IsPlain (line : Text) : Type 0 where
  no_call : split_line line ≡ [] → IsPlain line
  no_macro :
      (token : Text) (tokens : List Text)
      → split_line line ≡ token ∷ tokens
      → same_text token rtt_group_start ≡ false
      → same_text token rtt_test_start ≡ false
      → starts_with rtt_group_end (strip line) ≡ false
      → IsPlain line

abbrev pub AllItems : List Item → Type 0
AllItems [] = Unit
AllItems (a_case pad name tail ∷ items) =
    IsPadding pad × (IsPadded name × ((is_free b'(' tail ≡ true) × AllItems items))
AllItems (a_line line ∷ items) = IsPlain line × AllItems items

pub record IsGroup (g : SourceGroup) : Type 0 where
  pub starts_blank : IsPadding g.starts
  pub words : AllPadded (g.name ∷ g.id_text ∷ g.more)
  pub id : int_of (drop_u g.id_text.word) ≡ some g.gid
  pub tail_free : is_free b'(' g.tail ≡ true
  pub all_items : AllItems g.items
  pub ends_blank : IsPadding g.ends
  pub last_free : is_free b'(' g.last ≡ true

abbrev pub AllBlocks : List Block → Type 0
AllBlocks [] = Unit
AllBlocks (line_block line ∷ blocks) = IsPlain line × AllBlocks blocks
AllBlocks (group_block g ∷ blocks) = IsGroup g × AllBlocks blocks

-- The test cases of a group whose lines stand behind line `n` of the file.
abbrev pub cases_at : Text → ℕ → List Item → List MapCase
cases_at path n [] = []
cases_at path n (a_case pad name tail ∷ items) =
    record { name = name.word; path = path; line = n + 1 } ∷ cases_at path (n + 1) items
cases_at path n (a_line line ∷ items) = cases_at path (n + 1) items

abbrev pub group_at : Text → ℕ → SourceGroup → MapGroup
group_at path n g = record {
  name = g.name.word;
  gid = g.gid;
  path = path;
  line = n + 1;
  cases = cases_at path (n + 1) g.items;
}

abbrev pub groups_at : Text → ℕ → List Block → List MapGroup
groups_at path n [] = []
groups_at path n (line_block line ∷ blocks) = groups_at path (n + 1) blocks
groups_at path n (group_block g ∷ blocks) =
    group_at path n g ∷ groups_at path (n + 1 + length g.items + 1) blocks

-- The groups are new to a map one behind the other.
abbrev pub AllNew : List MapGroup → List MapGroup → Type 0
AllNew known [] = Unit
AllNew known (g ∷ gs) = (find_group known g.gid ≡ none) × AllNew (known ++ (g ∷ [])) gs

-- Source files, as their paths and blocks.
abbrev pub AllFiles : List (Text × List Block) → Type 0
AllFiles [] = Unit
AllFiles ((path, blocks) ∷ files) = AllBlocks blocks × AllFiles files

abbrev pub source_files : List (Text × List Block) → List (Text × List Text)
source_files [] = []
source_files ((path, blocks) ∷ files) = (path, block_lines blocks) ∷ source_files files

abbrev pub groups_of : List (Text × List Block) → List MapGroup
groups_of [] = []
groups_of ((path, blocks) ∷ files) = groups_at path 0 blocks ++ groups_of files
