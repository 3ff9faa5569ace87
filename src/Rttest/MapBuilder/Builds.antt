-- ===== src/Rttest/MapBuilder/Builds.antt =====
-- `MapBuilder` finds the groups that source files define.
use rtsys.Base.{
  ℕ, ◌+◌, ◌≡◌, sym, ap, ◌∙◌, Option, none, some, List, [], ◌∷◌, ◌++◌, length, done, ◌>>=◌,
}
use mathlib.Core.Path.{subst}
use mathlib.Core.List.{append_assoc, append-nil}
use rtsys.Rttest.GroupMap.{Text, MapGroup}
use rtsys.Rttest.Strings.Macros.{padded, open_line}
use rtsys.Rttest.MapBuilder.{rtt_group_end, parse_lines, parse_source, build_from, build}
use rtsys.Rttest.MapBuilder.Sources.{
  Block, line_block, group_block, item_lines, block_lines, AllBlocks, group_at, groups_at, AllNew,
  AllFiles, source_files, groups_of,
}
use rtsys.Rttest.MapBuilder.Lines.{
  parse_lines-plain, parse_lines-items, outside, parse_lines-start, parse_lines-end,
}

module _ (path : Text) where
  parse_lines-blocks :
      (n : ℕ) (blocks : List Block) (group : Option MapGroup) (groups : List MapGroup)
      → AllBlocks blocks
      → AllNew groups (groups_at path n blocks)
      → (last : Option MapGroup) × (parse_lines path n (block_lines blocks) (outside group groups)
          ≡ done (outside last (groups ++ groups_at path n blocks)))
  parse_lines-blocks n [] group groups a new =
      (group, unfold parse_lines in ap (λ gs. done (outside group gs)) (sym (append-nil groups)))
  parse_lines-blocks n (line_block line ∷ blocks) group groups (p, a) new =
      let (last, e) = parse_lines-blocks (n + 1) blocks group groups a new in
      (last, parse_lines-plain path n line (block_lines blocks) (outside group groups) p ∙ e)
  parse_lines-blocks n (group_block g ∷ blocks) group groups (i, a) (fresh, new) =
      let found = group_at path n g in
      let rest = open_line (padded g.ends rtt_group_end) g.last ∷ block_lines blocks in
      let (last, e) =
        parse_lines-blocks (n + 1 + length g.items + 1) blocks (some found) (groups ++ (found ∷ []))
          a new in
      (
        last,
        parse_lines-start path n g (item_lines g.items ++ rest) group groups i fresh
            ∙ parse_lines-items path (n + 1) g.items rest found [] groups i.all_items
            ∙ parse_lines-end path (n + 1 + length g.items) g.ends g.last (block_lines blocks) found
                found.cases groups i.ends_blank i.last_free fresh
            ∙ e
            ∙ ap (λ gs. done (outside last gs))
                (append_assoc groups (found ∷ [])
                  (groups_at path (n + 1 + length g.items + 1) blocks)),
      )

parse_source-blocks :
    (path : Text) (blocks : List Block) (groups : List MapGroup)
    → AllBlocks blocks
    → AllNew groups (groups_at path 0 blocks)
    → parse_source path (block_lines blocks) groups ≡ done (groups ++ groups_at path 0 blocks)
unfolding parse_source
parse_source-blocks path blocks groups a new =
    let (last, e) = parse_lines-blocks path 0 blocks none groups a new in
    ap (λ m. m >>= λ b. done b.groups) e

AllNew-append :
    (known gs hs : List MapGroup)
    → AllNew known (gs ++ hs)
    → AllNew known gs × AllNew (known ++ gs) hs
AllNew-append known [] hs a = (tt, subst (λ k. AllNew k hs) (sym (append-nil known)) a)
AllNew-append known (g ∷ gs) hs (e, a) =
    let (x, y) = AllNew-append (known ++ (g ∷ [])) gs hs a in
    ((e, x), subst (λ k. AllNew k hs) (append_assoc known (g ∷ []) gs) y)

build_from-files :
    (files : List (Text × List Block)) (groups : List MapGroup)
    → AllFiles files
    → AllNew groups (groups_of files)
    → build_from groups (source_files files) ≡ done (groups ++ groups_of files)
unfolding build_from
build_from-files [] groups a new = ap done (sym (append-nil groups))
build_from-files ((path, blocks) ∷ files) groups (a, rest) new =
    let here = groups_at path 0 blocks in
    let (x, y) = AllNew-append groups here (groups_of files) new in
    ap (λ m. m >>= λ known. build_from known (source_files files))
      (parse_source-blocks path blocks groups a x)
    ∙ build_from-files files (groups ++ here) rest y
    ∙ ap done (append_assoc groups here (groups_of files))

-- Source files in which every line either starts a group, starts a test case within a group,
-- ends a group, or is passed over, give the map of exactly these groups in their order, each
-- with its name, id, path, line and test cases, and these with their names, paths and lines. A
-- line that starts a group or a test case has the macro, an opening parenthesis, the arguments
-- with commas between them, and a closing parenthesis, with any blanks around the macro and
-- around each argument and any text without an opening parenthesis behind the call; one that
-- ends a group has the macro, with any blanks around it, and an opening parenthesis, the only
-- one. Arguments are words without blanks, parentheses and commas; a group has two of them or
-- more, a test case one; ids are integers with or without a final u, different in all the
-- files.
pub build-source_files :
    (files : List (Text × List Block))
    → AllFiles files
    → AllNew [] (groups_of files)
    → build (source_files files) ≡ done (groups_of files)
unfolding build
build-source_files files a new = build_from-files files [] a new
