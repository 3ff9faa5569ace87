-- ===== src/Rttest/GroupMap.antt =====
-- The dictionary of test groups by id that src/rttest/scripts/rttest2text.py builds and reads.
use rtsys.Base.{ℕ, Option, none, some, List, [], ◌∷◌, if◌then◌else◌, ℤ, same_int}

-- A string of the script, as its characters
abbrev pub Text : Type 0
Text = List ℕ

pub record MapCase : Type 0 where
  pub name : Text
  pub path : Text
  pub line : ℕ

pub record MapGroup : Type 0 where
  pub name : Text
  pub gid : ℤ
  pub path : Text
  pub line : ℕ
  pub cases : List MapCase

-- `rttmap[gid]`, or `none` unless `gid in rttmap`
unfoldable pub find_group : List MapGroup → ℤ → Option MapGroup
find_group [] gid = none
find_group (g ∷ groups) gid = if same_int g.gid gid then some g else find_group groups gid

-- `self.groups[group['gid']] = group`
unfoldable pub store_group : MapGroup → List MapGroup → List MapGroup
store_group group [] = group ∷ []
store_group group (g ∷ groups) =
    if same_int g.gid group.gid then group ∷ groups else g ∷ store_group group groups
