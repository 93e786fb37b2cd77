-- ===== src/Tests/Ignore.antt =====
-- The ignore file: one foreign line, one managed path.
use forge_development_hub_cl.Base.{◌≡◌, refl, some, List, [], ◌∷◌, ◌++◌, Text, codes, All, arith}
use forge_development_hub_cl.Base.Bytes.{index, has_prefix, trim_space}
use forge_development_hub_cl.Gitignore.{
  unique_sorted, block, drop_blank_line, rewrite, split_section,
}
use forge_development_hub_cl.Gitignore.Section.{IsForeign}
use forge_development_hub_cl.Gitignore.Entries.{IsLine}
use forge_development_hub_cl.Gitignore.Rewrite.{
  SomePath, line_ended, with_entries, split_section-rewrite, rewrite_twice,
}

abbrev one_path : List Text
one_path = codes ".cursor/rules/style.mdc" ∷ []

abbrev foreign : Text
foreign = codes "node_modules/"

foreign-IsForeign : IsForeign (line_ended foreign)
unfolding index has_prefix
foreign-IsForeign = (refl, refl)

one_path-IsLine : All IsLine one_path
unfolding trim_space
one_path-IsLine = (record { trimmed = refl; given = refl; one_line = refl; no_mark = refl }, tt)

some_path : SomePath one_path
unfolding unique_sorted
some_path e = absurd (ground arith)

split_section-rewrite_example :
    (out : Text) × (rewrite (line_ended foreign) one_path ≡ some out)
    × (split_section out ≡ some (with_entries foreign one_path foreign-IsForeign one_path-IsLine))
split_section-rewrite_example =
    split_section-rewrite foreign one_path foreign-IsForeign one_path-IsLine some_path

one_line_end : drop_blank_line (line_ended foreign) ≡ line_ended foreign
unfolding drop_blank_line
one_line_end = refl

rewrite_twice_example :
    (rewrite (line_ended foreign) one_path
      ≡ some (line_ended (line_ended foreign) ++ block (unique_sorted one_path)))
    × (rewrite (line_ended (line_ended foreign) ++ block (unique_sorted one_path)) one_path
        ≡ some (line_ended foreign ++ block (unique_sorted one_path)))
    × (rewrite (line_ended foreign ++ block (unique_sorted one_path)) one_path
        ≡ some (line_ended foreign ++ block (unique_sorted one_path)))
rewrite_twice_example =
    rewrite_twice foreign one_path foreign-IsForeign one_path-IsLine some_path one_line_end
