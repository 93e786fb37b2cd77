-- ===== src/Tests/Packages.antt =====
-- A bundle with a file, and one with a file below a directory whose name starts with a dot.
use forge_development_hub_cl.Base.{
  true, false, ◌≡◌, ◌↔◌, refl, Option, none, some, [], ◌∷◌, Text, codes,
}
use forge_development_hub_cl.Base.Sort.{sort}
use forge_development_hub_cl.Base.{List, Bool, All, has_prefix}
use forge_development_hub_cl.Hub.Paths.{clean}
use forge_development_hub_cl.Archive.{
  Header, tar_reg, made_dirs, wrote, escapes, is_inside, extract_tar,
}
use forge_development_hub_cl.Archive.Inside.{IsSafe, extract_tar-IsSafe}
use forge_development_hub_cl.Bundle.{
  Nodes, file, folder, end, entry, TarEntry, FileEntry, by_rel_path, walk_files, hash_dir,
  collect_tar_entries,
}
use forge_development_hub_cl.Bundle.Packed.{files_of, concealed, collect-walk_files}

abbrev sha : Text → Text
sha t = codes "h"

abbrev cached_notes : Nodes
cached_notes =
    entry (codes ".cache") (folder (entry (codes "n") (file false (some [])) end))
      (entry (codes "SKILL.md") (file true (some (codes "x"))) end)

abbrev skill_entry : TarEntry
skill_entry = record {
  tar_path = codes "SKILL.md";
  is_dir = false;
  executable = true;
  bytes = codes "x";
}

abbrev skill_file : FileEntry
skill_file = record {
  rel_path = codes "SKILL.md";
  mode = codes "100755";
  content_sha256 = codes "h";
}

abbrev note_file : FileEntry
note_file = record {
  rel_path = codes ".cache/n";
  mode = codes "100644";
  content_sha256 = codes "h";
}

one_digest : hash_dir sha cached_notes ≡ some (codes "h")
unfolding hash_dir
one_digest = refl

collect-walk_files_example :
    (sort by_rel_path (files_of sha (skill_entry ∷ [])) ≡ note_file ∷ skill_file ∷ [])
    ↔ (concealed cached_notes ≡ 0)
unfolding walk_files collect_tar_entries
collect-walk_files_example =
    collect-walk_files sha cached_notes (skill_entry ∷ []) (note_file ∷ skill_file ∷ []) refl refl

abbrev plain_header : Header
plain_header = record {
  name = codes "lint/./SKILL.md";
  flag = tar_reg;
  executable = false;
  content = codes "x";
}

abbrev sly_header : Header
sly_header = record {
  name = codes "lint/../../x";
  flag = tar_reg;
  executable = false;
  content = codes "x";
}

abbrev headers : List (Option Header)
headers = some plain_header ∷ some sly_header ∷ []

abbrev allowed : Text → Bool
allowed path = true

abbrev nothing : Text → Option Text
nothing path = none

sly_stops : extract_tar allowed allowed nothing (codes "/tmp/b") headers ≡ record {
  effects =
      made_dirs (codes "/tmp/b/lint") ∷ wrote (codes "/tmp/b/lint/SKILL.md") (codes "x") false ∷ [];
  stopped = some escapes;
}
unfolding extract_tar is_inside clean has_prefix
sly_stops = refl

extract_tar-IsSafe_example :
    All
      (IsSafe (codes "/tmp/b"))
      (extract_tar allowed allowed nothing (codes "/tmp/b") headers).effects
extract_tar-IsSafe_example = extract_tar-IsSafe allowed allowed nothing (codes "tmp/b") headers
