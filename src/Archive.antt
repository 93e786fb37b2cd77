-- ===== src/Archive.antt =====
-- The extraction of a bundle's archive: extractTarGz of pkg/registry/git.go, on the headers that
-- the readers of gzip and tar give. What the disk refuses is a parameter.
pub mod Inside
use forge_development_hub_cl.Base.{
  Bool, true, false, not, ◌&&◌, ◌||◌, Option, none, some, List, [], ◌∷◌, ◌++◌, Text, codes,
  if◌then◌else◌, has_prefix,
}
use forge_development_hub_cl.Hub.Paths.{clean}

pub data TypeFlag : Type 0 where
  tar_dir : TypeFlag
  tar_reg : TypeFlag
  tar_other : TypeFlag

pub record Header : Type 0 where
  pub name : Text
  pub flag : TypeFlag
  pub executable : Bool
  pub content : Text

-- What is done to the disk, in order.
pub data Effect : Type 0 where
  made_dirs : Text → Effect
  wrote : Text → Text → Bool → Effect

pub data ExtractError : Type 0 where
  broken_archive : ExtractError
  escapes : ExtractError
  disk_error : ExtractError

pub record Extraction : Type 0 where
  pub effects : List Effect
  pub stopped : Option ExtractError

abbrev pub stop : ExtractError → Extraction
stop e = record { effects = []; stopped = some e }

abbrev pub with_effect : Effect → Extraction → Extraction
with_effect e x = record { effects = e ∷ x.effects; stopped = x.stopped }

-- `filepath.Join(dest, name)`, for a destination that is not empty.
abbrev pub target : Text → Text → Text
target dest name = clean (dest ++ (codes "/" ++ name))

unfoldable pub is_inside : Text → Text → Bool
is_inside dest path = has_prefix (clean path ++ codes "/") (clean dest ++ codes "/")

-- `filepath.Dir`: the path without its last element, cleaned.
abbrev pub dir : Text → Text
dir path = clean (path ++ codes "/..")

abbrev pub stopped_at : Text → Option Text → Extraction
stopped_at path none = stop disk_error
stopped_at path (some part) = with_effect (wrote path part false) (stop disk_error)

-- Whether a directory can be made, whether a file is written whole, and what is left of a file
-- that is not, unless it cannot be opened.
module _ (mkdir_ok : Text → Bool) (write_ok : Text → Bool) (left : Text → Option Text) where
  abbrev pub write_file : Text → Header → Extraction → Extraction
  write_file path h rest =
      if mkdir_ok (dir path)
      then with_effect (made_dirs (dir path)) (
          if write_ok path
          then with_effect (wrote path h.content h.executable) rest
          else stopped_at path (left path))
      else stop disk_error

  abbrev pub one_entry : TypeFlag → Text → Header → Extraction → Extraction
  one_entry tar_dir path h rest =
      if mkdir_ok path then with_effect (made_dirs path) rest else stop disk_error
  one_entry tar_reg path h rest = write_file path h rest
  one_entry tar_other path h rest = rest

  -- `none` is a header that the reader refuses.
  unfoldable pub extract_tar : Text → List (Option Header) → Extraction
  extract_tar dest [] = record { effects = []; stopped = none }
  extract_tar dest (none ∷ hs) = stop broken_archive
  extract_tar dest (some h ∷ hs) =
      let rest = extract_tar dest hs in
      if is_inside dest (target dest h.name)
      then one_entry h.flag (target dest h.name) h rest
      else stop escapes
