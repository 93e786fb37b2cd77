-- ===== src/Managed.antt =====
-- The ownership markers: pkg/managed/managed.go, and the name test of pkg/adapters/marker.go. The
-- files are those of one directory, by name, as far as they can be read; the YAML codec is a
-- parameter, and so is what a failed write leaves.
pub mod Migration
use forge_development_hub_cl.Base.{
  ℕ, Bool, true, false, not, ◌&&◌, ◌||◌, Option, none, some, List, [], ◌∷◌, ◌++◌, Text, codes,
  text_eq, is_empty, if◌then◌else◌, has_prefix, has_suffix, ◌==◌,
}
use forge_development_hub_cl.Base.Bytes.{trim_prefix}
use forge_development_hub_cl.Kinds.{kind_skill}

abbrev pub filename : Text
filename = codes ".fdh-managed.yaml"

abbrev pub legacy_dir_marker : Text
legacy_dir_marker = codes ".skill-version"

abbrev pub legacy_flat_prefix : Text
legacy_flat_prefix = codes ".skill-version-"

abbrev pub new_flat_suffix : Text
new_flat_suffix = codes ".fdh-managed.yaml"

pub record Marker : Type 0 where
  pub name : Text
  pub kind : Text
  pub version : Text
  pub hub_commit : Text
  pub installed_at : ℕ
  pub installed_by_fdh : Text
  pub source_path : Text
  pub content_hash : Text
  pub agent : Text

-- The fields of a legacy marker.
pub record Legacy : Type 0 where
  pub name : Text
  pub hub_version : Text
  pub hub_commit : Text
  pub installed_at : ℕ
  pub installed_by_fdh : Text
  pub content_hash : Text
  pub agent : Text

abbrev pub filename_for : Text → Bool → Text
filename_for basename is_flat = if not is_flat then filename else basename ++ new_flat_suffix

unfoldable pub is_managed_filename : Text → Bool
unfolding text_eq has_suffix
is_managed_filename name =
    if text_eq name filename
    then true
    else has_suffix name new_flat_suffix && not (text_eq name new_flat_suffix)

unfoldable pub is_legacy_filename : Text → Bool
unfolding text_eq has_prefix
is_legacy_filename name =
    if text_eq name legacy_dir_marker
    then true
    else has_prefix name legacy_flat_prefix && not (text_eq name legacy_flat_prefix)

unfoldable pub is_any_marker_filename : Text → Bool
unfolding is_managed_filename is_legacy_filename
is_any_marker_filename name = is_managed_filename name || is_legacy_filename name

-- pkg/adapters: `IsMarkerFilename`.
unfoldable pub is_marker_filename : Text → Bool
unfolding is_managed_filename is_legacy_filename has_prefix text_eq
is_marker_filename name =
    if is_managed_filename name
    then true
    else if is_legacy_filename name
    then true
    else has_prefix name legacy_flat_prefix && not (text_eq name legacy_flat_prefix)

abbrev pub legacy_source_path : Text → Text
legacy_source_path name = if is_empty name then [] else codes "skills/" ++ name

abbrev pub legacy_name : Legacy → Text → Text
unfolding trim_prefix has_prefix
legacy_name l file =
    if is_empty l.name && has_prefix file legacy_flat_prefix
    then trim_prefix file legacy_flat_prefix
    else l.name

abbrev pub from_legacy : Legacy → Text → Marker
from_legacy l name = record {
  name = name;
  kind = kind_skill;
  version = l.hub_version;
  hub_commit = l.hub_commit;
  installed_at = l.installed_at;
  installed_by_fdh = l.installed_by_fdh;
  source_path = legacy_source_path name;
  content_hash = l.content_hash;
  agent = l.agent;
}

abbrev pub Files : Type 0
Files = Text → Option Text

-- What the directory allows, and what a failed write leaves of the file.
pub record Disk : Type 0 where
  pub mkdir_ok : Bool
  pub write_ok : Bool
  pub remove_ok : Bool
  pub left : Option Text

unfoldable pub put : Files → Text → Option Text → Files
unfolding text_eq
put files name body other = if text_eq name other then body else files other

unfoldable pub target_name : Text → Text
unfolding text_eq trim_prefix
target_name legacy =
    if text_eq legacy legacy_dir_marker
    then filename
    else trim_prefix legacy legacy_flat_prefix ++ new_flat_suffix

-- The files afterwards, the name of the canonical marker (none is the empty path), the marker
-- (none is the zero one), and whether there is an error.
pub record Migrated : Type 0 where
  pub files : Files
  pub path : Option Text
  pub marker : Option Marker
  pub failed : Bool

abbrev pub is_none : Option Marker → Bool
is_none none = true
is_none (some m) = false

unfoldable pub removed : Disk → Files → Text → Files
unfolding put
removed disk files name = if disk.remove_ok then put files name none else files

module _ (marshal : Marker → Text) (unmarshal : Text → Option Marker)
    (unmarshal_legacy : Text → Option Legacy) where
  abbrev pub decoded_legacy : Text → Option Legacy → Option Marker
  unfolding legacy_name
  decoded_legacy file none = none
  decoded_legacy file (some l) = some (from_legacy l (legacy_name l file))

  unfoldable pub decode_marker : Text → Text → Option Marker
  unfolding is_managed_filename decoded_legacy
  decode_marker body file =
      if is_managed_filename file
      then unmarshal body
      else decoded_legacy file (unmarshal_legacy body)

  -- The file that is written, if there is no error.
  unfoldable pub write : Disk → ℕ → Files → Text → Text → Marker → Bool → Files × Option Text
  unfolding put
  write disk now files dir basename m is_flat =
      let dated = if m.installed_at == 0 then record m { installed_at = now } else m in
      let name = filename_for basename is_flat in
      if is_empty dir
      then (files, none)
      else if is_empty name
      then (files, none)
      else if not disk.mkdir_ok
      then (files, none)
      else if disk.write_ok
      then (put files name (some (marshal dated)), some name)
      else (put files name disk.left, none)

  abbrev pub rewrite_as : Disk → Files → Text → Text → Option Marker → Migrated
  unfolding put removed
  rewrite_as disk files legacy target none = record {
    files = files;
    path = none;
    marker = none;
    failed = true;
  }
  rewrite_as disk files legacy target (some m) =
      if not disk.write_ok
      then record { files = put files target disk.left; path = none; marker = none; failed = true }
      else record {
        files = removed disk (put files target (some (marshal m))) legacy;
        path = some target;
        marker = some m;
        failed = not disk.remove_ok;
      }

  abbrev pub from_body : Disk → Files → Text → Text → Option Text → Migrated
  unfolding decode_marker rewrite_as
  from_body disk files legacy target none = record {
    files = files;
    path = none;
    marker = none;
    failed = true;
  }
  from_body disk files legacy target (some body) =
      rewrite_as disk files legacy target (decode_marker body legacy)

  abbrev pub unless_there : Disk → Files → Text → Text → Option Text → Migrated
  unfolding decode_marker removed from_body
  unless_there disk files legacy target (some existing) =
      let m = decode_marker existing target in
      record {
        files = removed disk files legacy;
        path = some target;
        marker = m;
        failed = is_none m;
      }
  unless_there disk files legacy target none = from_body disk files legacy target (files legacy)

  unfoldable pub migrate : Disk → Files → Text → Migrated
  unfolding is_legacy_filename unless_there target_name
  migrate disk files legacy =
      let target = target_name legacy in
      if not (is_legacy_filename legacy)
      then record { files = files; path = none; marker = none; failed = true }
      else unless_there disk files legacy target (files target)
