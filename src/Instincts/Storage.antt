-- ===== src/Instincts/Storage.antt =====
-- The store of instincts: pkg/instincts/storage.go, on the entries of its directory. The order of
-- the entries is that of ReadDir; messages to the user are left out.
pub mod Atomic
use forge_development_hub_cl.Base.{
  ◌-◌, Bool, true, false, not, ◌&&◌, ◌||◌, Option, none, some, List, [], ◌∷◌, ◌++◌, Text, codes,
  text_eq, text_lt, is_empty, if◌then◌else◌, has_prefix, has_suffix, leb,
}
use forge_development_hub_cl.Base.Bytes.{trim_suffix, to_lower}
use forge_development_hub_cl.Base.Sort.{sort}
use forge_development_hub_cl.Instincts.{Instinct, is_ulid, encode, decode}

-- An entry of the directory: its name, whether it is a directory, and the bytes of a file.
pub record DirEntry : Type 0 where
  pub name : Text
  pub is_dir : Bool
  pub bytes : Text

-- The id that a file stands for.
unfoldable pub id_of : DirEntry → Option Text
unfolding is_ulid has_suffix trim_suffix
id_of e =
    if e.is_dir || has_suffix e.name (codes ".tmp") || not (has_suffix e.name (codes ".yaml"))
    then none
    else if is_ulid (trim_suffix e.name (codes ".yaml"))
    then some (trim_suffix e.name (codes ".yaml"))
    else none

abbrev with_id : Option Text → List Text → List Text
with_id none ids = ids
with_id (some id) ids = id ∷ ids

unfoldable pub ids_of : List DirEntry → List Text
unfolding id_of
ids_of [] = []
ids_of (e ∷ es) = with_id (id_of e) (ids_of es)

-- The listing removes what interrupted writes left.
unfoldable pub without_temporary : List DirEntry → List DirEntry
unfolding has_suffix
without_temporary [] = []
without_temporary (e ∷ es) =
    let rest = without_temporary es in
    if not e.is_dir && has_suffix e.name (codes ".tmp") then rest else e ∷ rest

unfoldable pub list_ids : List DirEntry → List Text × List DirEntry
unfolding ids_of without_temporary sort text_lt
list_ids es = (sort text_lt (ids_of es), without_temporary es)

abbrev upper : Text → Text
upper [] = []
upper (c ∷ cs) = (if leb b'a' c && leb c b'z' then c - 32 else c) ∷ upper cs

pub data Resolved : Type 0 where
  empty_prefix : Resolved
  no_match : Resolved
  ambiguous : List Text → Resolved
  unique : Text → Resolved

unfoldable pub with_prefix : Text → List Text → List Text
unfolding has_prefix
with_prefix p [] = []
with_prefix p (id ∷ ids) =
    let rest = with_prefix p ids in if has_prefix id p then id ∷ rest else rest

abbrev chosen : List Text → Resolved
chosen [] = no_match
chosen (id ∷ []) = unique id
chosen (id ∷ other ∷ ids) = ambiguous (id ∷ other ∷ ids)

unfoldable pub resolve_prefix : List DirEntry → Text → Resolved
unfolding list_ids with_prefix
resolve_prefix es prefix =
    let p = upper prefix in
    if is_empty p then empty_prefix else chosen (with_prefix p (list_ids es).0)

pub data BundleFormat : Type 0 where
  bundle_yaml : BundleFormat
  bundle_json : BundleFormat
  bundle_tar_gz : BundleFormat
  bundle_unknown : BundleFormat

unfoldable pub detect_bundle_format : Text → BundleFormat
unfolding to_lower has_suffix
detect_bundle_format path =
    let l = to_lower path in
    if has_suffix l (codes ".yaml") || has_suffix l (codes ".yml")
    then bundle_yaml
    else if has_suffix l (codes ".json")
    then bundle_json
    else if has_suffix l (codes ".tar.gz") || has_suffix l (codes ".tgz")
    then bundle_tar_gz
    else bundle_unknown

-- What the disk does with a write: the temporary file, what a failed write leaves of it (`none` is
-- the file as it was), and its renaming.
pub record Writes : Type 0 where
  pub tmp_ok : Bool
  pub tmp_left : Option Text
  pub rename_ok : Bool

pub data WriteResult : Type 0 where
  written : WriteResult
  tmp_failed : WriteResult
  rename_failed : WriteResult
  not_encoded : WriteResult

unfoldable pub put_file : Text → Text → List DirEntry → List DirEntry
unfolding text_eq
put_file name bytes [] = record { name = name; is_dir = false; bytes = bytes } ∷ []
put_file name bytes (e ∷ es) =
    let rest = put_file name bytes es in
    if text_eq e.name name then record e { bytes = bytes } ∷ es else e ∷ rest

unfoldable pub remove_file : Text → List DirEntry → List DirEntry
unfolding text_eq
remove_file name [] = []
remove_file name (e ∷ es) =
    let rest = remove_file name es in if text_eq e.name name then es else e ∷ rest

unfoldable pub file_at : Text → List DirEntry → Option Text
unfolding text_eq
file_at name [] = none
file_at name (e ∷ es) =
    let rest = file_at name es in if text_eq e.name name then some e.bytes else rest

abbrev pub final_name : Text → Text
final_name id = id ++ codes ".yaml"

abbrev pub tmp_name : Text → Text
tmp_name id = final_name id ++ codes ".tmp"

-- The rename, or the removal of the temporary file if that fails.
abbrev renamed : Bool → Text → Text → List DirEntry → List DirEntry × WriteResult
renamed true id bytes es = (put_file (final_name id) bytes (remove_file (tmp_name id) es), written)
renamed false id bytes es = (remove_file (tmp_name id) es, rename_failed)

abbrev pub left_behind : Text → Option Text → List DirEntry → List DirEntry
unfolding put_file
left_behind id none es = es
left_behind id (some part) es = put_file (tmp_name id) part es

-- `none` is an instinct that does not encode.
unfoldable pub write_encoded :
    Writes → List DirEntry → Text → Option Text → List DirEntry × WriteResult
unfolding put_file remove_file
write_encoded w es id none = (es, not_encoded)
write_encoded w es id (some bytes) =
    if w.tmp_ok
    then renamed w.rename_ok id bytes (put_file (tmp_name id) bytes es)
    else (left_behind id w.tmp_left es, tmp_failed)

unfoldable pub delete_instinct : List DirEntry → Text → List DirEntry
unfolding remove_file
delete_instinct es id = remove_file (final_name id) es

abbrev decoded : (Text → Option Instinct) → Option Text → Option Instinct
decoded decode_text none = none
decoded decode_text (some bytes) = decode_text bytes

abbrev with_instinct : Option Instinct → List Instinct → List Instinct
with_instinct none is_ = is_
with_instinct (some i) is_ = i ∷ is_

module _ (marshal : Instinct → Text) (unmarshal : Text → Option Instinct) where
  unfoldable pub write_atomic : Writes → List DirEntry → Instinct → List DirEntry × WriteResult
  unfolding write_encoded encode
  write_atomic w es i = write_encoded w es i.id (encode marshal unmarshal i)

  unfoldable pub read_instinct : List DirEntry → Text → Option Instinct
  unfolding file_at decode
  read_instinct es id = decoded (decode marshal unmarshal) (file_at (final_name id) es)

  unfoldable pub read_ids : List DirEntry → List Text → List Instinct
  unfolding read_instinct
  read_ids es [] = []
  read_ids es (id ∷ ids) = with_instinct (read_instinct es id) (read_ids es ids)

  -- Files that cannot be decoded are passed over.
  unfoldable pub read_all : List DirEntry → List Instinct
  unfolding read_ids list_ids
  read_all es = read_ids es (list_ids es).0
