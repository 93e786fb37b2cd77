-- ===== src/Bundle.antt =====
-- Bundles on disk: pkg/bundle/bundle.go (walkFiles, Validate), hash.go and the entries of
-- tarball.go. A directory is the list of its entries in the order in which WalkDir visits them; a
-- file that cannot be read has no bytes. The digest is a parameter, and the formats of the archive
-- are not modelled.
pub mod Packed
use forge_development_hub_cl.Base.{
  ℕ, ◌+◌, Bool, true, false, not, ◌&&◌, ◌||◌, Option, none, some, List, [], ◌∷◌, ◌++◌, Text, codes,
  text_eq, text_lt, is_empty, if◌then◌else◌, leb, ltb, length, has_prefix,
}
use forge_development_hub_cl.Base.Sort.{sort}
use forge_development_hub_cl.Hub.Paths.{is_kebab}

mutual
  -- What a name stands for: a file with its executable bit and its bytes, a directory, a symbolic
  -- link with the bytes behind it, or something else, such as a pipe.
  pub data Node : Type 0 where
    file : Bool → Option Text → Node
    folder : Nodes → Node
    link : Option Text → Node
    special : Bool → Option Text → Node

  pub data Nodes : Type 0 where
    end : Nodes
    entry : Text → Node → Nodes → Nodes

pub record FileEntry : Type 0 where
  pub rel_path : Text
  pub mode : Text
  pub content_sha256 : Text

-- On Unix a symbolic link has all permission bits.
abbrev pub canonical_mode : Bool → Text
canonical_mode executable = if executable then codes "100755" else codes "100644"

abbrev pub is_hidden : Text → Bool
is_hidden name = has_prefix name (codes ".")

-- The path of an entry below the root; the prefix is empty or ends with a slash.
abbrev pub inside : Text → Text → Text
inside prefix name = prefix ++ name

abbrev pub below : Text → Text → Text
below prefix name = prefix ++ (name ++ codes "/")

abbrev pub hashed :
    (Text → Text) → Text → Bool → Option Text → Option (List FileEntry) → Option (List FileEntry)
hashed sha256 rel executable none rest = none
hashed sha256 rel executable (some bytes) none = none
hashed sha256 rel executable (some bytes) (some fs) = some (
    record { rel_path = rel; mode = canonical_mode executable; content_sha256 = sha256 bytes } ∷ fs)

abbrev pub both {ℓ} : {A : Type ℓ} → Option (List A) → Option (List A) → Option (List A)
both none ys = none
both (some xs) none = none
both (some xs) (some ys) = some (xs ++ ys)

unfoldable pub walk_nodes : (Text → Text) → Text → Nodes → Option (List FileEntry)
unfolding has_prefix
walk_nodes sha256 prefix end = some []
walk_nodes sha256 prefix (entry name (folder ns) rest) =
    both (walk_nodes sha256 (below prefix name) ns) (walk_nodes sha256 prefix rest)
walk_nodes sha256 prefix (entry name (file x bytes) rest) =
    let later = walk_nodes sha256 prefix rest in
    if is_hidden name then later else hashed sha256 (inside prefix name) x bytes later
walk_nodes sha256 prefix (entry name (link bytes) rest) =
    let later = walk_nodes sha256 prefix rest in
    if is_hidden name then later else hashed sha256 (inside prefix name) true bytes later
walk_nodes sha256 prefix (entry name (special x bytes) rest) =
    let later = walk_nodes sha256 prefix rest in
    if is_hidden name then later else hashed sha256 (inside prefix name) x bytes later

abbrev pub by_rel_path : FileEntry → FileEntry → Bool
by_rel_path e f = text_lt e.rel_path f.rel_path

abbrev pub sorted_files : Option (List FileEntry) → Option (List FileEntry)
sorted_files none = none
sorted_files (some fs) = some (sort by_rel_path fs)

unfoldable pub walk_files : (Text → Text) → Nodes → Option (List FileEntry)
unfolding walk_nodes sort text_lt
walk_files sha256 ns = sorted_files (walk_nodes sha256 [] ns)

-- "<mode> <sha256> <relpath>\n" for each file.
unfoldable pub hash_lines : List FileEntry → Text
hash_lines [] = []
hash_lines (f ∷ fs) =
    f.mode
    ++ (codes " "
        ++ (f.content_sha256 ++ (codes " " ++ (f.rel_path ++ (codes "\n" ++ hash_lines fs)))))

-- `none` for a directory without files to hash.
abbrev pub digest : (Text → Text) → Option (List FileEntry) → Option Text
digest sha256 none = none
digest sha256 (some []) = none
digest sha256 (some (f ∷ fs)) = some (sha256 (hash_lines (f ∷ fs)))

unfoldable pub hash_dir : (Text → Text) → Nodes → Option Text
unfolding walk_files hash_lines
hash_dir sha256 ns = digest sha256 (walk_files sha256 ns)

pub record TarEntry : Type 0 where
  pub tar_path : Text
  pub is_dir : Bool
  pub executable : Bool
  pub bytes : Text

-- `none` is an error: an entry that is not a regular file, or a file that cannot be read.
abbrev pub packed : Text → Bool → Option Text → Option (List TarEntry) → Option (List TarEntry)
packed rel x none rest = none
packed rel x (some bytes) none = none
packed rel x (some bytes) (some es) =
    some (record { tar_path = rel; is_dir = false; executable = x; bytes = bytes } ∷ es)

abbrev pub dir_entry : Text → TarEntry
dir_entry rel = record { tar_path = rel; is_dir = true; executable = true; bytes = [] }

abbrev pub with_dir : TarEntry → Option (List TarEntry) → Option (List TarEntry)
with_dir e none = none
with_dir e (some es) = some (e ∷ es)

unfoldable pub collect_tar_entries : Text → Nodes → Option (List TarEntry)
unfolding has_prefix
collect_tar_entries prefix end = some []
collect_tar_entries prefix (entry name (folder ns) rest) =
    let later = collect_tar_entries prefix rest in
    let inner = collect_tar_entries (below prefix name) ns in
    if is_hidden name then later else with_dir (dir_entry (inside prefix name)) (both inner later)
collect_tar_entries prefix (entry name (file x bytes) rest) =
    let later = collect_tar_entries prefix rest in
    if is_hidden name then later else packed (inside prefix name) x bytes later
collect_tar_entries prefix (entry name (link bytes) rest) =
    let later = collect_tar_entries prefix rest in if is_hidden name then later else none
collect_tar_entries prefix (entry name (special x bytes) rest) =
    let later = collect_tar_entries prefix rest in if is_hidden name then later else none

abbrev pub by_tar_path : TarEntry → TarEntry → Bool
by_tar_path e f = text_lt e.tar_path f.tar_path

abbrev sorted_entries : Option (List TarEntry) → Option (List TarEntry)
sorted_entries none = none
sorted_entries (some es) = some (sort by_tar_path es)

-- The entries of the archive in their order, with the bytes that copyFileInto puts behind them.
unfoldable pub archive_entries : Nodes → Option (List TarEntry)
unfolding collect_tar_entries sort text_lt
archive_entries ns = sorted_entries (collect_tar_entries [] ns)
