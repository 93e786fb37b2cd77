-- ===== src/Ledger.antt =====
-- The per-machine ledger `~/.fdh/state.json`: pkg/state/state.go. A time is a number of
-- nanoseconds, zero for the zero time; `now` is what `time.Now` returns. The JSON codec of the
-- standard library and the hash are parameters.
pub mod Buckets
pub mod Files
use forge_development_hub_cl.Base.{
  ℕ, Bool, true, false, not, ◌&&◌, ◌||◌, Option, none, some, List, [], ◌∷◌, ◌++◌, Text, codes,
  text_eq, text_lt, is_empty, if◌then◌else◌, ◌==◌,
}
use forge_development_hub_cl.Base.Sort.{sort}
use forge_development_hub_cl.Kinds.{Kind, kind_of}

pub record InstallEntry : Type 0 where
  pub name : Text
  pub version : Text
  pub installed_at : ℕ
  pub path : Text

pub record KindBuckets : Type 0 where
  pub skills : List InstallEntry
  pub rules : List InstallEntry
  pub agents : List InstallEntry
  pub hooks : List InstallEntry

pub record HubCache : Type 0 where
  pub last_pulled : ℕ
  pub commit : Text
  pub url : Text

pub record ProjectEntry : Type 0 where
  pub lock_hash : Text
  pub managed_paths : List Text
  pub last_install_at : ℕ

-- The map of projects is an association list by path.
pub record State : Type 0 where
  pub schema_version : ℕ
  pub user_scope_installs : KindBuckets
  pub hub_cache : HubCache
  pub projects : List (Text × ProjectEntry)

abbrev pub supported_schema_version : ℕ
supported_schema_version = 1

abbrev pub no_installs : KindBuckets
no_installs = record { skills = []; rules = []; agents = []; hooks = [] }

abbrev pub fresh : State
fresh = record {
  schema_version = supported_schema_version;
  user_scope_installs = no_installs;
  hub_cache = record { last_pulled = 0; commit = []; url = [] };
  projects = [];
}

unfoldable pub upsert_by_name : List InstallEntry → InstallEntry → List InstallEntry
unfolding text_eq
upsert_by_name [] e = e ∷ []
upsert_by_name (x ∷ xs) e =
    let rest = upsert_by_name xs e in if text_eq x.name e.name then e ∷ xs else x ∷ rest

unfoldable pub remove_by_name : List InstallEntry → Text → List InstallEntry
unfolding text_eq
remove_by_name [] name = []
remove_by_name (x ∷ xs) name =
    let rest = remove_by_name xs name in if text_eq x.name name then rest else x ∷ rest

abbrev pub bucket : Kind → KindBuckets → List InstallEntry
bucket Kind.skill k = k.skills
bucket Kind.rule k = k.rules
bucket Kind.agent k = k.agents
bucket Kind.hook k = k.hooks

abbrev pub set_bucket : Kind → List InstallEntry → KindBuckets → KindBuckets
set_bucket Kind.skill l k = record k { skills = l }
set_bucket Kind.rule l k = record k { rules = l }
set_bucket Kind.agent l k = record k { agents = l }
set_bucket Kind.hook l k = record k { hooks = l }

abbrev with_time : ℕ → InstallEntry → InstallEntry
with_time now e = if e.installed_at == 0 then record e { installed_at = now } else e

-- The `switch` on the kind: one bucket changes, and for no kind none does.
abbrev change_bucket :
    Option Kind → (List InstallEntry → List InstallEntry) → KindBuckets → KindBuckets
change_bucket none f k = k
change_bucket (some kind) f k = set_bucket kind (f (bucket kind k)) k

unfoldable pub set_user_scope_install : ℕ → Text → InstallEntry → State → State
unfolding kind_of upsert_by_name
set_user_scope_install now kind e s = record s {
  user_scope_installs =
      change_bucket (kind_of kind) (λ l. upsert_by_name l (with_time now e)) s.user_scope_installs;
}

unfoldable pub remove_user_scope_install : Text → Text → State → State
unfolding kind_of remove_by_name
remove_user_scope_install kind name s = record s {
  user_scope_installs =
      change_bucket (kind_of kind) (λ l. remove_by_name l name) s.user_scope_installs;
}

abbrev pub by_name : InstallEntry → InstallEntry → Bool
by_name a b = text_lt a.name b.name

unfoldable pub sort_buckets : KindBuckets → KindBuckets
unfolding sort text_lt
sort_buckets k = record {
  skills = sort by_name k.skills;
  rules = sort by_name k.rules;
  agents = sort by_name k.agents;
  hooks = sort by_name k.hooks;
}

-- `s.Projects[absPath] = entry`
unfoldable pub put_project :
    Text → ProjectEntry → List (Text × ProjectEntry) → List (Text × ProjectEntry)
unfolding text_eq
put_project p e [] = (p, e) ∷ []
put_project p e ((q, f) ∷ m) =
    let rest = put_project p e m in if text_eq q p then (p, e) ∷ m else (q, f) ∷ rest

-- `delete(s.Projects, absPath)`
unfoldable pub delete_project : Text → List (Text × ProjectEntry) → List (Text × ProjectEntry)
unfolding text_eq
delete_project p [] = []
delete_project p ((q, f) ∷ m) =
    let rest = delete_project p m in if text_eq q p then rest else (q, f) ∷ rest

abbrev project_time : ℕ → ProjectEntry → ProjectEntry
project_time now e = if e.last_install_at == 0 then record e { last_install_at = now } else e

abbrev sorted_paths : ProjectEntry → ProjectEntry
sorted_paths e = record e { managed_paths = sort text_lt e.managed_paths }

unfoldable pub upsert_project : ℕ → Text → ProjectEntry → State → State
unfolding put_project sort text_lt
upsert_project now path e s = record s {
  projects = put_project path (sorted_paths (project_time now e)) s.projects;
}

unfoldable pub remove_project : Text → State → State
unfolding delete_project
remove_project path s = record s { projects = delete_project path s.projects }

pub data Error : Type 0 where
  empty_home : Error
  undecodable : Error
  unsupported_schema : ℕ → Error

pub data Result {ℓ} (A : Type ℓ) : Type ℓ where
  ok : A → Result A
  err : Error → Result A

abbrev check_schema : State → Result State
check_schema s =
    if s.schema_version == supported_schema_version
    then ok s
    else err (unsupported_schema s.schema_version)

abbrev decoded : Option State → Result State
decoded none = err undecodable
decoded (some s) = check_schema s

abbrev pub normalised : State → State
normalised s = record s {
  schema_version = if s.schema_version == 0 then supported_schema_version else s.schema_version;
  user_scope_installs = sort_buckets s.user_scope_installs;
}

-- The JSON encoder and decoder.
module _ (encode : State → Text) (decode : Text → Option State) where
  -- The ledger file is absent or has a text; its I/O succeeds.
  unfoldable pub load : Text → Option Text → Result State
  load home none = if is_empty home then err empty_home else ok fresh
  load home (some body) = if is_empty home then err empty_home else decoded (decode body)

  -- The new text of the ledger file.
  unfoldable pub save : Text → State → Result Text
  unfolding sort_buckets
  save home s = if is_empty home then err empty_home else ok (encode (normalised s) ++ b'\n' ∷ [])
