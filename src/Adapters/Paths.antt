-- ===== src/Adapters/Paths.antt =====
-- The directories that an installation writes: PathSet and ExpandPath of pkg/adapters/adapters.go.
pub mod Served
use forge_development_hub_cl.Base.{
  ℕ, zero, suc, ◌-◌, Bool, true, false, ◌||◌, ◌&&◌, Option, none, some, List, [], ◌∷◌, ◌++◌, Text,
  codes, text_eq, text_lt, is_empty, if◌then◌else◌, any, map, length,
}
use forge_development_hub_cl.Base.Bytes.{has_prefix}
use forge_development_hub_cl.Base.Sort.{sort}
use forge_development_hub_cl.Hub.Paths.{clean}
use forge_development_hub_cl.Adapters.{AgentEntry, agent_by_id}

pub data Scope : Type 0 where
  scope_user : Scope
  scope_project : Scope
  scope_other : Text → Scope

pub data PathError : Type 0 where
  skill_required : PathError
  root_required : PathError
  unknown_agent : PathError
  unknown_scope : PathError
  no_home : PathError
  no_root : PathError

pub data Tried {ℓ} (A : Type ℓ) : Type ℓ where
  failed : PathError → Tried A
  done : A → Tried A

infixl 5 ◌>>=◌
abbrev pub ◌>>=◌ {ℓ κ} : {A : Type ℓ} → {B : Type κ} → Tried A → (A → Tried B) → Tried B
failed e >>= f = failed e
done a >>= f = f a

pub record ResolvedPath : Type 0 where
  pub path : Text
  pub agents : List Text

pub record PathSetOptions : Type 0 where
  pub skill_name : Text
  pub project_root : Text
  pub home_dir : Text
  pub scope : Scope
  pub agent_ids : List Text

-- `strings.ReplaceAll` for a pattern that is not empty; the first number is how many bytes of a
-- match are still to be left out.
unfoldable pub replace_all : Text → Text → ℕ → Text → Text
unfolding has_prefix
replace_all old new n [] = []
replace_all old new (suc n) (c ∷ cs) = replace_all old new n cs
replace_all old new zero (c ∷ cs) =
    if has_prefix (c ∷ cs) old
    then new ++ replace_all old new (length old - 1) cs
    else c ∷ replace_all old new 0 cs

-- `strings.TrimPrefix` of a tilde that is there.
abbrev tail : Text → Text
tail [] = []
tail (c ∷ cs) = cs

-- `filepath.Join` of two elements, of which the first is not empty.
abbrev join : Text → Text → Text
unfolding clean
join a b = clean (a ++ codes "/" ++ b)

unfoldable pub expand_path : Text → Text → Text → Text → Tried Text
unfolding replace_all has_prefix text_eq clean
expand_path p home_dir project_root skill_name =
    let expanded = replace_all (codes "<name>") skill_name 0 p in
    if has_prefix expanded (codes "~/") || text_eq expanded (codes "~")
    then (if is_empty home_dir
        then failed no_home
        else done (clean (join home_dir (tail expanded))))
    else if has_prefix expanded (codes "/")
    then done (clean expanded)
    else if is_empty project_root
    then failed no_root
    else done (clean (join project_root expanded))

abbrev pub contains_string : List Text → Text → Bool
contains_string haystack needle = any (λ h. text_eq h needle) haystack

abbrev with_agent : List Text → Text → List Text
with_agent agents id = if contains_string agents id then agents else agents ++ (id ∷ [])

-- The paths in the order in which they are found, with their agents.
unfoldable pub put_path : Text → Text → List ResolvedPath → List ResolvedPath
unfolding text_eq
put_path path id [] = record { path = path; agents = id ∷ [] } ∷ []
put_path path id (r ∷ rs) =
    let rest = put_path path id rs in
    if text_eq r.path path
    then record { path = r.path; agents = with_agent r.agents id } ∷ rs
    else r ∷ rest

abbrev pub expanded_raw : PathSetOptions → Text → Tried Text
unfolding expand_path
expanded_raw opts raw = expand_path raw opts.home_dir opts.project_root opts.skill_name

unfoldable pub put_raws :
    PathSetOptions → Text → List Text → List ResolvedPath → Tried (List ResolvedPath)
unfolding put_path expand_path
put_raws opts id [] found = done found
put_raws opts id (raw ∷ raws) found =
    expanded_raw opts raw >>= λ path. put_raws opts id raws (put_path path id found)

abbrev pub raw_paths : Scope → AgentEntry → Tried (List Text)
raw_paths scope_user a = done a.paths.user
raw_paths scope_project a = done a.paths.project
raw_paths (scope_other s) a = failed unknown_scope

abbrev pub known : Option AgentEntry → Tried AgentEntry
known none = failed unknown_agent
known (some a) = done a

unfoldable pub put_agents :
    List AgentEntry → PathSetOptions → List Text → List ResolvedPath → Tried (List ResolvedPath)
unfolding put_raws agent_by_id
put_agents m opts [] found = done found
put_agents m opts (id ∷ ids) found =
    known (agent_by_id m id)
    >>= raw_paths opts.scope
    >>= (λ raws. put_raws opts id raws found)
    >>= put_agents m opts ids

abbrev is_project : Scope → Bool
is_project scope_project = true
is_project _ = false

abbrev pub sorted_agents : ResolvedPath → ResolvedPath
sorted_agents r = record { path = r.path; agents = sort text_lt r.agents }

unfoldable pub path_set : List AgentEntry → PathSetOptions → Tried (List ResolvedPath)
unfolding put_agents
path_set m opts =
    if is_empty opts.skill_name
    then failed skill_required
    else if is_project opts.scope && is_empty opts.project_root
    then failed root_required
    else (put_agents m opts opts.agent_ids [] >>= λ found. done (map sorted_agents found))
