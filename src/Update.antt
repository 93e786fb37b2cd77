-- ===== src/Update.antt =====
-- The planner of `fdh update` and the loop that applies a plan: internal/cli/update_plan.go and
-- update_run.go. The hash of a directory, the list of its files, the clone of the hub and the
-- installers of the agents are parameters; telemetry and output are left out.
pub mod Plan
pub mod Files
pub mod Apply
use forge_development_hub_cl.Base.{
  ℕ, ◌+◌, Bool, true, false, not, ◌&&◌, ◌||◌, Option, none, some, List, [], ◌∷◌, ◌++◌, Text, codes,
  text_eq, text_lt, is_empty, contains, if◌then◌else◌,
}
use forge_development_hub_cl.Base.Sort.{sort}
use forge_development_hub_cl.Kinds.{kind_skill}
use forge_development_hub_cl.Hub.{
  ComponentEntry, Registry, component_by_name, Clone, Fetched, fetched, fetch_failed, FetchError,
  fetch_component,
}

pub record Installed : Type 0 where
  pub skill : Text
  pub agent : Text
  pub install_dir : Text
  pub marker_commit : Text
  pub marker_hash : Text

pub record FileInfo : Type 0 where
  pub rel : Text
  pub hash : Text

pub record FileDiff : Type 0 where
  pub added : List Text
  pub modified : List Text
  pub deleted : List Text

pub data Verb : Type 0 where
  refresh up_to_date drift vanished : Verb

pub record PlanAction : Type 0 where
  pub skill : Text
  pub agent : Text
  pub installed_hub_commit : Text
  pub current_hub_commit : Text
  pub verb : Verb
  pub files : FileDiff

-- `ComputeContentHash`, `listFiles` without the markers, and the clone of the hub.
pub record World : Type 0 where
  pub content_hash : Text → Option Text
  pub list_files : Text → Option (List FileInfo)
  pub clone : Clone

-- A look-up in the map that `mapBy` makes: of two files with the same path, the later one.
unfoldable pub file_hash : List FileInfo → Text → Option Text
unfolding text_eq
file_hash [] rel = none
file_hash (f ∷ fs) rel =
    let later = file_hash fs rel in
    elim later [ some h ↦ some h | none ↦ if text_eq f.rel rel then some f.hash else none ]

-- The paths of the files of which the other side has none.
unfoldable pub only_in : List FileInfo → List FileInfo → List Text
unfolding file_hash
only_in other [] = []
only_in other (f ∷ fs) =
    let rest = only_in other fs in
    elim (file_hash other f.rel) [ none ↦ f.rel ∷ rest | some h ↦ rest ]

-- The paths of the files of which the other side has another content.
unfoldable pub changed_in : List FileInfo → List FileInfo → List Text
unfolding file_hash text_eq
changed_in other [] = []
changed_in other (f ∷ fs) =
    let rest = changed_in other fs in
    elim (file_hash other f.rel) [
      | none ↦ rest
      | some h ↦ if not (text_eq h f.hash) then f.rel ∷ rest else rest
    ]

unfoldable pub diff_files : List FileInfo → List FileInfo → FileDiff
unfolding only_in changed_in sort text_lt
diff_files installed hub = record {
  added = sort text_lt (only_in installed hub);
  modified = sort text_lt (changed_in installed hub);
  deleted = sort text_lt (only_in hub installed);
}

abbrev with_files : Option (List FileInfo) → Option (List FileInfo) → Option FileDiff
with_files none i = none
with_files (some h) none = none
with_files (some h) (some i) = some (diff_files i h)

-- `computeFileDiff`; `none` is the error.
unfoldable pub compute_file_diff : World → Text → Text → Option FileDiff
unfolding diff_files
compute_file_diff w installed_dir hub_dir =
    with_files (w.list_files hub_dir) (w.list_files installed_dir)

abbrev pub no_files : FileDiff
no_files = record { added = []; modified = []; deleted = [] }

abbrev pub action : Registry → Installed → Verb → FileDiff → PlanAction
action reg inst verb files = record {
  skill = inst.skill;
  agent = inst.agent;
  installed_hub_commit = inst.marker_commit;
  current_hub_commit = reg.hub_commit;
  verb = verb;
  files = files;
}

abbrev pub refreshed : World → Registry → Installed → Fetched → Option PlanAction
refreshed w reg inst (fetch_failed e) = none
refreshed w reg inst (fetched hub_dir) = elim (compute_file_diff w inst.install_dir hub_dir) [
  | none ↦ none
  | some d ↦ some (action reg inst Verb.refresh d)
]

-- Whether the hash of the directory can be computed and is not that of the marker.
abbrev pub drifted : Option Text → Text → Bool
drifted none marker_hash = false
drifted (some h) marker_hash = not (text_eq h marker_hash)

abbrev pub at_hub_commit : Registry → Installed → Bool
at_hub_commit reg inst =
    not (is_empty inst.marker_commit) && text_eq inst.marker_commit reg.hub_commit

abbrev pub decide_entry :
    World → Registry → Bool → Installed → Option ComponentEntry → Option PlanAction
decide_entry w reg force inst none = some (action reg inst Verb.vanished no_files)
decide_entry w reg force inst (some entry) =
    if drifted (w.content_hash inst.install_dir) inst.marker_hash && not force
    then some (action reg inst Verb.drift no_files)
    else if at_hub_commit reg inst
    then some (action reg inst Verb.up_to_date no_files)
    else refreshed w reg inst (fetch_component w.clone reg inst.skill kind_skill)

-- The body of the loop behind the filters; `none` is an error, which ends the planning.
unfoldable pub decide : World → Registry → Bool → Installed → Option PlanAction
unfolding text_eq component_by_name fetch_component compute_file_diff
decide w reg force inst =
    decide_entry w reg force inst (component_by_name reg inst.skill kind_skill)

-- A filter with no name lets everything pass.
abbrev pub passes : List Text → Text → Bool
passes [] s = true
passes (f ∷ fs) s = contains (f ∷ fs) s

abbrev pub selected : List Text → List Text → Installed → Bool
selected skills agents inst = passes skills inst.skill && passes agents inst.agent

abbrev pub also : Option PlanAction → Option (List PlanAction) → Option (List PlanAction)
also none rest = none
also (some a) none = none
also (some a) (some plan) = some (a ∷ plan)

unfoldable pub decide_all :
    World → Registry → List Text → List Text → Bool → List Installed → Option (List PlanAction)
unfolding decide contains
decide_all w reg skills agents force [] = some []
decide_all w reg skills agents force (inst ∷ rest) =
    let later = decide_all w reg skills agents force rest in
    if not (selected skills agents inst) then later else also (decide w reg force inst) later

abbrev pub by_skill_agent : PlanAction → PlanAction → Bool
by_skill_agent a b =
    if not (text_eq a.skill b.skill) then text_lt a.skill b.skill else text_lt a.agent b.agent

abbrev sorted : Option (List PlanAction) → Option (List PlanAction)
sorted none = none
sorted (some plan) = some (sort by_skill_agent plan)

unfoldable pub plan_updates :
    World → Registry → List Text → List Text → Bool → List Installed → Option (List PlanAction)
unfolding decide_all sort text_eq text_lt
plan_updates w reg skills agents force installed =
    sorted (decide_all w reg skills agents force installed)
