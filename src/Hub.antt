-- ===== src/Hub.antt =====
-- The hub catalog: pkg/hubregistry/types.go, the decoding and the look-ups of load.go. A time is
-- a number. The YAML decoder is a parameter of `parse`. Kinds are texts, as in the source.
pub mod Paths
pub mod Validate
pub mod Views
pub mod Valid
pub mod Verdict
use mathlib.Core.Option
use forge_development_hub_cl.Base.{
  ℕ, Bool, true, false, not, ◌&&◌, ◌||◌, Option, none, some, List, [], ◌∷◌, ◌++◌, map, Text, codes,
  text_eq, is_empty, if◌then◌else◌, ◌==◌, find, filter,
}
use forge_development_hub_cl.Kinds.{kind_skill, kind_ok}

pub record ComponentEntry : Type 0 where
  pub name : Text
  pub kind : Text
  pub path : Text
  pub owner_team : Text
  pub description : Text
  pub is_default : Bool
  pub min_fdh_version : Text
  pub agents_supported : List Text
  pub version : Text
  pub tags : List Text

pub record SkillEntry : Type 0 where
  pub name : Text
  pub path : Text
  pub is_default : Bool
  pub agents_supported : List Text
  pub description : Text
  pub version : Text
  pub min_fdh_version : Text
  pub tags : List Text

pub record Registry : Type 0 where
  pub schema_version : ℕ
  pub hub_version : Text
  pub generated_at : ℕ
  pub components : List ComponentEntry
  pub skills : List SkillEntry
  pub local_path : Text
  pub hub_commit : Text

-- `Name == name && Kind == kind`
abbrev pub is_component : Text → Text → ComponentEntry → Bool
is_component name kind c = text_eq c.name name && text_eq c.kind kind

-- `nil` is `none`.
unfoldable pub component_by_name : Registry → Text → Text → Option ComponentEntry
unfolding text_eq
component_by_name r name kind = find (is_component name kind) r.components

unfoldable pub components_by_kind : Registry → Text → List ComponentEntry
unfolding text_eq
components_by_kind r kind = filter (λ c. text_eq c.kind kind) r.components

unfoldable pub skill_by_name : Registry → Text → Option SkillEntry
unfolding text_eq
skill_by_name r name = find (λ (s : SkillEntry). text_eq s.name name) r.skills

abbrev pub to_skill : ComponentEntry → SkillEntry
to_skill c = record {
  name = c.name;
  path = c.path;
  is_default = c.is_default;
  agents_supported = c.agents_supported;
  description = c.description;
  version = c.version;
  min_fdh_version = c.min_fdh_version;
  tags = c.tags;
}

-- The loop of `populateSkillsView`.
unfoldable pub skills_view : List ComponentEntry → List SkillEntry
unfolding text_eq
skills_view [] = []
skills_view (c ∷ cs) =
    let rest = skills_view cs in if not (text_eq c.kind kind_skill) then rest else to_skill c ∷ rest

unfoldable pub populate_skills_view : Registry → Registry
unfolding skills_view
populate_skills_view r = record r { skills = skills_view r.components }

-- A legacy entry as a component of kind skill; the owner team is not in the legacy shape.
abbrev pub from_legacy : SkillEntry → ComponentEntry
from_legacy s = record {
  name = s.name;
  kind = kind_skill;
  path = s.path;
  owner_team = [];
  description = s.description;
  is_default = s.is_default;
  min_fdh_version = s.min_fdh_version;
  agents_supported = s.agents_supported;
  version = s.version;
  tags = s.tags;
}

unfoldable pub normalise_v1 : List SkillEntry → Registry
unfolding populate_skills_view
normalise_v1 legacy = populate_skills_view (record {
  schema_version = 1;
  hub_version = [];
  generated_at = 0;
  components = map from_legacy legacy;
  skills = [];
  local_path = [];
  hub_commit = [];
})

-- What the YAML decoder makes of the bytes: the header with its schema version, and the strict
-- decodings in the two shapes. `none` is an error of the decoder.
pub record Decoder : Type 0 where
  pub header : Text → Option ℕ
  pub native : Text → Option Registry
  pub legacy : Text → Option (List SkillEntry)

pub data ParseError : Type 0 where
  bad_header bad_native bad_legacy : ParseError
  unsupported_schema : ℕ → ParseError

pub data Parsed : Type 0 where
  registry : Registry → Parsed
  failed : ParseError → Parsed

abbrev parsed_native : Option Registry → Parsed
parsed_native none = failed bad_native
parsed_native (some r) = registry (populate_skills_view r)

abbrev parsed_legacy : Option (List SkillEntry) → Parsed
parsed_legacy none = failed bad_legacy
parsed_legacy (some l) = registry (normalise_v1 l)

abbrev parse_version : Decoder → Text → Option ℕ → Parsed
parse_version d raw none = failed bad_header
parse_version d raw (some v) =
    if v == 2
    then parsed_native (d.native raw)
    else if v == 1
    then parsed_legacy (d.legacy raw)
    else failed (unsupported_schema v)

unfoldable pub parse : Decoder → Text → Parsed
unfolding populate_skills_view normalise_v1
parse d raw = parse_version d raw (d.header raw)

-- Why `FetchComponent` fails.
pub data FetchError : Type 0 where
  unknown_kind not_in_registry not_loaded sparse_failed not_present : FetchError

pub data Fetched : Type 0 where
  fetched : Text → Fetched
  fetch_failed : FetchError → Fetched

-- The sparse checkout by git and the look at the disk behind it: whether the checkout was
-- extended to a path, and the directory of the path in the clone, if it is there.
pub record Clone : Type 0 where
  pub extend : Text → Bool
  pub present : Text → Option Text

abbrev fetch_entry : Clone → Registry → Option ComponentEntry → Fetched
fetch_entry g r none = fetch_failed not_in_registry
fetch_entry g r (some entry) =
    if is_empty r.local_path
    then fetch_failed not_loaded
    else if not (g.extend entry.path)
    then fetch_failed sparse_failed
    else elim (g.present entry.path) [ none ↦ fetch_failed not_present | some abs ↦ fetched abs ]

unfoldable pub fetch_component : Clone → Registry → Text → Text → Fetched
unfolding kind_ok component_by_name
fetch_component g r name kind =
    if not (kind_ok kind)
    then fetch_failed unknown_kind
    else fetch_entry g r (component_by_name r name kind)
