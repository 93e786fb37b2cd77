-- ===== src/Hub/Validate.antt =====
-- `Validate`: pkg/hubregistry/validate.go. The messages are left out: a finding has its rule and
-- its place. The disk under the hub's root is a parameter.
use forge_development_hub_cl.Base.{
  ℕ, ◌+◌, Bool, true, false, not, ◌&&◌, ◌||◌, Option, none, some, List, [], ◌∷◌, ◌++◌, map, Text,
  codes, text_eq, is_empty, if◌then◌else◌, ◌==◌, any, has_prefix, contains,
}
use forge_development_hub_cl.Kinds.{all_kinds, kind_ok, kind_dir}
use forge_development_hub_cl.Hub.{ComponentEntry, Registry}
use forge_development_hub_cl.Hub.Paths.{clean, is_kebab, is_semver}

pub data Rule : Type 0 where
  schema_version kind_required kind_invalid name_required name_kebab_case unique_name : Rule
  path_required kind_path_mismatch path_exists agents_supported_nonempty : Rule
  agents_supported_unknown semver no_orphans : Rule

pub data Location : Type 0 where
  catalog : Location
  component : ℕ → Location
  directory : Text → Location

pub record ValidationError : Type 0 where
  pub rule : Rule
  pub location : Location

abbrev pub valid_agents : List Text
valid_agents = codes "claude-code" ∷ codes "codex" ∷ codes "copilot" ∷ codes "opencode" ∷ []

-- The hub's root: what a path below it is (`none`: nothing there; else whether it is a directory),
-- and the entries of a directory below it, each with whether it is one.
pub record HubRoot : Type 0 where
  pub stat : Text → Option Bool
  pub read_dir : Text → Option (List (Text × Bool))

abbrev at : ℕ → Rule → List ValidationError
at i r = record { rule = r; location = component i } ∷ []

unfoldable pub kind_errors : ℕ → ComponentEntry → List ValidationError
unfolding kind_ok
kind_errors i c =
    if is_empty c.kind
    then at i Rule.kind_required
    else if not (kind_ok c.kind)
    then at i Rule.kind_invalid
    else []

-- The keys of the map `seen`.
abbrev pub seen_key : List (Text × Text) → Text → Text → Bool
seen_key seen name kind = any (λ (k : Text × Text). text_eq k.0 name && text_eq k.1 kind) seen

unfoldable pub name_errors : ℕ → List (Text × Text) → ComponentEntry → List ValidationError
unfolding is_kebab text_eq
name_errors i seen c =
    if is_empty c.name
    then at i Rule.name_required
    else ((if not (is_kebab c.name) then at i Rule.name_kebab_case else [])
        ++ (if seen_key seen c.name c.kind then at i Rule.unique_name else []))

-- `seen` behind an entry.
unfoldable pub see : List (Text × Text) → ComponentEntry → List (Text × Text)
unfolding text_eq
see seen c =
    if is_empty c.name || seen_key seen c.name c.kind then seen else (c.name, c.kind) ∷ seen

abbrev pub disk_errors : ℕ → Option HubRoot → Text → List ValidationError
disk_errors i none path = []
disk_errors i (some root) path = elim (root.stat path) [
  | none ↦ at i Rule.path_exists
  | some is_dir ↦ if not is_dir then at i Rule.path_exists else []
]

unfoldable pub path_errors : ℕ → Option HubRoot → ComponentEntry → List ValidationError
unfolding kind_ok kind_dir has_prefix
path_errors i root c =
    if is_empty c.path
    then at i Rule.path_required
    else ((if kind_ok c.kind && not (has_prefix c.path (kind_dir c.kind ++ codes "/"))
          then at i Rule.kind_path_mismatch
          else [])
        ++ disk_errors i root c.path)

abbrev pub unknown_agents : ℕ → List Text → List ValidationError
unknown_agents i [] = []
unknown_agents i (a ∷ as') =
    (if not (contains valid_agents a) then at i Rule.agents_supported_unknown else [])
    ++ unknown_agents i as'

abbrev pub no_agents : List Text → Bool
no_agents [] = true
no_agents (a ∷ as') = false

unfoldable pub agent_errors : ℕ → ComponentEntry → List ValidationError
unfolding contains
agent_errors i c =
    if no_agents c.agents_supported
    then at i Rule.agents_supported_nonempty
    else unknown_agents i c.agents_supported

unfoldable pub semver_errors : ℕ → ComponentEntry → List ValidationError
unfolding is_semver
semver_errors i c =
    if not (is_empty c.min_fdh_version) && not (is_semver c.min_fdh_version)
    then at i Rule.semver
    else []

-- The loop over the components, from index `i`.
unfoldable pub entry_errors :
    Option HubRoot → ℕ → List (Text × Text) → List ComponentEntry → List ValidationError
unfolding kind_errors name_errors path_errors agent_errors semver_errors see
entry_errors root i seen [] = []
entry_errors root i seen (c ∷ cs) =
    kind_errors i c
    ++ (name_errors i seen c
        ++ (path_errors i root c
            ++ (agent_errors i c
                ++ (semver_errors i c ++ entry_errors root (i + 1) (see seen c) cs))))

-- The clean paths of the components of a kind.
unfoldable pub registered : Text → List ComponentEntry → Text → Bool
unfolding text_eq clean
registered kind components rel =
    any (λ (c : ComponentEntry). text_eq c.kind kind && text_eq (clean c.path) rel) components

-- The directories among the entries that are not registered.
unfoldable pub orphans : Text → List ComponentEntry → Text → List (Text × Bool) → List Text
unfolding registered
orphans kind components dir [] = []
orphans kind components dir ((name, is_dir) ∷ es) =
    let rel = dir ++ (b'/' ∷ name) in
    let rest = orphans kind components dir es in
    if not is_dir || registered kind components rel then rest else rel ∷ rest

-- `findOrphansByKind`; a directory that cannot be read is passed over by the caller.
unfoldable pub find_orphans_by_kind : HubRoot → Text → List ComponentEntry → List Text
unfolding orphans kind_dir
find_orphans_by_kind root kind components =
    if is_empty (kind_dir kind) then [] else elim (root.read_dir (kind_dir kind)) [
      | none ↦ []
      | some entries ↦ orphans kind components (kind_dir kind) entries
    ]

abbrev pub orphan : Text → ValidationError
orphan o = record { rule = Rule.no_orphans; location = directory o }

unfoldable pub orphan_errors : HubRoot → List Text → List ComponentEntry → List ValidationError
unfolding find_orphans_by_kind
orphan_errors root [] components = []
orphan_errors root (kind ∷ kinds) components =
    map orphan (find_orphans_by_kind root kind components) ++ orphan_errors root kinds components

abbrev pub disk_orphans : Option HubRoot → List ComponentEntry → List ValidationError
disk_orphans none components = []
disk_orphans (some root) components = orphan_errors root all_kinds components

-- The findings; the result is `OK` where there is none. No root stands for an empty one.
unfoldable pub validate : Registry → Option HubRoot → List ValidationError
unfolding entry_errors orphan_errors
validate r root =
    (if not (r.schema_version == 1) && not (r.schema_version == 2)
      then record { rule = Rule.schema_version; location = catalog } ∷ []
      else [])
    ++ (entry_errors root 0 [] r.components ++ disk_orphans root r.components)
