-- ===== src/Hub/Valid.antt =====
-- What a catalog must be for `Validate` to have no finding.
use forge_development_hub_cl.Base.{
  ℕ, Bool, true, false, ◌≡◌, ◌≢◌, ◌↔◌, ◌⊎◌, Option, none, some, List, [], ◌∷◌, ◌++◌, Text, codes,
  text_eq_iff, is_empty, arith, any, All, contains, has_prefix,
}
use forge_development_hub_cl.Kinds.{
  kind_skill, kind_rule, kind_agent, kind_hook, all_kinds, kind_dir, kind_ok, kind_of,
}
use forge_development_hub_cl.Hub.{ComponentEntry, Registry, is_component}
use forge_development_hub_cl.Hub.Paths.{is_kebab, is_semver}
use forge_development_hub_cl.Hub.Validate.{
  HubRoot, valid_agents, kind_errors, seen_key, name_errors, path_errors, disk_errors,
  unknown_agents, agent_errors, semver_errors, registered,
}

abbrev pub IsKind : Text → Type 0
IsKind s = (s ≡ kind_skill) ⊎ ((s ≡ kind_rule) ⊎ ((s ≡ kind_agent) ⊎ (s ≡ kind_hook)))

abbrev pub OnDisk : Option HubRoot → Text → Type 0
OnDisk none path = Unit
OnDisk (some root) path = root.stat path ≡ some true

abbrev pub AgentsOk : List Text → Type 0
AgentsOk agents = (agents ≢ []) × All (λ a. contains valid_agents a ≡ true) agents

-- One entry: a kind, a kebab-case name, a path below the directory of the kind, which is a
-- directory on the disk, supported agents, and no minimal version or a proper one.
pub record EntryOk (root : Option HubRoot) (c : ComponentEntry) : Type 0 where
  pub kind : IsKind c.kind
  pub named : is_empty c.name ≡ false
  pub kebab : is_kebab c.name ≡ true
  pub placed : is_empty c.path ≡ false
  pub coherent : has_prefix c.path (kind_dir c.kind ++ codes "/") ≡ true
  pub on_disk : OnDisk root c.path
  pub agents : AgentsOk c.agents_supported
  pub version : (is_empty c.min_fdh_version ≡ true) ⊎ (is_semver c.min_fdh_version ≡ true)

-- No two components share name and kind.
abbrev pub Distinct : List ComponentEntry → Type 0
Distinct [] = Unit
Distinct (c ∷ cs) = (any (is_component c.name c.kind) cs ≡ false) × Distinct cs

-- Every directory below the directory of the kind is the path of a component of the kind.
abbrev pub DirsRegistered : Text → List ComponentEntry → Text → List (Text × Bool) → Type 0
DirsRegistered kind cs dir =
    All (λ (e : Text × Bool). e.1 ≡ true → registered kind cs (dir ++ (b'/' ∷ e.0)) ≡ true)

abbrev pub NoOrphans : HubRoot → List ComponentEntry → Text → Type 0
NoOrphans root cs kind =
    (entries : List (Text × Bool))
    → root.read_dir (kind_dir kind) ≡ some entries
    → DirsRegistered kind cs (kind_dir kind) entries

abbrev pub DiskRegistered : Option HubRoot → List ComponentEntry → Type 0
DiskRegistered none cs = Unit
DiskRegistered (some root) cs = All (NoOrphans root cs) all_kinds

pub record IsValidCatalog (root : Option HubRoot) (r : Registry) : Type 0 where
  pub schema : (r.schema_version ≡ 1) ⊎ (r.schema_version ≡ 2)
  pub entries : All (EntryOk root) r.components
  pub distinct : Distinct r.components
  pub disk : DiskRegistered root r.components

pub append-nil_iff {ℓ} : {A : Type ℓ} (xs ys : List A) → (xs ++ ys ≡ []) ↔ ((xs ≡ []) × (ys ≡ []))
append-nil_iff [] ys = ground arith
append-nil_iff (x ∷ xs) ys = ground arith

pub kind_errors-nil : (i : ℕ) (c : ComponentEntry) → (kind_errors i c ≡ []) ↔ IsKind c.kind
unfolding kind_errors kind_ok kind_of
kind_errors-nil i c = ground (
  arith,
  text_eq_iff c.kind kind_skill,
  text_eq_iff c.kind kind_rule,
  text_eq_iff c.kind kind_agent,
  text_eq_iff c.kind kind_hook,
)

pub name_errors-nil :
    (i : ℕ) (seen : List (Text × Text)) (c : ComponentEntry)
    → (name_errors i seen c ≡ []) ↔ (
        (is_empty c.name ≡ false)
        × (is_kebab c.name ≡ true)
        × (seen_key seen c.name c.kind ≡ false))
unfolding name_errors
name_errors-nil i seen c = ground arith

pub IsKind-kind_ok : (s : Text) → IsKind s → kind_ok s ≡ true
unfolding kind_ok kind_of
IsKind-kind_ok s h = ground (
  arith,
  text_eq_iff s kind_skill,
  text_eq_iff s kind_rule,
  text_eq_iff s kind_agent,
  text_eq_iff s kind_hook,
)

disk_errors-nil :
    (i : ℕ) (root : Option HubRoot) (path : Text)
    → (disk_errors i root path ≡ []) ↔ OnDisk root path
disk_errors-nil i none path = ground arith
disk_errors-nil i (some root) path = ground arith

pub path_errors-nil :
    (i : ℕ) (root : Option HubRoot) (c : ComponentEntry)
    → kind_ok c.kind ≡ true
    → (path_errors i root c ≡ []) ↔ (
        (is_empty c.path ≡ false)
        × (has_prefix c.path (kind_dir c.kind ++ codes "/") ≡ true)
        × OnDisk root c.path)
unfolding path_errors
path_errors-nil i root c k = ground (arith, disk_errors-nil i root c.path)

unknown_agents-nil :
    (i : ℕ) (agents : List Text)
    → (unknown_agents i agents ≡ []) ↔ All (λ a. contains valid_agents a ≡ true) agents
unknown_agents-nil i [] = ground arith
unknown_agents-nil i (a ∷ agents) = ground (arith, unknown_agents-nil i agents)

pub agent_errors-nil :
    (i : ℕ) (c : ComponentEntry) → (agent_errors i c ≡ []) ↔ AgentsOk c.agents_supported
unfolding agent_errors
agent_errors-nil i c = ground (arith, unknown_agents-nil i c.agents_supported)

pub semver_errors-nil :
    (i : ℕ) (c : ComponentEntry)
    → (semver_errors i c ≡ [])
      ↔ ((is_empty c.min_fdh_version ≡ true) ⊎ (is_semver c.min_fdh_version ≡ true))
unfolding semver_errors
semver_errors-nil i c = ground arith
