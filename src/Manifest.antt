-- ===== src/Manifest.antt =====
-- The consumer's manifest `.fdh/manifest.yaml`: pkg/consumermanifest/consumermanifest.go. The YAML
-- decoder is a parameter. A nil error of `Validate` is `none`.
pub mod Expand
pub mod Valid
pub mod Wanted
pub mod Resolution
use forge_development_hub_cl.Base.{
  ℕ, Bool, true, false, not, ◌&&◌, ◌||◌, Option, none, some, List, [], ◌∷◌, ◌++◌, Text, codes,
  text_eq, is_empty, if◌then◌else◌, ◌==◌,
}
use forge_development_hub_cl.Hub.Paths.{is_kebab}
use forge_development_hub_cl.Semver.{Constraint, parse_constraint}

pub record Entry : Type 0 where
  pub name : Text
  pub version : Text

pub record Extends : Type 0 where
  pub add_skills : List Entry
  pub remove_skills : List Entry
  pub add_rules : List Entry
  pub remove_rules : List Entry
  pub add_agents : List Entry
  pub remove_agents : List Entry
  pub add_hooks : List Entry
  pub remove_hooks : List Entry

pub data Warning : Type 0 where
  profile_deprecated profile_ignored : Warning

pub record Manifest : Type 0 where
  pub schema_version : ℕ
  pub harness : Text
  pub profile : Text
  pub scope : Text
  pub skills : List Entry
  pub rules : List Entry
  pub agents : List Entry
  pub hooks : List Entry
  pub extends : Option Extends
  pub warnings : List Warning

-- The YAML decoder: whether `harness:` is a list, and the strict decoding.
pub record Decoder : Type 0 where
  pub harness_is_list : Text → Bool
  pub strict : Text → Option Manifest

pub data LoadError : Type 0 where
  not_found harness_list undecodable : LoadError

pub data Loaded : Type 0 where
  loaded : Manifest → Loaded
  not_loaded : LoadError → Loaded

-- The deprecated `profile:` becomes `harness:`.
unfoldable pub normalise_profile : Manifest → Manifest
normalise_profile m =
    if is_empty m.profile
    then m
    else if is_empty m.harness
    then record m {
      harness = m.profile;
      warnings = m.warnings ++ profile_deprecated ∷ [];
      profile = [];
    }
    else record m { warnings = m.warnings ++ profile_ignored ∷ []; profile = [] }

abbrev decoded : Option Manifest → Loaded
decoded none = not_loaded undecodable
decoded (some m) = loaded (normalise_profile m)

unfoldable pub load : Decoder → Option Text → Loaded
unfolding normalise_profile
load d none = not_loaded not_found
load d (some body) =
    if d.harness_is_list body then not_loaded harness_list else decoded (d.strict body)

pub data Block : Type 0 where
  skills_block rules_block agents_block hooks_block extends_block : Block

pub data Invalid : Type 0 where
  bad_schema bad_scope : Invalid
  missing_name not_kebab bad_version : Block → Entry → Invalid

unfoldable pub validate_entry : Block → Entry → Option Invalid
unfolding is_kebab parse_constraint
validate_entry block e =
    if is_empty e.name
    then some (missing_name block e)
    else if not (is_kebab e.name)
    then some (not_kebab block e)
    else elim (parse_constraint e.version) [ none ↦ some (bad_version block e) | some c ↦ none ]

-- The first error of a loop that returns at its first error.
unfoldable pub validate_entries : Block → List Entry → Option Invalid
unfolding validate_entry
validate_entries block [] = none
validate_entries block (e ∷ es) =
    let rest = validate_entries block es in
    elim (validate_entry block e) [ some err ↦ some err | none ↦ rest ]

infixr 20 ◌then_check◌
abbrev pub ◌then_check◌ : Option Invalid → Option Invalid → Option Invalid
none then_check b = b
(some e) then_check b = some e

abbrev pub extends_errors : Option Extends → Option Invalid
extends_errors none = none
extends_errors (some x) =
    validate_entries extends_block x.add_skills
    then_check validate_entries extends_block x.remove_skills
    then_check validate_entries extends_block x.add_rules
    then_check validate_entries extends_block x.remove_rules
    then_check validate_entries extends_block x.add_agents
    then_check validate_entries extends_block x.remove_agents
    then_check validate_entries extends_block x.add_hooks
    then_check validate_entries extends_block x.remove_hooks

abbrev pub scope_ok : Text → Bool
scope_ok s = is_empty s || text_eq s (codes "project") || text_eq s (codes "user")

unfoldable pub validate : Manifest → Option Invalid
unfolding validate_entries text_eq
validate m =
    if not (m.schema_version == 1)
    then some bad_schema
    else if not (scope_ok m.scope)
    then some bad_scope
    else (validate_entries skills_block m.skills
        then_check validate_entries rules_block m.rules
        then_check validate_entries agents_block m.agents
        then_check validate_entries hooks_block m.hooks
        then_check extends_errors m.extends)

abbrev has_items : List Entry → Bool
has_items [] = false
has_items (e ∷ es) = true

abbrev extends_add : Option Extends → Bool
extends_add none = false
extends_add (some x) =
    has_items x.add_skills
    || has_items x.add_rules
    || has_items x.add_agents
    || has_items x.add_hooks

unfoldable pub has_any_entries : Manifest → Bool
has_any_entries m =
    has_items m.skills
    || has_items m.rules
    || has_items m.agents
    || has_items m.hooks
    || not (is_empty m.harness)
    || extends_add m.extends
