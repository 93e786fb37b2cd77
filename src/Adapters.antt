-- ===== src/Adapters.antt =====
-- The manifest of the agents: pkg/adapters/adapters.go, with the test of a probe of
-- pkg/adapters/probes.go. The YAML decoder is a parameter.
pub mod Override
pub mod Paths
use forge_development_hub_cl.Base.{
  ℕ, Bool, true, false, not, ◌&&◌, ◌||◌, Option, none, some, List, [], ◌∷◌, ◌++◌, Text, codes,
  text_eq, is_empty, if◌then◌else◌, leb, ◌==◌, any,
}
use forge_development_hub_cl.Base.Bytes.{index}

pub record Probe : Type 0 where
  pub kind : Text
  pub path : Text
  pub name : Text
  pub cmd : Text

pub record ScopedPaths : Type 0 where
  pub user : List Text
  pub project : List Text

pub record AgentEntry : Type 0 where
  pub id : Text
  pub display_name : Text
  pub source_doc_url : Text
  pub verified_on : Text
  pub detect : List Probe
  pub paths : ScopedPaths

-- The type of a probe chooses the field that it requires.
unfoldable pub is_valid_probe : Probe → Bool
unfolding text_eq
is_valid_probe p =
    if text_eq p.kind (codes "dir-exists")
    then not (is_empty p.path)
    else if text_eq p.kind (codes "exec-on-path")
    then not (is_empty p.name)
    else text_eq p.kind (codes "shell-exit-zero") && not (is_empty p.cmd)

abbrev is_word_byte : ℕ → Bool
is_word_byte c = (leb b'a' c && leb c b'z') || (leb b'0' c && leb c b'9')

-- The loop over the bytes: a dash is neither the first nor the last.
unfoldable pub kebab_bytes : Bool → Text → Bool
kebab_bytes first [] = true
kebab_bytes first (c ∷ cs) =
    (is_word_byte c || (c == b'-' && not first && not (is_empty cs))) && kebab_bytes false cs

abbrev is_none {ℓ} : {A : Type ℓ} → Option A → Bool
is_none none = true
is_none (some x) = false

unfoldable pub is_kebab_case : Text → Bool
unfolding kebab_bytes index
is_kebab_case s = not (is_empty s) && kebab_bytes true s && is_none (index s (codes "--"))

pub data ManifestError : Type 0 where
  no_agents : ManifestError
  id_required : ManifestError
  id_not_kebab : ManifestError
  duplicate_id : ManifestError
  display_name_required : ManifestError
  probe_required : ManifestError
  bad_probe : ManifestError
  path_required : ManifestError

abbrev lacks {ℓ} : {A : Type ℓ} → List A → Bool
lacks [] = true
lacks (x ∷ xs) = false

unfoldable pub agent_error : List Text → AgentEntry → Option ManifestError
unfolding is_kebab_case text_eq is_valid_probe
agent_error seen a =
    if is_empty a.id
    then some id_required
    else if not (is_kebab_case a.id)
    then some id_not_kebab
    else if any (λ s. text_eq s a.id) seen
    then some duplicate_id
    else if is_empty a.display_name
    then some display_name_required
    else if lacks a.detect
    then some probe_required
    else if any (λ p. not (is_valid_probe p)) a.detect
    then some bad_probe
    else if lacks a.paths.user && lacks a.paths.project
    then some path_required
    else none

abbrev first_error : Option ManifestError → Option ManifestError → Option ManifestError
first_error none later = later
first_error (some e) later = some e

unfoldable pub validate_from : List Text → List AgentEntry → Option ManifestError
unfolding agent_error
validate_from seen [] = none
validate_from seen (a ∷ as_) = first_error (agent_error seen a) (validate_from (a.id ∷ seen) as_)

unfoldable pub validate : List AgentEntry → Option ManifestError
unfolding validate_from
validate [] = some no_agents
validate (a ∷ as_) = validate_from [] (a ∷ as_)

unfoldable pub agent_by_id : List AgentEntry → Text → Option AgentEntry
unfolding text_eq
agent_by_id [] id = none
agent_by_id (a ∷ as_) id = let rest = agent_by_id as_ id in if text_eq a.id id then some a else rest

abbrev later_or : Option AgentEntry → Option AgentEntry → Option AgentEntry
later_or none o = o
later_or (some a) o = some a

-- The map by id that the override fills: a later entry replaces an earlier one.
unfoldable pub override_by_id : List AgentEntry → Text → Option AgentEntry
unfolding text_eq
override_by_id [] id = none
override_by_id (a ∷ as_) id =
    later_or (override_by_id as_ id) (if text_eq a.id id then some a else none)

abbrev pub entry_or : Option AgentEntry → AgentEntry → AgentEntry
entry_or none a = a
entry_or (some rep) a = rep

unfoldable pub replaced : List AgentEntry → List AgentEntry → List AgentEntry
unfolding override_by_id
replaced override [] = []
replaced override (a ∷ as_) = entry_or (override_by_id override a.id) a ∷ replaced override as_

abbrev noted : Option AgentEntry → Text → List Text → List Text
noted none id used = used
noted (some rep) id used = id ∷ used

-- The ids of the base that the override replaces.
unfoldable pub used_ids : List AgentEntry → List AgentEntry → List Text
unfolding override_by_id
used_ids override [] = []
used_ids override (a ∷ as_) = noted (override_by_id override a.id) a.id (used_ids override as_)

unfoldable pub unused : List Text → List AgentEntry → List AgentEntry
unfolding text_eq
unused used [] = []
unused used (a ∷ as_) =
    let rest = unused used as_ in if any (λ s. text_eq s a.id) used then rest else a ∷ rest

unfoldable pub merge_manifests : List AgentEntry → List AgentEntry → List AgentEntry
unfolding replaced used_ids unused
merge_manifests base override = replaced override base ++ unused (used_ids override base) override
