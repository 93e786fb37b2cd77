-- ===== src/Gitops/Import.antt =====
-- The import and the edit of a harness: internal/portalapi/gitops/compose_import.go, validate.go
-- and compose_harness.go. The loader, the validator, the lint and the scanner of a bundle are
-- parameters, and so is the listing of its files, in the order of the walk; a file that cannot be
-- read has no text.
use forge_development_hub_cl.Base.{
  Bool, true, false, not, ◌&&◌, Option, none, some, List, [], ◌∷◌, ◌++◌, Text, codes, text_eq,
  text_lt, if◌then◌else◌, any, has_prefix,
}
use forge_development_hub_cl.Base.Bytes.{split}
use forge_development_hub_cl.Base.Sort.{sort}
use forge_development_hub_cl.Kinds.{kind_skill, kind_rule, kind_agent, kind_hook}
use forge_development_hub_cl.Gitops.Node.{Node}
use forge_development_hub_cl.Gitops.Registry.{kind_plural, join, append_registry_entry}
use forge_development_hub_cl.Gitops.Harness.{HarnessEdit, is_empty_edit, apply_harness_edit}
use forge_development_hub_cl.Gitops.Client.{
  FileChange, Client, Push, not_configured, empty_action, name_collision, invalid_bundle,
  uncollected, edit_failed, Requestor, Outcome, refused, Early, leave, go_on, ◌>>=◌, answered,
  guard, required, edit_done, idempotent_existing, Proposal, build_pr_body, push,
}
use forge_development_hub_cl.Gitops.Registry.{unparsable}
use forge_development_hub_cl.Gitops.Curate.{hub_registry_path, hub_harnesses_path, changed}

pub record Bundle : Type 0 where
  pub description : Text
  pub compatibility : List Text

-- What the packages of a bundle answer; `blocking` is a scan that fails, `none` one that cannot
-- run.
pub record Gate : Type 0 where
  pub load : Option Bundle
  pub valid : Bundle → Bool
  pub lint_errors : Bundle → List Text → Bool
  pub blocking : Option Bool
  pub files : Option (List (Text × Option Text))

abbrev default_agent_ids : List Text
default_agent_ids = codes "claude-code" ∷ codes "codex" ∷ codes "copilot" ∷ codes "opencode" ∷ []

abbrev or_else : List Text → List Text → List Text
or_else [] d = d
or_else (a ∷ as_) d = a ∷ as_

abbrev loaded : Option Bundle → Early Bundle
loaded none = leave (refused invalid_bundle)
loaded (some b) = go_on b

abbrev scanned : Option Bool → Bool
scanned (some false) = true
scanned _ = false

unfoldable pub validate_bundle_dir : Gate → List Text → Early Bundle
validate_bundle_dir g known_agent_ids = do
  b ← loaded g.load
  valid ← guard (g.valid b) invalid_bundle
  portable ←
      guard (not (g.lint_errors b (or_else known_agent_ids default_agent_ids))) invalid_bundle
  clean ← guard (scanned g.blocking) invalid_bundle
  go_on b

abbrev pub bundle_agents : Bundle → List Text → List Text
bundle_agents b agents = or_else agents b.compatibility

-- A file below a name that starts with a dot is skipped.
unfoldable pub is_hidden : Text → Bool
unfolding split has_prefix
is_hidden rel = any (λ s. has_prefix s (codes ".")) (split b'/' rel)

abbrev with_file : Text → Text → Option Text → Option (List FileChange) → Option (List FileChange)
with_file prefix rel none rest = none
with_file prefix rel (some body) none = none
with_file prefix rel (some body) (some fs) = some (changed (prefix ++ codes "/" ++ rel) body ∷ fs)

unfoldable pub collect_from : Text → List (Text × Option Text) → Option (List FileChange)
unfolding is_hidden
collect_from prefix [] = some []
collect_from prefix ((rel, body) ∷ fs) =
    let rest = collect_from prefix fs in
    if is_hidden rel then rest else with_file prefix rel body rest

abbrev collected : Text → Option (List (Text × Option Text)) → Option (List FileChange)
unfolding collect_from
collected prefix none = none
collected prefix (some fs) = collect_from prefix fs

abbrev or_uncollected : Option (List FileChange) → Early (List FileChange)
or_uncollected none = leave (refused uncollected)
or_uncollected (some fs) = go_on fs

unfoldable pub entrypoint_filename : Text → Text
unfolding text_eq
entrypoint_filename kind =
    if text_eq kind kind_skill
    then codes "SKILL.md"
    else if text_eq kind kind_rule
    then codes "RULE.md"
    else if text_eq kind kind_agent
    then codes "AGENT.md"
    else if text_eq kind kind_hook
    then codes "HOOK.md"
    else []

abbrev is_absent : Option Text → Bool
is_absent none = true
is_absent (some t) = false

abbrev components : Option (List (Text × Text)) → Early (List (Text × Text))
components none = leave (refused (edit_failed unparsable))
components (some l) = go_on l

-- The names of the entries with their kinds, of a decoder that reads only these.
unfoldable pub registry_component_exists :
    (Text → Option (List (Text × Text))) → Text → Text → Text → Early Bool
unfolding text_eq
registry_component_exists decode reg_data kind name = do
  entries ← components (decode reg_data)
  go_on (any (λ e. text_eq e.1 kind && text_eq e.0 name) entries)

unfoldable pub import_branch : Text → Text → Text
import_branch kind name = codes "web/import/" ++ kind ++ codes "/" ++ name

unfoldable pub propose_import :
    (Text → Option (List (Text × Text)))
    → Client
    → Text
    → Text
    → Gate
    → Text
    → List Text
    → Requestor
    → List Text
    → Early Proposal
unfolding validate_bundle_dir idempotent_existing kind_plural entrypoint_filename collected
    registry_component_exists append_registry_entry build_pr_body import_branch
propose_import decode c kind name gate owner_team agents requestor known_agent_ids = do
  on ← guard c.enabled not_configured
  b ← validate_bundle_dir gate known_agent_ids
  fresh ← idempotent_existing c (import_branch kind name)
  def ← answered c.default_branch
  probe ← answered (
      c.get_file (kind_plural kind ++ codes "/" ++ name ++ codes "/" ++ entrypoint_filename kind)
        def)
  free ← guard (is_absent probe) name_collision
  reg_data ← required c hub_registry_path def
  exists ← registry_component_exists decode reg_data kind name
  unlisted ← guard (not exists) name_collision
  files ← or_uncollected (collected (kind_plural kind ++ codes "/" ++ name) gate.files)
  go_on (record {
    branch = import_branch kind name;
    base = def;
    files =
        files
        ++ changed hub_registry_path (
            append_registry_entry reg_data kind name b.description owner_team
              (bundle_agents b agents))
          ∷ [];
    message = codes "feat(" ++ name ++ codes "): add " ++ kind;
    body =
        build_pr_body (codes "Import " ++ kind ++ codes " `" ++ name ++ codes "` from the portal.")
          requestor
          ((codes "Adds `"
              ++ kind_plural kind
              ++ codes "/"
              ++ name
              ++ codes "/` (bundle) and a `"
              ++ hub_registry_path
              ++ codes "` entry with `default: false`.")
            ∷ []);
  })

unfoldable pub compose_import :
    (Text → Option (List (Text × Text)))
    → Client
    → Text
    → Text
    → Gate
    → Text
    → List Text
    → Requestor
    → List Text
    → List Push × Outcome
unfolding propose_import push
compose_import decode c kind name gate owner_team agents requestor known_agent_ids =
    push c (propose_import decode c kind name gate owner_team agents requestor known_agent_ids)

abbrev named : Text → Text → List Text → List Text
unfolding join sort text_lt
named verb kind [] = []
named verb kind (n ∷ ns) =
    (verb ++ codes " " ++ kind ++ codes ": " ++ join (codes ", ") (sort text_lt (n ∷ ns))) ∷ []

abbrev description_line : Option Text → List Text
description_line none = []
description_line (some d) = codes "Update description" ∷ []

abbrev team_line : Option Text → List Text
team_line none = []
team_line (some t) = (codes "Set owner_team to `" ++ t ++ codes "`") ∷ []

unfoldable pub edit_summary : HarnessEdit → List Text
unfolding named
edit_summary e =
    description_line e.description
    ++ team_line e.owner_team
    ++ named (codes "Add") (codes "skills") e.add_skills
    ++ named (codes "Remove") (codes "skills") e.remove_skills
    ++ named (codes "Add") (codes "rules") e.add_rules
    ++ named (codes "Remove") (codes "rules") e.remove_rules
    ++ named (codes "Add") (codes "agents") e.add_agents
    ++ named (codes "Remove") (codes "agents") e.remove_agents
    ++ named (codes "Add") (codes "hooks") e.add_hooks
    ++ named (codes "Remove") (codes "hooks") e.remove_hooks

module _ (parse : Text → Option Node) (print : Node → Option Text) where
  unfoldable pub propose_harness : Client → Text → HarnessEdit → Requestor → Early Proposal
  unfolding idempotent_existing apply_harness_edit is_empty_edit edit_summary build_pr_body
  propose_harness c harness_name e requestor = do
    on ← guard c.enabled not_configured
    some_edit ← guard (not (is_empty_edit e)) empty_action
    fresh ← idempotent_existing c (codes "web/harness/" ++ harness_name)
    def ← answered c.default_branch
    harness_data ← required c hub_harnesses_path def
    new_harness ← edit_done (apply_harness_edit parse print harness_data harness_name e)
    go_on (record {
      branch = codes "web/harness/" ++ harness_name;
      base = def;
      files = changed hub_harnesses_path new_harness ∷ [];
      message = codes "chore(harness): update " ++ harness_name;
      body =
          build_pr_body (codes "Edit harness `" ++ harness_name ++ codes "` from the portal.")
            requestor (edit_summary e);
    })

  unfoldable pub compose_harness : Client → Text → HarnessEdit → Requestor → List Push × Outcome
  unfolding propose_harness push
  compose_harness c harness_name e requestor = push c (propose_harness c harness_name e requestor)
