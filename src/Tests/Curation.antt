-- ===== src/Tests/Curation.antt =====
-- The portal's pull requests, on a catalog with one skill.
use forge_development_hub_cl.Base.{
  true, false, ◌≡◌, ◌⊎◌, refl, [], ◌∷◌, Option, none, some, Text, codes, text_eq, contains,
}
use forge_development_hub_cl.Gitops.Node.{
  document, sequence, mapping, Node, Nodes, node, end, more, string_node, fresh, value_at,
  mapping_value_node, mapping_scalar, document_root,
}
use forge_development_hub_cl.Gitops.Registry.{
  find_component_node, update_component_node, edit_component, is_component, first_node, in_sequence,
  prior_status, lifecycle_allowed, rank, set_version_status, status_in, kind_plural,
}
use forge_development_hub_cl.Gitops.Statuses.{Fits}
use forge_development_hub_cl.Gitops.Statuses.Catalog.{
  version_status, version_status_in, version_status-set,
}
use forge_development_hub_cl.Gitops.Client.{Client, Early, go_on, Proposal, push}
use forge_development_hub_cl.Gitops.Curate.{Change, hub_registry_path, changed, lifecycle_change}
use forge_development_hub_cl.Gitops.Pushes.{Ran, push-Ran}
use forge_development_hub_cl.Gitops.Forward.{
  start, after, Moved, moved, Reached-IsForward, IsForward,
}
use forge_development_hub_cl.Gitops.Transition.{lifecycle_change-Moved}
use forge_development_hub_cl.Gitops.Harness.{edit_kind}
use forge_development_hub_cl.Gitops.Listed.{listed, listed-edit_kind}

abbrev pair : Text → Node → Nodes → Nodes
pair key value ns = more (string_node key) (more value ns)

abbrev with : Node → Nodes → Node
with (node h ms) ns = node h ns

abbrev grid : Node
grid = with (fresh mapping [] []) (
    pair (codes "kind") (string_node (codes "skill"))
      (pair (codes "name") (string_node (codes "grid")) end))

abbrev catalog : Node
catalog = with (fresh document [] []) (
    more
      (with (fresh mapping [] [])
        (pair (codes "components") (with (fresh sequence [] []) (more grid end)) end))
      end)

grid_found : find_component_node catalog (codes "skill") (codes "grid") ≡ some grid
unfolding find_component_node document_root mapping_value_node mapping_scalar value_at is_component
    first_node in_sequence text_eq
grid_found = refl

grid-Fits : Fits (codes "1.0.0") grid
unfolding Fits value_at text_eq
grid-Fits = (refl, tt, tt)

abbrev deprecated : Node
deprecated =
    update_component_node (codes "skill") (codes "grid")
      (edit_component (codes "1.0.0") (codes "deprecated")) catalog

version_status-set_example :
    version_status deprecated (codes "skill") (codes "grid") (codes "1.0.0") ≡ codes "deprecated"
unfolding text_eq
version_status-set_example =
    version_status-set catalog grid (codes "skill") (codes "grid") (codes "1.0.0")
      (codes "deprecated") (codes "skill") (codes "grid") (codes "1.0.0") grid_found grid-Fits

grid_allowed :
    lifecycle_allowed
      (version_status catalog (codes "skill") (codes "grid") (codes "1.0.0"))
      (codes "deprecated")
    ≡ true
unfolding lifecycle_allowed rank version_status version_status_in prior_status find_component_node
    document_root mapping_value_node mapping_scalar value_at is_component first_node in_sequence
    status_in text_eq
grid_allowed = refl

Reached-IsForward_example :
    (version_status deprecated (codes "skill") (codes "grid") (codes "1.0.0")
      ≡ version_status catalog (codes "skill") (codes "grid") (codes "1.0.0"))
    ⊎ IsForward
        (version_status catalog (codes "skill") (codes "grid") (codes "1.0.0"))
        (version_status deprecated (codes "skill") (codes "grid") (codes "1.0.0"))
Reached-IsForward_example = Reached-IsForward (codes "skill") (codes "grid") (codes "1.0.0") (
    after start (
      moved grid (codes "skill") (codes "grid") (codes "1.0.0") (codes "deprecated") grid_found
        grid-Fits grid_allowed))

abbrev parsed : Text → Option Node
parsed t = some catalog

abbrev printed : Node → Option Text
printed n = some (codes "new")

abbrev deprecation : Change
deprecation = record {
  files = changed hub_registry_path (codes "new") ∷ [];
  message = codes "chore(grid): deprecate@1.0.0";
  details = codes "Set `status: deprecated` on `skills/grid@1.0.0` in `hub/registry.yaml`." ∷ [];
}

deprecation_proposed :
    lifecycle_change parsed printed
      (codes "old")
      (codes "skill")
      (codes "grid")
      (codes "1.0.0")
      (codes "deprecated")
    ≡ go_on deprecation
unfolding lifecycle_change set_version_status edit_component update_component_node prior_status
    lifecycle_allowed rank version_status find_component_node document_root mapping_value_node
    mapping_scalar value_at is_component first_node in_sequence status_in text_eq kind_plural
deprecation_proposed = refl

lifecycle_change-Moved_example :
    (new : Node) × (out : Text) × Moved catalog new
    × (version_status new (codes "skill") (codes "grid") (codes "1.0.0") ≡ codes "deprecated")
    × (printed new ≡ some out)
    × (deprecation.files ≡ changed hub_registry_path out ∷ [])
lifecycle_change-Moved_example =
    lifecycle_change-Moved parsed printed (codes "old") (codes "skill") (codes "grid")
      (codes "1.0.0") (codes "deprecated") catalog grid deprecation refl grid_found grid-Fits
      deprecation_proposed

abbrev forge : Client
forge = record {
  enabled = true;
  default_branch = some (codes "main");
  default_branch_sha = some (codes "ab");
  branch_exists = λ b. some false;
  create_branch = λ b sha. true;
  get_file = λ p r. some (some (codes "old"));
  commit_files = λ b sha fs msg. true;
  find_open_pr = λ b. some none;
  open_pr = λ h b t d. some (codes "/pr/1");
}

abbrev proposal : Early Proposal
proposal = go_on (record {
  branch = codes "web/curate/skill/grid";
  base = codes "main";
  files = deprecation.files;
  message = deprecation.message;
  body = [];
})

push-Ran_example : Ran forge proposal (push forge proposal)
push-Ran_example = push-Ran forge proposal

listed-edit_kind_example :
    contains
      (listed (edit_kind grid (codes "skills") (codes "b" ∷ []) []) (codes "skills"))
      (codes "b")
    ≡ true
unfolding text_eq contains listed mapping_value_node value_at
listed-edit_kind_example =
    listed-edit_kind grid (codes "skills") (codes "skills") (codes "b" ∷ []) [] (codes "b") refl tt
