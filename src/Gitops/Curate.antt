-- ===== src/Gitops/Curate.antt =====
-- The composers: internal/portalapi/gitops/compose_curate.go, compose_harness.go and
-- compose_import.go. A composer reads first and pushes then; `push` is what they all end with.
use forge_development_hub_cl.Base.{
  Bool, true, false, not, ◌||◌, ◌&&◌, Option, none, some, List, [], ◌∷◌, ◌++◌, Text, codes, text_eq,
  is_empty, if◌then◌else◌,
}
use forge_development_hub_cl.Gitops.Node.{Node}
use forge_development_hub_cl.Gitops.Registry.{
  kind_plural, lifecycle_allowed, set_registry_default, set_version_status,
}
use forge_development_hub_cl.Gitops.Harness.{sync_default_harness, harness_has_component}
use forge_development_hub_cl.Gitops.Client.{
  FileChange, Client, Push, not_configured, empty_action, ambiguous, lifecycle, Requestor, Outcome,
  Early, go_on, ◌>>=◌, answered, guard, required, edit_done, idempotent_existing, Proposal,
  build_pr_body, push,
}

abbrev pub hub_registry_path : Text
hub_registry_path = codes "hub/registry.yaml"

abbrev pub hub_harnesses_path : Text
hub_harnesses_path = codes "hub/harnesses.yaml"

pub record CurateAction : Type 0 where
  pub set_default : Option Bool
  pub lifecycle_target : Text
  pub version : Text

abbrev is_none : Option Bool → Bool
is_none none = true
is_none (some b) = false

abbrev pub changed : Text → Text → FileChange
changed path body = record { path = path; contents = body; delete = false }

abbrev bool_text : Bool → Text
bool_text true = codes "true"
bool_text false = codes "false"

-- The files, the message and the details of a pull request.
pub record Change : Type 0 where
  pub files : List FileChange
  pub message : Text
  pub details : List Text

abbrev pub same : Bool → Bool → Bool
same true b = b
same false b = not b

module _ (parse : Text → Option Node) (print : Node → Option Text) where
  abbrev synced_files : Text → Text → Text → Bool → Bool → Text → Early (List FileChange)
  unfolding sync_default_harness
  synced_files harness_data kind name value already new_reg =
      if same value already then go_on (changed hub_registry_path new_reg ∷ []) else do
        new_harness ← edit_done (sync_default_harness parse print harness_data kind name value)
        go_on (changed hub_registry_path new_reg ∷ changed hub_harnesses_path new_harness ∷ [])

  unfoldable pub default_change : Client → Text → Text → Text → Text → Bool → Early Change
  unfolding set_registry_default harness_has_component synced_files
  default_change c def reg_data kind name value = do
    reg ← edit_done (set_registry_default parse print reg_data kind name value)
    harness_data ← required c hub_harnesses_path def
    already ← edit_done (harness_has_component parse print harness_data (codes "default") kind name)
    files ← synced_files harness_data kind name value already reg.0
    go_on (record {
      files = files;
      message = codes "chore(" ++ name ++ codes "): set default " ++ bool_text value;
      details =
          (codes "Set `default: "
            ++ bool_text value
            ++ codes "` on the `"
            ++ name
            ++ codes "` "
            ++ kind
            ++ codes " entry in `"
            ++ hub_registry_path
            ++ codes "`.")
          ∷ ((if value then codes "Add to" else codes "Remove from")
              ++ codes " the `default` harness in `"
              ++ hub_harnesses_path
              ++ codes "` (kept in sync atomically).")
          ∷ [];
    })

  unfoldable pub lifecycle_change : Text → Text → Text → Text → Text → Early Change
  unfolding set_version_status lifecycle_allowed kind_plural text_eq
  lifecycle_change reg_data kind name version target = do
    known ← guard (text_eq target (codes "deprecated") || text_eq target (codes "yanked")) lifecycle
    versioned ← guard (not (is_empty version)) lifecycle
    probed ← edit_done (set_version_status parse print reg_data kind name version target)
    allowed ← guard (lifecycle_allowed probed.1 target) lifecycle
    reg ← edit_done (set_version_status parse print reg_data kind name version target)
    go_on (record {
      files = changed hub_registry_path reg.0 ∷ [];
      message =
          codes "chore("
          ++ name
          ++ codes "): "
          ++ (if text_eq target (codes "yanked") then codes "yank" else codes "deprecate")
          ++ codes "@"
          ++ version;
      details =
          (codes "Set `status: "
            ++ target
            ++ codes "` on `"
            ++ kind_plural kind
            ++ codes "/"
            ++ name
            ++ codes "@"
            ++ version
            ++ codes "` in `"
            ++ hub_registry_path
            ++ codes "`.")
          ∷ [];
    })

  abbrev pub curate_change :
      Client → Text → Text → Text → Text → CurateAction → Option Bool → Early Change
  unfolding default_change lifecycle_change
  curate_change c def reg_data kind name action (some value) =
      default_change c def reg_data kind name value
  curate_change c def reg_data kind name action none =
      lifecycle_change reg_data kind name action.version action.lifecycle_target

  unfoldable pub curate_branch : Text → Text → Text
  curate_branch kind name = codes "web/curate/" ++ kind ++ codes "/" ++ name

  -- What `ComposeCurate` reads and decides, up to `prepareBranch`.
  unfoldable pub propose_curate : Client → Text → Text → CurateAction → Requestor → Early Proposal
  unfolding idempotent_existing curate_change build_pr_body curate_branch
  propose_curate c kind name action requestor = do
    on ← guard c.enabled not_configured
    some_action ←
        guard (not (is_none action.set_default && is_empty action.lifecycle_target)) empty_action
    one_action ← guard (is_none action.set_default || is_empty action.lifecycle_target) ambiguous
    fresh ← idempotent_existing c (curate_branch kind name)
    def ← answered c.default_branch
    reg_data ← required c hub_registry_path def
    change ← curate_change c def reg_data kind name action action.set_default
    go_on (record {
      branch = curate_branch kind name;
      base = def;
      files = change.files;
      message = change.message;
      body =
          build_pr_body
            (codes "Curate " ++ kind ++ codes " `" ++ name ++ codes "` from the portal.") requestor
            change.details;
    })

  unfoldable pub compose_curate :
      Client → Text → Text → CurateAction → Requestor → List Push × Outcome
  unfolding propose_curate push
  compose_curate c kind name action requestor = push c (propose_curate c kind name action requestor)
