-- ===== src/Gitops/Registry.antt =====
-- The edits of hub/registry.yaml: internal/portalapi/gitops/registry_edit.go. `parse` is
-- yaml.Unmarshal into a node, `print` is marshalNode.
use forge_development_hub_cl.Base.{
  ℕ, Bool, false, ◌&&◌, Option, none, some, List, [], ◌∷◌, ◌++◌, Text, codes, text_eq, is_empty,
  if◌then◌else◌, ltb,
}
use forge_development_hub_cl.Kinds.{kind_skill, kind_rule, kind_agent, kind_hook}
use forge_development_hub_cl.Gitops.Node.{
  Node, Nodes, node, end, more, content, is_mapping, is_sequence, append, string_node, mapping_node,
  value_at, update_at, mapping_value_node, mapping_scalar, set_or_add_mapping_string,
  set_or_add_mapping_bool, document_root, update_root,
}

unfoldable pub kind_plural : Text → Text
unfolding text_eq
kind_plural kind =
    if text_eq kind kind_skill
    then codes "skills"
    else if text_eq kind kind_rule
    then codes "rules"
    else if text_eq kind kind_agent
    then codes "agents"
    else if text_eq kind kind_hook
    then codes "hooks"
    else kind ++ codes "s"

-- `strings.Join`
unfoldable pub join : Text → List Text → Text
join sep [] = []
join sep (s ∷ []) = s
join sep (s ∷ t ∷ ss) = s ++ sep ++ join sep (t ∷ ss)

-- `strings.ReplaceAll(desc, "\"", "'")`
unfoldable pub unquoted : Text → Text
unquoted [] = []
unquoted (c ∷ cs) = (if ltb c b'"' then c else if ltb b'"' c then c else b'\'') ∷ unquoted cs

abbrev default_agents : Text → List Text
unfolding text_eq
default_agents kind =
    if text_eq kind kind_skill
    then codes "claude-code" ∷ codes "codex" ∷ codes "copilot" ∷ codes "opencode" ∷ []
    else codes "claude-code" ∷ []

abbrev or_default : List Text → List Text → List Text
or_default [] d = d
or_default (a ∷ as_) d = a ∷ as_

unfoldable pub registry_entry_yaml : Text → Text → Text → Text → List Text → Text
unfolding kind_plural join unquoted text_eq default_agents
registry_entry_yaml kind name desc owner_team agents =
    codes "\n  - name: "
    ++ name
    ++ codes "\n    kind: "
    ++ kind
    ++ codes "\n    description: \""
    ++ unquoted desc
    ++ codes "\"\n    owner_team: "
    ++ (if is_empty owner_team then codes "unassigned" else owner_team)
    ++ codes "\n    tags: []\n    default: false\n    min_fdh_version: \"0.4.0\"\n"
    ++ codes "    agents_supported: ["
    ++ join (codes ", ") (or_default agents (default_agents kind))
    ++ codes "]\n    path: "
    ++ kind_plural kind
    ++ codes "/"
    ++ name
    ++ codes "\n"

unfoldable pub append_registry_entry : Text → Text → Text → Text → Text → List Text → Text
unfolding registry_entry_yaml
append_registry_entry reg_data kind name desc owner_team agents =
    reg_data ++ registry_entry_yaml kind name desc owner_team agents

-- `some` is the rank of a status, the empty one included.
unfoldable pub rank : Text → Option ℕ
unfolding text_eq
rank status =
    if text_eq status (codes "active")
    then some 0
    else if text_eq status (codes "deprecated")
    then some 1
    else if text_eq status (codes "yanked")
    then some 2
    else if is_empty status
    then some 0
    else none

abbrev pub forward : Option ℕ → Option ℕ → Bool
forward (some from) (some to) = ltb from to
forward _ _ = false

unfoldable pub lifecycle_allowed : Text → Text → Bool
unfolding rank
lifecycle_allowed from to = forward (rank from) (rank to)

-- The entry that `findComponentNode` looks for.
unfoldable pub is_component : Text → Text → Node → Bool
unfolding mapping_scalar text_eq
is_component kind name item =
    is_mapping item
    && (text_eq (mapping_scalar item (codes "kind")) kind
        && text_eq (mapping_scalar item (codes "name")) name)

unfoldable pub first_node : (Node → Bool) → Nodes → Option Node
first_node p end = none
first_node p (more n ns) = let rest = first_node p ns in if p n then some n else rest

unfoldable pub update_first : (Node → Bool) → (Node → Node) → Nodes → Nodes
update_first p f end = end
update_first p f (more n ns) =
    let rest = update_first p f ns in if p n then more (f n) ns else more n rest

unfoldable pub in_sequence : (Node → Bool) → Option Node → Option Node
unfolding first_node
in_sequence p none = none
in_sequence p (some comps) = if is_sequence comps then first_node p (content comps) else none

unfoldable pub find_component_node : Node → Text → Text → Option Node
unfolding document_root mapping_value_node is_component in_sequence
find_component_node root kind name =
    in_sequence (is_component kind name)
      (mapping_value_node (document_root root) (codes "components"))

abbrev pub at_content : (Nodes → Nodes) → Node → Node
at_content g (node h ns) = node h (g ns)

-- A write to the node that `findComponentNode` found.
unfoldable pub update_component_node : Text → Text → (Node → Node) → Node → Node
unfolding update_root update_at update_first is_component
update_component_node kind name f root =
    update_root
      (at_content
        (update_at (codes "components") (at_content (update_first (is_component kind name) f))))
      root

abbrev pub add_versions : Node → Option Node → Node
add_versions comp none =
    at_content (λ ns. append ns (more (string_node (codes "versions")) (more mapping_node end)))
      comp
add_versions comp (some v) = comp

-- `versions`, added if it is absent.
unfoldable pub with_versions : Node → Node
unfolding mapping_value_node append
with_versions comp = add_versions comp (mapping_value_node comp (codes "versions"))

abbrev pub or_mapping : Option Node → Node
or_mapping none = mapping_node
or_mapping (some v) = v

unfoldable pub put_entry : Text → Text → Node → Option Node → Node
unfolding append update_at set_or_add_mapping_string
put_entry version status (node h ns) none = node h (
    append ns (
      more (string_node version)
        (more (set_or_add_mapping_string mapping_node (codes "status") status) end)))
put_entry version status (node h ns) (some v) =
    node h (update_at version (λ e. set_or_add_mapping_string e (codes "status") status) ns)

-- The change of the node of `versions`.
unfoldable pub put_status : Text → Text → Node → Node
unfolding value_at put_entry
put_status version status versions =
    put_entry version status versions (value_at version (content versions))

unfoldable pub edit_component : Text → Text → Node → Node
unfolding with_versions update_at put_status
edit_component version status comp =
    at_content (update_at (codes "versions") (put_status version status)) (with_versions comp)

unfoldable pub status_in : Text → Option Node → Text
unfolding value_at mapping_scalar
status_in version none = []
status_in version (some versions) =
    mapping_scalar (or_mapping (value_at version (content versions))) (codes "status")

-- The status that `setVersionStatus` finds on a component.
unfoldable pub prior_status : Text → Node → Text
unfolding mapping_value_node status_in
prior_status version comp = status_in version (mapping_value_node comp (codes "versions"))

pub data EditError : Type 0 where
  unparsable unprintable absent : EditError

pub data Edited {ℓ} (A : Type ℓ) : Type ℓ where
  edited : A → Edited A
  not_edited : EditError → Edited A

module _ (parse : Text → Option Node) (print : Node → Option Text) where
  abbrev pub printed : Text → Option Text → Edited (Text × Text)
  printed prior none = not_edited unprintable
  printed prior (some out) = edited (out, prior)

  abbrev pub set_default_in : Text → Text → Bool → Node → Option Node → Edited (Text × Text)
  unfolding update_component_node mapping_scalar set_or_add_mapping_bool
  set_default_in kind name value root none = not_edited absent
  set_default_in kind name value root (some comp) =
      printed (mapping_scalar comp (codes "owner_team")) (
        print (
          update_component_node kind name (λ c. set_or_add_mapping_bool c (codes "default") value)
            root))

  abbrev pub set_default_of : Text → Text → Bool → Option Node → Edited (Text × Text)
  unfolding find_component_node
  set_default_of kind name value none = not_edited unparsable
  set_default_of kind name value (some root) =
      set_default_in kind name value root (find_component_node root kind name)

  unfoldable pub set_registry_default : Text → Text → Text → Bool → Edited (Text × Text)
  unfolding set_default_of
  set_registry_default reg_data kind name value = set_default_of kind name value (parse reg_data)

  abbrev pub set_status_in : Text → Text → Text → Text → Node → Option Node → Edited (Text × Text)
  unfolding update_component_node edit_component prior_status
  set_status_in kind name version status root none = not_edited absent
  set_status_in kind name version status root (some comp) =
      printed (prior_status version comp)
        (print (update_component_node kind name (edit_component version status) root))

  abbrev pub set_status_of : Text → Text → Text → Text → Option Node → Edited (Text × Text)
  unfolding find_component_node
  set_status_of kind name version status none = not_edited unparsable
  set_status_of kind name version status (some root) =
      set_status_in kind name version status root (find_component_node root kind name)

  unfoldable pub set_version_status : Text → Text → Text → Text → Text → Edited (Text × Text)
  unfolding set_status_of
  set_version_status reg_data kind name version status =
      set_status_of kind name version status (parse reg_data)
