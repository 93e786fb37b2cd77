-- ===== src/Gitops/Harness.antt =====
-- The edits of hub/harnesses.yaml: internal/portalapi/gitops/harness_edit.go.
use forge_development_hub_cl.Base.{
  Bool, true, false, ◌&&◌, Option, none, some, List, [], ◌∷◌, Text, codes, text_lt, contains,
  if◌then◌else◌,
}
use forge_development_hub_cl.Base.Sort.{sort}
use forge_development_hub_cl.Gitops.Node.{
  sequence, Node, Nodes, node, end, more, content, value_of, is_mapping, is_sequence, append,
  string_node, value_at, update_at, mapping_value_node, set_or_add_mapping_string, document_root,
  update_root,
}
use forge_development_hub_cl.Gitops.Registry.{
  at_content, kind_plural, unparsable, unprintable, absent, Edited, edited, not_edited,
}

pub record HarnessEdit : Type 0 where
  pub description : Option Text
  pub owner_team : Option Text
  pub add_skills : List Text
  pub remove_skills : List Text
  pub add_rules : List Text
  pub remove_rules : List Text
  pub add_agents : List Text
  pub remove_agents : List Text
  pub add_hooks : List Text
  pub remove_hooks : List Text

abbrev pub no_names : List Text → Bool
no_names [] = true
no_names (n ∷ ns) = false

abbrev no_text : Option Text → Bool
no_text none = true
no_text (some t) = false

unfoldable pub is_empty_edit : HarnessEdit → Bool
is_empty_edit e =
    no_text e.description
    && no_text e.owner_team
    && no_names e.add_skills
    && no_names e.remove_skills
    && no_names e.add_rules
    && no_names e.remove_rules
    && no_names e.add_agents
    && no_names e.remove_agents
    && no_names e.add_hooks
    && no_names e.remove_hooks

-- The items that are not removed.
unfoldable pub kept_items : List Text → Nodes → Nodes
unfolding contains
kept_items remove end = end
kept_items remove (more item ns) =
    let rest = kept_items remove ns in
    if contains remove (value_of item) then rest else more item rest

unfoldable pub values : Nodes → List Text
values end = []
values (more item ns) = value_of item ∷ values ns

-- `toAdd`: the names that are not present, each once.
unfoldable pub names_to_add : List Text → List Text → List Text
unfolding contains
names_to_add present [] = []
names_to_add present (a ∷ add) =
    let skipped = names_to_add present add in
    let taken = names_to_add (a ∷ present) add in if contains present a then skipped else a ∷ taken

unfoldable pub string_nodes : List Text → Nodes
string_nodes [] = end
string_nodes (a ∷ add) = more (string_node a) (string_nodes add)

unfoldable pub edit_items : List Text → List Text → Nodes → Nodes
unfolding kept_items values names_to_add string_nodes append sort text_lt
edit_items add remove ns =
    let kept = kept_items remove ns in
    append kept (string_nodes (sort text_lt (names_to_add (values kept) add)))

-- yaml.FlowStyle
abbrev pub flow_style : Node
flow_style =
    node (record { kind = sequence; tag = codes "!!seq"; value = []; style = 32; layout = [] }) end

abbrev pub edit_found : Node → Text → List Text → List Text → Option Node → Node
edit_found h seq_key add remove (some seq) =
    at_content (update_at seq_key (at_content (edit_items add remove))) h
edit_found h seq_key add remove none =
    if no_names add
    then h
    else at_content
        (λ ns.
          append ns
            (more (string_node seq_key) (more (at_content (edit_items add remove) flow_style) end)))
        h

unfoldable pub edit_kind : Node → Text → List Text → List Text → Node
unfolding mapping_value_node edit_items update_at append
edit_kind h seq_key add remove =
    if no_names add && no_names remove
    then h
    else edit_found h seq_key add remove (mapping_value_node h seq_key)

abbrev pub behind : Text → Option Node → Option Node
unfolding value_at
behind name none = none
behind name (some harnesses) =
    if is_mapping harnesses then value_at name (content harnesses) else none

unfoldable pub find_harness_node : Node → Text → Option Node
unfolding document_root mapping_value_node value_at
find_harness_node root name =
    behind name (mapping_value_node (document_root root) (codes "harnesses"))

-- A write to the node that `findHarnessNode` found.
unfoldable pub update_harness_node : Text → (Node → Node) → Node → Node
unfolding update_root update_at
update_harness_node name f root =
    update_root (at_content (update_at (codes "harnesses") (at_content (update_at name f)))) root

abbrev set_text : Text → Option Text → Node → Node
unfolding set_or_add_mapping_string
set_text key none h = h
set_text key (some t) h = set_or_add_mapping_string h key t

unfoldable pub edit_harness : HarnessEdit → Node → Node
unfolding edit_kind set_text set_or_add_mapping_string
edit_harness e h =
    let described =
      set_text (codes "owner_team") e.owner_team (set_text (codes "description") e.description h) in
    let skills = edit_kind described (codes "skills") e.add_skills e.remove_skills in
    let rules = edit_kind skills (codes "rules") e.add_rules e.remove_rules in
    let agents = edit_kind rules (codes "agents") e.add_agents e.remove_agents in
    edit_kind agents (codes "hooks") e.add_hooks e.remove_hooks

abbrev pub lists : Text → Option Node → Bool
unfolding contains values
lists name none = false
lists name (some seq) = is_sequence seq && contains (values (content seq)) name

abbrev pub component_of : Text → Text → Option Node → Bool
unfolding mapping_value_node kind_plural lists
component_of kind name none = false
component_of kind name (some h) = lists name (mapping_value_node h (kind_plural kind))

module _ (parse : Text → Option Node) (print : Node → Option Text) where
  abbrev pub printed : Option Text → Edited Text
  printed none = not_edited unprintable
  printed (some out) = edited out

  abbrev pub written : Node → Text → (Node → Node) → Option Node → Edited Text
  unfolding update_harness_node
  written root name f none = not_edited absent
  written root name f (some h) = printed (print (update_harness_node name f root))

  abbrev pub edit_named : Text → (Node → Node) → Option Node → Edited Text
  unfolding find_harness_node written
  edit_named name f none = not_edited unparsable
  edit_named name f (some root) = written root name f (find_harness_node root name)

  unfoldable pub apply_harness_edit : Text → Text → HarnessEdit → Edited Text
  unfolding edit_named edit_harness
  apply_harness_edit data_ name e = edit_named name (edit_harness e) (parse data_)

  abbrev pub synced : Text → Text → Bool → Node → Node
  unfolding edit_kind kind_plural
  synced kind name add h =
      if add
      then edit_kind h (kind_plural kind) (name ∷ []) []
      else edit_kind h (kind_plural kind) [] (name ∷ [])

  unfoldable pub sync_default_harness : Text → Text → Text → Bool → Edited Text
  unfolding edit_named synced
  sync_default_harness data_ kind name add =
      edit_named (codes "default") (synced kind name add) (parse data_)

  abbrev pub has_in : Text → Text → Text → Option Node → Edited Bool
  unfolding find_harness_node component_of
  has_in harness kind name none = not_edited unparsable
  has_in harness kind name (some root) =
      edited (component_of kind name (find_harness_node root harness))

  unfoldable pub harness_has_component : Text → Text → Text → Text → Edited Bool
  unfolding has_in
  harness_has_component data_ harness kind name = has_in harness kind name (parse data_)
