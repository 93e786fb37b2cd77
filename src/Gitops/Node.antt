-- ===== src/Gitops/Node.antt =====
-- The nodes of gopkg.in/yaml.v3 as a tree, and the helpers on them of
-- internal/portalapi/gitops/registry_edit.go. A pointer to a node inside a tree that is then
-- written through is an update at the place where the look-up found it.
pub mod Lookups
use forge_development_hub_cl.Base.{
  [], ℕ, Bool, true, false, Option, none, some, Text, codes, text_eq, if◌then◌else◌,
}

pub data NodeKind : Type 0 where
  document sequence mapping scalar alias : NodeKind

-- What a node has besides its content; `layout` stands for its comments, anchor and position.
pub record Head : Type 0 where
  pub kind : NodeKind
  pub tag : Text
  pub value : Text
  pub style : ℕ
  pub layout : Text

mutual
  pub data Node : Type 0 where
    node : Head → Nodes → Node

  pub data Nodes : Type 0 where
    end : Nodes
    more : Node → Nodes → Nodes

abbrev pub head : Node → Head
head (node h ns) = h

abbrev pub content : Node → Nodes
content (node h ns) = ns

abbrev pub value_of : Node → Text
value_of n = (head n).value

abbrev pub is_mapping : Node → Bool
is_mapping n = elim (head n).kind [ mapping ↦ true | _ ↦ false ]

abbrev pub is_sequence : Node → Bool
is_sequence n = elim (head n).kind [ sequence ↦ true | _ ↦ false ]

abbrev pub is_scalar : Node → Bool
is_scalar n = elim (head n).kind [ scalar ↦ true | _ ↦ false ]

-- `seq.Content = append(seq.Content, ...)`
unfoldable pub append : Nodes → Nodes → Nodes
append end ms = ms
append (more n ns) ms = more n (append ns ms)

-- A node that the code makes: no style and no comment.
abbrev pub fresh : NodeKind → Text → Text → Node
fresh kind tag value =
    node (record { kind = kind; tag = tag; value = value; style = 0; layout = [] }) end

abbrev pub string_node : Text → Node
string_node value = fresh scalar (codes "!!str") value

abbrev pub mapping_node : Node
mapping_node = fresh mapping (codes "!!map") []

-- The value behind the first key, in a list of keys and values.
unfoldable pub value_at : Text → Nodes → Option Node
unfolding text_eq
value_at key end = none
value_at key (more k end) = none
value_at key (more k (more v ns)) =
    let rest = value_at key ns in if text_eq (value_of k) key then some v else rest

-- A write through the pointer to that value.
unfoldable pub update_at : Text → (Node → Node) → Nodes → Nodes
unfolding text_eq
update_at key f end = end
update_at key f (more k end) = more k end
update_at key f (more k (more v ns)) =
    let rest = update_at key f ns in
    if text_eq (value_of k) key then more k (more (f v) ns) else more k (more v rest)

unfoldable pub mapping_value_node : Node → Text → Option Node
unfolding value_at
mapping_value_node m key = if is_mapping m then value_at key (content m) else none

abbrev pub scalar_value : Option Node → Text
scalar_value none = []
scalar_value (some v) = if is_scalar v then value_of v else []

unfoldable pub mapping_scalar : Node → Text → Text
unfolding mapping_value_node
mapping_scalar m key = scalar_value (mapping_value_node m key)

abbrev pub as_scalar : Text → Text → Node → Node
as_scalar tag value (node h ns) =
    node (record h { kind = scalar; tag = tag; value = value; style = 0 }) ns

abbrev pub set_scalar : Text → Node → Text → Text → Option Node → Node
set_scalar tag (node h ns) key value none =
    node h (append ns (more (string_node key) (more (fresh scalar tag value) end)))
set_scalar tag (node h ns) key value (some v) = node h (update_at key (as_scalar tag value) ns)

unfoldable pub set_or_add_mapping_string : Node → Text → Text → Node
unfolding mapping_value_node append update_at
set_or_add_mapping_string m key value =
    set_scalar (codes "!!str") m key value (mapping_value_node m key)

abbrev bool_text : Bool → Text
bool_text true = codes "true"
bool_text false = codes "false"

unfoldable pub set_or_add_mapping_bool : Node → Text → Bool → Node
unfolding mapping_value_node append update_at
set_or_add_mapping_bool m key value =
    set_scalar (codes "!!bool") m key (bool_text value) (mapping_value_node m key)

-- A document is unwrapped if it has one content node.
abbrev pub is_wrapper : Node → Bool
is_wrapper (node h (more n end)) = elim h.kind [ document ↦ true | _ ↦ false ]
is_wrapper _ = false

abbrev pub first_of : Node → Nodes → Node
first_of root end = root
first_of root (more n ns) = n

unfoldable pub document_root : Node → Node
document_root root = if is_wrapper root then first_of root (content root) else root

abbrev pub map_first : (Node → Node) → Nodes → Nodes
map_first f end = end
map_first f (more n ns) = more (f n) ns

-- A write to what `document_root` returns.
unfoldable pub update_root : (Node → Node) → Node → Node
update_root f root =
    if is_wrapper root then node (head root) (map_first f (content root)) else f root
