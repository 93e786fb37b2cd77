-- ===== src/Gitops/Node/Lookups.antt =====
-- Looking a key up behind a write.
use forge_development_hub_cl.Base.{
  true, false, ◌≡◌, refl, Option, none, some, Text, codes, text_eq, text_eq_refl, text_eq_iff,
  if◌then◌else◌, arith, Bool-cases, inl, inr,
}
use forge_development_hub_cl.Gitops.Node.{
  Node, Nodes, node, end, more, content, value_of, is_mapping, as_scalar, fresh, scalar, append,
  string_node, value_at, update_at, mapping_value_node, mapping_scalar, set_or_add_mapping_string,
}

-- Keys and values alternate.
abbrev pub IsPaired : Nodes → Type 0
IsPaired end = Unit
IsPaired (more k end) = ⊥
IsPaired (more k (more v ns)) = IsPaired ns

abbrev pub mapped : (Node → Node) → Option Node → Option Node
mapped f none = none
mapped f (some v) = some (f v)

pub value_at-update_at :
    (key : Text) (f : Node → Node) (ns : Nodes)
    → value_at key (update_at key f ns) ≡ mapped f (value_at key ns)
unfolding value_at update_at
value_at-update_at key f end = refl
value_at-update_at key f (more k end) = refl
value_at-update_at key f (more k (more v ns)) = elim (Bool-cases (text_eq (value_of k) key)) [
  | inl e ↦ rw (e, e) refl
  | inr e ↦ rw (e, e) (value_at-update_at key f ns)
]

pub value_at-update_other :
    (key other : Text) (f : Node → Node) (ns : Nodes)
    → text_eq key other ≡ false
    → value_at other (update_at key f ns) ≡ value_at other ns
unfolding value_at update_at
value_at-update_other key other f end h = refl
value_at-update_other key other f (more k end) h = refl
value_at-update_other key other f (more k (more v ns)) h = ground (
  arith,
  value_at-update_other key other f ns h,
  text_eq_iff (value_of k) key,
  text_eq_iff (value_of k) other,
  text_eq_iff key other,
)

pub IsPaired-update_at :
    (key : Text) (f : Node → Node) (ns : Nodes) → IsPaired ns → IsPaired (update_at key f ns)
unfolding update_at
IsPaired-update_at key f end h = h
IsPaired-update_at key f (more k end) h = elim h [ ]
IsPaired-update_at key f (more k (more v ns)) h = elim (Bool-cases (text_eq (value_of k) key)) [
  | inl e ↦ rw e h
  | inr e ↦ rw e (IsPaired-update_at key f ns h)
]

abbrev pub or_else : Option Node → Option Node → Option Node
or_else none o = o
or_else (some v) o = some v

pub value_at-append :
    (key : Text) (ns : Nodes) (k v : Node)
    → IsPaired ns
    → value_at key (append ns (more k (more v end)))
      ≡ or_else (value_at key ns) (if text_eq (value_of k) key then some v else none)
unfolding value_at append
value_at-append key end k v h = refl
value_at-append key (more l end) k v h = elim h [ ]
value_at-append key (more l (more w ns)) k v h = elim (Bool-cases (text_eq (value_of l) key)) [
  | inl e ↦ rw e refl
  | inr e ↦ rw e (value_at-append key ns k v h)
]

pub mapping_value_node-mapping :
    (m : Node) (key : Text)
    → is_mapping m ≡ true
    → mapping_value_node m key ≡ value_at key (content m)
unfolding mapping_value_node
mapping_value_node-mapping m key h = rw h refl

set_or_add-some :
    (m : Node) (key value : Text) (v : Node)
    → is_mapping m ≡ true
    → value_at key (content m) ≡ some v
    → mapping_scalar (set_or_add_mapping_string m key value) key ≡ value
unfolding mapping_scalar set_or_add_mapping_string mapping_value_node
set_or_add-some (node g ns) key value (node l ms) h e =
    rw (h, e, h, value_at-update_at key (as_scalar (codes "!!str") value) ns, e) refl

set_or_add-none :
    (m : Node) (key value : Text)
    → is_mapping m ≡ true
    → IsPaired (content m)
    → value_at key (content m) ≡ none
    → mapping_scalar (set_or_add_mapping_string m key value) key ≡ value
unfolding mapping_scalar set_or_add_mapping_string mapping_value_node
set_or_add-none (node g ns) key value h p e =
    rw
      (
        h,
        e,
        h,
        value_at-append key ns (string_node key) (fresh scalar (codes "!!str") value) p,
        e,
        text_eq_refl key,
      )
      refl

-- What is set is read.
pub mapping_scalar-set :
    (m : Node) (key value : Text)
    → is_mapping m ≡ true
    → IsPaired (content m)
    → mapping_scalar (set_or_add_mapping_string m key value) key ≡ value
mapping_scalar-set m key value h p = go (value_at key (content m)) refl
  where
    go :
        (o : Option Node)
        → value_at key (content m) ≡ o
        → mapping_scalar (set_or_add_mapping_string m key value) key ≡ value
    go none e = set_or_add-none m key value h p e
    go (some v) e = set_or_add-some m key value v h e
