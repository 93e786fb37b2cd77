-- ===== src/Gitops/Statuses/Catalog.antt =====
-- The statuses of all components and versions of a catalog.
use forge_development_hub_cl.Base.{
  Bool, true, false, ◌&&◌, ◌≡◌, refl, sym, ◌∙◌, Option, none, some, [], Text, codes, text_eq,
  text_eq_iff, text_eq_refl, if◌then◌else◌, arith, Bool-cases, inl, inr,
}
use forge_development_hub_cl.Gitops.Node.{
  Node, content, is_mapping, is_sequence, value_at, mapping_scalar, document_root,
}
use forge_development_hub_cl.Gitops.Registry.{
  is_component, first_node, in_sequence, find_component_node, update_component_node, edit_component,
  prior_status,
}
use forge_development_hub_cl.Gitops.Statuses.{Fits, prior_status-edit, other_key, is_mapping-edit}
use forge_development_hub_cl.Gitops.Found.{
  first_node-holds, first_node-other, first_node-same, found_node, find-update, find-mapping,
}

unfoldable pub version_status_in : Text → Option Node → Text
unfolding prior_status
version_status_in version none = []
version_status_in version (some c) = prior_status version c

-- The status that the catalog records of a version of a component.
unfoldable pub version_status : Node → Text → Text → Text → Text
unfolding find_component_node version_status_in
version_status root kind name version =
    version_status_in version (find_component_node root kind name)

is_component-edit :
    (version status k n : Text) (c : Node)
    → Fits version c
    → is_mapping c ≡ true
    → is_component k n (edit_component version status c) ≡ is_component k n c
unfolding is_component text_eq
is_component-edit version status k n c fits m =
    rw
      (
        other_key version status (codes "kind") c fits refl,
        other_key version status (codes "name") c fits refl,
        is_mapping-edit version status c fits,
        m,
      )
      refl

is_component-mapping :
    (kind name : Text) (c : Node) → is_component kind name c ≡ true → is_mapping c ≡ true
unfolding is_component
is_component-mapping kind name c h = ground arith

pair-left : (a b c d : Text) → (text_eq a b && text_eq c d) ≡ true → a ≡ b
pair-left a b c d t = ground (arith, text_eq_iff a b)

pair-right : (a b c d : Text) → (text_eq a b && text_eq c d) ≡ true → c ≡ d
pair-right a b c d t = ground (arith, text_eq_iff c d)

if-false : (x y : Text) (a b c : Bool) → (a && b) ≡ false → (if a && b && c then x else y) ≡ y
if-false x y a b c t = ground arith

other-IsComponent :
    (kind name k n : Text) (c : Node)
    → is_component kind name c ≡ true
    → (text_eq kind k && text_eq name n) ≡ false
    → is_component k n c ≡ false
unfolding is_component
other-IsComponent kind name k n c h d = ground (
  arith,
  text_eq_iff (mapping_scalar c (codes "kind")) kind,
  text_eq_iff (mapping_scalar c (codes "kind")) k,
  text_eq_iff (mapping_scalar c (codes "name")) name,
  text_eq_iff (mapping_scalar c (codes "name")) n,
  text_eq_iff kind k,
  text_eq_iff name n,
)

find-in :
    (root comps : Node) (k n : Text)
    → is_mapping (document_root root) ≡ true
    → value_at (codes "components") (content (document_root root)) ≡ some comps
    → is_sequence comps ≡ true
    → find_component_node root k n ≡ first_node (is_component k n) (content comps)
unfolding in_sequence
find-in root comps k n m e s = rw (find-mapping root k n m, e, s) refl

version_status-same :
    (root c : Node) (kind name version status v : Text)
    → find_component_node root kind name ≡ some c
    → Fits version c
    → version_status
        (update_component_node kind name (edit_component version status) root)
        kind
        name
        v
      ≡ (if text_eq version v then status else version_status root kind name v)
unfolding version_status version_status_in
version_status-same root c kind name version status v e fits =
    let (comps, m, q, s, f) = found_node root kind name c e in
    let h = first_node-holds (is_component kind name) (content comps) c f in
    rw
      (
        find-update root comps kind name kind name (edit_component version status) m q s,
        first_node-same (is_component kind name) (edit_component version status) (content comps) c f
            (is_component-edit version status kind name c fits (is_component-mapping kind name c h)
              ∙ h),
        e,
      )
      (prior_status-edit version v status c fits)

version_status-other :
    (root c : Node) (kind name version status k n v : Text)
    → find_component_node root kind name ≡ some c
    → Fits version c
    → (text_eq kind k && text_eq name n) ≡ false
    → version_status (update_component_node kind name (edit_component version status) root) k n v
      ≡ version_status root k n v
unfolding version_status
version_status-other root c kind name version status k n v e fits d =
    let (comps, m, q, s, f) = found_node root kind name c e in
    let h = first_node-holds (is_component kind name) (content comps) c f in
    let o = other-IsComponent kind name k n c h d in
    rw
      (
        find-update root comps kind name k n (edit_component version status) m q s,
        first_node-other (is_component kind name) (is_component k n) (edit_component version status)
            (content comps) c f o
            (is_component-edit version status k n c fits (is_component-mapping kind name c h) ∙ o),
        find-in root comps k n m q s,
      )
      refl

-- If the component is found, and its entry is written the way that the code writes it, then
-- behind the write the catalog records the new status for the version of the component, and for
-- every other version and component what it recorded.
pub version_status-set :
    (root c : Node) (kind name version status k n v : Text)
    → find_component_node root kind name ≡ some c
    → Fits version c
    → version_status (update_component_node kind name (edit_component version status) root) k n v
      ≡ (if text_eq kind k && text_eq name n && text_eq version v
          then status
          else version_status root k n v)
version_status-set root c kind name version status k n v e fits =
    elim (Bool-cases (text_eq kind k && text_eq name n)) [
      | inl t ↦
          rw
            (
              ← pair-left kind k name n t,
              ← pair-right kind k name n t,
              text_eq_refl kind,
              text_eq_refl name,
            )
            (version_status-same root c kind name version status v e fits)
      | inr t ↦
          version_status-other root c kind name version status k n v e fits t
          ∙ sym (if-false _ _ (text_eq kind k) (text_eq name n) (text_eq version v) t)
    ]
