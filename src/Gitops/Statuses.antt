-- ===== src/Gitops/Statuses.antt =====
-- The status of a version behind a write: internal/portalapi/gitops/registry_edit.go.
pub mod Catalog
use forge_development_hub_cl.Base.{
  Bool, true, false, not, ◌&&◌, ◌≡◌, refl, sym, ap, ◌∙◌, Option, none, some, [], Text, codes,
  text_eq, text_eq_refl, text_eq_iff, if◌then◌else◌, arith, Bool-cases, inl, inr,
}
use forge_development_hub_cl.Gitops.Node.{
  Head, Node, Nodes, node, end, more, head, content, value_of, is_mapping, is_sequence, append,
  string_node, mapping_node, value_at, update_at, mapping_value_node, mapping_scalar,
  set_or_add_mapping_string, document_root, update_root, is_wrapper,
}
use forge_development_hub_cl.Gitops.Node.Lookups.{
  IsPaired, mapped, or_else, value_at-update_at, value_at-update_other, value_at-append,
  mapping_value_node-mapping, mapping_scalar-set,
}
use forge_development_hub_cl.Gitops.Registry.{
  is_component, first_node, update_first, in_sequence, find_component_node, at_content,
  update_component_node, with_versions, put_status, put_entry, edit_component, status_in,
  or_mapping, prior_status,
}

-- What a write needs of an entry: keys and values alternate, and an entry is a mapping.
abbrev EntryFits : Option Node → Type 0
EntryFits none = Unit
EntryFits (some e) = (is_mapping e ≡ true) × IsPaired (content e)

abbrev VersionsFit : Text → Option Node → Type 0
unfolding value_at
VersionsFit version none = Unit
VersionsFit version (some v) = IsPaired (content v) × EntryFits (value_at version (content v))

unfoldable pub Fits : Text → Node → Type 0
unfolding value_at
Fits version comp =
    (is_mapping comp ≡ true)
    × IsPaired (content comp)
    × VersionsFit version (value_at (codes "versions") (content comp))

-- The status of one version below `versions`.
status_at : Text → Node → Text
unfolding value_at mapping_scalar
status_at version versions =
    mapping_scalar (or_mapping (value_at version (content versions))) (codes "status")

pub or_else-none : (o : Option Node) → or_else o none ≡ o
or_else-none none = refl
or_else-none (some v) = refl

status_at-put_new :
    (version other status : Text) (v : Node)
    → IsPaired (content v)
    → value_at version (content v) ≡ none
    → status_at other (put_status version status v)
      ≡ (if text_eq version other then status else status_at other v)
unfolding status_at put_status put_entry
status_at-put_new version other status (node g ns) p e =
    let appended =
      value_at-append other ns (string_node version)
        (set_or_add_mapping_string mapping_node (codes "status") status) p in
    elim (Bool-cases (text_eq version other)) [
      | inl t ↦
          let q = (text_eq_iff version other).0 t in
          rw (e, appended, ← q, e, text_eq_refl version)
            (mapping_scalar-set mapping_node (codes "status") status refl tt)
      | inr t ↦ rw (e, appended, t, or_else-none (value_at other ns)) refl
    ]

status_at-put_old :
    (version other status : Text) (v w : Node)
    → is_mapping w ≡ true
    → IsPaired (content w)
    → value_at version (content v) ≡ some w
    → status_at other (put_status version status v)
      ≡ (if text_eq version other then status else status_at other v)
unfolding status_at put_status put_entry
status_at-put_old version other status (node g ns) w m p e =
    elim (Bool-cases (text_eq version other)) [
      | inl t ↦
          let q = (text_eq_iff version other).0 t in
          rw
            (
              e,
              ← q,
              value_at-update_at version (λ x. set_or_add_mapping_string x (codes "status") status)
                  ns,
              e,
              text_eq_refl version,
            )
            (mapping_scalar-set w (codes "status") status m p)
      | inr t ↦
          rw
            (
              e,
              value_at-update_other version other
                  (λ x. set_or_add_mapping_string x (codes "status") status) ns t,
              t,
            )
            refl
    ]

status_at-put :
    (version other status : Text) (v : Node)
    → IsPaired (content v)
    → EntryFits (value_at version (content v))
    → status_at other (put_status version status v)
      ≡ (if text_eq version other then status else status_at other v)
status_at-put version other status v p fits = go (value_at version (content v)) refl fits
  where
    go :
        (o : Option Node)
        → value_at version (content v) ≡ o
        → EntryFits o
        → status_at other (put_status version status v)
          ≡ (if text_eq version other then status else status_at other v)
    go none e h = status_at-put_new version other status v p e
    go (some w) e (m, q) = status_at-put_old version other status v w m q e

edit-absent :
    (version status : Text) (g : Head) (ns : Nodes)
    → is_mapping (node g ns) ≡ true
    → value_at (codes "versions") ns ≡ none
    → edit_component version status (node g ns)
      ≡ node g (
          update_at
            (codes "versions")
            (put_status version status)
            (append ns (more (string_node (codes "versions")) (more mapping_node end))))
unfolding edit_component with_versions mapping_value_node
edit-absent version status g ns m e = rw (m, e) refl

edit-there :
    (version status : Text) (g : Head) (ns : Nodes) (v : Node)
    → is_mapping (node g ns) ≡ true
    → value_at (codes "versions") ns ≡ some v
    → edit_component version status (node g ns)
      ≡ node g (update_at (codes "versions") (put_status version status) ns)
unfolding edit_component with_versions mapping_value_node
edit-there version status g ns v m e = rw (m, e) refl

prior-some :
    (version : Text) (comp v : Node)
    → is_mapping comp ≡ true
    → value_at (codes "versions") (content comp) ≡ some v
    → prior_status version comp ≡ status_at version v
unfolding prior_status mapping_value_node status_in status_at
prior-some version comp v m e = rw (m, e) refl

prior-none :
    (version : Text) (comp : Node)
    → is_mapping comp ≡ true
    → value_at (codes "versions") (content comp) ≡ none
    → prior_status version comp ≡ []
unfolding prior_status mapping_value_node status_in
prior-none version comp m e = rw (m, e) refl

appended-versions :
    (ns : Nodes)
    → IsPaired ns
    → value_at (codes "versions") ns ≡ none
    → value_at
        (codes "versions")
        (append ns (more (string_node (codes "versions")) (more mapping_node end)))
      ≡ some mapping_node
appended-versions ns p e =
    value_at-append (codes "versions") ns (string_node (codes "versions")) mapping_node p
    ∙ rw (e, text_eq_refl (codes "versions")) refl

prior-absent :
    (version other status : Text) (comp : Node)
    → is_mapping comp ≡ true
    → IsPaired (content comp)
    → value_at (codes "versions") (content comp) ≡ none
    → prior_status other (edit_component version status comp)
      ≡ (if text_eq version other then status else prior_status other comp)
unfolding status_at
prior-absent version other status (node g ns) m p e =
    let found =
      value_at-update_at (codes "versions") (put_status version status)
        (append ns (more (string_node (codes "versions")) (more mapping_node end)))
      ∙ ap (mapped (put_status version status)) (appended-versions ns p e) in
    rw
      (
        edit-absent version status g ns m e,
        prior-none other (node g ns) m e,
        prior-some other _ _ m found,
      )
      (status_at-put version other status mapping_node tt tt)

prior-there :
    (version other status : Text) (comp v : Node)
    → is_mapping comp ≡ true
    → value_at (codes "versions") (content comp) ≡ some v
    → IsPaired (content v)
    → EntryFits (value_at version (content v))
    → prior_status other (edit_component version status comp)
      ≡ (if text_eq version other then status else prior_status other comp)
prior-there version other status (node g ns) v m e p fits =
    let found =
      value_at-update_at (codes "versions") (put_status version status) ns
      ∙ ap (mapped (put_status version status)) e in
    rw
      (
        edit-there version status g ns v m e,
        prior-some other (node g ns) v m e,
        prior-some other (node g (update_at (codes "versions") (put_status version status) ns)) _ m
            found,
      )
      (status_at-put version other status v p fits)

-- The status below one component.
pub prior_status-edit :
    (version other status : Text) (comp : Node)
    → Fits version comp
    → prior_status other (edit_component version status comp)
      ≡ (if text_eq version other then status else prior_status other comp)
unfolding Fits
prior_status-edit version other status comp (m, p, fits) =
    go (value_at (codes "versions") (content comp)) refl fits
  where
    go :
        (o : Option Node)
        → value_at (codes "versions") (content comp) ≡ o
        → VersionsFit version o
        → prior_status other (edit_component version status comp)
          ≡ (if text_eq version other then status else prior_status other comp)
    go none e h = prior-absent version other status comp m p e
    go (some v) e (q, h) = prior-there version other status comp v m e q h

pub other_key :
    (version status key : Text) (comp : Node)
    → Fits version comp
    → text_eq (codes "versions") key ≡ false
    → mapping_scalar (edit_component version status comp) key ≡ mapping_scalar comp key
unfolding edit_component with_versions mapping_scalar mapping_value_node Fits
other_key version status key (node g ns) (m, p, fits) h = go (value_at (codes "versions") ns) refl
  where
    go :
        (o : Option Node)
        → value_at (codes "versions") ns ≡ o
        → mapping_scalar (edit_component version status (node g ns)) key
          ≡ mapping_scalar (node g ns) key
    go none e =
        rw
          (
            edit-absent version status g ns m e,
            value_at-update_other (codes "versions") key (put_status version status)
                (append ns (more (string_node (codes "versions")) (more mapping_node end))) h,
            value_at-append key ns (string_node (codes "versions")) mapping_node p,
            h,
            or_else-none (value_at key ns),
          )
          refl
    go (some v) e =
        rw
          (
            edit-there version status g ns v m e,
            value_at-update_other (codes "versions") key (put_status version status) ns h,
          )
          refl

pub is_mapping-edit :
    (version status : Text) (comp : Node)
    → Fits version comp
    → is_mapping (edit_component version status comp) ≡ true
unfolding Fits
is_mapping-edit version status (node g ns) (m, p, fits) = go (value_at (codes "versions") ns) refl
  where
    go :
        (o : Option Node)
        → value_at (codes "versions") ns ≡ o
        → is_mapping (edit_component version status (node g ns)) ≡ true
    go none e = rw (edit-absent version status g ns m e) m
    go (some v) e = rw (edit-there version status g ns v m e) m
