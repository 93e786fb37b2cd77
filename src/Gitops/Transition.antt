-- ===== src/Gitops/Transition.antt =====
-- The lifecycle change of `ComposeCurate`: internal/portalapi/gitops/compose_curate.go.
use forge_development_hub_cl.Base.{
  Bool, true, false, ◌≡◌, refl, ◌∙◌, sym, ap, Option, none, some, [], ◌∷◌, Text, text_eq_refl,
  arith,
}
use forge_development_hub_cl.Gitops.Node.{Node}
use forge_development_hub_cl.Gitops.Registry.{
  lifecycle_allowed, find_component_node, update_component_node, edit_component, prior_status,
  set_version_status, Edited, edited, not_edited, printed,
}
use forge_development_hub_cl.Gitops.Client.{Early, leave, go_on, ◌>>=◌, guard, edit_done, lifecycle}
use forge_development_hub_cl.Gitops.Curate.{Change, hub_registry_path, changed, lifecycle_change}
use forge_development_hub_cl.Gitops.Statuses.{Fits}
use forge_development_hub_cl.Gitops.Statuses.Catalog.{
  version_status, version_status_in, version_status-set,
}
use forge_development_hub_cl.Gitops.Forward.{Moved, moved}

-- The steps of the change: two guards, the probe, the guard on what it found, and the edit.
abbrev steps :
    Bool → Bool → Edited (Text × Text) → (Text → Bool) → (Text × Text → Change) → Early Change
steps known versioned e allowed made = do
  a ← guard known lifecycle
  b ← guard versioned lifecycle
  probed ← edit_done e
  x ← guard (allowed probed.1) lifecycle
  reg ← edit_done e
  go_on (made reg)

change_of : Change → Early Change → Change
change_of d (leave o) = d
change_of d (go_on c) = c

-- The first alternative of a guard, by the way that it goes on.
allowed_on :
    (b : Bool) (d ch : Change)
    → (guard b lifecycle >>= λ x. go_on d) ≡ go_on ch
    → (b ≡ true) × (d ≡ ch)
unfolding change_of
allowed_on true d ch e = (refl, ap (change_of ch) e)
allowed_on false d ch e = ground arith

steps-passed :
    (known versioned : Bool) (e : Edited (Text × Text)) (allowed : Text → Bool)
    (made : Text × Text → Change) (ch : Change)
    → steps known versioned e allowed made ≡ go_on ch
    → (r : Text × Text) × (e ≡ edited r) × (allowed r.1 ≡ true) × (made r ≡ ch)
steps-passed true true (edited r) allowed made ch h =
    let (yes_, same) = allowed_on (allowed r.1) (made r) ch h in (r, refl, yes_, same)
steps-passed true true (not_edited x) allowed made ch h = ground arith
steps-passed true false e allowed made ch h = ground arith
steps-passed false versioned e allowed made ch h = ground arith

status-found :
    (kind name version : Text) (old c : Node)
    → find_component_node old kind name ≡ some c
    → version_status old kind name version ≡ prior_status version c
unfolding version_status version_status_in
status-found kind name version old c f = rw f refl

module _ (parse : Text → Option Node) (print : Node → Option Text) where
  set_version_status-found :
      (reg_data kind name version target : Text) (old c : Node)
      → parse reg_data ≡ some old
      → find_component_node old kind name ≡ some c
      → set_version_status parse print reg_data kind name version target
        ≡ printed parse print
            (prior_status version c)
            (print (update_component_node kind name (edit_component version target) old))
  unfolding set_version_status edit_component update_component_node prior_status
  set_version_status-found reg_data kind name version target old c e f = rw (e, f) refl

  printed-edited :
      (prior : Text) (o : Option Text) (r : Text × Text)
      → printed parse print prior o ≡ edited r
      → (out : Text) × (o ≡ some out) × (r ≡ (out, prior))
  printed-edited prior none r h = ground arith
  printed-edited prior (some out) r h = (out, refl, ground arith)

  -- If the catalog parses and has the component, with an entry that is written the way that the
  -- code writes it, then a lifecycle change that is proposed consists of one file, the printed
  -- catalog behind one transition of the lifecycle, which records the target as the status of the
  -- version.
  pub lifecycle_change-Moved :
      (reg_data kind name version target : Text) (old c : Node) (ch : Change)
      → parse reg_data ≡ some old
      → find_component_node old kind name ≡ some c
      → Fits version c
      → lifecycle_change parse print reg_data kind name version target ≡ go_on ch
      → (new : Node) × (out : Text) × Moved old new
        × (version_status new kind name version ≡ target)
        × (print new ≡ some out)
        × (ch.files ≡ changed hub_registry_path out ∷ [])
  unfolding lifecycle_change
  lifecycle_change-Moved reg_data kind name version target old c ch e f fits h =
      let new = update_component_node kind name (edit_component version target) old in
      let (r, done, allowed, made) =
        steps-passed _ _ (set_version_status parse print reg_data kind name version target)
          (λ p. lifecycle_allowed p target) _ ch h in
      let (out, prints, same) =
        printed-edited (prior_status version c) (print new) r
          (sym (set_version_status-found reg_data kind name version target old c e f) ∙ done) in
      (
        new,
        out,
        moved c kind name version target f fits (
            rw (status-found kind name version old c f, ← ap (λ (p : Text × Text). p.1) same)
              allowed),
        rw
            (
              version_status-set old c kind name version target kind name version f fits,
              text_eq_refl kind,
              text_eq_refl name,
              text_eq_refl version,
            )
            refl,
        prints,
        rw⁻¹ made (rw same refl),
      )
