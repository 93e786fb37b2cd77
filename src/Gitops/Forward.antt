-- ===== src/Gitops/Forward.antt =====
-- The lifecycle of a version over any number of transitions:
-- internal/portalapi/gitops/registry_edit.go.
use forge_development_hub_cl.Base.{
  none, Option, ℕ, [], ◌∷◌, true, ◌≡◌, refl, ◌⊎◌, inl, inr, some, Text, codes, is_empty, Bool-cases,
  text_eq, text_eq_iff, ◌&&◌, arith, if◌then◌else◌,
}
use forge_development_hub_cl.Gitops.Node.{Node}
use forge_development_hub_cl.Gitops.Registry.{
  rank, lifecycle_allowed, find_component_node, update_component_node, edit_component,
}
use forge_development_hub_cl.Gitops.Statuses.{Fits}
use forge_development_hub_cl.Gitops.Statuses.Catalog.{version_status, version_status-set}

-- One transition of one version.
pub data Moved (old : Node) : Node → Type 0 where
  moved :
      (c : Node) (kind name version target : Text)
      → find_component_node old kind name ≡ some c
      → Fits version c
      → lifecycle_allowed (version_status old kind name version) target ≡ true
      → Moved old (update_component_node kind name (edit_component version target) old)

pub data Reached (old : Node) : Node → Type 0 where
  start : Reached old old
  after : {mid new : Node} → Reached old mid → Moved mid new → Reached old new

allowed_trans :
    (a b c : Text)
    → lifecycle_allowed a b ≡ true
    → lifecycle_allowed b c ≡ true
    → lifecycle_allowed a c ≡ true
unfolding lifecycle_allowed
allowed_trans a b c h k = ground arith

together :
    (a b c d e f : Text)
    → (text_eq a b && text_eq c d && text_eq e f) ≡ true
    → (a ≡ b) × (c ≡ d) × (e ≡ f)
together a b c d e f t = ground (arith, text_eq_iff a b, text_eq_iff c d, text_eq_iff e f)

Moved-forward :
    {old new : Node} (k n v : Text)
    → Moved old new
    → (version_status new k n v ≡ version_status old k n v)
      ⊎ (lifecycle_allowed (version_status old k n v) (version_status new k n v) ≡ true)
Moved-forward {old = old} k n v (moved c kind name version target e fits allowed) =
    let set = version_status-set old c kind name version target k n v e fits in
    elim (Bool-cases (text_eq kind k && text_eq name n && text_eq version v)) [
      | inl t ↦
          let (p, q, r) = together kind k name n version v t in
          inr (rw (set, t, ← p, ← q, ← r) allowed)
      | inr t ↦ inl (rw (set, t) refl)
    ]

Reached-allowed :
    {old new : Node} (k n v : Text)
    → Reached old new
    → (version_status new k n v ≡ version_status old k n v)
      ⊎ (lifecycle_allowed (version_status old k n v) (version_status new k n v) ≡ true)
Reached-allowed k n v start = inl refl
Reached-allowed {old = old} {new = new} k n v (after {mid = mid} r m) =
    elim (Reached-allowed k n v r) [
      | inl same ↦ rw⁻¹ same (Moved-forward k n v m)
      | inr before ↦ elim (Moved-forward k n v m) [
        | inl same ↦ inr (rw same before)
        | inr then_ ↦ inr (
            allowed_trans (version_status old k n v) (version_status mid k n v)
              (version_status new k n v) before then_)
      ]
    ]

abbrev pub IsActive : Text → Type 0
IsActive t = (t ≡ []) ⊎ (t ≡ codes "active")

-- From no status or `active` to `deprecated`, or from one of these three to `yanked`.
abbrev pub IsForward : Text → Text → Type 0
IsForward from to =
    ((to ≡ codes "deprecated") × IsActive from)
    ⊎ ((to ≡ codes "yanked") × (IsActive from ⊎ (from ≡ codes "deprecated")))

-- What the rank says of a status.
abbrev IsRanked : Text → Option ℕ → Type 0
IsRanked t o =
    (((o ≡ some 0) × IsActive t) ⊎ ((o ≡ some 1) × (t ≡ codes "deprecated")))
    ⊎ (((o ≡ some 2) × (t ≡ codes "yanked")) ⊎ (o ≡ none))

rank-IsRanked : (t : Text) → IsRanked t (rank t)
unfolding rank
rank-IsRanked t = elim (Bool-cases (text_eq t (codes "active"))) [
  | inl a ↦ rw a (inl (inl (refl, inr ((text_eq_iff t _).0 a))))
  | inr a ↦ elim (Bool-cases (text_eq t (codes "deprecated"))) [
    | inl d ↦ rw (a, d) (inl (inr (refl, (text_eq_iff t _).0 d)))
    | inr d ↦ elim (Bool-cases (text_eq t (codes "yanked"))) [
      | inl y ↦ rw (a, d, y) (inr (inl (refl, (text_eq_iff t _).0 y)))
      | inr y ↦ rw (a, d, y) (blank t)
    ]
  ]
]
  where
    blank : (t : Text) → IsRanked t (if is_empty t then some 0 else none)
    blank [] = inl (inl (refl, inl refl))
    blank (c ∷ t) = inr (inr refl)

allowed-IsForward : (from to : Text) → lifecycle_allowed from to ≡ true → IsForward from to
unfolding lifecycle_allowed
allowed-IsForward from to h = go (rank-IsRanked from) (rank-IsRanked to)
  where
    go : IsRanked from (rank from) → IsRanked to (rank to) → IsForward from to
    go (inl (inl (p, a))) (inl (inr (q, d))) = inl (d, a)
    go (inl (inl (p, a))) (inr (inl (q, y))) = inr (y, inl a)
    go (inl (inr (p, d))) (inr (inl (q, y))) = inr (y, inr d)
    go (inl (inl (p, a))) (inl (inl (q, b))) = absurd (ground arith)
    go (inl (inr (p, a))) (inl (inl (q, b))) = absurd (ground arith)
    go (inl (inr (p, a))) (inl (inr (q, b))) = absurd (ground arith)
    go (inr (inl (p, a))) (inl (inl (q, b))) = absurd (ground arith)
    go (inr (inl (p, a))) (inl (inr (q, b))) = absurd (ground arith)
    go (inr (inl (p, a))) (inr (inl (q, b))) = absurd (ground arith)
    go x (inr (inr q)) = absurd (ground arith)
    go (inr (inr p)) y = absurd (ground arith)

-- However many transitions lead from one catalog to another: the status of a version is the one
-- that it was, or `deprecated` where it was none or `active`, or `yanked` where it was none,
-- `active` or `deprecated`; so no version goes back.
pub Reached-IsForward :
    {old new : Node} (k n v : Text)
    → Reached old new
    → (version_status new k n v ≡ version_status old k n v)
      ⊎ IsForward (version_status old k n v) (version_status new k n v)
Reached-IsForward {old = old} {new = new} k n v r = elim (Reached-allowed k n v r) [
  | inl same ↦ inl same
  | inr h ↦ inr (allowed-IsForward (version_status old k n v) (version_status new k n v) h)
]
