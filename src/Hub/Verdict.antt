-- ===== src/Hub/Verdict.antt =====
-- When `Validate` has no finding: pkg/hubregistry/validate.go.
use forge_development_hub_cl.Base.{
  ℕ, ◌+◌, Bool, false, not, ◌&&◌, ◌≡◌, ◌↔◌, refl, Option, none, some, List, [], ◌∷◌, ◌++◌, map,
  Text, is_empty, if◌then◌else◌, ◌==◌, arith, any, All,
}
use forge_development_hub_cl.Base.Bytes.{text_eq_sym}
use forge_development_hub_cl.Kinds.{all_kinds, kind_dir}
use forge_development_hub_cl.Hub.{ComponentEntry, Registry, is_component}
use forge_development_hub_cl.Hub.Validate.{
  ValidationError, HubRoot, kind_errors, seen_key, name_errors, see, path_errors, agent_errors,
  semver_errors, entry_errors, orphans, find_orphans_by_kind, orphan_errors, disk_orphans, orphan,
  validate, catalog, schema_version,
}
use forge_development_hub_cl.Hub.Valid.{
  EntryOk, Distinct, DirsRegistered, NoOrphans, DiskRegistered, IsValidCatalog, append-nil_iff,
  kind_errors-nil, name_errors-nil, IsKind-kind_ok, path_errors-nil, agent_errors-nil,
  semver_errors-nil,
}

own_errors : Option HubRoot → ℕ → List (Text × Text) → ComponentEntry → List ValidationError
own_errors root i seen c =
    kind_errors i c
    ++ (name_errors i seen c ++ (path_errors i root c ++ (agent_errors i c ++ semver_errors i c)))

-- The findings of one entry, apart from the rest of the list.
split_entry :
    (root : Option HubRoot) (i : ℕ) (seen : List (Text × Text)) (c : ComponentEntry)
    (cs : List ComponentEntry)
    → (entry_errors root i seen (c ∷ cs) ≡ [])
      ↔ ((own_errors root i seen c ≡ []) × (entry_errors root (i + 1) (see seen c) cs ≡ []))
unfolding entry_errors own_errors
split_entry root i seen c cs =
    let rest = entry_errors root (i + 1) (see seen c) cs in
    ground (
      arith,
      append-nil_iff (kind_errors i c) (
          name_errors i seen c
          ++ (path_errors i root c ++ (agent_errors i c ++ (semver_errors i c ++ rest)))),
      append-nil_iff (name_errors i seen c)
          (path_errors i root c ++ (agent_errors i c ++ (semver_errors i c ++ rest))),
      append-nil_iff (path_errors i root c) (agent_errors i c ++ (semver_errors i c ++ rest)),
      append-nil_iff (agent_errors i c) (semver_errors i c ++ rest),
      append-nil_iff (semver_errors i c) rest,
      append-nil_iff (kind_errors i c) (
          name_errors i seen c
          ++ (path_errors i root c ++ (agent_errors i c ++ semver_errors i c))),
      append-nil_iff (name_errors i seen c)
          (path_errors i root c ++ (agent_errors i c ++ semver_errors i c)),
      append-nil_iff (path_errors i root c) (agent_errors i c ++ semver_errors i c),
      append-nil_iff (agent_errors i c) (semver_errors i c),
    )

own_errors-nil :
    (root : Option HubRoot) (i : ℕ) (seen : List (Text × Text)) (c : ComponentEntry)
    → (own_errors root i seen c ≡ []) ↔ (EntryOk root c × (seen_key seen c.name c.kind ≡ false))
unfolding own_errors
own_errors-nil root i seen c = (forward, backward)
  where
    parts : (own_errors root i seen c ≡ []) ↔ (
        (kind_errors i c ≡ [])
        × (name_errors i seen c ≡ [])
        × (path_errors i root c ≡ [])
        × (agent_errors i c ≡ [])
        × (semver_errors i c ≡ []))
    parts = ground (
      arith,
      append-nil_iff (kind_errors i c) (
          name_errors i seen c
          ++ (path_errors i root c ++ (agent_errors i c ++ semver_errors i c))),
      append-nil_iff (name_errors i seen c)
          (path_errors i root c ++ (agent_errors i c ++ semver_errors i c)),
      append-nil_iff (path_errors i root c) (agent_errors i c ++ semver_errors i c),
      append-nil_iff (agent_errors i c) (semver_errors i c),
    )

    forward : own_errors root i seen c ≡ [] → EntryOk root c × (seen_key seen c.name c.kind ≡ false)
    forward h =
        let p = parts.0 h in
        let k = (kind_errors-nil i c).0 p.0 in
        let n = (name_errors-nil i seen c).0 p.1 in
        let d = (path_errors-nil i root c (IsKind-kind_ok c.kind k)).0 p.2 in
        (
          record {
            kind = k;
            named = n.0;
            kebab = n.1;
            placed = d.0;
            coherent = d.1;
            on_disk = d.2;
            agents = (agent_errors-nil i c).0 p.3;
            version = (semver_errors-nil i c).0 p.4;
          },
          n.2,
        )

    backward :
        EntryOk root c × (seen_key seen c.name c.kind ≡ false) → own_errors root i seen c ≡ []
    backward (e, s) = parts.1 (
      (kind_errors-nil i c).1 e.kind,
      (name_errors-nil i seen c).1 (e.named, e.kebab, s),
      (path_errors-nil i root c (IsKind-kind_ok c.kind e.kind)).1 (e.placed, e.coherent, e.on_disk),
      (agent_errors-nil i c).1 e.agents,
      (semver_errors-nil i c).1 e.version,
    )

-- No component has a key that was seen.
abbrev Fresh : List (Text × Text) → List ComponentEntry → Type 0
Fresh seen cs = All (λ (c : ComponentEntry). seen_key seen c.name c.kind ≡ false) cs

Fresh-cons :
    (name kind : Text) (seen : List (Text × Text)) (cs : List ComponentEntry)
    → Fresh ((name, kind) ∷ seen) cs ↔ ((any (is_component name kind) cs ≡ false) × Fresh seen cs)
Fresh-cons name kind seen [] = ground arith
Fresh-cons name kind seen (c ∷ cs) =
    ground (arith, Fresh-cons name kind seen cs, text_eq_sym name c.name, text_eq_sym kind c.kind)

see-fresh :
    (seen : List (Text × Text)) (c : ComponentEntry)
    → is_empty c.name ≡ false
    → seen_key seen c.name c.kind ≡ false
    → see seen c ≡ (c.name, c.kind) ∷ seen
unfolding see
see-fresh seen c n s = ground arith

entry_errors-nil :
    (root : Option HubRoot) (i : ℕ) (seen : List (Text × Text)) (cs : List ComponentEntry)
    → (entry_errors root i seen cs ≡ []) ↔ (All (EntryOk root) cs × Fresh seen cs × Distinct cs)
unfolding entry_errors
entry_errors-nil root i seen [] = (λ h. (tt, tt, tt), λ h. refl)
entry_errors-nil root i seen (c ∷ cs) = (
  λ h.
      let (own, rest) = (split_entry root i seen c cs).0 h in
      let (e, s) = (own_errors-nil root i seen c).0 own in
      let (es, fresh, distinct) = (entry_errors-nil root (i + 1) (see seen c) cs).0 rest in
      let (unlike, fresh') =
        (Fresh-cons c.name c.kind seen cs).0 (rw (see-fresh seen c e.named s) at fresh) in
      ((e, es), (s, fresh'), (unlike, distinct)),
  λ ((e, es), (s, fresh), (unlike, distinct)). (split_entry root i seen c cs).1 (
    (own_errors-nil root i seen c).1 (e, s),
    (entry_errors-nil root (i + 1) (see seen c) cs).1 (
      es,
      rw (see-fresh seen c e.named s) ((Fresh-cons c.name c.kind seen cs).1 (unlike, fresh)),
      distinct,
    ),
  ),
)

orphans-nil :
    (kind : Text) (cs : List ComponentEntry) (dir : Text) (es : List (Text × Bool))
    → (orphans kind cs dir es ≡ []) ↔ DirsRegistered kind cs dir es
unfolding orphans
orphans-nil kind cs dir [] = (λ h. tt, λ h. refl)
orphans-nil kind cs dir ((name, is_dir) ∷ es) = ground (arith, orphans-nil kind cs dir es)

find_orphans-nil :
    (root : HubRoot) (kind : Text) (cs : List ComponentEntry)
    → is_empty (kind_dir kind) ≡ false
    → (find_orphans_by_kind root kind cs ≡ []) ↔ NoOrphans root cs kind
unfolding find_orphans_by_kind
find_orphans-nil root kind cs given = (
  λ h entries e. (orphans-nil kind cs (kind_dir kind) entries).0 (ground arith),
  λ h. backward (root.read_dir (kind_dir kind)) refl h,
)
  where
    backward :
        (o : Option (List (Text × Bool)))
        → root.read_dir (kind_dir kind) ≡ o
        → NoOrphans root cs kind
        → find_orphans_by_kind root kind cs ≡ []
    backward none e h = ground arith
    backward (some entries) e h =
        ground (arith, (orphans-nil kind cs (kind_dir kind) entries).1 (h entries e))

map-nil_iff : (xs : List Text) → (map orphan xs ≡ []) ↔ (xs ≡ [])
map-nil_iff [] = ground arith
map-nil_iff (x ∷ xs) = ground arith

orphan_errors-nil :
    (root : HubRoot) (kinds : List Text) (cs : List ComponentEntry)
    → All (λ kind. is_empty (kind_dir kind) ≡ false) kinds
    → (orphan_errors root kinds cs ≡ []) ↔ All (NoOrphans root cs) kinds
unfolding orphan_errors
orphan_errors-nil root [] cs given = (λ h. tt, λ h. refl)
orphan_errors-nil root (kind ∷ kinds) cs (g, gs) =
    let a =
      append-nil_iff (map orphan (find_orphans_by_kind root kind cs))
        (orphan_errors root kinds cs) in
    let m = map-nil_iff (find_orphans_by_kind root kind cs) in
    let f = find_orphans-nil root kind cs g in
    let r = orphan_errors-nil root kinds cs gs in
    (λ h. (f.0 (m.0 (a.0 h).0), r.0 (a.0 h).1), λ h. a.1 (m.1 (f.1 h.0), r.1 h.1))

disk_orphans-nil :
    (root : Option HubRoot) (cs : List ComponentEntry)
    → (disk_orphans root cs ≡ []) ↔ DiskRegistered root cs
unfolding kind_dir
disk_orphans-nil none cs = (λ h. tt, λ h. refl)
disk_orphans-nil (some root) cs =
    orphan_errors-nil root all_kinds cs (refl, (refl, (refl, (refl, tt))))

nothing-seen : (cs : List ComponentEntry) → Fresh [] cs
nothing-seen [] = tt
nothing-seen (c ∷ cs) = (refl, nothing-seen cs)

-- A catalog has no finding exactly if its schema version is 1 or 2, every entry is proper, no two
-- share name and kind, and every directory of a kind below the root is registered.
pub validate-IsValidCatalog :
    (r : Registry) (root : Option HubRoot) → (validate r root ≡ []) ↔ IsValidCatalog root r
unfolding validate
validate-IsValidCatalog r root = (
  λ h.
      let e = entries.0 (later.0 (all_parts.0 h).1).0 in
      record {
        schema = ground (arith, (all_parts.0 h).0);
        entries = e.0;
        distinct = e.2;
        disk = (disk_orphans-nil root r.components).0 (later.0 (all_parts.0 h).1).1;
      },
  λ v. all_parts.1 (
    ground (arith, v.schema),
    later.1 (
      entries.1 (v.entries, nothing-seen r.components, v.distinct),
      (disk_orphans-nil root r.components).1 v.disk,
    ),
  ),
)
  where
    schema_errors : List ValidationError
    schema_errors =
        if not (r.schema_version == 1) && not (r.schema_version == 2)
        then record { rule = schema_version; location = catalog } ∷ []
        else []

    all_parts :
        (schema_errors ++ (entry_errors root 0 [] r.components ++ disk_orphans root r.components)
          ≡ [])
        ↔ ((schema_errors ≡ [])
            × (entry_errors root 0 [] r.components ++ disk_orphans root r.components ≡ []))
    all_parts =
        append-nil_iff schema_errors
          (entry_errors root 0 [] r.components ++ disk_orphans root r.components)

    later :
        (entry_errors root 0 [] r.components ++ disk_orphans root r.components ≡ [])
        ↔ ((entry_errors root 0 [] r.components ≡ []) × (disk_orphans root r.components ≡ []))
    later = append-nil_iff (entry_errors root 0 [] r.components) (disk_orphans root r.components)

    entries :
        (entry_errors root 0 [] r.components ≡ [])
        ↔ (All (EntryOk root) r.components × Fresh [] r.components × Distinct r.components)
    entries = entry_errors-nil root 0 [] r.components
