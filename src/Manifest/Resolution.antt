-- ===== src/Manifest/Resolution.antt =====
-- What `Expand` returns: pkg/consumermanifest/consumermanifest.go.
use forge_development_hub_cl.Base.{
  Bool, true, false, not, ◌&&◌, ◌||◌, ◌≡◌, ◌∙◌, ap, refl, sym, Option, none, some, List, [], ◌∷◌,
  Text, text_eq_iff, text_eq_refl, is_empty, any, arith, All, Bool-cases, inl, inr,
}
use forge_development_hub_cl.Base.PairMap
use forge_development_hub_cl.Base.PairMap.{PairMap, same_key}
use forge_development_hub_cl.Base.Sort.{sort, any-sort, All-sort}
use forge_development_hub_cl.Hub.{ComponentEntry, Registry, component_by_name}
use forge_development_hub_cl.Semver.{Constraint, parse_constraint, matches}
use forge_development_hub_cl.Manifest.{Entry, Extends, Manifest}
use forge_development_hub_cl.Manifest.Expand.{
  ResolvedComponent, HarnessMember, HarnessLookup, Components, unresolved, put_members,
  remove_entries, add_entries, put_explicit, apply_extends, explicit, Expansion, done, refused,
  ◌>>=◌, members, resolve, resolve_all, by_kind_name, expand,
}
use forge_development_hub_cl.Manifest.Wanted.{
  has, has-put, has-remove, has-cons, raw, raw-cons, raw-explicit, constraint_of, has-put_members,
  has-apply_extends, has-explicit, has-any, wanted, in_kind, added, removed, is_member,
}

-- Each component stands under its own key, once.
abbrev Keyed : Components → Type 0
Keyed [] = Unit
Keyed ((n, k, rc) ∷ set) = (rc.name ≡ n) × (rc.kind ≡ k) × (has n k set ≡ false) × Keyed set

same_key_sym : (a b n k : Text) → same_key a b n k ≡ same_key n k a b
same_key_sym a b n k =
    ground (arith, text_eq_iff a n, text_eq_iff b k, text_eq_iff n a, text_eq_iff k b)

Keyed-put :
    (n k : Text) (rc : ResolvedComponent) (set : Components)
    → rc.name ≡ n
    → rc.kind ≡ k
    → Keyed set
    → Keyed (PairMap.put n k rc set)
unfolding PairMap.put
Keyed-put n k rc [] a b h = (a, b, has-any n k [], tt)
Keyed-put n k rc ((n', k', w) ∷ m) a b (hn, hk, once, hs) = elim (Bool-cases (same_key n' k' n k)) [
  | inl e ↦ let (p, q) = keys e in rw e (a, b, rw (← p, ← q) once, hs)
  | inr e ↦ rw e (
    hn,
    hk,
    rw (has-put n k n' k' rc m, same_key_sym n k n' k', e) once,
    Keyed-put n k rc m a b hs,
  )
]
  where
    keys : same_key n' k' n k ≡ true → (n' ≡ n) × (k' ≡ k)
    keys e = ground (arith, text_eq_iff n' n, text_eq_iff k' k)

Keyed-remove : (n k : Text) (set : Components) → Keyed set → Keyed (PairMap.remove n k set)
unfolding PairMap.remove
Keyed-remove n k [] h = tt
Keyed-remove n k ((n', k', w) ∷ m) (hn, hk, once, hs) = elim (Bool-cases (same_key n' k' n k)) [
  | inl e ↦ rw e (Keyed-remove n k m hs)
  | inr e ↦ rw e (hn, hk, rw (has-remove n k n' k' m, once) (ground arith), Keyed-remove n k m hs)
]

-- The constraint of each component of the map is that of its name and kind.
abbrev Constrained : (Text → Text → Text) → Components → Type 0
Constrained f = All (λ (e : Text × Text × ResolvedComponent). e.2.constraint_raw ≡ f e.0 e.1)

same_key_refl : (n k : Text) → same_key n k n k ≡ true
same_key_refl n k = simp text_eq_refl

Keyed-Constrained :
    (f : Text → Text → Text) (set : Components)
    → Keyed set
    → ((a b : Text) → has a b set ≡ true → raw a b set ≡ f a b)
    → Constrained f set
Keyed-Constrained f [] h r = tt
Keyed-Constrained f ((n, k, rc) ∷ set) (hn, hk, once, hs) r = (
  ground (arith, r n k, has-cons n k n k rc set, raw-cons n k n k rc set, same_key_refl n k),
  Keyed-Constrained f set hs later,
)
  where
    keys : (a b : Text) → same_key n k a b ≡ true → (n ≡ a) × (k ≡ b)
    keys a b t = ground (arith, text_eq_iff n a, text_eq_iff k b)

    clash : false ≡ true → ⊥
    clash e = ground arith

    later : (a b : Text) → has a b set ≡ true → raw a b set ≡ f a b
    later a b e = elim (Bool-cases (same_key n k a b)) [
      | inl t ↦ let (p, q) = keys a b t in absurd (clash (sym once ∙ (rw (p, q) e)))
      | inr t ↦ ground (arith, r a b, has-cons n k a b rc set, raw-cons n k a b rc set)
    ]

Keyed-put_members :
    (ms : List HarnessMember) (set : Components) → Keyed set → Keyed (put_members ms set)
unfolding put_members
Keyed-put_members [] set h = h
Keyed-put_members (m ∷ ms) set h =
    Keyed-put_members ms _
      (Keyed-put m.name m.kind (unresolved m.name m.kind true []) set refl refl h)

Keyed-remove_entries :
    (kind : Text) (es : List Entry) (set : Components)
    → Keyed set
    → Keyed (remove_entries kind es set)
unfolding remove_entries
Keyed-remove_entries kind [] set h = h
Keyed-remove_entries kind (e ∷ es) set h =
    Keyed-remove_entries kind es _ (Keyed-remove e.name kind set h)

Keyed-add_entries :
    (kind : Text) (es : List Entry) (set : Components) → Keyed set → Keyed (add_entries kind es set)
unfolding add_entries
Keyed-add_entries kind [] set h = h
Keyed-add_entries kind (e ∷ es) set h =
    Keyed-add_entries kind es _
      (Keyed-put e.name kind (unresolved e.name kind false []) set refl refl h)

Keyed-put_explicit :
    (kind : Text) (es : List Entry) (set : Components)
    → Keyed set
    → Keyed (put_explicit kind es set)
unfolding put_explicit
Keyed-put_explicit kind [] set h = h
Keyed-put_explicit kind (e ∷ es) set h =
    Keyed-put_explicit kind es _
      (Keyed-put e.name kind (unresolved e.name kind false e.version) set refl refl h)

record IsKeyed (set : Components) : Type 0 where
  keys : Keyed set

IsKeyed-remove_entries :
    {set : Components} (kind : Text) (es : List Entry)
    → IsKeyed set
    → IsKeyed (remove_entries kind es set)
IsKeyed-remove_entries {set} kind es h = record { keys = Keyed-remove_entries kind es set h.keys }

IsKeyed-add_entries :
    {set : Components} (kind : Text) (es : List Entry)
    → IsKeyed set
    → IsKeyed (add_entries kind es set)
IsKeyed-add_entries {set} kind es h = record { keys = Keyed-add_entries kind es set h.keys }

IsKeyed-put_explicit :
    {set : Components} (kind : Text) (es : List Entry)
    → IsKeyed set
    → IsKeyed (put_explicit kind es set)
IsKeyed-put_explicit {set} kind es h = record { keys = Keyed-put_explicit kind es set h.keys }

IsKeyed-apply_extends :
    (x : Option Extends) (set : Components) → IsKeyed set → IsKeyed (apply_extends x set)
unfolding apply_extends
IsKeyed-apply_extends none set h = h
IsKeyed-apply_extends (some x) set h = search (IsKeyed-add_entries, IsKeyed-remove_entries) depth 10

IsKeyed-explicit : (m : Manifest) (set : Components) → IsKeyed set → IsKeyed (explicit m set)
unfolding explicit
IsKeyed-explicit m set h = search IsKeyed-put_explicit

-- The component has the manifest's constraint and the entry of the catalog; if that has a version,
-- it is the resolved one, and it satisfies the constraint.
abbrev pub IsResolved : Manifest → Registry → ResolvedComponent → Type 0
IsResolved m reg r =
    (r.constraint_raw ≡ constraint_of m r.name r.kind)
    × (entry : ComponentEntry) × (component_by_name reg r.name r.kind ≡ some entry)
    × (r.hub_entry ≡ some entry)
    × (is_empty entry.version ≡ false
        → (r.resolved_version ≡ entry.version)
          × ((c : Constraint) × (parse_constraint r.constraint_raw ≡ some c)
              × (matches c entry.version ≡ true)))

resolve-IsResolved :
    (m : Manifest) (reg : Registry) (rc r : ResolvedComponent)
    → rc.constraint_raw ≡ constraint_of m rc.name rc.kind
    → resolve reg rc ≡ done r
    → (r.name ≡ rc.name) × (r.kind ≡ rc.kind) × IsResolved m reg r
unfolding resolve
resolve-IsResolved m reg rc r hc h =
    go (component_by_name reg rc.name rc.kind) refl (parse_constraint rc.constraint_raw) refl
  where
    go :
        (o : Option ComponentEntry)
        → component_by_name reg rc.name rc.kind ≡ o
        → (p : Option Constraint) → parse_constraint rc.constraint_raw ≡ p
        → (r.name ≡ rc.name) × (r.kind ≡ rc.kind) × IsResolved m reg r
    go none e p f = absurd (ground arith)
    go (some entry) e none f = absurd (ground arith)
    go (some entry) e (some c) f = elim (Bool-cases (is_empty entry.version)) [
      | inl v ↦ (
        ground arith,
        ground arith,
        (ground arith, entry, ground arith, ground arith, λ w. absurd (ground arith)),
      )
      | inr v ↦ elim (Bool-cases (matches c entry.version)) [
        | inl i ↦ (
          ground arith,
          ground arith,
          (
            ground arith,
            entry,
            ground arith,
            ground arith,
            λ w. (ground arith, (c, ground arith, i)),
          ),
        )
        | inr i ↦ absurd (ground arith)
      ]
    ]

>>=-done {ℓ κ} :
    {A : Type ℓ} {B : Type κ} (m : Expansion A) (f : A → Expansion B) {b : B}
    → (m >>= f) ≡ done b
    → (a : A) × (m ≡ done a) × (f a ≡ done b)
>>=-done (done a) f h = (a, refl, h)
>>=-done (refused e) f h = cc

has-wanted :
    (m : Manifest) (ms : List HarnessMember) (n k : Text)
    → has n k (explicit m (apply_extends m.extends (put_members ms []))) ≡ wanted m ms n k
has-wanted m ms n k =
    has-explicit n k m _
    ∙ ap (λ (b : Bool). in_kind m.skills m.rules m.agents m.hooks n k || b)
        (has-apply_extends n k m.extends (put_members ms [])
          ∙ ap (λ (b : Bool). added m.extends n k || (not (removed m.extends n k) && b))
              (has-put_members n k ms [] ∙ no_more))
  where
    no_more : (is_member ms n k || has n k []) ≡ is_member ms n k
    no_more = ground (arith, has-any n k [])

-- The component has the name and the kind.
abbrev pub is_key : Text → Text → ResolvedComponent → Bool
is_key n k r = same_key r.name r.kind n k

resolve_all-IsResolved :
    (m : Manifest) (reg : Registry) (set : Components) (out : List ResolvedComponent)
    → Keyed set
    → Constrained (constraint_of m) set
    → resolve_all reg set ≡ done out
    → ((n k : Text) → any (is_key n k) out ≡ has n k set) × All (IsResolved m reg) out
unfolding resolve_all
resolve_all-IsResolved m reg [] out h hc e =
    let nil : out ≡ [] = ground arith in
    (λ n k. ap (any (is_key n k)) nil ∙ sym (has-any n k []), rw nil tt)
resolve_all-IsResolved m reg ((a, b, rc) ∷ set) out (ha, hb, once, hs) (hc, cs) e =
    let (r, er, e1) = >>=-done (resolve reg rc) _ e in
    let (rs, es, e2) = >>=-done (resolve_all reg set) _ e1 in
    let (rn, rk, resolved) =
      resolve-IsResolved m reg rc r
        (hc
          ∙ sym (ap (constraint_of m a) hb)
          ∙ sym (ap (λ (x : Text). constraint_of m x rc.kind) ha))
        er in
    let (keys, all) = resolve_all-IsResolved m reg set rs hs cs es in
    let cons : out ≡ r ∷ rs = ground arith in
    (
      λ n k.
          ap (any (is_key n k)) cons
          ∙ ap (λ (x : Text). same_key x r.kind n k || any (is_key n k) rs) (rn ∙ ha)
          ∙ ap (λ (x : Text). same_key a x n k || any (is_key n k) rs) (rk ∙ hb)
          ∙ ap (λ (x : Bool). same_key a b n k || x) (keys n k ∙ has-any n k set)
          ∙ sym (has-any n k ((a, b, rc) ∷ set)),
      rw cons (resolved, all),
    )

-- When the expansion succeeds, its components are exactly those that the manifest wants, given the
-- members of its harness. The constraint of each is the version of the last of the manifest's own
-- entries of its name and kind, and none if the harness or an extension alone brings it in; each
-- has the entry of the catalog, and the version of the entry, if it has one, satisfies the
-- constraint.
pub expand-wanted :
    (m : Manifest) (reg : Registry) (lookup : Option HarnessLookup) (out : List ResolvedComponent)
    → expand m reg lookup ≡ done out
    → (ms : List HarnessMember) × (members m lookup ≡ done ms)
      × ((n k : Text) → any (is_key n k) out ≡ wanted m ms n k)
      × All (IsResolved m reg) out
unfolding expand
expand-wanted m reg lookup out h =
    let (ms, em, e1) = >>=-done (members m lookup) _ h in
    let set : Components = explicit m (apply_extends m.extends (put_members ms [])) in
    let (rs, er, e2) = >>=-done (resolve_all reg set) _ e1 in
    let keyed =
      IsKeyed-explicit m _
        (IsKeyed-apply_extends m.extends _ (record { keys = Keyed-put_members ms [] tt })) in
    let (keys, all) =
      resolve_all-IsResolved m reg set rs keyed.keys
        (Keyed-Constrained (constraint_of m) set keyed.keys (λ a b e. raw-explicit a b m ms)) er in
    let sorted : out ≡ sort by_kind_name rs = ground arith in
    (
      ms,
      em,
      λ n k.
          ap (any (is_key n k)) sorted
          ∙ any-sort by_kind_name (is_key n k) rs
          ∙ keys n k
          ∙ has-wanted m ms n k,
      rw sorted (All-sort by_kind_name (IsResolved m reg) rs all),
    )
