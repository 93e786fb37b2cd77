-- ===== src/Manifest/Wanted.antt =====
-- Which components are in the map that `Expand` builds before it resolves them.
use forge_development_hub_cl.Base.{
  Bool, true, false, not, ◌&&◌, ◌||◌, ◌≡◌, ◌∙◌, refl, Option, none, some, List, [], ◌∷◌, Text,
  text_eq, any, arith, if◌then◌else◌,
}
use forge_development_hub_cl.Base.PairMap
use forge_development_hub_cl.Base.PairMap.{PairMap, same_key}
use forge_development_hub_cl.Kinds.{kind_skill, kind_rule, kind_agent, kind_hook}
use forge_development_hub_cl.Manifest.{Entry, Extends, Manifest}
use forge_development_hub_cl.Manifest.Expand.{
  ResolvedComponent, HarnessMember, Components, unresolved, put_members, remove_entries,
  add_entries, put_explicit, apply_extends, explicit,
}

abbrev is_some {ℓ} : {A : Type ℓ} → Option A → Bool
is_some none = false
is_some (some a) = true

pub has : Text → Text → Components → Bool
has n k set = is_some (PairMap.get n k set)

-- An entry of the list has the name.
abbrev pub listed : List Entry → Text → Bool
listed es n = any (λ (e : Entry). text_eq e.name n) es

abbrev pub is_member : List HarnessMember → Text → Text → Bool
is_member ms n k = any (λ (m : HarnessMember). same_key m.name m.kind n k) ms

pub has-put :
    (a b n k : Text) (rc : ResolvedComponent) (set : Components)
    → has n k (PairMap.put a b rc set) ≡ (same_key a b n k || has n k set)
unfolding has
has-put a b n k rc set = ground (arith, PairMap.get-put a b n k rc set)

pub has-remove :
    (a b n k : Text) (set : Components)
    → has n k (PairMap.remove a b set) ≡ (not (same_key a b n k) && has n k set)
unfolding has
has-remove a b n k set = ground (arith, PairMap.get-remove a b n k set)

pub has-put_members :
    (n k : Text) (ms : List HarnessMember) (set : Components)
    → has n k (put_members ms set) ≡ (is_member ms n k || has n k set)
unfolding put_members
has-put_members n k [] set = refl
has-put_members n k (m ∷ ms) set =
    has-put_members n k ms _
    ∙ ground (arith, has-put m.name m.kind n k (unresolved m.name m.kind true []) set)

has-remove_entries :
    (n k kind : Text) (es : List Entry) (set : Components)
    → has n k (remove_entries kind es set) ≡ (not (text_eq kind k && listed es n) && has n k set)
unfolding remove_entries
has-remove_entries n k kind [] set = ground arith
has-remove_entries n k kind (e ∷ es) set =
    has-remove_entries n k kind es _ ∙ ground (arith, has-remove e.name kind n k set)

has-add_entries :
    (n k kind : Text) (es : List Entry) (set : Components)
    → has n k (add_entries kind es set) ≡ ((text_eq kind k && listed es n) || has n k set)
unfolding add_entries
has-add_entries n k kind [] set = ground arith
has-add_entries n k kind (e ∷ es) set =
    has-add_entries n k kind es _
    ∙ ground (arith, has-put e.name kind n k (unresolved e.name kind false []) set)

has-put_explicit :
    (n k kind : Text) (es : List Entry) (set : Components)
    → has n k (put_explicit kind es set) ≡ ((text_eq kind k && listed es n) || has n k set)
unfolding put_explicit
has-put_explicit n k kind [] set = ground arith
has-put_explicit n k kind (e ∷ es) set =
    has-put_explicit n k kind es _
    ∙ ground (arith, has-put e.name kind n k (unresolved e.name kind false e.version) set)

-- Four lists of entries, one for each kind.
abbrev pub in_kind : List Entry → List Entry → List Entry → List Entry → Text → Text → Bool
in_kind skills rules agents hooks n k =
    (text_eq kind_skill k && listed skills n)
    || (text_eq kind_rule k && listed rules n)
    || (text_eq kind_agent k && listed agents n)
    || (text_eq kind_hook k && listed hooks n)

abbrev pub removed : Option Extends → Text → Text → Bool
removed none n k = false
removed (some x) n k = in_kind x.remove_skills x.remove_rules x.remove_agents x.remove_hooks n k

abbrev pub added : Option Extends → Text → Text → Bool
added none n k = false
added (some x) n k = in_kind x.add_skills x.add_rules x.add_agents x.add_hooks n k

-- A component is wanted if the manifest lists it or an extension adds it, or if it belongs to
-- the harness and no extension removes it.
abbrev pub wanted : Manifest → List HarnessMember → Text → Text → Bool
wanted m ms n k =
    in_kind m.skills m.rules m.agents m.hooks n k
    || (added m.extends n k || (not (removed m.extends n k) && is_member ms n k))

has-removed :
    (n k : Text) (x : Extends) (set : Components)
    → has n k (
        remove_entries kind_hook x.remove_hooks (
          remove_entries kind_agent x.remove_agents (
            remove_entries kind_rule x.remove_rules
              (remove_entries kind_skill x.remove_skills set))))
      ≡ (not (removed (some x) n k) && has n k set)
has-removed n k x set = simp has-remove_entries (ground arith)

pub has-apply_extends :
    (n k : Text) (x : Option Extends) (set : Components)
    → has n k (apply_extends x set) ≡ (added x n k || (not (removed x n k) && has n k set))
unfolding apply_extends
has-apply_extends n k none set = refl
has-apply_extends n k (some x) set = simp (has-add_entries, has-removed) (ground arith)

pub has-explicit :
    (n k : Text) (m : Manifest) (set : Components)
    → has n k (explicit m set) ≡ (in_kind m.skills m.rules m.agents m.hooks n k || has n k set)
unfolding explicit
has-explicit n k m set = simp has-put_explicit (ground arith)

pub has-any :
    (n k : Text) (set : Components)
    → has n k set ≡ any (λ (e : Text × Text × ResolvedComponent). same_key e.0 e.1 n k) set
unfolding has PairMap.get
has-any n k [] = refl
has-any n k ((a, b, rc) ∷ set) = ground (arith, has-any n k set)

-- The constraint of a component that is not in the map is the empty one.
abbrev constraint_or : Option ResolvedComponent → Text
constraint_or none = []
constraint_or (some rc) = rc.constraint_raw

pub raw : Text → Text → Components → Text
raw n k set = constraint_or (PairMap.get n k set)

-- The version of the last entry of the name, or the text that is given.
abbrev pub last_version : List Entry → Text → Text → Text
last_version [] n d = d
last_version (e ∷ es) n d = last_version es n (if text_eq e.name n then e.version else d)

abbrev pub version_in : Text → List Entry → Text → Text → Text → Text
version_in kind es n k d = if text_eq kind k then last_version es n d else d

-- The constraint that the manifest itself has for a component: the version of the last of its own
-- entries of the name and the kind, or none.
abbrev pub constraint_of : Manifest → Text → Text → Text
constraint_of m n k = version_in kind_hook m.hooks n k (
    version_in kind_agent m.agents n k
      (version_in kind_rule m.rules n k (version_in kind_skill m.skills n k [])))

raw-nil : (n k : Text) → raw n k [] ≡ []
unfolding raw PairMap.get
raw-nil n k = refl

raw-put :
    (a b n k : Text) (rc : ResolvedComponent) (set : Components)
    → raw n k (PairMap.put a b rc set)
      ≡ (if same_key a b n k then rc.constraint_raw else raw n k set)
unfolding raw
raw-put a b n k rc set = rw (PairMap.get-put a b n k rc set) (ground arith)

raw-remove :
    (a b n k : Text) (set : Components) → raw n k set ≡ [] → raw n k (PairMap.remove a b set) ≡ []
unfolding raw
raw-remove a b n k set h = rw (PairMap.get-remove a b n k set) (ground arith)

raw-put_members :
    (n k : Text) (ms : List HarnessMember) (set : Components)
    → raw n k set ≡ []
    → raw n k (put_members ms set) ≡ []
unfolding put_members
raw-put_members n k [] set h = h
raw-put_members n k (m ∷ ms) set h =
    raw-put_members n k ms _
      (ground (arith, raw-put m.name m.kind n k (unresolved m.name m.kind true []) set))

raw-remove_entries :
    (n k kind : Text) (es : List Entry) (set : Components)
    → raw n k set ≡ []
    → raw n k (remove_entries kind es set) ≡ []
unfolding remove_entries
raw-remove_entries n k kind [] set h = h
raw-remove_entries n k kind (e ∷ es) set h =
    raw-remove_entries n k kind es _ (raw-remove e.name kind n k set h)

raw-add_entries :
    (n k kind : Text) (es : List Entry) (set : Components)
    → raw n k set ≡ []
    → raw n k (add_entries kind es set) ≡ []
unfolding add_entries
raw-add_entries n k kind [] set h = h
raw-add_entries n k kind (e ∷ es) set h =
    raw-add_entries n k kind es _
      (ground (arith, raw-put e.name kind n k (unresolved e.name kind false []) set))

raw-apply_extends :
    (n k : Text) (x : Option Extends) (set : Components)
    → raw n k set ≡ []
    → raw n k (apply_extends x set) ≡ []
unfolding apply_extends
raw-apply_extends n k none set h = h
raw-apply_extends n k (some x) set h = search (raw-add_entries, raw-remove_entries) depth 10

raw-put_explicit :
    (n k kind : Text) (es : List Entry) (set : Components)
    → raw n k (put_explicit kind es set) ≡ version_in kind es n k (raw n k set)
unfolding put_explicit
raw-put_explicit n k kind [] set = ground arith
raw-put_explicit n k kind (e ∷ es) set =
    raw-put_explicit n k kind es _
    ∙ rw (raw-put e.name kind n k (unresolved e.name kind false e.version) set)
        (last (text_eq kind k) (text_eq e.name n))
  where
    last :
        (same named : Bool)
        → (if same
            then last_version es n (if named && same then e.version else raw n k set)
            else if named && same
            then e.version
            else raw n k set)
          ≡ (if same
              then last_version es n (if named then e.version else raw n k set)
              else raw n k set)
    last true true = refl
    last true false = refl
    last false true = refl
    last false false = refl

-- The map that is resolved has the constraints of the manifest's own entries.
pub raw-explicit :
    (n k : Text) (m : Manifest) (ms : List HarnessMember)
    → raw n k (explicit m (apply_extends m.extends (put_members ms []))) ≡ constraint_of m n k
unfolding explicit
raw-explicit n k m ms =
    let set = apply_extends m.extends (put_members ms []) in
    let empty : raw n k set ≡ [] =
      raw-apply_extends n k m.extends (put_members ms [])
        (raw-put_members n k ms [] (raw-nil n k)) in
    simp (raw-put_explicit, empty)

pub has-cons :
    (a b n k : Text) (rc : ResolvedComponent) (set : Components)
    → has n k ((a, b, rc) ∷ set) ≡ (same_key a b n k || has n k set)
unfolding has PairMap.get
has-cons a b n k rc set = ground arith

pub raw-cons :
    (a b n k : Text) (rc : ResolvedComponent) (set : Components)
    → raw n k ((a, b, rc) ∷ set) ≡ (if same_key a b n k then rc.constraint_raw else raw n k set)
unfolding raw PairMap.get
raw-cons a b n k rc set = ground arith
