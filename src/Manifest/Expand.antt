-- ===== src/Manifest/Expand.antt =====
-- `Expand`: the manifest against the catalog. Go iterates over the map of components in an order
-- of its own; here it is the order of insertion. The result is sorted by kind and name, which no
-- two components share, so the order shows in nothing but the choice among several errors.
use forge_development_hub_cl.Base.{
  Bool, true, false, not, Option, none, some, List, [], ◌∷◌, Text, text_eq, text_lt, is_empty,
  if◌then◌else◌,
}
use forge_development_hub_cl.Base.PairMap
use forge_development_hub_cl.Base.PairMap.{PairMap}
use forge_development_hub_cl.Base.Sort.{sort}
use forge_development_hub_cl.Kinds.{kind_skill, kind_rule, kind_agent, kind_hook}
use forge_development_hub_cl.Hub.{ComponentEntry, Registry, component_by_name}
use forge_development_hub_cl.Semver.{Constraint, parse_constraint, matches}
use forge_development_hub_cl.Manifest.{Entry, Extends, Manifest}

pub record ResolvedComponent : Type 0 where
  pub name : Text
  pub kind : Text
  pub hub_entry : Option ComponentEntry
  pub from_harness : Bool
  pub constraint_raw : Text
  pub resolved_version : Text

pub record HarnessMember : Type 0 where
  pub name : Text
  pub kind : Text

-- The caller's resolver of harness names; `none` is its error.
abbrev pub HarnessLookup : Type 0
HarnessLookup = Text → Option (List HarnessMember)

abbrev pub unresolved : Text → Text → Bool → Text → ResolvedComponent
unresolved name kind from constraint = record {
  name = name;
  kind = kind;
  hub_entry = none;
  from_harness = from;
  constraint_raw = constraint;
  resolved_version = [];
}

abbrev pub Components : Type 0
Components = PairMap ResolvedComponent

unfoldable pub put_members : List HarnessMember → Components → Components
unfolding PairMap.put
put_members [] set = set
put_members (m ∷ ms) set =
    put_members ms (PairMap.put m.name m.kind (unresolved m.name m.kind true []) set)

unfoldable pub remove_entries : Text → List Entry → Components → Components
unfolding PairMap.remove
remove_entries kind [] set = set
remove_entries kind (e ∷ es) set = remove_entries kind es (PairMap.remove e.name kind set)

-- The constraint of an added entry is not taken over.
unfoldable pub add_entries : Text → List Entry → Components → Components
unfolding PairMap.put
add_entries kind [] set = set
add_entries kind (e ∷ es) set =
    add_entries kind es (PairMap.put e.name kind (unresolved e.name kind false []) set)

unfoldable pub put_explicit : Text → List Entry → Components → Components
unfolding PairMap.put
put_explicit kind [] set = set
put_explicit kind (e ∷ es) set =
    put_explicit kind es (PairMap.put e.name kind (unresolved e.name kind false e.version) set)

unfoldable pub apply_extends : Option Extends → Components → Components
unfolding remove_entries add_entries
apply_extends none set = set
apply_extends (some x) set =
    let r1 = remove_entries kind_skill x.remove_skills set in
    let r2 = remove_entries kind_rule x.remove_rules r1 in
    let r3 = remove_entries kind_agent x.remove_agents r2 in
    let r4 = remove_entries kind_hook x.remove_hooks r3 in
    let a1 = add_entries kind_skill x.add_skills r4 in
    let a2 = add_entries kind_rule x.add_rules a1 in
    let a3 = add_entries kind_agent x.add_agents a2 in add_entries kind_hook x.add_hooks a3

unfoldable pub explicit : Manifest → Components → Components
unfolding put_explicit
explicit m set = put_explicit kind_hook m.hooks (
    put_explicit kind_agent m.agents
      (put_explicit kind_rule m.rules (put_explicit kind_skill m.skills set)))

pub data ExpandError : Type 0 where
  no_lookup unknown_harness : ExpandError
  not_in_catalog bad_constraint unsatisfiable : Text → Text → ExpandError

pub data Expansion {ℓ} (A : Type ℓ) : Type ℓ where
  done : A → Expansion A
  refused : ExpandError → Expansion A

infixl 5 ◌>>=◌
abbrev pub ◌>>=◌ {ℓ κ} : {A : Type ℓ} {B : Type κ} → Expansion A → (A → Expansion B) → Expansion B
done a >>= f = f a
refused e >>= f = refused e

abbrev ask : Text → HarnessLookup → Expansion (List HarnessMember)
ask harness lookup = elim (lookup harness) [ none ↦ refused unknown_harness | some ms ↦ done ms ]

-- The members of the manifest's harness.
unfoldable pub members : Manifest → Option HarnessLookup → Expansion (List HarnessMember)
members m none = if is_empty m.harness then done [] else refused no_lookup
members m (some lookup) = if is_empty m.harness then done [] else ask m.harness lookup

abbrev pub checked :
    ResolvedComponent → ComponentEntry → Option Constraint → Expansion ResolvedComponent
checked rc entry none = refused (bad_constraint rc.name rc.kind)
checked rc entry (some c) =
    if is_empty entry.version
    then done (record rc { hub_entry = some entry })
    else if not (matches c entry.version)
    then refused (unsatisfiable rc.name rc.kind)
    else done (record rc { hub_entry = some entry; resolved_version = entry.version })

abbrev pub with_entry : ResolvedComponent → Option ComponentEntry → Expansion ResolvedComponent
with_entry rc none = refused (not_in_catalog rc.name rc.kind)
with_entry rc (some entry) = checked rc entry (parse_constraint rc.constraint_raw)

unfoldable pub resolve : Registry → ResolvedComponent → Expansion ResolvedComponent
unfolding component_by_name parse_constraint matches
resolve reg rc = with_entry rc (component_by_name reg rc.name rc.kind)

unfoldable pub resolve_all : Registry → Components → Expansion (List ResolvedComponent)
unfolding resolve
resolve_all reg [] = done []
resolve_all reg ((n, k, rc) ∷ set) = do r ← resolve reg rc; rs ← resolve_all reg set; done (r ∷ rs)

abbrev pub by_kind_name : ResolvedComponent → ResolvedComponent → Bool
by_kind_name a b =
    if not (text_eq a.kind b.kind) then text_lt a.kind b.kind else text_lt a.name b.name

unfoldable pub expand :
    Manifest → Registry → Option HarnessLookup → Expansion (List ResolvedComponent)
unfolding members put_members apply_extends explicit resolve_all sort text_lt text_eq
expand m reg lookup = do
  ms ← members m lookup
  out ← resolve_all reg (explicit m (apply_extends m.extends (put_members ms [])))
  done (sort by_kind_name out)
