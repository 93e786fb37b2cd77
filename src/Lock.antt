-- ===== src/Lock.antt =====
-- The consumer's lock `.fdh/lock.yaml`: pkg/consumerlock/consumerlock.go. A time is a number. The
-- YAML decoder is a parameter. The maps of `Diff` are iterated in the order of insertion; the
-- result is sorted by kind and name, which no two divergences share.
pub mod Agree
pub mod Built
use forge_development_hub_cl.Base.{
  ℕ, Bool, true, false, not, ◌&&◌, ◌||◌, Option, none, some, List, [], ◌∷◌, ◌++◌, Text, codes,
  text_eq, text_lt, is_empty, if◌then◌else◌, ◌==◌,
}
use forge_development_hub_cl.Base.PairMap
use forge_development_hub_cl.Base.PairMap.{PairMap}
use forge_development_hub_cl.Base.Sort.{sort}
use forge_development_hub_cl.Kinds.{Kind, kind_of, kind_skill, kind_rule, kind_agent, kind_hook}
use forge_development_hub_cl.Hub.{ComponentEntry}
use forge_development_hub_cl.Manifest.Expand.{ResolvedComponent}

pub record LockEntry : Type 0 where
  pub name : Text
  pub version : Text
  pub path : Text
  pub integrity : Text

pub record Lock : Type 0 where
  pub schema_version : ℕ
  pub hub_commit : Text
  pub resolved_at : ℕ
  pub resolved_from_harness : Text
  pub resolved_from_profile : Text
  pub skills : List LockEntry
  pub rules : List LockEntry
  pub agents : List LockEntry
  pub hooks : List LockEntry

abbrev pub from_hub : ResolvedComponent → Option ComponentEntry → LockEntry
from_hub r none = record { name = r.name; version = []; path = []; integrity = [] }
from_hub r (some entry) = record {
  name = r.name;
  version = if not (is_empty r.resolved_version) then r.resolved_version else entry.version;
  path = entry.path;
  integrity = [];
}

abbrev pub lock_entry : ResolvedComponent → LockEntry
lock_entry r = from_hub r r.hub_entry

-- The case of the `switch` on the kind.
abbrev pub goes_to : Kind → Option Kind → Bool
goes_to k none = false
goes_to Kind.skill (some j) = elim j [ Kind.skill ↦ true | _ ↦ false ]
goes_to Kind.rule (some j) = elim j [ Kind.rule ↦ true | _ ↦ false ]
goes_to Kind.agent (some j) = elim j [ Kind.agent ↦ true | _ ↦ false ]
goes_to Kind.hook (some j) = elim j [ Kind.hook ↦ true | _ ↦ false ]

-- The entries that the loop of `Build` appends to the list of a kind.
unfoldable pub locked : Kind → List ResolvedComponent → List LockEntry
unfolding kind_of
locked k [] = []
locked k (r ∷ rs) =
    let rest = locked k rs in if goes_to k (kind_of r.kind) then lock_entry r ∷ rest else rest

abbrev pub by_name : LockEntry → LockEntry → Bool
by_name a b = text_lt a.name b.name

unfoldable pub build : List ResolvedComponent → Text → ℕ → Text → Lock
unfolding locked sort text_lt
build resolved hub_commit resolved_at from_harness = record {
  schema_version = 1;
  hub_commit = hub_commit;
  resolved_at = resolved_at;
  resolved_from_harness = from_harness;
  resolved_from_profile = [];
  skills = sort by_name (locked Kind.skill resolved);
  rules = sort by_name (locked Kind.rule resolved);
  agents = sort by_name (locked Kind.agent resolved);
  hooks = sort by_name (locked Kind.hook resolved);
}

pub data DecodeError : Type 0 where
  undecodable : DecodeError
  unsupported_schema : ℕ → DecodeError

pub data Decoded : Type 0 where
  decoded : Lock → Decoded
  failed : DecodeError → Decoded

-- The deprecated `resolved_from_profile` becomes `resolved_from_harness`.
abbrev pub normalise_profile : Lock → Lock
normalise_profile l = if is_empty l.resolved_from_profile then l else record l {
  resolved_from_harness =
      if is_empty l.resolved_from_harness then l.resolved_from_profile else l.resolved_from_harness;
  resolved_from_profile = [];
}

abbrev checked : Option Lock → Decoded
checked none = failed undecodable
checked (some l) =
    if not (l.schema_version == 1)
    then failed (unsupported_schema l.schema_version)
    else decoded (normalise_profile l)

-- The first argument is the strict YAML decoder.
unfoldable pub decode : (Text → Option Lock) → Text → Decoded
decode strict body = checked (strict body)

pub data Status : Type 0 where
  missing extra integrity : Status

pub record Divergence : Type 0 where
  pub name : Text
  pub kind : Text
  pub status : Status
  pub expected : Text
  pub actual : Text

unfoldable pub want_map :
    List ResolvedComponent → PairMap ResolvedComponent → PairMap ResolvedComponent
unfolding PairMap.put
want_map [] m = m
want_map (r ∷ rs) m = want_map rs (PairMap.put r.name r.kind r m)

unfoldable pub have_kind : Text → List LockEntry → PairMap LockEntry → PairMap LockEntry
unfolding PairMap.put
have_kind kind [] m = m
have_kind kind (e ∷ es) m = have_kind kind es (PairMap.put e.name kind e m)

unfoldable pub have_map : Lock → PairMap LockEntry
unfolding have_kind
have_map l =
    have_kind kind_hook l.hooks (
      have_kind kind_agent l.agents
        (have_kind kind_rule l.rules (have_kind kind_skill l.skills [])))

-- The expected integrity of a name and a kind, where the caller has one.
abbrev pub Provider : Type 0
Provider = Option (Text → Text → Option Text)

abbrev compare_integrity : Text → Text → LockEntry → Option Text → List Divergence
compare_integrity n k entry none = []
compare_integrity n k entry (some expected) =
    if not (is_empty expected)
      && (not (is_empty entry.integrity) && not (text_eq expected entry.integrity))
    then record {
      name = n;
      kind = k;
      status = integrity;
      expected = expected;
      actual = entry.integrity;
    }
      ∷ []
    else []

abbrev pub check_wanted : Provider → Text → Text → Option LockEntry → List Divergence
check_wanted p n k none =
    record { name = n; kind = k; status = missing; expected = []; actual = [] } ∷ []
check_wanted none n k (some entry) = []
check_wanted (some provider) n k (some entry) = compare_integrity n k entry (provider n k)

unfoldable pub wanted_divergences :
    Provider → PairMap LockEntry → PairMap ResolvedComponent → List Divergence
unfolding PairMap.get text_eq
wanted_divergences p have [] = []
wanted_divergences p have ((n, k, r) ∷ want) =
    check_wanted p n k (PairMap.get n k have) ++ wanted_divergences p have want

abbrev pub check_had : Text → Text → Option ResolvedComponent → List Divergence
check_had n k none = record { name = n; kind = k; status = extra; expected = []; actual = [] } ∷ []
check_had n k (some r) = []

unfoldable pub had_divergences : PairMap ResolvedComponent → PairMap LockEntry → List Divergence
unfolding PairMap.get
had_divergences want [] = []
had_divergences want ((n, k, e) ∷ have) =
    check_had n k (PairMap.get n k want) ++ had_divergences want have

abbrev pub by_kind_name : Divergence → Divergence → Bool
by_kind_name a b =
    if not (text_eq a.kind b.kind) then text_lt a.kind b.kind else text_lt a.name b.name

unfoldable pub diff : List ResolvedComponent → Lock → Provider → List Divergence
unfolding want_map have_map wanted_divergences had_divergences sort text_lt text_eq
diff resolved l p = sort by_kind_name (
    wanted_divergences p (have_map l) (want_map resolved [])
    ++ had_divergences (want_map resolved []) (have_map l))
