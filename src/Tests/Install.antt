-- ===== src/Tests/Install.antt =====
-- Expanding a manifest, locking the result, and comparing the two.
use forge_development_hub_cl.Base.{
  false, ◌≡◌, ◌↔◌, refl, none, some, List, [], ◌∷◌, Text, codes, any, All,
}
use forge_development_hub_cl.Kinds.{kind_rule, kind_ok}
use forge_development_hub_cl.Hub.{ComponentEntry, Registry}
use forge_development_hub_cl.Manifest.{Manifest, validate}
use forge_development_hub_cl.Manifest.Expand.{
  ResolvedComponent, HarnessMember, HarnessLookup, expand, done, members,
}
use forge_development_hub_cl.Manifest.Wanted.{wanted}
use forge_development_hub_cl.Manifest.Resolution.{IsResolved, is_key, expand-wanted}
use forge_development_hub_cl.Manifest.Valid.{IsValidManifest, validate-IsValidManifest}
use forge_development_hub_cl.Lock.{Lock, build, diff, extra}
use forge_development_hub_cl.Lock.Agree.{is_wanted, is_locked, diff-empty}
use forge_development_hub_cl.Lock.Built.{diff-build}

abbrev style : ComponentEntry
style = record {
  name = codes "style";
  kind = kind_rule;
  path = codes "rules/style";
  owner_team = [];
  description = [];
  is_default = false;
  min_fdh_version = [];
  agents_supported = codes "claude-code" ∷ [];
  version = codes "1.4.0";
  tags = [];
}

abbrev catalog : Registry
catalog = record {
  schema_version = 2;
  hub_version = [];
  generated_at = 0;
  components = style ∷ [];
  skills = [];
  local_path = codes "/cache";
  hub_commit = codes "abc";
}

-- `base` has two rules; the manifest drops one and pins the other.
abbrev harnesses : HarnessLookup
harnesses name = some (
    record { name = codes "style"; kind = kind_rule }
    ∷ record { name = codes "old"; kind = kind_rule }
    ∷ [])

abbrev team : Manifest
team = record {
  schema_version = 1;
  harness = codes "base";
  profile = [];
  scope = codes "project";
  skills = [];
  rules = record { name = codes "style"; version = codes "^1.2" } ∷ [];
  agents = [];
  hooks = [];
  extends = some (record {
    add_skills = [];
    remove_skills = [];
    add_rules = [];
    remove_rules = record { name = codes "old"; version = [] } ∷ [];
    add_agents = [];
    remove_agents = [];
    add_hooks = [];
    remove_hooks = [];
  });
  warnings = [];
}

abbrev resolved_style : ResolvedComponent
resolved_style = record {
  name = codes "style";
  kind = kind_rule;
  hub_entry = some style;
  from_harness = false;
  constraint_raw = codes "^1.2";
  resolved_version = codes "1.4.0";
}

expanded : expand team catalog (some harnesses) ≡ done (resolved_style ∷ [])
unfolding expand
expanded = refl

abbrev style_lock : Lock
style_lock = record {
  schema_version = 1;
  hub_commit = codes "abc";
  resolved_at = 5;
  resolved_from_harness = codes "base";
  resolved_from_profile = [];
  skills = [];
  rules =
      record {
        name = codes "style";
        version = codes "1.4.0";
        path = codes "rules/style";
        integrity = [];
      }
      ∷ [];
  agents = [];
  hooks = [];
}

built : build (resolved_style ∷ []) (codes "abc") 5 (codes "base") ≡ style_lock
unfolding build
built = refl

-- An entry of the lock that nothing wants any more.
extra_reported :
    diff [] style_lock none
    ≡ record { name = codes "style"; kind = kind_rule; status = extra; expected = []; actual = [] }
      ∷ []
unfolding diff
extra_reported = refl

expand-wanted_example :
    (ms : List HarnessMember) × (members team (some harnesses) ≡ done ms)
    × ((n k : Text) → any (is_key n k) (resolved_style ∷ []) ≡ wanted team ms n k)
    × All (IsResolved team catalog) (resolved_style ∷ [])
expand-wanted_example = expand-wanted team catalog (some harnesses) (resolved_style ∷ []) expanded

validate-IsValidManifest_example : (validate team ≡ none) ↔ IsValidManifest team
validate-IsValidManifest_example = validate-IsValidManifest team

diff-empty_example :
    (diff (resolved_style ∷ []) style_lock none ≡ [])
    ↔ ((n k : Text) → is_wanted n k (resolved_style ∷ []) ≡ is_locked n k style_lock)
diff-empty_example = diff-empty (resolved_style ∷ []) style_lock

diff-build_example :
    diff (resolved_style ∷ []) (build (resolved_style ∷ []) (codes "abc") 5 (codes "base")) none
    ≡ []
unfolding kind_ok
diff-build_example = diff-build (resolved_style ∷ []) (codes "abc") 5 (codes "base") refl
