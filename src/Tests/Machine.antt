-- ===== src/Tests/Machine.antt =====
-- The ledger: a codec that knows one text, and the operations on a ledger with one install.
use forge_development_hub_cl.Base.{
  ◌≡◌, refl, none, some, Option, [], ◌∷◌, Text, codes, inr, text_eq, if◌then◌else◌,
}
use forge_development_hub_cl.Kinds.{Kind, kind_rule}
use forge_development_hub_cl.Ledger.{
  InstallEntry, State, ProjectEntry, fresh, no_installs, ok, load, save, set_user_scope_install,
  sort_buckets,
}
use forge_development_hub_cl.Ledger.Buckets.{find_install}
use forge_development_hub_cl.Ledger.Files.{InstallsDiffer, load-save}

abbrev lint : InstallEntry
lint = record {
  name = codes "lint";
  version = codes "1.0.0";
  installed_at = 7;
  path = codes "/home/a/lint";
}

abbrev with_lint : State
with_lint = record fresh { user_scope_installs = record no_installs { rules = lint ∷ [] } }

abbrev app : ProjectEntry
app = record {
  lock_hash = codes "ab";
  managed_paths = codes "b" ∷ codes "a" ∷ [];
  last_install_at = 0;
}

recorded :
    set_user_scope_install 9 kind_rule (record lint { installed_at = 0 }) fresh ≡ record fresh {
      user_scope_installs = record no_installs { rules = record lint { installed_at = 9 } ∷ [] };
    }
unfolding set_user_scope_install
recorded = refl

-- A codec for the one ledger.
abbrev written : State → Text
written s = codes "{}"

abbrev read_back : Text → Option State
read_back t = if text_eq t (codes "{}\n") then some with_lint else none

with_lint-InstallsDiffer : InstallsDiffer with_lint
with_lint-InstallsDiffer Kind.skill = tt
with_lint-InstallsDiffer Kind.rule = (refl, tt)
with_lint-InstallsDiffer Kind.agent = tt
with_lint-InstallsDiffer Kind.hook = tt

load-save_example :
    (t : State) × (load written read_back (codes "/home/a") (some (codes "{}\n")) ≡ ok t)
    × ((k : Kind) (name : Text) → find_install k name t ≡ find_install k name with_lint)
    × (t.projects ≡ with_lint.projects)
    × (t.hub_cache ≡ with_lint.hub_cache)
unfolding save load text_eq sort_buckets
load-save_example =
    load-save written read_back (codes "/home/a") with_lint (codes "{}\n") refl refl (inr refl)
      with_lint-InstallsDiffer
