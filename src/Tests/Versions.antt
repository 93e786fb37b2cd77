-- ===== src/Tests/Versions.antt =====
-- Constraints and versions: concrete runs of `Matches` and `HighestSatisfying`.
use forge_development_hub_cl.Base.{true, false, ◌≡◌, ◌↔◌, refl, none, some, [], ◌∷◌, codes}
use forge_development_hub_cl.Semver.{Constraint, Op, parse_constraint, matches, highest_satisfying}
use forge_development_hub_cl.Semver.Exact.{InExact, matches-exact}
use forge_development_hub_cl.Semver.Ranges.{ParsesIn}
use forge_development_hub_cl.Semver.Highest.{IsHighest, highest_satisfying-IsHighest}

abbrev caret_1_2 : Constraint
caret_1_2 = record {
  raw = codes "^1.2";
  any_version = false;
  op = Op.caret;
  major = 1;
  minor = some 2;
  patch = none;
  exact = [];
}

abbrev tilde_1_2 : Constraint
tilde_1_2 = record caret_1_2 { raw = codes "~1.2"; op = Op.tilde }

abbrev exactly_1_2 : Constraint
exactly_1_2 = record caret_1_2 { raw = codes "1.2"; op = Op.exactly; exact = codes "1.2.0" }

parse_caret : parse_constraint (codes "^1.2") ≡ some caret_1_2
unfolding parse_constraint
parse_caret = refl

parse_exact : parse_constraint (codes "1.2") ≡ some exactly_1_2
unfolding parse_constraint
parse_exact = refl

caret_accepts : matches caret_1_2 (codes "v1.10.0") ≡ true
unfolding matches
caret_accepts = refl

caret_refuses : matches caret_1_2 (codes "2.0.0") ≡ false
unfolding matches
caret_refuses = refl

-- A pre-release is not matched by the very same text as a constraint.
pre_release_refused :
    parse_constraint (codes "1.2.0-beta")
    ≡ some (record exactly_1_2 { raw = codes "1.2.0-beta"; patch = some 0 })
unfolding parse_constraint
pre_release_refused = refl

highest :
    highest_satisfying caret_1_2 (codes "1.3.0" ∷ codes "1.10.1" ∷ codes "2.0.0" ∷ codes "1.9" ∷ [])
    ≡ codes "1.10.1"
unfolding highest_satisfying
highest = refl

matches-exact_example :
    (matches exactly_1_2 (codes "1.2.0") ≡ true) ↔ ParsesIn InExact exactly_1_2 (codes "1.2.0")
matches-exact_example =
    matches-exact (codes "1.2") exactly_1_2 (codes "1.2.0") parse_exact refl refl

highest_satisfying-IsHighest_example :
    IsHighest caret_1_2
      (codes "1.3.0" ∷ codes "1.10.1" ∷ codes "2.0.0" ∷ [])
      (highest_satisfying caret_1_2 (codes "1.3.0" ∷ codes "1.10.1" ∷ codes "2.0.0" ∷ []))
highest_satisfying-IsHighest_example =
    highest_satisfying-IsHighest caret_1_2 (codes "1.3.0" ∷ codes "1.10.1" ∷ codes "2.0.0" ∷ [])
