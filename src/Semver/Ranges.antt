-- ===== src/Semver/Ranges.antt =====
-- What the caret and the tilde of `Constraint.Matches` accept, in numbers.
use mathlib.Core.Bool.{true≢false}
use forge_development_hub_cl.Base.{
  ℕ, ◌≤◌, ◌<◌, ◌≡◌, ◌↔◌, ◌⊎◌, ◌∙◌, sym, refl, true, false, Option, none, some, Text, arith,
}
use forge_development_hub_cl.Semver.{
  Op, Constraint, Version, parse_semver, gte, minor_is, matches_op, matches,
}

-- The version is at or above the floor that minor and patch of the constraint give.
abbrev pub AboveFloor : Version → Option ℕ → Option ℕ → Type 0
AboveFloor v none patch = Unit
AboveFloor v (some m) none = m ≤ v.minor
AboveFloor v (some m) (some p) = (m < v.minor) ⊎ ((v.minor ≡ m) × (p ≤ v.patch))

abbrev pub SameMinor : Version → Option ℕ → Type 0
SameMinor v none = Unit
SameMinor v (some m) = v.minor ≡ m

-- `^`: the same major, at or above the floor, and within the same minor for major 0.
abbrev pub InCaret : Constraint → Version → Type 0
InCaret c v =
    (v.major ≡ c.major) × (c.major ≡ 0 → SameMinor v c.minor) × AboveFloor v c.minor c.patch

-- `~`: the same major and minor, at or above the floor.
abbrev pub InTilde : Constraint → Version → Type 0
InTilde c v = (v.major ≡ c.major) × SameMinor v c.minor × AboveFloor v c.minor c.patch

gte-AboveFloor : (v : Version) (m p : Option ℕ) → (gte v m p ≡ true) ↔ AboveFloor v m p
unfolding gte
gte-AboveFloor v none p = ground arith
gte-AboveFloor v (some m) none = ground arith
gte-AboveFloor v (some m) (some p) = ground arith

minor_is-SameMinor : (v : Version) (m : Option ℕ) → (minor_is v m ≡ true) ↔ SameMinor v m
minor_is-SameMinor v none = ground arith
minor_is-SameMinor v (some m) = ground arith

matches_op-caret : (c : Constraint) (v : Version) → (matches_op Op.caret c v ≡ true) ↔ InCaret c v
unfolding matches_op
matches_op-caret c v =
    ground (arith, gte-AboveFloor v c.minor c.patch, minor_is-SameMinor v c.minor)

matches_op-tilde : (c : Constraint) (v : Version) → (matches_op Op.tilde c v ≡ true) ↔ InTilde c v
unfolding matches_op
matches_op-tilde c v =
    ground (arith, gte-AboveFloor v c.minor c.patch, minor_is-SameMinor v c.minor)

-- A version text that parses to a version in the range of the operator.
abbrev pub ParsesIn : (Constraint → Version → Type 0) → Constraint → Text → Type 0
ParsesIn Range c v = (sv : Version) × (parse_semver v ≡ some sv) × Range c sv

module _ (c : Constraint) (v : Text) (range : c.any_version ≡ false) where
  matches-of_op :
      (op : Op)
      → c.op ≡ op
      → (sv : Version) → parse_semver v ≡ some sv
      → matches c v ≡ matches_op op c sv
  unfolding matches
  matches-of_op op o sv p = ground arith

  matches-unparsed : parse_semver v ≡ none → matches c v ≡ false
  unfolding matches
  matches-unparsed p = ground arith

  pub matches-ParsesIn :
      (op : Op) (Range : Constraint → Version → Type 0)
      → c.op ≡ op
      → ((sv : Version) → (matches_op op c sv ≡ true) ↔ Range c sv)
      → (matches c v ≡ true) ↔ ParsesIn Range c v
  matches-ParsesIn op Range o iff =
      (λ h. forward (parse_semver v) refl h, λ r. matches-of_op op o r.0 r.1 ∙ (iff r.0).1 r.2)
    where
      forward : (r : Option Version) → parse_semver v ≡ r → matches c v ≡ true → ParsesIn Range c v
      forward none p h = absurd (true≢false (sym h ∙ matches-unparsed p))
      forward (some sv) p h = (sv, p, (iff sv).0 (sym (matches-of_op op o sv p) ∙ h))

  -- A caret constraint, not of any version, accepts exactly the texts that parse to a version of
  -- the same major, at or above the floor of the constraint, and for major 0 of the same minor
  -- where one is given.
  pub matches-caret : c.op ≡ Op.caret → (matches c v ≡ true) ↔ ParsesIn InCaret c v
  matches-caret o = matches-ParsesIn Op.caret InCaret o (matches_op-caret c)

  -- A tilde constraint, not of any version, accepts exactly the texts that parse to a version of
  -- the same major, of the same minor where one is given, and at or above the floor of the
  -- constraint.
  pub matches-tilde : c.op ≡ Op.tilde → (matches c v ≡ true) ↔ ParsesIn InTilde c v
  matches-tilde o = matches-ParsesIn Op.tilde InTilde o (matches_op-tilde c)
