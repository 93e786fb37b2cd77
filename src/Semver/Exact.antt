-- ===== src/Semver/Exact.antt =====
-- A constraint without an operator, from its text to `Matches`: pkg/consumermanifest/semver.go.
use mathlib.Core.Bool.{false≢true}
use forge_development_hub_cl.Base.{
  ℕ, ◌≡◌, ◌≢◌, ◌↔◌, ◌∙◌, inl, inr, refl, sym, ap, Bool, true, false, not, ◌&&◌, ◌||◌, Option, none,
  some, [], ◌∷◌, ◌++◌, Text, codes, is_empty, text_eq, text_eq_iff, arith, Bool-cases, all,
  if◌then◌else◌, ◌==◌,
}
use forge_development_hub_cl.Base.Bytes.{trim_prefix, trim_space, split, span, is_digit, is_space}
use forge_development_hub_cl.Base.Splits.{
  all-append, all-implies, trim_space-all, span-all, all-span, split-all, split-append,
}
use forge_development_hub_cl.Semver.{
  Op, Constraint, Version, dot_digits, match_parts, canonical_exact, split_op, build, optional,
  atoi, number, parse_constraint, from_parts, no_sign, parse_semver, matches_op, matches,
}
use forge_development_hub_cl.Semver.Ranges.{matches-ParsesIn, ParsesIn}

-- The bytes of a canonical text.
abbrev is_plain : ℕ → Bool
is_plain c = is_digit c || c == b'.'

plain-not-space : (c : ℕ) → is_plain c ≡ true → not (is_space c) ≡ true
unfolding is_digit is_space
plain-not-space c h = ground arith

plain-no_sign : (c : ℕ) → is_plain c ≡ true → no_sign c ≡ true
unfolding is_digit
plain-no_sign c h = ground arith

digit-plain : (c : ℕ) → is_digit c ≡ true → is_plain c ≡ true
digit-plain c h = ground arith

digit-not-dot : (c : ℕ) → is_digit c ≡ true → not (c == b'.') ≡ true
unfolding is_digit
digit-not-dot c h = ground arith

plain-trim_prefix : (t : Text) → all is_plain t ≡ true → trim_prefix t (codes "v") ≡ t
unfolding trim_prefix is_digit
plain-trim_prefix [] h = refl
plain-trim_prefix (c ∷ cs) h = ground arith

-- A plain text is parsed as it stands.
parse_semver-plain :
    (t : Text)
    → is_empty t ≡ false
    → all is_plain t ≡ true
    → parse_semver t ≡ from_parts [] (split b'.' t)
unfolding parse_semver
parse_semver-plain t e h =
    let trimmed = trim_space-all t (all-implies _ _ plain-not-space t h) in
    let spanned = span-all no_sign t (all-implies _ _ plain-no_sign t h) in
    rw (trimmed, e, plain-trim_prefix t h, spanned)

-- An absent number counts as zero.
abbrev pub or_zero : Text → Text
or_zero m = if is_empty m then codes "0" else m

record IsParts (m1 m2 m3 : Text) : Type 0 where
  given : is_empty m1 ≡ false
  first : all is_digit m1 ≡ true
  second : all is_digit m2 ≡ true
  third : all is_digit m3 ≡ true
  in_order : is_empty m2 ≡ true → is_empty m3 ≡ true

dotted : Text → Text → Text → Text
dotted a b c = a ++ (b'.' ∷ (b ++ b'.' ∷ c))

canonical-dotted :
    (m1 m2 m3 : Text)
    → (is_empty m2 ≡ true → is_empty m3 ≡ true)
    → canonical_exact m1 m2 m3 ≡ dotted m1 (or_zero m2) (or_zero m3)
unfolding canonical_exact dotted
canonical-dotted m1 m2 m3 h = elim (Bool-cases (is_empty m2)) [
  | inl e ↦ rw (e, h e)
  | inr e ↦ elim (Bool-cases (is_empty m3)) [ inl d ↦ rw (e, d) | inr d ↦ rw (e, d) ]
]

or_zero-digits : (m : Text) → all is_digit m ≡ true → all is_digit (or_zero m) ≡ true
unfolding is_digit
or_zero-digits [] h = refl
or_zero-digits (c ∷ cs) h = h

all-dotted :
    (a b c : Text)
    → all is_plain a ≡ true
    → all is_plain b ≡ true
    → all is_plain c ≡ true
    → all is_plain (dotted a b c) ≡ true
unfolding dotted is_digit
all-dotted a b c ha hb hc =
    ground (arith, all-append is_plain a (b'.' ∷ (b ++ b'.' ∷ c)), all-append is_plain b (b'.' ∷ c))

split-dotted :
    (a b c : Text)
    → all (λ d. not (d == b'.')) a ≡ true
    → all (λ d. not (d == b'.')) b ≡ true
    → all (λ d. not (d == b'.')) c ≡ true
    → split b'.' (dotted a b c) ≡ a ∷ b ∷ c ∷ []
unfolding dotted
split-dotted a b c ha hb hc =
    split-append b'.' a _ ha
    ∙ ap (◌∷◌ a) (split-append b'.' b c hb ∙ ap (◌∷◌ b) (split-all b'.' c hc))

parse_semver-dotted :
    (a b c : Text)
    → is_empty a ≡ false
    → all is_digit a ≡ true
    → all is_digit b ≡ true
    → all is_digit c ≡ true
    → parse_semver (dotted a b c) ≡ from_parts [] (a ∷ b ∷ c ∷ [])
parse_semver-dotted a b c e ha hb hc =
    parse_semver-plain (dotted a b c) (nonempty a e)
      (all-dotted a b c (plain a ha) (plain b hb) (plain c hc))
    ∙ ap (from_parts []) (split-dotted a b c (no_dot a ha) (no_dot b hb) (no_dot c hc))
  where
    plain : (w : Text) → all is_digit w ≡ true → all is_plain w ≡ true
    plain w = all-implies is_digit is_plain digit-plain w

    no_dot : (w : Text) → all is_digit w ≡ true → all (λ d. not (d == b'.')) w ≡ true
    no_dot w = all-implies _ _ digit-not-dot w

    nonempty : (w : Text) → is_empty w ≡ false → is_empty (dotted w b c) ≡ false
    nonempty [] h = absurd (false≢true (sym h))
    nonempty (x ∷ xs) h = unfold dotted in refl

span-digits : (t : Text) → all is_digit (span is_digit t).0 ≡ true
span-digits t = all-span is_digit t

all-dot_digits : (t : Text) → all is_digit (dot_digits t).0 ≡ true
unfolding dot_digits
all-dot_digits [] = refl
all-dot_digits (c ∷ cs) = elim (Bool-cases (c == b'.' && not (is_empty (span is_digit cs).0))) [
  | inl e ↦ rw e (all-span is_digit cs)
  | inr e ↦ rw e
]

-- Where the group takes nothing, the next takes nothing.
dot_digits-twice :
    (t : Text) → is_empty (dot_digits t).0 ≡ true → (dot_digits (dot_digits t).1).0 ≡ []
unfolding dot_digits
dot_digits-twice [] h = refl
dot_digits-twice (c ∷ cs) h = elim (Bool-cases (c == b'.' && not (is_empty (span is_digit cs).0))) [
  | inl e ↦ ground arith
  | inr e ↦ ground arith
]

abbrev groups : Text → Text × Text × Text
groups t =
    let first = span is_digit (trim_prefix t (codes "v")) in
    (first.0, (dot_digits first.1).0, (dot_digits (dot_digits first.1).1).0)

match_parts-groups :
    (t m1 m2 m3 : Text)
    → match_parts t ≡ some (m1, m2, m3)
    → (is_empty m1 ≡ false) × (m1 ≡ (groups t).0) × (m2 ≡ (groups t).1) × (m3 ≡ (groups t).2)
unfolding match_parts
match_parts-groups t m1 m2 m3 h = ground arith

is_empty-nil : (t : Text) → t ≡ [] → is_empty t ≡ true
is_empty-nil t e = ap is_empty e

match_parts-IsParts : (t m1 m2 m3 : Text) → match_parts t ≡ some (m1, m2, m3) → IsParts m1 m2 m3
match_parts-IsParts t m1 m2 m3 h =
    let (e0, e1, e2, e3) = match_parts-groups t m1 m2 m3 h in
    let rest : Text = (span is_digit (trim_prefix t (codes "v"))).1 in
    record {
      given = e0;
      first = rw e1 (span-digits (trim_prefix t (codes "v")));
      second = rw e2 (all-dot_digits rest);
      third = rw e3 (all-dot_digits (dot_digits rest).1);
      in_order = λ e. is_empty-nil m3 (e3 ∙ dot_digits-twice rest (ap is_empty (sym e2) ∙ e));
    }

-- The canonical text of the parts parses as the parts do, an absent part as zero.
parse_semver-canonical :
    (t m1 m2 m3 : Text)
    → match_parts t ≡ some (m1, m2, m3)
    → parse_semver (canonical_exact m1 m2 m3) ≡ from_parts [] (m1 ∷ or_zero m2 ∷ or_zero m3 ∷ [])
parse_semver-canonical t m1 m2 m3 h =
    let p = match_parts-IsParts t m1 m2 m3 h in
    ap parse_semver (canonical-dotted m1 m2 m3 p.in_order)
    ∙ parse_semver-dotted m1 (or_zero m2) (or_zero m3) p.given p.first (or_zero-digits m2 p.second)
        (or_zero-digits m3 p.third)

abbrev pub or_none : Option ℕ → ℕ
or_none none = 0
or_none (some n) = n

-- The version has the numbers of the constraint, an absent one as zero, has no pre-release or
-- build part, and the numbers of the constraint fit into an `int`.
abbrev pub InExact : Constraint → Version → Type 0
InExact c v =
    (v.major ≡ c.major)
    × (v.minor ≡ or_none c.minor)
    × (v.patch ≡ or_none c.patch)
    × (v.pre ≡ [])
    × (parse_semver c.exact ≢ none)

record FromParts (c : Constraint) : Type 0 where
  text : Text
  m1 : Text
  m2 : Text
  m3 : Text
  matched : match_parts text ≡ some (m1, m2, m3)
  major_is : c.major ≡ (atoi m1).0
  minor_is : c.minor ≡ optional m2
  patch_is : c.patch ≡ optional m3
  exact_is : c.exact ≡ canonical_exact m1 m2 m3

build-FromParts :
    (s t : Text) (op : Op) (p : Option (Text × Text × Text)) (c : Constraint)
    → match_parts t ≡ p
    → build s op p ≡ some c
    → c.op ≡ Op.exactly
    → FromParts c
build-FromParts s t op none c m h o = absurd (cc)
build-FromParts s t Op.caret (some (m1, m2, m3)) c m h o = absurd (cc)
build-FromParts s t Op.tilde (some (m1, m2, m3)) c m h o = absurd (cc)
build-FromParts s t Op.exactly (some (m1, m2, m3)) c m h o = record {
  text = t;
  m1 = m1;
  m2 = m2;
  m3 = m3;
  matched = m;
  major_is = ground arith;
  minor_is = ground arith;
  patch_is = ground arith;
  exact_is = ground arith;
}

parse_constraint-FromParts :
    (s : Text) (c : Constraint)
    → parse_constraint s ≡ some c
    → c.any_version ≡ false
    → c.op ≡ Op.exactly
    → FromParts c
unfolding parse_constraint
parse_constraint-FromParts s c h r o =
    elim (Bool-cases (is_empty t || text_eq t (codes "*") || text_eq t (codes "latest"))) [
      | inl e ↦ absurd (ground arith)
      | inr e ↦
          build-FromParts s (split_op t).1 (split_op t).0 (match_parts (split_op t).1) c refl
            (ground arith) o
    ]
  where
    t : Text
    t = trim_space s

number-or_zero : (m : Text) (x : ℕ) → number (or_zero m) ≡ some x → x ≡ or_none (optional m)
unfolding atoi
number-or_zero [] x h = ground arith
number-or_zero (c ∷ cs) x h = ground arith

number-atoi : (m : Text) (x : ℕ) → number m ≡ some x → x ≡ (atoi m).0
number-atoi m x h = ground arith

from_parts-fields :
    (a b c : Text) (v : Version)
    → from_parts [] (a ∷ b ∷ c ∷ []) ≡ some v
    → (number a ≡ some v.major)
      × (number b ≡ some v.minor)
      × (number c ≡ some v.patch)
      × (v.pre ≡ [])
from_parts-fields a b c v h = ground arith

exact-fields :
    (c : Constraint) (f : FromParts c) (v : Version)
    → parse_semver c.exact ≡ some v
    → (v.major ≡ c.major) × (v.minor ≡ or_none c.minor) × (v.patch ≡ or_none c.patch) × (v.pre ≡ [])
exact-fields c f v h =
    let parsed =
      sym (parse_semver-canonical f.text f.m1 f.m2 f.m3 f.matched)
      ∙ ap parse_semver (sym f.exact_is)
      ∙ h in
    let (a, b, d, e) = from_parts-fields f.m1 (or_zero f.m2) (or_zero f.m3) v parsed in
    (
      number-atoi f.m1 v.major a ∙ sym f.major_is,
      number-or_zero f.m2 v.minor b ∙ ap or_none (sym f.minor_is),
      number-or_zero f.m3 v.patch d ∙ ap or_none (sym f.patch_is),
      e,
    )

matches_op-exact :
    (c : Constraint) (f : FromParts c) (sv : Version) (p : Option Version)
    → parse_semver c.exact ≡ p
    → (matches_op Op.exactly c sv ≡ true) ↔ InExact c sv
unfolding matches_op
matches_op-exact c f sv none e = ground arith
matches_op-exact c f sv (some ev) e =
    ground (arith, exact-fields c f ev e, text_eq_iff ev.pre sv.pre)

-- A parsed constraint with no operator, not of any version, accepts exactly the texts that parse
-- to the version of its numbers, an absent number as zero, with no pre-release or build part; it
-- accepts nothing if one of its numbers does not fit into an `int`.
pub matches-exact :
    (s : Text) (c : Constraint) (v : Text)
    → parse_constraint s ≡ some c
    → c.any_version ≡ false
    → c.op ≡ Op.exactly
    → (matches c v ≡ true) ↔ ParsesIn InExact c v
matches-exact s c v h r o =
    matches-ParsesIn c v r Op.exactly InExact o (λ sv.
      matches_op-exact c (parse_constraint-FromParts s c h r o) sv (parse_semver c.exact) refl)
