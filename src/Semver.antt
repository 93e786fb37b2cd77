-- ===== src/Semver.antt =====
-- Version constraints: pkg/consumermanifest/semver.go. A Go `int` is a natural number here: the
-- texts that reach `strconv.Atoi` hold no sign. A pointer that may be nil is an `Option`.
pub mod Exact
pub mod Ranges
pub mod Highest
use forge_development_hub_cl.Base.{
  ℕ, ◌+◌, ◌-◌, ◌*◌, ◌^◌, Bool, true, false, not, ◌&&◌, ◌||◌, Option, none, some, List, [], ◌∷◌,
  ◌++◌, Text, codes, text_eq, is_empty, ltb, leb, ◌==◌, if◌then◌else◌, all, any,
}
use forge_development_hub_cl.Base.Bytes.{trim_prefix, trim_space, split, span, is_digit}

-- The value of a text of digits, read from the left.
unfoldable pub decimal : ℕ → Text → ℕ
decimal n [] = n
decimal n (c ∷ cs) = decimal (n * 10 + (c - b'0')) cs

abbrev pub max_int : ℕ
max_int = 2 ^ 63 - 1

-- `strconv.Atoi` of a text with no sign: the value, and whether it failed. A value out of range is
-- clamped, and is an error.
unfoldable pub atoi : Text → ℕ × Bool
unfolding decimal is_digit
atoi s =
    if is_empty s || not (all is_digit s)
    then (0, true)
    else if leb (decimal 0 s) max_int
    then (decimal 0 s, false)
    else (max_int, true)

pub data Op : Type 0 where
  exactly caret tilde : Op

pub record Constraint : Type 0 where
  pub raw : Text
  pub any_version : Bool
  pub op : Op
  pub major : ℕ
  pub minor : Option ℕ
  pub patch : Option ℕ
  pub exact : Text

pub record Version : Type 0 where
  pub major : ℕ
  pub minor : ℕ
  pub patch : ℕ
  pub pre : Text

-- `(?:\.(\d+))?` of `semverPartRE`: the digits, empty if there are none, and the rest.
unfoldable pub dot_digits : Text → Text × Text
unfolding span is_digit
dot_digits [] = ([], [])
dot_digits (c ∷ cs) =
    let (ds, rest) = span is_digit cs in
    if c == b'.' && not (is_empty ds) then (ds, rest) else ([], c ∷ cs)

-- `(?:[-+].*)?$`
unfoldable pub is_tail : Text → Bool
is_tail [] = true
is_tail (c ∷ cs) = (c == b'-' || c == b'+') && not (any (λ d. d == b'\n') cs)

-- `semverPartRE.FindStringSubmatch`: each group takes all the digits that it can, and no shorter
-- choice leaves a rest that matches.
unfoldable pub match_parts : Text → Option (Text × Text × Text)
unfolding trim_prefix span is_digit dot_digits is_tail
match_parts t =
    let (m1, r1) = span is_digit (trim_prefix t (codes "v")) in
    let (m2, r2) = dot_digits r1 in
    let (m3, r3) = dot_digits r2 in
    if not (is_empty m1) && is_tail r3 then some (m1, m2, m3) else none

unfoldable pub canonical_exact : Text → Text → Text → Text
canonical_exact maj min pat =
    if is_empty min
    then maj ++ codes ".0.0"
    else if is_empty pat
    then maj ++ (b'.' ∷ min ++ codes ".0")
    else maj ++ (b'.' ∷ (min ++ b'.' ∷ pat))

-- `op := t[:1]; t = t[1:]`
unfoldable pub split_op : Text → Op × Text
split_op [] = (Op.exactly, [])
split_op (c ∷ cs) =
    if c == b'^' then (Op.caret, cs) else if c == b'~' then (Op.tilde, cs) else (Op.exactly, c ∷ cs)

abbrev optional : Text → Option ℕ
optional m = if is_empty m then none else some (atoi m).0

abbrev build : Text → Op → Option (Text × Text × Text) → Option Constraint
build s op none = none
build s op (some (m1, m2, m3)) = some (record {
  raw = s;
  any_version = false;
  op = op;
  major = (atoi m1).0;
  minor = optional m2;
  patch = optional m3;
  exact = elim op [ Op.exactly ↦ canonical_exact m1 m2 m3 | _ ↦ [] ];
})

-- `none` is the error.
unfoldable pub parse_constraint : Text → Option Constraint
unfolding trim_space text_eq split_op match_parts canonical_exact atoi
parse_constraint s =
    let t = trim_space s in
    if is_empty t || text_eq t (codes "*") || text_eq t (codes "latest")
    then some (record {
      raw = s;
      any_version = true;
      op = Op.exactly;
      major = 0;
      minor = none;
      patch = none;
      exact = [];
    })
    else (let (op, rest) = split_op t in build s op (match_parts rest))

-- The error is `none`.
abbrev pub number : Text → Option ℕ
number s = let (n, failed) = atoi s in if failed then none else some n

infixl 5 ◌>>=◌
abbrev pub ◌>>=◌ {ℓ κ} : {A : Type ℓ} {B : Type κ} → Option A → (A → Option B) → Option B
none >>= f = none
some a >>= f = f a

abbrev pub from_parts : Text → List Text → Option Version
from_parts pre (a ∷ []) = do
  x ← number a
  some (record { major = x; minor = 0; patch = 0; pre = pre })
from_parts pre (a ∷ b ∷ []) = do
  x ← number a
  y ← number b
  some (record { major = x; minor = y; patch = 0; pre = pre })
from_parts pre (a ∷ b ∷ c ∷ []) = do
  x ← number a
  y ← number b
  z ← number c
  some (record { major = x; minor = y; patch = z; pre = pre })
from_parts pre _ = none

abbrev pub no_sign : ℕ → Bool
no_sign c = not (c == b'-' || c == b'+')

unfoldable pub parse_semver : Text → Option Version
unfolding trim_space trim_prefix span split atoi
parse_semver s =
    let t = trim_space s in
    if is_empty t
    then none
    else (let (numbers, pre) = span no_sign (trim_prefix t (codes "v")) in
        from_parts pre (split b'.' numbers))

unfoldable pub equal : Version → Version → Bool
unfolding text_eq
equal a b = a.major == b.major && a.minor == b.minor && a.patch == b.patch && text_eq a.pre b.pre

abbrev patch_gte : Version → Option ℕ → Bool
patch_gte a none = true
patch_gte a (some p) = not (ltb a.patch p)

unfoldable pub gte : Version → Option ℕ → Option ℕ → Bool
gte a none patch = true
gte a (some m) patch =
    if ltb a.minor m then false else if ltb m a.minor then true else patch_gte a patch

abbrev minor_is : Version → Option ℕ → Bool
minor_is v none = true
minor_is v (some m) = v.minor == m

abbrev matches_exact : Version → Option Version → Bool
matches_exact vv none = false
matches_exact vv (some ev) = equal ev vv

unfoldable pub matches_op : Op → Constraint → Version → Bool
unfolding parse_semver equal gte
matches_op Op.exactly c vv = matches_exact vv (parse_semver c.exact)
matches_op Op.caret c vv =
    if c.major == 0
    then vv.major == 0 && (minor_is vv c.minor && gte vv c.minor c.patch)
    else vv.major == c.major && gte vv c.minor c.patch
matches_op Op.tilde c vv = vv.major == c.major && (minor_is vv c.minor && gte vv c.minor c.patch)

unfoldable pub matches : Constraint → Text → Bool
unfolding parse_semver matches_op
matches c v =
    if c.any_version
    then true
    else elim (parse_semver v) [ none ↦ false | some vv ↦ matches_op c.op c vv ]

unfoldable pub greater : Version → Version → Bool
greater a b =
    if not (a.major == b.major)
    then ltb b.major a.major
    else if not (a.minor == b.minor)
    then ltb b.minor a.minor
    else ltb b.patch a.patch

-- The body of the loop, at a version and what it parses to.
abbrev improve : Text → Text × Version → Option Version → Text × Version
improve v (best, best_sv) none = (best, best_sv)
improve v (best, best_sv) (some sv) =
    if is_empty best || greater sv best_sv then (v, sv) else (best, best_sv)

unfoldable pub scan_versions : Constraint → List Text → Text × Version → Text × Version
unfolding matches parse_semver greater
scan_versions c [] s = s
scan_versions c (v ∷ vs) s =
    scan_versions c vs (if not (matches c v) then s else improve v s (parse_semver v))

abbrev pub zero_version : Version
zero_version = record { major = 0; minor = 0; patch = 0; pre = [] }

unfoldable pub highest_satisfying : Constraint → List Text → Text
unfolding scan_versions
highest_satisfying c versions = (scan_versions c versions ([], zero_version)).0
