-- ===== src/Scan.antt =====
-- The audit of components for secrets and injections: pkg/scan/scan.go. The regular expressions
-- are parameters: the first match of a detector in a line, and the rules that a line allows.
pub mod Verdicts
use forge_development_hub_cl.Base.{
  ℕ, zero, suc, ◌+◌, ◌-◌, ◌*◌, Bool, true, false, not, ◌&&◌, ◌||◌, Option, none, some, List, [],
  ◌∷◌, ◌++◌, Text, codes, text_eq, is_empty, if◌then◌else◌, leb, ltb, ◌==◌, length, any, has_prefix,
  has_suffix,
}
use forge_development_hub_cl.Base.Bytes.{contains, split, to_lower, take, drop, index, span}
use mathlib.Core.List.{reverse}

pub data Severity : Type 0 where
  info : Severity
  warning : Severity
  error : Severity

pub record Finding : Type 0 where
  pub severity : Severity
  pub rule : Text
  pub path : Text
  pub line : ℕ
  pub snippet : Text

abbrev pub is_error : Severity → Bool
is_error error = true
is_error _ = false

abbrev pub is_warning : Severity → Bool
is_warning warning = true
is_warning _ = false

unfoldable pub has_error : List Finding → Bool
has_error [] = false
has_error (f ∷ fs) = is_error f.severity || has_error fs

pub data Status : Type 0 where
  pass : Status
  warn : Status
  fail : Status
  unscanned : Status

-- The loop over the findings, which returns at the first error.
abbrev pub judged : Severity → Status → Status → Status
judged error s rest = fail
judged warning s rest = rest
judged info s rest = rest

abbrev pub status_after : Severity → Status → Status
status_after warning s = warn
status_after _ s = s

unfoldable pub verdict_from : Status → List Finding → Status
verdict_from s [] = s
verdict_from s (f ∷ fs) = judged f.severity s (verdict_from (status_after f.severity s) fs)

unfoldable pub verdict : List Finding → Status
unfolding verdict_from
verdict fs = verdict_from pass fs

pub record Detector : Type 0 where
  pub name : Text
  pub level : Severity

unfoldable pub detectors : List Detector
detectors =
    record { name = codes "secret/github-token"; level = error }
    ∷ record { name = codes "secret/aws-key"; level = error }
    ∷ record { name = codes "secret/jwt"; level = warning }
    ∷ record { name = codes "secret/url-cred"; level = error }
    ∷ record { name = codes "hook/curl-pipe-sh"; level = error }
    ∷ record { name = codes "hook/eval"; level = warning }
    ∷ []

abbrev pub Matchers : Type 0
Matchers = (Text → Text → Text) × (Text → List Text)

-- What is behind the last slash: `filepath.Base` of a path that does not end with a slash.
abbrev last_of : Text → List Text → Text
last_of t [] = t
last_of t (u ∷ us) = last_of u us

abbrev base : Text → Text
unfolding split
base path = last_of [] (split b'/' path)

-- `filepath.Ext` of a name: from the last dot on, or nothing.
abbrev extension : Text → Text
unfolding span
extension name =
    let (back, rest) = span (λ c. not (c == b'.')) (reverse name) in
    if is_empty rest then [] else b'.' ∷ reverse back

abbrev binary_extensions : List Text
binary_extensions =
    codes ".png"
    ∷ codes ".jpg"
    ∷ codes ".jpeg"
    ∷ codes ".gif"
    ∷ codes ".pdf"
    ∷ codes ".zip"
    ∷ codes ".tar"
    ∷ codes ".gz"
    ∷ codes ".tgz"
    ∷ codes ".bin"
    ∷ codes ".exe"
    ∷ []

unfoldable pub should_skip : Text → Bool
unfolding base extension has_suffix has_prefix text_eq contains to_lower
should_skip path =
    let name = base path in
    has_suffix name (codes ".fdh-managed.yaml")
    || text_eq name (codes ".skill-version")
    || has_prefix name (codes ".skill-version-")
    || text_eq name (codes ".skill-meta.yaml")
    || contains binary_extensions (to_lower (extension name))

abbrev nul_count : Text → ℕ
nul_count [] = 0
nul_count (c ∷ cs) = (if c == 0 then 1 else 0) + nul_count cs

-- Less than a twentieth of the bytes is NUL.
unfoldable pub looks_like_text : Text → Bool
looks_like_text b = if is_empty b then true else ltb (nul_count b * 20) (length b)

abbrev stars : ℕ → Text
stars zero = []
stars (suc n) = b'*' ∷ stars n

abbrev is_between : ℕ → ℕ → ℕ → Bool
is_between low high c = leb low c && leb c high

-- The second byte that UTF-8 allows behind a first one.
abbrev follows : ℕ → ℕ → Bool
follows b c =
    if b == 224
    then is_between 160 191 c
    else if b == 237
    then is_between 128 159 c
    else if b == 240
    then is_between 144 191 c
    else if b == 244
    then is_between 128 143 c
    else is_between 128 191 c

abbrev is_next : Text → Bool
is_next [] = false
is_next (c ∷ cs) = is_between 128 191 c

-- How many bytes follow the first one in its rune: none if they are not UTF-8.
abbrev trailing : ℕ → Text → ℕ
trailing b [] = 0
trailing b (c ∷ cs) =
    if not (is_between 194 244 b && follows b c)
    then 0
    else if ltb b 224
    then 1
    else if not (is_next cs)
    then 0
    else if ltb b 240
    then 2
    else if is_next (drop 1 cs)
    then 3
    else 0

-- The runes behind the bytes that are passed over.
unfoldable pub runes_behind : ℕ → Text → ℕ
unfolding drop
runes_behind n [] = 0
runes_behind (suc n) (c ∷ cs) = runes_behind n cs
runes_behind zero (c ∷ cs) = suc (runes_behind (trailing c cs) cs)

-- A run of at least eight runes that are not spaces shows its first and last three bytes.
abbrev redacted : Text → Text
unfolding take drop runes_behind
redacted s =
    if leb 8 (runes_behind 0 s)
    then take 3 s ++ (stars (length s - 6) ++ drop (length s - 3) s)
    else s

abbrev is_blank : ℕ → Bool
is_blank c = c == b' ' || c == 9 || c == 10 || c == 12 || c == 13

unfoldable pub obfuscate_from : Text → Text → Text
unfolding redacted
obfuscate_from run [] = redacted run
obfuscate_from run (c ∷ cs) = elim (is_blank c) [
  | true ↦ redacted run ++ (c ∷ obfuscate_from [] cs)
  | false ↦ obfuscate_from (run ++ (c ∷ [])) cs
]

unfoldable pub obfuscate : Text → Text
unfolding obfuscate_from
obfuscate line = obfuscate_from [] line

abbrev is_some : Option ℕ → Bool
is_some none = false
is_some (some n) = true

-- The detector finds something in the line that is neither allowed there nor an example of a secret.
unfoldable pub reports : Matchers → Text → Detector → Bool
unfolding contains has_prefix index
reports (found, allowed) line det =
    let m = found det.name line in
    not (is_empty m)
    && not (contains (allowed line) det.name)
    && not (has_prefix det.name (codes "secret/") && is_some (index m (codes "EXAMPLE")))

unfoldable pub scan_line : Matchers → Text → ℕ → Text → List Detector → List Finding
scan_line ms path n line [] = []
scan_line ms path n line (det ∷ ds) =
    let rest = scan_line ms path n line ds in
    if reports ms line det
    then record {
      severity = det.level;
      rule = det.name;
      path = path;
      line = n;
      snippet = obfuscate line;
    }
      ∷ rest
    else rest

unfoldable pub scan_lines : Matchers → Text → ℕ → List Text → List Finding
unfolding scan_line
scan_lines ms path n [] = []
scan_lines ms path n (l ∷ ls) = scan_line ms path n l detectors ++ scan_lines ms path (n + 1) ls

-- A file that cannot be read has no bytes, and is passed over.
unfoldable pub scan_file : Matchers → Text → Option Text → List Finding
unfolding scan_lines
scan_file ms path none = []
scan_file ms path (some body) =
    if looks_like_text body then scan_lines ms path 1 (split b'\n' body) else []

unfoldable pub scan_files : Matchers → List (Text × Option Text) → List Finding
unfolding scan_file
scan_files ms [] = []
scan_files ms ((path, body) ∷ fs) =
    let rest = scan_files ms fs in if should_skip path then rest else scan_file ms path body ++ rest

-- A path that is given: it is not there, or it stands for the files that a walk below it finds.
pub data Given : Type 0 where
  absent : Given
  present : List (Text × Option Text) → Given

-- The findings so far, and whether a path was not there.
unfoldable pub scan : Matchers → List Given → List Finding × Bool
unfolding scan_files
scan ms [] = ([], false)
scan ms (absent ∷ ps) = ([], true)
scan ms (present fs ∷ ps) =
    let (found, missing) = scan ms ps in (scan_files ms fs ++ found, missing)

unfoldable pub dir_status : Matchers → Given → Status
unfolding scan verdict
dir_status ms p =
    let (found, missing) = scan ms (p ∷ []) in if missing then unscanned else verdict found
