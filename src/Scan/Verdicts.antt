-- ===== src/Scan/Verdicts.antt =====
-- The verdict of a scan, from the lines of the files: pkg/scan/scan.go.
use forge_development_hub_cl.Base.{
  ℕ, ◌+◌, Bool, true, false, not, ◌&&◌, ◌||◌, ◌≡◌, refl, Option, none, some, List, [], ◌∷◌, ◌++◌,
  Text, any, arith,
}
use forge_development_hub_cl.Base.Bytes.{split}
use forge_development_hub_cl.Scan.{
  Severity, info, warning, error, Finding, is_error, is_warning, Status, pass, warn, fail,
  unscanned, judged, status_after, verdict_from, verdict, Detector, detectors, Matchers,
  should_skip, looks_like_text, reports, scan_line, scan_lines, scan_file, scan_files, absent,
  present, scan, dir_status,
}

-- Some detector of this kind reports a line of a file that is text and is not skipped.
module _ (kind : Severity → Bool) (ms : Matchers) where
  unfoldable pub line_has : Text → Bool
  line_has line = any (λ (det : Detector). kind det.level && reports ms line det) detectors

  unfoldable pub file_has : Text × Option Text → Bool
  unfolding line_has
  file_has (path, none) = false
  file_has (path, some body) =
      not (should_skip path) && (looks_like_text body && any line_has (split b'\n' body))

  abbrev has_kind : List Finding → Bool
  has_kind fs = any (λ (f : Finding). kind f.severity) fs

any-append {ℓ} :
    {A : Type ℓ} (p : A → Bool) (xs ys : List A) → any p (xs ++ ys) ≡ (any p xs || any p ys)
any-append p [] ys = refl
any-append p (x ∷ xs) ys = ground (arith, any-append p xs ys)

module _ (kind : Severity → Bool) (ms : Matchers) where
  has_kind-scan_line :
      (path : Text) (n : ℕ) (line : Text) (ds : List Detector)
      → has_kind kind ms (scan_line ms path n line ds)
        ≡ any (λ (det : Detector). kind det.level && reports ms line det) ds
  unfolding scan_line
  has_kind-scan_line path n line [] = refl
  has_kind-scan_line path n line (det ∷ ds) = ground (arith, has_kind-scan_line path n line ds)

  has_kind-scan_lines :
      (path : Text) (n : ℕ) (ls : List Text)
      → has_kind kind ms (scan_lines ms path n ls) ≡ any (line_has kind ms) ls
  unfolding scan_lines line_has
  has_kind-scan_lines path n [] = refl
  has_kind-scan_lines path n (l ∷ ls) =
      rw
        (
          any-append (λ (f : Finding). kind f.severity) (scan_line ms path n l detectors)
              (scan_lines ms path (n + 1) ls),
          has_kind-scan_line path n l detectors,
          has_kind-scan_lines path (n + 1) ls,
        )
        refl

  has_kind-scan_files :
      (fs : List (Text × Option Text))
      → has_kind kind ms (scan_files ms fs) ≡ any (file_has kind ms) fs
  unfolding scan_files scan_file file_has
  has_kind-scan_files [] = refl
  has_kind-scan_files ((path, none) ∷ fs) = ground (arith, has_kind-scan_files fs)
  has_kind-scan_files ((path, some body) ∷ fs) =
      let found = scan_lines ms path 1 (split b'\n' body) in
      ground (
        arith,
        has_kind-scan_files fs,
        any-append (λ (f : Finding). kind f.severity) found (scan_files ms fs),
        has_kind-scan_lines path 1 (split b'\n' body),
      )

-- The verdict that the kinds of findings make.
abbrev pub status_of : Bool → Bool → Status
status_of true w = fail
status_of false true = warn
status_of false false = pass

-- One finding in front of the others.
judged-warn :
    (s : Severity) (e : Bool) (rest : Status → Status)
    → rest warn ≡ status_of e true
    → judged s warn (rest (status_after s warn)) ≡ status_of (is_error s || e) true
judged-warn info e rest h = h
judged-warn warning e rest h = h
judged-warn error e rest h = refl

judged-pass :
    (s : Severity) (e w : Bool) (rest : Status → Status)
    → rest warn ≡ status_of e true
    → rest pass ≡ status_of e w
    → judged s pass (rest (status_after s pass)) ≡ status_of (is_error s || e) (is_warning s || w)
judged-pass info e w rest hw h = h
judged-pass warning e w rest hw h = hw
judged-pass error e w rest hw h = refl

verdict_from-warn :
    (ms : Matchers) (fs : List Finding)
    → verdict_from warn fs ≡ status_of (has_kind is_error ms fs) true
unfolding verdict_from
verdict_from-warn ms [] = refl
verdict_from-warn ms (f ∷ fs) =
    judged-warn f.severity (has_kind is_error ms fs) (λ s. verdict_from s fs)
      (verdict_from-warn ms fs)

verdict_from-pass :
    (ms : Matchers) (fs : List Finding)
    → verdict_from pass fs ≡ status_of (has_kind is_error ms fs) (has_kind is_warning ms fs)
unfolding verdict_from
verdict_from-pass ms [] = refl
verdict_from-pass ms (f ∷ fs) =
    judged-pass f.severity (has_kind is_error ms fs) (has_kind is_warning ms fs)
      (λ s. verdict_from s fs) (verdict_from-warn ms fs) (verdict_from-pass ms fs)

append-nil : (fs : List Finding) → fs ++ [] ≡ fs
append-nil [] = refl
append-nil (f ∷ fs) = rw (append-nil fs) refl

-- The files are those that the walk finds, a symbolic link among them as the file behind it, and
-- a file is text if less than a twentieth of its bytes is NUL.
-- The status of a directory is `fail` if some file in it that is not skipped and is text has a line
-- in which a detector of an error reports, else `warn` if one has such a line for a warning, else
-- `pass`; and of a path that is not there it is `none`.
pub dir_status-files :
    (ms : Matchers) (fs : List (Text × Option Text))
    → (dir_status ms (present fs)
        ≡ status_of (any (file_has is_error ms) fs) (any (file_has is_warning ms) fs))
      × (dir_status ms absent ≡ unscanned)
unfolding dir_status scan verdict
dir_status-files ms fs =
    let found = scan_files ms fs in
    (
      rw
          (
            append-nil found,
            verdict_from-pass ms found,
            has_kind-scan_files is_error ms fs,
            has_kind-scan_files is_warning ms fs,
          )
          refl,
      refl,
    )
