-- ===== src/Tests/Audit.antt =====
-- A scan of two files, with toy matchers: a line is found by its first byte.
use forge_development_hub_cl.Base.{
  true, ◌&&◌, ◌≡◌, refl, Option, some, List, [], ◌∷◌, Text, codes, text_eq, has_prefix, any,
  if◌then◌else◌,
}
use forge_development_hub_cl.Base.Bytes.{split}
use forge_development_hub_cl.Scan.{
  Matchers, warn, unscanned, present, absent, is_error, is_warning, dir_status, should_skip,
  looks_like_text, obfuscate, reports, detectors,
}
use forge_development_hub_cl.Scan.Verdicts.{status_of, file_has, dir_status-files}

abbrev toy : Matchers
toy = (
  λ rule line.
      if text_eq rule (codes "hook/eval") && has_prefix line (codes "eval(")
      then codes "eval("
      else [],
  λ line. [],
)

abbrev sources : List (Text × Option Text)
sources =
    (codes "a/HOOK.md", some (codes "x\neval(y)"))
    ∷ (codes "a/logo.PNG", some (codes "eval(z)"))
    ∷ []

image : should_skip (codes "a/logo.PNG") ≡ true
unfolding should_skip
image = refl

hidden_token : obfuscate (codes "key abcdefghij!") ≡ codes "key abc*****ij!"
unfolding obfuscate
hidden_token = refl

hook_warns : dir_status toy (present sources) ≡ warn
unfolding dir_status should_skip looks_like_text reports detectors split
hook_warns = refl

dir_status-files_example :
    (dir_status toy (present sources)
      ≡ status_of (any (file_has is_error toy) sources) (any (file_has is_warning toy) sources))
    × (dir_status toy absent ≡ unscanned)
dir_status-files_example = dir_status-files toy sources
