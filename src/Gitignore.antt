-- ===== src/Gitignore.antt =====
-- The managed section of a consumer's `.gitignore`: pkg/gitignore/gitignore.go.
pub mod Paths
pub mod Section
pub mod Entries
pub mod Rewrite
use mathlib.Core.Option
use forge_development_hub_cl.Base.{
  ℕ, ◌+◌, ◌-◌, Bool, true, false, not, ◌&&◌, ◌||◌, Option, none, some, List, [], ◌∷◌, ◌++◌, Text,
  codes, text_eq, text_lt, is_empty, contains, has_prefix, has_suffix, ltb, leb, ◌==◌,
  if◌then◌else◌, all, any, length,
}
use forge_development_hub_cl.Base.Bytes.{
  trim_space, split, index, take, drop, crlf_to_lf, trim_suffix,
}
use forge_development_hub_cl.Base.Sort.{sort}

abbrev pub marker_begin : Text
marker_begin = codes "# >>> fdh:managed-paths >>>"

abbrev pub marker_end : Text
marker_end = codes "# <<< fdh:managed-paths <<<"

abbrev pub negation_manifest : Text
negation_manifest = codes "!.fdh/manifest.yaml"

abbrev pub negation_lock : Text
negation_lock = codes "!.fdh/lock.yaml"

-- The loop of `uniqueSorted`; `seen` holds the keys of the map, which are the texts of `out`.
unfoldable pub collect : List Text → List Text → List Text
unfolding trim_space contains
collect seen [] = []
collect seen (p ∷ ps) =
    let q = trim_space p in
    let skip = collect seen ps in
    let keep = q ∷ collect (q ∷ seen) ps in if is_empty q || contains seen q then skip else keep

unfoldable pub unique_sorted : List Text → List Text
unfolding collect text_lt sort
unique_sorted paths = sort text_lt (collect [] paths)

unfoldable pub needs_fdh_negation : List Text → Bool
unfolding has_prefix
needs_fdh_negation = any (λ p. has_prefix p (codes ".fdh/"))

-- What `splitSection` returns; `ErrMalformedSection` is `none`.
pub record Parts : Type 0 where
  pub managed : List Text
  pub foreign : Text
  pub before : Text
  pub after : Text

abbrev past_newline : Text → ℕ → ℕ
past_newline [] end = end
past_newline (c ∷ cs) end = if c == b'\n' then end + 1 else end

-- `if end < len(body) && body[end] == '\n' { end++ }`
abbrev newline_at : Text → ℕ → ℕ
newline_at body end = past_newline (drop end body) end

trimmed_lines : List Text → List Text
trimmed_lines [] = []
trimmed_lines (l ∷ ls) =
    let rest = trimmed_lines ls in if is_empty (trim_space l) then rest else trim_space l ∷ rest

-- The non-blank lines, trimmed.
unfoldable pub managed_lines : Text → List Text
unfolding split trim_space trimmed_lines
managed_lines inside = trimmed_lines (split b'\n' inside)

-- One of two trailing line ends goes.
unfoldable pub drop_blank_line : Text → Text
unfolding has_suffix trim_suffix
drop_blank_line before =
    if has_suffix before (codes "\n\n") then trim_suffix before (codes "\n") else before

unfoldable pub split_at : Text → ℕ → ℕ → Parts
unfolding take drop drop_blank_line managed_lines
split_at body begin_idx end_idx =
    let end = newline_at body (end_idx + length marker_end) in
    let before = drop_blank_line (take begin_idx body) in
    let after = drop end body in
    let inside_from = begin_idx + length marker_begin in
    record {
      managed = managed_lines (take (end_idx - inside_from) (drop inside_from body));
      foreign = before ++ after;
      before = before;
      after = after;
    }

abbrev split_found : Text → Option ℕ → Option ℕ → Option Parts
split_found body none none = some (record { managed = []; foreign = body; before = []; after = [] })
split_found body none (some e) = none
split_found body (some b) none = none
split_found body (some b) (some e) = if ltb e b then none else some (split_at body b e)

unfoldable pub split_section : Text → Option Parts
unfolding index split_at
split_section body = split_found body (index body marker_begin) (index body marker_end)

abbrev pub lines : List Text → Text
lines [] = []
lines (p ∷ ps) = p ++ (b'\n' ∷ lines ps)

abbrev pub negations : List Text → List Text
negations cleaned =
    if needs_fdh_negation cleaned then negation_manifest ∷ negation_lock ∷ [] else []

-- The managed block, from the opening sentinel to the line end of the closing one.
unfoldable pub block : List Text → Text
unfolding needs_fdh_negation
block cleaned =
    marker_begin ++ (b'\n' ∷ (lines (cleaned ++ negations cleaned) ++ (marker_end ++ codes "\n")))

-- The separator between the foreign text and a new block.
unfoldable pub separator : Text → Text
unfolding has_suffix
separator foreign =
    if not (has_suffix foreign (codes "\n"))
    then codes "\n\n"
    else if not (has_suffix foreign (codes "\n\n"))
    then codes "\n"
    else codes "\n"

abbrev place : List Text → Parts → Text
place cleaned parts =
    if is_empty parts.foreign
    then block cleaned
    else if not (is_empty parts.before) || not (is_empty parts.after)
    then parts.before ++ (block cleaned ++ parts.after)
    else parts.foreign ++ (separator parts.foreign ++ block cleaned)

abbrev with_parts : List Text → Option Parts → Option Text
with_parts cleaned none = none
with_parts [] (some parts) = some parts.foreign
with_parts (p ∷ ps) (some parts) = some (place (p ∷ ps) parts)

-- `none` is `ErrMalformedSection`.
unfoldable pub rewrite : Text → List Text → Option Text
unfolding split_section unique_sorted block separator
rewrite existing paths = with_parts (unique_sorted paths) (split_section existing)

-- What `Apply` does to the file, which is absent or has a text; its I/O succeeds.
pub data Outcome : Type 0 where
  unchanged : Outcome
  written : Text → Outcome
  malformed : Outcome

abbrev decide_write : Option Text → Text → Option Text → Outcome
decide_write file normalized none = malformed
decide_write none normalized (some updated) =
    if is_empty updated then unchanged else written updated
decide_write (some t) normalized (some updated) =
    if text_eq updated normalized then unchanged else written updated

abbrev contents : Option Text → Text
contents none = []
contents (some t) = t

unfoldable pub apply : Option Text → List Text → Outcome
unfolding rewrite crlf_to_lf text_eq
apply file paths =
    let normalized = crlf_to_lf (contents file) in
    decide_write file normalized (rewrite normalized paths)

-- The managed paths and the foreign text of a file; `none` is the error.
unfoldable pub read : Option Text → Option (List Text × Text)
unfolding split_section crlf_to_lf
read none = some ([], [])
read (some t) = Option.map (λ (p : Parts). (p.managed, p.foreign)) (split_section (crlf_to_lf t))
