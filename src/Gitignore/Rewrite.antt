-- ===== src/Gitignore/Rewrite.antt =====
-- `rewrite`, and `splitSection` behind it: pkg/gitignore/gitignore.go.
use mathlib.Core.List.{append_assoc, append-nil, reverse-append, reverse-reverse}
use forge_development_hub_cl.Base.{
  ◌≡◌, ◌≢◌, ◌∙◌, sym, refl, ap, false, some, List, [], ◌∷◌, ◌++◌, Text, codes, is_empty, arith,
  if◌then◌else◌, All,
}
use forge_development_hub_cl.Base.Search.{Lacks, index-none_concat}
use forge_development_hub_cl.Gitignore.{
  Parts, marker_begin, marker_end, split_section, drop_blank_line, managed_lines, block, separator,
  place, with_parts, rewrite, unique_sorted,
}
use forge_development_hub_cl.Gitignore.Section.{IsForeign, with_section, split_section-found, found}
use forge_development_hub_cl.Gitignore.Entries.{
  IsLine, inside, entries, with_block, entries-IsLine, managed-inside, lines-Lacks,
}

-- There is a managed path.
abbrev pub SomePath : List Text → Type 0
SomePath paths = unique_sorted paths ≢ []

rewrite-place :
    (existing : Text) (paths : List Text) (parts : Parts)
    → split_section existing ≡ some parts
    → SomePath paths
    → rewrite existing paths ≡ some (place (unique_sorted paths) parts)
unfolding rewrite
rewrite-place existing paths parts e some_path =
    ap (with_parts (unique_sorted paths)) e ∙ go (unique_sorted paths) some_path
  where
    go :
        (cleaned : List Text)
        → cleaned ≢ []
        → with_parts cleaned (some parts) ≡ some (place cleaned parts)
    go [] h = absurd (h refl)
    go (p ∷ ps) h = refl

-- Where the text had a section, the block comes to stand in its place.
place-found :
    (cleaned managed : List Text) (before after : Text)
    → place cleaned
        (record { managed = managed; foreign = before ++ after; before = before; after = after })
      ≡ before ++ (block cleaned ++ after)
place-found cleaned managed [] [] = sym (append-nil (block cleaned))
place-found cleaned managed [] (a ∷ after) = refl
place-found cleaned managed (b ∷ before) after = refl

-- A section with no `#` inside, behind a text with no sentinel, is replaced in its place when
-- there is a managed path: in front of the block stands the text that stood there, less one of
-- two trailing line ends, and behind it the text that stood there.
pub rewrite-with_section :
    (before old after : Text) (paths : List Text)
    → IsForeign before
    → Lacks b'#' old
    → SomePath paths
    → rewrite (with_section before old after) paths
      ≡ some (drop_blank_line before ++ (block (unique_sorted paths) ++ after))
rewrite-with_section before old after paths foreign plain some_path =
    rewrite-place (with_section before old after) paths (found before old after foreign plain)
      (split_section-found before old after foreign plain) some_path
    ∙ ap some (place-found (unique_sorted paths) (managed_lines old) (drop_blank_line before) after)

-- With no managed path, a section with no `#` inside, behind a text with no sentinel, goes, and
-- the text around it stays, less one of two line ends in front of it.
pub rewrite-remove :
    (before old after : Text)
    → IsForeign before
    → Lacks b'#' old
    → rewrite (with_section before old after) [] ≡ some (drop_blank_line before ++ after)
unfolding rewrite unique_sorted
rewrite-remove before old after foreign plain =
    ap (with_parts []) (split_section-found before old after foreign plain)

split_section-foreign :
    (f : Text)
    → IsForeign f
    → split_section f ≡ some (record { managed = []; foreign = f; before = []; after = [] })
unfolding split_section
split_section-foreign f foreign = ground arith

-- A text with no section gets the block behind it.
abbrev pub appended : Text → List Text → Text
appended f cleaned = if is_empty f then block cleaned else f ++ (separator f ++ block cleaned)

rewrite-foreign :
    (f : Text) (paths : List Text)
    → IsForeign f
    → SomePath paths
    → rewrite f paths ≡ some (appended f (unique_sorted paths))
rewrite-foreign f paths foreign some_path =
    rewrite-place f paths _ (split_section-foreign f foreign) some_path

-- A text that ends with a line end.
abbrev pub line_ended : Text → Text
line_ended g = g ++ b'\n' ∷ []

drop_blank_line-two : (g : Text) → drop_blank_line (line_ended (line_ended g)) ≡ line_ended g
unfolding drop_blank_line
drop_blank_line-two g = simp reverse-append (rw reverse-reverse)

separator-line_ended : (g : Text) → separator (line_ended g) ≡ codes "\n"
unfolding separator
separator-line_ended g = simp reverse-append (ground arith)

IsForeign-line_ended : (f : Text) → IsForeign f → IsForeign (line_ended f)
IsForeign-line_ended f foreign = (
  index-none_concat b'\n' marker_begin refl (λ e. cc) f foreign.0,
  index-none_concat b'\n' marker_end refl (λ e. cc) f foreign.1,
)

appended-line_ended :
    (g : Text) (cleaned : List Text)
    → appended (line_ended g) cleaned ≡ line_ended (line_ended g) ++ block cleaned
appended-line_ended g cleaned =
    rw (not-empty g, separator-line_ended)
      (sym (append_assoc (line_ended g) (codes "\n") (block cleaned)))
  where
    not-empty : (g : Text) → is_empty (line_ended g) ≡ false
    not-empty [] = refl
    not-empty (c ∷ cs) = refl

section-of :
    (b : Text) (cleaned : List Text) → b ++ block cleaned ≡ with_section b (inside cleaned) []
section-of b cleaned =
    ap (λ (x : Text). b ++ x) (sym (append-nil (block cleaned))) ∙ with_block b [] cleaned

module _ (g : Text) (paths : List Text) (foreign : IsForeign (line_ended g))
    (own_lines : All IsLine paths) where
  plain-inside : Lacks b'#' (inside (unique_sorted paths))
  plain-inside = lines-Lacks (entries (unique_sorted paths)) (entries-IsLine paths own_lines)

  -- What `Read` gives back of a text behind which the block of the paths stands.
  abbrev pub with_entries : Parts
  with_entries = record {
    managed = entries (unique_sorted paths);
    foreign = line_ended g;
    before = line_ended g;
    after = [];
  }

  split_section-block :
      split_section (line_ended (line_ended g) ++ block (unique_sorted paths)) ≡ some with_entries
  split_section-block =
      ap split_section (section-of (line_ended (line_ended g)) (unique_sorted paths))
      ∙ split_section-found (line_ended (line_ended g)) (inside (unique_sorted paths)) []
          (IsForeign-line_ended (line_ended g) foreign) plain-inside
      ∙ λ i. some (record {
        managed = managed-inside (unique_sorted paths) (entries-IsLine paths own_lines) i;
        foreign =
            (ap (λ (x : Text). x ++ []) (drop_blank_line-two g) ∙ append-nil (line_ended g)) i;
        before = drop_blank_line-two g i;
        after = [];
      })

  -- A text that ends with a line end and holds no sentinel gets the block of the managed paths,
  -- of which there is one at least and each is a trimmed line with no `#`; splitting the result
  -- gives back the text unchanged, with the managed paths and the negations.
  pub split_section-rewrite :
      SomePath paths
      → (out : Text) × (rewrite (line_ended g) paths ≡ some out)
        × (split_section out ≡ some with_entries)
  split_section-rewrite some_path = (
    line_ended (line_ended g) ++ block (unique_sorted paths),
    rewrite-foreign (line_ended g) paths foreign some_path
        ∙ ap some (appended-line_ended g (unique_sorted paths)),
    split_section-block,
  )

  rewrite-block :
      (b : Text)
      → IsForeign b
      → SomePath paths
      → rewrite (b ++ block (unique_sorted paths)) paths
        ≡ some (drop_blank_line b ++ block (unique_sorted paths))
  rewrite-block b fb some_path =
      ap (λ (x : Text). rewrite x paths) (section-of b (unique_sorted paths))
      ∙ rewrite-with_section b (inside (unique_sorted paths)) [] paths fb plain-inside some_path
      ∙ ap (λ (x : Text). some (drop_blank_line b ++ x)) (append-nil (block (unique_sorted paths)))

  -- For a text with no sentinel that ends with one line end, and managed paths, of which there is
  -- one at least and each is a trimmed line with no `#`: a first application leaves a blank line
  -- in front of the block; a second one, with the same paths, drops the blank line; from then on
  -- nothing changes.
  pub rewrite_twice :
      SomePath paths
      → drop_blank_line (line_ended g) ≡ line_ended g
      → (rewrite (line_ended g) paths
          ≡ some (line_ended (line_ended g) ++ block (unique_sorted paths)))
        × (rewrite (line_ended (line_ended g) ++ block (unique_sorted paths)) paths
            ≡ some (line_ended g ++ block (unique_sorted paths)))
        × (rewrite (line_ended g ++ block (unique_sorted paths)) paths
            ≡ some (line_ended g ++ block (unique_sorted paths)))
  rewrite_twice some_path one = (
    rewrite-foreign (line_ended g) paths foreign some_path
        ∙ ap some (appended-line_ended g (unique_sorted paths)),
    rewrite-block (line_ended (line_ended g)) (IsForeign-line_ended (line_ended g) foreign)
          some_path
        ∙ ap (λ (x : Text). some (x ++ block (unique_sorted paths))) (drop_blank_line-two g),
    rewrite-block (line_ended g) foreign some_path
        ∙ ap (λ (x : Text). some (x ++ block (unique_sorted paths))) one,
  )
