-- ===== src/Gitignore/Section.antt =====
-- `splitSection` on a text with a block: pkg/gitignore/gitignore.go.
use forge_development_hub_cl.Base.{
  ℕ, ◌+◌, ◌-◌, ◌≡◌, ◌∙◌, sym, refl, ap, none, some, [], ◌∷◌, ◌++◌, Text, codes, arith, length,
  has_prefix,
}
use forge_development_hub_cl.Base.Bytes.{index, take, drop}
use forge_development_hub_cl.Base.Search.{
  Lacks, index-append, index-none_append, index-skip, take-append, drop-append, drop-add,
  length-append,
}
use forge_development_hub_cl.Gitignore.{
  Parts, marker_begin, marker_end, split_section, split_at, split_found, newline_at, past_newline,
  drop_blank_line, managed_lines,
}
use mathlib.Core.Path.{ap₂}
use mathlib.Core.List.{append_assoc, append-nil}

-- The sentinels behind their first byte.
abbrev begin_rest : Text
begin_rest = codes " >>> fdh:managed-paths >>>"

abbrev end_rest : Text
end_rest = codes " <<< fdh:managed-paths <<<"

-- A text in which neither sentinel occurs.
abbrev pub IsForeign : Text → Type 0
IsForeign b = (index b marker_begin ≡ none) × (index b marker_end ≡ none)

abbrev pub with_section : Text → Text → Text → Text
with_section b inside after = b ++ (marker_begin ++ (inside ++ (marker_end ++ (b'\n' ∷ after))))

module _ (b inside after : Text) (foreign : IsForeign b) (plain : Lacks b'#' inside) where
  index-begin : index (with_section b inside after) marker_begin ≡ some (length b)
  index-begin = index-append b'#' begin_rest refl b _ foreign.0

  -- Everything in front of the closing sentinel.
  abbrev front : Text
  front = b ++ (marker_begin ++ inside)

  index-inside : index inside marker_end ≡ none
  index-inside =
      rw append-nil at
        (index-skip b'#' end_rest refl inside [] plain (unfold index has_prefix in refl))

  index-begin_rest : index (begin_rest ++ inside) marker_end ≡ none
  index-begin_rest = index-skip b'#' end_rest refl begin_rest inside refl index-inside

  end-not-in-begin : index (marker_begin ++ inside) marker_end ≡ none
  unfolding index has_prefix
  end-not-in-begin = rw index-begin_rest

  with_section-front : with_section b inside after ≡ front ++ (marker_end ++ (b'\n' ∷ after))
  with_section-front =
      ap (λ (x : Text). b ++ x) (sym (append_assoc marker_begin inside _))
      ∙ sym (append_assoc b (marker_begin ++ inside) _)

  index-end : index (with_section b inside after) marker_end ≡ some (length front)
  index-end =
      ap (λ (x : Text). index x marker_end) with_section-front
      ∙ index-append b'#' end_rest refl front (b'\n' ∷ after)
          (index-none_append b'#' end_rest refl b (begin_rest ++ inside) foreign.1 end-not-in-begin)

  length-front : length front ≡ length b + (length marker_begin + length inside)
  length-front =
      length-append b (marker_begin ++ inside)
      ∙ ap (λ (n : ℕ). length b + n) (length-append marker_begin inside)

  take-begin : take (length b) (with_section b inside after) ≡ b
  take-begin = take-append b _

  drop-begin :
      drop (length b + length marker_begin) (with_section b inside after)
      ≡ inside ++ (marker_end ++ (b'\n' ∷ after))
  drop-begin =
      drop-add (length b) (length marker_begin) _
      ∙ ap (drop (length marker_begin)) (drop-append b _)
      ∙ drop-append marker_begin _

  take-inside :
      take
        (length front - (length b + length marker_begin))
        (inside ++ (marker_end ++ (b'\n' ∷ after)))
      ≡ inside
  take-inside =
      let e : length front - (length b + length marker_begin) ≡ length inside =
        omega (arith, length-front) in
      ap (λ (n : ℕ). take n (inside ++ (marker_end ++ (b'\n' ∷ after)))) e ∙ take-append inside _

  drop-end : drop (length front + length marker_end) (with_section b inside after) ≡ b'\n' ∷ after
  drop-end =
      ap (drop (length front + length marker_end)) with_section-front
      ∙ drop-add (length front) (length marker_end) _
      ∙ ap (drop (length marker_end)) (drop-append front _)
      ∙ drop-append marker_end _

  drop-newline : drop (length front + length marker_end + 1) (with_section b inside after) ≡ after
  drop-newline =
      drop-add (length front + length marker_end) 1 _ ∙ ap (drop 1) drop-end ∙ (unfold drop in refl)

  abbrev pub found : Parts
  found = record {
    managed = managed_lines inside;
    foreign = drop_blank_line b ++ after;
    before = drop_blank_line b;
    after = after;
  }

  newline_at-end :
      newline_at (with_section b inside after) (length front + length marker_end)
      ≡ length front + length marker_end + 1
  newline_at-end = ap (λ (x : Text). past_newline x (length front + length marker_end)) drop-end

  after-is :
      drop
        (newline_at (with_section b inside after) (length front + length marker_end))
        (with_section b inside after)
      ≡ after
  after-is = ap (λ (n : ℕ). drop n (with_section b inside after)) newline_at-end ∙ drop-newline

  split_at-front : split_at (with_section b inside after) (length b) (length front) ≡ found
  unfolding split_at
  split_at-front = λ i. record {
    managed = managed_lines (
        (ap (λ (x : Text). take (length front - (length b + length marker_begin)) x) drop-begin
            ∙ take-inside)
          i);
    foreign = drop_blank_line (take-begin i) ++ after-is i;
    before = drop_blank_line (take-begin i);
    after = after-is i;
  }

  -- The section is found, with its text between the sentinels and the text on both sides.
  pub split_section-found : split_section (with_section b inside after) ≡ some found
  unfolding split_section
  split_section-found =
      ap₂ (split_found (with_section b inside after)) index-begin index-end
      ∙ ground (arith, length-front, split_at-front)
