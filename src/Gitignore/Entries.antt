-- ===== src/Gitignore/Entries.antt =====
-- Reading the lines of the block back: pkg/gitignore/gitignore.go.
use mathlib.Core.List.{append_assoc}
use mathlib.Core.Bool.{false≢true}
use mathlib.Core.Path.{subst}
use forge_development_hub_cl.Base.{
  ◌≡◌, ◌∙◌, sym, refl, ap, true, false, not, List, [], ◌∷◌, ◌++◌, Text, text_eq, text_eq_iff,
  is_empty, contains, arith, Bool-cases, inl, inr, ◌==◌, All,
}
use forge_development_hub_cl.Base.Bytes.{trim_space, split}
use forge_development_hub_cl.Base.Search.{Lacks}
use forge_development_hub_cl.Base.Splits.{split-append, all-append}
use forge_development_hub_cl.Gitignore.{
  managed_lines, trimmed_lines, lines, negations, block, unique_sorted, negation_manifest,
  negation_lock, needs_fdh_negation,
}
use forge_development_hub_cl.Gitignore.Paths.{is_given, unique_sorted-Managed}
use forge_development_hub_cl.Gitignore.Section.{with_section}

-- A path that stands on a line of its own as it is.
pub record IsLine (p : Text) : Type 0 where
  pub trimmed : trim_space p ≡ p
  pub given : is_empty p ≡ false
  pub one_line : Lacks b'\n' p
  pub no_mark : Lacks b'#' p

managed_lines-lines : (ps : List Text) → All IsLine ps → trimmed_lines (split b'\n' (lines ps)) ≡ ps
unfolding trimmed_lines split trim_space
managed_lines-lines [] h = refl
managed_lines-lines (p ∷ ps) (l, ls) =
    ap trimmed_lines (split-append b'\n' p (lines ps) l.one_line)
    ∙ ground (arith, l.trimmed, l.given, managed_lines-lines ps ls)

pub lines-Lacks : (ps : List Text) → All IsLine ps → Lacks b'#' (lines ps)
lines-Lacks [] h = refl
lines-Lacks (p ∷ ps) (l, ls) =
    ground
      (arith, all-append (λ c. not (c == b'#')) p (b'\n' ∷ lines ps), l.no_mark, lines-Lacks ps ls)

All-of_contains :
    (P : Text → Type 0) (xs : List Text) → ((q : Text) → contains xs q ≡ true → P q) → All P xs
unfolding contains
All-of_contains P [] f = tt
All-of_contains P (x ∷ xs) f =
    (f x (ground (arith, text_eq_iff x x)), All-of_contains P xs (λ q h. f q (ground arith)))

is_given-IsLine : (ps : List Text) (q : Text) → All IsLine ps → is_given ps q ≡ true → IsLine q
is_given-IsLine [] q h g = absurd (false≢true g)
is_given-IsLine (p ∷ ps) q (l, ls) g = elim (Bool-cases (text_eq (trim_space p) q)) [
  | inl e ↦ subst IsLine (sym l.trimmed ∙ (text_eq_iff (trim_space p) q).0 e) l
  | inr e ↦ is_given-IsLine ps q ls (ground arith)
]

unique_sorted-IsLine : (ps : List Text) → All IsLine ps → All IsLine (unique_sorted ps)
unique_sorted-IsLine ps h =
    All-of_contains IsLine (unique_sorted ps)
      λ q c. is_given-IsLine ps q h (ground (arith, (unique_sorted-Managed ps).1 q))

negations-IsLine : (ps : List Text) → All IsLine (negations ps)
unfolding trim_space
negations-IsLine ps = elim (Bool-cases (needs_fdh_negation ps)) [
  | inl e ↦
      rw e
        (plain negation_manifest refl refl refl refl, (plain negation_lock refl refl refl refl, tt))
  | inr e ↦ rw e tt
]
  where
    plain :
        (p : Text) → trim_space p ≡ p → is_empty p ≡ false → Lacks b'\n' p → Lacks b'#' p → IsLine p
    plain p a b c d = record { trimmed = a; given = b; one_line = c; no_mark = d }

All-append : (P : Text → Type 0) (xs ys : List Text) → All P xs → All P ys → All P (xs ++ ys)
All-append P [] ys h k = k
All-append P (x ∷ xs) ys (h, hs) k = (h, All-append P xs ys hs k)

-- The lines of the block.
abbrev pub entries : List Text → List Text
entries cleaned = cleaned ++ negations cleaned

abbrev pub inside : List Text → Text
inside cleaned = b'\n' ∷ lines (entries cleaned)

pub with_block :
    (b after : Text) (cleaned : List Text)
    → b ++ (block cleaned ++ after) ≡ with_section b (inside cleaned) after
unfolding block
with_block b after cleaned = simp append_assoc

pub entries-IsLine : (ps : List Text) → All IsLine ps → All IsLine (entries (unique_sorted ps))
entries-IsLine ps h =
    All-append IsLine (unique_sorted ps) _ (unique_sorted-IsLine ps h)
      (negations-IsLine (unique_sorted ps))

pub managed-inside :
    (cleaned : List Text)
    → All IsLine (entries cleaned)
    → managed_lines (inside cleaned) ≡ entries cleaned
unfolding managed_lines
managed-inside cleaned h = managed_lines-lines (entries cleaned) h
