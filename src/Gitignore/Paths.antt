-- ===== src/Gitignore/Paths.antt =====
-- The paths of `uniqueSorted`: pkg/gitignore/gitignore.go.
use forge_development_hub_cl.Base.{
  ◌≡◌, ◌∙◌, refl, Bool, not, ◌&&◌, ◌||◌, List, [], ◌∷◌, Text, text_eq, text_eq_iff, text_eq_refl,
  is_empty, contains, any, arith, Bool-cases, inl, inr,
}
use forge_development_hub_cl.Base.Bytes.{trim_space}
use forge_development_hub_cl.Base.Order.{IsNodup, IsAscending, contains-sort, sort-IsAscending}
use forge_development_hub_cl.Gitignore.{collect, unique_sorted}

-- Some path is the text once it is trimmed.
abbrev pub is_given : List Text → Text → Bool
is_given ps q = any (λ p. text_eq (trim_space p) q) ps

contains-collect :
    (seen ps : List Text) (q : Text)
    → contains (collect seen ps) q ≡ (is_given ps q && (not (is_empty q) && not (contains seen q)))
unfolding collect contains
contains-collect seen [] q = refl
contains-collect seen (p ∷ ps) q = ground (
  arith,
  contains-collect seen ps q,
  contains-collect (trim_space p ∷ seen) ps q,
  text_eq_iff (trim_space p) q,
)

collect-IsNodup : (seen ps : List Text) → IsNodup (collect seen ps)
unfolding collect contains
collect-IsNodup seen [] = tt
collect-IsNodup seen (p ∷ ps) = elim (Bool-cases (is_empty q || contains seen q)) [
  | inl e ↦ rw e (collect-IsNodup seen ps)
  | inr e ↦ rw e (
    contains-collect (q ∷ seen) ps q ∙ rw text_eq_refl (ground arith),
    collect-IsNodup (q ∷ seen) ps,
  )
]
  where
    q : Text
    q = trim_space p

abbrev pub Managed : List Text → List Text → Type 0
Managed ps out =
    IsAscending out × ((q : Text) → contains out q ≡ (is_given ps q && not (is_empty q)))

-- The managed paths ascend, so none repeats, and they are exactly the given paths that are not
-- blank, trimmed.
pub unique_sorted-Managed : (ps : List Text) → Managed ps (unique_sorted ps)
unfolding unique_sorted contains
unique_sorted-Managed ps = (
  sort-IsAscending (collect [] ps) (collect-IsNodup [] ps),
  λ q. contains-sort (collect [] ps) q ∙ contains-collect [] ps q ∙ ground arith,
)
