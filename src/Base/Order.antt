-- ===== src/Base/Order.antt =====
-- The byte-wise order of texts, and sorting by it.
use mathlib.Core.Path.{◌≡◌, refl, ap, sym, ◌∙◌}
use mathlib.Core.Logic.{inl, inr}
use mathlib.Core.Bool.{Bool, true, false, ◌||◌}
use mathlib.Core.List.{List, [], ◌∷◌}
use native.Mathlib.Omega.{arith}
use forge_development_hub_cl.Base.Logic.{any, All, Bool-cases}
use forge_development_hub_cl.Base.Bytes.{Text, text_eq, text_eq_iff, text_lt, contains}
use forge_development_hub_cl.Base.Sort.{any-sort, sort, insert, any-insert, sort-IsSorted, IsSorted}

pub text_lt_asym : (a b : Text) → text_lt a b ≡ true → text_lt b a ≡ false
unfolding text_lt
text_lt_asym [] [] h = ground arith
text_lt_asym [] (y ∷ b) h = refl
text_lt_asym (x ∷ a) [] h = ground arith
text_lt_asym (x ∷ a) (y ∷ b) h = ground (arith, text_lt_asym a b)

pub text_lt_total : (a b : Text) → text_lt a b ≡ false → text_lt b a ≡ false → a ≡ b
unfolding text_lt
text_lt_total [] [] h k = refl
text_lt_total [] (y ∷ b) h k = ground arith
text_lt_total (x ∷ a) [] h k = ground arith
text_lt_total (x ∷ a) (y ∷ b) h k = ground (arith, text_lt_total a b)

-- Not being less is transitive.
pub text_lt_trans : (a b c : Text) → text_lt a b ≡ false → text_lt b c ≡ false → text_lt a c ≡ false
unfolding text_lt
text_lt_trans a b [] h k = nothing a
  where
    nothing : (a : Text) → text_lt a [] ≡ false
    nothing [] = refl
    nothing (x ∷ a) = refl
text_lt_trans [] [] (z ∷ c) h k = ground arith
text_lt_trans [] (y ∷ b) (z ∷ c) h k = ground arith
text_lt_trans (x ∷ a) [] (z ∷ c) h k = ground arith
text_lt_trans (x ∷ a) (y ∷ b) (z ∷ c) h k = ground (arith, text_lt_trans a b c)

pub contains-any : (xs : List Text) (a : Text) → contains xs a ≡ any (λ x. text_eq x a) xs
unfolding contains
contains-any [] a = refl
contains-any (x ∷ xs) a = ground (arith, contains-any xs a)

-- No text occurs twice.
abbrev pub IsNodup : List Text → Type 0
IsNodup [] = Unit
IsNodup (x ∷ xs) = (contains xs x ≡ false) × IsNodup xs

-- Each text is less than every later one.
abbrev pub IsAscending : List Text → Type 0
IsAscending [] = Unit
IsAscending (x ∷ xs) = All (λ y. text_lt x y ≡ true) xs × IsAscending xs

pub contains-sort : (xs : List Text) (a : Text) → contains (sort text_lt xs) a ≡ contains xs a
contains-sort xs a =
    contains-any (sort text_lt xs) a
    ∙ any-sort text_lt (λ x. text_eq x a) xs
    ∙ sym (contains-any xs a)

contains-insert :
    (x a : Text) (ys : List Text)
    → contains (insert text_lt x ys) a ≡ (text_eq x a || contains ys a)
contains-insert x a ys =
    contains-any (insert text_lt x ys) a
    ∙ any-insert text_lt (λ y. text_eq y a) x ys
    ∙ ap (λ (b : Bool). text_eq x a || b) (sym (contains-any ys a))

insert-IsNodup :
    (x : Text) (ys : List Text) → contains ys x ≡ false → IsNodup ys → IsNodup (insert text_lt x ys)
unfolding insert contains
insert-IsNodup x [] h n = (refl, tt)
insert-IsNodup x (y ∷ ys) h (n, ns) = elim (Bool-cases (text_lt y x)) [
  | inl e ↦ rw e (
    contains-insert x y ys ∙ ground (arith, text_eq_iff x y, text_eq_iff y x),
    insert-IsNodup x ys (ground arith) ns,
  )
  | inr e ↦ rw e (h, (n, ns))
]

pub sort-IsNodup : (xs : List Text) → IsNodup xs → IsNodup (sort text_lt xs)
unfolding sort
sort-IsNodup [] n = tt
sort-IsNodup (x ∷ xs) (h, n) =
    insert-IsNodup x (sort text_lt xs) (contains-sort xs x ∙ h) (sort-IsNodup xs n)

above :
    (x : Text) (ys : List Text)
    → All (λ y. text_lt y x ≡ false) ys
    → contains ys x ≡ false
    → All (λ y. text_lt x y ≡ true) ys
unfolding contains
above x [] b n = tt
above x (y ∷ ys) (b, bs) n = (
  elim (Bool-cases (text_lt x y)) [
    | inl e ↦ e
    | inr e ↦ absurd (ground (arith, text_lt_total x y e b, text_eq_iff y x))
  ],
  above x ys bs (ground arith),
)

IsAscending-of_IsSorted : (xs : List Text) → IsSorted text_lt xs → IsNodup xs → IsAscending xs
IsAscending-of_IsSorted [] s n = tt
IsAscending-of_IsSorted (x ∷ xs) (b, s) (h, n) = (above x xs b h, IsAscending-of_IsSorted xs s n)

-- Sorting texts that do not repeat gives an ascending list.
pub sort-IsAscending : (xs : List Text) → IsNodup xs → IsAscending (sort text_lt xs)
sort-IsAscending xs n =
    IsAscending-of_IsSorted (sort text_lt xs) (sort-IsSorted text_lt text_lt_trans text_lt_asym xs)
      (sort-IsNodup xs n)
