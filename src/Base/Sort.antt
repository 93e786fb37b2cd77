-- ===== src/Base/Sort.antt =====
-- `sort.Slice` and `sort.Strings` as a stable insertion sort by the given `less`. Go's sort is not
-- stable; the two agree where no two items are equivalent.
use Prim.Native.Nat.{ℕ, suc, ◌+◌}
use mathlib.Core.Path.{◌≡◌, refl}
use mathlib.Core.Logic.{inl, inr}
use mathlib.Core.Bool.{Bool, true, false, ◌||◌}
use mathlib.Core.List.{List, [], ◌∷◌, Permᴰ}
use mathlib.Core.List.Permᴰ
use native.Mathlib.Omega.{arith}
use forge_development_hub_cl.Base.Logic.{if◌then◌else◌, length, any, All, Bool-cases}

module _ {ℓ} {A : Type ℓ} (less : A → A → Bool) where
  unfoldable pub insert : A → List A → List A
  insert x [] = x ∷ []
  insert x (y ∷ ys) = let rest = y ∷ insert x ys in if less y x then rest else x ∷ y ∷ ys

  unfoldable pub sort : List A → List A
  unfolding insert
  sort [] = []
  sort (x ∷ xs) = insert x (sort xs)

  pub any-insert : (p : A → Bool) (x : A) (ys : List A) → any p (insert x ys) ≡ (p x || any p ys)
  unfolding insert
  any-insert p x [] = refl
  any-insert p x (y ∷ ys) = ground (arith, any-insert p x ys)

  -- The sorted list has the items of the list.
  pub any-sort : (p : A → Bool) (xs : List A) → any p (sort xs) ≡ any p xs
  unfolding sort
  any-sort p [] = refl
  any-sort p (x ∷ xs) = ground (arith, any-insert p x (sort xs), any-sort p xs)

  pub length-insert : (x : A) (ys : List A) → length (insert x ys) ≡ suc (length ys)
  unfolding insert
  length-insert x [] = refl
  length-insert x (y ∷ ys) = ground (arith, length-insert x ys)

  pub length-sort : (xs : List A) → length (sort xs) ≡ length xs
  unfolding sort
  length-sort [] = refl
  length-sort (x ∷ xs) = ground (arith, length-insert x (sort xs), length-sort xs)

  pub All-insert {κ} : (P : A → Type κ) (x : A) (ys : List A) → P x → All P ys → All P (insert x ys)
  unfolding insert
  All-insert P x [] h a = (h, tt)
  All-insert P x (y ∷ ys) h (b, bs) = elim (Bool-cases (less y x)) [
    | inl e ↦ rw e (b, All-insert P x ys h bs)
    | inr e ↦ rw e (h, (b, bs))
  ]

  pub All-sort {κ} : (P : A → Type κ) (xs : List A) → All P xs → All P (sort xs)
  unfolding sort
  All-sort P [] a = tt
  All-sort P (x ∷ xs) (h, a) = All-insert P x (sort xs) h (All-sort P xs a)

  Perm-insert : (x : A) (ys : List A) → Permᴰ (insert x ys) (x ∷ ys)
  unfolding insert
  Perm-insert x [] = Permᴰ.refl (x ∷ [])
  Perm-insert x (y ∷ ys) = elim (Bool-cases (less y x)) [
    | inl e ↦ rw e (Permᴰ.trans (Permᴰ.cons refl (Perm-insert x ys)) (Permᴰ.swap refl refl))
    | inr e ↦ rw e (Permᴰ.refl (x ∷ y ∷ ys))
  ]

  pub Perm-sort : (xs : List A) → Permᴰ (sort xs) xs
  unfolding sort
  Perm-sort [] = Permᴰ.nil
  Perm-sort (x ∷ xs) = Permᴰ.trans (Perm-insert x (sort xs)) (Permᴰ.cons refl (Perm-sort xs))

  -- Every item that follows is not less.
  abbrev pub Below : A → List A → Type 0
  Below x = All (λ y. less y x ≡ false)

  abbrev pub IsSorted : List A → Type 0
  IsSorted [] = Unit
  IsSorted (x ∷ xs) = Below x xs × IsSorted xs

  module _ (trans : (x y z : A) → less x y ≡ false → less y z ≡ false → less x z ≡ false)
      (asym : (x y : A) → less x y ≡ true → less y x ≡ false) where
    Below-insert : (x y : A) (ys : List A) → less y x ≡ false → Below x ys → Below x (insert y ys)
    unfolding insert
    Below-insert x y [] h b = (h, tt)
    Below-insert x y (z ∷ zs) h (b, bs) = elim (Bool-cases (less z y)) [
      | inl e ↦ rw e (b, Below-insert x y zs h bs)
      | inr e ↦ rw e (h, (b, bs))
    ]

    Below-le : (x y : A) (ys : List A) → less y x ≡ false → Below y ys → Below x ys
    Below-le x y [] h b = tt
    Below-le x y (z ∷ zs) h (b, bs) = (trans z y x b h, Below-le x y zs h bs)

    insert-IsSorted : (x : A) (ys : List A) → IsSorted ys → IsSorted (insert x ys)
    unfolding insert
    insert-IsSorted x [] h = (tt, tt)
    insert-IsSorted x (y ∷ ys) (b, s) = elim (Bool-cases (less y x)) [
      | inl e ↦ rw e (Below-insert y x ys (asym y x e) b, insert-IsSorted x ys s)
      | inr e ↦ rw e ((e, Below-le x y ys e b), (b, s))
    ]

    pub sort-IsSorted : (xs : List A) → IsSorted (sort xs)
    unfolding sort
    sort-IsSorted [] = tt
    sort-IsSorted (x ∷ xs) = insert-IsSorted x (sort xs) (sort-IsSorted xs)

-- The sum of a number of each item.
unfoldable pub sum_by {ℓ} : {A : Type ℓ} → (A → ℕ) → List A → ℕ
sum_by f [] = 0
sum_by f (x ∷ xs) = f x + sum_by f xs

module _ {ℓ} {A : Type ℓ} (less : A → A → Bool) (f : A → ℕ) where
  sum_by-insert : (x : A) (ys : List A) → sum_by f (insert less x ys) ≡ f x + sum_by f ys
  unfolding insert sum_by
  sum_by-insert x [] = refl
  sum_by-insert x (y ∷ ys) = ground (arith, sum_by-insert x ys)

  pub sum_by-sort : (xs : List A) → sum_by f (sort less xs) ≡ sum_by f xs
  unfolding sort sum_by
  sum_by-sort [] = refl
  sum_by-sort (x ∷ xs) = omega (arith, sum_by-insert x (sort less xs), sum_by-sort xs)
