-- ===== src/Instincts/Clusters/Classes.antt =====
-- What transitiveClusters returns: pkg/instincts/cluster.go.
use forge_development_hub_cl.Base.{
  ℕ, ◌+◌, ◌*◌, ◌≤◌, ◌<◌, Bool, ◌≡◌, ◌↔◌, refl, ◌∙◌, Option, some, List, [], ◌∷◌, ◌++◌,
  if◌then◌else◌, ◌==◌, length, arith, Bool-cases, inl, inr,
}
use forge_development_hub_cl.Base.Sort.{sort, sum_by}
use forge_development_hub_cl.Instincts.{Instinct}
use forge_development_hub_cl.Instincts.Clusters.{
  pairs_from, similar_pairs, put_group, by_first_id, groups_only, transitive_clusters,
}
use forge_development_hub_cl.Instincts.Clusters.Forest.{IsForest}
use forge_development_hub_cl.Instincts.Clusters.Unions.{unions-Forest, grouped, group_items-grouped}
use forge_development_hub_cl.Instincts.Clusters.Linked.{
  is_similar, Linked, class_of, class_of-Linked,
}

module _ {ℓ} {A : Type ℓ} where
  -- The group of a key.
  unfoldable pub group_of : ℕ → List (ℕ × List A) → List A
  group_of r [] = []
  group_of r ((s, g) ∷ gs) = let rest = group_of r gs in if s == r then g else rest

  group_of-put_group :
      (r s : ℕ) (x : A) (gs : List (ℕ × List A))
      → group_of r (put_group s x gs)
        ≡ (if s == r then group_of r gs ++ (x ∷ []) else group_of r gs)
  unfolding group_of put_group
  group_of-put_group r s x [] = ground arith
  group_of-put_group r s x ((k, g) ∷ gs) = ground (arith, group_of-put_group r s x gs)

  -- The items of a class, in their order.
  unfoldable pub items_of : (ℕ → ℕ) → ℕ → ℕ → List A → List A
  items_of cls r i [] = []
  items_of cls r i (x ∷ xs) =
      let rest = items_of cls r (i + 1) xs in if cls i == r then x ∷ rest else rest

  append_assoc : (a b c : List A) → (a ++ b) ++ c ≡ a ++ (b ++ c)
  append_assoc [] b c = refl
  append_assoc (x ∷ a) b c = rw (append_assoc a b c) refl

  append-nil : (a : List A) → a ++ [] ≡ a
  append-nil [] = refl
  append-nil (x ∷ a) = rw (append-nil a) refl

  group_of-grouped :
      (cls : ℕ → ℕ) (r i : ℕ) (xs : List A) (gs : List (ℕ × List A))
      → group_of r (grouped cls i xs gs) ≡ group_of r gs ++ items_of cls r i xs
  unfolding grouped items_of
  group_of-grouped cls r i [] gs = rw (append-nil (group_of r gs)) refl
  group_of-grouped cls r i (x ∷ xs) gs = elim (Bool-cases (cls i == r)) [
    | inl e ↦
        rw
          (
            group_of-grouped cls r (i + 1) xs (put_group (cls i) x gs),
            group_of-put_group r (cls i) x gs,
            e,
          )
          (append_assoc (group_of r gs) (x ∷ []) (items_of cls r (i + 1) xs))
    | inr e ↦
        rw
          (
            group_of-grouped cls r (i + 1) xs (put_group (cls i) x gs),
            group_of-put_group r (cls i) x gs,
            e,
          )
          refl
  ]

  -- How many items the groups have.
  abbrev pub group_sizes : List (ℕ × List A) → ℕ
  group_sizes [] = 0
  group_sizes ((r, g) ∷ gs) = length g + group_sizes gs

  length-snoc : (x : A) (g : List A) → length (g ++ (x ∷ [])) ≡ length g + 1
  length-snoc x [] = omega arith
  length-snoc x (y ∷ g) = omega (arith, length-snoc x g)

  group_sizes-put_group :
      (r : ℕ) (x : A) (gs : List (ℕ × List A)) → group_sizes (put_group r x gs) ≡ group_sizes gs + 1
  unfolding put_group
  group_sizes-put_group r x [] = omega arith
  group_sizes-put_group r x ((k, g) ∷ gs) =
      ground (arith, group_sizes-put_group r x gs, length-snoc x g)

  group_sizes-grouped :
      (cls : ℕ → ℕ) (i : ℕ) (xs : List A) (gs : List (ℕ × List A))
      → group_sizes (grouped cls i xs gs) ≡ group_sizes gs + length xs
  unfolding grouped
  group_sizes-grouped cls i [] gs = omega arith
  group_sizes-grouped cls i (x ∷ xs) gs = omega (
    arith,
    group_sizes-grouped cls (i + 1) xs (put_group (cls i) x gs),
    group_sizes-put_group (cls i) x gs,
  )

  -- The sum of a weight of the items of the groups.
  abbrev pub group_weights : (A → ℕ) → List (ℕ × List A) → ℕ
  group_weights f [] = 0
  group_weights f ((r, g) ∷ gs) = sum_by f g + group_weights f gs

  pub sum_by-append : (f : A → ℕ) (g h : List A) → sum_by f (g ++ h) ≡ sum_by f g + sum_by f h
  unfolding sum_by
  sum_by-append f [] h = omega arith
  sum_by-append f (y ∷ g) h = omega (arith, sum_by-append f g h)

  pub sum_by-snoc : (f : A → ℕ) (x : A) (g : List A) → sum_by f (g ++ (x ∷ [])) ≡ sum_by f g + f x
  unfolding sum_by
  sum_by-snoc f x g = omega (arith, sum_by-append f g (x ∷ []))

  group_weights-put_group :
      (f : A → ℕ) (r : ℕ) (x : A) (gs : List (ℕ × List A))
      → group_weights f (put_group r x gs) ≡ group_weights f gs + f x
  unfolding put_group sum_by
  group_weights-put_group f r x [] = omega arith
  group_weights-put_group f r x ((k, g) ∷ gs) =
      ground (arith, group_weights-put_group f r x gs, sum_by-snoc f x g)

  group_weights-grouped :
      (f : A → ℕ) (cls : ℕ → ℕ) (i : ℕ) (xs : List A) (gs : List (ℕ × List A))
      → group_weights f (grouped cls i xs gs) ≡ group_weights f gs + sum_by f xs
  unfolding grouped sum_by
  group_weights-grouped f cls i [] gs = omega arith
  group_weights-grouped f cls i (x ∷ xs) gs = omega (
    arith,
    group_weights-grouped f cls (i + 1) xs (put_group (cls i) x gs),
    group_weights-put_group f (cls i) x gs,
  )

  length-append : (es fs : List A) → length (es ++ fs) ≡ length es + length fs
  length-append [] fs = omega arith
  length-append (e ∷ es) fs = omega (arith, length-append es fs)

module _ {ℓ} {A : Type ℓ} (near : A → A → Bool) where
  length-pairs_from :
      (x : A) (i j : ℕ) (ys : List A) → length (pairs_from near x i j ys) ≤ length ys
  unfolding pairs_from
  length-pairs_from x i j [] = omega arith
  length-pairs_from x i j (y ∷ ys) = ground (arith, length-pairs_from x i (j + 1) ys)

  -- There are fewer pairs than the square of the number of items.
  length-similar_pairs :
      (i : ℕ) (xs : List A) → length (similar_pairs near i xs) ≤ length xs * length xs
  unfolding similar_pairs
  length-similar_pairs i [] = omega arith
  length-similar_pairs i (x ∷ xs) = grind (
    arith,
    length-append (pairs_from near x i (i + 1) xs) (similar_pairs near (i + 1) xs),
    length-pairs_from x i (i + 1) xs,
    length-similar_pairs (i + 1) xs,
  )

-- The groups of a partition of the items into the classes of linked items.
pub record Partition (near : Instinct → Instinct → Bool) (items : List Instinct)
    (out : Option (List (List Instinct))) : Type 0 where
  pub cls : ℕ → ℕ
  pub linked : (a b : ℕ) → (cls a ≡ cls b) ↔ Linked (is_similar near items) a b
  pub groups : List (ℕ × List Instinct)
  pub members : (r : ℕ) → group_of r groups ≡ items_of cls r 0 items
  pub total : group_sizes groups ≡ length items
  pub weights : (f : Instinct → ℕ) → group_weights f groups ≡ sum_by f items
  pub gives : out ≡ some (sort by_first_id (groups_only groups))

identity-IsForest : IsForest (λ i. i) (λ i. i) (λ i. 0)
identity-IsForest = record {
  top = λ i e. refl;
  up = λ i h. absurd (h refl);
  fixed = λ i. (refl, refl);
}

-- With fuel above the square of the number of items, transitiveClusters returns a result: the
-- items of each class of linked items in their order, each item once, the groups sorted by the id
-- of their first item. Two items are linked when a chain of similar items joins them.
pub transitive_clusters-Partition :
    (near : Instinct → Instinct → Bool) (fuel : ℕ) (items : List Instinct)
    → length items * length items < fuel
    → Partition near items (transitive_clusters near fuel items)
unfolding transitive_clusters group_of
transitive_clusters-Partition near fuel items enough =
    let pairs = similar_pairs near 0 items in
    let few = length-similar_pairs near 0 items in
    let joined =
      unions-Forest fuel (λ i. i) (λ i. i) (λ i. 0) 0 pairs identity-IsForest (λ k. omega arith)
        (omega arith) in
    let cls = class_of near items in
    let groups = grouped cls 0 items [] in
    record {
      cls = cls;
      linked = class_of-Linked near items;
      groups = groups;
      members = λ r. group_of-grouped cls r 0 items [];
      total = group_sizes-grouped cls 0 items [] ∙ omega arith;
      weights = λ f. group_weights-grouped f cls 0 items [] ∙ omega arith;
      gives =
          rw
            (
              joined.gives,
              group_items-grouped fuel joined.after cls joined.depth (0 + length pairs) 0 items []
                  joined.forest joined.shallow (omega arith),
            )
            refl;
    }
