-- ===== src/Instincts/Clusters/Linked.antt =====
-- Which items are in one cluster: pkg/instincts/cluster.go.
use forge_development_hub_cl.Base.{
  ℕ, zero, suc, ◌+◌, ◌-◌, ◌<◌, Bool, true, false, ◌&&◌, ◌||◌, ◌≡◌, ◌↔◌, refl, sym, ap, ◌∙◌, Option,
  none, some, List, [], ◌∷◌, ◌++◌, ◌==◌, ltb, leb, any, arith, Bool-cases, inl, inr,
}
use forge_development_hub_cl.Instincts.Clusters.{pairs_from, similar_pairs}
use forge_development_hub_cl.Instincts.Clusters.Forest.{joined_root}
use forge_development_hub_cl.Instincts.Clusters.Unions.{roots_after}

abbrev pub get_elem? {ℓ} : {A : Type ℓ} → List A → ℕ → Option A
get_elem? [] i = none
get_elem? (x ∷ xs) zero = some x
get_elem? (x ∷ xs) (suc i) = get_elem? xs i

module _ {ℓ} {A : Type ℓ} (near : A → A → Bool) where
  abbrev pub near_item : A → Option A → Bool
  near_item x none = false
  near_item x (some y) = near x y

  abbrev pub near_items : Option A → Option A → Bool
  near_items none o = false
  near_items (some x) o = near_item x o

  -- The items at the two indices, the smaller one first, are similar.
  unfoldable pub is_similar : List A → ℕ → ℕ → Bool
  is_similar xs a b = ltb a b && near_items (get_elem? xs a) (get_elem? xs b)

abbrev has_pair : List (ℕ × ℕ) → ℕ → ℕ → Bool
has_pair es a b = any (λ e. e.0 == a && e.1 == b) es

has_pair-append :
    (a b : ℕ) (es fs : List (ℕ × ℕ))
    → has_pair (es ++ fs) a b ≡ (has_pair es a b || has_pair fs a b)
has_pair-append a b [] fs = refl
has_pair-append a b (e ∷ es) fs = ground (arith, has_pair-append a b es fs)

-- Counting on from an index, or from the item behind it.
get_elem?-next {ℓ} :
    {A : Type ℓ} (x : A) (xs : List A) (a i : ℕ)
    → i < a
    → get_elem? (x ∷ xs) (a - i) ≡ get_elem? xs (a - (i + 1))
get_elem?-next x xs a i h = let e : a - i ≡ suc (a - (i + 1)) = omega arith in rw e refl

get_elem?-first {ℓ} :
    {A : Type ℓ} (x : A) (xs : List A) (i : ℕ) → get_elem? (x ∷ xs) (i - i) ≡ some x
get_elem?-first x xs i = let e : i - i ≡ 0 = omega arith in rw e refl

module _ {ℓ} {A : Type ℓ} (near : A → A → Bool) where
  has_pair-pairs_from :
      (x : A) (i j a b : ℕ) (ys : List A)
      → has_pair (pairs_from near x i j ys) a b
        ≡ (i == a && (leb j b && near_item near x (get_elem? ys (b - j))))
  unfolding pairs_from
  has_pair-pairs_from x i j a b [] = ground arith
  has_pair-pairs_from x i j a b (y ∷ ys) = ground (
    arith,
    has_pair-pairs_from x i (j + 1) a b ys,
    get_elem?-next y ys b j,
    get_elem?-first y ys j,
  )

  has_pair-similar_pairs :
      (i a b : ℕ) (xs : List A)
      → has_pair (similar_pairs near i xs) a b
        ≡ (leb i a && (ltb a b && near_items near (get_elem? xs (a - i)) (get_elem? xs (b - i))))
  unfolding similar_pairs
  has_pair-similar_pairs i a b [] = ground arith
  has_pair-similar_pairs i a b (x ∷ xs) = ground (
    arith,
    has_pair-append a b (pairs_from near x i (i + 1) xs) (similar_pairs near (i + 1) xs),
    has_pair-pairs_from x i (i + 1) a b xs,
    has_pair-similar_pairs (i + 1) a b xs,
    get_elem?-next x xs a i,
    get_elem?-next x xs b i,
    get_elem?-first x xs i,
  )

-- The least equivalence over the similar pairs: a chain of similar items.
pub data Linked (edge : ℕ → ℕ → Bool) : ℕ → ℕ → Type 0 where
  pair : {a b : ℕ} → edge a b ≡ true → Linked edge a b
  itself : {a b : ℕ} → a ≡ b → Linked edge a b
  back : {a b : ℕ} → Linked edge a b → Linked edge b a
  through : {a b c : ℕ} → Linked edge a b → Linked edge b c → Linked edge a c

module _ (edge : ℕ → ℕ → Bool) where
  joined_root-Linked :
      (root : ℕ → ℕ) (a b k : ℕ)
      → edge a b ≡ true
      → ((i : ℕ) → Linked edge i (root i))
      → Linked edge k (joined_root root (root a) (root b) k)
  joined_root-Linked root a b k e h = elim (Bool-cases (root k == root a)) [
    | inl same ↦
        let meet : root k ≡ root a = ground arith in
        rw same
          (through (h k) (through (itself meet) (through (back (h a)) (through (pair e) (h b)))))
    | inr apart ↦ rw apart (h k)
  ]

  -- An index is linked to its root.
  pub roots_after-Linked :
      (root : ℕ → ℕ) (es : List (ℕ × ℕ))
      → ((a b : ℕ) → has_pair es a b ≡ true → edge a b ≡ true)
      → ((i : ℕ) → Linked edge i (root i))
      → (k : ℕ) → Linked edge k (roots_after root es k)
  unfolding roots_after
  roots_after-Linked root [] only h k = h k
  roots_after-Linked root ((a, b) ∷ es) only h k =
      roots_after-Linked (joined_root root (root a) (root b)) es (λ c d e. only c d (ground arith))
        (λ i. joined_root-Linked root a b i (only a b (ground arith)) h) k

  -- What respects the pairs respects the links.
  Linked-root :
      (root : ℕ → ℕ)
      → ((a b : ℕ) → edge a b ≡ true → root a ≡ root b)
      → {a b : ℕ} → Linked edge a b
      → root a ≡ root b
  Linked-root root all (pair e) = all _ _ e
  Linked-root root all (itself e) = ap root e
  Linked-root root all (back l) = sym (Linked-root root all l)
  Linked-root root all (through l m) = Linked-root root all l ∙ Linked-root root all m

-- Indices with one root keep one root.
roots_after-same :
    (root : ℕ → ℕ) (es : List (ℕ × ℕ)) (a b : ℕ)
    → root a ≡ root b
    → roots_after root es a ≡ roots_after root es b
unfolding roots_after
roots_after-same root [] a b e = e
roots_after-same root ((c, d) ∷ es) a b e =
    roots_after-same (joined_root root (root c) (root d)) es a b (rw e refl)

roots_after-pair :
    (root : ℕ → ℕ) (es : List (ℕ × ℕ)) (a b : ℕ)
    → has_pair es a b ≡ true
    → roots_after root es a ≡ roots_after root es b
unfolding roots_after
roots_after-pair root [] a b h = cc
roots_after-pair root ((c, d) ∷ es) a b h =
    let next = joined_root root (root c) (root d) in
    elim (Bool-cases (c == a && d == b)) [
      | inl e ↦ roots_after-same next es a b (ground arith)
      | inr e ↦ roots_after-pair next es a b (ground arith)
    ]

module _ {ℓ} {A : Type ℓ} (near : A → A → Bool) (xs : List A) where
  abbrev pub class_of : ℕ → ℕ
  class_of = roots_after (λ i. i) (similar_pairs near 0 xs)

  has_pair-is_similar : (a b : ℕ) → has_pair (similar_pairs near 0 xs) a b ≡ is_similar near xs a b
  unfolding is_similar
  has_pair-is_similar a b = ground (arith, has_pair-similar_pairs near 0 a b xs)

  Linked-class : (k : ℕ) → Linked (is_similar near xs) k (class_of k)
  Linked-class =
      roots_after-Linked (is_similar near xs) (λ i. i) (similar_pairs near 0 xs)
        (λ a b e. sym (has_pair-is_similar a b) ∙ e) (λ i. itself refl)

  -- Two indices have one class exactly when they are linked.
  pub class_of-Linked : (a b : ℕ) → (class_of a ≡ class_of b) ↔ Linked (is_similar near xs) a b
  class_of-Linked a b = (
    λ same. through (Linked-class a) (through (itself same) (back (Linked-class b))),
    Linked-root (is_similar near xs) (class_of) (λ c d e.
        roots_after-pair (λ i. i) (similar_pairs near 0 xs) c d (has_pair-is_similar c d ∙ e)),
  )
