-- ===== src/Instincts/Clusters.antt =====
-- The clusters of instincts: pkg/instincts/cluster.go. The slice `parent` is a function of its
-- index, and `find`, which recurs until it meets a root, is on fuel: `none` means that it ran out.
-- Titles and tags are ASCII. The floating-point numbers and the fields that only the codec knows
-- are parameters.
pub mod Forest
pub mod Unions
pub mod Linked
pub mod Classes
pub mod Candidates
pub mod Counted
use forge_development_hub_cl.Base.{
  ℕ, zero, suc, ◌+◌, ◌*◌, Bool, true, false, not, ◌&&◌, ◌||◌, Option, none, some, List, [], ◌∷◌,
  ◌++◌, Text, codes, text_eq, text_lt, is_empty, if◌then◌else◌, leb, ltb, ◌==◌, length, filter,
}
use forge_development_hub_cl.Base.Bytes.{contains, split, to_lower, trim_space}
use forge_development_hub_cl.Base.Sort.{sort}
use forge_development_hub_cl.Instincts.{Instinct}

abbrev pub Parents : Type 0
Parents = ℕ → ℕ

abbrev pub written : Parents → ℕ → ℕ → Parents
written parent i r = λ k. if k == i then r else parent k

infixl 5 ◌>>=◌
abbrev pub ◌>>=◌ {ℓ κ} : {A : Type ℓ} → {B : Type κ} → Option A → (A → Option B) → Option B
none >>= f = none
some a >>= f = f a

-- The index becomes a child of the root that was found.
abbrev compressed : ℕ → Option (Parents × ℕ) → Option (Parents × ℕ)
compressed i none = none
compressed i (some (parent, r)) = some (written parent i r, r)

unfoldable pub find : ℕ → Parents → ℕ → Option (Parents × ℕ)
find zero parent i = none
find (suc fuel) parent i =
    let above = compressed i (find fuel parent (parent i)) in
    if parent i == i then some (parent, i) else above

abbrev pub joined : Parents → ℕ → ℕ → Parents
joined parent ra rb = if ra == rb then parent else written parent ra rb

unfoldable pub union : ℕ → Parents → ℕ × ℕ → Option Parents
unfolding find
union fuel parent (a, b) = find fuel parent a >>= λ (after, ra).
    find fuel after b >>= λ (later, rb). some (joined later ra rb)

-- The pairs of the two loops whose items are similar, in the order of the loops.
unfoldable pub pairs_from {ℓ} : {A : Type ℓ} → (A → A → Bool) → A → ℕ → ℕ → List A → List (ℕ × ℕ)
pairs_from near x i j [] = []
pairs_from near x i j (y ∷ ys) =
    let rest = pairs_from near x i (j + 1) ys in if near x y then (i, j) ∷ rest else rest

unfoldable pub similar_pairs {ℓ} : {A : Type ℓ} → (A → A → Bool) → ℕ → List A → List (ℕ × ℕ)
unfolding pairs_from
similar_pairs near i [] = []
similar_pairs near i (x ∷ xs) = pairs_from near x i (i + 1) xs ++ similar_pairs near (i + 1) xs

unfoldable pub unions : ℕ → Parents → List (ℕ × ℕ) → Option Parents
unfolding union
unions fuel parent [] = some parent
unions fuel parent (e ∷ es) = union fuel parent e >>= λ after. unions fuel after es

-- `groups[r] = append(groups[r], it)`
unfoldable pub put_group {ℓ} : {A : Type ℓ} → ℕ → A → List (ℕ × List A) → List (ℕ × List A)
put_group r x [] = (r, x ∷ []) ∷ []
put_group r x ((s, g) ∷ gs) =
    let rest = put_group r x gs in if s == r then (s, g ++ (x ∷ [])) ∷ gs else (s, g) ∷ rest

-- The last loop looks the root of an item up twice.
unfoldable pub group_items {ℓ} :
    {A : Type ℓ} → ℕ → Parents → ℕ → List A → List (ℕ × List A) → Option (List (ℕ × List A))
unfolding find put_group
group_items fuel parent i [] groups = some groups
group_items fuel parent i (x ∷ xs) groups = find fuel parent i >>= λ (after, r).
    find fuel after i >>= λ (later, s). group_items fuel later (i + 1) xs (put_group r x groups)

abbrev pub first_id : List Instinct → Text
first_id [] = []
first_id (x ∷ xs) = x.id

abbrev pub by_first_id : List Instinct → List Instinct → Bool
by_first_id g h = text_lt (first_id g) (first_id h)

abbrev pub groups_only {ℓ} : {A : Type ℓ} → List (ℕ × List A) → List (List A)
groups_only [] = []
groups_only ((r, g) ∷ gs) = g ∷ groups_only gs

unfoldable pub transitive_clusters :
    (Instinct → Instinct → Bool) → ℕ → List Instinct → Option (List (List Instinct))
unfolding similar_pairs unions group_items sort
transitive_clusters near fuel items =
    unions fuel (λ i. i) (similar_pairs near 0 items) >>= λ parent.
    group_items fuel parent 0 items [] >>= λ groups. some (sort by_first_id (groups_only groups))
