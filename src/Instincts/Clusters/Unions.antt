-- ===== src/Instincts/Clusters/Unions.antt =====
-- The loops of transitiveClusters on the forests that they make: pkg/instincts/cluster.go.
use mathlib.Core.Path.{fun_ext}
use forge_development_hub_cl.Base.{
  ℕ, ◌+◌, ◌≤◌, ◌<◌, ◌≡◌, refl, Option, some, List, [], ◌∷◌, ◌==◌, length, arith, Bool-cases, inl,
  inr,
}
use forge_development_hub_cl.Instincts.Clusters.{
  Parents, written, joined, union, unions, put_group, group_items,
}
use forge_development_hub_cl.Instincts.Clusters.Forest.{
  IsForest, find-Found, joined_root, joined_depth, joined-IsForest,
}

-- A forest with the given roots, of trees no deeper than the bound, comes out.
pub record Forest (root : ℕ → ℕ) (bound : ℕ) (out : Option Parents) : Type 0 where
  pub after : Parents
  pub depth : ℕ → ℕ
  pub gives : out ≡ some after
  pub forest : IsForest after root depth
  pub shallow : (k : ℕ) → depth k ≤ bound

joined_root-same : (root : ℕ → ℕ) (r : ℕ) → joined_root root r r ≡ root
joined_root-same root r = fun_ext (λ k. ground arith)

joined-Forest :
    (parent root depth : ℕ → ℕ) (n a b : ℕ)
    → IsForest parent root depth
    → ((k : ℕ) → depth k ≤ n)
    → Forest (joined_root root (root a) (root b)) (n + 1) (some (joined parent (root a) (root b)))
joined-Forest parent root depth n a b f h = elim (Bool-cases (root a == root b)) [
  | inl e ↦
      let same : root a ≡ root b = ground arith in
      record {
        after = parent;
        depth = depth;
        gives = rw e refl;
        forest = rw (same, joined_root-same root (root b)) f;
        shallow = λ k. omega (arith, h k);
      }
  | inr e ↦ record {
    after = written parent (root a) (root b);
    depth = joined_depth root depth (root a);
    gives = rw e refl;
    forest =
        joined-IsForest parent root depth (root a) (root b) f (f.fixed a).0 (f.fixed b).0
          (λ same. ground arith);
    shallow = λ k. ground (arith, h k);
  }
]

union-Forest :
    (fuel : ℕ) (parent root depth : ℕ → ℕ) (n a b : ℕ)
    → IsForest parent root depth
    → ((k : ℕ) → depth k ≤ n)
    → n < fuel
    → Forest (joined_root root (root a) (root b)) (n + 1) (union fuel parent (a, b))
unfolding union
union-Forest fuel parent root depth n a b f h enough =
    let first = find-Found fuel parent root depth a f (omega (arith, h a)) in
    let second = find-Found fuel first.after root depth b first.forest (omega (arith, h b)) in
    rw (first.gives, second.gives) (joined-Forest second.after root depth n a b second.forest h)

-- The roots after the pairs are joined one after the other.
unfoldable pub roots_after : (ℕ → ℕ) → List (ℕ × ℕ) → ℕ → ℕ
roots_after root [] = root
roots_after root ((a, b) ∷ es) = roots_after (joined_root root (root a) (root b)) es

pub unions-Forest :
    (fuel : ℕ) (parent root depth : ℕ → ℕ) (n : ℕ) (es : List (ℕ × ℕ))
    → IsForest parent root depth
    → ((k : ℕ) → depth k ≤ n)
    → n + length es < fuel
    → Forest (roots_after root es) (n + length es) (unions fuel parent es)
unfolding unions roots_after
unions-Forest fuel parent root depth n [] f h enough = record {
  after = parent;
  depth = depth;
  gives = refl;
  forest = f;
  shallow = λ k. omega (arith, h k);
}
unions-Forest fuel parent root depth n ((a, b) ∷ es) f h enough =
    let one = union-Forest fuel parent root depth n a b f h (omega arith) in
    let rest =
      unions-Forest fuel one.after (joined_root root (root a) (root b)) one.depth (n + 1) es
        one.forest one.shallow (omega arith) in
    record {
      after = rest.after;
      depth = rest.depth;
      gives = rw (one.gives) rest.gives;
      forest = rest.forest;
      shallow = λ k. omega (arith, rest.shallow k);
    }

-- The items in groups by the class of their index, each class where it is first met.
unfoldable pub grouped {ℓ} :
    {A : Type ℓ} → (ℕ → ℕ) → ℕ → List A → List (ℕ × List A) → List (ℕ × List A)
unfolding put_group
grouped root i [] groups = groups
grouped root i (x ∷ xs) groups = grouped root (i + 1) xs (put_group (root i) x groups)

pub group_items-grouped {ℓ} :
    {A : Type ℓ} (fuel : ℕ) (parent root depth : ℕ → ℕ) (n i : ℕ) (xs : List A)
    (groups : List (ℕ × List A))
    → IsForest parent root depth
    → ((k : ℕ) → depth k ≤ n)
    → n < fuel
    → group_items fuel parent i xs groups ≡ some (grouped root i xs groups)
unfolding group_items grouped
group_items-grouped fuel parent root depth n i [] groups f h enough = refl
group_items-grouped fuel parent root depth n i (x ∷ xs) groups f h enough =
    let first = find-Found fuel parent root depth i f (omega (arith, h i)) in
    let second = find-Found fuel first.after root depth i first.forest (omega (arith, h i)) in
    rw (first.gives, second.gives)
      (group_items-grouped fuel second.after root depth n (i + 1) xs (put_group (root i) x groups)
        second.forest h enough)
