-- ===== src/Instincts/Clusters/Forest.antt =====
-- The forest that `parent` is, by the root and the depth of each index: pkg/instincts/cluster.go.
use forge_development_hub_cl.Base.{
  ℕ, zero, suc, ◌<◌, ◌≡◌, ◌≢◌, refl, Option, some, if◌then◌else◌, ◌==◌, arith, Bool-cases, inl, inr,
}
use forge_development_hub_cl.Instincts.Clusters.{Parents, written, find}

-- `root` and `depth` are those of the trees of `parent`.
pub record IsForest (parent root depth : ℕ → ℕ) : Type 0 where
  pub top : (i : ℕ) → parent i ≡ i → root i ≡ i
  pub up : (i : ℕ) → parent i ≢ i → (root (parent i) ≡ root i) × (depth (parent i) < depth i)
  pub fixed : (i : ℕ) → (root (root i) ≡ root i) × (depth (root i) ≡ 0)

-- What find gives: the root, and a forest of the same trees.
pub record Found (root depth : ℕ → ℕ) (i : ℕ) (out : Option (Parents × ℕ)) : Type 0 where
  pub after : Parents
  pub gives : out ≡ some (after, root i)
  pub forest : IsForest after root depth

module _ (parent root depth : ℕ → ℕ) (i : ℕ) (f : IsForest parent root depth)
    (deep : 0 < depth i) where
  written-top : (k : ℕ) → written parent i (root i) k ≡ k → root k ≡ k
  written-top k e = ground (arith, f.top k)

  written-up :
      (k : ℕ)
      → written parent i (root i) k ≢ k
      → (root (written parent i (root i) k) ≡ root k)
        × (depth (written parent i (root i) k) < depth k)
  written-up k h = ground (arith, f.up k, f.fixed i)

  written-IsForest : IsForest (written parent i (root i)) root depth
  written-IsForest = record { top = written-top; up = written-up; fixed = f.fixed }

-- With fuel above the depth, find gives the root.
pub find-Found :
    (fuel : ℕ) (parent root depth : ℕ → ℕ) (i : ℕ)
    → IsForest parent root depth
    → depth i < fuel
    → Found root depth i (find fuel parent i)
unfolding find
find-Found zero parent root depth i f h = absurd (omega arith)
find-Found (suc fuel) parent root depth i f h = elim (Bool-cases (parent i == i)) [
  | inl e ↦
      let same : parent i ≡ i = ground arith in
      record { after = parent; gives = rw (e, f.top i same) refl; forest = f }
  | inr e ↦
      let ne : parent i ≢ i = λ same. ground arith in
      let above = find-Found fuel parent root depth (parent i) f (omega (arith, (f.up i ne).1)) in
      record {
        after = written above.after i (root i);
        gives = rw (e, above.gives, (f.up i ne).0) refl;
        forest =
            written-IsForest above.after root depth i above.forest (omega (arith, (f.up i ne).1));
      }
]

-- Joining the trees of two roots.
abbrev pub joined_root : (ℕ → ℕ) → ℕ → ℕ → ℕ → ℕ
joined_root root ra rb k = if root k == ra then rb else root k

abbrev pub joined_depth : (ℕ → ℕ) → (ℕ → ℕ) → ℕ → ℕ → ℕ
joined_depth root depth ra k = if root k == ra then suc (depth k) else depth k

module _ (parent root depth : ℕ → ℕ) (ra rb : ℕ) (f : IsForest parent root depth) (a : root ra ≡ ra)
    (b : root rb ≡ rb) (apart : ra ≢ rb) where
  joined-top : (k : ℕ) → written parent ra rb k ≡ k → joined_root root ra rb k ≡ k
  joined-top k e = ground (arith, f.top k)

  joined-up :
      (k : ℕ)
      → written parent ra rb k ≢ k
      → (joined_root root ra rb (written parent ra rb k) ≡ joined_root root ra rb k)
        × (joined_depth root depth ra (written parent ra rb k) < joined_depth root depth ra k)
  joined-up k h = ground (arith, f.up k, f.fixed rb)

  joined-fixed :
      (k : ℕ)
      → (joined_root root ra rb (joined_root root ra rb k) ≡ joined_root root ra rb k)
        × (joined_depth root depth ra (joined_root root ra rb k) ≡ 0)
  joined-fixed k = ground (arith, f.fixed k, f.fixed rb)

  pub joined-IsForest :
      IsForest (written parent ra rb) (joined_root root ra rb) (joined_depth root depth ra)
  joined-IsForest = record { top = joined-top; up = joined-up; fixed = joined-fixed }
