-- ===== src/Instincts/Clusters/Counted.antt =====
-- What ClusterAll does with each instinct: pkg/instincts/cluster.go.
use forge_development_hub_cl.Base.{
  ℕ, ◌+◌, ◌*◌, ◌≤◌, ◌<◌, Bool, false, ◌≡◌, refl, ◌∙◌, ap, Option, some, List, [], ◌∷◌, ◌++◌, Text,
  text_eq, text_eq_iff, is_empty, if◌then◌else◌, ltb, length, arith, All, Bool-cases, inl, inr,
}
use forge_development_hub_cl.Base.Bytes.{trim_space}
use forge_development_hub_cl.Base.Sort.{sort, sum_by, sum_by-sort}
use forge_development_hub_cl.Instincts.{Instinct}
use forge_development_hub_cl.Instincts.Clusters.{transitive_clusters, by_first_id, groups_only}
use forge_development_hub_cl.Instincts.Clusters.Classes.{
  group_weights, sum_by-snoc, transitive_clusters-Partition,
}
use forge_development_hub_cl.Instincts.Clusters.Candidates.{
  Measures, too_small, doubtful, Cluster, Clusters, min_size, is_near, build_cluster, judged,
  judge_all, put_domain, by_domain, before, cluster_domains, cluster_all,
}

-- A candidate has the minimal size, and its mean confidence passes.
abbrev pub IsCandidate : Measures → Cluster → Type 0
IsCandidate m c = (min_size m ≤ length c.members) × (m.is_doubtful c.members ≡ false)

-- The weight of an instinct that stands in a cluster of a domain.
abbrev pub Weight : Type 0
Weight = Text → Instinct → ℕ

abbrev pub weigh_cluster : Weight → Cluster → ℕ
weigh_cluster f c = sum_by (f c.domain) c.members

abbrev clustered : Weight → Clusters → ℕ
clustered f (candidates, skipped) =
    sum_by (weigh_cluster f) candidates + sum_by (weigh_cluster f) skipped

All-snoc {ℓ κ} :
    {A : Type ℓ} (P : A → Type κ) (xs : List A) (x : A) → All P xs → P x → All P (xs ++ (x ∷ []))
All-snoc P [] x h p = (p, tt)
All-snoc P (y ∷ xs) x h p = (h.0, All-snoc P xs x h.1 p)

leb_of_ltb : (a b : ℕ) → ltb a b ≡ false → b ≤ a
leb_of_ltb a b h = ground arith

module _ (m : Measures) where
  clustered-judged :
      (f : Weight) (c : Cluster) (found : Clusters)
      → clustered f (judged m c found) ≡ clustered f found + weigh_cluster f c
  unfolding judged
  clustered-judged f c (cs, ss) = ground (
    arith,
    sum_by-snoc (weigh_cluster f) c cs,
    sum_by-snoc (weigh_cluster f) (record c { skipped_reason = some too_small }) ss,
    sum_by-snoc (weigh_cluster f) (record c { skipped_reason = some doubtful }) ss,
  )

  judged-IsCandidate :
      (c : Cluster) (found : Clusters)
      → All (IsCandidate m) found.0
      → All (IsCandidate m) (judged m c found).0
  unfolding judged
  judged-IsCandidate c (cs, ss) h = elim (Bool-cases (ltb (length c.members) (min_size m))) [
    | inl small ↦ rw small h
    | inr large ↦ elim (Bool-cases (m.is_doubtful c.members)) [
      | inl low ↦ rw (large, low) h
      | inr high ↦
          rw (large, high)
            (All-snoc (IsCandidate m) cs c h
              (leb_of_ltb (length c.members) (min_size m) large, high))
    ]
  ]

  judge_all-clustered :
      (f : Weight) (d : Text) (gs : List (List Instinct)) (found : Clusters)
      → clustered f (judge_all m d gs found) ≡ clustered f found + sum_by (sum_by (f d)) gs
  unfolding judge_all sum_by build_cluster
  judge_all-clustered f d [] found = omega arith
  judge_all-clustered f d ([] ∷ gs) found = omega (arith, judge_all-clustered f d gs found)
  judge_all-clustered f d ((i ∷ is_) ∷ gs) found = omega (
    arith,
    judge_all-clustered f d gs (judged m (build_cluster m d (i ∷ is_)) found),
    clustered-judged f (build_cluster m d (i ∷ is_)) found,
  )

  judge_all-IsCandidate :
      (d : Text) (gs : List (List Instinct)) (found : Clusters)
      → All (IsCandidate m) found.0
      → All (IsCandidate m) (judge_all m d gs found).0
  unfolding judge_all
  judge_all-IsCandidate d [] found h = h
  judge_all-IsCandidate d ([] ∷ gs) found h = judge_all-IsCandidate d gs found h
  judge_all-IsCandidate d ((i ∷ is_) ∷ gs) found h =
      judge_all-IsCandidate d gs (judged m (build_cluster m d (i ∷ is_)) found)
        (judged-IsCandidate (build_cluster m d (i ∷ is_)) found h)

abbrev group_size : Text × List Instinct → ℕ
group_size (d, g) = length g

abbrev weigh_group : Weight → Text × List Instinct → ℕ
weigh_group f (d, g) = sum_by (f d) g

length-sum_by : (g : List Instinct) → length g ≡ sum_by (λ i. 1) g
unfolding sum_by
length-sum_by [] = refl
length-sum_by (i ∷ g) = omega (arith, length-sum_by g)

group_size-weigh :
    (gs : List (Text × List Instinct)) → sum_by group_size gs ≡ sum_by (weigh_group (λ d i. 1)) gs
unfolding sum_by
group_size-weigh [] = refl
group_size-weigh ((d, g) ∷ gs) = omega (arith, group_size-weigh gs, length-sum_by g)

sum_by-put_domain :
    (f : Weight) (d : Text) (i : Instinct) (gs : List (Text × List Instinct))
    → sum_by (weigh_group f) (put_domain d i gs) ≡ sum_by (weigh_group f) gs + f d i
unfolding put_domain sum_by
sum_by-put_domain f d i [] = omega arith
sum_by-put_domain f d i ((e, g) ∷ gs) = elim (Bool-cases (text_eq e d)) [
  | inl same ↦
      let there : e ≡ d = (text_eq_iff e d).0 same in
      rw same (omega (arith, sum_by-snoc (f e) i g, ap (λ t. f t i) there))
  | inr other ↦ rw other (omega (arith, sum_by-put_domain f d i gs))
]

-- The weights of the instincts in their own domains, those with a blank domain left out.
unfoldable pub weigh_all : Weight → List Instinct → ℕ
unfolding trim_space
weigh_all f [] = 0
weigh_all f (i ∷ is_) =
    let d = trim_space i.domain in (if is_empty d then 0 else f d i) + weigh_all f is_

weigh_all-le : (is_ : List Instinct) → weigh_all (λ d i. 1) is_ ≤ length is_
unfolding weigh_all
weigh_all-le [] = omega arith
weigh_all-le (i ∷ is_) = ground (arith, weigh_all-le is_)

sum_by-by_domain :
    (f : Weight) (is_ : List Instinct) (gs : List (Text × List Instinct))
    → sum_by (weigh_group f) (by_domain is_ gs) ≡ sum_by (weigh_group f) gs + weigh_all f is_
unfolding by_domain weigh_all
sum_by-by_domain f [] gs = omega arith
sum_by-by_domain f (i ∷ is_) gs = elim (Bool-cases (is_empty (trim_space i.domain))) [
  | inl e ↦ rw e (omega (arith, sum_by-by_domain f is_ gs))
  | inr e ↦
      let d = trim_space i.domain in
      rw e (omega (arith, sum_by-by_domain f is_ (put_domain d i gs), sum_by-put_domain f d i gs))
]

sum_by-groups_only :
    (f : Instinct → ℕ) (gs : List (ℕ × List Instinct))
    → sum_by (sum_by f) (groups_only gs) ≡ group_weights f gs
unfolding sum_by
sum_by-groups_only f [] = refl
sum_by-groups_only f ((r, g) ∷ gs) = omega (arith, sum_by-groups_only f gs)

-- The clusters of a group have the instincts of the group.
pub record Divided (near : Instinct → Instinct → Bool) (fuel : ℕ) (group : List Instinct)
    : Type 0 where
  pub parts : List (List Instinct)
  pub gives : transitive_clusters near fuel group ≡ some parts
  pub whole : (f : Instinct → ℕ) → sum_by (sum_by f) parts ≡ sum_by f group

transitive_clusters-Divided :
    (near : Instinct → Instinct → Bool) (fuel : ℕ) (group : List Instinct)
    → length group * length group < fuel
    → Divided near fuel group
transitive_clusters-Divided near fuel group enough =
    let p = transitive_clusters-Partition near fuel group enough in
    record {
      parts = sort by_first_id (groups_only p.groups);
      gives = p.gives;
      whole = λ f.
          sum_by-sort by_first_id (sum_by f) (groups_only p.groups)
          ∙ (sum_by-groups_only f p.groups ∙ p.weights f);
    }

-- What ClusterAll returns for instincts of these weights.
pub record Counted (m : Measures) (weights : Weight → ℕ) (out : Option Clusters) : Type 0 where
  pub candidates : List Cluster
  pub skipped : List Cluster
  pub gives : out ≡ some (candidates, skipped)
  pub placed :
      (f : Weight)
      → sum_by (weigh_cluster f) candidates + sum_by (weigh_cluster f) skipped ≡ weights f
  pub all_pass : All (IsCandidate m) candidates

square-lt : (a n fuel : ℕ) → a ≤ n → n * n < fuel → a * a < fuel
square-lt a n fuel h enough = grind arith

-- The clusters of all groups, when the fuel is enough for all their items together.
cluster_domains-Counted :
    (m : Measures) (fuel n : ℕ) (gs : List (Text × List Instinct)) (found : Clusters)
    → sum_by group_size gs ≤ n
    → n * n < fuel
    → All (IsCandidate m) found.0
    → Counted m
        (λ f. clustered f found + sum_by (weigh_group f) gs)
        (cluster_domains m fuel gs found)
unfolding cluster_domains sum_by
cluster_domains-Counted m fuel n [] (cs, ss) few enough h = record {
  candidates = cs;
  skipped = ss;
  gives = refl;
  placed = λ f. omega arith;
  all_pass = h;
}
cluster_domains-Counted m fuel n ((d, g) ∷ gs) found few enough h =
    let small : length g * length g < fuel = square-lt (length g) n fuel (omega arith) enough in
    let one = transitive_clusters-Divided (is_near m) fuel g small in
    let next = judge_all m d one.parts found in
    let rest =
      cluster_domains-Counted m fuel n gs next (omega arith) enough
        (judge_all-IsCandidate m d one.parts found h) in
    record {
      candidates = rest.candidates;
      skipped = rest.skipped;
      gives = rw (one.gives) rest.gives;
      placed = λ f.
          rest.placed f ∙ omega (arith, judge_all-clustered m f d one.parts found, one.whole (f d));
      all_pass = rest.all_pass;
    }

sum_by-all :
    (f : Weight) (items : List Instinct)
    → sum_by (weigh_group f) (by_domain items []) ≡ weigh_all f items
unfolding sum_by
sum_by-all f items = sum_by-by_domain f items [] ∙ omega arith

-- With fuel above the square of the number of instincts, ClusterAll returns clusters in which each
-- instinct stands as often as in its argument if its domain is not blank, in clusters of its
-- trimmed domain, and not at all if it is: for every weight that depends on the domain of the
-- cluster and on the instinct, such as one that counts a single instinct in a single domain, the
-- clusters together and those instincts have the same sum. Every candidate has the minimal size
-- and passes the test of the mean confidence.
pub cluster_all-Counted :
    (m : Measures) (fuel : ℕ) (items : List Instinct)
    → length items * length items < fuel
    → Counted m (λ f. weigh_all f items) (cluster_all m fuel items)
unfolding cluster_all sum_by
cluster_all-Counted m fuel items enough =
    let groups = by_domain items [] in
    let c =
      cluster_domains-Counted m fuel (length items) (sort before groups) ([], []) few enough tt in
    record {
      candidates = c.candidates;
      skipped = c.skipped;
      gives = c.gives;
      placed = λ f. c.placed f ∙ omega (arith, all_sorted f);
      all_pass = c.all_pass;
    }
  where
    all_sorted :
        (f : Weight) → sum_by (weigh_group f) (sort before (by_domain items [])) ≡ weigh_all f items
    all_sorted f = sum_by-sort before (weigh_group f) (by_domain items []) ∙ sum_by-all f items

    few : sum_by group_size (sort before (by_domain items [])) ≤ length items
    few = omega (
      arith,
      group_size-weigh (sort before (by_domain items [])),
      all_sorted (λ d i. 1),
      weigh_all-le items,
    )
