-- ===== src/Instincts/Clusters/Candidates.antt =====
-- ClusterAll, the similarity of titles and tags, and the keywords of a title:
-- pkg/instincts/cluster.go. `near` compares the weighted sum of two quotients with the threshold,
-- `is_doubtful` the mean confidence with its threshold, and `tags` are those the codec reads.
use forge_development_hub_cl.Base.{
  ℕ, ◌+◌, ◌-◌, Bool, not, ◌&&◌, ◌||◌, Option, none, some, List, [], ◌∷◌, ◌++◌, Text, codes, text_eq,
  text_lt, is_empty, if◌then◌else◌, leb, ltb, length, filter, map,
}
use forge_development_hub_cl.Base.Bytes.{contains, split, to_lower, trim_space}
use forge_development_hub_cl.Base.Sort.{sort}
use forge_development_hub_cl.Instincts.{Instinct}
use forge_development_hub_cl.Instincts.Clusters.{◌>>=◌, transitive_clusters}

pub record Measures : Type 0 where
  pub tags : Instinct → List Text
  pub near : ℕ × ℕ → ℕ × ℕ → Bool
  pub is_doubtful : List Instinct → Bool
  pub min_cluster_size : ℕ

abbrev pub stopwords : List Text
stopwords = split b' ' (
    codes
      "about after again also always because been being before both could does doing down during each ever every from have having here into just like made make many more most much must need never once only other over same should some such take than that them then there they thing this those through very well were what when where which while will with would your acerca ahora algun alguna algunas alguno algunos ante antes aqui bajo bien casi cada como cuando cuyo desde donde ellas ellos entre esta estas este estos estoy fuera hace hacer hacia hasta luego mientras mismo mucha mucho muchas muchos nada nadie nuestro nunca otra otras otro otros para pero poco porque puede puedo quien quienes siempre sino sobre tambien tampoco tanto tener tenia tiene todas todo todos unas unos usted")

abbrev is_alphanumeric : ℕ → Bool
is_alphanumeric c =
    (leb b'a' c && leb c b'z') || (leb b'A' c && leb c b'Z') || (leb b'0' c && leb c b'9')

-- A run of other bytes separates two tokens. Empty tokens are too short to be kept.
abbrev spaced : Text → Text
spaced s = map (λ c. if is_alphanumeric c then c else b' ') s

abbrev is_keyword : Text → Bool
unfolding contains split
is_keyword t = leb 4 (length t) && not (contains stopwords t)

unfoldable pub title_keywords : Text → List Text
unfolding split to_lower contains
title_keywords title = filter is_keyword (split b' ' (spaced (to_lower title)))

-- The keys of a set, in the order of insertion.
unfoldable pub set_of : List Text → List Text
unfolding contains
set_of [] = []
set_of (s ∷ ss) = let rest = set_of ss in if contains rest s then rest else s ∷ rest

-- The sizes of the intersection and of the union; the quotient by an empty union is zero.
unfoldable pub jaccard_strings : List Text → List Text → ℕ × ℕ
unfolding set_of to_lower contains
jaccard_strings a b =
    let set_a = set_of (map to_lower a) in
    let set_b = set_of (map to_lower b) in
    let both = length (filter (contains set_b) set_a) in (both, length set_a + length set_b - both)

unfoldable pub is_near : Measures → Instinct → Instinct → Bool
unfolding jaccard_strings title_keywords
is_near m a b =
    m.near (jaccard_strings (m.tags a) (m.tags b))
      (jaccard_strings (title_keywords a.title) (title_keywords b.title))

pub data SkippedReason : Type 0 where
  too_small : SkippedReason
  doubtful : SkippedReason

pub record Cluster : Type 0 where
  pub domain : Text
  pub members : List Instinct
  pub keywords : List Text
  pub cluster_tags : List Text
  pub skipped_reason : Option SkippedReason

abbrev concat_map : (Instinct → List Text) → List Instinct → List Text
concat_map f [] = []
concat_map f (x ∷ xs) = f x ++ concat_map f xs

unfoldable pub build_cluster : Measures → Text → List Instinct → Cluster
unfolding title_keywords to_lower set_of sort text_lt
build_cluster m domain members = record {
  domain = domain;
  members = members;
  keywords = sort text_lt (set_of (concat_map (λ i. title_keywords i.title) members));
  cluster_tags = sort text_lt (set_of (concat_map (λ i. map to_lower (m.tags i)) members));
  skipped_reason = none;
}

abbrev pub Clusters : Type 0
Clusters = List Cluster × List Cluster

abbrev pub min_size : Measures → ℕ
min_size m = if leb m.min_cluster_size 0 then 3 else m.min_cluster_size

-- The cluster behind the candidates or behind the skipped ones.
unfoldable pub judged : Measures → Cluster → Clusters → Clusters
judged m c (candidates, skipped) =
    if ltb (length c.members) (min_size m)
    then (candidates, skipped ++ (record c { skipped_reason = some too_small } ∷ []))
    else if m.is_doubtful c.members
    then (candidates, skipped ++ (record c { skipped_reason = some doubtful } ∷ []))
    else (candidates ++ (c ∷ []), skipped)

unfoldable pub judge_all : Measures → Text → List (List Instinct) → Clusters → Clusters
unfolding judged build_cluster
judge_all m domain [] found = found
judge_all m domain ([] ∷ gs) found = judge_all m domain gs found
judge_all m domain ((i ∷ is_) ∷ gs) found =
    judge_all m domain gs (judged m (build_cluster m domain (i ∷ is_)) found)

-- `byDomain[d] = append(byDomain[d], it)`
unfoldable pub put_domain :
    Text → Instinct → List (Text × List Instinct) → List (Text × List Instinct)
unfolding text_eq
put_domain d i [] = (d, i ∷ []) ∷ []
put_domain d i ((e, g) ∷ gs) =
    let rest = put_domain d i gs in if text_eq e d then (e, g ++ (i ∷ [])) ∷ gs else (e, g) ∷ rest

unfoldable pub by_domain : List Instinct → List (Text × List Instinct) → List (Text × List Instinct)
unfolding put_domain trim_space
by_domain [] groups = groups
by_domain (i ∷ is_) groups =
    let d = trim_space i.domain in
    by_domain is_ (if is_empty d then groups else put_domain d i groups)

abbrev pub before : Text × List Instinct → Text × List Instinct → Bool
before p q = text_lt p.0 q.0

unfoldable pub cluster_domains :
    Measures → ℕ → List (Text × List Instinct) → Clusters → Option Clusters
unfolding is_near transitive_clusters judge_all
cluster_domains m fuel [] found = some found
cluster_domains m fuel ((d, group) ∷ gs) found =
    transitive_clusters (is_near m) fuel group >>= λ clusters.
    cluster_domains m fuel gs (judge_all m d clusters found)

unfoldable pub cluster_all : Measures → ℕ → List Instinct → Option Clusters
unfolding cluster_domains by_domain sort
cluster_all m fuel items = cluster_domains m fuel (sort before (by_domain items [])) ([], [])
