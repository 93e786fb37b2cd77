-- ===== src/Tests/Habits.antt =====
-- Clusters of four instincts on two domains, and the store of instincts.
use forge_development_hub_cl.Base.{
  ℕ, ◌+◌, ◌*◌, Bool, true, false, ◌≡◌, refl, Option, some, none, List, [], ◌∷◌, Text, codes,
  text_eq, if◌then◌else◌, leb, length, arith,
}
use forge_development_hub_cl.Base.{◌&&◌}
use forge_development_hub_cl.Instincts.{Instinct, encode}
use forge_development_hub_cl.Instincts.Storage.{
  DirEntry, Writes, resolve_prefix, unique, detect_bundle_format, bundle_tar_gz, file_at,
  final_name, write_atomic,
}
use forge_development_hub_cl.Instincts.Storage.Atomic.{is_written, is_some, write_atomic-file_at}
use forge_development_hub_cl.Instincts.Clusters.{transitive_clusters}
use forge_development_hub_cl.Instincts.Clusters.Classes.{Partition, transitive_clusters-Partition}
use forge_development_hub_cl.Instincts.Clusters.Candidates.{
  Measures, title_keywords, jaccard_strings, is_near, cluster_all,
}
use forge_development_hub_cl.Instincts.Clusters.Counted.{Counted, weigh_all, cluster_all-Counted}

abbrev habit : Text → Text → Text → Instinct
habit id title domain = record {
  id = id;
  title = title;
  confidence_ok = true;
  domain = domain;
  captured_by = codes "me";
  captured_at = 1;
  carried = [];
  body = codes "b";
}

abbrev habits : List Instinct
habits =
    habit (codes "A") (codes "Retry network calls") (codes "go")
    ∷ habit (codes "B") (codes "Run the tests first") (codes "go")
    ∷ habit (codes "C") (codes "Network calls: retry with backoff") (codes "go ")
    ∷ habit (codes "D") (codes "Quote variables") (codes " ")
    ∷ []

-- Twice the common keywords are at least half of all.
abbrev measures : Measures
measures = record {
  tags = λ i. [];
  near = λ t k. leb (k.1 + 1) (2 * k.0);
  is_doubtful = λ is_. false;
  min_cluster_size = 2;
}

keywords :
    title_keywords (codes "Run the Tests, from CI first") ≡ codes "tests" ∷ codes "first" ∷ []
unfolding title_keywords
keywords = refl

shared : jaccard_strings (codes "Go" ∷ codes "go" ∷ codes "db" ∷ []) (codes "GO" ∷ []) ≡ (1, 2)
unfolding jaccard_strings
shared = refl

abbrev sizes_of : Option (List (List Instinct)) → List ℕ
sizes_of none = []
sizes_of (some []) = []
sizes_of (some (g ∷ gs)) = length g ∷ length gs ∷ []

two_and_two : sizes_of (transitive_clusters (is_near measures) 17 habits) ≡ 2 ∷ 2 ∷ []
unfolding transitive_clusters is_near forge_development_hub_cl.Base.text_lt
two_and_two = refl

transitive_clusters-Partition_example :
    Partition (is_near measures) habits (transitive_clusters (is_near measures) 17 habits)
transitive_clusters-Partition_example =
    transitive_clusters-Partition (is_near measures) 17 habits (omega arith)

cluster_all-Counted_example :
    Counted measures (λ f. weigh_all f habits) (cluster_all measures 17 habits)
cluster_all-Counted_example = cluster_all-Counted measures 17 habits (omega arith)

abbrev own_text : Instinct → Text
own_text i = i.title

abbrev no_text : Text → Option Instinct
no_text t = none

abbrev full_disk : Writes
full_disk = record { tmp_ok = true; tmp_left = none; rename_ok = false }

abbrev own_id : Text
own_id = codes "01HZZZZZZZZZZZZZZZZZZZZZZZ"

abbrev one_file : List DirEntry
one_file = record { name = final_name own_id; is_dir = false; bytes = codes "old" } ∷ []

lone_match :
    resolve_prefix
      (record { name = codes "01HZZZZZZZZZZZZZZZZZZZZZZZ.yaml"; is_dir = false; bytes = [] } ∷ [])
      (codes "01h")
    ≡ unique (codes "01HZZZZZZZZZZZZZZZZZZZZZZZ")
unfolding resolve_prefix
lone_match = refl

zipped : detect_bundle_format (codes "x/All.TGZ") ≡ bundle_tar_gz
unfolding detect_bundle_format
zipped = refl

write_atomic-file_at_example :
    let out =
      write_atomic own_text no_text full_disk one_file (habit own_id (codes "t") (codes "go")) in
    (file_at (final_name own_id) out.0 ≡ (
      if is_written out.1 && text_eq (final_name own_id) (final_name own_id)
      then encode own_text no_text (habit own_id (codes "t") (codes "go"))
      else file_at (final_name own_id) one_file))
    × (is_written out.1 ≡ (
        is_some (encode own_text no_text (habit own_id (codes "t") (codes "go")))
        && (true && false)))
unfolding text_eq
write_atomic-file_at_example =
    write_atomic-file_at own_text no_text full_disk one_file (habit own_id (codes "t") (codes "go"))
      (final_name own_id) refl
