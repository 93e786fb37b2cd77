-- ===== src/Tests/Cached.antt =====
-- The cache of the HTTP registry: a first fetch, its repetition, and a lost object.
use forge_development_hub_cl.Base.{
  true, false, ◌≡◌, refl, some, none, [], Text, codes, if◌then◌else◌, ◌==◌, arith,
}
use forge_development_hub_cl.Http.{
  CacheMeta, Response, broken, answered, Server, Cache, Disk, failed, got, lost_object, is_stale,
  parse_cache_control, parse_sidecar, fresh_body, read_object, do_request, fetch_cached,
}
use forge_development_hub_cl.Http.Sent.{
  noted, sent_during, IsHonest, IsServed, fetch_cached-IsServed,
}
use forge_development_hub_cl.Http.Fresh.{
  AnswersAt, CanStore, IsLost, StaysLost, fetch_cached-again, fetch_cached-IsLost,
}

abbrev sha : Text → Text
sha t = codes "ab"

abbrev path_of : Text → Text
path_of url = url

abbrev disk : Disk
disk = record { object_ok = true; meta_ok = true; meta_kept = true }

abbrev empty_cache : Cache
empty_cache = record { objects = λ k. none; metas = λ k. none }

abbrev index_answer : Response
index_answer = record {
  status = 200;
  etag_header = codes "e1";
  cache_control = codes "Public, Max-Age=60";
  content_type_header = [];
  content = some (codes "{}");
}

-- The first attempt fails.
abbrev slow_server : Server
slow_server etag n = if n == 0 then broken else answered index_answer

one_minute : parse_cache_control (codes "Public, Max-Age=60, max-age=x") ≡ (60, false)
unfolding parse_cache_control
one_minute = refl

short_sum : parse_sidecar (codes "abc  bundle.tar.gz") ≡ none
unfolding parse_sidecar
short_sum = refl

empty_cache-IsHonest : IsHonest sha [] empty_cache
empty_cache-IsHonest = record { addressed = λ k b e. cc; origin = λ k m e. absurd (ground arith) }

fetch_cached-IsServed_example :
    IsServed sha
      (noted (codes "u") (sent_during path_of 1 empty_cache (codes "u") slow_server) [])
      (codes "u")
      (fetch_cached sha path_of disk 1 slow_server empty_cache (codes "u"))
fetch_cached-IsServed_example =
    fetch_cached-IsServed sha path_of disk 1 [] empty_cache (codes "u") slow_server
      empty_cache-IsHonest

second_answer : AnswersAt (slow_server []) 1 index_answer
second_answer = record { earlier = λ i h. ground arith; here = refl }

can_store : CanStore sha path_of disk empty_cache (codes "{}")
can_store = record {
  objects = refl;
  metas = refl;
  long = omega arith;
  no_clash = λ o e. absurd (ground arith);
}

abbrev dark_server : Server
dark_server etag n = broken

fetch_cached-again_example :
    let out = fetch_cached sha path_of disk 1 slow_server empty_cache (codes "u") in
    (out.1 ≡ got (codes "{}"))
    × (fetch_cached sha path_of disk 50000000000 dark_server out.0 (codes "u")
        ≡ (out.0, got (codes "{}")))
unfolding is_stale fresh_body parse_cache_control
fetch_cached-again_example =
    fetch_cached-again sha path_of disk 1 empty_cache (codes "u") slow_server 1 index_answer
      (codes "{}") 50000000000 dark_server refl second_answer (omega arith) refl refl can_store refl

abbrev old_meta : CacheMeta
old_meta = record {
  sha256 = codes "ab";
  etag = codes "e1";
  fetched_at = 0;
  max_age = 60;
  content_type = [];
  immutable = true;
  original_url = codes "u";
}

abbrev swept_cache : Cache
swept_cache = record { objects = λ k. none; metas = λ k. some old_meta }

abbrev unchanged_answer : Response
unchanged_answer = record {
  status = 304;
  etag_header = [];
  cache_control = [];
  content_type_header = [];
  content = none;
}

abbrev calm_server : Server
calm_server etag n = answered unchanged_answer

swept_cache-IsLost : IsLost path_of swept_cache (codes "u")
unfolding read_object
swept_cache-IsLost = record { meta = old_meta; known = refl; gone = refl }

fetch_cached-IsLost_example :
    let out = fetch_cached sha path_of disk 1 calm_server swept_cache (codes "u") in
    (out.1 ≡ failed lost_object) × StaysLost path_of disk out.0 (codes "u")
unfolding do_request
fetch_cached-IsLost_example =
    fetch_cached-IsLost sha path_of disk 1 swept_cache (codes "u") calm_server unchanged_answer
      swept_cache-IsLost refl refl
