-- ===== src/Http.antt =====
-- The HTTP registry's cache: pkg/registry/http.go. A time is in nanoseconds; the cache on disk is a
-- function of the digest and of the path of a meta file. The digest, the path that belongs to a URL
-- and the JSON codec are parameters or left out; the server is a function of the ETag that is sent
-- and of the attempt.
pub mod Sent
pub mod Fresh
use forge_development_hub_cl.Base.{
  ℕ, zero, suc, ◌+◌, ◌-◌, ◌*◌, ◌^◌, Bool, true, false, not, ◌&&◌, ◌||◌, Option, none, some, List,
  [], ◌∷◌, ◌++◌, Text, codes, text_eq, is_empty, if◌then◌else◌, leb, ltb, ◌==◌, length, all,
}
use Prim.Native.Nat.{◌%◌}
use forge_development_hub_cl.Base.Bytes.{
  split, to_lower, trim_space, has_prefix, drop, is_digit, is_space, span, trim_left,
}

-- A max-age that is negative counts as zero, as IsStale has it.
pub record CacheMeta : Type 0 where
  pub sha256 : Text
  pub etag : Text
  pub fetched_at : ℕ
  pub max_age : ℕ
  pub content_type : Text
  pub immutable : Bool
  pub original_url : Text

-- `now.Sub(fetchedAt) > time.Duration(maxAge) * time.Second`, where the product wraps at 64 bits.
unfoldable pub outlived : ℕ → ℕ → ℕ → Bool
outlived now fetched_at max_age =
    let d = (max_age * 10 ^ 9) % 2 ^ 64 in
    if ltb d (2 ^ 63) then ltb (fetched_at + d) now else ltb fetched_at (now + (2 ^ 64 - d))

unfoldable pub is_stale : CacheMeta → ℕ → Bool
unfolding outlived
is_stale m now =
    if m.immutable
    then false
    else if leb m.max_age 0
    then true
    else outlived now m.fetched_at m.max_age

-- `strconv.ParseInt`: a sign is allowed, and a number of more than 63 bits is an error. A negative
-- number is given as zero.
abbrev value_of : ℕ → Text → ℕ
value_of n [] = n
value_of n (c ∷ cs) = value_of (10 * n + (c - b'0')) cs

abbrev digits_value : ℕ → Text → Option ℕ
digits_value limit ds =
    if not (is_empty ds) && all is_digit ds
    then (if leb (value_of 0 ds) limit then some (value_of 0 ds) else none)
    else none

abbrev negated : Option ℕ → Option ℕ
negated none = none
negated (some n) = some 0

unfoldable pub parse_age : Text → Option ℕ
unfolding is_digit
parse_age [] = none
parse_age (c ∷ cs) =
    if c == b'-'
    then negated (digits_value (2 ^ 63) cs)
    else digits_value (2 ^ 63 - 1) (if c == b'+' then cs else c ∷ cs)

abbrev aged : Option ℕ → ℕ → ℕ
aged none age = age
aged (some v) age = v

unfoldable pub read_directives : List Text → ℕ × Bool → ℕ × Bool
unfolding parse_age text_eq has_prefix to_lower trim_space drop
read_directives [] found = found
read_directives (part ∷ parts) (age, immutable) =
    let p = trim_space (to_lower part) in
    read_directives parts (
      if text_eq p (codes "immutable")
      then (age, true)
      else if has_prefix p (codes "max-age=")
      then (aged (parse_age (drop 8 p)) age, immutable)
      else (age, immutable))

unfoldable pub parse_cache_control : Text → ℕ × Bool
unfolding read_directives split
parse_cache_control h = if is_empty h then (0, false) else read_directives (split b',' h) (0, false)

-- The first word of the file: `strings.Fields(s)[0]`.
abbrev first_field : Text → Text
first_field s = (span (λ c. not (is_space c)) (trim_left is_space s)).0

abbrev is_hex : ℕ → Bool
is_hex c = is_digit c || (leb b'a' c && leb c b'f')

unfoldable pub parse_sidecar : Text → Option Text
unfolding to_lower span trim_left is_space is_digit
parse_sidecar body =
    let sha = to_lower (first_field body) in
    if length sha == 64 && all is_hex sha then some sha else none

pub record Response : Type 0 where
  pub status : ℕ
  pub etag_header : Text
  pub cache_control : Text
  pub content_type_header : Text
  pub content : Option Text

-- What one attempt gives: an error of the network, or a response.
pub data Answer : Type 0 where
  broken : Answer
  answered : Response → Answer

abbrev pub Server : Type 0
Server = Text → ℕ → Answer

-- The response that ends the loop, if this attempt gives it.
abbrev pub accepted : Answer → Option Response
accepted broken = none
accepted (answered r) = if leb 500 r.status then none else some r

abbrev pub or_retry : Option Response → Option Response → Option Response
or_retry none later = later
or_retry (some r) later = some r

unfoldable pub attempts : (ℕ → Answer) → ℕ → ℕ → Option Response
attempts ask zero n = none
attempts ask (suc left) n = or_retry (accepted (ask n)) (attempts ask left (n + 1))

abbrev pub max_attempts : ℕ
max_attempts = 3

-- `none` is RegistryUnreachable.
unfoldable pub do_request : Server → Text → Option Response
unfolding attempts
do_request server if_none_match = attempts (server if_none_match) max_attempts 0

pub record Cache : Type 0 where
  pub objects : Text → Option Text
  pub metas : Text → Option CacheMeta

pub data FetchError : Type 0 where
  unreachable : FetchError
  not_found : FetchError
  unexpected_status : FetchError
  broken_body : FetchError
  lost_object : FetchError
  not_stored : FetchError

pub data Fetched : Type 0 where
  failed : FetchError → Fetched
  got : Text → Fetched

-- What the disk lets through while a fetch runs.
pub record Disk : Type 0 where
  pub object_ok : Bool
  pub meta_ok : Bool
  -- whether a write of a meta that fails leaves the file; else it is cut short, and not JSON
  pub meta_kept : Bool

-- An object path needs two characters of the digest.
unfoldable pub read_object : Cache → Text → Option Text
read_object c sha = if ltb (length sha) 2 then none else c.objects sha

abbrev pub put_object : Cache → Text → Text → Cache
put_object c sha body = record c { objects = λ k. if text_eq k sha then some body else c.objects k }

abbrev stored : Option Text → Cache → Text → Text → Bool → Option Cache
stored (some old) c sha body ok = some c
stored none c sha body ok = if ok then some (put_object c sha body) else none

-- An object that is there already is left alone; `none` is an error.
unfoldable pub write_object : Disk → Cache → Text → Text → Option Cache
unfolding text_eq
write_object d c sha body =
    if ltb (length sha) 2 then none else stored (c.objects sha) c sha body d.object_ok

-- A failure is logged, and the fetch goes on. The file is truncated before it is written.
unfoldable pub write_meta : Disk → Cache → Text → CacheMeta → Cache
unfolding text_eq
write_meta d c key m =
    let out = if d.meta_ok then some m else none in
    if not d.meta_ok && d.meta_kept
    then c
    else record c { metas = λ k. if text_eq k key then out else c.metas k }

abbrev pub cached_body : Cache → Option CacheMeta → Option Text
cached_body c none = none
cached_body c (some m) = read_object c m.sha256

abbrev pub body_or : FetchError → Option Text → Fetched
body_or e none = failed e
body_or e (some b) = got b

abbrev pub refreshed : CacheMeta → ℕ → Response → CacheMeta
refreshed m now r =
    let (age, immutable) = parse_cache_control r.cache_control in
    record m {
      fetched_at = now;
      max_age = age;
      immutable = immutable;
      etag = if is_empty r.etag_header then m.etag else r.etag_header;
    }

abbrev pub new_meta : Text → Text → ℕ → Response → CacheMeta
new_meta sha url now r =
    let (age, immutable) = parse_cache_control r.cache_control in
    record {
      sha256 = sha;
      etag = r.etag_header;
      fetched_at = now;
      max_age = age;
      content_type = r.content_type_header;
      immutable = immutable;
      original_url = url;
    }

abbrev pub known_etag : Option CacheMeta → Text
known_etag none = []
known_etag (some m) = m.etag

-- The cached object of a meta that is not stale.
unfoldable pub fresh_body : ℕ → Cache → Option CacheMeta → Option Text
unfolding is_stale read_object
fresh_body now c none = none
fresh_body now c (some m) = if is_stale m now then none else read_object c m.sha256

abbrev pub served : Option Text → Cache → Cache × Fetched → Cache × Fetched
served none c network = network
served (some b) c network = (c, got b)

module _ (sha256 : Text → Text) (meta_path : Text → Text) (d : Disk) (now : ℕ) where
  unfoldable pub with_object : Option Cache → Cache → Text → Text → Response → Cache × Fetched
  unfolding write_meta parse_cache_control
  with_object none c url body r = (c, failed not_stored)
  with_object (some after) c url body r =
      (write_meta d after (meta_path url) (new_meta (sha256 body) url now r), got body)

  unfoldable pub keep_body : Cache → Text → Response → Option Text → Cache × Fetched
  unfolding write_object with_object
  keep_body c url r none = (c, failed broken_body)
  keep_body c url r (some body) = with_object (write_object d c (sha256 body) body) c url body r

  -- The response 200, or an error.
  unfoldable pub take_response : Cache → Text → Response → Cache × Fetched
  unfolding keep_body
  take_response c url r =
      if r.status == 404
      then (c, failed not_found)
      else if not (r.status == 200)
      then (c, failed unexpected_status)
      else keep_body c url r r.content

  -- The response 304.
  unfoldable pub revalidate : Cache → Text → CacheMeta → Response → Cache × Fetched
  unfolding write_meta read_object
  revalidate c url m r =
      let after = write_meta d c (meta_path url) (refreshed m now r) in
      (after, body_or lost_object (read_object after m.sha256))

  unfoldable pub on_response : Cache → Text → Option CacheMeta → Option Response → Cache × Fetched
  unfolding take_response revalidate
  on_response c url m none = (c, body_or unreachable (cached_body c m))
  on_response c url none (some r) = take_response c url r
  on_response c url (some m) (some r) =
      if r.status == 304 then revalidate c url m r else take_response c url r

  unfoldable pub fetch_cached : Server → Cache → Text → Cache × Fetched
  unfolding on_response fresh_body do_request
  fetch_cached server c url =
      let m = c.metas (meta_path url) in
      served (fresh_body now c m) c (on_response c url m (do_request server (known_etag m)))
