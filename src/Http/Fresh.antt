-- ===== src/Http/Fresh.antt =====
-- What a fetch leaves for the next one: pkg/registry/http.go.
use forge_development_hub_cl.Base.{
  ℕ, zero, suc, ◌+◌, ◌≤◌, ◌<◌, true, false, ◌≡◌, ◌⊎◌, refl, ap, ◌∙◌, Option, none, some, Text,
  text_eq_refl, ltb, ◌==◌, length, arith, Bool-cases, inl, inr,
}
use forge_development_hub_cl.Http.{
  CacheMeta, Response, Server, Answer, accepted, attempts, Cache, Disk, failed, got, is_stale,
  read_object, put_object, stored, write_object, write_meta, refreshed, new_meta, do_request,
  take_response, revalidate, on_response, fresh_body, known_etag, fetch_cached, lost_object,
  with_object, keep_body,
}

-- The attempts before this one are refused, and this one is answered.
pub record AnswersAt (ask : ℕ → Answer) (n : ℕ) (r : Response) : Type 0 where
  pub earlier : (i : ℕ) → i < n → accepted (ask i) ≡ none
  pub here : accepted (ask n) ≡ some r

attempts-answered :
    (ask : ℕ → Answer) (left n k : ℕ) (r : Response)
    → AnswersAt ask k r
    → n ≤ k
    → k < n + left
    → attempts ask left n ≡ some r
unfolding attempts
attempts-answered ask zero n k r a low high = absurd (omega arith)
attempts-answered ask (suc left) n k r a low high = elim (Bool-cases (n == k)) [
  | inl now ↦ let same : n ≡ k = ground arith in rw (same, a.here) refl
  | inr later ↦
      let before : n < k = ground arith in
      rw (a.earlier n before) (attempts-answered ask left (n + 1) k r a (omega arith) (omega arith))
]

-- One of the three attempts is enough.
do_request-answered :
    (server : Server) (etag : Text) (k : ℕ) (r : Response)
    → AnswersAt (server etag) k r
    → k < 3
    → do_request server etag ≡ some r
unfolding do_request
do_request-answered server etag k r a few =
    attempts-answered (server etag) 3 0 k r a (omega arith) (omega arith)

module _ (sha256 meta_path : Text → Text) (d : Disk) where
  -- What the disk and the digests must do for a body to be stored.
  pub record CanStore (c : Cache) (body : Text) : Type 0 where
    pub objects : d.object_ok ≡ true
    pub metas : d.meta_ok ≡ true
    pub long : 2 ≤ length (sha256 body)
    pub no_clash : (old : Text) → c.objects (sha256 body) ≡ some old → old ≡ body

-- The cache with the object.
record IsStored (c : Cache) (sha body : Text) (out : Option Cache) : Type 0 where
  after : Cache
  gives : out ≡ some after
  object : after.objects sha ≡ some body

stored-IsStored :
    (c : Cache) (sha body : Text) (old : Option Text)
    → c.objects sha ≡ old
    → ((o : Text) → c.objects sha ≡ some o → o ≡ body)
    → IsStored c sha body (stored old c sha body true)
stored-IsStored c sha body none e clash = record {
  after = put_object c sha body;
  gives = refl;
  object = rw (text_eq_refl sha) refl;
}
stored-IsStored c sha body (some o) e clash = record {
  after = c;
  gives = refl;
  object = e ∙ ap some (clash o e);
}

write_object-IsStored :
    (sha256 meta_path : Text → Text) (d : Disk) (c : Cache) (body : Text)
    → CanStore sha256 meta_path d c body
    → IsStored c (sha256 body) body (write_object d c (sha256 body) body)
unfolding write_object
write_object-IsStored sha256 meta_path d c body can =
    let long : ltb (length (sha256 body)) 2 ≡ false = ground arith in
    rw (long, can.objects)
      (stored-IsStored c (sha256 body) body (c.objects (sha256 body)) refl can.no_clash)

-- A body that a fetch takes from the server is in the cache behind it, with its meta.
take_response-got :
    (sha256 meta_path : Text → Text) (d : Disk) (now : ℕ) (c : Cache) (url : Text) (r : Response)
    (body : Text)
    → CanStore sha256 meta_path d c body
    → r.status ≡ 200
    → r.content ≡ some body
    → let out = take_response sha256 meta_path d now c url r in
      (out.1 ≡ got body)
      × (out.0.metas (meta_path url) ≡ some (new_meta (sha256 body) url now r))
      × (read_object out.0 (sha256 body) ≡ some body)
unfolding take_response keep_body with_object write_meta read_object
take_response-got sha256 meta_path d now c url r body can ok whole =
    let s = write_object-IsStored sha256 meta_path d c body can in
    let long : ltb (length (sha256 body)) 2 ≡ false = ground (arith, can.long) in
    rw (ok, whole, s.gives, can.metas, text_eq_refl (meta_path url), long, s.object)
      (refl, refl, refl)

-- A response 200 goes past the handling of 304.
on_response-got :
    (sha256 meta_path : Text → Text) (d : Disk) (now : ℕ) (c : Cache) (url : Text)
    (m : Option CacheMeta) (r : Response)
    → r.status ≡ 200
    → on_response sha256 meta_path d now c url m (some r)
      ≡ take_response sha256 meta_path d now c url r
unfolding on_response
on_response-got sha256 meta_path d now c url none r ok = refl
on_response-got sha256 meta_path d now c url (some m) r ok = rw ok refl

fetch_cached-fresh :
    (sha256 meta_path : Text → Text) (d : Disk) (now : ℕ) (c : Cache) (url : Text) (m : CacheMeta)
    (body : Text) (server : Server)
    → c.metas (meta_path url) ≡ some m
    → read_object c m.sha256 ≡ some body
    → is_stale m now ≡ false
    → fetch_cached sha256 meta_path d now server c url ≡ (c, got body)
unfolding fetch_cached fresh_body
fetch_cached-fresh sha256 meta_path d now c url m body server k o fresh = rw (k, fresh, o) refl

fetch_cached-network :
    (sha256 meta_path : Text → Text) (d : Disk) (now : ℕ) (c : Cache) (url : Text) (server : Server)
    (r : Response)
    → fresh_body now c (c.metas (meta_path url)) ≡ none
    → do_request server (known_etag (c.metas (meta_path url))) ≡ some r
    → fetch_cached sha256 meta_path d now server c url
      ≡ on_response sha256 meta_path d now c url (c.metas (meta_path url)) (some r)
unfolding fetch_cached
fetch_cached-network sha256 meta_path d now c url server r stale answer = rw (stale, answer) refl

-- If no fresh object is cached, one of three attempts is answered with 200 and a body, and the body
-- can be stored, then the fetch gives the body; and a fetch of the URL at a time when the new meta
-- is not stale gives it too, whatever the server does, and leaves the cache as it is.
pub fetch_cached-again :
    (sha256 meta_path : Text → Text) (d : Disk) (now : ℕ) (c : Cache) (url : Text) (server : Server)
    (k : ℕ) (r : Response) (body : Text) (later : ℕ) (other : Server)
    → fresh_body now c (c.metas (meta_path url)) ≡ none
    → AnswersAt (server (known_etag (c.metas (meta_path url)))) k r
    → k < 3
    → r.status ≡ 200
    → r.content ≡ some body
    → CanStore sha256 meta_path d c body
    → is_stale (new_meta (sha256 body) url now r) later ≡ false
    → let out = fetch_cached sha256 meta_path d now server c url in
      (out.1 ≡ got body)
      × (fetch_cached sha256 meta_path d later other out.0 url ≡ (out.0, got body))
fetch_cached-again sha256 meta_path d now c url server k r body later other stale a few ok whole can
      unspent =
    let m = c.metas (meta_path url) in
    let answer = do_request-answered server (known_etag m) k r a few in
    let (gives, meta, object) =
      take_response-got sha256 meta_path d now c url r body can ok whole in
    rw
      (
        fetch_cached-network sha256 meta_path d now c url server r stale answer,
        on_response-got sha256 meta_path d now c url m r ok,
      )
      (
        gives,
        fetch_cached-fresh sha256 meta_path d later (take_response sha256 meta_path d now c url r).0
            url (new_meta (sha256 body) url now r) body other meta object unspent,
      )

-- The meta of a URL has no object.
pub record IsLost (meta_path : Text → Text) (c : Cache) (url : Text) : Type 0 where
  pub meta : CacheMeta
  pub known : c.metas (meta_path url) ≡ some meta
  pub gone : read_object c meta.sha256 ≡ none

-- The object is still lost; or the meta is gone too, since its write failed and cut the file short.
abbrev pub StaysLost : (Text → Text) → Disk → Cache → Text → Type 0
StaysLost meta_path d c url =
    IsLost meta_path c url
    ⊎ ((d.meta_ok ≡ false) × (d.meta_kept ≡ false) × (c.metas (meta_path url) ≡ none))

fresh_body-lost :
    (now : ℕ) (c : Cache) (m : CacheMeta)
    → read_object c m.sha256 ≡ none
    → fresh_body now c (some m) ≡ none
unfolding fresh_body
fresh_body-lost now c m gone = rw gone (ground arith)

revalidate-IsLost :
    (sha256 meta_path : Text → Text) (d : Disk) (now : ℕ) (c : Cache) (url : Text) (m : CacheMeta)
    (r : Response)
    → c.metas (meta_path url) ≡ some m
    → read_object c m.sha256 ≡ none
    → let out = revalidate sha256 meta_path d now c url m r in
      (out.1 ≡ failed lost_object) × StaysLost meta_path d out.0 url
unfolding revalidate write_meta read_object
revalidate-IsLost sha256 meta_path d now c url m r known gone = elim (Bool-cases d.meta_ok) [
  | inl written ↦
      rw (written, gone)
        (
          refl,
          inl (record {
            meta = refreshed m now r;
            known = rw (text_eq_refl (meta_path url)) refl;
            gone = gone;
          }),
        )
  | inr refused ↦ elim (Bool-cases d.meta_kept) [
    | inl kept ↦
        rw (refused, kept, gone) (refl, inl (record { meta = m; known = known; gone = gone }))
    | inr cut ↦
        rw (refused, cut, gone) (refl, inr (refl, refl, rw (text_eq_refl (meta_path url)) refl))
  ]
]

-- If the meta of a URL is there and its object is not, a fetch that the server answers with 304
-- fails, and leaves the cache so that the next one does, unless the write of the meta fails and
-- cuts the file short: then no meta is left.
pub fetch_cached-IsLost :
    (sha256 meta_path : Text → Text) (d : Disk) (now : ℕ) (c : Cache) (url : Text) (server : Server)
    (r : Response) (lost : IsLost meta_path c url)
    → do_request server lost.meta.etag ≡ some r
    → r.status ≡ 304
    → let out = fetch_cached sha256 meta_path d now server c url in
      (out.1 ≡ failed lost_object) × StaysLost meta_path d out.0 url
unfolding fetch_cached on_response
fetch_cached-IsLost sha256 meta_path d now c url server r lost answer unchanged =
    let m = lost.meta in
    rw (network) (revalidate-IsLost sha256 meta_path d now c url m r lost.known lost.gone)
  where
    network :
        fetch_cached sha256 meta_path d now server c url
        ≡ revalidate sha256 meta_path d now c url lost.meta r
    network = rw (lost.known, fresh_body-lost now c lost.meta lost.gone, answer, unchanged) refl
