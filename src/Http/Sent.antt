-- ===== src/Http/Sent.antt =====
-- The digests of the bodies that fetchCached gives: pkg/registry/http.go.
use forge_development_hub_cl.Base.{
  ℕ, Bool, true, false, ◌≡◌, ◌⊎◌, refl, sym, ap, ◌∙◌, Option, none, some, List, [], ◌∷◌, Text,
  text_eq, text_eq_iff, if◌then◌else◌, ltb, ◌==◌, length, arith, Bool-cases, inl, inr,
}
use forge_development_hub_cl.Http.{
  CacheMeta, Response, Server, Cache, Disk, Fetched, FetchError, failed, got, read_object,
  put_object, write_object, write_meta, body_or, refreshed, new_meta, do_request, take_response,
  revalidate, with_object, fetch_cached, lost_object, unreachable, broken_body, not_found,
  unexpected_status, keep_body, stored, on_response, fresh_body, known_etag, served,
}

-- One body that the server sent with status 200, with the meta path of its URL.
abbrev pub History : Type 0
History = List (Text × Text)

abbrev pub WasSent : History → Text → Text → Type 0
WasSent [] key body = ⊥
WasSent ((k, b) ∷ h) key body = ((k ≡ key) × (b ≡ body)) ⊎ WasSent h key body

abbrev pub body_of : Option Response → Option Text
body_of none = none
body_of (some r) = if r.status == 200 then r.content else none

abbrev pub noted : Text → Option Text → History → History
noted key none h = h
noted key (some b) h = (key, b) ∷ h

abbrev pub sent_if : Option Text → Option Text → Option Text
sent_if none sent = sent
sent_if (some b) sent = none

-- A body with this digest was sent for the path.
abbrev pub From : (Text → Text) → History → Text → Text → Type 0
From sha256 h key digest = (sent : Text) × WasSent h key sent × (sha256 sent ≡ digest)

-- Objects lie under their digests, and the digest of a meta is of a body sent for its path.
pub record IsHonest (sha256 : Text → Text) (h : History) (c : Cache) : Type 0 where
  pub addressed : (sha body : Text) → c.objects sha ≡ some body → sha256 body ≡ sha
  pub origin : (key : Text) (m : CacheMeta) → c.metas key ≡ some m → From sha256 h key m.sha256

-- What a fetch leaves: an honest cache, and a result from the server.
pub record IsServed (sha256 : Text → Text) (h : History) (key : Text) (out : Cache × Fetched)
    : Type 0 where
  pub honest : IsHonest sha256 h out.0
  pub given : (body : Text) → out.1 ≡ got body → From sha256 h key (sha256 body)

From-noted :
    (sha256 : Text → Text) (h : History) (k b key digest : Text)
    → From sha256 h key digest
    → From sha256 ((k, b) ∷ h) key digest
From-noted sha256 h k b key digest (sent, w, e) = (sent, inr w, e)

module _ (sha256 : Text → Text) (h : History) (c : Cache) (honest : IsHonest sha256 h c) where
  read_object-addressed : (sha body : Text) → read_object c sha ≡ some body → sha256 body ≡ sha
  unfolding read_object
  read_object-addressed sha body e = honest.addressed sha body (ground arith)

  body_or-From :
      (key digest : Text) (e : FetchError) (body : Text)
      → From sha256 h key digest
      → body_or e (read_object c digest) ≡ got body
      → From sha256 h key (sha256 body)
  body_or-From key digest e body (sent, w, s) g =
      let found : read_object c digest ≡ some body = ground arith in
      (sent, w, s ∙ sym (read_object-addressed digest body found))

  put_object-IsHonest : (body : Text) → IsHonest sha256 h (put_object c (sha256 body) body)
  put_object-IsHonest body = record {
    addressed = λ sha b e. elim (Bool-cases (text_eq sha (sha256 body))) [
      | inl same ↦
          let here : b ≡ body = ground arith in
          ap sha256 here ∙ sym ((text_eq_iff sha (sha256 body)).0 same)
      | inr other ↦ honest.addressed sha b (ground arith)
    ];
    origin = honest.origin;
  }

  noted-IsHonest : (k b : Text) → IsHonest sha256 ((k, b) ∷ h) c
  noted-IsHonest k b = record {
    addressed = honest.addressed;
    origin = λ key m e. From-noted sha256 h k b key m.sha256 (honest.origin key m e);
  }

  write_meta-IsHonest :
      (d : Disk) (key : Text) (m : CacheMeta)
      → From sha256 h key m.sha256
      → IsHonest sha256 h (write_meta d c key m)
  unfolding write_meta
  write_meta-IsHonest d key m from = elim (Bool-cases d.meta_ok) [
    | inr lost ↦ elim (Bool-cases d.meta_kept) [
      | inl kept ↦ rw (lost, kept) honest
      | inr cut ↦
          rw (lost, cut)
            record {
              addressed = honest.addressed;
              origin = λ k n e. elim (Bool-cases (text_eq k key)) [
                | inl same ↦ absurd (ground arith)
                | inr other ↦ honest.origin k n (ground arith)
              ];
            }
    ]
    | inl written ↦ rw written record {
      addressed = honest.addressed;
      origin = λ k n e. elim (Bool-cases (text_eq k key)) [
        | inl same ↦
            let it : n ≡ m = ground arith in
            let here : k ≡ key = (text_eq_iff k key).0 same in rw (it, here) from
        | inr other ↦ honest.origin k n (ground arith)
      ];
    }
  ]

module _ (sha256 meta_path : Text → Text) (d : Disk) (now : ℕ) (h : History) (c : Cache)
    (honest : IsHonest sha256 h c) (url : Text) where
  failed-IsServed : (e : FetchError) → IsServed sha256 h (meta_path url) (c, failed e)
  failed-IsServed e = record { honest = honest; given = λ b g. cc }

  with_object-IsServed :
      (body : Text) (r : Response) (after : Option Cache)
      → ((c' : Cache) → after ≡ some c' → IsHonest sha256 h c')
      → IsServed sha256
          ((meta_path url, body) ∷ h)
          (meta_path url)
          (with_object sha256 meta_path d now after c url body r)
  unfolding with_object
  with_object-IsServed body r none keeps = record {
    honest = noted-IsHonest sha256 h c honest (meta_path url) body;
    given = λ b g. cc;
  }
  with_object-IsServed body r (some c') keeps =
      let key = meta_path url in
      let sent : From sha256 ((key, body) ∷ h) key (sha256 body) = (body, inl (refl, refl), refl) in
      record {
        honest =
            write_meta-IsHonest sha256 ((key, body) ∷ h) c'
              (noted-IsHonest sha256 h c' (keeps c' refl) key body) d key
              (new_meta (sha256 body) url now r) sent;
        given =
            λ b g. let same : body ≡ b = ground arith in (body, inl (refl, refl), ap sha256 same);
      }

  write_object-IsHonest :
      (body : Text) (c' : Cache)
      → write_object d c (sha256 body) body ≡ some c'
      → IsHonest sha256 h c'
  unfolding write_object
  write_object-IsHonest body c' e =
      write_cases (ltb (length (sha256 body)) 2) (c.objects (sha256 body)) d.object_ok e
    where
      write_cases :
          (small : Bool) (old : Option Text) (ok : Bool)
          → (if small then none else stored old c (sha256 body) body ok) ≡ some c'
          → IsHonest sha256 h c'
      write_cases true old ok k = cc
      write_cases false (some old) ok k = let same : c ≡ c' = ground arith in rw (← same) honest
      write_cases false none false k = cc
      write_cases false none true k =
          let same : put_object c (sha256 body) body ≡ c' = ground arith in
          rw (← same) (put_object-IsHonest sha256 h c honest body)

  keep_body-IsServed :
      (r : Response) (content : Option Text)
      → IsServed sha256
          (noted (meta_path url) content h)
          (meta_path url)
          (keep_body sha256 meta_path d now c url r content)
  unfolding keep_body
  keep_body-IsServed r none = failed-IsServed broken_body
  keep_body-IsServed r (some body) =
      with_object-IsServed body r (write_object d c (sha256 body) body)
        (λ c' e. write_object-IsHonest body c' e)

  take_response-IsServed :
      (r : Response)
      → IsServed sha256
          (noted (meta_path url) (body_of (some r)) h)
          (meta_path url)
          (take_response sha256 meta_path d now c url r)
  unfolding take_response
  take_response-IsServed r = elim (Bool-cases (r.status == 200)) [
    | inl ok ↦
        let other : r.status == 404 ≡ false = ground arith in
        rw (ok, other) (keep_body-IsServed r r.content)
    | inr bad ↦ elim (Bool-cases (r.status == 404)) [
      | inl lost ↦ rw (bad, lost) (failed-IsServed not_found)
      | inr other ↦ rw (bad, other) (failed-IsServed unexpected_status)
    ]
  ]

  revalidate-IsServed :
      (m : CacheMeta) (r : Response)
      → c.metas (meta_path url) ≡ some m
      → IsServed sha256 h (meta_path url) (revalidate sha256 meta_path d now c url m r)
  unfolding revalidate
  revalidate-IsServed m r k =
      let key = meta_path url in
      let after = write_meta d c key (refreshed m now r) in
      let kept =
        write_meta-IsHonest sha256 h c honest d key (refreshed m now r) (honest.origin key m k) in
      record {
        honest = kept;
        given = λ b g.
            body_or-From sha256 h after kept key m.sha256 lost_object b (honest.origin key m k) g;
      }

  on_response-IsServed :
      (m : Option CacheMeta) (r : Option Response)
      → c.metas (meta_path url) ≡ m
      → IsServed sha256
          (noted (meta_path url) (body_of r) h)
          (meta_path url)
          (on_response sha256 meta_path d now c url m r)
  unfolding on_response
  on_response-IsServed none none k = failed-IsServed unreachable
  on_response-IsServed (some m) none k = record {
    honest = honest;
    given = λ b g.
        body_or-From sha256 h c honest (meta_path url) m.sha256 unreachable b
          (honest.origin (meta_path url) m k) g;
  }
  on_response-IsServed none (some r) k = take_response-IsServed r
  on_response-IsServed (some m) (some r) k = elim (Bool-cases (r.status == 304)) [
    | inl unchanged ↦
        let other : r.status == 200 ≡ false = ground arith in
        rw (unchanged, other) (revalidate-IsServed m r k)
    | inr other ↦ rw other (take_response-IsServed r)
  ]

  fresh-IsServed :
      (m : Option CacheMeta) (b : Text)
      → c.metas (meta_path url) ≡ m
      → fresh_body now c m ≡ some b
      → IsServed sha256 h (meta_path url) (c, got b)
  unfolding fresh_body
  fresh-IsServed none b k e = cc
  fresh-IsServed (some m) b k e = record {
    honest = honest;
    given = λ body g.
        body_or-From sha256 h c honest (meta_path url) m.sha256 unreachable body
          (honest.origin (meta_path url) m k) (ground arith);
  }

  served-IsServed :
      (m : Option CacheMeta) (fresh : Option Text) (r : Option Response)
      → c.metas (meta_path url) ≡ m
      → fresh_body now c m ≡ fresh
      → IsServed sha256
          (noted (meta_path url) (sent_if fresh (body_of r)) h)
          (meta_path url)
          (served fresh c (on_response sha256 meta_path d now c url m r))
  served-IsServed m none r k e = on_response-IsServed m r k
  served-IsServed m (some b) r k e = fresh-IsServed m b k e

-- The body that the server sends with status 200 during a fetch, if it is asked.
unfoldable pub sent_during : (Text → Text) → ℕ → Cache → Text → Server → Option Text
unfolding fresh_body do_request
sent_during meta_path now c url server =
    let m = c.metas (meta_path url) in
    sent_if (fresh_body now c m) (body_of (do_request server (known_etag m)))

-- If objects lie under their digests and the digest of each meta is of a body sent for its path,
-- then this holds after a fetch too, however the server answers and whatever the disk refuses, and
-- a body that the fetch gives has the digest of one that was sent with status 200 for the path.
pub fetch_cached-IsServed :
    (sha256 meta_path : Text → Text) (d : Disk) (now : ℕ) (h : History) (c : Cache) (url : Text)
    (server : Server)
    → IsHonest sha256 h c
    → IsServed sha256
        (noted (meta_path url) (sent_during meta_path now c url server) h)
        (meta_path url)
        (fetch_cached sha256 meta_path d now server c url)
unfolding fetch_cached sent_during
fetch_cached-IsServed sha256 meta_path d now h c url server honest =
    let m = c.metas (meta_path url) in
    served-IsServed sha256 meta_path d now h c honest url m (fresh_body now c m)
      (do_request server (known_etag m)) refl refl
