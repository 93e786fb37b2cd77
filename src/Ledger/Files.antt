-- ===== src/Ledger/Files.antt =====
-- Saving a ledger and loading it: pkg/state/state.go.
use forge_development_hub_cl.Base.{
  true, false, Option, none, some, List, [], ◌∷◌, ◌++◌, ◌≡◌, ◌∙◌, ap, refl, Text, text_eq,
  text_eq_iff, if◌then◌else◌, arith, any, ◌⊎◌,
}
use forge_development_hub_cl.Base.Sort.{sort, insert, any-sort}
use forge_development_hub_cl.Kinds.{Kind}
use forge_development_hub_cl.Ledger.{
  InstallEntry, KindBuckets, State, ok, bucket, by_name, sort_buckets, normalised, load, save,
}
use forge_development_hub_cl.Ledger.Buckets.{named, find_named, find_install}

-- No name occurs twice.
abbrev pub NamesDiffer : List InstallEntry → Type 0
NamesDiffer [] = Unit
NamesDiffer (x ∷ xs) = (any (named x.name) xs ≡ false) × NamesDiffer xs

find-none :
    (name : Text) (l : List InstallEntry) → any (named name) l ≡ false → find_named name l ≡ none
find-none name [] h = refl
find-none name (x ∷ l) h = ground (arith, find-none name l)

any-named :
    (a b : Text) (l : List InstallEntry) → text_eq a b ≡ true → any (named a) l ≡ any (named b) l
any-named a b l e = ap (λ (n : Text). any (named n) l) ((text_eq_iff a b).0 e)

find-insert :
    (name : Text) (x : InstallEntry) (l : List InstallEntry)
    → any (named x.name) l ≡ false
    → find_named name (insert by_name x l)
      ≡ (if text_eq x.name name then some x else find_named name l)
unfolding insert
find-insert name x [] h = refl
find-insert name x (y ∷ l) h = ground (
  arith,
  find-insert name x l,
  text_eq_iff x.name name,
  text_eq_iff y.name name,
  text_eq_iff y.name x.name,
)

find-sort :
    (name : Text) (l : List InstallEntry)
    → NamesDiffer l
    → find_named name (sort by_name l) ≡ find_named name l
unfolding sort
find-sort name [] h = refl
find-sort name (x ∷ l) (h, hs) =
    find-insert name x (sort by_name l) (any-sort by_name (named x.name) l ∙ h)
    ∙ ground (arith, find-sort name l hs)

-- In each bucket no name occurs twice.
abbrev pub InstallsDiffer : State → Type 0
InstallsDiffer s = (k : Kind) → NamesDiffer (bucket k s.user_scope_installs)

bucket-sort_buckets :
    (k : Kind) (b : KindBuckets) → bucket k (sort_buckets b) ≡ sort by_name (bucket k b)
unfolding sort_buckets
bucket-sort_buckets Kind.skill b = refl
bucket-sort_buckets Kind.rule b = refl
bucket-sort_buckets Kind.agent b = refl
bucket-sort_buckets Kind.hook b = refl

abbrev pub Readable : State → Type 0
Readable s = (s.schema_version ≡ 0) ⊎ (s.schema_version ≡ 1)

module _ (encode : State → Text) (decode : Text → Option State) where
  -- If no name occurs twice in a bucket, and the decoder reads back what the encoder wrote for the
  -- normalised ledger, with the line end behind it, then a saved ledger of a supported schema, or
  -- of none, is loaded with every install that it had and with its projects and hub cache.
  pub load-save :
      (home : Text) (s : State) (body : Text)
      → save encode decode home s ≡ ok body
      → decode (encode (normalised s) ++ b'\n' ∷ []) ≡ some (normalised s)
      → Readable s
      → InstallsDiffer s
      → (t : State) × (load encode decode home (some body) ≡ ok t)
        × ((k : Kind) (name : Text) → find_install k name t ≡ find_install k name s)
        × (t.projects ≡ s.projects)
        × (t.hub_cache ≡ s.hub_cache)
  unfolding save load
  load-save home s body saved reads readable differ = (
    normalised s,
    ground (arith, reads),
    λ k name.
        ap (find_named name) (bucket-sort_buckets k s.user_scope_installs)
        ∙ find-sort name (bucket k s.user_scope_installs) (differ k),
    refl,
    refl,
  )
