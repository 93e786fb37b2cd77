-- ===== src/Ledger/Buckets.antt =====
-- Looking installs and projects up behind a change of the ledger: pkg/state/state.go.
use forge_development_hub_cl.Base.{
  ℕ, Bool, true, false, ◌&&◌, Option, none, some, List, [], ◌∷◌, ◌≡◌, ◌∙◌, ap, refl, Text, text_eq,
  text_eq_iff, if◌then◌else◌, arith, find,
}
use forge_development_hub_cl.Kinds.{
  Kind, kind_of, kind_name, kind_skill, kind_rule, kind_agent, kind_hook,
}
use forge_development_hub_cl.Ledger.{
  InstallEntry, KindBuckets, ProjectEntry, State, upsert_by_name, remove_by_name, bucket,
  change_bucket, with_time, set_user_scope_install, remove_user_scope_install, put_project,
  delete_project, upsert_project, remove_project, sorted_paths, project_time,
}

abbrev pub named : Text → InstallEntry → Bool
named name x = text_eq x.name name

abbrev pub find_named : Text → List InstallEntry → Option InstallEntry
find_named name = find (named name)

-- The install of a kind and a name.
abbrev pub find_install : Kind → Text → State → Option InstallEntry
find_install kind name s = find_named name (bucket kind s.user_scope_installs)

find-upsert_by_name :
    (name : Text) (l : List InstallEntry) (e : InstallEntry)
    → find_named name (upsert_by_name l e)
      ≡ (if text_eq e.name name then some e else find_named name l)
unfolding upsert_by_name
find-upsert_by_name name [] e = refl
find-upsert_by_name name (x ∷ l) e = ground (
  arith,
  find-upsert_by_name name l e,
  text_eq_iff x.name e.name,
  text_eq_iff x.name name,
  text_eq_iff e.name name,
)

find-remove_by_name :
    (name gone : Text) (l : List InstallEntry)
    → find_named name (remove_by_name l gone)
      ≡ (if text_eq gone name then none else find_named name l)
unfolding remove_by_name
find-remove_by_name name gone [] = ground arith
find-remove_by_name name gone (x ∷ l) = ground (
  arith,
  find-remove_by_name name gone l,
  text_eq_iff x.name gone,
  text_eq_iff x.name name,
  text_eq_iff gone name,
)

pub same_kind : Kind → Kind → Bool
same_kind Kind.skill Kind.skill = true
same_kind Kind.rule Kind.rule = true
same_kind Kind.agent Kind.agent = true
same_kind Kind.hook Kind.hook = true
same_kind _ _ = false

-- Whether the case for a text is that of the kind.
case_is : Option Kind → Kind → Bool
case_is none k = false
case_is (some j) k = same_kind j k

case_is-text_eq : (s : Text) (k : Kind) → case_is (kind_of s) k ≡ text_eq s (kind_name k)
unfolding kind_of case_is same_kind
case_is-text_eq s k = ground (
  arith,
  text_eq_iff s kind_skill,
  text_eq_iff s kind_rule,
  text_eq_iff s kind_agent,
  text_eq_iff s kind_hook,
)

bucket-change_bucket :
    (o : Option Kind) (f : List InstallEntry → List InstallEntry) (j : Kind) (k : KindBuckets)
    → bucket j (change_bucket o f k) ≡ (if case_is o j then f (bucket j k) else bucket j k)
unfolding case_is same_kind
bucket-change_bucket none f j k = refl
bucket-change_bucket (some i) f j k = ground arith

-- The bucket of a kind after a change of the bucket that a text names.
bucket-change :
    (kind : Text) (f : List InstallEntry → List InstallEntry) (j : Kind) (k : KindBuckets)
    → bucket j (change_bucket (kind_of kind) f k)
      ≡ (if text_eq kind (kind_name j) then f (bucket j k) else bucket j k)
bucket-change kind f j k =
    bucket-change_bucket (kind_of kind) f j k
    ∙ ap (λ (b : Bool). if b then f (bucket j k) else bucket j k) (case_is-text_eq kind j)

-- After an install is recorded, its kind and name have it, with the present time if it had
-- none, and every other kind and name has what it had; a text of no kind changes nothing.
pub find_install-set :
    (now : ℕ) (kind : Text) (e : InstallEntry) (s : State) (j : Kind) (name : Text)
    → find_install j name (set_user_scope_install now kind e s) ≡ (
        if text_eq kind (kind_name j) && text_eq e.name name
        then some (with_time now e)
        else find_install j name s)
unfolding set_user_scope_install
find_install-set now kind e s j name =
    ap (find_named name)
      (bucket-change kind (λ l. upsert_by_name l (with_time now e)) j s.user_scope_installs)
    ∙ ground (arith, find-upsert_by_name name (bucket j s.user_scope_installs) (with_time now e))

-- After an install is removed, its kind and name have none, and every other kind and name has
-- what it had; a text of no kind changes nothing.
pub find_install-remove :
    (kind gone : Text) (s : State) (j : Kind) (name : Text)
    → find_install j name (remove_user_scope_install kind gone s)
      ≡ (if text_eq kind (kind_name j) && text_eq gone name then none else find_install j name s)
unfolding remove_user_scope_install
find_install-remove kind gone s j name =
    ap (find_named name) (bucket-change kind (λ l. remove_by_name l gone) j s.user_scope_installs)
    ∙ ground (arith, find-remove_by_name name gone (bucket j s.user_scope_installs))

abbrev pub lookup_project : Text → List (Text × ProjectEntry) → Option ProjectEntry
lookup_project p [] = none
lookup_project p ((q, f) ∷ m) = if text_eq q p then some f else lookup_project p m

lookup-put_project :
    (p : Text) (e : ProjectEntry) (q : Text) (m : List (Text × ProjectEntry))
    → lookup_project q (put_project p e m) ≡ (if text_eq p q then some e else lookup_project q m)
unfolding put_project
lookup-put_project p e q [] = refl
lookup-put_project p e q ((r, f) ∷ m) =
    ground (arith, lookup-put_project p e q m, text_eq_iff p q, text_eq_iff r p, text_eq_iff r q)

lookup-delete_project :
    (p q : Text) (m : List (Text × ProjectEntry))
    → lookup_project q (delete_project p m) ≡ (if text_eq p q then none else lookup_project q m)
unfolding delete_project
lookup-delete_project p q [] = ground arith
lookup-delete_project p q ((r, f) ∷ m) =
    ground (arith, lookup-delete_project p q m, text_eq_iff p q, text_eq_iff r p, text_eq_iff r q)

abbrev pub project : Text → State → Option ProjectEntry
project path s = lookup_project path s.projects

-- A recorded project has its entry, with sorted paths and the present time if it had none; a
-- removed project has none; both leave every other project and all the installs as they were.
pub projects_map :
    (now : ℕ) (path : Text) (e : ProjectEntry) (s : State) (q : Text)
    → (project q (upsert_project now path e s)
        ≡ (if text_eq path q then some (sorted_paths (project_time now e)) else project q s))
      × (project q (remove_project path s) ≡ (if text_eq path q then none else project q s))
      × ((upsert_project now path e s).user_scope_installs ≡ s.user_scope_installs)
      × ((remove_project path s).user_scope_installs ≡ s.user_scope_installs)
unfolding upsert_project remove_project
projects_map now path e s q = (
  lookup-put_project path (sorted_paths (project_time now e)) q s.projects,
  lookup-delete_project path q s.projects,
  refl,
  refl,
)
