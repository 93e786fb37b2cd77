-- ===== src/Adapters/Paths/Served.antt =====
-- Which agents a directory serves: PathSet of pkg/adapters/adapters.go.
use forge_development_hub_cl.Base.{
  Bool, true, false, ◌≡◌, refl, ◌||◌, ◌&&◌, Option, none, some, List, [], ◌∷◌, ◌++◌, Text, text_eq,
  text_lt, text_eq_iff, any, map, arith, Bool-cases, inl, inr, is_empty,
}
use forge_development_hub_cl.Base.Sort.{any-sort}
use forge_development_hub_cl.Adapters.{AgentEntry, agent_by_id}
use forge_development_hub_cl.Adapters.Paths.{
  Tried, failed, done, ◌>>=◌, ResolvedPath, PathSetOptions, contains_string, put_path, expanded_raw,
  put_raws, raw_paths, known, put_agents, sorted_agents, path_set,
}

-- The directory is in the result, with the agent.
abbrev pub serves : List ResolvedPath → Text → Text → Bool
serves out p id = any (λ r. text_eq r.path p && contains_string r.agents id) out

abbrev is_done : Tried Text → Text → Bool
is_done (failed e) p = false
is_done (done q) p = text_eq q p

abbrev any_of : Tried (List Text) → (Text → Bool) → Bool
any_of (failed e) test = false
any_of (done raws) test = any test raws

abbrev read_by : Option AgentEntry → PathSetOptions → Text → Bool
read_by none opts p = false
read_by (some a) opts p = any_of (raw_paths opts.scope a) (λ raw. is_done (expanded_raw opts raw) p)

-- The agent is asked for, and reads the directory in the scope.
abbrev pub reads : List AgentEntry → PathSetOptions → List Text → Text → Text → Bool
reads m opts ids p id = any (λ i. text_eq i id && read_by (agent_by_id m i) opts p) ids

any-append_one :
    (id i : Text) (xs : List Text)
    → contains_string (xs ++ (i ∷ [])) id ≡ (contains_string xs id || text_eq i id)
any-append_one id i [] = ground arith
any-append_one id i (x ∷ xs) = ground (arith, any-append_one id i xs)

contains_string-same :
    (id i : Text) (xs : List Text)
    → contains_string xs i ≡ true
    → text_eq i id ≡ true
    → contains_string xs id ≡ true
contains_string-same id i xs h e = rw (← (text_eq_iff i id).0 e) h

serves-put_path :
    (path i p id : Text) (found : List ResolvedPath)
    → serves (put_path path i found) p id ≡ ((text_eq path p && text_eq i id) || serves found p id)
unfolding put_path
serves-put_path path i p id [] = ground arith
serves-put_path path i p id (r ∷ rs) = ground (
  arith,
  serves-put_path path i p id rs,
  text_eq_iff r.path path,
  any-append_one id i r.agents,
  contains_string-same id i r.agents,
)

serves-step :
    (opts : PathSetOptions) (i p id : Text) (found out : List ResolvedPath) (read : Bool)
    (tried : Tried Text) (rest : List ResolvedPath → Tried (List ResolvedPath))
    → ((more : List ResolvedPath)
        → rest more ≡ done out
        → serves out p id ≡ (serves more p id || (text_eq i id && read)))
    → (tried >>= λ path. rest (put_path path i found)) ≡ done out
    → serves out p id ≡ (serves found p id || (text_eq i id && (is_done tried p || read)))
serves-step opts i p id found out read (failed e) rest next h = ground arith
serves-step opts i p id found out read (done path) rest next h =
    ground (arith, next (put_path path i found) h, serves-put_path path i p id found)

serves-put_raws :
    (opts : PathSetOptions) (i p id : Text) (raws : List Text) (found out : List ResolvedPath)
    → put_raws opts i raws found ≡ done out
    → serves out p id
      ≡ (serves found p id || (text_eq i id && any (λ raw. is_done (expanded_raw opts raw) p) raws))
unfolding put_raws
serves-put_raws opts i p id [] found out h = ground arith
serves-put_raws opts i p id (raw ∷ raws) found out h =
    serves-step opts i p id found out (any (λ r. is_done (expanded_raw opts r) p) raws)
      (expanded_raw opts raw) (put_raws opts i raws)
      (λ more e. serves-put_raws opts i p id raws more out e) h

-- What the later agents add to what is found.
abbrev Next :
    List AgentEntry → PathSetOptions → Text → Text → List Text → List ResolvedPath → Type 0
Next m opts p id ids out =
    (more : List ResolvedPath)
    → put_agents m opts ids more ≡ done out
    → serves out p id ≡ (serves more p id || reads m opts ids p id)

serves-put_result :
    (m : List AgentEntry) (opts : PathSetOptions) (i p id : Text) (ids : List Text)
    (found out : List ResolvedPath) (raws : List Text) (result : Tried (List ResolvedPath))
    → Next m opts p id ids out
    → put_raws opts i raws found ≡ result
    → (result >>= put_agents m opts ids) ≡ done out
    → serves out p id ≡ (
        serves found p id
        || ((text_eq i id && any (λ raw. is_done (expanded_raw opts raw) p) raws)
            || reads m opts ids p id))
serves-put_result m opts i p id ids found out raws (failed e) next r h = ground arith
serves-put_result m opts i p id ids found out raws (done more) next r h =
    ground (arith, next more h, serves-put_raws opts i p id raws found more r)

serves-put_listed :
    (m : List AgentEntry) (opts : PathSetOptions) (i p id : Text) (ids : List Text)
    (found out : List ResolvedPath) (listed : Tried (List Text))
    → Next m opts p id ids out
    → (listed >>= (λ raws. put_raws opts i raws found) >>= put_agents m opts ids) ≡ done out
    → serves out p id ≡ (
        serves found p id
        || ((text_eq i id && any_of listed (λ raw. is_done (expanded_raw opts raw) p))
            || reads m opts ids p id))
serves-put_listed m opts i p id ids found out (failed e) next h = ground arith
serves-put_listed m opts i p id ids found out (done raws) next h =
    serves-put_result m opts i p id ids found out raws (put_raws opts i raws found) next refl h

serves-put_known :
    (m : List AgentEntry) (opts : PathSetOptions) (i p id : Text) (ids : List Text)
    (found out : List ResolvedPath) (agent : Option AgentEntry)
    → Next m opts p id ids out
    → (known agent
        >>= raw_paths opts.scope
        >>= (λ raws. put_raws opts i raws found)
        >>= put_agents m opts ids)
      ≡ done out
    → serves out p id
      ≡ (serves found p id || ((text_eq i id && read_by agent opts p) || reads m opts ids p id))
serves-put_known m opts i p id ids found out none next h = ground arith
serves-put_known m opts i p id ids found out (some a) next h =
    serves-put_listed m opts i p id ids found out (raw_paths opts.scope a) next h

serves-put_agents :
    (m : List AgentEntry) (opts : PathSetOptions) (p id : Text) (ids : List Text)
    (found out : List ResolvedPath)
    → put_agents m opts ids found ≡ done out
    → serves out p id ≡ (serves found p id || reads m opts ids p id)
unfolding put_agents
serves-put_agents m opts p id [] found out h = ground arith
serves-put_agents m opts p id (i ∷ ids) found out h =
    serves-put_known m opts i p id ids found out (agent_by_id m i)
      (λ more e. serves-put_agents m opts p id ids more out e) h

serves-sorted_agents :
    (p id : Text) (found : List ResolvedPath)
    → serves (map sorted_agents found) p id ≡ serves found p id
serves-sorted_agents p id [] = refl
serves-sorted_agents p id (r ∷ rs) =
    rw (any-sort text_lt (λ h. text_eq h id) r.agents, serves-sorted_agents p id rs) refl

path_set-found :
    (m : List AgentEntry) (opts : PathSetOptions) (out : List ResolvedPath) (p id : Text)
    (tried : Tried (List ResolvedPath))
    → put_agents m opts opts.agent_ids [] ≡ tried
    → (tried >>= λ found. done (map sorted_agents found)) ≡ done out
    → serves out p id ≡ reads m opts opts.agent_ids p id
path_set-found m opts out p id (failed e) t h = ground arith
path_set-found m opts out p id (done found) t h =
    let same : map sorted_agents found ≡ out = ground arith in
    rw (← same, serves-sorted_agents p id found)
      (serves-put_agents m opts p id opts.agent_ids [] found t)

-- If PathSet gives a result, it has a directory with an agent exactly when the agent is asked for
-- and one of its paths in the scope expands to that directory.
pub serves-path_set :
    (m : List AgentEntry) (opts : PathSetOptions) (out : List ResolvedPath) (p id : Text)
    → path_set m opts ≡ done out
    → serves out p id ≡ reads m opts opts.agent_ids p id
unfolding path_set
serves-path_set m opts out p id h =
    let tried = put_agents m opts opts.agent_ids [] in
    elim (Bool-cases (is_empty opts.skill_name)) [
      | inl e ↦ ground arith
      | inr e ↦ ground (arith, path_set-found m opts out p id tried refl)
    ]
