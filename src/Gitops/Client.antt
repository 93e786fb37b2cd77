-- ===== src/Gitops/Client.antt =====
-- The calls to the forge and what every composer does: internal/portalapi/gitops/client.go and
-- compose.go. The client's answers are a record; `none` is an error. What a composer asks the
-- forge to change is a list of pushes, in order.
use forge_development_hub_cl.Base.{
  Bool, true, false, Option, none, some, List, [], ◌∷◌, ◌++◌, Text, codes, is_empty, if◌then◌else◌,
}
use forge_development_hub_cl.Base.Bytes.{trim_space}
use forge_development_hub_cl.Gitops.Registry.{EditError, Edited, edited, not_edited}

pub record FileChange : Type 0 where
  pub path : Text
  pub contents : Text
  pub delete : Bool

pub record Client : Type 0 where
  pub enabled : Bool
  pub default_branch : Option Text
  pub default_branch_sha : Option Text
  pub branch_exists : Text → Option Bool
  pub create_branch : Text → Text → Bool
  pub get_file : Text → Text → Option (Option Text)
  pub commit_files : Text → Text → List FileChange → Text → Bool
  pub find_open_pr : Text → Option (Option Text)
  pub open_pr : Text → Text → Text → Text → Option Text

pub data Push : Type 0 where
  create_branch : Text → Text → Push
  commit_files : Text → Text → List FileChange → Text → Push
  open_pr : Text → Text → Text → Text → Push

pub data Error : Type 0 where
  not_configured empty_action ambiguous client_failed branch_conflict name_collision : Error
  lifecycle invalid_bundle uncollected : Error
  missing_file : Text → Error
  edit_failed : EditError → Error

pub record Requestor : Type 0 where
  pub name : Text
  pub email : Text
  pub role : Text

pub record Result : Type 0 where
  pub url : Text
  pub branch : Text
  pub already_open : Bool

pub data Outcome : Type 0 where
  composed : Result → Outcome
  refused : Error → Outcome

-- A return before the end, or the value to go on with.
pub data Early {ℓ} (A : Type ℓ) : Type ℓ where
  leave : Outcome → Early A
  go_on : A → Early A

infixl 5 ◌>>=◌
abbrev pub ◌>>=◌ {ℓ κ} : {A : Type ℓ} → {B : Type κ} → Early A → (A → Early B) → Early B
leave o >>= f = leave o
go_on a >>= f = f a

abbrev pub answered {ℓ} : {A : Type ℓ} → Option A → Early A
answered none = leave (refused client_failed)
answered (some a) = go_on a

abbrev pub guard : Bool → Error → Early Bool
guard true e = go_on true
guard false e = leave (refused e)

abbrev pub present : Text → Option Text → Early Text
present path none = leave (refused (missing_file path))
present path (some body) = go_on body

-- GetFile, with an error for a file that is not there.
abbrev pub required : Client → Text → Text → Early Text
required c path ref = answered (c.get_file path ref) >>= present path

abbrev pub edit_done {ℓ} : {A : Type ℓ} → Edited A → Early A
edit_done (edited a) = go_on a
edit_done (not_edited e) = leave (refused (edit_failed e))

abbrev existing : Text → Option Text → Early Bool
existing branch none = go_on true
existing branch (some url) =
    leave (composed (record { url = url; branch = branch; already_open = true }))

-- `idempotentExisting`, with the return of its result.
unfoldable pub idempotent_existing : Client → Text → Early Bool
idempotent_existing c branch = answered (c.find_open_pr branch) >>= existing branch

-- What is proposed: the branch, its base, the files and the texts.
pub record Proposal : Type 0 where
  pub branch : Text
  pub base : Text
  pub files : List FileChange
  pub message : Text
  pub body : Text

abbrev nonblank : Text → Text → Text
nonblank t d = if is_empty t then d else t

unfoldable pub label : Requestor → Text
unfolding trim_space
label r =
    let who =
      nonblank (nonblank (trim_space r.name) (trim_space r.email)) (codes "a portal user") in
    let role = nonblank (trim_space r.role) (codes "unknown-role") in
    who ++ codes " (`" ++ role ++ codes "`)"

unfoldable pub detail_lines : List Text → Text
unfolding trim_space
detail_lines [] = []
detail_lines (d ∷ ds) =
    let rest = detail_lines ds in
    if is_empty (trim_space d) then rest else codes "- " ++ d ++ codes "\n" ++ rest

abbrev pub propose_footer : Text
propose_footer =
    codes "Proposed via the portal "
    ++ (226 ∷ 128 ∷ 148 ∷ [])
    ++ codes " not part of the catalog until reviewed and merged."

abbrev details_part : List Text → Text
unfolding detail_lines
details_part [] = []
details_part (d ∷ ds) = codes "\n" ++ detail_lines (d ∷ ds)

unfoldable pub build_pr_body : Text → Requestor → List Text → Text
unfolding label details_part detail_lines
build_pr_body action r details =
    action
    ++ codes "\n\nRequested via the portal by "
    ++ label r
    ++ codes ".\n"
    ++ details_part details
    ++ codes "\n"
    ++ propose_footer
    ++ codes "\n"

-- The base to commit against, and whether the branch is free, before it is created.
unfoldable pub prepare_branch : Client → Text → Early Text
prepare_branch c branch = do
  sha ← answered c.default_branch_sha
  exists ← answered (c.branch_exists branch)
  if exists then leave (refused branch_conflict) else go_on sha

abbrev pub opened : Client → Proposal → Option Text → Outcome
opened c p none = refused client_failed
opened c p (some url) = composed (record { url = url; branch = p.branch; already_open = false })

-- Creating the branch, committing and opening the pull request: each only if the one before had
-- no error.
abbrev pub push_from : Client → Proposal → Text → List Push × Outcome
push_from c p sha =
    let branched = create_branch p.branch sha in
    let committed = commit_files p.branch sha p.files p.message in
    let asked = open_pr p.branch p.base p.message p.body in
    if c.create_branch p.branch sha
    then (if c.commit_files p.branch sha p.files p.message
        then (
          branched ∷ committed ∷ asked ∷ [],
          opened c p (c.open_pr p.branch p.base p.message p.body),
        )
        else (branched ∷ committed ∷ [], refused client_failed))
    else (branched ∷ [], refused client_failed)

abbrev push_ready : Client → Proposal → Early Text → List Push × Outcome
push_ready c p (leave o) = ([], o)
push_ready c p (go_on sha) = push_from c p sha

unfoldable pub push : Client → Early Proposal → List Push × Outcome
unfolding prepare_branch
push c (leave o) = ([], o)
push c (go_on p) = push_ready c p (prepare_branch c p.branch)
