-- ===== src/Gitops/Pushes.antt =====
-- What a composer pushes: internal/portalapi/gitops/compose.go.
use forge_development_hub_cl.Base.{
  Bool, true, false, ◌≡◌, refl, ◌⊎◌, inl, inr, Option, none, some, List, [], ◌∷◌, Text,
  if◌then◌else◌, Bool-cases,
}
use forge_development_hub_cl.Gitops.Client.{
  Client, Push, create_branch, commit_files, open_pr, client_failed, Outcome, composed, refused,
  Early, leave, go_on, Proposal, prepare_branch, push, push_from, opened, answered, branch_conflict,
  ◌>>=◌,
}

-- The three pushes of a proposal on a base.
abbrev pub create : Proposal → Text → Push
create p sha = create_branch p.branch sha

abbrev pub commit : Proposal → Text → Push
commit p sha = commit_files p.branch sha p.files p.message

abbrev pub ask : Proposal → Push
ask p = open_pr p.branch p.base p.message p.body

-- The pushes up to the first one that the forge refuses, with the error; or all three, each done,
-- with the new pull request.
pub data Pushed (c : Client) (p : Proposal) (sha : Text) : List Push → Outcome → Type 0 where
  no_branch :
      c.create_branch p.branch sha ≡ false
      → Pushed c p sha (create p sha ∷ []) (refused client_failed)
  no_commit :
      c.create_branch p.branch sha ≡ true
      → c.commit_files p.branch sha p.files p.message ≡ false
      → Pushed c p sha (create p sha ∷ commit p sha ∷ []) (refused client_failed)
  no_pull_request :
      c.create_branch p.branch sha ≡ true
      → c.commit_files p.branch sha p.files p.message ≡ true
      → c.open_pr p.branch p.base p.message p.body ≡ none
      → Pushed c p sha (create p sha ∷ commit p sha ∷ ask p ∷ []) (refused client_failed)
  pull_request :
      (url : Text)
      → c.create_branch p.branch sha ≡ true
      → c.commit_files p.branch sha p.files p.message ≡ true
      → c.open_pr p.branch p.base p.message p.body ≡ some url
      → Pushed c p sha
          (create p sha ∷ commit p sha ∷ ask p ∷ [])
          (composed (record { url = url; branch = p.branch; already_open = false }))

-- Why nothing is pushed: the tip or the branch cannot be read, or the branch exists.
abbrev pub Stopped : Option Text → Option Bool → Outcome → Type 0
Stopped tip exists o =
    ((o ≡ refused client_failed) × ((tip ≡ none) ⊎ (exists ≡ none)))
    ⊎ ((o ≡ refused branch_conflict) × (exists ≡ some true))

-- Nothing is pushed, with the early return of the composer or of `prepareBranch`; or the branch
-- is new, at the tip of the default branch.
abbrev pub Ran : Client → Early Proposal → List Push × Outcome → Type 0
Ran c (leave o) r = r ≡ ([], o)
Ran c (go_on p) r =
    ((o : Outcome) × Stopped c.default_branch_sha (c.branch_exists p.branch) o × (r ≡ ([], o)))
    ⊎ ((sha : Text) × (c.default_branch_sha ≡ some sha)
        × (c.branch_exists p.branch ≡ some false)
        × Pushed c p sha r.0 r.1)

push_from-Pushed :
    (c : Client) (p : Proposal) (sha : Text)
    → Pushed c p sha (push_from c p sha).0 (push_from c p sha).1
push_from-Pushed c p sha = elim (Bool-cases (c.create_branch p.branch sha)) [
  | inr e ↦ rw e (no_branch e)
  | inl e ↦ rw e (elim (Bool-cases (c.commit_files p.branch sha p.files p.message)) [
    | inr d ↦ rw d (no_commit e d)
    | inl d ↦ rw d (asked e d (c.open_pr p.branch p.base p.message p.body) refl)
  ])
]
  where
    asked :
        c.create_branch p.branch sha ≡ true
        → c.commit_files p.branch sha p.files p.message ≡ true
        → (o : Option Text) → c.open_pr p.branch p.base p.message p.body ≡ o
        → Pushed c p sha
            (create p sha ∷ commit p sha ∷ ask p ∷ [])
            (opened c p (c.open_pr p.branch p.base p.message p.body))
    asked e d none h = rw h (no_pull_request e d h)
    asked e d (some url) h = rw h (pull_request url e d h)

abbrev prepared : Option Text → Option Bool → Early Text
prepared s x = do
  sha ← answered s
  exists ← answered x
  if exists then leave (refused branch_conflict) else go_on sha

prepared-cases :
    (s : Option Text) (x : Option Bool)
    → ((o : Outcome) × (prepared s x ≡ leave o) × Stopped s x o)
      ⊎ ((sha : Text) × (prepared s x ≡ go_on sha) × (s ≡ some sha) × (x ≡ some false))
prepared-cases none x = inl (_, refl, inl (refl, inl refl))
prepared-cases (some sha) none = inl (_, refl, inl (refl, inr refl))
prepared-cases (some sha) (some true) = inl (_, refl, inr (refl, refl))
prepared-cases (some sha) (some false) = inr (sha, refl, refl, refl)

-- `prepareBranch` returns early, or has the tip and a branch that is not there.
prepare_branch-cases :
    (c : Client) (branch : Text)
    → ((o : Outcome) × (prepare_branch c branch ≡ leave o)
        × Stopped c.default_branch_sha (c.branch_exists branch) o)
      ⊎ ((sha : Text) × (prepare_branch c branch ≡ go_on sha)
          × (c.default_branch_sha ≡ some sha)
          × (c.branch_exists branch ≡ some false))
unfolding prepare_branch
prepare_branch-cases c branch = prepared-cases c.default_branch_sha (c.branch_exists branch)

-- A composer that returns early pushes nothing and returns that. Nothing is pushed either, with the
-- error for it, if the tip of the default branch or the branch cannot be read, or if the branch
-- exists. Otherwise it creates the branch at the tip,
-- commits all the files to it at once and asks for a pull request, in this order and each once,
-- up to the first error; it returns a new pull request only if all three were done.
pub push-Ran : (c : Client) (e : Early Proposal) → Ran c e (push c e)
unfolding push
push-Ran c (leave o) = refl
push-Ran c (go_on p) = elim (prepare_branch-cases c p.branch) [
  | inl (o, e, why) ↦ inl (o, why, rw e refl)
  | inr (sha, e, tip, free) ↦ inr (sha, tip, free, rw e (push_from-Pushed c p sha))
]
