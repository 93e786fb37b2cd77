-- ===== src/Update/Plan.antt =====
-- The actions of a plan and when each is planned: internal/cli/update_plan.go.
use forge_development_hub_cl.Base.{
  Bool, true, false, not, ◌&&◌, ◌≡◌, ◌∙◌, ◌⊎◌, inl, inr, ap, refl, Option, none, some, List, [],
  ◌∷◌, Text, text_eq, text_eq_iff, arith, filter, Bool-cases,
}
use forge_development_hub_cl.Base.Sort.{sort, Perm-sort}
use mathlib.Core.List.{Permᴰ}
use forge_development_hub_cl.Kinds.{kind_skill}
use forge_development_hub_cl.Hub.{
  Registry, ComponentEntry, component_by_name, Fetched, fetched, fetch_failed, fetch_component,
}
use forge_development_hub_cl.Update.{
  Installed, FileDiff, World, Verb, PlanAction, action, refreshed, drifted, at_hub_commit,
  decide_entry, decide, selected, also, decide_all, by_skill_agent, plan_updates, compute_file_diff,
  no_files,
}

-- The content has a hash, which is not that of the marker.
abbrev pub IsEdited : World → Installed → Type 0
IsEdited w i =
    (h : Text) × (w.content_hash i.install_dir ≡ some h) × (text_eq h i.marker_hash ≡ false)

-- The content has the marker's hash, or it cannot be hashed, or overwriting is forced.
abbrev pub MayOverwrite : World → Bool → Installed → Type 0
MayOverwrite w force i =
    (w.content_hash i.install_dir ≡ some i.marker_hash)
    ⊎ ((w.content_hash i.install_dir ≡ none) ⊎ (force ≡ true))

-- When an install gets the verb.
abbrev pub Allowed : World → Registry → Bool → Installed → Verb → Type 0
Allowed w reg force i Verb.vanished = component_by_name reg i.skill kind_skill ≡ none
Allowed w reg force i Verb.drift = IsEdited w i × (force ≡ false)
Allowed w reg force i Verb.up_to_date = (at_hub_commit reg i ≡ true) × MayOverwrite w force i
Allowed w reg force i Verb.refresh =
    (at_hub_commit reg i ≡ false)
    × MayOverwrite w force i
    × ((entry : ComponentEntry) × (component_by_name reg i.skill kind_skill ≡ some entry))

-- The files of an action: for a refresh, how the fetched component differs from the install.
abbrev pub FilesOf : World → Registry → Installed → Verb → FileDiff → Type 0
FilesOf w reg i Verb.refresh d =
    (dir : Text) × (fetch_component w.clone reg i.skill kind_skill ≡ fetched dir)
    × (compute_file_diff w i.install_dir dir ≡ some d)
FilesOf w reg i Verb.vanished d = d ≡ no_files
FilesOf w reg i Verb.drift d = d ≡ no_files
FilesOf w reg i Verb.up_to_date d = d ≡ no_files

-- The action is that of the install.
pub record ActionOf (w : World) (reg : Registry) (force : Bool) (i : Installed) (a : PlanAction)
    : Type 0 where
  pub skill : a.skill ≡ i.skill
  pub agent : a.agent ≡ i.agent
  pub before : a.installed_hub_commit ≡ i.marker_commit
  pub behind : a.current_hub_commit ≡ reg.hub_commit
  pub allowed : Allowed w reg force i a.verb
  pub files : FilesOf w reg i a.verb a.files

-- One action for each install, in their order.
abbrev pub ActionsOf : World → Registry → Bool → List Installed → List PlanAction → Type 0
ActionsOf w reg force [] [] = Unit
ActionsOf w reg force [] (a ∷ as_) = ⊥
ActionsOf w reg force (i ∷ is') [] = ⊥
ActionsOf w reg force (i ∷ is') (a ∷ as_) = ActionOf w reg force i a × ActionsOf w reg force is' as_

drifted-IsEdited :
    (w : World) (force : Bool) (i : Installed)
    → (drifted (w.content_hash i.install_dir) i.marker_hash && not force) ≡ true
    → IsEdited w i × (force ≡ false)
drifted-IsEdited w force i h = go (w.content_hash i.install_dir) refl h
  where
    go :
        (o : Option Text)
        → w.content_hash i.install_dir ≡ o
        → (drifted o i.marker_hash && not force) ≡ true
        → IsEdited w i × (force ≡ false)
    go none e d = absurd (ground arith)
    go (some t) e d = ((t, e, ground arith), ground arith)

may_overwrite :
    (w : World) (force : Bool) (i : Installed)
    → (drifted (w.content_hash i.install_dir) i.marker_hash && not force) ≡ false
    → MayOverwrite w force i
may_overwrite w force i h = go (w.content_hash i.install_dir) refl h
  where
    go :
        (o : Option Text)
        → w.content_hash i.install_dir ≡ o
        → (drifted o i.marker_hash && not force) ≡ false
        → MayOverwrite w force i
    go none e d = inr (inl e)
    go (some t) e d = elim (Bool-cases (text_eq t i.marker_hash)) [
      | inl same ↦ inl (e ∙ ap some ((text_eq_iff t i.marker_hash).0 same))
      | inr differs ↦ inr (inr (ground arith))
    ]

refreshed-ActionOf :
    (w : World) (reg : Registry) (force : Bool) (i : Installed) (f : Fetched) (a : PlanAction)
    → Allowed w reg force i Verb.refresh
    → fetch_component w.clone reg i.skill kind_skill ≡ f
    → refreshed w reg i f ≡ some a
    → ActionOf w reg force i a
refreshed-ActionOf w reg force i (fetch_failed e) a k q h = absurd (ground arith)
refreshed-ActionOf w reg force i (fetched dir) a k q h =
    go (compute_file_diff w i.install_dir dir) refl h
  where
    go :
        (o : Option FileDiff)
        → compute_file_diff w i.install_dir dir ≡ o
        → elim o as (λ x. Option PlanAction) [
          | none ↦ none
          | some d ↦ some (action reg i Verb.refresh d)
        ]
          ≡ some a
        → ActionOf w reg force i a
    go none c e = absurd (ground arith)
    go (some d) c e =
        let p : a ≡ action reg i Verb.refresh d = ground arith in
        rw p (record {
          skill = refl;
          agent = refl;
          before = refl;
          behind = refl;
          allowed = k;
          files = (dir, q, c);
        })

decide_entry-ActionOf :
    (w : World) (reg : Registry) (force : Bool) (i : Installed) (o : Option ComponentEntry)
    (a : PlanAction)
    → component_by_name reg i.skill kind_skill ≡ o
    → decide_entry w reg force i o ≡ some a
    → ActionOf w reg force i a
decide_entry-ActionOf w reg force i none a e h =
    let q : a ≡ action reg i Verb.vanished no_files = ground arith in
    rw q (record {
      skill = refl;
      agent = refl;
      before = refl;
      behind = refl;
      allowed = e;
      files = refl;
    })
decide_entry-ActionOf w reg force i (some entry) a e h =
    elim (Bool-cases (drifted (w.content_hash i.install_dir) i.marker_hash && not force)) [
      | inl d ↦
          let q : a ≡ action reg i Verb.drift no_files = ground arith in
          rw q (record {
            skill = refl;
            agent = refl;
            before = refl;
            behind = refl;
            allowed = drifted-IsEdited w force i d;
            files = refl;
          })
      | inr d ↦ elim (Bool-cases (at_hub_commit reg i)) [
        | inl c ↦
            let q : a ≡ action reg i Verb.up_to_date no_files = ground arith in
            rw q (record {
              skill = refl;
              agent = refl;
              before = refl;
              behind = refl;
              allowed = (c, may_overwrite w force i d);
              files = refl;
            })
        | inr c ↦
            refreshed-ActionOf w reg force i (fetch_component w.clone reg i.skill kind_skill) a
              (c, may_overwrite w force i d, (entry, e)) refl (ground arith)
      ]
    ]

decide-ActionOf :
    (w : World) (reg : Registry) (force : Bool) (i : Installed) (a : PlanAction)
    → decide w reg force i ≡ some a
    → ActionOf w reg force i a
unfolding decide
decide-ActionOf w reg force i a h =
    decide_entry-ActionOf w reg force i (component_by_name reg i.skill kind_skill) a refl h

module _ (w : World) (reg : Registry) (skills agents : List Text) (force : Bool) where
  also-cases :
      (o : Option PlanAction) (r : Option (List PlanAction)) (plan : List PlanAction)
      → also o r ≡ some plan
      → (a : PlanAction) × (rest : List PlanAction) × (o ≡ some a)
        × (r ≡ some rest)
        × (plan ≡ a ∷ rest)
  also-cases none r plan h = absurd (ground arith)
  also-cases (some a) none plan h = absurd (ground arith)
  also-cases (some a) (some rest) plan h = (a, rest, refl, refl, ground arith)

  chosen : List Installed → List Installed
  chosen installed = filter (selected skills agents) installed

  decide_all-ActionsOf :
      (installed : List Installed) (plan : List PlanAction)
      → decide_all w reg skills agents force installed ≡ some plan
      → ActionsOf w reg force (chosen installed) plan
  unfolding decide_all chosen
  decide_all-ActionsOf [] plan h = let q : plan ≡ [] = ground arith in rw q tt
  decide_all-ActionsOf (i ∷ is') plan h = elim (Bool-cases (selected skills agents i)) [
    | inr s ↦ rw s (decide_all-ActionsOf is' plan (ground arith))
    | inl s ↦
        let (a, rest, d, l, q) =
          also-cases (decide w reg force i) (decide_all w reg skills agents force is') plan
            (ground arith) in
        rw (s, q) (decide-ActionOf w reg force i a d, decide_all-ActionsOf is' rest l)
  ]

  -- A plan that is made without an error is a permutation of the actions of the selected installs,
  -- one for each. An action names the install and both commits, and lists, for a refresh, how the
  -- fetched component differs from the install, and no files otherwise; it is `vanished` only if the
  -- catalog has no such skill, `drift` only if the content has another hash than the marker and
  -- nothing is forced, and `up-to-date` or `refresh` only if the content has the marker's hash, or
  -- cannot be hashed, or overwriting is forced, according to whether the marker has the hub's
  -- commit.
  pub plan_updates-IsPlanned :
      (installed : List Installed) (plan : List PlanAction)
      → plan_updates w reg skills agents force installed ≡ some plan
      → (actions : List PlanAction) × Permᴰ plan actions
        × ActionsOf w reg force (filter (selected skills agents) installed) actions
  unfolding plan_updates chosen
  plan_updates-IsPlanned installed plan h =
      go (decide_all w reg skills agents force installed) refl h
    where
      go :
          (o : Option (List PlanAction))
          → decide_all w reg skills agents force installed ≡ o
          → elim o as (λ x. Option (List PlanAction)) [
            | none ↦ none
            | some p ↦ some (sort by_skill_agent p)
          ]
            ≡ some plan
          → (actions : List PlanAction) × Permᴰ plan actions
            × ActionsOf w reg force (filter (selected skills agents) installed) actions
      go none q e = absurd (ground arith)
      go (some p) q e =
          let s : plan ≡ sort by_skill_agent p = ground arith in
          (p, rw s (Perm-sort by_skill_agent p), decide_all-ActionsOf installed p q)
