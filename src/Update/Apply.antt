-- ===== src/Update/Apply.antt =====
-- Applying a plan: the loop of `runUpdate` and `applyUpdate`, internal/cli/update_run.go.
use forge_development_hub_cl.Base.{
  ◌+◌, Bool, true, false, ◌≡◌, refl, Option, none, some, List, [], ◌∷◌, Text, arith, length, filter,
  if◌then◌else◌, not,
}
use forge_development_hub_cl.Kinds.{kind_skill}
use forge_development_hub_cl.Hub.{
  Registry, ComponentEntry, component_by_name, Fetched, fetched, fetch_failed, fetch_component,
}
use forge_development_hub_cl.Update.{World, Verb, PlanAction}

-- What the installer of an agent makes of a source directory and a catalog entry: the new content
-- hash. `none` is an error, of the look-up or of the install.
pub record Installers : Type 0 where
  pub adapter : Text → Option (Text → ComponentEntry → Option Text)
  pub scope_resolved : Bool

abbrev installed_from :
    Installers → ComponentEntry → (Text → ComponentEntry → Option Text) → Fetched → Option Text
installed_from ins entry install (fetch_failed e) = none
installed_from ins entry install (fetched dir) =
    if not ins.scope_resolved then none else install dir entry

abbrev with_adapter :
    World
    → Registry
    → Installers
    → Text
    → ComponentEntry
    → Option (Text → ComponentEntry → Option Text)
    → Option Text
with_adapter w reg ins skill entry none = none
with_adapter w reg ins skill entry (some install) =
    installed_from ins entry install (fetch_component w.clone reg skill kind_skill)

abbrev apply_entry :
    World → Registry → Installers → Text → Text → Option ComponentEntry → Option Text
apply_entry w reg ins skill agent none = none
apply_entry w reg ins skill agent (some entry) =
    with_adapter w reg ins skill entry (ins.adapter agent)

-- `applyUpdate`; `none` is an error.
unfoldable pub apply_update : World → Registry → Installers → Text → Text → Option Text
unfolding component_by_name fetch_component
apply_update w reg ins skill agent =
    apply_entry w reg ins skill agent (component_by_name reg skill kind_skill)

pub record UpdateOutcome : Type 0 where
  pub skill : Text
  pub agent : Text
  pub verb : Verb
  pub content_hash : Text

pub record UpdateFailure : Type 0 where
  pub skill : Text
  pub agent : Text

pub record UpdateResult : Type 0 where
  pub applied : List UpdateOutcome
  pub skipped : List UpdateOutcome
  pub failed : List UpdateFailure

abbrev pub skip : PlanAction → UpdateResult → UpdateResult
skip a r = record r {
  skipped =
      record { skill = a.skill; agent = a.agent; verb = a.verb; content_hash = [] } ∷ r.skipped;
}

abbrev pub settle : PlanAction → Option Text → UpdateResult → UpdateResult
settle a none r = record r { failed = record { skill = a.skill; agent = a.agent } ∷ r.failed }
settle a (some hash) r = record r {
  applied =
      record { skill = a.skill; agent = a.agent; verb = a.verb; content_hash = hash } ∷ r.applied;
}

-- The case of the `switch` on the verb, with what installing would give.
abbrev pub apply_action : PlanAction → Verb → Option Text → UpdateResult → UpdateResult
apply_action a Verb.refresh o r = settle a o r
apply_action a _ o r = skip a r

-- The loop over the plan.
unfoldable pub apply_plan : World → Registry → Installers → List PlanAction → UpdateResult
unfolding apply_update
apply_plan w reg ins [] = record { applied = []; skipped = []; failed = [] }
apply_plan w reg ins (a ∷ plan) =
    apply_action a a.verb (apply_update w reg ins a.skill a.agent) (apply_plan w reg ins plan)

abbrev pub is_refresh : PlanAction → Bool
is_refresh a = elim a.verb [ Verb.refresh ↦ true | _ ↦ false ]

-- Every refresh of the plan is reported as applied or as failed, and every other action as
-- skipped, each once.
pub apply_plan-length :
    (w : World) (reg : Registry) (ins : Installers) (plan : List PlanAction)
    → (length (apply_plan w reg ins plan).applied + length (apply_plan w reg ins plan).failed
        ≡ length (filter is_refresh plan))
      × (length (apply_plan w reg ins plan).skipped
          ≡ length (filter (λ a. not (is_refresh a)) plan))
unfolding apply_plan
apply_plan-length w reg ins [] = (refl, refl)
apply_plan-length w reg ins (a ∷ plan) =
    step a.verb refl (apply_update w reg ins a.skill a.agent) (apply_plan-length w reg ins plan)
  where
    Counted : List PlanAction → UpdateResult → Type 0
    Counted p r =
        (length r.applied + length r.failed ≡ length (filter is_refresh p))
        × (length r.skipped ≡ length (filter (λ a. not (is_refresh a)) p))

    step :
        (v : Verb)
        → a.verb ≡ v
        → (o : Option Text) → Counted plan (apply_plan w reg ins plan)
        → Counted (a ∷ plan) (apply_action a v o (apply_plan w reg ins plan))
    step Verb.refresh e none (n, m) = (ground arith, ground arith)
    step Verb.refresh e (some h) (n, m) = (ground arith, ground arith)
    step Verb.up_to_date e o (n, m) = (ground arith, ground arith)
    step Verb.drift e o (n, m) = (ground arith, ground arith)
    step Verb.vanished e o (n, m) = (ground arith, ground arith)
