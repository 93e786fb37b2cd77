-- ===== src/Telemetry/Session.antt =====
-- The telemetry of a command and the commands about telemetry: internal/cli/telemetry.go and
-- telemetry_cmd.go. The state of the machine is the configuration key and the state file; each
-- command is a process of its own, with a new Manager.
pub mod Private
pub mod Reach
use forge_development_hub_cl.Base.{
  ℕ, Bool, true, false, not, ◌&&◌, ◌||◌, Option, none, some, List, [], ◌∷◌, ◌++◌, Text, codes,
  is_empty, if◌then◌else◌, any,
}
use forge_development_hub_cl.Base.Bytes.{trim_space}
use forge_development_hub_cl.Telemetry.{
  is_default, Source, Decision, by_default, State, Manager, Call, new_manager, resolve, install_id,
  rotate, set_enabled_consent, resolve_with_consent, maybe_prompt,
}
use forge_development_hub_cl.Telemetry.Emitter.{Event, Emitter, new_emitter, enqueue, flush_once}

-- `endpoint` is the configured one, `expired` the time box of the flush.
pub record Machine : Type 0 where
  pub dir : Text
  pub config_enabled : Text
  pub endpoint : Text
  pub file : Option Text

abbrev ci_variables : List Text
ci_variables =
    codes "CI"
    ∷ codes "GITHUB_ACTIONS"
    ∷ codes "GITLAB_CI"
    ∷ codes "BUILDKITE"
    ∷ codes "CIRCLECI"
    ∷ codes "JENKINS_URL"
    ∷ codes "TF_BUILD"
    ∷ []

unfoldable pub telemetry_non_interactive : Call → Bool
telemetry_non_interactive c = not c.tty || any (λ v. not (is_empty (c.getenv v))) ci_variables

abbrev default_endpoint : Text
default_endpoint = codes "https://hub.forge.dev/api/v1/telemetry"

unfoldable pub endpoint_of : Text → Text
unfolding trim_space
endpoint_of configured =
    let endpoint = trim_space configured in if is_empty endpoint then default_endpoint else endpoint

pub record Session : Type 0 where
  pub mgr : Manager
  pub emitter : Emitter
  pub enabled : Bool

-- What a command asks to be emitted: the event but for the id.
pub data Command : Type 0 where
  status rotate_id claim : Command
  set_enabled : Bool → Command
  work : List Event → Command

-- What a command does: the machine afterwards, what it posted, the id that it printed, and whether
-- it failed.
pub record Effect : Type 0 where
  pub machine : Machine
  pub posted : List Event
  pub printed : Option Text
  pub failed : Bool

abbrev pub left_by : Machine → Manager → Machine
left_by w m = record w { file = m.file }

module _ (encode : State → Text) (decode : Text → Option State) (digest : Text → Text) where
  abbrev pub manager_of : Machine → Manager
  manager_of w = new_manager w.dir w.file

  unfoldable pub new_session : Call → Machine → Session
  unfolding resolve trim_space maybe_prompt telemetry_non_interactive resolve_with_consent
  new_session c w =
      let configured = trim_space w.config_enabled in
      let decided = not (is_default (resolve configured c.getenv).source) in
      let (prompted, answer, shown) =
        maybe_prompt encode decode digest c c.tty decided (manager_of w) in
      let m = if not decided && not (telemetry_non_interactive c) then prompted else manager_of w in
      let (mgr, d) = resolve_with_consent encode decode digest configured c.getenv m in
      record {
        mgr = mgr;
        emitter = new_emitter (endpoint_of w.endpoint) d.enabled;
        enabled = d.enabled;
      }

  abbrev with_id : Session → Event → Manager × Option Text → Session
  with_id s ev (m, none) = record s { mgr = m }
  with_id s ev (m, some id) = record s {
    mgr = m;
    emitter = enqueue (record ev { install_id = id }) s.emitter;
  }

  unfoldable pub emit : Call → Event → Session → Session
  unfolding install_id enqueue
  emit c ev s =
      let identified = with_id s ev (install_id encode decode digest c s.mgr) in
      if not s.enabled then s else identified

  unfoldable pub emit_all : Call → List Event → Session → Session
  unfolding emit
  emit_all c [] s = s
  emit_all c (ev ∷ evs) s = emit_all c evs (emit c ev s)

  unfoldable pub flush : (ℕ → Bool) → Session → List Event
  unfolding flush_once
  flush expired s = if not s.enabled then [] else (flush_once expired s.emitter).1

  abbrev pub run_status : Call → Machine → Effect
  unfolding resolve_with_consent install_id trim_space
  run_status c w =
      let (m, d) =
        resolve_with_consent encode decode digest (trim_space w.config_enabled) c.getenv
          (manager_of w) in
      let (r, id) = install_id encode decode digest c m in
      if d.enabled
      then record { machine = left_by w r; posted = []; printed = id; failed = false }
      else record { machine = left_by w m; posted = []; printed = none; failed = false }

  abbrev is_none : Option Text → Bool
  is_none none = true
  is_none (some x) = false

  abbrev pub run_claim : Call → Machine → Effect
  unfolding resolve_with_consent install_id trim_space
  run_claim c w =
      let (m, d) =
        resolve_with_consent encode decode digest (trim_space w.config_enabled) c.getenv
          (manager_of w) in
      let (r, id) = install_id encode decode digest c m in
      if not d.enabled
      then record { machine = left_by w m; posted = []; printed = none; failed = true }
      else record { machine = left_by w r; posted = []; printed = id; failed = is_none id }

  abbrev pub run_rotate : Call → Machine → Effect
  unfolding rotate
  run_rotate c w =
      let (m, ok) = rotate encode decode digest c (manager_of w) in
      record { machine = left_by w m; posted = []; printed = none; failed = not ok }

  abbrev pub bool_text : Bool → Text
  bool_text true = codes "true"
  bool_text false = codes "false"

  -- The configuration file keeps what it had when it cannot be written.
  abbrev pub run_set : Call → Bool → Machine → Effect
  unfolding set_enabled_consent
  run_set c on w =
      let (m, ok) = set_enabled_consent encode decode digest c on (manager_of w) in
      if not c.config_ok
      then record { machine = w; posted = []; printed = none; failed = true }
      else record {
        machine = record (left_by w m) { config_enabled = bool_text on };
        posted = [];
        printed = none;
        failed = false;
      }

  -- A command that emits: it opens a session, emits its events and flushes.
  abbrev pub run_work : Call → (ℕ → Bool) → List Event → Machine → Effect
  unfolding new_session emit_all flush
  run_work c expired evs w =
      let s = emit_all c evs (new_session c w) in
      record { machine = left_by w s.mgr; posted = flush expired s; printed = none; failed = false }

  unfoldable pub run : Call → (ℕ → Bool) → Command → Machine → Effect
  run c expired status w = run_status c w
  run c expired rotate_id w = run_rotate c w
  run c expired claim w = run_claim c w
  run c expired (set_enabled on) w = run_set c on w
  run c expired (work evs) w = run_work c expired evs w
