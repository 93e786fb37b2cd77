-- ===== src/Tests/Refresh.antt =====
-- Planning and applying an update of two installs.
use forge_development_hub_cl.Base.{
  ◌&&◌, true, false, not, ◌≡◌, refl, some, List, [], ◌∷◌, codes, filter, contains, is_empty,
  if◌then◌else◌,
}
use forge_development_hub_cl.Kinds.{kind_skill}
use forge_development_hub_cl.Hub.{ComponentEntry, Registry}
use forge_development_hub_cl.Update.{
  Installed, FileInfo, World, Verb, PlanAction, plan_updates, diff_files, file_hash, selected,
  no_files,
}
use forge_development_hub_cl.Update.Files.{has_file, differ, diff_files-contains}
use mathlib.Core.List.{Permᴰ}
use forge_development_hub_cl.Update.Plan.{ActionsOf, plan_updates-IsPlanned}
use forge_development_hub_cl.Update.Apply.{Installers}

abbrev review : ComponentEntry
review = record {
  name = codes "review";
  kind = kind_skill;
  path = codes "skills/review";
  owner_team = [];
  description = [];
  is_default = false;
  min_fdh_version = [];
  agents_supported = codes "codex" ∷ [];
  version = codes "2.0.0";
  tags = [];
}

abbrev catalog : Registry
catalog = record {
  schema_version = 2;
  hub_version = [];
  generated_at = 0;
  components = review ∷ [];
  skills = [];
  local_path = codes "/cache";
  hub_commit = codes "new";
}

abbrev ours : List FileInfo
ours =
    record { rel = codes "SKILL.md"; hash = codes "1" }
    ∷ record { rel = codes "old.md"; hash = codes "2" }
    ∷ []

abbrev theirs : List FileInfo
theirs = record { rel = codes "SKILL.md"; hash = codes "3" } ∷ []

abbrev world : World
world = record {
  content_hash = λ d. some (codes "h");
  list_files = λ d. if is_empty d then some theirs else some ours;
  clone = record { extend = λ p. true; present = λ p. some [] };
}

abbrev clean : Installed
clean = record {
  skill = codes "review";
  agent = codes "codex";
  install_dir = codes "/p";
  marker_commit = codes "old";
  marker_hash = codes "h";
}

abbrev edited : Installed
edited = record clean { agent = codes "copilot"; marker_hash = codes "g" }

abbrev planned : List PlanAction
planned =
    record {
      skill = codes "review";
      agent = codes "codex";
      installed_hub_commit = codes "old";
      current_hub_commit = codes "new";
      verb = Verb.refresh;
      files = record {
        added = [];
        modified = codes "SKILL.md" ∷ [];
        deleted = codes "old.md" ∷ [];
      };
    }
    ∷ record {
      skill = codes "review";
      agent = codes "copilot";
      installed_hub_commit = codes "old";
      current_hub_commit = codes "new";
      verb = Verb.drift;
      files = no_files;
    }
    ∷ []

plan_run : plan_updates world catalog [] [] false (edited ∷ clean ∷ []) ≡ some planned
unfolding plan_updates
plan_run = refl

plan_updates-IsPlanned_example :
    (actions : List PlanAction) × Permᴰ planned actions
    × ActionsOf world catalog false (filter (selected [] []) (edited ∷ clean ∷ [])) actions
plan_updates-IsPlanned_example =
    plan_updates-IsPlanned world catalog [] [] false (edited ∷ clean ∷ []) planned plan_run

diff_files-contains_example :
    (contains (diff_files ours theirs).added (codes "old.md")
      ≡ (has_file theirs (codes "old.md") && not (has_file ours (codes "old.md"))))
    × (contains (diff_files ours theirs).deleted (codes "old.md")
        ≡ (has_file ours (codes "old.md") && not (has_file theirs (codes "old.md"))))
    × (contains (diff_files ours theirs).modified (codes "old.md")
        ≡ differ (file_hash ours (codes "old.md")) (file_hash theirs (codes "old.md")))
unfolding file_hash
diff_files-contains_example = diff_files-contains ours theirs (codes "old.md") (refl, tt)

-- Every agent has an installer.
abbrev installers : Installers
installers = record { adapter = λ a. some (λ dir entry. some entry.version); scope_resolved = true }
