-- ===== src/Tests/Agents.antt =====
-- The manifest of the agents with an override of one agent and a new one.
use forge_development_hub_cl.Base.{◌++◌, true, false, ◌≡◌, refl, some, List, [], ◌∷◌, Text, codes}
use forge_development_hub_cl.Base.Sort.{sort}
use forge_development_hub_cl.Base.Bytes.{text_lt}
use forge_development_hub_cl.Adapters.{
  Probe, AgentEntry, is_kebab_case, validate, agent_by_id, merge_manifests, path_required,
  duplicate_id,
}
use forge_development_hub_cl.Adapters.Paths.{
  PathSetOptions, ResolvedPath, scope_user, failed, unknown_agent, path_set,
}
use forge_development_hub_cl.Adapters.Paths.Served.{serves, reads, serves-path_set}
use forge_development_hub_cl.Adapters.Override.{agent_or, agent_by_id-merge_manifests}

abbrev on_path : Probe
on_path = record { kind = codes "exec-on-path"; path = []; name = codes "codex"; cmd = [] }

abbrev agent : Text → Text → List Text → AgentEntry
agent id display_name user = record {
  id = id;
  display_name = display_name;
  source_doc_url = [];
  verified_on = [];
  detect = on_path ∷ [];
  paths = record { user = user; project = [] };
}

abbrev skills : List Text
skills = codes "~/.agents/skills/<name>" ∷ []

abbrev builtin : List AgentEntry
builtin =
    agent (codes "codex") (codes "Codex") skills
    ∷ agent (codes "copilot") (codes "Copilot") skills
    ∷ []

abbrev my_agents : List AgentEntry
my_agents =
    agent (codes "copilot") (codes "Mine") skills
    ∷ agent (codes "new-agent") (codes "New") skills
    ∷ []

kebab_runs : is_kebab_case (codes "claude-code") ≡ true
unfolding is_kebab_case
kebab_runs = refl

double_dash : is_kebab_case (codes "a--b") ≡ false
unfolding is_kebab_case
double_dash = refl

no_path : validate (agent (codes "codex") (codes "Codex") [] ∷ []) ≡ some path_required
unfolding validate
no_path = refl

twice : validate (my_agents ++ builtin) ≡ some duplicate_id
unfolding validate
twice = refl

agent_by_id-merge_manifests_example :
    agent_by_id (merge_manifests builtin my_agents) (codes "copilot")
    ≡ agent_or (agent_by_id my_agents (codes "copilot")) (agent_by_id builtin (codes "copilot"))
unfolding validate
agent_by_id-merge_manifests_example =
    agent_by_id-merge_manifests builtin my_agents (codes "copilot") refl

abbrev for_both : PathSetOptions
for_both = record {
  skill_name = codes "lint";
  project_root = [];
  home_dir = codes "/h";
  scope = scope_user;
  agent_ids = codes "copilot" ∷ codes "codex" ∷ [];
}

abbrev one_directory : List ResolvedPath
one_directory =
    record { path = codes "/h/.agents/skills/lint"; agents = codes "codex" ∷ codes "copilot" ∷ [] }
    ∷ []

unknown : path_set [] for_both ≡ failed unknown_agent
unfolding path_set
unknown = refl

serves-path_set_example :
    serves one_directory (codes "/h/.agents/skills/lint") (codes "codex")
    ≡ reads builtin for_both for_both.agent_ids (codes "/h/.agents/skills/lint") (codes "codex")
unfolding path_set sort text_lt
serves-path_set_example =
    serves-path_set builtin for_both one_directory (codes "/h/.agents/skills/lint") (codes "codex")
      refl
