-- ===== src/Hub/Views.antt =====
-- The skills of a parsed catalog: pkg/hubregistry/types.go.
use forge_development_hub_cl.Base.{
  ℕ, ◌≡◌, ◌∙◌, ap, refl, Option, none, some, List, [], ◌∷◌, map, Text, text_eq, find, arith,
}
use mathlib.Core.Option
use forge_development_hub_cl.Kinds.{kind_skill}
use forge_development_hub_cl.Hub.{
  ComponentEntry, SkillEntry, Registry, Decoder, registry, component_by_name, is_component,
  skill_by_name, to_skill, from_legacy, skills_view, populate_skills_view, normalise_v1, parse,
  parse_version, parsed_legacy,
}

-- The skills of the registry are those of its components.
abbrev pub IsView : Registry → Type 0
IsView r = r.skills ≡ skills_view r.components

find-skills_view :
    (name : Text) (cs : List ComponentEntry)
    → find (λ (s : SkillEntry). text_eq s.name name) (skills_view cs)
      ≡ Option.map to_skill (find (is_component name kind_skill) cs)
unfolding skills_view
find-skills_view name [] = refl
find-skills_view name (c ∷ cs) = ground (arith, find-skills_view name cs)

skills_view-from_legacy : (legacy : List SkillEntry) → skills_view (map from_legacy legacy) ≡ legacy
unfolding skills_view text_eq
skills_view-from_legacy [] = refl
skills_view-from_legacy (s ∷ ss) = ap (◌∷◌ s) (skills_view-from_legacy ss)

parse-IsView : (d : Decoder) (raw : Text) (r : Registry) → parse d raw ≡ registry r → IsView r
unfolding parse populate_skills_view normalise_v1
parse-IsView d raw r h = go (d.header raw) h
  where
    go : (v : Option ℕ) → parse_version d raw v ≡ registry r → IsView r
    go none e = absurd (cc)
    go (some v) e = ground (arith)

-- In a registry that was parsed, from either shape, looking a skill up in the view is looking
-- the component of kind skill up in the catalog.
pub skill_by_name-parse :
    (d : Decoder) (raw : Text) (r : Registry) (name : Text)
    → parse d raw ≡ registry r
    → skill_by_name r name ≡ Option.map to_skill (component_by_name r name kind_skill)
unfolding skill_by_name component_by_name
skill_by_name-parse d raw r name h =
    ap (find (λ (s : SkillEntry). text_eq s.name name)) (parse-IsView d raw r h)
    ∙ find-skills_view name r.components

-- A text whose header has schema version 1, and which the decoder of the legacy shape reads, is
-- parsed to a registry of schema version 1 whose skills are the legacy entries, in their order
-- and with all their fields.
pub parse-legacy :
    (d : Decoder) (raw : Text) (legacy : List SkillEntry)
    → d.header raw ≡ some 1
    → d.legacy raw ≡ some legacy
    → (r : Registry) × (parse d raw ≡ registry r) × (r.skills ≡ legacy) × (r.schema_version ≡ 1)
unfolding parse normalise_v1
parse-legacy d raw legacy h l = (
  normalise_v1 legacy,
  ap (parse_version d raw) h ∙ ap parsed_legacy l,
  unfold populate_skills_view in skills_view-from_legacy legacy,
  unfold populate_skills_view in refl,
)
