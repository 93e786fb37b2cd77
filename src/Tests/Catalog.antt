-- ===== src/Tests/Catalog.antt =====
-- A catalog of the legacy shape, and the validation of it.
use forge_development_hub_cl.Base.{true, false, ◌≡◌, ◌↔◌, refl, none, some, [], ◌∷◌, codes}
use forge_development_hub_cl.Hub.{SkillEntry, Decoder, normalise_v1}
use forge_development_hub_cl.Hub.Validate.{HubRoot, validate}
use forge_development_hub_cl.Hub.Valid.{IsValidCatalog}
use forge_development_hub_cl.Hub.Verdict.{validate-IsValidCatalog}

abbrev review : SkillEntry
review = record {
  name = codes "review";
  path = codes "skills/review";
  is_default = true;
  agents_supported = codes "claude-code" ∷ [];
  description = [];
  version = codes "0.1.0";
  min_fdh_version = [];
  tags = [];
}

-- A decoder for the one text.
abbrev decoder : Decoder
decoder = record { header = λ t. some 1; native = λ t. none; legacy = λ t. some (review ∷ []) }

-- The hub has the directory of the skill and one that is not registered.
abbrev disk : HubRoot
disk = record {
  stat = λ p. some true;
  read_dir =
      λ d. some ((codes "review", true) ∷ (codes "stray", true) ∷ (codes "README.md", false) ∷ []);
}

validate-IsValidCatalog_example :
    (validate (normalise_v1 (review ∷ [])) (some disk) ≡ [])
    ↔ IsValidCatalog (some disk) (normalise_v1 (review ∷ []))
validate-IsValidCatalog_example = validate-IsValidCatalog (normalise_v1 (review ∷ [])) (some disk)

-- With no disk to look at, the catalog is valid.
valid : validate (normalise_v1 (review ∷ [])) none ≡ []
unfolding validate normalise_v1
valid = refl
