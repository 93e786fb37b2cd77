-- ===== src/Manifest/Valid.antt =====
-- What a manifest must be for `Validate` to return no error.
use forge_development_hub_cl.Base.{
  true, false, ◌≡◌, ◌↔◌, ◌⊎◌, ◌∙◌, refl, sym, Option, none, some, List, [], ◌∷◌, Text, codes,
  text_eq_iff, is_empty, arith, All,
}
use forge_development_hub_cl.Hub.Paths.{is_kebab}
use forge_development_hub_cl.Semver.{Constraint, parse_constraint}
use forge_development_hub_cl.Manifest.{
  Entry, Extends, Manifest, Block, Invalid, validate_entry, validate_entries, extends_errors,
  validate, scope_ok, ◌then_check◌, skills_block, rules_block, agents_block, hooks_block,
  extends_block,
}

-- An entry with a kebab-case name and a version constraint that parses.
abbrev pub EntryOk : Entry → Type 0
EntryOk e =
    (is_empty e.name ≡ false)
    × (is_kebab e.name ≡ true)
    × (c : Constraint) × (parse_constraint e.version ≡ some c)

abbrev pub ExtendsOk : Option Extends → Type 0
ExtendsOk none = Unit
ExtendsOk (some x) =
    All EntryOk x.add_skills
    × All EntryOk x.remove_skills
    × All EntryOk x.add_rules
    × All EntryOk x.remove_rules
    × All EntryOk x.add_agents
    × All EntryOk x.remove_agents
    × All EntryOk x.add_hooks
    × All EntryOk x.remove_hooks

pub record IsValidManifest (m : Manifest) : Type 0 where
  pub schema : m.schema_version ≡ 1
  pub scope : (m.scope ≡ []) ⊎ ((m.scope ≡ codes "project") ⊎ (m.scope ≡ codes "user"))
  pub skills : All EntryOk m.skills
  pub rules : All EntryOk m.rules
  pub agents : All EntryOk m.agents
  pub hooks : All EntryOk m.hooks
  pub extends : ExtendsOk m.extends

validate_entry-none : (b : Block) (e : Entry) → (validate_entry b e ≡ none) ↔ EntryOk e
unfolding validate_entry
validate_entry-none b e = go (parse_constraint e.version) refl
  where
    go :
        (p : Option Constraint)
        → parse_constraint e.version ≡ p
        → (validate_entry b e ≡ none) ↔ EntryOk e
    go none h = (λ v. absurd (ground arith), λ (x, y, c, p). absurd (ground arith))
    go (some c) h = (λ v. (ground arith, ground arith, c, h), λ (x, y, d, p). ground arith)

validate_entries-none :
    (b : Block) (es : List Entry) → (validate_entries b es ≡ none) ↔ All EntryOk es
unfolding validate_entries
validate_entries-none b [] = (λ h. tt, λ h. refl)
validate_entries-none b (e ∷ es) =
    let one = validate_entry-none b e in
    let rest = validate_entries-none b es in
    (λ h. (one.0 (ground arith), rest.0 (ground arith)), λ h. ground (arith, one.1 h.0, rest.1 h.1))

then_check-none : (a b : Option Invalid) → ((a then_check b) ≡ none) ↔ ((a ≡ none) × (b ≡ none))
then_check-none none b = ground arith
then_check-none (some e) b = ground arith

-- Two blocks, one after the other.
and_then :
    {P Q : Type 0} (a b : Option Invalid)
    → ((a ≡ none) ↔ P)
    → ((b ≡ none) ↔ Q)
    → ((a then_check b) ≡ none) ↔ (P × Q)
and_then a b p q = (
  λ h. let (x, y) = (then_check-none a b).0 h in (p.0 x, q.0 y),
  λ (x, y). (then_check-none a b).1 (p.1 x, q.1 y),
)

-- The lists of entries of one block, one after the other.
chain : Block → List (List Entry) → Option Invalid
chain b [] = none
chain b (es ∷ ess) = validate_entries b es then_check chain b ess

chain-none : (b : Block) (ess : List (List Entry)) → (chain b ess ≡ none) ↔ All (All EntryOk) ess
unfolding chain
chain-none b [] = (λ h. tt, λ h. refl)
chain-none b (es ∷ ess) =
    and_then (validate_entries b es) (chain b ess) (validate_entries-none b es) (chain-none b ess)

then_check_none_right : (a : Option Invalid) → (a then_check none) ≡ a
then_check_none_right none = refl
then_check_none_right (some e) = refl

extends_errors-none : (x : Option Extends) → (extends_errors x ≡ none) ↔ ExtendsOk x
unfolding chain
extends_errors-none none = (λ h. tt, λ h. refl)
extends_errors-none (some x) = (
  λ h.
      let (a, (b, (c, (d, (e, (f, (g, (i, u)))))))) = all.0 (chained ∙ h) in
      (a, b, c, d, e, f, g, i),
  λ (a, b, c, d, e, f, g, i). sym chained ∙ all.1 (a, (b, (c, (d, (e, (f, (g, (i, tt)))))))),
)
  where
    lists : List (List Entry)
    lists =
        x.add_skills ∷ x.remove_skills ∷ x.add_rules ∷ x.remove_rules ∷ x.add_agents
        ∷ x.remove_agents ∷ x.add_hooks ∷ x.remove_hooks ∷ []

    all : (chain extends_block lists ≡ none) ↔ All (All EntryOk) lists
    all = chain-none extends_block lists

    chained : chain extends_block lists ≡ extends_errors (some x)
    chained = rw then_check_none_right

scope_iff :
    (s : Text) → (scope_ok s ≡ true) ↔ ((s ≡ []) ⊎ ((s ≡ codes "project") ⊎ (s ≡ codes "user")))
scope_iff [] = ground arith
scope_iff (c ∷ cs) =
    ground (arith, text_eq_iff (c ∷ cs) (codes "project"), text_eq_iff (c ∷ cs) (codes "user"))

-- A manifest has no error exactly if its schema version is 1, its scope is empty, `project` or
-- `user`, and every entry, those of the extension included, has a kebab-case name and a version
-- constraint that parses.
pub validate-IsValidManifest : (m : Manifest) → (validate m ≡ none) ↔ IsValidManifest m
unfolding validate
validate-IsValidManifest m = (
  λ h.
      let (s, (r, (a, (k, x)))) = blocks.0 (ground arith) in
      record {
        schema = ground arith;
        scope = scope.0 (ground arith);
        skills = s;
        rules = r;
        agents = a;
        hooks = k;
        extends = x;
      },
  λ v. ground (
    arith,
    v.schema,
    scope.1 v.scope,
    blocks.1 (v.skills, (v.rules, (v.agents, (v.hooks, v.extends)))),
  ),
)
  where
    scope :
        (scope_ok m.scope ≡ true)
        ↔ ((m.scope ≡ []) ⊎ ((m.scope ≡ codes "project") ⊎ (m.scope ≡ codes "user")))
    scope = scope_iff m.scope

    blocks :
        ((validate_entries skills_block m.skills
            then_check validate_entries rules_block m.rules
            then_check validate_entries agents_block m.agents
            then_check validate_entries hooks_block m.hooks
            then_check extends_errors m.extends)
          ≡ none)
        ↔ (All EntryOk m.skills
            × (All EntryOk m.rules
                × (All EntryOk m.agents × (All EntryOk m.hooks × ExtendsOk m.extends))))
    blocks = and_then _ _ (validate_entries-none skills_block m.skills) (
        and_then _ _ (validate_entries-none rules_block m.rules) (
          and_then _ _ (validate_entries-none agents_block m.agents) (
            and_then _ _ (validate_entries-none hooks_block m.hooks)
              (extends_errors-none m.extends))))
