-- ===== src/Adapters/Override.antt =====
-- Looking an agent up in a manifest that an override is merged into: pkg/adapters/adapters.go.
use forge_development_hub_cl.Base.{
  true, false, ◌≡◌, refl, ap, Option, none, some, List, [], ◌∷◌, ◌++◌, Text, text_eq, text_eq_iff,
  arith, any, Bool-cases, inl, inr,
}
use forge_development_hub_cl.Adapters.{
  AgentEntry, agent_error, validate_from, validate, agent_by_id, override_by_id, entry_or, replaced,
  used_ids, unused, merge_manifests,
}

-- An entry that is found has the id that is looked up.
HasId : Text → Option AgentEntry → Type 0
HasId id none = Unit
HasId id (some a) = text_eq a.id id ≡ true

override_by_id-HasId : (as_ : List AgentEntry) (id : Text) → HasId id (override_by_id as_ id)
unfolding override_by_id HasId
override_by_id-HasId [] id = tt
override_by_id-HasId (a ∷ as_) id = ground (arith, override_by_id-HasId as_ id)

-- Nobody among the seen ids is in the list.
override_by_id-seen :
    (seen : List Text) (id : Text) (as_ : List AgentEntry)
    → any (λ s. text_eq s id) seen ≡ true
    → validate_from seen as_ ≡ none
    → override_by_id as_ id ≡ none
unfolding override_by_id validate_from agent_error
override_by_id-seen seen id [] s h = refl
override_by_id-seen seen id (a ∷ as_) s h =
    ground (arith, override_by_id-seen (a.id ∷ seen) id as_, text_eq_iff a.id id)

pub override_by_id-agent_by_id :
    (seen : List Text) (id : Text) (as_ : List AgentEntry)
    → validate_from seen as_ ≡ none
    → override_by_id as_ id ≡ agent_by_id as_ id
unfolding override_by_id validate_from agent_error agent_by_id
override_by_id-agent_by_id seen id [] h = refl
override_by_id-agent_by_id seen id (a ∷ as_) h = ground (
  arith,
  override_by_id-agent_by_id (a.id ∷ seen) id as_,
  override_by_id-seen (a.id ∷ seen) id as_,
)

abbrev pub agent_or : Option AgentEntry → Option AgentEntry → Option AgentEntry
agent_or none o = o
agent_or (some a) o = some a

agent_by_id-append :
    (as_ bs : List AgentEntry) (id : Text)
    → agent_by_id (as_ ++ bs) id ≡ agent_or (agent_by_id as_ id) (agent_by_id bs id)
unfolding agent_by_id
agent_by_id-append [] bs id = refl
agent_by_id-append (a ∷ as_) bs id = ground (arith, agent_by_id-append as_ bs id)

agent_by_id-HasId : (as_ : List AgentEntry) (id : Text) → HasId id (agent_by_id as_ id)
unfolding agent_by_id HasId
agent_by_id-HasId [] id = tt
agent_by_id-HasId (a ∷ as_) id = ground (arith, agent_by_id-HasId as_ id)

-- What the base has, replaced by the override where that has it.
replaced_entry : Option AgentEntry → Option AgentEntry → Option AgentEntry
replaced_entry none rep = none
replaced_entry (some a) rep = some (entry_or rep a)

entry_or-id :
    (id : Text) (rep : Option AgentEntry) (a : AgentEntry)
    → HasId a.id rep
    → text_eq (entry_or rep a).id id ≡ text_eq a.id id
unfolding HasId
entry_or-id id none a h = refl
entry_or-id id (some r) a h = ap (λ t. text_eq t id) ((text_eq_iff r.id a.id).0 h)

agent_by_id-replaced :
    (override base : List AgentEntry) (id : Text)
    → agent_by_id (replaced override base) id
      ≡ replaced_entry (agent_by_id base id) (override_by_id override id)
unfolding agent_by_id replaced replaced_entry
agent_by_id-replaced override [] id = refl
agent_by_id-replaced override (a ∷ as_) id =
    let ids =
      entry_or-id id (override_by_id override a.id) a (override_by_id-HasId override a.id) in
    elim (Bool-cases (text_eq a.id id)) [
      | inl e ↦ rw (ids, e, (text_eq_iff a.id id).0 e) refl
      | inr e ↦ rw (ids, e) (agent_by_id-replaced override as_ id)
    ]

-- An id that the base lacks is not used.
any-used_ids :
    (override base : List AgentEntry) (id : Text)
    → agent_by_id base id ≡ none
    → any (λ s. text_eq s id) (used_ids override base) ≡ false
unfolding agent_by_id used_ids
any-used_ids override [] id h = refl
any-used_ids override (a ∷ as_) id h = ground (arith, any-used_ids override as_ id)

agent_by_id-unused :
    (used : List Text) (as_ : List AgentEntry) (id : Text)
    → any (λ s. text_eq s id) used ≡ false
    → agent_by_id (unused used as_) id ≡ agent_by_id as_ id
unfolding agent_by_id unused
agent_by_id-unused used [] id h = refl
agent_by_id-unused used (a ∷ as_) id h =
    ground (arith, agent_by_id-unused used as_ id, text_eq_iff a.id id)

validate-from : (as_ : List AgentEntry) → validate as_ ≡ none → validate_from [] as_ ≡ none
unfolding validate
validate-from [] h = refl
validate-from (a ∷ as_) h = h

merged_lookup :
    (base override : List AgentEntry) (id : Text)
    → override_by_id override id ≡ agent_by_id override id
    → agent_by_id (merge_manifests base override) id
      ≡ agent_or (agent_by_id override id) (agent_by_id base id)
unfolding merge_manifests replaced_entry
merged_lookup base override id same =
    rw
      (
        agent_by_id-append (replaced override base) (unused (used_ids override base) override) id,
        agent_by_id-replaced override base id,
        same,
      )
      (ground (
        arith,
        agent_by_id-unused (used_ids override base) override id,
        any-used_ids override base id,
      ))

-- If the override passes validation, an agent is looked up in the merged manifest as in the
-- override, and as in the base where the override lacks it.
pub agent_by_id-merge_manifests :
    (base override : List AgentEntry) (id : Text)
    → validate override ≡ none
    → agent_by_id (merge_manifests base override) id
      ≡ agent_or (agent_by_id override id) (agent_by_id base id)
agent_by_id-merge_manifests base override id h =
    merged_lookup base override id
      (override_by_id-agent_by_id [] id override (validate-from override h))
