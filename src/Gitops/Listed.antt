-- ===== src/Gitops/Listed.antt =====
-- What a harness lists behind an edit: internal/portalapi/gitops/harness_edit.go.
use forge_development_hub_cl.Base.{
  Bool, true, false, not, ◌≡◌, refl, ◌∙◌, ap, inl, inr, Option, none, some, List, [], ◌∷◌, Text,
  Bool-cases, text_eq, text_eq_iff, contains, text_lt, ◌&&◌, ◌||◌, arith, if◌then◌else◌,
}
use forge_development_hub_cl.Base.Sort.{sort}
use forge_development_hub_cl.Base.Order.{contains-sort}
use forge_development_hub_cl.Gitops.Node.{
  Node, Nodes, node, end, more, content, value_of, append, is_mapping, is_sequence, value_at,
  update_at, mapping_value_node, string_node,
}
use forge_development_hub_cl.Gitops.Node.Lookups.{
  IsPaired, value_at-update_at, value_at-update_other, value_at-append,
}
use forge_development_hub_cl.Gitops.Registry.{at_content}
use forge_development_hub_cl.Gitops.Statuses.{or_else-none}
use forge_development_hub_cl.Gitops.Harness.{
  kept_items, values, names_to_add, string_nodes, edit_items, edit_kind, flow_style,
}

contains-same : (l : List Text) (a b : Text) → text_eq a b ≡ true → contains l a ≡ contains l b
contains-same l a b e = ap (contains l) ((text_eq_iff a b).0 e)

values-append :
    (ns ms : Nodes) (x : Text)
    → contains (values (append ns ms)) x ≡ (contains (values ns) x || contains (values ms) x)
unfolding contains values append
values-append end ms x = refl
values-append (more n ns) ms x = ground (arith, values-append ns ms x)

values-string_nodes : (l : List Text) → values (string_nodes l) ≡ l
unfolding values string_nodes
values-string_nodes [] = refl
values-string_nodes (x ∷ l) = ap (◌∷◌ x) (values-string_nodes l)

values-kept_items :
    (remove : List Text) (ns : Nodes) (x : Text)
    → contains (values (kept_items remove ns)) x
      ≡ (contains (values ns) x && not (contains remove x))
unfolding contains values kept_items
values-kept_items remove end x = refl
values-kept_items remove (more n ns) x =
    let same = contains-same remove (value_of n) x in
    elim (Bool-cases (contains remove (value_of n))) [
      | inl e ↦ rw e (ground (arith, values-kept_items remove ns x, same, e))
      | inr e ↦ rw e (ground (arith, values-kept_items remove ns x, same, e))
    ]

contains-names_to_add :
    (present add : List Text) (x : Text)
    → (contains present x || contains (names_to_add present add) x)
      ≡ (contains present x || contains add x)
unfolding contains names_to_add
contains-names_to_add present [] x = refl
contains-names_to_add present (a ∷ add) x =
    let same = contains-same present a x in
    elim (Bool-cases (contains present a)) [
      | inl e ↦ rw e (ground (arith, contains-names_to_add present add x, same, e))
      | inr e ↦ rw e (ground (arith, contains-names_to_add (a ∷ present) add x, same, e))
    ]

contains-edit_items :
    (add remove : List Text) (ns : Nodes) (x : Text)
    → contains (values (edit_items add remove ns)) x
      ≡ ((contains (values ns) x && not (contains remove x)) || contains add x)
unfolding edit_items
contains-edit_items add remove ns x =
    values-append (kept_items remove ns)
      (string_nodes (sort text_lt (names_to_add (values (kept_items remove ns)) add))) x
    ∙ rw
        (
          values-string_nodes (sort text_lt (names_to_add (values (kept_items remove ns)) add)),
          contains-sort,
        )
        (contains-names_to_add (values (kept_items remove ns)) add x
          ∙ ap (λ b. b || contains add x) (values-kept_items remove ns x))

abbrev names_of : Option Node → List Text
names_of none = []
names_of (some seq) = if is_sequence seq then values (content seq) else []

-- A name that is added is listed: there is no value, or it is a sequence.
abbrev pub takes_names : Option Node → Bool
takes_names none = true
takes_names (some seq) = is_sequence seq

-- The names that a harness lists under a key.
unfoldable pub listed : Node → Text → List Text
unfolding mapping_value_node values
listed h key = names_of (mapping_value_node h key)

listed-mapping :
    (h : Node) (key : Text)
    → is_mapping h ≡ true
    → listed h key ≡ names_of (value_at key (content h))
unfolding listed mapping_value_node
listed-mapping h key m = rw m refl

-- The names behind an edit of this key or of another one.
abbrev pub behind_edit : Bool → Bool → List Text → List Text → List Text → Text → Bool
behind_edit this takes add remove names x =
    if this
    then takes && ((contains names x && not (contains remove x)) || contains add x)
    else contains names x

key-there :
    (ns : Nodes) (key other : Text) (add remove : List Text) (v : Node) (x : Text)
    → value_at key ns ≡ some v
    → contains (names_of (value_at other (update_at key (at_content (edit_items add remove)) ns))) x
      ≡ behind_edit
          (text_eq key other)
          (takes_names (some v))
          add
          remove
          (names_of (value_at other ns))
          x
unfolding contains
key-there ns key other add remove (node l ms) x e = elim (Bool-cases (text_eq key other)) [
  | inl t ↦
      rw
        (
          t,
          ← (text_eq_iff key other).0 t,
          value_at-update_at key (at_content (edit_items add remove)) ns,
          e,
        )
        (there (is_sequence (node l ms)))
  | inr t ↦ rw (t, value_at-update_other key other (at_content (edit_items add remove)) ns t) refl
]
  where
    there :
        (seq : Bool)
        → contains (if seq then values (edit_items add remove ms) else []) x ≡ (
            seq
            && ((contains (if seq then values ms else []) x && not (contains remove x))
                || contains add x))
    there true = contains-edit_items add remove ms x
    there false = refl

key-absent :
    (ns : Nodes) (key other : Text) (add remove : List Text) (x : Text)
    → IsPaired ns
    → value_at key ns ≡ none
    → contains
        (names_of (
          value_at other (
            append ns
              (more (string_node key) (more (at_content (edit_items add remove) flow_style) end)))))
        x
      ≡ behind_edit (text_eq key other) true add remove (names_of (value_at other ns)) x
unfolding values
key-absent ns key other add remove x p e = elim (Bool-cases (text_eq key other)) [
  | inl t ↦
      rw
        (
          value_at-append other ns (string_node key) (at_content (edit_items add remove) flow_style)
              p,
          t,
          ← (text_eq_iff key other).0 t,
          e,
        )
        (contains-edit_items add remove end x)
  | inr t ↦
      rw
        (
          value_at-append other ns (string_node key) (at_content (edit_items add remove) flow_style)
              p,
          t,
          or_else-none (value_at other ns),
        )
        refl
]

untouched :
    (this : Bool) (o : Option Node) (x : Text) (p : Option Node)
    → (this ≡ true → o ≡ p)
    → contains (names_of o) x ≡ behind_edit this (takes_names p) [] [] (names_of o) x
unfolding contains
untouched true none x p h = rw (← h refl) refl
untouched true (some (node l ms)) x p h = rw (← h refl) (seq (is_sequence (node l ms)))
  where
    seq :
        (b : Bool)
        → contains (if b then values ms else []) x
          ≡ (b && ((contains (if b then values ms else []) x && true) || false))
    seq true = ground arith
    seq false = refl
untouched false o x p h = refl

no_add :
    (remove names : List Text) (this : Bool) (x : Text)
    → (this ≡ true → names ≡ [])
    → contains names x ≡ behind_edit this true [] remove names x
unfolding contains
no_add remove names true x h = rw (h refl) refl
no_add remove names false x h = refl

-- A harness whose keys and values alternate lists under the edited key, behind `editKind`, the
-- names that it listed and that are not removed, and the names that are added, if the key has no
-- value or a sequence; if it has another value, such as a null, it lists none, before and behind
-- the edit. Under every other key it lists what it did.
pub listed-edit_kind :
    (h : Node) (key other : Text) (add remove : List Text) (x : Text)
    → is_mapping h ≡ true
    → IsPaired (content h)
    → contains (listed (edit_kind h key add remove) other) x ≡ (
        if text_eq key other
        then takes_names (mapping_value_node h key)
          && ((contains (listed h other) x && not (contains remove x)) || contains add x)
        else contains (listed h other) x)
unfolding edit_kind mapping_value_node listed
listed-edit_kind (node g ns) key other [] [] x m p = rw m (
    untouched (text_eq key other) (value_at other ns) x (value_at key ns)
      (λ t. rw ((text_eq_iff key other).0 t) refl))
listed-edit_kind (node g ns) key other (a ∷ add) remove x m p = go (value_at key ns) refl
  where
    go :
        (o : Option Node)
        → value_at key ns ≡ o
        → contains (listed (edit_kind (node g ns) key (a ∷ add) remove) other) x
          ≡ behind_edit
              (text_eq key other)
              (takes_names (mapping_value_node (node g ns) key))
              (a ∷ add)
              remove
              (listed (node g ns) other)
              x
    go none e = rw (m, e, m) (key-absent ns key other (a ∷ add) remove x p e)
    go (some v) e = rw (m, e, m) (key-there ns key other (a ∷ add) remove v x e)
listed-edit_kind (node g ns) key other [] (r ∷ remove) x m p = go (value_at key ns) refl
  where
    go :
        (o : Option Node)
        → value_at key ns ≡ o
        → contains (listed (edit_kind (node g ns) key [] (r ∷ remove)) other) x
          ≡ behind_edit
              (text_eq key other)
              (takes_names (mapping_value_node (node g ns) key))
              []
              (r ∷ remove)
              (listed (node g ns) other)
              x
    go none e =
        rw (m, e, m)
          (no_add (r ∷ remove) (names_of (value_at other ns)) (text_eq key other) x
            (λ t. rw (← (text_eq_iff key other).0 t, e) refl))
    go (some v) e = rw (m, e, m) (key-there ns key other [] (r ∷ remove) v x e)
