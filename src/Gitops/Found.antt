-- ===== src/Gitops/Found.antt =====
-- Finding a component of a catalog behind a write.
use forge_development_hub_cl.Base.{
  Bool, true, false, ◌≡◌, refl, sym, ap, ◌∙◌, Option, none, some, Text, codes, arith, Bool-cases,
  inl, inr, ◌⊎◌,
}
use forge_development_hub_cl.Gitops.Node.{
  Head, NodeKind, document, sequence, mapping, scalar, alias, Node, Nodes, node, end, more, content,
  is_mapping, is_sequence, value_at, update_at, mapping_value_node, document_root, update_root,
  is_wrapper,
}
use forge_development_hub_cl.Gitops.Node.Lookups.{value_at-update_at}
use forge_development_hub_cl.Gitops.Registry.{
  is_component, first_node, update_first, in_sequence, find_component_node, at_content,
  update_component_node,
}

-- What is found stands first, or behind what does not pass.
found :
    (p : Node → Bool) (n : Node) (ns : Nodes) (c : Node)
    → first_node p (more n ns) ≡ some c
    → ((p n ≡ true) × (n ≡ c)) ⊎ ((p n ≡ false) × (first_node p ns ≡ some c))
unfolding first_node
found p n ns c e = elim (Bool-cases (p n)) [
  | inl h ↦ inl (h, ground arith)
  | inr h ↦ inr (h, ground arith)
]

pub first_node-holds :
    (p : Node → Bool) (ns : Nodes) (c : Node) → first_node p ns ≡ some c → p c ≡ true
unfolding first_node
first_node-holds p (more n ns) c e = elim (found p n ns c e) [
  | inl (h, q) ↦ ap p (sym q) ∙ h
  | inr (h, q) ↦ first_node-holds p ns c q
]
first_node-holds p end c e = ground arith

-- A test that the write does not touch.
pub first_node-other :
    (p q : Node → Bool) (f : Node → Node) (ns : Nodes) (c : Node)
    → first_node p ns ≡ some c
    → q c ≡ false
    → q (f c) ≡ false
    → first_node q (update_first p f ns) ≡ first_node q ns
unfolding first_node update_first
first_node-other p q f end c e h k = refl
first_node-other p q f (more n ns) c e h k = elim (found p n ns c e) [
  | inl (t, same) ↦ rw (t, ap (λ x. q (f x)) same, ap q same, h, k) refl
  | inr (t, rest) ↦ rw (t, first_node-other p q f ns c rest h k) refl
]

pub first_node-same :
    (p : Node → Bool) (f : Node → Node) (ns : Nodes) (c : Node)
    → first_node p ns ≡ some c
    → p (f c) ≡ true
    → first_node p (update_first p f ns) ≡ some (f c)
unfolding first_node update_first
first_node-same p f end c e k = ground arith
first_node-same p f (more n ns) c e k = elim (found p n ns c e) [
  | inl (t, same) ↦ rw (t, ap (λ x. p (f x)) same, k) (ap (λ x. some (f x)) same)
  | inr (t, rest) ↦ rw (t, t, first_node-same p f ns c rest k) refl
]

-- A mapping is no document.
mapping-unwrapped :
    (g : Head) (ns ms : Nodes) → is_mapping (node g ns) ≡ true → is_wrapper (node g ms) ≡ false
mapping-unwrapped g ns end h = refl
mapping-unwrapped g ns (more n (more m ms)) h = refl
mapping-unwrapped g ns (more n end) h = kinds g.kind h
  where
    kinds :
        (k : NodeKind)
        → elim k as (λ x. Bool) [ mapping ↦ true | _ ↦ false ] ≡ true
        → elim k as (λ x. Bool) [ document ↦ true | _ ↦ false ] ≡ false
    kinds document e = ground arith
    kinds sequence e = refl
    kinds mapping e = refl
    kinds scalar e = refl
    kinds alias e = refl

document_root-plain : (n : Node) → is_wrapper n ≡ false → document_root n ≡ n
unfolding document_root
document_root-plain n w = rw w refl

document_root-update :
    (h : Nodes → Nodes) (root : Node)
    → is_mapping (document_root root) ≡ true
    → document_root (update_root (at_content h) root) ≡ at_content h (document_root root)
unfolding document_root update_root
document_root-update h (node g end) m = rw (mapping-unwrapped g end (h end) m) refl
document_root-update h (node g (more n (more o ns))) m =
    rw (mapping-unwrapped g end (h (more n (more o ns))) m) refl
document_root-update h (node g (more n end)) m =
    elim (Bool-cases (is_wrapper (node g (more n end)))) [
      | inl w ↦ rw (w, w) refl
      | inr w ↦
          rw
            (
              w,
              mapping-unwrapped g end (h (more n end))
                  (sym (ap is_mapping (document_root-plain (node g (more n end)) w)) ∙ m),
            )
            refl
    ]

is_mapping-at_content : (h : Nodes → Nodes) (n : Node) → is_mapping (at_content h n) ≡ is_mapping n
is_mapping-at_content h (node g ns) = refl

is_sequence-at_content :
    (h : Nodes → Nodes) (n : Node) → is_sequence (at_content h n) ≡ is_sequence n
is_sequence-at_content h (node g ns) = refl

content-at_content : (h : Nodes → Nodes) (n : Node) → content (at_content h n) ≡ h (content n)
content-at_content h (node g ns) = refl

IsFound : (Node → Bool) → Node → Option Node → Type 0
unfolding first_node
IsFound p c none = ⊥
IsFound p c (some comps) = (is_sequence comps ≡ true) × (first_node p (content comps) ≡ some c)

in_sequence-IsFound :
    (p : Node → Bool) (c : Node) (o : Option Node) → in_sequence p o ≡ some c → IsFound p c o
unfolding IsFound in_sequence
in_sequence-IsFound p c (some comps) e = ground arith
in_sequence-IsFound p c none e = ground arith

nothing : (c : Node) → none ≡ some c → ⊥
nothing c e = ground arith

pub find-mapping :
    (root : Node) (kind name : Text)
    → is_mapping (document_root root) ≡ true
    → find_component_node root kind name
      ≡ in_sequence
          (is_component kind name)
          (value_at (codes "components") (content (document_root root)))
unfolding find_component_node mapping_value_node
find-mapping root kind name m = rw m refl

find-unmapped :
    (root : Node) (kind name : Text)
    → is_mapping (document_root root) ≡ false
    → find_component_node root kind name ≡ none
unfolding find_component_node mapping_value_node in_sequence
find-unmapped root kind name m = rw m refl

-- What `findComponentNode` found, step by step.
pub found_node :
    (root : Node) (kind name : Text) (c : Node)
    → find_component_node root kind name ≡ some c
    → (comps : Node) × (is_mapping (document_root root) ≡ true)
      × (value_at (codes "components") (content (document_root root)) ≡ some comps)
      × (is_sequence comps ≡ true)
      × (first_node (is_component kind name) (content comps) ≡ some c)
unfolding IsFound
found_node root kind name c e = elim (Bool-cases (is_mapping (document_root root))) [
  | inl m ↦ go m (value_at (codes "components") (content (document_root root))) refl (
      in_sequence-IsFound (is_component kind name) c
        (value_at (codes "components") (content (document_root root)))
        (sym (find-mapping root kind name m) ∙ e))
  | inr m ↦ elim (nothing c (sym (find-unmapped root kind name m) ∙ e)) [ ]
]
  where
    go :
        is_mapping (document_root root) ≡ true
        → (o : Option Node) → value_at (codes "components") (content (document_root root)) ≡ o
        → IsFound (is_component kind name) c o
        → (comps : Node) × (is_mapping (document_root root) ≡ true)
          × (value_at (codes "components") (content (document_root root)) ≡ some comps)
          × (is_sequence comps ≡ true)
          × (first_node (is_component kind name) (content comps) ≡ some c)
    go m (some comps) q (s, f) = (comps, m, q, s, f)
    go m none q f = elim f [ ]

-- The look-up behind a write.
pub find-update :
    (root comps : Node) (kind name k n : Text) (f : Node → Node)
    → is_mapping (document_root root) ≡ true
    → value_at (codes "components") (content (document_root root)) ≡ some comps
    → is_sequence comps ≡ true
    → find_component_node (update_component_node kind name f root) k n
      ≡ first_node (is_component k n) (update_first (is_component kind name) f (content comps))
unfolding find_component_node update_component_node mapping_value_node in_sequence
find-update root comps kind name k n f m e s =
    let h = update_at (codes "components") (at_content (update_first (is_component kind name) f)) in
    rw
      (
        document_root-update h root m,
        content-at_content h (document_root root),
        is_mapping-at_content h (document_root root),
        m,
        value_at-update_at (codes "components")
            (at_content (update_first (is_component kind name) f)) (content (document_root root)),
        e,
        is_sequence-at_content (update_first (is_component kind name) f) comps,
        content-at_content (update_first (is_component kind name) f) comps,
        s,
      )
      refl
