-- ===== src/Provenance/Inject.antt =====
-- `InjectBreadcrumb`, applied again, and what it leaves of the document.
use mathlib.Core.List.{append_assoc}
use forge_development_hub_cl.Base.{
  ℕ, ◌-◌, true, false, ◌≡◌, ◌∙◌, ◌⊎◌, inl, inr, ap, refl, sym, Option, none, some, List, [], ◌∷◌,
  ◌++◌, Text, codes, arith, All, has_prefix, Bool-cases, is_empty, text_eq,
}
use forge_development_hub_cl.Base.Bytes.{take, drop, trim_right}
use forge_development_hub_cl.Base.Search.{Lacks}
use forge_development_hub_cl.Provenance.{
  frontmatter_key, bom, split_lines, concat, replace_line, replace_or_append_key,
  starts_with_frontmatter, frontmatter_open_end, located, find_close, fresh_frontmatter,
  reassembled, overwritten, inject_rest, inject_breadcrumb, without_key, stripped, strip_breadcrumb,
  is_close,
}
use forge_development_hub_cl.Provenance.Lines.{
  IsContent, IsClosing, find_close-split_lines, find_close-content,
}
use forge_development_hub_cl.Provenance.Again.{
  line, Breadcrumbed, append-Breadcrumbed, split_lines-concat, replace_or_append_key-Breadcrumbed,
  replace_or_append_key-again,
}

-- An opening delimiter.
record Opening (o : Text) : Type 0 where
  pub starts : (x : Text) → starts_with_frontmatter (o ++ x) ≡ true
  pub taken : (x : Text) → take (frontmatter_open_end (o ++ x)) (o ++ x) ≡ o
  pub dropped : (x : Text) → drop (frontmatter_open_end (o ++ x)) (o ++ x) ≡ x
  pub no_bom : (x : Text) → has_prefix (o ++ x) bom ≡ false

Opening-lf : Opening (codes "---\n")
unfolding starts_with_frontmatter frontmatter_open_end take drop has_prefix
Opening-lf = record {
  starts = λ x. refl;
  taken = λ x. refl;
  dropped = λ x. refl;
  no_bom = λ x. refl;
}

Opening-crlf : Opening (codes "---\r\n")
unfolding starts_with_frontmatter frontmatter_open_end take drop has_prefix
Opening-crlf = record {
  starts = λ x. refl;
  taken = λ x. refl;
  dropped = λ x. refl;
  no_bom = λ x. refl;
}

has_prefix-split : (s p : Text) → has_prefix s p ≡ true → (r : Text) × (s ≡ p ++ r)
unfolding has_prefix
has_prefix-split s [] h = (s, refl)
has_prefix-split [] (p ∷ ps) h = absurd (ground arith)
has_prefix-split (c ∷ cs) (p ∷ ps) h =
    let (r, e) = has_prefix-split cs ps (ground arith) in (r, ground arith)

opened :
    (src : Text)
    → starts_with_frontmatter src ≡ true
    → (o : Text) × (x : Text) × Opening o × (src ≡ o ++ x)
unfolding starts_with_frontmatter
opened src h = elim (Bool-cases (has_prefix src (codes "---\n"))) [
  | inl a ↦ let (r, e) = has_prefix-split src (codes "---\n") a in (codes "---\n", r, Opening-lf, e)
  | inr a ↦
      let (r, e) = has_prefix-split src (codes "---\r\n") (ground arith) in
      (codes "---\r\n", r, Opening-crlf, e)
]

located-Opening : (o x : Text) → Opening o → located (o ++ x) ≡ find_close (split_lines x)
unfolding located
located-Opening o x op = ap (λ (t : Text). find_close (split_lines t)) (op.dropped x)

inject_rest-Opening :
    (room : ℕ) (o x ref : Text)
    → Opening o
    → inject_rest room (o ++ x) ref ≡ reassembled (o ++ x) ref (find_close (split_lines x))
unfolding inject_rest
inject_rest-Opening room o x ref op = ground (arith, op.starts x, located-Opening o x op)

inject_rest-closed :
    (room : ℕ) (o x ref : Text) (ls : List Text) (close : Text)
    → Opening o
    → find_close (split_lines x) ≡ some (ls, close)
    → inject_rest room (o ++ x) ref
      ≡ o ++ (replace_or_append_key (concat ls) frontmatter_key ref ++ close)
inject_rest-closed room o x ref ls close op e =
    inject_rest-Opening room o x ref op
    ∙ ap (reassembled (o ++ x) ref) e
    ∙ ap (λ (t : Text). t ++ (replace_or_append_key (concat ls) frontmatter_key ref ++ close))
        (op.taken x)

strip-Opening :
    (o x : Text)
    → Opening o
    → strip_breadcrumb (o ++ x) ≡ stripped (o ++ x) (find_close (split_lines x))
unfolding strip_breadcrumb
strip-Opening o x op = ground (arith, op.starts x, located-Opening o x op)

module _ (ref : Text) (no_lf : Lacks b'\n' ref) (no_cr : Lacks b'\r' ref) where
  -- A text whose frontmatter has the breadcrumb.
  abbrev HasBreadcrumb : List Text → Text → Type 0
  HasBreadcrumb ls out =
      (o : Text) × (ms : List Text) × (close : Text) × Opening o
      × IsClosing close
      × (out ≡ o ++ (concat ms ++ close))
      × Breadcrumbed ref no_lf no_cr ls ms

  inject_rest-HasBreadcrumb :
      (room : ℕ) (ls : List Text) (out : Text)
      → HasBreadcrumb ls out
      → inject_rest room out ref ≡ out
  inject_rest-HasBreadcrumb room ls out (o, ms, close, op, cl, e, b) = rw e (
      inject_rest-closed room o (concat ms ++ close) ref ms close op
        (find_close-content ms close b.content cl)
      ∙ ap (λ (t : Text). o ++ (t ++ close)) (replace_or_append_key-again ref no_lf no_cr ls ms b))

  fresh-HasBreadcrumb : (y : Text) → HasBreadcrumb [] (fresh_frontmatter ref ++ y)
  unfolding replace_line is_close trim_right text_eq
  fresh-HasBreadcrumb y = (
    codes "---\n",
    (line ref no_lf no_cr ++ codes "\n") ∷ [],
    codes "---\n" ++ y,
    Opening-lf,
    (codes "---", y, refl, refl, refl),
    simp append_assoc,
    append-Breadcrumbed ref no_lf no_cr (codes "\n") (codes "\n") [] (inr refl) tt refl,
  )

  closed-HasBreadcrumb :
      (room : ℕ) (o x : Text) (ls : List Text) (close : Text)
      → Opening o
      → find_close (split_lines x) ≡ some (ls, close)
      → HasBreadcrumb ls (inject_rest room (o ++ x) ref)
  closed-HasBreadcrumb room o x ls close op e =
      let (q, c, cl) = find_close-split_lines x ls close e in
      let (ms, k, b) = replace_or_append_key-Breadcrumbed ref no_lf no_cr ls c in
      (
        o,
        ms,
        close,
        op,
        cl,
        inject_rest-closed room o x ref ls close op e ∙ ap (λ (t : Text). o ++ (t ++ close)) k,
        b,
      )

  -- An injection leaves the text as it is, or gives it the breadcrumb.
  inject_rest-cases :
      (room : ℕ) (src : Text)
      → ((r : ℕ) → inject_rest r src ref ≡ src)
        ⊎ ((ls : List Text) × HasBreadcrumb ls (inject_rest room src ref))
  unfolding inject_rest
  inject_rest-cases room src = elim (Bool-cases (starts_with_frontmatter src)) [
    | inr a ↦ inr ([], rw a (fresh-HasBreadcrumb (overwritten room (fresh_frontmatter ref) src)))
    | inl a ↦ let (o, x, op, e) = opened src a in rw e (go o x op (find_close (split_lines x)) refl)
  ]
    where
      go :
          (o x : Text)
          → Opening o
          → (f : Option (List Text × Text)) → find_close (split_lines x) ≡ f
          → ((r : ℕ) → inject_rest r (o ++ x) ref ≡ o ++ x)
            ⊎ ((ls : List Text) × HasBreadcrumb ls (inject_rest room (o ++ x) ref))
      go o x op none q =
          inl (λ r. inject_rest-Opening r o x ref op ∙ ap (reassembled (o ++ x) ref) q)
      go o x op (some (ls, close)) q = inr (ls, closed-HasBreadcrumb room o x ls close op q)

  inject_rest-again :
      (room room' : ℕ) (src : Text)
      → inject_rest room' (inject_rest room src ref) ref ≡ inject_rest room src ref
  inject_rest-again room room' src = elim (inject_rest-cases room src) [
    | inl f ↦ ap (λ (t : Text). inject_rest room' t ref) (f room) ∙ f room' ∙ sym (f room)
    | inr (ls, h) ↦ inject_rest-HasBreadcrumb room' ls (inject_rest room src ref) h
  ]

  no_bom-HasBreadcrumb :
      (ls : List Text) (out : Text) → HasBreadcrumb ls out → has_prefix out bom ≡ false
  no_bom-HasBreadcrumb ls out (o, ms, close, op, cl, e, b) = rw e (op.no_bom (concat ms ++ close))

  no_bom-inject_rest :
      (room : ℕ) (src : Text)
      → has_prefix src bom ≡ false
      → has_prefix (inject_rest room src ref) bom ≡ false
  no_bom-inject_rest room src h = elim (inject_rest-cases room src) [
    | inl f ↦ ap (λ (t : Text). has_prefix t bom) (f room) ∙ h
    | inr (ls, b) ↦ no_bom-HasBreadcrumb ls (inject_rest room src ref) b
  ]

  inject-marked :
      (capacity : ℕ) (y : Text)
      → is_empty ref ≡ false
      → inject_breadcrumb capacity (bom ++ y) ref ≡ bom ++ inject_rest (capacity - 3) y ref
  unfolding inject_breadcrumb has_prefix drop
  inject-marked capacity y h = rw h refl

  inject-unmarked :
      (capacity : ℕ) (y : Text)
      → is_empty ref ≡ false
      → has_prefix y bom ≡ false
      → inject_breadcrumb capacity y ref ≡ inject_rest 0 y ref
  unfolding inject_breadcrumb
  inject-unmarked capacity y h k = rw h (rw k refl)

  inject-empty :
      (capacity : ℕ) (y : Text) → is_empty ref ≡ true → inject_breadcrumb capacity y ref ≡ y
  unfolding inject_breadcrumb
  inject-empty capacity y h = rw h refl

  -- With a reference that holds no line feed and no carriage return, a second injection of it
  -- changes nothing, whatever the document and the capacities of the two slices.
  pub inject_breadcrumb-again :
      (capacity capacity' : ℕ) (src : Text)
      → inject_breadcrumb capacity' (inject_breadcrumb capacity src ref) ref
        ≡ inject_breadcrumb capacity src ref
  inject_breadcrumb-again capacity capacity' src = elim (Bool-cases (is_empty ref)) [
    | inl a ↦ inject-empty capacity' (inject_breadcrumb capacity src ref) a
    | inr a ↦ elim (Bool-cases (has_prefix src bom)) [
      | inl b ↦
          let (y, e) = has_prefix-split src bom b in
          let once =
            ap (λ (t : Text). inject_breadcrumb capacity t ref) e ∙ inject-marked capacity y a in
          ap (λ (t : Text). inject_breadcrumb capacity' t ref) once
          ∙ inject-marked capacity' (inject_rest (capacity - 3) y ref) a
          ∙ ap (λ (t : Text). bom ++ t) (inject_rest-again (capacity - 3) (capacity' - 3) y)
          ∙ sym once
      | inr b ↦
          let once = inject-unmarked capacity src a b in
          ap (λ (t : Text). inject_breadcrumb capacity' t ref) once
          ∙ inject-unmarked capacity' (inject_rest 0 src ref) a (no_bom-inject_rest 0 src b)
          ∙ inject_rest-again 0 0 src
          ∙ sym once
    ]
  ]

  strip-closed :
      (o x : Text) (ls : List Text) (close : Text)
      → Opening o
      → All IsContent ls
      → find_close (split_lines x) ≡ some (ls, close)
      → strip_breadcrumb (o ++ x) ≡ o ++ (concat (without_key frontmatter_key ls) ++ close)
  strip-closed o x ls close op c e =
      strip-Opening o x op
      ∙ ap (stripped (o ++ x)) e
      ∙ ap
          (λ (t : Text).
            t ++ (concat (without_key frontmatter_key (split_lines (concat ls))) ++ close))
          (op.taken x)
      ∙ ap (λ (t : List Text). o ++ (concat (without_key frontmatter_key t) ++ close))
          (split_lines-concat ref no_lf no_cr ls c)

  strip-HasBreadcrumb :
      (o x : Text) (ls : List Text) (close : Text) (room : ℕ)
      → Opening o
      → find_close (split_lines x) ≡ some (ls, close)
      → strip_breadcrumb (inject_rest room (o ++ x) ref) ≡ strip_breadcrumb (o ++ x)
  strip-HasBreadcrumb o x ls close room op e =
      let (q, c, cl) = find_close-split_lines x ls close e in
      let (ms, k, b) = replace_or_append_key-Breadcrumbed ref no_lf no_cr ls c in
      ap strip_breadcrumb
        (inject_rest-closed room o x ref ls close op e ∙ ap (λ (t : Text). o ++ (t ++ close)) k)
      ∙ strip-closed o (concat ms ++ close) ms close op b.content
          (find_close-content ms close b.content cl)
      ∙ ap (λ (t : List Text). o ++ (concat t ++ close)) b.rest
      ∙ sym (strip-closed o x ls close op c e)

  -- With a reference that holds no line feed and no carriage return, an injection into a document
  -- that starts with a frontmatter touches nothing but the breadcrumb: stripping the result gives
  -- what stripping the document gives.
  pub strip-inject_breadcrumb :
      (capacity : ℕ) (src : Text)
      → starts_with_frontmatter src ≡ true
      → strip_breadcrumb (inject_breadcrumb capacity src ref) ≡ strip_breadcrumb src
  strip-inject_breadcrumb capacity src h = elim (Bool-cases (is_empty ref)) [
    | inl a ↦ ap strip_breadcrumb (inject-empty capacity src a)
    | inr a ↦
        let (o, x, op, e) = opened src h in
        rw e (
          ap strip_breadcrumb (inject-unmarked capacity (o ++ x) a (op.no_bom x))
          ∙ go o x op (find_close (split_lines x)) refl)
  ]
    where
      go :
          (o x : Text)
          → Opening o
          → (f : Option (List Text × Text)) → find_close (split_lines x) ≡ f
          → strip_breadcrumb (inject_rest 0 (o ++ x) ref) ≡ strip_breadcrumb (o ++ x)
      go o x op none q =
          ap strip_breadcrumb (inject_rest-Opening 0 o x ref op ∙ ap (reassembled (o ++ x) ref) q)
      go o x op (some (ls, close)) q = strip-HasBreadcrumb o x ls close 0 op q
