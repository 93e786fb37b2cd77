-- ===== src/Provenance/Again.antt =====
-- The lines of a frontmatter behind an injection: pkg/provenance/provenance.go.
use mathlib.Core.List.{reverse, reverse-append, append_assoc, append-nil}
use forge_development_hub_cl.Base.{
  Bool, true, false, not, ◌&&◌, ◌≡◌, ◌∙◌, ◌⊎◌, inl, inr, ap, refl, sym, Option, none, some, List,
  [], ◌∷◌, ◌++◌, Text, codes, arith, All, all, ◌==◌, has_suffix, has_prefix, Bool-cases,
  if◌then◌else◌, is_empty,
}
use forge_development_hub_cl.Base.Bytes.{trim_left, cut_prefix}
use forge_development_hub_cl.Base.Search.{Lacks}
use forge_development_hub_cl.Base.Splits.{all-append, all-reverse}
use forge_development_hub_cl.Provenance.{
  frontmatter_key, split_lines, concat, has_key_prefix, extract_line_ending, breadcrumb,
  replace_line, replaced, dominant_line_ending, replace_or_append_key, ends_with_line_ending,
  without_key, has_crlf,
}
use forge_development_hub_cl.Provenance.Lines.{IsContent, split_lines-content, is_close-cons}

abbrev IsEnding : Text → Type 0
IsEnding e = (e ≡ codes "\r\n") ⊎ (e ≡ codes "\n")

dominant-IsEnding : (b : Text) → IsEnding (dominant_line_ending b)
dominant-IsEnding b = elim (Bool-cases (has_crlf b)) [
  | inl e ↦ rw e (inl refl)
  | inr e ↦ rw e (inr refl)
]

extract-IsEnding : (l e : Text) → IsEnding e → IsEnding (extract_line_ending l e)
unfolding extract_line_ending
extract-IsEnding l e h = elim (Bool-cases (has_suffix l (codes "\r\n"))) [
  | inl a ↦ rw a (inl refl)
  | inr a ↦
      rw a
        (elim (Bool-cases (has_suffix l (codes "\n"))) [ inl b ↦ rw b (inr refl) | inr b ↦ rw b h ])
]

module _ (ref : Text) (no_lf : Lacks b'\n' ref) (no_cr : Lacks b'\r' ref) where
  abbrev pub line : Text
  line = breadcrumb frontmatter_key ref

  line-has_key : (e : Text) → has_key_prefix (line ++ e) frontmatter_key ≡ true
  unfolding has_key_prefix trim_left cut_prefix
  line-has_key e = refl

  line-IsContent : (e : Text) → IsEnding e → IsContent (line ++ e)
  line-IsContent e (inl h) = rw h (
    (
      line ++ b'\r' ∷ [],
      sym (append_assoc line (b'\r' ∷ []) (b'\n' ∷ [])),
      all-append (λ c. not (c == b'\n')) ref (b'\r' ∷ []) ∙ rw no_lf,
    ),
    is_close-cons b'i' _ refl refl refl,
  )
  line-IsContent e (inr h) = rw h ((line, refl, no_lf), is_close-cons b'i' _ refl refl refl)

  -- The end of the line of the key is kept.
  extract-line : (e f : Text) → IsEnding e → extract_line_ending (line ++ e) f ≡ e
  unfolding extract_line_ending has_suffix has_prefix
  extract-line e f (inl h) = rw h (rw (reverse-append line (codes "\r\n")) refl)
  extract-line e f (inr h) =
      let a : all (λ c. not (c == b'\r')) (reverse line) ≡ true =
        all-reverse (λ c. not (c == b'\r')) line ∙ no_cr in
      rw h (rw (reverse-append line (codes "\n")) (ends (reverse line) a))
    where
      ends :
          (r : Text)
          → all (λ c. not (c == b'\r')) r ≡ true
          → (if has_prefix (b'\n' ∷ r) (reverse (codes "\r\n"))
              then codes "\r\n"
              else if has_prefix (b'\n' ∷ r) (reverse (codes "\n"))
              then codes "\n"
              else f)
            ≡ codes "\n"
      ends [] a = refl
      ends (c ∷ r) a = ground arith

  -- Lines that have the breadcrumb, of which the rest is that of the others.
  pub record Breadcrumbed (ls ms : List Text) : Type 0 where
    pub content : All IsContent ms
    pub again : (f : Text) → replace_line f frontmatter_key ref ms ≡ some ms
    pub rest : without_key frontmatter_key ms ≡ without_key frontmatter_key ls

  replace_line-hit :
      (x f : Text) (ls : List Text)
      → has_key_prefix x frontmatter_key ≡ true
      → replace_line f frontmatter_key ref (x ∷ ls) ≡ some ((line ++ extract_line_ending x f) ∷ ls)
  unfolding replace_line
  replace_line-hit x f ls h = ground arith

  replace_line-miss :
      (x f : Text) (ls ms : List Text)
      → has_key_prefix x frontmatter_key ≡ false
      → replace_line f frontmatter_key ref ls ≡ some ms
      → replace_line f frontmatter_key ref (x ∷ ls) ≡ some (x ∷ ms)
  unfolding replace_line
  replace_line-miss x f ls ms h e = ground arith

  without_key-hit :
      (x : Text) (ls : List Text)
      → has_key_prefix x frontmatter_key ≡ true
      → without_key frontmatter_key (x ∷ ls) ≡ without_key frontmatter_key ls
  without_key-hit x ls h = ground arith

  without_key-cons :
      (x : Text) (ls ms : List Text)
      → without_key frontmatter_key ls ≡ without_key frontmatter_key ms
      → without_key frontmatter_key (x ∷ ls) ≡ without_key frontmatter_key (x ∷ ms)
  without_key-cons x ls ms h = ground arith

  replace_line-cases :
      (x f : Text) (ls ms : List Text)
      → has_key_prefix x frontmatter_key ≡ false
      → replace_line f frontmatter_key ref (x ∷ ls) ≡ some ms
      → (rs : List Text) × (replace_line f frontmatter_key ref ls ≡ some rs) × (ms ≡ x ∷ rs)
  unfolding replace_line
  replace_line-cases x f ls ms h e = go (replace_line f frontmatter_key ref ls) refl
    where
      go :
          (o : Option (List Text))
          → replace_line f frontmatter_key ref ls ≡ o
          → (rs : List Text) × (o ≡ some rs) × (ms ≡ x ∷ rs)
      go none q = absurd (ground arith)
      go (some rs) q = (rs, refl, ground arith)

  cons-Breadcrumbed :
      (x : Text) (ls ms : List Text)
      → has_key_prefix x frontmatter_key ≡ false
      → IsContent x
      → Breadcrumbed ls ms
      → Breadcrumbed (x ∷ ls) (x ∷ ms)
  cons-Breadcrumbed x ls ms k c b = record {
    content = (c, b.content);
    again = λ f. replace_line-miss x f ms ms k (b.again f);
    rest = without_key-cons x ms ls b.rest;
  }

  replace_line-Breadcrumbed :
      (e : Text) (ls ms : List Text)
      → IsEnding e
      → All IsContent ls
      → replace_line e frontmatter_key ref ls ≡ some ms
      → Breadcrumbed ls ms
  unfolding replace_line
  replace_line-Breadcrumbed e [] ms i a h = absurd (ground arith)
  replace_line-Breadcrumbed e (l ∷ ls) ms i (c, a) h =
      elim (Bool-cases (has_key_prefix l frontmatter_key)) [
        | inl k ↦
            let end = extract_line_ending l e in
            let ends = extract-IsEnding l e i in
            let m : ms ≡ (line ++ end) ∷ ls = ground arith in
            rw m (record {
              content = (line-IsContent end ends, a);
              again = λ f.
                  replace_line-hit (line ++ end) f ls (line-has_key end)
                  ∙ ap (λ (x : Text). some ((line ++ x) ∷ ls)) (extract-line end f ends);
              rest =
                  without_key-hit (line ++ end) ls (line-has_key end)
                  ∙ sym (without_key-hit l ls k);
            })
        | inr k ↦
            let (rs, q, m) = replace_line-cases l e ls ms k h in
            rw m (cons-Breadcrumbed l ls rs k c (replace_line-Breadcrumbed e ls rs i a q))
      ]

  missed :
      (x f : Text) (ls : List Text)
      → replace_line f frontmatter_key ref (x ∷ ls) ≡ none
      → (has_key_prefix x frontmatter_key ≡ false) × (replace_line f frontmatter_key ref ls ≡ none)
  unfolding replace_line
  missed x f ls h = ground arith

  pub append-Breadcrumbed :
      (e end : Text) (ls : List Text)
      → IsEnding end
      → All IsContent ls
      → replace_line e frontmatter_key ref ls ≡ none
      → Breadcrumbed ls (ls ++ (line ++ end) ∷ [])
  append-Breadcrumbed e end [] i a h = record {
    content = (line-IsContent end i, tt);
    again = λ f.
        replace_line-hit (line ++ end) f [] (line-has_key end)
        ∙ ap (λ (x : Text). some ((line ++ x) ∷ [])) (extract-line end f i);
    rest = without_key-hit (line ++ end) [] (line-has_key end);
  }
  append-Breadcrumbed e end (l ∷ ls) i (c, a) h =
      let (k, m) = missed l e ls h in
      cons-Breadcrumbed l ls (ls ++ (line ++ end) ∷ []) k c (append-Breadcrumbed e end ls i a m)

  -- Whether a line end is put in front of an appended line.
  abbrev glued : Text → Bool
  glued out = not (is_empty out) && not (ends_with_line_ending out)

  glued-line : (w y : Text) → glued (w ++ b'\n' ∷ y) ≡ glued y
  glued-line [] [] = refl
  glued-line [] (d ∷ ds) = refl
  glued-line (c ∷ []) y = glued-line [] y
  glued-line (c ∷ d ∷ cs) y = glued-line (d ∷ cs) y

  glued-concat : (ls : List Text) → All IsContent ls → glued (concat ls) ≡ false
  glued-concat [] a = refl
  glued-concat (l ∷ ls) (((w, q, k), c), a) =
      ap (λ (x : Text). glued (x ++ concat ls)) q
      ∙ ap glued (append_assoc w (b'\n' ∷ []) (concat ls))
      ∙ glued-line w (concat ls)
      ∙ glued-concat ls a

  concat-append : (ls : List Text) (l : Text) → concat (ls ++ l ∷ []) ≡ concat ls ++ l
  concat-append [] l = append-nil l
  concat-append (x ∷ ls) l =
      ap (λ (y : Text). x ++ y) (concat-append ls l) ∙ sym (append_assoc x (concat ls) l)

  pub split_lines-concat : (ls : List Text) → All IsContent ls → split_lines (concat ls) ≡ ls
  unfolding split_lines
  split_lines-concat ls a =
      ap split_lines (sym (append-nil (concat ls))) ∙ split_lines-content ls [] a ∙ append-nil ls

  -- The new frontmatter of proper lines.
  pub replace_or_append_key-Breadcrumbed :
      (ls : List Text)
      → All IsContent ls
      → (ms : List Text) × (replace_or_append_key (concat ls) frontmatter_key ref ≡ concat ms)
        × Breadcrumbed ls ms
  unfolding replace_or_append_key
  replace_or_append_key-Breadcrumbed ls a =
      go (replace_line (dominant_line_ending (concat ls)) frontmatter_key ref ls) refl
    where
      lines_again :
          replace_or_append_key (concat ls) frontmatter_key ref
          ≡ replaced
              (concat ls)
              frontmatter_key
              ref
              (replace_line (dominant_line_ending (concat ls)) frontmatter_key ref ls)
      lines_again =
          ap
            (λ (x : List Text).
              replaced (concat ls) frontmatter_key ref
                (replace_line (dominant_line_ending (concat ls)) frontmatter_key ref x))
            (split_lines-concat ls a)

      go :
          (o : Option (List Text))
          → replace_line (dominant_line_ending (concat ls)) frontmatter_key ref ls ≡ o
          → (ms : List Text) × (replace_or_append_key (concat ls) frontmatter_key ref ≡ concat ms)
            × Breadcrumbed ls ms
      go none q = (
        ls ++ (line ++ dominant_line_ending (concat ls)) ∷ [],
        lines_again
            ∙ ap (replaced (concat ls) frontmatter_key ref) q
            ∙ ap
                (λ (b : Bool).
                  concat ls
                  ++ ((if b then dominant_line_ending (concat ls) else [])
                      ++ (line ++ dominant_line_ending (concat ls))))
                (glued-concat ls a)
            ∙ sym (concat-append ls (line ++ dominant_line_ending (concat ls))),
        append-Breadcrumbed _ _ ls (dominant-IsEnding (concat ls)) a q,
      )
      go (some ms) q = (
        ms,
        lines_again ∙ ap (replaced (concat ls) frontmatter_key ref) q,
        replace_line-Breadcrumbed _ ls ms (dominant-IsEnding (concat ls)) a q,
      )

  -- A second injection keeps the frontmatter.
  pub replace_or_append_key-again :
      (ls ms : List Text)
      → Breadcrumbed ls ms
      → replace_or_append_key (concat ms) frontmatter_key ref ≡ concat ms
  unfolding replace_or_append_key
  replace_or_append_key-again ls ms b =
      ap
        (λ (x : List Text).
          replaced (concat ms) frontmatter_key ref
            (replace_line (dominant_line_ending (concat ms)) frontmatter_key ref x))
        (split_lines-concat ms b.content)
      ∙ ap (replaced (concat ms) frontmatter_key ref) (b.again (dominant_line_ending (concat ms)))
