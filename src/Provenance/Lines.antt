-- ===== src/Provenance/Lines.antt =====
-- The lines of a frontmatter: cutting a text into lines and finding the closing delimiter.
use mathlib.Core.List.{reverse, reverse-append, reverse-cons, append_assoc}
use forge_development_hub_cl.Base.{
  ℕ, Bool, true, false, ◌||◌, ◌≡◌, ◌∙◌, inl, inr, ap, refl, sym, Option, none, some, List, [], ◌∷◌,
  ◌++◌, Text, arith, All, ◌==◌, text_eq, Bool-cases,
}
use forge_development_hub_cl.Base.Bytes.{trim_left, trim_right}
use forge_development_hub_cl.Base.Search.{Lacks}
use forge_development_hub_cl.Provenance.{
  split_lines, extend_line, concat, ends_with_line_ending, find_close, is_close,
}

-- A line with its end, and no other line end in it.
abbrev pub IsTerminated : Text → Type 0
IsTerminated l = (w : Text) × (l ≡ w ++ b'\n' ∷ []) × Lacks b'\n' w

-- A line in front of the closing delimiter.
abbrev pub IsContent : Text → Type 0
IsContent l = IsTerminated l × (is_close l ≡ false)

-- A text that begins with the closing delimiter.
abbrev pub IsClosing : Text → Type 0
IsClosing close =
    (w : Text) × (rest : Text) × (close ≡ w ++ b'\n' ∷ rest)
    × Lacks b'\n' w
    × (is_close (w ++ b'\n' ∷ []) ≡ true)

split_lines-append :
    (w rest : Text)
    → Lacks b'\n' w
    → split_lines (w ++ b'\n' ∷ rest) ≡ (w ++ b'\n' ∷ []) ∷ split_lines rest
unfolding split_lines
split_lines-append [] rest h = refl
split_lines-append (c ∷ cs) rest h = ground (arith, split_lines-append cs rest)

ends-append : (w : Text) → ends_with_line_ending (w ++ b'\n' ∷ []) ≡ true
ends-append [] = refl
ends-append (c ∷ []) = refl
ends-append (c ∷ d ∷ cs) = ends-append (d ∷ cs)

pub concat-split_lines : (t : Text) → concat (split_lines t) ≡ t
unfolding split_lines
concat-split_lines [] = refl
concat-split_lines (c ∷ cs) = elim (Bool-cases (c == b'\n')) [
  | inl e ↦ rw e (ap (λ (x : Text). c ∷ x) (concat-split_lines cs))
  | inr e ↦
      rw e (concat-extend_line (split_lines cs) ∙ ap (λ (x : Text). c ∷ x) (concat-split_lines cs))
]
  where
    concat-extend_line : (ls : List Text) → concat (extend_line c ls) ≡ c ∷ concat ls
    concat-extend_line [] = refl
    concat-extend_line (l ∷ ls) = refl

-- Each line that has an end has it once.
abbrev Terminates : Text → Type 0
Terminates l = ends_with_line_ending l ≡ true → IsTerminated l

Terminates-cons : (c : ℕ) (l : Text) → (c == b'\n') ≡ false → Terminates l → Terminates (c ∷ l)
Terminates-cons c [] e f h = absurd (ground arith)
Terminates-cons c (d ∷ ds) e f h =
    let (w, q, k) = f h in (c ∷ w, ap (λ (x : Text). c ∷ x) q, ground arith)

Terminates-split_lines : (t : Text) → All Terminates (split_lines t)
unfolding split_lines
Terminates-split_lines [] = tt
Terminates-split_lines (c ∷ cs) = elim (Bool-cases (c == b'\n')) [
  | inl e ↦ rw e ((λ h. ([], ground arith, refl)), Terminates-split_lines cs)
  | inr e ↦ rw e (extended e (split_lines cs) (Terminates-split_lines cs))
]
  where
    extended :
        (c == b'\n') ≡ false
        → (ls : List Text) → All Terminates ls
        → All Terminates (extend_line c ls)
    extended e [] a = (Terminates-cons c [] e (λ h. absurd (ground arith)), tt)
    extended e (l ∷ ls) (a, as') = (Terminates-cons c l e a, as')

-- What was found is the lines in front and the text from the delimiter on.
abbrev pub Found : List Text → List Text → Text → Type 0
Found xs ls close = (concat xs ≡ concat ls ++ close) × All IsContent ls × IsClosing close

find_close-Found :
    (xs ls : List Text) (close : Text)
    → All Terminates xs
    → find_close xs ≡ some (ls, close)
    → Found xs ls close
unfolding find_close
find_close-Found [] ls close a h = absurd (ground arith)
find_close-Found (x ∷ xs) ls close (a, as') h = elim (Bool-cases (ends_with_line_ending x)) [
  | inr e ↦ absurd (ground arith)
  | inl e ↦ elim (Bool-cases (is_close x)) [
    | inl c ↦ here (a e) c (ground arith) (ground arith)
    | inr c ↦
        later (λ b z q. find_close-Found xs b z as' q) (a e) c (find_close xs) refl (ground arith)
  ]
]
  where
    here :
        IsTerminated x
        → is_close x ≡ true
        → ls ≡ []
        → close ≡ concat (x ∷ xs)
        → Found (x ∷ xs) ls close
    here (w, q, k) c l z = rw l (
        rw z (
          refl,
          tt,
          (
            w,
            concat xs,
            ap (λ t. t ++ concat xs) q ∙ append_assoc w (b'\n' ∷ []) (concat xs),
            k,
            ap is_close (sym q) ∙ c,
          ),
        ))

    later :
        ((b : List Text) (z : Text) → find_close xs ≡ some (b, z) → Found xs b z)
        → IsTerminated x
        → is_close x ≡ false
        → (o : Option (List Text × Text)) → find_close xs ≡ o
        → elim o as (λ r. Option (List Text × Text)) [
          | none ↦ none
          | some (before, z) ↦ some (x ∷ before, z)
        ]
          ≡ some (ls, close)
        → Found (x ∷ xs) ls close
    later f t c none q k = absurd (ground arith)
    later found t c (some (before, z)) q k =
        let f = found before z q in
        let l : ls ≡ x ∷ before = ground arith in
        let m : close ≡ z = ground arith in
        rw l
          (rw m (ap (λ t. x ++ t) f.0 ∙ sym (append_assoc x (concat before) z), ((t, c), f.1), f.2))

-- The lines of a text with the closing delimiter, found again.
pub find_close-split_lines :
    (t : Text) (ls : List Text) (close : Text)
    → find_close (split_lines t) ≡ some (ls, close)
    → (t ≡ concat ls ++ close) × All IsContent ls × IsClosing close
find_close-split_lines t ls close h =
    let f = find_close-Found (split_lines t) ls close (Terminates-split_lines t) h in
    (sym (concat-split_lines t) ∙ f.0, f.1, f.2)

pub split_lines-content :
    (ls : List Text) (rest : Text)
    → All IsContent ls
    → split_lines (concat ls ++ rest) ≡ ls ++ split_lines rest
split_lines-content [] rest a = refl
split_lines-content (l ∷ ls) rest (((w, q, k), c), a) =
    ap (λ (x : Text). split_lines ((x ++ concat ls) ++ rest)) q
    ∙ ap split_lines (
        ap (λ (x : Text). x ++ rest) (append_assoc w (b'\n' ∷ []) (concat ls))
        ∙ append_assoc w (b'\n' ∷ concat ls) rest)
    ∙ split_lines-append w (concat ls ++ rest) k
    ∙ (λ i. sym q i ∷ split_lines-content ls rest a i)

find_close-closing :
    (close : Text) → IsClosing close → find_close (split_lines close) ≡ some ([], close)
unfolding find_close
find_close-closing close (w, rest, q, k, c) = rw q (
    rw (split_lines-append w rest k) (
      rw (ends-append w) (
        rw c (
          ap (λ (x : Text). some ([], x))
            (append_assoc w (b'\n' ∷ []) (concat (split_lines rest))
              ∙ ap (λ (x : Text). w ++ b'\n' ∷ x) (concat-split_lines rest))))))

find_close-append :
    (ls xs : List Text) (close : Text)
    → All IsContent ls
    → find_close xs ≡ some ([], close)
    → find_close (ls ++ xs) ≡ some (ls, close)
unfolding find_close
find_close-append [] xs close a h = h
find_close-append (l ∷ ls) xs close (((w, q, k), c), a) h =
    let e : ends_with_line_ending l ≡ true = ap ends_with_line_ending q ∙ ends-append w in
    ground (arith, e, c, find_close-append ls xs close a h)

-- Lines of a frontmatter with the closing delimiter behind them are cut as they are.
pub find_close-content :
    (ls : List Text) (close : Text)
    → All IsContent ls
    → IsClosing close
    → find_close (split_lines (concat ls ++ close)) ≡ some (ls, close)
find_close-content ls close a z =
    ap find_close (split_lines-content ls close a)
    ∙ find_close-append ls (split_lines close) close a (find_close-closing close z)

trim_left-end :
    (p : ℕ → Bool) (xs : Text) (c : ℕ)
    → p c ≡ false
    → trim_left p (xs ++ c ∷ []) ≡ trim_left p xs ++ c ∷ []
unfolding trim_left
trim_left-end p [] c h = ground arith
trim_left-end p (x ∷ xs) c h = ground (arith, trim_left-end p xs c h)

-- A line that begins with another byte is no closing delimiter.
pub is_close-cons :
    (c : ℕ) (s : Text)
    → (c == b'-') ≡ false
    → (c == b'\r') ≡ false
    → (c == b'\n') ≡ false
    → is_close (c ∷ s) ≡ false
unfolding is_close trim_right text_eq
is_close-cons c s a b d =
    let p : ℕ → Bool = λ x. x == b'\r' || x == b'\n' in
    let e : trim_left p (reverse (c ∷ s)) ≡ trim_left p (reverse s) ++ c ∷ [] =
      ap (trim_left p) (reverse-cons c s) ∙ trim_left-end p (reverse s) c (ground arith) in
    rw e (rw reverse-append (ground arith))
