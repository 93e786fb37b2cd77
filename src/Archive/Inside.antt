-- ===== src/Archive/Inside.antt =====
-- Where the files of an archive are written: extractTarGz of pkg/registry/git.go.
use forge_development_hub_cl.Base.{
  ℕ, Bool, true, false, not, ◌||◌, ◌≡◌, refl, Option, none, some, List, [], ◌∷◌, ◌++◌, Text, codes,
  text_eq, is_empty, ◌==◌, all, All, has_prefix, arith, Bool-cases, inl, inr,
}
use forge_development_hub_cl.Base.Bytes.{split, contains, cons_head}
use forge_development_hub_cl.Base.Splits.{split-all, split-append}
use forge_development_hub_cl.Hub.Paths.{clean, clean_elements, joined, join_last, back}
use forge_development_hub_cl.Archive.{
  TypeFlag, tar_dir, tar_reg, tar_other, Header, Effect, made_dirs, wrote, Extraction, target,
  is_inside, extract_tar, dir, stopped_at, one_entry,
}

abbrev LacksSlash : Text → Type 0
LacksSlash e = all (λ c. not (c == b'/')) e ≡ true

-- The path has no element `..`.
abbrev pub goes_up : Text → Bool
goes_up path = contains (split b'/' path) (codes "..")

cons_head-LacksSlash :
    (c : ℕ) (ws : List Text)
    → c == b'/' ≡ false
    → All LacksSlash ws
    → All LacksSlash (cons_head c ws)
unfolding cons_head
cons_head-LacksSlash c [] e h = (rw e refl, tt)
cons_head-LacksSlash c (w ∷ ws) e h = (rw e h.0, h.1)

split-LacksSlash : (s : Text) → All LacksSlash (split b'/' s)
unfolding split
split-LacksSlash [] = (refl, tt)
split-LacksSlash (c ∷ cs) = elim (Bool-cases (c == b'/')) [
  | inl e ↦ rw e (refl, split-LacksSlash cs)
  | inr e ↦ rw e (cons_head-LacksSlash c (split b'/' cs) e (split-LacksSlash cs))
]

contains-join_last :
    (qs : List Text) (s : Text)
    → All LacksSlash qs
    → contains (split b'/' (join_last qs s)) (codes "..")
      ≡ (contains qs (codes "..") || contains (split b'/' s) (codes ".."))
unfolding contains
contains-join_last [] s h = refl
contains-join_last (q ∷ qs) s h =
    rw (contains-join_last qs (q ++ b'/' ∷ s) h.1, split-append b'/' q s h.0) (ground arith)

-- The elements that are kept for a path with a root.
abbrev IsPlain : Text → Type 0
IsPlain e = ((is_empty e || text_eq e (codes ".")) ≡ false) × (text_eq e (codes "..") ≡ false)

record IsKept (kept : List Text) : Type 0 where
  plain : All IsPlain kept
  slashes : All LacksSlash kept
  ups : contains kept (codes "..") ≡ false

back-IsKept : (kept : List Text) → IsKept kept → IsKept (back true kept)
unfolding contains
back-IsKept [] k = k
back-IsKept (p ∷ ps) k =
    let down : text_eq p (codes "..") ≡ false = ground (arith, k.ups) in
    rw down (record { plain = k.plain.1; slashes = k.slashes.1; ups = ground (arith, k.ups) })

clean_elements-IsKept :
    (kept ps : List Text) → IsKept kept → All LacksSlash ps → IsKept (clean_elements true kept ps)
unfolding clean_elements contains
clean_elements-IsKept kept [] k h = k
clean_elements-IsKept kept (p ∷ ps) k h = elim (Bool-cases (is_empty p || text_eq p (codes "."))) [
  | inl skipped ↦ rw skipped (clean_elements-IsKept kept ps k h.1)
  | inr named ↦ elim (Bool-cases (text_eq p (codes ".."))) [
    | inl up ↦ rw (named, up) (clean_elements-IsKept (back true kept) ps (back-IsKept kept k) h.1)
    | inr down ↦
        rw (named, down)
          (clean_elements-IsKept (p ∷ kept) ps
            (record {
              plain = ((named, down), k.plain);
              slashes = (h.0, k.slashes);
              ups = rw (down, k.ups) refl;
            })
            h.1)
  ]
]

joined-goes_up : (kept : List Text) → IsKept kept → goes_up (joined kept) ≡ false
unfolding contains split
joined-goes_up [] k = refl
joined-goes_up (p ∷ ps) k =
    rw (contains-join_last ps p k.slashes.1, split-all b'/' p k.slashes.0) (ground (arith, k.ups))

abbrev elements : Text → List Text
elements path = clean_elements true [] (split b'/' (b'/' ∷ path))

elements-IsKept : (path : Text) → IsKept (elements path)
unfolding contains
elements-IsKept path =
    clean_elements-IsKept [] (split b'/' (b'/' ∷ path))
      (record { plain = tt; slashes = tt; ups = refl }) (split-LacksSlash (b'/' ∷ path))

clean-elements : (path : Text) → clean (b'/' ∷ path) ≡ b'/' ∷ joined (elements path)
unfolding clean has_prefix
clean-elements path = refl

-- A cleaned path with a root has no element `..`.
clean-goes_up : (path : Text) → goes_up (clean (b'/' ∷ path)) ≡ false
unfolding split contains
clean-goes_up path =
    rw (clean-elements path) (joined-goes_up (elements path) (elements-IsKept path))

abbrev reverse_onto : List Text → List Text → List Text
reverse_onto [] ts = ts
reverse_onto (q ∷ qs) ts = reverse_onto qs (q ∷ ts)

split-join_last :
    (qs : List Text) (s : Text)
    → All LacksSlash qs
    → split b'/' (join_last qs s) ≡ reverse_onto qs (split b'/' s)
split-join_last [] s h = refl
split-join_last (q ∷ qs) s h =
    rw (split-join_last qs (q ++ b'/' ∷ s) h.1, split-append b'/' q s h.0) refl

clean_elements-reverse_onto :
    (acc qs ts : List Text)
    → All IsPlain qs
    → clean_elements true acc (reverse_onto qs ts) ≡ clean_elements true (qs ++ acc) ts
unfolding clean_elements
clean_elements-reverse_onto acc [] ts h = refl
clean_elements-reverse_onto acc (q ∷ qs) ts h =
    rw (clean_elements-reverse_onto acc qs (q ∷ ts) h.1, h.0.0, h.0.1) refl

append-nil : (qs : List Text) → qs ++ [] ≡ qs
append-nil [] = refl
append-nil (q ∷ qs) = rw (append-nil qs) refl

-- Cleaning the path of kept elements keeps them.
clean-joined : (kept : List Text) → IsKept kept → clean (b'/' ∷ joined kept) ≡ b'/' ∷ joined kept
unfolding clean split has_prefix clean_elements
clean-joined [] k = refl
clean-joined (p ∷ ps) k =
    rw
      (
        split-join_last ps p k.slashes.1,
        split-all b'/' p k.slashes.0,
        clean_elements-reverse_onto [] ps (p ∷ []) k.plain.1,
        k.plain.0.0,
        k.plain.0.1,
        append-nil ps,
      )
      refl

clean-clean : (path : Text) → clean (clean (b'/' ∷ path)) ≡ clean (b'/' ∷ path)
clean-clean path = rw (clean-elements path) (clean-joined (elements path) (elements-IsKept path))

-- The path lies below the destination, and none of its elements is `..`.
abbrev pub IsBelow : Text → Text → Type 0
IsBelow dest path =
    (has_prefix (path ++ codes "/") (clean dest ++ codes "/") ≡ true) × (goes_up path ≡ false)

-- Files are below the destination; directories are without `..`.
abbrev pub IsSafe : Text → Effect → Type 0
IsSafe dest (made_dirs path) = goes_up path ≡ false
IsSafe dest (wrote path content executable) = IsBelow dest path

module _ (d name : Text) where
  target-goes_up : goes_up (target (b'/' ∷ d) name) ≡ false
  target-goes_up = clean-goes_up (d ++ (codes "/" ++ name))

  dir-goes_up : goes_up (dir (target (b'/' ∷ d) name)) ≡ false
  dir-goes_up =
      let below = joined (elements (d ++ (codes "/" ++ name))) in
      rw (clean-elements (d ++ (codes "/" ++ name))) (clean-goes_up (below ++ codes "/.."))

  target-IsBelow :
      is_inside (b'/' ∷ d) (target (b'/' ∷ d) name) ≡ true
      → IsBelow (b'/' ∷ d) (target (b'/' ∷ d) name)
  unfolding is_inside
  target-IsBelow h = (rw (clean-clean (d ++ (codes "/" ++ name))) at h, target-goes_up)

module _ (mkdir_ok write_ok : Text → Bool) (left : Text → Option Text) (d : Text) (h : Header) where
  partial :
      (path : Text) (o : Option Text)
      → IsBelow (b'/' ∷ d) path
      → All (IsSafe (b'/' ∷ d)) (stopped_at path o).effects
  partial path none below = tt
  partial path (some part) below = (below, tt)

  one_entry-IsSafe :
      (flag : TypeFlag)
      → is_inside (b'/' ∷ d) (target (b'/' ∷ d) h.name) ≡ true
      → (rest : Extraction) → All (IsSafe (b'/' ∷ d)) rest.effects
      → All
          (IsSafe (b'/' ∷ d))
          (one_entry mkdir_ok write_ok left flag (target (b'/' ∷ d) h.name) h rest).effects
  one_entry-IsSafe tar_dir below rest safe =
      elim (Bool-cases (mkdir_ok (target (b'/' ∷ d) h.name))) [
        | inl ok ↦ rw ok (target-goes_up d h.name, safe)
        | inr bad ↦ rw bad tt
      ]
  one_entry-IsSafe tar_reg below rest safe =
      let path = target (b'/' ∷ d) h.name in
      elim (Bool-cases (mkdir_ok (dir path))) [
        | inr bad ↦ rw bad tt
        | inl ok ↦ elim (Bool-cases (write_ok path)) [
          | inl good ↦ rw (ok, good) (dir-goes_up d h.name, (target-IsBelow d h.name below, safe))
          | inr bad ↦
              rw (ok, bad)
                (dir-goes_up d h.name, partial path (left path) (target-IsBelow d h.name below))
        ]
      ]
  one_entry-IsSafe tar_other below rest safe = safe

-- Every file that extractTarGz writes lies below the destination, an absolute path, and no element
-- of its path is `..`, whatever the names in the archive; the directories that it makes have no
-- such element either.
pub extract_tar-IsSafe :
    (mkdir_ok write_ok : Text → Bool) (left : Text → Option Text) (d : Text)
    (hs : List (Option Header))
    → All (IsSafe (b'/' ∷ d)) (extract_tar mkdir_ok write_ok left (b'/' ∷ d) hs).effects
unfolding extract_tar
extract_tar-IsSafe mkdir_ok write_ok left d [] = tt
extract_tar-IsSafe mkdir_ok write_ok left d (none ∷ hs) = tt
extract_tar-IsSafe mkdir_ok write_ok left d (some h ∷ hs) =
    elim (Bool-cases (is_inside (b'/' ∷ d) (target (b'/' ∷ d) h.name))) [
      | inl below ↦ rw below (
          one_entry-IsSafe mkdir_ok write_ok left d h h.flag below
            (extract_tar mkdir_ok write_ok left (b'/' ∷ d) hs)
            (extract_tar-IsSafe mkdir_ok write_ok left d hs))
      | inr outside ↦ rw outside tt
    ]
