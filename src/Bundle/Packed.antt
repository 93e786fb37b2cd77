-- ===== src/Bundle/Packed.antt =====
-- The files that the archive of a bundle has, against those that its hash is of: collectTarEntries
-- and walkFiles of pkg/bundle.
use forge_development_hub_cl.Base.{
  ℕ, ◌+◌, Bool, true, false, ◌≡◌, ◌↔◌, refl, sym, ap, ◌∙◌, Option, none, some, List, [], ◌∷◌, ◌++◌,
  Text, if◌then◌else◌, length, arith, Bool-cases, inl, inr,
}
use forge_development_hub_cl.Base.Sort.{sort, length-sort}
use forge_development_hub_cl.Bundle.{
  Nodes, file, folder, link, special, end, entry, FileEntry, TarEntry, canonical_mode, is_hidden,
  inside, below, hashed, both, walk_nodes, walk_files, sorted_files, by_rel_path, packed, dir_entry,
  with_dir, collect_tar_entries,
}

-- The files of the archive as the hash sees them once they are extracted.
unfoldable pub files_of : (Text → Text) → List TarEntry → List FileEntry
files_of sha256 [] = []
files_of sha256 (e ∷ es) =
    let rest = files_of sha256 es in
    if e.is_dir
    then rest
    else record {
      rel_path = e.tar_path;
      mode = canonical_mode e.executable;
      content_sha256 = sha256 e.bytes;
    }
      ∷ rest

-- How many files the hash is of.
unfoldable pub visible : Nodes → ℕ
visible end = 0
visible (entry name (folder ns) rest) = visible ns + visible rest
visible (entry name (file x bytes) rest) = (if is_hidden name then 0 else 1) + visible rest
visible (entry name (link bytes) rest) = (if is_hidden name then 0 else 1) + visible rest
visible (entry name (special x bytes) rest) = (if is_hidden name then 0 else 1) + visible rest

-- How many of them are below a directory whose name starts with a dot.
unfoldable pub concealed : Nodes → ℕ
unfolding visible
concealed end = 0
concealed (entry name (folder ns) rest) =
    let inner = concealed ns in (if is_hidden name then visible ns else inner) + concealed rest
concealed (entry name (file x bytes) rest) = concealed rest
concealed (entry name (link bytes) rest) = concealed rest
concealed (entry name (special x bytes) rest) = concealed rest

length-append {ℓ} : {A : Type ℓ} (xs ys : List A) → length (xs ++ ys) ≡ length xs + length ys
length-append [] ys = omega arith
length-append (x ∷ xs) ys = omega (arith, length-append xs ys)

files_of-append :
    (sha256 : Text → Text) (es fs : List TarEntry)
    → files_of sha256 (es ++ fs) ≡ files_of sha256 es ++ files_of sha256 fs
unfolding files_of
files_of-append sha256 [] fs = refl
files_of-append sha256 (e ∷ es) fs = ground (arith, files_of-append sha256 es fs)

-- The two parts of a walk that succeeds.
record Parts {ℓ} {A : Type ℓ} (a b : Option (List A)) (out : List A) : Type ℓ where
  first : List A
  second : List A
  is_first : a ≡ some first
  is_second : b ≡ some second
  whole : out ≡ first ++ second

both-Parts {ℓ} :
    {A : Type ℓ} (a b : Option (List A)) (out : List A) → both a b ≡ some out → Parts a b out
both-Parts none b out h = cc
both-Parts (some xs) none out h = cc
both-Parts (some xs) (some ys) out h = record {
  first = xs;
  second = ys;
  is_first = refl;
  is_second = refl;
  whole = ground arith;
}

-- A file that is counted if its name is not hidden.
abbrev counted : Bool → ℕ
counted hidden = if hidden then 0 else 1

module _ (sha256 : Text → Text) where
  leaf-counted :
      (hidden : Bool) (rel : Text) (x : Bool) (bytes : Option Text)
      (later : Option (List FileEntry)) (n : ℕ) (fs : List FileEntry)
      → ((rest : List FileEntry) → later ≡ some rest → length rest ≡ n)
      → (if hidden then later else hashed sha256 rel x bytes later) ≡ some fs
      → length fs ≡ counted hidden + n
  leaf-counted true rel x bytes later n fs ih h = omega (arith, ih fs h)
  leaf-counted false rel x none later n fs ih h = cc
  leaf-counted false rel x (some b) none n fs ih h = cc
  leaf-counted false rel x (some b) (some rest) n fs ih h = ground (arith, ih rest refl)

  length-walk_nodes :
      (p : Text) (ns : Nodes) (fs : List FileEntry)
      → walk_nodes sha256 p ns ≡ some fs
      → length fs ≡ visible ns
  unfolding walk_nodes visible
  length-walk_nodes p end fs h = ground arith
  length-walk_nodes p (entry name (folder ns) rest) fs h =
      let parts =
        both-Parts (walk_nodes sha256 (below p name) ns) (walk_nodes sha256 p rest) fs h in
      rw (parts.whole, length-append parts.first parts.second)
        (omega (
          arith,
          length-walk_nodes (below p name) ns parts.first parts.is_first,
          length-walk_nodes p rest parts.second parts.is_second,
        ))
  length-walk_nodes p (entry name (file x bytes) rest) fs h =
      leaf-counted (is_hidden name) (inside p name) x bytes (walk_nodes sha256 p rest)
        (visible rest) fs (λ gs e. length-walk_nodes p rest gs e) h
  length-walk_nodes p (entry name (link bytes) rest) fs h =
      leaf-counted (is_hidden name) (inside p name) true bytes (walk_nodes sha256 p rest)
        (visible rest) fs (λ gs e. length-walk_nodes p rest gs e) h
  length-walk_nodes p (entry name (special x bytes) rest) fs h =
      leaf-counted (is_hidden name) (inside p name) x bytes (walk_nodes sha256 p rest)
        (visible rest) fs (λ gs e. length-walk_nodes p rest gs e) h

  -- What the archive of a part has, against the walk of it.
  record Same (hidden_files : ℕ) (es : List TarEntry) (fs : List FileEntry) : Type 0 where
    short : length (files_of sha256 es) + hidden_files ≡ length fs
    same : hidden_files ≡ 0 → files_of sha256 es ≡ fs

  leaf-Same :
      (hidden : Bool) (rel : Text) (x : Bool) (bytes : Option Text)
      (packed_later : Option (List TarEntry)) (later : Option (List FileEntry)) (n : ℕ)
      (es : List TarEntry) (fs : List FileEntry)
      → ((ds : List TarEntry) (gs : List FileEntry)
          → packed_later ≡ some ds
          → later ≡ some gs
          → Same n ds gs)
      → (if hidden then packed_later else packed rel x bytes packed_later) ≡ some es
      → (if hidden then later else hashed sha256 rel x bytes later) ≡ some fs
      → Same n es fs
  unfolding files_of
  leaf-Same true rel x bytes packed_later later n es fs ih t w = ih es fs t w
  leaf-Same false rel x none packed_later later n es fs ih t w = cc
  leaf-Same false rel x (some b) none later n es fs ih t w = cc
  leaf-Same false rel x (some b) (some ds) none n es fs ih t w = cc
  leaf-Same false rel x (some b) (some ds) (some gs) n es fs ih t w =
      let rest = ih ds gs refl refl in
      record { short = ground (arith, rest.short); same = λ z. ground (arith, rest.same z) }

  link-Same :
      (hidden : Bool) (rel : Text) (x : Bool) (bytes : Option Text)
      (packed_later : Option (List TarEntry)) (later : Option (List FileEntry)) (n : ℕ)
      (es : List TarEntry) (fs : List FileEntry)
      → ((ds : List TarEntry) (gs : List FileEntry)
          → packed_later ≡ some ds
          → later ≡ some gs
          → Same n ds gs)
      → (if hidden then packed_later else none) ≡ some es
      → (if hidden then later else hashed sha256 rel x bytes later) ≡ some fs
      → Same n es fs
  link-Same true rel x bytes packed_later later n es fs ih t w = ih es fs t w
  link-Same false rel x bytes packed_later later n es fs ih t w = cc

  hidden_folder-Same :
      (first second fs : List FileEntry) (n k : ℕ) (es : List TarEntry)
      → fs ≡ first ++ second
      → length first ≡ n
      → Same k es second
      → Same (n + k) es fs
  hidden_folder-Same [] second fs n k es e h s = record {
    short = rw e (omega (arith, s.short, h));
    same = λ z. s.same (omega (arith, z)) ∙ sym e;
  }
  hidden_folder-Same (f ∷ first) second fs n k es e h s = record {
    short = rw (e, length-append first second) (omega (arith, s.short, h));
    same = λ z. absurd (omega (arith, h, z));
  }

  folder-Same :
      (rel : Text) (inner later : Option (List TarEntry))
      (walk_inner walk_later : Option (List FileEntry)) (n k : ℕ) (es : List TarEntry)
      (fs : List FileEntry)
      → ((ds : List TarEntry) (gs : List FileEntry)
          → inner ≡ some ds
          → walk_inner ≡ some gs
          → Same n ds gs)
      → ((ds : List TarEntry) (gs : List FileEntry)
          → later ≡ some ds
          → walk_later ≡ some gs
          → Same k ds gs)
      → with_dir (dir_entry rel) (both inner later) ≡ some es
      → both walk_inner walk_later ≡ some fs
      → Same (n + k) es fs
  unfolding files_of
  folder-Same rel none later wi wl n k es fs a b t w = cc
  folder-Same rel (some ds) none wi wl n k es fs a b t w = cc
  folder-Same rel (some ds) (some es') none wl n k es fs a b t w = cc
  folder-Same rel (some ds) (some es') (some gs) none n k es fs a b t w = cc
  folder-Same rel (some ds) (some es') (some gs) (some gs') n k es fs a b t w =
      let one = a ds gs refl refl in
      let two = b es' gs' refl refl in
      record {
        short = ground (
          arith,
          one.short,
          two.short,
          files_of-append sha256 ds es',
          length-append (files_of sha256 ds) (files_of sha256 es'),
          length-append gs gs',
        );
        same = λ z. ground (arith, one.same, two.same, files_of-append sha256 ds es');
      }

  collect-Same :
      (p : Text) (ns : Nodes) (es : List TarEntry) (fs : List FileEntry)
      → collect_tar_entries p ns ≡ some es
      → walk_nodes sha256 p ns ≡ some fs
      → Same (concealed ns) es fs
  unfolding walk_nodes collect_tar_entries files_of concealed
  collect-Same p end es fs t w = record { short = ground arith; same = λ z. ground arith }
  collect-Same p (entry name (file x bytes) rest) es fs t w =
      leaf-Same (is_hidden name) (inside p name) x bytes (collect_tar_entries p rest)
        (walk_nodes sha256 p rest) (concealed rest) es fs (λ ds gs. collect-Same p rest ds gs) t w
  collect-Same p (entry name (link bytes) rest) es fs t w =
      link-Same (is_hidden name) (inside p name) true bytes (collect_tar_entries p rest)
        (walk_nodes sha256 p rest) (concealed rest) es fs (λ ds gs. collect-Same p rest ds gs) t w
  collect-Same p (entry name (special x bytes) rest) es fs t w =
      link-Same (is_hidden name) (inside p name) x bytes (collect_tar_entries p rest)
        (walk_nodes sha256 p rest) (concealed rest) es fs (λ ds gs. collect-Same p rest ds gs) t w
  collect-Same p (entry name (folder ns) rest) es fs t w = elim (Bool-cases (is_hidden name)) [
    | inl e ↦
        let parts =
          both-Parts (walk_nodes sha256 (below p name) ns) (walk_nodes sha256 p rest) fs w in
        rw e (
          hidden_folder-Same parts.first parts.second fs (visible ns) (concealed rest) es
            parts.whole (length-walk_nodes (below p name) ns parts.first parts.is_first)
            (collect-Same p rest es parts.second (rw e at t) parts.is_second))
    | inr e ↦ rw e (
        folder-Same (inside p name) (collect_tar_entries (below p name) ns)
          (collect_tar_entries p rest) (walk_nodes sha256 (below p name) ns)
          (walk_nodes sha256 p rest) (concealed ns) (concealed rest) es fs
          (λ ds gs. collect-Same (below p name) ns ds gs) (λ ds gs. collect-Same p rest ds gs)
          (rw e at t) w)
  ]

sorted-some :
    (sha256 : Text → Text) (ns : Nodes) (fs : List FileEntry)
    → walk_files sha256 ns ≡ some fs
    → (gs : List FileEntry) × (walk_nodes sha256 [] ns ≡ some gs) × (sort by_rel_path gs ≡ fs)
unfolding walk_files
sorted-some sha256 ns fs h = sorted_from (walk_nodes sha256 [] ns) refl h
  where
    sorted_from :
        (walked : Option (List FileEntry))
        → walk_nodes sha256 [] ns ≡ walked
        → sorted_files walked ≡ some fs
        → (gs : List FileEntry) × (walk_nodes sha256 [] ns ≡ some gs) × (sort by_rel_path gs ≡ fs)
    sorted_from none e k = cc
    sorted_from (some gs) e k = (gs, e, ground arith)

-- If the archive of a directory is made and its files are listed for the hash, then the files of
-- the archive, listed as the hash lists them, are that list exactly when no file whose name is
-- visible lies below a directory whose name starts with a dot.
pub collect-walk_files :
    (sha256 : Text → Text) (ns : Nodes) (es : List TarEntry) (fs : List FileEntry)
    → collect_tar_entries [] ns ≡ some es
    → walk_files sha256 ns ≡ some fs
    → (sort by_rel_path (files_of sha256 es) ≡ fs) ↔ (concealed ns ≡ 0)
collect-walk_files sha256 ns es fs t w =
    let (gs, walked, sorted) = sorted-some sha256 ns fs w in
    let s = collect-Same sha256 [] ns es gs t walked in
    let long : length fs ≡ length gs = ap length (sym sorted) ∙ length-sort by_rel_path gs in
    (
      λ same.
          let short = length-sort by_rel_path (files_of sha256 es) in
          omega (arith, short, long, s.short, ap length same),
      λ z. ap (sort by_rel_path) (s.same z) ∙ sorted,
    )
