-- ===== src/Update/Files.antt =====
-- What `computeFileDiff` reports of two listings.
use forge_development_hub_cl.Base.{
  Bool, true, false, not, ◌&&◌, ◌≡◌, ◌∙◌, refl, Option, none, some, List, [], ◌∷◌, Text, text_eq,
  text_eq_iff, contains, arith,
}
use forge_development_hub_cl.Base.Order.{contains-sort}
use forge_development_hub_cl.Update.{FileInfo, file_hash, only_in, changed_in, diff_files}

abbrev is_there : Option Text → Bool
is_there none = false
is_there (some h) = true

-- Both sides have the file, with two contents.
abbrev pub differ : Option Text → Option Text → Bool
differ (some a) (some b) = not (text_eq a b)
differ _ _ = false

-- Whether a listing has a file of the path.
abbrev pub has_file : List FileInfo → Text → Bool
has_file fs q = is_there (file_hash fs q)

-- No path occurs twice, as in a walk over a directory.
abbrev pub IsListing : List FileInfo → Type 0
IsListing [] = Unit
IsListing (f ∷ fs) = (file_hash fs f.rel ≡ none) × IsListing fs

contains-only_in :
    (other fs : List FileInfo) (q : Text)
    → contains (only_in other fs) q ≡ (has_file fs q && not (has_file other q))
unfolding only_in file_hash contains
contains-only_in other [] q = refl
contains-only_in other (f ∷ fs) q = ground (arith, contains-only_in other fs q, text_eq_iff f.rel q)

contains-changed_in :
    (other fs : List FileInfo) (q : Text)
    → IsListing fs
    → contains (changed_in other fs) q ≡ differ (file_hash other q) (file_hash fs q)
unfolding changed_in file_hash contains
contains-changed_in other [] q l = ground arith
contains-changed_in other (f ∷ fs) q (l, ls) =
    ground (arith, contains-changed_in other fs q ls, text_eq_iff f.rel q, l)

-- When no path occurs twice in the hub's listing, the added paths are exactly those that only the
-- hub has, the deleted ones those that only the install has, and the modified ones those that
-- both have with different hashes.
pub diff_files-contains :
    (installed hub : List FileInfo) (q : Text)
    → IsListing hub
    → (contains (diff_files installed hub).added q ≡ (has_file hub q && not (has_file installed q)))
      × (contains (diff_files installed hub).deleted q
          ≡ (has_file installed q && not (has_file hub q)))
      × (contains (diff_files installed hub).modified q
          ≡ differ (file_hash installed q) (file_hash hub q))
unfolding diff_files
diff_files-contains installed hub q l = (
  contains-sort (only_in installed hub) q ∙ contains-only_in installed hub q,
  contains-sort (only_in hub installed) q ∙ contains-only_in hub installed q,
  contains-sort (changed_in installed hub) q ∙ contains-changed_in installed hub q l,
)
