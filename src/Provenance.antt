-- ===== src/Provenance.antt =====
-- The breadcrumb `installed_from` in the frontmatter of an installed file:
-- pkg/provenance/provenance.go. Offsets into the text are the parts that they cut it into.
pub mod Lines
pub mod Again
pub mod Inject
pub mod Overwrite
use forge_development_hub_cl.Base.{
  ℕ, ◌+◌, ◌-◌, Bool, true, false, not, ◌&&◌, ◌||◌, Option, none, some, List, [], ◌∷◌, ◌++◌, Text,
  codes, text_eq, is_empty, has_prefix, has_suffix, ltb, ◌==◌, if◌then◌else◌, length,
}
use forge_development_hub_cl.Base.Bytes.{trim_left, trim_right, take, drop, cut_prefix}

abbrev pub frontmatter_key : Text
frontmatter_key = codes "installed_from"

abbrev pub bom : Text
bom = 239 ∷ 187 ∷ 191 ∷ []

abbrev pub extend_line : ℕ → List Text → List Text
extend_line c [] = (c ∷ []) ∷ []
extend_line c (l ∷ ls) = (c ∷ l) ∷ ls

-- `splitLinesPreserve`
unfoldable pub split_lines : Text → List Text
split_lines [] = []
split_lines (c ∷ cs) =
    let rest = split_lines cs in if c == b'\n' then (c ∷ []) ∷ rest else extend_line c rest

abbrev pub concat : List Text → Text
concat [] = []
concat (l ∷ ls) = l ++ concat ls

abbrev pub starts_with_colon : Option Text → Bool
starts_with_colon none = false
starts_with_colon (some []) = false
starts_with_colon (some (c ∷ cs)) = c == b':'

-- `hasKeyPrefix`; too short a line does not have the key and a byte behind it.
unfoldable pub has_key_prefix : Text → Text → Bool
unfolding trim_left cut_prefix
has_key_prefix line key =
    starts_with_colon (cut_prefix (trim_left (λ c. c == b' ' || c == b'\t') line) key)

-- `bytes.Contains` of a carriage return and a line feed.
abbrev pub has_crlf : Text → Bool
has_crlf [] = false
has_crlf (c ∷ []) = false
has_crlf (c ∷ d ∷ cs) = let rest = has_crlf (d ∷ cs) in (c == b'\r' && d == b'\n') || rest

abbrev pub dominant_line_ending : Text → Text
dominant_line_ending b = if has_crlf b then codes "\r\n" else codes "\n"

unfoldable pub extract_line_ending : Text → Text → Text
unfolding has_suffix
extract_line_ending line fallback =
    if has_suffix line (codes "\r\n")
    then codes "\r\n"
    else if has_suffix line (codes "\n")
    then codes "\n"
    else fallback

-- `<key>: <value>`
abbrev pub breadcrumb : Text → Text → Text
breadcrumb key value = key ++ (b':' ∷ b' ' ∷ value)

-- The lines with the first line of the key replaced; `none` if there is none.
unfoldable pub replace_line : Text → Text → Text → List Text → Option (List Text)
unfolding has_key_prefix extract_line_ending
replace_line ending key value [] = none
replace_line ending key value (l ∷ ls) =
    let rest = replace_line ending key value ls in
    if has_key_prefix l key
    then some ((breadcrumb key value ++ extract_line_ending l ending) ∷ ls)
    else elim rest [ none ↦ none | some ls' ↦ some (l ∷ ls') ]

abbrev pub ends_with_line_ending : Text → Bool
ends_with_line_ending [] = false
ends_with_line_ending (c ∷ []) = c == b'\n'
ends_with_line_ending (c ∷ d ∷ cs) = ends_with_line_ending (d ∷ cs)

abbrev pub append_line : Text → Text → Text → Text
append_line out ending line =
    out
    ++ ((if not (is_empty out) && not (ends_with_line_ending out) then ending else [])
        ++ (line ++ ending))

abbrev pub replaced : Text → Text → Text → Option (List Text) → Text
replaced content key value none =
    append_line content (dominant_line_ending content) (breadcrumb key value)
replaced content key value (some ls) = concat ls

unfoldable pub replace_or_append_key : Text → Text → Text → Text
unfolding split_lines replace_line
replace_or_append_key content key value =
    replaced content key value
      (replace_line (dominant_line_ending content) key value (split_lines content))

unfoldable pub starts_with_frontmatter : Text → Bool
unfolding has_prefix
starts_with_frontmatter b = has_prefix b (codes "---\n") || has_prefix b (codes "---\r\n")

unfoldable pub frontmatter_open_end : Text → ℕ
unfolding has_prefix
frontmatter_open_end b = if has_prefix b (codes "---\r\n") then 5 else 4

-- A line with its end is the closing delimiter.
unfoldable pub is_close : Text → Bool
unfolding trim_right text_eq
is_close line = text_eq (trim_right (λ c. c == b'\r' || c == b'\n') line) (codes "---")

-- `findFrontmatterCloseRange` on the lines behind the opening delimiter: the lines in front of the
-- closing one, and the text from the closing one on. Only the last line can lack its end.
unfoldable pub find_close : List Text → Option (List Text × Text)
unfolding is_close
find_close [] = none
find_close (l ∷ ls) =
    let rest = find_close ls in
    if not (ends_with_line_ending l)
    then none
    else if is_close l
    then some ([], concat (l ∷ ls))
    else elim rest [ none ↦ none | some (before, close) ↦ some (l ∷ before, close) ]

-- The lines of the frontmatter, and the text from its closing delimiter on.
unfoldable pub located : Text → Option (List Text × Text)
unfolding find_close split_lines frontmatter_open_end drop
located src = find_close (split_lines (drop (frontmatter_open_end src) src))

abbrev pub fresh_frontmatter : Text → Text
fresh_frontmatter ref = codes "---\n" ++ (breadcrumb frontmatter_key ref ++ codes "\n---\n")

-- `append(bom, fm...)` when `bom` is a slice of the source: if the capacity behind it is enough,
-- the bytes land on those of the source behind `bom`.
unfoldable pub overwritten : ℕ → Text → Text → Text
unfolding take drop
overwritten room fm src =
    if ltb room (length fm) then src else take (length src) (fm ++ drop (length fm) src)

abbrev pub reassembled : Text → Text → Option (List Text × Text) → Text
reassembled src ref none = src
reassembled src ref (some (lines, close)) =
    take (frontmatter_open_end src) src
    ++ (replace_or_append_key (concat lines) frontmatter_key ref ++ close)

-- `InjectBreadcrumb` behind the byte order mark, with the capacity behind that.
unfoldable pub inject_rest : ℕ → Text → Text → Text
unfolding starts_with_frontmatter located replace_or_append_key frontmatter_open_end overwritten
    take
inject_rest room src ref =
    if not (starts_with_frontmatter src)
    then fresh_frontmatter ref ++ overwritten room (fresh_frontmatter ref) src
    else reassembled src ref (located src)

-- `InjectBreadcrumb` of a slice `src` of the given capacity.
unfoldable pub inject_breadcrumb : ℕ → Text → Text → Text
unfolding inject_rest has_prefix drop
inject_breadcrumb capacity src ref =
    if is_empty ref
    then src
    else if has_prefix src bom
    then bom ++ inject_rest (capacity - 3) (drop 3 src) ref
    else inject_rest 0 src ref

abbrev pub without_key : Text → List Text → List Text
without_key key [] = []
without_key key (l ∷ ls) =
    let rest = without_key key ls in if has_key_prefix l key then rest else l ∷ rest

abbrev pub stripped : Text → Option (List Text × Text) → Text
stripped src none = src
stripped src (some (lines, close)) =
    take (frontmatter_open_end src) src
    ++ (concat (without_key frontmatter_key (split_lines (concat lines))) ++ close)

unfoldable pub strip_breadcrumb : Text → Text
unfolding starts_with_frontmatter located frontmatter_open_end split_lines has_key_prefix take
strip_breadcrumb src = if not (starts_with_frontmatter src) then src else stripped src (located src)

-- `MakeBreadcrumbRef`
unfoldable pub make_breadcrumb_ref : Text → Text → Text → Text → Text
unfolding trim_right
make_breadcrumb_ref registry namespace name version =
    trim_right (λ c. c == b'/') registry
    ++ (b'/' ∷ (namespace ++ (b'/' ∷ (name ++ (b'@' ∷ version)))))
