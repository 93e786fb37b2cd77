-- ===== src/Instincts.antt =====
-- The files of instincts: pkg/instincts/format.go. A title's length is its number of bytes. The
-- confidence is a number that the source compares with 0 and 1, so it is kept as whether it is in
-- that range; the YAML codec, which reads and writes the fields but the body, is a parameter.
pub mod Ulid
pub mod Order
pub mod Letters
pub mod Clusters
pub mod Storage
use forge_development_hub_cl.Base.{
  ℕ, zero, suc, ◌+◌, ◌*◌, Bool, true, false, not, ◌&&◌, ◌||◌, Option, none, some, List, [], ◌∷◌,
  ◌++◌, Text, codes, is_empty, if◌then◌else◌, leb, ltb, ◌==◌, all, length, map,
}
use forge_development_hub_cl.Base.Bytes.{
  trim_space, trim_left, trim_right, has_prefix, index, take, drop, split, crlf_to_lf,
}

-- `Context`, and the fields that the code only carries, as what the codec makes of them.
pub record Instinct : Type 0 where
  pub id : Text
  pub title : Text
  pub confidence_ok : Bool
  pub domain : Text
  pub captured_by : Text
  pub captured_at : ℕ
  pub carried : Text
  pub body : Text

-- The bytes of `[0-9A-HJKMNP-TV-Z]`.
abbrev pub is_ulid_byte : ℕ → Bool
is_ulid_byte c =
    (leb b'0' c && leb c b'9')
    || (leb b'A' c && leb c b'H')
    || c == b'J'
    || c == b'K'
    || c == b'M'
    || c == b'N'
    || (leb b'P' c && leb c b'T')
    || (leb b'V' c && leb c b'Z')

-- `^[0-9A-HJKMNP-TV-Z]{26}$`
unfoldable pub is_ulid : Text → Bool
is_ulid s = length s == 26 && all is_ulid_byte s

unfoldable pub is_valid : Instinct → Bool
unfolding is_ulid trim_space
is_valid i =
    is_ulid i.id
    && not (is_empty (trim_space i.title))
    && leb (length i.title) 120
    && i.confidence_ok
    && not (is_empty (trim_space i.domain))
    && not (is_empty (trim_space i.captured_by))
    && not (i.captured_at == 0)
    && not (is_empty (trim_space i.body))

abbrev pub is_newline : ℕ → Bool
is_newline c = c == b'\n'

abbrev pub fm_delim : Text
fm_delim = codes "---\n"

unfoldable pub encoded_body : Text → Text
unfolding trim_right
encoded_body body = trim_right is_newline body ++ b'\n' ∷ []

-- The end of the frontmatter: the closing delimiter, or the start of one.
unfoldable pub closing : Text → Option ℕ
unfolding index
closing rest = elim (index rest (codes "\n---\n")) [
  | some end ↦ some end
  | none ↦ index rest (codes "\n---")
]

module _ (marshal : Instinct → Text) (unmarshal : Text → Option Instinct) where
  unfoldable pub encode : Instinct → Option Text
  unfolding is_valid encoded_body
  encode i =
      if not (is_valid i)
      then none
      else some (fm_delim ++ marshal i ++ fm_delim ++ b'\n' ∷ encoded_body i.body)

  abbrev pub with_body : Text → Option Instinct → Option Instinct
  with_body body none = none
  with_body body (some i) = some (record i { body = body })

  abbrev pub decoded_at : Text → Option ℕ → Option Instinct
  unfolding take drop trim_left
  decoded_at rest none = none
  decoded_at rest (some end) =
      with_body (trim_left is_newline (drop (end + 4) rest)) (unmarshal (take end rest))

  unfoldable pub decode : Text → Option Instinct
  unfolding closing has_prefix drop decoded_at
  decode text =
      if not (has_prefix text fm_delim)
      then none
      else decoded_at (drop 4 text) (closing (drop 4 text))

-- `strings.ReplaceAll(s, "\r", "\n")`
unfoldable pub cr_to_lf : Text → Text
cr_to_lf [] = []
cr_to_lf (c ∷ cs) = (if c == b'\r' then b'\n' else c) ∷ cr_to_lf cs

abbrev pub is_blank : ℕ → Bool
is_blank c = c == b' ' || c == b'\t'

unfoldable pub join_lines : List Text → Text
join_lines [] = []
join_lines (l ∷ []) = l
join_lines (l ∷ m ∷ ls) = l ++ b'\n' ∷ join_lines (m ∷ ls)

unfoldable pub normalize_body : Text → Text
unfolding cr_to_lf crlf_to_lf split join_lines trim_right trim_space
normalize_body s =
    trim_space (join_lines (map (trim_right is_blank) (split b'\n' (cr_to_lf (crlf_to_lf s)))))
