-- ===== src/Hub/Paths.antt =====
-- `filepath.Clean` on slash-separated paths, and the two patterns of validate.go.
use forge_development_hub_cl.Base.{
  ℕ, Bool, true, false, not, ◌&&◌, ◌||◌, Option, none, some, List, [], ◌∷◌, ◌++◌, Text, codes,
  text_eq, is_empty, if◌then◌else◌, ◌==◌, leb, all, has_prefix,
}
use forge_development_hub_cl.Base.Bytes.{split, span, is_digit}

-- The elements that are kept, last first: `..` takes one back, and stays where none is left.
abbrev pub back : Bool → List Text → List Text
back rooted [] = if rooted then [] else codes ".." ∷ []
back rooted (p ∷ ps) = if text_eq p (codes "..") then codes ".." ∷ p ∷ ps else ps

unfoldable pub clean_elements : Bool → List Text → List Text → List Text
unfolding text_eq
clean_elements rooted kept [] = kept
clean_elements rooted kept (p ∷ ps) =
    clean_elements rooted
      (if is_empty p || text_eq p (codes ".")
        then kept
        else if text_eq p (codes "..")
        then back rooted kept
        else p ∷ kept)
      ps

abbrev pub join_last : List Text → Text → Text
join_last [] s = s
join_last (q ∷ qs) s = join_last qs (q ++ (b'/' ∷ s))

-- The kept elements in their order, with slashes between.
abbrev pub joined : List Text → Text
joined [] = []
joined (p ∷ ps) = join_last ps p

unfoldable pub clean : Text → Text
unfolding clean_elements split has_prefix
clean path =
    let rooted = has_prefix path (codes "/") in
    let body = joined (clean_elements rooted [] (split b'/' path)) in
    if rooted then b'/' ∷ body else if is_empty body then codes "." else body

abbrev lower_or_digit : ℕ → Bool
lower_or_digit c = (leb b'a' c && leb c b'z') || (leb b'0' c && leb c b'9')

-- `^[a-z0-9]+(?:-[a-z0-9]+)*$`: words of lowercase letters and digits, single dashes between.
unfoldable pub is_kebab : Text → Bool
unfolding split
is_kebab s = all (λ w. not (is_empty w) && all lower_or_digit w) (split b'-' s)

-- `\d+`, and the rest.
abbrev number_then : Text → Option Text
number_then s = let (ds, rest) = span is_digit s in if is_empty ds then none else some rest

abbrev dot_then : Text → Option Text
dot_then [] = none
dot_then (c ∷ cs) = if c == b'.' then some cs else none

infixl 5 ◌>>=◌
abbrev ◌>>=◌ : Option Text → (Text → Option Text) → Option Text
none >>= f = none
some a >>= f = f a

abbrev pre_release_byte : ℕ → Bool
pre_release_byte c =
    (leb b'0' c && leb c b'9')
    || (leb b'A' c && leb c b'Z')
    || (leb b'a' c && leb c b'z')
    || c == b'-'
    || c == b'.'

abbrev is_rest : Text → Bool
is_rest [] = true
is_rest (c ∷ cs) = c == b'-' && (not (is_empty cs) && all pre_release_byte cs)

-- `^\d+\.\d+\.\d+(?:-[0-9A-Za-z\-.]+)?$`
unfoldable pub is_semver : Text → Bool
unfolding span is_digit
is_semver s =
    let rest = (do
      a ← number_then s
      b ← dot_then a
      c ← number_then b
      d ← dot_then c
      number_then d) in
    elim rest [ none ↦ false | some r ↦ is_rest r ]
