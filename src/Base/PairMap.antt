-- ===== src/Base/PairMap.antt =====
-- A Go map whose key is a struct of a name and a kind, as an association list in the order of
-- insertion. No key occurs twice in a map that is built by these operations.
use mathlib.Core.Path.{◌≡◌, refl}
use mathlib.Core.Bool.{Bool, ◌&&◌}
use mathlib.Core.Option.{Option, none, some}
use mathlib.Core.List.{List, [], ◌∷◌}
use native.Mathlib.Omega.{arith}
use forge_development_hub_cl.Base.Logic.{if◌then◌else◌}
use forge_development_hub_cl.Base.Bytes.{Text, text_eq, text_eq_iff}

abbrev pub PairMap {ℓ} : Type ℓ → Type ℓ
PairMap V = List (Text × Text × V)

abbrev pub same_key : Text → Text → Text → Text → Bool
same_key n k n' k' = text_eq n n' && text_eq k k'

module _ {ℓ} {V : Type ℓ} where
  unfoldable pub get : Text → Text → PairMap V → Option V
  unfolding text_eq
  get n k [] = none
  get n k ((n', k', v) ∷ m) = let rest = get n k m in if same_key n' k' n k then some v else rest

  unfoldable pub put : Text → Text → V → PairMap V → PairMap V
  unfolding text_eq
  put n k v [] = (n, k, v) ∷ []
  put n k v ((n', k', w) ∷ m) =
      let rest = put n k v m in if same_key n' k' n k then (n, k, v) ∷ m else (n', k', w) ∷ rest

  unfoldable pub remove : Text → Text → PairMap V → PairMap V
  unfolding text_eq
  remove n k [] = []
  remove n k ((n', k', w) ∷ m) =
      let rest = remove n k m in if same_key n' k' n k then rest else (n', k', w) ∷ rest

  pub get-put :
      (n k n' k' : Text) (v : V) (m : PairMap V)
      → get n' k' (put n k v m) ≡ (if same_key n k n' k' then some v else get n' k' m)
  unfolding get put
  get-put n k n' k' v [] = refl
  get-put n k n' k' v ((a, b, w) ∷ m) = ground (
    arith,
    get-put n k n' k' v m,
    text_eq_iff n n',
    text_eq_iff k k',
    text_eq_iff a n,
    text_eq_iff b k,
    text_eq_iff a n',
    text_eq_iff b k',
  )

  pub get-remove :
      (n k n' k' : Text) (m : PairMap V)
      → get n' k' (remove n k m) ≡ (if same_key n k n' k' then none else get n' k' m)
  unfolding get remove
  get-remove n k n' k' [] = ground arith
  get-remove n k n' k' ((a, b, w) ∷ m) = ground (
    arith,
    get-remove n k n' k' m,
    text_eq_iff n n',
    text_eq_iff k k',
    text_eq_iff a n,
    text_eq_iff b k,
    text_eq_iff a n',
    text_eq_iff b k',
  )
