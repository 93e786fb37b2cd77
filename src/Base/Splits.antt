-- ===== src/Base/Splits.antt =====
-- Laws of `split`, `span` and the trimming functions on texts whose bytes pass a test.
use mathlib.Core.List.{reverse-reverse, reverse-cons}
use forge_development_hub_cl.Base.Bytes.{
  Text, trim_left, trim_right, trim_space, split, span, is_space,
}
use forge_development_hub_cl.Base.Logic.{all, ◌==◌}
use Prim.Native.Nat.{ℕ}
use mathlib.Core.Path.{◌≡◌, refl}
use mathlib.Core.Bool.{Bool, true, not, ◌&&◌}
use mathlib.Core.List.{List, [], ◌∷◌, ◌++◌, reverse}
use native.Mathlib.Omega.{arith}

module _ {ℓ} {A : Type ℓ} where
  pub all-append : (p : A → Bool) (xs ys : List A) → all p (xs ++ ys) ≡ (all p xs && all p ys)
  all-append p [] ys = refl
  all-append p (x ∷ xs) ys = ground (arith, all-append p xs ys)

  pub all-reverse : (p : A → Bool) (xs : List A) → all p (reverse xs) ≡ all p xs
  all-reverse p [] = refl
  all-reverse p (x ∷ xs) = rw (reverse-cons, all-append) (ground (arith, all-reverse p xs))

  pub all-implies :
      (p q : A → Bool)
      → ((a : A) → p a ≡ true → q a ≡ true)
      → (xs : List A) → all p xs ≡ true
      → all q xs ≡ true
  all-implies p q f [] h = refl
  all-implies p q f (x ∷ xs) h = ground (arith, f x, all-implies p q f xs)

pub trim_left-all : (p : ℕ → Bool) (s : Text) → all (λ c. not (p c)) s ≡ true → trim_left p s ≡ s
unfolding trim_left
trim_left-all p [] h = refl
trim_left-all p (c ∷ cs) h = ground arith

pub trim_right-all : (p : ℕ → Bool) (s : Text) → all (λ c. not (p c)) s ≡ true → trim_right p s ≡ s
unfolding trim_right
trim_right-all p s h = rw (trim_left-all p (reverse s) (rw all-reverse h)) (reverse-reverse s)

pub trim_space-all : (s : Text) → all (λ c. not (is_space c)) s ≡ true → trim_space s ≡ s
unfolding trim_space
trim_space-all s h = rw (trim_left-all is_space s h) (trim_right-all is_space s h)

pub span-all : (p : ℕ → Bool) (s : Text) → all p s ≡ true → span p s ≡ (s, [])
unfolding span
span-all p [] h = refl
span-all p (c ∷ cs) h = ground (arith, span-all p cs)

-- What `span` takes passes the test.
pub all-span : (p : ℕ → Bool) (s : Text) → all p (span p s).0 ≡ true
unfolding span
all-span p [] = refl
all-span p (c ∷ cs) = ground (arith, all-span p cs)

pub split-all : (sep : ℕ) (w : Text) → all (λ c. not (c == sep)) w ≡ true → split sep w ≡ w ∷ []
unfolding split
split-all sep [] h = refl
split-all sep (c ∷ cs) h = ground (arith, split-all sep cs)

pub split-append :
    (sep : ℕ) (w rest : Text)
    → all (λ c. not (c == sep)) w ≡ true
    → split sep (w ++ sep ∷ rest) ≡ w ∷ split sep rest
unfolding split
split-append sep [] rest h = ground arith
split-append sep (c ∷ cs) rest h = ground (arith, split-append sep cs rest)
