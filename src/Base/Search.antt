-- ===== src/Base/Search.antt =====
-- Laws of `index`, `take` and `drop` for a needle whose first byte does not occur in it again.
use forge_development_hub_cl.Base.Logic.{all, length, ◌==◌}
use forge_development_hub_cl.Base.Bytes.{Text, has_prefix, index, take, drop}
use Prim.Native.Nat.{ℕ, zero, suc, ◌+◌}
use mathlib.Core.Path.{◌≡◌, refl, sym, ap, ◌∙◌}
use mathlib.Core.Logic.{◌≢◌}
use mathlib.Core.Bool.{true, not}
use mathlib.Core.Option.{none, some}
use mathlib.Core.List.{[], ◌∷◌, ◌++◌}
use native.Mathlib.Omega.{arith}

abbrev pub Lacks : ℕ → Text → Type 0
Lacks h s = all (λ c. not (c == h)) s ≡ true

has_prefix-append : (p rest : Text) → has_prefix (p ++ rest) p ≡ true
unfolding has_prefix
has_prefix-append [] rest = refl
has_prefix-append (c ∷ cs) rest = ground (arith, has_prefix-append cs rest)

-- A prefix that lacks the byte cannot reach past it.
has_prefix-Lacks :
    (h : ℕ) (w rest q : Text) → Lacks h q → has_prefix (w ++ h ∷ rest) q ≡ has_prefix w q
unfolding has_prefix
has_prefix-Lacks h [] rest [] l = refl
has_prefix-Lacks h [] rest (p ∷ ps) l = ground arith
has_prefix-Lacks h (c ∷ cs) rest [] l = refl
has_prefix-Lacks h (c ∷ cs) rest (p ∷ ps) l = ground (arith, has_prefix-Lacks h cs rest ps)

module _ (h : ℕ) (t : Text) (once : Lacks h t) where
  -- The needle is found right behind a text in which it does not occur.
  pub index-append :
      (f rest : Text)
      → index f (h ∷ t) ≡ none
      → index (f ++ h ∷ (t ++ rest)) (h ∷ t) ≡ some (length f)
  unfolding index
  index-append [] rest n = ground (arith, has_prefix-append t rest)
  index-append (c ∷ cs) rest n =
      ground (arith, has_prefix-Lacks h cs (t ++ rest) t once, index-append cs rest)

  pub index-none_append :
      (a b : Text)
      → index a (h ∷ t) ≡ none
      → index (h ∷ b) (h ∷ t) ≡ none
      → index (a ++ h ∷ b) (h ∷ t) ≡ none
  unfolding index
  index-none_append [] b n k = k
  index-none_append (c ∷ cs) b n k =
      ground (arith, has_prefix-Lacks h cs b t once, index-none_append cs b)

  pub index-skip : (a b : Text) → Lacks h a → index b (h ∷ t) ≡ none → index (a ++ b) (h ∷ t) ≡ none
  unfolding index
  index-skip [] b l n = n
  index-skip (c ∷ cs) b l n = ground (arith, index-skip cs b)

pub length-append : (a b : Text) → length (a ++ b) ≡ length a + length b
length-append [] b = omega arith
length-append (c ∷ cs) b = omega (arith, length-append cs b)

pub take-append : (f rest : Text) → take (length f) (f ++ rest) ≡ f
unfolding take
take-append [] rest = refl
take-append (c ∷ cs) rest = ground (arith, take-append cs rest)

pub drop-append : (f rest : Text) → drop (length f) (f ++ rest) ≡ rest
unfolding drop
drop-append [] rest = refl
drop-append (c ∷ cs) rest = drop-append cs rest

drop-nil : (n : ℕ) → drop n [] ≡ []
unfolding drop
drop-nil zero = refl
drop-nil (suc n) = refl

pub drop-add : (m n : ℕ) (s : Text) → drop (m + n) s ≡ drop n (drop m s)
unfolding drop
drop-add zero n s = ground arith
drop-add (suc m) n [] = drop-nil (suc m + n) ∙ sym (drop-nil n)
drop-add (suc m) n (c ∷ cs) =
    let e : suc m + n ≡ suc (m + n) = omega arith in
    ap (λ (k : ℕ). drop k (c ∷ cs)) e ∙ drop-add m n cs

-- A byte that the needle lacks, at the end of the text, does not make it occur.
pub index-none_concat :
    (h : ℕ) (p : Text)
    → Lacks h p
    → p ≢ []
    → (f : Text) → index f p ≡ none
    → index (f ++ h ∷ []) p ≡ none
unfolding index has_prefix
index-none_concat h [] l e f n = absurd (e refl)
index-none_concat h (p ∷ ps) l e [] n = ground arith
index-none_concat h (p ∷ ps) l e (c ∷ cs) n =
    ground (arith, has_prefix-Lacks h (c ∷ cs) [] (p ∷ ps) l, index-none_concat h (p ∷ ps) l e cs)
