-- ===== src/Semver/Highest.antt =====
-- What HighestSatisfying picks: pkg/consumermanifest/semver.go.
use mathlib.Core.Bool.{◌||◌}
use mathlib.Core.Bool.{false≢true}
use forge_development_hub_cl.Base.{
  text_eq_refl, sym, ap, ◌∙◌, Bool, ◌≤◌, ◌<◌, ◌≡◌, ◌⊎◌, inl, inr, refl, true, false, not, Option,
  none, some, List, [], ◌∷◌, Text, contains, is_empty, arith, All, Bool-cases, if◌then◌else◌,
}
use forge_development_hub_cl.Semver.{
  zero_version, highest_satisfying, Constraint, Version, parse_semver, matches, greater, improve,
  scan_versions,
}

-- The version text satisfies the constraint and parses.
abbrev pub Candidate : Constraint → Text → Version → Type 0
Candidate c v sv = (matches c v ≡ true) × (parse_semver v ≡ some sv)

-- The order of versions, without pre-releases: major, then minor, then patch.
abbrev pub NotNewer : Version → Version → Type 0
NotNewer a b =
    (a.major < b.major)
    ⊎ ((a.major ≡ b.major) × ((a.minor < b.minor) ⊎ ((a.minor ≡ b.minor) × (a.patch ≤ b.patch))))

abbrev pub Bounds : Constraint → Version → Text → Type 0
Bounds c best v = (sv : Version) → Candidate c v sv → NotNewer sv best

-- The text does not satisfy the constraint; or the constraint is of any version, and the text does
-- not parse.
abbrev pub IsPassedOver : Constraint → Text → Type 0
IsPassedOver c v = (matches c v ≡ false) ⊎ ((c.any_version ≡ true) × (parse_semver v ≡ none))

-- The result is empty and every version is passed over, or the result is one of the versions,
-- satisfies the constraint and parses, and no version that does has higher numbers.
abbrev pub IsHighest : Constraint → List Text → Text → Type 0
IsHighest c vs r =
    ((r ≡ []) × All (IsPassedOver c) vs)
    ⊎ ((best : Version) × (contains vs r ≡ true) × Candidate c r best × All (Bounds c best) vs)

unparsed :
    (c : Constraint) (v : Text) → parse_semver v ≡ none → matches c v ≡ true → c.any_version ≡ true
unfolding matches
unparsed c v p h = ground arith

passed_over : (c : Constraint) (v : Text) → ((sv : Version) → ¬ Candidate c v sv) → IsPassedOver c v
passed_over c v never = elim (Bool-cases (matches c v)) [
  | inr m ↦ inl m
  | inl m ↦ go m (parse_semver v) refl
]
  where
    go : matches c v ≡ true → (p : Option Version) → parse_semver v ≡ p → IsPassedOver c v
    go m none e = inr (unparsed c v e m, e)
    go m (some sv) e = absurd (never sv (m, e))

greater-NotNewer : (a b : Version) → greater a b ≡ false → NotNewer a b
unfolding greater
greater-NotNewer a b h = ground arith

parse_semver-nonempty : (v : Text) (sv : Version) → parse_semver v ≡ some sv → is_empty v ≡ false
unfolding parse_semver
parse_semver-nonempty [] sv h = cc
parse_semver-nonempty (c ∷ cs) sv h = refl

-- The state holds a version that is at least `sv`.
abbrev Reaches : Version → Text × Version → Type 0
Reaches sv s = (is_empty s.0 ≡ false) × (greater sv s.1 ≡ false)

round : Constraint → Text → Text × Version → Text × Version
round c v s = if not (matches c v) then s else improve v s (parse_semver v)

improve-Reaches :
    (v : Text) (s : Text × Version) (p : Option Version) (sv : Version)
    → ((w : Version) → p ≡ some w → is_empty v ≡ false)
    → Reaches sv s
    → Reaches sv (improve v s p)
unfolding greater
improve-Reaches v (best, bv) none sv nonempty h = h
improve-Reaches v (best, bv) (some w) sv nonempty h = ground (arith, nonempty w refl)

round-Reaches :
    (c : Constraint) (v : Text) (s : Text × Version) (sv : Version)
    → Reaches sv s
    → Reaches sv (round c v s)
unfolding round
round-Reaches c v s sv h = elim (Bool-cases (matches c v)) [
  | inl e ↦ rw e (improve-Reaches v s (parse_semver v) sv (parse_semver-nonempty v) h)
  | inr e ↦ rw e h
]

round-Candidate :
    (c : Constraint) (v : Text) (s : Text × Version) (sv : Version)
    → Candidate c v sv
    → Reaches sv (round c v s)
unfolding round greater
round-Candidate c v (best, bv) sv (m, p) = rw (m, p) (ground (arith, parse_semver-nonempty v sv p))

scan-Reaches :
    (c : Constraint) (vs : List Text) (s : Text × Version) (sv : Version)
    → Reaches sv s
    → Reaches sv (scan_versions c vs s)
unfolding scan_versions round
scan-Reaches c [] s sv h = h
scan-Reaches c (v ∷ vs) s sv h = scan-Reaches c vs (round c v s) sv (round-Reaches c v s sv h)

scan-Candidate :
    (c : Constraint) (vs : List Text) (s : Text × Version)
    → All (λ v. (sv : Version) → Candidate c v sv → Reaches sv (scan_versions c vs s)) vs
unfolding scan_versions round
scan-Candidate c [] s = tt
scan-Candidate c (v ∷ vs) s = (
  λ sv k. scan-Reaches c vs (round c v s) sv (round-Candidate c v s sv k),
  scan-Candidate c vs (round c v s),
)

-- The scan kept its state, or took one of the versions.
abbrev Source : Constraint → List Text → Text × Version → Text × Version → Type 0
Source c vs s f = (f ≡ s) ⊎ ((contains vs f.0 ≡ true) × Candidate c f.0 f.1)

round-Source : (c : Constraint) (v : Text) (s : Text × Version) → Source c (v ∷ []) s (round c v s)
unfolding round greater contains
round-Source c v (best, bv) = go (matches c v) refl (parse_semver v) refl
  where
    go :
        (m : Bool)
        → matches c v ≡ m
        → (p : Option Version) → parse_semver v ≡ p
        → Source c (v ∷ []) (best, bv) (if not m then (best, bv) else improve v (best, bv) p)
    go false m p e = inl refl
    go true m none e = inl refl
    go true m (some sv) e = elim (Bool-cases (is_empty best || greater sv bv)) [
      | inl t ↦ rw t (inr (simp text_eq_refl, (m, e)))
      | inr t ↦ rw t (inl refl)
    ]

Source-cons :
    (c : Constraint) (v : Text) (vs : List Text) (s t f : Text × Version)
    → Source c (v ∷ []) s t
    → Source c vs t f
    → Source c (v ∷ vs) s f
unfolding contains
Source-cons c v vs s t f (inl e) (inl d) = inl (d ∙ e)
Source-cons c v vs s t f (inr k) (inl d) = inr (rw d (ground arith), rw d k.1)
Source-cons c v vs s t f h (inr (m, k)) = inr (ground arith, k)

scan-Source :
    (c : Constraint) (vs : List Text) (s : Text × Version) → Source c vs s (scan_versions c vs s)
unfolding scan_versions round
scan-Source c [] s = inl refl
scan-Source c (v ∷ vs) s =
    Source-cons c v vs s (round c v s) (scan_versions c vs (round c v s)) (round-Source c v s)
      (scan-Source c vs (round c v s))

All-map {ℓ κ μ} :
    {A : Type ℓ} (P : A → Type κ) (Q : A → Type μ)
    → ((a : A) → P a → Q a)
    → (xs : List A) → All P xs
    → All Q xs
All-map P Q f [] h = tt
All-map P Q f (x ∷ xs) h = (f x h.0, All-map P Q f xs h.1)

-- Whatever the constraint and the versions, the result satisfies the constraint, parses, and has the
-- highest numbers of the versions that do, pre-releases not compared; or it is empty, and each
-- version does not satisfy the constraint, or satisfies one of any version and does not parse.
pub highest_satisfying-IsHighest :
    (c : Constraint) (vs : List Text) → IsHighest c vs (highest_satisfying c vs)
unfolding highest_satisfying
highest_satisfying-IsHighest c vs =
    pick (scan_versions c vs start) (scan-Source c vs start) (scan-Candidate c vs start)
  where
    start : Text × Version
    start = ([], zero_version)

    pick :
        (f : Text × Version)
        → Source c vs ([], zero_version) f
        → All (λ v. (sv : Version) → Candidate c v sv → Reaches sv f) vs
        → IsHighest c vs f.0
    pick f (inl e) all = inl (
      ap (λ (s : Text × Version). s.0) e,
      All-map _ _
          (λ v r.
            passed_over c v
              (λ sv k. false≢true (sym (r sv k).0 ∙ ap (λ (s : Text × Version). is_empty s.0) e)))
          vs all,
    )
    pick f (inr (m, k)) all =
        inr (f.1, m, k, All-map _ _ (λ v r sv h. greater-NotNewer sv f.1 (r sv h).1) vs all)
