-- ===== src/Lock/Built.antt =====
-- `Build` and `Diff` together: pkg/consumerlock/consumerlock.go.
use forge_development_hub_cl.Base.{
  ℕ, Bool, true, ◌&&◌, ◌||◌, ◌≡◌, ◌∙◌, refl, List, [], ◌∷◌, Text, text_eq, text_eq_iff, any, all,
  arith, none, Bool-cases, inl, inr,
}
use forge_development_hub_cl.Base.Sort.{sort, any-sort}
use forge_development_hub_cl.Kinds.{
  Kind, kind_of, kind_ok, kind_name, kind_skill, kind_rule, kind_agent, kind_hook,
}
use forge_development_hub_cl.Manifest.Expand.{ResolvedComponent}
use forge_development_hub_cl.Lock.{goes_to, lock_entry, locked, by_name, build, diff}
use forge_development_hub_cl.Lock.Agree.{is_wanted, named, diff-empty}

goes_to-kind : (j : Kind) (s : Text) → goes_to j (kind_of s) ≡ text_eq s (kind_name j)
unfolding kind_of
goes_to-kind j s = ground (
  arith,
  text_eq_iff s kind_skill,
  text_eq_iff s kind_rule,
  text_eq_iff s kind_agent,
  text_eq_iff s kind_hook,
)

lock_entry-name : (r : ResolvedComponent) → (lock_entry r).name ≡ r.name
lock_entry-name r = ground arith

named-locked :
    (n : Text) (j : Kind) (rs : List ResolvedComponent)
    → named n (locked j rs) ≡ any (λ r. text_eq r.name n && text_eq r.kind (kind_name j)) rs
unfolding locked
named-locked n j [] = refl
named-locked n j (r ∷ rs) =
    ground (arith, named-locked n j rs, goes_to-kind j r.kind, lock_entry-name r)

-- The names of a kind that stand in the list of the kind.
abbrev of_kind : Text → List ResolvedComponent → Text → Bool
of_kind n rs kind = any (λ r. text_eq r.name n && text_eq r.kind kind) rs

-- The four rows of the matrix of the kinds.
row :
    (j : Kind) (a b c d : Bool)
    → elim j [ Kind.skill ↦ a | Kind.rule ↦ b | Kind.agent ↦ c | Kind.hook ↦ d ] ≡ (
        (a && text_eq (kind_name j) kind_skill)
        || ((b && text_eq (kind_name j) kind_rule)
            || ((c && text_eq (kind_name j) kind_agent) || (d && text_eq (kind_name j) kind_hook))))
unfolding text_eq
row Kind.skill a b c d = ground arith
row Kind.rule a b c d = ground arith
row Kind.agent a b c d = ground arith
row Kind.hook a b c d = ground arith

kind_ok-name : (s : Text) → kind_ok s ≡ true → (j : Kind) × (s ≡ kind_name j)
unfolding kind_ok kind_of
kind_ok-name s h = elim (Bool-cases (text_eq s kind_skill)) [
  | inl e ↦ (Kind.skill, (text_eq_iff s kind_skill).0 e)
  | inr a ↦ elim (Bool-cases (text_eq s kind_rule)) [
    | inl e ↦ (Kind.rule, (text_eq_iff s kind_rule).0 e)
    | inr b ↦ elim (Bool-cases (text_eq s kind_agent)) [
      | inl e ↦ (Kind.agent, (text_eq_iff s kind_agent).0 e)
      | inr c ↦ elim (Bool-cases (text_eq s kind_hook)) [
        | inl e ↦ (Kind.hook, (text_eq_iff s kind_hook).0 e)
        | inr d ↦ absurd (ground arith)
      ]
    ]
  ]
]

text_eq-kind_name :
    (j : Kind) (k : Text)
    → text_eq (kind_name j) k ≡ (
        (text_eq kind_skill k && text_eq (kind_name j) kind_skill)
        || ((text_eq kind_rule k && text_eq (kind_name j) kind_rule)
            || ((text_eq kind_agent k && text_eq (kind_name j) kind_agent)
                || (text_eq kind_hook k && text_eq (kind_name j) kind_hook))))
text_eq-kind_name Kind.skill k = row Kind.skill _ _ _ _
text_eq-kind_name Kind.rule k = row Kind.rule _ _ _ _
text_eq-kind_name Kind.agent k = row Kind.agent _ _ _ _
text_eq-kind_name Kind.hook k = row Kind.hook _ _ _ _

text_eq-row :
    (s k : Text)
    → kind_ok s ≡ true
    → text_eq s k ≡ (
        (text_eq kind_skill k && text_eq s kind_skill)
        || ((text_eq kind_rule k && text_eq s kind_rule)
            || ((text_eq kind_agent k && text_eq s kind_agent)
                || (text_eq kind_hook k && text_eq s kind_hook))))
text_eq-row s k h = let (j, e) = kind_ok-name s h in rw e (text_eq-kind_name j k)

-- Distribution of the four cases over a disjunction.
distribute :
    (x s w a b c d p q r t e f g h : Bool)
    → s ≡ ((a && p) || ((b && q) || ((c && r) || (d && t))))
    → w ≡ ((a && e) || ((b && f) || ((c && g) || (d && h))))
    → ((x && s) || w) ≡ (
        (a && ((x && p) || e))
        || ((b && ((x && q) || f)) || ((c && ((x && r) || g)) || (d && ((x && t) || h)))))
distribute x s w a b c d p q r t e f g h i j = ground arith

is_wanted-of_kind :
    (n k : Text) (rs : List ResolvedComponent)
    → all (λ r. kind_ok r.kind) rs ≡ true
    → is_wanted n k rs ≡ (
        (text_eq kind_skill k && of_kind n rs kind_skill)
        || ((text_eq kind_rule k && of_kind n rs kind_rule)
            || ((text_eq kind_agent k && of_kind n rs kind_agent)
                || (text_eq kind_hook k && of_kind n rs kind_hook))))
is_wanted-of_kind n k [] h = ground arith
is_wanted-of_kind n k (r ∷ rs) h =
    distribute (text_eq r.name n) (text_eq r.kind k) (is_wanted n k rs) (text_eq kind_skill k)
      (text_eq kind_rule k) (text_eq kind_agent k) (text_eq kind_hook k) (text_eq r.kind kind_skill)
      (text_eq r.kind kind_rule) (text_eq r.kind kind_agent) (text_eq r.kind kind_hook)
      (of_kind n rs kind_skill) (of_kind n rs kind_rule) (of_kind n rs kind_agent)
      (of_kind n rs kind_hook) (text_eq-row r.kind k (ground arith))
      (is_wanted-of_kind n k rs (ground arith))

-- When every component has one of the four kinds, `Diff` of the components against the lock that
-- `Build` makes of them reports nothing, with whatever commit, time and harness.
pub diff-build :
    (resolved : List ResolvedComponent) (commit : Text) (now : ℕ) (harness : Text)
    → all (λ r. kind_ok r.kind) resolved ≡ true
    → diff resolved (build resolved commit now harness) none ≡ []
unfolding build
diff-build resolved commit now harness h =
    (diff-empty resolved (build resolved commit now harness)).1 (λ n k.
      let rs = resolved in
      let one : (j : Kind) → named n (sort by_name (locked j rs)) ≡ of_kind n rs (kind_name j) =
        λ j. any-sort by_name (λ e. text_eq e.name n) (locked j rs) ∙ named-locked n j rs in
      ground (
        arith,
        is_wanted-of_kind n k rs h,
        one Kind.skill,
        one Kind.rule,
        one Kind.agent,
        one Kind.hook,
      ))
