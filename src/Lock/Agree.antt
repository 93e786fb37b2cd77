-- ===== src/Lock/Agree.antt =====
-- When `Diff` reports nothing: pkg/consumerlock/consumerlock.go.
use forge_development_hub_cl.Base.{
  Bool, true, false, ◌&&◌, ◌||◌, ◌≡◌, ◌∙◌, ◌↔◌, ap, refl, sym, Option, none, some, List, [], ◌∷◌,
  ◌++◌, Text, text_eq, text_eq_iff, any, arith, length,
}
use forge_development_hub_cl.Base.PairMap
use forge_development_hub_cl.Base.PairMap.{PairMap, same_key}
use forge_development_hub_cl.Base.Sort.{sort, length-sort}
use forge_development_hub_cl.Kinds.{kind_skill, kind_rule, kind_agent, kind_hook}
use forge_development_hub_cl.Manifest.Expand.{ResolvedComponent}
use forge_development_hub_cl.Lock.{
  LockEntry, Lock, want_map, have_kind, have_map, check_wanted, check_had, wanted_divergences,
  had_divergences, by_kind_name, diff,
}

module _ {ℓ} {V : Type ℓ} where
  abbrev is_some : Option V → Bool
  is_some none = false
  is_some (some v) = true

  abbrev pub has_key : Text → Text → PairMap V → Bool
  has_key n k m = is_some (PairMap.get n k m)

  pub has_key-put :
      (n k n' k' : Text) (v : V) (m : PairMap V)
      → has_key n' k' (PairMap.put n k v m) ≡ (same_key n k n' k' || has_key n' k' m)
  has_key-put n k n' k' v m = ground (arith, PairMap.get-put n k n' k' v m)

-- Whether the components have the name and the kind.
abbrev pub is_wanted : Text → Text → List ResolvedComponent → Bool
is_wanted n k = any (λ r. text_eq r.name n && text_eq r.kind k)

abbrev pub named : Text → List LockEntry → Bool
named n = any (λ e. text_eq e.name n)

-- Whether the lock has an entry of the name in the list of the kind.
abbrev pub is_locked : Text → Text → Lock → Bool
is_locked n k l =
    (text_eq kind_skill k && named n l.skills)
    || ((text_eq kind_rule k && named n l.rules)
        || ((text_eq kind_agent k && named n l.agents) || (text_eq kind_hook k && named n l.hooks)))

has_key-want_map :
    (n k : Text) (rs : List ResolvedComponent) (m : PairMap ResolvedComponent)
    → has_key n k (want_map rs m) ≡ (is_wanted n k rs || has_key n k m)
unfolding want_map
has_key-want_map n k [] m = refl
has_key-want_map n k (r ∷ rs) m = ground (
  arith,
  has_key-want_map n k rs (PairMap.put r.name r.kind r m),
  has_key-put r.name r.kind n k r m,
)

has_key-have_kind :
    (n k kind : Text) (es : List LockEntry) (m : PairMap LockEntry)
    → has_key n k (have_kind kind es m) ≡ ((text_eq kind k && named n es) || has_key n k m)
unfolding have_kind
has_key-have_kind n k kind [] m = ground arith
has_key-have_kind n k kind (e ∷ es) m = ground (
  arith,
  has_key-have_kind n k kind es (PairMap.put e.name kind e m),
  has_key-put e.name kind n k e m,
)

has_key-have_map : (n k : Text) (l : Lock) → has_key n k (have_map l) ≡ is_locked n k l
unfolding have_map PairMap.get
has_key-have_map n k l =
    let a = have_kind kind_skill l.skills [] in
    let b = have_kind kind_rule l.rules a in
    let c = have_kind kind_agent l.agents b in
    ground (
      arith,
      has_key-have_kind n k kind_hook l.hooks c,
      has_key-have_kind n k kind_agent l.agents b,
      has_key-have_kind n k kind_rule l.rules a,
      has_key-have_kind n k kind_skill l.skills [],
    )

module _ {ℓ} {A : Type ℓ} where
  left_empty : (xs ys : List A) → xs ++ ys ≡ [] → xs ≡ []
  left_empty [] ys e = refl
  left_empty (x ∷ xs) ys e = ground arith

  right_empty : (xs ys : List A) → xs ++ ys ≡ [] → ys ≡ []
  right_empty [] ys e = e
  right_empty (x ∷ xs) ys e = ground arith

  pub sort-empty : (less : A → A → Bool) (xs : List A) → (sort less xs ≡ []) ↔ (xs ≡ [])
  unfolding sort
  sort-empty less [] = (λ e. refl, λ e. refl)
  sort-empty less (x ∷ xs) = (
    λ e. absurd (ground (arith, sym (length-sort less (x ∷ xs)) ∙ ap length e)),
    λ e. absurd (ground arith),
  )

wanted_found :
    (have : PairMap LockEntry) (want : PairMap ResolvedComponent)
    → wanted_divergences none have want ≡ []
    → (n k : Text) → has_key n k want ≡ true
    → has_key n k have ≡ true
unfolding wanted_divergences PairMap.get
wanted_found have [] e n k h = ground arith
wanted_found have ((n', k', r) ∷ want) e n k h =
    let a = left_empty (check_wanted none n' k' (PairMap.get n' k' have)) _ e in
    let f : has_key n k want ≡ true → has_key n k have ≡ true =
      wanted_found have want (right_empty (check_wanted none n' k' (PairMap.get n' k' have)) _ e) n
        k in
    ground (arith, f, a, text_eq_iff n' n, text_eq_iff k' k)

had_found :
    (want : PairMap ResolvedComponent) (have : PairMap LockEntry)
    → had_divergences want have ≡ []
    → (n k : Text) → has_key n k have ≡ true
    → has_key n k want ≡ true
unfolding had_divergences PairMap.get
had_found want [] e n k h = ground arith
had_found want ((n', k', r) ∷ have) e n k h =
    let a = left_empty (check_had n' k' (PairMap.get n' k' want)) _ e in
    let f : has_key n k have ≡ true → has_key n k want ≡ true =
      had_found want have (right_empty (check_had n' k' (PairMap.get n' k' want)) _ e) n k in
    ground (arith, f, a, text_eq_iff n' n, text_eq_iff k' k)

wanted_empty :
    (have : PairMap LockEntry) (want : PairMap ResolvedComponent)
    → ((n k : Text) → has_key n k want ≡ true → has_key n k have ≡ true)
    → wanted_divergences none have want ≡ []
unfolding wanted_divergences PairMap.get
wanted_empty have [] h = refl
wanted_empty have ((n', k', r) ∷ want) h =
    let f : wanted_divergences none have want ≡ [] =
      wanted_empty have want (λ n k e. let g = h n k in ground arith) in
    let g = h n' k' in ground (arith, f, text_eq_iff n' n', text_eq_iff k' k')

had_empty :
    (want : PairMap ResolvedComponent) (have : PairMap LockEntry)
    → ((n k : Text) → has_key n k have ≡ true → has_key n k want ≡ true)
    → had_divergences want have ≡ []
unfolding had_divergences PairMap.get
had_empty want [] h = refl
had_empty want ((n', k', r) ∷ have) h =
    let f : had_divergences want have ≡ [] =
      had_empty want have (λ n k e. let g = h n k in ground arith) in
    let g = h n' k' in ground (arith, f, text_eq_iff n' n', text_eq_iff k' k')

-- Without integrities to compare, `Diff` reports nothing exactly when every name and kind is
-- among the resolved components if and only if the lock has an entry of that name in the list of
-- that kind.
pub diff-empty :
    (resolved : List ResolvedComponent) (l : Lock)
    → (diff resolved l none ≡ []) ↔ ((n k : Text) → is_wanted n k resolved ≡ is_locked n k l)
unfolding diff PairMap.get
diff-empty resolved l = (there, back)
  where
    there : diff resolved l none ≡ [] → (n k : Text) → is_wanted n k resolved ≡ is_locked n k l
    there e n k =
        let both = (sort-empty by_kind_name _).0 e in
        let f : has_key n k (want_map resolved []) ≡ true → has_key n k (have_map l) ≡ true =
          wanted_found _ _ (left_empty _ _ both) n k in
        let g : has_key n k (have_map l) ≡ true → has_key n k (want_map resolved []) ≡ true =
          had_found _ _
            (right_empty (wanted_divergences none (have_map l) (want_map resolved [])) _ both) n
            k in
        ground (arith, f, g, has_key-want_map n k resolved [], has_key-have_map n k l)

    back : ((n k : Text) → is_wanted n k resolved ≡ is_locked n k l) → diff resolved l none ≡ []
    back h = (sort-empty by_kind_name _).1 (
        ap (λ xs. xs ++ had_divergences (want_map resolved []) (have_map l))
          (wanted_empty (have_map l) (want_map resolved []) (λ n k e.
            ground (arith, h n k, has_key-want_map n k resolved [], has_key-have_map n k l)))
        ∙ had_empty (want_map resolved []) (have_map l) (λ n k e.
          ground (arith, h n k, has_key-want_map n k resolved [], has_key-have_map n k l)))
