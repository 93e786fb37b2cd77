-- ===== src/Managed/Migration.antt =====
-- What Migrate leaves of a marker and of the other files: pkg/managed/managed.go.
use forge_development_hub_cl.Base.{
  not, if◌then◌else◌, ℕ, Bool, true, false, ◌≡◌, refl, ap, ◌∙◌, ◌⊎◌, inl, inr, Option, none, some,
  [], ◌∷◌, ◌++◌, Text, text_eq, text_eq_refl, text_eq_iff, arith, Bool-cases, length, ◌<◌,
  has_prefix, ◌==◌, ◌&&◌,
}
use forge_development_hub_cl.Base.Search.{length-append}
use forge_development_hub_cl.Base.Bytes.{cut_prefix, trim_prefix, text_eq_sym}
use forge_development_hub_cl.Managed.{
  legacy_dir_marker, legacy_flat_prefix, new_flat_suffix, Marker, Legacy, Files, Disk, Migrated,
  put, target_name, migrate, is_legacy_filename, decode_marker, unless_there, rewrite_as, is_none,
  removed,
}

put-same : (files : Files) (name : Text) (b : Option Text) → put files name b name ≡ b
unfolding put
put-same files name b = rw (text_eq_refl name) refl

put-other :
    (files : Files) (name other : Text) (b : Option Text)
    → text_eq name other ≡ false
    → put files name b other ≡ files other
unfolding put
put-other files name other b h = rw h refl

heads : (x y : ℕ) (b : Bool) → (x == y && b) ≡ true → (x ≡ y) × (b ≡ true)
heads x y b h = ground arith

cut_prefix-has :
    (s p : Text) → has_prefix s p ≡ true → (r : Text) × (s ≡ p ++ r) × (cut_prefix s p ≡ some r)
unfolding has_prefix cut_prefix
cut_prefix-has s [] h = (s, refl, refl)
cut_prefix-has [] (c ∷ p) h = ground arith
cut_prefix-has (d ∷ s) (c ∷ p) h =
    let (same, rest) = heads d c (has_prefix s p) h in
    let (r, e, q) = cut_prefix-has s p rest in
    (r, ap (◌∷◌ d) e ∙ ap (λ x. x ∷ p ++ r) same, rw (same, q) (ground arith))

longer_differs : (a b : Text) → length b < length a → text_eq a b ≡ false
longer_differs a b h = elim (Bool-cases (text_eq a b)) [
  | inl e ↦ elim (apart a b h (ap length ((text_eq_iff a b).0 e))) [ ]
  | inr e ↦ e
]
  where
    apart : (a b : Text) → length b < length a → length a ≡ length b → ⊥
    apart a b h e = omega arith

flat-has :
    (name : Text)
    → is_legacy_filename name ≡ true
    → text_eq name legacy_dir_marker ≡ false
    → has_prefix name legacy_flat_prefix ≡ true
unfolding is_legacy_filename
flat-has name h e = ground arith

-- No marker is migrated to its own name.
target_name-other :
    (legacy : Text) → is_legacy_filename legacy ≡ true → text_eq (target_name legacy) legacy ≡ false
unfolding trim_prefix target_name text_eq
target_name-other legacy h = elim (Bool-cases (text_eq legacy legacy_dir_marker)) [
  | inl e ↦ rw ((text_eq_iff legacy legacy_dir_marker).0 e) refl
  | inr e ↦
      let (r, split, cut) = cut_prefix-has legacy legacy_flat_prefix (flat-has legacy h e) in
      rw (e, cut)
        (longer_differs (r ++ new_flat_suffix) legacy (
          rw (split, length-append legacy_flat_prefix r, length-append r new_flat_suffix)
            (omega arith)))
]

-- Every file but the two is as it was.
abbrev pub Framed : Files → Text → Text → Files → Type 0
Framed files legacy target out =
    (other : Text) → (out other ≡ files other) ⊎ ((target ≡ other) ⊎ (legacy ≡ other))

put-cases :
    (files : Files) (name other : Text) (b : Option Text)
    → (put files name b other ≡ files other) ⊎ (name ≡ other)
put-cases files name other b = elim (Bool-cases (text_eq name other)) [
  | inl e ↦ inr ((text_eq_iff name other).0 e)
  | inr e ↦ inl (put-other files name other b e)
]

removed-other :
    (disk : Disk) (files : Files) (name other : Text)
    → text_eq name other ≡ false
    → removed disk files name other ≡ files other
unfolding removed
removed-other disk files name other e = elim (Bool-cases disk.remove_ok) [
  | inl r ↦ rw r (put-other files name other none e)
  | inr r ↦ rw r refl
]

removed-same :
    (disk : Disk) (files : Files) (name : Text)
    → removed disk files name name ≡ (if disk.remove_ok then none else files name)
unfolding removed
removed-same disk files name = elim (Bool-cases disk.remove_ok) [
  | inl r ↦ rw r (put-same files name none)
  | inr r ↦ rw r refl
]

removed-cases :
    (disk : Disk) (files : Files) (name other : Text)
    → (removed disk files name other ≡ files other) ⊎ (name ≡ other)
removed-cases disk files name other = elim (Bool-cases (text_eq name other)) [
  | inl e ↦ inr ((text_eq_iff name other).0 e)
  | inr e ↦ inl (removed-other disk files name other e)
]

-- A marker that is written anew and a marker that is removed behind it.
moved-cases :
    (disk : Disk) (files : Files) (legacy target other : Text) (b : Option Text)
    → (removed disk (put files target b) legacy other ≡ files other)
      ⊎ ((target ≡ other) ⊎ (legacy ≡ other))
moved-cases disk files legacy target other b =
    elim (removed-cases disk (put files target b) legacy other) [
      | inl e ↦ elim (put-cases files target other b) [ inl d ↦ inl (e ∙ d) | inr d ↦ inr (inl d) ]
      | inr e ↦ inr (inr e)
    ]

module _ (marshal : Marker → Text) (unmarshal : Text → Option Marker)
    (unmarshal_legacy : Text → Option Legacy) where
  -- There was no canonical marker: Migrate failed and the legacy one is as it was, or the canonical
  -- one now encodes what the legacy one decodes to, which is returned. Or there was a canonical one:
  -- it is as it was, and what it decodes to is returned. Behind a success the legacy one is removed,
  -- if the disk lets it.
  abbrev pub Safe : Disk → Files → Text → Text → Text → Migrated → Type 0
  Safe disk files legacy target body r =
      (((files target ≡ none) × (r.failed ≡ true) × (r.files legacy ≡ some body))
        ⊎ (((files target ≡ none)
              × ((m : Marker) × (decode_marker marshal unmarshal unmarshal_legacy body legacy
                    ≡ some m)
                  × (r.files target ≡ some (marshal m))
                  × (r.marker ≡ some m)
                  × (r.failed ≡ not disk.remove_ok)
                  × (r.files legacy ≡ (if disk.remove_ok then none else some body))))
            ⊎ ((t : Text) × (files target ≡ some t)
                × (r.files target ≡ some t)
                × (r.marker ≡ decode_marker marshal unmarshal unmarshal_legacy t target)
                × (r.failed ≡ is_none r.marker)
                × (r.files legacy ≡ (if disk.remove_ok then none else some body)))))
      × Framed files legacy target r.files

  rewrite_as-Safe :
      (disk : Disk) (files : Files) (legacy target body : Text) (o : Option Marker)
      → decode_marker marshal unmarshal unmarshal_legacy body legacy ≡ o
      → files target ≡ none
      → text_eq target legacy ≡ false
      → files legacy ≡ some body
      → Safe disk files legacy target body
          (rewrite_as marshal unmarshal unmarshal_legacy disk files legacy target o)
  unfolding rewrite_as
  rewrite_as-Safe disk files legacy target body none k n d h = (inl (n, refl, h), λ other. inl refl)
  rewrite_as-Safe disk files legacy target body (some m) k n d h = elim (Bool-cases disk.write_ok) [
    | inr w ↦ rw w (
      inl (n, refl, put-other files target legacy disk.left d ∙ h),
      λ other. elim (put-cases files target other disk.left) [
        | inl e ↦ inl e
        | inr e ↦ inr (inl e)
      ],
    )
    | inl w ↦ rw w (
      inr (
          inl (
            n,
            (
              m,
              k,
              removed-other disk (put files target (some (marshal m))) legacy target
                    (text_eq_sym legacy target ∙ d)
                  ∙ put-same files target (some (marshal m)),
              refl,
              refl,
              removed-same disk (put files target (some (marshal m))) legacy
                  ∙ ap (λ o. if disk.remove_ok then none else o)
                      (put-other files target legacy (some (marshal m)) d ∙ h),
            ),
          )),
      λ other. moved-cases disk files legacy target other (some (marshal m)),
    )
  ]

  unless_there-Safe :
      (disk : Disk) (files : Files) (legacy target body : Text) (o : Option Text)
      → files target ≡ o
      → text_eq target legacy ≡ false
      → files legacy ≡ some body
      → Safe disk files legacy target body
          (unless_there marshal unmarshal unmarshal_legacy disk files legacy target o)
  unfolding unless_there
  unless_there-Safe disk files legacy target body none e d h = rw h (
      rewrite_as-Safe disk files legacy target body
        (decode_marker marshal unmarshal unmarshal_legacy body legacy) refl e d h)
  unless_there-Safe disk files legacy target body (some existing) e d h = (
    inr (
        inr (
          existing,
          e,
          removed-other disk files legacy target (text_eq_sym legacy target ∙ d) ∙ e,
          refl,
          refl,
          removed-same disk files legacy ∙ ap (λ o. if disk.remove_ok then none else o) h,
        )),
    λ other. elim (removed-cases disk files legacy other) [ inl x ↦ inl x | inr x ↦ inr (inr x) ],
  )

  -- Whatever the disk allows: if there was no canonical marker, Migrate fails and the legacy one is
  -- as it was, or the canonical one now encodes what the legacy one decodes to, and that is
  -- returned, with an error if the legacy one cannot be removed. If there was a canonical one, it
  -- has the content that it had, and what that decodes to is returned, with an error if it does not
  -- decode. The legacy one is removed in the last two cases, if the disk lets it; every file but
  -- these two is as it was.
  pub migrate-Safe :
      (disk : Disk) (files : Files) (legacy body : Text)
      → is_legacy_filename legacy ≡ true
      → files legacy ≡ some body
      → Safe disk files legacy
          (target_name legacy)
          body
          (migrate marshal unmarshal unmarshal_legacy disk files legacy)
  unfolding migrate
  migrate-Safe disk files legacy body l h = rw l (
      unless_there-Safe disk files legacy (target_name legacy) body (files (target_name legacy))
        refl (target_name-other legacy l) h)
