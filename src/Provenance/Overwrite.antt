-- ===== src/Provenance/Overwrite.antt =====
-- A document with a byte order mark and no frontmatter: the new frontmatter is appended to a slice
-- of the document.
use forge_development_hub_cl.Base.{
  ℕ, ◌-◌, true, false, ◌≡◌, ◌∙◌, ◌↔◌, ap, refl, sym, ◌∷◌, ◌++◌, Text, arith, ◌==◌, is_empty, ltb,
  length, Bool-cases, inl, inr, has_prefix,
}
use forge_development_hub_cl.Base.Bytes.{take, drop}
use forge_development_hub_cl.Base.Search.{drop-append}
use forge_development_hub_cl.Provenance.{
  bom, fresh_frontmatter, overwritten, inject_rest, inject_breadcrumb, starts_with_frontmatter,
}

module _ (ref : Text) (c : ℕ) (cs : Text) (given : is_empty ref ≡ false)
    (foreign : (c == b'-') ≡ false) where
  inject-fresh :
      (capacity : ℕ)
      → inject_breadcrumb capacity (bom ++ c ∷ cs) ref
        ≡ bom
          ++ (fresh_frontmatter ref ++ overwritten (capacity - 3) (fresh_frontmatter ref) (c ∷ cs))
  unfolding inject_breadcrumb inject_rest starts_with_frontmatter has_prefix drop
  inject-fresh capacity = rw given (rw foreign refl)

  overwritten-fits :
      (room : ℕ)
      → ltb room (length (fresh_frontmatter ref)) ≡ true
      → overwritten room (fresh_frontmatter ref) (c ∷ cs) ≡ c ∷ cs
  unfolding overwritten
  overwritten-fits room h = rw h refl

  overwritten-lost :
      (room : ℕ)
      → ltb room (length (fresh_frontmatter ref)) ≡ false
      → overwritten room (fresh_frontmatter ref) (c ∷ cs) ≡ c ∷ cs
      → false ≡ true
  unfolding overwritten take
  overwritten-lost room h e = ground arith

  -- With a reference that is not empty, a document of a byte order mark and a body that begins
  -- with another byte than a dash keeps the body behind the new frontmatter exactly if the
  -- capacity of its slice behind the mark is too small for the new frontmatter.
  pub inject_breadcrumb-body :
      (capacity : ℕ)
      → (inject_breadcrumb capacity (bom ++ c ∷ cs) ref ≡ bom ++ (fresh_frontmatter ref ++ c ∷ cs))
        ↔ (ltb (capacity - 3) (length (fresh_frontmatter ref)) ≡ true)
  unfolding drop
  inject_breadcrumb-body capacity = (
    λ e. elim (Bool-cases (ltb (capacity - 3) (length (fresh_frontmatter ref)))) [
      | inl h ↦ h
      | inr h ↦ absurd (
          ground (
            arith,
            overwritten-lost (capacity - 3) h (
                sym (drop-append (fresh_frontmatter ref) _)
                ∙ ap (λ t. drop (length (fresh_frontmatter ref)) (drop 3 t))
                    (sym (inject-fresh capacity) ∙ e)
                ∙ drop-append (fresh_frontmatter ref) (c ∷ cs)),
          ))
    ],
    λ h.
        inject-fresh capacity
        ∙ ap (λ (t : Text). bom ++ (fresh_frontmatter ref ++ t))
            (overwritten-fits (capacity - 3) h),
  )
