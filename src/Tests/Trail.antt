-- ===== src/Tests/Trail.antt =====
-- The breadcrumb of an installed file.
use forge_development_hub_cl.Base.{true, ◌≡◌, ◌↔◌, refl, ◌++◌, Text, codes, ltb, length, ◌-◌}
use forge_development_hub_cl.Base.Bytes.{has_prefix}
use forge_development_hub_cl.Provenance.{
  bom, fresh_frontmatter, inject_breadcrumb, strip_breadcrumb, starts_with_frontmatter,
  make_breadcrumb_ref,
}
use forge_development_hub_cl.Provenance.Inject.{inject_breadcrumb-again, strip-inject_breadcrumb}
use forge_development_hub_cl.Provenance.Overwrite.{inject_breadcrumb-body}

abbrev ref : Text
ref = codes "r/n/style@1"

abbrev document : Text
document = codes "---\nname: style\ninstalled_from: old\n---\nBody\n"

made : make_breadcrumb_ref (codes "r//") (codes "n") (codes "style") (codes "1") ≡ ref
unfolding make_breadcrumb_ref
made = refl

injected :
    inject_breadcrumb 64 document ref
    ≡ codes "---\nname: style\ninstalled_from: r/n/style@1\n---\nBody\n"
unfolding inject_breadcrumb
injected = refl

-- The body of a marked document is lost.
overwritten_body :
    inject_breadcrumb 512 (bom ++ codes "Body\n") ref
    ≡ bom ++ (fresh_frontmatter ref ++ codes "---\ni")
unfolding inject_breadcrumb
overwritten_body = refl

inject_breadcrumb-again_example :
    inject_breadcrumb 64 (inject_breadcrumb 64 document ref) ref ≡ inject_breadcrumb 64 document ref
inject_breadcrumb-again_example = inject_breadcrumb-again ref refl refl 64 64 document

strip-inject_breadcrumb_example :
    strip_breadcrumb (inject_breadcrumb 64 document ref) ≡ strip_breadcrumb document
unfolding starts_with_frontmatter has_prefix
strip-inject_breadcrumb_example = strip-inject_breadcrumb ref refl refl 64 document refl

inject_breadcrumb-body_example :
    (inject_breadcrumb 512 (bom ++ codes "Body\n") ref
      ≡ bom ++ (fresh_frontmatter ref ++ codes "Body\n"))
    ↔ (ltb (512 - 3) (length (fresh_frontmatter ref)) ≡ true)
inject_breadcrumb-body_example = inject_breadcrumb-body ref b'B' (codes "ody\n") refl refl 512
