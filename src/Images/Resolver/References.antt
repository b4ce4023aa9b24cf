-- ===== src/Images/Resolver/References.antt =====
-- pkg/images/images.go: what GetReference returns, after SetOverride and with a configured registry.
use rke.Base.{
  String, Option, none, some, [], ◌≡◌, ◌≢◌, refl, sym, ap, ◌∙◌, ◌=ₛ◌, eq_iff, inl, inr, Bool-cases,
  if◌then◌else◌,
}
use rke.Base.Dict.{lookup, lookup-insert, lookup-erase}
use rke.Base.Result.{ok, bind-ok}
use rke.Base.Text.{trim_suffix_char}
use rke.Images.Names.{Names, IsLawful}
use rke.Images.Registry.{prefixed}
use rke.Images.Registry.Laws.{set_registry_total, set_registry_path}
use rke.Images.Resolver.{
  Resolver, Defaults, set_override, get_reference, default_image, base_reference,
}

module _ (N : Names) (d : Defaults) (r : Resolver N) where
  lookup-set_override :
      (i j : String) (o : Option N.Reference)
      → lookup j (set_override N i o r).overrides ≡ (if i =ₛ j then o else lookup j r.overrides)
  unfolding set_override
  lookup-set_override i j none = lookup-erase i j r.overrides
  lookup-set_override i j (some ref) = lookup-insert i j ref r.overrides

  base_reference-set_override :
      (i j : String) (o p : Option N.Reference)
      → base_reference N d (set_override N i o r) j p ≡ base_reference N d r j p
  unfolding set_override
  base_reference-set_override i j none p = refl
  base_reference-set_override i j (some ref) p = refl

  get_reference-nil :
      (i : String) → get_reference N d r i [] ≡ base_reference N d r i (lookup i r.overrides)
  unfolding get_reference
  get_reference-nil i = bind-ok _

  -- After SetOverride of the image `i`, the reference of an image `j` is the given one if `j` is `i` and
  -- a reference was given, the compile-time one below the default registry if none was given, and what
  -- it was before for every other image.
  pub get_reference-set_override :
      (i j : String) (o : Option N.Reference)
      → get_reference N d (set_override N i o r) j []
        ≡ (if i =ₛ j then base_reference N d r j o else get_reference N d r j [])
  unfolding get_reference
  get_reference-set_override i j o =
      bind-ok _
      ∙ (base_reference-set_override i j o _
          ∙ (ap (base_reference N d r j) (lookup-set_override i j o) ∙ elim (Bool-cases (i =ₛ j)) [
            | inl same ↦ rw same
            | inr other ↦ rw other (sym (get_reference-nil j))
          ]))

module _ (N : Names) (L : IsLawful N) (d : Defaults) (r : Resolver N) where
  -- An image with a compile-time default that is a reference, and no override, resolves to a reference of
  -- the configured registry, if that has no path.
  pub get_reference-registry :
      (i image : String) (ref : N.Reference)
      → lookup i r.overrides ≡ none
      → default_image d i ≡ some image
      → N.parse_reference image ≡ ok ref
      → r.repo_path ≡ ""
      → (ref' : N.Reference) × (get_reference N d r i [] ≡ ok ref')
        × (N.registry_str ref' ≡ N.registry_name r.registry)
  unfolding get_reference
  get_reference-registry i image ref fresh known parsed no_path =
      let (ref', moved, named) = set_registry_total N L r.registry ref in
      (ref', rw (fresh, known, parsed, no_path, moved), named)

  -- An image with a compile-time default that is a reference, and no override, resolves, if the configured
  -- registry has a path, to what is parsed from the registry's name, the path without a slash at its end,
  -- and the default's name without its registry.
  pub get_reference-repo_path :
      (i image : String) (ref : N.Reference)
      → lookup i r.overrides ≡ none
      → default_image d i ≡ some image
      → N.parse_reference image ≡ ok ref
      → trim_suffix_char b'/' r.repo_path ≢ ""
      → get_reference N d r i [] ≡ prefixed N r.registry (trim_suffix_char b'/' r.repo_path) ref
  unfolding get_reference trim_suffix_char
  get_reference-repo_path i image ref fresh known parsed path =
      elim (Bool-cases (r.repo_path =ₛ "")) [
        | inl blank ↦ absurd (path (ap (trim_suffix_char b'/') ((eq_iff r.repo_path "").0 blank)))
        | inr given ↦
            rw (fresh, known, parsed, given)
              (bind-ok _ ∙ set_registry_path N L r.registry ref r.repo_path path)
      ]
