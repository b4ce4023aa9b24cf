-- ===== src/Images/Names.antt =====
-- What pkg/images uses of the `name` package of go-containerregistry, which is not part of the
-- repository: registries, and references that are tags or digests.
use rke.Base.{String, ◌≡◌, ◌≢◌, Option, none, false}
use rke.Base.Text.{contains_char}
use rke.Base.Result.{Result, ok}

pub record Names : Type 1 where
  pub Registry : Type 0
  pub Tag : Type 0
  pub Digest : Type 0
  pub Reference : Type 0
  -- name.DefaultRegistry
  pub default_registry : String
  -- name.NewRegistry and Registry.Name
  pub new_registry : String → Result Registry
  pub registry_name : Registry → String
  -- name.ParseReference with name.WeakValidation
  pub parse_reference : String → Result Reference
  -- Reference.Name and Reference.Context().RegistryStr()
  pub ref_name : Reference → String
  pub registry_str : Reference → String
  -- the type assertions, and the conversions back to a Reference
  pub as_tag : Reference → Option Tag
  pub as_digest : Reference → Option Digest
  pub tag_ref : Tag → Reference
  pub digest_ref : Digest → Reference
  -- the assignments to the field Registry
  pub tag_with_registry : Registry → Tag → Tag
  pub digest_with_registry : Registry → Digest → Digest

-- The documented behaviour that the theorems rely on.
pub record IsLawful (N : Names) : Type 0 where
  -- a registry's name is an authority: it has no path, and it is parsed to the same registry
  pub no_path : (r : N.Registry) → contains_char b'/' (N.registry_name r) ≡ false
  pub same_registry : (r : N.Registry) → N.new_registry (N.registry_name r) ≡ ok r
  -- a reference is a tag or a digest, whichever was assigned, and names the registry of its field
  pub tag_or_digest : (r : N.Reference) → N.as_tag r ≡ none → N.as_digest r ≢ none
  pub tag_registry :
      (r : N.Registry) (t : N.Tag)
      → N.registry_str (N.tag_ref (N.tag_with_registry r t)) ≡ N.registry_name r
  pub digest_registry :
      (r : N.Registry) (d : N.Digest)
      → N.registry_str (N.digest_ref (N.digest_with_registry r d)) ≡ N.registry_name r
