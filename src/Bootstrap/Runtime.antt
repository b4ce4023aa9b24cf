-- ===== src/Bootstrap/Runtime.antt =====
-- pkg/bootstrap/bootstrap.go: the name of the runtime image's directory, and the runtime image's search
-- in the tarballs.
pub mod Laws
use Prim.Native.Nat.{zero, suc}
use rke.Base.{ℕ, String, ◌<>◌, Option, none, some, List, [], ◌∷◌, ◌=ₛ◌, if◌then◌else◌}
use rke.Base.Result.{Error, Result, ok, err, message, ◌>>=◌}
use rke.Base.Text.{cut}
use rke.Bootstrap.{is_release}
use rke.Images.Names.{Names}
use rke.Images.Resolver
use rke.Images.Resolver.{Resolver, Defaults, get_reference, with_registry}

-- What the search uses of the `name` package besides `Names`, and of the libraries for hashes and
-- tarballs, which are not part of the repository.
pub record Library (N : Names) (S : Type 0) : Type 1 where
  -- Tag.TagStr, Digest.DigestStr, Reference.String and Reference.Context().Registry
  pub tag_str : N.Tag → String
  pub digest_str : N.Digest → String
  pub ref_string : N.Reference → String
  pub ref_registry : N.Reference → N.Registry
  -- hex.EncodeToString of sha256.Sum256
  pub hex_sha256 : String → String
  -- v1.Image, and tarfile.FindImage
  pub Image : Type 0
  pub find_image : String → N.Reference → S → Option Image × Option Error

-- The first characters of an ASCII text.
unfoldable pub first_chars : ℕ → String → String
first_chars zero s = ""
first_chars (suc n) String.[] = ""
first_chars (suc n) (String.◌∷◌ c s) = String.◌∷◌ c (first_chars n s)

-- The second of the parts at the first colon, or the only one.
abbrev pub last_part : String → Option (String × String) → String
last_part str (some (alg, hash)) = hash
last_part str none = str

module _ (N : Names) {S : Type 0} (L : Library N S) where
  abbrev pub digest_name : N.Reference → Option N.Digest → Result String
  digest_name ref (some d) = let str = L.digest_str d in ok (last_part str (cut b':' str))
  digest_name ref none = err (
      message (
        "Runtime image "
        <> (N.ref_name ref
            <> " is not a not a reference to a digest or version tag matching pattern ^v[0-9]")))

  abbrev pub tag_name : N.Reference → Option N.Tag → Result String
  tag_name ref (some t) =
      if is_release (L.tag_str t)
      then ok (L.tag_str t <> ("-" <> first_chars 12 (L.hex_sha256 (L.ref_string ref))))
      else digest_name ref (N.as_digest ref)
  tag_name ref none = digest_name ref (N.as_digest ref)

  unfoldable pub release_ref_digest : N.Reference → Result String
  unfolding is_release first_chars cut
  release_ref_digest ref = tag_name ref (N.as_tag ref)

  -- The references to look for: the default registry's first.
  abbrev pub searched : Defaults → Resolver N → N.Reference → Result (List N.Reference)
  searched d r runtime_ref =
      if N.registry_name (L.ref_registry runtime_ref) =ₛ d.registry
      then ok (runtime_ref ∷ [])
      else do
        default_ref ← get_reference N d r Resolver.runtime (with_registry N d.registry ∷ [])
        ok (default_ref ∷ runtime_ref ∷ [])

  abbrev pub search_refs : Defaults → Resolver N → Result (List N.Reference)
  search_refs d r = do
    runtime_ref ← get_reference N d r Resolver.runtime []
    searched d r runtime_ref

  -- An image is returned with the error it came with; an error alone is only logged.
  abbrev pub found_or :
      Option L.Image × Option Error → Option L.Image × Option Error → Option L.Image × Option Error
  found_or (some image, failure) rest = (some image, failure)
  found_or (none, failure) rest = rest

  unfoldable pub find_first : String → List N.Reference → S → Option L.Image × Option Error
  find_first images_dir [] s = (none, none)
  find_first images_dir (ref ∷ refs) s =
      let rest = find_first images_dir refs s in found_or (L.find_image images_dir ref s) rest

  abbrev pub searched_in : String → Result (List N.Reference) → S → Option L.Image × Option Error
  searched_in images_dir (ok refs) s = find_first images_dir refs s
  searched_in images_dir (err e) s = (none, some e)

  unfoldable pub preload_bootstrap_from_runtime :
      String → Defaults → Resolver N → S → Option L.Image × Option Error
  unfolding find_first get_reference with_registry
  preload_bootstrap_from_runtime images_dir d r s = searched_in images_dir (search_refs d r) s
