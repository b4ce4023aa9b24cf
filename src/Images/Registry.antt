-- ===== src/Images/Registry.antt =====
-- pkg/images/images.go: the split of a registry and its path, and the move of a reference to another
-- registry.
pub mod Laws
use rke.Base.{String, ◌<>◌, Option, none, some, List, [], ◌∷◌, ◌=ₛ◌, if◌then◌else◌}
use rke.Base.Result.{Error, Result, ok, err, message, ◌>>=◌}
use rke.Base.Text.{cut, trim_prefix, trim_suffix_char}
use rke.Images.Names.{Names}

abbrev host_and_prefix : String → Option (String × String) → String × String
host_and_prefix input (some (host, prefix)) = (host, trim_suffix_char b'/' prefix)
host_and_prefix input none = (trim_suffix_char b'/' input, "")

unfoldable pub split_registry_and_path : String → String × String
unfolding cut trim_suffix_char
split_registry_and_path input = host_and_prefix input (cut b'/' input)

module _ (N : Names) where
  abbrev moved_digest : N.Registry → N.Reference → Option N.Digest → Result N.Reference
  moved_digest registry ref (some d) = ok (N.digest_ref (N.digest_with_registry registry d))
  moved_digest registry ref none = err (message "unhandled Reference type")

  abbrev moved_tag : N.Registry → N.Reference → Option N.Tag → Result N.Reference
  moved_tag registry ref (some t) = ok (N.tag_ref (N.tag_with_registry registry t))
  moved_tag registry ref none = moved_digest registry ref (N.as_digest ref)

  -- The reference below a path of the registry.
  abbrev pub prefixed : N.Registry → String → N.Reference → Result N.Reference
  prefixed registry path ref =
      let minus_registry = trim_prefix (trim_prefix (N.ref_name ref) (N.registry_str ref)) "/" in
      N.parse_reference (N.registry_name registry <> ("/" <> (path <> ("/" <> minus_registry))))

  abbrev unparsed {ℓ} : {A : Type ℓ} → Result A → Result A
  unparsed (ok a) = ok a
  unparsed (err e) = err (message "unable to parse registry")

  unfoldable pub set_registry : N.Reference → String → Result N.Reference
  unfolding split_registry_and_path
  set_registry ref reg = do
    let parts = split_registry_and_path reg
    registry ← unparsed (N.new_registry parts.0)
    if parts.1 =ₛ "" then moved_tag registry ref (N.as_tag ref) else prefixed registry parts.1 ref
