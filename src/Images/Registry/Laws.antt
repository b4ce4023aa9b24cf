-- ===== src/Images/Registry/Laws.antt =====
-- pkg/images/images.go: what the split of a registry returns, and the registry of a moved reference.
use rke.Base.{String, ◌<>◌, Option, none, some, ◌≡◌, ◌≢◌, refl, ap, ◌∙◌, arith, eq_iff, false}
use rke.Base.Result.{ok}
use rke.Base.Text.{contains_char, trim_suffix_char}
use rke.Base.Text.Split.{cut-append, cut-eq_none, char-append, trim_suffix_char_of_free}
use rke.Images.Names.{Names, IsLawful}
use rke.Images.Registry.{
  host_and_prefix, split_registry_and_path, set_registry, moved_tag, moved_digest, prefixed,
}

-- An authority without a slash, and a path behind a slash, are split there, less one slash at the path's
-- end.
pub split_registry_and_path-append :
    (host path : String)
    → contains_char b'/' host ≡ false
    → split_registry_and_path (host <> ("/" <> path)) ≡ (host, trim_suffix_char b'/' path)
unfolding split_registry_and_path
split_registry_and_path-append host path free =
    rw (char-append "/" path)
      (ap (host_and_prefix (host <> String.◌∷◌ "/" path)) (cut-append "/" host path free))

-- An authority alone has no path.
pub split_registry_and_path_host :
    (host : String) → contains_char b'/' host ≡ false → split_registry_and_path host ≡ (host, "")
unfolding split_registry_and_path
split_registry_and_path_host host free =
    rw (cut-eq_none b'/' host free, trim_suffix_char_of_free b'/' host free)

module _ (N : Names) (L : IsLawful N) (r : N.Registry) (ref : N.Reference) where
  set_registry_host : set_registry N ref (N.registry_name r) ≡ moved_tag N r ref (N.as_tag ref)
  unfolding set_registry
  set_registry_host =
      rw (split_registry_and_path_host (N.registry_name r) (L.no_path r), L.same_registry r)

  moved_digest-ok :
      (o : Option N.Digest)
      → o ≢ none
      → (ref' : N.Reference) × (moved_digest N r ref o ≡ ok ref')
        × (N.registry_str ref' ≡ N.registry_name r)
  moved_digest-ok none h = absurd (h refl)
  moved_digest-ok (some d) h =
      (N.digest_ref (N.digest_with_registry r d), refl, L.digest_registry r d)

  moved_tag-ok :
      (o : Option N.Tag)
      → N.as_tag ref ≡ o
      → (ref' : N.Reference) × (moved_tag N r ref o ≡ ok ref')
        × (N.registry_str ref' ≡ N.registry_name r)
  moved_tag-ok none e = moved_digest-ok (N.as_digest ref) (L.tag_or_digest ref e)
  moved_tag-ok (some t) e = (N.tag_ref (N.tag_with_registry r t), refl, L.tag_registry r t)

  -- A reference moves to any registry that has no path, and names it then.
  pub set_registry_total :
      (ref' : N.Reference) × (set_registry N ref (N.registry_name r) ≡ ok ref')
      × (N.registry_str ref' ≡ N.registry_name r)
  set_registry_total =
      let (ref', moved, named) = moved_tag-ok (N.as_tag ref) refl in
      (ref', set_registry_host ∙ moved, named)

  -- Under a path, the reference is parsed again from the registry, the path and the rest of its name.
  pub set_registry_path :
      (path : String)
      → trim_suffix_char b'/' path ≢ ""
      → set_registry N ref (N.registry_name r <> ("/" <> path))
        ≡ prefixed N r (trim_suffix_char b'/' path) ref
  unfolding set_registry
  set_registry_path path given =
      rw (split_registry_and_path-append (N.registry_name r) path (L.no_path r), L.same_registry r)
        (ground (arith, eq_iff (trim_suffix_char b'/' path) ""))
