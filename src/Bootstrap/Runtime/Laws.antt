-- ===== src/Bootstrap/Runtime/Laws.antt =====
-- pkg/bootstrap/bootstrap.go: which directories are named for version tags, and what the search for the
-- runtime image returns.
use text.Mathlib.TextLemmas.{cons-append}
use mathlib.Core.Path.{subst}
use rke.Base.{
  Bool, true, not, String, ◌<>◌, Option, none, some, List, [], ◌∷◌, ◌≡◌, ◌≢◌, refl, sym, ap, ◌∙◌,
  ◌=ₛ◌, arith, Bool-cases, inl, inr, if◌then◌else◌,
}
use rke.Base.Os.{directory}
use rke.Base.Result.{Error, Result, ok, err, err≢ok, ok-injective}
use rke.Bootstrap.{is_release, is_candidate}
use rke.Images.Names.{Names}
use rke.Images.Resolver.{Resolver, Defaults}
use rke.Bootstrap.Runtime.{
  Library, tag_name, digest_name, release_ref_digest, search_refs, find_first, found_or,
  searched_in, preload_bootstrap_from_runtime, first_chars,
}

is_release-append : (s t : String) → is_release s ≡ true → is_release (s <> t) ≡ true
unfolding is_release
is_release-append String.[] t h = absurd cc
is_release-append (String.◌∷◌ v String.[]) t h = absurd cc
is_release-append (String.◌∷◌ v (String.◌∷◌ d s)) t h = rw (cons-append, cons-append) h

-- The error of a result, if any.
abbrev pub unresolved {ℓ} : {A : Type ℓ} → Result A → Option Error
unresolved (ok a) = none
unresolved (err e) = some e

module _ (N : Names) {S : Type 0} (L : Library N S) where
  digest_name≢ok :
      (ref : N.Reference) (o : Option N.Digest) (digest : String)
      → o ≡ none
      → digest_name N L ref o ≢ ok digest
  digest_name≢ok ref none digest tagged h = err≢ok h
  digest_name≢ok ref (some d) digest tagged h = cc

  tag_name-is_release :
      (ref : N.Reference) (o : Option N.Tag) (digest : String)
      → N.as_digest ref ≡ none
      → tag_name N L ref o ≡ ok digest
      → is_release digest ≡ true
  tag_name-is_release ref none digest tagged h =
      absurd (digest_name≢ok ref (N.as_digest ref) digest tagged h)
  tag_name-is_release ref (some t) digest tagged h =
      let hash = first_chars 12 (L.hex_sha256 (L.ref_string ref)) in
      let chosen = λ (b : Bool).
        if b then ok (L.tag_str t <> ("-" <> hash)) else digest_name N L ref (N.as_digest ref) in
      elim (Bool-cases (is_release (L.tag_str t))) [
        | inl release ↦
            ap is_release (sym (ok-injective (subst (λ b. chosen b ≡ ok digest) release h)))
            ∙ is_release-append (L.tag_str t) ("-" <> hash) release
        | inr other ↦ absurd (
            digest_name≢ok ref (N.as_digest ref) digest tagged
              (subst (λ b. chosen b ≡ ok digest) other h))
      ]

  -- The directory that is named for a reference that is no digest is a candidate of the cleaning exactly
  -- for the runtime images with another name.
  pub release_ref_digest-is_candidate :
      (ref : N.Reference) (digest other : String)
      → N.as_digest ref ≡ none
      → release_ref_digest N L ref ≡ ok digest
      → is_candidate other (record { name = digest; kind = directory }) ≡ not (digest =ₛ other)
  unfolding release_ref_digest
  release_ref_digest-is_candidate ref digest other tagged h =
      let release = tag_name-is_release ref (N.as_tag ref) digest tagged h in ground arith

  found_or-no_image :
      (found rest : Option L.Image × Option Error)
      → (found_or N L found rest).0 ≡ none
      → found_or N L found rest ≡ rest
  found_or-no_image (none, failure) rest h = refl
  found_or-no_image (some image, failure) rest h = absurd cc

  find_first-no_image :
      (dir : String) (refs : List N.Reference) (s : S)
      → (find_first N L dir refs s).0 ≡ none
      → find_first N L dir refs s ≡ (none, none)
  unfolding find_first
  find_first-no_image dir [] s h = refl
  find_first-no_image dir (ref ∷ refs) s h =
      let same = found_or-no_image (L.find_image dir ref s) (find_first N L dir refs s) h in
      same ∙ find_first-no_image dir refs s (sym (ap (λ p. p.0) same) ∙ h)

  searched_in-no_image :
      (dir : String) (refs : Result (List N.Reference)) (s : S)
      → (searched_in N L dir refs s).0 ≡ none
      → searched_in N L dir refs s ≡ (none, unresolved refs)
  searched_in-no_image dir (ok refs) s h = find_first-no_image dir refs s h
  searched_in-no_image dir (err e) s h = refl

  -- When no image is found, the search fails exactly with the error by which a reference to the runtime
  -- image could not be resolved: what fails in reading the tarballs is no error.
  pub preload_bootstrap_from_runtime-no_image :
      (dir : String) (d : Defaults) (r : Resolver N) (s : S)
      → (preload_bootstrap_from_runtime N L dir d r s).0 ≡ none
      → preload_bootstrap_from_runtime N L dir d r s ≡ (none, unresolved (search_refs N L d r))
  unfolding preload_bootstrap_from_runtime
  preload_bootstrap_from_runtime-no_image dir d r s h =
      searched_in-no_image dir (search_refs N L d r) s h
