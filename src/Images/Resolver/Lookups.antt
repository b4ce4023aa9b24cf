-- ===== src/Images/Resolver/Lookups.antt =====
-- The overrides of a resolver as a finite map: what each operation does at every image name.
use rke.Base.{
  String, ◌<>◌, Option, none, some, List, [], ◌∷◌, ◌≡◌, ap, ◌∙◌, arith, ◌=ₛ◌, inl, inr, Bool-cases,
  if◌then◌else◌,
}
use rke.Base.Dict.{lookup, lookup-insert, insert}
use rke.Base.Result.{Result, ok, err, >>=-eq-ok, annotate, annotate-eq-ok, ok-injective}
use rke.Base.Text.{trim_space}
use rke.Images.Names.{Names}
use rke.Images.Resolver.{Resolver, parse_and_set_override, set_overrides}

module _ (N : Names) where
  abbrev pub to_option {ℓ} : {A : Type ℓ} → Result A → Option A
  to_option (ok a) = some a
  to_option (err e) = none

  -- What a field of the configuration sets for its image, over what was set before.
  abbrev pub field_override : String → Option N.Reference → Option N.Reference
  field_override n before =
      if trim_space n =ₛ "" then before else to_option (N.parse_reference (trim_space n))

  -- What a list of fields sets for the image `i`: the last field of that name that is not blank.
  abbrev pub fields_override :
      List (String × String) → String → Option N.Reference → Option N.Reference
  fields_override [] i before = before
  fields_override ((j, n) ∷ fields) i before =
      fields_override fields i (if j =ₛ i then field_override n before else before)

  pub lookup-parse_and_set_override :
      (i n j : String) (r r' : Resolver N)
      → parse_and_set_override N i n r ≡ ok r'
      → lookup j r'.overrides
        ≡ (if i =ₛ j then field_override n (lookup j r.overrides) else lookup j r.overrides)
  unfolding parse_and_set_override
  lookup-parse_and_set_override i n j r r' h = elim (Bool-cases (trim_space n =ₛ "")) [
    | inl blank ↦ rw (← ok-injective (rw blank at h), blank) (ground arith)
    | inr given ↦
        let (ref, parsed, stored) =
          >>=-eq-ok (N.parse_reference (trim_space n))
            (λ ref. ok (record r { overrides = insert i ref r.overrides })) (rw given at h) in
        rw (← ok-injective stored, given, parsed) (lookup-insert i j ref r.overrides)
  ]

  registry-parse_and_set_override :
      (i n : String) (r r' : Resolver N)
      → parse_and_set_override N i n r ≡ ok r'
      → (r'.registry ≡ r.registry) × (r'.repo_path ≡ r.repo_path)
  unfolding parse_and_set_override
  registry-parse_and_set_override i n r r' h = ground arith

  pub lookup-set_overrides :
      (fields : List (String × String)) (i : String) (r r' : Resolver N)
      → set_overrides N fields r ≡ ok r'
      → lookup i r'.overrides ≡ fields_override fields i (lookup i r.overrides)
  unfolding set_overrides
  lookup-set_overrides [] i r r' h = rw (ok-injective h)
  lookup-set_overrides ((j, n) ∷ fields) i r r' h =
      let (m, set_one, set_rest) =
        >>=-eq-ok (annotate ("failed to parse " <> j) (parse_and_set_override N j n r))
          (set_overrides N fields) h in
      lookup-set_overrides fields i m r' set_rest
      ∙ ap (fields_override fields i)
          (lookup-parse_and_set_override j n i r m (annotate-eq-ok _ _ set_one))

  -- The overrides do not touch the registry.
  pub registry-set_overrides :
      (fields : List (String × String)) (r r' : Resolver N)
      → set_overrides N fields r ≡ ok r'
      → (r'.registry ≡ r.registry) × (r'.repo_path ≡ r.repo_path)
  unfolding set_overrides
  registry-set_overrides [] r r' h = ground arith
  registry-set_overrides ((j, n) ∷ fields) r r' h =
      let (m, set_one, set_rest) =
        >>=-eq-ok (annotate ("failed to parse " <> j) (parse_and_set_override N j n r))
          (set_overrides N fields) h in
      ground (
        arith,
        registry-set_overrides fields m r' set_rest,
        registry-parse_and_set_override j n r m (annotate-eq-ok _ _ set_one),
      )
