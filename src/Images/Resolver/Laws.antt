-- ===== src/Images/Resolver/Laws.antt =====
-- pkg/images/images.go: what NewResolver configures, when it fails, and what GetReference returns.
use rke.Base.{
  String, ◌<>◌, Option, none, some, List, [], ◌∷◌, ◌≡◌, ◌⊎◌, ◌↔◌, refl, sym, ◌∙◌, ◌=ₛ◌, eq_iff, inl,
  inr, Bool-cases, if◌then◌else◌, All,
}
use mathlib.Core.Bool.{false≢true}
use rke.Base.Dict.{insert}
use rke.Base.Result.{ok, ◌>>=◌, >>=-eq-ok, annotate, annotate-eq-ok}
use rke.Base.Text.{trim_space}
use rke.Images.Names.{Names}
use rke.Images.Registry.{split_registry_and_path}
use rke.Images.Resolver.{
  Resolver, ImageOverrideConfig, Defaults, parse_and_set_default_registry, parse_and_set_override,
  set_overrides, override_fields, new_resolver, initial, configure_registry,
}
use rke.Images.Resolver.Lookups.{field_override}

module _ (N : Names) where
  -- What the configuration gives for an image: nothing, if its field is missing or blank.
  abbrev pub configured : Option String → Option N.Reference → Option N.Reference
  configured none before = before
  configured (some n) before = field_override N n before

  -- The registry of the configuration and its path, or the default registry and no path.
  abbrev pub HasRegistry : Defaults → ImageOverrideConfig → Resolver N → Type 0
  HasRegistry d c r =
      if c.system_default_registry =ₛ ""
      then (N.new_registry d.registry ≡ ok r.registry) × (r.repo_path ≡ "")
      else (N.new_registry (split_registry_and_path c.system_default_registry).0 ≡ ok r.registry)
        × (r.repo_path ≡ (split_registry_and_path c.system_default_registry).1)

  -- A field that is blank or that the library parses.
  abbrev pub FieldParses : String × String → Type 0
  FieldParses (i, n) =
      (trim_space n ≡ "") ⊎ ((ref : N.Reference) × (N.parse_reference (trim_space n) ≡ ok ref))

  parse_and_set_override_iff :
      (i n : String) (r : Resolver N)
      → FieldParses (i, n) ↔ ((r' : Resolver N) × (parse_and_set_override N i n r ≡ ok r'))
  unfolding parse_and_set_override
  parse_and_set_override_iff i n r = elim (Bool-cases (trim_space n =ₛ "")) [
    | inl blank ↦ (λ _. (r, rw blank), λ _. inl ((eq_iff (trim_space n) "").0 blank))
    | inr given ↦ (
      λ p. elim p [
        | inl e ↦ absurd (false≢true (sym given ∙ (eq_iff (trim_space n) "").1 e))
        | inr (ref, parsed) ↦
            (record r { overrides = insert i ref r.overrides }, rw (given, parsed))
      ],
      λ (r', h).
          let (ref, parsed, _) =
            >>=-eq-ok (N.parse_reference (trim_space n))
              (λ ref. ok (record r { overrides = insert i ref r.overrides })) (rw given at h) in
          inr (ref, parsed),
    )
  ]

  set_overrides_iff :
      (fields : List (String × String)) (r : Resolver N)
      → All FieldParses fields ↔ ((r' : Resolver N) × (set_overrides N fields r ≡ ok r'))
  unfolding set_overrides
  set_overrides_iff [] r = (λ _. (r, refl), λ _. tt)
  set_overrides_iff ((i, n) ∷ fields) r = (
    λ (p, ps).
        let (m, stored) = (parse_and_set_override_iff i n r).0 p in
        let (r', h) = (set_overrides_iff fields m).0 ps in (r', rw stored h),
    λ (r', h).
        let (m, set_one, set_rest) =
          >>=-eq-ok (annotate ("failed to parse " <> i) (parse_and_set_override N i n r))
            (set_overrides N fields) h in
        (
          (parse_and_set_override_iff i n r).1 (m, annotate-eq-ok _ _ set_one),
          (set_overrides_iff fields m).1 (r', set_rest),
        ),
  )

  -- The system default registry is blank, or its host is a registry.
  abbrev pub RegistryParses : String → Type 0
  RegistryParses s =
      (s ≡ "")
      ⊎ ((registry : N.Registry) × (N.new_registry (split_registry_and_path s).0 ≡ ok registry))

  configure_registry_iff :
      (s : String) (r : Resolver N)
      → RegistryParses s ↔ ((r' : Resolver N) × (configure_registry N s r ≡ ok r'))
  unfolding parse_and_set_default_registry
  configure_registry_iff s r = elim (Bool-cases (s =ₛ "")) [
    | inl blank ↦ (λ _. (r, rw blank), λ _. inl ((eq_iff s "").0 blank))
    | inr given ↦ (
      λ p. elim p [
        | inl e ↦ absurd (false≢true (sym given ∙ (eq_iff s "").1 e))
        | inr (registry, parsed) ↦ (
          record r { registry = registry; repo_path = (split_registry_and_path s).1 },
          rw (given, parsed),
        )
      ],
      λ (r', h).
          let (registry, parsed, _) =
            >>=-eq-ok (N.new_registry (split_registry_and_path s).0)
              (λ registry.
                ok (record r { registry = registry; repo_path = (split_registry_and_path s).1 }))
              (annotate-eq-ok _ _ (rw given at h)) in
          inr (registry, parsed),
    )
  ]

  -- NewResolver returns a resolver exactly when the default registry is a registry, every image
  -- field is blank or a reference, and the system default registry is blank or has a registry as host.
  pub new_resolver_iff :
      (d : Defaults) (c : ImageOverrideConfig)
      → (((registry : N.Registry) × (N.new_registry d.registry ≡ ok registry))
          × All FieldParses (override_fields N c)
          × RegistryParses c.system_default_registry)
        ↔ ((r : Resolver N) × (new_resolver N d c ≡ ok r))
  unfolding new_resolver
  new_resolver_iff d c = (
    λ ((registry, default), fields, system).
        let (m, overridden) =
          (set_overrides_iff (override_fields N c) (initial N registry)).0 fields in
        let (r, h) = (configure_registry_iff c.system_default_registry m).0 system in
        (r, rw (default, overridden) h),
    λ (r, h).
        let (registry, default, later) =
          >>=-eq-ok (N.new_registry d.registry)
            (λ registry.
              set_overrides N (override_fields N c) (initial N registry)
              >>= configure_registry N c.system_default_registry)
            h in
        let (m, overridden, finish) =
          >>=-eq-ok (set_overrides N (override_fields N c) (initial N registry))
            (configure_registry N c.system_default_registry) later in
        (
          (registry, default),
          (set_overrides_iff (override_fields N c) (initial N registry)).1 (m, overridden),
          (configure_registry_iff c.system_default_registry m).1 (r, finish),
        ),
  )
