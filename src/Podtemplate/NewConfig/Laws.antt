-- ===== src/Podtemplate/NewConfig/Laws.antt =====
-- pkg/podtemplate/config.go: when NewConfigFromCLI succeeds.
use rke.Base.{String, List, ◌≡◌, ◌↔◌, refl, All}
use rke.Base.Result.{ok, >>=-eq-ok}
use rke.Images.Names.{Names}
use rke.Images.Resolver.{Defaults, new_resolver, override_fields}
use rke.Images.Resolver.Laws.{FieldParses, RegistryParses, new_resolver_iff}
use rke.Podtemplate.Assignment.Accepted.{IsSetting, IsProbeSetting}
use rke.Podtemplate.Assignment.Laws.{settings}
use rke.Podtemplate.Component.{Component, Resource}
use rke.Podtemplate.Probes.{Target, parse_control_plane_probe_confs}
use rke.Podtemplate.Probes.Laws.{parse_control_plane_probe_confs_iff}
use rke.Podtemplate.Resources.{parse_control_plane_resources}
use rke.Podtemplate.Resources.Laws.{parse_control_plane_resources_iff}
use rke.Podtemplate.Spec.{Config}
use rke.Podtemplate.NewConfig.{CliConfig, config_of, new_config_from_cli}

module _ (N : Names) (d : Defaults) (resources : List (Component × Resource))
    (probes : List Target) where
  -- The parts of the command line that are checked.
  abbrev pub IsAccepted : CliConfig → Type 0
  IsAccepted cfg =
      (((registry : N.Registry) × (N.new_registry d.registry ≡ ok registry))
        × All (FieldParses N) (override_fields N cfg.images)
        × RegistryParses N cfg.images.system_default_registry)
      × (All IsSetting (settings cfg.resource_requests)
          × All IsSetting (settings cfg.resource_limits))
      × All IsProbeSetting (settings cfg.probe_confs)

  -- NewConfigFromCLI succeeds exactly when the images and registries parse, every resource setting has
  -- an equals sign, and every probe setting has a number of 32 bits that is not negative.
  pub new_config_from_cli_iff :
      (data_dir : String) (cfg : CliConfig)
      → IsAccepted cfg
        ↔ ((c : Config N) × (new_config_from_cli N d resources probes data_dir cfg ≡ ok c))
  unfolding new_config_from_cli
  new_config_from_cli_iff data_dir cfg = (
    λ (images, settable, probable).
        let (resolver, one) = (new_resolver_iff N d cfg.images).0 images in
        let (parsed, two) =
          (parse_control_plane_resources_iff resources cfg.resource_requests cfg.resource_limits).0
            settable in
        let (confs, three) =
          (parse_control_plane_probe_confs_iff probes cfg.probe_confs).0 probable in
        (
          config_of N d resources probes data_dir cfg resolver parsed confs,
          rw (one, two, three) refl,
        ),
    λ (c, h).
        let (resolver, one, rest) = >>=-eq-ok (new_resolver N d cfg.images) _ h in
        let (parsed, two, rest') =
          >>=-eq-ok
            (parse_control_plane_resources resources cfg.resource_requests cfg.resource_limits) _
            rest in
        let (confs, three, _) =
          >>=-eq-ok (parse_control_plane_probe_confs probes cfg.probe_confs) _ rest' in
        (
          (new_resolver_iff N d cfg.images).1 (resolver, one),
          (parse_control_plane_resources_iff resources cfg.resource_requests cfg.resource_limits).1
              (parsed, two),
          (parse_control_plane_probe_confs_iff probes cfg.probe_confs).1 (confs, three),
        ),
  )
