-- ===== src/Podtemplate/NewConfig.antt =====
-- pkg/podtemplate/config.go: NewConfigFromCLI. A string slice of the command line is its values.
pub mod Laws
use rke.Base.{String, List, [], ◌∷◌}
use rke.Base.FilePath.{join_path}
use rke.Base.Result.{Result, ok, ◌>>=◌}
use rke.Images.Names.{Names}
use rke.Images.Resolver.{Resolver, Defaults, ImageOverrideConfig, new_resolver}
use rke.Podtemplate.Component.{Component, Resource}
use rke.Podtemplate.Probes.{Target, ControlPlaneProbeConfs, parse_control_plane_probe_confs}
use rke.Podtemplate.Resources.{ControlPlaneResources, parse_control_plane_resources}
use rke.Podtemplate.Spec.{Config, PerComponent}

-- The fields of the command line's configuration that it reads.
pub record CliConfig : Type 0 where
  pub images : ImageOverrideConfig
  pub resource_requests : List String
  pub resource_limits : List String
  pub probe_confs : List String
  pub extra_env : PerComponent
  pub extra_mounts : PerComponent

-- parseControlPlaneEnv and parseControlPlaneMounts copy the values of each component.
abbrev pub parse_per_component : PerComponent → PerComponent
parse_per_component extra = record {
  kube_apiserver = extra.kube_apiserver;
  kube_scheduler = extra.kube_scheduler;
  kube_controller_manager = extra.kube_controller_manager;
  kube_proxy = extra.kube_proxy;
  etcd = extra.etcd;
  cloud_controller_manager = extra.cloud_controller_manager;
}

module _ (N : Names) (d : Defaults) (resources : List (Component × Resource))
    (probes : List Target) where
  abbrev pub config_of :
      String → CliConfig → Resolver N → ControlPlaneResources → ControlPlaneProbeConfs → Config N
  config_of data_dir cfg resolver parsed_resources parsed_probes = record {
    images_dir = join_path (data_dir ∷ "agent" ∷ "images" ∷ []);
    data_dir = data_dir;
    resolver = resolver;
    env = parse_per_component cfg.extra_env;
    mounts = parse_per_component cfg.extra_mounts;
    probes = parsed_probes;
    resources = parsed_resources;
  }

  unfoldable pub new_config_from_cli : String → CliConfig → Result (Config N)
  unfolding new_resolver parse_control_plane_resources parse_control_plane_probe_confs join_path
  new_config_from_cli data_dir cfg = do
    resolver ← new_resolver N d cfg.images
    parsed_resources ←
        parse_control_plane_resources resources cfg.resource_requests cfg.resource_limits
    parsed_probes ← parse_control_plane_probe_confs probes cfg.probe_confs
    ok (config_of data_dir cfg resolver parsed_resources parsed_probes)
