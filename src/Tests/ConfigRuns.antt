-- ===== src/Tests/ConfigRuns.antt =====
-- pkg/podtemplate/config.go, at concrete inputs.
use rke.Base.{◌<◌, ◌^◌, String, List, [], ◌∷◌, ◌≡◌, ◌↔◌, refl}
use rke.Base.Result.{ok}
use rke.Base.Text.{split, cut}
use rke.Base.Decimal.{parse_int}
use rke.Podtemplate.Assignment.Targets.{assign_all}
use rke.Podtemplate.Component.{etcd, kube_apiserver, cpu_request, liveness, timeout_seconds}
use rke.Podtemplate.Resources.{
  ControlPlaneResources, no_resources, parse_control_plane_resources, assign_target,
  found as resources_found, field as resource_field,
}
use rke.Podtemplate.Resources.Laws.{parse_control_plane_resources_lem}
use rke.Podtemplate.Probes.{
  ControlPlaneProbeConfs, no_probe_confs, parse_control_plane_probe_confs, found, assign, field,
}
use rke.Podtemplate.Probes.Laws.{
  parse_control_plane_probe_confs_lem, parse_control_plane_probe_confs-lt,
}
use rke.Images.Resolver.{source_defaults}
use rke.Podtemplate.Spec.{Config, PerComponent}
use rke.Podtemplate.NewConfig.{CliConfig, new_config_from_cli}
use rke.Podtemplate.NewConfig.Laws.{IsAccepted, new_config_from_cli_iff}
use rke.Tests.World.{names}
use rke.Tests.Orders.{resource_order, resource_order-Listed, probe_order, probe_order-Listed}

-- Two requests for etcd, of which the last one counts, and a limit for the apiserver.
abbrev requests : List String
requests = "etcd-cpu=2,etcd-cpu=3" ∷ []

abbrev limits : List String
limits = "kube-apiserver-memory=1Gi" ∷ []

abbrev parsed_resources : ControlPlaneResources
parsed_resources =
    assign_all assign_target
      (resources_found (("etcd-cpu-request", "3") ∷ ("kube-apiserver-memory-limit", "1Gi") ∷ []))
      resource_order no_resources

parse_control_plane_resources_example : (resource_field etcd cpu_request parsed_resources ≡ "3")
unfolding parse_control_plane_resources split cut
parse_control_plane_resources_example =
    parse_control_plane_resources_lem resource_order requests limits parsed_resources
      resource_order-Listed refl etcd cpu_request

abbrev probe_settings : List String
probe_settings = "etcd-liveness-timeout-seconds=60" ∷ []

abbrev parsed_probes : ControlPlaneProbeConfs
parsed_probes =
    assign_all assign (found (("etcd-liveness-timeout-seconds", 60) ∷ [])) probe_order
      no_probe_confs

parse_control_plane_probe_confs_example : field (etcd, liveness, timeout_seconds) parsed_probes ≡ 60
unfolding parse_control_plane_probe_confs split cut parse_int
parse_control_plane_probe_confs_example =
    parse_control_plane_probe_confs_lem probe_order probe_settings parsed_probes probe_order-Listed
      refl (etcd, liveness, timeout_seconds)

parse_control_plane_probe_confs-lt_example :
    field (kube_apiserver, liveness, timeout_seconds) parsed_probes < 2 ^ 31
unfolding parse_control_plane_probe_confs split cut parse_int
parse_control_plane_probe_confs-lt_example =
    parse_control_plane_probe_confs-lt probe_order probe_settings parsed_probes probe_order-Listed
      refl (kube_apiserver, liveness, timeout_seconds)

abbrev no_settings : PerComponent
no_settings = record {
  kube_apiserver = [];
  kube_scheduler = [];
  kube_controller_manager = [];
  kube_proxy = [];
  etcd = [];
  cloud_controller_manager = [];
}

abbrev command_line : CliConfig
command_line = record {
  images = record {
    system_default_registry = "registry.corp";
    kube_apiserver = "";
    kube_controller_manager = "";
    kube_proxy = "";
    kube_scheduler = "";
    pause = "";
    runtime = "";
    etcd = "";
    cloud_controller_manager = "";
  };
  resource_requests = requests;
  resource_limits = limits;
  probe_confs = probe_settings;
  extra_env = no_settings;
  extra_mounts = no_settings;
}

new_config_from_cli_iff_example :
    IsAccepted names (source_defaults "index.docker.io") resource_order probe_order command_line ↔ (
      (c : Config names) × (new_config_from_cli names
          (source_defaults "index.docker.io")
          resource_order
          probe_order
          "/d"
          command_line
        ≡ ok c))
new_config_from_cli_iff_example =
    new_config_from_cli_iff names (source_defaults "index.docker.io") resource_order probe_order
      "/d" command_line
