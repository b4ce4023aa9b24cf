-- ===== src/Podtemplate/Resources.antt =====
-- pkg/podtemplate/config.go: parseControlPlaneResources. The maps of pointers to the fields are the
-- function `assign`; the order in which Go ranges over them is the argument `order`.
pub mod Laws
use rke.Base.{String, ◌<>◌, Option, none, some, List, [], ◌∷◌}
use rke.Base.Dict.{Dict, lookup}
use rke.Base.Result.{Result, ok, ◌>>=◌}
use rke.Podtemplate.Assignment.{put_all_requests}
use rke.Podtemplate.Assignment.Targets.{assign_all, or_default}
use rke.Podtemplate.Component.{
  Component, kube_apiserver, kube_scheduler, kube_controller_manager, kube_proxy, etcd,
  cloud_controller_manager, component_name, Resource, cpu_request, cpu_limit, memory_request,
  memory_limit, resource_name,
}

pub record ControlPlaneResources : Type 0 where
  pub kube_apiserver_cpu_request : String
  pub kube_apiserver_cpu_limit : String
  pub kube_apiserver_memory_request : String
  pub kube_apiserver_memory_limit : String
  pub kube_scheduler_cpu_request : String
  pub kube_scheduler_cpu_limit : String
  pub kube_scheduler_memory_request : String
  pub kube_scheduler_memory_limit : String
  pub kube_controller_manager_cpu_request : String
  pub kube_controller_manager_cpu_limit : String
  pub kube_controller_manager_memory_request : String
  pub kube_controller_manager_memory_limit : String
  pub kube_proxy_cpu_request : String
  pub kube_proxy_cpu_limit : String
  pub kube_proxy_memory_request : String
  pub kube_proxy_memory_limit : String
  pub etcd_cpu_request : String
  pub etcd_cpu_limit : String
  pub etcd_memory_request : String
  pub etcd_memory_limit : String
  pub cloud_controller_manager_cpu_request : String
  pub cloud_controller_manager_cpu_limit : String
  pub cloud_controller_manager_memory_request : String
  pub cloud_controller_manager_memory_limit : String

-- The zero value of the struct.
abbrev pub no_resources : ControlPlaneResources
no_resources = record {
  kube_apiserver_cpu_request = "";
  kube_apiserver_cpu_limit = "";
  kube_apiserver_memory_request = "";
  kube_apiserver_memory_limit = "";
  kube_scheduler_cpu_request = "";
  kube_scheduler_cpu_limit = "";
  kube_scheduler_memory_request = "";
  kube_scheduler_memory_limit = "";
  kube_controller_manager_cpu_request = "";
  kube_controller_manager_cpu_limit = "";
  kube_controller_manager_memory_request = "";
  kube_controller_manager_memory_limit = "";
  kube_proxy_cpu_request = "";
  kube_proxy_cpu_limit = "";
  kube_proxy_memory_request = "";
  kube_proxy_memory_limit = "";
  etcd_cpu_request = "";
  etcd_cpu_limit = "";
  etcd_memory_request = "";
  etcd_memory_limit = "";
  cloud_controller_manager_cpu_request = "";
  cloud_controller_manager_cpu_limit = "";
  cloud_controller_manager_memory_request = "";
  cloud_controller_manager_memory_limit = "";
}

-- `*target = value` for the field that the map holds for a component and a resource.
unfoldable pub assign :
    Component → Resource → String → ControlPlaneResources → ControlPlaneResources
assign kube_apiserver cpu_request value s = record s { kube_apiserver_cpu_request = value }
assign kube_apiserver cpu_limit value s = record s { kube_apiserver_cpu_limit = value }
assign kube_apiserver memory_request value s = record s { kube_apiserver_memory_request = value }
assign kube_apiserver memory_limit value s = record s { kube_apiserver_memory_limit = value }
assign kube_scheduler cpu_request value s = record s { kube_scheduler_cpu_request = value }
assign kube_scheduler cpu_limit value s = record s { kube_scheduler_cpu_limit = value }
assign kube_scheduler memory_request value s = record s { kube_scheduler_memory_request = value }
assign kube_scheduler memory_limit value s = record s { kube_scheduler_memory_limit = value }
assign kube_controller_manager cpu_request value s = record s {
  kube_controller_manager_cpu_request = value;
}
assign kube_controller_manager cpu_limit value s = record s {
  kube_controller_manager_cpu_limit = value;
}
assign kube_controller_manager memory_request value s = record s {
  kube_controller_manager_memory_request = value;
}
assign kube_controller_manager memory_limit value s = record s {
  kube_controller_manager_memory_limit = value;
}
assign kube_proxy cpu_request value s = record s { kube_proxy_cpu_request = value }
assign kube_proxy cpu_limit value s = record s { kube_proxy_cpu_limit = value }
assign kube_proxy memory_request value s = record s { kube_proxy_memory_request = value }
assign kube_proxy memory_limit value s = record s { kube_proxy_memory_limit = value }
assign etcd cpu_request value s = record s { etcd_cpu_request = value }
assign etcd cpu_limit value s = record s { etcd_cpu_limit = value }
assign etcd memory_request value s = record s { etcd_memory_request = value }
assign etcd memory_limit value s = record s { etcd_memory_limit = value }
assign cloud_controller_manager cpu_request value s = record s {
  cloud_controller_manager_cpu_request = value;
}
assign cloud_controller_manager cpu_limit value s = record s {
  cloud_controller_manager_cpu_limit = value;
}
assign cloud_controller_manager memory_request value s = record s {
  cloud_controller_manager_memory_request = value;
}
assign cloud_controller_manager memory_limit value s = record s {
  cloud_controller_manager_memory_limit = value;
}

-- The field itself.
unfoldable pub field : Component → Resource → ControlPlaneResources → String
field kube_apiserver cpu_request s = s.kube_apiserver_cpu_request
field kube_apiserver cpu_limit s = s.kube_apiserver_cpu_limit
field kube_apiserver memory_request s = s.kube_apiserver_memory_request
field kube_apiserver memory_limit s = s.kube_apiserver_memory_limit
field kube_scheduler cpu_request s = s.kube_scheduler_cpu_request
field kube_scheduler cpu_limit s = s.kube_scheduler_cpu_limit
field kube_scheduler memory_request s = s.kube_scheduler_memory_request
field kube_scheduler memory_limit s = s.kube_scheduler_memory_limit
field kube_controller_manager cpu_request s = s.kube_controller_manager_cpu_request
field kube_controller_manager cpu_limit s = s.kube_controller_manager_cpu_limit
field kube_controller_manager memory_request s = s.kube_controller_manager_memory_request
field kube_controller_manager memory_limit s = s.kube_controller_manager_memory_limit
field kube_proxy cpu_request s = s.kube_proxy_cpu_request
field kube_proxy cpu_limit s = s.kube_proxy_cpu_limit
field kube_proxy memory_request s = s.kube_proxy_memory_request
field kube_proxy memory_limit s = s.kube_proxy_memory_limit
field etcd cpu_request s = s.etcd_cpu_request
field etcd cpu_limit s = s.etcd_cpu_limit
field etcd memory_request s = s.etcd_memory_request
field etcd memory_limit s = s.etcd_memory_limit
field cloud_controller_manager cpu_request s = s.cloud_controller_manager_cpu_request
field cloud_controller_manager cpu_limit s = s.cloud_controller_manager_cpu_limit
field cloud_controller_manager memory_request s = s.cloud_controller_manager_memory_request
field cloud_controller_manager memory_limit s = s.cloud_controller_manager_memory_limit

unfoldable pub default_resource : Component → Resource → Option String
default_resource kube_apiserver cpu_request = some "250m"
default_resource kube_apiserver memory_request = some "1024Mi"
default_resource kube_scheduler cpu_request = some "100m"
default_resource kube_scheduler memory_request = some "128Mi"
default_resource kube_controller_manager cpu_request = some "200m"
default_resource kube_controller_manager memory_request = some "256Mi"
default_resource kube_proxy cpu_request = some "250m"
default_resource kube_proxy memory_request = some "128Mi"
default_resource etcd cpu_request = some "200m"
default_resource etcd memory_request = some "512Mi"
default_resource cloud_controller_manager cpu_request = some "100m"
default_resource cloud_controller_manager memory_request = some "128Mi"
default_resource _ _ = none

abbrev pub key : Component → Resource → String
key c r = component_name c <> ("-" <> resource_name r)

-- The value that the loops find for a target.
abbrev pub found : Dict String → Component × Resource → Option String
found parsed (c, r) = or_default (lookup (key c r) parsed) (default_resource c r)

abbrev pub assign_target :
    Component × Resource → String → ControlPlaneResources → ControlPlaneResources
assign_target (c, r) = assign c r

abbrev pub field_of : Component × Resource → ControlPlaneResources → String
field_of (c, r) = field c r

unfoldable pub parse_control_plane_resources :
    List (Component × Resource) → List String → List String → Result ControlPlaneResources
unfolding put_all_requests assign_all assign lookup default_resource
parse_control_plane_resources order requests limits = do
  requested ← put_all_requests "request" requests []
  parsed ← put_all_requests "limit" limits requested
  ok (assign_all assign_target (found parsed) order no_resources)
