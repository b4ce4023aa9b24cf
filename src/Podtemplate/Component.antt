-- ===== src/Podtemplate/Component.antt =====
-- pkg/podtemplate/types.go: the names of the control plane's components, resources and probes.
use rke.Base.{String}

pub data Component : Type 0 where
  kube_apiserver kube_scheduler kube_controller_manager kube_proxy etcd cloud_controller_manager :
      Component

abbrev pub component_name : Component → String
component_name kube_apiserver = "kube-apiserver"
component_name kube_scheduler = "kube-scheduler"
component_name kube_controller_manager = "kube-controller-manager"
component_name kube_proxy = "kube-proxy"
component_name etcd = "etcd"
component_name cloud_controller_manager = "cloud-controller-manager"

pub data Resource : Type 0 where
  cpu_request cpu_limit memory_request memory_limit : Resource

abbrev pub resource_name : Resource → String
resource_name cpu_request = "cpu-request"
resource_name cpu_limit = "cpu-limit"
resource_name memory_request = "memory-request"
resource_name memory_limit = "memory-limit"

pub data ProbeType : Type 0 where
  liveness readiness startup : ProbeType

abbrev pub probe_name : ProbeType → String
probe_name liveness = "liveness"
probe_name readiness = "readiness"
probe_name startup = "startup"

pub data Threshold : Type 0 where
  initial_delay_seconds timeout_seconds failure_threshold period_seconds : Threshold

abbrev pub threshold_name : Threshold → String
threshold_name initial_delay_seconds = "initial-delay-seconds"
threshold_name timeout_seconds = "timeout-seconds"
threshold_name failure_threshold = "failure-threshold"
threshold_name period_seconds = "period-seconds"

pub Component-discrete : Discrete Component
Component-discrete = hlevel

pub Resource-discrete : Discrete Resource
Resource-discrete = hlevel

pub ProbeType-discrete : Discrete ProbeType
ProbeType-discrete = hlevel

pub Threshold-discrete : Discrete Threshold
Threshold-discrete = hlevel
