-- ===== src/Podtemplate/Spec.antt =====
-- pkg/podtemplate/types.go and spec.go: the configuration, and the Spec of each component.
pub mod Wiring
use rke.Base.{
  ℕ, ◌%◌, ◌^◌, String, ◌<>◌, Option, none, some, List, [], ◌∷◌, Bool, true, false, ◌=ₛ◌,
  if◌then◌else◌,
}
use rke.Base.Act.{Act, pure, lift, ◌>>=◌, ◌>>◌}
use rke.Base.Decimal.{ℤ, decimal}
use rke.Base.Dict.{Dict}
use rke.Base.Os.{Os}
use rke.Images.Names.{Names}
use rke.Images.Preload.{pull}
use rke.Images.Resolver
use rke.Images.Resolver.{Resolver, Defaults, get_reference}
use rke.Podtemplate.Probes.{ControlPlaneProbeConfs, ProbeConfs}
use rke.Podtemplate.Resources.{ControlPlaneResources}

pub record ContainerPort : Type 0 where
  pub name : String
  pub container_port : ℕ

-- The fields of v1.PodSecurityContext that the program sets; `selinux_type` is that of SELinuxOptions.
pub record SecurityContext : Type 0 where
  pub run_as_user : Option ℤ
  pub run_as_group : Option ℤ
  pub selinux_type : Option String

-- ControlPlaneEnv and ControlPlaneMounts have the same fields.
pub record PerComponent : Type 0 where
  pub kube_apiserver : List String
  pub kube_scheduler : List String
  pub kube_controller_manager : List String
  pub kube_proxy : List String
  pub etcd : List String
  pub cloud_controller_manager : List String

pub record Config (N : Names) : Type 0 where
  pub images_dir : String
  pub data_dir : String
  pub resolver : Resolver N
  pub env : PerComponent
  pub mounts : PerComponent
  pub probes : ControlPlaneProbeConfs
  pub resources : ControlPlaneResources

pub record Spec (N : Names) : Type 0 where
  pub command : String
  pub args : List String
  pub image : N.Reference
  pub dirs : List String
  pub files : List String
  pub sockets : List String
  pub exclude_files : List String
  pub startup_exec : List String
  pub startup_port : ℕ
  pub startup_scheme : String
  pub startup_path : String
  pub health_exec : List String
  pub health_port : ℕ
  pub health_scheme : String
  pub health_path : String
  pub ready_exec : List String
  pub ready_port : ℕ
  pub ready_scheme : String
  pub ready_path : String
  pub cpu_request : String
  pub cpu_limit : String
  pub memory_request : String
  pub memory_limit : String
  pub extra_mounts : List String
  pub extra_env : List String
  pub probe_confs : ProbeConfs
  pub security_context : Option SecurityContext
  pub ports : List ContainerPort
  pub annotations : Dict String
  pub privileged : Bool
  pub host_network : Bool

module _ (N : Names) where
  -- The fields that every component gives, and the zero value of the others.
  abbrev pub plain_spec : String → List String → N.Reference → ProbeConfs → Spec N
  plain_spec command args image probe_confs = record {
    command = command;
    args = args;
    image = image;
    dirs = [];
    files = [];
    sockets = [];
    exclude_files = [];
    startup_exec = [];
    startup_port = 0;
    startup_scheme = "";
    startup_path = "";
    health_exec = [];
    health_port = 0;
    health_scheme = "";
    health_path = "";
    ready_exec = [];
    ready_port = 0;
    ready_scheme = "";
    ready_path = "";
    cpu_request = "";
    cpu_limit = "";
    memory_request = "";
    memory_limit = "";
    extra_mounts = [];
    extra_env = [];
    probe_confs = probe_confs;
    security_context = none;
    ports = [];
    annotations = [];
    privileged = false;
    host_network = false;
  }

  -- The command of a probe of the apiserver: `path` is "livez" or "readyz".
  abbrev apiserver_exec : String → String → String → List String
  apiserver_exec server data_dir path =
      "kubectl"
      ∷ "get"
      ∷ ("--server=" <> server)
      ∷ ("--client-certificate=" <> (data_dir <> "/server/tls/client-kube-apiserver.crt"))
      ∷ ("--client-key=" <> (data_dir <> "/server/tls/client-kube-apiserver.key"))
      ∷ ("--certificate-authority=" <> (data_dir <> "/server/tls/server-ca.crt"))
      ∷ ("--raw=/" <> path)
      ∷ []

  abbrev port : String → ℕ → ContainerPort
  port name number = record { name = name; container_port = number }

  module _ (os : Os) (d : Defaults) (c : Config N) where
    unfoldable pub resolve_and_pull : String → Act os.State N.Reference
    unfolding get_reference pull
    resolve_and_pull image_name = do
      image ← lift (get_reference N d c.resolver image_name [])
      (if c.images_dir =ₛ "" then pure tt else pull N os c.images_dir image_name image)
      pure image

    -- `api_server_port` is that of the server's configuration, which pkg/cli of k3s keeps.
    unfoldable pub api_server : ℕ → List String → Act os.State (Spec N)
    unfolding resolve_and_pull decimal
    api_server api_server_port args = do
      image ← resolve_and_pull Resolver.kube_apiserver
      let server = "https://localhost:" <> (decimal api_server_port <> "/")
      pure (record (plain_spec "kube-apiserver" args image c.probes.kube_apiserver) {
        cpu_request = c.resources.kube_apiserver_cpu_request;
        cpu_limit = c.resources.kube_apiserver_cpu_limit;
        memory_request = c.resources.kube_apiserver_memory_request;
        memory_limit = c.resources.kube_apiserver_memory_limit;
        extra_env = c.env.kube_apiserver;
        extra_mounts = c.mounts.kube_apiserver;
        startup_exec = apiserver_exec server c.data_dir "livez";
        health_exec = apiserver_exec server c.data_dir "livez";
        ready_exec = apiserver_exec server c.data_dir "readyz";
        ports = port "apiserver" (api_server_port % 2 ^ 32) ∷ [];
      })

    unfoldable pub etcd : List String → Act os.State (Spec N)
    unfolding resolve_and_pull
    etcd args = do
      image ← resolve_and_pull Resolver.etcd
      pure (record (plain_spec "etcd" args image c.probes.etcd) {
        health_port = 2381;
        health_path = "/health?serializable=true";
        health_scheme = "HTTP";
        startup_port = 2381;
        startup_path = "/health?serializable=true";
        startup_scheme = "HTTP";
        cpu_request = c.resources.etcd_cpu_request;
        cpu_limit = c.resources.etcd_cpu_limit;
        memory_request = c.resources.etcd_memory_request;
        memory_limit = c.resources.etcd_memory_limit;
        extra_env = c.env.etcd;
        extra_mounts = c.mounts.etcd;
        ports = port "client" 2379 ∷ port "peer" 2380 ∷ port "metrics" 2381 ∷ [];
      })

    unfoldable pub scheduler : List String → Act os.State (Spec N)
    unfolding resolve_and_pull
    scheduler args = do
      image ← resolve_and_pull Resolver.kube_scheduler
      pure (record (plain_spec "kube-scheduler" args image c.probes.kube_scheduler) {
        health_port = 10259;
        health_scheme = "HTTPS";
        ready_port = 10259;
        ready_scheme = "HTTPS";
        ready_path = "/readyz";
        startup_port = 10259;
        startup_scheme = "HTTPS";
        cpu_request = c.resources.kube_scheduler_cpu_request;
        cpu_limit = c.resources.kube_scheduler_cpu_limit;
        memory_request = c.resources.kube_scheduler_memory_request;
        memory_limit = c.resources.kube_scheduler_memory_limit;
        extra_env = c.env.kube_scheduler;
        extra_mounts = c.mounts.kube_scheduler;
        ports = port "metrics" 10259 ∷ [];
      })

    unfoldable pub controller_manager : List String → Act os.State (Spec N)
    unfolding resolve_and_pull
    controller_manager args = do
      image ← resolve_and_pull Resolver.kube_controller_manager
      pure
          (record (plain_spec "kube-controller-manager" args image
            c.probes.kube_controller_manager) {
              health_port = 10257;
              health_scheme = "HTTPS";
              health_path = "/healthz";
              startup_port = 10257;
              startup_scheme = "HTTPS";
              startup_path = "/healthz";
              cpu_request = c.resources.kube_controller_manager_cpu_request;
              cpu_limit = c.resources.kube_controller_manager_cpu_limit;
              memory_request = c.resources.kube_controller_manager_memory_request;
              memory_limit = c.resources.kube_controller_manager_memory_limit;
              extra_env = c.env.kube_controller_manager;
              extra_mounts = c.mounts.kube_controller_manager;
              ports = port "metrics" 10257 ∷ [];
            })

    unfoldable pub cloud_controller_manager : List String → Act os.State (Spec N)
    unfolding resolve_and_pull
    cloud_controller_manager args = do
      image ← resolve_and_pull Resolver.cloud_controller_manager
      pure
          (record (plain_spec "cloud-controller-manager" args image
            c.probes.cloud_controller_manager) {
              health_port = 10258;
              health_scheme = "HTTPS";
              health_path = "/healthz";
              startup_port = 10258;
              startup_scheme = "HTTPS";
              startup_path = "/healthz";
              cpu_request = c.resources.cloud_controller_manager_cpu_request;
              cpu_limit = c.resources.cloud_controller_manager_cpu_limit;
              memory_request = c.resources.cloud_controller_manager_memory_request;
              memory_limit = c.resources.cloud_controller_manager_memory_limit;
              extra_env = c.env.cloud_controller_manager;
              extra_mounts = c.mounts.cloud_controller_manager;
              ports = port "metrics" 10258 ∷ [];
            })

    unfoldable pub kube_proxy : List String → Act os.State (Spec N)
    unfolding resolve_and_pull
    kube_proxy args = do
      image ← resolve_and_pull Resolver.kube_proxy
      pure (record (plain_spec "kube-proxy" args image c.probes.kube_proxy) {
        health_port = 10256;
        health_scheme = "HTTP";
        cpu_request = c.resources.kube_proxy_cpu_request;
        cpu_limit = c.resources.kube_proxy_cpu_limit;
        memory_request = c.resources.kube_proxy_memory_request;
        memory_limit = c.resources.kube_proxy_memory_limit;
        extra_env = c.env.kube_proxy;
        extra_mounts = c.mounts.kube_proxy;
        privileged = true;
        ports = port "metrics" 10256 ∷ [];
      })
