-- ===== src/Start.antt =====
-- pkg/rke2: how a server or an agent is started, up to the executor. The flags are read beforehand, and
-- what k3s keeps in cmds.ServerConfig is a value that is handed on.
pub mod Psa
pub mod Laws
pub mod Restore
use rke.Base.{
  ℕ, Bool, true, false, not, ◌&&◌, ◌||◌, String, ◌<>◌, Option, none, some, List, [], ◌∷◌, ◌=ₛ◌,
  if◌then◌else◌,
}
use rke.Base.Dict.{Dict}
use rke.Base.FilePath.{join_path}
use rke.Base.Os.{Os, FileKind}
use rke.Base.Result.{Result, ok, err, Error, message, with_message, is_not_exist}
use rke.Base.Act.{Act, pure, raise, lift, ask, wrap, ◌>>=◌, ◌>>◌}
use rke.Images.Names.{Names}
use rke.Podtemplate.Spec.{Config}
use rke.Staticpod.Executor.{
  StaticPodConfig, CloudProviderConfig, ProfileMode, profile_none, profile_cis, profile_etcd,
}
use rke.Staticpod.Components.{etcd_name_file}
use rke.Staticpod.Cleanup.{Cri, Event, pod_manifests_dir, is_missing, remove_disabled_pods}
use rke.Start.Psa.{set_psas, default_psa_config_file}

-- What initStaticPodExecutor reads of the command line.
pub record Flags : Type 0 where
  pub data_dir : String
  pub profile : String
  pub disable_etcd : Bool
  pub has_server : Bool
  pub has_datastore_endpoint : Bool
  pub cluster_reset : Bool
  pub cluster_reset_restore_path : String
  pub disable_cloud_controller : Bool
  pub disable_apiserver : Bool
  pub disable_controller_manager : Bool
  pub disable_scheduler : Bool
  pub pod_security_admission_config_file : String
  pub audit_policy_file : String
  pub prime : Bool

-- The fields of cmds.ServerConfig that are read or set.
pub record ServerConfig : Type 0 where
  pub datastore_endpoint : String
  pub disable_etcd : Bool
  pub cluster_init : Bool
  pub kine_tls : Bool

-- The fields of the command line's own configuration, but for those that NewConfigFromCLI reads.
pub record CloudConfig : Type 0 where
  pub cloud_provider_name : String
  pub cloud_provider_config : String
  pub cloud_provider_metadata_hostname : Bool
  pub kubelet_path : String
  pub ingress_controller : List String

abbrev pub is_cis_mode : Flags → Bool
is_cis_mode flags = flags.profile =ₛ "cis"

abbrev pub profile_mode : Flags → ProfileMode
profile_mode flags =
    if flags.profile =ₛ "cis"
    then profile_cis
    else if flags.profile =ₛ "etcd"
    then profile_etcd
    else profile_none

abbrev pub force_restart_file : String → String
force_restart_file data_dir = join_path (data_dir ∷ "force-restart" ∷ [])

-- DisableETCD of the executor, ExternalDatabase, and the settings of k3s.
pub record Datastore : Type 0 where
  pub disable_etcd : Bool
  pub external_database : Bool
  pub server_config : ServerConfig

abbrev pub is_etcd_scheme : String → Bool
is_etcd_scheme scheme =
    scheme =ₛ "http" || scheme =ₛ "https" || scheme =ₛ "unix" || scheme =ₛ "unixs"

abbrev pub without_etcd : ServerConfig → ServerConfig
without_etcd c = record c { disable_etcd = false; cluster_init = false }

-- The scheme of the endpoint, as kine reads it, is an argument.
unfoldable pub datastore : (String → String) → Flags → ServerConfig → Datastore
datastore scheme_of flags c =
    if not (c.datastore_endpoint =ₛ "") || (flags.disable_etcd && not flags.has_server)
    then (if is_etcd_scheme (scheme_of c.datastore_endpoint)
        then record {
          disable_etcd = true;
          external_database = false;
          server_config = without_etcd c;
        }
        else record {
          disable_etcd = true;
          external_database = true;
          server_config = record (without_etcd c) { kine_tls = true };
        })
    else record { disable_etcd = flags.disable_etcd; external_database = false; server_config = c }

-- The in-tree provider aws only stands for the hostname from the metadata.
unfoldable pub cloud_provider : CloudConfig → Result (Option CloudProviderConfig × Bool)
cloud_provider cfg =
    if not (cfg.cloud_provider_config =ₛ "") && cfg.cloud_provider_name =ₛ ""
    then err (message "--cloud-provider-config requires --cloud-provider-name to be provided")
    else if cfg.cloud_provider_name =ₛ ""
    then ok (none, cfg.cloud_provider_metadata_hostname)
    else if cfg.cloud_provider_name =ₛ "aws"
    then ok (none, true)
    else ok (
      some (record { name = cfg.cloud_provider_name; path = cfg.cloud_provider_config }),
      cfg.cloud_provider_metadata_hostname,
    )

-- Which components are disabled.
unfoldable pub disabled_items : Bool → Bool → Flags → Dict Bool
disabled_items is_server force_restart flags =
    let always = not is_server || force_restart in
    ("cloud-controller-manager", always || flags.disable_cloud_controller)
    ∷ ("etcd", always || (flags.disable_etcd || flags.has_datastore_endpoint))
    ∷ ("kube-apiserver", always || flags.disable_apiserver)
    ∷ ("kube-controller-manager", always || flags.disable_controller_manager)
    ∷ ("kube-scheduler", always || flags.disable_scheduler)
    ∷ []

abbrev pub containerd_sock : String
containerd_sock = "/run/k3s/containerd/containerd.sock"

abbrev pub or_default : String → String → String
or_default default value = if value =ₛ "" then default else value

-- What the host says: the hostname of the metadata endpoint, `hostname -f`, and clx.Set of node-name.
pub record Host : Type 0 where
  pub metadata_hostname : String
  pub hostname_fqdn : Result String
  pub set_node_name : String → Result (Unit {0})

abbrev pub node_name : Host → Result String
node_name host =
    if host.metadata_hostname =ₛ "" then host.hostname_fqdn else ok host.metadata_hostname

abbrev name_set : String → Result (Unit {0}) → Result (Option String)
name_set name (ok u) = ok (some name)
name_set name (err e) = err e

abbrev set_name : Host → Result String → Result (Option String)
set_name host (ok name) = name_set name (host.set_node_name name)
set_name host (err e) = err e

-- The name of the node, where it is taken from the host.
abbrev pub named_node : Host → Bool → Result (Option String)
named_node host false = ok none
named_node host true = set_name host (node_name host)

-- StaticPodConfig with the fields that its Specs do not depend on.
pub record StartedExecutor (N : Names) : Type 0 where
  pub static_pods : StaticPodConfig N
  pub kubelet_path : String
  pub runtime_endpoint : String
  pub is_server : Bool
  pub prime : Bool
  pub ingress_controller : List String
  pub server_config : ServerConfig
  pub name_of_node : Option String

pub record Prepared (N : Names) : Type 0 where
  pub executor : StartedExecutor N
  pub disabled : Dict Bool
  pub cluster_reset : Bool

-- The cloud provider, the name of the node, and the configuration.
abbrev pub Choices : Names → Type 0
Choices N = Option CloudProviderConfig × Option String × Config N

abbrev with_config :
    {N : Names}
    → Option CloudProviderConfig
    → Option String
    → Result (Config N)
    → Result (Choices N)
with_config provider name (ok config) = ok (provider, name, config)
with_config provider name (err e) = err (with_message "failed to parse pod template config" e)

abbrev with_name :
    {N : Names}
    → Option CloudProviderConfig
    → Result (Option String)
    → Result (Config N)
    → Result (Choices N)
with_name provider (err e) new_config = err e
with_name provider (ok name) new_config = with_config provider name new_config

abbrev with_provider :
    {N : Names}
    → Host
    → Result (Option CloudProviderConfig × Bool)
    → Result (Config N)
    → Result (Choices N)
with_provider host (err e) new_config = err e
with_provider host (ok p) new_config = with_name p.0 (named_node host p.1) new_config

unfoldable pub choices : {N : Names} → Host → CloudConfig → Result (Config N) → Result (Choices N)
unfolding cloud_provider
choices host cloud new_config = with_provider host (cloud_provider cloud) new_config

module _ (os : Os) where
  abbrev pub restart_marked : String → Result FileKind → Act os.State Bool
  restart_marked file (ok kind) s = (ok true, (os.remove file s).1)
  restart_marked file (err e) s = if is_not_exist e then (ok false, s) else (err e, s)

  -- Whether there is the file for a forced restart, which is then removed.
  unfoldable pub force_restart : String → Act os.State Bool
  unfolding join_path
  force_restart data_dir s =
      restart_marked (force_restart_file data_dir) (os.stat (force_restart_file data_dir) s) s

  -- A server with etcd but without its name is about to rejoin.
  abbrev pub rejoins : Bool → Flags → os.State → Bool
  rejoins is_server flags s =
      is_missing os (etcd_name_file flags.data_dir) s
      && (is_server && (not flags.disable_etcd && not flags.has_datastore_endpoint))

  unfoldable pub mark_restart : Flags → Act os.State (Unit {0})
  mark_restart flags =
      if flags.cluster_reset_restore_path =ₛ ""
      then pure tt
      else os.mkdir_all flags.data_dir 0o755
        >> os.write_file (force_restart_file flags.data_dir) "" 0o600

  abbrev pub psa_file : Flags → Act os.State String
  psa_file flags =
      if flags.pod_security_admission_config_file =ₛ ""
      then set_psas os (is_cis_mode flags) >> pure default_psa_config_file
      else pure flags.pod_security_admission_config_file

  module _ {N : Names} (default_path : String) (scheme_of : String → String) (host : Host) where
    abbrev pub prepared :
        Bool
        → Flags
        → CloudConfig
        → String
        → Datastore
        → Bool
        → Bool
        → Choices N
        → String
        → Prepared N
    prepared is_server flags cloud endpoint store forced rejoining chosen psa_config = record {
      executor = record {
        static_pods = record {
          config = chosen.2;
          cloud_provider = chosen.0;
          manifests_dir = pod_manifests_dir default_path flags.data_dir;
          audit_policy_file = flags.audit_policy_file;
          psa_config_file = psa_config;
          profile_mode = profile_mode flags;
          disable_etcd = store.disable_etcd;
          external_database = store.external_database;
        };
        kubelet_path = or_default "kubelet" cloud.kubelet_path;
        runtime_endpoint = endpoint;
        is_server = is_server;
        prime = flags.prime;
        ingress_controller = cloud.ingress_controller;
        server_config = store.server_config;
        name_of_node = chosen.1;
      };
      disabled = disabled_items is_server forced flags;
      cluster_reset = flags.cluster_reset || rejoining;
    }

    -- initStaticPodExecutor up to RemoveDisabledPods. What NewConfigFromCLI gives is an argument.
    unfoldable pub prepare :
        Bool
        → Flags
        → CloudConfig
        → ServerConfig
        → String
        → Result (Config N)
        → Act os.State (Prepared N)
    unfolding datastore choices disabled_items force_restart mark_restart set_psas join_path
    prepare is_server flags cloud server_config runtime_endpoint new_config = do
      forced ← force_restart flags.data_dir
      rejoining ← ask (rejoins is_server flags)
      mark_restart flags
      chosen ← lift (choices host cloud new_config)
      psa_config ← psa_file flags
      pure (
          prepared is_server flags cloud (or_default containerd_sock runtime_endpoint)
            (datastore scheme_of flags server_config) forced rejoining chosen psa_config)

    module _ (cri : Cri) where
      abbrev executed :
          StartedExecutor N
          → Option (Result (Unit {0})) × os.State
          → Option (Result (StartedExecutor N)) × os.State
      executed executor (none, s) = (none, s)
      executed executor (some (ok u), s) = (some (ok executor), s)
      executed executor (some (err e), s) = (some (err e), s)

      abbrev then_clean :
          Flags
          → List (Event cri)
          → cri.State
          → Result (Prepared N) × os.State
          → Option (Result (StartedExecutor N)) × os.State
      then_clean flags events c (err e, s) = (some (err e), s)
      then_clean flags events c (ok p, s) = executed p.executor (
          remove_disabled_pods os cri default_path flags.data_dir p.disabled p.cluster_reset events
            c s)

      -- initStaticPodExecutor, with what happens while it waits for the runtime.
      unfoldable pub init_static_pod_executor :
          Bool
          → Flags
          → CloudConfig
          → ServerConfig
          → String
          → Result (Config N)
          → List (Event cri)
          → cri.State
          → os.State
          → Option (Result (StartedExecutor N)) × os.State
      unfolding prepare remove_disabled_pods
      init_static_pod_executor is_server flags cloud server_config runtime_endpoint new_config
            events c s =
          then_clean flags events c
            (prepare is_server flags cloud server_config runtime_endpoint new_config s)
