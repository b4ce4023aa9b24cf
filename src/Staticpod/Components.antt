-- ===== src/Staticpod/Components.antt =====
-- pkg/executor/staticpod/staticpod.go: the methods that start the components. Each returns the Spec that
-- it hands to write_template once the channel is closed that it waits for.
pub mod Laws
use rke.Base.{
  ℕ, Bool, true, false, not, ◌&&◌, String, ◌<>◌, Option, none, some, List, [], ◌∷◌, ◌++◌, ◌=ₛ◌,
  if◌then◌else◌,
}
use rke.Base.FilePath.{join_path, dir_name}
use rke.Base.Os.{Os}
use rke.Base.Result.{Result}
use rke.Base.Act.{Act, pure, lift, ask, ◌>>=◌, ◌>>◌}
use rke.Images.Names.{Names}
use rke.Images.Resolver.{Defaults}
use rke.Podtemplate.Files.{only_existing, write_if_not_exists}
use rke.Podtemplate.Spec as PodSpec
use rke.Podtemplate.Spec.{Spec, Config}
use rke.Staticpod.ApiServer.{LoopState, elements, scan}
use rke.Staticpod.Executor.{StaticPodConfig, CloudProviderConfig, is_cis_mode, remove_template}

abbrev pub ssl_dirs : List String
ssl_dirs =
    "/etc/ssl/certs" ∷ "/etc/pki/tls/certs" ∷ "/etc/ca-certificates"
    ∷ "/usr/local/share/ca-certificates" ∷ "/usr/share/ca-certificates" ∷ []

abbrev pub default_audit_policy_file : String
default_audit_policy_file = "/etc/rancher/rke2/audit-policy.yaml"

abbrev pub etcd_name_file : String → String
etcd_name_file data_dir = join_path (data_dir ∷ "server" ∷ "db" ∷ "etcd" ∷ "name" ∷ [])

abbrev pub permit_port_sharing_flag : String
permit_port_sharing_flag = "--permit-port-sharing=true"

module _ {N : Names} (c : StaticPodConfig N) where
  abbrev pub data_dir : String
  data_dir = c.config.data_dir

  abbrev pub etcd_files : List String
  etcd_files = if c.disable_etcd then [] else etcd_name_file data_dir ∷ []

  -- The value of AuditPolicyFile after APIServer has set its default.
  unfoldable pub audit_policy : String
  audit_policy =
      if is_cis_mode c.profile_mode
      then (if c.audit_policy_file =ₛ "" then default_audit_policy_file else c.audit_policy_file)
      else c.audit_policy_file

  -- The file that auditLogFile names in the end.
  unfoldable pub audit_log : LoopState → String
  unfolding audit_policy
  audit_log st =
      if audit_policy =ₛ ""
      then st.audit_log_file
      else if st.audit_log_file =ₛ ""
      then join_path (data_dir ∷ "server/logs/audit.log" ∷ [])
      else st.audit_log_file

  abbrev pub audit_args : LoopState → List String
  audit_args st =
      ("--audit-policy-file=" <> audit_policy)
      ∷ "--audit-log-maxage=30"
      ∷ "--audit-log-maxbackup=10"
      ∷ "--audit-log-maxsize=100"
      ∷ (if st.audit_log_file =ₛ "" then ("--audit-log-path=" <> audit_log st) ∷ [] else [])

  abbrev pub policy_args : LoopState → List String
  policy_args st = if audit_policy =ₛ "" then [] else audit_args st

  abbrev pub address_args : LoopState → List String
  address_args st =
      if st.address_types_found
      then []
      else "--kubelet-preferred-address-types=InternalIP,ExternalIP,Hostname" ∷ []

  abbrev pub cis_args : List String
  cis_args =
      if is_cis_mode c.profile_mode
      then "--service-account-extend-token-expiration=false" ∷ []
      else []

  -- The arguments of the apiserver, once the loop has left `st`.
  unfoldable pub api_server_args : LoopState → List String
  unfolding audit_policy audit_log
  api_server_args st =
      ("--admission-control-config-file=" <> c.psa_config_file)
      ∷ (policy_args st ++ (cis_args ++ (address_args st ++ elements st.array st.args)))

  abbrev is_log_file : String → Bool
  is_log_file path = not (path =ₛ "") && not (path =ₛ "-")

  -- The additional arguments of the controller-manager, in front of the given ones.
  abbrev cloud_args : Option CloudProviderConfig → List String
  cloud_args none = []
  cloud_args (some p) = ("--cloud-provider=" <> p.name) ∷ ("--cloud-config=" <> p.path) ∷ []

  unfoldable pub controller_manager_args : List String → List String
  controller_manager_args args =
      permit_port_sharing_flag
      ∷ "--flex-volume-plugin-dir=/var/lib/kubelet/volumeplugins"
      ∷ "--terminated-pod-gc-threshold=1000"
      ∷ (cloud_args c.cloud_provider ++ args)

  abbrev pub log_dirs : String → List String
  log_dirs log = if is_log_file log then dir_name log ∷ [] else []

  abbrev pub log_files : String → List String
  log_files log = if is_log_file log then log ∷ [] else []

  -- The fields that APIServer sets, with the directories of certificates that exist.
  abbrev pub with_mounts : LoopState → List String → Spec N → Spec N
  with_mounts st existing spec = record spec {
    files = etcd_files;
    dirs = existing ++ (log_dirs (audit_log st) ++ (join_path (data_dir ∷ "server" ∷ []) ∷ []));
    exclude_files =
        log_files (audit_log st)
        ++ (join_path (data_dir ∷ "server/cred/encryption-config.json" ∷ []) ∷ []);
    host_network = true;
  }

  module _ (os : Os) (d : Defaults) where
    unfoldable pub kube_proxy : List String → Act os.State (Spec N)
    unfolding PodSpec.kube_proxy
    kube_proxy args = do
      spec ← PodSpec.kube_proxy N os d c.config args
      pure (record spec { privileged = true; host_network = true })

    unfoldable pub scheduler : List String → Act os.State (Spec N)
    unfolding PodSpec.scheduler
    scheduler args = do
      spec ← PodSpec.scheduler N os d c.config (permit_port_sharing_flag ∷ args)
      pure (record spec { files = etcd_files; host_network = true })

    unfoldable pub controller_manager : List String → Act os.State (Spec N)
    unfolding PodSpec.controller_manager controller_manager_args only_existing
    controller_manager args = do
      spec ← PodSpec.controller_manager N os d c.config (controller_manager_args args)
      dirs ← ask (only_existing os ssl_dirs)
      pure (record spec { files = etcd_files; dirs = dirs; host_network = true })

    unfoldable pub cloud_controller_manager : List String → Act os.State (Spec N)
    unfolding PodSpec.cloud_controller_manager only_existing
    cloud_controller_manager args = do
      spec ← PodSpec.cloud_controller_manager N os d c.config args
      dirs ← ask (only_existing os ssl_dirs)
      pure (record spec { dirs = dirs; host_network = true })

    -- `policy` is the marshalled default audit policy.
    unfoldable pub write_policy : Result String → Act os.State (Unit {0})
    unfolding audit_policy write_if_not_exists
    write_policy policy =
        if audit_policy =ₛ ""
        then pure tt
        else do bytes ← lift policy; write_if_not_exists os audit_policy bytes

    -- APIServer after its loop.
    unfoldable pub api_server_of : Result String → ℕ → LoopState → Act os.State (Spec N)
    unfolding PodSpec.api_server write_policy api_server_args only_existing audit_log
    api_server_of policy port st = do
      write_policy policy
      existing ← ask (only_existing os ssl_dirs)
      spec ← PodSpec.api_server N os d c.config port (api_server_args st)
      pure (with_mounts st existing spec)

    abbrev unless_panic :
        Option LoopState → (LoopState → Act os.State (Spec N)) → Act os.State (Option (Spec N))
    unless_panic none f = pure none
    unless_panic (some st) f = f st >>= λ spec. pure (some spec)

    -- none is a panic of the loop.
    unfoldable pub api_server : Result String → ℕ → List String → Act os.State (Option (Spec N))
    unfolding remove_template scan api_server_of
    api_server policy port args = do
      remove_template os c.manifests_dir "kube-apiserver"
      unless_panic (scan c.external_database data_dir args) (api_server_of policy port)
