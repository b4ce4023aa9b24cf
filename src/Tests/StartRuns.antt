-- ===== src/Tests/StartRuns.antt =====
-- pkg/rke2, at concrete inputs.
use rke.Base.{true, false, String, Option, none, some, [], ◌∷◌, ◌≡◌, refl, ◌∙◌, inl, inr, ap}
use mathlib.Core.Path.{subst}
use rke.Base.Dict.{lookup, erase, lookup-insert, lookup-erase}
use rke.Base.FilePath.{join_path, dir_name}
use rke.Base.Os.{regular, directory}
use rke.Base.Result.{Result, ok, err, not_exist}
use rke.Staticpod.Cleanup.{manifest_name, pod_manifests_dir}
use rke.Start.{
  Flags, CloudConfig, ServerConfig, Host, Prepared, StartedExecutor, prepare,
  init_static_pod_executor,
}
use rke.Staticpod.Executor.{profile_none}
use rke.Start.Psa.{default_psa_config_file}
use rke.Start.Laws.{AllDisabled, prepare-forced}
use rke.Start.Restore.{IsControlPlane, init_static_pod_executor-restore}
use rke.Tests.World.{names, machine, Disk, file}
use rke.Tests.CleanupRuns.{noting}
use rke.Tests.PodRuns.{config}

abbrev restoring : Flags
restoring = record {
  data_dir = "/d";
  profile = "cis";
  disable_etcd = false;
  has_server = false;
  has_datastore_endpoint = false;
  cluster_reset = true;
  cluster_reset_restore_path = "/snapshots/1";
  disable_cloud_controller = false;
  disable_apiserver = false;
  disable_controller_manager = false;
  disable_scheduler = false;
  pod_security_admission_config_file = "";
  audit_policy_file = "";
  prime = false;
}

abbrev no_cloud : CloudConfig
no_cloud = record {
  cloud_provider_name = "";
  cloud_provider_config = "";
  cloud_provider_metadata_hostname = false;
  kubelet_path = "";
  ingress_controller = [];
}

abbrev mysql : ServerConfig
mysql = record {
  datastore_endpoint = "mysql://db";
  disable_etcd = false;
  cluster_init = true;
  kine_tls = false;
}

abbrev no_host : Host
no_host = record {
  metadata_hostname = "";
  hostname_fqdn = err not_exist;
  set_node_name = λ name. ok tt;
}

abbrev disk : Disk
disk =
    ("/d/bin", (directory, ""))
    ∷ ("/d/agent/pod-manifests", (directory, ""))
    ∷ ("/d/force-restart", file "")
    ∷ []

abbrev prepared_start : Result (Prepared names) × Disk
prepared_start =
    prepare (machine []) "pod-manifests" (λ e. "mysql") no_host true restoring no_cloud mysql ""
      (ok config) disk

abbrev none_prepared : Prepared names
none_prepared = record {
  executor = record {
    static_pods = record {
      config = config;
      cloud_provider = none;
      manifests_dir = "";
      audit_policy_file = "";
      psa_config_file = "";
      profile_mode = profile_none;
      disable_etcd = false;
      external_database = false;
    };
    kubelet_path = "";
    runtime_endpoint = "";
    is_server = false;
    prime = false;
    ingress_controller = [];
    server_config = mysql;
    name_of_node = none;
  };
  disabled = [];
  cluster_reset = false;
}

abbrev prepared_or : Result (Prepared names) → Prepared names
prepared_or (ok p) = p
prepared_or (err e) = none_prepared

prepare-forced_example : AllDisabled ((prepared_or (prepared_start.0)).disabled)
unfolding prepare lookup
prepare-forced_example =
    prepare-forced (machine []) restoring "pod-manifests" (λ e. "mysql") no_host true no_cloud mysql
      "" (ok config) disk (prepared_start.1) (prepared_or (prepared_start.0)) (inr (regular, refl))
      refl

abbrev IsMarked : Disk → Type 0
IsMarked s = lookup "/d/force-restart" s ≡ some (file "")

not_manifest :
    (component : String) (s : Disk)
    → IsControlPlane component
    → IsMarked s
    → IsMarked (erase (manifest_name (pod_manifests_dir "pod-manifests" "/d") component) s)
unfolding join_path
not_manifest component s known h = elim known [
  | inl e ↦ rw e (lookup-erase "/d/agent/pod-manifests/etcd.yaml" "/d/force-restart" s ∙ h)
  | inr (inl e) ↦
      rw e (lookup-erase "/d/agent/pod-manifests/kube-apiserver.yaml" "/d/force-restart" s ∙ h)
  | inr (inr (inl e)) ↦
      rw e (lookup-erase "/d/agent/pod-manifests/kube-scheduler.yaml" "/d/force-restart" s ∙ h)
  | inr (inr (inr (inl e))) ↦
      rw e (
        lookup-erase "/d/agent/pod-manifests/kube-controller-manager.yaml" "/d/force-restart" s ∙ h)
  | inr (inr (inr (inr e))) ↦
      rw e (
        lookup-erase "/d/agent/pod-manifests/cloud-controller-manager.yaml" "/d/force-restart" s
        ∙ h)
]

abbrev outcome : Option (Result (StartedExecutor names)) × Disk
outcome =
    init_static_pod_executor (machine []) "pod-manifests" (λ e. "mysql") no_host (noting []) true
      restoring no_cloud mysql "" (ok config) [] [] disk

init_static_pod_executor-restore_example : IsMarked (outcome.1)
unfolding init_static_pod_executor lookup join_path dir_name erase
init_static_pod_executor-restore_example =
    init_static_pod_executor-restore (machine []) "pod-manifests" restoring IsMarked
      (λ s t h.
        subst IsMarked (ap (λ q. q.1) h)
          (lookup-insert "/d/force-restart" "/d/force-restart" (file "") s))
      (λ s p. lookup-insert "/etc/rancher/rke2" "/d/force-restart" (directory, "") s ∙ p)
      (λ text s p. lookup-insert default_psa_config_file "/d/force-restart" (file text) s ∙ p)
      not_manifest (λ e. "mysql") no_host (noting []) true no_cloud mysql "" (ok config) [] [] disk
      (outcome.1) ((prepared_or (prepared_start.0)).executor) refl refl
