-- ===== src/Tests/SandboxRuns.antt =====
-- pkg/executor/staticpod/spw.go, at concrete inputs.
use rke.Base.{
  Bool, true, false, not, String, ◌<>◌, some, List, [], ◌∷◌, All, ◌=ₛ◌, ◌≡◌, ◌↔◌, refl,
  if◌then◌else◌,
}
use rke.Base.FilePath.{join_path}
use rke.Base.Result.{Error, ok, err, not_exist, with_message}
use rke.Staticpod.Sandboxes.{
  Cri, ManifestPod, PodSandbox, determine_pod_sandbox_ips, check_manifest_deployed, is_done,
  sync_pods,
}
use rke.Staticpod.Sandboxes.Laws.{IsDeployed, check_manifest_deployed-IsDeployed, sync_pods_iff}

-- The pod of the one manifest on the machine.
abbrev etcd_pod : ManifestPod
etcd_pod = record {
  uid = "u2";
  name = "etcd";
  namespace = "kube-system";
  labels = ("component", "etcd") ∷ ("tier", "control-plane") ∷ [];
}

abbrev remove : String → List PodSandbox → List PodSandbox
remove id [] = []
remove id (b ∷ items) = if b.id =ₛ id then items else b ∷ remove id items

abbrev unwrapped : Error → Bool
unwrapped not_exist = true
unwrapped (with_message text e) = unwrapped e
unwrapped _ = false

abbrev latest : List String → Bool × String
latest [] = (true, "")
latest (id ∷ ids) = (false, id)

abbrev cri : Cri
cri = record {
  State = List PodSandbox;
  open_manifest = λ file s. if file =ₛ "/m/etcd.yaml" then ok "etcd" else err not_exist;
  decode = λ text. ok etcd_pod;
  list_pod_sandbox = λ selectors s. ok s;
  SandboxStatus = String;
  is_ready = λ status. true;
  network = λ status. some (record { ip = "10.0.0.1"; additional_ips = "fd00::1" ∷ [] });
  pod_sandbox_status = λ id s. ok id;
  remove_pod_sandbox = λ id s. (ok tt, remove id s);
  pod_sandbox_changed = λ pod status. latest status.sandbox_statuses;
  is_ip = λ ip. not (ip =ₛ "none");
  is_not_found = λ e. false;
  is_err_not_exist = unwrapped;
}

abbrev sandbox : String → String → PodSandbox
sandbox id uid = record { id = id; labels = ("io.kubernetes.pod.uid", uid) ∷ [] }

abbrev synced : List PodSandbox
synced = sandbox "b" "u2" ∷ []

check_manifest_deployed-IsDeployed_example :
    IsDeployed cri "/m/etcd.yaml" synced × (synced ≡ synced)
unfolding check_manifest_deployed
check_manifest_deployed-IsDeployed_example =
    check_manifest_deployed-IsDeployed cri "/m/etcd.yaml" synced synced refl

-- An old sandbox is removed, and the poll does not end.
replaced :
    sync_pods cri "/m" ("etcd" ∷ "kube-apiserver" ∷ []) (sandbox "a" "u1" ∷ synced)
    ≡ (false, synced)
unfolding sync_pods
replaced = refl

both_ips : determine_pod_sandbox_ips cri "b" ≡ "10.0.0.1" ∷ "fd00::1" ∷ []
unfolding determine_pod_sandbox_ips
both_ips = refl

sync_pods_iff_example : ((sync_pods cri "/m" ("etcd" ∷ "kube-apiserver" ∷ []) synced).0 ≡ true) ↔ (
    All
      (λ pod.
        is_done cri
          (check_manifest_deployed cri (join_path ("/m" ∷ (pod <> ".yaml") ∷ [])) synced).0
        ≡ true)
      ("etcd" ∷ "kube-apiserver" ∷ [])
    × ((sync_pods cri "/m" ("etcd" ∷ "kube-apiserver" ∷ []) synced).1 ≡ synced))
sync_pods_iff_example =
    sync_pods_iff cri (λ text. refl) "/m" ("etcd" ∷ "kube-apiserver" ∷ []) synced
