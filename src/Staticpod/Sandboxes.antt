-- ===== src/Staticpod/Sandboxes.antt =====
-- pkg/executor/staticpod/spw.go: the removal of pod sandboxes that are not those of the manifests on
-- disk, and the poll that waits for it.
pub mod Statuses
pub mod Laws
use rke.Base.{
  ℕ, suc, ◌==◌, Bool, true, false, not, ◌&&◌, ◌||◌, String, ◌<>◌, Option, none, some, List, [], ◌∷◌,
  ◌++◌, ◌=ₛ◌, if◌then◌else◌,
}
use rke.Base.Dict.{Dict, lookup}
use rke.Base.Result
use rke.Base.Result.{Error, Result, ok, err, message, annotate}
use rke.Base.Act.{Act, pure, raise, lift, ask, ◌>>=◌, ◌>>◌}
use rke.Base.FilePath.{join_path}
use rke.Staticpod.Cleanup.{pod_manifests_dir}

-- v1.Pod, as far as it is read from a manifest.
pub record ManifestPod : Type 0 where
  pub uid : String
  pub name : String
  pub namespace : String
  pub labels : Dict String

pub record PodSandbox : Type 0 where
  pub id : String
  pub labels : Dict String

pub record Network : Type 0 where
  pub ip : String
  pub additional_ips : List String

-- kubecontainer.PodStatus, as far as it is filled.
pub record PodStatus (Status : Type 0) : Type 0 where
  pub id : String
  pub name : String
  pub namespace : String
  pub sandbox_statuses : List Status
  pub ips : List String

-- The container runtime, the kubelet's logic and the libraries, which are not part of the repository.
pub record Cri : Type 1 where
  pub State : Type 0
  -- os.Open with the reading of the file, and the decoder
  pub open_manifest : String → State → Result String
  pub decode : String → Result ManifestPod
  -- ListPodSandbox by label selectors, PodSandboxStatus and RemovePodSandbox
  pub list_pod_sandbox : Dict String → State → Result (List PodSandbox)
  pub SandboxStatus : Type 0
  pub is_ready : SandboxStatus → Bool
  pub network : SandboxStatus → Option Network
  pub pod_sandbox_status : String → State → Result SandboxStatus
  pub remove_pod_sandbox : String → State → Result (Unit {0}) × State
  -- runtimeutil.PodSandboxChanged, without the attempt
  pub pod_sandbox_changed : ManifestPod → PodStatus SandboxStatus → Bool × String
  -- netutils.ParseIPSloppy is not nil, crierror.IsNotFound, and errors.Is with os.ErrNotExist
  pub is_ip : String → Bool
  pub is_not_found : Error → Bool
  pub is_err_not_exist : Error → Bool

abbrev or_empty : Option String → String
or_empty (some s) = s
or_empty none = ""

unfoldable pub label : String → Dict String → String
unfolding lookup
label key labels = or_empty (lookup key labels)

abbrev pub sandbox_uid : PodSandbox → String
sandbox_uid b = label "io.kubernetes.pod.uid" b.labels

abbrev pub sandbox_filter : ManifestPod → Dict String
sandbox_filter pod =
    ("component", label "component" pod.labels)
    ∷ ("io.kubernetes.pod.namespace", pod.namespace)
    ∷ ("tier", label "tier" pod.labels)
    ∷ []

-- The second loop's condition.
abbrev pub is_stale : ManifestPod → String → PodSandbox → Bool
is_stale pod sandbox_id b =
    not (sandbox_uid b =ₛ pod.uid) || not (sandbox_id =ₛ "") && not (sandbox_id =ₛ b.id)

abbrev pub verdict : Bool → Bool × String → Result (Unit {0})
verdict true changed = err (message "waiting for termination of old pod sandbox")
verdict false (true, sandbox_id) =
    if sandbox_id =ₛ ""
    then err (message "pod sandbox not found")
    else err (message "pod sandbox has changed")
verdict false (false, sandbox_id) = ok tt

module _ (C : Cri) where
  -- A nil slice is read like an empty one.
  unfoldable pub append_ips : List String → List String → List String
  append_ips pod_ips [] = pod_ips
  append_ips pod_ips (ip ∷ ips) =
      let rest = append_ips (pod_ips ++ (ip ∷ [])) ips in if C.is_ip ip then rest else []

  abbrev pub network_ips : Option Network → List String
  network_ips none = []
  network_ips (some network) =
      if network.ip =ₛ ""
      then append_ips [] network.additional_ips
      else if C.is_ip network.ip
      then append_ips (network.ip ∷ []) network.additional_ips
      else []

  unfoldable pub determine_pod_sandbox_ips : C.SandboxStatus → List String
  unfolding append_ips
  determine_pod_sandbox_ips status = network_ips (C.network status)

  -- The status, and matchingPodIdx.
  abbrev pub Collected : Type 0
  Collected = PodStatus C.SandboxStatus × ℕ

  abbrev pub with_status : C.SandboxStatus → Collected → Collected
  with_status status (pod_status, idx) = (
    record pod_status {
      sandbox_statuses = pod_status.sandbox_statuses ++ (status ∷ []);
      ips =
          if idx == 0 && C.is_ready status
          then determine_pod_sandbox_ips status
          else pod_status.ips;
    },
    suc idx,
  )

  abbrev pub status_read : Result C.SandboxStatus → Collected → Result Collected
  status_read (ok status) c = ok (with_status status c)
  status_read (err e) c =
      if C.is_not_found e then ok c else annotate "failed to get pod sandbox status" (err e)

  unfoldable pub collect : ManifestPod → List PodSandbox → Collected → C.State → Result Collected
  unfolding label determine_pod_sandbox_ips
  collect pod [] c s = ok c
  collect pod (b ∷ items) c s =
      Result.◌>>=◌
        (if sandbox_uid b =ₛ pod.uid then status_read (C.pod_sandbox_status b.id s) c else ok c)
        (λ c'. collect pod items c' s)

  -- The second loop; a failure to remove is only logged.
  unfoldable pub remove_stale : ManifestPod → String → List PodSandbox → C.State → Bool × C.State
  unfolding label
  remove_stale pod sandbox_id [] s = (false, s)
  remove_stale pod sandbox_id (b ∷ items) s =
      let removed = (C.remove_pod_sandbox b.id s).1 in
      let rest =
        remove_stale pod sandbox_id items (if is_stale pod sandbox_id b then removed else s) in
      (is_stale pod sandbox_id b || rest.0, rest.1)

  abbrev pub empty_status : ManifestPod → Collected
  empty_status pod = (
    record {
      id = pod.uid;
      name = pod.name;
      namespace = pod.namespace;
      sandbox_statuses = [];
      ips = [];
    },
    0,
  )

  abbrev pub remove_others : ManifestPod → List PodSandbox → Bool × String → Act C.State (Unit {0})
  remove_others pod items changed s =
      let removed = remove_stale pod changed.1 items s in (verdict removed.0 changed, removed.1)

  -- The check from where the sandboxes are listed, the pod is decoded, and the file is read.
  abbrev pub check_items : ManifestPod → List PodSandbox → Act C.State (Unit {0})
  check_items pod items = do
    c ← ask (collect pod items (empty_status pod)) >>= lift
    remove_others pod items (C.pod_sandbox_changed pod c.0)

  abbrev pub check_pod : ManifestPod → Act C.State (Unit {0})
  check_pod pod = do
    let selected = C.list_pod_sandbox (sandbox_filter pod)
    items ← ask (λ s. annotate "failed to list pod sandboxes" (selected s)) >>= lift
    check_items pod items

  abbrev pub check_text : String → Act C.State (Unit {0})
  check_text text = do
    pod ← lift (annotate "failed to decode manifest" (C.decode text))
    check_pod pod

  unfoldable pub check_manifest_deployed : String → Act C.State (Unit {0})
  unfolding collect remove_stale
  check_manifest_deployed manifest_file = do
    text ← ask (λ s. annotate "failed to open manifest" (C.open_manifest manifest_file s)) >>= lift
    check_text text

  -- The pod is synced, or has no manifest.
  abbrev pub is_done : Result (Unit {0}) → Bool
  is_done (ok done) = true
  is_done (err e) = C.is_err_not_exist e

  -- One poll's loop over the pods.
  unfoldable pub sync_pods : String → List String → C.State → Bool × C.State
  unfolding check_manifest_deployed join_path
  sync_pods manifest_dir [] s = (true, s)
  sync_pods manifest_dir (pod ∷ pods) s =
      let checked = check_manifest_deployed (join_path (manifest_dir ∷ (pod <> ".yaml") ∷ [])) s in
      let rest = sync_pods manifest_dir pods checked.1 in
      if is_done checked.0 then rest else (false, checked.1)

  -- The poll of reconcileStaticPods, behind the connection.
  abbrev pub reconcile_poll : String → String → C.State → Bool × C.State
  reconcile_poll default_path data_dir s =
      sync_pods (pod_manifests_dir default_path data_dir) ("etcd" ∷ "kube-apiserver" ∷ []) s
