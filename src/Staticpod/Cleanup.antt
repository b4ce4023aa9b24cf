-- ===== src/Staticpod/Cleanup.antt =====
-- pkg/executor/staticpod/cleanup.go: the removal of the manifests of disabled components, and the polls
-- of the container runtime until their pods are gone. The runtime is a parameter.
pub mod Laws
pub mod Stale
pub mod Removal
pub mod Liveness
pub mod Manifests
use rke.Base.{
  ℕ, zero, suc, ◌-◌, Bool, true, false, not, ◌&&◌, ◌||◌, String, ◌<>◌, Option, none, some, List, [],
  ◌∷◌, ◌++◌, ◌=ₛ◌, if◌then◌else◌, any, length, get_elem?,
}
use rke.Base.Dict.{Dict, lookup, insert}
use rke.Base.FilePath.{join_path}
use rke.Base.Os.{Os, FileKind}
use rke.Base.Result.{Result, ok, err, Error, message, with_message, is_not_exist, annotate}
use rke.Base.Act.{Act, pure, wrap, ◌>>◌}

-- The fields of runtimeapi.PodSandbox that are read.
pub record Sandbox : Type 0 where
  pub id : String
  pub labels : Dict String
  pub annotations : Dict String

-- cri.Connection, ListPodSandbox of the namespace kube-system, and RemovePodSandbox.
pub record Cri : Type 1 where
  pub State : Type 0
  pub connection : State → Result (Unit {0})
  pub list_pod_sandbox : State → Result (List Sandbox)
  pub remove_pod_sandbox : String → State → Result (Unit {0}) × State

abbrev value_or_empty : Option String → String
value_or_empty none = ""
value_or_empty (some v) = v

abbrev pub is_file_pod : Sandbox → Bool
is_file_pod pod = value_or_empty (lookup "kubernetes.io/config.source" pod.annotations) =ₛ "file"

-- A missing label reads as the empty text.
abbrev pub component_of : Sandbox → String
component_of pod = value_or_empty (lookup "component" pod.labels)

abbrev pub is_pod_of : String → Sandbox → Bool
is_pod_of component pod = (component_of pod =ₛ component) && is_file_pod pod

-- The array behind terminatePods: the elements of the slice, and those beyond its length.
pub record Targets : Type 0 where
  pub live : List String
  pub beyond : List String

abbrev pub without : String → List String → List String
without c [] = []
without c (x ∷ xs) = let rest = without c xs in if x =ₛ c then rest else x ∷ rest

abbrev pub zeroed : ℕ → List String
zeroed zero = []
zeroed (suc n) = "" ∷ zeroed n

-- slices.DeleteFunc moves the elements that stay to the front, and zeroes those behind them.
abbrev pub delete : String → Targets → Targets
delete c t = record {
  live = without c t.live;
  beyond = zeroed (length t.live - length (without c t.live)) ++ t.beyond;
}

-- The element of the array at an index, which is in range throughout.
abbrev pub element : Targets → ℕ → String
element t i = value_or_empty (get_elem? (t.live ++ t.beyond) i)

abbrev pub start : List String → Targets
start components = record { live = components; beyond = [] }

abbrev pub is_empty : List String → Bool
is_empty [] = true
is_empty (x ∷ xs) = false

module _ (cri : Cri) where
  -- A failure to remove a pod is only logged.
  abbrev pub remove_pods : String → List Sandbox → cri.State → cri.State
  remove_pods component [] s = s
  remove_pods component (pod ∷ pods) s =
      remove_pods component pods
        (if is_pod_of component pod then (cri.remove_pod_sandbox pod.id s).1 else s)

  abbrev pub check : List Sandbox → String → Targets → Targets
  check items component t = if any (is_pod_of component) items then t else delete component t

  -- The range evaluates the slice once, so it visits the indices of its first length, but reads the
  -- elements from the array as it is by then.
  unfoldable pub visit : List Sandbox → ℕ → ℕ → Targets → cri.State → Targets × cri.State
  unfolding lookup
  visit items zero i t s = (t, s)
  visit items (suc remaining) i t s =
      visit items remaining (suc i) (check items (element t i) t)
        (remove_pods (element t i) items s)

  abbrev then_list : Result (Unit {0}) → cri.State → Result (List Sandbox)
  then_list (ok u) s = cri.list_pod_sandbox s
  then_list (err e) s = err e

  abbrev pub visited : Targets × cri.State → Bool × (List String × cri.State)
  visited r = (is_empty r.0.live, (r.0.live, r.1))

  abbrev pub poll_listed :
      List String → Result (List Sandbox) → cri.State → Bool × (List String × cri.State)
  poll_listed components (err e) s = (false, (components, s))
  poll_listed components (ok items) s =
      visited (visit items (length components) 0 (start components) s)

  abbrev pub listed_from : cri.State → Result (List Sandbox)
  listed_from s = then_list (cri.connection s) s

  -- One poll of terminateRunningContainers: whether it is done, the components that are left, and the
  -- runtime.
  unfoldable pub poll : List String → cri.State → Bool × (List String × cri.State)
  unfolding visit
  poll components s = poll_listed components (listed_from s) s

  -- What ends the wait or lets it go on: a poll, a change of the runtime by itself, a result on the
  -- channel containerdErr (of the temporary containerd, or of a cancelled poll), the timeout.
  pub data Event : Type 0 where
    poll_due : Event
    changed : cri.State → Event
    reported : Result (Unit {0}) → Event
    timed_out : Event

  -- RemoveDisabledPods from its `select` on; without a value, it is still waiting.
  unfoldable pub await : List Event → List String → cri.State → Option (Result (Unit {0}))
  unfolding poll
  await [] components s = none
  await (poll_due ∷ events) components s =
      let p = poll components s in
      let rest = await events p.1.0 p.1.1 in if p.0 then some (ok tt) else rest
  await (changed s' ∷ events) components s = await events components s'
  await (reported r ∷ events) components s =
      some (annotate "temporary containerd process exited unexpectedly" r)
  await (timed_out ∷ events) components s = some (err (message "static pod cleanup timed out"))

-- config.DefaultPodManifestPath, of k3s, is the first argument.
abbrev pub pod_manifests_dir : String → String → String
pod_manifests_dir default_path data_dir = join_path (data_dir ∷ "agent" ∷ default_path ∷ [])

abbrev pub bin_dir : String → String
bin_dir data_dir = join_path (data_dir ∷ "bin" ∷ [])

abbrev pub manifest_name : String → String → String
manifest_name manifest_dir component = join_path (manifest_dir ∷ (component <> ".yaml") ∷ [])

-- disabledItems with the two that a cluster reset adds. The loop over the map takes its entries in the
-- order in which the dictionary lists them.
abbrev pub with_reset : Bool → Dict Bool → Dict Bool
with_reset false disabled_items = disabled_items
with_reset true disabled_items = insert "kube-apiserver" true (insert "etcd" true disabled_items)

module _ (os : Os) where
  abbrev fails_as : (Error → Bool) → Result FileKind → Bool
  fails_as test (ok kind) = false
  fails_as test (err e) = test e

  abbrev pub is_missing : String → os.State → Bool
  is_missing path s = fails_as is_not_exist (os.stat path s)

  abbrev pub has_manifest : String → String → os.State → Bool
  has_manifest manifest_dir component s =
      not (fails_as (λ _. true) (os.stat (manifest_name manifest_dir component) s))

  abbrev pub to_terminate : String → Dict Bool → os.State → List String
  to_terminate manifest_dir [] s = []
  to_terminate manifest_dir ((component, disabled) ∷ items) s =
      let rest = to_terminate manifest_dir items s in
      if disabled && has_manifest manifest_dir component s then component ∷ rest else rest

  abbrev pub remove_manifests : String → List String → Act os.State (Unit {0})
  remove_manifests manifest_dir [] = pure tt
  remove_manifests manifest_dir (component ∷ components) =
      wrap (with_message ("unable to delete " <> (component <> " manifest")))
        (os.remove_all (manifest_name manifest_dir component))
      >> remove_manifests manifest_dir components

  module _ (cri : Cri) where
    abbrev pub await_removed :
        List (Event cri)
        → List String
        → cri.State
        → Result (Unit {0}) × os.State
        → Option (Result (Unit {0})) × os.State
    await_removed events components c (err e, s) = (some (err e), s)
    await_removed events components c (ok u, s) = (await cri events components c, s)

    abbrev pub terminate :
        String
        → List String
        → List (Event cri)
        → cri.State
        → os.State
        → Option (Result (Unit {0})) × os.State
    terminate manifest_dir [] events c s = (some (ok tt), s)
    terminate manifest_dir (component ∷ components) events c s =
        await_removed events (component ∷ components) c
          (remove_manifests manifest_dir (component ∷ components) s)

    -- RemoveDisabledPods, with what happens while it waits.
    unfoldable pub remove_disabled_pods :
        String
        → String
        → Dict Bool
        → Bool
        → List (Event cri)
        → cri.State
        → os.State
        → Option (Result (Unit {0})) × os.State
    unfolding join_path insert await
    remove_disabled_pods default_path data_dir disabled_items cluster_reset events c s =
        let manifest_dir = pod_manifests_dir default_path data_dir in
        if is_missing (bin_dir data_dir) s || is_missing manifest_dir s
        then (some (ok tt), s)
        else terminate manifest_dir
            (to_terminate manifest_dir (with_reset cluster_reset disabled_items) s) events c s
