-- ===== src/Tests/CleanupRuns.antt =====
-- pkg/executor/staticpod/cleanup.go, at concrete inputs.
use rke.Base.{true, false, String, some, List, [], ◌∷◌, ◌++◌, ◌≡◌, refl, All, any, arith, ◌∙◌, inr}
use mathlib.Core.Path.{subst}
use rke.Base.Dict.{Dict, lookup, erase, lookup-erase}
use rke.Base.FilePath.{join_path}
use rke.Base.Os.{Os, directory}
use rke.Base.Result.{ok, err, not_exist, ok-injective}
use rke.Staticpod.Cleanup.{
  Sandbox, Cri, poll_due, poll, visit, await, listed_from, is_pod_of, is_file_pod, remove_pods,
  remove_disabled_pods,
}
use rke.Staticpod.Cleanup.Laws.{poll-done}
use rke.Staticpod.Cleanup.Removal.{poll-keeps}
use rke.Staticpod.Cleanup.Stale.{poll-unlabelled}
use rke.Staticpod.Cleanup.Liveness.{await-polls}
use rke.Staticpod.Cleanup.Manifests.{remove_disabled_pods-no_manifest, remove_disabled_pods-keeps}
use rke.Tests.World.{machine, Disk, file}

abbrev sandbox : String → Dict String → Sandbox
sandbox id labels = record {
  id = id;
  labels = labels;
  annotations = ("kubernetes.io/config.source", "file") ∷ [];
}

-- A runtime that lists the same pods always, and notes which ones were removed.
abbrev pub noting : List Sandbox → Cri
noting pods = record {
  State = List String;
  connection = λ s. ok tt;
  list_pod_sandbox = λ s. ok pods;
  remove_pod_sandbox = λ id s. (ok tt, s ++ (id ∷ []));
}

abbrev mirror : Sandbox
mirror = sandbox "mirror" []

abbrev etcd_pod : Sandbox
etcd_pod = sandbox "etcd-1" (("component", "etcd") ∷ [])

abbrev two : List String
two = "kube-apiserver" ∷ "etcd" ∷ []

-- A pod with no component label is removed; etcd is not looked for, since it has moved to the front.
unlabelled_test :
    poll (noting (mirror ∷ etcd_pod ∷ [])) two [] ≡ (false, ("etcd" ∷ [], "mirror" ∷ []))
unfolding poll
unlabelled_test = refl

poll-unlabelled_example :
    (s' : List String) × ((poll (noting (mirror ∷ [])) two []).1.1
      ≡ remove_pods (noting (mirror ∷ [])) "" (mirror ∷ []) s')
unfolding visit
poll-unlabelled_example =
    poll-unlabelled (noting (mirror ∷ [])) "kube-apiserver" "etcd" [] (mirror ∷ []) [] refl refl

poll-done_example :
    (items : List Sandbox) × (listed_from (noting (mirror ∷ [])) [] ≡ ok items)
    × All (λ c. any (is_pod_of c) items ≡ false) ("etcd" ∷ [])
unfolding poll
poll-done_example = poll-done (noting (mirror ∷ [])) ("etcd" ∷ []) [] refl

-- A pod of the apiserver's own, with the component's label.
abbrev plain : Sandbox
plain = record {
  id = "etcd-2";
  labels = ("component", "etcd") ∷ [];
  annotations = ("kubernetes.io/config.source", "api") ∷ [];
}

poll-keeps_example : (poll (noting (plain ∷ [])) ("etcd" ∷ []) []).1.1 ≡ []
unfolding lookup
poll-keeps_example =
    poll-keeps (noting (plain ∷ [])) ("etcd" ∷ []) (λ pod. is_file_pod pod ≡ false) (λ s. s ≡ [])
      (λ pod s listed from_file known p. absurd cc) []
      (λ items e. subst (All (λ pod. is_file_pod pod ≡ false)) (ok-injective e) (refl, tt)) refl

await-polls_example : await (noting (plain ∷ [])) (poll_due ∷ poll_due ∷ []) two [] ≡ some (ok tt)
unfolding lookup
await-polls_example =
    await-polls (noting (plain ∷ [])) 2 two [] (plain ∷ []) [] refl (refl, tt) (omega arith)
      (omega arith)

abbrev installed : Disk
installed =
    ("/d/bin", (directory, ""))
    ∷ ("/d/agent/pod-manifests", (directory, ""))
    ∷ ("/d/agent/pod-manifests/etcd.yaml", file "etcd")
    ∷ []

abbrev with_api : Disk
with_api = installed ++ (("/d/agent/pod-manifests/kube-apiserver.yaml", file "api") ∷ [])

-- A reset removes the manifest of etcd, and the polls find its pod gone.
reset_test :
    remove_disabled_pods
      (machine [])
      (noting [])
      "pod-manifests"
      "/d"
      []
      true
      (poll_due ∷ [])
      []
      installed
    ≡ (some (ok tt), ("/d/bin", (directory, "")) ∷ ("/d/agent/pod-manifests", (directory, "")) ∷ [])
unfolding remove_disabled_pods lookup erase
reset_test = refl

abbrev no_os : Os
no_os = record (machine []) { stat = λ path s. err not_exist }

remove_disabled_pods-no_manifest_example :
    remove_disabled_pods no_os (noting []) "pod-manifests" "/d" [] true [] [] installed
    ≡ (some (ok tt), installed)
remove_disabled_pods-no_manifest_example =
    remove_disabled_pods-no_manifest no_os (noting []) "pod-manifests" "/d" [] true [] [] installed
      (λ component. refl)

-- The manifest of the apiserver stays, where etcd is disabled.
remove_disabled_pods-keeps_example :
    lookup "/d/agent/pod-manifests/kube-apiserver.yaml" (
      (remove_disabled_pods
        (machine [])
        (noting [])
        "pod-manifests"
        "/d"
        (("etcd", true) ∷ [])
        false
        []
        []
        with_api).1)
    ≡ some (file "api")
unfolding join_path lookup
remove_disabled_pods-keeps_example =
    remove_disabled_pods-keeps (machine []) "pod-manifests" "/d" (λ c. c ≡ "etcd")
      (λ s. lookup "/d/agent/pod-manifests/kube-apiserver.yaml" s ≡ some (file "api"))
      (λ component s e p. rw e (
        lookup-erase "/d/agent/pod-manifests/etcd.yaml" "/d/agent/pod-manifests/kube-apiserver.yaml"
          s
        ∙ p))
      (noting []) (("etcd", true) ∷ []) false [] [] with_api (inr refl, tt) refl
