-- ===== src/Staticpod/Cleanup/Manifests.antt =====
-- pkg/executor/staticpod/cleanup.go: which manifests RemoveDisabledPods removes, and when it does nothing.
use rke.Base.{
  Bool, true, false, String, ◌<>◌, some, List, [], ◌∷◌, ◌≡◌, refl, All, Bool-cases, inl, inr, ◌⊎◌,
  ◌||◌,
}
use rke.Base.Dict.{Dict}
use rke.Base.Os.{Os}
use rke.Base.Result.{Result, ok, err, with_message}
use rke.Base.Act.{wrap, >>=-keeps, wrap-keeps}
use rke.Staticpod.Cleanup.{
  Cri, Event, pod_manifests_dir, bin_dir, manifest_name, with_reset, is_missing, has_manifest,
  to_terminate, remove_manifests, await_removed, terminate, remove_disabled_pods,
}

module _ (os : Os) (manifest_dir : String) where
  to_terminate-none :
      (items : Dict Bool) (s : os.State)
      → ((component : String) → has_manifest os manifest_dir component s ≡ false)
      → to_terminate os manifest_dir items s ≡ []
  to_terminate-none [] s absent = refl
  to_terminate-none ((component, true) ∷ items) s absent =
      rw (absent component) (to_terminate-none items s absent)
  to_terminate-none ((component, false) ∷ items) s absent = to_terminate-none items s absent

  -- What a predicate says of every entry that is disabled, it says of every component to terminate.
  All-to_terminate :
      (IsDisabled : String → Type 0) (items : Dict Bool) (s : os.State)
      → All (λ e. (e.1 ≡ false) ⊎ IsDisabled e.0) items
      → All IsDisabled (to_terminate os manifest_dir items s)
  All-to_terminate IsDisabled [] s h = tt
  All-to_terminate IsDisabled ((component, false) ∷ items) s h =
      All-to_terminate IsDisabled items s h.1
  All-to_terminate IsDisabled ((component, true) ∷ items) s h =
      let rest = All-to_terminate IsDisabled items s h.1 in
      elim (Bool-cases (has_manifest os manifest_dir component s)) [
        | inl present ↦ rw present (named h.0, rest)
        | inr absent ↦ rw absent rest
      ]
    where
      named : (true ≡ false) ⊎ IsDisabled component → IsDisabled component
      named (inl e) = absurd cc
      named (inr d) = d

-- Whether or not the cluster is reset: if no component has a manifest, then RemoveDisabledPods succeeds
-- at once, and neither removes a manifest nor asks the container runtime for pods.
pub remove_disabled_pods-no_manifest :
    (os : Os) (cri : Cri) (default_path data_dir : String) (disabled_items : Dict Bool)
    (cluster_reset : Bool) (events : List (Event cri)) (c : cri.State) (s : os.State)
    → ((component : String)
        → has_manifest os (pod_manifests_dir default_path data_dir) component s ≡ false)
    → remove_disabled_pods os cri default_path data_dir disabled_items cluster_reset events c s
      ≡ (some (ok tt), s)
unfolding remove_disabled_pods
remove_disabled_pods-no_manifest os cri default_path data_dir disabled_items cluster_reset events c
      s absent =
    let dir = pod_manifests_dir default_path data_dir in
    elim (Bool-cases (is_missing os (bin_dir data_dir) s || is_missing os dir s)) [
      | inl clean ↦ rw clean refl
      | inr installed ↦
          rw
            (installed, to_terminate-none os dir (with_reset cluster_reset disabled_items) s absent)
            refl
    ]

module _ {ℓ} (os : Os) (default_path data_dir : String) (IsDisabled : String → Type 0)
    (P : os.State → Type ℓ)
    (keeps : (component : String) (s : os.State)
      → IsDisabled component
      → P s
      → P (
          (os.remove_all
            (manifest_name (pod_manifests_dir default_path data_dir) component)
            s).1)) where
  remove_manifests-keeps :
      (components : List String) (s : os.State)
      → All IsDisabled components
      → P s
      → P ((remove_manifests os (pod_manifests_dir default_path data_dir) components s).1)
  remove_manifests-keeps [] s h p = p
  remove_manifests-keeps (component ∷ components) s h p =
      let dir = pod_manifests_dir default_path data_dir in
      let one =
        wrap (with_message ("unable to delete " <> (component <> " manifest")))
          (os.remove_all (manifest_name dir component)) in
      >>=-keeps P one (λ _. remove_manifests os dir components) s
        (λ u t q. remove_manifests-keeps components t h.1 q)
        (wrap-keeps P (with_message ("unable to delete " <> (component <> " manifest")))
          (os.remove_all (manifest_name dir component)) s (keeps component s h.0 p))

  terminate-keeps :
      (cri : Cri) (components : List String) (events : List (Event cri)) (c : cri.State)
      (s : os.State)
      → All IsDisabled components
      → P s
      → P ((terminate os cri (pod_manifests_dir default_path data_dir) components events c s).1)
  terminate-keeps cri [] events c s h p = p
  terminate-keeps cri (component ∷ components) events c s h p =
      from
        (remove_manifests os (pod_manifests_dir default_path data_dir) (component ∷ components) s)
        (remove_manifests-keeps (component ∷ components) s h p)
    where
      from :
          (r : Result (Unit {0}) × os.State)
          → P (r.1)
          → P ((await_removed os cri events (component ∷ components) c r).1)
      from (ok u, t) q = q
      from (err e, t) q = q

  -- Whatever is kept by the removal of the manifest of a disabled component, or of etcd and the
  -- apiserver on a cluster reset, is kept by RemoveDisabledPods. Which those are is IsDisabled.
  pub remove_disabled_pods-keeps :
      (cri : Cri) (disabled_items : Dict Bool) (cluster_reset : Bool) (events : List (Event cri))
      (c : cri.State) (s : os.State)
      → All (λ e. (e.1 ≡ false) ⊎ IsDisabled e.0) (with_reset cluster_reset disabled_items)
      → P s
      → P (
          (remove_disabled_pods os cri default_path data_dir disabled_items cluster_reset events c
            s).1)
  unfolding remove_disabled_pods
  remove_disabled_pods-keeps cri disabled_items cluster_reset events c s h p =
      let dir = pod_manifests_dir default_path data_dir in
      let items = with_reset cluster_reset disabled_items in
      elim (Bool-cases (is_missing os (bin_dir data_dir) s || is_missing os dir s)) [
        | inl clean ↦ rw clean p
        | inr installed ↦ rw installed (
            terminate-keeps cri (to_terminate os dir items s) events c s
              (All-to_terminate os dir IsDisabled items s h) p)
      ]
