-- ===== src/Staticpod/Sandboxes/Laws.antt =====
-- pkg/executor/staticpod/spw.go: when a manifest is deployed, and when the poll ends.
use mathlib.Core.Path.{subst}
use rke.Base.{
  ◌↔◌, Bool, true, false, String, ◌<>◌, List, [], ◌∷◌, All, ◌≡◌, ◌≢◌, refl, sym, ap, ◌∙◌, arith,
  Bool-cases, inl, inr, ◌=ₛ◌, eq_iff, ◌||◌, if◌then◌else◌,
}
use rke.Base.FilePath.{join_path}
use rke.Base.Result.{Result, ok, err, message, annotate, err≢ok, annotate-eq-ok}
use rke.Base.Act.{Act, continue, continue-eq-ok}
use rke.Staticpod.Sandboxes.Statuses.{Reports, first_ips, collect-Reports, Extends-empty}
use rke.Staticpod.Sandboxes.{
  Cri, ManifestPod, PodSandbox, sandbox_uid, sandbox_filter, is_stale, verdict, collect,
  remove_stale, empty_status, remove_others, check_manifest_deployed, check_items, check_pod,
  check_text, is_done, sync_pods,
}

-- A sandbox of the pod on disk, and the latest one if the kubelet knows one.
abbrev pub IsCurrent : ManifestPod → String → PodSandbox → Type 0
IsCurrent pod sandbox_id b = (sandbox_uid b ≡ pod.uid) × (sandbox_id ≢ "" → sandbox_id ≡ b.id)

is_stale-IsCurrent :
    (pod : ManifestPod) (sandbox_id : String) (b : PodSandbox)
    → is_stale pod sandbox_id b ≡ false
    → IsCurrent pod sandbox_id b
is_stale-IsCurrent pod sandbox_id b h =
    let same = eq_iff (sandbox_uid b) pod.uid in
    let none = eq_iff sandbox_id "" in
    let latest = eq_iff sandbox_id b.id in (same.0 (ground arith), λ known. latest.0 (ground arith))

neither : (a b : Bool) → (a || b) ≡ false → (a ≡ false) × (b ≡ false)
neither false b h = (refl, h)
neither true b h = absurd cc

module _ (C : Cri) where
  remove_stale-none :
      (pod : ManifestPod) (sandbox_id : String) (items : List PodSandbox) (s : C.State)
      → (remove_stale C pod sandbox_id items s).0 ≡ false
      → All (IsCurrent pod sandbox_id) items × ((remove_stale C pod sandbox_id items s).1 ≡ s)
  unfolding remove_stale
  remove_stale-none pod sandbox_id [] s h = (tt, refl)
  remove_stale-none pod sandbox_id (b ∷ items) s h =
      let rest = λ (c : Bool).
        remove_stale C pod sandbox_id items (if c then (C.remove_pod_sandbox b.id s).1 else s) in
      let stale = is_stale pod sandbox_id b in
      let (current, others) = neither stale (rest stale).0 h in
      let kept =
        remove_stale-none pod sandbox_id items s (subst (λ c. (rest c).0 ≡ false) current others) in
      ((is_stale-IsCurrent pod sandbox_id b current, kept.0), ap (λ c. (rest c).1) current ∙ kept.1)

  verdict-ok :
      (removed : Bool) (changed : Bool × String)
      → verdict removed changed ≡ ok tt
      → (removed ≡ false) × (changed.0 ≡ false)
  verdict-ok true changed h = absurd (err≢ok h)
  verdict-ok false (true, sandbox_id) h = absurd (elim (Bool-cases (sandbox_id =ₛ "")) [
    | inl e ↦ err≢ok (
        subst
          (λ c.
            (if c
              then err (message "pod sandbox not found")
              else err (message "pod sandbox has changed"))
            ≡ ok tt)
          e h)
    | inr e ↦ err≢ok (
        subst
          (λ c.
            (if c
              then err (message "pod sandbox not found")
              else err (message "pod sandbox has changed"))
            ≡ ok tt)
          e h)
  ])
  verdict-ok false (false, sandbox_id) h = (refl, refl)

  -- The pod of a manifest, what the runtime lists for it, and the kubelet's view of what the runtime says
  -- of the pod's sandboxes.
  pub record IsDeployed (manifest_file : String) (s : C.State) : Type 0 where
    pub text : String
    pub pod : ManifestPod
    pub items : List PodSandbox
    pub statuses : List C.SandboxStatus
    pub sandbox_id : String
    pub opened : C.open_manifest manifest_file s ≡ ok text
    pub decoded : C.decode text ≡ ok pod
    pub listed : C.list_pod_sandbox (sandbox_filter pod) s ≡ ok items
    pub asked : Reports C pod s items statuses
    pub unchanged :
        C.pod_sandbox_changed pod (record {
          id = pod.uid;
          name = pod.name;
          namespace = pod.namespace;
          sandbox_statuses = statuses;
          ips = first_ips C statuses;
        })
        ≡ (false, sandbox_id)
    pub current : All (IsCurrent pod sandbox_id) items

  -- A manifest is deployed only if the runtime lists no sandbox but those of its pod, the latest one if
  -- the kubelet knows one, and the kubelet needs no new one, given the statuses that the runtime reports
  -- of the pod's sandboxes, in their order, and the addresses of the first one if it is ready; nothing was
  -- removed then.
  pub check_manifest_deployed-IsDeployed :
      (manifest_file : String) (s s' : C.State)
      → check_manifest_deployed C manifest_file s ≡ (ok tt, s')
      → IsDeployed manifest_file s × (s' ≡ s)
  unfolding check_manifest_deployed
  check_manifest_deployed-IsDeployed manifest_file s s' h =
      let (text, opened, h1) =
        continue-eq-ok (annotate "failed to open manifest" (C.open_manifest manifest_file s))
          (check_text C) s h in
      let (pod, decoded, h2) =
        continue-eq-ok (annotate "failed to decode manifest" (C.decode text)) (check_pod C) s h1 in
      let (items, listed, h3) =
        continue-eq-ok
          (annotate "failed to list pod sandboxes" (C.list_pod_sandbox (sandbox_filter pod) s))
          (check_items C pod) s h2 in
      let (c, collected, h4) =
        continue-eq-ok (collect C pod items (empty_status C pod) s)
          (λ c. remove_others C pod items (C.pod_sandbox_changed pod c.0)) s h3 in
      let (statuses, asked, given) =
        collect-Reports C pod items (empty_status C pod) c s collected in
      let changed = C.pod_sandbox_changed pod c.0 in
      let (none_removed, unchanged) = verdict-ok _ changed (ap (λ p. p.0) h4) in
      let (current, same) = remove_stale-none pod changed.1 items s none_removed in
      (
        record {
          text = text;
          pod = pod;
          items = items;
          statuses = statuses;
          sandbox_id = changed.1;
          opened = annotate-eq-ok _ _ opened;
          decoded = annotate-eq-ok _ _ decoded;
          listed = annotate-eq-ok _ _ listed;
          asked = asked;
          unchanged =
              ap (C.pod_sandbox_changed pod) (sym (Extends-empty C pod c statuses given))
              ∙ ap (λ b. (b, changed.1)) unchanged;
          current = current;
        },
        sym (ap (λ p. p.1) h4) ∙ same,
      )

-- errors.New is no os.ErrNotExist.
module _ (C : Cri) (unnoticed : (text : String) → C.is_err_not_exist (message text) ≡ false) where
  verdict-is_done :
      (removed : Bool) (changed : Bool × String)
      → is_done C (verdict removed changed) ≡ true
      → removed ≡ false
  verdict-is_done false changed h = refl
  verdict-is_done true changed h =
      absurd (let e = unnoticed "waiting for termination of old pod sandbox" in cc)

  remove_others-unchanged :
      (pod : ManifestPod) (items : List PodSandbox) (changed : Bool × String) (s : C.State)
      → is_done C (remove_others C pod items changed s).0 ≡ true
      → (remove_others C pod items changed s).1 ≡ s
  remove_others-unchanged pod items changed s h =
      (remove_stale-none C pod changed.1 items s (verdict-is_done _ changed h)).1

  continue-unchanged :
      {A : Type 0} (r : Result A) (k : A → Act C.State (Unit {0})) (s : C.State)
      → ((a : A) → is_done C (k a s).0 ≡ true → (k a s).1 ≡ s)
      → is_done C (continue (r, s) k).0 ≡ true
      → (continue (r, s) k).1 ≡ s
  continue-unchanged (ok a) k s kept h = kept a h
  continue-unchanged (err e) k s kept h = refl

  check_manifest_deployed-unchanged :
      (manifest_file : String) (s : C.State)
      → is_done C (check_manifest_deployed C manifest_file s).0 ≡ true
      → (check_manifest_deployed C manifest_file s).1 ≡ s
  unfolding check_manifest_deployed
  check_manifest_deployed-unchanged manifest_file s = continue-unchanged _ (check_text C) s λ text.
      continue-unchanged _ (check_pod C) s λ pod.
        continue-unchanged _ (check_items C pod) s λ items.
          continue-unchanged (collect C pod items (empty_status C pod) s)
            (λ c. remove_others C pod items (C.pod_sandbox_changed pod c.0)) s
            λ c. remove_others-unchanged pod items (C.pod_sandbox_changed pod c.0) s

  -- If the errors that the program makes are no os.ErrNotExist, a poll ends the wait exactly when each
  -- manifest, on the machine before the poll, is deployed or does not exist, and the poll leaves the
  -- machine as it was.
  pub sync_pods_iff :
      (dir : String) (pods : List String) (s : C.State)
      → ((sync_pods C dir pods s).0 ≡ true) ↔ (
          All
            (λ pod.
              is_done C (check_manifest_deployed C (join_path (dir ∷ (pod <> ".yaml") ∷ [])) s).0
              ≡ true)
            pods
          × ((sync_pods C dir pods s).1 ≡ s))
  unfolding sync_pods
  sync_pods_iff dir [] s = (λ h. (tt, refl), λ h. refl)
  sync_pods_iff dir (pod ∷ pods) s =
      let manifest_file = join_path (dir ∷ (pod <> ".yaml") ∷ []) in
      let checked = check_manifest_deployed C manifest_file s in
      let others = sync_pods_iff dir pods s in
      elim (Bool-cases (is_done C checked.0)) [
        | inl done ↦ rw done (
            rw (check_manifest_deployed-unchanged manifest_file s done)
              (λ h. let both = others.0 h in ((refl, both.0), both.1), λ h. others.1 (h.0.1, h.1)))
        | inr waiting ↦ rw waiting (λ h. absurd cc, λ h. absurd (let never = h.0.0 in cc))
      ]
