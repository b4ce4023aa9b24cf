-- ===== src/Staticpod/Sandboxes/Statuses.antt =====
-- pkg/executor/staticpod/spw.go: what checkManifestDeployed collects of the pod's sandboxes.
use Prim.Native.Nat.{zero, suc}
use rke.Base.{
  ℕ, true, ◌&&◌, ◌==◌, String, List, [], ◌∷◌, ◌++◌, ◌≡◌, ◌≢◌, refl, sym, ap, ◌∙◌, arith, Bool-cases,
  inl, inr, ◌=ₛ◌, eq_iff, if◌then◌else◌,
}
use mathlib.Core.Path.{subst}
use rke.Base.Result.{Error, Result, ok, err, err≢ok, ok-injective, >>=-eq-ok}
use rke.Staticpod.Sandboxes.{
  Cri, ManifestPod, PodSandbox, Collected, sandbox_uid, collect, status_read, with_status,
  empty_status, determine_pod_sandbox_ips,
}

append_nil : {A : Type 0} (l : List A) → l ++ [] ≡ l
append_nil [] = refl
append_nil (x ∷ xs) = ap (λ l. x ∷ l) (append_nil xs)

append_one : {A : Type 0} (l : List A) (x : A) (r : List A) → (l ++ (x ∷ [])) ++ r ≡ l ++ (x ∷ r)
append_one [] x r = refl
append_one (y ∷ l) x r = ap (λ l. y ∷ l) (append_one l x r)

module _ (C : Cri) where
  -- What the runtime says, at the state, of the listed sandboxes that are the pod's: one status each, less
  -- those that are gone by then.
  pub data Reports (pod : ManifestPod) (s : C.State)
      : List PodSandbox → List C.SandboxStatus → Type 0 where
    no_more : Reports pod s [] []
    foreign :
        (b : PodSandbox) (items : List PodSandbox) (statuses : List C.SandboxStatus)
        → sandbox_uid b ≢ pod.uid
        → Reports pod s items statuses
        → Reports pod s (b ∷ items) statuses
    gone :
        (b : PodSandbox) (items : List PodSandbox) (statuses : List C.SandboxStatus) (e : Error)
        → sandbox_uid b ≡ pod.uid
        → C.pod_sandbox_status b.id s ≡ err e
        → C.is_not_found e ≡ true
        → Reports pod s items statuses
        → Reports pod s (b ∷ items) statuses
    reported :
        (b : PodSandbox) (items : List PodSandbox) (statuses : List C.SandboxStatus)
        (status : C.SandboxStatus)
        → sandbox_uid b ≡ pod.uid
        → C.pod_sandbox_status b.id s ≡ ok status
        → Reports pod s items statuses
        → Reports pod s (b ∷ items) (status ∷ statuses)

  -- The addresses of the first sandbox, if it is ready.
  abbrev pub first_ips : List C.SandboxStatus → List String
  first_ips [] = []
  first_ips (status ∷ statuses) =
      if C.is_ready status then determine_pod_sandbox_ips C status else []

  abbrev ips_from : ℕ → List String → List C.SandboxStatus → List String
  ips_from zero ips [] = ips
  ips_from zero ips (status ∷ statuses) =
      if C.is_ready status then determine_pod_sandbox_ips C status else ips
  ips_from (suc n) ips statuses = ips

  -- The pod's identity is kept, its statuses are added, and its addresses are those of the first one.
  abbrev pub Extends : Collected C → List C.SandboxStatus → Collected C → Type 0
  Extends c statuses c' =
      (c'.0.id ≡ c.0.id)
      × (c'.0.name ≡ c.0.name)
      × (c'.0.namespace ≡ c.0.namespace)
      × (c'.0.sandbox_statuses ≡ c.0.sandbox_statuses ++ statuses)
      × (c'.0.ips ≡ ips_from c.1 c.0.ips statuses)

  ips_from_next :
      (n : ℕ) (ips : List String) (status : C.SandboxStatus) (statuses : List C.SandboxStatus)
      → (if n == 0 && C.is_ready status then determine_pod_sandbox_ips C status else ips)
        ≡ ips_from n ips (status ∷ statuses)
  ips_from_next zero ips status statuses = refl
  ips_from_next (suc n) ips status statuses = ground arith

  ips_from_none : (n : ℕ) (ips : List String) → ips_from n ips [] ≡ ips
  ips_from_none zero ips = refl
  ips_from_none (suc n) ips = refl

  Extends-with_status :
      (c c' : Collected C) (status : C.SandboxStatus) (statuses : List C.SandboxStatus)
      → Extends (with_status C status c) statuses c'
      → Extends c (status ∷ statuses) c'
  Extends-with_status c c' status statuses (id, name, namespace, added, ips) = (
    id,
    name,
    namespace,
    added ∙ append_one c.0.sandbox_statuses status statuses,
    ips ∙ ips_from_next c.1 c.0.ips status statuses,
  )

  -- What the loop has gone through, in front of what it still goes through.
  abbrev Collects : ManifestPod → List PodSandbox → Collected C → Collected C → C.State → Type 0
  Collects pod items c c' s =
      (statuses : List C.SandboxStatus) × Reports pod s items statuses × Extends c statuses c'

  status_read-Collects :
      (pod : ManifestPod) (b : PodSandbox) (items : List PodSandbox) (c c1 c' : Collected C)
      (s : C.State) (r : Result C.SandboxStatus)
      → sandbox_uid b ≡ pod.uid
      → C.pod_sandbox_status b.id s ≡ r
      → status_read C r c ≡ ok c1
      → Collects pod items c1 c' s
      → Collects pod (b ∷ items) c c' s
  status_read-Collects pod b items c c1 c' s (ok status) same read h (statuses, rest, extends) = (
    status ∷ statuses,
    reported b items statuses status same read rest,
    Extends-with_status c c' status statuses
        (subst (λ d. Extends d statuses c') (sym (ok-injective h)) extends),
  )
  status_read-Collects pod b items c c1 c' s (err e) same read h (statuses, rest, extends) =
      elim (Bool-cases (C.is_not_found e)) [
        | inl missing ↦ (
          statuses,
          gone b items statuses e same read missing rest,
          subst (λ d. Extends d statuses c') (sym (ok-injective (rw missing at h))) extends,
        )
        | inr other ↦ absurd (err≢ok (rw other at h))
      ]

  -- The loop collects what the runtime says.
  pub collect-Reports :
      (pod : ManifestPod) (items : List PodSandbox) (c c' : Collected C) (s : C.State)
      → collect C pod items c s ≡ ok c'
      → Collects pod items c c' s
  unfolding collect
  collect-Reports pod [] c c' s h =
      subst (λ d. Collects pod [] c d s) (ok-injective h)
        (
          [],
          no_more,
          (
            refl,
            refl,
            refl,
            sym (append_nil c.0.sandbox_statuses),
            sym (ips_from_none c.1 c.0.ips),
          ),
        )
  collect-Reports pod (b ∷ items) c c' s h =
      let (c1, first, h1) = >>=-eq-ok _ (λ c1. collect C pod items c1 s) h in
      let rest = collect-Reports pod items c1 c' s h1 in
      elim (Bool-cases (sandbox_uid b =ₛ pod.uid)) [
        | inl own ↦
            status_read-Collects pod b items c c1 c' s (C.pod_sandbox_status b.id s)
              ((eq_iff (sandbox_uid b) pod.uid).0 own) refl (rw own at first) rest
        | inr other ↦
            let (statuses, reports, extends) = rest in
            (
              statuses,
              foreign b items statuses
                  (λ same. absurd (let g = (eq_iff (sandbox_uid b) pod.uid).1 same in cc)) reports,
              subst (λ d. Extends d statuses c') (sym (ok-injective (rw other at first))) extends,
            )
      ]

  pub Extends-empty :
      (pod : ManifestPod) (c : Collected C) (statuses : List C.SandboxStatus)
      → Extends (empty_status C pod) statuses c
      → c.0 ≡ (record {
        id = pod.uid;
        name = pod.name;
        namespace = pod.namespace;
        sandbox_statuses = statuses;
        ips = first_ips statuses;
      })
  Extends-empty pod c [] (id, name, namespace, added, ips) = cc
  Extends-empty pod c (status ∷ statuses) (id, name, namespace, added, ips) = cc
