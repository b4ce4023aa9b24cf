-- ===== src/Podtemplate/Probes/Fields.antt =====
-- pkg/podtemplate/config.go: the fields of the nested structs are distinct targets.
use rke.Base.{ℕ, ◌≡◌, ◌⊎◌, inl, inr, refl, ap, ◌∙◌}
use rke.Podtemplate.Component.{
  Component, kube_apiserver, kube_scheduler, kube_controller_manager, kube_proxy, etcd,
  cloud_controller_manager, ProbeType, liveness, readiness, startup, Threshold,
  initial_delay_seconds, timeout_seconds, failure_threshold, period_seconds,
}
use rke.Podtemplate.Probes.{
  ProbeConf, ProbeConfs, ControlPlaneProbeConfs, no_conf, no_confs, no_probe_confs, threshold,
  with_threshold, probe, with_probe, component, with_component, Target, field, assign,
}

threshold-with_threshold_self :
    (a : Threshold) (v : ℕ) (s : ProbeConf) → threshold a (with_threshold a v s) ≡ v
unfolding threshold with_threshold
threshold-with_threshold_self initial_delay_seconds v s = refl
threshold-with_threshold_self timeout_seconds v s = refl
threshold-with_threshold_self failure_threshold v s = refl
threshold-with_threshold_self period_seconds v s = refl

threshold-with_threshold :
    (a b : Threshold) (v : ℕ) (s : ProbeConf)
    → (a ≡ b) ⊎ (threshold a (with_threshold b v s) ≡ threshold a s)
unfolding threshold with_threshold
threshold-with_threshold initial_delay_seconds initial_delay_seconds v s = inl refl
threshold-with_threshold timeout_seconds timeout_seconds v s = inl refl
threshold-with_threshold failure_threshold failure_threshold v s = inl refl
threshold-with_threshold period_seconds period_seconds v s = inl refl
threshold-with_threshold _ _ v s = inr refl

probe-with_probe_self :
    (a : ProbeType) (v : ProbeConf) (s : ProbeConfs) → probe a (with_probe a v s) ≡ v
unfolding probe with_probe
probe-with_probe_self liveness v s = refl
probe-with_probe_self readiness v s = refl
probe-with_probe_self startup v s = refl

probe-with_probe :
    (a b : ProbeType) (v : ProbeConf) (s : ProbeConfs)
    → (a ≡ b) ⊎ (probe a (with_probe b v s) ≡ probe a s)
unfolding probe with_probe
probe-with_probe liveness liveness v s = inl refl
probe-with_probe readiness readiness v s = inl refl
probe-with_probe startup startup v s = inl refl
probe-with_probe _ _ v s = inr refl

component-with_component_self :
    (a : Component) (v : ProbeConfs) (s : ControlPlaneProbeConfs)
    → component a (with_component a v s) ≡ v
unfolding component with_component
component-with_component_self kube_apiserver v s = refl
component-with_component_self kube_scheduler v s = refl
component-with_component_self kube_controller_manager v s = refl
component-with_component_self kube_proxy v s = refl
component-with_component_self etcd v s = refl
component-with_component_self cloud_controller_manager v s = refl

component-with_component :
    (a b : Component) (v : ProbeConfs) (s : ControlPlaneProbeConfs)
    → (a ≡ b) ⊎ (component a (with_component b v s) ≡ component a s)
unfolding component with_component
component-with_component kube_apiserver kube_apiserver v s = inl refl
component-with_component kube_scheduler kube_scheduler v s = inl refl
component-with_component kube_controller_manager kube_controller_manager v s = inl refl
component-with_component kube_proxy kube_proxy v s = inl refl
component-with_component etcd etcd v s = inl refl
component-with_component cloud_controller_manager cloud_controller_manager v s = inl refl
component-with_component _ _ v s = inr refl

pub field-assign_self :
    (t : Target) (v : ℕ) (s : ControlPlaneProbeConfs) → field t (assign t v s) ≡ v
field-assign_self (c, p, t) v s =
    ap (λ x. threshold t (probe p x)) (component-with_component_self c _ s)
    ∙ (ap (threshold t) (probe-with_probe_self p _ _) ∙ threshold-with_threshold_self t v _)

-- What an assignment to a field of the structure at a component, or at a probe, leaves alone.
field-with_probe :
    (p q : ProbeType) (t u : Threshold) (v : ℕ) (s : ProbeConfs)
    → ((p ≡ q) × (t ≡ u))
      ⊎ (threshold t (probe p (with_probe q (with_threshold u v (probe q s)) s))
          ≡ threshold t (probe p s))
field-with_probe p q t u v s = elim (probe-with_probe p q (with_threshold u v (probe q s)) s) [
  | inr kept ↦ inr (ap (threshold t) kept)
  | inl e ↦ elim (threshold-with_threshold t u v (probe q s)) [
    | inl e' ↦ inl (e, e')
    | inr kept ↦ inr (
        rw e (ap (threshold t) (probe-with_probe_self q (with_threshold u v (probe q s)) s) ∙ kept))
  ]
]

pub field-assign_other :
    (a b : Target) (v : ℕ) (s : ControlPlaneProbeConfs)
    → (a ≡ b) ⊎ (field a (assign b v s) ≡ field a s)
field-assign_other (c, p, t) (d, q, u) v s =
    let x = with_probe q (with_threshold u v (probe q (component d s))) (component d s) in
    elim (component-with_component c d x s) [
      | inr kept ↦ inr (ap (λ y. threshold t (probe p y)) kept)
      | inl e ↦ elim (field-with_probe p q t u v (component d s)) [
        | inl (e', e'') ↦ inl (λ i. (e i, e' i, e'' i))
        | inr kept ↦
            inr (
              rw e (ap (λ y. threshold t (probe p y)) (component-with_component_self d x s) ∙ kept))
      ]
    ]

threshold-no_conf : (t : Threshold) → threshold t no_conf ≡ 0
unfolding threshold
threshold-no_conf initial_delay_seconds = refl
threshold-no_conf timeout_seconds = refl
threshold-no_conf failure_threshold = refl
threshold-no_conf period_seconds = refl

probe-no_confs : (p : ProbeType) → probe p no_confs ≡ no_conf
unfolding probe
probe-no_confs liveness = refl
probe-no_confs readiness = refl
probe-no_confs startup = refl

component-no_probe_confs : (c : Component) → component c no_probe_confs ≡ no_confs
unfolding component
component-no_probe_confs kube_apiserver = refl
component-no_probe_confs kube_scheduler = refl
component-no_probe_confs kube_controller_manager = refl
component-no_probe_confs kube_proxy = refl
component-no_probe_confs etcd = refl
component-no_probe_confs cloud_controller_manager = refl
