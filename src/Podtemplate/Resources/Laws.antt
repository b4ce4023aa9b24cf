-- ===== src/Podtemplate/Resources/Laws.antt =====
-- pkg/podtemplate/config.go: the fields of the struct are distinct targets, and what parseControlPlaneResources
-- leaves in each.
use rke.Base.{String, List, [], ◌≡◌, ◌↔◌, All, ◌⊎◌, inl, inr, refl, sym, ap, ◌∙◌}
use rke.Base.Result.{ok, ◌>>=◌, >>=-eq-ok, ok-injective}
use rke.Base.Dict.{lookup, lookup-nil}
use rke.Podtemplate.Assignment.{put_all_requests}
use rke.Podtemplate.Assignment.Laws.{
  last_setting, settings, or_default-none, lookup-put_all_requests,
}
use rke.Podtemplate.Assignment.Accepted.{IsSetting, put_all_requests_iff}
use rke.Podtemplate.Assignment.Targets.{assign_all, or_default, value_or, Listed, field-assign_all}
use rke.Podtemplate.Component.{
  Component, kube_apiserver, kube_scheduler, kube_controller_manager, kube_proxy, etcd,
  cloud_controller_manager, Resource, cpu_request, cpu_limit, memory_request, memory_limit,
}
use rke.Podtemplate.Resources.{
  ControlPlaneResources, no_resources, assign, field, default_resource, key, found, field_of,
  assign_target, parse_control_plane_resources,
}

field-assign_self :
    (c : Component) (r : Resource) (v : String) (s : ControlPlaneResources)
    → field c r (assign c r v s) ≡ v
unfolding field assign
field-assign_self kube_apiserver cpu_request v s = refl
field-assign_self kube_apiserver cpu_limit v s = refl
field-assign_self kube_apiserver memory_request v s = refl
field-assign_self kube_apiserver memory_limit v s = refl
field-assign_self kube_scheduler cpu_request v s = refl
field-assign_self kube_scheduler cpu_limit v s = refl
field-assign_self kube_scheduler memory_request v s = refl
field-assign_self kube_scheduler memory_limit v s = refl
field-assign_self kube_controller_manager cpu_request v s = refl
field-assign_self kube_controller_manager cpu_limit v s = refl
field-assign_self kube_controller_manager memory_request v s = refl
field-assign_self kube_controller_manager memory_limit v s = refl
field-assign_self kube_proxy cpu_request v s = refl
field-assign_self kube_proxy cpu_limit v s = refl
field-assign_self kube_proxy memory_request v s = refl
field-assign_self kube_proxy memory_limit v s = refl
field-assign_self etcd cpu_request v s = refl
field-assign_self etcd cpu_limit v s = refl
field-assign_self etcd memory_request v s = refl
field-assign_self etcd memory_limit v s = refl
field-assign_self cloud_controller_manager cpu_request v s = refl
field-assign_self cloud_controller_manager cpu_limit v s = refl
field-assign_self cloud_controller_manager memory_request v s = refl
field-assign_self cloud_controller_manager memory_limit v s = refl

field-assign_component :
    (r r' : Resource) (c : Component) (v : String) (s : ControlPlaneResources)
    → (r ≡ r') ⊎ (field c r (assign c r' v s) ≡ field c r s)
unfolding field assign
field-assign_component cpu_request cpu_request c v s = inl refl
field-assign_component cpu_limit cpu_limit c v s = inl refl
field-assign_component memory_request memory_request c v s = inl refl
field-assign_component memory_limit memory_limit c v s = inl refl
field-assign_component _ _ kube_apiserver v s = inr refl
field-assign_component _ _ kube_scheduler v s = inr refl
field-assign_component _ _ kube_controller_manager v s = inr refl
field-assign_component _ _ kube_proxy v s = inr refl
field-assign_component _ _ etcd v s = inr refl
field-assign_component _ _ cloud_controller_manager v s = inr refl

field-assign_component_ne :
    (c c' : Component) (r r' : Resource) (v : String) (s : ControlPlaneResources)
    → (c ≡ c') ⊎ (field c r (assign c' r' v s) ≡ field c r s)
unfolding field assign
field-assign_component_ne kube_apiserver kube_apiserver r r' v s = inl refl
field-assign_component_ne kube_scheduler kube_scheduler r r' v s = inl refl
field-assign_component_ne kube_controller_manager kube_controller_manager r r' v s = inl refl
field-assign_component_ne kube_proxy kube_proxy r r' v s = inl refl
field-assign_component_ne etcd etcd r r' v s = inl refl
field-assign_component_ne cloud_controller_manager cloud_controller_manager r r' v s = inl refl
field-assign_component_ne _ _ cpu_request cpu_request v s = inr refl
field-assign_component_ne _ _ cpu_request cpu_limit v s = inr refl
field-assign_component_ne _ _ cpu_request memory_request v s = inr refl
field-assign_component_ne _ _ cpu_request memory_limit v s = inr refl
field-assign_component_ne _ _ cpu_limit cpu_request v s = inr refl
field-assign_component_ne _ _ cpu_limit cpu_limit v s = inr refl
field-assign_component_ne _ _ cpu_limit memory_request v s = inr refl
field-assign_component_ne _ _ cpu_limit memory_limit v s = inr refl
field-assign_component_ne _ _ memory_request cpu_request v s = inr refl
field-assign_component_ne _ _ memory_request cpu_limit v s = inr refl
field-assign_component_ne _ _ memory_request memory_request v s = inr refl
field-assign_component_ne _ _ memory_request memory_limit v s = inr refl
field-assign_component_ne _ _ memory_limit cpu_request v s = inr refl
field-assign_component_ne _ _ memory_limit cpu_limit v s = inr refl
field-assign_component_ne _ _ memory_limit memory_request v s = inr refl
field-assign_component_ne _ _ memory_limit memory_limit v s = inr refl

field-assign_other :
    (c : Component) (r : Resource) (c' : Component) (r' : Resource) (v : String)
    (s : ControlPlaneResources)
    → ◌≡◌ {A = Component × Resource} (c, r) (c', r') ⊎ (field c r (assign c' r' v s) ≡ field c r s)
field-assign_other c r c' r' v s = elim (field-assign_component_ne c c' r r' v s) [
  | inr kept ↦ inr kept
  | inl e ↦ elim (field-assign_component r r' c v s) [
    | inl e' ↦ inl (λ i. (e i, e' i))
    | inr kept ↦ inr (rw (← e) kept)
  ]
]

self :
    (t : Component × Resource) (v : String) (s : ControlPlaneResources)
    → field_of t (assign_target t v s) ≡ v
self (c, r) = field-assign_self c r

other :
    (t u : Component × Resource) (v : String) (s : ControlPlaneResources)
    → (t ≡ u) ⊎ (field_of t (assign_target u v s) ≡ field_of t s)
other (c, r) (c', r') = field-assign_other c r c' r'

field_of-no_resources : (t : Component × Resource) → field_of t no_resources ≡ ""
unfolding field
field_of-no_resources (kube_apiserver, cpu_request) = refl
field_of-no_resources (kube_apiserver, cpu_limit) = refl
field_of-no_resources (kube_apiserver, memory_request) = refl
field_of-no_resources (kube_apiserver, memory_limit) = refl
field_of-no_resources (kube_scheduler, cpu_request) = refl
field_of-no_resources (kube_scheduler, cpu_limit) = refl
field_of-no_resources (kube_scheduler, memory_request) = refl
field_of-no_resources (kube_scheduler, memory_limit) = refl
field_of-no_resources (kube_controller_manager, cpu_request) = refl
field_of-no_resources (kube_controller_manager, cpu_limit) = refl
field_of-no_resources (kube_controller_manager, memory_request) = refl
field_of-no_resources (kube_controller_manager, memory_limit) = refl
field_of-no_resources (kube_proxy, cpu_request) = refl
field_of-no_resources (kube_proxy, cpu_limit) = refl
field_of-no_resources (kube_proxy, memory_request) = refl
field_of-no_resources (kube_proxy, memory_limit) = refl
field_of-no_resources (etcd, cpu_request) = refl
field_of-no_resources (etcd, cpu_limit) = refl
field_of-no_resources (etcd, memory_request) = refl
field_of-no_resources (etcd, memory_limit) = refl
field_of-no_resources (cloud_controller_manager, cpu_request) = refl
field_of-no_resources (cloud_controller_manager, cpu_limit) = refl
field_of-no_resources (cloud_controller_manager, memory_request) = refl
field_of-no_resources (cloud_controller_manager, memory_limit) = refl

-- If the settings are accepted, and the order of the targets reaches every one, each field holds
-- the last value that was set for it on the command line, else its default, else nothing.
pub parse_control_plane_resources_lem :
    (order : List (Component × Resource)) (requests limits : List String)
    (s : ControlPlaneResources)
    → ((t : Component × Resource) → Listed t order)
    → parse_control_plane_resources order requests limits ≡ ok s
    → (c : Component) (r : Resource)
    → field c r s
      ≡ value_or
          (or_default
            (or_default
              (last_setting "limit" (key c r) (settings limits))
              (last_setting "request" (key c r) (settings requests)))
            (default_resource c r))
          ""
unfolding parse_control_plane_resources
parse_control_plane_resources_lem order requests limits s all h c r =
    let (requested, first, later) =
      >>=-eq-ok (put_all_requests "request" requests [])
        (λ requested. put_all_requests "limit" limits requested >>= λ parsed.
          ok (assign_all assign_target (found parsed) order no_resources))
        h in
    let (parsed, second, last) =
      >>=-eq-ok (put_all_requests "limit" limits requested)
        (λ parsed. ok (assign_all assign_target (found parsed) order no_resources)) later in
    let k = key c r in
    let one : lookup k requested ≡ last_setting "request" k (settings requests) =
      lookup-put_all_requests "request" k requests [] requested first
      ∙ (ap (or_default (last_setting "request" k (settings requests))) (lookup-nil k)
          ∙ or_default-none (last_setting "request" k (settings requests))) in
    let both = lookup-put_all_requests "limit" k limits requested parsed second in
    ap (field c r) (sym (ok-injective last))
    ∙ (field-assign_all assign_target (found parsed) field_of self other (c, r) order no_resources
          (all (c, r))
        ∙ (ap (value_or (found parsed (c, r))) (field_of-no_resources (c, r))
            ∙ ap (λ o. value_or (or_default o (default_resource c r)) "")
                (both ∙ ap (or_default (last_setting "limit" k (settings limits))) one)))

-- The resource settings are accepted exactly when each of them, split at the commas, has an equals sign.
pub parse_control_plane_resources_iff :
    (order : List (Component × Resource)) (requests limits : List String)
    → (All IsSetting (settings requests) × All IsSetting (settings limits))
      ↔ ((s : ControlPlaneResources) × (parse_control_plane_resources order requests limits ≡ ok s))
unfolding parse_control_plane_resources
parse_control_plane_resources_iff order requests limits = (
  λ (h, h').
      let (requested, e) = (put_all_requests_iff "request" requests []).0 h in
      let (parsed, e') = (put_all_requests_iff "limit" limits requested).0 h' in
      (assign_all assign_target (found parsed) order no_resources, rw (e, e')),
  λ (s, h).
      let (requested, first, later) =
        >>=-eq-ok (put_all_requests "request" requests [])
          (λ requested. put_all_requests "limit" limits requested >>= λ parsed.
            ok (assign_all assign_target (found parsed) order no_resources))
          h in
      let (parsed, second, _) =
        >>=-eq-ok (put_all_requests "limit" limits requested)
          (λ parsed. ok (assign_all assign_target (found parsed) order no_resources)) later in
      (
        (put_all_requests_iff "request" requests []).1 (requested, first),
        (put_all_requests_iff "limit" limits requested).1 (parsed, second),
      ),
)
