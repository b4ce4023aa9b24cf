-- ===== src/Podtemplate/Spec/Wiring.antt =====
-- pkg/podtemplate/spec.go: each component's Spec is made from that component's part of the configuration.
use rke.Base.{ℕ, String, List, ◌≡◌, refl, ap, ◌∙◌}
use mathlib.Core.Path.{subst}
use rke.Base.Os.{Os}
use rke.Base.Result.{ok, ok-injective}
use rke.Base.Act.{Act, >>=-ok, pure}
use rke.Images.Names.{Names}
use rke.Images.Resolver
use rke.Images.Resolver.{Defaults}
use rke.Podtemplate.Component.{
  Component, kube_apiserver, kube_scheduler, kube_controller_manager, kube_proxy, etcd,
  cloud_controller_manager, component_name, cpu_request, cpu_limit, memory_request, memory_limit,
}
use rke.Podtemplate.Probes.{component}
use rke.Podtemplate.Resources.{field}
use rke.Podtemplate.Spec
use rke.Podtemplate.Spec.{Config, PerComponent, resolve_and_pull}

abbrev pub per_component : Component → PerComponent → List String
per_component kube_apiserver s = s.kube_apiserver
per_component kube_scheduler s = s.kube_scheduler
per_component kube_controller_manager s = s.kube_controller_manager
per_component kube_proxy s = s.kube_proxy
per_component etcd s = s.etcd
per_component cloud_controller_manager s = s.cloud_controller_manager

abbrev pub image_name : Component → String
image_name kube_apiserver = Resolver.kube_apiserver
image_name kube_scheduler = Resolver.kube_scheduler
image_name kube_controller_manager = Resolver.kube_controller_manager
image_name kube_proxy = Resolver.kube_proxy
image_name etcd = Resolver.etcd
image_name cloud_controller_manager = Resolver.cloud_controller_manager

module _ {N : Names} (os : Os) (d : Defaults) (c : Config N) (port : ℕ) where
  -- The method of a component.
  abbrev pub spec_of : Component → List String → Act os.State (Spec.Spec N)
  spec_of kube_apiserver = Spec.api_server N os d c port
  spec_of kube_scheduler = Spec.scheduler N os d c
  spec_of kube_controller_manager = Spec.controller_manager N os d c
  spec_of kube_proxy = Spec.kube_proxy N os d c
  spec_of etcd = Spec.etcd N os d c
  spec_of cloud_controller_manager = Spec.cloud_controller_manager N os d c

  -- The Spec has the component's name, the given arguments and image, and the component's resources,
  -- environment, mounts and probe thresholds.
  abbrev pub IsWired : Component → List String → N.Reference → Spec.Spec N → Type 0
  IsWired k args image spec =
      (spec.command ≡ component_name k)
      × (spec.args ≡ args)
      × (spec.image ≡ image)
      × (spec.cpu_request ≡ field k cpu_request c.resources)
      × (spec.cpu_limit ≡ field k cpu_limit c.resources)
      × (spec.memory_request ≡ field k memory_request c.resources)
      × (spec.memory_limit ≡ field k memory_limit c.resources)
      × (spec.extra_env ≡ per_component k c.env)
      × (spec.extra_mounts ≡ per_component k c.mounts)
      × (spec.probe_confs ≡ component k c.probes)

  from_image :
      (k : Component) (args : List String) (image : N.Reference) (made spec : Spec.Spec N)
      (s t s' : os.State)
      → resolve_and_pull N os d c (image_name k) s ≡ (ok image, t)
      → IsWired k args image made
      → pure made t ≡ (ok spec, s')
      → (image : N.Reference) × (resolve_and_pull N os d c (image_name k) s ≡ (ok image, s'))
        × IsWired k args image spec
  from_image k args image made spec s t s' one wired two = (
    image,
    one ∙ ap (λ u. (ok image, u)) (ap (λ p. p.1) two),
    subst (IsWired k args image) (ok-injective (ap (λ p. p.0) two)) wired,
  )

  -- Whatever component is started, its image is resolved and pulled under the component's own name, and
  -- its Spec is made from that image, the arguments and the component's own part of the configuration.
  pub spec_of-IsWired :
      (k : Component) (args : List String) (spec : Spec.Spec N) (s s' : os.State)
      → spec_of k args s ≡ (ok spec, s')
      → (image : N.Reference) × (resolve_and_pull N os d c (image_name k) s ≡ (ok image, s'))
        × IsWired k args image spec
  unfolding Spec.api_server Spec.scheduler Spec.controller_manager Spec.kube_proxy Spec.etcd
      Spec.cloud_controller_manager field component
  spec_of-IsWired kube_apiserver args spec s s' h =
      let (image, t, one, two) =
        >>=-ok (resolve_and_pull N os d c (image_name kube_apiserver)) _ s h in
      from_image kube_apiserver args image _ spec s t s' one
        (refl, refl, refl, refl, refl, refl, refl, refl, refl, refl) two
  spec_of-IsWired kube_scheduler args spec s s' h =
      let (image, t, one, two) =
        >>=-ok (resolve_and_pull N os d c (image_name kube_scheduler)) _ s h in
      from_image kube_scheduler args image _ spec s t s' one
        (refl, refl, refl, refl, refl, refl, refl, refl, refl, refl) two
  spec_of-IsWired kube_controller_manager args spec s s' h =
      let (image, t, one, two) =
        >>=-ok (resolve_and_pull N os d c (image_name kube_controller_manager)) _ s h in
      from_image kube_controller_manager args image _ spec s t s' one
        (refl, refl, refl, refl, refl, refl, refl, refl, refl, refl) two
  spec_of-IsWired kube_proxy args spec s s' h =
      let (image, t, one, two) = >>=-ok (resolve_and_pull N os d c (image_name kube_proxy)) _ s h in
      from_image kube_proxy args image _ spec s t s' one
        (refl, refl, refl, refl, refl, refl, refl, refl, refl, refl) two
  spec_of-IsWired etcd args spec s s' h =
      let (image, t, one, two) = >>=-ok (resolve_and_pull N os d c (image_name etcd)) _ s h in
      from_image etcd args image _ spec s t s' one
        (refl, refl, refl, refl, refl, refl, refl, refl, refl, refl) two
  spec_of-IsWired cloud_controller_manager args spec s s' h =
      let (image, t, one, two) =
        >>=-ok (resolve_and_pull N os d c (image_name cloud_controller_manager)) _ s h in
      from_image cloud_controller_manager args image _ spec s t s' one
        (refl, refl, refl, refl, refl, refl, refl, refl, refl, refl) two
