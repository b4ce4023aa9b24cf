-- ===== src/Images/Resolver.antt =====
-- pkg/images/images.go: the Resolver, its overrides and its references.
pub mod Laws
pub mod Lookups
pub mod References
use rke.Base.{String, ◌<>◌, Option, none, some, List, [], ◌∷◌, ◌=ₛ◌, ◌||◌, if◌then◌else◌}
use rke.Base.Dict.{Dict, lookup, insert, erase}
use rke.Base.Result.{Error, Result, ok, err, message, ◌>>=◌, annotate}
use rke.Base.Text.{trim_space}
use rke.Images.Names.{Names}
use rke.Images.Registry.{split_registry_and_path, set_registry}

abbrev pub runtime : String
runtime = "runtime-image"

abbrev pub kube_apiserver : String
kube_apiserver = "kube-apiserver-image"

abbrev pub kube_controller_manager : String
kube_controller_manager = "kube-controller-manager-image"

abbrev pub kube_proxy : String
kube_proxy = "kube-proxy-image"

abbrev pub kube_scheduler : String
kube_scheduler = "kube-scheduler-image"

abbrev pub etcd : String
etcd = "etcd-image"

abbrev pub pause : String
pause = "pause-image"

abbrev pub cloud_controller_manager : String
cloud_controller_manager = "cloud-controller-manager-image"

-- The package variables, which the build may override by linker flags.
pub record Defaults : Type 0 where
  pub registry : String
  pub prime_registry : String
  pub etcd_image : String
  pub kubernetes_image : String
  pub pause_image : String
  pub runtime_image : String
  pub cloud_controller_manager_image : String

-- Their values in the source; the registry is the library's.
abbrev pub source_defaults : String → Defaults
source_defaults registry = record {
  registry = registry;
  prime_registry = "";
  etcd_image = "rancher/hardened-etcd";
  kubernetes_image = "rancher/hardened-kubernetes";
  pause_image = "rancher/mirrored-pause";
  runtime_image = "rancher/rke2-runtime";
  cloud_controller_manager_image = "rancher/rke2-cloud-provider";
}

pub record ImageOverrideConfig : Type 0 where
  pub system_default_registry : String
  pub kube_apiserver : String
  pub kube_controller_manager : String
  pub kube_proxy : String
  pub kube_scheduler : String
  pub pause : String
  pub runtime : String
  pub etcd : String
  pub cloud_controller_manager : String

unfoldable pub default_image : Defaults → String → Option String
default_image d i =
    if i =ₛ etcd
    then some d.etcd_image
    else if i =ₛ runtime
    then some d.runtime_image
    else if i =ₛ pause
    then some d.pause_image
    else if i =ₛ cloud_controller_manager
    then some d.cloud_controller_manager_image
    else if i =ₛ kube_apiserver
        || i =ₛ kube_controller_manager
        || i =ₛ kube_proxy
        || i =ₛ kube_scheduler
    then some d.kubernetes_image
    else none

pub record Resolver (N : Names) : Type 0 where
  pub registry : N.Registry
  pub repo_path : String
  pub overrides : Dict N.Reference

module _ (N : Names) where
  abbrev pub ResolverOpt : Type 0
  ResolverOpt = N.Reference → Result N.Reference

  -- The resolver, and the error of an operation that leaves it as it was.
  unfoldable pub parse_and_set_default_registry : String → Resolver N → Result (Resolver N)
  parse_and_set_default_registry s r = do
    let parts = split_registry_and_path s
    registry ← N.new_registry parts.0
    ok (record r { registry = registry; repo_path = parts.1 })

  unfoldable pub parse_and_set_override : String → String → Resolver N → Result (Resolver N)
  unfolding trim_space insert
  parse_and_set_override i n r =
      let trimmed = trim_space n in
      if trimmed =ₛ "" then ok r else do
        ref ← N.parse_reference trimmed
        ok (record r { overrides = insert i ref r.overrides })

  unfoldable pub set_override : String → Option N.Reference → Resolver N → Resolver N
  unfolding insert erase
  set_override i none r = record r { overrides = erase i r.overrides }
  set_override i (some ref) r = record r { overrides = insert i ref r.overrides }

  abbrev pub override_fields : ImageOverrideConfig → List (String × String)
  override_fields c =
      (etcd, c.etcd)
      ∷ (kube_apiserver, c.kube_apiserver)
      ∷ (kube_controller_manager, c.kube_controller_manager)
      ∷ (kube_proxy, c.kube_proxy)
      ∷ (kube_scheduler, c.kube_scheduler)
      ∷ (pause, c.pause)
      ∷ (runtime, c.runtime)
      ∷ (cloud_controller_manager, c.cloud_controller_manager)
      ∷ []

  -- The loop over the fields.
  unfoldable pub set_overrides : List (String × String) → Resolver N → Result (Resolver N)
  unfolding parse_and_set_override
  set_overrides [] r = ok r
  set_overrides ((i, n) ∷ fields) r = do
    r' ← annotate ("failed to parse " <> i) (parse_and_set_override i n r)
    set_overrides fields r'

  abbrev pub initial : N.Registry → Resolver N
  initial registry = record { registry = registry; repo_path = ""; overrides = [] }

  -- The last step of NewResolver.
  abbrev pub configure_registry : String → Resolver N → Result (Resolver N)
  configure_registry s r =
      if s =ₛ ""
      then ok r
      else annotate "failed to parse system-default-registry" (parse_and_set_default_registry s r)

  unfoldable pub new_resolver : Defaults → ImageOverrideConfig → Result (Resolver N)
  unfolding set_overrides parse_and_set_default_registry
  new_resolver d c = do
    registry ← N.new_registry d.registry
    r ← set_overrides (override_fields c) (initial registry)
    configure_registry c.system_default_registry r

  abbrev parsed_default : String → Option String → Result N.Reference
  parsed_default i none = err (message ("unknown image " <> i))
  parsed_default i (some s) = N.parse_reference s

  unfoldable pub get_default_image : Defaults → String → Result N.Reference
  unfolding default_image
  get_default_image d i = parsed_default i (default_image d i)

  -- The registry with the path that is put in front of a repository.
  abbrev pub registry_and_path : Resolver N → String
  registry_and_path r =
      if r.repo_path =ₛ ""
      then N.registry_name r.registry
      else N.registry_name r.registry <> ("/" <> r.repo_path)

  abbrev pub base_reference :
      Defaults → Resolver N → String → Option N.Reference → Result N.Reference
  base_reference d r i (some o) = ok o
  base_reference d r i none = do
    ref ← get_default_image d i
    set_registry N ref (registry_and_path r)

  unfoldable pub apply_options : List ResolverOpt → N.Reference → Result N.Reference
  apply_options [] ref = ok ref
  apply_options (o ∷ opts) ref = do ref' ← o ref; apply_options opts ref'

  unfoldable pub get_reference :
      Defaults → Resolver N → String → List ResolverOpt → Result N.Reference
  unfolding lookup get_default_image set_registry apply_options
  get_reference d r i opts = do
    ref ← base_reference d r i (lookup i r.overrides)
    apply_options opts ref

  unfoldable pub with_registry : String → ResolverOpt
  with_registry registry ref = set_registry N ref registry
