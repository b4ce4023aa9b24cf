-- ===== src/Bootstrap/Charts.antt =====
-- pkg/bootstrap/bootstrap.go: the cluster's values are set in the manifests that hold HelmCharts. The
-- decoder of YAML, the unstructured objects and the files that are open are parameters.
pub mod Laws
pub mod Settled
use Prim.Native.Nat.{suc}
use rke.Base.{
  ℕ, Bool, true, false, not, ◌&&◌, ◌||◌, String, ◌<>◌, Option, none, some, List, [], ◌∷◌, ◌++◌,
  ◌=ₛ◌, if◌then◌else◌, any,
}
use rke.Base.Dict.{Dict, lookup}
use rke.Base.Os.{FileKind, is_dir}
use rke.Base.Result.{Result, ok, err, Error, with_message, annotate}
use rke.Base.Act.{Act, pure, wrap, lift, ◌>>=◌, ◌>>◌}
use rke.Base.Text.{has_suffix}

-- strconv.ParseBool.
unfoldable pub parse_bool : String → Option Bool
parse_bool s =
    if any (λ t. t =ₛ s) ("1" ∷ "t" ∷ "T" ∷ "true" ∷ "TRUE" ∷ "True" ∷ [])
    then some true
    else if any (λ t. t =ₛ s) ("0" ∷ "f" ∷ "F" ∷ "false" ∷ "FALSE" ∷ "False" ∷ [])
    then some false
    else none

abbrev pub inject_annotation_key : String
inject_annotation_key = "rke2.cattle.io/inject-cluster-config"

abbrev pub inject_default : Bool
inject_default = false

abbrev pub or_else : Option Bool → Bool → Bool
or_else none b = b
or_else (some a) b = a

-- The value of the environment variable is the argument.
unfoldable pub get_inject_default : String → Bool
unfolding parse_bool
get_inject_default env = or_else (parse_bool env) inject_default

abbrev annotated_or : Option String → Bool → Bool
annotated_or none default = default
annotated_or (some v) default = or_else (parse_bool v) default

-- unstructured: the annotations of an object, and NestedString and SetNestedField below spec.set.
pub record Unstructured : Type 1 where
  pub Content : Type 0
  pub annotations : Content → Dict String
  pub nested_string : String → Content → Result String
  pub set_nested_field : String → String → Content → Result Content

-- The manifests: filepath.Walk, the file that os.OpenFile opens with its text, and the calls on it.
pub record ManifestFiles : Type 1 where
  pub State : Type 0
  pub walk : String → State → Result (List (String × FileKind))
  pub open_file : String → State → Result String × State
  pub seek : String → State → Result (Unit {0}) × State
  pub truncate : String → State → Result (Unit {0}) × State
  pub write : String → String → State → Result (Unit {0}) × State
  pub sync : String → State → Result (Unit {0}) × State

module _ (u : Unstructured) (env : String) where
  unfoldable pub is_inject_enabled : u.Content → Bool
  unfolding get_inject_default lookup
  is_inject_enabled content =
      annotated_or (lookup inject_annotation_key (u.annotations content)) (get_inject_default env)

  -- An object that is a HelmChart, and any other.
  pub data Object : Type 0 where
    helm_chart : u.Content → Object
    other_object : u.Content → Object

  abbrev after_set :
      (Bool → u.Content → Bool × u.Content) → u.Content → Result u.Content → Bool × u.Content
  after_set rest content (err e) = (false, content)
  after_set rest content (ok content') = rest true content'

  abbrev after_read :
      (Bool → u.Content → Bool × u.Content)
      → String
      → String
      → Bool
      → u.Content
      → Result String
      → Bool × u.Content
  after_read rest k v changed content (err e) = (false, content)
  after_read rest k v changed content (ok cv) =
      if cv =ₛ v
      then rest changed content
      else after_set rest content (u.set_nested_field k v content)

  -- The content is changed in place, so what has been set before an error stays; but such an object does
  -- not count as changed.
  unfoldable pub set_values : Dict String → Bool → u.Content → Bool × u.Content
  set_values [] changed content = (changed, content)
  set_values ((k, v) ∷ values) changed content =
      after_read (λ b c. set_values values b c) k v changed content (u.nested_string k content)

  abbrev pub with_content : Bool × u.Content → Bool × Object
  with_content r = (r.0, helm_chart r.1)

  abbrev pub update_object : Dict String → Object → Bool × Object
  update_object values (other_object content) = (false, other_object content)
  update_object values (helm_chart content) =
      if is_inject_enabled content
      then with_content (set_values values false content)
      else (false, helm_chart content)

  -- Whether any object has changed, and the objects. The map of values is ranged over anew for each object,
  -- and Go does not say in which order: the n-th object has its own one, orders n.
  unfoldable pub update_objects : (ℕ → Dict String) → List Object → Bool × List Object
  unfolding is_inject_enabled set_values
  update_objects orders [] = (false, [])
  update_objects orders (obj ∷ objs) =
      let first = update_object (orders 0) obj in
      let rest = update_objects (λ n. orders (suc n)) objs in (first.0 || rest.0, first.1 ∷ rest.1)

  module _ (to_objects : String → Result (List Object)) (export : List Object → Result String)
      (files : ManifestFiles) where
    abbrev pub about : String → String → Error → Error
    about what file_name = with_message (what <> (" manifest " <> file_name))

    abbrev pub write_manifest : String → Result String → Act files.State (Unit {0})
    write_manifest file_name (err e) s = (err (about "failed to export modified" file_name e), s)
    write_manifest file_name (ok data_text) s =
        (wrap (about "failed to seek in" file_name) (files.seek file_name)
            >> wrap (about "failed to truncate" file_name) (files.truncate file_name)
            >> wrap (about "failed to write modified" file_name) (files.write file_name data_text)
            >> wrap (about "failed to sync modified" file_name) (files.sync file_name))
          s

    abbrev pub write_changed : String → Bool × List Object → Act files.State (Unit {0})
    write_changed file_name (changed, objs) s =
        if changed then write_manifest file_name (export objs) s else (ok tt, s)

    -- A manifest that cannot be decoded is left alone.
    abbrev pub rewrite_decoded :
        String → (ℕ → Dict String) → Result (List Object) → Act files.State (Unit {0})
    rewrite_decoded file_name orders (err e) s = (ok tt, s)
    rewrite_decoded file_name orders (ok objs) s =
        write_changed file_name (update_objects orders objs) s

    unfoldable pub rewrite_chart : String → (ℕ → Dict String) → Act files.State (Unit {0})
    unfolding update_objects
    rewrite_chart file_name orders =
        wrap (about "failed to open" file_name) (files.open_file file_name) >>= λ text.
        rewrite_decoded file_name orders (to_objects text)

    abbrev pub is_manifest : String × FileKind → Bool
    is_manifest (path, kind) =
        not (is_dir kind) && (has_suffix path ".yml" || has_suffix path ".yaml")

    abbrev pub add_error : Result (Unit {0}) → List Error → List Error
    add_error (ok u) errs = errs
    add_error (err e) errs = e ∷ errs

    -- Every manifest is rewritten, whether or not another one failed; the errors are collected. The map of
    -- files is taken in the order in which they were found; the n-th file has its own orders of the values.
    unfoldable pub rewrite_charts :
        List (String × FileKind) → (ℕ → ℕ → Dict String) → files.State → List Error × files.State
    unfolding rewrite_chart has_suffix
    rewrite_charts [] orders s = ([], s)
    rewrite_charts (file ∷ found) orders s =
        let r = rewrite_chart file.0 (orders 0) s in
        let here = rewrite_charts found (λ n. orders (suc n)) r.1 in
        let skipped = rewrite_charts found (λ n. orders (suc n)) s in
        if is_manifest file then (add_error r.0 here.0, here.1) else skipped

    abbrev walked :
        Result (List (String × FileKind))
        → (ℕ → ℕ → Dict String)
        → files.State
        → List Error × files.State
    walked (err e) orders s = (e ∷ [], s)
    walked (ok found) orders s = rewrite_charts found orders s

    -- setChartValues, once the values are known.
    unfoldable pub set_chart_values :
        String → (ℕ → ℕ → Dict String) → files.State → List Error × files.State
    unfolding rewrite_charts
    set_chart_values manifests_dir orders s = walked (files.walk manifests_dir s) orders s

-- The node's settings, as k3s prints them.
pub record NodeValues : Type 0 where
  pub cluster_cidr : String
  pub cluster_cidr_v4 : String
  pub cluster_cidr_v6 : String
  pub cluster_dns : String
  pub cluster_domain : String
  pub data_dir : String
  pub service_cidr : String
  pub system_default_registry : String

abbrev pub chart_values_of : String → NodeValues → Bool → Dict String
chart_values_of ingress_controller node prime =
    ("global.clusterCIDR", node.cluster_cidr)
    ∷ ("global.clusterCIDRv4", node.cluster_cidr_v4)
    ∷ ("global.clusterCIDRv6", node.cluster_cidr_v6)
    ∷ ("global.clusterDNS", node.cluster_dns)
    ∷ ("global.clusterDomain", node.cluster_domain)
    ∷ ("global.rke2DataDir", node.data_dir)
    ∷ ("global.serviceCIDR", node.service_cidr)
    ∷ ("global.systemDefaultIngressClass", ingress_controller)
    ∷ ("global.prime.enabled", if prime then "true" else "false")
    ∷ ("global.systemDefaultRegistry", node.system_default_registry)
    ∷ ("global.cattle.systemDefaultRegistry", node.system_default_registry)
    ∷ []

-- The charts in the cluster, with spec.set of each as far as its values are texts.
pub record InstalledChart : Type 0 where
  pub name : String
  pub set_values_of : Dict String

abbrev first_class : Option String → String → String
first_class none rest = rest
first_class (some v) rest = v

-- getDefaultIngressClassFromCharts, of the list of charts.
unfoldable pub default_ingress_class : List InstalledChart → String
unfolding lookup
default_ingress_class [] = "traefik"
default_ingress_class (h ∷ items) =
    let rest = default_ingress_class items in
    if h.name =ₛ "rke2-ingress-nginx" || h.name =ₛ "rke2-traefik"
    then first_class (lookup "global.systemDefaultIngressClass" h.set_values_of) rest
    else rest
