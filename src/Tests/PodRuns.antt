-- ===== src/Tests/PodRuns.antt =====
-- The pods and the executor, at concrete inputs.
use rke.Base.{ℕ, String, some, List, [], ◌∷◌, ◌≡◌, refl, true}
use rke.Base.Result.{Result, ok, err, external}
use rke.Base.Text.{cut, contains_char}
use rke.Base.Dict.{lookup, insert}
use rke.Base.Os.{directory}
use rke.Base.FilePath.{join_path}
use rke.Images.Resolver
use rke.Images.Resolver.{Resolver, source_defaults, get_reference}
use rke.Podtemplate.Component.{etcd}
use rke.Podtemplate.Probes.{no_confs, no_probe_confs}
use rke.Podtemplate.Resources.{no_resources}
use rke.Podtemplate.Spec as PodSpec
use rke.Podtemplate.Spec.{Spec, Config, PerComponent, plain_spec, resolve_and_pull}
use rke.Podtemplate.Spec.Wiring.{IsWired, spec_of-IsWired}
use rke.Podtemplate.Files.{Kubeconfig, read_files, is_mounted}
use rke.Podtemplate.Files.Laws.{is_listed}
use rke.Podtemplate.Files.Reading.{IsFound, read_files_sound, read_files_complete}
use rke.Podtemplate.Volumes.Laws.{IsAligned}
use rke.Podtemplate.Pod.{pod_mounts}
use rke.Podtemplate.Pod.Mounts.{pod_mounts-IsAligned}
use rke.Podtemplate.Volumes.{parse_mount}
use rke.Podtemplate.Volumes.Extra.{extra_mount, extra_mount_text}
use rke.Base.Text.{split}
use rke.Tests.World.{names, docker, machine, Disk, file, Ref}

abbrev disk : Disk
disk = ("/b.crt", file "B") ∷ ("/a.key", file "A") ∷ ("/d", (directory, "")) ∷ []

abbrev no_kubeconfig : String → Disk → Result Kubeconfig
no_kubeconfig path s = ok (record { certificate_authorities = "/ca" ∷ []; auth_infos = [] })

abbrev args : List String
args = "--x=/b.crt" ∷ "--y=/a.key" ∷ "--dir=/d" ∷ "--kubeconfig=/b.crt" ∷ []

abbrev files : List String
files = "/a.key" ∷ "/b.crt" ∷ "/ca" ∷ []

files_test : read_files (machine []) no_kubeconfig disk args [] ≡ ok files
unfolding read_files lookup
files_test = refl

read_files_complete_example : is_listed "/a.key" files ≡ true
unfolding read_files cut is_mounted lookup
read_files_complete_example =
    read_files_complete (machine []) no_kubeconfig disk [] ("--x=/b.crt" ∷ [])
      ("--dir=/d" ∷ "--kubeconfig=/b.crt" ∷ []) "--y=/a.key" "--y" "/a.key" files refl refl refl

read_files_sound_example : IsFound (machine []) no_kubeconfig disk [] "/ca"
unfolding read_files lookup
read_files_sound_example =
    read_files_sound (machine []) no_kubeconfig disk args [] files refl "/ca" refl

abbrev image : Ref
image = record { host = docker; path = "rancher/hardened-etcd" }

abbrev spec : Spec names
spec = record (plain_spec names "etcd" args image no_confs) {
  dirs = "/d" ∷ "/e" ∷ [];
  files = "/a.key" ∷ [];
  extra_mounts = "/d:/x:ro" ∷ "bad" ∷ "/y:/z" ∷ [];
}

pod_mounts-IsAligned_example : IsAligned (pod_mounts (machine []) spec disk)
pod_mounts-IsAligned_example = pod_mounts-IsAligned (machine []) spec disk

abbrev no_quantity : String → Result ℕ
no_quantity text = err (external "quantity")

extra_mount_text_example :
    (parse_mount (split b':' "/a:/b") ≡ some (extra_mount "/a" "/b" ""))
    × (parse_mount (split b':' "/a:/b:ro") ≡ some (record (extra_mount "/a" "/b" "") { ro = true }))
    × (parse_mount (split b':' "/a:/b:ro:File") ≡ some (extra_mount "/a" "/b" "File"))
unfolding contains_char
extra_mount_text_example = extra_mount_text "/a" "/b" refl refl "ro" "File" refl refl

abbrev nothing : PerComponent
nothing = record {
  kube_apiserver = [];
  kube_scheduler = [];
  kube_controller_manager = [];
  kube_proxy = [];
  etcd = [];
  cloud_controller_manager = [];
}

abbrev pub config : Config names
config = record {
  images_dir = "/images";
  data_dir = "/var/lib";
  resolver = record { registry = docker; repo_path = ""; overrides = (Resolver.etcd, image) ∷ [] };
  env = record nothing { etcd = "A=1" ∷ [] };
  mounts = nothing;
  probes = no_probe_confs;
  resources = record no_resources { etcd_cpu_request = "2" };
}

abbrev etcd_spec : Spec names
etcd_spec = record (plain_spec names "etcd" args image no_confs) {
  health_port = 2381;
  health_path = "/health?serializable=true";
  health_scheme = "HTTP";
  startup_port = 2381;
  startup_path = "/health?serializable=true";
  startup_scheme = "HTTP";
  cpu_request = "2";
  extra_env = "A=1" ∷ [];
  ports =
      record { name = "client"; container_port = 2379 }
      ∷ record { name = "peer"; container_port = 2380 }
      ∷ record { name = "metrics"; container_port = 2381 }
      ∷ [];
}

abbrev noted : Disk
noted =
    ("/images", (directory, ""))
    ∷ ("/images/etcd-image.txt", file "index.docker.io/rancher/hardened-etcd\n")
    ∷ []

spec_of-IsWired_example :
    (ref : Ref) × (resolve_and_pull names
        (machine [])
        (source_defaults "index.docker.io")
        config
        "etcd-image"
        []
      ≡ (ok ref, noted))
    × IsWired (machine []) (source_defaults "index.docker.io") config 6443 etcd args ref etcd_spec
unfolding PodSpec.etcd join_path lookup insert
spec_of-IsWired_example =
    spec_of-IsWired (machine []) (source_defaults "index.docker.io") config 6443 etcd args etcd_spec
      [] noted refl
