-- ===== src/Tests/ImagesRuns.antt =====
-- pkg/images, at concrete inputs.
use rke.Base.{[], ◌∷◌, ◌≡◌, refl}
use rke.Base.Result.{ok}
use rke.Base.Text.{contains_char, trim_suffix_char}
use rke.Base.Os.{DirEntry, regular, directory}
use rke.Images.Registry.{split_registry_and_path}
use rke.Images.Registry.Laws.{split_registry_and_path-append}
use rke.Images.Resolver
use rke.Images.Resolver.{
  Resolver, ImageOverrideConfig, source_defaults, new_resolver, set_override, base_reference,
  get_reference, default_image,
}
use rke.Tests.World.{names, docker, corp, Disk, Ref}

abbrev defaults : Resolver.Defaults
defaults = source_defaults "index.docker.io"

-- A mirror with a path, and another etcd.
abbrev mirrored : ImageOverrideConfig
mirrored = record {
  system_default_registry = "registry.corp/mirror/";
  kube_apiserver = "";
  kube_controller_manager = " ";
  kube_proxy = "";
  kube_scheduler = "";
  pause = "";
  runtime = "";
  etcd = " corp/etcd:1 ";
  cloud_controller_manager = "";
}

abbrev etcd_ref : Ref
etcd_ref = record { host = docker; path = "corp/etcd:1" }

abbrev mirror : Resolver names
mirror = record {
  registry = corp;
  repo_path = "mirror";
  overrides = (Resolver.etcd, etcd_ref) ∷ [];
}

mirror_test : new_resolver names defaults mirrored ≡ ok mirror
unfolding new_resolver split_registry_and_path
mirror_test = refl

abbrev plain : Resolver names
plain = record mirror { repo_path = "" }

split_registry_and_path-append_example :
    split_registry_and_path "registry.corp/mirror/" ≡ ("registry.corp", "mirror")
unfolding contains_char trim_suffix_char
split_registry_and_path-append_example =
    split_registry_and_path-append "registry.corp" "mirror/" refl

abbrev list_file : DirEntry
list_file = record { name = "images.txt"; kind = regular }

abbrev tarball : DirEntry
tarball = record { name = "images.tar.zst"; kind = regular }

abbrev disk : Disk
disk = ("/images", (directory, "")) ∷ []
