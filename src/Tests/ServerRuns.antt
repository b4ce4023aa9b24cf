-- ===== src/Tests/ServerRuns.antt =====
-- The executor's methods and the cleaning of old directories, at concrete inputs.
use rke.Base.{
  String, All, ◌⊎◌, inl, inr, Option, none, some, List, [], ◌∷◌, ◌≡◌, ◌≢◌, refl, ◌∙◌, false, ◌=ₛ◌,
}
use mathlib.Core.Path.{subst}
use rke.Podtemplate.Probes.{no_confs}
use rke.Base.Result.{Result, ok, err, exist, ok-injective}
use rke.Base.Dict.{lookup, insert, erase, lookup-erase, lookup-insert}
use rke.Base.FilePath.{join_path}
use rke.Base.Os.{Os, DirEntry, directory, regular}
use rke.Images.Resolver.{source_defaults}
use rke.Podtemplate.Spec.{Spec, plain_spec}
use rke.Staticpod.ApiServer.{LoopState, scan}
use rke.Staticpod.Executor.{StaticPodConfig, profile_cis, write_file}
use rke.Staticpod.Components.{api_server}
use rke.Staticpod.Components.Laws.{IsApiServer, api_server-IsApiServer}
use rke.Bootstrap.{clean_data_dirs}
use rke.Bootstrap.Cleaning.{clean_data_dirs-keeps}
use rke.Tests.World.{names, docker, machine, Disk, file}
use rke.Tests.PodRuns.{config}

abbrev pub executor : StaticPodConfig names
executor = record {
  config = config;
  cloud_provider = none;
  manifests_dir = "/var/lib/agent/pod-manifests";
  audit_policy_file = "";
  psa_config_file = "/etc/psa.yaml";
  profile_mode = profile_cis;
  disable_etcd = false;
  external_database = false;
}

abbrev manifest : Disk
manifest = ("/pods/etcd.yaml", file "x") ∷ []

-- A directory of another release is removed; that of the current one and a file are kept.
abbrev releases : List DirEntry
releases =
    record { name = "v1.2"; kind = directory }
    ∷ record { name = "v1.3"; kind = directory }
    ∷ record { name = "v1.4"; kind = regular }
    ∷ []

abbrev data_disk : Disk
data_disk =
    ("/var/lib/data/v1.2", (directory, ""))
    ∷ ("/var/lib/data/v1.3", (directory, ""))
    ∷ ("/var/lib/data/v1.4", file "")
    ∷ []

data_test :
    clean_data_dirs (machine releases) "/var/lib" "v1.3" data_disk
    ≡ (ok tt, ("/var/lib/data/v1.3", (directory, "")) ∷ ("/var/lib/data/v1.4", file "") ∷ [])
unfolding clean_data_dirs lookup erase
data_test = refl

abbrev IsListed : DirEntry → Type 0
IsListed e = (e.name ≡ "v1.2") ⊎ ((e.name ≡ "v1.3") ⊎ ((e.name ≡ "v1.4") × (e.kind ≡ regular)))

abbrev HasBoth : Disk → Type 0
HasBoth s =
    (lookup "/var/lib/data/v1.3" s ≡ some (directory, ""))
    × (lookup "/var/lib/data/v1.4" s ≡ some (file ""))

kept :
    (e : DirEntry) (s : Disk)
    → IsListed e
    → e.kind ≡ directory
    → e.name ≢ "v1.3"
    → HasBoth s
    → HasBoth (erase (join_path (join_path ("/var/lib" ∷ "data" ∷ []) ∷ e.name ∷ [])) s)
unfolding join_path
kept e s listed a_directory other h = elim listed [
  | inl old ↦ rw old (
    lookup-erase "/var/lib/data/v1.2" "/var/lib/data/v1.3" s ∙ h.0,
    lookup-erase "/var/lib/data/v1.2" "/var/lib/data/v1.4" s ∙ h.1,
  )
  | inr (inl current) ↦ absurd (other current)
  | inr (inr a_file) ↦ absurd (let both = a_file.1 in cc)
]

clean_data_dirs-keeps_example :
    HasBoth ((clean_data_dirs (machine releases) "/var/lib" "v1.3" data_disk).1)
unfolding lookup
clean_data_dirs-keeps_example =
    clean_data_dirs-keeps (machine releases) "/var/lib" "v1.3" IsListed HasBoth
      (λ e s listed a_directory other _ _ h. kept e s listed a_directory other h) data_disk
      (λ entries e.
        subst (All IsListed) (ok-injective e)
          (inl refl, (inr (inl refl), (inr (inr (refl, refl)), tt))))
      (refl, refl)

abbrev server_args : List String
server_args = "--advertise-port=6443" ∷ "--secure-port=6443" ∷ []

abbrev started : Result (Option (Spec names)) × Disk
started =
    api_server executor (machine []) (source_defaults "index.docker.io") (ok "policy") 6443
      server_args []

abbrev spec_or : Spec names → Result (Option (Spec names)) → Spec names
spec_or other (ok (some spec)) = spec
spec_or other _ = other

abbrev server_spec : Spec names
server_spec =
    spec_or (plain_spec names "" [] (record { host = docker; path = "" }) no_confs) (started.0)

api_server-IsApiServer_example :
    (st : LoopState) × (scan false "/var/lib" server_args ≡ some st)
    × IsApiServer executor
        (machine [])
        (source_defaults "index.docker.io")
        (ok "policy")
        6443
        st
        server_spec
unfolding api_server scan insert
api_server-IsApiServer_example =
    api_server-IsApiServer executor (machine []) (source_defaults "index.docker.io") (ok "policy")
      6443 server_args server_spec [] (started.1) refl

-- A machine where no file can be renamed.
abbrev stuck : Os
stuck = record (machine []) { rename = λ from to s. (err exist, s) }

abbrev HasOld : Disk → Type 0
HasOld s = lookup "/pods/etcd.yaml" s ≡ some (file "old")

inserted :
    (path : String) (f : _) (s : Disk)
    → (path =ₛ "/pods/etcd.yaml") ≡ false
    → HasOld s
    → HasOld (insert path f s)
inserted path f s other h = lookup-insert path "/pods/etcd.yaml" f s ∙ rw other h

erased :
    (path : String) (s : Disk)
    → (path =ₛ "/pods/etcd.yaml") ≡ false
    → HasOld s
    → HasOld (erase path s)
erased path s other h = lookup-erase path "/pods/etcd.yaml" s ∙ rw other h

abbrev old : Disk
old = ("/pods/etcd.yaml", file "old") ∷ []

abbrev after_failure : Disk
after_failure = (write_file stuck "/pods/etcd.yaml" "new" 0o600 old).1
