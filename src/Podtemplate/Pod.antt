-- ===== src/Podtemplate/Pod.antt =====
-- pkg/podtemplate/podtemplate.go: Pod, hashFiles and addExtraEnv. The SHA-256 sum in hexadecimal,
-- resource.ParseQuantity and os.Environ are parameters.
pub mod Mounts
pub mod Laws
use rke.Base.{Bool, String, ◌<>◌, Option, none, some, List, [], ◌∷◌, ◌++◌, ◌=ₛ◌, if◌then◌else◌}
use rke.Base.Text.{cut, contains_lower}
use rke.Base.Dict.{Dict, insert}
use rke.Base.Os.{Os}
use rke.Base.Result.{Result, ok, err, annotate, ◌>>=◌}
use rke.Images.Names.{Names}
use rke.Podtemplate.Spec.{Spec, ContainerPort, SecurityContext}
use rke.Podtemplate.Volumes.{
  Mounted, add_volumes, add_volumes_from, add_extra_mounts, add_extra_mounts_from, socket, dir,
  file,
}
use rke.Podtemplate.ProbeAction.{Probe, liveness_probe, readiness_probe, startup_probe}

pub record EnvVar : Type 0 where
  pub name : String
  pub value : String

-- v1.Pod with its one container, and the constants of the literal left out.
pub record Pod (Q : Type 0) : Type 0 where
  pub name : String
  pub labels : Dict String
  pub annotations : Dict String
  pub image : String
  pub command : List String
  pub args : List String
  pub ports : List ContainerPort
  pub env : List EnvVar
  pub requests : Dict Q
  pub limits : Dict Q
  pub liveness : Option Probe
  pub readiness : Option Probe
  pub startup : Option Probe
  pub privileged : Bool
  pub host_network : Bool
  pub security_context : Option SecurityContext
  pub mounted : Mounted

abbrev env_var : String → String → EnvVar
env_var name value = record { name = name; value = value }

-- An entry of the environment whose name has "proxy" in it, in any case.
abbrev proxy_entry : String → Option (String × String) → List EnvVar
proxy_entry entry none = if contains_lower entry "proxy" then env_var entry "" ∷ [] else []
proxy_entry entry (some (name, value)) =
    if contains_lower name "proxy" then env_var name value ∷ [] else []

unfoldable pub proxy_env : List String → List EnvVar
unfolding cut contains_lower
proxy_env [] = []
proxy_env (entry ∷ rest) = proxy_entry entry (cut b'=' entry) ++ proxy_env rest

abbrev extra_entry : Option (String × String) → List EnvVar
extra_entry none = []
extra_entry (some (name, value)) = env_var name value ∷ []

-- addExtraEnv: what it appends.
unfoldable pub extra_env : List String → List EnvVar
unfolding cut
extra_env [] = []
extra_env (raw_env ∷ rest) = extra_entry (cut b'=' raw_env) ++ extra_env rest

module _ {Q : Type 0} (parse_quantity : String → Result Q) where
  abbrev put_quantity : String → Result Q → Dict Q → Dict Q
  put_quantity key (ok q) d = insert key q d
  put_quantity key (err e) d = d

  -- A quantity that cannot be parsed is left out.
  unfoldable pub add_quantity : String → String → Dict Q → Dict Q
  unfolding insert
  add_quantity key text d = if text =ₛ "" then d else put_quantity key (parse_quantity text) d

abbrev pub no_mounts : Mounted
no_mounts = record { volumes = []; volume_mounts = [] }

module _ (os : Os) {N : Names} where
  -- The volumes of the sockets, the directories and the files, then the extra mounts.
  unfoldable pub pod_mounts : Spec N → os.State → Mounted
  unfolding add_volumes_from add_extra_mounts_from
  pod_mounts spec s = add_extra_mounts os s spec.extra_mounts (
      add_volumes spec.files file
        (add_volumes spec.dirs dir (add_volumes spec.sockets socket no_mounts)))

module _ (os : Os) where
  -- What the loop of hashFiles writes to the hash: the texts of the files, one after another.
  unfoldable pub read_all : List String → os.State → Result String
  read_all [] s = ok ""
  read_all (f ∷ files) s = do text ← os.read_file f s; texts ← read_all files s; ok (text <> texts)

module _ (os : Os) (sha256_hex : String → String) where
  unfoldable pub hash_files : List String → os.State → Result String
  unfolding read_all
  hash_files files s = do text ← read_all os files s; ok (sha256_hex text)

  module _ {N : Names} {Q : Type 0} (parse_quantity : String → Result Q)
      (environ : List String) where
    unfoldable pub requests : Spec N → Dict Q
    unfolding add_quantity
    requests spec =
        add_quantity parse_quantity "memory" spec.memory_request
          (add_quantity parse_quantity "cpu" spec.cpu_request [])

    unfoldable pub limits : Spec N → Dict Q
    unfolding add_quantity
    limits spec =
        add_quantity parse_quantity "memory" spec.memory_limit
          (add_quantity parse_quantity "cpu" spec.cpu_limit [])

    abbrev pub pod_of : Spec N → String → os.State → Pod Q
    pod_of spec filehash s = record {
      name = spec.command;
      labels = ("component", spec.command) ∷ ("tier", "control-plane") ∷ [];
      annotations = spec.annotations;
      image = N.ref_name spec.image;
      command = spec.command ∷ [];
      args = spec.args;
      ports = spec.ports;
      env = env_var "FILE_HASH" filehash ∷ (proxy_env environ ++ extra_env spec.extra_env);
      requests = requests spec;
      limits = limits spec;
      liveness = liveness_probe spec;
      readiness = readiness_probe spec;
      startup = startup_probe spec;
      privileged = spec.privileged;
      host_network = spec.host_network;
      security_context = spec.security_context;
      mounted = pod_mounts os spec s;
    }

    unfoldable pub pod : Spec N → os.State → Result (Pod Q)
    unfolding hash_files proxy_env extra_env requests limits liveness_probe readiness_probe
        startup_probe pod_mounts
    pod spec s = do
      filehash ←
          annotate ("failed to hash files for pod " <> spec.command) (hash_files spec.files s)
      ok (pod_of spec filehash s)
