-- ===== src/Staticpod/Executor.antt =====
-- pkg/executor/staticpod/staticpod.go and spw.go: the configuration of the executor, and the manifests
-- that it writes. The hash of a pod and the marshalling to YAML are parameters.
pub mod Laws
pub mod Failures
use rke.Base.{
  ℕ, Bool, true, false, String, ◌<>◌, Option, none, some, List, [], ◌∷◌, ◌++◌, ◌=ₛ◌, if◌then◌else◌,
}
use rke.Base.FilePath.{join_path, base_name, dir_name}
use rke.Base.Os.{Os}
use rke.Base.Result.{Result, ok, err, Error, with_message, is_not_exist}
use rke.Base.Act.{Act, pure, raise, lift, ask, wrap, ◌>>=◌, ◌>>◌}
use rke.Images.Names.{Names}
use rke.Podtemplate.Files.{Kubeconfig, read_files}
use rke.Podtemplate.Pod.{Pod, pod}
use rke.Podtemplate.Spec.{Spec, Config, SecurityContext}

pub data ProfileMode : Type 0 where
  profile_none profile_cis profile_etcd : ProfileMode

abbrev pub is_any_mode : ProfileMode → Bool
is_any_mode profile_none = false
is_any_mode _ = true

abbrev pub is_cis_mode : ProfileMode → Bool
is_cis_mode profile_cis = true
is_cis_mode _ = false

pub record CloudProviderConfig : Type 0 where
  pub name : String
  pub path : String

-- The fields of StaticPodConfig that its methods read, but for the channels.
pub record StaticPodConfig (N : Names) : Type 0 where
  pub config : Config N
  pub cloud_provider : Option CloudProviderConfig
  pub manifests_dir : String
  pub audit_policy_file : String
  pub psa_config_file : String
  pub profile_mode : ProfileMode
  pub disable_etcd : Bool
  pub external_database : Bool

-- SELinuxOptions with the type, unless there are some.
abbrev with_selinux : String → Option SecurityContext → Option SecurityContext
with_selinux ty none =
    some (record { run_as_user = none; run_as_group = none; selinux_type = some ty })
with_selinux ty (some c) = some (record c { selinux_type = or_type c.selinux_type })
  where
    or_type : Option String → Option String
    or_type none = some ty
    or_type (some t) = some t

unfoldable pub add_selinux : {N : Names} → Bool → String → Spec N → Spec N
add_selinux false ty spec = spec
add_selinux true ty spec = record spec { security_context = with_selinux ty spec.security_context }

abbrev pub file_mode : ProfileMode → ℕ
file_mode mode = if is_any_mode mode then 0o600 else 0o644

module _ (os : Os) where
  -- `errors.Is(err, os.ErrNotExist)`, on an error of os.Remove itself.
  abbrev removed : String → Result (Unit {0}) × os.State → Result (Unit {0}) × os.State
  removed command (ok u, s) = (ok tt, s)
  removed command (err e, s) =
      if is_not_exist e
      then (ok tt, s)
      else (err (with_message ("failed to remove " <> (command <> " static pod manifest")) e), s)

  unfoldable pub remove_template : String → String → Act os.State (Unit {0})
  unfolding join_path
  remove_template manifests_dir command s =
      removed command (os.remove (join_path (manifests_dir ∷ (command <> ".yaml") ∷ [])) s)

  abbrev pub is_same : Result String → String → Bool
  is_same (ok existing) content = existing =ₛ content
  is_same (err e) content = false

  -- `defer os.RemoveAll(tmpdir)`
  abbrev pub then_remove : String → Result (Unit {0}) × os.State → Result (Unit {0}) × os.State
  then_remove tmpdir (r, s) = (r, (os.remove_all tmpdir s).1)

  abbrev pub replace : String → String → String → ℕ → Act os.State (Unit {0})
  replace tmpdir dest content perm s =
      let tmp = join_path (tmpdir ∷ base_name dest ∷ []) in
      then_remove tmpdir ((os.write_file tmp content perm >> os.rename tmp dest) s)

  unfoldable pub write_file : String → String → ℕ → Act os.State (Unit {0})
  unfolding join_path base_name dir_name
  write_file dest content perm = do
    os.mkdir_all (dir_name dest) 0o700
    existing ← ask (os.read_file dest)
    (if is_same existing content then pure tt else do
      tmpdir ← os.mkdir_temp (dir_name (dir_name dest)) (base_name dest)
      replace tmpdir dest content perm)

  module _ {N : Names} {Q : Type 0} (load : String → os.State → Result Kubeconfig)
      (sha256_hex : String → String) (parse_quantity : String → Result Q) (environ : List String)
      (uid_of : Pod Q → String → String) (marshal : Pod Q → String → Result String) where
    -- `enable_selinux` is that of the agent's configuration, which pkg/cli of k3s keeps.
    unfoldable pub write_template : Bool → String → ProfileMode → Spec N → Act os.State (Unit {0})
    unfolding add_selinux read_files pod write_file
    write_template enable_selinux manifests_dir mode spec₀ = do
      let spec = add_selinux enable_selinux "rke2_service_t" spec₀
      files ←
          wrap (with_message ("failed to read files for pod " <> spec.command))
            (λ s. (read_files os load s spec.args spec.exclude_files, s))
      p ← wrap (with_message ("failed to generate pod template for " <> spec.command)) (λ s. (
        pod os sha256_hex parse_quantity environ (record spec { files = spec.files ++ files }) s,
        s,
      ))
      let manifest_path = join_path (manifests_dir ∷ (spec.command <> ".yaml") ∷ [])
      b ← lift (marshal p (uid_of p manifest_path))
      write_file manifest_path b (file_mode mode)
