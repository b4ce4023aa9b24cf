-- ===== src/Podtemplate/Files.antt =====
-- pkg/podtemplate/podtemplate.go: ReadFiles and kubeconfigFiles; pkg/podtemplate/utils.go: OnlyExisting
-- and writeIfNotExists. The loader of client-go for kubeconfigs is a parameter.
pub mod Laws
pub mod Reading
use rke.Base.{
  ℕ, Bool, true, false, not, ◌&&◌, ◌||◌, ltb, ◌==◌, String, ◌<>◌, Option, none, some, List, [], ◌∷◌,
  ◌++◌, ◌=ₛ◌, if◌then◌else◌, code, any,
}
use rke.Base.Text.{cut, has_prefix}
use rke.Base.FilePath.{dir_name}
use rke.Base.Os.{Os, FileKind, is_dir}
use rke.Base.Result.{Result, ok, err, Error, is_exist, ◌>>=◌}
use rke.Base.Act

-- What the program reads of a kubeconfig: the certificate authorities of its clusters, and the keys and
-- certificates of its users, in the order in which Go ranges over the two maps.
pub record AuthInfo : Type 0 where
  pub client_key : String
  pub client_certificate : String

pub record Kubeconfig : Type 0 where
  pub certificate_authorities : List String
  pub auth_infos : List AuthInfo

abbrev if_given : String → List String → List String
if_given path rest = if path =ₛ "" then rest else path ∷ rest

unfoldable pub cluster_files : List String → List String
cluster_files [] = []
cluster_files (ca ∷ rest) = if_given ca (cluster_files rest)

unfoldable pub auth_files : List AuthInfo → List String
auth_files [] = []
auth_files (a ∷ rest) = if_given a.client_key (if_given a.client_certificate (auth_files rest))

-- The order of texts by their characters.
unfoldable pub text_ltb : String → String → Bool
text_ltb s String.[] = false
text_ltb String.[] (String.◌∷◌ d t) = true
text_ltb (String.◌∷◌ c s) (String.◌∷◌ d t) =
    ltb (code c) (code d) || (code c == code d && text_ltb s t)

-- A map[string]bool that is only added to, and whose keys are sorted in the end: its keys in order.
unfoldable pub add_key : String → List String → List String
unfolding text_ltb
add_key k [] = k ∷ []
add_key k (j ∷ keys) =
    if k =ₛ j then j ∷ keys else if text_ltb k j then k ∷ j ∷ keys else j ∷ add_key k keys

unfoldable pub add_keys : List String → List String → List String
unfolding add_key
add_keys [] keys = keys
add_keys (k ∷ ks) keys = add_keys ks (add_key k keys)

abbrev pub is_file : Result FileKind → Bool
is_file (err e) = false
is_file (ok kind) = not (is_dir kind)

module _ (os : Os) (load_kubeconfig : String → os.State → Result Kubeconfig) (s : os.State) where
  unfoldable pub kubeconfig_files : String → Result (List String)
  unfolding cluster_files auth_files
  kubeconfig_files kubeconfig = do
    kc ← load_kubeconfig kubeconfig s
    ok (cluster_files kc.certificate_authorities ++ auth_files kc.auth_infos)

  -- An absolute path of a file that is there, and not excluded.
  unfoldable pub is_mounted : List String → String → Bool
  unfolding has_prefix
  is_mounted excludes path =
      has_prefix path "/" && is_file (os.stat path s) && not (any (λ e. e =ₛ path) excludes)

  abbrev add_certs : Result (List String) → List String → Result (List String)
  add_certs certs files = certs >>= λ found. ok (add_keys found files)

  abbrev pub add_part : List String → Option (String × String) → List String → Result (List String)
  add_part excludes none files = ok files
  add_part excludes (some (name, path)) files =
      if is_mounted excludes path
      then (if name =ₛ "--kubeconfig"
          then add_certs (kubeconfig_files path) (add_key path files)
          else ok (add_key path files))
      else ok files

  unfoldable pub add_arg : List String → String → List String → Result (List String)
  unfolding cut is_mounted kubeconfig_files add_keys
  add_arg excludes arg files = add_part excludes (cut b'=' arg) files

  unfoldable pub add_args : List String → List String → List String → Result (List String)
  unfolding add_arg
  add_args excludes [] files = ok files
  add_args excludes (arg ∷ args) files = add_arg excludes arg files >>= add_args excludes args

  unfoldable pub read_files : List String → List String → Result (List String)
  unfolding add_args
  read_files args exclude_files = add_args exclude_files args []

abbrev is_ok : Result FileKind → Bool
is_ok (ok kind) = true
is_ok (err e) = false

module _ (os : Os) where
  unfoldable pub only_existing : List String → os.State → List String
  only_existing [] s = []
  only_existing (path ∷ paths) s =
      let rest = only_existing paths s in if is_ok (os.stat path s) then path ∷ rest else rest

  abbrev after_create : String → String → Result (Unit {0}) → Act.Act os.State (Unit {0})
  after_create path content (ok u) = os.write_open path content
  after_create path content (err e) = if is_exist e then Act.pure tt else Act.raise e

  unfoldable pub write_if_not_exists : String → String → Act.Act os.State (Unit {0})
  unfolding dir_name
  write_if_not_exists path content = Act.◌>>◌ (os.mkdir_all (dir_name path) 0o755) (λ s.
      let created = os.create_new path 0o600 s in after_create path content created.0 created.1)
