-- ===== src/Staticpod/Etcd.antt =====
-- pkg/executor/staticpod/staticpod.go: the methods that start etcd and stop it. The marshalled options and
-- the config file that k3s writes, the user database and filepath.Walk are parameters.
pub mod Laws
use rke.Base.{
  Bool, true, false, String, ◌<>◌, Option, none, some, List, [], ◌∷◌, ◌++◌, ◌=ₛ◌, if◌then◌else◌,
}
use rke.Base.Decimal.{ℤ, parse_int}
use rke.Base.Dict.{Dict}
use rke.Base.Os.{Os}
use rke.Base.Result.{Result, ok, err, Error, message, with_message}
use rke.Base.Act.{Act, pure, lift, ◌>>=◌, ◌>>◌}
use rke.Images.Names.{Names}
use rke.Images.Resolver.{Defaults}
use rke.Podtemplate.Spec as PodSpec
use rke.Podtemplate.Spec.{Spec, SecurityContext}
use rke.Staticpod.Cleanup.{Sandbox, Cri, is_file_pod}
use rke.Staticpod.Executor.{StaticPodConfig, ProfileMode, is_any_mode, add_selinux}

pub record Trust : Type 0 where
  pub cert_file : String
  pub key_file : String
  pub trusted_ca_file : String

-- The Uid and the Gid of a user, as texts.
pub record User : Type 0 where
  pub uid : String
  pub gid : String

abbrev number : Option ℤ → Result ℤ
number none = err (message "invalid syntax")
number (some n) = ok n

abbrev ids_of : Result ℤ → Result ℤ → Result (ℤ × ℤ)
ids_of (err e) gid = err e
ids_of (ok uid) (err e) = err e
ids_of (ok uid) (ok gid) = ok (uid, gid)

abbrev user_ids : Result User → Result (ℤ × ℤ)
user_ids (err e) = err e
user_ids (ok u) = ids_of (number (parse_int 64 u.uid)) (number (parse_int 64 u.gid))

-- The numbers of the user that `user.Lookup("etcd")` finds.
unfoldable pub etcd_ids : Result User → Result (ℤ × ℤ)
unfolding parse_int
etcd_ids user = user_ids user

abbrev pub run_as : ℤ × ℤ → Option SecurityContext → SecurityContext
run_as ids none = record {
  run_as_user = some ids.0;
  run_as_group = some ids.1;
  selinux_type = none;
}
run_as ids (some c) = record c { run_as_user = some ids.0; run_as_group = some ids.1 }

module _ (os : Os) where
  -- What filepath.Walk finds below a path, each with an error or none, and os.Chown.
  pub record Owners : Type 0 where
    pub walk : String → os.State → List (String × Result (Unit {0}))
    pub chown : String → ℤ → ℤ → os.State → Result (Unit {0}) × os.State

  pub record EtcdArgs : Type 0 where
    pub initial_options : Result String
    pub to_config_file : List String → Act os.State String
    pub data_dir : String
    pub server_trust : Trust
    pub peer_trust : Trust

  abbrev pub chown_found :
      Owners → ℤ × ℤ → List (String × Result (Unit {0})) → Act os.State (Unit {0})
  chown_found owners ids [] = pure tt
  chown_found owners ids ((name, err e) ∷ found) = lift (err e)
  chown_found owners ids ((name, ok u) ∷ found) =
      owners.chown name ids.0 ids.1 >> chown_found owners ids found

  unfoldable pub chownr : Owners → ℤ × ℤ → String → Act os.State (Unit {0})
  chownr owners ids path s = chown_found owners ids (owners.walk path s) s

  unfoldable pub chown_all : Owners → ℤ × ℤ → List String → Act os.State (Unit {0})
  unfolding chownr
  chown_all owners ids [] = pure tt
  chown_all owners ids (p ∷ paths) = chownr owners ids p >> chown_all owners ids paths

  module _ {N : Names} where
    abbrev pub with_args : EtcdArgs → String → Spec N → Spec N
    with_args args initial spec = record spec {
      annotations = ("etcd.k3s.io/initial", initial) ∷ [];
      dirs = args.data_dir ∷ [];
      files =
          args.server_trust.cert_file ∷ args.server_trust.key_file
          ∷ args.server_trust.trusted_ca_file ∷ args.peer_trust.cert_file ∷ args.peer_trust.key_file
          ∷ args.peer_trust.trusted_ca_file ∷ [];
      host_network = true;
    }

    abbrev pub owned_by : Owners → Spec N → ℤ × ℤ → Act os.State (Spec N)
    owned_by owners spec ids =
        chown_all owners ids (spec.dirs ++ spec.files)
        >> pure (record spec { security_context = some (run_as ids spec.security_context) })

    -- With a profile, etcd runs as its own user, who owns its files.
    unfoldable pub as_etcd_user :
        Owners → ProfileMode → Result User → Spec N → Act os.State (Spec N)
    unfolding etcd_ids chown_all
    as_etcd_user owners mode user spec =
        if is_any_mode mode then (lift (etcd_ids user) >>= owned_by owners spec) else pure spec

  module _ {N : Names} (c : StaticPodConfig N) (d : Defaults) (owners : Owners) (user : Result User)
      (enable_selinux : Bool) where
    -- The Spec that ETCD hands to writeTemplate. Without arguments, there is nothing to start.
    unfoldable pub etcd : Option EtcdArgs → List String → Act os.State (Option (Spec N))
    unfolding PodSpec.etcd as_etcd_user add_selinux
    etcd none extra_args = pure none
    etcd (some args) extra_args = do
      initial ← lift args.initial_options
      conf_file ← args.to_config_file extra_args
      spec ← PodSpec.etcd N os d c.config (("--config-file=" <> conf_file) ∷ [])
      owned ← as_etcd_user owners c.profile_mode user (with_args args initial spec)
      pure (some (add_selinux enable_selinux "rke2_service_db_t" owned))

-- stopEtcd; the list is that of the pods with the labels of etcd.
module _ (cri : Cri) where
  abbrev terminated : Result (Unit {0}) × cri.State → Result (Unit {0}) × cri.State
  terminated (ok u, s) = (ok tt, s)
  terminated (err e, s) = (err (with_message "failed to terminate pod" e), s)

  unfoldable pub remove_file_pods : List Sandbox → Act cri.State (Unit {0})
  remove_file_pods [] = pure tt
  remove_file_pods (pod ∷ pods) =
      (λ s. if is_file_pod pod then terminated (cri.remove_pod_sandbox pod.id s) else (ok tt, s))
      >> remove_file_pods pods

  abbrev listed : Result (List Sandbox) → Act cri.State (Unit {0})
  listed (err e) s = (err (with_message "failed to list pods" e), s)
  listed (ok pods) s = remove_file_pods pods s

  abbrev connected : Result (Unit {0}) → Act cri.State (Unit {0})
  connected (err e) s = (err (with_message "failed to connect to cri" e), s)
  connected (ok u) s = listed (cri.list_pod_sandbox s) s

  unfoldable pub stop_etcd : Act cri.State (Unit {0})
  unfolding remove_file_pods
  stop_etcd s = connected (cri.connection s) s
