-- ===== src/Staticpod/Etcd/Laws.antt =====
-- pkg/executor/staticpod/staticpod.go: the Spec of etcd.
use rke.Base.{true, false, String, ◌<>◌, Option, none, some, [], ◌∷◌, ◌≡◌, ◌⊎◌}
use rke.Base.Decimal.{ℤ}
use rke.Base.Os.{Os}
use rke.Base.Result.{Result, ok}
use rke.Images.Names.{Names}
use rke.Images.Resolver as Images
use rke.Podtemplate.Spec as PodSpec
use rke.Podtemplate.Spec.{Spec, SecurityContext}
use rke.Staticpod.Executor.{StaticPodConfig, is_any_mode}
use rke.Staticpod.Etcd.{User, EtcdArgs, etcd_ids}

-- What the pod runs as.
abbrev user_of : Option SecurityContext → Option ℤ
user_of none = none
user_of (some c) = c.run_as_user

abbrev group_of : Option SecurityContext → Option ℤ
group_of none = none
group_of (some c) = c.run_as_group

abbrev selinux_of : Option SecurityContext → Option String
selinux_of none = none
selinux_of (some c) = c.selinux_type

module _ {N : Names} where
  -- The mounts and the arguments of etcd, and the user it runs as.
  abbrev pub IsEtcd :
      (os : Os) → StaticPodConfig N → Result User → EtcdArgs os → String → Spec N → Type 0
  IsEtcd os c user args conf_file spec =
      (spec.args ≡ ("--config-file=" <> conf_file) ∷ [])
      × (spec.dirs ≡ args.data_dir ∷ [])
      × (spec.files
          ≡ args.server_trust.cert_file ∷ args.server_trust.key_file
            ∷ args.server_trust.trusted_ca_file ∷ args.peer_trust.cert_file
            ∷ args.peer_trust.key_file ∷ args.peer_trust.trusted_ca_file ∷ [])
      × (spec.host_network ≡ true)
      × ((is_any_mode c.profile_mode ≡ false)
          ⊎ ((ids : ℤ × ℤ) × (etcd_ids user ≡ ok ids)
              × (user_of spec.security_context ≡ some ids.0)
              × (group_of spec.security_context ≡ some ids.1)))
