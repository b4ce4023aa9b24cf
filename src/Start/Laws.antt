-- ===== src/Start/Laws.antt =====
-- pkg/rke2/rke2_linux.go: what the executor is made of, and what is disabled on a forced restart.
use rke.Base.{
  Bool, true, false, not, ◌&&◌, ◌||◌, String, ◌≡◌, refl, sym, ap, ◌∙◌, ◌⊎◌, inl, inr, some,
  Bool-cases, ◌=ₛ◌,
}
use mathlib.Core.Path.{subst}
use rke.Base.Dict.{Dict, lookup}
use rke.Base.Os.{Os, FileKind}
use rke.Base.Result.{Result, ok, err, err≢ok, ok-injective}
use rke.Base.Act.{◌>>=◌, >>=-ok, lift, pure}
use rke.Images.Names.{Names}
use rke.Podtemplate.Spec.{Config}
use rke.Start.{
  Flags, CloudConfig, ServerConfig, Host, Prepared, Choices, datastore, is_etcd_scheme,
  disabled_items, force_restart_file, force_restart, rejoins, mark_restart, choices, psa_file,
  prepared, prepare, or_default, containerd_sock,
}

abbrev pub AllDisabled : Dict Bool → Type 0
AllDisabled d =
    (lookup "etcd" d ≡ some true)
    × (lookup "kube-apiserver" d ≡ some true)
    × (lookup "kube-controller-manager" d ≡ some true)
    × (lookup "kube-scheduler" d ≡ some true)
    × (lookup "cloud-controller-manager" d ≡ some true)

module _ (os : Os) (flags : Flags) where
  -- What is prepared, is so from the choices and the admission configuration.
  chosen-ok :
      {A B : Type 0} (r : Result A) (g : A → String → B) (s s' : os.State) (b : B)
      → (lift r >>= λ a. psa_file os flags >>= λ file. pure (g a file)) s ≡ (ok b, s')
      → (a : A) × (file : String) × (g a file ≡ b)
  chosen-ok (ok a) g s s' b h =
      let parts = >>=-ok (psa_file os flags) (λ file. pure (g a file)) s h in
      (a, parts.0, ok-injective (ap (λ q. q.0) parts.3))
  chosen-ok (err e) g s s' b h = absurd (err≢ok (ap (λ q. q.0) h))

  module _ {N : Names} (default_path : String) (scheme_of : String → String) (host : Host)
      (is_server : Bool) (cloud : CloudConfig) (server_config : ServerConfig)
      (runtime_endpoint : String) (new_config : Result (Config N)) where
    pub prepare-ok :
        (s s' : os.State) (p : Prepared N)
        → prepare os default_path scheme_of host is_server flags cloud server_config
            runtime_endpoint new_config s
          ≡ (ok p, s')
        → (forced rejoining : Bool) × (chosen : Choices N) × (file : String) × (t : os.State)
          × (force_restart os flags.data_dir s ≡ (ok forced, t))
          × (prepared os default_path scheme_of host is_server flags cloud
                (or_default containerd_sock runtime_endpoint)
                (datastore scheme_of flags server_config)
                forced
                rejoining
                chosen
                file
              ≡ p)
    unfolding prepare
    prepare-ok s s' p h =
        let a = >>=-ok (force_restart os flags.data_dir) _ s h in
        let c = >>=-ok (mark_restart os flags) _ a.1 a.3 in
        let d = chosen-ok (choices host cloud new_config) _ c.1 s' p c.3 in
        (a.0, rejoins os is_server flags a.1, d.0, d.1, a.1, a.2, d.2)

    force_restart-marked :
        (s t : os.State) (forced : Bool) (kind : FileKind)
        → os.stat (force_restart_file flags.data_dir) s ≡ ok kind
        → force_restart os flags.data_dir s ≡ (ok forced, t)
        → forced ≡ true
    unfolding force_restart
    force_restart-marked s t forced kind there h =
        sym (ok-injective (ap (λ q. q.0) (rw there at h)))

    disabled-always :
        (forced : Bool)
        → (not is_server || forced) ≡ true
        → AllDisabled (disabled_items is_server forced flags)
    unfolding disabled_items lookup
    disabled-always forced h = rw h (refl, refl, refl, refl, refl)

    or_second : (a b : Bool) → b ≡ true → (a || b) ≡ true
    or_second true b h = refl
    or_second false b h = h

    -- On an agent, and where the file for a forced restart is found, etcd, the apiserver, the controller
    -- manager, the scheduler and the cloud controller manager are all disabled for this start.
    pub prepare-forced :
        (s s' : os.State) (p : Prepared N)
        → (is_server ≡ false)
          ⊎ ((kind : FileKind) × (os.stat (force_restart_file flags.data_dir) s ≡ ok kind))
        → prepare os default_path scheme_of host is_server flags cloud server_config
            runtime_endpoint new_config s
          ≡ (ok p, s')
        → AllDisabled p.disabled
    prepare-forced s s' p cause h =
        let parts = prepare-ok s s' p h in
        subst (λ x. AllDisabled (Prepared.disabled x)) parts.6
          (disabled-always parts.0 (elim cause [
            | inl an_agent ↦ rw an_agent refl
            | inr there ↦
                or_second (not is_server) parts.0
                  (force_restart-marked s parts.4 parts.0 there.0 there.1 parts.5)
          ]))

    datastore-external :
        (datastore scheme_of flags server_config).external_database ≡ true
        → ((datastore scheme_of flags server_config).disable_etcd ≡ true)
          × ((datastore scheme_of flags server_config).server_config.kine_tls ≡ true)
          × ((datastore scheme_of flags server_config).server_config.cluster_init ≡ false)
    unfolding datastore
    datastore-external h =
        let elsewhere =
          not (server_config.datastore_endpoint =ₛ "")
          || (flags.disable_etcd && not flags.has_server) in
        elim (Bool-cases elsewhere) [
          | inl other ↦
              elim (Bool-cases (is_etcd_scheme (scheme_of server_config.datastore_endpoint))) [
                | inl etcd ↦ absurd (let g = rw (other, etcd) at h in cc)
                | inr kine ↦ rw (other, kine) (refl, refl, refl)
              ]
          | inr own ↦ absurd (let g = rw own at h in cc)
        ]

    -- An executor that serves kine, with an external database, does not run etcd, has k3s use TLS for
    -- kine, and does not start a cluster.
    pub prepare-external :
        (s s' : os.State) (p : Prepared N)
        → prepare os default_path scheme_of host is_server flags cloud server_config
            runtime_endpoint new_config s
          ≡ (ok p, s')
        → p.executor.static_pods.external_database ≡ true
        → (p.executor.static_pods.disable_etcd ≡ true)
          × (p.executor.server_config.kine_tls ≡ true)
          × (p.executor.server_config.cluster_init ≡ false)
    prepare-external s s' p h external =
        let parts = prepare-ok s s' p h in
        subst
          (λ x.
            (x.executor.static_pods.disable_etcd ≡ true)
            × (x.executor.server_config.kine_tls ≡ true)
            × (x.executor.server_config.cluster_init ≡ false))
          parts.6
          (datastore-external
            (ap (λ x. x.executor.static_pods.external_database) parts.6 ∙ external))
