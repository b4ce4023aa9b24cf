-- ===== src/Start/Restore.antt =====
-- pkg/rke2/rke2_linux.go: the file that forces the next start to restart the control plane.
use rke.Base.{
  ◌||◌, Bool, true, false, String, Option, some, none, List, ◌≡◌, refl, ap, ◌=ₛ◌, All, ◌⊎◌, inl,
  inr, Bool-cases,
}
use mathlib.Core.Path.{subst}
use mathlib.Core.Option.{some-injective}
use rke.Base.FilePath.{dir_name}
use rke.Base.Os.{Os}
use rke.Base.Result.{Result, Error, ok, err, err≢ok}
use rke.Base.Act.{◌>>=◌, >>=-ok, >>=-keeps, wrap-keeps, lift, pure, wrap}
use rke.Images.Names.{Names}
use rke.Podtemplate.Spec.{Config}
use rke.Staticpod.Cleanup.{
  Cri, Event, manifest_name, pod_manifests_dir, with_reset, remove_disabled_pods,
}
use rke.Staticpod.Cleanup.Manifests.{remove_disabled_pods-keeps}
use rke.Start.Psa.{
  set_psas, default_psa_config_file, restricted_psa_config, unrestricted_psa_config,
}
use rke.Start.Laws.{prepare-ok}
use rke.Base.Dict.{insert}
use rke.Start.{
  disabled_items, Flags, CloudConfig, ServerConfig, Host, Prepared, StartedExecutor,
  force_restart_file, force_restart, mark_restart, choices, psa_file, prepare, executed, then_clean,
  init_static_pod_executor,
}

failed_start :
    {A : Type 0} {e : Error} {a : A} → ◌≡◌ {A = Option (Result A)} (some (err e)) (some (ok a)) → ⊥
failed_start h = err≢ok (some-injective _ _ h)

-- The components that initStaticPodExecutor may disable.
abbrev pub IsControlPlane : String → Type 0
IsControlPlane c =
    (c ≡ "etcd")
    ⊎ ((c ≡ "kube-apiserver")
        ⊎ ((c ≡ "kube-scheduler")
            ⊎ ((c ≡ "kube-controller-manager") ⊎ (c ≡ "cloud-controller-manager"))))

only-IsControlPlane :
    (is_server forced cluster_reset : Bool) (flags : Flags)
    → All
        (λ e. (e.1 ≡ false) ⊎ IsControlPlane e.0)
        (with_reset cluster_reset (disabled_items is_server forced flags))
unfolding disabled_items insert
only-IsControlPlane is_server forced false flags = (
  inr (inr (inr (inr (inr refl)))),
  (
    inr (inl refl),
    (inr (inr (inl refl)), (inr (inr (inr (inr (inl refl)))), (inr (inr (inr (inl refl))), tt))),
  ),
)
only-IsControlPlane is_server forced true flags = (
  inr (inr (inr (inr (inr refl)))),
  (
    inr (inl refl),
    (inr (inr (inl refl)), (inr (inr (inr (inr (inl refl)))), (inr (inr (inr (inl refl))), tt))),
  ),
)

module _ {ℓ} (os : Os) (default_path : String) (flags : Flags) (P : os.State → Type ℓ)
    (wrote : (s t : os.State)
      → os.write_file (force_restart_file flags.data_dir) "" 0o600 s ≡ (ok tt, t)
      → P t)
    (mkdir_keeps : (s : os.State)
      → P s
      → P ((os.mkdir_all (dir_name default_psa_config_file) 0o755 s).1))
    (write_keeps : (text : String) (s : os.State)
      → P s
      → P ((os.write_file default_psa_config_file text 0o600 s).1))
    (remove_keeps : (component : String) (s : os.State)
      → IsControlPlane component
      → P s
      → P (
          (os.remove_all
            (manifest_name (pod_manifests_dir default_path flags.data_dir) component)
            s).1)) where
  mark_restart-wrote :
      (s t : os.State)
      → (flags.cluster_reset_restore_path =ₛ "") ≡ false
      → mark_restart os flags s ≡ (ok tt, t)
      → P t
  unfolding mark_restart
  mark_restart-wrote s t restoring h =
      let parts =
        >>=-ok (os.mkdir_all flags.data_dir 0o755)
          (λ _. os.write_file (force_restart_file flags.data_dir) "" 0o600) s (rw restoring at h) in
      wrote parts.1 t parts.3

  set_psas-keeps : (cis_mode : Bool) (s : os.State) → P s → P ((set_psas os cis_mode s).1)
  unfolding set_psas
  set_psas-keeps true s p =
      >>=-keeps P (os.mkdir_all (dir_name default_psa_config_file) 0o755) (λ _. wrap _ _) s
        (λ _ t q.
          wrap-keeps P _ (os.write_file default_psa_config_file restricted_psa_config 0o600) t
            (write_keeps restricted_psa_config t q))
        (mkdir_keeps s p)
  set_psas-keeps false s p =
      >>=-keeps P (os.mkdir_all (dir_name default_psa_config_file) 0o755) (λ _. wrap _ _) s
        (λ _ t q.
          wrap-keeps P _ (os.write_file default_psa_config_file unrestricted_psa_config 0o600) t
            (write_keeps unrestricted_psa_config t q))
        (mkdir_keeps s p)

  psa_file-keeps : (s : os.State) → P s → P ((psa_file os flags s).1)
  psa_file-keeps s p = elim (Bool-cases (flags.pod_security_admission_config_file =ₛ "")) [
    | inl unset ↦ rw unset (
        >>=-keeps P (set_psas os (flags.profile =ₛ "cis")) (λ _. pure default_psa_config_file) s
          (λ _ t q. q) (set_psas-keeps (flags.profile =ₛ "cis") s p))
    | inr given ↦ rw given p
  ]

  -- What follows the choices.
  chosen-keeps :
      {A B : Type 0} (r : Result A) (g : A → String → B) (s : os.State)
      → P s
      → P (((lift r >>= λ a. psa_file os flags >>= λ file. pure (g a file)) s).1)
  chosen-keeps (ok a) g s p =
      >>=-keeps P (psa_file os flags) (λ file. pure (g a file)) s (λ _ t q. q) (psa_file-keeps s p)
  chosen-keeps (err e) g s p = p

  module _ {N : Names} (scheme_of : String → String) (host : Host) where
    prepare-wrote :
        (is_server : Bool) (cloud : CloudConfig) (server_config : ServerConfig)
        (runtime_endpoint : String) (new_config : Result (Config N)) (s s' : os.State)
        (p : Prepared N)
        → (flags.cluster_reset_restore_path =ₛ "") ≡ false
        → prepare os default_path scheme_of host is_server flags cloud server_config
            runtime_endpoint new_config s
          ≡ (ok p, s')
        → P s'
    unfolding prepare
    prepare-wrote is_server cloud server_config runtime_endpoint new_config s s' p restoring h =
        let a = >>=-ok (force_restart os flags.data_dir) _ s h in
        let c = >>=-ok (mark_restart os flags) _ a.1 a.3 in
        let marked = mark_restart-wrote a.1 c.1 restoring c.2 in
        subst P (ap (λ q. q.1) c.3) (chosen-keeps (choices host cloud new_config) _ c.1 marked)

    prepare-IsControlPlane :
        (is_server : Bool) (cloud : CloudConfig) (server_config : ServerConfig)
        (runtime_endpoint : String) (new_config : Result (Config N)) (s s' : os.State)
        (p : Prepared N)
        → prepare os default_path scheme_of host is_server flags cloud server_config
            runtime_endpoint new_config s
          ≡ (ok p, s')
        → All (λ e. (e.1 ≡ false) ⊎ IsControlPlane e.0) (with_reset p.cluster_reset p.disabled)
    prepare-IsControlPlane is_server cloud server_config runtime_endpoint new_config s s' p h =
        let parts =
          prepare-ok os flags default_path scheme_of host is_server cloud server_config
            runtime_endpoint new_config s s' p h in
        subst
          (λ x.
            All (λ e. (e.1 ≡ false) ⊎ IsControlPlane e.0)
              (with_reset (Prepared.cluster_reset x) (Prepared.disabled x)))
          parts.6 (only-IsControlPlane is_server parts.0 (flags.cluster_reset || parts.1) flags)

    -- With a path to restore from, whatever holds once the file for a forced restart is written, and is
    -- kept by the writing of the default admission configuration and the removal of
    -- manifests of the control plane, holds when
    -- the executor has been made.
    pub init_static_pod_executor-restore :
        (cri : Cri) (is_server : Bool) (cloud : CloudConfig) (server_config : ServerConfig)
        (runtime_endpoint : String) (new_config : Result (Config N)) (events : List (Event cri))
        (c : cri.State) (s s' : os.State) (executor : StartedExecutor N)
        → (flags.cluster_reset_restore_path =ₛ "") ≡ false
        → init_static_pod_executor os default_path scheme_of host cri is_server flags cloud
            server_config runtime_endpoint new_config events c s
          ≡ (some (ok executor), s')
        → P s'
    unfolding init_static_pod_executor
    init_static_pod_executor-restore cri is_server cloud server_config runtime_endpoint new_config
          events c s s' executor restoring h =
        from
          (prepare os default_path scheme_of host is_server flags cloud server_config
            runtime_endpoint new_config s)
          (λ p t e. (
            prepare-wrote is_server cloud server_config runtime_endpoint new_config s t p restoring
                e,
            prepare-IsControlPlane is_server cloud server_config runtime_endpoint new_config s t p
                e,
          ))
          h
      where
        done_in :
            (r : Option (Result (Unit {0})) × os.State) (x : StartedExecutor N)
            → executed os default_path scheme_of host cri x r ≡ (some (ok executor), s')
            → P (r.1)
            → P s'
        done_in (none, t) x h p = subst P (ap (λ q. q.1) h) p
        done_in (some (ok u), t) x h p = subst P (ap (λ q. q.1) h) p
        done_in (some (err e), t) x h p = subst P (ap (λ q. q.1) h) p

        from :
            (r : Result (Prepared N) × os.State)
            → ((p : Prepared N) (t : os.State)
                → r ≡ (ok p, t)
                → P t
                  × All
                      (λ e. (e.1 ≡ false) ⊎ IsControlPlane e.0)
                      (with_reset p.cluster_reset p.disabled))
            → then_clean os default_path scheme_of host cri flags events c r
              ≡ (some (ok executor), s')
            → P s'
        from (err e, t) kept h = absurd (failed_start (ap (λ q. q.0) h))
        from (ok p, t) kept h =
            done_in
              (remove_disabled_pods os cri default_path flags.data_dir p.disabled p.cluster_reset
                events c t)
              p.executor h
              (remove_disabled_pods-keeps os default_path flags.data_dir IsControlPlane P
                remove_keeps cri p.disabled p.cluster_reset events c t ((kept p t refl).1)
                ((kept p t refl).0))
