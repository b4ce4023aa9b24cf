-- ===== src/Commands/Profile/Laws.antt =====
-- pkg/cli/cmds/profile_linux.go: when a profile lets the server or the agent start.
use rke.Base.{
  ℕ, Bool, false, not, ◌&&◌, ◌==◌, String, Option, none, some, List, [], ◌∷◌, ◌≡◌, refl, ap, ◌∙◌,
  ◌↔◌, All, Bool-cases, inl, inr, ==_iff, ◌⊎◌,
}
use rke.Base.Decimal.{ℤ, pos, negsuc}
use rke.Base.Os.{Os}
use rke.Base.Result.{Result, ok, err, >>=-eq-ok, ok-injective, err≢ok}
use rke.Commands.CloudProvider.{CliRole, agent, server}
use rke.Commands.Profile.{
  kernel_runtime_parameters, sysctl, CisError, Failure, add_mismatch, kernel_errors,
  kernel_compliance, validate_kernel_reqs, validate_etcd_reqs, set_cis_flags, or_else,
  validate_profile,
}

module _ (os : Os) where
  -- The parameter has the value that the profile requires.
  abbrev pub HasValue : os.State → String × ℕ → Type 0
  HasValue s p = sysctl os p.0 s ≡ ok (pos p.1)

  add_mismatch-nil :
      (kp : String) (pv : ℕ) (cv : ℤ) (ce : List (CisError os))
      → add_mismatch os kp pv cv ce ≡ []
      → (cv ≡ pos pv) × (ce ≡ [])
  add_mismatch-nil kp pv (pos n) ce h = elim (Bool-cases (n == pv)) [
    | inl same ↦ (ap pos ((==_iff n pv).0 same), rw same at h)
    | inr differ ↦ absurd (let g = rw differ at h in cc)
  ]
  add_mismatch-nil kp pv (negsuc n) ce h = absurd cc

  kernel_errors_iff :
      (parameters : List (String × ℕ)) (s : os.State)
      → (kernel_errors os parameters s ≡ ok []) ↔ All (HasValue s) parameters
  unfolding kernel_errors
  kernel_errors_iff [] s = (λ h. tt, λ h. refl)
  kernel_errors_iff ((kp, pv) ∷ parameters) s =
      let rest = kernel_errors_iff parameters s in
      (
        λ h.
            let first = >>=-eq-ok (sysctl os kp s) _ h in
            let second = >>=-eq-ok (kernel_errors os parameters s) _ first.2 in
            let none_wrong = add_mismatch-nil kp pv first.0 second.0 (ok-injective second.2) in
            (first.1 ∙ ap ok none_wrong.0, rest.0 (second.1 ∙ ap ok none_wrong.1)),
        λ h. rw (h.0, rest.1 h.1, (==_iff pv pv).1 refl) refl,
      )

  validate_kernel_reqs_iff :
      (s : os.State)
      → (validate_kernel_reqs os s ≡ none) ↔ All (HasValue s) kernel_runtime_parameters
  validate_kernel_reqs_iff s =
      let step = kernel_errors_iff kernel_runtime_parameters s in
      (
        λ h. step.0 (from (kernel_errors os kernel_runtime_parameters s) h),
        λ h. ap (kernel_compliance os) (step.1 h),
      )
    where
      from : (r : Result (List (CisError os))) → kernel_compliance os r ≡ none → r ≡ ok []
      from (err e) h = absurd cc
      from (ok []) h = refl
      from (ok (e ∷ ce)) h = absurd cc

  validate_etcd_reqs_iff :
      (role : CliRole) (user group : Result (Unit {0}))
      → (validate_etcd_reqs os role user group ≡ none)
        ↔ ((role ≡ agent) ⊎ ((user ≡ ok tt) × (group ≡ ok tt)))
  validate_etcd_reqs_iff agent user group = (λ h. inl refl, λ h. refl)
  validate_etcd_reqs_iff server (ok u) (ok v) = (λ h. inr (refl, refl), λ h. refl)
  validate_etcd_reqs_iff server (ok u) (err e) =
      (λ h. absurd cc, λ h. absurd (elim h [ inl r ↦ cc | inr p ↦ err≢ok p.1 ]))
  validate_etcd_reqs_iff server (err e) group =
      (λ h. absurd cc, λ h. absurd (elim h [ inl r ↦ cc | inr p ↦ err≢ok p.0 ]))

  set_cis_flags_iff :
      (is_set value : Bool) (set_result : Result (Unit {0}))
      → (set_cis_flags os is_set value set_result ≡ none)
        ↔ (((is_set && not value) ≡ false) × (set_result ≡ ok tt))
  set_cis_flags_iff is_set value (ok u) = elim (Bool-cases (is_set && not value)) [
    | inl refused ↦ rw refused (λ h. absurd cc, λ h. absurd (let g = h.0 in cc))
    | inr fine ↦ rw fine (λ h. (refl, refl), λ h. refl)
  ]
  set_cis_flags_iff is_set value (err e) = elim (Bool-cases (is_set && not value)) [
    | inl refused ↦ rw refused (λ h. absurd cc, λ h. absurd (let g = h.0 in cc))
    | inr fine ↦ rw fine (λ h. absurd cc, λ h. absurd (err≢ok h.1))
  ]

  or_else_iff :
      (first next : Option (Failure os))
      → (or_else os first next ≡ none) ↔ ((first ≡ none) × (next ≡ none))
  or_else_iff none next = (λ h. (refl, h), λ h. h.1)
  or_else_iff (some failure) next = (λ h. absurd cc, λ h. absurd (let g = h.0 in cc))

  -- The CIS profile lets the program start exactly when every kernel parameter has the value that is
  -- required, --protect-kernel-defaults is not set to false and can be set to true, and, on a server,
  -- the user and the group etcd exist.
  pub validate_profile-cis :
      (role : CliRole) (is_set value : Bool) (set_result user group : Result (Unit {0}))
      (s : os.State)
      → (validate_profile os "cis" role is_set value set_result user group s ≡ none) ↔ (
          All (HasValue s) kernel_runtime_parameters
          × (((is_set && not value) ≡ false) × (set_result ≡ ok tt))
          × ((role ≡ agent) ⊎ ((user ≡ ok tt) × (group ≡ ok tt))))
  unfolding validate_profile
  validate_profile-cis role is_set value set_result user group s =
      let etcd = validate_etcd_reqs os role user group in
      let flags = set_cis_flags os is_set value set_result in
      let outer = or_else_iff (validate_kernel_reqs os s) (or_else os flags etcd) in
      let inner = or_else_iff flags etcd in
      let kernel = validate_kernel_reqs_iff s in
      let flag = set_cis_flags_iff is_set value set_result in
      let users = validate_etcd_reqs_iff role user group in
      (
        λ h.
            let parts = outer.0 h in
            let more = inner.0 parts.1 in (kernel.0 parts.0, flag.0 more.0, users.0 more.1),
        λ h. outer.1 (kernel.1 h.0, inner.1 (flag.1 h.1, users.1 h.2)),
      )
