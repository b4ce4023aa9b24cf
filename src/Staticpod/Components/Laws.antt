-- ===== src/Staticpod/Components/Laws.antt =====
-- pkg/executor/staticpod/staticpod.go: the arguments and mounts of the apiserver's pod.
use rke.Base.{
  ℕ, true, false, String, ◌<>◌, some, List, [], ◌∷◌, ◌++◌, ◌≡◌, ◌≢◌, refl, sym, ap, arith, ◌=ₛ◌,
  eq_refl, eq_iff, Bool-cases, Option-cases, inl, inr,
}
use mathlib.Core.Path.{subst}
use mathlib.Core.Option.{some-injective}
use rke.Base.FilePath.{join_path}
use rke.Base.Os.{Os}
use rke.Base.Result.{Result, ok, ok-injective}
use rke.Base.Act.{>>=-ok, pure}
use rke.Images.Names.{Names}
use rke.Images.Resolver.{Defaults}
use rke.Podtemplate.Files.Laws.{is_listed}
use rke.Podtemplate.Spec as PodSpec
use rke.Podtemplate.Spec.{Spec}
use rke.Images.Resolver
use rke.Podtemplate.Files.{only_existing}
use rke.Staticpod.ApiServer.{LoopState, elements, scan}
use rke.Staticpod.Executor.{StaticPodConfig, profile_cis, remove_template}
use rke.Staticpod.Components.{
  log_dirs, log_files, write_policy, with_mounts, ssl_dirs, policy_args, cis_args, address_args,
  audit_policy, audit_log, api_server_args, api_server_of, api_server, data_dir,
}

listed_there :
    (f x : String) (xs : List String) → is_listed f xs ≡ true → is_listed f (x ∷ xs) ≡ true
listed_there f x xs h = ground arith

listed_right :
    (f : String) (xs ys : List String) → is_listed f ys ≡ true → is_listed f (xs ++ ys) ≡ true
listed_right f [] ys h = h
listed_right f (x ∷ xs) ys h = listed_there f x (xs ++ ys) (listed_right f xs ys h)

listed_here : (f : String) (xs : List String) → is_listed f (f ∷ xs) ≡ true
listed_here f xs = rw (eq_refl f) refl

module _ {N : Names} (c : StaticPodConfig N) (st : LoopState) where
  -- Every argument that the loop leaves is an argument of the apiserver.
  pub api_server_args-kept :
      (arg : String)
      → is_listed arg (elements st.array st.args) ≡ true
      → is_listed arg (api_server_args c st) ≡ true
  unfolding api_server_args
  api_server_args-kept arg h =
      let kept = elements st.array st.args in
      let typed = address_args c st ++ kept in
      listed_there arg ("--admission-control-config-file=" <> c.psa_config_file) _ (
        listed_right arg (policy_args c st) (cis_args c ++ typed)
          (listed_right arg (cis_args c) typed (listed_right arg (address_args c st) kept h)))

  audit_policy-cis : c.profile_mode ≡ profile_cis → (audit_policy c =ₛ "") ≡ false
  unfolding audit_policy
  audit_policy-cis mode = elim (Bool-cases (c.audit_policy_file =ₛ "")) [
    | inl blank ↦ rw (mode, blank) refl
    | inr given ↦ rw (mode, given) given
  ]

  -- With the CIS profile the apiserver always has an audit policy, and service account tokens are not
  -- extended.
  pub api_server_args-cis :
      c.profile_mode ≡ profile_cis
      → (audit_policy c ≢ "")
        × (is_listed ("--audit-policy-file=" <> audit_policy c) (api_server_args c st) ≡ true)
        × (is_listed "--service-account-extend-token-expiration=false" (api_server_args c st)
            ≡ true)
  unfolding api_server_args
  api_server_args-cis mode =
      let policy = audit_policy-cis mode in
      let typed = address_args c st ++ elements st.array st.args in
      let first = "--admission-control-config-file=" <> c.psa_config_file in
      let rest = policy_args c st ++ (cis_args c ++ typed) in
      let flag : String = "--service-account-extend-token-expiration=false" in
      let file = "--audit-policy-file=" <> audit_policy c in
      (
        λ e. absurd (let e' = (eq_iff (audit_policy c) "").1 e in ground arith),
        listed_there file first rest (rw policy (rw eq_refl refl)),
        listed_there flag first rest
            (listed_right flag (policy_args c st) (cis_args c ++ typed) (rw mode refl)),
      )

module _ {N : Names} (c : StaticPodConfig N) (os : Os) (d : Defaults) (policy : Result String)
    (port : ℕ) where
  -- What a Spec of the apiserver holds, once the loop has left `st`: its arguments, the host's network,
  -- the server's directory mounted as a whole, and the encryption configuration not mounted by itself.
  abbrev pub IsApiServer : LoopState → Spec N → Type 0
  IsApiServer st spec =
      (spec.args ≡ api_server_args c st)
      × (spec.host_network ≡ true)
      × (is_listed (join_path (data_dir c ∷ "server" ∷ [])) spec.dirs ≡ true)
      × (is_listed (join_path (data_dir c ∷ "server/cred/encryption-config.json" ∷ []))
            spec.exclude_files
          ≡ true)

  api_server-args :
      (args : List String) (spec : Spec N) (s s' : os.State)
      → PodSpec.api_server N os d c.config port args s ≡ (ok spec, s')
      → spec.args ≡ args
  unfolding PodSpec.api_server
  api_server-args args spec s s' h =
      let (image, t, one, two) =
        >>=-ok (PodSpec.resolve_and_pull N os d c.config Resolver.kube_apiserver) _ s h in
      sym (ap Spec.args (ok-injective (ap (λ p. p.0) two)))

  with_mounts-IsApiServer :
      (st : LoopState) (existing : List String) (made : Spec N)
      → made.args ≡ api_server_args c st
      → IsApiServer st (with_mounts c st existing made)
  with_mounts-IsApiServer st existing made h =
      let server = join_path (data_dir c ∷ "server" ∷ []) in
      let encryption = join_path (data_dir c ∷ "server/cred/encryption-config.json" ∷ []) in
      (
        h,
        refl,
        listed_right server existing _ (
            listed_right server (log_dirs c (audit_log c st)) (server ∷ [])
              (listed_here server [])),
        listed_right encryption (log_files c (audit_log c st)) (encryption ∷ [])
            (listed_here encryption []),
      )

  api_server_of-IsApiServer :
      (st : LoopState) (spec : Spec N) (s s' : os.State)
      → api_server_of c os d policy port st s ≡ (ok spec, s')
      → IsApiServer st spec
  unfolding api_server_of
  api_server_of-IsApiServer st spec s s' h =
      let make = PodSpec.api_server N os d c.config port (api_server_args c st) in
      let (_, t, _, rest) = >>=-ok (write_policy c os d policy) _ s h in
      let existing = only_existing os ssl_dirs t in
      let (made, t', one, two) = >>=-ok make (λ m. pure (with_mounts c st existing m)) t rest in
      subst (IsApiServer st) (ok-injective (ap (λ p. p.0) two)) (
        with_mounts-IsApiServer st existing made
          (api_server-args (api_server_args c st) made t t' one))

  -- If APIServer hands a Spec to be written, its loop has not panicked, and the Spec has the arguments
  -- that are composed from what the loop left, and the mounts of the server's directory.
  pub api_server-IsApiServer :
      (args : List String) (spec : Spec N) (s s' : os.State)
      → api_server c os d policy port args s ≡ (ok (some spec), s')
      → (st : LoopState) × (scan c.external_database (data_dir c) args ≡ some st)
        × IsApiServer st spec
  unfolding api_server
  api_server-IsApiServer args spec s s' h =
      let (_, t, _, rest) = >>=-ok (remove_template os c.manifests_dir "kube-apiserver") _ s h in
      elim (Option-cases (scan c.external_database (data_dir c) args)) [
        | inl panicked ↦ absurd (let h' = ok-injective (ap (λ p. p.0) (rw panicked at rest)) in cc)
        | inr (st, left) ↦
            let (made, t', one, two) =
              >>=-ok (api_server_of c os d policy port st) (λ m. pure (some m)) t
                (rw left at rest) in
            let e = some-injective made spec (ok-injective (ap (λ p. p.0) two)) in
            (st, left, subst (IsApiServer st) e (api_server_of-IsApiServer st made t t' one))
      ]
