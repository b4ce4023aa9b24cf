-- ===== src/Policies/ServiceAccounts/Laws.antt =====
-- pkg/rke2/serviceaccount.go: what has been stored where it succeeds.
use rke.Base.{String, some, false, ◌≡◌, refl, sym, ap, ◌∙◌, Bool-cases, inl, inr}
use mathlib.Core.Path.{subst}
use rke.Policies.Client.{
  ApiError, Reply, done, failed, is_not_found, is_conflict, throw, Retry, Runs-last,
  Runs-last-keeps, proceed-either, proceed-done,
}
use rke.Policies.ServiceAccounts.{
  ServiceAccount, Accounts, HeldAccount, not_mounted, update_service_account_ref, conflicted,
  put_account, attempt, restrict_service_account,
}

module _ (cs : Accounts) where
  -- An account with the default one's name, that has been read from the namespace, but for the field that
  -- is written.
  abbrev pub WasRead : String → ServiceAccount → Type 0
  WasRead namespace sa =
      (sa.name ≡ "default")
      × ((read : ServiceAccount) × (s t : cs.State) × (cs.get_account namespace "default" s
            ≡ (done read, t))
          × (sa.revision ≡ read.revision))

  -- An update of such an account, with no mounting by itself, has succeeded and led to the state.
  abbrev pub IsStored : String → cs.State → Type 0
  IsStored namespace s' =
      (sa updated : ServiceAccount) × (s : cs.State) × (cs.update_account namespace sa s
        ≡ (done updated, s'))
      × (sa.automount_service_account_token ≡ some false)
      × WasRead namespace sa

  abbrev AfterRead : String → Reply (Unit {0}) × HeldAccount cs → Type 0
  AfterRead namespace r = WasRead namespace r.1.0

  conflicted-failed :
      (namespace : String) (e : ApiError) (w : HeldAccount cs)
      → (x : ApiError) × ((conflicted cs namespace e w).0 ≡ failed x)
  conflicted-failed namespace e w =
      proceed-either (λ r. (x : ApiError) × (r.0 ≡ failed x))
        (update_service_account_ref cs namespace w) _ _ (λ u v h. (e, refl)) (λ x v h. (x, refl))

  put_account-done :
      (namespace : String) (w : HeldAccount cs)
      → WasRead namespace w.0
      → (put_account cs namespace w).0 ≡ done tt
      → IsStored namespace ((put_account cs namespace w).1.1)
  unfolding put_account
  put_account-done namespace (sa, s) was_read h =
      let parts =
        proceed-done (cs.update_account namespace (not_mounted cs sa) s) _ _ tt
          (λ e t. elim (Bool-cases (is_conflict e)) [
            | inl again ↦ rw again (conflicted-failed namespace e (not_mounted cs sa, t))
            | inr other ↦ rw other (e, refl)
          ])
          h in
      let same : (put_account cs namespace (sa, s)).1.1 ≡ parts.1 = rw parts.2 refl in
      subst (IsStored namespace) (sym same) (not_mounted cs sa, parts.0, s, parts.2, refl, was_read)

  -- The API server answers with the account that was asked for.
  module _
      (named : (namespace name : String) (sa : ServiceAccount) (s t : cs.State)
        → cs.get_account namespace name s ≡ (done sa, t)
        → sa.name ≡ name) where
    get_account-WasRead :
        (namespace name : String) (sa : ServiceAccount) (s t : cs.State)
        → name ≡ "default"
        → cs.get_account namespace name s ≡ (done sa, t)
        → WasRead namespace sa
    get_account-WasRead namespace name sa s t default h = (
      named namespace name sa s t h ∙ default,
      (sa, s, t, subst (λ n. cs.get_account namespace n s ≡ (done sa, t)) default h, refl),
    )

    update_service_account_ref-WasRead :
        (namespace : String) (w : HeldAccount cs)
        → WasRead namespace w.0
        → WasRead namespace ((update_service_account_ref cs namespace w).1.0)
    unfolding update_service_account_ref
    update_service_account_ref-WasRead namespace (sa, s) was_read =
        proceed-either (AfterRead namespace) (cs.get_account namespace sa.name s) _ _
          (λ new t h. get_account-WasRead namespace sa.name new s t was_read.0 h)
          (λ e t h. was_read)

    put_account-WasRead :
        (namespace : String) (w : HeldAccount cs)
        → WasRead namespace w.0
        → WasRead namespace ((put_account cs namespace w).1.0)
    unfolding put_account
    put_account-WasRead namespace (sa, s) was_read =
        proceed-either (AfterRead namespace) (cs.update_account namespace (not_mounted cs sa) s) _ _
          (λ updated t h. was_read)
          (λ e t h. elim (Bool-cases (is_conflict e)) [
            | inl again ↦ rw again (
                proceed-either (AfterRead namespace)
                  (update_service_account_ref cs namespace (not_mounted cs sa, t)) _ _
                  (λ u v done_so.
                    subst (AfterRead namespace) done_so (
                      update_service_account_ref-WasRead namespace (not_mounted cs sa, t) was_read))
                  (λ x v failed_so.
                    subst (AfterRead namespace) failed_so (
                      update_service_account_ref-WasRead namespace (not_mounted cs sa, t)
                        was_read)))
            | inr other ↦ rw other was_read
          ])

    module _ (retry : Retry cs.State) (retry_held : Retry (HeldAccount cs)) where
      attempt-done :
          (namespace : String) (s : cs.State)
          → (attempt cs retry retry_held namespace s).0 ≡ done tt
          → IsStored namespace ((attempt cs retry retry_held namespace s).1)
      attempt-done namespace s h =
          let parts =
            proceed-done (cs.get_account namespace "default" s) _ throw tt (λ e t. (e, refl)) h in
          let put = put_account cs namespace in
          let start : HeldAccount cs = (parts.0, parts.1) in
          let end = retry_held.on_error is_conflict put start in
          let last =
            Runs-last-keeps (λ w. WasRead namespace w.0) is_conflict put
              (put_account-WasRead namespace) start end (retry_held.runs is_conflict put start)
              (get_account-WasRead namespace "default" parts.0 s parts.1 refl parts.2) in
          let same : (attempt cs retry retry_held namespace s).1 ≡ end.1.1 = rw parts.2 refl in
          subst (IsStored namespace) (sym same) (
            subst (λ r. IsStored namespace (r.1.1)) last.1
              (put_account-done namespace last.0 last.2 (ap (λ r. r.0) last.1 ∙ parts.3)))

      -- If the API server answers with the account that was asked for, and restrictServiceAccount
      -- succeeds, then an update has succeeded, and nothing happened since: that of an account named
      -- default, as it was read from the namespace, but with automountServiceAccountToken false.
      pub restrict_service_account-done :
          (namespace : String) (s : cs.State)
          → (restrict_service_account cs retry retry_held namespace s).0 ≡ done tt
          → IsStored namespace ((restrict_service_account cs retry retry_held namespace s).1)
      unfolding restrict_service_account
      restrict_service_account-done namespace s h =
          let f = attempt cs retry retry_held namespace in
          let last =
            Runs-last is_not_found f s (retry.on_error is_not_found f s)
              (retry.runs is_not_found f s) in
          subst (λ r. IsStored namespace (r.1)) last.1
            (attempt-done namespace last.0 (ap (λ r. r.0) last.1 ∙ h))
