-- ===== src/Policies/ServiceAccounts.antt =====
-- pkg/rke2/serviceaccount.go: the token of the default service account is no longer mounted by itself.
pub mod Laws
use rke.Base.{Bool, true, false, String, Option, none, some, List, [], ◌∷◌, ◌++◌, if◌then◌else◌}
use rke.Policies.Client.{
  ApiError, Reply, done, failed, is_not_found, is_conflict, Call, proceed, throw, Retry,
}

pub record ServiceAccount : Type 0 where
  pub name : String
  pub automount_service_account_token : Option Bool
  pub revision : String

pub record Accounts : Type 1 where
  pub State : Type 0
  pub get_account : String → String → Call State ServiceAccount
  pub update_account : String → ServiceAccount → Call State ServiceAccount

abbrev pub default_service_account_name : String
default_service_account_name = "default"

module _ (cs : Accounts) where
  abbrev pub HeldAccount : Type 0
  HeldAccount = ServiceAccount × cs.State

  abbrev pub not_mounted : ServiceAccount → ServiceAccount
  not_mounted sa = record sa { automount_service_account_token = some false }

  unfoldable pub update_service_account_ref : String → Call HeldAccount (Unit {0})
  update_service_account_ref namespace (sa, s) =
      proceed (cs.get_account namespace sa.name s) (λ new t. (done tt, (new, t)))
        (λ e t. (failed e, (sa, t)))

  -- The conflict itself is returned, so that it is retried.
  abbrev pub conflicted : String → ApiError → Call HeldAccount (Unit {0})
  conflicted namespace e w =
      proceed (update_service_account_ref namespace w) (λ updated v. (failed e, v)) throw

  -- What is retried on a conflict.
  unfoldable pub put_account : String → Call HeldAccount (Unit {0})
  unfolding update_service_account_ref
  put_account namespace (sa, s) =
      proceed (cs.update_account namespace (not_mounted sa) s)
        (λ updated t. (done tt, (not_mounted sa, t)))
        (λ e t.
          if is_conflict e
          then conflicted namespace e (not_mounted sa, t)
          else (failed e, (not_mounted sa, t)))

  module _ (retry : Retry cs.State) (retry_held : Retry HeldAccount) where
    abbrev pub forget_account : Reply (Unit {0}) × HeldAccount → Reply (Unit {0}) × cs.State
    forget_account (r, (sa, s)) = (r, s)

    abbrev pub attempt : String → Call cs.State (Unit {0})
    attempt namespace s =
        proceed (cs.get_account namespace default_service_account_name s)
          (λ sa t. forget_account (retry_held.on_error is_conflict (put_account namespace) (sa, t)))
          throw

    -- retryError is is_not_found.
    unfoldable pub restrict_service_account : String → Call cs.State (Unit {0})
    unfolding put_account
    restrict_service_account namespace = retry.on_error is_not_found (attempt namespace)

    unfoldable pub restrict_all : List String → Call cs.State (Unit {0})
    unfolding restrict_service_account
    restrict_all [] s = (done tt, s)
    restrict_all (namespace ∷ namespaces) s =
        proceed (restrict_service_account namespace s) (λ restricted t. restrict_all namespaces t)
          throw

    -- restrictServiceAccounts, in CIS mode.
    abbrev pub restrict_service_accounts : List String → Call cs.State (Unit {0})
    restrict_service_accounts namespaces = restrict_all (namespaces ++ ("kube-node-lease" ∷ []))
