-- ===== src/Tests/PolicyRuns.antt =====
-- pkg/rke2/np.go and serviceaccount.go, at concrete inputs.
use rke.Base.{String, none, List, [], ◌∷◌, ◌++◌, ◌≡◌, refl, All}
use rke.Base.Dict.{insert}
use rke.Policies.Client.{conflict, done, failed, not_found, Retry, once}
use rke.Policies.Templates.{default_namespace_policies, PolicyTemplate}
use rke.Policies.Network.{
  Namespace, Cluster, Held, store, apply_templates, set_policies_from_templates,
  update_namespace_ref,
}
use rke.Policies.Network.Laws.{HasKey, apply_templates-done, store-conflict}
use rke.Policies.ServiceAccounts.{ServiceAccount, Accounts, HeldAccount, restrict_service_account}
use rke.Policies.ServiceAccounts.Laws.{IsStored, restrict_service_account-done}

-- A retry that never repeats a call.
abbrev one_try : (S : Type 0) → Retry S
one_try S = record { on_error = λ again f s. f s; runs = λ again f s. once s }

-- The state is the calls that have been made; every update meets a conflict.
abbrev core : Namespace
core = record { name = "default"; annotations = []; revision = "7" }

abbrev contended : Cluster
contended = record {
  State = List String;
  get_namespace = λ name s. (done core, s ++ ("get" ∷ []));
  update_namespace = λ ns s. (failed conflict, s ++ ("update" ∷ []));
  get_policy = λ ns name s. (failed not_found, s ++ ("get policy" ∷ []));
  delete_policy = λ ns name s. (done tt, s ++ ("delete policy" ∷ []));
  create_policy = λ ns policy s. (done policy, s ++ ("create policy" ∷ []));
}

abbrev base_template : PolicyTemplate
base_template = record {
  name = "default-network-policy";
  annotation_key = "np.rke2.io";
  pod_selector = record { match_labels = [] };
  ingress = [];
}

-- The annotation is never stored, and no error is returned.
contended_test :
    set_policies_from_templates contended
      (one_try (Held contended))
      default_namespace_policies
      "default"
      []
    ≡ (done tt, "get" ∷ "get policy" ∷ "create policy" ∷ "update" ∷ "get" ∷ [])
unfolding set_policies_from_templates update_namespace_ref
contended_test = refl

store-conflict_example :
    ((store contended (one_try (Held contended)) base_template (core, [])).0 ≡ done tt)
    × ((store contended (one_try (Held contended)) base_template (core, [])).1.1
        ≡ "update" ∷ "get" ∷ [])
unfolding insert
store-conflict_example =
    store-conflict contended (one_try (Held contended)) base_template core core [] ("update" ∷ [])
      ("update" ∷ "get" ∷ []) refl refl

apply_templates-done_example :
    All
      (λ template. HasKey contended template.annotation_key (
        (apply_templates contended
          (one_try (Held contended))
          "default"
          default_namespace_policies
          (core, [])).1))
      default_namespace_policies
unfolding apply_templates update_namespace_ref
apply_templates-done_example =
    apply_templates-done contended (one_try (Held contended)) "default" default_namespace_policies
      (core, []) refl

abbrev noted : Namespace
noted = record core { annotations = ("np.rke2.io", "resolved") ∷ [] }

abbrev settled : Cluster
settled = record contended { get_namespace = λ name s. (done noted, s ++ ("get" ∷ [])) }

abbrev default_account : ServiceAccount
default_account = record {
  name = "default";
  automount_service_account_token = none;
  revision = "1";
}

abbrev accounts : Accounts
accounts = record {
  State = List ServiceAccount;
  get_account = λ ns name s. (done (record default_account { name = name }), s);
  update_account = λ ns sa s. (done sa, s ++ (sa ∷ []));
}

answers :
    (namespace name : String) (sa : ServiceAccount) (s t : List ServiceAccount)
    → accounts.get_account namespace name s ≡ (done sa, t)
    → sa.name ≡ name
answers namespace name sa s t h = cc

restrict_service_account-done_example : IsStored accounts "kube-system" (
    (restrict_service_account accounts
      (one_try (Accounts.State accounts))
      (one_try (HeldAccount accounts))
      "kube-system"
      []).1)
unfolding restrict_service_account
restrict_service_account-done_example =
    restrict_service_account-done accounts answers (one_try (Accounts.State accounts))
      (one_try (HeldAccount accounts)) "kube-system" [] refl
