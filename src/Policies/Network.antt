-- ===== src/Policies/Network.antt =====
-- pkg/rke2/np.go: the policies are set up for a namespace, and noted in its annotations.
pub mod Laws
use rke.Base.{
  Bool, true, false, not, ◌&&◌, String, ◌<>◌, Option, none, some, List, [], ◌∷◌, ◌=ₛ◌,
  if◌then◌else◌,
}
use rke.Base.Dict.{Dict, lookup, insert}
use rke.Policies.Client.{
  ApiError, formatted, Reply, done, failed, is_not_found, is_already_exists, is_conflict, Call,
  proceed, throw, return, Retry,
}
use rke.Policies.Templates.{
  PolicyTemplate, NetworkPolicy, policy_from_template, cis_annotation_value,
  default_namespace_policies, default_kube_system_policies,
}

-- The fields of a Namespace that are read or changed, and the revision of the object.
pub record Namespace : Type 0 where
  pub name : String
  pub annotations : Dict String
  pub revision : String

pub record Cluster : Type 1 where
  pub State : Type 0
  pub get_namespace : String → Call State Namespace
  pub update_namespace : Namespace → Call State Namespace
  pub get_policy : String → String → Call State NetworkPolicy
  pub delete_policy : String → String → Call State (Unit {0})
  pub create_policy : String → NetworkPolicy → Call State NetworkPolicy

abbrev pub copy_annotations : Dict String → Dict String → Dict String
copy_annotations [] new = new
copy_annotations ((k, v) ∷ old) new = copy_annotations old (insert k v new)

abbrev pub has_annotation : Option String → Bool
has_annotation none = false
has_annotation (some v) = true

module _ (cs : Cluster) where
  -- The Namespace that `ns` points to, and the cluster.
  abbrev pub Held : Type 0
  Held = Namespace × cs.State

  unfoldable pub update_namespace_ref : Call Held (Unit {0})
  unfolding insert
  update_namespace_ref (ns, s) =
      proceed (cs.get_namespace ns.name s)
        (λ new t. (
          done tt,
          (record new { annotations = copy_annotations ns.annotations new.annotations }, t),
        ))
        (λ e t. (failed e, (ns, t)))

  -- What is retried on a conflict.
  unfoldable pub put_namespace : Call Held (Unit {0})
  unfolding update_namespace_ref
  put_namespace (ns, s) =
      proceed (cs.update_namespace ns s) (λ updated t. (done tt, (ns, t)))
        (λ e t. if is_conflict e then update_namespace_ref (ns, t) else (failed e, (ns, t)))

  -- A policy that is there already is deleted.
  abbrev pub clear_policy : String → String → Call cs.State (Unit {0})
  clear_policy namespace name s =
      proceed (cs.get_policy namespace name s)
        (λ found t.
          proceed (cs.delete_policy namespace name t) (λ deleted u. (done tt, u))
            (λ e u. if is_not_found e then (done tt, u) else (failed e, u)))
        (λ e t. (done tt, t))

  abbrev pub create : String → PolicyTemplate → Call cs.State (Unit {0})
  create namespace template s =
      proceed (cs.create_policy namespace (policy_from_template template) s)
        (λ created t. (done tt, t))
        (λ e t. if is_already_exists e then (done tt, t) else (failed e, t))

  module _ (retry : Retry Held) where
    abbrev pub store : PolicyTemplate → Call Held (Unit {0})
    store template (ns, s) =
        proceed
          (retry.on_error is_conflict put_namespace (
            record ns {
              annotations = insert template.annotation_key cis_annotation_value ns.annotations;
            },
            s,
          ))
          (λ stored w. (done tt, w))
          (λ e w. (failed (formatted ("failed to apply network policy " <> template.name) e), w))

    abbrev pub install : String → PolicyTemplate → Call Held (Unit {0})
    install namespace template (ns, s) =
        proceed (clear_policy namespace template.name s)
          (λ cleared t.
            proceed (create namespace template t) (λ created u. store template (ns, u))
              (λ e u. (failed e, (ns, u))))
          (λ e t. (failed e, (ns, t)))

    abbrev pub apply_template : String → PolicyTemplate → Call Held (Unit {0})
    apply_template namespace template (ns, s) =
        if has_annotation (lookup template.annotation_key ns.annotations)
        then (done tt, (ns, s))
        else install namespace template (ns, s)

    unfoldable pub apply_templates : String → List PolicyTemplate → Call Held (Unit {0})
    unfolding put_namespace lookup insert
    apply_templates namespace [] w = (done tt, w)
    apply_templates namespace (template ∷ templates) w =
        proceed (apply_template namespace template w)
          (λ applied v. apply_templates namespace templates v) throw

    abbrev pub forget : Reply (Unit {0}) × Held → Reply (Unit {0}) × cs.State
    forget (r, (ns, s)) = (r, s)

    unfoldable pub set_policies_from_templates :
        List PolicyTemplate → String → Call cs.State (Unit {0})
    unfolding apply_templates
    set_policies_from_templates templates namespace s =
        proceed (cs.get_namespace namespace s)
          (λ ns t. forget (apply_templates namespace templates (ns, t)))
          (λ e t. (failed (formatted ("networkPolicy: get " <> namespace) e), t))

    abbrev pub kube_system_policies : String → Call cs.State (Unit {0})
    kube_system_policies namespace s =
        if namespace =ₛ "kube-system"
        then set_policies_from_templates default_kube_system_policies namespace s
        else (done tt, s)

    -- One attempt at all namespaces. An error is logged, and the next attempt starts anew.
    unfoldable pub apply_policies : List String → Call cs.State (Unit {0})
    unfolding set_policies_from_templates
    apply_policies [] s = (done tt, s)
    apply_policies (namespace ∷ namespaces) s =
        proceed (set_policies_from_templates default_namespace_policies namespace s)
          (λ u t.
            proceed (kube_system_policies namespace t) (λ v w. apply_policies namespaces w) throw)
          throw
