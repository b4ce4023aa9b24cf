-- ===== src/Policies/Network/Laws.antt =====
-- pkg/rke2/np.go: what applying the templates leaves in the annotations, and what it does on a conflict.
use rke.Base.{
  true, ◌||◌, String, List, [], ◌∷◌, ◌≡◌, refl, sym, ap, ◌=ₛ◌, All, or_true, eq_refl, Bool-cases,
  inl, inr,
}
use mathlib.Core.Path.{subst}
use rke.Base.Dict.{Dict, lookup, insert, lookup-insert}
use rke.Policies.Client.{
  conflict, done, failed, is_conflict, throw, Retry, Runs-keeps, Runs-done, proceed-either,
  proceed-done,
}
use rke.Policies.Templates.{PolicyTemplate, cis_annotation_value}
use rke.Policies.Network.{
  Namespace, Cluster, Held, copy_annotations, has_annotation, update_namespace_ref, put_namespace,
  clear_policy, create, store, install, apply_template, apply_templates, forget,
  set_policies_from_templates,
}

has_annotation-insert :
    (k j : String) (v : String) (d : Dict String)
    → has_annotation (lookup k d) ≡ true
    → has_annotation (lookup k (insert j v d)) ≡ true
has_annotation-insert k j v d h = elim (Bool-cases (j =ₛ k)) [
  | inl same ↦ rw (lookup-insert j k v d, same) refl
  | inr differ ↦ rw (lookup-insert j k v d, differ) h
]

has_annotation-kept :
    (k : String) (old new : Dict String)
    → has_annotation (lookup k new) ≡ true
    → has_annotation (lookup k (copy_annotations old new)) ≡ true
has_annotation-kept k [] new h = h
has_annotation-kept k ((j, v) ∷ old) new h =
    has_annotation-kept k old (insert j v new) (has_annotation-insert k j v new h)

has_annotation-copy :
    (k : String) (old new : Dict String)
    → has_annotation (lookup k old) ≡ true
    → has_annotation (lookup k (copy_annotations old new)) ≡ true
unfolding lookup
has_annotation-copy k [] new h = absurd cc
has_annotation-copy k ((j, v) ∷ old) new h = elim (Bool-cases (j =ₛ k)) [
  | inl same ↦ has_annotation-kept k old (insert j v new) (rw (lookup-insert j k v new, same) refl)
  | inr differ ↦ has_annotation-copy k old (insert j v new) (rw differ at h)
]

marked_key :
    (k key : String) (d : Dict String)
    → ((key =ₛ k) || has_annotation (lookup k d)) ≡ true
    → has_annotation (lookup k (insert key cis_annotation_value d)) ≡ true
marked_key k key d h = elim (Bool-cases (key =ₛ k)) [
  | inl same ↦ rw (lookup-insert key k cis_annotation_value d, same) refl
  | inr differ ↦ rw (lookup-insert key k cis_annotation_value d, differ) (rw differ at h)
]

module _ (cs : Cluster) where
  -- The Namespace that is held has the annotation.
  abbrev pub HasKey : String → Held cs → Type 0
  HasKey k w = has_annotation (lookup k w.0.annotations) ≡ true

  put_namespace-HasKey : (k : String) (w : Held cs) → HasKey k w → HasKey k ((put_namespace cs w).1)
  unfolding put_namespace update_namespace_ref
  put_namespace-HasKey k (ns, s) h =
      proceed-either (λ r. HasKey k (r.1)) (cs.update_namespace ns s) _ _ (λ a t e. h)
        (λ e t f. elim (Bool-cases (is_conflict e)) [
          | inl again ↦ rw again (
              proceed-either (λ r. HasKey k (r.1)) (cs.get_namespace ns.name t) _ _
                (λ new u g. has_annotation-copy k ns.annotations new.annotations h) (λ e' u g. h))
          | inr other ↦ rw other h
        ])

  put_namespace-conflict :
      (ns new : Namespace) (s t u : cs.State)
      → cs.update_namespace ns s ≡ (failed conflict, t)
      → cs.get_namespace ns.name t ≡ (done new, u)
      → put_namespace cs (ns, s) ≡ (
        done tt,
        (record new { annotations = copy_annotations ns.annotations new.annotations }, u),
      )
  unfolding put_namespace update_namespace_ref
  put_namespace-conflict ns new s t u clash read = rw (clash, read) refl

  module _ (retry : Retry (Held cs)) where
    stored-HasKey :
        (k : String) (w : Held cs)
        → HasKey k w
        → HasKey k ((retry.on_error is_conflict (put_namespace cs) w).1)
    stored-HasKey k w h =
        Runs-keeps (HasKey k) is_conflict (put_namespace cs) (put_namespace-HasKey k) w
          (retry.on_error is_conflict (put_namespace cs) w)
          (retry.runs is_conflict (put_namespace cs) w) h

    -- Storing a template keeps the keys that are there, and adds its own.
    store-HasKey :
        (k : String) (template : PolicyTemplate) (w : Held cs)
        → ((template.annotation_key =ₛ k) || has_annotation (lookup k w.0.annotations)) ≡ true
        → HasKey k ((store cs retry template w).1)
    store-HasKey k template (ns, s) h =
        let marked : Held cs = (
          record ns {
            annotations = insert template.annotation_key cis_annotation_value ns.annotations;
          },
          s,
        ) in
        let there =
          stored-HasKey k marked (marked_key k template.annotation_key ns.annotations h) in
        proceed-either (λ r. HasKey k (r.1)) (retry.on_error is_conflict (put_namespace cs) marked)
          (λ stored w. (done tt, w)) _ (λ a w e. subst (HasKey k) (ap (λ q. q.1) e) there)
          (λ x w e. subst (HasKey k) (ap (λ q. q.1) e) there)

    install-HasKey :
        (k namespace : String) (template : PolicyTemplate) (w : Held cs)
        → HasKey k w
        → HasKey k ((install cs retry namespace template w).1)
    install-HasKey k namespace template (ns, s) h =
        proceed-either (λ r. HasKey k (r.1)) (clear_policy cs namespace template.name s) _ _
          (λ a t e.
            proceed-either (λ r. HasKey k (r.1)) (create cs namespace template t) _ _
              (λ b u f.
                store-HasKey k template (ns, u) (rw h (or_true (template.annotation_key =ₛ k))))
              (λ x u f. h))
          (λ x t e. h)

    installed :
        (namespace : String) (template : PolicyTemplate) (w : Held cs)
        → (install cs retry namespace template w).0 ≡ done tt
        → HasKey template.annotation_key ((install cs retry namespace template w).1)
    installed namespace template (ns, s) h =
        let cleared =
          proceed-done (clear_policy cs namespace template.name s) _ _ tt (λ e t. (e, refl)) h in
        let created =
          proceed-done (create cs namespace template cleared.1) _ _ tt (λ e t. (e, refl))
            cleared.3 in
        rw (cleared.2, created.2)
          (store-HasKey template.annotation_key template (ns, created.1)
            (rw (eq_refl template.annotation_key) refl))

    All-noted :
        (namespace : String) (templates : List PolicyTemplate) (ns : Namespace) (s : cs.State)
        → All (λ template. HasKey template.annotation_key (ns, s)) templates
        → apply_templates cs retry namespace templates (ns, s) ≡ (done tt, (ns, s))
    unfolding apply_templates
    All-noted namespace [] ns s noted = refl
    All-noted namespace (template ∷ templates) ns s noted =
        rw noted.0 (All-noted namespace templates ns s noted.1)

    apply_template-HasKey :
        (k namespace : String) (template : PolicyTemplate) (w : Held cs)
        → HasKey k w
        → HasKey k ((apply_template cs retry namespace template w).1)
    apply_template-HasKey k namespace template (ns, s) h =
        elim (Bool-cases (has_annotation (lookup template.annotation_key ns.annotations))) [
          | inl noted ↦ rw noted h
          | inr new ↦ rw new (install-HasKey k namespace template (ns, s) h)
        ]

    -- An applied template is noted.
    apply_template-done :
        (namespace : String) (template : PolicyTemplate) (w : Held cs)
        → (apply_template cs retry namespace template w).0 ≡ done tt
        → HasKey template.annotation_key ((apply_template cs retry namespace template w).1)
    apply_template-done namespace template (ns, s) h =
        elim (Bool-cases (has_annotation (lookup template.annotation_key ns.annotations))) [
          | inl noted ↦ rw noted noted
          | inr new ↦ rw new (installed namespace template (ns, s) (rw new at h))
        ]

    apply_templates-HasKey :
        (k namespace : String) (templates : List PolicyTemplate) (w : Held cs)
        → HasKey k w
        → HasKey k ((apply_templates cs retry namespace templates w).1)
    unfolding apply_templates
    apply_templates-HasKey k namespace [] w h = h
    apply_templates-HasKey k namespace (template ∷ templates) w h =
        let first = apply_template-HasKey k namespace template w h in
        proceed-either (λ r. HasKey k (r.1)) (apply_template cs retry namespace template w) _ _
          (λ a t e.
            apply_templates-HasKey k namespace templates t
              (subst (HasKey k) (ap (λ q. q.1) e) first))
          (λ x t e. subst (HasKey k) (ap (λ q. q.1) e) first)

    -- If the templates are applied without an error, the Namespace that is held has the annotations of
    -- all of them.
    pub apply_templates-done :
        (namespace : String) (templates : List PolicyTemplate) (w : Held cs)
        → (apply_templates cs retry namespace templates w).0 ≡ done tt
        → All
            (λ template.
              HasKey template.annotation_key ((apply_templates cs retry namespace templates w).1))
            templates
    unfolding apply_templates
    apply_templates-done namespace [] w h = tt
    apply_templates-done namespace (template ∷ templates) w h =
        let parts =
          proceed-done (apply_template cs retry namespace template w)
            (λ a t. apply_templates cs retry namespace templates t) throw tt (λ e t. (e, refl)) h in
        let first =
          subst (HasKey template.annotation_key) (ap (λ q. q.1) parts.2)
            (apply_template-done namespace template w (ap (λ q. q.0) parts.2)) in
        let rest = apply_templates cs retry namespace templates parts.1 in
        let same : apply_templates cs retry namespace (template ∷ templates) w ≡ rest =
          rw parts.2 refl in
        subst
          (λ r.
            HasKey template.annotation_key (r.1)
            × All (λ x. HasKey x.annotation_key (r.1)) templates)
          (sym same)
          (
            apply_templates-HasKey template.annotation_key namespace templates parts.1 first,
            apply_templates-done namespace templates parts.1 parts.3,
          )

    -- If the update of the namespace meets a conflict and the namespace can be read again, the policy
    -- counts as stored, and the cluster is left as that reading found it: the update is not repeated.
    pub store-conflict :
        (template : PolicyTemplate) (ns new : Namespace) (s t u : cs.State)
        → cs.update_namespace
            (record ns {
              annotations = insert template.annotation_key cis_annotation_value ns.annotations;
            })
            s
          ≡ (failed conflict, t)
        → cs.get_namespace ns.name t ≡ (done new, u)
        → ((store cs retry template (ns, s)).0 ≡ done tt)
          × ((store cs retry template (ns, s)).1.1 ≡ u)
    store-conflict template ns new s t u clash read =
        let marked : Namespace = record ns {
          annotations = insert template.annotation_key cis_annotation_value ns.annotations;
        } in
        let merged : Namespace = record new {
          annotations = copy_annotations marked.annotations new.annotations;
        } in
        let stored =
          Runs-done is_conflict (put_namespace cs) (marked, s)
            (retry.on_error is_conflict (put_namespace cs) (marked, s))
            (retry.runs is_conflict (put_namespace cs) (marked, s))
            (put_namespace-conflict marked new s t u clash read) in
        rw stored (refl, refl)

    -- With the annotations of all templates in the namespace, setPoliciesFromTemplates only reads it.
    pub set_policies_from_templates-noted :
        (templates : List PolicyTemplate) (namespace : String) (ns : Namespace) (s t : cs.State)
        → cs.get_namespace namespace s ≡ (done ns, t)
        → All (λ template. HasKey template.annotation_key (ns, t)) templates
        → set_policies_from_templates cs retry templates namespace s ≡ (done tt, t)
    unfolding set_policies_from_templates
    set_policies_from_templates-noted templates namespace ns s t read noted =
        rw read (ap (forget cs retry) (All-noted namespace templates ns t noted))
