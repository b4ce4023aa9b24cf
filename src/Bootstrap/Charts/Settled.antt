-- ===== src/Bootstrap/Charts/Settled.antt =====
-- pkg/bootstrap/bootstrap.go: which manifests are not written again.
use Prim.Native.Nat.{suc}
use rke.Base.{
  ℕ, true, false, String, List, [], ◌∷◌, ◌≡◌, refl, sym, ap, ◌∙◌, All, Bool-cases, inl, inr, ◌⊎◌,
}
use mathlib.Core.Path.{subst}
use rke.Base.Dict.{Dict, lookup, DistinctKeys}
use rke.Base.Result.{Result, ok}
use rke.Bootstrap.Charts.{
  Unstructured, ManifestFiles, Object, helm_chart, other_object, is_inject_enabled, set_values,
  with_content, update_object, update_objects, rewrite_chart,
}
use rke.Bootstrap.Charts.Laws.{
  IsNested, HasValues, HasAll, set_values-HasValues, set_values-passed, HasValues-HasAll,
  HasAll-HasValues, helm_chart-injective,
}

module _ (u : Unstructured) (env : String) (laws : IsNested u) where
  -- An order in which the map may be ranged over.
  abbrev pub IsOrderOf : Dict String → Dict String → Type 0
  IsOrderOf chart_values order =
      DistinctKeys order × ((k : String) → lookup k order ≡ lookup k chart_values)

  -- No HelmChart, or one that is not to be changed, or one that counted as changed when it was updated
  -- with the map's values in some order, or one that has them all.
  abbrev pub IsSettled : Dict String → Object u env → Type 0
  IsSettled chart_values (other_object c) = Unit {0}
  IsSettled chart_values (helm_chart c) =
      (is_inject_enabled u env c ≡ false)
      ⊎ (((order : Dict String) × (prior : Object u env) × IsOrderOf chart_values order
            × (update_object u env order prior ≡ (true, helm_chart c)))
          ⊎ HasAll u env laws chart_values c)

  -- An object that counts as changed has every value, in whatever order they were set.
  changed-HasAll :
      (chart_values order : Dict String) (prior : Object u env) (c : u.Content)
      → IsOrderOf chart_values order
      → update_object u env order prior ≡ (true, helm_chart c)
      → HasAll u env laws chart_values c
  changed-HasAll chart_values order (other_object c0) c is_order h =
      absurd (let g = ap (λ r. r.0) h in cc)
  changed-HasAll chart_values order (helm_chart c0) c is_order h =
      elim (Bool-cases (is_inject_enabled u env c0)) [
        | inl enabled ↦
            let g : with_content u env (set_values u env order false c0) ≡ (true, helm_chart c) =
              rw enabled at h in
            let all = set_values-HasValues u env laws order false c0 is_order.0 (ap (λ r. r.0) g) in
            let same = helm_chart-injective u env laws _ c (ap (λ r. r.1) g) in
            λ k v found.
              HasValues-HasAll u env laws order c (subst (HasValues u env laws order) same all) k v
                (is_order.1 k ∙ found)
        | inr disabled ↦ absurd (let g = ap (λ r. r.0) (rw disabled at h) in cc)
      ]

  update_object-IsSettled :
      (chart_values order : Dict String) (obj : Object u env)
      → IsOrderOf chart_values order
      → IsSettled chart_values obj
      → update_object u env order obj ≡ (false, obj)
  update_object-IsSettled chart_values order (other_object c) is_order settled = refl
  update_object-IsSettled chart_values order (helm_chart c) is_order settled =
      let has_all : HasAll u env laws chart_values c
          → update_object u env order (helm_chart c) ≡ (false, helm_chart c) =
        λ h. elim (Bool-cases (is_inject_enabled u env c)) [
          | inl enabled ↦ rw enabled (
              ap (with_content u env) (
                set_values-passed u env laws order false c (
                  HasAll-HasValues u env laws order c is_order.0
                    (λ k v found. h k v (sym (is_order.1 k) ∙ found)))))
          | inr disabled ↦ rw disabled refl
        ] in
      elim settled [
        | inl disabled ↦ rw disabled refl
        | inr (inl (before, prior, was_order, changed)) ↦
            has_all (changed-HasAll chart_values before prior c was_order changed)
        | inr (inr all) ↦ has_all all
      ]

  update_objects-IsSettled :
      (chart_values : Dict String) (orders : ℕ → Dict String) (objs : List (Object u env))
      → ((n : ℕ) → IsOrderOf chart_values (orders n))
      → All (IsSettled chart_values) objs
      → update_objects u env orders objs ≡ (false, objs)
  unfolding update_objects
  update_objects-IsSettled chart_values orders [] are_orders settled = refl
  update_objects-IsSettled chart_values orders (obj ∷ objs) are_orders settled =
      rw
        (
          update_object-IsSettled chart_values (orders 0) obj (are_orders 0) settled.0,
          update_objects-IsSettled chart_values (λ n. orders (suc n)) objs (λ n. are_orders (suc n))
              settled.1,
        )
        refl

  -- A manifest is opened and not written, in whatever orders the map of values is ranged over for its
  -- objects, if each of them is no HelmChart, or is not to be changed, or counted as changed when it was
  -- updated with the map's values in some order, or has them all.
  pub rewrite_chart-settled :
      (to_objects : String → Result (List (Object u env)))
      (export : List (Object u env) → Result String) (files : ManifestFiles)
      (file_name text : String) (chart_values : Dict String) (orders : ℕ → Dict String)
      (objs : List (Object u env)) (s t : files.State)
      → ((n : ℕ) → IsOrderOf chart_values (orders n))
      → All (IsSettled chart_values) objs
      → files.open_file file_name s ≡ (ok text, t)
      → to_objects text ≡ ok objs
      → rewrite_chart u env to_objects export files file_name orders s ≡ (ok tt, t)
  unfolding rewrite_chart
  rewrite_chart-settled to_objects export files file_name text chart_values orders objs s t
        are_orders settled opened decoded =
      rw (opened, decoded, update_objects-IsSettled chart_values orders objs are_orders settled)
        refl
