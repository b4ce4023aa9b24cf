-- ===== src/Bootstrap/Charts/Laws.antt =====
-- pkg/bootstrap/bootstrap.go: what is set in a HelmChart.
use rke.Base.{
  Bool, true, false, String, none, some, [], ◌∷◌, ◌≡◌, ◌≢◌, refl, sym, ap, ◌∙◌, ◌=ₛ◌, eq_iff,
  eq_refl, All, Bool-cases, inl, inr, ◌⊎◌,
}
use mathlib.Core.Path.{subst}
use rke.Base.Dict.{Dict, lookup, DistinctKeys}
use rke.Base.Result.{Result, ok, err, Error}
use rke.Bootstrap.Charts.{Unstructured, Object, helm_chart, set_values}

-- What SetNestedField and NestedString are documented to do below spec.set.
pub record IsNested (u : Unstructured) : Type 0 where
  pub set_same :
      (k v : String) (c c' : u.Content)
      → u.set_nested_field k v c ≡ ok c'
      → u.nested_string k c' ≡ ok v
  pub set_other :
      (k j v : String) (c c' : u.Content)
      → k ≢ j
      → u.set_nested_field k v c ≡ ok c'
      → u.nested_string j c' ≡ u.nested_string j c

Result-cases : {A : Type 0} (r : Result A) → ((e : Error) × (r ≡ err e)) ⊎ ((a : A) × (r ≡ ok a))
Result-cases (err e) = inl (e, refl)
Result-cases (ok a) = inr (a, refl)

some≢none : {A : Type 0} {a : A} → some a ≡ none → ⊥
some≢none h = cc

some-injective : {A : Type 0} {a b : A} → some a ≡ some b → a ≡ b
some-injective h = cc

differs : (k j : String) → (k =ₛ j) ≡ false → k ≢ j
differs k j h e = absurd (let g = (eq_iff k j).1 e in cc)

module _ (u : Unstructured) (env : String) (laws : IsNested u) where
  -- A value that is there already is passed.
  set_values-there :
      (k v : String) (values : Dict String) (changed : Bool) (c : u.Content)
      → u.nested_string k c ≡ ok v
      → set_values u env ((k, v) ∷ values) changed c ≡ set_values u env values changed c
  unfolding set_values
  set_values-there k v values changed c read = rw (read, eq_refl v) refl

  -- The first value stops the setting, or is there already, or is set.
  set_values-cases :
      (k v : String) (values : Dict String) (c : u.Content)
      → ((changed : Bool) → set_values u env ((k, v) ∷ values) changed c ≡ (false, c))
        ⊎ ((u.nested_string k c ≡ ok v)
            ⊎ ((c' : u.Content) × (u.set_nested_field k v c ≡ ok c')
                × ((changed : Bool)
                    → set_values u env ((k, v) ∷ values) changed c
                      ≡ set_values u env values true c')))
  unfolding set_values
  set_values-cases k v values c = elim (Result-cases (u.nested_string k c)) [
    | inl (e, unread) ↦ inl (λ changed. rw unread refl)
    | inr (cv, read) ↦ elim (Bool-cases (cv =ₛ v)) [
      | inl equal ↦ inr (inl (read ∙ ap ok ((eq_iff cv v).0 equal)))
      | inr old ↦ elim (Result-cases (u.set_nested_field k v c)) [
        | inl (e, unset) ↦ inl (λ changed. rw (read, old, unset) refl)
        | inr (c', set) ↦ inr (inr (c', set, λ changed. rw (read, old, set) refl))
      ]
    ]
  ]

  -- A key that is not among the values is left as it is.
  set_values-other :
      (j : String) (values : Dict String) (changed : Bool) (c : u.Content)
      → lookup j values ≡ none
      → u.nested_string j ((set_values u env values changed c).1) ≡ u.nested_string j c
  unfolding set_values lookup
  set_values-other j [] changed c h = refl
  set_values-other j ((k, v) ∷ values) changed c h = elim (Bool-cases (k =ₛ j)) [
    | inl same ↦ absurd (some≢none (rw same at h))
    | inr differ ↦ elim (set_values-cases k v values c) [
      | inl stopped ↦ rw (stopped changed) refl
      | inr (inl there) ↦
          rw (set_values-there k v values changed c there)
            (set_values-other j values changed c (rw differ at h))
      | inr (inr (c', set, goes_on)) ↦ rw (goes_on changed) (
          set_values-other j values true c' (rw differ at h)
          ∙ laws.set_other k j v c c' (differs k j differ) set)
    ]
  ]

  pub helm_chart-injective :
      (c c' : u.Content) → ◌≡◌ {A = Object u env} (helm_chart c) (helm_chart c') → c ≡ c'
  helm_chart-injective c c' h = cc

  abbrev pub HasValues : Dict String → u.Content → Type 0
  HasValues values c = All (λ e. u.nested_string e.0 c ≡ ok e.1) values

  -- All values have been set, where the object counts as changed.
  pub set_values-HasValues :
      (values : Dict String) (changed : Bool) (c : u.Content)
      → DistinctKeys values
      → (set_values u env values changed c).0 ≡ true
      → HasValues values ((set_values u env values changed c).1)
  set_values-HasValues [] changed c distinct h = tt
  set_values-HasValues ((k, v) ∷ values) changed c distinct h =
      let P : Bool × u.Content → Type 0 = λ r. HasValues ((k, v) ∷ values) (r.1) in
      elim (set_values-cases k v values c) [
        | inl stopped ↦ absurd (let g = ap (λ r. r.0) (stopped changed) in cc)
        | inr (inl there) ↦
            let same = set_values-there k v values changed c there in
            subst P (sym same) (
              set_values-other k values changed c distinct.0 ∙ there,
              set_values-HasValues values changed c distinct.1 (ap (λ r. r.0) (sym same) ∙ h),
            )
        | inr (inr (c', set, goes_on)) ↦
            let same = goes_on changed in
            subst P (sym same) (
              set_values-other k values true c' distinct.0 ∙ laws.set_same k v c c' set,
              set_values-HasValues values true c' distinct.1 (ap (λ r. r.0) (sym same) ∙ h),
            )
      ]

  -- Values that are there already are all passed.
  pub set_values-passed :
      (values : Dict String) (changed : Bool) (c : u.Content)
      → HasValues values c
      → set_values u env values changed c ≡ (changed, c)
  unfolding set_values
  set_values-passed [] changed c h = refl
  set_values-passed ((k, v) ∷ values) changed c h =
      set_values-there k v values changed c h.0 ∙ set_values-passed values changed c h.1

  -- Every value of the map is set in the object.
  abbrev pub HasAll : Dict String → u.Content → Type 0
  HasAll chart_values c =
      (k v : String) → lookup k chart_values ≡ some v → u.nested_string k c ≡ ok v

  pub HasValues-HasAll :
      (values : Dict String) (c : u.Content) → HasValues values c → HasAll values c
  unfolding lookup
  HasValues-HasAll [] c h j w found = absurd cc
  HasValues-HasAll ((k, v) ∷ values) c h j w found = elim (Bool-cases (k =ₛ j)) [
    | inl same ↦
        let value = some-injective (rw same at found) in
        subst (λ x. u.nested_string x c ≡ ok w) ((eq_iff k j).0 same) (h.0 ∙ ap ok value)
    | inr differ ↦ HasValues-HasAll values c h.1 j w (rw differ at found)
  ]

  pub HasAll-HasValues :
      (values : Dict String) (c : u.Content)
      → DistinctKeys values
      → HasAll values c
      → HasValues values c
  unfolding lookup
  HasAll-HasValues [] c distinct h = tt
  HasAll-HasValues ((k, v) ∷ values) c distinct h = (
    h k v (rw (eq_refl k) refl),
    HasAll-HasValues values c distinct.1 (λ j w found. elim (Bool-cases (k =ₛ j)) [
      | inl same ↦ absurd (
          some≢none
            (sym found ∙ ap (λ x. lookup x values) (sym ((eq_iff k j).0 same)) ∙ distinct.0))
      | inr differ ↦ h j w (rw differ found)
    ]),
  )
