-- ===== src/Podtemplate/Assignment/Targets.antt =====
-- pkg/podtemplate/config.go: the nested loops over maps of pointers to the fields of a struct. Go ranges
-- over a map in any order; the theorem is about every order that reaches all targets.
use rke.Base.{Option, none, some, List, [], ◌∷◌, ◌≡◌, ◌⊎◌, inl, inr, refl, ap, ◌∙◌}

-- The value found for a target: the parsed one, else the default one, else none.
abbrev pub or_default {ℓ} : {A : Type ℓ} → Option A → Option A → Option A
or_default (some value) default = some value
or_default none default = default

abbrev pub value_or {ℓ} : {A : Type ℓ} → Option A → A → A
value_or (some value) old = value
value_or none old = old

value_or_idem {ℓ} : {A : Type ℓ} (o : Option A) (a : A) → value_or o (value_or o a) ≡ value_or o a
value_or_idem none a = refl
value_or_idem (some v) a = refl

abbrev pub Listed : {T : Type 0} → T → List T → Type 0
Listed t [] = ⊥
Listed t (u ∷ order) = (t ≡ u) ⊎ Listed t order

module _ {T S A : Type 0} (assign : T → A → S → S) (found : T → Option A) where
  abbrev assign_if : T → Option A → S → S
  assign_if t none s = s
  assign_if t (some value) s = assign t value s

  -- The loops, over the targets in some order.
  unfoldable pub assign_all : List T → S → S
  assign_all [] s = s
  assign_all (t ∷ order) s = assign_all order (assign_if t (found t) s)

module _ {T S A : Type 0} (assign : T → A → S → S) (found : T → Option A) (field : T → S → A)
    (self : (t : T) (v : A) (s : S) → field t (assign t v s) ≡ v)
    (other : (t u : T) (v : A) (s : S) → (t ≡ u) ⊎ (field t (assign u v s) ≡ field t s)) where
  assign_if_self :
      (t : T) (o : Option A) (s : S)
      → field t (assign_if assign found t o s) ≡ value_or o (field t s)
  assign_if_self t none s = refl
  assign_if_self t (some v) s = self t v s

  assign_if_other :
      (t u : T) (o : Option A) (s : S)
      → (t ≡ u) ⊎ (field t (assign_if assign found u o s) ≡ field t s)
  assign_if_other t u none s = inr refl
  assign_if_other t u (some v) s = other t u v s

  -- The field of the target at hand after one round, or of another.
  assign_if_step :
      (t u : T) (s : S)
      → (field t (assign_if assign found u (found u) s) ≡ value_or (found t) (field t s))
        ⊎ (field t (assign_if assign found u (found u) s) ≡ field t s)
  assign_if_step t u s = elim (assign_if_other t u (found u) s) [
    | inl same ↦ inl (rw (← same) (assign_if_self t (found t) s))
    | inr kept ↦ inr kept
  ]

  assign_all_settled :
      (t : T) (order : List T) (s : S)
      → value_or (found t) (field t s) ≡ field t s
      → field t (assign_all assign found order s) ≡ field t s
  unfolding assign_all
  assign_all_settled t [] s h = refl
  assign_all_settled t (u ∷ order) s h =
      let s' = assign_if assign found u (found u) s in
      let e : field t s' ≡ field t s = elim (assign_if_step t u s) [ inl a ↦ a ∙ h | inr k ↦ k ] in
      assign_all_settled t order s' (rw e h) ∙ e

  -- After the loops every target that was reached holds the value found for it, if there is one.
  pub field-assign_all :
      (t : T) (order : List T) (s : S)
      → Listed t order
      → field t (assign_all assign found order s) ≡ value_or (found t) (field t s)
  unfolding assign_all
  field-assign_all t [] s l = absurd l
  field-assign_all t (u ∷ order) s (inl e) =
      let s' = assign_if assign found u (found u) s in
      let e' : field t s' ≡ value_or (found t) (field t s) =
        rw (← e) (assign_if_self t (found t) s) in
      assign_all_settled t order s' (rw e' (value_or_idem (found t) (field t s))) ∙ e'
  field-assign_all t (u ∷ order) s (inr l) =
      let s' = assign_if assign found u (found u) s in
      field-assign_all t order s' l ∙ elim (assign_if_step t u s) [
        | inl a ↦ ap (value_or (found t)) a ∙ value_or_idem (found t) (field t s)
        | inr k ↦ ap (value_or (found t)) k
      ]
