-- ===== src/Staticpod/ApiServer/Loop.antt =====
-- pkg/executor/staticpod/staticpod.go: rounds of the loop over arguments that it does not remove.
use rke.Base.{
  ℕ, zero, suc, ◌+◌, ◌≤◌, ◌<◌, String, some, List, [], ◌∷◌, ◌≡◌, refl, ap, ◌∙◌, arith, Bool, true,
  length, get_elem?, take, drop, All,
}
use rke.Staticpod.ApiServer.{
  LoopState, Action, drop_it, move_etcd, keep, audit_path, address_types, action, perform, loop,
}

abbrev pub Keeps : Action → Type 0
Keeps drop_it = ⊥
Keeps move_etcd = ⊥
Keeps _ = Unit

-- An argument that the loop leaves in its place.
abbrev pub IsKept : Bool → String → Type 0
IsKept external arg = Keeps (action external arg)

module _ {A : Type 0} where
  pub drop-cons :
      (i : ℕ) (xs : List A)
      → i < length xs
      → (x : A) × (get_elem? xs i ≡ some x) × (drop i xs ≡ x ∷ drop (suc i) xs)
  drop-cons i [] l = absurd (omega arith)
  drop-cons zero (x ∷ xs) l = (x, refl, refl)
  drop-cons (suc i) (x ∷ xs) l = drop-cons i xs (omega arith)

module _ (external : Bool) (data_dir : String) where
  perform-kept :
      (a : Action) (i : ℕ) (st : LoopState)
      → Keeps a
      → (st' : LoopState) × (perform external data_dir a i st ≡ some st')
        × (st'.array ≡ st.array)
        × (st'.args ≡ st.args)
  unfolding perform
  perform-kept drop_it i st h = absurd h
  perform-kept move_etcd i st h = absurd h
  perform-kept keep i st h = (st, refl, refl, refl)
  perform-kept (audit_path value) i st h = (record st { audit_log_file = value }, refl, refl, refl)
  perform-kept address_types i st h = (record st { address_types_found = true }, refl, refl, refl)

  -- Rounds over arguments that are kept change neither the array nor `args`, and do not panic.
  pub loop-kept :
      (k rounds i : ℕ) (st : LoopState)
      → All (IsKept external) (take k (drop i st.array))
      → i + k ≤ length st.array
      → (st' : LoopState) × (loop external data_dir (k + rounds) i st
          ≡ loop external data_dir rounds (i + k) st')
        × (st'.array ≡ st.array)
        × (st'.args ≡ st.args)
  unfolding loop
  loop-kept zero rounds i st h l =
      let e : ◌≡◌ {A = ℕ} (0 + rounds) rounds = omega arith in
      let e' : i + 0 ≡ i = omega arith in (st, rw (e, e'), refl, refl)
  loop-kept (suc k) rounds i st h l =
      let (arg, here, rest) = drop-cons i st.array (omega arith) in
      let (kept, later) = rw rest at h in
      let (m, done, same_array, same_args) = perform-kept (action external arg) i st kept in
      let (st', after, e, e') =
        loop-kept k rounds (suc i) m (rw same_array later) (rw same_array (omega arith)) in
      let count : suc k + rounds ≡ suc (k + rounds) = omega arith in
      let index : suc i + k ≡ i + suc k = omega arith in
      (
        st',
        rw (count, here, done) (after ∙ ap (λ n. loop external data_dir rounds n st') index),
        e ∙ same_array,
        e' ∙ same_args,
      )
