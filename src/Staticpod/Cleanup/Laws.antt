-- ===== src/Staticpod/Cleanup/Laws.antt =====
-- pkg/executor/staticpod/cleanup.go: what a poll keeps in its list, and what it removes.
use rke.Base.{
  or_true, ℕ, zero, suc, Bool, true, false, String, List, [], ◌∷◌, ◌≡◌, refl, ◌∙◌, any, All, eq_iff,
  eq_refl, Bool-cases, inl, inr, length, ◌=ₛ◌,
}
use rke.Base.Result.{Result, ok, err}
use rke.Staticpod.Cleanup.{
  Sandbox, Cri, Targets, is_pod_of, without, check, element, visit, poll, poll_listed, listed_from,
  start, is_empty,
}

abbrev pub is_in : String → List String → Bool
is_in c = any (λ d. d =ₛ c)

is_in-without :
    (c d : String) (l : List String) → (d =ₛ c) ≡ false → is_in c (without d l) ≡ is_in c l
is_in-without c d [] other = refl
is_in-without c d (x ∷ xs) other =
    let rest = is_in-without c d xs other in
    elim (Bool-cases (x =ₛ d)) [
      | inl same ↦
          let x_other : (x =ₛ c) ≡ false = rw ((eq_iff x d).0 same) other in rw (same, x_other) rest
      | inr differ ↦ rw (differ, rest) refl
    ]

All-in : {P : String → Type 0} (l : List String) → ((c : String) → is_in c l ≡ true → P c) → All P l
All-in [] every = tt
All-in (x ∷ xs) every =
    (every x (rw (eq_refl x) refl), All-in xs (λ c h. every c (rw h (or_true (x =ₛ c)))))

module _ (cri : Cri) (items : List Sandbox) where
  check-is_in :
      (c d : String) (t : Targets)
      → any (is_pod_of c) items ≡ true
      → is_in c (check cri items d t).live ≡ is_in c t.live
  check-is_in c d t running = elim (Bool-cases (any (is_pod_of d) items)) [
    | inl found ↦ rw found refl
    | inr none_found ↦ rw none_found (
        is_in-without c d t.live (elim (Bool-cases (d =ₛ c)) [
          | inl same ↦ absurd (let e = (eq_iff d c).0 same in let n = none_found in cc)
          | inr differ ↦ differ
        ]))
  ]

  visit-is_in :
      (c : String) (remaining i : ℕ) (t : Targets) (s : cri.State)
      → any (is_pod_of c) items ≡ true
      → is_in c ((visit cri items remaining i t s).0).live ≡ is_in c t.live
  unfolding visit
  visit-is_in c zero i t s running = refl
  visit-is_in c (suc remaining) i t s running =
      visit-is_in c remaining (suc i) _ _ running ∙ check-is_in c (element t i) t running

not_in_empty : (c : String) (l : List String) → is_empty l ≡ true → is_in c l ≡ true → ⊥
not_in_empty c [] empty h = cc
not_in_empty c (x ∷ xs) empty h = cc

module _ (cri : Cri) where
  none_running :
      (components : List String) (items : List Sandbox) (s : cri.State)
      → is_empty ((visit cri items (length components) 0 (start components) s).0).live ≡ true
      → All (λ c. any (is_pod_of c) items ≡ false) components
  none_running components items s over =
      let end = (visit cri items (length components) 0 (start components) s).0 in
      All-in components (λ c h. elim (Bool-cases (any (is_pod_of c) items)) [
        | inl running ↦ absurd (
            not_in_empty c end.live over
              (visit-is_in cri items c (length components) 0 (start components) s running ∙ h))
        | inr gone ↦ gone
      ])

  -- When a poll says that it is done, the runtime has listed its pods, and none of them is a pod from a
  -- file with a component of the list.
  pub poll-done :
      (components : List String) (s : cri.State)
      → (poll cri components s).0 ≡ true
      → (items : List Sandbox) × (listed_from cri s ≡ ok items)
        × All (λ c. any (is_pod_of c) items ≡ false) components
  unfolding poll
  poll-done components s h = from (listed_from cri s) refl h
    where
      from :
          (r : Result (List Sandbox))
          → listed_from cri s ≡ r
          → (poll_listed cri components r s).0 ≡ true
          → (items : List Sandbox) × (listed_from cri s ≡ ok items)
            × All (λ c. any (is_pod_of c) items ≡ false) components
      from (ok items) e h = (items, e, none_running components items s h)
      from (err x) e h = absurd cc
