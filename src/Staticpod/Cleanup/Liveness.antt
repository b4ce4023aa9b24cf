-- ===== src/Staticpod/Cleanup/Liveness.antt =====
-- pkg/executor/staticpod/cleanup.go: the polls end when the pods are gone.
use rke.Base.{
  ℕ, zero, suc, ◌≤◌, ◌<◌, true, false, String, some, List, [], ◌∷◌, ◌≡◌, refl, any, arith, eq_refl,
  Bool-cases, inl, inr, length, sym, ◌∙◌, ◌=ₛ◌, ◌&&◌, Bool,
}
use rke.Base.Result.{ok}
use rke.Staticpod.Cleanup.{
  Sandbox, Cri, Targets, Event, poll_due, is_pod_of, is_file_pod, component_of, check, element,
  remove_pods, visit, poll, listed_from, start, is_empty, await,
}
use rke.Staticpod.Cleanup.Stale.{length-without}

-- None of the sandboxes is a pod from a file.
abbrev pub NoFilePod : List Sandbox → Type 0
NoFilePod [] = Unit
NoFilePod (pod ∷ pods) = (is_file_pod pod ≡ false) × NoFilePod pods

and_false : (a b : Bool) → b ≡ false → (a && b) ≡ false
and_false true b h = h
and_false false b h = refl

other_pod : (c : String) (pod : Sandbox) → is_file_pod pod ≡ false → is_pod_of c pod ≡ false
other_pod c pod h = and_false (component_of pod =ₛ c) (is_file_pod pod) h

some_left : (l : List String) → is_empty l ≡ false → 0 < length l
some_left [] h = absurd cc
some_left (x ∷ xs) h = omega arith

module _ (cri : Cri) where
  no_pod_of :
      (items : List Sandbox) (c : String) → NoFilePod items → any (is_pod_of c) items ≡ false
  no_pod_of [] c h = refl
  no_pod_of (pod ∷ pods) c h = let rest = no_pod_of pods c h.1 in rw (other_pod c pod h.0) rest

  remove_pods-none :
      (items : List Sandbox) (c : String) (s : cri.State)
      → NoFilePod items
      → remove_pods cri c items s ≡ s
  remove_pods-none [] c s h = refl
  remove_pods-none (pod ∷ pods) c s h =
      let rest = remove_pods-none pods c s h.1 in rw (other_pod c pod h.0) rest

  check-shrinks :
      (items : List Sandbox) (c : String) (t : Targets)
      → length (check cri items c t).live ≤ length t.live
  check-shrinks items c t = elim (Bool-cases (any (is_pod_of c) items)) [
    | inl found ↦ rw found (omega arith)
    | inr missing ↦ rw missing (length-without c t.live)
  ]

  check_first :
      (items : List Sandbox) (a : String) (rest : List String)
      → NoFilePod items
      → length (check cri items a (start (a ∷ rest))).live ≤ length rest
  check_first items a rest h = rw (no_pod_of items a h, eq_refl a) (length-without a rest)

  visit-shrinks :
      (items : List Sandbox) (remaining i : ℕ) (t : Targets) (s : cri.State)
      → NoFilePod items
      → (length ((visit cri items remaining i t s).0).live ≤ length t.live)
        × ((visit cri items remaining i t s).1 ≡ s)
  unfolding visit
  visit-shrinks items zero i t s h = (omega arith, refl)
  visit-shrinks items (suc remaining) i t s h =
      let c = element t i in
      let rest =
        visit-shrinks items remaining (suc i) (check cri items c t) (remove_pods cri c items s) h in
      (omega (arith, rest.0, check-shrinks items c t), rest.1 ∙ remove_pods-none items c s h)

  -- A poll with a component to look for finds nothing, removes nothing, and drops the first one.
  poll-shrinks :
      (a : String) (rest : List String) (items : List Sandbox) (s : cri.State)
      → listed_from cri s ≡ ok items
      → NoFilePod items
      → (length ((poll cri (a ∷ rest) s).1.0) ≤ length rest)
        × ((poll cri (a ∷ rest) s).1.1 ≡ s)
        × ((poll cri (a ∷ rest) s).0 ≡ is_empty ((poll cri (a ∷ rest) s).1.0))
  unfolding poll visit
  poll-shrinks a rest items s listed h =
      let t = check cri items a (start (a ∷ rest)) in
      let left = visit-shrinks items (length rest) 1 t (remove_pods cri a items s) h in
      let first : length t.live ≤ length rest = check_first items a rest h in
      rw listed (omega (arith, left.0, first), left.1 ∙ remove_pods-none items a s h, refl)

  poll-nil :
      (items : List Sandbox) (s : cri.State)
      → listed_from cri s ≡ ok items
      → (poll cri [] s).0 ≡ true
  unfolding poll visit
  poll-nil items s listed = rw listed refl

  abbrev polls : ℕ → List (Event cri) → List (Event cri)
  polls zero events = events
  polls (suc n) events = poll_due ∷ polls n events

  -- If the runtime lists no pod from a file, then at least one poll, and as many as there are
  -- components, end the wait without an error.
  pub await-polls :
      (n : ℕ) (components : List String) (events : List (Event cri)) (items : List Sandbox)
      (s : cri.State)
      → listed_from cri s ≡ ok items
      → NoFilePod items
      → length components ≤ n
      → 0 < n
      → await cri (polls n events) components s ≡ some (ok tt)
  unfolding await
  await-polls zero components events items s listed h enough some_poll =
      absurd (omega (arith, some_poll))
  await-polls (suc n) [] events items s listed h enough some_poll =
      rw (poll-nil items s listed) refl
  await-polls (suc n) (a ∷ rest) events items s listed h enough some_poll =
      let p = poll-shrinks a rest items s listed h in
      let left = (poll cri (a ∷ rest) s).1.0 in
      elim (Bool-cases (poll cri (a ∷ rest) s).0) [
        | inl over ↦ rw over refl
        | inr more ↦
            let l = some_left left (sym p.2 ∙ more) in
            rw (more, p.1)
              (await-polls n left events items s listed h (omega (arith, enough, p.0))
                (omega (arith, enough, p.0, l)))
      ]
