-- ===== src/Staticpod/Cleanup/Stale.antt =====
-- pkg/executor/staticpod/cleanup.go: the elements that a poll reads behind those it has deleted.
use rke.Base.{
  ℕ, zero, suc, ◌+◌, ◌-◌, false, String, List, [], ◌∷◌, ◌++◌, ◌≡◌, refl, sym, ap, ◌≤◌, any, arith,
  eq_refl, Bool-cases, inl, inr, length, length-append, get_elem?-append, ◌=ₛ◌,
}
use rke.Base.Result.{ok}
use rke.Staticpod.Cleanup.{
  Sandbox, Cri, Targets, is_pod_of, without, zeroed, delete, check, element, remove_pods, visit,
  poll, listed_from, start, value_or_empty,
}

-- The array has n + 1 elements, and the last one is empty and beyond the slice.
abbrev EndsZeroed : ℕ → Targets → Type 0
EndsZeroed n t = (p : List String) × (t.beyond ≡ p ++ ("" ∷ [])) × (length t.live + length p ≡ n)

pub length-without : (c : String) (l : List String) → length (without c l) ≤ length l
length-without c [] = omega arith
length-without c (x ∷ xs) =
    let rest = length-without c xs in
    elim (Bool-cases (x =ₛ c)) [
      | inl same ↦ rw same (omega (arith, rest))
      | inr differ ↦ rw differ (omega (arith, rest))
    ]

length-zeroed : (n : ℕ) → length (zeroed n) ≡ n
length-zeroed zero = refl
length-zeroed (suc n) = ap suc (length-zeroed n)

append_assoc : (xs ys zs : List String) → (xs ++ ys) ++ zs ≡ xs ++ (ys ++ zs)
append_assoc [] ys zs = refl
append_assoc (x ∷ xs) ys zs = ap (λ l. x ∷ l) (append_assoc xs ys zs)

delete-EndsZeroed : (n : ℕ) (c : String) (t : Targets) → EndsZeroed n t → EndsZeroed n (delete c t)
delete-EndsZeroed n c t (p, e, h) =
    let z = zeroed (length t.live - length (without c t.live)) in
    (
      z ++ p,
      rw e (sym (append_assoc z p ("" ∷ []))),
      omega (
        arith,
        h,
        length-append z p,
        length-zeroed (length t.live - length (without c t.live)),
        length-without c t.live,
      ),
    )

element-EndsZeroed : (n : ℕ) (t : Targets) → EndsZeroed n t → element t n ≡ ""
element-EndsZeroed n t (p, e, h) =
    let shape : t.live ++ t.beyond ≡ (t.live ++ p) ++ ("" ∷ []) =
      rw e (sym (append_assoc t.live p ("" ∷ []))) in
    let last : n ≡ length (t.live ++ p) = omega (arith, h, length-append t.live p) in
    rw (shape, last) (ap value_or_empty (get_elem?-append (t.live ++ p) "" []))

append_nil : (xs : List String) → xs ++ [] ≡ xs
append_nil [] = refl
append_nil (x ∷ xs) = ap (λ l. x ∷ l) (append_nil xs)

zeroed_last : (k : ℕ) → zeroed (suc k) ≡ zeroed k ++ ("" ∷ [])
zeroed_last zero = refl
zeroed_last (suc k) = ap (λ l. "" ∷ l) (zeroed_last k)

module _ (cri : Cri) (items : List Sandbox) where
  check-EndsZeroed :
      (n : ℕ) (c : String) (t : Targets) → EndsZeroed n t → EndsZeroed n (check cri items c t)
  check-EndsZeroed n c t h = elim (Bool-cases (any (is_pod_of c) items)) [
    | inl found ↦ rw found h
    | inr missing ↦ rw missing (delete-EndsZeroed n c t h)
  ]

  visit_last :
      (remaining i : ℕ) (t : Targets) (s : cri.State)
      → EndsZeroed (i + remaining) t
      → (s' : cri.State) × ((visit cri items (suc remaining) i t s).1 ≡ remove_pods cri "" items s')
  unfolding visit
  visit_last zero i t s h =
      let last : EndsZeroed i t = (h.0, h.1, omega (arith, h.2)) in
      (s, ap (λ c. remove_pods cri c items s) (element-EndsZeroed i t last))
  visit_last (suc remaining) i t s h =
      let next : EndsZeroed (suc i + remaining) t = (h.0, h.1, omega (arith, h.2)) in
      visit_last remaining (suc i) _ _ (check-EndsZeroed _ (element t i) t next)

-- The first element is deleted, and there is another one.
delete_first-EndsZeroed :
    (a b : String) (rest : List String)
    → EndsZeroed (suc (length rest)) (delete a (start (a ∷ b ∷ rest)))
delete_first-EndsZeroed a b rest =
    let left = without a (b ∷ rest) in
    let k = suc (length rest) - length left in
    let bound = length-without a (b ∷ rest) in
    let total : suc (suc (length rest)) - length left ≡ suc k = omega (arith, bound) in
    rw (eq_refl a) (
      zeroed k,
      rw (total, append_nil (zeroed (suc k))) (zeroed_last k),
      omega (arith, bound, length-zeroed k),
    )

visit-unlabelled :
    (cri : Cri) (a b : String) (rest : List String) (items : List Sandbox) (s : cri.State)
    → any (is_pod_of a) items ≡ false
    → (s' : cri.State) × ((visit cri items (suc (suc (length rest))) 0 (start (a ∷ b ∷ rest)) s).1
        ≡ remove_pods cri "" items s')
unfolding visit
visit-unlabelled cri a b rest items s gone =
    let t = check cri items a (start (a ∷ b ∷ rest)) in
    let deleted : t ≡ delete a (start (a ∷ b ∷ rest)) = rw gone refl in
    let h = delete_first-EndsZeroed a b rest in
    visit_last cri items (length rest) 1 t (remove_pods cri a items s)
      (rw deleted (h.0, h.1, omega (arith, h.2)))

-- If no pod of the first component is listed, and there is another component, then a poll ends by
-- removing the listed pods from a file whose component label is missing or empty.
pub poll-unlabelled :
    (cri : Cri) (a b : String) (rest : List String) (items : List Sandbox) (s : cri.State)
    → listed_from cri s ≡ ok items
    → any (is_pod_of a) items ≡ false
    → (s' : cri.State) × ((poll cri (a ∷ b ∷ rest) s).1.1 ≡ remove_pods cri "" items s')
unfolding poll
poll-unlabelled cri a b rest items s listed gone =
    let v = visit-unlabelled cri a b rest items s gone in (v.0, rw listed v.1)
