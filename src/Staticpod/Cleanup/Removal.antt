-- ===== src/Staticpod/Cleanup/Removal.antt =====
-- pkg/executor/staticpod/cleanup.go: which pods a poll removes.
use rke.Base.{
  ℕ, zero, suc, ◌-◌, true, false, Bool, ◌&&◌, String, List, [], ◌∷◌, ◌++◌, ◌≡◌, ◌⊎◌, refl, any, All,
  All-append, eq_iff, eq_refl, Bool-cases, inl, inr, length, get_elem?, ◌=ₛ◌, sym,
}
use mathlib.Core.Path.{subst}
use rke.Base.Result.{Result, ok, err}
use rke.Staticpod.Cleanup.{
  Sandbox, Cri, Targets, is_pod_of, is_file_pod, component_of, without, zeroed, check, element,
  remove_pods, visit, poll, poll_listed, listed_from, start, value_or_empty,
}
use rke.Staticpod.Cleanup.Laws.{is_in}

-- A component of the list, or the empty text.
abbrev IsKnown : List String → String → Type 0
IsKnown components c = (c ≡ "") ⊎ (is_in c components ≡ true)

and_true : (a b : Bool) → (a && b) ≡ true → (a ≡ true) × (b ≡ true)
and_true true b h = (refl, h)
and_true false b h = absurd cc

split :
    (c : String) (pod : Sandbox)
    → is_pod_of c pod ≡ true
    → ((component_of pod =ₛ c) ≡ true) × (is_file_pod pod ≡ true)
split c pod h = and_true (component_of pod =ₛ c) (is_file_pod pod) h

-- Of the array of a slice, every element is such a one.
abbrev AllKnown : List String → Targets → Type 0
AllKnown components t = All (IsKnown components) t.live × All (IsKnown components) t.beyond

All-without : (P : String → Type 0) (c : String) (l : List String) → All P l → All P (without c l)
All-without P c [] h = tt
All-without P c (x ∷ xs) h = elim (Bool-cases (x =ₛ c)) [
  | inl same ↦ rw same (All-without P c xs h.1)
  | inr differ ↦ rw differ (h.0, All-without P c xs h.1)
]

All-zeroed : (components : List String) (n : ℕ) → All (IsKnown components) (zeroed n)
All-zeroed components zero = tt
All-zeroed components (suc n) = (inl refl, All-zeroed components n)

element-IsKnown :
    (components l : List String) (i : ℕ)
    → All (IsKnown components) l
    → IsKnown components (value_or_empty (get_elem? l i))
element-IsKnown components [] i h = inl refl
element-IsKnown components (x ∷ xs) zero h = h.0
element-IsKnown components (x ∷ xs) (suc i) h = element-IsKnown components xs i h.1

All-map : {P Q : String → Type 0} (l : List String) → ((c : String) → P c → Q c) → All P l → All Q l
All-map [] f h = tt
All-map (x ∷ xs) f h = (f x h.0, All-map xs f h.1)

All-IsKnown : (components : List String) → All (IsKnown components) components
All-IsKnown [] = tt
All-IsKnown (x ∷ xs) = (
  inr (rw (eq_refl x) refl),
  All-map xs
      (λ c known. elim known [
        | inl empty ↦ inl empty
        | inr listed ↦
            inr (elim (Bool-cases (x =ₛ c)) [
              | inl same ↦ rw same refl
              | inr differ ↦ rw differ listed
            ])
      ])
      (All-IsKnown xs),
)

module _ {ℓ} (cri : Cri) (components : List String) (IsListed : Sandbox → Type 0)
    (P : cri.State → Type ℓ)
    (keeps : (pod : Sandbox) (s : cri.State)
      → IsListed pod
      → is_file_pod pod ≡ true
      → (component_of pod ≡ "") ⊎ (is_in (component_of pod) components ≡ true)
      → P s
      → P ((cri.remove_pod_sandbox pod.id s).1)) where
  remove_pods-keeps :
      (c : String) (items : List Sandbox) (s : cri.State)
      → IsKnown components c
      → All IsListed items
      → P s
      → P (remove_pods cri c items s)
  remove_pods-keeps c [] s known listed p = p
  remove_pods-keeps c (pod ∷ pods) s known listed p = elim (Bool-cases (is_pod_of c pod)) [
    | inl theirs ↦ rw theirs (
        remove_pods-keeps c pods _ known listed.1 (
          keeps pod s listed.0 (split c pod theirs).1
            (subst (IsKnown components)
              (sym ((eq_iff (component_of pod) c).0 (split c pod theirs).0)) known)
            p))
    | inr other ↦ rw other (remove_pods-keeps c pods s known listed.1 p)
  ]

  check-known :
      (items : List Sandbox) (c : String) (t : Targets)
      → AllKnown components t
      → AllKnown components (check cri items c t)
  check-known items c t h = elim (Bool-cases (any (is_pod_of c) items)) [
    | inl found ↦ rw found h
    | inr missing ↦ rw missing (
      All-without (IsKnown components) c t.live h.0,
      All-append (IsKnown components) (zeroed (length t.live - length (without c t.live))) t.beyond
          (All-zeroed components (length t.live - length (without c t.live))) h.1,
    )
  ]

  visit-keeps :
      (items : List Sandbox) (remaining i : ℕ) (t : Targets) (s : cri.State)
      → All IsListed items
      → AllKnown components t
      → P s
      → P ((visit cri items remaining i t s).1)
  unfolding visit
  visit-keeps items zero i t s listed known p = p
  visit-keeps items (suc remaining) i t s listed known p =
      visit-keeps items remaining (suc i) _ _ listed (check-known items (element t i) t known) (
        remove_pods-keeps (element t i) items s
          (element-IsKnown components (t.live ++ t.beyond) i
            (All-append (IsKnown components) t.live t.beyond known.0 known.1))
          listed p)

  -- Whatever is kept by the removal of a listed pod from a file, whose component is one of the list or
  -- whose component label is missing or empty, is kept by a poll.
  pub poll-keeps :
      (s : cri.State)
      → ((items : List Sandbox) → listed_from cri s ≡ ok items → All IsListed items)
      → P s
      → P ((poll cri components s).1.1)
  unfolding poll
  poll-keeps s named p = from (listed_from cri s) named
    where
      from :
          (r : Result (List Sandbox))
          → ((items : List Sandbox) → r ≡ ok items → All IsListed items)
          → P ((poll_listed cri components r s).1.1)
      from (ok items) named =
          visit-keeps items (length components) 0 (start components) s (named items refl)
            (All-IsKnown components, tt) p
      from (err e) named = p
