-- ===== src/Policies/Client.antt =====
-- The client of the Kubernetes API as pkg/rke2 uses it, and retry of client-go; neither is part of this
-- program. A call may change the cluster also where it fails, and what others change meanwhile.
use rke.Base.{Bool, true, false, String, ◌≡◌, refl, ap, sym, ◌∙◌}
use mathlib.Core.Path.{subst}

pub data ApiError : Type 0 where
  not_found already_exists conflict : ApiError
  other : String → ApiError
  -- fmt.Errorf around an error. No caller asks for the kind of such a one.
  formatted : String → ApiError → ApiError

pub data Reply {ℓ} (A : Type ℓ) : Type ℓ where
  done : A → Reply A
  failed : ApiError → Reply A

-- apierrors.IsNotFound, IsAlreadyExists and IsConflict.
abbrev pub is_not_found : ApiError → Bool
is_not_found not_found = true
is_not_found _ = false

abbrev pub is_already_exists : ApiError → Bool
is_already_exists already_exists = true
is_already_exists _ = false

abbrev pub is_conflict : ApiError → Bool
is_conflict conflict = true
is_conflict _ = false

abbrev pub Call {ℓ κ} : Type ℓ → Type κ → Type (ℓ ⊔ κ)
Call S A = S → Reply A × S

abbrev pub proceed {ℓ κ μ} :
    {S T : Type ℓ} {A : Type κ} {B : Type μ}
    → Reply A × S
    → (A → S → Reply B × T)
    → (ApiError → S → Reply B × T)
    → Reply B × T
proceed (done a, s) next catch = next a s
proceed (failed e, s) next catch = catch e s

abbrev pub return {ℓ κ} : {S : Type ℓ} {A : Type κ} → A → Call S A
return a s = (done a, s)

abbrev pub throw {ℓ κ} : {S : Type ℓ} {A : Type κ} → ApiError → Call S A
throw e s = (failed e, s)

pub failed≢done {ℓ} : {A : Type ℓ} {e : ApiError} {a : A} → failed e ≡ done a → ⊥
failed≢done h = cc

-- One run of a call after another, each but the last one ending with an error that is retried.
pub data Runs {ℓ κ} {S : Type ℓ} {A : Type κ} (again : ApiError → Bool) (f : Call S A)
    : S → Reply A × S → Type (ℓ ⊔ κ) where
  once : (s : S) → Runs again f s (f s)
  retried :
      (s t : S) (e : ApiError) (end : Reply A × S)
      → f s ≡ (failed e, t)
      → again e ≡ true
      → Runs again f t end
      → Runs again f s end

-- retry.OnError: how often it runs is not said here, only that it does so once at least.
pub record Retry {ℓ} (S : Type ℓ) : Type ℓ where
  pub on_error : (ApiError → Bool) → Call S (Unit {0}) → Call S (Unit {0})
  pub runs :
      (again : ApiError → Bool) (f : Call S (Unit {0})) (s : S)
      → Runs again f s (on_error again f s)

-- What ends the runs is the result of one of them.
pub Runs-last {ℓ κ} :
    {S : Type ℓ} {A : Type κ} (again : ApiError → Bool) (f : Call S A) (s : S) (end : Reply A × S)
    → Runs again f s end
    → (t : S) × (f t ≡ end)
Runs-last again f _ _ (once s) = (s, refl)
Runs-last again f _ _ (retried s t e end h r rest) = Runs-last again f t end rest

-- The last run starts where whatever each run keeps still holds.
pub Runs-last-keeps {ℓ κ μ} :
    {S : Type ℓ} {A : Type κ} (P : S → Type μ) (again : ApiError → Bool) (f : Call S A)
    → ((s : S) → P s → P ((f s).1))
    → (s : S) (end : Reply A × S) → Runs again f s end
    → P s
    → (t : S) × (f t ≡ end) × P t
Runs-last-keeps P again f keeps _ _ (once s) p = (s, refl, p)
Runs-last-keeps P again f keeps _ _ (retried s t e end h r rest) p =
    Runs-last-keeps P again f keeps t end rest (subst P (ap (λ q. q.1) h) (keeps s p))

-- What is kept by one run is kept by all of them.
pub Runs-keeps {ℓ κ μ} :
    {S : Type ℓ} {A : Type κ} (P : S → Type μ) (again : ApiError → Bool) (f : Call S A)
    → ((s : S) → P s → P ((f s).1))
    → (s : S) (end : Reply A × S) → Runs again f s end
    → P s
    → P (end.1)
Runs-keeps P again f keeps _ _ (once s) p = keeps s p
Runs-keeps P again f keeps _ _ (retried s t e end h r rest) p =
    Runs-keeps P again f keeps t end rest (subst P (ap (λ q. q.1) h) (keeps s p))

-- A first run without an error is the only one.
pub Runs-done {ℓ κ} :
    {S : Type ℓ} {A : Type κ} (again : ApiError → Bool) (f : Call S A) (s : S) (end : Reply A × S)
    {a : A} {u : S}
    → Runs again f s end
    → f s ≡ (done a, u)
    → end ≡ (done a, u)
Runs-done again f _ _ (once s) d = d
Runs-done again f _ _ (retried s t e end h r rest) d =
    absurd (failed≢done (sym (ap (λ q. q.0) h) ∙ ap (λ q. q.0) d))

-- What holds of both continuations holds of a call that is continued.
pub proceed-either {ℓ κ μ ν} :
    {S T : Type ℓ} {A : Type κ} {B : Type μ} (P : Reply B × T → Type ν) (r : Reply A × S)
    (next : A → S → Reply B × T) (catch : ApiError → S → Reply B × T)
    → ((a : A) (s : S) → r ≡ (done a, s) → P (next a s))
    → ((e : ApiError) (s : S) → r ≡ (failed e, s) → P (catch e s))
    → P (proceed r next catch)
proceed-either P (done a, s) next catch on_done on_failed = on_done a s refl
proceed-either P (failed e, s) next catch on_done on_failed = on_failed e s refl

-- A call whose failures are passed on succeeds only by both of its parts.
pub proceed-done {ℓ κ μ} :
    {S T : Type ℓ} {A : Type κ} {B : Type μ} (r : Reply A × S) (next : A → S → Reply B × T)
    (catch : ApiError → S → Reply B × T) (b : B)
    → ((e : ApiError) (s : S) → (x : ApiError) × ((catch e s).0 ≡ failed x))
    → (proceed r next catch).0 ≡ done b
    → (a : A) × (s : S) × (r ≡ (done a, s)) × ((next a s).0 ≡ done b)
proceed-done (done a, s) next catch b fails h = (a, s, refl, h)
proceed-done (failed e, s) next catch b fails h =
    let f = fails e s in absurd (failed≢done (sym f.1 ∙ h))
