-- ===== src/Base/Act.antt =====
-- Actions that change a state and may fail. What was changed before a failure stays changed.
use mathlib.Core.Path.{◌≡◌, refl, ap}
use mathlib.Core.Logic.{◌⊎◌, inl, inr}
use rke.Base.Result.{Error, Result, ok, err, err≢ok}

abbrev pub Act {ℓ κ} : Type ℓ → Type κ → Type (ℓ ⊔ κ)
Act S A = S → Result A × S

abbrev pub continue {ℓ κ} :
    {S : Type ℓ} {A B : Type κ} → Result A × S → (A → Act S B) → Result B × S
continue (ok a, s) f = f a s
continue (err e, s) f = (err e, s)

infixl 5 ◌>>=◌ ◌>>◌
abbrev pub ◌>>=◌ {ℓ κ} : {S : Type ℓ} {A B : Type κ} → Act S A → (A → Act S B) → Act S B
◌>>=◌ m f s = continue (m s) f

abbrev pub ◌>>◌ {ℓ κ} : {S : Type ℓ} {A B : Type κ} → Act S A → Act S B → Act S B
m >> k = m >>= λ _. k

abbrev pub pure {ℓ κ} : {S : Type ℓ} {A : Type κ} → A → Act S A
pure a s = (ok a, s)

abbrev pub raise {ℓ κ} : {S : Type ℓ} {A : Type κ} → Error → Act S A
raise e s = (err e, s)

-- A result that was computed without changing the state; a question to the state.
abbrev pub lift {ℓ κ} : {S : Type ℓ} {A : Type κ} → Result A → Act S A
lift r s = (r, s)

abbrev pub ask {ℓ κ} : {S : Type ℓ} {A : Type κ} → (S → A) → Act S A
ask f s = (ok (f s), s)

abbrev annotated {ℓ κ} : {S : Type ℓ} {A : Type κ} → (Error → Error) → Result A × S → Result A × S
annotated f (ok a, s) = (ok a, s)
annotated f (err e, s) = (err (f e), s)

-- The error is wrapped.
abbrev pub wrap {ℓ κ} : {S : Type ℓ} {A : Type κ} → (Error → Error) → Act S A → Act S A
wrap f m s = annotated f (m s)

-- If an action succeeds, so did its first half, and the second half from there.
pub >>=-ok {ℓ κ} :
    {S : Type ℓ} {A B : Type κ} (m : Act S A) (f : A → Act S B) (s : S) {b : B} {s' : S}
    → (m >>= f) s ≡ (ok b, s')
    → (a : A) × (t : S) × (m s ≡ (ok a, t)) × (f a t ≡ (ok b, s'))
>>=-ok {S = S} {A} {B} m f s {b} {s'} h = from (m s) refl h
  where
    from :
        (r : Result A × S)
        → m s ≡ r
        → continue r f ≡ (ok b, s')
        → (a : A) × (t : S) × (m s ≡ (ok a, t)) × (f a t ≡ (ok b, s'))
    from (ok a, t) e h = (a, t, e, h)
    from (err e, t) _ h = absurd (err≢ok (ap (λ p. p.0) h))

-- If an action fails, its first half does, or its second half from where the first one succeeds.
pub >>=-err {ℓ κ} :
    {S : Type ℓ} {A B : Type κ} (m : Act S A) (f : A → Act S B) (s : S) {e : Error} {s' : S}
    → (m >>= f) s ≡ (err e, s')
    → (m s ≡ (err e, s')) ⊎ ((a : A) × (t : S) × (m s ≡ (ok a, t)) × (f a t ≡ (err e, s')))
>>=-err {S = S} {A} {B} m f s {e} {s'} h = from (m s) refl h
  where
    from :
        (r : Result A × S)
        → m s ≡ r
        → continue r f ≡ (err e, s')
        → (m s ≡ (err e, s')) ⊎ ((a : A) × (t : S) × (m s ≡ (ok a, t)) × (f a t ≡ (err e, s')))
    from (ok a, t) done h = inr (a, t, done, h)
    from (err e', t) done h = inl cc

-- What every single action keeps, their composition keeps, and an action whose error is wrapped.
module _ {ℓ κ μ} {S : Type ℓ} {A B : Type κ} (P : S → Type μ) where
  pub >>=-keeps :
      (m : Act S A) (f : A → Act S B) (s : S)
      → ((a : A) (t : S) → P t → P ((f a t).1))
      → P ((m s).1)
      → P (((m >>= f) s).1)
  >>=-keeps m f s next first = from (m s) first
    where
      from : (r : Result A × S) → P (r.1) → P ((continue r f).1)
      from (ok a, t) p = next a t p
      from (err e, t) p = p

module _ {ℓ κ μ} {S : Type ℓ} {A : Type κ} (P : S → Type μ) where
  pub wrap-keeps : (g : Error → Error) (m : Act S A) (s : S) → P ((m s).1) → P ((wrap g m s).1)
  wrap-keeps g m s first = from (m s) first
    where
      from : (r : Result A × S) → P (r.1) → P ((annotated g r).1)
      from (ok a, t) p = p
      from (err e, t) p = p

-- If what follows a computed result succeeds, the result was a value.
pub continue-eq-ok {ℓ κ} :
    {S : Type ℓ} {A B : Type κ} (r : Result A) (k : A → Act S B) (s : S) {b : B} {s' : S}
    → continue (r, s) k ≡ (ok b, s')
    → (a : A) × (r ≡ ok a) × (k a s ≡ (ok b, s'))
continue-eq-ok (ok a) k s h = (a, refl, h)
continue-eq-ok (err e) k s h = absurd (err≢ok (ap (λ p. p.0) h))
