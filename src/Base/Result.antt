-- ===== src/Base/Result.antt =====
-- Go's `(value, error)` results. An error from a library or the system is told apart only as far as
-- the program does, by `os.IsNotExist` and `os.IsExist`; `with_message` is `errors.WithMessage`.
use Prim.Native.String.{String}
use mathlib.Core.Path.{◌≡◌, refl}
use mathlib.Core.Bool.{Bool, true, false}

pub data Error : Type 0 where
  not_exist : Error
  exist : Error
  external : String → Error
  message : String → Error
  with_message : String → Error → Error

pub data Result {ℓ} (A : Type ℓ) : Type ℓ where
  ok : A → Result A
  err : Error → Result A

-- os.IsNotExist and os.IsExist do not look under a wrapping.
abbrev pub is_not_exist : Error → Bool
is_not_exist not_exist = true
is_not_exist _ = false

abbrev pub is_exist : Error → Bool
is_exist exist = true
is_exist _ = false

infixl 5 ◌>>=◌
abbrev pub ◌>>=◌ {κ ℓ} : {B : Type κ} {A : Type ℓ} → Result A → (A → Result B) → Result B
err failure >>= next = err failure
ok value >>= next = next value

-- `if err != nil { return errors.WithMessage(err, text) }`
abbrev pub annotate {ℓ} : {A : Type ℓ} → String → Result A → Result A
annotate text (ok a) = ok a
annotate text (err e) = err (with_message text e)

infixl 5 ◌>>◌
abbrev pub ◌>>◌ {κ} : {B : Type κ} → Result (Unit {0}) → Result B → Result B
check >> rest = check >>= λ done. rest

-- If both steps together succeed, the first one gave a value from which the second one succeeds.
pub >>=-eq-ok {ℓ κ} :
    {B : Type κ} {A : Type ℓ} (first : Result A) (next : A → Result B) {end : B}
    → (first >>= next) ≡ ok end
    → (value : A) × (first ≡ ok value) × (next value ≡ ok end)
>>=-eq-ok (err failure) next success = cc
>>=-eq-ok (ok value) next success = (value, refl, success)

pub annotate-eq-ok {ℓ} :
    {A : Type ℓ} (text : String) (m : Result A) {a : A} → annotate text m ≡ ok a → m ≡ ok a
annotate-eq-ok text (ok a) h = h
annotate-eq-ok text (err e) h = cc

pub ok-injective {ℓ} : {A : Type ℓ} {a b : A} → ok a ≡ ok b → a ≡ b
ok-injective h = cc

pub bind-ok {ℓ} : {A : Type ℓ} (m : Result A) → (m >>= λ a. ok a) ≡ m
bind-ok (ok a) = refl
bind-ok (err e) = refl

pub err≢ok {ℓ} : {A : Type ℓ} {e : Error} {a : A} → err e ≡ ok a → ⊥
err≢ok h = cc
