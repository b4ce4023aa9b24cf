-- ===== src/Podtemplate/Assignment/Laws.antt =====
-- pkg/podtemplate/config.go: what the loops over settings leave in the map: for each name the value that
-- was set last.
use rke.Base.{
  ℕ, String, ◌<>◌, Option, none, some, List, [], ◌∷◌, ◌++◌, ◌≡◌, refl, sym, ap, ◌∙◌, ◌=ₛ◌, inl, inr,
  Bool-cases, if◌then◌else◌,
}
use rke.Base.Decimal.{ℤ, pos, negsuc, parse_int}
use rke.Base.Dict.{Dict, lookup, lookup-insert}
use rke.Base.Result.{ok, >>=-eq-ok, ok-injective, err≢ok}
use rke.Base.Text.{split, cut}
use rke.Podtemplate.Assignment.{
  put_request, put_requests, put_all_requests, put_probe_conf, put_number, put_probe_confs,
  put_all_probe_confs,
}
use rke.Podtemplate.Assignment.Targets.{or_default}

-- All settings of a flag, in order.
abbrev pub settings : List String → List String
settings [] = []
settings (value ∷ values) = split b',' value ++ settings values

-- The value of one setting, if it is for the key.
abbrev pub setting : String → String → Option (String × String) → Option String
setting word k none = none
setting word k (some (name, value)) = if name <> ("-" <> word) =ₛ k then some value else none

-- The value of the last setting for the key.
abbrev pub last_setting : String → String → List String → Option String
last_setting word k [] = none
last_setting word k (raw ∷ rest) =
    or_default (last_setting word k rest) (setting word k (cut b'=' raw))

pub or_default-none {ℓ} : {A : Type ℓ} (a : Option A) → or_default a none ≡ a
or_default-none none = refl
or_default-none (some v) = refl

or_default_assoc {ℓ} :
    {A : Type ℓ} (a b c : Option A) → or_default (or_default a b) c ≡ or_default a (or_default b c)
or_default_assoc none b c = refl
or_default_assoc (some v) b c = refl

last_setting-append :
    (word k : String) (xs ys : List String)
    → last_setting word k (xs ++ ys) ≡ or_default (last_setting word k ys) (last_setting word k xs)
last_setting-append word k [] ys = sym (or_default-none _)
last_setting-append word k (x ∷ xs) ys =
    ap (λ o. or_default o (setting word k (cut b'=' x))) (last_setting-append word k xs ys)
    ∙ or_default_assoc (last_setting word k ys) (last_setting word k xs)
        (setting word k (cut b'=' x))

lookup-put_request :
    (word raw k : String) (o : Option (String × String)) (d d' : Dict String)
    → put_request word raw o d ≡ ok d'
    → lookup k d' ≡ or_default (setting word k o) (lookup k d)
lookup-put_request word raw k none d d' h = absurd (err≢ok h)
lookup-put_request word raw k (some (name, value)) d d' h = rw (← ok-injective h) (
    lookup-insert (name <> ("-" <> word)) k value d
    ∙ elim (Bool-cases (name <> ("-" <> word) =ₛ k)) [
      | inl same ↦ rw same
      | inr differs ↦ rw differs
    ])

lookup-put_requests :
    (word k : String) (raws : List String) (d d' : Dict String)
    → put_requests word raws d ≡ ok d'
    → lookup k d' ≡ or_default (last_setting word k raws) (lookup k d)
unfolding put_requests
lookup-put_requests word k [] d d' h = ap (lookup k) (sym (ok-injective h))
lookup-put_requests word k (raw ∷ rest) d d' h =
    let (m, one, later) =
      >>=-eq-ok (put_request word raw (cut b'=' raw) d) (put_requests word rest) h in
    lookup-put_requests word k rest m d' later
    ∙ (ap (or_default (last_setting word k rest))
          (lookup-put_request word raw k (cut b'=' raw) d m one)
        ∙ sym (
            or_default_assoc (last_setting word k rest) (setting word k (cut b'=' raw))
              (lookup k d)))

pub lookup-put_all_requests :
    (word k : String) (values : List String) (d d' : Dict String)
    → put_all_requests word values d ≡ ok d'
    → lookup k d' ≡ or_default (last_setting word k (settings values)) (lookup k d)
unfolding put_all_requests
lookup-put_all_requests word k [] d d' h = ap (lookup k) (sym (ok-injective h))
lookup-put_all_requests word k (value ∷ values) d d' h =
    let (m, one, later) =
      >>=-eq-ok (put_requests word (split b',' value) d) (put_all_requests word values) h in
    lookup-put_all_requests word k values m d' later
    ∙ (ap (or_default (last_setting word k (settings values)))
          (lookup-put_requests word k (split b',' value) d m one)
        ∙ (sym (
              or_default_assoc (last_setting word k (settings values))
                (last_setting word k (split b',' value)) (lookup k d))
            ∙ ap (λ o. or_default o (lookup k d))
                (sym (last_setting-append word k (split b',' value) (settings values)))))

-- The value of one probe setting, if it is for the key and its number can be read and is not negative.
abbrev pub number_for : String → String → Option ℤ → Option ℕ
number_for k name none = none
number_for k name (some (negsuc n)) = none
number_for k name (some (pos n)) = if name =ₛ k then some n else none

abbrev pub probe_setting : String → Option (String × String) → Option ℕ
probe_setting k none = none
probe_setting k (some (name, value)) = number_for k name (parse_int 32 value)

-- The value of the last probe setting for the key.
abbrev pub last_probe_setting : String → List String → Option ℕ
last_probe_setting k [] = none
last_probe_setting k (raw ∷ rest) =
    or_default (last_probe_setting k rest) (probe_setting k (cut b'=' raw))

last_probe_setting-append :
    (k : String) (xs ys : List String)
    → last_probe_setting k (xs ++ ys)
      ≡ or_default (last_probe_setting k ys) (last_probe_setting k xs)
last_probe_setting-append k [] ys = sym (or_default-none _)
last_probe_setting-append k (x ∷ xs) ys =
    ap (λ o. or_default o (probe_setting k (cut b'=' x))) (last_probe_setting-append k xs ys)
    ∙ or_default_assoc (last_probe_setting k ys) (last_probe_setting k xs)
        (probe_setting k (cut b'=' x))

lookup-put_number :
    (raw name k : String) (o : Option ℤ) (d d' : Dict ℕ)
    → put_number raw name o d ≡ ok d'
    → lookup k d' ≡ or_default (number_for k name o) (lookup k d)
lookup-put_number raw name k none d d' h = absurd (err≢ok h)
lookup-put_number raw name k (some (negsuc n)) d d' h = absurd (err≢ok h)
lookup-put_number raw name k (some (pos n)) d d' h = rw (← ok-injective h) (
    lookup-insert name k n d
    ∙ elim (Bool-cases (name =ₛ k)) [ inl same ↦ rw same | inr differs ↦ rw differs ])

lookup-put_probe_conf :
    (raw k : String) (o : Option (String × String)) (d d' : Dict ℕ)
    → put_probe_conf raw o d ≡ ok d'
    → lookup k d' ≡ or_default (probe_setting k o) (lookup k d)
lookup-put_probe_conf raw k none d d' h = absurd (err≢ok h)
lookup-put_probe_conf raw k (some (name, value)) d d' h =
    lookup-put_number raw name k (parse_int 32 value) d d' h

lookup-put_probe_confs :
    (k : String) (raws : List String) (d d' : Dict ℕ)
    → put_probe_confs raws d ≡ ok d'
    → lookup k d' ≡ or_default (last_probe_setting k raws) (lookup k d)
unfolding put_probe_confs
lookup-put_probe_confs k [] d d' h = ap (lookup k) (sym (ok-injective h))
lookup-put_probe_confs k (raw ∷ rest) d d' h =
    let (m, one, later) =
      >>=-eq-ok (put_probe_conf raw (cut b'=' raw) d) (put_probe_confs rest) h in
    lookup-put_probe_confs k rest m d' later
    ∙ (ap (or_default (last_probe_setting k rest))
          (lookup-put_probe_conf raw k (cut b'=' raw) d m one)
        ∙ sym (
            or_default_assoc (last_probe_setting k rest) (probe_setting k (cut b'=' raw))
              (lookup k d)))

pub lookup-put_all_probe_confs :
    (k : String) (values : List String) (d d' : Dict ℕ)
    → put_all_probe_confs values d ≡ ok d'
    → lookup k d' ≡ or_default (last_probe_setting k (settings values)) (lookup k d)
unfolding put_all_probe_confs
lookup-put_all_probe_confs k [] d d' h = ap (lookup k) (sym (ok-injective h))
lookup-put_all_probe_confs k (value ∷ values) d d' h =
    let (m, one, later) =
      >>=-eq-ok (put_probe_confs (split b',' value) d) (put_all_probe_confs values) h in
    lookup-put_all_probe_confs k values m d' later
    ∙ (ap (or_default (last_probe_setting k (settings values)))
          (lookup-put_probe_confs k (split b',' value) d m one)
        ∙ (sym (
              or_default_assoc (last_probe_setting k (settings values))
                (last_probe_setting k (split b',' value)) (lookup k d))
            ∙ ap (λ o. or_default o (lookup k d))
                (sym (last_probe_setting-append k (split b',' value) (settings values)))))
