-- ===== src/Podtemplate/Assignment/Accepted.antt =====
-- pkg/podtemplate/config.go: which settings are accepted.
use rke.Base.{ℕ, String, ◌<>◌, Option, none, some, List, [], ◌∷◌, ◌++◌, ◌≡◌, ◌↔◌, refl, All}
use rke.Base.Decimal.{ℤ, pos, negsuc, parse_int}
use rke.Base.Dict.{Dict, insert}
use rke.Base.Result.{Result, ok, ◌>>=◌, >>=-eq-ok, err≢ok}
use rke.Base.Text.{split, cut}
use rke.Podtemplate.Assignment.{
  put_request, put_requests, put_all_requests, put_probe_conf, put_number, put_probe_confs,
  put_all_probe_confs,
}
use rke.Podtemplate.Assignment.Laws.{settings}

-- `name=value`, with any value; with a number of 32 bits that is not negative.
abbrev pub IsSetting : String → Type 0
IsSetting raw = (p : String × String) × (cut b'=' raw ≡ some p)

abbrev pub IsProbeSetting : String → Type 0
IsProbeSetting raw =
    (name : String) × (value : String) × (n : ℕ) × (cut b'=' raw ≡ some (name, value))
    × (parse_int 32 value ≡ some (pos n))

All-append {ℓ} :
    {A : Type ℓ} (P : A → Type 0) (xs ys : List A) → All P (xs ++ ys) ↔ (All P xs × All P ys)
All-append P [] ys = (λ h. (tt, h), λ h. h.1)
All-append P (x ∷ xs) ys = (
  λ h. ((h.0, ((All-append P xs ys).0 h.1).0), ((All-append P xs ys).0 h.1).1),
  λ h. (h.0.0, (All-append P xs ys).1 (h.0.1, h.1)),
)

module _ {V : Type 0} (P : String → Type 0) (put : String → Dict V → Result (Dict V))
    (accepts : (raw : String) (d : Dict V) → P raw ↔ ((d' : Dict V) × (put raw d ≡ ok d')))
    (loop : List String → Dict V → Result (Dict V)) (loop-nil : (d : Dict V) → loop [] d ≡ ok d)
    (loop-cons : (raw : String) (rest : List String) (d : Dict V)
      → loop (raw ∷ rest) d ≡ (put raw d >>= loop rest)) where
  -- A loop that stops at the first setting that is refused returns exactly when all are accepted.
  loop_iff :
      (raws : List String) (d : Dict V) → All P raws ↔ ((d' : Dict V) × (loop raws d ≡ ok d'))
  loop_iff [] d = (λ _. (d, loop-nil d), λ _. tt)
  loop_iff (raw ∷ rest) d = (
    λ (h, hs).
        let (m, one) = (accepts raw d).0 h in
        let (d', later) = (loop_iff rest m).0 hs in (d', rw (loop-cons raw rest d, one) later),
    λ (d', h).
        let (m, one, later) = >>=-eq-ok (put raw d) (loop rest) (rw (loop-cons raw rest d) at h) in
        ((accepts raw d).1 (m, one), (loop_iff rest m).1 (d', later)),
  )

put_request-ok :
    (word raw : String) (o : Option (String × String)) (d d' : Dict String)
    → put_request word raw o d ≡ ok d'
    → (p : String × String) × (o ≡ some p)
put_request-ok word raw none d d' h = absurd (err≢ok h)
put_request-ok word raw (some p) d d' h = (p, refl)

put_request_iff :
    (word raw : String) (d : Dict String)
    → IsSetting raw ↔ ((d' : Dict String) × (put_request word raw (cut b'=' raw) d ≡ ok d'))
put_request_iff word raw d = (
  λ ((name, value), e). (insert (name <> ("-" <> word)) value d, rw e),
  λ (d', h). put_request-ok word raw (cut b'=' raw) d d' h,
)

put_number-ok :
    (raw name : String) (o : Option ℤ) (d d' : Dict ℕ)
    → put_number raw name o d ≡ ok d'
    → (n : ℕ) × (o ≡ some (pos n))
put_number-ok raw name none d d' h = absurd (err≢ok h)
put_number-ok raw name (some (negsuc n)) d d' h = absurd (err≢ok h)
put_number-ok raw name (some (pos n)) d d' h = (n, refl)

put_probe_conf-ok :
    (raw : String) (o : Option (String × String)) (d d' : Dict ℕ)
    → put_probe_conf raw o d ≡ ok d'
    → (name : String) × (value : String) × (n : ℕ) × (o ≡ some (name, value))
      × (parse_int 32 value ≡ some (pos n))
put_probe_conf-ok raw none d d' h = absurd (err≢ok h)
put_probe_conf-ok raw (some (name, value)) d d' h =
    let (n, e) = put_number-ok raw name (parse_int 32 value) d d' h in (name, value, n, refl, e)

put_probe_conf_iff :
    (raw : String) (d : Dict ℕ)
    → IsProbeSetting raw ↔ ((d' : Dict ℕ) × (put_probe_conf raw (cut b'=' raw) d ≡ ok d'))
put_probe_conf_iff raw d = (
  λ (name, value, n, e, e'). (insert name n d, rw (e, e')),
  λ (d', h). put_probe_conf-ok raw (cut b'=' raw) d d' h,
)

-- All settings of a flag's values, value by value.
All-settings :
    (P : String → Type 0) (values : List String)
    → All P (settings values) ↔ All (λ value. All P (split b',' value)) values
All-settings P [] = (λ _. tt, λ _. tt)
All-settings P (value ∷ values) = (
  λ h.
      let (here, later) = (All-append P (split b',' value) (settings values)).0 h in
      (here, (All-settings P values).0 later),
  λ (here, later).
      (All-append P (split b',' value) (settings values)).1 (here, (All-settings P values).1 later),
)

-- The settings of the resources are accepted exactly when each has an equals sign.
pub put_all_requests_iff :
    (word : String) (values : List String) (d : Dict String)
    → All IsSetting (settings values)
      ↔ ((d' : Dict String) × (put_all_requests word values d ≡ ok d'))
unfolding put_all_requests
put_all_requests_iff word values d =
    let inner =
      loop_iff IsSetting (λ raw. put_request word raw (cut b'=' raw)) (put_request_iff word)
        (put_requests word) (λ _. refl) (λ _ _ _. refl) in
    let outer =
      loop_iff (λ value. All IsSetting (split b',' value))
        (λ value. put_requests word (split b',' value)) (λ value. inner (split b',' value))
        (put_all_requests word) (λ _. refl) (λ _ _ _. refl) values d in
    (
      λ h. outer.0 ((All-settings IsSetting values).0 h),
      λ h. (All-settings IsSetting values).1 (outer.1 h),
    )

-- Those of the probes exactly when each sets a number of 32 bits that is not negative.
pub put_all_probe_confs_iff :
    (values : List String) (d : Dict ℕ)
    → All IsProbeSetting (settings values)
      ↔ ((d' : Dict ℕ) × (put_all_probe_confs values d ≡ ok d'))
unfolding put_all_probe_confs
put_all_probe_confs_iff values d =
    let inner =
      loop_iff IsProbeSetting (λ raw. put_probe_conf raw (cut b'=' raw)) put_probe_conf_iff
        put_probe_confs (λ _. refl) (λ _ _ _. refl) in
    let outer =
      loop_iff (λ value. All IsProbeSetting (split b',' value))
        (λ value. put_probe_confs (split b',' value)) (λ value. inner (split b',' value))
        put_all_probe_confs (λ _. refl) (λ _ _ _. refl) values d in
    (
      λ h. outer.0 ((All-settings IsProbeSetting values).0 h),
      λ h. (All-settings IsProbeSetting values).1 (outer.1 h),
    )
