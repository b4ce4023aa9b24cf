-- ===== src/Podtemplate/Probes/Laws.antt =====
-- pkg/podtemplate/config.go: what parseControlPlaneProbeConfs leaves in each field, and its bounds.
use rke.Base.{
  ℕ, ◌^◌, ◌<◌, String, Option, none, some, List, [], ◌∷◌, ◌≡◌, ◌↔◌, All, inl, inr, refl, sym, ap,
  ◌∙◌, arith, Option-cases,
}
use rke.Base.Decimal.{ℤ, pos, negsuc, parse_int, parse_int32-lt}
use rke.Base.Result.{ok, >>=-eq-ok, ok-injective}
use rke.Base.Dict.{lookup, lookup-nil}
use rke.Base.Text.{cut}
use rke.Podtemplate.Assignment.{put_all_probe_confs}
use rke.Podtemplate.Assignment.Laws.{
  last_probe_setting, probe_setting, number_for, settings, or_default-none,
  lookup-put_all_probe_confs,
}
use rke.Podtemplate.Assignment.Accepted.{IsProbeSetting, put_all_probe_confs_iff}
use rke.Podtemplate.Assignment.Targets.{assign_all, or_default, value_or, Listed, field-assign_all}
use rke.Podtemplate.Component.{ProbeType, Threshold}
use rke.Podtemplate.Probes.{
  ControlPlaneProbeConfs, no_probe_confs, Target, field, assign, default_probe_conf, key, found,
  parse_control_plane_probe_confs,
}
use rke.Podtemplate.Probes.Fields.{field-assign_self, field-assign_other}

value_or-or_default {ℓ} :
    {A : Type ℓ} (o : Option A) (d a : A) → value_or (or_default o (some d)) a ≡ value_or o d
value_or-or_default none d a = refl
value_or-or_default (some v) d a = refl

-- If the settings are accepted, and the order of the targets reaches every one, each field holds
-- the last number that was set for it on the command line, else its default.
pub parse_control_plane_probe_confs_lem :
    (order : List Target) (confs : List String) (s : ControlPlaneProbeConfs)
    → ((t : Target) → Listed t order)
    → parse_control_plane_probe_confs order confs ≡ ok s
    → (t : Target)
    → field t s
      ≡ value_or (last_probe_setting (key t) (settings confs)) (default_probe_conf t.1 t.2)
unfolding parse_control_plane_probe_confs
parse_control_plane_probe_confs_lem order confs s all h (c, p, t) =
    let (parsed, first, last) =
      >>=-eq-ok (put_all_probe_confs confs [])
        (λ parsed. ok (assign_all assign (found parsed) order no_probe_confs)) h in
    let k = key (c, p, t) in
    let one : lookup k parsed ≡ last_probe_setting k (settings confs) =
      lookup-put_all_probe_confs k confs [] parsed first
      ∙ (ap (or_default (last_probe_setting k (settings confs))) (lookup-nil k)
          ∙ or_default-none (last_probe_setting k (settings confs))) in
    ap (field (c, p, t)) (sym (ok-injective last))
    ∙ (field-assign_all assign (found parsed) field field-assign_self field-assign_other (c, p, t)
          order no_probe_confs (all (c, p, t))
        ∙ (ap
              (λ o.
                value_or (or_default o (some (default_probe_conf p t)))
                  (field (c, p, t) no_probe_confs))
              one
            ∙ value_or-or_default (last_probe_setting k (settings confs)) (default_probe_conf p t)
                _))

number_for-lt :
    (k name : String) (o : Option ℤ) (n : ℕ) → number_for k name o ≡ some n → o ≡ some (pos n)
number_for-lt k name none n h = cc
number_for-lt k name (some (negsuc m)) n h = cc
number_for-lt k name (some (pos m)) n h = ground arith

probe_setting-lt :
    (k : String) (o : Option (String × String)) (n : ℕ) → probe_setting k o ≡ some n → n < 2 ^ 31
probe_setting-lt k none n h = cc
probe_setting-lt k (some (name, value)) n h =
    parse_int32-lt value n (number_for-lt k name (parse_int 32 value) n h)

last_probe_setting-lt :
    (k : String) (raws : List String) (n : ℕ) → last_probe_setting k raws ≡ some n → n < 2 ^ 31
last_probe_setting-lt k [] n h = cc
last_probe_setting-lt k (raw ∷ rest) n h = elim (Option-cases (last_probe_setting k rest)) [
  | inl missing ↦ probe_setting-lt k (cut b'=' raw) n (rw missing at h)
  | inr (m, e) ↦ last_probe_setting-lt k rest n (e ∙ rw e at h)
]

value_or-lt :
    (limit : ℕ) (o : Option ℕ) (d : ℕ)
    → ((n : ℕ) → o ≡ some n → n < limit)
    → d < limit
    → value_or o d < limit
value_or-lt limit none d h l = l
value_or-lt limit (some n) d h l = h n refl

default_probe_conf-lt : (p : ProbeType) (t : Threshold) → default_probe_conf p t < 2 ^ 31
unfolding default_probe_conf
default_probe_conf-lt p t = ground arith

-- If the settings are accepted, and the order of the targets reaches every one, each field is below 2^31.
pub parse_control_plane_probe_confs-lt :
    (order : List Target) (confs : List String) (s : ControlPlaneProbeConfs)
    → ((t : Target) → Listed t order)
    → parse_control_plane_probe_confs order confs ≡ ok s
    → (t : Target) → field t s < 2 ^ 31
parse_control_plane_probe_confs-lt order confs s all h t =
    rw (parse_control_plane_probe_confs_lem order confs s all h t) (
      value_or-lt (2 ^ 31) (last_probe_setting (key t) (settings confs))
        (default_probe_conf t.1 t.2) (last_probe_setting-lt (key t) (settings confs))
        (default_probe_conf-lt t.1 t.2))

-- The probe settings are accepted exactly when each of them, split at the commas, is a name, an equals
-- sign and a number of 32 bits that is not negative.
pub parse_control_plane_probe_confs_iff :
    (order : List Target) (confs : List String)
    → All IsProbeSetting (settings confs)
      ↔ ((s : ControlPlaneProbeConfs) × (parse_control_plane_probe_confs order confs ≡ ok s))
unfolding parse_control_plane_probe_confs
parse_control_plane_probe_confs_iff order confs = (
  λ h.
      let (parsed, e) = (put_all_probe_confs_iff confs []).0 h in
      (assign_all assign (found parsed) order no_probe_confs, rw e),
  λ (s, h).
      let (parsed, first, _) =
        >>=-eq-ok (put_all_probe_confs confs [])
          (λ parsed. ok (assign_all assign (found parsed) order no_probe_confs)) h in
      (put_all_probe_confs_iff confs []).1 (parsed, first),
)
