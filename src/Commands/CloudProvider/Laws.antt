-- ===== src/Commands/CloudProvider/Laws.antt =====
-- pkg/cli/cmds/root.go: exactly which charts of cloud providers are disabled.
use rke.Base.{
  any-append, Bool, true, false, not, ◌&&◌, ◌||◌, String, List, [], ◌∷◌, ◌≡◌, refl, sym, ap, ◌∙◌,
  ◌=ₛ◌, any, arith, eq_iff, Bool-cases, inl, inr, or_false,
}
use rke.Base.Result.{ok, err≢ok}
use rke.Commands.Charts.{Sets, set_flag}
use rke.Commands.Charts.Laws.{is_disabled}
use rke.Commands.CloudProvider.{
  CliRole, agent, server, is_server, BundledCloudProvider, CloudFlags, cloud_providers,
  disable_chart, select_provider, provide, provide_all, validate_cloud_provider,
}

abbrev pub has_chart : String → BundledCloudProvider → Bool
has_chart c provider = not (c =ₛ "") && ((provider.csi =ₛ c) || (provider.cpi =ₛ c))

is_disabled-set_flag :
    (c name value : String) (s : Sets)
    → is_disabled c (set_flag name value s)
      ≡ (is_disabled c s || ((name =ₛ "disable") && (value =ₛ c)))
is_disabled-set_flag c name value s =
    any-append (λ e. (e.0 =ₛ "disable") && (e.1 =ₛ c)) s ((name, value) ∷ [])
    ∙ ap (λ b. is_disabled c s || b) (or_false ((name =ₛ "disable") && (value =ₛ c)))

is_disabled-disable_chart :
    (c x : String) (s : Sets)
    → is_disabled c (disable_chart x s) ≡ (is_disabled c s || (not (c =ₛ "") && (x =ₛ c)))
is_disabled-disable_chart c x s =
    let step = is_disabled-set_flag c "disable" x s in
    ground (arith, eq_iff x "", eq_iff c "", eq_iff x c)

is_disabled-select_provider :
    (c : String) (role : CliRole) (provider : BundledCloudProvider) (s : Sets)
    → is_disabled c (select_provider role provider s) ≡ is_disabled c s
is_disabled-select_provider c role provider s =
    let first = is_disabled-set_flag c "cloud-provider-name" "external" s in
    let second =
      is_disabled-set_flag c "disable-cloud-controller" "true"
        (set_flag "cloud-provider-name" "external" s) in
    let same = first ∙ or_false (is_disabled c s) in
    let also =
      second ∙ or_false (is_disabled c (set_flag "cloud-provider-name" "external" s)) ∙ same in
    elim (Bool-cases (is_server role && not (provider.cpi =ₛ ""))) [
      | inl cpi ↦ rw cpi also
      | inr no_cpi ↦ rw no_cpi same
    ]

factor : (d n a b : Bool) → ((d || (n && a)) || (n && b)) ≡ (d || (n && (a || b)))
factor true n a b = refl
factor false false a b = refl
factor false true a b = refl

-- The charts of a provider that is not the selected one.
abbrev pub is_of_other : String → String → BundledCloudProvider → Bool
is_of_other selected c provider = not (provider.name =ₛ selected) && has_chart c provider

is_disabled-provide :
    (c selected : String) (role : CliRole) (provider : BundledCloudProvider) (s : Sets)
    → is_disabled c (provide role selected provider s)
      ≡ (is_disabled c s || (is_server role && is_of_other selected c provider))
is_disabled-provide c selected agent provider s = elim (Bool-cases (provider.name =ₛ selected)) [
  | inl same ↦
      rw same (is_disabled-select_provider c agent provider s ∙ sym (or_false (is_disabled c s)))
  | inr differ ↦ rw differ (sym (or_false (is_disabled c s)))
]
is_disabled-provide c selected server provider s = elim (Bool-cases (provider.name =ₛ selected)) [
  | inl same ↦
      rw same (is_disabled-select_provider c server provider s ∙ sym (or_false (is_disabled c s)))
  | inr differ ↦
      let first = is_disabled-disable_chart c provider.csi s in
      let second = is_disabled-disable_chart c provider.cpi (disable_chart provider.csi s) in
      rw (differ, second, first)
        (factor (is_disabled c s) (not (c =ₛ "")) (provider.csi =ₛ c) (provider.cpi =ₛ c))
]

and_false : (r : Bool) → (r && false) ≡ false
and_false true = refl
and_false false = refl

is_disabled-provide_all :
    (c selected : String) (role : CliRole) (providers : List BundledCloudProvider) (s : Sets)
    → is_disabled c (provide_all role selected providers s)
      ≡ (is_disabled c s || (is_server role && any (is_of_other selected c) providers))
unfolding provide_all
is_disabled-provide_all c selected role [] s =
    sym (or_false (is_disabled c s))
    ∙ ap (λ b. is_disabled c s || b) (sym (and_false (is_server role)))
is_disabled-provide_all c selected role (provider ∷ providers) s =
    is_disabled-provide_all c selected role providers (provide role selected provider s)
    ∙ rw (is_disabled-provide c selected role provider s) (
        factor (is_disabled c s) (is_server role) (is_of_other selected c provider)
          (any (is_of_other selected c) providers))

-- If validateCloudProvider does not fail, then on a server just the charts of the bundled providers other
-- than the selected one have been disabled beside those before, and on an agent none.
pub validate_cloud_provider-charts :
    (role : CliRole) (flags : CloudFlags) (c : String) (s s' : Sets)
    → validate_cloud_provider role flags s ≡ (ok tt, s')
    → is_disabled c s' ≡ (
        is_disabled c s
        || (is_server role && any (is_of_other flags.cloud_provider_name c) cloud_providers))
unfolding validate_cloud_provider
validate_cloud_provider-charts role flags c s s' h =
    elim (Bool-cases ((flags.has_name || flags.has_config) && flags.has_external_ip)) [
      | inl both ↦ absurd (err≢ok (ap (λ p. p.0) (rw both at h)))
      | inr fine ↦
          ap (is_disabled c) (sym (ap (λ p. p.1) (rw fine at h)))
          ∙ is_disabled-provide_all c flags.cloud_provider_name role cloud_providers s
    ]
