-- ===== src/Tests/CommandRuns.antt =====
-- pkg/cli/cmds, at concrete inputs.
use rke.Base.{
  true, false, not, ◌&&◌, ◌||◌, String, none, some, List, [], ◌∷◌, ◌++◌, ◌≡◌, refl, ◌↔◌, All, any,
  ◌=ₛ◌, ◌⊎◌,
}
use rke.Base.Dict.{lookup}
use rke.Base.Result.{Result, ok, err, not_exist}
use rke.Commands.FlagOptions.{
  Flag, K3sFlagSet, no_option, string_flag, bool_flag, command_from_k3s, parse_name, is_ignored,
}
use rke.Commands.FlagOptions.Laws.{IsAccepted, command_from_k3s_iff}
use rke.Commands.FlagOptions.Wrapping.{Wraps, command_from_k3s-kept}
use rke.Commands.Charts.{
  Sets, check_cni, cni_items, validate_cni, disable_except_selected, split_values,
}
use rke.Commands.Charts.Laws.{
  is_disabled, is_chart_of, selects, is_allowed, disable_except_selected-charts,
}
use rke.Commands.CloudProvider.{CloudFlags, server, agent, cloud_providers, validate_cloud_provider}
use rke.Commands.CloudProvider.Laws.{is_of_other, validate_cloud_provider-charts}
use rke.Commands.Profile.{kernel_runtime_parameters, validate_profile}
use rke.Commands.Profile.Laws.{HasValue, validate_profile-cis}
use rke.Tests.World.{machine, Disk, file}

abbrev flags : List Flag
flags =
    record {
      first_name = "d";
      more_names = "data-dir" ∷ [];
      usage = "data";
      hidden = false;
      flag_type = string_flag "/k3s";
    }
    ∷ record {
      first_name = "docker";
      more_names = [];
      usage = "docker";
      hidden = false;
      flag_type = bool_flag;
    }
    ∷ []

abbrev options : K3sFlagSet
options =
    ("data-dir", some (record no_option { default = "/rke2"; hide = true }))
    ∷ ("docker", some (record no_option { drop_flag = true }))
    ∷ ("gone", some (record no_option { ignore = true }))
    ∷ []

abbrev append_value : String → List String → List String
append_value v l = l ++ (v ∷ [])

wrapped_test : command_from_k3s append_value flags options ≡ (
  record {
    first_name = "d";
    more_names = "data-dir" ∷ [];
    usage = "data";
    hidden = true;
    flag_type = string_flag "/rke2";
  }
      ∷ [],
  [],
)
unfolding command_from_k3s
wrapped_test = refl

command_from_k3s_iff_example : ((command_from_k3s append_value flags options).1 ≡ []) ↔ (
    All (λ flag. IsAccepted flag (lookup (parse_name flag) options)) flags
    × All (λ e. (any (λ flag. parse_name flag =ₛ e.0) flags || is_ignored e.1) ≡ true) options)
command_from_k3s_iff_example = command_from_k3s_iff append_value flags options

command_from_k3s-kept_example :
    Wraps append_value options flags ((command_from_k3s append_value flags options).0)
command_from_k3s-kept_example = command_from_k3s-kept append_value flags options

cni_test : validate_cni ("multus,cilium" ∷ []) [] ≡ (
  ok tt,
  ("disable", "rke2-flannel-crd")
      ∷ ("disable", "rke2-flannel")
      ∷ ("disable", "rke2-canal-crd")
      ∷ ("disable", "rke2-canal")
      ∷ ("disable", "rke2-calico-crd")
      ∷ ("disable", "rke2-calico")
      ∷ [],
)
unfolding validate_cni
cni_test = refl

abbrev after_cni : Sets
after_cni =
    ("disable", "rke2-flannel-crd")
    ∷ ("disable", "rke2-flannel")
    ∷ ("disable", "rke2-canal-crd")
    ∷ ("disable", "rke2-canal")
    ∷ ("disable", "rke2-calico-crd")
    ∷ ("disable", "rke2-calico")
    ∷ []

-- A value `none` beside an item does not disable the item.
abbrev mixed : Sets
mixed = (disable_except_selected cni_items ("none,canal" ∷ []) (λ values s. (ok values, s)) []).1

mixed_test : (is_disabled "rke2-canal" mixed ≡ false) × (is_disabled "rke2-calico" mixed ≡ true)
unfolding disable_except_selected
mixed_test = (refl, refl)

disable_except_selected-charts_example :
    (values : List String) × (t : Sets) × (check_cni (split_values ("multus,cilium" ∷ [])) []
      ≡ (ok values, t))
    × All (λ d. is_allowed cni_items d ≡ true) values
    × (is_disabled "rke2-canal" after_cni ≡ (
        is_disabled "rke2-canal" t
        || (any (is_chart_of "rke2-canal") cni_items && not (any (selects "rke2-canal") values))))
unfolding validate_cni
disable_except_selected-charts_example =
    disable_except_selected-charts cni_items ("multus,cilium" ∷ []) check_cni [] after_cni
      "rke2-canal" refl

abbrev harvester : CloudFlags
harvester = record {
  cloud_provider_name = "harvester";
  has_name = true;
  has_config = false;
  has_external_ip = false;
}

abbrev after_harvester : Sets
after_harvester =
    ("disable", "rancher-vsphere-csi")
    ∷ ("disable", "rancher-vsphere-cpi")
    ∷ ("cloud-provider-name", "external")
    ∷ ("disable-cloud-controller", "true")
    ∷ ("disable", "rke2-ovirt-csi-driver")
    ∷ []

validate_cloud_provider-charts_example : is_disabled "rancher-vsphere-cpi" after_harvester ≡ (
    is_disabled "rancher-vsphere-cpi" []
    || (true && any (is_of_other "harvester" "rancher-vsphere-cpi") cloud_providers))
unfolding validate_cloud_provider
validate_cloud_provider-charts_example =
    validate_cloud_provider-charts server harvester "rancher-vsphere-cpi" [] after_harvester refl

abbrev hardened : Disk
hardened =
    ("/proc/sys/vm/overcommit_memory", file "1\n")
    ∷ ("/proc/sys/vm/panic_on_oom", file "0\n")
    ∷ ("/proc/sys/kernel/panic", file "10\n")
    ∷ ("/proc/sys/kernel/panic_on_oops", file "1\n")
    ∷ []

hardened_test :
    validate_profile (machine []) "cis" server false false (ok tt) (ok tt) (ok tt) hardened ≡ none
unfolding validate_profile lookup
hardened_test = refl

abbrev found : Result (Unit {0})
found = ok tt

abbrev missing : Result (Unit {0})
missing = err not_exist

validate_profile-cis_example :
    (validate_profile (machine []) "cis" server true false found found missing hardened ≡ none) ↔ (
      All (HasValue (machine []) hardened) kernel_runtime_parameters
      × (((true && not false) ≡ false) × (found ≡ ok tt))
      × ((server ≡ agent) ⊎ ((found ≡ ok tt) × (missing ≡ ok tt))))
validate_profile-cis_example =
    validate_profile-cis (machine []) server true false found found missing hardened
