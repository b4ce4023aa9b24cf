-- ===== src/Commands/CloudProvider.antt =====
-- pkg/cli/cmds/root.go: the charts and controllers of the bundled cloud providers.
pub mod Laws
use rke.Base.{Bool, true, false, not, ◌&&◌, ◌||◌, String, List, [], ◌∷◌, ◌=ₛ◌, if◌then◌else◌}
use rke.Base.Result.{Result, ok, err, message}
use rke.Base.Act.{Act, pure, raise}
use rke.Commands.Charts.{Sets, set_flag}

pub data CliRole : Type 0 where
  agent server : CliRole

abbrev pub is_server : CliRole → Bool
is_server agent = false
is_server server = true

pub record BundledCloudProvider : Type 0 where
  pub name : String
  pub csi : String
  pub cpi : String

abbrev pub cloud_providers : List BundledCloudProvider
cloud_providers =
    record { name = "rancher-vsphere"; csi = "rancher-vsphere-csi"; cpi = "rancher-vsphere-cpi" }
    ∷ record { name = "harvester"; csi = "harvester-csi-driver"; cpi = "harvester-cloud-provider" }
    ∷ record { name = "ovirt"; csi = "rke2-ovirt-csi-driver"; cpi = "" }
    ∷ []

-- What validateCloudProvider reads of the command line.
pub record CloudFlags : Type 0 where
  pub cloud_provider_name : String
  pub has_name : Bool
  pub has_config : Bool
  pub has_external_ip : Bool

abbrev pub disable_chart : String → Sets → Sets
disable_chart c s = if c =ₛ "" then s else set_flag "disable" c s

abbrev pub select_provider : CliRole → BundledCloudProvider → Sets → Sets
select_provider role provider s =
    let t = set_flag "cloud-provider-name" "external" s in
    if is_server role && not (provider.cpi =ₛ "")
    then set_flag "disable-cloud-controller" "true" t
    else t

abbrev pub provide : CliRole → String → BundledCloudProvider → Sets → Sets
provide role selected provider s =
    if provider.name =ₛ selected
    then select_provider role provider s
    else if is_server role
    then disable_chart provider.cpi (disable_chart provider.csi s)
    else s

unfoldable pub provide_all : CliRole → String → List BundledCloudProvider → Sets → Sets
provide_all role selected [] s = s
provide_all role selected (provider ∷ providers) s =
    provide_all role selected providers (provide role selected provider s)

unfoldable pub validate_cloud_provider : CliRole → CloudFlags → Act Sets (Unit {0})
unfolding provide_all
validate_cloud_provider role flags s =
    if (flags.has_name || flags.has_config) && flags.has_external_ip
    then (err (message "can't set node-external-ip while using cloud provider"), s)
    else (ok tt, provide_all role flags.cloud_provider_name cloud_providers s)
