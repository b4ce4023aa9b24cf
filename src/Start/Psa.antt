-- ===== src/Start/Psa.antt =====
-- pkg/rke2/psa.go: the default configuration of pod security admission.
use rke.Base.{Bool, String, List, [], ◌∷◌, ◌++◌, if◌then◌else◌}
use rke.Base.FilePath.{join_text, dir_name}
use rke.Base.Os.{Os}
use rke.Base.Result.{with_message}
use rke.Base.Act.{Act, wrap, ◌>>◌}

abbrev pub default_psa_config_file : String
default_psa_config_file = "/etc/rancher/rke2/rke2-pss.yaml"

abbrev header : List String
header =
    "apiVersion: apiserver.config.k8s.io/v1" ∷ "kind: AdmissionConfiguration" ∷ "plugins:"
    ∷ "- name: PodSecurity" ∷ "  configuration:"
    ∷ "    apiVersion: pod-security.admission.config.k8s.io/v1beta1"
    ∷ "    kind: PodSecurityConfiguration" ∷ "    defaults:" ∷ []

abbrev restricted_lines : List String
restricted_lines =
    "      enforce: \"restricted\"" ∷ "      enforce-version: \"latest\""
    ∷ "      audit: \"restricted\"" ∷ "      audit-version: \"latest\""
    ∷ "      warn: \"restricted\"" ∷ "      warn-version: \"latest\"" ∷ "    exemptions:"
    ∷ "      usernames: []" ∷ "      runtimeClasses: []"
    ∷ "      namespaces: [kube-system, compliance-operator-system, tigera-operator]" ∷ []

abbrev unrestricted_lines : List String
unrestricted_lines =
    "      enforce: \"privileged\"" ∷ "      enforce-version: \"latest\"" ∷ "    exemptions:"
    ∷ "      usernames: []" ∷ "      runtimeClasses: []" ∷ "      namespaces: []" ∷ []

unfoldable pub restricted_psa_config : String
unfolding join_text
restricted_psa_config = join_text "\n" (header ++ restricted_lines)

unfoldable pub unrestricted_psa_config : String
unfolding join_text
unrestricted_psa_config = join_text "\n" (header ++ unrestricted_lines)

-- The directory is /etc/rancher/rke2.
unfoldable pub set_psas : (os : Os) → Bool → Act os.State (Unit {0})
unfolding dir_name restricted_psa_config unrestricted_psa_config
set_psas os cis_mode =
    os.mkdir_all (dir_name default_psa_config_file) 0o755
    >> (if cis_mode
        then wrap (with_message "psa: failed to write psa restricted config")
            (os.write_file default_psa_config_file restricted_psa_config 0o600)
        else wrap (with_message "psa: failed to write psa unrestricted config")
            (os.write_file default_psa_config_file unrestricted_psa_config 0o600))
