-- ===== src/Policies/Templates.antt =====
-- pkg/rke2/np.go: the templates of the network policies.
use rke.Base.{ℕ, String, List, [], ◌∷◌}
use rke.Base.Dict.{Dict}

pub data Protocol : Type 0 where
  tcp udp : Protocol

-- intstr.IntOrString
pub data Port : Type 0 where
  number : ℕ → Port
  name : String → Port

-- metav1.LabelSelector, of which only matchLabels is used; the empty one matches all pods.
pub record LabelSelector : Type 0 where
  pub match_labels : Dict String

-- NetworkPolicyIngressRule: its ports and, where it has any, the selectors of its peers.
pub record IngressRule : Type 0 where
  pub ports : List (Protocol × Port)
  pub from_pods : List LabelSelector

pub record PolicyTemplate : Type 0 where
  pub name : String
  pub annotation_key : String
  pub pod_selector : LabelSelector
  pub ingress : List IngressRule

pub data PolicyType : Type 0 where
  ingress_type : PolicyType

pub record NetworkPolicy : Type 0 where
  pub name : String
  pub annotations : Dict String
  pub pod_selector : LabelSelector
  pub policy_types : List PolicyType
  pub ingress : List IngressRule

abbrev pub cis_annotation_value : String
cis_annotation_value = "resolved"

abbrev all_pods : LabelSelector
all_pods = record { match_labels = [] }

abbrev labelled : String → String → LabelSelector
labelled key value = record { match_labels = (key, value) ∷ [] }

abbrev allow : List (Protocol × Port) → List IngressRule
allow ports = record { ports = ports; from_pods = [] } ∷ []

abbrev pub default_namespace_policies : List PolicyTemplate
default_namespace_policies =
    record {
      name = "default-network-policy";
      annotation_key = "np.rke2.io";
      pod_selector = all_pods;
      ingress = record { ports = []; from_pods = all_pods ∷ [] } ∷ [];
    }
    ∷ []

abbrev pub default_kube_system_policies : List PolicyTemplate
default_kube_system_policies =
    record {
      name = "default-network-dns-policy";
      annotation_key = "np.rke2.io/dns";
      pod_selector = labelled "k8s-app" "kube-dns";
      ingress = allow ((tcp, number 53) ∷ (udp, number 53) ∷ []);
    }
    ∷ record {
      name = "default-network-ingress-policy";
      annotation_key = "np.rke2.io/ingress";
      pod_selector = labelled "app.kubernetes.io/name" "rke2-ingress-nginx";
      ingress = allow ((tcp, name "http") ∷ (tcp, name "https") ∷ []);
    }
    ∷ record {
      name = "default-network-ingress-webhook-policy";
      annotation_key = "np.rke2.io/ingress-webhook";
      pod_selector = labelled "app.kubernetes.io/name" "rke2-ingress-nginx";
      ingress = allow ((tcp, name "webhook") ∷ []);
    }
    ∷ record {
      name = "default-network-traefik-policy";
      annotation_key = "np.rke2.io/traefik";
      pod_selector = labelled "app.kubernetes.io/name" "rke2-traefik";
      ingress = allow ((tcp, name "web") ∷ (tcp, name "websecure") ∷ []);
    }
    ∷ record {
      name = "default-network-snapshot-validation-webhook-policy";
      annotation_key = "np.rke2.io/snapshot-validation-webhook";
      pod_selector = labelled "app.kubernetes.io/name" "rke2-snapshot-validation-webhook";
      ingress = allow ((tcp, name "https") ∷ []);
    }
    ∷ record {
      name = "default-network-metrics-server-policy";
      annotation_key = "np.rke2.io/metrics-server";
      pod_selector = labelled "app" "rke2-metrics-server";
      ingress = allow ((tcp, name "https") ∷ []);
    }
    ∷ []

abbrev pub policy_from_template : PolicyTemplate → NetworkPolicy
policy_from_template template = record {
  name = template.name;
  annotations = (template.annotation_key, cis_annotation_value) ∷ [];
  pod_selector = template.pod_selector;
  policy_types = ingress_type ∷ [];
  ingress = template.ingress;
}
