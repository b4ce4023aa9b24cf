-- ===== src/Podtemplate/Probes.antt =====
-- pkg/podtemplate/config.go: parseControlPlaneProbeConfs. The maps of pointers to the fields are the
-- function `assign`; the order in which Go ranges over them is the argument `order`. An int32 is its
-- value, which the parser keeps from being negative.
pub mod Laws
pub mod Fields
use rke.Base.{ℕ, String, ◌<>◌, Option, none, some, List, []}
use rke.Base.Dict.{Dict, lookup}
use rke.Base.Result.{Result, ok, ◌>>=◌}
use rke.Podtemplate.Assignment.{put_all_probe_confs}
use rke.Podtemplate.Assignment.Targets.{assign_all, or_default}
use rke.Podtemplate.Component.{
  Component, kube_apiserver, kube_scheduler, kube_controller_manager, kube_proxy, etcd,
  cloud_controller_manager, component_name, ProbeType, liveness, readiness, startup, probe_name,
  Threshold, initial_delay_seconds, timeout_seconds, failure_threshold, period_seconds,
  threshold_name,
}

pub record ProbeConf : Type 0 where
  pub initial_delay_seconds : ℕ
  pub timeout_seconds : ℕ
  pub failure_threshold : ℕ
  pub period_seconds : ℕ

pub record ProbeConfs : Type 0 where
  pub liveness : ProbeConf
  pub readiness : ProbeConf
  pub startup : ProbeConf

pub record ControlPlaneProbeConfs : Type 0 where
  pub kube_apiserver : ProbeConfs
  pub kube_scheduler : ProbeConfs
  pub kube_controller_manager : ProbeConfs
  pub kube_proxy : ProbeConfs
  pub etcd : ProbeConfs
  pub cloud_controller_manager : ProbeConfs

-- The zero values of the structs.
abbrev pub no_conf : ProbeConf
no_conf = record {
  initial_delay_seconds = 0;
  timeout_seconds = 0;
  failure_threshold = 0;
  period_seconds = 0;
}

abbrev pub no_confs : ProbeConfs
no_confs = record { liveness = no_conf; readiness = no_conf; startup = no_conf }

abbrev pub no_probe_confs : ControlPlaneProbeConfs
no_probe_confs = record {
  kube_apiserver = no_confs;
  kube_scheduler = no_confs;
  kube_controller_manager = no_confs;
  kube_proxy = no_confs;
  etcd = no_confs;
  cloud_controller_manager = no_confs;
}

unfoldable pub threshold : Threshold → ProbeConf → ℕ
threshold initial_delay_seconds s = s.initial_delay_seconds
threshold timeout_seconds s = s.timeout_seconds
threshold failure_threshold s = s.failure_threshold
threshold period_seconds s = s.period_seconds

unfoldable pub with_threshold : Threshold → ℕ → ProbeConf → ProbeConf
with_threshold initial_delay_seconds v s = record s { initial_delay_seconds = v }
with_threshold timeout_seconds v s = record s { timeout_seconds = v }
with_threshold failure_threshold v s = record s { failure_threshold = v }
with_threshold period_seconds v s = record s { period_seconds = v }

unfoldable pub probe : ProbeType → ProbeConfs → ProbeConf
probe liveness s = s.liveness
probe readiness s = s.readiness
probe startup s = s.startup

unfoldable pub with_probe : ProbeType → ProbeConf → ProbeConfs → ProbeConfs
with_probe liveness v s = record s { liveness = v }
with_probe readiness v s = record s { readiness = v }
with_probe startup v s = record s { startup = v }

unfoldable pub component : Component → ControlPlaneProbeConfs → ProbeConfs
component kube_apiserver s = s.kube_apiserver
component kube_scheduler s = s.kube_scheduler
component kube_controller_manager s = s.kube_controller_manager
component kube_proxy s = s.kube_proxy
component etcd s = s.etcd
component cloud_controller_manager s = s.cloud_controller_manager

unfoldable pub with_component :
    Component → ProbeConfs → ControlPlaneProbeConfs → ControlPlaneProbeConfs
with_component kube_apiserver v s = record s { kube_apiserver = v }
with_component kube_scheduler v s = record s { kube_scheduler = v }
with_component kube_controller_manager v s = record s { kube_controller_manager = v }
with_component kube_proxy v s = record s { kube_proxy = v }
with_component etcd v s = record s { etcd = v }
with_component cloud_controller_manager v s = record s { cloud_controller_manager = v }

abbrev pub Target : Type 0
Target = Component × ProbeType × Threshold

-- The field that the map holds for a component, a probe and a threshold.
abbrev pub field : Target → ControlPlaneProbeConfs → ℕ
field (c, p, t) s = threshold t (probe p (component c s))

-- `*target = value` for that field.
abbrev pub assign : Target → ℕ → ControlPlaneProbeConfs → ControlPlaneProbeConfs
assign (c, p, t) v s =
    with_component c (with_probe p (with_threshold t v (probe p (component c s))) (component c s)) s

unfoldable pub default_probe_conf : ProbeType → Threshold → ℕ
default_probe_conf liveness initial_delay_seconds = 10
default_probe_conf liveness timeout_seconds = 15
default_probe_conf liveness failure_threshold = 8
default_probe_conf liveness period_seconds = 10
default_probe_conf readiness initial_delay_seconds = 0
default_probe_conf readiness timeout_seconds = 15
default_probe_conf readiness failure_threshold = 3
default_probe_conf readiness period_seconds = 1
default_probe_conf startup initial_delay_seconds = 10
default_probe_conf startup timeout_seconds = 15
default_probe_conf startup failure_threshold = 24
default_probe_conf startup period_seconds = 10

abbrev pub key : Target → String
key (c, p, t) = component_name c <> ("-" <> (probe_name p <> ("-" <> threshold_name t)))

-- The value that the loops find for a target.
abbrev pub found : Dict ℕ → Target → Option ℕ
found parsed (c, p, t) = or_default (lookup (key (c, p, t)) parsed) (some (default_probe_conf p t))

unfoldable pub parse_control_plane_probe_confs :
    List Target → List String → Result ControlPlaneProbeConfs
unfolding put_all_probe_confs assign_all with_component with_probe with_threshold component probe
    threshold lookup default_probe_conf
parse_control_plane_probe_confs order probe_confs = do
  parsed ← put_all_probe_confs probe_confs []
  ok (assign_all assign (found parsed) order no_probe_confs)
