-- ===== src/Podtemplate/ProbeAction.antt =====
-- pkg/podtemplate/podtemplate.go: createProbe, and the probes of a Spec.
pub mod Laws
use rke.Base.{ℕ, Bool, String, Option, none, some, List, [], ◌∷◌, ◌=ₛ◌, ◌==◌, ltb, if◌then◌else◌}
use rke.Images.Names.{Names}
use rke.Podtemplate.Probes.{ProbeConf, ProbeConfs}
use rke.Podtemplate.Spec.{Spec}

pub data Handler : Type 0 where
  exec : List String → Handler
  -- path, host, scheme and port
  http_get : String → String → String → ℕ → Handler

pub record Probe : Type 0 where
  pub handler : Handler
  pub conf : ProbeConf

abbrev pub at_least_5 : ProbeConf → ProbeConf
at_least_5 conf = if ltb conf.period_seconds 5 then record conf { period_seconds = 5 } else conf

abbrev or_text : String → String → String
or_text text default = if text =ₛ "" then default else text

unfoldable pub create_probe : List String → String → String → String → ℕ → ProbeConf → Option Probe
create_probe (word ∷ words) scheme host path port conf =
    some (record { handler = exec (word ∷ words); conf = at_least_5 conf })
create_probe [] scheme host path port conf =
    if port == 0
    then none
    else some (record {
      handler = http_get (or_text path "/livez") host (or_text scheme "HTTPS") port;
      conf = conf;
    })

module _ {N : Names} (s : Spec N) where
  abbrev probe_host : String
  probe_host = if s.host_network then "localhost" else ""

  unfoldable pub liveness_probe : Option Probe
  unfolding create_probe
  liveness_probe =
      create_probe s.health_exec s.health_scheme probe_host s.health_path s.health_port
        s.probe_confs.liveness

  unfoldable pub readiness_probe : Option Probe
  unfolding create_probe
  readiness_probe =
      create_probe s.ready_exec s.ready_scheme probe_host s.ready_path s.ready_port
        s.probe_confs.readiness

  unfoldable pub startup_probe : Option Probe
  unfolding create_probe
  startup_probe =
      create_probe s.startup_exec s.startup_scheme probe_host s.startup_path s.startup_port
        s.probe_confs.startup
