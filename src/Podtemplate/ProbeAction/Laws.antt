-- ===== src/Podtemplate/ProbeAction/Laws.antt =====
-- pkg/podtemplate/podtemplate.go: which probes a Spec has.
use rke.Base.{
  ℕ, ◌≤◌, ◌<◌, String, none, some, List, [], ◌∷◌, ◌≡◌, ◌≢◌, ◌↔◌, refl, sym, arith, ◌⊎◌, inl, inr,
  ◌==◌, ==_iff, ltb, Bool-cases,
}
use mathlib.Core.Option.{some-injective}
use rke.Podtemplate.Probes.{ProbeConf}
use rke.Podtemplate.ProbeAction.{Probe, create_probe, at_least_5}

-- There is no probe exactly when there are neither a command nor a port.
pub create_probe-none_iff :
    (command : List String) (scheme host path : String) (port : ℕ) (conf : ProbeConf)
    → (create_probe command scheme host path port conf ≡ none) ↔ ((command ≡ []) × (port ≡ 0))
unfolding create_probe
create_probe-none_iff (word ∷ words) scheme host path port conf =
    (λ h. absurd cc, λ (h, h'). absurd cc)
create_probe-none_iff [] scheme host path port conf = elim (Bool-cases (port == 0)) [
  | inl zero_port ↦ (λ _. (refl, (==_iff port 0).0 zero_port), λ _. rw zero_port refl)
  | inr other ↦
      (λ h. absurd (let h' = rw other at h in cc), λ (_, h). ground (arith, ==_iff port 0))
]

-- What becomes of the thresholds: the period is at least five seconds if there is a command, and all
-- else is kept.
abbrev pub IsTuned : List String → ProbeConf → ProbeConf → Type 0
IsTuned command conf tuned =
    (tuned.initial_delay_seconds ≡ conf.initial_delay_seconds)
    × (tuned.timeout_seconds ≡ conf.timeout_seconds)
    × (tuned.failure_threshold ≡ conf.failure_threshold)
    × ((((command ≡ []) ⊎ (5 ≤ conf.period_seconds)) × (tuned.period_seconds ≡ conf.period_seconds))
        ⊎ ((command ≢ []) × (conf.period_seconds < 5) × (tuned.period_seconds ≡ 5)))

at_least_5-IsTuned :
    (word : String) (words : List String) (conf : ProbeConf)
    → IsTuned (word ∷ words) conf (at_least_5 conf)
at_least_5-IsTuned word words conf = elim (Bool-cases (ltb (conf.period_seconds) 5)) [
  | inl short ↦ rw short (refl, refl, refl, inr ((λ e. absurd cc), ground arith, refl))
  | inr long ↦ rw long (refl, refl, refl, inl (inr (ground arith), refl))
]

same-IsTuned : (conf : ProbeConf) → IsTuned [] conf conf
same-IsTuned conf = (refl, refl, refl, inl (inl refl, refl))

-- The thresholds of a probe: its period is at least five seconds if it runs a command, and all else is
-- as configured.
pub create_probe-conf :
    (command : List String) (scheme host path : String) (port : ℕ) (conf : ProbeConf) (p : Probe)
    → create_probe command scheme host path port conf ≡ some p
    → IsTuned command conf p.conf
unfolding create_probe
create_probe-conf (word ∷ words) scheme host path port conf p h =
    let e = some-injective _ p h in rw (sym e) (at_least_5-IsTuned word words conf)
create_probe-conf [] scheme host path port conf p h = elim (Bool-cases (port == 0)) [
  | inl zero_port ↦ absurd (let h' = rw zero_port at h in cc)
  | inr other ↦
      let h' = rw other at h in let e = some-injective _ p h' in rw (sym e) (same-IsTuned conf)
]
