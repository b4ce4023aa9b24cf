-- ===== src/Tests/Orders.antt =====
-- Orders of the targets that name them all.
use rke.Base.{ℕ, zero, suc, some, List, [], ◌∷◌, ◌≡◌, inl, inr, refl, sym, get_elem?}
use mathlib.Core.Option.{some-injective}
use rke.Podtemplate.Assignment.Targets.{Listed}
use rke.Podtemplate.Component.{
  Component, kube_apiserver, kube_scheduler, kube_controller_manager, kube_proxy, etcd,
  cloud_controller_manager, Resource, cpu_request, cpu_limit, memory_request, memory_limit,
  liveness, readiness, startup, initial_delay_seconds, timeout_seconds, failure_threshold,
  period_seconds,
}
use rke.Podtemplate.Probes.{Target}

get_elem?-Listed :
    {T : Type 0} (t : T) (order : List T) (n : ℕ) → get_elem? order n ≡ some t → Listed t order
get_elem?-Listed t [] n h = cc
get_elem?-Listed t (u ∷ order) zero h = inl (sym (some-injective u t h))
get_elem?-Listed t (u ∷ order) (suc n) h = inr (get_elem?-Listed t order n h)

abbrev pub resource_order : List (Component × Resource)
resource_order =
    (kube_apiserver, cpu_request)
    ∷ (kube_apiserver, cpu_limit)
    ∷ (kube_apiserver, memory_request)
    ∷ (kube_apiserver, memory_limit)
    ∷ (kube_scheduler, cpu_request)
    ∷ (kube_scheduler, cpu_limit)
    ∷ (kube_scheduler, memory_request)
    ∷ (kube_scheduler, memory_limit)
    ∷ (kube_controller_manager, cpu_request)
    ∷ (kube_controller_manager, cpu_limit)
    ∷ (kube_controller_manager, memory_request)
    ∷ (kube_controller_manager, memory_limit)
    ∷ (kube_proxy, cpu_request)
    ∷ (kube_proxy, cpu_limit)
    ∷ (kube_proxy, memory_request)
    ∷ (kube_proxy, memory_limit)
    ∷ (etcd, cpu_request)
    ∷ (etcd, cpu_limit)
    ∷ (etcd, memory_request)
    ∷ (etcd, memory_limit)
    ∷ (cloud_controller_manager, cpu_request)
    ∷ (cloud_controller_manager, cpu_limit)
    ∷ (cloud_controller_manager, memory_request)
    ∷ (cloud_controller_manager, memory_limit)
    ∷ []

pub resource_order-Listed : (t : Component × Resource) → Listed t resource_order
resource_order-Listed (kube_apiserver, cpu_request) = get_elem?-Listed _ resource_order 0 refl
resource_order-Listed (kube_apiserver, cpu_limit) = get_elem?-Listed _ resource_order 1 refl
resource_order-Listed (kube_apiserver, memory_request) = get_elem?-Listed _ resource_order 2 refl
resource_order-Listed (kube_apiserver, memory_limit) = get_elem?-Listed _ resource_order 3 refl
resource_order-Listed (kube_scheduler, cpu_request) = get_elem?-Listed _ resource_order 4 refl
resource_order-Listed (kube_scheduler, cpu_limit) = get_elem?-Listed _ resource_order 5 refl
resource_order-Listed (kube_scheduler, memory_request) = get_elem?-Listed _ resource_order 6 refl
resource_order-Listed (kube_scheduler, memory_limit) = get_elem?-Listed _ resource_order 7 refl
resource_order-Listed (kube_controller_manager, cpu_request) =
    get_elem?-Listed _ resource_order 8 refl
resource_order-Listed (kube_controller_manager, cpu_limit) =
    get_elem?-Listed _ resource_order 9 refl
resource_order-Listed (kube_controller_manager, memory_request) =
    get_elem?-Listed _ resource_order 10 refl
resource_order-Listed (kube_controller_manager, memory_limit) =
    get_elem?-Listed _ resource_order 11 refl
resource_order-Listed (kube_proxy, cpu_request) = get_elem?-Listed _ resource_order 12 refl
resource_order-Listed (kube_proxy, cpu_limit) = get_elem?-Listed _ resource_order 13 refl
resource_order-Listed (kube_proxy, memory_request) = get_elem?-Listed _ resource_order 14 refl
resource_order-Listed (kube_proxy, memory_limit) = get_elem?-Listed _ resource_order 15 refl
resource_order-Listed (etcd, cpu_request) = get_elem?-Listed _ resource_order 16 refl
resource_order-Listed (etcd, cpu_limit) = get_elem?-Listed _ resource_order 17 refl
resource_order-Listed (etcd, memory_request) = get_elem?-Listed _ resource_order 18 refl
resource_order-Listed (etcd, memory_limit) = get_elem?-Listed _ resource_order 19 refl
resource_order-Listed (cloud_controller_manager, cpu_request) =
    get_elem?-Listed _ resource_order 20 refl
resource_order-Listed (cloud_controller_manager, cpu_limit) =
    get_elem?-Listed _ resource_order 21 refl
resource_order-Listed (cloud_controller_manager, memory_request) =
    get_elem?-Listed _ resource_order 22 refl
resource_order-Listed (cloud_controller_manager, memory_limit) =
    get_elem?-Listed _ resource_order 23 refl

abbrev pub probe_order : List Target
probe_order =
    (kube_apiserver, liveness, initial_delay_seconds)
    ∷ (kube_apiserver, liveness, timeout_seconds)
    ∷ (kube_apiserver, liveness, failure_threshold)
    ∷ (kube_apiserver, liveness, period_seconds)
    ∷ (kube_apiserver, readiness, initial_delay_seconds)
    ∷ (kube_apiserver, readiness, timeout_seconds)
    ∷ (kube_apiserver, readiness, failure_threshold)
    ∷ (kube_apiserver, readiness, period_seconds)
    ∷ (kube_apiserver, startup, initial_delay_seconds)
    ∷ (kube_apiserver, startup, timeout_seconds)
    ∷ (kube_apiserver, startup, failure_threshold)
    ∷ (kube_apiserver, startup, period_seconds)
    ∷ (kube_scheduler, liveness, initial_delay_seconds)
    ∷ (kube_scheduler, liveness, timeout_seconds)
    ∷ (kube_scheduler, liveness, failure_threshold)
    ∷ (kube_scheduler, liveness, period_seconds)
    ∷ (kube_scheduler, readiness, initial_delay_seconds)
    ∷ (kube_scheduler, readiness, timeout_seconds)
    ∷ (kube_scheduler, readiness, failure_threshold)
    ∷ (kube_scheduler, readiness, period_seconds)
    ∷ (kube_scheduler, startup, initial_delay_seconds)
    ∷ (kube_scheduler, startup, timeout_seconds)
    ∷ (kube_scheduler, startup, failure_threshold)
    ∷ (kube_scheduler, startup, period_seconds)
    ∷ (kube_controller_manager, liveness, initial_delay_seconds)
    ∷ (kube_controller_manager, liveness, timeout_seconds)
    ∷ (kube_controller_manager, liveness, failure_threshold)
    ∷ (kube_controller_manager, liveness, period_seconds)
    ∷ (kube_controller_manager, readiness, initial_delay_seconds)
    ∷ (kube_controller_manager, readiness, timeout_seconds)
    ∷ (kube_controller_manager, readiness, failure_threshold)
    ∷ (kube_controller_manager, readiness, period_seconds)
    ∷ (kube_controller_manager, startup, initial_delay_seconds)
    ∷ (kube_controller_manager, startup, timeout_seconds)
    ∷ (kube_controller_manager, startup, failure_threshold)
    ∷ (kube_controller_manager, startup, period_seconds)
    ∷ (kube_proxy, liveness, initial_delay_seconds)
    ∷ (kube_proxy, liveness, timeout_seconds)
    ∷ (kube_proxy, liveness, failure_threshold)
    ∷ (kube_proxy, liveness, period_seconds)
    ∷ (kube_proxy, readiness, initial_delay_seconds)
    ∷ (kube_proxy, readiness, timeout_seconds)
    ∷ (kube_proxy, readiness, failure_threshold)
    ∷ (kube_proxy, readiness, period_seconds)
    ∷ (kube_proxy, startup, initial_delay_seconds)
    ∷ (kube_proxy, startup, timeout_seconds)
    ∷ (kube_proxy, startup, failure_threshold)
    ∷ (kube_proxy, startup, period_seconds)
    ∷ (etcd, liveness, initial_delay_seconds)
    ∷ (etcd, liveness, timeout_seconds)
    ∷ (etcd, liveness, failure_threshold)
    ∷ (etcd, liveness, period_seconds)
    ∷ (etcd, readiness, initial_delay_seconds)
    ∷ (etcd, readiness, timeout_seconds)
    ∷ (etcd, readiness, failure_threshold)
    ∷ (etcd, readiness, period_seconds)
    ∷ (etcd, startup, initial_delay_seconds)
    ∷ (etcd, startup, timeout_seconds)
    ∷ (etcd, startup, failure_threshold)
    ∷ (etcd, startup, period_seconds)
    ∷ (cloud_controller_manager, liveness, initial_delay_seconds)
    ∷ (cloud_controller_manager, liveness, timeout_seconds)
    ∷ (cloud_controller_manager, liveness, failure_threshold)
    ∷ (cloud_controller_manager, liveness, period_seconds)
    ∷ (cloud_controller_manager, readiness, initial_delay_seconds)
    ∷ (cloud_controller_manager, readiness, timeout_seconds)
    ∷ (cloud_controller_manager, readiness, failure_threshold)
    ∷ (cloud_controller_manager, readiness, period_seconds)
    ∷ (cloud_controller_manager, startup, initial_delay_seconds)
    ∷ (cloud_controller_manager, startup, timeout_seconds)
    ∷ (cloud_controller_manager, startup, failure_threshold)
    ∷ (cloud_controller_manager, startup, period_seconds)
    ∷ []

pub probe_order-Listed : (t : Target) → Listed t probe_order
probe_order-Listed (kube_apiserver, liveness, initial_delay_seconds) =
    get_elem?-Listed _ probe_order 0 refl
probe_order-Listed (kube_apiserver, liveness, timeout_seconds) =
    get_elem?-Listed _ probe_order 1 refl
probe_order-Listed (kube_apiserver, liveness, failure_threshold) =
    get_elem?-Listed _ probe_order 2 refl
probe_order-Listed (kube_apiserver, liveness, period_seconds) =
    get_elem?-Listed _ probe_order 3 refl
probe_order-Listed (kube_apiserver, readiness, initial_delay_seconds) =
    get_elem?-Listed _ probe_order 4 refl
probe_order-Listed (kube_apiserver, readiness, timeout_seconds) =
    get_elem?-Listed _ probe_order 5 refl
probe_order-Listed (kube_apiserver, readiness, failure_threshold) =
    get_elem?-Listed _ probe_order 6 refl
probe_order-Listed (kube_apiserver, readiness, period_seconds) =
    get_elem?-Listed _ probe_order 7 refl
probe_order-Listed (kube_apiserver, startup, initial_delay_seconds) =
    get_elem?-Listed _ probe_order 8 refl
probe_order-Listed (kube_apiserver, startup, timeout_seconds) =
    get_elem?-Listed _ probe_order 9 refl
probe_order-Listed (kube_apiserver, startup, failure_threshold) =
    get_elem?-Listed _ probe_order 10 refl
probe_order-Listed (kube_apiserver, startup, period_seconds) =
    get_elem?-Listed _ probe_order 11 refl
probe_order-Listed (kube_scheduler, liveness, initial_delay_seconds) =
    get_elem?-Listed _ probe_order 12 refl
probe_order-Listed (kube_scheduler, liveness, timeout_seconds) =
    get_elem?-Listed _ probe_order 13 refl
probe_order-Listed (kube_scheduler, liveness, failure_threshold) =
    get_elem?-Listed _ probe_order 14 refl
probe_order-Listed (kube_scheduler, liveness, period_seconds) =
    get_elem?-Listed _ probe_order 15 refl
probe_order-Listed (kube_scheduler, readiness, initial_delay_seconds) =
    get_elem?-Listed _ probe_order 16 refl
probe_order-Listed (kube_scheduler, readiness, timeout_seconds) =
    get_elem?-Listed _ probe_order 17 refl
probe_order-Listed (kube_scheduler, readiness, failure_threshold) =
    get_elem?-Listed _ probe_order 18 refl
probe_order-Listed (kube_scheduler, readiness, period_seconds) =
    get_elem?-Listed _ probe_order 19 refl
probe_order-Listed (kube_scheduler, startup, initial_delay_seconds) =
    get_elem?-Listed _ probe_order 20 refl
probe_order-Listed (kube_scheduler, startup, timeout_seconds) =
    get_elem?-Listed _ probe_order 21 refl
probe_order-Listed (kube_scheduler, startup, failure_threshold) =
    get_elem?-Listed _ probe_order 22 refl
probe_order-Listed (kube_scheduler, startup, period_seconds) =
    get_elem?-Listed _ probe_order 23 refl
probe_order-Listed (kube_controller_manager, liveness, initial_delay_seconds) =
    get_elem?-Listed _ probe_order 24 refl
probe_order-Listed (kube_controller_manager, liveness, timeout_seconds) =
    get_elem?-Listed _ probe_order 25 refl
probe_order-Listed (kube_controller_manager, liveness, failure_threshold) =
    get_elem?-Listed _ probe_order 26 refl
probe_order-Listed (kube_controller_manager, liveness, period_seconds) =
    get_elem?-Listed _ probe_order 27 refl
probe_order-Listed (kube_controller_manager, readiness, initial_delay_seconds) =
    get_elem?-Listed _ probe_order 28 refl
probe_order-Listed (kube_controller_manager, readiness, timeout_seconds) =
    get_elem?-Listed _ probe_order 29 refl
probe_order-Listed (kube_controller_manager, readiness, failure_threshold) =
    get_elem?-Listed _ probe_order 30 refl
probe_order-Listed (kube_controller_manager, readiness, period_seconds) =
    get_elem?-Listed _ probe_order 31 refl
probe_order-Listed (kube_controller_manager, startup, initial_delay_seconds) =
    get_elem?-Listed _ probe_order 32 refl
probe_order-Listed (kube_controller_manager, startup, timeout_seconds) =
    get_elem?-Listed _ probe_order 33 refl
probe_order-Listed (kube_controller_manager, startup, failure_threshold) =
    get_elem?-Listed _ probe_order 34 refl
probe_order-Listed (kube_controller_manager, startup, period_seconds) =
    get_elem?-Listed _ probe_order 35 refl
probe_order-Listed (kube_proxy, liveness, initial_delay_seconds) =
    get_elem?-Listed _ probe_order 36 refl
probe_order-Listed (kube_proxy, liveness, timeout_seconds) = get_elem?-Listed _ probe_order 37 refl
probe_order-Listed (kube_proxy, liveness, failure_threshold) =
    get_elem?-Listed _ probe_order 38 refl
probe_order-Listed (kube_proxy, liveness, period_seconds) = get_elem?-Listed _ probe_order 39 refl
probe_order-Listed (kube_proxy, readiness, initial_delay_seconds) =
    get_elem?-Listed _ probe_order 40 refl
probe_order-Listed (kube_proxy, readiness, timeout_seconds) = get_elem?-Listed _ probe_order 41 refl
probe_order-Listed (kube_proxy, readiness, failure_threshold) =
    get_elem?-Listed _ probe_order 42 refl
probe_order-Listed (kube_proxy, readiness, period_seconds) = get_elem?-Listed _ probe_order 43 refl
probe_order-Listed (kube_proxy, startup, initial_delay_seconds) =
    get_elem?-Listed _ probe_order 44 refl
probe_order-Listed (kube_proxy, startup, timeout_seconds) = get_elem?-Listed _ probe_order 45 refl
probe_order-Listed (kube_proxy, startup, failure_threshold) = get_elem?-Listed _ probe_order 46 refl
probe_order-Listed (kube_proxy, startup, period_seconds) = get_elem?-Listed _ probe_order 47 refl
probe_order-Listed (etcd, liveness, initial_delay_seconds) = get_elem?-Listed _ probe_order 48 refl
probe_order-Listed (etcd, liveness, timeout_seconds) = get_elem?-Listed _ probe_order 49 refl
probe_order-Listed (etcd, liveness, failure_threshold) = get_elem?-Listed _ probe_order 50 refl
probe_order-Listed (etcd, liveness, period_seconds) = get_elem?-Listed _ probe_order 51 refl
probe_order-Listed (etcd, readiness, initial_delay_seconds) = get_elem?-Listed _ probe_order 52 refl
probe_order-Listed (etcd, readiness, timeout_seconds) = get_elem?-Listed _ probe_order 53 refl
probe_order-Listed (etcd, readiness, failure_threshold) = get_elem?-Listed _ probe_order 54 refl
probe_order-Listed (etcd, readiness, period_seconds) = get_elem?-Listed _ probe_order 55 refl
probe_order-Listed (etcd, startup, initial_delay_seconds) = get_elem?-Listed _ probe_order 56 refl
probe_order-Listed (etcd, startup, timeout_seconds) = get_elem?-Listed _ probe_order 57 refl
probe_order-Listed (etcd, startup, failure_threshold) = get_elem?-Listed _ probe_order 58 refl
probe_order-Listed (etcd, startup, period_seconds) = get_elem?-Listed _ probe_order 59 refl
probe_order-Listed (cloud_controller_manager, liveness, initial_delay_seconds) =
    get_elem?-Listed _ probe_order 60 refl
probe_order-Listed (cloud_controller_manager, liveness, timeout_seconds) =
    get_elem?-Listed _ probe_order 61 refl
probe_order-Listed (cloud_controller_manager, liveness, failure_threshold) =
    get_elem?-Listed _ probe_order 62 refl
probe_order-Listed (cloud_controller_manager, liveness, period_seconds) =
    get_elem?-Listed _ probe_order 63 refl
probe_order-Listed (cloud_controller_manager, readiness, initial_delay_seconds) =
    get_elem?-Listed _ probe_order 64 refl
probe_order-Listed (cloud_controller_manager, readiness, timeout_seconds) =
    get_elem?-Listed _ probe_order 65 refl
probe_order-Listed (cloud_controller_manager, readiness, failure_threshold) =
    get_elem?-Listed _ probe_order 66 refl
probe_order-Listed (cloud_controller_manager, readiness, period_seconds) =
    get_elem?-Listed _ probe_order 67 refl
probe_order-Listed (cloud_controller_manager, startup, initial_delay_seconds) =
    get_elem?-Listed _ probe_order 68 refl
probe_order-Listed (cloud_controller_manager, startup, timeout_seconds) =
    get_elem?-Listed _ probe_order 69 refl
probe_order-Listed (cloud_controller_manager, startup, failure_threshold) =
    get_elem?-Listed _ probe_order 70 refl
probe_order-Listed (cloud_controller_manager, startup, period_seconds) =
    get_elem?-Listed _ probe_order 71 refl
