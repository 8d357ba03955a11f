-- ===== src/Service/Query.antt =====
-- The functions of kernel/core/service.c that read one field of one service.
use os.Prelude.{ℕ, List, none, some, Bool, false, get_elem?}
use os.Prelude.Int.{ℤ}
use os.Prelude.CString.{codes}
use os.Service.Table.{
  State, stopped, starting, ready, failed, Service, Services, ServiceInfo, services_info, valid_id,
  is_ready, is_active,
}

abbrev pub field_at {ℓ} : {A : Type ℓ} → (Service → A) → A → ℤ → Services → A
field_at f d id s = elim (valid_id id) [
  | none ↦ d
  | some i ↦ elim (get_elem? s.table i) [ none ↦ d | some x ↦ f x ]
]

unfoldable service_running : ℤ → Services → Bool
service_running id s = field_at (λ x. is_active x.state) false id s

unfoldable service_ready : ℤ → Services → Bool
service_ready id s = field_at (λ x. is_ready x.state) false id s

unfoldable service_state : ℤ → Services → State
service_state id s = field_at (λ x. x.state) failed id s

unfoldable service_exit_code : ℤ → Services → ℕ
service_exit_code id s = field_at (λ x. x.exit_code) 127 id s

unfoldable service_generation : ℤ → Services → ℕ
service_generation id s = field_at (λ x. x.generation) 0 id s

unfoldable service_cycles : ℤ → Services → ℕ
service_cycles id s = field_at (λ x. x.cycles) 0 id s

unfoldable service_errors : ℤ → Services → ℕ
service_errors id s = field_at (λ x. x.errors) 0 id s

unfoldable service_metric : ℤ → Services → ℕ
service_metric id s = field_at (λ x. x.metric) 0 id s

abbrev pub name_of : State → List ℕ
name_of stopped = codes "stopped"
name_of starting = codes "starting"
name_of ready = codes "ready"
name_of failed = codes "failed"

unfoldable service_state_name : ℤ → Services → List ℕ
service_state_name id s = name_of (service_state id s)

abbrev pub info_at : (ServiceInfo → List ℕ) → ℤ → List ℕ
info_at f id = elim (valid_id id) [
  | none ↦ codes "unknown"
  | some i ↦ elim (get_elem? services_info i) [ none ↦ codes "unknown" | some r ↦ f r ]
]

unfoldable service_description : ℤ → List ℕ
service_description id = info_at (λ r. r.description) id

unfoldable service_name : ℤ → List ℕ
service_name id = info_at (λ r. r.name) id
