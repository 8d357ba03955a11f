-- ===== src/Service/Control.antt =====
-- Starting, stopping and waiting in kernel/core/service.c.
use os.Prelude.{
  ℕ, zero, suc, ◌+◌, List, [], ◌∷◌, ◌++◌, none, some, Bool, true, false, not, ◌&&◌, ◌||◌,
  if◌then◌else◌, ◌==◌, get_elem?, update, add_size,
}
use os.Prelude.Int.{ℤ}
use os.Service.Table.{
  State, stopped, starting, Service, World, Effect, timed_stop, timed_start, network_init_call,
  graphics_init_call, graphics_stop, log_init, Services, dependency, state_at, valid_id, fail,
  is_ready, is_starting, is_active,
}
use os.Service.Poll.{poll_one}

abbrev pub started : Service → Service
started s = record s { state = starting; exit_code = 0; generation = add_size s.generation 1 }

-- `s->dependency < 0 || services[s->dependency].state == SERVICE_READY`
abbrev pub dependency_ready : List Service → ℕ → Bool
dependency_ready ss i = elim (dependency i) [ none ↦ true | some d ↦ is_ready (state_at ss d) ]

-- `service_start` on its service behind the check of the id, with its result.
unfoldable pub start_service : ℕ → Bool → World → Service → Service × Bool
start_service i dep w s =
    if is_active s.state
    then (s, true)
    else if not dep
    then (fail 69 s, false)
    else if (i == 6) && not w.network_init
    then (fail 19 (started s), false)
    else if (i == 8) && not w.graphics_init
    then (fail 6 (started s), false)
    else (started s, true)

abbrev pub start_effects : ℕ → Bool → State → List Effect
start_effects i dep st =
    if is_active st || not dep
    then []
    else if i == 2
    then timed_start ∷ []
    else if i == 6
    then network_init_call ∷ []
    else if i == 8
    then graphics_init_call ∷ []
    else if i == 9
    then log_init ∷ []
    else []

abbrev pub started_table : ℕ → World → List Service → List Service
started_table i w ss = update ss i (λ x. (start_service i (dependency_ready ss i) w x).0)

unfoldable pub start_at : ℕ → World → Services → Services × Bool
start_at i w s = elim (get_elem? s.table i) [
  | none ↦ (s, false)
  | some x ↦ (
    record {
      table = started_table i w s.table;
      effects = s.effects ++ start_effects i (dependency_ready s.table i) x.state;
    },
    (start_service i (dependency_ready s.table i) w x).1,
  )
]

unfoldable pub service_start : ℤ → World → Services → Services × Bool
service_start id w s = elim (valid_id id) [ none ↦ (s, false) | some i ↦ start_at i w s ]

abbrev pub stop_service : Service → Service
stop_service s = record s { state = stopped; exit_code = 0 }

abbrev pub stop_effects : ℕ → List Effect
stop_effects i = if i == 2 then timed_stop ∷ [] else if i == 8 then graphics_stop ∷ [] else []

unfoldable pub service_stop : ℤ → Services → Services × Bool
service_stop id s = elim (valid_id id) [
  | none ↦ (s, false)
  | some i ↦ (
    record { table = update s.table i stop_service; effects = s.effects ++ stop_effects i },
    true,
  )
]

-- `while (polls-- && state == SERVICE_STARTING) poll_one(id);`, `ws k` is the world of poll `k`.
unfoldable pub wait_loop : ℕ → ℕ → (ℕ → World) → ℕ → Services → Services
wait_loop zero i ws k s = s
wait_loop (suc polls) i ws k s =
    let rest = wait_loop polls i ws (k + 1) (poll_one i (ws k) s) in
    if is_starting (state_at s.table i) then rest else s

-- `if (state == SERVICE_STARTING) fail(&services[id], 110);`
abbrev pub expire : Service → Service
expire s = if is_starting s.state then fail 110 s else s

unfoldable pub wait_at : ℕ → ℕ → (ℕ → World) → Services → Services × Bool
wait_at i polls ws s =
    let t = wait_loop polls i ws 0 s in
    let table = update t.table i expire in
    (record { table = table; effects = t.effects }, is_ready (state_at table i))

-- `w` is the world of the start.
unfoldable pub service_wait_ready : ℤ → ℕ → World → (ℕ → World) → Services → Services × Bool
service_wait_ready id polls w ws s = elim (valid_id id) [
  | none ↦ (s, false)
  | some i ↦
      let (t, begun) = start_at i w s in
      let waited = wait_at i polls ws t in if begun then waited else (t, false)
]
