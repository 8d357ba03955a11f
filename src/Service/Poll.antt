-- ===== src/Service/Poll.antt =====
-- The polls of kernel/core/service.c: `poll_one` and `service_poll_all`.
use os.Prelude.{
  ℕ, zero, suc, ◌+◌, List, [], ◌∷◌, ◌++◌, Bool, not, if◌then◌else◌, ◌==◌, update, add_size,
}
use os.Service.Table.{
  State, ready, Service, World, Effect, timed_poll, disk_sync_call, network_poll, graphics_poll,
  log_poll, Services, service_count, state_at, fail, is_starting, is_active,
}

-- `if (test) state = READY; else fail(s, code);`
abbrev pub ready_or_fail : Bool → ℕ → Service → Service
ready_or_fail test code s = if test then record s { state = ready } else fail code s

-- The branches of `poll_one` behind its guard, `s` with its `cycles` counted.
unfoldable pub poll_service : ℕ → World → Service → Service
poll_service i w s =
    if i == 0
    then (let t = record s { metric = w.fs_count } in
        if w.fs_count == 0 then t else record t { state = ready })
    else if i == 1
    then ready_or_fail (not (w.memory_heap_bytes == 0)) 12
        (record s { metric = w.memory_free_bytes })
    else if i == 2
    then (let t = record s { metric = w.timed_updates } in
        if w.timed_updates == 0 then t else record t { state = ready })
    else if i == 3
    then (if is_starting s.state
        then (if w.disk_sync
            then record s { metric = add_size s.metric 1; state = ready }
            else fail 5 s)
        else record s { metric = add_size s.metric 1 })
    else if i == 4
    then ready_or_fail (not (w.auth_user_count == 0)) 2 (record s { metric = w.auth_user_count })
    else if i == 5
    then record s { metric = 1; state = ready }
    else if i == 6
    then ready_or_fail w.network_ready 19
        (record s { metric = add_size w.network_rx_packets w.network_tx_packets })
    else if i == 7
    then ready_or_fail w.display_ready 6 (record s { metric = w.display_characters })
    else if i == 9
    then record s { metric = if w.log_count == 0 then 1 else w.log_count; state = ready }
    else ready_or_fail w.graphics_ready 6 (record s { metric = w.graphics_frames })

abbrev pub poll_effects : ℕ → State → List Effect
poll_effects i st =
    if i == 2
    then timed_poll ∷ []
    else if i == 3
    then (if is_starting st then disk_sync_call ∷ [] else [])
    else if i == 6
    then network_poll ∷ []
    else if i == 8
    then graphics_poll ∷ []
    else if i == 9
    then log_poll ∷ []
    else []

abbrev pub counted : Service → Service
counted s = record s { cycles = add_size s.cycles 1 }

-- `poll_one` on its service.
unfoldable pub poll_state : ℕ → World → Service → Service
poll_state i w s = if is_active s.state then poll_service i w (counted s) else s

unfoldable pub poll_one : ℕ → World → Services → Services
poll_one i w s = record {
  table = update s.table i (poll_state i w);
  effects =
      s.effects
      ++ (if is_active (state_at s.table i) then poll_effects i (state_at s.table i) else []);
}

-- The rounds of `service_poll_all` from `i` on, `n` of them; `ws i` is the world of round `i`.
unfoldable pub poll_from : ℕ → ℕ → (ℕ → World) → Services → Services
poll_from zero i ws s = s
poll_from (suc n) i ws s = poll_from n (i + 1) ws (poll_one i (ws i) s)

unfoldable pub service_poll_all : (ℕ → World) → Services → Services
service_poll_all ws s = poll_from service_count 0 ws s
