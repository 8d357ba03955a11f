-- ===== src/Service/Tests.antt =====
-- Runs of the service table on concrete worlds, and the theorems applied to them.
use os.Prelude.{◌≡◌, refl, ◌≢◌, [], ◌∷◌, true, false, replicate, arith}
use os.Prelude.Int.{pos}
use os.Service.Table.{World, Services, stopped, starting, ready, state_at, is_ready, service_init}
use os.Service.Control.{service_start, start_at, start_service, service_wait_ready}
use os.Service.Validity.{IsValid, start, stop, poll_all, run, run_init-IsValid}
use os.Service.Waiting.{OnlyAt, wait_ready-settles}
use os.Service.Boot.{start_boot_services}
use os.Service.Boot.Healthy.{IsHealthy, states}
use os.Service.Boot.Plan.{recovery_states, boot-ready, boot-recovery}

abbrev works : World
works = record {
  fs_count = 3;
  memory_free_bytes = 1000;
  memory_heap_bytes = 2000;
  timed_updates = 1;
  disk_sync = true;
  auth_user_count = 1;
  network_rx_packets = 0;
  network_tx_packets = 0;
  network_ready = true;
  network_init = true;
  display_characters = 9;
  display_ready = true;
  graphics_init = true;
  graphics_frames = 0;
  graphics_ready = true;
  log_count = 1;
}

abbrev off : Services
off = record {
  table = replicate 10 (record {
    state = stopped;
    exit_code = 0;
    generation = 0;
    cycles = 0;
    errors = 0;
    metric = 0;
  });
  effects = [];
}

works-IsHealthy : IsHealthy works
works-IsHealthy = ground arith

-- timed depends on memoryd, which is not started.
timed_refused : (service_start (pos 2) works off).1 ≡ false
unfolding service_start start_at start_service
timed_refused = refl

run_init-IsValid_example :
    IsValid
      (run (start (pos 2) works ∷ poll_all (λ i. works) ∷ stop (pos 2) ∷ []) (service_init off))
run_init-IsValid_example =
    run_init-IsValid (start (pos 2) works ∷ poll_all (λ i. works) ∷ stop (pos 2) ∷ []) off refl

wait_ready-settles_example :
    let (t, answer) = service_wait_ready (pos 1) 8 works (λ i. works) off in
    (answer ≡ is_ready (state_at t.table 1)) × (state_at t.table 1 ≢ starting) × OnlyAt 1 off t
wait_ready-settles_example = wait_ready-settles (pos 1) 8 works (λ i. works) off 1 refl

boot-ready_example :
    let (t, count) = start_boot_services false (λ k. works) (λ k j. works) (service_init off) in
    (states t.table ≡ replicate 10 ready) × (count ≡ 10)
boot-ready_example =
    boot-ready (λ k. works) (λ k j. works) (λ k. works-IsHealthy) (λ k j. works-IsHealthy) off refl

boot-recovery_example :
    let (t, count) = start_boot_services true (λ k. works) (λ k j. works) (service_init off) in
    (states t.table ≡ recovery_states) × (count ≡ 7)
boot-recovery_example =
    boot-recovery (λ k. works) (λ k j. works) (λ k. works-IsHealthy) (λ k j. works-IsHealthy) off
      refl
