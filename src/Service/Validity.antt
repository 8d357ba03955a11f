-- ===== src/Service/Validity.antt =====
-- The invariant of the table of kernel/core/service.c, over any sequence of its calls.
use os.Prelude.{
  ℕ, zero, suc, ◌+◌, ◌≡◌, refl, ◌∙◌, ◌≢◌, List, [], ◌∷◌, Bool, true, ◌||◌, ◌==◌, length, get_elem?,
  update, arith, length-update, Bool-cases, Option-cases, inl, inr,
}
use os.Prelude.Int.{ℤ}
use os.Service.Table.{
  failed, Service, World, Services, service_count, state_at, valid_id, is_starting, is_active,
  reset_all, service_init,
}
use os.Service.Poll.{poll_service, counted, poll_state, poll_one, poll_from, service_poll_all}
use os.Service.Control.{
  dependency_ready, start_service, start_at, service_start, stop_service, service_stop, wait_loop,
  expire, wait_at, service_wait_ready,
}

-- The codes that a failure is given.
abbrev pub known_code : ℕ → Bool
known_code c = c == 2 || c == 5 || c == 6 || c == 12 || c == 19 || c == 69 || c == 110

-- A failed service has the code of its failure, any other the code 0.
pub record IsSound (s : Service) : Type 0 where
  pub failing : s.state ≡ failed → known_code s.exit_code ≡ true
  pub fine : s.state ≢ failed → s.exit_code ≡ 0

abbrev pub AllSound : List Service → Type 0
AllSound [] = Unit {0}
AllSound (s ∷ ss) = IsSound s × AllSound ss

pub record IsValid (s : Services) : Type 0 where
  pub full : length s.table ≡ service_count
  pub sound : AllSound s.table

AllSound-update :
    (ss : List Service) (i : ℕ) (f : Service → Service)
    → ((s : Service) → IsSound s → IsSound (f s))
    → AllSound ss
    → AllSound (update ss i f)
AllSound-update [] i f k h = h
AllSound-update (s ∷ ss) zero f k h = (k s h.0, h.1)
AllSound-update (s ∷ ss) (suc i) f k h = (h.0, AllSound-update ss i f k h.1)

update-IsValid :
    (s : Services) (i : ℕ) (f : Service → Service)
    → ((x : Service) → IsSound x → IsSound (f x))
    → IsValid s
    → length (update s.table i f) ≡ service_count × AllSound (update s.table i f)
update-IsValid s i f k v =
    (length-update s.table i f ∙ v.full, AllSound-update s.table i f k v.sound)

reset_all_sound : (ss : List Service) → AllSound (reset_all ss)
reset_all_sound [] = tt
reset_all_sound (s ∷ ss) = (ground arith, reset_all_sound ss)

length-reset_all : (ss : List Service) → length (reset_all ss) ≡ length ss
length-reset_all [] = refl
length-reset_all (s ∷ ss) = λ j. suc (length-reset_all ss j)

-- A poll of an active service leaves it sound.
poll_service-IsSound :
    (i : ℕ) (w : World) (s : Service)
    → is_active s.state ≡ true
    → IsSound s
    → IsSound (poll_service i w s)
unfolding poll_service
poll_service-IsSound i w s a h = record { failing = ground arith; fine = ground arith }

poll_state-IsSound : (i : ℕ) (w : World) (s : Service) → IsSound s → IsSound (poll_state i w s)
unfolding poll_state
poll_state-IsSound i w s h = elim (Bool-cases (is_active s.state)) [
  | inl e ↦
      rw e (poll_service-IsSound i w (counted s) e (record { failing = h.failing; fine = h.fine }))
  | inr e ↦ rw e h
]

poll_one-IsValid : (i : ℕ) (w : World) {s : Services} → IsValid s → IsValid (poll_one i w s)
unfolding poll_one
poll_one-IsValid i w {s} v =
    let u = update-IsValid s i (poll_state i w) (poll_state-IsSound i w) v in
    record { full = u.0; sound = u.1 }

poll_from-IsValid :
    (n i : ℕ) (ws : ℕ → World) {s : Services} → IsValid s → IsValid (poll_from n i ws s)
unfolding poll_from
poll_from-IsValid zero i ws v = v
poll_from-IsValid (suc n) i ws v = poll_from-IsValid n (i + 1) ws (poll_one-IsValid i (ws i) v)

start_service-IsSound :
    (i : ℕ) (dep : Bool) (w : World) (s : Service) → IsSound s → IsSound (start_service i dep w s).0
unfolding start_service
start_service-IsSound i dep w s h = record { failing = ground arith; fine = ground arith }

start_at-IsValid : (i : ℕ) (w : World) {s : Services} → IsValid s → IsValid (start_at i w s).0
unfolding start_at
start_at-IsValid i w {s} v =
    let dep = dependency_ready s.table i in
    let u =
      update-IsValid s i (λ x. (start_service i dep w x).0) (start_service-IsSound i dep w) v in
    elim (Option-cases (get_elem? s.table i)) [
      | inl e ↦ rw (e, start_at) v
      | inr e ↦ rw (e.1, start_at) (record { full = u.0; sound = u.1 })
    ]

stop_service-IsSound : (s : Service) → IsSound s → IsSound (stop_service s)
stop_service-IsSound s h = record { failing = ground arith; fine = λ n. refl }

expire-IsSound : (s : Service) → IsSound s → IsSound (expire s)
expire-IsSound s h = record { failing = ground arith; fine = ground arith }

wait_loop-IsValid :
    (polls i : ℕ) (ws : ℕ → World) (k : ℕ) {s : Services}
    → IsValid s
    → IsValid (wait_loop polls i ws k s)
unfolding wait_loop
wait_loop-IsValid zero i ws k v = v
wait_loop-IsValid (suc polls) i ws k {s} v = elim (Bool-cases (is_starting (state_at s.table i))) [
  | inl e ↦ rw e (wait_loop-IsValid polls i ws (k + 1) (poll_one-IsValid i (ws k) v))
  | inr e ↦ rw e v
]

wait_at-IsValid :
    (i polls : ℕ) (ws : ℕ → World) {s : Services} → IsValid s → IsValid (wait_at i polls ws s).0
unfolding wait_at
wait_at-IsValid i polls ws {s} v =
    let u =
      update-IsValid (wait_loop polls i ws 0 s) i expire expire-IsSound
        (wait_loop-IsValid polls i ws 0 v) in
    record { full = u.0; sound = u.1 }

service_start-IsValid :
    (id : ℤ) (w : World) {s : Services} → IsValid s → IsValid (service_start id w s).0
unfolding service_start
service_start-IsValid id w {s} v = elim (Option-cases (valid_id id)) [
  | inl e ↦ rw (e, service_start) v
  | inr e ↦ rw (e.1, service_start) (start_at-IsValid e.0 w v)
]

service_stop-IsValid : (id : ℤ) {s : Services} → IsValid s → IsValid (service_stop id s).0
unfolding service_stop
service_stop-IsValid id {s} v = elim (Option-cases (valid_id id)) [
  | inl e ↦ rw (e, service_stop) v
  | inr e ↦
      let u = update-IsValid s e.0 stop_service stop_service-IsSound v in
      rw (e.1, service_stop) (record { full = u.0; sound = u.1 })
]

service_wait_ready-IsValid :
    (id : ℤ) (polls : ℕ) (w : World) (ws : ℕ → World) {s : Services}
    → IsValid s
    → IsValid (service_wait_ready id polls w ws s).0
unfolding service_wait_ready
service_wait_ready-IsValid id polls w ws {s} v = elim (Option-cases (valid_id id)) [
  | inl e ↦ rw (e, service_wait_ready) v
  | inr e ↦
      let t = start_at-IsValid e.0 w v in
      elim (Bool-cases (start_at e.0 w s).1) [
        | inl b ↦ rw (e.1, service_wait_ready, b) (wait_at-IsValid e.0 polls ws t)
        | inr b ↦ rw (e.1, service_wait_ready, b) t
      ]
]

-- The calls that change the table, each with the answers of the other components.
pub data Call : Type 0 where
  start : ℤ → World → Call
  stop : ℤ → Call
  poll_all : (ℕ → World) → Call
  wait_ready : ℤ → ℕ → World → (ℕ → World) → Call

abbrev pub call : Call → Services → Services
call (start id w) s = (service_start id w s).0
call (stop id) s = (service_stop id s).0
call (poll_all ws) s = service_poll_all ws s
call (wait_ready id polls w ws) s = (service_wait_ready id polls w ws s).0

abbrev pub run : List Call → Services → Services
run [] s = s
run (c ∷ cs) s = run cs (call c s)

call-IsValid : (c : Call) {s : Services} → IsValid s → IsValid (call c s)
unfolding service_poll_all
call-IsValid (start id w) v = service_start-IsValid id w v
call-IsValid (stop id) v = service_stop-IsValid id v
call-IsValid (poll_all ws) v = poll_from-IsValid service_count 0 ws v
call-IsValid (wait_ready id polls w ws) v = service_wait_ready-IsValid id polls w ws v

run-IsValid : (cs : List Call) {s : Services} → IsValid s → IsValid (run cs s)
run-IsValid [] v = v
run-IsValid (c ∷ cs) v = run-IsValid cs (call-IsValid c v)

pub service_init-IsValid :
    (s : Services) → length s.table ≡ service_count → IsValid (service_init s)
unfolding service_init
service_init-IsValid s h = record {
  full = length-reset_all s.table ∙ h;
  sound = reset_all_sound s.table;
}

-- From `service_init` on a table of ten, any starts, stops, polls and waits, whatever the other
-- components answer, keep the table at ten services, of which each failed one has one of the known
-- exit codes and each other one the exit code 0.
pub run_init-IsValid :
    (cs : List Call) (s : Services)
    → length s.table ≡ service_count
    → IsValid (run cs (service_init s))
run_init-IsValid cs s h = run-IsValid cs (service_init-IsValid s h)
