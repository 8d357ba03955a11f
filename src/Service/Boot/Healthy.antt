-- ===== src/Service/Boot/Healthy.antt =====
-- The services of kernel/core/service.c in a world where every component works: a service whose
-- dependency is ready gets ready at its first poll.
use os.Prelude.{
  ℕ, zero, suc, ◌<◌, ◌≡◌, refl, ap, ◌∙◌, ◌≢◌, List, [], ◌∷◌, some, true, false, get_elem?, set,
  update, arith, get_elem?-update_self,
}
use os.Prelude.Int.{pos}
use os.Service.Table.{
  State, stopped, starting, ready, Service, World, Services, service_count, state_at, valid_id,
  is_ready, is_starting,
}
use os.Service.Poll.{poll_service, poll_state, poll_one}
use os.Service.Control.{
  dependency_ready, start_service, start_at, wait_loop, expire, wait_at, service_wait_ready,
}
use os.Service.Waiting.{state_at-update}

-- Every component answers as one that works.
pub record IsHealthy (w : World) : Type 0 where
  pub files : w.fs_count ≢ 0
  pub heap : w.memory_heap_bytes ≢ 0
  pub clock : w.timed_updates ≢ 0
  pub disk : w.disk_sync ≡ true
  pub users : w.auth_user_count ≢ 0
  pub net_start : w.network_init ≡ true
  pub net : w.network_ready ≡ true
  pub display : w.display_ready ≡ true
  pub graphics_start : w.graphics_init ≡ true
  pub graphics : w.graphics_ready ≡ true

-- In a healthy world one poll makes a starting service ready.
poll_healthy :
    (i : ℕ) (w : World) (x : Service)
    → IsHealthy w
    → x.state ≡ starting
    → (poll_state i w x).state ≡ ready
unfolding poll_state poll_service
poll_healthy i w x h e = ground arith

start_healthy :
    (i : ℕ) (w : World) (x : Service)
    → IsHealthy w
    → x.state ≡ stopped
    → ((start_service i true w x).0.state ≡ starting) × ((start_service i true w x).1 ≡ true)
unfolding start_service
start_healthy i w x h e = ground arith

abbrev pub states : List Service → List State
states [] = []
states (x ∷ xs) = x.state ∷ states xs

states-update :
    (ss : List Service) (i : ℕ) (f : Service → Service) {x : Service}
    → get_elem? ss i ≡ some x
    → states (update ss i f) ≡ set (states ss) i (f x).state
states-update [] i f e = refl
states-update (y ∷ ss) zero f e = ground arith
states-update (y ∷ ss) (suc i) f e = ap (λ t. y.state ∷ t) (states-update ss i f e)

set-set : (xs : List State) (i : ℕ) (a b : State) → set (set xs i a) i b ≡ set xs i b
set-set [] i a b = refl
set-set (x ∷ xs) zero a b = refl
set-set (x ∷ xs) (suc i) a b = ap (λ t. x ∷ t) (set-set xs i a b)

is_starting-ready : (st : State) → st ≡ ready → is_starting st ≡ false
is_starting-ready st e = rw e

expire-ready : (x : Service) → x.state ≡ ready → (expire x).state ≡ ready
expire-ready x e = ground arith

-- A starting service in a healthy world: one poll, and the wait ends with it ready.
wait_at_starting :
    (i n : ℕ) (ws : ℕ → World) (s : Services) {x : Service}
    → IsHealthy (ws 0)
    → get_elem? s.table i ≡ some x
    → x.state ≡ starting
    → let (t, answer) = wait_at i (suc (suc n)) ws s in
      (states t.table ≡ set (states s.table) i ready) × (answer ≡ true)
unfolding wait_at wait_loop poll_one
wait_at_starting i n ws s {x} h0 e st =
    let u = poll_one i (ws 0) s in
    let y = poll_state i (ws 0) x in
    let polled = get_elem?-update_self s.table i (poll_state i (ws 0)) e in
    let y_ready = poll_healthy i (ws 0) x h0 st in
    let begin : is_starting (state_at s.table i) ≡ true = rw (e, state_at, st) in
    let finish : is_starting (state_at u.table i) ≡ false = rw (polled, state_at, y_ready) in
    rw (begin, finish)
      (
        states-update u.table i expire polled
            ∙ ap (λ q. set (states u.table) i q) (expire-ready y y_ready)
            ∙ ap (λ q. set q i ready)
                (states-update s.table i (poll_state i (ws 0)) e
                  ∙ ap (set (states s.table) i) y_ready)
            ∙ set-set (states s.table) i ready ready,
        ap is_ready (state_at-update u.table i expire polled ∙ expire-ready y y_ready),
      )

-- Where the service is stopped and its dependency ready, a healthy start and wait end with it ready.
pub wait_ready_stopped :
    (i n : ℕ) (w : World) (ws : ℕ → World) (s : Services) {x : Service}
    → IsHealthy w
    → IsHealthy (ws 0)
    → i < service_count
    → get_elem? s.table i ≡ some x
    → x.state ≡ stopped
    → dependency_ready s.table i ≡ true
    → let (t, answer) = service_wait_ready (pos i) (suc (suc n)) w ws s in
      (states t.table ≡ set (states s.table) i ready) × (answer ≡ true)
unfolding service_wait_ready start_at
wait_ready_stopped i n w ws s {x} hw h0 lt e st dep =
    let f = λ (y : Service). (start_service i true w y).0 in
    let go = start_healthy i w x hw st in
    let s1 : Services = (start_at i w s).0 in
    let begun : (start_at i w s).1 ≡ true = rw (e, start_at, dep) go.1 in
    let s1_table : s1.table ≡ update s.table i f = rw (e, start_at, dep) in
    let now = rw (← s1_table) at (get_elem?-update_self s.table i f e) in
    let waited = wait_at_starting i n ws s1 h0 now go.0 in
    let valid : valid_id (pos i) ≡ some i = ground arith in
    rw (valid, service_wait_ready, begun)
      (
        waited.0
            ∙ ap (λ q. set q i ready)
                (ap states s1_table
                  ∙ states-update s.table i f e
                  ∙ ap (set (states s.table) i) go.0)
            ∙ set-set (states s.table) i starting ready,
        waited.1,
      )
