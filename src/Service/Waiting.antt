-- ===== src/Service/Waiting.antt =====
-- What `service_start` and `service_wait_ready` of kernel/core/service.c promise their callers.
use os.Prelude.{
  ℕ, zero, suc, ◌+◌, ◌≡◌, refl, sym, ◌∙◌, ◌≢◌, List, [], ◌∷◌, none, some, Bool, false, length,
  get_elem?, update, arith, Bool-cases, Option-cases, inl, inr, length-update,
  get_elem?-update_self, get_elem?-update_ne,
}
use os.Prelude.Int.{ℤ}
use os.Service.Table.{
  starting, failed, Service, World, Services, state_at, valid_id, is_ready, is_starting,
}
use os.Service.Poll.{poll_state, poll_one}
use os.Service.Control.{
  dependency_ready, start_service, start_at, wait_loop, expire, wait_at, service_wait_ready,
}

pub state_at-update :
    (ss : List Service) (i : ℕ) (f : Service → Service) {x : Service}
    → get_elem? ss i ≡ some x
    → state_at (update ss i f) i ≡ (f x).state
state_at-update ss i f e = rw (get_elem?-update_self ss i f e, state_at)

state_at-update-none :
    (ss : List Service) (i : ℕ) (f : Service → Service)
    → get_elem? ss i ≡ none
    → state_at (update ss i f) i ≡ failed
state_at-update-none [] i f e = refl
state_at-update-none (x ∷ ss) zero f e = cc
state_at-update-none (x ∷ ss) (suc i) f e = state_at-update-none ss i f e

expire-settled : (x : Service) → (expire x).state ≢ starting
expire-settled x h = ground arith

start_service-refused :
    (i : ℕ) (dep : Bool) (w : World) (x : Service)
    → (start_service i dep w x).1 ≡ false
    → (start_service i dep w x).0.state ≡ failed
unfolding start_service
start_service-refused i dep w x h = ground arith

-- Nothing but service `i` differs.
pub record OnlyAt (i : ℕ) (s t : Services) : Type 0 where
  pub size : length t.table ≡ length s.table
  pub others : (j : ℕ) → i ≢ j → get_elem? t.table j ≡ get_elem? s.table j

OnlyAt-refl : (i : ℕ) (s : Services) → OnlyAt i s s
OnlyAt-refl i s = record { size = refl; others = λ j n. refl }

OnlyAt-trans : {i : ℕ} {s t u : Services} → OnlyAt i s t → OnlyAt i t u → OnlyAt i s u
OnlyAt-trans p q = record { size = q.size ∙ p.size; others = λ j n. q.others j n ∙ p.others j n }

poll_one-OnlyAt : (i : ℕ) (w : World) (s : Services) → OnlyAt i s (poll_one i w s)
unfolding poll_one
poll_one-OnlyAt i w s = record {
  size = length-update s.table i (poll_state i w);
  others = λ j n. get_elem?-update_ne s.table i j (poll_state i w) n;
}

start_at-OnlyAt : (i : ℕ) (w : World) (s : Services) → OnlyAt i s (start_at i w s).0
unfolding start_at
start_at-OnlyAt i w s =
    let f = λ (x : Service). (start_service i (dependency_ready s.table i) w x).0 in
    elim (Option-cases (get_elem? s.table i)) [
      | inl e ↦ rw (e, start_at) (OnlyAt-refl i s)
      | inr e ↦
          rw (e.1, start_at)
            (record {
              size = length-update s.table i f;
              others = λ j n. get_elem?-update_ne s.table i j f n;
            })
    ]

wait_loop-OnlyAt :
    (polls i : ℕ) (ws : ℕ → World) (k : ℕ) (s : Services) → OnlyAt i s (wait_loop polls i ws k s)
unfolding wait_loop
wait_loop-OnlyAt zero i ws k s = OnlyAt-refl i s
wait_loop-OnlyAt (suc polls) i ws k s = elim (Bool-cases (is_starting (state_at s.table i))) [
  | inl e ↦ rw e (
      OnlyAt-trans (poll_one-OnlyAt i (ws k) s)
        (wait_loop-OnlyAt polls i ws (k + 1) (poll_one i (ws k) s)))
  | inr e ↦ rw e (OnlyAt-refl i s)
]

wait_at-OnlyAt : (i polls : ℕ) (ws : ℕ → World) (s : Services) → OnlyAt i s (wait_at i polls ws s).0
unfolding wait_at
wait_at-OnlyAt i polls ws s =
    let t = wait_loop polls i ws 0 s in
    OnlyAt-trans (wait_loop-OnlyAt polls i ws 0 s) (record {
      size = length-update t.table i expire;
      others = λ j n. get_elem?-update_ne t.table i j expire n;
    })

-- After a wait the service is starting no longer.
wait_at-settled :
    (i polls : ℕ) (ws : ℕ → World) (s : Services)
    → state_at (wait_at i polls ws s).0.table i ≢ starting
unfolding wait_at
wait_at-settled i polls ws s h =
    let t = wait_loop polls i ws 0 s in
    elim (Option-cases (get_elem? t.table i)) [
      | inl e ↦ cc (state_at-update-none t.table i expire e)
      | inr e ↦ expire-settled e.0 (sym (state_at-update t.table i expire e.1) ∙ h)
    ]

-- A start that is refused leaves the service failed.
start_at-refused :
    (i : ℕ) (w : World) (s : Services)
    → (start_at i w s).1 ≡ false
    → state_at (start_at i w s).0.table i ≡ failed
unfolding start_at
start_at-refused i w s h = elim (Option-cases (get_elem? s.table i)) [
  | inl e ↦ rw (e, start_at, state_at, e)
  | inr e ↦
      let dep = dependency_ready s.table i in
      let f = λ (x : Service). (start_service i dep w x).0 in
      rw (e.1, start_at)
        (state_at-update s.table i f e.1
          ∙ start_service-refused i dep w e.0 (rw (e.1, start_at) at h))
]

-- `service_wait_ready` at a valid id returns 1 exactly if the service is ready then, never leaves it
-- starting, and changes no other service.
pub wait_ready-settles :
    (id : ℤ) (polls : ℕ) (w : World) (ws : ℕ → World) (s : Services) (i : ℕ)
    → valid_id id ≡ some i
    → let (t, answer) = service_wait_ready id polls w ws s in
      (answer ≡ is_ready (state_at t.table i)) × (state_at t.table i ≢ starting) × OnlyAt i s t
unfolding service_wait_ready wait_at
wait_ready-settles id polls w ws s i v = elim (Bool-cases (start_at i w s).1) [
  | inl b ↦
      rw (v, service_wait_ready, b)
        (
          refl,
          wait_at-settled i polls ws (start_at i w s).0,
          OnlyAt-trans (start_at-OnlyAt i w s) (wait_at-OnlyAt i polls ws (start_at i w s).0),
        )
  | inr b ↦
      rw (v, service_wait_ready, b)
        (rw (start_at-refused i w s b), (λ h. cc (start_at-refused i w s b)), start_at-OnlyAt i w s)
]
