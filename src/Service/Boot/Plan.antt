-- ===== src/Service/Boot/Plan.antt =====
-- `start_boot_services` of kernel/core/kernel.c where every component works.
use os.Prelude.{
  ℕ, zero, suc, ◌+◌, ◌<◌, ◌≡◌, refl, sym, ap, ◌∙◌, List, [], ◌∷◌, Option, none, some, Bool, true,
  false, ◌&&◌, if◌then◌else◌, ltb, length, get_elem?, set, replicate, arith, Bool-cases, ltb→lt,
  Option-cases, inl, inr,
}
use os.Prelude.Int.{pos}
use os.Prelude.CString.{str_eq}
use os.Service.Table.{
  State, stopped, ready, failed, Service, World, Services, service_count, state_at, is_ready,
  service_find, find_from, dependency, reset_all, service_init,
}
use os.Service.Control.{dependency_ready, service_wait_ready}
use os.Service.Boot.{boot_names, skipped, boot_from, start_boot_services}
use os.Service.Boot.Healthy.{IsHealthy, states, wait_ready_stopped}

-- The boot on the states alone: each service that is not skipped is found in the table, is stopped, has
-- a ready dependency, and becomes ready. The number is that of the services started.
abbrev state_of : List State → ℕ → State
state_of ss i = elim (get_elem? ss i) [ none ↦ failed | some st ↦ st ]

abbrev is_stopped : Option State → Bool
is_stopped (some stopped) = true
is_stopped _ = false

abbrev ready_for : List State → Option ℕ → Bool
ready_for ss none = true
ready_for ss (some d) = is_ready (state_of ss d)

abbrev can_start : List State → ℕ → Bool
can_start ss i = ltb i service_count && (is_stopped (get_elem? ss i) && ready_for ss (dependency i))

plan : Bool → List (List ℕ) → List State → ℕ → Option (List State × ℕ)
plan recovery [] ss count = some (ss, count)
plan recovery (n ∷ ns) ss count =
    let pass = plan recovery ns ss count in
    let next : Option (List State × ℕ) = elim (service_find n) [
      | none ↦ none
      | some i ↦ if can_start ss i then plan recovery ns (set ss i ready) (count + 1) else none
    ] in
    if skipped recovery n then pass else next

get_elem?-states :
    (ss : List Service) (i : ℕ) {st : State}
    → get_elem? (states ss) i ≡ some st
    → (x : Service) × (get_elem? ss i ≡ some x) × (x.state ≡ st)
get_elem?-states [] i e = cc
get_elem?-states (x ∷ ss) zero e = (x, refl, ground arith)
get_elem?-states (x ∷ ss) (suc i) e = get_elem?-states ss i e

state_of-states : (ss : List Service) (i : ℕ) → state_of (states ss) i ≡ state_at ss i
state_of-states [] i = refl
state_of-states (x ∷ ss) zero = refl
state_of-states (x ∷ ss) (suc i) = state_of-states ss i

ready_for-states :
    (ss : List Service) (i : ℕ) → ready_for (states ss) (dependency i) ≡ dependency_ready ss i
ready_for-states ss i = elim (Option-cases (dependency i)) [
  | inl e ↦ rw (e, ready_for, dependency_ready)
  | inr e ↦ rw (e.1, ready_for, dependency_ready) (ap is_ready (state_of-states ss e.0))
]

and_parts : (a b : Bool) → (a && b) ≡ true → (a ≡ true) × (b ≡ true)
and_parts a b h = ground arith

is_stopped-eq : (o : Option State) → is_stopped o ≡ true → o ≡ some stopped
is_stopped-eq o h = ground arith

can_start-parts :
    (ss : List Service) (i : ℕ)
    → can_start (states ss) i ≡ true
    → (i < service_count)
      × (get_elem? (states ss) i ≡ some stopped)
      × (dependency_ready ss i ≡ true)
can_start-parts ss i h =
    let p = and_parts (ltb i service_count) _ h in
    let q = and_parts (is_stopped (get_elem? (states ss) i)) _ p.1 in
    (
      ltb→lt i service_count p.0,
      is_stopped-eq (get_elem? (states ss) i) q.0,
      sym (ready_for-states ss i) ∙ q.1,
    )

-- In healthy worlds the boot does what the plan says.
boot_from-plan :
    (recovery : Bool) (ns : List (List ℕ)) (w : ℕ → World) (ws : ℕ → ℕ → World)
    → ((k : ℕ) → IsHealthy (w k))
    → ((k j : ℕ) → IsHealthy (ws k j))
    → (k count : ℕ) (s : Services) {out : List State × ℕ}
    → plan recovery ns (states s.table) count ≡ some out
    → let (t, n) = boot_from recovery ns w ws k count s in (states t.table ≡ out.0) × (n ≡ out.1)
unfolding boot_from plan
boot_from-plan recovery [] w ws hw hws k count s p = ground arith
boot_from-plan recovery (n ∷ ns) w ws hw hws k count s {out} p =
    elim (Bool-cases (skipped recovery n)) [
      | inl e ↦ rw e (boot_from-plan recovery ns w ws hw hws (k + 1) count s (rw e at p))
      | inr e ↦ elim (Option-cases (service_find n)) [
        | inl f ↦ cc (rw (e, f) at p)
        | inr f ↦ elim (Bool-cases (can_start (states s.table) f.0)) [
          | inl c ↦
              let parts = can_start-parts s.table f.0 c in
              let x = get_elem?-states s.table f.0 parts.1 in
              let step =
                wait_ready_stopped f.0 6 (w k) (ws k) s (hw k) (hws k 0) parts.0 x.1 x.2 parts.2 in
              let t = (service_wait_ready (pos f.0) 8 (w k) (ws k) s).0 in
              let rest : plan recovery ns (set (states s.table) f.0 ready) (count + 1) ≡ some out =
                rw (e, f.1, c) at p in
              rw (e, f.1, step.1)
                (boot_from-plan recovery ns w ws hw hws (k + 1) (count + 1) t (rw step.0 rest))
          | inr c ↦ cc (rw (e, f.1, c) at p)
        ]
      ]
    ]

states-reset_all : (ss : List Service) → states (reset_all ss) ≡ replicate (length ss) stopped
states-reset_all [] = refl
states-reset_all (x ∷ ss) = ap (λ t. stopped ∷ t) (states-reset_all ss)

states-service_init :
    (s : Services)
    → length s.table ≡ service_count
    → states (service_init s).table ≡ replicate 10 stopped
unfolding service_init
states-service_init s h = states-reset_all s.table ∙ ap (λ n. replicate n stopped) h

plan_all : plan false boot_names (replicate 10 stopped) 0 ≡ some (replicate 10 ready, 10)
unfolding plan service_find find_from str_eq
plan_all = refl

abbrev pub recovery_states : List State
recovery_states =
    ready ∷ ready ∷ ready ∷ stopped ∷ stopped ∷ ready ∷ stopped ∷ ready ∷ ready ∷ ready ∷ []

plan_recovery : plan true boot_names (replicate 10 stopped) 0 ≡ some (recovery_states, 7)
unfolding plan service_find find_from str_eq
plan_recovery = refl

module _ (w : ℕ → World) (ws : ℕ → ℕ → World) (hw : (k : ℕ) → IsHealthy (w k))
    (hws : (k j : ℕ) → IsHealthy (ws k j)) (s : Services)
    (ten : length s.table ≡ service_count) where
  -- If every component works, the boot after `service_init` makes all ten services ready and counts
  -- ten: its order starts each service after the one it depends on.
  pub boot-ready :
      let (t, count) = start_boot_services false w ws (service_init s) in
      (states t.table ≡ replicate 10 ready) × (count ≡ 10)
  unfolding start_boot_services
  boot-ready =
      boot_from-plan false boot_names w ws hw hws 0 0 (service_init s)
        (rw (states-service_init s ten) plan_all)

  -- If every component works, the boot in recovery mode makes seven services ready and counts seven;
  -- diskd, userd and netd stay stopped.
  pub boot-recovery :
      let (t, count) = start_boot_services true w ws (service_init s) in
      (states t.table ≡ recovery_states) × (count ≡ 7)
  unfolding start_boot_services
  boot-recovery =
      boot_from-plan true boot_names w ws hw hws 0 0 (service_init s)
        (rw (states-service_init s ten) plan_recovery)
