-- ===== src/Service/Boot.antt =====
-- `start_boot_services` of kernel/core/kernel.c over the table of kernel/core/service.c. What it prints
-- is left out. `recovery` is what `bootopts_recovery` answers; `w k` is the world of the k-th start and
-- `ws k` that of the polls behind it.
pub mod Healthy
pub mod Plan
use os.Prelude.{
  ℕ, zero, suc, ◌+◌, ◌<◌, ◌≡◌, refl, sym, ap, ◌∙◌, ◌≢◌, List, [], ◌∷◌, Option, none, some, Bool,
  true, false, not, ◌&&◌, ◌||◌, if◌then◌else◌, ltb, leb, ◌==◌, length, get_elem?, set, update,
  arith, Bool-cases, ltb→lt, Option-cases, inl, inr, length-update, get_elem?-update_self,
  get_elem?-update_ne, get_elem?-some,
}
use os.Prelude.Int.{ℤ, pos, negsuc}
use os.Prelude.CString.{codes, str_eq}
use os.Service.Table.{
  State, stopped, starting, ready, failed, Service, World, Services, service_count, state_at,
  valid_id, fail, is_ready, is_starting, is_active, service_find, dependency, reset_all,
  service_init,
}
use os.Service.Poll.{poll_service, counted, poll_state, poll_one}
use os.Service.Control.{
  started, dependency_ready, start_service, start_at, wait_loop, expire, wait_at,
  service_wait_ready,
}
use os.Service.Waiting.{state_at-update}

abbrev pub boot_names : List (List ℕ)
boot_names =
    codes "fsd"
    ∷ codes "memoryd"
    ∷ codes "displayd"
    ∷ codes "graphicsd"
    ∷ codes "timed"
    ∷ codes "diskd"
    ∷ codes "userd"
    ∷ codes "acpid"
    ∷ codes "netd"
    ∷ codes "logd"
    ∷ []

-- A disabled service of the recovery mode.
abbrev pub skipped : Bool → List ℕ → Bool
skipped recovery n =
    recovery && (str_eq n (codes "diskd") || str_eq n (codes "userd") || str_eq n (codes "netd"))

-- The id that `service_find` returns, as the `int` that it is.
abbrev pub int_id : Option ℕ → ℤ
int_id none = negsuc 0
int_id (some i) = pos i

-- The rounds for the names that are left; `count` is `boot_services_started`.
pub boot_from :
    Bool → List (List ℕ) → (ℕ → World) → (ℕ → ℕ → World) → ℕ → ℕ → Services → Services × ℕ
boot_from recovery [] w ws k count s = (s, count)
boot_from recovery (n ∷ ns) w ws k count s =
    let waited = service_wait_ready (int_id (service_find n)) 8 (w k) (ws k) s in
    let go_on =
      boot_from recovery ns w ws (k + 1) (if waited.1 then count + 1 else count) waited.0 in
    let pass = boot_from recovery ns w ws (k + 1) count s in
    if skipped recovery n then pass else go_on

pub start_boot_services : Bool → (ℕ → World) → (ℕ → ℕ → World) → Services → Services × ℕ
start_boot_services recovery w ws s = boot_from recovery boot_names w ws 0 0 s
