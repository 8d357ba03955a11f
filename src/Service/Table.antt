-- ===== src/Service/Table.antt =====
-- The table of kernel/core/service.c and kernel/include/os64/service.h: its types, its constants, its
-- initial state, and the lookups by name and id.
use os.Prelude.{
  ℕ, ◌+◌, List, [], ◌∷◌, ◌++◌, Option, none, some, Bool, true, false, if◌then◌else◌, ltb, get_elem?,
  add_size,
}
use os.Prelude.Int.{ℤ, pos, negsuc}
use os.Prelude.CString.{codes, str_eq}

-- `service_state_t`
pub data State : Type 0 where
  stopped starting ready failed : State

-- The fields of `service_t` that change.
pub record Service : Type 0 where
  pub state : State
  pub exit_code : ℕ
  pub generation : ℕ
  pub cycles : ℕ
  pub errors : ℕ
  pub metric : ℕ

-- What the other components answer while a call runs.
pub record World : Type 0 where
  pub fs_count : ℕ
  pub memory_free_bytes : ℕ
  pub memory_heap_bytes : ℕ
  pub timed_updates : ℕ
  pub disk_sync : Bool
  pub auth_user_count : ℕ
  pub network_rx_packets : ℕ
  pub network_tx_packets : ℕ
  pub network_ready : Bool
  pub network_init : Bool
  pub display_characters : ℕ
  pub display_ready : Bool
  pub graphics_init : Bool
  pub graphics_frames : ℕ
  pub graphics_ready : Bool
  pub log_count : ℕ

-- The calls of other components that change their state.
pub data Effect : Type 0 where
  timed_init timed_stop timed_start timed_poll : Effect
  disk_sync_call network_init_call network_poll : Effect
  graphics_init_call graphics_poll graphics_stop : Effect
  log_init log_poll : Effect

pub record Services : Type 0 where
  pub table : List Service
  pub effects : List Effect

-- The constant fields of the table: name, description, and the service it depends on.
pub record ServiceInfo : Type 0 where
  pub name : List ℕ
  pub description : List ℕ
  pub dependency : Option ℕ

abbrev pub info : List ℕ → List ℕ → Option ℕ → ServiceInfo
info n d p = record { name = n; description = d; dependency = p }

abbrev pub services_info : List ServiceInfo
services_info =
    info (codes "fsd") (codes "VFS and mount coordinator") none
    ∷ info (codes "memoryd") (codes "memory accounting service") none
    ∷ info (codes "timed") (codes "CMOS real-time clock service") (some 1)
    ∷ info (codes "diskd") (codes "disk synchronization service") (some 0)
    ∷ info (codes "userd") (codes "account database service") (some 3)
    ∷ info (codes "acpid") (codes "ACPI power and reboot service") (some 2)
    ∷ info (codes "netd") (codes "PCI Ethernet, ARP, IPv4 and ICMP") (some 3)
    ∷ info (codes "displayd") (codes "console display service") (some 1)
    ∷ info (codes "graphicsd") (codes "VGA framebuffer compositor") (some 7)
    ∷ info (codes "logd") (codes "kernel message logger") (some 2)
    ∷ []

abbrev pub service_count : ℕ
service_count = 10

-- `services[i].dependency`; -1 is `none`.
abbrev pub dependency : ℕ → Option ℕ
dependency i = elim (get_elem? services_info i) [ none ↦ none | some r ↦ r.dependency ]

abbrev pub state_at : List Service → ℕ → State
state_at ss i = elim (get_elem? ss i) [ none ↦ failed | some s ↦ s.state ]

-- `id < 0 || (size_t)id >= service_count()` refuses the others.
abbrev pub valid_id : ℤ → Option ℕ
valid_id (pos n) = if ltb n service_count then some n else none
valid_id (negsuc n) = none

-- The loop of `service_find`, at index `i`.
unfoldable pub find_from : List ℕ → List ServiceInfo → ℕ → Option ℕ
find_from n [] i = none
find_from n (r ∷ rs) i =
    let rest = find_from n rs (i + 1) in if str_eq n r.name then some i else rest

-- The result -1 is `none`.
unfoldable pub service_find : List ℕ → Option ℕ
service_find n = find_from n services_info 0

abbrev pub reset : Service → Service
reset s = record {
  state = stopped;
  exit_code = 0;
  generation = 0;
  cycles = 0;
  errors = 0;
  metric = 0;
}

abbrev pub reset_all : List Service → List Service
reset_all [] = []
reset_all (s ∷ ss) = reset s ∷ reset_all ss

unfoldable pub service_init : Services → Services
service_init s = record {
  table = reset_all s.table;
  effects = s.effects ++ (timed_init ∷ timed_stop ∷ []);
}

abbrev pub fail : ℕ → Service → Service
fail code s = record s { state = failed; exit_code = code; errors = add_size s.errors 1 }

abbrev pub is_ready : State → Bool
is_ready ready = true
is_ready _ = false

abbrev pub is_starting : State → Bool
is_starting starting = true
is_starting _ = false

abbrev pub is_active : State → Bool
is_active starting = true
is_active ready = true
is_active _ = false
