-- ===== src/Ports.antt =====
-- `inb` and `outb` of kernel/include/os64/io.h. The hardware behind the ports is a parameter: what a
-- read gives depends on the port and on all accesses before it.
use os.Prelude.{ℕ, ◌%◌, ◌/◌, ◌^◌, ◌+◌, ◌-◌, List, Bool, if◌then◌else◌, ◌==◌}

pub data Access : Type 0 where
  input : (port value : ℕ) → Access
  output : (port value : ℕ) → Access

-- The accesses so far, the newest first.
abbrev pub Trace : Type 0
Trace = List Access

abbrev pub Hardware : Type 0
Hardware = Trace → ℕ → ℕ

abbrev pub byte_at : Hardware → ℕ → Trace → ℕ
byte_at hw port t = hw t port % 256

-- `(value & (1 << k)) != 0`
abbrev pub has_bit : ℕ → ℕ → Bool
has_bit value k = value / 2 ^ k % 2 == 1

abbrev pub set_bit : ℕ → ℕ → ℕ
set_bit value k = if has_bit value k then value else value + 2 ^ k

abbrev pub clear_bit : ℕ → ℕ → ℕ
clear_bit value k = if has_bit value k then value - 2 ^ k else value
