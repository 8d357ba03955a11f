-- ===== src/Log.antt =====
-- The kernel message log, kernel/drivers/display/log.c and kernel/include/os64/log.h: a ring of 64
-- entries. A call of `timed_monotonic_ns` is the argument `now`; what `log_dump` writes to the display
-- is the list of its calls. `log_poll` does nothing.
pub mod Dump
pub mod Ring
pub mod History
mod Tests
use os.Prelude.{
  ℕ, suc, ◌+◌, ◌-◌, ◌*◌, ◌/◌, ◌%◌, ◌^◌, List, [], ◌∷◌, ◌++◌, Option, none, some, Bool, true, false,
  ◌&&◌, if◌then◌else◌, ltb, leb, ◌==◌, length, get_elem?, update, add_size,
}
use os.Prelude.Int.{ℤ, pos, negsuc, ltb_ℤ}
use os.Prelude.CString.{c_string, copy_string}
use Prim.Native.String.{String}

abbrev pub max_entries : ℕ
max_entries = 64

abbrev pub msg_size : ℕ
msg_size = 56

-- `log_entry_t`. The subsystem is a pointer to a constant text, `msg` an array of `msg_size` bytes.
pub record LogEntry : Type 0 where
  pub timestamp : ℕ
  pub level : ℤ
  pub subsystem : List ℕ
  pub msg : List ℕ

-- The static variables of the module.
pub record Log : Type 0 where
  pub initialized : Bool
  pub buffer : List LogEntry
  pub head : ℕ
  pub count : ℕ
  pub current_level : ℤ

abbrev pub debug_level : ℤ
debug_level = pos 0

abbrev pub info_level : ℤ
info_level = pos 1

-- What the caller of `log_read` gets through its pointers, the message as a text.
pub record Message : Type 0 where
  pub timestamp : ℕ
  pub level : ℤ
  pub subsystem : List ℕ
  pub text : List ℕ

pub inc : ℕ → ℕ
inc v = add_size v 1 % max_entries

-- The assignments to `*e`.
abbrev pub write_entry : ℕ → ℤ → List ℕ → List ℕ → LogEntry → LogEntry
write_entry now level subsystem msg e = record {
  timestamp = now;
  level = level;
  subsystem = subsystem;
  msg = copy_string msg_size msg e.msg;
}

-- The part of `log_submit` behind its guard.
pub enter : ℕ → ℤ → List ℕ → List ℕ → Log → Log
unfolding inc
enter now level subsystem msg s = record s {
  buffer = update s.buffer s.head (write_entry now level subsystem msg);
  head = inc s.head;
  count = if ltb s.count max_entries then s.count + 1 else s.count;
}

pub log_submit : ℕ → ℤ → List ℕ → List ℕ → Log → Log
log_submit now level subsystem msg s =
    if ltb_ℤ level s.current_level then s else enter now level subsystem msg s

-- The index in the buffer of the `index`-th oldest entry.
pub position : Log → ℕ → ℕ
position s index = if ltb s.count max_entries then index else add_size s.head index % max_entries

pub message : LogEntry → Message
message e = record {
  timestamp = e.timestamp;
  level = e.level;
  subsystem = e.subsystem;
  text = c_string e.msg;
}

abbrev pub map_message : Option LogEntry → Option Message
map_message none = none
map_message (some e) = some (message e)

-- The result 0 is `none`.
pub log_read : Log → ℕ → Option Message
log_read s index =
    if leb s.count index then none else map_message (get_elem? s.buffer (position s index))

pub log_count : Log → ℕ
log_count s = s.count

pub log_level : Log → ℤ
log_level s = s.current_level

pub log_set_level : ℤ → Log → Log
log_set_level level s = record s { current_level = level }

abbrev pub subsystem_logd : List ℕ
subsystem_logd = b'l' ∷ b'o' ∷ b'g' ∷ b'd' ∷ []

-- "logging service initialized"
abbrev pub initialized_text : List ℕ
initialized_text =
    b'l' ∷ b'o' ∷ b'g' ∷ b'g' ∷ b'i' ∷ b'n' ∷ b'g' ∷ 32 ∷ b's' ∷ b'e' ∷ b'r' ∷ b'v' ∷ b'i' ∷ b'c'
    ∷ b'e' ∷ 32 ∷ b'i' ∷ b'n' ∷ b'i' ∷ b't' ∷ b'i' ∷ b'a' ∷ b'l' ∷ b'i' ∷ b'z' ∷ b'e' ∷ b'd' ∷ []

-- The buffer keeps what an earlier start left in it.
pub log_init : ℕ → Log → Log
log_init now s =
    log_submit now info_level subsystem_logd initialized_text
      (record s { initialized = true; head = 0; count = 0; current_level = debug_level })
