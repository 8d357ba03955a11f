-- ===== src/Ps2.antt =====
-- The PS/2 controller of kernel/drivers/keyboard/ps2.c: its static variables and its access to the
-- ports. A function that returns 0 or 1 and may fill a variable is a step that gives an optional value.
pub mod Controller
pub mod Mouse
pub mod Protocol
pub mod Packets
pub mod Bounds
mod Tests
use os.Prelude.{
  ℕ, zero, suc, List, [], ◌∷◌, Option, none, some, Bool, true, false, not, if◌then◌else◌,
}
use os.Ports.{Access, input, output, Trace, Hardware, byte_at, has_bit}

abbrev pub data_port : ℕ
data_port = 0x60

abbrev pub status_port : ℕ
status_port = 0x64

abbrev pub command_port : ℕ
command_port = 0x64

abbrev pub timeout : ℕ
timeout = 100000

-- The static variables, and the accesses to the ports so far.
pub record Ps2 : Type 0 where
  pub controller_ok : Bool
  pub keyboard_ok : Bool
  pub mouse_ok : Bool
  pub mouse_packet : List ℕ
  pub mouse_packet_size : ℕ
  pub trace : Trace

-- A call: it changes the state, and fails with `none`.
abbrev pub Step {ℓ} : Type ℓ → Type ℓ
Step A = Ps2 → Ps2 × Option A

abbrev pub succeed {ℓ} : {A : Type ℓ} → A → Step A
succeed a s = (s, some a)

abbrev pub give_up {ℓ} : {A : Type ℓ} → Step A
give_up s = (s, none)

-- What follows a call, if that did not fail.
abbrev pub after {ℓ κ} :
    {A : Type ℓ} → {B : Type κ} → Ps2 × Option A → (A → Step B) → Ps2 × Option B
after (s, none) f = (s, none)
after (s, some a) f = f a s

unfoldable bind {ℓ κ} : {A : Type ℓ} → {B : Type κ} → Step A → (A → Step B) → Step B
bind m f s = after (m s) f

-- `if (!test) return 0;`
abbrev pub require : Bool → Step Bool
require b s = if b then (s, some true) else (s, none)

abbrev pub assign : (Ps2 → Ps2) → Step Bool
assign f s = (f s, some true)

abbrev pub outb : ℕ → ℕ → Step Bool
outb port value s = (record s { trace = output port value ∷ s.trace }, some true)

module _ (hw : Hardware) where
  abbrev pub inb : ℕ → Step ℕ
  inb port s =
      let value = byte_at hw port s.trace in
      (record s { trace = input port value ∷ s.trace }, some value)

  -- The rounds that are left of the waits.
  unfoldable wait_input_from : ℕ → Step Bool
  wait_input_from zero s = (s, none)
  wait_input_from (suc n) s =
      let now = inb status_port s in
      let rest = wait_input_from n now.0 in
      if not (has_bit (byte_at hw status_port s.trace) 1) then (now.0, some true) else rest

  unfoldable wait_output_from : ℕ → Step Bool
  wait_output_from zero s = (s, none)
  wait_output_from (suc n) s =
      let now = inb status_port s in
      let rest = wait_output_from n now.0 in
      if has_bit (byte_at hw status_port s.trace) 0 then (now.0, some true) else rest

  unfoldable wait_input_empty : Step Bool
  wait_input_empty = wait_input_from timeout

  unfoldable wait_output_full : Step Bool
  wait_output_full = wait_output_from timeout

  unfoldable write_command : ℕ → Step Bool
  write_command value = bind wait_input_empty (λ x. outb command_port value)

  unfoldable write_data : ℕ → Step Bool
  write_data value = bind wait_input_empty (λ x. outb data_port value)

  unfoldable read_wait : Step ℕ
  read_wait = bind wait_output_full (λ x. inb data_port)
