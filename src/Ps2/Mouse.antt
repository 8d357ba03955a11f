-- ===== src/Ps2/Mouse.antt =====
-- `ps2_mouse_poll` and the tests of the flags in kernel/drivers/keyboard/ps2.c.
use os.Prelude.{
  ℕ, zero, suc, ◌+◌, ◌-◌, ◌%◌, ◌==◌, List, none, some, Bool, not, ◌&&◌, ◌||◌, if◌then◌else◌, ltb,
  update, get_or,
}
use os.Prelude.Int.{ℤ, pos, negsuc}
use os.Ports.{Hardware, byte_at, has_bit}
use os.Ps2.{data_port, status_port, Ps2, Step, inb}

-- What the caller gets through its pointers.
pub record Movement : Type 0 where
  pub delta_x : ℤ
  pub delta_y : ℤ
  pub buttons : ℕ

-- `(int)(int8_t)value`
abbrev pub signed : ℕ → ℤ
signed value = if ltb value 128 then pos value else negsuc (255 - value)

abbrev pub negate : ℤ → ℤ
negate (pos zero) = pos 0
negate (pos (suc n)) = negsuc n
negate (negsuc n) = pos (n + 1)

abbrev pub movement : List ℕ → Movement
movement packet = record {
  delta_x = signed (get_or packet 1 0);
  delta_y = negate (signed (get_or packet 2 0));
  buttons = get_or packet 0 0 % 8;
}

-- The part of `ps2_mouse_poll` behind the read of the byte `value`.
unfoldable pub take_byte : ℕ → Step Movement
take_byte value s =
    let packet = update s.mouse_packet s.mouse_packet_size (λ old. value) in
    let size = s.mouse_packet_size + 1 in
    let more = record s { mouse_packet = packet; mouse_packet_size = size } in
    let full = record s { mouse_packet = packet; mouse_packet_size = 0 } in
    let first = get_or packet 0 0 in
    if (s.mouse_packet_size == 0) && not (has_bit value 3)
    then (s, none)
    else if not (size == 3)
    then (more, none)
    else if has_bit first 6 || has_bit first 7
    then (full, none)
    else (full, some (movement packet))

module _ (hw : Hardware) where
  -- The result 0 is `none`.
  unfoldable pub ps2_mouse_poll : Step Movement
  ps2_mouse_poll s =
      let now = (inb hw status_port s).0 in
      let status = byte_at hw status_port s.trace in
      let next = (inb hw data_port now).0 in
      let value = byte_at hw data_port now.trace in
      if not s.mouse_ok
      then (s, none)
      else if not (has_bit status 0) || not (has_bit status 5)
      then (now, none)
      else take_byte value next

unfoldable ps2_controller_ready : Ps2 → Bool
ps2_controller_ready s = s.controller_ok

unfoldable ps2_keyboard_ready : Ps2 → Bool
ps2_keyboard_ready s = s.keyboard_ok

unfoldable ps2_mouse_ready : Ps2 → Bool
ps2_mouse_ready s = s.mouse_ok
