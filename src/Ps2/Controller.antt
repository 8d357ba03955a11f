-- ===== src/Ps2/Controller.antt =====
-- The start of the controller, the keyboard and the mouse in kernel/drivers/keyboard/ps2.c, and the
-- reads of the keyboard.
use os.Prelude.{
  ℕ, zero, suc, ◌==◌, List, [], ◌∷◌, none, some, Bool, true, false, not, ◌&&◌, ◌||◌, if◌then◌else◌,
}
use os.Ports.{Hardware, byte_at, has_bit, set_bit, clear_bit}
use os.Ps2.{
  data_port, status_port, Ps2, Step, after, bind, require, assign, succeed, give_up, inb,
  write_command, write_data, read_wait,
}

-- `controller_ok = keyboard_ok = mouse_ok = 0;`
abbrev pub clear_flags : Ps2 → Ps2
clear_flags s = record s { controller_ok = false; keyboard_ok = false; mouse_ok = false }

-- `(config | 0x40 | 0x20) & ~(0x01 | 0x02 | 0x10)`
abbrev pub controller_config : ℕ → ℕ
controller_config c = clear_bit (clear_bit (clear_bit (set_bit (set_bit c 6) 5) 0) 1) 4

-- `config & ~(0x02 | 0x20)`
abbrev pub mouse_config : ℕ → ℕ
mouse_config c = clear_bit (clear_bit c 1) 5

-- Calls one after the other, up to the first that fails: `if (!a() || !b()) return 0;`.
abbrev pub all : List (Step Bool) → Step Bool → Step Bool
all [] last s = last s
all (m ∷ ms) last s = after (m s) (λ x. all ms last)

module _ (hw : Hardware) where
  -- `if (!read_wait(&response) || !test(response)) return 0;`
  unfoldable pub expect : (ℕ → Bool) → Step Bool
  expect test = bind (read_wait hw) (λ response. require (test response))

  -- Command 0x20 reads the configuration, and command 0x60 writes it.
  unfoldable pub change_config : (ℕ → ℕ) → Step Bool
  change_config f = bind (write_command hw 0x20) (λ x.
      bind (read_wait hw) (λ config. bind (write_command hw 0x60) (λ x. write_data hw (f config))))

  -- The loop that discards what the controller holds, with the rounds that are left.
  unfoldable pub discard : ℕ → Step Bool
  discard zero s = (s, some true)
  discard (suc n) s =
      let now = inb hw status_port s in
      let rest = discard n (inb hw data_port now.0).0 in
      if has_bit (byte_at hw status_port s.trace) 0 then rest else (now.0, some true)

  abbrev pub controller_steps : List (Step Bool)
  controller_steps =
      write_command hw 0xad
      ∷ write_command hw 0xa7
      ∷ discard 32
      ∷ change_config controller_config
      ∷ write_command hw 0xae
      ∷ []

  unfoldable pub ps2_controller_init : Step Bool
  ps2_controller_init s =
      all controller_steps (assign (λ t. record t { controller_ok = true })) (clear_flags s)

  -- The answer to a byte: 0xfa accepts it, 0xfe asks for it again, and any other fails.
  abbrev pub replied : Step Bool → ℕ → Step Bool
  replied again response =
      if response == 0xfa then succeed true else if response == 0xfe then again else give_up

  -- The tries that are left.
  unfoldable pub keyboard_command_from : ℕ → ℕ → Step Bool
  keyboard_command_from zero value = give_up
  keyboard_command_from (suc n) value =
      let again = keyboard_command_from n value in
      bind (write_data hw value) (λ x. bind (read_wait hw) (replied again))

  unfoldable pub ps2_keyboard_command : ℕ → Step Bool
  ps2_keyboard_command value = keyboard_command_from 3 value

  abbrev pub keyboard_steps : List (Step Bool)
  keyboard_steps =
      write_data hw 0xff
      ∷ expect (λ response. response == 0xfa)
      ∷ expect (λ response. (response == 0xaa) || (response == 0))
      ∷ ps2_keyboard_command 0xf0
      ∷ ps2_keyboard_command 0x02
      ∷ ps2_keyboard_command 0xf4
      ∷ []

  unfoldable pub ps2_keyboard_initialize : Step Bool
  ps2_keyboard_initialize s =
      let done = all keyboard_steps (assign (λ t. record t { keyboard_ok = true })) s in
      if not s.controller_ok then (s, none) else done

  -- The result 0 is `none`.
  unfoldable pub ps2_data_available : Step Bool
  ps2_data_available s =
      let now = inb hw status_port s in
      let status = byte_at hw status_port s.trace in
      require (s.controller_ok && (has_bit status 0 && not (has_bit status 5))) now.0

  -- No data is `none`, where the code returns 0.
  unfoldable pub ps2_read_data : Step ℕ
  ps2_read_data = bind ps2_data_available (λ x. inb hw data_port)

  unfoldable pub mouse_command_from : ℕ → ℕ → Step Bool
  mouse_command_from zero value = give_up
  mouse_command_from (suc n) value =
      let again = mouse_command_from n value in
      bind (write_command hw 0xd4)
        (λ x. bind (write_data hw value) (λ x. bind (read_wait hw) (replied again)))

  unfoldable pub mouse_command : ℕ → Step Bool
  mouse_command value = mouse_command_from 3 value

  abbrev pub mouse_steps : List (Step Bool)
  mouse_steps =
      write_command hw 0xa8
      ∷ change_config mouse_config
      ∷ mouse_command 0xff
      ∷ expect (λ reply. reply == 0xaa)
      ∷ expect (λ reply. true)
      ∷ mouse_command 0xf6
      ∷ mouse_command 0xf4
      ∷ []

  unfoldable pub ps2_mouse_initialize : Step Bool
  ps2_mouse_initialize s =
      let idle = record s { mouse_ok = false; mouse_packet_size = 0 } in
      let done = all mouse_steps (assign (λ t. record t { mouse_ok = true })) idle in
      if not s.controller_ok then (idle, none) else done

  unfoldable pub ps2_mouse_shutdown : Ps2 → Ps2
  ps2_mouse_shutdown s =
      let told = if s.mouse_ok then (mouse_command 0xf5 s).0 else s in
      record (write_command hw 0xa7 told).0 { mouse_ok = false; mouse_packet_size = 0 }
