-- ===== src/Ps2/Protocol.antt =====
-- The rules of the controller's ports in kernel/drivers/keyboard/ps2.c: when a byte may be written or
-- read, and what the steps between keep.
pub mod Safe
use os.Prelude.{
  ℕ, zero, suc, ◌≡◌, refl, ◌==◌, List, [], ◌∷◌, Option, none, some, Bool, true, false, not, ◌&&◌,
  ◌||◌, if◌then◌else◌, inl, inr, Bool-cases,
}
use os.Ports.{Access, input, output, Trace, Hardware, byte_at, has_bit}
use os.Ps2.{
  data_port, status_port, command_port, timeout, Ps2, Step, after, bind, require, succeed, give_up,
  outb, inb, wait_input_from, wait_output_from, wait_input_empty, wait_output_full, write_command,
  write_data, read_wait,
}
use os.Ps2.Controller.{
  discard, replied, all, expect, change_config, keyboard_command_from, ps2_keyboard_command,
  mouse_command_from, mouse_command,
}

-- The last access found the controller ready for a byte.
abbrev pub InputEmpty : Trace → Type 0
InputEmpty [] = ⊥
InputEmpty (input port value ∷ t) = (port ≡ status_port) × (has_bit value 1 ≡ false)
InputEmpty (output port value ∷ t) = ⊥

-- The last access found a byte to read.
abbrev pub OutputFull : Trace → Type 0
OutputFull [] = ⊥
OutputFull (input port value ∷ t) = (port ≡ status_port) × (has_bit value 0 ≡ true)
OutputFull (output port value ∷ t) = ⊥

-- Each write comes directly behind a read of the status that found the controller ready for it, and
-- each read of data directly behind one that found a byte.
abbrev pub Obeys : Trace → Type 0
Obeys [] = Unit {0}
Obeys (input port value ∷ t) = (if port == data_port then OutputFull t else Unit {0}) × Obeys t
Obeys (output port value ∷ t) = InputEmpty t × Obeys t

-- The state `s` differs from `b` by accesses that obey.
pub record Inside (b s : Ps2) : Type 0 where
  pub obeys : Obeys s.trace
  pub controller : s.controller_ok ≡ b.controller_ok
  pub keyboard : s.keyboard_ok ≡ b.keyboard_ok
  pub mouse : s.mouse_ok ≡ b.mouse_ok
  pub packet : s.mouse_packet ≡ b.mouse_packet
  pub size : s.mouse_packet_size ≡ b.mouse_packet_size

abbrev pub Keeps : {A : Type 0} → Ps2 → Step A → Type 0
Keeps b m = (s : Ps2) → Inside b s → Inside b (m s).0

-- After a step that succeeds, `E` holds of the accesses.
abbrev pub Ready : {A : Type 0} → (Trace → Type 0) → Ps2 → Ps2 × Option A → Type 0
Ready E b (s, none) = Inside b s
Ready E b (s, some a) = Inside b s × E s.trace

abbrev pub traced : Ps2 → Trace → Ps2
traced s t = record s { trace = t }

Inside-traced : {b s : Ps2} (t : Trace) → Inside b s → Obeys t → Inside b (traced s t)
Inside-traced t v o = record {
  obeys = o;
  controller = v.controller;
  keyboard = v.keyboard;
  mouse = v.mouse;
  packet = v.packet;
  size = v.size;
}

pub bind-Keeps :
    {A B : Type 0} {b : Ps2} (m : Step A) (f : A → Step B)
    → Keeps b m
    → ((a : A) → Keeps b (f a))
    → Keeps b (bind m f)
unfolding bind
bind-Keeps {A} {B} {b} m f hm hf s v = go (m s) (hm s v)
  where
    go : (r : Ps2 × Option A) → Inside b r.0 → Inside b (after r f).0
    go (t, none) w = w
    go (t, some a) w = hf a t w

pub require-Keeps : {b : Ps2} (c : Bool) → Keeps b (require c)
require-Keeps true s v = v
require-Keeps false s v = v

module _ (hw : Hardware) {b : Ps2} where
  pub status-Keeps : Keeps b (inb hw status_port)
  status-Keeps s v =
      Inside-traced (input status_port (byte_at hw status_port s.trace) ∷ s.trace) v (tt, v.obeys)

  wait_input_from-Ready :
      (n : ℕ) (s : Ps2) → Inside b s → Ready InputEmpty b (wait_input_from hw n s)
  unfolding wait_input_from
  wait_input_from-Ready zero s v = v
  wait_input_from-Ready (suc n) s v =
      let next = status-Keeps s v in
      elim (Bool-cases (has_bit (byte_at hw status_port s.trace) 1)) [
        | inl e ↦ rw e (wait_input_from-Ready n (inb hw status_port s).0 next)
        | inr e ↦ rw e (next, (refl, e))
      ]

  wait_output_from-Ready :
      (n : ℕ) (s : Ps2) → Inside b s → Ready OutputFull b (wait_output_from hw n s)
  unfolding wait_output_from
  wait_output_from-Ready zero s v = v
  wait_output_from-Ready (suc n) s v =
      let next = status-Keeps s v in
      elim (Bool-cases (has_bit (byte_at hw status_port s.trace) 0)) [
        | inl e ↦ rw e (next, (refl, e))
        | inr e ↦ rw e (wait_output_from-Ready n (inb hw status_port s).0 next)
      ]

  sent :
      (port value : ℕ) (r : Ps2 × Option Bool)
      → Ready InputEmpty b r
      → Inside b (after r (λ x. outb port value)).0
  sent port value (s, none) v = v
  sent port value (s, some x) (v, e) = Inside-traced (output port value ∷ s.trace) v (e, v.obeys)

  received :
      (r : Ps2 × Option Bool) → Ready OutputFull b r → Inside b (after r (λ x. inb hw data_port)).0
  received (s, none) v = v
  received (s, some x) (v, e) =
      Inside-traced (input data_port (byte_at hw data_port s.trace) ∷ s.trace) v (e, v.obeys)

  pub write_command-Keeps : (value : ℕ) → Keeps b (write_command hw value)
  unfolding write_command wait_input_empty bind
  write_command-Keeps value s v =
      sent command_port value (wait_input_from hw timeout s) (wait_input_from-Ready timeout s v)

  pub write_data-Keeps : (value : ℕ) → Keeps b (write_data hw value)
  unfolding write_data wait_input_empty bind
  write_data-Keeps value s v =
      sent data_port value (wait_input_from hw timeout s) (wait_input_from-Ready timeout s v)

  pub read_wait-Keeps : Keeps b (read_wait hw)
  unfolding read_wait wait_output_full bind
  read_wait-Keeps s v =
      received (wait_output_from hw timeout s) (wait_output_from-Ready timeout s v)

  -- A read of data directly behind a status that shows a byte.
  pub data-Keeps :
      (s : Ps2)
      → Inside b s
      → has_bit (byte_at hw status_port s.trace) 0 ≡ true
      → Inside b (inb hw data_port (inb hw status_port s).0).0
  data-Keeps s v e = received ((inb hw status_port s).0, some true) (status-Keeps s v, (refl, e))

  pub discard-Keeps : (n : ℕ) → Keeps b (discard hw n)
  unfolding discard
  discard-Keeps zero s v = v
  discard-Keeps (suc n) s v = elim (Bool-cases (has_bit (byte_at hw status_port s.trace) 0)) [
    | inl e ↦
        rw e (discard-Keeps n (inb hw data_port (inb hw status_port s).0).0 (data-Keeps s v e))
    | inr e ↦ rw e (status-Keeps s v)
  ]

  replied-Keeps :
      (again : Step Bool) → Keeps b again → (response : ℕ) → Keeps b (replied hw again response)
  replied-Keeps again h response s v = elim (Bool-cases (response == 0xfa)) [
    | inl e ↦ rw e v
    | inr e ↦ elim (Bool-cases (response == 0xfe)) [
      | inl f ↦ rw (e, f) (h s v)
      | inr f ↦ rw (e, f) v
    ]
  ]

  keyboard_command_from-Keeps : (n value : ℕ) → Keeps b (keyboard_command_from hw n value)
  unfolding keyboard_command_from
  keyboard_command_from-Keeps zero value = λ s v. v
  keyboard_command_from-Keeps (suc n) value =
      bind-Keeps (write_data hw value) _ (write_data-Keeps value) (λ x.
        bind-Keeps (read_wait hw) _ read_wait-Keeps
          (replied-Keeps (keyboard_command_from hw n value) (keyboard_command_from-Keeps n value)))

  mouse_command_from-Keeps : (n value : ℕ) → Keeps b (mouse_command_from hw n value)
  unfolding mouse_command_from
  mouse_command_from-Keeps zero value = λ s v. v
  mouse_command_from-Keeps (suc n) value =
      bind-Keeps (write_command hw 0xd4) _ (write_command-Keeps 0xd4) (λ x.
        bind-Keeps (write_data hw value) _ (write_data-Keeps value) (λ x.
          bind-Keeps (read_wait hw) _ read_wait-Keeps
            (replied-Keeps (mouse_command_from hw n value) (mouse_command_from-Keeps n value))))

  pub ps2_keyboard_command-Keeps : (value : ℕ) → Keeps b (ps2_keyboard_command hw value)
  unfolding ps2_keyboard_command
  ps2_keyboard_command-Keeps value = keyboard_command_from-Keeps 3 value

  pub mouse_command-Keeps : (value : ℕ) → Keeps b (mouse_command hw value)
  unfolding mouse_command
  mouse_command-Keeps value = mouse_command_from-Keeps 3 value

  pub expect-Keeps : (test : ℕ → Bool) → Keeps b (expect hw test)
  unfolding expect
  expect-Keeps test =
      bind-Keeps (read_wait hw) _ read_wait-Keeps (λ response. require-Keeps (test response))

  pub change_config-Keeps : (f : ℕ → ℕ) → Keeps b (change_config hw f)
  unfolding change_config
  change_config-Keeps f = bind-Keeps (write_command hw 0x20) _ (write_command-Keeps 0x20) (λ x.
      bind-Keeps (read_wait hw) _ read_wait-Keeps (λ config.
        bind-Keeps (write_command hw 0x60) _ (write_command-Keeps 0x60)
          (λ x. write_data-Keeps (f config))))
