-- ===== src/Ps2/Bounds.antt =====
-- How often the calls of kernel/drivers/keyboard/ps2.c access the ports at most.
use os.Prelude.{
  ℕ, zero, suc, ◌+◌, ◌*◌, ◌≤◌, List, [], ◌∷◌, Option, none, some, Bool, true, false, not, ◌==◌,
  ◌||◌, if◌then◌else◌, length, arith, inl, inr, Bool-cases,
}
use os.Ports.{Hardware, byte_at, has_bit}
use os.Ps2.{
  data_port, status_port, timeout, Ps2, Step, after, bind, require, assign, inb, wait_input_from,
  wait_output_from, wait_input_empty, wait_output_full, write_command, write_data, read_wait,
}
use os.Ps2.Controller.{
  clear_flags, controller_config, mouse_config, all, expect, change_config, discard,
  controller_steps, ps2_controller_init, replied, keyboard_command_from, ps2_keyboard_command,
  keyboard_steps, ps2_keyboard_initialize, mouse_command_from, mouse_command, mouse_steps,
  ps2_mouse_initialize,
}

abbrev pub accesses : Ps2 → ℕ
accesses s = length s.trace

-- The call adds at most `n` accesses.
abbrev pub IsWithin : {A : Type 0} → ℕ → Step A → Type 0
IsWithin n m = (s : Ps2) → accesses (m s).0 ≤ accesses s + n

bind-IsWithin :
    {A B : Type 0} (k n : ℕ) (m : Step A) (f : A → Step B)
    → IsWithin k m
    → ((a : A) → IsWithin n (f a))
    → IsWithin (k + n) (bind m f)
unfolding bind
bind-IsWithin {A} {B} k n m f hm hf s = go (m s) (hm s)
  where
    go :
        (r : Ps2 × Option A)
        → accesses r.0 ≤ accesses s + k
        → accesses (after r f).0 ≤ accesses s + (k + n)
    go (t, none) h = omega (arith, h)
    go (t, some a) h = omega (arith, h, hf a t)

module _ (hw : Hardware) where
  wait_input_from-IsWithin : (n : ℕ) → IsWithin n (wait_input_from hw n)
  unfolding wait_input_from
  wait_input_from-IsWithin zero s = omega arith
  wait_input_from-IsWithin (suc n) s =
      let rest = wait_input_from-IsWithin n (inb hw status_port s).0 in
      elim (Bool-cases (has_bit (byte_at hw status_port s.trace) 1)) [
        | inl e ↦ rw e (omega (arith, rest))
        | inr e ↦ rw e (omega arith)
      ]

  wait_output_from-IsWithin : (n : ℕ) → IsWithin n (wait_output_from hw n)
  unfolding wait_output_from
  wait_output_from-IsWithin zero s = omega arith
  wait_output_from-IsWithin (suc n) s =
      let rest = wait_output_from-IsWithin n (inb hw status_port s).0 in
      elim (Bool-cases (has_bit (byte_at hw status_port s.trace) 0)) [
        | inl e ↦ rw e (omega arith)
        | inr e ↦ rw e (omega (arith, rest))
      ]

  -- One byte, with the wait in front of it.
  abbrev byte : ℕ
  byte = timeout + 1

  write_command-IsWithin : (value : ℕ) → IsWithin byte (write_command hw value)
  unfolding write_command wait_input_empty
  write_command-IsWithin value =
      bind-IsWithin timeout 1 (wait_input_from hw timeout) _ (wait_input_from-IsWithin timeout)
        (λ x s. omega arith)

  write_data-IsWithin : (value : ℕ) → IsWithin byte (write_data hw value)
  unfolding write_data wait_input_empty
  write_data-IsWithin value =
      bind-IsWithin timeout 1 (wait_input_from hw timeout) _ (wait_input_from-IsWithin timeout)
        (λ x s. omega arith)

  read_wait-IsWithin : IsWithin byte (read_wait hw)
  unfolding read_wait wait_output_full
  read_wait-IsWithin =
      bind-IsWithin timeout 1 (wait_output_from hw timeout) _ (wait_output_from-IsWithin timeout)
        (λ x s. omega arith)

  replied-IsWithin :
      (n : ℕ) (again : Step Bool)
      → IsWithin n again
      → (response : ℕ) → IsWithin n (replied hw again response)
  replied-IsWithin n again h response s = elim (Bool-cases (response == 0xfa)) [
    | inl e ↦ rw e (omega arith)
    | inr e ↦ elim (Bool-cases (response == 0xfe)) [
      | inl f ↦ rw (e, f) (h s)
      | inr f ↦ rw (e, f) (omega arith)
    ]
  ]

  keyboard_command_from-IsWithin :
      (n value : ℕ) → IsWithin (n * (byte + byte)) (keyboard_command_from hw n value)
  unfolding keyboard_command_from
  keyboard_command_from-IsWithin zero value = λ s. omega arith
  keyboard_command_from-IsWithin (suc n) value = λ s.
      let step : IsWithin (byte + (byte + n * (byte + byte)))
          (keyboard_command_from hw (suc n) value) =
        bind-IsWithin byte (byte + n * (byte + byte)) (write_data hw value) _
          (write_data-IsWithin value)
          (λ x. bind-IsWithin byte (n * (byte + byte)) (read_wait hw) _ read_wait-IsWithin (
            replied-IsWithin (n * (byte + byte)) (keyboard_command_from hw n value)
              (keyboard_command_from-IsWithin n value))) in
      omega (arith, step s)

  mouse_command_from-IsWithin :
      (n value : ℕ) → IsWithin (n * (byte + (byte + byte))) (mouse_command_from hw n value)
  unfolding mouse_command_from
  mouse_command_from-IsWithin zero value = λ s. omega arith
  mouse_command_from-IsWithin (suc n) value = λ s.
      let k = n * (byte + (byte + byte)) in
      let step : IsWithin (byte + (byte + (byte + k))) (mouse_command_from hw (suc n) value) =
        bind-IsWithin byte (byte + (byte + k)) (write_command hw 0xd4) _
          (write_command-IsWithin 0xd4)
          (λ x.
            bind-IsWithin byte (byte + k) (write_data hw value) _ (write_data-IsWithin value) (λ x.
              bind-IsWithin byte k (read_wait hw) _ read_wait-IsWithin (
                replied-IsWithin k (mouse_command_from hw n value)
                  (mouse_command_from-IsWithin n value)))) in
      omega (arith, step s)

  keyboard_command-IsWithin :
      (value : ℕ) → IsWithin (3 * (byte + byte)) (ps2_keyboard_command hw value)
  unfolding ps2_keyboard_command
  keyboard_command-IsWithin value = keyboard_command_from-IsWithin 3 value

  mouse_command-IsWithin :
      (value : ℕ) → IsWithin (3 * (byte + (byte + byte))) (mouse_command hw value)
  unfolding mouse_command
  mouse_command-IsWithin value = mouse_command_from-IsWithin 3 value

  discard-IsWithin : (n : ℕ) → IsWithin (n * 2) (discard hw n)
  unfolding discard
  discard-IsWithin zero s = omega arith
  discard-IsWithin (suc n) s =
      let rest = discard-IsWithin n (inb hw data_port (inb hw status_port s).0).0 in
      elim (Bool-cases (has_bit (byte_at hw status_port s.trace) 0)) [
        | inl e ↦ rw e (omega (arith, rest))
        | inr e ↦ rw e (omega arith)
      ]

  require-IsWithin : (c : Bool) → IsWithin 0 (require c)
  require-IsWithin true s = omega arith
  require-IsWithin false s = omega arith

  expect-IsWithin : (test : ℕ → Bool) → IsWithin (byte + 0) (expect hw test)
  unfolding expect
  expect-IsWithin test =
      bind-IsWithin byte 0 (read_wait hw) _ read_wait-IsWithin
        (λ response. require-IsWithin (test response))

  change_config-IsWithin :
      (f : ℕ → ℕ) → IsWithin (byte + (byte + (byte + byte))) (change_config hw f)
  unfolding change_config
  change_config-IsWithin f =
      bind-IsWithin byte (byte + (byte + byte)) (write_command hw 0x20) _
        (write_command-IsWithin 0x20)
        (λ x. bind-IsWithin byte (byte + byte) (read_wait hw) _ read_wait-IsWithin (λ config.
          bind-IsWithin byte byte (write_command hw 0x60) _ (write_command-IsWithin 0x60)
            (λ x. write_data-IsWithin (f config))))

abbrev AllWithin : List ℕ → List (Step Bool) → Type 0
AllWithin (n ∷ ns) (m ∷ ms) = IsWithin n m × AllWithin ns ms
AllWithin [] [] = Unit {0}
AllWithin (n ∷ ns) [] = ⊥
AllWithin [] (m ∷ ms) = ⊥

abbrev total : List ℕ → ℕ
total [] = 0
total (n ∷ ns) = n + total ns

after-IsWithin :
    (k : ℕ) (r : Ps2 × Option Bool) (f : Bool → Step Bool) (bound : ℕ)
    → accesses r.0 ≤ bound
    → ((a : Bool) → IsWithin k (f a))
    → accesses (after r f).0 ≤ bound + k
after-IsWithin k (t, none) f bound h hf = omega (arith, h)
after-IsWithin k (t, some a) f bound h hf = omega (arith, h, hf a t)

all-IsWithin :
    (ns : List ℕ) (ms : List (Step Bool)) (last : Step Bool)
    → AllWithin ns ms
    → IsWithin 0 last
    → IsWithin (total ns) (all ms last)
all-IsWithin [] [] last each end s = end s
all-IsWithin (n ∷ ns) [] last each end s = absurd each
all-IsWithin [] (m ∷ ms) last each end s = absurd each
all-IsWithin (n ∷ ns) (m ∷ ms) last each end s =
    let rest =
      after-IsWithin (total ns) (m s) (λ x. all ms last) (accesses s + n) (each.0 s)
        (λ x. all-IsWithin ns ms last each.1 end) in
    omega (arith, rest)

guarded_accesses :
    (c : Bool) (q r : Ps2 × Option Bool) (bound : ℕ)
    → accesses q.0 ≤ bound
    → accesses r.0 ≤ bound
    → accesses (if not c then q else r).0 ≤ bound
guarded_accesses true q r bound h k = k
guarded_accesses false q r bound h k = h

-- Whatever the hardware answers, the three starts end: `ps2_controller_init` after at most 700071
-- accesses to the ports, `ps2_keyboard_initialize` after at most 2100021, `ps2_mouse_initialize` after
-- at most 3400034.
pub starts-IsWithin :
    (hw : Hardware) (s : Ps2)
    → (accesses (ps2_controller_init hw s).0 ≤ accesses s + 700071)
      × (accesses (ps2_keyboard_initialize hw s).0 ≤ accesses s + 2100021)
      × (accesses (ps2_mouse_initialize hw s).0 ≤ accesses s + 3400034)
unfolding ps2_controller_init ps2_keyboard_initialize ps2_mouse_initialize
starts-IsWithin hw s =
    let command = write_command-IsWithin hw in
    let controller =
      all-IsWithin (100001 ∷ 100001 ∷ 64 ∷ 400004 ∷ 100001 ∷ []) (controller_steps hw)
        (assign (λ t. record t { controller_ok = true }))
        (
          command 0xad,
          (
            command 0xa7,
            (
              discard-IsWithin hw 32,
              (change_config-IsWithin hw controller_config, (command 0xae, tt)),
            ),
          ),
        )
        (λ t. omega arith) (clear_flags s) in
    let keyboard =
      all-IsWithin (100001 ∷ 100001 ∷ 100001 ∷ 600006 ∷ 600006 ∷ 600006 ∷ []) (keyboard_steps hw)
        (assign (λ t. record t { keyboard_ok = true }))
        (
          write_data-IsWithin hw 0xff,
          (
            expect-IsWithin hw (λ response. response == 0xfa),
            (
              expect-IsWithin hw (λ response. (response == 0xaa) || (response == 0)),
              (
                keyboard_command-IsWithin hw 0xf0,
                (keyboard_command-IsWithin hw 0x02, (keyboard_command-IsWithin hw 0xf4, tt)),
              ),
            ),
          ),
        )
        (λ t. omega arith) s in
    let mouse =
      all-IsWithin (100001 ∷ 400004 ∷ 900009 ∷ 100001 ∷ 100001 ∷ 900009 ∷ 900009 ∷ [])
        (mouse_steps hw) (assign (λ t. record t { mouse_ok = true }))
        (
          command 0xa8,
          (
            change_config-IsWithin hw mouse_config,
            (
              mouse_command-IsWithin hw 0xff,
              (
                expect-IsWithin hw (λ reply. reply == 0xaa),
                (
                  expect-IsWithin hw (λ reply. true),
                  (mouse_command-IsWithin hw 0xf6, (mouse_command-IsWithin hw 0xf4, tt)),
                ),
              ),
            ),
          ),
        )
        (λ t. omega arith) (record s { mouse_ok = false; mouse_packet_size = 0 }) in
    (
      omega (arith, controller),
      guarded_accesses s.controller_ok _ _ (accesses s + 2100021) (omega arith)
          (omega (arith, keyboard)),
      guarded_accesses s.controller_ok _ _ (accesses s + 3400034) (omega arith)
          (omega (arith, mouse)),
    )
