-- ===== src/Ps2/Protocol/Safe.antt =====
-- Every sequence of calls of kernel/drivers/keyboard/ps2.c keeps the rules of the ports and the flags.
use os.Prelude.{
  ℕ, ◌+◌, ◌<◌, ◌≡◌, refl, sym, ap, ◌∙◌, ◌==◌, List, [], ◌∷◌, Option, none, some, Bool, true, false,
  not, ◌&&◌, ◌||◌, if◌then◌else◌, length, length-update, arith, inl, inr, Bool-cases,
}
use mathlib.Core.Path.{subst}
use os.Ports.{Hardware, byte_at, has_bit}
use os.Ps2.{data_port, status_port, Ps2, Step, after, bind, assign, inb}
use os.Ps2.Controller.{
  clear_flags, controller_config, all, controller_steps, keyboard_steps, mouse_steps, mouse_config,
  ps2_controller_init, ps2_keyboard_command, ps2_keyboard_initialize, ps2_data_available,
  ps2_read_data, mouse_command, ps2_mouse_initialize, ps2_mouse_shutdown,
}
use os.Ps2.Mouse.{take_byte, ps2_mouse_poll}
use os.Ps2.Protocol.{
  Obeys, Inside, Keeps, write_command-Keeps, write_data-Keeps, data-Keeps, discard-Keeps,
  expect-Keeps, change_config-Keeps, status-Keeps, ps2_keyboard_command-Keeps, mouse_command-Keeps,
}

-- A device is in use only with the controller, and a packet has at most two of its bytes.
pub record IsFlagged (s : Ps2) : Type 0 where
  pub keyboard : (s.keyboard_ok && not s.controller_ok) ≡ false
  pub mouse : (s.mouse_ok && not s.controller_ok) ≡ false
  pub bytes : length s.mouse_packet ≡ 3
  pub size : s.mouse_packet_size < 3

abbrev pub IsSafe : Ps2 → Type 0
IsSafe s = Obeys s.trace × IsFlagged s

abbrev Leads : {A : Type 0} → Ps2 → Step A → Type 0
Leads b m = (s : Ps2) → Inside b s → IsSafe (m s).0

Inside-self : {s : Ps2} → Obeys s.trace → Inside s s
Inside-self o = record {
  obeys = o;
  controller = refl;
  keyboard = refl;
  mouse = refl;
  packet = refl;
  size = refl;
}

Inside-IsSafe : {b s : Ps2} → IsFlagged b → Inside b s → IsSafe s
Inside-IsSafe f v = (
  v.obeys,
  record {
    keyboard = ground (arith, v.keyboard, v.controller, f.keyboard);
    mouse = ground (arith, v.mouse, v.controller, f.mouse);
    bytes = ap length v.packet ∙ f.bytes;
    size = omega (arith, v.size, f.size);
  },
)

abbrev AllKeep : Ps2 → List (Step Bool) → Type 0
AllKeep b [] = Unit {0}
AllKeep b (m ∷ ms) = Keeps b m × AllKeep b ms

-- What follows a call that keeps the flags.
after-IsSafe :
    {b : Ps2} (f : IsFlagged b) (r : Ps2 × Option Bool) (g : Bool → Step Bool)
    → Inside b r.0
    → ((a : Bool) → Leads b (g a))
    → IsSafe (after r g).0
after-IsSafe f (t, none) g w h = Inside-IsSafe f w
after-IsSafe f (t, some a) g w h = h a t w

-- `if (!c) return 0;` in front of what gives `r`.
guarded :
    (c : Bool) (q r : Ps2 × Option Bool)
    → IsSafe q.0
    → (c ≡ true → IsSafe r.0)
    → IsSafe (if not c then q else r).0
guarded true q r hq hr = hr refl
guarded false q r hq hr = hq

all-Leads :
    {b : Ps2} (f : IsFlagged b) (ms : List (Step Bool)) (last : Step Bool)
    → AllKeep b ms
    → Leads b last
    → Leads b (all ms last)
all-Leads f [] last keep h s v = h s v
all-Leads f (m ∷ ms) last keep h s v =
    after-IsSafe f (m s) (λ x. all ms last) (keep.0 s v) (λ x. all-Leads f ms last keep.1 h)

module _ (hw : Hardware) where
  init-IsSafe : (s : Ps2) → IsSafe s → IsSafe (ps2_controller_init hw s).0
  unfolding ps2_controller_init
  init-IsSafe s (o, f) =
      let b = clear_flags s in
      let flags : IsFlagged b = record {
        keyboard = refl;
        mouse = refl;
        bytes = f.bytes;
        size = f.size;
      } in
      all-Leads flags (controller_steps hw) (assign (λ t. record t { controller_ok = true }))
        (
          write_command-Keeps hw 0xad,
          (
            write_command-Keeps hw 0xa7,
            (
              discard-Keeps hw 32,
              (change_config-Keeps hw controller_config, (write_command-Keeps hw 0xae, tt)),
            ),
          ),
        )
        (λ t v. (
          v.obeys,
          record {
            keyboard = ground arith;
            mouse = ground arith;
            bytes = ap length v.packet ∙ f.bytes;
            size = omega (arith, v.size, f.size);
          },
        ))
        b (Inside-self o)

  keyboard-IsSafe : (s : Ps2) → IsSafe s → IsSafe (ps2_keyboard_initialize hw s).0
  unfolding ps2_keyboard_initialize
  keyboard-IsSafe s (o, f) =
      guarded s.controller_ok (s, none) _ (o, f)
        (λ e.
          all-Leads f (keyboard_steps hw) (assign (λ t. record t { keyboard_ok = true }))
            (
              write_data-Keeps hw 0xff,
              (
                expect-Keeps hw (λ response. response == 0xfa),
                (
                  expect-Keeps hw (λ response. (response == 0xaa) || (response == 0)),
                  (
                    ps2_keyboard_command-Keeps hw 0xf0,
                    (ps2_keyboard_command-Keeps hw 0x02, (ps2_keyboard_command-Keeps hw 0xf4, tt)),
                  ),
                ),
              ),
            )
            (λ t v. (
              v.obeys,
              record {
                keyboard = ground (arith, v.controller, e);
                mouse = ground (arith, v.controller, e);
                bytes = ap length v.packet ∙ f.bytes;
                size = omega (arith, v.size, f.size);
              },
            ))
            s (Inside-self o))

  mouse-IsSafe : (s : Ps2) → IsSafe s → IsSafe (ps2_mouse_initialize hw s).0
  unfolding ps2_mouse_initialize
  mouse-IsSafe s (o, f) =
      let b = record s { mouse_ok = false; mouse_packet_size = 0 } in
      let flags : IsFlagged b = record {
        keyboard = f.keyboard;
        mouse = refl;
        bytes = f.bytes;
        size = omega arith;
      } in
      guarded s.controller_ok (b, none) _ (o, flags)
        (λ e.
          all-Leads flags (mouse_steps hw) (assign (λ t. record t { mouse_ok = true }))
            (
              write_command-Keeps hw 0xa8,
              (
                change_config-Keeps hw mouse_config,
                (
                  mouse_command-Keeps hw 0xff,
                  (
                    expect-Keeps hw (λ reply. reply == 0xaa),
                    (
                      expect-Keeps hw (λ reply. true),
                      (mouse_command-Keeps hw 0xf6, (mouse_command-Keeps hw 0xf4, tt)),
                    ),
                  ),
                ),
              ),
            )
            (λ t v. (
              v.obeys,
              record {
                keyboard = ground (arith, v.controller, e);
                mouse = ground (arith, v.controller, e);
                bytes = ap length v.packet ∙ f.bytes;
                size = omega (arith, v.size);
              },
            ))
            b (Inside-self o))

  shutdown-IsSafe : (s : Ps2) → IsSafe s → IsSafe (ps2_mouse_shutdown hw s)
  unfolding ps2_mouse_shutdown
  shutdown-IsSafe s (o, f) =
      let told : Inside s (if s.mouse_ok then (mouse_command hw 0xf5 s).0 else s) =
        elim (Bool-cases s.mouse_ok) [
          | inl e ↦
              subst (λ c. Inside s (if c then (mouse_command hw 0xf5 s).0 else s)) (sym e)
                (mouse_command-Keeps hw 0xf5 s (Inside-self o))
          | inr e ↦
              subst (λ c. Inside s (if c then (mouse_command hw 0xf5 s).0 else s)) (sym e)
                (Inside-self o)
        ] in
      let v = write_command-Keeps hw 0xa7 _ told in
      let w = (Inside-IsSafe f v).1 in
      (v.obeys, record { keyboard = w.keyboard; mouse = refl; bytes = w.bytes; size = omega arith })

  read-IsSafe : (s : Ps2) → IsSafe s → IsSafe (ps2_read_data hw s).0
  unfolding ps2_read_data ps2_data_available bind
  read-IsSafe s (o, f) =
      elim (Bool-cases (
        s.controller_ok
        && (has_bit (byte_at hw status_port s.trace) 0
            && not (has_bit (byte_at hw status_port s.trace) 5)))) [
              | inl e ↦ rw e (Inside-IsSafe f (data-Keeps hw s (Inside-self o) (ground arith)))
              | inr e ↦ rw e (Inside-IsSafe f (status-Keeps hw s (Inside-self o)))
            ]

  command-IsSafe : (value : ℕ) (s : Ps2) → IsSafe s → IsSafe (ps2_keyboard_command hw value s).0
  command-IsSafe value s (o, f) =
      Inside-IsSafe f (ps2_keyboard_command-Keeps hw value s (Inside-self o))

either :
    {A : Type 0} (c : Bool) (q r : Ps2 × Option A)
    → (c ≡ true → IsSafe q.0)
    → (c ≡ false → IsSafe r.0)
    → IsSafe (if c then q else r).0
either true q r hq hr = hq refl
either false q r hq hr = hr refl

take_byte-IsSafe : (value : ℕ) (s : Ps2) → IsSafe s → IsSafe (take_byte value s).0
unfolding take_byte
take_byte-IsSafe value s (o, f) =
    let bytes = length-update s.mouse_packet s.mouse_packet_size (λ old. value) ∙ f.bytes in
    either ((s.mouse_packet_size == 0) && not (has_bit value 3)) _ _ (λ e. (o, f))
      (λ e.
        either (not ((s.mouse_packet_size + 1) == 3)) _ _
          (λ e. (
            o,
            record {
              keyboard = f.keyboard;
              mouse = f.mouse;
              bytes = bytes;
              size = ground (arith, f.size);
            },
          ))
          (λ e.
            either _ _ _
              (λ e. (
                o,
                record {
                  keyboard = f.keyboard;
                  mouse = f.mouse;
                  bytes = bytes;
                  size = omega arith;
                },
              ))
              (λ e. (
                o,
                record {
                  keyboard = f.keyboard;
                  mouse = f.mouse;
                  bytes = bytes;
                  size = omega arith;
                },
              ))))

module _ (hw : Hardware) where
  poll-IsSafe : (s : Ps2) → IsSafe s → IsSafe (ps2_mouse_poll hw s).0
  unfolding ps2_mouse_poll
  poll-IsSafe s (o, f) =
      let now = (inb hw status_port s).0 in
      let seen = status-Keeps hw s (Inside-self o) in
      either (not s.mouse_ok) _ _ (λ e. (o, f))
        (λ e.
          either
            (not (has_bit (byte_at hw status_port s.trace) 0)
              || not (has_bit (byte_at hw status_port s.trace) 5))
            _ _ (λ e. Inside-IsSafe f seen)
            (λ e.
              take_byte-IsSafe (byte_at hw data_port now.trace) (inb hw data_port now).0
                (Inside-IsSafe f (data-Keeps hw s (Inside-self o) (ground arith)))))

-- A call of the driver.
pub data Call : Type 0 where
  controller_init : Call
  keyboard_initialize : Call
  keyboard_command : ℕ → Call
  read_data : Call
  mouse_initialize : Call
  mouse_poll : Call
  mouse_shutdown : Call

abbrev pub call : Hardware → Call → Ps2 → Ps2
call hw controller_init s = (ps2_controller_init hw s).0
call hw keyboard_initialize s = (ps2_keyboard_initialize hw s).0
call hw (keyboard_command value) s = (ps2_keyboard_command hw value s).0
call hw read_data s = (ps2_read_data hw s).0
call hw mouse_initialize s = (ps2_mouse_initialize hw s).0
call hw mouse_poll s = (ps2_mouse_poll hw s).0
call hw mouse_shutdown s = ps2_mouse_shutdown hw s

abbrev pub run : Hardware → List Call → Ps2 → Ps2
run hw [] s = s
run hw (c ∷ cs) s = run hw cs (call hw c s)

call-IsSafe : (hw : Hardware) (c : Call) (s : Ps2) → IsSafe s → IsSafe (call hw c s)
call-IsSafe hw controller_init s v = init-IsSafe hw s v
call-IsSafe hw keyboard_initialize s v = keyboard-IsSafe hw s v
call-IsSafe hw (keyboard_command value) s v = command-IsSafe hw value s v
call-IsSafe hw read_data s v = read-IsSafe hw s v
call-IsSafe hw mouse_initialize s v = mouse-IsSafe hw s v
call-IsSafe hw mouse_poll s v = poll-IsSafe hw s v
call-IsSafe hw mouse_shutdown s v = shutdown-IsSafe hw s v

run-keeps : (hw : Hardware) (cs : List Call) (s : Ps2) → IsSafe s → IsSafe (run hw cs s)
run-keeps hw [] s v = v
run-keeps hw (c ∷ cs) s v = run-keeps hw cs (call hw c s) (call-IsSafe hw c s v)

-- The static variables before the first call.
abbrev pub zeroed : Ps2
zeroed = record {
  controller_ok = false;
  keyboard_ok = false;
  mouse_ok = false;
  mouse_packet = 0 ∷ 0 ∷ 0 ∷ [];
  mouse_packet_size = 0;
  trace = [];
}

-- Whatever the hardware answers, in every sequence of calls from the start each byte is written
-- directly behind a read of the status that found the controller ready for it, each byte is read
-- directly behind one that found a byte, the keyboard and the mouse are marked as in use only with the
-- controller, and at most two bytes of a mouse packet are kept, in an array of three.
pub run-IsSafe : (hw : Hardware) (cs : List Call) → IsSafe (run hw cs zeroed)
run-IsSafe hw cs =
    run-keeps hw cs zeroed
      (tt, record { keyboard = refl; mouse = refl; bytes = refl; size = omega arith })
