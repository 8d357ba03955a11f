-- ===== src/Keyboard.antt =====
-- The decoder of scan codes, kernel/drivers/keyboard/keyboard.c, over the functions of its PS/2 driver.
pub mod Modifiers
mod Tests
use os.Prelude.{
  ℕ, ◌+◌, ◌-◌, ◌%◌, ◌^◌, List, [], ◌∷◌, ◌++◌, Option, none, some, Bool, true, false, not, ◌&&◌,
  ◌||◌, if◌then◌else◌, ltb, leb, ◌==◌, get_or, replicate,
}
use os.Prelude.CString.{codes}
use os.Ports.{Hardware, set_bit}
use os.Ps2.{Ps2}
use os.Ps2.Controller.{
  ps2_controller_init, ps2_keyboard_initialize, ps2_data_available, ps2_read_data,
}

-- The static variables.
pub record Decoder : Type 0 where
  pub shift : Bool
  pub ctrl : Bool
  pub alt : Bool
  pub caps : Bool
  pub extended : Bool
  pub ready : Bool

abbrev pub cleared_keys : Decoder
cleared_keys = record {
  shift = false;
  ctrl = false;
  alt = false;
  caps = false;
  extended = false;
  ready = false;
}

-- A call that gave 1.
abbrev is_done : Option Bool → Bool
is_done none = false
is_done (some b) = b

unfoldable keyboard_init : Hardware → Ps2 → Ps2 × Decoder × Bool
keyboard_init hw p =
    let controller = ps2_controller_init hw p in
    let keyboard = ps2_keyboard_initialize hw controller.0 in
    if not (is_done controller.1)
    then (controller.0, cleared_keys, false)
    else if not (is_done keyboard.1)
    then (keyboard.0, cleared_keys, false)
    else (keyboard.0, record cleared_keys { ready = true }, true)

unfoldable letter : Decoder → ℕ → ℕ
letter k lower =
    let upper = if k.caps then not k.shift else k.shift in if upper then lower - 97 + 65 else lower

abbrev normal : List ℕ
normal =
    0 ∷ 27 ∷ codes "1234567890-="
    ++ 8 ∷ 9 ∷ replicate 10 0
    ++ codes "[]"
    ++ 10 ∷ replicate 10 0
    ++ codes ";'`"
    ++ 0 ∷ 92 ∷ replicate 7 0
    ++ codes ",./"
    ++ replicate 3 0
    ++ 32 ∷ []

abbrev shifted : List ℕ
shifted =
    0 ∷ 0 ∷ codes "!@#$%^&*()_+"
    ++ replicate 12 0
    ++ codes "{}"
    ++ replicate 11 0
    ++ 58 ∷ 34 ∷ 126 ∷ 0 ∷ 124 ∷ replicate 7 0
    ++ codes "<>?"
    ++ replicate 3 0
    ++ 32 ∷ []

-- The keys behind the byte 0xe0, each with the code that it gives.
abbrev pub extended_codes : List (ℕ × ℕ)
extended_codes =
    (72, 0x11)
    ∷ (80, 0x12)
    ∷ (75, 0x13)
    ∷ (77, 0x14)
    ∷ (71, 0x91)
    ∷ (79, 0x92)
    ∷ (73, 0x93)
    ∷ (81, 0x94)
    ∷ (82, 0x95)
    ∷ (83, 0x96)
    ∷ []

abbrev pub code_of : List (ℕ × ℕ) → ℕ → ℕ
code_of [] s = 0
code_of ((key, code) ∷ rest) s = if s == key then code else code_of rest s

-- The character of a key, before Ctrl and Alt.
unfoldable key_value : Decoder → ℕ → ℕ
key_value k s =
    if leb 16 s && leb s 25
    then letter k (get_or (codes "qwertyuiop") (s - 16) 0)
    else if leb 30 s && leb s 38
    then letter k (get_or (codes "asdfghjkl") (s - 30) 0)
    else if leb 44 s && leb s 50
    then letter k (get_or (codes "zxcvbnm") (s - 44) 0)
    else get_or (if k.shift then shifted else normal) s 0

unfoldable with_modifiers : Decoder → ℕ → ℕ
with_modifiers k value =
    if k.ctrl && leb 97 value && leb value 122
    then value - 97 + 1
    else if k.alt && not (value == 0)
    then set_bit value 7
    else value

-- The press of a key without 0xe0.
unfoldable press : Decoder → ℕ → ℕ
press k s =
    if leb 59 s && leb s 68
    then 0x80 + s - 58
    else if (s == 15) && k.shift
    then 0x8f
    else with_modifiers k (key_value k s)

-- The decoding of a byte.
unfoldable decode : Decoder → ℕ → Decoder × ℕ
decode k byte =
    let released = leb 0x80 byte in
    let s = byte % 0x80 in
    if byte == 0xe0
    then (record k { extended = true }, 0)
    else if (s == 42) || (s == 54)
    then (record k { shift = not released }, 0)
    else if s == 29
    then (record k { ctrl = not released }, 0)
    else if s == 56
    then (record k { alt = not released }, 0)
    else if (s == 58) && not released
    then (record k { caps = not k.caps }, 0)
    else if released
    then (record k { extended = false }, 0)
    else if k.extended
    then (record k { extended = false }, code_of extended_codes s)
    else (k, press k s)

-- `ps2_read_data` gives 0 when there is no byte.
abbrev byte_or_zero : Option ℕ → ℕ
byte_or_zero none = 0
byte_or_zero (some b) = b

unfoldable keyboard_poll : Hardware → Decoder × Ps2 → (Decoder × Ps2) × ℕ
keyboard_poll hw (k, p) =
    let available = ps2_data_available hw p in
    let byte = ps2_read_data hw available.0 in
    let decoded = decode k (byte_or_zero byte.1) in
    if not k.ready
    then ((k, p), 0)
    else if not (is_done available.1)
    then ((k, available.0), 0)
    else ((decoded.0, byte.0), decoded.1)
