-- ===== src/Ps2/Packets.antt =====
-- `ps2_mouse_poll` of kernel/drivers/keyboard/ps2.c as a parser of the bytes that the mouse sends.
use os.Prelude.{
  ℕ, zero, suc, ◌≡◌, refl, sym, ap, ◌∙◌, List, [], ◌∷◌, ◌++◌, ◌<◌, ◌⊎◌, Option, none, some, Bool,
  true, false, not, ◌&&◌, ◌||◌, if◌then◌else◌, ltb, ◌==◌, ◌-◌, ◌%◌, length, arith, inl, inr,
  Bool-cases,
}
use mathlib.Core.Path.{subst}
use os.Ports.{input, Trace, Hardware, byte_at, has_bit}
use os.Ps2.{data_port, status_port, Ps2, inb}
use os.Prelude.Int.{ℤ, pos, negsuc}
use os.Ps2.Mouse.{Movement, signed, negate, movement, take_byte, ps2_mouse_poll}

abbrev overflows : ℕ → Bool
overflows first = has_bit first 6 || has_bit first 7

-- A byte in two's complement: one from 128 on stands for a number that is less by 256.
abbrev to_right : ℕ → ℤ
to_right byte = if ltb byte 128 then pos byte else negsuc (255 - byte)

-- The mouse counts upwards, the caller downwards.
abbrev to_bottom : ℕ → ℤ
to_bottom byte =
    if byte == 0 then pos 0 else if ltb byte 128 then negsuc (byte - 1) else pos (256 - byte)

abbrev reported : (first second third : ℕ) → List Movement
reported first second third =
    let motion : Movement = record {
      delta_x = to_right second;
      delta_y = to_bottom third;
      buttons = first % 8;
    } in
    if overflows first then [] else motion ∷ []

down_lem : (z : ℕ) → z < 256 → negate (signed z) ≡ to_bottom z
down_lem zero lt = refl
down_lem (suc n) lt =
    let nonzero : (suc n == 0) ≡ false = ground arith in
    elim (Bool-cases (ltb (suc n) 128)) [
      | inl e ↦ rw (e, nonzero) (ap negsuc (omega arith))
      | inr e ↦ rw (e, nonzero) (ap pos (omega (arith, lt)))
    ]

-- What a stream of bytes means: a packet is three bytes, of which the first has bit 3 set; a byte
-- without it where a packet would start is skipped, and a packet that overflows is dropped. The first byte
-- has the buttons, the second the way to the right and the third the way upwards.
abbrev pub decode : List ℕ → List Movement
decode [] = []
decode (x ∷ []) = []
decode (x ∷ y ∷ []) = []
decode (x ∷ y ∷ z ∷ rest) =
    let skip = decode (y ∷ z ∷ rest) in
    let packet = reported x y z ++ decode rest in if has_bit x 3 then packet else skip

decode_skip : (x : ℕ) (xs : List ℕ) → has_bit x 3 ≡ false → decode (x ∷ xs) ≡ decode xs
decode_skip x [] e = refl
decode_skip x (y ∷ []) e = refl
decode_skip x (y ∷ z ∷ rest) e = rw e

-- The byte that a poll reads, if it reads one.
abbrev pub byte_ready : Hardware → Ps2 → Bool
byte_ready hw s =
    s.mouse_ok
    && (has_bit (byte_at hw status_port s.trace) 0 && has_bit (byte_at hw status_port s.trace) 5)

abbrev pub byte_read : Hardware → Ps2 → ℕ
byte_read hw s = byte_at hw data_port (inb hw status_port s).0.trace

-- The bytes that polls read one after the other, and the movements that they report.
abbrev pub bytes_read : Hardware → ℕ → Ps2 → List ℕ
bytes_read hw zero s = []
bytes_read hw (suc n) s =
    let rest = bytes_read hw n (ps2_mouse_poll hw s).0 in
    if byte_ready hw s then byte_read hw s ∷ rest else rest

abbrev cons? : Option Movement → List Movement → List Movement
cons? none ms = ms
cons? (some m) ms = m ∷ ms

abbrev pub movements : Hardware → ℕ → Ps2 → List Movement
movements hw zero s = []
movements hw (suc n) s =
    let rest = movements hw n (ps2_mouse_poll hw s).0 in cons? (ps2_mouse_poll hw s).1 rest

first_bit : (k a : ℕ) → (suc k ≡ 0) ⊎ (has_bit a 3 ≡ true) → has_bit a 3 ≡ true
first_bit k a (inl z) = absurd (omega arith)
first_bit k a (inr f) = f

module _ (hw : Hardware) (controller keyboard : Bool) where
  abbrev state : (a b c size : ℕ) → Trace → Ps2
  state a b c size t = record {
    controller_ok = controller;
    keyboard_ok = keyboard;
    mouse_ok = true;
    mouse_packet = a ∷ b ∷ c ∷ [];
    mouse_packet_size = size;
    trace = t;
  }

  abbrev next : Trace → Trace
  next t = input status_port (byte_at hw status_port t) ∷ t

  abbrev value : Trace → ℕ
  value t = byte_at hw data_port (next t)

  abbrev behind : Trace → Trace
  behind t = input data_port (value t) ∷ next t

  abbrev ready : Trace → Bool
  ready t = has_bit (byte_at hw status_port t) 0 && has_bit (byte_at hw status_port t) 5

  poll_idle :
      (a b c size : ℕ) (t : Trace)
      → ready t ≡ false
      → ps2_mouse_poll hw (state a b c size t) ≡ (state a b c size (next t), none)
  unfolding ps2_mouse_poll
  poll_idle a b c size t e =
      let test : (not (has_bit (byte_at hw status_port t) 0)
            || not (has_bit (byte_at hw status_port t) 5))
          ≡ true =
        ground (arith, e) in
      rw test

  poll_byte :
      (a b c size : ℕ) (t : Trace)
      → ready t ≡ true
      → ps2_mouse_poll hw (state a b c size t) ≡ take_byte (value t) (state a b c size (behind t))
  unfolding ps2_mouse_poll
  poll_byte a b c size t e =
      let test : (not (has_bit (byte_at hw status_port t) 0)
            || not (has_bit (byte_at hw status_port t) 5))
          ≡ false =
        ground (arith, e) in
      rw test

  take_first :
      (v a b c : ℕ) (t : Trace)
      → take_byte v (state a b c 0 t)
        ≡ (if has_bit v 3 then (state v b c 1 t, none) else (state a b c 0 t, none))
  unfolding take_byte
  take_first v a b c t = elim (Bool-cases (has_bit v 3)) [ inl e ↦ rw e | inr e ↦ rw e ]

  take_second : (v a b c : ℕ) (t : Trace) → take_byte v (state a b c 1 t) ≡ (state a v c 2 t, none)
  unfolding take_byte
  take_second v a b c t = refl

  take_third :
      (v a b c : ℕ) (t : Trace)
      → take_byte v (state a b c 2 t)
        ≡ (state a b v 0 t, if overflows a then none else some (movement (a ∷ b ∷ v ∷ [])))
  unfolding take_byte
  take_third v a b c t = elim (Bool-cases (overflows a)) [ inl e ↦ rw e | inr e ↦ rw e ]

  -- The bytes that are kept count as the start of the stream.
  abbrev kept : (a b size : ℕ) → List ℕ
  kept a b zero = []
  kept a b (suc zero) = a ∷ []
  kept a b (suc (suc n)) = a ∷ b ∷ []

  stream :
      (n size a b c : ℕ) (t : Trace)
      → size < 3
      → (size ≡ 0) ⊎ (has_bit a 3 ≡ true)
      → movements hw n (state a b c size t)
        ≡ decode (kept a b size ++ bytes_read hw n (state a b c size t))
  stream zero zero a b c t lt h = refl
  stream zero (suc zero) a b c t lt h = refl
  stream zero (suc (suc k)) a b c t lt h = refl
  stream (suc n) zero a b c t lt h = elim (Bool-cases (ready t)) [
    | inl e ↦ elim (Bool-cases (has_bit (value t) 3)) [
      | inl f ↦
          rw (poll_byte a b c 0 t e ∙ take_first (value t) a b c (behind t), e, f)
            (stream n 1 (value t) b c (behind t) (omega arith) (inr f))
      | inr f ↦
          rw (poll_byte a b c 0 t e ∙ take_first (value t) a b c (behind t), e, f)
            (stream n 0 a b c (behind t) (omega arith) (inl refl)
              ∙ sym (decode_skip (value t) (bytes_read hw n (state a b c 0 (behind t))) f))
    ]
    | inr e ↦ rw (poll_idle a b c 0 t e, e) (stream n 0 a b c (next t) lt h)
  ]
  stream (suc n) (suc zero) a b c t lt h = elim (Bool-cases (ready t)) [
    | inl e ↦
        rw (poll_byte a b c 1 t e ∙ take_second (value t) a b c (behind t), e)
          (stream n 2 a (value t) c (behind t) (omega arith) (inr (first_bit 0 a h)))
    | inr e ↦ rw (poll_idle a b c 1 t e, e) (stream n 1 a b c (next t) lt h)
  ]
  stream (suc n) (suc (suc (suc k))) a b c t lt h = absurd (omega arith)
  stream (suc n) (suc (suc zero)) a b c t lt h = elim (Bool-cases (ready t)) [
    | inl e ↦ elim (Bool-cases (overflows a)) [
      | inl f ↦
          rw (poll_byte a b c 2 t e ∙ take_third (value t) a b c (behind t), e, first_bit 1 a h, f)
            (stream n 0 a b (value t) (behind t) (omega arith) (inl refl))
      | inr f ↦
          rw (poll_byte a b c 2 t e ∙ take_third (value t) a b c (behind t), e, first_bit 1 a h, f)
            (let down = down_lem (value t) (omega arith) in
              rw down (
                ap {A = List Movement}
                  (λ ms.
                    (record {
                      delta_x = to_right b;
                      delta_y = to_bottom (value t);
                      buttons = a % 8;
                    })
                    ∷ ms)
                  (stream n 0 a b (value t) (behind t) (omega arith) (inl refl))))
    ]
    | inr e ↦ rw (poll_idle a b c 2 t e, e) (stream n 2 a b c (next t) lt h)
  ]

three_parts : (xs : List ℕ) → length xs ≡ 3 → (a : ℕ) × (b : ℕ) × (c : ℕ) × (xs ≡ a ∷ b ∷ c ∷ [])
three_parts [] e = absurd (omega (arith, e))
three_parts (a ∷ []) e = absurd (omega (arith, e))
three_parts (a ∷ b ∷ []) e = absurd (omega (arith, e))
three_parts (a ∷ b ∷ c ∷ []) e = (a, b, c, refl)
three_parts (a ∷ b ∷ c ∷ d ∷ xs) e = absurd (omega (arith, e))

-- With a mouse that is in use and no bytes of a packet kept, the movements that any number of polls
-- report are the packets in the bytes that these polls read, whatever the hardware answers: polls that
-- read no byte lose nothing, bytes that start no packet are skipped until one does, a packet that
-- overflows is dropped, and in the others the buttons are the low bits of the first byte, the way to the
-- right is the second and the way downwards the negated third, both in two's complement.
pub movements-decode :
    (hw : Hardware) (n : ℕ) (s : Ps2)
    → s.mouse_ok ≡ true
    → s.mouse_packet_size ≡ 0
    → length s.mouse_packet ≡ 3
    → movements hw n s ≡ decode (bytes_read hw n s)
movements-decode hw n s ok idle three =
    let (a, b, c, list) = three_parts s.mouse_packet three in
    let same : state hw s.controller_ok s.keyboard_ok a b c 0 s.trace ≡ s =
      ground (arith, ok, idle, list) in
    subst (λ x. movements hw n x ≡ decode (bytes_read hw n x)) same
      (stream hw s.controller_ok s.keyboard_ok n 0 a b c s.trace (omega arith) (inl refl))
