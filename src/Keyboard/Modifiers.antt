-- ===== src/Keyboard/Modifiers.antt =====
-- The modifier keys in kernel/drivers/keyboard/keyboard.c, over all bytes that come.
use os.Prelude.{
  ℕ, zero, suc, ◌+◌, ◌%◌, ◌<◌, ◌≡◌, refl, ap, ◌∙◌, List, [], ◌∷◌, ◌++◌, get_or, Bool, true, false,
  not, ◌&&◌, ◌||◌, if◌then◌else◌, ltb, ◌==◌, arith, inl, inr, Bool-cases,
}
use os.Keyboard.{Decoder, decode, press, with_modifiers, key_value, letter}

-- The decoder after a list of bytes.
unfoldable pub decode_all : Decoder → List ℕ → Decoder
decode_all k [] = k
decode_all k (b ∷ bs) = decode_all (decode k b).0 bs

-- No byte of such a key, pressed or released.
abbrev pub without : (ℕ → Bool) → List ℕ → Bool
without is_key [] = true
without is_key (b ∷ bs) = not (is_key (b % 128)) && without is_key bs

abbrev pub is_shift : ℕ → Bool
is_shift s = (s == 42) || (s == 54)

abbrev pub is_ctrl : ℕ → Bool
is_ctrl s = s == 29

abbrev pub is_alt : ℕ → Bool
is_alt s = s == 56

-- What a byte does to the flags.
decode_shift :
    (k : Decoder) (b : ℕ)
    → (decode k b).0.shift ≡ (if is_shift (b % 128) then ltb b 128 else k.shift)
unfolding decode
decode_shift k b = ground arith

decode_ctrl :
    (k : Decoder) (b : ℕ) → (decode k b).0.ctrl ≡ (if is_ctrl (b % 128) then ltb b 128 else k.ctrl)
unfolding decode
decode_ctrl k b = ground arith

decode_alt :
    (k : Decoder) (b : ℕ) → (decode k b).0.alt ≡ (if is_alt (b % 128) then ltb b 128 else k.alt)
unfolding decode
decode_alt k b = ground arith

module _ (is_key : ℕ → Bool) (flag : Decoder → Bool)
    (step : (k : Decoder) (b : ℕ)
      → flag (decode k b).0 ≡ (if is_key (b % 128) then ltb b 128 else flag k)) where
  untouched :
      (bs : List ℕ) (k : Decoder) → without is_key bs ≡ true → flag (decode_all k bs) ≡ flag k
  unfolding decode_all
  untouched [] k none = refl
  untouched (b ∷ bs) k none =
      let other : is_key (b % 128) ≡ false = ground (arith, none) in
      let rest : without is_key bs ≡ true = ground (arith, none) in
      untouched bs (decode k b).0 rest ∙ step k b ∙ rw other refl

  latest :
      (before : List ℕ) (k : Decoder) (b : ℕ) (behind : List ℕ)
      → is_key (b % 128) ≡ true
      → without is_key behind ≡ true
      → flag (decode_all k (before ++ b ∷ behind)) ≡ ltb b 128
  unfolding decode_all
  latest [] k b behind key none = untouched behind (decode k b).0 none ∙ step k b ∙ rw key refl
  latest (c ∷ before) k b behind key none = latest before (decode k c).0 b behind key none

pub data Modifier : Type 0 where
  shift_key : Modifier
  ctrl_key : Modifier
  alt_key : Modifier

abbrev pub is_key_of : Modifier → ℕ → Bool
is_key_of shift_key = is_shift
is_key_of ctrl_key = is_ctrl
is_key_of alt_key = is_alt

abbrev pub flag_of : Modifier → Decoder → Bool
flag_of shift_key k = k.shift
flag_of ctrl_key k = k.ctrl
flag_of alt_key k = k.alt

-- Whatever bytes came before, behind a byte of a Shift, Ctrl or Alt key and then bytes of other keys, the flag of
-- that modifier says whether that byte was a press: 0xe0 and all other keys leave it.
pub decode_all-latest :
    (m : Modifier) (k : Decoder) (before : List ℕ) (b : ℕ) (behind : List ℕ)
    → is_key_of m (b % 128) ≡ true
    → without (is_key_of m) behind ≡ true
    → flag_of m (decode_all k (before ++ b ∷ behind)) ≡ ltb b 128
decode_all-latest shift_key k before b behind =
    latest is_shift (λ d. d.shift) decode_shift before k b behind
decode_all-latest ctrl_key k before b behind =
    latest is_ctrl (λ d. d.ctrl) decode_ctrl before k b behind
decode_all-latest alt_key k before b behind =
    latest is_alt (λ d. d.alt) decode_alt before k b behind

-- The keys of the letters from A to Z on an English keyboard.
abbrev pub letter_keys : List ℕ
letter_keys =
    30 ∷ 48 ∷ 46 ∷ 32 ∷ 18 ∷ 33 ∷ 34 ∷ 35 ∷ 23 ∷ 36 ∷ 37 ∷ 38 ∷ 50 ∷ 49 ∷ 24 ∷ 25 ∷ 16 ∷ 19 ∷ 31
    ∷ 20 ∷ 22 ∷ 47 ∷ 17 ∷ 45 ∷ 21 ∷ 44 ∷ []

-- What a press gives behind other bytes.
abbrev pub typed : Decoder → List ℕ → ℕ → ℕ
typed k before key = (decode (decode_all k before) key).1

abbrev all_below : ℕ → (ℕ → Bool) → Bool
all_below zero test = true
all_below (suc n) test = test n && all_below n test

all_below_at : (n : ℕ) (test : ℕ → Bool) (i : ℕ) → all_below n test ≡ true → i < n → test i ≡ true
all_below_at zero test i all lt = absurd (omega (arith, lt))
all_below_at (suc n) test i all lt = elim (Bool-cases (i == n)) [
  | inl e ↦ let same : i ≡ n = ground (arith, e) in ap test same ∙ ground (arith, all)
  | inr e ↦ all_below_at n test i (ground (arith, all)) (ground (arith, e, lt))
]

abbrev resting : (ctrl alt ready : Bool) → Decoder
resting ctrl alt ready = record {
  shift = false;
  ctrl = ctrl;
  alt = alt;
  caps = false;
  extended = false;
  ready = ready;
}

abbrev letter_test : Decoder → ℕ → Bool
letter_test k n =
    let key = get_or letter_keys n 0 in
    (typed k (29 ∷ []) key == (n + 1))
    && (typed k (0xe0 ∷ 29 ∷ []) key == 0)
    && (typed k (157 ∷ 184 ∷ []) key == (n + 97))
    && (typed k (157 ∷ 56 ∷ []) key == (n + 97 + 128))

typed_all : (ctrl alt ready : Bool) → all_below 26 (letter_test (resting ctrl alt ready)) ≡ true
unfolding decode decode_all press with_modifiers key_value letter
typed_all ctrl alt ready = refl

-- While Shift and Caps Lock are off and no byte 0xe0 is pending, the key of the letter with number `n` gives the
-- control code n + 1 right behind the press of the left Ctrl key, but nothing behind that of the right one; the
-- lower case letter once Ctrl and Alt are let go; and the letter with its high bit set when Alt goes down then.
pub typed-letter :
    (k : Decoder) (n : ℕ)
    → n < 26
    → k.shift ≡ false
    → k.caps ≡ false
    → k.extended ≡ false
    → (typed k (29 ∷ []) (get_or letter_keys n 0) ≡ n + 1)
      × (typed k (0xe0 ∷ 29 ∷ []) (get_or letter_keys n 0) ≡ 0)
      × (typed k (157 ∷ 184 ∷ []) (get_or letter_keys n 0) ≡ n + 97)
      × (typed k (157 ∷ 56 ∷ []) (get_or letter_keys n 0) ≡ n + 97 + 128)
typed-letter k n lt shift caps extended =
    let same : k ≡ resting k.ctrl k.alt k.ready = ground (arith, shift, caps, extended) in
    let all =
      all_below_at 26 (letter_test (resting k.ctrl k.alt k.ready)) n
        (typed_all k.ctrl k.alt k.ready) lt in
    rw same (ground (arith, all))
