-- ===== src/Keyboard/Tests.antt =====
-- The theorems on kernel/drivers/keyboard/keyboard.c at concrete inputs.
use os.Prelude.{◌≡◌, refl, [], ◌∷◌, ◌++◌, true, false, arith}
use os.Keyboard.{cleared_keys, decode, press, with_modifiers, key_value, letter}
use os.Keyboard.Modifiers.{decode_all, shift_key, flag_of, decode_all-latest, typed, typed-letter}

-- The bytes of "Hi": Shift is let go before the second key.
types_hi : (decode_all cleared_keys (42 ∷ 35 ∷ 163 ∷ 170 ∷ [])).shift ≡ false
unfolding decode_all decode
types_hi = refl

shift_h : (decode (decode_all cleared_keys (42 ∷ [])) 35).1 ≡ 72
unfolding decode_all decode press with_modifiers key_value letter
shift_h = refl

decode_all-latest_example :
    flag_of shift_key (decode_all cleared_keys ((29 ∷ 42 ∷ 170 ∷ []) ++ 54 ∷ 35 ∷ 163 ∷ [])) ≡ true
decode_all-latest_example =
    decode_all-latest shift_key cleared_keys (29 ∷ 42 ∷ 170 ∷ []) 54 (35 ∷ 163 ∷ []) refl refl

-- The key of C.
typed-letter_example :
    (typed cleared_keys (29 ∷ []) 46 ≡ 3)
    × (typed cleared_keys (0xe0 ∷ 29 ∷ []) 46 ≡ 0)
    × (typed cleared_keys (157 ∷ 184 ∷ []) 46 ≡ 99)
    × (typed cleared_keys (157 ∷ 56 ∷ []) 46 ≡ 227)
typed-letter_example = typed-letter cleared_keys 2 (omega arith) refl refl refl
