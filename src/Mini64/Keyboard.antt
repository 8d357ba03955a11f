-- ===== src/Mini64/Keyboard.antt =====
-- `kbd_get` of mini64/kernel.c. The bytes that the keyboard's port gives, each after the status says that
-- there is one, are a list; at its end the function waits on.
use os.Prelude.{
  ℕ, ◌+◌, ◌-◌, List, [], ◌∷◌, Option, none, some, Bool, true, false, not, ◌&&◌, ◌||◌, if◌then◌else◌,
  ltb, leb, ◌==◌, length, get_or,
}

-- The static variables of the function.
pub record Kbd : Type 0 where
  pub left_shift : Bool
  pub right_shift : Bool
  pub caps_lock : Bool

abbrev pub key_map : List ℕ
key_map =
    0 ∷ 0 ∷ b'1' ∷ b'2' ∷ b'3' ∷ b'4' ∷ b'5' ∷ b'6' ∷ b'7' ∷ b'8' ∷ b'9' ∷ b'0' ∷ b'-' ∷ b'=' ∷ 0
    ∷ 0 ∷ b'q' ∷ b'w' ∷ b'e' ∷ b'r' ∷ b't' ∷ b'y' ∷ b'u' ∷ b'i' ∷ b'o' ∷ b'p' ∷ b'[' ∷ b']' ∷ 0 ∷ 0
    ∷ b'a' ∷ b's' ∷ b'd' ∷ b'f' ∷ b'g' ∷ b'h' ∷ b'j' ∷ b'k' ∷ b'l' ∷ b';' ∷ 39 ∷ b'`' ∷ 0 ∷ 92
    ∷ b'z' ∷ b'x' ∷ b'c' ∷ b'v' ∷ b'b' ∷ b'n' ∷ b'm' ∷ b',' ∷ b'.' ∷ b'/' ∷ 0 ∷ b'*' ∷ 0 ∷ 32 ∷ []

abbrev pub plain : List ℕ
plain =
    b'1' ∷ b'2' ∷ b'3' ∷ b'4' ∷ b'5' ∷ b'6' ∷ b'7' ∷ b'8' ∷ b'9' ∷ b'0' ∷ b'-' ∷ b'=' ∷ b'[' ∷ b']'
    ∷ 92 ∷ b';' ∷ 39 ∷ b',' ∷ b'.' ∷ b'/' ∷ b'`' ∷ []

abbrev pub upper : List ℕ
upper =
    b'!' ∷ b'@' ∷ b'#' ∷ b'$' ∷ b'%' ∷ b'^' ∷ b'&' ∷ b'*' ∷ b'(' ∷ b')' ∷ b'_' ∷ b'+' ∷ b'{' ∷ b'}'
    ∷ b'|' ∷ b':' ∷ 34 ∷ b'<' ∷ b'>' ∷ b'?' ∷ b'~' ∷ []

-- `for (i = 0; plain[i]; i++) if (c == plain[i]) { c = upper[i]; break; }`
abbrev pub shifted : List ℕ → List ℕ → ℕ → ℕ
shifted [] us c = c
shifted (p ∷ ps) [] c = c
shifted (p ∷ ps) (u ∷ us) c = let rest = shifted ps us c in if c == p then u else rest

abbrev pub xor : Bool → Bool → Bool
xor a b = if a then not b else b

-- The character of a key of the map.
unfoldable key_char : Kbd → ℕ → ℕ
key_char k c =
    let shift = k.left_shift || k.right_shift in
    if leb b'a' c && leb c b'z'
    then (if xor shift k.caps_lock then c - b'a' + b'A' else c)
    else if shift
    then shifted plain upper c
    else c

-- The keys that have no character.
abbrev pub special_key : ℕ → ℕ
special_key sc =
    if sc == 0x1c
    then 10
    else if sc == 0x0e
    then 8
    else if sc == 0x48
    then 0x1b
    else if sc == 0x50
    then 0x1a
    else if sc == 0x4b
    then 0x03
    else if sc == 0x4d
    then 0x04
    else if sc == 0x47
    then 0x01
    else if sc == 0x4f
    then 0x02
    else if sc == 0x53
    then 0x7f
    else if sc == 0x0f
    then 9
    else 0

-- One round for the byte `sc`: `none` goes on with the next.
unfoldable scan : ℕ → Kbd → Kbd × Option ℕ
scan sc k =
    if sc == 0xaa
    then (record k { left_shift = false }, none)
    else if sc == 0xb6
    then (record k { right_shift = false }, none)
    else if leb 0x80 sc
    then (k, none)
    else if sc == 0x2a
    then (record k { left_shift = true }, none)
    else if sc == 0x36
    then (record k { right_shift = true }, none)
    else if sc == 0x3a
    then (record k { caps_lock = not k.caps_lock }, none)
    else if ltb sc (length key_map) && not (get_or key_map sc 0 == 0)
    then (k, some (key_char k (get_or key_map sc 0)))
    else (k, some (special_key sc))

-- What is left of the bytes, and the character; `none` while the function waits.
unfoldable kbd_get : List ℕ → Kbd → Kbd × Option (ℕ × List ℕ)
kbd_get [] k = (k, none)
kbd_get (sc ∷ rest) k =
    let (k', found) = scan sc k in
    elim found [ none ↦ kbd_get rest k' | some c ↦ (k', some (c, rest)) ]
