-- ===== src/Prelude/CString.antt =====
-- C strings: a `const char *` is the list of the bytes that can be read from it, and the byte at its
-- end is the terminator. An array that a copy writes is the list of its bytes.
use Prim.Native.Nat.{ℕ, zero, suc, ◌+◌, ◌<◌}
use mathlib.Core.Path.{◌≡◌, refl, ap}
use mathlib.Core.Bool.{Bool, true, false, ◌||◌}
use mathlib.Core.List.{List, [], ◌∷◌}
use mathlib.Core.Logic.{◌↔◌, inl, inr}
use Prim.Native.Char.{code}
use Prim.Native.String.{String}
use native.Mathlib.Omega.{arith}
use os.Prelude.Tests.{leb, ◌==◌, if◌then◌else◌, Bool-cases}
use os.Prelude.Lists.{length, set, take, length-set}

-- The text of an array: its bytes before the first NUL.
abbrev pub c_string : List ℕ → List ℕ
c_string [] = []
c_string (c ∷ cs) = if c == 0 then [] else c ∷ c_string cs

-- A constant text as its bytes.
abbrev pub codes : String → List ℕ
codes String.[] = []
codes (String.◌∷◌ c s) = code c ∷ codes s

-- `!*s`
abbrev pub at_end : List ℕ → Bool
at_end [] = true
at_end (c ∷ cs) = c == 0

-- `while (*a && *a == *b) { a++; b++; } return !*a && !*b;`
unfoldable pub str_eq : List ℕ → List ℕ → Bool
str_eq [] b = at_end b
str_eq (x ∷ a) [] = x == 0
str_eq (x ∷ a) (y ∷ b) =
    let rest = str_eq a b in if x == 0 then y == 0 else if x == y then rest else false

-- The comparison is that of the texts.
pub str_eq_iff : (a b : List ℕ) → (str_eq a b ≡ true) ↔ (c_string a ≡ c_string b)
unfolding str_eq
str_eq_iff [] [] = (λ h. refl, λ h. refl)
str_eq_iff [] (y ∷ b) = ground arith
str_eq_iff (x ∷ a) [] = ground arith
str_eq_iff (x ∷ a) (y ∷ b) = ground (arith, str_eq_iff a b)

-- `while (src[i] && i + 1 < cap) { dst[i] = src[i]; i++; } dst[i] = 0;`, from index `i` on; `src` is
-- what is left of the source.
unfoldable pub copy_from : ℕ → List ℕ → ℕ → List ℕ → List ℕ
copy_from cap [] i dst = set dst i 0
copy_from cap (c ∷ src) i dst =
    let rest = copy_from cap src (i + 1) (set dst i c) in
    if (c == 0) || leb cap (i + 1) then set dst i 0 else rest

-- The bounded copy that the kernel writes in several places.
unfoldable pub copy_string : ℕ → List ℕ → List ℕ → List ℕ
copy_string cap src dst = copy_from cap src 0 dst

length-copy_from :
    (cap : ℕ) (src : List ℕ) (i : ℕ) (dst : List ℕ) → length (copy_from cap src i dst) ≡ length dst
unfolding copy_from
length-copy_from cap [] i dst = length-set dst i 0
length-copy_from cap (c ∷ src) i dst =
    ground (
      arith,
      length-copy_from cap src (i + 1) (set dst i c),
      length-set dst i c,
      length-set dst i 0,
    )

pub length-copy_string :
    (cap : ℕ) (src dst : List ℕ) → length (copy_string cap src dst) ≡ length dst
unfolding copy_string
length-copy_string cap src dst = length-copy_from cap src 0 dst

-- A copy that has written its first byte goes on as one into the rest of the array.
copy_from-suc :
    (cap : ℕ) (src : List ℕ) (i d : ℕ) (dst : List ℕ)
    → copy_from (suc cap) src (suc i) (d ∷ dst) ≡ d ∷ copy_from cap src i dst
unfolding copy_from
copy_from-suc cap [] i d dst = refl
copy_from-suc cap (c ∷ src) i d dst =
    let e : suc i + 1 ≡ suc (i + 1) = omega arith in
    rw e (ground (arith, copy_from-suc cap src (i + 1) d (set dst i c)))

c_string-copy_from :
    (cap : ℕ) (src dst : List ℕ)
    → cap < length dst
    → c_string (copy_from (suc cap) src 0 dst) ≡ take cap (c_string src)
unfolding copy_from
c_string-copy_from cap src [] h = absurd (omega arith)
c_string-copy_from zero [] (d ∷ dst) h = refl
c_string-copy_from (suc cap) [] (d ∷ dst) h = refl
c_string-copy_from zero (c ∷ src) (d ∷ dst) h = ground arith
c_string-copy_from (suc cap) (c ∷ src) (d ∷ dst) h = elim (Bool-cases (c == 0)) [
  | inl e ↦ rw e
  | inr e ↦
      let more : leb (suc (suc cap)) 1 ≡ false = ground arith in
      rw (e, copy_from-suc (suc cap) src 0 c dst, more, e)
        (ap (λ t. c ∷ t) (c_string-copy_from cap src dst (omega arith)))
]

-- What a bounded copy leaves in the array is the source's text, cut to what fits with its NUL.
pub c_string-copy_string :
    (cap : ℕ) (src dst : List ℕ)
    → cap < length dst
    → c_string (copy_string (suc cap) src dst) ≡ take cap (c_string src)
unfolding copy_string
c_string-copy_string cap src dst h = c_string-copy_from cap src dst h
