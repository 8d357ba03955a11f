-- ===== src/Mini64/Print.antt =====
-- Numbers as text in mini64/kernel.c: `pnum`, `phex`, `parse_u32` and `hex_digit`.
pub mod Decimal
use os.Prelude.{
  ℕ, zero, suc, ◌+◌, ◌-◌, ◌*◌, ◌/◌, ◌%◌, ◌^◌, List, [], ◌∷◌, ◌++◌, Option, none, some, Bool, true,
  false, not, ◌&&◌, ◌||◌, if◌then◌else◌, ltb, leb, ◌==◌,
}

-- `while (n) { b[i++] = '0' + n % 10; n /= 10; }`: `b` up to `i`, the last character first, which is the
-- order that `while (i) putc(b[--i]);` prints; with the rounds left.
unfoldable pub digits : ℕ → ℕ → List ℕ → List ℕ
digits zero n b = b
digits (suc k) n b = let rest = digits k (n / 10) ((48 + n % 10) ∷ b) in if n == 0 then b else rest

unfoldable pub pnum : ℕ → List ℕ
pnum n = if n == 0 then 48 ∷ [] else digits 10 n []

-- `digits[v]` for a value below 16.
abbrev pub hex_char : ℕ → ℕ
hex_char v = if ltb v 10 then 48 + v else 55 + v

abbrev pub phex : ℕ → List ℕ
phex value = hex_char (value / 16) ∷ hex_char (value % 16) ∷ []

abbrev pub is_digit : ℕ → Bool
is_digit c = leb 48 c && leb c 57

-- The loop over the digits: the number, whether there was any, and whether the text ends behind them.
unfoldable pub parse_digits : List ℕ → ℕ → Bool → ℕ × Bool × Bool
parse_digits [] n any = (n, any, true)
parse_digits (c ∷ cs) n any =
    let rest = parse_digits cs ((n * 10 + (c - 48)) % 2 ^ 32) true in
    if is_digit c then rest else (n, any, c == 0)

unfoldable pub parse_u32 : List ℕ → Option ℕ
parse_u32 s = let (n, any, ends) = parse_digits s 0 false in if any && ends then some n else none

-- -1 as `none`.
abbrev pub hex_digit : ℕ → Option ℕ
hex_digit c =
    if leb 48 c && leb c 57
    then some (c - 48)
    else if leb 97 c && leb c 102
    then some (c - 97 + 10)
    else if leb 65 c && leb c 70
    then some (c - 65 + 10)
    else none
