-- ===== src/Mini64/Print/Decimal.antt =====
-- The numbers that mini64/kernel.c prints are those that it reads.
use os.Prelude.{
  ℕ, zero, suc, ◌+◌, ◌-◌, ◌*◌, ◌/◌, ◌%◌, ◌^◌, ◌<◌, ◌≡◌, refl, ◌∙◌, List, [], ◌∷◌, some, true, false,
  not, ◌==◌, arith, inl, inr, Bool-cases,
}
use os.Mini64.Print.{digits, pnum, is_digit, parse_digits, parse_u32}

parse_digits-digits :
    (k n : ℕ) (b : List ℕ)
    → n < 10 ^ k
    → n < 2 ^ 32
    → parse_digits (digits k n b) 0 false ≡ parse_digits b n (not (n == 0))
unfolding digits parse_digits
parse_digits-digits zero n b lt small = let z : n ≡ 0 = omega arith in rw z refl
parse_digits-digits (suc k) n b lt small = elim (Bool-cases (n == 0)) [
  | inl e ↦ let z : n ≡ 0 = ground (arith, e) in rw (e, z) refl
  | inr e ↦
      let shorter : n / 10 < 10 ^ k = omega (arith, lt) in
      let digit : is_digit (48 + n % 10) ≡ true = ground arith in
      let value : (n / 10 * 10 + (48 + n % 10 - 48)) % 2 ^ 32 ≡ n = omega (arith, small) in
      rw e (
        parse_digits-digits k (n / 10) ((48 + n % 10) ∷ b) shorter (omega (arith, small))
        ∙ rw (digit, value) refl)
]

-- What `pnum` prints for a number below 2^32 is a text from which `parse_u32` reads that number.
pub parse_u32-pnum : (n : ℕ) → n < 2 ^ 32 → parse_u32 (pnum n) ≡ some n
unfolding parse_u32 pnum parse_digits
parse_u32-pnum n small = elim (Bool-cases (n == 0)) [
  | inl e ↦ let z : n ≡ 0 = ground (arith, e) in rw (e, z) refl
  | inr e ↦
      let parsed = parse_digits-digits 10 n [] (omega (arith, small)) small in
      rw (e, parsed, e) refl
]
