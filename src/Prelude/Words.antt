-- ===== src/Prelude/Words.antt =====
-- Machine words: a `size_t`, `uint64_t` or `uint32_t` is a number below its modulus, and the
-- operations wrap as the C ones do.
use Prim.Native.Nat.{ℕ, ◌+◌, ◌-◌, ◌*◌, ◌%◌, ◌^◌}

-- `a + b`, `a - b` and `a * b` at type `size_t`, `unsigned long` or `uint64_t`.
abbrev pub add_size : ℕ → ℕ → ℕ
add_size a b = (a + b) % 2 ^ 64

abbrev pub sub_size : ℕ → ℕ → ℕ
sub_size a b = (a + 2 ^ 64 - b) % 2 ^ 64

abbrev pub mul_size : ℕ → ℕ → ℕ
mul_size a b = (a * b) % 2 ^ 64

abbrev pub add32 : ℕ → ℕ → ℕ
add32 a b = (a + b) % 2 ^ 32

abbrev pub sub32 : ℕ → ℕ → ℕ
sub32 a b = (a + 2 ^ 32 - b) % 2 ^ 32
