-- ===== src/Mini64/Fat/Bytes.antt =====
-- Numbers in a sector: the reads and writes of mini64/kernel.c against each other.
use os.Prelude.{
  ℕ, ◌+◌, ◌/◌, ◌%◌, ◌^◌, ◌≤◌, ◌<◌, ◌≡◌, ◌⊎◌, if◌then◌else◌, ◌==◌, arith, List, [], ◌∷◌, Bool, true,
  ltb, ◌&&◌,
}
use os.Prelude.Array.{Array, put}
use os.Mini64.Disk.{IsBytes}
use os.Mini64.Fat.{r32, w16, w32}
use os.Mini64.Fat.Format.{put_text}

-- The four bytes that a write leaves.
pub w32_lem :
    (b : Array) (o v i : ℕ)
    → w32 b o v i ≡ (
        if i == o
        then v % 256
        else if i == o + 1
        then v / 2 ^ 8 % 256
        else if i == o + 2
        then v / 2 ^ 16 % 256
        else if i == o + 3
        then v / 2 ^ 24 % 256
        else b i)
w32_lem b o v i = ground arith

pub r32_ext :
    (a b : Array) (o : ℕ) → o + 3 < 512 → ((i : ℕ) → i < 512 → a i ≡ b i) → r32 a o ≡ r32 b o
r32_ext a b o lt h =
    let h0 = h o (omega arith) in
    let h1 = h (o + 1) (omega arith) in
    let h2 = h (o + 2) (omega arith) in let h3 = h (o + 2 + 1) (omega arith) in rw (h0, h1, h2, h3)

pub r32-w32 : (b : Array) (o v : ℕ) → v < 2 ^ 32 → r32 (w32 b o v) o ≡ v
r32-w32 b o v lt =
    let h0 : w32 b o v o ≡ v % 256 = ground arith in
    let h1 : w32 b o v (o + 1) ≡ v / 2 ^ 8 % 256 = ground arith in
    let h2 : w32 b o v (o + 2) ≡ v / 2 ^ 16 % 256 = ground arith in
    let h3 : w32 b o v (o + 2 + 1) ≡ v / 2 ^ 16 / 2 ^ 8 % 256 = ground arith in
    rw (h0, h1, h2, h3) (omega arith)

pub r32-w32_other :
    (b : Array) (o v p : ℕ) → (o + 4 ≤ p) ⊎ (p + 4 ≤ o) → r32 (w32 b o v) p ≡ r32 b p
r32-w32_other b o v p apart =
    let h0 : w32 b o v p ≡ b p = ground arith in
    let h1 : w32 b o v (p + 1) ≡ b (p + 1) = ground arith in
    let h2 : w32 b o v (p + 2) ≡ b (p + 2) = ground arith in
    let h3 : w32 b o v (p + 2 + 1) ≡ b (p + 2 + 1) = ground arith in rw (h0, h1, h2, h3)

pub w32_again : (b : Array) (o v i : ℕ) → w32 (w32 b o v) o v i ≡ w32 b o v i
w32_again b o v i = ground arith

pub w32_ext : (a b : Array) (o v i : ℕ) → a i ≡ b i → w32 a o v i ≡ w32 b o v i
w32_ext a b o v i e = ground (arith, e)

-- What the writes leave is bytes.
pub put-IsBytes : (b : Array) (o v : ℕ) → IsBytes b → v < 256 → IsBytes (put b o v)
put-IsBytes b o v bytes small i lt = let h = bytes i lt in ground (arith, h, small)

pub w16-IsBytes : (b : Array) (o v : ℕ) → IsBytes b → IsBytes (w16 b o v)
w16-IsBytes b o v bytes =
    put-IsBytes (put b o (v % 256)) (o + 1) (v / 2 ^ 8 % 256)
      (put-IsBytes b o (v % 256) bytes (omega arith)) (omega arith)

pub w32-IsBytes : (b : Array) (o v : ℕ) → IsBytes b → IsBytes (w32 b o v)
w32-IsBytes b o v bytes = w16-IsBytes (w16 b o v) (o + 2) (v / 2 ^ 16) (w16-IsBytes b o v bytes)

abbrev pub are_bytes : List ℕ → Bool
are_bytes [] = true
are_bytes (c ∷ cs) = ltb c 256 && are_bytes cs

pub put_text-IsBytes :
    (o : ℕ) (cs : List ℕ) (b : Array) → IsBytes b → are_bytes cs ≡ true → IsBytes (put_text o cs b)
put_text-IsBytes o [] b bytes small = bytes
put_text-IsBytes o (c ∷ cs) b bytes small =
    put_text-IsBytes (o + 1) cs (put b o c)
      (put-IsBytes b o c bytes
        (let here : ltb c 256 ≡ true = ground (arith, small) in ground (arith, here)))
      (ground (arith, small))
