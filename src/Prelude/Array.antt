-- ===== src/Prelude/Array.antt =====
-- C arrays of bytes as functions of the index, and the loops that the programs write over them.
use os.Prelude.Tests.{ltb, leb, ◌==◌}
use Prim.Native.Nat.{ℕ, zero, suc, ◌+◌, ◌-◌, ◌≤◌, ◌<◌}
use mathlib.Core.Path.{◌≡◌, refl, sym, ap, ◌∙◌}
use mathlib.Core.Bool.{◌&&◌}
use mathlib.Core.List.{List, [], ◌∷◌, ◌++◌}
use native.Mathlib.Omega.{arith}
use os.Prelude.Tests.{if◌then◌else◌}

abbrev pub Array : Type 0
Array = ℕ → ℕ

-- `a[i] = v`
abbrev pub put : Array → ℕ → ℕ → Array
put a i v k = if k == i then v else a k

-- The `n` elements from index `i` on.
abbrev pub slice : ℕ → ℕ → Array → List ℕ
slice i zero a = []
slice i (suc n) a = a i ∷ slice (i + 1) n a

-- `for (k = i; k < i + n; k++) a[k] = a[k + 1];`
unfoldable pub shift_down : ℕ → ℕ → Array → Array
shift_down zero i a = a
shift_down (suc n) i a = shift_down n (i + 1) (put a i (a (i + 1)))

-- `for (k = i + n; k > i; k--) a[k] = a[k - 1];`
unfoldable pub shift_up : ℕ → ℕ → Array → Array
shift_up zero i a = a
shift_up (suc n) i a = shift_up n i (put a (i + suc n) (a (i + n)))

-- `for (k = i; k < i + n; k++) to[k] = from[k];`
unfoldable pub copy_array : ℕ → ℕ → Array → Array → Array
copy_array zero i from to = to
copy_array (suc n) i from to = copy_array n (i + 1) from (put to i (from i))

pub shift_down_lem :
    (n i : ℕ) (a : Array) (k : ℕ)
    → shift_down n i a k ≡ (if leb i k && ltb k (i + n) then a (k + 1) else a k)
unfolding shift_down
shift_down_lem zero i a k = ground arith
shift_down_lem (suc n) i a k = shift_down_lem n (i + 1) (put a i (a (i + 1))) k ∙ ground arith

pub shift_up_lem :
    (n i : ℕ) (a : Array) (k : ℕ)
    → shift_up n i a k ≡ (if ltb i k && leb k (i + n) then a (k - 1) else a k)
unfolding shift_up
shift_up_lem zero i a k = ground arith
shift_up_lem (suc n) i a k = shift_up_lem n i (put a (i + suc n) (a (i + n))) k ∙ ground arith

pub copy_array_lem :
    (n i : ℕ) (from to : Array) (k : ℕ)
    → copy_array n i from to k ≡ (if leb i k && ltb k (i + n) then from k else to k)
unfolding copy_array
copy_array_lem zero i from to k = ground arith
copy_array_lem (suc n) i from to k =
    copy_array_lem n (i + 1) from (put to i (from i)) k ∙ ground arith

-- Slices look at their range only.
pub slice_ext :
    (i n : ℕ) (a b : Array) → ((k : ℕ) → i ≤ k → k < i + n → a k ≡ b k) → slice i n a ≡ slice i n b
slice_ext i zero a b h = refl
slice_ext i (suc n) a b h =
    let here : a i ≡ b i = h i (omega arith) (omega arith) in
    ap (λ x. x ∷ slice (i + 1) n a) here
    ∙ ap (λ xs. b i ∷ xs) (slice_ext (i + 1) n a b (λ k lo hi. h k (omega arith) (omega arith)))

-- A slice of a shifted array.
pub slice_shift :
    (i j n : ℕ) (a b : Array)
    → ((k : ℕ) → k < n → a (i + k) ≡ b (j + k))
    → slice i n a ≡ slice j n b
slice_shift i j zero a b h = refl
slice_shift i j (suc n) a b h =
    let z : i + 0 ≡ i = omega arith in
    let z' : j + 0 ≡ j = omega arith in
    let here : a i ≡ b j = ap a (sym z) ∙ h 0 (omega arith) ∙ ap b z' in
    let rest = slice_shift (i + 1) (j + 1) n a b (λ k lt.
      ap a {y = i + suc k} (omega arith)
      ∙ h (suc k) (omega arith)
      ∙ ap b {y = j + 1 + k} (omega arith)) in
    ap (λ x. x ∷ slice (i + 1) n a) here ∙ ap (λ xs. b j ∷ xs) rest

pub slice-append : (i m n : ℕ) (a : Array) → slice i (m + n) a ≡ slice i m a ++ slice (i + m) n a
slice-append i zero n a =
    let z : 0 + n ≡ n = omega arith in let z' : i + 0 ≡ i = omega arith in rw (z, z')
slice-append i (suc m) n a =
    let s : suc m + n ≡ suc (m + n) = omega arith in
    let t : i + suc m ≡ i + 1 + m = omega arith in
    rw (s, t) (ap (λ xs. a i ∷ xs) (slice-append (i + 1) m n a))
