-- ===== src/Mini64/Erase/Erased.antt =====
-- What `erase_sectors` of mini64/kernel.c writes on a drive that keeps what is written.
use os.Prelude.{
  ℕ, zero, suc, ◌+◌, ◌-◌, ◌%◌, ◌^◌, ◌≤◌, ◌<◌, ◌≡◌, refl, sym, ap, ◌∙◌, ◌⊎◌, ◌==◌, [], ◌∷◌, take,
  length, get_or, List, Option, none, some, Bool, true, false, not, ◌&&◌, ◌||◌, if◌then◌else◌, ltb,
  leb, arith, inl, inr, Bool-cases,
}
use native.Mathlib.Nat.{mod-lt}
use os.Prelude.Array.{Array}
use os.Prelude.CString.{codes}
use os.Mini64.Fat.Bytes.{are_bytes}
use os.Mini64.Disk.{Drive, IsBytes, most_sectors, Reliable, Volume, Mini, ◌>>=◌}
use os.Mini64.Disk.Calls.{
  Returns, Returns-then, Returns-now, Returns-attempt, Returns-weaken, Returns-print, Returns-pure,
  content_of, SameDisk, disk_write-Returns, disk_flush-Returns, disk_identify-Returns, Ends,
  Ends-then, Ends-now, Ends-print, Ends-fails, Returns-test, Ends-test, Ends-pure, Ends-assign,
}
use os.Mini64.Erase.{
  streq_ci, Pattern, zeros, byte_pattern, text_pattern, Range, block_of, write_blocks, confirm,
  overwrite, erase_range,
}

-- An answer is a word in any case.
abbrev pub any_case : List ℕ → List ℕ → Bool
any_case [] [] = true
any_case (x ∷ xs) (y ∷ ys) = ((x == y) || (x + 32 == y)) && any_case xs ys
any_case _ _ = false

abbrev is_lower : List ℕ → Bool
is_lower [] = true
is_lower (c ∷ cs) = (leb 97 c && leb c 122) && is_lower cs

streq_ci-any_case : (a b : List ℕ) → is_lower b ≡ true → streq_ci a b ≡ true → any_case a b ≡ true
unfolding streq_ci
streq_ci-any_case [] [] small e = refl
streq_ci-any_case [] (y ∷ b) small e = absurd cc
streq_ci-any_case (x ∷ a) [] small e = absurd cc
streq_ci-any_case (x ∷ a) (y ∷ b) small e =
    let rest = streq_ci-any_case a b (ground (arith, small)) in ground (arith, small, e, rest)

-- What a pattern asks of a sector: zeros, a byte, or the first 64 characters of a text over and over.
abbrev pub Fills : Pattern → Array → Type 0
Fills zeros a = (i : ℕ) → i < 512 → a i ≡ 0
Fills (byte_pattern b) a = (i : ℕ) → i < 512 → a i ≡ b
Fills (text_pattern t) a = (i : ℕ) → i < 512 → a i ≡ get_or (take 64 t) (i % length (take 64 t)) 0

-- The characters are bytes.
abbrev pub IsPattern : Pattern → Type 0
IsPattern zeros = Unit {0}
IsPattern (byte_pattern b) = b < 256
IsPattern (text_pattern t) = are_bytes t ≡ true

length-take : (n : ℕ) (t : List ℕ) → length (take n t) ≡ (if ltb (length t) n then length t else n)
length-take zero t = ground arith
length-take (suc n) [] = ground arith
length-take (suc n) (x ∷ t) = let rest = length-take n t in ground (arith, rest)

get_or-take : (n : ℕ) (t : List ℕ) (i : ℕ) → i < n → get_or (take n t) i 0 ≡ get_or t i 0
get_or-take zero t i lt = absurd (omega (arith, lt))
get_or-take (suc n) [] i lt = refl
get_or-take (suc n) (x ∷ t) zero lt = refl
get_or-take (suc n) (x ∷ t) (suc i) lt = get_or-take n t i (omega (arith, lt))

get_or-small : (t : List ℕ) (i : ℕ) → are_bytes t ≡ true → get_or t i 0 < 256
get_or-small [] i e = omega arith
get_or-small (x ∷ t) zero e = ground (arith, e)
get_or-small (x ∷ t) (suc i) e = get_or-small t i (ground (arith, e))

text_place : (n i : ℕ) → 0 < n → i % (if ltb n 64 then n else 64) < 64
text_place n i pos = elim (Bool-cases (ltb n 64)) [
  | inl e ↦
      let below : i % n < n = mod-lt i pos in
      let small : n < 64 = ground (arith, e) in rw e (omega (arith, below, small))
  | inr e ↦ rw e (omega arith)
]

text_lem :
    (t : List ℕ) (i : ℕ)
    → get_or t (i % (if ltb (length t) 64 then length t else 64)) 0
      ≡ get_or (take 64 t) (i % length (take 64 t)) 0
text_lem [] i = refl
text_lem (x ∷ t) i =
    let n = length-take 64 (x ∷ t) in
    let size : ℕ = if ltb (length (x ∷ t)) 64 then length (x ∷ t) else 64 in
    let small : i % size < 64 = text_place (length (x ∷ t)) i (omega arith) in
    rw n (sym (get_or-take 64 (x ∷ t) (i % size) small))

block_of-Fills : (p : Pattern) (a : Array) → ((i : ℕ) → i < 512 → a i ≡ block_of p i) → Fills p a
block_of-Fills zeros a h = h
block_of-Fills (byte_pattern b) a h = h
block_of-Fills (text_pattern t) a h = λ i lt. h i lt ∙ text_lem t i

block_of-IsBytes : (p : Pattern) → IsPattern p → IsBytes (block_of p)
block_of-IsBytes zeros h i lt = omega arith
block_of-IsBytes (byte_pattern b) h i lt = h
block_of-IsBytes (text_pattern t) h i lt = get_or-small t _ h

module _ {d : Drive} (r : Reliable d) where
  write_blocks-Returns :
      (n lba : ℕ) (block : Array) (s : Mini d.State)
      → lba + n ≤ most_sectors
      → IsBytes block
      → Returns (write_blocks d n lba block) s (λ x t.
        t.volume ≡ s.volume
        × ((k i : ℕ)
            → i < 512
            → content_of r t k i
              ≡ (if leb lba k && ltb k (lba + n) then block i else content_of r s k i)))
  unfolding write_blocks
  write_blocks-Returns zero lba block s le bytes =
      Returns-now tt s refl (refl, λ k i lt. ground arith)
  write_blocks-Returns (suc n) lba block s le bytes =
      let place : lba % 2 ^ 32 ≡ lba = omega (arith, le) in
      Returns-then
        (Returns-attempt (disk_write-Returns r (lba % 2 ^ 32) block s (omega (arith, le)) bytes))
        (λ o t (x, e, (v, h)). rw e (
          Returns-pure _ tt (
            Returns-weaken (write_blocks-Returns n (lba + 1) block t (omega (arith, le)) bytes)
              (λ y u (v', h'). (
                v' ∙ v,
                λ k i lt.
                    let first = h k i lt in
                    let later = h' k i lt in ground (arith, first, later, place),
              )))))

  -- What is left behind an erasure: the range lay on the disk and the user agreed or was not asked, its
  -- sectors hold the pattern, no other sector changes, and the volume has to be mounted again. A refusal
  -- changes no sector.
  abbrev pub IsErased : Range → List ℕ → Mini d.State → Option (Unit {0}) → Mini d.State → Type 0
  IsErased g answer s o t = elim o [
    | none ↦ t.volume ≡ s.volume × ((k i : ℕ) → i < 512 → content_of r t k i ≡ content_of r s k i)
    | some x ↦
        g.lba + g.sectors ≤ r.capacity
        × (g.no_confirm || any_case answer (codes "erase")) ≡ true
        × t.volume ≡ record (s.volume) { fat_mounted = false }
        × ((k i : ℕ)
            → (k < g.lba) ⊎ (g.lba + g.sectors ≤ k)
            → i < 512
            → content_of r t k i ≡ content_of r s k i)
        × ((k : ℕ) → g.lba ≤ k → k < g.lba + g.sectors → Fills g.pattern (content_of r t k))
  ]

  -- The writes, behind all questions.
  overwritten :
      (g : Range) (answer : List ℕ) (s t : Mini d.State)
      → g.lba + g.sectors ≤ r.capacity
      → (g.no_confirm || any_case answer (codes "erase")) ≡ true
      → IsPattern g.pattern
      → SameDisk r s t
      → Ends (overwrite d g) t (IsErased g answer s)
  unfolding overwrite
  overwritten g answer s t fits agreed chars (v, h) =
      let small = r.capacity_small in
      Ends-then
        (write_blocks-Returns g.sectors g.lba (block_of g.pattern) t (omega (arith, fits, small))
          (block_of-IsBytes g.pattern chars))
        (λ x u (v', h').
          Ends-then (Returns-attempt (disk_flush-Returns r u)) (λ o w (y, e, (v'', h'')). rw e (
            Ends-pure _ tt (
              Ends-assign _ _ (
                Ends-now (some tt) _ refl (
                  fits,
                  agreed,
                  ap {A = Volume} {B = Volume} (λ z. record z { fat_mounted = false })
                      (v'' ∙ v' ∙ v),
                  (λ k i out lt.
                      let outside : (leb g.lba k && ltb k (g.lba + g.sectors)) ≡ false =
                        ground (arith, out) in
                      h'' k i lt ∙ h' k i lt ∙ rw outside (h k i lt)),
                  λ k lo hi. block_of-Fills g.pattern (content_of r w k) (λ i lt.
                      let inside : (leb g.lba k && ltb k (g.lba + g.sectors)) ≡ true =
                        ground (arith, lo, hi) in
                      h'' k i lt ∙ h' k i lt ∙ rw inside refl),
                ))))))

  unchanged :
      (g : Range) (answer : List ℕ) (s t : Mini d.State)
      → SameDisk r s t
      → IsErased g answer s none t
  unchanged g answer s t (v, h) = (v, h)

  confirmed :
      (ask : Bool) (g : Range) (answer : List ℕ) (s t : Mini d.State)
      → g.no_confirm ≡ not ask
      → g.lba + g.sectors ≤ r.capacity
      → IsPattern g.pattern
      → SameDisk r s t
      → Ends (confirm d ask answer >>= λ x. overwrite d g) t (IsErased g answer s)
  confirmed false g answer s t e fits chars same =
      Ends-pure _ tt (overwritten g answer s t fits (ground (arith, e)) chars same)
  confirmed true g answer s t e fits chars same =
      elim (Bool-cases (streq_ci answer (codes "erase"))) [
        | inl y ↦
            let word : any_case answer (codes "erase") ≡ true =
              streq_ci-any_case answer (codes "erase") refl y in
            let agreed : (g.no_confirm || any_case answer (codes "erase")) ≡ true =
              ground (arith, e, word) in
            Ends-then
              (Returns-print _ _
                (Returns-print _ _ (Returns-test {Q = λ x u. SameDisk r s u} _ y same)))
              (λ x u same'. overwritten g answer s u fits agreed chars same')
        | inr z ↦
            Ends-fails _
              (Ends-print _ _ (Ends-print _ _ (Ends-test _ z (refl, unchanged g answer s t same))))
      ]

  -- What the disk's answer says of a range.
  abbrev fits_disk : Range → Option (List ℕ × ℕ) → Bool
  fits_disk g found = elim found [
    | none ↦ false
    | some x ↦ ltb g.lba x.1 && leb g.sectors (x.1 - g.lba)
  ]

  -- On a drive that keeps what is written, an erasure that returns 1 lay within the disk, and its answer
  -- was the word erase in any case or none was needed; each of its sectors has zeros, the byte, or the first
  -- 64 characters of the text over and over, no other sector changes and the volume counts as not mounted.
  -- A refusal changes no sector.
  pub erase_range-IsErased :
      (g : Range) (answer : List ℕ) (s : Mini d.State)
      → IsPattern g.pattern
      → Ends (erase_range d g answer) s (IsErased g answer s)
  unfolding erase_range
  erase_range-IsErased g answer s chars =
      let identified = Returns-attempt (disk_identify-Returns r s) in
      elim (Bool-cases (fits_disk g (some (r.model, r.capacity)))) [
        | inl y ↦
            Ends-then
              (Returns-then identified (λ o t (x, e, (e', same)). Returns-print _ _ (
                Returns-test {Q = λ x u. SameDisk r s u} _
                  (ap (fits_disk g) e ∙ ap (λ p. fits_disk g (some p)) e' ∙ y) same)))
              (λ x t same.
                confirmed (not g.no_confirm) g answer s t (ground arith) (ground (arith, y)) chars
                  same)
        | inr z ↦ Ends-fails _ (
            Ends-then identified (λ o t (x, e, (e', same)). Ends-print _ _ (
              Ends-test _ (ap (fits_disk g) e ∙ ap (λ p. fits_disk g (some p)) e' ∙ z)
                (refl, unchanged g answer s t same))))
      ]
