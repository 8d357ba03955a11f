-- ===== src/Mini64/Line/Copies.antt =====
-- The loops of mini64/kernel.c over a text that a NUL ends.
use os.Prelude.{
  ℕ, zero, suc, ◌+◌, ◌≤◌, ◌<◌, ◌≡◌, ap, ◌∙◌, false, ◌&&◌, if◌then◌else◌, ltb, leb, ◌==◌, arith, inl,
  inr, Bool-cases,
}
use os.Prelude.Array.{Array, put}
use os.Mini64.Line.{copy_text}
use os.Mini64.Line.Keys.{text_length}

-- `text_length` stops at the first NUL.
pub text_length-at_most :
    (n k : ℕ) (row : Array) (m : ℕ) → k ≤ m → row m ≡ 0 → text_length n k row ≤ m
unfolding text_length
text_length-at_most zero k row m le z = le
text_length-at_most (suc n) k row m le z = elim (Bool-cases (row k == 0)) [
  | inl e ↦ rw e le
  | inr e ↦ rw e (
      text_length-at_most n (k + 1) row m
        (let other : (k == m) ≡ false = elim (Bool-cases (k == m)) [
          | inl same ↦ ground (arith, e, z, ap row {x = k} {y = m} (ground (arith, same)))
          | inr d ↦ d
        ] in
          ground (arith, other))
        z)
]

pub text_length-solid :
    (n k : ℕ) (row : Array) (m : ℕ) → k ≤ m → m < text_length n k row → 0 < row m
unfolding text_length
text_length-solid zero k row m le lt = ground arith
text_length-solid (suc n) k row m le lt = elim (Bool-cases (row k == 0)) [
  | inl e ↦ let f : m < k = rw e at lt in ground arith
  | inr e ↦
      let lt' : m < text_length n (k + 1) row = rw e at lt in
      elim (Bool-cases (k == m)) [
        | inl same ↦ ground (arith, e, ap row {x = k} {y = m} (ground (arith, same)))
        | inr d ↦ text_length-solid n (k + 1) row m (ground (arith, d)) lt'
      ]
]

pub text_length-at_least : (n k : ℕ) (row : Array) → k ≤ text_length n k row
unfolding text_length
text_length-at_least zero k row = ground arith
text_length-at_least (suc n) k row = elim (Bool-cases (row k == 0)) [
  | inl e ↦ rw e (ground arith)
  | inr e ↦ let more = text_length-at_least n (k + 1) row in rw e (omega (arith, more))
]

-- `copy_text` copies the text without its NUL.
pub copy_text_lem :
    (n j : ℕ) (line row : Array) (k : ℕ)
    → copy_text n j line row k ≡ (if leb j k && ltb k (text_length n j line) then line k else row k)
unfolding copy_text text_length
copy_text_lem zero j line row k = ground arith
copy_text_lem (suc n) j line row k = elim (Bool-cases (line j == 0)) [
  | inl e ↦ rw e (ground arith)
  | inr e ↦ rw e (
      copy_text_lem n (j + 1) line (put row j (line j)) k
      ∙ (let more = text_length-at_least n (j + 1) line in
          elim (Bool-cases (k == j)) [
            | inl same ↦ ground (arith, same, more, ap line {x = k} {y = j} (ground (arith, same)))
            | inr d ↦ ground (arith, d)
          ]))
]
