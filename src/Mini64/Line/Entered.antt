-- ===== src/Mini64/Line/Entered.antt =====
-- The text that `readline` of mini64/kernel.c returns.
use os.Prelude.{
  ℕ, ◌+◌, ◌≤◌, ◌≡◌, refl, sym, ap, ◌∙◌, List, [], ◌∷◌, ◌++◌, Bool, true, false, not, ◌&&◌,
  if◌then◌else◌, ltb, leb, ◌==◌, arith, inl, inr, Bool-cases,
}
use os.Prelude.Array.{Array, put, slice}
use os.Mini64.Line.{History, Line, fresh}
use os.Mini64.Line.Keys.{backspace, delete_at, go_home, go_end, go_left, go_right, insert_key}
use os.Mini64.Line.Read.{edit, finish, read_keys, readline}
use os.Mini64.Line.Text.{Text, onto, meaning, text_of, text_of-edit, onto-backward, backward_ext}

-- The keys that edit, without Enter, TAB, up and down.
abbrev pub is_editing : ℕ → Bool
is_editing c = not (c == 10) && (not (c == 9) && (not (c == 0x1b) && not (c == 0x1a)))

abbrev pub all_editing : List ℕ → Bool
all_editing [] = true
all_editing (c ∷ cs) = is_editing c && all_editing cs

-- What the keys mean, one behind the other; no key is 0.
abbrev pub meanings : ℕ → List ℕ → Text → Text
meanings max [] t = t
meanings max (c ∷ cs) t = if c == 0 then meanings max cs t else meanings max cs (meaning max c t)

edit-cursor :
    (max : ℕ) (hist : History) (c : ℕ) (s : Line)
    → s.pos ≤ s.len
    → is_editing c ≡ true
    → (edit max hist c s).pos ≤ (edit max hist c s).len
unfolding edit backspace delete_at go_home go_end go_left go_right insert_key
edit-cursor max hist c s inside plain = elim (Bool-cases (c == 8)) [
  | inl e ↦ rw e (ground arith)
  | inr e0 ↦ rw e0 (elim (Bool-cases (c == 0x7f)) [
    | inl e ↦ rw e (ground arith)
    | inr e1 ↦ rw e1 (elim (Bool-cases (c == 0x01)) [
      | inl e ↦ rw e (ground arith)
      | inr e2 ↦ rw e2 (elim (Bool-cases (c == 0x02)) [
        | inl e ↦ rw e (ground arith)
        | inr e3 ↦ rw e3 (elim (Bool-cases (c == 0x03)) [
          | inl e ↦ rw e (ground arith)
          | inr e4 ↦ rw e4 (elim (Bool-cases (c == 0x04)) [
            | inl e ↦ rw e (ground arith)
            | inr e5 ↦ rw e5 (
                let tab : (c == 9) ≡ false = ground (arith, plain) in
                let up : (c == 0x1b) ≡ false = ground (arith, plain) in
                let down : (c == 0x1a) ≡ false = ground (arith, plain) in
                rw (tab, up, down)
                  (elim (Bool-cases (leb 32 c && ltb c 127 && ltb (s.len + 1) max)) [
                    | inl e ↦ rw e (omega arith)
                    | inr e ↦ rw e inside
                  ]))
          ])
        ])
      ])
    ])
  ])
]

-- What the caller sees: the text in front of the cursor, closed by a NUL.
abbrev pub IsEntered : Text → Line → Type 0
IsEntered t s = slice 0 s.pos s.buf ≡ onto t.left [] × s.buf s.pos ≡ 0

finish-IsEntered : (s : Line) → IsEntered (text_of s) (finish s)
finish-IsEntered s =
    let z : s.pos + 0 ≡ s.pos = omega arith in
    (
      ap (λ n. slice 0 n (put s.buf s.pos 0)) (sym z)
          ∙ sym (onto-backward s.pos 0 (put s.buf s.pos 0))
          ∙ ap (λ xs. onto xs []) (backward_ext s.pos _ s.buf (λ k lt. ground arith)),
      ground arith,
    )

read_keys-IsEntered :
    (max : ℕ) (hist : History) (keys : List ℕ) (s : Line)
    → all_editing keys ≡ true
    → s.pos ≤ s.len
    → let (t, h, b) = read_keys max hist (keys ++ (10 ∷ [])) s in
      IsEntered (meanings max keys (text_of s)) t × b ≡ true
unfolding read_keys
read_keys-IsEntered max hist [] s e inside = (finish-IsEntered s, refl)
read_keys-IsEntered max hist (c ∷ cs) s e inside =
    let rest : all_editing cs ≡ true = ground (arith, e) in
    let plain : is_editing c ≡ true = ground (arith, e) in
    let enter : (c == 10) ≡ false = ground (arith, plain) in
    elim (Bool-cases (c == 0)) [
      | inl z ↦ rw z (read_keys-IsEntered max hist cs s rest inside)
      | inr z ↦
          let here : text_of (edit max hist c s) ≡ meaning max c (text_of s) =
            text_of-edit max hist c s inside (ground (arith, plain)) (ground (arith, plain))
              (ground (arith, plain)) in
          rw (z, enter, sym here)
            (read_keys-IsEntered max hist cs (edit max hist c s) rest
              (edit-cursor max hist c s inside plain))
    ]

-- The keys of `readline` edit a text with a cursor: after any keys but TAB, up and down, and then
-- Enter, the buffer holds the characters in front of the cursor, closed by a NUL, and the function
-- returns; the keys are those of a list in front of the cursor and one behind it, for any size of the
-- buffer.
pub readline-IsEntered :
    (max : ℕ) (hist : History) (buf saved : Array) (keys : List ℕ)
    → all_editing keys ≡ true
    → let (t, h, b) = readline max hist buf saved (keys ++ (10 ∷ [])) in
      IsEntered (meanings max keys (record { left = []; right = [] })) t × b ≡ true
unfolding readline
readline-IsEntered max hist buf saved keys e =
    read_keys-IsEntered max hist keys (fresh buf saved) e (omega arith)
