-- ===== src/Mini64/Line/Text.antt =====
-- What the keys of `readline` in mini64/kernel.c do to the text: a list in front of the cursor and one
-- behind it.
use os.Prelude.{
  ℕ, zero, suc, ◌+◌, ◌-◌, ◌≤◌, ◌<◌, ◌≡◌, refl, sym, ap, ◌∙◌, List, [], ◌∷◌, true, false, ◌&&◌,
  if◌then◌else◌, ltb, leb, ◌==◌, length, arith, inl, inr, Bool-cases,
}
use os.Prelude.Array.{
  Array, put, slice, shift_down, shift_up, shift_down_lem, shift_up_lem, slice_shift,
}
use os.Mini64.Line.{History, Line}
use os.Mini64.Line.Keys.{backspace, delete_at, go_home, go_end, go_left, go_right, insert_key}
use os.Mini64.Line.Read.{edit}

-- The characters in front of the cursor, the nearest first, and those behind it.
pub record Text : Type 0 where
  pub left : List ℕ
  pub right : List ℕ

abbrev pub onto : List ℕ → List ℕ → List ℕ
onto [] ys = ys
onto (x ∷ xs) ys = onto xs (x ∷ ys)

abbrev pub step_back : Text → Text
step_back t = elim t.left [ [] ↦ t | x ∷ xs ↦ record { left = xs; right = x ∷ t.right } ]

abbrev pub step_on : Text → Text
step_on t = elim t.right [ [] ↦ t | x ∷ xs ↦ record { left = x ∷ t.left; right = xs } ]

abbrev tail : List ℕ → List ℕ
tail [] = []
tail (x ∷ xs) = xs

-- What a key means: the line holds less than `max` characters.
abbrev pub meaning : ℕ → ℕ → Text → Text
meaning max c t =
    if c == 8
    then record t { left = tail t.left }
    else if c == 0x7f
    then record t { right = tail t.right }
    else if c == 0x01
    then record { left = []; right = onto t.left t.right }
    else if c == 0x02
    then record { left = onto t.right t.left; right = [] }
    else if c == 0x03
    then step_back t
    else if c == 0x04
    then step_on t
    else if leb 32 c && ltb c 127 && ltb (length t.left + length t.right + 1) max
    then record t { left = c ∷ t.left }
    else t

-- The first `n` characters, the last of them first.
abbrev pub backward : ℕ → Array → List ℕ
backward zero a = []
backward (suc n) a = a n ∷ backward n a

abbrev pub text_of : Line → Text
text_of s = record { left = backward s.pos s.buf; right = slice s.pos (s.len - s.pos) s.buf }

pub backward_ext :
    (n : ℕ) (a b : Array) → ((k : ℕ) → k < n → a k ≡ b k) → backward n a ≡ backward n b
backward_ext zero a b h = refl
backward_ext (suc n) a b h =
    ap (λ x. x ∷ backward n a) (h n (omega arith))
    ∙ ap (λ xs. b n ∷ xs) (backward_ext n a b (λ k lt. h k (omega arith)))

length-backward : (n : ℕ) (a : Array) → length (backward n a) ≡ n
length-backward zero a = refl
length-backward (suc n) a = ap suc (length-backward n a)

length-slice : (i n : ℕ) (a : Array) → length (slice i n a) ≡ n
length-slice i zero a = refl
length-slice i (suc n) a = ap suc (length-slice (i + 1) n a)

pub onto-backward : (p n : ℕ) (a : Array) → onto (backward p a) (slice p n a) ≡ slice 0 (p + n) a
onto-backward zero n a = let z : 0 + n ≡ n = omega arith in rw z
onto-backward (suc p) n a =
    let s : suc p ≡ p + 1 = omega arith in
    let t : suc p + n ≡ p + suc n = omega arith in
    ap (λ q. onto (backward p a) (a p ∷ slice q n a)) s
    ∙ onto-backward p (suc n) a
    ∙ ap (λ q. slice 0 q a) (sym t)

onto-slice : (p n : ℕ) (a : Array) → onto (slice p n a) (backward p a) ≡ backward (p + n) a
onto-slice p zero a = let z : p + 0 ≡ p = omega arith in rw z
onto-slice p (suc n) a =
    let s : p + 1 ≡ suc p = omega arith in
    let t : p + suc n ≡ p + 1 + n = omega arith in
    ap (λ q. onto (slice (p + 1) n a) (backward q a)) {x = suc p} (sym s)
    ∙ onto-slice (p + 1) n a
    ∙ ap (λ q. backward q a) (sym t)

text_eq : (a b : Text) → a.left ≡ b.left → a.right ≡ b.right → a ≡ b
text_eq a b p q = ground arith

-- The array after the loop that takes out the character at `p`.
module _ (p len : ℕ) (a : Array) (inside : p < len) where
  abbrev closed : Array
  closed = put (shift_down (len - p) p a) (len - 1) 0

  closed_front : backward p closed ≡ backward p a
  closed_front = backward_ext p closed a (λ k lt. ground (arith, shift_down_lem (len - p) p a k))

  closed_back : slice p (len - 1 - p) closed ≡ tail (slice p (len - p) a)
  closed_back =
      let n : len - p ≡ suc (len - 1 - p) = omega arith in
      slice_shift p (p + 1) (len - 1 - p) closed a (λ k lt. ground (
        arith,
        shift_down_lem (len - p) p a (p + k),
        ap a {x = p + k + 1} {y = p + 1 + k} (omega arith),
      ))
      ∙ ap (λ m. tail (slice p m a)) (sym n)

-- The array after the loop that makes room at `p`, with the new character.
module _ (c p len : ℕ) (a : Array) (inside : p ≤ len) where
  abbrev opened : Array
  opened = put (put (shift_up (len - p) p a) p c) (len + 1) 0

  opened_front : backward (p + 1) opened ≡ c ∷ backward p a
  opened_front =
      let n : p + 1 ≡ suc p = omega arith in
      let here : opened p ≡ c = ground arith in
      ap (λ m. backward m opened) n
      ∙ ap (λ x. x ∷ backward p opened) here
      ∙ ap (λ xs. c ∷ xs)
          (backward_ext p opened a (λ k lt. ground (arith, shift_up_lem (len - p) p a k)))

  opened_back : slice (p + 1) (len + 1 - (p + 1)) opened ≡ slice p (len - p) a
  opened_back =
      let n : len + 1 - (p + 1) ≡ len - p = omega arith in
      ap (λ m. slice (p + 1) m opened) n
      ∙ slice_shift (p + 1) p (len - p) opened a (λ k lt. ground (
        arith,
        shift_up_lem (len - p) p a (p + 1 + k),
        ap a {x = p + 1 + k - 1} {y = p + k} (omega arith),
      ))

-- The same at an explicit position.
abbrev at : Line → ℕ → Line
at s p = record s { pos = p }

at_self : (s : Line) (p : ℕ) → s.pos ≡ p → at s p ≡ s
at_self s p e = ground (arith, e)

text_of-backspace :
    (s : Line) (p : ℕ)
    → p ≤ s.len
    → text_of (backspace (at s p))
      ≡ record (text_of (at s p)) { left = tail (text_of (at s p)).left }
unfolding backspace
text_of-backspace s zero le = refl
text_of-backspace s (suc p) le =
    let test : (suc p == 0) ≡ false = ground arith in
    let back : suc p - 1 ≡ p = omega arith in
    let next : slice p (s.len - 1 - p) (closed p s.len s.buf (omega arith))
        ≡ slice (suc p) (s.len - suc p) s.buf =
      closed_back p s.len s.buf (omega arith)
      ∙ ap (λ m. tail (slice p m s.buf)) {y = suc (s.len - suc p)} (omega arith)
      ∙ ap (λ m. slice m (s.len - suc p) s.buf) {x = p + 1} (omega arith) in
    rw (test, back) (text_eq _ _ (closed_front p s.len s.buf (omega arith)) next)

text_of-go_left :
    (s : Line) (p : ℕ) → p ≤ s.len → text_of (go_left (at s p)) ≡ step_back (text_of (at s p))
unfolding go_left
text_of-go_left s zero le = refl
text_of-go_left s (suc p) le =
    let test : (suc p == 0) ≡ false = ground arith in
    let back : suc p - 1 ≡ p = omega arith in
    let more : slice p (s.len - p) s.buf ≡ s.buf p ∷ slice (suc p) (s.len - suc p) s.buf =
      ap (λ m. slice p m s.buf) {y = suc (s.len - suc p)} (omega arith)
      ∙ ap (λ m. s.buf p ∷ slice m (s.len - suc p) s.buf) {x = p + 1} (omega arith) in
    rw (test, back) (text_eq _ _ refl more)

text_of-go_right :
    (s : Line) (p n : ℕ) → s.len ≡ p + n → text_of (go_right (at s p)) ≡ step_on (text_of (at s p))
unfolding go_right
text_of-go_right s p zero e =
    let stop : ltb p s.len ≡ false = ground arith in
    let nothing : s.len - p ≡ 0 = omega arith in rw (stop, nothing)
text_of-go_right s p (suc n) e =
    let more : ltb p s.len ≡ true = ground arith in
    let here : s.len - p ≡ suc n = omega arith in
    let there : s.len - (p + 1) ≡ n = omega arith in
    let next : p + 1 ≡ suc p = omega arith in
    rw (more, here, there) (text_eq _ _ (ap (λ m. backward m s.buf) next) refl)

module _ (s : Line) (inside : s.pos ≤ s.len) where
  delete_at_text : text_of (delete_at s) ≡ record (text_of s) { right = tail (text_of s).right }
  unfolding delete_at
  delete_at_text = elim (Bool-cases (ltb s.pos s.len)) [
    | inl e ↦ rw e (
        text_eq _ _ (closed_front s.pos s.len s.buf (ground arith))
          (closed_back s.pos s.len s.buf (ground arith)))
    | inr e ↦
        let z : s.len - s.pos ≡ 0 = ground arith in
        rw e (
          text_eq _ _ refl
            (ap (λ n. slice s.pos n s.buf) z ∙ ap (λ n. tail (slice s.pos n s.buf)) (sym z)))
  ]

  go_home_text :
      text_of (go_home s) ≡ record { left = []; right = onto (text_of s).left (text_of s).right }
  unfolding go_home
  go_home_text =
      let n : s.len - 0 ≡ s.pos + (s.len - s.pos) = omega arith in
      text_eq _ _ refl
        (ap (λ m. slice 0 m s.buf) n ∙ sym (onto-backward s.pos (s.len - s.pos) s.buf))

  go_end_text :
      text_of (go_end s) ≡ record { left = onto (text_of s).right (text_of s).left; right = [] }
  unfolding go_end
  go_end_text =
      let n : s.pos + (s.len - s.pos) ≡ s.len = omega arith in
      let none_left : slice s.len (s.len - s.len) s.buf ≡ [] =
        ap (λ m. slice s.len m s.buf) {y = 0} (omega arith) in
      let all = onto-slice s.pos (s.len - s.pos) s.buf ∙ ap (λ m. backward m s.buf) n in
      elim (Bool-cases (ltb s.pos s.len)) [
        | inl e ↦ rw e (text_eq _ _ (sym all) none_left)
        | inr e ↦
            let same : s.pos ≡ s.len = ground arith in
            rw e (
              text_eq _ _ (ap (λ m. backward m s.buf) same ∙ sym all)
                (ap (λ m. slice m (s.len - m) s.buf) same ∙ none_left))
      ]

  insert_key_text :
      (c : ℕ) → text_of (insert_key c s) ≡ record (text_of s) { left = c ∷ (text_of s).left }
  unfolding insert_key
  insert_key_text c =
      text_eq _ _ (opened_front c s.pos s.len s.buf inside) (opened_back c s.pos s.len s.buf inside)

  backspace_text : text_of (backspace s) ≡ record (text_of s) { left = tail (text_of s).left }
  backspace_text = text_of-backspace s s.pos inside

  go_left_text : text_of (go_left s) ≡ step_back (text_of s)
  go_left_text = text_of-go_left s s.pos inside

  go_right_text : text_of (go_right s) ≡ step_on (text_of s)
  go_right_text = text_of-go_right s s.pos (s.len - s.pos) (omega arith)

  text_room : length (text_of s).left + length (text_of s).right ≡ s.len
  text_room =
      let a = length-backward s.pos s.buf in
      let b = length-slice s.pos (s.len - s.pos) s.buf in omega (arith, a, b)

-- A key of the editor other than TAB, up and down has its meaning.
pub text_of-edit :
    (max : ℕ) (hist : History) (c : ℕ) (s : Line)
    → s.pos ≤ s.len
    → (c == 9) ≡ false
    → (c == 0x1b) ≡ false
    → (c == 0x1a) ≡ false
    → text_of (edit max hist c s) ≡ meaning max c (text_of s)
unfolding edit
text_of-edit max hist c s inside tab up down = elim (Bool-cases (c == 8)) [
  | inl e ↦ rw e (backspace_text s inside)
  | inr e0 ↦ rw e0 (elim (Bool-cases (c == 0x7f)) [
    | inl e ↦ rw e (delete_at_text s inside)
    | inr e1 ↦ rw e1 (elim (Bool-cases (c == 0x01)) [
      | inl e ↦ rw e (go_home_text s inside)
      | inr e2 ↦ rw e2 (elim (Bool-cases (c == 0x02)) [
        | inl e ↦ rw e (go_end_text s inside)
        | inr e3 ↦ rw e3 (elim (Bool-cases (c == 0x03)) [
          | inl e ↦ rw e (go_left_text s inside)
          | inr e4 ↦ rw e4 (elim (Bool-cases (c == 0x04)) [
            | inl e ↦ rw e (go_right_text s inside)
            | inr e5 ↦
                rw (e5, tab, up, down, text_room s inside)
                  (elim (Bool-cases (leb 32 c && ltb c 127 && ltb (s.len + 1) max)) [
                    | inl e ↦ rw e (insert_key_text s inside c)
                    | inr e ↦ rw e refl
                  ])
          ])
        ])
      ])
    ])
  ])
]
