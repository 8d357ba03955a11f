-- ===== src/Mini64/Line/Bounds.antt =====
-- The bounds of `readline` in mini64/kernel.c for the shell, which gives it a buffer of 128 characters:
-- what a key keeps true of the buffer.
use os.Prelude.{ℕ, ◌+◌, ◌-◌, ◌≤◌, ◌<◌, ◌≡◌, ◌∙◌, List, ltb, ◌==◌, arith, inl, inr, Bool-cases}
use os.Prelude.Array.{Array, put, shift_down, shift_up, shift_down_lem, shift_up_lem}
use os.Mini64.Line.{Line, line_max, print}
use os.Mini64.Line.Keys.{backspace, delete_at, go_home, go_end, go_left, go_right, insert_key}

-- The buffer holds `len` characters and no NUL among them, below its end, the cursor stands among them,
-- the kept line ends, and what lies behind the buffer is as in `outer`.
pub record Fits (outer : Array) (s : Line) : Type 0 where
  pub cursor : s.pos ≤ s.len
  pub room : s.len < line_max
  pub solid : (k : ℕ) → k < s.len → 0 < s.buf k
  pub end : ℕ
  pub end_inside : end < line_max
  pub ended : s.saved end ≡ 0
  pub same : (k : ℕ) → line_max ≤ k → s.buf k ≡ outer k

-- A key that moves the cursor only.
pub moved :
    (outer : Array) (s : Line) (p : ℕ) (cs : List ℕ)
    → p ≤ s.len
    → Fits outer s
    → Fits outer (print cs (record s { pos = p }))
moved outer s p cs le f = record {
  cursor = le;
  room = f.room;
  solid = f.solid;
  end = f.end;
  end_inside = f.end_inside;
  ended = f.ended;
  same = f.same;
}

module _ (outer : Array) (s : Line) (f : Fits outer s) where
  pub go_home-Fits : Fits outer (go_home s)
  unfolding go_home
  go_home-Fits = moved outer s 0 _ (omega arith) f

  pub go_end-Fits : Fits outer (go_end s)
  unfolding go_end
  go_end-Fits = elim (Bool-cases (ltb s.pos s.len)) [
    | inl e ↦ rw e (moved outer s s.len _ (omega arith) f)
    | inr e ↦ rw e f
  ]

  pub go_left-Fits : Fits outer (go_left s)
  unfolding go_left
  go_left-Fits = elim (Bool-cases (s.pos == 0)) [
    | inl e ↦ rw e f
    | inr e ↦ let c = f.cursor in rw e (moved outer s (s.pos - 1) _ (omega (arith, c)) f)
  ]

  pub go_right-Fits : Fits outer (go_right s)
  unfolding go_right
  go_right-Fits = elim (Bool-cases (ltb s.pos s.len)) [
    | inl e ↦ rw e (moved outer s (s.pos + 1) _ (ground arith) f)
    | inr e ↦ rw e f
  ]

-- The line without its character at `p`.
removed :
    (outer : Array) (s : Line) (p : ℕ) (cs : List ℕ)
    → p < s.len
    → Fits outer s
    → Fits outer (
        print cs (record s {
          buf = put (shift_down (s.len - p) p s.buf) (s.len - 1) 0;
          pos = p;
          len = s.len - 1;
        }))
removed outer s p cs lt f =
    let r = f.room in
    record {
      cursor = omega arith;
      room = omega (arith, r);
      solid = λ k inside.
          let here = f.solid k (omega arith) in
          let next = f.solid (k + 1) (omega arith) in
          ground (arith, shift_down_lem (s.len - p) p s.buf k);
      end = f.end;
      end_inside = f.end_inside;
      ended = f.ended;
      same = λ k beyond. ground (arith, shift_down_lem (s.len - p) p s.buf k) ∙ f.same k beyond;
    }

-- The line with one more character at the cursor.
pub added :
    (outer : Array) (s : Line) (c : ℕ) (b : Array) (cs : List ℕ)
    → 0 < c
    → s.len + 1 < line_max
    → ((k : ℕ) → k ≤ s.len → b k ≡ put (shift_up (s.len - s.pos) s.pos s.buf) s.pos c k)
    → ((k : ℕ) → line_max ≤ k → b k ≡ put (shift_up (s.len - s.pos) s.pos s.buf) s.pos c k)
    → Fits outer s
    → Fits outer (print cs (record s { buf = b; pos = s.pos + 1; len = s.len + 1 }))
added outer s c b cs solid lt inner outside f =
    let le = f.cursor in
    record {
      cursor = omega (arith, le);
      room = lt;
      solid = λ k inside.
          let at_front = f.solid k in
          let behind = f.solid (k - 1) in
          ground (arith, inner k (omega arith), shift_up_lem (s.len - s.pos) s.pos s.buf k);
      end = f.end;
      end_inside = f.end_inside;
      ended = f.ended;
      same = λ k beyond.
          outside k beyond
          ∙ ground (arith, shift_up_lem (s.len - s.pos) s.pos s.buf k)
          ∙ f.same k beyond;
    }

module _ (outer : Array) (s : Line) (f : Fits outer s) where
  pub backspace-Fits : Fits outer (backspace s)
  unfolding backspace
  backspace-Fits = elim (Bool-cases (s.pos == 0)) [
    | inl e ↦ rw e f
    | inr e ↦ let c = f.cursor in rw e (removed outer s (s.pos - 1) _ (ground arith) f)
  ]

  pub delete_at-Fits : Fits outer (delete_at s)
  unfolding delete_at
  delete_at-Fits = elim (Bool-cases (ltb s.pos s.len)) [
    | inl e ↦ rw e (removed outer s s.pos _ (ground arith) f)
    | inr e ↦ rw e f
  ]

  pub insert_key-Fits : (c : ℕ) → 0 < c → s.len + 1 < line_max → Fits outer (insert_key c s)
  unfolding insert_key
  insert_key-Fits c solid lt =
      added outer s c _ _ solid lt (λ k le. ground arith) (λ k beyond. ground arith) f
