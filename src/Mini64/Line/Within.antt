-- ===== src/Mini64/Line/Within.antt =====
-- The bounds of `readline` in mini64/kernel.c for the shell: the keys that bring a longer text, and the
-- loop over the keys.
use os.Prelude.{
  ℕ, zero, suc, ◌+◌, ◌-◌, ◌≤◌, ◌<◌, ◌≡◌, refl, ap, ◌∙◌, List, [], ◌∷◌, Option, none, some, Bool,
  true, not, ◌&&◌, ltb, leb, ◌==◌, length, drop, length-drop, arith, inl, inr, Bool-cases,
}
use os.Prelude.Array.{Array, put, copy_array, copy_array_lem}
use os.Mini64.Line.{History, Line, line_max, fresh, shift_rows, hist_add, same_text}
use os.Mini64.Line.Keys.{show_text, older, newer}
use os.Mini64.Line.Complete.{cmd_list, common, is_match, matches, insert_rest, completed, complete}
use os.Mini64.Line.Read.{edit, read_keys, readline}
use os.Mini64.Line.Copies.{text_length-at_most, text_length-solid, copy_text_lem}
use os.Mini64.Line.Bounds.{
  Fits, moved, added, go_home-Fits, go_end-Fits, go_left-Fits, go_right-Fits, backspace-Fits,
  delete_at-Fits, insert_key-Fits,
}

-- A text that ends becomes the line.
show_text-Fits :
    (outer : Array) (s : Line) (row : Array) (m : ℕ)
    → m < line_max
    → row m ≡ 0
    → Fits outer s
    → Fits outer (show_text row s)
unfolding show_text
show_text-Fits outer s row m lt z f =
    let short = text_length-at_most line_max 0 row m (omega arith) z in
    record {
      cursor = omega arith;
      room = omega (arith, short, lt);
      solid = λ k inside.
          let there = text_length-solid line_max 0 row k (omega arith) inside in
          ground (arith, copy_text_lem line_max 0 row s.buf k);
      end = f.end;
      end_inside = f.end_inside;
      ended = f.ended;
      same = λ k beyond.
          ground (arith, copy_text_lem line_max 0 row s.buf k, short, lt, beyond) ∙ f.same k beyond;
    }

-- Every row of the history ends.
abbrev pub IsEnded : History → Type 0
IsEnded hist = (i : ℕ) → hist.rows i 127 ≡ 0

module _ (outer : Array) (hist : History) (ends : IsEnded hist) (s : Line) (f : Fits outer s) where
  numbered : (h : Option ℕ) → Fits outer (record s { h = h })
  numbered h = record {
    cursor = f.cursor;
    room = f.room;
    solid = f.solid;
    end = f.end;
    end_inside = f.end_inside;
    ended = f.ended;
    same = f.same;
  }

  numbered_kept :
      (h : Option ℕ)
      → Fits outer (record s { saved = put (copy_array s.len 0 s.buf s.saved) s.len 0; h = h })
  numbered_kept h = record {
    cursor = f.cursor;
    room = f.room;
    solid = f.solid;
    end = s.len;
    end_inside = f.room;
    ended = ground arith;
    same = f.same;
  }

  older_from :
      (h : Option ℕ)
      → Fits outer (record s { h = h })
      → Fits outer (older hist (record s { h = h }))
  unfolding older
  older_from none g = elim (Bool-cases (ltb 0 hist.count)) [
    | inl e ↦
        rw e
          (show_text-Fits outer _ (hist.rows 0) 127 (omega arith) (ends 0) (numbered_kept (some 0)))
    | inr e ↦ rw e (numbered_kept none)
  ]
  older_from (some i) g = elim (Bool-cases (ltb (i + 1) hist.count)) [
    | inl e ↦ rw e (
        show_text-Fits outer _ (hist.rows (i + 1)) 127 (omega arith) (ends (i + 1))
          (numbered (some (i + 1))))
    | inr e ↦ rw e g
  ]

  newer_from :
      (h : Option ℕ)
      → Fits outer (record s { h = h })
      → Fits outer (newer hist (record s { h = h }))
  unfolding newer
  newer_from none g = g
  newer_from (some i) g = elim (Bool-cases (i == 0)) [
    | inl e ↦ rw e (show_text-Fits outer _ s.saved f.end f.end_inside f.ended (numbered none))
    | inr e ↦ rw e (
        show_text-Fits outer _ (hist.rows (i - 1)) 127 (omega arith) (ends (i - 1))
          (numbered (some (i - 1))))
  ]

  older-Fits : Fits outer (older hist s)
  older-Fits = older_from s.h f

  newer-Fits : Fits outer (newer hist s)
  newer-Fits = newer_from s.h f

-- The commands are short and hold no NUL.
abbrev is_solid : List ℕ → Bool
is_solid [] = true
is_solid (c ∷ cs) = ltb 0 c && is_solid cs

abbrev all_short : List (List ℕ) → Bool
all_short [] = true
all_short (c ∷ cs) = is_solid c && leb (length c) 15 && all_short cs

is_solid-drop : (n : ℕ) (cs : List ℕ) → is_solid cs ≡ true → is_solid (drop n cs) ≡ true
is_solid-drop zero cs e = e
is_solid-drop (suc n) [] e = refl
is_solid-drop (suc n) (c ∷ cs) e = is_solid-drop n cs (ground (arith, e))

matches-first :
    (buf : Array) (cs : List (List ℕ)) (c : List ℕ) (ds : List (List ℕ))
    → all_short cs ≡ true
    → matches buf cs ≡ c ∷ ds
    → is_match buf c ≡ true × is_solid c ≡ true × length c ≤ 15
unfolding matches
matches-first buf [] c ds e m = ground (arith, m)
matches-first buf (d ∷ cs) c ds e m = elim (Bool-cases (is_match buf d)) [
  | inl y ↦
      let m' : d ∷ matches buf cs ≡ c ∷ ds = rw y at m in
      let same : d ≡ c = cc in
      ground (arith, e, y, same, ap (is_match buf) same, ap is_solid same, ap length same)
  | inr n ↦
      let m' : matches buf cs ≡ c ∷ ds = rw n at m in
      matches-first buf cs c ds (ground (arith, e)) m'
]

insert_rest-Fits :
    (outer : Array) (max : ℕ) (cs : List ℕ) (s : Line)
    → is_solid cs ≡ true
    → s.len + length cs < line_max
    → Fits outer s
    → Fits outer (insert_rest max cs s)
unfolding insert_rest
insert_rest-Fits outer max [] s e lt f = f
insert_rest-Fits outer max (c ∷ cs) s e lt f = elim (Bool-cases (ltb (s.pos + 1) max)) [
  | inl y ↦ rw y (
      insert_rest-Fits outer max cs _ (ground (arith, e)) (omega (arith, lt)) (
        added outer s c _ _ (ground (arith, e)) (omega (arith, lt)) (λ k le. refl)
          (λ k beyond. refl) f))
  | inr n ↦ rw n f
]

common-bounds :
    (cs : List ℕ) (j : ℕ) (buf : Array) → j ≤ common cs j buf × common cs j buf ≤ j + length cs
unfolding common
common-bounds [] j buf = (omega arith, omega arith)
common-bounds (c ∷ cs) j buf =
    let (lo, hi) = common-bounds cs (j + 1) buf in
    elim (Bool-cases (not (buf j == 0) && (c == buf j))) [
      | inl y ↦ rw y (omega (arith, lo), omega (arith, hi))
      | inr n ↦ rw n (omega arith, omega arith)
    ]

-- What a completion inserts has room.
completion-room :
    (outer : Array) (s : Line) (c : List ℕ)
    → Fits outer s
    → is_match s.buf c ≡ true
    → length c ≤ 15
    → s.len + length (drop (common c 0 s.buf) c) < line_max
completion-room outer s c f y le =
    let (lo, hi) = common-bounds c 0 s.buf in
    let r = f.room in
    let l = length-drop (common c 0 s.buf) c in
    elim (Bool-cases (s.buf (common c 0 s.buf) == 0)) [
      | inl z ↦
          let short : s.len ≤ common c 0 s.buf = elim (Bool-cases (ltb (common c 0 s.buf) s.len)) [
            | inl lt ↦
                let solid = f.solid (common c 0 s.buf) (ground (arith, lt)) in
                ground (arith, solid, z)
            | inr ge ↦ ground (arith, ge)
          ] in
          omega (arith, l, hi, le, short)
      | inr n ↦ ground (arith, y, n, l, r)
    ]

completed-Fits :
    (outer : Array) (max : ℕ) (cs : List (List ℕ)) (s : Line)
    → matches s.buf cmd_list ≡ cs
    → Fits outer s
    → Fits outer (completed max cs s)
completed-Fits outer max [] s e f = f
completed-Fits outer max (c ∷ []) s e f =
    let (y, solid, le) = matches-first s.buf cmd_list c [] refl e in
    insert_rest-Fits outer max _ s (is_solid-drop (common c 0 s.buf) c solid)
      (completion-room outer s c f y le) f
completed-Fits outer max (c ∷ d ∷ ds) s e f = moved outer s s.pos _ f.cursor f

complete-Fits : (outer : Array) (max : ℕ) (s : Line) → Fits outer s → Fits outer (complete max s)
unfolding complete
complete-Fits outer max s f = completed-Fits outer max (matches s.buf cmd_list) s refl f

-- Every key keeps the line within the buffer.
pub edit-Fits :
    (outer : Array) (hist : History)
    → IsEnded hist
    → (c : ℕ) (s : Line) → Fits outer s
    → Fits outer (edit line_max hist c s)
unfolding edit
edit-Fits outer hist ends c s f = elim (Bool-cases (c == 8)) [
  | inl e ↦ rw e (backspace-Fits outer s f)
  | inr e0 ↦ rw e0 (elim (Bool-cases (c == 0x7f)) [
    | inl e ↦ rw e (delete_at-Fits outer s f)
    | inr e1 ↦ rw e1 (elim (Bool-cases (c == 0x01)) [
      | inl e ↦ rw e (go_home-Fits outer s f)
      | inr e2 ↦ rw e2 (elim (Bool-cases (c == 0x02)) [
        | inl e ↦ rw e (go_end-Fits outer s f)
        | inr e3 ↦ rw e3 (elim (Bool-cases (c == 0x03)) [
          | inl e ↦ rw e (go_left-Fits outer s f)
          | inr e4 ↦ rw e4 (elim (Bool-cases (c == 0x04)) [
            | inl e ↦ rw e (go_right-Fits outer s f)
            | inr e5 ↦ rw e5 (elim (Bool-cases (c == 9)) [
              | inl e ↦ rw e (complete-Fits outer line_max s f)
              | inr e6 ↦
                  rw e6 (elim (Bool-cases (leb 32 c && ltb c 127 && ltb (s.len + 1) line_max)) [
                    | inl e ↦
                        rw e (insert_key-Fits outer s f c (ground (arith, e)) (ground (arith, e)))
                    | inr e7 ↦ rw e7 (elim (Bool-cases (c == 0x1b)) [
                      | inl e ↦ rw e (older-Fits outer hist ends s f)
                      | inr e8 ↦ rw e8 (elim (Bool-cases (c == 0x1a)) [
                        | inl e ↦ rw e (newer-Fits outer hist ends s f)
                        | inr e9 ↦ rw e9 f
                      ])
                    ])
                  ])
            ])
          ])
        ])
      ])
    ])
  ])
]

-- The history keeps its rows closed.
shift_rows-ended :
    (n : ℕ) (rows : ℕ → Array) → ((i : ℕ) → rows i 127 ≡ 0) → (i : ℕ) → shift_rows n rows i 127 ≡ 0
unfolding shift_rows
shift_rows-ended zero rows ends i = ends i
shift_rows-ended (suc n) rows ends i =
    shift_rows-ended n _
      (λ k. elim (Bool-cases (k == suc n)) [
        | inl e ↦ rw e (copy_array_lem line_max 0 (rows n) (rows (suc n)) 127 ∙ ends n)
        | inr e ↦ rw e (ends k)
      ])
      i

hist_add-IsEnded : (line : Array) (hist : History) → IsEnded hist → IsEnded (hist_add line hist)
unfolding hist_add
hist_add-IsEnded line hist ends = elim (Bool-cases (line 0 == 0)) [
  | inl e ↦ rw e ends
  | inr e ↦
      rw e
        (elim (Bool-cases (not (hist.count == 0) && same_text (hist.rows (hist.count - 1)) line)) [
          | inl e ↦ rw e ends
          | inr e ↦ rw e (λ i. elim (Bool-cases (i == 0)) [
            | inl z ↦ rw z refl
            | inr z ↦ rw z (shift_rows-ended _ hist.rows ends i)
          ])
        ])
]

-- What is left of `Fits` when Enter has cut the line.
abbrev pub IsWithin : Array → Line → Type 0
IsWithin outer s = s.pos ≤ s.len × s.len < line_max × ((k : ℕ) → line_max ≤ k → s.buf k ≡ outer k)

read_keys-IsWithin :
    (outer : Array) (keys : List ℕ) (hist : History) (s : Line)
    → IsEnded hist
    → Fits outer s
    → let (t, h, b) = read_keys line_max hist keys s in IsWithin outer t × IsEnded h
unfolding read_keys
read_keys-IsWithin outer [] hist s ends f = ((f.cursor, f.room, f.same), ends)
read_keys-IsWithin outer (c ∷ cs) hist s ends f = elim (Bool-cases (c == 0)) [
  | inl e ↦ rw e (read_keys-IsWithin outer cs hist s ends f)
  | inr e ↦ rw e (elim (Bool-cases (c == 10)) [
    | inl e ↦
        let le = f.cursor in
        let lt = f.room in
        rw e (
          (f.cursor, f.room, λ k beyond. ground arith ∙ f.same k beyond),
          hist_add-IsEnded _ hist ends,
        )
    | inr e ↦ rw e (read_keys-IsWithin outer cs hist _ ends (edit-Fits outer hist ends c s f))
  ])
]

-- With a buffer of 128 characters and a history whose rows end with a NUL, whatever keys come,
-- `readline` keeps the cursor within the line and the line below 128 characters, writes nothing behind
-- the buffer, and leaves a history whose rows end with a NUL: completion and the history included.
pub readline-IsWithin :
    (hist : History) (buf saved : Array) (keys : List ℕ)
    → IsEnded hist
    → let (t, h, b) = readline line_max hist buf saved keys in IsWithin buf t × IsEnded h
unfolding readline
readline-IsWithin hist buf saved keys ends =
    read_keys-IsWithin buf keys hist (fresh buf saved) ends (record {
      cursor = omega arith;
      room = omega arith;
      solid = λ k lt. ground arith;
      end = 0;
      end_inside = omega arith;
      ended = refl;
      same = λ k beyond. ground arith;
    })
