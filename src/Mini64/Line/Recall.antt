-- ===== src/Mini64/Line/Recall.antt =====
-- What `hist_add` of mini64/kernel.c keeps.
use os.Prelude.{
  ℕ, zero, suc, ◌+◌, ◌-◌, ◌≤◌, ◌<◌, ◌≡◌, refl, ap, ◌∙◌, false, not, ◌&&◌, if◌then◌else◌, ltb, leb,
  ◌==◌, arith, inl, inr, Bool-cases,
}
use os.Prelude.Array.{Array, copy_array_lem}
use os.Mini64.Line.{History, line_max, hist_max, same_text, shift_rows, hist_add}
use os.Mini64.Line.Keys.{text_length}
use os.Mini64.Line.Copies.{copy_text_lem}

shift_rows_lem :
    (n : ℕ) (rows : ℕ → Array) (i k : ℕ)
    → k < line_max
    → shift_rows n rows i k ≡ (if leb 1 i && leb i n then rows (i - 1) k else rows i k)
unfolding shift_rows
shift_rows_lem zero rows i k lt = ground arith
shift_rows_lem (suc n) rows i k lt =
    shift_rows_lem n _ i k lt
    ∙ (let copied = copy_array_lem line_max 0 (rows n) (rows (suc n)) k in
        elim (Bool-cases (i == suc n)) [
          | inl e ↦
              ground
                (arith, e, copied, lt, ap (λ j. rows j k) {x = i - 1} {y = n} (ground (arith, e)))
          | inr e ↦ ground (arith, e)
        ])

-- A line that is not empty and not the one that `hist_add` compares it with goes into row 0 of the
-- history, and the rows move on by one, up to 8; row 0 keeps the characters of the row that was there
-- behind the line's end, since no NUL is written but the last.
pub hist_add_lem :
    (line : Array) (hist : History)
    → (line 0 == 0) ≡ false
    → (not (hist.count == 0) && same_text (hist.rows (hist.count - 1)) line) ≡ false
    → hist.count ≤ hist_max
    → let h = hist_add line hist in
      h.count ≡ (if ltb hist.count hist_max then hist.count + 1 else hist_max)
      × ((i k : ℕ) → i + 1 < h.count → k < line_max → h.rows (i + 1) k ≡ hist.rows i k)
      × ((k : ℕ)
          → k < 127
          → h.rows 0 k ≡ (if ltb k (text_length line_max 0 line) then line k else hist.rows 0 k))
      × h.rows 0 127 ≡ 0
unfolding hist_add
hist_add_lem line hist some_text other le =
    let counted = if ltb hist.count hist_max then hist.count + 1 else hist.count in
    rw (some_text, other)
      (
        ground arith,
        λ i k inside lt.
            let later : (i + 1 == 0) ≡ false = ground arith in
            rw later (
              shift_rows_lem (counted - 1) hist.rows (i + 1) k lt
              ∙ ground (arith, ap (λ j. hist.rows j k) {x = i + 1 - 1} {y = i} (omega arith))),
        λ k lt. ground (
          arith,
          copy_text_lem line_max 0 line (shift_rows (counted - 1) hist.rows 0) k,
          shift_rows_lem (counted - 1) hist.rows 0 k (omega (arith, lt)),
        ),
        refl,
      )
