-- ===== src/Vt/Screen/Erased.antt =====
-- `eraseInLine` and `eraseInDisplay` at each position inside of the screen.
use constellate.Common.{
  ℕ, zero, suc, ◌+◌, ◌-◌, ◌≤◌, ◌<◌, ◌≡◌, refl, Bool, Option, none, some, Word, ◌&&◌, ◌||◌, ◌==◌,
  ltb, leb, if◌then◌else◌, arith, add_int, add_int-small,
}
use constellate.Vt.Screen.{
  Grid, Screen, rounds, fill_cells, fill_rows, pen_cell, blank_pen_row, erase_to_end,
  erase_from_start, erase_in_display, erase_in_line,
}
use constellate.Vt.Screen.Valid.{IsGrid, IsValid, rounds-small, rounds-zero, rounds_to-zero}
use constellate.Vt.Screen.Contents.{cell_at, fill_cells-cell_at, fill_rows-cell_at, fill_cells-none}
use constellate.Vt.Screen.Erase.{ErasesInBounds}

-- The columns of the cursor's row that mode 0, 1 or 2 blanks.
abbrev pub in_line : Word → Word → ℕ → Bool
in_line mode cx i = if mode == 0 then leb cx i else if mode == 1 then leb i cx else mode == 2

-- The positions that mode 0, 1, 2 or 3 blanks.
abbrev pub in_display : Word → Screen → ℕ → ℕ → Bool
in_display mode s j i =
    if mode == 0
    then ltb s.cy j || (j == s.cy && leb s.cx i)
    else if mode == 1
    then ltb j s.cy || (j == s.cy && leb i s.cx)
    else mode == 2 || mode == 3

-- The call returns, changes cells only, and blanks exactly the cells that `erased` picks.
abbrev pub Erases : Screen → (ℕ → ℕ → Bool) → Option Screen → Type 0
Erases s erased o =
    (g : Grid) × (o ≡ some (record s { cells = g }))
    × ((j i : ℕ)
        → j < s.rows
        → i < s.cols
        → cell_at g j i ≡ (if erased j i then some (pen_cell s) else cell_at s.cells j i))

module _ (s : Screen) (v : IsValid s) where
  to_end_cells :
      (g : Grid) × (erase_to_end s ≡ some g)
      × IsGrid s.cols s.rows g
      × ((j i : ℕ)
          → i < s.cols
          → cell_at g j i
            ≡ (if j == s.cy && leb s.cx i then some (pen_cell s) else cell_at s.cells j i))
  unfolding erase_to_end
  to_end_cells =
      let (g, p, w, f) =
        fill_cells-cell_at s.cols s.rows (s.cols - s.cx) s.cells s.cy s.cx (pen_cell s) v.grid
          v.cy_lt (omega (arith, v.cx_le)) in
      (
        g,
        rw
            (rounds-small s.cx s.cols (omega (arith, v.cx_le, v.cols_small))
              (omega (arith, v.cols_small)))
            p,
        w,
        λ j i l. ground (arith, f j i, v.cx_le),
      )

  from_start_cells :
      (h : Grid)
      → IsGrid s.cols s.rows h
      → s.cx < s.cols
      → (g : Grid) × (erase_from_start h s ≡ some g)
        × ((j i : ℕ)
            → cell_at g j i
              ≡ (if j == s.cy && leb i s.cx then some (pen_cell s) else cell_at h j i))
  unfolding erase_from_start
  from_start_cells h u lt =
      let (g, p, w, f) =
        fill_cells-cell_at s.cols s.rows (suc s.cx) h s.cy 0 (pen_cell s) u v.cy_lt (omega arith) in
      (g, rw (rounds_to-zero s.cx (omega (arith, v.cols_small))) p, λ j i. ground (arith, f j i))

  whole_line_cells :
      (g : Grid) × (fill_cells (rounds 0 s.cols) s.cells s.cy 0 (pen_cell s) ≡ some g)
      × ((j i : ℕ)
          → i < s.cols
          → cell_at g j i ≡ (if j == s.cy then some (pen_cell s) else cell_at s.cells j i))
  whole_line_cells =
      let (g, p, w, f) =
        fill_cells-cell_at s.cols s.rows s.cols s.cells s.cy 0 (pen_cell s) v.grid v.cy_lt
          (omega arith) in
      (g, rw (rounds-zero s.cols (omega (arith, v.cols_small))) p, λ j i l. ground (arith, f j i))

  -- Erasing in the line with mode 0, 1 or 2 blanks, in the pen's colours, the cells of the cursor's
  -- row from the cursor on, up to the cursor, or all of them, and changes nothing else; mode 1
  -- wants the cursor left of the right margin.
  pub erase_in_line-Erases :
      (mode : Word)
      → mode ≤ 2
      → ErasesInBounds mode s
      → Erases s (λ j i. j == s.cy && in_line mode s.cx i) (erase_in_line mode s)
  unfolding erase_in_line
  erase_in_line-Erases zero m h = let (g, p, w, f) = to_end_cells in (g, rw p, λ j i a b. f j i b)
  erase_in_line-Erases (suc zero) m h =
      let (g, p, f) = from_start_cells s.cells v.grid (h refl) in (g, rw p, λ j i a b. f j i)
  erase_in_line-Erases (suc (suc zero)) m h =
      let (g, p, f) = whole_line_cells in (g, rw p, λ j i a b. ground (arith, f j i b))
  erase_in_line-Erases (suc (suc (suc n))) m h = absurd (omega arith)

  above_cells :
      (g : Grid) × (fill_rows (rounds 0 s.cy) s.cells 0 (blank_pen_row s) ≡ some g)
      × IsGrid s.cols s.rows g
      × ((j i : ℕ)
          → i < s.cols
          → cell_at g j i ≡ (if ltb j s.cy then some (pen_cell s) else cell_at s.cells j i))
  unfolding blank_pen_row
  above_cells =
      let (g, p, w, f) =
        fill_rows-cell_at s.cols s.rows s.cy s.cells 0 (pen_cell s) v.grid
          (omega (arith, v.cy_lt)) in
      (
        g,
        rw (rounds-zero s.cy (omega (arith, v.cy_lt, v.rows_small))) p,
        w,
        λ j i l. ground (arith, f j i l),
      )

  all_rows_cells :
      (g : Grid) × (fill_rows (rounds 0 s.rows) s.cells 0 (blank_pen_row s) ≡ some g)
      × ((j i : ℕ) → j < s.rows → i < s.cols → cell_at g j i ≡ some (pen_cell s))
  unfolding blank_pen_row
  all_rows_cells =
      let (g, p, w, f) =
        fill_rows-cell_at s.cols s.rows s.rows s.cells 0 (pen_cell s) v.grid (omega arith) in
      (
        g,
        rw (rounds-zero s.rows (omega (arith, v.rows_small))) p,
        λ j i l m. ground (arith, f j i m),
      )

  below_cells :
      (h : Grid)
      → IsGrid s.cols s.rows h
      → (g : Grid) × (fill_rows
            (rounds (add_int s.cy 1) s.rows)
            h
            (add_int s.cy 1)
            (blank_pen_row s)
          ≡ some g)
        × ((j i : ℕ)
            → j < s.rows
            → i < s.cols
            → cell_at g j i ≡ (if ltb s.cy j then some (pen_cell s) else cell_at h j i))
  unfolding blank_pen_row
  below_cells h u =
      let (g, p, w, f) =
        fill_rows-cell_at s.cols s.rows (s.rows - (s.cy + 1)) h (s.cy + 1) (pen_cell s) u
          (omega (arith, v.cy_lt)) in
      (
        g,
        rw
            (
              add_int-small s.cy 1 (omega (arith, v.cy_lt, v.rows_small)),
              rounds-small (s.cy + 1) s.rows (omega (arith, v.cy_lt, v.rows_small))
                  (omega (arith, v.rows_small)),
            )
            p,
        λ j i l m. ground (arith, f j i m, v.cy_lt),
      )

  -- Erasing in the display with mode 0 to 3 blanks, in the pen's colours, the cells behind the
  -- cursor, those up to it, or all, and changes nothing else; mode 1 wants the cursor left of the
  -- right margin.
  pub erase_in_display-Erases :
      (mode : Word)
      → mode ≤ 3
      → ErasesInBounds mode s
      → Erases s (in_display mode s) (erase_in_display mode s)
  unfolding erase_in_display
  erase_in_display-Erases zero m h =
      let (g, p, w, f) = to_end_cells in
      let (g', p', f') = below_cells g w in
      (g', rw (p, p'), λ j i a b. ground (arith, f j i b, f' j i a b))
  erase_in_display-Erases (suc zero) m h =
      let (g, p, w, f) = above_cells in
      let (g', p', f') = from_start_cells g w (h refl) in
      (g', rw (p, p'), λ j i a b. ground (arith, f j i b, f' j i))
  erase_in_display-Erases (suc (suc zero)) m h = let (g, p, f) = all_rows_cells in (g, rw p, f)
  erase_in_display-Erases (suc (suc (suc zero))) m h =
      let (g, p, f) = all_rows_cells in (g, rw p, f)
  erase_in_display-Erases (suc (suc (suc (suc n)))) m h = absurd (omega arith)

  from_start-none :
      (g : Grid) → IsGrid s.cols s.rows g → s.cx ≡ s.cols → erase_from_start g s ≡ none
  unfolding erase_from_start
  from_start-none g w e =
      rw (rounds_to-zero s.cx (omega (arith, v.cx_le, v.cols_small)))
        (fill_cells-none s.cols s.rows (suc s.cx) g s.cy 0 _ w v.cy_lt (omega arith) (omega arith))

  -- On a valid screen with the cursor past the last column, where printing into that column leaves
  -- it, erasing from the start of the line or of the display up to the cursor indexes past the
  -- row's end and panics.
  pub erase_to_cursor-none :
      s.cx ≡ s.cols → (erase_in_line 1 s ≡ none) × (erase_in_display 1 s ≡ none)
  unfolding erase_in_line erase_in_display
  erase_to_cursor-none e =
      let (g, p, w, f) = above_cells in
      (rw (from_start-none s.cells v.grid e), rw (p, from_start-none g w e))
