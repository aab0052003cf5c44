-- ===== src/Vt/Screen/Erase.antt =====
-- The erasing methods on a valid screen.
use constellate.Common.{
  ℕ, ◌+◌, ◌-◌, ◌≤◌, ◌<◌, ◌≡◌, Option, none, some, Word, add_int, add_int-small, length,
  length-replicate, arith, ◌>>=◌,
}
use constellate.Vt.Screen.{
  Grid, Screen, rounds, fill_cells, fill_rows, with_cells, pen_cell, blank_pen_row, erase_to_end,
  erase_from_start, erase_in_display, erase_in_line, erase_chars,
}
use constellate.Vt.Screen.Valid.{
  IsGrid, IsValid, Sound, SoundGrid, rounds-small, rounds_to-small, with_cells-Sound,
  fill_cells-IsGrid, fill_rows-IsGrid,
}

length-blank_pen_row : (s : Screen) → length (blank_pen_row s) ≡ s.cols
unfolding blank_pen_row
length-blank_pen_row s = length-replicate s.cols _

-- `K`/`J` mode 1 at a cursor that stands past the last column is the one case left out.
abbrev pub ErasesInBounds : Word → Screen → Type 0
ErasesInBounds mode s = mode ≡ 1 → s.cx < s.cols

module _ (s : Screen) (v : IsValid s) where
  to_end-IsGrid : SoundGrid s.cols s.rows (erase_to_end s)
  unfolding erase_to_end
  to_end-IsGrid =
      rw
        (rounds-small s.cx s.cols (omega (arith, v.cx_le, v.cols_small))
          (omega (arith, v.cols_small)))
        (fill_cells-IsGrid s.cols s.rows _ s.cells s.cy s.cx _ v.grid v.cy_lt
          (omega (arith, v.cx_le)))

  from_start-IsGrid :
      (g : Grid)
      → IsGrid s.cols s.rows g
      → s.cx < s.cols
      → SoundGrid s.cols s.rows (erase_from_start g s)
  unfolding erase_from_start
  from_start-IsGrid g w h =
      rw (rounds_to-small 0 s.cx (omega arith) (omega (arith, v.cx_le, v.cols_small)))
        (fill_cells-IsGrid s.cols s.rows _ g s.cy 0 _ w v.cy_lt (omega arith))

  rows-IsGrid :
      (k y : ℕ) (g : Grid)
      → IsGrid s.cols s.rows g
      → y + k ≤ s.rows
      → SoundGrid s.cols s.rows (fill_rows k g y (blank_pen_row s))
  rows-IsGrid k y g w h = fill_rows-IsGrid s.cols s.rows k g y _ w h (length-blank_pen_row s)

  whole-Sound : Sound s (with_cells s (fill_rows (rounds 0 s.rows) s.cells 0 (blank_pen_row s)))
  whole-Sound =
      rw (rounds-small 0 s.rows (omega arith) (omega (arith, v.rows_small)))
        (with_cells-Sound s _ v (rows-IsGrid _ 0 s.cells v.grid (omega arith)))

  below-Sound : Sound s (
      with_cells s (
        erase_to_end s >>= λ g.
        fill_rows (rounds (add_int s.cy 1) s.rows) g (add_int s.cy 1) (blank_pen_row s)))
  below-Sound =
      rw
        (
          add_int-small s.cy 1 (omega (arith, v.cy_lt, v.rows_small)),
          rounds-small (s.cy + 1) s.rows (omega (arith, v.cy_lt, v.rows_small))
              (omega (arith, v.rows_small)),
        )
        (with_cells-Sound s _ v (after (erase_to_end s) to_end-IsGrid))
    where
      after :
          (o : Option Grid)
          → SoundGrid s.cols s.rows o
          → SoundGrid s.cols s.rows
              (o >>= λ g. fill_rows (s.rows - (s.cy + 1)) g (s.cy + 1) (blank_pen_row s))
      after none w = w
      after (some g) w = rows-IsGrid _ _ g w (omega (arith, v.cy_lt))

  above-Sound :
      s.cx < s.cols
      → Sound s (
          with_cells s
            (fill_rows (rounds 0 s.cy) s.cells 0 (blank_pen_row s) >>= λ g. erase_from_start g s))
  above-Sound h = rw (rounds-small 0 s.cy (omega arith) (omega (arith, v.cy_lt, v.rows_small))) (
      with_cells-Sound s _ v (
        after (fill_rows (s.cy - 0) s.cells 0 (blank_pen_row s))
          (rows-IsGrid _ 0 s.cells v.grid (omega (arith, v.cy_lt)))))
    where
      after :
          (o : Option Grid)
          → SoundGrid s.cols s.rows o
          → SoundGrid s.cols s.rows (o >>= λ g. erase_from_start g s)
      after none w = w
      after (some g) w = from_start-IsGrid g w h

  pub erase_in_display-Sound :
      (mode : Word) → ErasesInBounds mode s → Sound s (erase_in_display mode s)
  unfolding erase_in_display
  erase_in_display-Sound mode h = ground (arith, below-Sound, above-Sound, whole-Sound, h)

  line-Sound :
      (k x : ℕ) → x + k ≤ s.cols → Sound s (with_cells s (fill_cells k s.cells s.cy x (pen_cell s)))
  line-Sound k x h =
      with_cells-Sound s _ v (fill_cells-IsGrid s.cols s.rows k s.cells s.cy x _ v.grid v.cy_lt h)

  pub erase_in_line-Sound : (mode : Word) → ErasesInBounds mode s → Sound s (erase_in_line mode s)
  unfolding erase_in_line
  erase_in_line-Sound mode h = ground (
    arith,
    with_cells-Sound s (erase_to_end s) v to_end-IsGrid,
    λ (c : s.cx < s.cols).
        with_cells-Sound s (erase_from_start s.cells s) v (from_start-IsGrid s.cells v.grid c),
    rounds-small 0 s.cols,
    line-Sound s.cols 0,
    h,
  )

  pub erase_chars-Sound : (n : Word) → Sound s (erase_chars n s)
  unfolding erase_chars
  erase_chars-Sound n =
      rw
        (rounds-small s.cx s.cols (omega (arith, v.cx_le, v.cols_small))
          (omega (arith, v.cols_small)))
        (line-Sound _ s.cx (omega (arith, v.cx_le)))
