-- ===== src/Vt/Screen/Shift.antt =====
-- Inserting and deleting characters in the cursor's line.
use constellate.Common.{
  le_int, le_int-small, false, ◌+◌, ◌-◌, ◌≤◌, ◌<◌, ◌^◌, ◌≡◌, ◌∙◌, some, List, Word, lt_int-small,
  lt_int-negative, sub_int-small, add_int-small, length, set, drop, All-set, All-get, length-set,
  length-overwrite, get_elem?-some, arith,
}
use constellate.Vt.Screen.{
  Cell, Screen, slice_from, room, char_count, min_int, insert_chars, delete_chars,
}
use constellate.Vt.Screen.Valid.{
  IsGrid, IsValid, Sound, rounds-small, with_cells-Sound, fill_cells-IsGrid,
}

pub slice_from-some :
    {A : Type 0} (xs : List A) (lo : Word) → lo ≤ length xs → slice_from xs lo ≡ some (drop lo xs)
unfolding slice_from
slice_from-some xs lo h = ground arith

module _ (s : Screen) (v : IsValid s) (n : Word) (n_lt : n < 2 ^ 64) (cx_lt : s.cx < s.cols) where
  pub char_count-bounds : (0 < char_count n s) × (char_count n s ≤ s.cols - s.cx)
  unfolding char_count room min_int
  char_count-bounds =
      rw (sub_int-small s.cols s.cx (omega arith) (omega (arith, v.cols_small)))
        (elim (native.Mathlib.Decide.dec_lt n (2 ^ 63)) [
          | yes p ↦ (
            ground (
              arith,
              lt_int-small n 1,
              lt_int-small (s.cols - s.cx) n,
              lt_int-small (s.cols - s.cx) 1,
              v.cols_small,
            ),
            ground (
              arith,
              lt_int-small n 1,
              lt_int-small (s.cols - s.cx) n,
              lt_int-small (s.cols - s.cx) 1,
              v.cols_small,
            ),
          )
          | no p ↦ (
            ground (arith, lt_int-negative n 1, lt_int-small (s.cols - s.cx) 1, v.cols_small),
            ground (arith, lt_int-negative n 1, lt_int-small (s.cols - s.cx) 1, v.cols_small),
          )
        ])

  row_set-IsGrid :
      (row : List Cell) → length row ≡ s.cols → IsGrid s.cols s.rows (set s.cells s.cy row)
  row_set-IsGrid row e = record {
    height = length-set s.cells s.cy row ∙ v.grid.height;
    widths = All-set (λ r. length r ≡ s.cols) s.cells s.cy row v.grid.widths e;
  }

  -- On a valid screen with the cursor left of the right margin, inserting any count of characters,
  -- negative ones included, never panics and keeps the screen valid and of its size.
  pub insert_chars-Sound : Sound s (insert_chars n s)
  unfolding insert_chars
  insert_chars-Sound =
      let (row, e) = get_elem?-some s.cells s.cy (omega (arith, v.cy_lt, v.grid.height)) in
      let len = All-get (λ r. length r ≡ s.cols) s.cells s.cy row v.grid.widths e in
      let (lo, hi) = char_count-bounds in
      rw
        (
          e,
          add_int-small s.cx (char_count n s) (omega (arith, v.cols_small)),
          slice_from-some row (s.cx + char_count n s) (omega arith),
          slice_from-some row s.cx (omega arith),
          rounds-small 0 (char_count n s) (omega arith) (omega (arith, v.cols_small)),
        )
        (with_cells-Sound s _ v (
          fill_cells-IsGrid s.cols s.rows _ _ s.cy s.cx _
            (row_set-IsGrid _ (length-overwrite row _ _ ∙ len)) v.cy_lt (omega arith)))

  pub delete_chars-Sound : Sound s (delete_chars n s)
  unfolding delete_chars
  delete_chars-Sound =
      let (row, e) = get_elem?-some s.cells s.cy (omega (arith, v.cy_lt, v.grid.height)) in
      let len = All-get (λ r. length r ≡ s.cols) s.cells s.cy row v.grid.widths e in
      let (lo, hi) = char_count-bounds in
      rw
        (
          e,
          add_int-small s.cx (char_count n s) (omega (arith, v.cols_small)),
          slice_from-some row s.cx (omega arith),
          slice_from-some row (s.cx + char_count n s) (omega arith),
          sub_int-small s.cols (char_count n s) (omega arith) (omega (arith, v.cols_small)),
          rounds-small (s.cols - char_count n s) s.cols (omega (arith, v.cols_small))
              (omega (arith, v.cols_small)),
        )
        (with_cells-Sound s _ v (
          fill_cells-IsGrid s.cols s.rows _ _ s.cy _ _
            (row_set-IsGrid _ (length-overwrite row _ _ ∙ len)) v.cy_lt (omega arith)))

pub room-pos : (s : Screen) → IsValid s → le_int (room s) 0 ≡ false → s.cx < s.cols
unfolding room
room-pos s v h =
    ground (arith, sub_int-small s.cols s.cx, le_int-small (s.cols - s.cx) 0, v.cx_le, v.cols_small)
