-- ===== src/Vt/Screen/Scroll.antt =====
-- Scrolling inside a region, and the scroll region itself.
use constellate.Common.{
  ℕ, zero, suc, ◌+◌, ◌-◌, ◌≤◌, ◌<◌, ◌^◌, ◌≡◌, refl, ◌∙◌, Bool-cases, inl, inr, Option, none, some,
  List, Word, small, min, le_int, lt_int-small, le_int-small, sub_int-small, add_int-small,
  sub_int-add_one, le_int-false, length, set, take, drop, overwrite, All-get, All-overwrite,
  All-take, All-drop, length-overwrite, get_elem?-some, arith, ◌>>=◌,
}
use constellate.Vt.Screen.{
  Cell, Grid, Screen, slice, fill_rows, min_int, region_top, region_bottom, scroll_count,
  scroll_rows_up, scroll_up, shift_down, scroll_rows_down, scroll_down, line_feed, reverse_index,
}
use constellate.Vt.Screen.Valid.{
  IsGrid, IsValid, Sound, SoundGrid, rounds-small, rounds_to-small, fill_rows-IsGrid,
  length-blank_row, put_row-IsGrid, with_cells-Sound,
}

pub slice-some :
    {A : Type 0} (xs : List A) (lo hi : Word)
    → lo ≤ hi
    → hi ≤ length xs
    → slice xs lo hi ≡ some (take (hi - lo) (drop lo xs))
unfolding slice
slice-some xs lo hi h k = ground arith

pub region_top_lem : (s : Screen) → IsValid s → region_top s ≡ s.scroll_top - 1
unfolding region_top
region_top_lem s v = ground (arith, sub_int-small s.scroll_top 1, lt_int-small (s.scroll_top - 1) 0)

pub region_bottom_lem : (s : Screen) → IsValid s → region_bottom s ≡ s.scroll_bottom - 1
unfolding region_bottom
region_bottom_lem s v =
    ground (arith, sub_int-small s.scroll_bottom 1, le_int-small s.rows (s.scroll_bottom - 1))

scroll_count_lem :
    (top bot n : Word)
    → top ≤ bot
    → bot < small
    → n < 2 ^ 63
    → scroll_count top bot n ≡ min n (bot - top + 1)
unfolding scroll_count min_int
scroll_count_lem top bot n h k l =
    ground
      (arith, sub_int-small bot top, add_int-small (bot - top) 1, lt_int-small (bot - top + 1) n)

module _ (cols rows top bot n : Word) (g : Grid) (row : List Cell) (v : IsGrid cols rows g)
    (top_le : top ≤ bot) (bot_lt : bot < rows) (rows_small : rows < small) (n_pos : 0 < n)
    (n_le : n ≤ bot - top + 1) (row_len : length row ≡ cols) where
  copied : Grid
  copied = overwrite g top (
      take (length (take (bot + 1 - top) (drop top g)))
        (take (bot + 1 - (top + n)) (drop (top + n) g)))

  copied-IsGrid : IsGrid cols rows copied
  unfolding copied
  copied-IsGrid = record {
    height = length-overwrite g top _ ∙ v.height;
    widths =
        All-overwrite (λ r. length r ≡ cols) g top _ v.widths
          (All-take _ _ _ (All-take _ _ _ (All-drop _ (top + n) g v.widths)));
  }

  pub scroll_rows_up-IsGrid : SoundGrid cols rows (scroll_rows_up g top bot n row)
  unfolding scroll_rows_up copied
  scroll_rows_up-IsGrid =
      rw
        (
          add_int-small bot 1 (omega arith),
          add_int-small top n (omega arith),
          sub_int-add_one bot n (omega arith) (omega arith),
          slice-some g top (bot + 1) (omega arith) (omega (arith, v.height)),
          slice-some g (top + n) (bot + 1) (omega arith) (omega (arith, v.height)),
          rounds_to-small (bot + 1 - n) bot (omega arith) (omega arith),
        )
        (fill_rows-IsGrid cols rows _ _ _ row copied-IsGrid (omega arith) row_len)

  shift_down-IsGrid :
      (k : ℕ) (h : Grid) (y : Word)
      → IsGrid cols rows h
      → y < rows
      → k + n ≤ y + 1
      → SoundGrid cols rows (shift_down k h y n)
  unfolding shift_down
  shift_down-IsGrid zero h y w a b = w
  shift_down-IsGrid (suc k) h y w a b =
      let (r, e) = get_elem?-some h (y - n) (omega (arith, w.height)) in
      let len = All-get (λ r. length r ≡ cols) h (y - n) r w.widths e in
      let (p, w') = put_row-IsGrid cols rows h y r w a len in
      rw
        (
          sub_int-small y n (omega arith) (omega arith),
          e,
          p,
          sub_int-small y 1 (omega arith) (omega arith),
        )
        (shift_down-IsGrid k (set h y r) (y - 1) w' (omega arith) (omega arith))

  pub scroll_rows_down-IsGrid : SoundGrid cols rows (scroll_rows_down g top bot n row)
  unfolding scroll_rows_down
  scroll_rows_down-IsGrid =
      rw
        (
          add_int-small top n (omega arith),
          rounds_to-small (top + n) bot (omega arith) (omega arith),
          rounds-small top (top + n) (omega arith) (omega arith),
        )
        (filled (shift_down (suc bot - (top + n)) g bot n)
          (shift_down-IsGrid (suc bot - (top + n)) g bot v bot_lt (omega arith)))
    where
      filled :
          (o : Option Grid)
          → SoundGrid cols rows o
          → SoundGrid cols rows (o >>= λ h. fill_rows (top + n - top) h top row)
      filled none w = w
      filled (some h) w = fill_rows-IsGrid cols rows _ h top row w (omega arith) row_len

module _ (s : Screen) (v : IsValid s) (top bot n : Word) where
  pub scroll_up-Sound : top ≤ bot → bot < s.rows → n < 2 ^ 64 → Sound s (scroll_up top bot n s)
  unfolding scroll_up
  scroll_up-Sound a b c = elim (Bool-cases (le_int n 0)) [
    | inl le ↦ rw le (v, refl, refl)
    | inr gt ↦
        let (pos, neg) = le_int-false n c gt in
        rw (gt, scroll_count_lem top bot n a (omega (arith, v.rows_small)) neg)
          (with_cells-Sound s _ v (
            scroll_rows_up-IsGrid s.cols s.rows top bot _ s.cells _ v.grid a b v.rows_small
              (omega arith) (omega arith) (length-blank_row s.cols)))
  ]

  pub scroll_down-Sound : top ≤ bot → bot < s.rows → n < 2 ^ 64 → Sound s (scroll_down top bot n s)
  unfolding scroll_down
  scroll_down-Sound a b c = elim (Bool-cases (le_int n 0)) [
    | inl le ↦ rw le (v, refl, refl)
    | inr gt ↦
        let (pos, neg) = le_int-false n c gt in
        rw (gt, scroll_count_lem top bot n a (omega (arith, v.rows_small)) neg)
          (with_cells-Sound s _ v (
            scroll_rows_down-IsGrid s.cols s.rows top bot _ s.cells _ v.grid a b v.rows_small
              (omega arith) (omega arith) (length-blank_row s.cols)))
  ]

-- On a valid screen a line feed never panics, whatever the scroll region, and keeps the screen
-- valid and of its size.
pub line_feed-Sound : (s : Screen) → IsValid s → Sound s (line_feed s)
unfolding line_feed
line_feed-Sound s v =
    rw
      (
        region_bottom_lem s v,
        region_top_lem s v,
        lt_int-small s.cy (s.scroll_bottom - 1) (omega (arith, v.cy_lt, v.rows_small))
            (omega (arith, v.bottom_le, v.rows_small)),
      )
      (ground (
        arith,
        add_int-small s.cy 1,
        scroll_up-Sound s v (s.scroll_top - 1) (s.scroll_bottom - 1) 1,
      ))

pub reverse_index-Sound : (s : Screen) → IsValid s → Sound s (reverse_index s)
unfolding reverse_index
reverse_index-Sound s v =
    rw
      (
        region_bottom_lem s v,
        region_top_lem s v,
        lt_int-small (s.scroll_top - 1) s.cy (omega (arith, v.top_le, v.bottom_le, v.rows_small))
            (omega (arith, v.cy_lt, v.rows_small)),
      )
      (ground (
        arith,
        sub_int-small s.cy 1,
        scroll_down-Sound s v (s.scroll_top - 1) (s.scroll_bottom - 1) 1,
      ))
