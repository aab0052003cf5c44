-- ===== src/Vt/Screen/Valid.antt =====
-- The invariant of a screen, and the loops over its cells inside their bounds.
use constellate.Common.{
  ℕ, zero, suc, ◌+◌, ◌-◌, ◌≤◌, ◌<◌, ◌^◌, ◌≡◌, refl, ◌∙◌, Option, none, some, List, Word, small,
  lt_int-small, le_int-small, sub_int-small, length, set, All, All-set, All-get, All-replicate,
  length-set, length-replicate, get_elem?-some, arith,
}
use constellate.Vt.Screen.{
  Cell, Grid, Screen, blank_row, alloc_grid, new_screen, rounds, rounds_to, put_row, put_cell,
  with_cells, fill_cells, fill_rows,
}

-- `rows` rows of `cols` cells
pub record IsGrid (cols rows : Word) (g : Grid) : Type 0 where
  pub height : length g ≡ rows
  pub widths : All (λ r. length r ≡ cols) g

-- The cursor may stand one past the last column, where the next character wraps.
pub record IsValid (s : Screen) : Type 0 where
  pub cols_pos : 0 < s.cols
  pub cols_small : s.cols < small
  pub rows_pos : 0 < s.rows
  pub rows_small : s.rows < small
  pub grid : IsGrid s.cols s.rows s.cells
  pub cx_le : s.cx ≤ s.cols
  pub cy_lt : s.cy < s.rows
  pub top_pos : 0 < s.scroll_top
  pub top_le : s.scroll_top ≤ s.scroll_bottom
  pub bottom_le : s.scroll_bottom ≤ s.rows

-- No panic, a valid screen, and the same size.
abbrev pub Sound : Screen → Option Screen → Type 0
Sound s none = ⊥
Sound s (some t) = IsValid t × (t.cols ≡ s.cols) × (t.rows ≡ s.rows)

abbrev pub SoundGrid : Word → Word → Option Grid → Type 0
SoundGrid cols rows none = ⊥
SoundGrid cols rows (some g) = IsGrid cols rows g

-- Signed operations on values below 2 ^ 33 are those of the natural numbers.
pub rounds-small : (a b : Word) → a < 2 ^ 33 → b < 2 ^ 33 → rounds a b ≡ b - a
unfolding rounds
rounds-small a b h k = ground (arith, lt_int-small a b, sub_int-small b a)

pub rounds_to-small : (a b : Word) → a < 2 ^ 33 → b < 2 ^ 33 → rounds_to a b ≡ suc b - a
unfolding rounds_to
rounds_to-small a b h k = ground (arith, le_int-small a b, sub_int-small b a)

pub rounds-zero : (b : Word) → b < 2 ^ 33 → rounds 0 b ≡ b
rounds-zero b h = rounds-small 0 b (omega arith) h ∙ omega arith

pub rounds_to-zero : (b : Word) → b < 2 ^ 33 → rounds_to 0 b ≡ suc b
rounds_to-zero b h = rounds_to-small 0 b (omega arith) h ∙ omega arith

module _ (cols rows : Word) where
  pub put_row-IsGrid :
      (g : Grid) (y : Word) (row : List Cell)
      → IsGrid cols rows g
      → y < rows
      → length row ≡ cols
      → (put_row g y row ≡ some (set g y row)) × IsGrid cols rows (set g y row)
  unfolding put_row
  put_row-IsGrid g y row v h e = (
    ground (arith, v.height),
    record {
      height = length-set g y row ∙ v.height;
      widths = All-set (λ r. length r ≡ cols) g y row v.widths e;
    },
  )

  pub put_cell-IsGrid :
      (g : Grid) (y x : Word) (c : Cell)
      → IsGrid cols rows g
      → y < rows
      → x < cols
      → (g' : Grid) × (put_cell g y x c ≡ some g') × IsGrid cols rows g'
  unfolding put_cell
  put_cell-IsGrid g y x c v h k =
      let (row, e) = get_elem?-some g y (omega (arith, v.height)) in
      let w = All-get (λ r. length r ≡ cols) g y row v.widths e in
      (
        set g y (set row x c),
        rw e (ground (arith, w)),
        record {
          height = length-set g y _ ∙ v.height;
          widths = All-set (λ r. length r ≡ cols) g y _ v.widths (length-set row x c ∙ w);
        },
      )

  pub fill_cells-IsGrid :
      (k : ℕ) (g : Grid) (y x : Word) (c : Cell)
      → IsGrid cols rows g
      → y < rows
      → x + k ≤ cols
      → SoundGrid cols rows (fill_cells k g y x c)
  unfolding fill_cells
  fill_cells-IsGrid zero g y x c v h b = v
  fill_cells-IsGrid (suc k) g y x c v h b =
      let (g', e, v') = put_cell-IsGrid g y x c v h (omega arith) in
      rw e (fill_cells-IsGrid k g' y (x + 1) c v' h (omega arith))

  pub fill_rows-IsGrid :
      (k : ℕ) (g : Grid) (y : Word) (row : List Cell)
      → IsGrid cols rows g
      → y + k ≤ rows
      → length row ≡ cols
      → SoundGrid cols rows (fill_rows k g y row)
  unfolding fill_rows
  fill_rows-IsGrid zero g y row v b e = v
  fill_rows-IsGrid (suc k) g y row v b e =
      let (p, v') = put_row-IsGrid g y row v (omega arith) e in
      rw p (fill_rows-IsGrid k (set g y row) (y + 1) row v' (omega arith) e)

pub length-blank_row : (cols : Word) → length (blank_row cols) ≡ cols
unfolding blank_row
length-blank_row cols = length-replicate cols _

pub alloc_grid-IsGrid : (cols rows : Word) → IsGrid cols rows (alloc_grid cols rows)
unfolding alloc_grid
alloc_grid-IsGrid cols rows = record {
  height = length-replicate rows _;
  widths = All-replicate (λ r. length r ≡ cols) rows _ (length-blank_row cols);
}

pub new_screen-IsValid :
    (cols rows : Word)
    → 0 < cols
    → cols < small
    → 0 < rows
    → rows < small
    → IsValid (new_screen cols rows)
unfolding new_screen
new_screen-IsValid cols rows a b c d = record {
  cols_pos = a;
  cols_small = b;
  rows_pos = c;
  rows_small = d;
  grid = alloc_grid-IsGrid cols rows;
  cx_le = omega arith;
  cy_lt = c;
  top_pos = omega arith;
  top_le = c;
  bottom_le = omega arith;
}

pub with_cells-Sound :
    (s : Screen) (g : Option Grid)
    → IsValid s
    → SoundGrid s.cols s.rows g
    → Sound s (with_cells s g)
with_cells-Sound s (some g) v w = (ground (arith, w), refl, refl)
with_cells-Sound s none v w = w

-- A valid screen of the same size may take the place of the first.
pub Sound-trans :
    (s t : Screen) (o : Option Screen) → t.cols ≡ s.cols → t.rows ≡ s.rows → Sound t o → Sound s o
Sound-trans s t none c r h = h
Sound-trans s t (some u) c r h = (h.0, h.1 ∙ c, h.2 ∙ r)

pub new_screen_size :
    (cols rows : Word) → ((new_screen cols rows).cols ≡ cols) × ((new_screen cols rows).rows ≡ rows)
unfolding new_screen
new_screen_size cols rows = (refl, refl)
