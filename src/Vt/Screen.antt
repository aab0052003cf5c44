-- ===== src/Vt/Screen.antt =====
-- The `screen` type of internal/agent/adapter/secondary/vt/emulator.go, with
-- internal/agent/domain/terminal/screen.go's cells, and what the emulator's methods do to the
-- current screen. `none` is an index or a slice bound out of range, on which Go panics.
-- No two rows share storage after any of these, so rows are values.
pub mod Valid
pub mod Draw
pub mod Erase
pub mod Scroll
pub mod Shift
pub mod Blanks
pub mod Outside
pub mod Contents
pub mod Erased
use constellate.Common.{
  ℕ, zero, suc, ◌+◌, ◌-◌, ◌*◌, ◌/◌, ◌%◌, ◌^◌, min, Bool, ◌&&◌, Option, none, some, List, ◌>>=◌,
  Word, add_int, sub_int, lt_int, le_int, leb, ltb, ◌==◌, if◌then◌else◌, length, get_elem?, set,
  take, drop, replicate, overwrite,
}

pub record Cell : Type 0 where
  pub rune : ℕ
  pub fg : Word
  pub bg : Word
  pub attrs : ℕ

abbrev pub color_default : Word
color_default = 0

abbrev pub blank_cell : Cell
blank_cell = record { rune = b' '; fg = color_default; bg = color_default; attrs = 0 }

abbrev pub Grid : Type 0
Grid = List (List Cell)

pub record Screen : Type 0 where
  pub cols : Word
  pub rows : Word
  pub cells : Grid
  pub cx : Word
  pub cy : Word
  pub fg : Word
  pub bg : Word
  pub attrs : ℕ
  pub scroll_top : Word
  pub scroll_bottom : Word

pub blank_row : Word → List Cell
blank_row cols = replicate cols blank_cell

pub alloc_grid : Word → Word → Grid
alloc_grid cols rows = replicate rows (blank_row cols)

unfoldable pub new_screen : Word → Word → Screen
new_screen cols rows = record {
  cols = cols;
  rows = rows;
  cells = alloc_grid cols rows;
  cx = 0;
  cy = 0;
  fg = 0;
  bg = 0;
  attrs = 0;
  scroll_top = 1;
  scroll_bottom = rows;
}

-- The iterations of `for x := lo; x < hi; x++`.
pub rounds : Word → Word → ℕ
rounds lo hi = if lt_int lo hi then sub_int hi lo else 0

-- `xs[lo:hi]` and `xs[lo:]`, of a slice whose capacity is its length
pub slice : {A : Type 0} → List A → Word → Word → Option (List A)
slice xs lo hi =
    if leb lo hi && leb hi (length xs) then some (take (hi - lo) (drop lo xs)) else none

pub slice_from : {A : Type 0} → List A → Word → Option (List A)
slice_from xs lo = if leb lo (length xs) then some (drop lo xs) else none

-- `cells[y] = row`
pub put_row : Grid → Word → List Cell → Option Grid
put_row cells y row = if ltb y (length cells) then some (set cells y row) else none

-- `cells[y][x] = c`
pub put_cell : Grid → Word → Word → Cell → Option Grid
put_cell cells y x c = get_elem? cells y >>= λ row.
    if ltb x (length row) then some (set cells y (set row x c)) else none

-- The loop that writes `c` to cells[y][x], cells[y][x+1], …
pub fill_cells : ℕ → Grid → Word → Word → Cell → Option Grid
fill_cells zero cells y x c = some cells
fill_cells (suc k) cells y x c = put_cell cells y x c >>= λ g. fill_cells k g y (x + 1) c

-- The loop that makes `row` of each of the rows y, y+1, …
pub fill_rows : ℕ → Grid → Word → List Cell → Option Grid
fill_rows zero cells y row = some cells
fill_rows (suc k) cells y row = put_row cells y row >>= λ g. fill_rows k g (y + 1) row

-- `copy(newGrid[y][:copyCols], s.cells[y][:copyCols])` for y, y+1, …
pub copy_rows : ℕ → Word → Word → Grid → Grid → Option Grid
copy_rows zero n y old new = some new
copy_rows (suc k) n y old new = do
  src ← get_elem? old y
  dst ← get_elem? new y
  src' ← slice src 0 n
  dst' ← slice dst 0 n
  copy_rows k n (y + 1) old (set new y (overwrite dst 0 (take (length dst') src')))

pub clamp_below : Word → Word → Word
clamp_below v limit = if le_int limit v then sub_int limit 1 else v

pub min_int : Word → Word → Word
min_int a b = if lt_int b a then b else a

pub resize : Word → Word → Screen → Option Screen
resize cols rows s =
    copy_rows (rounds 0 (min_int rows s.rows)) (min_int cols s.cols) 0 s.cells
      (alloc_grid cols rows)
    >>= λ g. some (record s {
      cols = cols;
      rows = rows;
      cells = g;
      cx = clamp_below s.cx cols;
      cy = clamp_below s.cy rows;
      scroll_top = 1;
      scroll_bottom = rows;
    })

-- `effectiveScrollRegion`, its two results
pub region_top : Screen → Word
region_top s = let top = sub_int s.scroll_top 1 in if lt_int top 0 then 0 else top

pub region_bottom : Screen → Word
region_bottom s =
    let bot = sub_int s.scroll_bottom 1 in if le_int s.rows bot then sub_int s.rows 1 else bot

abbrev pub pen_cell : Screen → Cell
pen_cell s = record { rune = b' '; fg = s.fg; bg = s.bg; attrs = s.attrs }

pub blank_pen_row : Screen → List Cell
blank_pen_row s = replicate s.cols (pen_cell s)

abbrev pub with_cells : Screen → Option Grid → Option Screen
with_cells s g = g >>= λ c. some (record s { cells = c })

-- `if n > bot-top+1 { n = bot - top + 1 }`
pub scroll_count : Word → Word → Word → Word
scroll_count top bot n = min_int n (add_int (sub_int bot top) 1)

-- the number of lines y with lo <= y <= hi
pub rounds_to : Word → Word → ℕ
rounds_to lo hi = if le_int lo hi then sub_int hi lo + 1 else 0

pub scroll_rows_up : Grid → Word → Word → Word → List Cell → Option Grid
scroll_rows_up cells top bot n blank = do
  dst ← slice cells top (add_int bot 1)
  src ← slice cells (add_int top n) (add_int bot 1)
  let y0 = add_int (sub_int bot n) 1
  fill_rows (rounds_to y0 bot) (overwrite cells top (take (length dst) src)) y0 blank

pub scroll_up : Word → Word → Word → Screen → Option Screen
scroll_up top bot n s =
    if le_int n 0
    then some s
    else with_cells s (scroll_rows_up s.cells top bot (scroll_count top bot n) (blank_row s.cols))

-- `for y := bot; y >= top+n; y-- { s.cells[y] = s.cells[y-n] }`
pub shift_down : ℕ → Grid → Word → Word → Option Grid
shift_down zero cells y n = some cells
shift_down (suc k) cells y n = do
  row ← get_elem? cells (sub_int y n)
  g ← put_row cells y row
  shift_down k g (sub_int y 1) n

pub scroll_rows_down : Grid → Word → Word → Word → List Cell → Option Grid
scroll_rows_down cells top bot n blank =
    shift_down (rounds_to (add_int top n) bot) cells bot n >>= λ g.
    fill_rows (rounds top (add_int top n)) g top blank

pub scroll_down : Word → Word → Word → Screen → Option Screen
scroll_down top bot n s =
    if le_int n 0
    then some s
    else with_cells s (scroll_rows_down s.cells top bot (scroll_count top bot n) (blank_row s.cols))

pub line_feed : Screen → Option Screen
line_feed s =
    let bot = region_bottom s in
    if lt_int s.cy bot
    then some (record s { cy = add_int s.cy 1 })
    else if s.cy == bot
    then scroll_up (region_top s) bot 1 s
    else some s

-- `case 'M'` of `dispatchESC`: reverse index
pub reverse_index : Screen → Option Screen
reverse_index s =
    let top = region_top s in
    if lt_int top s.cy
    then some (record s { cy = sub_int s.cy 1 })
    else scroll_down top (region_bottom s) 1 s

pub put_rune : ℕ → Screen → Option Screen
put_rune r s = do
  g ← put_cell s.cells s.cy s.cx (record { rune = r; fg = s.fg; bg = s.bg; attrs = s.attrs })
  some (record s { cells = g; cx = add_int s.cx 1 })

pub print_rune : ℕ → Screen → Option Screen
print_rune r s =
    if le_int s.cols s.cx then line_feed (record s { cx = 0 }) >>= put_rune r else put_rune r s

-- Go's division truncates towards zero.
div_int8 : Word → Word
div_int8 x = if ltb x (2 ^ 63) then x / 8 else sub_int 0 (sub_int 0 x / 8)

pub tab : Screen → Screen
unfolding div_int8
tab s =
    let next = add_int (div_int8 s.cx) 1 * 8 % 2 ^ 64 in
    record s { cx = if le_int s.cols next then sub_int s.cols 1 else next }

-- Erase operations.
pub erase_to_end : Screen → Option Grid
erase_to_end s = fill_cells (rounds s.cx s.cols) s.cells s.cy s.cx (pen_cell s)

-- `for x := 0; x <= s.cx; x++`
pub erase_from_start : Grid → Screen → Option Grid
erase_from_start g s = fill_cells (rounds_to 0 s.cx) g s.cy 0 (pen_cell s)

pub erase_in_display : Word → Screen → Option Screen
erase_in_display mode s =
    if mode == 0
    then with_cells s (
        erase_to_end s >>= λ g.
        fill_rows (rounds (add_int s.cy 1) s.rows) g (add_int s.cy 1) (blank_pen_row s))
    else if mode == 1
    then with_cells s
        (fill_rows (rounds 0 s.cy) s.cells 0 (blank_pen_row s) >>= λ g. erase_from_start g s)
    else if mode == 2
    then with_cells s (fill_rows (rounds 0 s.rows) s.cells 0 (blank_pen_row s))
    else if mode == 3
    then with_cells s (fill_rows (rounds 0 s.rows) s.cells 0 (blank_pen_row s))
    else some s

pub erase_in_line : Word → Screen → Option Screen
erase_in_line mode s =
    if mode == 0
    then with_cells s (erase_to_end s)
    else if mode == 1
    then with_cells s (erase_from_start s.cells s)
    else if mode == 2
    then with_cells s (fill_cells (rounds 0 s.cols) s.cells s.cy 0 (pen_cell s))
    else some s

-- `for i := 0; i < n && s.cx+i < s.cols; i++`
pub erase_chars : Word → Screen → Option Screen
erase_chars n s =
    with_cells s (fill_cells (min (rounds 0 n) (rounds s.cx s.cols)) s.cells s.cy s.cx (pen_cell s))

-- `max`, and `n` clamped to 1..max, of `insertChars` and `deleteChars`
pub room : Screen → Word
room s = sub_int s.cols s.cx

pub char_count : Word → Screen → Word
char_count n s = min_int (if lt_int n 1 then 1 else n) (room s)

-- `insertChars` and `deleteChars` behind the test `max <= 0`
pub insert_chars : Word → Screen → Option Screen
insert_chars n s = do
  let k = char_count n s
  row ← get_elem? s.cells s.cy
  dst ← slice_from row (add_int s.cx k)
  src ← slice_from row s.cx
  let row' = overwrite row (add_int s.cx k) (take (length dst) src)
  with_cells s (fill_cells (rounds 0 k) (set s.cells s.cy row') s.cy s.cx (pen_cell s))

pub delete_chars : Word → Screen → Option Screen
delete_chars n s = do
  let k = char_count n s
  row ← get_elem? s.cells s.cy
  dst ← slice_from row s.cx
  src ← slice_from row (add_int s.cx k)
  let x0 = sub_int s.cols k
  let row' = overwrite row s.cx (take (length dst) src)
  with_cells s (fill_cells (rounds x0 s.cols) (set s.cells s.cy row') s.cy x0 (pen_cell s))
