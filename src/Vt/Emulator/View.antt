-- ===== src/Vt/Emulator/View.antt =====
-- emulator.go: `Render`, `PromptState` and `TailText`, which read the current screen.
pub mod Rendered
use constellate.Common.{
  ℕ, zero, suc, ◌+◌, ◌-◌, ◌%◌, ◌^◌, Bool, true, false, ◌||◌, ◌==◌, if◌then◌else◌, Option, none,
  some, List, [], ◌∷◌, ◌>>=◌, Word, lt_int, le_int, sub_int, get_elem?, replicate, overwrite,
}
use constellate.Vt.Screen.{Cell, Screen, Grid, color_default}
use constellate.Vt.Emulator.State.{Emulator, PromptState, cur}

-- `terminal.Screen` and its `Cursor`
pub record Rendering : Type 0 where
  pub cols : Word
  pub rows : Word
  pub x : Word
  pub y : Word
  pub visible : Bool
  pub cells : Grid

-- What `make` fills a row with.
abbrev pub zero_cell : Cell
zero_cell = record { rune = 0; fg = 0; bg = 0; attrs = 0 }

-- The loop over the rows: each is copied into a new one of `cols` cells.
unfoldable pub render_rows : Word → ℕ → Grid → Option Grid
render_rows cols zero rows = some []
render_rows cols (suc n) [] = none
render_rows cols (suc n) (row ∷ rows) =
    render_rows cols n rows >>= λ rest. some (overwrite (replicate cols zero_cell) 0 row ∷ rest)

-- `e.dirty` is reset as the revision advances.
unfoldable pub settle : Emulator → Emulator
settle e = record e { rev = if e.dirty then (e.rev + 1) % 2 ^ 64 else e.rev; dirty = false }

-- `Render`: the screen, its revision and the emulator behind it.
unfoldable pub render : Emulator → Option (Rendering × ℕ × Emulator)
render e = render_rows e.cols e.rows (cur e).cells >>= λ cells. some (
  record {
    cols = e.cols;
    rows = e.rows;
    x = (cur e).cx;
    y = (cur e).cy;
    visible = e.cursor_visible;
    cells = cells;
  },
  (settle e).rev,
  settle e,
)

-- `PromptState`
unfoldable pub prompt_state : Emulator → PromptState
prompt_state e = e.prompt_state

abbrev pub shown : ℕ → ℕ
shown r = if r == 0 then b' ' else r

-- `strings.TrimRight(…, " ")` of the characters of a row: blanks are kept only before another
-- character.
unfoldable pub before_blanks : ℕ → List ℕ → List ℕ
before_blanks r [] = if r == b' ' then [] else r ∷ []
before_blanks r (c ∷ cs) = r ∷ c ∷ cs

unfoldable pub row_text : List Cell → List ℕ
row_text [] = []
row_text (c ∷ cs) = before_blanks (shown c.rune) (row_text cs)

-- The loop over the rows above: `y` is the number of rows that are left. `none` is a panic.
unfoldable pub first_text : List ℕ → Option (List ℕ) → Option (List ℕ)
first_text [] above = above
first_text (c ∷ cs) above = some (c ∷ cs)

unfoldable pub text_above : ℕ → Grid → Option (List ℕ)
text_above zero rows = some []
text_above (suc y) rows =
    let above = text_above y rows in get_elem? rows y >>= λ row. first_text (row_text row) above

-- The row of the cursor, or the last one.
unfoldable pub cursor_row : Screen → Word
cursor_row s = if lt_int s.cy 0 || le_int s.rows s.cy then sub_int s.rows 1 else s.cy

-- `TailText`: an index out of range panics, a negative one included.
unfoldable pub tail_text : Emulator → Option (List ℕ)
tail_text e =
    let y = cursor_row (cur e) in if lt_int y 0 then none else text_above (suc y) (cur e).cells
