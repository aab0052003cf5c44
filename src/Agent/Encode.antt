-- ===== src/Agent/Encode.antt =====
-- internal/agent/adapter/primary/hubclient/snapshot_encode.go: a screen as runs of equal style.
-- The text of a run is the list of its characters, which a Go string of valid ones stands for.
pub mod RoundTrip
use constellate.Common.{
  ℕ, zero, suc, ◌==◌, Bool, true, false, ◌&&◌, if◌then◌else◌, Option, none, some, List, [], ◌∷◌,
  ◌++◌, ◌>>=◌, Word, get_elem?,
}
use constellate.Maps.{Text}
use constellate.Vt.Screen.{Cell}

-- `Cursor` and `Screen` of the domain, and `SessionScreen`
pub record Cursor : Type 0 where
  pub x : Word
  pub y : Word
  pub visible : Bool

pub record SessionScreen : Type 0 where
  pub id : Text
  pub cols : ℕ
  pub rows : ℕ
  pub cells : List (List Cell)
  pub cursor : Cursor
  pub rev : ℕ

-- `SnapRun`
pub record Run : Type 0 where
  pub text : List ℕ
  pub fg : Word
  pub bg : Word
  pub attrs : ℕ

-- `Snapshot`; a line is its runs.
pub record Snapshot : Type 0 where
  pub session_id : Text
  pub machine_id : Text
  pub cols : ℕ
  pub rows : ℕ
  pub cursor : Cursor
  pub lines : List (List Run)
  pub rev : ℕ

-- A run that starts with a cell.
unfoldable pub start_run : Cell → Run
start_run c = record { text = c.rune ∷ []; fg = c.fg; bg = c.bg; attrs = c.attrs }

unfoldable pub same_style : Cell → Run → Bool
same_style c r = c.fg == r.fg && c.bg == r.bg && c.attrs == r.attrs

unfoldable pub extend_run : Cell → Run → Run
extend_run c r = record r { text = r.text ++ (c.rune ∷ []) }

-- The loop over the cells behind the first, with the run that is being read; its text is never
-- empty, so that `flush` always adds it.
unfoldable pub runs_from : Run → List Cell → List Run
runs_from r [] = r ∷ []
runs_from r (c ∷ cs) =
    let longer = runs_from (extend_run c r) cs in
    let next = runs_from (start_run c) cs in if same_style c r then longer else r ∷ next

-- `isAllSpaces`
unfoldable pub is_all_spaces : List ℕ → Bool
is_all_spaces [] = true
is_all_spaces (c ∷ cs) = if c == b' ' then is_all_spaces cs else false

-- `last.FG == 0 && last.BG == 0 && last.Attrs == 0 && isAllSpaces(last.Text)`
unfoldable pub is_blank : Run → Bool
is_blank r = r.fg == 0 && r.bg == 0 && r.attrs == 0 && is_all_spaces r.text

abbrev pub keep_run : Run → List Run → List Run
keep_run r [] = if is_blank r then [] else r ∷ []
keep_run r (s ∷ rest) = r ∷ s ∷ rest

-- The loop that drops the last run as long as it is blank.
unfoldable pub drop_blank : List Run → List Run
drop_blank [] = []
drop_blank (r ∷ rs) = keep_run r (drop_blank rs)

unfoldable pub encode_row : List Cell → List Run
encode_row [] = []
encode_row (c ∷ cs) = drop_blank (runs_from (start_run c) cs)

-- The loop over the rows, `n` of them from `y` on; an index out of range panics.
unfoldable pub encode_rows : ℕ → ℕ → List (List Cell) → Option (List (List Run))
encode_rows zero y cells = some []
encode_rows (suc n) y cells = do
  row ← get_elem? cells y
  lines ← encode_rows n (suc y) cells
  some (encode_row row ∷ lines)

-- `encodeSnapshot`
unfoldable pub encode_snapshot : SessionScreen → Text → Option Snapshot
encode_snapshot s machine_id = do
  lines ← encode_rows s.rows 0 s.cells
  some record {
    session_id = s.id;
    machine_id = machine_id;
    cols = s.cols;
    rows = s.rows;
    cursor = s.cursor;
    lines = lines;
    rev = s.rev;
  }
