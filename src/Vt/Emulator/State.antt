-- ===== src/Vt/Emulator/State.antt =====
-- The state of the emulator, and the methods that only touch it and the current screen.
pub mod Safe
pub mod Modes
pub mod Text
use constellate.Common.{
  ℕ, ◌+◌, ◌%◌, ◌^◌, Bool, true, false, ◌&&◌, ◌||◌, Option, some, [], ◌∷◌, ◌>>=◌, Word, lt_int,
  le_int, sub_int, ◌==◌, if◌then◌else◌,
}
use constellate.Vt.Parser.{Bytes, Parser, initial}
use constellate.Vt.Screen.{Screen, new_screen, clamp_below, tab, room}
use constellate.Vt.Screen

-- terminal.PromptState
pub data PromptState : Type 0 where
  prompt_unknown prompt_at_prompt prompt_running : PromptState

pub record CursorState : Type 0 where
  pub x : Word
  pub y : Word
  pub fg : Word
  pub bg : Word
  pub attrs : ℕ

pub record Emulator : Type 0 where
  pub cols : Word
  pub rows : Word
  pub primary : Screen
  pub alt : Screen
  pub use_alt : Bool
  pub ps : Parser
  pub cursor_visible : Bool
  pub saved_cursor : CursorState
  pub saved_cursor_alt : CursorState
  pub rev : ℕ
  pub dirty : Bool
  pub prompt_state : PromptState
  pub utf8_buf : Bytes

abbrev pub no_cursor : CursorState
no_cursor = record { x = 0; y = 0; fg = 0; bg = 0; attrs = 0 }

abbrev pub at_least_one : Word → Word
at_least_one n = if lt_int n 1 then 1 else n

-- `New`
unfoldable pub new : Word → Word → Emulator
new cols rows =
    let c = at_least_one cols in
    let r = at_least_one rows in
    record {
      cols = c;
      rows = r;
      primary = new_screen c r;
      alt = new_screen c r;
      use_alt = false;
      ps = initial;
      cursor_visible = true;
      saved_cursor = no_cursor;
      saved_cursor_alt = no_cursor;
      rev = 0;
      dirty = false;
      prompt_state = prompt_unknown;
      utf8_buf = [];
    }

abbrev pub cur : Emulator → Screen
cur e = if e.use_alt then e.alt else e.primary

abbrev pub set_cur : Screen → Emulator → Emulator
set_cur s e = record e {
  primary = if e.use_alt then e.primary else s;
  alt = if e.use_alt then s else e.alt;
}

abbrev pub mark : Emulator → Emulator
mark e = record e { dirty = true }

-- The current screen changes, and `e.dirty = true`.
abbrev pub draw : Emulator → Option Screen → Option Emulator
draw e o = o >>= λ s. some (mark (set_cur s e))

pub print_rune : ℕ → Emulator → Option Emulator
print_rune r e = draw e (Screen.print_rune r (cur e))

pub execute_c0 : ℕ → Emulator → Option Emulator
execute_c0 b e =
    if b == b'\r'
    then draw e (some (record (cur e) { cx = 0 }))
    else if b == b'\n' || b == 11 || b == 12
    then draw e (Screen.line_feed (cur e))
    else if b == b'\t'
    then draw e (some (tab (cur e)))
    else if b == 8
    then (if lt_int 0 (cur e).cx
        then draw e (some (record (cur e) { cx = sub_int (cur e).cx 1 }))
        else some e)
    else some e

abbrev pub cursor_of : Screen → CursorState
cursor_of s = record { x = s.cx; y = s.cy; fg = s.fg; bg = s.bg; attrs = s.attrs }

pub save_cursor : Emulator → Emulator
save_cursor e = record e {
  saved_cursor = if e.use_alt then e.saved_cursor else cursor_of e.primary;
  saved_cursor_alt = if e.use_alt then cursor_of e.alt else e.saved_cursor_alt;
}

-- `clampCursor`, for one coordinate
pub clamp_cursor : Word → Word → Word
clamp_cursor v limit = let w = clamp_below v limit in if lt_int w 0 then 0 else w

pub restored : CursorState → Screen → Screen
unfolding clamp_cursor
restored c s = record s {
  cx = clamp_cursor c.x s.cols;
  cy = clamp_cursor c.y s.rows;
  fg = c.fg;
  bg = c.bg;
  attrs = c.attrs;
}

pub restore_cursor : Emulator → Emulator
restore_cursor e =
    mark (set_cur (restored (if e.use_alt then e.saved_cursor_alt else e.saved_cursor) (cur e)) e)

pub hard_reset : Emulator → Emulator
hard_reset e = record e {
  primary = new_screen e.cols e.rows;
  alt = new_screen e.cols e.rows;
  cursor_visible = true;
  prompt_state = prompt_unknown;
  dirty = true;
}

pub erase_in_display : Word → Emulator → Option Emulator
erase_in_display mode e = draw e (Screen.erase_in_display mode (cur e))

pub erase_in_line : Word → Emulator → Option Emulator
erase_in_line mode e = draw e (Screen.erase_in_line mode (cur e))

pub erase_chars : Word → Emulator → Option Emulator
erase_chars n e = draw e (Screen.erase_chars n (cur e))

-- `insertChars` and `deleteChars` return early, and leave `dirty`, at the right margin.
pub insert_chars : Word → Emulator → Option Emulator
insert_chars n e =
    if le_int (room (cur e)) 0 then some e else draw e (Screen.insert_chars n (cur e))

pub delete_chars : Word → Emulator → Option Emulator
delete_chars n e =
    if le_int (room (cur e)) 0 then some e else draw e (Screen.delete_chars n (cur e))

pub switch_alt_screen : Bool → Emulator → Emulator
switch_alt_screen true e = if e.use_alt then e else record e { use_alt = true; dirty = true }
switch_alt_screen false e = if e.use_alt then record e { use_alt = false; dirty = true } else e

abbrev pub when : {A : Type 0} → Bool → A → A → A
when b x y = if b then x else y

pub set_dec_mode : Word → Bool → Emulator → Option Emulator
set_dec_mode mode set e =
    if mode == 25
    then some (record e { cursor_visible = set; dirty = true })
    else if mode == 47 || mode == 1047
    then some (switch_alt_screen set e)
    else if mode == 1049
    then when set (erase_in_display 2 (switch_alt_screen true (save_cursor e)))
        (some (restore_cursor (switch_alt_screen false e)))
    else some e

-- `handleOSC`
pub prompt_command : Bytes → Emulator → Emulator
prompt_command [] e = e
prompt_command (c ∷ _) e =
    if c == b'A' || c == b'B' || c == b'D'
    then record e { prompt_state = prompt_at_prompt }
    else if c == b'C'
    then record e { prompt_state = prompt_running }
    else e

pub handle_osc : Bytes → Emulator → Emulator
unfolding prompt_command
handle_osc (a ∷ b ∷ c ∷ d ∷ cmd) e =
    if a == b'1' && b == b'3' && c == b'3' && d == b';' then prompt_command cmd e else e
handle_osc _ e = e

-- `Resize`
pub resize : Word → Word → Emulator → Option Emulator
resize cols rows e =
    let c = at_least_one cols in
    let r = at_least_one rows in
    if c == e.cols && r == e.rows
    then some e
    else (Screen.resize c r e.primary >>= λ p. Screen.resize c r e.alt >>= λ a.
        some (record e { cols = c; rows = r; primary = p; alt = a; dirty = true }))

-- `Rev`
unfoldable pub next_rev : Emulator → ℕ
next_rev e = if e.dirty then (e.rev + 1) % 2 ^ 64 else e.rev
