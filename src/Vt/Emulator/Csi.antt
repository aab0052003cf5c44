-- ===== src/Vt/Emulator/Csi.antt =====
-- `dispatchCSI` and `dispatchESC`. The tests of `final` stand in source order, split into three
-- groups; each group falls through to the next.
pub mod Safe
pub mod Dispatch
pub mod Panics
use constellate.Common.{
  ℕ, Bool, true, false, ◌&&◌, ◌||◌, Option, none, some, List, [], ◌∷◌, ◌>>=◌, Word, lt_int, le_int,
  add_int, sub_int, ◌==◌, if◌then◌else◌, get_elem?,
}
use constellate.Vt.Parser.{Bytes}
use constellate.Vt.Screen.{
  Screen, clamp_below, region_top, region_bottom, scroll_up, scroll_down, reverse_index,
}
use constellate.Vt.Sgr.{apply_sgr}
use constellate.Vt.Emulator.State.{
  Emulator, cur, set_cur, draw, save_cursor, restore_cursor, hard_reset, erase_in_display,
  erase_in_line, erase_chars, insert_chars, delete_chars, set_dec_mode,
}

-- `p(idx, def)` and `p0(idx)`
pub param : List Word → ℕ → Word → Word
param params i def = elim (get_elem? params i) [ none ↦ def | some v ↦ if v == 0 then def else v ]

pub param0 : List Word → ℕ → Word
param0 params i = elim (get_elem? params i) [ none ↦ 0 | some v ↦ v ]

abbrev pub floor0 : Word → Word
floor0 v = if lt_int v 0 then 0 else v

-- `p(idx, 1) - 1`, clamped to 0..limit-1
pub absolute : List Word → ℕ → Word → Word
absolute params i limit = clamp_below (floor0 (sub_int (param params i 1) 1)) limit

pub up : Word → Screen → Screen
up n s = record s { cy = floor0 (sub_int s.cy n) }

pub down : Word → Screen → Screen
down n s = record s { cy = clamp_below (add_int s.cy n) s.rows }

pub right : Word → Screen → Screen
right n s = record s { cx = clamp_below (add_int s.cx n) s.cols }

pub left : Word → Screen → Screen
left n s = record s { cx = floor0 (sub_int s.cx n) }

abbrev pub home_column : Screen → Screen
home_column s = record s { cx = 0 }

-- `case 'r'`
pub set_scroll_region : List Word → Screen → Option Screen
set_scroll_region params s =
    let top = (let t = param params 0 1 in if lt_int t 1 then 1 else t) in
    let bot = (let b = param params 1 s.rows in if lt_int s.rows b then s.rows else b) in
    if lt_int top bot
    then some (record s { scroll_top = top; scroll_bottom = bot; cx = 0; cy = 0 })
    else none

-- `case 'L'` and `case 'M'`, before `e.dirty = true`
pub insert_lines : Word → Screen → Option Screen
insert_lines n s =
    if le_int (region_top s) s.cy && le_int s.cy (region_bottom s)
    then scroll_down s.cy (region_bottom s) n s
    else some s

pub delete_lines : Word → Screen → Option Screen
delete_lines n s =
    if le_int (region_top s) s.cy && le_int s.cy (region_bottom s)
    then scroll_up s.cy (region_bottom s) n s
    else some s

-- the cases m r s u h l
pub csi_pen : ℕ → List Word → Emulator → Option Emulator
csi_pen final params e =
    if final == b'm'
    then some (set_cur (apply_sgr params (cur e)) e)
    else if final == b'r'
    then elim (set_scroll_region params (cur e)) [ none ↦ some e | some s ↦ draw e (some s) ]
    else if final == b's'
    then some (save_cursor e)
    else if final == b'u'
    then some (restore_cursor e)
    else some e

-- the cases J K L M P S T X @
pub csi_edit : ℕ → List Word → Emulator → Option Emulator
csi_edit final params e =
    let s = cur e in
    let n = param params 0 1 in
    if final == b'J'
    then erase_in_display (param0 params 0) e
    else if final == b'K'
    then erase_in_line (param0 params 0) e
    else if final == b'L'
    then draw e (insert_lines n s)
    else if final == b'M'
    then draw e (delete_lines n s)
    else if final == b'P'
    then delete_chars n e
    else if final == b'S'
    then draw e (scroll_up (region_top s) (region_bottom s) n s)
    else if final == b'T'
    then draw e (scroll_down (region_top s) (region_bottom s) n s)
    else if final == b'X'
    then erase_chars n e
    else if final == b'@'
    then insert_chars n e
    else csi_pen final params e

-- the cases A B C D E F G H f d, on the screen; `none` for another final byte
pub move : ℕ → List Word → Screen → Option Screen
move final params s =
    let n = param params 0 1 in
    if final == b'A'
    then some (up n s)
    else if final == b'B'
    then some (down n s)
    else if final == b'C'
    then some (right n s)
    else if final == b'D'
    then some (left n s)
    else if final == b'E'
    then some (home_column (down n s))
    else if final == b'F'
    then some (home_column (up n s))
    else if final == b'G'
    then some (record s { cx = absolute params 0 s.cols })
    else if final == b'H' || final == b'f'
    then some (record s { cy = absolute params 0 s.rows; cx = absolute params 1 s.cols })
    else if final == b'd'
    then some (record s { cy = absolute params 0 s.rows })
    else none

pub csi_plain : ℕ → List Word → Emulator → Option Emulator
csi_plain final params e = elim (move final params (cur e)) [
  | none ↦ csi_edit final params e
  | some s ↦ draw e (some s)
]

-- `for _, pm := range params { e.setDecMode(pm, set) }`
pub set_dec_modes : List Word → Bool → Emulator → Option Emulator
set_dec_modes [] set e = some e
set_dec_modes (m ∷ ms) set e = set_dec_mode m set e >>= set_dec_modes ms set

pub csi_private : ℕ → List Word → Emulator → Option Emulator
unfolding set_dec_modes
csi_private final params e =
    if final == b'h'
    then set_dec_modes params true e
    else if final == b'l'
    then set_dec_modes params false e
    else some e

pub dispatch_csi : ℕ → List Word → Bytes → Emulator → Option Emulator
dispatch_csi final params [] e = csi_plain final params e
dispatch_csi final params (i ∷ []) e = if i == b'?' then csi_private final params e else some e
dispatch_csi final params (_ ∷ _ ∷ _) e = some e

pub dispatch_esc : ℕ → Bytes → Emulator → Option Emulator
dispatch_esc final [] e =
    if final == b'7'
    then some (save_cursor e)
    else if final == b'8'
    then some (restore_cursor e)
    else if final == b'M'
    then draw e (reverse_index (cur e))
    else if final == b'c'
    then some (hard_reset e)
    else some e
dispatch_esc final (_ ∷ _) e = some e
