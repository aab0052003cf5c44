-- ===== src/Vt/Sgr.antt =====
-- internal/agent/adapter/secondary/vt/sgr.go: the pen's colours and attributes. Codes are words; a
-- negative one is above every bound that is tested, so the unsigned tests serve.
pub mod Colors
use Prim.Native.Nat.{bit_and, bit_or}
use constellate.Common.{
  ℕ, zero, suc, ◌+◌, ◌-◌, ◌*◌, ◌^◌, Bool, ◌&&◌, ◌||◌, List, [], ◌∷◌, Word, leb, ltb, lt_int, ◌==◌,
  if◌then◌else◌,
}
use constellate.Vt.Screen.{Screen, color_default}

abbrev pub attr_bold : ℕ
attr_bold = 1

abbrev pub attr_faint : ℕ
attr_faint = 2

abbrev pub attr_italic : ℕ
attr_italic = 4

abbrev pub attr_underline : ℕ
attr_underline = 8

abbrev pub attr_blink : ℕ
attr_blink = 16

abbrev pub attr_inverse : ℕ
attr_inverse = 32

abbrev pub attr_hidden : ℕ
attr_hidden = 64

abbrev pub attr_strike : ℕ
attr_strike = 128

abbrev pub color_truecolor_flag : Word
color_truecolor_flag = 0x1000000

pub reset_sgr : Screen → Screen
reset_sgr s = record s { fg = color_default; bg = color_default; attrs = 0 }

abbrev pub palette_index : Word → Word
palette_index i = i + 1

pub clamp8 : Word → Word
clamp8 v = if lt_int v 0 then 0 else if lt_int 255 v then 255 else v

-- `38;5;n`, behind the 5
indexed_color : List Word → ℕ × Word
unfolding clamp8
indexed_color [] = (1, color_default)
indexed_color (i ∷ _) = (2, palette_index (clamp8 i))

-- `38;2;r;g;b`, behind the 2
true_color : List Word → ℕ × Word
unfolding clamp8
true_color (r ∷ g ∷ b ∷ _) = (
  4,
  bit_or (bit_or (bit_or color_truecolor_flag (clamp8 r * 2 ^ 16)) (clamp8 g * 2 ^ 8)) (clamp8 b),
)
true_color _ = (1, color_default)

-- The list is `params[start:]`; the number is how many of its entries are consumed.
pub parse_extended_color : List Word → ℕ × Word
unfolding indexed_color true_color
parse_extended_color [] = (0, color_default)
parse_extended_color (kind ∷ rest) =
    if kind == 5
    then indexed_color rest
    else if kind == 2
    then true_color rest
    else (1, color_default)

abbrev set_attr : ℕ → Screen → Screen
set_attr mask s = record s { attrs = bit_or s.attrs mask }

-- `s.attrs &^= mask`, on 16 bits
abbrev clear_attr : ℕ → Screen → Screen
clear_attr mask s = record s { attrs = bit_and s.attrs (0xffff - mask) }

abbrev within : Word → Word → Word → Bool
within lo hi c = leb lo c && leb c hi

-- The codes that set or clear an attribute; the others leave the pen as it is.
pub apply_attr : Word → Screen → Screen
apply_attr c s =
    if c == 1
    then set_attr attr_bold s
    else if c == 2
    then set_attr attr_faint s
    else if c == 3
    then set_attr attr_italic s
    else if c == 4
    then set_attr attr_underline s
    else if c == 5 || c == 6
    then set_attr attr_blink s
    else if c == 7
    then set_attr attr_inverse s
    else if c == 8
    then set_attr attr_hidden s
    else if c == 9
    then set_attr attr_strike s
    else if c == 22
    then clear_attr (attr_bold + attr_faint) s
    else if c == 23
    then clear_attr attr_italic s
    else if c == 24
    then clear_attr attr_underline s
    else if c == 25
    then clear_attr attr_blink s
    else if c == 27
    then clear_attr attr_inverse s
    else if c == 28
    then clear_attr attr_hidden s
    else if c == 29
    then clear_attr attr_strike s
    else s

-- One turn of the loop: the entries consumed behind the code, and the new pen.
pub apply_code : Word → List Word → Screen → ℕ × Screen
unfolding reset_sgr
apply_code c rest s =
    if c == 0
    then (0, reset_sgr s)
    else if within 30 37 c
    then (0, record s { fg = palette_index (c - 30) })
    else if c == 38
    then (let (n, color) = parse_extended_color rest in (n, record s { fg = color }))
    else if c == 39
    then (0, record s { fg = color_default })
    else if within 40 47 c
    then (0, record s { bg = palette_index (c - 40) })
    else if c == 48
    then (let (n, color) = parse_extended_color rest in (n, record s { bg = color }))
    else if c == 49
    then (0, record s { bg = color_default })
    else if within 90 97 c
    then (0, record s { fg = palette_index (c - 90 + 8) })
    else if within 100 107 c
    then (0, record s { bg = palette_index (c - 100 + 8) })
    else (0, apply_attr c s)

-- The loop, with the entries still to skip.
pub apply_codes : ℕ → List Word → Screen → Screen
unfolding apply_code
apply_codes k [] s = s
apply_codes (suc k) (_ ∷ rest) s = apply_codes k rest s
apply_codes zero (c ∷ rest) s = let (n, t) = apply_code c rest s in apply_codes n rest t

pub apply_sgr : List Word → Screen → Screen
unfolding apply_codes reset_sgr
apply_sgr [] s = reset_sgr s
apply_sgr (c ∷ rest) s = apply_codes 0 (c ∷ rest) s
