-- ===== src/Vt/Emulator/State/Text.antt =====
-- The parser's state behind `printRune` and `executeC0`.
use constellate.Common.{ℕ, ◌≡◌, refl, Option, none, some, arith}
use constellate.Vt.Screen.{Screen}
use constellate.Vt.Screen
use constellate.Vt.Emulator.State.{Emulator, cur, draw, print_rune, execute_c0}

abbrev pub SameParser : Emulator → Option Emulator → Type 0
SameParser e none = Unit
SameParser e (some t) = t.ps ≡ e.ps

draw-SameParser : (e : Emulator) (o : Option Screen) → SameParser e (draw e o)
draw-SameParser e none = tt
draw-SameParser e (some s) = refl

pub print_rune-SameParser : (r : ℕ) (e : Emulator) → SameParser e (print_rune r e)
unfolding print_rune
print_rune-SameParser r e = draw-SameParser e _

pub execute_c0-SameParser : (b : ℕ) (e : Emulator) → SameParser e (execute_c0 b e)
unfolding execute_c0
execute_c0-SameParser b e = ground (arith, draw-SameParser e (Screen.line_feed (cur e)))
