-- ===== src/Tests/Vt.antt =====
-- The emulator at concrete inputs.
use constellate.Common.{
  ℕ, ◌≡◌, ◌≢◌, refl, ◌&&◌, ◌==◌, none, some, [], ◌∷◌, ◌++◌, ◌>>=◌, inl, lt_int, arith, All,
}
use mathlib.Core.List.{map}
use constellate.Vt.Screen.{Screen, new_screen, erase_in_display, erase_in_line}
use constellate.Vt.Screen.Valid.{Sound, new_screen-IsValid}
use constellate.Vt.Screen.Valid
use constellate.Vt.Screen.Blanks.{Blanks, erase_in_display-Blanks, erase_in_line-Blanks}
use constellate.Vt.Screen.Erased.{in_line, in_display}
use constellate.Vt.Parser.{Bytes, State, Action, Parser, feed_byte, parse_params}
use constellate.Vt.Parser.Bounds.{IsBounded}
use constellate.Vt.Parser.Params.{print_fields, value, parse_params-print_fields}
use constellate.Vt.Emulator.State.{Emulator, cur, new, next_rev, execute_c0}
use constellate.Vt.Emulator.View.{render, settle}
use constellate.Vt.Emulator.View.Rendered.{rendering_of, render_twice}
use constellate.Vt.Emulator.State
use constellate.Vt.Emulator.State.Safe
use constellate.Vt.Emulator.State.Safe.{IsValid, Safe, new-IsValid, resize-Safe, execute_c0-Safe}
use constellate.Vt.Emulator.Csi.{dispatch_csi}
use constellate.Vt.Emulator.Csi.Dispatch.{dispatch_csi-Safe}
use constellate.Vt.Parser.Params.{print_digits}
use constellate.Vt.Emulator.Write.Outside.{count, write_up_panics}
use constellate.Vt.Emulator.Write.{write}
use constellate.Vt.Emulator.Write.Chunks.{write-append, write-steps, steps}
use constellate.Vt.Emulator.Write.Plain.{IsReady, Ready, write-Ready}
use constellate.Vt.Emulator.Write.Panics.{write-none}

abbrev tiny : Emulator
tiny = new 4 3

tiny-IsValid : IsValid tiny
tiny-IsValid = new-IsValid 4 3 (omega arith) (omega arith)

tiny-IsReady : IsReady tiny
unfolding new
tiny-IsReady = record { valid = tiny-IsValid; ground = refl }

abbrev page : Screen
page = new_screen 4 3

page-IsValid : Valid.IsValid page
page-IsValid = new_screen-IsValid 4 3 (omega arith) (omega arith) (omega arith) (omega arith)

-- "hé" cut inside of its second character, and a line feed
write-append_example :
    write tiny ((104 ∷ 0xc3 ∷ []) ++ 0xa9 ∷ 10 ∷ [])
    ≡ (write tiny (104 ∷ 0xc3 ∷ []) >>= λ e. write e (0xa9 ∷ 10 ∷ []))
write-append_example = write-append tiny (104 ∷ 0xc3 ∷ []) (0xa9 ∷ 10 ∷ [])

no_escapes : All (λ (b : ℕ). b ≢ 0x1b) (104 ∷ 0xff ∷ 10 ∷ [])
no_escapes =
    ((λ e. absurd (omega arith)), ((λ e. absurd (omega arith)), ((λ e. absurd (omega arith)), tt)))

write-Ready_example : Ready tiny (write tiny (104 ∷ 0xff ∷ 10 ∷ []))
write-Ready_example = write-Ready (104 ∷ 0xff ∷ 10 ∷ []) tiny no_escapes tiny-IsReady

dispatch_csi-Safe_example : Safe tiny (dispatch_csi b'L' (2 ∷ []) [] tiny)
dispatch_csi-Safe_example =
    dispatch_csi-Safe b'L' (2 ∷ []) [] tiny tiny-IsValid (omega arith, tt)
      (λ e. absurd (ground arith))

write-steps_example :
    write tiny (0x1b ∷ b'[' ∷ b'K' ∷ 0xc3 ∷ 0xa9 ∷ [])
    ≡ steps tiny (0x1b ∷ b'[' ∷ b'K' ∷ 0xc3 ∷ 0xa9 ∷ [])
write-steps_example = write-steps tiny (0x1b ∷ b'[' ∷ b'K' ∷ 0xc3 ∷ 0xa9 ∷ [])

-- A screen whose last column has just been printed in.
abbrev full_page : Screen
full_page = record page { cx = 4 }

full_page-IsValid : Valid.IsValid full_page
unfolding new_screen
full_page-IsValid =
    let v = page-IsValid in
    record {
      cols_pos = v.cols_pos;
      cols_small = v.cols_small;
      rows_pos = v.rows_pos;
      rows_small = v.rows_small;
      grid = v.grid;
      cx_le = omega arith;
      cy_lt = v.cy_lt;
      top_pos = v.top_pos;
      top_le = v.top_le;
      bottom_le = v.bottom_le;
    }

abbrev full : Emulator
full = State.set_cur full_page tiny

tiny_screen : (cur tiny) ≡ page
unfolding new lt_int
tiny_screen = refl

full-IsValid : IsValid full
unfolding new lt_int
full-IsValid = (Safe.set_cur-Safe tiny full_page tiny-IsValid (full_page-IsValid, refl, refl)).0

write-none_example : write full (0x1b ∷ b'[' ∷ b'1' ∷ b'K' ∷ []) ≡ none
unfolding new new_screen lt_int
write-none_example = write-none full full-IsValid refl b'K' (inl refl)

erase_in_line-Blanks_example :
    Blanks page (λ j i. j == page.cy && in_line 1 page.cx i) (erase_in_line 1 page)
unfolding new_screen
erase_in_line-Blanks_example =
    erase_in_line-Blanks page page-IsValid 1 (omega arith) (λ e. omega arith)

erase_in_display-Blanks_example : Blanks page (in_display 0 page) (erase_in_display 0 page)
erase_in_display-Blanks_example =
    erase_in_display-Blanks page page-IsValid 0 (omega arith) (λ e. absurd (omega arith))

abbrev start : Parser
start = constellate.Vt.Parser.initial

parse_params-print_fields_example :
    parse_params (print_fields (1 ∷ 2 ∷ []) ([] ∷ (7 ∷ []) ∷ []))
    ≡ map value ((1 ∷ 2 ∷ []) ∷ [] ∷ (7 ∷ []) ∷ [])
parse_params-print_fields_example =
    parse_params-print_fields (1 ∷ 2 ∷ []) ([] ∷ (7 ∷ []) ∷ []) (λ e. cc)
      ((omega arith, (omega arith, tt)), omega arith)
      ((tt, omega arith), (((omega arith, tt), omega arith), tt))

start-IsBounded : IsBounded start
start-IsBounded = record {
  inter_le = omega arith;
  param_le = omega arith;
  osc_le = omega arith;
  entry = tt;
}

write_up_panics_example : write tiny (0x1b ∷ b'[' ∷ (print_digits count ++ b'A' ∷ b'x' ∷ [])) ≡ none
write_up_panics_example = write_up_panics tiny b'x' tiny-IsValid refl

render_twice_example :
    (render tiny ≡ some (rendering_of tiny, next_rev tiny, settle tiny))
    × (render (settle tiny) ≡ some (rendering_of tiny, next_rev tiny, settle tiny))
render_twice_example = render_twice tiny tiny-IsValid
