-- ===== src/Vt/Emulator/Write.antt =====
-- `Write`: bytes through the parser and the UTF-8 decoder, and the actions on the screen.
pub mod Chunks
pub mod Plain
pub mod Panics
pub mod Outside
use constellate.Common.{
  ℕ, zero, suc, Bool, true, false, ◌&&◌, Option, none, some, [], ◌∷◌, ◌++◌, ◌>>=◌, leb, ltb, ◌==◌,
  if◌then◌else◌, length,
}
use constellate.Vt.Parser.{Bytes, Action, feed_byte}
use constellate.Vt.Utf8.{rune_error, decode_rune, utf8_rune_len}
use constellate.Vt.Emulator.State.{Emulator, print_rune, execute_c0, handle_osc}
use constellate.Vt.Emulator.Csi.{dispatch_csi, dispatch_esc}

pub dispatch : Action → Emulator → Option Emulator
dispatch Action.nothing e = some e
dispatch (Action.print ch) e = print_rune ch e
dispatch (Action.execute ch) e = execute_c0 ch e
dispatch (Action.esc final inter) e = dispatch_esc final inter e
dispatch (Action.csi final inter params) e = dispatch_csi final params inter e
dispatch (Action.osc payload) e = some (handle_osc payload e)
dispatch Action.dcs e = some e

-- The branch for a byte below 0x80, with the pending partial rune discarded.
pub ascii_byte : ℕ → Emulator → Option Emulator
ascii_byte b e = let (a, ps) = feed_byte b e.ps in dispatch a (record e { utf8_buf = []; ps = ps })

-- `if e.utf8Len < len(e.utf8Buf) { … }`
abbrev pub accumulate : ℕ → Emulator → Emulator
accumulate b e = record e {
  utf8_buf = if ltb (length e.utf8_buf) 4 then e.utf8_buf ++ b ∷ [] else e.utf8_buf;
}

abbrev pub first_or_zero : Bytes → ℕ
first_or_zero [] = 0
first_or_zero (b ∷ _) = b

-- One turn of the loop of `feedUTF8` behind the accumulation: the state, and whether the loop goes
-- on to the next byte.
pub try_rune : Emulator → Option (Emulator × Bool)
try_rune e =
    let (r, sz) = decode_rune e.utf8_buf in
    if r == rune_error && sz == 1
    then (if leb (utf8_rune_len (first_or_zero e.utf8_buf)) (length e.utf8_buf)
        then some (record e { utf8_buf = [] }, false)
        else some (e, true))
    else (print_rune r e >>= λ e'. some (record e' { utf8_buf = [] }, false))

-- `feedUTF8`: the state and the bytes not consumed.
pub feed_utf8 : Emulator → Bytes → Option (Emulator × Bytes)
feed_utf8 e [] = some (e, [])
feed_utf8 e (b ∷ p) = elim (ltb b 0x80) [
  | true ↦ some (record e { utf8_buf = [] }, b ∷ p)
  | false ↦
      try_rune (accumulate b e) >>= λ r. elim r.1 [ true ↦ feed_utf8 r.0 p | false ↦ some (r.0, p) ]
]

-- `writeUnlocked`. Every turn of its loop consumes a byte or more, so the length of the input is
-- fuel enough.
pub write_fuel : ℕ → Emulator → Bytes → Option Emulator
write_fuel k e [] = some e
write_fuel zero e (b ∷ p) = none
write_fuel (suc k) e (b ∷ p) = elim (ltb b 0x80) [
  | true ↦ ascii_byte b e >>= λ e'. write_fuel k e' p
  | false ↦ feed_utf8 e (b ∷ p) >>= λ r. write_fuel k r.0 r.1
]

pub write : Emulator → Bytes → Option Emulator
write e p = write_fuel (length p) e p
