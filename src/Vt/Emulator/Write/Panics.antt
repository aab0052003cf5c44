-- ===== src/Vt/Emulator/Write/Panics.antt =====
-- `Write` of an erasure up to a cursor that stands past the last column.
use constellate.Common.{ℕ, ◌≡◌, refl, ◌⊎◌, none, some, [], ◌∷◌, true, ltb, arith}
use constellate.Vt.Parser.{Bytes, State, Action, Parser, feed_byte}
use constellate.Vt.Parser.Sequences.{
  at_entry, at_param, feed_byte-escape, feed_byte-bracket, feed_byte_one, feed_byte_final,
}
use constellate.Vt.Emulator.State.{Emulator, cur}
use constellate.Vt.Emulator.State.Safe.{IsValid}
use constellate.Vt.Emulator.Csi.Panics.{dispatch_csi-none}
use constellate.Vt.Emulator.Write.{dispatch, ascii_byte, write}
use constellate.Vt.Emulator.Write.Chunks.{step_byte, steps, write-steps}

-- Bytes that complete nothing change the parser only.
pub step_byte-nothing :
    (b : ℕ) (e : Emulator) (q : Parser)
    → ltb b 0x80 ≡ true
    → feed_byte b e.ps ≡ (Action.nothing, q)
    → step_byte b e ≡ some (record e { utf8_buf = []; ps = q })
unfolding step_byte ascii_byte dispatch
step_byte-nothing b e q h f = rw (h, f)

abbrev pub in_state : Emulator → Parser → Emulator
in_state e q = record e { utf8_buf = []; ps = q }

introduced :
    (e : Emulator) (p : Bytes)
    → steps e (0x1b ∷ b'[' ∷ b'1' ∷ p) ≡ steps (in_state e (at_param (b'1' ∷ []) e.ps.osc_buf)) p
unfolding steps
introduced e p = rw (
  step_byte-nothing 0x1b e _ refl (feed_byte-escape e.ps),
  step_byte-nothing b'[' (in_state e (record e.ps { state = State.escape; inter = [] })) _ refl
      (feed_byte-bracket e.ps),
  step_byte-nothing b'1' (in_state e (at_entry e.ps.osc_buf)) _ refl (feed_byte_one e.ps.osc_buf),
)

module _ (e : Emulator) (v : IsValid e) (margin : (cur e).cx ≡ (cur e).cols) where
  final-none :
      (final : ℕ)
      → (final ≡ b'K') ⊎ (final ≡ b'J')
      → step_byte final (in_state e (at_param (b'1' ∷ []) e.ps.osc_buf)) ≡ none
  unfolding step_byte ascii_byte dispatch
  final-none final h =
      let f = feed_byte_final e.ps.osc_buf final (ground arith) in
      let ascii : ltb final 0x80 ≡ true = ground arith in
      rw (ascii, f)
        (dispatch_csi-none final (in_state e _) h (ground (arith, v)) (ground (arith, margin)))

  -- Writing `ESC [ 1 K` or `ESC [ 1 J` panics in every valid state, whatever the parser was in, in
  -- which the cursor stands past the last column, as it does once that column has been printed in.
  pub write-none :
      (final : ℕ)
      → (final ≡ b'K') ⊎ (final ≡ b'J')
      → write e (0x1b ∷ b'[' ∷ b'1' ∷ final ∷ []) ≡ none
  write-none final h = rw (write-steps, introduced) (unfold steps in rw (final-none final h))
