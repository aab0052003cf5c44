-- ===== src/Vt/Emulator/Write/Outside.antt =====
-- `Write` of a cursor-up whose count wraps to a negative word.
use constellate.Common.{
  ℕ, suc, ap, ◌+◌, ◌-◌, ◌≤◌, ◌^◌, ◌≡◌, refl, ◌∙◌, none, some, [], ◌∷◌, ◌++◌, true, ltb, arith, All,
  length, length-append, append_assoc, append-nil,
}
use constellate.Vt.Parser.{Bytes, State, param_max, between, parse_params}
use constellate.Vt.Parser.Params.{print_digits, Field, parse_params-print_fields}
use constellate.Vt.Parser.Sequences.{
  at_entry, at_param, at_ground, is_param, feed_byte-escape, feed_byte-bracket, feed_byte-first,
  feed_byte-param, feed_byte-csi, feed_byte-print,
}
use constellate.Vt.Screen
use constellate.Vt.Screen.{Screen}
use constellate.Vt.Screen.Outside.{print_rune-below}
use constellate.Vt.Emulator.State.{Emulator, cur, set_cur, mark, print_rune}
use constellate.Vt.Emulator.State.Modes.{print_rune-none, cur-set_cur}
use constellate.Vt.Emulator.State.Safe.{IsValid, cur-IsValid}
use constellate.Vt.Emulator.Csi.{up}
use constellate.Vt.Emulator.Csi.Panics.{up_below, dispatch_csi-up}
use constellate.Vt.Emulator.Write.{dispatch, ascii_byte, write}
use constellate.Vt.Emulator.Write.Chunks.{step_byte, steps, write-steps}
use constellate.Vt.Emulator.Write.Panics.{step_byte-nothing, in_state}

-- 2 ^ 64 - 2 ^ 32
abbrev pub count : Field
count = 1 ∷ 8 ∷ 4 ∷ 4 ∷ 6 ∷ 7 ∷ 4 ∷ 4 ∷ 0 ∷ 6 ∷ 9 ∷ 4 ∷ 1 ∷ 4 ∷ 5 ∷ 8 ∷ 4 ∷ 3 ∷ 2 ∷ 0 ∷ []

steps_params :
    (e : Emulator) (raw bs rest osc : Bytes)
    → All (λ b. is_param b ≡ true) bs
    → length raw + length bs ≤ param_max
    → steps (in_state e (at_param raw osc)) (bs ++ rest)
      ≡ steps (in_state e (at_param (raw ++ bs) osc)) rest
unfolding steps
steps_params e raw [] rest osc h k = rw append-nil refl
steps_params e raw (b ∷ bs) rest osc (p, h) k =
    rw
      (step_byte-nothing b (in_state e (at_param raw osc)) _ (ground (arith, p))
        (feed_byte-param b raw osc p (omega (arith, k))))
      (steps_params e (raw ++ b ∷ []) bs rest osc h (omega (arith, k, length-append raw (b ∷ [])))
        ∙ rw (append_assoc raw (b ∷ []) bs) refl)

introduced :
    (e : Emulator) (b : ℕ) (bs rest : Bytes)
    → is_param b ≡ true
    → All (λ c. is_param c ≡ true) bs
    → suc (length bs) ≤ param_max
    → steps e (0x1b ∷ b'[' ∷ b ∷ (bs ++ rest))
      ≡ steps (in_state e (at_param (b ∷ bs) e.ps.osc_buf)) rest
unfolding steps
introduced e b bs rest h hs k =
    rw
      (
        step_byte-nothing 0x1b e _ refl (feed_byte-escape e.ps),
        step_byte-nothing b'[' (in_state e (record e.ps { state = State.escape; inter = [] })) _
            refl (feed_byte-bracket e.ps),
        step_byte-nothing b (in_state e (at_entry e.ps.osc_buf)) _ (ground (arith, h))
            (feed_byte-first b e.ps.osc_buf h),
      )
      (steps_params e (b ∷ []) bs rest e.ps.osc_buf hs (omega (arith, k)))

-- The emulator behind the control sequence.
moved : Emulator → Emulator
moved e = mark (set_cur (up (2 ^ 64 - 2 ^ 32) (cur e)) (in_state e (at_ground e.ps.osc_buf)))

parsed : parse_params (print_digits count) ≡ (2 ^ 64 - 2 ^ 32) ∷ []
parsed = parse_params-print_fields count [] (λ q. absurd (cc q)) (ground arith) tt

step_byte_up :
    (e : Emulator)
    → step_byte b'A' (in_state e (at_param (print_digits count) e.ps.osc_buf)) ≡ some (moved e)
unfolding step_byte ascii_byte dispatch moved
step_byte_up e =
    rw (feed_byte-csi (print_digits count) e.ps.osc_buf b'A' refl, parsed)
      (dispatch_csi-up (2 ^ 64 - 2 ^ 32) (in_state e (at_ground e.ps.osc_buf)) (omega arith))

print_outside : (e : Emulator) (ch : ℕ) → IsValid e → print_rune ch (moved e) ≡ none
unfolding moved
print_outside e ch v =
    let s = up (2 ^ 64 - 2 ^ 32) (cur e) in
    let (a, b, c) = up_below (cur e) (cur-IsValid e v) in
    print_rune-none ch (moved e) (
      ap (Screen.print_rune ch) (cur-set_cur s (in_state e (at_ground e.ps.osc_buf)) ∙ a)
      ∙ print_rune-below ch (cur e) ((cur e).cy + 2 ^ 32) (cur-IsValid e v) b c)

step_byte_print :
    (e : Emulator) (ch : ℕ)
    → IsValid e
    → between 0x20 0x7e ch ≡ true
    → step_byte ch (moved e) ≡ none
unfolding step_byte ascii_byte dispatch moved
step_byte_print e ch v h =
    let ascii : ltb ch 0x80 ≡ true = ground (arith, h) in
    rw (ascii, feed_byte-print ch e.ps.osc_buf h) (print_outside e ch v)

-- On every valid emulator, whatever the parser was in, `ESC [ 18446744069414584320 A`, the count
-- of which wraps to a negative word, puts the cursor below the grid, so that a printable ASCII
-- character behind it panics.
pub write_up_panics :
    (e : Emulator) (ch : ℕ)
    → IsValid e
    → between 0x20 0x7e ch ≡ true
    → write e (0x1b ∷ b'[' ∷ (print_digits count ++ b'A' ∷ ch ∷ [])) ≡ none
write_up_panics e ch v h =
    rw
      (
        write-steps,
        introduced e b'1'
            (print_digits
              (8 ∷ 4 ∷ 4 ∷ 6 ∷ 7 ∷ 4 ∷ 4 ∷ 0 ∷ 6 ∷ 9 ∷ 4 ∷ 1 ∷ 4 ∷ 5 ∷ 8 ∷ 4 ∷ 3 ∷ 2 ∷ 0 ∷ []))
            (b'A' ∷ ch ∷ []) refl (ground arith) (omega arith),
      )
      (unfold steps in rw (step_byte_up e, step_byte_print e ch v h) refl)
