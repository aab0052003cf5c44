-- ===== src/Vt/Emulator/Csi/Dispatch.antt =====
-- Whole control and escape sequences on a valid emulator.
use constellate.Common.{
  ℕ, ◌<◌, ◌^◌, ◌≡◌, refl, Bool, true, false, ◌||◌, ◌==◌, Option, none, some, List, [], ◌∷◌, Word,
  All, arith,
}
use constellate.Vt.Parser.{Bytes}
use constellate.Vt.Screen.{Screen, region_top, region_bottom, scroll_up, scroll_down, reverse_index}
use constellate.Vt.Screen.Scroll.{reverse_index-Sound}
use constellate.Vt.Screen.Erase.{ErasesInBounds}
use constellate.Vt.Sgr.{apply_sgr}
use constellate.Vt.Sgr.Colors.{apply_sgr-Sound}
use constellate.Vt.Emulator.State.{Emulator, cur, draw, set_dec_mode}
use constellate.Vt.Emulator.State.Safe.{
  IsValid, Safe, cur-IsValid, draw-Safe, set_cur-Safe, save_cursor-Safe, restore_cursor-Safe,
  hard_reset-Safe, erase_in_display-Safe, erase_in_line-Safe, erase_chars-Safe, insert_chars-Safe,
  delete_chars-Safe,
}
use constellate.Vt.Emulator.State.Modes.{bind-Safe, set_dec_mode-Safe}
use constellate.Vt.Emulator.Csi.{
  param, param0, set_scroll_region, insert_lines, delete_lines, csi_pen, csi_edit, move, csi_plain,
  set_dec_modes, csi_private, dispatch_csi, dispatch_esc,
}
use constellate.Vt.Emulator.Csi.Safe.{
  IsModest, param-lt, SoundIf, move-SoundIf, set_scroll_region-SoundIf, insert_lines-Sound,
  delete_lines-Sound, scroll_region-Sound,
}

-- The erasures up to the cursor are asked for with the cursor left of the right margin.
abbrev pub ErasesInside : ℕ → List Word → Emulator → Type 0
ErasesInside final ps e =
    (final == b'J' || final == b'K') ≡ true → ErasesInBounds (param0 ps 0) (cur e)

module _ (e : Emulator) (v : IsValid e) (ps : List Word) (h : All IsModest ps) where
  draw-SafeIf :
      (o : Option Screen)
      → SoundIf (cur e) (cur-IsValid e v) o
      → Safe e (elim o [ none ↦ some e | some s ↦ draw e (some s) ])
  draw-SafeIf none k = (v, refl, refl)
  draw-SafeIf (some s) k = draw-Safe e (some s) v k

  csi_pen-Safe : (final : ℕ) → Safe e (csi_pen final ps e)
  unfolding csi_pen
  csi_pen-Safe final =
      let w = cur-IsValid e v in
      ground (
        arith,
        v,
        set_cur-Safe e (apply_sgr ps (cur e)) v (apply_sgr-Sound ps (cur e) w),
        draw-SafeIf (set_scroll_region ps (cur e)) (set_scroll_region-SoundIf (cur e) w ps h),
        save_cursor-Safe e v,
        restore_cursor-Safe e v,
      )

  csi_edit-Safe : (final : ℕ) → ErasesInside final ps e → Safe e (csi_edit final ps e)
  unfolding csi_edit
  csi_edit-Safe final k =
      let w = cur-IsValid e v in
      let s = cur e in
      let n = param ps 0 1 in
      let m : n < 2 ^ 64 = omega (arith, param-lt ps 0 1 (2 ^ 62) h (omega arith)) in
      ground (
        arith,
        λ (q : ErasesInBounds (param0 ps 0) s). erase_in_display-Safe e v (param0 ps 0) q,
        λ (q : ErasesInBounds (param0 ps 0) s). erase_in_line-Safe e v (param0 ps 0) q,
        k,
        draw-Safe e (insert_lines n s) v (insert_lines-Sound s w n m),
        draw-Safe e (delete_lines n s) v (delete_lines-Sound s w n m),
        delete_chars-Safe e v n m,
        draw-Safe e (scroll_up (region_top s) (region_bottom s) n s) v
            (scroll_region-Sound s w n m).0,
        draw-Safe e (scroll_down (region_top s) (region_bottom s) n s) v
            (scroll_region-Sound s w n m).1,
        erase_chars-Safe e v n,
        insert_chars-Safe e v n m,
        csi_pen-Safe final,
      )

  csi_plain-Safe : (final : ℕ) → ErasesInside final ps e → Safe e (csi_plain final ps e)
  unfolding csi_plain
  csi_plain-Safe final k =
      after (move final ps (cur e)) (move-SoundIf (cur e) (cur-IsValid e v) final ps h)
    where
      after :
          (o : Option Screen)
          → SoundIf (cur e) (cur-IsValid e v) o
          → Safe e (elim o [ none ↦ csi_edit final ps e | some s ↦ draw e (some s) ])
      after none q = csi_edit-Safe final k
      after (some s) q = draw-Safe e (some s) v q

set_dec_modes-Safe :
    (ms : List Word) (set : Bool) (e : Emulator) → IsValid e → Safe e (set_dec_modes ms set e)
unfolding set_dec_modes
set_dec_modes-Safe [] set e v = (v, refl, refl)
set_dec_modes-Safe (m ∷ ms) set e v =
    bind-Safe e (set_dec_mode m set e) (set_dec_modes ms set) (set_dec_mode-Safe m set e v)
      (λ t w. set_dec_modes-Safe ms set t w)

csi_private-Safe :
    (final : ℕ) (ps : List Word) (e : Emulator) → IsValid e → Safe e (csi_private final ps e)
unfolding csi_private
csi_private-Safe final ps e v =
    ground (arith, v, set_dec_modes-Safe ps true e v, set_dec_modes-Safe ps false e v)

-- On a valid emulator, a control sequence of any final byte and intermediates, with parameters
-- below 2 ^ 62, never panics, keeps the emulator valid and keeps its size, if an erasure up to the
-- cursor (`J` or `K` with 1) meets the cursor left of the right margin.
pub dispatch_csi-Safe :
    (final : ℕ) (ps : List Word) (inter : Bytes) (e : Emulator)
    → IsValid e
    → All IsModest ps
    → ErasesInside final ps e
    → Safe e (dispatch_csi final ps inter e)
unfolding dispatch_csi
dispatch_csi-Safe final ps [] e v h k = csi_plain-Safe e v ps h final k
dispatch_csi-Safe final ps (i ∷ []) e v h k = ground (arith, v, csi_private-Safe final ps e v)
dispatch_csi-Safe final ps (_ ∷ _ ∷ _) e v h k = (v, refl, refl)

-- On a valid emulator no escape sequence panics, whatever its final byte and intermediates, and
-- the emulator stays valid and of its size.
dispatch_esc-Safe :
    (final : ℕ) (inter : Bytes) (e : Emulator) → IsValid e → Safe e (dispatch_esc final inter e)
unfolding dispatch_esc
dispatch_esc-Safe final [] e v = ground (
  arith,
  v,
  save_cursor-Safe e v,
  restore_cursor-Safe e v,
  draw-Safe e (reverse_index (cur e)) v (reverse_index-Sound (cur e) (cur-IsValid e v)),
  hard_reset-Safe e v,
)
dispatch_esc-Safe final (_ ∷ _) e v = (v, refl, refl)
