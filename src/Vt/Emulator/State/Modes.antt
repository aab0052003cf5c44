-- ===== src/Vt/Emulator/State/Modes.antt =====
-- DEC private modes: the alternate screen and the cursor's visibility.
use constellate.Common.{
  ℕ, refl, ◌≡◌, ◌∙◌, Bool, true, false, Option, none, some, ◌>>=◌, Word, arith,
}
use constellate.Vt.Screen
use constellate.Vt.Screen.{Screen}
use constellate.Vt.Screen.Erased.{erase_to_cursor-none}
use constellate.Vt.Emulator.State.{
  Emulator, cur, set_cur, mark, draw, print_rune, save_cursor, restore_cursor, erase_in_display,
  erase_in_line, switch_alt_screen, set_dec_mode,
}
use constellate.Vt.Emulator.State.Safe.{
  IsValid, Safe, cur-IsValid, save_cursor-Safe, restore_cursor-Safe, erase_in_display-Safe,
  switch_alt_screen-Safe,
}

pub Safe-trans :
    (e t : Emulator) (o : Option Emulator) → t.cols ≡ e.cols → t.rows ≡ e.rows → Safe t o → Safe e o
Safe-trans e t none c r h = h
Safe-trans e t (some u) c r h = (h.0, h.1 ∙ c, h.2 ∙ r)

pub bind-Safe :
    (e : Emulator) (o : Option Emulator) (f : Emulator → Option Emulator)
    → Safe e o
    → ((t : Emulator) → IsValid t → Safe t (f t))
    → Safe e (o >>= f)
bind-Safe e none f h k = h
bind-Safe e (some t) f h k = Safe-trans e t (f t) h.1 h.2 (k t h.0)

enter-Safe :
    (e : Emulator)
    → IsValid e
    → Safe e (erase_in_display 2 (switch_alt_screen true (save_cursor e)))
enter-Safe e v =
    let (v₁, c₁, r₁) = save_cursor-Safe e v in
    let (v₂, c₂, r₂) = switch_alt_screen-Safe (save_cursor e) v₁ true in
    Safe-trans e (switch_alt_screen true (save_cursor e))
      (erase_in_display 2 (switch_alt_screen true (save_cursor e))) (c₂ ∙ c₁) (r₂ ∙ r₁)
      (erase_in_display-Safe (switch_alt_screen true (save_cursor e)) v₂ 2
        (λ h. absurd (omega arith)))

leave-Safe : (e : Emulator) → IsValid e → Safe e (some (restore_cursor (switch_alt_screen false e)))
leave-Safe e v =
    let (v₁, c₁, r₁) = switch_alt_screen-Safe e v false in
    Safe-trans e (switch_alt_screen false e) (some (restore_cursor (switch_alt_screen false e))) c₁
      r₁ (restore_cursor-Safe (switch_alt_screen false e) v₁)

pub set_dec_mode-Safe :
    (mode : Word) (set : Bool) (e : Emulator) → IsValid e → Safe e (set_dec_mode mode set e)
unfolding set_dec_mode
set_dec_mode-Safe mode true e v = ground (arith, v, enter-Safe e v, switch_alt_screen-Safe e v true)
set_dec_mode-Safe mode false e v =
    ground (arith, v, leave-Safe e v, switch_alt_screen-Safe e v false)

-- The part of the emulator that drawing on the alternate screen leaves alone.
pub record SamePrimary (e t : Emulator) : Type 0 where
  pub primary : t.primary ≡ e.primary
  pub saved : t.saved_cursor ≡ e.saved_cursor
  pub use_alt : t.use_alt ≡ e.use_alt

-- While the alternate screen shows, whatever is drawn leaves the primary screen as it is.
pub draw-SamePrimary :
    (e t : Emulator) (o : Option Screen) → e.use_alt ≡ true → draw e o ≡ some t → SamePrimary e t
draw-SamePrimary e t none h p = cc
draw-SamePrimary e t (some s) h p = ground arith

pub erase-none :
    (e : Emulator)
    → IsValid e
    → (cur e).cx ≡ (cur e).cols
    → (erase_in_line 1 e ≡ none) × (erase_in_display 1 e ≡ none)
unfolding erase_in_line erase_in_display
erase-none e v h = let n = erase_to_cursor-none (cur e) (cur-IsValid e v) h in (rw n.0, rw n.1)

-- Where the screen refuses a character, the emulator does.
pub print_rune-none :
    (r : ℕ) (e : Emulator) → Screen.print_rune r (cur e) ≡ none → print_rune r e ≡ none
unfolding print_rune
print_rune-none r e h = rw h refl

pub cur-set_cur : (s : Screen) (e : Emulator) → cur (mark (set_cur s e)) ≡ s
cur-set_cur s e = ground arith
