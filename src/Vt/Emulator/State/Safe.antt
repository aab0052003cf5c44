-- ===== src/Vt/Emulator/State/Safe.antt =====
-- The invariant of the type `Emulator`, and the methods that Emulator.State models.
use constellate.Common.{
  ℕ, ◌-◌, ◌≤◌, ◌<◌, ◌^◌, ◌≡◌, refl, Bool, true, false, ◌&&◌, ◌==◌, Bool-cases, inl, inr, Option,
  none, some, [], ◌∷◌, Word, small, le_int, sub_int, lt_int-small, sub_int-small, arith,
}
use constellate.Vt.Parser.{Bytes}
use constellate.Vt.Screen.{Screen, new_screen, tab, room, clamp_below}
use constellate.Vt.Screen
use constellate.Vt.Screen.Valid.{Sound, new_screen-IsValid, new_screen_size}
use constellate.Vt.Screen.Valid
use constellate.Vt.Screen.Draw.{print_rune-Sound, tab-Sound, resize-IsValid, clamp_below-small}
use constellate.Vt.Screen.Scroll.{line_feed-Sound}
use constellate.Vt.Screen.Erase.{
  ErasesInBounds, erase_in_display-Sound, erase_in_line-Sound, erase_chars-Sound,
}
use constellate.Vt.Screen.Shift.{room-pos, insert_chars-Sound, delete_chars-Sound}
use constellate.Vt.Emulator.State.{
  CursorState, Emulator, at_least_one, new, cur, set_cur, draw, print_rune, execute_c0, save_cursor,
  clamp_cursor, restored, restore_cursor, hard_reset, erase_in_display, erase_in_line, erase_chars,
  insert_chars, delete_chars, switch_alt_screen, handle_osc, resize,
}

-- Both screens are valid and have the emulator's size; saved cursors are not negative.
pub record IsValid (e : Emulator) : Type 0 where
  pub primary : Valid.IsValid e.primary
  pub alt : Valid.IsValid e.alt
  pub primary_cols : e.primary.cols ≡ e.cols
  pub primary_rows : e.primary.rows ≡ e.rows
  pub alt_cols : e.alt.cols ≡ e.cols
  pub alt_rows : e.alt.rows ≡ e.rows
  pub saved_x : e.saved_cursor.x < small
  pub saved_y : e.saved_cursor.y < small
  pub saved_alt_x : e.saved_cursor_alt.x < small
  pub saved_alt_y : e.saved_cursor_alt.y < small

-- No panic, and a valid emulator of the same size.
abbrev pub Safe : Emulator → Option Emulator → Type 0
Safe e none = ⊥
Safe e (some t) = IsValid t × (t.cols ≡ e.cols) × (t.rows ≡ e.rows)

pub cur-IsValid : (e : Emulator) → IsValid e → Valid.IsValid (cur e)
cur-IsValid e v = ground (arith, v)

pub draw-Safe : (e : Emulator) (o : Option Screen) → IsValid e → Sound (cur e) o → Safe e (draw e o)
draw-Safe e none v h = h
draw-Safe e (some s) v h = ground (arith, v, h)

pub set_cur-Safe :
    (e : Emulator) (s : Screen) → IsValid e → Sound (cur e) (some s) → Safe e (some (set_cur s e))
set_cur-Safe e s v h = ground (arith, v, h)

at_least_one_lem : (n : Word) → n < small → (0 < at_least_one n) × (at_least_one n < small)
at_least_one_lem n h = (ground (arith, lt_int-small n 1), ground (arith, lt_int-small n 1))

-- `New` of any size below 2 ^ 32, 0 included, gives a valid emulator.
pub new-IsValid : (cols rows : Word) → cols < small → rows < small → IsValid (new cols rows)
unfolding new
new-IsValid cols rows h k =
    let c = at_least_one_lem cols h in
    let r = at_least_one_lem rows k in
    let w = new_screen-IsValid (at_least_one cols) (at_least_one rows) c.0 c.1 r.0 r.1 in
    let size = new_screen_size (at_least_one cols) (at_least_one rows) in
    record {
      primary = w;
      alt = w;
      primary_cols = size.0;
      primary_rows = size.1;
      alt_cols = size.0;
      alt_rows = size.1;
      saved_x = omega arith;
      saved_y = omega arith;
      saved_alt_x = omega arith;
      saved_alt_y = omega arith;
    }

module _ (e : Emulator) (v : IsValid e) where
  pub print_rune-Safe : (r : ℕ) → Safe e (print_rune r e)
  unfolding print_rune
  print_rune-Safe r = draw-Safe e _ v (print_rune-Sound r (cur e) (cur-IsValid e v))

  column-Sound :
      (s : Screen) (x : Word) → Valid.IsValid s → x ≤ s.cols → Sound s (some (record s { cx = x }))
  column-Sound s x w h = ground (arith, w)

  -- On a valid emulator no control character panics, and the emulator stays valid and of its size.
  pub execute_c0-Safe : (b : ℕ) → Safe e (execute_c0 b e)
  unfolding execute_c0
  execute_c0-Safe b =
      let w = cur-IsValid e v in
      let s = cur e in
      ground (
        arith,
        v,
        draw-Safe e (some (record s { cx = 0 })) v (column-Sound s 0 w (omega arith)),
        draw-Safe e (Screen.line_feed s) v (line_feed-Sound s w),
        draw-Safe e (some (tab s)) v (tab-Sound s w),
        λ (p : 0 < s.cx). draw-Safe e (some (record s { cx = sub_int s.cx 1 })) v (
            column-Sound s (sub_int s.cx 1) w
              (omega (arith, sub_int-small s.cx 1, w.cx_le, w.cols_small))),
        lt_int-small 0 s.cx (omega arith) (omega (arith, w.cx_le, w.cols_small)),
      )

  pub save_cursor-Safe : Safe e (some (save_cursor e))
  unfolding save_cursor
  save_cursor-Safe = ground (arith, v)

  clamp_cursor-lt :
      (x limit : Word) → x < small → 0 < limit → limit < small → clamp_cursor x limit < limit
  unfolding clamp_cursor
  clamp_cursor-lt x limit h k l =
      rw (clamp_below-small x limit h k l)
        (ground (arith, lt_int-small (Prim.Native.Nat.min x (limit - 1)) 0))

  restored-Sound :
      (c : CursorState) (s : Screen)
      → Valid.IsValid s
      → c.x < small
      → c.y < small
      → Sound s (some (restored c s))
  unfolding restored
  restored-Sound c s w h k =
      ground (arith, w, clamp_cursor-lt c.x s.cols, clamp_cursor-lt c.y s.rows)

  pub restore_cursor-Safe : Safe e (some (restore_cursor e))
  unfolding restore_cursor
  restore_cursor-Safe =
      draw-Safe e (some _) v
        (restored-Sound _ (cur e) (cur-IsValid e v) (ground (arith, v)) (ground (arith, v)))

  pub hard_reset-Safe : Safe e (some (hard_reset e))
  unfolding hard_reset
  hard_reset-Safe =
      let w =
        new_screen-IsValid e.cols e.rows (omega (arith, v.primary.cols_pos, v.primary_cols))
          (omega (arith, v.primary.cols_small, v.primary_cols))
          (omega (arith, v.primary.rows_pos, v.primary_rows))
          (omega (arith, v.primary.rows_small, v.primary_rows)) in
      let size = new_screen_size e.cols e.rows in
      (
        record {
          primary = w;
          alt = w;
          primary_cols = size.0;
          primary_rows = size.1;
          alt_cols = size.0;
          alt_rows = size.1;
          saved_x = v.saved_x;
          saved_y = v.saved_y;
          saved_alt_x = v.saved_alt_x;
          saved_alt_y = v.saved_alt_y;
        },
        refl,
        refl,
      )

  pub erase_in_display-Safe :
      (mode : Word) → ErasesInBounds mode (cur e) → Safe e (erase_in_display mode e)
  unfolding erase_in_display
  erase_in_display-Safe mode h =
      draw-Safe e _ v (erase_in_display-Sound (cur e) (cur-IsValid e v) mode h)

  pub erase_in_line-Safe :
      (mode : Word) → ErasesInBounds mode (cur e) → Safe e (erase_in_line mode e)
  unfolding erase_in_line
  erase_in_line-Safe mode h = draw-Safe e _ v (erase_in_line-Sound (cur e) (cur-IsValid e v) mode h)

  pub erase_chars-Safe : (n : Word) → Safe e (erase_chars n e)
  unfolding erase_chars
  erase_chars-Safe n = draw-Safe e _ v (erase_chars-Sound (cur e) (cur-IsValid e v) n)

  -- Inserting and deleting characters never panics, at the right margin either, for any count.
  pub insert_chars-Safe : (n : Word) → n < 2 ^ 64 → Safe e (insert_chars n e)
  unfolding insert_chars
  insert_chars-Safe n h = elim (Bool-cases (le_int (room (cur e)) 0)) [
    | inl none_left ↦ rw none_left (v, refl, refl)
    | inr some_left ↦ rw some_left (
        draw-Safe e _ v (
          insert_chars-Sound (cur e) (cur-IsValid e v) n h
            (room-pos (cur e) (cur-IsValid e v) some_left)))
  ]

  pub delete_chars-Safe : (n : Word) → n < 2 ^ 64 → Safe e (delete_chars n e)
  unfolding delete_chars
  delete_chars-Safe n h = elim (Bool-cases (le_int (room (cur e)) 0)) [
    | inl none_left ↦ rw none_left (v, refl, refl)
    | inr some_left ↦ rw some_left (
        draw-Safe e _ v (
          delete_chars-Sound (cur e) (cur-IsValid e v) n h
            (room-pos (cur e) (cur-IsValid e v) some_left)))
  ]

  pub switch_alt_screen-Safe : (set : Bool) → Safe e (some (switch_alt_screen set e))
  unfolding switch_alt_screen
  switch_alt_screen-Safe true = ground (arith, v)
  switch_alt_screen-Safe false = ground (arith, v)

  pub handle_osc-Safe : (p : Bytes) → Safe e (some (handle_osc p e))
  unfolding handle_osc
  handle_osc-Safe (a ∷ b ∷ c ∷ d ∷ []) = ground (arith, v)
  handle_osc-Safe (a ∷ b ∷ c ∷ d ∷ f ∷ cmd) = ground (arith, v)
  handle_osc-Safe _ = (v, refl, refl)

-- Resizing a valid emulator to any size below 2 ^ 32 never panics, and gives a valid emulator of
-- that size, 1 standing for 0.
pub resize-Safe :
    (cols rows : Word) (e : Emulator)
    → IsValid e
    → cols < small
    → rows < small
    → (t : Emulator) × (resize cols rows e ≡ some t)
      × IsValid t
      × (t.cols ≡ at_least_one cols)
      × (t.rows ≡ at_least_one rows)
unfolding resize
resize-Safe cols rows e v h k =
    elim (Bool-cases (at_least_one cols == e.cols && at_least_one rows == e.rows)) [
      | inl same ↦ (e, rw same, v, ground (arith, same), ground (arith, same))
      | inr changed ↦
          let c = at_least_one_lem cols h in
          let r = at_least_one_lem rows k in
          let (p, pe, pv, pc, pr) =
            resize-IsValid (at_least_one cols) (at_least_one rows) e.primary v.primary c.0 c.1 r.0
              r.1 in
          let (a, ae, av, ac, ar) =
            resize-IsValid (at_least_one cols) (at_least_one rows) e.alt v.alt c.0 c.1 r.0 r.1 in
          (
            record e {
              cols = at_least_one cols;
              rows = at_least_one rows;
              primary = p;
              alt = a;
              dirty = true;
            },
            rw (changed, pe, ae),
            record {
              primary = pv;
              alt = av;
              primary_cols = pc;
              primary_rows = pr;
              alt_cols = ac;
              alt_rows = ar;
              saved_x = v.saved_x;
              saved_y = v.saved_y;
              saved_alt_x = v.saved_alt_x;
              saved_alt_y = v.saved_alt_y;
            },
            refl,
            refl,
          )
    ]
