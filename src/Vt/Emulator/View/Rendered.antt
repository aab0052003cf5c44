-- ===== src/Vt/Emulator/View/Rendered.antt =====
-- emulator.go: `Render` and `TailText` on a valid emulator.
use constellate.Common.{
  ℕ, zero, suc, ◌≤◌, ◌≡◌, refl, ap, sym, subst, ◌∙◌, false, some, List, [], ◌∷◌, ◌++◌, arith, Word,
  lt_int, lt_int-small, le_int-small, length, get_elem?, get_elem?-some, take, replicate, overwrite,
  All, length-replicate,
}
use constellate.Vt.Screen.{Cell, Screen, Grid}
use constellate.Vt.Screen.Valid.{IsGrid}
use constellate.Vt.Screen.Valid
use constellate.Vt.Emulator.State.{Emulator, cur, next_rev}
use constellate.Vt.Emulator.State.Safe.{IsValid, cur-IsValid}
use constellate.Vt.Emulator.View.{
  Rendering, zero_cell, render_rows, settle, render, row_text, first_text, text_above, cursor_row,
  tail_text,
}

overwrite_whole : (xs ys : List Cell) → length xs ≡ length ys → overwrite xs 0 ys ≡ ys
overwrite_whole [] [] e = refl
overwrite_whole [] (y ∷ ys) e = absurd (omega (arith, e))
overwrite_whole (x ∷ xs) [] e = absurd (omega (arith, e))
overwrite_whole (x ∷ xs) (y ∷ ys) e = ap (◌∷◌ y) (overwrite_whole xs ys (omega (arith, e)))

render_rows_lem :
    (cols : Word) (rows : Grid)
    → All (λ row. length row ≡ cols) rows
    → render_rows cols (length rows) rows ≡ some rows
unfolding render_rows
render_rows_lem cols [] h = refl
render_rows_lem cols (row ∷ rows) (e, h) = rw (render_rows_lem cols rows h) (
    ap (λ r. some (r ∷ rows))
      (overwrite_whole (replicate cols zero_cell) row (length-replicate cols zero_cell ∙ sym e)))

-- The last text that is not empty.
unfoldable pub later_text : List ℕ → List ℕ → List ℕ
later_text t [] = t
later_text t (c ∷ cs) = c ∷ cs

unfoldable pub last_text : Grid → List ℕ
last_text [] = []
last_text (row ∷ rows) = later_text (row_text row) (last_text rows)

later_text_assoc : (a b c : List ℕ) → later_text (later_text a b) c ≡ later_text a (later_text b c)
unfolding later_text
later_text_assoc a b [] = refl
later_text_assoc a b (c ∷ cs) = refl

nil_both : (a : List ℕ) → later_text a [] ≡ later_text [] a
unfolding later_text
nil_both [] = refl
nil_both (c ∷ cs) = refl

last_text-append :
    (rows : Grid) (row : List Cell)
    → last_text (rows ++ (row ∷ [])) ≡ later_text (last_text rows) (row_text row)
unfolding last_text
last_text-append [] row = nil_both (row_text row)
last_text-append (r ∷ rows) row =
    ap (later_text (row_text r)) (last_text-append rows row)
    ∙ sym (later_text_assoc (row_text r) (last_text rows) (row_text row))

take-suc :
    (y : ℕ) (rows : Grid) (row : List Cell)
    → get_elem? rows y ≡ some row
    → take (suc y) rows ≡ take y rows ++ (row ∷ [])
take-suc y [] row e = absurd (cc e)
take-suc zero (r ∷ rows) row e = ap (λ x. x ∷ []) {x = r} (cc e)
take-suc (suc y) (r ∷ rows) row e = ap (◌∷◌ r) (take-suc y rows row e)

first_text_lem : (t a : List ℕ) → first_text t (some a) ≡ some (later_text a t)
unfolding first_text later_text
first_text_lem [] a = refl
first_text_lem (c ∷ cs) a = refl

text_above_lem :
    (y : ℕ) (rows : Grid) → y ≤ length rows → text_above y rows ≡ some (last_text (take y rows))
unfolding text_above last_text
text_above_lem zero rows h = refl
text_above_lem (suc y) rows h =
    let (row, e) = get_elem?-some rows y (omega (arith, h)) in
    rw (e, text_above_lem y rows (omega (arith, h)))
      (first_text_lem (row_text row) (last_text (take y rows))
        ∙ ap some
            (sym (last_text-append (take y rows) row) ∙ ap last_text (sym (take-suc y rows row e))))

cursor_row_lem : (s : Screen) → Valid.IsValid s → cursor_row s ≡ s.cy
unfolding cursor_row
cursor_row_lem s v = ground (arith, v, lt_int-small s.cy 0, le_int-small s.rows s.cy)

-- On a valid emulator `TailText` does not panic, and gives the last text that is not empty of the
-- rows from the first to that of the cursor, or the empty text.
pub tail_text_lem :
    (e : Emulator)
    → IsValid e
    → tail_text e ≡ some (last_text (take (suc (cur e).cy) (cur e).cells))
unfolding tail_text
tail_text_lem e v =
    let w = cur-IsValid e v in
    let n : lt_int (cur e).cy 0 ≡ false = ground (arith, w, lt_int-small (cur e).cy 0) in
    rw (cursor_row_lem (cur e) w, n)
      (text_above_lem (suc (cur e).cy) (cur e).cells (omega (arith, w.cy_lt, w.grid.height)))

-- The rendering that a valid emulator shows.
abbrev pub rendering_of : Emulator → Rendering
rendering_of e = record {
  cols = e.cols;
  rows = e.rows;
  x = (cur e).cx;
  y = (cur e).cy;
  visible = e.cursor_visible;
  cells = (cur e).cells;
}

rows_lem : (e : Emulator) → IsValid e → render_rows e.cols e.rows (cur e).cells ≡ some (cur e).cells
rows_lem e v =
    let w = cur-IsValid e v in
    let c : (cur e).cols ≡ e.cols = ground (arith, v) in
    let r : (cur e).rows ≡ e.rows = ground (arith, v) in
    ap (λ n. render_rows e.cols n (cur e).cells) (sym (w.grid.height ∙ r))
    ∙ render_rows_lem e.cols (cur e).cells
        (subst (λ n. All (λ row. length row ≡ n) (cur e).cells) c w.grid.widths)

-- On a valid emulator `Render` does not panic, copies every cell of the current screen, and its
-- revision is the one that `Rev` announced; a second call gives the same and changes nothing.
pub render_twice :
    (e : Emulator)
    → IsValid e
    → (render e ≡ some (rendering_of e, next_rev e, settle e))
      × (render (settle e) ≡ some (rendering_of e, next_rev e, settle e))
unfolding render settle next_rev
render_twice e v = (rw (rows_lem e v) refl, rw (rows_lem e v) refl)
