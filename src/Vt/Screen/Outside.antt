-- ===== src/Vt/Screen/Outside.antt =====
-- A screen whose cursor stands below the last row, where nothing can be printed.
use constellate.Common.{
  ℕ, zero, suc, ◌-◌, ◌≤◌, ◌<◌, ◌^◌, ◌≡◌, refl, Bool-cases, inl, inr, none, some, List, [], ◌∷◌,
  Word, le_int, lt_int-small, le_int-small, sub_int-small, length, get_elem?, arith,
}
use constellate.Vt.Screen.{Screen, put_cell, put_rune, print_rune, line_feed, region_bottom}
use constellate.Vt.Screen.Valid.{IsValid}

get_elem?-none : {A : Type 0} (xs : List A) (i : ℕ) → length xs ≤ i → get_elem? xs i ≡ none
get_elem?-none [] i h = refl
get_elem?-none (x ∷ xs) zero h = absurd (omega arith)
get_elem?-none (x ∷ xs) (suc i) h = get_elem?-none xs i (omega arith)

put_rune-none : (r : ℕ) (s : Screen) → length s.cells ≤ s.cy → put_rune r s ≡ none
unfolding put_rune put_cell
put_rune-none r s h = rw (get_elem?-none s.cells s.cy h) refl

-- Below the region a line feed stays in the row.
line_feed_below : (s : Screen) → region_bottom s < s.cy → s.cy < 2 ^ 63 → line_feed s ≡ some s
unfolding line_feed
line_feed_below s h k = ground (arith, lt_int-small s.cy (region_bottom s), h, k)

region_bottom-lt : (s : Screen) → IsValid s → region_bottom s < s.rows
unfolding region_bottom
region_bottom-lt s v = ground (
  arith,
  v.rows_pos,
  v.rows_small,
  v.top_pos,
  v.top_le,
  v.bottom_le,
  sub_int-small s.scroll_bottom 1,
  sub_int-small s.rows 1,
  le_int-small s.rows (s.scroll_bottom - 1),
)

-- Printing panics there, at the right margin too.
pub print_rune-below :
    (r : ℕ) (s : Screen) (y : Word)
    → IsValid s
    → s.rows ≤ y
    → y < 2 ^ 63
    → print_rune r (record s { cy = y }) ≡ none
unfolding print_rune region_bottom
print_rune-below r s y v h k = elim (Bool-cases (le_int s.cols s.cx)) [
  | inl e ↦
      let f =
        line_feed_below (record s { cx = 0; cy = y }) (omega (arith, region_bottom-lt s v, h)) k in
      rw (e, f) (put_rune-none r (record s { cx = 0; cy = y }) (omega (arith, v.grid.height, h)))
  | inr e ↦ rw e (put_rune-none r (record s { cy = y }) (omega (arith, v.grid.height, h)))
]
