-- ===== src/Vt/Screen/Draw.antt =====
-- `printRune`, tabulation and `resize` on a valid screen.
use constellate.Common.{
  ℕ, zero, suc, ◌+◌, ◌-◌, ◌*◌, ◌/◌, ◌≤◌, ◌<◌, ◌^◌, ◌≡◌, refl, ◌∙◌, Bool-cases, inl, inr, Option,
  none, some, Word, small, min, le_int, lt_int-small, le_int-small, sub_int-small, add_int-small,
  length, All-set, All-get, length-set, length-overwrite, get_elem?-some, arith, ◌>>=◌,
}
use constellate.Vt.Screen.{
  Grid, Screen, alloc_grid, copy_rows, clamp_below, min_int, resize, with_cells, scroll_up,
  region_top, region_bottom, line_feed, put_rune, print_rune, div_int8, tab,
}
use constellate.Vt.Screen.Valid.{
  IsGrid, IsValid, Sound, SoundGrid, rounds-small, Sound-trans, put_cell-IsGrid, alloc_grid-IsGrid,
}
use constellate.Vt.Screen.Scroll.{slice-some, line_feed-Sound}

abbrev SameColumn : Screen → Option Screen → Type 0
SameColumn s none = Unit
SameColumn s (some t) = t.cx ≡ s.cx

with_cells-SameColumn : (s : Screen) (g : Option Grid) → SameColumn s (with_cells s g)
with_cells-SameColumn s none = tt
with_cells-SameColumn s (some g) = refl

scroll_up-SameColumn : (s : Screen) (top bot n : Word) → SameColumn s (scroll_up top bot n s)
unfolding scroll_up
scroll_up-SameColumn s top bot n = elim (Bool-cases (le_int n 0)) [
  | inl e ↦ rw e
  | inr e ↦ rw e (with_cells-SameColumn s _)
]

line_feed-SameColumn : (s : Screen) → SameColumn s (line_feed s)
unfolding line_feed
line_feed-SameColumn s = ground (arith, scroll_up-SameColumn s (region_top s) (region_bottom s) 1)

put_rune-Sound : (r : ℕ) (s : Screen) → IsValid s → s.cx < s.cols → Sound s (put_rune r s)
unfolding put_rune
put_rune-Sound r s v h =
    let (g, e, w) =
      put_cell-IsGrid s.cols s.rows s.cells s.cy s.cx
        (record { rune = r; fg = s.fg; bg = s.bg; attrs = s.attrs }) v.grid v.cy_lt h in
    rw (e, add_int-small s.cx 1 (omega (arith, v.cols_small))) (ground (arith, w))

-- Printing any character on a valid screen never panics, also when it wraps and scrolls, and keeps
-- the screen valid and of its size.
pub print_rune-Sound : (r : ℕ) (s : Screen) → IsValid s → Sound s (print_rune r s)
unfolding print_rune
print_rune-Sound r s v = elim (Bool-cases (le_int s.cols s.cx)) [
  | inl full ↦
      rw full (after (line_feed home) (line_feed-Sound home home_valid) (line_feed-SameColumn home))
  | inr room ↦ rw room (put_rune-Sound r s v (ground (arith, le_int-small s.cols s.cx)))
]
  where
    home : Screen
    home = record s { cx = 0 }

    home_valid : IsValid home
    home_valid = ground arith

    after : (o : Option Screen) → Sound s o → SameColumn home o → Sound s (o >>= put_rune r)
    after none h k = h
    after (some t) h k =
        Sound-trans s t (put_rune r t) h.1 h.2
          (put_rune-Sound r t h.0 (omega (arith, k, h.0.cols_pos)))

div_int8-small : (x : Word) → x < 2 ^ 63 → div_int8 x ≡ x / 8
unfolding div_int8
div_int8-small x h = ground arith

pub tab-Sound : (s : Screen) → IsValid s → Sound s (some (tab s))
unfolding tab
tab-Sound s v = ground (
  arith,
  div_int8-small s.cx,
  add_int-small (s.cx / 8) 1,
  le_int-small s.cols ((s.cx / 8 + 1) * 8),
  sub_int-small s.cols 1,
)

module _ (old_cols old_rows cols rows n : Word) (old : Grid) (v : IsGrid old_cols old_rows old)
    (n_le : n ≤ old_cols) (n_le' : n ≤ cols) where
  copy_rows-IsGrid :
      (k y : ℕ) (new : Grid)
      → IsGrid cols rows new
      → y + k ≤ old_rows
      → y + k ≤ rows
      → SoundGrid cols rows (copy_rows k n y old new)
  unfolding copy_rows
  copy_rows-IsGrid zero y new w a b = w
  copy_rows-IsGrid (suc k) y new w a b =
      let (src, e) = get_elem?-some old y (omega (arith, v.height)) in
      let (dst, f) = get_elem?-some new y (omega (arith, w.height)) in
      let src_len = All-get (λ r. length r ≡ old_cols) old y src v.widths e in
      let dst_len = All-get (λ r. length r ≡ cols) new y dst w.widths f in
      rw
        (
          e,
          f,
          slice-some src 0 n (omega arith) (omega arith),
          slice-some dst 0 n (omega arith) (omega arith),
        )
        (copy_rows-IsGrid k (y + 1) _
          (record {
            height = length-set new y _ ∙ w.height;
            widths =
                All-set (λ r. length r ≡ cols) new y _ w.widths
                  (length-overwrite dst 0 _ ∙ dst_len);
          })
          (omega arith) (omega arith))

min_int-small : (a b : Word) → a < small → b < small → min_int a b ≡ min a b
unfolding min_int
min_int-small a b h k = ground (arith, lt_int-small b a)

pub clamp_below-small :
    (a b : Word) → a < small → 0 < b → b < small → clamp_below a b ≡ min a (b - 1)
unfolding clamp_below
clamp_below-small a b h k l = ground (arith, le_int-small b a, sub_int-small b 1)

-- A resize never panics and gives a valid screen of the new size.
pub resize-IsValid :
    (cols rows : Word) (s : Screen)
    → IsValid s
    → 0 < cols
    → cols < small
    → 0 < rows
    → rows < small
    → (t : Screen) × (resize cols rows s ≡ some t) × IsValid t × (t.cols ≡ cols) × (t.rows ≡ rows)
unfolding resize
resize-IsValid cols rows s v a b c d =
    rw
      (
        min_int-small rows s.rows d v.rows_small,
        min_int-small cols s.cols b v.cols_small,
        rounds-small 0 (min rows s.rows) (omega arith) (omega (arith, d)),
        clamp_below-small s.cx cols (omega (arith, v.cx_le, v.cols_small)) a b,
        clamp_below-small s.cy rows (omega (arith, v.cy_lt, v.rows_small)) c d,
      )
      (finish (copy_rows (min rows s.rows - 0) (min cols s.cols) 0 s.cells (alloc_grid cols rows)) (
        copy_rows-IsGrid s.cols s.rows cols rows (min cols s.cols) s.cells v.grid (omega arith)
          (omega arith) _ 0 _ (alloc_grid-IsGrid cols rows) (omega arith) (omega arith)))
  where
    result : Grid → Screen
    result g = record s {
      cols = cols;
      rows = rows;
      cells = g;
      cx = min s.cx (cols - 1);
      cy = min s.cy (rows - 1);
      scroll_top = 1;
      scroll_bottom = rows;
    }

    finish :
        (o : Option Grid)
        → SoundGrid cols rows o
        → (t : Screen) × ((o >>= λ g. some (result g)) ≡ some t)
          × IsValid t
          × (t.cols ≡ cols)
          × (t.rows ≡ rows)
    finish none w = absurd w
    finish (some g) w = (result g, refl, ground (arith, w), refl, refl)

pub clamp_below-lt :
    (v limit : Word) → v < 2 ^ 63 → 0 < limit → limit < small → clamp_below v limit < limit
unfolding clamp_below
clamp_below-lt v limit h k l = ground (arith, le_int-small limit v, sub_int-small limit 1)
