-- ===== src/Vt/Emulator/Csi/Safe.antt =====
-- The cases of `dispatchCSI` one by one, on a valid screen.
use constellate.Common.{
  ℕ, ◌+◌, ◌-◌, ◌≤◌, ◌<◌, ◌^◌, Option-cases, inl, inr, Option, none, some, List, Word, small,
  add_int, sub_int, lt_int-small, le_int-small, sub_int-small, add_int-small, lt_int-negative,
  sub_int-negative, All, All-get, get_elem?, arith,
}
use constellate.Vt.Screen.{Screen, clamp_below, region_top, region_bottom, scroll_up, scroll_down}
use constellate.Vt.Screen.Valid.{Sound}
use constellate.Vt.Screen.Valid
use constellate.Vt.Screen.Scroll.{
  region_top_lem, region_bottom_lem, scroll_up-Sound, scroll_down-Sound,
}
use constellate.Vt.Screen.Draw.{clamp_below-lt}
use constellate.Vt.Emulator.Csi.{
  param, absolute, up, down, right, left, floor0, set_scroll_region, insert_lines, delete_lines,
  move,
}

-- A parameter that no addition to a position takes past the largest integer.
abbrev pub IsModest : Word → Type 0
IsModest v = v < 2 ^ 62

pub param-lt :
    (ps : List Word) (i : ℕ) (def bound : Word)
    → All (λ v. v < bound) ps
    → def < bound
    → param ps i def < bound
unfolding param
param-lt ps i def bound h k = elim (Option-cases (get_elem? ps i)) [
  | inl e ↦ rw (e, param) k
  | inr (p, e) ↦ rw (e, param) (ground (arith, All-get (λ v. v < bound) ps i p h e))
]

module _ (s : Screen) (v : Valid.IsValid s) where
  moved-Sound :
      (x y : Word) → x ≤ s.cols → y < s.rows → Sound s (some (record s { cx = x; cy = y }))
  moved-Sound x y h k = ground (arith, v)

  absolute-lt :
      (ps : List Word) (i : ℕ) (limit : Word)
      → All IsModest ps
      → 0 < limit
      → limit < small
      → absolute ps i limit < limit
  unfolding absolute
  absolute-lt ps i limit h k l =
      let p = param-lt ps i 1 (2 ^ 62) h (omega arith) in
      let q : floor0 (sub_int (param ps i 1) 1) < 2 ^ 63 = ground (
        arith,
        p,
        sub_int-small (param ps i 1) 1,
        sub_int-negative (param ps i 1) 1,
        lt_int-small (param ps i 1 - 1) 0,
        lt_int-negative (2 ^ 64 - 1) 0,
      ) in
      clamp_below-lt (floor0 (sub_int (param ps i 1) 1)) limit q k l

  up-le : (n : Word) → n < 2 ^ 62 → floor0 (sub_int s.cy n) < s.rows
  up-le n h = ground (
    arith,
    v,
    sub_int-small s.cy n,
    sub_int-negative s.cy n,
    lt_int-small (s.cy - n) 0,
    lt_int-negative (s.cy + 2 ^ 64 - n) 0,
  )

  left-le : (n : Word) → n < 2 ^ 62 → floor0 (sub_int s.cx n) ≤ s.cols
  left-le n h = ground (
    arith,
    v,
    sub_int-small s.cx n,
    sub_int-negative s.cx n,
    lt_int-small (s.cx - n) 0,
    lt_int-negative (s.cx + 2 ^ 64 - n) 0,
  )

  down-lt : (n : Word) → n < 2 ^ 62 → clamp_below (add_int s.cy n) s.rows < s.rows
  down-lt n h =
      clamp_below-lt (add_int s.cy n) s.rows
        (omega (arith, add_int-small s.cy n, v.cy_lt, v.rows_small)) v.rows_pos v.rows_small

  right-lt : (n : Word) → n < 2 ^ 62 → clamp_below (add_int s.cx n) s.cols < s.cols
  right-lt n h =
      clamp_below-lt (add_int s.cx n) s.cols
        (omega (arith, add_int-small s.cx n, v.cx_le, v.cols_small)) v.cols_pos v.cols_small

  abbrev pub SoundIf : Option Screen → Type 0
  SoundIf none = Unit
  SoundIf (some t) = Sound s (some t)

  pub move-SoundIf : (final : ℕ) (ps : List Word) → All IsModest ps → SoundIf (move final ps s)
  unfolding move up down right left
  move-SoundIf final ps h =
      let n = param-lt ps 0 1 (2 ^ 62) h (omega arith) in
      let m = param ps 0 1 in
      ground (
        arith,
        moved-Sound s.cx (floor0 (sub_int s.cy m)) v.cx_le (up-le m n),
        moved-Sound s.cx (clamp_below (add_int s.cy m) s.rows) v.cx_le (down-lt m n),
        moved-Sound (clamp_below (add_int s.cx m) s.cols) s.cy (omega (arith, right-lt m n))
            v.cy_lt,
        moved-Sound (floor0 (sub_int s.cx m)) s.cy (left-le m n) v.cy_lt,
        moved-Sound 0 (floor0 (sub_int s.cy m)) (omega arith) (up-le m n),
        moved-Sound 0 (clamp_below (add_int s.cy m) s.rows) (omega arith) (down-lt m n),
        moved-Sound (absolute ps 0 s.cols) s.cy
            (omega (arith, absolute-lt ps 0 s.cols h v.cols_pos v.cols_small)) v.cy_lt,
        moved-Sound (absolute ps 1 s.cols) (absolute ps 0 s.rows)
            (omega (arith, absolute-lt ps 1 s.cols h v.cols_pos v.cols_small))
            (absolute-lt ps 0 s.rows h v.rows_pos v.rows_small),
        moved-Sound s.cx (absolute ps 0 s.rows) v.cx_le
            (absolute-lt ps 0 s.rows h v.rows_pos v.rows_small),
      )

  pub set_scroll_region-SoundIf :
      (ps : List Word) → All IsModest ps → SoundIf (set_scroll_region ps s)
  unfolding set_scroll_region
  set_scroll_region-SoundIf ps h =
      let t = param ps 0 1 in
      let b = param ps 1 s.rows in
      ground (
        arith,
        v,
        param-lt ps 0 1 (2 ^ 62) h,
        param-lt ps 1 s.rows (2 ^ 62) h,
        lt_int-small t 1,
        lt_int-small s.rows b,
        lt_int-small 1 s.rows,
        lt_int-small t s.rows,
        lt_int-small 1 b,
        lt_int-small t b,
      )

  pub insert_lines-Sound : (n : Word) → n < 2 ^ 64 → Sound s (insert_lines n s)
  unfolding insert_lines
  insert_lines-Sound n h = rw (region_bottom_lem s v) (
      ground (
        arith,
        scroll_down-Sound s v s.cy (s.scroll_bottom - 1) n,
        le_int-small s.cy (s.scroll_bottom - 1),
        v.cy_lt,
        v.rows_small,
        v.top_pos,
        v.top_le,
        v.bottom_le,
      ))

  pub delete_lines-Sound : (n : Word) → n < 2 ^ 64 → Sound s (delete_lines n s)
  unfolding delete_lines
  delete_lines-Sound n h = rw (region_bottom_lem s v) (
      ground (
        arith,
        scroll_up-Sound s v s.cy (s.scroll_bottom - 1) n,
        le_int-small s.cy (s.scroll_bottom - 1),
        v.cy_lt,
        v.rows_small,
        v.top_pos,
        v.top_le,
        v.bottom_le,
      ))

  pub scroll_region-Sound :
      (n : Word)
      → n < 2 ^ 64
      → Sound s (scroll_up (region_top s) (region_bottom s) n s)
        × Sound s (scroll_down (region_top s) (region_bottom s) n s)
  scroll_region-Sound n h =
      rw (region_bottom_lem s v, region_top_lem s v)
        (
          scroll_up-Sound s v (s.scroll_top - 1) (s.scroll_bottom - 1) n (omega (arith, v.top_le))
              (omega (arith, v.top_pos, v.top_le, v.bottom_le)) h,
          scroll_down-Sound s v (s.scroll_top - 1) (s.scroll_bottom - 1) n (omega (arith, v.top_le))
              (omega (arith, v.top_pos, v.top_le, v.bottom_le)) h,
        )
