-- ===== src/Vt/Screen/Blanks.antt =====
-- `eraseInLine` and `eraseInDisplay` at every position, those outside of the screen too.
use constellate.Common.{
  ℕ, zero, suc, ◌≤◌, ◌≡◌, refl, sym, subst, ◌∙◌, Bool, false, Bool-cases, Option-cases, inl, inr,
  Option, none, some, Word, ◌&&◌, ◌==◌, List, [], ◌∷◌, ltb, if◌then◌else◌, arith, length, get_elem?,
  All-get,
}
use constellate.Vt.Screen.{Grid, Screen, pen_cell, erase_in_display, erase_in_line}
use constellate.Vt.Screen.Valid.{IsGrid, IsValid, Sound}
use constellate.Vt.Screen.Contents.{cell_at, get_elem?-lt}
use constellate.Vt.Screen.Erase.{ErasesInBounds, erase_in_display-Sound, erase_in_line-Sound}
use constellate.Vt.Screen.Erased.{
  in_line, in_display, Erases, erase_in_line-Erases, erase_in_display-Erases,
}

get_elem?-none : {A : Type 0} (xs : List A) (i : ℕ) → length xs ≤ i → get_elem? xs i ≡ none
get_elem?-none [] i h = refl
get_elem?-none (x ∷ xs) zero h = absurd (omega arith)
get_elem?-none (x ∷ xs) (suc i) h = get_elem?-none xs i (omega arith)

abbrev pub is_inside : Screen → ℕ → ℕ → Bool
is_inside s j i = ltb j s.rows && ltb i s.cols

module _ (s : Screen) where
  cell_at-outside :
      (g : Grid) (j i : ℕ) → IsGrid s.cols s.rows g → is_inside s j i ≡ false → cell_at g j i ≡ none
  unfolding cell_at
  cell_at-outside g j i w h = elim (Option-cases (get_elem? g j)) [
    | inl e ↦ rw e refl
    | inr (row, e) ↦
        rw (e, cell_at)
          (get_elem?-none row i (
            ground (
              arith,
              h,
              w.height,
              get_elem?-lt g j row e,
              All-get (λ r. length r ≡ s.cols) g j row w.widths e,
            )))
  ]

-- The call returns, changes cells only, and what every position holds then.
abbrev pub Blanks : Screen → (ℕ → ℕ → Bool) → Option Screen → Type 0
Blanks s erased o =
    (g : Grid) × (o ≡ some (record s { cells = g }))
    × ((j i : ℕ)
        → cell_at g j i
          ≡ (if is_inside s j i && erased j i then some (pen_cell s) else cell_at s.cells j i))

Erases-Blanks :
    (s : Screen) (erased : ℕ → ℕ → Bool) (o : Option Screen)
    → IsValid s
    → Sound s o
    → Erases s erased o
    → Blanks s erased o
Erases-Blanks s erased o v w (g, p, f) = (g, p, at)
  where
    valid : IsGrid s.cols s.rows g
    valid = (subst (Sound s) p w).0.grid

    at :
        (j i : ℕ)
        → cell_at g j i
          ≡ (if is_inside s j i && erased j i then some (pen_cell s) else cell_at s.cells j i)
    at j i = elim (Bool-cases (is_inside s j i)) [
      | inl e ↦ rw e (f j i (ground (arith, e)) (ground (arith, e)))
      | inr e ↦
          rw e (cell_at-outside s g j i valid e ∙ sym (cell_at-outside s s.cells j i v.grid e))
    ]

module _ (s : Screen) (v : IsValid s) (mode : Word) where
  -- On a valid screen, erasing in the line with mode 0, 1 or 2 blanks, in the pen's colours, the
  -- cells of the cursor's row from the cursor on, up to the cursor, or all of them, and changes
  -- nothing else, at every position; mode 1 wants the cursor left of the right margin.
  pub erase_in_line-Blanks :
      mode ≤ 2
      → ErasesInBounds mode s
      → Blanks s (λ j i. j == s.cy && in_line mode s.cx i) (erase_in_line mode s)
  erase_in_line-Blanks m h =
      Erases-Blanks s _ _ v (erase_in_line-Sound s v mode h) (erase_in_line-Erases s v mode m h)

  -- On a valid screen, erasing in the display with mode 0 to 3 blanks, in the pen's colours, the
  -- cells from the cursor on, those up to it, or all, and changes nothing else, at every position;
  -- mode 1 wants the cursor left of the right margin.
  pub erase_in_display-Blanks :
      mode ≤ 3 → ErasesInBounds mode s → Blanks s (in_display mode s) (erase_in_display mode s)
  erase_in_display-Blanks m h =
      Erases-Blanks s _ _ v (erase_in_display-Sound s v mode h)
        (erase_in_display-Erases s v mode m h)
