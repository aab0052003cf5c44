-- ===== src/Vt/Screen/Contents.antt =====
-- The loops that fill cells and rows, at each position.
use constellate.Common.{
  ℕ, zero, suc, ◌+◌, ◌≤◌, ◌<◌, ◌≡◌, refl, sym, Bool-cases, inl, inr, Option, none, some, List, [],
  ◌∷◌, Word, ◌&&◌, ◌==◌, ltb, leb, if◌then◌else◌, length, get_elem?, set, All-get, get_elem?-some,
  arith, ◌>>=◌, get_elem?-set_self, get_elem?-set_ne, ==_refl, Option-cases, replicate,
  length-replicate,
}
use constellate.Vt.Screen.{Cell, Grid, put_cell, fill_cells, fill_rows}
use constellate.Vt.Screen.Valid.{IsGrid, put_cell-IsGrid, put_row-IsGrid}

-- The cell in column `x` of row `y`.
unfoldable pub cell_at : Grid → ℕ → ℕ → Option Cell
cell_at g y x = get_elem? g y >>= λ row. get_elem? row x

get_elem?-set :
    {A : Type 0} (xs : List A) (i j : ℕ) (v : A)
    → i < length xs
    → get_elem? (set xs i v) j ≡ (if j == i then some v else get_elem? xs j)
get_elem?-set xs i j v h = elim (native.Mathlib.Decide.ℕ_discrete j i) [
  | yes e ↦ rw (e, ==_refl i) (get_elem?-set_self xs i v h)
  | no ne ↦ ground (arith, get_elem?-set_ne xs i j v (λ e. ne (sym e)))
]

pub get_elem?-lt :
    {A : Type 0} (xs : List A) (i : ℕ) (v : A) → get_elem? xs i ≡ some v → i < length xs
get_elem?-lt [] i v e = cc
get_elem?-lt (x ∷ xs) zero v e = omega arith
get_elem?-lt (x ∷ xs) (suc i) v e = omega (arith, get_elem?-lt xs i v e)

cell_at-put_cell :
    (g g' : Grid) (y x : ℕ) (c : Cell) (j i : ℕ)
    → put_cell g y x c ≡ some g'
    → cell_at g' j i ≡ (if j == y && i == x then some c else cell_at g j i)
unfolding cell_at put_cell
cell_at-put_cell g g' y x c j i p = elim (Option-cases (get_elem? g y)) [
  | inl e ↦ cc (rw e at p)
  | inr (row, e) ↦ elim (Bool-cases (ltb x (length row))) [
    | inl lt ↦ ground (
      arith,
      rw (e, lt) at p,
      get_elem?-set g y j (set row x c),
      get_elem?-set row x i c,
      e,
      get_elem?-lt g y row e,
    )
    | inr ge ↦ cc (rw (e, ge) at p)
  ]
]

get_elem?-replicate : {A : Type 0} (n i : ℕ) (a : A) → i < n → get_elem? (replicate n a) i ≡ some a
get_elem?-replicate zero i a h = absurd (omega arith)
get_elem?-replicate (suc n) zero a h = refl
get_elem?-replicate (suc n) (suc i) a h = get_elem?-replicate n i a (omega arith)

cell_at-set_row :
    (g : Grid) (y : ℕ) (row : List Cell) (j i : ℕ)
    → y < length g
    → cell_at (set g y row) j i ≡ (if j == y then get_elem? row i else cell_at g j i)
unfolding cell_at
cell_at-set_row g y row j i h = ground (arith, get_elem?-set g y j row h)

module _ (cols rows : Word) where
  put_cell-none :
      (g : Grid) (y x : ℕ) (c : Cell)
      → IsGrid cols rows g
      → y < rows
      → cols ≤ x
      → put_cell g y x c ≡ none
  unfolding put_cell
  put_cell-none g y x c v h k =
      let (row, e) = get_elem?-some g y (omega (arith, v.height)) in
      let w = All-get (λ r. length r ≡ cols) g y row v.widths e in rw e (ground (arith, w))

  pub fill_cells-cell_at :
      (k : ℕ) (g : Grid) (y x : ℕ) (c : Cell)
      → IsGrid cols rows g
      → y < rows
      → x + k ≤ cols
      → (g' : Grid) × (fill_cells k g y x c ≡ some g')
        × IsGrid cols rows g'
        × ((j i : ℕ)
            → cell_at g' j i
              ≡ (if j == y && leb x i && ltb i (x + k) then some c else cell_at g j i))
  unfolding fill_cells
  fill_cells-cell_at zero g y x c v h b = (g, refl, v, λ j i. ground arith)
  fill_cells-cell_at (suc k) g y x c v h b =
      let (g₁, p, v₁) = put_cell-IsGrid cols rows g y x c v h (omega arith) in
      let (g₂, q, v₂, f) = fill_cells-cell_at k g₁ y (x + 1) c v₁ h (omega arith) in
      (g₂, rw p q, v₂, λ j i. ground (arith, f j i, cell_at-put_cell g g₁ y x c j i p))

  pub fill_rows-cell_at :
      (k : ℕ) (g : Grid) (y : ℕ) (c : Cell)
      → IsGrid cols rows g
      → y + k ≤ rows
      → (g' : Grid) × (fill_rows k g y (replicate cols c) ≡ some g')
        × IsGrid cols rows g'
        × ((j i : ℕ)
            → i < cols
            → cell_at g' j i ≡ (if leb y j && ltb j (y + k) then some c else cell_at g j i))
  unfolding fill_rows
  fill_rows-cell_at zero g y c v b = (g, refl, v, λ j i l. ground arith)
  fill_rows-cell_at (suc k) g y c v b =
      let (p, v₁) =
        put_row-IsGrid cols rows g y (replicate cols c) v (omega arith) (length-replicate cols c) in
      let (g₂, q, v₂, f) =
        fill_rows-cell_at k (set g y (replicate cols c)) (y + 1) c v₁ (omega arith) in
      (
        g₂,
        rw p q,
        v₂,
        λ j i l. ground (
          arith,
          f j i l,
          cell_at-set_row g y (replicate cols c) j i (omega (arith, v.height)),
          get_elem?-replicate cols i c l,
        ),
      )

  pub fill_cells-none :
      (k : ℕ) (g : Grid) (y x : ℕ) (c : Cell)
      → IsGrid cols rows g
      → y < rows
      → x ≤ cols
      → cols < x + k
      → fill_cells k g y x c ≡ none
  unfolding fill_cells
  fill_cells-none zero g y x c v h a b = absurd (omega arith)
  fill_cells-none (suc k) g y x c v h a b = elim (native.Mathlib.Decide.dec_lt x cols) [
    | yes lt ↦
        let (g₁, p, v₁) = put_cell-IsGrid cols rows g y x c v h lt in
        rw p (fill_cells-none k g₁ y (x + 1) c v₁ h (omega arith) (omega arith))
    | no ge ↦ rw (put_cell-none g y x c v h (omega arith))
  ]
