-- ===== src/Agent/Encode/RoundTrip.antt =====
-- internal/agent/adapter/primary/hubclient/snapshot_encode.go against a viewer, which writes the
-- runs out and pads the row with blanks, as the comment of `encodeSnapshot` says.
use constellate.Common.{
  ℕ, zero, suc, ◌+◌, ◌-◌, ◌≡◌, ◌∙◌, sym, ap, subst, refl, true, Bool-cases, inl, inr, List, [], ◌∷◌,
  ◌++◌, length, length-append, replicate, append_assoc, arith,
}
use constellate.Vt.Screen.{Cell}
use constellate.Agent.Encode.{
  Run, start_run, same_style, extend_run, runs_from, is_all_spaces, is_blank, keep_run, drop_blank,
  encode_row,
}

-- The cells of a run's text.
unfoldable pub cells_of : Run → List ℕ → List Cell
cells_of r [] = []
cells_of r (c ∷ cs) = record { rune = c; fg = r.fg; bg = r.bg; attrs = r.attrs } ∷ cells_of r cs

unfoldable pub written : List Run → List Cell
written [] = []
written (r ∷ rs) = cells_of r r.text ++ written rs

abbrev pub blank : Cell
blank = record { rune = b' '; fg = 0; bg = 0; attrs = 0 }

unfoldable pub padded : ℕ → List Cell → List Cell
padded n cs = cs ++ replicate (n - length cs) blank

cells_of-append :
    (r : Run) (xs ys : List ℕ) → cells_of r (xs ++ ys) ≡ cells_of r xs ++ cells_of r ys
unfolding cells_of
cells_of-append r [] ys = refl
cells_of-append r (x ∷ xs) ys = cc (cells_of-append r xs ys)

same_style_lem :
    (c : Cell) (r : Run)
    → same_style c r ≡ true
    → record { rune = c.rune; fg = r.fg; bg = r.bg; attrs = r.attrs } ≡ c
unfolding same_style
same_style_lem c r e =
    let f : r.fg ≡ c.fg = ground (arith, e) in
    let b : r.bg ≡ c.bg = ground (arith, e) in let a : r.attrs ≡ c.attrs = ground (arith, e) in cc

one_cell : (c : Cell) (r : Run) → same_style c r ≡ true → cells_of r (c.rune ∷ []) ≡ c ∷ []
unfolding cells_of
one_cell c r e = ap (λ x. x ∷ []) (same_style_lem c r e)

-- A run's text does not change its style.
cells_of_text : (r : Run) (t xs : List ℕ) → cells_of (record r { text = t }) xs ≡ cells_of r xs
unfolding cells_of
cells_of_text r t [] = refl
cells_of_text r t (x ∷ xs) =
    ap (◌∷◌ (record { rune = x; fg = r.fg; bg = r.bg; attrs = r.attrs })) (cells_of_text r t xs)

cells_of-extend_run :
    (c : Cell) (r : Run)
    → same_style c r ≡ true
    → cells_of (extend_run c r) (extend_run c r).text ≡ cells_of r r.text ++ (c ∷ [])
unfolding extend_run
cells_of-extend_run c r e =
    cells_of_text r (r.text ++ (c.rune ∷ [])) (r.text ++ (c.rune ∷ []))
    ∙ cells_of-append r r.text (c.rune ∷ [])
    ∙ ap (λ xs. cells_of r r.text ++ xs) (one_cell c r e)

written-runs_from : (r : Run) (cs : List Cell) → written (runs_from r cs) ≡ cells_of r r.text ++ cs
unfolding written runs_from start_run cells_of
written-runs_from r [] = refl
written-runs_from r (c ∷ cs) = elim (Bool-cases (same_style c r)) [
  | inl e ↦ rw e (
      written-runs_from (extend_run c r) cs
      ∙ ap (λ xs. xs ++ cs) (cells_of-extend_run c r e)
      ∙ append_assoc (cells_of r r.text) (c ∷ []) cs)
  | inr e ↦ rw e (ap (λ xs. cells_of r r.text ++ xs) (written-runs_from (start_run c) cs))
]

-- A blank run is written as blanks.
cells_of-blank :
    (r : Run) (xs : List ℕ)
    → r.fg ≡ 0
    → r.bg ≡ 0
    → r.attrs ≡ 0
    → is_all_spaces xs ≡ true
    → cells_of r xs ≡ replicate (length xs) blank
unfolding cells_of is_all_spaces
cells_of-blank r [] f b a e = refl
cells_of-blank r (x ∷ xs) f b a e =
    let p : x ≡ b' ' = ground (arith, e) in
    let q : is_all_spaces xs ≡ true = ground (arith, e) in
    cc (p, f, b, a, cells_of-blank r xs f b a q)

padded-append : (xs ys : List Cell) (n : ℕ) → padded (length xs + n) (xs ++ ys) ≡ xs ++ padded n ys
unfolding padded
padded-append xs ys n =
    append_assoc xs ys (replicate (length xs + n - length (xs ++ ys)) blank)
    ∙ ap (λ k. xs ++ (ys ++ replicate k blank)) (omega (arith, length-append xs ys))

replicate-append : (m n : ℕ) → replicate (m + n) blank ≡ replicate m blank ++ replicate n blank
replicate-append zero n = ap (λ k. replicate k blank) {x = zero + n} (omega arith)
replicate-append (suc m) n =
    ap (λ k. replicate k blank) {x = suc m + n} {y = suc (m + n)} (omega arith)
    ∙ ap (◌∷◌ blank) (replicate-append m n)

all_blank :
    (xs ys : List Cell)
    → xs ≡ replicate (length xs) blank
    → padded (length ys) [] ≡ ys
    → padded (length (xs ++ ys)) [] ≡ xs ++ ys
unfolding padded
all_blank xs ys e h =
    ap (λ k. replicate k blank) {y = length xs + length ys} (omega (arith, length-append xs ys))
    ∙ replicate-append (length xs) (length ys)
    ∙ ap (λ k. replicate (length xs) blank ++ replicate k blank) {y = length ys - 0} (omega arith)
    ∙ ap (λ zs. replicate (length xs) blank ++ zs) h
    ∙ ap (λ zs. zs ++ ys) (sym e)

length-cells_of : (r : Run) (xs : List ℕ) → length (cells_of r xs) ≡ length xs
unfolding cells_of
length-cells_of r [] = refl
length-cells_of r (x ∷ xs) = ap suc (length-cells_of r xs)

is_blank_lem :
    (r : Run) → is_blank r ≡ true → cells_of r r.text ≡ replicate (length (cells_of r r.text)) blank
unfolding is_blank
is_blank_lem r e =
    cells_of-blank r r.text (ground (arith, e)) (ground (arith, e)) (ground (arith, e))
      (ground (arith, e))
    ∙ ap (λ k. replicate k blank) (sym (length-cells_of r r.text))

padded-keep_run :
    (r : Run) (rest : List Run) (ys : List Cell)
    → padded (length ys) (written rest) ≡ ys
    → padded (length (cells_of r r.text ++ ys)) (written (keep_run r rest))
      ≡ cells_of r r.text ++ ys
unfolding written
padded-keep_run r rest ys h = keeps rest h
  where
    kept :
        (o : List Run)
        → padded (length ys) (written o) ≡ ys
        → padded (length (cells_of r r.text ++ ys)) (cells_of r r.text ++ written o)
          ≡ cells_of r r.text ++ ys
    kept o g =
        ap (λ k. padded k (cells_of r r.text ++ written o)) (length-append (cells_of r r.text) ys)
        ∙ padded-append (cells_of r r.text) (written o) (length ys)
        ∙ ap (λ zs. cells_of r r.text ++ zs) g

    keeps :
        (o : List Run)
        → padded (length ys) (written o) ≡ ys
        → padded (length (cells_of r r.text ++ ys)) (written (keep_run r o))
          ≡ cells_of r r.text ++ ys
    keeps (s ∷ more) g = kept (s ∷ more) g
    keeps [] g = elim (Bool-cases (is_blank r)) [
      | inl e ↦ rw e (all_blank (cells_of r r.text) ys (is_blank_lem r e) g)
      | inr e ↦ rw e (kept [] g)
    ]

padded-drop_blank :
    (rs : List Run) → padded (length (written rs)) (written (drop_blank rs)) ≡ written rs
unfolding padded written drop_blank
padded-drop_blank [] = refl
padded-drop_blank (r ∷ rs) = padded-keep_run r (drop_blank rs) (written rs) (padded-drop_blank rs)

-- The runs of any row, written out cell by cell and padded with blanks to the length of the row,
-- are the row.
pub padded-encode_row : (row : List Cell) → padded (length row) (written (encode_row row)) ≡ row
unfolding encode_row written drop_blank cells_of start_run
padded-encode_row [] = padded-drop_blank []
padded-encode_row (c ∷ cs) =
    let e : written (runs_from (start_run c) cs) ≡ c ∷ cs = written-runs_from (start_run c) cs in
    subst (λ xs. padded (length xs) (written (drop_blank (runs_from (start_run c) cs))) ≡ xs) e
      (padded-drop_blank (runs_from (start_run c) cs))
