-- ===== src/Vt/Sgr/Colors.antt =====
-- The colours of vt/sgr.go as numbers, and the pen behind `applySGR`.
use Prim.Native.Nat.{bit_or, bit_or-bitwise, digits, max}
use constellate.Common.{
  some, ℕ, zero, suc, ◌+◌, ◌*◌, ◌/◌, ◌%◌, ◌^◌, ◌≤◌, ◌<◌, ◌≡◌, ◌⊎◌, inl, refl, List, [], ◌∷◌, Word,
  arith, lt_int-small, lt_int-negative, ap, ◌∙◌, All,
}
use constellate.Vt.Screen.{Screen}
use constellate.Vt.Screen.Valid.{IsValid, Sound}
use constellate.Vt.Sgr.{
  color_truecolor_flag, clamp8, parse_extended_color, apply_attr, apply_code, apply_codes,
  apply_sgr,
}

-- The law for the lowest digit, from the definition that the native operation stands for.
abbrev or_digits : ℕ → ℕ → ℕ → ℕ
or_digits n a b = digits (λ b. b) max n a b

or_digits_fuel : (n m a b : ℕ) → a ≤ n → a ≤ m → or_digits n a b ≡ or_digits m a b
or_digits_fuel zero zero a b p q = refl
or_digits_fuel zero (suc m) zero b p q = refl
or_digits_fuel zero (suc m) (suc a) b p q = absurd (omega arith)
or_digits_fuel (suc n) zero zero b p q = refl
or_digits_fuel (suc n) zero (suc a) b p q = absurd (omega arith)
or_digits_fuel (suc n) (suc m) zero b p q = refl
or_digits_fuel (suc n) (suc m) (suc a) b p q =
    omega (arith, or_digits_fuel n m (suc a / 2) (b / 2) (omega arith) (omega arith))

zero-bit_or : (b : ℕ) → bit_or 0 b ≡ b
zero-bit_or b = bit_or-bitwise 0 b

bit_or_step : (a b : ℕ) → bit_or a b ≡ bit_or (a / 2) (b / 2) * 2 + max (a % 2) (b % 2)
bit_or_step zero b = omega (arith, zero-bit_or b, zero-bit_or (b / 2))
bit_or_step (suc a) b = omega (
  arith,
  bit_or-bitwise (suc a) b,
  bit_or-bitwise (suc a / 2) (b / 2),
  or_digits_fuel a (suc a / 2) (suc a / 2) (b / 2) (omega arith) (omega arith),
)

bit_or-zero_fuel : (n a : ℕ) → a ≤ n → bit_or a 0 ≡ a
bit_or-zero_fuel n zero h = refl
bit_or-zero_fuel zero (suc a) h = absurd (omega arith)
bit_or-zero_fuel (suc n) (suc a) h =
    omega (arith, bit_or_step (suc a) 0, bit_or-zero_fuel n (suc a / 2) (omega arith))

bit_or-zero : (a : ℕ) → bit_or a 0 ≡ a
bit_or-zero a = bit_or-zero_fuel a a (omega arith)

abbrev pow2 : ℕ → ℕ
pow2 zero = 1
pow2 (suc k) = pow2 k * 2

-- Joining a number to bits that are all clear adds it.
bit_or-pow2 : (k a b : ℕ) → b < pow2 k → bit_or (a * pow2 k) b ≡ a * pow2 k + b
bit_or-pow2 zero a b h = let e : b ≡ 0 = omega arith in rw (e, bit_or-zero) (omega arith)
bit_or-pow2 (suc k) a b h =
    let half : a * (pow2 k * 2) / 2 ≡ a * pow2 k = omega arith in
    omega (
      arith,
      bit_or_step (a * (pow2 k * 2)) b,
      ap (λ (t : ℕ). bit_or t (b / 2)) half,
      bit_or-pow2 k a (b / 2) (omega arith),
    )

pub clamp8_le : (v : Word) → v < 2 ^ 64 → clamp8 v ≤ 255
unfolding clamp8
clamp8_le v h = elim (native.Mathlib.Decide.dec_lt v (2 ^ 63)) [
  | yes p ↦ ground (arith, lt_int-small v 0, lt_int-small 255 v)
  | no p ↦ ground (arith, lt_int-negative v 0)
]

clamp8_lem : (v : Word) → v ≤ 255 → clamp8 v ≡ v
unfolding clamp8
clamp8_lem v h = ground (arith, lt_int-small v 0, lt_int-small 255 v)

truecolor_value :
    (r g b : ℕ)
    → r ≤ 255
    → g ≤ 255
    → b ≤ 255
    → bit_or (bit_or (bit_or color_truecolor_flag (r * 2 ^ 16)) (g * 2 ^ 8)) b
      ≡ 0x1000000 + r * 0x10000 + g * 0x100 + b
truecolor_value r g b hr hg hb =
    let e₁ : bit_or color_truecolor_flag (r * 2 ^ 16) ≡ (256 + r) * 2 ^ 16 =
      bit_or-pow2 24 1 (r * 2 ^ 16) (omega arith) ∙ omega arith in
    let e₂ : bit_or ((256 + r) * 2 ^ 16) (g * 2 ^ 8) ≡ ((256 + r) * 256 + g) * 2 ^ 8 =
      bit_or-pow2 16 (256 + r) (g * 2 ^ 8) (omega arith) ∙ omega arith in
    rw (e₁, e₂) (bit_or-pow2 8 ((256 + r) * 256 + g) b (omega arith) ∙ omega arith)

-- `38;2;r;g;b` with components up to 255 consumes four entries and gives the number 0x1RRGGBB: the
-- flag, and the components in the low 24 bits.
parse_extended_color-truecolor :
    (r g b : ℕ) (rest : List Word)
    → r ≤ 255
    → g ≤ 255
    → b ≤ 255
    → parse_extended_color (2 ∷ r ∷ g ∷ b ∷ rest) ≡ (4, 0x1000000 + r * 0x10000 + g * 0x100 + b)
unfolding parse_extended_color
parse_extended_color-truecolor r g b rest hr hg hb =
    rw (clamp8_lem r hr, clamp8_lem g hg, clamp8_lem b hb, truecolor_value r g b hr hg hb)

-- The encoding of a cell's colour: default and palette, or true colour.
abbrev pub IsColor : Word → Type 0
IsColor c = (c ≤ 256) ⊎ ((0x1000000 ≤ c) × (c < 0x2000000))

abbrev IsWord : Word → Type 0
IsWord c = c < 2 ^ 64

parse_extended_color-IsColor :
    (ps : List Word) → All IsWord ps → IsColor (parse_extended_color ps).1
unfolding parse_extended_color
parse_extended_color-IsColor [] h = inl (omega arith)
parse_extended_color-IsColor (k ∷ []) h = ground arith
parse_extended_color-IsColor (k ∷ a ∷ []) h = ground (arith, clamp8_le a h.1.0)
parse_extended_color-IsColor (k ∷ a ∷ b ∷ []) h = ground (arith, clamp8_le a h.1.0)
parse_extended_color-IsColor (k ∷ a ∷ b ∷ c ∷ ps) h = ground (
  arith,
  clamp8_le a h.1.0,
  clamp8_le b h.1.1.0,
  clamp8_le c h.1.1.1.0,
  truecolor_value (clamp8 a) (clamp8 b) (clamp8 c),
)

pub record HasColors (s : Screen) : Type 0 where
  pub fg : IsColor s.fg
  pub bg : IsColor s.bg

-- All but the pen is the same.
pub record SamePage (s t : Screen) : Type 0 where
  pub cols : t.cols ≡ s.cols
  pub rows : t.rows ≡ s.rows
  pub cells : t.cells ≡ s.cells
  pub cx : t.cx ≡ s.cx
  pub cy : t.cy ≡ s.cy
  pub scroll_top : t.scroll_top ≡ s.scroll_top
  pub scroll_bottom : t.scroll_bottom ≡ s.scroll_bottom

apply_attr_pen :
    (c : Word) (s : Screen)
    → SamePage s (apply_attr c s) × ((apply_attr c s).fg ≡ s.fg) × ((apply_attr c s).bg ≡ s.bg)
unfolding apply_attr
apply_attr_pen c s = (ground arith, ground arith, ground arith)

module _ (c : Word) (rest : List Word) (s : Screen) where
  apply_code-SamePage : SamePage s (apply_code c rest s).1
  unfolding apply_code
  apply_code-SamePage = ground (arith, apply_attr_pen c s)

  apply_code-HasColors : All IsWord rest → HasColors s → HasColors (apply_code c rest s).1
  unfolding apply_code
  apply_code-HasColors h v = ground (arith, apply_attr_pen c s, parse_extended_color-IsColor rest h)

SamePage-trans : (s t u : Screen) → SamePage s t → SamePage t u → SamePage s u
SamePage-trans s t u a b = ground (arith, a, b)

apply_codes-SamePage : (k : ℕ) (ps : List Word) (s : Screen) → SamePage s (apply_codes k ps s)
unfolding apply_codes
apply_codes-SamePage k [] s = ground arith
apply_codes-SamePage (suc k) (_ ∷ rest) s = apply_codes-SamePage k rest s
apply_codes-SamePage zero (c ∷ rest) s =
    let t = apply_code c rest s in
    SamePage-trans s t.1 (apply_codes t.0 rest t.1) (apply_code-SamePage c rest s)
      (apply_codes-SamePage t.0 rest t.1)

apply_codes-HasColors :
    (k : ℕ) (ps : List Word) (s : Screen)
    → All IsWord ps
    → HasColors s
    → HasColors (apply_codes k ps s)
unfolding apply_codes
apply_codes-HasColors k [] s h v = v
apply_codes-HasColors (suc k) (_ ∷ rest) s h v = apply_codes-HasColors k rest s h.1 v
apply_codes-HasColors zero (c ∷ rest) s h v =
    let t = apply_code c rest s in
    apply_codes-HasColors t.0 rest t.1 h.1 (apply_code-HasColors c rest s h.1 v)

apply_sgr-SamePage : (ps : List Word) (s : Screen) → SamePage s (apply_sgr ps s)
unfolding apply_sgr
apply_sgr-SamePage [] s = ground arith
apply_sgr-SamePage (c ∷ rest) s = apply_codes-SamePage 0 (c ∷ rest) s

-- Whatever the parameters of `CSI … m`, on a screen whose pen has valid colours (the default, a
-- palette index, or the flag with 24 bits) the pen's colours stay valid, and size, cells and
-- cursor stay as they are.
pub apply_sgr_pen :
    (ps : List Word) (s : Screen)
    → All IsWord ps
    → HasColors s
    → HasColors (apply_sgr ps s) × SamePage s (apply_sgr ps s)
apply_sgr_pen ps s h v = (colors ps h, apply_sgr-SamePage ps s)
  where
    colors : (qs : List Word) → All IsWord qs → HasColors (apply_sgr qs s)
    colors [] h' = unfold apply_sgr in ground arith
    colors (c ∷ rest) h' = unfold apply_sgr in apply_codes-HasColors 0 (c ∷ rest) s h' v

SamePage-IsValid : (s t : Screen) → SamePage s t → IsValid s → IsValid t
SamePage-IsValid s t p v = ground (arith, p, v)

pub apply_sgr-Sound : (ps : List Word) (s : Screen) → IsValid s → Sound s (some (apply_sgr ps s))
apply_sgr-Sound ps s v =
    let p = apply_sgr-SamePage ps s in (SamePage-IsValid s (apply_sgr ps s) p v, p.cols, p.rows)
