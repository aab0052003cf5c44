-- ===== src/Strings.antt =====
-- The functions of Go's package `strings` that trim white space. A string is the list of its
-- characters.
use constellate.Common.{
  ℕ, ◌≡◌, refl, ap, Bool, true, ◌&&◌, ◌||◌, ◌==◌, leb, if◌then◌else◌, List, [], ◌∷◌, ◌++◌, All,
}

-- `unicode.IsSpace`
unfoldable pub is_space : ℕ → Bool
is_space c =
    (leb 9 c && leb c 13)
    || c == 32
    || c == 0x85
    || c == 0xa0
    || c == 0x1680
    || (leb 0x2000 c && leb c 0x200a)
    || c == 0x2028
    || c == 0x2029
    || c == 0x202f
    || c == 0x205f
    || c == 0x3000

-- `strings.TrimRightFunc(line, unicode.IsSpace)`: space is kept only before another character.
unfoldable pub before_spaces : ℕ → List ℕ → List ℕ
before_spaces c [] = if is_space c then [] else c ∷ []
before_spaces c (d ∷ ds) = c ∷ d ∷ ds

unfoldable pub trim_right : List ℕ → List ℕ
trim_right [] = []
trim_right (c ∷ cs) = before_spaces c (trim_right cs)

unfoldable pub trim_left : List ℕ → List ℕ
trim_left [] = []
trim_left (c ∷ cs) = let rest = trim_left cs in if is_space c then rest else c ∷ cs

-- `strings.TrimSpace`
unfoldable pub trim_space : List ℕ → List ℕ
trim_space s = trim_right (trim_left s)

trim_right-spaces : (ss : List ℕ) → All (λ c. is_space c ≡ true) ss → trim_right ss ≡ []
unfolding trim_right before_spaces
trim_right-spaces [] h = refl
trim_right-spaces (s ∷ ss) h = rw (trim_right-spaces ss h.1, before_spaces, h.0) refl

pub trim_right-append :
    (cs ss : List ℕ) → All (λ c. is_space c ≡ true) ss → trim_right (cs ++ ss) ≡ trim_right cs
unfolding trim_right
trim_right-append [] ss h = trim_right-spaces ss h
trim_right-append (c ∷ cs) ss h = ap (before_spaces c) (trim_right-append cs ss h)
