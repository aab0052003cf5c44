-- ===== src/Terminal/Activity/Question.antt =====
-- internal/agent/domain/terminal/activity.go: `TailLooksLikeQuestion`. A line is the list of its
-- characters, and `unicode.ToLower` is an argument.
use constellate.Common.{
  ℕ, ◌≡◌, ap, Bool, true, false, ◌&&◌, ◌||◌, ◌==◌, leb, List, [], ◌∷◌, ◌++◌, length, All,
}
use mathlib.Core.List.{map}
use constellate.Strings.{is_space, trim_right, trim_right-append}

-- `strings.HasPrefix` and `strings.Contains`
unfoldable pub starts_with : List ℕ → List ℕ → Bool
starts_with s [] = true
starts_with [] (d ∷ ds) = false
starts_with (c ∷ cs) (d ∷ ds) = c == d && starts_with cs ds

unfoldable pub contains : List ℕ → List ℕ → Bool
contains [] sub = starts_with [] sub
contains (c ∷ cs) sub = starts_with (c ∷ cs) sub || contains cs sub

unfoldable pub contains_any : List ℕ → List (List ℕ) → Bool
contains_any s [] = false
contains_any s (sub ∷ subs) = contains s sub || contains_any s subs

-- `strings.HasSuffix(s, "?")`
unfoldable pub ends_asking : List ℕ → Bool
ends_asking [] = false
ends_asking (c ∷ []) = c == b'?'
ends_asking (c ∷ d ∷ ds) = ends_asking (d ∷ ds)

abbrev pub trailing_question_max_runes : ℕ
trailing_question_max_runes = 60

abbrev pub question_substrings : List (List ℕ)
question_substrings =
    (b'(' ∷ b'y' ∷ b'/' ∷ b'n' ∷ b')' ∷ [])
    ∷ (b'[' ∷ b'y' ∷ b'/' ∷ b'n' ∷ b']' ∷ [])
    ∷ (b'(' ∷ b'y' ∷ b'e' ∷ b's' ∷ b'/' ∷ b'n' ∷ b'o' ∷ b')' ∷ [])
    ∷ (b'p' ∷ b'a' ∷ b's' ∷ b's' ∷ b'w' ∷ b'o' ∷ b'r' ∷ b'd' ∷ b':' ∷ [])
    ∷ (b'p' ∷ b'a' ∷ b's' ∷ b's' ∷ b'p' ∷ b'h' ∷ b'r' ∷ b'a' ∷ b's' ∷ b'e' ∷ b':' ∷ [])
    ∷ (b'c' ∷ b'o' ∷ b'n' ∷ b't' ∷ b'i' ∷ b'n' ∷ b'u' ∷ b'e' ∷ b'?' ∷ [])
    ∷ (b'p' ∷ b'r' ∷ b'o' ∷ b'c' ∷ b'e' ∷ b'e' ∷ b'd' ∷ b'?' ∷ [])
    ∷ (b'o' ∷ b'v' ∷ b'e' ∷ b'r' ∷ b'w' ∷ b'r' ∷ b'i' ∷ b't' ∷ b'e' ∷ b'?' ∷ [])
    ∷ (b'd' ∷ b'o' ∷ b' ' ∷ b'y' ∷ b'o' ∷ b'u' ∷ b' ' ∷ b'w' ∷ b'a' ∷ b'n' ∷ b't' ∷ [])
    ∷ (b'p' ∷ b'r' ∷ b'e' ∷ b's' ∷ b's' ∷ b' ' ∷ b'e' ∷ b'n' ∷ b't' ∷ b'e' ∷ b'r' ∷ [])
    ∷ (b'p' ∷ b'r' ∷ b'e' ∷ b's' ∷ b's' ∷ b' ' ∷ b'a' ∷ b'n' ∷ b'y' ∷ b' ' ∷ b'k' ∷ b'e' ∷ b'y'
        ∷ [])
    ∷ (0x276f ∷ [])
    ∷ []

-- What follows the trimming; the text is not empty.
unfoldable pub trimmed_asks : (ℕ → ℕ) → List ℕ → Bool
trimmed_asks lower [] = false
trimmed_asks lower (c ∷ cs) =
    contains_any (map lower (c ∷ cs)) question_substrings
    || (ends_asking (map lower (c ∷ cs)) && leb (length (c ∷ cs)) trailing_question_max_runes)

-- `TailLooksLikeQuestion`
unfoldable pub tail_looks_like_question : (ℕ → ℕ) → List ℕ → Bool
tail_looks_like_question lower line = trimmed_asks lower (trim_right line)

-- White space behind a line does not change the answer.
pub tail_looks_like_question-append :
    (lower : ℕ → ℕ) (line ss : List ℕ)
    → All (λ c. is_space c ≡ true) ss
    → tail_looks_like_question lower (line ++ ss) ≡ tail_looks_like_question lower line
unfolding tail_looks_like_question
tail_looks_like_question-append lower line ss h =
    ap (trimmed_asks lower) (trim_right-append line ss h)
