-- ===== src/Vt/Utf8.antt =====
-- `unicode/utf8.DecodeRune` of Go's standard library, as internal/agent/adapter/secondary/vt uses
-- it, and that package's `utf8RuneLen`.
use Prim.Native.Nat.{bit_and}
use constellate.Common.{ℕ, ◌+◌, ◌*◌, ◌%◌, Bool, ◌&&◌, List, [], ◌∷◌, leb, ltb, ◌==◌, if◌then◌else◌}

-- U+FFFD, which stands for a malformed sequence when the size is 1.
abbrev pub rune_error : ℕ
rune_error = 0xfffd

abbrev pub between : ℕ → ℕ → ℕ → Bool
between lo hi b = leb lo b && leb b hi

-- The range of the second byte depends on the first: no overlong form, surrogate or code point
-- beyond U+10FFFF.
pub accepts : ℕ → ℕ → Bool
accepts b0 b =
    between (if b0 == 0xe0 then 0xa0 else if b0 == 0xf0 then 0x90 else 0x80)
      (if b0 == 0xed then 0x9f else if b0 == 0xf4 then 0x8f else 0xbf) b

abbrev pub is_tail : ℕ → Bool
is_tail b = between 0x80 0xbf b

abbrev pub malformed : ℕ × ℕ
malformed = (rune_error, 1)

pub decode2 : ℕ → List ℕ → ℕ × ℕ
decode2 b0 [] = malformed
decode2 b0 (b1 ∷ _) = if accepts b0 b1 then (b0 % 32 * 64 + b1 % 64, 2) else malformed

pub decode3 : ℕ → List ℕ → ℕ × ℕ
decode3 b0 (b1 ∷ b2 ∷ _) =
    if accepts b0 b1 && is_tail b2 then ((b0 % 16 * 64 + b1 % 64) * 64 + b2 % 64, 3) else malformed
decode3 b0 _ = malformed

pub decode4 : ℕ → List ℕ → ℕ × ℕ
decode4 b0 (b1 ∷ b2 ∷ b3 ∷ _) =
    if accepts b0 b1 && is_tail b2 && is_tail b3
    then (((b0 % 8 * 64 + b1 % 64) * 64 + b2 % 64) * 64 + b3 % 64, 4)
    else malformed
decode4 b0 _ = malformed

-- The rune and its size in bytes.
pub decode_rune : List ℕ → ℕ × ℕ
unfolding decode2 decode3 decode4
decode_rune [] = (rune_error, 0)
decode_rune (b0 ∷ rest) =
    if ltb b0 0x80
    then (b0, 1)
    else if between 0xc2 0xdf b0
    then decode2 b0 rest
    else if between 0xe0 0xef b0
    then decode3 b0 rest
    else if between 0xf0 0xf4 b0
    then decode4 b0 rest
    else malformed

pub utf8_rune_len : ℕ → ℕ
utf8_rune_len b =
    if bit_and b 0x80 == 0
    then 1
    else if bit_and b 0xe0 == 0xc0
    then 2
    else if bit_and b 0xf0 == 0xe0
    then 3
    else if bit_and b 0xf8 == 0xf0
    then 4
    else 1
