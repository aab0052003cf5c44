-- ===== src/Common/Ints.antt =====
-- Go's `int`: a 64-bit word, written as the natural number of its bit pattern. A pattern below
-- 2 ^ 63 is that number; one from 2 ^ 63 on is negative. An index is in bounds exactly if its
-- pattern is below the length, which is the test that Go makes too.
use Prim.Native.Nat.{ℕ, ◌+◌, ◌-◌, ◌%◌, ◌^◌, ◌≤◌, ◌<◌}
use mathlib.Core.Path.{◌≡◌}
use mathlib.Core.Bool.{Bool, true, false}
use native.Mathlib.Omega.{arith}
use constellate.Common.Tests.{ltb, leb}

abbrev pub Word : Type 0
Word = ℕ

abbrev pub word_mod : ℕ
word_mod = 2 ^ 64

-- 2 ^ 63 - 1
abbrev pub int_max : ℕ
int_max = 2 ^ 63 - 1

-- sizes and positions below this bound never meet the wrap-around
abbrev pub small : ℕ
small = 2 ^ 32

unfoldable pub add_int : Word → Word → Word
add_int a b = (a + b) % 2 ^ 64

unfoldable pub sub_int : Word → Word → Word
sub_int a b = (a + 2 ^ 64 - b) % 2 ^ 64

-- the signed order
unfoldable pub lt_int : Word → Word → Bool
lt_int a b = ltb ((a + 2 ^ 63) % 2 ^ 64) ((b + 2 ^ 63) % 2 ^ 64)

unfoldable pub le_int : Word → Word → Bool
le_int a b = leb ((a + 2 ^ 63) % 2 ^ 64) ((b + 2 ^ 63) % 2 ^ 64)

pub add_int-small : (a b : Word) → a + b < 2 ^ 64 → add_int a b ≡ a + b
unfolding add_int
add_int-small a b h = omega arith

pub add_int_lt : (a b : Word) → add_int a b < 2 ^ 64
unfolding add_int
add_int_lt a b = omega arith

pub sub_int-small : (a b : Word) → b ≤ a → a < 2 ^ 64 → sub_int a b ≡ a - b
unfolding sub_int
sub_int-small a b h k = omega arith

-- A difference below zero is a negative word.
pub sub_int-negative : (a b : Word) → a < b → b ≤ 2 ^ 63 → sub_int a b ≡ a + 2 ^ 64 - b
unfolding sub_int
sub_int-negative a b h k = omega arith

pub lt_int-small : (a b : Word) → a < 2 ^ 63 → b < 2 ^ 63 → lt_int a b ≡ ltb a b
unfolding lt_int
lt_int-small a b h k = ground arith

pub le_int-small : (a b : Word) → a < 2 ^ 63 → b < 2 ^ 63 → le_int a b ≡ leb a b
unfolding le_int
le_int-small a b h k = ground arith

pub lt_int-negative : (a b : Word) → 2 ^ 63 ≤ a → a < 2 ^ 64 → b < 2 ^ 63 → lt_int a b ≡ true
unfolding lt_int
lt_int-negative a b h k l = ground arith

-- `bot - n + 1` may pass through -1.
pub sub_int-add_one : (a b : Word) → b ≤ a + 1 → a < 2 ^ 63 → add_int (sub_int a b) 1 ≡ a + 1 - b
unfolding add_int sub_int
sub_int-add_one a b h k = omega arith

pub le_int-false : (n : Word) → n < 2 ^ 64 → le_int n 0 ≡ false → (0 < n) × (n < 2 ^ 63)
unfolding le_int
le_int-false n h e = (ground arith, ground arith)
