-- ===== src/Vt/Emulator/Csi/Panics.antt =====
-- Cases of `dispatchCSI` at the right margin and with counts that wrapped.
use constellate.Common.{
  ℕ, ◌+◌, ◌-◌, ◌<◌, ◌≤◌, ap, some, ◌^◌, ◌≡◌, ◌⊎◌, inl, inr, none, [], ◌∷◌, Word, sub_int, arith,
  lt_int-small,
}
use constellate.Vt.Screen.{Screen}
use constellate.Vt.Screen.Valid
use constellate.Vt.Emulator.State.{Emulator, cur, set_cur, mark}
use constellate.Vt.Emulator.State.Safe.{IsValid}
use constellate.Vt.Emulator.State.Modes.{erase-none}
use constellate.Vt.Emulator.Csi.{param0, move, param, csi_edit, csi_plain, dispatch_csi, up}

-- `CSI 1 K` and `CSI 1 J` panic if the cursor stands past the last column.
pub dispatch_csi-none :
    (final : ℕ) (e : Emulator)
    → (final ≡ b'K') ⊎ (final ≡ b'J')
    → IsValid e
    → (cur e).cx ≡ (cur e).cols
    → dispatch_csi final (1 ∷ []) [] e ≡ none
unfolding dispatch_csi csi_plain move csi_edit param0
dispatch_csi-none final e (inl k) v h = rw k (erase-none e v h).0
dispatch_csi-none final e (inr j) v h = rw j (erase-none e v h).1

-- On a valid screen, a cursor-up count that is a negative word moves the cursor down by its
-- absolute value, with no bound, as long as the sum stays below 2 ^ 63.
up_negative :
    (n : Word) (s : Screen)
    → Valid.IsValid s
    → 2 ^ 63 < n
    → n < 2 ^ 64
    → s.cy + (2 ^ 64 - n) < 2 ^ 63
    → (up n s).cy ≡ s.cy + (2 ^ 64 - n)
unfolding up sub_int
up_negative n s v h k l = ground (arith, lt_int-small (s.cy + (2 ^ 64 - n)) 0)

-- By 2 ^ 32 rows, which is below the last one.
pub up_below :
    (s : Screen)
    → Valid.IsValid s
    → (up (2 ^ 64 - 2 ^ 32) s ≡ record s { cy = s.cy + 2 ^ 32 })
      × (s.rows ≤ s.cy + 2 ^ 32)
      × (s.cy + 2 ^ 32 < 2 ^ 63)
unfolding up
up_below s v =
    let h : s.cy + 2 ^ 32 < 2 ^ 63 = omega (arith, v.cy_lt, v.rows_small) in
    (
      ap (λ y. record s { cy = y })
          (up_negative (2 ^ 64 - 2 ^ 32) s v (omega arith) (omega arith) h),
      omega (arith, v.rows_small),
      h,
    )

pub dispatch_csi-up :
    (n : Word) (e : Emulator)
    → 0 < n
    → dispatch_csi b'A' (n ∷ []) [] e ≡ some (mark (set_cur (up n (cur e)) e))
unfolding dispatch_csi csi_plain move param
dispatch_csi-up n e h = ground (arith, h)
