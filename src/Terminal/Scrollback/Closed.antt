-- ===== src/Terminal/Scrollback/Closed.antt =====
-- Only `Close` closes a scrollback.
use constellate.Common.{◌≡◌, refl, ◌∙◌, true, false, [], ◌∷◌, Word, arith}
use constellate.Terminal.Scrollback.{
  Bytes, Scrollback, new, write, shorten, evict, new_with_data, close,
}

pub closed-write : (p : Bytes) (s : Scrollback) → (write p s).closed ≡ s.closed
unfolding write shorten evict
closed-write p s = ground arith

pub closed-new : (max : Word) → (new max).closed ≡ false
unfolding new
closed-new max = refl

pub closed-new_with_data : (max : Word) (p : Bytes) → (new_with_data max p).closed ≡ false
unfolding new_with_data
closed-new_with_data max [] = closed-new max
closed-new_with_data max (b ∷ p) = closed-write (b ∷ p) (new max) ∙ closed-new max

pub closed-close : (s : Scrollback) → (close s).closed ≡ true
unfolding close
closed-close s = refl
