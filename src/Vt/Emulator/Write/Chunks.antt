-- ===== src/Vt/Emulator/Write/Chunks.antt =====
-- `Write` on chunks of output, against a fold over single bytes.
use constellate.Common.{
  ℕ, zero, suc, ◌≤◌, ◌≡◌, refl, ap, sym, ◌∙◌, Bool, true, false, Bool-cases, bind_congr, bind_assoc,
  inl, inr, Option, none, some, [], ◌∷◌, ◌++◌, ◌>>=◌, ltb, if◌then◌else◌, length, arith,
}
use constellate.Vt.Parser.{Bytes}
use constellate.Vt.Emulator.State.{Emulator}
use constellate.Vt.Emulator.Write.{ascii_byte, accumulate, try_rune, feed_utf8, write_fuel, write}

-- The effect of one byte on the emulator.
unfoldable pub step_byte : ℕ → Emulator → Option Emulator
step_byte b e = if ltb b 0x80 then ascii_byte b e else (try_rune (accumulate b e) >>= λ r. some r.0)

-- The bytes one after the other.
unfoldable pub steps : Emulator → Bytes → Option Emulator
steps e [] = some e
steps e (b ∷ p) = step_byte b e >>= λ e'. steps e' p

-- A pending partial rune is dropped by a byte below 0x80.
ascii_byte-pending :
    (b : ℕ) (e : Emulator) → ascii_byte b (record e { utf8_buf = [] }) ≡ ascii_byte b e
unfolding ascii_byte
ascii_byte-pending b e = refl

steps-pending :
    (b : ℕ) (p : Bytes) (e : Emulator)
    → ltb b 0x80 ≡ true
    → steps (record e { utf8_buf = [] }) (b ∷ p) ≡ steps e (b ∷ p)
unfolding steps step_byte
steps-pending b p e h = rw (h, ascii_byte-pending)

abbrev EnoughFuel : ℕ → Type 0
EnoughFuel k = (e : Emulator) (p : Bytes) → length p ≤ k → write_fuel k e p ≡ steps e p

feed_utf8-ascii :
    (b : ℕ) (p : Bytes) (e : Emulator)
    → ltb b 0x80 ≡ true
    → feed_utf8 e (b ∷ p) ≡ some (record e { utf8_buf = [] }, b ∷ p)
unfolding feed_utf8
feed_utf8-ascii b p e h = rw (h, feed_utf8)

write_fuel-ascii :
    (k b : ℕ) (p : Bytes) (e : Emulator)
    → ltb b 0x80 ≡ true
    → write_fuel (suc k) e (b ∷ p) ≡ (ascii_byte b e >>= λ e'. write_fuel k e' p)
unfolding write_fuel
write_fuel-ascii k b p e h = rw (h, write_fuel)

write_fuel-high :
    (k b : ℕ) (p : Bytes) (e : Emulator)
    → ltb b 0x80 ≡ false
    → write_fuel (suc k) e (b ∷ p) ≡ (feed_utf8 e (b ∷ p) >>= λ r. write_fuel k r.0 r.1)
unfolding write_fuel
write_fuel-high k b p e h = rw (h, write_fuel)

steps-ascii :
    (b : ℕ) (p : Bytes) (e : Emulator)
    → ltb b 0x80 ≡ true
    → steps e (b ∷ p) ≡ (ascii_byte b e >>= λ e'. steps e' p)
unfolding steps step_byte
steps-ascii b p e h = rw h

steps-high :
    (b : ℕ) (p : Bytes) (e : Emulator)
    → ltb b 0x80 ≡ false
    → steps e (b ∷ p) ≡ ((try_rune (accumulate b e) >>= λ r. some r.0) >>= λ e'. steps e' p)
unfolding steps step_byte
steps-high b p e h = rw h

-- One turn of the loop of `feedUTF8` at a high byte.
abbrev turn : Bytes → Emulator × Bool → Option (Emulator × Bytes)
turn p r = elim r.1 [ true ↦ feed_utf8 r.0 p | false ↦ some (r.0, p) ]

feed_utf8-turn :
    (b : ℕ) (p : Bytes) (e : Emulator)
    → ltb b 0x80 ≡ false
    → feed_utf8 e (b ∷ p) ≡ (try_rune (accumulate b e) >>= turn p)
unfolding feed_utf8
feed_utf8-turn b p e h = rw (h, feed_utf8)

module _ (k : ℕ) (enough : EnoughFuel k) where
  abbrev finish : Emulator × Bytes → Option Emulator
  finish r = write_fuel k r.0 r.1

  feed_utf8-high :
      (b : ℕ) (p : Bytes) (e : Emulator)
      → length p ≤ k
      → ltb b 0x80 ≡ false
      → ((e' : Emulator) → (feed_utf8 e' p >>= finish) ≡ steps e' p)
      → (feed_utf8 e (b ∷ p) >>= finish) ≡ steps e (b ∷ p)
  feed_utf8-high b p e h high ih =
      rw (feed_utf8-turn b p e high, steps-high b p e high) (after (try_rune (accumulate b e)))
    where
      after :
          (o : Option (Emulator × Bool))
          → ((o >>= turn p) >>= finish) ≡ ((o >>= λ r. some r.0) >>= λ e'. steps e' p)
      after none = refl
      after (some (e', true)) = ih e'
      after (some (e', false)) = enough e' p h

  feed_utf8-steps :
      (p : Bytes) (e : Emulator) → length p ≤ k → (feed_utf8 e p >>= finish) ≡ steps e p
  feed_utf8-steps [] e h = unfold feed_utf8 in enough e [] h
  feed_utf8-steps (b ∷ p) e h = elim (Bool-cases (ltb b 0x80)) [
    | inl ascii ↦ rw (feed_utf8-ascii b p e ascii) (enough _ (b ∷ p) h ∙ steps-pending b p e ascii)
    | inr high ↦ feed_utf8-high b p e (omega arith) high (λ e'. feed_utf8-steps p e' (omega arith))
  ]

write_fuel-nil : (k : ℕ) (e : Emulator) → write_fuel k e [] ≡ some e
unfolding write_fuel
write_fuel-nil zero e = refl
write_fuel-nil (suc k) e = refl

write_fuel-steps : (k : ℕ) → EnoughFuel k
write_fuel-steps k e [] h = write_fuel-nil k e ∙ unfold steps in refl
write_fuel-steps zero e (b ∷ p) h = absurd (omega arith)
write_fuel-steps (suc k) e (b ∷ p) h = elim (Bool-cases (ltb b 0x80)) [
  | inl ascii ↦
      rw (write_fuel-ascii k b p e ascii, steps-ascii b p e ascii)
        (bind_congr (ascii_byte b e) _ _ (λ e'. write_fuel-steps k e' p (omega arith)))
  | inr high ↦ rw (write_fuel-high k b p e high) (
      feed_utf8-high k (write_fuel-steps k) b p e (omega arith) high
        (λ e'. feed_utf8-steps k (write_fuel-steps k) p e' (omega arith)))
]

-- The loops of `writeUnlocked` and `feedUTF8`, with the length of the input as fuel, do for every
-- emulator and every input what one step for each byte does, in order; only a panic of a step ends
-- them early, never the fuel.
pub write-steps : (e : Emulator) (p : Bytes) → write e p ≡ steps e p
unfolding write
write-steps e p = write_fuel-steps (length p) e p (omega arith)

steps-append : (p q : Bytes) (e : Emulator) → steps e (p ++ q) ≡ (steps e p >>= λ e'. steps e' q)
unfolding steps
steps-append [] q e = refl
steps-append (b ∷ p) q e =
    bind_congr (step_byte b e) _ _ (λ e'. steps-append p q e')
    ∙ sym (bind_assoc (step_byte b e) (λ e'. steps e' p) (λ e'. steps e' q))

-- Writing two chunks one after the other has the effect of writing them as one, panics included,
-- for every emulator and wherever the cut falls: inside an escape sequence or inside a character
-- too.
pub write-append :
    (e : Emulator) (p q : Bytes) → write e (p ++ q) ≡ (write e p >>= λ e'. write e' q)
write-append e p q =
    write-steps e (p ++ q)
    ∙ steps-append p q e
    ∙ bind_congr (steps e p) _ _ (λ e'. sym (write-steps e' q))
    ∙ ap (λ m. m >>= λ e'. write e' q) (sym (write-steps e p))
