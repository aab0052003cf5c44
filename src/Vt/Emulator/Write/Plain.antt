-- ===== src/Vt/Emulator/Write/Plain.antt =====
-- `Write` of output without escape sequences.
use constellate.Common.{
  ℕ, ◌≡◌, ◌≢◌, refl, ◌∙◌, Bool, false, Bool-cases, inl, inr, Option, none, some, [], ◌∷◌, ◌>>=◌,
  ltb, All, arith, leb, ◌==◌, ◌&&◌, length,
}
use constellate.Vt.Parser.{Bytes, State, Action, feed_byte}
use constellate.Vt.Parser.Ground.{PlainAction, feed_byte-ground}
use constellate.Vt.Utf8.{rune_error, decode_rune, utf8_rune_len}
use constellate.Vt.Emulator.State.{Emulator, print_rune, execute_c0}
use constellate.Vt.Emulator.State.Safe.{IsValid, Safe, print_rune-Safe, execute_c0-Safe}
use constellate.Vt.Emulator.State.Text.{SameParser, print_rune-SameParser, execute_c0-SameParser}
use constellate.Vt.Emulator.Write.{dispatch, ascii_byte, accumulate, try_rune, first_or_zero, write}
use constellate.Vt.Emulator.Write.Chunks.{step_byte, steps, write-steps}

-- A valid emulator between sequences.
pub record IsReady (e : Emulator) : Type 0 where
  pub valid : IsValid e
  pub ground : e.ps.state ≡ State.ground

-- The call returns, and leaves a ready emulator of the same size.
abbrev pub Ready : Emulator → Option Emulator → Type 0
Ready e none = ⊥
Ready e (some t) = IsReady t × (t.cols ≡ e.cols) × (t.rows ≡ e.rows)

Ready-of :
    (e : Emulator) (o : Option Emulator)
    → e.ps.state ≡ State.ground
    → Safe e o
    → SameParser e o
    → Ready e o
Ready-of e none g s p = s
Ready-of e (some t) g s p = ground (arith, s, p, g)

dispatch-Ready : (a : Action) (e : Emulator) → PlainAction a → IsReady e → Ready e (dispatch a e)
unfolding dispatch
dispatch-Ready Action.nothing e h r = (r, refl, refl)
dispatch-Ready (Action.print c) e h r =
    Ready-of e (print_rune c e) r.ground (print_rune-Safe e r.valid c) (print_rune-SameParser c e)
dispatch-Ready (Action.execute c) e h r =
    Ready-of e (execute_c0 c e) r.ground (execute_c0-Safe e r.valid c) (execute_c0-SameParser c e)
dispatch-Ready (Action.esc f i) e h r = absurd h
dispatch-Ready (Action.csi f i p) e h r = absurd h
dispatch-Ready (Action.osc p) e h r = absurd h
dispatch-Ready Action.dcs e h r = absurd h

ascii_byte-Ready : (b : ℕ) (e : Emulator) → b ≢ 0x1b → IsReady e → Ready e (ascii_byte b e)
unfolding ascii_byte
ascii_byte-Ready b e h r =
    let (plain, st) = feed_byte-ground b e.ps r.ground h in
    dispatch-Ready (feed_byte b e.ps).0 (record e { utf8_buf = []; ps = (feed_byte b e.ps).1 })
      plain (ground (arith, r, st))

abbrev incomplete : Emulator → Bool
incomplete e = (decode_rune e.utf8_buf).0 == rune_error && (decode_rune e.utf8_buf).1 == 1

abbrev has_all_bytes : Emulator → Bool
has_all_bytes e = leb (utf8_rune_len (first_or_zero e.utf8_buf)) (length e.utf8_buf)

abbrev done : Emulator → Option (Emulator × Bool)
done t = some (record t { utf8_buf = [] }, false)

printed-Ready :
    (e : Emulator) (o : Option Emulator) → Ready e o → Ready e ((o >>= done) >>= λ r. some r.0)
printed-Ready e none h = h
printed-Ready e (some t) h = ground (arith, h)

try_rune-Ready : (e : Emulator) → IsReady e → Ready e (try_rune e >>= λ r. some r.0)
unfolding try_rune
try_rune-Ready e r = elim (Bool-cases (incomplete e)) [
  | inl bad ↦ elim (Bool-cases (has_all_bytes e)) [
    | inl full ↦ rw (bad, full) (ground (arith, r))
    | inr short ↦ rw (bad, short) (r, refl, refl)
  ]
  | inr good ↦ rw good (
      printed-Ready e (print_rune (decode_rune e.utf8_buf).0 e) (
        Ready-of e _ r.ground (print_rune-Safe e r.valid (decode_rune e.utf8_buf).0)
          (print_rune-SameParser (decode_rune e.utf8_buf).0 e)))
]

Ready-trans :
    (e t : Emulator) (o : Option Emulator)
    → t.cols ≡ e.cols
    → t.rows ≡ e.rows
    → Ready t o
    → Ready e o
Ready-trans e t none c r h = h
Ready-trans e t (some u) c r h = (h.0, h.1 ∙ c, h.2 ∙ r)

accumulate-IsReady : (b : ℕ) (e : Emulator) → IsReady e → IsReady (accumulate b e)
accumulate-IsReady b e r = ground (arith, r)

step_byte-Ready : (b : ℕ) (e : Emulator) → b ≢ 0x1b → IsReady e → Ready e (step_byte b e)
unfolding step_byte
step_byte-Ready b e h r = elim (Bool-cases (ltb b 0x80)) [
  | inl ascii ↦ rw ascii (ascii_byte-Ready b e h r)
  | inr high ↦ rw high (
      Ready-trans e (accumulate b e) (try_rune (accumulate b e) >>= λ q. some q.0) refl refl
        (try_rune-Ready (accumulate b e) (accumulate-IsReady b e r)))
]

bind-Ready :
    (e : Emulator) (o : Option Emulator) (f : Emulator → Option Emulator)
    → Ready e o
    → ((t : Emulator) → IsReady t → Ready t (f t))
    → Ready e (o >>= f)
bind-Ready e none f h k = h
bind-Ready e (some t) f h k = Ready-trans e t (f t) h.1 h.2 (k t h.0)

steps-Ready : (p : Bytes) (e : Emulator) → All (λ b. b ≢ 0x1b) p → IsReady e → Ready e (steps e p)
unfolding steps
steps-Ready [] e h r = (r, refl, refl)
steps-Ready (b ∷ p) e h r =
    bind-Ready e (step_byte b e) (λ t. steps t p) (step_byte-Ready b e h.0 r)
      (λ t q. steps-Ready p t h.1 q)

-- Whatever bytes other than ESC are written to a valid emulator whose parser is in its ground
-- state, malformed UTF-8 included, the call returns without a panic, keeps the invariant and the
-- size, and leaves the parser in the ground state.
pub write-Ready :
    (p : Bytes) (e : Emulator) → All (λ b. b ≢ 0x1b) p → IsReady e → Ready e (write e p)
write-Ready p e h r = rw (write-steps e p) (steps-Ready p e h r)
