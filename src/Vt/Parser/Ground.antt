-- ===== src/Vt/Parser/Ground.antt =====
-- The machine in its ground state, between sequences.
use constellate.Common.{ℕ, ◌≡◌, ◌≢◌, arith}
use constellate.Vt.Parser.{State, Action, Parser, feed_in, handle_c0, feed_byte, c0_in}

-- Printing and control characters, and bytes that do nothing.
abbrev pub PlainAction : Action → Type 0
PlainAction Action.nothing = Unit
PlainAction (Action.print _) = Unit
PlainAction (Action.execute _) = Unit
PlainAction _ = ⊥

feed_in-ground :
    (b : ℕ) (p : Parser)
    → p.state ≡ State.ground
    → PlainAction (feed_in State.ground b p).0 × ((feed_in State.ground b p).1.state ≡ State.ground)
unfolding feed_in
feed_in-ground b p g = (ground arith, ground arith)

c0_in-ground :
    (b : ℕ) (p : Parser)
    → p.state ≡ State.ground
    → PlainAction (c0_in State.ground b p).0 × ((c0_in State.ground b p).1.state ≡ State.ground)
unfolding c0_in
c0_in-ground b p g = (ground arith, ground arith)

-- A byte other than ESC leaves the machine in its ground state if it is there, and completes no
-- escape sequence, control sequence or string.
pub feed_byte-ground :
    (b : ℕ) (p : Parser)
    → p.state ≡ State.ground
    → b ≢ 0x1b
    → PlainAction (feed_byte b p).0 × ((feed_byte b p).1.state ≡ State.ground)
unfolding feed_byte handle_c0
feed_byte-ground b p g h = ground (arith, feed_in-ground b p g, c0_in-ground b p g)
