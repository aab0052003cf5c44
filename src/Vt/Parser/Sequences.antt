-- ===== src/Vt/Parser/Sequences.antt =====
-- Whole sequences of bytes through the machine.
use constellate.Common.{
  ℕ, ◌+◌, ◌≤◌, ◌<◌, ◌≡◌, refl, ◌∙◌, List, [], ◌∷◌, ◌++◌, Bool, true, false, ◌==◌, ◌||◌,
  if◌then◌else◌, length, length-append, append-nil, append_assoc, All, arith,
}
use constellate.Vt.Parser.{
  Bytes, State, Action, Parser, param_max, osc_max, between, parse_params, feed_byte,
}

abbrev is_nothing : Action → Bool
is_nothing Action.nothing = true
is_nothing _ = false

-- The actions that a run of bytes completes, and the parser behind it.
unfoldable pub feeds : Parser → Bytes → List Action × Parser
feeds p [] = ([], p)
feeds p (b ∷ bs) =
    let (a, q) = feed_byte b p in
    let (acts, r) = feeds q bs in (if is_nothing a then acts else a ∷ acts, r)

-- A parameter byte: a digit or a separator.
abbrev pub is_param : ℕ → Bool
is_param b = between b'0' b'9' b || b == b';'

abbrev pub at_param : Bytes → Bytes → Parser
at_param raw osc = record { state = State.csi_param; inter = []; param_buf = raw; osc_buf = osc }

feeds_params :
    (raw : Bytes) (bs : Bytes) (osc : Bytes) (final : ℕ)
    → All (λ b. is_param b ≡ true) bs
    → length raw + length bs ≤ param_max
    → between 0x40 0x7e final ≡ true
    → feeds (at_param raw osc) (bs ++ final ∷ []) ≡ (
      Action.csi final [] (parse_params (raw ++ bs)) ∷ [],
      record { state = State.ground; inter = []; param_buf = []; osc_buf = osc },
    )
unfolding feeds feed_byte
feeds_params raw [] osc final h k f = rw append-nil (ground (arith, f))
feeds_params raw (b ∷ bs) osc final h k f = ground (
  arith,
  feeds_params (raw ++ b ∷ []) bs osc final h.1,
  length-append raw (b ∷ []),
  append_assoc raw (b ∷ []) bs,
  f,
)

abbrev pub at_entry : Bytes → Parser
at_entry osc = record { state = State.csi_entry; inter = []; param_buf = []; osc_buf = osc }

feeds_entry :
    (bs : Bytes) (osc : Bytes) (final : ℕ)
    → All (λ b. is_param b ≡ true) bs
    → length bs ≤ param_max
    → between 0x40 0x7e final ≡ true
    → feeds (at_entry osc) (bs ++ final ∷ []) ≡ (
      Action.csi final [] (parse_params bs) ∷ [],
      record { state = State.ground; inter = []; param_buf = []; osc_buf = osc },
    )
unfolding feeds feed_byte
feeds_entry [] osc final h k f = ground (arith, f)
feeds_entry (b ∷ bs) osc final h k f = ground (arith, feeds_params (b ∷ []) bs osc final h.1, f)

feeds_introducer :
    (p : Parser) (bs : Bytes) → feeds p (0x1b ∷ b'[' ∷ bs) ≡ feeds (at_entry p.osc_buf) bs
unfolding feeds feed_byte
feeds_introducer p bs = ground arith

-- From any state, `ESC [`, at most 31 digits and semicolons and a final byte complete one action,
-- the control sequence with those parameters, and leave the machine in the ground state.
pub feeds_csi :
    (p : Parser) (bs : Bytes) (final : ℕ)
    → All (λ b. is_param b ≡ true) bs
    → length bs ≤ param_max
    → between 0x40 0x7e final ≡ true
    → feeds p (0x1b ∷ b'[' ∷ (bs ++ final ∷ [])) ≡ (
      Action.csi final [] (parse_params bs) ∷ [],
      record { state = State.ground; inter = []; param_buf = []; osc_buf = p.osc_buf },
    )
feeds_csi p bs final h k f =
    feeds_introducer p (bs ++ final ∷ []) ∙ feeds_entry bs p.osc_buf final h k f

abbrev at_osc : Parser → Bytes → Parser
at_osc p osc = record p { state = State.osc_string; osc_buf = osc }

feeds_payload :
    (p : Parser) (osc bs : Bytes)
    → All (λ b. 0x20 ≤ b) bs
    → length osc + length bs ≤ osc_max
    → feeds (at_osc p osc) (bs ++ 7 ∷ [])
      ≡ (Action.osc (osc ++ bs) ∷ [], record p { state = State.ground; osc_buf = [] })
unfolding feeds feed_byte
feeds_payload p osc [] h k = rw append-nil (ground arith)
feeds_payload p osc (b ∷ bs) h k = ground (
  arith,
  feeds_payload p (osc ++ b ∷ []) bs h.1,
  length-append osc (b ∷ []),
  append_assoc osc (b ∷ []) bs,
)

-- From any state, `ESC ]`, at most 511 bytes none of which is a control, and BEL complete one
-- action, the string of exactly those bytes, and leave the machine in the ground state.
pub feeds_osc :
    (p : Parser) (bs : Bytes)
    → All (λ b. 0x20 ≤ b) bs
    → length bs ≤ osc_max
    → feeds p (0x1b ∷ b']' ∷ (bs ++ 7 ∷ []))
      ≡ (Action.osc bs ∷ [], record p { state = State.ground; inter = []; osc_buf = [] })
unfolding feeds feed_byte
feeds_osc p bs h k = ground (arith, feeds_payload (record p { inter = [] }) [] bs h)

-- The machine on the four bytes of `ESC [ 1` and a final byte.
pub feed_byte-escape :
    (p : Parser)
    → feed_byte 0x1b p ≡ (Action.nothing, record p { state = State.escape; inter = [] })
unfolding feed_byte
feed_byte-escape p = ground arith

pub feed_byte-bracket :
    (p : Parser)
    → feed_byte b'[' (record p { state = State.escape; inter = [] })
      ≡ (Action.nothing, at_entry p.osc_buf)
unfolding feed_byte
feed_byte-bracket p = refl

pub feed_byte_one :
    (osc : Bytes) → feed_byte b'1' (at_entry osc) ≡ (Action.nothing, at_param (b'1' ∷ []) osc)
unfolding feed_byte
feed_byte_one osc = refl

pub feed_byte_final :
    (osc : Bytes) (final : ℕ)
    → between 0x40 0x7e final ≡ true
    → feed_byte final (at_param (b'1' ∷ []) osc) ≡ (
      Action.csi final [] (1 ∷ []),
      record { state = State.ground; inter = []; param_buf = []; osc_buf = osc },
    )
unfolding feed_byte parse_params
feed_byte_final osc final h = ground arith

-- The machine on the bytes of a longer parameter, on any final byte and on what follows it.
pub feed_byte-first :
    (b : ℕ) (osc : Bytes)
    → is_param b ≡ true
    → feed_byte b (at_entry osc) ≡ (Action.nothing, at_param (b ∷ []) osc)
unfolding feed_byte
feed_byte-first b osc h = ground (arith, h)

pub feed_byte-param :
    (b : ℕ) (raw osc : Bytes)
    → is_param b ≡ true
    → length raw < param_max
    → feed_byte b (at_param raw osc) ≡ (Action.nothing, at_param (raw ++ b ∷ []) osc)
unfolding feed_byte
feed_byte-param b raw osc h k = ground (arith, h, k)

abbrev pub at_ground : Bytes → Parser
at_ground osc = record { state = State.ground; inter = []; param_buf = []; osc_buf = osc }

pub feed_byte-csi :
    (raw osc : Bytes) (final : ℕ)
    → between 0x40 0x7e final ≡ true
    → feed_byte final (at_param raw osc) ≡ (Action.csi final [] (parse_params raw), at_ground osc)
unfolding feed_byte
feed_byte-csi raw osc final h = ground (arith, h)

pub feed_byte-print :
    (ch : ℕ) (osc : Bytes)
    → between 0x20 0x7e ch ≡ true
    → feed_byte ch (at_ground osc) ≡ (Action.print ch, at_ground osc)
unfolding feed_byte
feed_byte-print ch osc h = ground (arith, h)
