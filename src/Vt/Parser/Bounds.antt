-- ===== src/Vt/Parser/Bounds.antt =====
-- The arrays of the type `parser` in vt/parser.go.
use constellate.Common.{ℕ, ◌≤◌, ◌≡◌, refl, [], ◌∷◌, length, length-append, arith}
use constellate.Vt.Parser.{
  Bytes, State, Parser, inter_max, param_max, osc_max, push, feed_in, c0_in, handle_c0, feed_byte,
}

-- Where the next byte may be written with no guard, the array is empty.
abbrev pub EmptyAt : State → Bytes → Type 0
EmptyAt State.csi_entry xs = xs ≡ []
EmptyAt _ xs = Unit

pub record IsBounded (p : Parser) : Type 0 where
  pub inter_le : length p.inter ≤ inter_max
  pub param_le : length p.param_buf ≤ param_max
  pub osc_le : length p.osc_buf ≤ osc_max
  pub entry : EmptyAt p.state p.param_buf

push_le : (most : ℕ) (xs : Bytes) (b : ℕ) → length xs ≤ most → length (push most xs b) ≤ most
push_le most xs b h = ground (arith, length-append xs (b ∷ []))

module _ (b : ℕ) (p : Parser) (v : IsBounded p) where
  feed_in-IsBounded : (st : State) → p.state ≡ st → IsBounded (feed_in st b p).1
  unfolding feed_in
  feed_in-IsBounded State.csi_entry e = ground (
    arith,
    push_le inter_max p.inter b v.inter_le,
    push_le param_max p.param_buf b v.param_le,
    length-append p.param_buf (b ∷ []),
    v.entry,
    v.osc_le,
  )
  feed_in-IsBounded State.csi_param e = ground (
    arith,
    push_le inter_max p.inter b v.inter_le,
    push_le param_max p.param_buf b v.param_le,
    push_le param_max p.param_buf b';' v.param_le,
    v.osc_le,
  )
  feed_in-IsBounded State.osc_string e = ground (arith, v, push_le osc_max p.osc_buf b v.osc_le)
  feed_in-IsBounded _ e = ground (arith, v, push_le inter_max p.inter b v.inter_le)

  c0_in-IsBounded : (st : State) → IsBounded (c0_in st b p).1
  unfolding c0_in
  c0_in-IsBounded State.osc_string = v
  c0_in-IsBounded _ = ground (arith, v)

  handle_c0-IsBounded : IsBounded (handle_c0 b p).1
  unfolding handle_c0
  handle_c0-IsBounded = ground (arith, v, c0_in-IsBounded p.state)

  -- Whatever byte is fed to a parser that keeps one entry of each of its arrays free, in whatever
  -- state, it keeps one free, so no write to them is out of range.
  pub feed_byte-IsBounded : IsBounded (feed_byte b p).1
  unfolding feed_byte
  feed_byte-IsBounded = ground (arith, handle_c0-IsBounded, feed_in-IsBounded p.state refl)
