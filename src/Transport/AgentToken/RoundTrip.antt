-- ===== src/Transport/AgentToken/RoundTrip.antt =====
-- internal/transport/auth.go: a token that was built, read back.
use constellate.Common.{
  ℕ, zero, suc, ◌+◌, ◌*◌, ◌/◌, ◌%◌, ◌^◌, ◌≡◌, ◌∙◌, ap, refl, ◌<◌, ◌==◌, true, false, Bool-cases,
  inl, inr, none, some, [], ◌∷◌, ◌++◌, Word, ltb, arith,
}
use constellate.Maps.{Text, same_text, is_empty}
use constellate.Transport.AgentToken.{
  Crypto, digits, format_int, parse_digits, parse_up_to, parse_int, cut, signing_input,
  build_agent_token, parse_parts, parse_agent_token,
}

parse_digits_next :
    (w d : ℕ) (acc : Text)
    → d < 10
    → parse_digits ((b'0' + d) ∷ acc) w ≡ parse_digits acc (w * 10 + d)
unfolding parse_digits
parse_digits_next w d acc h = ground arith

-- The digits before `acc` spell the number.
parse_digits-digits :
    (n v : ℕ) (acc : Text) → v < 10 ^ n → parse_digits (digits n v acc) 0 ≡ parse_digits acc v
unfolding digits
parse_digits-digits zero v acc h = ap (parse_digits acc) {x = 0} (omega arith)
parse_digits-digits (suc n) v acc h = elim (Bool-cases (v / 10 == 0)) [
  | inl e ↦ rw e (
      parse_digits_next 0 (v % 10) acc (omega arith)
      ∙ ap (parse_digits acc) {y = v} (ground (arith, e)))
  | inr e ↦ rw e (
      parse_digits-digits n (v / 10) ((b'0' + v % 10) ∷ acc) (omega arith)
      ∙ parse_digits_next (v / 10) (v % 10) acc (omega arith)
      ∙ ap (parse_digits acc) {y = v} (omega arith))
]

dotless_digit : (d : ℕ) (a : Text) → cut a ≡ none → cut ((b'0' + d) ∷ a) ≡ none
unfolding cut
dotless_digit d a e = ground (arith, e)

nil_dotless : cut [] ≡ none
unfolding cut
nil_dotless = refl

digits_dotless : (n v : ℕ) (acc : Text) → cut acc ≡ none → cut (digits n v acc) ≡ none
unfolding digits
digits_dotless zero v acc e = e
digits_dotless (suc n) v acc e =
    let d : cut ((b'0' + v % 10) ∷ acc) ≡ none = dotless_digit (v % 10) acc e in
    let r = digits_dotless n (v / 10) ((b'0' + v % 10) ∷ acc) d in
    elim (Bool-cases (v / 10 == 0)) [ inl f ↦ rw f d | inr f ↦ rw f r ]

digits_nonempty : (n v : ℕ) (acc : Text) → is_empty acc ≡ false → is_empty (digits n v acc) ≡ false
unfolding digits
digits_nonempty zero v acc e = e
digits_nonempty (suc n) v acc e = elim (Bool-cases (v / 10 == 0)) [
  | inl f ↦ rw f refl
  | inr f ↦ rw f (digits_nonempty n (v / 10) _ refl)
]

digits_nonempty_suc : (n v : ℕ) → is_empty (digits (suc n) v []) ≡ false
unfolding digits
digits_nonempty_suc n v = elim (Bool-cases (v / 10 == 0)) [
  | inl f ↦ rw f refl
  | inr f ↦ rw f (digits_nonempty n (v / 10) _ refl)
]

ltb-true : (a b : ℕ) → a < b → ltb a b ≡ true
ltb-true a b h = ground arith

parse_int_digits :
    (s : Text) (v : ℕ)
    → is_empty s ≡ false
    → parse_digits s 0 ≡ some v
    → v < 2 ^ 63
    → parse_int s ≡ some v
unfolding parse_int parse_up_to parse_digits
parse_int_digits [] v a e h = cc
parse_int_digits (c ∷ cs) v a e h = ground (arith, e, h)

parse_int-format_int : (ts : Word) → ts < 2 ^ 63 → parse_int (format_int ts) ≡ some ts
unfolding format_int parse_digits
parse_int-format_int ts h = rw (ltb-true ts (2 ^ 63) h) (
    parse_int_digits (digits 20 ts []) ts (digits_nonempty_suc 19 ts)
      (parse_digits-digits 20 ts [] (omega arith)) h)

v1_dotless : cut (b'v' ∷ b'1' ∷ []) ≡ none
unfolding cut
v1_dotless = refl

format_int_dotless : (ts : Word) → ts < 2 ^ 63 → cut (format_int ts) ≡ none
unfolding format_int
format_int_dotless ts h = rw (ltb-true ts (2 ^ 63) h) (digits_dotless 20 ts [] nil_dotless)

cut_dotless : (c : ℕ) (cs : Text) → cut (c ∷ cs) ≡ none → ((c == b'.') ≡ false) × (cut cs ≡ none)
unfolding cut
cut_dotless c cs e = ground (arith, e)

cut-append : (a b : Text) → cut a ≡ none → cut (a ++ (b'.' ∷ b)) ≡ some (a, b)
unfolding cut
cut-append [] b e = refl
cut-append (c ∷ cs) b e = let (f, g) = cut_dotless c cs e in rw (f, cut-append cs b g) refl

-- Of a time that is not negative, and a machine id without a dot.
pub parse_agent_token-build_agent_token :
    (cr : Crypto) (machine_id priv : Text) (ts : Word)
    → ((s : Text) → cr.decode (cr.encode s) ≡ some s)
    → cut machine_id ≡ none
    → is_empty machine_id ≡ false
    → ts < 2 ^ 63
    → parse_agent_token cr (build_agent_token cr machine_id priv ts)
      ≡ some record {
        machine_id = machine_id;
        unix_ts = ts;
        sig = cr.sign priv (signing_input machine_id ts);
      }
unfolding parse_agent_token build_agent_token parse_parts same_text
parse_agent_token-build_agent_token cr machine_id priv ts d a b h =
    let sig = cr.encode (cr.sign priv (signing_input machine_id ts)) in
    rw
      (
        cut-append (b'v' ∷ b'1' ∷ []) (machine_id ++ (b'.' ∷ (format_int ts ++ (b'.' ∷ sig))))
            v1_dotless,
        cut-append machine_id (format_int ts ++ (b'.' ∷ sig)) a,
        cut-append (format_int ts) sig (format_int_dotless ts h),
        b,
        parse_int-format_int ts h,
        d (cr.sign priv (signing_input machine_id ts)),
      )
      refl
