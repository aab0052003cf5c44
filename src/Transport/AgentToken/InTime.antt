-- ===== src/Transport/AgentToken/InTime.antt =====
-- internal/transport/auth.go: how far apart the times are that pass the check of the skew.
use constellate.Common.{
  ℕ, ◌+◌, ◌-◌, ◌%◌, ◌^◌, ◌==◌, ◌≡◌, ◌≤◌, ◌<◌, ◌⊎◌, inl, inr, true, Bool-cases, none, some, Option,
  [], ◌∷◌, Word, leb, le_int, lt_int, sub_int, ◌>>=◌, arith, subst, ap, refl, if◌then◌else◌,
}
use constellate.Maps.{Text, same_text, is_empty}
use constellate.Transport.AgentToken.{
  Crypto, Parsed, parse_digits, parse_up_to, parse_int, parse_parts, parse_agent_token, cut, skew,
}

parse_up_to-le : (limit v : ℕ) (t : Text) → parse_up_to limit t ≡ some v → v ≤ limit
unfolding parse_up_to
parse_up_to-le limit v [] e = cc
parse_up_to-le limit v (c ∷ cs) e = of_digits (parse_digits (c ∷ cs) 0) e
  where
    of_digits :
        (o : Option ℕ) → (o >>= λ w. if leb w limit then some w else none) ≡ some v → v ≤ limit
    of_digits none f = cc
    of_digits (some w) f = ground (arith, f)

negated-lt :
    (o : Option ℕ) (v : Word) → (o >>= λ w. some ((2 ^ 64 - w) % 2 ^ 64)) ≡ some v → v < 2 ^ 64
negated-lt none v e = cc
negated-lt (some w) v e = ground (arith, e)

-- What `strconv.ParseInt` gives is a word.
pub parse_int-lt : (t : Text) (v : Word) → parse_int t ≡ some v → v < 2 ^ 64
unfolding parse_int
parse_int-lt [] v e = cc
parse_int-lt (c ∷ cs) v e = elim (Bool-cases (c == b'-')) [
  | inl m ↦ negated-lt (parse_up_to (2 ^ 63) cs) v (ground (arith, e, m))
  | inr m ↦ elim (Bool-cases (c == b'+')) [
    | inl p ↦ let h = parse_up_to-le (2 ^ 63 - 1) v cs (ground (arith, e, m, p)) in omega (arith, h)
    | inr p ↦
        let h = parse_up_to-le (2 ^ 63 - 1) v (c ∷ cs) (ground (arith, e, m, p)) in omega (arith, h)
  ]
]

bind-some :
    {A B : Type 0} (o : Option A) (f : A → Option B) (b : B)
    → (o >>= f) ≡ some b
    → (a : A) × (o ≡ some a) × (f a ≡ some b)
bind-some none f b e = cc
bind-some (some a) f b e = (a, refl, e)

parse_parts-lt :
    (cr : Crypto) (version id ts sig : Text) (p : Parsed)
    → parse_parts cr version id ts sig ≡ some p
    → p.unix_ts < 2 ^ 64
unfolding parse_parts
parse_parts-lt cr version id ts sig p e = elim (Bool-cases (same_text version (b'v' ∷ b'1' ∷ []))) [
  | inr n ↦ absurd (ground (arith, e, n))
  | inl y ↦ elim (Bool-cases (is_empty id)) [
    | inl n ↦ absurd (ground (arith, e, y, n))
    | inr z ↦
        let (t, a, f) =
          bind-some (parse_int ts)
            (λ t. cr.decode sig >>= λ s. some record { machine_id = id; unix_ts = t; sig = s }) p
            (ground (arith, e, y, z)) in
        let (s, b, g) = bind-some (cr.decode sig) _ p f in
        let q : t ≡ p.unix_ts =
          ap (λ (x : Parsed). x.unix_ts) {x = record { machine_id = id; unix_ts = t; sig = s }}
            {y = p} (cc g) in
        subst (λ x. x < 2 ^ 64) q (parse_int-lt ts t a)
  ]
]

-- The time of a token that parses is a word.
pub parse_agent_token-lt :
    (cr : Crypto) (token : Text) (p : Parsed)
    → parse_agent_token cr token ≡ some p
    → p.unix_ts < 2 ^ 64
unfolding parse_agent_token
parse_agent_token-lt cr token p e =
    let ((version, more), a, f) = bind-some (cut token) _ p e in
    let ((id, rest), b, g) = bind-some (cut more) _ p f in
    let ((ts, sig), c, h) = bind-some (cut rest) _ p g in parse_parts-lt cr version id ts sig p h

-- A word in the order of the signed numbers.
abbrev pub offset : Word → ℕ
offset w = (w + 2 ^ 63) % 2 ^ 64

-- As signed numbers they are at most so far apart.
abbrev pub Near : ℕ → Word → Word → Type 0
Near d a b = (offset a ≤ offset b + d) × (offset b ≤ offset a + d)

-- With a clock below 2 ^ 62, a time within the allowed skew is near, or it is the one whose
-- distance from now, 2 ^ 63, has no negation.
pub skew-Near :
    (now ts : Word)
    → now < 2 ^ 62
    → ts < 2 ^ 64
    → le_int (skew now ts) 120 ≡ true
    → Near 120 now ts ⊎ (ts ≡ now + 2 ^ 63)
unfolding skew sub_int lt_int le_int
skew-Near now ts a b h = ground (arith, h)

-- That one passes the check too.
skew-overflow : (now : Word) → now < 2 ^ 62 → le_int (skew now (now + 2 ^ 63)) 120 ≡ true
unfolding skew sub_int lt_int le_int
skew-overflow now a = ground arith
