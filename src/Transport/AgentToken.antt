-- ===== src/Transport/AgentToken.antt =====
-- internal/transport/auth.go: the token with which an agent authenticates. Signing, verifying and
-- base64 are other libraries, and a parameter here; `strings.SplitN`, `strconv.FormatInt` and
-- `strconv.ParseInt` are written out as far as a token needs them.
pub mod RoundTrip
pub mod InTime
use constellate.Common.{
  ℕ, zero, suc, ◌+◌, ◌-◌, ◌*◌, ◌/◌, ◌%◌, ◌^◌, ◌==◌, Bool, true, false, not, ◌&&◌, if◌then◌else◌,
  Option, none, some, List, [], ◌∷◌, ◌++◌, Word, ltb, leb, lt_int, le_int, sub_int, ◌>>=◌,
}
use constellate.Maps.{Text, same_text, is_empty}

-- The functions of `ed25519` and of `base64.RawURLEncoding` that the source calls.
pub record Crypto : Type 0 where
  pub sign : Text → Text → Text
  pub verify : Text → Text → Text → Bool
  pub encode : Text → Text
  pub decode : Text → Option Text

-- The decimal digits of a number, the last `n` of them at most, before `acc`.
unfoldable pub digits : ℕ → ℕ → Text → Text
digits zero v acc = acc
digits (suc n) v acc =
    let rest = digits n (v / 10) ((b'0' + v % 10) ∷ acc) in
    if v / 10 == 0 then (b'0' + v % 10) ∷ acc else rest

-- `strconv.FormatInt(ts, 10)`; twenty digits are enough for any word.
unfoldable pub format_int : Word → Text
format_int ts = if ltb ts (2 ^ 63) then digits 20 ts [] else b'-' ∷ digits 20 (2 ^ 64 - ts) []

-- The number that a string of digits spells.
unfoldable pub parse_digits : Text → ℕ → Option ℕ
parse_digits [] v = some v
parse_digits (c ∷ cs) v =
    let rest = parse_digits cs (v * 10 + (c - b'0')) in
    if leb b'0' c && leb c b'9' then rest else none

-- At least one digit, and no more than the limit.
unfoldable pub parse_up_to : ℕ → Text → Option ℕ
parse_up_to limit [] = none
parse_up_to limit (c ∷ cs) = parse_digits (c ∷ cs) 0 >>= λ v. if leb v limit then some v else none

-- `strconv.ParseInt(s, 10, 64)`: a sign or none, and a number that fits.
unfoldable pub parse_int : Text → Option Word
parse_int [] = none
parse_int (c ∷ cs) =
    if c == b'-'
    then (parse_up_to (2 ^ 63) cs >>= λ v. some ((2 ^ 64 - v) % 2 ^ 64))
    else (if c == b'+' then parse_up_to (2 ^ 63 - 1) cs else parse_up_to (2 ^ 63 - 1) (c ∷ cs))

-- `strings.SplitN(s, ".", 4)` one part at a time: what stands before the first dot, and behind it.
unfoldable pub cut : Text → Option (Text × Text)
cut [] = none
cut (c ∷ cs) =
    let rest = cut cs in if c == b'.' then some ([], cs) else (rest >>= λ (a, b). some (c ∷ a, b))

-- "constellate-agent-auth.v1."
abbrev pub signing_prefix : Text
signing_prefix =
    b'c' ∷ b'o' ∷ b'n' ∷ b's' ∷ b't' ∷ b'e' ∷ b'l' ∷ b'l' ∷ b'a' ∷ b't' ∷ b'e' ∷ b'-' ∷ b'a' ∷ b'g'
    ∷ b'e' ∷ b'n' ∷ b't' ∷ b'-' ∷ b'a' ∷ b'u' ∷ b't' ∷ b'h' ∷ b'.' ∷ b'v' ∷ b'1' ∷ b'.' ∷ []

-- `signingInput`
unfoldable pub signing_input : Text → Word → Text
signing_input machine_id ts = signing_prefix ++ machine_id ++ (b'.' ∷ []) ++ format_int ts

-- `BuildAgentToken`
unfoldable pub build_agent_token : Crypto → Text → Text → Word → Text
build_agent_token cr machine_id priv ts =
    b'v'
    ∷ b'1'
    ∷ b'.'
    ∷ (machine_id
        ++ (b'.'
            ∷ (format_int ts ++ (b'.' ∷ cr.encode (cr.sign priv (signing_input machine_id ts))))))

pub record Parsed : Type 0 where
  pub machine_id : Text
  pub unix_ts : Word
  pub sig : Text

-- `ParseAgentToken` behind the split.
unfoldable pub parse_parts : Crypto → Text → Text → Text → Text → Option Parsed
parse_parts cr version machine_id ts sig =
    if not (same_text version (b'v' ∷ b'1' ∷ []))
    then none
    else (if is_empty machine_id
        then none
        else (parse_int ts >>= λ t.
            cr.decode sig >>= λ s. some record { machine_id = machine_id; unix_ts = t; sig = s }))

-- `ParseAgentToken`
unfoldable pub parse_agent_token : Crypto → Text → Option Parsed
parse_agent_token cr token = do
  (version, more) ← cut token
  (machine_id, rest) ← cut more
  (ts, sig) ← cut rest
  parse_parts cr version machine_id ts sig

-- `now - unixTs`, without its sign.
unfoldable pub skew : Word → Word → Word
skew now ts = if lt_int (sub_int now ts) 0 then sub_int 0 (sub_int now ts) else sub_int now ts

-- `VerifyAgentToken`: whether it returns no error.
unfoldable pub verify_agent_token : Crypto → Text → Text → Word → Text → Word → Word → Bool
verify_agent_token cr pub_key machine_id ts sig now skew_seconds =
    le_int (skew now ts) skew_seconds && cr.verify pub_key (signing_input machine_id ts) sig
