-- ===== src/Hub/Inbound/Hello.antt =====
-- inbound.go: the checks of the first message of a connection, and `ProtocolSupported` of
-- internal/transport/protocol.go.
use constellate.Common.{
  ◌≡◌, ap, ◌∙◌, Bool, false, not, ◌&&◌, if◌then◌else◌, ◌⊎◌, inl, inr, Word, le_int, Bool-cases,
}
use constellate.Maps.{Text, same_text, is_empty}
use constellate.Maps.Laws.{same_text_sound}

-- `Hello`
pub record Hello : Type 0 where
  pub machine_id : Text
  pub instance_id : Text
  pub name : Text
  pub os : Text
  pub arch : Text
  pub agent_version : Text
  pub protocol_version : Word

-- The first frame: a Hello, one that cannot be decoded, or another message.
pub data First : Type 0 where
  hello : Hello → First
  garbled : First
  other : First

pub data HelloError : Type 0 where
  undecodable : HelloError
  expected_hello : HelloError
  unsupported_protocol : HelloError
  machine_id_mismatch : HelloError

abbrev pub min_supported_protocol : Word
min_supported_protocol = 1

abbrev pub max_supported_protocol : Word
max_supported_protocol = 6

-- `ProtocolSupported`
unfoldable pub protocol_supported : Word → Bool
protocol_supported v = le_int min_supported_protocol v && le_int v max_supported_protocol

-- The start of `handleControl`; `auth` is the machine of the credential, or empty.
unfoldable pub check_hello : Text → First → HelloError ⊎ Hello
check_hello auth garbled = inl undecodable
check_hello auth other = inl expected_hello
check_hello auth (hello h) =
    if not (protocol_supported h.protocol_version)
    then inl unsupported_protocol
    else if not (is_empty auth) && not (same_text auth h.machine_id)
    then inl machine_id_mismatch
    else inr h

-- A machine that a credential names speaks for no other.
pub check_hello-Binds :
    (auth : Text) (f : First) (h : Hello)
    → is_empty auth ≡ false
    → check_hello auth f ≡ inr h
    → auth ≡ h.machine_id
unfolding check_hello
check_hello-Binds auth garbled h n e = absurd (cc e)
check_hello-Binds auth other h n e = absurd (cc e)
check_hello-Binds auth (hello g) h n e = elim (Bool-cases (protocol_supported g.protocol_version)) [
  | inl p ↦ elim (Bool-cases (same_text auth g.machine_id)) [
    | inl m ↦
        let q : g ≡ h = cc (rw (p, n, m) at e) in
        same_text_sound auth g.machine_id m ∙ ap (λ (x : Hello). x.machine_id) q
    | inr m ↦ absurd (cc (rw (p, n, m) at e))
  ]
  | inr p ↦ absurd (cc (rw p at e))
]
