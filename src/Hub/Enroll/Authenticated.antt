-- ===== src/Hub/Enroll/Authenticated.antt =====
-- internal/hub/app/enroll/usecase.go: who `Authenticate` lets in.
use constellate.Common.{
  ◌≡◌, ◌∙◌, sym, ap, refl, ◌+◌, ◌-◌, ◌^◌, ◌≤◌, ◌<◌, true, false, Bool-cases, inl, inr, Option, none,
  some, Word, if◌then◌else◌, le_int, sub_int, arith, ◌⊎◌, sub_int-small, sub_int-negative,
  le_int-small, lt_int-small, lt_int-negative, leb, ltb,
}
use constellate.Maps.{Text, find, is_empty}
use constellate.Hub.Machines.{Machine, is_revoked}
use constellate.Hub.Enroll.{
  Services, Enrolment, authenticate, verify_parsed, verify_key, verify_machine,
}
use constellate.Transport.AgentToken.{
  Parsed, parse_agent_token, build_agent_token, signing_input, skew, verify_agent_token, cut,
}
use constellate.Transport.AgentToken.InTime.{Near, skew-Near, parse_agent_token-lt}
use constellate.Transport.AgentToken.RoundTrip.{parse_agent_token-build_agent_token}

-- What `Authenticate` has found of a token and its machine when it lets it in, with the check of the
-- time as the code makes it.
pub record Passes (sv : Services) (bearer : Text) (now : Word) (w : Enrolment) (id : Text)
    : Type 0 where
  pub parsed : Parsed
  pub key : Text
  pub machine : Machine
  pub is_parsed : parse_agent_token sv.crypto bearer ≡ some parsed
  pub same_id : parsed.machine_id ≡ id
  pub is_enrolled : find id w.creds ≡ some key
  pub is_known : find id w.machines ≡ some machine
  pub not_revoked : is_revoked machine ≡ false
  pub in_skew : le_int (skew now parsed.unix_ts) 120 ≡ true
  pub is_signed : sv.crypto.verify key (signing_input id parsed.unix_ts) parsed.sig ≡ true

-- What a token must be for its machine to be let in at `now`: its time is near, or it is the one
-- whose distance from `now` has no negation.
pub record Admits (sv : Services) (bearer : Text) (now : Word) (w : Enrolment) (id : Text)
    : Type 0 where
  pub parsed : Parsed
  pub key : Text
  pub machine : Machine
  pub is_parsed : parse_agent_token sv.crypto bearer ≡ some parsed
  pub same_id : parsed.machine_id ≡ id
  pub is_enrolled : find id w.creds ≡ some key
  pub is_known : find id w.machines ≡ some machine
  pub not_revoked : is_revoked machine ≡ false
  pub in_time : Near 120 now parsed.unix_ts ⊎ (parsed.unix_ts ≡ now + 2 ^ 63)
  pub is_signed : sv.crypto.verify key (signing_input id parsed.unix_ts) parsed.sig ≡ true

verify_machine_lem :
    (sv : Services) (p : Parsed) (now : Word) (key id : Text) (m : Machine)
    → verify_machine sv p now key (some m) ≡ inr id
    → (p.machine_id ≡ id)
      × (is_revoked m ≡ false)
      × (le_int (skew now p.unix_ts) 120 ≡ true)
      × (sv.crypto.verify key (signing_input p.machine_id p.unix_ts) p.sig ≡ true)
unfolding verify_agent_token
verify_machine_lem sv p now key id m e =
    let s = sv.crypto.verify key (signing_input p.machine_id p.unix_ts) p.sig in
    elim (Bool-cases (is_revoked m)) [
      | inl r ↦ absurd (ground (arith, e, r))
      | inr r ↦ elim (Bool-cases (le_int (skew now p.unix_ts) 120)) [
        | inr l ↦ absurd (ground (arith, e, r, l))
        | inl l ↦ elim (Bool-cases s) [
          | inr v ↦ absurd (ground (arith, e, r, l, v))
          | inl v ↦ (ground (arith, e, r, l, v), r, l, v)
        ]
      ]
    ]

pub authenticate-Passes :
    (sv : Services) (bearer id : Text) (now : Word) (w : Enrolment)
    → authenticate sv bearer now w ≡ inr id
    → Passes sv bearer now w id
unfolding authenticate verify_agent_token
authenticate-Passes sv bearer id now w e = admits_parsed (parse_agent_token sv.crypto bearer) refl e
  where
    admits_machine :
        (p : Parsed) (key : Text) (o : Option Machine)
        → parse_agent_token sv.crypto bearer ≡ some p
        → find p.machine_id w.creds ≡ some key
        → find p.machine_id w.machines ≡ o
        → verify_machine sv p now key o ≡ inr id
        → Passes sv bearer now w id
    admits_machine p key none a b c d = cc
    admits_machine p key (some m) a b c d =
        let (f, r, l, v) = verify_machine_lem sv p now key id m d in
        record {
          parsed = p;
          key = key;
          machine = m;
          is_parsed = a;
          same_id = f;
          is_enrolled = ap (λ x. find x w.creds) (sym f) ∙ b;
          is_known = ap (λ x. find x w.machines) (sym f) ∙ c;
          not_revoked = r;
          in_skew = l;
          is_signed = ap (λ x. sv.crypto.verify key (signing_input x p.unix_ts) p.sig) (sym f) ∙ v;
        }

    admits_key :
        (p : Parsed) (o : Option Text)
        → parse_agent_token sv.crypto bearer ≡ some p
        → find p.machine_id w.creds ≡ o
        → verify_key sv p now w o ≡ inr id
        → Passes sv bearer now w id
    admits_key p none a b d = cc
    admits_key p (some key) a b d = admits_machine p key (find p.machine_id w.machines) a b refl d

    admits_parsed :
        (o : Option Parsed)
        → parse_agent_token sv.crypto bearer ≡ o
        → verify_parsed sv now w o ≡ inr id
        → Passes sv bearer now w id
    admits_parsed none a d = cc
    admits_parsed (some p) a d = admits_key p (find p.machine_id w.creds) a refl d

-- With a clock below 2 ^ 62, `Authenticate` lets a machine in only for a token that parses to its
-- id, whose time is at most 120 seconds from now, or 2 ^ 63 seconds before it, and whose signature
-- the library verifies with the stored key of that machine, which is stored and not revoked.
pub authenticate-Admits :
    (sv : Services) (bearer id : Text) (now : Word) (w : Enrolment)
    → now < 2 ^ 62
    → authenticate sv bearer now w ≡ inr id
    → Admits sv bearer now w id
authenticate-Admits sv bearer id now w clock e =
    let a = authenticate-Passes sv bearer id now w e in
    record {
      parsed = a.parsed;
      key = a.key;
      machine = a.machine;
      is_parsed = a.is_parsed;
      same_id = a.same_id;
      is_enrolled = a.is_enrolled;
      is_known = a.is_known;
      not_revoked = a.not_revoked;
      in_time =
          skew-Near now a.parsed.unix_ts clock
            (parse_agent_token-lt sv.crypto bearer a.parsed a.is_parsed) a.in_skew;
      is_signed = a.is_signed;
    }

ltb_zero : (a n : Word) → le_int n 120 ≡ true → le_int (if ltb n 0 then a else n) 120 ≡ true
ltb_zero a n h = ground (arith, h)

negated_difference :
    (now ts : Word) → now < ts → ts < 2 ^ 62 → sub_int 0 (now + 2 ^ 64 - ts) ≡ ts - now
unfolding sub_int
negated_difference now ts h k = omega arith

in_time-skew :
    (now ts : Word)
    → now < 2 ^ 62
    → ts < 2 ^ 62
    → now ≤ ts + 120
    → ts ≤ now + 120
    → le_int (skew now ts) 120 ≡ true
unfolding skew
in_time-skew now ts a b c d = elim (Bool-cases (leb ts now)) [
  | inl e ↦
      let h : ts ≤ now = ground (arith, e) in
      rw
        (
          sub_int-small now ts h (omega arith),
          lt_int-small (now - ts) 0 (omega arith) (omega arith),
        )
        (ltb_zero _ (now - ts)
          (le_int-small (now - ts) 120 (omega arith) (omega arith) ∙ ground arith))
  | inr e ↦
      let h : now < ts = ground (arith, e) in
      rw
        (
          sub_int-negative now ts h (omega arith),
          lt_int-negative (now + 2 ^ 64 - ts) 0 (omega arith) (omega arith) (omega arith),
          negated_difference now ts h b,
        )
        (le_int-small (ts - now) 120 (omega arith) (omega arith) ∙ ground arith)
]

-- A token that a machine builds with its own key authenticates it, if the machine is stored with
-- the other key of the pair and not revoked, its id is not empty and has no dot, the times are
-- below 2 ^ 62 and at most 120 seconds apart, base64 decodes what it encoded, and the key verifies
-- what its pair signed.
pub authenticate-build_agent_token :
    (sv : Services) (id priv key : Text) (ts now : Word) (m : Machine) (w : Enrolment)
    → ((s : Text) → sv.crypto.decode (sv.crypto.encode s) ≡ some s)
    → ((x : Text) → sv.crypto.verify key x (sv.crypto.sign priv x) ≡ true)
    → (cut id ≡ none) × (is_empty id ≡ false)
    → (now < 2 ^ 62) × (ts < 2 ^ 62) × (now ≤ ts + 120) × (ts ≤ now + 120)
    → find id w.creds ≡ some key
    → find id w.machines ≡ some m
    → is_revoked m ≡ false
    → authenticate sv (build_agent_token sv.crypto id priv ts) now w ≡ inr id
unfolding authenticate verify_agent_token
authenticate-build_agent_token sv id priv key ts now m w d v (c, n) (f, g, h, k) a b r =
    rw
      (
        parse_agent_token-build_agent_token sv.crypto id priv ts d c n (omega arith),
        a,
        b,
        r,
        in_time-skew now ts f g h k,
        v (signing_input id ts),
      )
      refl
