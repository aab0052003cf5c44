-- ===== src/Hub/Auth/Sessions.antt =====
-- internal/hub/app/auth/usecase.go: the sliding expiry of an operator's session, with times and the
-- lifetime below 2 ^ 62, so that no sum or difference wraps.
use constellate.Common.{
  ◌+◌, ◌^◌, ◌≡◌, ◌∙◌, refl, ◌<◌, ◌≤◌, true, false, Bool, not, Bool-cases, inl, inr, Option, some,
  Word, le_int, lt_int, add_int, sub_int, leb, arith, if◌then◌else◌, le_int-small, add_int-small,
  lt_int-small, lt_int-negative, sub_int-small, sub_int-negative, ◌-◌,
}
use constellate.Maps.{Text, find, put, same_text}
use constellate.Maps.Laws.{find-put_self, find-put}
use constellate.Hub.Auth.{Services, Auth, validate_session, slide}
use constellate.Hub.Auth.Stores.{OperatorSession, SessionStore, validate, refresh}

-- Whether a new expiry `e` is at least five minutes behind the old one.
abbrev pub is_due : Word → Word → Bool
is_due e old = leb (old + 300) e

lt_int-difference :
    (e old : Word) → e < 2 ^ 63 → old < 2 ^ 62 → lt_int (sub_int e old) 300 ≡ not (is_due e old)
lt_int-difference e old a b = elim (Bool-cases (leb old e)) [
  | inl o ↦
      let h : old ≤ e = ground (arith, o) in
      rw
        (
          sub_int-small e old h (omega arith),
          lt_int-small (e - old) 300 (omega arith) (omega arith),
        )
        (ground arith)
  | inr o ↦
      let h : e < old = ground (arith, o) in
      rw
        (
          sub_int-negative e old h (omega arith),
          lt_int-negative (e + 2 ^ 64 - old) 300 (omega arith) (omega arith) (omega arith),
        )
        (ground arith)
]

-- The session `s` behind its validation at `now`.
abbrev pub slid : Services → Word → OperatorSession → OperatorSession
slid sv now s = record s {
  expires_at =
      if is_due (now + sv.ttl_seconds) s.expires_at then now + sv.ttl_seconds else s.expires_at;
  last_seen_at = now;
}

find-refresh :
    (id j : Text) (e : Word) (s : OperatorSession) (m : SessionStore)
    → find id m ≡ some s
    → find j (refresh id e m)
      ≡ (if same_text id j then some (record s { expires_at = e }) else find j m)
unfolding refresh
find-refresh id j e s m f = rw f (find-put id j (record s { expires_at = e }) m)

-- A change of one session behind another of the same one.
if_twice :
    (b : Bool) (x y z : Option OperatorSession)
    → (if b then x else (if b then y else z)) ≡ (if b then x else z)
if_twice true x y z = refl
if_twice false x y z = refl

validate_lem :
    (id : Text) (now : Word) (s : OperatorSession) (m : SessionStore)
    → find id m ≡ some s
    → le_int s.expires_at now ≡ false
    → validate id now m ≡ (some s.expires_at, put id (record s { last_seen_at = now }) m)
unfolding validate
validate_lem id now s m f e = rw (f, e) refl

module _ (sv : Services) (id : Text) (now : Word) (u : Auth) (s : OperatorSession)
    (stored : find id u.sessions ≡ some s)
    (is_small : (now < 2 ^ 62) × (s.expires_at < 2 ^ 62) × (sv.ttl_seconds < 2 ^ 62)) where
  validate_session_expired : s.expires_at ≤ now → validate_session sv id now u ≡ ((false, false), u)
  unfolding validate_session validate slide
  validate_session_expired h =
      let (a, b, c) = is_small in
      rw (stored, le_int-small s.expires_at now (omega arith) (omega arith)) (ground arith)

  -- A stored session before its expiry is live, with the lifetime positive and all times below 2 ^
  -- 62; its expiry moves to now plus the lifetime exactly if that is at least five minutes later,
  -- which is answered, and no other session changes.
  pub validate_session_live :
      (j : Text)
      → now < s.expires_at
      → le_int sv.session_ttl 0 ≡ false
      → ((validate_session sv id now u).0 ≡ (true, is_due (now + sv.ttl_seconds) s.expires_at))
        × (find j (validate_session sv id now u).1.sessions
            ≡ (if same_text id j then some (slid sv now s) else find j u.sessions))
  unfolding validate_session slide
  validate_session_live j h p =
      let (a, b, c) = is_small in
      let seen = record s { last_seen_at = now } in
      let q : le_int s.expires_at now ≡ false =
        le_int-small s.expires_at now (omega arith) (omega arith) ∙ ground arith in
      let v = validate_lem id now s u.sessions stored q in
      let d : lt_int (sub_int (add_int now sv.ttl_seconds) s.expires_at) 300
          ≡ not (is_due (now + sv.ttl_seconds) s.expires_at) =
        rw (add_int-small now sv.ttl_seconds (omega arith))
          (lt_int-difference (now + sv.ttl_seconds) s.expires_at (omega arith) b) in
      elim (Bool-cases (is_due (now + sv.ttl_seconds) s.expires_at)) [
        | inl e ↦
            rw (v, slide, p, d, e, v, add_int-small now sv.ttl_seconds (omega arith))
              (
                refl,
                find-refresh id j (now + sv.ttl_seconds) seen (put id seen u.sessions)
                      (find-put_self id seen u.sessions)
                    ∙ (rw (find-put id j seen u.sessions) (if_twice (same_text id j) _ _ _)),
              )
        | inr e ↦ rw (v, slide, p, d, e, v) (refl, find-put id j seen u.sessions)
      ]
