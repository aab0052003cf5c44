-- ===== src/Hub/Enroll/Tokens.antt =====
-- internal/hub/app/enroll/usecase.go: enrolment tokens and revocations along calls of the use case
-- and of the registry, one after the other.
use constellate.Common.{
  ◌≡◌, sym, refl, subst, ◌||◌, Bool, true, false, Bool-cases, inl, inr, Option, none, some, Word,
  ◌==◌, length, le_int, List, [], ◌∷◌, All, arith,
}
use constellate.Maps.{Text, same_text, find}
use constellate.Maps.Laws.{find-put, find-put_self}
use constellate.Hub.Enroll.{
  Services, invalid_token, EnrollToken, TokenStore, EnrollInput, Enrolment, create_token, consume,
  consume_found, mint_token, admit, enroll, revoke, unrevoke, delete_machine, changed,
  delete_machine_of, AuditAction, was_revoked, was_unrevoked, machine_deleted,
}
use constellate.Hub.Enroll.Calls.{
  Call, minting, enrolling, revoking, unrevoking, deleting, registering, beating, run, run_all,
  mints,
}
use constellate.Hub.Machines.{
  MachineStore, revoke_stored, unrevoke_stored, delete_stored, Machine, is_revoked,
}

-- Whether the store refuses the token whatever the time is.
abbrev is_spent : Option EnrollToken → Bool
is_spent none = true
is_spent (some t) = t.used

consume_spent :
    (h : Text) (now : Word) (m : TokenStore)
    → is_spent (find h m) ≡ true
    → (consume h now m).0 ≡ false
unfolding consume
consume_spent h now m e = consume_found_spent (find h m) e
  where
    consume_found_spent :
        (o : Option EnrollToken) → is_spent o ≡ true → (consume_found h now m o).0 ≡ false
    consume_found_spent none f = refl
    consume_found_spent (some t) f = ground (arith, f)

consume-keeps :
    (h k : Text) (now : Word) (m : TokenStore)
    → is_spent (find h m) ≡ true
    → is_spent (find h (consume k now m).1) ≡ true
unfolding consume
consume-keeps h k now m e = consume_found-keeps (find k m)
  where
    consume_found-keeps :
        (o : Option EnrollToken) → is_spent (find h (consume_found k now m o).1) ≡ true
    consume_found-keeps none = e
    consume_found-keeps (some t) = elim (Bool-cases (t.used || le_int t.expires_at now)) [
      | inl r ↦ rw r e
      | inr r ↦ elim (Bool-cases (same_text k h)) [
        | inl s ↦ rw (r, find-put, s) refl
        | inr s ↦ rw (r, find-put, s) e
      ]
    ]

-- A token that was consumed is spent.
consume_spends :
    (h : Text) (now : Word) (m : TokenStore)
    → (consume h now m).0 ≡ true
    → is_spent (find h (consume h now m).1) ≡ true
unfolding consume
consume_spends h now m e = consume_found_spends (find h m) e
  where
    consume_found_spends :
        (o : Option EnrollToken)
        → (consume_found h now m o).0 ≡ true
        → is_spent (find h (consume_found h now m o).1) ≡ true
    consume_found_spends none f = cc
    consume_found_spends (some t) f = elim (Bool-cases (t.used || le_int t.expires_at now)) [
      | inl r ↦ absurd (ground (arith, f, r))
      | inr r ↦ rw (r, find-put_self) refl
    ]

enroll-keeps :
    (sv : Services) (i : EnrollInput) (id h : Text) (now : Word) (u : Enrolment)
    → is_spent (find h u.tokens) ≡ true
    → is_spent (find h (enroll sv i id now u).1.tokens) ≡ true
unfolding enroll admit
enroll-keeps sv i id h now u e = elim (Bool-cases (length i.public_key == 32)) [
  | inr l ↦ rw l e
  | inl l ↦ elim (Bool-cases (consume (sv.token_hash i.token) now u.tokens).0) [
    | inr c ↦ rw (l, c) e
    | inl c ↦ rw (l, c) (consume-keeps h (sv.token_hash i.token) now u.tokens e)
  ]
]

changed-tokens :
    (action : AuditAction) (id : Text) (u : Enrolment) (r : Bool × MachineStore)
    → (changed action id u r).1.tokens ≡ u.tokens
changed-tokens action id u (true, st) = refl
changed-tokens action id u (false, st) = refl

delete_of-tokens :
    (id : Text) (u : Enrolment) (o : Option Machine)
    → (delete_machine_of id u o).1.tokens ≡ u.tokens
delete_of-tokens id u none = refl
delete_of-tokens id u (some m) = elim (Bool-cases (is_revoked m)) [
  | inl r ↦ rw r (changed-tokens machine_deleted id u (delete_stored id u.machines))
  | inr r ↦ rw r refl
]

run-keeps :
    (sv : Services) (h : Text) (c : Call) (u : Enrolment)
    → mints sv h c ≡ false
    → is_spent (find h u.tokens) ≡ true
    → is_spent (find h (run sv c u).tokens) ≡ true
unfolding run mints mint_token create_token revoke unrevoke delete_machine
run-keeps sv h (minting none now) u n e = e
run-keeps sv h (minting (some p) now) u n e = rw (find-put, n) e
run-keeps sv h (enrolling i id now) u n e = enroll-keeps sv i id h now u e
run-keeps sv h (revoking id now) u n e =
    rw (changed-tokens was_revoked id u (revoke_stored id now u.machines)) e
run-keeps sv h (unrevoking id) u n e =
    rw (changed-tokens was_unrevoked id u (unrevoke_stored id u.machines)) e
run-keeps sv h (deleting id) u n e = rw (delete_of-tokens id u (find id u.machines)) e
run-keeps sv h (registering i now) u n e = e
run-keeps sv h (beating id now) u n e = e

run_all-keeps :
    (sv : Services) (h : Text) (cs : List Call) (u : Enrolment)
    → All (λ c. mints sv h c ≡ false) cs
    → is_spent (find h u.tokens) ≡ true
    → is_spent (find h (run_all sv cs u).tokens) ≡ true
unfolding run_all
run_all-keeps sv h [] u n e = e
run_all-keeps sv h (c ∷ cs) u (m, n) e =
    run_all-keeps sv h cs (run sv c u) n (run-keeps sv h c u m e)

enroll_spends :
    (sv : Services) (i : EnrollInput) (id machine_id : Text) (now : Word) (u : Enrolment)
    → (enroll sv i id now u).0 ≡ inr machine_id
    → is_spent (find (sv.token_hash i.token) (enroll sv i id now u).1.tokens) ≡ true
unfolding enroll admit
enroll_spends sv i id machine_id now u e = elim (Bool-cases (length i.public_key == 32)) [
  | inr l ↦ absurd (ground (arith, e, l))
  | inl l ↦ elim (Bool-cases (consume (sv.token_hash i.token) now u.tokens).0) [
    | inr c ↦ absurd (ground (arith, e, l, c))
    | inl c ↦ rw (l, c) (consume_spends (sv.token_hash i.token) now u.tokens c)
  ]
]

enroll_spent :
    (sv : Services) (k : EnrollInput) (id : Text) (now : Word) (u : Enrolment)
    → is_spent (find (sv.token_hash k.token) u.tokens) ≡ true
    → enroll sv k id now u ≡ (inl invalid_token, u)
unfolding enroll
enroll_spent sv k id now u e = elim (Bool-cases (length k.public_key == 32)) [
  | inl l ↦ rw (l, consume_spent (sv.token_hash k.token) now u.tokens e) refl
  | inr l ↦ rw l refl
]

-- Once an enrolment has succeeded, and whatever calls of the use case and of the registry follow
-- that mint no token of the same hash, an enrolment with the same token is refused as invalid and
-- changes nothing.
pub enroll_once :
    (sv : Services) (i k : EnrollInput) (id other machine_id : Text) (now later : Word)
    (cs : List Call) (u : Enrolment)
    → (enroll sv i id now u).0 ≡ inr machine_id
    → All (λ c. mints sv (sv.token_hash i.token) c ≡ false) cs
    → sv.token_hash k.token ≡ sv.token_hash i.token
    → enroll sv k other later (run_all sv cs (enroll sv i id now u).1)
      ≡ (inl invalid_token, run_all sv cs (enroll sv i id now u).1)
enroll_once sv i k id other machine_id now later cs u e n s =
    enroll_spent sv k other later (run_all sv cs (enroll sv i id now u).1) (
      subst (λ h. is_spent (find h (run_all sv cs (enroll sv i id now u).1).tokens) ≡ true) (sym s)
        (run_all-keeps sv (sv.token_hash i.token) cs (enroll sv i id now u).1 n
          (enroll_spends sv i id machine_id now u e)))
