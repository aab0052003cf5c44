-- ===== src/Hub/Overview/Gate.antt =====
-- The count of viewers and the gate of overview.go, along calls that do not overlap and along two
-- that do.
use constellate.Common.{
  ℕ, suc, ◌+◌, ◌-◌, ◌≡◌, refl, sym, Bool, true, false, not, ltb, length, if◌then◌else◌, List, [],
  ◌∷◌, arith, Bool-cases, inl, inr, ap, ◌∙◌,
}
use constellate.Maps.{Text}
use constellate.Hub.Overview.{
  Snapshot, Overview, has, drop_sub, add_sub, drop_all, snapshots_enabled, same_bool, apply_gate,
  keep_latest, fewer_viewers, drop_failed, failed_of, after_sends, receive_snapshot, add_viewer,
  after_replay, subscribe, unsubscribe, drop_session, new_overview,
}
use constellate.Hub.Overview.Subscribers.{
  IsDistinct, drop_sub-IsDistinct, length-drop_sub, drop_all-IsDistinct, length-drop_all,
  failed_of-IsDistinct, failed_of-IsAmong, drop_sub-absent, has-drop_sub,
}

-- What the agents were told last; they send no snapshots before they are told anything.
unfoldable pub last_told : List Bool → Bool
last_told [] = false
last_told (b ∷ bs) = b

-- No call repeats the one before it, and the first one enables.
unfoldable pub IsAlternating : List Bool → Type 0
IsAlternating [] = false ≡ false
IsAlternating (b ∷ bs) = (b ≡ not (last_told bs)) × IsAlternating bs

-- The subscribers are distinct and counted, and the agents were told last to send snapshots exactly
-- if there is one, and never twice the same.
pub record IsCounted (u : Overview) : Type 0 where
  pub distinct : IsDistinct u.subs
  pub counted : u.viewers ≡ length u.subs
  pub gated : u.last_enabled ≡ ltb 0 (length u.subs)
  pub told : last_told u.calls ≡ u.last_enabled
  pub in_turn : IsAlternating u.calls

same_bool-not : (a b : Bool) → same_bool a b ≡ false → a ≡ not b
unfolding same_bool
same_bool-not true true h = cc
same_bool-not true false h = refl
same_bool-not false true h = refl
same_bool-not false false h = cc

same_bool-eq : (a b : Bool) → same_bool a b ≡ true → a ≡ b
unfolding same_bool
same_bool-eq true b h = cc
same_bool-eq false true h = cc
same_bool-eq false false h = refl

apply_gate-IsCounted :
    (u : Overview)
    → IsDistinct u.subs
    → u.viewers ≡ length u.subs
    → last_told u.calls ≡ u.last_enabled
    → IsAlternating u.calls
    → IsCounted (apply_gate u)
unfolding apply_gate snapshots_enabled IsAlternating last_told
apply_gate-IsCounted u d c a b = elim (Bool-cases (same_bool (ltb 0 u.viewers) u.last_enabled)) [
  | inl e ↦ rw e record {
    distinct = d;
    counted = c;
    gated = ground (arith, same_bool-eq (ltb 0 u.viewers) u.last_enabled e, c);
    told = a;
    in_turn = b;
  }
  | inr e ↦ rw e record {
    distinct = d;
    counted = c;
    gated = ground (arith, c);
    told = refl;
    in_turn = (same_bool-not (ltb 0 u.viewers) u.last_enabled e ∙ ap not (sym a), b);
  }
]

after_sends-IsCounted :
    (failed : List ℕ) (u : Overview)
    → IsCounted u
    → IsDistinct failed
    → length (drop_all failed u.subs) + length failed ≡ length u.subs
    → IsCounted (after_sends failed u)
unfolding after_sends drop_failed fewer_viewers
after_sends-IsCounted [] u v d h = v
after_sends-IsCounted (s ∷ ss) u v d h =
    apply_gate-IsCounted _ (drop_all-IsDistinct (s ∷ ss) u.subs v.distinct)
      (ground (arith, v.counted, h)) v.told v.in_turn

-- What one call does that no other call overlaps. A browser's connection subscribes once.
pub data Call : Overview → Overview → Type 0 where
  received :
      (sends : ℕ → Bool) (s : Snapshot) {u v : Overview} → v ≡ receive_snapshot sends s u → Call u v
  subscribed :
      (sends : ℕ → Bool) (s : ℕ) {u v : Overview}
      → has s u.subs ≡ false
      → v ≡ subscribe sends s u
      → Call u v
  unsubscribed : (s : ℕ) {u v : Overview} → v ≡ unsubscribe s u → Call u v
  dropped : (id : Text) {u v : Overview} → v ≡ drop_session id u → Call u v

pub data Calls (u : Overview) : Overview → Type 0 where
  none_yet : Calls u u
  then_call : {v w : Overview} → Calls u v → Call v w → Calls u w

receive_snapshot-IsCounted :
    (sends : ℕ → Bool) (s : Snapshot) (u : Overview)
    → IsCounted u
    → IsCounted (receive_snapshot sends s u)
unfolding receive_snapshot keep_latest
receive_snapshot-IsCounted sends s u v =
    after_sends-IsCounted (failed_of sends u.subs) (keep_latest s u)
      record {
        distinct = v.distinct;
        counted = v.counted;
        gated = v.gated;
        told = v.told;
        in_turn = v.in_turn;
      }
      (failed_of-IsDistinct sends u.subs v.distinct)
      (length-drop_all (failed_of sends u.subs) u.subs
        (failed_of-IsDistinct sends u.subs v.distinct) v.distinct (failed_of-IsAmong sends u.subs))

leave-IsCounted :
    (s : ℕ) (u : Overview)
    → IsDistinct u.subs
    → u.viewers ≡ length u.subs
    → has s u.subs ≡ true
    → last_told u.calls ≡ u.last_enabled
    → IsAlternating u.calls
    → IsCounted (apply_gate (fewer_viewers 1 (record u { subs = drop_sub s u.subs })))
unfolding fewer_viewers
leave-IsCounted s u d c h a b =
    apply_gate-IsCounted _ (drop_sub-IsDistinct s u.subs d)
      (omega (arith, c, length-drop_sub s u.subs d h)) a b

unsubscribe-IsCounted : (s : ℕ) (u : Overview) → IsCounted u → IsCounted (unsubscribe s u)
unfolding unsubscribe
unsubscribe-IsCounted s u v = elim (Bool-cases (has s u.subs)) [
  | inl e ↦ rw e (leave-IsCounted s u v.distinct v.counted e v.told v.in_turn)
  | inr e ↦ rw e v
]

add_viewer-IsCounted :
    (s : ℕ) (u : Overview)
    → IsCounted u
    → has s u.subs ≡ false
    → IsCounted (apply_gate (add_viewer s u))
unfolding add_viewer add_sub
add_viewer-IsCounted s u v h =
    apply_gate-IsCounted (add_viewer s u) (rw h (h, v.distinct)) (rw h (omega (arith, v.counted)))
      v.told v.in_turn

apply_gate_lem :
    (u : Overview)
    → ((apply_gate u).subs ≡ u.subs)
      × ((apply_gate u).viewers ≡ u.viewers)
      × ((apply_gate u).last_enabled ≡ ltb 0 u.viewers)
unfolding apply_gate snapshots_enabled
apply_gate_lem u = elim (Bool-cases (same_bool (ltb 0 u.viewers) u.last_enabled)) [
  | inl e ↦ rw e (refl, refl, sym (same_bool-eq (ltb 0 u.viewers) u.last_enabled e))
  | inr e ↦ rw e (refl, refl, refl)
]

has-add_viewer : (s : ℕ) (u : Overview) → has s (apply_gate (add_viewer s u)).subs ≡ true
unfolding add_viewer add_sub has
has-add_viewer s u = rw ((apply_gate_lem (add_viewer s u)).0) (ground arith)

subscribe-IsCounted :
    (sends : ℕ → Bool) (s : ℕ) (u : Overview)
    → IsCounted u
    → has s u.subs ≡ false
    → IsCounted (subscribe sends s u)
unfolding subscribe after_replay
subscribe-IsCounted sends s u v h =
    let w = add_viewer-IsCounted s u v h in
    elim (Bool-cases (if ltb 0 (length u.latest) then sends s else true)) [
      | inl e ↦ rw (e, after_replay) w
      | inr e ↦
          rw (e, after_replay)
            (leave-IsCounted s (apply_gate (add_viewer s u)) w.distinct w.counted
              (has-add_viewer s u) w.told w.in_turn)
    ]

Call-IsCounted : {u v : Overview} → Call u v → IsCounted u → IsCounted v
unfolding drop_session
Call-IsCounted {u} (received sends s e) c = rw e (receive_snapshot-IsCounted sends s u c)
Call-IsCounted {u} (subscribed sends s h e) c = rw e (subscribe-IsCounted sends s u c h)
Call-IsCounted {u} (unsubscribed s e) c = rw e (unsubscribe-IsCounted s u c)
Call-IsCounted {u} (dropped id e) c = rw e record {
  distinct = c.distinct;
  counted = c.counted;
  gated = c.gated;
  told = c.told;
  in_turn = c.in_turn;
}

new_overview-IsCounted : IsCounted new_overview
unfolding new_overview last_told IsAlternating
new_overview-IsCounted = record {
  distinct = tt;
  counted = refl;
  gated = refl;
  told = refl;
  in_turn = refl;
}

-- Along calls that do not overlap, where a browser does not subscribe twice at a time, the viewers
-- are as many as the subscribers, no subscriber is there twice, and the last call of
-- `SetSnapshotsEnabled` says whether there is one, and none repeats the one before it.
pub Calls-IsCounted : {v : Overview} → Calls new_overview v → IsCounted v
Calls-IsCounted none_yet = new_overview-IsCounted
Calls-IsCounted (then_call cs c) = Call-IsCounted c (Calls-IsCounted cs)

module _ (s : ℕ) (u : Overview) (v : IsCounted u) (h : has s u.subs ≡ true) where
  abbrev gone : Overview
  gone = unsubscribe s u

  gone_lem : (gone.subs ≡ drop_sub s u.subs) × (gone.viewers ≡ length u.subs - 1)
  unfolding unsubscribe fewer_viewers
  gone_lem =
      let (a, b, c) = apply_gate_lem (fewer_viewers 1 (record u { subs = drop_sub s u.subs })) in
      rw h (a, b ∙ ap (λ n. n - 1) v.counted)

  twice : drop_sub s (drop_sub s u.subs) ≡ drop_sub s u.subs
  twice = drop_sub-absent s (drop_sub s u.subs) (ground (arith, has-drop_sub s s u.subs))

  -- If a snapshot was copied to the subscribers, one of them unsubscribes and then the send to it
  -- fails, the viewers are two fewer and the subscribers only one, and the gate is closed while
  -- one subscriber remains.
  pub after_sends_late :
      ((after_sends (s ∷ []) (unsubscribe s u)).viewers ≡ length u.subs - 2)
      × (suc (length (after_sends (s ∷ []) (unsubscribe s u)).subs) ≡ length u.subs)
      × ((after_sends (s ∷ []) (unsubscribe s u)).last_enabled ≡ ltb 2 (length u.subs))
  unfolding after_sends drop_failed drop_all fewer_viewers
  after_sends_late =
      let (a, b, c) = apply_gate_lem (drop_failed (s ∷ []) gone) in
      let (d, e) = gone_lem in
      (
        ground (arith, b, e),
        ground (
          arith,
          ap length a,
          ap (λ xs. length (drop_sub s xs)) d,
          ap length twice,
          length-drop_sub s u.subs v.distinct h,
        ),
        ground (arith, c, e),
      )
