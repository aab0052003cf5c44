-- ===== src/Agent/Producer/Ticks.antt =====
-- internal/agent/app/snapshot/producer.go: what a tick sends, and the tick behind it. The sessions
-- that run are listed once each, and a screen is rendered at the revision that is listed.
use constellate.Common.{
  ◌≡◌, ◌∙◌, ap, subst, refl, sym, ℕ, ◌==◌, Bool, true, false, Bool-cases, inl, inr, Option, none,
  some, List, [], ◌∷◌, ◌++◌, arith, if◌then◌else◌,
}
use constellate.Maps.{Text, same_text, Map, find, put}
use constellate.Maps.Laws.{
  find-put_self, find-put_ne, same_text_refl, same_text_sound, same_text_sym,
}
use constellate.Agent.Producer.{
  SessionScreen, SessionRev, Producer, is_due, send_rendered, send_one, send_all, is_live, prune,
  run_once, set_enabled,
}

-- No session is listed twice.
unfoldable pub IsDistinct : List SessionRev → Type 0
IsDistinct [] = Unit
IsDistinct ((id, rev) ∷ rs) = (is_live id rs ≡ false) × IsDistinct rs

not_live :
    (id : Text) (rev : ℕ) (j : Text) (rs : List SessionRev)
    → is_live j ((id, rev) ∷ rs) ≡ false
    → (same_text id j ≡ false) × (is_live j rs ≡ false)
unfolding is_live
not_live id rev j rs n = elim (Bool-cases (same_text id j)) [
  | inl e ↦ absurd (ground (arith, n, e))
  | inr e ↦ (e, ground (arith, n, e))
]

same_rev : (rev : ℕ) → is_due rev (some rev) ≡ false
same_rev rev = ground arith

find-prune :
    (rs : List SessionRev) (j : Text) (m : Map ℕ)
    → is_live j rs ≡ true
    → find j (prune rs m) ≡ find j m
unfolding find prune
find-prune rs j [] l = refl
find-prune rs j ((k, v) ∷ m) l = elim (Bool-cases (is_live k rs)) [
  | inl e ↦ elim (Bool-cases (same_text k j)) [
    | inl s ↦ rw (e, find, s) refl
    | inr s ↦ rw (e, find, s) (find-prune rs j m l)
  ]
  | inr e ↦ elim (Bool-cases (same_text k j)) [
    | inl s ↦ absurd (cc (l, e, ap (λ x. is_live x rs) (same_text_sound k j s)))
    | inr s ↦ rw (e, s) (find-prune rs j m l)
  ]
]

prune-prune : (rs : List SessionRev) (m : Map ℕ) → prune rs (prune rs m) ≡ prune rs m
unfolding prune
prune-prune rs [] = refl
prune-prune rs ((k, v) ∷ m) = elim (Bool-cases (is_live k rs)) [
  | inl e ↦ rw (e, prune, e, prune-prune rs m) refl
  | inr e ↦ rw e (prune-prune rs m)
]

-- The screen that a rendering gave, if any, before others.
abbrev pub add_rendered :
    {S : Type 0} → Option (SessionScreen S) → List (SessionScreen S) → List (SessionScreen S)
add_rendered none ss = ss
add_rendered (some s) ss = s ∷ ss

module _ {S : Type 0} (render : Text → Option (SessionScreen S)) where
  -- Every listed session is rendered at its listed revision.
  unfoldable pub IsSteady : List SessionRev → Type 0
  IsSteady [] = Unit
  IsSteady ((id, rev) ∷ rs) =
      ((s : SessionScreen S) × (render id ≡ some s) × (s.rev ≡ rev)) × IsSteady rs

  -- The revisions that the map holds are the listed ones.
  abbrev IsSeen : List SessionRev → Map ℕ → Type 0
  IsSeen [] m = Unit
  IsSeen ((id, rev) ∷ rs) m = (find id m ≡ some rev) × IsSeen rs m

  -- A turn records its session's revision and no other.
  send_one_lem :
      (id : Text) (rev : ℕ) (m : Map ℕ) (s : SessionScreen S)
      → render id ≡ some s
      → s.rev ≡ rev
      → (find id (send_one render (id, rev) m).1 ≡ some rev)
        × ((j : Text) → same_text id j ≡ false → find j (send_one render (id, rev) m).1 ≡ find j m)
  unfolding send_one
  send_one_lem id rev m s e f = due_of (find id m) refl
    where
      due_of :
          (o : Option ℕ)
          → find id m ≡ o
          → (find id (if is_due rev o then send_rendered id m (render id) else ([], m)).1
              ≡ some rev)
            × ((j : Text)
                → same_text id j ≡ false
                → find j (if is_due rev o then send_rendered id m (render id) else ([], m)).1
                  ≡ find j m)
      due_of none g = rw e (find-put_self id s.rev m ∙ ap some f, λ j n. find-put_ne id j s.rev m n)
      due_of (some last) g = elim (Bool-cases (rev == last)) [
        | inl h ↦ rw h (g ∙ ap some {x = last} (ground (arith, h)), λ j n. refl)
        | inr h ↦
            rw (h, e) (find-put_self id s.rev m ∙ ap some f, λ j n. find-put_ne id j s.rev m n)
      ]

  -- The sessions that are not listed are left.
  send_all-keeps :
      (rs : List SessionRev) (m : Map ℕ) (j : Text)
      → IsSteady rs
      → is_live j rs ≡ false
      → find j (send_all render rs m).1 ≡ find j m
  unfolding send_all IsSteady is_live
  send_all-keeps [] m j st n = refl
  send_all-keeps ((id, rev) ∷ rs) m j ((s, e, f), st) n =
      let (a, b) = send_one_lem id rev m s e f in
      let (x, y) = not_live id rev j rs n in
      send_all-keeps rs (send_one render (id, rev) m).1 j st y ∙ b j x

  send_all-IsSeen :
      (rs : List SessionRev) (m : Map ℕ)
      → IsDistinct rs
      → IsSteady rs
      → IsSeen rs (send_all render rs m).1
  unfolding send_all IsDistinct IsSteady
  send_all-IsSeen [] m d st = tt
  send_all-IsSeen ((id, rev) ∷ rs) m (n, d) ((s, e, f), st) =
      let (a, b) = send_one_lem id rev m s e f in
      let m1 = (send_one render (id, rev) m).1 in
      (send_all-keeps rs m1 id st n ∙ a, send_all-IsSeen rs m1 d st)

  prune-IsSeen :
      (rs qs : List SessionRev) (m : Map ℕ)
      → ((j : Text) → is_live j qs ≡ true → is_live j rs ≡ true)
      → IsSeen qs m
      → IsSeen qs (prune rs m)
  unfolding is_live
  prune-IsSeen rs [] m l v = tt
  prune-IsSeen rs ((id, rev) ∷ qs) m l (v, vs) = (
    find-prune rs id m (l id (rw (same_text_refl id) refl)) ∙ v,
    prune-IsSeen rs qs m (λ j h. l j (ground (arith, h))) vs,
  )

  send_all-nil : (rs : List SessionRev) (m : Map ℕ) → IsSeen rs m → send_all render rs m ≡ ([], m)
  unfolding send_all send_one
  send_all-nil [] m v = refl
  send_all-nil ((id, rev) ∷ rs) m (v, vs) = rw (v, same_rev rev, send_all-nil rs m vs) refl

  quiet_again :
      (rs : List SessionRev) (p : Producer) (m : Map ℕ)
      → p.enabled ≡ true
      → IsSeen rs (prune rs m)
      → run_once render rs (record p { last_rev = prune rs m })
        ≡ ([], record p { last_rev = prune rs m })
  unfolding run_once
  quiet_again rs p m e v = rw (send_all-nil rs (prune rs m) v, e, prune-prune rs m) refl

  run_once_lem :
      (rs : List SessionRev) (p : Producer)
      → p.enabled ≡ true
      → (run_once render rs p).1
        ≡ record p { last_rev = prune rs (send_all render rs p.last_rev).1 }
  unfolding run_once
  run_once_lem rs p e =
      let (sent, m) = send_all render rs p.last_rev in
      let r : Bool → List (SessionScreen S) × Producer =
        λ b. if b then (sent, record p { last_rev = prune rs m }) else ([], p) in
      ap (λ b. (r b).1) e

  -- If sending is enabled, no session is listed twice and each is rendered at the revision that is
  -- listed for it, a second tick over the same sessions sends nothing and changes nothing.
  pub run_once-run_once :
      (rs : List SessionRev) (p : Producer)
      → p.enabled ≡ true
      → IsDistinct rs
      → IsSteady rs
      → run_once render rs (run_once render rs p).1 ≡ ([], (run_once render rs p).1)
  run_once-run_once rs p e d st =
      let m = (send_all render rs p.last_rev).1 in
      subst (λ q. run_once render rs q ≡ ([], q)) (sym (run_once_lem rs p e))
        (quiet_again rs p m e
          (prune-IsSeen rs rs m (λ j h. h) (send_all-IsSeen rs p.last_rev d st)))

  -- What rendering the listed sessions gives.
  unfoldable pub rendered : List SessionRev → List (SessionScreen S)
  rendered [] = []
  rendered ((id, rev) ∷ rs) = add_rendered (render id) (rendered rs)

  IsUnseen : List SessionRev → Map ℕ → Type 0
  IsUnseen [] m = Unit
  IsUnseen ((id, rev) ∷ rs) m = (find id m ≡ none) × IsUnseen rs m

  put-IsUnseen :
      (id : Text) (rev : ℕ) (rs : List SessionRev) (m : Map ℕ)
      → is_live id rs ≡ false
      → IsUnseen rs m
      → IsUnseen rs (put id rev m)
  unfolding IsUnseen
  put-IsUnseen id rev [] m n v = tt
  put-IsUnseen id rev ((j, r) ∷ rs) m n (v, vs) =
      let (x, y) = not_live j r id rs n in
      (find-put_ne id j rev m (same_text_sym id j ∙ x) ∙ v, put-IsUnseen id rev rs m y vs)

  send_all-rendered :
      (rs : List SessionRev) (m : Map ℕ)
      → IsDistinct rs
      → IsUnseen rs m
      → (send_all render rs m).0 ≡ rendered rs
  unfolding send_all send_one IsDistinct IsUnseen rendered
  send_all-rendered [] m d v = refl
  send_all-rendered ((id, rev) ∷ rs) m (n, d) (v, vs) =
      rw v (sent_of (λ k u. send_all-rendered rs k d u) (render id))
    where
      sent_of :
          ((k : Map ℕ) → IsUnseen rs k → (send_all render rs k).0 ≡ rendered rs)
          → (o : Option (SessionScreen S))
          → (send_rendered id m o).0 ++ (send_all render rs (send_rendered id m o).1).0
            ≡ add_rendered o (rendered rs)
      sent_of again none = again m vs
      sent_of again (some s) = ap (◌∷◌ s) (again (put id s.rev m) (put-IsUnseen id s.rev rs m n vs))

  nil-IsUnseen : (rs : List SessionRev) → IsUnseen rs []
  unfolding IsUnseen find
  nil-IsUnseen [] = tt
  nil-IsUnseen ((id, rev) ∷ rs) = (refl, nil-IsUnseen rs)

  -- The tick behind an enabling sends the rendering of each listed session that can be rendered,
  -- in the order of the list, whatever was sent before, if no session is listed twice.
  pub run_once-set_enabled :
      (rs : List SessionRev) (p : Producer)
      → IsDistinct rs
      → (run_once render rs (set_enabled true p)).0 ≡ rendered rs
  unfolding run_once set_enabled
  run_once-set_enabled rs p d = send_all-rendered rs [] d (nil-IsUnseen rs)
