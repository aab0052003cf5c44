-- ===== src/Agent/Sessions/Views/Ticks.antt =====
-- manager.go and snapshot/producer.go together: the ticks of the producer over the sessions of a
-- manager, in which no session starts, ends or changes meanwhile. The map of the manager has one
-- entry for each identifier, and a screen renders at its own revision.
use constellate.Common.{
  ℕ, ◌≡◌, refl, ap, sym, subst, ◌∙◌, true, false, Bool-cases, inl, inr, Option, none, some, List,
  [], ◌∷◌, arith, get_elem?, All,
}
use mathlib.Core.List.{Permᴰ}
use mathlib.Core.List.Permᴰ
use constellate.Maps.{Text, Map, find, same_text}
use constellate.Maps.Orders.{All-Permᴰ, Permᴰ-IsDistinct}
use constellate.Maps.Sums
use constellate.Maps.Sums.{entries-found}
use constellate.Agent.Producer.{SessionScreen, SessionRev, Producer, set_enabled, is_live, run_once}
use constellate.Agent.Producer.Ticks.{
  IsDistinct, IsSteady, rendered, add_rendered, run_once-run_once, run_once-set_enabled,
}
use constellate.Agent.Sessions.{Live, Manager, lookup, deref}
use constellate.Agent.Sessions.Views.{
  screen_of, add_rev, revs_of, running_screen_revs, render_found, render_screen, add_screen,
  screens_of, running_screens,
}

module _ {S G : Type 0} (rev : S → ℕ) (render : S → G × ℕ) where
  absent-revs_of :
      (id : Text) (h : List (Live S)) (m : Map ℕ)
      → find id m ≡ none
      → is_live id (revs_of rev h m) ≡ false
  unfolding revs_of find is_live add_rev
  absent-revs_of id h [] e = refl
  absent-revs_of id h ((j, r) ∷ m) e = elim (Bool-cases (same_text j id)) [
    | inl k ↦ absurd (ground (arith, k, e))
    | inr k ↦ of_screen (screen_of (get_elem? h r)) k (absent-revs_of id h m (ground (arith, k, e)))
  ]
    where
      of_screen :
          (o : Option S)
          → same_text j id ≡ false
          → is_live id (revs_of rev h m) ≡ false
          → is_live id (add_rev rev j o (revs_of rev h m)) ≡ false
      of_screen none k n = n
      of_screen (some s) k n = rw (k, n) refl

  add_rev-IsDistinct :
      (id : Text) (o : Option S) (rs : List SessionRev)
      → is_live id rs ≡ false
      → IsDistinct rs
      → IsDistinct (add_rev rev id o rs)
  unfolding add_rev IsDistinct
  add_rev-IsDistinct id none rs n d = d
  add_rev-IsDistinct id (some s) rs n d = (n, d)

  revs_of-IsDistinct :
      (h : List (Live S)) (m : Map ℕ) → Sums.IsDistinct m → IsDistinct (revs_of rev h m)
  unfolding revs_of Sums.IsDistinct IsDistinct
  revs_of-IsDistinct h [] d = tt
  revs_of-IsDistinct h ((id, r) ∷ m) (a, d) =
      add_rev-IsDistinct id (screen_of (get_elem? h r)) (revs_of rev h m) (absent-revs_of id h m a)
        (revs_of-IsDistinct h m d)

  module _ (m : Manager S) where
    -- What rendering a session gives, whose place the map has.
    render_screen_lem :
        (id : Text) (r : ℕ)
        → find id m.sessions ≡ some r
        → render_screen render m id ≡ render_found render id (screen_of (get_elem? m.heap r))
    unfolding render_screen lookup
    render_screen_lem id r e = ap (λ o. render_found render id (screen_of (deref o m.heap))) e

    revs_of-IsSteady :
        ((s : S) → (render s).1 ≡ rev s)
        → (n : Map ℕ) → All (λ kv. find kv.0 m.sessions ≡ some kv.1) n
        → IsSteady (render_screen render m) (revs_of rev m.heap n)
    unfolding revs_of IsSteady add_rev render_found
    revs_of-IsSteady steady [] a = tt
    revs_of-IsSteady steady ((id, r) ∷ n) (e, a) =
        of_screen (screen_of (get_elem? m.heap r)) (render_screen_lem id r e)
          (revs_of-IsSteady steady n a)
      where
        of_screen :
            (o : Option S)
            → render_screen render m id ≡ render_found render id o
            → IsSteady (render_screen render m) (revs_of rev m.heap n)
            → IsSteady (render_screen render m) (add_rev rev id o (revs_of rev m.heap n))
        of_screen none q v = v
        of_screen (some s) q v = ((_, q, steady s), v)

    rendered-revs_of :
        (n : Map ℕ)
        → All (λ kv. find kv.0 m.sessions ≡ some kv.1) n
        → rendered (render_screen render m) (revs_of rev m.heap n) ≡ screens_of render m.heap n
    unfolding revs_of screens_of rendered add_rev add_screen render_found
    rendered-revs_of [] a = refl
    rendered-revs_of ((id, r) ∷ n) (e, a) =
        of_screen (screen_of (get_elem? m.heap r)) (render_screen_lem id r e) (rendered-revs_of n a)
      where
        of_screen :
            (o : Option S)
            → render_screen render m id ≡ render_found render id o
            → rendered (render_screen render m) (revs_of rev m.heap n) ≡ screens_of render m.heap n
            → rendered (render_screen render m) (add_rev rev id o (revs_of rev m.heap n))
              ≡ add_screen render (render_found render id o) (screens_of render m.heap n)
        of_screen none q v = v
        of_screen (some s) q v =
            ap (λ x. add_rendered x (rendered (render_screen render m) (revs_of rev m.heap n))) q
            ∙ ap (add_rendered (render_found render id (some s))) v

    add_screen-Permᴰ :
        (o : Option (SessionScreen G)) {ss ts : List (SessionScreen G)}
        → Permᴰ ss ts
        → Permᴰ (add_screen render o ss) (add_screen render o ts)
    unfolding add_screen
    add_screen-Permᴰ none d = d
    add_screen-Permᴰ (some s) d = Permᴰ.cons refl d

    add_screen-swap :
        (o p : Option (SessionScreen G)) (ss : List (SessionScreen G))
        → Permᴰ
            (add_screen render o (add_screen render p ss))
            (add_screen render p (add_screen render o ss))
    unfolding add_screen
    add_screen-swap none p ss = Permᴰ.refl _
    add_screen-swap (some s) none ss = Permᴰ.refl _
    add_screen-swap (some s) (some t) ss = Permᴰ.swap refl refl

    abbrev screen_at : Text × ℕ → Option (SessionScreen G)
    screen_at a = render_found render a.0 (screen_of (get_elem? m.heap a.1))

    screens_cons :
        (a : Text × ℕ) (n : Map ℕ)
        → screens_of render m.heap (a ∷ n)
          ≡ add_screen render (screen_at a) (screens_of render m.heap n)
    unfolding screens_of
    screens_cons (id, r) n = refl

    -- Two orders of the same entries give the same screens in two orders.
    screens_of-Permᴰ :
        {n k : Map ℕ} → Permᴰ n k → Permᴰ (screens_of render m.heap n) (screens_of render m.heap k)
    screens_of-Permᴰ Permᴰ.nil = Permᴰ.refl _
    screens_of-Permᴰ (Permᴰ.cons {a = a} {l₁ = n} {l₂ = k} e d) =
        subst (λ c. Permᴰ (screens_of render m.heap (a ∷ n)) (screens_of render m.heap (c ∷ k))) e
          (rw (screens_cons a n, screens_cons a k)
            (add_screen-Permᴰ (screen_at a) (screens_of-Permᴰ d)))
    screens_of-Permᴰ (Permᴰ.swap {a = a} {b = b} {b' = d} {l = n} e f) =
        subst
          (λ c. Permᴰ (screens_of render m.heap (a ∷ b ∷ n)) (screens_of render m.heap (c ∷ d ∷ n)))
          f
          (subst
            (λ c.
              Permᴰ (screens_of render m.heap (a ∷ b ∷ n)) (screens_of render m.heap (b ∷ c ∷ n)))
            e
            (rw (screens_cons a (b ∷ n), screens_cons b n, screens_cons b (a ∷ n), screens_cons a n)
              (add_screen-swap (screen_at a) (screen_at b) (screens_of render m.heap n))))
    screens_of-Permᴰ (Permᴰ.trans d f) = Permᴰ.trans (screens_of-Permᴰ d) (screens_of-Permᴰ f)

    module _ (range : Map ℕ → Map ℕ) (takes : Permᴰ m.sessions (range m.sessions))
        (d : Sums.IsDistinct m.sessions) where
      entries : All (λ kv. find kv.0 m.sessions ≡ some kv.1) (range m.sessions)
      entries =
          All-Permᴰ (λ kv. find kv.0 m.sessions ≡ some kv.1) takes (entries-found m.sessions d)

      -- The tick of the producer behind an enabling, over the sessions of a manager with one entry
      -- for each identifier, sends what `RunningScreens` renders, each screen as often, in
      -- whatever orders the two range over the map.
      pub run_once-running_screens :
          (order : Map ℕ → Map ℕ) (p : Producer)
          → Permᴰ m.sessions (order m.sessions)
          → Permᴰ
              (run_once
                (render_screen render m)
                (running_screen_revs rev range m)
                (set_enabled true p)).0
              (running_screens render order m)
      unfolding running_screen_revs running_screens
      run_once-running_screens order p o =
          subst (λ ss. Permᴰ ss (screens_of render m.heap (order m.sessions)))
            (sym (
              run_once-set_enabled (render_screen render m) (revs_of rev m.heap (range m.sessions))
                p (revs_of-IsDistinct m.heap (range m.sessions) (Permᴰ-IsDistinct takes d))
              ∙ rendered-revs_of (range m.sessions) entries))
            (screens_of-Permᴰ (Permᴰ.trans (Permᴰ.symm takes) o))

      -- A second tick sends nothing.
      pub run_once_again :
          ((s : S) → (render s).1 ≡ rev s)
          → (p : Producer) → p.enabled ≡ true
          → let tick = run_once (render_screen render m) (running_screen_revs rev range m) in
            tick (tick p).1 ≡ ([], (tick p).1)
      unfolding running_screen_revs
      run_once_again steady p e =
          run_once-run_once (render_screen render m) (revs_of rev m.heap (range m.sessions)) p e
            (revs_of-IsDistinct m.heap (range m.sessions) (Permᴰ-IsDistinct takes d))
            (revs_of-IsSteady steady (range m.sessions) entries)
