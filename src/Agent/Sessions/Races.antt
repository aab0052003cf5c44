-- ===== src/Agent/Sessions/Races.antt =====
-- manager.go: which live session an identifier leads to. `Open` looks for the identifier and
-- registers the session under two locks, and the end of `readPump` deletes by identifier.
use constellate.Common.{
  ℕ, zero, suc, refl, List, ◌<◌, ◌≡◌, ◌≢◌, ◌⊎◌, ap, sym, subst, ◌∙◌, Bool, true, false, if_ind,
  Bool-cases, inl, inr, Option, none, some, [], ◌∷◌, ◌++◌, arith, Word, length, get_elem?,
  length-append, get_elem?-append_length, get_elem?-append_some, some-lt-length,
}
use constellate.Maps.{Text, find, put, remove, same_text}
use constellate.Maps.Laws.{find-put, find-put_self, find-remove, find-remove_self, same_text_sound}
use constellate.Terminal.Scrollback.{Bytes, Scrollback}
use constellate.Agent.Archive.{Disk, System}
use constellate.Agent.Sessions.{
  Live, Manager, SessionError, pty_failed, open_scrollback, new_manager, register, open_session,
  open_rest, is_taken, lookup, pump_chunk, close_live, pump_exit, pump_close, pump_forget, is_some,
  close_session, resize, save_taken,
}
use constellate.Agent.Sessions.Valid.{
  IsThere, IsOpen, IsValid, update_ne-IsOpen, pump_close-IsValid, pump_chunk-IsValid,
  save_taken-IsValid, resize_found-IsValid, close_found-IsValid,
}

module _ {S : Type 0} where
  -- What a list with one more element has.
  get_elem?-append_one :
      (h : List (Live S)) (l k : Live S) (q : ℕ)
      → get_elem? (h ++ (l ∷ [])) q ≡ some k
      → (get_elem? h q ≡ some k) ⊎ (q ≡ length h)
  get_elem?-append_one [] l k zero e = inr refl
  get_elem?-append_one [] l k (suc q) e = inl e
  get_elem?-append_one (x ∷ h) l k zero e = inl e
  get_elem?-append_one (x ∷ h) l k (suc q) e = elim (get_elem?-append_one h l k q e) [
    | inl f ↦ inl f
    | inr f ↦ inr (ap suc f)
  ]

  not_taken : (id : Text) (m : Manager S) → is_taken id m ≡ false → find id m.sessions ≡ none
  unfolding is_taken
  not_taken id m t = of_found (find id m.sessions) t
    where
      of_found : (o : Option ℕ) → is_some o ≡ false → o ≡ none
      of_found none e = refl
      of_found (some r) e = absurd (cc e)

  -- The last part of an `Open` whose identifier is free when it registers.
  module _ (id : Text) (sb : Scrollback) (pid : Word) (screen : Option S) (m : Manager S)
      (v : IsValid m) (free : is_taken id m ≡ false) where
    live : Live S
    live = record { pid = pid; sb = sb; screen = screen; last_output_at = 0; dirty = false }

    register_leads :
        (j : Text) (r : ℕ)
        → find j (register id sb pid screen m).sessions ≡ some r
        → IsThere (register id sb pid screen m).heap r
    unfolding register live
    register_leads j r e = elim (Bool-cases (same_text id j)) [
      | inl h ↦
          let q : r ≡ length m.heap =
            ground (arith, e, find-put id j (length m.heap) m.sessions, h) in
          (live, ap (get_elem? (m.heap ++ (live ∷ []))) q ∙ get_elem?-append_length m.heap live [])
      | inr h ↦
          let o = v.leads j r (ground (arith, e, find-put id j (length m.heap) m.sessions, h)) in
          (o.0, get_elem?-append_some m.heap (live ∷ []) r o.0 o.1)
    ]

    register_known :
        (q : ℕ)
        → IsOpen (register id sb pid screen m).heap q
        → (j : Text) × (find j (register id sb pid screen m).sessions ≡ some q)
    unfolding register live
    register_known q (l, e, c) = elim (get_elem?-append_one m.heap live l q e) [
      | inl f ↦
          let (j, k) = v.known q (l, f, c) in
          elim (Bool-cases (same_text id j)) [
            | inl h ↦
                let n =
                  subst (λ x. find x m.sessions ≡ none) (same_text_sound id j h)
                    (not_taken id m free) in
                absurd (cc (n, k))
            | inr h ↦ (j, ground (arith, k, find-put id j (length m.heap) m.sessions, h))
          ]
      | inr f ↦ (id, find-put_self id (length m.heap) m.sessions ∙ ap some (sym f))
    ]

    -- What the map has behind the registration.
    found :
        (j : Text) (r : ℕ)
        → find j (register id sb pid screen m).sessions ≡ some r
        → ((same_text id j ≡ true) × (r ≡ length m.heap))
          ⊎ ((same_text id j ≡ false) × (find j m.sessions ≡ some r))
    unfolding register
    found j r e = elim (Bool-cases (same_text id j)) [
      | inl h ↦ inl (h, ground (arith, e, find-put id j (length m.heap) m.sessions, h))
      | inr h ↦ inr (h, ground (arith, e, find-put id j (length m.heap) m.sessions, h))
    ]

    old_lt : (j : Text) (r : ℕ) → find j m.sessions ≡ some r → r < length m.heap
    old_lt j r e = let o = v.leads j r e in some-lt-length m.heap r o.0 o.1

    register-IsValid : IsValid (register id sb pid screen m)
    register-IsValid = record {
      leads = register_leads;
      apart = λ i j r e f. elim (found i r e) [
        | inl a ↦ elim (found j r f) [
          | inl b ↦ subst (λ x. same_text x j ≡ true) (same_text_sound id i a.0) b.0
          | inr b ↦ absurd (omega (arith, a.1, old_lt j r b.1))
        ]
        | inr a ↦ elim (found j r f) [
          | inl b ↦ absurd (omega (arith, b.1, old_lt i r a.1))
          | inr b ↦ v.apart i j r a.1 b.1
        ]
      ];
      known = register_known;
    }

  open_session-IsValid :
      (reads : Bool) (id : Text) (pty : Option Word) (screen : Option S) (m : Manager S)
      → IsValid m
      → IsValid (open_session reads id pty screen m).1
  unfolding open_session open_rest
  open_session-IsValid reads id none screen m v =
      if_ind (λ (r : Option SessionError × Manager S). IsValid r.1) (is_taken id m)
        {y = (some pty_failed, m)} v v
  open_session-IsValid reads id (some pid) screen m v = elim (Bool-cases (is_taken id m)) [
    | inl t ↦ rw t v
    | inr t ↦ rw t (
        register-IsValid id (open_scrollback reads m.scrollback_bytes id m.archive) pid screen m v
          t)
  ]

  -- An identifier is deleted that leads to a session whose scrollback is closed.
  pump_forget-IsValid :
      (id : Text) (r : ℕ) (l : Live S) (m : Manager S)
      → find id m.sessions ≡ some r
      → get_elem? m.heap r ≡ some l
      → l.sb.closed ≡ true
      → IsValid m
      → IsValid (pump_forget id m)
  unfolding pump_forget
  pump_forget-IsValid id r l m e g c v = record {
    leads = λ j q f. v.leads j q (kept j q f).1;
    apart = λ i j q f g. v.apart i j q (kept i q f).1 (kept j q g).1;
    known = λ q (k, o, n).
        let (j, f) = v.known q (k, o, n) in
        elim (Bool-cases (same_text id j)) [
          | inl h ↦ let d : q ≡ r = cc (f, e, same_text_sound id j h) in absurd (cc (d, o, g, c, n))
          | inr h ↦ (j, ground (arith, f, find-remove id j m.sessions, h))
        ];
  }
    where
      kept :
          (j : Text) (q : ℕ)
          → find j (remove id m.sessions) ≡ some q
          → (same_text id j ≡ false) × (find j m.sessions ≡ some q)
      kept j q f = elim (Bool-cases (same_text id j)) [
        | inl h ↦ absurd (ground (arith, f, find-remove id j m.sessions, h))
        | inr h ↦ (h, ground (arith, f, find-remove id j m.sessions, h))
      ]

  -- What the goroutines of an agent do to its manager, one part of a call at a time. An `Open` is
  -- not interleaved with another; a flush saves whatever bytes it took before; and a goroutine deletes
  -- its identifier, which leads to its session, behind the close of its scrollback.
  pub data Step : Manager S → Manager S → Type 0 where
    opens :
        (reads : Bool) (id : Text) (pty : Option Word) (screen : Option S) (m n : Manager S)
        → n ≡ (open_session reads id pty screen m).1
        → Step m n
    outputs :
        (draw : Bytes → S → S) (now : Word) (r : ℕ) (p : Bytes) (m n : Manager S)
        → n ≡ pump_chunk draw now r p m
        → Step m n
    flushes :
        (s : System) (id : Text) (r : ℕ) (p : Bytes) (m n : Manager S)
        → n ≡ save_taken s id r p m.archive m
        → Step m n
    resizes : (fit : S → S) (id : Text) (m n : Manager S) → n ≡ (resize fit id m).1 → Step m n
    closes :
        (removes : Bool) (id : Text) (m n : Manager S)
        → n ≡ (close_session removes id m).1
        → Step m n
    shuts : (r : ℕ) (m n : Manager S) → n ≡ pump_close r m → Step m n
    forgets :
        (id : Text) (r : ℕ) (l : Live S) (m n : Manager S)
        → find id m.sessions ≡ some r
        → get_elem? m.heap r ≡ some l
        → l.sb.closed ≡ true
        → n ≡ pump_forget id m
        → Step m n

  pub data Reaches (m : Manager S) : Manager S → Type 0 where
    start : Reaches m m
    next : (n k : Manager S) → Reaches m n → Step n k → Reaches m k

  pub Step-IsValid : (m n : Manager S) → Step m n → IsValid m → IsValid n
  unfolding resize close_session
  Step-IsValid _ _ (opens reads id pty screen m n e) v =
      subst IsValid (sym e) (open_session-IsValid reads id pty screen m v)
  Step-IsValid _ _ (outputs draw now r p m n e) v =
      subst IsValid (sym e) (pump_chunk-IsValid draw now r p m v)
  Step-IsValid _ _ (flushes s id r p m n e) v =
      subst IsValid (sym e) (save_taken-IsValid s id r p m.archive m v)
  Step-IsValid _ _ (resizes fit id m n e) v =
      subst IsValid (sym e) (resize_found-IsValid fit (find id m.sessions) m v)
  Step-IsValid _ _ (closes removes id m n e) v =
      subst IsValid (sym e) (close_found-IsValid removes id (lookup id m) m v)
  Step-IsValid _ _ (shuts r m n e) v = subst IsValid (sym e) (pump_close-IsValid r m v)
  Step-IsValid _ _ (forgets id r l m n f g c e) v =
      subst IsValid (sym e) (pump_forget-IsValid id r l m f g c v)

  Reaches-IsValid : (m n : Manager S) → Reaches m n → IsValid m → IsValid n
  Reaches-IsValid m _ start v = v
  Reaches-IsValid m _ (next k n r s) v = Step-IsValid k n s (Reaches-IsValid m k r v)

  pub new_manager-IsValid :
      (bytes : Word) (a : Option Disk) (cap : ℕ) → IsValid {S = S} (new_manager bytes a cap)
  unfolding new_manager find
  new_manager-IsValid bytes a cap = record {
    leads = λ id r e. absurd (cc e);
    apart = λ i j r e f. absurd (cc e);
    known = λ r (l, e, c). absurd (cc e);
  }

  -- In every state that a new manager reaches by opens that are not interleaved with one another,
  -- by output, by saves of whatever bytes were taken before, by resizes and closes, by the ends of
  -- scrollbacks, and by deletions of an identifier that leads to a session whose scrollback was
  -- closed, an identifier leads to nothing or to a session of its own, and to every session whose
  -- scrollback is open an identifier leads.
  pub Reaches-IsValid_new :
      (bytes : Word) (a : Option Disk) (cap : ℕ) (n : Manager S)
      → Reaches (new_manager bytes a cap) n
      → IsValid n
  Reaches-IsValid_new bytes a cap n r =
      Reaches-IsValid (new_manager bytes a cap) n r (new_manager-IsValid bytes a cap)

  -- An entry that such changes of the map leave is an older one.
  unled :
      (id j : Text) (q : ℕ) (m : Manager S)
      → IsValid m
      → find j (remove id (put id q (put id (length m.heap) m.sessions)))
        ≢ some (suc (length m.heap))
  unled id j q m v x = elim (Bool-cases (same_text id j)) [
    | inl h ↦
        absurd
          (ground (arith, x, find-remove id j (put id q (put id (length m.heap) m.sessions)), h))
    | inr h ↦
        let y : find j m.sessions ≡ some (suc (length m.heap)) = ground (
          arith,
          x,
          h,
          find-remove id j (put id q (put id (length m.heap) m.sessions)),
          find-put id j q (put id (length m.heap) m.sessions),
          find-put id j (length m.heap) m.sessions,
        ) in
        let o = v.leads j (suc (length m.heap)) y in
        absurd (omega (arith, some-lt-length m.heap (suc (length m.heap)) o.0 o.1))
  ]

  -- If two calls of `Open` with one identifier both find it free and both register, the end of the
  -- first session deletes the entry of the second, which runs on, with its scrollback open, and
  -- which no identifier leads to.
  pub pump_exit-register_twice :
      (id : Text) (sb sb' : Scrollback) (pid pid' : Word) (screen screen' : Option S)
      (m : Manager S)
      → IsValid m
      → is_taken id m ≡ false
      → sb'.closed ≡ false
      → let n =
          pump_exit id
            (length m.heap)
            (register id sb' pid' screen' (register id sb pid screen m)) in
        (find id n.sessions ≡ none)
        × IsOpen n.heap (suc (length m.heap))
        × ((j : Text) → find j n.sessions ≢ some (suc (length m.heap)))
  unfolding register pump_exit pump_forget pump_close
  pump_exit-register_twice id sb sb' pid pid' screen screen' m v t fresh =
      let l : Live S = record {
        pid = pid;
        sb = sb;
        screen = screen;
        last_output_at = 0;
        dirty = false;
      } in
      let l' : Live S = record {
        pid = pid';
        sb = sb';
        screen = screen';
        last_output_at = 0;
        dirty = false;
      } in
      let h = m.heap ++ (l ∷ []) in
      let e : length h ≡ suc (length m.heap) = omega (arith, length-append m.heap (l ∷ [])) in
      let sessions = put id (length h) (put id (length m.heap) m.sessions) in
      (
        find-remove_self id sessions,
        update_ne-IsOpen close_live (h ++ (l' ∷ [])) (length m.heap) (suc (length m.heap))
            (λ x. absurd (omega (arith, x)))
            (l', ap (get_elem? (h ++ (l' ∷ []))) (sym e) ∙ get_elem?-append_length h l' [], fresh),
        λ j x. unled id j (length h) m v x,
      )
