-- ===== src/Agent/Sessions/Valid.antt =====
-- manager.go: every identifier leads to a session of its own, and every session whose scrollback is
-- open has an identifier that leads to it. The steps that neither register a session nor delete one
-- keep this.
use constellate.Common.{
  ℕ, zero, suc, ◌≡◌, ◌≢◌, refl, ap, sym, ◌∙◌, Bool, true, false, Option, none, some, List, [], ◌∷◌,
  Word, get_elem?,
}
use constellate.Maps.{Text, find, same_text}
use constellate.Terminal.Scrollback.{Bytes, close}
use constellate.Terminal.Scrollback.Closed.{closed-write, closed-close}
use constellate.Agent.Archive.{Disk, System, SaveError, save}
use constellate.Agent.Sessions.{
  Live, Manager, update_at, map_screen, pump, pump_chunk, close_found, resize_live, resize_found,
  clean, saved, save_taken, close_live, pump_close,
}

-- A session at `r`, and one whose scrollback is open.
abbrev pub IsThere : {S : Type 0} → List (Live S) → ℕ → Type 0
IsThere {S} h r = (l : Live S) × (get_elem? h r ≡ some l)

abbrev pub IsOpen : {S : Type 0} → List (Live S) → ℕ → Type 0
IsOpen {S} h r = (l : Live S) × (get_elem? h r ≡ some l) × (l.sb.closed ≡ false)

module _ {S : Type 0} where
  -- Every identifier leads to a session, no two lead to one, and to every session whose scrollback is
  -- open one leads.
  pub record IsValid (m : Manager S) : Type 0 where
    pub leads : (id : Text) (r : ℕ) → find id m.sessions ≡ some r → IsThere m.heap r
    pub apart :
        (i j : Text) (r : ℕ)
        → find i m.sessions ≡ some r
        → find j m.sessions ≡ some r
        → same_text i j ≡ true
    pub known : (r : ℕ) → IsOpen m.heap r → (id : Text) × (find id m.sessions ≡ some r)

  update-IsThere :
      (f : Live S → Live S) (h : List (Live S)) (r q : ℕ)
      → IsThere h q
      → IsThere (update_at r f h) q
  unfolding update_at
  update-IsThere f [] r q o = o
  update-IsThere f (x ∷ h) zero zero o = (f x, refl)
  update-IsThere f (x ∷ h) zero (suc q) o = o
  update-IsThere f (x ∷ h) (suc r) zero o = o
  update-IsThere f (x ∷ h) (suc r) (suc q) o = update-IsThere f h r q o

  pub update_ne-IsOpen :
      (f : Live S → Live S) (h : List (Live S)) (r q : ℕ)
      → r ≢ q
      → IsOpen h q
      → IsOpen (update_at r f h) q
  unfolding update_at
  update_ne-IsOpen f [] r q n o = o
  update_ne-IsOpen f (x ∷ h) zero zero n o = absurd (n refl)
  update_ne-IsOpen f (x ∷ h) zero (suc q) n o = o
  update_ne-IsOpen f (x ∷ h) (suc r) zero n o = o
  update_ne-IsOpen f (x ∷ h) (suc r) (suc q) n o = update_ne-IsOpen f h r q (λ e. n (ap suc e)) o

  -- A change that opens no scrollback.
  module _ (f : Live S → Live S)
      (shuts : (l : Live S) → (f l).sb.closed ≡ false → l.sb.closed ≡ false) where
    IsOpen-update : (h : List (Live S)) (r q : ℕ) → IsOpen (update_at r f h) q → IsOpen h q
    unfolding update_at
    IsOpen-update [] r q o = o
    IsOpen-update (x ∷ h) zero zero (l, e, c) =
        (x, refl, shuts x (ap (λ (y : Live S). y.sb.closed) {x = f x} {y = l} (cc e) ∙ c))
    IsOpen-update (x ∷ h) zero (suc q) o = o
    IsOpen-update (x ∷ h) (suc r) zero o = o
    IsOpen-update (x ∷ h) (suc r) (suc q) o = IsOpen-update h r q o

    heap-IsValid :
        (r : ℕ) (m : Manager S) (a : Option Disk)
        → IsValid m
        → IsValid (record m { heap = update_at r f m.heap; archive = a })
    heap-IsValid r m a v = record {
      leads = λ id q e. update-IsThere f m.heap r q (v.leads id q e);
      apart = v.apart;
      known = λ q o. v.known q (IsOpen-update m.heap r q o);
    }

  pub pump_close-IsValid : (r : ℕ) (m : Manager S) → IsValid m → IsValid (pump_close r m)
  unfolding pump_close close_live
  pump_close-IsValid r m v =
      heap-IsValid (λ l. record l { sb = close l.sb }) (λ l e. absurd (cc (e, closed-close l.sb))) r
        m m.archive v

  closed-pump :
      (draw : Bytes → S → S) (now : Word) (p : Bytes) (l : Live S)
      → (pump draw now p l).sb.closed ≡ l.sb.closed
  unfolding pump
  closed-pump draw now [] l = refl
  closed-pump draw now (b ∷ p) l = closed-write (b ∷ p) l.sb

  pub pump_chunk-IsValid :
      (draw : Bytes → S → S) (now : Word) (r : ℕ) (p : Bytes) (m : Manager S)
      → IsValid m
      → IsValid (pump_chunk draw now r p m)
  unfolding pump_chunk
  pump_chunk-IsValid draw now r p m v =
      heap-IsValid (pump draw now p) (λ l e. sym (closed-pump draw now p l) ∙ e) r m m.archive v

  saved-IsValid :
      (r : ℕ) (x : Option SaveError × Disk) (m : Manager S) → IsValid m → IsValid (saved r x m)
  unfolding saved clean
  saved-IsValid r (some e, d) m v = record { leads = v.leads; apart = v.apart; known = v.known }
  saved-IsValid r (none, d) m v =
      heap-IsValid (λ l. record l { dirty = false }) (λ l e. e) r m (some d) v

  pub save_taken-IsValid :
      (s : System) (id : Text) (r : ℕ) (p : Bytes) (a : Option Disk) (m : Manager S)
      → IsValid m
      → IsValid (save_taken s id r p a m)
  unfolding save_taken
  save_taken-IsValid s id r p none m v = v
  save_taken-IsValid s id r p (some d) m v = saved-IsValid r (save s m.cap id p d) m v

  pub resize_found-IsValid :
      (fit : S → S) (o : Option ℕ) (m : Manager S) → IsValid m → IsValid (resize_found fit o m).1
  unfolding resize_found resize_live
  resize_found-IsValid fit none m v = v
  resize_found-IsValid fit (some r) m v =
      heap-IsValid (λ l. record l { screen = map_screen fit l.screen }) (λ l e. e) r m m.archive v

  pub close_found-IsValid :
      (removes : Bool) (id : Text) (o : Option (Live S)) (m : Manager S)
      → IsValid m
      → IsValid (close_found removes id o m).1
  unfolding close_found
  close_found-IsValid removes id none m v = v
  close_found-IsValid removes id (some l) m v = record {
    leads = v.leads;
    apart = v.apart;
    known = v.known;
  }
