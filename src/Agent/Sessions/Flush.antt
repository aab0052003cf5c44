-- ===== src/Agent/Sessions/Flush.antt =====
-- manager.go: what a flush leaves in the archive, by itself, when output comes between its two
-- parts, and for the session that the next process opens under the same identifier.
use constellate.Common.{
  ℕ, zero, suc, ◌+◌, ◌<◌, ◌^◌, ◌≡◌, refl, ap, sym, subst, ◌∙◌, Bool, true, false, if◌then◌else◌,
  Option, none, some, List, [], ◌∷◌, ◌++◌, arith, Word, length, get_elem?,
}
use mathlib.Core.Option
use constellate.Maps.{Text, find, put}
use constellate.Maps.Laws.{same_text_refl}
use constellate.Terminal.Scrollback.{Bytes, new_with_data, write, snapshot}
use constellate.Terminal.Scrollback.History.{Holds, new_with_data-Holds, write-Holds}
use constellate.Agent.Archive.{
  Disk, System, SaveError, save, loaded, load, path, has_prefix, temp_prefix,
}
use constellate.Agent.Archive.Saved.{load-save}
use constellate.Agent.Sessions.{
  Live, Manager, separator, restored, prior_of, open_scrollback, nonempty, new_manager, register,
  open_session, open_rest, is_taken, deref, lookup, update_at, pump, pump_chunk, clean, saved,
  save_taken, take_bytes, save_bytes, flush_one, flush_dirty_one, is_dirty,
}

module _ {S : Type 0} where
  pub get_elem?-update_at :
      (r : ℕ) (f : Live S → Live S) (h : List (Live S)) (l : Live S)
      → get_elem? h r ≡ some l
      → get_elem? (update_at r f h) r ≡ some (f l)
  unfolding update_at
  get_elem?-update_at r f [] l e = cc
  get_elem?-update_at zero f (x ∷ h) l e = ap some (ap f (cc e))
  get_elem?-update_at (suc r) f (x ∷ h) l e = get_elem?-update_at r f h l e

  -- What a `Save` without an error, of bytes taken from the session at `r`, leaves.
  saved_lem :
      (s : System) (id : Text) (r : ℕ) (p : Bytes) (m : Manager S) (d : Disk) (l : Live S)
      → get_elem? m.heap r ≡ some l
      → has_prefix (path id) temp_prefix ≡ false
      → (x : Option SaveError × Disk) → save s m.cap id p d ≡ x
      → x.0 ≡ none
      → (get_elem? (saved r x m).heap r ≡ some (clean l))
        × (load true id x.1 ≡ loaded p)
        × ((saved r x m).archive ≡ some x.1)
  unfolding saved
  saved_lem s id r p m d l g h (some e, d') q n = absurd (cc n)
  saved_lem s id r p m d l g h (none, d') q n = (
    get_elem?-update_at r clean m.heap l g,
    subst (λ x. load true id x.1 ≡ loaded p) q (load-save s m.cap id p d h (ap (λ x. x.0) q)),
    refl,
  )

-- A scrollback that `Open` restores holds the archived bytes and the separator behind them.
restored-Holds :
    (max : Word) (b : ℕ) (p : Bytes)
    → max < 2 ^ 63
    → length (b ∷ p) + length separator < 2 ^ 63
    → Holds (restored max (b ∷ p)) ((b ∷ p) ++ separator)
unfolding restored
restored-Holds max b p h k =
    write-Holds (new_with_data max (b ∷ p)) (b ∷ p) separator
      (new_with_data-Holds max (b ∷ p) h (omega (arith, k))) k

module _ {S : Type 0} (s : System) (id : Text) (r : ℕ) (m : Manager S) (d : Disk) (l : Live S)
    (b : ℕ) (p : Bytes) (live : get_elem? m.heap r ≡ some l) (archived : m.archive ≡ some d)
    (bytes : snapshot l.sb ≡ b ∷ p) (plain : has_prefix (path id) temp_prefix ≡ false)
    (succeeds : (save s m.cap id (b ∷ p) d).0 ≡ none) where
  taken : take_bytes (get_elem? m.heap r) ≡ some (b ∷ p)
  unfolding take_bytes nonempty
  taken = ap take_bytes live ∙ ap nonempty bytes

  flush_one_lem : flush_one s id r m ≡ saved r (save s m.cap id (b ∷ p) d) m
  unfolding flush_one save_bytes save_taken
  flush_one_lem =
      ap (λ o. save_bytes s id r o m) taken ∙ ap (λ a. save_taken s id r (b ∷ p) a m) archived

  flushed :
      (get_elem? (flush_one s id r m).heap r ≡ some (clean l))
      × ((d' : Disk) × ((flush_one s id r m).archive ≡ some d')
          × (load true id d' ≡ loaded (b ∷ p)))
  flushed =
      let t = saved_lem s id r (b ∷ p) m d l live plain (save s m.cap id (b ∷ p) d) refl succeeds in
      rw flush_one_lem (t.0, (_, t.2, t.1))

  -- If output comes between the two parts of a turn of the flush, which takes bytes of a session
  -- that are not empty and saves them without an error, its chunk is in the scrollback, the
  -- archive has the bytes from before, and the next periodic flush passes the session by.
  pub save_taken-pump_chunk :
      (draw : Bytes → S → S) (now : Word) (c : ℕ) (q : Bytes) (t : System)
      → let n = save_taken s id r (b ∷ p) (some d) (pump_chunk draw now r (c ∷ q) m) in
        (flush_dirty_one t id r n ≡ n)
        × (Option.map (λ (x : Live S). x.sb) (get_elem? n.heap r) ≡ some (write (c ∷ q) l.sb))
        × (Option.map (load true id) n.archive ≡ some (loaded (snapshot l.sb)))
  unfolding save_taken pump_chunk pump flush_dirty_one saved clean
  save_taken-pump_chunk draw now c q t =
      let n = pump_chunk draw now r (c ∷ q) m in
      let k = saved r (save s m.cap id (b ∷ p) d) n in
      let v =
        saved_lem s id r (b ∷ p) n d (pump draw now (c ∷ q) l)
          (get_elem?-update_at r (pump draw now (c ∷ q)) m.heap l live) plain
          (save s m.cap id (b ∷ p) d) refl succeeds in
      (
        ap (λ o. if is_dirty o then flush_one t id r k else k) v.0,
        ap (Option.map (λ (x : Live S). x.sb)) v.0,
        ap (Option.map (load true id)) v.2 ∙ ap some (v.1 ∙ ap loaded (sym bytes)),
      )

  -- If a flush has saved the bytes of a session without an error, its identifier does not begin
  -- like a temporary file, and the sizes are below 2 ^ 63, then a new manager over that archive
  -- opens a session under the identifier, whose scrollback holds the end of those bytes with the
  -- separator behind them.
  pub open_session-flush_one :
      (max pid : Word) (screen : Option S)
      → max < 2 ^ 63
      → length (b ∷ p) + length separator < 2 ^ 63
      → (o : Live S) × (lookup id
            (open_session true id
              (some pid)
              screen
              (new_manager max (flush_one s id r m).archive m.cap)).1
          ≡ some o)
        × Holds o.sb ((b ∷ p) ++ separator)
  unfolding open_session open_rest is_taken new_manager register lookup open_scrollback find put
      prior_of
  open_session-flush_one max pid screen h k =
      let f = flushed.1 in
      let e : open_scrollback true max id (flush_one s id r m).archive ≡ restored max (b ∷ p) =
        ap (open_scrollback true max id) f.1 ∙ ap (λ x. restored max (prior_of x)) f.2 in
      let o : Live S = record {
        pid = pid;
        sb = open_scrollback true max id (flush_one s id r m).archive;
        screen = screen;
        last_output_at = 0;
        dirty = false;
      } in
      (
        o,
        ap (λ (j : Option ℕ). deref j (o ∷ []))
            (ap (λ (t : Bool). if t then some 0 else none) (same_text_refl id)),
        subst (λ x. Holds x ((b ∷ p) ++ separator)) (sym e) (restored-Holds max b p h k),
      )
