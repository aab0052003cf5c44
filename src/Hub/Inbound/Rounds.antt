-- ===== src/Hub/Inbound/Rounds.antt =====
-- inbound.go, and control.go of the agent: the loop never blocks, and an open that waits gets the
-- result of the agent.
use constellate.Common.{
  ℕ, ◌≡◌, refl, ap, sym, subst, ◌∙◌, if_ind, Bool, false, if◌then◌else◌, Option, none, some, List,
  [], ◌∷◌, Word, ◌>>=◌,
}
use constellate.Maps.{Text, find, is_empty}
use constellate.Agent.Control
use constellate.Agent.Control.{
  Message, open_session_msg, Reply, error_reply, Answers, Agent, code_of, pid_of, reply_of,
  handle_control_frame,
}
use constellate.Agent.Sessions.{SessionError, open_session}
use constellate.Hub.Gateway.{OpenResult, opened, failed, receive}
use constellate.Hub.Gateway.Replies.{IsWaiting, resolve_open_returns, receive-resolve_open}
use constellate.Hub.Inbound.{
  Inbound, beats, session_opened, error_msg, session_exited, garbled, other, Side, Beat,
  update_metrics, take_beat, beat, resolve, handle_frame, handle_frames,
}

-- The loop goes on, and the opens that wait have an empty channel of their own.
abbrev pub Returns : {G M : Type 0} → Option (Side G M) → Type 0
Returns none = ⊥
Returns (some s) = IsWaiting s.link

-- The message that the hub reads for a reply of the agent.
unfoldable pub inbound_of : {M : Type 0} → Reply → Inbound M
inbound_of (Control.session_opened id pid) = session_opened id pid
inbound_of (error_reply id code) = error_msg id code

-- What the agent's `Open` came to.
abbrev pub outcome : Option Word → Bool → Option SessionError → OpenResult
outcome pty missing none = opened (pid_of pty)
outcome pty missing (some e) = failed (code_of missing e)

module _ {G M : Type 0} where
  resolve-Returns :
      (id : Text) (r : OpenResult) (s : Side G M) → IsWaiting s.link → Returns (resolve id r s)
  unfolding resolve
  resolve-Returns id r s v = let (m, e, w) = (resolve_open_returns id r s.link v).0 in rw e w

  take_beat-link :
      (machine_id : Text) (now : Word) (b : Option (Beat M)) (s : Side G M)
      → (take_beat machine_id now b s).link ≡ s.link
  unfolding take_beat update_metrics
  take_beat-link machine_id now none s = refl
  take_beat-link machine_id now (some b) s = of_metrics b.metrics
    where
      of_metrics : (o : Option M) → (update_metrics machine_id o s).link ≡ s.link
      of_metrics none = refl
      of_metrics (some x) = refl

  handle_frame-Returns :
      (machine_id : Text) (now : Word) (f : Inbound M) (s : Side G M)
      → IsWaiting s.link
      → Returns (handle_frame machine_id now f s)
  unfolding handle_frame beat
  handle_frame-Returns machine_id now (beats b) s v =
      subst IsWaiting (sym (take_beat-link machine_id now b (beat machine_id now s))) v
  handle_frame-Returns machine_id now (session_opened id pid) s v =
      resolve-Returns id (opened pid) s v
  handle_frame-Returns machine_id now (error_msg id code) s v =
      if_ind Returns (is_empty id) v (resolve-Returns id (failed code) s v)
  handle_frame-Returns machine_id now (session_exited id code) s v = v
  handle_frame-Returns machine_id now garbled s v = v
  handle_frame-Returns machine_id now other s v = v

  -- If every open that waits has an empty channel of its own, the loop of `handleControl` does not
  -- block on any messages of the agent, in any order and with any identifiers, and the opens that
  -- still wait behind them have an empty channel of their own.
  pub handle_frames-Returns :
      (machine_id : Text) (fs : List (Word × Inbound M)) (s : Side G M)
      → IsWaiting s.link
      → Returns (handle_frames machine_id fs s)
  unfolding handle_frames
  handle_frames-Returns machine_id [] s v = v
  handle_frames-Returns machine_id ((now, f) ∷ fs) s v =
      of_first (handle_frame machine_id now f s) (handle_frame-Returns machine_id now f s v)
        (handle_frames-Returns machine_id fs)
    where
      of_first :
          (o : Option (Side G M))
          → Returns o
          → ((t : Side G M) → IsWaiting t.link → Returns (handle_frames machine_id fs t))
          → Returns (o >>= λ t. handle_frames machine_id fs t)
      of_first none w k = w
      of_first (some t) w k = k t w

  resolved :
      (machine_id : Text) (now : Word) (id : Text) (pty : Option Word) (missing : Bool)
      (e : Option SessionError) (s : Side G M) (ch : ℕ)
      → IsWaiting s.link
      → is_empty id ≡ false
      → find id s.link.pending ≡ some ch
      → (t : Side G M) × (handle_frame machine_id now (inbound_of (reply_of id pty missing e)) s
          ≡ some t)
        × ((receive ch t.link).0 ≡ some (outcome pty missing e))
  unfolding handle_frame inbound_of reply_of resolve
  resolved machine_id now id pty missing none s ch v n w =
      let (l, x, y, z) =
        receive-resolve_open id (opened (pid_of pty)) s.link v ch w (opened (pid_of pty)) in
      (record s { link = l }, ap (λ o. o >>= λ k. some (record s { link = k })) x, y)
  resolved machine_id now id pty missing (some e) s ch v n w =
      let r = failed (code_of missing e) in
      let (l, x, y, z) = receive-resolve_open id r s.link v ch w r in
      (
        record s { link = l },
        ap (λ (b : Bool). if b then some s else resolve id r s) n
            ∙ ap (λ o. o >>= λ k. some (record s { link = k })) x,
        y,
      )

  -- If an open waits for an identifier that is not empty, and each open that waits has an empty
  -- channel of its own, the agent answers the message of that open, and the open receives what the
  -- agent's `Open` came to: the process, or the code of its error.
  pub receive-handle_control_frame :
      {S : Type 0} (machine_id : Text) (now : Word) (id : Text) (w : Answers S) (a : Agent S)
      (s : Side G M) (ch : ℕ)
      → IsWaiting s.link
      → is_empty id ≡ false
      → find id s.link.pending ≡ some ch
      → (r : Reply) × (t : Side G M) × ((handle_control_frame (open_session_msg id) w a).0 ≡ some r)
        × (handle_frame machine_id now (inbound_of r) s ≡ some t)
        × ((receive ch t.link).0
            ≡ some (outcome w.pty w.missing (open_session w.reads id w.pty w.screen a.manager).0))
  unfolding handle_control_frame
  receive-handle_control_frame machine_id now id w a s ch v n f =
      let e = (open_session w.reads id w.pty w.screen a.manager).0 in
      let (t, x, y) = resolved machine_id now id w.pty w.missing e s ch v n f in
      (reply_of id w.pty w.missing e, t, refl, x, y)
