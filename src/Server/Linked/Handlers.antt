-- ===== src/Server/Linked/Handlers.antt =====
-- The handlers of commands (server/rtmp.cc) let nobody into a room who is not a session
-- that plays there.
use live_streaming.Base.{
  ℕ, ◌≡◌, ◌≢◌, refl, ◌∙◌, Bool, true, false, some, codes, ℤ, pos, negsuc, inl, inr, ◌⊎◌,
  if◌then◌else◌, update,
}
use live_streaming.Result.{Result, ok}
use live_streaming.Command.Marker
use live_streaming.Command.{plain, CommandMessage, serialize_command}
use live_streaming.Room.Manager.{create_room, enter_room}
use live_streaming.Session.{
  RtmpSession, Environment, SessionType, undefined, pull, push, handshake_done, set_need_close,
  write,
}
use live_streaming.Server.World.{World, on_session, make_sends}
use live_streaming.Server.Commands.{
  CommandName, connect, acknowledged, create_stream, publish, play, unanswered, unknown,
  command_name, handle_publish, handle_play, handle_connect, handle_create_stream, dispatch_command,
  handle_command_message, Handled, refuse, answer, connect_room, chunked, respond, status_command,
  outgoing, command_type, result_command,
}
use live_streaming.Server.Linked.{IsLinked, Leaves, bind-Leaves, Within}
use live_streaming.Server.Linked.Rooms.{Entering, create_room-Within, enter_room-Within}
use live_streaming.Server.Linked.Sessions.{
  update_same, SameRole, append_output-SameRole, write-SameRole, free_session-IsLinked,
  no_viewer-Visits, on_session-IsLinked, make_sends-IsLinked, manager-IsLinked,
}

abbrev Linked : World × Bool → Type 0
Linked (w, returned) = IsLinked w

answer-IsLinked :
    (key : ℕ) (f : RtmpSession → Result RtmpSession) (w : World)
    → ((s : RtmpSession) → Leaves (SameRole s) (f s))
    → IsLinked w
    → Leaves Linked (answer key f w)
answer-IsLinked key f w h l =
    bind-Leaves IsLinked Linked (on_session key f w) _ (on_session-IsLinked key f w h l) λ w' l'. l'

pub set_need_close-SameRole : (s : RtmpSession) → SameRole s (set_need_close s)
unfolding set_need_close
set_need_close-SameRole s = record { type = refl; room = refl; state = refl }

refuse-IsLinked : (key : ℕ) (w : World) → IsLinked w → Leaves Linked (refuse key w)
refuse-IsLinked key w l =
    bind-Leaves IsLinked Linked (on_session key (λ s. ok (set_need_close s)) w) _
      (on_session-IsLinked key _ w set_need_close-SameRole l) λ w' l'. l'

-- The session of a handler is the one in the server's state, past its handshake.
pub record IsCurrent (key : ℕ) (s : RtmpSession) (w : World) : Type 0 where
  pub there : w.sessions key ≡ some s
  pub done : s.state ≡ handshake_done

respond-SameRole :
    (env : Environment) (c : CommandMessage) (s : RtmpSession)
    → Leaves (SameRole s) (respond env c s)
respond-SameRole env c s =
    append_output-SameRole (chunked env s (outgoing command_type (serialize_command c))) s

type_cases : (t : SessionType) → (t ≡ undefined) ⊎ ((t ≡ pull) ⊎ (t ≡ push))
type_cases undefined = inl refl
type_cases pull = inr (inl refl)
type_cases push = inr (inr refl)

by_id :
    (z : ℤ) (a b : Handled)
    → Leaves Linked a
    → Leaves Linked b
    → Leaves Linked (elim z as (λ _. Handled) [ negsuc n ↦ a | pos id ↦ b ])
by_id (negsuc n) a b h k = h
by_id (pos id) a b h k = k

by_test :
    (t : Bool) (a b : Handled)
    → Leaves Linked a
    → Leaves Linked b
    → Leaves Linked (if t then a else b)
by_test true a b h k = h
by_test false a b h k = k

undefined_ne_pull : {t : SessionType} → t ≡ undefined → t ≢ pull
undefined_ne_pull e h = cc

module _ (env : Environment) (key : ℕ) (c : CommandMessage) (s : RtmpSession) (w : World)
    (cur : IsCurrent key s w) (l : IsLinked w) where
  -- A session that has neither played nor published gets a type and a room.
  typed-IsLinked :
      (s' : RtmpSession)
      → s.type ≡ undefined
      → s'.state ≡ s.state
      → IsLinked (record w { sessions = update w.sessions key s' })
  typed-IsLinked s' u e =
      free_session-IsLinked key s' w (no_viewer-Visits key s w cur.there (undefined_ne_pull u) l)
        (inl (e ∙ cur.done)) l

  publish-IsLinked : Leaves Linked (handle_publish env key c s w)
  unfolding handle_publish
  publish-IsLinked = elim (type_cases s.type) [
    | inl u ↦
        let made = create_room w.manager in
        let s' : RtmpSession = record s { type = push; room_id = made.1 } in
        let w1 : World = record w { sessions = update w.sessions key s' } in
        let l' =
          manager-IsLinked (λ k id. ⊥) made.0 w1 (create_room-Within w.manager) (λ k id f. absurd f)
            (typed-IsLinked s' u refl) in
        let w2 : World = record w1 { manager = made.0 } in
        rw (u, handle_publish)
          (by_id made.1 _ _ (refuse-IsLinked key w2 l') (
            answer-IsLinked key _ w2
              (respond-SameRole env (status_command c.id (codes "NetStream.Publish.Start"))) l'))
    | inr (inl p) ↦ rw (p, handle_publish) (refuse-IsLinked key w l)
    | inr (inr p) ↦ rw (p, handle_publish) (refuse-IsLinked key w l)
  ]

  play-IsLinked : Leaves Linked (handle_play env key c s w)
  unfolding handle_play
  play-IsLinked = elim (type_cases s.type) [
    | inl u ↦
        let s' : RtmpSession = record s { type = pull } in
        let w1 : World = record w { sessions = update w.sessions key s' } in
        rw (u, handle_play)
          (bind-Leaves (λ r. Within (Entering s.room_id key) w.manager r.0) Linked
            (enter_room s.room_id key w.manager) _ (enter_room-Within s.room_id key w.manager)
            λ r h.
              let w2 : World = record w1 { manager = r.0 } in
              bind-Leaves IsLinked Linked (make_sends env r.2 w2) _
                (make_sends-IsLinked env r.2 w2 (
                  manager-IsLinked (Entering s.room_id key) r.0 w1 h
                    (λ k id p. (s', update_same w.sessions key s' k p.0, refl, p.1))
                    (typed-IsLinked s' u refl)))
                λ w3 l3.
                  by_test r.1 _ _
                    (answer-IsLinked key _ w3
                      (respond-SameRole env (status_command c.id (codes "NetStream.Play.Start")))
                      l3)
                    (refuse-IsLinked key w3 l3))
    | inr (inl p) ↦ rw (p, handle_play) (refuse-IsLinked key w l)
    | inr (inr p) ↦ rw (p, handle_play) (refuse-IsLinked key w l)
  ]

  connect-IsLinked : s.type ≡ undefined → Leaves Linked (answer key (handle_connect env c) w)
  unfolding handle_connect on_session
  connect-IsLinked u =
      let e = cur.there in
      rw (on_session, e)
        (bind-Leaves IsLinked Linked _ _
          (bind-Leaves (SameRole (record s { room_id = connect_room c s.room_id })) IsLinked _ _
            (append_output-SameRole _ (record s { room_id = connect_room c s.room_id }))
            λ s' r.
              free_session-IsLinked key s' w
                (no_viewer-Visits key s w cur.there (undefined_ne_pull u) l) (inr (r.type ∙ u)) l)
          λ w' l'. l')

  dispatch-IsLinked :
      (n : CommandName)
      → (n ≡ connect → s.type ≡ undefined)
      → Leaves Linked (dispatch_command n env key c s w)
  unfolding dispatch_command handle_create_stream
  dispatch-IsLinked connect h = connect-IsLinked (h refl)
  dispatch-IsLinked acknowledged h =
      answer-IsLinked key _ w
        (respond-SameRole env (result_command c.id (plain Marker.object) (plain Marker.object))) l
  dispatch-IsLinked create_stream h = answer-IsLinked key _ w (λ x. respond-SameRole env _ x) l
  dispatch-IsLinked publish h = publish-IsLinked
  dispatch-IsLinked play h = play-IsLinked
  dispatch-IsLinked unanswered h = l
  dispatch-IsLinked unknown h = tt

  written :
      (r : World × Bool)
      → Linked r
      → Leaves IsLinked (if r.1 then ok r.0 else on_session key (λ s'. ok (write env key s').0) r.0)
  written (w', true) l' = l'
  written (w', false) l' = on_session-IsLinked key _ w' (write-SameRole env key) l'

  pub command-IsLinked :
      (command_name c.name ≡ connect → s.type ≡ undefined)
      → Leaves IsLinked (handle_command_message env key c s w)
  unfolding handle_command_message
  command-IsLinked h =
      bind-Leaves Linked IsLinked (dispatch_command (command_name c.name) env key c s w) _
        (dispatch-IsLinked (command_name c.name) h) written
