-- ===== src/Server/Linked/Messages.antt =====
-- HandleMessage (server/rtmp.cc) keeps rooms and sessions linked.
use live_streaming.Base.{ℕ, ◌≡◌, refl, ◌==◌, ◌||◌, List, Bool-cases, inl, inr}
use live_streaming.Result.{Result, ok, throws, aborts, faults, exhausted}
use live_streaming.Stream.{ByteStream, open_stream}
use live_streaming.Chunk.{Message}
use live_streaming.Command.{CommandMessage, deserialize_command}
use live_streaming.Room.{Send}
use live_streaming.Room.Manager.{RoomManager}
use live_streaming.Session.{RtmpSession, Environment, undefined, set_need_close}
use live_streaming.Server.World.{World, on_session}
use live_streaming.Server.Commands.{connect, command_name, handle_command_message}
use live_streaming.Server.Reading.{handle_message, handle_command_payload, with_sends}
use live_streaming.Server.Linked.{IsLinked, Leaves, bind-Leaves, Within}
use live_streaming.Server.Linked.Rooms.{init_meta_data-Within, add_data-Within}
use live_streaming.Server.Linked.Sessions.{
  on_session-IsLinked, make_sends-IsLinked, manager-IsLinked,
}
use live_streaming.Server.Linked.Handlers.{IsCurrent, set_need_close-SameRole, command-IsLinked}

-- A session that plays or publishes is sent no second "connect" in this payload.
abbrev pub IsTame : RtmpSession → List ℕ → Type 0
IsTame s payload =
    (c : CommandMessage) (bs : ByteStream)
    → deserialize_command (open_stream payload) ≡ ok (c, bs)
    → command_name c.name ≡ connect
    → s.type ≡ undefined

module _ (env : Environment) (key : ℕ) (s : RtmpSession) (w : World) (cur : IsCurrent key s w)
    (l : IsLinked w) where
  payload-IsLinked :
      (payload : List ℕ)
      → IsTame s payload
      → Leaves IsLinked (handle_command_payload env key payload s w)
  unfolding handle_command_payload
  payload-IsLinked payload tame = parsed (deserialize_command (open_stream payload)) tame
    where
      parsed :
          (r : Result (CommandMessage × ByteStream))
          → ((c : CommandMessage) (bs : ByteStream)
              → r ≡ ok (c, bs)
              → command_name c.name ≡ connect
              → s.type ≡ undefined)
          → Leaves IsLinked (elim r as (λ _. Result World) [
            | ok (c, bs) ↦ handle_command_message env key c s w
            | throws ↦ on_session key (λ s'. ok (set_need_close s')) w
            | aborts ↦ aborts
            | faults ↦ faults
            | exhausted ↦ exhausted
          ])
      parsed (ok (c, bs)) h = command-IsLinked env key c s w cur l (h c bs refl)
      parsed throws h = on_session-IsLinked key _ w set_need_close-SameRole l
      parsed aborts h = tt
      parsed faults h = tt
      parsed exhausted h = tt

  sent-IsLinked :
      (r : Result (RoomManager × List Send))
      → Leaves (λ x. Within (λ k id. ⊥) w.manager x.0) r
      → Leaves IsLinked (with_sends env w r)
  unfolding with_sends
  sent-IsLinked r h =
      bind-Leaves (λ x. Within (λ k id. ⊥) w.manager x.0) IsLinked r _ h
        λ x i.
          make_sends-IsLinked env x.1 _
            (manager-IsLinked (λ k id. ⊥) x.0 w i (λ k id f. absurd f) l)

  pub message-IsLinked :
      (msg : Message) → IsTame s msg.payload → Leaves IsLinked (handle_message env key msg s w)
  unfolding handle_message
  message-IsLinked msg tame = elim (Bool-cases (msg.type == 3)) [
    | inl a ↦ rw a l
    | inr a ↦ elim (Bool-cases (msg.type == 8 || msg.type == 9)) [
      | inl b ↦
          rw (a, b)
            (sent-IsLinked _
              (add_data-Within s.room_id msg.type msg.timestamp msg.payload w.manager))
      | inr b ↦ elim (Bool-cases (msg.type == 18)) [
        | inl d ↦
            rw (a, b, d) (sent-IsLinked _ (init_meta_data-Within s.room_id msg.payload w.manager))
        | inr d ↦ elim (Bool-cases (msg.type == 20)) [
          | inl e ↦ rw (a, b, d, e) (payload-IsLinked msg.payload tame)
          | inr e ↦ rw (a, b, d, e) l
        ]
      ]
    ]
  ]
