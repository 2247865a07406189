-- ===== src/Server/World.antt =====
-- The server's state: the sessions by the pointers that rooms and the listener hold, and the room
-- manager, with the calls that rooms make on sessions.
use live_streaming.Base.{ℕ, List, [], ◌∷◌, none, some, Map, update}
use live_streaming.Result.{Result, ok, faults, ◌>>=◌}
use live_streaming.Room.{Send, send_meta_data, send_media_data}
use live_streaming.Room.Manager.{RoomManager}
use live_streaming.Session.{RtmpSession, Environment}
use live_streaming.Session

pub record World : Type 0 where
  pub sessions : Map RtmpSession
  pub manager : RoomManager

-- A method call through a session pointer; one that dangles is undefined behaviour.
unfoldable pub on_session : ℕ → (RtmpSession → Result RtmpSession) → World → Result World
on_session key f w = elim (w.sessions key) [
  | none ↦ faults
  | some s ↦ f s >>= λ s'. ok (record w { sessions = update w.sessions key s' })
]

unfoldable pub make_send : Environment → Send → World → Result World
unfolding on_session
make_send env (send_meta_data key payload) w =
    on_session key (Session.send_meta_data env key payload) w
make_send env (send_media_data key type timestamp payload) w =
    on_session key (Session.send_media_data env key type timestamp payload) w

unfoldable pub make_sends : Environment → List Send → World → Result World
make_sends env [] w = ok w
make_sends env (x ∷ xs) w = make_send env x w >>= make_sends env xs
