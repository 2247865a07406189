-- ===== src/Server/Listener.antt =====
-- server/net.h and server/net.cc, class Listener: libevent's callbacks on the connections. A
-- bufferevent pointer is also the key of its session, and stands for the session's own pointer.
use live_streaming.Base.{
  ℕ, zero, suc, ◌+◌, Bool, false, List, ◌++◌, ◌==◌, ◌||◌, not, if◌then◌else◌, length, none, some,
  erase_key,
}
use live_streaming.Result.{Result, ok, exhausted, ◌>>=◌}
use live_streaming.Session.{Environment, new_session, is_need_close}
use live_streaming.Server.World.{World}
use live_streaming.Server.Reading.{on_read, on_close, store}

-- ListenCallabck on a new bufferevent: a session that is there already is closed, and the new one
-- is dropped.
unfoldable pub close_session : ℕ → World → Result World
close_session key w = elim (w.sessions key) [
  | none ↦ ok w
  | some s ↦ on_close key s w >>= λ w'. ok (record w' { sessions = erase_key w'.sessions key })
]

unfoldable pub listen_callback : List ℕ → ℕ → World → Result World
unfolding close_session
listen_callback random key w = elim (w.sessions key) [
  | none ↦ ok (store key (new_session random) w)
  | some s ↦ close_session key w
]

unfoldable pub buffered : ℕ → World → ℕ
buffered key w = elim (w.sessions key) [ none ↦ 0 | some s ↦ length s.read_data_buffer ]

-- session->IsNeedClose()
unfoldable pub asks_to_close : ℕ → World → Bool
asks_to_close key w = elim (w.sessions key) [ none ↦ false | some s ↦ is_need_close s ]

-- The loop of ReadCallback: OnRead until the read buffer is empty or stays as long as it was.
unfoldable pub read_loop : ℕ → Environment → ℕ → ℕ → ℕ → World → Result World
unfolding close_session buffered asks_to_close
read_loop zero env key pre cur w = exhausted
read_loop (suc fuel) env key pre cur w =
    let turn : Result World = elim (w.sessions key) [
      | none ↦ ok w
      | some s ↦ on_read env key s w >>= λ (w', reply).
          let next = read_loop fuel env key cur (buffered key w') w' in
          if not reply || asks_to_close key w' then close_session key w' else next
    ] in
    if pre == cur || cur == 0 then ok w else turn

-- ReadCallback, with all the bytes that the bufferevent had.
unfoldable pub read_callback : Environment → ℕ → List ℕ → World → Result World
unfolding read_loop
read_callback env key input w = elim (w.sessions key) [
  | none ↦ close_session key w
  | some s ↦
      let bytes = s.read_data_buffer ++ input in
      read_loop (length bytes + 2) env key 0 (length bytes)
        (store key (record s { read_data_buffer = bytes }) w)
]

-- EventCallback: whatever the event, it is logged and the session closed.
unfoldable pub event_callback : ℕ → World → Result World
unfolding close_session
event_callback key w = close_session key w
