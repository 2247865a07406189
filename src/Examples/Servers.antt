-- ===== src/Examples/Servers.antt =====
-- A connection that comes, sends the version and the first handshake message, and goes.
use live_streaming.Base.{List, ℕ, refl, ◌∷◌, ◌++◌, [], Bool, true, false, replicate}
use live_streaming.Stream
use live_streaming.Stream.{open_stream, pop_bytes, push_bytes, push_raw, close_stream, commit}
use live_streaming.Handshake.{
  random_size, serialize_version, deserialize_version, serialize_handshake, deserialize_handshake,
}
use live_streaming.Result.{Result, ok}
use live_streaming.Session.{RtmpSession, Environment, new_session, append_output, write}
use live_streaming.Server.World.{World}
use live_streaming.Server.Reading.{on_read, store}
use live_streaming.Server.Listener.{listen_callback}
use live_streaming.Server.Linked.{IsLinked}
use live_streaming.Server.Linked.Lifetimes.{
  new_world, opens, fills, reads, Reach, start, next, Reach-IsLinked,
}

abbrev network : Environment
network = record { write_fails = λ key sent xs. false; uptime = 7000000 }

abbrev random : List ℕ
random = replicate random_size 7

abbrev fresh : RtmpSession
fresh = new_session random

abbrev caller : RtmpSession
caller = record fresh { read_data_buffer = fresh.read_data_buffer ++ 3 ∷ [] }

abbrev calling : World
calling = store 1 caller (store 1 fresh new_world)

abbrev world_of : Result (World × Bool) → World
world_of (ok (w, reply)) = w
world_of _ = new_world

abbrev answered : World
answered = world_of (on_read network 1 caller calling)

history : Reach answered
unfolding listen_callback new_session on_read deserialize_version pop_bytes open_stream
    append_output Stream.◌>>=◌ serialize_version push_bytes serialize_handshake push_raw write
    close_stream commit deserialize_handshake
history =
    next {w' = answered}
      (next (next start (opens random 1 refl)) (fills 1 fresh (3 ∷ []) refl refl))
      (reads network 1 caller true refl (λ t bs e whole c bs' f n. refl) refl)

Reach-IsLinked_example : IsLinked answered
Reach-IsLinked_example = Reach-IsLinked history
