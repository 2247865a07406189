-- ===== src/Server/Linked/Chunks.antt =====
-- One chunk, and the message that it completes, on the read of a session that is past its handshake
-- (server/rtmp.cc).
use live_streaming.Base.{
  ℕ, ◌≡◌, refl, ◌∙◌, Bool, true, false, List, Option, none, some, ltb, Option-cases, Bool-cases,
  inl, inr, if◌then◌else◌,
}
use live_streaming.Result.{Result, ok, throws, aborts, faults, exhausted, ◌>>=◌}
use live_streaming.Stream.{ByteStream, Stream, open_stream, commit, remain, pop_raw, pure}
use live_streaming.Stream
use live_streaming.Chunk.{ChunkHeader, new_header, deserialize_header}
use live_streaming.Session.{RtmpSession, Environment}
use live_streaming.Session.Chunks.{
  Taken, read_chunk, take_chunk, complete_header, message_timestamp, expected_length,
  get_message_id, is_complete, finish_message,
}
use live_streaming.Server.World.{World, on_session}
use live_streaming.Server.Reading.{store, on_read_in_handshake_done_state, handle_message}
use live_streaming.Server.Linked.{IsLinked, Leaves, any_Leaves, bind-Leaves}
use live_streaming.Server.Linked.Sessions.{
  SameRole, put_session-IsLinked, on_session-IsLinked, update_same,
}
use live_streaming.Server.Linked.Handlers.{IsCurrent}
use live_streaming.Server.Linked.Messages.{IsTame, message-IsLinked}

-- The session of the chunk that was taken.
abbrev Keeps : RtmpSession → Option Taken × ByteStream → Type 0
Keeps s (none, bs) = Unit
Keeps s (some t, bs) = SameRole s t.session

take_chunk-Keeps :
    (s : RtmpSession) (h : ChunkHeader) (bs : ByteStream) → Leaves (Keeps s) (take_chunk s h bs)
unfolding take_chunk
take_chunk-Keeps s h bs =
    let msg_id = get_message_id h.basic.chunk_stream_id h.common.message_stream_id in
    let count = expected_length s.max_chunk_size h (s.reading_messages msg_id) in
    elim (Option-cases (message_timestamp h (s.message_previous_timestamp msg_id))) [
      | inl e ↦ rw (e, take_chunk) tt
      | inr (timestamp, e) ↦ elim (Bool-cases (ltb (remain bs) count)) [
        | inl g ↦ rw (e, take_chunk) (rw g tt)
        | inr g ↦
            rw (e, take_chunk)
              (rw g (
                unfold Stream.◌>>=◌ in
                bind-Leaves {A = List ℕ × ByteStream} (λ r. Unit {0}) (Keeps s) (pop_raw count bs) _
                  (any_Leaves (pop_raw count bs))
                  λ r u. record { type = refl; room = refl; state = refl }))
      ]
    ]

continue-Keeps :
    (s : RtmpSession) (bs : ByteStream) (completed : Option ChunkHeader)
    → let next : Stream (Option Taken) = elim completed [
      | none ↦ pure none
      | some h ↦ take_chunk s h
    ] in
      Leaves (Keeps s) (next bs)
unfolding pure
continue-Keeps s bs none = tt
continue-Keeps s bs (some h) = take_chunk-Keeps s h bs

read_chunk-Keeps : (s : RtmpSession) → Leaves (Keeps s) (read_chunk s)
unfolding read_chunk Stream.◌>>=◌
read_chunk-Keeps s =
    bind-Leaves {A = ChunkHeader × ByteStream} (λ r. Unit {0}) (Keeps s)
      (deserialize_header new_header (open_stream s.read_data_buffer)) _
      (any_Leaves (deserialize_header new_header (open_stream s.read_data_buffer)))
      λ (h, b1) u.
        bind-Leaves {A = Option ChunkHeader × ByteStream} (λ r. Unit {0}) (Keeps s)
          (complete_header h _ b1) _ (any_Leaves (complete_header h _ b1))
          λ (completed, b2) u'. continue-Keeps s b2 completed

-- A chunk that completes a command message: no second "connect" for a session that has played or
-- published.
abbrev pub ReadsTamely : RtmpSession → Result (Option Taken × ByteStream) → Type 0
ReadsTamely s r =
    (t : Taken) (bs : ByteStream)
    → r ≡ ok (some t, bs)
    → is_complete t.message ≡ true
    → IsTame s t.message.payload

abbrev pub Linked : World × Bool → Type 0
Linked (w, reply) = IsLinked w

finish-SameRole : (msg_id t : ℕ) (s : RtmpSession) → SameRole s (finish_message msg_id t s)
unfolding finish_message
finish-SameRole msg_id t s = record { type = refl; room = refl; state = refl }

module _ (env : Environment) (key : ℕ) (s : RtmpSession) (w : World) (cur : IsCurrent key s w)
    (l : IsLinked w) where
  taken-IsLinked :
      (t : Taken)
      → SameRole s t.session
      → (is_complete t.message ≡ true → IsTame s t.message.payload)
      → Leaves Linked (
          if is_complete t.message
          then (handle_message env key t.message t.session (store key t.session w) >>= λ w'.
              on_session key (λ s'. ok (finish_message t.msg_id t.timestamp s')) w' >>= λ w''.
              ok (w'', true))
          else ok (store key t.session w, true))
  taken-IsLinked t r tame =
      let stored = put_session-IsLinked key s t.session w cur.there r l in
      elim (Bool-cases (is_complete t.message)) [
        | inr part ↦ rw part stored
        | inl whole ↦
            let now : IsCurrent key t.session (store key t.session w) = record {
              there = update_same w.sessions key t.session key refl;
              done = r.state ∙ cur.done;
            } in
            rw whole (
              bind-Leaves IsLinked Linked
                (handle_message env key t.message t.session (store key t.session w)) _
                (message-IsLinked env key t.session (store key t.session w) now stored t.message
                  λ c bs e n. r.type ∙ tame whole c bs e n)
                λ w' l'.
                  bind-Leaves IsLinked Linked
                    (on_session key (λ s'. ok (finish_message t.msg_id t.timestamp s')) w') _
                    (on_session-IsLinked key _ w' (finish-SameRole t.msg_id t.timestamp) l')
                    λ w'' l''. l'')
      ]

  chunk-IsLinked :
      (r : Result (Option Taken × ByteStream))
      → Leaves (Keeps s) r
      → ReadsTamely s r
      → Leaves Linked (elim r as (λ _. Result (World × Bool)) [
        | ok (none, bs) ↦ ok (w, false)
        | ok (some t, bs) ↦
            if is_complete t.message
            then (handle_message env key t.message t.session (store key t.session w) >>= λ w'.
                on_session key (λ s'. ok (finish_message t.msg_id t.timestamp s')) w' >>= λ w''.
                ok (w'', true))
            else ok (store key t.session w, true)
        | throws ↦ ok (w, true)
        | aborts ↦ aborts
        | faults ↦ faults
        | exhausted ↦ exhausted
      ])
  chunk-IsLinked (ok (none, bs)) h tame = l
  chunk-IsLinked (ok (some t, bs)) h tame = taken-IsLinked t h (tame t bs refl)
  chunk-IsLinked throws h tame = l
  chunk-IsLinked aborts h tame = tt
  chunk-IsLinked faults h tame = tt
  chunk-IsLinked exhausted h tame = tt

  pub done-IsLinked :
      ReadsTamely s (read_chunk s) → Leaves Linked (on_read_in_handshake_done_state env key s w)
  unfolding on_read_in_handshake_done_state
  done-IsLinked tame = chunk-IsLinked (read_chunk s) (read_chunk-Keeps s) tame
