-- ===== src/Server/Linked/Sessions.antt =====
-- What the methods of a session (server/net.h, server/rtmp.cc) leave as it was: the role of the
-- session; and what the server's state then keeps.
use live_streaming.Base.{
  ℕ, ◌≡◌, ◌≢◌, refl, sym, ap, ◌∙◌, subst, ◌==◌, List, [], ◌∷◌, some, Map, if_true, if_false, arith,
  Option-cases, Bool-cases, inl, inr, ◌⊎◌, update, ==_iff,
}
use live_streaming.Result.{Result, ok, throws, aborts, faults, exhausted, ◌>>=◌}
use live_streaming.Stream.{push_raw, Stream, ByteStream, open_stream}
use live_streaming.Chunk.Sending.{Outgoing, serialize_chunks}
use live_streaming.Room.{Send, send_meta_data, send_media_data}
use live_streaming.Room.Manager.{RoomManager}
use live_streaming.Session.{
  RtmpSession, Environment, undefined, pull, handshake_done, append_output, write, send_chunked,
  caught,
}
use live_streaming.Session
use live_streaming.Server.World.{World, on_session, make_send, make_sends}
use live_streaming.Server.Linked.{Views, Visits, IsLinked, Leaves, any_Leaves, bind-Leaves, Within}

-- Type, room and state are the same.
pub record SameRole (s s' : RtmpSession) : Type 0 where
  pub type : s'.type ≡ s.type
  pub room : s'.room_id ≡ s.room_id
  pub state : s'.state ≡ s.state

pub refl-SameRole : (s : RtmpSession) → SameRole s s
refl-SameRole s = record { type = refl; room = refl; state = refl }

pub append_output-SameRole :
    (w : Stream (Unit {0})) (s : RtmpSession) → Leaves (SameRole s) (append_output w s)
unfolding append_output
append_output-SameRole w s =
    bind-Leaves {A = Unit {0} × ByteStream} (λ r. Unit {0}) (SameRole s)
      (w (open_stream s.write_data_buffer)) _ (any_Leaves (w (open_stream s.write_data_buffer)))
      λ r h. record { type = refl; room = refl; state = refl }

pub write-SameRole :
    (env : Environment) (key : ℕ) (s : RtmpSession) → SameRole s (write env key s).0
unfolding write
write-SameRole env key s = record { type = ground arith; room = ground arith; state = ground arith }

caught-SameRole :
    (r : Result RtmpSession) (s : RtmpSession)
    → Leaves (SameRole s) r
    → Leaves (SameRole s) (caught r s)
unfolding caught
caught-SameRole (ok s') s h = h
caught-SameRole throws s h = refl-SameRole s
caught-SameRole aborts s h = tt
caught-SameRole faults s h = tt
caught-SameRole exhausted s h = tt

trans-SameRole : {s t u : RtmpSession} → SameRole s t → SameRole t u → SameRole s u
trans-SameRole a b = record {
  type = b.type ∙ a.type;
  room = b.room ∙ a.room;
  state = b.state ∙ a.state;
}

send_media_data-SameRole :
    (env : Environment) (key type timestamp : ℕ) (payload : List ℕ) (s : RtmpSession)
    → Leaves (SameRole s) (Session.send_media_data env key type timestamp payload s)
unfolding Session.send_media_data send_chunked
send_media_data-SameRole env key type timestamp payload s =
    let m : Outgoing = record {
      type = type;
      timestamp = timestamp;
      stream_id = s.msid_for_create_stream;
      body = push_raw payload;
    } in
    caught-SameRole (send_chunked env m s >>= λ s'. ok (write env key s').0) s (
      bind-Leaves (SameRole s) (SameRole s) (send_chunked env m s) (λ s'. ok (write env key s').0)
        (append_output-SameRole (serialize_chunks env.uptime s.max_chunk_size_for_sending m) s)
        λ s' h. trans-SameRole h (write-SameRole env key s'))

module _ (m : Map RtmpSession) (key : ℕ) (s : RtmpSession) where
  update_cases :
      (k : ℕ) (x : RtmpSession) → update m key s k ≡ some x → ((key ≡ k) × (s ≡ x)) ⊎ (m k ≡ some x)
  update_cases k x e = elim (Bool-cases (key == k)) [
    | inl i ↦ inl (
      (==_iff key k).0 i,
      let g : some s ≡ some x = sym (if_true (key == k) (some s) (m k) i) ∙ e in cc,
    )
    | inr i ↦ inr (sym (if_false (key == k) (some s) (m k) i) ∙ e)
  ]

  pub update_same : (k : ℕ) → key ≡ k → update m key s k ≡ some s
  update_same k e = ground arith

  update_other : (k : ℕ) → key ≢ k → update m key s k ≡ m k
  update_other k e = ground arith

-- A session is replaced by one of the same role.
pub put_session-IsLinked :
    (key : ℕ) (s s' : RtmpSession) (w : World)
    → w.sessions key ≡ some s
    → SameRole s s'
    → IsLinked w
    → IsLinked (record w { sessions = update w.sessions key s' })
put_session-IsLinked key s s' w e r l = record {
  visits = λ k id v.
      let (x, there, viewer, room) = l.visits k id v in
      elim (Bool-cases (key == k)) [
        | inl i ↦
            let same : key ≡ k = (==_iff key k).0 i in
            let old : s ≡ x = cc in
            (
              s',
              update_same w.sessions key s' k same,
              r.type ∙ ap (λ y. y.type) old ∙ viewer,
              r.room ∙ ap (λ y. y.room_id) old ∙ room,
            )
        | inr i ↦ (x, update_other w.sessions key s' k (ground arith) ∙ there, viewer, room)
      ];
  alive = l.alive;
  idle = λ k x g. elim (update_cases w.sessions key s' k x g) [
    | inl (i, same) ↦ elim (l.idle key s e) [
      | inl done ↦ inl (sym (ap (λ y. y.state) same) ∙ r.state ∙ done)
      | inr none_yet ↦ inr (sym (ap (λ y. y.type) same) ∙ r.type ∙ none_yet)
    ]
    | inr old ↦ l.idle k x old
  ];
}

-- A session that is in no room is replaced, or comes.
pub free_session-IsLinked :
    (key : ℕ) (s' : RtmpSession) (w : World)
    → ((id : ℕ) → ¬ (Visits w.manager key id))
    → (s'.state ≡ handshake_done) ⊎ (s'.type ≡ undefined)
    → IsLinked w
    → IsLinked (record w { sessions = update w.sessions key s' })
free_session-IsLinked key s' w out idle l = record {
  visits = λ k id v.
      let (x, there, viewer, room) = l.visits k id v in
      elim (Bool-cases (key == k)) [
        | inl i ↦ absurd (out id (subst (λ j. Visits w.manager j id) (sym ((==_iff key k).0 i)) v))
        | inr i ↦ (x, update_other w.sessions key s' k (ground arith) ∙ there, viewer, room)
      ];
  alive = l.alive;
  idle = λ k x g. elim (update_cases w.sessions key s' k x g) [
    | inl (i, same) ↦ subst (λ y. (y.state ≡ handshake_done) ⊎ (y.type ≡ undefined)) same idle
    | inr old ↦ l.idle k x old
  ];
}

-- A session that is not a viewer is in no room.
pub no_viewer-Visits :
    (key : ℕ) (s : RtmpSession) (w : World)
    → w.sessions key ≡ some s
    → s.type ≢ pull
    → IsLinked w
    → (id : ℕ) → ¬ (Visits w.manager key id)
no_viewer-Visits key s w e n l id v =
    let (x, there, viewer, room) = l.visits key id v in
    let same : x ≡ s = cc in n (ap (λ y. y.type) (sym same) ∙ viewer)

pub on_session-IsLinked :
    (key : ℕ) (f : RtmpSession → Result RtmpSession) (w : World)
    → ((s : RtmpSession) → Leaves (SameRole s) (f s))
    → IsLinked w
    → Leaves IsLinked (on_session key f w)
unfolding on_session
on_session-IsLinked key f w h l = elim (Option-cases (w.sessions key)) [
  | inl e ↦ rw (on_session, e) tt
  | inr (s, e) ↦
      rw (on_session, e)
        (bind-Leaves (SameRole s) IsLinked (f s) _ (h s)
          λ s' r. put_session-IsLinked key s s' w e r l)
]

make_send-IsLinked :
    (env : Environment) (x : Send) (w : World) → IsLinked w → Leaves IsLinked (make_send env x w)
unfolding make_send
make_send-IsLinked env (send_meta_data key payload) w l =
    on_session-IsLinked key _ w
      (λ s. unfold Session.send_meta_data in send_media_data-SameRole env key 18 0 payload s) l
make_send-IsLinked env (send_media_data key type t payload) w l =
    on_session-IsLinked key _ w (send_media_data-SameRole env key type t payload) l

pub make_sends-IsLinked :
    (env : Environment) (xs : List Send) (w : World)
    → IsLinked w
    → Leaves IsLinked (make_sends env xs w)
unfolding make_sends
make_sends-IsLinked env [] w l = l
make_sends-IsLinked env (x ∷ xs) w l =
    bind-Leaves IsLinked IsLinked (make_send env x w) (make_sends env xs)
      (make_send-IsLinked env x w l) (make_sends-IsLinked env xs)

-- The manager's call lets in only who views the room then.
pub manager-IsLinked :
    (P : ℕ → ℕ → Type 0) (m : RoomManager) (w : World)
    → Within P w.manager m
    → ((key id : ℕ) → P key id → Views w key id)
    → IsLinked w
    → IsLinked (record w { manager = m })
manager-IsLinked P m w h views l = record {
  visits = λ k id v. elim (h.visits k id v) [
    | inl old ↦ l.visits k id old
    | inr allowed ↦ views k id allowed
  ];
  alive = h.alive l.alive;
  idle = l.idle;
}
