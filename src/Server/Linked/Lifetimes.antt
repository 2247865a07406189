-- ===== src/Server/Linked/Lifetimes.antt =====
-- OnClose (server/rtmp.cc) and the listener's callbacks (server/net.h): no room keeps the pointer of a
-- session that is gone.
use live_streaming.Base.{
  ℕ, zero, suc, get_elem?, ◌≡◌, refl, sym, ap, ◌∙◌, subst, Bool, ◌==◌, List, ◌++◌, none, some, pos,
  Option-cases, Bool-cases, inl, inr, ◌⊎◌, erase_key, empty_map, ==_iff, if_false, if_true,
}
use live_streaming.Result.{Result, ok}
use live_streaming.Room.{Room}
use live_streaming.Room.Manager.{new_manager, leave_room, close_room}
use live_streaming.Session.{
  SessionType, RtmpSession, Environment, new_session, undefined, pull, push,
}
use live_streaming.Session.Chunks.{read_chunk}
use live_streaming.Server.World.{World}
use live_streaming.Server.Reading.{store, on_read, on_close}
use live_streaming.Server.Listener.{close_session, listen_callback}
use live_streaming.Server.Linked.{Visits, IsLinked, Leaves, bind-Leaves, Within}
use live_streaming.Server.Linked.Rooms.{close_room-Within, leave_room-Within}
use live_streaming.Server.Linked.Sessions.{
  put_session-IsLinked, free_session-IsLinked, no_viewer-Visits, manager-IsLinked,
}
use live_streaming.Server.Linked.Chunks.{Linked, ReadsTamely}
use live_streaming.Server.Linked.Handshakes.{on_read-IsLinked}

type_cases : (t : SessionType) → (t ≡ undefined) ⊎ ((t ≡ pull) ⊎ (t ≡ push))
type_cases undefined = inl refl
type_cases pull = inr (inl refl)
type_cases push = inr (inr refl)

-- The state is linked, and the session is in no room.
abbrev IsGone : ℕ → World → World → Type 0
IsGone key w w' =
    IsLinked w' × ((id : ℕ) → ¬ (Visits w'.manager key id)) × (w'.sessions ≡ w.sessions)

on_close-IsGone :
    (key : ℕ) (s : RtmpSession) (w : World)
    → w.sessions key ≡ some s
    → IsLinked w
    → Leaves (IsGone key w) (on_close key s w)
unfolding on_close
on_close-IsGone key s w e l = elim (type_cases s.type) [
  | inl u ↦
      rw (u, on_close)
        (l, no_viewer-Visits key s w e (λ p. let q : undefined ≡ pull = sym u ∙ p in cc) l, refl)
  | inr (inl u) ↦
      rw (u, on_close)
        (bind-Leaves
          (λ m.
            Within (λ k id. ⊥) w.manager m × ((id : ℕ) → s.room_id ≡ pos id → ¬ (Visits m key id)))
          (IsGone key w) (leave_room s.room_id key w.manager) _
          (leave_room-Within s.room_id key w.manager l.alive)
          λ m h. (
            manager-IsLinked (λ k id. ⊥) m w h.0 (λ k id f. absurd f) l,
            (λ id v. elim (h.0.visits key id v) [
              | inl old ↦
                  let (x, there, viewer, room) = l.visits key id old in
                  let same : x ≡ s = cc in h.1 id (ap (λ y. y.room_id) (sym same) ∙ room) v
              | inr f ↦ f
            ]),
            refl,
          ))
  | inr (inr u) ↦
      rw (u, on_close)
        (let h = close_room-Within s.room_id w.manager in
          let m = close_room s.room_id w.manager in
          (
            manager-IsLinked (λ k id. ⊥) m w h (λ k id f. absurd f) l,
            (λ id v. elim (h.visits key id v) [
              | inl old ↦
                  no_viewer-Visits key s w e (λ p. let q : push ≡ pull = sym u ∙ p in cc) l id old
              | inr f ↦ f
            ]),
            refl,
          ))
]

erase-IsLinked :
    (key : ℕ) (w : World)
    → ((id : ℕ) → ¬ (Visits w.manager key id))
    → IsLinked w
    → IsLinked (record w { sessions = erase_key w.sessions key })
erase-IsLinked key w out l = record {
  visits = λ k id v.
      let (x, there, viewer, room) = l.visits k id v in
      elim (Bool-cases (key == k)) [
        | inl i ↦ absurd (out id (subst (λ j. Visits w.manager j id) (sym ((==_iff key k).0 i)) v))
        | inr i ↦ (x, if_false (key == k) none (w.sessions k) i ∙ there, viewer, room)
      ];
  alive = l.alive;
  idle = λ k x g. elim (Bool-cases (key == k)) [
    | inl i ↦ let f : none ≡ some x = sym (if_true (key == k) none (w.sessions k) i) ∙ g in cc
    | inr i ↦ l.idle k x (sym (if_false (key == k) none (w.sessions k) i) ∙ g)
  ];
}

close_session-IsLinked : (key : ℕ) (w : World) → IsLinked w → Leaves IsLinked (close_session key w)
unfolding close_session
close_session-IsLinked key w l = elim (Option-cases (w.sessions key)) [
  | inl e ↦ rw (e, close_session) l
  | inr (s, e) ↦
      rw (e, close_session)
        (bind-Leaves (IsGone key w) IsLinked (on_close key s w) _ (on_close-IsGone key s w e l)
          λ w' h. erase-IsLinked key w' h.1 h.0)
]

listen_callback-IsLinked :
    (random : List ℕ) (key : ℕ) (w : World)
    → IsLinked w
    → Leaves IsLinked (listen_callback random key w)
unfolding listen_callback new_session
listen_callback-IsLinked random key w l = elim (Option-cases (w.sessions key)) [
  | inl e ↦
      rw (e, listen_callback)
        (free_session-IsLinked key (new_session random) w
          (λ id v. let (x, there, viewer, room) = l.visits key id v in cc) (inr refl) l)
  | inr (s, e) ↦ rw (e, listen_callback) (close_session-IsLinked key w l)
]

abbrev pub new_world : World
new_world = record { sessions = empty_map; manager = new_manager }

-- What happens to the server: a connection comes, its bytes go to the read buffer of its session, OnRead
-- is called, or the session is closed. No session that has played or published is sent "connect" again.
pub data Step (w w' : World) : Type 0 where
  opens : (random : List ℕ) (key : ℕ) → listen_callback random key w ≡ ok w' → Step w w'
  fills :
      (key : ℕ) (s : RtmpSession) (input : List ℕ)
      → w.sessions key ≡ some s
      → w' ≡ store key (record s { read_data_buffer = s.read_data_buffer ++ input }) w
      → Step w w'
  reads :
      (env : Environment) (key : ℕ) (s : RtmpSession) (reply : Bool)
      → w.sessions key ≡ some s
      → ReadsTamely s (read_chunk s)
      → on_read env key s w ≡ ok (w', reply)
      → Step w w'
  closes : (key : ℕ) → close_session key w ≡ ok w' → Step w w'

pub data Reach : World → Type 0 where
  start : Reach new_world
  next : {w w' : World} → Reach w → Step w w' → Reach w'

of_ok : {A : Type 0} (P : A → Type 0) {r : Result A} (a : A) → Leaves P r → r ≡ ok a → P a
of_ok P a h e = subst (Leaves P) e h

Step-IsLinked : (w w' : World) → Step w w' → IsLinked w → IsLinked w'
Step-IsLinked w w' (opens random key e) l =
    of_ok IsLinked w' (listen_callback-IsLinked random key w l) e
Step-IsLinked w w' (fills key s input e f) l =
    subst IsLinked (sym f)
      (put_session-IsLinked key s _ w e (record { type = refl; room = refl; state = refl }) l)
Step-IsLinked w w' (reads env key s reply e tame f) l =
    of_ok Linked (w', reply) (on_read-IsLinked env key s w e l tame) f
Step-IsLinked w w' (closes key e) l = of_ok IsLinked w' (close_session-IsLinked key w l) e

no_room : (id : ℕ) (r : Room) → ¬ (get_elem? new_manager.rooms id ≡ some (some r))
unfolding new_manager
no_room zero r e = cc
no_room (suc zero) r e = cc
no_room (suc (suc zero)) r e = cc
no_room (suc (suc (suc zero))) r e = cc
no_room (suc (suc (suc (suc n)))) r e = cc

new_world-IsLinked : IsLinked new_world
new_world-IsLinked = record {
  visits = λ key id v. absurd (no_room id v.room v.there);
  alive = λ id r e. absurd (no_room id r e);
  idle = λ key s e. cc;
}

-- From an empty server on, whatever connections come, send and close, if no session that has played or
-- published is sent a second "connect": every visitor of a room is a session that is there, of the
-- type of a viewer and with this room's id, so that rooms hold no pointer to a session that is gone.
-- And a session in its handshake has no role yet, and rooms in their slots are alive.
pub Reach-IsLinked : {w : World} → Reach w → IsLinked w
Reach-IsLinked start = new_world-IsLinked
Reach-IsLinked (next {w} {w'} r s) = Step-IsLinked w w' s (Reach-IsLinked r)
