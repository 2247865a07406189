-- ===== src/Server/Linked/Rooms.antt =====
-- Whom the calls of the room manager (server/room.h) let into its rooms.
use live_streaming.Base.{
  ℕ, zero, suc, ◌≡◌, refl, sym, ◌∙◌, subst, Bool, true, false, ◌==◌, List, [], ◌∷◌, ◌++◌, Option,
  none, some, get_elem?, set, ℤ, pos, negsuc, arith, Bool-cases, inl, inr, ◌⊎◌, length, leb,
}
use live_streaming.Result.{Result, ok, throws, aborts, faults, exhausted}
use live_streaming.Room.{
  Room, VisitorState, is_visitor, video_to_visitors, audio_to_visitors, add_video, add_audio,
  erase_visitor, insert_visitor, is_aac_seq_header, new_room, Send, is_key_frame, welcomed, enter,
  leave,
}
use live_streaming.Room
use live_streaming.Room.Leaving.{erase_visitor_lem}
use live_streaming.Room.Manager.{
  RoomManager, slot, room_at, create_room, close_room, enter_room, leave_room, in_pool,
  init_meta_data, add_data,
}
use live_streaming.Room.Manager.Calls.{Ensures, holds, faulted, slot-Ensures, room_at-Ensures}
use live_streaming.Server.Linked.{
  AreAlive, refl-Within, set-new_room-Within, set-none-Within, Visits, Within, Leaves, bind-Leaves,
  put_room-Within,
}

abbrev pub Nobody : ℕ → ℕ → Type 0
Nobody key id = ⊥

video_visitors :
    (k : ℕ) (key : Bool) (t : ℕ) (p : List ℕ) (vs : List (ℕ × VisitorState))
    → is_visitor k (video_to_visitors key t p vs).0 ≡ is_visitor k vs
unfolding video_to_visitors is_visitor
video_visitors k key t p [] = refl
video_visitors k key t p ((s, st) ∷ vs) = ground (arith, video_visitors k key t p vs)

audio_visitors :
    (k : ℕ) (header : Bool) (t : ℕ) (p : List ℕ) (vs : List (ℕ × VisitorState))
    → is_visitor k (audio_to_visitors header t p vs).0 ≡ is_visitor k vs
unfolding audio_to_visitors is_visitor
audio_visitors k header t p [] = refl
audio_visitors k header t p ((s, st) ∷ vs) = ground (arith, audio_visitors k header t p vs)

is_visitor-append :
    (k s : ℕ) (st : VisitorState) (vs : List (ℕ × VisitorState))
    → is_visitor k (vs ++ (s, st) ∷ []) ≡ true
    → (is_visitor k vs ≡ true) ⊎ (s ≡ k)
unfolding is_visitor
is_visitor-append k s st [] h = inr (ground arith)
is_visitor-append k s st ((v, x) ∷ vs) h = ground (arith, is_visitor-append k s st vs)

-- A room that media or metadata went through has the visitors that it had.
abbrev Same : Room → Room × List Send → Type 0
Same r (r', sends) =
    (r'.is_alive ≡ r.is_alive) × ((k : ℕ) → is_visitor k r'.visitors ≡ is_visitor k r.visitors)

-- The audio branch, by what is_aac_seq_header returns.
audio-Same :
    (h : Result Bool) (t : ℕ) (p : List ℕ) (r : Room)
    → Leaves (Same r) (elim h as (λ _. Result (Room × List Send)) [
      | ok header ↦ ok (add_audio header t p r)
      | _ ↦ faults
    ])
unfolding add_audio
audio-Same (ok header) t p r = (refl, λ k. audio_visitors k header t p r.visitors)
audio-Same throws t p r = tt
audio-Same aborts t p r = tt
audio-Same faults t p r = tt
audio-Same exhausted t p r = tt

room_data-Same : (type t : ℕ) (p : List ℕ) (r : Room) → Leaves (Same r) (Room.add_data type t p r)
unfolding Room.add_data add_video add_audio
room_data-Same type t p r = elim (Bool-cases (length p == 0)) [
  | inl z ↦ rw z (refl, λ k. refl)
  | inr z ↦ elim (Bool-cases (type == 9)) [
    | inl v ↦ rw (z, v) (refl, λ k. video_visitors k (is_key_frame p) t p r.visitors)
    | inr v ↦ elim (Bool-cases (type == 8)) [
      | inl a ↦ rw (z, v, a) (audio-Same (is_aac_seq_header p) t p r)
      | inr a ↦ rw (z, v, a) (refl, λ k. refl)
    ]
  ]
]

Ensures-Leaves : {A : Type 0} {P : A → Type 0} {r : Result A} → Ensures P r → Leaves P r
Ensures-Leaves (holds a p) = p
Ensures-Leaves faulted = tt

pub init_meta_data-Within :
    (id : ℤ) (mp : List ℕ) (m : RoomManager)
    → Leaves (λ r. Within Nobody m r.0) (init_meta_data id mp m)
unfolding init_meta_data Room.init_meta_data room_at slot
init_meta_data-Within (negsuc n) mp m = tt
init_meta_data-Within (pos id) mp m =
    bind-Leaves (λ r. get_elem? m.rooms id ≡ some (some r)) _ (room_at (pos id) m) _
      (Ensures-Leaves (room_at-Ensures id m))
      λ r e. put_room-Within Nobody id r _ m e refl λ k h. inl h

pub add_data-Within :
    (id : ℤ) (type t : ℕ) (p : List ℕ) (m : RoomManager)
    → Leaves (λ r. Within Nobody m r.0) (add_data id type t p m)
unfolding add_data room_at slot
add_data-Within (negsuc n) type t p m = tt
add_data-Within (pos id) type t p m =
    bind-Leaves (λ r. get_elem? m.rooms id ≡ some (some r)) _ (room_at (pos id) m) _
      (Ensures-Leaves (room_at-Ensures id m))
      λ r e.
        bind-Leaves (Same r) _ (Room.add_data type t p r) _ (room_data-Same type t p r)
          λ q h. put_room-Within Nobody id r q.0 m e h.0 λ k i. inl (sym (h.1 k) ∙ i)

create-Within :
    (pool : List ℕ) (rooms : List (Option Room))
    → let m : RoomManager = record { id_pool = pool; rooms = rooms } in
      Within Nobody m (create_room m).0
unfolding create_room
create-Within [] rooms = refl-Within Nobody _
create-Within (id ∷ rest) rooms =
    set-new_room-Within Nobody id rest (record { id_pool = id ∷ rest; rooms = rooms })

pub create_room-Within : (m : RoomManager) → Within Nobody m (create_room m).0
create_room-Within m = create-Within m.id_pool m.rooms

pub close_room-Within : (id : ℤ) (m : RoomManager) → Within Nobody m (close_room id m)
unfolding close_room
close_room-Within (negsuc n) m = refl-Within Nobody m
close_room-Within (pos id) m = elim (Bool-cases (leb (length m.rooms) id)) [
  | inl out ↦ rw out (refl-Within Nobody m)
  | inr inside ↦ elim (Bool-cases (in_pool id m.id_pool)) [
    | inl free ↦ rw (inside, free) (refl-Within Nobody m)
    | inr used ↦ rw (inside, used) (set-none-Within Nobody id (id ∷ m.id_pool) m)
  ]
]

-- The session that enters, and its room.
abbrev pub Entering : ℤ → ℕ → ℕ → ℕ → Type 0
Entering id s key j = (s ≡ key) × (id ≡ pos j)

enter-visitors :
    (s k : ℕ) (r : Room)
    → is_visitor k (enter s r).0.visitors ≡ true
    → (is_visitor k r.visitors ≡ true) ⊎ (s ≡ k)
unfolding enter insert_visitor
enter-visitors s k r h = ground (arith, is_visitor-append k s (welcomed r) r.visitors)

enter-alive : (s : ℕ) (r : Room) → (enter s r).0.is_alive ≡ r.is_alive
unfolding enter
enter-alive s r = ground arith

-- Entering lets in the session alone.
pub enter_room-Within :
    (id : ℤ) (s : ℕ) (m : RoomManager)
    → Leaves (λ r. Within (Entering id s) m r.0) (enter_room id s m)
unfolding enter_room slot
enter_room-Within (negsuc n) s m = tt
enter_room-Within (pos id) s m =
    bind-Leaves (λ o. get_elem? m.rooms id ≡ some o) _ (slot (pos id) m) _
      (Ensures-Leaves (slot-Ensures id m))
      (elim [
        | none ↦ λ e. refl-Within (Entering (pos id) s) m
        | some r ↦ λ e.
            put_room-Within (Entering (pos id) s) id r (enter s r).0 m e (enter-alive s r)
              λ k h. elim (enter-visitors s k r h) [ inl w ↦ inl w | inr w ↦ inr (w, refl) ]
      ])

set_over {ℓ} :
    {A : Type ℓ} (xs : List A) (i : ℕ) (v x : A)
    → get_elem? xs i ≡ some x
    → get_elem? (set xs i v) i ≡ some v
set_over [] i v x e = cc
set_over (y ∷ ys) zero v x e = refl
set_over (y ∷ ys) (suc i) v x e = set_over ys i v x e

leave-visitors :
    (s k : ℕ) (r : Room) → is_visitor k (leave s r).visitors ≡ true → is_visitor k r.visitors ≡ true
unfolding leave
leave-visitors s k r h = let e = erase_visitor_lem s k r.visitors in ground arith

leave-alive : (s : ℕ) (r : Room) → (leave s r).is_alive ≡ r.is_alive
unfolding leave
leave-alive s r = ground arith

leave-gone : (s : ℕ) (r : Room) → r.is_alive ≡ true → is_visitor s (leave s r).visitors ≡ false
unfolding leave
leave-gone s r a = let e = erase_visitor_lem s s r.visitors in ground arith

-- Who leaves is not in the room any more, and nobody comes in.
pub leave_room-Within :
    (id : ℤ) (s : ℕ) (m : RoomManager)
    → AreAlive m
    → Leaves
        (λ m'. Within Nobody m m' × ((j : ℕ) → id ≡ pos j → ¬ (Visits m' s j)))
        (leave_room id s m)
unfolding leave_room slot
leave_room-Within (negsuc n) s m a = tt
leave_room-Within (pos id) s m a =
    bind-Leaves (λ o. get_elem? m.rooms id ≡ some o) _ (slot (pos id) m) _
      (Ensures-Leaves (slot-Ensures id m))
      (elim [
        | none ↦ λ e. (refl-Within Nobody m, λ j i v. cc)
        | some r ↦ λ e. (
          put_room-Within Nobody id r (leave s r) m e (leave-alive s r)
              (λ k h. inl (leave-visitors s k r h)),
          λ j i v.
              let same : id ≡ j = cc in
              let put : get_elem? (set m.rooms id (some (leave s r))) j ≡ some (some (leave s r)) =
                subst
                  (λ k. get_elem? (set m.rooms id (some (leave s r))) k ≡ some (some (leave s r)))
                  same (set_over m.rooms id (some (leave s r)) (some r) e) in
              let left : leave s r ≡ v.room = cc in
              let out : is_visitor s v.room.visitors ≡ false =
                subst (λ (x : Room). is_visitor s x.visitors ≡ false) left
                  (leave-gone s r (a id r e)) in
              cc,
        )
      ])
