-- ===== src/Server/Linked.antt =====
-- The pointers that rooms hold are to sessions that are there: the room manager's calls
-- (server/room.h) on the state of the server.
pub mod Rooms
pub mod Sessions
pub mod Handlers
pub mod Messages
pub mod Chunks
pub mod Handshakes
pub mod Lifetimes
use live_streaming.Base.{
  ℕ, zero, suc, ◌≡◌, ◌≢◌, refl, sym, ap, ◌∙◌, subst, Bool, true, false, ◌||◌, ◌==◌, List, [], ◌∷◌,
  ◌++◌, Option, none, some, get_elem?, set, ℤ, pos, negsuc, arith, Option-cases, Bool-cases, inl,
  inr, ◌⊎◌, if◌then◌else◌, update,
}
use live_streaming.Result.{Result, ok, throws, aborts, faults, exhausted, ◌>>=◌}
use live_streaming.Room.{
  Room, VisitorState, is_visitor, video_to_visitors, audio_to_visitors, add_video, add_audio,
  erase_visitor, insert_visitor, is_aac_seq_header, new_room, Send,
}
use live_streaming.Room
use live_streaming.Room.Leaving.{erase_visitor_lem}
use live_streaming.Room.Manager.{
  RoomManager, slot, room_at, put_room, create_room, close_room, enter_room, leave_room, in_pool,
  init_meta_data, add_data,
}
use live_streaming.Session.{RtmpSession, undefined, pull, handshake_done}
use live_streaming.Server.World.{World}

-- The session is there, as a viewer of this room.
abbrev pub Views : World → ℕ → ℕ → Type 0
Views w key id =
    (s : RtmpSession) × (w.sessions key ≡ some s) × (s.type ≡ pull) × (s.room_id ≡ pos id)

-- In some room the session is a visitor.
pub record Visits (m : RoomManager) (key id : ℕ) : Type 0 where
  pub room : Room
  pub there : get_elem? m.rooms id ≡ some (some room)
  pub inside : is_visitor key room.visitors ≡ true

-- Rooms in slots are alive.
abbrev pub AreAlive : RoomManager → Type 0
AreAlive m = (id : ℕ) (r : Room) → get_elem? m.rooms id ≡ some (some r) → r.is_alive ≡ true

-- Every visitor of a room is a session that is there and that would leave this room when it is closed;
-- rooms are alive, and a session in its handshake has neither played nor published.
pub record IsLinked (w : World) : Type 0 where
  pub visits : (key id : ℕ) → Visits w.manager key id → Views w key id
  pub alive : AreAlive w.manager
  pub idle :
      (key : ℕ) (s : RtmpSession)
      → w.sessions key ≡ some s
      → (s.state ≡ handshake_done) ⊎ (s.type ≡ undefined)

-- P holds of what a call returns, if it returns.
abbrev pub Leaves : {A : Type 0} → (A → Type 0) → Result A → Type 0
Leaves P (ok a) = P a
Leaves P throws = Unit
Leaves P aborts = Unit
Leaves P faults = Unit
Leaves P exhausted = Unit

pub any_Leaves : {A : Type 0} (r : Result A) → Leaves (λ a. Unit {0}) r
any_Leaves (ok a) = tt
any_Leaves throws = tt
any_Leaves aborts = tt
any_Leaves faults = tt
any_Leaves exhausted = tt

pub bind-Leaves :
    {A B : Type 0} (P : A → Type 0) (Q : B → Type 0) (r : Result A) (f : A → Result B)
    → Leaves P r
    → ((a : A) → P a → Leaves Q (f a))
    → Leaves Q (r >>= f)
bind-Leaves P Q (ok a) f h next = next a h
bind-Leaves P Q throws f h next = tt
bind-Leaves P Q aborts f h next = tt
bind-Leaves P Q faults f h next = tt
bind-Leaves P Q exhausted f h next = tt

pub set_cases {ℓ} :
    {A : Type ℓ} (xs : List A) (i j : ℕ) (v x : A)
    → get_elem? (set xs i v) j ≡ some x
    → ((i ≡ j) × (v ≡ x)) ⊎ (get_elem? xs j ≡ some x)
set_cases [] i j v x e = inr e
set_cases (y ∷ ys) zero zero v x e = inl (refl, cc)
set_cases (y ∷ ys) zero (suc j) v x e = inr e
set_cases (y ∷ ys) (suc i) zero v x e = inr e
set_cases (y ∷ ys) (suc i) (suc j) v x e = elim (set_cases ys i j v x e) [
  | inl (p, q) ↦ inl (ap suc p, q)
  | inr q ↦ inr q
]

-- Every visitor of the second manager's rooms is a visitor of the first one's, or is allowed by P; and
-- the rooms stay alive.
pub record Within (P : ℕ → ℕ → Type 0) (m m' : RoomManager) : Type 0 where
  pub visits : (key id : ℕ) → Visits m' key id → Visits m key id ⊎ P key id
  pub alive : AreAlive m → AreAlive m'

pub refl-Within : (P : ℕ → ℕ → Type 0) (m : RoomManager) → Within P m m
refl-Within P m = record { visits = λ key id v. inl v; alive = λ a. a }

-- A room is replaced by one that lets in whom P allows.
pub put_room-Within :
    (P : ℕ → ℕ → Type 0) (id : ℕ) (r r' : Room) (m : RoomManager)
    → get_elem? m.rooms id ≡ some (some r)
    → r'.is_alive ≡ r.is_alive
    → ((key : ℕ)
        → is_visitor key r'.visitors ≡ true
        → (is_visitor key r.visitors ≡ true) ⊎ P key id)
    → Within P m (put_room (pos id) r' m)
put_room-Within P id r r' m e life h = record {
  visits = λ key j v. elim (set_cases m.rooms id j (some r') (some v.room) v.there) [
    | inr old ↦ inl (record { room = v.room; there = old; inside = v.inside })
    | inl (i, q) ↦
        let same : r' ≡ v.room = cc in
        elim (h key (subst (λ (x : Room). is_visitor key x.visitors ≡ true) (sym same) v.inside)) [
          | inl w ↦ inl (record {
            room = r;
            there = subst (λ k. get_elem? m.rooms k ≡ some (some r)) i e;
            inside = w;
          })
          | inr w ↦ inr (subst (P key) i w)
        ]
  ];
  alive = λ a j x g. elim (set_cases m.rooms id j (some r') (some x) g) [
    | inr old ↦ a j x old
    | inl (i, q) ↦
        let same : r' ≡ x = cc in subst (λ (y : Room). y.is_alive ≡ true) same (life ∙ a id r e)
  ];
}

-- A slot is emptied.
pub set-none-Within :
    (P : ℕ → ℕ → Type 0) (id : ℕ) (pool : List ℕ) (m : RoomManager)
    → Within P m (record { id_pool = pool; rooms = set m.rooms id none })
set-none-Within P id pool m = record {
  visits = λ key j v. elim (set_cases m.rooms id j none (some v.room) v.there) [
    | inr old ↦ inl (record { room = v.room; there = old; inside = v.inside })
    | inl (i, q) ↦ cc
  ];
  alive = λ a j x g. elim (set_cases m.rooms id j none (some x) g) [
    | inr old ↦ a j x old
    | inl (i, q) ↦ cc
  ];
}

-- A slot gets a room without visitors.
pub set-new_room-Within :
    (P : ℕ → ℕ → Type 0) (id : ℕ) (pool : List ℕ) (m : RoomManager)
    → Within P m (record { id_pool = pool; rooms = set m.rooms id (some new_room) })
unfolding new_room is_visitor
set-new_room-Within P id pool m = record {
  visits = λ key j v. elim (set_cases m.rooms id j (some new_room) (some v.room) v.there) [
    | inr old ↦ inl (record { room = v.room; there = old; inside = v.inside })
    | inl (i, q) ↦
        let same : new_room ≡ v.room = cc in
        let none_inside : false ≡ true =
          subst (λ (x : Room). is_visitor key x.visitors ≡ true) (sym same) v.inside in
        cc
  ];
  alive = λ a j x g. elim (set_cases m.rooms id j (some new_room) (some x) g) [
    | inr old ↦ a j x old
    | inl (i, q) ↦ let same : new_room ≡ x = cc in subst (λ (y : Room). y.is_alive ≡ true) same refl
  ];
}
