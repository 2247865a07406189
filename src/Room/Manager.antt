-- ===== src/Room/Manager.antt =====
-- server/room.h, class RoomManager: four room slots and the pool of ids that are free. The pool is
-- an unordered_set, whose iteration order the standard leaves open: it starts as 0, 1, 2, 3 here, and
-- an id that comes back is put in front. The theorems say nothing that depends on the order.
pub mod Invariant
pub mod Calls
pub mod Safety
use live_streaming.Base.{
  ℕ, Bool, true, false, List, [], ◌∷◌, ◌==◌, ◌||◌, if◌then◌else◌, leb, length, get_elem?, set,
  Option, none, some, ℤ, pos, negsuc, replicate,
}
use live_streaming.Result.{Result, ok, faults, ◌>>=◌}
use live_streaming.Room.{Room, Send, new_room}
use live_streaming.Room

-- A slot is a Room pointer, null when its id is free.
pub record RoomManager : Type 0 where
  pub id_pool : List ℕ
  pub rooms : List (Option Room)

unfoldable pub new_manager : RoomManager
new_manager =
    let ids = 0 ∷ 1 ∷ 2 ∷ 3 ∷ [] in record { id_pool = ids; rooms = replicate (length ids) none }

-- id_pool_.count(id)
unfoldable pub in_pool : ℕ → List ℕ → Bool
in_pool id [] = false
in_pool id (i ∷ rest) = i == id || in_pool id rest

-- rooms_[id]; out of bounds is undefined behaviour.
unfoldable pub slot : ℤ → RoomManager → Result (Option Room)
slot (pos id) m = elim (get_elem? m.rooms id) [ none ↦ faults | some r ↦ ok r ]
slot (negsuc n) m = faults

-- A call through the pointer in a slot; through a null one it is undefined behaviour.
unfoldable pub room_at : ℤ → RoomManager → Result Room
unfolding slot
room_at id m = slot id m >>= elim [ none ↦ faults | some r ↦ ok r ]

abbrev pub put_room : ℤ → Room → RoomManager → RoomManager
put_room (pos id) r m = record m { rooms = set m.rooms id (some r) }
put_room (negsuc n) r m = m

create_from : List ℕ → RoomManager → RoomManager × ℤ
create_from [] m = (m, negsuc 0)
create_from (id ∷ rest) m =
    (record { id_pool = rest; rooms = set m.rooms id (some new_room) }, pos id)

-- A negative id is a failure.
unfoldable pub create_room : RoomManager → RoomManager × ℤ
unfolding new_room create_from
create_room m = create_from m.id_pool m

unfoldable pub close_room : ℤ → RoomManager → RoomManager
unfolding in_pool
close_room (negsuc n) m = m
close_room (pos id) m =
    if leb (length m.rooms) id
    then m
    else if in_pool id m.id_pool
    then m
    else record { id_pool = id ∷ m.id_pool; rooms = set m.rooms id none }

unfoldable pub enter_room : ℤ → ℕ → RoomManager → Result (RoomManager × Bool × List Send)
unfolding slot
enter_room id session m = slot id m >>= elim [
  | none ↦ ok (m, false, [])
  | some r ↦
      let (r', entered, sends) = Room.enter session r in ok (put_room id r' m, entered, sends)
]

unfoldable pub leave_room : ℤ → ℕ → RoomManager → Result RoomManager
unfolding slot
leave_room id session m =
    slot id m >>= elim [ none ↦ ok m | some r ↦ ok (put_room id (Room.leave session r) m) ]

unfoldable pub init_meta_data : ℤ → List ℕ → RoomManager → Result (RoomManager × List Send)
unfolding room_at
init_meta_data id mp m =
    room_at id m >>= λ r. let (r', sends) = Room.init_meta_data mp r in ok (put_room id r' m, sends)

unfoldable pub add_data : ℤ → ℕ → ℕ → List ℕ → RoomManager → Result (RoomManager × List Send)
unfolding room_at
add_data id type timestamp payload m = room_at id m >>= λ r.
    Room.add_data type timestamp payload r >>= λ (r', sends). ok (put_room id r' m, sends)
