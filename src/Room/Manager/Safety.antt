-- ===== src/Room/Manager/Safety.antt =====
-- Which calls of the room manager (server/room.h) are defined behaviour.
use live_streaming.Base.{
  ℕ, ◌/◌, ◌≤◌, ◌<◌, ◌≡◌, Bool, true, false, not, ◌&&◌, ltb, ◌==◌, List, [], ◌∷◌, length, get_elem?,
  Option, none, some, pos, negsuc,
}
use live_streaming.Result.{Result, ok}
use live_streaming.Room.{Room, Send}
use live_streaming.Room
use live_streaming.Room.Manager.{RoomManager, in_pool}
use live_streaming.Room.Manager.Invariant.{vacant}
use live_streaming.Room.Manager.Calls.{Call, creates, closes, enters, leaves, inits, adds}

-- An audio message of one byte, of AAC by its first four bits.
pub is_cut_aac : ℕ → List ℕ → Bool
is_cut_aac type [] = false
is_cut_aac type (first ∷ []) = type == 8 && first / 16 == 10
is_cut_aac type (first ∷ second ∷ rest) = false

-- The id of one of the four slots, and for media and metadata one that is in use.
unfoldable pub is_safe : RoomManager → Call → Bool
is_safe m creates = true
is_safe m (closes id) = true
is_safe m (enters (negsuc n) session) = false
is_safe m (enters (pos id) session) = ltb id 4
is_safe m (leaves (negsuc n) session) = false
is_safe m (leaves (pos id) session) = ltb id 4
is_safe m (inits (negsuc n) mp) = false
is_safe m (inits (pos id) mp) = ltb id 4 && not (in_pool id m.id_pool)
is_safe m (adds (negsuc n) type timestamp payload) = false
is_safe m (adds (pos id) type timestamp payload) =
    ltb id 4 && not (in_pool id m.id_pool) && not (is_cut_aac type payload)

pub returns {ℓ} : {A : Type ℓ} → Result A → Bool
returns (ok a) = true
returns _ = false

data SlotAt (xs : List (Option Room)) (id : ℕ) : Type 0 where
  outside : length xs ≤ id → get_elem? xs id ≡ none → SlotAt xs id
  empty : id < length xs → get_elem? xs id ≡ some none → vacant xs id ≡ true → SlotAt xs id
  full :
      (r : Room)
      → id < length xs
      → get_elem? xs id ≡ some (some r)
      → vacant xs id ≡ false
      → SlotAt xs id
