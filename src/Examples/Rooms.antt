-- ===== src/Examples/Rooms.antt =====
-- A room with one viewer: server/room.h.
use live_streaming.Base.{
  ℕ, false, true, List, [], ◌∷◌, ◌++◌, ◌≡◌, refl, pos, ◌==◌, length, if◌then◌else◌,
}
use live_streaming.Room.{Room, Frame, new_room, enter, is_visitor, leave, new_visitor}
use live_streaming.Room.Leaving.{frames_to-leave}
use live_streaming.Room.Cache.{run_video, since_key, cached-eq-since_key}
use live_streaming.Room.Joining.{frames_to, video_sends, from_key, frames_to-enter}
use live_streaming.Room.Manager.{new_manager}
use live_streaming.Room.Manager.Invariant.{IsValid}
use live_streaming.Room.Manager.Calls.{
  creates, enters, adds, leaves, closes, Ensures, calls, calls-new_manager,
}

-- A frame, a key frame, and a frame.
abbrev frames : List Frame
frames = (0, 39 ∷ 1 ∷ []) ∷ (40, 23 ∷ 1 ∷ []) ∷ (80, 39 ∷ 1 ∷ []) ∷ []

cached-eq-since_key_example : (run_video frames new_room).cached_video_payload ≡ since_key frames
cached-eq-since_key_example = cached-eq-since_key frames

-- Its cache has the last two.
abbrev live_room : Room
live_room = record new_room { cached_video_payload = (40, 23 ∷ 1 ∷ []) ∷ (80, 39 ∷ 1 ∷ []) ∷ [] }

frames_to-enter_example :
    let (r', entered, sends) = enter 5 live_room in
    (entered ≡ true)
    × (frames_to 5 (sends ++ video_sends frames r') ≡ (
        if length live_room.cached_video_payload == 0
        then from_key frames
        else live_room.cached_video_payload ++ frames))
unfolding new_room is_visitor
frames_to-enter_example = frames_to-enter 5 live_room frames refl refl

-- Two viewers, of which 5 leaves.
abbrev busy_room : Room
busy_room = record new_room { visitors = (5, new_visitor) ∷ (6, new_visitor) ∷ [] }

frames_to-leave_example :
    (frames_to 5 (video_sends frames (leave 5 busy_room)) ≡ [])
    × ((u : ℕ)
        → is_visitor u (leave 5 busy_room).visitors
          ≡ (if 5 == u then false else is_visitor u busy_room.visitors))
unfolding new_room
frames_to-leave_example = frames_to-leave 5 busy_room frames refl

calls-new_manager_example : Ensures IsValid (
    calls new_manager (
      creates
      ∷ enters (pos 0) 5
      ∷ adds (pos 0) 9 0 (23 ∷ [])
      ∷ leaves (pos 0) 5
      ∷ closes (pos 0)
      ∷ []))
calls-new_manager_example = calls-new_manager (
    creates
    ∷ enters (pos 0) 5
    ∷ adds (pos 0) 9 0 (23 ∷ [])
    ∷ leaves (pos 0) 5
    ∷ closes (pos 0)
    ∷ [])
