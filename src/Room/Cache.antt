-- ===== src/Room/Cache.antt =====
-- The cached video of a room (server/room.h).
use live_streaming.Base.{
  ◌≡◌, refl, sym, ◌∙◌, Bool, true, false, List, [], ◌∷◌, ◌++◌, ◌||◌, if◌then◌else◌, append_assoc,
  append-nil, Bool-cases, inl, inr, arith, ◌⊎◌,
}
use live_streaming.Room.{Room, Frame, is_key_frame, add_video, new_room}

-- The room after the video messages of a list, none of them empty: AddData passes over those.
unfoldable pub run_video : List Frame → Room → Room
run_video [] r = r
run_video ((timestamp, payload) ∷ fs) r = run_video fs (add_video timestamp payload r).0

abbrev pub has_key : List Frame → Bool
has_key [] = false
has_key ((timestamp, payload) ∷ fs) = is_key_frame payload || has_key fs

-- The frames from the last key frame on, or all if there is none.
unfoldable pub since_key : List Frame → List Frame
since_key [] = []
since_key (f ∷ fs) = if has_key fs then since_key fs else f ∷ fs

cached-run_video :
    (fs : List Frame) (r : Room)
    → (run_video fs r).cached_video_payload
      ≡ (if has_key fs then since_key fs else r.cached_video_payload ++ fs)
unfolding run_video add_video since_key
cached-run_video [] r = sym (append-nil _)
cached-run_video ((t, p) ∷ fs) r =
    cached-run_video fs (add_video t p r).0
    ∙ step (Bool-cases (has_key fs)) (Bool-cases (is_key_frame p))
  where
    step :
        (has_key fs ≡ true) ⊎ (has_key fs ≡ false)
        → (is_key_frame p ≡ true) ⊎ (is_key_frame p ≡ false)
        → (if has_key fs then since_key fs else (add_video t p r).0.cached_video_payload ++ fs) ≡ (
            if has_key ((t, p) ∷ fs)
            then since_key ((t, p) ∷ fs)
            else r.cached_video_payload ++ (t, p) ∷ fs)
    step (inl h) (inl k) = rw (h, k)
    step (inl h) (inr k) = rw (h, k)
    step (inr h) (inl k) = rw (h, k)
    step (inr h) (inr k) = rw (h, k) (append_assoc r.cached_video_payload ((t, p) ∷ []) fs)

pub since_key-no_key : (fs : List Frame) → has_key fs ≡ false → since_key fs ≡ fs
unfolding since_key
since_key-no_key [] h = refl
since_key-no_key ((t, p) ∷ fs) h = ground arith

-- After video messages that are not empty a new room caches exactly those from the last key frame
-- on, or all of them if there is no key frame.
pub cached-eq-since_key :
    (fs : List Frame) → (run_video fs new_room).cached_video_payload ≡ since_key fs
unfolding new_room
cached-eq-since_key fs =
    cached-run_video fs new_room
    ∙ (elim (Bool-cases (has_key fs)) [ inl h ↦ rw h | inr h ↦ rw h (sym (since_key-no_key fs h)) ])
