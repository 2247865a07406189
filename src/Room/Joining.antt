-- ===== src/Room/Joining.antt =====
-- The video that a session that joins late is sent (server/room.h).
use mathlib.Core.Path.{ap₂}
use live_streaming.Base.{
  ℕ, ◌≡◌, refl, ap, ◌∙◌, Bool, true, false, not, List, [], ◌∷◌, ◌++◌, ◌||◌, ◌&&◌, ◌==◌,
  if◌then◌else◌, length, arith,
}
use live_streaming.Room.{
  Room, Frame, Send, send_meta_data, send_media_data, VisitorState, is_key_frame, add_video,
  video_to_visitors, enter, welcome, welcomed, cached_to, is_visitor,
}

-- The calls that the video messages of a list lead to, in order. None of them is empty: AddData
-- passes over those.
unfoldable pub video_sends : List Frame → Room → List Send
video_sends [] r = []
video_sends ((timestamp, payload) ∷ fs) r =
    let (r', sends) = add_video timestamp payload r in sends ++ video_sends fs r'

-- The video messages among them that go to a session.
unfoldable pub frames_to : ℕ → List Send → List Frame
frames_to s [] = []
frames_to s (send_meta_data session payload ∷ rest) = frames_to s rest
frames_to s (send_media_data session type timestamp payload ∷ rest) =
    if session == s && type == 9 then (timestamp, payload) ∷ frames_to s rest else frames_to s rest

-- The frames from the first key frame on.
unfoldable pub from_key : List Frame → List Frame
from_key [] = []
from_key ((timestamp, payload) ∷ fs) =
    if is_key_frame payload then (timestamp, payload) ∷ fs else from_key fs

pub frames_to-append :
    (s : ℕ) (xs ys : List Send) → frames_to s (xs ++ ys) ≡ frames_to s xs ++ frames_to s ys
unfolding frames_to
frames_to-append s [] ys = refl
frames_to-append s (send_meta_data session payload ∷ xs) ys = frames_to-append s xs ys
frames_to-append s (send_media_data session type t p ∷ xs) ys =
    ground (arith, frames_to-append s xs ys)

frames_to-cached : (s : ℕ) (fs : List Frame) → frames_to s (cached_to s fs) ≡ fs
unfolding frames_to cached_to
frames_to-cached s [] = refl
frames_to-cached s ((t, p) ∷ fs) =
    let e : (s == s) ≡ true = ground arith in rw e (ap (◌∷◌ (t, p)) (frames_to-cached s fs))

abbrev pub Visitors : Type 0
Visitors = List (ℕ × VisitorState)

module _ (s : ℕ) (key : Bool) (t : ℕ) (p : List ℕ) where
  -- Nothing goes to a session that does not visit, and it stays away.
  pub video_absent :
      (vs : Visitors)
      → is_visitor s vs ≡ false
      → (is_visitor s (video_to_visitors key t p vs).0 ≡ false)
        × (frames_to s (video_to_visitors key t p vs).1 ≡ [])
  unfolding video_to_visitors is_visitor frames_to
  video_absent [] h = (refl, refl)
  video_absent ((v, st) ∷ vs) h = ground (arith, video_absent vs)

  -- The session that came last is sent the message if it has had video or the message is a key
  -- frame.
  video_last :
      (vs : Visitors) (st : VisitorState)
      → is_visitor s vs ≡ false
      → let hit = st.has_sent_video || key in
        ((video_to_visitors key t p (vs ++ (s, st) ∷ [])).0
          ≡ (video_to_visitors key t p vs).0 ++ (s, record st { has_sent_video = hit }) ∷ [])
        × (frames_to s (video_to_visitors key t p (vs ++ (s, st) ∷ [])).1
            ≡ (if hit then (t, p) ∷ [] else []))
  unfolding video_to_visitors is_visitor frames_to
  video_last [] st h = ground arith
  video_last ((v, u) ∷ vs) st h = ground (arith, video_last vs st)

gather :
    (sent key : Bool) (f : Frame) (fs rest : List Frame)
    → (if sent || key then f ∷ [] else []) ++ (if sent || key then fs else rest)
      ≡ (if sent then f ∷ fs else if key then f ∷ fs else rest)
gather true key f fs rest = refl
gather false true f fs rest = refl
gather false false f fs rest = refl

-- From then on the session is sent every frame, or every frame from the next key frame on.
pub frames_to-video_sends :
    (s : ℕ) (fs : List Frame) (r : Room) (vs : Visitors) (st : VisitorState)
    → is_visitor s vs ≡ false
    → r.visitors ≡ vs ++ (s, st) ∷ []
    → frames_to s (video_sends fs r) ≡ (if st.has_sent_video then fs else from_key fs)
unfolding video_sends add_video from_key
frames_to-video_sends s [] r vs st h e = unfold frames_to in ground arith
frames_to-video_sends s ((t, p) ∷ fs) r vs st h e =
    let key = is_key_frame p in
    let (now_last, now_sent) = video_last s key t p vs st h in
    let first = ap (λ ws. frames_to s (video_to_visitors key t p ws).1) e ∙ now_sent in
    let next =
      frames_to-video_sends s fs (add_video t p r).0 (video_to_visitors key t p vs).0
        (record st { has_sent_video = st.has_sent_video || key }) (video_absent s key t p vs h).0
        (ap (λ ws. (video_to_visitors key t p ws).0) e ∙ now_last) in
    frames_to-append s (add_video t p r).1 (video_sends fs (add_video t p r).0)
    ∙ ap₂ (◌++◌) first next
    ∙ gather st.has_sent_video key (t, p) fs (from_key fs)

frames_to-welcome :
    (s : ℕ) (r : Room)
    → frames_to s (welcome s r)
      ≡ (if length r.cached_video_payload == 0 then [] else r.cached_video_payload)
unfolding welcome frames_to
frames_to-welcome s r = ground (arith, frames_to-cached s r.cached_video_payload)

joined :
    (empty : Bool) (cached fs later : List Frame)
    → (if empty then [] else cached) ++ (if not empty then fs else later)
      ≡ (if empty then later else cached ++ fs)
joined true cached fs later = refl
joined false cached fs later = refl

enter_new :
    (s : ℕ) (r : Room)
    → r.is_alive ≡ true
    → is_visitor s r.visitors ≡ false
    → enter s r ≡ (record r { visitors = r.visitors ++ (s, welcomed r) ∷ [] }, true, welcome s r)
unfolding enter
enter_new s r alive absent = simp (alive, absent)

-- A session that enters a live room, and is no visitor of it, is let in. Of the video that follows
-- (messages that are not empty) it is sent all, after what the room has cached; if the room has
-- nothing cached, all from the next key frame on.
pub frames_to-enter :
    (s : ℕ) (r : Room) (fs : List Frame)
    → r.is_alive ≡ true
    → is_visitor s r.visitors ≡ false
    → let (r', entered, sends) = enter s r in
      (entered ≡ true)
      × (frames_to s (sends ++ video_sends fs r') ≡ (
          if length r.cached_video_payload == 0 then from_key fs else r.cached_video_payload ++ fs))
frames_to-enter s r fs alive absent = rw (enter_new s r alive absent) (
  refl,
  frames_to-append s (welcome s r) _
      ∙ ap₂ (◌++◌) (frames_to-welcome s r) (
          frames_to-video_sends s fs (record r { visitors = r.visitors ++ (s, welcomed r) ∷ [] })
            r.visitors (welcomed r) absent refl)
      ∙ unfold welcomed in
        joined (length r.cached_video_payload == 0) r.cached_video_payload fs (from_key fs),
)
