-- ===== src/Room/Leaving.antt =====
-- A session that leaves a room (server/room.h).
use mathlib.Core.Path.{ap₂}
use live_streaming.Base.{
  ℕ, ◌≡◌, refl, ◌∙◌, true, false, List, [], ◌∷◌, ◌++◌, ◌==◌, if◌then◌else◌, arith,
}
use live_streaming.Room.{Room, Frame, is_key_frame, add_video, is_visitor, erase_visitor, leave}
use live_streaming.Room.Joining.{frames_to, video_sends, frames_to-append, video_absent, Visitors}

pub erase_visitor_lem :
    (s u : ℕ) (vs : Visitors)
    → is_visitor u (erase_visitor s vs) ≡ (if s == u then false else is_visitor u vs)
unfolding is_visitor erase_visitor
erase_visitor_lem s u [] = ground arith
erase_visitor_lem s u ((v, st) ∷ vs) = ground (arith, erase_visitor_lem s u vs)

video_sends-absent :
    (s : ℕ) (fs : List Frame) (r : Room)
    → is_visitor s r.visitors ≡ false
    → frames_to s (video_sends fs r) ≡ []
unfolding video_sends add_video
video_sends-absent s [] r h = unfold frames_to in refl
video_sends-absent s ((t, p) ∷ fs) r h =
    let gone = video_absent s (is_key_frame p) t p r.visitors h in
    frames_to-append s (add_video t p r).1 (video_sends fs (add_video t p r).0)
    ∙ ap₂ (◌++◌) gone.1 (video_sends-absent s fs (add_video t p r).0 gone.0)

leave_live :
    (s : ℕ) (r : Room)
    → r.is_alive ≡ true
    → leave s r ≡ record r { visitors = erase_visitor s r.visitors }
unfolding leave
leave_live s r alive = simp alive

-- A session that leaves a live room is sent no video message that follows (messages that are not
-- empty), and the visitors are those from before without it.
pub frames_to-leave :
    (s : ℕ) (r : Room) (fs : List Frame)
    → r.is_alive ≡ true
    → (frames_to s (video_sends fs (leave s r)) ≡ [])
      × ((u : ℕ)
          → is_visitor u (leave s r).visitors ≡ (if s == u then false else is_visitor u r.visitors))
frames_to-leave s r fs alive =
    let self : (s == s) ≡ true = ground arith in
    let gone : is_visitor s (erase_visitor s r.visitors) ≡ false =
      erase_visitor_lem s s r.visitors ∙ (rw self refl) in
    rw (leave_live s r alive) (
      video_sends-absent s fs (record r { visitors = erase_visitor s r.visitors }) gone,
      λ u. erase_visitor_lem s u r.visitors,
    )
