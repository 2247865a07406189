-- ===== src/Media/Renderer.antt =====
-- util/renderer.h and util/renderer.cc: the thread that shows pictures. Sizes are numbers below 2^26,
-- for which the program's doubles are exact enough to be compared and cut off as here.
pub mod Fitting
use live_streaming.Base.{
  ℕ, ℤ, pos_part, ◌-◌, ◌*◌, ◌/◌, Bool, true, false, ltb, ◌==ℤ◌, ◌&&◌, not, if◌then◌else◌, Option,
  none, some,
}
use live_streaming.Result.{Result, ok, ◌>>=◌}
use live_streaming.Queue.{Queue, try_to_get, timed_put_now}
use live_streaming.Media.{Picture, pix_fmt_yuyv422}
use live_streaming.Media.Scaling.{Sws, VideoScaleHelper, scale}

-- An SDL_Rect.
pub record Rect : Type 0 where
  pub x : ℕ
  pub y : ℕ
  pub w : ℕ
  pub h : ℕ

pub record TextureParam : Type 0 where
  pub height : ℤ
  pub width : ℤ
  pub pix_fmt : ℤ

-- `texture` is the pointer; the window and SDL's renderer are outside.
pub record Renderer (Context : Type 0) : Type 0 where
  pub is_alive : Bool
  pub texture : Option ℕ
  pub param_for_texture : TextureParam
  pub submit_queue : Queue Picture
  pub video_scale_helper : VideoScaleHelper Context

-- What the thread gives to SDL for a picture, after so many microseconds if they are positive.
pub record Shown : Type 0 where
  pub delay_time : ℤ
  pub frame : Picture
  pub texture_rect : Rect
  pub render_rect : Rect

module _ {Context : Type 0} where
  -- The parameters are not initialised; they are read only when there is a texture.
  unfoldable pub has_texture : TextureParam → Renderer Context → Bool
  has_texture p r = elim (r.texture) [
    | none ↦ false
    | some _ ↦
        let q = r.param_for_texture in
        q.height ==ℤ p.height && q.width ==ℤ p.width && q.pix_fmt ==ℤ p.pix_fmt
  ]

  -- ResetTexture without a texture. `create` is SDL_CreateTexture on width and height.
  unfoldable pub make_texture :
      (ℤ → ℤ → Option ℕ) → TextureParam → Renderer Context → Bool × Renderer Context
  make_texture create p r =
      let made = create p.width p.height in
      if not (p.pix_fmt ==ℤ pix_fmt_yuyv422)
      then (false, record r { texture = none })
      else elim made [
        | none ↦ (false, record r { texture = none })
        | some t ↦ (true, record r { texture = some t; param_for_texture = p })
      ]

  unfoldable pub reset_texture :
      (ℤ → ℤ → Option ℕ) → TextureParam → Renderer Context → Bool × Renderer Context
  unfolding has_texture make_texture
  reset_texture create p r = if has_texture p r then (true, r) else make_texture create p r

-- The picture's size before it is doubled, for a texture and a window of these sizes. The program
-- compares the quotients tw / w and th / h.
unfoldable pub fitted : ℕ → ℕ → ℕ → ℕ → ℕ × ℕ
fitted tw th w h = if ltb (th * w) (tw * h) then (w, th * w / tw) else (tw * h / th, h)

-- UpdateRect: the rectangles of the texture and of the picture in the window.
unfoldable pub update_rect : ℕ → ℕ → ℕ × ℕ → Rect × Rect
unfolding fitted
update_rect tw th (w, h) =
    let (fw, fh) = fitted tw th w h in
    (
      record { x = 0; y = 0; w = tw; h = th },
      record { x = (w * 2 - fw * 2) / 2; y = (h * 2 - fh * 2) / 2; w = fw * 2; h = fh * 2 },
    )

module _ {Context : Type 0} (sws : Sws Context) where
  unfoldable pub convert_to_yuyv422 :
      Picture → Renderer Context → Result (Bool × Picture × Renderer Context)
  convert_to_yuyv422 frame r =
      if frame.pix_fmt ==ℤ pix_fmt_yuyv422 then ok (true, frame, r) else (do
        (good, frame', helper) ←
            scale sws
              (record { wrapper = frame; w = frame.width; h = frame.height; fmt = pix_fmt_yuyv422 })
              r.video_scale_helper
        ok (good, frame', record r { video_scale_helper = helper }))

  -- Render for a converted picture. `delay` is delay_time_calculator_, `window` SDL_GetWindowSize.
  unfoldable pub show :
      (ℤ → ℤ → Option ℕ)
      → (Picture → ℤ)
      → ℕ × ℕ
      → Bool × Picture × Renderer Context
      → Option Shown × Renderer Context
  unfolding reset_texture update_rect
  show create delay window (false, frame, r) = (none, record r { is_alive = false })
  show create delay window (true, frame, r) =
      let p : TextureParam = record {
        height = frame.height;
        width = frame.width;
        pix_fmt = frame.pix_fmt;
      } in
      let (good, r') = reset_texture create p r in
      let (texture_rect, render_rect) =
        update_rect (pos_part r'.param_for_texture.width) (pos_part r'.param_for_texture.height)
          window in
      if good
      then (
        some (record {
          delay_time = delay frame;
          frame = frame;
          texture_rect = texture_rect;
          render_rect = render_rect;
        }),
        r',
      )
      else (none, record r' { is_alive = false })

  -- One attempt of Submit's loop, when its TimedPut has ended: whether the loop goes on.
  unfoldable pub submit : Picture → Renderer Context → Bool × Renderer Context
  submit frame r =
      let (taken, queue, signals) = timed_put_now frame r.submit_queue in
      if r.is_alive then (not taken, record r { submit_queue = queue }) else (false, r)

  -- One round of Render, from the end of its wait on.
  unfoldable pub render :
      (ℤ → ℤ → Option ℕ)
      → (Picture → ℤ)
      → ℕ × ℕ
      → Renderer Context
      → Result (Option Shown × Renderer Context)
  unfolding convert_to_yuyv422 show
  render create delay window r =
      let (item, rest, signals) = try_to_get r.submit_queue in
      elim item [
        | none ↦ ok (none, r)
        | some frame ↦ (do
          converted ← convert_to_yuyv422 frame (record r { submit_queue = rest })
          ok (show create delay window converted))
      ]
