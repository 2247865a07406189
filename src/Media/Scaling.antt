-- ===== src/Media/Scaling.antt =====
-- util/video_scale_helper.h and util/video_scale_helper.cc: the scaler, with the context and the
-- buffer that it keeps between frames.
pub mod Afresh
use live_streaming.Base.{
  ℤ, pos, negsuc, Bool, true, false, ◌==ℤ◌, ltb_ℤ, leb_ℤ, ◌&&◌, if◌then◌else◌, Option, none, some,
}
use live_streaming.Result.{Result, ok, faults, ◌>>=◌}
use live_streaming.Media.{Picture, pix_fmt_none}

-- What data[0] points to.
pub data Pointer : Type 0 where
  null live freed : Pointer

-- data[1] to data[3] and linesize are read by nobody.
pub record PixelData : Type 0 where
  pub data_0 : Pointer
  pub pix_fmt : ℤ
  pub height : ℤ
  pub width : ℤ
  pub data_size : ℤ

abbrev pub new_pixel_data : PixelData
new_pixel_data = record {
  data_0 = null;
  pix_fmt = pix_fmt_none;
  height = negsuc 0;
  width = negsuc 0;
  data_size = negsuc 0;
}

-- The arguments of sws_getContext.
pub record Scaling : Type 0 where
  pub src_width : ℤ
  pub src_height : ℤ
  pub src_pix_fmt : ℤ
  pub dst_width : ℤ
  pub dst_height : ℤ
  pub dst_pix_fmt : ℤ

-- libswscale and libavutil: sws_getContext, which may fail; sws_scale_frame on the empty frame to
-- fill and the frame to scale, which changes the context; av_image_alloc on width, height, format and
-- what data[0] was, with its return value and what data[0] is then.
pub record Sws (Context : Type 0) : Type 0 where
  pub sws_get_context : Scaling → Option Context
  pub sws_scale_frame : Context → Picture → Option Picture × Context
  pub av_image_alloc : ℤ → ℤ → ℤ → Pointer → ℤ × Pointer

pub record VideoScaleHelper (Context : Type 0) : Type 0 where
  pub pixel_data : PixelData
  pub src_width : ℤ
  pub src_height : ℤ
  pub src_pix_fmt : ℤ
  pub sws_context : Option Context
  pub sws_pixel_data : PixelData

pub record Call : Type 0 where
  pub wrapper : Picture
  pub w : ℤ
  pub h : ℤ
  pub fmt : ℤ

-- The arguments that Scale passes to ResetSwsContext.
unfoldable pub asked : Call → Scaling
asked c = record {
  src_width = c.wrapper.width;
  src_height = c.wrapper.height;
  src_pix_fmt = c.wrapper.pix_fmt;
  dst_width = c.w;
  dst_height = c.h;
  dst_pix_fmt = c.fmt;
}

-- av_free, on data[0].
unfoldable pub free : Pointer → Result Pointer
free null = ok null
free live = ok freed
free freed = faults

module _ {Context : Type 0} where
  unfoldable pub new_helper : VideoScaleHelper Context
  new_helper = record {
    pixel_data = new_pixel_data;
    src_width = negsuc 0;
    src_height = negsuc 0;
    src_pix_fmt = pix_fmt_none;
    sws_context = none;
    sws_pixel_data = new_pixel_data;
  }

  unfoldable pub is_open : VideoScaleHelper Context → Bool
  is_open s = elim (s.sws_context) [ none ↦ false | some _ ↦ true ]

  -- The test at the start of ResetSwsContext. It reads pixel_data_, which nothing sets.
  unfoldable pub is_current : Scaling → VideoScaleHelper Context → Bool
  unfolding is_open
  is_current o s =
      is_open s
      && leb_ℤ (pos 0) s.pixel_data.data_size
      && s.src_width ==ℤ o.src_width
      && s.src_height ==ℤ o.src_height
      && s.src_pix_fmt ==ℤ o.src_pix_fmt
      && s.pixel_data.width ==ℤ o.dst_width
      && s.pixel_data.height ==ℤ o.dst_height
      && s.pixel_data.pix_fmt ==ℤ o.dst_pix_fmt

-- PixelData::Reset after the call of av_image_alloc.
unfoldable pub allocated : ℤ → ℤ → ℤ → PixelData → ℤ × Pointer → Bool × PixelData
allocated w h fmt p (size, data_0) =
    let q = record p { data_size = size; data_0 = data_0 } in
    if ltb_ℤ size (pos 0)
    then (false, q)
    else (true, record q { width = w; height = h; pix_fmt = fmt })

module _ {Context : Type 0} (sws : Sws Context) where
  -- PixelData::Reset. The second statement after the test constructs and destroys an object of its
  -- own; this one keeps its fields.
  unfoldable pub reset_pixels : ℤ → ℤ → ℤ → PixelData → Result (Bool × PixelData)
  unfolding free allocated
  reset_pixels w h fmt p =
      if w ==ℤ p.width && h ==ℤ p.height && p.pix_fmt ==ℤ fmt
      then ok (true, p)
      else (do data_0 ← free p.data_0; ok (allocated w h fmt p (sws.av_image_alloc w h fmt data_0)))

  -- ResetSwsContext from sws_getContext on; its callers get whether it returns true.
  unfoldable pub reopen :
      Option Context → Scaling → VideoScaleHelper Context → Result (Bool × VideoScaleHelper Context)
  unfolding reset_pixels
  reopen none o s = ok (false, s)
  reopen (some tmp) o s = do
    (b, p) ← reset_pixels o.dst_width o.dst_height o.dst_pix_fmt s.sws_pixel_data
    ok (
      b,
      (if b
          then record s {
            sws_pixel_data = p;
            sws_context = some tmp;
            src_width = o.src_width;
            src_height = o.src_height;
            src_pix_fmt = o.src_pix_fmt;
          }
          else record s { sws_pixel_data = p }),
    )

  unfoldable pub reset_sws_context :
      Scaling → VideoScaleHelper Context → Result (Bool × VideoScaleHelper Context)
  unfolding reopen is_current
  reset_sws_context o s =
      if is_current o s then ok (true, s) else reopen (sws.sws_get_context o) o s

  -- Scale from sws_scale_frame on.
  unfoldable pub scaled :
      Call
      → VideoScaleHelper Context
      → Option Picture × Context
      → Bool × Picture × VideoScaleHelper Context
  scaled c s (none, ctx) = (false, c.wrapper, record s { sws_context = some ctx })
  scaled c s (some new_frame, ctx) = (
    true,
    record new_frame { pts = c.wrapper.pts; time_base = c.wrapper.time_base },
    record s { sws_context = some ctx },
  )

  unfoldable pub convert :
      Call → Bool × VideoScaleHelper Context → Result (Bool × Picture × VideoScaleHelper Context)
  unfolding scaled
  convert c (false, s) = ok (false, c.wrapper, s)
  convert c (true, s) = elim (s.sws_context) [
    | none ↦ faults
    | some ctx ↦ ok (scaled c s (sws.sws_scale_frame ctx c.wrapper))
  ]

  unfoldable pub scale :
      Call → VideoScaleHelper Context → Result (Bool × Picture × VideoScaleHelper Context)
  unfolding reset_sws_context convert asked
  scale c s = do r ← reset_sws_context (asked c) s; convert c r
