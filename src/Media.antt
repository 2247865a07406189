-- ===== src/Media.antt =====
-- The frames that the threads in util/ pass to each other: what the code reads and writes of FFmpeg's
-- AVFrame, an audio frame and a picture being records of their own.
pub mod Resampling
pub mod Scaling
pub mod Speaker
pub mod Coding
pub mod Decoder
pub mod Muxer
pub mod Renderer
pub mod Filter
pub mod Frames
use live_streaming.Base.{ℕ, ℤ, pos, negsuc, List, ◌+◌}

-- The sample formats that the code names, and the others; sample_fmt_none is AV_SAMPLE_FMT_NONE.
pub data SampleFormat : Type 0 where
  u8 s16 s32 flt dbl u8p s16p s32p fltp dblp s64 s64p : SampleFormat
  sample_fmt_none : SampleFormat
  other_format : ℕ → SampleFormat

-- An AVRational.
pub record TimeBase : Type 0 where
  pub num : ℕ
  pub den : ℕ

-- `samples` is the memory behind data[0].
pub record Sample : Type 0 where
  pub channel_layout : ℕ
  pub sample_rate : ℕ
  pub format : SampleFormat
  pub nb_samples : ℕ
  pub samples : List ℕ
  pub pts : ℤ
  pub time_base : TimeBase

-- AVSampleFormat is an enum: equality compares numbers. This is the number and 1.
unfoldable pub format_code : SampleFormat → ℕ
format_code sample_fmt_none = 0
format_code u8 = 1
format_code s16 = 2
format_code s32 = 3
format_code flt = 4
format_code dbl = 5
format_code u8p = 6
format_code s16p = 7
format_code s32p = 8
format_code fltp = 9
format_code dblp = 10
format_code s64 = 11
format_code s64p = 12
format_code (other_format n) = 13 + n

-- A video frame; `pix_fmt` is the number of its AVPixelFormat.
pub record Picture : Type 0 where
  pub width : ℤ
  pub height : ℤ
  pub pix_fmt : ℤ
  pub planes : List ℕ
  pub pts : ℤ
  pub time_base : TimeBase

-- AV_PIX_FMT_NONE, AV_PIX_FMT_YUV420P and AV_PIX_FMT_YUYV422.
abbrev pub pix_fmt_none : ℤ
pix_fmt_none = negsuc 0

abbrev pub pix_fmt_yuv420p : ℤ
pix_fmt_yuv420p = pos 0

abbrev pub pix_fmt_yuyv422 : ℤ
pix_fmt_yuyv422 = pos 1
