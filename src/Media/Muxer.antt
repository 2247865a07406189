-- ===== src/Media/Muxer.antt =====
-- util/muxer.h and util/muxer.cc: the parameters of the two output streams. Muxing is what its
-- thread does.
pub mod Choice
pub mod Muxing
pub mod Feeding
use live_streaming.Base.{
  ℕ, ℤ, ◌+◌, ◌-◌, Bool, true, false, List, [], ◌∷◌, ◌==◌, ◌==ℤ◌, if◌then◌else◌, not, ◌&&◌, Option,
  none, some, bit_and, bit_or,
}
use live_streaming.Media.{
  SampleFormat, sample_fmt_none, format_code, TimeBase, pix_fmt_none, pix_fmt_yuv420p,
}

pub record MuxerParam : Type 0 where
  pub audio_sample_rate : ℕ
  pub audio_channel_layout : ℕ
  pub audio_sample_format : SampleFormat
  pub audio_time_base : TimeBase
  pub video_width : ℤ
  pub video_height : ℤ
  pub video_pix_fmt : ℤ
  pub video_time_base : TimeBase
  pub url : List ℕ

pub data MediaType : Type 0 where
  audio video other_media : MediaType

-- What is read of an AVCodec: the lists it supports, without their terminators, `none` for null.
pub record Codec : Type 0 where
  pub id : ℕ
  pub is_libx264 : Bool
  pub sample_fmts : Option (List SampleFormat)
  pub supported_samplerates : Option (List ℕ)
  pub channel_layouts : Option (List ℕ)
  pub pix_fmts : Option (List ℤ)

-- What is written of an AVCodecContext.
pub record CodecContext : Type 0 where
  pub codec_id : ℕ
  pub sample_fmt : SampleFormat
  pub sample_rate : ℕ
  pub channel_layout : ℕ
  pub channels : ℕ
  pub width : ℤ
  pub height : ℤ
  pub pix_fmt : ℤ
  pub time_base : TimeBase
  pub framerate : TimeBase
  pub gop_size : ℕ
  pub flags : ℕ

-- What is read and written of an AVStream.
pub record MediaStream : Type 0 where
  pub index : ℕ
  pub id : ℕ
  pub codec_id : ℕ
  pub time_base : TimeBase

-- The AVPacket is a local of the loop here.
pub record OutputStream : Type 0 where
  pub st : MediaStream
  pub enc : CodecContext

-- FFmpeg: the encoder of a media type by its name, contexts and streams as they are made, and the
-- calls that may fail. `tuned` is av_opt_set of the tune.
pub record Libav : Type 0 where
  pub avcodec_find_encoder_by_name : MediaType → Option Codec
  pub avcodec_alloc_context : Codec → CodecContext
  pub avformat_new_stream : ℕ → MediaStream
  pub nb_channels : ℕ → ℕ
  pub tuned : CodecContext → CodecContext
  pub avcodec_open : CodecContext → Option CodecContext
  pub avcodec_parameters_from_context : MediaStream → CodecContext → Option MediaStream
  pub flag_2_local_header : ℕ
  pub flag_global_header : ℕ
  pub format_global_header : ℕ
  pub oformat_flags : ℕ

-- The loops over the lists of a codec: the entry that equals the wanted value, else `current`.
unfoldable pub pick {ℓ} : {A : Type ℓ} → (A → A → Bool) → A → A → List A → A
pick eq wanted current [] = current
pick eq wanted current (x ∷ xs) = if eq x wanted then x else pick eq wanted current xs

-- The whole choice: without a list the wanted value, else the first entry if the loop finds none; an
-- empty list has its terminator for the first entry.
unfoldable pub choose {ℓ} : {A : Type ℓ} → (A → A → Bool) → A → A → Option (List A) → A
unfolding pick
choose eq terminator wanted none = wanted
choose eq terminator wanted (some []) = terminator
choose eq terminator wanted (some (x ∷ xs)) = pick eq wanted x (x ∷ xs)

-- The loop over the pixel formats, which keeps YUV420P in mind.
unfoldable pub pick_pix_fmt : ℤ → ℤ → List ℤ → ℤ
pick_pix_fmt wanted current [] = current
pick_pix_fmt wanted current (x ∷ xs) =
    if x ==ℤ wanted
    then wanted
    else pick_pix_fmt wanted (if x ==ℤ pix_fmt_yuv420p then pix_fmt_yuv420p else current) xs

unfoldable pub choose_pix_fmt : ℤ → Option (List ℤ) → ℤ
unfolding pick_pix_fmt
choose_pix_fmt wanted none = wanted
choose_pix_fmt wanted (some []) = pix_fmt_none
choose_pix_fmt wanted (some (x ∷ xs)) = pick_pix_fmt wanted x (x ∷ xs)

abbrev pub same_format : SampleFormat → SampleFormat → Bool
same_format a b = format_code a == format_code b

-- The parameters as the case AVMEDIA_TYPE_AUDIO leaves them.
unfoldable pub audio_param : Codec → MuxerParam → MuxerParam
unfolding choose
audio_param codec mp = record mp {
  audio_sample_format = choose same_format sample_fmt_none mp.audio_sample_format codec.sample_fmts;
  audio_sample_rate = choose ◌==◌ 0 mp.audio_sample_rate codec.supported_samplerates;
  audio_channel_layout = choose ◌==◌ 0 mp.audio_channel_layout codec.channel_layouts;
}

-- The parameters as the case AVMEDIA_TYPE_VIDEO leaves them.
unfoldable pub video_param : Codec → MuxerParam → MuxerParam
unfolding choose_pix_fmt
video_param codec mp = record mp { video_pix_fmt = choose_pix_fmt mp.video_pix_fmt codec.pix_fmts }

module _ (lib : Libav) where
  -- The encoder's context for the parameters that were chosen.
  unfoldable pub audio_context : Codec → MuxerParam → CodecContext → CodecContext
  audio_context codec mp c = record c {
    codec_id = codec.id;
    sample_fmt = mp.audio_sample_format;
    sample_rate = mp.audio_sample_rate;
    channel_layout = mp.audio_channel_layout;
    channels = lib.nb_channels mp.audio_channel_layout;
    time_base = mp.audio_time_base;
    flags =
        if bit_and lib.oformat_flags lib.format_global_header == 0
        then c.flags
        else bit_or c.flags lib.flag_global_header;
  }

  unfoldable pub video_context : Codec → MuxerParam → CodecContext → CodecContext
  video_context codec mp c =
      let set = record c {
        width = mp.video_width;
        height = mp.video_height;
        time_base = mp.video_time_base;
        framerate = record { num = mp.video_time_base.den; den = mp.video_time_base.num };
        gop_size = 12;
        pix_fmt = mp.video_pix_fmt;
        flags = bit_or c.flags lib.flag_2_local_header;
      } in
      if codec.is_libx264 then lib.tuned set else set

  -- InitStream from avcodec_open2 on.
  unfoldable pub open_encoder :
      MediaStream → CodecContext → MuxerParam → Option (OutputStream × MuxerParam)
  open_encoder st c mp = elim (lib.avcodec_open c) [
    | none ↦ none
    | some enc ↦ elim (lib.avcodec_parameters_from_context st enc) [
      | none ↦ none
      | some st' ↦ some (record { st = st'; enc = enc }, mp)
    ]
  ]

  -- InitStream for a codec that was found; `nb_streams` is their number before the new one.
  unfoldable pub init_found :
      MediaType → Codec → ℕ → MuxerParam → Option (OutputStream × MuxerParam)
  unfolding audio_param video_param audio_context video_context open_encoder
  init_found other_media codec nb_streams mp = none
  init_found audio codec nb_streams mp =
      let st = record (lib.avformat_new_stream nb_streams) {
        id = nb_streams;
        codec_id = codec.id;
      } in
      let chosen = audio_param codec mp in
      open_encoder (record st { time_base = mp.audio_time_base })
        (audio_context codec chosen (lib.avcodec_alloc_context codec)) chosen
  init_found video codec nb_streams mp =
      let st = record (lib.avformat_new_stream nb_streams) {
        id = nb_streams;
        codec_id = codec.id;
      } in
      let chosen = video_param codec mp in
      open_encoder (record st { time_base = mp.video_time_base })
        (video_context codec chosen (lib.avcodec_alloc_context codec)) chosen

  -- InitStream; `none` where it returns false.
  unfoldable pub init_stream : MediaType → ℕ → MuxerParam → Option (OutputStream × MuxerParam)
  unfolding init_found
  init_stream mtype nb_streams mp = elim (lib.avcodec_find_encoder_by_name mtype) [
    | none ↦ none
    | some codec ↦ init_found mtype codec nb_streams mp
  ]
