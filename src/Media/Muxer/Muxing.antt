-- ===== src/Media/Muxer/Muxing.antt =====
-- util/muxer.h, Submit, and util/muxer.cc, the thread: frames to packets to the container.
use live_streaming.Base.{
  ℕ, ℤ, pos, Bool, true, false, List, [], ◌∷◌, ◌++◌, ◌==◌, ◌==ℤ◌, ltb, ◌&&◌, ◌||◌, not,
  if◌then◌else◌, Option, none, some,
}
use live_streaming.Result.{Result, ok, ◌>>=◌}
use live_streaming.Queue.{Queue, size, put_now, try_to_get}
use live_streaming.Media.{Sample, Picture, TimeBase, format_code}
use live_streaming.Media.Resampling.{Swr, AudioResampleHelper, resample}
use live_streaming.Media.Scaling.{Sws, VideoScaleHelper, scale}
use live_streaming.Media.Coding.{Coder, drain}
use live_streaming.Media.Muxer.{MuxerParam, OutputStream}

-- An AVFrame of either kind.
pub data AvFrame : Type 0 where
  sample_frame : Sample → AvFrame
  picture_frame : Picture → AvFrame

-- The fields by which the code tells the kinds apart; FFmpeg leaves those of the other kind 0.
unfoldable pub channel_layout_of : AvFrame → ℕ
channel_layout_of (sample_frame s) = s.channel_layout
channel_layout_of (picture_frame p) = 0

unfoldable pub width_of : AvFrame → ℤ
width_of (sample_frame s) = pos 0
width_of (picture_frame p) = p.width

-- A packet that an encoder gave, and one that was written to the container.
pub record Packet : Type 0 where
  pub pts : ℕ
  pub dts : ℕ
  pub payload : List ℕ

pub record Written : Type 0 where
  pub stream_index : ℕ
  pub packet : Packet

-- An encoder is the coder of FFmpeg's avcodec_send_frame and avcodec_receive_packet. `rescale` is
-- av_packet_rescale_ts, and av_interleaved_write_frame may fail, after what was written before.
pub record Output (Encoder : Type 0) : Type 0 where
  pub encoder : Coder Encoder AvFrame Packet
  pub av_packet_rescale_ts : TimeBase → TimeBase → Packet → Packet
  pub av_interleaved_write_frame : List Written → Written → Bool

pub record Muxer (SwrContext SwsContext Encoder : Type 0) : Type 0 where
  pub muxer_param : MuxerParam
  pub video_st : OutputStream
  pub audio_st : OutputStream
  pub video_encoder : Encoder
  pub audio_encoder : Encoder
  pub video_scale_helper : VideoScaleHelper SwsContext
  pub audio_resample_helper : AudioResampleHelper SwrContext
  pub queue : Queue AvFrame
  pub is_alive : Bool
  pub written : List Written

unfoldable pub is_sample_as_wanted : MuxerParam → Sample → Bool
is_sample_as_wanted mp s =
    mp.audio_sample_rate == s.sample_rate
    && mp.audio_channel_layout == s.channel_layout
    && format_code mp.audio_sample_format == format_code s.format

unfoldable pub is_picture_as_wanted : MuxerParam → Picture → Bool
is_picture_as_wanted mp p =
    mp.video_height ==ℤ p.height && mp.video_width ==ℤ p.width && mp.video_pix_fmt ==ℤ p.pix_fmt

module _ {SwrContext SwsContext Encoder : Type 0} where
  -- The queue has no capacity, so Put does not wait.
  unfoldable pub submit :
      AvFrame → Muxer SwrContext SwsContext Encoder → Bool × Muxer SwrContext SwsContext Encoder
  unfolding width_of
  submit wrapper m =
      if not m.is_alive
      then (false, m)
      else if ltb 16 (size m.queue) && not (width_of wrapper ==ℤ pos 0)
      then (false, m)
      else (true, record m { queue = (put_now wrapper m.queue).1 })

module _ {SwrContext SwsContext Encoder : Type 0} (swr : Swr SwrContext) (sws : Sws SwsContext)
    (out : Output Encoder) where
  abbrev MuxerThread : Type 0
  MuxerThread = Muxer SwrContext SwsContext Encoder

  -- What the thread does with a frame before it goes to an encoder: that of the audio stream (true) or
  -- of the video stream; `none` where it goes on with the next frame.
  unfoldable pub prepare_sample :
      Sample → MuxerThread → Result (Option (Bool × AvFrame) × MuxerThread)
  unfolding is_sample_as_wanted
  prepare_sample s m =
      let mp = m.muxer_param in
      if is_sample_as_wanted mp s then ok (some (true, sample_frame s), m) else (do
        (good, frame, helper) ←
            resample swr
              (record {
                wrapper = s;
                out_rate = mp.audio_sample_rate;
                out_channel_layout = mp.audio_channel_layout;
                out_fmt = mp.audio_sample_format;
              })
              m.audio_resample_helper
        ok (
          (if good then some (true, sample_frame frame) else none),
          record m { audio_resample_helper = helper },
        ))

  unfoldable pub prepare_picture :
      Picture → MuxerThread → Result (Option (Bool × AvFrame) × MuxerThread)
  unfolding is_picture_as_wanted
  prepare_picture p m =
      let mp = m.muxer_param in
      if is_picture_as_wanted mp p then ok (some (false, picture_frame p), m) else (do
        (good, frame, helper) ←
            scale sws
              (record {
                wrapper = p;
                w = mp.video_width;
                h = mp.video_height;
                fmt = mp.video_pix_fmt;
              })
              m.video_scale_helper
        ok (
          (if good then some (false, picture_frame frame) else none),
          record m { video_scale_helper = helper },
        ))

  unfoldable pub prepare : AvFrame → MuxerThread → Result (Option (Bool × AvFrame) × MuxerThread)
  unfolding prepare_sample prepare_picture
  prepare (sample_frame s) m = if s.channel_layout == 0 then ok (none, m) else prepare_sample s m
  prepare (picture_frame p) m =
      if p.width ==ℤ pos 0 || p.height ==ℤ pos 0 then ok (none, m) else prepare_picture p m

  -- One packet of the loop over those that are ready.
  unfoldable pub in_stream : OutputStream → Packet → Written
  in_stream os packet = record {
    stream_index = os.st.index;
    packet = out.av_packet_rescale_ts os.enc.time_base os.st.time_base packet;
  }

  unfoldable pub write_packet : OutputStream → Packet → List Written → Result (Bool × List Written)
  unfolding in_stream
  write_packet os packet written =
      let w = in_stream os packet in
      if out.av_interleaved_write_frame written w
      then ok (true, written ++ w ∷ [])
      else ok (false, written)

  -- avcodec_send_frame and the loop: false where the thread returns.
  unfoldable pub encode :
      ℕ → OutputStream → Encoder → AvFrame → List Written → Result (Bool × List Written × Encoder)
  unfolding write_packet drain
  encode fuel os enc frame written = elim (out.encoder.send enc frame) [
    | none ↦ ok (false, written, enc)
    | some enc' ↦ drain out.encoder fuel (write_packet os) enc' written
  ]

  -- What is left when the thread goes on, or has returned.
  unfoldable pub encoded_audio : MuxerThread → Bool × List Written × Encoder → MuxerThread
  encoded_audio m (good, written, enc) = record m {
    written = written;
    audio_encoder = enc;
    is_alive = good && m.is_alive;
  }

  unfoldable pub encoded_video : MuxerThread → Bool × List Written × Encoder → MuxerThread
  encoded_video m (good, written, enc) = record m {
    written = written;
    video_encoder = enc;
    is_alive = good && m.is_alive;
  }

  unfoldable pub encode_prepared : ℕ → Option (Bool × AvFrame) × MuxerThread → Result MuxerThread
  unfolding encode encoded_audio encoded_video
  encode_prepared fuel (none, m) = ok m
  encode_prepared fuel (some (true, frame), m) = do
    r ← encode fuel m.audio_st m.audio_encoder frame m.written
    ok (encoded_audio m r)
  encode_prepared fuel (some (false, frame), m) = do
    r ← encode fuel m.video_st m.video_encoder frame m.written
    ok (encoded_video m r)

  -- One round of the thread, from the end of its wait for a frame on.
  unfoldable pub mux : ℕ → MuxerThread → Result MuxerThread
  unfolding prepare encode_prepared
  mux fuel m =
      let (item, rest, signals) = try_to_get m.queue in
      elim item [
        | none ↦ ok m
        | some frame ↦ (do
          prepared ← prepare frame (record m { queue = rest })
          encode_prepared fuel prepared)
      ]
