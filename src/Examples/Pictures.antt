-- ===== src/Examples/Pictures.antt =====
-- The decoder, the muxer, the renderer and the player's clock.
use live_streaming.Base.{ℕ, ℤ, pos, negsuc, ◌≡◌, refl, true, List, [], ◌∷◌, map, none, some, arith}
use live_streaming.Result.{ok}
use live_streaming.Queue.{Queue}
use live_streaming.Media.{
  TimeBase, Picture, s16, fltp, flt, pix_fmt_yuyv422, pix_fmt_yuv420p, format_code,
}
use live_streaming.Media.Scaling
use live_streaming.Media.Coding.{readies, pauses}
use live_streaming.Media.Decoder.{Decoded, VideoOutput, decode_video_packet}
use live_streaming.Media.Decoder.Order.{frame_in, decode_video_packet-Decodes}
use live_streaming.Media.Muxer.{MuxerParam, Codec, CodecContext, OutputStream}
use live_streaming.Media.Muxer.Muxing.{
  AvFrame, sample_frame, Packet, Output, Muxer, mux, prepare, is_sample_as_wanted, prepare_sample,
}
use live_streaming.Media.Muxer.Feeding.{with_packets, written_in, mux-Writes}
use live_streaming.Media.Filter.{Filter, filter_round}
use live_streaming.Media.Filter.Passing.{passed, filter_round-Passes}
use live_streaming.Media.Renderer.{update_rect}
use live_streaming.Media.Renderer.Fitting.{IsFitted, update_rect-IsFitted}
use live_streaming.Player.{Context, new_context, update_playing_time_interval}
use live_streaming.Examples.Helpers.{coder, millis, planar, picture, swr, sws}

abbrev micros : TimeBase
micros = record { num = 1; den = 1000000 }

abbrev decoded : Decoded
decoded = record { av_frame = picture; width = pos 4; height = pos 2; pix_fmt = pos 0 }

abbrev output : VideoOutput
output = record { frames = []; pixel_data = Scaling.new_pixel_data }

abbrev alloc : ℤ → ℤ → ℤ → Scaling.Pointer → ℤ × Scaling.Pointer
alloc w h fmt p = (pos 16, Scaling.live)

decode_video_packet-Decodes_example :
    (next : List Decoded) × (buffer : Scaling.PixelData) × (decode_video_packet alloc 2
        (coder {Input = ℕ} (decoded ∷ []))
        micros
        []
        0
        output
      ≡ ok (
        true,
        record { frames = map (frame_in micros) (decoded ∷ []); pixel_data = buffer },
        next,
      ))
decode_video_packet-Decodes_example =
    decode_video_packet-Decodes alloc 2 (coder (decoded ∷ [])) micros [] (decoded ∷ []) 0 output
      (decoded ∷ []) true refl (readies refl (pauses refl)) (omega arith)
      ((λ p. (omega arith, refl)), tt) tt

abbrev muxer_param : MuxerParam
muxer_param = record {
  audio_sample_rate = 44100;
  audio_channel_layout = 3;
  audio_sample_format = fltp;
  audio_time_base = micros;
  video_width = pos 4;
  video_height = pos 2;
  video_pix_fmt = pix_fmt_yuyv422;
  video_time_base = millis;
  url = [];
}

abbrev codec : Codec
codec = record {
  id = 27;
  is_libx264 = true;
  sample_fmts = some (s16 ∷ flt ∷ []);
  supported_samplerates = some (48000 ∷ 44100 ∷ []);
  channel_layouts = none;
  pix_fmts = some (pos 5 ∷ pix_fmt_yuv420p ∷ []);
}

update_rect-IsFitted_example : IsFitted 1920 1080 800 800 (update_rect 1920 1080 (800, 800)).1
update_rect-IsFitted_example = update_rect-IsFitted 1920 1080 800 800 (omega arith) (omega arith)

abbrev encoder_context : CodecContext
encoder_context = record {
  codec_id = 0;
  sample_fmt = fltp;
  sample_rate = 44100;
  channel_layout = 3;
  channels = 2;
  width = pos 0;
  height = pos 0;
  pix_fmt = pos 0;
  time_base = micros;
  framerate = micros;
  gop_size = 12;
  flags = 0;
}

abbrev stream : ℕ → OutputStream
stream n = record {
  st = record { index = n; id = n; codec_id = 0; time_base = millis };
  enc = encoder_context;
}

abbrev packet : Packet
packet = record { pts = 40; dts = 40; payload = 1 ∷ [] }

abbrev container : Output (List Packet)
container = record {
  encoder = coder (packet ∷ packet ∷ []);
  av_packet_rescale_ts = λ from to p. p;
  av_interleaved_write_frame = λ before w. true;
}

abbrev muxer : Queue AvFrame → Muxer ℕ ℕ (List Packet)
muxer q = record {
  muxer_param = muxer_param;
  video_st = stream 0;
  audio_st = stream 1;
  video_encoder = [];
  audio_encoder = [];
  video_scale_helper = record {
    pixel_data = Scaling.new_pixel_data;
    src_width = negsuc 0;
    src_height = negsuc 0;
    src_pix_fmt = negsuc 0;
    sws_context = none;
    sws_pixel_data = Scaling.new_pixel_data;
  };
  audio_resample_helper = record {
    swr_ctx = none;
    options = record {
      in_channel_layout = 0;
      in_sample_rate = 0;
      in_sample_fmt = s16;
      out_channel_layout = 0;
      out_sample_rate = 0;
      out_sample_fmt = s16;
    };
  };
  queue = q;
  is_alive = true;
  written = [];
}

abbrev emptied : Muxer ℕ ℕ (List Packet)
emptied = muxer (record { q = []; capacity = 0 })

abbrev filled : Muxer ℕ ℕ (List Packet)
filled = muxer (record { q = sample_frame planar ∷ []; capacity = 0 })

mux-Writes_example :
    (true ≡ true)
    × (next : List Packet) × (mux swr sws container 3 filled
        ≡ ok (
            with_packets swr sws container true emptied
              (written_in swr sws container (stream 1) (packet ∷ packet ∷ []))
              next
              true))
unfolding prepare prepare_sample is_sample_as_wanted format_code
mux-Writes_example =
    mux-Writes swr sws container 3 filled emptied (sample_frame planar) (sample_frame planar) []
      true true (packet ∷ packet ∷ []) (packet ∷ packet ∷ []) refl refl refl
      (readies refl (readies refl (pauses refl))) (omega arith) (refl, (refl, tt))

abbrev graph_filter : Filter (List Picture)
graph_filter = record {
  sources = (1 ∷ []) ∷ (2 ∷ []) ∷ [];
  graph = [];
  input_queue = record { q = record { input = 2 ∷ []; frame = some picture } ∷ []; capacity = 0 };
  outputs = record { called = []; output_queue = record { q = []; capacity = 0 } };
  has_callback = true;
  is_alive = true;
}

filter_round-Passes_example :
    (next : List Picture) × (filter_round (coder (picture ∷ picture ∷ [])) 3 graph_filter
      ≡ ok (
        true,
        record graph_filter {
          input_queue = record { q = []; capacity = 0 };
          outputs = passed true (picture ∷ picture ∷ []) graph_filter.outputs;
          graph = next;
          is_alive = true;
        },
      ))
unfolding filter_round
filter_round-Passes_example =
    filter_round-Passes (coder (picture ∷ picture ∷ [])) 3 graph_filter (2 ∷ []) picture []
      (picture ∷ picture ∷ []) (picture ∷ picture ∷ []) true refl (omega arith) refl refl
      (readies refl (readies refl (pauses refl))) (omega arith)

-- The audio frame of time 40 ms plays since 0.
abbrev playing : Context
playing = update_playing_time_interval planar new_context

abbrev next_picture : Picture
next_picture = record picture { pts = pos 100 }
