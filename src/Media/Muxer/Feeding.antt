-- ===== src/Media/Muxer/Feeding.antt =====
-- The packets of a frame in the container: the thread of util/muxer.cc.
use live_streaming.Base.{
  ℕ, ◌<◌, ◌≡◌, refl, ap, ◌∙◌, Bool, true, false, ◌==◌, Option, none, ◌||◌, ◌==ℤ◌, pos, ◌&&◌, List,
  [], ◌∷◌, ◌++◌, if◌then◌else◌, length, some, append_assoc, append-nil,
}
use live_streaming.Result.{Result, ok, bind_ok, ◌>>=◌}
use live_streaming.Queue.{try_to_get}
use live_streaming.Media.Resampling.{Swr}
use live_streaming.Media.Scaling.{Sws}
use live_streaming.Media.Coding.{Readies, Drained, run_steps, drain-Drained}
use live_streaming.Media.Muxer.{OutputStream}
use live_streaming.Media.Muxer.Muxing.{
  AvFrame, sample_frame, picture_frame, prepare_sample, prepare_picture, is_sample_as_wanted,
  is_picture_as_wanted, Packet, Written, Output, Muxer, prepare, in_stream, write_packet, encode,
  encoded_audio, encoded_video, encode_prepared, mux,
}

module _ {SwrContext SwsContext Encoder : Type 0} (swr : Swr SwrContext) (sws : Sws SwsContext)
    (out : Output Encoder) where
  -- The container takes these, one after the other.
  abbrev pub Accepts : List Written → List Written → Type 0
  Accepts written [] = Unit
  Accepts written (w ∷ ws) =
      (out.av_interleaved_write_frame written w ≡ true) × Accepts (written ++ w ∷ []) ws

  -- The packets with the stream's index, and their timestamps in the stream's time base.
  abbrev pub written_in : OutputStream → List Packet → List Written
  written_in os [] = []
  written_in os (p ∷ ps) =
      record {
        stream_index = os.st.index;
        packet = out.av_packet_rescale_ts os.enc.time_base os.st.time_base p;
      }
      ∷ written_in os ps

  packets-run :
      (os : OutputStream) (ps : List Packet) (end : Bool) (written : List Written)
      → Accepts written (written_in os ps)
      → run_steps (write_packet swr sws out os) ps end written
        ≡ ok (end, written ++ written_in os ps)
  unfolding run_steps write_packet in_stream
  packets-run os [] end written a = rw (append-nil written) refl
  packets-run os (p ∷ ps) end written a = rw (a.0) (
      packets-run os ps end (written ++ in_stream swr sws out os p ∷ []) a.1
      ∙ ap (λ (ws : List Written). ok (end, ws))
          (append_assoc written (in_stream swr sws out os p ∷ []) (written_in os ps)))

  encode-Drained :
      (fuel : ℕ) (os : OutputStream) (enc now : Encoder) (frame : AvFrame) (written : List Written)
      (ps : List Packet) (end : Bool)
      → out.encoder.send enc frame ≡ some now
      → Readies out.encoder now ps end
      → length ps < fuel
      → Accepts written (written_in os ps)
      → Drained out.encoder end
          (written ++ written_in os ps)
          (encode swr sws out fuel os enc frame written)
  unfolding encode
  encode-Drained fuel os enc now frame written ps end e r f a =
      let d =
        drain-Drained out.encoder fuel (write_packet swr sws out os) now written ps end end _ r f
          (packets-run os ps end written a) in
      record { next = d.next; runs = rw (encode, e) d.runs }

  abbrev pub is_sample : AvFrame → Bool
  is_sample (sample_frame s) = true
  is_sample (picture_frame p) = false

  -- A frame that was prepared goes to the audio stream if b, and else to the video stream.
  GoesTo : Bool → Result (Option (Bool × AvFrame) × Muxer SwrContext SwsContext Encoder) → Type 0
  GoesTo b r =
      (is_audio : Bool) (ready : AvFrame) (m' : Muxer SwrContext SwsContext Encoder)
      → r ≡ ok (some (is_audio, ready), m')
      → is_audio ≡ b

  if-GoesTo :
      (b c : Bool) (x y : Result (Option (Bool × AvFrame) × Muxer SwrContext SwsContext Encoder))
      → GoesTo b x
      → GoesTo b y
      → GoesTo b (if c then x else y)
  if-GoesTo b true x y h k = h
  if-GoesTo b false x y h k = k

  bind-GoesTo :
      {A : Type 0} (b : Bool) (r : Result A)
      (f : A → Result (Option (Bool × AvFrame) × Muxer SwrContext SwsContext Encoder))
      → ((a : A) → GoesTo b (f a))
      → GoesTo b (r >>= f)
  unfolding GoesTo
  bind-GoesTo b r f h is_audio ready m' e =
      let (a, runs, g) = bind_ok r f (some (is_audio, ready), m') e in h a is_audio ready m' g

  made-GoesTo :
      (b good : Bool) (x : AvFrame) (m : Muxer SwrContext SwsContext Encoder)
      → GoesTo b (ok ((if good then some (b, x) else none), m))
  unfolding GoesTo
  made-GoesTo b true x m is_audio ready m' e = cc
  made-GoesTo b false x m is_audio ready m' e = cc

  -- Samples go to the audio stream and pictures to the video stream.
  prepare-GoesTo :
      (frame : AvFrame) (m : Muxer SwrContext SwsContext Encoder)
      → GoesTo (is_sample frame) (prepare swr sws out frame m)
  unfolding prepare prepare_sample prepare_picture
  prepare-GoesTo (sample_frame s) m =
      if-GoesTo true (s.channel_layout == 0) _ _ (made-GoesTo true false (sample_frame s) m) (
        if-GoesTo true (is_sample_as_wanted m.muxer_param s) _ _
          (made-GoesTo true true (sample_frame s) m)
          (bind-GoesTo true _ _
            (λ (good, frame, helper). made-GoesTo true good (sample_frame frame) _)))
  prepare-GoesTo (picture_frame p) m =
      if-GoesTo false (p.width ==ℤ pos 0 || p.height ==ℤ pos 0) _ _
        (made-GoesTo false false (picture_frame p) m)
        (if-GoesTo false (is_picture_as_wanted m.muxer_param p) _ _
          (made-GoesTo false true (picture_frame p) m)
          (bind-GoesTo false _ _
            (λ (good, frame, helper). made-GoesTo false good (picture_frame frame) _)))

  -- The stream that a prepared frame belongs to, and its encoder.
  abbrev pub stream_of : Bool → Muxer SwrContext SwsContext Encoder → OutputStream
  stream_of is_audio m = if is_audio then m.audio_st else m.video_st

  abbrev pub encoder_of : Bool → Muxer SwrContext SwsContext Encoder → Encoder
  encoder_of is_audio m = if is_audio then m.audio_encoder else m.video_encoder

  -- The muxer with other packets written, an encoder that has moved on, and alive or not.
  abbrev pub with_packets :
      Bool
      → Muxer SwrContext SwsContext Encoder
      → List Written
      → Encoder
      → Bool
      → Muxer SwrContext SwsContext Encoder
  with_packets is_audio m written enc alive =
      if is_audio
      then record m { written = written; audio_encoder = enc; is_alive = alive }
      else record m { written = written; video_encoder = enc; is_alive = alive }

  -- Take the first frame of the queue, and suppose that it can be prepared for its stream, that the
  -- stream's encoder takes the prepared frame, has packets ready and then pauses or fails, and that
  -- the container takes them. Then a round of the thread writes exactly these packets, in their
  -- order, with their timestamps rescaled from the encoder's time base to the stream's, and with the
  -- stream's index, which is the audio stream for samples and the video stream for pictures; and is
  -- alive after it if it was and the encoder paused. The fuel is more than the packets.
  pub mux-Writes :
      (fuel : ℕ) (m m' : Muxer SwrContext SwsContext Encoder) (frame ready : AvFrame)
      (rest : List AvFrame) (is_audio end : Bool) (now : Encoder) (ps : List Packet)
      → m.queue.q ≡ frame ∷ rest
      → prepare swr sws out frame (record m { queue = record m.queue { q = rest } })
        ≡ ok (some (is_audio, ready), m')
      → out.encoder.send (encoder_of is_audio m') ready ≡ some now
      → Readies out.encoder now ps end
      → length ps < fuel
      → Accepts m'.written (written_in (stream_of is_audio m') ps)
      → (is_audio ≡ is_sample frame)
        × (next : Encoder) × (mux swr sws out fuel m
            ≡ ok (
                with_packets is_audio m'
                  (m'.written ++ written_in (stream_of is_audio m') ps)
                  next
                  (end && m'.is_alive)))
  unfolding mux GoesTo try_to_get encode_prepared encoded_audio encoded_video
  mux-Writes fuel m m' frame ready rest true end now ps q p e r f a =
      let d =
        encode-Drained fuel m'.audio_st m'.audio_encoder now ready m'.written ps end e r f a in
      (prepare-GoesTo frame _ _ ready m' p, d.next, rw (q, p) (rw d.runs refl))
  mux-Writes fuel m m' frame ready rest false end now ps q p e r f a =
      let d =
        encode-Drained fuel m'.video_st m'.video_encoder now ready m'.written ps end e r f a in
      (prepare-GoesTo frame _ _ ready m' p, d.next, rw (q, p) (rw d.runs refl))
