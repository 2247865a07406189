-- ===== src/Media/Decoder/Order.antt =====
-- The frames of a packet, in order: DecodeAudioPacket and DecodeVideoPacket of util/decoder.cc.
use live_streaming.Base.{
  ℕ, ℤ, pos, ◌≤ℤ◌, ltb_ℤ, ◌<◌, ◌≡◌, refl, sym, ap, ◌∙◌, subst, Bool, true, false, Bool-cases, List,
  [], ◌∷◌, ◌++◌, ◌==ℤ◌, ◌&&◌, length, map, some, inl, inr, append_assoc, append-nil, arith,
}
use live_streaming.Result.{ok}
use live_streaming.Media.{Sample, Picture, TimeBase}
use live_streaming.Media.Scaling.{Pointer, live, PixelData}
use live_streaming.Media.Scaling.Afresh.{IsAllocated, free-IsAllocated}
use live_streaming.Media.Coding.{Coder, Readies, run_steps, Drained, drain-Drained}
use live_streaming.Media.Decoder.{
  Decoded, VideoOutput, packet_to_av_frame, extract_sample, decode_audio_packet, allocated,
  reset_pixels, extracted, extract_frame, decode_video_packet,
}

abbrev pub sample_in : TimeBase → Sample → Sample
sample_in time_base frame = record frame { time_base = time_base }

samples-run :
    (time_base : TimeBase) (xs : List Sample) (end : Bool) (samples : List Sample)
    → run_steps (extract_sample time_base) xs end samples
      ≡ ok (end, samples ++ map (sample_in time_base) xs)
unfolding run_steps extract_sample
samples-run time_base [] end samples = rw (append-nil samples) refl
samples-run time_base (x ∷ xs) end samples =
    samples-run time_base xs end (samples ++ sample_in time_base x ∷ [])
    ∙ ap (λ (ys : List Sample). ok (end, ys))
        (append_assoc samples (sample_in time_base x ∷ []) (map (sample_in time_base) xs))

module _ {Context Packet : Type 0} where
  -- If the codec takes the packet and has frames ready, and then either pauses or fails,
  -- DecodeAudioPacket appends these frames in their order, each with the stream's time base, and
  -- returns true if the codec paused and false if it failed. The fuel is more than the frames.
  decode_audio_packet-Decodes :
      (fuel : ℕ) (codec : Coder Context Packet Sample) (time_base : TimeBase) (ctx now : Context)
      (pkt : Packet) (samples xs : List Sample) (end : Bool)
      → codec.send ctx pkt ≡ some now
      → Readies codec now xs end
      → length xs < fuel
      → Drained codec end
          (samples ++ map (sample_in time_base) xs)
          (decode_audio_packet fuel codec time_base ctx pkt samples)
  unfolding decode_audio_packet packet_to_av_frame
  decode_audio_packet-Decodes fuel codec time_base ctx now pkt samples xs end e r f =
      let d =
        drain-Drained codec fuel (extract_sample time_base) now samples xs end end
          (samples ++ map (sample_in time_base) xs) r f (samples-run time_base xs end samples) in
      record { next = d.next; runs = rw (packet_to_av_frame, e) d.runs }

abbrev pub frame_in : TimeBase → Decoded → Picture
frame_in time_base d = record (d.av_frame) { time_base = time_base }

module _ (alloc : ℤ → ℤ → ℤ → Pointer → ℤ × Pointer) where
  -- A buffer for the picture can be allocated, whatever the pointer was before.
  abbrev pub Fits : Decoded → Type 0
  Fits d =
      (p : Pointer) → let r = alloc d.width d.height d.pix_fmt p in (pos 0 ≤ℤ r.0) × (r.1 ≡ live)

  abbrev pub AllFit : List Decoded → Type 0
  AllFit [] = Unit
  AllFit (d ∷ ds) = Fits d × AllFit ds

  record HasBuffer (d : Decoded) (p : PixelData) : Type 0 where
    next : PixelData
    runs : reset_pixels alloc d.width d.height d.pix_fmt p ≡ ok (true, next)
    kept : IsAllocated next.data_0

  allocated-IsAllocated :
      (fmt : ℤ) (p : PixelData) (r : ℤ × Pointer)
      → pos 0 ≤ℤ r.0
      → r.1 ≡ live
      → (q : PixelData) × (allocated fmt p r ≡ (true, q)) × IsAllocated q.data_0
  unfolding allocated
  allocated-IsAllocated fmt p (size, data_0) f e =
      let fits : ltb_ℤ size (pos 0) ≡ false = ground arith in
      (
        record p { data_0 = data_0; data_size = size; pix_fmt = fmt },
        rw fits refl,
        subst IsAllocated (sym e) tt,
      )

  reset_pixels-HasBuffer :
      (d : Decoded) (p : PixelData) → Fits d → IsAllocated p.data_0 → HasBuffer d p
  unfolding reset_pixels
  reset_pixels-HasBuffer d p f a =
      elim (Bool-cases (d.width ==ℤ p.width && d.height ==ℤ p.height && p.pix_fmt ==ℤ d.pix_fmt)) [
        | inl e ↦ record { next = p; runs = rw e refl; kept = a }
        | inr e ↦
            let (q, freed_then) = free-IsAllocated p.data_0 a in
            let (fits, now_live) = f q in
            let (next, done, kept) = allocated-IsAllocated d.pix_fmt p _ fits now_live in
            record { next = next; runs = rw (e, freed_then, done) refl; kept = kept }
      ]

  record FramesRun (time_base : TimeBase) (xs : List Decoded) (end : Bool) (out : VideoOutput)
      : Type 0 where
    next : PixelData
    runs :
        run_steps (extract_frame alloc time_base) xs end out
        ≡ ok (end, record { frames = out.frames ++ map (frame_in time_base) xs; pixel_data = next })

  frames-run :
      (time_base : TimeBase) (xs : List Decoded) (end : Bool) (out : VideoOutput)
      → AllFit xs
      → IsAllocated out.pixel_data.data_0
      → FramesRun time_base xs end out
  unfolding run_steps extract_frame extracted
  frames-run time_base [] end out f a = record {
    next = out.pixel_data;
    runs = rw (append-nil out.frames) refl;
  }
  frames-run time_base (x ∷ xs) end out f a =
      let p = reset_pixels-HasBuffer x out.pixel_data f.0 a in
      let more : VideoOutput = record {
        frames = out.frames ++ frame_in time_base x ∷ [];
        pixel_data = p.next;
      } in
      let r = frames-run time_base xs end more f.1 p.kept in
      record {
        next = r.next;
        runs =
            rw p.runs r.runs
            ∙ ap (λ (ys : List Picture). ok (end, record { frames = ys; pixel_data = r.next }))
                (append_assoc out.frames (frame_in time_base x ∷ []) (map (frame_in time_base) xs));
      }

  -- If the codec takes the packet and has pictures ready, and then either pauses or fails, and a
  -- buffer can be allocated for each, then DecodeVideoPacket appends these pictures in their order,
  -- each with the stream's time base, and returns true if the codec paused and false if it failed,
  -- and frees no buffer twice. The fuel is more than the pictures, and the decoder's buffer has not
  -- been freed before.
  pub decode_video_packet-Decodes :
      {Context Packet : Type 0} (fuel : ℕ) (codec : Coder Context Packet Decoded)
      (time_base : TimeBase) (ctx now : Context) (pkt : Packet) (out : VideoOutput)
      (xs : List Decoded) (end : Bool)
      → codec.send ctx pkt ≡ some now
      → Readies codec now xs end
      → length xs < fuel
      → AllFit xs
      → IsAllocated out.pixel_data.data_0
      → (next : Context) × (buffer : PixelData) × (decode_video_packet alloc fuel codec time_base
            ctx pkt out
          ≡ ok (
            end,
            record { frames = out.frames ++ map (frame_in time_base) xs; pixel_data = buffer },
            next,
          ))
  unfolding decode_video_packet packet_to_av_frame
  decode_video_packet-Decodes fuel codec time_base ctx now pkt out xs end e r f fit a =
      let run = frames-run time_base xs end out fit a in
      let d =
        drain-Drained codec fuel (extract_frame alloc time_base) now out xs end end _ r f
          run.runs in
      (d.next, run.next, rw (packet_to_av_frame, e) d.runs)
