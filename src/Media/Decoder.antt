-- ===== src/Media/Decoder.antt =====
-- util/decoder.h and util/decoder.cc: packets to frames. A frame in the vector refers to the same
-- memory as the decoder's; it is its value here.
pub mod Order
use live_streaming.Base.{
  ℕ, ℤ, Bool, true, false, List, [], ◌∷◌, ◌++◌, ◌==ℤ◌, ltb_ℤ, pos, ◌&&◌, if◌then◌else◌, none, some,
}
use live_streaming.Result.{Result, ok, ◌>>=◌}
use live_streaming.Media.{Sample, Picture, TimeBase}
use live_streaming.Media.Scaling.{Pointer, PixelData, free}
use live_streaming.Media.Coding.{Coder, drain}

-- A decoded picture, with the size and format that the codec's context has when it is decoded.
pub record Decoded : Type 0 where
  pub av_frame : Picture
  pub width : ℤ
  pub height : ℤ
  pub pix_fmt : ℤ

-- What DecodeVideoPacket works on besides the codec: the caller's vector and the decoder's buffer.
pub record VideoOutput : Type 0 where
  pub frames : List Picture
  pub pixel_data : PixelData

-- Packet2AVFrame: whether it returns true, with what the extractor collected.
unfoldable pub packet_to_av_frame :
    {Context Packet Frame Acc : Type 0}
    → ℕ
    → Coder Context Packet Frame
    → Context
    → Packet
    → (Frame → Acc → Result (Bool × Acc))
    → Acc
    → Result (Bool × Acc × Context)
unfolding drain
packet_to_av_frame fuel codec ctx pkt extractor acc = elim (codec.send ctx pkt) [
  | none ↦ ok (false, acc, ctx)
  | some ctx' ↦ drain codec fuel extractor ctx' acc
]

-- The callback in DecodeAudioPacket.
unfoldable pub extract_sample : TimeBase → Sample → List Sample → Result (Bool × List Sample)
extract_sample time_base av_frame samples =
    ok (true, samples ++ record av_frame { time_base = time_base } ∷ [])

unfoldable pub decode_audio_packet :
    {Context Packet : Type 0}
    → ℕ
    → Coder Context Packet Sample
    → TimeBase
    → Context
    → Packet
    → List Sample
    → Result (Bool × List Sample × Context)
unfolding packet_to_av_frame extract_sample
decode_audio_packet fuel codec time_base ctx pkt samples =
    packet_to_av_frame fuel codec ctx pkt (extract_sample time_base) samples

-- PixelData::Reset after av_image_alloc. It assigns width and height to its parameters.
unfoldable pub allocated : ℤ → PixelData → ℤ × Pointer → Bool × PixelData
allocated fmt p (size, data_0) =
    let q = record p { data_size = size; data_0 = data_0 } in
    if ltb_ℤ size (pos 0) then (false, q) else (true, record q { pix_fmt = fmt })

-- `alloc` is av_image_alloc: on width, height, format and what data[0] was, with its return value and
-- what data[0] is then.
module _ (alloc : ℤ → ℤ → ℤ → Pointer → ℤ × Pointer) where
  unfoldable pub reset_pixels : ℤ → ℤ → ℤ → PixelData → Result (Bool × PixelData)
  unfolding free allocated
  reset_pixels w h fmt p =
      if w ==ℤ p.width && h ==ℤ p.height && p.pix_fmt ==ℤ fmt
      then ok (true, p)
      else (do data_0 ← free p.data_0; ok (allocated fmt p (alloc w h fmt data_0)))

  -- The callback in DecodeVideoPacket when it has a buffer. The picture that av_image_copy copies
  -- into the buffer is read by nobody.
  unfoldable pub extracted :
      TimeBase → Picture → List Picture → Bool × PixelData → Bool × VideoOutput
  extracted time_base av_frame frames (false, p) =
      (false, record { frames = frames; pixel_data = p })
  extracted time_base av_frame frames (true, p) = (
    true,
    record { frames = frames ++ record av_frame { time_base = time_base } ∷ []; pixel_data = p },
  )

  unfoldable pub extract_frame : TimeBase → Decoded → VideoOutput → Result (Bool × VideoOutput)
  unfolding reset_pixels extracted
  extract_frame time_base d out = do
    r ← reset_pixels d.width d.height d.pix_fmt out.pixel_data
    ok (extracted time_base d.av_frame out.frames r)

  unfoldable pub decode_video_packet :
      {Context Packet : Type 0}
      → ℕ
      → Coder Context Packet Decoded
      → TimeBase
      → Context
      → Packet
      → VideoOutput
      → Result (Bool × VideoOutput × Context)
  unfolding packet_to_av_frame extract_frame
  decode_video_packet fuel codec time_base ctx pkt out =
      packet_to_av_frame fuel codec ctx pkt (extract_frame time_base) out
