-- ===== src/Recorder/Input.antt =====
-- recorder/base.h and recorder/base.cc: an input that is read and decoded by a thread of its own, and
-- IsAlive of recorder/context.h.
use live_streaming.Base.{
  ℕ, ℤ, ◌≡◌, refl, sym, ap, ◌∙◌, Bool, true, false, Bool-cases, inl, inr, List, [], ◌∷◌, ◌++◌,
  ◌==ℤ◌, if◌then◌else◌, if_true, if_false, map,
}
use live_streaming.Result.{Result, ok, throws, ◌>>=◌, bind_cong}
use live_streaming.Media.{Sample, TimeBase}
use live_streaming.Media.Scaling.{Pointer, PixelData}
use live_streaming.Media.Coding.{Coder}
use live_streaming.Media.Decoder.{Decoded, decode_audio_packet, decode_video_packet}
use live_streaming.Media.Muxer.Muxing.{AvFrame, sample_frame, picture_frame}

pub data InputType : Type 0 where
  undefined_input video_input audio_input : InputType

-- What av_read_frame says: a packet of a stream, AVERROR(EAGAIN), or another error; and Kill, by
-- another thread.
pub data Reading (Packet : Type 0) : Type 0 where
  reads : ℤ → Packet → Reading Packet
  retries fails kills : Reading Packet

-- `received` is what frame_receiver_ was called with.
pub record Input (Context : Type 0) : Type 0 where
  pub input_type : InputType
  pub is_alive : Bool
  pub dec_ctx : Context
  pub pixel_data : PixelData
  pub received : List AvFrame

-- The input's stream and its decoder, which FFmpeg has for both kinds of frames; av_image_alloc; and
-- the fuel for the frames of a packet.
pub record Device (Context Packet : Type 0) : Type 0 where
  pub stream_idx : ℤ
  pub time_base : TimeBase
  pub audio_codec : Coder Context Packet Sample
  pub video_codec : Coder Context Packet Decoded
  pub av_image_alloc : ℤ → ℤ → ℤ → Pointer → ℤ × Pointer
  pub fuel : ℕ

-- GetStream()'s index apart, what Context::IsAlive asks: the filter, and any input.
unfoldable pub any_alive : List Bool → Bool
any_alive [] = false
any_alive (alive ∷ rest) = if alive then true else any_alive rest

unfoldable pub context_is_alive : Bool → List Bool → List Bool → Bool
unfolding any_alive
context_is_alive filter videos audios =
    if filter then (if any_alive videos then true else any_alive audios) else false

module _ {Context Packet : Type 0} (device : Device Context Packet) where
  -- The calls of the decoder for a packet of the input's stream: whether it went well, the frames,
  -- and the input.
  unfoldable pub decode_packet :
      InputType → Packet → Input Context → Result (Bool × List AvFrame × Input Context)
  decode_packet undefined_input p inp = throws
  decode_packet video_input p inp = do
    (good, out, ctx) ←
        decode_video_packet device.av_image_alloc device.fuel device.video_codec device.time_base
          inp.dec_ctx p (record { frames = []; pixel_data = inp.pixel_data })
    ok (
      good,
      map picture_frame out.frames,
      record inp { dec_ctx = ctx; pixel_data = out.pixel_data },
    )
  decode_packet audio_input p inp = do
    (good, frames, ctx) ←
        decode_audio_packet device.fuel device.audio_codec device.time_base inp.dec_ctx p []
    ok (good, map sample_frame frames, record inp { dec_ctx = ctx })

  -- The frames go to the receiver if the whole packet was decoded; else the loop ends.
  unfoldable pub hand_over : Bool × List AvFrame × Input Context → Input Context
  hand_over (true, frames, inp) = record inp { received = inp.received ++ frames }
  hand_over (false, frames, inp) = record inp { is_alive = false }

  -- A round of Decode's loop.
  unfoldable pub decode_round : Reading Packet → Input Context → Result (Input Context)
  unfolding decode_packet hand_over
  decode_round retries inp = ok inp
  decode_round fails inp = ok (record inp { is_alive = false })
  decode_round kills inp = ok (record inp { is_alive = false })
  decode_round (reads i p) inp =
      if i ==ℤ device.stream_idx
      then (do r ← decode_packet inp.input_type p inp; ok (hand_over r))
      else ok inp

  -- Decode, and Kill by another thread between its rounds.
  unfoldable pub decode : List (Reading Packet) → Input Context → Result (Input Context)
  unfolding decode_round
  decode [] inp = ok inp
  decode (e ∷ es) inp =
      if inp.is_alive then (do next ← decode_round e inp; decode es next) else ok inp

  -- Without the packets of other streams and without the rounds that try again.
  abbrev pub own : List (Reading Packet) → List (Reading Packet)
  own [] = []
  own (retries ∷ es) = own es
  own (fails ∷ es) = fails ∷ own es
  own (kills ∷ es) = kills ∷ own es
  own (reads i p ∷ es) =
      let rest = own es in if i ==ℤ device.stream_idx then reads i p ∷ rest else rest

  decode_dead :
      (es : List (Reading Packet)) (inp : Input Context)
      → inp.is_alive ≡ false
      → decode es inp ≡ ok inp
  unfolding decode
  decode_dead [] inp d = refl
  decode_dead (e ∷ es) inp d = if_false inp.is_alive _ _ d

  decode_alive :
      (e : Reading Packet) (es : List (Reading Packet)) (inp : Input Context)
      → inp.is_alive ≡ true
      → decode (e ∷ es) inp ≡ (decode_round e inp >>= decode es)
  unfolding decode
  decode_alive e es inp a = if_true inp.is_alive _ _ a

  own_hit :
      (i : ℤ) (p : Packet) (es : List (Reading Packet))
      → (i ==ℤ device.stream_idx) ≡ true
      → own (reads i p ∷ es) ≡ reads i p ∷ own es
  own_hit i p es e = rw e refl

  own_miss :
      (i : ℤ) (p : Packet) (es : List (Reading Packet))
      → (i ==ℤ device.stream_idx) ≡ false
      → own (reads i p ∷ es) ≡ own es
  own_miss i p es e = rw e refl

  same_round :
      (e : Reading Packet) (es : List (Reading Packet)) (inp : Input Context)
      → ((next : Input Context) → decode es next ≡ decode (own es) next)
      → decode (e ∷ es) inp ≡ decode (e ∷ own es) inp
  unfolding decode
  same_round e es inp h = elim (Bool-cases inp.is_alive) [
    | inl a ↦
        decode_alive e es inp a
        ∙ bind_cong (decode_round e inp) (decode es) (decode (own es)) h
        ∙ sym (decode_alive e (own es) inp a)
    | inr d ↦ decode_dead (e ∷ es) inp d ∙ sym (decode_dead (e ∷ own es) inp d)
  ]

  other_round :
      (i : ℤ) (p : Packet) (es : List (Reading Packet)) (inp : Input Context)
      → (i ==ℤ device.stream_idx) ≡ false
      → decode es inp ≡ decode (own es) inp
      → decode (reads i p ∷ es) inp ≡ decode (own es) inp
  unfolding decode decode_round
  other_round i p es inp e h = elim (Bool-cases inp.is_alive) [
    | inl a ↦
        decode_alive (reads i p) es inp a
        ∙ ap (λ (r : Result (Input Context)). r >>= decode es)
            (if_false (i ==ℤ device.stream_idx) _ _ e)
        ∙ h
    | inr d ↦ decode_dead (reads i p ∷ es) inp d ∙ sym (decode_dead (own es) inp d)
  ]

  -- Packets of other streams, and reads that are to be tried again, make no difference to what an
  -- input decodes and hands over, whatever they are mixed with.
  pub decode-own :
      (es : List (Reading Packet)) (inp : Input Context) → decode es inp ≡ decode (own es) inp
  unfolding decode decode_round
  decode-own [] inp = refl
  decode-own (retries ∷ es) inp = elim (Bool-cases inp.is_alive) [
    | inl a ↦ decode_alive retries es inp a ∙ decode-own es inp
    | inr d ↦ decode_dead (retries ∷ es) inp d ∙ sym (decode_dead (own es) inp d)
  ]
  decode-own (fails ∷ es) inp = same_round fails es inp (decode-own es)
  decode-own (kills ∷ es) inp = same_round kills es inp (decode-own es)
  decode-own (reads i p ∷ es) inp = elim (Bool-cases (i ==ℤ device.stream_idx)) [
    | inl e ↦
        same_round (reads i p) es inp (decode-own es)
        ∙ ap (λ (rest : List (Reading Packet)). decode rest inp) (sym (own_hit i p es e))
    | inr e ↦
        other_round i p es inp e (decode-own es inp)
        ∙ ap (λ (rest : List (Reading Packet)). decode rest inp) (sym (own_miss i p es e))
  ]
