-- ===== src/Player/Decoding.antt =====
-- player/main.cc: the thread that decodes sound and gives it to the speaker.
use live_streaming.Base.{
  ℕ, ◌≡◌, Bool, true, false, List, [], ◌∷◌, ◌++◌, Option, none, some, if◌then◌else◌, ◌&&◌,
}
use live_streaming.Result.{Result, ok, ◌>>=◌}
use live_streaming.Media.{Sample, TimeBase}
use live_streaming.Media.Resampling.{Swr}
use live_streaming.Media.Coding.{Coder}
use live_streaming.Media.Decoder.{decode_audio_packet}
use live_streaming.Media.Speaker.{Speaker}
use live_streaming.Media.Speaker.Device.{submit, convert_planar_sample_to_packed}

module _ {Context : Type 0} (swr : Swr Context) where
  -- The loop over the frames of a packet.
  unfoldable pub submit_all : List Sample → Speaker Context → Result (Speaker Context)
  submit_all [] s = ok s
  submit_all (x ∷ xs) s = submit swr x s >>= submit_all xs

  -- Submitting what was decoded.
  unfoldable submitted :
      {Codec : Type 0}
      → Speaker Context
      → Bool × Codec × List Sample
      → Result (Bool × Codec × Speaker Context)
  unfolding submit_all
  submitted s (more, ctx, samples) = do t ← submit_all samples s; ok (more, ctx, t)

  -- The speaker takes a frame: when its conversion succeeds, and Speak has not ended, the packed frame
  -- comes to the end of the queue, and otherwise nothing does.
  pub record Takes (x : Sample) (s t : Speaker Context) : Type 0 where
    pub good : Bool
    pub packed : Sample
    pub next : Speaker Context
    pub converts : convert_planar_sample_to_packed swr x s ≡ ok (good, packed, next)
    pub queue :
        t.submit_queue.q ≡ s.submit_queue.q ++ (if good && s.is_alive then packed ∷ [] else [])
    pub still_alive : t.is_alive ≡ s.is_alive
    pub same_helper : t.audio_resample_helper ≡ next.audio_resample_helper

  -- The speaker takes these frames, one after the other.
  pub data TakesAll : List Sample → Speaker Context → Speaker Context → Type 0 where
    none_left : {s : Speaker Context} → TakesAll [] s s
    one_more :
        {x : Sample} {xs : List Sample} {s t u : Speaker Context}
        → Takes x s t
        → TakesAll xs t u
        → TakesAll (x ∷ xs) s u

module _ {Context Codec Packet : Type 0} (swr : Swr Context) (fuel : ℕ)
    (codec : Coder Codec (Option Packet) Sample) (time_base : TimeBase) where
  -- The rounds in which quit_flag is not set: TimedGet finds the queue empty, or it takes a packet,
  -- which is null at the end of the file. It gives whether the thread goes on.
  unfoldable pub decode_sound :
      List (Option (Option Packet))
      → Codec
      → Speaker Context
      → Result (Bool × Codec × Speaker Context)
  unfolding submit_all
  decode_sound [] ctx s = ok (true, ctx, s)
  decode_sound (none ∷ rounds) ctx s = decode_sound rounds ctx s
  decode_sound (some packet ∷ rounds) ctx s = do
    (good, samples, ctx') ← decode_audio_packet fuel codec time_base ctx packet []
    elim good [
      | false ↦ ok (false, ctx', s)
      | true ↦ submit_all swr samples s >>= decode_sound rounds ctx'
    ]

  -- The frames of all packets, up to one that cannot be decoded.
  unfoldable pub decoded_sound :
      List (Option (Option Packet)) → Codec → Result (Bool × Codec × List Sample)
  decoded_sound [] ctx = ok (true, ctx, [])
  decoded_sound (none ∷ rounds) ctx = decoded_sound rounds ctx
  decoded_sound (some packet ∷ rounds) ctx = do
    (good, samples, ctx') ← decode_audio_packet fuel codec time_base ctx packet []
    elim good [
      | false ↦ ok (false, ctx', [])
      | true ↦ (do
        (more, end, others) ← decoded_sound rounds ctx'
        ok (more, end, samples ++ others))
    ]
