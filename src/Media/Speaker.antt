-- ===== src/Media/Speaker.antt =====
-- util/speaker.h and util/speaker.cc: the thread that gives audio frames to SDL, and SDL's callback.
pub mod Device
pub mod Playback
pub mod Streaming
pub mod Formats
pub mod Opening
pub mod Draining
use live_streaming.Base.{
  ℕ, suc, zero, ◌+◌, ◌-◌, ◌*◌, ◌%◌, ◌^◌, Bool, true, false, List, [], ◌++◌, ◌∷◌, ◌==◌, ltb, leb,
  ◌&&◌, if◌then◌else◌, Option, none, some, length, take, drop, replicate,
}
use live_streaming.Result.{Result, ok, faults, exhausted, ◌>>=◌}
use live_streaming.Queue.{Queue, try_to_get}
use live_streaming.Media.{SampleFormat, Sample}
use live_streaming.Media.Resampling.{AudioResampleHelper}

-- SDL's formats that the code names.
pub data AudioFormat : Type 0 where
  audio_u8 audio_s16sys audio_s32sys audio_f32sys : AudioFormat

-- An SDL_AudioSpec, but for the callback, which is always this class's.
pub record AudioSpec : Type 0 where
  pub freq : ℕ
  pub channels : ℕ
  pub samples : ℕ
  pub format : AudioFormat

pub record DeviceParam : Type 0 where
  pub channel_number : ℕ
  pub sample_rate : ℕ
  pub sample_format : SampleFormat
  pub sample_number : ℕ

-- `none` for the device id -1.
pub record Speaker (Context : Type 0) : Type 0 where
  pub is_alive : Bool
  pub audio_device_id : Option ℕ
  pub param_for_device : DeviceParam
  pub desired_audio_spec : AudioSpec
  pub sample_buffer : List ℕ
  pub sample_queue : Queue Sample
  pub submit_queue : Queue Sample
  pub audio_resample_helper : AudioResampleHelper Context

-- FFmpeg's av_get_bytes_per_sample and av_get_channel_layout_nb_channels, and SDL_MixAudioFormat at
-- full volume on the bytes to change and the bytes to mix in.
pub record AudioLibrary : Type 0 where
  pub bytes_per_sample : SampleFormat → ℕ
  pub nb_channels : ℕ → ℕ
  pub mix_audio_format : AudioFormat → List ℕ → List ℕ → List ℕ

-- A uint64_t that was cast to an enum of 32 bits, and back.
unfoldable pub as_sample_format : ℕ → ℕ
as_sample_format layout =
    let low = layout % 2 ^ 32 in if ltb low (2 ^ 31) then low else low + 2 ^ 64 - 2 ^ 32

-- What the callback gives to callback_, what it gives to SDL_MixAudioFormat, and the stream.
pub record Heard : Type 0 where
  pub called : List Sample
  pub mixed : List ℕ
  pub stream : List ℕ

-- `len` cut down to the length of the buffer.
unfoldable pub available : ℕ → List ℕ → ℕ
available len buffer = if ltb (length buffer) len then length buffer else len

module _ (lib : AudioLibrary) where
  -- The bytes of a frame that the callback copies.
  unfoldable pub size_of : Sample → ℕ
  unfolding as_sample_format
  size_of next =
      next.nb_samples
      * lib.bytes_per_sample next.format
      * lib.nb_channels (as_sample_format next.channel_layout)

  -- The loop at the start of the callback.
  unfoldable pub refill :
      ℕ → ℕ → List ℕ → Queue Sample → Result (List Sample × List ℕ × Queue Sample)
  unfolding size_of
  refill zero len buffer queue = exhausted
  refill (suc fuel) len buffer queue =
      let (item, rest, signals) = try_to_get queue in
      if ltb (length buffer) len
      then elim item [
        | none ↦ ok ([], buffer, rest)
        | some next ↦
            if leb (size_of next) (length next.samples)
            then (do
              (called, filled, left) ←
                  refill fuel len (buffer ++ take (size_of next) next.samples) rest
              ok (next ∷ called, filled, left))
            else faults
      ]
      else ok ([], buffer, queue)

  module _ {Context : Type 0} where
    -- The callback from the test on an empty buffer on, for n of the `len` bytes.
    unfoldable pub mix :
        ℕ → ℕ → Speaker Context → List Sample × List ℕ × Queue Sample → Heard × Speaker Context
    mix n len s (called, buffer, queue) =
        let silence = replicate len 0 in
        if n == 0
        then (
          record { called = called; mixed = []; stream = silence },
          record s { sample_buffer = buffer; sample_queue = queue },
        )
        else (
          record {
            called = called;
            mixed = take n buffer;
            stream =
                lib.mix_audio_format s.desired_audio_spec.format (take n silence) (take n buffer)
                ++ drop n silence;
          },
          record s { sample_buffer = drop n buffer; sample_queue = queue },
        )

    -- SDLAudioDeviceCallbackInternal, for `len` bytes.
    unfoldable pub sdl_audio_device_callback :
        ℕ → Speaker Context → Result (Heard × Speaker Context)
    unfolding refill mix available
    sdl_audio_device_callback len s = do
      (called, buffer, queue) ←
          refill (suc (length s.sample_queue.q)) len s.sample_buffer s.sample_queue
      ok (mix (available len buffer) len s (called, buffer, queue))
