-- ===== src/Examples/Sound.antt =====
-- The speaker of util/speaker.cc.
use live_streaming.Base.{ℕ, ◌^◌, ◌≡◌, refl, true, List, [], ◌∷◌, Option, none, some, arith}
use live_streaming.Result.{exhausted}
use live_streaming.Media.{Sample, SampleFormat, s16}
use live_streaming.Media.Speaker.{
  Speaker, AudioLibrary, AudioSpec, DeviceParam, audio_s16sys, size_of, as_sample_format,
}
use live_streaming.Media.Speaker.Device.{reset_audio_device, has_param}
use live_streaming.Media.Speaker.Playback.{Plays, callback-Plays}
use live_streaming.Media.Speaker.Streaming.{puts, calls, Event, Refines, run-Refines}
use live_streaming.Media.Speaker.Opening.{reset_audio_device-exhausted}
use live_streaming.Examples.Helpers.{planar}

abbrev library : AudioLibrary
library = record {
  bytes_per_sample = λ f. 2;
  nb_channels = λ layout. 1;
  mix_audio_format = λ f silence bytes. bytes;
}

abbrev param : DeviceParam
param = record { channel_number = 1; sample_rate = 44100; sample_format = s16; sample_number = 2 }

abbrev packed : Sample
packed = record planar { format = s16; channel_layout = 4 }

abbrev idle : Speaker ℕ
idle = record {
  is_alive = true;
  audio_device_id = none;
  param_for_device = param;
  desired_audio_spec = record { freq = 0; channels = 0; samples = 0; format = audio_s16sys };
  sample_buffer = 9 ∷ [];
  sample_queue = record { q = packed ∷ []; capacity = 1 };
  submit_queue = record { q = []; capacity = 0 };
  audio_resample_helper = record {
    swr_ctx = none;
    options = record {
      in_channel_layout = 0;
      in_sample_rate = 0;
      in_sample_fmt = s16;
      out_channel_layout = 0;
      out_sample_rate = 0;
      out_sample_fmt = s16;
    };
  };
}

callback-Plays_example : Plays library 3 idle
unfolding size_of as_sample_format
callback-Plays_example = callback-Plays library 3 idle (omega arith, tt)

abbrev traffic : List Event
traffic = calls 3 ∷ puts packed ∷ puts packed ∷ calls 4 ∷ calls 4 ∷ []

run-Refines_example : Refines library traffic idle
unfolding size_of as_sample_format
run-Refines_example =
    run-Refines library traffic idle (omega arith, (omega arith, tt)) (omega arith, tt)

abbrev format_of : Option Sample → SampleFormat
format_of none = s16
format_of (some sample) = sample.format

abbrev sdl_open : AudioSpec → ℕ
sdl_open spec = 2

abbrev long_param : DeviceParam
long_param = record param { sample_number = 2 ^ 16 }

reset_audio_device-exhausted_example : reset_audio_device 5 sdl_open long_param idle ≡ exhausted
unfolding has_param
reset_audio_device-exhausted_example =
    reset_audio_device-exhausted sdl_open 5 long_param idle (omega arith) refl

-- The queue is empty, a packet is decoded to two frames, and the last is the null packet.
abbrev sound : List (Option (Option ℕ))
sound = none ∷ some (some 5) ∷ some none ∷ []

abbrev decoded : List Sample
decoded = planar ∷ packed ∷ planar ∷ packed ∷ []
