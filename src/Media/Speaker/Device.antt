-- ===== src/Media/Speaker/Device.antt =====
-- util/speaker.cc: Speak, ResetAudioDevice and Submit.
use live_streaming.Base.{
  ℕ, suc, zero, ◌/◌, ◌%◌, ◌^◌, Bool, true, false, [], ◌==◌, ltb, leb, ◌&&◌, if◌then◌else◌, Option,
  none, some,
}
use live_streaming.Result.{Result, ok, exhausted, ◌>>=◌}
use live_streaming.Queue.{try_to_get, put, put_now}
use live_streaming.Media.{
  SampleFormat, Sample, u8, s16, s32, flt, dbl, u8p, s16p, s32p, fltp, dblp, s64, s64p, format_code,
}
use live_streaming.Media.Resampling.{Swr, resample}
use live_streaming.Media.Speaker.{
  AudioFormat, audio_u8, audio_s16sys, audio_s32sys, audio_f32sys, AudioSpec, DeviceParam, Speaker,
  AudioLibrary,
}

-- The loop `while (desired_audio_spec_.samples < sample_number) {}`; its body changes nothing.
unfoldable pub spin : ℕ → ℕ → ℕ → Result ℕ
spin zero samples sample_number = exhausted
spin (suc fuel) samples sample_number =
    let rest = spin fuel samples sample_number in
    if ltb samples sample_number then rest else ok samples

-- The switch in ResetAudioDevice.
unfoldable pub sdl_format : SampleFormat → Option AudioFormat
sdl_format u8 = some audio_u8
sdl_format s16 = some audio_s16sys
sdl_format s32 = some audio_s32sys
sdl_format flt = some audio_f32sys
sdl_format _ = none

-- The desired spec but for the format. `samples`, when the loop has ended, is a Uint16 and `channels` a Uint8.
unfoldable pub spec_for : ℕ → DeviceParam → AudioSpec → AudioSpec
spec_for samples p spec = record spec {
  freq = p.sample_rate;
  channels = p.channel_number % 2 ^ 8;
  samples = if leb p.sample_number samples then samples / 2 else samples;
}

-- ResetAudioDevice when any open device is closed.
unfoldable pub param_of : AudioLibrary → Sample → DeviceParam
param_of lib sample = record {
  channel_number = lib.nb_channels sample.channel_layout;
  sample_rate = sample.sample_rate;
  sample_format = sample.format;
  sample_number = sample.nb_samples;
}

module _ {Context : Type 0} where
  unfoldable pub has_param : DeviceParam → Speaker Context → Bool
  has_param p s = elim (s.audio_device_id) [
    | none ↦ false
    | some id ↦
        let q = s.param_for_device in
        q.channel_number == p.channel_number
        && q.sample_rate == p.sample_rate
        && format_code q.sample_format == format_code p.sample_format
        && q.sample_number == p.sample_number
  ]

  -- ResetAudioDevice from SDL_OpenAudioDevice on. The ids from 2 on are devices.
  unfoldable pub open_device :
      (AudioSpec → ℕ) → DeviceParam → AudioSpec → Speaker Context → Bool × Speaker Context
  open_device sdl_open p spec s =
      let device_id = sdl_open spec in
      if ltb device_id 2 then (false, record s { desired_audio_spec = spec }) else (
        true,
        record s {
          desired_audio_spec = spec;
          audio_device_id = some device_id;
          param_for_device = p;
          sample_buffer = [];
          sample_queue = record s.sample_queue { q = [] };
        },
      )

  unfoldable pub set_device :
      ℕ → (AudioSpec → ℕ) → DeviceParam → Speaker Context → Result (Bool × Speaker Context)
  unfolding open_device spin sdl_format spec_for
  set_device fuel sdl_open p s = do
    samples ← spin fuel (p.sample_number % 2 ^ 16) p.sample_number
    let spec = spec_for samples p s.desired_audio_spec in
        elim (sdl_format p.sample_format) [
          | none ↦ ok (false, record s { desired_audio_spec = spec })
          | some format ↦ ok (open_device sdl_open p (record spec { format = format }) s)
        ]

  unfoldable pub reset_audio_device :
      ℕ → (AudioSpec → ℕ) → DeviceParam → Speaker Context → Result (Bool × Speaker Context)
  unfolding has_param set_device
  reset_audio_device fuel sdl_open p s =
      let closed = set_device fuel sdl_open p (record s { audio_device_id = none }) in
      if has_param p s then ok (true, s) else closed

  -- Speak once it has a frame: the speaker, and the frame if Put has to wait with it.
  unfoldable pub spoken : Sample → Bool × Speaker Context → Option Sample × Speaker Context
  spoken sample (false, s) = (none, record s { is_alive = false })
  spoken sample (true, s) = elim (put sample s.sample_queue) [
    | none ↦ (some sample, s)
    | some (n, queue, signals) ↦ (none, record s { sample_queue = queue })
  ]

  -- One round of Speak, from the end of its wait on submit_queue_ on.
  unfoldable pub speak :
      ℕ
      → AudioLibrary
      → (AudioSpec → ℕ)
      → Speaker Context
      → Result (Option Sample × Speaker Context)
  unfolding reset_audio_device spoken param_of
  speak fuel lib sdl_open s =
      let (item, rest, signals) = try_to_get s.submit_queue in
      elim item [
        | none ↦ ok (none, s)
        | some sample ↦ (do
          r ←
              reset_audio_device fuel sdl_open (param_of lib sample)
                (record s { submit_queue = rest })
          ok (spoken sample r))
      ]

-- The first switch of ConvertPlanarSampleToPacked.
unfoldable pub is_packed : SampleFormat → Bool
is_packed u8 = true
is_packed s16 = true
is_packed s32 = true
is_packed flt = true
is_packed _ = false

-- The second one.
unfoldable pub packed_format : SampleFormat → Option SampleFormat
packed_format dbl = some flt
packed_format u8p = some u8
packed_format s16p = some s16
packed_format s32p = some s32
packed_format fltp = some flt
packed_format dblp = some flt
packed_format s64 = some s32
packed_format s64p = some s32
packed_format _ = none

module _ {Context : Type 0} (swr : Swr Context) where
  unfoldable pub convert_planar_sample_to_packed :
      Sample → Speaker Context → Result (Bool × Sample × Speaker Context)
  unfolding is_packed packed_format
  convert_planar_sample_to_packed sample s =
      if is_packed sample.format then ok (true, sample, s) else elim (packed_format sample.format) [
        | none ↦ ok (false, sample, s)
        | some out ↦ (do
          (b, frame, helper) ←
              resample swr
                (record {
                  wrapper = sample;
                  out_rate = sample.sample_rate;
                  out_channel_layout = sample.channel_layout;
                  out_fmt = out;
                })
                s.audio_resample_helper
          ok (b, frame, record s { audio_resample_helper = helper }))
      ]

  -- Submit after the conversion. submit_queue_ has no capacity, so Put does not wait.
  unfoldable pub accepted : Bool × Sample × Speaker Context → Speaker Context
  accepted (false, sample, s) = s
  accepted (true, sample, s) =
      if s.is_alive then record s { submit_queue = (put_now sample s.submit_queue).1 } else s

  unfoldable pub submit : Sample → Speaker Context → Result (Speaker Context)
  unfolding convert_planar_sample_to_packed accepted
  submit sample s = do r ← convert_planar_sample_to_packed sample s; ok (accepted r)
