-- ===== src/Media/Speaker/Opening.antt =====
-- ResetAudioDevice of util/speaker.cc: when it returns, and what it leaves.
use live_streaming.Base.{
  ℕ, suc, zero, ◌≤◌, ◌<◌, ◌%◌, ◌^◌, ◌≡◌, refl, ◌⊎◌, Bool, true, false, [], ltb, none, some, arith,
}
use live_streaming.Result.{Result, ok, exhausted}
use live_streaming.Media.{format_code}
use live_streaming.Media.Speaker.{AudioSpec, DeviceParam, Speaker}
use live_streaming.Media.Speaker.Device.{spin, has_param, set_device, reset_audio_device}

spin-exhausted : (fuel samples n : ℕ) → samples < n → spin fuel samples n ≡ exhausted
unfolding spin
spin-exhausted zero samples n h = refl
spin-exhausted (suc fuel) samples n h =
    let e : ltb samples n ≡ true = ground arith in rw (e, spin-exhausted fuel samples n h) refl

module _ {Context : Type 0} (sdl_open : AudioSpec → ℕ) where
  -- The speaker has a device, which was opened with these parameters.
  pub record IsOpen (p : DeviceParam) (s : Speaker Context) : Type 0 where
    pub id : ℕ
    pub device : s.audio_device_id ≡ some id
    pub channel_number : s.param_for_device.channel_number ≡ p.channel_number
    pub sample_rate : s.param_for_device.sample_rate ≡ p.sample_rate
    pub sample_format : format_code s.param_for_device.sample_format ≡ format_code p.sample_format
    pub sample_number : s.param_for_device.sample_number ≡ p.sample_number

  -- How a call ends: with a device that was opened with the parameters, nothing having changed if
  -- there was one and nothing being left to play if there was none, or without a device.
  pub record Returns (p : DeviceParam) (s : Speaker Context) (out : Result (Bool × Speaker Context))
      : Type 0 where
    pub success : Bool
    pub next : Speaker Context
    pub runs : out ≡ ok (success, next)
    pub current : success ≡ true → IsOpen p next
    pub emptied :
        success ≡ true → (next ≡ s) ⊎ ((next.sample_buffer ≡ []) × (next.sample_queue.q ≡ []))
    pub closed : success ≡ false → next.audio_device_id ≡ none

  -- For a frame of 2^16 samples or more, and a speaker without a device for such frames,
  -- ResetAudioDevice does not return: its loop has not ended after any number of rounds.
  pub reset_audio_device-exhausted :
      (fuel : ℕ) (p : DeviceParam) (s : Speaker Context)
      → 2 ^ 16 ≤ p.sample_number
      → has_param p s ≡ false
      → reset_audio_device fuel sdl_open p s ≡ exhausted
  unfolding reset_audio_device set_device
  reset_audio_device-exhausted fuel p s h e =
      rw (e, spin-exhausted fuel (p.sample_number % 2 ^ 16) p.sample_number (omega arith)) refl
