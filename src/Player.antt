-- ===== src/Player.antt =====
-- player/context.h: the clock by which the player's video follows its audio. Times are microseconds.
-- int64_t is taken as exact: pts * 1000000 * num stays far below 2^63 for the time bases at hand.
pub mod Order
pub mod Reading
pub mod Decoding
use live_streaming.Base.{
  ℕ, ℤ, pos, negsuc, ◌*◌, ◌/◌, Bool, if◌then◌else◌, ◌+ℤ◌, ◌-ℤ◌, scale_ℤ, leb_ℤ, ltb_ℤ, ◌==ℤ◌,
}
use live_streaming.Media.{Sample, Picture, TimeBase}

pub record TimeInterval : Type 0 where
  pub start : ℤ
  pub duration : ℤ
  pub corresponding_alive_micro_seconds : ℤ

-- What the callbacks read and write; `alive_micro_seconds` is set by a thread of its own.
pub record Context : Type 0 where
  pub playing_time_interval : TimeInterval
  pub alive_micro_seconds : ℤ

unfoldable pub new_context : Context
new_context = record {
  playing_time_interval = record {
    start = negsuc 0;
    duration = negsuc 0;
    corresponding_alive_micro_seconds = pos 0;
  };
  alive_micro_seconds = pos 0;
}

-- pts * 1000000L * num / den.
unfoldable pub time_point : ℤ → TimeBase → ℤ
time_point pts tb = scale_ℤ pts (1000000 * tb.num) tb.den

-- CalcDelayTimeInMicroSecond for a picture at `point`, when `alive` microseconds have passed.
unfoldable pub delay_at : ℤ → TimeInterval → ℤ → ℤ
delay_at point ti alive =
    let delta =
      if ltb_ℤ (ti.start +ℤ ti.duration +ℤ pos 100000) point then point -ℤ ti.start else pos 0 in
    let delay = (point -ℤ ti.start) -ℤ (alive -ℤ ti.corresponding_alive_micro_seconds) +ℤ delta in
    if leb_ℤ point ti.start then pos 0 else if ti.start ==ℤ pos 0 then pos 100000 else delay

unfoldable pub calc_delay_time_in_micro_second : Context → Picture → ℤ
unfolding time_point delay_at
calc_delay_time_in_micro_second c frame =
    delay_at (time_point frame.pts frame.time_base) c.playing_time_interval c.alive_micro_seconds

-- The duration is a double that is cut off; its quotient is exact for any frame's sizes.
unfoldable pub update_playing_time_interval : Sample → Context → Context
unfolding time_point
update_playing_time_interval frame c = record c {
  playing_time_interval = record {
    start = time_point frame.pts frame.time_base;
    duration = pos (frame.nb_samples * 1000 / frame.sample_rate);
    corresponding_alive_micro_seconds = c.alive_micro_seconds;
  };
}

-- The thread that counts the microseconds.
unfoldable pub tick : ℤ → Context → Context
tick micro_seconds c = record c { alive_micro_seconds = micro_seconds }
