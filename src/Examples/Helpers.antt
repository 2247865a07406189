-- ===== src/Examples/Helpers.antt =====
-- The resampler and the scaler of util/ with libraries that count their calls.
use live_streaming.Base.{ℕ, suc, pos, ◌≡◌, refl, Bool, List, [], ◌∷◌, some, arith}
use live_streaming.Result.{ok}
use live_streaming.Media.{Sample, Picture, TimeBase, s16, fltp, sample_fmt_none, pix_fmt_yuyv422}
use live_streaming.Media.Coding.{Coder, Received, received, again}
use live_streaming.Media.Resampling
use live_streaming.Media.Scaling
use live_streaming.Media.Scaling.Afresh.{scale_all, scale_each, scale_all-eq-scale_each}

abbrev pub millis : TimeBase
millis = record { num = 1; den = 1000 }

-- A frame of stereo (layout 3) at 44100 Hz.
abbrev pub planar : Sample
planar = record {
  channel_layout = 3;
  sample_rate = 44100;
  format = fltp;
  nb_samples = 2;
  samples = 1 ∷ 2 ∷ 3 ∷ 4 ∷ [];
  pts = pos 40;
  time_base = millis;
}

-- The context counts the conversions, and each shows in the data.
abbrev pub swr : Resampling.Swr ℕ
swr = record {
  av_frame_alloc = record {
    channel_layout = 0;
    sample_rate = 0;
    format = sample_fmt_none;
    nb_samples = 0;
    samples = [];
    pts = pos 0;
    time_base = record { num = 0; den = 1 };
  };
  swr_init = λ o. some 0;
  swr_convert_frame = λ n new_sample sample.
      (some (record new_sample { nb_samples = 1; samples = n ∷ sample.samples }), suc n);
}

-- A coder whose state is what is ready.
abbrev first_ready : {A : Type 0} → List A → Received A × List A
first_ready [] = (again, [])
first_ready (x ∷ xs) = (received x, xs)

abbrev pub coder : {Input A : Type 0} → List A → Coder (List A) Input A
coder xs = record { send = λ s input. some xs; receive = first_ready }

abbrev to_s16 : Resampling.Call
to_s16 = record { wrapper = planar; out_rate = 48000; out_channel_layout = 3; out_fmt = s16 }

abbrev no_options : Resampling.SwrOptions
no_options = Resampling.asked to_s16

resample_all-eq-resample_each_example :
    Resampling.resample_all swr (to_s16 ∷ to_s16 ∷ []) (Resampling.new_helper no_options)
    ≡ Resampling.resample_each swr no_options (to_s16 ∷ to_s16 ∷ [])
unfolding Resampling.new_helper
resample_all-eq-resample_each_example =
    Resampling.resample_all-eq-resample_each swr no_options (to_s16 ∷ to_s16 ∷ [])
      (Resampling.new_helper no_options) (ground arith, (ground arith, tt)) tt

abbrev pub picture : Picture
picture = record {
  width = pos 4;
  height = pos 2;
  pix_fmt = pos 0;
  planes = 7 ∷ 8 ∷ [];
  pts = pos 60;
  time_base = millis;
}

abbrev pub sws : Scaling.Sws ℕ
sws = record {
  sws_get_context = λ o. some 0;
  sws_scale_frame = λ n p. (some (record p { planes = n ∷ p.planes }), suc n);
  av_image_alloc = λ w h fmt p. (pos 16, Scaling.live);
}

abbrev to_yuyv : Scaling.Call
to_yuyv = record { wrapper = picture; w = pos 4; h = pos 2; fmt = pix_fmt_yuyv422 }

scale_all-eq-scale_each_example :
    (outcomes : List (Bool × Picture)) × (scale_all sws (to_yuyv ∷ to_yuyv ∷ []) Scaling.new_helper
      ≡ ok outcomes)
    × (scale_each sws (to_yuyv ∷ to_yuyv ∷ []) ≡ ok outcomes)
unfolding Scaling.new_helper
scale_all-eq-scale_each_example =
    scale_all-eq-scale_each sws (to_yuyv ∷ to_yuyv ∷ []) Scaling.new_helper
      ((λ p. (omega arith, refl)), ((λ p. (omega arith, refl)), tt)) (refl, tt)
