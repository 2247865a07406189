-- ===== src/Media/Speaker/Formats.antt =====
-- The formats of the frames that Submit lets through, util/speaker.cc.
use live_streaming.Base.{
  ◌≡◌, refl, sym, subst, ◌⊎◌, inl, inr, Bool, true, false, Bool-cases, Option, none, some,
  Option-cases, arith,
}
use live_streaming.Result.{ok}
use live_streaming.Media.{
  SampleFormat, Sample, u8, s16, s32, flt, dbl, u8p, s16p, s32p, fltp, dblp, s64, s64p,
  other_format, sample_fmt_none,
}
use live_streaming.Media.Resampling.{
  AudioResampleHelper, SwrOptions, Swr, Call, asked, target, is_current, reopen, reset, converted,
  convert, resample,
}
use live_streaming.Media.Speaker.{AudioFormat, Speaker}
use live_streaming.Media.Speaker.Device.{
  sdl_format, is_packed, packed_format, convert_planar_sample_to_packed,
}

-- ResetAudioDevice has a case for the format.
abbrev pub IsPlayable : SampleFormat → Type 0
IsPlayable format = (f : AudioFormat) × (sdl_format format ≡ some f)

is_packed-IsPlayable : (format : SampleFormat) → is_packed format ≡ true → IsPlayable format
unfolding is_packed sdl_format
is_packed-IsPlayable u8 e = (_, refl)
is_packed-IsPlayable s16 e = (_, refl)
is_packed-IsPlayable s32 e = (_, refl)
is_packed-IsPlayable flt e = (_, refl)
is_packed-IsPlayable dbl e = ground arith
is_packed-IsPlayable u8p e = ground arith
is_packed-IsPlayable s16p e = ground arith
is_packed-IsPlayable s32p e = ground arith
is_packed-IsPlayable fltp e = ground arith
is_packed-IsPlayable dblp e = ground arith
is_packed-IsPlayable s64 e = ground arith
is_packed-IsPlayable s64p e = ground arith
is_packed-IsPlayable sample_fmt_none e = ground arith
is_packed-IsPlayable (other_format n) e = ground arith

abbrev IsPlayableOrNone : Option SampleFormat → Type 0
IsPlayableOrNone none = Unit
IsPlayableOrNone (some format) = IsPlayable format

packed_format-IsPlayableOrNone : (format : SampleFormat) → IsPlayableOrNone (packed_format format)
unfolding packed_format sdl_format
packed_format-IsPlayableOrNone dbl = (_, refl)
packed_format-IsPlayableOrNone u8p = (_, refl)
packed_format-IsPlayableOrNone s16p = (_, refl)
packed_format-IsPlayableOrNone s32p = (_, refl)
packed_format-IsPlayableOrNone fltp = (_, refl)
packed_format-IsPlayableOrNone dblp = (_, refl)
packed_format-IsPlayableOrNone s64 = (_, refl)
packed_format-IsPlayableOrNone s64p = (_, refl)
packed_format-IsPlayableOrNone u8 = tt
packed_format-IsPlayableOrNone s16 = tt
packed_format-IsPlayableOrNone s32 = tt
packed_format-IsPlayableOrNone flt = tt
packed_format-IsPlayableOrNone sample_fmt_none = tt
packed_format-IsPlayableOrNone (other_format n) = tt

packed_format-IsPlayable :
    (format out : SampleFormat) → packed_format format ≡ some out → IsPlayable out
packed_format-IsPlayable format out e =
    subst IsPlayableOrNone e (packed_format-IsPlayableOrNone format)

module _ {Context : Type 0} (swr : Swr Context) where
  -- swr_convert_frame fills a frame of the format that is set in it.
  abbrev pub KeepsFormat : Type 0
  KeepsFormat =
      (ctx : Context) (new_sample sample filled : Sample)
      → (swr.swr_convert_frame ctx new_sample sample).0 ≡ some filled
      → filled.format ≡ new_sample.format

  current-IsOpen :
      (o : SwrOptions) (ctx : Option Context) (p : SwrOptions)
      → is_current o (record { swr_ctx = ctx; options = p }) ≡ true
      → (x : Context) × (ctx ≡ some x)
  unfolding is_current
  current-IsOpen o none p e = ground arith
  current-IsOpen o (some x) p e = (x, refl)

  -- Reset fails and changes nothing, or leaves an open context.
  reset_cases :
      (o : SwrOptions) (h : AudioResampleHelper Context)
      → (reset swr o h ≡ (false, h))
        ⊎ ((next : AudioResampleHelper Context) × (ctx : Context) × (next.swr_ctx ≡ some ctx)
            × (reset swr o h ≡ (true, next)))
  unfolding reset reopen
  reset_cases o h = elim (Bool-cases (is_current o h)) [
    | inl c ↦ let (x, e) = current-IsOpen o h.swr_ctx h.options c in inr (h, x, e, rw c refl)
    | inr c ↦ elim (Option-cases (swr.swr_init o)) [
      | inl f ↦ inl (rw (c, f) refl)
      | inr (x, f) ↦ inr (record { swr_ctx = some x; options = o }, x, refl, rw (c, f) refl)
    ]
  ]

  -- Resample returns, and if it returns true the frame has the format that was asked for.
  record Ends (c : Call) (h : AudioResampleHelper Context) : Type 0 where
    success : Bool
    frame : Sample
    next : AudioResampleHelper Context
    runs : resample swr c h ≡ ok (success, frame, next)
    has_format : success ≡ true → frame.format ≡ c.out_fmt

  converted-format :
      (k : KeepsFormat) (c : Call) (h : AudioResampleHelper Context) (ctx : Context)
      (r : Option Sample × Context)
      → r.0 ≡ (swr.swr_convert_frame ctx (target swr c) c.wrapper).0
      → (converted swr c h r).0 ≡ true
      → (converted swr c h r).1.format ≡ c.out_fmt
  unfolding converted
  converted-format k c h ctx (none, ctx') e t = ground arith
  converted-format k c h ctx (some x, ctx') e t = k ctx (target swr c) c.wrapper x (sym e)

  resample-Ends : KeepsFormat → (c : Call) (h : AudioResampleHelper Context) → Ends c h
  unfolding resample convert
  resample-Ends k c h = elim (reset_cases (asked c) h) [
    | inl e ↦ record {
      success = false;
      frame = c.wrapper;
      next = h;
      runs = rw e refl;
      has_format = λ t. ground arith;
    }
    | inr (next, ctx, is_open, e) ↦
        let r = swr.swr_convert_frame ctx (target swr c) c.wrapper in
        record {
          success = (converted swr c next r).0;
          frame = (converted swr c next r).1;
          next = (converted swr c next r).2;
          runs = rw e (rw (convert, is_open) refl);
          has_format = converted-format k c next ctx r refl;
        }
  ]

  -- ConvertPlanarSampleToPacked returns, and a frame that it accepts has a format that
  -- ResetAudioDevice has a case for, given that swr_convert_frame fills a frame of the format that is
  -- set in it.
  pub convert_planar_sample_to_packed-Returns :
      KeepsFormat
      → (sample : Sample) (s : Speaker Context)
      → (success : Bool) × (frame : Sample) × (next : Speaker Context)
        × (convert_planar_sample_to_packed swr sample s ≡ ok (success, frame, next))
        × (success ≡ true → IsPlayable frame.format)
  unfolding convert_planar_sample_to_packed
  convert_planar_sample_to_packed-Returns k sample s = elim (Bool-cases (is_packed sample.format)) [
    | inl p ↦ (true, sample, s, rw p refl, λ t. is_packed-IsPlayable sample.format p)
    | inr p ↦ elim (Option-cases (packed_format sample.format)) [
      | inl f ↦ (false, sample, s, rw (p, f) refl, λ t. ground arith)
      | inr (out, f) ↦
          let c : Call = record {
            wrapper = sample;
            out_rate = sample.sample_rate;
            out_channel_layout = sample.channel_layout;
            out_fmt = out;
          } in
          let r = resample-Ends k c s.audio_resample_helper in
          (
            r.success,
            r.frame,
            record s { audio_resample_helper = r.next },
            rw (p, f) (rw r.runs refl),
            λ t.
                subst IsPlayable (sym (r.has_format t))
                  (packed_format-IsPlayable sample.format out f),
          )
    ]
  ]
