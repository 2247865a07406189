-- ===== src/Media/Resampling.antt =====
-- util/audio_resample_helper.h and util/audio_resample_helper.cc: the resampler with the context that
-- it keeps between frames.
use live_streaming.Base.{
  ℕ, ◌≡◌, ◌≢◌, refl, Bool, true, false, inl, inr, List, [], ◌∷◌, ◌==◌, ◌&&◌, if◌then◌else◌, Option,
  none, some, Option-cases, arith,
}
use live_streaming.Result.{Result, ok, faults, ◌>>=◌}
use live_streaming.Media.{SampleFormat, Sample, format_code}

-- The options of a SwrContext, and the fields that record them: swr_in_channel_layout_ and so on.
pub record SwrOptions : Type 0 where
  pub in_channel_layout : ℕ
  pub in_sample_rate : ℕ
  pub in_sample_fmt : SampleFormat
  pub out_channel_layout : ℕ
  pub out_sample_rate : ℕ
  pub out_sample_fmt : SampleFormat

-- The frame that av_frame_alloc makes; swr_alloc, the options and swr_init as one call that may
-- fail; and swr_convert_frame on the frame to fill and the frame to convert, which changes the
-- context.
pub record Swr (Context : Type 0) : Type 0 where
  pub av_frame_alloc : Sample
  pub swr_init : SwrOptions → Option Context
  pub swr_convert_frame : Context → Sample → Sample → Option Sample × Context

pub record AudioResampleHelper (Context : Type 0) : Type 0 where
  pub swr_ctx : Option Context
  pub options : SwrOptions

-- A call of Resample.
pub record Call : Type 0 where
  pub wrapper : Sample
  pub out_rate : ℕ
  pub out_channel_layout : ℕ
  pub out_fmt : SampleFormat

-- The options that a call asks for.
unfoldable pub asked : Call → SwrOptions
asked c = record {
  in_channel_layout = c.wrapper.channel_layout;
  in_sample_rate = c.wrapper.sample_rate;
  in_sample_fmt = c.wrapper.format;
  out_channel_layout = c.out_channel_layout;
  out_sample_rate = c.out_rate;
  out_sample_fmt = c.out_fmt;
}

module _ {Context : Type 0} where
  -- The members are not initialised but for the pointer; they are read only when it is not null.
  unfoldable pub new_helper : SwrOptions → AudioResampleHelper Context
  new_helper garbage = record { swr_ctx = none; options = garbage }

  -- The test at the start of Reset. It compares the rate with the layout.
  unfoldable pub is_current : SwrOptions → AudioResampleHelper Context → Bool
  is_current o h = elim (h.swr_ctx) [
    | none ↦ false
    | some _ ↦
        let p = h.options in
        p.in_channel_layout == o.in_channel_layout
        && p.in_sample_rate == o.in_sample_rate
        && format_code p.in_sample_fmt == format_code o.in_sample_fmt
        && p.out_channel_layout == o.out_channel_layout
        && p.out_sample_rate == o.out_channel_layout
        && format_code p.out_sample_fmt == format_code o.out_sample_fmt
  ]

module _ {Context : Type 0} (swr : Swr Context) where
  -- Reset from swr_alloc on.
  unfoldable pub reopen :
      Option Context → SwrOptions → AudioResampleHelper Context → Bool × AudioResampleHelper Context
  reopen none o h = (false, h)
  reopen (some ctx) o h = (true, record { swr_ctx = some ctx; options = o })

  unfoldable pub reset :
      SwrOptions → AudioResampleHelper Context → Bool × AudioResampleHelper Context
  unfolding reopen
  reset o h = if is_current o h then (true, h) else reopen (swr.swr_init o) o h

  -- The new frame, as av_frame_alloc made it but for what is set before swr_convert_frame is called.
  abbrev pub target : Call → Sample
  target c = record (swr.av_frame_alloc) {
    channel_layout = c.out_channel_layout;
    sample_rate = c.out_rate;
    format = c.out_fmt;
  }

  -- Resample from swr_convert_frame on: whether it returns true, and the frame.
  unfoldable pub converted :
      Call
      → AudioResampleHelper Context
      → Option Sample × Context
      → Bool × Sample × AudioResampleHelper Context
  converted c h (none, ctx) = (false, c.wrapper, record h { swr_ctx = some ctx })
  converted c h (some new_sample, ctx) = (
    true,
    record new_sample { pts = c.wrapper.pts; time_base = c.wrapper.time_base },
    record h { swr_ctx = some ctx },
  )

  unfoldable pub convert :
      Call
      → Bool × AudioResampleHelper Context
      → Result (Bool × Sample × AudioResampleHelper Context)
  unfolding converted
  convert c (false, h) = ok (false, c.wrapper, h)
  convert c (true, h) = elim (h.swr_ctx) [
    | none ↦ faults
    | some ctx ↦ ok (converted c h (swr.swr_convert_frame ctx (target c) c.wrapper))
  ]

  unfoldable pub resample :
      Call → AudioResampleHelper Context → Result (Bool × Sample × AudioResampleHelper Context)
  unfolding reset convert
  resample c h = convert c (reset (asked c) h)

  -- What the calls on one helper return.
  unfoldable pub resample_all :
      List Call → AudioResampleHelper Context → Result (List (Bool × Sample))
  unfolding resample
  resample_all [] h = ok []
  resample_all (c ∷ cs) h = do
    (b, frame, h') ← resample c h
    rest ← resample_all cs h'
    ok ((b, frame) ∷ rest)

  -- What each call returns on a helper of its own.
  unfoldable pub resample_each : SwrOptions → List Call → Result (List (Bool × Sample))
  unfolding resample
  resample_each garbage [] = ok []
  resample_each garbage (c ∷ cs) = do
    (b, frame, h) ← resample c (new_helper garbage)
    rest ← resample_each garbage cs
    ok ((b, frame) ∷ rest)

  -- A target whose sample rate is not the number of its channel layout.
  abbrev pub HasRate : Call → Type 0
  HasRate c = c.out_channel_layout ≢ c.out_rate

  abbrev pub HaveRates : List Call → Type 0
  HaveRates [] = Unit
  HaveRates (c ∷ cs) = HasRate c × HaveRates cs

  -- The context was not made for such a target.
  abbrev pub IsStale : AudioResampleHelper Context → Type 0
  IsStale h = elim (h.swr_ctx) [
    | none ↦ Unit
    | some _ ↦ h.options.out_channel_layout ≢ h.options.out_sample_rate
  ]

  is_current-IsStale :
      (o : SwrOptions) (ctx : Option Context) (p : SwrOptions)
      → let h : AudioResampleHelper Context = record { swr_ctx = ctx; options = p } in
        IsStale h → is_current o h ≡ false
  unfolding is_current
  is_current-IsStale o none p s = refl
  is_current-IsStale o (some x) p s = ground arith

  converted-IsStale :
      (c : Call) (ctx : Context) (p : Option Sample × Context)
      → HasRate c
      → IsStale (converted c (record { swr_ctx = some ctx; options = asked c }) p).2
  unfolding converted asked
  converted-IsStale c ctx (none, ctx') r = r
  converted-IsStale c ctx (some x, ctx') r = r

  module _ (garbage : SwrOptions) where
    -- What a call does to a stale helper is what it does to a new one.
    record IsFresh (c : Call) (h : AudioResampleHelper Context) : Type 0 where
      next : AudioResampleHelper Context
      next_fresh : AudioResampleHelper Context
      outcome : Bool × Sample
      stale : IsStale next
      runs : resample c h ≡ ok (outcome.0, outcome.1, next)
      runs_fresh : resample c (new_helper garbage) ≡ ok (outcome.0, outcome.1, next_fresh)

    resample-IsFresh :
        (c : Call) (h : AudioResampleHelper Context) → HasRate c → IsStale h → IsFresh c h
    unfolding resample reset convert new_helper is_current reopen converted asked
    resample-IsFresh c h r s = elim (Option-cases (swr.swr_init (asked c))) [
      | inl e ↦ record {
        next = h;
        next_fresh = new_helper garbage;
        outcome = (false, c.wrapper);
        stale = s;
        runs = rw (is_current-IsStale (asked c) h.swr_ctx h.options s, e) refl;
        runs_fresh = rw e refl;
      }
      | inr (ctx, e) ↦
          let made : AudioResampleHelper Context = record {
            swr_ctx = some ctx;
            options = asked c;
          } in
          let t = converted c made (swr.swr_convert_frame ctx (target c) c.wrapper) in
          record {
            next = t.2;
            next_fresh = t.2;
            outcome = (t.0, t.1);
            stale = converted-IsStale c ctx (swr.swr_convert_frame ctx (target c) c.wrapper) r;
            runs = rw (is_current-IsStale (asked c) h.swr_ctx h.options s, e) refl;
            runs_fresh = rw e refl;
          }
    ]

  -- If no call's target has a sample rate equal to the number of its channel layout, the calls on one
  -- helper, made in sequence, return what each would return on a new helper: the context that the
  -- helper keeps is never used again.
  pub resample_all-eq-resample_each :
      (garbage : SwrOptions) (cs : List Call) (h : AudioResampleHelper Context)
      → HaveRates cs
      → IsStale h
      → resample_all cs h ≡ resample_each garbage cs
  unfolding resample_all resample_each
  resample_all-eq-resample_each garbage [] h r s = refl
  resample_all-eq-resample_each garbage (c ∷ cs) h r s =
      let f = resample-IsFresh garbage c h r.0 s in
      rw (f.runs, f.runs_fresh, resample_all-eq-resample_each garbage cs f.next r.1 f.stale) refl
