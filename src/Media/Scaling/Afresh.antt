-- ===== src/Media/Scaling/Afresh.antt =====
-- Runs of VideoScaleHelper::Scale, util/video_scale_helper.cc, against a new helper for each frame.
use live_streaming.Base.{
  ℤ, pos, negsuc, ◌≤ℤ◌, ltb_ℤ, ◌≡◌, refl, sym, subst, Bool, true, false, Bool-cases, List, [], ◌∷◌,
  ◌==ℤ◌, ◌&&◌, Option, none, some, Option-cases, inl, inr, arith,
}
use live_streaming.Result.{Result, ok, ◌>>=◌}
use live_streaming.Media.{Picture}
use live_streaming.Media.Scaling.{
  Pointer, null, live, freed, PixelData, Sws, VideoScaleHelper, Call, asked, free, new_helper,
  is_open, is_current, allocated, reset_pixels, reopen, reset_sws_context, scaled, convert, scale,
}

abbrev pub IsAllocated : Pointer → Type 0
IsAllocated freed = ⊥
IsAllocated _ = Unit

pub free-IsAllocated : (p : Pointer) → IsAllocated p → (q : Pointer) × (free p ≡ ok q)
unfolding free
free-IsAllocated null a = (null, refl)
free-IsAllocated live a = (freed, refl)
free-IsAllocated freed a = elim a [ ]

allocated-IsAllocated :
    (w h fmt : ℤ) (p : PixelData) (r : ℤ × Pointer)
    → pos 0 ≤ℤ r.0
    → r.1 ≡ live
    → (q : PixelData) × (allocated w h fmt p r ≡ (true, q)) × IsAllocated q.data_0
unfolding allocated
allocated-IsAllocated w h fmt p (size, data_0) f e =
    let fits : ltb_ℤ size (pos 0) ≡ false = ground arith in
    (
      record p { data_0 = data_0; data_size = size; width = w; height = h; pix_fmt = fmt },
      rw fits refl,
      subst IsAllocated (sym e) tt,
    )

module _ {Context : Type 0} (sws : Sws Context) where
  -- What the calls on one helper return.
  unfoldable pub scale_all : List Call → VideoScaleHelper Context → Result (List (Bool × Picture))
  scale_all [] s = ok []
  scale_all (c ∷ cs) s = do
    (b, frame, s') ← scale sws c s
    rest ← scale_all cs s'
    ok ((b, frame) ∷ rest)

  -- What each call returns on a helper of its own.
  unfoldable pub scale_each : List Call → Result (List (Bool × Picture))
  scale_each [] = ok []
  scale_each (c ∷ cs) = do
    (b, frame, s) ← scale sws c new_helper
    rest ← scale_each cs
    ok ((b, frame) ∷ rest)

  -- The buffer for the call's target can be allocated, whatever the pointer was before.
  abbrev pub Fits : Call → Type 0
  Fits c =
      (p : Pointer) → let r = sws.av_image_alloc c.w c.h c.fmt p in (pos 0 ≤ℤ r.0) × (r.1 ≡ live)

  abbrev pub AllFit : List Call → Type 0
  AllFit [] = Unit
  AllFit (c ∷ cs) = Fits c × AllFit cs

  record HasBuffer (c : Call) (p : PixelData) : Type 0 where
    next : PixelData
    runs : reset_pixels sws c.w c.h c.fmt p ≡ ok (true, next)
    allocated : IsAllocated next.data_0

  reset_pixels-HasBuffer :
      (c : Call) (p : PixelData) → Fits c → IsAllocated p.data_0 → HasBuffer c p
  unfolding reset_pixels allocated
  reset_pixels-HasBuffer c p f a =
      elim (Bool-cases (c.w ==ℤ p.width && c.h ==ℤ p.height && p.pix_fmt ==ℤ c.fmt)) [
        | inl e ↦ record { next = p; runs = rw e refl; allocated = a }
        | inr e ↦
            let (q, freed_then) = free-IsAllocated p.data_0 a in
            let (fits, now_live) = f q in
            let (next, done, now_allocated) =
              allocated-IsAllocated c.w c.h c.fmt p _ fits now_live in
            record { next = next; runs = rw (e, freed_then, done) refl; allocated = now_allocated }
      ]

  -- No context is kept: is_current reads a field that nothing sets.
  abbrev pub IsStale : VideoScaleHelper Context → Type 0
  IsStale s = (s.pixel_data.data_size ≡ negsuc 0) × IsAllocated s.sws_pixel_data.data_0

  is_current-IsStale :
      (s : VideoScaleHelper Context) (c : Call) → IsStale s → is_current (asked c) s ≡ false
  unfolding is_current is_open
  is_current-IsStale s c i = elim (Option-cases s.sws_context) [
    | inl e ↦ rw e refl
    | inr (x, e) ↦ rw (e, i.0) refl
  ]

  scaled-parts :
      (c : Call) (r : Option Picture × Context)
      → (o : Bool × Picture) × (ctx : Context) × ((s : VideoScaleHelper Context)
          → scaled sws c s r ≡ (o.0, o.1, record s { sws_context = some ctx }))
  unfolding scaled
  scaled-parts c (none, ctx) = ((false, c.wrapper), ctx, λ s. refl)
  scaled-parts c (some x, ctx) =
      ((true, record x { pts = c.wrapper.pts; time_base = c.wrapper.time_base }), ctx, λ s. refl)

  -- The call returns the same on every helper that keeps no context.
  record Answers (c : Call) : Type 0 where
    outcome : Bool × Picture
    answered :
        (s : VideoScaleHelper Context)
        → IsStale s
        → (next : VideoScaleHelper Context) × IsStale next
          × (scale sws c s ≡ ok (outcome.0, outcome.1, next))

  scale-Answers : (c : Call) → Fits c → Answers c
  unfolding scale reset_sws_context reopen convert
  scale-Answers c f = elim (Option-cases (sws.sws_get_context (asked c))) [
    | inl e ↦ record {
      outcome = (false, c.wrapper);
      answered = λ s i. (s, i, rw (is_current-IsStale s c i, e) refl);
    }
    | inr (ctx, e) ↦
        let (o, ctx', parts) = scaled-parts c (sws.sws_scale_frame ctx c.wrapper) in
        record {
          outcome = o;
          answered = λ s i.
              let p = reset_pixels-HasBuffer c s.sws_pixel_data f i.1 in
              (
                record s {
                  sws_pixel_data = p.next;
                  sws_context = some ctx';
                  src_width = c.wrapper.width;
                  src_height = c.wrapper.height;
                  src_pix_fmt = c.wrapper.pix_fmt;
                },
                (i.0, p.allocated),
                rw (is_current-IsStale s c i, e, p.runs, parts _) refl,
              );
        }
  ]

  -- As long as the buffers for the calls' targets can be allocated, the calls on one helper that
  -- keeps no context, made in sequence, free no buffer twice and return what each returns on a new
  -- helper: ResetSwsContext never finds its context current.
  pub scale_all-eq-scale_each :
      (cs : List Call) (s : VideoScaleHelper Context)
      → AllFit cs
      → IsStale s
      → (outcomes : List (Bool × Picture)) × (scale_all cs s ≡ ok outcomes)
        × (scale_each cs ≡ ok outcomes)
  unfolding scale_all scale_each new_helper
  scale_all-eq-scale_each [] s f i = ([], refl, refl)
  scale_all-eq-scale_each (c ∷ cs) s f i =
      let a = scale-Answers c f.0 in
      let (next, j, runs) = a.answered s i in
      let (fresh, k, runs_fresh) = a.answered new_helper (refl, tt) in
      let (rest, all, each) = scale_all-eq-scale_each cs next f.1 j in
      (a.outcome ∷ rest, rw (runs, all) refl, rw (runs_fresh, each) refl)
