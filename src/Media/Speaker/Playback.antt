-- ===== src/Media/Speaker/Playback.antt =====
-- SDL's callback, util/speaker.cc, as a stream of bytes: those of the buffer and then those of the
-- queued frames.
use live_streaming.Base.{
  ℕ, suc, zero, ◌-◌, replicate, if◌then◌else◌, length-take, ◌≤◌, ◌<◌, ◌≡◌, refl, sym, ap, ◌∙◌,
  subst, ◌⊎◌, inl, inr, true, false, Bool-cases, List, [], ◌∷◌, ◌++◌, ◌==◌, ltb, leb, length, take,
  drop, append_assoc, append-nil, take-append_short, drop-append_short, take_all, drop_all, arith,
}
use live_streaming.Result.{Result, ok}
use live_streaming.Queue.{Queue, try_to_get}
use live_streaming.Media.{Sample}
use live_streaming.Media.Speaker.{
  Speaker, AudioLibrary, AudioFormat, Heard, size_of, refill, available, mix,
  sdl_audio_device_callback,
}

available-le :
    (len : ℕ) (filled : List ℕ)
    → (available len filled ≤ len) × (available len filled ≤ length filled)
unfolding available
available-le len filled = ground arith

-- The stream of `len` bytes that SDL's callback is to fill, when `played` is mixed onto zeros at its
-- front.
abbrev pub mixed_onto : AudioLibrary → AudioFormat → ℕ → List ℕ → List ℕ
mixed_onto lib format len played =
    if length played == 0
    then replicate len 0
    else lib.mix_audio_format format (replicate (length played) 0) played
      ++ replicate (len - length played) 0

take-replicate : (n len : ℕ) → n ≤ len → take n (replicate {A = ℕ} len 0) ≡ replicate n 0
take-replicate zero len l = refl
take-replicate (suc n) zero l = absurd (omega (arith, l))
take-replicate (suc n) (suc len) l = ap (◌∷◌ 0) (take-replicate n len (omega (arith, l)))

drop-replicate : (n len : ℕ) → drop n (replicate {A = ℕ} len 0) ≡ replicate (len - n) 0
drop-replicate zero len = let e : len - 0 ≡ len = omega arith in rw e refl
drop-replicate (suc n) zero = let e : 0 - suc n ≡ 0 = omega arith in rw e refl
drop-replicate (suc n) (suc len) =
    let e : suc len - suc n ≡ len - n = omega arith in rw e (drop-replicate n len)

available-take :
    (len : ℕ) (filled more : List ℕ)
    → (len ≤ length filled) ⊎ (more ≡ [])
    → (take (available len filled) filled ≡ take len (filled ++ more))
      × (drop (available len filled) filled ++ more ≡ drop len (filled ++ more))
unfolding available
available-take len filled more (inl h) =
    let long : ltb (length filled) len ≡ false = ground arith in
    rw long (sym (take-append_short len filled more h), sym (drop-append_short len filled more h))
available-take len filled more (inr e) =
    rw (e, append-nil filled, append-nil (drop (available len filled) filled))
      (elim (Bool-cases (ltb (length filled) len)) [
        | inl f ↦
            let short : length filled ≤ len = ground arith in
            rw
              (
                f,
                take_all (length filled) filled (omega arith),
                take_all len filled short,
                drop_all (length filled) filled (omega arith),
                drop_all len filled short,
              )
              (refl, refl)
        | inr f ↦ rw f (refl, refl)
      ])

module _ (lib : AudioLibrary) where
  -- The memory behind the frame's data[0] has the bytes that the callback copies.
  abbrev pub IsWhole : Sample → Type 0
  IsWhole sample = size_of lib sample ≤ length sample.samples

  abbrev pub AreWhole : List Sample → Type 0
  AreWhole [] = Unit
  AreWhole (sample ∷ samples) = IsWhole sample × AreWhole samples

  abbrev pub bytes_of : List Sample → List ℕ
  bytes_of [] = []
  bytes_of (sample ∷ samples) = take (size_of lib sample) sample.samples ++ bytes_of samples

  record Refilled (len : ℕ) (buffer : List ℕ) (queued : List Sample) (bound : ℕ)
      (out : Result (List Sample × List ℕ × Queue Sample)) : Type 0 where
    called : List Sample
    filled : List ℕ
    left : List Sample
    runs : out ≡ ok (called, filled, record { q = left; capacity = bound })
    order : queued ≡ called ++ left
    bytes : filled ++ bytes_of left ≡ buffer ++ bytes_of queued
    enough : (len ≤ length filled) ⊎ (left ≡ [])
    whole : AreWhole left

  refill-Refilled :
      (fuel len : ℕ) (buffer : List ℕ) (queued : List Sample) (bound : ℕ)
      → length queued < fuel
      → AreWhole queued
      → Refilled len buffer queued bound
          (refill lib fuel len buffer (record { q = queued; capacity = bound }))
  unfolding refill try_to_get
  refill-Refilled zero len buffer queued bound f w = absurd (omega arith)
  refill-Refilled (suc fuel) len buffer [] bound f w = elim (Bool-cases (ltb (length buffer) len)) [
    | inl e ↦ record {
      called = [];
      filled = buffer;
      left = [];
      runs = rw e refl;
      order = refl;
      bytes = refl;
      enough = inr refl;
      whole = tt;
    }
    | inr e ↦ record {
      called = [];
      filled = buffer;
      left = [];
      runs = rw e refl;
      order = refl;
      bytes = refl;
      enough = inr refl;
      whole = tt;
    }
  ]
  refill-Refilled (suc fuel) len buffer (x ∷ xs) bound f w =
      elim (Bool-cases (ltb (length buffer) len)) [
        | inl e ↦
            let r =
              refill-Refilled fuel len (buffer ++ take (size_of lib x) x.samples) xs bound
                (omega arith) w.1 in
            let fits : leb (size_of lib x) (length x.samples) ≡ true = ground arith in
            record {
              called = x ∷ r.called;
              filled = r.filled;
              left = r.left;
              runs = rw (e, fits, r.runs) refl;
              order = ap (◌∷◌ x) r.order;
              bytes = r.bytes ∙ append_assoc buffer (take (size_of lib x) x.samples) (bytes_of xs);
              enough = r.enough;
              whole = r.whole;
            }
        | inr e ↦ record {
          called = [];
          filled = buffer;
          left = x ∷ xs;
          runs = rw e refl;
          order = refl;
          bytes = refl;
          enough = inl (ground arith);
          whole = w;
        }
      ]

  module _ {Context : Type 0} where
    -- What is yet to be played.
    abbrev pub pending : Speaker Context → List ℕ
    pending s = s.sample_buffer ++ bytes_of s.sample_queue.q

    -- The callback as one of a stream of bytes.
    pub record Plays (len : ℕ) (s : Speaker Context) : Type 0 where
      pub heard : Heard
      pub next : Speaker Context
      pub runs : sdl_audio_device_callback lib len s ≡ ok (heard, next)
      pub mixed : heard.mixed ≡ take len (pending s)
      pub stream :
          heard.stream ≡ mixed_onto lib s.desired_audio_spec.format len (take len (pending s))
      pub spec_kept : next.desired_audio_spec ≡ s.desired_audio_spec
      pub kept : pending next ≡ drop len (pending s)
      pub order : s.sample_queue.q ≡ heard.called ++ next.sample_queue.q
      pub capacity_kept : next.sample_queue.capacity ≡ s.sample_queue.capacity
      pub whole : AreWhole next.sample_queue.q

    record Mixes (n len : ℕ) (s : Speaker Context) (called : List Sample) (filled : List ℕ)
        (queue : Queue Sample) (out : Heard × Speaker Context) : Type 0 where
      same_calls : out.0.called ≡ called
      mixed : out.0.mixed ≡ take n filled
      stream : out.0.stream ≡ mixed_onto lib s.desired_audio_spec.format len (take n filled)
      spec_kept : out.1.desired_audio_spec ≡ s.desired_audio_spec
      buffer : out.1.sample_buffer ≡ drop n filled
      same_queue : out.1.sample_queue ≡ queue

    mix-Mixes :
        (n len : ℕ) (s : Speaker Context) (called : List Sample) (filled : List ℕ)
        (queue : Queue Sample)
        → n ≤ len
        → n ≤ length filled
        → Mixes n len s called filled queue (mix lib n len s (called, filled, queue))
    unfolding mix
    mix-Mixes zero len s called filled queue l k = record {
      same_calls = refl;
      mixed = refl;
      stream = refl;
      spec_kept = refl;
      buffer = refl;
      same_queue = refl;
    }
    mix-Mixes (suc n) len s called filled queue l k =
        let positive : (suc n == 0) ≡ false = ground arith in
        let size : length (take (suc n) filled) ≡ suc n =
          omega (arith, length-take (suc n) filled, k) in
        rw positive (record {
          same_calls = refl;
          mixed = refl;
          stream =
              rw (size, positive)
                (rw (take-replicate (suc n) len l, drop-replicate (suc n) len) refl);
          spec_kept = refl;
          buffer = refl;
          same_queue = refl;
        })

    -- One call of SDL's callback for len bytes ends, and leaves in the device's stream zeros onto which
    -- the first len bytes of those that are pending, in the buffer and then in the queued frames, or all
    -- of them if they are fewer, were mixed from the front by SDL_MixAudioFormat in the device's format;
    -- the others stay pending, and callback_ has been called with the frames that left the queue, in
    -- order. The queued frames are to have the bytes that the callback copies.
    pub callback-Plays : (len : ℕ) (s : Speaker Context) → AreWhole s.sample_queue.q → Plays len s
    unfolding sdl_audio_device_callback
    callback-Plays len s w =
        let r =
          refill-Refilled (suc (length s.sample_queue.q)) len s.sample_buffer s.sample_queue.q
            s.sample_queue.capacity (omega arith) w in
        let queue : Queue Sample = record { q = r.left; capacity = s.sample_queue.capacity } in
        let le = available-le len r.filled in
        let m = mix-Mixes (available len r.filled) len s r.called r.filled queue le.0 le.1 in
        let cut =
          available-take len r.filled (bytes_of r.left)
            (elim (r.enough) [ inl h ↦ inl h | inr e ↦ inr (ap bytes_of e) ]) in
        record {
          heard = (mix lib (available len r.filled) len s (r.called, r.filled, queue)).0;
          next = (mix lib (available len r.filled) len s (r.called, r.filled, queue)).1;
          runs = rw r.runs refl;
          mixed = m.mixed ∙ cut.0 ∙ ap (take len) r.bytes;
          stream =
              m.stream
              ∙ ap (mixed_onto lib s.desired_audio_spec.format len) (cut.0 ∙ ap (take len) r.bytes);
          spec_kept = m.spec_kept;
          kept = rw (m.buffer, m.same_queue) (cut.1 ∙ ap (drop len) r.bytes);
          order = rw (m.same_calls, m.same_queue) r.order;
          capacity_kept = ap (λ (q : Queue Sample). q.capacity) m.same_queue;
          whole = subst (λ (q : Queue Sample). AreWhole q.q) (sym m.same_queue) r.whole;
        }
